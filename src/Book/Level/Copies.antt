-- ===== src/Book/Level/Copies.antt =====
-- What the helpers that write a level do to a sound level.
use tiltyard.Base.{
  ℕ, ◌+◌, ◌-◌, ◌/◌, ◌≤◌, ◌<◌, ◌≡◌, refl, List, [], ◌∷◌, append-nil, length, reject, take_all, u16,
  sub32, ◌==◌, if◌then◌else◌, arith,
}
use tiltyard.Book.Types.{Entry, Level, level_size}
use tiltyard.Book.Level.{copy_level, splice_entries}
use tiltyard.Book.Shape.{total}

-- Under 8192 orders the u16 byte count of a copy does not wrap, and nothing stale is taken over.
pub copy_level-eq :
    (stale : ℕ → Entry) (l : Level) (at : ℕ)
    → length l.entries < 8192
    → copy_level stale l at ≡ record l { byte_offset = at }
unfolding copy_level
copy_level-eq stale l at h =
    let n : (u16 (level_size (length l.entries)) - 4) / 8 ≡ length l.entries =
      unfold level_size in omega arith in
    rw n (
      rw (take_all (length l.entries) l.entries (omega arith)) (
        let z : length l.entries - length l.entries ≡ 0 = omega arith in
        rw z (rw (append-nil l.entries))))

-- The shares that the entries with an id hold.
abbrev pub hit_total : ℕ → List Entry → ℕ
hit_total id [] = 0
hit_total id (e ∷ es) = (if e.order_id == id then e.quantity else 0) + hit_total id es

pub splice_entries_lem :
    (id : ℕ) (es : List Entry) (q : ℕ)
    → hit_total id es ≤ q
    → q < 4294967296
    → splice_entries es id q ≡ (q - hit_total id es, reject (λ (e : Entry). e.order_id == id) es)
unfolding splice_entries reject
splice_entries_lem id [] q h k = ground arith
splice_entries_lem id (e ∷ es) q h k =
    ground (arith, splice_entries_lem id es q, splice_entries_lem id es (sub32 q e.quantity))

pub hit_total-add-kept :
    (id : ℕ) (es : List Entry)
    → hit_total id es + total (reject (λ (e : Entry). e.order_id == id) es) ≡ total es
unfolding reject
hit_total-add-kept id [] = refl
hit_total-add-kept id (e ∷ es) = ground (arith, hit_total-add-kept id es)
