-- ===== src/Blobs/Moving.antt =====
-- The loop that moves the live blobs together keeps their bytes.
use tiltyard.Base.{
  ℕ, zero, suc, ◌+◌, ◌-◌, ◌%◌, ◌≤◌, ◌<◌, ◌≡◌, ◌≢◌, refl, sym, ◌∙◌, true, false, List, [], ◌∷◌,
  length, get_or, u32, ◌==◌, ltb, leb, ◌&&◌, if◌then◌else◌, arith,
}
use tiltyard.Memory.{set, length-set, get_or-set}
use tiltyard.Ring.Cells.{wrap_lem}
use tiltyard.Blobs.{Meta, BlobStore, Moved, no_meta, move_blobs, copy_bytes}
use tiltyard.Blobs.Layout.{Kept, packed, length-packed, total_size}

-- From slot `i` on, round the ring, the slots hold the blobs.
abbrev pub Slots : List Meta → ℕ → ℕ → List Meta → Type 0
Slots metadata cap i ms =
    (k : ℕ) → k < length ms → get_or metadata ((i + k) % cap) no_meta ≡ get_or ms k no_meta

pub next_slot : (i k cap : ℕ) → i < cap → k < cap → ((i + 1) % cap + k) % cap ≡ (i + suc k) % cap
next_slot i k cap h l =
    ground (arith, wrap_lem (i + 1) cap, wrap_lem ((i + 1) % cap + k) cap, wrap_lem (i + suc k) cap)

pub slot_apart : (i k cap : ℕ) → i < cap → suc k < cap → (i + suc k) % cap ≢ i
slot_apart i k cap h l e = ground (arith, wrap_lem (i + suc k) cap)

-- What the loop leaves, from slot `i` on: the blobs `ms` moved to `at` and on.
pub record IsMoved (bs : BlobStore) (i at : ℕ) (ms : List Meta) (to final : Moved) : Type 0 where
  pub same_size : length final.metadata ≡ length to.metadata
  pub slots : Slots final.metadata bs.md_capacity i (packed at ms)
  pub others :
      (j : ℕ)
      → ((k : ℕ) → k < length ms → (i + k) % bs.md_capacity ≢ j)
      → get_or final.metadata j no_meta ≡ get_or to.metadata j no_meta
  pub below : (a : ℕ) → a < at → final.store a ≡ to.store a
  pub kept : Kept bs.store ms final.store (packed at ms)

first_slot : (i cap : ℕ) → i < cap → (i + 0) % cap ≡ i
first_slot i cap h = ground (arith, wrap_lem (i + 0) cap)

-- One blob moved to `at`.
abbrev moved_one : BlobStore → ℕ → ℕ → Moved → Moved
moved_one bs i at to =
    let m = get_or to.metadata i no_meta in
    record {
      metadata = set to.metadata i (record m { offset = at });
      store = copy_bytes to.store at bs.store m.offset m.size;
    }

moved_one_bytes :
    (dst src : ℕ → ℕ) (at from n k : ℕ)
    → k < n
    → copy_bytes dst at src from n (at + k) ≡ src (from + k)
moved_one_bytes dst src at from n k h =
    let inside : (leb at (at + k) && ltb (at + k) (at + n)) ≡ true = ground arith in
    let e : at + k - at ≡ k = omega arith in rw (inside, e)

moved_one_below :
    (dst src : ℕ → ℕ) (at from n a : ℕ) → a < at → copy_bytes dst at src from n a ≡ dst a
moved_one_below dst src at from n a h = let outside : leb at a ≡ false = ground arith in rw outside

nothing_moved : (bs : BlobStore) (i at : ℕ) (to : Moved) → IsMoved bs i at [] to to
nothing_moved bs i at to = record {
  same_size = refl;
  slots = λ k h. absurd (omega arith);
  others = λ j h. refl;
  below = λ a h. refl;
  kept = tt;
}

move_step :
    (bs : BlobStore) (i at : ℕ) (m : Meta) (ms : List Meta) (to final : Moved)
    → i < bs.md_capacity
    → length to.metadata ≡ bs.md_capacity
    → suc (length ms) < bs.md_capacity
    → get_or to.metadata i no_meta ≡ m
    → IsMoved bs ((i + 1) % bs.md_capacity) (at + m.size) ms (moved_one bs i at to) final
    → IsMoved bs i at (m ∷ ms) to final
move_step bs i at m ms to final inside size few here r = record {
  same_size = r.same_size ∙ length-set to.metadata i _;
  slots = at_slot;
  others = elsewhere;
  below =
      λ a h. r.below a (omega arith) ∙ moved_one_below to.store bs.store at was.offset was.size a h;
  kept = (refl, refl, bytes, r.kept);
}
  where
    was : Meta
    was = get_or to.metadata i no_meta

    cap : ℕ
    cap = bs.md_capacity

    written :
        (j : ℕ)
        → get_or (moved_one bs i at to).metadata j no_meta
          ≡ (if i == j then record was { offset = at } else get_or to.metadata j no_meta)
    written j =
        get_or-set to.metadata i j (record was { offset = at }) no_meta (omega (arith, size))

    at_slot : Slots final.metadata bs.md_capacity i (packed at (m ∷ ms))
    at_slot zero h = rw (first_slot i bs.md_capacity inside) (
        r.others i (λ k l.
          rw (next_slot i k bs.md_capacity inside (omega arith))
            (slot_apart i k bs.md_capacity inside (omega arith)))
        ∙ written i
        ∙ ground (arith, here))
    at_slot (suc k) h =
        let l : suc k < bs.md_capacity = omega (arith, length-packed (at + m.size) ms) in
        rw (← next_slot i k bs.md_capacity inside (omega arith)) (r.slots k (omega arith))

    elsewhere :
        (j : ℕ)
        → ((k : ℕ) → k < suc (length ms) → (i + k) % bs.md_capacity ≢ j)
        → get_or final.metadata j no_meta ≡ get_or to.metadata j no_meta
    elsewhere j h =
        let away : i ≢ j = rw (← first_slot i bs.md_capacity inside) (h 0 (omega arith)) in
        r.others j
          (λ k l. rw (next_slot i k bs.md_capacity inside (omega arith)) (h (suc k) (omega arith)))
        ∙ written j
        ∙ ground arith

    bytes : (k : ℕ) → k < m.size → final.store (at + k) ≡ bs.store (m.offset + k)
    bytes k h =
        r.below (at + k) (omega arith)
        ∙ rw here (moved_one_bytes to.store bs.store at m.offset m.size k h)

-- The slots behind the one that is written stay.
later_slot :
    (bs : BlobStore) (i k : ℕ) (new : Meta) (to : Moved)
    → i < bs.md_capacity
    → length to.metadata ≡ bs.md_capacity
    → suc k < bs.md_capacity
    → get_or (set to.metadata i new) (((i + 1) % bs.md_capacity + k) % bs.md_capacity) no_meta
      ≡ get_or to.metadata ((i + suc k) % bs.md_capacity) no_meta
later_slot bs i k new to inside size few =
    let cap = bs.md_capacity in
    rw (next_slot i k cap inside (omega arith)) (
      get_or-set to.metadata i ((i + suc k) % cap) new no_meta (omega (arith, size))
      ∙ ground (arith, slot_apart i k cap inside few))

pub move_lem :
    (fuel : ℕ) (bs : BlobStore) (i at : ℕ) (ms : List Meta) (to : Moved)
    → i < bs.md_capacity
    → length to.metadata ≡ bs.md_capacity
    → length ms < bs.md_capacity
    → length ms ≤ fuel
    → bs.md_end ≡ (i + length ms) % bs.md_capacity
    → Slots to.metadata bs.md_capacity i ms
    → at + total_size ms < 4294967296
    → IsMoved bs i at ms to (move_blobs fuel bs i at to)
unfolding move_blobs
move_lem zero bs i at [] to inside size few enough last slots room = nothing_moved bs i at to
move_lem zero bs i at (m ∷ ms) to inside size few enough last slots room = absurd (omega arith)
move_lem (suc fuel) bs i at [] to inside size few enough last slots room =
    let there : (i == bs.md_end) ≡ true = ground (arith, first_slot i bs.md_capacity inside) in
    rw (move_blobs, there) (nothing_moved bs i at to)
move_lem (suc fuel) bs i at (m ∷ ms) to inside size few enough last slots room =
    let cap = bs.md_capacity in
    let on : (i == bs.md_end) ≡ false = ground (arith, slot_apart i (length ms) cap inside few) in
    let here : get_or to.metadata i no_meta ≡ m =
      rw (first_slot i cap inside) at (slots 0 (omega arith)) in
    let up : u32 (at + (get_or to.metadata i no_meta).size) ≡ at + m.size = rw here (omega arith) in
    let rest =
      move_lem fuel bs ((i + 1) % cap) (at + m.size) ms (moved_one bs i at to)
        (ground (arith, wrap_lem (i + 1) cap)) (length-set to.metadata i _ ∙ size) (omega arith)
        (omega arith) (last ∙ sym (next_slot i (length ms) cap inside (omega arith)))
        (λ k l.
          later_slot bs i k (record (get_or to.metadata i no_meta) { offset = at }) to inside size
            (omega arith)
          ∙ slots (suc k) (omega arith))
        (omega arith) in
    rw (move_blobs, on, up) (move_step bs i at m ms to _ inside size few here rest)
