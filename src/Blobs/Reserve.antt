-- ===== src/Blobs/Reserve.antt =====
-- `bs_reserve`: the new blob lies apart from the live ones, and they keep their bytes.
use tiltyard.Base.{
  ℕ, zero, suc, ◌+◌, ◌-◌, ◌*◌, ◌%◌, ◌≤◌, ◌<◌, ◌≡◌, refl, ap, ◌∙◌, true, false, Option, some, List,
  [], ◌∷◌, ◌++◌, append_assoc, length, u32, sub32, ltb, ◌==◌, if◌then◌else◌, arith, Bool-cases, inl,
  inr,
}
use tiltyard.Memory.{set, length-set, get_or-set}
use tiltyard.Ring.Cells.{wrap_lem}
use tiltyard.Blobs.{
  Meta, BlobStore, empty_start, no_meta, grow_to, put_at, doubled, compacted, put_first, reserve,
  meta_at, last_slot,
}
use tiltyard.Blobs.Layout.{
  Chain, IsWrapped, IsLaid, AllApart, IsLaid-AllApart, Kept, Kept-refl, newest, newest-append,
  blob_end, Chain-newest, Chain-append, Chain-mono, Chain-total, Chain-NonEmpty, NonEmpty-append,
  packed, length-packed, total_size, total_size-append,
}
use tiltyard.Blobs.Holding.{
  IsHolding, oldest_at, newest_at, not_full, put_at-IsHolding, doubled_lem, compacted_lem,
}

-- The capacity after `n` doublings.
abbrev pub scaled : ℕ → ℕ → ℕ
scaled zero capacity = capacity
scaled (suc n) capacity = scaled n (capacity * 2)

scaled_ge : (n capacity : ℕ) → capacity ≤ scaled n capacity
scaled_ge zero capacity = omega arith
scaled_ge (suc n) capacity = omega (arith, scaled_ge n (capacity * 2))

scaled_mono : (n a b : ℕ) → a ≤ b → scaled n a ≤ scaled n b
scaled_mono zero a b h = h
scaled_mono (suc n) a b h = scaled_mono n (a * 2) (b * 2) (omega arith)

pub Kept-trans :
    (a b c : ℕ → ℕ) (xs ys zs : List Meta) → Kept a xs b ys → Kept b ys c zs → Kept a xs c zs
Kept-trans a b c [] [] [] p q = tt
Kept-trans a b c [] [] (z ∷ zs) p q = q
Kept-trans a b c [] (y ∷ ys) zs p q = absurd p
Kept-trans a b c (x ∷ xs) [] zs p q = absurd p
Kept-trans a b c (x ∷ xs) (y ∷ ys) [] p q = absurd q
Kept-trans a b c (x ∷ xs) (y ∷ ys) (z ∷ zs) p q = (
  q.0 ∙ p.0,
  q.1 ∙ p.1,
  λ k h. q.2 k (omega (arith, p.1)) ∙ p.2 k h,
  Kept-trans a b c xs ys zs p.3 q.3,
)

-- A store with one more blob: its id and where it lies, and where the others lie now.
pub record IsReserved (old : BlobStore) (ms : List Meta) (size refs : ℕ)
    (r : Option (ℕ × BlobStore)) : Type 0 where
  pub id : ℕ
  pub offset : ℕ
  pub bs : BlobStore
  pub others : List Meta
  pub made : r ≡ some (id, bs)
  pub holds : IsHolding bs (others ++ record { refs = refs; offset = offset; size = size } ∷ [])
  pub apart : AllApart (others ++ record { refs = refs; offset = offset; size = size } ∷ [])
  pub named : meta_at bs id ≡ record { refs = refs; offset = offset; size = size }
  pub kept : Kept old.store ms bs.store others

put_at-IsReserved :
    (bs : BlobStore) (m : Meta) (ms : List Meta) (offset size refs : ℕ)
    → IsHolding bs (m ∷ ms)
    → suc (length ms) < bs.md_capacity
    → IsLaid bs.store_capacity (m ∷ ms ++ record { refs = refs; offset = offset; size = size } ∷ [])
    → IsReserved bs (m ∷ ms) size refs (some (put_at bs offset size refs))
unfolding put_at
put_at-IsReserved bs m ms offset size refs v room laid =
    let (holds, named) = put_at-IsHolding bs m ms offset size refs v room laid in
    record {
      id = (put_at bs offset size refs).0;
      offset = offset;
      bs = (put_at bs offset size refs).1;
      others = m ∷ ms;
      made = refl;
      holds = holds;
      apart =
          IsLaid-AllApart bs.store_capacity
            (m ∷ ms ++ record { refs = refs; offset = offset; size = size } ∷ []) laid;
      named = named;
      kept = Kept-refl bs.store (m ∷ ms);
    }

-- A reservation in a store that holds the same blobs, perhaps elsewhere.
from_moved :
    (old bs : BlobStore) (xs ms : List Meta) (size refs : ℕ) (r : Option (ℕ × BlobStore))
    → Kept old.store xs bs.store ms
    → IsReserved bs ms size refs r
    → IsReserved old xs size refs r
from_moved old bs xs ms size refs r k v = record {
  id = v.id;
  offset = v.offset;
  bs = v.bs;
  others = v.others;
  made = v.made;
  holds = v.holds;
  apart = v.apart;
  named = v.named;
  kept = Kept-trans old.store bs.store v.bs.store xs ms v.others k v.kept;
}

-- One behind the other: the blob comes behind the newest, or below the oldest, or the store doubles.
straight_step :
    (f : ℕ) (junk : ℕ → ℕ) (bs : BlobStore) (m : Meta) (ms : List Meta) (size refs : ℕ)
    → IsHolding bs (m ∷ ms)
    → Chain 0 bs.store_capacity (m ∷ ms)
    → suc (length ms) < bs.md_capacity
    → 0 < size
    → (bs.store_capacity < blob_end (newest m ms) + size
        → IsReserved bs (m ∷ ms) size refs (reserve f junk (doubled junk bs) size refs))
    → IsReserved bs (m ∷ ms) size refs (reserve (suc f) junk bs size refs)
unfolding reserve
straight_step f junk bs m ms size refs v c room some_bytes wider =
    let nf = not_full bs m ms v room in
    let ends = Chain-newest 0 bs.store_capacity m ms c in
    let e = blob_end (newest m ms) in
    let last = newest_at bs m ms v in
    let at_end : u32 (blob_end (meta_at bs (last_slot bs))) ≡ e = rw last (omega (arith, v.word)) in
    let left : sub32 bs.store_capacity e ≡ bs.store_capacity - e = omega (arith, v.word) in
    let ascending : ltb (newest m ms).offset m.offset ≡ false = ground arith in
    let behind = λ (h : size ≤ bs.store_capacity - e).
      put_at-IsReserved bs m ms e size refs v room (
        inl (
          Chain-append 0 bs.store_capacity bs.store_capacity m ms
            (record { refs = refs; offset = e; size = size }) c (omega arith) some_bytes
            (omega arith))) in
    let below = λ (h : size ≤ m.offset). put_at-IsReserved bs m ms 0 size refs v room (
      inr (record {
        oldest = m;
        older = ms;
        after_wrap = record { refs = refs; offset = 0; size = size };
        newer = [];
        parts = refl;
        upper = c;
        lower = omega arith;
      })) in
    rw (reserve, nf.0, nf.1, last, oldest_at bs m ms v, ascending, at_end, left)
      (elim (Bool-cases (ltb (bs.store_capacity - e) size)) [
        | inr n ↦ rw (n, at_end) (behind (ground arith))
        | inl y ↦
            rw (y, oldest_at bs m ms v)
              (elim (Bool-cases (ltb m.offset size)) [
                | inr n ↦ rw n (below (ground arith))
                | inl z ↦ rw z (wider (ground arith))
              ])
      ])

straight :
    (f : ℕ) (junk : ℕ → ℕ) (bs : BlobStore) (m : Meta) (ms : List Meta) (size refs : ℕ)
    → IsHolding bs (m ∷ ms)
    → Chain 0 bs.store_capacity (m ∷ ms)
    → suc (length ms) < bs.md_capacity
    → 0 < size
    → blob_end (newest m ms) + size ≤ scaled f bs.store_capacity
    → scaled f bs.store_capacity < 4294967296
    → IsReserved bs (m ∷ ms) size refs (reserve (suc f) junk bs size refs)
straight zero junk bs m ms size refs v c room some_bytes fits word =
    straight_step zero junk bs m ms size refs v c room some_bytes (λ h. absurd (omega arith))
straight (suc f) junk bs m ms size refs v c room some_bytes fits word =
    let d = doubled_lem junk bs (m ∷ ms) v c (omega (arith, scaled_ge f (bs.store_capacity * 2))) in
    straight_step (suc f) junk bs m ms size refs v c room some_bytes (λ h.
      from_moved bs (doubled junk bs) (m ∷ ms) (m ∷ ms) size refs _ d.3 (
        straight f junk (doubled junk bs) m ms size refs d.0 d.1 (unfold doubled in room) some_bytes
          (rw d.2 fits) (rw d.2 word)))

-- Round over the top: the blob comes behind the newest, below the oldest, or the live blobs are moved
-- together first.
wrapped :
    (f : ℕ) (junk : ℕ → ℕ) (bs : BlobStore) (m : Meta) (ms : List Meta) (n : Meta) (ns : List Meta)
    (size refs : ℕ)
    → IsHolding bs (m ∷ ms ++ n ∷ ns)
    → Chain 0 bs.store_capacity (m ∷ ms)
    → Chain 0 m.offset (n ∷ ns)
    → suc (length (ms ++ n ∷ ns)) < bs.md_capacity
    → 0 < size
    → bs.store_capacity + size ≤ scaled f bs.store_capacity
    → scaled (suc f) bs.store_capacity < 4294967296
    → IsReserved bs (m ∷ ms ++ n ∷ ns) size refs (reserve (suc (suc f)) junk bs size refs)
unfolding reserve
wrapped f junk bs m ms n ns size refs v upper lower room some_bytes fits word =
    let rest = ms ++ n ∷ ns in
    let nf = not_full bs m rest v room in
    let ends = Chain-newest 0 m.offset n ns lower in
    let newest_is = newest-append m n ms ns in
    let e = blob_end (newest n ns) in
    let grown = scaled_mono f bs.store_capacity (bs.store_capacity * 2) (omega arith) in
    let last = newest_at bs m rest v ∙ newest_is in
    let whole = Chain-newest 0 bs.store_capacity m ms upper in
    let at_end : u32 (blob_end (meta_at bs (last_slot bs))) ≡ e = rw last (omega (arith, v.word)) in
    let over_top : ltb (newest n ns).offset m.offset ≡ true = ground arith in
    let sum : u32 (e + size) ≡ e + size = omega (arith, grown) in
    let small : total_size (m ∷ rest) ≤ bs.store_capacity = omega (
      arith,
      total_size-append ms (n ∷ ns),
      Chain-total 0 m.offset (n ∷ ns) lower,
      Chain-total (m.offset + m.size) bs.store_capacity ms upper.2,
    ) in
    let full =
      NonEmpty-append (m ∷ ms) (n ∷ ns) (Chain-NonEmpty 0 bs.store_capacity (m ∷ ms) upper)
        (Chain-NonEmpty 0 m.offset (n ∷ ns) lower) in
    let moved =
      compacted_lem junk bs m rest v room full small
        (omega (arith, scaled_ge f (bs.store_capacity * 2))) in
    let snug =
      (Chain-newest 0 (total_size (m ∷ rest)) (record m { offset = 0 }) (packed (0 + m.size) rest)
        moved.1).2 in
    rw
      (
        reserve,
        nf.0,
        nf.1,
        last,
        oldest_at bs m rest v,
        over_top,
        oldest_at bs m rest v,
        at_end,
        sum,
      )
      (elim (Bool-cases (ltb m.offset (e + size))) [
        | inr m0 ↦
            rw (m0, at_end)
              (put_at-IsReserved bs m rest e size refs v room (
                inr (record {
                  oldest = m;
                  older = ms;
                  after_wrap = n;
                  newer = ns ++ record { refs = refs; offset = e; size = size } ∷ [];
                  parts = ap (◌∷◌ m) (
                      append_assoc ms (n ∷ ns)
                        (record { refs = refs; offset = e; size = size } ∷ []));
                  upper = upper;
                  lower =
                      Chain-append 0 m.offset m.offset n ns
                        (record { refs = refs; offset = e; size = size }) lower (omega arith)
                        some_bytes (ground arith);
                })))
        | inl y ↦ rw y (
            from_moved bs (compacted junk bs) (m ∷ rest) (packed 0 (m ∷ rest)) size refs _ moved.3 (
              straight f junk (compacted junk bs) (record m { offset = 0 })
                (packed (0 + m.size) rest) size refs moved.0
                (Chain-mono 0 (total_size (m ∷ rest)) (compacted junk bs).store_capacity
                  (packed 0 (m ∷ rest)) moved.1 (omega (arith, moved.2, small)))
                (unfold compacted in omega (arith, length-packed (0 + m.size) rest)) some_bytes
                (rw moved.2 (omega (arith, snug, small, grown))) (rw moved.2 word)))
      ])

-- An empty store, whose capacity doubles until the blob fits.
grow_lem :
    (fuel f capacity size : ℕ)
    → f < fuel
    → size ≤ scaled f capacity
    → scaled f capacity < 4294967296
    → (c : ℕ) × (grow_to fuel capacity size ≡ some c) × (size ≤ c) × (c < 4294967296)
unfolding grow_to
grow_lem zero f capacity size enough fits word = absurd (omega arith)
grow_lem (suc fuel) zero capacity size enough fits word =
    let done : ltb capacity size ≡ false = ground arith in
    (capacity, rw (grow_to, done), fits, word)
grow_lem (suc fuel) (suc f) capacity size enough fits word = elim (Bool-cases (ltb capacity size)) [
  | inr done ↦
      (capacity, rw (grow_to, done), ground arith, omega (arith, scaled_ge (suc f) capacity))
  | inl more ↦
      let up : u32 (capacity * 2) ≡ capacity * 2 = omega (arith, scaled_ge f (capacity * 2)) in
      let (c, e, a, b) = grow_lem fuel f (capacity * 2) size (omega arith) fits word in
      (c, rw (grow_to, more, up) e, a, b)
]

put_first-IsReserved :
    (f : ℕ) (junk : ℕ → ℕ) (bs : BlobStore) (size refs : ℕ)
    → IsHolding bs []
    → 0 < size
    → f ≤ 32
    → size ≤ scaled f bs.store_capacity
    → scaled f bs.store_capacity < 4294967296
    → IsReserved bs [] size refs (put_first junk bs size refs)
unfolding put_first
put_first-IsReserved f junk bs size refs v some_bytes few fits word =
    let (c, e, a, b) = grow_lem 33 f bs.store_capacity size (omega arith) fits word in
    let new : Meta = record { refs = refs; offset = 0; size = size } in
    let at_0 : bs.md_end ≡ 0 = (v.vacant refl).1 in
    let there =
      get_or-set bs.metadata bs.md_end 0 new no_meta (omega (arith, at_0, v.given, v.positive)) in
    record {
      id = 0;
      offset = 0;
      bs = record bs {
        md_start = 0;
        md_end = 1;
        metadata = set bs.metadata bs.md_end new;
        store_capacity = c;
        store = if ltb bs.store_capacity size then junk else bs.store;
      };
      others = [];
      made = rw e;
      holds = record {
        given = length-set bs.metadata bs.md_end new ∙ v.given;
        positive = v.positive;
        few = v.few;
        fits = omega (arith, v.positive);
        vacant = λ z. absurd (omega arith);
        started = λ _. omega (arith, v.positive);
        ended = λ _. ground (arith, v.positive, wrap_lem (0 + 1) bs.md_capacity);
        slots = λ k h.
            let z : k ≡ 0 = omega arith in
            let w : (0 + 0) % bs.md_capacity ≡ 0 =
              ground (arith, v.positive, wrap_lem (0 + 0) bs.md_capacity) in
            rw z (rw w (there ∙ ground (arith, at_0)));
        laid = inl (omega arith);
        word = b;
      };
      apart = (tt, tt);
      named = there ∙ ground (arith, at_0);
      kept = tt;
    }

any_wrapped :
    (f : ℕ) (junk : ℕ → ℕ) (bs : BlobStore) (ms : List Meta) (size refs : ℕ)
    → IsHolding bs ms
    → IsWrapped bs.store_capacity ms
    → length ms < bs.md_capacity
    → 0 < size
    → bs.store_capacity + size ≤ scaled f bs.store_capacity
    → scaled (suc f) bs.store_capacity < 4294967296
    → IsReserved bs ms size refs (reserve (suc (suc f)) junk bs size refs)
any_wrapped f junk bs ms size refs v w room some_bytes fits word = rw w.parts (
    wrapped f junk bs w.oldest w.older w.after_wrap w.newer size refs (rw w.parts at v) w.upper
      w.lower (rw w.parts at room) some_bytes fits word)

-- `bs_reserve` in a store that holds live blobs `ms` and has a slot left, for a size that is positive
-- and fits behind a full store after at most `f` doublings, with all sizes below 2 ^ 32: it returns the
-- id of a blob of that size and those references, the other blobs are there, perhaps elsewhere, with
-- their references, sizes and bytes, oldest first and the new one last, and no two share a byte.
pub reserve_lem :
    (f : ℕ) (junk : ℕ → ℕ) (bs : BlobStore) (ms : List Meta) (size refs : ℕ)
    → IsHolding bs ms
    → length ms < bs.md_capacity
    → 0 < size
    → f ≤ 32
    → bs.store_capacity + size ≤ scaled f bs.store_capacity
    → scaled (suc f) bs.store_capacity < 4294967296
    → IsReserved bs ms size refs (reserve (suc (suc f)) junk bs size refs)
unfolding reserve
reserve_lem f junk bs [] size refs v room some_bytes few fits word =
    let e = v.vacant refl in
    let apart : (bs.md_start == bs.md_end) ≡ false = ground arith in
    let empty : (bs.md_start == empty_start) ≡ true = ground arith in
    rw (reserve, apart, empty)
      (put_first-IsReserved f junk bs size refs v some_bytes few (omega arith)
        (omega (arith, scaled_mono f bs.store_capacity (bs.store_capacity * 2) (omega arith))))
reserve_lem f junk bs (m ∷ ms) size refs v room some_bytes few fits word = elim v.laid [
  | inl c ↦
      straight (suc f) junk bs m ms size refs v c room some_bytes
        (omega (
          arith,
          Chain-newest 0 bs.store_capacity m ms c,
          scaled_mono f bs.store_capacity (bs.store_capacity * 2) (omega arith),
        ))
        word
  | inr w ↦ any_wrapped f junk bs (m ∷ ms) size refs v w room some_bytes fits word
]
