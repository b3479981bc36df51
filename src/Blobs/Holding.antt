-- ===== src/Blobs/Holding.antt =====
-- What it is for the store to hold a list of live blobs, oldest first.
use tiltyard.Base.{
  ℕ, zero, suc, ◌+◌, ◌-◌, ◌*◌, ◌%◌, ◌≤◌, ◌<◌, ◌≡◌, refl, sym, ◌∙◌, false, List, [], ◌∷◌, ◌++◌,
  length, length-append, get_or, u32, ◌==◌, ltb, if◌then◌else◌, arith, Bool-cases, inl, inr,
}
use tiltyard.Memory.{set, length-set, get_or-set, get_or-append}
use tiltyard.Ring.Cells.{wrap_lem}
use tiltyard.Blobs.{
  Meta, BlobStore, no_meta, empty_start, put_at, doubled, compacted, last_slot, meta_at,
}
use tiltyard.Blobs.Layout.{
  Chain, IsLaid, Kept, newest, get_or-newest, packed, length-packed, total_size, packed-Chain,
  NonEmpty, Chain-mono,
}
use tiltyard.Blobs.Moving.{Slots, move_lem, slot_apart}

pub record IsHolding (bs : BlobStore) (ms : List Meta) : Type 0 where
  pub given : length bs.metadata ≡ bs.md_capacity
  pub positive : 1 < bs.md_capacity
  pub few : bs.md_capacity ≤ 65535
  pub fits : length ms ≤ bs.md_capacity
  pub vacant : length ms ≡ 0 → (bs.md_start ≡ empty_start) × (bs.md_end ≡ 0)
  pub started : 0 < length ms → bs.md_start < bs.md_capacity
  pub ended : 0 < length ms → bs.md_end ≡ (bs.md_start + length ms) % bs.md_capacity
  pub slots : Slots bs.metadata bs.md_capacity bs.md_start ms
  pub laid : IsLaid bs.store_capacity ms
  pub word : bs.store_capacity < 4294967296

-- The oldest blob stands in slot `md_start`, the newest in the slot before `md_end`.
pub oldest_at :
    (bs : BlobStore) (m : Meta) (ms : List Meta)
    → IsHolding bs (m ∷ ms)
    → meta_at bs bs.md_start ≡ m
oldest_at bs m ms v =
    let e : (bs.md_start + 0) % bs.md_capacity ≡ bs.md_start =
      ground (arith, v.started (omega arith), wrap_lem (bs.md_start + 0) bs.md_capacity) in
    rw e at (v.slots 0 (omega arith))

pub newest_at :
    (bs : BlobStore) (m : Meta) (ms : List Meta)
    → IsHolding bs (m ∷ ms)
    → meta_at bs (last_slot bs) ≡ newest m ms
newest_at bs m ms v =
    let cap = bs.md_capacity in
    let e : last_slot bs ≡ (bs.md_start + length ms) % cap = ground (
      arith,
      v.started (omega arith),
      v.ended (omega arith),
      v.fits,
      wrap_lem (bs.md_start + length ms) cap,
      wrap_lem (bs.md_start + suc (length ms)) cap,
      wrap_lem (bs.md_end + cap - 1) cap,
    ) in
    rw e (v.slots (length ms) (omega arith) ∙ get_or-newest m ms)

-- With a slot left the ring does not look full.
pub not_full :
    (bs : BlobStore) (m : Meta) (ms : List Meta)
    → IsHolding bs (m ∷ ms)
    → suc (length ms) < bs.md_capacity
    → ((bs.md_start == bs.md_end) ≡ false) × ((bs.md_start == empty_start) ≡ false)
not_full bs m ms v room = (
  ground (
    arith,
    v.ended (omega arith),
    slot_apart bs.md_start (length ms) bs.md_capacity (v.started (omega arith)) room,
  ),
  ground (arith, v.started (omega arith), v.few),
)

get_or-snoc :
    (ms : List Meta) (new : Meta) (k : ℕ)
    → get_or (ms ++ new ∷ []) k no_meta
      ≡ (if ltb k (length ms) then get_or ms k no_meta else if k == length ms then new else no_meta)
get_or-snoc [] new zero = refl
get_or-snoc [] new (suc k) = ground arith
get_or-snoc (m ∷ ms) new zero = ground arith
get_or-snoc (m ∷ ms) new (suc k) = ground (arith, get_or-snoc ms new k)

slots_apart : (i k l cap : ℕ) → i < cap → k < l → l < cap → ((i + l) % cap == (i + k) % cap) ≡ false
slots_apart i k l cap h p q = ground (arith, wrap_lem (i + k) cap, wrap_lem (i + l) cap)

-- A blob in the next slot.
pub put_at-IsHolding :
    (bs : BlobStore) (m : Meta) (ms : List Meta) (offset size refs : ℕ)
    → IsHolding bs (m ∷ ms)
    → suc (length ms) < bs.md_capacity
    → let new : Meta = record { refs = refs; offset = offset; size = size } in
      IsLaid bs.store_capacity (m ∷ ms ++ new ∷ [])
      → IsHolding (put_at bs offset size refs).1 (m ∷ ms ++ new ∷ [])
        × (meta_at (put_at bs offset size refs).1 (put_at bs offset size refs).0 ≡ new)
unfolding put_at
put_at-IsHolding bs m ms offset size refs v room laid = (
  record {
    given = length-set bs.metadata bs.md_end _ ∙ v.given;
    positive = v.positive;
    few = v.few;
    fits = omega (arith, grown);
    vacant = λ e. absurd (omega (arith, grown));
    started = λ _. inside;
    ended = λ _. ground (
      arith,
      grown,
      ended,
      inside,
      wrap_lem (bs.md_start + suc (length ms)) cap,
      wrap_lem (bs.md_end + 1) cap,
      wrap_lem (bs.md_start + suc (suc (length ms))) cap,
    );
    slots = at_slot;
    laid = laid;
    word = v.word;
  },
  written bs.md_end ∙ ground arith,
)
  where
    new : Meta
    new = record { refs = refs; offset = offset; size = size }

    cap : ℕ
    cap = bs.md_capacity

    grown : length (ms ++ new ∷ []) ≡ length ms + 1
    grown = length-append ms (new ∷ [])

    inside : bs.md_start < bs.md_capacity
    inside = v.started (omega arith)

    ended : bs.md_end ≡ (bs.md_start + suc (length ms)) % bs.md_capacity
    ended = v.ended (omega arith)

    end_inside : bs.md_end < bs.md_capacity
    end_inside =
        ground (arith, ended, inside, wrap_lem (bs.md_start + suc (length ms)) bs.md_capacity)

    written :
        (j : ℕ)
        → get_or (set bs.metadata bs.md_end new) j no_meta
          ≡ (if bs.md_end == j then new else get_or bs.metadata j no_meta)
    written j = get_or-set bs.metadata bs.md_end j new no_meta (omega (arith, v.given, end_inside))

    at_slot : Slots (set bs.metadata bs.md_end new) bs.md_capacity bs.md_start (m ∷ ms ++ new ∷ [])
    at_slot k h = elim (Bool-cases (k == suc (length ms))) [
      | inl y ↦
          let e : k ≡ suc (length ms) = ground arith in
          rw e (rw (← ended) (written bs.md_end ∙ ground (arith, get_or-snoc ms new (length ms))))
      | inr n ↦
          let low : k < suc (length ms) = ground (arith, grown) in
          written ((bs.md_start + k) % bs.md_capacity)
          ∙ rw ended (
              rw (slots_apart bs.md_start k (suc (length ms)) bs.md_capacity inside low room)
                (v.slots k low ∙ sym (get_or-append (m ∷ ms) (new ∷ []) k no_meta low)))
    ]

-- Blobs below `top` keep their bytes in a store that agrees there.
Chain-Kept :
    (at top : ℕ) (ms : List Meta) (old new : ℕ → ℕ)
    → Chain at top ms
    → ((a : ℕ) → a < top → new a ≡ old a)
    → Kept old ms new ms
Chain-Kept at top [] old new c e = tt
Chain-Kept at top (m ∷ ms) old new c e =
    let below = chain_bound (m.offset + m.size) top ms c.2 in
    (
      refl,
      refl,
      λ k h. e (m.offset + k) (omega arith),
      Chain-Kept (m.offset + m.size) top ms old new c.2 e,
    )
  where
    chain_bound : (at top : ℕ) (ms : List Meta) → Chain at top ms → at ≤ top
    chain_bound at top [] c = c
    chain_bound at top (m ∷ ms) c = omega (arith, chain_bound (m.offset + m.size) top ms c.2)

-- A store twice as large that begins with the old one holds the same.
pub doubled_lem :
    (junk : ℕ → ℕ) (bs : BlobStore) (ms : List Meta)
    → IsHolding bs ms
    → Chain 0 bs.store_capacity ms
    → bs.store_capacity * 2 < 4294967296
    → IsHolding (doubled junk bs) ms
      × Chain 0 (doubled junk bs).store_capacity ms
      × ((doubled junk bs).store_capacity ≡ bs.store_capacity * 2)
      × Kept bs.store ms (doubled junk bs).store ms
unfolding doubled
doubled_lem junk bs ms v c room =
    let twice : u32 (bs.store_capacity * 2) ≡ bs.store_capacity * 2 = omega arith in
    let wide : Chain 0 (u32 (bs.store_capacity * 2)) ms =
      Chain-mono 0 bs.store_capacity (u32 (bs.store_capacity * 2)) ms c (omega arith) in
    (
      record {
        given = v.given;
        positive = v.positive;
        few = v.few;
        fits = v.fits;
        vacant = v.vacant;
        started = v.started;
        ended = v.ended;
        slots = v.slots;
        laid = inl wide;
        word = omega arith;
      },
      wide,
      twice,
      Chain-Kept 0 bs.store_capacity ms bs.store _ c (λ a h. ground arith),
    )

-- So does one into which the blobs are moved together.
pub compacted_lem :
    (junk : ℕ → ℕ) (bs : BlobStore) (m : Meta) (ms : List Meta)
    → IsHolding bs (m ∷ ms)
    → suc (length ms) < bs.md_capacity
    → NonEmpty (m ∷ ms)
    → total_size (m ∷ ms) ≤ bs.store_capacity
    → bs.store_capacity * 2 < 4294967296
    → IsHolding (compacted junk bs) (packed 0 (m ∷ ms))
      × Chain 0 (total_size (m ∷ ms)) (packed 0 (m ∷ ms))
      × ((compacted junk bs).store_capacity ≡ bs.store_capacity * 2)
      × Kept bs.store (m ∷ ms) (compacted junk bs).store (packed 0 (m ∷ ms))
unfolding compacted
compacted_lem junk bs m ms v few full small room =
    let twice : u32 (bs.store_capacity * 2) ≡ bs.store_capacity * 2 = omega arith in
    let count = length-packed 0 (m ∷ ms) in
    let r =
      move_lem bs.md_capacity bs bs.md_start 0 (m ∷ ms)
        (record { metadata = bs.metadata; store = junk }) (v.started (omega arith)) v.given few
        v.fits (v.ended (omega arith)) v.slots (omega arith) in
    let snug : Chain 0 (total_size (m ∷ ms)) (packed 0 (m ∷ ms)) =
      packed-Chain 0 (total_size (m ∷ ms)) (m ∷ ms) full (omega arith) in
    (
      record {
        given = r.same_size ∙ v.given;
        positive = v.positive;
        few = v.few;
        fits = omega (arith, count, v.fits);
        vacant = λ e. absurd (omega (arith, count));
        started = λ _. v.started (omega arith);
        ended = λ _. rw count (v.ended (omega arith));
        slots = r.slots;
        laid = inl (
            Chain-mono 0 (total_size (m ∷ ms)) (u32 (bs.store_capacity * 2)) (packed 0 (m ∷ ms))
              snug (omega arith));
        word = omega arith;
      },
      snug,
      twice,
      r.kept,
    )
