-- ===== src/Blobs/Get.antt =====
-- `bs_get`: one reference given back, and the oldest blobs without references taken off the ring.
use tiltyard.Base.{
  ℕ, zero, suc, ◌+◌, ◌-◌, ◌%◌, ◌<◌, ◌≡◌, refl, ap, ◌∙◌, false, Option, some, List, [], ◌∷◌, ◌++◌,
  length, get_or, sub32, ◌==◌, if◌then◌else◌, ◌&&◌, arith, Bool-cases, inl, inr,
}
use tiltyard.Memory.{set, length-set, get_or-set}
use tiltyard.Ring.Cells.{wrap_lem}
use tiltyard.Blobs.{Meta, BlobStore, no_meta, meta_at, empty_start, reclaim, get}
use tiltyard.Blobs.Layout.{Chain, IsLaid, Chain-mono}
use tiltyard.Blobs.Moving.{next_slot}
use tiltyard.Blobs.Holding.{IsHolding, oldest_at}

-- The blobs with one reference of the `k`-th given back.
abbrev pub drop_ref : ℕ → List Meta → List Meta
drop_ref k [] = []
drop_ref zero (m ∷ ms) = record m { refs = m.refs - 1 } ∷ ms
drop_ref (suc k) (m ∷ ms) = m ∷ drop_ref k ms

-- The blobs from the first one on that has a reference.
abbrev pub drop_free : List Meta → List Meta
drop_free [] = []
drop_free (m ∷ ms) = if m.refs == 0 then drop_free ms else m ∷ ms

pub length-drop_ref : (k : ℕ) (ms : List Meta) → length (drop_ref k ms) ≡ length ms
length-drop_ref k [] = refl
length-drop_ref zero (m ∷ ms) = refl
length-drop_ref (suc k) (m ∷ ms) = omega (arith, length-drop_ref k ms)

get_or-drop_ref :
    (k j : ℕ) (ms : List Meta)
    → k < length ms
    → get_or (drop_ref k ms) j no_meta ≡ (
        if k == j
        then record (get_or ms k no_meta) { refs = (get_or ms k no_meta).refs - 1 }
        else get_or ms j no_meta)
get_or-drop_ref k j [] h = absurd (omega arith)
get_or-drop_ref zero zero (m ∷ ms) h = refl
get_or-drop_ref zero (suc j) (m ∷ ms) h = ground arith
get_or-drop_ref (suc k) zero (m ∷ ms) h = ground arith
get_or-drop_ref (suc k) (suc j) (m ∷ ms) h = ground (arith, get_or-drop_ref k j ms (omega arith))

Chain-drop_ref : (k at top : ℕ) (ms : List Meta) → Chain at top ms → Chain at top (drop_ref k ms)
Chain-drop_ref k at top [] c = c
Chain-drop_ref zero at top (m ∷ ms) c = c
Chain-drop_ref (suc k) at top (m ∷ ms) c =
    (c.0, c.1, Chain-drop_ref k (m.offset + m.size) top ms c.2)

-- A split list, split again after the reference is given back.
record IsSplit (m : Meta) (xs : List Meta) (n : Meta) (ys : List Meta) (zs : List Meta)
    : Type 0 where
  pub oldest : Meta
  pub older : List Meta
  pub after_wrap : Meta
  pub newer : List Meta
  pub parts : zs ≡ (oldest ∷ older) ++ after_wrap ∷ newer
  pub offset : oldest.offset ≡ m.offset
  pub upper : (at top : ℕ) → Chain at top (m ∷ xs) → Chain at top (oldest ∷ older)
  pub lower : (at top : ℕ) → Chain at top (n ∷ ys) → Chain at top (after_wrap ∷ newer)

IsSplit-drop_ref :
    (k : ℕ) (m : Meta) (xs : List Meta) (n : Meta) (ys : List Meta)
    → IsSplit m xs n ys (drop_ref k ((m ∷ xs) ++ n ∷ ys))
IsSplit-drop_ref zero m xs n ys = record {
  oldest = record m { refs = m.refs - 1 };
  older = xs;
  after_wrap = n;
  newer = ys;
  parts = refl;
  offset = refl;
  upper = λ at top c. c;
  lower = λ at top c. c;
}
IsSplit-drop_ref (suc zero) m [] n ys = record {
  oldest = m;
  older = [];
  after_wrap = record n { refs = n.refs - 1 };
  newer = ys;
  parts = refl;
  offset = refl;
  upper = λ at top c. c;
  lower = λ at top c. c;
}
IsSplit-drop_ref (suc (suc k)) m [] n ys = record {
  oldest = m;
  older = [];
  after_wrap = n;
  newer = drop_ref k ys;
  parts = refl;
  offset = refl;
  upper = λ at top c. c;
  lower = λ at top c. Chain-drop_ref (suc k) at top (n ∷ ys) c;
}
IsSplit-drop_ref (suc k) m (x ∷ xs) n ys =
    let r = IsSplit-drop_ref k x xs n ys in
    record {
      oldest = m;
      older = r.oldest ∷ r.older;
      after_wrap = r.after_wrap;
      newer = r.newer;
      parts = ap (λ zs. m ∷ zs) r.parts;
      offset = refl;
      upper = λ at top c. (c.0, c.1, r.upper (m.offset + m.size) top c.2);
      lower = r.lower;
    }

IsLaid-drop_ref :
    (k capacity : ℕ) (ms : List Meta) → IsLaid capacity ms → IsLaid capacity (drop_ref k ms)
IsLaid-drop_ref k capacity ms (inl c) = inl (Chain-drop_ref k 0 capacity ms c)
IsLaid-drop_ref k capacity ms (inr w) =
    let r = IsSplit-drop_ref k w.oldest w.older w.after_wrap w.newer in
    inr (record {
      oldest = r.oldest;
      older = r.older;
      after_wrap = r.after_wrap;
      newer = r.newer;
      parts = ap (drop_ref k) w.parts ∙ r.parts;
      upper = r.upper 0 capacity w.upper;
      lower = rw r.offset (r.lower 0 w.oldest.offset w.lower);
    })

-- Without the oldest the others lie as well as before.
IsLaid-tail :
    (capacity : ℕ) (m n : Meta) (ms : List Meta)
    → IsLaid capacity (m ∷ n ∷ ms)
    → IsLaid capacity (n ∷ ms)
IsLaid-tail capacity m n ms (inl c) = inl (omega arith, c.2.1, c.2.2)
IsLaid-tail capacity m n ms (inr w) =
    from_parts w.oldest w.older w.after_wrap w.newer w.parts w.upper w.lower
  where
    laid_eq : (xs ys : List Meta) → xs ≡ ys → IsLaid capacity ys → IsLaid capacity xs
    laid_eq xs ys e = rw e (λ l. l)

    from_parts :
        (o : Meta) (older : List Meta) (a : Meta) (newer : List Meta)
        → m ∷ n ∷ ms ≡ (o ∷ older) ++ a ∷ newer
        → Chain 0 capacity (o ∷ older)
        → Chain 0 o.offset (a ∷ newer)
        → IsLaid capacity (n ∷ ms)
    from_parts o [] a newer e u l =
        let t : n ∷ ms ≡ a ∷ newer = cc in
        laid_eq (n ∷ ms) (a ∷ newer) t
          (inl (Chain-mono 0 o.offset capacity (a ∷ newer) l (omega (arith, u.2))))
    from_parts o (p ∷ older) a newer e u l =
        let t : n ∷ ms ≡ (p ∷ older) ++ a ∷ newer = cc in
        laid_eq (n ∷ ms) ((p ∷ older) ++ a ∷ newer) t (
          inr (record {
            oldest = p;
            older = older;
            after_wrap = a;
            newer = newer;
            parts = refl;
            upper = (omega arith, u.2.1, u.2.2);
            lower = Chain-mono 0 o.offset p.offset (a ∷ newer) l (omega arith);
          }))

-- The blobs `ms` after a `get` of one of them.
pub record IsGot (bs : BlobStore) (ms : List Meta) (k : ℕ) (r : Option ℕ × BlobStore) : Type 0 where
  pub found : r.0 ≡ some (get_or ms k no_meta).offset
  pub bytes : r.1.store ≡ bs.store
  pub holds : IsHolding r.1 (if k == 0 then drop_free (drop_ref k ms) else drop_ref k ms)

-- The slot given back.
dropped : BlobStore → List Meta → ℕ → BlobStore
dropped bs ms k = record bs {
  metadata =
      set bs.metadata ((bs.md_start + k) % bs.md_capacity)
        (record (get_or ms k no_meta) { refs = (get_or ms k no_meta).refs - 1 });
}

slot_eq :
    (i k l cap : ℕ) → i < cap → k < cap → l < cap → ((i + k) % cap == (i + l) % cap) ≡ (k == l)
slot_eq i k l cap h p q = ground (arith, wrap_lem (i + k) cap, wrap_lem (i + l) cap)

dropped-IsHolding :
    (bs : BlobStore) (ms : List Meta) (k : ℕ)
    → IsHolding bs ms
    → k < length ms
    → IsHolding (dropped bs ms k) (drop_ref k ms)
unfolding dropped
dropped-IsHolding bs ms k v h =
    let count = length-drop_ref k ms in
    let inside = v.started (omega arith) in
    let slot = (bs.md_start + k) % bs.md_capacity in
    let at_slot : slot < bs.md_capacity =
      ground (arith, v.fits, wrap_lem (bs.md_start + k) bs.md_capacity) in
    let new : Meta = record (get_or ms k no_meta) { refs = (get_or ms k no_meta).refs - 1 } in
    record {
      given = length-set bs.metadata slot new ∙ v.given;
      positive = v.positive;
      few = v.few;
      fits = omega (arith, count, v.fits);
      vacant = λ e. absurd (omega (arith, count));
      started = λ _. inside;
      ended = λ _. rw count (v.ended (omega arith));
      slots = λ j l.
          let l' : j < length ms = omega (arith, count) in
          get_or-set bs.metadata slot ((bs.md_start + j) % bs.md_capacity) new no_meta
            (omega (arith, v.given))
          ∙ rw
              (
                slot_eq bs.md_start k j bs.md_capacity inside (omega (arith, v.fits))
                    (omega (arith, v.fits)),
                v.slots j l',
                get_or-drop_ref k j ms h,
              )
              refl;
      laid = IsLaid-drop_ref k bs.store_capacity ms v.laid;
      word = v.word;
    }

-- The oldest blob taken off the ring, where there are more.
tail-IsHolding :
    (bs : BlobStore) (m n : Meta) (ms : List Meta)
    → IsHolding bs (m ∷ n ∷ ms)
    → IsHolding (record bs { md_start = (bs.md_start + 1) % bs.md_capacity }) (n ∷ ms)
tail-IsHolding bs m n ms v =
    let cap = bs.md_capacity in
    let inside = v.started (omega arith) in
    let fits = v.fits in
    record {
      given = v.given;
      positive = v.positive;
      few = v.few;
      fits = omega arith;
      vacant = λ e. absurd (omega arith);
      started = λ _. ground (arith, wrap_lem (bs.md_start + 1) cap);
      ended = λ _.
          v.ended (omega arith)
          ∙ ground (
            arith,
            wrap_lem (bs.md_start + 1) cap,
            wrap_lem (bs.md_start + suc (suc (length ms))) cap,
            wrap_lem ((bs.md_start + 1) % cap + suc (length ms)) cap,
          );
      slots = λ k h.
          rw (next_slot bs.md_start k cap inside (omega arith)) (v.slots (suc k) (omega arith));
      laid = IsLaid-tail bs.store_capacity m n ms v.laid;
      word = v.word;
    }

next_at_end :
    (bs : BlobStore) (m : Meta) (ms : List Meta)
    → IsHolding bs (m ∷ ms)
    → ((bs.md_start + 1) % bs.md_capacity == bs.md_end) ≡ (length ms == 0)
next_at_end bs m ms v = ground (
  arith,
  v.positive,
  v.fits,
  v.started (omega arith),
  v.ended (omega arith),
  wrap_lem (bs.md_start + 1) bs.md_capacity,
  wrap_lem (bs.md_start + suc (length ms)) bs.md_capacity,
)

emptied :
    (bs : BlobStore) (m : Meta)
    → IsHolding bs (m ∷ [])
    → IsHolding (record bs { md_start = empty_start; md_end = 0 }) []
emptied bs m v = record {
  given = v.given;
  positive = v.positive;
  few = v.few;
  fits = omega arith;
  vacant = λ e. (refl, refl);
  started = λ e. absurd (omega arith);
  ended = λ e. absurd (omega arith);
  slots = λ k l. absurd (omega arith);
  laid = inl (omega arith);
  word = v.word;
}

reclaim_lem :
    (fuel : ℕ) (bs : BlobStore) (m : Meta) (ms : List Meta)
    → IsHolding bs (m ∷ ms)
    → length ms < fuel
    → IsHolding (reclaim fuel bs) (drop_free (m ∷ ms)) × ((reclaim fuel bs).store ≡ bs.store)
unfolding reclaim
reclaim_lem zero bs m ms v h = absurd (omega arith)
reclaim_lem (suc fuel) bs m [] v h = elim (Bool-cases (m.refs == 0)) [
  | inr n ↦ rw (reclaim, oldest_at bs m [] v, n) (v, refl)
  | inl y ↦ rw (reclaim, oldest_at bs m [] v, y, next_at_end bs m [] v) (emptied bs m v, refl)
]
reclaim_lem (suc fuel) bs m (n ∷ ns) v h = elim (Bool-cases (m.refs == 0)) [
  | inr no_ref ↦ rw (reclaim, oldest_at bs m (n ∷ ns) v, no_ref) (v, refl)
  | inl y ↦
      let more : (suc (length ns) == 0) ≡ false = ground arith in
      rw (reclaim, oldest_at bs m (n ∷ ns) v, y, next_at_end bs m (n ∷ ns) v, more)
        (reclaim_lem fuel (record bs { md_start = (bs.md_start + 1) % bs.md_capacity }) n ns
          (tail-IsHolding bs m n ns v) (omega arith))
]

-- What `bs_get` does, in the words of the list of live blobs.
same_steps :
    (bs : BlobStore) (ms : List Meta) (k : ℕ)
    → IsHolding bs ms
    → k < length ms
    → 0 < (get_or ms k no_meta).refs
    → (get_or ms k no_meta).refs < 4294967296
    → get bs ((bs.md_start + k) % bs.md_capacity) ≡ (
      some (get_or ms k no_meta).offset,
      (if k == 0 then reclaim bs.md_capacity (dropped bs ms k) else dropped bs ms k),
    )
unfolding get dropped
same_steps bs ms k v h live word =
    let inside = v.started (omega arith) in
    let slot = (bs.md_start + k) % bs.md_capacity in
    let not_empty : (bs.md_start == empty_start && bs.md_end == 0) ≡ false =
      ground (arith, v.few) in
    let found : meta_at bs slot ≡ get_or ms k no_meta = v.slots k h in
    let less : sub32 (get_or ms k no_meta).refs 1 ≡ (get_or ms k no_meta).refs - 1 = omega arith in
    let first : (slot == bs.md_start) ≡ (k == 0) =
      ground (arith, v.fits, v.positive, wrap_lem (bs.md_start + k) bs.md_capacity) in
    rw (get, not_empty, found, less, first) refl

-- `bs_get` of the `k`-th live blob: it answers where the blob lies, no byte changes, and the ring holds
-- the same blobs, one reference of that one given back; if it was the oldest, the oldest blobs without
-- references are gone.
pub get_lem :
    (bs : BlobStore) (ms : List Meta) (k : ℕ)
    → IsHolding bs ms
    → k < length ms
    → 0 < (get_or ms k no_meta).refs
    → (get_or ms k no_meta).refs < 4294967296
    → IsGot bs ms k (get bs ((bs.md_start + k) % bs.md_capacity))
unfolding get dropped
get_lem bs [] k v h live word = absurd (omega arith)
get_lem bs (m ∷ ms) zero v h live word =
    let same = same_steps bs (m ∷ ms) 0 v h live word in
    let now = dropped-IsHolding bs (m ∷ ms) 0 v h in
    let r =
      reclaim_lem bs.md_capacity (dropped bs (m ∷ ms) 0) (record m { refs = m.refs - 1 }) ms now
        (omega (arith, v.fits)) in
    rw same (record { found = refl; bytes = r.1; holds = r.0 })
get_lem bs (m ∷ ms) (suc k) v h live word =
    let later : (suc k == 0) ≡ false = ground arith in
    rw (same_steps bs (m ∷ ms) (suc k) v h live word, later)
      (record {
        found = refl;
        bytes = refl;
        holds = rw later (dropped-IsHolding bs (m ∷ ms) (suc k) v h);
      })
