-- ===== src/Book/Expire/Written.antt =====
-- The levels that pass two of `ob_expire` writes, and those that pass one counts.
use mathlib.Core.Path.{fun_ext}
use tiltyard.Base.{
  ℕ, ◌+◌, ◌<◌, ◌≡◌, refl, ap, ap₂, ◌∙◌, Bool, List, [], ◌∷◌, length, take, drop, All, reject,
  length-reject, u32, ltb, ◌==◌, ==_iff, if◌then◌else◌, arith, Bool-cases, inl, inr,
}
use tiltyard.Book.Types.{Entry, Level, Writer}
use tiltyard.Book.Level.{copy_level, jump}
use tiltyard.Book.Level.Copies.{copy_level-eq}
use tiltyard.Book.Shape.{
  total, IsLevel, Above, Ascending, keep_level, pulled, pull, Extends, Extends-refl, Extends-trans,
  Extends-jump,
}
use tiltyard.Book.Pull.{pulled-append}
use tiltyard.Book.Cancel.Written.{pulled_cons, pulled_whole}
use tiltyard.Book.Expire.{
  cancels_hit, prune_entries, prune_level, skip_below, count_at, expire_levels,
}
use tiltyard.Book.Expire.Search.{cancels_hit_lem}
use tiltyard.Book.Expire.Batch.{
  named, count_price, IsBatch, skip_below-AtLeast, skip_below-IsBatch, named-skip_below,
  count_price-skip_below, named-run, count_at-eq-count_price, named-rest, count_price-rest,
  rest-IsBatch, run-IdsAscend,
}

-- As many orders of the level are named as there are cancels at its price.
abbrev pub IsMatched : List ℕ → Level → Type 0
IsMatched cs l = length (keep_level (named cs) l) + count_price l.price cs ≡ length l.entries

-- The entries kept under a batch, seen from a level that the cursor has reached.
abbrev pub cursor_at : ℕ → List ℕ → List ℕ
cursor_at price cs = skip_below price cs

abbrev pub rest_at : ℕ → List ℕ → List ℕ
rest_at price cs = drop (count_at price (skip_below price cs)) (skip_below price cs)

reject_congr :
    (p q : Entry → Bool) (es : List Entry) → ((e : Entry) → p e ≡ q e) → reject p es ≡ reject q es
reject_congr p q es h = ap (λ (r : Entry → Bool). reject r es) (fun_ext h)

pub keep_run :
    (cs : List ℕ) (l : Level)
    → IsBatch cs
    → reject
        (λ (e : Entry).
          cancels_hit
            (take (count_at l.price (skip_below l.price cs)) (skip_below l.price cs))
            e.order_id)
        l.entries
      ≡ keep_level (named cs) l
keep_run cs l b =
    let cursor = skip_below l.price cs in
    let batch = skip_below-IsBatch l.price cs b in
    reject_congr _ _ l.entries (λ e.
      cancels_hit_lem (take (count_at l.price cursor) cursor) e.order_id
        (run-IdsAscend l.price cursor batch)
      ∙ named-run l.price e.order_id cursor batch (skip_below-AtLeast l.price cs b)
      ∙ named-skip_below l.price l.price e.order_id cs (omega arith))

named-rest_at :
    (price q id : ℕ) (cs : List ℕ) → price < q → named (rest_at price cs) q id ≡ named cs q id
named-rest_at price q id cs h =
    named-rest price q id (skip_below price cs) h ∙ named-skip_below price q id cs (omega arith)

keep-rest_at :
    (price : ℕ) (cs : List ℕ) (l : Level)
    → price < l.price
    → keep_level (named (rest_at price cs)) l ≡ keep_level (named cs) l
keep-rest_at price cs l h =
    reject_congr _ _ l.entries (λ e. named-rest_at price l.price e.order_id cs h)

pub pull-rest_at :
    (price : ℕ) (cs : List ℕ) (ls : List Level)
    → Above price ls
    → pull (named (rest_at price cs)) ls ≡ pull (named cs) ls
unfolding pull
pull-rest_at price cs [] h = refl
pull-rest_at price cs (l ∷ ls) h =
    ap₂ (pulled l.price) (keep-rest_at price cs l h.0) (pull-rest_at price cs ls h.1)

pub IsMatched-rest_at :
    (price : ℕ) (cs : List ℕ) (ls : List Level)
    → Above price ls
    → All (IsMatched cs) ls
    → All (IsMatched (rest_at price cs)) ls
IsMatched-rest_at price cs [] h m = tt
IsMatched-rest_at price cs (l ∷ ls) h m = (
  omega (
    arith,
    ap length (keep-rest_at price cs l h.0),
    count_price-rest price l.price (skip_below price cs) h.0,
    count_price-skip_below price l.price cs (omega arith),
  ),
  IsMatched-rest_at price cs ls h.1 m.1,
)

pub hits_lem :
    (cs : List ℕ) (price : ℕ)
    → IsBatch cs
    → count_at price (skip_below price cs) ≡ count_price price cs
hits_lem cs price b =
    count_at-eq-count_price price (skip_below price cs) (skip_below-IsBatch price cs b)
      (skip_below-AtLeast price cs b)
    ∙ count_price-skip_below price price cs (omega arith)

pub prune_entries_lem :
    (run : List ℕ) (es : List Entry) (kept : ℕ)
    → kept + total es < 4294967296
    → prune_entries run es kept ≡ (
      kept + total (reject (λ (e : Entry). cancels_hit run e.order_id) es),
      reject (λ (e : Entry). cancels_hit run e.order_id) es,
    )
unfolding prune_entries reject
prune_entries_lem run [] kept h = ground arith
prune_entries_lem run (e ∷ es) kept h =
    ground
      (arith, prune_entries_lem run es kept, prune_entries_lem run es (u32 (kept + e.quantity)))

whole_kept :
    (p : Entry → Bool) (es : List Entry) → length (reject p es) ≡ length es → reject p es ≡ es
unfolding reject
whole_kept p [] h = refl
whole_kept p (e ∷ es) h = ground (arith, whole_kept p es, length-reject p es)

nothing_kept : (es : List Entry) → length es ≡ 0 → es ≡ []
nothing_kept [] h = refl
nothing_kept (e ∷ es) h = absurd (omega arith)

module _ (stale : ℕ → Entry) where
  -- One round of pass two.
  expire_level :
      (l : Level) (cs : List ℕ) (w : Writer)
      → IsLevel l
      → IsBatch cs
      → IsMatched cs l
      → let cursor = skip_below l.price cs in
        let hits = count_at l.price cursor in
        Extends w (pulled l.price (keep_level (named cs) l) []) (
          if hits == 0
          then jump w (copy_level stale l w.level)
          else if ltb hits (length l.entries)
          then jump w (prune_level l w.level (take hits cursor))
          else w)
  unfolding prune_level
  expire_level l cs w v b m =
      let cursor = skip_below l.price cs in
      let hits = count_at l.price cursor in
      let kept = keep_level (named cs) l in
      let h = hits_lem cs l.price b in
      elim (Bool-cases (hits == 0)) [
        | inl y ↦
            let whole : kept ≡ l.entries =
              whole_kept _ l.entries (omega (arith, h, (==_iff hits 0).0 y)) in
            rw (y, copy_level-eq stale l w.level v.short, whole, pulled_whole l [] v)
              (Extends-jump w (record l { byte_offset = w.level }) refl)
        | inr n ↦ elim (Bool-cases (ltb hits (length l.entries))) [
          | inl y ↦
              let left : 0 < length kept = ground (arith, h) in
              rw
                (
                  n,
                  y,
                  prune_entries_lem (take hits cursor) l.entries 0 (omega (arith, v.fits)),
                  keep_run cs l b,
                  pulled_cons l.price (0 + total kept) kept [] (omega arith) left,
                )
                (Extends-jump w _ refl)
          | inr z ↦ rw (n, z, nothing_kept kept (ground (arith, h))) (Extends-refl w)
        ]
      ]

  -- Pass two writes what is left of the book.
  pub expire_levels-Extends :
      (ls : List Level) (cs : List ℕ) (w : Writer)
      → IsBatch cs
      → All IsLevel ls
      → Ascending ls
      → All (IsMatched cs) ls
      → Extends w (pull (named cs) ls) (expire_levels stale ls cs w)
  unfolding expire_levels pull
  expire_levels-Extends [] cs w b v a m = Extends-refl w
  expire_levels-Extends (l ∷ ls) cs w b v a m =
      rw
        (
          pulled-append l.price (keep_level (named cs) l) [] (pull (named cs) ls),
          ← pull-rest_at l.price cs ls a.0,
        )
        (Extends-trans (pulled l.price (keep_level (named cs) l) [])
          (pull (named (rest_at l.price cs)) ls) (expire_level l cs w v.0 b m.0)
          (expire_levels-Extends ls (rest_at l.price cs) _
            (rest-IsBatch l.price (skip_below l.price cs) (skip_below-IsBatch l.price cs b)) v.1 a.1
            (IsMatched-rest_at l.price cs ls a.0 m.1)))
