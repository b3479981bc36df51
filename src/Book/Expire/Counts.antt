-- ===== src/Book/Expire/Counts.antt =====
-- Pass one of `ob_expire` counts what pass two writes.
use tiltyard.Base.{
  ℕ, zero, suc, ◌+◌, ◌-◌, ◌<◌, ◌≡◌, refl, ap, ◌∙◌, Bool, true, ◌&&◌, not, List, [], ◌∷◌, length,
  take, All, u16, max_u16, ltb, leb, ◌==◌, if◌then◌else◌, arith, Bool-cases, inl, inr,
}
use tiltyard.Book.Types.{Entry, Level}
use tiltyard.Book.Shape.{Ascending, keep_level, pulled, pull}
use tiltyard.Book.Expire.{skip_below, count_at, Survivors, count_survivors}
use tiltyard.Book.Expire.Batch.{named, IsBatch, skip_below-IsBatch, rest-IsBatch}
use tiltyard.Book.Cancel.Counts.{All-take}
use tiltyard.Book.Expire.Written.{IsMatched, rest_at, pull-rest_at, IsMatched-rest_at, hits_lem}

length-pulled :
    (price : ℕ) (es : List Entry) (rest : List Level)
    → length (pulled price es rest) ≡ (if ltb 0 (length es) then 1 else 0) + length rest
length-pulled price [] rest = omega arith
length-pulled price (e ∷ es) rest = grind arith

-- Does an order of the level survive the batch?
abbrev lives : List ℕ → Level → Bool
lives cs l = ltb (count_at l.price (skip_below l.price cs)) (length l.entries)

lives_iff :
    (cs : List ℕ) (l : Level)
    → IsBatch cs
    → IsMatched cs l
    → ltb 0 (length (keep_level (named cs) l)) ≡ lives cs l
lives_iff cs l b m = ground (arith, hits_lem cs l.price b)

full_step :
    (cs : List ℕ) (l : Level) (ls : List Level)
    → IsBatch cs
    → Ascending (l ∷ ls)
    → IsMatched cs l
    → length (pull (named cs) (l ∷ ls))
      ≡ (if lives cs l then 1 else 0) + length (pull (named (rest_at l.price cs)) ls)
unfolding pull
full_step cs l ls b a m =
    length-pulled l.price (keep_level (named cs) l) (pull (named cs) ls)
    ∙ rw (lives_iff cs l b m, pull-rest_at l.price cs ls a.0)

prefix_step :
    (n : ℕ) (cs : List ℕ) (l : Level) (ls : List Level)
    → IsBatch cs
    → Ascending (l ∷ ls)
    → IsMatched cs l
    → length (pull (named cs) (take n (l ∷ ls)))
      ≡ (if ltb 0 n && lives cs l then 1 else 0)
        + length (pull (named (rest_at l.price cs)) (take (n - 1) ls))
unfolding pull
prefix_step zero cs l ls b a m = grind arith
prefix_step (suc n) cs l ls b a m =
    let one_less : suc n - 1 ≡ n = omega arith in
    let positive : ltb 0 (suc n) ≡ true = ground arith in
    let above = All-take (λ (x : Level). l.price < x.price) n ls a.0 in
    length-pulled l.price (keep_level (named cs) l) (pull (named cs) (take n ls))
    ∙ rw (lives_iff cs l b m, one_less, positive, pull-rest_at l.price cs (take n ls) above)

abbrev bids_before : ℕ → ℕ
bids_before hi = u16 (hi + 1)

no_levels : (hit : ℕ → ℕ → Bool) (n : ℕ) → pull hit (take n []) ≡ []
unfolding pull
no_levels hit zero = refl
no_levels hit (suc n) = refl

-- The test that counts a level as a bid.
bid_gate : (hi i : ℕ) → hi < 65536 → (not (hi == max_u16) && leb i hi) ≡ ltb 0 (bids_before hi - i)
bid_gate hi i h = ground arith

-- Pass one counts what pass two writes, in the book and among its bids.
pub count_survivors_lem :
    (hi : ℕ) (ls : List Level) (i : ℕ) (cs : List ℕ) (s : Survivors)
    → hi < 65536
    → s.levels + length ls < 65536
    → s.bids + length ls < 65536
    → IsBatch cs
    → Ascending ls
    → All (IsMatched cs) ls
    → (levels : ℕ) → levels ≡ s.levels + length (pull (named cs) ls)
    → (bids : ℕ) → bids ≡ s.bids + length (pull (named cs) (take (bids_before hi - i) ls))
    → count_survivors hi ls i cs s ≡ record { levels = levels; bids = bids }
unfolding count_survivors pull
count_survivors_lem hi [] i cs s h k n b a m levels f bids g =
    ground (arith, ap length (no_levels (named cs) (bids_before hi - i)))
count_survivors_lem hi (l ∷ ls) i cs s h k n b a m levels f bids g =
    let full = f ∙ ap (λ (x : ℕ). s.levels + x) (full_step cs l ls b a m.0) in
    let less : bids_before hi - i - 1 ≡ bids_before hi - suc i = omega arith in
    let prefix =
      g
      ∙ ap (λ (x : ℕ). s.bids + x)
          (rw (← bid_gate hi i h, less) at (prefix_step (bids_before hi - i) cs l ls b a m.0)) in
    let batch = rest-IsBatch l.price (skip_below l.price cs) (skip_below-IsBatch l.price cs b) in
    let matched = IsMatched-rest_at l.price cs ls a.0 m.1 in
    elim (Bool-cases (lives cs l)) [
      | inl y ↦ elim (Bool-cases (not (hi == max_u16) && leb i hi)) [
        | inl z ↦
            rw (y, z)
              (count_survivors_lem hi ls (suc i) (rest_at l.price cs) _ h (omega arith)
                (omega arith) batch a.1 matched levels (omega (arith, (rw y at full))) bids
                (omega (arith, (rw (z, y) at prefix))))
        | inr z ↦
            rw (y, z)
              (count_survivors_lem hi ls (suc i) (rest_at l.price cs) _ h (omega arith)
                (omega arith) batch a.1 matched levels (omega (arith, (rw y at full))) bids
                (omega (arith, (rw z at prefix))))
      ]
      | inr y ↦ rw y (
          count_survivors_lem hi ls (suc i) (rest_at l.price cs) s h (omega arith) (omega arith)
            batch a.1 matched levels (omega (arith, (rw y at full))) bids
            (ground (arith, (rw y at prefix))))
    ]
