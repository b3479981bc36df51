-- ===== src/Book/Expire/Batch.antt =====
-- The cursor over the sorted cancels: at each level it stands at that level's run, and what it has
-- passed concerns no level further up.
use tiltyard.Base.{
  ℕ, suc, ◌+◌, ◌≤◌, ◌<◌, ◌≡◌, refl, sym, Bool, false, ◌&&◌, ◌||◌, List, [], ◌∷◌, take, drop, All,
  ltb, ◌==◌, if◌then◌else◌, arith, Bool-cases, inl, inr,
}
use tiltyard.Book.Expire.{cancel_id, cancel_price, skip_below, count_at}
use tiltyard.Book.Expire.Search.{has_id, IdsAscend}

-- Is the order with this id named at this price?
abbrev pub named : List ℕ → ℕ → ℕ → Bool
named [] price id = false
named (c ∷ cs) price id = (cancel_price c == price && cancel_id c == id) || named cs price id

-- How many cancels have the price.
abbrev pub count_price : ℕ → List ℕ → ℕ
count_price price [] = 0
count_price price (c ∷ cs) = (if cancel_price c == price then 1 else 0) + count_price price cs

-- A batch: keys of 48 bits, strictly ascending.
abbrev pub IsBatch : List ℕ → Type 0
IsBatch [] = Unit
IsBatch (c ∷ cs) = (c < 281474976710656) × All (λ d. c < d) cs × IsBatch cs

abbrev pub AtLeast : ℕ → List ℕ → Type 0
AtLeast price cs = All (λ c. price ≤ cancel_price c) cs

above_head :
    (price c : ℕ) (cs : List ℕ)
    → price ≤ cancel_price c
    → c < 281474976710656
    → All (λ d. c < d) cs
    → IsBatch cs
    → AtLeast price cs
above_head price c [] p k a b = tt
above_head price c (d ∷ ds) p k a b = (omega arith, above_head price c ds p k a.1 b.2)

pub skip_below-AtLeast :
    (price : ℕ) (cs : List ℕ) → IsBatch cs → AtLeast price (skip_below price cs)
unfolding skip_below
skip_below-AtLeast price [] b = tt
skip_below-AtLeast price (c ∷ cs) b = elim (Bool-cases (ltb (cancel_price c) price)) [
  | inl y ↦ rw y (skip_below-AtLeast price cs b.2)
  | inr n ↦ rw n (ground arith, above_head price c cs (ground arith) b.0 b.1 b.2)
]

pub skip_below-IsBatch : (price : ℕ) (cs : List ℕ) → IsBatch cs → IsBatch (skip_below price cs)
unfolding skip_below
skip_below-IsBatch price [] b = tt
skip_below-IsBatch price (c ∷ cs) b = elim (Bool-cases (ltb (cancel_price c) price)) [
  | inl y ↦ rw y (skip_below-IsBatch price cs b.2)
  | inr n ↦ rw n b
]

pub named-skip_below :
    (price q id : ℕ) (cs : List ℕ) → price ≤ q → named (skip_below price cs) q id ≡ named cs q id
unfolding skip_below
named-skip_below price q id [] h = refl
named-skip_below price q id (c ∷ cs) h = ground (arith, named-skip_below price q id cs h)

pub count_price-skip_below :
    (price q : ℕ) (cs : List ℕ) → price ≤ q → count_price q (skip_below price cs) ≡ count_price q cs
unfolding skip_below
count_price-skip_below price q [] h = refl
count_price-skip_below price q (c ∷ cs) h = ground (arith, count_price-skip_below price q cs h)

-- Above a price nothing is named at it.
none_named : (price id : ℕ) (cs : List ℕ) → AtLeast (suc price) cs → named cs price id ≡ false
none_named price id [] a = refl
none_named price id (c ∷ cs) a = ground (arith, none_named price id cs a.1)

none_counted : (price : ℕ) (cs : List ℕ) → AtLeast (suc price) cs → count_price price cs ≡ 0
none_counted price [] a = refl
none_counted price (c ∷ cs) a = ground (arith, none_counted price cs a.1)

-- At a cursor with no cancel below the price: the run in front, and the rest behind it.
module _ (price : ℕ) where
  pub named-run :
      (id : ℕ) (cs : List ℕ)
      → IsBatch cs
      → AtLeast price cs
      → has_id id (take (count_at price cs) cs) ≡ named cs price id
  unfolding count_at
  named-run id [] b a = refl
  named-run id (c ∷ cs) b a = elim (Bool-cases (cancel_price c == price)) [
    | inl y ↦ rw y (ground (arith, named-run id cs b.2 a.1))
    | inr n ↦
        rw n (sym (none_named price id cs (above_head (suc price) c cs (ground arith) b.0 b.1 b.2)))
  ]

  pub count_at-eq-count_price :
      (cs : List ℕ) → IsBatch cs → AtLeast price cs → count_at price cs ≡ count_price price cs
  unfolding count_at
  count_at-eq-count_price [] b a = refl
  count_at-eq-count_price (c ∷ cs) b a = elim (Bool-cases (cancel_price c == price)) [
    | inl y ↦ rw y (omega (arith, count_at-eq-count_price cs b.2 a.1))
    | inr n ↦ rw n (
        omega
          (arith, none_counted price cs (above_head (suc price) c cs (ground arith) b.0 b.1 b.2)))
  ]

  pub named-rest :
      (q id : ℕ) (cs : List ℕ)
      → price < q
      → named (drop (count_at price cs) cs) q id ≡ named cs q id
  unfolding count_at
  named-rest q id [] h = refl
  named-rest q id (c ∷ cs) h = ground (arith, named-rest q id cs h)

  pub count_price-rest :
      (q : ℕ) (cs : List ℕ)
      → price < q
      → count_price q (drop (count_at price cs) cs) ≡ count_price q cs
  unfolding count_at
  count_price-rest q [] h = refl
  count_price-rest q (c ∷ cs) h = ground (arith, count_price-rest q cs h)

  pub rest-IsBatch : (cs : List ℕ) → IsBatch cs → IsBatch (drop (count_at price cs) cs)
  unfolding count_at
  rest-IsBatch [] b = tt
  rest-IsBatch (c ∷ cs) b = elim (Bool-cases (cancel_price c == price)) [
    | inl y ↦ rw y (rest-IsBatch cs b.2)
    | inr n ↦ rw n b
  ]

  run_ids :
      (c : ℕ) (cs : List ℕ)
      → c < 281474976710656
      → cancel_price c ≡ price
      → All (λ d. c < d) cs
      → IsBatch cs
      → All (λ d. cancel_id c < cancel_id d) (take (count_at price cs) cs)
  unfolding count_at
  run_ids c [] k e a b = tt
  run_ids c (d ∷ ds) k e a b = elim (Bool-cases (cancel_price d == price)) [
    | inl y ↦
        let same : cancel_price d ≡ price = ground arith in
        rw y (omega arith, run_ids c ds k e a.1 b.2)
    | inr n ↦ rw n tt
  ]

  pub run-IdsAscend : (cs : List ℕ) → IsBatch cs → IdsAscend (take (count_at price cs) cs)
  unfolding count_at
  run-IdsAscend [] b = tt
  run-IdsAscend (c ∷ cs) b = elim (Bool-cases (cancel_price c == price)) [
    | inl y ↦ rw y (run_ids c cs b.0 (ground arith) b.1 b.2, run-IdsAscend cs b.2)
    | inr n ↦ rw n tt
  ]
