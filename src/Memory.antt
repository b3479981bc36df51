-- ===== src/Memory.antt =====
-- Arrays of words, as `malloc` gives them: reads, writes, and what a range of cells holds.
use tiltyard.Base.{
  ℕ, zero, suc, ◌+◌, ◌<◌, ◌≡◌, refl, ap, List, [], ◌∷◌, ◌++◌, get_or, length, ◌==◌, if◌then◌else◌,
  arith, Bool-cases, inl, inr,
}

-- A write out of bounds changes nothing.
abbrev pub set {ℓ} : {A : Type ℓ} → List A → ℕ → A → List A
set [] i v = []
set (x ∷ xs) zero v = v ∷ xs
set (x ∷ xs) (suc i) v = x ∷ set xs i v

abbrev pub cell : List ℕ → ℕ → ℕ
cell h i = get_or h i 0

-- The cells from position `i` on that a `malloc` left as they were.
unfoldable pub junk_from : (ℕ → ℕ) → ℕ → ℕ → List ℕ
junk_from junk i zero = []
junk_from junk i (suc n) = junk i ∷ junk_from junk (suc i) n

pub length-junk_from : (junk : ℕ → ℕ) (i n : ℕ) → length (junk_from junk i n) ≡ n
unfolding junk_from
length-junk_from junk i zero = refl
length-junk_from junk i (suc n) = ap suc (length-junk_from junk (suc i) n)

pub length-set {ℓ} : {A : Type ℓ} (xs : List A) (i : ℕ) (v : A) → length (set xs i v) ≡ length xs
length-set [] i v = refl
length-set (x ∷ xs) zero v = refl
length-set (x ∷ xs) (suc i) v = ap suc (length-set xs i v)

pub cell-set :
    (h : List ℕ) (i j v : ℕ) → i < length h → cell (set h i v) j ≡ (if i == j then v else cell h j)
cell-set [] i j v k = absurd (omega arith)
cell-set (x ∷ h) zero zero v k = refl
cell-set (x ∷ h) (suc i) (suc j) v k = ground (arith, cell-set h i j v)
cell-set (x ∷ h) i j v k = ground arith

pub cell-append : (xs ys : List ℕ) (i : ℕ) → i < length xs → cell (xs ++ ys) i ≡ cell xs i
cell-append [] ys i k = absurd (omega arith)
cell-append (x ∷ xs) ys zero k = refl
cell-append (x ∷ xs) ys (suc i) k = cell-append xs ys i (omega arith)

abbrev pub one_if : ℕ → ℕ → ℕ
one_if a b = if a == b then 1 else 0

-- How often the cells 1, …, n - 1 hold `x`.
abbrev pub bag : ℕ → List ℕ → ℕ → ℕ
bag zero h x = 0
bag (suc zero) h x = 0
bag (suc (suc n)) h x = bag (suc n) h x + one_if (cell h (suc n)) x

-- Cells outside the range do not count.
pub bag_congr :
    (n : ℕ) (g h : List ℕ) (x : ℕ)
    → ((i : ℕ) → 0 < i → i < n → cell g i ≡ cell h i)
    → bag n g x ≡ bag n h x
bag_congr zero g h x e = refl
bag_congr (suc zero) g h x e = refl
bag_congr (suc (suc n)) g h x e = ground (
  arith,
  e (suc n) (omega arith) (omega arith),
  bag_congr (suc n) g h x (λ i p k. e i p (omega arith)),
)

-- A write trades the old entry for the new one.
pub bag-set :
    (n : ℕ) (h : List ℕ) (i v x : ℕ)
    → 0 < i
    → i < n
    → i < length h
    → bag n (set h i v) x + one_if (cell h i) x ≡ bag n h x + one_if v x
bag-set zero h i v x p k l = absurd (omega arith)
bag-set (suc zero) h i v x p k l = absurd (omega arith)
bag-set (suc (suc n)) h i v x p k l = elim (Bool-cases (i == suc n)) [
  | inl y ↦ ground (
    arith,
    cell-set h i (suc n) v l,
    bag_congr (suc n) (set h i v) h x (λ j q m. ground (arith, cell-set h i j v l)),
  )
  | inr m ↦ ground (arith, cell-set h i (suc n) v l, bag-set (suc n) h i v x p (ground arith) l)
]

pub bag_step :
    (n : ℕ) (h : List ℕ) (x : ℕ) → 0 < n → bag (n + 1) h x ≡ bag n h x + one_if (cell h n) x
bag_step zero h x p = absurd (omega arith)
bag_step (suc n) h x p = let e : suc n + 1 ≡ suc (suc n) = omega arith in rw e

pub cell-junk_from : (f : ℕ → ℕ) (i n j : ℕ) → j < n → cell (junk_from f i n) j ≡ f (i + j)
unfolding junk_from
cell-junk_from f i zero j k = absurd (omega arith)
cell-junk_from f i (suc n) zero k = let z : i + 0 ≡ i = omega arith in rw z
cell-junk_from f i (suc n) (suc j) k =
    let z : i + suc j ≡ suc i + j = omega arith in rw z (cell-junk_from f (suc i) n j (omega arith))

pub get_or-set :
    {A : Type 0} (xs : List A) (i j : ℕ) (v d : A)
    → i < length xs
    → get_or (set xs i v) j d ≡ (if i == j then v else get_or xs j d)
get_or-set [] i j v d k = absurd (omega arith)
get_or-set (x ∷ h) zero zero v d k = refl
get_or-set (x ∷ h) (suc i) (suc j) v d k = ground (arith, get_or-set h i j v d)
get_or-set (x ∷ h) i j v d k = ground arith

pub get_or-append :
    {A : Type 0} (xs ys : List A) (i : ℕ) (d : A)
    → i < length xs
    → get_or (xs ++ ys) i d ≡ get_or xs i d
get_or-append [] ys i d k = absurd (omega arith)
get_or-append (x ∷ xs) ys zero d k = refl
get_or-append (x ∷ xs) ys (suc i) d k = get_or-append xs ys i d (omega arith)
