-- ===== src/Ring/Cells.antt =====
-- Positions round the ring, and reads and writes of its cells.
use tiltyard.Base.{
  ℕ, zero, suc, ◌+◌, ◌-◌, ◌%◌, ◌<◌, ◌≡◌, refl, ap, ◌∙◌, inl, inr, List, [], ◌∷◌, ◌++◌, Option, none,
  get_or, get_elem?, take, drop, length, ltb, if◌then◌else◌, arith, Bool-cases,
}
use native.Mathlib.Nat.{mod-eq_of_lt, mod-eq-sub-mod}
use tiltyard.Ring.{uninitialised}

-- A position below twice the capacity, brought into range.
pub wrap_lem : (p n : ℕ) → p < n + n → p % n ≡ (if ltb p n then p else p - n)
wrap_lem p n h = elim (Bool-cases (ltb p n)) [
  | inl y ↦ rw y (mod-eq_of_lt (ground arith))
  | inr m ↦ rw m (
      mod-eq-sub-mod {n = p} {m = n} (ground arith)
      ∙ mod-eq_of_lt {n = p - n} {m = n} (ground arith))
]

pub length-uninitialised {ℓ} : (A : Type ℓ) (n : ℕ) → length (uninitialised {A = A} n) ≡ n
unfolding uninitialised
length-uninitialised A zero = refl
length-uninitialised A (suc n) = ap suc (length-uninitialised A n)

-- At `Type 0`, where the tactics split cases on the positions.
module _ {A : Type 0} where
  pub get_elem?-append :
      (xs ys : List A) (i : ℕ)
      → get_elem? (xs ++ ys) i
        ≡ (if ltb i (length xs) then get_elem? xs i else get_elem? ys (i - length xs))
  get_elem?-append [] ys i = let z : i - 0 ≡ i = omega arith in ground (arith, z)
  get_elem?-append (x ∷ xs) ys zero = ground arith
  get_elem?-append (x ∷ xs) ys (suc i) =
      let z : suc i - suc (length xs) ≡ i - length xs = omega arith in
      ground (arith, get_elem?-append xs ys i)

  pub get_or-append :
      (xs ys : List (Option A)) (i : ℕ)
      → get_or (xs ++ ys) i none
        ≡ (if ltb i (length xs) then get_or xs i none else get_or ys (i - length xs) none)
  get_or-append [] ys i = let z : i - 0 ≡ i = omega arith in ground (arith, z)
  get_or-append (x ∷ xs) ys zero = ground arith
  get_or-append (x ∷ xs) ys (suc i) =
      let z : suc i - suc (length xs) ≡ i - length xs = omega arith in
      ground (arith, z, get_or-append xs ys i)

  pub get_or-take :
      (n : ℕ) (xs : List (Option A)) (i : ℕ) → i < n → get_or (take n xs) i none ≡ get_or xs i none
  get_or-take zero xs i h = absurd (omega arith)
  get_or-take (suc n) [] i h = refl
  get_or-take (suc n) (x ∷ xs) zero h = refl
  get_or-take (suc n) (x ∷ xs) (suc i) h = get_or-take n xs i (omega arith)

  pub get_or-drop :
      (n : ℕ) (xs : List (Option A)) (i : ℕ) → get_or (drop n xs) i none ≡ get_or xs (n + i) none
  get_or-drop zero xs i = let z : 0 + i ≡ i = omega arith in rw z
  get_or-drop (suc n) [] i = refl
  get_or-drop (suc n) (x ∷ xs) i =
      let z : suc n + i ≡ suc (n + i) = omega arith in rw z (get_or-drop n xs i)
