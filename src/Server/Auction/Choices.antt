-- ===== src/Server/Auction/Choices.antt =====
-- src/server.c, `auction_walk`: the tests of its loops, as numbers.
use tiltyard.Base.{
  ℕ, ◌+◌, ◌-◌, ◌≤◌, ◌<◌, ◌≡◌, ◌⊎◌, refl, Bool, true, false, ◌&&◌, ◌||◌, ltb, ◌==◌, if◌then◌else◌,
  arith, Bool-cases, inl, inr,
}
use tiltyard.Server.Auction.Curves.{lower}

-- The lower of two numbers does not fall when both rise.
pub least_mono :
    (d s d' s' : ℕ) → d ≤ d' → s ≤ s' → (if ltb d s then d else s) ≤ (if ltb d' s' then d' else s')
least_mono d s d' s' h k = ground arith

-- The higher of two numbers is no lower than either.
pub higher : (m y z : ℕ) → (z ≤ m) ⊎ (z ≤ y) → z ≤ (if ltb m y then y else m)
higher m y z h = ground (arith, h)

-- The best crossing is attained where the better of two is taken.
pub taken_over :
    (f : ℕ → ℕ) (m p clearing : ℕ)
    → (m ≡ 0) ⊎ (f clearing ≡ m)
    → ((if ltb m (f p) then f p else m) ≡ 0)
      ⊎ (f (if ltb m (f p) then p else clearing) ≡ (if ltb m (f p) then f p else m))
taken_over f m p clearing h = elim (Bool-cases (ltb m (f p))) [
  | inl y ↦ rw y (inr refl)
  | inr n ↦ rw n h
]

-- The lower of the price so far and that of a source, if the source goes on.
pub lower_below : (a : Bool) (x p : ℕ) → lower a x p ≤ p
lower_below a x p = ground arith

pub lower_at : (a : Bool) (x p : ℕ) → a ≡ true → lower a x p ≤ x
lower_at a x p h = ground arith

pub lower_up : (a : Bool) (x p w : ℕ) → w ≤ p → (a ≡ true → w ≤ x) → w ≤ lower a x p
lower_up false x p w h k = h
lower_up true x p w h k = ground (arith, k refl)

pub lower_met : (a : Bool) (x p : ℕ) → (lower a x p ≡ p) ⊎ ((a ≡ true) × (x ≡ lower a x p))
lower_met false x p = inl refl
lower_met true x p = elim (Bool-cases (ltb x p)) [
  | inl y ↦ rw y (inr (refl, refl))
  | inr n ↦ rw n (inl refl)
]

pub test_by_below : (i k n : ℕ) → i ≤ k → k < n → ltb i n ≡ true
test_by_below i k n h l = ground arith

pub below_by_test : (i n : ℕ) → ltb i n ≡ true → i < n
below_by_test i n h = ground arith

pub last_left :
    (i1 n1 i2 n2 i3 n3 i4 n4 : ℕ)
    → 0 < (n1 - i1) + (n2 - i2) + (n3 - i3) + (n4 - i4)
    → ltb i1 n1 ≡ false
    → ltb i2 n2 ≡ false
    → ltb i3 n3 ≡ false
    → i4 < n4
last_left i1 n1 i2 n2 i3 n3 i4 n4 h e1 e2 e3 = ground arith

-- What the test for two sides of market orders says.
pub two_sided : (m d s : ℕ) → (m == 0 && ltb 0 d && ltb 0 s) ≡ true → m < (if ltb d s then d else s)
two_sided m d s h = ground arith

pub one_sided :
    (m d s : ℕ) → (m == 0 && ltb 0 d && ltb 0 s) ≡ false → m ≡ 0 → (if ltb d s then d else s) ≡ 0
one_sided m d s h e = ground arith

-- The test of the loop, and what is left.
pub any_left :
    (i1 n1 i2 n2 i3 n3 j top first x : ℕ)
    → j ≡ first + x
    → first ≤ top
    → (ltb i1 n1 || ltb i2 n2 || ltb i3 n3 || ltb j top) ≡ true
    → 0 < (n1 - i1) + (n2 - i2) + (n3 - i3) + ((top - first) - x)
any_left i1 n1 i2 n2 i3 n3 j top first x e h k = ground arith

pub nothing_left :
    (i1 n1 i2 n2 i3 n3 j top first x : ℕ)
    → j ≡ first + x
    → first ≤ top
    → (ltb i1 n1 || ltb i2 n2 || ltb i3 n3 || ltb j top) ≡ false
    → (n1 - i1) + (n2 - i2) + (n3 - i3) + ((top - first) - x) ≡ 0
nothing_left i1 n1 i2 n2 i3 n3 j top first x e h k = ground arith

pub ltb_shift : (first x top : ℕ) → first ≤ top → ltb (first + x) top ≡ ltb x (top - first)
ltb_shift first x top h = elim (Bool-cases (ltb x (top - first))) [
  | inl y ↦ y-side y
  | inr n ↦ n-side n
]
  where
    y-side : ltb x (top - first) ≡ true → ltb (first + x) top ≡ ltb x (top - first)
    y-side y = rw y (ground (arith, y))

    n-side : ltb x (top - first) ≡ false → ltb (first + x) top ≡ ltb x (top - first)
    n-side n = rw n (ground (arith, n))
