-- ===== src/Book/Expire/Search.antt =====
-- The binary search of `cancels_hit` decides membership in a run of ascending ids.
use tiltyard.Base.{
  ℕ, zero, suc, ◌+◌, ◌-◌, ◌/◌, ◌≤◌, ◌<◌, ◌≡◌, Bool, true, false, ◌||◌, List, [], ◌∷◌, length, All,
  get_or, ◌==◌, ==_iff, arith, Bool-cases, inl, inr,
}
use tiltyard.Book.Expire.{cancel_id, hit_loop, cancels_hit}

-- Does a cancel of the run carry this id?
abbrev pub has_id : ℕ → List ℕ → Bool
has_id id [] = false
has_id id (c ∷ cs) = cancel_id c == id || has_id id cs

-- The ids of the run climb.
abbrev pub IdsAscend : List ℕ → Type 0
IdsAscend [] = Unit
IdsAscend (c ∷ cs) = All (λ d. cancel_id c < cancel_id d) cs × IdsAscend cs

abbrev id_at : List ℕ → ℕ → ℕ
id_at cs i = cancel_id (get_or cs i 0)

All-get : (P : ℕ → Type 0) (cs : List ℕ) (i : ℕ) → All P cs → i < length cs → P (get_or cs i 0)
All-get P [] i h k = absurd (omega arith)
All-get P (c ∷ cs) zero h k = h.0
All-get P (c ∷ cs) (suc i) h k = All-get P cs i h.1 (omega arith)

ids_climb : (cs : List ℕ) (i j : ℕ) → IdsAscend cs → i < j → j < length cs → id_at cs i < id_at cs j
ids_climb [] i j h k l = absurd (omega arith)
ids_climb (c ∷ cs) i zero h k l = absurd (omega arith)
ids_climb (c ∷ cs) zero (suc j) h k l =
    All-get (λ d. cancel_id c < cancel_id d) cs j h.0 (omega arith)
ids_climb (c ∷ cs) (suc i) (suc j) h k l = ids_climb cs i j h.1 (omega arith) (omega arith)

has_id-get : (id : ℕ) (cs : List ℕ) (i : ℕ) → i < length cs → id_at cs i ≡ id → has_id id cs ≡ true
has_id-get id [] i k e = absurd (omega arith)
has_id-get id (c ∷ cs) zero k e = ground arith
has_id-get id (c ∷ cs) (suc i) k e = ground (arith, has_id-get id cs i)

has_id-index :
    (id : ℕ) (cs : List ℕ) → has_id id cs ≡ true → (i : ℕ) × (i < length cs) × (id_at cs i ≡ id)
has_id-index id [] h = cc
has_id-index id (c ∷ cs) h = elim (Bool-cases (cancel_id c == id)) [
  | inl y ↦ (0, omega arith, (==_iff (cancel_id c) id).0 y)
  | inr n ↦ let (i, k, e) = has_id-index id cs (rw n at h) in (suc i, omega arith, e)
]

hit_loop_sound :
    (fuel : ℕ) (cs : List ℕ) (id lo hi : ℕ)
    → hi ≤ length cs
    → hit_loop fuel cs id lo hi ≡ true
    → has_id id cs ≡ true
unfolding hit_loop
hit_loop_sound zero cs id lo hi h k = cc
hit_loop_sound (suc fuel) cs id lo hi h k = ground (
  arith,
  has_id-get id cs ((lo + hi) / 2),
  hit_loop_sound fuel cs id ((lo + hi) / 2 + 1) hi h,
  hit_loop_sound fuel cs id lo ((lo + hi) / 2),
)

hit_loop_complete :
    (fuel : ℕ) (cs : List ℕ) (id lo hi i : ℕ)
    → IdsAscend cs
    → hi ≤ length cs
    → hi - lo < fuel
    → lo ≤ i
    → i < hi
    → id_at cs i ≡ id
    → hit_loop fuel cs id lo hi ≡ true
unfolding hit_loop
hit_loop_complete zero cs id lo hi i a h f l u e = absurd (omega arith)
hit_loop_complete (suc fuel) cs id lo hi i a h f l u e =
    let mid = (lo + hi) / 2 in
    ground (
      arith,
      ids_climb cs i mid a,
      ids_climb cs mid i a,
      hit_loop_complete fuel cs id (mid + 1) hi i a h,
      hit_loop_complete fuel cs id lo mid i a,
    )

-- On a run of climbing ids the search answers whether the id is there.
pub cancels_hit_lem : (cs : List ℕ) (id : ℕ) → IdsAscend cs → cancels_hit cs id ≡ has_id id cs
unfolding cancels_hit
cancels_hit_lem cs id a = elim (Bool-cases (has_id id cs)) [
  | inl y ↦
      let (i, k, e) = has_id-index id cs y in
      rw y (
        hit_loop_complete (length cs + 1) cs id 0 (length cs) i a (omega arith) (omega arith)
          (omega arith) k e)
  | inr n ↦ ground (arith, hit_loop_sound (length cs + 1) cs id 0 (length cs) (omega arith))
]
