-- ===== src/Server/Auction/Sums.antt =====
-- src/server.c, `auction_walk`: a source of orders as prices with quantities, and its sums.
use tiltyard.Base.{
  ℕ, zero, suc, ◌+◌, ◌≤◌, ◌<◌, ◌≡◌, refl, true, false, u32, leb, ◌==◌, if◌then◌else◌, arith,
  Bool-cases, inl, inr,
}

pub record Source : Type 0 where
  pub size : ℕ
  pub price : ℕ → ℕ
  pub quantity : ℕ → ℕ

-- The first `i` quantities; those at a price or above it; those at a price or below it.
abbrev pub total : Source → ℕ → ℕ
total s zero = 0
total s (suc i) = total s i + s.quantity i

abbrev pub above : Source → ℕ → ℕ → ℕ
above s p zero = 0
above s p (suc i) = above s p i + (if leb p (s.price i) then s.quantity i else 0)

abbrev pub below : Source → ℕ → ℕ → ℕ
below s p zero = 0
below s p (suc i) = below s p i + (if leb (s.price i) p then s.quantity i else 0)

abbrev pub Climbing : Source → Type 0
Climbing s = (j k : ℕ) → j ≤ k → k < s.size → s.price j ≤ s.price k

pub total_mono : (s : Source) (i j : ℕ) → i ≤ j → total s i ≤ total s j
total_mono s i zero h = ground arith
total_mono s i (suc j) h = elim (Bool-cases (leb i j)) [
  | inl y ↦ omega (arith, total_mono s i j (ground arith))
  | inr n ↦ let e : i ≡ suc j = ground arith in rw e (omega arith)
]

pub total_next : (s : Source) (i : ℕ) → total s (i + 1) ≡ total s i + s.quantity i
total_next s i = let e : i + 1 ≡ suc i = omega arith in rw e refl

above_none : (s : Source) (p b : ℕ) → ((k : ℕ) → k < b → s.price k < p) → above s p b ≡ 0
above_none s p zero h = refl
above_none s p (suc b) h =
    ground (arith, above_none s p b (λ k l. h k (omega arith)), h b (omega arith))

pub above_split :
    (s : Source) (p b n : ℕ)
    → b ≤ n
    → ((k : ℕ) → k < b → s.price k < p)
    → ((k : ℕ) → b ≤ k → k < n → p ≤ s.price k)
    → above s p n + total s b ≡ total s n
above_split s p b zero h low high = let e : b ≡ 0 = omega arith in rw e (omega arith)
above_split s p b (suc n) h low high = elim (Bool-cases (leb b n)) [
  | inl y ↦ ground (
    arith,
    above_split s p b n (ground arith) low (λ k l m. high k l (omega arith)),
    high n (ground arith) (omega arith),
  )
  | inr m ↦
      let e : b ≡ suc n = ground arith in rw e (omega (arith, above_none s p (suc n) (rw e at low)))
]

pub below_split :
    (s : Source) (p a n : ℕ)
    → a ≤ n
    → ((k : ℕ) → k < a → s.price k ≤ p)
    → ((k : ℕ) → a ≤ k → k < n → p < s.price k)
    → below s p n ≡ total s a
below_split s p a zero h low high = let e : a ≡ 0 = omega arith in rw e refl
below_split s p a (suc n) h low high = elim (Bool-cases (leb a n)) [
  | inl y ↦ ground (
    arith,
    below_split s p a n (ground arith) low (λ k l m. high k l (omega arith)),
    high n (ground arith) (omega arith),
  )
  | inr m ↦
      let e : a ≡ suc n = ground arith in
      rw e (
        ground (
          arith,
          below_split s p n n (omega arith) (λ k l. low k (omega arith))
              (λ k l m. absurd (omega arith)),
          low n (omega arith),
        ))
]

pub above_anti : (s : Source) (p p' n : ℕ) → p ≤ p' → above s p' n ≤ above s p n
above_anti s p p' zero h = omega arith
above_anti s p p' (suc n) h = ground (arith, above_anti s p p' n h)

pub below_mono : (s : Source) (p p' n : ℕ) → p ≤ p' → below s p n ≤ below s p' n
below_mono s p p' zero h = omega arith
below_mono s p p' (suc n) h = ground (arith, below_mono s p p' n h)

pub above_total : (s : Source) (p n : ℕ) → above s p n ≤ total s n
above_total s p zero = omega arith
above_total s p (suc n) = ground (arith, above_total s p n)

pub below_total : (s : Source) (p n : ℕ) → below s p n ≤ total s n
below_total s p zero = omega arith
below_total s p (suc n) = ground (arith, below_total s p n)

-- The run of entries at a price, from position `i` on.
unfoldable pub gather : ℕ → Source → ℕ → ℕ → ℕ → ℕ × ℕ
gather zero s p i t = (i, t)
gather (suc n) s p i t = elim (s.price i == p) [
  | true ↦ gather n s p (i + 1) (u32 (t + s.quantity i))
  | false ↦ (i, t)
]

-- Where the run ends, and what it sums to.
pub record IsGathered (s : Source) (p i t : ℕ) (r : ℕ × ℕ) : Type 0 where
  pub on : i ≤ r.0
  pub inside : r.0 ≤ s.size
  pub sum : r.1 + total s i ≡ t + total s r.0
  pub equal : (k : ℕ) → i ≤ k → k < r.0 → s.price k ≡ p
  pub rest : (k : ℕ) → r.0 ≤ k → k < s.size → p < s.price k
  pub progress : i < s.size → s.price i ≡ p → i < r.0

pub gather_lem :
    (n : ℕ) (s : Source) (p i t : ℕ)
    → i + n ≡ s.size
    → Climbing s
    → (i < s.size → p ≤ s.price i)
    → t + total s s.size < 4294967296 + total s i
    → IsGathered s p i t (gather n s p i t)
unfolding gather
gather_lem zero s p i t e c h room = record {
  on = omega arith;
  inside = omega arith;
  sum = refl;
  equal = λ k l m. absurd (omega arith);
  rest = λ k l m. absurd (omega arith);
  progress = λ l m. absurd (omega arith);
}
gather_lem (suc n) s p i t e c h room = elim (Bool-cases (s.price i == p)) [
  | inr differs ↦
      rw (gather, differs)
        (record {
          on = omega arith;
          inside = omega arith;
          sum = refl;
          equal = λ k l m. absurd (omega arith);
          rest = λ k l m. ground (arith, h (omega arith), c i k l m);
          progress = λ l m. absurd (ground arith);
        })
  | inl same ↦
      let here : s.price i ≡ p = ground arith in
      let step = total_next s i in
      let fits : u32 (t + s.quantity i) ≡ t + s.quantity i =
        omega (arith, step, total_mono s (i + 1) s.size (omega arith)) in
      let r =
        gather_lem n s p (i + 1) (t + s.quantity i) (omega arith) c
          (λ l. omega (arith, here, c i (i + 1) (omega arith) l)) (omega (arith, step)) in
      rw (gather, same, fits)
        (record {
          on = omega (arith, r.on);
          inside = r.inside;
          sum = omega (arith, step, r.sum);
          equal = λ k l m. elim (Bool-cases (k == i)) [
            | inl y ↦ let z : k ≡ i = ground arith in rw z here
            | inr n' ↦ r.equal k (ground arith) m
          ];
          rest = r.rest;
          progress = λ l m. omega (arith, r.on);
        })
]
