-- ===== src/Book/Cancel/Counts.antt =====
-- How many levels a cancel costs, in the book and among the bids.
use tiltyard.Base.{
  ℕ, zero, suc, ◌+◌, ◌-◌, ◌<◌, ◌≡◌, refl, ap, Bool, true, ◌&&◌, List, [], ◌∷◌, some, length, take,
  All, reject, get_elem?, ltb, ◌==◌, ==_iff, if◌then◌else◌, arith, Bool-cases, inl, inr,
}
use tiltyard.Book.Types.{Entry, Level}
use tiltyard.Book.Level.Copies.{hit_total, hit_total-add-kept}
use tiltyard.Book.Cancel.{find_price}
use tiltyard.Book.Shape.{total, IsLevel, Above, Ascending, keep_level, pulled, pull}
use tiltyard.Book.Pull.{length-map-bare}
use tiltyard.Book.Cancel.Written.{
  one, keep_here, keep_away, pull-Above, reject_positive, no_entries, some_entries, pulled_cons,
  pulled_whole, first_at, find_price_ge,
}

pub All-take {κ} : (P : Level → Type κ) (n : ℕ) (ls : List Level) → All P ls → All P (take n ls)
All-take P zero ls h = tt
All-take P (suc n) [] h = tt
All-take P (suc n) (l ∷ ls) h = (h.0, All-take P n ls h.1)

-- How many levels a cancel costs among the first `n`.
abbrev pub lost : Bool → ℕ → ℕ → ℕ
lost wipe i n = if wipe && ltb i n then 1 else 0

length-here :
    (price id q : ℕ) (l : Level) (rest : List Level)
    → IsLevel l
    → (l.price == price) ≡ true
    → hit_total id l.entries ≡ q
    → length (pulled l.price (keep_level (one price id) l) rest)
        + (if l.quantity == q then 1 else 0)
      ≡ suc (length rest)
length-here price id q l rest v h t =
    let kept = reject (λ (e : Entry). e.order_id == id) l.entries in
    let sum = hit_total-add-kept id l.entries in
    let positive = reject_positive id l.entries v.positive in
    rw (keep_here price id l h) (elim (Bool-cases (l.quantity == q)) [
      | inl y ↦
          rw
            (y, no_entries kept positive (omega (arith, sum, v.counted, (==_iff l.quantity q).0 y)))
            (omega arith)
      | inr n ↦
          let left : 0 < total kept = ground (arith, sum, v.counted) in
          rw (n, pulled_cons l.price (total kept) kept rest refl (some_entries kept left))
            (omega arith)
    ])

pub pull_count :
    (price id q : ℕ) (ls : List Level) (l0 : Level) (n j : ℕ)
    → first_at price ls ≡ some l0
    → hit_total id l0.entries ≡ q
    → All IsLevel ls
    → Ascending ls
    → length (pull (one price id) (take n ls))
        + lost (l0.quantity == q) (find_price price ls j) (j + n)
      ≡ length (take n ls)
unfolding find_price pull
pull_count price id q [] l0 n j f t v a = cc
pull_count price id q (l ∷ ls) l0 zero j f t v a = ground (arith, find_price_ge price (l ∷ ls) j)
pull_count price id q (l ∷ ls) l0 (suc n) j f t v a = elim (Bool-cases (l.price == price)) [
  | inl y ↦
      let first : some l ≡ some l0 = rw y at f in
      let same : l ≡ l0 = cc in
      let price_eq : l.price ≡ price = (==_iff l.price price).0 y in
      let here : ltb j (j + suc n) ≡ true = ground arith in
      let above : Above price (take n ls) =
        All-take (λ (m : Level). price < m.price) n ls (rw (← price_eq) a.0) in
      let rest = pull-Above price id (take n ls) above (All-take IsLevel n ls v.1) in
      rw (y, here, ← same)
        (ground (
          arith,
          length-here price id q l (pull (one price id) (take n ls)) v.0 y (rw same t),
          ap length rest,
          length-map-bare (take n ls),
        ))
  | inr m ↦
      let size : j + suc n ≡ suc j + n = omega arith in
      rw (keep_away price id l m, pulled_whole l (pull (one price id) (take n ls)) v.0, m, size)
        (omega (arith, pull_count price id q ls l0 n (suc j) (rw m at f) t v.1 a.1))
]

pub get_first :
    (price : ℕ) (ls : List Level) (j : ℕ)
    → get_elem? ls (find_price price ls j - j) ≡ first_at price ls
unfolding find_price
get_first price [] j = refl
get_first price (l ∷ ls) j = elim (Bool-cases (l.price == price)) [
  | inl y ↦ let z : j - j ≡ 0 = omega arith in rw (y, z)
  | inr n ↦
      let step : find_price price ls (suc j) - j ≡ suc (find_price price ls (suc j) - suc j) =
        omega (arith, find_price_ge price ls (suc j)) in
      rw (n, step) (get_first price ls (suc j))
]

pub find_price_lt :
    (price : ℕ) (ls : List Level) (j : ℕ) {l0 : Level}
    → first_at price ls ≡ some l0
    → find_price price ls j < j + length ls
unfolding find_price
find_price_lt price [] j f = cc
find_price_lt price (l ∷ ls) j f = elim (Bool-cases (l.price == price)) [
  | inl y ↦ rw y (omega arith)
  | inr n ↦ rw n (omega (arith, find_price_lt price ls (suc j) (rw n at f)))
]
