-- ===== src/Calendar.antt =====
-- `delay_to_next_month` of src/utils.c, with `MONTH_DAYS` of include/constants.h.
use tiltyard.Base.{
  ℕ, ◌+◌, ◌-◌, ◌*◌, ◌/◌, ◌%◌, ◌≤◌, ◌<◌, ◌≡◌, Bool, true, false, List, [], ◌∷◌, leb, ◌==◌,
  if◌then◌else◌, u64, arith, ap, ◌∙◌,
}
use tiltyard.Event.{day_to_ns}

abbrev pub month_days : List ℕ
month_days = 31 ∷ 28 ∷ 31 ∷ 30 ∷ 31 ∷ 30 ∷ 31 ∷ 31 ∷ 30 ∷ 31 ∷ 30 ∷ 31 ∷ []

-- The loop: the day within its month, and that month's days. Past December it would read beyond the
-- array, where this stops.
unfoldable pub peel : List ℕ → ℕ → ℕ × ℕ
peel [] day = (day, 0)
peel (days ∷ rest) day = elim (leb days day) [ true ↦ peel rest (day - days) | false ↦ (day, days) ]

-- `delay_to_next_month`
unfoldable pub delay_to_next_month : ℕ → ℕ
unfolding peel
delay_to_next_month now_ns =
    let day_index = now_ns / day_to_ns in
    let month = peel month_days (day_index % 365) in
    let next_month_start = day_index - month.0 + month.1 in
    u64 (u64 (next_month_start * day_to_ns) + 18446744073709551616 - now_ns)

-- The first days of the twelve months, counted from the start of the year.
unfoldable pub starts_month : ℕ → List ℕ → ℕ → Bool
starts_month start [] day = false
starts_month start (days ∷ rest) day =
    if start == day then true else starts_month (start + days) rest day

unfoldable pub is_month_start : ℕ → Bool
unfolding starts_month
is_month_start day_index = starts_month 0 month_days (day_index % 365)

-- The month found is the one that the day lies in.
peel_lem :
    (day k : ℕ)
    → day < 365
    → let month = peel month_days day in
      (month.0 ≤ day)
      × (month.0 < month.1)
      × (month.1 ≤ 31)
      × (day - month.0 + month.1 ≤ 365)
      × (starts_month 0 month_days ((day - month.0 + month.1) % 365) ≡ true)
      × (0 < k → k < month.1 - month.0 → starts_month 0 month_days (day + k) ≡ false)
unfolding peel starts_month
peel_lem day k h = ground arith

-- The first day after the month of day `d`.
abbrev pub next_first : ℕ → ℕ
next_first d = let month = peel month_days (d % 365) in d - month.0 + month.1

next_first_lem :
    (d : ℕ)
    → (d < next_first d)
      × (next_first d ≤ d + 31)
      × (is_month_start (next_first d) ≡ true)
      × ((day : ℕ) → d < day → day < next_first d → is_month_start day ≡ false)
unfolding is_month_start
next_first_lem d =
    let month = peel month_days (d % 365) in
    let p = λ (k : ℕ). peel_lem (d % 365) k (omega arith) in
    let wrapped : next_first d % 365 ≡ (d % 365 - month.0 + month.1) % 365 =
      omega (arith, (p 0).0, (p 0).1, (p 0).2) in
    (
      omega (arith, (p 0).0, (p 0).1),
      omega (arith, (p 0).0, (p 0).2),
      ap (starts_month 0 month_days) wrapped ∙ (p 0).4,
      λ day a b.
          let within : day % 365 ≡ d % 365 + (day - d) = omega (arith, (p 0).0, (p 0).3) in
          ap (starts_month 0 month_days) within
          ∙ (p (day - d)).5 (omega arith) (omega (arith, (p 0).0)),
    )

delay-sum :
    (now_ns : ℕ)
    → now_ns < 18443979273709551616
    → now_ns + delay_to_next_month now_ns ≡ next_first (now_ns / day_to_ns) * day_to_ns
unfolding delay_to_next_month
delay-sum now_ns h =
    let (later, soon, _, _) = next_first_lem (now_ns / day_to_ns) in omega (arith, later, soon)

-- `delay_to_next_month`, while the clock has 32 days left: the delay is positive and at most 31 days,
-- it ends at midnight of the first day of a month, and no month starts on a day in between.
pub delay_to_next_month_lem :
    (now_ns : ℕ)
    → now_ns < 18443979273709551616
    → let next = now_ns + delay_to_next_month now_ns in
      (now_ns < next)
      × (next ≤ now_ns + 31 * day_to_ns)
      × (next % day_to_ns ≡ 0)
      × (is_month_start (next / day_to_ns) ≡ true)
      × ((day : ℕ) → now_ns / day_to_ns < day → day < next / day_to_ns → is_month_start day ≡ false)
delay_to_next_month_lem now_ns h =
    let d = now_ns / day_to_ns in
    let (later, soon, first, none_between) = next_first_lem d in
    let sum : now_ns + delay_to_next_month now_ns ≡ next_first d * day_to_ns = delay-sum now_ns h in
    let day : next_first d * day_to_ns / day_to_ns ≡ next_first d = omega arith in
    rw (sum, day) (omega arith, omega arith, omega arith, first, none_between)
