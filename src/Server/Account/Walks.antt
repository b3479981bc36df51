-- ===== src/Server/Account/Walks.antt =====
-- src/server.c, `leg_walk`, next to `ob_affected_range` of src/ob.c: the two walks, level by level.
use tiltyard.Base.{
  ℕ, zero, suc, ◌+◌, ◌-◌, ◌≤◌, ◌<◌, ◌≡◌, refl, sym, ap, ◌∙◌, Bool, true, false, ◌&&◌, not, List,
  ◌++◌, none, get_or, max_u32, sub16, ltb, leb, ◌==◌, if◌then◌else◌, arith, Bool-cases, inl, inr,
}
use tiltyard.Order.{Order, Fill}
use tiltyard.Book.Types.{Level, Book}
use tiltyard.Book.Range.{
  Op, Crossed, no_level, worse, deeper, is_buy, is_market, is_gtc, effective_quantity, level_fills,
  cross,
}
use tiltyard.Server.Account.{Walk, take_level, leg_levels}

-- What is left of an order when the levels before its last one are eaten: nothing, where the last one
-- is eaten in part.
abbrev pub left_over : Op → ℕ → ℕ
left_over Op.fill_some remaining = 0
left_over _ remaining = remaining

-- Once nothing is left, the walk takes nothing more.
pub spent :
    (n : ℕ) (buy market : Bool) (price : ℕ) (levels : List Level) (run : ℕ) (w : Walk)
    → w.q_remain ≡ 0
    → (leg_levels n buy market price levels run w).q_remain ≡ 0
unfolding leg_levels take_level
spent zero buy market price levels run w e = e
spent (suc n) buy market price levels run w e =
    elim (Bool-cases (
      not market
      && ltb 0 w.q_remain
      && (if buy
          then ltb price (get_or levels run no_level).price
          else ltb (get_or levels run no_level).price price))) [
            | inl y ↦ rw (leg_levels, y) e
            | inr n' ↦
                rw (leg_levels, n')
                  (spent n buy market price levels _ (take_level buy (get_or levels run no_level) w)
                    (ground (arith, e)))
          ]

leftover_keeps :
    (gtc : Bool) (q : ℕ) → left_over (if gtc then Op.rest_remainder else Op.exact) q ≡ q
leftover_keeps true q = refl
leftover_keeps false q = refl

-- How far a walk still has to go: up to the last level, or down to the first.
abbrev pub Ahead : Bool → Book → ℕ → ℕ → Type 0
Ahead true book run n = (run + n ≡ book.level_count) × (book.level_count < 65536)
Ahead false book run n = (n ≡ run + 1) × (run < 65535)

at_top :
    (buy : Bool) (book : Book) (run n : ℕ)
    → Ahead buy book run (suc n)
    → (run == (if buy then sub16 book.level_count 1 else 0)) ≡ (n == 0)
at_top true book run n a = ground arith
at_top false book run n a = ground arith

next_level :
    (buy : Bool) (book : Book) (run n : ℕ)
    → Ahead buy book run (suc (suc n))
    → deeper buy run ≡ (if buy then run + 1 else run - 1)
next_level true book run n a = omega arith
next_level false book run n a = omega arith

next-Ahead :
    (buy : Bool) (book : Book) (run n : ℕ)
    → Ahead buy book run (suc (suc n))
    → Ahead buy book (if buy then run + 1 else run - 1) (suc n)
next-Ahead true book run n a = omega arith
next-Ahead false book run n a = omega arith

whole : (l : Level) → effective_quantity l none none ≡ l.quantity
unfolding effective_quantity
whole l = refl

taken :
    (buy : Bool) (l : Level) (w : Walk)
    → (take_level buy l w).q_remain
      ≡ (if ltb w.q_remain l.quantity then 0 else w.q_remain - l.quantity)
unfolding take_level
taken buy l w = ground arith

pub stopped :
    (n : ℕ) (book : Book) (rep : Order) (run : ℕ) (w : Walk)
    → (not (is_market rep)
        && ltb 0 w.q_remain
        && worse (is_buy rep) rep.price (get_or book.levels run no_level).price)
      ≡ true
    → (leg_levels (suc n) (is_buy rep) (is_market rep) rep.price book.levels run w).q_remain
      ≡ w.q_remain
unfolding leg_levels
stopped n book rep run w y = rw (leg_levels, y) refl

module _ (fuel : ℕ) (book : Book) (rep : Order) (run above : ℕ) (fills : List Fill) where
  abbrev level : Level
  level = get_or book.levels run no_level

  -- The limit stops an order with `q` shares left before this level.
  abbrev stops : ℕ → Bool
  stops q = not (is_market rep) && ltb 0 q && worse (is_buy rep) rep.price level.price

  abbrev next : ℕ
  next = if is_buy rep then run + 1 else run - 1

  abbrev left_of : Crossed → ℕ
  left_of c = left_over c.op_type c.remaining

  abbrev crossed : ℕ → Crossed
  crossed q = cross (suc fuel) book rep none none none max_u32 run q above fills

  leg_on :
      (n : ℕ) (w : Walk)
      → stops w.q_remain ≡ false
      → (leg_levels (suc n) (is_buy rep) (is_market rep) rep.price book.levels run w).q_remain
        ≡ (leg_levels n
            (is_buy rep)
            (is_market rep)
            rep.price
            book.levels
            next
            (take_level (is_buy rep) level w)).q_remain
  unfolding leg_levels
  leg_on n w go = rw (leg_levels, go) refl

  cross_stops : (q : ℕ) → stops q ≡ true → left_of (crossed q) ≡ q
  unfolding cross
  cross_stops q y = rw (cross, y) (leftover_keeps (is_gtc rep) q)

  cross_within : (q : ℕ) → stops q ≡ false → q ≤ level.quantity → left_of (crossed q) ≡ 0
  unfolding cross
  cross_within q go h = elim (Bool-cases (ltb q level.quantity)) [
    | inl part ↦ rw (cross, go, whole level, part) refl
    | inr left ↦
        let all : (level.quantity == q) ≡ true = ground arith in
        rw (cross, go, whole level, left, all) refl
  ]

  cross_on :
      (n q : ℕ)
      → Ahead (is_buy rep) book run (suc n)
      → stops q ≡ false
      → level.quantity < q
      → (above' : ℕ) × (fills' : List Fill) × (left_of (crossed q) ≡ (
          if n == 0
          then q - level.quantity
          else left_of (
              cross fuel book rep none none none max_u32
                (deeper (is_buy rep) run)
                (q - level.quantity)
                above'
                fills')))
  unfolding cross
  cross_on n q a go h =
      let left : ltb q level.quantity ≡ false = ground arith in
      let more : (level.quantity == q) ≡ false = ground arith in
      (
        if leb q (effective_quantity level none none) then run else above,
        fills ++ level_fills level.entries none max_u32,
        elim (Bool-cases (n == 0)) [
          | inl last ↦
              rw (cross, go, whole level, left, more, at_top (is_buy rep) book run n a, last)
                (leftover_keeps (is_gtc rep) (q - level.quantity))
          | inr further ↦
              rw (cross, go, whole level, left, more, at_top (is_buy rep) book run n a, further)
                refl
        ],
      )

-- One level, given that the walks agree from the next one on.
agree_from :
    (n fuel : ℕ) (book : Book) (rep : Order) (run above : ℕ) (fills : List Fill) (w : Walk)
    → Ahead (is_buy rep) book run (suc n)
    → let l = get_or book.levels run no_level in
      ((above' : ℕ) (fills' : List Fill)
        → (take_level (is_buy rep) l w).q_remain ≡ w.q_remain - l.quantity
        → let c =
            cross fuel book rep none none none max_u32
              (deeper (is_buy rep) run)
              (w.q_remain - l.quantity)
              above'
              fills' in
          (leg_levels n
            (is_buy rep)
            (is_market rep)
            rep.price
            book.levels
            (if is_buy rep then run + 1 else run - 1)
            (take_level (is_buy rep) l w)).q_remain
          ≡ (if n == 0 then w.q_remain - l.quantity else left_over c.op_type c.remaining))
      → let c = cross (suc fuel) book rep none none none max_u32 run w.q_remain above fills in
        (leg_levels (suc n) (is_buy rep) (is_market rep) rep.price book.levels run w).q_remain
        ≡ left_over c.op_type c.remaining
agree_from n fuel book rep run above fills w a onwards =
    let l = get_or book.levels run no_level in
    let q = taken (is_buy rep) l w in
    let next = if is_buy rep then run + 1 else run - 1 in
    let w' = take_level (is_buy rep) l w in
    elim (Bool-cases
      (not (is_market rep) && ltb 0 w.q_remain && worse (is_buy rep) rep.price l.price)) [
        | inl y ↦
            stopped n book rep run w y
            ∙ sym (cross_stops fuel book rep run above fills w.q_remain y)
        | inr go ↦
            leg_on fuel book rep run above fills n w go
            ∙ elim (Bool-cases (leb w.q_remain l.quantity)) [
              | inl part ↦
                  spent n (is_buy rep) (is_market rep) rep.price book.levels next w'
                    (ground (arith, q))
                  ∙ sym (cross_within fuel book rep run above fills w.q_remain go (ground arith))
              | inr left ↦
                  let on =
                    cross_on fuel book rep run above fills n w.q_remain a go (ground arith) in
                  onwards on.0 on.1 (ground (arith, q)) ∙ sym on.2
            ]
      ]

-- The walk of a price check next to the walk of a book, from the level `run` on.
pub walks_agree :
    (n fuel : ℕ) (book : Book) (rep : Order) (run above : ℕ) (fills : List Fill) (w : Walk)
    → n < fuel
    → Ahead (is_buy rep) book run (suc n)
    → let c = cross fuel book rep none none none max_u32 run w.q_remain above fills in
      (leg_levels (suc n) (is_buy rep) (is_market rep) rep.price book.levels run w).q_remain
      ≡ left_over c.op_type c.remaining
unfolding leg_levels
walks_agree n zero book rep run above fills w enough a = absurd (omega arith)
walks_agree zero (suc fuel) book rep run above fills w enough a =
    agree_from zero fuel book rep run above fills w a (λ above' fills' e. e)
walks_agree (suc n) (suc fuel) book rep run above fills w enough a =
    agree_from (suc n) fuel book rep run above fills w a (λ above' fills' e.
      let next = if is_buy rep then run + 1 else run - 1 in
      let w' = take_level (is_buy rep) (get_or book.levels run no_level) w in
      let further : (suc n == 0) ≡ false = ground arith in
      let on =
        walks_agree n fuel book rep next above' fills' w' (omega arith)
          (next-Ahead (is_buy rep) book run n a) in
      rw (further, next_level (is_buy rep) book run n a)
        (on
          ∙ ap
              (λ (q : ℕ).
                let c = cross fuel book rep none none none max_u32 next q above' fills' in
                left_over c.op_type c.remaining)
              e))
