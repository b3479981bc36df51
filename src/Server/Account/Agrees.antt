-- ===== src/Server/Account/Agrees.antt =====
-- src/server.c, `leg_walk` and `add_precheck`, next to `ob_affected_range` of src/ob.c: what is left of
-- an order.
use tiltyard.Base.{
  ℕ, zero, suc, ◌+◌, ◌-◌, ◌<◌, ◌≡◌, ◌⊎◌, refl, sym, ap, ◌∙◌, Bool, true, false, ◌&&◌, ◌||◌, not,
  List, none, length, get_or, max_u16, max_u32, u16, sub16, bit, ltb, ◌==◌, if◌then◌else◌, arith,
  Bool-cases, inl, inr,
}
use tiltyard.Order.{Order, Fill}
use tiltyard.Book.Types.{Level, Book}
use tiltyard.Book.Shape.{IsBook}
use tiltyard.Book.Range.{
  Side, no_level, worse, back, is_buy, is_market, is_gtc, cross, place, rest_place, incoming_range,
  affected_range, side_init, side_range,
}
use tiltyard.Server.Account.{Walk, leg_levels, rest_leg, walk_side, leg_walk}
use tiltyard.Server.Account.Walks.{left_over, Ahead, spent, stopped, walks_agree}
use tiltyard.Server.State.{ClientSettings}
use tiltyard.Server.Checks.{add_shape, add_cost, fund, add_precheck}
use tiltyard.Server.Account.{client_close_q}
use tiltyard.Order.{fok_bit, iceberg_bit, can_rep_bit, cancel_bit}

place_keeps :
    (fuel : ℕ) (levels : List Level) (buy : Bool) (price bottom at q : ℕ)
    → left_over (place fuel levels buy price bottom at).op_type q ≡ q
unfolding place
place_keeps zero levels buy price bottom at q = refl
place_keeps (suc fuel) levels buy price bottom at q =
    let next = back buy at in
    let level_price = (get_or levels next no_level).price in
    elim (Bool-cases (at == bottom)) [
      | inl y ↦ rw (place, y) refl
      | inr n ↦ elim (Bool-cases (price == level_price)) [
        | inl y ↦ rw (place, n, y) refl
        | inr m ↦ elim (Bool-cases (worse buy level_price price)) [
          | inl y ↦ rw (place, n, m, y) refl
          | inr k ↦ rw (place, n, m, k) (place_keeps fuel levels buy price bottom next q)
        ]
      ]
    ]

rest_keeps :
    (book : Book) (buy : Bool) (price q : ℕ) → left_over (rest_place book buy price).op_type q ≡ q
unfolding rest_place
rest_keeps book buy price q =
    let hi = book.hi_bid_index in
    elim (Bool-cases
      (buy && not (hi == max_u16) && ltb (get_or book.levels hi no_level).price price)) [
        | inl y ↦ rw (rest_place, y) refl
        | inr n ↦
            rw (rest_place, n) (place_keeps (length book.levels + 1) book.levels buy price _ _ q)
      ]

-- The first level of the opponents, whether there is one, and how many there are.
abbrev first_at : Bool → Book → ℕ
first_at buy book = if buy then u16 (book.hi_bid_index + 1) else book.hi_bid_index

abbrev opponents : Book → Bool → Bool
opponents book buy =
    if buy then ltb (first_at buy book) book.level_count else not (book.hi_bid_index == max_u16)

abbrev side_size : Bool → Book → ℕ
side_size true book = book.level_count - u16 (book.hi_bid_index + 1)
side_size false book = u16 (book.hi_bid_index + 1)

walk_side_lem :
    (buy market : Bool) (price : ℕ) (book : Book) (w : Walk)
    → IsBook book
    → walk_side buy market price book w
      ≡ leg_levels (side_size buy book) buy market price book.levels (first_at buy book) w
unfolding walk_side leg_levels
walk_side_lem true market price book w v = elim (Bool-cases (book.hi_bid_index == max_u16)) [
  | inl y ↦ let e : book.hi_bid_index ≡ 65535 = ground arith in rw (walk_side, e) refl
  | inr n ↦
      let e : u16 (book.hi_bid_index + 1) ≡ book.hi_bid_index + 1 = ground (arith, v.word) in
      rw (walk_side, n, e) refl
]
walk_side_lem false market price book w v = elim (Bool-cases (book.hi_bid_index == max_u16)) [
  | inl y ↦ let e : book.hi_bid_index ≡ 65535 = ground arith in rw (walk_side, e) refl
  | inr n ↦
      let e : u16 (book.hi_bid_index + 1) ≡ book.hi_bid_index + 1 = ground (arith, v.word) in
      rw (walk_side, n, e) refl
]

side-Ahead :
    (buy : Bool) (book : Book) (n : ℕ)
    → IsBook book
    → side_size buy book ≡ suc n
    → Ahead buy book (first_at buy book) (suc n)
side-Ahead true book n v e = omega (arith, v.counted, v.few, v.boundary, v.word)
side-Ahead false book n v e = omega (arith, v.counted, v.few, v.boundary, v.word)

opponents_lem :
    (buy : Bool) (book : Book) → IsBook book → opponents book buy ≡ not (side_size buy book == 0)
opponents_lem true book v = ground (arith, v.counted, v.few, v.boundary, v.word)
opponents_lem false book v = ground (arith, v.counted, v.few, v.boundary, v.word)

-- An order without an opponent, or one that reaches none, keeps its shares.
range_keeps :
    (book : Book) (rep : Order) (fills : List Fill)
    → (opponents book (is_buy rep)
        && (is_market rep
            || not (
                worse
                  (is_buy rep)
                  rep.price
                  (get_or book.levels (first_at (is_buy rep) book) no_level).price)))
      ≡ false
    → let t = incoming_range book rep none none none max_u32 fills in
      left_over t.op_type t.remaining ≡ rep.quantity
unfolding incoming_range
range_keeps book rep fills e = elim (Bool-cases (is_market rep || not (is_gtc rep))) [
  | inl y ↦ rw (incoming_range, e, y) refl
  | inr n ↦ rw (incoming_range, e, n) (rest_keeps book (is_buy rep) rep.price rep.quantity)
]

range_crosses :
    (book : Book) (rep : Order) (fills : List Fill)
    → (opponents book (is_buy rep)
        && (is_market rep
            || not (
                worse
                  (is_buy rep)
                  rep.price
                  (get_or book.levels (first_at (is_buy rep) book) no_level).price)))
      ≡ true
    → let t = incoming_range book rep none none none max_u32 fills in
      let top = if is_buy rep then sub16 book.level_count 1 else 0 in
      let c =
        cross
          (length book.levels + 1)
          book
          rep
          none
          none
          none
          max_u32
          (first_at (is_buy rep) book)
          rep.quantity
          top
          fills in
      left_over t.op_type t.remaining ≡ left_over c.op_type c.remaining
unfolding incoming_range
range_crosses book rep fills e = rw (incoming_range, e) refl

rest_leg_keeps :
    (buy gtc : Bool) (price : ℕ) (w : Walk) → (rest_leg buy gtc price w).q_remain ≡ w.q_remain
unfolding rest_leg
rest_leg_keeps buy true price w = refl
rest_leg_keeps buy false price w = refl

-- A walk that cannot start.
no_start :
    (n : ℕ) (book : Book) (rep : Order) (run : ℕ) (w : Walk)
    → (is_market rep || not (worse (is_buy rep) rep.price (get_or book.levels run no_level).price))
      ≡ false
    → (leg_levels n (is_buy rep) (is_market rep) rep.price book.levels run w).q_remain ≡ w.q_remain
unfolding leg_levels
no_start zero book rep run w e = refl
no_start (suc n) book rep run w e = elim (Bool-cases (ltb 0 w.q_remain)) [
  | inl y ↦ stopped n book rep run w (ground (arith, y, e))
  | inr z ↦
      let q : w.q_remain ≡ 0 = ground arith in
      spent (suc n) (is_buy rep) (is_market rep) rep.price book.levels run w q ∙ sym q
]

-- What `leg_walk` leaves of an order that replaces nothing is what `ob_affected_range` leaves of it on
-- the same sound book, whatever its kind, its side and its price.
pub leg_walk_lem :
    (book : Book) (rep : Order) (close_q : ℕ) (fills : List Fill)
    → IsBook book
    → let t = incoming_range book rep none none none max_u32 fills in
      (leg_walk
        (is_buy rep)
        (is_market rep)
        (is_gtc rep)
        rep.price
        rep.quantity
        book
        close_q).q_remain
      ≡ left_over t.op_type t.remaining
unfolding leg_walk leg_levels
leg_walk_lem book rep close_q fills v =
    let buy = is_buy rep in
    let w : Walk = record {
      cost = 0;
      open_notional = 0;
      q_remain = rep.quantity;
      close_q = close_q;
    } in
    let top = if buy then sub16 book.level_count 1 else 0 in
    rest_leg_keeps buy (is_gtc rep) rep.price (walk_side buy (is_market rep) rep.price book w)
    ∙ ap (λ (x : Walk). x.q_remain) (walk_side_lem buy (is_market rep) rep.price book w v)
    ∙ by_size (side_size buy book) refl
  where
    w : Walk
    w = record { cost = 0; open_notional = 0; q_remain = rep.quantity; close_q = close_q }

    unmet :
        (n : ℕ)
        → side_size (is_buy rep) book ≡ n
        → (opponents book (is_buy rep)
            && (is_market rep
                || not (
                    worse
                      (is_buy rep)
                      rep.price
                      (get_or book.levels (first_at (is_buy rep) book) no_level).price)))
          ≡ false
        → (leg_levels n
            (is_buy rep)
            (is_market rep)
            rep.price
            book.levels
            (first_at (is_buy rep) book)
            w).q_remain
          ≡ rep.quantity
    unmet zero e h = refl
    unmet (suc n) e h =
        no_start (suc n) book rep (first_at (is_buy rep) book) w
          (ground (arith, h, e, opponents_lem (is_buy rep) book v))

    side_fits : (buy : Bool) (n : ℕ) → side_size buy book ≡ suc n → n < length book.levels + 1
    side_fits true n e = omega (arith, v.counted)
    side_fits false n e = omega (arith, v.boundary)

    met_from :
        (n : ℕ)
        → side_size (is_buy rep) book ≡ n
        → (opponents book (is_buy rep)
            && (is_market rep
                || not (
                    worse
                      (is_buy rep)
                      rep.price
                      (get_or book.levels (first_at (is_buy rep) book) no_level).price)))
          ≡ true
        → let c =
            cross
              (length book.levels + 1)
              book
              rep
              none
              none
              none
              max_u32
              (first_at (is_buy rep) book)
              rep.quantity
              (if is_buy rep then sub16 book.level_count 1 else 0)
              fills in
          (leg_levels n
            (is_buy rep)
            (is_market rep)
            rep.price
            book.levels
            (first_at (is_buy rep) book)
            w).q_remain
          ≡ left_over c.op_type c.remaining
    met_from zero e h = absurd (ground (arith, h, e, opponents_lem (is_buy rep) book v))
    met_from (suc n) e h =
        walks_agree n (length book.levels + 1) book rep (first_at (is_buy rep) book)
          (if is_buy rep then sub16 book.level_count 1 else 0) fills w (side_fits (is_buy rep) n e)
          (side-Ahead (is_buy rep) book n v e)

    by_size :
        (n : ℕ)
        → side_size (is_buy rep) book ≡ n
        → let t = incoming_range book rep none none none max_u32 fills in
          (leg_levels n
            (is_buy rep)
            (is_market rep)
            rep.price
            book.levels
            (first_at (is_buy rep) book)
            w).q_remain
          ≡ left_over t.op_type t.remaining
    by_size n e =
        elim (Bool-cases (
          opponents book (is_buy rep)
          && (is_market rep
              || not (
                  worse (is_buy rep) rep.price
                    (get_or book.levels (first_at (is_buy rep) book) no_level).price)))) [
                      | inr none_met ↦
                          unmet n e none_met ∙ sym (range_keeps book rep fills none_met)
                      | inl met ↦ met_from n e met ∙ sym (range_crosses book rep fills met)
                    ]

-- A fill-or-kill order that was accepted left nothing.
no_rest :
    (q other : ℕ) (fok : Bool)
    → (if not (q == 0) && fok then 11 else other) ≡ 0
    → fok ≡ true
    → q ≡ 0
no_rest q other fok e f = ground arith

-- The cost of an order that is no iceberg leaves what the book leaves.
cost :
    (book : Book) (in_ : Order) (cs : ClientSettings) (fills : List Fill)
    → IsBook book
    → bit in_.status iceberg_bit ≡ false
    → let t = incoming_range book in_ none none none max_u32 fills in
      (add_cost in_ cs book).q_remain ≡ left_over t.op_type t.remaining
unfolding add_cost
cost book in_ cs fills v plain =
    rw (add_cost, plain) (leg_walk_lem book in_ (client_close_q cs (is_buy in_)) fills v)

-- The same against the order alone, as the range of one that replaces nothing.
accepted :
    (book : Book) (in_ : Order) (cs : ClientSettings) (mark cash shares : ℕ) (fills : List Fill)
    → IsBook book
    → bit in_.status iceberg_bit ≡ false
    → (add_precheck in_ cs book mark cash shares).0 ≡ 0
    → let t = incoming_range book in_ none none none max_u32 fills in
      let left = left_over t.op_type t.remaining in
      ((add_precheck in_ cs book mark cash shares).1 ≡ in_.quantity - left)
      × ((bit in_.status fok_bit ≡ false) ⊎ (left ≡ 0))
unfolding add_precheck
accepted book in_ cs mark cash shares fills v plain ok =
    let e = cost book in_ cs fills v plain in
    elim (Bool-cases (add_shape in_ == 0)) [
      | inl y ↦ (
        fillable y ∙ ap (λ q. in_.quantity - q) e,
        elim (Bool-cases (bit in_.status fok_bit)) [
          | inl f ↦
              inr (sym e ∙ no_rest (add_cost in_ cs book).q_remain _ _ (sym (reason y) ∙ ok) f)
          | inr f ↦ inl f
        ],
      )
      | inr n ↦ absurd (bad_shape n)
    ]
  where
    mark' : ℕ
    mark' = if mark == 0 then in_.price else mark

    fillable :
        (add_shape in_ == 0) ≡ true
        → (add_precheck in_ cs book mark cash shares).1
          ≡ in_.quantity - (add_cost in_ cs book).q_remain
    fillable y = rw (add_precheck, y, plain) refl

    reason :
        (add_shape in_ == 0) ≡ true
        → (add_precheck in_ cs book mark cash shares).0 ≡ (
            if not ((add_cost in_ cs book).q_remain == 0) && bit in_.status fok_bit
            then 11
            else fund cs (is_buy in_) (add_cost in_ cs book) mark' cash shares)
    reason y = rw (add_precheck, y) refl

    bad_shape : (add_shape in_ == 0) ≡ false → ⊥
    bad_shape n =
        let e : (add_precheck in_ cs book mark cash shares).0 ≡ add_shape in_ =
          rw (add_precheck, n) refl in
        ground (arith, n, e, ok)

-- A side that pulls nothing has the range of its order.
affected_alone :
    (book : Book) (s : Side) (can : Order) (fills : List Fill)
    → s.is_can_rep ≡ false
    → s.is_cancel ≡ false
    → affected_range book s can none max_u32 fills
      ≡ incoming_range book s.rep none none none max_u32 fills
unfolding affected_range
affected_alone book s can fills e f = rw (affected_range, e, f, e, e) refl

-- An order that neither replaces nor cancels has the range of the order alone.
plain_range :
    (orders : ℕ → Order) (book : Book) (order_id : ℕ) (fills : List Fill)
    → bit (orders order_id).status can_rep_bit ≡ false
    → bit (orders order_id).status cancel_bit ≡ false
    → side_range orders book (side_init orders book order_id) none fills
      ≡ incoming_range book (orders order_id) none none none max_u32 fills
unfolding side_range side_init
plain_range orders book order_id fills e f =
    let s = side_init orders book order_id in affected_alone book s (orders s.cancel_id) fills e f

-- `add_precheck` of an order that is no iceberg and neither replaces nor cancels another, on a sound
-- book: if it accepts, what it gives as fillable is what the book takes of the order, by the side that
-- `ob_canrep` works out for it, and of a fill-or-kill order the book leaves nothing.
pub add_precheck_lem :
    (orders : ℕ → Order) (book : Book) (order_id : ℕ) (cs : ClientSettings) (mark cash shares : ℕ)
    (fills : List Fill)
    → IsBook book
    → bit (orders order_id).status iceberg_bit ≡ false
    → bit (orders order_id).status can_rep_bit ≡ false
    → bit (orders order_id).status cancel_bit ≡ false
    → (add_precheck (orders order_id) cs book mark cash shares).0 ≡ 0
    → let t = side_range orders book (side_init orders book order_id) none fills in
      let left = left_over t.op_type t.remaining in
      ((add_precheck (orders order_id) cs book mark cash shares).1
        ≡ (orders order_id).quantity - left)
      × ((bit (orders order_id).status fok_bit ≡ false) ⊎ (left ≡ 0))
add_precheck_lem orders book order_id cs mark cash shares fills v plain adds stays ok =
    rw (plain_range orders book order_id fills adds stays)
      (accepted book (orders order_id) cs mark cash shares fills v plain ok)
