-- ===== src/Server/Checks.antt =====
-- src/server.c, the prechecks: 0 if an order can be worked, otherwise the reason why it cannot. An
-- order id that leads to a cell nothing was written to reads a stale order.
use tiltyard.Base.{
  ℕ, ◌+◌, ◌-◌, ◌*◌, Bool, true, false, ◌&&◌, ◌||◌, not, List, [], ◌∷◌, take, u32, u64, bit, ltb,
  leb, ◌==◌, if◌then◌else◌, pos, ◌+ℤ◌, ◌-ℤ◌, ltb_ℤ,
}
use tiltyard.Order.{
  Order, wake_bit, iceberg_bit, stop_limit_bit, fok_bit, can_rep_bit, cancel_bit, has_stop_bit,
  oco_bit, reject_bit,
}
use tiltyard.Book.Types.{Entry, Level, Book}
use tiltyard.Book.Range.{is_buy, is_market, is_gtc}
use tiltyard.Server.State.{ClientSettings, LegCost}
use tiltyard.Server.Account.{client_bp, client_close_q, leg_walk}
use tiltyard.Server.Reasons

-- The search for the order in its level: the first level with its price is the only one.
unfoldable pub has_entry : List Entry → ℕ → Bool
has_entry [] order_id = false
has_entry (e ∷ es) order_id = if e.order_id == order_id then true else has_entry es order_id

unfoldable pub in_book : List Level → ℕ → ℕ → Bool
unfolding has_entry
in_book [] price order_id = false
in_book (l ∷ ls) price order_id =
    let rest = in_book ls price order_id in
    if l.price == price then has_entry l.entries order_id else rest

-- `cancel_precheck`. `orders` is the order store, read by `fl_get`.
unfoldable pub cancel_precheck : Order → (ℕ → Order) → Book → ℕ
unfolding in_book
cancel_precheck in_ orders mbo =
    let to_cancel = orders in_.other_id in
    let is_rejected = bit to_cancel.status reject_bit in
    if not (to_cancel.client_id == in_.client_id)
    then Reasons.rej_not_your_order
    else if bit to_cancel.status wake_bit && not is_rejected
    then Reasons.reason_none
    else if to_cancel.quantity == 0 || is_rejected
    then Reasons.rej_order_already_done
    else if bit to_cancel.status has_stop_bit
    then Reasons.reason_none
    else if in_book (take mbo.level_count mbo.levels) to_cancel.price in_.other_id
    then Reasons.reason_none
    else Reasons.rej_unknown_order

-- Whether the leg can be paid for, once it is known what it costs.
unfoldable pub fund : ClientSettings → Bool → LegCost → ℕ → ℕ → ℕ → ℕ
unfolding client_bp
fund cs buy lc mark reclaimed_cash reclaimed_shares =
    if not cs.is_cash_account
    then (if ltb (client_bp cs mark reclaimed_cash reclaimed_shares) lc.open_notional
        then (if buy then Reasons.rej_no_buying_power else Reasons.rej_no_shares)
        else Reasons.reason_none)
    else if buy
    then (if ltb_ℤ (cs.cash -ℤ pos cs.reserved_cash +ℤ pos reclaimed_cash) (pos lc.cost)
        then Reasons.rej_no_buying_power
        else Reasons.reason_none)
    else if ltb_ℤ (cs.shares -ℤ pos cs.reserved_shares +ℤ pos reclaimed_shares) (pos lc.cost)
    then Reasons.rej_no_shares
    else Reasons.reason_none

-- The shape of an order that is added, apart from its cost.
unfoldable pub add_shape : Order → ℕ
add_shape in_ =
    let is_iceberg = bit in_.status iceberg_bit in
    if in_.quantity == 0
    then Reasons.rej_invalid_quantity
    else if not (is_market in_) && in_.price == 0
    then Reasons.rej_invalid_price
    else if is_market in_ && is_gtc in_
    then Reasons.rej_bad_qualifier
    else if is_iceberg && (is_market in_ || not (is_gtc in_))
    then Reasons.rej_bad_qualifier
    else if is_iceberg && ltb in_.second_quantity in_.quantity
    then Reasons.rej_invalid_quantity
    else Reasons.reason_none

-- The cost that `add_precheck` looks at.
unfoldable pub add_cost : Order → ClientSettings → Book → LegCost
unfolding leg_walk client_close_q
add_cost in_ cs mbo =
    let order_q = if bit in_.status iceberg_bit then in_.second_quantity else in_.quantity in
    leg_walk (is_buy in_) (is_market in_) (is_gtc in_) in_.price order_q mbo
      (client_close_q cs (is_buy in_))

-- `add_precheck`: the reason, and what `*fillable` gets; it stays 0 where the walk is not reached.
unfoldable pub add_precheck : Order → ClientSettings → Book → ℕ → ℕ → ℕ → ℕ × ℕ
unfolding add_shape add_cost fund
add_precheck in_ cs mbo mark reclaimed_cash reclaimed_shares =
    let mark' = if mark == 0 then in_.price else mark in
    let order_q = if bit in_.status iceberg_bit then in_.second_quantity else in_.quantity in
    let lc = add_cost in_ cs mbo in
    if not (add_shape in_ == 0) then (add_shape in_, 0) else (
      (if not (lc.q_remain == 0) && bit in_.status fok_bit
          then Reasons.cxl_fok_killed
          else fund cs (is_buy in_) lc mark' reclaimed_cash reclaimed_shares),
      order_q - lc.q_remain,
    )

-- `stop_precheck`
unfoldable pub stop_precheck : Order → ℕ
stop_precheck in_ =
    if in_.second_quantity == 0
    then Reasons.rej_invalid_quantity
    else if in_.stop_price == 0
    then Reasons.rej_invalid_price
    else if bit in_.status stop_limit_bit && in_.second_price == 0
    then Reasons.rej_invalid_price
    else if bit in_.status iceberg_bit
    then Reasons.rej_bad_qualifier
    else if bit in_.status oco_bit && ltb 0 in_.quantity && is_market in_
    then Reasons.rej_bad_qualifier
    else Reasons.reason_none

-- What an order that is pulled gives back to its side's pool.
abbrev pub freed_cash : Order → ℕ
freed_cash o = if is_buy o then u32 (o.quantity * o.price) else 0

abbrev pub freed_shares : Order → ℕ
freed_shares o = if is_buy o then 0 else o.quantity

-- `canrep_precheck`
unfoldable pub canrep_precheck : Order → ClientSettings → (ℕ → Order) → Book → ℕ → ℕ
unfolding cancel_precheck stop_precheck add_precheck
canrep_precheck in_ cs orders mbo mark =
    let cancel_reason = cancel_precheck in_ orders mbo in
    let cancel = orders in_.other_id in
    let armed = bit cancel.status has_stop_bit in
    let add =
      (add_precheck in_ cs mbo mark (if armed then 0 else freed_cash cancel)
        (if armed then 0 else freed_shares cancel)).0 in
    if not (cancel_reason == 0)
    then cancel_reason
    else if bit in_.status has_stop_bit
    then (if not (stop_precheck in_ == 0)
        then stop_precheck in_
        else if in_.quantity == 0
        then Reasons.reason_none
        else add)
    else add

-- The two legs of a pair against each other, once their cancels are known to be good.
unfoldable pub pair_shape : Order → ℕ
pair_shape in_ =
    if in_.quantity == 0 || in_.second_quantity == 0
    then Reasons.rej_invalid_quantity
    else if in_.price == 0 || in_.second_price == 0
    then Reasons.rej_invalid_price
    else if leb in_.second_price in_.price
    then Reasons.rej_crossed_pair
    else Reasons.reason_none

-- The cancels of a pair.
unfoldable pub pair_cancels : Order → Order → (ℕ → Order) → Book → ℕ
unfolding cancel_precheck
pair_cancels in_ ask_in orders mbo =
    let is_cancel = bit in_.status cancel_bit in
    let bid_pulls = bit in_.status can_rep_bit || is_cancel in
    let ask_pulls = bit ask_in.status can_rep_bit || is_cancel in
    let bid_reason = if bid_pulls then cancel_precheck in_ orders mbo else 0 in
    let ask_reason = if ask_pulls then cancel_precheck ask_in orders mbo else 0 in
    if not (bid_reason == 0)
    then bid_reason
    else if not (ask_reason == 0)
    then ask_reason
    else if bid_pulls && ask_pulls && in_.other_id == ask_in.other_id
    then Reasons.rej_bad_qualifier
    else if bid_pulls && bit (orders in_.other_id).status has_stop_bit
    then Reasons.rej_bad_qualifier
    else if ask_pulls && bit (orders ask_in.other_id).status has_stop_bit
    then Reasons.rej_bad_qualifier
    else Reasons.reason_none

-- The funds of a pair.
unfoldable pub pair_funds : Order → Order → ClientSettings → (ℕ → Order) → Book → ℕ → ℕ
unfolding leg_walk client_close_q client_bp
pair_funds in_ ask_in cs orders mbo mark =
    let oc = orders in_.other_id in
    let ask_oc = orders ask_in.other_id in
    let bid_replaces = bit in_.status can_rep_bit in
    let ask_replaces = bit ask_in.status can_rep_bit in
    let cash = u32 (
      (if bid_replaces then freed_cash oc else 0)
      + (if ask_replaces then freed_cash ask_oc else 0)) in
    let shares =
      (if bid_replaces then freed_shares oc else 0)
      + (if ask_replaces then freed_shares ask_oc else 0) in
    let bid_leg = leg_walk true false true in_.price in_.quantity mbo (client_close_q cs true) in
    let ask_leg =
      leg_walk false false true in_.second_price in_.second_quantity mbo
        (client_close_q cs false) in
    if not cs.is_cash_account
    then (if ltb (client_bp cs mark cash shares)
          (u64 (bid_leg.open_notional + ask_leg.open_notional))
        then Reasons.rej_no_buying_power
        else Reasons.reason_none)
    else if ltb_ℤ (cs.cash -ℤ pos cs.reserved_cash +ℤ pos cash) (pos bid_leg.cost)
    then Reasons.rej_no_buying_power
    else if ltb_ℤ (cs.shares -ℤ pos cs.reserved_shares +ℤ pos shares) (pos ask_leg.cost)
    then Reasons.rej_no_shares
    else Reasons.reason_none

-- `pair_precheck`
unfoldable pub pair_precheck : Order → Order → ClientSettings → (ℕ → Order) → Book → ℕ → ℕ
unfolding pair_cancels pair_shape pair_funds
pair_precheck in_ ask_in cs orders mbo mark =
    let mark' = if mark == 0 then in_.price else mark in
    let cancels = pair_cancels in_ ask_in orders mbo in
    if is_market in_ || not (is_gtc in_) || bit in_.status has_stop_bit
    then Reasons.rej_bad_qualifier
    else if not (cancels == 0)
    then cancels
    else if bit in_.status cancel_bit
    then Reasons.reason_none
    else if not (pair_shape in_ == 0)
    then pair_shape in_
    else pair_funds in_ ask_in cs orders mbo mark'
