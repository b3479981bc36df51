-- ===== src/Server/Account.antt =====
-- src/server.c, `client_bp` to `leg_walk`: what a client can buy, and what an order would cost it.
pub mod Walks
pub mod Agrees
use tiltyard.Base.{
  ℕ, zero, suc, ◌+◌, ◌-◌, ◌*◌, Bool, true, false, ◌&&◌, not, List, get_or, max_u16, u32, u64, ltb,
  ◌==◌, if◌then◌else◌, ℤ, pos, pos_part, ◌+ℤ◌, ◌-ℤ◌, ◌*ℤ◌, ltb_ℤ, u32_of,
}
use tiltyard.Book.Types.{Level, Book}
use tiltyard.Book.Range.{no_level}
use tiltyard.Server.State.{ClientSettings, LegCost}

-- `shares > 0 ? mark * shares : 0`, and the same for a short.
abbrev pub long_value : ClientSettings → ℕ → ℤ
long_value cs mark = if ltb_ℤ (pos 0) cs.shares then pos mark *ℤ cs.shares else pos 0

abbrev pub short_value : ClientSettings → ℕ → ℤ
short_value cs mark = if ltb_ℤ cs.shares (pos 0) then pos mark *ℤ (pos 0 -ℤ cs.shares) else pos 0

-- The shares that the asks would sell short.
abbrev pub naked : ClientSettings → ℕ → ℤ
naked cs reclaimed_shares =
    let longs = if ltb_ℤ (pos 0) cs.shares then cs.shares else pos 0 in
    let asks = pos cs.reserved_shares -ℤ pos reclaimed_shares in
    if ltb_ℤ longs asks then asks -ℤ longs else pos 0

-- `client_bp`
unfoldable pub client_bp : ClientSettings → ℕ → ℕ → ℕ → ℕ
client_bp cs mark reclaimed_cash reclaimed_shares =
    let m = pos cs.margin_mult in
    let bp =
      m *ℤ cs.cash
      +ℤ (m -ℤ pos 1) *ℤ long_value cs mark
      -ℤ (m +ℤ pos 1) *ℤ short_value cs mark
      -ℤ (pos cs.reserved_cash -ℤ pos reclaimed_cash)
      -ℤ pos mark *ℤ naked cs reclaimed_shares in
    pos_part bp

-- `client_maint_call`
unfoldable pub client_maint_call : ClientSettings → ℕ → Bool
client_maint_call cs mark =
    let lmv = long_value cs mark in
    let smv = short_value cs mark in
    let gmv = lmv +ℤ smv in
    if cs.is_cash_account
    then false
    else if not (ltb_ℤ gmv (pos 0)) && not (ltb_ℤ (pos 0) gmv)
    then false
    else ltb_ℤ ((cs.cash +ℤ lmv -ℤ smv) *ℤ pos 100) (gmv *ℤ pos cs.maint_pct)

-- `client_close_q`: the direction is true for a buy.
unfoldable pub client_close_q : ClientSettings → Bool → ℕ
client_close_q cs buy =
    if cs.is_cash_account
    then 0
    else if buy && ltb_ℤ cs.shares (pos 0)
    then u32_of (pos 0 -ℤ cs.shares)
    else if not buy && ltb_ℤ (pos cs.reserved_shares) cs.shares
    then u32_of (cs.shares -ℤ pos cs.reserved_shares)
    else 0

-- A `LegCost` under way, with what is left to close for free.
pub record Walk : Type 0 where
  pub cost : ℕ
  pub open_notional : ℕ
  pub q_remain : ℕ
  pub close_q : ℕ

abbrev pub least : ℕ → ℕ → ℕ
least a b = if ltb a b then a else b

-- One level of the walk.
unfoldable pub take_level : Bool → Level → Walk → Walk
take_level buy level w =
    let taken = least w.q_remain level.quantity in
    let closing = least taken w.close_q in
    record {
      cost = u32 (w.cost + (if buy then u32 (taken * level.price) else taken));
      open_notional = u64 (w.open_notional + (taken - closing) * level.price);
      q_remain = w.q_remain - taken;
      close_q = w.close_q - closing;
    }

-- The loop over `n` levels, up from `run` for a buy and down for a sell.
unfoldable pub leg_levels : ℕ → Bool → Bool → ℕ → List Level → ℕ → Walk → Walk
unfolding take_level
leg_levels zero buy is_market price levels run w = w
leg_levels (suc n) buy is_market price levels run w =
    let level = get_or levels run no_level in
    elim (not is_market
      && ltb 0 w.q_remain
      && (if buy then ltb price level.price else ltb level.price price)) [
        | true ↦ w
        | false ↦
            leg_levels n buy is_market price levels (if buy then run + 1 else run - 1)
              (take_level buy level w)
      ]

-- What is left rests at the limit.
unfoldable pub rest_leg : Bool → Bool → ℕ → Walk → LegCost
rest_leg buy is_gtc price w =
    let closing = least w.q_remain w.close_q in
    if is_gtc
    then record {
      cost = u32 (w.cost + (if buy then u32 (w.q_remain * price) else w.q_remain));
      open_notional = u64 (w.open_notional + (w.q_remain - closing) * price);
      q_remain = w.q_remain;
    }
    else record { cost = w.cost; open_notional = w.open_notional; q_remain = w.q_remain }

-- The loop of a buy up from the best ask, or that of a sell down from the best bid.
unfoldable pub walk_side : Bool → Bool → ℕ → Book → Walk → Walk
unfolding leg_levels
walk_side buy is_market price mbo w =
    let hi = mbo.hi_bid_index in
    let lo_ask_index = if hi == max_u16 then 0 else hi + 1 in
    if buy
    then leg_levels (mbo.level_count - lo_ask_index) true is_market price mbo.levels lo_ask_index w
    else if hi == max_u16
    then w
    else leg_levels (hi + 1) false is_market price mbo.levels hi w

-- `leg_walk`
unfoldable pub leg_walk : Bool → Bool → Bool → ℕ → ℕ → Book → ℕ → LegCost
unfolding walk_side rest_leg
leg_walk buy is_market is_gtc price order_q mbo close_q = rest_leg buy is_gtc price (
    walk_side buy is_market price mbo
      (record { cost = 0; open_notional = 0; q_remain = order_q; close_q = close_q }))
