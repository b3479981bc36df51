-- ===== src/Order.antt =====
-- include/order.h: the order format, its status bits, and src/include/fill.h.
use tiltyard.Base.{ℕ, ◌+◌, ◌-◌, ◌^◌, bit, if◌then◌else◌}

pub record Order : Type 0 where
  pub status : ℕ
  pub client_id : ℕ
  pub quantity : ℕ
  pub price : ℕ
  pub stop_price : ℕ
  pub other_id : ℕ
  pub second_direction : ℕ
  pub second_quantity : ℕ
  pub second_price : ℕ
  pub second_id : ℕ
  pub ns : ℕ

-- `partial` is the u8 flag: 1 where the order keeps a remainder.
pub record Fill : Type 0 where
  pub order_id : ℕ
  pub quantity_filled : ℕ
  pub partial : ℕ

abbrev pub auction_only_bit : ℕ
auction_only_bit = 22

abbrev pub auction_bit : ℕ
auction_bit = 21

abbrev pub broadcast_bit : ℕ
broadcast_bit = 20

abbrev pub wake_bit : ℕ
wake_bit = 19

abbrev pub gtd_bit : ℕ
gtd_bit = 18

abbrev pub day_bit : ℕ
day_bit = 17

abbrev pub iceberg_bit : ℕ
iceberg_bit = 16

abbrev pub control_bit : ℕ
control_bit = 15

abbrev pub stop_limit_bit : ℕ
stop_limit_bit = 14

abbrev pub fok_bit : ℕ
fok_bit = 13

abbrev pub ioc_bit : ℕ
ioc_bit = 12

abbrev pub ask_bid_pair_bit : ℕ
ask_bid_pair_bit = 11

abbrev pub can_rep_bit : ℕ
can_rep_bit = 10

abbrev pub cancel_bit : ℕ
cancel_bit = 9

abbrev pub partial_fill_bit : ℕ
partial_fill_bit = 8

abbrev pub buy_direction_bit : ℕ
buy_direction_bit = 7

abbrev pub is_market_bit : ℕ
is_market_bit = 6

abbrev pub has_stop_bit : ℕ
has_stop_bit = 5

abbrev pub oco_bit : ℕ
oco_bit = 4

abbrev pub ws_bit : ℕ
ws_bit = 3

abbrev pub ping_bit : ℕ
ping_bit = 2

abbrev pub fill_bit : ℕ
fill_bit = 1

abbrev pub reject_bit : ℕ
reject_bit = 0

-- `word |= 1 << k` and `word &= ~(1 << k)`
unfoldable pub set_bit : ℕ → ℕ → ℕ
set_bit k word = if bit word k then word else word + 2 ^ k

unfoldable pub clear_bit : ℕ → ℕ → ℕ
clear_bit k word = if bit word k then word - 2 ^ k else word

-- An order of zeros, as an initializer leaves it.
abbrev pub zero_order : Order
zero_order = record {
  status = 0;
  client_id = 0;
  quantity = 0;
  price = 0;
  stop_price = 0;
  other_id = 0;
  second_direction = 0;
  second_quantity = 0;
  second_price = 0;
  second_id = 0;
  ns = 0;
}
