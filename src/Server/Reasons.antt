-- ===== src/Server/Reasons.antt =====
-- include/response.h: why an order was rejected.
use tiltyard.Base.{ℕ}

abbrev pub reason_none : ℕ
reason_none = 0

abbrev pub rej_invalid_quantity : ℕ
rej_invalid_quantity = 1

abbrev pub rej_invalid_price : ℕ
rej_invalid_price = 2

abbrev pub rej_bad_qualifier : ℕ
rej_bad_qualifier = 3

abbrev pub rej_crossed_pair : ℕ
rej_crossed_pair = 4

abbrev pub rej_no_buying_power : ℕ
rej_no_buying_power = 5

abbrev pub rej_no_shares : ℕ
rej_no_shares = 6

abbrev pub rej_unknown_order : ℕ
rej_unknown_order = 7

abbrev pub rej_not_your_order : ℕ
rej_not_your_order = 8

abbrev pub rej_order_already_done : ℕ
rej_order_already_done = 9

abbrev pub cxl_ioc_unfilled : ℕ
cxl_ioc_unfilled = 10

abbrev pub cxl_fok_killed : ℕ
cxl_fok_killed = 11

abbrev pub cxl_session_close : ℕ
cxl_session_close = 12

abbrev pub rej_market_closed : ℕ
rej_market_closed = 13

abbrev pub rej_no_ws_access : ℕ
rej_no_ws_access = 14

abbrev pub rej_offset_only : ℕ
rej_offset_only = 15
