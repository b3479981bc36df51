-- ===== src/Tests/Server.antt =====
-- A server with two clients over the small book: billing, the settlement of a fill, and the check of an
-- order.
use tiltyard.Base.{
  ℕ, zero, suc, some, get_or, ◌≤◌, ◌*◌, ◌+◌, ◌-◌, ◌^◌, ◌≡◌, ◌⊎◌, refl, [], ◌∷◌, none, max_u32,
  false, true, pos, negsuc, ◌+ℤ◌, ◌-ℤ◌, arith,
}
use tiltyard.Order.{Order, zero_order}
use tiltyard.Book.Range.{incoming_range, side_init, side_range, no_level}
use tiltyard.Ring
use tiltyard.MinQueue
use tiltyard.MaxQueue
use tiltyard.FreeList
use tiltyard.Blobs
use tiltyard.Scheduler
use tiltyard.Feed.{no_slot}
use tiltyard.Server.State.{ClientSettings, no_client, Iceberg, Server, order_at}
use tiltyard.Server.Account.{leg_walk}
use tiltyard.Server.Account.Walks.{left_over}
use tiltyard.Server.Account.Agrees.{leg_walk_lem, add_precheck_lem}
use tiltyard.Server.Checks.{add_precheck}
use tiltyard.Server.Billing.{monthly_fee, daily_borrow, server_eom, server_eod}
use tiltyard.Server.Billing.Conserved.{IsBilled, billing_lem}
use tiltyard.Server.Auction.Curves.{walk_curves}
use tiltyard.Server.Auction.Sums.{Source, Climbing}
use tiltyard.Server.Auction.Sources.{parked, levels_from}
use tiltyard.Server.Auction.Climb.{IsSound, IsCleared, walk_curves_lem}
use tiltyard.Server.Work.Trade.{settle_fill, taker_fee}
use tiltyard.Server.Work.Conserved.{IsSettled, settle_fill_lem}
use tiltyard.Tests.Books.{stale_entry, small_book, small_book-IsBook}

-- A client that subscribes to the whole book and has cash.
abbrev buyer : ClientSettings
buyer = record no_client { is_cash_account = true; cash = pos 10000; noii = true }

-- A client on margin that is short.
abbrev short_seller : ClientSettings
short_seller = record no_client {
  margin_mult = 2;
  cash = pos 500;
  shares = negsuc 719999;
  sub_tier = 5;
}

abbrev no_iceberg : Iceberg
no_iceberg = record { client_id = 0; remaining = 0; price = 0; chunk = 0 }

abbrev two_clients : Server
two_clients = record {
  memory = record {
    junk = λ i. i;
    stale = stale_entry;
    stale_order = zero_order;
    stale_iceberg = no_iceberg;
  };
  last_mbo = 0;
  mark = 12;
  exchange_cash = 40;
  client_settings = buyer ∷ short_seller ∷ [];
  mbo_bs = Blobs.init (λ i. i) 2;
  mbo = small_book;
  executing = false;
  is_open = true;
  sw_queue = Ring.init 4;
  hw_queue = Ring.init 4;
  orders = FreeList.init 40 100;
  fills = [];
  sch = Scheduler.init (λ i. i) 7;
  responses = FreeList.init 36 100;
  icebergs = FreeList.init 24 100;
  convert_holder = Ring.init 4;
  day_orders = Ring.init 4;
  gtd = MinQueue.init (λ i. i);
  price_pq = MinQueue.init (λ i. i);
  buy_stops = MinQueue.init (λ i. i);
  sell_stops = MaxQueue.init (λ i. i);
  wake_above = MinQueue.init (λ i. i);
  wake_below = MaxQueue.init (λ i. i);
  auctioning = false;
  auction_frozen = false;
  imbalance_buy = 0;
  imbalance_sell = 0;
  auction_bids = MinQueue.init (λ i. i);
  auction_asks = MinQueue.init (λ i. i);
  auction_market_bids = Ring.init 4;
  auction_market_asks = Ring.init 4;
  auction_arrivals = Ring.init 4;
  auction_bid_sorted = Ring.init 8;
  auction_ask_sorted = Ring.init 8;
  book_version = 0;
  mbp_derived_version = 0;
  last_mbp = 0;
  mbp_bs = Blobs.init (λ i. i) 2;
  last_mbp10 = 0;
  mbp10_bs = Blobs.init (λ i. i) 2;
  last_mbp1 = 0;
  mbp1_bs = Blobs.init (λ i. i) 2;
  feed = record {
    mbp = record { hi_bid_index = 0; level_count = 0; levels = [] };
    mbp10 = [];
    hi_bid = no_slot;
    lo_ask = no_slot;
  };
  tape = record {
    candles_sec = Ring.init 32;
    candles_min = Ring.init 32;
    candles_hr = Ring.init 32;
    candles_day = Ring.init 32;
    trades = Ring.init 24;
  };
  imbalances = Ring.init 32;
  log = Ring.init 64;
  notified = Ring.init 4;
  stream_roster = [];
  tier_offset = [];
  live_roster = Ring.init 4;
  live_offset = [];
}

-- A buy of all four shares on offer, at once or not at all.
abbrev fill_or_kill : Order
fill_or_kill = record zero_order { status = 2 ^ 13 + 2 ^ 7; quantity = 4; price = 12 }

leg_walk_example :
    let t = incoming_range small_book fill_or_kill none none none max_u32 [] in
    (leg_walk true false false 12 4 small_book 0).q_remain ≡ left_over t.op_type t.remaining
leg_walk_example = leg_walk_lem small_book fill_or_kill 0 [] small_book-IsBook

add_precheck_example :
    let t =
      side_range
        (λ _. fill_or_kill)
        small_book
        (side_init (λ _. fill_or_kill) small_book 0)
        none
        [] in
    let left = left_over t.op_type t.remaining in
    ((add_precheck fill_or_kill buyer small_book 12 0 0).1 ≡ 4 - left)
    × ((true ≡ false) ⊎ (left ≡ 0))
unfolding add_precheck ◌+ℤ◌ ◌-ℤ◌
add_precheck_example =
    add_precheck_lem (λ _. fill_or_kill) small_book 0 buyer 12 0 0 [] small_book-IsBook refl refl
      refl refl

billing_example :
    IsBilled monthly_fee two_clients (server_eom two_clients)
    × IsBilled (daily_borrow 12) two_clients (server_eod two_clients)
unfolding daily_borrow
billing_example = billing_lem two_clients (omega arith) (omega arith)

settle_fill_example : IsSettled 4 two_clients (settle_fill 0 1 true 4 48 two_clients)
unfolding taker_fee
settle_fill_example =
    settle_fill_lem 0 1 true 4 48 two_clients (omega arith) (omega arith) (omega arith)

-- One parked bid for five shares at 12, which is its own arrival, against the book.
abbrev parked_bid : Server
parked_bid = record two_clients {
  orders = record {
    sp = 1;
    stack = 0 ∷ 1 ∷ [];
    payloads = some (record zero_order { status = 2 ^ 7; quantity = 5; price = 12 }) ∷ none ∷ [];
    capacity = 2;
    type_size = 40;
    id_limit = 100;
  };
  auction_arrivals = record {
    start = 0;
    end = 1;
    capacity = 2;
    type_size = 4;
    buffer = some 0 ∷ none ∷ [];
  };
  auction_bid_sorted = record {
    start = 0;
    end = 1;
    capacity = 2;
    type_size = 8;
    buffer = some (12 * 2 ^ 32 + max_u32) ∷ none ∷ [];
  };
}

single : (s : Source) → s.size ≤ 1 → Climbing s
single s h j k l m = let e : j ≡ k = omega arith in rw e (omega arith)

word_price : (i : ℕ) → (get_or small_book.levels i no_level).price ≤ 65535
word_price zero = omega arith
word_price (suc zero) = omega arith
word_price (suc (suc i)) = omega arith

parked_bid-IsSound : IsSound parked_bid 0 0
unfolding Ring.count order_at FreeList.get Ring.init
parked_bid-IsSound = record {
  bids_climb = single (parked true parked_bid) (omega arith);
  asks_climb = single (parked false parked_bid) (omega arith);
  book_bids_climb = single (levels_from small_book 0 1) (omega arith);
  book_asks_climb = single (levels_from small_book 1 1) (omega arith);
  demand_word = omega arith;
  supply_word = omega arith;
  prices = word_price;
  boundary = omega arith;
}

walk_curves_example : IsCleared parked_bid 0 0 (walk_curves parked_bid 0 0 5)
unfolding Ring.count order_at FreeList.get
walk_curves_example = walk_curves_lem parked_bid 0 0 5 parked_bid-IsSound refl
