-- ===== src/Server/State.antt =====
-- include/server.h, include/client_settings.h, include/response.h, include/iceberg.h: the state of the
-- exchange. `mbo` is the book in the blob `last_mbo`, and `feed` are the views in the blobs `last_mbp`,
-- `last_mbp10` and `last_mbp1`. `memory` is what memory holds that nothing was written to. The fills are
-- a list, as src/ob.c's model has them, and so is the buffer of expiries, which is drained where it is
-- filled. The generator is the scheduler's.
use tiltyard.Base.{ℕ, Bool, false, List, Option, none, some, get_or, ℤ, pos, length, ◌>>=◌, max_u64}
use tiltyard.Memory.{set}
use tiltyard.Order.{Order, Fill}
use tiltyard.Book.Types.{Entry, Book}
use tiltyard.Ring.{CircularBuffer, queue}
use tiltyard.MinQueue.{MinQueue}
use tiltyard.MaxQueue.{MaxQueue}
use tiltyard.FreeList.{FreeList, get, set_payload}
use tiltyard.Blobs.{BlobStore}
use tiltyard.Feed.{Feed}
use tiltyard.Candles.{Tape}
use tiltyard.Scheduler.{Scheduler, schedule}

-- `ClientSettings`; the signed amounts are integers without a bound.
pub record ClientSettings : Type 0 where
  pub will_notify : Bool
  pub ws : Bool
  pub is_cash_account : Bool
  pub margin_mult : ℕ
  pub maint_pct : ℕ
  pub cash : ℤ
  pub reserved_cash : ℕ
  pub shares : ℤ
  pub reserved_shares : ℕ
  pub next_wake_ns : ℕ
  pub initial_wake : ℕ
  pub processing_time : ℕ
  pub net_latency : ℕ
  pub sub_tier : ℕ
  pub noii : Bool
  pub stream_in_flight : Bool
  pub stream_pending_valid : Bool
  pub stream_pending_tier : ℕ
  pub stream_pending_snapshot : ℕ
  pub stream_pending_arrival : ℕ

-- Settings fresh from `calloc`.
abbrev pub no_client : ClientSettings
no_client = record {
  will_notify = false;
  ws = false;
  is_cash_account = false;
  margin_mult = 0;
  maint_pct = 0;
  cash = pos 0;
  reserved_cash = 0;
  shares = pos 0;
  reserved_shares = 0;
  next_wake_ns = max_u64;
  initial_wake = 0;
  processing_time = 0;
  net_latency = 0;
  sub_tier = 0;
  noii = false;
  stream_in_flight = false;
  stream_pending_valid = false;
  stream_pending_tier = 0;
  stream_pending_snapshot = 0;
  stream_pending_arrival = 0;
}

-- `Response`
pub record Response : Type 0 where
  pub client_id : ℕ
  pub snapshot_id : ℕ
  pub order_id : ℕ
  pub status : ℕ
  pub quantity_filled : ℕ
  pub second_order_id : ℕ
  pub second_quantity_filled : ℕ
  pub price : ℕ
  pub second_price : ℕ
  pub tier : ℕ
  pub rej_reason : ℕ

-- `Iceberg`
pub record Iceberg : Type 0 where
  pub client_id : ℕ
  pub remaining : ℕ
  pub price : ℕ
  pub chunk : ℕ

-- `Imbalance`
pub record Imbalance : Type 0 where
  pub ns : ℕ
  pub ref_price : ℕ
  pub clearing : ℕ
  pub paired : ℕ
  pub imbalance : ℕ
  pub buy_side : Bool

-- `LogRec`
pub record LogRec : Type 0 where
  pub now_ns : ℕ
  pub cash : ℤ
  pub shares : ℤ
  pub order_id : ℕ
  pub client_id : ℕ
  pub reserved_cash : ℕ
  pub reserved_shares : ℕ
  pub other_id : ℕ
  pub status : ℕ
  pub quantity_filled : ℕ
  pub price : ℕ
  pub quantity : ℕ
  pub stop_price : ℕ
  pub second_quantity : ℕ
  pub kind : ℕ
  pub second_direction : ℕ
  pub partial : ℕ
  pub taker_is_buy : Bool

-- `LegCost`
pub record LegCost : Type 0 where
  pub cost : ℕ
  pub open_notional : ℕ
  pub q_remain : ℕ

-- What is read where nothing was written: cells of heaps, entries of the book, orders and icebergs.
pub record Unwritten : Type 0 where
  pub junk : ℕ → ℕ
  pub stale : ℕ → Entry
  pub stale_order : Order
  pub stale_iceberg : Iceberg

-- `ServerContext`
pub record Server : Type 0 where
  pub memory : Unwritten
  pub last_mbo : ℕ
  pub mark : ℕ
  pub exchange_cash : ℕ
  pub client_settings : List ClientSettings
  pub mbo_bs : BlobStore
  pub mbo : Book
  pub executing : Bool
  pub is_open : Bool
  pub sw_queue : CircularBuffer ℕ
  pub hw_queue : CircularBuffer ℕ
  pub orders : FreeList Order
  pub fills : List Fill
  pub sch : Scheduler
  pub responses : FreeList Response
  pub icebergs : FreeList Iceberg
  pub convert_holder : CircularBuffer ℕ
  pub day_orders : CircularBuffer ℕ
  pub gtd : MinQueue
  pub price_pq : MinQueue
  pub buy_stops : MinQueue
  pub sell_stops : MaxQueue
  pub wake_above : MinQueue
  pub wake_below : MaxQueue
  pub auctioning : Bool
  pub auction_frozen : Bool
  pub imbalance_buy : ℕ
  pub imbalance_sell : ℕ
  pub auction_bids : MinQueue
  pub auction_asks : MinQueue
  pub auction_market_bids : CircularBuffer ℕ
  pub auction_market_asks : CircularBuffer ℕ
  pub auction_arrivals : CircularBuffer ℕ
  pub auction_bid_sorted : CircularBuffer ℕ
  pub auction_ask_sorted : CircularBuffer ℕ
  pub book_version : ℕ
  pub mbp_derived_version : ℕ
  pub last_mbp : ℕ
  pub mbp_bs : BlobStore
  pub last_mbp10 : ℕ
  pub mbp10_bs : BlobStore
  pub last_mbp1 : ℕ
  pub mbp1_bs : BlobStore
  pub feed : Feed
  pub tape : Tape
  pub imbalances : CircularBuffer Imbalance
  pub log : CircularBuffer LogRec
  pub notified : CircularBuffer ℕ
  pub stream_roster : List ℕ
  pub tier_offset : List ℕ
  pub live_roster : CircularBuffer ℕ
  pub live_offset : List ℕ

-- `client_settings + id`: the settings, and a write of them.
abbrev pub client : Server → ℕ → ClientSettings
client sc id = get_or sc.client_settings id no_client

abbrev pub set_client : ℕ → ClientSettings → Server → Server
set_client id cs sc = record sc { client_settings = set sc.client_settings id cs }

-- `ho->num_clients`
abbrev pub num_clients : Server → ℕ
num_clients sc = length sc.client_settings

-- `fl_get(orders, id)`: the order, and a write through the pointer.
unfoldable pub order_at : Server → ℕ → Order
order_at sc id = elim (get sc.orders id) [ none ↦ sc.memory.stale_order | some o ↦ o ]

unfoldable pub set_order : ℕ → Order → Server → Server
unfolding set_payload
set_order id o sc = record sc { orders = set_payload sc.orders id o }

unfoldable pub iceberg_at : Server → ℕ → Iceberg
iceberg_at sc id = elim (get sc.icebergs id) [ none ↦ sc.memory.stale_iceberg | some i ↦ i ]

unfoldable pub set_iceberg : ℕ → Iceberg → Server → Server
unfolding set_payload
set_iceberg id i sc = record sc { icebergs = set_payload sc.icebergs id i }

-- `*(u32*)cb_at(cb, i)` and the entry that `cb_deque` points to.
abbrev pub word : Server → Option ℕ → ℕ
word sc none = sc.memory.junk 0
word sc (some n) = n

-- `sch_schedule(sc->sch, event, delta)`
unfoldable pub post : ℕ → ℕ → Server → Option Server
post event delta_ns sc =
    schedule sc.memory.junk sc.sch event delta_ns >>= λ sch. some (record sc { sch = sch })

-- `cb_queue(sc->convert_holder, &id)`
unfoldable pub convert : ℕ → Server → Option Server
convert id sc = queue sc.convert_holder id >>= λ cb. some (record sc { convert_holder = cb })
