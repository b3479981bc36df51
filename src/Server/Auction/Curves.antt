-- ===== src/Server/Auction/Curves.antt =====
-- src/server.c, `auction_walk`: the parked orders split by side, and the walk up the prices that finds
-- where the most shares trade.
use tiltyard.Base.{
  ℕ, zero, suc, ◌+◌, ◌-◌, Bool, true, false, ◌&&◌, ◌||◌, Option, none, some, get_or, max_u16,
  max_u32, u32, sub32, ltb, ◌==◌, if◌then◌else◌, ◌>>=◌,
}
use tiltyard.Order.{Order}
use tiltyard.Book.Types.{Book}
use tiltyard.Book.Range.{is_buy, is_market, no_level}
use tiltyard.Ring.{CircularBuffer, queue, count}
use tiltyard.MinQueue.{MinQueue, push, pop}
use tiltyard.Server.State.{Server, client, set_client, order_at, word}
use tiltyard.Server.Stops.{heap_entry, entry_price, entry_id}
use tiltyard.Server.Auction.{auction_release}

-- `((T*)cb->buffer)[i]`
abbrev pub flat : Server → CircularBuffer ℕ → ℕ → ℕ
flat sc cb i = word sc (get_or cb.buffer i none)

-- What the split counts.
pub record Split : Type 0 where
  pub sc : Server
  pub base_demand : ℕ
  pub base_supply : ℕ
  pub total_demand : ℕ

-- A market order into the queue of its side.
unfoldable pub split_market : ℕ → Order → Split → Option Split
split_market id o s =
    let sc = s.sc in
    if is_buy o
    then (queue sc.auction_market_bids id >>= λ cb. some (record s {
      sc = record sc { auction_market_bids = cb };
      base_demand = u32 (s.base_demand + o.quantity);
    }))
    else (queue sc.auction_market_asks id >>= λ cb. some (record s {
      sc = record sc { auction_market_asks = cb };
      base_supply = u32 (s.base_supply + o.quantity);
    }))

-- A limit order into the heap of its side: the tie is the arrival index, turned round for a bid.
unfoldable pub split_limit : ℕ → Order → Split → Option Split
split_limit i o s =
    let sc = s.sc in
    if is_buy o
    then (push sc.memory.junk sc.auction_bids (heap_entry o.price (max_u32 - i)) >>= λ pq.
        some (record s {
          sc = record sc { auction_bids = pq };
          total_demand = u32 (s.total_demand + o.quantity);
        }))
    else (push sc.memory.junk sc.auction_asks (heap_entry o.price i) >>= λ pq.
        some (record s { sc = record sc { auction_asks = pq } }))

-- The loop over the `n` arrivals from the `i`-th on.
unfoldable pub split : ℕ → Bool → ℕ → Split → Option Split
unfolding order_at auction_release split_market split_limit
split zero release i s = some s
split (suc n) release i s =
    let id = flat s.sc s.sc.auction_arrivals i in
    let o = order_at s.sc id in
    let freed = auction_release (client s.sc o.client_id) o s.sc.mark in
    let s' = if release then record s { sc = set_client o.client_id freed s.sc } else s in
    (if o.quantity == 0
      then some s
      else if is_market o
      then split_market id o s'
      else split_limit i o s')
    >>= split n release (i + 1)

-- `n` entries of a heap, least first, into a buffer.
unfoldable pub pop_into : ℕ → MinQueue → CircularBuffer ℕ → Option (MinQueue × CircularBuffer ℕ)
pop_into zero pq cb = some (pq, cb)
pop_into (suc n) pq cb = let popped = pop pq in queue cb popped.0 >>= λ cb'. pop_into n popped.1 cb'

-- Both heaps sorted into their buffers.
unfoldable pub sort_limits : Server → Option Server
unfolding pop_into
sort_limits sc =
    pop_into (sc.auction_bids.current - 1) sc.auction_bids sc.auction_bid_sorted >>= λ bids.
    pop_into (sc.auction_asks.current - 1) sc.auction_asks sc.auction_ask_sorted >>= λ asks.
    some (record sc {
      auction_bids = bids.0;
      auction_bid_sorted = bids.1;
      auction_asks = asks.0;
      auction_ask_sorted = asks.1;
    })

-- The first level of asks.
abbrev pub ask_start : Book → ℕ
ask_start mbo = if mbo.hi_bid_index == max_u16 then 0 else mbo.hi_bid_index + 1

-- The quantity of the levels `i`, …, `i + n - 1`.
unfoldable pub level_total : ℕ → Book → ℕ → ℕ → ℕ
level_total zero mbo i total = total
level_total (suc n) mbo i total =
    level_total n mbo (i + 1) (u32 (total + (get_or mbo.levels i no_level).quantity))

-- Where the walk stands in its four sources, and what it has found.
pub record Curve : Type 0 where
  pub bid_i : ℕ
  pub ask_i : ℕ
  pub book_bid_i : ℕ
  pub book_ask_i : ℕ
  pub bids_at_or_above : ℕ
  pub asks_at_or_below : ℕ
  pub matched : ℕ
  pub clearing : ℕ

-- The parked limits of one side at a price, from position `i` on: the next position, and the sum.
unfoldable pub gather_parked : ℕ → Server → Bool → ℕ → ℕ → ℕ → ℕ × ℕ
unfolding order_at
gather_parked zero sc buy price i total = (i, total)
gather_parked (suc n) sc buy price i total =
    let entry = flat sc (if buy then sc.auction_bid_sorted else sc.auction_ask_sorted) i in
    let index = if buy then max_u32 - entry_id entry else entry_id entry in
    elim (entry_price entry == price) [
      | true ↦
          gather_parked n sc buy price (i + 1)
            (u32 (total + (order_at sc (flat sc sc.auction_arrivals index)).quantity))
      | false ↦ (i, total)
    ]

-- The levels of the book at a price, from level `i` on.
unfoldable pub gather_levels : ℕ → Book → ℕ → ℕ → ℕ → ℕ × ℕ
gather_levels zero mbo price i total = (i, total)
gather_levels (suc n) mbo price i total =
    let level = get_or mbo.levels i no_level in
    elim (level.price == price) [
      | true ↦ gather_levels n mbo price (i + 1) (u32 (total + level.quantity))
      | false ↦ (i, total)
    ]

abbrev pub lower : Bool → ℕ → ℕ → ℕ
lower available candidate price = if available && ltb candidate price then candidate else price

-- The lowest price not yet walked over.
unfoldable pub next_price : Server → Curve → ℕ
next_price sc c =
    let mbo = sc.mbo in
    let bid = entry_price (flat sc sc.auction_bid_sorted c.bid_i) in
    let ask = entry_price (flat sc sc.auction_ask_sorted c.ask_i) in
    let p1 = lower (ltb c.bid_i (count sc.auction_bid_sorted)) bid max_u16 in
    let p2 = lower (ltb c.ask_i (count sc.auction_ask_sorted)) ask p1 in
    let p3 =
      lower (ltb c.book_bid_i (ask_start mbo)) (get_or mbo.levels c.book_bid_i no_level).price p2 in
    lower (ltb c.book_ask_i mbo.level_count) (get_or mbo.levels c.book_ask_i no_level).price p3

-- The walk after the orders at a price are gathered from the four sources.
unfoldable pub curve_at : ℕ → ℕ → ℕ → Curve → ℕ × ℕ → ℕ × ℕ → ℕ × ℕ → ℕ × ℕ → Curve
curve_at base_demand base_supply price c asks book_asks bids book_bids =
    let demand = u32 (base_demand + c.bids_at_or_above) in
    let supply = u32 (base_supply + book_asks.1) in
    let crossed = if ltb demand supply then demand else supply in
    let better = ltb c.matched crossed in
    record {
      bid_i = bids.0;
      ask_i = asks.0;
      book_bid_i = book_bids.0;
      book_ask_i = book_asks.0;
      bids_at_or_above = sub32 c.bids_at_or_above book_bids.1;
      asks_at_or_below = book_asks.1;
      matched = if better then crossed else c.matched;
      clearing = if better then price else c.clearing;
    }

-- One price of the walk.
unfoldable pub curve_step : Server → ℕ → ℕ → Curve → Curve
unfolding gather_parked gather_levels next_price curve_at
curve_step sc base_demand base_supply c =
    let mbo = sc.mbo in
    let price = next_price sc c in
    let asks =
      gather_parked (count sc.auction_ask_sorted - c.ask_i) sc false price c.ask_i
        c.asks_at_or_below in
    let book_asks = gather_levels (mbo.level_count - c.book_ask_i) mbo price c.book_ask_i asks.1 in
    let bids = gather_parked (count sc.auction_bid_sorted - c.bid_i) sc true price c.bid_i 0 in
    let book_bids = gather_levels (ask_start mbo - c.book_bid_i) mbo price c.book_bid_i bids.1 in
    curve_at base_demand base_supply price c asks book_asks bids book_bids

-- The loop; every step goes on in one of the sources, so that their sizes are fuel enough.
unfoldable pub climb : ℕ → Server → ℕ → ℕ → Curve → Curve
unfolding curve_step
climb zero sc base_demand base_supply c = c
climb (suc fuel) sc base_demand base_supply c =
    let mbo = sc.mbo in
    let more =
      ltb c.bid_i (count sc.auction_bid_sorted)
      || ltb c.ask_i (count sc.auction_ask_sorted)
      || ltb c.book_bid_i (ask_start mbo)
      || ltb c.book_ask_i mbo.level_count in
    elim more [
      | true ↦ climb fuel sc base_demand base_supply (curve_step sc base_demand base_supply c)
      | false ↦ c
    ]

-- Where the walk begins: with all bids, and no asks.
abbrev pub climb_start : Server → ℕ → Curve
climb_start sc total_demand = record {
  bid_i = 0;
  ask_i = 0;
  book_bid_i = 0;
  book_ask_i = ask_start sc.mbo;
  bids_at_or_above = u32 (total_demand + level_total (ask_start sc.mbo) sc.mbo 0 0);
  asks_at_or_below = 0;
  matched = 0;
  clearing = sc.mark;
}

abbrev pub climb_fuel : Server → ℕ
climb_fuel sc = count sc.auction_bid_sorted + count sc.auction_ask_sorted + sc.mbo.level_count

-- The clearing price and the shares matched. With no limit crossed the market orders trade at the mark.
unfoldable pub walk_curves : Server → ℕ → ℕ → ℕ → ℕ × ℕ
unfolding level_total climb
walk_curves sc base_demand base_supply total_demand =
    let c = climb (climb_fuel sc) sc base_demand base_supply (climb_start sc total_demand) in
    if c.matched == 0 && ltb 0 base_demand && ltb 0 base_supply
    then (sc.mark, if ltb base_demand base_supply then base_demand else base_supply)
    else (c.clearing, c.matched)

-- The clearing price, the shares matched, and the state.
pub record Walked : Type 0 where
  pub clearing : ℕ
  pub matched : ℕ
  pub sc : Server

-- `auction_walk`
unfoldable pub auction_walk : Bool → Server → Option Walked
unfolding split sort_limits walk_curves
auction_walk release sc =
    split (count sc.auction_arrivals) release 0
      (record { sc = sc; base_demand = 0; base_supply = 0; total_demand = 0 })
    >>= λ s. sort_limits s.sc >>= λ sorted.
        let found = walk_curves sorted s.base_demand s.base_supply s.total_demand in
        some (record { clearing = found.0; matched = found.1; sc = sorted })
