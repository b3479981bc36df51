-- ===== src/Lib.antt =====
-- A verification library for the exchange simulator: its order book, queues, stores, scheduler, market
-- data and candles.
--
-- The program simulates a stock exchange. `src/main.c` runs a discrete-event loop over the scheduler;
-- the server (`src/server.c`) answers each event by changing the order book, whose every version is an
-- immutable snapshot, and sends snapshots and derived views to the clients. Each part is a module:
--
-- - Base, Memory, Bytes: numbers, lists, machine words, blocks of cells shared by the heaps, and blocks of
--   entries that `src/cb.c` and `src/fl.c` reach at byte offsets modulo 2 ^ 32.
-- - Order (`include/order.h`, `include/fill.h`): orders, status bits, fills.
-- - Book (`src/ob.c`, `include/ob.h`): a snapshot is the list of its levels, each with its index entry
--   and its orders in queue order; the bytes enter as offsets and sizes. Book.Level has the `mbo_`
--   helpers that write one level, Book.Cancel `ob_cancel`, Book.Expire `ob_expire`, Book.Range
--   `ob_affected_range` and the sides, Book.Copy `ob_copy_range`, Book.Change `ob_apply_op`, `ob_canrep`
--   and `ob_pair` (its child modules take an order that rests, in a new level or in an old one),
--   Book.Position `ob_queue_position`. Book.Shape says what a sound book is and forgets the layout: two
--   sides of levels. What memory held before is a parameter, `stale`.
-- - MinQueue (`src/pq.c`), MaxQueue (`src/xpq.c`): the event heaps, capacity in cell 0.
-- - Ring (`src/cb.c`): the growing circular buffer. FreeList (`src/fl.c`): ids and their payloads.
-- - Blobs (`src/bs.c`): the store of blobs, its ring of metadata and its bytes.
-- - Event (`src/rand.c`, `src/utils.c`, `include/constants.h`), Calendar (`src/utils.c`).
-- - Scheduler (`src/sch.c`): a wheel of 64 heaps for 2 ^ 32 ns each, and a heap of whole seconds.
-- - Server (`src/server.c`, `include/server.h`): State is the context as one record, Account buying
--   power and the cost walk, Checks the prechecks, Replies the responses and streams with the blobs
--   that they pin, Stops the stops, brackets and wakes, Auction the parking (its children the curves,
--   the fills and the cross), Work `server_order` in the order of its parts (Accept, Trade, Settle), with
--   its locals in Job, Billing, Session the bells and the candle tick, Pipeline the two queues. The
--   pool of orders is shared, so a write through a pointer is `set_order` at its id. The content of
--   the newest snapshot of the book stands in `mbo`, its blob in `mbo_bs`; the queue of fills and the
--   batch of expiries, which are empty between calls, are lists; money and shares (i64) are integers
--   without a bound. What C reads where nothing was written is the field `memory`.
-- - Feed (`src/mbp.c`): the price-aggregated views. Candles (`src/trade.c`). Clients (`src/holder.c`).
-- - Tests: runs at concrete inputs.
--
-- A call of `exit` is `none`. Words wrap where the source wraps them. The content of fresh memory is a
-- parameter (`junk`, `stale`), so that nothing is proved of it. The loops that count down are structural
-- recursion; the others run on fuel: the sift loops on the size of the heap, the binary search on the
-- length of the run, the bucket search on the 64 buckets, the slow check on the number of slow events,
-- the walks over the book on the number of levels, the loops of
-- the blob store on its slots and on 32 doublings, the walk of the auction on the entries of its
-- sources. Heaps are taken up to 2 ^ 30 cells, buffers and lists up to 2 ^ 31 entries and 2 ^ 32 bytes,
-- levels below 8192 orders and books below 65535 levels, where the word sizes of the source begin to
-- wrap.
--
-- Not modelled: the main loop (`src/main.c`), the strategies (`src/strategy`), the making and the freeing
-- of the server and the dump of its log, and everything that only prints.
pub mod Base
pub mod Order
pub mod Book
pub mod Bytes
pub mod Memory
pub mod MinQueue
pub mod MaxQueue
pub mod FreeList
pub mod Blobs
pub mod Feed
pub mod Event
pub mod Calendar
pub mod Scheduler
pub mod Candles
pub mod Clients
pub mod Ring
pub mod Server
pub mod Tests
