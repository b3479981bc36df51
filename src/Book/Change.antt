-- ===== src/Book/Change.antt =====
-- src/ob.c, `ob_apply_op`, `ob_canrep` and `ob_pair`: build the snapshot that follows one order, or
-- the two legs of a quote. `none` is the `exit(1)` of `mbo_app_level`.
pub mod Put
pub mod Written
pub mod Rest
pub mod Joined
pub mod Append
use tiltyard.Base.{
  ℕ, ◌+◌, Bool, true, false, ◌&&◌, ◌||◌, not, List, [], ◌∷◌, Option, none, some, get_or, max_u16,
  max_u32, u16, sub16, ltb, leb, ◌==◌, if◌then◌else◌, ◌>>=◌,
}
use tiltyard.Order.{Order, Fill}
use tiltyard.Book.Types.{Entry, Level, Book, Writer, data_start_offset}
use tiltyard.Book.Level.{
  copy_level, app_level, shrink_level, insert_level, fill_remove, splice_level, jump, start,
}
use tiltyard.Book.Range.{Op, Side, Touched, no_level, is_buy, side_init, side_range, pulls}
use tiltyard.Book.Copy.{op_level_delta, op_covers, copy_range, parked}

-- What `ob_apply_op` leaves: the writer, the fills, and the `hi_bid_index` that this side implies.
pub record Applied : Type 0 where
  pub writer : Writer
  pub fills : List Fill
  pub hbi : ℕ

-- The old boundary, one lower if the op's own cancel empties a level at or below it.
abbrev pub retreat : Book → Side → ℕ
retreat old s =
    let hbi = old.hi_bid_index in
    if not (hbi == max_u16) && s.is_can_rep && s.cancel_was_sole && leb s.cancel_index hbi
    then sub16 hbi 1
    else hbi

-- `ob_apply_op`, by its `op_type`; `at` is the old level that the reading runner sits at.
unfoldable pub apply_op :
    (ℕ → Entry) → Op → Side → Touched → Book → Level → Writer → List Fill → ℕ → Option Applied
apply_op stale Op.new s t old at w fills co_id =
    let hbi = retreat old s in
    some (record {
      writer = jump w (insert_level s.order_id s.rep.price s.rep.quantity w.level);
      fills = fills;
      hbi = if is_buy s.rep then u16 (hbi + 1) else hbi;
    })
apply_op stale Op.append s t old at w fills co_id =
    app_level (copy_level stale at w.level) s.order_id s.rep.quantity >>= λ l.
    some (record { writer = jump w l; fills = fills; hbi = retreat old s })
apply_op stale Op.rest_remainder s t old at w fills co_id = some (record {
  writer = jump w (insert_level s.order_id s.rep.price t.remaining w.level);
  fills = fills;
  hbi = if is_buy s.rep then w.index else sub16 w.index 1;
})
apply_op stale Op.fill_some s t old at w fills co_id =
    let bitten =
      fill_remove (get_or old.levels t.modified_level no_level) w.level t.remaining
        (if s.is_can_rep then s.cancel_id else max_u32) co_id fills in
    some (record {
      writer = jump w bitten.0;
      fills = bitten.1;
      hbi = if is_buy s.rep then sub16 w.index 1 else w.index;
    })
apply_op stale Op.can_rep s t old at w fills co_id =
    app_level (splice_level at w.level s.cancel_id) s.order_id s.rep.quantity >>= λ l.
    some (record { writer = jump w l; fills = fills; hbi = old.hi_bid_index })
apply_op stale Op.exact s t old at w fills co_id =
    some (record { writer = w; fills = fills; hbi = sub16 w.index 1 })
apply_op stale Op.can_wipe s t old at w fills co_id =
    let hbi = old.hi_bid_index in
    some (record {
      writer = w;
      fills = fills;
      hbi = if not (hbi == max_u16) && leb s.cancel_index hbi then sub16 hbi 1 else hbi;
    })
apply_op stale Op.can_no_wipe s t old at w fills co_id = some (record {
  writer = jump w (splice_level at w.level s.cancel_id);
  fills = fills;
  hbi = old.hi_bid_index;
})
apply_op stale Op.shrink s t old at w fills co_id = some (record {
  writer =
      jump w (shrink_level (copy_level stale at w.level) s.cancel_id s.rep.quantity s.order_id);
  fills = fills;
  hbi = old.hi_bid_index;
})
-- `OP_TYPE_INVALID` matches no branch, and the jump goes over whatever the level held.
apply_op stale Op.invalid s t old at w fills co_id = none

-- Does the cancel of a single order take away a level that the op does not decide on?
unfoldable pub cancel_drops_level : Side → ℕ → ℕ → Bool
cancel_drops_level s lui hui =
    pulls s
    && s.cancel_was_sole
    && (hui == max_u16
        || (not (lui == max_u16) && (ltb s.cancel_index lui || leb (hui + 1) s.cancel_index)))

-- The `level_count` of `ob_canrep`.
unfoldable pub canrep_level_count : Book → Side → Touched → ℕ
unfolding op_level_delta cancel_drops_level
canrep_level_count old s t =
    let kept = u16 (t.lui + sub16 (sub16 old.level_count t.hui) 1 + op_level_delta t.op_type) in
    if cancel_drops_level s t.lui t.hui then sub16 kept 1 else kept

-- A new snapshot, its size in bytes, and the fills.
pub record Change : Type 0 where
  pub book : Book
  pub size : ℕ
  pub fills : List Fill

-- `ob_canrep`
unfoldable pub ob_canrep : (ℕ → Entry) → (ℕ → Order) → ℕ → Book → List Fill → Option Change
unfolding side_init side_range canrep_level_count copy_range apply_op data_start_offset
ob_canrep stale orders order_id old fills =
    let s = side_init orders old order_id in
    let t = side_range orders old s none fills in
    let count = canrep_level_count old s t in
    let low = copy_range stale old (s ∷ []) 0 t.lui start in
    apply_op stale t.op_type s t old (get_or old.levels (parked 0 t.lui) no_level) low t.fills
      max_u32
    >>= λ a.
        let w = copy_range stale old (s ∷ []) (u16 (t.hui + 1)) old.level_count a.writer in
        some (record {
          book = record {
            hi_bid_index = if count == 0 then max_u16 else a.hbi;
            level_count = count;
            levels = w.levels;
          };
          size = data_start_offset count + w.level;
          fills = a.fills;
        })

-- A leg's sole cancel costs a level only where neither op's range covers it.
unfoldable pub leg_drops : Side → Touched → Touched → Bool
unfolding op_covers
leg_drops s bid ask =
    pulls s
    && s.cancel_was_sole
    && not (op_covers s.cancel_index bid.lui bid.hui)
    && not (op_covers s.cancel_index ask.lui ask.hui)

abbrev one_if : Bool → ℕ
one_if b = if b then 1 else 0

unfoldable pub pair_level_count : Book → Side → Side → Touched → Touched → ℕ
unfolding op_level_delta leg_drops
pair_level_count old bid ask b a =
    let kept = u16 (
      b.lui
      + op_level_delta b.op_type
      + sub16 (sub16 a.lui b.hui) 1
      + op_level_delta a.op_type
      + sub16 (sub16 old.level_count a.hui) 1) in
    sub16 kept (one_if (leg_drops bid b a) + one_if (leg_drops ask b a))

abbrev is_fill_some : Op → Bool
is_fill_some Op.fill_some = true
is_fill_some _ = false

-- The number of bid levels, region by region.
unfoldable pub pair_bids : Book → Side → Side → Touched → Touched → ℕ
unfolding op_level_delta leg_drops
pair_bids old bid ask b a =
    let old_hbi = old.hi_bid_index in
    let outer = u16 (
      b.lui
      + (if is_fill_some b.op_type then 0 else op_level_delta b.op_type)
      + one_if (is_fill_some a.op_type)) in
    let mid_lo = u16 (b.hui + 1) in
    let mid_len = sub16 a.lui mid_lo in
    let mid_bids = u16 (sub16 old_hbi mid_lo + 1) in
    let middle =
      if not (mid_len == 0) && leb mid_lo old_hbi
      then u16 (outer + (if ltb mid_bids mid_len then mid_bids else mid_len))
      else outer in
    let dropped =
      one_if (leg_drops bid b a && leb bid.cancel_index old_hbi)
      + one_if (leg_drops ask b a && leb ask.cancel_index old_hbi) in
    if old_hbi == max_u16 then outer else sub16 middle dropped

-- `ob_pair`
unfoldable pub ob_pair : (ℕ → Entry) → (ℕ → Order) → ℕ → ℕ → Book → List Fill → Option Change
unfolding side_init side_range pair_level_count pair_bids copy_range apply_op data_start_offset
ob_pair stale orders bid_order_id ask_order_id old fills =
    let bid = side_init orders old bid_order_id in
    let ask = side_init orders old ask_order_id in
    let b = side_range orders old bid (some ask) fills in
    let a = side_range orders old ask (some bid) b.fills in
    let sides = bid ∷ ask ∷ [] in
    let count = pair_level_count old bid ask b a in
    let bids = pair_bids old bid ask b a in
    let bid_co = if pulls ask then ask.cancel_id else max_u32 in
    let ask_co = if pulls bid then bid.cancel_id else max_u32 in
    let mid_lo = u16 (b.hui + 1) in
    let low = copy_range stale old sides 0 b.lui start in
    apply_op stale b.op_type bid b old (get_or old.levels (parked 0 b.lui) no_level) low a.fills
      bid_co
    >>= λ x.
        let mid = copy_range stale old sides mid_lo a.lui x.writer in
        apply_op stale a.op_type ask a old (get_or old.levels (parked mid_lo a.lui) no_level) mid
          x.fills ask_co
        >>= λ y.
            let w = copy_range stale old sides (u16 (a.hui + 1)) old.level_count y.writer in
            some (record {
              book = record {
                hi_bid_index = if bids == 0 then max_u16 else sub16 bids 1;
                level_count = count;
                levels = w.levels;
              };
              size = data_start_offset count + w.level;
              fills = y.fills;
            })
