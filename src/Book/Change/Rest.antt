-- ===== src/Book/Change/Rest.antt =====
-- `ob_canrep` of a plain limit order that trades with nobody and has no level yet.
use tiltyard.Base.{
  ℕ, suc, ◌+◌, ◌*◌, ◌≤◌, ◌<◌, ◌≡◌, refl, sym, ap, ◌∙◌, Bool, false, List, [], ◌∷◌, map, length,
  Option, none, some, get_or, ◌>>=◌, ◌==◌, max_u32, u16, sub16, max_u16, if◌then◌else◌, arith, inl,
  inr,
}
use tiltyard.Order.{Order, Fill}
use tiltyard.Book.Types.{Entry, Level, Book, Writer, data_start_offset}
use tiltyard.Book.Level.{start, insert_level}
use tiltyard.Book.Shape.{IsLevel, IsBook, extent, IsWriter, bare, bid_count}
use tiltyard.Book.Pull.{sound-bare, Ascending-bare, length-map-bare}
use tiltyard.Book.Range.{Op, Side, Touched, is_buy, pulls, side_init, side_range, no_level}
use tiltyard.Book.Range.Places.{IsGap, IsPlace, IsPassive}
use tiltyard.Book.Range.Passive.{IsPlain, side_range-passive}
use tiltyard.Book.Copy.{copy_range, parked, op_level_delta}
use tiltyard.Book.Cancel.Correct.{blob_size}
use tiltyard.Book.Change.{
  Change, retreat, apply_op, canrep_level_count, cancel_drops_level, ob_canrep,
}
use tiltyard.Book.Change.Put.{
  put, bare_sound, bare-Ascending, put-All, length-put, put-bare, put-Ascending, one_gap, gap_fresh,
}
use tiltyard.Book.Change.Written.{lone, with_rest, with_rest-IsWriter}

-- The outcome: a sound book with the level at its place, a bid more or an ask more.
pub record IsRested (id : ℕ) (o : Order) (old : Book) (i : ℕ) (new : Change) : Type 0 where
  pub sound : IsBook new.book
  pub levels : map bare new.book.levels ≡ put i (lone id o) (map bare old.levels)
  pub bids : bid_count new.book ≡ bid_count old + (if is_buy o then 1 else 0)
  pub size : new.size ≡ blob_size new.book

abbrev rested : Bool → Book → Writer → List Fill → Change
rested buy old w fills = record {
  book = record {
    hi_bid_index = if buy then u16 (old.hi_bid_index + 1) else old.hi_bid_index;
    level_count = old.level_count + 1;
    levels = w.levels;
  };
  size = 4 + (old.level_count + 1) * 12 + w.level;
  fills = fills;
}

lone-IsLevel : (id : ℕ) (o : Order) → 0 < o.quantity → o.quantity < 4294967296 → IsLevel (lone id o)
unfolding insert_level
lone-IsLevel id o h k = record {
  counted = omega arith;
  fits = omega arith;
  short = omega arith;
  occupied = omega arith;
  positive = (h, tt);
}

rested-IsRested :
    (id : ℕ) (o : Order) (old : Book) (i : ℕ) (w : Writer) (fills : List Fill)
    → IsBook old
    → IsGap old.levels o.price i
    → length old.levels < 65534
    → 0 < o.quantity
    → o.quantity < 4294967296
    → IsWriter w
    → map bare w.levels ≡ map bare (put i (lone id o) old.levels)
    → IsRested id o old i (rested (is_buy o) old w fills)
unfolding insert_level
rested-IsRested id o old i w fills v gap few some_left fits r same =
    let flat = same ∙ put-bare i (lone id o) old.levels in
    let count : length w.levels ≡ suc (length old.levels) =
      sym (length-map-bare w.levels)
      ∙ ap length same
      ∙ length-map-bare (put i (lone id o) old.levels)
      ∙ length-put i (lone id o) old.levels in
    record {
      sound = record {
        counted = omega (arith, count, v.counted);
        few = omega (arith, count);
        laid_out = r.laid_out;
        sound = sound-bare w.levels (
            rw same (
              bare_sound (put i (lone id o) old.levels) (
                put-All IsLevel i (lone id o) old.levels (lone-IsLevel id o some_left fits)
                  v.sound)));
        ascending = Ascending-bare w.levels (
            rw same (
              bare-Ascending (put i (lone id o) old.levels)
                (put-Ascending i (lone id o) old.levels gap v.ascending)));
        boundary = ground (arith, count, v.boundary, v.word);
        word = ground (arith, v.word);
      };
      levels = flat;
      bids = ground (arith, v.word, v.boundary);
      size = omega (arith, r.stands);
    }

-- With a gap for its price, the order's range is that gap.
gap_range :
    (levels : List Level) (price : ℕ) (op : Op) (lui hui i : ℕ)
    → IsGap levels price i
    → IsPlace levels price op lui hui
    → (op ≡ Op.new) × (lui ≡ i) × (u16 (hui + 1) ≡ i) × (hui < 65536)
gap_range levels price op lui hui i gap (inl a) = absurd (gap_fresh levels price i lui gap a.2 a.3)
gap_range levels price op lui hui i gap (inr n) =
    let same = one_gap levels price lui i n.3 gap in (n.0, same, n.1 ∙ same, n.2)

pub retreat_lem : (old : Book) (s : Side) → s.is_can_rep ≡ false → retreat old s ≡ old.hi_bid_index
retreat_lem old s e = ground arith

one_more :
    (n i hui : ℕ)
    → n < 65534
    → i ≤ n
    → u16 (hui + 1) ≡ i
    → hui < 65536
    → u16 (i + sub16 (sub16 n hui) 1 + 1) ≡ n + 1
one_more n i hui h k e w = omega arith

-- What `ob_canrep` does once it has the side and its range.
abbrev pub outcome : (ℕ → Entry) → Book → Side → Touched → Option Change
outcome stale old s t =
    let count = canrep_level_count old s t in
    let low = copy_range stale old (s ∷ []) 0 t.lui start in
    apply_op stale t.op_type s t old (get_or old.levels (parked 0 t.lui) no_level) low t.fills
      max_u32
    >>= λ a.
        let w = copy_range stale old (s ∷ []) (u16 (t.hui + 1)) old.level_count a.writer in
        some (record {
          book = record {
            hi_bid_index = if count == 0 then max_u16 else a.hbi;
            level_count = count;
            levels = w.levels;
          };
          size = data_start_offset count + w.level;
          fills = a.fills;
        })

outcome-new :
    (stale : ℕ → Entry) (old : Book) (s : Side) (t : Touched) (i : ℕ)
    → IsBook old
    → s.is_can_rep ≡ false
    → pulls s ≡ false
    → length old.levels < 65534
    → i ≤ length old.levels
    → (t.op_type ≡ Op.new) × (t.lui ≡ i) × (u16 (t.hui + 1) ≡ i) × (t.hui < 65536)
    → outcome stale old s t
      ≡ some (rested (is_buy s.rep) old (with_rest stale old s s.order_id s.rep i) t.fills)
unfolding apply_op canrep_level_count cancel_drops_level op_level_delta data_start_offset
outcome-new stale old s t i v keeps quiet few inside at =
    let count =
      one_more old.level_count i t.hui (omega (arith, v.counted)) (omega (arith, v.counted)) at.2
        at.3 in
    let occupied : (old.level_count + 1 == 0) ≡ false = ground arith in
    rw (quiet, at.0, at.1, at.2, count, retreat_lem old s keeps, occupied) refl

pub quiet_lem :
    (orders : ℕ → Order) (old : Book) (id : ℕ)
    → IsPlain (orders id)
    → let s = side_init orders old id in
      (s.is_can_rep ≡ false) × (pulls s ≡ false) × (s.rep ≡ orders id) × (s.order_id ≡ id)
unfolding side_init
quiet_lem orders old id plain =
    (plain.no_replace, rw (plain.no_replace, plain.no_cancel) refl, refl, refl)

-- `ob_canrep` of a plain limit order that reaches no opponent and whose price has a gap, at index `i`,
-- in a sound book with fewer than 65534 levels, where the quantity is positive and below 2 ^ 32 and the
-- levels with 12 bytes more stay below 2 ^ 32: a snapshot is made, with no fill; it is a sound book;
-- its levels are the old ones with the level of this order alone put in at `i`; it has one bid level
-- more if the order buys and as many as before if it sells; and the size is the snapshot's in bytes.
pub ob_canrep-new :
    (stale : ℕ → Entry) (orders : ℕ → Order) (id : ℕ) (old : Book) (fills : List Fill) (i : ℕ)
    → IsBook old
    → IsPlain (orders id)
    → IsPassive old (is_buy (orders id)) (orders id).price
    → IsGap old.levels (orders id).price i
    → length old.levels < 65534
    → 0 < (orders id).quantity
    → (orders id).quantity < 4294967296
    → extent old.levels + 12 < 4294967296
    → (new : Change) × (ob_canrep stale orders id old fills ≡ some new)
      × (new.fills ≡ fills)
      × IsRested id (orders id) old i new
unfolding ob_canrep
ob_canrep-new stale orders id old fills i v plain far gap few some_left fits room =
    let o = orders id in
    let s = side_init orders old id in
    let t = side_range orders old s none fills in
    let found = side_range-passive orders old id fills v plain far in
    let at = gap_range old.levels o.price t.op_type t.lui t.hui i gap found.0 in
    let q = quiet_lem orders old id plain in
    let w = with_rest-IsWriter stale old s id o i v q.1 room in
    let done = outcome-new stale old s t i v q.0 q.1 few gap.inside at in
    (
      rested (is_buy o) old (with_rest stale old s id o i) fills,
      done ∙ rw (q.2, q.3, found.1) refl,
      refl,
      rested-IsRested id o old i (with_rest stale old s id o i) fills v gap few some_left fits w.0
          w.1,
    )
