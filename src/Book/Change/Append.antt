-- ===== src/Book/Change/Append.antt =====
-- `ob_canrep` of a plain limit order that trades with nobody and joins the queue of its price.
use tiltyard.Base.{
  ℕ, suc, ◌+◌, ◌*◌, ◌<◌, ◌≡◌, refl, sym, ap, ◌∙◌, false, List, [], ◌∷◌, ◌++◌, map, length,
  length-append, All, none, some, u16, u32, sub16, ◌==◌, arith, inl, inr,
}
use tiltyard.Order.{Order, Fill}
use tiltyard.Book.Types.{Entry, Level, Book, Writer, data_start_offset}
use tiltyard.Book.Level.{copy_level, app_level}
use tiltyard.Book.Level.Copies.{copy_level-eq}
use tiltyard.Book.Shape.{IsLevel, IsBook, Ascending, extent, IsWriter, bare, bid_count}
use tiltyard.Book.Pull.{sound-bare, Ascending-bare, length-map-bare}
use tiltyard.Book.Range.{Op, Side, Touched, is_buy, pulls, side_init, side_range}
use tiltyard.Book.Range.Places.{price_at, prices_climb, IsPlace, IsPassive}
use tiltyard.Book.Copy.{op_level_delta}
use tiltyard.Book.Cancel.Correct.{blob_size}
use tiltyard.Book.Copy.{parked}
use tiltyard.Book.Range.Passive.{IsPlain, side_range-passive}
use tiltyard.Book.Change.{Change, apply_op, canrep_level_count, cancel_drops_level, ob_canrep}
use tiltyard.Book.Change.Written.{before, around, around-IsWriter}
use tiltyard.Book.Change.Rest.{outcome, retreat_lem, quiet_lem}
use tiltyard.Book.Change.Put.{bare_sound, bare-Ascending, gap_fresh}
use tiltyard.Book.Change.Joined.{
  set, level_at, joined, All-at, set-All, length-set, extent-set, set-Ascending, total-append,
  set-bare,
}

-- The order at the end of the queue, written at `at`.
abbrev placed : ℕ → Order → Level → ℕ → Level
placed id o l at = record (joined id o l) { byte_offset = at }

joined-IsLevel :
    (id : ℕ) (o : Order) (l : Level)
    → IsLevel l
    → 0 < o.quantity
    → l.quantity + o.quantity < 4294967296
    → length l.entries < 8191
    → IsLevel (joined id o l)
joined-IsLevel id o l v h fits short =
    let one = record { order_id = id; quantity = o.quantity } ∷ [] in
    let sum = total-append l.entries one in
    let count = length-append l.entries one in
    record {
      counted = omega (arith, sum, v.counted);
      fits = omega (arith, sum, v.counted);
      short = omega (arith, count);
      occupied = omega (arith, count);
      positive = positive-append l.entries v.positive h;
    }
  where
    positive-append :
        (es : List Entry)
        → All (λ (e : Entry). 0 < e.quantity) es
        → 0 < o.quantity
        → All
            (λ (e : Entry). 0 < e.quantity)
            (es ++ record { order_id = id; quantity = o.quantity } ∷ [])
    positive-append [] p q = (q, tt)
    positive-append (e ∷ es) p q = (p.0, positive-append es p.1 q)

app_level_lem :
    (stale : ℕ → Entry) (id : ℕ) (o : Order) (l : Level) (at : ℕ)
    → IsLevel l
    → 0 < o.quantity
    → l.quantity + o.quantity < 4294967296
    → app_level (copy_level stale l at) id o.quantity ≡ some (placed id o l at)
unfolding app_level
app_level_lem stale id o l at v h fits =
    let sum : u32 (l.quantity + o.quantity) ≡ l.quantity + o.quantity = omega arith in
    let some_left : (l.quantity + o.quantity == 0) ≡ false = ground arith in
    rw (copy_level-eq stale l at v.short) (rw (sum, some_left) refl)

parked_lem : (i : ℕ) → parked 0 i ≡ i
parked_lem i = ground arith

same_count : (n i : ℕ) → n < 65535 → i < n → u16 (i + sub16 (sub16 n i) 1 + 1) ≡ n
same_count n i h k = omega arith

abbrev appended : Book → Writer → List Fill → Change
appended old w fills = record {
  book = record {
    hi_bid_index = old.hi_bid_index;
    level_count = old.level_count;
    levels = w.levels;
  };
  size = 4 + old.level_count * 12 + w.level;
  fills = fills;
}

-- The levels that are written.
abbrev with_joined : (ℕ → Entry) → Book → Side → ℕ → Writer
with_joined stale old s i =
    around stale old s i (suc i)
      (placed s.order_id s.rep (level_at old.levels i) (before stale old s i).level)

outcome-append :
    (stale : ℕ → Entry) (old : Book) (s : Side) (t : Touched) (i : ℕ)
    → IsBook old
    → s.is_can_rep ≡ false
    → pulls s ≡ false
    → i < length old.levels
    → 0 < s.rep.quantity
    → (level_at old.levels i).quantity + s.rep.quantity < 4294967296
    → (t.op_type ≡ Op.append) × (t.lui ≡ i) × (t.hui ≡ i)
    → outcome stale old s t ≡ some (appended old (with_joined stale old s i) t.fills)
unfolding apply_op canrep_level_count cancel_drops_level op_level_delta data_start_offset
outcome-append stale old s t i v keeps quiet inside h fits at =
    let count =
      same_count old.level_count i (omega (arith, v.counted, v.few)) (omega (arith, v.counted)) in
    let occupied : (old.level_count == 0) ≡ false = ground (arith, v.counted) in
    let next : u16 (i + 1) ≡ suc i = omega (arith, v.few) in
    let app =
      app_level_lem stale s.order_id s.rep (level_at old.levels i) (before stale old s i).level
        (All-at IsLevel i old.levels v.sound inside) h fits in
    rw (quiet, at.0, at.1, at.2, count, parked_lem i, app, next, retreat_lem old s keeps, occupied)
      refl

-- The outcome: a sound book with as many levels and bids, the order last in the queue of its price.
pub record IsJoined (id : ℕ) (o : Order) (old : Book) (i : ℕ) (new : Change) : Type 0 where
  pub sound : IsBook new.book
  pub levels :
      map bare new.book.levels ≡ map bare (set i (joined id o (level_at old.levels i)) old.levels)
  pub bids : bid_count new.book ≡ bid_count old
  pub size : new.size ≡ blob_size new.book

appended-IsJoined :
    (id : ℕ) (o : Order) (old : Book) (i : ℕ) (w : Writer) (fills : List Fill)
    → IsBook old
    → i < length old.levels
    → IsLevel (joined id o (level_at old.levels i))
    → IsWriter w
    → map bare w.levels ≡ map bare (set i (joined id o (level_at old.levels i)) old.levels)
    → IsJoined id o old i (appended old w fills)
appended-IsJoined id o old i w fills v inside good r same =
    let new = joined id o (level_at old.levels i) in
    let count : length w.levels ≡ length old.levels =
      sym (length-map-bare w.levels)
      ∙ ap length same
      ∙ length-map-bare (set i new old.levels)
      ∙ length-set i new old.levels inside in
    record {
      sound = record {
        counted = omega (arith, count, v.counted);
        few = omega (arith, count, v.few);
        laid_out = r.laid_out;
        sound = sound-bare w.levels (
            rw same (
              bare_sound (set i new old.levels)
                (set-All IsLevel i new old.levels good inside v.sound)));
        ascending = Ascending-bare w.levels (
            rw same (
              bare-Ascending (set i new old.levels)
                (set-Ascending i new old.levels inside refl v.ascending)));
        boundary = omega (arith, count, v.boundary);
        word = v.word;
      };
      levels = same;
      bids = refl;
      size = omega (arith, r.stands);
    }

with_joined-IsWriter :
    (stale : ℕ → Entry) (old : Book) (s : Side) (i : ℕ)
    → IsBook old
    → pulls s ≡ false
    → i < length old.levels
    → extent old.levels + 8 < 4294967296
    → IsWriter (with_joined stale old s i)
      × (map bare (with_joined stale old s i).levels
          ≡ map bare (set i (joined s.order_id s.rep (level_at old.levels i)) old.levels))
with_joined-IsWriter stale old s i v quiet inside room =
    let l = level_at old.levels i in
    let at = (before stale old s i).level in
    let new = placed s.order_id s.rep l at in
    let bytes = extent-set i new old.levels inside (
      length-append l.entries (record { order_id = s.order_id; quantity = s.rep.quantity } ∷ [])) in
    let w =
      around-IsWriter stale old s i (suc i) new v quiet refl
        (unfold set in omega (arith, bytes, room)) in
    (w.0, w.1 ∙ unfold set in set-bare i (joined s.order_id s.rep l) at old.levels)

-- With a level for its price, the order's range is that level.
level_range :
    (levels : List Level) (price : ℕ) (op : Op) (lui hui i : ℕ)
    → Ascending levels
    → i < length levels
    → price_at levels i ≡ price
    → IsPlace levels price op lui hui
    → (op ≡ Op.append) × (lui ≡ i) × (hui ≡ i)
level_range levels price op lui hui i v inside e (inl a) =
    let same : lui ≡ i =
      ground (arith, prices_climb levels lui i v, prices_climb levels i lui v, a.2, a.3) in
    (a.0, same, sym a.1 ∙ same)
level_range levels price op lui hui i v inside e (inr n) =
    absurd (gap_fresh levels price lui i n.3 inside e)

-- `ob_canrep` of a plain limit order that reaches no opponent and whose price is that of the level at
-- index `i` of a sound book, where the quantity is positive, the level's quantity with it stays below
-- 2 ^ 32, the level has fewer than 8191 orders and the levels with 8 bytes more stay below 2 ^ 32: a
-- snapshot is made, with no fill; it is a sound book with as many bid levels as before; its levels are
-- the old ones with the order last in the queue at `i` and its quantity added there; and the size is
-- the snapshot's in bytes.
pub ob_canrep-append :
    (stale : ℕ → Entry) (orders : ℕ → Order) (id : ℕ) (old : Book) (fills : List Fill) (i : ℕ)
    → IsBook old
    → IsPlain (orders id)
    → IsPassive old (is_buy (orders id)) (orders id).price
    → i < length old.levels
    → price_at old.levels i ≡ (orders id).price
    → 0 < (orders id).quantity
    → (level_at old.levels i).quantity + (orders id).quantity < 4294967296
    → length (level_at old.levels i).entries < 8191
    → extent old.levels + 8 < 4294967296
    → (new : Change) × (ob_canrep stale orders id old fills ≡ some new)
      × (new.fills ≡ fills)
      × IsJoined id (orders id) old i new
unfolding ob_canrep side_init
ob_canrep-append stale orders id old fills i v plain far inside e h fits short room =
    let o = orders id in
    let s = side_init orders old id in
    let t = side_range orders old s none fills in
    let found = side_range-passive orders old id fills v plain far in
    let at = level_range old.levels o.price t.op_type t.lui t.hui i v.ascending inside e found.0 in
    let q = quiet_lem orders old id plain in
    let w = with_joined-IsWriter stale old s i v q.1 inside room in
    let done = outcome-append stale old s t i v q.0 q.1 inside h fits at in
    let good =
      joined-IsLevel id o (level_at old.levels i) (All-at IsLevel i old.levels v.sound inside) h
        fits short in
    (
      appended old (with_joined stale old s i) fills,
      done ∙ rw found.1 refl,
      refl,
      appended-IsJoined id o old i (with_joined stale old s i) fills v inside good w.0 w.1,
    )
