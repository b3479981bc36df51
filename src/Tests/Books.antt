-- ===== src/Tests/Books.antt =====
-- A book of three orders, and the views derived from it.
use tiltyard.Base.{
  zero, suc, none, map, max_u32, false, ℕ, some, ◌<◌, ◌≤◌, ◌≡◌, refl, List, [], ◌∷◌, true, reject,
}
use native.Mathlib.Omega.{arith}
use tiltyard.Order.{Order}
use tiltyard.Book.Level.{fill_remove, start}
use tiltyard.Book.Level.Fills.{Matched, fill_remove_lem}
use tiltyard.Book.Position.{queue_position}
use tiltyard.Book.Position.Correct.{queue_position_lem}
use tiltyard.Book.Copy.{op_covers, copy_span}
use tiltyard.Book.Copy.Spans.{op_covers_lem, copy_span-Extends}
use tiltyard.Book.Range.{side_init, side_range}
use tiltyard.Book.Range.Ends.{is_invalid, side_range_lem}
use tiltyard.Book.Range.Places.{price_at, IsGap, IsPlace, IsPassive}
use tiltyard.Book.Change.{Change, ob_canrep}
use tiltyard.Book.Change.Append.{IsJoined, ob_canrep-append}
use tiltyard.Book.Change.Rest.{IsRested, ob_canrep-new}
use tiltyard.Book.Range.Passive.{side_range-passive}
use tiltyard.Book.Types.{Entry, Level, Book}
use tiltyard.Book.Shape.{IsBook, IsWriter, start-IsWriter, bare}
use tiltyard.Book.Pull.{IsWithdrawn}
use tiltyard.Book.Cancel.{ob_cancel}
use tiltyard.Book.Cancel.Written.{one}
use tiltyard.Book.Cancel.Correct.{blob_size, ob_cancel_lem}
use tiltyard.Book.Expire.{cancels_hit, ob_expire}
use tiltyard.Book.Expire.Search.{cancels_hit_lem}
use tiltyard.Book.Expire.Batch.{named}
use tiltyard.Book.Expire.Correct.{ob_expire_lem}

abbrev pub stale_entry : ℕ → Entry
stale_entry i = record { order_id = i; quantity = 1 }

abbrev bid_level : Level
bid_level = record {
  price = 10;
  byte_offset = 0;
  quantity = 8;
  entries = record { order_id = 7; quantity = 5 } ∷ record { order_id = 8; quantity = 3 } ∷ [];
}

abbrev ask_level : Level
ask_level = record {
  price = 12;
  byte_offset = 20;
  quantity = 4;
  entries = record { order_id = 9; quantity = 4 } ∷ [];
}

abbrev pub small_book : Book
small_book = record { hi_bid_index = 0; level_count = 2; levels = bid_level ∷ ask_level ∷ [] }

pub small_book-IsBook : IsBook small_book
small_book-IsBook = record {
  counted = refl;
  few = omega arith;
  laid_out = (refl, (refl, tt));
  sound = (
    record {
      counted = refl;
      fits = omega arith;
      short = omega arith;
      occupied = omega arith;
      positive = (omega arith, (omega arith, tt));
    },
    (
      record {
        counted = refl;
        fits = omega arith;
        short = omega arith;
        occupied = omega arith;
        positive = (omega arith, tt);
      },
      tt,
    ),
  );
  ascending = ((omega arith, tt), (tt, tt));
  boundary = omega arith;
  word = omega arith;
}

abbrev cancelled : Order
cancelled = record {
  status = 0;
  client_id = 1;
  quantity = 3;
  price = 10;
  stop_price = 0;
  other_id = 0;
  second_direction = 0;
  second_quantity = 0;
  second_price = 0;
  second_id = 0;
  ns = 0;
}

ob_cancel_example :
    IsWithdrawn (one 10 8) small_book (ob_cancel stale_entry cancelled 8 small_book).0
    × ((ob_cancel stale_entry cancelled 8 small_book).1
        ≡ blob_size (ob_cancel stale_entry cancelled 8 small_book).0)
ob_cancel_example =
    ob_cancel_lem stale_entry cancelled 8 small_book bid_level small_book-IsBook refl refl

-- Order 7 at price 10 and order 9 at price 12.
abbrev batch : List ℕ
batch = 42949672967 ∷ 51539607561 ∷ []

ob_expire_example :
    IsWithdrawn (named batch) small_book (ob_expire stale_entry batch small_book).0
    × ((ob_expire stale_entry batch small_book).1
        ≡ blob_size (ob_expire stale_entry batch small_book).0)
ob_expire_example =
    ob_expire_lem stale_entry batch small_book small_book-IsBook
      (omega arith, (omega arith, tt), (omega arith, tt, tt)) (unfold reject in (refl, (refl, tt)))

cancels_hit_example : cancels_hit batch 9 ≡ true
cancels_hit_example = cancels_hit_lem batch 9 ((omega arith, tt), (tt, tt))

fill_remove_example :
    let r = fill_remove bid_level 40 6 max_u32 max_u32 [] in
    Matched bid_level 40 6 max_u32 max_u32 [] r.0 r.1
fill_remove_example = fill_remove_lem bid_level 40 6 max_u32 max_u32 [] small_book-IsBook.sound.0

queue_position_example : queue_position 10 8 small_book ≡ 5
queue_position_example = queue_position_lem 10 8 small_book small_book-IsBook

op_covers_example : op_covers 3 2 4 ≡ true
op_covers_example = op_covers_lem 3 2 4 (omega arith) (omega arith) (omega arith)

copy_span_example :
    IsWriter (copy_span (ask_level ∷ []) start)
    × (map bare (copy_span (ask_level ∷ []) start).levels ≡ bare ask_level ∷ [])
copy_span_example =
    copy_span-Extends 20 (ask_level ∷ []) start (refl, tt) start-IsWriter (omega arith)

-- A limit order to buy five at 11, between the best bid and the best ask.
abbrev bid_between : Order
bid_between = record cancelled { status = 128; quantity = 5; price = 11 }

abbrev order_store : ℕ → Order
order_store id = bid_between

side_range_example :
    is_invalid
      (side_range order_store small_book (side_init order_store small_book 4) none []).op_type
    ≡ false
side_range_example =
    side_range_lem order_store small_book (side_init order_store small_book 4) none []
      small_book-IsBook

asks_above : IsPassive small_book true 11
asks_above zero h k = absurd (omega arith)
asks_above (suc zero) h k = omega arith
asks_above (suc (suc i)) h k = absurd (omega arith)

side_range-passive_example :
    let t = side_range order_store small_book (side_init order_store small_book 4) none [] in
    IsPlace small_book.levels 11 t.op_type t.lui t.hui × (t.fills ≡ []) × (t.remaining ≡ 5)
side_range-passive_example =
    side_range-passive order_store small_book 4 [] small_book-IsBook
      (record { no_replace = refl; no_cancel = refl; limit = refl; rests = refl }) asks_above

at_11-IsGap : IsGap small_book.levels 11 1
at_11-IsGap = record { inside = omega arith; below = below_11; above = above_11 }
  where
    below_11 : (k : ℕ) → k < 1 → price_at small_book.levels k < 11
    below_11 zero h = omega arith
    below_11 (suc k) h = absurd (omega arith)

    above_11 : (k : ℕ) → 1 ≤ k → k < 2 → 11 < price_at small_book.levels k
    above_11 zero h b = absurd (omega arith)
    above_11 (suc zero) h b = omega arith
    above_11 (suc (suc k)) h b = absurd (omega arith)

ob_canrep-new_example :
    (new : Change) × (ob_canrep stale_entry order_store 4 small_book [] ≡ some new)
    × (new.fills ≡ [])
    × IsRested 4 bid_between small_book 1 new
ob_canrep-new_example =
    ob_canrep-new stale_entry order_store 4 small_book [] 1 small_book-IsBook
      (record { no_replace = refl; no_cancel = refl; limit = refl; rests = refl }) asks_above
      at_11-IsGap (omega arith) (omega arith) (omega arith) (omega arith)

-- A limit order to buy five at the best bid.
abbrev bid_at_best : Order
bid_at_best = record bid_between { price = 10 }

asks_above_best : IsPassive small_book true 10
asks_above_best zero h k = absurd (omega arith)
asks_above_best (suc zero) h k = omega arith
asks_above_best (suc (suc i)) h k = absurd (omega arith)

ob_canrep-append_example :
    (new : Change) × (ob_canrep stale_entry (λ id. bid_at_best) 4 small_book [] ≡ some new)
    × (new.fills ≡ [])
    × IsJoined 4 bid_at_best small_book 0 new
ob_canrep-append_example =
    ob_canrep-append stale_entry (λ id. bid_at_best) 4 small_book [] 0 small_book-IsBook
      (record { no_replace = refl; no_cancel = refl; limit = refl; rests = refl }) asks_above_best
      (omega arith) refl (omega arith) (omega arith) (omega arith) (omega arith)
