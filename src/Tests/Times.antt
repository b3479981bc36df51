-- ===== src/Tests/Times.antt =====
-- A scheduler whose buckets all have the same three events, and the derived views of a book.
use tiltyard.Base.{
  ℕ, zero, suc, ◌+◌, ◌*◌, ◌/◌, ◌%◌, ◌^◌, ◌≤◌, ◌<◌, ◌≡◌, ◌⊎◌, refl, true, false, [], ◌∷◌, some,
  length, get_or, arith,
}
use tiltyard.Memory.{cell}
use tiltyard.MinQueue.{MinQueue, is_empty}
use tiltyard.Event.{
  build_event, event_type, event_param, calculate_jitter, s_to_ns, day_to_ns, build_event_lem,
  calculate_jitter_lem,
}
use tiltyard.Calendar.{delay_to_next_month, is_month_start, delay_to_next_month_lem}
use tiltyard.Scheduler.{
  Scheduler, p_span, no_queue, bucket_at, now_ns, repeat, schedule, schedule_slow, migrated,
  next_event,
}
use tiltyard.Scheduler.Schedule.{IsClock, Scheduled, schedule_lem}
use tiltyard.Scheduler.Earliest.{IsWheel, HasEvent, Found, next_event_lem}
use tiltyard.Scheduler.Slow.{Slowed, schedule_slow_lem, migrated_lem}
use tiltyard.Feed.{PriceBook, Feed, Slot, no_slot, squash, window, slot_at, mbp_derive}
use tiltyard.Feed.InStep.{InStep, mbp_derive_lem}
use tiltyard.Feed.Slots.{slot_at_lem, slot_at-no_bids}
use tiltyard.Tests.Queues.{junk, full_heap, full_heap-IsQueue}
use tiltyard.Tests.Books.{small_book}

get_or-repeat : (n i : ℕ) (q : MinQueue) → i < n → get_or (repeat n q) i no_queue ≡ q
unfolding repeat
get_or-repeat zero i q h = absurd (omega arith)
get_or-repeat (suc n) zero q h = refl
get_or-repeat (suc n) (suc i) q h = get_or-repeat n i q (omega arith)

length-repeat : (n : ℕ) (q : MinQueue) → length (repeat n q) ≡ n
unfolding repeat
length-repeat zero q = refl
length-repeat (suc n) q = omega (arith, length-repeat n q)

abbrev busy : Scheduler
busy = record {
  now = 0;
  current_bucket = 70;
  buckets = repeat 64 full_heap;
  slow_bucket = full_heap;
  rand = 1;
}

bucket-busy : (b : ℕ) → bucket_at busy b ≡ full_heap
bucket-busy b = get_or-repeat 64 (b % 64) full_heap (omega arith)

busy-IsClock : IsClock busy
busy-IsClock = record {
  within = omega arith;
  left = omega arith;
  wheel = length-repeat 64 full_heap;
}

full_heap-words : (i : ℕ) → 0 < i → i < 4 → cell full_heap.heap i < 18446744073709551616
full_heap-words zero p k = absurd (omega arith)
full_heap-words (suc zero) p k = omega arith
full_heap-words (suc (suc zero)) p k = omega arith
full_heap-words (suc (suc (suc zero))) p k = omega arith
full_heap-words (suc (suc (suc (suc i)))) p k = absurd (omega arith)

busy-IsWheel : IsWheel busy
busy-IsWheel = record {
  clock = busy-IsClock;
  queues = λ k s. rw (bucket-busy (70 + k)) full_heap-IsQueue;
  words = λ k i s p. rw (bucket-busy (70 + k)) (full_heap-words i p);
  not_late = λ i p k. omega arith;
}

busy-HasEvent : HasEvent busy
busy-HasEvent = (0, omega arith, rw (bucket-busy 70) (unfold is_empty in refl))

next_event_example :
    (next : ℕ) × (steps : ℕ) × (sch' : Scheduler) × (next_event busy ≡ some (next, sch'))
    × Found busy next steps sch'
next_event_example = next_event_lem busy busy-IsWheel busy-HasEvent

schedule_example :
    (sch' : Scheduler) × (schedule junk busy 77 (5 * p_span) ≡ some sch')
    × Scheduled busy (now_ns busy + 5 * p_span) 77 sch'
schedule_example =
    schedule_lem junk busy 77 (5 * p_span) busy-IsClock (omega arith)
      (rw (bucket-busy ((now_ns busy + 5 * p_span) / p_span)) full_heap-IsQueue)
      (rw (bucket-busy ((now_ns busy + 5 * p_span) / p_span)) (omega arith))

schedule_slow_example :
    (sch' : Scheduler) × (schedule_slow junk busy 77 86400000000001 ≡ some sch')
    × Slowed busy (now_ns busy + 86400000000001) 77 sch'
schedule_slow_example =
    schedule_slow_lem junk busy 77 86400000000001 (unfold now_ns in omega arith) full_heap-IsQueue
      (omega arith)

-- The opening bell at second 52200.
migrated_example :
    let second = 224201587818495 / 2 ^ 32 * s_to_ns in
    let time = (migrated 52000000000000 1 224201587818495).0 in
    (second ≤ time)
    × (time < second + 536870912)
    × ((true ≡ false) ⊎ (time ≡ second))
    × ((migrated 52000000000000 1 224201587818495).1 ≡ 1)
migrated_example = migrated_lem 52000000000000 1 224201587818495 (omega arith) (omega arith)

build_event_example :
    (event_type (build_event 2 41) ≡ 2)
    × (event_param (build_event 2 41) ≡ 41)
    × (build_event 2 41 < 4294967296)
build_event_example = build_event_lem 2 41 (omega arith) (omega arith)

calculate_jitter_example :
    (500000 + 500000 / 128 ≤ (calculate_jitter 500000 88).0)
    × ((calculate_jitter 500000 88).0 ≤ 500000 + 500000 / 128 + 500000 / 32)
calculate_jitter_example = calculate_jitter_lem 500000 88 (omega arith)

delay_to_next_month_example :
    let next = 5000000000000000 + delay_to_next_month 5000000000000000 in
    (5000000000000000 < next)
    × (next ≤ 5000000000000000 + 31 * day_to_ns)
    × (next % day_to_ns ≡ 0)
    × (is_month_start (next / day_to_ns) ≡ true)
    × ((day : ℕ)
        → 5000000000000000 / day_to_ns < day
        → day < next / day_to_ns
        → is_month_start day ≡ false)
delay_to_next_month_example = delay_to_next_month_lem 5000000000000000 (omega arith)

-- Views of the book without orders, in step.
abbrev no_levels : PriceBook
no_levels = record { hi_bid_index = 65535; level_count = 0; levels = [] }

abbrev empty_feed : Feed
empty_feed = record {
  mbp = no_levels;
  mbp10 = window no_levels;
  hi_bid = slot_at no_levels 9;
  lo_ask = slot_at no_levels 10;
}

mbp_derive_example :
    InStep (mbp_derive empty_feed small_book)
    × ((mbp_derive empty_feed small_book).mbp ≡ squash small_book)
mbp_derive_example =
    mbp_derive_lem empty_feed small_book (record { slots = refl; bid_slot = refl; ask_slot = refl })

abbrev two_levels : PriceBook
two_levels = record {
  hi_bid_index = 0;
  level_count = 2;
  levels = record { price = 10; quantity = 8 } ∷ record { price = 12; quantity = 70000 } ∷ [];
}

slot_at_example :
    let ask : Slot = record { price = 12; quantity = 4464 } in
    let bid : Slot = record { price = 10; quantity = 8 } in
    (slot_at two_levels 9 ≡ bid) × (slot_at two_levels 10 ≡ ask)
slot_at_example = slot_at_lem two_levels 0 (omega arith) (omega arith) (omega arith)

abbrev only_asks : PriceBook
only_asks = record {
  hi_bid_index = 65535;
  level_count = 1;
  levels = record { price = 12; quantity = 4 } ∷ [];
}

slot_at-no_bids_example : slot_at only_asks 10 ≡ no_slot
slot_at-no_bids_example = slot_at-no_bids only_asks 10 refl (omega arith)
