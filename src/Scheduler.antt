-- ===== src/Scheduler.antt =====
-- src/sch.c and include/sch.h: the event scheduler, a wheel of 64 queues for the near future and a
-- queue of seconds for the rest.
pub mod Schedule
pub mod Earliest
pub mod Slow
use tiltyard.Base.{
  ℕ, zero, suc, ◌+◌, ◌-◌, ◌*◌, ◌/◌, ◌%◌, ◌^◌, Bool, true, false, ◌&&◌, ◌||◌, not, List, [], ◌∷◌,
  Option, none, some, get_or, u64, max_u64, ltb, leb, ◌==◌, if◌then◌else◌, ◌>>=◌,
}
use tiltyard.Memory.{set}
use tiltyard.Event.{
  s_to_ns, control_type, control_param_auction_freeze, control_param_slow, rand_next, event_type,
  event_param,
}
use tiltyard.MinQueue.{MinQueue, init as empty_queue, push, peek, pop, is_empty}

-- `P_SPAN`: `P_BITS` and `E_BITS` are both 32.
abbrev pub p_span : ℕ
p_span = 4294967296

-- `SCH_BUCKETS`
abbrev pub sch_buckets : ℕ
sch_buckets = 64

-- `SCH`; the generator that it shares with the server is its state.
pub record Scheduler : Type 0 where
  pub now : ℕ
  pub current_bucket : ℕ
  pub buckets : List MinQueue
  pub slow_bucket : MinQueue
  pub rand : ℕ

abbrev pub no_queue : MinQueue
no_queue = record { current = 1; heap = [] }

-- `sch->buckets[bucket & BUCKET_MASK]`
abbrev pub bucket_at : Scheduler → ℕ → MinQueue
bucket_at sch bucket = get_or sch.buckets (bucket % sch_buckets) no_queue

unfoldable pub repeat : ℕ → MinQueue → List MinQueue
repeat zero pq = []
repeat (suc n) pq = pq ∷ repeat n pq

-- `sch_init`
unfoldable pub init : (ℕ → ℕ) → ℕ → Scheduler
unfolding repeat
init junk rand = record {
  now = 0;
  current_bucket = 0;
  buckets = repeat sch_buckets (empty_queue junk);
  slow_bucket = empty_queue junk;
  rand = rand;
}

-- `sch_now_ns`
unfoldable pub now_ns : Scheduler → ℕ
now_ns sch = u64 (u64 (sch.current_bucket * p_span) + sch.now)

-- A push to a bucket of the wheel.
unfoldable pub push_bucket : (ℕ → ℕ) → Scheduler → ℕ → ℕ → Option Scheduler
push_bucket junk sch bucket event = push junk (get_or sch.buckets bucket no_queue) event >>= λ pq.
    some (record sch { buckets = set sch.buckets bucket pq })

-- `sch_schedule_slow`; `none` is the `exit(1)`. The sum of seconds is rounded up.
unfoldable pub schedule_slow : (ℕ → ℕ) → Scheduler → ℕ → ℕ → Option Scheduler
unfolding now_ns
schedule_slow junk sch event delta_ns =
    let absolute_s = u64 (u64 (now_ns sch + delta_ns) + s_to_ns - 1) / s_to_ns in
    let scheduled_event = u64 (absolute_s * 2 ^ 32) + event % 2 ^ 32 in
    if ltb (max_u64 - now_ns sch) delta_ns
    then none
    else (push junk sch.slow_bucket scheduled_event >>= λ pq.
        some (record sch { slow_bucket = pq }))

-- `sch_schedule`
unfoldable pub schedule : (ℕ → ℕ) → Scheduler → ℕ → ℕ → Option Scheduler
unfolding schedule_slow push_bucket
schedule junk sch event delta_ns =
    let sum = u64 (sch.now + delta_ns) in
    let resulting_bucket = u64 (sch.current_bucket + sum / p_span) % sch_buckets in
    let scheduled_event = u64 (sum * 2 ^ 32) + event % 2 ^ 32 in
    if ltb (p_span * (sch_buckets - 1)) delta_ns
    then schedule_slow junk sch event delta_ns
    else push_bucket junk sch resulting_bucket scheduled_event

-- The do-while loop of `sch_pop`. Round the wheel once on fuel; with every bucket empty the code would
-- go round for ever, and this is `none`.
unfoldable pub advance : ℕ → Scheduler → Option Scheduler
advance zero sch = none
advance (suc fuel) sch =
    let sch' = record sch { current_bucket = u64 (sch.current_bucket + 1) } in
    elim (is_empty (bucket_at sch' sch'.current_bucket)) [
      | true ↦ advance fuel sch'
      | false ↦ some sch'
    ]

-- The session bells, which get no jitter.
unfoldable pub is_exact : ℕ → Bool
is_exact event =
    (event_type event == control_type) && leb control_param_auction_freeze (event_param event)

-- The time that a slow event is moved to, and the generator's next state.
unfoldable pub migrated : ℕ → ℕ → ℕ → ℕ × ℕ
unfolding is_exact
migrated current_time rand event =
    let exact = u64 (event / 2 ^ 32 * s_to_ns) in
    let next = rand_next rand in
    let jittered = if is_exact event then exact else u64 (exact + next % 2 ^ 32 / 2 ^ 3) in
    (
      if leb jittered current_time then u64 (current_time + 1) else jittered,
      if is_exact event then rand else next,
    )

-- The loop of the slow check, on fuel: the number of slow events.
unfoldable pub pump : ℕ → (ℕ → ℕ) → ℕ → ℕ → Scheduler → Option Scheduler
unfolding migrated push_bucket
pump zero junk current_time latest_threshold sch = some sch
pump (suc fuel) junk current_time latest_threshold sch =
    elim (is_empty sch.slow_bucket || ltb latest_threshold (peek sch.slow_bucket / 2 ^ 32)) [
      | true ↦ some sch
      | false ↦
          let popped = pop sch.slow_bucket in
          let at = migrated current_time sch.rand popped.0 in
          push_bucket junk (record sch { slow_bucket = popped.1; rand = at.1 })
            (at.0 / p_span % sch_buckets) (at.0 % p_span * 2 ^ 32 + popped.0 % 2 ^ 32)
          >>= pump fuel junk current_time latest_threshold
    ]

-- `sch_pop` up to the pop itself: the first bucket with an event, and the least of its events.
unfoldable pub next_event : Scheduler → Option (ℕ × Scheduler)
unfolding advance
next_event sch =
    let found =
      if is_empty (bucket_at sch sch.current_bucket) then advance sch_buckets sch else some sch in
    found >>= λ sch'.
    let popped = pop (bucket_at sch' sch'.current_bucket) in
    some (
      popped.0,
      record sch' {
        buckets = set sch'.buckets (sch'.current_bucket % sch_buckets) popped.1;
        now = popped.0 / 2 ^ 32;
      },
    )

-- The slow check: move what is due within 62 spans to the wheel, and schedule the next check.
unfoldable pub slow_check : (ℕ → ℕ) → ℕ → Scheduler → Option Scheduler
unfolding pump schedule
slow_check junk next sch =
    let current_time = u64 (u64 (sch.current_bucket * p_span) + next / 2 ^ 32) in
    let max_delta = p_span * (sch_buckets - 2) in
    let latest_threshold = u64 (current_time + max_delta) / s_to_ns in
    pump sch.slow_bucket.current junk current_time latest_threshold sch >>= λ sch'.
    schedule junk sch' next max_delta

-- `sch_pop`
unfoldable pub sch_pop : (ℕ → ℕ) → Scheduler → Option (ℕ × Scheduler)
unfolding next_event slow_check
sch_pop junk sch = next_event sch >>= λ popped.
    if popped.0 % 2 ^ 32 == control_type * 2 ^ 30 + control_param_slow
    then (slow_check junk popped.0 popped.1 >>= λ sch'. some (popped.0, sch'))
    else some popped
