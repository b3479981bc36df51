-- ===== src/Scheduler/Slow.antt =====
-- Slow events: kept in whole seconds, and moved to the wheel when they come within its reach.
use tiltyard.Base.{
  ℕ, ◌+◌, ◌-◌, ◌*◌, ◌/◌, ◌%◌, ◌^◌, ◌≤◌, ◌<◌, ◌≡◌, ◌⊎◌, refl, Bool, true, false, some, u64, max_u64,
  ltb, leb, if◌then◌else◌, arith,
}
use tiltyard.Event.{s_to_ns, rand_next, event_type, event_param}
use tiltyard.MinQueue.Order.{IsQueue}
use tiltyard.MinQueue.Push.{Pushed, push_lem}
use tiltyard.Memory.{cell}
use tiltyard.Scheduler.{Scheduler, now_ns, schedule_slow, is_exact, migrated}

-- What `sch_schedule_slow` makes of the scheduler: the slow queue has the event once more, at a
-- second that is not before its time and less than a second after it.
pub record Slowed (sch : Scheduler) (time event : ℕ) (sch' : Scheduler) : Type 0 where
  pub second : ℕ
  pub not_early : time ≤ second * s_to_ns
  pub soon : second * s_to_ns < time + s_to_ns
  pub queue : Pushed sch.slow_bucket (second * 2 ^ 32 + event % 2 ^ 32) sch'.slow_bucket
  pub clock : now_ns sch' ≡ now_ns sch

-- `sch_schedule_slow` of a time before the second 2 ^ 32 - 1, where the slow queue has room: the event
-- is queued for a whole second, never early and less than one second late.
pub schedule_slow_lem :
    (junk : ℕ → ℕ) (sch : Scheduler) (event delta_ns : ℕ)
    → now_ns sch + delta_ns < 4294967295000000000
    → IsQueue sch.slow_bucket
    → cell sch.slow_bucket.heap 0 ≤ 536870912
    → (sch' : Scheduler) × (schedule_slow junk sch event delta_ns ≡ some sch')
      × Slowed sch (now_ns sch + delta_ns) event sch'
unfolding schedule_slow
schedule_slow_lem junk sch event delta_ns h q b =
    let time = now_ns sch + delta_ns in
    let second = (time + s_to_ns - 1) / s_to_ns in
    let fits : ltb (max_u64 - now_ns sch) delta_ns ≡ false = ground arith in
    let absolute : u64 (u64 time + s_to_ns - 1) ≡ time + s_to_ns - 1 = omega arith in
    let word : u64 (second * 2 ^ 32) ≡ second * 2 ^ 32 = omega arith in
    let (pq, e, p) = push_lem junk sch.slow_bucket (second * 2 ^ 32 + event % 2 ^ 32) q b in
    (
      record sch { slow_bucket = pq },
      rw (fits, absolute, word, e),
      record {
        second = second;
        not_early = omega arith;
        soon = omega arith;
        queue = p;
        clock = unfold now_ns in refl;
      },
    )

moved :
    (current_time second r : ℕ) (exact : Bool)
    → current_time < second
    → second < 9223372036854775808
    → let jittered = if exact then u64 second else u64 (u64 second + r % 2 ^ 32 / 2 ^ 3) in
      let time = if leb jittered current_time then u64 (current_time + 1) else jittered in
      (second ≤ time) × (time < second + 536870912) × ((exact ≡ false) ⊎ (time ≡ second))
moved current_time second r true c h = ground arith
moved current_time second r false c h = ground arith

-- The bells have the five greatest of the 32-bit event words.
exact_iff : (event : ℕ) → is_exact event ≡ leb (2 ^ 32 - 5) (event % 2 ^ 32)
unfolding is_exact event_type event_param
exact_iff event = ground arith

-- A slow event that is moved to the wheel before its second has come, the second before 2 ^ 63 ns: it
-- is not moved to before that second and to less than 2 ^ 29 ns after it, so it lies after the current
-- time. The session bells, which are the five greatest of the 32-bit event words, keep exactly their
-- second and leave the random numbers as they were; every other event takes the next random number.
pub migrated_lem :
    (current_time rand event : ℕ)
    → current_time < event / 2 ^ 32 * s_to_ns
    → event / 2 ^ 32 * s_to_ns < 9223372036854775808
    → let second = event / 2 ^ 32 * s_to_ns in
      let bell = leb (2 ^ 32 - 5) (event % 2 ^ 32) in
      let time = (migrated current_time rand event).0 in
      (second ≤ time)
      × (time < second + 536870912)
      × ((bell ≡ false) ⊎ (time ≡ second))
      × ((migrated current_time rand event).1 ≡ (if bell then rand else rand_next rand))
unfolding migrated
migrated_lem current_time rand event c h =
    let bell = leb (2 ^ 32 - 5) (event % 2 ^ 32) in
    let (from, to, kept) =
      moved current_time (event / 2 ^ 32 * s_to_ns) (rand_next rand) bell c h in
    rw (exact_iff event) (from, to, kept, refl)
