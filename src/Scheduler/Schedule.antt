-- ===== src/Scheduler/Schedule.antt =====
-- `sch_schedule` puts an event where its time is found again.
use tiltyard.Base.{
  ℕ, ◌+◌, ◌-◌, ◌*◌, ◌/◌, ◌%◌, ◌^◌, ◌≤◌, ◌<◌, ◌≡◌, ◌≢◌, refl, ◌∙◌, false, length, some, get_or, u64,
  ltb, arith,
}
use tiltyard.Memory.{set, cell, get_or-set}
use tiltyard.MinQueue.Order.{IsQueue}
use tiltyard.MinQueue.Push.{Pushed, push_lem}
use tiltyard.Scheduler.{
  Scheduler, p_span, sch_buckets, no_queue, bucket_at, now_ns, push_bucket, schedule,
}

-- A clock with 64 spans left, `now` within the current span.
pub record IsClock (sch : Scheduler) : Type 0 where
  pub within : sch.now < p_span
  pub left : sch.current_bucket + 64 < p_span
  pub wheel : length sch.buckets ≡ sch_buckets

pub now_ns_lem :
    (sch : Scheduler) → IsClock sch → now_ns sch ≡ sch.current_bucket * p_span + sch.now
unfolding now_ns
now_ns_lem sch c = omega (arith, c.within, c.left)

-- The word that a bucket keeps of an event at a time: the offset in the span over the event.
abbrev pub stored : ℕ → ℕ → ℕ
stored time event = time % p_span * 2 ^ 32 + event % 2 ^ 32

schedule-fast :
    (junk : ℕ → ℕ) (sch : Scheduler) (event delta_ns : ℕ)
    → IsClock sch
    → delta_ns ≤ p_span * 63
    → let time = now_ns sch + delta_ns in
      schedule junk sch event delta_ns
      ≡ push_bucket junk sch (time / p_span % sch_buckets) (stored time event)
unfolding schedule
schedule-fast junk sch event delta_ns c d =
    let n = now_ns_lem sch c in
    let sum : u64 (sch.now + delta_ns) ≡ sch.now + delta_ns = omega (arith, c.within) in
    let span : (now_ns sch + delta_ns) / p_span
        ≡ sch.current_bucket + (sch.now + delta_ns) / p_span =
      omega (arith, n) in
    let bucket : u64 (sch.current_bucket + (sch.now + delta_ns) / p_span)
        ≡ sch.current_bucket + (sch.now + delta_ns) / p_span =
      omega (arith, c.within, c.left) in
    let word : u64 ((sch.now + delta_ns) * 2 ^ 32) ≡ (now_ns sch + delta_ns) % p_span * 2 ^ 32 =
      omega (arith, n) in
    let fast : ltb (p_span * (sch_buckets - 1)) delta_ns ≡ false = ground arith in
    rw (fast, sum, bucket, word, span)

-- What `sch_schedule` makes of the wheel: the bucket of the event's time has the event once more,
-- with the rest of the time, and nothing else changes.
pub record Scheduled (sch : Scheduler) (time event : ℕ) (sch' : Scheduler) : Type 0 where
  pub ahead : time / p_span - sch.current_bucket < sch_buckets
  pub bucket :
      Pushed (bucket_at sch (time / p_span)) (stored time event) (bucket_at sch' (time / p_span))
  pub others :
      (b : ℕ) → b % sch_buckets ≢ time / p_span % sch_buckets → bucket_at sch' b ≡ bucket_at sch b
  pub clock : now_ns sch' ≡ now_ns sch
  pub slow : sch'.slow_bucket ≡ sch.slow_bucket

-- `sch_schedule` of a delay within 63 spans, on a clock with 64 spans left and a bucket with room: the
-- event goes to the bucket of its absolute time, less than one turn of the wheel ahead, with the
-- offset of that time in its span, and no other queue changes.
pub schedule_lem :
    (junk : ℕ → ℕ) (sch : Scheduler) (event delta_ns : ℕ)
    → IsClock sch
    → delta_ns ≤ p_span * 63
    → let time = now_ns sch + delta_ns in
      IsQueue (bucket_at sch (time / p_span))
      → cell (bucket_at sch (time / p_span)).heap 0 ≤ 536870912
      → (sch' : Scheduler) × (schedule junk sch event delta_ns ≡ some sch')
        × Scheduled sch time event sch'
schedule_lem junk sch event delta_ns c d q b =
    let time = now_ns sch + delta_ns in
    let i = time / p_span % sch_buckets in
    let (pq, e, p) = push_lem junk (bucket_at sch (time / p_span)) (stored time event) q b in
    let at = λ (j : ℕ). get_or-set sch.buckets i j pq no_queue (omega (arith, c.wheel)) in
    let here : get_or (set sch.buckets i pq) i no_queue ≡ pq = ground (arith, at i) in
    (
      record sch { buckets = set sch.buckets i pq },
      schedule-fast junk sch event delta_ns c d ∙ (unfold push_bucket in rw e),
      record {
        ahead = omega (arith, c.within, now_ns_lem sch c);
        bucket = rw here p;
        others = λ j n. ground (arith, at (j % sch_buckets));
        clock = unfold now_ns in refl;
        slow = refl;
      },
    )
