-- ===== src/Scheduler/Earliest.antt =====
-- `sch_pop` finds the earliest event of the wheel.
use tiltyard.Base.{
  ℕ, zero, suc, ◌+◌, ◌*◌, ◌/◌, ◌%◌, ◌^◌, ◌≤◌, ◌<◌, ◌≡◌, ◌≢◌, refl, sym, ap, ◌∙◌, true, false,
  Option, some, get_or, u64, ltb, leb, ◌==◌, if◌then◌else◌, arith, Bool-cases, inl, inr, ==_iff,
}
use tiltyard.Memory.{set, cell, get_or-set}
use tiltyard.MinQueue.{MinQueue, pop, is_empty}
use tiltyard.MinQueue.Order.{IsQueue}
use tiltyard.MinQueue.Least.{Popped, pop_lem}
use tiltyard.Scheduler.{
  Scheduler, p_span, sch_buckets, no_queue, bucket_at, now_ns, advance, next_event,
}
use tiltyard.Scheduler.Schedule.{IsClock, now_ns_lem}

-- The scheduler with the clock `d` buckets on.
abbrev pub ahead : Scheduler → ℕ → Scheduler
ahead sch d = record sch { current_bucket = sch.current_bucket + d }

-- The first bucket with an event, `d` ahead of the current one.
pub record IsFirst (sch : Scheduler) (d : ℕ) : Type 0 where
  pub near : d < sch_buckets
  pub before : (k : ℕ) → k < d → is_empty (bucket_at sch (sch.current_bucket + k)) ≡ true
  pub found : is_empty (bucket_at sch (sch.current_bucket + d)) ≡ false

advance-step :
    (fuel d : ℕ) (sch : Scheduler)
    → sch.current_bucket + suc d < 18446744073709551616
    → advance (suc fuel) (ahead sch d) ≡ (
        if is_empty (bucket_at sch (sch.current_bucket + suc d))
        then advance fuel (ahead sch (suc d))
        else some (ahead sch (suc d)))
unfolding advance
advance-step fuel d sch h = go ∙ ap after (omega arith)
  where
    after : ℕ → Option Scheduler
    after n =
        if is_empty (bucket_at sch n)
        then advance fuel (record sch { current_bucket = n })
        else some (record sch { current_bucket = n })

    go : advance (suc fuel) (ahead sch d) ≡ after (u64 (sch.current_bucket + d + 1))
    go = ground arith

advance_from :
    (fuel d k : ℕ) (sch : Scheduler)
    → sch.current_bucket + 64 < p_span
    → d + fuel ≤ 64
    → d < k
    → k < sch_buckets
    → k ≤ d + fuel
    → ((j : ℕ) → j < suc d → is_empty (bucket_at sch (sch.current_bucket + j)) ≡ true)
    → is_empty (bucket_at sch (sch.current_bucket + k)) ≡ false
    → (e : ℕ) × (advance fuel (ahead sch d) ≡ some (ahead sch e)) × IsFirst sch e
advance_from zero d k sch c f l s m before found = absurd (omega arith)
advance_from (suc fuel) d k sch c f l s m before found =
    let step = advance-step fuel d sch (omega arith) in
    elim (Bool-cases (is_empty (bucket_at sch (sch.current_bucket + suc d)))) [
      | inl y ↦
          let here : k ≢ suc d = λ x. cc in
          let (e, r, v) =
            advance_from fuel (suc d) k sch c (omega arith) (omega (arith, here)) s (omega arith)
              (λ j p. elim (Bool-cases (j == suc d)) [
                | inl t ↦ rw ((==_iff j (suc d)).0 t) y
                | inr t ↦ before j (ground arith)
              ])
              found in
          (e, step ∙ rw y r, v)
      | inr n ↦ (
        suc d,
        step ∙ rw n refl,
        record { near = omega arith; before = λ j p. before j p; found = n },
      )
    ]

-- Some bucket of the wheel has an event.
abbrev pub HasEvent : Scheduler → Type 0
HasEvent sch =
    (k : ℕ) × (k < sch_buckets) × (is_empty (bucket_at sch (sch.current_bucket + k)) ≡ false)

-- The bucket that `sch_pop` pops.
find_lem :
    (sch : Scheduler)
    → sch.current_bucket + 64 < p_span
    → HasEvent sch
    → (d : ℕ) × ((if is_empty (bucket_at sch sch.current_bucket)
          then advance sch_buckets sch
          else some sch)
        ≡ some (ahead sch d))
      × IsFirst sch d
find_lem sch c (k, s, found) =
    let here : sch.current_bucket + 0 ≡ sch.current_bucket = omega arith in
    let same : ahead sch 0 ≡ sch = ap (λ (n : ℕ). record sch { current_bucket = n }) here in
    elim (Bool-cases (is_empty (bucket_at sch sch.current_bucket))) [
      | inl y ↦
          let first : is_empty (bucket_at sch (sch.current_bucket + 0)) ≡ true = rw here y in
          let later : k ≢ 0 = λ x. cc in
          let before : (j : ℕ) → j < 1 → is_empty (bucket_at sch (sch.current_bucket + j)) ≡ true =
            λ j p. let z : j ≡ 0 = omega arith in rw z first in
          let (e, r, v) =
            advance_from 64 0 k sch c (omega arith) (omega (arith, later)) s (omega arith) before
              found in
          (e, rw y (ap (advance 64) (sym same) ∙ r), v)
      | inr n ↦ (
        0,
        rw n (ap some (sym same)),
        record { near = omega arith; before = λ j p. absurd (omega arith); found = rw here n },
      )
    ]

-- A wheel of valid queues of 64-bit events, the ones of the current bucket not before now.
pub record IsWheel (sch : Scheduler) : Type 0 where
  pub clock : IsClock sch
  pub queues : (k : ℕ) → k < sch_buckets → IsQueue (bucket_at sch (sch.current_bucket + k))
  pub words :
      (k i : ℕ)
      → k < sch_buckets
      → 0 < i
      → i < (bucket_at sch (sch.current_bucket + k)).current
      → cell (bucket_at sch (sch.current_bucket + k)).heap i < 18446744073709551616
  pub not_late :
      (i : ℕ)
      → 0 < i
      → i < (bucket_at sch (sch.current_bucket + 0)).current
      → sch.now ≤ cell (bucket_at sch (sch.current_bucket + 0)).heap i / 2 ^ 32

-- What `sch_pop` finds: the event `next`, `steps` buckets ahead, is out of its queue; its time is the
-- new now, which is not before the old one, and no event of the wheel is earlier.
pub record Found (sch : Scheduler) (next steps : ℕ) (sch' : Scheduler) : Type 0 where
  pub first : IsFirst sch steps
  pub time : now_ns sch' ≡ (sch.current_bucket + steps) * p_span + next / 2 ^ 32
  pub taken :
      Popped
        (bucket_at sch (sch.current_bucket + steps))
        next
        (bucket_at sch' (sch.current_bucket + steps))
  pub others :
      (b : ℕ)
      → b % sch_buckets ≢ (sch.current_bucket + steps) % sch_buckets
      → bucket_at sch' b ≡ bucket_at sch b
  pub forward : now_ns sch ≤ now_ns sch'
  pub earliest :
      (k i : ℕ)
      → k < sch_buckets
      → 0 < i
      → i < (bucket_at sch (sch.current_bucket + k)).current
      → now_ns sch'
        ≤ (sch.current_bucket + k) * p_span
          + cell (bucket_at sch (sch.current_bucket + k)).heap i / 2 ^ 32

pop-root : (q : MinQueue) → q.current ≢ 1 → (pop q).0 ≡ cell q.heap 1
unfolding pop
pop-root q n = ground arith

nonempty : (q : MinQueue) → IsQueue q → is_empty q ≡ false → 1 < q.current
unfolding is_empty
nonempty q v n = ground (arith, v.positive)

empty : (q : MinQueue) → is_empty q ≡ true → q.current ≡ 1
unfolding is_empty
empty q n = ground arith

-- Entry `i` of the queue `k` buckets ahead.
abbrev entry_at : Scheduler → ℕ → ℕ → ℕ
entry_at sch k i = cell (bucket_at sch (sch.current_bucket + k)).heap i

root_not_late :
    (sch : Scheduler) (d : ℕ)
    → IsWheel sch
    → 1 < (bucket_at sch (sch.current_bucket + d)).current
    → d ≡ 0
    → sch.now ≤ entry_at sch d 1 / 2 ^ 32
root_not_late sch zero w h e = w.not_late 1 (omega arith) h
root_not_late sch (suc d) w h e = absurd (omega arith)

-- The entries ahead: none in a bucket before, none less in the bucket found.
entry_not_less :
    (sch : Scheduler) (d k i least : ℕ)
    → IsFirst sch d
    → k ≤ d
    → 0 < i
    → i < (bucket_at sch (sch.current_bucket + k)).current
    → ((j : ℕ)
        → 0 < j
        → j < (bucket_at sch (sch.current_bucket + d)).current
        → least ≤ entry_at sch d j)
    → (k ≡ d) × (least ≤ entry_at sch k i)
entry_not_less sch d k i least f l p h least_at = elim (Bool-cases (ltb k d)) [
  | inl y ↦
      absurd
        (omega (arith, empty (bucket_at sch (sch.current_bucket + k)) (f.before k (ground arith))))
  | inr n ↦ let e : k ≡ d = ground arith in (e, rw e (least_at i p (rw e at h)))
]

found_lem :
    (sch : Scheduler) (d : ℕ)
    → IsWheel sch
    → IsFirst sch d
    → let q = bucket_at sch (sch.current_bucket + d) in
      Found sch (pop q).0 d (record sch {
        current_bucket = sch.current_bucket + d;
        buckets = set sch.buckets ((sch.current_bucket + d) % sch_buckets) (pop q).1;
        now = (pop q).0 / 2 ^ 32;
      })
found_lem sch d w f =
    let b = sch.current_bucket + d in
    let q = bucket_at sch b in
    let some_left = nonempty q (w.queues d f.near) f.found in
    let p = pop_lem q (w.queues d f.near) some_left in
    let root = pop-root q (omega arith) in
    let word = w.words d 1 f.near (omega arith) some_left in
    let sch' = record sch {
      current_bucket = b;
      buckets = set sch.buckets (b % sch_buckets) (pop q).1;
      now = (pop q).0 / 2 ^ 32;
    } in
    let at = λ (j : ℕ).
      get_or-set sch.buckets (b % sch_buckets) j (pop q).1 no_queue
        (omega (arith, w.clock.wheel)) in
    let here : get_or sch'.buckets (b % sch_buckets) no_queue ≡ (pop q).1 =
      ground (arith, at (b % sch_buckets)) in
    let time : now_ns sch' ≡ b * p_span + (pop q).0 / 2 ^ 32 =
      unfold now_ns in omega (arith, w.clock.left, f.near, root, word) in
    let start = now_ns_lem sch w.clock in
    record {
      first = f;
      time = time;
      taken = rw here p;
      others = λ j n. ground (arith, at (j % sch_buckets));
      forward = elim (Bool-cases (d == 0)) [
        | inl y ↦
            omega (arith, start, time, root, root_not_late sch d w some_left ((==_iff d 0).0 y))
        | inr n ↦
            let later : d ≢ 0 = ground arith in omega (arith, start, time, later, w.clock.within)
      ];
      earliest = λ k i s r t. elim (Bool-cases (leb k d)) [
        | inl y ↦
            let l = entry_not_less sch d k i (pop q).0 f (ground arith) r t p.is_least in
            omega (arith, time, l)
        | inr n ↦ let later : d < k = ground arith in omega (arith, time, later, root, word)
      ];
    }

-- `sch_pop` on a wheel of valid queues with an event in it, on a clock with 64 spans left: it finds an
-- event; the event's time becomes the time of the clock, which does not go back, no event in any of
-- the 64 buckets is earlier, and the event is out of its queue while the others are left.
pub next_event_lem :
    (sch : Scheduler)
    → IsWheel sch
    → HasEvent sch
    → (next : ℕ) × (steps : ℕ) × (sch' : Scheduler) × (next_event sch ≡ some (next, sch'))
      × Found sch next steps sch'
unfolding next_event
next_event_lem sch w some_event =
    let (d, e, f) = find_lem sch w.clock.left some_event in
    (_, d, _, rw e refl, found_lem sch d w f)
