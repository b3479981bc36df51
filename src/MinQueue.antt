-- ===== src/MinQueue.antt =====
-- src/pq.c and include/pq.h: the 4-ary min-heap of 64-bit events. Cell 0 holds the capacity, and the
-- entries stand in cells 1 to `current - 1`.
pub mod Order
pub mod Push
pub mod Pop
pub mod Least
use tiltyard.Base.{
  ℕ, zero, suc, ◌+◌, ◌-◌, ◌*◌, ◌/◌, ◌%◌, Bool, true, false, List, [], ◌∷◌, ◌++◌, Option, none, some,
  take, max_u32, u32, u64, ltb, leb, ◌==◌, if◌then◌else◌,
}
use tiltyard.Memory.{set, cell, junk_from}

-- `INITIAL_CAPACITY`
abbrev pub initial_capacity : ℕ
initial_capacity = 1024

-- `PQ`
pub record MinQueue : Type 0 where
  pub current : ℕ
  pub heap : List ℕ

-- `pq_init`; `junk` is what the block held.
unfoldable pub init : (ℕ → ℕ) → MinQueue
unfolding junk_from
init junk = record {
  current = 1;
  heap = set (junk_from junk 0 initial_capacity) 0 initial_capacity;
}

-- The parent of position `j`, and its first child.
abbrev pub parent : ℕ → ℕ
parent j = (j - 2) / 4 + 1

abbrev pub first_child : ℕ → ℕ
first_child i = u32 (i * 4 + 4294967294)

-- The loop of `pq_push`: move parents down until the event fits. The fuel is `run` at the start.
unfoldable pub sift_up : ℕ → List ℕ → ℕ → ℕ → List ℕ
sift_up zero heap run event = set heap run event
sift_up (suc fuel) heap run event = elim (ltb 1 run) [
  | false ↦ set heap run event
  | true ↦ elim (leb (cell heap (parent run)) event) [
    | true ↦ set heap run event
    | false ↦ sift_up fuel (set heap run (cell heap (parent run))) (parent run) event
  ]
]

-- The block with twice the capacity.
unfoldable pub grown : (ℕ → ℕ) → List ℕ → List ℕ
unfolding junk_from
grown junk heap =
    let capacity = cell heap 0 in
    set (take capacity heap ++ junk_from junk capacity capacity) 0 (u64 (capacity * 2))

-- `pq_push`; `none` is the `exit(1)` at the largest count.
unfoldable pub push : (ℕ → ℕ) → MinQueue → ℕ → Option MinQueue
unfolding grown sift_up
push junk pq event =
    let heap = if pq.current == cell pq.heap 0 then grown junk pq.heap else pq.heap in
    if pq.current == max_u32
    then none
    else some
        (record { heap = sift_up pq.current heap pq.current event; current = u32 (pq.current + 1) })

-- `pq_peek`
unfoldable pub peek : MinQueue → ℕ
peek pq = cell pq.heap 1

-- The least of the children `k`, …, `end - 1` and the best so far.
unfoldable pub best_child : ℕ → List ℕ → ℕ → ℕ → ℕ
best_child zero heap k best = best
best_child (suc left) heap k best =
    best_child left heap (suc k) (if ltb (cell heap k) (cell heap best) then k else best)

-- The loop of `pq_pop`: move the least child up until the last entry fits.
unfoldable pub sift_down : ℕ → List ℕ → ℕ → ℕ → ℕ → List ℕ
unfolding best_child
sift_down zero heap current run last = heap
sift_down (suc fuel) heap current run last =
    let first = first_child run in
    elim (leb current first) [
      | true ↦ set heap run last
      | false ↦
          let end = if ltb current (u32 (first + 4)) then current else u32 (first + 4) in
          let best = best_child (end - first - 1) heap (suc first) first in
          elim (leb last (cell heap best)) [
            | true ↦ set heap run last
            | false ↦ sift_down fuel (set heap run (cell heap best)) current best last
          ]
    ]

-- `pq_pop`: the least event, or 0 where there is none. The fuel is the number of entries left.
unfoldable pub pop : MinQueue → ℕ × MinQueue
unfolding sift_down
pop pq =
    let current = pq.current - 1 in
    if pq.current == 1 then (0, pq) else (
      cell pq.heap 1,
      record {
        current = current;
        heap = sift_down (suc current) (set pq.heap current 0) current 1 (cell pq.heap current);
      },
    )

-- `pq_is_empty`
unfoldable pub is_empty : MinQueue → Bool
is_empty pq = pq.current == 1
