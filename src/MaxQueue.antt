-- ===== src/MaxQueue.antt =====
-- src/xpq.c and include/xpq.h: the binary max-heap of 64-bit events. Cell 0 holds the capacity, and
-- the entries stand in cells 1 to `current - 1`.
pub mod Order
pub mod Push
pub mod Pop
pub mod Greatest
use tiltyard.Base.{
  ℕ, zero, suc, ◌+◌, ◌-◌, ◌*◌, ◌/◌, ◌%◌, Bool, true, false, ◌&&◌, List, [], ◌∷◌, ◌++◌, Option, none,
  some, take, max_u32, u32, u64, ltb, leb, ◌==◌, if◌then◌else◌,
}
use tiltyard.Memory.{set, cell, junk_from}

-- `INITIAL_CAPACITY`
abbrev pub initial_capacity : ℕ
initial_capacity = 1024

-- `XPQ`
pub record MaxQueue : Type 0 where
  pub current : ℕ
  pub heap : List ℕ

-- `xpq_init`; `junk` is what the block held.
unfoldable pub init : (ℕ → ℕ) → MaxQueue
unfolding junk_from
init junk = record {
  current = 1;
  heap = set (junk_from junk 0 initial_capacity) 0 initial_capacity;
}

-- The loop of `xpq_push`: move parents down until the event fits. The fuel is `run` at the start.
unfoldable pub sift_up : ℕ → List ℕ → ℕ → ℕ → List ℕ
sift_up zero heap run event = set heap run event
sift_up (suc fuel) heap run event = elim (run == 1) [
  | true ↦ set heap run event
  | false ↦ elim (leb event (cell heap (run / 2))) [
    | true ↦ set heap run event
    | false ↦ sift_up fuel (set heap run (cell heap (run / 2))) (run / 2) event
  ]
]

-- The block with twice the capacity.
unfoldable pub grown : (ℕ → ℕ) → List ℕ → List ℕ
unfolding junk_from
grown junk heap =
    let capacity = cell heap 0 in
    set (take capacity heap ++ junk_from junk capacity capacity) 0 (u64 (capacity * 2))

-- `xpq_push`; `none` is the `exit(1)` at the largest count.
unfoldable pub push : (ℕ → ℕ) → MaxQueue → ℕ → Option MaxQueue
unfolding grown sift_up
push junk xpq event =
    let heap = if xpq.current == cell xpq.heap 0 then grown junk xpq.heap else xpq.heap in
    if xpq.current == max_u32
    then none
    else some (record {
      heap = sift_up xpq.current heap xpq.current event;
      current = u32 (xpq.current + 1);
    })

-- `xpq_peek`
unfoldable pub peek : MaxQueue → ℕ
peek xpq = cell xpq.heap 1

-- The loop of `xpq_pop`: move the greater child up until the last entry fits.
unfoldable pub sift_down : ℕ → List ℕ → ℕ → ℕ → ℕ → List ℕ
sift_down zero heap current run last = heap
sift_down (suc fuel) heap current run last =
    let left = u32 (run * 2) in
    let right = u32 (left + 1) in
    elim (leb current right && leb current left) [
      | true ↦ set heap run last
      | false ↦ elim (leb current right) [
        | true ↦
            if ltb last (cell heap left)
            then set (set heap run (cell heap left)) left last
            else set heap run last
        | false ↦ elim (ltb (cell heap right) last && ltb (cell heap left) last) [
          | true ↦ set heap run last
          | false ↦ elim (leb (cell heap left) (cell heap right)) [
            | true ↦ sift_down fuel (set heap run (cell heap right)) current right last
            | false ↦ sift_down fuel (set heap run (cell heap left)) current left last
          ]
        ]
      ]
    ]

-- `xpq_pop`: the greatest event, or 0 where there is none. The fuel is the number of entries left.
unfoldable pub pop : MaxQueue → ℕ × MaxQueue
unfolding sift_down
pop xpq =
    let current = xpq.current - 1 in
    if xpq.current == 1 then (0, xpq) else (
      cell xpq.heap 1,
      record {
        current = current;
        heap = sift_down (suc current) (set xpq.heap current 0) current 1 (cell xpq.heap current);
      },
    )

-- `xpq_is_empty`
unfoldable pub is_empty : MaxQueue → Bool
is_empty xpq = xpq.current == 1
