-- ===== src/Tests/Queues.antt =====
-- A full min-heap and a full ring that starts in the middle.
use tiltyard.Base.{
  ℕ, zero, suc, ◌+◌, ◌%◌, ◌≤◌, ◌<◌, ◌≡◌, refl, [], ◌∷◌, some, none, get_elem?, get_or, arith,
}
use tiltyard.MinQueue.{MinQueue, parent, push, pop}
use tiltyard.Memory.{cell}
use tiltyard.MinQueue.Order.{IsQueue}
use tiltyard.MinQueue.Push.{Pushed, push_lem}
use tiltyard.MinQueue.Least.{Popped, pop_lem}
use tiltyard.Ring.{CircularBuffer, deque}
use tiltyard.Ring.Queue.{Holds}
use tiltyard.Ring.Front.{deque_lem}

abbrev pub junk : ℕ → ℕ
junk i = i

-- A full block of four cells: the capacity, then 3, 5 and 4.
abbrev pub full_heap : MinQueue
full_heap = record { current = 4; heap = 4 ∷ 3 ∷ 5 ∷ 4 ∷ [] }

full_heap_ordered : (c : ℕ) → 1 < c → c < 4 → cell full_heap.heap (parent c) ≤ cell full_heap.heap c
full_heap_ordered zero p k = absurd (omega arith)
full_heap_ordered (suc zero) p k = absurd (omega arith)
full_heap_ordered (suc (suc zero)) p k = omega arith
full_heap_ordered (suc (suc (suc zero))) p k = omega arith
full_heap_ordered (suc (suc (suc (suc c)))) p k = absurd (omega arith)

pub full_heap-IsQueue : IsQueue full_heap
full_heap-IsQueue = record {
  size = refl;
  positive = omega arith;
  fits = omega arith;
  bound = omega arith;
  heap = full_heap_ordered;
}

push_example : (q' : MinQueue) × (push junk full_heap 1 ≡ some q') × Pushed full_heap 1 q'
push_example = push_lem junk full_heap 1 full_heap-IsQueue (omega arith)

pop_example : Popped full_heap (pop full_heap).0 (pop full_heap).1
pop_example = pop_lem full_heap full_heap-IsQueue (omega arith)

-- Two cells, both taken, the older entry in cell 1.
abbrev full_ring : CircularBuffer ℕ
full_ring = record {
  start = 1;
  end = 1;
  capacity = 2;
  type_size = 4;
  buffer = some 8 ∷ some 7 ∷ [];
}

full_ring_cells :
    (i : ℕ) → i < 2 → get_or full_ring.buffer ((1 + i) % 2) none ≡ get_elem? (7 ∷ 8 ∷ []) i
full_ring_cells zero k = refl
full_ring_cells (suc zero) k = refl
full_ring_cells (suc (suc i)) k = absurd (omega arith)

full_ring-Holds : Holds full_ring (7 ∷ 8 ∷ [])
full_ring-Holds = record {
  size = refl;
  positive = omega arith;
  word = omega arith;
  entry = omega arith;
  bytes = omega arith;
  fits = omega arith;
  vacant = λ z. absurd (omega arith);
  started = λ _. omega arith;
  ended = λ _. refl;
  cells = full_ring_cells;
}

deque_example : ((deque full_ring).0 ≡ some 7) × Holds (deque full_ring).1 (8 ∷ [])
deque_example = deque_lem full_ring 7 (8 ∷ []) full_ring-Holds
