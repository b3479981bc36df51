-- ===== src/MinQueue/Order.antt =====
-- The heap order, and that the root is the least entry.
use tiltyard.Base.{ℕ, zero, suc, ◌≤◌, ◌<◌, ◌≡◌, List, length, arith}
use tiltyard.Memory.{cell}
use tiltyard.MinQueue.{MinQueue, parent}

-- No entry below position `n` is less than its parent.
abbrev pub IsHeap : ℕ → List ℕ → Type 0
IsHeap n h = (c : ℕ) → 1 < c → c < n → cell h (parent c) ≤ cell h c

-- A queue whose block has its capacity in cell 0, with the entries in heap order.
pub record IsQueue (q : MinQueue) : Type 0 where
  pub size : length q.heap ≡ cell q.heap 0
  pub positive : 0 < q.current
  pub fits : q.current ≤ cell q.heap 0
  pub bound : cell q.heap 0 ≤ 1073741824
  pub heap : IsHeap q.current q.heap

root_least_below :
    (k n : ℕ) (h : List ℕ) (i : ℕ) → IsHeap n h → i < k → 0 < i → i < n → cell h 1 ≤ cell h i
root_least_below zero n h i v f p q = absurd (omega arith)
root_least_below (suc k) n h i v f p q = ground (arith, v i, root_least_below k n h (parent i) v)

pub root_least : (n : ℕ) (h : List ℕ) (i : ℕ) → IsHeap n h → 0 < i → i < n → cell h 1 ≤ cell h i
root_least n h i v p q = root_least_below (suc i) n h i v (omega arith) p q
