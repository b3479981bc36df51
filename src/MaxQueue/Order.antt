-- ===== src/MaxQueue/Order.antt =====
-- The heap order, and that the root is the greatest entry.
use tiltyard.Base.{ℕ, zero, suc, ◌/◌, ◌≤◌, ◌<◌, ◌≡◌, List, length, arith}
use tiltyard.Memory.{cell}
use tiltyard.MaxQueue.{MaxQueue}

-- No entry below position `n` is greater than its parent.
abbrev pub IsHeap : ℕ → List ℕ → Type 0
IsHeap n h = (c : ℕ) → 1 < c → c < n → cell h c ≤ cell h (c / 2)

-- A queue whose block has its capacity in cell 0, with the entries in heap order.
pub record IsQueue (q : MaxQueue) : Type 0 where
  pub size : length q.heap ≡ cell q.heap 0
  pub positive : 0 < q.current
  pub fits : q.current ≤ cell q.heap 0
  pub bound : cell q.heap 0 ≤ 1073741824
  pub heap : IsHeap q.current q.heap

root_greatest_below :
    (k n : ℕ) (h : List ℕ) (i : ℕ) → IsHeap n h → i < k → 0 < i → i < n → cell h i ≤ cell h 1
root_greatest_below zero n h i v f p q = absurd (omega arith)
root_greatest_below (suc k) n h i v f p q = ground (arith, v i, root_greatest_below k n h (i / 2) v)

pub root_greatest : (n : ℕ) (h : List ℕ) (i : ℕ) → IsHeap n h → 0 < i → i < n → cell h i ≤ cell h 1
root_greatest n h i v p q = root_greatest_below (suc i) n h i v (omega arith) p q
