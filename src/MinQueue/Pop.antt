-- ===== src/MinQueue/Pop.antt =====
-- `pq_pop` takes the least entry out, and keeps the heap order.
use tiltyard.Base.{
  ℕ, zero, suc, ◌+◌, ◌-◌, ◌≤◌, ◌<◌, ◌≡◌, ◌≢◌, ◌⊎◌, refl, ◌&&◌, List, length, u32, ltb,
  if◌then◌else◌, arith, Bool-cases, inl, inr,
}
use tiltyard.Memory.{set, cell, length-set, cell-set, one_if, bag, bag-set}
use tiltyard.MinQueue.{parent, first_child, best_child, sift_down}
use tiltyard.MinQueue.Order.{IsHeap}

-- The least of the cells `k`, …, `k + left - 1` and of the best so far.
best_child_lem :
    (left : ℕ) (h : List ℕ) (k best : ℕ)
    → let b = best_child left h k best in
      ((b ≡ best) ⊎ ((k ≤ b) × (b < k + left)))
      × (cell h b ≤ cell h best)
      × ((i : ℕ) → k ≤ i → i < k + left → cell h b ≤ cell h i)
unfolding best_child
best_child_lem zero h k best = (inl refl, omega arith, λ i p q. absurd (omega arith))
best_child_lem (suc left) h k best =
    let ih = best_child_lem left h (suc k) (if ltb (cell h k) (cell h best) then k else best) in
    (ground (arith, ih.0), ground (arith, ih.1), λ i p q. ground (arith, ih.1, ih.2 i))

-- The child that the loop picks.
abbrev pub picked : ℕ → List ℕ → ℕ → ℕ
picked n h run =
    let first = first_child run in
    let end = if ltb n (u32 (first + 4)) then n else u32 (first + 4) in
    best_child (end - first - 1) h (suc first) first

pub record IsLeast (n : ℕ) (h : List ℕ) (run b : ℕ) : Type 0 where
  pub inside : b < n
  pub child : parent b ≡ run
  pub deeper : run < b
  pub least : (c : ℕ) → 1 < c → c < n → parent c ≡ run → cell h b ≤ cell h c

pub picked-IsLeast :
    (n : ℕ) (h : List ℕ) (run : ℕ)
    → n ≤ 1073741824
    → 0 < run
    → run < n
    → first_child run < n
    → IsLeast n h run (picked n h run)
picked-IsLeast n h run b p q k =
    let first = first_child run in
    let end = if ltb n (u32 (first + 4)) then n else u32 (first + 4) in
    let l = best_child_lem (end - first - 1) h (suc first) first in
    record {
      inside = ground (arith, l.0);
      child = ground (arith, l.0);
      deeper = ground (arith, l.0);
      least = λ c r s e. ground (arith, l.1, l.2 c);
    }

-- Only the hole at `run` is out of order, and the last entry is not less than what lies above it.
pub record IsSinking (n : ℕ) (h : List ℕ) (run last : ℕ) : Type 0 where
  pub inside : run < n
  pub root : 0 < run
  pub block : n ≤ length h
  pub edges : (c : ℕ) → 1 < c → c < n → c ≢ run → parent c ≢ run → cell h (parent c) ≤ cell h c
  pub above : 1 < run → cell h (parent run) ≤ last
  pub bridged : (c : ℕ) → 1 < c → c < n → parent c ≡ run → 1 < run → cell h (parent run) ≤ cell h c

settle :
    (n : ℕ) (h : List ℕ) (run last : ℕ)
    → IsSinking n h run last
    → ((c : ℕ) → 1 < c → c < n → parent c ≡ run → last ≤ cell h c)
    → IsHeap n (set h run last)
settle n h run last v k c p q = ground (
  arith,
  v.inside,
  v.block,
  v.root,
  v.above,
  k c p q,
  v.edges c p q,
  cell-set h run c last,
  cell-set h run (parent c) last,
)

sink :
    (n : ℕ) (h : List ℕ) (run b last : ℕ)
    → IsSinking n h run last
    → IsLeast n h run b
    → cell h b < last
    → IsSinking n (set h run (cell h b)) b last
sink n h run b last v l k =
    let at = λ (c : ℕ). cell-set h run c (cell h b) in
    record {
      inside = l.inside;
      root = omega (arith, l.deeper);
      block = omega (arith, v.block, length-set h run (cell h b));
      edges = λ c p q m o. ground (
        arith,
        v.inside,
        v.block,
        v.edges c p q,
        v.bridged b,
        l.inside,
        l.child,
        l.deeper,
        l.least c p q,
        at c,
        at (parent c),
      );
      above = λ p. ground (arith, v.inside, v.block, l.child, at run);
      bridged = λ c p q e t.
          ground (arith, v.inside, v.block, l.child, l.deeper, v.edges c p q, at c, at run);
    }

pub sift_down-step :
    (fuel : ℕ) (h : List ℕ) (n run last : ℕ)
    → sift_down (suc fuel) h n run last ≡ (
        if ltb (first_child run) n && ltb (cell h (picked n h run)) last
        then sift_down fuel (set h run (cell h (picked n h run))) n (picked n h run) last
        else set h run last)
unfolding sift_down
sift_down-step fuel h n run last = ground arith

pub sift_down-IsHeap :
    (fuel n : ℕ) (h : List ℕ) (run last : ℕ)
    → n ≤ 1073741824
    → n - run < fuel
    → IsSinking n h run last
    → IsHeap n (sift_down fuel h n run last)
sift_down-IsHeap zero n h run last b f v = absurd (omega arith)
sift_down-IsHeap (suc fuel) n h run last b f v =
    let pick = picked n h run in
    let least = picked-IsLeast n h run b v.root v.inside in
    rw (sift_down-step fuel h n run last)
      (elim (Bool-cases (ltb (first_child run) n && ltb (cell h pick) last)) [
        | inl y ↦
            let l = least (ground arith) in
            rw y (
              sift_down-IsHeap fuel n (set h run (cell h pick)) pick last b
                (omega (arith, l.deeper, l.inside)) (sink n h run pick last v l (ground arith)))
        | inr m ↦ rw m (
            settle n h run last v (λ c p q e.
              let child : first_child run < n = ground (arith, v.root) in
              let l = least child in ground (arith, l.least c p q e)))
      ])

pub sift_down-bag :
    (fuel n : ℕ) (h : List ℕ) (run last x : ℕ)
    → n ≤ 1073741824
    → n - run < fuel
    → 0 < run
    → run < n
    → n ≤ length h
    → bag n (sift_down fuel h n run last) x + one_if (cell h run) x ≡ bag n h x + one_if last x
sift_down-bag zero n h run last x b f p k l = absurd (omega arith)
sift_down-bag (suc fuel) n h run last x b f p k l =
    let pick = picked n h run in
    let v = cell h pick in
    rw (sift_down-step fuel h n run last)
      (elim (Bool-cases (ltb (first_child run) n && ltb v last)) [
        | inl y ↦
            let c = picked-IsLeast n h run b p k (ground arith) in
            let size = length-set h run v in
            rw y (
              ground (
                arith,
                bag-set n h run v x p k (omega arith),
                cell-set h run pick v (omega arith),
                sift_down-bag fuel n (set h run v) pick last x b (omega (arith, c.deeper, c.inside))
                    (omega (arith, c.deeper)) c.inside (omega (arith, size)),
                c.deeper,
              ))
        | inr m ↦ rw m (bag-set n h run last x p k (omega arith))
      ])
