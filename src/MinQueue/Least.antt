-- ===== src/MinQueue/Least.antt =====
-- `pq_pop` gives the least event and keeps the rest; with `pq_push` it sorts.
use tiltyard.Base.{
  ℕ, zero, suc, ◌+◌, ◌-◌, ◌≤◌, ◌<◌, ◌≡◌, refl, sym, ap, ◌∙◌, false, ◌&&◌, List, length, ltb, ◌==◌,
  arith, Bool-cases, inl, inr,
}
use mathlib.Core.Path.{subst}
use tiltyard.Memory.{set, cell, length-set, cell-set, one_if, bag, bag_congr, bag_step}
use tiltyard.MinQueue.{MinQueue, parent, first_child, sift_down, pop}
use tiltyard.MinQueue.Order.{IsQueue, root_least}
use tiltyard.MinQueue.Pop.{
  picked, picked-IsLeast, IsSinking, sift_down-step, sift_down-IsHeap, sift_down-bag,
}

length-sift_down :
    (fuel : ℕ) (h : List ℕ) (n run last : ℕ) → length (sift_down fuel h n run last) ≡ length h
unfolding sift_down
length-sift_down zero h n run last = refl
length-sift_down (suc fuel) h n run last =
    let pick = picked n h run in
    ground (
      arith,
      length-set h run last,
      length-set h run (cell h pick),
      length-sift_down fuel (set h run (cell h pick)) n pick last,
    )

capacity-sift_down :
    (fuel : ℕ) (h : List ℕ) (n run last : ℕ)
    → n ≤ 1073741824
    → 0 < run
    → run < n
    → n ≤ length h
    → cell (sift_down fuel h n run last) 0 ≡ cell h 0
capacity-sift_down zero h n run last b p k l = unfold sift_down in refl
capacity-sift_down (suc fuel) h n run last b p k l =
    let pick = picked n h run in
    let v = cell h pick in
    rw (sift_down-step fuel h n run last)
      (elim (Bool-cases (ltb (first_child run) n && ltb v last)) [
        | inl y ↦
            let c = picked-IsLeast n h run b p k (ground arith) in
            rw y (
              ground (
                arith,
                c.deeper,
                c.inside,
                cell-set h run 0 v (omega arith),
                length-set h run v,
                capacity-sift_down fuel (set h run v) n pick last b,
              ))
        | inr m ↦ rw m (ground (arith, cell-set h run 0 last (omega arith)))
      ])

-- What `pq_pop` makes of a queue: `least` is out, and the other entries are left in heap order.
pub record Popped (q : MinQueue) (least : ℕ) (q' : MinQueue) : Type 0 where
  pub valid : IsQueue q'
  pub count : q'.current + 1 ≡ q.current
  pub entries : (x : ℕ) → bag q'.current q'.heap x + one_if least x ≡ bag q.current q.heap x
  pub is_least : (i : ℕ) → 0 < i → i < q.current → least ≤ cell q.heap i

-- The last entry: the loop finds no child.
pop_two :
    (h : List ℕ)
    → let q : MinQueue = record { current = 2; heap = h } in
      IsQueue q → Popped q (pop q).0 (pop q).1
unfolding pop sift_down
pop_two h v =
    let inside : 1 < length h = omega (arith, v.size, v.fits) in
    let after = set (set h 1 0) 1 (cell h 1) in
    let size : length after ≡ length h = length-set (set h 1 0) 1 (cell h 1) ∙ length-set h 1 0 in
    let kept : cell after 0 ≡ cell h 0 =
      ground
        (arith, cell-set (set h 1 0) 1 0 (cell h 1), cell-set h 1 0 0 inside, length-set h 1 0) in
    record {
      valid = record {
        size = omega (arith, size, kept, v.size);
        positive = omega arith;
        fits = omega (arith, kept, v.fits);
        bound = omega (arith, kept, v.bound);
        heap = λ c p k. absurd (omega arith);
      };
      count = refl;
      entries = λ x. omega arith;
      is_least = λ i p k. root_least 2 h i v.heap p k;
    }

pop_only : (q : MinQueue) → IsQueue q → q.current ≡ 2 → Popped q (pop q).0 (pop q).1
pop_only q v e =
    subst
      (λ k.
        let r : MinQueue = record { current = k; heap = q.heap } in
        IsQueue r → Popped r (pop r).0 (pop r).1)
      (sym e) (pop_two q.heap) v

pop_many : (q : MinQueue) → IsQueue q → 2 < q.current → Popped q (pop q).0 (pop q).1
unfolding pop
pop_many q v many =
    let n = q.current - 1 in
    let last = cell q.heap n in
    let h = set q.heap n 0 in
    let inside : n < length q.heap = omega (arith, v.size, v.fits) in
    let size = length-set q.heap n 0 in
    let same = λ (i : ℕ). cell-set q.heap n i 0 inside in
    let fuel : n - 1 < suc n = omega arith in
    let more : n + 1 ≡ q.current = omega arith in
    let sinking : IsSinking n h 1 last = record {
      inside = omega arith;
      root = omega arith;
      block = omega (arith, size);
      edges = λ c p k m o. ground (arith, v.heap c, same c, same (parent c));
      above = λ p. absurd (omega arith);
      bridged = λ c p k m t. absurd (omega arith);
    } in
    let bound : n ≤ 1073741824 = omega (arith, v.fits, v.bound) in
    let kept =
      capacity-sift_down (suc n) h n 1 last bound (omega arith) (omega arith)
        (omega (arith, size)) in
    let cap : cell h 0 ≡ cell q.heap 0 = ground (arith, same 0) in
    let root : cell h 1 ≡ cell q.heap 1 = ground (arith, same 1) in
    let nonempty : (q.current == 1) ≡ false = ground arith in
    rw nonempty (record {
      valid = record {
        size = omega (arith, v.size, size, length-sift_down (suc n) h n 1 last, kept, cap);
        positive = omega arith;
        fits = ground (arith, kept, same 0, v.fits);
        bound = ground (arith, kept, same 0, v.bound);
        heap = sift_down-IsHeap (suc n) n h 1 last bound fuel sinking;
      };
      count = more;
      entries = λ x. omega (
        arith,
        ap (λ (k : ℕ). bag k q.heap x) more,
        bag_step n q.heap x (omega arith),
        bag_congr n h q.heap x (λ i p k. ground (arith, same i)),
        sift_down-bag (suc n) n h 1 last x bound fuel (omega arith) (omega arith)
            (omega (arith, size)),
        ap (λ (y : ℕ). one_if y x) root,
      );
      is_least = λ i p k. root_least q.current q.heap i v.heap p k;
    })

-- `pq_pop` on a queue that holds something: the event returned is the least of those held, and what
-- is left is a queue in heap order of exactly the others.
pub pop_lem : (q : MinQueue) → IsQueue q → 1 < q.current → Popped q (pop q).0 (pop q).1
pop_lem q v h = elim (Bool-cases (q.current == 2)) [
  | inl y ↦ pop_only q v (ground arith)
  | inr n ↦ pop_many q v (ground arith)
]
