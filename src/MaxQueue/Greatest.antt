-- ===== src/MaxQueue/Greatest.antt =====
-- `xpq_pop` gives the greatest event and keeps the rest.
use tiltyard.Base.{
  ℕ, zero, suc, ◌+◌, ◌-◌, ◌/◌, ◌*◌, ◌≤◌, ◌<◌, ◌≡◌, refl, sym, ap, ◌∙◌, false, List, length, ltb,
  leb, ◌==◌, arith, Bool-cases, inl, inr,
}
use mathlib.Core.Path.{subst}
use tiltyard.Memory.{set, cell, length-set, cell-set, one_if, bag, bag-set, bag_congr, bag_step}
use tiltyard.MaxQueue.{MaxQueue, sift_down, pop}
use tiltyard.MaxQueue.Order.{IsHeap, IsQueue, root_greatest}
use tiltyard.MaxQueue.Pop.{
  picked, IsGreatest, picked-IsGreatest, IsSinking, settle, sink, sift_down-step,
}

-- What the loop makes of a block with a hole: the heap order, the same entries but for the one at
-- the hole, the same size and the same capacity.
record Sunk (n : ℕ) (h : List ℕ) (run last : ℕ) (h' : List ℕ) : Type 0 where
  order : IsHeap n h'
  entries : (x : ℕ) → bag n h' x + one_if (cell h run) x ≡ bag n h x + one_if last x
  size : length h' ≡ length h
  capacity : cell h' 0 ≡ cell h 0

settle-Sunk :
    (n : ℕ) (h : List ℕ) (run last : ℕ)
    → IsSinking n h run last
    → ((c : ℕ) → 1 < c → c < n → c / 2 ≡ run → cell h c ≤ last)
    → Sunk n h run last (set h run last)
settle-Sunk n h run last v k =
    let inside : run < length h = omega (arith, v.block, v.inside) in
    record {
      order = settle n h run last v k;
      entries = λ x. bag-set n h run last x v.root v.inside inside;
      size = length-set h run last;
      capacity = ground (arith, cell-set h run 0 last inside, v.root);
    }

-- A child moved up, and the rest of the loop below it.
follow-Sunk :
    (n : ℕ) (h : List ℕ) (run b last : ℕ) (h' : List ℕ)
    → IsSinking n h run last
    → IsGreatest n h run b
    → Sunk n (set h run (cell h b)) b last h'
    → Sunk n h run last h'
follow-Sunk n h run b last h' v l s =
    let w = cell h b in
    let inside : run < length h = omega (arith, v.block, v.inside) in
    let below : cell (set h run w) b ≡ w = ground (arith, cell-set h run b w inside, l.deeper) in
    record {
      order = s.order;
      entries = λ x. omega (
        arith,
        s.entries x,
        ap (λ (y : ℕ). one_if y x) below,
        bag-set n h run w x v.root v.inside inside,
      );
      size = s.size ∙ length-set h run w;
      capacity = s.capacity ∙ ground (arith, cell-set h run 0 w inside, v.root);
    }

sift_down-Sunk :
    (fuel n : ℕ) (h : List ℕ) (run last : ℕ)
    → n ≤ 1073741824
    → n - run < fuel
    → IsSinking n h run last
    → Sunk n h run last (sift_down fuel h n run last)
sift_down-Sunk zero n h run last b f v = absurd (omega arith)
sift_down-Sunk (suc fuel) n h run last small f v =
    let b = picked n h run in
    let l = picked-IsGreatest n h run v.root in
    rw (sift_down-step fuel h n run last small v.root v.inside)
      (elim (Bool-cases (leb n (run * 2))) [
        | inl y ↦ rw y (settle-Sunk n h run last v (λ c p q e. absurd (ground arith)))
        | inr inner ↦
            let g = l (ground arith) in
            let deeper = λ (k : last ≤ cell h b). sink n h run b last v g k in
            rw inner (elim (Bool-cases (leb n (run * 2 + 1))) [
              | inl only ↦ rw only (elim (Bool-cases (ltb last (cell h b))) [
                | inl y ↦ rw y (
                    follow-Sunk n h run b last _ v g (
                      settle-Sunk n (set h run (cell h b)) b last (deeper (ground arith))
                        (λ c p q e. absurd (ground (arith, g.deeper)))))
                | inr m ↦
                    rw m
                      (settle-Sunk n h run last v (λ c p q e. ground (arith, g.greatest c p q e)))
              ])
              | inr both ↦ rw both (elim (Bool-cases (ltb (cell h b) last)) [
                | inl y ↦
                    rw y
                      (settle-Sunk n h run last v (λ c p q e. ground (arith, g.greatest c p q e)))
                | inr m ↦ rw m (
                    follow-Sunk n h run b last _ v g (
                      sift_down-Sunk fuel n (set h run (cell h b)) b last small
                        (omega (arith, g.deeper, g.inside)) (deeper (ground arith))))
              ])
            ])
      ])

-- What `xpq_pop` makes of a queue: `most` is out, and the other entries are left in heap order.
pub record Popped (q : MaxQueue) (most : ℕ) (q' : MaxQueue) : Type 0 where
  pub valid : IsQueue q'
  pub count : q'.current + 1 ≡ q.current
  pub entries : (x : ℕ) → bag q'.current q'.heap x + one_if most x ≡ bag q.current q.heap x
  pub is_greatest : (i : ℕ) → 0 < i → i < q.current → cell q.heap i ≤ most

-- The last entry: the loop finds no child.
pop_two :
    (h : List ℕ)
    → let q : MaxQueue = record { current = 2; heap = h } in
      IsQueue q → Popped q (pop q).0 (pop q).1
unfolding pop sift_down
pop_two h v =
    let inside : 1 < length h = omega (arith, v.size, v.fits) in
    let after = set (set h 1 0) 1 (cell h 1) in
    let size : length after ≡ length h = length-set (set h 1 0) 1 (cell h 1) ∙ length-set h 1 0 in
    let kept : cell after 0 ≡ cell h 0 =
      ground
        (arith, cell-set (set h 1 0) 1 0 (cell h 1), cell-set h 1 0 0 inside, length-set h 1 0) in
    record {
      valid = record {
        size = omega (arith, size, kept, v.size);
        positive = omega arith;
        fits = omega (arith, kept, v.fits);
        bound = omega (arith, kept, v.bound);
        heap = λ c p k. absurd (omega arith);
      };
      count = refl;
      entries = λ x. omega arith;
      is_greatest = λ i p k. root_greatest 2 h i v.heap p k;
    }

pop_only : (q : MaxQueue) → IsQueue q → q.current ≡ 2 → Popped q (pop q).0 (pop q).1
pop_only q v e =
    subst
      (λ k.
        let r : MaxQueue = record { current = k; heap = q.heap } in
        IsQueue r → Popped r (pop r).0 (pop r).1)
      (sym e) (pop_two q.heap) v

pop_many : (q : MaxQueue) → IsQueue q → 2 < q.current → Popped q (pop q).0 (pop q).1
unfolding pop
pop_many q v many =
    let n = q.current - 1 in
    let last = cell q.heap n in
    let h = set q.heap n 0 in
    let inside : n < length q.heap = omega (arith, v.size, v.fits) in
    let size = length-set q.heap n 0 in
    let same = λ (i : ℕ). cell-set q.heap n i 0 inside in
    let more : n + 1 ≡ q.current = omega arith in
    let sinking : IsSinking n h 1 last = record {
      inside = omega arith;
      root = omega arith;
      block = omega (arith, size);
      edges = λ c p k m o. ground (arith, v.heap c, same c, same (c / 2));
      above = λ p. absurd (omega arith);
      bridged = λ c p k m t. absurd (omega arith);
    } in
    let s =
      sift_down-Sunk (suc n) n h 1 last (omega (arith, v.fits, v.bound)) (omega arith) sinking in
    let cap : cell h 0 ≡ cell q.heap 0 = ground (arith, same 0) in
    let root : cell h 1 ≡ cell q.heap 1 = ground (arith, same 1) in
    let nonempty : (q.current == 1) ≡ false = ground arith in
    rw nonempty (record {
      valid = record {
        size = omega (arith, v.size, size, s.size, s.capacity, cap);
        positive = omega arith;
        fits = omega (arith, s.capacity, cap, v.fits);
        bound = omega (arith, s.capacity, cap, v.bound);
        heap = s.order;
      };
      count = more;
      entries = λ x. omega (
        arith,
        ap (λ (k : ℕ). bag k q.heap x) more,
        bag_step n q.heap x (omega arith),
        bag_congr n h q.heap x (λ i p k. ground (arith, same i)),
        s.entries x,
        ap (λ (y : ℕ). one_if y x) root,
      );
      is_greatest = λ i p k. root_greatest q.current q.heap i v.heap p k;
    })

-- `xpq_pop` on a queue that holds something: the event returned is the greatest of those held, and
-- what is left is a queue in heap order of exactly the others.
pub max_pop_lem : (q : MaxQueue) → IsQueue q → 1 < q.current → Popped q (pop q).0 (pop q).1
max_pop_lem q v h = elim (Bool-cases (q.current == 2)) [
  | inl y ↦ pop_only q v (ground arith)
  | inr n ↦ pop_many q v (ground arith)
]
