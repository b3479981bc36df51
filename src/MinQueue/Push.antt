-- ===== src/MinQueue/Push.antt =====
-- `pq_push` keeps the heap order and adds exactly the event.
use tiltyard.Base.{
  ℕ, zero, suc, ◌+◌, ◌*◌, ◌≤◌, ◌<◌, ◌≡◌, ◌≢◌, refl, false, ◌&&◌, List, ◌++◌, length, length-append,
  take_all, some, ltb, ◌==◌, if◌then◌else◌, arith, Bool-cases, ==_iff, inl, inr, max_u32, u32, u64,
}
use tiltyard.Memory.{
  set, cell, junk_from, length-junk_from, length-set, cell-set, cell-append, one_if, bag, bag-set,
  bag_congr, bag_step,
}
use tiltyard.MinQueue.{MinQueue, parent, sift_up, grown, push}
use tiltyard.MinQueue.Order.{IsHeap, IsQueue}

-- Only the hole at `run` is out of order, and the event is not greater than what lies below it.
record IsRising (n : ℕ) (h : List ℕ) (run event : ℕ) : Type 0 where
  inside : run < n
  root : 0 < run
  block : n ≤ length h
  edges : (c : ℕ) → 1 < c → c < n → c ≢ run → parent c ≢ run → cell h (parent c) ≤ cell h c
  below : (c : ℕ) → 1 < c → c < n → parent c ≡ run → event ≤ cell h c
  bridged : (c : ℕ) → 1 < c → c < n → parent c ≡ run → 1 < run → cell h (parent run) ≤ cell h c

settle :
    (n : ℕ) (h : List ℕ) (run event : ℕ)
    → IsRising n h run event
    → (1 < run → cell h (parent run) ≤ event)
    → IsHeap n (set h run event)
settle n h run event v k c p q = ground (
  arith,
  v.inside,
  v.block,
  v.root,
  k,
  v.edges c p q,
  v.below c p q,
  cell-set h run c event,
  cell-set h run (parent c) event,
)

rise :
    (n : ℕ) (h : List ℕ) (run event : ℕ)
    → IsRising n h run event
    → 1 < run
    → event < cell h (parent run)
    → IsRising n (set h run (cell h (parent run))) (parent run) event
rise n h run event v k l =
    let top = parent run in
    let at = λ (c : ℕ). cell-set h run c (cell h top) in
    record {
      inside = omega (arith, v.inside);
      root = omega arith;
      block = omega (arith, v.block, length-set h run (cell h top));
      edges = λ c p q m o.
          ground (arith, v.inside, v.block, v.edges c p q, v.bridged c p q, at c, at (parent c));
      below = λ c p q e. ground (arith, v.inside, v.block, v.edges c p q, at c);
      bridged = λ c p q e t.
          ground (arith, v.inside, v.block, v.edges c p q, v.edges top, at c, at (parent top));
    }

sift_up-step :
    (fuel : ℕ) (h : List ℕ) (run event : ℕ)
    → sift_up (suc fuel) h run event ≡ (
        if ltb 1 run && ltb event (cell h (parent run))
        then sift_up fuel (set h run (cell h (parent run))) (parent run) event
        else set h run event)
unfolding sift_up
sift_up-step fuel h run event = ground arith

sift_up-IsHeap :
    (fuel n : ℕ) (h : List ℕ) (run event : ℕ)
    → run ≤ fuel
    → IsRising n h run event
    → IsHeap n (sift_up fuel h run event)
sift_up-IsHeap zero n h run event f v = absurd (omega (arith, v.root))
sift_up-IsHeap (suc fuel) n h run event f v =
    rw (sift_up-step fuel h run event)
      (elim (Bool-cases (ltb 1 run && ltb event (cell h (parent run)))) [
        | inl y ↦ rw y (
            sift_up-IsHeap fuel n (set h run (cell h (parent run))) (parent run) event
              (ground arith) (rise n h run event v (ground arith) (ground arith)))
        | inr m ↦ rw m (settle n h run event v (λ k. ground arith))
      ])

-- The loop puts the event in for what stood at the hole, and moves the other entries only.
sift_up-bag :
    (fuel n : ℕ) (h : List ℕ) (run event x : ℕ)
    → 0 < run
    → run < n
    → n ≤ length h
    → bag n (sift_up fuel h run event) x + one_if (cell h run) x ≡ bag n h x + one_if event x
unfolding sift_up
sift_up-bag zero n h run event x p k l = bag-set n h run event x p k (omega arith)
sift_up-bag (suc fuel) n h run event x p k l =
    let v = cell h (parent run) in
    ground (
      arith,
      bag-set n h run event x p k,
      bag-set n h run v x p k,
      cell-set h run (parent run) v,
      length-set h run v,
      sift_up-bag fuel n (set h run v) (parent run) event x,
    )

length-sift_up :
    (fuel : ℕ) (h : List ℕ) (run event : ℕ) → length (sift_up fuel h run event) ≡ length h
unfolding sift_up
length-sift_up zero h run event = length-set h run event
length-sift_up (suc fuel) h run event = ground (
  arith,
  length-set h run event,
  length-set h run (cell h (parent run)),
  length-sift_up fuel (set h run (cell h (parent run))) (parent run) event,
)

-- Cell 0 is not touched.
capacity-sift_up :
    (fuel : ℕ) (h : List ℕ) (run event : ℕ)
    → 0 < run
    → run < length h
    → cell (sift_up fuel h run event) 0 ≡ cell h 0
unfolding sift_up
capacity-sift_up zero h run event p k = ground (arith, cell-set h run 0 event k)
capacity-sift_up (suc fuel) h run event p k =
    let v = cell h (parent run) in
    ground (
      arith,
      cell-set h run 0 event k,
      cell-set h run 0 v k,
      length-set h run v,
      capacity-sift_up fuel (set h run v) (parent run) event,
    )

-- Doubling keeps the entries in place.
module _ (junk : ℕ → ℕ) (q : MinQueue) (v : IsQueue q) (full : q.current ≡ cell q.heap 0) where
  grown-cells : (i : ℕ) → 0 < i → i < q.current → cell (grown junk q.heap) i ≡ cell q.heap i
  unfolding grown
  grown-cells i p k =
      let n = cell q.heap 0 in
      let copy = take_all n q.heap (omega (arith, v.size)) in
      rw copy (
        ground (
          arith,
          v.size,
          v.positive,
          length-append q.heap (junk_from junk n n),
          cell-set (q.heap ++ junk_from junk n n) 0 i (u64 (n * 2)),
          cell-append q.heap (junk_from junk n n) i,
        ))

  grown-size :
      (length (grown junk q.heap) ≡ cell q.heap 0 * 2)
      × (cell (grown junk q.heap) 0 ≡ cell q.heap 0 * 2)
  unfolding grown
  grown-size =
      let n = cell q.heap 0 in
      let copy = take_all n q.heap (omega (arith, v.size)) in
      rw copy (
        ground (
          arith,
          v.size,
          v.positive,
          v.bound,
          length-append q.heap (junk_from junk n n),
          length-junk_from junk n n,
          length-set (q.heap ++ junk_from junk n n) 0 (u64 (n * 2)),
          cell-set (q.heap ++ junk_from junk n n) 0 0 (u64 (n * 2)),
        ))

-- What `pq_push` makes of a queue: one entry more, in heap order.
pub record Pushed (q : MinQueue) (event : ℕ) (q' : MinQueue) : Type 0 where
  pub valid : IsQueue q'
  pub count : q'.current ≡ q.current + 1
  pub entries : (x : ℕ) → bag q'.current q'.heap x ≡ bag q.current q.heap x + one_if event x

push_into :
    (q : MinQueue) (h : List ℕ) (event : ℕ)
    → IsQueue q
    → length h ≡ cell h 0
    → q.current < cell h 0
    → cell h 0 ≤ 1073741824
    → ((i : ℕ) → 0 < i → i < q.current → cell h i ≡ cell q.heap i)
    → Pushed q event
        (record { current = q.current + 1; heap = sift_up q.current h q.current event })
push_into q h event v s room b same =
    let n = q.current in
    let rising : IsRising (n + 1) h n event = record {
      inside = omega arith;
      root = v.positive;
      block = omega (arith, s);
      edges = λ c p k m o. ground (arith, v.heap c, same c, same (parent c));
      below = λ c p k e. absurd (omega arith);
      bridged = λ c p k e t. absurd (omega arith);
    } in
    record {
      valid = record {
        size = omega (
          arith,
          s,
          length-sift_up n h n event,
          capacity-sift_up n h n event v.positive (omega (arith, s)),
        );
        positive = omega arith;
        fits = omega (arith, capacity-sift_up n h n event v.positive (omega (arith, s)));
        bound = omega (arith, capacity-sift_up n h n event v.positive (omega (arith, s)));
        heap = sift_up-IsHeap n (n + 1) h n event (omega arith) rising;
      };
      count = refl;
      entries = λ x. omega (
        arith,
        bag_step n (sift_up n h n event) x v.positive,
        sift_up-bag n (n + 1) h n event x v.positive (omega arith) (omega (arith, s)),
        bag_step n h x v.positive,
        bag_congr n h q.heap x same,
        bag_step n (sift_up n h n event) x v.positive,
      );
    }

-- `pq_push` on a queue with room below 2 ^ 30 cells: the result is a queue in heap order that holds
-- what the old one did and the event once more, also where the block doubles.
pub push_lem :
    (junk : ℕ → ℕ) (q : MinQueue) (event : ℕ)
    → IsQueue q
    → cell q.heap 0 ≤ 536870912
    → (q' : MinQueue) × (push junk q event ≡ some q') × Pushed q event q'
unfolding push
push_lem junk q event v b =
    let below : (q.current == max_u32) ≡ false = ground (arith, v.fits, v.bound) in
    let next : u32 (q.current + 1) ≡ q.current + 1 = omega (arith, v.fits, v.bound) in
    elim (Bool-cases (q.current == cell q.heap 0)) [
      | inl y ↦
          let full : q.current ≡ cell q.heap 0 = (==_iff q.current (cell q.heap 0)).0 y in
          let g = grown-size junk q v full in
          (
            _,
            rw (y, below, next),
            push_into q (grown junk q.heap) event v (omega (arith, g))
                (omega (arith, g, v.positive)) (omega (arith, g)) (grown-cells junk q v full),
          )
      | inr m ↦ (
        _,
        rw (m, below, next),
        push_into q q.heap event v v.size (ground (arith, v.fits)) v.bound (λ i p k. refl),
      )
    ]
