-- ===== src/MaxQueue/Pop.antt =====
-- `xpq_pop` moves the greater child up until the last entry fits, and keeps the heap order.
use tiltyard.Base.{
  ℕ, suc, ◌+◌, ◌/◌, ◌*◌, ◌≤◌, ◌<◌, ◌≡◌, ◌≢◌, ◌&&◌, List, length, ltb, leb, ◌==◌, if◌then◌else◌,
  arith, Bool-cases, inl, inr,
}
use tiltyard.Memory.{set, cell, length-set, cell-set}
use tiltyard.MaxQueue.{sift_down}
use tiltyard.MaxQueue.Order.{IsHeap}

-- The child that the loop picks.
abbrev pub picked : ℕ → List ℕ → ℕ → ℕ
picked n h run =
    if ltb (run * 2 + 1) n && leb (cell h (run * 2)) (cell h (run * 2 + 1))
    then run * 2 + 1
    else run * 2

pub record IsGreatest (n : ℕ) (h : List ℕ) (run b : ℕ) : Type 0 where
  pub inside : b < n
  pub child : b / 2 ≡ run
  pub deeper : run < b
  pub greatest : (c : ℕ) → 1 < c → c < n → c / 2 ≡ run → cell h c ≤ cell h b

pub picked-IsGreatest :
    (n : ℕ) (h : List ℕ) (run : ℕ) → 0 < run → run * 2 < n → IsGreatest n h run (picked n h run)
picked-IsGreatest n h run p k = record {
  inside = ground arith;
  child = ground arith;
  deeper = ground arith;
  greatest =
      λ c r s e. elim (Bool-cases (c == run * 2)) [ inl y ↦ ground arith | inr m ↦ ground arith ];
}

-- Only the hole at `run` is out of order, and the last entry is not greater than what lies above it.
pub record IsSinking (n : ℕ) (h : List ℕ) (run last : ℕ) : Type 0 where
  pub inside : run < n
  pub root : 0 < run
  pub block : n ≤ length h
  pub edges : (c : ℕ) → 1 < c → c < n → c ≢ run → c / 2 ≢ run → cell h c ≤ cell h (c / 2)
  pub above : 1 < run → last ≤ cell h (run / 2)
  pub bridged : (c : ℕ) → 1 < c → c < n → c / 2 ≡ run → 1 < run → cell h c ≤ cell h (run / 2)

pub settle :
    (n : ℕ) (h : List ℕ) (run last : ℕ)
    → IsSinking n h run last
    → ((c : ℕ) → 1 < c → c < n → c / 2 ≡ run → cell h c ≤ last)
    → IsHeap n (set h run last)
settle n h run last v k c p q = ground (
  arith,
  v.inside,
  v.block,
  v.root,
  v.above,
  k c p q,
  v.edges c p q,
  cell-set h run c last,
  cell-set h run (c / 2) last,
)

pub sink :
    (n : ℕ) (h : List ℕ) (run b last : ℕ)
    → IsSinking n h run last
    → IsGreatest n h run b
    → last ≤ cell h b
    → IsSinking n (set h run (cell h b)) b last
sink n h run b last v l k =
    let at = λ (c : ℕ). cell-set h run c (cell h b) in
    record {
      inside = l.inside;
      root = omega (arith, l.deeper);
      block = omega (arith, v.block, length-set h run (cell h b));
      edges = λ c p q m o. ground (
        arith,
        v.inside,
        v.block,
        v.edges c p q,
        v.bridged b,
        l.inside,
        l.child,
        l.deeper,
        l.greatest c p q,
        at c,
        at (c / 2),
      );
      above = λ p. ground (arith, v.inside, v.block, l.child, at run);
      bridged = λ c p q e t.
          ground (arith, v.inside, v.block, l.child, l.deeper, v.edges c p q, at c, at run);
    }

-- The four ways of a round: no child, a left child only, both children below, or one to follow.
pub sift_down-step :
    (fuel : ℕ) (h : List ℕ) (n run last : ℕ)
    → n ≤ 1073741824
    → 0 < run
    → run < n
    → sift_down (suc fuel) h n run last ≡ (
        let b = picked n h run in
        if leb n (run * 2)
        then set h run last
        else if leb n (run * 2 + 1)
        then (if ltb last (cell h b) then set (set h run (cell h b)) b last else set h run last)
        else if ltb (cell h b) last
        then set h run last
        else sift_down fuel (set h run (cell h b)) n b last)
unfolding sift_down
sift_down-step fuel h n run last small p k = ground arith
