-- ===== src/Server/Auction/Sources.antt =====
-- src/server.c, `auction_walk`: its four sources, the parked limits and the levels of the book.
use tiltyard.Base.{
  ℕ, zero, suc, ◌+◌, ◌-◌, ◌≤◌, ◌<◌, ◌≡◌, refl, ap, ◌∙◌, Bool, get_or, max_u32, u32, ltb, ◌==◌,
  if◌then◌else◌, arith, Bool-cases, inl, inr,
}
use tiltyard.Book.Types.{Book}
use tiltyard.Book.Range.{no_level}
use tiltyard.Ring.{count}
use tiltyard.Server.State.{Server, order_at}
use tiltyard.Server.Stops.{entry_price, entry_id}
use tiltyard.Server.Auction.Curves.{flat, level_total, gather_parked, gather_levels}
use tiltyard.Server.Auction.Sums.{
  Source, total, above, below, total_mono, total_next, above_split, below_split, gather, IsGathered,
}

-- The parked limits of one side, least price first.
abbrev pub parked : Bool → Server → Source
parked buy sc =
    let entry =
      λ (i : ℕ). flat sc (if buy then sc.auction_bid_sorted else sc.auction_ask_sorted) i in
    record {
      size = if buy then count sc.auction_bid_sorted else count sc.auction_ask_sorted;
      price = λ i. entry_price (entry i);
      quantity = λ i.
          (order_at sc (
            flat sc sc.auction_arrivals
              (if buy then max_u32 - entry_id (entry i) else entry_id (entry i)))).quantity;
    }

-- `n` levels of the book from level `first` on.
abbrev pub levels_from : Book → ℕ → ℕ → Source
levels_from mbo first n = record {
  size = n;
  price = λ i. (get_or mbo.levels (first + i) no_level).price;
  quantity = λ i. (get_or mbo.levels (first + i) no_level).quantity;
}

pub gather_parked_lem :
    (n : ℕ) (sc : Server) (buy : Bool) (p i t : ℕ)
    → gather_parked n sc buy p i t ≡ gather n (parked buy sc) p i t
unfolding gather_parked gather
gather_parked_lem zero sc buy p i t = refl
gather_parked_lem (suc n) sc buy p i t = elim (Bool-cases ((parked buy sc).price i == p)) [
  | inl y ↦
      rw (gather_parked, gather, y)
        (gather_parked_lem n sc buy p (i + 1) (u32 (t + (parked buy sc).quantity i)))
  | inr m ↦ rw (gather_parked, gather, m) refl
]

pub gather_levels_lem :
    (n : ℕ) (mbo : Book) (p first size i t : ℕ)
    → let r = gather n (levels_from mbo first size) p i t in
      gather_levels n mbo p (first + i) t ≡ (first + r.0, r.1)
unfolding gather_levels gather
gather_levels_lem zero mbo p first size i t = refl
gather_levels_lem (suc n) mbo p first size i t =
    let s = levels_from mbo first size in
    let next : first + i + 1 ≡ first + (i + 1) = omega arith in
    elim (Bool-cases (s.price i == p)) [
      | inl y ↦
          rw (gather_levels, gather, y, next)
            (gather_levels_lem n mbo p first size (i + 1) (u32 (t + s.quantity i)))
      | inr m ↦ rw (gather_levels, gather, m) refl
    ]

pub zero_plus : (n : ℕ) → 0 + n ≡ n
zero_plus n = omega arith

pub gather_bids_lem :
    (n : ℕ) (mbo : Book) (p size i t : ℕ)
    → gather_levels n mbo p i t ≡ gather n (levels_from mbo 0 size) p i t
gather_bids_lem n mbo p size i t =
    let r = gather n (levels_from mbo 0 size) p i t in
    let start : i ≡ 0 + i = omega arith in
    let end_ : 0 + r.0 ≡ r.0 = omega arith in
    ap (λ j. gather_levels n mbo p j t) start
    ∙ gather_levels_lem n mbo p 0 size i t
    ∙ ap (λ (j : ℕ). (j, r.1)) end_

-- The loop that sums levels of the book.
pub level_total_lem :
    (n : ℕ) (mbo : Book) (size i t : ℕ)
    → let s = levels_from mbo 0 size in
      t + total s (i + n) < 4294967296 + total s i
      → level_total n mbo i t + total s i ≡ t + total s (i + n)
unfolding level_total
level_total_lem zero mbo size i t room = let e : i + 0 ≡ i = omega arith in rw e refl
level_total_lem (suc n) mbo size i t room =
    let s = levels_from mbo 0 size in
    let q = (get_or mbo.levels i no_level).quantity in
    let next : total s (i + 1) ≡ total s i + q =
      total_next s i
      ∙ ap (λ j. total s i + (get_or mbo.levels j no_level).quantity) (zero_plus i) in
    let far : i + suc n ≡ i + 1 + n = omega arith in
    let room' = rw far at room in
    let fits : u32 (t + q) ≡ t + q =
      omega (arith, next, room', total_mono s (i + 1) (i + 1 + n) (omega arith)) in
    let rest = level_total_lem n mbo size (i + 1) (t + q) (omega (arith, next, room')) in
    rw (level_total, fits, far) (omega (arith, rest, next))

-- Everything before position `i` is cheaper than `w`, and nothing from there on.
pub record IsParted (s : Source) (i w : ℕ) : Type 0 where
  pub inside : i ≤ s.size
  pub low : (k : ℕ) → k < i → s.price k < w
  pub high : (k : ℕ) → i ≤ k → k < s.size → w ≤ s.price k

-- Once the run at the price `p` is gathered, the cut lies just above `p`.
pub gather-IsParted :
    (s : Source) (i w p t : ℕ) (r : ℕ × ℕ)
    → IsParted s i w
    → w ≤ p
    → IsGathered s p i t r
    → IsParted s r.0 (p + 1)
gather-IsParted s i w p t r v h g = record {
  inside = g.inside;
  low = λ k l. elim (Bool-cases (ltb k i)) [
    | inl y ↦ omega (arith, v.low k (ground arith))
    | inr n ↦ omega (arith, g.equal k (ground arith) l)
  ];
  high = λ k l m. omega (arith, g.rest k l m);
}

-- The cut of a source makes its sums.
pub parted_above :
    (s : Source) (i w p : ℕ)
    → IsParted s i w
    → w ≤ p
    → ((k : ℕ) → i ≤ k → k < s.size → p ≤ s.price k)
    → above s p s.size + total s i ≡ total s s.size
parted_above s i w p v h high =
    above_split s p i s.size v.inside (λ k l. omega (arith, v.low k l)) high

pub parted_below : (s : Source) (i p : ℕ) → IsParted s i (p + 1) → below s p s.size ≡ total s i
parted_below s i p v =
    below_split s p i s.size v.inside (λ k l. omega (arith, v.low k l))
      (λ k l m. omega (arith, v.high k l m))
