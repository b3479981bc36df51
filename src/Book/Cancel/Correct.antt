-- ===== src/Book/Cancel/Correct.antt =====
-- `ob_cancel` withdraws exactly the cancelled order, and leaves a sound book.
use tiltyard.Base.{
  ℕ, ◌+◌, ◌-◌, ◌*◌, ◌≡◌, refl, ◌∙◌, some, length, length-take, get_elem?, take_all, ◌==◌, arith,
}
use tiltyard.Order.{Order}
use tiltyard.Book.Types.{Entry, Level, Book}
use tiltyard.Book.Level.{start}
use tiltyard.Book.Level.Copies.{hit_total}
use tiltyard.Book.Cancel.{find_price, is_wiped, ob_cancel}
use tiltyard.Book.Shape.{extent, bid_count, IsBook, start-IsWriter}
use tiltyard.Book.Pull.{IsWithdrawn, withdrawn}
use tiltyard.Book.Cancel.Written.{one, cancel_levels-Extends, first_at}
use tiltyard.Book.Cancel.Counts.{pull_count, get_first, find_price_lt}

-- The size that a snapshot's header, index and levels take.
abbrev pub blob_size : Book → ℕ
blob_size b = 4 + b.level_count * 12 + extent b.levels

-- `ob_cancel` of an order that rests at its price with the quantity that the order store records:
-- the new snapshot is a sound book, its two sides are the old sides without exactly that order (and
-- without its level, if it was alone there), and the size returned is the snapshot's size in bytes.
pub ob_cancel_lem :
    (stale : ℕ → Entry) (o : Order) (id : ℕ) (old : Book) (l0 : Level)
    → IsBook old
    → first_at o.price old.levels ≡ some l0
    → hit_total id l0.entries ≡ o.quantity
    → IsWithdrawn (one o.price id) old (ob_cancel stale o id old).0
      × ((ob_cancel stale o id old).1 ≡ blob_size (ob_cancel stale o id old).0)
unfolding ob_cancel is_wiped
ob_cancel_lem stale o id old l0 v f t =
    let i = find_price o.price old.levels 0 in
    let found : get_elem? old.levels i ≡ some l0 =
      (rw (let z : i - 0 ≡ i = omega arith in z) at (get_first o.price old.levels 0)) ∙ f in
    let inside = find_price_lt o.price old.levels 0 f in
    let e =
      cancel_levels-Extends stale o.price id o.quantity old.levels l0 0 i
        (l0.quantity == o.quantity) start f refl t refl v.sound v.ascending in
    let all =
      pull_count o.price id o.quantity old.levels l0 (length old.levels) 0 f t v.sound
        v.ascending in
    let bids =
      pull_count o.price id o.quantity old.levels l0 (bid_count old) 0 f t v.sound v.ascending in
    rw (found, is_wiped)
      (
        withdrawn (one o.price id) old _ _ v e refl
            (ground (arith, all, take_all (length old.levels) old.levels, v.counted, v.few, inside))
            (ground
              (arith, bids, length-take (bid_count old) old.levels, v.boundary, v.word, v.few))
            (ground (arith, v.word)),
        omega (arith, (e.valid start-IsWriter).stands),
      )
