-- ===== src/Book/Expire/Correct.antt =====
-- `ob_expire` withdraws exactly its batch, and leaves a sound book.
use tiltyard.Base.{ℕ, ◌-◌, ◌≡◌, refl, List, length, take, length-take, All, arith}
use tiltyard.Book.Types.{Entry, Book}
use tiltyard.Book.Level.{start}
use tiltyard.Book.Shape.{bid_count, IsBook, pull, start-IsWriter}
use tiltyard.Book.Pull.{IsWithdrawn, withdrawn, length-pull}
use tiltyard.Book.Cancel.Correct.{blob_size}
use tiltyard.Book.Expire.{ob_expire}
use tiltyard.Book.Expire.Batch.{named, IsBatch}
use tiltyard.Book.Expire.Written.{IsMatched, expire_levels-Extends}
use tiltyard.Book.Expire.Counts.{count_survivors_lem}

-- `ob_expire` of a batch in strictly ascending order of price and id, where at each level of the book
-- as many orders are named as there are cancels at its price: the new snapshot is a sound book, its
-- two sides are the old sides without exactly the named orders (and without the levels that they
-- leave empty), and the size returned is the snapshot's size in bytes.
pub ob_expire_lem :
    (stale : ℕ → Entry) (cancels : List ℕ) (old : Book)
    → IsBook old
    → IsBatch cancels
    → All (IsMatched cancels) old.levels
    → IsWithdrawn (named cancels) old (ob_expire stale cancels old).0
      × ((ob_expire stale cancels old).1 ≡ blob_size (ob_expire stale cancels old).0)
unfolding ob_expire
ob_expire_lem stale cancels old v b m =
    let e = expire_levels-Extends stale old.levels cancels start b v.sound v.ascending m in
    let all = length-pull (named cancels) old.levels in
    let bids = length-pull (named cancels) (take (bid_count old) old.levels) in
    let same : bid_count old - 0 ≡ bid_count old = omega arith in
    let counts =
      count_survivors_lem old.hi_bid_index old.levels 0 cancels (record { levels = 0; bids = 0 })
        v.word (omega (arith, v.few)) (omega (arith, v.few)) b v.ascending m
        (length (pull (named cancels) old.levels)) (omega arith)
        (length (pull (named cancels) (take (bid_count old) old.levels))) (rw same (omega arith)) in
    rw counts (
      withdrawn (named cancels) old _ _ v e refl refl
          (ground (arith, bids, length-take (bid_count old) old.levels, v.few))
          (ground (arith, bids, length-take (bid_count old) old.levels, v.few)),
      omega (arith, (e.valid start-IsWriter).stands),
    )
