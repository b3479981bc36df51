-- ===== src/Book/Shape.antt =====
-- What a sound book snapshot is, and the view of it that the byte layout leaves out of account.
use tiltyard.Base.{
  ℕ, ◌+◌, ◌*◌, ◌≤◌, ◌<◌, ◌≡◌, refl, sym, ap, ◌∙◌, Bool, List, [], ◌∷◌, ◌++◌, map, append-nil,
  append_assoc, length, take, drop, All, reject, length-append, u16, arith,
}
use tiltyard.Book.Types.{Entry, Level, Book, Writer}
use tiltyard.Book.Level.{jump, start}

-- The shares of a queue of orders.
abbrev pub total : List Entry → ℕ
total [] = 0
total (e ∷ es) = e.quantity + total es

-- An indexed level: some orders, none of them empty, fewer than 8192, with their sum in the index.
pub record IsLevel (l : Level) : Type 0 where
  pub counted : l.quantity ≡ total l.entries
  pub fits : total l.entries < 4294967296
  pub short : length l.entries < 8192
  pub occupied : 0 < length l.entries
  pub positive : All (λ (e : Entry). 0 < e.quantity) l.entries

-- Every price lies above `p`.
abbrev pub Above : ℕ → List Level → Type 0
Above p ls = All (λ (l : Level). p < l.price) ls

abbrev pub Ascending : List Level → Type 0
Ascending [] = Unit
Ascending (l ∷ ls) = Above l.price ls × Ascending ls

-- The levels follow one another in the blob, from offset `at` on.
abbrev pub LaidOut : ℕ → List Level → Type 0
LaidOut at [] = Unit
LaidOut at (l ∷ ls) = (l.byte_offset ≡ at) × LaidOut (at + (4 + length l.entries * 8)) ls

-- The bytes that the levels take.
abbrev pub extent : List Level → ℕ
extent [] = 0
extent (l ∷ ls) = 4 + length l.entries * 8 + extent ls

-- How many levels are bids.
abbrev pub bid_count : Book → ℕ
bid_count b = u16 (b.hi_bid_index + 1)

pub record IsBook (b : Book) : Type 0 where
  pub counted : b.level_count ≡ length b.levels
  pub few : length b.levels < 65535
  pub laid_out : LaidOut 0 b.levels
  pub sound : All IsLevel b.levels
  pub ascending : Ascending b.levels
  pub boundary : bid_count b ≤ length b.levels
  pub word : b.hi_bid_index < 65536

-- A level without its place in the blob.
abbrev pub bare : Level → Level
bare l = record l { byte_offset = 0 }

-- The two sides of the market, in ascending order of price.
pub record Depth : Type 0 where
  pub bids : List Level
  pub asks : List Level

abbrev pub depth : Book → Depth
depth b = record {
  bids = map bare (take (bid_count b) b.levels);
  asks = map bare (drop (bid_count b) b.levels);
}

-- Withdrawing orders: each order that `hit` names by price and id leaves, and with its last order
-- a level leaves too.
abbrev pub keep_level : (ℕ → ℕ → Bool) → Level → List Entry
keep_level hit l = reject (λ (e : Entry). hit l.price e.order_id) l.entries

abbrev pub pulled : ℕ → List Entry → List Level → List Level
pulled price [] rest = rest
pulled price (e ∷ es) rest =
    record { price = price; byte_offset = 0; quantity = total (e ∷ es); entries = e ∷ es } ∷ rest

unfoldable pub pull : (ℕ → ℕ → Bool) → List Level → List Level
pull hit [] = []
pull hit (l ∷ ls) = pulled l.price (keep_level hit l) (pull hit ls)

abbrev pub withdraw : (ℕ → ℕ → Bool) → Depth → Depth
withdraw hit d = record { bids = pull hit d.bids; asks = pull hit d.asks }

-- What a writer has behind it: levels laid out from offset 0, to where it stands.
pub record IsWriter (w : Writer) : Type 0 where
  pub laid_out : LaidOut 0 w.levels
  pub stands : w.level ≡ extent w.levels
  pub index : w.index ≡ u16 (length w.levels)

-- From `w` to `w'` the levels `xs` were written.
pub record Extends (w : Writer) (xs : List Level) (w' : Writer) : Type 0 where
  pub valid : IsWriter w → IsWriter w'
  pub contents : map bare w'.levels ≡ map bare w.levels ++ xs

pub LaidOut-append :
    (at : ℕ) (xs ys : List Level)
    → LaidOut at xs
    → LaidOut (at + extent xs) ys
    → LaidOut at (xs ++ ys)
LaidOut-append at [] ys h k = let e : at + 0 ≡ at = omega arith in rw e at k
LaidOut-append at (x ∷ xs) ys h k =
    let e : at + (4 + length x.entries * 8 + extent xs)
        ≡ at + (4 + length x.entries * 8) + extent xs =
      omega arith in
    (h.0, LaidOut-append (at + (4 + length x.entries * 8)) xs ys h.1 (rw e at k))

pub extent-append : (xs ys : List Level) → extent (xs ++ ys) ≡ extent xs + extent ys
extent-append [] ys = omega arith
extent-append (x ∷ xs) ys = omega (arith, extent-append xs ys)

pub map-bare-append : (xs ys : List Level) → map bare (xs ++ ys) ≡ map bare xs ++ map bare ys
map-bare-append [] ys = refl
map-bare-append (x ∷ xs) ys = ap (◌∷◌ (bare x)) (map-bare-append xs ys)

pub start-IsWriter : IsWriter start
start-IsWriter = omega arith

pub Extends-refl : (w : Writer) → Extends w [] w
Extends-refl w = record { valid = λ v. v; contents = sym (append-nil (map bare w.levels)) }

pub Extends-trans :
    {w w' w'' : Writer} (xs ys : List Level)
    → Extends w xs w'
    → Extends w' ys w''
    → Extends w (xs ++ ys) w''
Extends-trans {w} xs ys e f = record {
  valid = λ v. f.valid (e.valid v);
  contents =
      f.contents
      ∙ ap (λ (zs : List Level). zs ++ ys) e.contents
      ∙ append_assoc (map bare w.levels) xs ys;
}

-- Jumping over a level written at the writer's own offset.
pub Extends-jump :
    (w : Writer) (l : Level) → l.byte_offset ≡ w.level → Extends w (bare l ∷ []) (jump w l)
unfolding jump
Extends-jump w l e = record {
  valid = λ v. record {
    laid_out = LaidOut-append 0 w.levels (l ∷ []) v.laid_out (omega (arith, v.stands), tt);
    stands = omega (arith, v.stands, extent-append w.levels (l ∷ []));
    index = omega (arith, v.index, length-append w.levels (l ∷ []));
  };
  contents = map-bare-append w.levels (l ∷ []);
}
