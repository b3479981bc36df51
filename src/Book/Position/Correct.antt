-- ===== src/Book/Position/Correct.antt =====
-- `ob_queue_position` is the sum of the orders in front.
use tiltyard.Base.{
  ℕ, ◌+◌, ◌<◌, ◌≡◌, refl, ◌∙◌, true, false, List, [], ◌∷◌, Option, none, some, max_u32, u32, ◌==◌,
  All, arith, Bool-cases, inl, inr,
}
use tiltyard.Book.Types.{Entry, Level, Book}
use tiltyard.Book.Shape.{total, IsLevel, IsBook}
use tiltyard.Book.Cancel.Written.{first_at}
use tiltyard.Book.Position.{quantity_before, position_in, queue_position}

-- The shares in front of the first order with the id, where there is one.
abbrev pub in_front : ℕ → List Entry → Option ℕ
in_front id [] = none
in_front id (e ∷ es) = elim (e.order_id == id) [
  | true ↦ some 0
  | false ↦ elim (in_front id es) [ none ↦ none | some n ↦ some (e.quantity + n) ]
]

-- What a client reads: the shares in front, or 2 ^ 32 - 1 where the order is not there.
abbrev pub position : ℕ → Option Level → ℕ
position id none = max_u32
position id (some l) = elim (in_front id l.entries) [ none ↦ max_u32 | some n ↦ n ]

quantity_before_lem :
    (id : ℕ) (es : List Entry) (before : ℕ)
    → before + total es < 4294967296
    → quantity_before id es before
      ≡ (elim (in_front id es) [ none ↦ max_u32 | some n ↦ before + n ])
unfolding quantity_before
quantity_before_lem id [] before h = refl
quantity_before_lem id (e ∷ es) before h =
    ground (arith, quantity_before_lem id es (u32 (before + e.quantity)))

position_in_lem :
    (price id : ℕ) (ls : List Level)
    → All IsLevel ls
    → position_in price id ls ≡ position id (first_at price ls)
unfolding position_in
position_in_lem price id [] v = refl
position_in_lem price id (l ∷ ls) v = elim (Bool-cases (l.price == price)) [
  | inl y ↦
      let here = quantity_before_lem id l.entries 0 (omega (arith, v.0.fits)) in
      rw y (here ∙ plain (in_front id l.entries))
  | inr n ↦ rw n (position_in_lem price id ls v.1)
]
  where
    plain :
        (o : Option ℕ)
        → (elim o [ none ↦ max_u32 | some n ↦ 0 + n ]) ≡ (elim o [ none ↦ max_u32 | some n ↦ n ])
    plain none = refl
    plain (some n) = omega arith

-- `ob_queue_position` on a sound book: the shares of the orders in front of the order in the queue of
-- its price, and 2 ^ 32 - 1 where the price or the order is not in the book.
pub queue_position_lem :
    (price id : ℕ) (book : Book)
    → IsBook book
    → queue_position price id book ≡ position id (first_at price book.levels)
unfolding queue_position
queue_position_lem price id book v = position_in_lem price id book.levels v.sound
