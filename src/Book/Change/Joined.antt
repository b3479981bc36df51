-- ===== src/Book/Change/Joined.antt =====
-- A level of a book that an order joins, at the end of its queue.
use tiltyard.Base.{
  ℕ, zero, suc, ◌+◌, ◌<◌, ◌≡◌, refl, sym, ap, ◌∙◌, List, [], ◌∷◌, ◌++◌, map, length, take, drop,
  All, get_or, arith,
}
use tiltyard.Order.{Order}
use tiltyard.Book.Types.{Entry, Level}
use tiltyard.Book.Shape.{Ascending, total, extent, bare, map-bare-append}
use tiltyard.Book.Range.{no_level}
use tiltyard.Book.Range.Places.{price_at}

-- The levels with the one at index `i` changed.
unfoldable pub set : ℕ → Level → List Level → List Level
set i new levels = take i levels ++ new ∷ drop (suc i) levels

abbrev pub level_at : List Level → ℕ → Level
level_at levels i = get_or levels i no_level

-- An order joins a level.
abbrev pub joined : ℕ → Order → Level → Level
joined id o l = record l {
  quantity = l.quantity + o.quantity;
  entries = l.entries ++ record { order_id = id; quantity = o.quantity } ∷ [];
}

pub All-at :
    (P : Level → Type 0) (i : ℕ) (ls : List Level) → All P ls → i < length ls → P (level_at ls i)
All-at P i [] v h = absurd (omega arith)
All-at P zero (l ∷ ls) v h = v.0
All-at P (suc i) (l ∷ ls) v h = All-at P i ls v.1 (omega arith)

pub set-All :
    (P : Level → Type 0) (i : ℕ) (new : Level) (ls : List Level)
    → P new
    → i < length ls
    → All P ls
    → All P (set i new ls)
unfolding set
set-All P i new [] h b v = absurd (omega arith)
set-All P zero new (l ∷ ls) h b v = (h, v.1)
set-All P (suc i) new (l ∷ ls) h b v = (v.0, set-All P i new ls h (omega arith) v.1)

pub length-set :
    (i : ℕ) (new : Level) (ls : List Level) → i < length ls → length (set i new ls) ≡ length ls
unfolding set
length-set i new [] b = absurd (omega arith)
length-set zero new (l ∷ ls) b = refl
length-set (suc i) new (l ∷ ls) b = ap suc (length-set i new ls (omega arith))

pub extent-set :
    (i : ℕ) (new : Level) (ls : List Level)
    → i < length ls
    → length new.entries ≡ length (level_at ls i).entries + 1
    → extent (set i new ls) ≡ extent ls + 8
unfolding set
extent-set i new [] b e = absurd (omega arith)
extent-set zero new (l ∷ ls) b e = omega (arith, e)
extent-set (suc i) new (l ∷ ls) b e = omega (arith, extent-set i new ls (omega arith) e)

pub set-Ascending :
    (i : ℕ) (new : Level) (ls : List Level)
    → i < length ls
    → new.price ≡ price_at ls i
    → Ascending ls
    → Ascending (set i new ls)
unfolding set
set-Ascending i new [] b e v = absurd (omega arith)
set-Ascending zero new (l ∷ ls) b e v = rw e v
set-Ascending (suc i) new (l ∷ ls) b e v = (
  set-All (λ (m : Level). l.price < m.price) i new ls
      (rw e (All-at (λ (m : Level). l.price < m.price) i ls v.0 (omega arith))) (omega arith) v.0,
  set-Ascending i new ls (omega arith) e v.1,
)

pub total-append : (xs ys : List Entry) → total (xs ++ ys) ≡ total xs + total ys
total-append [] ys = omega arith
total-append (x ∷ xs) ys = omega (arith, total-append xs ys)

pub set-bare :
    (i : ℕ) (new : Level) (at : ℕ) (ls : List Level)
    → map bare (set i (record new { byte_offset = at }) ls) ≡ map bare (set i new ls)
unfolding set
set-bare i new at ls =
    map-bare-append (take i ls) (record new { byte_offset = at } ∷ drop (suc i) ls)
    ∙ sym (map-bare-append (take i ls) (new ∷ drop (suc i) ls))
