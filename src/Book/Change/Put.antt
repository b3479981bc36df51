-- ===== src/Book/Change/Put.antt =====
-- A level put into the gap of a book where its price belongs.
use tiltyard.Base.{
  ℕ, zero, suc, ◌<◌, ◌≡◌, refl, ap, List, [], ◌∷◌, ◌++◌, map, length, take, drop, All, arith,
}
use tiltyard.Book.Types.{Level}
use tiltyard.Book.Shape.{IsLevel, Above, Ascending, bare}
use tiltyard.Book.Range.Places.{price_at, IsGap}

-- The levels with one more, at index `i`.
unfoldable pub put : ℕ → Level → List Level → List Level
put i new levels = take i levels ++ new ∷ drop i levels

pub put-All :
    (P : Level → Type 0) (i : ℕ) (new : Level) (ls : List Level)
    → P new
    → All P ls
    → All P (put i new ls)
unfolding put
put-All P zero new ls h v = (h, v)
put-All P (suc i) new [] h v = (h, tt)
put-All P (suc i) new (l ∷ ls) h v = (v.0, put-All P i new ls h v.1)

pub length-put : (i : ℕ) (new : Level) (ls : List Level) → length (put i new ls) ≡ suc (length ls)
unfolding put
length-put zero new ls = refl
length-put (suc i) new [] = refl
length-put (suc i) new (l ∷ ls) = ap suc (length-put i new ls)

pub put-bare :
    (i : ℕ) (new : Level) (ls : List Level)
    → map bare (put i new ls) ≡ put i (bare new) (map bare ls)
unfolding put
put-bare zero new ls = refl
put-bare (suc i) new [] = refl
put-bare (suc i) new (l ∷ ls) = ap (◌∷◌ (bare l)) (put-bare i new ls)

all-Above : (p : ℕ) (ls : List Level) → ((k : ℕ) → k < length ls → p < price_at ls k) → Above p ls
all-Above p [] h = tt
all-Above p (l ∷ ls) h = (h 0 (omega arith), all-Above p ls (λ k b. h (suc k) (omega arith)))

inner-IsGap : (p i : ℕ) (l : Level) (ls : List Level) → IsGap (l ∷ ls) p (suc i) → IsGap ls p i
inner-IsGap p i l ls g = record {
  inside = omega (arith, g.inside);
  below = λ k h. g.below (suc k) (omega arith);
  above = λ k h b. g.above (suc k) (omega arith) (omega arith);
}

-- At its gap a level keeps the prices in order.
pub put-Ascending :
    (i : ℕ) (new : Level) (ls : List Level)
    → IsGap ls new.price i
    → Ascending ls
    → Ascending (put i new ls)
unfolding put
put-Ascending zero new ls g v = (all-Above new.price ls (λ k b. g.above k (omega arith) b), v)
put-Ascending (suc i) new [] g v = absurd (omega (arith, g.inside))
put-Ascending (suc i) new (l ∷ ls) g v = (
  put-All (λ (m : Level). l.price < m.price) i new ls (g.below 0 (omega arith)) v.0,
  put-Ascending i new ls (inner-IsGap new.price i l ls g) v.1,
)

-- A price has one gap at most, and no gap where a level has it.
pub one_gap : (levels : List Level) (p i j : ℕ) → IsGap levels p i → IsGap levels p j → i ≡ j
one_gap levels p i j g h =
    ground (arith, g.inside, h.inside, g.below j, h.above j, h.below i, g.above i)

pub gap_fresh :
    (levels : List Level) (p i j : ℕ)
    → IsGap levels p i
    → j < length levels
    → price_at levels j ≡ p
    → ⊥
gap_fresh levels p i j g h e = ground (arith, g.below j, g.above j)

-- The view of sound levels shows them sound.
bare-IsLevel : (l : Level) → IsLevel l → IsLevel (bare l)
bare-IsLevel l v = record {
  counted = v.counted;
  fits = v.fits;
  short = v.short;
  occupied = v.occupied;
  positive = v.positive;
}

pub bare_sound : (ls : List Level) → All IsLevel ls → All IsLevel (map bare ls)
bare_sound [] h = tt
bare_sound (l ∷ ls) h = (bare-IsLevel l h.0, bare_sound ls h.1)

bare-Above : (p : ℕ) (ls : List Level) → Above p ls → Above p (map bare ls)
bare-Above p [] h = tt
bare-Above p (l ∷ ls) h = (h.0, bare-Above p ls h.1)

pub bare-Ascending : (ls : List Level) → Ascending ls → Ascending (map bare ls)
bare-Ascending [] h = tt
bare-Ascending (l ∷ ls) h = (bare-Above l.price ls h.0, bare-Ascending ls h.1)
