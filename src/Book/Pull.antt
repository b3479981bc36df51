-- ===== src/Book/Pull.antt =====
-- Laws of `pull`, and when a snapshot that was written is the old book with orders withdrawn.
use tiltyard.Base.{
  ℕ, zero, suc, ◌≤◌, ◌<◌, ◌≡◌, refl, ap, ◌∙◌, Bool, List, [], ◌∷◌, ◌++◌, map, length, take, drop,
  All, reject, take-append-drop, length-append, length-reject, arith,
}
use tiltyard.Book.Types.{Entry, Level, Book, Writer}
use tiltyard.Book.Level.{start}
use tiltyard.Book.Shape.{
  total, IsLevel, Above, Ascending, bid_count, IsBook, bare, depth, keep_level, pulled, pull,
  withdraw, Extends, start-IsWriter,
}

total-reject : (p : Entry → Bool) (es : List Entry) → total (reject p es) ≤ total es
unfolding reject
total-reject p [] = omega arith
total-reject p (e ∷ es) = ground (arith, total-reject p es)

positive-reject :
    (p : Entry → Bool) (es : List Entry)
    → All (λ (e : Entry). 0 < e.quantity) es
    → All (λ (e : Entry). 0 < e.quantity) (reject p es)
unfolding reject
positive-reject p [] h = tt
positive-reject p (e ∷ es) h = ground (arith, positive-reject p es h.1)

-- A level of kept orders, if any are kept.
pulled-All :
    (P : Level → Type 0) (price : ℕ) (es : List Entry) (rest : List Level)
    → (0 < length es
        → P (record { price = price; byte_offset = 0; quantity = total es; entries = es }))
    → All P rest
    → All P (pulled price es rest)
pulled-All P price [] rest f h = h
pulled-All P price (e ∷ es) rest f h = (f (omega arith), h)

pub pull-IsLevel :
    (hit : ℕ → ℕ → Bool) (ls : List Level) → All IsLevel ls → All IsLevel (pull hit ls)
unfolding pull
pull-IsLevel hit [] h = tt
pull-IsLevel hit (l ∷ ls) h =
    let p = λ (e : Entry). hit l.price e.order_id in
    pulled-All IsLevel l.price (keep_level hit l) (pull hit ls)
      (λ c. record {
        counted = refl;
        fits = omega (arith, total-reject p l.entries, h.0.fits);
        short = omega (arith, length-reject p l.entries, h.0.short);
        occupied = c;
        positive = positive-reject p l.entries h.0.positive;
      })
      (pull-IsLevel hit ls h.1)

pull-Above : (hit : ℕ → ℕ → Bool) (p : ℕ) (ls : List Level) → Above p ls → Above p (pull hit ls)
unfolding pull
pull-Above hit p [] h = tt
pull-Above hit p (l ∷ ls) h =
    pulled-All (λ (m : Level). p < m.price) l.price (keep_level hit l) (pull hit ls) (λ _. h.0)
      (pull-Above hit p ls h.1)

pulled-Ascending :
    (price : ℕ) (es : List Entry) (rest : List Level)
    → Above price rest
    → Ascending rest
    → Ascending (pulled price es rest)
pulled-Ascending price [] rest h a = a
pulled-Ascending price (e ∷ es) rest h a = (h, a)

pub pull-Ascending : (hit : ℕ → ℕ → Bool) (ls : List Level) → Ascending ls → Ascending (pull hit ls)
unfolding pull
pull-Ascending hit [] h = tt
pull-Ascending hit (l ∷ ls) h =
    pulled-Ascending l.price (keep_level hit l) (pull hit ls) (pull-Above hit l.price ls h.0)
      (pull-Ascending hit ls h.1)

pub pulled-append :
    (price : ℕ) (es : List Entry) (xs ys : List Level)
    → pulled price es (xs ++ ys) ≡ pulled price es xs ++ ys
pulled-append price [] xs ys = refl
pulled-append price (e ∷ es) xs ys = refl

pub pull-append :
    (hit : ℕ → ℕ → Bool) (xs ys : List Level) → pull hit (xs ++ ys) ≡ pull hit xs ++ pull hit ys
unfolding pull
pull-append hit [] ys = refl
pull-append hit (x ∷ xs) ys =
    ap (pulled x.price (keep_level hit x)) (pull-append hit xs ys)
    ∙ pulled-append x.price (keep_level hit x) (pull hit xs) (pull hit ys)

pub pull-bare : (hit : ℕ → ℕ → Bool) (ls : List Level) → pull hit (map bare ls) ≡ pull hit ls
unfolding pull
pull-bare hit [] = refl
pull-bare hit (l ∷ ls) = ap (pulled l.price (keep_level hit l)) (pull-bare hit ls)

length-pulled :
    (price : ℕ) (es : List Entry) (rest : List Level)
    → length (pulled price es rest) ≤ suc (length rest)
length-pulled price [] rest = omega arith
length-pulled price (e ∷ es) rest = omega arith

pub length-pull : (hit : ℕ → ℕ → Bool) (ls : List Level) → length (pull hit ls) ≤ length ls
unfolding pull
length-pull hit [] = omega arith
length-pull hit (l ∷ ls) =
    omega (arith, length-pulled l.price (keep_level hit l) (pull hit ls), length-pull hit ls)

pub length-map-bare : (ls : List Level) → length (map bare ls) ≡ length ls
length-map-bare [] = refl
length-map-bare (l ∷ ls) = ap suc (length-map-bare ls)

-- What a view shows of soundness.
IsLevel-bare : (l : Level) → IsLevel (bare l) → IsLevel l
IsLevel-bare l v = record {
  counted = v.counted;
  fits = v.fits;
  short = v.short;
  occupied = v.occupied;
  positive = v.positive;
}

pub sound-bare : (ls : List Level) → All IsLevel (map bare ls) → All IsLevel ls
sound-bare [] h = tt
sound-bare (l ∷ ls) h = (IsLevel-bare l h.0, sound-bare ls h.1)

Above-bare : (p : ℕ) (ls : List Level) → Above p (map bare ls) → Above p ls
Above-bare p [] h = tt
Above-bare p (l ∷ ls) h = (h.0, Above-bare p ls h.1)

pub Ascending-bare : (ls : List Level) → Ascending (map bare ls) → Ascending ls
Ascending-bare [] h = tt
Ascending-bare (l ∷ ls) h = (Above-bare l.price ls h.0, Ascending-bare ls h.1)

map-take : (n : ℕ) (ls : List Level) → map bare (take n ls) ≡ take n (map bare ls)
map-take zero ls = refl
map-take (suc n) [] = refl
map-take (suc n) (l ∷ ls) = ap (◌∷◌ (bare l)) (map-take n ls)

map-drop : (n : ℕ) (ls : List Level) → map bare (drop n ls) ≡ drop n (map bare ls)
map-drop zero ls = refl
map-drop (suc n) [] = refl
map-drop (suc n) (l ∷ ls) = map-drop n ls

take-front : (xs ys : List Level) → take (length xs) (xs ++ ys) ≡ xs
take-front [] ys = refl
take-front (x ∷ xs) ys = ap (◌∷◌ x) (take-front xs ys)

drop-front : (xs ys : List Level) → drop (length xs) (xs ++ ys) ≡ ys
drop-front [] ys = refl
drop-front (x ∷ xs) ys = drop-front xs ys

-- The sides of a book whose levels are `xs` and then `ys`, with as many bids as `xs`.
pub depth_of :
    (b : Book) (xs ys : List Level)
    → map bare b.levels ≡ xs ++ ys
    → bid_count b ≡ length xs
    → depth b ≡ record { bids = xs; asks = ys }
depth_of b xs ys e n =
    let bids : map bare (take (bid_count b) b.levels) ≡ xs =
      map-take (bid_count b) b.levels ∙ rw (e, n) (take-front xs ys) in
    let asks : map bare (drop (bid_count b) b.levels) ≡ ys =
      map-drop (bid_count b) b.levels ∙ rw (e, n) (drop-front xs ys) in
    λ i. record { bids = bids i; asks = asks i }

-- A snapshot with the levels that `pull` leaves, its counts right, is the old book withdrawn from.
module _ (hit : ℕ → ℕ → Bool) (old new : Book) where
  abbrev pub IsWithdrawn : Type 0
  IsWithdrawn = IsBook new × (depth new ≡ withdraw hit (depth old))

  pub withdrawn :
      (w : Writer)
      → IsBook old
      → Extends start (pull hit old.levels) w
      → new.levels ≡ w.levels
      → new.level_count ≡ length (pull hit old.levels)
      → bid_count new ≡ length (pull hit (take (bid_count old) old.levels))
      → new.hi_bid_index < 65536
      → IsWithdrawn
  withdrawn w v e same count bids word =
      let n = bid_count old in
      let contents : map bare new.levels ≡ pull hit old.levels = rw same e.contents in
      let split : pull hit old.levels
          ≡ pull hit (take n old.levels) ++ pull hit (drop n old.levels) =
        rw (
          ← pull-append hit (take n old.levels) (drop n old.levels),
          take-append-drop n old.levels,
        ) in
      (
        record {
          counted = omega (arith, length-map-bare new.levels, ap length contents);
          few = omega (
            arith,
            length-map-bare new.levels,
            ap length contents,
            length-pull hit old.levels,
            v.few,
          );
          laid_out = rw same (e.valid start-IsWriter).laid_out;
          sound = sound-bare new.levels (rw contents (pull-IsLevel hit old.levels v.sound));
          ascending =
              Ascending-bare new.levels (rw contents (pull-Ascending hit old.levels v.ascending));
          boundary = omega (
            arith,
            length-map-bare new.levels,
            ap length (contents ∙ split),
            length-append (pull hit (take n old.levels)) (pull hit (drop n old.levels)),
          );
          word = word;
        },
        depth_of new (pull hit (take n old.levels)) (pull hit (drop n old.levels))
              (contents ∙ split) bids
            ∙ simp pull-bare,
      )
