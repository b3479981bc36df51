-- ===== src/Book/Range/Places.antt =====
-- Where an order rests that trades with nobody.
use tiltyard.Base.{
  ℕ, zero, suc, ◌+◌, ◌≤◌, ◌<◌, ◌≡◌, ◌⊎◌, refl, ap, ◌∙◌, Bool, true, false, ◌&&◌, not, List, [], ◌∷◌,
  length, get_or, max_u16, u16, sub16, ltb, ◌==◌, if◌then◌else◌, arith, Bool-cases, inl, inr,
}
use tiltyard.Book.Types.{Level, Book}
use tiltyard.Book.Shape.{IsBook, Above, Ascending, bid_count}
use tiltyard.Book.Range.{Op, Place, no_level, back, worse, place, rest_place}

abbrev pub price_at : List Level → ℕ → ℕ
price_at levels i = (get_or levels i no_level).price

Above-get : (p : ℕ) (ls : List Level) (i : ℕ) → Above p ls → i < length ls → p < price_at ls i
Above-get p [] i v h = absurd (omega arith)
Above-get p (l ∷ ls) zero v h = v.0
Above-get p (l ∷ ls) (suc i) v h = Above-get p ls i v.1 (omega arith)

pub prices_climb :
    (ls : List Level) (i j : ℕ)
    → Ascending ls
    → i < j
    → j < length ls
    → price_at ls i < price_at ls j
prices_climb [] i j v h k = absurd (omega arith)
prices_climb (l ∷ ls) i zero v h k = absurd (omega arith)
prices_climb (l ∷ ls) zero (suc j) v h k = Above-get l.price ls j v.0 (omega arith)
prices_climb (l ∷ ls) (suc i) (suc j) v h k = prices_climb ls i j v.1 (omega arith) (omega arith)

-- A new level at index `i` keeps the prices ascending.
pub record IsGap (levels : List Level) (price i : ℕ) : Type 0 where
  pub inside : i ≤ length levels
  pub below : (k : ℕ) → k < i → price_at levels k < price
  pub above : (k : ℕ) → i ≤ k → k < length levels → price < price_at levels k

-- The place of an order at a price: the level that has it, or the gap for a new level between `hui`
-- and `lui`, where `hui` is one below `lui`.
abbrev pub IsPlace : List Level → ℕ → Op → ℕ → ℕ → Type 0
IsPlace levels price op lui hui =
    ((op ≡ Op.append) × (lui ≡ hui) × (lui < length levels) × (price_at levels lui ≡ price))
    ⊎ ((op ≡ Op.new) × (u16 (hui + 1) ≡ lui) × (hui < 65536) × IsGap levels price lui)

-- What the search finds at the level `i`, which is the next one out: `new` is the gap before it.
abbrev round : List Level → Bool → ℕ → ℕ → Place → Place → Place
round levels buy price i gap rest =
    if price == price_at levels i
    then record { op_type = Op.append; below = i; above = i }
    else if worse buy (price_at levels i) price
    then gap
    else rest

place-step :
    (fuel : ℕ) (levels : List Level) (buy : Bool) (price bottom at next : ℕ)
    → (at == bottom) ≡ false
    → back buy at ≡ next
    → place (suc fuel) levels buy price bottom at
      ≡ round levels buy price next
          (record { op_type = Op.new; below = at; above = next })
          (place fuel levels buy price bottom next)
unfolding place
place-step fuel levels buy price bottom at next out e = go ∙ ap after e
  where
    after : ℕ → Place
    after i =
        round levels buy price i (record { op_type = Op.new; below = at; above = i })
          (place fuel levels buy price bottom i)

    go : place (suc fuel) levels buy price bottom at ≡ after (back buy at)
    go = ground arith

place-end :
    (fuel : ℕ) (levels : List Level) (buy : Bool) (price bottom : ℕ)
    → place (suc fuel) levels buy price bottom bottom
      ≡ record { op_type = Op.new; below = bottom; above = back buy bottom }
unfolding place
place-end fuel levels buy price bottom = ground arith

place_buy :
    (fuel : ℕ) (levels : List Level) (price at : ℕ)
    → Ascending levels
    → length levels < 65535
    → at < fuel
    → at ≤ length levels
    → ((k : ℕ) → at ≤ k → k < length levels → price < price_at levels k)
    → let p = place fuel levels true price 0 at in IsPlace levels price p.op_type p.below p.above
place_buy zero levels price at v b f l up = absurd (omega arith)
place_buy (suc fuel) levels price zero v b f l up =
    unfold place in
    inr (
      refl,
      omega arith,
      omega arith,
      record { inside = omega arith; below = λ k h. absurd (omega arith); above = up },
    )
place_buy (suc fuel) levels price (suc at) v b f l up =
    rw (place-step fuel levels true price 0 (suc at) at (ground arith) (omega arith))
      (elim (Bool-cases (price == price_at levels at)) [
        | inl y ↦ rw y (inl (refl, refl, omega arith, ground arith))
        | inr m ↦ rw m (elim (Bool-cases (ltb (price_at levels at) price)) [
          | inl y ↦ rw y (
              inr (
                refl,
                omega arith,
                omega arith,
                record {
                  inside = l;
                  below = λ k h. ground (arith, prices_climb levels k at v);
                  above = up;
                },
              ))
          | inr n ↦ rw n (
              place_buy fuel levels price at v b (omega arith) (omega arith)
                (λ k h i. ground (arith, up k, prices_climb levels at k v)))
        ])
      ])

place_sell :
    (fuel : ℕ) (levels : List Level) (price at j : ℕ)
    → Ascending levels
    → length levels < 65535
    → length levels < j + fuel
    → j ≤ length levels
    → at < 65536
    → u16 (at + 1) ≡ j
    → ((k : ℕ) → k < j → price_at levels k < price)
    → let p = place fuel levels false price (sub16 (length levels) 1) at in
      IsPlace levels price p.op_type p.above p.below
place_sell zero levels price at j v b f l w e down = absurd (omega arith)
place_sell (suc fuel) levels price at j v b f l w e down =
    let bottom = sub16 (length levels) 1 in
    elim (Bool-cases (ltb j (length levels))) [
      | inl inner ↦
          rw (place-step fuel levels false price bottom at j (ground arith) e)
            (elim (Bool-cases (price == price_at levels j)) [
              | inl y ↦ rw y (inl (refl, refl, ground arith, ground arith))
              | inr m ↦ rw m (elim (Bool-cases (ltb price (price_at levels j))) [
                | inl y ↦ rw y (
                    inr (
                      refl,
                      e,
                      w,
                      record {
                        inside = l;
                        below = down;
                        above = λ k h i. ground (arith, prices_climb levels j k v);
                      },
                    ))
                | inr n ↦ rw n (
                    place_sell fuel levels price j (suc j) v b (omega arith) (ground arith)
                      (omega arith) (omega arith)
                      (λ k h. ground (arith, down k, prices_climb levels k j v)))
              ])
            ])
      | inr m ↦
          let all_below : j ≡ length levels = ground arith in
          let last : at ≡ bottom = omega arith in
          let done =
            ap (place (suc fuel) levels false price bottom) last
            ∙ place-end fuel levels false price bottom in
          rw done (
            inr (
              refl,
              omega arith,
              omega arith,
              record {
                inside = omega arith;
                below = λ k h. down k (omega arith);
                above = λ k h i. absurd (omega arith);
              },
            ))
    ]

-- No opponent's price is within reach: of a bid, every ask is above; of an ask, every bid is below.
abbrev pub IsPassive : Book → Bool → ℕ → Type 0
IsPassive book true price =
    (k : ℕ) → bid_count book ≤ k → k < length book.levels → price < price_at book.levels k
IsPassive book false price = (k : ℕ) → k < bid_count book → price_at book.levels k < price

pub rest_place_lem :
    (book : Book) (buy : Bool) (price : ℕ)
    → IsBook book
    → IsPassive book buy price
    → let p = rest_place book buy price in
      IsPlace book.levels price p.op_type
        (if buy then p.below else p.above)
        (if buy then p.above else p.below)
unfolding rest_place
rest_place_lem book true price v far =
    let hi = book.hi_bid_index in
    elim (Bool-cases (not (hi == max_u16) && ltb (price_at book.levels hi) price)) [
      | inl y ↦ rw y (
          inr (
            refl,
            refl,
            v.word,
            record {
              inside = v.boundary;
              below = λ k h.
                  ground (arith, v.word, v.boundary, prices_climb book.levels k hi v.ascending);
              above = far;
            },
          ))
      | inr n ↦ rw n (
          place_buy (length book.levels + 1) book.levels price (bid_count book) v.ascending v.few
            (omega (arith, v.boundary)) v.boundary far)
    ]
rest_place_lem book false price v far = rw v.counted (
    place_sell (length book.levels + 1) book.levels price book.hi_bid_index (bid_count book)
      v.ascending v.few (omega arith) v.boundary v.word refl far)
