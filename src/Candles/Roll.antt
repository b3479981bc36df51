-- ===== src/Candles/Roll.antt =====
-- What a trade makes of the candles held.
use tiltyard.Base.{
  ℕ, ◌+◌, ◌-◌, ◌*◌, ◌/◌, ◌%◌, ◌≤◌, ◌<◌, ◌≡◌, ◌⊎◌, refl, sym, ap, ◌∙◌, List, [], ◌∷◌, ◌++◌, none,
  some, length, length-append, u32, ◌==◌, if◌then◌else◌, arith, Bool-cases, inl, inr, append_assoc,
}
use tiltyard.Ring.{CircularBuffer}
use tiltyard.Ring.Cells.{wrap_lem, get_elem?-append}
use tiltyard.Ring.Queue.{Holds, set_entry_lem, queue_lem}
use tiltyard.Memory.{length-set, get_or-set}
use tiltyard.Ring.Front.{last_lem, last-nil}
use tiltyard.Candles.{Candle, update_candle, write_last, update_or_add_candle}

-- The prices of a candle are in order.
pub record IsCandle (candle : Candle) : Type 0 where
  pub open_above : candle.lo ≤ candle.open_price
  pub open_below : candle.open_price ≤ candle.hi
  pub close_above : candle.lo ≤ candle.close
  pub close_below : candle.close ≤ candle.hi

-- A candle with one trade more.
pub record Updated (candle : Candle) (price quantity : ℕ) (candle' : Candle) : Type 0 where
  pub valid : IsCandle candle'
  pub covers : (candle'.lo ≤ price) × (price ≤ candle'.hi)
  pub wider : (candle'.lo ≤ candle.lo) × (candle.hi ≤ candle'.hi)
  pub tight :
      ((candle'.lo ≡ candle.lo) ⊎ (candle'.lo ≡ price))
      × ((candle'.hi ≡ candle.hi) ⊎ (candle'.hi ≡ price))
  pub closes : candle'.close ≡ price
  pub opened : candle'.open_price ≡ candle.open_price
  pub traded : candle'.volume ≡ u32 (candle.volume + quantity)
  pub slot : (candle'.time ≡ candle.time) × (candle'.duration ≡ candle.duration)

-- `update_candle` on a candle whose prices are in order: they stay in order, the range becomes the
-- least that has the old range and the price, the price is the new close, the open and the time slot
-- stay, and the volume grows by the quantity, modulo 2 ^ 32.
pub update_candle_lem :
    (candle : Candle) (price quantity : ℕ)
    → IsCandle candle
    → Updated candle price quantity (update_candle candle price quantity)
unfolding update_candle
update_candle_lem candle price quantity v = record {
  valid = record {
    open_above = ground (arith, v.open_above, v.open_below, v.close_above, v.close_below);
    open_below = ground (arith, v.open_above, v.open_below, v.close_above, v.close_below);
    close_above = ground (arith, v.open_above, v.open_below, v.close_above, v.close_below);
    close_below = ground (arith, v.open_above, v.open_below, v.close_above, v.close_below);
  };
  covers = ground (arith, v.open_above, v.open_below, v.close_above, v.close_below);
  wider = ground (arith, v.open_above, v.open_below, v.close_above, v.close_below);
  tight = (ground arith, ground arith);
  closes = ground arith;
  opened = ground arith;
  traded = ground arith;
  slot = ground arith;
}

-- The candles after a trade: the last one takes it where it is of the trade's time slot, and else a
-- new candle follows.
abbrev pub rolled : List Candle → Candle → ℕ → ℕ → List Candle
rolled [] c ns duration = record c { duration = duration; time = ns / duration * duration } ∷ []
rolled (cur ∷ []) c ns duration =
    if cur.time == ns / duration * duration
    then update_candle cur c.close c.volume ∷ []
    else cur ∷ record c { duration = duration; time = ns / duration * duration } ∷ []
rolled (cur ∷ next ∷ rest) c ns duration = cur ∷ rolled (next ∷ rest) c ns duration

rolled-snoc :
    (xs : List Candle) (cur c : Candle) (ns duration : ℕ)
    → rolled (xs ++ cur ∷ []) c ns duration ≡ xs ++ rolled (cur ∷ []) c ns duration
rolled-snoc [] cur c ns duration = refl
rolled-snoc (x ∷ []) cur c ns duration = refl
rolled-snoc (x ∷ y ∷ xs) cur c ns duration = ap (◌∷◌ x) (rolled-snoc (y ∷ xs) cur c ns duration)

-- A list is empty or has a last element.
last_cases :
    (xs : List Candle) → (xs ≡ []) ⊎ ((ys : List Candle) × (y : Candle) × (xs ≡ ys ++ y ∷ []))
last_cases [] = inl refl
last_cases (x ∷ xs) = elim (last_cases xs) [
  | inl e ↦ inr ([], x, ap (◌∷◌ x) e)
  | inr (ys, y, e) ↦ inr (x ∷ ys, y, ap (◌∷◌ x) e)
]

-- A write through the pointer to the last entry.
write_last-Holds :
    (cb : CircularBuffer Candle) (xs : List Candle) (x y : Candle)
    → Holds cb (xs ++ x ∷ [])
    → Holds (write_last cb y) (xs ++ y ∷ [])
unfolding write_last
write_last-Holds cb xs x y h =
    let size = length-append xs (x ∷ []) in
    let size' = length-append xs (y ∷ []) in
    let b = h.started (omega (arith, size)) in
    let stop = wrap_lem (cb.start + length (xs ++ x ∷ [])) cb.capacity (omega (arith, h.fits)) in
    let e = h.ended (omega (arith, size)) in
    let inside : cb.end < cb.capacity = ground (arith, stop, h.fits) in
    let small : u32 (cb.end + cb.capacity - 1) ≡ cb.end + cb.capacity - 1 =
      omega (arith, h.word, h.positive) in
    let at = wrap_lem (cb.start + length xs) cb.capacity (omega (arith, size, h.fits)) in
    let before : (cb.end + cb.capacity - 1) % cb.capacity ≡ (cb.start + length xs) % cb.capacity =
      ground (arith, size, stop, h.fits, wrap_lem (cb.end + cb.capacity - 1) cb.capacity, at) in
    let below : (cb.start + length xs) % cb.capacity < cb.capacity = ground (arith, at) in
    let here : (cb.start + length xs) % cb.capacity < length cb.buffer =
      omega (arith, below, h.size) in
    rw (small, before, set_entry_lem cb (xs ++ x ∷ []) _ y h below)
      (record {
        size = length-set cb.buffer ((cb.start + length xs) % cb.capacity) (some y) ∙ h.size;
        positive = h.positive;
        word = h.word;
        entry = h.entry;
        bytes = h.bytes;
        fits = omega (arith, size, size', h.fits);
        vacant = λ z. absurd (omega (arith, size'));
        started = λ _. b;
        ended = λ _. e ∙ ap (λ (n : ℕ). (cb.start + n) % cb.capacity) (size ∙ sym size');
        cells = λ i k. ground (
          arith,
          size,
          size',
          at,
          here,
          h.fits,
          h.cells i,
          wrap_lem (cb.start + i) cb.capacity,
          get_or-set cb.buffer ((cb.start + length xs) % cb.capacity) ((cb.start + i) % cb.capacity)
              (some y) none,
          get_elem?-append xs (x ∷ []) i,
          get_elem?-append xs (y ∷ []) i,
        );
      })

-- `update_or_add_candle` on a buffer that holds candles and whose capacity is at most 2 ^ 30,
-- where twice the buffer has at most 2 ^ 32 bytes: it succeeds, and the buffer holds the same candles but that the last one took the trade, if the trade
-- is in its time slot, or a new candle of the trade's slot follows.
pub update_or_add_candle_lem :
    (candles : CircularBuffer Candle) (xs : List Candle) (c : Candle) (ns duration : ℕ)
    → Holds candles xs
    → candles.capacity ≤ 1073741824
    → candles.capacity * 2 * candles.type_size ≤ 4294967296
    → (r : CircularBuffer Candle) × (update_or_add_candle candles c ns duration ≡ some r)
      × Holds r (rolled xs c ns duration)
unfolding update_or_add_candle
update_or_add_candle_lem candles xs c ns duration h small bytes = elim (last_cases xs) [
  | inl e ↦
      let new : Candle = record c { duration = duration; time = ns / duration * duration } in
      let none_held : Holds candles [] = rw e at h in
      let (r, q, k) = queue_lem candles [] new none_held small bytes in
      rw (e, last-nil candles none_held, update_or_add_candle) (r, q, k)
  | inr (ys, y, e) ↦
      let some_held : Holds candles (ys ++ y ∷ []) = rw e at h in
      rw (e, rolled-snoc ys y c ns duration, last_lem candles ys y some_held, update_or_add_candle)
        (elim (Bool-cases (y.time == ns / duration * duration)) [
          | inl t ↦
              rw t (
                _,
                refl,
                write_last-Holds candles ys y (update_candle y c.close c.volume) some_held,
              )
          | inr n ↦
              let new : Candle = record c {
                duration = duration;
                time = ns / duration * duration;
              } in
              let (r, q, k) = queue_lem candles (ys ++ y ∷ []) new some_held small bytes in
              rw n (r, q, rw (append_assoc ys (y ∷ []) (new ∷ [])) at k)
        ])
]
