-- ===== src/Ring/Front.antt =====
-- The other operations of the circular buffer, on the queue that it holds.
use tiltyard.Base.{
  ℕ, suc, ◌+◌, ◌-◌, ◌*◌, ◌%◌, ◌≤◌, ◌<◌, ◌≡◌, refl, ap, ◌∙◌, inl, inr, false, List, [], ◌∷◌, ◌++◌,
  none, some, get_elem?, length, length-append, u32, ◌==◌, arith, Bool-cases,
}
use native.Mathlib.Nat.{mod-lt}
use tiltyard.Ring.{CircularBuffer, empty_start, entry_at, init, last, deque, count, at, clear}
use tiltyard.Ring.Cells.{wrap_lem, length-uninitialised, get_elem?-append}
use tiltyard.Ring.Queue.{Holds, entry_at_lem}

-- At `Type 0`, where the tactics split cases on the positions.
module _ {A : Type 0} where
  head_cell :
      (cb : CircularBuffer A) (x : A) (xs : List A)
      → Holds cb (x ∷ xs)
      → entry_at cb cb.start ≡ some x
  head_cell cb x xs h =
      let b = h.started (omega arith) in
      let c = h.cells 0 (omega arith) in
      let z : (cb.start + 0) % cb.capacity ≡ cb.start =
        ground (arith, wrap_lem (cb.start + 0) cb.capacity (omega arith)) in
      entry_at_lem cb (x ∷ xs) cb.start h b ∙ rw z at c

  vacant-Holds :
      (cb : CircularBuffer A) (xs : List A)
      → length cb.buffer ≡ cb.capacity
      → 0 < cb.capacity
      → cb.capacity ≤ 2147483648
      → 0 < cb.type_size
      → cb.capacity * cb.type_size ≤ 4294967296
      → length xs ≡ 0
      → Holds (record cb { start = empty_start; end = 0 }) xs
  vacant-Holds cb xs s p w q y z = record {
    size = s;
    positive = p;
    word = w;
    entry = q;
    bytes = y;
    fits = omega arith;
    vacant = λ _. (refl, refl);
    started = λ k. absurd (omega arith);
    ended = λ k. absurd (omega arith);
    cells = λ i k. absurd (omega arith);
  }

  rest-Holds :
      (cb : CircularBuffer A) (x : A) (xs : List A)
      → Holds cb (x ∷ xs)
      → 0 < length xs
      → Holds (record cb { start = (cb.start + 1) % cb.capacity }) xs
  rest-Holds cb x xs h k =
      let b = h.started (omega arith) in
      let step = wrap_lem (cb.start + 1) cb.capacity (omega (arith, h.positive)) in
      record {
        size = h.size;
        positive = h.positive;
        word = h.word;
        entry = h.entry;
        bytes = h.bytes;
        fits = omega (arith, h.fits);
        vacant = λ z. absurd (omega arith);
        started = λ _. ground (arith, step);
        ended = λ _. h.ended (omega arith) ∙ shifted (length xs) (omega (arith, h.fits));
        cells = λ i j. rw (← shifted i (omega (arith, h.fits))) (h.cells (suc i) (omega arith));
      }
    where
      shifted :
          (i : ℕ)
          → i < cb.capacity
          → (cb.start + suc i) % cb.capacity ≡ ((cb.start + 1) % cb.capacity + i) % cb.capacity
      shifted i l = ground (
        arith,
        h.started (omega arith),
        wrap_lem (cb.start + 1) cb.capacity,
        wrap_lem (cb.start + suc i) cb.capacity,
        wrap_lem ((cb.start + 1) % cb.capacity + i) cb.capacity,
      )

  -- `cb_deque` gives the oldest entry and leaves the others.
  pub deque_lem :
      (cb : CircularBuffer A) (x : A) (xs : List A)
      → Holds cb (x ∷ xs)
      → ((deque cb).0 ≡ some x) × Holds (deque cb).1 xs
  unfolding deque
  deque_lem cb x xs h =
      let b = h.started (omega arith) in
      let e = h.ended (omega arith) in
      let used : (cb.start == empty_start) ≡ false = ground (arith, h.word) in
      let step = wrap_lem (cb.start + 1) cb.capacity (omega (arith, h.positive)) in
      let stop = wrap_lem (cb.start + suc (length xs)) cb.capacity (omega (arith, h.fits)) in
      rw used (
        head_cell cb x xs h,
        elim (Bool-cases ((cb.start + 1) % cb.capacity == cb.end)) [
          | inl y ↦ rw y (
              vacant-Holds cb xs h.size h.positive h.word h.entry h.bytes
                (ground (arith, step, stop)))
          | inr n ↦ rw n (rest-Holds cb x xs h (ground (arith, step, stop)))
        ],
      )

  -- An empty buffer has nothing to give, and stays as it is.
  pub deque-nil : (cb : CircularBuffer A) → Holds cb [] → deque cb ≡ (none, cb)
  unfolding deque
  deque-nil cb h = ground (arith, h.vacant refl)

  -- `cb_count` is the number of entries held.
  pub count_lem : (cb : CircularBuffer A) (xs : List A) → Holds cb xs → count cb ≡ length xs
  unfolding count
  count_lem cb [] h = ground (arith, h.vacant refl)
  count_lem cb (x ∷ xs) h =
      let b = h.started (omega arith) in
      let used : (cb.start == empty_start) ≡ false = ground (arith, h.word) in
      let stop = wrap_lem (cb.start + suc (length xs)) cb.capacity (omega (arith, h.fits)) in
      let size = u32 (cb.end + cb.capacity + 4294967296 - cb.start - 1) in
      let e = h.ended (omega arith) in
      let inside : cb.end < cb.capacity = ground (arith, stop, h.fits) in
      let small : size ≡ cb.end + cb.capacity - cb.start - 1 = omega (arith, h.word, h.positive) in
      rw used (
        ground (
          arith,
          stop,
          h.fits,
          wrap_lem (cb.end + cb.capacity - cb.start - 1) cb.capacity,
          ap (λ (n : ℕ). n % cb.capacity) small,
        ))

  -- `cb_at` is the entry at a position from the front.
  pub at_lem :
      (cb : CircularBuffer A) (xs : List A) (i : ℕ)
      → Holds cb xs
      → i < length xs
      → at cb i ≡ get_elem? xs i
  unfolding at
  at_lem cb xs i h k =
      let small : u32 (cb.start + i) ≡ cb.start + i =
        omega (arith, h.started (omega arith), h.word, h.fits) in
      let inside : (cb.start + i) % cb.capacity < cb.capacity = mod-lt _ h.positive in
      rw small (entry_at_lem cb xs ((cb.start + i) % cb.capacity) h inside ∙ h.cells i k)

  -- `cb_init` and `cb_clear` give the empty queue.
  pub init-Holds :
      (type_size : ℕ) → 0 < type_size → type_size ≤ 65535 → Holds (init {A = A} type_size) []
  unfolding init
  init-Holds type_size entry word =
      vacant-Holds (init type_size) [] (length-uninitialised A 1024) (omega arith) (omega arith)
        entry (omega arith) refl

  pub clear-Holds : (cb : CircularBuffer A) (xs : List A) → Holds cb xs → Holds (clear cb) []
  unfolding clear
  clear-Holds cb xs h = vacant-Holds cb [] h.size h.positive h.word h.entry h.bytes refl

  -- `cb_last` is the entry last queued.
  pub last_lem :
      (cb : CircularBuffer A) (xs : List A) (x : A) → Holds cb (xs ++ x ∷ []) → last cb ≡ some x
  unfolding last
  last_lem cb xs x h =
      let size = length-append xs (x ∷ []) in
      let b = h.started (omega (arith, size)) in
      let c = h.cells (length xs) (omega (arith, size)) in
      let newest = get_elem?-append xs (x ∷ []) (length xs) in
      let z : length xs - length xs ≡ 0 = omega arith in
      let used : (cb.start == empty_start) ≡ false = ground (arith, h.word) in
      let stop = wrap_lem (cb.start + length (xs ++ x ∷ [])) cb.capacity (omega (arith, h.fits)) in
      let e = h.ended (omega (arith, size)) in
      let inside : cb.end < cb.capacity = ground (arith, stop, h.fits) in
      let small : u32 (cb.end + cb.capacity - 1) ≡ cb.end + cb.capacity - 1 =
        omega (arith, h.word, h.positive) in
      let before : (cb.end + cb.capacity - 1) % cb.capacity ≡ (cb.start + length xs) % cb.capacity =
        ground (
          arith,
          size,
          stop,
          h.fits,
          wrap_lem (cb.end + cb.capacity - 1) cb.capacity,
          wrap_lem (cb.start + length xs) cb.capacity,
        ) in
      let here : (cb.start + length xs) % cb.capacity < cb.capacity = mod-lt _ h.positive in
      rw (used, small, before, entry_at_lem cb (xs ++ x ∷ []) _ h here, c, newest, z) (ground arith)

  -- An empty buffer has no last entry.
  pub last-nil : (cb : CircularBuffer A) → Holds cb [] → last cb ≡ none
  unfolding last
  last-nil cb h = ground (arith, h.vacant refl)
