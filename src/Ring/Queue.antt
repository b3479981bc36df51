-- ===== src/Ring/Queue.antt =====
-- `cb_queue`: the circular buffer holds a queue, and grows where it has to.
use tiltyard.Base.{
  ℕ, suc, ◌+◌, ◌-◌, ◌*◌, ◌%◌, ◌≤◌, ◌<◌, ◌≡◌, refl, sym, ◌∙◌, inl, inr, false, List, [], ◌∷◌, ◌++◌,
  Option, none, some, get_or, get_elem?, take, drop, length, length-append, length-take,
  length-drop, u32, ◌==◌, arith, Bool-cases, ==_iff,
}
use native.Mathlib.Nat.{mod-eq_of_lt}
use tiltyard.Ring.{
  CircularBuffer, empty_start, uninitialised, entry_at, set_entry, doubled, put, queue,
}
use tiltyard.Bytes.{read_at_lem, write_at_lem, store_at_lem}
use tiltyard.Memory.{set, length-set, get_or-set}
use tiltyard.Ring.Cells.{
  wrap_lem, length-uninitialised, get_elem?-append, get_or-append, get_or-take, get_or-drop,
}

-- At `Type 0`, where the tactics split cases on the positions.
module _ {A : Type 0} where
  -- The buffer holds the entries `xs`, oldest first.
  pub record Holds (cb : CircularBuffer A) (xs : List A) : Type 0 where
    pub size : length cb.buffer ≡ cb.capacity
    pub positive : 0 < cb.capacity
    pub word : cb.capacity ≤ 2147483648
    pub entry : 0 < cb.type_size
    pub bytes : cb.capacity * cb.type_size ≤ 4294967296
    pub fits : length xs ≤ cb.capacity
    pub vacant : length xs ≡ 0 → (cb.start ≡ empty_start) × (cb.end ≡ 0)
    pub started : 0 < length xs → cb.start < cb.capacity
    pub ended : 0 < length xs → cb.end ≡ (cb.start + length xs) % cb.capacity
    pub cells :
        (i : ℕ)
        → i < length xs
        → get_or cb.buffer ((cb.start + i) % cb.capacity) none ≡ get_elem? xs i

  -- Every position of the ring is that of an entry.
  pub entry_at_lem :
      (cb : CircularBuffer A) (xs : List A) (i : ℕ)
      → Holds cb xs
      → i < cb.capacity
      → entry_at cb i ≡ get_or cb.buffer i none
  unfolding entry_at
  entry_at_lem cb xs i h k = read_at_lem cb.buffer i cb.capacity cb.type_size k h.entry h.bytes

  pub set_entry_lem :
      (cb : CircularBuffer A) (xs : List A) (i : ℕ) (v : A)
      → Holds cb xs
      → i < cb.capacity
      → set_entry cb i v ≡ record cb { buffer = set cb.buffer i (some v) }
  unfolding set_entry
  set_entry_lem cb xs i v h k =
      rw (write_at_lem cb.buffer i cb.capacity cb.type_size k h.entry h.bytes v) refl

  -- Writing one entry behind those held, where there is room.
  put-Holds :
      (cb : CircularBuffer A) (xs : List A) (v : A)
      → length cb.buffer ≡ cb.capacity
      → cb.capacity ≤ 2147483648
      → 0 < cb.type_size
      → cb.capacity * cb.type_size ≤ 4294967296
      → length xs < cb.capacity
      → cb.start < cb.capacity
      → cb.end ≡ (cb.start + length xs) % cb.capacity
      → ((i : ℕ)
          → i < length xs
          → get_or cb.buffer ((cb.start + i) % cb.capacity) none ≡ get_elem? xs i)
      → Holds (put cb v) (xs ++ v ∷ [])
  unfolding put
  put-Holds cb xs v s w q y r b e c =
      let grown = length-append xs (v ∷ []) in
      let at_end = wrap_lem (cb.start + length xs) cb.capacity (omega arith) in
      let inside : cb.end < cb.capacity = ground (arith, at_end) in
      rw (store_at_lem cb.buffer cb.end cb.capacity cb.type_size inside q y v) (record {
        size = length-set cb.buffer cb.end (some v) ∙ s;
        positive = omega arith;
        word = w;
        entry = q;
        bytes = y;
        fits = omega (arith, grown);
        vacant = λ z. absurd (omega (arith, grown));
        started = λ _. b;
        ended = λ _. ground (
          arith,
          grown,
          at_end,
          wrap_lem (cb.start + suc (length xs)) cb.capacity,
          wrap_lem (cb.end + 1) cb.capacity,
        );
        cells = λ i h. ground (
          arith,
          grown,
          at_end,
          wrap_lem (cb.start + i) cb.capacity,
          c i,
          get_or-set cb.buffer cb.end ((cb.start + i) % cb.capacity) (some v) none,
          get_elem?-append xs (v ∷ []) i,
        );
      })

  -- Doubling a full buffer leaves its entries in order from cell 0.
  module _ (cb : CircularBuffer A) (xs : List A) (h : Holds cb xs) (full : length xs ≡ cb.capacity)
      (room : cb.capacity ≤ 1073741824) where
    head_size :
        length (take (cb.capacity - cb.start) (drop cb.start cb.buffer)) ≡ cb.capacity - cb.start
    head_size = omega (
      arith,
      h.size,
      length-take (cb.capacity - cb.start) (drop cb.start cb.buffer),
      length-drop cb.start cb.buffer,
    )

    tail_size : cb.start ≡ cb.end → length (take cb.end cb.buffer) ≡ cb.end
    tail_size e = omega (
      arith,
      h.size,
      h.positive,
      h.started (omega (arith, h.positive)),
      length-take cb.end cb.buffer,
    )

    length-doubled : cb.start ≡ cb.end → length (doubled cb).buffer ≡ cb.capacity * 2
    unfolding doubled
    length-doubled e =
        let head = take (cb.capacity - cb.start) (drop cb.start cb.buffer) in
        let tail = take cb.end cb.buffer in
        let rest : List (Option A) =
          uninitialised (cb.capacity * 2 - (cb.capacity - cb.start) - cb.end) in
        omega (
          arith,
          head_size,
          tail_size e,
          h.positive,
          h.started (omega (arith, h.positive)),
          length-append head (tail ++ rest),
          length-append tail rest,
          length-uninitialised A (cb.capacity * 2 - (cb.capacity - cb.start) - cb.end),
        )

    cells-doubled :
        cb.start ≡ cb.end
        → (i : ℕ) → i < length xs
        → get_or (doubled cb).buffer ((0 + i) % (cb.capacity * 2)) none ≡ get_elem? xs i
    unfolding doubled
    cells-doubled e i k =
        let head = take (cb.capacity - cb.start) (drop cb.start cb.buffer) in
        let tail = take cb.end cb.buffer in
        let rest : List (Option A) =
          uninitialised (cb.capacity * 2 - (cb.capacity - cb.start) - cb.end) in
        let small : (0 + i) % (cb.capacity * 2) ≡ i =
          (omega (arith, mod-eq_of_lt {n = 0 + i} {m = cb.capacity * 2} (omega arith))) in
        rw small (
          ground (
            arith,
            head_size,
            tail_size e,
            h.started (omega arith),
            h.cells i k,
            wrap_lem (cb.start + i) cb.capacity,
            get_or-append head (tail ++ rest) i,
            get_or-append tail rest (i - (cb.capacity - cb.start)),
            get_or-take (cb.capacity - cb.start) (drop cb.start cb.buffer) i,
            get_or-drop cb.start cb.buffer i,
            get_or-take cb.end cb.buffer (i - (cb.capacity - cb.start)),
          ))

  -- Fewer entries than the capacity do not bring the end back to the start.
  full_iff :
      (cb : CircularBuffer A) (xs : List A)
      → Holds cb xs
      → 0 < length xs
      → cb.start ≡ cb.end
      → length xs ≡ cb.capacity
  full_iff cb xs h k e =
      ground (arith, h.started k, h.ended k, h.fits, wrap_lem (cb.start + length xs) cb.capacity)

  doubled_fields :
      (cb : CircularBuffer A)
      → cb.capacity ≤ 1073741824
      → ((doubled cb).start ≡ 0)
        × ((doubled cb).end ≡ cb.capacity)
        × ((doubled cb).capacity ≡ cb.capacity * 2)
        × ((doubled cb).type_size ≡ cb.type_size)
  unfolding doubled
  doubled_fields cb room = (refl, refl, omega arith, refl)

  doubled-Holds :
      (cb : CircularBuffer A) (xs : List A) (v : A)
      → Holds cb xs
      → length xs ≡ cb.capacity
      → cb.capacity ≤ 1073741824
      → cb.capacity * 2 * cb.type_size ≤ 4294967296
      → cb.start ≡ cb.end
      → Holds (put (doubled cb) v) (xs ++ v ∷ [])
  doubled-Holds cb xs v h full room bytes e =
      let f = doubled_fields cb room in
      let start_eq = f.0 in
      let end_eq = f.1 in
      let capacity_eq = f.2 in
      let size_eq = f.3 in
      let at_end : (0 + length xs) % (cb.capacity * 2) ≡ 0 + length xs =
        mod-eq_of_lt (omega (arith, h.positive)) in
      put-Holds (doubled cb) xs v (length-doubled cb xs h full room e ∙ sym capacity_eq)
        (omega (arith, capacity_eq)) (rw size_eq h.entry) (rw (capacity_eq, size_eq) bytes)
        (omega (arith, capacity_eq, h.positive)) (omega (arith, start_eq, capacity_eq, h.positive))
        (rw (start_eq, capacity_eq, end_eq) (omega (arith, at_end)))
        (rw (start_eq, capacity_eq) (cells-doubled cb xs h full room e))

  pub queue_lem :
      (cb : CircularBuffer A) (xs : List A) (v : A)
      → Holds cb xs
      → cb.capacity ≤ 1073741824
      → cb.capacity * 2 * cb.type_size ≤ 4294967296
      → (cb' : CircularBuffer A) × (queue cb v ≡ some cb') × Holds cb' (xs ++ v ∷ [])
  unfolding queue
  queue_lem cb xs v h room bytes = elim (Bool-cases (cb.start == empty_start)) [
    | inl y ↦
        let none_held : length xs ≡ 0 = ground (arith, h.started, h.word) in
        (
          put (record cb { start = 0 }) v,
          rw y,
          put-Holds (record cb { start = 0 }) xs v h.size h.word h.entry h.bytes
              (omega (arith, h.positive)) h.positive
              (ground (arith, h.vacant none_held, h.positive)) (λ i k. absurd (omega arith)),
        )
    | inr n ↦
        let some_held : 0 < length xs = ground (arith, h.vacant) in
        elim (Bool-cases (cb.start == cb.end)) [
          | inl y ↦
              let e : cb.start ≡ cb.end = (==_iff cb.start cb.end).0 y in
              let full = full_iff cb xs h some_held e in
              let open_end : (u32 (cb.capacity * 2) == 0) ≡ false = ground (arith, h.positive) in
              (put (doubled cb) v, rw (n, y, open_end), doubled-Holds cb xs v h full room bytes e)
          | inr m ↦ (
            put cb v,
            rw (n, m),
            put-Holds cb xs v h.size h.word h.entry h.bytes
                (ground (
                  arith,
                  h.ended some_held,
                  h.started some_held,
                  h.fits,
                  wrap_lem (cb.start + length xs) cb.capacity,
                ))
                (h.started some_held) (h.ended some_held) h.cells,
          )
        ]
  ]
