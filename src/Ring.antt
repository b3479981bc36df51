-- ===== src/Ring.antt =====
-- src/cb.c and include/cb.h: the growing circular buffer. A buffer is a list of entries, reached at byte
-- offsets that are words; an entry that nothing whole was written to since its `malloc` is `none`.
pub mod Cells
pub mod Queue
pub mod Front
use tiltyard.Base.{
  ℕ, zero, suc, ◌+◌, ◌-◌, ◌*◌, ◌%◌, Bool, true, false, List, [], ◌∷◌, ◌++◌, Option, none, some,
  get_or, take, drop, max_u32, u32, ◌==◌, if◌then◌else◌,
}
use tiltyard.Bytes.{offset, read_at, write_at, store_at}

-- `INITIAL_START_INDEX`
abbrev pub empty_start : ℕ
empty_start = max_u32

-- `CB_INITIAL_CAPACITY`
abbrev pub initial_capacity : ℕ
initial_capacity = 1024

pub record CircularBuffer {ℓ} (A : Type ℓ) : Type ℓ where
  pub start : ℕ
  pub end : ℕ
  pub capacity : ℕ
  pub type_size : ℕ
  pub buffer : List (Option A)

module _ {ℓ} {A : Type ℓ} where
  -- Cells fresh from `malloc`.
  unfoldable pub uninitialised : ℕ → List (Option A)
  uninitialised zero = []
  uninitialised (suc n) = none ∷ uninitialised n

  -- `cb_init`
  unfoldable pub init : ℕ → CircularBuffer A
  unfolding uninitialised
  init type_size = record {
    start = empty_start;
    end = 0;
    capacity = initial_capacity;
    type_size = type_size;
    buffer = uninitialised initial_capacity;
  }

  -- The entry at a position, read through a pointer that is made from its byte offset, and a write
  -- through that pointer.
  unfoldable pub entry_at : CircularBuffer A → ℕ → Option A
  unfolding read_at
  entry_at cb i = read_at cb.buffer cb.type_size (offset i cb.type_size)

  unfoldable pub set_entry : CircularBuffer A → ℕ → A → CircularBuffer A
  unfolding write_at
  set_entry cb i v = record cb {
    buffer = write_at cb.buffer cb.type_size (offset i cb.type_size) v;
  }

  -- The doubled buffer: from `start` to the end, then from 0 to `end`, then fresh cells.
  unfoldable pub doubled : CircularBuffer A → CircularBuffer A
  unfolding uninitialised
  doubled cb =
      let head = take (cb.capacity - cb.start) (drop cb.start cb.buffer) in
      let tail = take cb.end cb.buffer in
      record cb {
        start = 0;
        end = cb.capacity;
        capacity = u32 (cb.capacity * 2);
        buffer =
            head ++ (tail ++ uninitialised (cb.capacity * 2 - (cb.capacity - cb.start) - cb.end));
      }

  -- The tail of `cb_queue`: write at `end`, byte by byte, and step it.
  unfoldable pub put : CircularBuffer A → A → CircularBuffer A
  unfolding store_at
  put cb value = record cb {
    buffer = store_at cb.buffer cb.type_size (offset cb.end cb.type_size) value;
    end = (cb.end + 1) % cb.capacity;
  }

  -- `cb_queue`; `none` is the `exit(1)` when the capacity cannot double.
  unfoldable pub queue : CircularBuffer A → A → Option (CircularBuffer A)
  unfolding doubled put
  queue cb value =
      if cb.start == empty_start
      then some (put (record cb { start = 0 }) value)
      else if cb.start == cb.end
      then (if u32 (cb.capacity * 2) == 0 then none else some (put (doubled cb) value))
      else some (put cb value)

  -- `cb_last`: the entry last queued; `none` is the null pointer, or a cell never written.
  unfoldable pub last : CircularBuffer A → Option A
  unfolding entry_at
  last cb =
      if cb.start == empty_start
      then none
      else entry_at cb (u32 (cb.end + cb.capacity - 1) % cb.capacity)

  -- `cb_deque`
  unfoldable pub deque : CircularBuffer A → Option A × CircularBuffer A
  unfolding entry_at
  deque cb =
      let next = (cb.start + 1) % cb.capacity in
      if cb.start == empty_start then (none, cb) else (
        entry_at cb cb.start,
        if next == cb.end
            then record cb { start = empty_start; end = 0 }
            else record cb { start = next },
      )

  -- `cb_is_empty`
  unfoldable pub is_empty : CircularBuffer A → Bool
  is_empty cb = cb.start == empty_start

  -- `cb_count`
  unfoldable pub count : CircularBuffer A → ℕ
  unfolding is_empty
  count cb =
      if is_empty cb
      then 0
      else u32 (cb.end + cb.capacity + 4294967296 - cb.start - 1) % cb.capacity + 1

  -- `cb_at`
  unfoldable pub at : CircularBuffer A → ℕ → Option A
  unfolding entry_at
  at cb i = entry_at cb (u32 (cb.start + i) % cb.capacity)

  -- `cb_clear`
  unfoldable pub clear : CircularBuffer A → CircularBuffer A
  clear cb = record cb { start = empty_start; end = 0 }
