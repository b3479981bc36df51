-- ===== src/FreeList.antt =====
-- src/fl.c and include/fl.h: the free list that hands out ids and keeps a payload for each. The
-- payloads are reached at byte offsets that are words; one that nothing whole was written to is `none`.
pub mod Ids
pub mod Insert
use tiltyard.Base.{
  ℕ, zero, suc, ◌+◌, ◌-◌, ◌*◌, ◌/◌, ◌%◌, Bool, true, false, List, [], ◌∷◌, ◌++◌, Option, none, some,
  take, u32, sub32, ltb, leb, ◌==◌, if◌then◌else◌, ◌>>=◌,
}
use tiltyard.Bytes.{offset, read_at, write_at}
use tiltyard.Memory.{set, cell, junk_from}

-- `FL_INITIAL_CAPACITY`
abbrev pub initial_capacity : ℕ
initial_capacity = 8192

-- `FL`
pub record FreeList (A : Type 0) : Type 0 where
  pub sp : ℕ
  pub stack : List ℕ
  pub payloads : List (Option A)
  pub capacity : ℕ
  pub type_size : ℕ
  pub id_limit : ℕ

module _ {A : Type 0} where
  -- Payload cells fresh from `malloc`.
  unfoldable pub uninitialised : ℕ → List (Option A)
  uninitialised zero = []
  uninitialised (suc n) = none ∷ uninitialised n

  -- `fl_init`
  unfoldable pub init : ℕ → ℕ → FreeList A
  unfolding junk_from uninitialised
  init type_size id_limit = record {
    sp = 0;
    stack = junk_from (λ i. i) 0 initial_capacity;
    payloads = uninitialised initial_capacity;
    capacity = initial_capacity;
    type_size = type_size;
    id_limit = id_limit;
  }

  -- The new block of the doubling, with what is copied to it: both sizes in bytes are words.
  unfoldable pub doubled_payloads : FreeList A → List (Option A)
  unfolding uninitialised
  doubled_payloads fl =
      let block = u32 (fl.capacity * 2 * fl.type_size) / fl.type_size in
      let copied = u32 (fl.capacity * fl.type_size) / fl.type_size in
      take block (take copied fl.payloads ++ uninitialised (fl.capacity * 2 - copied))

  -- The doubling in `fl_ready`: the lower half of the new stack is left as it came.
  unfoldable pub doubled : (ℕ → ℕ) → FreeList A → FreeList A
  unfolding junk_from doubled_payloads
  doubled junk fl = record fl {
    sp = fl.capacity;
    stack = junk_from (λ i. if ltb i fl.capacity then junk i else i) 0 (fl.capacity * 2);
    payloads = doubled_payloads fl;
    capacity = u32 (fl.capacity * 2);
  }

  -- `fl_ready`; `none` is either `exit(1)`.
  unfoldable pub ready : (ℕ → ℕ) → FreeList A → Option (FreeList A)
  unfolding doubled
  ready junk fl =
      if fl.sp == fl.id_limit
      then none
      else if ltb (u32 (fl.sp + 1)) fl.capacity
      then some fl
      else if u32 (fl.capacity * 2) == 0
      then none
      else some (doubled junk fl)

  -- `fl_next_id`: the id that the next insertion takes, and the list, which may have grown.
  unfoldable pub next_id : (ℕ → ℕ) → FreeList A → Option (ℕ × FreeList A)
  unfolding ready
  next_id junk fl = ready junk fl >>= λ r. some (cell r.stack (r.sp + 1), r)

  -- A write of a payload through the pointer of `fl_get`.
  unfoldable pub set_payload : FreeList A → ℕ → A → FreeList A
  unfolding write_at
  set_payload fl id payload = record fl {
    payloads = write_at fl.payloads fl.type_size (offset id fl.type_size) payload;
  }

  -- `fl_insert`
  unfoldable pub insert : (ℕ → ℕ) → FreeList A → A → Option (ℕ × FreeList A)
  unfolding ready set_payload
  insert junk fl payload = ready junk fl >>= λ r.
      let id = cell r.stack (r.sp + 1) in
      let r' = set_payload r id payload in some (id, record r' { sp = r.sp + 1 })

  -- `fl_get`
  unfoldable pub get : FreeList A → ℕ → Option A
  unfolding read_at
  get fl id = read_at fl.payloads fl.type_size (offset id fl.type_size)

  -- `fl_release`: it warns of an id that it should not be given, and goes on.
  unfoldable pub release : FreeList A → ℕ → Option A × FreeList A
  unfolding get
  release fl id =
      let fl' = record fl { stack = set fl.stack fl.sp id; sp = sub32 fl.sp 1 } in (get fl' id, fl')
