-- ===== src/Blobs.antt =====
-- src/bs.c and include/bs.h: the store of blobs of any size. A ring of metadata slots names the live
-- blobs, oldest first; a blob is a range of the store's bytes. `junk` is what a fresh block holds, and
-- the address that a caller writes to is the blob's offset.
pub mod Layout
pub mod Moving
pub mod Holding
pub mod Reserve
pub mod Get
use tiltyard.Base.{
  ℕ, zero, suc, ◌+◌, ◌-◌, ◌*◌, ◌%◌, true, false, ◌&&◌, List, [], ◌∷◌, Option, none, some, get_or,
  max_u16, u32, sub32, ltb, leb, ◌==◌, if◌then◌else◌, ◌>>=◌,
}
use tiltyard.Memory.{set}

-- `BSM`
pub record Meta : Type 0 where
  pub refs : ℕ
  pub offset : ℕ
  pub size : ℕ

-- `BS`
pub record BlobStore : Type 0 where
  pub md_start : ℕ
  pub md_end : ℕ
  pub md_capacity : ℕ
  pub metadata : List Meta
  pub store_capacity : ℕ
  pub store : ℕ → ℕ

-- `INITIAL_METADATA_INDEX`
abbrev pub empty_start : ℕ
empty_start = max_u16

abbrev pub no_meta : Meta
no_meta = record { refs = 0; offset = 0; size = 0 }

abbrev pub meta_at : BlobStore → ℕ → Meta
meta_at bs i = get_or bs.metadata i no_meta

-- Slots fresh from `malloc`.
unfoldable pub slots : ℕ → List Meta
slots zero = []
slots (suc n) = no_meta ∷ slots n

-- `bs_init`
unfoldable pub init : (ℕ → ℕ) → ℕ → BlobStore
unfolding slots
init junk metadata_capacity = record {
  md_start = empty_start;
  md_end = 0;
  md_capacity = metadata_capacity;
  metadata = slots metadata_capacity;
  store_capacity = 8192;
  store = junk;
}

-- `memcpy(&dst[at], &src[from], n)`
abbrev pub copy_bytes : (ℕ → ℕ) → ℕ → (ℕ → ℕ) → ℕ → ℕ → ℕ → ℕ
copy_bytes dst at src from n a = if leb at a && ltb a (at + n) then src (from + (a - at)) else dst a

-- The capacity doubled until the size fits, on fuel: a capacity of 0 would double for ever.
unfoldable pub grow_to : ℕ → ℕ → ℕ → Option ℕ
grow_to zero capacity size = none
grow_to (suc fuel) capacity size = elim (ltb capacity size) [
  | true ↦ grow_to fuel (u32 (capacity * 2)) size
  | false ↦ some capacity
]

-- A blob at an offset, in the slot that comes next: its id, and the store.
unfoldable pub put_at : BlobStore → ℕ → ℕ → ℕ → ℕ × BlobStore
put_at bs offset size refs = (
  bs.md_end,
  record bs {
    metadata = set bs.metadata bs.md_end (record { refs = refs; offset = offset; size = size });
    md_end = (bs.md_end + 1) % bs.md_capacity;
  },
)

-- The blocks so far copied to the front of the new store.
pub record Moved : Type 0 where
  pub metadata : List Meta
  pub store : ℕ → ℕ

-- The loop that moves the live blobs together, from slot `i` on. The fuel is the number of slots.
unfoldable pub move_blobs : ℕ → BlobStore → ℕ → ℕ → Moved → Moved
move_blobs zero bs i current_start to = to
move_blobs (suc fuel) bs i current_start to = elim (i == bs.md_end) [
  | true ↦ to
  | false ↦
      let m = get_or to.metadata i no_meta in
      move_blobs fuel bs ((i + 1) % bs.md_capacity) (u32 (current_start + m.size)) (record {
        metadata = set to.metadata i (record m { offset = current_start });
        store = copy_bytes to.store current_start bs.store m.offset m.size;
      })
]

-- Where the ring has run over the top: a store twice as large with the live blobs side by side.
unfoldable pub compacted : (ℕ → ℕ) → BlobStore → BlobStore
unfolding move_blobs
compacted junk bs =
    let to =
      move_blobs bs.md_capacity bs bs.md_start 0
        (record { metadata = bs.metadata; store = junk }) in
    record bs {
      store_capacity = u32 (bs.store_capacity * 2);
      metadata = to.metadata;
      store = to.store;
    }

-- Where it has not: a store twice as large that begins with the old one.
unfoldable pub doubled : (ℕ → ℕ) → BlobStore → BlobStore
doubled junk bs = record bs {
  store_capacity = u32 (bs.store_capacity * 2);
  store = copy_bytes junk 0 bs.store 0 bs.store_capacity;
}

-- The first blob of an empty store.
unfoldable pub put_first : (ℕ → ℕ) → BlobStore → ℕ → ℕ → Option (ℕ × BlobStore)
unfolding grow_to
put_first junk bs size refs = grow_to 33 bs.store_capacity size >>= λ capacity. some (
  0,
  record bs {
    md_start = 0;
    md_end = 1;
    metadata = set bs.metadata bs.md_end (record { refs = refs; offset = 0; size = size });
    store_capacity = capacity;
    store = if ltb bs.store_capacity size then junk else bs.store;
  },
)

-- The slot of the newest blob.
abbrev pub last_slot : BlobStore → ℕ
last_slot bs = (bs.md_end + bs.md_capacity - 1) % bs.md_capacity

-- `bs_reserve`: the blob's id, and the store; `none` is the `exit(1)` on a full ring. It calls itself
-- after each doubling, here on fuel.
unfoldable pub reserve : ℕ → (ℕ → ℕ) → BlobStore → ℕ → ℕ → Option (ℕ × BlobStore)
unfolding put_at compacted doubled put_first
reserve zero junk bs size refs = none
reserve (suc fuel) junk bs size refs =
    let first = meta_at bs bs.md_start in
    let last = meta_at bs (last_slot bs) in
    let last_end = u32 (last.offset + last.size) in
    elim (bs.md_start == bs.md_end) [
      | true ↦ none
      | false ↦ elim (bs.md_start == empty_start) [
        | true ↦ put_first junk bs size refs
        | false ↦ elim (ltb last.offset first.offset) [
          | true ↦ elim (ltb first.offset (u32 (last_end + size))) [
            | true ↦ reserve fuel junk (compacted junk bs) size refs
            | false ↦ some (put_at bs last_end size refs)
          ]
          | false ↦ elim (ltb (sub32 bs.store_capacity last_end) size) [
            | true ↦ elim (ltb first.offset size) [
              | true ↦ reserve fuel junk (doubled junk bs) size refs
              | false ↦ some (put_at bs 0 size refs)
            ]
            | false ↦ some (put_at bs last_end size refs)
          ]
        ]
      ]
    ]

-- `bs_resize`: the newest blob gets its true size; the flag is 1 for a size that it does not have.
unfoldable pub resize : BlobStore → ℕ → ℕ × BlobStore
resize bs actual_size =
    let last = meta_at bs (last_slot bs) in
    if bs.md_start == empty_start && bs.md_end == 0
    then (0, bs)
    else if ltb last.size actual_size
    then (1, bs)
    else (
      0,
      record bs { metadata = set bs.metadata (last_slot bs) (record last { size = actual_size }) },
    )

-- The loop of `bs_get`: take the blobs without references off the front, on fuel.
unfoldable pub reclaim : ℕ → BlobStore → BlobStore
reclaim zero bs = bs
reclaim (suc fuel) bs =
    let next = (bs.md_start + 1) % bs.md_capacity in
    elim ((meta_at bs bs.md_start).refs == 0) [
      | false ↦ bs
      | true ↦ elim (next == bs.md_end) [
        | true ↦ record bs { md_start = empty_start; md_end = 0 }
        | false ↦ reclaim fuel (record bs { md_start = next })
      ]
    ]

-- `bs_get`: give back one reference. The pointer that it returns is the blob's offset, or null.
unfoldable pub get : BlobStore → ℕ → Option ℕ × BlobStore
unfolding reclaim
get bs bs_number =
    let m = meta_at bs bs_number in
    let dropped = record bs {
      metadata = set bs.metadata bs_number (record m { refs = sub32 m.refs 1 });
    } in
    if bs.md_start == empty_start && bs.md_end == 0 then (none, bs) else (
      some m.offset,
      if bs_number == bs.md_start then reclaim bs.md_capacity dropped else dropped,
    )

-- `bs_get_no_ref`
unfoldable pub get_no_ref : BlobStore → ℕ → ℕ
get_no_ref bs bs_number = (meta_at bs bs_number).offset

-- `bs_bump_refs`
unfoldable pub bump_refs : BlobStore → ℕ → BlobStore
bump_refs bs bs_number =
    let m = meta_at bs bs_number in
    record bs { metadata = set bs.metadata bs_number (record m { refs = u32 (m.refs + 1) }) }
