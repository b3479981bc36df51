-- ===== src/Bytes.antt =====
-- src/cb.c and src/fl.c: entries of `size` bytes in one block, which the code reaches at byte offsets
-- that are products of 32 bits.
use tiltyard.Base.{
  ℕ, ◌+◌, ◌*◌, ◌/◌, ◌%◌, ◌≤◌, ◌<◌, ◌≡◌, refl, true, List, Option, none, some, get_or, u32, leb,
  ◌==◌, if◌then◌else◌, arith,
}
use native.Mathlib.Nat.{mod-eq-sub-div-mul}
use tiltyard.Memory.{set}

-- `i * type_size`, in a word.
abbrev pub offset : ℕ → ℕ → ℕ
offset i size = u32 (i * size)

module _ {ℓ} {A : Type ℓ} where
  -- An entry read through a pointer; what lies across two entries is read as nothing that was written.
  unfoldable pub read_at : List (Option A) → ℕ → ℕ → Option A
  read_at cells size off = if off % size == 0 then get_or cells (off / size) none else none

  -- An entry written through a pointer; across two entries it spoils both.
  unfoldable pub write_at : List (Option A) → ℕ → ℕ → A → List (Option A)
  write_at cells size off v =
      if off % size == 0
      then set cells (off / size) (some v)
      else set (set cells (off / size) none) (off / size + 1) none

  -- An entry written byte by byte, each at a word `off + i`: past 2 ^ 32 the bytes land at the start.
  unfoldable pub store_at : List (Option A) → ℕ → ℕ → A → List (Option A)
  unfolding write_at
  store_at cells size off v =
      if leb (off + size) 4294967296
      then write_at cells size off v
      else set (set (set cells (off / size) none) (off / size + 1) none) 0 none

-- Where the block has at most 2 ^ 32 bytes, an offset is that of its entry.
entry_fits : (i n size : ℕ) → i < n → n * size ≤ 4294967296 → i * size + size ≤ 4294967296
entry_fits i n size h k = grind arith

module _ {A : Type 0} (cells : List (Option A)) (i n size : ℕ) (inside : i < n) (entry : 0 < size)
    (bytes : n * size ≤ 4294967296) where
  offset_lem : offset i size ≡ i * size
  offset_lem = omega (arith, entry_fits i n size inside bytes)

  entry_of : i * size / size ≡ i
  entry_of = grind arith

  aligned : (i * size % size == 0) ≡ true
  aligned = rw (mod-eq-sub-div-mul (i * size) size, entry_of) (ground arith)

  pub read_at_lem : read_at cells size (offset i size) ≡ get_or cells i none
  unfolding read_at
  read_at_lem = rw (offset_lem, aligned, entry_of) refl

  pub write_at_lem : (v : A) → write_at cells size (offset i size) v ≡ set cells i (some v)
  unfolding write_at
  write_at_lem v = rw (offset_lem, aligned, entry_of) refl

  pub store_at_lem : (v : A) → store_at cells size (offset i size) v ≡ set cells i (some v)
  unfolding store_at write_at
  store_at_lem v =
      let whole : leb (i * size + size) 4294967296 ≡ true =
        ground (arith, entry_fits i n size inside bytes) in
      rw (offset_lem, whole, aligned, entry_of) refl

-- A block that a word can measure has room for every entry, and all are copied.
pub entries_of : (n size : ℕ) → 0 < size → n * size < 4294967296 → u32 (n * size) / size ≡ n
entries_of n size q h =
    let small : u32 (n * size) ≡ n * size = omega arith in rw small (grind arith)
