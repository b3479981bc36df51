-- ===== src/Book/Copy.antt =====
-- src/ob.c, `ob_copy_range` and what it calls: carry the untouched levels over, taking out what the
-- sides cancel.
pub mod Spans
pub mod Untouched
use tiltyard.Base.{
  ℕ, ◌+◌, ◌-◌, Bool, true, false, ◌&&◌, ◌||◌, not, List, [], ◌∷◌, ◌++◌, length, get_or, take, drop,
  u16, u32, sub16, ltb, leb, ◌==◌, if◌then◌else◌,
}
use tiltyard.Book.Types.{Entry, Level, Book, Writer, level_size}
use tiltyard.Book.Level.{copy_level, splice_level, jump}
use tiltyard.Book.Range.{Op, Side, pulls, no_level}

-- `ob_op_level_delta`
unfoldable pub op_level_delta : Op → ℕ
op_level_delta Op.exact = 0
op_level_delta Op.can_wipe = 0
op_level_delta _ = 1

-- `ob_op_covers`
unfoldable pub op_covers : ℕ → ℕ → ℕ → Bool
op_covers idx lui hui = ltb (sub16 idx lui) (u16 (sub16 hui lui + 1))

-- The index entries of a bulk copy: every offset shifts by the same amount.
unfoldable pub shift_levels : ℕ → ℕ → List Level → List Level
shift_levels from to [] = []
shift_levels from to (l ∷ ls) =
    record l { byte_offset = u32 (l.byte_offset + 4294967296 + to - from) }
    ∷ shift_levels from to ls

-- The offset just past a level.
abbrev pub level_end : Level → ℕ
level_end l = l.byte_offset + level_size (length l.entries)

-- The offset past the last of the levels `l ∷ ls`.
unfoldable pub last_end : Level → List Level → ℕ
unfolding level_size
last_end l [] = level_end l
last_end l (m ∷ ms) = last_end m ms

-- `ob_copy_span`: one `memcpy` for a run of levels.
unfoldable pub copy_span : List Level → Writer → Writer
unfolding shift_levels last_end
copy_span [] w = w
copy_span (l ∷ ls) w = record {
  levels = w.levels ++ shift_levels l.byte_offset w.level (l ∷ ls);
  level = w.level + (last_end l ls - l.byte_offset);
  index = u16 (w.index + length (l ∷ ls));
}

-- `ob_copy_cut`: the first side whose cancel has the level's price decides.
unfoldable pub copy_cut : (ℕ → Entry) → List Side → Level → Writer → Writer
copy_cut stale [] l w = jump w (copy_level stale l w.level)
copy_cut stale (s ∷ ss) l w = elim (pulls s && l.price == s.cancel_price) [
  | true ↦ if s.cancel_was_sole then w else jump w (splice_level l w.level s.cancel_id)
  | false ↦ copy_cut stale ss l w
]

-- The sides' cancel indices in `[from, to)`, each once.
unfoldable pub cuts_in : List Side → ℕ → ℕ → List ℕ → List ℕ
cuts_in [] from to cuts = cuts
cuts_in (s ∷ ss) from to cuts = cuts_in ss from to (
    if pulls s && leb from s.cancel_index && ltb s.cancel_index to && not (has s.cancel_index cuts)
    then cuts ++ s.cancel_index ∷ []
    else cuts)
  where
    has : ℕ → List ℕ → Bool
    has i [] = false
    has i (c ∷ cs) = c == i || has i cs

-- The swap that orders two cuts.
unfoldable pub order_cuts : List ℕ → List ℕ
order_cuts (a ∷ b ∷ []) = if ltb b a then b ∷ a ∷ [] else a ∷ b ∷ []
order_cuts cuts = cuts

-- The levels from index `at` up to `to`.
abbrev pub slice : ℕ → ℕ → List Level → List Level
slice at to levels = take (to - at) (drop at levels)

-- Span, cut, span, cut, span.
unfoldable pub copy_cuts : (ℕ → Entry) → List Level → List Side → List ℕ → ℕ → ℕ → Writer → Writer
unfolding copy_span copy_cut
copy_cuts stale levels sides [] at to w = copy_span (slice at to levels) w
copy_cuts stale levels sides (c ∷ cs) at to w =
    copy_cuts stale levels sides cs (c + 1) to
      (copy_cut stale sides (get_or levels c no_level) (copy_span (slice at c levels) w))

-- `ob_copy_range`
unfoldable pub copy_range : (ℕ → Entry) → Book → List Side → ℕ → ℕ → Writer → Writer
unfolding cuts_in order_cuts copy_cuts
copy_range stale old sides from to w = elim (leb to from) [
  | true ↦ w
  | false ↦ copy_cuts stale old.levels sides (order_cuts (cuts_in sides from to [])) from to w
]

-- The old level that the reading runner is left at.
abbrev pub parked : ℕ → ℕ → ℕ
parked from to = if leb to from then from else to
