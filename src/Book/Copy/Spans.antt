-- ===== src/Book/Copy/Spans.antt =====
-- Bulk copies of untouched levels.
use tiltyard.Base.{
  ℕ, suc, ◌+◌, ◌*◌, ◌≤◌, ◌<◌, ◌≡◌, refl, sym, ap, ◌∙◌, ◌&&◌, not, ◌==◌, List, [], ◌∷◌, ◌++◌, map,
  append-nil, length, length-append, u16, leb, arith,
}
use mathlib.Core.Path.{subst}
use tiltyard.Book.Types.{Level, Writer, level_size}
use tiltyard.Book.Shape.{
  LaidOut, extent, IsWriter, LaidOut-append, extent-append, map-bare-append, bare,
}
use tiltyard.Book.Copy.{op_covers, shift_levels, last_end, copy_span}

-- `ob_op_covers` in u16 arithmetic, where the range from `lui` to `hui` is empty or ascending: it holds
-- exactly for the indices of the range, and for none if the range is empty, also where it is the empty
-- range before level 0, whose `hui` is 65535.
pub op_covers_lem :
    (idx lui hui : ℕ)
    → idx < 65536
    → hui < 65536
    → lui ≤ u16 (hui + 1)
    → op_covers idx lui hui ≡ (not (lui == u16 (hui + 1)) && leb lui idx && leb idx hui)
unfolding op_covers
op_covers_lem idx lui hui i h l = ground arith

last_end_lem :
    (at : ℕ) (l : Level) (ls : List Level)
    → LaidOut at (l ∷ ls)
    → last_end l ls ≡ at + extent (l ∷ ls)
unfolding last_end level_size
last_end_lem at l [] v = omega (arith, v.0)
last_end_lem at l (m ∷ ms) v =
    omega (arith, last_end_lem (at + (4 + length l.entries * 8)) m ms v.1)

shift-LaidOut :
    (at from to : ℕ) (ls : List Level)
    → LaidOut (from + at) ls
    → to + at + extent ls < 4294967296
    → LaidOut (to + at) (shift_levels from to ls)
unfolding shift_levels
shift-LaidOut at from to [] v b = tt
shift-LaidOut at from to (l ∷ ls) v b =
    let k = 4 + length l.entries * 8 in
    let e : from + at + k ≡ from + (at + k) = omega arith in
    let f : to + (at + k) ≡ to + at + k = omega arith in
    (omega (arith, v.0), rw f at (shift-LaidOut (at + k) from to ls (rw e at v.1) (omega arith)))

shift-bare : (from to : ℕ) (ls : List Level) → map bare (shift_levels from to ls) ≡ map bare ls
unfolding shift_levels
shift-bare from to [] = refl
shift-bare from to (l ∷ ls) = ap (◌∷◌ (bare l)) (shift-bare from to ls)

extent-shift : (from to : ℕ) (ls : List Level) → extent (shift_levels from to ls) ≡ extent ls
unfolding shift_levels
extent-shift from to [] = refl
extent-shift from to (l ∷ ls) = omega (arith, extent-shift from to ls)

length-shift : (from to : ℕ) (ls : List Level) → length (shift_levels from to ls) ≡ length ls
unfolding shift_levels
length-shift from to [] = refl
length-shift from to (l ∷ ls) = ap suc (length-shift from to ls)

-- `ob_copy_span` of levels that lie one after the other, by a writer whose snapshot stays below 2 ^ 32
-- bytes: the levels come behind those already written, with their prices, quantities and orders, their
-- offsets moved to where they now lie, and the writer stands just past them.
pub copy_span-Extends :
    (at : ℕ) (ls : List Level) (w : Writer)
    → LaidOut at ls
    → IsWriter w
    → w.level + extent ls < 4294967296
    → IsWriter (copy_span ls w)
      × (map bare (copy_span ls w).levels ≡ map bare w.levels ++ map bare ls)
unfolding copy_span
copy_span-Extends at [] w v r b = (r, sym (append-nil (map bare w.levels)))
copy_span-Extends at (l ∷ ls) w v r b =
    let moved = shift_levels l.byte_offset w.level (l ∷ ls) in
    let here : at ≡ l.byte_offset + 0 = omega (arith, v.0) in
    let stands : w.level + 0 ≡ 0 + extent w.levels = omega (arith, r.stands) in
    let laid =
      shift-LaidOut 0 l.byte_offset w.level (l ∷ ls) (subst (λ p. LaidOut p (l ∷ ls)) here v)
        (omega arith) in
    (
      record {
        laid_out =
            LaidOut-append 0 w.levels moved r.laid_out (subst (λ p. LaidOut p moved) stands laid);
        stands = omega (
          arith,
          r.stands,
          extent-append w.levels moved,
          extent-shift l.byte_offset w.level (l ∷ ls),
          last_end_lem at l ls v,
          v.0,
        );
        index = omega (
          arith,
          r.index,
          length-append w.levels moved,
          length-shift l.byte_offset w.level (l ∷ ls),
        );
      },
      map-bare-append w.levels moved
          ∙ ap (λ (xs : List Level). map bare w.levels ++ xs)
              (shift-bare l.byte_offset w.level (l ∷ ls)),
    )
