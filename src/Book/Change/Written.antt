-- ===== src/Book/Change/Written.antt =====
-- The levels that `ob_canrep` writes where the side pulls nothing and puts a level into a gap.
use tiltyard.Base.{
  ℕ, ◌+◌, ◌-◌, ◌<◌, ◌≡◌, refl, sym, ap, ◌∙◌, false, List, [], ◌∷◌, ◌++◌, append_assoc, map, length,
  length-drop, take, take_all, drop, arith,
}
use tiltyard.Order.{Order}
use tiltyard.Book.Types.{Entry, Level, Book, Writer}
use tiltyard.Book.Level.{start, jump, insert_level}
use tiltyard.Book.Shape.{
  IsBook, extent, extent-append, map-bare-append, IsWriter, Extends-jump, bare, start-IsWriter,
}
use tiltyard.Book.Range.{Side, pulls}
use tiltyard.Book.Copy.{slice, copy_range}
use tiltyard.Book.Copy.Untouched.{extent-take-drop, copy_range-untouched}
use tiltyard.Book.Change.Put.{put}

-- The level of an order alone.
abbrev pub lone : ℕ → Order → Level
lone id o = insert_level id o.price o.quantity 0

slice_front : (i : ℕ) (ls : List Level) → slice 0 i ls ≡ take i ls
slice_front i ls = let z : i - 0 ≡ i = omega arith in rw z refl

slice_back : (i : ℕ) (ls : List Level) → slice i (length ls) ls ≡ drop i ls
slice_back i ls = take_all (length ls - i) (drop i ls) (omega (arith, length-drop i ls))

extent-bare : (ls : List Level) → extent (map bare ls) ≡ extent ls
extent-bare [] = refl
extent-bare (l ∷ ls) = omega (arith, extent-bare ls)

extent_same : (xs ys : List Level) → map bare xs ≡ map bare ys → extent xs ≡ extent ys
extent_same xs ys e = sym (extent-bare xs) ∙ ap extent e ∙ extent-bare ys

-- The levels below `i`, one new level, and the levels from `j` on.
module _ (stale : ℕ → Entry) (old : Book) (s : Side) where
  abbrev pub before : ℕ → Writer
  before i = copy_range stale old (s ∷ []) 0 i start

  abbrev pub around : ℕ → ℕ → Level → Writer
  around i j l = copy_range stale old (s ∷ []) j old.level_count (jump (before i) l)

  pub around-IsWriter :
      (i j : ℕ) (l : Level)
      → IsBook old
      → pulls s ≡ false
      → l.byte_offset ≡ (before i).level
      → extent (take i old.levels ++ l ∷ drop j old.levels) < 4294967296
      → IsWriter (around i j l)
        × (map bare (around i j l).levels ≡ map bare (take i old.levels ++ l ∷ drop j old.levels))
  unfolding jump
  around-IsWriter i j l v quiet place room =
      let below = take i old.levels in
      let above = drop j old.levels in
      let bytes = extent-append below (l ∷ above) in
      let front = slice_front i old.levels in
      let back : slice j old.level_count old.levels ≡ above =
        rw v.counted (slice_back j old.levels) in
      let low =
        copy_range-untouched stale old s 0 i start quiet v.laid_out start-IsWriter
          (rw front (omega (arith, bytes))) in
      let lower : map bare (before i).levels ≡ map bare below = low.1 ∙ ap (map bare) front in
      let stands : (before i).level ≡ extent below =
        low.0.stands ∙ extent_same (before i).levels below lower in
      let step = Extends-jump (before i) l place in
      let rest =
        copy_range-untouched stale old s j old.level_count (jump (before i) l) quiet v.laid_out
          (step.valid low.0) (rw back (omega (arith, bytes, stands))) in
      (
        rest.0,
        rest.1
            ∙ rw (step.contents, lower, back)
                (append_assoc (map bare below) (bare l ∷ []) (map bare above)
                  ∙ sym (map-bare-append below (l ∷ above))),
      )

-- A level put into a gap.
module _ (stale : ℕ → Entry) (old : Book) (s : Side) (id : ℕ) (o : Order) where
  abbrev pub with_rest : ℕ → Writer
  with_rest i =
      around stale old s i i (insert_level id o.price o.quantity (before stale old s i).level)

  pub with_rest-IsWriter :
      (i : ℕ)
      → IsBook old
      → pulls s ≡ false
      → extent old.levels + 12 < 4294967296
      → IsWriter (with_rest i)
        × (map bare (with_rest i).levels ≡ map bare (put i (lone id o) old.levels))
  unfolding insert_level
  with_rest-IsWriter i v quiet room =
      let l = insert_level id o.price o.quantity (before stale old s i).level in
      let w = around-IsWriter stale old s i i l v quiet refl (
        omega (
          arith,
          extent-append (take i old.levels) (l ∷ drop i old.levels),
          extent-take-drop i old.levels,
        )) in
      (
        w.0,
        w.1
            ∙ map-bare-append (take i old.levels) (l ∷ drop i old.levels)
            ∙ unfold put in
              sym (map-bare-append (take i old.levels) (lone id o ∷ drop i old.levels)),
      )
