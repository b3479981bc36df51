-- ===== src/Book/Copy/Untouched.antt =====
-- `ob_copy_range` for a side that cancels nothing.
use tiltyard.Base.{
  ℕ, zero, suc, ◌+◌, ◌-◌, ◌*◌, ◌<◌, ◌≡◌, sym, ap, ◌∙◌, false, List, [], ◌∷◌, ◌++◌, map, append-nil,
  length, take, drop, leb, arith, Bool-cases, inl, inr, take-append-drop,
}
use tiltyard.Book.Types.{Entry, Level, Book, Writer}
use tiltyard.Book.Shape.{LaidOut, extent, IsWriter, bare, extent-append}
use tiltyard.Book.Range.{Side, pulls}
use tiltyard.Book.Copy.{slice, copy_range, cuts_in, order_cuts, copy_cuts}
use tiltyard.Book.Copy.Spans.{copy_span-Extends}

LaidOut-take : (n at : ℕ) (ls : List Level) → LaidOut at ls → LaidOut at (take n ls)
LaidOut-take zero at ls v = tt
LaidOut-take (suc n) at [] v = tt
LaidOut-take (suc n) at (l ∷ ls) v = (v.0, LaidOut-take n (at + (4 + length l.entries * 8)) ls v.1)

LaidOut-drop :
    (n at : ℕ) (ls : List Level) → LaidOut at ls → LaidOut (at + extent (take n ls)) (drop n ls)
LaidOut-drop zero at ls v = let e : at + 0 ≡ at = omega arith in rw e v
LaidOut-drop (suc n) at [] v = tt
LaidOut-drop (suc n) at (l ∷ ls) v =
    let k = 4 + length l.entries * 8 in
    let e : at + (k + extent (take n ls)) ≡ at + k + extent (take n ls) = omega arith in
    rw e (LaidOut-drop n (at + k) ls v.1)

pub extent-take-drop :
    (n : ℕ) (ls : List Level) → extent (take n ls) + extent (drop n ls) ≡ extent ls
extent-take-drop n ls =
    sym (extent-append (take n ls) (drop n ls)) ∙ ap extent (take-append-drop n ls)

-- A range of levels that the side leaves alone is one span.
pub copy_range-untouched :
    (stale : ℕ → Entry) (old : Book) (s : Side) (from to : ℕ) (w : Writer)
    → pulls s ≡ false
    → LaidOut 0 old.levels
    → IsWriter w
    → w.level + extent (slice from to old.levels) < 4294967296
    → let w' = copy_range stale old (s ∷ []) from to w in
      IsWriter w' × (map bare w'.levels ≡ map bare w.levels ++ map bare (slice from to old.levels))
unfolding copy_range cuts_in order_cuts copy_cuts
copy_range-untouched stale old s from to w quiet v r b = elim (Bool-cases (leb to from)) [
  | inl y ↦
      let none_left : to - from ≡ 0 = ground arith in
      rw (copy_range, y, none_left) (r, sym (append-nil (map bare w.levels)))
  | inr m ↦
      let span =
        copy_span-Extends (0 + extent (take from old.levels)) (slice from to old.levels) w
          (LaidOut-take (to - from) _ (drop from old.levels) (LaidOut-drop from 0 old.levels v)) r
          b in
      rw (copy_range, m, cuts_in, quiet, order_cuts, copy_cuts) span
]
