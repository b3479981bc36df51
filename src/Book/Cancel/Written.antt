-- ===== src/Book/Cancel/Written.antt =====
-- The levels that the copying loop of `ob_cancel` writes.
use tiltyard.Base.{
  ℕ, suc, ◌-◌, ◌≤◌, ◌<◌, ◌≡◌, refl, ap, Bool, true, false, ◌&&◌, List, [], ◌∷◌, Option, none, some,
  map, length, All, reject, ◌==◌, ==_iff, if◌then◌else◌, arith, Bool-cases, inl, inr,
}
use tiltyard.Book.Types.{Entry, Level, Writer}
use tiltyard.Book.Level.{splice_level, jump}
use tiltyard.Book.Level.Copies.{copy_level-eq, hit_total, splice_entries_lem, hit_total-add-kept}
use tiltyard.Book.Cancel.{find_price, cancel_levels}
use tiltyard.Book.Shape.{
  total, IsLevel, Above, Ascending, bare, keep_level, pulled, pull, Extends, Extends-refl,
  Extends-trans, Extends-jump,
}
use tiltyard.Book.Pull.{pulled-append}

-- The one order with this id at this price.
abbrev pub one : ℕ → ℕ → ℕ → ℕ → Bool
one price id p i = p == price && i == id

pub reject_none : (es : List Entry) → reject (λ (e : Entry). false) es ≡ es
unfolding reject
reject_none [] = refl
reject_none (e ∷ es) = ap (◌∷◌ e) (reject_none es)

pub keep_here :
    (price id : ℕ) (l : Level)
    → (l.price == price) ≡ true
    → keep_level (one price id) l ≡ reject (λ (e : Entry). e.order_id == id) l.entries
keep_here price id l h = simp h

pub keep_away :
    (price id : ℕ) (l : Level)
    → (l.price == price) ≡ false
    → keep_level (one price id) l ≡ l.entries
keep_away price id l h = simp h (reject_none l.entries)

pub pulled_cons :
    (price quantity : ℕ) (es : List Entry) (rest : List Level)
    → quantity ≡ total es
    → 0 < length es
    → pulled price es rest
      ≡ record { price = price; byte_offset = 0; quantity = quantity; entries = es } ∷ rest
pulled_cons price quantity [] rest h k = absurd (omega arith)
pulled_cons price quantity (e ∷ es) rest h k = rw h

-- A level that keeps all its orders stays.
pub pulled_whole :
    (l : Level) (rest : List Level) → IsLevel l → pulled l.price l.entries rest ≡ bare l ∷ rest
pulled_whole l rest v = pulled_cons l.price l.quantity l.entries rest v.counted v.occupied

pub pull-Above :
    (price id : ℕ) (ls : List Level)
    → Above price ls
    → All IsLevel ls
    → pull (one price id) ls ≡ map bare ls
unfolding pull
pull-Above price id [] h v = refl
pull-Above price id (l ∷ ls) h v =
    rw (keep_away price id l (ground arith), pull-Above price id ls h.1 v.1)
      (pulled_whole l (map bare ls) v.0)

-- Every level past the cancel's is copied.
copies_rest :
    (stale : ℕ → Entry) (i : ℕ) (wipe : Bool) (id : ℕ) (ls : List Level) (j : ℕ) (w : Writer)
    → i < j
    → All IsLevel ls
    → Extends w (map bare ls) (cancel_levels stale i wipe id ls j w)
unfolding cancel_levels
copies_rest stale i wipe id [] j w h v = Extends-refl w
copies_rest stale i wipe id (l ∷ ls) j w h v =
    let e : (j == i) ≡ false = ground arith in
    rw (e, copy_level-eq stale l w.level v.0.short)
      (Extends-trans (bare l ∷ []) (map bare ls)
        (Extends-jump w (record l { byte_offset = w.level }) refl)
        (copies_rest stale i wipe id ls (suc j) _ (omega arith) v.1))

-- The first level at a price.
abbrev pub first_at : ℕ → List Level → Option Level
first_at price [] = none
first_at price (l ∷ ls) = if l.price == price then some l else first_at price ls

pub find_price_ge : (price : ℕ) (ls : List Level) (j : ℕ) → j ≤ find_price price ls j
unfolding find_price
find_price_ge price [] j = omega arith
find_price_ge price (l ∷ ls) j = ground (arith, find_price_ge price ls (suc j))

pub no_entries : (es : List Entry) → All (λ (e : Entry). 0 < e.quantity) es → total es ≡ 0 → es ≡ []
no_entries [] h t = refl
no_entries (e ∷ es) h t = absurd (omega arith)

pub some_entries : (es : List Entry) → 0 < total es → 0 < length es
some_entries [] h = absurd (omega arith)
some_entries (e ∷ es) h = omega arith

pub reject_positive :
    (id : ℕ) (es : List Entry)
    → All (λ (e : Entry). 0 < e.quantity) es
    → All (λ (e : Entry). 0 < e.quantity) (reject (λ (e : Entry). e.order_id == id) es)
unfolding reject
reject_positive id [] h = tt
reject_positive id (e ∷ es) h = ground (arith, reject_positive id es h.1)

module _ (stale : ℕ → Entry) (price id q : ℕ) where
  -- At the cancel's own level: the level is passed over if nothing is left of it, else spliced.
  at_level :
      (l : Level) (w : Writer)
      → IsLevel l
      → (l.price == price) ≡ true
      → hit_total id l.entries ≡ q
      → Extends w
          (pulled l.price (keep_level (one price id) l) [])
          (if l.quantity == q then w else jump w (splice_level l w.level id))
  unfolding splice_level
  at_level l w v h t =
      let kept = reject (λ (e : Entry). e.order_id == id) l.entries in
      let sum = hit_total-add-kept id l.entries in
      let positive = reject_positive id l.entries v.positive in
      rw (keep_here price id l h) (elim (Bool-cases (l.quantity == q)) [
        | inl y ↦
            rw
              (
                y,
                no_entries kept positive (omega (arith, sum, v.counted, (==_iff l.quantity q).0 y)),
              )
              (Extends-refl w)
        | inr n ↦
            let left : 0 < total kept = ground (arith, sum, v.counted) in
            rw
              (
                n,
                splice_entries_lem id l.entries l.quantity (omega (arith, sum, v.counted))
                    (omega (arith, v.counted, v.fits)),
                pulled_cons l.price (l.quantity - hit_total id l.entries) kept []
                    (omega (arith, sum, v.counted)) (some_entries kept left),
              )
              (Extends-jump w _ refl)
      ])

  pub cancel_levels-Extends :
      (ls : List Level) (l0 : Level) (j i : ℕ) (wipe : Bool) (w : Writer)
      → first_at price ls ≡ some l0
      → find_price price ls j ≡ i
      → hit_total id l0.entries ≡ q
      → wipe ≡ (l0.quantity == q)
      → All IsLevel ls
      → Ascending ls
      → Extends w (pull (one price id) ls) (cancel_levels stale i wipe id ls j w)
  unfolding find_price cancel_levels pull
  cancel_levels-Extends [] l0 j i wipe w f g t k v a = cc
  cancel_levels-Extends (l ∷ ls) l0 j i wipe w f g t k v a = elim (Bool-cases (l.price == price)) [
    | inl y ↦
        let first : some l ≡ some l0 = rw y at f in
        let same : l ≡ l0 = cc in
        let index : j ≡ i = rw y at g in
        let price_eq : l.price ≡ price = (==_iff l.price price).0 y in
        rw
          (
            pulled-append l.price (keep_level (one price id) l) [] (pull (one price id) ls),
            (==_iff j i).1 index,
            k,
            ← same,
            pull-Above price id ls (rw (← price_eq) a.0) v.1,
          )
          (Extends-trans (pulled l.price (keep_level (one price id) l) []) (map bare ls)
            (at_level l w v.0 y (rw same t))
            (copies_rest stale i wipe id ls (suc j) _ (omega (arith, index)) v.1))
    | inr n ↦
        let later : (j == i) ≡ false =
          ground (arith, find_price_ge price ls (suc j), (rw n at g)) in
        rw
          (
            later,
            copy_level-eq stale l w.level v.0.short,
            keep_away price id l n,
            pulled_whole l (pull (one price id) ls) v.0,
          )
          (Extends-trans (bare l ∷ []) (pull (one price id) ls)
            (Extends-jump w (record l { byte_offset = w.level }) refl)
            (cancel_levels-Extends ls l0 (suc j) i wipe _ (rw n at f) (rw n at g) t k v.1 a.1))
  ]
