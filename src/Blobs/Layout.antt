-- ===== src/Blobs/Layout.antt =====
-- Where live blobs lie in the store: one behind the other, or round over the top once.
use tiltyard.Base.{
  ℕ, ◌+◌, ◌≤◌, ◌<◌, ◌≡◌, ◌⊎◌, inl, inr, refl, List, [], ◌∷◌, ◌++◌, length, get_or, All, arith,
}
use tiltyard.Blobs.{Meta, no_meta}

-- The blobs follow one another from `at` on, apart, up to `top`; none of them is empty.
abbrev pub Chain : ℕ → ℕ → List Meta → Type 0
Chain at top [] = at ≤ top
Chain at top (m ∷ ms) = (at ≤ m.offset) × (0 < m.size) × Chain (m.offset + m.size) top ms

-- Older blobs up to the top, and newer ones from the bottom up to the oldest.
pub record IsWrapped (capacity : ℕ) (ms : List Meta) : Type 0 where
  pub oldest : Meta
  pub older : List Meta
  pub after_wrap : Meta
  pub newer : List Meta
  pub parts : ms ≡ (oldest ∷ older) ++ after_wrap ∷ newer
  pub upper : Chain 0 capacity (oldest ∷ older)
  pub lower : Chain 0 oldest.offset (after_wrap ∷ newer)

abbrev pub IsLaid : ℕ → List Meta → Type 0
IsLaid capacity ms = Chain 0 capacity ms ⊎ IsWrapped capacity ms

-- The newest blob.
abbrev pub newest : Meta → List Meta → Meta
newest m [] = m
newest m (n ∷ ns) = newest n ns

abbrev pub blob_end : Meta → ℕ
blob_end m = m.offset + m.size

pub newest-append : (m n : Meta) (xs ys : List Meta) → newest m (xs ++ n ∷ ys) ≡ newest n ys
newest-append m n [] ys = refl
newest-append m n (x ∷ xs) ys = newest-append x n xs ys

pub get_or-newest : (m : Meta) (ms : List Meta) → get_or (m ∷ ms) (length ms) no_meta ≡ newest m ms
get_or-newest m [] = refl
get_or-newest m (n ∷ ns) = get_or-newest n ns

pub Chain-newest :
    (at top : ℕ) (m : Meta) (ms : List Meta)
    → Chain at top (m ∷ ms)
    → (m.offset ≤ (newest m ms).offset) × (0 < (newest m ms).size) × (blob_end (newest m ms) ≤ top)
Chain-newest at top m [] c = omega arith
Chain-newest at top m (n ∷ ns) c = omega (arith, Chain-newest (m.offset + m.size) top n ns c.2)

pub Chain-mono :
    (at top top' : ℕ) (ms : List Meta) → Chain at top ms → top ≤ top' → Chain at top' ms
Chain-mono at top top' [] c h = omega arith
Chain-mono at top top' (m ∷ ms) c h = (c.0, c.1, Chain-mono (m.offset + m.size) top top' ms c.2 h)

-- A blob behind the newest.
pub Chain-append :
    (at top top' : ℕ) (m : Meta) (ms : List Meta) (new : Meta)
    → Chain at top (m ∷ ms)
    → blob_end (newest m ms) ≤ new.offset
    → 0 < new.size
    → blob_end new ≤ top'
    → Chain at top' (m ∷ ms ++ new ∷ [])
Chain-append at top top' m [] new c h p t = (c.0, c.1, (h, p, t))
Chain-append at top top' m (n ∷ ns) new c h p t =
    (c.0, c.1, Chain-append (m.offset + m.size) top top' n ns new c.2 h p t)

abbrev pub total_size : List Meta → ℕ
total_size [] = 0
total_size (m ∷ ms) = m.size + total_size ms

pub Chain-total : (at top : ℕ) (ms : List Meta) → Chain at top ms → at + total_size ms ≤ top
Chain-total at top [] c = omega arith
Chain-total at top (m ∷ ms) c = omega (arith, Chain-total (m.offset + m.size) top ms c.2)

pub total_size-append : (xs ys : List Meta) → total_size (xs ++ ys) ≡ total_size xs + total_size ys
total_size-append [] ys = omega arith
total_size-append (x ∷ xs) ys = omega (arith, total_size-append xs ys)

-- None of the blobs is empty.
abbrev pub NonEmpty : List Meta → Type 0
NonEmpty [] = Unit
NonEmpty (m ∷ ms) = (0 < m.size) × NonEmpty ms

pub Chain-NonEmpty : (at top : ℕ) (ms : List Meta) → Chain at top ms → NonEmpty ms
Chain-NonEmpty at top [] c = tt
Chain-NonEmpty at top (m ∷ ms) c = (c.1, Chain-NonEmpty (m.offset + m.size) top ms c.2)

pub NonEmpty-append : (xs ys : List Meta) → NonEmpty xs → NonEmpty ys → NonEmpty (xs ++ ys)
NonEmpty-append [] ys p q = q
NonEmpty-append (x ∷ xs) ys p q = (p.0, NonEmpty-append xs ys p.1 q)

-- The blobs moved together, from `at` on.
abbrev pub packed : ℕ → List Meta → List Meta
packed at [] = []
packed at (m ∷ ms) = record m { offset = at } ∷ packed (at + m.size) ms

pub packed-Chain :
    (at top : ℕ) (ms : List Meta)
    → NonEmpty ms
    → at + total_size ms ≤ top
    → Chain at top (packed at ms)
packed-Chain at top [] p h = omega arith
packed-Chain at top (m ∷ ms) p h =
    (omega arith, p.0, packed-Chain (at + m.size) top ms p.1 (omega arith))

pub length-packed : (at : ℕ) (ms : List Meta) → length (packed at ms) ≡ length ms
length-packed at [] = refl
length-packed at (m ∷ ms) = omega (arith, length-packed (at + m.size) ms)

-- The same blobs, perhaps elsewhere: their references, their sizes and their bytes.
abbrev pub Kept : (ℕ → ℕ) → List Meta → (ℕ → ℕ) → List Meta → Type 0
Kept old [] new [] = Unit
Kept old [] new (n ∷ ns) = ⊥
Kept old (m ∷ ms) new [] = ⊥
Kept old (m ∷ ms) new (n ∷ ns) =
    (n.refs ≡ m.refs)
    × (n.size ≡ m.size)
    × ((k : ℕ) → k < m.size → new (n.offset + k) ≡ old (m.offset + k))
    × Kept old ms new ns

pub Kept-refl : (bytes : ℕ → ℕ) (ms : List Meta) → Kept bytes ms bytes ms
Kept-refl bytes [] = tt
Kept-refl bytes (m ∷ ms) = (refl, refl, λ k h. refl, Kept-refl bytes ms)

-- No byte belongs to two blobs.
abbrev pub Apart : Meta → Meta → Type 0
Apart m n = (blob_end m ≤ n.offset) ⊎ (blob_end n ≤ m.offset)

abbrev pub AllApart : List Meta → Type 0
AllApart [] = Unit
AllApart (m ∷ ms) = All (Apart m) ms × AllApart ms

Chain-above :
    (p at top : ℕ) (ms : List Meta) → Chain at top ms → p ≤ at → All (λ (n : Meta). p ≤ n.offset) ms
Chain-above p at top [] c h = tt
Chain-above p at top (m ∷ ms) c h =
    (omega arith, Chain-above p (m.offset + m.size) top ms c.2 (omega arith))

Chain-below :
    (at top : ℕ) (ms : List Meta) → Chain at top ms → All (λ (n : Meta). blob_end n ≤ top) ms
Chain-below at top [] c = tt
Chain-below at top (m ∷ ms) c = (
  omega (arith, Chain-total (m.offset + m.size) top ms c.2),
  Chain-below (m.offset + m.size) top ms c.2,
)

All-Apart :
    (m : Meta) (ms : List Meta) → All (λ (n : Meta). blob_end m ≤ n.offset) ms → All (Apart m) ms
All-Apart m [] h = tt
All-Apart m (n ∷ ns) h = (inl h.0, All-Apart m ns h.1)

Chain-AllApart : (at top : ℕ) (ms : List Meta) → Chain at top ms → AllApart ms
Chain-AllApart at top [] c = tt
Chain-AllApart at top (m ∷ ms) c = (
  All-Apart m ms (Chain-above (blob_end m) (m.offset + m.size) top ms c.2 (omega arith)),
  Chain-AllApart (m.offset + m.size) top ms c.2,
)

All-append : (P : Meta → Type 0) (xs ys : List Meta) → All P xs → All P ys → All P (xs ++ ys)
All-append P [] ys p q = q
All-append P (x ∷ xs) ys p q = (p.0, All-append P xs ys p.1 q)

below_Apart :
    (p : ℕ) (m : Meta) (ns : List Meta)
    → p ≤ m.offset
    → All (λ (n : Meta). blob_end n ≤ p) ns
    → All (Apart m) ns
below_Apart p m [] h a = tt
below_Apart p m (n ∷ ns) h a = (inr (omega (arith, a.0)), below_Apart p m ns h a.1)

AllApart-append :
    (p : ℕ) (xs ys : List Meta)
    → AllApart xs
    → AllApart ys
    → All (λ (n : Meta). p ≤ n.offset) xs
    → All (λ (n : Meta). blob_end n ≤ p) ys
    → AllApart (xs ++ ys)
AllApart-append p [] ys a b h k = b
AllApart-append p (x ∷ xs) ys a b h k =
    (All-append (Apart x) xs ys a.0 (below_Apart p x ys h.0 k), AllApart-append p xs ys a.1 b h.1 k)

-- Live blobs lie apart.
pub IsLaid-AllApart : (capacity : ℕ) (ms : List Meta) → IsLaid capacity ms → AllApart ms
IsLaid-AllApart capacity ms (inl c) = Chain-AllApart 0 capacity ms c
IsLaid-AllApart capacity ms (inr w) = rw w.parts (
    AllApart-append w.oldest.offset (w.oldest ∷ w.older) (w.after_wrap ∷ w.newer)
      (Chain-AllApart 0 capacity (w.oldest ∷ w.older) w.upper)
      (Chain-AllApart 0 w.oldest.offset (w.after_wrap ∷ w.newer) w.lower)
      (
        omega arith,
        Chain-above w.oldest.offset (w.oldest.offset + w.oldest.size) capacity w.older w.upper.2
            (omega arith),
      )
      (Chain-below 0 w.oldest.offset (w.after_wrap ∷ w.newer) w.lower))
