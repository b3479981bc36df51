-- ===== src/Book/Level/Fills.antt =====
-- `mbo_fill_remove` matches a level first come, first served.
use tiltyard.Base.{
  ℕ, ◌+◌, ◌-◌, ◌≤◌, ◌<◌, ◌≡◌, refl, sym, ap, ◌∙◌, true, false, ◌||◌, List, [], ◌∷◌, ◌++◌,
  append-nil, append_assoc, All, reject, sub32, ltb, leb, ◌==◌, if◌then◌else◌, arith, Bool-cases,
  inl, inr,
}
use tiltyard.Order.{Fill}
use tiltyard.Book.Types.{Entry, Level}
use tiltyard.Book.Shape.{total, IsLevel}
use tiltyard.Book.Level.{Bitten, keep_entry, fill_entries, fill_remove}

-- The orders that neither leg of a pair cancels.
abbrev pub live : ℕ → ℕ → List Entry → List Entry
live cancel_id cancel_id2 es =
    reject (λ (e : Entry). e.order_id == cancel_id || e.order_id == cancel_id2) es

-- What `n` shares leave of a queue: the front orders go, the one that they end in shrinks.
abbrev pub left_over : ℕ → List Entry → List Entry
left_over n [] = []
left_over n (e ∷ es) =
    if leb e.quantity n
    then left_over (n - e.quantity) es
    else record e { quantity = e.quantity - n } ∷ es

-- What `n` shares fill, front order first.
abbrev pub taken : ℕ → List Entry → List Fill
taken n [] = []
taken n (e ∷ es) =
    if n == 0
    then []
    else if leb e.quantity n
    then record { order_id = e.order_id; quantity_filled = e.quantity; partial = 0 }
      ∷ taken (n - e.quantity) es
    else record { order_id = e.order_id; quantity_filled = n; partial = 1 } ∷ []

-- The shares of some fills.
abbrev pub filled : List Fill → ℕ
filled [] = 0
filled (f ∷ fs) = f.quantity_filled + filled fs

pub total-left_over : (n : ℕ) (es : List Entry) → total (left_over n es) ≡ total es - n
total-left_over n [] = omega arith
total-left_over n (e ∷ es) = ground (arith, total-left_over (n - e.quantity) es)

pub filled-taken : (n : ℕ) (es : List Entry) → filled (taken n es) + (total es - n) ≡ total es
filled-taken n [] = omega arith
filled-taken n (e ∷ es) = ground (arith, filled-taken (n - e.quantity) es)

abbrev Positive : List Entry → Type 0
Positive es = All (λ (e : Entry). 0 < e.quantity) es

same_size : (e : Entry) → record e { quantity = e.quantity - 0 } ≡ e
same_size e =
    let z : e.quantity - 0 ≡ e.quantity = omega arith in ap (λ (q : ℕ). record e { quantity = q }) z

left_over-zero : (c d : ℕ) (es : List Entry) → Positive es → left_over 0 (live c d es) ≡ live c d es
unfolding reject
left_over-zero c d [] p = refl
left_over-zero c d (e ∷ es) p = elim (Bool-cases (e.order_id == c || e.order_id == d)) [
  | inl y ↦ rw y (left_over-zero c d es p.1)
  | inr n ↦
      let some_left : leb e.quantity 0 ≡ false = ground (arith, p.0) in
      rw (n, some_left) (ap (λ (x : Entry). x ∷ live c d es) (same_size e))
]

taken-zero : (es : List Entry) → taken 0 es ≡ []
taken-zero [] = refl
taken-zero (e ∷ es) = refl

fill_entries-step :
    (c d : ℕ) (e : Entry) (es : List Entry) (n q : ℕ) (fills : List Fill)
    → fill_entries c d (e ∷ es) n q fills ≡ (
        if e.order_id == c || e.order_id == d
        then fill_entries c d es n (sub32 q e.quantity) fills
        else if n == 0
        then keep_entry e (fill_entries c d es n q fills)
        else if ltb n e.quantity
        then keep_entry
            (record e { quantity = e.quantity - n })
            (fill_entries c d es 0
              (sub32 q n)
              (fills ++ record { order_id = e.order_id; quantity_filled = n; partial = 1 } ∷ []))
        else fill_entries c d es (n - e.quantity) (sub32 q e.quantity) (
            fills
            ++ record { order_id = e.order_id; quantity_filled = e.quantity; partial = 0 } ∷ []))
unfolding fill_entries
fill_entries-step c d e es n q fills = ground arith

-- The loop on a queue `xs` of orders that nobody cancels, `t` shares with those that are cancelled,
-- in a level that is said to have `q` shares.
record IsServed (n q t : ℕ) (xs : List Entry) (fills : List Fill) (b : Bitten) : Type 0 where
  kept : b.kept ≡ left_over n xs
  fills_added : b.fills ≡ fills ++ taken n xs
  spent : b.remaining ≡ n - total xs
  size : b.quantity + t ≡ q + (total xs - n)

serve_front :
    (e : Entry) (xs : List Entry) (n q t : ℕ) (fills : List Fill) (b : Bitten)
    → 0 < n
    → e.quantity ≤ n
    → e.quantity ≤ q
    → IsServed
        (n - e.quantity)
        (q - e.quantity)
        t
        xs
        (fills ++ record { order_id = e.order_id; quantity_filled = e.quantity; partial = 0 } ∷ [])
        b
    → IsServed n q (e.quantity + t) (e ∷ xs) fills b
serve_front e xs n q t fills b p k h s =
    let whole : leb e.quantity n ≡ true = ground arith in
    let some_left : (n == 0) ≡ false = ground arith in
    record {
      kept = rw whole s.kept;
      fills_added = rw (whole, some_left) (s.fills_added ∙ append_assoc fills _ _);
      spent = omega (arith, s.spent);
      size = omega (arith, s.size);
    }

serve_part :
    (e : Entry) (xs : List Entry) (n q t : ℕ) (fills : List Fill) (b : Bitten)
    → 0 < n
    → n < e.quantity
    → n ≤ q
    → left_over 0 xs ≡ xs
    → IsServed 0
        (q - n)
        t
        xs
        (fills ++ record { order_id = e.order_id; quantity_filled = n; partial = 1 } ∷ [])
        b
    → IsServed n q
        (e.quantity + t)
        (e ∷ xs)
        fills
        (keep_entry (record e { quantity = e.quantity - n }) b)
serve_part e xs n q t fills b p k h z s =
    let part : leb e.quantity n ≡ false = ground arith in
    let some_left : (n == 0) ≡ false = ground arith in
    let first : Entry = record e { quantity = e.quantity - n } in
    record {
      kept = rw part (ap (λ (ys : List Entry). first ∷ ys) (s.kept ∙ z));
      fills_added =
          rw (part, some_left)
            (s.fills_added
              ∙ ap
                  (λ (fs : List Fill).
                    fills
                    ++ record { order_id = e.order_id; quantity_filled = n; partial = 1 } ∷ []
                    ++ fs)
                  (taken-zero xs)
              ∙ append-nil (
                  fills
                  ++ record { order_id = e.order_id; quantity_filled = n; partial = 1 } ∷ []));
      spent = omega (arith, s.spent);
      size = omega (arith, s.size);
    }

serve_kept :
    (e : Entry) (xs : List Entry) (q t : ℕ) (fills : List Fill) (b : Bitten)
    → 0 < e.quantity
    → left_over 0 xs ≡ xs
    → IsServed 0 q t xs fills b
    → IsServed 0 q (e.quantity + t) (e ∷ xs) fills (keep_entry e b)
serve_kept e xs q t fills b p z s =
    let some_left : leb e.quantity 0 ≡ false = ground arith in
    record {
      kept = rw some_left (
          ap (λ (ys : List Entry). e ∷ ys) (s.kept ∙ z)
          ∙ ap (λ (x : Entry). x ∷ xs) (sym (same_size e)));
      fills_added = s.fills_added ∙ ap (λ (fs : List Fill). fills ++ fs) (taken-zero xs);
      spent = omega (arith, s.spent);
      size = omega (arith, s.size);
    }

serve :
    (c d : ℕ) (es : List Entry) (n q : ℕ) (fills : List Fill)
    → Positive es
    → total es ≤ q
    → q < 4294967296
    → IsServed n q (total es) (live c d es) fills (fill_entries c d es n q fills)
unfolding reject
serve c d [] n q fills p h k =
    unfold fill_entries in
    record {
      kept = refl;
      fills_added = sym (append-nil fills);
      spent = omega arith;
      size = omega arith;
    }
serve c d (e ∷ es) n q fills p h k =
    let less : sub32 q e.quantity ≡ q - e.quantity = omega arith in
    let zero_left = left_over-zero c d es p.1 in
    rw (fill_entries-step c d e es n q fills, less)
      (elim (Bool-cases (e.order_id == c || e.order_id == d)) [
        | inl y ↦
            let s = serve c d es n (q - e.quantity) fills p.1 (omega arith) (omega arith) in
            rw y (record {
              kept = s.kept;
              fills_added = s.fills_added;
              spent = s.spent;
              size = omega (arith, s.size);
            })
        | inr m ↦ rw m (elim (Bool-cases (n == 0)) [
          | inl z ↦
              let none_left : n ≡ 0 = ground arith in
              rw (z, none_left)
                (serve_kept e (live c d es) q (total es) fills _ p.0 zero_left
                  (serve c d es 0 q fills p.1 (omega arith) k))
          | inr z ↦ rw z (elim (Bool-cases (ltb n e.quantity)) [
            | inl part ↦
                let less_n : sub32 q n ≡ q - n = ground arith in
                rw (part, less_n)
                  (serve_part e (live c d es) n q (total es) fills _ (ground arith) (ground arith)
                    (ground arith) zero_left
                    (serve c d es 0 (q - n) _ p.1 (ground arith) (omega arith)))
            | inr all ↦ rw all (
                serve_front e (live c d es) n q (total es) fills _ (ground arith) (ground arith)
                  (omega arith)
                  (serve c d es (n - e.quantity) (q - e.quantity) _ p.1 (omega arith)
                    (omega arith)))
          ])
        ])
      ])

-- What the taker of `n` shares leaves of a level and adds to the fills.
pub record Matched (old : Level) (at n c d : ℕ) (fills : List Fill) (new : Level)
    (fills' : List Fill) : Type 0 where
  pub kept : new.entries ≡ left_over n (live c d old.entries)
  pub added : fills' ≡ fills ++ taken n (live c d old.entries)
  pub size : new.quantity ≡ total new.entries
  pub conserved :
      filled (taken n (live c d old.entries)) + total new.entries ≡ total (live c d old.entries)
  pub place : (new.price ≡ old.price) × (new.byte_offset ≡ at)

-- `mbo_fill_remove` on a sound level, for a taker of any number of shares: of the orders that neither
-- leg cancels, the front ones are filled whole, the one that the shares end in is filled in part and
-- keeps its place, those behind it stay as they are, and the cancelled ones are gone without a fill;
-- the fills are queued in that order, shares are neither made nor lost, and the level's quantity in
-- the index is the sum of its orders.
pub fill_remove_lem :
    (old : Level) (at n c d : ℕ) (fills : List Fill)
    → IsLevel old
    → let r = fill_remove old at n c d fills in Matched old at n c d fills r.0 r.1
unfolding fill_remove
fill_remove_lem old at n c d fills v =
    let es = old.entries in
    let s =
      serve c d es n old.quantity fills v.positive (omega (arith, v.counted))
        (omega (arith, v.counted, v.fits)) in
    let left = ap total s.kept ∙ total-left_over n (live c d es) in
    record {
      kept = s.kept;
      added = s.fills_added;
      size = omega (arith, left, s.size, v.counted);
      conserved = omega (arith, left, filled-taken n (live c d es));
      place = (refl, refl);
    }
