-- ===== src/Feed/InStep.antt =====
-- The three views stay in step, whichever of them `mbp_derive` rebuilds.
use tiltyard.Base.{
  ℕ, suc, ◌≡◌, refl, ap, ap₂, ◌∙◌, false, List, [], ◌∷◌, get_or, length, arith, Bool-cases, inl,
  inr,
}
use tiltyard.Book.Types.{Book}
use tiltyard.Feed.{
  Slot, PriceBook, Feed, no_slot, squash, slot_at, window_from, window, slot_differs, mbp1_derive,
  mbp10_derive, scan, needs_mbp10, mbp_derive,
}

-- `MBP10` is the window of `MBP`, and `MBP1` its slots 9 and 10.
pub record InStep (feed : Feed) : Type 0 where
  pub slots : feed.mbp10 ≡ window feed.mbp
  pub bid_slot : feed.hi_bid ≡ slot_at feed.mbp 9
  pub ask_slot : feed.lo_ask ≡ slot_at feed.mbp 10

slot_differs-false : (old new : Slot) → slot_differs old new ≡ false → old ≡ new
unfolding slot_differs
slot_differs-false old new h =
    let q : old.quantity ≡ new.quantity = ground arith in
    let p : old.price ≡ new.price = ground arith in
    ap₂ (λ (p q : ℕ). let s : Slot = record { price = p; quantity = q } in s) p q

-- A scan that finds no difference has seen the window.
scan-false :
    (mbp : PriceBook) (i : ℕ) (old : List Slot)
    → scan mbp i old ≡ false
    → old ≡ window_from mbp i (length old)
unfolding scan window_from
scan-false mbp i [] h = refl
scan-false mbp i (s ∷ old) h = elim (Bool-cases (slot_differs s (slot_at mbp i))) [
  | inl y ↦ absurd (ground arith)
  | inr n ↦
      ap₂ ◌∷◌ (slot_differs-false s (slot_at mbp i) n) (scan-false mbp (suc i) old (ground arith))
]

mid_slots :
    (mbp : PriceBook)
    → (get_or (window mbp) 9 no_slot ≡ slot_at mbp 9)
      × (get_or (window mbp) 10 no_slot ≡ slot_at mbp 10)
      × (length (window mbp) ≡ 20)
unfolding window window_from
mid_slots mbp = (refl, refl, refl)

mbp10_derive-InStep :
    (feed : Feed)
    → feed.hi_bid ≡ get_or feed.mbp10 9 no_slot
    → feed.lo_ask ≡ get_or feed.mbp10 10 no_slot
    → InStep (mbp10_derive feed)
unfolding mbp10_derive mbp1_derive
mbp10_derive-InStep feed b a =
    let new = window feed.mbp in
    let (nine, ten, _) = mid_slots feed.mbp in
    let bid = slot_differs-false (get_or feed.mbp10 9 no_slot) (get_or new 9 no_slot) in
    let ask = slot_differs-false (get_or feed.mbp10 10 no_slot) (get_or new 10 no_slot) in
    elim (Bool-cases (slot_differs (get_or feed.mbp10 9 no_slot) (get_or new 9 no_slot))) [
      | inl y ↦ rw y (record { slots = refl; bid_slot = nine; ask_slot = ten })
      | inr m ↦
          elim (Bool-cases (slot_differs (get_or feed.mbp10 10 no_slot) (get_or new 10 no_slot))) [
            | inl y ↦ rw (m, y) (record { slots = refl; bid_slot = nine; ask_slot = ten })
            | inr n ↦
                rw (m, n)
                  (record { slots = refl; bid_slot = b ∙ bid m ∙ nine; ask_slot = a ∙ ask n ∙ ten })
          ]
    ]

mbp10_derive-mbp : (feed : Feed) → (mbp10_derive feed).mbp ≡ feed.mbp
unfolding mbp10_derive mbp1_derive
mbp10_derive-mbp feed = ground arith

-- The part of `needs_mbp10` that the counts do not decide.
needs-scan :
    (old mbp : PriceBook) (old_mbp10 : List Slot)
    → needs_mbp10 old mbp old_mbp10 ≡ false
    → scan mbp 0 old_mbp10 ≡ false
unfolding needs_mbp10
needs-scan old mbp old_mbp10 h = ground arith

-- `mbp_derive` on views that are in step: MBP becomes the price-aggregated book, MBP10 is its
-- window of 20 slots, and MBP1 has the slots 9 and 10 of that window, although the two are rebuilt only
-- where the counts or the scan of the 20 slots show a difference.
pub mbp_derive_lem :
    (feed : Feed) (mbo : Book)
    → InStep feed
    → InStep (mbp_derive feed mbo) × ((mbp_derive feed mbo).mbp ≡ squash mbo)
unfolding mbp_derive
mbp_derive_lem feed mbo h =
    let mbp = squash mbo in
    let (nine, ten, size) = mid_slots feed.mbp in
    let bid : feed.hi_bid ≡ get_or feed.mbp10 9 no_slot = rw (h.slots, nine) h.bid_slot in
    let ask : feed.lo_ask ≡ get_or feed.mbp10 10 no_slot = rw (h.slots, ten) h.ask_slot in
    elim (Bool-cases (needs_mbp10 feed.mbp mbp feed.mbp10)) [
      | inl y ↦ rw y (
        mbp10_derive-InStep (record feed { mbp = mbp }) bid ask,
        mbp10_derive-mbp (record feed { mbp = mbp }),
      )
      | inr n ↦
          let seen = scan-false mbp 0 feed.mbp10 (needs-scan feed.mbp mbp feed.mbp10 n) in
          let (nine', ten', _) = mid_slots mbp in
          let slots : feed.mbp10 ≡ window mbp =
            unfold window in (rw (ap length h.slots ∙ size) at seen) in
          rw n (
            record {
              slots = slots;
              bid_slot = bid ∙ ap (λ (w : List Slot). get_or w 9 no_slot) slots ∙ nine';
              ask_slot = ask ∙ ap (λ (w : List Slot). get_or w 10 no_slot) slots ∙ ten';
            },
            refl,
          )
    ]
