-- ===== src/Feed/Slots.antt =====
-- Which level each of the 20 slots shows.
use tiltyard.Base.{
  ℕ, ◌+◌, ◌-◌, ◌<◌, ◌≡◌, true, false, get_or, u16, ltb, leb, if◌then◌else◌, arith, Bool-cases, inl,
  inr,
}
use tiltyard.Feed.{Slot, PriceBook, no_slot, before_bids, slot_at}

-- A level as a slot shows it.
abbrev pub shown : PriceBook → ℕ → Slot
shown mbp i =
    let level = get_or mbp.levels i no_slot in
    record { price = level.price; quantity = u16 level.quantity }

bid_slot :
    (mbp : PriceBook) (k : ℕ)
    → mbp.hi_bid_index < 32777
    → mbp.hi_bid_index < mbp.level_count
    → k < 10
    → slot_at mbp (9 - k)
      ≡ (if leb k mbp.hi_bid_index then shown mbp (mbp.hi_bid_index - k) else no_slot)
unfolding slot_at before_bids
bid_slot mbp k b c h = elim (Bool-cases (leb k mbp.hi_bid_index)) [
  | inl y ↦
      let before : before_bids mbp.hi_bid_index (9 - k) ≡ false = ground arith in
      let inside : ltb (mbp.level_count + 8) (9 - k + mbp.hi_bid_index) ≡ false = ground arith in
      let index : 9 - k + mbp.hi_bid_index - 9 ≡ mbp.hi_bid_index - k = ground arith in
      rw (y, before, inside, index)
  | inr n ↦
      let before : before_bids mbp.hi_bid_index (9 - k) ≡ true = ground arith in rw (n, before)
]

ask_slot :
    (mbp : PriceBook) (k : ℕ)
    → mbp.hi_bid_index < 32777
    → k < 10
    → slot_at mbp (10 + k) ≡ (
        if ltb (mbp.hi_bid_index + 1 + k) mbp.level_count
        then shown mbp (mbp.hi_bid_index + 1 + k)
        else no_slot)
unfolding slot_at before_bids
ask_slot mbp k b h =
    let before : before_bids mbp.hi_bid_index (10 + k) ≡ false = ground arith in
    let index : 10 + k + mbp.hi_bid_index - 9 ≡ mbp.hi_bid_index + 1 + k = omega arith in
    rw before (elim (Bool-cases (ltb (mbp.hi_bid_index + 1 + k) mbp.level_count)) [
      | inl y ↦
          let inside : ltb (mbp.level_count + 8) (10 + k + mbp.hi_bid_index) ≡ false =
            ground arith in
          rw (y, inside, index)
      | inr n ↦
          let outside : ltb (mbp.level_count + 8) (10 + k + mbp.hi_bid_index) ≡ true =
            ground arith in
          rw (n, outside)
    ])

-- With bids in the book, at most 32777 of them: the slots 9, 8, …, 0 show the best bid and the next
-- nine below it, the slots 10, 11, …, 19 the best ask and the next nine above it, with quantities
-- modulo 2 ^ 16, and a slot beyond the book's last level on its side is zero.
pub slot_at_lem :
    (mbp : PriceBook) (k : ℕ)
    → mbp.hi_bid_index < 32777
    → mbp.hi_bid_index < mbp.level_count
    → k < 10
    → (slot_at mbp (9 - k)
        ≡ (if leb k mbp.hi_bid_index then shown mbp (mbp.hi_bid_index - k) else no_slot))
      × (slot_at mbp (10 + k) ≡ (
          if ltb (mbp.hi_bid_index + 1 + k) mbp.level_count
          then shown mbp (mbp.hi_bid_index + 1 + k)
          else no_slot))
slot_at_lem mbp k b c h = (bid_slot mbp k b c h, ask_slot mbp k b h)

-- Without bids every slot is zero, the asks' slots too.
pub slot_at-no_bids :
    (mbp : PriceBook) (i : ℕ)
    → mbp.hi_bid_index ≡ 65535
    → mbp.level_count < 65536
    → slot_at mbp i ≡ no_slot
unfolding slot_at before_bids
slot_at-no_bids mbp i e h = ground arith
