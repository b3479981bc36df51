-- ===== src/Server/Auction/Climb.antt =====
-- src/server.c, `auction_walk`: demand and supply at each price, and the walk up the prices against them.
use tiltyard.Base.{
  ℕ, zero, suc, ◌+◌, ◌-◌, ◌≤◌, ◌<◌, ◌≡◌, ◌⊎◌, refl, sym, ap, ap₂, ◌∙◌, true, false, ◌&&◌, ◌||◌,
  get_or, u32, sub32, ltb, ◌==◌, if◌then◌else◌, arith, Bool-cases, inl, inr,
}
use tiltyard.Book.Range.{no_level}
use tiltyard.Ring.{count}
use tiltyard.Server.State.{Server}
use tiltyard.Server.Auction.Curves.{
  ask_start, level_total, Curve, gather_levels, next_price, curve_at, curve_step, lower, climb,
  climb_start, climb_fuel, walk_curves,
}
use tiltyard.Server.Auction.Sums.{
  Source, total, above, below, Climbing, total_mono, above_anti, below_mono, above_total,
  below_total, gather, IsGathered, gather_lem,
}
use tiltyard.Server.Auction.Sources.{
  parked, levels_from, gather_parked_lem, gather_levels_lem, zero_plus, gather_bids_lem,
  level_total_lem, IsParted, gather-IsParted, parted_above, parted_below,
}
use tiltyard.Server.Auction.Choices.{
  least_mono, higher, taken_over, lower_below, lower_at, lower_up, lower_met, test_by_below,
  below_by_test, last_left, two_sided, one_sided, any_left, nothing_left, ltb_shift,
}

module _ (sc : Server) (base_demand base_supply : ℕ) where
  abbrev first : ℕ
  first = ask_start sc.mbo

  abbrev bids : Source
  bids = parked true sc

  abbrev asks : Source
  asks = parked false sc

  abbrev book_bids : Source
  book_bids = levels_from sc.mbo 0 first

  abbrev book_asks : Source
  book_asks = levels_from sc.mbo first (sc.mbo.level_count - first)

  -- The shares that are bid for at a price or more, and those that are offered at it or less.
  abbrev pub demand : ℕ → ℕ
  demand p = base_demand + above bids p bids.size + above book_bids p book_bids.size

  abbrev pub supply : ℕ → ℕ
  supply p = base_supply + below asks p asks.size + below book_asks p book_asks.size

  -- The shares that trade at a price.
  abbrev pub crossing : ℕ → ℕ
  crossing p = if ltb (demand p) (supply p) then demand p else supply p

  -- Each source is in order, its sums are words, and the prices of the book are.
  pub record IsSound : Type 0 where
    pub bids_climb : Climbing bids
    pub asks_climb : Climbing asks
    pub book_bids_climb : Climbing book_bids
    pub book_asks_climb : Climbing book_asks
    pub demand_word :
        base_demand + total bids bids.size + total book_bids book_bids.size < 4294967296
    pub supply_word :
        base_supply + total asks asks.size + total book_asks book_asks.size < 4294967296
    pub prices : (i : ℕ) → (get_or sc.mbo.levels i no_level).price ≤ 65535
    pub boundary : first ≤ sc.mbo.level_count

  -- The walk stands just below the price `w`, at ask level `x` of the book.
  record Stands (c : Curve) (x w : ℕ) : Type 0 where
    pub at_bid : IsParted bids c.bid_i w
    pub at_ask : IsParted asks c.ask_i w
    pub at_book_bid : IsParted book_bids c.book_bid_i w
    pub at_book_ask : IsParted book_asks x w
    pub level : c.book_ask_i ≡ first + x
    pub demanded :
        c.bids_at_or_above + total bids c.bid_i + total book_bids c.book_bid_i
        ≡ total bids bids.size + total book_bids book_bids.size
    pub supplied : c.asks_at_or_below ≡ total asks c.ask_i + total book_asks x
    pub best : (p : ℕ) → p < w → crossing p ≤ c.matched
    pub attained : (c.matched ≡ 0) ⊎ (crossing c.clearing ≡ c.matched)

  -- The next price, the least of the four that come next.
  record IsNext (c : Curve) (x w p : ℕ) : Type 0 where
    pub up : w ≤ p
    pub bid : (k : ℕ) → c.bid_i ≤ k → k < bids.size → p ≤ bids.price k
    pub ask : (k : ℕ) → c.ask_i ≤ k → k < asks.size → p ≤ asks.price k
    pub book_bid : (k : ℕ) → c.book_bid_i ≤ k → k < book_bids.size → p ≤ book_bids.price k
    pub book_ask : (k : ℕ) → x ≤ k → k < book_asks.size → p ≤ book_asks.price k

  demand_here :
      (c : Curve) (x w p : ℕ)
      → Stands c x w
      → IsNext c x w p
      → (q : ℕ) → w ≤ q
      → q ≤ p
      → demand q ≡ base_demand + c.bids_at_or_above
  demand_here c x w p v n q h k = omega (
    arith,
    v.demanded,
    parted_above bids c.bid_i w q v.at_bid h (λ j l m. omega (arith, n.bid j l m)),
    parted_above book_bids c.book_bid_i w q v.at_book_bid h
        (λ j l m. omega (arith, n.book_bid j l m)),
  )

  -- What is offered at or below the price once its run is gathered.
  supply_here :
      (c : Curve) (x w p : ℕ) (rA rX : ℕ × ℕ)
      → Stands c x w
      → w ≤ p
      → IsGathered asks p c.ask_i c.asks_at_or_below rA
      → IsGathered book_asks p x rA.1 rX
      → (rX.1 ≡ total asks rA.0 + total book_asks rX.0) × (supply p ≡ base_supply + rX.1)
  supply_here c x w p rA rX v h gA gX =
      let sum : rX.1 ≡ total asks rA.0 + total book_asks rX.0 =
        omega (arith, v.supplied, gA.sum, gX.sum) in
      let a =
        parted_below asks rA.0 p
          (gather-IsParted asks c.ask_i w p c.asks_at_or_below rA v.at_ask h gA) in
      let b =
        parted_below book_asks rX.0 p
          (gather-IsParted book_asks x w p rA.1 rX v.at_book_ask h gX) in
      (sum, omega (arith, sum, a, b))

  -- What the bids at the price take from those at or above it.
  shed :
      (c : Curve) (x w p : ℕ) (rB rY : ℕ × ℕ)
      → Stands c x w
      → IsGathered bids p c.bid_i 0 rB
      → IsGathered book_bids p c.book_bid_i rB.1 rY
      → rY.1 + total bids c.bid_i + total book_bids c.book_bid_i
        ≡ total bids rB.0 + total book_bids rY.0
  shed c x w p rB rY v gB gY = omega (arith, gB.sum, gY.sum)

  -- The crossing of a price that the walk passes over is no more than that of the price it stops at.
  passed :
      (c : Curve) (x w p q : ℕ)
      → Stands c x w
      → IsNext c x w p
      → w ≤ q
      → q ≤ p
      → crossing q ≤ crossing p
  passed c x w p q v n h k =
      let dq = demand_here c x w p v n q h k in
      let dp = demand_here c x w p v n p n.up (omega arith) in
      least_mono (demand q) (supply q) (demand p) (supply p) (omega (arith, dq, dp))
        (omega (arith, below_mono asks q p asks.size k, below_mono book_asks q p book_asks.size k))

  -- Once the runs at the price are gathered from the four sources, the walk stands just above it.
  stands_above :
      (c : Curve) (x w p : ℕ) (rA rX rB rY : ℕ × ℕ)
      → IsSound
      → Stands c x w
      → IsNext c x w p
      → IsGathered asks p c.ask_i c.asks_at_or_below rA
      → IsGathered book_asks p x rA.1 rX
      → IsGathered bids p c.bid_i 0 rB
      → IsGathered book_bids p c.book_bid_i rB.1 rY
      → Stands (curve_at base_demand base_supply p c rA (first + rX.0, rX.1) rB rY) rX.0 (p + 1)
  unfolding curve_at
  stands_above c x w p rA rX rB rY ok v n gA gX gB gY =
      let (sum, offered) = supply_here c x w p rA rX v n.up gA gX in
      let wanted = demand_here c x w p v n p n.up (omega arith) in
      let gone = shed c x w p rB rY v gB gY in
      let dw : u32 (base_demand + c.bids_at_or_above) ≡ demand p =
        omega (arith, wanted, ok.demand_word, v.demanded) in
      let sw : u32 (base_supply + rX.1) ≡ supply p = omega (
        arith,
        offered,
        sum,
        ok.supply_word,
        total_mono asks rA.0 asks.size gA.inside,
        total_mono book_asks rX.0 book_asks.size gX.inside,
      ) in
      let left : sub32 c.bids_at_or_above rY.1 + total bids rB.0 + total book_bids rY.0
          ≡ total bids bids.size + total book_bids book_bids.size =
        omega (
          arith,
          gone,
          v.demanded,
          ok.demand_word,
          total_mono bids rB.0 bids.size gB.inside,
          total_mono book_bids rY.0 book_bids.size gY.inside,
        ) in
      rw (dw, sw)
        (record {
          at_bid = gather-IsParted bids c.bid_i w p 0 rB v.at_bid n.up gB;
          at_ask = gather-IsParted asks c.ask_i w p c.asks_at_or_below rA v.at_ask n.up gA;
          at_book_bid = gather-IsParted book_bids c.book_bid_i w p rB.1 rY v.at_book_bid n.up gY;
          at_book_ask = gather-IsParted book_asks x w p rA.1 rX v.at_book_ask n.up gX;
          level = refl;
          demanded = left;
          supplied = sum;
          best = λ q l. elim (Bool-cases (ltb q w)) [
            | inl y ↦ higher c.matched (crossing p) (crossing q) (inl (v.best q (ground arith)))
            | inr m ↦
                higher c.matched (crossing p) (crossing q)
                  (inr (passed c x w p q v n (ground arith) (ground arith)))
          ];
          attained = taken_over crossing c.matched p c.clearing v.attained;
        })

  -- The price that the code finds, by the sources.
  next_heads :
      (c : Curve) (x w : ℕ)
      → IsSound
      → Stands c x w
      → next_price sc c
        ≡ lower (ltb x book_asks.size) (book_asks.price x) (
            lower (ltb c.book_bid_i book_bids.size) (book_bids.price c.book_bid_i) (
              lower
                (ltb c.ask_i asks.size)
                (asks.price c.ask_i)
                (lower (ltb c.bid_i bids.size) (bids.price c.bid_i) 65535)))
  unfolding next_price
  next_heads c x w ok v =
      rw
        (
          next_price,
          v.level,
          ltb_shift first x sc.mbo.level_count ok.boundary,
          zero_plus c.book_bid_i,
        )
        refl

  -- It is the least of those that come next, if the walk stands at a word of 16 bits.
  next_price-IsNext :
      (c : Curve) (x w : ℕ) → IsSound → Stands c x w → w ≤ 65535 → IsNext c x w (next_price sc c)
  next_price-IsNext c x w ok v fits =
      let p1 = lower (ltb c.bid_i bids.size) (bids.price c.bid_i) 65535 in
      let p2 = lower (ltb c.ask_i asks.size) (asks.price c.ask_i) p1 in
      let p3 = lower (ltb c.book_bid_i book_bids.size) (book_bids.price c.book_bid_i) p2 in
      let p4 = lower (ltb x book_asks.size) (book_asks.price x) p3 in
      let b2 = lower_below (ltb c.ask_i asks.size) (asks.price c.ask_i) p1 in
      let b3 = lower_below (ltb c.book_bid_i book_bids.size) (book_bids.price c.book_bid_i) p2 in
      let b4 = lower_below (ltb x book_asks.size) (book_asks.price x) p3 in
      rw (next_heads c x w ok v) (record {
        up =
            lower_up _ _ p3 w
              (lower_up _ _ p2 w
                (lower_up _ _ p1 w
                  (lower_up _ _ 65535 w fits
                    (λ h. v.at_bid.high c.bid_i (omega arith) (below_by_test _ _ h)))
                  (λ h. v.at_ask.high c.ask_i (omega arith) (below_by_test _ _ h)))
                (λ h. v.at_book_bid.high c.book_bid_i (omega arith) (below_by_test _ _ h)))
              (λ h. v.at_book_ask.high x (omega arith) (below_by_test _ _ h));
        bid = λ k l m. omega (
          arith,
          b2,
          b3,
          b4,
          lower_at _ (bids.price c.bid_i) 65535 (test_by_below c.bid_i k bids.size l m),
          ok.bids_climb c.bid_i k l m,
        );
        ask = λ k l m. omega (
          arith,
          b3,
          b4,
          lower_at _ (asks.price c.ask_i) p1 (test_by_below c.ask_i k asks.size l m),
          ok.asks_climb c.ask_i k l m,
        );
        book_bid = λ k l m. omega (
          arith,
          b4,
          lower_at _ (book_bids.price c.book_bid_i) p2
              (test_by_below c.book_bid_i k book_bids.size l m),
          ok.book_bids_climb c.book_bid_i k l m,
        );
        book_ask = λ k l m. omega (
          arith,
          lower_at _ (book_asks.price x) p3 (test_by_below x k book_asks.size l m),
          ok.book_asks_climb x k l m,
        );
      })

  -- The entries that the walk has before it.
  abbrev ahead : Curve → ℕ → ℕ
  ahead c x =
      (bids.size - c.bid_i)
      + (asks.size - c.ask_i)
      + (book_bids.size - c.book_bid_i)
      + (book_asks.size - x)

  -- The runs at the price `p`, gathered from the four sources.
  abbrev asks_at : Curve → ℕ → ℕ × ℕ
  asks_at c p = gather (asks.size - c.ask_i) asks p c.ask_i c.asks_at_or_below

  abbrev book_asks_at : Curve → ℕ → ℕ → ℕ × ℕ
  book_asks_at c x p = gather (book_asks.size - x) book_asks p x (asks_at c p).1

  abbrev bids_at : Curve → ℕ → ℕ × ℕ
  bids_at c p = gather (bids.size - c.bid_i) bids p c.bid_i 0

  abbrev book_bids_at : Curve → ℕ → ℕ × ℕ
  book_bids_at c p = gather (book_bids.size - c.book_bid_i) book_bids p c.book_bid_i (bids_at c p).1

  step_gathers :
      (c : Curve) (x w : ℕ)
      → Stands c x w
      → let p = next_price sc c in
        let rX = book_asks_at c x p in
        curve_step sc base_demand base_supply c
        ≡ curve_at base_demand base_supply p c
            (asks_at c p)
            (first + rX.0, rX.1)
            (bids_at c p)
            (book_bids_at c p)
  unfolding curve_step
  step_gathers c x w v =
      let p = next_price sc c in
      let rA = asks_at c p in
      let rB = bids_at c p in
      let eA = gather_parked_lem (asks.size - c.ask_i) sc false p c.ask_i c.asks_at_or_below in
      let eB = gather_parked_lem (bids.size - c.bid_i) sc true p c.bid_i 0 in
      let span : sc.mbo.level_count - (first + x) ≡ book_asks.size - x = omega arith in
      let eX = gather_levels_lem (book_asks.size - x) sc.mbo p first book_asks.size x rA.1 in
      let eY = gather_bids_lem (book_bids.size - c.book_bid_i) sc.mbo p first c.book_bid_i rB.1 in
      let levels_asks : gather_levels (sc.mbo.level_count - c.book_ask_i) sc.mbo p c.book_ask_i rA.1
          ≡ (first + (book_asks_at c x p).0, (book_asks_at c x p).1) =
        ap (λ j. gather_levels (sc.mbo.level_count - j) sc.mbo p j rA.1) v.level
        ∙ ap (λ n. gather_levels n sc.mbo p (first + x) rA.1) span
        ∙ eX in
      ap₂
        (λ (a b : ℕ × ℕ).
          curve_at base_demand base_supply p c a
            (gather_levels (sc.mbo.level_count - c.book_ask_i) sc.mbo p c.book_ask_i a.1) b
            (gather_levels (first - c.book_bid_i) sc.mbo p c.book_bid_i b.1))
        eA eB
      ∙ ap₂ (λ (a b : ℕ × ℕ). curve_at base_demand base_supply p c rA a rB b) levels_asks eY

  IsGathered-asks :
      (c : Curve) (x w p : ℕ)
      → IsSound
      → Stands c x w
      → IsNext c x w p
      → IsGathered asks p c.ask_i c.asks_at_or_below (asks_at c p)
        × IsGathered book_asks p x (asks_at c p).1 (book_asks_at c x p)
  IsGathered-asks c x w p ok v n =
      let gA =
        gather_lem (asks.size - c.ask_i) asks p c.ask_i c.asks_at_or_below
          (omega (arith, v.at_ask.inside)) ok.asks_climb (λ l. n.ask c.ask_i (omega arith) l)
          (omega (
            arith,
            v.supplied,
            ok.supply_word,
            total_mono book_asks x book_asks.size v.at_book_ask.inside,
          )) in
      let gX =
        gather_lem (book_asks.size - x) book_asks p x (asks_at c p).1
          (omega (arith, v.at_book_ask.inside)) ok.book_asks_climb
          (λ l. n.book_ask x (omega arith) l)
          (omega (
            arith,
            v.supplied,
            ok.supply_word,
            gA.sum,
            total_mono asks (asks_at c p).0 asks.size gA.inside,
          )) in
      (gA, gX)

  IsGathered-bids :
      (c : Curve) (x w p : ℕ)
      → IsSound
      → Stands c x w
      → IsNext c x w p
      → IsGathered bids p c.bid_i 0 (bids_at c p)
        × IsGathered book_bids p c.book_bid_i (bids_at c p).1 (book_bids_at c p)
  IsGathered-bids c x w p ok v n =
      let gB =
        gather_lem (bids.size - c.bid_i) bids p c.bid_i 0 (omega (arith, v.at_bid.inside))
          ok.bids_climb (λ l. n.bid c.bid_i (omega arith) l) (omega (arith, ok.demand_word)) in
      let gY =
        gather_lem (book_bids.size - c.book_bid_i) book_bids p c.book_bid_i (bids_at c p).1
          (omega (arith, v.at_book_bid.inside)) ok.book_bids_climb
          (λ l. n.book_bid c.book_bid_i (omega arith) l)
          (omega
            (arith, ok.demand_word, gB.sum, total_mono bids (bids_at c p).0 bids.size gB.inside)) in
      (gB, gY)

  -- The walk has something before it only where it stands at a word of 16 bits.
  fits_word : (c : Curve) (x w : ℕ) → IsSound → Stands c x w → 0 < ahead c x → w ≤ 65535
  fits_word c x w ok v more = elim (Bool-cases (ltb c.bid_i bids.size)) [
    | inl y ↦ omega (arith, v.at_bid.high c.bid_i (omega arith) (below_by_test _ _ y))
    | inr n1 ↦ elim (Bool-cases (ltb c.ask_i asks.size)) [
      | inl y ↦ omega (arith, v.at_ask.high c.ask_i (omega arith) (below_by_test _ _ y))
      | inr n2 ↦ elim (Bool-cases (ltb c.book_bid_i book_bids.size)) [
        | inl y ↦ omega (
          arith,
          v.at_book_bid.high c.book_bid_i (omega arith) (below_by_test _ _ y),
          ok.prices (0 + c.book_bid_i),
        )
        | inr n3 ↦ omega (
          arith,
          v.at_book_ask.high x (omega arith) (last_left _ _ _ _ _ _ _ _ more n1 n2 n3),
          ok.prices (first + x),
        )
      ]
    ]
  ]

  -- At the top price every source that goes on is at it.
  moves_at_top :
      (c : Curve) (x w : ℕ)
      → IsSound
      → Stands c x w
      → 0 < ahead c x
      → let p = next_price sc c in
        p ≡ 65535
        → IsGathered asks p c.ask_i c.asks_at_or_below (asks_at c p)
        → IsGathered book_asks p x (asks_at c p).1 (book_asks_at c x p)
        → IsGathered bids p c.bid_i 0 (bids_at c p)
        → IsGathered book_bids p c.book_bid_i (bids_at c p).1 (book_bids_at c p)
        → c.bid_i + c.ask_i + c.book_bid_i + x
          < (bids_at c p).0 + (asks_at c p).0 + (book_bids_at c p).0 + (book_asks_at c x p).0
  moves_at_top c x w ok v more top gA gX gB gY =
      let p = next_price sc c in
      let n = next_price-IsNext c x w ok v (fits_word c x w ok v more) in
      elim (Bool-cases (ltb c.bid_i bids.size)) [
        | inl y ↦
            let h : c.bid_i < bids.size = below_by_test _ _ y in
            let m : bids.price c.bid_i ≡ p = omega (arith, top, n.bid c.bid_i (omega arith) h) in
            omega (arith, gA.on, gX.on, gY.on, gB.progress h m)
        | inr n1 ↦ elim (Bool-cases (ltb c.ask_i asks.size)) [
          | inl y ↦
              let h : c.ask_i < asks.size = below_by_test _ _ y in
              let m : asks.price c.ask_i ≡ p = omega (arith, top, n.ask c.ask_i (omega arith) h) in
              omega (arith, gB.on, gX.on, gY.on, gA.progress h m)
          | inr n2 ↦ elim (Bool-cases (ltb c.book_bid_i book_bids.size)) [
            | inl y ↦
                let h : c.book_bid_i < book_bids.size = below_by_test _ _ y in
                let m : book_bids.price c.book_bid_i ≡ p = omega (
                  arith,
                  top,
                  n.book_bid c.book_bid_i (omega arith) h,
                  ok.prices (0 + c.book_bid_i),
                ) in
                omega (arith, gB.on, gX.on, gA.on, gY.progress h m)
            | inr n3 ↦
                let h : x < book_asks.size = last_left _ _ _ _ _ _ _ _ more n1 n2 n3 in
                let m : book_asks.price x ≡ p =
                  omega (arith, top, n.book_ask x (omega arith) h, ok.prices (first + x)) in
                omega (arith, gB.on, gY.on, gA.on, gX.progress h m)
          ]
        ]
      ]

  -- A step goes on in one of the sources.
  moves :
      (c : Curve) (x w : ℕ)
      → IsSound
      → Stands c x w
      → 0 < ahead c x
      → let p = next_price sc c in
        IsGathered asks p c.ask_i c.asks_at_or_below (asks_at c p)
        → IsGathered book_asks p x (asks_at c p).1 (book_asks_at c x p)
        → IsGathered bids p c.bid_i 0 (bids_at c p)
        → IsGathered book_bids p c.book_bid_i (bids_at c p).1 (book_bids_at c p)
        → c.bid_i + c.ask_i + c.book_bid_i + x
          < (bids_at c p).0 + (asks_at c p).0 + (book_bids_at c p).0 + (book_asks_at c x p).0
  moves c x w ok v more gA gX gB gY =
      let e = next_heads c x w ok v in
      let p = next_price sc c in
      let p1 = lower (ltb c.bid_i bids.size) (bids.price c.bid_i) 65535 in
      let p2 = lower (ltb c.ask_i asks.size) (asks.price c.ask_i) p1 in
      let p3 = lower (ltb c.book_bid_i book_bids.size) (book_bids.price c.book_bid_i) p2 in
      elim (lower_met (ltb x book_asks.size) (book_asks.price x) p3) [
        | inr (h, m) ↦
            omega (arith, gA.on, gB.on, gY.on, gX.progress (below_by_test _ _ h) (m ∙ sym e))
        | inl s4 ↦
            elim (lower_met (ltb c.book_bid_i book_bids.size) (book_bids.price c.book_bid_i) p2) [
              | inr (h, m) ↦ omega (
                arith,
                gA.on,
                gB.on,
                gX.on,
                gY.progress (below_by_test _ _ h) (m ∙ sym s4 ∙ sym e),
              )
              | inl s3 ↦ elim (lower_met (ltb c.ask_i asks.size) (asks.price c.ask_i) p1) [
                | inr (h, m) ↦ omega (
                  arith,
                  gY.on,
                  gB.on,
                  gX.on,
                  gA.progress (below_by_test _ _ h) (m ∙ sym s3 ∙ sym s4 ∙ sym e),
                )
                | inl s2 ↦ elim (lower_met (ltb c.bid_i bids.size) (bids.price c.bid_i) 65535) [
                  | inr (h, m) ↦ omega (
                    arith,
                    gY.on,
                    gA.on,
                    gX.on,
                    gB.progress (below_by_test _ _ h) (m ∙ sym s2 ∙ sym s3 ∙ sym s4 ∙ sym e),
                  )
                  | inl s1 ↦ moves_at_top c x w ok v more (e ∙ s4 ∙ s3 ∙ s2 ∙ s1) gA gX gB gY
                ]
              ]
            ]
      ]

  -- A walk that has stopped, at the end of every source.
  record Stopped (c : Curve) : Type 0 where
    pub x : ℕ
    pub w : ℕ
    pub stands : Stands c x w
    pub none_left : ahead c x ≡ 0

  -- One step of the code, where something is left.
  steps :
      (c : Curve) (x w : ℕ)
      → IsSound
      → Stands c x w
      → 0 < ahead c x
      → let p = next_price sc c in
        let c' = curve_step sc base_demand base_supply c in
        Stands c' (book_asks_at c x p).0 (p + 1) × (ahead c' (book_asks_at c x p).0 < ahead c x)
  unfolding curve_at
  steps c x w ok v more =
      let p = next_price sc c in
      let n = next_price-IsNext c x w ok v (fits_word c x w ok v more) in
      let (gA, gX) = IsGathered-asks c x w p ok v n in
      let (gB, gY) = IsGathered-bids c x w p ok v n in
      let on = moves c x w ok v more gA gX gB gY in
      rw (step_gathers c x w v) (
        stands_above c x w p (asks_at c p) (book_asks_at c x p) (bids_at c p) (book_bids_at c p) ok
            v n gA gX gB gY,
        omega (arith, on, gA.on, gA.inside, gX.on, gX.inside, gB.on, gB.inside, gY.on, gY.inside),
      )

  -- With as much fuel as there are entries left, the walk of the code stops at the end.
  climbs :
      (fuel : ℕ) (c : Curve) (x w : ℕ)
      → IsSound
      → Stands c x w
      → ahead c x ≤ fuel
      → Stopped (climb fuel sc base_demand base_supply c)
  unfolding climb
  climbs zero c x w ok v h = record { x = x; w = w; stands = v; none_left = omega arith }
  climbs (suc fuel) c x w ok v h =
      let more =
        ltb c.bid_i (count sc.auction_bid_sorted)
        || ltb c.ask_i (count sc.auction_ask_sorted)
        || ltb c.book_bid_i first
        || ltb c.book_ask_i sc.mbo.level_count in
      elim (Bool-cases more) [
        | inl y ↦
            let left =
              any_left c.bid_i bids.size c.ask_i asks.size c.book_bid_i first c.book_ask_i
                sc.mbo.level_count first x v.level ok.boundary y in
            let (v', fewer) = steps c x w ok v left in
            rw (climb, y)
              (climbs fuel (curve_step sc base_demand base_supply c)
                (book_asks_at c x (next_price sc c)).0 (next_price sc c + 1) ok v'
                (omega (arith, fewer)))
        | inr n ↦
            rw (climb, n)
              (record {
                x = x;
                w = w;
                stands = v;
                none_left =
                    nothing_left c.bid_i bids.size c.ask_i asks.size c.book_bid_i first c.book_ask_i
                      sc.mbo.level_count first x v.level ok.boundary n;
              })
      ]

  -- Where the code begins.
  starts :
      (total_demand : ℕ)
      → IsSound
      → total_demand ≡ total bids bids.size
      → Stands (climb_start sc total_demand) 0 0
  starts total_demand ok e =
      let room : 0 + total book_bids (0 + first) < 4294967296 + total book_bids 0 =
        rw (zero_plus first) (omega (arith, ok.demand_word)) in
      let sum = level_total_lem first sc.mbo first 0 0 room in
      let sum' : level_total first sc.mbo 0 0 ≡ total book_bids first =
        omega (arith, sum, ap (λ n. total book_bids n) (zero_plus first)) in
      record {
        at_bid = record {
          inside = omega arith;
          low = λ k l. absurd (omega arith);
          high = λ k l m. omega arith;
        };
        at_ask = record {
          inside = omega arith;
          low = λ k l. absurd (omega arith);
          high = λ k l m. omega arith;
        };
        at_book_bid = record {
          inside = omega arith;
          low = λ k l. absurd (omega arith);
          high = λ k l m. omega arith;
        };
        at_book_ask = record {
          inside = omega arith;
          low = λ k l. absurd (omega arith);
          high = λ k l m. omega arith;
        };
        level = omega arith;
        demanded = omega (arith, sum', e, ok.demand_word);
        supplied = refl;
        best = λ p l. absurd (omega arith);
        attained = inl refl;
      }

  -- At the end, a price that was not passed crosses no more than the last one that was.
  above_end : (c : Curve) (s : Stopped c) (w p : ℕ) → s.w ≡ w + 1 → w ≤ p → crossing p ≤ crossing w
  above_end c s w p e h =
      let v = s.stands in
      let a = parted_below asks c.ask_i w (rw e at v.at_ask) in
      let b = parted_below book_asks s.x w (rw e at v.at_book_ask) in
      let ea : c.ask_i ≡ asks.size = omega (arith, s.none_left, v.at_ask.inside) in
      let eb : s.x ≡ book_asks.size = omega (arith, s.none_left, v.at_book_ask.inside) in
      least_mono (demand p) (supply p) (demand w) (supply w)
        (omega (arith, above_anti bids w p bids.size h, above_anti book_bids w p book_bids.size h))
        (omega (
          arith,
          a,
          b,
          ap (λ n. total asks n) ea,
          ap (λ n. total book_asks n) eb,
          below_total asks p asks.size,
          below_total book_asks p book_asks.size,
        ))

  -- Every price crosses at least the market orders, and no more where the walk has not moved.
  market_crossing :
      (p : ℕ) → (if ltb base_demand base_supply then base_demand else base_supply) ≤ crossing p
  market_crossing p =
      least_mono base_demand base_supply (demand p) (supply p) (omega arith) (omega arith)

  -- A walk that ends at 0 had no source to walk over.
  empty_source : (s : Source) (i : ℕ) → IsParted s i 0 → s.size - i ≡ 0 → total s s.size ≡ 0
  empty_source s zero v e = let nil : s.size ≡ 0 = omega arith in ap (λ n. total s n) nil
  empty_source s (suc i) v e = absurd (omega (arith, v.low 0 (omega arith)))

  only_market :
      (c : Curve) (s : Stopped c) (p : ℕ)
      → s.w ≡ 0
      → crossing p ≡ (if ltb base_demand base_supply then base_demand else base_supply)
  only_market c s p e =
      let v = s.stands in
      let n1 = empty_source bids c.bid_i (rw e at v.at_bid) (omega (arith, s.none_left)) in
      let n2 = empty_source asks c.ask_i (rw e at v.at_ask) (omega (arith, s.none_left)) in
      let n3 =
        empty_source book_bids c.book_bid_i (rw e at v.at_book_bid) (omega (arith, s.none_left)) in
      let n4 = empty_source book_asks s.x (rw e at v.at_book_ask) (omega (arith, s.none_left)) in
      let d : demand p ≡ base_demand =
        omega
          (arith, n1, n3, above_total bids p bids.size, above_total book_bids p book_bids.size) in
      let t : supply p ≡ base_supply =
        omega
          (arith, n2, n4, below_total asks p asks.size, below_total book_asks p book_asks.size) in
      rw (d, t) refl

  -- No price crosses more than the walk has found, once it has stopped above 0.
  found : (c : Curve) (s : Stopped c) (w : ℕ) → s.w ≡ w + 1 → (p : ℕ) → crossing p ≤ c.matched
  found c s w e p =
      let v = s.stands in
      elim (Bool-cases (ltb p (w + 1))) [
        | inl y ↦ v.best p (omega (arith, e, below_by_test _ _ y))
        | inr n ↦
            omega (arith, above_end c s w p e (ground (arith, n)), v.best w (omega (arith, e)))
      ]

  -- The clearing price is where the most shares trade, and as many are matched.
  pub record IsCleared (r : ℕ × ℕ) : Type 0 where
    pub most : (p : ℕ) → crossing p ≤ r.1
    pub there : (r.1 ≡ 0) ⊎ (crossing r.0 ≡ r.1)

  cleared :
      (c : Curve) (s : Stopped c) (w : ℕ)
      → s.w ≡ w
      → IsCleared (
          if c.matched == 0 && ltb 0 base_demand && ltb 0 base_supply
          then (sc.mark, if ltb base_demand base_supply then base_demand else base_supply)
          else (c.clearing, c.matched))
  cleared c s zero e =
      let v = s.stands in
      elim (Bool-cases (c.matched == 0 && ltb 0 base_demand && ltb 0 base_supply)) [
        | inl y ↦ rw y (record {
          most = λ p. omega (arith, only_market c s p e);
          there = inr (only_market c s sc.mark e);
        })
        | inr n ↦ rw n (record {
          most = λ p. elim v.attained [
            | inl z ↦
                omega (arith, only_market c s p e, one_sided c.matched base_demand base_supply n z)
            | inr a ↦ omega (arith, only_market c s p e, only_market c s c.clearing e, a)
          ];
          there = v.attained;
        })
      ]
  cleared c s (suc w) e =
      let v = s.stands in
      let next : s.w ≡ w + 1 = omega (arith, e) in
      elim (Bool-cases (c.matched == 0 && ltb 0 base_demand && ltb 0 base_supply)) [
        | inl y ↦ absurd (
            omega (
              arith,
              two_sided c.matched base_demand base_supply y,
              market_crossing 0,
              found c s w next 0,
            ))
        | inr n ↦ rw n (record { most = found c s w next; there = v.attained })
      ]

  -- The walk over the curves, from parked limits in order of price on a book whose two sides are, with
  -- prices of 16 bits and all demand and all supply below 2 ^ 32, where the total of the limit bids is
  -- theirs: no price crosses more shares than are matched, and at the clearing price as many cross, or
  -- none are matched.
  pub walk_curves_lem :
      (total_demand : ℕ)
      → IsSound
      → total_demand ≡ total bids bids.size
      → IsCleared (walk_curves sc base_demand base_supply total_demand)
  unfolding walk_curves
  walk_curves_lem total_demand ok e =
      let s =
        climbs (climb_fuel sc) (climb_start sc total_demand) 0 0 ok (starts total_demand ok e)
          (omega (arith, ok.boundary)) in
      cleared (climb (climb_fuel sc) sc base_demand base_supply (climb_start sc total_demand)) s s.w
        refl
