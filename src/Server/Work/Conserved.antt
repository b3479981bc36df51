-- ===== src/Server/Work/Conserved.antt =====
-- src/server.c, `server_order`: the cash and the shares of all clients across one fill.
use tiltyard.Base.{
  ℕ, ◌+◌, ◌-◌, ◌≤◌, ◌<◌, ◌≡◌, refl, Bool, true, false, u64, ℤ, pos, ◌+ℤ◌, ◌-ℤ◌, arith, int_laws,
  if◌then◌else◌,
}
use tiltyard.Memory.{length-set}
use tiltyard.Server.State.{ClientSettings, Server, client, set_client, num_clients}
use tiltyard.Server.Money.{held_cash, held_shares, held_cash-set, held_shares-set}
use tiltyard.Server.Work.Trade.{settle_fill, taker_side, maker_side, taker_fee, maker_rebate}

-- A client's cash and shares moved by some amount.
record IsMoved (sc sc' : Server) (money stock : ℤ) : Type 0 where
  pub size : num_clients sc' ≡ num_clients sc
  pub cash : held_cash sc'.client_settings ≡ held_cash sc.client_settings +ℤ money
  pub shares : held_shares sc'.client_settings ≡ held_shares sc.client_settings +ℤ stock

moved :
    (sc : Server) (id : ℕ) (cs : ClientSettings) (cash shares : ℤ)
    → id < num_clients sc
    → cs.cash ≡ (client sc id).cash +ℤ cash
    → cs.shares ≡ (client sc id).shares +ℤ shares
    → IsMoved sc (set_client id cs sc) cash shares
moved sc id cs cash shares h e f = record {
  size = length-set sc.client_settings id cs;
  cash = grind (int_laws, held_cash-set sc.client_settings id cs h, e);
  shares = grind (int_laws, held_shares-set sc.client_settings id cs h, f);
}

taker_moves :
    (cs : ClientSettings) (buys : Bool) (q cost : ℕ)
    → ((taker_side cs buys q cost).cash ≡ cs.cash +ℤ (if buys then pos 0 -ℤ pos cost else pos cost))
      × ((taker_side cs buys q cost).shares ≡ cs.shares +ℤ (if buys then pos q else pos 0 -ℤ pos q))
unfolding taker_side
taker_moves cs true q cost = (grind int_laws, grind int_laws)
taker_moves cs false q cost = (grind int_laws, grind int_laws)

maker_moves :
    (cs : ClientSettings) (buys : Bool) (q cost : ℕ)
    → ((maker_side cs buys q cost).cash ≡ cs.cash +ℤ (if buys then pos cost else pos 0 -ℤ pos cost))
      × ((maker_side cs buys q cost).shares ≡ cs.shares +ℤ (if buys then pos 0 -ℤ pos q else pos q))
unfolding maker_side
maker_moves cs true q cost = (grind int_laws, grind int_laws)
maker_moves cs false q cost = (grind int_laws, grind int_laws)

fee_covers : (q : ℕ) → maker_rebate q ≤ taker_fee q
unfolding maker_rebate taker_fee
fee_covers q = omega arith

cancel :
    (b : Bool) (n : ℕ)
    → (if b then pos 0 -ℤ pos n else pos n) +ℤ (if b then pos n else pos 0 -ℤ pos n) ≡ pos 0
cancel true n = grind int_laws
cancel false n = grind int_laws

cancel' :
    (b : Bool) (n : ℕ)
    → (if b then pos n else pos 0 -ℤ pos n) +ℤ (if b then pos 0 -ℤ pos n else pos n) ≡ pos 0
cancel' true n = grind int_laws
cancel' false n = grind int_laws

sum_money :
    (c0 c1 c2 c3 c4 pay pay' : ℤ) (fee rebate x : ℕ)
    → c1 ≡ c0 +ℤ pay
    → c2 ≡ c1 +ℤ pay'
    → c3 ≡ c2 +ℤ (pos 0 -ℤ pos fee)
    → c4 ≡ c3 +ℤ pos rebate
    → pay +ℤ pay' ≡ pos 0
    → rebate ≤ fee
    → c4 +ℤ pos (x + (fee - rebate)) ≡ c0 +ℤ pos x
sum_money c0 c1 c2 c3 c4 pay pay' fee rebate x e1 e2 e3 e4 z h = grind int_laws

sum_stock :
    (c0 c1 c2 c3 c4 get get' : ℤ)
    → c1 ≡ c0 +ℤ get
    → c2 ≡ c1 +ℤ get'
    → c3 ≡ c2 +ℤ pos 0
    → c4 ≡ c3 +ℤ pos 0
    → get +ℤ get' ≡ pos 0
    → c4 ≡ c0
sum_stock c0 c1 c2 c3 c4 get get' e1 e2 e3 e4 z = grind int_laws

-- Neither money nor shares are made or lost by a fill, and the exchange keeps what the fee is more than
-- the rebate.
pub record IsSettled (q : ℕ) (sc sc' : Server) : Type 0 where
  pub money :
      held_cash sc'.client_settings +ℤ pos sc'.exchange_cash
      ≡ held_cash sc.client_settings +ℤ pos sc.exchange_cash
  pub stock : held_shares sc'.client_settings ≡ held_shares sc.client_settings
  pub banked : sc'.exchange_cash ≡ sc.exchange_cash + (taker_fee q - maker_rebate q)

-- The settlement of a fill between two clients, or of a client with itself, while the exchange has room
-- for the fee: the clients and the exchange together have the money and the shares that they had, and
-- the exchange has kept the difference of fee and rebate.
pub settle_fill_lem :
    (taker maker : ℕ) (buys : Bool) (q cost : ℕ) (sc : Server)
    → taker < num_clients sc
    → maker < num_clients sc
    → sc.exchange_cash + taker_fee q < 18446744073709551616
    → IsSettled q sc (settle_fill taker maker buys q cost sc)
unfolding settle_fill
settle_fill_lem taker maker buys q cost sc t m room =
    let pay = if buys then pos 0 -ℤ pos cost else pos cost in
    let get = if buys then pos q else pos 0 -ℤ pos q in
    let pay' = if buys then pos cost else pos 0 -ℤ pos cost in
    let get' = if buys then pos 0 -ℤ pos q else pos q in
    let fee = pos 0 -ℤ pos (taker_fee q) in
    let side = taker_moves (client sc taker) buys q cost in
    let m1 = moved sc taker (taker_side (client sc taker) buys q cost) pay get t side.0 side.1 in
    let sc1 = set_client taker (taker_side (client sc taker) buys q cost) sc in
    let side' = maker_moves (client sc1 maker) buys q cost in
    let sc2 = set_client maker (maker_side (client sc1 maker) buys q cost) sc1 in
    let m2 =
      moved sc1 maker (maker_side (client sc1 maker) buys q cost) pay' get' (omega (arith, m1.size))
        side'.0 side'.1 in
    let cs = client sc2 taker in
    let charged = record cs { cash = cs.cash -ℤ pos (taker_fee q) } in
    let m3 =
      moved sc2 taker charged fee (pos 0) (omega (arith, m1.size, m2.size)) (grind int_laws)
        (grind int_laws) in
    let sc3 = set_client taker charged sc2 in
    let mcs = client sc3 maker in
    let m4 =
      moved sc3 maker (record mcs { cash = mcs.cash +ℤ pos (maker_rebate q) })
        (pos (maker_rebate q)) (pos 0) (omega (arith, m1.size, m2.size, m3.size)) refl
        (grind int_laws) in
    let banked : u64 (sc.exchange_cash + (taker_fee q - maker_rebate q))
        ≡ sc.exchange_cash + (taker_fee q - maker_rebate q) =
      omega arith in
    record {
      money = rw banked (
          sum_money _ _ _ _ _ pay pay' (taker_fee q) (maker_rebate q) sc.exchange_cash m1.cash
            m2.cash m3.cash m4.cash (cancel buys cost) (fee_covers q));
      stock = sum_stock _ _ _ _ _ get get' m1.shares m2.shares m3.shares m4.shares (cancel' buys q);
      banked = banked;
    }
