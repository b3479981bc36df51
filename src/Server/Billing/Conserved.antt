-- ===== src/Server/Billing/Conserved.antt =====
-- src/server.c, `server_eom` and `server_eod`: the money of the clients and of the exchange together.
use tiltyard.Base.{
  ℕ, zero, suc, ◌+◌, ◌*◌, ◌≤◌, ◌<◌, ◌≡◌, refl, List, [], ◌∷◌, length, get_or, u64, pos, ◌+ℤ◌, All,
  arith, int_laws,
}
use tiltyard.Server.State.{ClientSettings, Server, num_clients}
use tiltyard.Server.Money.{held_cash}
use tiltyard.Server.Billing.{
  data_fee_by_tier, monthly_fee, daily_borrow, charge, server_eom, server_eod,
}

-- What all clients are charged together.
abbrev pub total_fee : (ClientSettings → ℕ) → List ClientSettings → ℕ
total_fee fee [] = 0
total_fee fee (cs ∷ rest) = fee cs + total_fee fee rest

charge_lem :
    (fee : ClientSettings → ℕ) (all : List ClientSettings) (exchange_cash : ℕ)
    → exchange_cash + total_fee fee all < 18446744073709551616
    → (held_cash (charge fee all exchange_cash).0 +ℤ pos (charge fee all exchange_cash).1
        ≡ held_cash all +ℤ pos exchange_cash)
      × ((charge fee all exchange_cash).1 ≡ exchange_cash + total_fee fee all)
unfolding charge
charge_lem fee [] exchange_cash h = (refl, omega arith)
charge_lem fee (cs ∷ all) exchange_cash h =
    let e : u64 (exchange_cash + fee cs) ≡ exchange_cash + fee cs = omega arith in
    let (held, banked) = charge_lem fee all (exchange_cash + fee cs) (omega arith) in
    rw e (grind (int_laws, held), ground (arith, banked))

-- No money is made or lost, and the exchange has what the clients were charged.
pub record IsBilled (fee : ClientSettings → ℕ) (sc sc' : Server) : Type 0 where
  pub conserved :
      held_cash sc'.client_settings +ℤ pos sc'.exchange_cash
      ≡ held_cash sc.client_settings +ℤ pos sc.exchange_cash
  pub banked : sc'.exchange_cash ≡ sc.exchange_cash + total_fee fee sc.client_settings

bounded : (fees : List ℕ) (i top : ℕ) → All (λ (f : ℕ). f ≤ top) fees → get_or fees i 0 ≤ top
bounded [] i top h = omega arith
bounded (f ∷ fees) zero top h = h.0
bounded (f ∷ fees) (suc i) top h = bounded fees i top h.1

-- The dearest subscription and the add-on.
monthly_bound : (cs : ClientSettings) → monthly_fee cs ≤ 8900
unfolding monthly_fee
monthly_bound cs = ground (arith, bounded data_fee_by_tier cs.sub_tier 8400 (omega arith))

total_bound : (all : List ClientSettings) → total_fee monthly_fee all ≤ 8900 * length all
total_bound [] = omega arith
total_bound (cs ∷ all) = omega (arith, monthly_bound cs, total_bound all)

-- `server_eom`, while the exchange has room for 8900 more from each client: the clients and the exchange
-- together have the money that they had, and the exchange has all that was charged. So does `server_eod`,
-- while the exchange has room for the day's interest.
pub billing_lem :
    (sc : Server)
    → sc.exchange_cash + 8900 * num_clients sc < 18446744073709551616
    → sc.exchange_cash + total_fee (daily_borrow sc.mark) sc.client_settings < 18446744073709551616
    → IsBilled monthly_fee sc (server_eom sc) × IsBilled (daily_borrow sc.mark) sc (server_eod sc)
unfolding server_eom server_eod
billing_lem sc room room' =
    let all = sc.client_settings in
    let month = charge_lem monthly_fee all sc.exchange_cash (omega (arith, total_bound all)) in
    let day = charge_lem (daily_borrow sc.mark) all sc.exchange_cash room' in
    (record { conserved = month.0; banked = month.1 }, record { conserved = day.0; banked = day.1 })
