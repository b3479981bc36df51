-- ===== src/Server/Billing.antt =====
-- src/server.c, `server_eom` and `server_eod`: the monthly bill for market data, and a day's interest on
-- the shorts.
pub mod Conserved
use tiltyard.Base.{
  ℕ, ◌+◌, ◌*◌, ◌/◌, Bool, List, [], ◌∷◌, get_or, u64, ltb, if◌then◌else◌, pos, neg_part, ◌-ℤ◌,
  ltb_ℤ,
}
use tiltyard.Server.State.{ClientSettings, Server}

-- `DATA_FEE_BY_TIER`
abbrev pub data_fee_by_tier : List ℕ
data_fee_by_tier = 8400 ∷ 5000 ∷ 3000 ∷ 1500 ∷ 1500 ∷ 199 ∷ 120 ∷ 60 ∷ 29 ∷ 0 ∷ 0 ∷ []

-- `NOII_FEE_MONTHLY`
abbrev pub noii_fee_monthly : ℕ
noii_fee_monthly = 500

-- The monthly fee of a client.
unfoldable pub monthly_fee : ClientSettings → ℕ
monthly_fee cs = get_or data_fee_by_tier cs.sub_tier 0 + (if cs.noii then noii_fee_monthly else 0)

-- `SHORT_BORROW_ANNUAL_BPS`, and `BPS_DIVISOR * BORROW_DAY_BASIS`
abbrev pub short_borrow_annual_bps : ℕ
short_borrow_annual_bps = 300

abbrev pub borrow_divisor : ℕ
borrow_divisor = 3600000

-- The interest of a day on a short, at the mark.
unfoldable pub daily_borrow : ℕ → ClientSettings → ℕ
daily_borrow mark cs =
    if ltb_ℤ cs.shares (pos 0)
    then u64 (u64 (mark * neg_part cs.shares) * short_borrow_annual_bps) / borrow_divisor
    else 0

-- The loop over the clients: each pays its charge, and the exchange banks it.
unfoldable pub charge : (ClientSettings → ℕ) → List ClientSettings → ℕ → List ClientSettings × ℕ
charge fee [] exchange_cash = ([], exchange_cash)
charge fee (cs ∷ rest) exchange_cash =
    let charged = charge fee rest (u64 (exchange_cash + fee cs)) in
    (record cs { cash = cs.cash -ℤ pos (fee cs) } ∷ charged.0, charged.1)

-- `server_eom`
unfoldable pub server_eom : Server → Server
unfolding monthly_fee charge
server_eom sc =
    let charged = charge monthly_fee sc.client_settings sc.exchange_cash in
    record sc { client_settings = charged.0; exchange_cash = charged.1 }

-- `server_eod`: a client that is not short is passed over.
unfoldable pub server_eod : Server → Server
unfolding daily_borrow charge
server_eod sc =
    let charged = charge (daily_borrow sc.mark) sc.client_settings sc.exchange_cash in
    record sc { client_settings = charged.0; exchange_cash = charged.1 }
