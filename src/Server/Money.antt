-- ===== src/Server/Money.antt =====
-- src/server.c: what the clients hold together, in cash and in shares.
use tiltyard.Base.{
  ℕ, zero, suc, ◌<◌, ◌≡◌, List, [], ◌∷◌, length, get_or, ℤ, pos, ◌+ℤ◌, arith, int_laws,
}
use tiltyard.Memory.{set}
use tiltyard.Server.State.{ClientSettings, no_client}

abbrev pub held_cash : List ClientSettings → ℤ
held_cash [] = pos 0
held_cash (cs ∷ rest) = cs.cash +ℤ held_cash rest

abbrev pub held_shares : List ClientSettings → ℤ
held_shares [] = pos 0
held_shares (cs ∷ rest) = cs.shares +ℤ held_shares rest

-- One client's settings replaced.
pub held_cash-set :
    (all : List ClientSettings) (id : ℕ) (cs : ClientSettings)
    → id < length all
    → held_cash (set all id cs) +ℤ (get_or all id no_client).cash ≡ held_cash all +ℤ cs.cash
held_cash-set [] id cs h = absurd (omega arith)
held_cash-set (c ∷ all) zero cs h = grind int_laws
held_cash-set (c ∷ all) (suc id) cs h = grind (int_laws, held_cash-set all id cs (omega arith))

pub held_shares-set :
    (all : List ClientSettings) (id : ℕ) (cs : ClientSettings)
    → id < length all
    → held_shares (set all id cs) +ℤ (get_or all id no_client).shares ≡ held_shares all +ℤ cs.shares
held_shares-set [] id cs h = absurd (omega arith)
held_shares-set (c ∷ all) zero cs h = grind int_laws
held_shares-set (c ∷ all) (suc id) cs h = grind (int_laws, held_shares-set all id cs (omega arith))
