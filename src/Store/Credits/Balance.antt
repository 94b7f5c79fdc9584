-- ===== src/Store/Credits/Balance.antt =====
-- Balances and history totals under the statements of `Store.Credits`.
use cloistr_address.Base.{
  ℕ, ◌≡◌, refl, String, some, List, [], ◌∷◌, arith, if◌then◌else◌, same, same_refl, eq_of_same,
  same_ne,
}
use cloistr_address.Base.Signed.{ℤ, pos, ◌+ℤ◌}
use cloistr_address.Db.Tables.{Credit, HistoryEntry}
use cloistr_address.Store.Credits.{lookup_balance, set_balance, balance}

-- What `credit_history` says a pubkey holds.
abbrev pub history_total : String → List HistoryEntry → ℤ
history_total k [] = pos 0
history_total k (e ∷ es) =
    if same e.pubkey k then e.amount_sats +ℤ history_total k es else history_total k es

pub lookup_balance-set_balance :
    (k j : String) (b : ℕ) (cs : List Credit)
    → lookup_balance j (set_balance k b cs) ≡ (if same k j then some b else lookup_balance j cs)
unfolding lookup_balance set_balance
lookup_balance-set_balance k j b [] = refl
lookup_balance-set_balance k j b (c ∷ cs) = ground (
  arith,
  eq_of_same c.pubkey k,
  eq_of_same c.pubkey j,
  same_ne c.pubkey j,
  same_ne k j,
  eq_of_same k j,
  same_refl j,
  lookup_balance-set_balance k j b cs,
)

pub balance-set_balance :
    (k j : String) (b : ℕ) (cs : List Credit)
    → balance j (set_balance k b cs) ≡ (if same k j then b else balance j cs)
unfolding balance
balance-set_balance k j b cs = ground (arith, lookup_balance-set_balance k j b cs)
