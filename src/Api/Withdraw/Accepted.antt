-- ===== src/Api/Withdraw/Accepted.antt =====
-- What a withdrawal does to the balance (internal/api/purchase.go, internal/storage/postgres.go).
use cloistr_address.Base.{
  ℕ, ◌+◌, ◌-◌, ◌≤◌, ◌≡◌, ◌≢◌, refl, String, some, List, arith, same_refl, Option-cases, inl, inr,
}
use cloistr_address.Db.Tables.{Credit, CreditWithdrawal}
use cloistr_address.Db.Exec.{
  Error, insufficient_credits, Result, ok, err, World, statement, auto, transaction, finish,
  transaction_atomic,
}
use cloistr_address.Store.Credits.{
  balance, lookup_balance, deduct_balance, record_withdrawal, insert_withdrawal, insert_history,
  get_credits, create_withdrawal_request,
}
use cloistr_address.Store.Credits.Balance.{balance-set_balance}
use cloistr_address.Api.Http.{Reply, typed, status}
use cloistr_address.Api.Withdraw.{
  CreditWithdrawResponse, answer_withdrawal, withdraw_credits, min_withdrawal,
}

balance-some :
    (p : String) (b : ℕ) (cs : List Credit) → lookup_balance p cs ≡ some b → balance p cs ≡ b
unfolding balance
balance-some p b cs e = rw (e, balance)

create_withdrawal_request-balance :
    (pubkey : String) (amount : ℕ) (address : String) (w : World) (x : CreditWithdrawal)
    → (create_withdrawal_request pubkey amount address w).0 ≡ ok x
    → balance pubkey (create_withdrawal_request pubkey amount address w).1.db.credits + amount
      ≡ balance pubkey w.db.credits
unfolding create_withdrawal_request record_withdrawal transaction finish statement deduct_balance
    insert_withdrawal insert_history
create_withdrawal_request-balance pubkey amount address w x h =
    elim (Option-cases (lookup_balance pubkey w.db.credits)) [
      | inl e ↦ absurd (ground arith)
      | inr (b, e) ↦ ground (
        arith,
        same_refl pubkey,
        balance-some pubkey b w.db.credits e,
        balance-set_balance pubkey pubkey (b - amount) w.db.credits,
      )
    ]

get_credits-db : (pubkey : String) (w : World) → (get_credits pubkey w).1.db ≡ w.db
unfolding get_credits auto statement
get_credits-db pubkey w = ground arith

-- A withdrawal that is accepted takes at least 100 sats, no more than there are, and exactly its
-- amount from the balance.
pub withdraw_credits_accepted :
    (pubkey : String) (amount : ℕ) (address : String) (w : World) (r : CreditWithdrawResponse)
    → (withdraw_credits pubkey amount address w).0 ≡ ok (typed 202 r)
    → (100 ≤ amount)
      × (balance pubkey (withdraw_credits pubkey amount address w).1.db.credits + amount
          ≡ balance pubkey w.db.credits)
unfolding withdraw_credits answer_withdrawal min_withdrawal
withdraw_credits_accepted pubkey amount address w r h =
    go (create_withdrawal_request pubkey amount address w).0 refl
  where
    go :
        (o : Result CreditWithdrawal)
        → (create_withdrawal_request pubkey amount address w).0 ≡ o
        → (100 ≤ amount)
          × (balance pubkey (withdraw_credits pubkey amount address w).1.db.credits + amount
              ≡ balance pubkey w.db.credits)
    go (ok x) e = ground (arith, e, create_withdrawal_request-balance pubkey amount address w x e)
    go (err insufficient_credits) e = absurd (ground (arith, e))
    go (err x) e = absurd (ground (arith, e))

created_atomic :
    (pubkey : String) (amount : ℕ) (address : String) (w : World) (x : Error)
    → (create_withdrawal_request pubkey amount address w).0 ≡ err x
    → (create_withdrawal_request pubkey amount address w).1.db ≡ w.db
unfolding create_withdrawal_request
created_atomic pubkey amount address w x e = transaction_atomic _ w x e

-- A withdrawal with any other answer leaves the database as it is.
pub withdraw_credits_refused :
    (pubkey : String) (amount : ℕ) (address : String) (w : World) (r : Reply CreditWithdrawResponse)
    → (withdraw_credits pubkey amount address w).0 ≡ ok r
    → status r ≢ 202
    → (withdraw_credits pubkey amount address w).1.db ≡ w.db
unfolding withdraw_credits answer_withdrawal
withdraw_credits_refused pubkey amount address w r h n =
    go (create_withdrawal_request pubkey amount address w).0 refl
  where
    go :
        (o : Result CreditWithdrawal)
        → (create_withdrawal_request pubkey amount address w).0 ≡ o
        → (withdraw_credits pubkey amount address w).1.db ≡ w.db
    go (ok x) e = ground (arith, e, n)
    go (err x) e = ground (
      arith,
      e,
      created_atomic pubkey amount address w x e,
      get_credits-db pubkey (create_withdrawal_request pubkey amount address w).1,
    )
