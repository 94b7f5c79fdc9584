-- ===== src/Store/Credits/Runs.antt =====
-- Any sequence of operations on credits, each with its own failures, keeps the ledger.
use cloistr_address.Base.{
  ℕ, ◌+◌, ◌-◌, ◌≡◌, String, Bool, true, false, Option, none, some, List, [], ◌∷◌, arith, all_rows,
  Bool-cases, Option-cases, inl, inr, same_refl, find_where,
}
use cloistr_address.Base.Rows.{all_rows_mono, all_rows-update_where}
use cloistr_address.Db.Tables.{Db, Credit, CreditWithdrawal}
use cloistr_address.Db.Exec.{
  World, commit, insufficient_credits, statement, transaction, finish, auto,
}
use cloistr_address.Db.Triple.{
  Triple, Triple-pure, Triple-raise, Triple-statement, Triple-bind, Triple-transaction, Committed,
}
use cloistr_address.Store.Credits.{
  lookup_balance, set_balance, balance, upsert_credits, deduct_balance, refund_balance,
  insert_history, insert_history_once, add_credits, add_invoice_credit_once, deduct_credits,
  insert_withdrawal, new_withdrawal, record_withdrawal, create_withdrawal_request,
  refund_failed_withdrawal, withdrawal_id, update_withdrawal_status, update_status,
}
use cloistr_address.Store.Credits.Balance.{lookup_balance-set_balance}
use cloistr_address.Store.Credits.Ledger.{
  IsBalanced, HasAccounts, has_account, add_credits-IsBalanced, add_invoice_credit_once-IsBalanced,
  deduct_credits-IsBalanced, create_withdrawal_request-IsBalanced,
  refund_failed_withdrawal-IsBalanced,
}

-- The calls that internal/api and the payout side make on the credit tables.
pub data CreditOp : Type 0 where
  add : String → ℕ → String → String → CreditOp
  add_once : String → ℕ → String → String → CreditOp
  deduct : String → ℕ → String → String → CreditOp
  withdraw : String → ℕ → String → CreditOp
  refund : ℕ → CreditOp
  set_status : ℕ → String → Option String → Option String → CreditOp

unfoldable pub perform : CreditOp → World → Db
perform (add p a r ref) w = (add_credits p a r ref w).1.db
perform (add_once p a r id) w = (add_invoice_credit_once p a r id w).1.db
perform (deduct p a r ref) w = (deduct_credits p a r ref w).1.db
perform (withdraw p a address) w = (create_withdrawal_request p a address w).1.db
perform (refund id) w = (refund_failed_withdrawal id w).1.db
perform (set_status id s hash error) w = (update_withdrawal_status id s hash error w).1.db

-- A call with the failures and the time that it meets.
pub record Call : Type 0 where
  pub op : CreditOp
  pub fault : ℕ → Bool
  pub now : ℕ

unfoldable pub run_calls : List Call → Db → Db
unfolding perform
run_calls [] db = db
run_calls (c ∷ cs) db =
    run_calls cs
      (perform c.op (record { db = db; fault = c.fault; now = c.now; tick = 0; aborted = false }))

pub record IsLedger (db : Db) : Type 0 where
  pub balanced : IsBalanced db
  pub accounts : HasAccounts db

-- A write of a balance takes no account away.
accounts_kept :
    (p : String) (b : ℕ) (cs : List Credit) (ws : List CreditWithdrawal)
    → all_rows (has_account cs) ws ≡ true
    → all_rows (has_account (set_balance p b cs)) ws ≡ true
unfolding has_account
accounts_kept p b cs ws h =
    all_rows_mono (has_account cs) (has_account (set_balance p b cs))
      (λ r e. ground (arith, lookup_balance-set_balance p r.pubkey b cs)) ws h

account_requested :
    (p : String) (b a : ℕ) (address : String) (now id : ℕ) (cs : List Credit)
    → lookup_balance p cs ≡ some b
    → has_account cs (new_withdrawal p a address now id) ≡ true
unfolding has_account new_withdrawal
account_requested p b a address now id cs e = rw (e, has_account)

-- The deduction found a row.
abbrev Paid : String → Option ℕ → Db → Type 0
Paid p none db = HasAccounts db
Paid p (some left) db = HasAccounts db × (b : ℕ) × (lookup_balance p db.credits ≡ some b)

deduct_missing :
    (p : String) (a : ℕ) (db : Db) (left : Option ℕ) (db' : Db)
    → HasAccounts db
    → lookup_balance p db.credits ≡ none
    → deduct_balance p a db ≡ (left, db')
    → Paid p left db'
unfolding deduct_balance
deduct_missing p a db none db' h missing e = ground arith
deduct_missing p a db (some left) db' h missing e = absurd (ground arith)

deduct_found :
    (p : String) (a b : ℕ) (db : Db) (left : Option ℕ) (db' : Db)
    → HasAccounts db
    → lookup_balance p db.credits ≡ some b
    → deduct_balance p a db ≡ (left, db')
    → Paid p left db'
unfolding deduct_balance
deduct_found p a b db none db' h found e = ground arith
deduct_found p a b db (some left) db' h found e = (
  ground (arith, accounts_kept p (b - a) db.credits db.withdrawals),
  b - a,
  ground (arith, lookup_balance-set_balance p p (b - a) db.credits, same_refl p),
)

deduct_balance-Paid :
    (p : String) (a : ℕ) (db : Db) (left : Option ℕ) (db' : Db)
    → HasAccounts db
    → deduct_balance p a db ≡ (left, db')
    → Paid p left db'
unfolding deduct_balance
deduct_balance-Paid p a db left db' h e = elim (Option-cases (lookup_balance p db.credits)) [
  | inl missing ↦ deduct_missing p a db left db' h missing e
  | inr (b, found) ↦ deduct_found p a b db left db' h found e
]

insert_withdrawal-HasAccounts :
    (p : String) (a : ℕ) (address : String) (now : ℕ) (db : Db) (request : CreditWithdrawal)
    (db' : Db) (left : ℕ)
    → Paid p (some left) db
    → insert_withdrawal p a address now db ≡ some (request, db')
    → HasAccounts db'
unfolding insert_withdrawal all_rows
insert_withdrawal-HasAccounts p a address now db request db' left h e =
    ground (arith, h.0, account_requested p h.1 a address now db.next_withdrawal_id db.credits h.2)

record_withdrawal-HasAccounts :
    (p : String) (a : ℕ) (address : String) (now : ℕ) (left : Option ℕ)
    → Triple (Paid p left) (record_withdrawal p a address now left) (Committed HasAccounts)
unfolding record_withdrawal insert_history
record_withdrawal-HasAccounts p a address now none =
    Triple-raise HasAccounts insufficient_credits (Committed HasAccounts)
record_withdrawal-HasAccounts p a address now (some left) =
    Triple-bind (Paid p (some left)) (λ _. HasAccounts) (Committed HasAccounts) _ _
      (Triple-statement (Paid p (some left)) (insert_withdrawal p a address now) (λ _. HasAccounts)
        (λ db request db' h e.
          insert_withdrawal-HasAccounts p a address now db request db' left h e))
      (λ request.
        Triple-bind HasAccounts (λ _. HasAccounts) (Committed HasAccounts) _ _
          (Triple-statement HasAccounts _ (λ _. HasAccounts) (λ db u db' h e. ground arith))
          (λ u. Triple-pure HasAccounts (commit request) (Committed HasAccounts) (λ db h. h)))

withdraw-HasAccounts :
    (p : String) (a : ℕ) (address : String) (w : World)
    → HasAccounts w.db
    → HasAccounts (create_withdrawal_request p a address w).1.db
unfolding create_withdrawal_request
withdraw-HasAccounts p a address w h = Triple-transaction HasAccounts _ w h (
    Triple-bind HasAccounts (Paid p) (Committed HasAccounts) _ (record_withdrawal p a address w.now)
      (Triple-statement HasAccounts _ (Paid p)
        (λ db left db' k e. deduct_balance-Paid p a db left db' k (cc e)))
      (record_withdrawal-HasAccounts p a address w.now))

status-HasAccounts :
    (id : ℕ) (s : String) (hash error : Option String) (w : World)
    → HasAccounts w.db
    → HasAccounts (update_withdrawal_status id s hash error w).1.db
unfolding update_withdrawal_status auto statement has_account update_status
status-HasAccounts id s hash error w h = ground (
  arith,
  all_rows-update_where (has_account w.db.credits) (withdrawal_id id)
      (update_status s hash error w.now)
      (λ r. elim (Bool-cases (withdrawal_id id r)) [ inl e ↦ rw e | inr e ↦ rw e ])
      w.db.withdrawals,
)

perform-HasAccounts : (op : CreditOp) (w : World) → HasAccounts w.db → HasAccounts (perform op w)
unfolding perform add_credits add_invoice_credit_once deduct_credits create_withdrawal_request
    refund_failed_withdrawal transaction finish statement upsert_credits deduct_balance
    refund_balance insert_history insert_history_once insert_withdrawal
perform-HasAccounts (add p a r ref) w h =
    ground (arith, accounts_kept p (balance p w.db.credits + a) w.db.credits w.db.withdrawals)
perform-HasAccounts (add_once p a r id) w h =
    ground (arith, accounts_kept p (balance p w.db.credits + a) w.db.credits w.db.withdrawals)
perform-HasAccounts (deduct p a r ref) w h = elim (Option-cases (lookup_balance p w.db.credits)) [
  | inl e ↦ ground arith
  | inr (b, e) ↦ ground (arith, accounts_kept p (b - a) w.db.credits w.db.withdrawals)
]
perform-HasAccounts (withdraw p a address) w h = withdraw-HasAccounts p a address w h
perform-HasAccounts (refund id) w h =
    elim (Option-cases (find_where (withdrawal_id id) w.db.withdrawals)) [
      | inl e ↦ ground arith
      | inr (request, e) ↦ elim (Option-cases (lookup_balance request.pubkey w.db.credits)) [
        | inl missing ↦ ground arith
        | inr (b, found) ↦ ground (
          arith,
          accounts_kept request.pubkey (b + request.amount_sats) w.db.credits w.db.withdrawals,
        )
      ]
    ]
perform-HasAccounts (set_status id s hash error) w h = status-HasAccounts id s hash error w h

-- What `update_withdrawal_status` leaves alone.
status-IsBalanced :
    (id : ℕ) (s : String) (hash error : Option String) (w : World)
    → IsBalanced w.db
    → IsBalanced (update_withdrawal_status id s hash error w).1.db
unfolding update_withdrawal_status auto statement
status-IsBalanced id s hash error w h k = ground (arith, h k)

-- One call, failing or not, keeps the ledger.
pub perform-IsLedger : (op : CreditOp) (w : World) → IsLedger w.db → IsLedger (perform op w)
unfolding perform
perform-IsLedger op w h = record {
  balanced = balanced op;
  accounts = perform-HasAccounts op w h.accounts;
}
  where
    balanced : (op : CreditOp) → IsBalanced (perform op w)
    balanced (add p a r ref) = add_credits-IsBalanced p a r ref w h.balanced
    balanced (add_once p a r id) = add_invoice_credit_once-IsBalanced p a r id w h.balanced
    balanced (deduct p a r ref) = deduct_credits-IsBalanced p a r ref w h.balanced
    balanced (withdraw p a address) = create_withdrawal_request-IsBalanced p a address w h.balanced
    balanced (refund id) = refund_failed_withdrawal-IsBalanced id w h.accounts h.balanced
    balanced (set_status id s hash error) = status-IsBalanced id s hash error w h.balanced

-- After any sequence of calls on the credit tables, whatever statements fail in them, the balance
-- of every pubkey is the sum of its rows in the history, and every withdrawal has an account.
pub run_calls-IsLedger : (calls : List Call) (db : Db) → IsLedger db → IsLedger (run_calls calls db)
unfolding run_calls
run_calls-IsLedger [] db h = h
run_calls-IsLedger (c ∷ cs) db h =
    run_calls-IsLedger cs
      (perform c.op (record { db = db; fault = c.fault; now = c.now; tick = 0; aborted = false }))
      (perform-IsLedger c.op
        (record { db = db; fault = c.fault; now = c.now; tick = 0; aborted = false }) h)
