-- ===== src/Store/Credits/Ledger.antt =====
-- The balance of a pubkey is the sum of its history, after every operation on credits and wherever
-- a statement fails.
use cloistr_address.Base.{
  ℕ, ◌+◌, ◌-◌, ◌≤◌, ◌≡◌, String, Bool, true, false, none, some, List, ◌∷◌, arith, inl, inr,
  Option-cases, find_where, all_rows, eq_of_same,
}
use cloistr_address.Base.Signed.{pos, ◌+ℤ◌}
use cloistr_address.Base.Rows.{all_rows_find}
use cloistr_address.Db.Tables.{
  Db, Credit, HistoryEntry, CreditWithdrawal, Reference, text, withdrawal,
}
use cloistr_address.Db.Exec.{World, statement, transaction, finish}
use cloistr_address.Store.Credits.{
  lookup_balance, set_balance, balance, upsert_credits, deduct_balance, refund_balance, entry,
  debit, insert_history, insert_history_once, add_credits, add_invoice_credit_once, deduct_credits,
  insert_withdrawal, new_withdrawal, create_withdrawal_request, refund_failed_withdrawal,
  withdrawal_id,
}
use cloistr_address.Store.Credits.Balance.{history_total, balance-set_balance}

abbrev pub IsBalanced : Db → Type 0
IsBalanced db = (k : String) → pos (balance k db.credits) ≡ history_total k db.history

-- One credit: the balance and the history move by the same amount.
credit_pair :
    (p k r : String) (ref : Reference) (a : ℕ) (cs : List Credit) (es : List HistoryEntry)
    → pos (balance k cs) ≡ history_total k es
    → pos (balance k (set_balance p (balance p cs + a) cs))
      ≡ history_total k (entry p (pos a) r ref ∷ es)
unfolding ◌+ℤ◌
credit_pair p k r ref a cs es h =
    ground (arith, balance-set_balance p k (balance p cs + a) cs, eq_of_same p k)

debit_pair :
    (p k r : String) (ref : Reference) (a : ℕ) (cs : List Credit) (es : List HistoryEntry)
    → a ≤ balance p cs
    → pos (balance k cs) ≡ history_total k es
    → pos (balance k (set_balance p (balance p cs - a) cs))
      ≡ history_total k (entry p (debit a) r ref ∷ es)
unfolding ◌+ℤ◌
debit_pair p k r ref a cs es le h =
    ground (arith, balance-set_balance p k (balance p cs - a) cs, eq_of_same p k)

pub add_credits-IsBalanced :
    (p : String) (a : ℕ) (r ref : String) (w : World)
    → IsBalanced w.db
    → IsBalanced (add_credits p a r ref w).1.db
unfolding add_credits transaction finish statement upsert_credits insert_history
add_credits-IsBalanced p a r ref w h k =
    ground (arith, h k, credit_pair p k r (text ref) a w.db.credits w.db.history)

pub add_invoice_credit_once-IsBalanced :
    (p : String) (a : ℕ) (r id : String) (w : World)
    → IsBalanced w.db
    → IsBalanced (add_invoice_credit_once p a r id w).1.db
unfolding add_invoice_credit_once transaction finish statement upsert_credits insert_history_once
add_invoice_credit_once-IsBalanced p a r id w h k =
    ground (arith, h k, credit_pair p k r (text id) a w.db.credits w.db.history)

balance-some :
    (p : String) (b : ℕ) (cs : List Credit) → lookup_balance p cs ≡ some b → balance p cs ≡ b
unfolding balance
balance-some p b cs e = rw (e, balance)

-- The deduction of a statement that found enough, with the balance that it found.
debit_found :
    (p k r : String) (ref : Reference) (a b : ℕ) (cs : List Credit) (es : List HistoryEntry)
    → lookup_balance p cs ≡ some b
    → a ≤ b
    → pos (balance k cs) ≡ history_total k es
    → pos (balance k (set_balance p (b - a) cs)) ≡ history_total k (entry p (debit a) r ref ∷ es)
debit_found p k r ref a b cs es e le h =
    rw (← balance-some p b cs e) (debit_pair p k r ref a cs es (rw (balance-some p b cs e) le) h)

pub deduct_credits-IsBalanced :
    (p : String) (a : ℕ) (r ref : String) (w : World)
    → IsBalanced w.db
    → IsBalanced (deduct_credits p a r ref w).1.db
unfolding deduct_credits transaction finish statement deduct_balance insert_history
deduct_credits-IsBalanced p a r ref w h k = elim (Option-cases (lookup_balance p w.db.credits)) [
  | inl e ↦ ground (arith, h k)
  | inr (b, e) ↦ ground (arith, h k, debit_found p k r (text ref) a b w.db.credits w.db.history)
]

-- Of a withdrawal, the entry that it leaves in the history has its own reference.
pub create_withdrawal_request-IsBalanced :
    (p : String) (a : ℕ) (address : String) (w : World)
    → IsBalanced w.db
    → IsBalanced (create_withdrawal_request p a address w).1.db
unfolding create_withdrawal_request transaction finish statement deduct_balance insert_withdrawal
    insert_history
create_withdrawal_request-IsBalanced p a address w h k =
    elim (Option-cases (lookup_balance p w.db.credits)) [
      | inl e ↦ ground (arith, h k)
      | inr (b, e) ↦ ground (
        arith,
        h k,
        debit_found p k "withdrawal_request"
            (withdrawal (new_withdrawal p a address w.now w.db.next_withdrawal_id).id) a b
            w.db.credits w.db.history,
      )
    ]

-- The pubkey has a row in `pubkey_credits`.
unfoldable pub has_account : List Credit → CreditWithdrawal → Bool
has_account cs request = elim (lookup_balance request.pubkey cs) [ none ↦ false | some _ ↦ true ]

-- Every withdrawal was paid for out of a row of `pubkey_credits`, so a refund finds the row.
abbrev pub HasAccounts : Db → Type 0
HasAccounts db = all_rows (has_account db.credits) db.withdrawals ≡ true

account_found :
    (cs : List Credit) (request : CreditWithdrawal)
    → has_account cs request ≡ true
    → (b : ℕ) × (lookup_balance request.pubkey cs ≡ some b)
unfolding has_account
account_found cs request h = ground arith

credit_found :
    (p k r : String) (ref : Reference) (a b : ℕ) (cs : List Credit) (es : List HistoryEntry)
    → lookup_balance p cs ≡ some b
    → pos (balance k cs) ≡ history_total k es
    → pos (balance k (set_balance p (b + a) cs)) ≡ history_total k (entry p (pos a) r ref ∷ es)
credit_found p k r ref a b cs es e h =
    rw (← balance-some p b cs e) (credit_pair p k r ref a cs es h)

pub refund_failed_withdrawal-IsBalanced :
    (id : ℕ) (w : World)
    → HasAccounts w.db
    → IsBalanced w.db
    → IsBalanced (refund_failed_withdrawal id w).1.db
unfolding refund_failed_withdrawal transaction finish statement refund_balance insert_history
refund_failed_withdrawal-IsBalanced id w acc h k =
    elim (Option-cases (find_where (withdrawal_id id) w.db.withdrawals)) [
      | inl e ↦ ground (arith, h k)
      | inr (request, e) ↦
          let (b, eb) = account_found w.db.credits request (
            all_rows_find (has_account w.db.credits) (withdrawal_id id) w.db.withdrawals request acc
              e) in
          ground (
            arith,
            h k,
            credit_found request.pubkey k "withdrawal_refund" (withdrawal id) request.amount_sats b
                w.db.credits w.db.history,
          )
    ]
