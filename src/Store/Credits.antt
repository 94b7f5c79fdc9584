-- ===== src/Store/Credits.antt =====
-- Prepaid credits (internal/storage/postgres.go): `pubkey_credits`, `credit_history` and
-- `credit_withdrawals`. A pubkey of `pubkey_credits` has 64 hexadecimal digits, `balance_sats` is a BIGINT that may not be negative, and
-- `credit_history.amount_sats` is an INTEGER: a statement past either range is refused.
pub mod Balance
pub mod Ledger
pub mod Runs
pub mod Once
use cloistr_address.Base.{
  ℕ, ◌+◌, ◌-◌, ◌*◌, ◌^◌, ◌≤◌, ◌≡◌, refl, String, Bool, true, false, ◌&&◌, ◌||◌, Option, none, some,
  List, [], ◌∷◌, map, arith, ltb, leb, ◌==◌, if◌then◌else◌, same, exists_where, find_where,
  update_where, select_where, all_rows, length,
}
use cloistr_address.Base.Signed.{ℤ, pos, negsuc, pos_part, neg_part, sub_ℕ}
use cloistr_address.Base.Texts.{codes}
use cloistr_address.Db.Tables.{
  Db, Credit, HistoryEntry, CreditWithdrawal, Reference, text, withdrawal,
}
use cloistr_address.Db.Exec.{
  Error, database, insufficient_credits, message, Result, ok, err, World, Exec, pure, raise, ◌>>=◌,
  ◌>>◌, statement, select, exec, exec_checked, auto, Verdict, commit, rollback, transaction,
}

unfoldable pub max_bigint : ℕ
max_bigint = 2 ^ 63 - 1

unfoldable pub max_integer : ℕ
max_integer = 2 ^ 31 - 1

unfoldable pub fits_integer : ℤ → Bool
unfolding max_integer
fits_integer a = leb (pos_part a) max_integer && leb (neg_part a) (max_integer + 1)

-- The rows of `pubkey_credits` by their primary key.
unfoldable pub lookup_balance : String → List Credit → Option ℕ
lookup_balance k [] = none
lookup_balance k (c ∷ cs) = if same c.pubkey k then some c.balance_sats else lookup_balance k cs

unfoldable pub set_balance : String → ℕ → List Credit → List Credit
set_balance k b [] = record { pubkey = k; balance_sats = b } ∷ []
set_balance k b (c ∷ cs) =
    if same c.pubkey k then record { pubkey = k; balance_sats = b } ∷ cs else c ∷ set_balance k b cs

unfoldable pub balance : String → List Credit → ℕ
balance k cs = elim (lookup_balance k cs) [ none ↦ 0 | some b ↦ b ]

unfoldable pub is_lower_hex : ℕ → Bool
is_lower_hex c = leb b'0' c && leb c b'9' || leb b'a' c && leb c b'f'

-- pubkey_format CHECK (pubkey ~ '^[a-f0-9]{64}$')
unfoldable pub pubkey_format : String → Bool
pubkey_format k = length (codes k) == 64 && all_rows is_lower_hex (codes k)

-- INSERT INTO pubkey_credits ... ON CONFLICT (pubkey) DO UPDATE SET balance_sats = ... + $2
unfoldable pub upsert_credits : String → ℕ → Db → Option Db
unfolding balance
upsert_credits k amount db =
    let b = balance k db.credits + amount in
    if pubkey_format k && leb b max_bigint
    then some (record db { credits = set_balance k b db.credits })
    else none

-- UPDATE pubkey_credits SET balance_sats = balance_sats - $2
-- WHERE pubkey = $1 AND balance_sats >= $2 RETURNING balance_sats
unfoldable pub deduct_balance : String → ℕ → Db → Option ℕ × Db
deduct_balance k amount db = elim (lookup_balance k db.credits) [
  | none ↦ (none, db)
  | some b ↦
      if leb amount b
      then (some (b - amount), record db { credits = set_balance k (b - amount) db.credits })
      else (none, db)
]

-- UPDATE pubkey_credits SET balance_sats = balance_sats + $2 WHERE pubkey = $1
unfoldable pub refund_balance : String → ℕ → Db → Option Db
refund_balance k amount db = elim (lookup_balance k db.credits) [
  | none ↦ some db
  | some b ↦
      if leb (b + amount) max_bigint
      then some (record db { credits = set_balance k (b + amount) db.credits })
      else none
]

unfoldable pub credit_reason_race_loss : String
credit_reason_race_loss = "race_loss"

unfoldable pub credit_reason_registration_error : String
credit_reason_registration_error = "registration_error"

-- The partial index credit_history_invoice_credit_once covers the rows with these reasons.
unfoldable pub is_invoice_credit : String → Bool
is_invoice_credit reason =
    same reason credit_reason_race_loss || same reason credit_reason_registration_error

unfoldable pub same_reference : Reference → Reference → Bool
same_reference (text s) (text t) = same s t
same_reference (withdrawal m) (withdrawal n) = m == n
same_reference _ _ = false

-- An invoice credit for this reference.
unfoldable pub credits_invoice : Reference → HistoryEntry → Bool
credits_invoice r e = is_invoice_credit e.reason && same_reference e.reference_id r

unfoldable pub breaks_once : HistoryEntry → Db → Bool
breaks_once e db =
    is_invoice_credit e.reason && exists_where (credits_invoice e.reference_id) db.history

-- INSERT INTO credit_history
unfoldable pub insert_history : HistoryEntry → Db → Option Db
unfolding breaks_once
insert_history e db =
    if fits_integer e.amount_sats && (if breaks_once e db then false else true)
    then some (record db { history = e ∷ db.history })
    else none

-- INSERT INTO credit_history ... ON CONFLICT ... DO NOTHING, with the number of rows as a Bool.
unfoldable pub insert_history_once : HistoryEntry → Db → Option (Bool × Db)
unfolding breaks_once
insert_history_once e db =
    if fits_integer e.amount_sats
    then if breaks_once e db
      then some (false, db)
      else some (true, record db { history = e ∷ db.history })
    else none

abbrev pub entry : String → ℤ → String → Reference → HistoryEntry
entry pubkey amount reason reference = record {
  pubkey = pubkey;
  amount_sats = amount;
  reason = reason;
  reference_id = reference;
}

abbrev pub debit : ℕ → ℤ
debit n = sub_ℕ 0 n

-- `Storage.GetCredits`
unfoldable pub get_credits : String → Exec ℕ
get_credits pubkey = auto (select λ db. balance pubkey db.credits)

-- `Storage.AddCredits`
unfoldable pub add_credits : String → ℕ → String → String → Exec (Unit {0})
add_credits pubkey amount reason reference = transaction do
  exec_checked (upsert_credits pubkey amount)
  exec_checked (insert_history (entry pubkey (pos amount) reason (text reference)))
  pure (commit tt)

-- `Storage.AddInvoiceCreditOnce`
unfoldable pub add_invoice_credit_once : String → ℕ → String → String → Exec Bool
add_invoice_credit_once pubkey amount reason invoice_id =
    if same invoice_id ""
    then raise (message "invoice credit needs an invoice id")
    else transaction do
      inserted ←
          statement (insert_history_once (entry pubkey (pos amount) reason (text invoice_id)))
      elim inserted [
        | true ↦ exec_checked (upsert_credits pubkey amount) >> pure (commit true)
        | false ↦ pure (rollback false)
      ]

-- `Storage.DeductCredits`
unfoldable pub deduct_credits : String → ℕ → String → String → Exec (Unit {0})
deduct_credits pubkey amount reason reference =
    if amount == 0
    then pure tt
    else transaction do
      left ← statement λ db. some (deduct_balance pubkey amount db)
      elim left [
        | none ↦ raise insufficient_credits
        | some _ ↦ do
          exec_checked (insert_history (entry pubkey (debit amount) reason (text reference)))
          pure (commit tt)
      ]

-- The row of a request; the columns left out take their defaults.
unfoldable pub new_withdrawal : String → ℕ → String → ℕ → ℕ → CreditWithdrawal
new_withdrawal pubkey amount address now id = record {
  id = id;
  pubkey = pubkey;
  amount_sats = amount;
  lightning_address = address;
  status = "pending";
  payment_hash = none;
  error_message = none;
  created_at = now;
  completed_at = none;
}

-- INSERT INTO credit_withdrawals ... RETURNING; amount_positive CHECK (amount_sats > 0)
unfoldable pub insert_withdrawal : String → ℕ → String → ℕ → Db → Option (CreditWithdrawal × Db)
insert_withdrawal pubkey amount address now db =
    let request = new_withdrawal pubkey amount address now db.next_withdrawal_id in
    if ltb 0 amount
    then some (
      request,
      record db {
        withdrawals = request ∷ db.withdrawals;
        next_withdrawal_id = db.next_withdrawal_id + 1;
      },
    )
    else none

-- What `CreateWithdrawalRequest` does with the new balance, if the deduction found one.
unfoldable pub record_withdrawal :
    String → ℕ → String → ℕ → Option ℕ → Exec (Verdict CreditWithdrawal)
record_withdrawal pubkey amount address now none = raise insufficient_credits
record_withdrawal pubkey amount address now (some left) = do
  request ← statement (insert_withdrawal pubkey amount address now)
  exec_checked
      (insert_history (entry pubkey (debit amount) "withdrawal_request" (withdrawal request.id)))
  pure (commit request)

-- `Storage.CreateWithdrawalRequest`
unfoldable pub create_withdrawal_request : String → ℕ → String → Exec CreditWithdrawal
unfolding record_withdrawal
create_withdrawal_request pubkey amount address w =
    transaction
      (do
        left ← statement λ db. some (deduct_balance pubkey amount db)
        record_withdrawal pubkey amount address w.now left)
      w

unfoldable pub withdrawal_id : ℕ → CreditWithdrawal → Bool
withdrawal_id id w = w.id == id

-- `Storage.RefundFailedWithdrawal`
unfoldable pub refund_failed_withdrawal : ℕ → Exec (Unit {0})
refund_failed_withdrawal id = transaction do
  found ← select λ db. find_where (withdrawal_id id) db.withdrawals
  elim found [
    | none ↦ raise (message "failed to get withdrawal")
    | some request ↦ do
      exec_checked (refund_balance request.pubkey request.amount_sats)
      exec_checked (
          insert_history
            (entry request.pubkey (pos request.amount_sats) "withdrawal_refund" (withdrawal id)))
      pure (commit tt)
  ]

-- status_check CHECK (status IN (...))
unfoldable pub is_status : String → Bool
is_status s = same s "pending" || same s "processing" || same s "completed" || same s "failed"

abbrev coalesce {ℓ} : {A : Type ℓ} → Option A → Option A → Option A
coalesce none old = old
coalesce (some a) old = some a

unfoldable pub update_status :
    String → Option String → Option String → ℕ → CreditWithdrawal → CreditWithdrawal
update_status status hash error now w = record w {
  status = status;
  payment_hash = coalesce hash w.payment_hash;
  error_message = coalesce error w.error_message;
  completed_at =
      coalesce (if same status "completed" || same status "failed" then some now else none)
        w.completed_at;
}

-- `Storage.UpdateWithdrawalStatus`
unfoldable pub update_withdrawal_status :
    ℕ → String → Option String → Option String → Exec (Unit {0})
update_withdrawal_status id status hash error w =
    auto
      (exec_checked λ db.
        if is_status status
          || (if exists_where (withdrawal_id id) db.withdrawals then false else true)
        then some (record db {
          withdrawals =
              update_where (withdrawal_id id) (update_status status hash error w.now)
                db.withdrawals;
        })
        else none)
      w

-- `Storage.GetPendingWithdrawals`, oldest first: rows are kept newest first.
unfoldable pub get_pending_withdrawals : Exec (List CreditWithdrawal)
get_pending_withdrawals =
    auto (select λ db. reverse_rows (select_where (λ w. same w.status "pending") db.withdrawals) [])
  where
    reverse_rows : List CreditWithdrawal → List CreditWithdrawal → List CreditWithdrawal
    reverse_rows [] acc = acc
    reverse_rows (x ∷ xs) acc = reverse_rows xs (x ∷ acc)
