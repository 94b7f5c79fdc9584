-- ===== src/Api/Withdraw.antt =====
-- The balance and its withdrawal (internal/api/purchase.go).
pub mod Accepted
use cloistr_address.Base.{
  ℕ, ◌-◌, String, Bool, true, false, not, ◌&&◌, ◌||◌, Option, none, some, List, [], ◌∷◌, ltb, leb,
  ◌==◌, if◌then◌else◌, same, length, find_where,
}
use cloistr_address.Base.Texts.{codes, split_on, contains, bytes_of}
use cloistr_address.Db.Tables.{Address, CreditWithdrawal}
use cloistr_address.Db.Exec.{
  Error, insufficient_credits, Result, ok, err, Exec, pure, raise, ◌>>=◌, ◌>>◌, try,
}
use cloistr_address.Store.Credits.{
  get_credits, add_credits, deduct_credits, create_withdrawal_request,
}
use cloistr_address.Store.Addresses.Rows.{is_username_available}
use cloistr_address.Store.Addresses.Register.{atomic_register_address}
use cloistr_address.Store.Identity.{upsert_lightning_config}
use cloistr_address.Api.Http.{
  Json, text, number, flag, Fields, Service, Reply, typed, fields, error_reply, service_error,
}
use cloistr_address.Api.Pricing.{NamePrice, price_name_for}
use cloistr_address.Api.Settlement.{
  meta_kind, meta_username, meta_pubkey, meta_lightning_address, kind_address,
}
use cloistr_address.Api.Gateway.{
  InvoiceError, payment_method_unavailable, other_failure, Invoice, InvoiceAnswer, created, refused,
  Gateway, is_valid_lightning_address, or_none, refund, refund_if_applied, auto_configure_lightning,
}

unfoldable pub answer_credits : Result ℕ → Exec (Reply ℕ)
answer_credits (err e) = pure service_error
answer_credits (ok n) = pure (typed 200 n)

-- `Handler.getCredits`: the struct `CreditBalanceResponse` is the balance.
unfoldable pub get_credits_handler : String → Exec (Reply ℕ)
get_credits_handler pubkey = try (get_credits pubkey) >>= answer_credits

-- The struct `CreditWithdrawResponse`.
pub record CreditWithdrawResponse : Type 0 where
  pub withdrawal_id : ℕ
  pub amount_sats : ℕ
  pub status : String
  pub message : String

unfoldable pub min_withdrawal : ℕ
min_withdrawal = 100

unfoldable pub answer_withdrawal :
    String → ℕ → Result CreditWithdrawal → Exec (Reply CreditWithdrawResponse)
answer_withdrawal pubkey amount (ok w) = pure (
    typed 202 record {
      withdrawal_id = w.id;
      amount_sats = w.amount_sats;
      status = w.status;
      message = "Withdrawal request created. Payment will be processed shortly.";
    })
answer_withdrawal pubkey amount (err insufficient_credits) = do
  credits ← try (get_credits pubkey)
  pure (
      fields 400 (
        ("error", text "Insufficient credits")
        ∷ ("available_sats", number (or_none credits))
        ∷ ("requested_sats", number amount)
        ∷ []))
answer_withdrawal pubkey amount (err e) = pure service_error

-- `Handler.withdrawCredits`, past the parsing of the request.
unfoldable pub withdraw_credits : String → ℕ → String → Exec (Reply CreditWithdrawResponse)
withdraw_credits pubkey amount address =
    if not (is_valid_lightning_address address)
    then pure (error_reply 400 "Invalid Lightning address format")
    else if ltb amount min_withdrawal
    then pure (
        fields 400
          (("error", text "Withdrawal amount too small") ∷ ("minimum", number min_withdrawal) ∷ []))
    else try (create_withdrawal_request pubkey amount address) >>= answer_withdrawal pubkey amount
