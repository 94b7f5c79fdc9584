-- ===== src/Api/Purchase.antt =====
-- Buying a name (internal/api/purchase.go). Prices and balances are natural numbers here: the
-- columns are not negative, and `price - creditsApplied` never is.
pub mod Money
use cloistr_address.Base.{
  ℕ, ◌-◌, String, Bool, true, false, not, ◌&&◌, ◌||◌, Option, none, some, List, [], ◌∷◌, ltb, leb,
  ◌==◌, if◌then◌else◌, same, length, find_where,
}
use cloistr_address.Base.Texts.{codes, split_on, contains, bytes_of}
use cloistr_address.Db.Tables.{Address, CreditWithdrawal}
use cloistr_address.Db.Exec.{
  Error, insufficient_credits, Result, ok, err, Exec, pure, raise, ◌>>=◌, ◌>>◌, try,
}
use cloistr_address.Store.Credits.{
  get_credits, add_credits, deduct_credits, create_withdrawal_request,
}
use cloistr_address.Store.Addresses.Rows.{is_username_available}
use cloistr_address.Store.Addresses.Register.{atomic_register_address}
use cloistr_address.Store.Identity.{upsert_lightning_config}
use cloistr_address.Api.Http.{
  Json, text, number, flag, Fields, Service, Reply, typed, fields, error_reply, service_error,
}
use cloistr_address.Api.Pricing.{NamePrice, price_name_for}
use cloistr_address.Api.Settlement.{
  meta_kind, meta_username, meta_pubkey, meta_lightning_address, kind_address,
}
use cloistr_address.Api.Gateway.{
  InvoiceError, payment_method_unavailable, other_failure, Invoice, InvoiceAnswer, created, refused,
  Gateway, is_valid_lightning_address, or_none, refund, refund_if_applied, auto_configure_lightning,
}

-- The structs `PurchaseInvoiceRequest` and `PurchaseInvoiceResponse`; the expiry is the Unix
-- time that the handler formats.
pub record PurchaseInvoiceRequest : Type 0 where
  pub username : String
  pub use_credits : Bool
  pub lightning_address : Option String

pub record PurchaseInvoiceResponse : Type 0 where
  pub invoice_id : String
  pub username : String
  pub amount_sats : ℕ
  pub credits_applied : ℕ
  pub payment_request : String
  pub expires_at : ℕ

abbrev pub Answer : Type 0
Answer = Exec (Reply PurchaseInvoiceResponse)

-- min(credits, price) where the caller asked to use credits.
unfoldable pub credits_to_apply : ℕ → Result ℕ → ℕ
credits_to_apply price (err e) = 0
credits_to_apply price (ok credits) = if leb price credits then price else credits

unfoldable pub read_credits : Bool → ℕ → String → Exec ℕ
read_credits false price pubkey = pure 0
read_credits true price pubkey = do
  credits ← try (get_credits pubkey)
  pure (credits_to_apply price credits)

unfoldable pub taken_fields : ℕ → Bool → Fields
taken_fields applied refunded =
    if ltb 0 applied
    then ("error", text "Username was taken")
      ∷ (
        "message",
        text (
            if refunded
            then "Credits have been refunded to your account"
            else "Your credits could not be refunded automatically — please contact support"),
      )
      ∷ []
    else ("error", text "Username was taken") ∷ []

-- After the registration of a name that the credits cover.
unfoldable pub finish_covered :
    String → PurchaseInvoiceRequest → ℕ → Result (Option Address) → Answer
finish_covered pubkey req applied (err e) =
    refund_if_applied pubkey applied "purchase_failed_refund" req.username >> pure service_error
finish_covered pubkey req applied (ok none) = do
  refunded ← refund_if_applied pubkey applied "username_taken_refund" req.username
  pure (fields 409 (taken_fields applied refunded))
finish_covered pubkey req applied (ok (some addr)) = do
  auto_configure_lightning addr.id req.lightning_address
  pure (
      fields 201 (
        ("success", flag true)
        ∷ ("username", text req.username)
        ∷ ("credits_used", number applied)
        ∷ ("message", text "Address registered successfully")
        ∷ ("payment_method", text "credits")
        ∷ []))

unfoldable pub register_covered : Service → String → PurchaseInvoiceRequest → ℕ → Answer
register_covered svc pubkey req applied =
    try (atomic_register_address req.username svc.domain pubkey false)
    >>= finish_covered pubkey req applied

unfoldable pub buy_deducted :
    Service → String → PurchaseInvoiceRequest → ℕ → Result (Unit {0}) → Answer
buy_deducted svc pubkey req applied (ok u) = register_covered svc pubkey req applied
buy_deducted svc pubkey req applied (err insufficient_credits) = do
  credits ← try (get_credits pubkey)
  pure (
      fields 400 (
        ("error", text "Insufficient credits")
        ∷ ("available_sats", number (or_none credits))
        ∷ ("required_sats", number applied)
        ∷ []))
buy_deducted svc pubkey req applied (err e) = pure service_error

-- Nothing is left to pay: the credits, if any, are deducted first.
unfoldable pub buy_covered : Service → String → PurchaseInvoiceRequest → ℕ → Answer
buy_covered svc pubkey req applied =
    if ltb 0 applied
    then try (deduct_credits pubkey applied "purchase_full" req.username)
      >>= buy_deducted svc pubkey req applied
    else register_covered svc pubkey req applied

-- The BOLT11 destination among the payment methods.
unfoldable pub bolt11 : Option (List (String × String)) → String
bolt11 none = ""
bolt11 (some methods) = elim (find_where (λ m. same m.0 "BTC-LightningNetwork") methods) [
  | none ↦ ""
  | some m ↦ m.1
]

unfoldable pub invoice_metadata : String → PurchaseInvoiceRequest → ℕ → ℕ → Fields
invoice_metadata pubkey req applied price =
    let tail : Fields = elim req.lightning_address [
      | none ↦ []
      | some a ↦ if same a "" then [] else (meta_lightning_address, text a) ∷ []
    ] in
    (meta_kind, text kind_address)
    ∷ (meta_username, text req.username)
    ∷ (meta_pubkey, text pubkey)
    ∷ ("credits_applied", number applied)
    ∷ ("original_price", number price)
    ∷ tail

abbrev pub transient_reply : {A : Type 0} → Reply A
transient_reply = fields 503 (
    ("error", text "Lightning is temporarily unavailable, please try again")
    ∷ ("retries", flag true)
    ∷ [])

unfoldable pub finish_invoice :
    Gateway → String → PurchaseInvoiceRequest → ℕ → ℕ → InvoiceAnswer → Answer
finish_invoice gw pubkey req applied amount (created invoice) = pure (
    typed 201 record {
      invoice_id = invoice.id;
      username = req.username;
      amount_sats = amount;
      credits_applied = applied;
      payment_request = bolt11 (gw.payment_methods invoice.id);
      expires_at = invoice.expiration_time;
    })
finish_invoice gw pubkey req applied amount (refused payment_method_unavailable) =
    refund_if_applied pubkey applied "invoice_creation_failed_refund" req.username
    >> pure transient_reply
finish_invoice gw pubkey req applied amount (refused other_failure) =
    refund_if_applied pubkey applied "invoice_creation_failed_refund" req.username
    >> pure (error_reply 500 "Failed to create invoice")

unfoldable pub request_invoice : Gateway → String → PurchaseInvoiceRequest → ℕ → ℕ → Answer
request_invoice gw pubkey req price applied =
    if not gw.is_configured
    then refund_if_applied pubkey applied "btcpay_unavailable_refund" req.username
      >> pure (error_reply 503 "Payment system unavailable")
    else finish_invoice gw pubkey req applied (price - applied)
        (gw.create_invoice (price - applied) (invoice_metadata pubkey req applied price))

-- A failed partial deduction is dropped: the invoice is for the full price then.
unfoldable pub buy_partly : Gateway → String → PurchaseInvoiceRequest → ℕ → ℕ → Answer
buy_partly gw pubkey req price applied =
    if ltb 0 applied
    then try (deduct_credits pubkey applied "purchase_partial" req.username)
      >>= (λ r. request_invoice gw pubkey req price (elim r [ ok _ ↦ applied | err _ ↦ 0 ]))
    else request_invoice gw pubkey req price 0

unfoldable pub buy_applied : Service → Gateway → String → PurchaseInvoiceRequest → ℕ → ℕ → Answer
buy_applied svc gw pubkey req price applied =
    if price - applied == 0
    then buy_covered svc pubkey req applied
    else buy_partly gw pubkey req price applied

unfoldable pub buy_priced :
    Service → Gateway → String → PurchaseInvoiceRequest → Result NamePrice → Answer
buy_priced svc gw pubkey req (err e) = pure service_error
buy_priced svc gw pubkey req (ok p) =
    read_credits req.use_credits p.price_sats pubkey >>= buy_applied svc gw pubkey req p.price_sats

unfoldable pub buy_available :
    Service → Gateway → String → PurchaseInvoiceRequest → Result Bool → Answer
buy_available svc gw pubkey req (err e) = pure service_error
buy_available svc gw pubkey req (ok false) = pure (error_reply 409 "Username not available")
buy_available svc gw pubkey req (ok true) =
    try (price_name_for svc req.username pubkey) >>= buy_priced svc gw pubkey req

unfoldable pub bad_lightning_address : Option String → Bool
bad_lightning_address none = false
bad_lightning_address (some a) = not (same a "") && not (is_valid_lightning_address a)

-- `Handler.createPurchaseInvoice`, past the parsing of the request.
unfoldable pub create_purchase_invoice :
    Service → Gateway → String → PurchaseInvoiceRequest → Answer
create_purchase_invoice svc gw pubkey req =
    if bad_lightning_address req.lightning_address
    then pure (error_reply 400 "Invalid Lightning Address format")
    else if not (svc.is_valid_human_name req.username)
    then pure (error_reply 400 "Invalid username format")
    else try (is_username_available svc.lower req.username) >>= buy_available svc gw pubkey req
