-- ===== src/Api/Webhook.antt =====
-- The webhook of BTCPay (internal/api/webhook.go). The request is what the handler reads of it:
-- its body, if it could be read, and the verdicts of the client on it. The checks of the signature
-- and of the JSON (`VerifyWebhookSignature`, `ParseWebhookEvent`) are parameters of the handler.
pub mod Retry
use Prim.Native.String.{◌++◌ as ◌<>◌}
use cloistr_address.Base.{
  ℕ, String, Bool, true, false, not, Option, none, some, List, [], ◌∷◌, ltb, if◌then◌else◌, same,
}
use cloistr_address.Base.Signed.{ℤ, pos, negsuc}
use cloistr_address.Db.Tables.{Address}
use cloistr_address.Db.Exec.{Error, Result, ok, err, Exec, pure, ◌>>=◌, ◌>>◌, try}
use cloistr_address.Store.Credits.{
  add_invoice_credit_once, credit_reason_race_loss, credit_reason_registration_error,
}
use cloistr_address.Store.Addresses.Register.{atomic_register_address}
use cloistr_address.Api.Http.{text, signed, Fields, meta_text}
use cloistr_address.Api.Gateway.{Invoice, Gateway, to_int64, auto_configure_lightning}
use cloistr_address.Api.Settlement.{
  meta_username, meta_pubkey, meta_product_id, meta_lightning_address, kind_address, kind_product,
  settlement_kind, SettlementOutcome, settle_product,
}

-- The struct `btcpay.WebhookEvent`, the fields that the handler reads.
pub record WebhookEvent : Type 0 where
  pub type : String
  pub invoice_id : String
  pub metadata : Fields

-- Status and body.
abbrev pub WebhookReply : Type 0
WebhookReply = ℕ × Fields

abbrev pub say : ℕ → String → String → WebhookReply
say n status message = (n, ("status", text status) ∷ ("message", text message) ∷ [])

-- `btcpay.EventInvoiceSettled`
unfoldable pub event_invoice_settled : String
event_invoice_settled = "InvoiceSettled"

unfoldable pub credit_failed : WebhookReply
credit_failed = say 500 "error" "Credit failed"

unfoldable pub registration_credited : WebhookReply
registration_credited = say 200 "error" "Registration failed, credited"

unfoldable pub race_lost : ℤ → WebhookReply
race_lost amount = (
  200,
  ("status", text "race_loss")
      ∷ ("credited", signed amount)
      ∷ ("message", text "Username taken, payment credited")
      ∷ [],
)

unfoldable pub registered : String → String → WebhookReply
registered username domain = (
  200,
  ("status", text "registered")
      ∷ ("username", text username)
      ∷ ("address", text (username <> ("@" <> domain)))
      ∷ [],
)

unfoldable pub answer_credit : WebhookReply → Result Bool → Exec WebhookReply
answer_credit reply (ok credited) = pure reply
answer_credit reply (err e) = pure credit_failed

-- The credit for a payer who cannot have the name.
unfoldable pub credit_payer : String → ℤ → String → String → WebhookReply → Exec WebhookReply
credit_payer pubkey (negsuc n) reason invoice reply = pure reply
credit_payer pubkey (pos n) reason invoice reply =
    if ltb 0 n
    then try (add_invoice_credit_once pubkey n reason invoice) >>= answer_credit reply
    else pure reply

-- A dropped assertion: no key, or a value that is not a text, is no address.
unfoldable pub meta_address : Fields → Option String
meta_address meta =
    if same (meta_text meta_lightning_address meta) ""
    then none
    else some (meta_text meta_lightning_address meta)

unfoldable pub answer_registration :
    String → String → String → ℤ → WebhookEvent → Result (Option Address) → Exec WebhookReply
answer_registration domain username pubkey amount event (err e) =
    credit_payer pubkey amount credit_reason_registration_error event.invoice_id
      registration_credited
answer_registration domain username pubkey amount event (ok none) =
    credit_payer pubkey amount credit_reason_race_loss event.invoice_id (race_lost amount)
answer_registration domain username pubkey amount event (ok (some addr)) =
    auto_configure_lightning addr.id (meta_address event.metadata)
    >> pure (registered username domain)

-- The address flow, once the invoice is known.
unfoldable pub settle_address :
    String → String → String → WebhookEvent → Option Invoice → Exec WebhookReply
settle_address domain username pubkey event none = pure (say 500 "error" "Invoice lookup failed")
settle_address domain username pubkey event (some invoice) =
    try (atomic_register_address username domain pubkey false)
    >>= answer_registration domain username pubkey (to_int64 invoice.amount) event

unfoldable pub answer_product : Result SettlementOutcome → Exec WebhookReply
answer_product (err e) = pure (say 500 "error" "Settlement failed")
answer_product (ok o) =
    pure (200, ("status", text o.status) ∷ ("message", text o.message) ∷ o.detail)

-- The dispatch on what was bought.
unfoldable pub settle_event : String → Gateway → WebhookEvent → String → ℕ → Exec WebhookReply
settle_event domain gw event pubkey now =
    let kind = settlement_kind event.metadata in
    let username = meta_text meta_username event.metadata in
    if same kind kind_product
    then try (settle_product event.invoice_id pubkey (meta_text meta_product_id event.metadata) now)
      >>= answer_product
    else if not (same kind kind_address)
    then pure (say 200 "error" "Unrecognised invoice metadata")
    else if same username ""
    then pure (say 200 "error" "Missing username")
    else settle_address domain username pubkey event (gw.get_invoice event.invoice_id)

unfoldable pub process_event : String → Gateway → WebhookEvent → ℕ → Exec WebhookReply
process_event domain gw event now =
    let pubkey = meta_text meta_pubkey event.metadata in
    if not (same event.type event_invoice_settled)
    then pure (200, ("status", text "ignored") ∷ ("type", text event.type) ∷ [])
    else if same pubkey ""
    then pure (say 200 "error" "Missing pubkey")
    else settle_event domain gw event pubkey now

unfoldable pub handle_parsed : String → Gateway → ℕ → Option WebhookEvent → Exec WebhookReply
handle_parsed domain gw now none = pure (400, ("error", text "Invalid event format") ∷ [])
handle_parsed domain gw now (some event) = process_event domain gw event now

module _ (verify : String → String → Bool) (parse : String → Option WebhookEvent) where
  -- `Handler.handleBTCPayWebhook`
  unfoldable pub handle_btcpay_webhook :
      String → Gateway → Option String → String → Exec WebhookReply
  handle_btcpay_webhook domain gw none signature w =
      pure (400, ("error", text "Failed to read body") ∷ []) w
  handle_btcpay_webhook domain gw (some body) signature w =
      (if not (verify body signature)
          then pure (401, ("error", text "Invalid signature") ∷ [])
          else handle_parsed domain gw w.now (parse body))
        w
