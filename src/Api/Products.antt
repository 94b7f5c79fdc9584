-- ===== src/Api/Products.antt =====
-- Buying a product (internal/api/product_purchase.go).
use cloistr_address.Base.{ℕ, String, true, not, [], ◌∷◌, ◌==◌, if◌then◌else◌, same}
use Prim.Native.String.{◌++◌ as ◌<>◌}
use cloistr_address.Db.Tables.{Product}
use cloistr_address.Db.Exec.{product_not_found, Result, ok, err, Exec, pure, ◌>>=◌, try}
use cloistr_address.Store.Catalog.{get_product}
use cloistr_address.Api.Http.{text, flag, Fields, Reply, typed, fields, error_reply, service_error}
use cloistr_address.Api.Gateway.{
  payment_method_unavailable, other_failure, InvoiceAnswer, created, refused, Gateway,
}
use cloistr_address.Api.Settlement.{
  meta_kind, meta_pubkey, meta_product_id, kind_product, SettlementOutcome, settle_product,
}

-- The struct `ProductInvoiceResponse`; nothing sets its `payment_url`.
pub record ProductInvoiceResponse : Type 0 where
  pub invoice_id : String
  pub product_id : String
  pub display_name : String
  pub price_sats : ℕ
  pub checkout_url : String
  pub status : String

abbrev Answer : Type 0
Answer = Exec (Reply ProductInvoiceResponse)

unfoldable pub free_reference : String → String → String
free_reference product pubkey = "free:" <> (product <> (":" <> pubkey))

unfoldable pub answer_free : Product → Result SettlementOutcome → Answer
answer_free p (err e) = pure service_error
answer_free p (ok outcome) = pure (
    typed 200 record {
      invoice_id = "";
      product_id = p.id;
      display_name = p.display_name;
      price_sats = 0;
      checkout_url = "";
      status = outcome.status;
    })

unfoldable pub answer_invoice : Product → InvoiceAnswer → Answer
answer_invoice p (created invoice) = pure (
    typed 200 record {
      invoice_id = invoice.id;
      product_id = p.id;
      display_name = p.display_name;
      price_sats = p.price_sats;
      checkout_url = invoice.checkout_link;
      status = "invoiced";
    })
answer_invoice p (refused payment_method_unavailable) = pure (
    fields 503 (
      ("error", text "Lightning is temporarily unavailable, please try again")
      ∷ ("retries", flag true)
      ∷ []))
answer_invoice p (refused other_failure) = pure (error_reply 500 "Failed to create invoice")

unfoldable pub product_metadata : Product → String → Fields
product_metadata p buyer =
    (meta_kind, text kind_product) ∷ (meta_product_id, text p.id) ∷ (meta_pubkey, text buyer) ∷ []

-- A product that costs nothing is granted at once, under a reference made of the buyer.
unfoldable pub sell_product : Gateway → String → ℕ → Product → Answer
sell_product gw buyer now p =
    if not p.enabled
    then pure (error_reply 409 "Product is not available")
    else if p.price_sats == 0
    then try (settle_product (free_reference p.id buyer) buyer p.id now) >>= answer_free p
    else if not gw.is_configured
    then pure (error_reply 503 "Payment system unavailable")
    else answer_invoice p (gw.create_invoice p.price_sats (product_metadata p buyer))

unfoldable pub product_found : Gateway → String → ℕ → Result Product → Answer
product_found gw buyer now (ok p) = sell_product gw buyer now p
product_found gw buyer now (err product_not_found) = pure (error_reply 404 "Unknown product")
product_found gw buyer now (err e) = pure service_error

-- `Handler.createProductInvoice`, past the parsing of the request.
unfoldable pub create_product_invoice : Gateway → String → String → Answer
create_product_invoice gw buyer product w =
    (if same buyer ""
        then pure (error_reply 400 "Missing pubkey")
        else try (get_product product) >>= product_found gw buyer w.now)
      w
