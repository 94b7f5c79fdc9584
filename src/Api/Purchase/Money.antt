-- ===== src/Api/Purchase/Money.antt =====
-- Money in a purchase (internal/api/purchase.go).
use cloistr_address.Base.{◌-◌, ◌≤◌, ◌≡◌, refl, String, Bool, true, false, arith, ◌==◌}
use cloistr_address.Db.Exec.{Result, ok, err, World}
use cloistr_address.Store.Addresses.Rows.{is_username_available}
use cloistr_address.Api.Http.{Service, typed}
use cloistr_address.Api.Pricing.{NamePrice, price_name_for}
use cloistr_address.Api.Gateway.{Invoice, created, Gateway}
use cloistr_address.Api.Quote.{
  PurchaseQuoteResponse, get_purchase_quote, quote_available, quote_priced,
}
use cloistr_address.Api.Purchase.{
  PurchaseInvoiceRequest, create_purchase_invoice, buy_available, buy_priced, buy_applied,
  buy_partly, request_invoice, finish_invoice, read_credits, invoice_metadata, bolt11,
  bad_lightning_address,
}

-- What an answer with an available name was priced at.
quote_priced_price :
    (username pubkey : String) (r : Result NamePrice) (v : World) (q : PurchaseQuoteResponse)
    → (quote_priced username pubkey r v).0 ≡ ok (typed 200 q)
    → (p : NamePrice) × (r ≡ ok p) × (p.price_sats ≡ q.price_sats)
unfolding quote_priced
quote_priced_price username pubkey (err e) v q h = absurd (cc h)
quote_priced_price username pubkey (ok p) v q h = (p, refl, ground arith)

quote_price :
    (svc : Service) (pubkey username : String) (o : Result Bool) (v : World)
    (q : PurchaseQuoteResponse)
    → (quote_available svc username pubkey o v).0 ≡ ok (typed 200 q)
    → q.available ≡ true
    → (o ≡ ok true)
      × ((p : NamePrice) × ((price_name_for svc username pubkey v).0 ≡ ok p)
          × (p.price_sats ≡ q.price_sats))
unfolding quote_available
quote_price svc pubkey username (err e) v q h a = absurd (cc h)
quote_price svc pubkey username (ok false) v q h a = absurd (ground arith)
quote_price svc pubkey username (ok true) v q h a =
    let (r, v') = price_name_for svc username pubkey v in
    (refl, quote_priced_price username pubkey r v' q h)

-- Without credits, a price that is not zero is asked of BTCPay in full.
buy_priced_plain :
    (svc : Service) (gw : Gateway) (pubkey : String) (req : PurchaseInvoiceRequest) (p : NamePrice)
    (w : World)
    → 1 ≤ p.price_sats
    → req.use_credits ≡ false
    → gw.is_configured ≡ true
    → buy_priced svc gw pubkey req (ok p) w
      ≡ finish_invoice gw pubkey req 0
          (p.price_sats - 0)
          (gw.create_invoice (p.price_sats - 0) (invoice_metadata pubkey req 0 p.price_sats))
          w
unfolding buy_priced read_credits buy_applied buy_partly request_invoice
buy_priced_plain svc gw pubkey req p w m u g = simp (u) (go (p.price_sats - 0 == 0) refl)
  where
    go :
        (b : Bool)
        → (p.price_sats - 0 == 0) ≡ b
        → buy_applied svc gw pubkey req p.price_sats 0 w
          ≡ finish_invoice gw pubkey req 0
              (p.price_sats - 0)
              (gw.create_invoice (p.price_sats - 0) (invoice_metadata pubkey req 0 p.price_sats))
              w
    go true e = absurd (ground (arith, m))
    go false e = simp (e, g)

-- The invoice is for the price that the quote shows: where a quote and a purchase without credits
-- find the same state, and the same statements fail, an invoice that BTCPay makes for the quoted
-- price is the answer, whatever the price is made of.
pub create_purchase_invoice_quoted :
    (svc : Service) (gw : Gateway) (pubkey : String) (req : PurchaseInvoiceRequest) (w : World)
    (q : PurchaseQuoteResponse) (i : Invoice)
    → (get_purchase_quote svc pubkey req.username w).0 ≡ ok (typed 200 q)
    → q.available ≡ true
    → 1 ≤ q.price_sats
    → req.use_credits ≡ false
    → bad_lightning_address req.lightning_address ≡ false
    → gw.is_configured ≡ true
    → gw.create_invoice q.price_sats (invoice_metadata pubkey req 0 q.price_sats) ≡ created i
    → (create_purchase_invoice svc gw pubkey req w).0
      ≡ ok (
          typed 201 record {
            invoice_id = i.id;
            username = req.username;
            amount_sats = q.price_sats;
            credits_applied = 0;
            payment_request = bolt11 (gw.payment_methods i.id);
            expires_at = i.expiration_time;
          })
unfolding get_purchase_quote create_purchase_invoice buy_available finish_invoice
create_purchase_invoice_quoted svc gw pubkey req w q i h a m u b g c =
    go (svc.is_valid_human_name req.username) refl
  where
    after :
        (p : NamePrice) (v : World)
        → p.price_sats ≡ q.price_sats
        → (buy_priced svc gw pubkey req (ok p) v).0
          ≡ ok (
              typed 201 record {
                invoice_id = i.id;
                username = req.username;
                amount_sats = q.price_sats;
                credits_applied = 0;
                payment_request = bolt11 (gw.payment_methods i.id);
                expires_at = i.expiration_time;
              })
    after p v e =
        let zero_off : p.price_sats - 0 ≡ q.price_sats = omega (arith, e) in
        rw (buy_priced_plain svc gw pubkey req p v (omega (arith, e, m)) u g, zero_off, e, c) refl

    go :
        (b : Bool)
        → svc.is_valid_human_name req.username ≡ b
        → (create_purchase_invoice svc gw pubkey req w).0
          ≡ ok (
              typed 201 record {
                invoice_id = i.id;
                username = req.username;
                amount_sats = q.price_sats;
                credits_applied = 0;
                payment_request = bolt11 (gw.payment_methods i.id);
                expires_at = i.expiration_time;
              })
    go true v =
        let (o, w') = is_username_available svc.lower req.username w in
        let (free, (p, priced, e)) = quote_price svc pubkey req.username o w' q (rw v at h) a in
        simp (b, v, free, priced) (after p _ e)
    go false v = absurd (cc (a, rw v at h))
