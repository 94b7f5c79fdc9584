-- ===== src/Api/Quote.antt =====
-- Quotes (internal/api/purchase.go).
use cloistr_address.Base.{ℕ, String, Bool, true, false, not, if◌then◌else◌}
use cloistr_address.Db.Exec.{Result, ok, err, Exec, pure, ◌>>=◌, try}
use cloistr_address.Store.Credits.{get_credits}
use cloistr_address.Store.Addresses.Rows.{is_username_available}
use cloistr_address.Api.Http.{Service, Reply, typed, service_error}
use cloistr_address.Api.Pricing.{NamePrice, price_name_for}
use cloistr_address.Api.Gateway.{or_none}

-- The struct `PurchaseQuoteResponse`.
pub record PurchaseQuoteResponse : Type 0 where
  pub username : String
  pub available : Bool
  pub price_sats : ℕ
  pub tier : String
  pub credits : ℕ
  pub additional : Bool

abbrev unavailable_quote : String → PurchaseQuoteResponse
unavailable_quote username = record {
  username = username;
  available = false;
  price_sats = 0;
  tier = "";
  credits = 0;
  additional = false;
}

unfoldable pub quote_priced :
    String → String → Result NamePrice → Exec (Reply PurchaseQuoteResponse)
quote_priced username pubkey (err e) = pure service_error
quote_priced username pubkey (ok p) = do
  credits ← try (get_credits pubkey)
  pure (
      typed 200 record {
        username = username;
        available = true;
        price_sats = p.price_sats;
        tier = p.tier;
        credits = or_none credits;
        additional = p.additional;
      })

unfoldable pub quote_available :
    Service → String → String → Result Bool → Exec (Reply PurchaseQuoteResponse)
quote_available svc username pubkey (err e) = pure service_error
quote_available svc username pubkey (ok false) = pure (typed 200 (unavailable_quote username))
quote_available svc username pubkey (ok true) =
    try (price_name_for svc username pubkey) >>= quote_priced username pubkey

-- `Handler.getPurchaseQuote`, past the parsing of the request.
unfoldable pub get_purchase_quote : Service → String → String → Exec (Reply PurchaseQuoteResponse)
get_purchase_quote svc pubkey username =
    if not (svc.is_valid_human_name username)
    then pure (typed 200 (unavailable_quote username))
    else try (is_username_available svc.lower username) >>= quote_available svc username pubkey
