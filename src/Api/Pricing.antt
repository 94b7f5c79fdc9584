-- ===== src/Api/Pricing.antt =====
-- What a name costs (internal/api/nameprice.go, pricing.go).
pub mod Rules
use cloistr_address.Base.{
  ℕ, String, Bool, true, false, not, ◌&&◌, ◌||◌, Option, none, some, List, [], ◌∷◌, map, ◌==◌,
  if◌then◌else◌, same, select_where,
}
use cloistr_address.Base.Texts.{byte_length}
use cloistr_address.Db.Tables.{UsernameTier}
use cloistr_address.Db.Exec.{
  Error, product_not_found, Result, ok, err, Exec, pure, raise, ◌>>=◌, try,
}
use cloistr_address.Store.Addresses.Rows.{count_real_addresses}
use cloistr_address.Store.Catalog.{
  get_username_price, get_username_tier, get_product_price_sats, list_tiers,
}
use cloistr_address.Api.Http.{Service, Reply, typed, service_error}

-- `AdditionalAddressProductID`
unfoldable pub additional_address_product_id : String
additional_address_product_id = "address_standard_additional"

-- `fallbackAdditionalPriceSats`
unfoldable pub fallback_additional_price_sats : ℕ
fallback_additional_price_sats = 1000

-- The struct `NamePrice`.
pub record NamePrice : Type 0 where
  pub price_sats : ℕ
  pub tier : String
  pub additional : Bool

-- A missing catalog row costs the documented price, any other error is passed on.
unfoldable pub or_fallback : Result ℕ → Exec ℕ
or_fallback (ok n) = pure n
or_fallback (err product_not_found) = pure fallback_additional_price_sats
or_fallback (err e) = raise e

-- `Handler.additionalAddressPrice`
unfoldable pub additional_address_price : Exec ℕ
additional_address_price = do
  found ← try (get_product_price_sats additional_address_product_id)
  or_fallback found

-- The allowance of one free name, once the length-based price is known to be free.
unfoldable pub price_claimed : NamePrice → ℕ → Exec NamePrice
price_claimed p claimed =
    if claimed == 0
    then pure p
    else additional_address_price >>= (λ n. pure (record p { price_sats = n; additional = true }))

unfoldable pub price_allowance : NamePrice → String → Exec NamePrice
price_allowance p pubkey =
    if not (p.price_sats == 0) || same pubkey ""
    then pure p
    else count_real_addresses pubkey >>= price_claimed p

-- `Handler.priceNameFor`
unfoldable pub price_name_for : Service → String → String → Exec NamePrice
price_name_for svc username pubkey = do
  base ← get_username_price svc.price_of (byte_length username)
  tier ← get_username_tier (byte_length username)
  price_allowance record { price_sats = base; tier = tier; additional = false } pubkey

-- The structs `PricingTier` and `PricingTiersResponse`.
pub record PricingTier : Type 0 where
  pub tier : String
  pub min_length : ℕ
  pub max_length : Option ℕ
  pub price_sats : ℕ

pub record PricingTiersResponse : Type 0 where
  pub tiers : List PricingTier
  pub additional_address_sats : ℕ

unfoldable pub shown_tier : UsernameTier → PricingTier
shown_tier t = record {
  tier = t.tier_name;
  min_length = t.min_length;
  max_length = t.max_length;
  price_sats = t.price_sats;
}

-- The tiers that the loop of the handler shows: disabled ones are skipped.
unfoldable pub shown_tiers : List UsernameTier → List PricingTier
shown_tiers [] = []
shown_tiers (t ∷ ts) = let rest = shown_tiers ts in if t.enabled then shown_tier t ∷ rest else rest

unfoldable pub answer_tiers : List UsernameTier → Result ℕ → Exec (Reply PricingTiersResponse)
answer_tiers ts (err e) = pure service_error
answer_tiers ts (ok n) =
    pure (typed 200 record { tiers = shown_tiers ts; additional_address_sats = n })

unfoldable pub answer_listed : Result (List UsernameTier) → Exec (Reply PricingTiersResponse)
answer_listed (err e) = pure service_error
answer_listed (ok ts) = try additional_address_price >>= answer_tiers ts

-- `Handler.listPricingTiers`
unfoldable pub list_pricing_tiers : Exec (Reply PricingTiersResponse)
list_pricing_tiers = try list_tiers >>= answer_listed
