-- ===== src/Api/Gateway.antt =====
-- The payment client as its callers see it (internal/btcpay/client.go), and what the purchase paths
-- share: Lightning Addresses, refunds and the automatic configuration (internal/api/purchase.go).
pub mod LightningAddress
use cloistr_address.Base.{
  ℕ, ◌+◌, ◌-◌, ◌*◌, ◌/◌, ◌^◌, String, Bool, true, false, not, ◌&&◌, ◌||◌, Option, none, some, List,
  [], ◌∷◌, ltb, leb, ◌==◌, if◌then◌else◌, same, length, find_where,
}
use cloistr_address.Base.Signed.{ℤ, pos, negsuc, pos_part, neg_part, sub_ℕ}
use cloistr_address.Base.Texts.{codes, split_on, contains, bytes_of}
use cloistr_address.Db.Tables.{Address, CreditWithdrawal}
use cloistr_address.Db.Exec.{
  Error, insufficient_credits, Result, ok, err, Exec, pure, raise, ◌>>=◌, ◌>>◌, try,
}
use cloistr_address.Store.Credits.{
  get_credits, add_credits, deduct_credits, create_withdrawal_request,
}
use cloistr_address.Store.Addresses.Rows.{is_username_available}
use cloistr_address.Store.Addresses.Register.{atomic_register_address}
use cloistr_address.Store.Identity.{upsert_lightning_config}
use cloistr_address.Api.Http.{
  Json, text, number, flag, Fields, Service, Reply, typed, fields, error_reply, service_error,
}
use cloistr_address.Api.Pricing.{NamePrice, price_name_for}
use cloistr_address.Api.Settlement.{
  meta_kind, meta_username, meta_pubkey, meta_lightning_address, kind_address,
}

-- How `btcpay.CreateInvoice` can fail, as far as callers tell apart.
pub data InvoiceError : Type 0 where
  payment_method_unavailable : InvoiceError
  other_failure : InvoiceError

-- A finite float64, mantissa * 2 ^ exponent; JSON has no other.
pub record Float64 : Type 0 where
  pub mantissa : ℤ
  pub exponent : ℤ

-- The magnitude of n * 2 ^ e, truncated.
unfoldable pub truncated : ℕ → ℤ → ℕ
truncated n (pos e) = n * 2 ^ e
truncated n (negsuc e) = n / 2 ^ (e + 1)

-- int64(x): the fraction is dropped; a value out of range is the least int64, as on amd64.
unfoldable pub to_int64 : Float64 → ℤ
to_int64 x =
    let plus = truncated (pos_part x.mantissa) x.exponent in
    let minus = truncated (neg_part x.mantissa) x.exponent in
    if leb plus (2 ^ 63 - 1) && leb minus (2 ^ 63) then sub_ℕ plus minus else negsuc (2 ^ 63 - 1)

-- The fields of the struct `btcpay.Invoice` that callers read.
pub record Invoice : Type 0 where
  pub id : String
  pub status : String
  pub amount : Float64
  pub metadata : Fields
  pub checkout_link : String
  pub expiration_time : ℕ

pub data InvoiceAnswer : Type 0 where
  created : Invoice → InvoiceAnswer
  refused : InvoiceError → InvoiceAnswer

-- The payment client as its callers see it during one request; payment methods are pairs of a
-- name and a destination.
pub record Gateway : Type 0 where
  pub is_configured : Bool
  pub create_invoice : ℕ → Fields → InvoiceAnswer
  pub get_invoice : String → Option Invoice
  pub payment_methods : String → Option (List (String × String))

-- `isValidLightningAddress`
unfoldable pub lightning_parts : List (List ℕ) → Bool
lightning_parts (user ∷ host ∷ []) =
    ltb 0 (bytes_of user) && (ltb 2 (bytes_of host) && contains b'.' host)
lightning_parts _ = false

unfoldable pub is_valid_lightning_address : String → Bool
unfolding lightning_parts
is_valid_lightning_address addr = lightning_parts (split_on b'@' (codes addr))

-- An error of GetCredits is logged, and its zero is shown.
abbrev pub or_none : Result ℕ → ℕ
or_none (ok n) = n
or_none (err e) = 0

-- `refund`: whether the credits went back.
unfoldable pub refund : String → ℕ → String → String → Exec Bool
refund pubkey amount reason username = do
  done ← try (add_credits pubkey amount reason username)
  pure (elim done [ ok _ ↦ true | err _ ↦ false ])

unfoldable pub refund_if_applied : String → ℕ → String → String → Exec Bool
refund_if_applied pubkey amount reason username =
    if ltb 0 amount then refund pubkey amount reason username else pure true

-- `Handler.autoConfigureLightning`: an error is logged and dropped.
unfoldable pub auto_configure_lightning : ℕ → Option String → Exec (Unit {0})
auto_configure_lightning id none = pure tt
auto_configure_lightning id (some addr) =
    if same addr ""
    then pure tt
    else try (upsert_lightning_config id "proxy" addr) >>= (λ _. pure tt)
