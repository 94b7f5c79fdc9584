-- ===== src/Api/Lnurlp.antt =====
-- LNURL-pay (internal/api/lnurlp.go): the configuration of a name and the invoice for an amount.
pub mod Bounds
pub mod Announced
pub mod Tracking
use Prim.Native.String.{◌++◌ as ◌<>◌}
use cloistr_address.Base.{
  ℕ, String, Bool, true, false, not, ◌&&◌, ◌||◌, Option, none, some, List, [], ◌∷◌, ltb, leb,
  if◌then◌else◌, same,
}
use cloistr_address.Base.Signed.{ℤ, pos, negsuc}
use cloistr_address.Base.Scan.{scan_int}
use cloistr_address.Base.Texts.{codes, starts}
use cloistr_address.Db.Tables.{Address, Lightning}
use cloistr_address.Db.Exec.{Result, ok, err, Exec, pure, ◌>>=◌, try}
use cloistr_address.Store.Addresses.Rows.{get_address_by_username}
use cloistr_address.Store.Identity.{get_lightning_config}
use cloistr_address.Client.Crypto.{Bytes}
use cloistr_address.Api.Proxy.{CallbackReply, lnurl_error, Web, handle_proxy_invoice}
use cloistr_address.Api.Wallet.{Wallets, or_empty, handle_nwc_invoice}

-- The struct `LNURLPConfigResponse`.
pub record ConfigResponse : Type 0 where
  pub tag : String
  pub callback : String
  pub min_sendable : ℕ
  pub max_sendable : ℕ
  pub metadata : String
  pub comment_allowed : ℕ
  pub allows_nostr : Bool
  pub nostr_pubkey : String

-- Both answers have status 200.
pub data ConfigReply : Type 0 where
  config_error : String → ConfigReply
  config : ConfigResponse → ConfigReply

-- What the configuration handler reads of the request.
pub record Origin : Type 0 where
  pub tls : Bool
  pub host : String

unfoldable pub callback_url : Origin → String → String
callback_url o username =
    let scheme =
      if not o.tls && starts (codes "localhost") (codes o.host) then "http" else "https" in
    scheme <> ("://" <> (o.host <> ("/.well-known/lnurlp/" <> (username <> "/callback"))))

unfoldable pub metadata_of : String → String → String
metadata_of username domain =
    "[[\"text/identifier\",\"" <> (username <> ("@" <> (domain <> "\"]]")))

unfoldable pub config_of : Origin → String → String → Address → Lightning → ConfigResponse
config_of o username domain a l = record {
  tag = "payRequest";
  callback = callback_url o username;
  min_sendable = l.min_sendable_msats;
  max_sendable = l.max_sendable_msats;
  metadata = metadata_of username domain;
  comment_allowed = l.comment_allowed;
  allows_nostr = l.allows_nostr;
  nostr_pubkey = a.pubkey;
}

unfoldable pub config_lightning :
    Origin → String → String → Address → Result (Option Lightning) → ConfigReply
config_lightning o username domain a (err e) = config_error "Service error"
config_lightning o username domain a (ok none) =
    config_error "Lightning Address not configured for this user"
config_lightning o username domain a (ok (some l)) =
    if not l.enabled || same l.mode "disabled"
    then config_error "Lightning Address not configured for this user"
    else config (config_of o username domain a l)

unfoldable pub config_address :
    Origin → String → String → Result (Option Address) → Exec ConfigReply
config_address o username domain (err e) = pure (config_error "Service error")
config_address o username domain (ok none) = pure (config_error "User not found")
config_address o username domain (ok (some a)) =
    try (get_lightning_config a.id) >>= (λ r. pure (config_lightning o username domain a r))

-- `handleLNURLPConfig`
unfoldable pub handle_lnurlp_config : Origin → String → String → Exec ConfigReply
handle_lnurlp_config o domain username =
    try (get_address_by_username username domain) >>= config_address o username domain

-- amount < min || amount > max, in int64.
unfoldable pub out_of_bounds : ℤ → Lightning → Bool
out_of_bounds (negsuc n) l = true
out_of_bounds (pos n) l = ltb n l.min_sendable_msats || ltb l.max_sendable_msats n

module _ (web : Web) (env : Wallets) (domain : String) where
  unfoldable pub bounds_error : Lightning → CallbackReply
  bounds_error l = lnurl_error (
      "Amount must be between "
      <> (web.show (pos l.min_sendable_msats)
          <> (" and " <> (web.show (pos l.max_sendable_msats) <> " millisatoshis"))))

  -- The switch on the mode; `handleHostedInvoice` is its third case.
  unfoldable pub invoice_for : String → ℤ → Bytes → Lightning → Exec CallbackReply
  invoice_for username amount comment l =
      if same l.mode "proxy"
      then pure (handle_proxy_invoice web (or_empty l.proxy_address) amount comment)
      else if same l.mode "nwc"
      then handle_nwc_invoice env domain l amount comment username
      else if same l.mode "hosted"
      then pure (lnurl_error "Hosted Lightning wallets coming soon")
      else pure (lnurl_error "Lightning Address not configured")

  unfoldable pub callback_lightning :
      String → ℤ → Bytes → Result (Option Lightning) → Exec CallbackReply
  callback_lightning username amount comment (err e) =
      pure (lnurl_error "Lightning Address not configured")
  callback_lightning username amount comment (ok none) =
      pure (lnurl_error "Lightning Address not configured")
  callback_lightning username amount comment (ok (some l)) =
      if not l.enabled
      then pure (lnurl_error "Lightning Address not configured")
      else if out_of_bounds amount l
      then pure (bounds_error l)
      else invoice_for username amount comment l

  unfoldable pub callback_address :
      String → ℤ → Bytes → Result (Option Address) → Exec CallbackReply
  callback_address username amount comment (err e) = pure (lnurl_error "Service error")
  callback_address username amount comment (ok none) = pure (lnurl_error "User not found")
  callback_address username amount comment (ok (some a)) =
      try (get_lightning_config a.id) >>= callback_lightning username amount comment

  unfoldable pub callback_amount : String → Bytes → Option ℤ → Exec CallbackReply
  callback_amount username comment none = pure (lnurl_error "Invalid amount")
  callback_amount username comment (some amount) =
      try (get_address_by_username username domain) >>= callback_address username amount comment

  -- `handleLNURLPCallback`, with the parameters `amount` and `comment` of the query.
  unfoldable pub handle_lnurlp_callback : String → String → Bytes → Exec CallbackReply
  handle_lnurlp_callback username amount comment =
      if same amount ""
      then pure (lnurl_error "Missing amount parameter")
      else callback_amount username comment (scan_int (codes amount))
