-- ===== src/Api/Proxy.antt =====
-- Invoices from the Lightning address that a user configured (internal/api/lnurlp.go). The HTTP
-- client, the JSON decoder, package url and the printing of numbers are parameters.
pub mod Query
use Prim.Native.String.{◌++◌ as ◌<>◌}
use cloistr_address.Base.{
  ℕ, String, Bool, true, false, not, ◌&&◌, Option, none, some, List, [], ◌∷◌, ltb, if◌then◌else◌,
  same, length,
}
use cloistr_address.Base.Signed.{ℤ, pos, negsuc}
use cloistr_address.Base.Texts.{codes, utf8, cut_at}
use cloistr_address.Client.Crypto.{Bytes, take}

-- The struct `LNURLPCallbackResponse`: the routes and the success action are JSON values.
pub record CallbackResponse : Type 0 where
  pub pr : String
  pub routes : List String
  pub success_action : Option String

-- What the callback answers, with status 200 but for the panic, which gin.Recovery turns into 500.
pub data CallbackReply : Type 0 where
  lnurl_error : String → CallbackReply
  invoice : CallbackResponse → CallbackReply
  panicked : CallbackReply

-- What a GET brings: no response, a response whose body cannot be read, or a body.
pub data Fetched : Type 0 where
  unreachable : Fetched
  unreadable : Fetched
  body : String → Fetched

-- The fields of the provider's configuration that the code reads.
pub record ProxyConfig : Type 0 where
  pub callback : String
  pub comment_allowed : ℤ

abbrev pub Params : Type 0
Params = List (String × Bytes)

-- A parsed URL: its query, and what else it has.
pub record Url : Type 0 where
  pub base : String
  pub query : Params

pub record Web : Type 0 where
  pub fetch : String → Fetched
  pub parse_config : String → Option ProxyConfig
  pub parse_url : String → Option Url
  pub render : Url → String
  -- the status and the reason of an error response
  pub parse_error : String → Option (String × String)
  pub parse_invoice : String → Option CallbackResponse
  -- fmt.Sprintf("%d", n)
  pub show : ℤ → String

-- url.Values.Set
unfoldable pub without : String → Params → Params
without k [] = []
without k ((j, v) ∷ ps) = let rest = without k ps in if same j k then rest else (j, v) ∷ rest

unfoldable pub set_param : String → Bytes → Params → Params
set_param k v ps = (k, v) ∷ without k ps

-- The comment, cut to the bytes that the provider allows, unless it is empty or none is allowed.
unfoldable pub set_comment : Bytes → ℤ → Params → Params
set_comment [] allowed ps = ps
set_comment (c ∷ cs) (negsuc n) ps = ps
set_comment (c ∷ cs) (pos n) ps =
    if ltb 0 n
    then set_param "comment" (if ltb n (length (c ∷ cs)) then take n (c ∷ cs) else c ∷ cs) ps
    else ps

module _ (web : Web) where
  -- The query of the second request.
  unfoldable pub invoice_query : ℤ → Bytes → ℤ → Params → Params
  invoice_query amount comment allowed ps =
      set_comment comment allowed (set_param "amount" (utf8 (codes (web.show amount))) ps)

  unfoldable pub parsed_invoice : Option CallbackResponse → CallbackReply
  parsed_invoice none = lnurl_error "Failed to generate invoice"
  parsed_invoice (some r) = invoice r

  unfoldable pub checked_error : String → Option (String × String) → CallbackReply
  checked_error text none = parsed_invoice (web.parse_invoice text)
  checked_error text (some (status, reason)) =
      if same status "ERROR" then lnurl_error reason else parsed_invoice (web.parse_invoice text)

  unfoldable pub invoice_fetched : Fetched → CallbackReply
  invoice_fetched unreachable = lnurl_error "Failed to generate invoice"
  invoice_fetched unreadable = lnurl_error "Failed to generate invoice"
  invoice_fetched (body text) = checked_error text (web.parse_error text)

  unfoldable pub callback_parsed : ℤ → Bytes → ℤ → Option Url → CallbackReply
  callback_parsed amount comment allowed none = lnurl_error "Invalid response from payment provider"
  callback_parsed amount comment allowed (some u) =
      invoice_fetched
        (web.fetch (web.render (record u { query = invoice_query amount comment allowed u.query })))

  unfoldable pub config_parsed : ℤ → Bytes → Option ProxyConfig → CallbackReply
  config_parsed amount comment none = lnurl_error "Invalid response from payment provider"
  config_parsed amount comment (some c) =
      callback_parsed amount comment c.comment_allowed (web.parse_url c.callback)

  unfoldable pub config_fetched : ℤ → Bytes → Fetched → CallbackReply
  config_fetched amount comment unreachable = lnurl_error "Failed to reach payment provider"
  config_fetched amount comment unreadable = lnurl_error "Failed to reach payment provider"
  config_fetched amount comment (body text) = config_parsed amount comment (web.parse_config text)

  unfoldable pub proxied : ℤ → Bytes → Option (String × String) → CallbackReply
  proxied amount comment none = lnurl_error "Invalid proxy configuration"
  proxied amount comment (some (user, domain)) =
      config_fetched amount comment
        (web.fetch ("https://" <> (domain <> ("/.well-known/lnurlp/" <> user))))

  -- `handleProxyInvoice`
  unfoldable pub handle_proxy_invoice : String → ℤ → Bytes → CallbackReply
  handle_proxy_invoice proxy_address amount comment =
      proxied amount comment (cut_at b'@' proxy_address)
