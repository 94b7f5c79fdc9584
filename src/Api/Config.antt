-- ===== src/Api/Config.antt =====
-- The caller's addresses and their Lightning configuration (internal/api/management.go).
pub mod Stored
use Prim.Native.String.{◌++◌ as ◌<>◌}
use cloistr_address.Base.{
  ℕ, ◌/◌, String, Bool, not, ◌&&◌, ◌||◌, Option, none, some, List, [], map, ltb, if◌then◌else◌,
  same, select_where, sort_by,
}
use cloistr_address.Base.Texts.{codes, utf8}
use cloistr_address.Db.Tables.{Address, Lightning}
use cloistr_address.Db.Exec.{Result, ok, err, Exec, pure, ◌>>=◌, try, select, auto}
use cloistr_address.Store.Addresses.Rows.{active_of, scanned, get_primary_address_by_pubkey}
use cloistr_address.Store.Identity.{
  LightningConfigUpdate, upsert_lightning_config_full, get_lightning_config,
}
use cloistr_address.Client.Crypto.{Bytes, Outcome, done, failed, Encryptor, encrypt}
use cloistr_address.Client.Nwc.{
  ConnectionConfig, Answer, given, refused, Query, parse_connection_uri,
}
use cloistr_address.Api.Http.{Service, Reply, typed, error_reply, service_error}
use cloistr_address.Api.Gateway.{is_valid_lightning_address}
use cloistr_address.Api.Wallet.{Wallets, or_empty}
use cloistr_address.Api.Addresses.{ensure_primary_address}

-- The struct `LightningConfigResponse`.
pub record LightningConfigResponse : Type 0 where
  pub mode : String
  pub proxy_address : String
  pub nwc_configured : Bool
  pub nwc_error_count : ℕ
  pub min_sendable_sat : ℕ
  pub max_sendable_sat : ℕ
  pub comment_allowed : ℕ
  pub allows_nostr : Bool
  pub enabled : Bool

unfoldable pub config_response : Lightning → LightningConfigResponse
config_response l = record {
  mode = l.mode;
  proxy_address = or_empty l.proxy_address;
  nwc_configured = not (same (or_empty l.nwc_secret_encrypted) "");
  nwc_error_count = l.nwc_error_count;
  min_sendable_sat = l.min_sendable_msats / 1000;
  max_sendable_sat = l.max_sendable_msats / 1000;
  comment_allowed = l.comment_allowed;
  allows_nostr = l.allows_nostr;
  enabled = l.enabled;
}

-- The struct `UpdateLightningConfigRequest`.
pub record UpdateRequest : Type 0 where
  pub mode : String
  pub proxy_address : Option String
  pub nwc_connection_uri : Option String

-- A request is answered at once, or passes with what the handler keeps of it: the encryptor and
-- the parsed URI of a wallet.
pub data Checked : Type 0 where
  stops : ℕ → String → Checked
  passes : Option (Encryptor × ConnectionConfig) → Checked

unfoldable pub check_proxy : Option String → Checked
check_proxy none = stops 400 "proxy_address required when mode is 'proxy'"
check_proxy (some address) =
    if same address ""
    then stops 400 "proxy_address required when mode is 'proxy'"
    else if not (is_valid_lightning_address address)
    then stops 400 "Invalid Lightning Address format"
    else passes none

-- The answers of the handler; a missing row at its end is a nil pointer that it reads.
pub data ConfigReply : Type 0 where
  answered : Reply LightningConfigResponse → ConfigReply
  panicked : ConfigReply

unfoldable pub answer_config : Result (Option Lightning) → ConfigReply
answer_config (err e) =
    answered (error_reply 500 "Configuration updated but failed to fetch result")
answer_config (ok none) = panicked
answer_config (ok (some l)) = answered (typed 200 (config_response l))

unfoldable pub fetch_config : ℕ → Result (Unit {0}) → Exec ConfigReply
fetch_config id (err e) = pure (answered (error_reply 500 "Failed to update configuration"))
fetch_config id (ok u) = do
  lightning ← try (get_lightning_config id)
  pure (answer_config lightning)

unfoldable pub store_config : ℕ → Outcome LightningConfigUpdate → Exec ConfigReply
store_config id (failed e) = pure (answered (error_reply 500 "Failed to secure NWC configuration"))
store_config id (done update) = try (upsert_lightning_config_full id update) >>= fetch_config id

module _ (env : Wallets) (parse_query : String → Option Query) where
  unfoldable pub check_parsed : Encryptor → Answer ConnectionConfig → Checked
  check_parsed e (refused x) = stops 400 ("Invalid NWC connection URI: " <> env.describe x)
  check_parsed e (given c) = passes (some (e, c))

  unfoldable pub check_encryptor : String → Option Encryptor → Checked
  check_encryptor uri none = stops 503 "NWC mode is not available on this server"
  check_encryptor uri (some e) = check_parsed e (parse_connection_uri parse_query uri)

  unfoldable pub check_nwc : Option String → Checked
  check_nwc none = stops 400 "nwc_connection_uri required when mode is 'nwc'"
  check_nwc (some uri) =
      if same uri ""
      then stops 400 "nwc_connection_uri required when mode is 'nwc'"
      else check_encryptor uri env.encryptor

  unfoldable pub check_request : UpdateRequest → Checked
  check_request req =
      if same req.mode "proxy"
      then check_proxy req.proxy_address
      else if same req.mode "nwc"
      then check_nwc req.nwc_connection_uri
      else passes none

  unfoldable pub with_sealed :
      UpdateRequest → ConnectionConfig → Outcome Bytes → Outcome LightningConfigUpdate
  with_sealed req c (failed e) = failed e
  with_sealed req c (done s) = done record {
    mode = req.mode;
    proxy_address = or_empty req.proxy_address;
    nwc_relay_url = c.relay_url;
    nwc_wallet_pubkey = c.wallet_pubkey;
    nwc_secret_encrypted = env.text_of s;
  }

  -- The update, with the secret of the wallet encrypted.
  unfoldable pub build_update :
      UpdateRequest → Option (Encryptor × ConnectionConfig) → Outcome LightningConfigUpdate
  build_update req none = done record {
    mode = req.mode;
    proxy_address = or_empty req.proxy_address;
    nwc_relay_url = "";
    nwc_wallet_pubkey = "";
    nwc_secret_encrypted = "";
  }
  build_update req (some (e, c)) = with_sealed req c (encrypt env.cipher e (utf8 (codes c.secret)))

  unfoldable pub update_held :
      UpdateRequest
      → Option (Encryptor × ConnectionConfig)
      → Result (Option Address)
      → Exec ConfigReply
  update_held req kept (err e) = pure (answered service_error)
  update_held req kept (ok none) =
      pure (answered (error_reply 404 "No address registered for this pubkey"))
  update_held req kept (ok (some a)) = store_config a.id (build_update req kept)

  unfoldable pub update_checked : String → UpdateRequest → Checked → Exec ConfigReply
  update_checked pubkey req (stops n message) = pure (answered (error_reply n message))
  update_checked pubkey req (passes kept) =
      try (get_primary_address_by_pubkey pubkey) >>= update_held req kept

  -- `Handler.updateLightningConfig`, past the parsing of the request.
  unfoldable pub update_lightning_config : String → UpdateRequest → Exec ConfigReply
  update_lightning_config pubkey req = update_checked pubkey req (check_request req)

-- ORDER BY is_primary DESC, created_at ASC
unfoldable pub listed_before : Address → Address → Bool
listed_before a b =
    if a.is_primary
    then not b.is_primary || ltb a.created_at b.created_at
    else not b.is_primary && ltb a.created_at b.created_at

-- `Storage.GetAddressesByPubkey`
unfoldable pub get_addresses_by_pubkey : String → Exec (List Address)
get_addresses_by_pubkey pubkey = auto (
    select λ db. map scanned (sort_by listed_before (select_where (active_of pubkey) db.addresses)))

-- The struct `AddressEntry`.
pub record AddressEntry : Type 0 where
  pub username : String
  pub domain : String
  pub is_primary : Bool
  pub nip05_active : Bool
  pub active : Bool
  pub verified : Bool
  pub display_name : Option String
  pub created_at : ℕ

unfoldable pub address_entry : Address → AddressEntry
address_entry a = record {
  username = a.username;
  domain = a.domain;
  is_primary = a.is_primary;
  nip05_active = a.nip05_active;
  active = a.active;
  verified = a.verified;
  display_name = a.display_name;
  created_at = a.created_at;
}

-- The struct `AddressResponse`.
pub record AddressResponse : Type 0 where
  pub username : String
  pub domain : String
  pub pubkey : String
  pub active : Bool
  pub verified : Bool
  pub is_primary : Bool
  pub nip05_active : Bool
  pub display_name : Option String
  pub addresses : List AddressEntry
  pub lightning : Option LightningConfigResponse
  pub relays : List String

-- A lookup that fails is logged and shows nothing.
unfoldable pub listed {ℓ} : {A : Type ℓ} → Result (List A) → List A
listed (err e) = []
listed (ok xs) = xs

unfoldable pub shown_config : Result (Option Lightning) → Option LightningConfigResponse
shown_config (ok (some l)) = some (config_response l)
shown_config _ = none

unfoldable pub show_address :
    (ℕ → Exec (List String))
    → String
    → Result (Option Address × Bool)
    → Exec (Reply AddressResponse)
show_address relays_of pubkey (err e) = pure service_error
show_address relays_of pubkey (ok (none, created)) =
    pure (error_reply 404 "No address registered for this pubkey")
show_address relays_of pubkey (ok (some a, created)) = do
  relays ← try (relays_of a.id)
  lightning ← try (get_lightning_config a.id)
  addresses ← try (get_addresses_by_pubkey pubkey)
  pure (
      typed 200 record {
        username = a.username;
        domain = a.domain;
        pubkey = a.pubkey;
        active = a.active;
        verified = a.verified;
        is_primary = a.is_primary;
        nip05_active = a.nip05_active;
        display_name = a.display_name;
        addresses = map address_entry (listed addresses);
        lightning = shown_config lightning;
        relays = listed relays;
      })

-- `Handler.getMyAddress`; the relays of an address are a parameter.
unfoldable pub get_my_address :
    Service → (ℕ → Exec (List String)) → String → Exec (Reply AddressResponse)
get_my_address svc relays_of pubkey =
    try (ensure_primary_address svc pubkey) >>= show_address relays_of pubkey
