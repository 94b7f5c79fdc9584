-- ===== src/Tests/Lnurlp.antt =====
-- The theorems on Lightning payments at concrete requests.
use cloistr_address.Base.{
  ℕ, ◌≡◌, refl, String, Bool, true, false, Option, none, some, List, [], ◌∷◌, arith, ne_of_same,
  same,
}
use cloistr_address.Base.Signed.{pos}
use cloistr_address.Base.Texts.{codes, utf8}
use cloistr_address.Base.Scan.{scan_int}
use cloistr_address.Db.Tables.{Db, Lightning}
use cloistr_address.Db.Exec.{World, ok, calm}
use cloistr_address.Client.Crypto.{Bytes}
use cloistr_address.Client.Nwc.{Relay, Codec}
use cloistr_address.Api.Proxy.{
  CallbackResponse, invoice, ProxyConfig, Url, Web, body, Params, invoice_query,
}
use cloistr_address.Api.Proxy.Query.{Commented, param_of, invoice_query-CutTo}
use cloistr_address.Api.Wallet.{Wallets}
use cloistr_address.Api.Lnurlp.{
  Origin, ConfigResponse, config, handle_lnurlp_config, handle_lnurlp_callback,
}
use cloistr_address.Api.Lnurlp.Bounds.{Payable, handle_lnurlp_callback-Payable}
use cloistr_address.Api.Lnurlp.Tracking.{OnlyTracking, handle_lnurlp_callback-OnlyTracking}
use cloistr_address.Api.Lnurlp.Announced.{Served, handle_lnurlp_callback-Served}
use cloistr_address.Tests.{two_names}

-- The name "ada" forwards to a provider.
abbrev forwarding : Lightning
forwarding = record {
  address_id = 1;
  mode = "proxy";
  proxy_address = some "ada@pay.io";
  nwc_relay_url = none;
  nwc_wallet_pubkey = none;
  nwc_secret_encrypted = none;
  nwc_last_success_at = none;
  nwc_last_error = none;
  nwc_error_count = 0;
  min_sendable_msats = 1000;
  max_sendable_msats = 100000;
  comment_allowed = 5;
  allows_nostr = true;
  enabled = true;
}

abbrev pub payable : Db
payable = record two_names { lightning = forwarding ∷ [] }

abbrev provider_invoice : CallbackResponse
provider_invoice = record { pr = "lnbc1"; routes = []; success_action = none }

-- A provider that takes comments of five bytes.
abbrev provider : Web
provider = record {
  fetch = λ u. body "{}";
  parse_config = λ s. some (record { callback = "https://pay.io/cb"; comment_allowed = pos 5 });
  parse_url = λ s. some (record { base = s; query = [] });
  render = λ u. u.base;
  parse_error = λ s. none;
  parse_invoice = λ s. some provider_invoice;
  show = λ n. "2000";
}

abbrev no_codec : Codec
no_codec = record {
  encrypt_nip44 = λ s. none;
  decrypt_nip44 = λ s. none;
  encrypt_nip04 = λ s. none;
  decrypt_nip04 = λ s. none;
}

abbrev no_relay : Relay
no_relay = record {
  connects = λ u. false;
  marshal = λ r. "";
  signs = λ s. false;
  subscribes = false;
  publishes = λ s. false;
  contents = [];
  parse_response = λ s. none;
  parse_invoice = λ s. none;
}

abbrev pub no_wallets : Wallets
no_wallets = record {
  encryptor = none;
  cipher = record {
    accepts = λ k. false;
    nonce_size = 12;
    seal = λ k n p. p;
    open_sealed = λ k n s. none;
    encode_base64 = λ s. s;
    decode_base64 = λ s. none;
    random = λ n. none;
  };
  public_key = λ s. none;
  codec = λ c. no_codec;
  relay = no_relay;
  describe = λ e. "";
  text_of = λ s. "";
}

abbrev remark : Bytes
remark = utf8 (codes "thank you")

handle_lnurlp_callback-Payable_example : Payable payable "ada" "cloistr.xyz" "2000"
unfolding handle_lnurlp_callback same cloistr_address.Api.Lnurlp.callback_amount scan_int
    cloistr_address.Base.Scan.is_space cloistr_address.Base.Scan.read_signed
    cloistr_address.Base.Scan.read_unsigned cloistr_address.Base.Scan.is_digit
    cloistr_address.Base.Scan.in_int64 cloistr_address.Base.Scan.read_digits
    cloistr_address.Api.Lnurlp.callback_address
    cloistr_address.Store.Addresses.Rows.get_address_by_username cloistr_address.Db.Exec.auto
    cloistr_address.Db.Exec.statement cloistr_address.Base.find_where
    cloistr_address.Store.Addresses.Rows.active_name cloistr_address.Db.Schema.has_name
    cloistr_address.Api.Lnurlp.callback_lightning cloistr_address.Api.Lnurlp.bounds_error
    cloistr_address.Api.Lnurlp.invoice_for cloistr_address.Api.Lnurlp.out_of_bounds
    cloistr_address.Api.Proxy.callback_parsed cloistr_address.Api.Proxy.checked_error
    cloistr_address.Api.Proxy.config_fetched cloistr_address.Api.Proxy.config_parsed
    cloistr_address.Api.Proxy.handle_proxy_invoice cloistr_address.Api.Proxy.invoice_fetched
    invoice_query cloistr_address.Api.Proxy.parsed_invoice cloistr_address.Api.Proxy.proxied
    cloistr_address.Api.Proxy.set_comment cloistr_address.Api.Proxy.set_param
    cloistr_address.Api.Proxy.without cloistr_address.Api.Wallet.or_empty
    cloistr_address.Base.Texts.before_cut cloistr_address.Base.Texts.byte_length
    cloistr_address.Base.Texts.bytes_of cloistr_address.Base.Texts.cut_at
    cloistr_address.Base.Texts.encode_rune utf8 cloistr_address.Client.Crypto.take
    cloistr_address.Store.Addresses.Rows.lightning_of cloistr_address.Store.Addresses.Rows.scanned
    cloistr_address.Store.Identity.get_lightning_config
handle_lnurlp_callback-Payable_example =
    handle_lnurlp_callback-Payable provider no_wallets "cloistr.xyz" "ada" remark provider_invoice
      "2000" (calm payable 1000 0) refl

handle_lnurlp_callback-OnlyTracking_example :
    OnlyTracking payable
      (handle_lnurlp_callback provider no_wallets "cloistr.xyz" "ada" "2000" remark
        (calm payable 1000 0)).1.db
handle_lnurlp_callback-OnlyTracking_example =
    handle_lnurlp_callback-OnlyTracking provider no_wallets "cloistr.xyz" "ada" "2000" remark
      (calm payable 1000 0)

abbrev here : Origin
here = record { tls = true; host = "me.io" }

abbrev announced : ConfigResponse
announced = record {
  tag = "payRequest";
  callback = "https://me.io/.well-known/lnurlp/ada/callback";
  min_sendable = 1000;
  max_sendable = 100000;
  metadata = "[[\"text/identifier\",\"ada@cloistr.xyz\"]]";
  comment_allowed = 5;
  allows_nostr = true;
  nostr_pubkey = "pk";
}

handle_lnurlp_callback-Served_example :
    Served provider no_wallets "cloistr.xyz" "ada" remark 2000 payable
      (handle_lnurlp_callback provider no_wallets "cloistr.xyz" "ada" "2000" remark
        (calm payable 1000 0)).0
unfolding handle_lnurlp_config scan_int cloistr_address.Api.Lnurlp.config_address
    cloistr_address.Store.Addresses.Rows.get_address_by_username cloistr_address.Db.Exec.auto
    cloistr_address.Db.Exec.statement cloistr_address.Base.find_where
    cloistr_address.Store.Addresses.Rows.active_name cloistr_address.Db.Schema.has_name same
    cloistr_address.Api.Lnurlp.config_lightning cloistr_address.Store.Identity.get_lightning_config
    cloistr_address.Store.Addresses.Rows.lightning_of cloistr_address.Store.Addresses.Rows.scanned
    cloistr_address.Api.Lnurlp.config_of cloistr_address.Api.Lnurlp.callback_url
    cloistr_address.Api.Lnurlp.metadata_of cloistr_address.Base.Scan.is_space
    cloistr_address.Base.Scan.read_signed cloistr_address.Base.Scan.read_unsigned
    cloistr_address.Base.Scan.in_int64 cloistr_address.Base.Scan.is_digit
    cloistr_address.Base.Scan.read_digits cloistr_address.Base.Texts.starts
handle_lnurlp_callback-Served_example =
    handle_lnurlp_callback-Served provider no_wallets "cloistr.xyz" "ada" "2000" remark 2000
      announced here payable 1000 0 refl refl (omega arith) (omega arith)

invoice_query-CutTo_example :
    (param_of "amount" (invoice_query provider (pos 2000) remark (pos 5) [])
      ≡ some (utf8 (codes "2000")))
    × Commented
        (pos 5)
        remark
        (param_of "comment" [])
        (param_of "comment" (invoice_query provider (pos 2000) remark (pos 5) []))
invoice_query-CutTo_example = invoice_query-CutTo provider (pos 2000) remark (pos 5) []
