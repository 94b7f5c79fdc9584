-- ===== src/Client/Nwc.antt =====
-- Nostr Wallet Connect (internal/nwc/client.go): the connection URI and the request of an invoice.
-- The relay, the wallet, the two encryptions, the JSON codec and url.ParseQuery are parameters.
pub mod Uri
pub mod Answers
use Prim.Native.String.{◌++◌ as ◌<>◌}
use cloistr_address.Base.{
  ℕ, String, Bool, true, false, Option, none, some, List, [], ◌∷◌, ◌==◌, if◌then◌else◌, same,
}
use cloistr_address.Base.Signed.{ℤ}
use cloistr_address.Base.Texts.{codes, byte_length, after_prefix, cut_at}

-- The struct `ConnectionConfig`.
pub record ConnectionConfig : Type 0 where
  pub wallet_pubkey : String
  pub relay_url : String
  pub secret : String

-- How a call of the client fails.
pub data NwcError : Type 0 where
  invalid_uri : String → NwcError
  invalid_secret : NwcError
  not_connected : NwcError
  relay_failed : NwcError
  encryption : NwcError
  sign_failed : NwcError
  subscribe_failed : NwcError
  publish_failed : NwcError
  no_answer : NwcError
  wallet_error : String → String → NwcError
  parse_failed : NwcError

pub data Answer (A : Type 0) : Type 0 where
  given : A → Answer A
  refused : NwcError → Answer A

abbrev pub Query : Type 0
Query = List (String × String)

-- url.Values.Get: the first value of a key, or "".
unfoldable pub query_get : String → Query → String
query_get k [] = ""
query_get k ((j, v) ∷ ps) = if same j k then v else query_get k ps

unfoldable pub with_secret : String → String → String → Answer ConnectionConfig
with_secret pubkey relay secret =
    if same secret ""
    then refused (invalid_uri "missing secret parameter")
    else if byte_length secret == 64
    then given (record { wallet_pubkey = pubkey; relay_url = relay; secret = secret })
    else refused (invalid_uri "invalid secret length")

unfoldable pub with_query : String → Option Query → Answer ConnectionConfig
with_query pubkey none = refused (invalid_uri "invalid query parameters")
with_query pubkey (some ps) =
    if same (query_get "relay" ps) ""
    then refused (invalid_uri "missing relay parameter")
    else with_secret pubkey (query_get "relay" ps) (query_get "secret" ps)

abbrev pub scheme : String
scheme = "nostr+walletconnect://"

module _ (parse_query : String → Option Query) where
  unfoldable pub with_parts : Option (String × String) → Answer ConnectionConfig
  with_parts none = refused (invalid_uri "missing query parameters")
  with_parts (some (pubkey, query)) =
      if byte_length pubkey == 64
      then with_query pubkey (parse_query query)
      else refused (invalid_uri "invalid wallet pubkey length")

  unfoldable pub with_scheme : Option String → Answer ConnectionConfig
  with_scheme none = refused (invalid_uri "must start with nostr+walletconnect://")
  with_scheme (some rest) = with_parts (cut_at b'?' rest)

  -- `ParseConnectionURI`
  unfoldable pub parse_connection_uri : String → Answer ConnectionConfig
  parse_connection_uri uri = with_scheme (after_prefix (codes scheme) uri)

-- The structs `MakeInvoiceRequest`, whose description is a sequence of bytes, and
-- `MakeInvoiceResponse`.
pub record InvoiceRequest : Type 0 where
  pub amount : ℤ
  pub description : List ℕ
  pub expiry : ℕ

pub record Invoice : Type 0 where
  pub invoice : String
  pub payment_hash : String

-- The struct `NWCResponse`; `result` is the raw JSON, `error` the code and the message.
pub record Response : Type 0 where
  pub error : Option (String × String)
  pub result : String

-- The two encryptions between this client and the wallet, each with the agreement on its key.
pub record Codec : Type 0 where
  pub encrypt_nip44 : String → Option String
  pub decrypt_nip44 : String → Option String
  pub encrypt_nip04 : String → Option String
  pub decrypt_nip04 : String → Option String

-- What the relay and the other packages do for one request: the contents of the events that the
-- subscription brings before the 30 seconds or the caller's context end, in their order.
pub record Relay : Type 0 where
  pub connects : String → Bool
  pub marshal : InvoiceRequest → String
  pub signs : String → Bool
  pub subscribes : Bool
  pub publishes : String → Bool
  pub contents : List String
  pub parse_response : String → Option Response
  pub parse_invoice : String → Option Invoice

-- The struct `Client`: `connected` is whether `relay` is set.
pub record Client : Type 0 where
  pub config : ConnectionConfig
  pub client_pubkey : String
  pub client_secret : String
  pub connected : Bool
  pub use_nip44 : Bool

unfoldable pub client_of_key : ConnectionConfig → Option String → Answer Client
client_of_key config none = refused invalid_secret
client_of_key config (some pubkey) = given record {
  config = config;
  client_pubkey = pubkey;
  client_secret = config.secret;
  connected = false;
  use_nip44 = true;
}

-- `NewClient`, with nostr.GetPublicKey as a parameter.
unfoldable pub new_client : (String → Option String) → ConnectionConfig → Answer Client
new_client public_key config = client_of_key config (public_key config.secret)

unfoldable pub client_of_uri : (String → Option String) → Answer ConnectionConfig → Answer Client
client_of_uri public_key (refused e) = refused e
client_of_uri public_key (given config) = new_client public_key config

-- `NewClientFromURI`
unfoldable pub new_client_from_uri :
    (String → Option Query) → (String → Option String) → String → Answer Client
new_client_from_uri parse_query public_key uri =
    client_of_uri public_key (parse_connection_uri parse_query uri)

-- `Client.SetEncryptionMode`
unfoldable pub set_encryption_mode : Bool → Client → Client
set_encryption_mode b c = record c { use_nip44 = b }

module _ (k : Codec) where
  -- `Client.encrypt`
  unfoldable pub encrypt : Client → String → Option String
  encrypt c content = if c.use_nip44 then k.encrypt_nip44 content else k.encrypt_nip04 content

  -- `Client.decrypt`
  unfoldable pub decrypt : Client → String → Option String
  decrypt c content = if c.use_nip44 then k.decrypt_nip44 content else k.decrypt_nip04 content

module _ (k : Codec) (r : Relay) where
  -- `Client.Connect`
  unfoldable pub connect : Client → Answer Client
  connect c =
      if r.connects c.config.relay_url
      then given (record c { connected = true })
      else refused relay_failed

  unfoldable pub parsed_response : Option String → Option Response
  parsed_response none = none
  parsed_response (some decrypted) = r.parse_response decrypted

  -- Without a plaintext under NIP-44, the client turns to NIP-04 and tries again.
  unfoldable pub with_nip04 : Client → String → Option Response × Client
  with_nip04 c content = (parsed_response (decrypt k c content), c)

  unfoldable pub fall_back : Client → String → Option String → Option Response × Client
  fall_back c content (some decrypted) = (r.parse_response decrypted, c)
  fall_back c content none =
      if c.use_nip44 then with_nip04 (record c { use_nip44 = false }) content else (none, c)

  -- `Client.handleResponse`, with the client it leaves.
  unfoldable pub handle_response : Client → String → Option Response × Client
  handle_response c content = fall_back c content (decrypt k c content)

  unfoldable pub or_later : Option Response × Client → Option Response → Option Response
  or_later (some response, c) later = some response
  or_later (none, c) later = later

  -- The goroutine of `sendRequest`: the first event that is a response.
  unfoldable pub first_response : Client → List String → Option Response
  first_response c [] = none
  first_response c (content ∷ contents) =
      let handled = handle_response c content in
      or_later handled (first_response handled.1 contents)

  unfoldable pub wallet_answer : Option (String × String) → String → Answer String
  wallet_answer (some (code, text)) result = refused (wallet_error code text)
  wallet_answer none result = given result

  unfoldable pub awaited : Option Response → Answer String
  awaited none = refused no_answer
  awaited (some response) = wallet_answer response.error response.result

  -- Sign, subscribe, publish and wait.
  unfoldable pub send_encrypted : Client → Option String → Answer String
  send_encrypted c none = refused encryption
  send_encrypted c (some content) =
      if r.signs content
      then if r.subscribes
        then if r.publishes content
          then awaited (first_response c r.contents)
          else refused publish_failed
        else refused subscribe_failed
      else refused sign_failed

  -- `Client.sendRequest`, up to the result of the response.
  unfoldable pub send_request : Client → InvoiceRequest → Answer String
  send_request c request = send_encrypted c (encrypt k c (r.marshal request))

  unfoldable pub parsed_invoice : Option Invoice → Answer Invoice
  parsed_invoice none = refused parse_failed
  parsed_invoice (some i) = given i

  unfoldable pub invoice_of : Answer String → Answer Invoice
  invoice_of (refused e) = refused e
  invoice_of (given result) = parsed_invoice (r.parse_invoice result)

  -- `Client.MakeInvoice`
  unfoldable pub make_invoice : Client → InvoiceRequest → Answer Invoice
  make_invoice c request =
      if c.connected then invoice_of (send_request c request) else refused not_connected
