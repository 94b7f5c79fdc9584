-- ===== src/Tests/Wallet.antt =====
-- The theorems on keys, connection URIs and wallets at concrete values.
use cloistr_address.Base.{
  ℕ, zero, suc, ◌≡◌, refl, ap, String, Bool, true, false, Option, none, some, List, [], ◌∷◌, ◌==◌,
  length, arith, ne_of_same, same, if◌then◌else◌,
}
use cloistr_address.Base.Signed.{pos}
use cloistr_address.Client.Crypto.{
  Bytes, Outcome, done, Cipher, Encryptor, hex_decode, hex_encode, new_encryptor, encrypt, decrypt,
  generate_key,
}
use cloistr_address.Client.Crypto.Hex.{AreBytes, none_left, byte, hex_decode-hex_encode}
use cloistr_address.Client.Crypto.AtRest.{Documented, decrypt-encrypt, generate_key-works}
use cloistr_address.Client.Nwc.{
  ConnectionConfig, Query, given, parse_connection_uri, Codec, Relay, Client, Response, Invoice,
  InvoiceRequest, make_invoice,
}
use cloistr_address.Client.Nwc.Uri.{
  Writes, parse_connection_uri-Writes, Writes-parse_connection_uri,
}
use cloistr_address.Client.Nwc.Answers.{Received, make_invoice-Received}

hex_decode-hex_encode_example :
    hex_decode (hex_encode (0 ∷ 171 ∷ 255 ∷ [])) ≡ done (0 ∷ 171 ∷ 255 ∷ [])
hex_decode-hex_encode_example =
    hex_decode-hex_encode (0 ∷ 171 ∷ 255 ∷ [])
      (byte (omega arith) (byte (omega arith) (byte (omega arith) none_left)))

abbrev zeros : ℕ → Bytes
zeros zero = []
zeros (suc n) = 0 ∷ zeros n

zeros-AreBytes : (n : ℕ) → AreBytes (zeros n)
zeros-AreBytes zero = none_left
zeros-AreBytes (suc n) = byte (omega arith) (zeros-AreBytes n)

length-zeros : (n : ℕ) → length (zeros n) ≡ n
length-zeros zero = refl
length-zeros (suc n) = omega (arith, length-zeros n)

-- A cipher that hides nothing.
abbrev open_book : Cipher
open_book = record {
  accepts = λ k. length k == 32;
  nonce_size = 2;
  seal = λ k n p. p;
  open_sealed = λ k n s. some s;
  encode_base64 = λ s. s;
  decode_base64 = λ s. some s;
  random = λ n. some (zeros n);
}

some-injective : (r s : Bytes) → some r ≡ some s → r ≡ s
some-injective r s h = ground arith

open_book-Documented : Documented open_book
open_book-Documented = record {
  accepts = λ k h. ground arith;
  opens = λ k n p h. refl;
  decodes = λ s. refl;
  random = λ n r h. rw (← some-injective (zeros n) r h) (zeros-AreBytes n, length-zeros n);
}

abbrev zero_key : Encryptor
zero_key = record { key = zeros 32 }

decrypt-encrypt_example :
    decrypt open_book zero_key (0 ∷ 0 ∷ 104 ∷ 105 ∷ []) ≡ done (104 ∷ 105 ∷ [])
unfolding new_encryptor encrypt hex_encode cloistr_address.Client.Crypto.new_from_decoded hex_decode
    cloistr_address.Client.Crypto.hex_pairs cloistr_address.Client.Crypto.with_byte
    cloistr_address.Client.Crypto.second_digit cloistr_address.Client.Crypto.add_digit
    cloistr_address.Client.Crypto.shift_in cloistr_address.Client.Crypto.hex_digit
    cloistr_address.Client.Crypto.byte_at cloistr_address.Client.Crypto.hex_chars
    cloistr_address.Client.Crypto.encrypt_with
decrypt-encrypt_example =
    decrypt-encrypt open_book open_book-Documented (hex_encode (zeros 32)) zero_key (104 ∷ 105 ∷ [])
      (0 ∷ 0 ∷ 104 ∷ 105 ∷ []) refl refl

generate_key-works_example :
    (e : Encryptor) × (ciphertext : Bytes) × (new_encryptor (hex_encode (zeros 32)) ≡ done e)
    × (encrypt open_book e (104 ∷ []) ≡ done ciphertext)
    × (decrypt open_book e ciphertext ≡ done (104 ∷ []))
unfolding generate_key cloistr_address.Client.Crypto.key_of_random
generate_key-works_example =
    generate_key-works open_book open_book-Documented (hex_encode (zeros 32)) (104 ∷ [])
      (0 ∷ 0 ∷ []) refl refl

abbrev wallet_key : String
wallet_key = "aaaaaaaabbbbbbbbccccccccddddddddaaaaaaaabbbbbbbbccccccccdddddddd"

abbrev client_key : String
client_key = "1111111122222222333333334444444411111111222222223333333344444444"

abbrev wallet_uri : String
wallet_uri =
    "nostr+walletconnect://aaaaaaaabbbbbbbbccccccccddddddddaaaaaaaabbbbbbbbccccccccdddddddd?q"

abbrev read_query : String → Option Query
read_query q = some (("relay", "wss://relay.io") ∷ ("secret", client_key) ∷ [])

abbrev wallet_config : ConnectionConfig
wallet_config = record {
  wallet_pubkey = wallet_key;
  relay_url = "wss://relay.io";
  secret = client_key;
}

wallet_uri-Writes : Writes read_query wallet_uri wallet_config
wallet_uri-Writes = record {
  query = "q";
  params = ("relay", "wss://relay.io") ∷ ("secret", client_key) ∷ [];
  spelled = refl;
  no_mark = unfold cloistr_address.Base.Texts.contains in refl;
  key_length =
      unfold cloistr_address.Base.Texts.byte_length cloistr_address.Base.Texts.bytes_of in refl;
  parsed = refl;
  relay = unfold cloistr_address.Client.Nwc.query_get same in refl;
  relay_given = ne_of_same "wss://relay.io" "" (unfold same in refl);
  secret = unfold cloistr_address.Client.Nwc.query_get same in refl;
  secret_length =
      unfold cloistr_address.Base.Texts.byte_length cloistr_address.Base.Texts.bytes_of in refl;
}

Writes-parse_connection_uri_example :
    parse_connection_uri read_query wallet_uri ≡ given wallet_config
Writes-parse_connection_uri_example =
    Writes-parse_connection_uri read_query wallet_uri wallet_config wallet_uri-Writes

parse_connection_uri-Writes_example : Writes read_query wallet_uri wallet_config
unfolding parse_connection_uri cloistr_address.Client.Nwc.with_scheme
    cloistr_address.Base.Texts.after_prefix cloistr_address.Client.Nwc.with_parts
    cloistr_address.Base.Texts.cut_at cloistr_address.Base.Texts.before_cut
    cloistr_address.Base.Texts.byte_length cloistr_address.Client.Nwc.with_query same
    cloistr_address.Client.Nwc.query_get cloistr_address.Client.Nwc.with_secret
parse_connection_uri-Writes_example =
    parse_connection_uri-Writes read_query wallet_uri wallet_config refl

-- A wallet that knows only NIP-04, behind a relay that brings one event of another's first.
abbrev old_codec : Codec
old_codec = record {
  encrypt_nip44 = λ s. some s;
  decrypt_nip44 = λ s. none;
  encrypt_nip04 = λ s. some s;
  decrypt_nip04 = λ s. if same s "noise" then none else some s;
}

abbrev small_relay : Relay
small_relay = record {
  connects = λ u. true;
  marshal = λ r. "request";
  signs = λ s. true;
  subscribes = true;
  publishes = λ s. true;
  contents = "noise" ∷ "reply" ∷ [];
  parse_response = λ s. some (record { error = none; result = s });
  parse_invoice = λ s. some (record { invoice = "lnbc1"; payment_hash = "0123456789" });
}

abbrev connected_client : Client
connected_client = record {
  config = wallet_config;
  client_pubkey = "pk";
  client_secret = client_key;
  connected = true;
  use_nip44 = true;
}

make_invoice-Received_example :
    Received old_codec small_relay (record { invoice = "lnbc1"; payment_hash = "0123456789" })
    × (connected_client.connected ≡ true)
unfolding make_invoice cloistr_address.Client.Nwc.invoice_of cloistr_address.Client.Nwc.send_request
    cloistr_address.Client.Nwc.send_encrypted cloistr_address.Client.Nwc.encrypt
    cloistr_address.Client.Nwc.awaited cloistr_address.Client.Nwc.first_response
    cloistr_address.Client.Nwc.or_later cloistr_address.Client.Nwc.handle_response
    cloistr_address.Client.Nwc.fall_back cloistr_address.Client.Nwc.decrypt
    cloistr_address.Client.Nwc.with_nip04 cloistr_address.Client.Nwc.parsed_response same
    cloistr_address.Client.Nwc.wallet_answer cloistr_address.Client.Nwc.parsed_invoice
make_invoice-Received_example =
    make_invoice-Received old_codec small_relay connected_client
      (record { amount = pos 1000; description = []; expiry = 3600 })
      (record { invoice = "lnbc1"; payment_hash = "0123456789" }) refl
