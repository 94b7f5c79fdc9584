-- ===== src/Api/Wallet.antt =====
-- Invoices from a connected wallet (internal/api/lnurlp.go, handleNWCInvoice).
use Prim.Native.String.{◌++◌ as ◌<>◌}
use cloistr_address.Base.{
  ℕ, String, ◌||◌, Option, none, some, [], ◌∷◌, ◌++◌, ltb, if◌then◌else◌, same,
}
use cloistr_address.Base.Signed.{ℤ}
use cloistr_address.Base.Texts.{codes, utf8, byte_length}
use cloistr_address.Db.Tables.{Lightning}
use cloistr_address.Db.Exec.{Exec, pure, ◌>>◌, try}
use cloistr_address.Store.Identity.{update_nwc_success, update_nwc_error}
use cloistr_address.Client.Crypto.{Bytes, Outcome, done, failed, Cipher, Encryptor, decrypt}
use cloistr_address.Client.Nwc.{
  ConnectionConfig, NwcError, Answer, given, refused, Codec, Relay, Client, Invoice, new_client,
  connect, make_invoice,
}
use cloistr_address.Api.Proxy.{CallbackReply, lnurl_error, invoice, panicked}

-- What the handler takes from elsewhere: AES-GCM, nostr.GetPublicKey, the encryptions for a
-- connection, the relay, `err.Error()`, and the text of the decrypted bytes.
pub record Wallets : Type 0 where
  pub encryptor : Option Encryptor
  pub cipher : Cipher
  pub public_key : String → Option String
  pub codec : ConnectionConfig → Codec
  pub relay : Relay
  pub describe : NwcError → String
  pub text_of : Bytes → String

-- COALESCE(column, '')
unfoldable pub or_empty : Option String → String
or_empty none = ""
or_empty (some s) = s

unfoldable pub description : String → String → Bytes → Bytes
description username domain [] = utf8 (codes ("Payment to " <> (username <> ("@" <> domain))))
description username domain (c ∷ cs) =
    utf8 (codes ("Payment to " <> (username <> ("@" <> (domain <> ": "))))) ++ (c ∷ cs)

-- The log line slices the hash, `PaymentHash[:8]`, before the response is written.
unfoldable pub invoice_reply : Invoice → CallbackReply
invoice_reply i =
    if ltb (byte_length i.payment_hash) 8
    then panicked
    else invoice (record { pr = i.invoice; routes = []; success_action = none })

module _ (env : Wallets) (domain : String) where
  unfoldable pub answer_wallet : ℕ → Answer Invoice → Exec CallbackReply
  answer_wallet id (refused e) =
      try (update_nwc_error id (env.describe e))
      >> pure (lnurl_error "Failed to generate invoice from wallet")
  answer_wallet id (given i) = try (update_nwc_success id) >> pure (invoice_reply i)

  unfoldable pub with_connection : ℕ → String → ℤ → Bytes → Answer Client → Exec CallbackReply
  with_connection id username amount comment (refused e) =
      pure (lnurl_error "Failed to connect to wallet relay")
  with_connection id username amount comment (given c) = answer_wallet id (
      make_invoice (env.codec c.config) env.relay c record {
        amount = amount;
        description = description username domain comment;
        expiry = 3600;
      })

  unfoldable pub with_client : ℕ → String → ℤ → Bytes → Answer Client → Exec CallbackReply
  with_client id username amount comment (refused e) =
      pure (lnurl_error "Failed to connect to wallet")
  with_client id username amount comment (given c) =
      with_connection id username amount comment (connect (env.codec c.config) env.relay c)

  unfoldable pub with_plain : Lightning → String → ℤ → Bytes → Outcome Bytes → Exec CallbackReply
  with_plain l username amount comment (failed e) =
      pure (lnurl_error "Failed to process NWC configuration")
  with_plain l username amount comment (done secret) =
      with_client l.address_id username amount comment (
        new_client env.public_key record {
          wallet_pubkey = or_empty l.nwc_wallet_pubkey;
          relay_url = or_empty l.nwc_relay_url;
          secret = env.text_of secret;
        })

  unfoldable pub with_encryptor :
      Lightning → String → ℤ → Bytes → Option Encryptor → Exec CallbackReply
  with_encryptor l username amount comment none = pure (lnurl_error "NWC not configured on server")
  with_encryptor l username amount comment (some e) =
      if same (or_empty l.nwc_secret_encrypted) ""
        || (same (or_empty l.nwc_relay_url) "" || same (or_empty l.nwc_wallet_pubkey) "")
      then pure (lnurl_error "NWC not configured for this user")
      else with_plain l username amount comment
          (decrypt env.cipher e (utf8 (codes (or_empty l.nwc_secret_encrypted))))

  -- `handleNWCInvoice`
  unfoldable pub handle_nwc_invoice : Lightning → ℤ → Bytes → String → Exec CallbackReply
  handle_nwc_invoice l amount comment username =
      with_encryptor l username amount comment env.encryptor
