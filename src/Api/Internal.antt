-- ===== src/Api/Internal.antt =====
-- The API for the other services (internal/api/internal.go).
pub mod Verified
use Prim.Native.String.{◌++◌ as ◌<>◌}
use cloistr_address.Base.{
  ℕ, ◌+◌, String, Bool, true, false, not, ◌&&◌, ◌||◌, Option, none, some, List, [], ◌∷◌, ◌==◌,
  if◌then◌else◌, same,
}
use cloistr_address.Base.Texts.{byte_length}
use cloistr_address.Db.Tables.{Address}
use cloistr_address.Db.Exec.{Result, ok, err, Exec, pure, ◌>>=◌, ◌>>◌, try}
use cloistr_address.Store.Credits.{add_credits, get_credits}
use cloistr_address.Store.Addresses.Rows.{get_address_by_username}
use cloistr_address.Api.Http.{text, texts, Reply, typed, fields, error_reply}
use cloistr_address.Api.Gateway.{or_none}

-- `Handler.internalAuthMiddleware`: the status and error that it aborts with, if it does.
unfoldable pub internal_auth : String → String → Option (ℕ × String)
internal_auth secret header =
    if same secret ""
    then some (503, "Internal API not configured")
    else if same header ("Bearer " <> secret)
    then none
    else some (401, "Invalid authorization")

-- The struct `GrantCreditsResponse`; its `success` is always true.
pub record GrantCreditsResponse : Type 0 where
  pub pubkey : String
  pub amount_sats : ℕ
  pub new_balance : ℕ
  pub reference_id : String

unfoldable pub is_valid_reason : String → Bool
is_valid_reason r =
    same r "relay_bundle"
    || same r "relay_upgrade"
    || same r "promotional"
    || same r "admin_grant"
    || same r "referral"

unfoldable pub answer_grant :
    String → ℕ → String → Result (Unit {0}) → Exec (Reply GrantCreditsResponse)
answer_grant pubkey amount reference (err e) = pure (error_reply 500 "Failed to grant credits")
answer_grant pubkey amount reference (ok u) = do
  balance ← try (get_credits pubkey)
  pure (
      typed 200 record {
        pubkey = pubkey;
        amount_sats = amount;
        new_balance = or_none balance;
        reference_id = reference;
      })

-- `Handler.grantCredits`, past the parsing of the request.
unfoldable pub grant_credits : String → ℕ → String → String → Exec (Reply GrantCreditsResponse)
grant_credits pubkey amount reason reference =
    if not (byte_length pubkey == 64)
    then pure (error_reply 400 "Invalid pubkey format")
    else if not (is_valid_reason reason)
    then pure (
        fields 400 (
          ("error", text "Invalid reason")
          ∷ (
            "valid_reasons",
            texts (
                "relay_bundle" ∷ "relay_upgrade" ∷ "promotional" ∷ "admin_grant" ∷ "referral" ∷ []),
          )
          ∷ []))
    else try (add_credits pubkey amount reason reference) >>= answer_grant pubkey amount reference

-- The struct `VerifyAddressResponse`; `none` in place of a struct is `Valid: false` alone.
pub record VerifiedAddress : Type 0 where
  pub address_id : ℕ
  pub username : String
  pub pubkey : String
  pub display_name : Option String

-- What `verifyAddress` does: an answer, or the panic of a nil dereference.
pub data VerifyOutcome : Type 0 where
  rejected : ℕ → String → VerifyOutcome
  invalid : VerifyOutcome
  valid : VerifiedAddress → VerifyOutcome
  panicked : VerifyOutcome

unfoldable pub verify_found : String → Result (Option Address) → VerifyOutcome
verify_found pubkey (err e) = invalid
verify_found pubkey (ok none) = panicked
verify_found pubkey (ok (some a)) =
    if not (same a.pubkey pubkey)
    then invalid
    else if not a.active
    then invalid
    else valid record {
      address_id = a.id;
      username = a.username;
      pubkey = a.pubkey;
      display_name = a.display_name;
    }

-- `Handler.verifyAddress`
unfoldable pub verify_address : String → String → String → Exec VerifyOutcome
verify_address domain username pubkey =
    if same username ""
    then pure (rejected 400 "username parameter required")
    else if same pubkey ""
    then pure (rejected 400 "pubkey parameter required")
    else if not (byte_length pubkey == 64)
    then pure (rejected 400 "Invalid pubkey format")
    else try (get_address_by_username username domain) >>= (λ r. pure (verify_found pubkey r))
