-- ===== src/Api/Addresses.antt =====
-- The address of the caller (internal/api/management.go, ensure_address.go).
pub mod Cooldown
use cloistr_address.Base.{
  ℕ, ◌+◌, ◌*◌, ◌/◌, String, Bool, true, false, not, ◌&&◌, ◌||◌, Option, none, some, List, [], ◌∷◌,
  map, ltb, leb, ◌==◌, if◌then◌else◌, same, length, select_where,
}
use cloistr_address.Base.Texts.{codes, byte_length}
use cloistr_address.Db.Tables.{Address, Lightning}
use cloistr_address.Db.Exec.{Result, ok, err, Exec, pure, ◌>>=◌, ◌>>◌, try, select, auto}
use cloistr_address.Store.Addresses.Rows.{
  scanned, get_primary_address_by_pubkey, is_username_available,
}
use cloistr_address.Store.Addresses.Transfer.{transfer_address}
use cloistr_address.Store.Catalog.{is_username_reserved}
use cloistr_address.Store.Identity.{ensure_user_row, ensure_auto_address}
use cloistr_address.Api.Http.{
  text, Fields, Service, Reply, typed, fields, error_reply, service_error,
}
use cloistr_address.Api.Pricing.{NamePrice, price_name_for}
use cloistr_address.Api.Status.{all_chars}

-- The struct `UsernameAvailabilityResponse`.
pub record UsernameAvailabilityResponse : Type 0 where
  pub username : String
  pub available : Bool
  pub price_sats : ℕ
  pub tier : String
  pub additional : Bool
  pub reason : String

abbrev unavailable : String → String → UsernameAvailabilityResponse
unavailable username reason = record {
  username = username;
  available = false;
  price_sats = 0;
  tier = "";
  additional = false;
  reason = reason;
}

abbrev Availability : Type 0
Availability = Exec (Reply UsernameAvailabilityResponse)

-- A failed check of the reservation leaves the general reason.
unfoldable pub taken_reason : Result Bool → String
taken_reason (ok true) = "This username is reserved."
taken_reason _ = "Username is already taken."

unfoldable pub answer_priced : String → Result NamePrice → Availability
answer_priced username (err e) = pure service_error
answer_priced username (ok p) = pure (
    typed 200 record {
      username = username;
      available = true;
      price_sats = p.price_sats;
      tier = p.tier;
      additional = p.additional;
      reason = "";
    })

unfoldable pub answer_availability : Service → String → String → Result Bool → Availability
answer_availability svc pubkey username (err e) = pure service_error
answer_availability svc pubkey username (ok true) =
    try (price_name_for svc username pubkey) >>= answer_priced username
answer_availability svc pubkey username (ok false) = do
  reserved ← try (is_username_reserved svc.lower username)
  pure (typed 200 (unavailable username (taken_reason reserved)))

unfoldable pub format_reason : String
format_reason =
    "Invalid username format. Must be 2-50 characters, lowercase letters, numbers, underscore, or hyphen."

-- `Handler.checkUsernameAvailability`; the pubkey is "" where the caller is not known.
unfoldable pub check_username_availability : Service → String → String → Availability
check_username_availability svc pubkey username =
    if not (svc.is_valid_human_name username)
    then pure (typed 200 (unavailable username format_reason))
    else try (is_username_available svc.lower username) >>= answer_availability svc pubkey username

-- Whether the address read back is the one that was made.
unfoldable pub is_made : Result (Option Address) → Option Address → Bool
is_made (ok (some made)) (some a) = made.id == a.id
is_made _ _ = false

unfoldable pub ensure_missing : Service → String → Option Address → Exec (Option Address × Bool)
ensure_missing svc pubkey (some a) = pure (some a, false)
ensure_missing svc pubkey none = do
  made ← try (ensure_auto_address svc.generate svc.lower pubkey svc.domain)
  addr ← get_primary_address_by_pubkey pubkey
  pure (addr, is_made made addr)

-- `Handler.ensurePrimaryAddress`: the address, and whether this call made it.
unfoldable pub ensure_primary_address : Service → String → Exec (Option Address × Bool)
ensure_primary_address svc pubkey =
    get_primary_address_by_pubkey pubkey >>= ensure_missing svc pubkey

unfoldable pub is_hex_digit : ℕ → Bool
is_hex_digit c = leb b'0' c && leb c b'9' || leb b'a' c && leb c b'f'

-- `hexPubkey`: ^[0-9a-f]{64}$
unfoldable pub is_hex_pubkey : String → Bool
unfolding all_chars is_hex_digit
is_hex_pubkey s = length (codes s) == 64 && all_chars is_hex_digit (codes s)

-- The struct `EnsureAddressResponse`.
pub record EnsureAddressResponse : Type 0 where
  pub username : String
  pub domain : String
  pub pubkey : String
  pub verified : Bool
  pub created : Bool

unfoldable pub answer_ensured : Result (Option Address × Bool) → Exec (Reply EnsureAddressResponse)
answer_ensured (ok (some a, created)) = pure (
    typed 200 record {
      username = a.username;
      domain = a.domain;
      pubkey = a.pubkey;
      verified = a.verified;
      created = created;
    })
answer_ensured _ = pure service_error

unfoldable pub ensure_known :
    Service → String → Result (Unit {0}) → Exec (Reply EnsureAddressResponse)
ensure_known svc pubkey (err e) = pure service_error
ensure_known svc pubkey (ok u) = try (ensure_primary_address svc pubkey) >>= answer_ensured

-- `Handler.internalEnsureAddress`; a request that cannot be parsed is answered like a bad pubkey.
unfoldable pub internal_ensure_address : Service → String → Exec (Reply EnsureAddressResponse)
internal_ensure_address svc pubkey =
    if not (is_hex_pubkey pubkey)
    then pure (error_reply 400 "pubkey must be 64 lowercase hex characters")
    else try (ensure_user_row pubkey) >>= ensure_known svc pubkey

-- `AddDate(0, 0, 7)` of the time of the last transfer.
unfoldable pub cooldown : ℕ
cooldown = 7 * 86400

unfoldable pub cooling : ℕ → Option ℕ → Bool
cooling now none = false
cooling now (some t) = ltb now (t + cooldown)

unfoldable pub answer_transfer : Address → String → Result (Unit {0}) → Exec (Reply (Unit {0}))
answer_transfer a new_pubkey (err e) = pure (error_reply 500 "Transfer failed")
answer_transfer a new_pubkey (ok u) = pure (
    fields 200 (
      ("message", text "Address transferred successfully")
      ∷ ("username", text a.username)
      ∷ ("new_pubkey", text new_pubkey)
      ∷ []))

-- The time of the end of the cooldown, which the answer shows, is left out of the model.
unfoldable pub transfer_held : String → ℕ → Result (Option Address) → Exec (Reply (Unit {0}))
transfer_held new_pubkey now (err e) = pure service_error
transfer_held new_pubkey now (ok none) =
    pure (error_reply 404 "No address registered for this pubkey")
transfer_held new_pubkey now (ok (some a)) =
    if cooling now a.last_transfer_at
    then pure (error_reply 425 "Transfer cooldown active")
    else try (transfer_address a.id new_pubkey) >>= answer_transfer a new_pubkey

-- `Handler.transferAddress`, past the parsing of the request.
unfoldable pub transfer_address_handler : String → String → Exec (Reply (Unit {0}))
transfer_address_handler pubkey new_pubkey w =
    (if not (byte_length new_pubkey == 64)
        then pure (error_reply 400 "Invalid pubkey format")
        else if same new_pubkey pubkey
        then pure (error_reply 400 "Cannot transfer to yourself")
        else try (get_primary_address_by_pubkey pubkey) >>= transfer_held new_pubkey w.now)
      w
