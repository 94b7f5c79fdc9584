-- ===== src/Api/Auth.antt =====
-- The admission of a request to the admin API (internal/api/admin.go, adminAuthMiddleware). The
-- body is `none` where it cannot be read; the SHA-256 of a body, in hexadecimal, is a parameter.
pub mod Admitted
use cloistr_address.Base.{
  ℕ, String, Bool, true, false, not, ◌&&◌, ◌||◌, Option, none, some, List, [], ◌∷◌, ◌==◌,
  if◌then◌else◌, same,
}
use cloistr_address.Base.Texts.{codes, byte_length, after_prefix}
use cloistr_address.Db.Exec.{Error, not_found, Result, ok, err, Exec, pure, ◌>>=◌, try}
use cloistr_address.Store.Admins.{is_platform_admin}
use cloistr_address.Client.Crypto.{hex_digit}
use cloistr_address.Client.Nip98.{
  Event, Request, Checks, Verdict, accepted, denied, get_tag_value, equal_fold, validate_request,
}
use cloistr_address.Api.Http.{Json, text, flag, Fields}

-- Status and body.
abbrev pub AdminReply : Type 0
AdminReply = ℕ × Fields

abbrev pub refuse : ℕ → String → AdminReply
refuse n s = (n, ("error", text s) ∷ [])

abbrev pub success : AdminReply
success = (200, ("success", flag true) ∷ [])

-- `abortStore`
unfoldable pub abort_store : Error → String → AdminReply
abort_store not_found msg = refuse 404 "not found"
abort_store e msg = refuse 500 msg

unfoldable pub is_hex : ℕ → Bool
is_hex c = elim (hex_digit c) [ none ↦ false | some d ↦ true ]

unfoldable pub all_hex : List ℕ → Bool
all_hex [] = true
all_hex (c ∷ cs) = is_hex c && all_hex cs

-- `validPubkey`: 64 bytes that hex.DecodeString takes.
unfoldable pub valid_pubkey : String → Bool
valid_pubkey pk = byte_length pk == 64 && all_hex (codes pk)

-- `bodyBearing`
unfoldable pub body_bearing : String → Bool
body_bearing method = same method "POST" || (same method "PUT" || same method "PATCH")

-- What the middleware does: it passes the admin's pubkey and signature on, or answers itself.
pub data Admission : Type 0 where
  admitted : String → String → Admission
  stopped : AdminReply → Admission

module _ (c : Checks) (max_drift now : ℕ) (sha256 : String → String) where
  -- `parseNIP98Event`
  unfoldable pub parsed_event : Option String → Option Event
  parsed_event none = none
  parsed_event (some json) = c.parse_event json

  unfoldable pub decoded_event : Option String → Option Event
  decoded_event none = none
  decoded_event (some encoded) = parsed_event (c.decode_base64 encoded)

  unfoldable pub parse_nip98_event : Request → Option Event
  parse_nip98_event r = decoded_event (after_prefix (codes "Nostr ") r.authorization)

  -- The body's hash against the tag "payload": what the middleware answers, if it does.
  unfoldable pub payload_error : Event → String → Option AdminReply
  payload_error e body =
      let want = get_tag_value "payload" e.tags in
      if same body ""
      then none
      else if same want ""
      then some (refuse 401 "Signed request missing payload tag for body")
      else if not (equal_fold c.fold (codes want) (codes (sha256 body)))
      then some (refuse 401 "Body does not match signed payload hash")
      else none

  unfoldable pub body_error : Event → Request → Option String → Option AdminReply
  body_error e r none = if body_bearing r.method then some (refuse 400 "Cannot read body") else none
  body_error e r (some body) = if body_bearing r.method then payload_error e body else none

  -- The last check, of the caller's role; `full_path` is gin's pattern of the route.
  unfoldable pub authorized : String → Event → Request → String → Result Bool → Admission
  authorized pubkey e r full_path (err x) = stopped (refuse 500 "authz check failed")
  authorized pubkey e r full_path (ok true) = admitted pubkey e.sig
  authorized pubkey e r full_path (ok false) =
      if same r.method "GET" && same full_path "/admin/v1/me"
      then stopped (200, ("pubkey", text pubkey) ∷ ("is_platform_admin", flag false) ∷ [])
      else stopped (refuse 403 "Not a platform admin")

  unfoldable pub bound : String → Event → Request → String → Option AdminReply → Exec Admission
  bound pubkey e r full_path (some reply) = pure (stopped reply)
  bound pubkey e r full_path none =
      try (is_platform_admin pubkey) >>= (λ x. pure (authorized pubkey e r full_path x))

  unfoldable pub with_event :
      String → Request → Option String → String → Option Event → Exec Admission
  with_event pubkey r body full_path none = pure (stopped (refuse 401 "Invalid auth event"))
  with_event pubkey r body full_path (some e) = bound pubkey e r full_path (body_error e r body)

  unfoldable pub with_verdict : Request → Option String → String → Verdict → Exec Admission
  with_verdict r body full_path (denied x) = pure (stopped (refuse 401 "Authentication required"))
  with_verdict r body full_path (accepted pubkey) =
      with_event pubkey r body full_path (parse_nip98_event r)

  -- `Handler.adminAuthMiddleware`
  unfoldable pub admin_auth : Request → Option String → String → Exec Admission
  admin_auth r body full_path = with_verdict r body full_path (validate_request c max_drift now r)

-- A route: the handler runs only behind an admission.
unfoldable pub behind : (String → String → Exec AdminReply) → Admission → Exec AdminReply
behind handler (stopped reply) = pure reply
behind handler (admitted pubkey sig) = handler pubkey sig

unfoldable pub admin_route : Exec Admission → (String → String → Exec AdminReply) → Exec AdminReply
admin_route auth handler = auth >>= behind handler
