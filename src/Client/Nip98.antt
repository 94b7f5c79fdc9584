-- ===== src/Client/Nip98.antt =====
-- The authentication of a request (internal/auth/nip98.go). The base64 and JSON decoders, the check
-- of an event's signature (go-nostr), and the folding of letters of strings.EqualFold are parameters.
pub mod Accepts
use Prim.Native.String.{◌++◌ as ◌<>◌}
use cloistr_address.Base.{
  ℕ, ◌+◌, ◌-◌, String, Bool, true, false, not, ◌&&◌, ◌||◌, Option, none, some, List, [], ◌∷◌, ltb,
  leb, ◌==◌, if◌then◌else◌, same,
}
use cloistr_address.Base.Texts.{codes, after_prefix}

pub data AuthError : Type 0 where
  missing_auth : AuthError
  invalid_format : AuthError
  invalid_base64 : AuthError
  invalid_event : AuthError
  wrong_kind : AuthError
  invalid_sig : AuthError
  expired_event : AuthError
  missing_url : AuthError
  url_mismatch : AuthError
  missing_method : AuthError
  method_mismatch : AuthError

-- The fields of nostr.Event that the validator reads.
pub record Event : Type 0 where
  pub pubkey : String
  pub kind : ℕ
  pub created_at : ℕ
  pub tags : List (List String)
  pub sig : String

-- The fields of http.Request that it reads; the headers are "" where they are missing.
pub record Request : Type 0 where
  pub authorization : String
  pub tls : Bool
  pub forwarded_proto : String
  pub forwarded_host : String
  pub host : String
  pub path : String
  pub raw_query : String
  pub method : String

unfoldable pub nip98_kind : ℕ
nip98_kind = 27235

-- `getTagValue`: the second item of the first tag with this name.
unfoldable pub get_tag_value : String → List (List String) → String
get_tag_value name [] = ""
get_tag_value name ((t ∷ v ∷ rest) ∷ tags) = if same t name then v else get_tag_value name tags
get_tag_value name (tag ∷ tags) = get_tag_value name tags

abbrev or_header : String → String → String
or_header header default = if same header "" then default else header

-- `buildRequestURL`
unfoldable pub build_request_url : Request → String
build_request_url r =
    let scheme = or_header r.forwarded_proto (if r.tls then "https" else "http") in
    let host = or_header r.forwarded_host r.host in
    let path = if same r.raw_query "" then r.path else r.path <> ("?" <> r.raw_query) in
    scheme <> ("://" <> (host <> path))

-- strings.TrimSuffix(s, "/"), on code points.
unfoldable pub trim_slash : List ℕ → List ℕ
trim_slash [] = []
trim_slash (c ∷ []) = if c == b'/' then [] else c ∷ []
trim_slash (c ∷ d ∷ ds) = c ∷ trim_slash (d ∷ ds)

-- The distance of two times: `time.Since`, without its sign.
unfoldable pub drift : ℕ → ℕ → ℕ
drift now t = (now - t) + (t - now)

-- What the validator takes from elsewhere: strings.EqualFold compares the letters that `fold`
-- makes of the characters (Unicode's simple folding).
pub record Checks : Type 0 where
  pub decode_base64 : String → Option String
  pub parse_event : String → Option Event
  pub check_signature : Event → Bool
  pub fold : ℕ → ℕ

unfoldable pub equal_fold : (ℕ → ℕ) → List ℕ → List ℕ → Bool
equal_fold fold [] [] = true
equal_fold fold (x ∷ xs) (y ∷ ys) = fold x == fold y && equal_fold fold xs ys
equal_fold fold _ _ = false

unfoldable pub equal_codes : List ℕ → List ℕ → Bool
equal_codes [] [] = true
equal_codes (x ∷ xs) (y ∷ ys) = x == y && equal_codes xs ys
equal_codes _ _ = false

-- `urlMatches`
unfoldable pub url_matches : (ℕ → ℕ) → String → String → Bool
url_matches fold a b =
    let x = trim_slash (codes a) in
    let y = trim_slash (codes b) in if equal_codes x y then true else equal_fold fold x y

pub data Verdict : Type 0 where
  accepted : String → Verdict
  denied : AuthError → Verdict

module _ (c : Checks) (max_drift now : ℕ) where
  -- `NIP98Validator.validateEvent`: the first check that fails, if one does.
  unfoldable pub validate_event : Event → Request → Option AuthError
  validate_event e r =
      if not (e.kind == nip98_kind)
      then some wrong_kind
      else if not (c.check_signature e)
      then some invalid_sig
      else if ltb max_drift (drift now e.created_at)
      then some expired_event
      else if same (get_tag_value "u" e.tags) ""
      then some missing_url
      else if not (url_matches c.fold (get_tag_value "u" e.tags) (build_request_url r))
      then some url_mismatch
      else if same (get_tag_value "method" e.tags) ""
      then some missing_method
      else if not (equal_fold c.fold (codes (get_tag_value "method" e.tags)) (codes r.method))
      then some method_mismatch
      else none

  unfoldable pub validate_parsed : Request → Option Event → Verdict
  validate_parsed r none = denied invalid_event
  validate_parsed r (some e) = elim (validate_event e r) [
    | none ↦ accepted e.pubkey
    | some x ↦ denied x
  ]

  unfoldable pub validate_decoded : Request → Option String → Verdict
  validate_decoded r none = denied invalid_base64
  validate_decoded r (some json) = validate_parsed r (c.parse_event json)

  unfoldable pub validate_stripped : Request → Option String → Verdict
  validate_stripped r none = denied invalid_format
  validate_stripped r (some encoded) = validate_decoded r (c.decode_base64 encoded)

  -- `NIP98Validator.ValidateRequest`
  unfoldable pub validate_request : Request → Verdict
  validate_request r =
      if same r.authorization ""
      then denied missing_auth
      else validate_stripped r (after_prefix (codes "Nostr ") r.authorization)
