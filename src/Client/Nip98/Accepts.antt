-- ===== src/Client/Nip98/Accepts.antt =====
-- Which requests pass (internal/auth/nip98.go).
use cloistr_address.Base.{
  ℕ, ◌≤◌, ◌≡◌, refl, String, true, Option, none, some, arith, Option-cases, inl, inr,
}
use cloistr_address.Base.Texts.{codes, after_prefix}
use cloistr_address.Client.Nip98.{
  Event, Request, Checks, accepted, nip98_kind, drift, url_matches, build_request_url,
  get_tag_value, equal_fold, validate_event, validate_parsed, validate_decoded, validate_stripped,
  validate_request,
}

-- What an event must be for a request, in the words of NIP-98.
pub record Fits (c : Checks) (max_drift now : ℕ) (e : Event) (r : Request) : Type 0 where
  pub kind : e.kind ≡ 27235
  pub signed : c.check_signature e ≡ true
  pub fresh : drift now e.created_at ≤ max_drift
  pub url : url_matches c.fold (get_tag_value "u" e.tags) (build_request_url r) ≡ true
  pub method : equal_fold c.fold (codes (get_tag_value "method" e.tags)) (codes r.method) ≡ true

module _ (c : Checks) (max_drift now : ℕ) where
  validate_event-Fits :
      (e : Event) (r : Request)
      → validate_event c max_drift now e r ≡ none
      → Fits c max_drift now e r
  unfolding validate_event nip98_kind
  validate_event-Fits e r h = record {
    kind = ground arith;
    signed = ground arith;
    fresh = ground arith;
    url = ground arith;
    method = ground arith;
  }

  -- What the header of an accepted request carries.
  pub record Carries (r : Request) (pubkey : String) : Type 0 where
    pub encoded : String
    pub json : String
    pub event : Event
    pub header : after_prefix (codes "Nostr ") r.authorization ≡ some encoded
    pub decoded : c.decode_base64 encoded ≡ some json
    pub parsed : c.parse_event json ≡ some event
    pub signer : event.pubkey ≡ pubkey
    pub fits : Fits c max_drift now event r

  parsed :
      (r : Request) (pubkey : String) (e : Event)
      → validate_parsed c max_drift now r (some e) ≡ accepted pubkey
      → (e.pubkey ≡ pubkey) × (validate_event c max_drift now e r ≡ none)
  unfolding validate_parsed
  parsed r pubkey e k = ground arith

  decoded :
      (r : Request) (pubkey s json : String) (o : Option Event)
      → after_prefix (codes "Nostr ") r.authorization ≡ some s
      → c.decode_base64 s ≡ some json
      → c.parse_event json ≡ o
      → validate_parsed c max_drift now r o ≡ accepted pubkey
      → Carries r pubkey
  decoded r pubkey s json none a b q k = absurd (unfold validate_parsed in cc)
  decoded r pubkey s json (some e) a b q k =
      let (own, valid) = parsed r pubkey e k in
      record {
        encoded = s;
        json = json;
        event = e;
        header = a;
        decoded = b;
        parsed = q;
        signer = own;
        fits = validate_event-Fits e r valid;
      }

  stripped :
      (r : Request) (pubkey : String) (a : Option String)
      → after_prefix (codes "Nostr ") r.authorization ≡ a
      → validate_stripped c max_drift now r a ≡ accepted pubkey
      → Carries r pubkey
  unfolding validate_stripped validate_decoded
  stripped r pubkey none q k = absurd cc
  stripped r pubkey (some s) q k = elim (Option-cases (c.decode_base64 s)) [
    | inl n ↦ absurd (cc (rw n at k))
    | inr (json, e) ↦ decoded r pubkey s json (c.parse_event json) q e refl (rw e at k)
  ]

  pub validate_request-Carries :
      (r : Request) (pubkey : String)
      → validate_request c max_drift now r ≡ accepted pubkey
      → Carries r pubkey
  unfolding validate_request
  validate_request-Carries r pubkey h = stripped r pubkey _ refl (ground arith)
