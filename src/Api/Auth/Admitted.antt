-- ===== src/Api/Auth/Admitted.antt =====
-- Who reaches a handler of the admin API (internal/api/admin.go).
use cloistr_address.Base.{
  ℕ, ◌≡◌, ◌⊎◌, refl, sym, ap, ◌∙◌, String, Bool, true, false, Option, none, some, inl, inr, arith,
  Bool-cases, same, eq_of_same, exists_where,
}
use cloistr_address.Base.Texts.{codes}
use cloistr_address.Db.Tables.{Db}
use cloistr_address.Db.Exec.{World, Result, ok, err, Exec, pure}
use cloistr_address.Db.Triple.{select_then}
use cloistr_address.Store.Admins.{is_platform_admin}
use cloistr_address.Client.Nip98.{
  Event, Request, Checks, Verdict, accepted, denied, get_tag_value, equal_fold, validate_request,
}
use cloistr_address.Client.Nip98.Accepts.{Carries, validate_request-Carries}
use cloistr_address.Api.Auth.{
  AdminReply, Admission, admitted, body_bearing, parsed_event, decoded_event, parse_nip98_event,
  payload_error, body_error, authorized, bound, with_event, with_verdict, admin_auth,
}

module _ (c : Checks) (max_drift now : ℕ) (sha256 : String → String) where
  -- A body that the signed event vouches for: none is expected, it is empty, or its hash is in the event.
  pub BodyBound : Event → Request → Option String → Type 0
  BodyBound e r body =
      (body_bearing r.method ≡ false)
      ⊎ ((b : String) × (body ≡ some b)
          × ((b ≡ "")
              ⊎ (equal_fold c.fold (codes (get_tag_value "payload" e.tags)) (codes (sha256 b))
                  ≡ true)))

  -- What an admitted request carries: a signed event of the admin, in which the body is bound.
  pub record FromAdmin (r : Request) (body : Option String) (db : Db) (pubkey sig : String)
      : Type 0 where
    pub carries : Carries c max_drift now r pubkey
    pub signature : carries.event.sig ≡ sig
    pub body_bound : BodyBound carries.event r body
    pub is_admin : exists_where (same pubkey) db.admins ≡ true

  payload_error-none :
      (e : Event) (b : String)
      → payload_error c max_drift now sha256 e b ≡ none
      → (b ≡ "")
        ⊎ (equal_fold c.fold (codes (get_tag_value "payload" e.tags)) (codes (sha256 b)) ≡ true)
  unfolding payload_error
  payload_error-none e b h = elim (Bool-cases (same b "")) [
    | inl q ↦ inl (eq_of_same b "" q)
    | inr q ↦ inr (ground arith)
  ]

  body_error-none :
      (e : Event) (r : Request) (body : Option String)
      → body_error c max_drift now sha256 e r body ≡ none
      → BodyBound e r body
  unfolding body_error BodyBound
  body_error-none e r none h = inl (ground arith)
  body_error-none e r (some b) h = elim (Bool-cases (body_bearing r.method)) [
    | inr q ↦ inl q
    | inl q ↦ inr (b, refl, payload_error-none e b (rw q at h))
  ]

  authorized-admitted :
      (caller : String) (e : Event) (r : Request) (path : String) (x : Result Bool)
      (pubkey sig : String)
      → authorized c max_drift now sha256 caller e r path x ≡ admitted pubkey sig
      → (x ≡ ok true) × (caller ≡ pubkey) × (e.sig ≡ sig)
  unfolding authorized
  authorized-admitted caller e r path (err x) pubkey sig h = absurd cc
  authorized-admitted caller e r path (ok true) pubkey sig h = (refl, ground arith, ground arith)
  authorized-admitted caller e r path (ok false) pubkey sig h = absurd (ground arith)

  bound-admitted :
      (caller : String) (e : Event) (r : Request) (path : String) (o : Option AdminReply)
      (w : World) (pubkey sig : String)
      → (bound c max_drift now sha256 caller e r path o w).0 ≡ ok (admitted pubkey sig)
      → (o ≡ none)
        × (caller ≡ pubkey)
        × (e.sig ≡ sig)
        × (exists_where (same caller) w.db.admins ≡ true)
  unfolding bound is_platform_admin
  bound-admitted caller e r path (some reply) w pubkey sig h = absurd cc
  bound-admitted caller e r path none w pubkey sig h =
      let s =
        select_then (λ db. exists_where (same caller) db.admins)
          (λ x. pure (authorized c max_drift now sha256 caller e r path x)) w in
      let (x, own, signature) =
        authorized-admitted caller e r path s.result pubkey sig
          (ok-injective _ _ (sym (ap (λ (p : Result Admission × World). p.0) s.runs) ∙ h)) in
      (refl, own, signature, s.found true x)
    where
      ok-injective : (a b : Admission) → ok a ≡ ok b → a ≡ b
      ok-injective a b h = ground arith

  parse-carried :
      (r : Request) (pubkey : String) (k : Carries c max_drift now r pubkey)
      → parse_nip98_event c max_drift now sha256 r ≡ some k.event
  unfolding parse_nip98_event decoded_event parsed_event
  parse-carried r pubkey k = simp (k.header, k.decoded) k.parsed

  with_event-FromAdmin :
      (caller : String) (r : Request) (body : Option String) (path : String) (w : World)
      (pubkey sig : String) (k : Carries c max_drift now r caller)
      → (with_event c max_drift now sha256 caller r body path (some k.event) w).0
        ≡ ok (admitted pubkey sig)
      → FromAdmin r body w.db pubkey sig
  unfolding with_event
  with_event-FromAdmin caller r body path w pubkey sig k h =
      let (fine, own, signature, admin) = bound-admitted caller k.event r path _ w pubkey sig h in
      rw (sym own) (record {
        carries = k;
        signature = signature;
        body_bound = body_error-none k.event r body fine;
        is_admin = admin;
      })

  with_verdict-FromAdmin :
      (r : Request) (body : Option String) (path : String) (v : Verdict) (w : World)
      (pubkey sig : String)
      → validate_request c max_drift now r ≡ v
      → (with_verdict c max_drift now sha256 r body path v w).0 ≡ ok (admitted pubkey sig)
      → FromAdmin r body w.db pubkey sig
  unfolding with_verdict
  with_verdict-FromAdmin r body path (denied x) w pubkey sig q h = absurd cc
  with_verdict-FromAdmin r body path (accepted caller) w pubkey sig q h =
      let k = validate_request-Carries c max_drift now r caller q in
      with_event-FromAdmin caller r body path w pubkey sig k (rw (parse-carried r caller k) at h)

  -- The middleware admits a request only with an event of an enabled platform admin that passes
  -- NIP-98, signed over the hash of the body where the method carries one, and it passes on that
  -- event's pubkey and signature.
  pub admin_auth-FromAdmin :
      (r : Request) (body : Option String) (path : String) (w : World) (pubkey sig : String)
      → (admin_auth c max_drift now sha256 r body path w).0 ≡ ok (admitted pubkey sig)
      → FromAdmin r body w.db pubkey sig
  unfolding admin_auth
  admin_auth-FromAdmin r body path w pubkey sig h =
      with_verdict-FromAdmin r body path _ w pubkey sig refl h
