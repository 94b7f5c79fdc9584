-- ===== src/Client/Nwc/Uri.antt =====
-- Connection URIs (internal/nwc/client.go).
use Prim.Native.Char.{Char, code}
use Prim.Native.String.{◌++◌ as ◌<>◌}
use text.Mathlib.TextEquality.{Char-path}
use text.Mathlib.TextLemmas.{nil-append, cons-append}
use cloistr_address.Base.{
  ◌≡◌, ◌≢◌, refl, sym, String, Bool, true, false, Option, none, some, ◌==◌, if◌then◌else◌, same,
  arith, Bool-cases, inl, inr, ne_of_same, same_ne,
}
use cloistr_address.Base.Texts.{
  codes, bytes_of, byte_length, after_prefix, before_cut, cut_at, contains,
}
use cloistr_address.Client.Nwc.{
  ConnectionConfig, Query, given, query_get, with_secret, with_query, scheme, with_parts,
  with_scheme, parse_connection_uri,
}

after_prefix-codes : (p s : String) → after_prefix (codes p) (p <> s) ≡ some s
unfolding after_prefix
after_prefix-codes String.[] s = rw (nil-append s) refl
after_prefix-codes (String.◌∷◌ c p) s =
    rw (cons-append c p s) (ground (arith, after_prefix-codes p s))

after_prefix-some : (p s t : String) → after_prefix (codes p) s ≡ some t → s ≡ p <> t
unfolding after_prefix
after_prefix-some String.[] s t h = rw (nil-append t) (ground arith)
after_prefix-some (String.◌∷◌ c p) String.[] t h = absurd cc
after_prefix-some (String.◌∷◌ c p) (String.◌∷◌ x s) t h =
    let e : code c ≡ code x = ground arith in
    let q : after_prefix (codes p) s ≡ some t = ground arith in
    rw (Char-path c x e, after_prefix-some p s t q, cons-append) refl

-- A text up to a character that it does not have.
cut_at-append :
    (c : Char) (l r : String)
    → contains (code c) (codes l) ≡ false
    → cut_at (code c) (l <> String.◌∷◌ c r) ≡ some (l, r)
unfolding cut_at contains before_cut
cut_at-append c String.[] r h = rw (nil-append (String.◌∷◌ c r)) (ground arith)
cut_at-append c (String.◌∷◌ x l) r h =
    let q : contains (code c) (codes l) ≡ false = ground arith in
    rw (cons-append x l (String.◌∷◌ c r)) (ground (arith, cut_at-append c l r q))

-- What `cut_at` says of the two parts it returns.
abbrev Cuts : Char → String → String → String → Type 0
Cuts c s l r = (s ≡ l <> String.◌∷◌ c r) × (contains (code c) (codes l) ≡ false)

Cuts-cons :
    (c x : Char) (s l r : String) (o : Option (String × String)) (b : Bool)
    → (code x == code c) ≡ b
    → ((l' r' : String) → o ≡ some (l', r') → Cuts c s l' r')
    → (if b then some ("", s) else before_cut x o) ≡ some (l, r)
    → Cuts c (String.◌∷◌ x s) l r
unfolding before_cut contains
Cuts-cons c x s l r o true q ih h =
    let e : "" ≡ l = ground arith in
    let f : s ≡ r = ground arith in
    let g : code x ≡ code c = ground arith in
    rw (sym e, sym f, nil-append (String.◌∷◌ c s), Char-path x c g) (refl, refl)
Cuts-cons c x s l r none false q ih h = absurd cc
Cuts-cons c x s l r (some (l', r')) false q ih h =
    let e : String.◌∷◌ x l' ≡ l = ground arith in
    let f : r' ≡ r = ground arith in
    let (cut, free) = ih l' r' refl in
    rw (sym e, sym f, cons-append x l' (String.◌∷◌ c r'), sym cut) (refl, ground arith)

cut_at-some : (c : Char) (s l r : String) → cut_at (code c) s ≡ some (l, r) → Cuts c s l r
unfolding cut_at
cut_at-some c String.[] l r h = absurd cc
cut_at-some c (String.◌∷◌ x s) l r h =
    Cuts-cons c x s l r (cut_at (code c) s) (code x == code c) refl
      (λ l' r' e. cut_at-some c s l' r' e) h

-- A URI that stands for a configuration: the scheme, a key of 64 bytes without a question mark, and
-- a query that has the relay and the secret.
pub record Writes (parse_query : String → Option Query) (uri : String) (c : ConnectionConfig)
    : Type 0 where
  pub query : String
  pub params : Query
  pub spelled : uri ≡ scheme <> (c.wallet_pubkey <> ("?" <> query))
  pub no_mark : contains b'?' (codes c.wallet_pubkey) ≡ false
  pub key_length : byte_length c.wallet_pubkey ≡ 64
  pub parsed : parse_query query ≡ some params
  pub relay : query_get "relay" params ≡ c.relay_url
  pub relay_given : c.relay_url ≢ ""
  pub secret : query_get "secret" params ≡ c.secret
  pub secret_length : byte_length c.secret ≡ 64

abbrev mark : Char
mark = "?"

mark-append : (s : String) → "?" <> s ≡ String.◌∷◌ mark s
mark-append s = rw (cons-append mark String.[] s, nil-append s) refl

secret_given : (s : String) → byte_length s ≡ 64 → same s "" ≡ false
secret_given s h = same_ne s "" (λ e. absurd (unfold byte_length bytes_of in cc (rw e at h)))

module _ (parse_query : String → Option Query) where
  -- Which fields the checks of the query leave.
  record Checked (pubkey : String) (ps : Query) (c : ConnectionConfig) : Type 0 where
    pub key : pubkey ≡ c.wallet_pubkey
    pub relay : query_get "relay" ps ≡ c.relay_url
    pub relay_given : c.relay_url ≢ ""
    pub secret : query_get "secret" ps ≡ c.secret
    pub secret_length : byte_length c.secret ≡ 64

  secret-Checked :
      (pubkey : String) (ps : Query) (c : ConnectionConfig)
      → same (query_get "relay" ps) "" ≡ false
      → with_secret pubkey (query_get "relay" ps) (query_get "secret" ps) ≡ given c
      → Checked pubkey ps c
  unfolding with_secret
  secret-Checked pubkey ps c f h =
      let p : pubkey ≡ c.wallet_pubkey = ground arith in
      let q : query_get "relay" ps ≡ c.relay_url = ground arith in
      let s : query_get "secret" ps ≡ c.secret = ground arith in
      record {
        key = p;
        relay = q;
        relay_given = rw (sym q) (ne_of_same _ _ f);
        secret = s;
        secret_length = ground arith;
      }

  query-Checked :
      (pubkey : String) (ps : Query) (c : ConnectionConfig)
      → with_query pubkey (some ps) ≡ given c
      → Checked pubkey ps c
  unfolding with_query
  query-Checked pubkey ps c h = elim (Bool-cases (same (query_get "relay" ps) "")) [
    | inl e ↦ absurd (cc (rw e at h))
    | inr e ↦ secret-Checked pubkey ps c e (rw e at h)
  ]

  query-Writes :
      (pubkey query : String) (c : ConnectionConfig) (o : Option Query)
      → contains b'?' (codes pubkey) ≡ false
      → byte_length pubkey ≡ 64
      → parse_query query ≡ o
      → with_query pubkey o ≡ given c
      → Writes parse_query (scheme <> (pubkey <> ("?" <> query))) c
  query-Writes pubkey query c none f k q h = absurd (unfold with_query in cc)
  query-Writes pubkey query c (some ps) f k q h =
      let d = query-Checked pubkey ps c h in
      record {
        query = query;
        params = ps;
        spelled = rw d.key refl;
        no_mark = rw (sym d.key) f;
        key_length = rw (sym d.key) k;
        parsed = q;
        relay = d.relay;
        relay_given = d.relay_given;
        secret = d.secret;
        secret_length = d.secret_length;
      }

  parts-Writes :
      (rest : String) (c : ConnectionConfig) (o : Option (String × String))
      → cut_at b'?' rest ≡ o
      → with_parts parse_query o ≡ given c
      → Writes parse_query (scheme <> rest) c
  unfolding with_parts
  parts-Writes rest c none e h = absurd cc
  parts-Writes rest c (some (pubkey, query)) e h =
      let (cut, free) = cut_at-some mark rest pubkey query e in
      elim (Bool-cases (byte_length pubkey == 64)) [
        | inl k ↦
            rw (cut, sym (mark-append query))
              (query-Writes pubkey query c _ free (ground arith) refl (rw k at h))
        | inr k ↦ absurd (cc (rw k at h))
      ]

  scheme-Writes :
      (uri : String) (c : ConnectionConfig) (o : Option String)
      → after_prefix (codes scheme) uri ≡ o
      → with_scheme parse_query o ≡ given c
      → Writes parse_query uri c
  unfolding with_scheme
  scheme-Writes uri c none e h = absurd cc
  scheme-Writes uri c (some rest) e h =
      rw (after_prefix-some scheme uri rest e) (parts-Writes rest c _ refl h)

  -- Whatever `ParseConnectionURI` returns, the URI spells it: the scheme, a key of 64 bytes, and
  -- a query with a relay that is not empty and a secret of 64 bytes.
  pub parse_connection_uri-Writes :
      (uri : String) (c : ConnectionConfig)
      → parse_connection_uri parse_query uri ≡ given c
      → Writes parse_query uri c
  unfolding parse_connection_uri
  parse_connection_uri-Writes uri c h = scheme-Writes uri c _ refl h

  -- `ParseConnectionURI` returns the configuration that a URI spells.
  pub Writes-parse_connection_uri :
      (uri : String) (c : ConnectionConfig)
      → Writes parse_query uri c
      → parse_connection_uri parse_query uri ≡ given c
  unfolding parse_connection_uri with_scheme with_parts with_query with_secret
  Writes-parse_connection_uri uri c w =
      rw
        (
          w.spelled,
          after_prefix-codes scheme (c.wallet_pubkey <> ("?" <> w.query)),
          mark-append w.query,
          cut_at-append mark c.wallet_pubkey w.query w.no_mark,
          w.key_length,
          w.parsed,
          w.relay,
          w.secret,
          same_ne c.relay_url "" w.relay_given,
          w.secret_length,
        )
        (rw (secret_given c.secret w.secret_length) refl)
