-- ===== src/Api/Config/Stored.antt =====
-- What an update of the Lightning configuration stores (internal/api/management.go).
use cloistr_address.Base.{
  ℕ, ◌≡◌, refl, sym, String, Bool, true, ◌||◌, ◌&&◌, Option, none, some, List, [], ◌∷◌, ◌⊎◌, inl,
  inr, arith, Bool-cases, Option-cases, find_where, exists_where, update_where,
}
use cloistr_address.Db.Tables.{Db, Address, Lightning}
use cloistr_address.Db.Exec.{World, Result, ok, err, database, Error, statement, auto}
use cloistr_address.Db.Triple.{select_then}
use cloistr_address.Store.Addresses.Rows.{
  active_primary_of, scan, lightning_of, get_primary_address_by_pubkey,
}
use cloistr_address.Store.Identity.{
  LightningConfigUpdate, inserted_config, updated_config, config_allowed, upserted, upsert_config,
  upsert_lightning_config_full, get_lightning_config,
}
use cloistr_address.Client.Crypto.{Bytes, Outcome, done, failed, Encryptor, encrypt}
use cloistr_address.Client.Nwc.{ConnectionConfig, Query}
use cloistr_address.Base.Texts.{codes, utf8}
use cloistr_address.Api.Lnurlp.Bounds.{scan-some}
use cloistr_address.Api.Http.{typed, fields, text}
use cloistr_address.Api.Wallet.{Wallets}
use cloistr_address.Api.Config.{
  LightningConfigResponse, config_response, UpdateRequest, Checked, stops, passes, ConfigReply,
  answered, panicked, answer_config, fetch_config, store_config, check_request, with_sealed,
  build_update, update_held, update_checked, update_lightning_config,
}

-- An updated row is found under the test that found it.
find_where-update_where {ℓ} :
    {A : Type ℓ} (p : A → Bool) (f : A → A)
    → ((x : A) → p x ≡ true → p (f x) ≡ true)
    → (xs : List A) → exists_where p xs ≡ true
    → (x : A) × (find_where p (update_where p f xs) ≡ some (f x))
unfolding find_where exists_where update_where
find_where-update_where p f k [] h = absurd cc
find_where-update_where p f k (x ∷ xs) h = elim (Bool-cases (p x)) [
  | inl e ↦ (x, rw (e, k x e) refl)
  | inr e ↦ let rest = find_where-update_where p f k xs (rw e at h) in (rest.0, rw (e, e) rest.1)
]

-- The row of an address, with a mode.
record HasMode (db : Db) (id : ℕ) (mode : String) : Type 0 where
  lightning : Lightning
  found : find_where (lightning_of id) db.lightning ≡ some lightning
  as_asked : lightning.mode ≡ mode

inserted-HasMode :
    (id : ℕ) (u : LightningConfigUpdate) (db : Db)
    → HasMode (record db { lightning = inserted_config id u ∷ db.lightning }) id u.mode
unfolding inserted_config lightning_of find_where
inserted-HasMode id u db = record {
  lightning = inserted_config id u;
  found = ground arith;
  as_asked = refl;
}

updated-HasMode :
    (id : ℕ) (u : LightningConfigUpdate) (db : Db)
    → exists_where (lightning_of id) db.lightning ≡ true
    → HasMode
        (record db { lightning = update_where (lightning_of id) (updated_config u) db.lightning })
        id
        u.mode
unfolding lightning_of updated_config
updated-HasMode id u db h =
    let row =
      find_where-update_where (lightning_of id) (updated_config u) (λ x e. e) db.lightning h in
    record { lightning = updated_config u row.0; found = row.1; as_asked = refl }

upsert_config-HasMode :
    (id : ℕ) (u : LightningConfigUpdate) (db db' : Db)
    → upsert_config id u db ≡ some db'
    → (db'.addresses ≡ db.addresses) × HasMode db' id u.mode
unfolding upsert_config
upsert_config-HasMode id u db db' h =
    elim (Bool-cases (config_allowed (inserted_config id u) && config_allowed (upserted id u db))) [
      | inr a ↦ absurd (cc (rw a at h))
      | inl a ↦ elim (Bool-cases (exists_where (lightning_of id) db.lightning)) [
        | inl e ↦
            let state : (record db {
              lightning = update_where (lightning_of id) (updated_config u) db.lightning;
            })
                ≡ db' =
              cc (rw (a, e) at h) in
            rw (← state) (refl, updated-HasMode id u db e)
        | inr e ↦
            let state : (record db { lightning = inserted_config id u ∷ db.lightning }) ≡ db' =
              cc (rw (a, e) at h) in
            rw (← state) (refl, inserted-HasMode id u db)
      ]
    ]

-- The configuration of the caller's primary address, as it is shown.
pub record Configured (db : Db) (pubkey : String) (req : UpdateRequest)
    (r : LightningConfigResponse) : Type 0 where
  pub address : Address
  pub lightning : Lightning
  pub primary : find_where (active_primary_of pubkey) db.addresses ≡ some address
  pub configured : find_where (lightning_of address.id) db.lightning ≡ some lightning
  pub as_asked : lightning.mode ≡ req.mode
  pub shown : r ≡ config_response lightning

-- What an answer says of the database before and after the request: the configuration is stored
-- where it is shown, an error that is answered left the database alone or is the one that says
-- that the configuration was updated, and the handler neither panics nor stops.
unfoldable pub Sound : String → UpdateRequest → Db → Result ConfigReply → Db → Type 0
Sound pubkey req before (err e) after = ⊥
Sound pubkey req before (ok panicked) after = ⊥
Sound pubkey req before (ok (answered (typed n r))) after = Configured after pubkey req r
Sound pubkey req before (ok (answered (fields n f))) after =
    (after ≡ before) ⊎ (f ≡ ("error", text "Configuration updated but failed to fetch result") ∷ [])

module _ (pubkey : String) (req : UpdateRequest) (before : Db) where
  fetch_config-Sound :
      (row a : Address) (w : World)
      → find_where (active_primary_of pubkey) w.db.addresses ≡ some row
      → row.id ≡ a.id
      → HasMode w.db a.id req.mode
      → Sound pubkey req before (fetch_config a.id (ok tt) w).0 (fetch_config a.id (ok tt) w).1.db
  unfolding fetch_config get_lightning_config answer_config Sound auto statement
  fetch_config-Sound row a w p i m = elim (Bool-cases (w.aborted || w.fault w.tick)) [
    | inl x ↦ rw x (inr refl)
    | inr x ↦
        rw (x, m.found)
          (record {
            address = row;
            lightning = m.lightning;
            primary = p;
            configured = rw i m.found;
            as_asked = m.as_asked;
            shown = refl;
          })
  ]

-- The upsert fails and leaves the database alone, or stores a row with the mode.
abbrev Upserted : ℕ → LightningConfigUpdate → World → Result (Unit {0}) × World → Type 0
Upserted id u w out =
    ((e : Error) × (out.0 ≡ err e) × (out.1.db ≡ w.db))
    ⊎ ((out.0 ≡ ok tt) × (out.1.db.addresses ≡ w.db.addresses) × HasMode out.1.db id u.mode)

upsert-Upserted :
    (id : ℕ) (u : LightningConfigUpdate) (w : World)
    → Upserted id u w (upsert_lightning_config_full id u w)
unfolding upsert_lightning_config_full auto statement
upsert-Upserted id u w = elim (Bool-cases (w.aborted || w.fault w.tick)) [
  | inl x ↦ rw x (inl (database, refl, refl))
  | inr x ↦ elim (Option-cases (upsert_config id u w.db)) [
    | inl e ↦ rw (x, e) (inl (database, refl, refl))
    | inr (db', e) ↦
        let stored = upsert_config-HasMode id u w.db db' e in
        rw (x, e) (inr (refl, stored.0, stored.1))
  ]
]

module _ (pubkey : String) (req : UpdateRequest) (row a : Address) where
  store_config-Sound :
      (o : Outcome LightningConfigUpdate) (w : World)
      → ((u : LightningConfigUpdate) → o ≡ done u → u.mode ≡ req.mode)
      → find_where (active_primary_of pubkey) w.db.addresses ≡ some row
      → row.id ≡ a.id
      → Sound pubkey req w.db (store_config a.id o w).0 (store_config a.id o w).1.db
  unfolding store_config fetch_config Sound
  store_config-Sound (failed e) w k p i = inl refl
  store_config-Sound (done u) w k p i = elim (upsert-Upserted a.id u w) [
    | inl (e, x, same_db) ↦ rw x (inl same_db)
    | inr (x, same_addresses, m) ↦ rw x (
        fetch_config-Sound pubkey req w.db row a (upsert_lightning_config_full a.id u w).1
          (rw same_addresses p) i
          (record {
            lightning = m.lightning;
            found = m.found;
            as_asked = cc (m.as_asked, k u refl);
          }))
  ]

module _ (env : Wallets) (parse_query : String → Option Query) (req : UpdateRequest) where
  with_sealed-mode :
      (c : ConnectionConfig) (s : Outcome Bytes) (u : LightningConfigUpdate)
      → with_sealed env parse_query req c s ≡ done u
      → u.mode ≡ req.mode
  unfolding with_sealed
  with_sealed-mode c (failed e) u h = absurd cc
  with_sealed-mode c (done s) u h = ground arith

  build_update-mode :
      (kept : Option (Encryptor × ConnectionConfig)) (u : LightningConfigUpdate)
      → build_update env parse_query req kept ≡ done u
      → u.mode ≡ req.mode
  unfolding build_update
  build_update-mode none u h = ground arith
  build_update-mode (some (e, c)) u h =
      with_sealed-mode c (encrypt env.cipher e (utf8 (codes c.secret))) u h

module _ (env : Wallets) (parse_query : String → Option Query) (pubkey : String)
    (req : UpdateRequest) where
  update_held-Sound :
      (kept : Option (Encryptor × ConnectionConfig)) (o : Result (Option Address)) (before : Db)
      (w : World)
      → w.db ≡ before
      → ((a : Address)
          → o ≡ ok (some a)
          → (row : Address) × (find_where (active_primary_of pubkey) before.addresses ≡ some row)
            × (row.id ≡ a.id))
      → let out = update_held env parse_query req kept o w in Sound pubkey req before out.0 out.1.db
  unfolding update_held Sound
  update_held-Sound kept (err e) before w s k = inl s
  update_held-Sound kept (ok none) before w s k = inl s
  update_held-Sound kept (ok (some a)) before w s k =
      let (row, p, i) = k a refl in
      let q : find_where (active_primary_of pubkey) w.db.addresses ≡ some row = rw s p in
      rw (sym s) (
        store_config-Sound pubkey req row a (build_update env parse_query req kept) w
          (build_update-mode env parse_query req kept) q i)

  update_checked-Sound :
      (checked : Checked) (w : World)
      → let out = update_checked env parse_query pubkey req checked w in
        Sound pubkey req w.db out.0 out.1.db
  unfolding update_checked get_primary_address_by_pubkey Sound
  update_checked-Sound (stops n message) w = inl refl
  update_checked-Sound (passes kept) w =
      let held =
        select_then (λ db. scan (find_where (active_primary_of pubkey) db.addresses))
          (update_held env parse_query req kept) w in
      rw held.runs (
        update_held-Sound kept held.result w.db held.world held.unchanged (λ a e.
          scan-some (find_where (active_primary_of pubkey) w.db.addresses) a
            (held.found (some a) e)))

  -- An answer to an update of the Lightning configuration with a configuration shows the one that
  -- the caller's primary address has from then on, in the mode that was asked for; an error leaves
  -- the database as it is, but for the one that says that the configuration was updated; and the
  -- handler does not panic.
  pub update_lightning_config-Sound :
      (w : World)
      → let out = update_lightning_config env parse_query pubkey req w in
        Sound pubkey req w.db out.0 out.1.db
  unfolding update_lightning_config
  update_lightning_config-Sound w = update_checked-Sound (check_request env parse_query req) w
