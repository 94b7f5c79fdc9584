-- ===== src/Store/Identity.antt =====
-- Users, their automatic addresses, and the Lightning configuration of an address
-- (internal/storage/postgres.go).
use cloistr_address.Base.{
  ℕ, ◌+◌, String, Bool, true, false, not, ◌&&◌, ◌||◌, Option, none, some, ◌∷◌, ltb, ◌==◌,
  if◌then◌else◌, same, find_where, count_where, exists_where, update_where,
}
use cloistr_address.Db.Tables.{Db, Address, Lightning}
use cloistr_address.Db.Exec.{
  Exec, pure, ◌>>=◌, ◌>>◌, select, statement, exec, exec_checked, auto, commit, transaction,
}
use cloistr_address.Store.Addresses.Rows.{
  active_of, is_username_available, lightning_of, open_ownership, insert_address,
}
use cloistr_address.Store.Addresses.Register.{atomic_register_address}
use cloistr_address.Store.Addresses.Transfer.{ensure_user}

-- `Storage.EnsureUser`
unfoldable pub ensure_user_row : String → Exec (Unit {0})
ensure_user_row pubkey = auto (exec (ensure_user pubkey))

-- username.Generate of cloistr-common: it asks its argument whether a candidate is free.
abbrev pub Generator : Type 0
Generator = (String → Exec Bool) → Exec String

unfoldable pub ensure_counted :
    Generator → (String → String) → String → String → Bool → Exec (Option Address)
ensure_counted generate lower pubkey domain true = pure none
ensure_counted generate lower pubkey domain false = do
  name ← generate (is_username_available lower)
  atomic_register_address name domain pubkey true

-- `Storage.EnsureAutoAddress`
unfoldable pub ensure_auto_address :
    Generator → (String → String) → String → String → Exec (Option Address)
ensure_auto_address generate lower pubkey domain = do
  active ← auto (select λ db. count_where (active_of pubkey) db.addresses)
  ensure_counted generate lower pubkey domain (ltb 0 active)

-- `Storage.RegisterAddress`
unfoldable pub register_address : String → String → String → Exec Address
register_address username domain pubkey w =
    transaction
      (do
        existing ← select λ db. count_where (active_of pubkey) db.addresses
        addr ← statement (insert_address username domain pubkey (existing == 0) false none w.now)
        exec (open_ownership username domain pubkey w.now)
        pure (commit addr))
      w

-- The struct `LightningConfigUpdate`.
pub record LightningConfigUpdate : Type 0 where
  pub mode : String
  pub proxy_address : String
  pub nwc_relay_url : String
  pub nwc_wallet_pubkey : String
  pub nwc_secret_encrypted : String

-- NULLIF($n, '')
abbrev pub null_if_empty : String → Option String
null_if_empty s = if same s "" then none else some s

-- The VALUES of the INSERT; the columns left out take the defaults of db/test_schema.sql.
unfoldable pub inserted_config : ℕ → LightningConfigUpdate → Lightning
inserted_config id u = record {
  address_id = id;
  mode = u.mode;
  proxy_address = null_if_empty u.proxy_address;
  nwc_relay_url = null_if_empty u.nwc_relay_url;
  nwc_wallet_pubkey = null_if_empty u.nwc_wallet_pubkey;
  nwc_secret_encrypted = null_if_empty u.nwc_secret_encrypted;
  nwc_last_success_at = none;
  nwc_last_error = none;
  nwc_error_count = 0;
  min_sendable_msats = 1000;
  max_sendable_msats = 100000000;
  comment_allowed = 255;
  allows_nostr = true;
  enabled = true;
}

-- ON CONFLICT (address_id) DO UPDATE
unfoldable pub updated_config : LightningConfigUpdate → Lightning → Lightning
updated_config u l =
    let nwc = same u.mode "nwc" in
    record l {
      mode = u.mode;
      proxy_address = if same u.mode "proxy" then null_if_empty u.proxy_address else none;
      nwc_relay_url = if nwc then null_if_empty u.nwc_relay_url else l.nwc_relay_url;
      nwc_wallet_pubkey = if nwc then null_if_empty u.nwc_wallet_pubkey else l.nwc_wallet_pubkey;
      nwc_secret_encrypted =
          if nwc then null_if_empty u.nwc_secret_encrypted else l.nwc_secret_encrypted;
      nwc_error_count = if nwc then 0 else l.nwc_error_count;
      nwc_last_error = if nwc then none else l.nwc_last_error;
      enabled = if same u.mode "disabled" then false else true;
    }

abbrev is_set : Option String → Bool
is_set none = false
is_set (some s) = true

-- mode_check and nwc_required of db/migrations/004_up.sql
unfoldable pub config_allowed : Lightning → Bool
config_allowed l =
    (same l.mode "proxy" || same l.mode "nwc" || same l.mode "hosted" || same l.mode "disabled")
    && (not (same l.mode "nwc")
        || is_set l.nwc_relay_url && is_set l.nwc_wallet_pubkey && is_set l.nwc_secret_encrypted)

-- The row that INSERT ... ON CONFLICT would write.
unfoldable pub upserted : ℕ → LightningConfigUpdate → Db → Lightning
upserted id u db = elim (find_where (lightning_of id) db.lightning) [
  | none ↦ inserted_config id u
  | some l ↦ updated_config u l
]

unfoldable pub upsert_config : ℕ → LightningConfigUpdate → Db → Option Db
upsert_config id u db =
    if not (config_allowed (inserted_config id u) && config_allowed (upserted id u db))
    then none
    else if exists_where (lightning_of id) db.lightning
    then some
        (record db { lightning = update_where (lightning_of id) (updated_config u) db.lightning })
    else some (record db { lightning = inserted_config id u ∷ db.lightning })

-- `Storage.UpsertLightningConfigFull`
unfoldable pub upsert_lightning_config_full : ℕ → LightningConfigUpdate → Exec (Unit {0})
upsert_lightning_config_full id u = auto (exec_checked (upsert_config id u))

-- `Storage.UpsertLightningConfig`
unfoldable pub upsert_lightning_config : ℕ → String → String → Exec (Unit {0})
upsert_lightning_config id mode proxy_address = upsert_lightning_config_full id record {
  mode = mode;
  proxy_address = proxy_address;
  nwc_relay_url = "";
  nwc_wallet_pubkey = "";
  nwc_secret_encrypted = "";
}

-- `Storage.GetLightningConfig`
unfoldable pub get_lightning_config : ℕ → Exec (Option Lightning)
get_lightning_config id = auto (select λ db. find_where (lightning_of id) db.lightning)

-- `Storage.UpdateNWCSuccess`
unfoldable pub update_nwc_success : ℕ → Exec (Unit {0})
update_nwc_success id w =
    auto
      (exec λ db. record db {
        lightning =
            update_where (lightning_of id)
              (λ l. record l {
                nwc_last_success_at = some w.now;
                nwc_error_count = 0;
                nwc_last_error = none;
              })
              db.lightning;
      })
      w

-- `Storage.UpdateNWCError`
unfoldable pub update_nwc_error : ℕ → String → Exec (Unit {0})
update_nwc_error id error = auto (
    exec λ db. record db {
      lightning =
          update_where (lightning_of id)
            (λ l. record l { nwc_last_error = some error; nwc_error_count = l.nwc_error_count + 1 })
            db.lightning;
    })
