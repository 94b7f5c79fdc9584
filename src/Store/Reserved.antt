-- ===== src/Store/Reserved.antt =====
-- Reserved names and the prices of the tiers (internal/storage/admin.go).
use cloistr_address.Base.{
  ℕ, String, Bool, true, false, Option, none, some, List, ◌∷◌, ◌==◌, if◌then◌else◌, same,
  count_where, exists_where, update_where, delete_where, find_where,
}
use cloistr_address.Db.Tables.{Db, ReservedUsername, UsernameTier, AuditEntry}
use cloistr_address.Db.Exec.{
  not_found, Exec, Verdict, pure, raise, ◌>>=◌, ◌>>◌, statement, select, exec, auto, commit,
  transaction,
}
use cloistr_address.Store.Addresses.Transfer.{write_audit}

unfoldable pub reserves : String → ReservedUsername → Bool
reserves username r = same r.username username

-- An audit entry without a subject, which the code writes as NULL.
abbrev pub plain_audit : String → String → String → String → String → AuditEntry
plain_audit table id action actor signature = record {
  table_name = table;
  record_id = id;
  action = action;
  actor_pubkey = actor;
  subject_pubkey = "";
  signature = signature;
}

-- INSERT ... ON CONFLICT (username) DO UPDATE
unfoldable pub upsert_reserved : String → Option String → String → Db → Db
upsert_reserved username for_pubkey reason db =
    if exists_where (reserves username) db.reserved
    then record db {
      reserved =
          update_where (reserves username)
            (λ r. record r { reserved_for_pubkey = for_pubkey; reason = some reason }) db.reserved;
    }
    else record db {
      reserved =
          record { username = username; reserved_for_pubkey = for_pubkey; reason = some reason }
          ∷ db.reserved;
    }

-- `Storage.AddReserved`
unfoldable pub add_reserved : String → String → String → Option String → String → Exec (Unit {0})
add_reserved actor signature username for_pubkey reason = transaction do
  exec (upsert_reserved username for_pubkey reason)
  exec (write_audit (plain_audit "reserved_usernames" username "reserved.add" actor signature))
  pure (commit tt)

-- DELETE ... WHERE username = $1, with the number of rows.
unfoldable pub delete_reserved : String → Db → Option (ℕ × Db)
delete_reserved username db = some (
  count_where (reserves username) db.reserved,
  record db { reserved = delete_where (reserves username) db.reserved },
)

unfoldable pub removed : String → String → String → Bool → Exec (Verdict (Unit {0}))
removed actor signature username true = raise not_found
removed actor signature username false = do
  exec (write_audit (plain_audit "reserved_usernames" username "reserved.remove" actor signature))
  pure (commit tt)

-- `Storage.RemoveReserved`
unfoldable pub remove_reserved : String → String → String → Exec (Unit {0})
remove_reserved actor signature username =
    transaction
      do n ← statement (delete_reserved username); removed actor signature username (n == 0)

-- `Storage.ListReserved`, with the order of the database's texts as a parameter.
unfoldable pub list_reserved :
    (List ReservedUsername → List ReservedUsername) → Exec (List ReservedUsername)
list_reserved by_username = auto (select λ db. by_username db.reserved)

unfoldable pub tier_named : String → UsernameTier → Bool
tier_named name t = same t.tier_name name

unfoldable pub set_tier : String → ℕ → Bool → Db → Db
set_tier name price enabled db = record db {
  tiers =
      update_where (tier_named name) (λ t. record t { price_sats = price; enabled = enabled })
        db.tiers;
}

unfoldable pub tier_found :
    String → String → String → ℕ → Bool → Option UsernameTier → Exec (Verdict (Unit {0}))
tier_found actor signature name price enabled none = raise not_found
tier_found actor signature name price enabled (some t) = do
  exec (set_tier name price enabled)
  exec (write_audit (plain_audit "username_tiers" name "tier.update" actor signature))
  pure (commit tt)

-- `Storage.UpdateTier`, for a price that is not negative.
unfoldable pub update_tier : String → String → String → ℕ → Bool → Exec (Unit {0})
update_tier actor signature name price enabled = transaction do
  found ← select λ db. find_where (tier_named name) db.tiers
  tier_found actor signature name price enabled found
