-- ===== src/Store/Quotas.antt =====
-- The limits that admins set for a pubkey (internal/storage/admin.go).
use Prim.Native.String.{◌++◌ as ◌<>◌}
use cloistr_address.Base.{
  ℕ, String, Bool, true, false, ◌&&◌, Option, some, ◌∷◌, ◌==◌, if◌then◌else◌, same, count_where,
  exists_where, update_where, delete_where, find_where,
}
use cloistr_address.Base.Signed.{ℤ}
use cloistr_address.Db.Tables.{Db, UserQuota, AuditEntry}
use cloistr_address.Db.Exec.{
  not_found, Exec, Verdict, pure, raise, ◌>>=◌, ◌>>◌, try, statement, select, exec, commit,
  transaction,
}
use cloistr_address.Store.Addresses.Transfer.{ensure_user, write_audit}

unfoldable pub quota_of : String → String → UserQuota → Bool
quota_of pubkey quota_type q = same q.pubkey pubkey && same q.quota_type_id quota_type

abbrev pub quota_audit : String → String → String → String → String → AuditEntry
quota_audit action actor signature pubkey quota_type = record {
  table_name = "user_quotas";
  record_id = pubkey <> (":" <> quota_type);
  action = action;
  actor_pubkey = actor;
  subject_pubkey = pubkey;
  signature = signature;
}

-- INSERT ... ON CONFLICT (pubkey, quota_type_id) DO UPDATE
unfoldable pub upsert_quota : String → String → ℤ → Db → Db
upsert_quota pubkey quota_type limit db =
    if exists_where (quota_of pubkey quota_type) db.user_quotas
    then record db {
      user_quotas =
          update_where (quota_of pubkey quota_type) (λ q. record q { quota_limit = limit })
            db.user_quotas;
    }
    else record db {
      user_quotas =
          record { pubkey = pubkey; quota_type_id = quota_type; quota_limit = limit }
          ∷ db.user_quotas;
    }

-- `Storage.SetQuota`; the limit before it is read for the entry's values, its error dropped.
unfoldable pub set_quota : String → String → String → String → ℤ → Exec (Unit {0})
set_quota actor signature pubkey quota_type limit = transaction do
  exec (ensure_user pubkey)
  prev ← try (select λ db. find_where (quota_of pubkey quota_type) db.user_quotas)
  exec (upsert_quota pubkey quota_type limit)
  exec (write_audit (quota_audit "quota.set" actor signature pubkey quota_type))
  pure (commit tt)

unfoldable pub delete_quota : String → String → Db → Option (ℕ × Db)
delete_quota pubkey quota_type db = some (
  count_where (quota_of pubkey quota_type) db.user_quotas,
  record db { user_quotas = delete_where (quota_of pubkey quota_type) db.user_quotas },
)

unfoldable pub quota_removed : String → String → String → String → Bool → Exec (Verdict (Unit {0}))
quota_removed actor signature pubkey quota_type true = raise not_found
quota_removed actor signature pubkey quota_type false = do
  exec (write_audit (quota_audit "quota.reset" actor signature pubkey quota_type))
  pure (commit tt)

-- `Storage.ResetQuota`
unfoldable pub reset_quota : String → String → String → String → Exec (Unit {0})
reset_quota actor signature pubkey quota_type = transaction do
  n ← statement (delete_quota pubkey quota_type)
  quota_removed actor signature pubkey quota_type (n == 0)
