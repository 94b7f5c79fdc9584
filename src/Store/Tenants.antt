-- ===== src/Store/Tenants.antt =====
-- Tenants, their members and their limits (internal/storage/tenant.go).
pub mod Members
use cloistr_address.Base.{
  ℕ, String, Bool, true, false, not, ◌&&◌, ◌||◌, Option, none, some, List, [], ◌∷◌, ltb,
  if◌then◌else◌, same, exists_where, select_where, find_where, update_where, delete_where, sort_by,
}
use cloistr_address.Base.Signed.{ℤ}
use cloistr_address.Db.Tables.{Db, Tenant, TenantMember, TenantQuota}
use cloistr_address.Db.Exec.{
  Exec, pure, ◌>>=◌, ◌>>◌, statement, select, exec, exec_checked, auto, commit, transaction,
}
use cloistr_address.Store.Addresses.Transfer.{ensure_user}

unfoldable pub tenant_of : String → Tenant → Bool
tenant_of id t = same t.id id

-- INSERT INTO tenants ... RETURNING created_at; the id is the key of the table.
unfoldable pub insert_tenant : String → String → ℕ → Db → Option (Tenant × Db)
insert_tenant id owner now db =
    let t : Tenant = record { id = id; owner_pubkey = owner; created_at = now } in
    if exists_where (tenant_of id) db.tenants
    then none
    else some (t, record db { tenants = t ∷ db.tenants })

-- `Storage.CreateTenant`
unfoldable pub create_tenant : String → String → Exec Tenant
create_tenant id owner w =
    transaction
      (do exec (ensure_user owner); t ← statement (insert_tenant id owner w.now); pure (commit t)) w

-- `Storage.GetTenant`
unfoldable pub get_tenant : String → Exec (Option Tenant)
get_tenant id = auto (select λ db. find_where (tenant_of id) db.tenants)

unfoldable pub is_member : String → String → TenantMember → Bool
is_member tenant pubkey m = same m.tenant_id tenant && same m.pubkey pubkey

-- INSERT INTO tenant_members ... ON CONFLICT DO NOTHING; the tenant must exist.
unfoldable pub insert_member : String → String → ℕ → Db → Option Db
insert_member tenant pubkey now db =
    if exists_where (is_member tenant pubkey) db.members
    then some db
    else if not (exists_where (tenant_of tenant) db.tenants)
    then none
    else some (record db {
      members = record { tenant_id = tenant; pubkey = pubkey; joined_at = now } ∷ db.members;
    })

-- `Storage.AddTenantMember`
unfoldable pub add_tenant_member : String → String → Exec (Unit {0})
add_tenant_member tenant pubkey w =
    transaction
      (do
        exec (ensure_user pubkey)
        exec_checked (insert_member tenant pubkey w.now)
        pure (commit tt))
      w

-- `Storage.GetTenantForPubkey` (LIMIT 1: the first tenant)
unfoldable pub get_tenant_for_pubkey : String → Exec (Option Tenant)
get_tenant_for_pubkey pubkey = auto (
    select
      λ db. find_where (λ (t : Tenant). exists_where (is_member t.id pubkey) db.members) db.tenants)

unfoldable pub delete_member : String → String → Db → Db
delete_member tenant pubkey db = record db {
  members = delete_where (is_member tenant pubkey) db.members;
}

-- `Storage.RemoveTenantMember`
unfoldable pub remove_tenant_member : String → String → Exec (Unit {0})
remove_tenant_member tenant pubkey = auto (exec (delete_member tenant pubkey))

abbrev earlier : TenantMember → TenantMember → Bool
earlier m n = ltb m.joined_at n.joined_at

unfoldable pub member_of : String → TenantMember → Bool
member_of tenant m = same m.tenant_id tenant

-- `Storage.ListTenantMembers`
unfoldable pub list_tenant_members : String → Exec (List TenantMember)
list_tenant_members tenant =
    auto (select λ db. sort_by earlier (select_where (member_of tenant) db.members))

unfoldable pub limit_of : String → String → TenantQuota → Bool
limit_of tenant quota_type q = same q.tenant_id tenant && same q.quota_type_id quota_type

-- INSERT ... ON CONFLICT DO UPDATE; the tenant and the quota type must exist.
unfoldable pub upsert_tenant_quota : String → String → ℤ → Db → Option Db
upsert_tenant_quota tenant quota_type limit db =
    if exists_where (limit_of tenant quota_type) db.tenant_quotas
    then some (record db {
      tenant_quotas =
          update_where (limit_of tenant quota_type) (λ q. record q { quota_limit = limit })
            db.tenant_quotas;
    })
    else if not (
        exists_where (tenant_of tenant) db.tenants && exists_where (same quota_type) db.quota_types)
    then none
    else some (record db {
      tenant_quotas =
          record { tenant_id = tenant; quota_type_id = quota_type; quota_limit = limit }
          ∷ db.tenant_quotas;
    })

-- `Storage.SetTenantQuota`
unfoldable pub set_tenant_quota : String → String → ℤ → Exec (Unit {0})
set_tenant_quota tenant quota_type limit =
    auto (exec_checked (upsert_tenant_quota tenant quota_type limit))
