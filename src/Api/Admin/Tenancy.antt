-- ===== src/Api/Admin/Tenancy.antt =====
-- The handlers of the admin API for tenants (internal/api/tenant.go), past the parsing of the
-- request, which refuses a limit of 0.
use cloistr_address.Base.{String, true, not, Option, none, some, [], ◌∷◌, if◌then◌else◌}
use cloistr_address.Base.Signed.{ℤ}
use cloistr_address.Db.Tables.{Tenant}
use cloistr_address.Db.Exec.{Result, ok, err, Exec, pure, ◌>>=◌, try}
use cloistr_address.Store.Tenants.{create_tenant, get_tenant, set_tenant_quota}
use cloistr_address.Api.Http.{text, signed, flag, Reply, typed, error_reply}
use cloistr_address.Api.Auth.{AdminReply, refuse, valid_pubkey}

unfoldable pub tenant_created : Result Tenant → Reply Tenant
tenant_created (err e) = error_reply 500 "Failed to create tenant"
tenant_created (ok t) = typed 201 t

-- `adminCreateTenant`
unfoldable pub admin_create_tenant : String → String → Exec (Reply Tenant)
admin_create_tenant id owner =
    if not (valid_pubkey owner)
    then pure (error_reply 400 "Invalid owner pubkey format")
    else try (create_tenant id owner) >>= (λ r. pure (tenant_created r))

unfoldable pub tenant_quota_set : String → String → ℤ → Result (Unit {0}) → AdminReply
tenant_quota_set tenant quota_type limit (err e) = refuse 500 "Failed to set tenant quota"
tenant_quota_set tenant quota_type limit (ok u) = (
  200,
  ("success", flag true)
      ∷ ("tenant_id", text tenant)
      ∷ ("quota_type", text quota_type)
      ∷ ("limit", signed limit)
      ∷ [],
)

unfoldable pub tenant_quota_found : String → String → ℤ → Result (Option Tenant) → Exec AdminReply
tenant_quota_found tenant quota_type limit (err e) = pure (refuse 500 "Failed to look up tenant")
tenant_quota_found tenant quota_type limit (ok none) = pure (refuse 404 "Tenant not found")
tenant_quota_found tenant quota_type limit (ok (some t)) =
    try (set_tenant_quota tenant quota_type limit)
    >>= (λ r. pure (tenant_quota_set tenant quota_type limit r))

-- `adminSetTenantQuota`
unfoldable pub admin_set_tenant_quota : String → String → ℤ → Exec AdminReply
admin_set_tenant_quota tenant quota_type limit =
    try (get_tenant tenant) >>= tenant_quota_found tenant quota_type limit
