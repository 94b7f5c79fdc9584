-- ===== src/Api/Tenants.antt =====
-- The members of a tenant (internal/api/tenant.go). The caller's pubkey is what the authentication
-- found.
pub mod Ownership
use cloistr_address.Base.{
  ℕ, String, Bool, true, false, not, Option, none, some, List, [], ◌∷◌, if◌then◌else◌, same, length,
}
use cloistr_address.Db.Tables.{Tenant, TenantMember}
use cloistr_address.Db.Exec.{Result, ok, err, Exec, pure, ◌>>=◌, try}
use cloistr_address.Store.Tenants.{
  get_tenant, add_tenant_member, remove_tenant_member, list_tenant_members,
}
use cloistr_address.Api.Http.{text, flag, Reply, typed, fields, error_reply}
use cloistr_address.Api.Auth.{valid_pubkey}

-- The answer to a list: the tenant's id, its members and their number.
pub record MemberList : Type 0 where
  pub tenant_id : String
  pub members : List TenantMember
  pub count : ℕ

abbrev pub MemberReply : Type 0
MemberReply = Reply MemberList

-- What the three handlers do first: only the owner gets past it.
unfoldable pub owned :
    String → String → Exec MemberReply → Result (Option Tenant) → Exec MemberReply
owned caller purpose handler (err e) = pure (error_reply 500 "Failed to look up tenant")
owned caller purpose handler (ok none) = pure (error_reply 404 "Tenant not found")
owned caller purpose handler (ok (some t)) =
    if not (same t.owner_pubkey caller) then pure (error_reply 403 purpose) else handler

unfoldable pub member_added : String → String → Result (Unit {0}) → MemberReply
member_added tenant pubkey (err e) = error_reply 500 "Failed to add member"
member_added tenant pubkey (ok u) =
    fields 200 (("success", flag true) ∷ ("tenant_id", text tenant) ∷ ("pubkey", text pubkey) ∷ [])

-- `handleAddTenantMember`
unfoldable pub handle_add_tenant_member : String → String → String → Exec MemberReply
handle_add_tenant_member caller tenant pubkey =
    if not (valid_pubkey pubkey)
    then pure (error_reply 400 "Invalid pubkey format")
    else try (get_tenant tenant)
      >>= owned caller "Only the tenant owner can manage members"
          (try (add_tenant_member tenant pubkey) >>= (λ r. pure (member_added tenant pubkey r)))

unfoldable pub member_removed : String → String → Result (Unit {0}) → MemberReply
member_removed tenant pubkey (err e) = error_reply 500 "Failed to remove member"
member_removed tenant pubkey (ok u) =
    fields 200 (("success", flag true) ∷ ("tenant_id", text tenant) ∷ ("removed", text pubkey) ∷ [])

-- `handleRemoveTenantMember`
unfoldable pub handle_remove_tenant_member : String → String → String → Exec MemberReply
handle_remove_tenant_member caller tenant pubkey =
    if not (valid_pubkey pubkey)
    then pure (error_reply 400 "Invalid pubkey format")
    else try (get_tenant tenant)
      >>= owned caller "Only the tenant owner can manage members" (
          try (remove_tenant_member tenant pubkey) >>= (λ r. pure (member_removed tenant pubkey r)))

unfoldable pub members_listed : String → Result (List TenantMember) → MemberReply
members_listed tenant (err e) = error_reply 500 "Failed to list members"
members_listed tenant (ok ms) =
    typed 200 (record { tenant_id = tenant; members = ms; count = length ms })

-- `handleListTenantMembers`
unfoldable pub handle_list_tenant_members : String → String → Exec MemberReply
handle_list_tenant_members caller tenant =
    try (get_tenant tenant)
    >>= owned caller "Only the tenant owner can list members"
        (try (list_tenant_members tenant) >>= (λ r. pure (members_listed tenant r)))
