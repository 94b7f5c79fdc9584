-- ===== src/Api/Tenants/Ownership.antt =====
-- Who changes the members of a tenant (internal/api/tenant.go).
use cloistr_address.Base.{
  ◌≡◌, ◌≢◌, refl, ap, ◌∙◌, String, true, Option, none, some, inl, inr, Bool-cases, same, eq_of_same,
  find_where,
}
use cloistr_address.Db.Tables.{Tenant}
use cloistr_address.Db.Exec.{World, Result, ok, err, Exec, ◌>>=◌, try, pure}
use cloistr_address.Db.Triple.{select_then}
use cloistr_address.Store.Tenants.{tenant_of, get_tenant, add_tenant_member, remove_tenant_member}
use cloistr_address.Store.Tenants.Members.{MemberOp, join, leave}
use cloistr_address.Api.Auth.{valid_pubkey}
use cloistr_address.Api.Tenants.{
  MemberReply, owned, member_added, member_removed, handle_add_tenant_member,
  handle_remove_tenant_member,
}

-- The handler of a change.
unfoldable pub handle_member : String → MemberOp → Exec MemberReply
handle_member caller (join tenant pubkey) = handle_add_tenant_member caller tenant pubkey
handle_member caller (leave tenant pubkey) = handle_remove_tenant_member caller tenant pubkey

abbrev pub tenant_id : MemberOp → String
tenant_id (join tenant pubkey) = tenant
tenant_id (leave tenant pubkey) = tenant

abbrev pub member : MemberOp → String
member (join tenant pubkey) = pubkey
member (leave tenant pubkey) = pubkey

owned-owner :
    (caller purpose : String) (handler : Exec MemberReply) (o : Result (Option Tenant)) (w : World)
    → (owned caller purpose handler o w).1.db ≢ w.db
    → (t : Tenant) × (o ≡ ok (some t)) × (t.owner_pubkey ≡ caller)
unfolding owned
owned-owner caller purpose handler (err e) w h = absurd (h refl)
owned-owner caller purpose handler (ok none) w h = absurd (h refl)
owned-owner caller purpose handler (ok (some t)) w h =
    elim (Bool-cases (same t.owner_pubkey caller)) [
      | inl e ↦ (t, refl, eq_of_same t.owner_pubkey caller e)
      | inr e ↦ absurd (h (rw e refl))
    ]

tenant-owner :
    (caller tenant purpose : String) (handler : Exec MemberReply) (w : World)
    → ((try (get_tenant tenant) >>= owned caller purpose handler) w).1.db ≢ w.db
    → (t : Tenant) × (find_where (tenant_of tenant) w.db.tenants ≡ some t)
      × (t.owner_pubkey ≡ caller)
unfolding get_tenant
tenant-owner caller tenant purpose handler w h =
    let s =
      select_then (λ db. find_where (tenant_of tenant) db.tenants) (owned caller purpose handler)
        w in
    let (t, e, own) =
      owned-owner caller purpose handler s.result s.world
        (λ q. h (ap (λ (p : Result MemberReply × World). p.1.db) s.runs ∙ q ∙ s.unchanged)) in
    (t, s.found (some t) e, own)

-- A request that changes the database, to add a member or to remove one, comes from the owner of
-- a tenant that exists, and names a valid pubkey.
pub handle_member-owner :
    (caller : String) (op : MemberOp) (w : World)
    → (handle_member caller op w).1.db ≢ w.db
    → (t : Tenant) × (find_where (tenant_of (tenant_id op)) w.db.tenants ≡ some t)
      × (t.owner_pubkey ≡ caller)
      × (valid_pubkey (member op) ≡ true)
unfolding handle_member handle_add_tenant_member handle_remove_tenant_member
handle_member-owner caller (join tenant pubkey) w h = elim (Bool-cases (valid_pubkey pubkey)) [
  | inl e ↦
      let (t, f, own) =
        tenant-owner caller tenant _
          (try (add_tenant_member tenant pubkey) >>= (λ r. pure (member_added tenant pubkey r))) w
          (rw e at h) in
      (t, f, own, e)
  | inr e ↦ absurd (h (rw e refl))
]
handle_member-owner caller (leave tenant pubkey) w h = elim (Bool-cases (valid_pubkey pubkey)) [
  | inl e ↦
      let (t, f, own) =
        tenant-owner caller tenant _
          (try (remove_tenant_member tenant pubkey)
            >>= (λ r. pure (member_removed tenant pubkey r)))
          w (rw e at h) in
      (t, f, own, e)
  | inr e ↦ absurd (h (rw e refl))
]
