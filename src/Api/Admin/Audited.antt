-- ===== src/Api/Admin/Audited.antt =====
-- The operations of internal/storage/admin.go that write the audit log in their own transaction. The
-- handlers that write it after the change (adminSetLightning, adminGrantCredits), or not at all
-- (adminCreateTenant, adminSetTenantQuota), are not among them.
use cloistr_address.Base.{ℕ, ◌≡◌, refl, arith, String, Bool, Option}
use cloistr_address.Base.Signed.{ℤ}
use cloistr_address.Db.Exec.{Error, Result, ok, err, World, Exec, transaction_atomic}
use cloistr_address.Store.Addresses.Transfer.{admin_transfer_address}
use cloistr_address.Store.Addresses.Admin.{
  admin_grant_address, admin_revoke_address, set_address_primary, set_address_nip05,
}
use cloistr_address.Store.Reserved.{add_reserved, remove_reserved, update_tier}
use cloistr_address.Store.Quotas.{set_quota, reset_quota}
use cloistr_address.Api.Admin.Entries.{
  Recorded, add_reserved-Recorded, remove_reserved-Recorded, set_quota-Recorded,
  reset_quota-Recorded, update_tier-Recorded,
}
use cloistr_address.Api.Admin.Grant.{admin_grant_address-Recorded}
use cloistr_address.Api.Admin.Names.{
  admin_revoke_address-Recorded, admin_transfer_address-Recorded, set_address_primary-Recorded,
  set_address_nip05-Recorded,
}

-- The operations of the storage that write their own audit entry.
pub data AdminOp : Type 0 where
  grant : String → String → String → Option String → AdminOp
  revoke : String → String → String → AdminOp
  transfer : String → String → String → AdminOp
  make_primary : String → String → String → AdminOp
  make_nip05 : String → String → String → AdminOp
  reserve : String → Option String → String → AdminOp
  unreserve : String → AdminOp
  limit_user : String → String → ℤ → AdminOp
  unlimit_user : String → String → AdminOp
  price_tier : String → ℕ → Bool → AdminOp

-- The result of a grant without its address.
abbrev forget : {A : Type 0} → Result A → Result (Unit {0})
forget (ok a) = ok tt
forget (err e) = err e

abbrev forgotten : {A : Type 0} → Exec A → Exec (Unit {0})
forgotten m w = let (r, w') = m w in (forget r, w')

forget-ok : {A : Type 0} (r : Result A) → forget r ≡ ok tt → (a : A) × (r ≡ ok a)
forget-ok (ok a) h = (a, refl)
forget-ok (err e) h = absurd cc

forget-err : {A : Type 0} (r : Result A) (e : Error) → forget r ≡ err e → r ≡ err e
forget-err (ok a) e h = absurd cc
forget-err (err x) e h = ground arith

module _ (show : ℕ → String) (actor signature : String) where
  unfoldable pub run_admin : AdminOp → Exec (Unit {0})
  run_admin (grant name domain pubkey display) =
      forgotten (admin_grant_address show actor signature name domain pubkey display)
  run_admin (revoke name domain reason) =
      admin_revoke_address show actor signature name domain reason
  run_admin (transfer name domain pubkey) =
      admin_transfer_address show actor signature name domain pubkey
  run_admin (make_primary name domain pubkey) =
      set_address_primary show actor signature name domain pubkey
  run_admin (make_nip05 name domain pubkey) =
      set_address_nip05 show actor signature name domain pubkey
  run_admin (reserve name pubkey reason) = add_reserved actor signature name pubkey reason
  run_admin (unreserve name) = remove_reserved actor signature name
  run_admin (limit_user pubkey kind limit) = set_quota actor signature pubkey kind limit
  run_admin (unlimit_user pubkey kind) = reset_quota actor signature pubkey kind
  run_admin (price_tier name price enabled) = update_tier actor signature name price enabled

  -- Each of these operations, when it succeeds, writes exactly one audit entry, with the admin's
  -- pubkey and the signature of the request.
  pub run_admin-Recorded :
      (op : AdminOp) (w : World)
      → (run_admin op w).0 ≡ ok tt
      → Recorded actor signature w.db.audit (run_admin op w).1.db
  unfolding run_admin
  run_admin-Recorded (grant name domain pubkey display) w h =
      let (a, e) = forget-ok _ h in
      admin_grant_address-Recorded actor signature _ show name domain pubkey display a w refl e
  run_admin-Recorded (revoke name domain reason) w h =
      admin_revoke_address-Recorded actor signature _ show name domain reason w refl h
  run_admin-Recorded (transfer name domain pubkey) w h =
      admin_transfer_address-Recorded actor signature _ show name domain pubkey w refl h
  run_admin-Recorded (make_primary name domain pubkey) w h =
      set_address_primary-Recorded actor signature _ show name domain pubkey w refl h
  run_admin-Recorded (make_nip05 name domain pubkey) w h =
      set_address_nip05-Recorded actor signature _ show name domain pubkey w refl h
  run_admin-Recorded (reserve name pubkey reason) w h =
      add_reserved-Recorded actor signature _ name reason pubkey w refl h
  run_admin-Recorded (unreserve name) w h = remove_reserved-Recorded actor signature _ name w refl h
  run_admin-Recorded (limit_user pubkey kind limit) w h =
      set_quota-Recorded actor signature _ pubkey kind limit w refl h
  run_admin-Recorded (unlimit_user pubkey kind) w h =
      reset_quota-Recorded actor signature _ pubkey kind w refl h
  run_admin-Recorded (price_tier name price enabled) w h =
      update_tier-Recorded actor signature _ name price enabled w refl h

  -- An admin's operation that fails leaves the database, and so the log, as it was.
  pub run_admin_atomic :
      (op : AdminOp) (w : World) (e : Error)
      → (run_admin op w).0 ≡ err e
      → (run_admin op w).1.db ≡ w.db
  unfolding run_admin admin_grant_address admin_revoke_address admin_transfer_address
      set_address_primary set_address_nip05 add_reserved remove_reserved set_quota reset_quota
      update_tier
  run_admin_atomic (grant name domain pubkey display) w e h =
      transaction_atomic _ w e (forget-err _ e h)
  run_admin_atomic (revoke name domain reason) w e h = transaction_atomic _ w e h
  run_admin_atomic (transfer name domain pubkey) w e h = transaction_atomic _ w e h
  run_admin_atomic (make_primary name domain pubkey) w e h = transaction_atomic _ w e h
  run_admin_atomic (make_nip05 name domain pubkey) w e h = transaction_atomic _ w e h
  run_admin_atomic (reserve name pubkey reason) w e h = transaction_atomic _ w e h
  run_admin_atomic (unreserve name) w e h = transaction_atomic _ w e h
  run_admin_atomic (limit_user pubkey kind limit) w e h = transaction_atomic _ w e h
  run_admin_atomic (unlimit_user pubkey kind) w e h = transaction_atomic _ w e h
  run_admin_atomic (price_tier name price enabled) w e h = transaction_atomic _ w e h
