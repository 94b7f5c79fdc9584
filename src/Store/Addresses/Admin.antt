-- ===== src/Store/Addresses/Admin.antt =====
-- The admin's operations on addresses (internal/storage/admin.go).
pub mod Revoke
use cloistr_address.Base.{
  ℕ, String, Bool, true, false, not, ◌&&◌, ◌||◌, Option, none, some, List, [], ◌∷◌, ltb, ◌==◌,
  if◌then◌else◌, find_where, count_where, exists_where, update_where, same,
}
use cloistr_address.Db.Tables.{Db, Address, AuditEntry}
use cloistr_address.Db.Exec.{
  not_found, message, Result, ok, err, Exec, pure, raise, ◌>>=◌, ◌>>◌, try, statement, select, exec,
  exec_checked, Verdict, commit, rollback, transaction,
}
use cloistr_address.Db.Schema.{has_name, set_addresses}
use cloistr_address.Store.Addresses.Rows.{
  active_of, active_name, has_id, promote_primary_address, promote_nip05_address, open_ownership,
  close_ownership, insert_address, copy_lightning_config, set_primary, set_nip05,
}
use cloistr_address.Store.Addresses.Register.{primary_id, or_zero, former_primary}
use cloistr_address.Store.Addresses.Transfer.{
  ensure_user, write_audit, address_audit, count_or_zero, promote_if,
}

-- The copy of the primary's configuration to an alias; its error is dropped.
unfoldable pub inherit_alias : Bool → ℕ → ℕ → Exec (Unit {0})
inherit_alias is_first source dest =
    if not is_first && not (source == 0)
    then try (exec (copy_lightning_config source dest)) >>= (λ _. pure tt)
    else pure tt

-- UPDATE addresses SET active = false, ban_reason = $3
abbrev pub banned : String → Address → Address
banned reason r = record r { active = false; ban_reason = some reason }

-- ... WHERE username = $1 AND domain = $2 RETURNING ...
unfoldable pub ban_row : String → String → String → Db → Option (Option Address × Db)
ban_row username domain reason db =
    elim (set_addresses db (update_where (has_name username domain) (banned reason) db.addresses)) [
      | none ↦ none
      | some db' ↦ some (find_where (has_name username domain) db'.addresses, db')
    ]

-- The promotion after a revocation, where the row carried the flag and others are left.
unfoldable pub promote_after : Bool → String → (Db → Option Db) → Exec (Unit {0})
promote_after false pubkey f = pure tt
promote_after true pubkey f = do
  others ← try (select λ db. count_where (active_of pubkey) db.addresses)
  promote_if (ltb 0 (count_or_zero others)) f

-- UPDATE addresses SET flag = FALSE WHERE pubkey = $1 AND flag = TRUE
unfoldable pub unset_flag : (Address → Bool) → (Bool → Address → Address) → String → Db → Option Db
unset_flag flag set pubkey db =
    set_addresses db (update_where (λ r. same r.pubkey pubkey && flag r) (set false) db.addresses)

unfoldable pub set_flag : (Bool → Address → Address) → ℕ → Db → Option Db
set_flag set id db = set_addresses db (update_where (has_id id) (set true) db.addresses)

module _ (show : ℕ → String) where
  unfoldable pub grant_counted :
      String
      → String
      → String
      → String
      → String
      → Option String
      → ℕ
      → Bool
      → ℕ
      → Exec (Verdict Address)
  grant_counted actor signature username domain pubkey display_name now is_first source = do
    addr ← statement (insert_address username domain pubkey is_first false display_name now)
    exec (open_ownership username domain pubkey now)
    inherit_alias is_first source addr.id
    exec (write_audit (address_audit show "address.grant" actor signature addr.id pubkey))
    pure (commit addr)

  -- `Storage.AdminGrantAddress`
  unfoldable pub admin_grant_address :
      String → String → String → String → String → Option String → Exec Address
  admin_grant_address actor signature username domain pubkey display_name w =
      transaction
        (do
          exec (ensure_user pubkey)
          existing ← select λ db. count_where (active_of pubkey) db.addresses
          source ← former_primary pubkey (existing == 0)
          grant_counted actor signature username domain pubkey display_name w.now (existing == 0)
              (or_zero source))
        w

  -- What follows the promotion of another primary.
  unfoldable pub revoke_rest : String → String → Address → Exec (Verdict (Unit {0}))
  revoke_rest actor signature r = do
    promote_after r.nip05_active r.pubkey (promote_nip05_address r.pubkey r.id)
    exec (write_audit (address_audit show "address.revoke" actor signature r.id r.pubkey))
    pure (commit tt)

  unfoldable pub revoke_found :
      String → String → String → String → ℕ → Option Address → Exec (Verdict (Unit {0}))
  revoke_found actor signature username domain now none = raise not_found
  revoke_found actor signature username domain now (some r) = do
    exec (close_ownership username domain r.pubkey now)
    promote_after r.is_primary r.pubkey (promote_primary_address r.pubkey r.id)
    revoke_rest actor signature r

  unfoldable pub revoke_body :
      String → String → String → String → String → ℕ → Exec (Verdict (Unit {0}))
  revoke_body actor signature username domain reason now = do
    found ← statement (ban_row username domain reason)
    revoke_found actor signature username domain now found

  -- `Storage.AdminRevokeAddress`
  unfoldable pub admin_revoke_address : String → String → String → String → String → Exec (Unit {0})
  admin_revoke_address actor signature username domain reason w =
      transaction (revoke_body actor signature username domain reason w.now) w

  unfoldable pub move_flag_to :
      (Address → Bool)
      → (Bool → Address → Address)
      → String
      → String
      → String
      → String
      → ℕ
      → Exec (Verdict (Unit {0}))
  move_flag_to flag set action actor signature pubkey id = do
    exec_checked (unset_flag flag set pubkey)
    exec_checked (set_flag set id)
    exec (write_audit (address_audit show action actor signature id pubkey))
    pure (commit tt)

  -- What `SetAddressPrimary` and `SetAddressNIP05` share: the flag moves to a row of the pubkey.
  unfoldable pub move_flag :
      (Address → Bool)
      → (Bool → Address → Address)
      → String
      → String
      → String
      → String
      → Option Address
      → Exec (Verdict (Unit {0}))
  move_flag flag set action actor signature pubkey none = raise not_found
  move_flag flag set action actor signature pubkey (some r) =
      if same r.pubkey pubkey
      then move_flag_to flag set action actor signature pubkey r.id
      else raise (message "address does not belong to pubkey")

  -- `Storage.SetAddressPrimary`
  unfoldable pub set_address_primary : String → String → String → String → String → Exec (Unit {0})
  set_address_primary actor signature username domain pubkey = transaction do
    found ← select λ db. find_where (active_name username domain) db.addresses
    move_flag (λ r. r.is_primary) set_primary "address.set_primary" actor signature pubkey found

  -- `Storage.SetAddressNIP05`
  unfoldable pub set_address_nip05 : String → String → String → String → String → Exec (Unit {0})
  set_address_nip05 actor signature username domain pubkey = transaction do
    found ← select λ db. find_where (active_name username domain) db.addresses
    move_flag (λ r. r.nip05_active) set_nip05 "address.set_nip05" actor signature pubkey found
