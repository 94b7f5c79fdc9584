-- ===== src/Store/Addresses/Transfer.antt =====
-- Moving a name to another pubkey (internal/storage/postgres.go and admin.go).
use cloistr_address.Base.{
  ℕ, String, Bool, true, false, ◌&&◌, Option, none, some, ◌∷◌, ltb, ◌==◌, if◌then◌else◌, find_where,
  count_where, exists_where, update_where, same,
}
use cloistr_address.Db.Tables.{Db, Address, AuditEntry}
use cloistr_address.Db.Exec.{
  not_found, Result, ok, err, Exec, pure, raise, ◌>>=◌, ◌>>◌, try, select, exec, exec_checked,
  Verdict, commit, transaction,
}
use cloistr_address.Db.Schema.{has_name, set_addresses}
use cloistr_address.Store.Addresses.Rows.{
  active_of, has_id, other_active, promote_primary_address, promote_nip05_address, open_ownership,
  close_ownership,
}

-- INSERT INTO users ... ON CONFLICT DO NOTHING: `ensureUser`
unfoldable pub ensure_user : String → Db → Db
ensure_user pubkey db =
    if exists_where (same pubkey) db.users then db else record db { users = pubkey ∷ db.users }

-- UPDATE addresses SET pubkey = $2, is_primary = $3, nip05_active = $3, last_transfer_at = NOW()
abbrev pub moved : String → Bool → ℕ → Address → Address
moved pubkey first now r = record r {
  pubkey = pubkey;
  is_primary = first;
  nip05_active = first;
  last_transfer_at = some now;
}

unfoldable pub move_row : ℕ → String → Bool → ℕ → Db → Option Db
move_row id pubkey first now db =
    set_addresses db (update_where (has_id id) (moved pubkey first now) db.addresses)

-- A promotion made only where the flag moved away from a pubkey that has other addresses.
unfoldable pub promote_if : Bool → (Db → Option Db) → Exec (Unit {0})
promote_if true f = exec_checked f
promote_if false f = pure tt

-- The UPDATE, the promotions and the two intervals of ownership.
unfoldable pub transfer_row : Address → ℕ → ℕ → String → ℕ → Exec (Unit {0})
transfer_row r from_others to_count new_pubkey now = do
  exec_checked (move_row r.id new_pubkey (to_count == 0) now)
  promote_if (r.is_primary && ltb 0 from_others) (promote_primary_address r.pubkey r.id)
  promote_if (r.nip05_active && ltb 0 from_others) (promote_nip05_address r.pubkey r.id)
  exec (close_ownership r.username r.domain r.pubkey now)
  exec (open_ownership r.username r.domain new_pubkey now)

unfoldable pub transfer_found : Option Address → String → ℕ → Exec (Verdict (Unit {0}))
transfer_found none new_pubkey now = raise not_found
transfer_found (some r) new_pubkey now = do
  from_others ← select λ db. count_where (other_active r.pubkey r.id) db.addresses
  to_count ← select λ db. count_where (active_of new_pubkey) db.addresses
  transfer_row r from_others to_count new_pubkey now
  pure (commit tt)

unfoldable pub transfer_body : ℕ → String → ℕ → Exec (Verdict (Unit {0}))
transfer_body id new_pubkey now = do
  exec (ensure_user new_pubkey)
  found ← select λ db. find_where (has_id id) db.addresses
  transfer_found found new_pubkey now

-- `Storage.TransferAddress`
unfoldable pub transfer_address : ℕ → String → Exec (Unit {0})
transfer_address id new_pubkey w = transaction (transfer_body id new_pubkey w.now) w

-- INSERT INTO audit_log: `writeAudit`, with the numeric record id as a parameter of the entry.
unfoldable pub write_audit : AuditEntry → Db → Db
write_audit e db = record db { audit = e ∷ db.audit }

-- What an audit entry of `addresses` holds, with fmt's %d as a parameter.
abbrev pub address_audit : (ℕ → String) → String → String → String → ℕ → String → AuditEntry
address_audit show action actor signature id subject = record {
  table_name = "addresses";
  record_id = show id;
  action = action;
  actor_pubkey = actor;
  subject_pubkey = subject;
  signature = signature;
}

-- `_ = tx.QueryRow(...).Scan(&n)`: a dropped error leaves the count at 0.
abbrev pub count_or_zero : Result ℕ → ℕ
count_or_zero (ok n) = n
count_or_zero (err e) = 0

module _ (show : ℕ → String) where
  unfoldable pub admin_transfer_found :
      String → String → Option Address → String → ℕ → Exec (Verdict (Unit {0}))
  admin_transfer_found actor signature none to_pubkey now = raise not_found
  admin_transfer_found actor signature (some r) to_pubkey now = do
    from_others ← try (select λ db. count_where (other_active r.pubkey r.id) db.addresses)
    to_count ← try (select λ db. count_where (active_of to_pubkey) db.addresses)
    transfer_row r (count_or_zero from_others) (count_or_zero to_count) to_pubkey now
    exec (write_audit (address_audit show "address.transfer" actor signature r.id to_pubkey))
    pure (commit tt)

  -- `Storage.AdminTransferAddress`
  unfoldable pub admin_transfer_address :
      String → String → String → String → String → Exec (Unit {0})
  admin_transfer_address actor signature username domain to_pubkey w =
      transaction
        (do
          exec (ensure_user to_pubkey)
          found ← select λ db. find_where (has_name username domain) db.addresses
          admin_transfer_found actor signature found to_pubkey w.now)
        w
