-- ===== src/Store/Addresses/Register.antt =====
-- Registration of a name (internal/storage/postgres.go).
pub mod Primary
pub mod Keeps
pub mod Holder
pub mod Room
pub mod Free
use cloistr_address.Base.{
  ℕ, String, Bool, true, false, not, ◌&&◌, ◌||◌, Option, none, some, ltb, ◌==◌, if◌then◌else◌,
  find_where, count_where, exists_where, update_where, same,
}
use cloistr_address.Db.Tables.{Db, Address}
use cloistr_address.Db.Exec.{
  Result, ok, err, Exec, pure, ◌>>=◌, ◌>>◌, try, statement, select, exec, exec_checked, Verdict,
  commit, rollback, transaction,
}
use cloistr_address.Db.Schema.{set_addresses}
use cloistr_address.Store.Addresses.Rows.{
  active_name, active_of, active_primary_of, real_of, reserved_name, set_primary, set_nip05,
  open_ownership, copy_lightning_config, insert_address,
}

-- The id of the current primary, 0 where there is none.
unfoldable pub primary_id : String → Db → ℕ
primary_id pubkey db = elim (find_where (active_primary_of pubkey) db.addresses) [
  | none ↦ 0
  | some r ↦ r.id
]

-- `_ = tx.QueryRow(...).Scan(&id)`: an error is dropped, and the id stays 0.
abbrev pub or_zero : Result ℕ → ℕ
or_zero (ok n) = n
or_zero (err e) = 0

unfoldable pub carries_flag : String → Address → Bool
carries_flag pubkey r = active_of pubkey r && (r.is_primary || r.nip05_active)

abbrev pub clear_flags : Address → Address
clear_flags r = record r { is_primary = false; nip05_active = false }

-- UPDATE addresses SET is_primary = FALSE, nip05_active = FALSE WHERE ...
unfoldable pub demote : String → Db → Option Db
demote pubkey db = set_addresses db (update_where (carries_flag pubkey) clear_flags db.addresses)

-- What the counts of active and of real addresses say of a registration.
pub record Plan : Type 0 where
  pub is_first : Bool
  pub promotes : Bool

unfoldable pub make_primary : Plan → Bool
make_primary p = p.is_first || p.promotes

unfoldable pub plan : Bool → ℕ → ℕ → Plan
plan auto_assigned active real = record {
  is_first = active == 0;
  promotes = not (active == 0) && (not auto_assigned && real == 0);
}

-- The alias, and the promoted name, take over the Lightning configuration of the former primary.
unfoldable pub inherits : Plan → ℕ → Bool
inherits p source = (not (make_primary p) && not (source == 0)) || (p.promotes && not (source == 0))

-- An error of the copy is logged and dropped.
unfoldable pub inherit : Plan → ℕ → ℕ → Exec (Unit {0})
unfolding inherits
inherit p source dest =
    if inherits p source
    then try (exec (copy_lightning_config source dest)) >>= (λ _. pure tt)
    else pure tt

-- From the INSERT to the commit.
unfoldable pub register_row :
    String → String → String → Bool → ℕ → Plan → ℕ → Exec (Verdict (Option Address))
register_row username domain pubkey auto_assigned now p source = do
  addr ← statement (insert_address username domain pubkey (make_primary p) auto_assigned none now)
  exec (open_ownership username domain pubkey now)
  inherit p source addr.id
  pure (commit (some addr))

-- The demotion of the incumbent, made before the INSERT because of the unique indexes.
unfoldable pub demote_incumbent : String → Bool → Exec (Unit {0})
demote_incumbent pubkey true = exec_checked (demote pubkey)
demote_incumbent pubkey false = pure tt

unfoldable pub former_primary : String → Bool → Exec (Result ℕ)
former_primary pubkey true = pure (ok 0)
former_primary pubkey false = try (select (primary_id pubkey))

unfoldable pub register_planned :
    String → String → String → Bool → ℕ → Plan → Exec (Verdict (Option Address))
register_planned username domain pubkey auto_assigned now p = do
  source ← former_primary pubkey p.is_first
  demote_incumbent pubkey p.promotes
  register_row username domain pubkey auto_assigned now p (or_zero source)

-- An auto-assigned address is only for an identity with none.
unfoldable pub register_counted :
    String → String → String → Bool → ℕ → ℕ × ℕ → Exec (Verdict (Option Address))
register_counted username domain pubkey auto_assigned now (active, real) =
    if auto_assigned && ltb 0 active
    then pure (rollback none)
    else register_planned username domain pubkey auto_assigned now (plan auto_assigned active real)

unfoldable pub register_unreserved :
    String → String → String → Bool → ℕ → Bool → Exec (Verdict (Option Address))
register_unreserved username domain pubkey auto_assigned now true = pure (rollback none)
register_unreserved username domain pubkey auto_assigned now false = do
  counts ←
      select λ db.
        (count_where (active_of pubkey) db.addresses, count_where (real_of pubkey) db.addresses)
  register_counted username domain pubkey auto_assigned now counts

unfoldable pub register_untaken :
    String → String → String → Bool → ℕ → Bool → Exec (Verdict (Option Address))
register_untaken username domain pubkey auto_assigned now true = pure (rollback none)
register_untaken username domain pubkey auto_assigned now false = do
  reserved ← select λ db. exists_where (reserved_name username) db.reserved
  register_unreserved username domain pubkey auto_assigned now reserved

unfoldable pub register_body : String → String → String → Bool → ℕ → Exec (Verdict (Option Address))
register_body username domain pubkey auto_assigned now = do
  taken ← select λ db. exists_where (active_name username domain) db.addresses
  register_untaken username domain pubkey auto_assigned now taken

-- `Storage.AtomicRegisterAddress`: `none` where the name is taken or reserved.
unfoldable pub atomic_register_address : String → String → String → Bool → Exec (Option Address)
unfolding register_body register_untaken register_unreserved register_counted register_planned
    former_primary demote_incumbent register_row inherit
atomic_register_address username domain pubkey auto_assigned w =
    transaction (register_body username domain pubkey auto_assigned w.now) w
