-- ===== src/Store/Admins.antt =====
-- Who is an admin, what admins look up, and the audit entries that handlers write themselves
-- (internal/storage/admin.go).
use cloistr_address.Base.{
  ℕ, String, Bool, not, ◌&&◌, ◌||◌, Option, none, some, List, ltb, same, exists_where, select_where,
  find_where, sort_by, map,
}
use cloistr_address.Db.Tables.{Address, AuditEntry}
use cloistr_address.Db.Exec.{Exec, pure, ◌>>=◌, ◌>>◌, select, exec, auto, commit, transaction}
use cloistr_address.Store.Addresses.Rows.{active_of, scanned}
use cloistr_address.Store.Addresses.Transfer.{write_audit}

-- `Storage.IsPlatformAdmin`
unfoldable pub is_platform_admin : String → Exec Bool
is_platform_admin pubkey = auto (select λ db. exists_where (same pubkey) db.admins)

-- `Storage.LogAdminAudit`
unfoldable pub log_admin_audit : AuditEntry → Exec (Unit {0})
log_admin_audit e = transaction (exec (write_audit e) >> pure (commit tt))

abbrev older : Address → Address → Bool
older r s = ltb r.created_at s.created_at

unfoldable pub held_by : String → Address → Bool
held_by pubkey r = same r.pubkey pubkey

-- `Storage.AdminListAddressesByPubkey`
unfoldable pub admin_list_addresses_by_pubkey : String → Exec (List Address)
admin_list_addresses_by_pubkey pubkey =
    auto (select λ db. map scanned (sort_by older (select_where (held_by pubkey) db.addresses)))

-- The struct `AddressSummary`.
pub record AddressSummary : Type 0 where
  pub username : String
  pub domain : String
  pub active : Bool
  pub is_primary : Bool
  pub nip05_active : Bool
  pub display_name : Option String
  pub created_at : ℕ

-- The struct `UserLookup`.
pub record UserLookup : Type 0 where
  pub pubkey : String
  pub addresses : List AddressSummary

unfoldable pub summary : Address → AddressSummary
summary r = record {
  username = r.username;
  domain = r.domain;
  active = r.active;
  is_primary = r.is_primary;
  nip05_active = r.nip05_active;
  display_name = r.display_name;
  created_at = r.created_at;
}

-- ORDER BY is_primary DESC, created_at ASC
unfoldable pub primary_first : Address → Address → Bool
primary_first r s =
    r.is_primary && not s.is_primary
    || not (s.is_primary && not r.is_primary) && ltb r.created_at s.created_at

-- username = $1 AND active = TRUE, AND domain = $2 where a domain is given
unfoldable pub looked_up : String → String → Address → Bool
looked_up name domain r =
    same r.username name && r.active && (same domain "" || same r.domain domain)

unfoldable pub lookup_holder : Option Address → Exec (Option UserLookup)
lookup_holder none = pure none
lookup_holder (some r) = do
  rows ← auto (select λ db. sort_by primary_first (select_where (active_of r.pubkey) db.addresses))
  pure (some (record { pubkey = r.pubkey; addresses = map summary rows }))

-- `Storage.AdminLookupUser`
unfoldable pub admin_lookup_user : String → String → Exec (Option UserLookup)
admin_lookup_user name domain = do
  found ← auto (select λ db. find_where (looked_up name domain) db.addresses)
  lookup_holder found
