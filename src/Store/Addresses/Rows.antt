-- ===== src/Store/Addresses/Rows.antt =====
-- The statements on `addresses`, `address_ownership` and `reserved_usernames`
-- (internal/storage/postgres.go, admin.go), and the lookups made of them.
use cloistr_address.Base.{
  ℕ, ◌+◌, String, Bool, true, false, not, ◌&&◌, ◌||◌, Option, none, some, List, [], ◌∷◌, ltb, ◌==◌,
  if◌then◌else◌, same, find_where, count_where, exists_where, update_where,
}
use cloistr_address.Db.Tables.{Db, Address, Ownership, Lightning, ReservedUsername}
use cloistr_address.Db.Exec.{Exec, select, auto}
use cloistr_address.Db.Schema.{has_name, set_addresses}

-- username = $1 AND domain = $2 AND active = true
unfoldable pub active_name : String → String → Address → Bool
active_name username domain r = has_name username domain r && r.active

-- pubkey = $1 AND active = TRUE
unfoldable pub active_of : String → Address → Bool
active_of pubkey r = r.active && same r.pubkey pubkey

-- ... AND is_primary = TRUE
unfoldable pub active_primary_of : String → Address → Bool
active_primary_of pubkey r = r.is_primary && (r.active && same r.pubkey pubkey)

-- ... AND COALESCE(auto_assigned, FALSE) = FALSE
unfoldable pub real_of : String → Address → Bool
real_of pubkey r = not r.auto_assigned && (r.active && same r.pubkey pubkey)

unfoldable pub has_id : ℕ → Address → Bool
has_id id r = r.id == id

unfoldable pub reserved_name : String → ReservedUsername → Bool
reserved_name username r = same r.username username

-- The columns that the lookups select: neither `auto_assigned` nor `last_transfer_at` is among
-- them, so these fields keep Go's zero values.
unfoldable pub scanned : Address → Address
scanned r = record r { auto_assigned = false; last_transfer_at = none }

abbrev pub scan : Option Address → Option Address
scan none = none
scan (some r) = some (scanned r)

-- `Storage.GetAddressByUsername`
unfoldable pub get_address_by_username : String → String → Exec (Option Address)
get_address_by_username username domain =
    auto (select λ db. scan (find_where (active_name username domain) db.addresses))

-- `Storage.GetPrimaryAddressByPubkey`
unfoldable pub get_primary_address_by_pubkey : String → Exec (Option Address)
get_primary_address_by_pubkey pubkey =
    auto (select λ db. scan (find_where (active_primary_of pubkey) db.addresses))

-- `Storage.CountRealAddresses`
unfoldable pub count_real_addresses : String → Exec ℕ
count_real_addresses pubkey = auto (select λ db. count_where (real_of pubkey) db.addresses)

-- is_username_available() of the database, with its LOWER as a parameter.
unfoldable pub username_available : (String → String) → String → Db → Bool
username_available lower username db = not (
    exists_where (λ (r : Address). r.active && same r.username (lower username)) db.addresses
    || exists_where
        (λ (r : ReservedUsername).
          same r.username (lower username)
          && elim r.reserved_for_pubkey [ none ↦ true | some _ ↦ false ])
        db.reserved)

-- `Storage.IsUsernameAvailable`
unfoldable pub is_username_available : (String → String) → String → Exec Bool
is_username_available lower username = auto (select (username_available lower username))

-- The row with the smallest `created_at` among those that pass: ORDER BY created_at ASC LIMIT 1.
unfoldable pub oldest_where : (Address → Bool) → List Address → Option Address
oldest_where p [] = none
oldest_where p (r ∷ rs) =
    let rest = oldest_where p rs in
    if p r
    then elim rest [
      | none ↦ some r
      | some s ↦ if ltb s.created_at r.created_at then some s else some r
    ]
    else rest

-- pubkey = $1 AND active = TRUE AND id != $2
unfoldable pub other_active : String → ℕ → Address → Bool
other_active pubkey except r = active_of pubkey r && not (has_id except r)

abbrev pub set_primary : Bool → Address → Address
set_primary b r = record r { is_primary = b }

abbrev pub set_nip05 : Bool → Address → Address
set_nip05 b r = record r { nip05_active = b }

-- UPDATE addresses SET ... WHERE id = (SELECT id ... LIMIT 1): no row, no update.
unfoldable pub promote : (Address → Address) → String → ℕ → Db → Option Db
promote set pubkey except db = elim (oldest_where (other_active pubkey except) db.addresses) [
  | none ↦ some db
  | some r ↦ set_addresses db (update_where (has_id r.id) set db.addresses)
]

-- `promotePrimaryAddress`, `promoteNIP05Address`
unfoldable pub promote_primary_address : String → ℕ → Db → Option Db
promote_primary_address = promote (set_primary true)

unfoldable pub promote_nip05_address : String → ℕ → Db → Option Db
promote_nip05_address = promote (set_nip05 true)

-- INSERT INTO address_ownership: `openOwnership`
unfoldable pub open_ownership : String → String → String → ℕ → Db → Db
open_ownership username domain pubkey now db = record db {
  ownership =
      record {
        username = username;
        domain = domain;
        pubkey = pubkey;
        valid_from = now;
        valid_to = none;
      }
      ∷ db.ownership;
}

-- username = $1 AND domain = $2 AND pubkey = $3 AND valid_to IS NULL
unfoldable pub is_open : String → String → String → Ownership → Bool
is_open username domain pubkey o =
    same o.username username
    && (same o.domain domain
        && (same o.pubkey pubkey && elim o.valid_to [ none ↦ true | some _ ↦ false ]))

-- UPDATE address_ownership SET valid_to = NOW(): `closeOwnership`
unfoldable pub close_ownership : String → String → String → ℕ → Db → Db
close_ownership username domain pubkey now db = record db {
  ownership =
      update_where (is_open username domain pubkey) (λ o. record o { valid_to = some now })
        db.ownership;
}

unfoldable pub lightning_of : ℕ → Lightning → Bool
lightning_of id l = l.address_id == id

-- INSERT INTO address_lightning ... SELECT ... ON CONFLICT DO NOTHING: `copyLightningConfig`
unfoldable pub copy_lightning_config : ℕ → ℕ → Db → Db
copy_lightning_config source dest db = elim (find_where (lightning_of source) db.lightning) [
  | none ↦ db
  | some l ↦ if exists_where (lightning_of dest) db.lightning then db else record db {
    lightning =
        record l {
          address_id = dest;
          nwc_last_success_at = none;
          nwc_last_error = none;
          nwc_error_count = 0;
        }
        ∷ db.lightning;
  }
]

-- The row of a new address; `active` and `verified` are set TRUE by every INSERT of the program.
unfoldable pub new_address :
    String → String → String → Bool → Bool → Option String → ℕ → ℕ → Address
new_address username domain pubkey primary auto_assigned display_name now id = record {
  id = id;
  username = username;
  domain = domain;
  pubkey = pubkey;
  active = true;
  verified = true;
  is_primary = primary;
  nip05_active = primary;
  auto_assigned = auto_assigned;
  display_name = display_name;
  created_at = now;
  ban_reason = none;
  last_transfer_at = none;
}

-- INSERT INTO addresses ... RETURNING
unfoldable pub insert_address :
    String → String → String → Bool → Bool → Option String → ℕ → Db → Option (Address × Db)
insert_address username domain pubkey primary auto_assigned display_name now db =
    let r =
      new_address username domain pubkey primary auto_assigned display_name now
        db.next_address_id in
    elim (set_addresses (record db { next_address_id = db.next_address_id + 1 })
      (r ∷ db.addresses)) [ none ↦ none | some db' ↦ some (scanned r, db') ]
