-- ===== src/Store/Addresses/Holds.antt =====
-- The invariant that the flags serve: a pubkey with an active address has an active primary.
use cloistr_address.Base.{
  ◌≤◌, ◌≡◌, String, Bool, ◌⊎◌, List, if◌then◌else◌, count_where, update_where,
}
use cloistr_address.Base.Rows.{count_where-update_where}
use cloistr_address.Db.Tables.{Db, Address}
use cloistr_address.Store.Addresses.Rows.{active_of, active_primary_of}

abbrev pub HasPrimaryAt : String → List Address → Type 0
HasPrimaryAt k rows =
    (count_where (active_of k) rows ≡ 0) ⊎ (1 ≤ count_where (active_primary_of k) rows)

abbrev pub HasPrimary : Db → Type 0
HasPrimary db = (k : String) → HasPrimaryAt k db.addresses

-- An update that changes neither test for the rows of `k`.
pub HasPrimaryAt-update_where :
    (k : String) (p : Address → Bool) (f : Address → Address) (rows : List Address)
    → ((r : Address) → active_of k (if p r then f r else r) ≡ active_of k r)
    → ((r : Address) → active_primary_of k (if p r then f r else r) ≡ active_primary_of k r)
    → HasPrimaryAt k rows
    → HasPrimaryAt k (update_where p f rows)
HasPrimaryAt-update_where k p f rows a b h =
    rw
      (
        count_where-update_where (active_of k) p f a rows,
        count_where-update_where (active_primary_of k) p f b rows,
      )
      h
