-- ===== src/Api/Internal/Verified.antt =====
-- What the verification of an address says (internal/api/internal.go).
use cloistr_address.Base.{
  ◌≡◌, refl, String, Option, none, some, arith, eq_of_same, find_where, Option-cases, inl, inr,
}
use cloistr_address.Db.Tables.{Address}
use cloistr_address.Db.Exec.{Result, ok, err, World, statement, auto}
use cloistr_address.Store.Addresses.Rows.{active_name, scanned, get_address_by_username}
use cloistr_address.Api.Internal.{VerifiedAddress, valid, verify_found, verify_address}

looked_up :
    (username domain : String) (w : World) (a : Address)
    → (get_address_by_username username domain w).0 ≡ ok (some a)
    → (r : Address) × (find_where (active_name username domain) w.db.addresses ≡ some r)
      × (a ≡ scanned r)
unfolding get_address_by_username auto statement
looked_up username domain w a h =
    elim (Option-cases (find_where (active_name username domain) w.db.addresses)) [
      | inl e ↦ absurd (ground (arith, e))
      | inr (r, e) ↦ (r, e, ground (arith, e))
    ]

-- An address is called valid only if the table has an active row of that name that belongs to the
-- pubkey, and it is this row that the answer shows.
pub verify_address_valid :
    (domain username pubkey : String) (w : World) (v : VerifiedAddress)
    → (verify_address domain username pubkey w).0 ≡ ok (valid v)
    → (r : Address) × (find_where (active_name username domain) w.db.addresses ≡ some r)
      × (r.pubkey ≡ pubkey)
      × (v.address_id ≡ r.id)
      × (v.pubkey ≡ pubkey)
unfolding verify_address verify_found scanned
verify_address_valid domain username pubkey w v h =
    go (get_address_by_username username domain w).0 refl
  where
    go :
        (o : Result (Option Address))
        → (get_address_by_username username domain w).0 ≡ o
        → (r : Address) × (find_where (active_name username domain) w.db.addresses ≡ some r)
          × (r.pubkey ≡ pubkey)
          × (v.address_id ≡ r.id)
          × (v.pubkey ≡ pubkey)
    go (err e) x = absurd (ground (arith, x))
    go (ok none) x = absurd (ground (arith, x))
    go (ok (some a)) x =
        let (r, found, e) = looked_up username domain w a x in
        (
          r,
          found,
          ground (arith, x, e, eq_of_same a.pubkey pubkey),
          ground (arith, x, e),
          ground (arith, x, e, eq_of_same a.pubkey pubkey),
        )
