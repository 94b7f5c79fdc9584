-- ===== src/Api/Status/Owner.antt =====
-- Who may see a purchase (internal/api/purchase_status.go).
use cloistr_address.Base.{◌≡◌, ◌≢◌, String, some, arith, Option-cases, inl, inr, eq_of_same}
use cloistr_address.Db.Exec.{ok, World, statement, auto}
use cloistr_address.Store.Addresses.Rows.{get_address_by_username}
use cloistr_address.Api.Http.{meta_text, Reply, status}
use cloistr_address.Api.Gateway.{Invoice, Gateway}
use cloistr_address.Api.Settlement.{meta_pubkey, kind_address, settlement_kind}
use cloistr_address.Api.Status.{
  PurchaseStatusResponse, is_owner, status_of, settled_status, get_purchase_status,
}

-- Reading the state of a purchase changes nothing in the database.
get_purchase_status-db :
    (domain : String) (gw : Gateway) (pubkey id : String) (w : World)
    → (get_purchase_status domain gw pubkey id w).1.db ≡ w.db
unfolding get_purchase_status status_of get_address_by_username auto statement settled_status
get_purchase_status-db domain gw pubkey id w = ground arith

-- An answer about a purchase that is not a 404 is given to the pubkey in the invoice's metadata
-- only, and only of an invoice for an address.
pub get_purchase_status_owner :
    (domain : String) (gw : Gateway) (pubkey id : String) (w : World)
    (r : Reply PurchaseStatusResponse)
    → (get_purchase_status domain gw pubkey id w).0 ≡ ok r
    → status r ≢ 404
    → (i : Invoice) × (gw.get_invoice id ≡ some i)
      × (meta_text meta_pubkey i.metadata ≡ pubkey)
      × (settlement_kind i.metadata ≡ kind_address)
unfolding get_purchase_status status_of is_owner
get_purchase_status_owner domain gw pubkey id w r h n = elim (Option-cases (gw.get_invoice id)) [
  | inl e ↦ absurd (n (ground (arith, e)))
  | inr (i, e) ↦
      (i, e, eq_of_same _ _ (ground (arith, e, n)), eq_of_same _ _ (ground (arith, e, n)))
]
