-- ===== src/Api/Addresses/Cooldown.antt =====
-- The cooldown of transfers (internal/api/management.go).
use cloistr_address.Base.{ℕ, ◌≡◌, ◌≢◌, refl, String, Option, none, some, arith}
use cloistr_address.Db.Tables.{Address}
use cloistr_address.Db.Exec.{Result, ok, err, World, statement, auto}
use cloistr_address.Store.Addresses.Rows.{scanned, get_primary_address_by_pubkey}
use cloistr_address.Api.Http.{Reply, status}
use cloistr_address.Api.Addresses.{
  cooling, transfer_held, answer_transfer, transfer_address_handler,
}

-- The row that the handler reads carries no time of a transfer.
get_primary-last_transfer_at :
    (pubkey : String) (w : World) (a : Address)
    → (get_primary_address_by_pubkey pubkey w).0 ≡ ok (some a)
    → a.last_transfer_at ≡ none
unfolding get_primary_address_by_pubkey auto statement scanned
get_primary-last_transfer_at pubkey w a h = ground arith

transfer_held_cooldown :
    (new_pubkey : String) (now : ℕ) (o : Result (Option Address)) (w : World) (r : Reply (Unit {0}))
    → ((a : Address) → o ≡ ok (some a) → a.last_transfer_at ≡ none)
    → (transfer_held new_pubkey now o w).0 ≡ ok r
    → status r ≢ 425
unfolding transfer_held cooling answer_transfer
transfer_held_cooldown new_pubkey now (err e) w r k h x = ground arith
transfer_held_cooldown new_pubkey now (ok none) w r k h x = ground arith
transfer_held_cooldown new_pubkey now (ok (some a)) w r k h x = ground (arith, k a refl)

-- A transfer is never refused because of the cooldown, however recent the last transfer is.
pub transfer_address_handler_cooldown :
    (pubkey new_pubkey : String) (w : World) (r : Reply (Unit {0}))
    → (transfer_address_handler pubkey new_pubkey w).0 ≡ ok r
    → status r ≢ 425
unfolding transfer_address_handler
transfer_address_handler_cooldown pubkey new_pubkey w r h x =
    let held =
      transfer_held_cooldown new_pubkey w.now (get_primary_address_by_pubkey pubkey w).0
        (get_primary_address_by_pubkey pubkey w).1 r
        (λ a e. get_primary-last_transfer_at pubkey w a e) in
    ground (arith, held)
