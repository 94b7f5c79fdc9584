-- ===== src/Tests/Store.antt =====
-- The theorems on the storage at concrete states.
use cloistr_address.Base.{
  ℕ, ◌+◌, ◌≤◌, ◌≡◌, ◌≢◌, refl, String, Bool, true, false, none, some, List, [], ◌∷◌, arith, inl,
}
use cloistr_address.Base.Signed.{pos}
use cloistr_address.Db.Tables.{text}
use cloistr_address.Db.Exec.{ok, err, World, calm}
use cloistr_address.Store.Credits.{
  add_invoice_credit_once, set_balance, entry, balance, deduct_credits,
}
use cloistr_address.Store.Credits.Runs.{
  add, withdraw, Call, run_calls, IsLedger, run_calls-IsLedger,
}
use cloistr_address.Store.Credits.Once.{credit_once, add_invoice_credit_once_first}
use cloistr_address.Store.Addresses.Holds.{HasPrimary}
use cloistr_address.Store.Addresses.Register.{atomic_register_address}
use cloistr_address.Store.Addresses.Register.Primary.{atomic_register_address-HasPrimary}
use cloistr_address.Store.Addresses.Register.Holder.{Holds}
use cloistr_address.Store.Addresses.Transfer.{transfer_address}
use cloistr_address.Store.Addresses.Admin.{admin_revoke_address}
use cloistr_address.Store.Addresses.Admin.Revoke.{admin_revoke_address_refused}
use cloistr_address.Tests.{empty_db, start, row, two_names}

abbrev amy : String
amy = "aaaaaaaaaaaaaaaaaaaaaaaaaaaaaaaaaaaaaaaaaaaaaaaaaaaaaaaaaaaaaaaa"

abbrev bob : String
bob = "bbbbbbbbbbbbbbbbbbbbbbbbbbbbbbbbbbbbbbbbbbbbbbbbbbbbbbbbbbbbbbbb"

abbrev two_calls : List Call
two_calls =
    record { op = add amy 500 "promotional" "r1"; fault = λ _. false; now = 5 }
    ∷ record { op = withdraw amy 200 "a@b.io"; fault = λ _. false; now = 6 }
    ∷ []

empty-IsLedger : IsLedger empty_db
unfolding balance cloistr_address.Store.Credits.lookup_balance cloistr_address.Base.all_rows
empty-IsLedger = record { balanced = λ k. refl; accounts = refl }

run_calls-IsLedger_example : IsLedger (run_calls two_calls empty_db)
run_calls-IsLedger_example = run_calls-IsLedger two_calls empty_db empty-IsLedger

abbrev redelivered : World
redelivered = calm (add_invoice_credit_once amy 5 "race_loss" "inv1" start).1.db 2000 0

credit_once_example :
    (add_invoice_credit_once bob 7 "registration_error" "inv1" redelivered).1.db ≡ redelivered.db
unfolding cloistr_address.Store.Credits.is_invoice_credit cloistr_address.Base.same
    cloistr_address.Store.Credits.credit_reason_race_loss
    cloistr_address.Store.Credits.credit_reason_registration_error add_invoice_credit_once
    cloistr_address.Db.Exec.transaction cloistr_address.Db.Exec.statement
    cloistr_address.Store.Credits.insert_history_once cloistr_address.Store.Credits.fits_integer
    cloistr_address.Base.exists_where cloistr_address.Store.Credits.upsert_credits
    cloistr_address.Store.Credits.lookup_balance cloistr_address.Store.Credits.max_bigint
    cloistr_address.Store.Credits.pubkey_format cloistr_address.Store.Credits.is_lower_hex
    cloistr_address.Base.all_rows
credit_once_example =
    credit_once amy bob 5 7 "race_loss" "registration_error" "inv1" start redelivered true refl refl
      refl refl

add_invoice_credit_once_first_example :
    let (answer, w) = add_invoice_credit_once amy 5 "race_loss" "inv1" start in
    (answer ≡ ok true)
    × (w.db ≡ record empty_db {
      credits = set_balance amy (balance amy [] + 5) [];
      history = entry amy (pos 5) "race_loss" (text "inv1") ∷ [];
    })
unfolding cloistr_address.Base.same cloistr_address.Store.Credits.is_invoice_credit
    cloistr_address.Store.Credits.credit_reason_race_loss
    cloistr_address.Store.Credits.Once.credited cloistr_address.Base.exists_where
    cloistr_address.Store.Credits.max_integer balance cloistr_address.Store.Credits.max_bigint
    cloistr_address.Store.Credits.lookup_balance cloistr_address.Store.Credits.pubkey_format
    cloistr_address.Store.Credits.is_lower_hex cloistr_address.Base.all_rows
add_invoice_credit_once_first_example =
    add_invoice_credit_once_first amy 5 "race_loss" "inv1" empty_db 1000 0 refl refl refl refl
      (omega arith) (omega arith)

none-HasPrimary : HasPrimary empty_db
unfolding cloistr_address.Base.count_where
none-HasPrimary k = inl refl

atomic_register_address-HasPrimary_example :
    HasPrimary (atomic_register_address "ada" "cloistr.xyz" "pk" false start).1.db
atomic_register_address-HasPrimary_example =
    atomic_register_address-HasPrimary "ada" "cloistr.xyz" "pk" false start none-HasPrimary

admin_revoke_address_refused_example :
    ((x : Unit)
      → (admin_revoke_address
          (λ _. "1")
          "admin"
          "sig"
          "ada"
          "cloistr.xyz"
          "spam"
          (calm two_names 9 0)).0
        ≢ ok x)
    × ((admin_revoke_address
          (λ _. "1")
          "admin"
          "sig"
          "ada"
          "cloistr.xyz"
          "spam"
          (calm two_names 9 0)).1.db
        ≡ two_names)
unfolding cloistr_address.Base.find_where cloistr_address.Db.Schema.has_name
    cloistr_address.Base.same cloistr_address.Base.count_where
    cloistr_address.Store.Addresses.Rows.other_active cloistr_address.Store.Addresses.Rows.active_of
    cloistr_address.Store.Addresses.Rows.has_id
admin_revoke_address_refused_example =
    admin_revoke_address_refused (λ _. "1") "admin" "sig" "ada" "cloistr.xyz" "spam"
      (row 1 "ada" "pk" true) (calm two_names 9 0) refl refl (omega arith)

-- What the transfer comes to: the other name becomes primary, and the moved one is primary too.
transfer_address_test :
    (transfer_address 1 "other" (calm two_names 9 0)).1.db.addresses
    ≡ record (row 1 "ada" "other" true) { last_transfer_at = some 9 }
      ∷ row 2 "lovelace" "pk" true
      ∷ []
unfolding cloistr_address.Base.same cloistr_address.Base.find_where cloistr_address.Base.count_where
    cloistr_address.Base.exists_where cloistr_address.Base.select_where
    cloistr_address.Base.update_where cloistr_address.Base.all_rows
    cloistr_address.Db.Exec.statement cloistr_address.Db.Exec.auto cloistr_address.Db.Exec.finish
    cloistr_address.Db.Exec.transaction cloistr_address.Store.Addresses.Transfer.ensure_user
    cloistr_address.Store.Addresses.Transfer.move_row
    cloistr_address.Store.Addresses.Transfer.promote_if
    cloistr_address.Store.Addresses.Transfer.transfer_row
    cloistr_address.Store.Addresses.Transfer.transfer_found
    cloistr_address.Store.Addresses.Transfer.transfer_body
    cloistr_address.Store.Addresses.Transfer.transfer_address
    cloistr_address.Store.Addresses.Rows.active_of cloistr_address.Store.Addresses.Rows.has_id
    cloistr_address.Store.Addresses.Rows.oldest_where
    cloistr_address.Store.Addresses.Rows.other_active cloistr_address.Store.Addresses.Rows.promote
    cloistr_address.Store.Addresses.Rows.promote_primary_address
    cloistr_address.Store.Addresses.Rows.promote_nip05_address
    cloistr_address.Store.Addresses.Rows.open_ownership cloistr_address.Store.Addresses.Rows.is_open
    cloistr_address.Store.Addresses.Rows.close_ownership cloistr_address.Db.Schema.has_name
    cloistr_address.Db.Schema.flagged cloistr_address.Db.Schema.names_unique
    cloistr_address.Db.Schema.one_flagged cloistr_address.Db.Schema.set_addresses
transfer_address_test = refl
