-- ===== src/Api/Admin/Grant.antt =====
-- The audit entry of a granted address (internal/storage/admin.go).
use cloistr_address.Base.{
  ℕ, ◌+◌, ◌≡◌, refl, ◌∙◌, String, Bool, true, false, not, ◌&&◌, Option, some, List, ◌∷◌, ◌==◌, inl,
  inr, arith, Bool-cases, count_where,
}
use cloistr_address.Db.Tables.{Db, Address, AuditEntry}
use cloistr_address.Db.Exec.{ok, World, Verdict, commit, pure, exec, select, statement, try}
use cloistr_address.Db.Triple.{
  Triple, Triple-pure, Triple-select, Triple-try_select, Triple-try_exec, Triple-statement,
  Triple-exec, Triple-bind, OnlyCommitted, transaction_commits,
}
use cloistr_address.Store.Addresses.Rows.{
  insert_address, new_address, copy_lightning_config, active_of, open_ownership,
}
use cloistr_address.Store.Addresses.Register.{former_primary, primary_id, or_zero}
use cloistr_address.Store.Addresses.Transfer.{ensure_user, write_audit, address_audit}
use cloistr_address.Store.Addresses.Admin.{inherit_alias, grant_counted, admin_grant_address}
use cloistr_address.Api.Admin.Entries.{Recorded, Same, write-Recorded, ensure_user-audit}
use cloistr_address.Api.Admin.Names.{set_addresses-audit}

inserted-audit :
    (username domain pubkey : String) (first : Bool) (name : Option String) (now : ℕ) (db db' : Db)
    (a : Address)
    → insert_address username domain pubkey first false name now db ≡ some (a, db')
    → db'.audit ≡ db.audit
unfolding insert_address
inserted-audit username domain pubkey first name now db db' a h =
    set_addresses-audit
      (λ d.
        new_address username domain pubkey first false name now db.next_address_id ∷ d.addresses)
      (record db { next_address_id = db.next_address_id + 1 }) db' (ground arith)

copied-audit : (source dest : ℕ) (db : Db) → (copy_lightning_config source dest db).audit ≡ db.audit
unfolding copy_lightning_config
copied-audit source dest db = ground arith

open_ownership-audit :
    (username domain pubkey : String) (now : ℕ) (db : Db)
    → (open_ownership username domain pubkey now db).audit ≡ db.audit
unfolding open_ownership
open_ownership-audit username domain pubkey now db = refl

module _ (actor signature : String) (before : List AuditEntry) (show : ℕ → String) where
  abbrev GrantDone : Verdict Address → Db → Type 0
  GrantDone = OnlyCommitted (Recorded actor signature before)

  inherit_alias-Same :
      (first : Bool) (source dest : ℕ)
      → Triple
          (Same actor signature before)
          (inherit_alias first source dest)
          (λ _. Same actor signature before)
  unfolding inherit_alias
  inherit_alias-Same first source dest = elim (Bool-cases (not first && not (source == 0))) [
    | inl e ↦ rw e (
        Triple-bind _ (λ _. Same actor signature before) _
          (try (exec (copy_lightning_config source dest))) (λ _. pure tt)
          (Triple-try_exec _ (copy_lightning_config source dest)
            (λ db h. copied-audit source dest db ∙ h))
          (λ _. Triple-pure _ tt _ (λ db h. h)))
    | inr e ↦ rw e (Triple-pure _ tt _ (λ db h. h))
  ]

  grant_counted-Done :
      (username domain pubkey : String) (name : Option String) (now : ℕ) (first : Bool) (source : ℕ)
      → Triple
          (Same actor signature before)
          (grant_counted show actor signature username domain pubkey name now first source)
          GrantDone
  unfolding grant_counted
  grant_counted-Done username domain pubkey name now first source =
      Triple-bind _ (λ _. Same actor signature before) _
        (statement (insert_address username domain pubkey first false name now)) _
        (Triple-statement _ (insert_address username domain pubkey first false name now) _
          (λ db a db' p e. inserted-audit username domain pubkey first name now db db' a e ∙ p))
        (λ a.
          Triple-bind _ (λ _. Same actor signature before) _
            (exec (open_ownership username domain pubkey now)) _
            (Triple-exec _ (open_ownership username domain pubkey now) _
              (λ db h. open_ownership-audit username domain pubkey now db ∙ h))
            (λ _.
              Triple-bind _ (λ _. Same actor signature before) _ (inherit_alias first source a.id) _
                (inherit_alias-Same first source a.id)
                (λ _.
                  Triple-bind _ (λ _. Recorded actor signature before) _
                    (exec (
                      write_audit (address_audit show "address.grant" actor signature a.id pubkey)))
                    (λ _. pure (commit a))
                    (write-Recorded actor signature before
                      (address_audit show "address.grant" actor signature a.id pubkey) refl refl)
                    (λ _. Triple-pure _ (commit a) _ (λ db h. h)))))

  former_primary-Same :
      (pubkey : String) (first : Bool)
      → Triple
          (Same actor signature before)
          (former_primary pubkey first)
          (λ _. Same actor signature before)
  unfolding former_primary
  former_primary-Same pubkey true = Triple-pure _ (ok 0) _ (λ db h. h)
  former_primary-Same pubkey false = Triple-try_select _ (primary_id pubkey)

  pub admin_grant_address-Recorded :
      (username domain pubkey : String) (name : Option String) (a : Address) (w : World)
      → w.db.audit ≡ before
      → (admin_grant_address show actor signature username domain pubkey name w).0 ≡ ok a
      → Recorded actor signature before
          (admin_grant_address show actor signature username domain pubkey name w).1.db
  unfolding admin_grant_address
  admin_grant_address-Recorded username domain pubkey name a w h =
      transaction_commits (Same actor signature before) (Recorded actor signature before) _ w a h (
        Triple-bind _ (λ _. Same actor signature before) _ (exec (ensure_user pubkey)) _
          (Triple-exec _ (ensure_user pubkey) _ (λ db p. ensure_user-audit pubkey db ∙ p))
          (λ _.
            Triple-bind _ (λ _. Same actor signature before) _
              (select (λ db. count_where (active_of pubkey) db.addresses)) _
              (Triple-select _ (λ db. count_where (active_of pubkey) db.addresses) _ (λ db p. p))
              (λ n.
                Triple-bind _ (λ _. Same actor signature before) _ (former_primary pubkey (n == 0))
                  _ (former_primary-Same pubkey (n == 0))
                  (λ source.
                    grant_counted-Done username domain pubkey name w.now (n == 0)
                      (or_zero source)))))
