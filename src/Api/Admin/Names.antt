-- ===== src/Api/Admin/Names.antt =====
-- The audit entries of the admins' changes to names (internal/storage/admin.go).
use cloistr_address.Base.{
  ℕ, ◌≡◌, refl, sym, ◌∙◌, String, Bool, true, false, ◌&&◌, Option, none, some, List, ◌==◌, ltb, inl,
  inr, arith, Bool-cases, Option-cases, same, find_where, count_where, update_where,
}
use cloistr_address.Db.Tables.{Db, Address, AuditEntry}
use cloistr_address.Db.Exec.{
  ok, World, Exec, Verdict, ◌>>◌, exec, exec_checked, select, statement, try, not_found, message,
}
use cloistr_address.Db.Triple.{
  Triple, Triple-pure, Triple-raise, Triple-select, Triple-try_select, Triple-statement,
  Triple-exec, Triple-exec_checked, Triple-bind, transaction_commits,
}
use cloistr_address.Db.Schema.{has_name, set_addresses}
use cloistr_address.Store.Addresses.Rows.{
  active_of, active_name, has_id, other_active, oldest_where, promote, promote_primary_address,
  promote_nip05_address, open_ownership, close_ownership, set_primary, set_nip05,
}
use cloistr_address.Store.Addresses.Transfer.{
  ensure_user, address_audit, count_or_zero, promote_if, move_row, moved, transfer_row,
  admin_transfer_found, admin_transfer_address,
}
use cloistr_address.Store.Addresses.Admin.{
  ban_row, banned, promote_after, unset_flag, set_flag, move_flag_to, move_flag,
  set_address_primary, set_address_nip05, revoke_rest, revoke_found, revoke_body,
  admin_revoke_address,
}
use cloistr_address.Api.Admin.Entries.{
  Recorded, Same, Done, then_Done, write-Done, ensure_user-audit,
}

-- A checked write that leaves the log alone.
abbrev pub KeepsLog : (Db → Option Db) → Type 0
KeepsLog f = (db db' : Db) → f db ≡ some db' → db'.audit ≡ db.audit

pub set_addresses-audit : (rows : Db → List Address) → KeepsLog (λ db. set_addresses db (rows db))
unfolding set_addresses
set_addresses-audit rows db db' h =
    let e : record db { addresses = rows db } ≡ db' = ground arith in rw (sym e) refl

promote-audit :
    (set : Address → Address) (pubkey : String) (except : ℕ) → KeepsLog (promote set pubkey except)
unfolding promote
promote-audit set pubkey except db db' h =
    elim (Option-cases (oldest_where (other_active pubkey except) db.addresses)) [
      | inl e ↦ let q : db ≡ db' = ground (arith, e) in rw (← q) refl
      | inr (r, e) ↦
          set_addresses-audit (λ d. update_where (has_id r.id) set d.addresses) db db'
            (ground (arith, e))
    ]

ban_row-audit :
    (username domain reason : String) (db db' : Db) (o : Option Address)
    → ban_row username domain reason db ≡ some (o, db')
    → db'.audit ≡ db.audit
unfolding ban_row
ban_row-audit username domain reason db db' o h =
    set_addresses-audit (λ d. update_where (has_name username domain) (banned reason) d.addresses)
      db db' (ground arith)

module _ (actor signature : String) (before : List AuditEntry) where
  checked_Same :
      (f : Db → Option Db)
      → KeepsLog f
      → Triple (Same actor signature before) (exec_checked f) (λ _. Same actor signature before)
  checked_Same f k =
      Triple-exec_checked (Same actor signature before) f (Same actor signature before)
        (λ db db' p e. k db db' e ∙ p)

  then_checked :
      (f : Db → Option Db) (rest : Exec (Verdict (Unit {0})))
      → KeepsLog f
      → Triple (Same actor signature before) rest (Done actor signature before)
      → Triple (Same actor signature before) (exec_checked f >> rest) (Done actor signature before)
  then_checked f rest k t =
      Triple-bind _ (λ _. Same actor signature before) _ (exec_checked f) (λ _. rest)
        (checked_Same f k) (λ _. t)

  promote_if-Same :
      (b : Bool) (f : Db → Option Db)
      → KeepsLog f
      → Triple (Same actor signature before) (promote_if b f) (λ _. Same actor signature before)
  unfolding promote_if
  promote_if-Same true f k = checked_Same f k
  promote_if-Same false f k = Triple-pure _ tt _ (λ db h. h)

  then_Same :
      (m : Exec (Unit {0})) (rest : Exec (Verdict (Unit {0})))
      → Triple (Same actor signature before) m (λ _. Same actor signature before)
      → Triple (Same actor signature before) rest (Done actor signature before)
      → Triple (Same actor signature before) (m >> rest) (Done actor signature before)
  then_Same m rest k t = Triple-bind _ (λ _. Same actor signature before) _ m (λ _. rest) k (λ _. t)

  module _ (show : ℕ → String) where
    move_flag-Done :
        (flag : Address → Bool) (set : Bool → Address → Address) (action pubkey : String)
        (o : Option Address)
        → Triple
            (Same actor signature before)
            (move_flag show flag set action actor signature pubkey o)
            (Done actor signature before)
    unfolding move_flag move_flag_to unset_flag set_flag
    move_flag-Done flag set action pubkey none = Triple-raise _ not_found _
    move_flag-Done flag set action pubkey (some r) = elim (Bool-cases (same r.pubkey pubkey)) [
      | inl e ↦ rw e (
          then_checked (unset_flag flag set pubkey) _
            (set_addresses-audit
              (λ d. update_where (λ r. same r.pubkey pubkey && flag r) (set false) d.addresses))
            (then_checked (set_flag set r.id) _
              (set_addresses-audit (λ d. update_where (has_id r.id) (set true) d.addresses))
              (write-Done actor signature before
                (address_audit show action actor signature r.id pubkey) refl refl)))
      | inr e ↦ rw e (Triple-raise _ (message "address does not belong to pubkey") _)
    ]

    pub set_address_primary-Recorded :
        (username domain pubkey : String) (w : World)
        → w.db.audit ≡ before
        → (set_address_primary show actor signature username domain pubkey w).0 ≡ ok tt
        → Recorded actor signature before
            (set_address_primary show actor signature username domain pubkey w).1.db
    unfolding set_address_primary
    set_address_primary-Recorded username domain pubkey w h =
        transaction_commits (Same actor signature before) (Recorded actor signature before) _ w tt h
          (Triple-bind _ (λ _. Same actor signature before) _
            (select (λ db. find_where (active_name username domain) db.addresses)) _
            (Triple-select _ (λ db. find_where (active_name username domain) db.addresses) _
              (λ db p. p))
            (λ o. move_flag-Done _ set_primary "address.set_primary" pubkey o))

    pub set_address_nip05-Recorded :
        (username domain pubkey : String) (w : World)
        → w.db.audit ≡ before
        → (set_address_nip05 show actor signature username domain pubkey w).0 ≡ ok tt
        → Recorded actor signature before
            (set_address_nip05 show actor signature username domain pubkey w).1.db
    unfolding set_address_nip05
    set_address_nip05-Recorded username domain pubkey w h =
        transaction_commits (Same actor signature before) (Recorded actor signature before) _ w tt h
          (Triple-bind _ (λ _. Same actor signature before) _
            (select (λ db. find_where (active_name username domain) db.addresses)) _
            (Triple-select _ (λ db. find_where (active_name username domain) db.addresses) _
              (λ db p. p))
            (λ o. move_flag-Done _ set_nip05 "address.set_nip05" pubkey o))

    promote_after-Same :
        (b : Bool) (pubkey : String) (f : Db → Option Db)
        → KeepsLog f
        → Triple
            (Same actor signature before)
            (promote_after b pubkey f)
            (λ _. Same actor signature before)
    unfolding promote_after
    promote_after-Same false pubkey f k = Triple-pure _ tt _ (λ db h. h)
    promote_after-Same true pubkey f k =
        Triple-bind _ (λ _. Same actor signature before) _
          (try (select (λ db. count_where (active_of pubkey) db.addresses))) _
          (Triple-try_select _ (λ db. count_where (active_of pubkey) db.addresses))
          (λ n. promote_if-Same (ltb 0 (count_or_zero n)) f k)

    revoke_found-Done :
        (username domain : String) (now : ℕ) (o : Option Address)
        → Triple
            (Same actor signature before)
            (revoke_found show actor signature username domain now o)
            (Done actor signature before)
    unfolding revoke_found revoke_rest
    revoke_found-Done username domain now none = Triple-raise _ not_found _
    revoke_found-Done username domain now (some r) =
        then_Done actor signature before (close_ownership username domain r.pubkey now) _
          (λ db. unfold close_ownership in refl)
          (then_Same (promote_after r.is_primary r.pubkey (promote_primary_address r.pubkey r.id)) _
            (promote_after-Same r.is_primary r.pubkey _
              (unfold promote_primary_address in promote-audit (set_primary true) r.pubkey r.id))
            (then_Same (promote_after r.nip05_active r.pubkey (promote_nip05_address r.pubkey r.id))
              _
              (promote_after-Same r.nip05_active r.pubkey _
                (unfold promote_nip05_address in promote-audit (set_nip05 true) r.pubkey r.id))
              (write-Done actor signature before
                (address_audit show "address.revoke" actor signature r.id r.pubkey) refl refl)))

    pub admin_revoke_address-Recorded :
        (username domain reason : String) (w : World)
        → w.db.audit ≡ before
        → (admin_revoke_address show actor signature username domain reason w).0 ≡ ok tt
        → Recorded actor signature before
            (admin_revoke_address show actor signature username domain reason w).1.db
    unfolding admin_revoke_address revoke_body
    admin_revoke_address-Recorded username domain reason w h =
        transaction_commits (Same actor signature before) (Recorded actor signature before) _ w tt h
          (Triple-bind _ (λ _. Same actor signature before) _
            (statement (ban_row username domain reason)) _
            (Triple-statement _ (ban_row username domain reason) _
              (λ db o db' p e. ban_row-audit username domain reason db db' o e ∙ p))
            (λ o. revoke_found-Done username domain w.now o))

    unit_Same :
        (m n : Exec (Unit {0}))
        → Triple (Same actor signature before) m (λ _. Same actor signature before)
        → Triple (Same actor signature before) n (λ _. Same actor signature before)
        → Triple (Same actor signature before) (m >> n) (λ _. Same actor signature before)
    unit_Same m n k t = Triple-bind _ (λ _. Same actor signature before) _ m (λ _. n) k (λ _. t)

    transfer_row-Same :
        (r : Address) (others count : ℕ) (pubkey : String) (now : ℕ)
        → Triple
            (Same actor signature before)
            (transfer_row r others count pubkey now)
            (λ _. Same actor signature before)
    unfolding transfer_row
    transfer_row-Same r others count pubkey now =
        unit_Same (exec_checked (move_row r.id pubkey (count == 0) now)) _
          (checked_Same (move_row r.id pubkey (count == 0) now) (
            unfold move_row in
            set_addresses-audit
              (λ db. update_where (has_id r.id) (moved pubkey (count == 0) now) db.addresses)))
          (unit_Same
            (promote_if (r.is_primary && ltb 0 others) (promote_primary_address r.pubkey r.id)) _
            (promote_if-Same _ _
              (unfold promote_primary_address in promote-audit (set_primary true) r.pubkey r.id))
            (unit_Same
              (promote_if (r.nip05_active && ltb 0 others) (promote_nip05_address r.pubkey r.id)) _
              (promote_if-Same _ _
                (unfold promote_nip05_address in promote-audit (set_nip05 true) r.pubkey r.id))
              (unit_Same (exec (close_ownership r.username r.domain r.pubkey now))
                (exec (open_ownership r.username r.domain pubkey now))
                (Triple-exec _ (close_ownership r.username r.domain r.pubkey now) _
                  (λ db h. unfold close_ownership in h))
                (Triple-exec _ (open_ownership r.username r.domain pubkey now) _
                  (λ db h. unfold open_ownership in h)))))

    admin_transfer_found-Done :
        (o : Option Address) (pubkey : String) (now : ℕ)
        → Triple
            (Same actor signature before)
            (admin_transfer_found show actor signature o pubkey now)
            (Done actor signature before)
    unfolding admin_transfer_found
    admin_transfer_found-Done none pubkey now = Triple-raise _ not_found _
    admin_transfer_found-Done (some r) pubkey now =
        Triple-bind _ (λ _. Same actor signature before) _
          (try (select (λ db. count_where (other_active r.pubkey r.id) db.addresses))) _
          (Triple-try_select _ (λ db. count_where (other_active r.pubkey r.id) db.addresses))
          (λ m.
            Triple-bind _ (λ _. Same actor signature before) _
              (try (select (λ db. count_where (active_of pubkey) db.addresses))) _
              (Triple-try_select _ (λ db. count_where (active_of pubkey) db.addresses))
              (λ n.
                then_Same (transfer_row r (count_or_zero m) (count_or_zero n) pubkey now) _
                  (transfer_row-Same r (count_or_zero m) (count_or_zero n) pubkey now)
                  (write-Done actor signature before
                    (address_audit show "address.transfer" actor signature r.id pubkey) refl refl)))

    pub admin_transfer_address-Recorded :
        (username domain pubkey : String) (w : World)
        → w.db.audit ≡ before
        → (admin_transfer_address show actor signature username domain pubkey w).0 ≡ ok tt
        → Recorded actor signature before
            (admin_transfer_address show actor signature username domain pubkey w).1.db
    unfolding admin_transfer_address
    admin_transfer_address-Recorded username domain pubkey w h =
        transaction_commits (Same actor signature before) (Recorded actor signature before) _ w tt h
          (then_Done actor signature before (ensure_user pubkey) _ (ensure_user-audit pubkey) (
            Triple-bind _ (λ _. Same actor signature before) _
              (select (λ db. find_where (has_name username domain) db.addresses)) _
              (Triple-select _ (λ db. find_where (has_name username domain) db.addresses) _
                (λ db p. p))
              (λ o. admin_transfer_found-Done o pubkey w.now)))
