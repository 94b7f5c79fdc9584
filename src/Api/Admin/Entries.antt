-- ===== src/Api/Admin/Entries.antt =====
-- The audit entries of the admins' changes to reserved names, limits and prices
-- (internal/storage/admin.go).
use cloistr_address.Base.{
  ℕ, ◌≡◌, refl, sym, ap, ◌∙◌, String, Bool, true, false, Option, none, some, List, ◌∷◌, ◌==◌, inl,
  inr, arith, Bool-cases, same, exists_where, find_where, delete_where,
}
use cloistr_address.Base.Signed.{ℤ}
use cloistr_address.Db.Tables.{Db, AuditEntry, UsernameTier}
use cloistr_address.Db.Exec.{
  ok, World, Exec, Verdict, commit, pure, ◌>>◌, exec, select, statement, not_found,
}
use cloistr_address.Db.Triple.{
  Triple, Triple-pure, Triple-raise, Triple-select, Triple-try_select, Triple-statement,
  Triple-exec, Triple-bind, OnlyCommitted, transaction_commits,
}
use cloistr_address.Store.Addresses.Transfer.{ensure_user, write_audit}
use cloistr_address.Store.Reserved.{
  reserves, plain_audit, add_reserved, upsert_reserved, remove_reserved, delete_reserved, removed,
  update_tier, tier_found, set_tier, tier_named,
}
use cloistr_address.Store.Quotas.{
  quota_audit, set_quota, upsert_quota, reset_quota, delete_quota, quota_removed, quota_of,
}

-- The log has exactly one entry more, of the actor and with the actor's signature.
pub record Recorded (actor signature : String) (before : List AuditEntry) (db : Db) : Type 0 where
  pub entry : AuditEntry
  pub one_more : db.audit ≡ entry ∷ before
  pub by : entry.actor_pubkey ≡ actor
  pub signed : entry.signature ≡ signature

upsert_reserved-audit :
    (name : String) (pubkey : Option String) (reason : String) (db : Db)
    → (upsert_reserved name pubkey reason db).audit ≡ db.audit
unfolding upsert_reserved
upsert_reserved-audit name pubkey reason db =
    elim (Bool-cases (exists_where (reserves name) db.reserved)) [
      | inl e ↦ rw e refl
      | inr e ↦ rw e refl
    ]

pub ensure_user-audit : (pubkey : String) (db : Db) → (ensure_user pubkey db).audit ≡ db.audit
unfolding ensure_user
ensure_user-audit pubkey db = elim (Bool-cases (exists_where (same pubkey) db.users)) [
  | inl e ↦ rw e refl
  | inr e ↦ rw e refl
]

upsert_quota-audit :
    (pubkey kind : String) (limit : ℤ) (db : Db)
    → (upsert_quota pubkey kind limit db).audit ≡ db.audit
unfolding upsert_quota
upsert_quota-audit pubkey kind limit db =
    elim (Bool-cases (exists_where (quota_of pubkey kind) db.user_quotas)) [
      | inl e ↦ rw e refl
      | inr e ↦ rw e refl
    ]

delete_reserved-audit :
    (name : String) (db db' : Db) (n : ℕ)
    → delete_reserved name db ≡ some (n, db')
    → db'.audit ≡ db.audit
unfolding delete_reserved
delete_reserved-audit name db db' n h =
    let e : record db { reserved = delete_where (reserves name) db.reserved } ≡ db' =
      ground arith in
    rw (sym e) refl

delete_quota-audit :
    (pubkey kind : String) (db db' : Db) (n : ℕ)
    → delete_quota pubkey kind db ≡ some (n, db')
    → db'.audit ≡ db.audit
unfolding delete_quota
delete_quota-audit pubkey kind db db' n h =
    let e : record db { user_quotas = delete_where (quota_of pubkey kind) db.user_quotas } ≡ db' =
      ground arith in
    rw (sym e) refl

module _ (actor signature : String) (before : List AuditEntry) where
  abbrev pub Same : Db → Type 0
  Same db = db.audit ≡ before

  abbrev pub Done : Verdict (Unit {0}) → Db → Type 0
  Done = OnlyCommitted (Recorded actor signature before)

  -- The entry's INSERT, and with it the last two steps of every operation.
  pub write-Recorded :
      (e : AuditEntry)
      → e.actor_pubkey ≡ actor
      → e.signature ≡ signature
      → Triple Same (exec (write_audit e)) (λ _. Recorded actor signature before)
  unfolding write_audit
  write-Recorded e by signed =
      Triple-exec Same (write_audit e) (Recorded actor signature before) (λ db h. record {
        entry = e;
        one_more = ap (λ (l : List AuditEntry). e ∷ l) h;
        by = by;
        signed = signed;
      })

  pub write-Done :
      (e : AuditEntry)
      → e.actor_pubkey ≡ actor
      → e.signature ≡ signature
      → Triple Same (exec (write_audit e) >> pure (commit tt)) Done
  write-Done e by signed =
      Triple-bind Same (λ _. Recorded actor signature before) Done (exec (write_audit e))
        (λ _. pure (commit tt)) (write-Recorded e by signed)
        (λ _. Triple-pure _ (commit tt) Done (λ db h. h))

  -- A statement that leaves the log alone, before the rest.
  pub then_Done :
      (f : Db → Db) (rest : Exec (Verdict (Unit {0})))
      → ((db : Db) → (f db).audit ≡ db.audit)
      → Triple Same rest Done
      → Triple Same (exec f >> rest) Done
  then_Done f rest k t =
      Triple-bind Same (λ _. Same) Done (exec f) (λ _. rest)
        (Triple-exec Same f Same (λ db h. k db ∙ h)) (λ _. t)

  pub add_reserved-Recorded :
      (name reason : String) (pubkey : Option String) (w : World)
      → w.db.audit ≡ before
      → (add_reserved actor signature name pubkey reason w).0 ≡ ok tt
      → Recorded actor signature before (add_reserved actor signature name pubkey reason w).1.db
  unfolding add_reserved
  add_reserved-Recorded name reason pubkey w h =
      transaction_commits Same (Recorded actor signature before) _ w tt h (
        then_Done (upsert_reserved name pubkey reason) _ (upsert_reserved-audit name pubkey reason)
          (write-Done (plain_audit "reserved_usernames" name "reserved.add" actor signature) refl
            refl))

  removed-Done : (name : String) (b : Bool) → Triple Same (removed actor signature name b) Done
  unfolding removed
  removed-Done name true = Triple-raise Same not_found Done
  removed-Done name false =
      write-Done (plain_audit "reserved_usernames" name "reserved.remove" actor signature) refl refl

  pub remove_reserved-Recorded :
      (name : String) (w : World)
      → w.db.audit ≡ before
      → (remove_reserved actor signature name w).0 ≡ ok tt
      → Recorded actor signature before (remove_reserved actor signature name w).1.db
  unfolding remove_reserved
  remove_reserved-Recorded name w h =
      transaction_commits Same (Recorded actor signature before) _ w tt h (
        Triple-bind Same (λ _. Same) Done (statement (delete_reserved name))
          (λ n. removed actor signature name (n == 0))
          (Triple-statement Same (delete_reserved name) (λ _. Same)
            (λ db n db' p e. delete_reserved-audit name db db' n e ∙ p))
          (λ n. removed-Done name (n == 0)))

  quota_removed-Done :
      (pubkey kind : String) (b : Bool)
      → Triple Same (quota_removed actor signature pubkey kind b) Done
  unfolding quota_removed
  quota_removed-Done pubkey kind true = Triple-raise Same not_found Done
  quota_removed-Done pubkey kind false =
      write-Done (quota_audit "quota.reset" actor signature pubkey kind) refl refl

  pub reset_quota-Recorded :
      (pubkey kind : String) (w : World)
      → w.db.audit ≡ before
      → (reset_quota actor signature pubkey kind w).0 ≡ ok tt
      → Recorded actor signature before (reset_quota actor signature pubkey kind w).1.db
  unfolding reset_quota
  reset_quota-Recorded pubkey kind w h =
      transaction_commits Same (Recorded actor signature before) _ w tt h (
        Triple-bind Same (λ _. Same) Done (statement (delete_quota pubkey kind))
          (λ n. quota_removed actor signature pubkey kind (n == 0))
          (Triple-statement Same (delete_quota pubkey kind) (λ _. Same)
            (λ db n db' p e. delete_quota-audit pubkey kind db db' n e ∙ p))
          (λ n. quota_removed-Done pubkey kind (n == 0)))

  pub set_quota-Recorded :
      (pubkey kind : String) (limit : ℤ) (w : World)
      → w.db.audit ≡ before
      → (set_quota actor signature pubkey kind limit w).0 ≡ ok tt
      → Recorded actor signature before (set_quota actor signature pubkey kind limit w).1.db
  unfolding set_quota
  set_quota-Recorded pubkey kind limit w h =
      transaction_commits Same (Recorded actor signature before) _ w tt h (
        then_Done (ensure_user pubkey) _ (ensure_user-audit pubkey) (
          Triple-bind Same (λ _. Same) Done _ _
            (Triple-try_select Same (λ db. find_where (quota_of pubkey kind) db.user_quotas))
            (λ _.
              then_Done (upsert_quota pubkey kind limit) _ (upsert_quota-audit pubkey kind limit)
                (write-Done (quota_audit "quota.set" actor signature pubkey kind) refl refl))))

  tier_found-Done :
      (name : String) (price : ℕ) (enabled : Bool) (o : Option UsernameTier)
      → Triple Same (tier_found actor signature name price enabled o) Done
  unfolding tier_found
  tier_found-Done name price enabled none = Triple-raise Same not_found Done
  tier_found-Done name price enabled (some t) =
      then_Done (set_tier name price enabled) _ (λ db. unfold set_tier in refl)
        (write-Done (plain_audit "username_tiers" name "tier.update" actor signature) refl refl)

  pub update_tier-Recorded :
      (name : String) (price : ℕ) (enabled : Bool) (w : World)
      → w.db.audit ≡ before
      → (update_tier actor signature name price enabled w).0 ≡ ok tt
      → Recorded actor signature before (update_tier actor signature name price enabled w).1.db
  unfolding update_tier
  update_tier-Recorded name price enabled w h =
      transaction_commits Same (Recorded actor signature before) _ w tt h (
        Triple-bind Same (λ _. Same) Done (select (λ db. find_where (tier_named name) db.tiers)) _
          (Triple-select Same (λ db. find_where (tier_named name) db.tiers) (λ _. Same) (λ db p. p))
          (λ o. tier_found-Done name price enabled o))
