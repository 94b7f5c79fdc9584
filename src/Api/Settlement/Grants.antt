-- ===== src/Api/Settlement/Grants.antt =====
-- Settlement grants once (internal/api/settlement.go).
use cloistr_address.Base.{
  ℕ, ◌+◌, ◌≤◌, ◌≡◌, refl, String, Bool, true, false, Option, some, [], ◌∷◌, arith, same_refl,
  exists_where,
}
use cloistr_address.Base.Signed.{ℤ}
use cloistr_address.Db.Tables.{Db, Product}
use cloistr_address.Db.Exec.{Result, ok, err, World, Exec, ◌>>=◌, statement, auto}
use cloistr_address.Db.Triple.{
  Triple, Triple-pure, Triple-raise, Triple-bind, Triple-auto, Triple-exec, Triple-select,
}
use cloistr_address.Store.Catalog.{
  get_product, quota_grant_exists, add_quota_grant, insert_grant, grant_for,
}
use cloistr_address.Api.Settlement.{
  Quotas, grant_window, granted_quotas, grant_all, settle_window, settle_quotas, granted_outcome,
  settle_found, settle_fresh, settle_product, SettlementOutcome, already_applied, seconds_per_day,
}

-- The table of grants holds one for the invoice.
unfoldable pub granted : String → Db → Bool
granted invoice db = exists_where (grant_for invoice) db.grants

-- A window ends at least a day later.
grant_window_later :
    (now : ℕ) (qs : Quotas) (t : ℕ) → grant_window now qs ≡ ok (some t) → now + 86400 ≤ t
unfolding grant_window seconds_per_day
grant_window_later now qs t h = ground arith

-- On an invoice with a grant, settling writes nothing.
pub settle_product_again :
    (invoice pubkey product : String) (now : ℕ) (w : World)
    → granted invoice w.db ≡ true
    → (settle_product invoice pubkey product now w).1.db ≡ w.db
unfolding settle_product quota_grant_exists auto statement granted settle_fresh
settle_product_again invoice pubkey product now w h = ground arith

module _ (invoice : String) where
  abbrev Granted : Db → Type 0
  Granted db = granted invoice db ≡ true

  abbrev Nothing : Db → Type 0
  Nothing db = Unit

  -- One grant, whatever was there before.
  grant_one :
      (pubkey k : String) (n : ℤ) (t : Option ℕ)
      → Triple Nothing (add_quota_grant pubkey k n "purchase" invoice t) (λ _. Granted)
  unfolding add_quota_grant insert_grant granted exists_where grant_for
  grant_one pubkey k n t =
      Triple-auto Nothing _ (λ _. Granted)
        (Triple-exec Nothing _ Granted (λ db h. ground (arith, same_refl invoice)))

  weaken :
      {A : Type 0} (m : Exec A) → Triple Nothing m (λ _. Granted) → Triple Granted m (λ _. Granted)
  weaken m t = record { run = λ w h a e. t.run w (tt) a e }

  grant_more :
      (pubkey : String) (t : Option ℕ) (qs : Quotas)
      → Triple Granted (grant_all pubkey invoice t qs) (λ _. Granted)
  unfolding grant_all
  grant_more pubkey t [] = Triple-pure Granted tt (λ _. Granted) (λ db h. h)
  grant_more pubkey t ((k, n) ∷ qs) =
      Triple-bind Granted (λ _. Granted) (λ _. Granted) _ _ (weaken _ (grant_one pubkey k n t))
        (λ _. grant_more pubkey t qs)

  grant_some :
      (pubkey : String) (t : Option ℕ) (k : String) (n : ℤ) (qs : Quotas)
      → Triple Nothing (grant_all pubkey invoice t ((k, n) ∷ qs)) (λ _. Granted)
  unfolding grant_all
  grant_some pubkey t k n qs =
      Triple-bind Nothing (λ _. Granted) (λ _. Granted) _ _ (grant_one pubkey k n t)
        (λ _. grant_more pubkey t qs)

  settled_window :
      (pubkey : String) (p : Product) (qs : Quotas) (t : Result (Option ℕ))
      → Triple Nothing (settle_window invoice pubkey p qs t) (λ _. Granted)
  unfolding settle_window granted_outcome
  settled_window pubkey p [] (ok t) =
      Triple-bind Nothing (λ _. Nothing) (λ _. Granted) _ _ (record { run = λ w h a x. tt })
        (λ _. Triple-raise Nothing _ (λ _. Granted))
  settled_window pubkey p ((k, n) ∷ qs) (ok t) =
      Triple-bind Nothing (λ _. Granted) (λ _. Granted) _ _ (grant_some pubkey t k n qs)
        (λ _. Triple-pure Granted _ (λ _. Granted) (λ db h. h))
  settled_window pubkey p qs (err e) = Triple-raise Nothing e (λ _. Granted)

  settled_quotas :
      (pubkey : String) (p : Product) (now : ℕ) (qs : Quotas)
      → Triple Nothing (settle_quotas invoice pubkey p now qs) (λ _. Granted)
  unfolding settle_quotas
  settled_quotas pubkey p now [] = Triple-raise Nothing _ (λ _. Granted)
  settled_quotas pubkey p now (q ∷ qs) =
      settled_window pubkey p (granted_quotas (q ∷ qs)) (grant_window now (q ∷ qs))

  settled_found :
      (pubkey product : String) (now : ℕ)
      → Triple Nothing
          (get_product product >>= (λ p. settle_found invoice pubkey p now))
          (λ _. Granted)
  unfolding settle_found
  settled_found pubkey product now =
      Triple-bind Nothing (λ _. Nothing) (λ _. Granted) _ _ (record { run = λ w h a x. tt })
        (λ p. settled_quotas pubkey p now p.grants_quota_increases)

  -- The flag is what the table says.
  settled_fresh :
      (pubkey product : String) (now : ℕ) (b : Bool)
      → Triple
          (λ db. granted invoice db ≡ b)
          (settle_fresh invoice pubkey product now b)
          (λ _. Granted)
  unfolding settle_fresh
  settled_fresh pubkey product now true =
      Triple-pure (λ db. granted invoice db ≡ true) already_applied (λ _. Granted) (λ db h. h)
  settled_fresh pubkey product now false = record {
    run = λ w h a e. (settled_found pubkey product now).run w tt a e;
  }

-- An invoice that was settled without an error has its grant.
pub settle_product-granted :
    (invoice pubkey product : String) (now : ℕ) (w : World) (o : SettlementOutcome)
    → (settle_product invoice pubkey product now w).0 ≡ ok o
    → granted invoice (settle_product invoice pubkey product now w).1.db ≡ true
unfolding settle_product quota_grant_exists granted
settle_product-granted invoice pubkey product now w o h =
    (Triple-bind (Nothing invoice) (λ b db. granted invoice db ≡ b) (λ _. Granted invoice) _ _
        (Triple-auto (Nothing invoice) _ (λ b db. granted invoice db ≡ b)
          (Triple-select (Nothing invoice) _ (λ b db. granted invoice db ≡ b) (λ db k. refl)))
        (settled_fresh invoice pubkey product now)).run
      w tt o h
