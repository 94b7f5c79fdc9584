-- ===== src/Store/Addresses/Register/Holder.antt =====
-- A name that was registered is held by the pubkey (internal/storage/postgres.go).
use cloistr_address.Base.{
  ℕ, ◌≡◌, refl, String, Bool, true, false, ◌&&◌, inl, inr, Option, none, some, arith, ltb,
  Bool-cases, find_where, same_refl,
}
use cloistr_address.Db.Tables.{Db, Address}
use cloistr_address.Db.Exec.{World, ok, Verdict, commit, rollback}
use cloistr_address.Db.Schema.{set_addresses, has_name}
use cloistr_address.Db.Triple.{
  Triple, Triple-pure, Triple-statement, Triple-select, Triple-try_select, Triple-exec,
  Triple-try_exec, Triple-exec_checked, Triple-bind, Returned, transaction_returns,
}
use cloistr_address.Store.Addresses.Rows.{
  active_name, new_address, insert_address, open_ownership, copy_lightning_config,
}
use cloistr_address.Store.Addresses.Register.{
  Plan, plan, make_primary, demote, primary_id, or_zero, inherits, inherit, register_row,
  demote_incumbent, former_primary, register_planned, register_counted, register_unreserved,
  register_untaken, register_body, atomic_register_address,
}

-- The active row of a name is the pubkey's.
pub record Holds (u d p : String) (db : Db) : Type 0 where
  pub address : Address
  pub found : find_where (active_name u d) db.addresses ≡ some address
  pub holder : address.pubkey ≡ p

abbrev Any : Db → Type 0
Any db = Unit

module _ (u d p : String) (auto : Bool) (now : ℕ) where
  abbrev Ends : Verdict (Option Address) → Db → Type 0
  Ends = Returned (Holds u d p) (λ o. o ≡ none)

  insert_address-Holds :
      (primary : Bool) (db : Db) (a : Address) (db' : Db)
      → insert_address u d p primary auto none now db ≡ some (a, db')
      → Holds u d p db'
  unfolding insert_address set_addresses find_where active_name has_name new_address
  insert_address-Holds primary db a db' e =
      let row = new_address u d p primary auto none now db.next_address_id in
      record { address = row; found = ground (arith, same_refl u, same_refl d); holder = refl }

  inherit-Holds :
      (pl : Plan) (source dest : ℕ)
      → Triple (Holds u d p) (inherit pl source dest) (λ _. Holds u d p)
  unfolding inherit copy_lightning_config
  inherit-Holds pl source dest = elim (Bool-cases (inherits pl source)) [
    | inl e ↦ rw e (
        Triple-bind (Holds u d p) (λ _. Holds u d p) (λ _. Holds u d p) _ _
          (Triple-try_exec (Holds u d p) (copy_lightning_config source dest) (λ db h. record {
            address = h.address;
            found = ground (arith, h.found);
            holder = h.holder;
          }))
          (λ r. Triple-pure (Holds u d p) tt (λ _. Holds u d p) (λ db h. h)))
    | inr e ↦ rw e (Triple-pure (Holds u d p) tt (λ _. Holds u d p) (λ db h. h))
  ]

  register_row-Holds :
      (pl : Plan) (source : ℕ) → Triple Any (register_row u d p auto now pl source) Ends
  unfolding register_row open_ownership
  register_row-Holds pl source =
      Triple-bind Any (λ _. Holds u d p) Ends _ _
        (Triple-statement Any _ (λ _. Holds u d p)
          (λ db a db' t e. insert_address-Holds (make_primary pl) db a db' e))
        λ a.
          Triple-bind (Holds u d p) (λ _. Holds u d p) Ends _ _
            (Triple-exec (Holds u d p) _ (Holds u d p)
              (λ db h. record { address = h.address; found = h.found; holder = h.holder }))
            λ _.
              Triple-bind (Holds u d p) (λ _. Holds u d p) Ends _ _ (inherit-Holds pl source a.id)
                (λ _. Triple-pure (Holds u d p) (commit (some a)) Ends (λ db h. h))

  demote_incumbent-Any : (b : Bool) → Triple Any (demote_incumbent p b) (λ _. Any)
  unfolding demote_incumbent
  demote_incumbent-Any true = Triple-exec_checked Any (demote p) Any (λ db db' t e. tt)
  demote_incumbent-Any false = Triple-pure Any tt (λ _. Any) (λ db t. tt)

  former_primary-Any : (b : Bool) → Triple Any (former_primary p b) (λ _. Any)
  unfolding former_primary
  former_primary-Any true = Triple-pure Any (ok 0) (λ _. Any) (λ db t. tt)
  former_primary-Any false = Triple-try_select Any (primary_id p)

  register_planned-Holds : (pl : Plan) → Triple Any (register_planned u d p auto now pl) Ends
  unfolding register_planned
  register_planned-Holds pl =
      Triple-bind Any (λ _. Any) Ends _ _ (former_primary-Any pl.is_first)
        λ source.
          Triple-bind Any (λ _. Any) Ends _ _ (demote_incumbent-Any pl.promotes)
            (λ _. register_row-Holds pl (or_zero source))

  register_counted-Holds :
      (active real : ℕ) → Triple Any (register_counted u d p auto now (active, real)) Ends
  unfolding register_counted
  register_counted-Holds active real = elim (Bool-cases (auto && ltb 0 active)) [
    | inl e ↦ rw e (Triple-pure Any (rollback none) Ends (λ db t. refl))
    | inr e ↦ rw e (register_planned-Holds (plan auto active real))
  ]

  register_unreserved-Holds : (b : Bool) → Triple Any (register_unreserved u d p auto now b) Ends
  unfolding register_unreserved
  register_unreserved-Holds true = Triple-pure Any (rollback none) Ends (λ db t. refl)
  register_unreserved-Holds false =
      Triple-bind Any (λ _. Any) Ends _ _ (Triple-select Any _ (λ _. Any) (λ db t. tt))
        (λ c. register_counted-Holds c.0 c.1)

  register_untaken-Holds : (b : Bool) → Triple Any (register_untaken u d p auto now b) Ends
  unfolding register_untaken
  register_untaken-Holds true = Triple-pure Any (rollback none) Ends (λ db t. refl)
  register_untaken-Holds false =
      Triple-bind Any (λ _. Any) Ends _ _ (Triple-select Any _ (λ _. Any) (λ db t. tt))
        register_unreserved-Holds

  register_body-Holds : Triple Any (register_body u d p auto now) Ends
  unfolding register_body
  register_body-Holds =
      Triple-bind Any (λ _. Any) Ends _ _ (Triple-select Any _ (λ _. Any) (λ db t. tt))
        register_untaken-Holds

-- A registration that returns an address has made the pubkey the holder of the name.
pub atomic_register_address-Holds :
    (u d p : String) (auto : Bool) (w : World) (a : Address)
    → (atomic_register_address u d p auto w).0 ≡ ok (some a)
    → Holds u d p (atomic_register_address u d p auto w).1.db
unfolding atomic_register_address
atomic_register_address-Holds u d p auto w a h =
    elim (transaction_returns Any (Holds u d p) (λ o. o ≡ none) (register_body u d p auto w.now) w
      (some a) tt (register_body-Holds u d p auto w.now) h) [
        | inl held ↦ held
        | inr n ↦ absurd (cc n)
      ]
