-- ===== src/Store/Addresses/Register/Primary.antt =====
-- Registration keeps the invariant that a pubkey with an active address has an active primary.
use cloistr_address.Base.{
  ℕ, ◌≤◌, ◌≡◌, refl, String, Bool, true, false, ◌&&◌, inl, inr, Option, none, some, List, ◌∷◌,
  arith, if◌then◌else◌, count_where, update_where, same, same_congr, Bool-cases, ltb, eq_of_same,
}
use cloistr_address.Db.Tables.{Db, Address}
use cloistr_address.Db.Exec.{World, ok, commit, rollback}
use cloistr_address.Db.Schema.{set_addresses}
use cloistr_address.Db.Triple.{
  Triple, Triple-pure, Triple-statement, Triple-select, Triple-try_select, Triple-exec,
  Triple-try_exec, Triple-exec_checked, Triple-bind, Triple-transaction, Committed,
}
use cloistr_address.Store.Addresses.Rows.{
  active_of, active_primary_of, new_address, insert_address, open_ownership, copy_lightning_config,
}
use cloistr_address.Store.Addresses.Holds.{HasPrimaryAt, HasPrimary, HasPrimaryAt-update_where}
use cloistr_address.Store.Addresses.Register.{
  Plan, plan, make_primary, demote, carries_flag, clear_flags, primary_id, or_zero, inherits,
  inherit, register_row, demote_incumbent, former_primary, register_planned, register_counted,
  register_unreserved, register_untaken, register_body, atomic_register_address,
}

-- What holds just before the INSERT: another pubkey's rows are in order, and the new row is primary
-- unless the pubkey has an active primary already.
record Ready (p : String) (primary : Bool) (db : Db) : Type 0 where
  others : (k : String) → same p k ≡ false → HasPrimaryAt k db.addresses
  own :
      (k : String)
      → same p k ≡ true
      → primary ≡ false
      → 1 ≤ count_where (active_primary_of k) db.addresses

-- The new row in front of the table.
insert_row-HasPrimaryAt :
    (u d p : String) (primary auto : Bool) (dn : Option String) (now id : ℕ) (db : Db) (k : String)
    → Ready p primary db
    → HasPrimaryAt k (new_address u d p primary auto dn now id ∷ db.addresses)
unfolding count_where active_of active_primary_of new_address
insert_row-HasPrimaryAt u d p primary auto dn now id db k h = elim (Bool-cases (same p k)) [
  | inl e ↦ ground (arith, h.own k e)
  | inr e ↦ ground (arith, h.others k e)
]

insert_address-HasPrimary :
    (u d p : String) (primary auto : Bool) (dn : Option String) (now : ℕ) (db : Db) (a : Address)
    (db' : Db)
    → Ready p primary db
    → insert_address u d p primary auto dn now db ≡ some (a, db')
    → HasPrimary db'
unfolding insert_address set_addresses
insert_address-HasPrimary u d p primary auto dn now db a db' h e k =
    ground (arith, insert_row-HasPrimaryAt u d p primary auto dn now db.next_address_id db k h)

open_ownership-HasPrimary :
    (u d p : String) (now : ℕ) (db : Db) → HasPrimary db → HasPrimary (open_ownership u d p now db)
unfolding open_ownership
open_ownership-HasPrimary u d p now db h = h

copy_lightning_config-HasPrimary :
    (source dest : ℕ) (db : Db) → HasPrimary db → HasPrimary (copy_lightning_config source dest db)
unfolding copy_lightning_config
copy_lightning_config-HasPrimary source dest db h k = ground (arith, h k)

-- Clearing the flags of `p` touches no other pubkey.
demote-others :
    (p k : String) (rows : List Address)
    → same p k ≡ false
    → HasPrimaryAt k rows
    → HasPrimaryAt k (update_where (carries_flag p) clear_flags rows)
unfolding active_of active_primary_of carries_flag
demote-others p k rows ne h =
    HasPrimaryAt-update_where k (carries_flag p) clear_flags rows (λ r. active_kept r)
      (λ r. primary_kept r) h
  where
    active_kept :
        (r : Address) → active_of k (if carries_flag p r then clear_flags r else r) ≡ active_of k r
    active_kept r = ground arith

    primary_kept :
        (r : Address)
        → active_primary_of k (if carries_flag p r then clear_flags r else r)
          ≡ active_primary_of k r
    primary_kept r = ground (arith, same_congr r.pubkey p k)

inherit-HasPrimary :
    (pl : Plan) (source dest : ℕ) → Triple HasPrimary (inherit pl source dest) (λ _. HasPrimary)
unfolding inherit
inherit-HasPrimary pl source dest = elim (Bool-cases (inherits pl source)) [
  | inl e ↦ rw e (
      Triple-bind HasPrimary (λ _. HasPrimary) (λ _. HasPrimary) _ _
        (Triple-try_exec HasPrimary (copy_lightning_config source dest)
          (copy_lightning_config-HasPrimary source dest))
        (λ r. Triple-pure HasPrimary tt (λ _. HasPrimary) (λ db h. h)))
  | inr e ↦ rw e (Triple-pure HasPrimary tt (λ _. HasPrimary) (λ db h. h))
]

register_row-HasPrimary :
    (u d p : String) (auto : Bool) (now : ℕ) (pl : Plan) (source : ℕ)
    → Triple
        (Ready p (make_primary pl))
        (register_row u d p auto now pl source)
        (Committed HasPrimary)
unfolding register_row
register_row-HasPrimary u d p auto now pl source =
    Triple-bind (Ready p (make_primary pl)) (λ _. HasPrimary) (Committed HasPrimary) _ _
      (Triple-statement (Ready p (make_primary pl)) _ (λ _. HasPrimary)
        (λ db a db' h e.
          insert_address-HasPrimary u d p (make_primary pl) auto none now db a db' h e))
      λ a.
        Triple-bind HasPrimary (λ _. HasPrimary) (Committed HasPrimary) _ _
          (Triple-exec HasPrimary _ HasPrimary (open_ownership-HasPrimary u d p now))
          λ _.
            Triple-bind HasPrimary (λ _. HasPrimary) (Committed HasPrimary) _ _
              (inherit-HasPrimary pl source a.id)
              (λ _. Triple-pure HasPrimary (commit (some a)) (Committed HasPrimary) (λ db h. h))

-- What the counts say: the pubkey has an active address, and so a primary, unless it is the first.
record Counted (p : String) (active : ℕ) (db : Db) : Type 0 where
  invariant : HasPrimary db
  count : count_where (active_of p) db.addresses ≡ active

-- Clearing the flags of `p` leaves the others in order, and the INSERT will be primary.
demote_row-Ready :
    (p : String) (active : ℕ) (db db' : Db)
    → Counted p active db
    → demote p db ≡ some db'
    → Ready p true db'
unfolding demote set_addresses
demote_row-Ready p active db db' h e = record {
  others = λ k ne. ground (arith, demote-others p k db.addresses ne (h.invariant k));
  own = λ k y x. cc x;
}

keep-Ready :
    (p : String) (auto : Bool) (active real : ℕ) (db : Db)
    → (plan auto active real).promotes ≡ false
    → Counted p active db
    → Ready p (make_primary (plan auto active real)) db
unfolding plan make_primary active_of active_primary_of
keep-Ready p auto active real db np h = record {
  others = λ k ne. h.invariant k;
  own = λ k y x. rw (← eq_of_same p k y) (ground (arith, h.count, h.invariant p));
}

promoted :
    (auto : Bool) (active real : ℕ)
    → (plan auto active real).promotes ≡ true
    → make_primary (plan auto active real) ≡ true
unfolding plan make_primary
promoted auto active real e = ground arith

demote_incumbent-Ready :
    (p : String) (auto : Bool) (active real : ℕ)
    → Triple
        (Counted p active)
        (demote_incumbent p (plan auto active real).promotes)
        (λ _. Ready p (make_primary (plan auto active real)))
unfolding demote_incumbent
demote_incumbent-Ready p auto active real = go (plan auto active real).promotes refl
  where
    go :
        (b : Bool)
        → (plan auto active real).promotes ≡ b
        → Triple
            (Counted p active)
            (demote_incumbent p b)
            (λ _. Ready p (make_primary (plan auto active real)))
    go true e = rw (promoted auto active real e) (
        Triple-exec_checked (Counted p active) (demote p) (Ready p true)
          (λ db db' h x. demote_row-Ready p active db db' h x))
    go false e =
        Triple-pure (Counted p active) tt (λ _. Ready p (make_primary (plan auto active real)))
          (λ db h. keep-Ready p auto active real db e h)

former_primary-Counted :
    (p : String) (active : ℕ) (first : Bool)
    → Triple (Counted p active) (former_primary p first) (λ _. Counted p active)
unfolding former_primary
former_primary-Counted p active true =
    Triple-pure (Counted p active) (ok 0) (λ _. Counted p active) (λ db h. h)
former_primary-Counted p active false = Triple-try_select (Counted p active) (primary_id p)

register_planned-HasPrimary :
    (u d p : String) (auto : Bool) (now active real : ℕ)
    → Triple
        (Counted p active)
        (register_planned u d p auto now (plan auto active real))
        (Committed HasPrimary)
unfolding register_planned
register_planned-HasPrimary u d p auto now active real =
    Triple-bind (Counted p active) (λ _. Counted p active) (Committed HasPrimary) _ _
      (former_primary-Counted p active (plan auto active real).is_first)
      λ source.
        Triple-bind (Counted p active) (λ _. Ready p (make_primary (plan auto active real)))
          (Committed HasPrimary) _ _ (demote_incumbent-Ready p auto active real)
          (λ _. register_row-HasPrimary u d p auto now (plan auto active real) (or_zero source))

-- The two counts are taken of one database.
register_counted-HasPrimary :
    (u d p : String) (auto : Bool) (now active real : ℕ)
    → Triple
        (Counted p active)
        (register_counted u d p auto now (active, real))
        (Committed HasPrimary)
unfolding register_counted
register_counted-HasPrimary u d p auto now active real = elim (Bool-cases (auto && ltb 0 active)) [
  | inl e ↦
      rw e (Triple-pure (Counted p active) (rollback none) (Committed HasPrimary) (λ db h. tt))
  | inr e ↦ rw e (register_planned-HasPrimary u d p auto now active real)
]

register_unreserved-HasPrimary :
    (u d p : String) (auto : Bool) (now : ℕ) (reserved : Bool)
    → Triple HasPrimary (register_unreserved u d p auto now reserved) (Committed HasPrimary)
unfolding register_unreserved
register_unreserved-HasPrimary u d p auto now true =
    Triple-pure HasPrimary (rollback none) (Committed HasPrimary) (λ db h. tt)
register_unreserved-HasPrimary u d p auto now false =
    Triple-bind HasPrimary (λ c. Counted p c.0) (Committed HasPrimary) _ _
      (Triple-select HasPrimary _ (λ c. Counted p c.0)
        (λ db h. record { invariant = h; count = refl }))
      (λ c. register_counted-HasPrimary u d p auto now c.0 c.1)

register_untaken-HasPrimary :
    (u d p : String) (auto : Bool) (now : ℕ) (taken : Bool)
    → Triple HasPrimary (register_untaken u d p auto now taken) (Committed HasPrimary)
unfolding register_untaken
register_untaken-HasPrimary u d p auto now true =
    Triple-pure HasPrimary (rollback none) (Committed HasPrimary) (λ db h. tt)
register_untaken-HasPrimary u d p auto now false =
    Triple-bind HasPrimary (λ _. HasPrimary) (Committed HasPrimary) _ _
      (Triple-select HasPrimary _ (λ _. HasPrimary) (λ db h. h))
      (λ r. register_unreserved-HasPrimary u d p auto now r)

register_body-HasPrimary :
    (u d p : String) (auto : Bool) (now : ℕ)
    → Triple HasPrimary (register_body u d p auto now) (Committed HasPrimary)
unfolding register_body
register_body-HasPrimary u d p auto now =
    Triple-bind HasPrimary (λ _. HasPrimary) (Committed HasPrimary) _ _
      (Triple-select HasPrimary _ (λ _. HasPrimary) (λ db h. h))
      (λ t. register_untaken-HasPrimary u d p auto now t)

-- If every pubkey with an active address has an active primary before a registration, then so it
-- is after it, on every branch and whatever statements fail.
pub atomic_register_address-HasPrimary :
    (u d p : String) (auto : Bool) (w : World)
    → HasPrimary w.db
    → HasPrimary (atomic_register_address u d p auto w).1.db
unfolding atomic_register_address
atomic_register_address-HasPrimary u d p auto w h =
    Triple-transaction HasPrimary (register_body u d p auto w.now) w h
      (register_body-HasPrimary u d p auto w.now)
