-- ===== src/Store/Addresses/Register/Keeps.antt =====
-- What every statement of a registration preserves, a registration preserves.
use cloistr_address.Base.{
  ℕ, ◌≡◌, String, Bool, true, false, ◌&&◌, inl, inr, none, some, List, arith, ltb, Bool-cases,
}
use cloistr_address.Db.Tables.{Db, Address, Credit, HistoryEntry}
use cloistr_address.Db.Exec.{World, ok, commit, rollback}
use cloistr_address.Db.Schema.{set_addresses, names_unique, one_flagged, is_primary, nip05_active}
use cloistr_address.Db.Triple.{
  Triple, Triple-pure, Triple-statement, Triple-select, Triple-try_select, Triple-exec,
  Triple-try_exec, Triple-exec_checked, Triple-bind, Triple-transaction, Committed,
}
use cloistr_address.Store.Addresses.Rows.{insert_address, open_ownership, copy_lightning_config}
use cloistr_address.Store.Addresses.Register.{
  Plan, plan, make_primary, demote, primary_id, or_zero, inherits, inherit, register_row,
  demote_incumbent, former_primary, register_planned, register_counted, register_unreserved,
  register_untaken, register_body, atomic_register_address,
}

-- The statements that write.
pub record Kept (P : Db → Type 0) : Type 0 where
  pub inserts :
      (u d p : String) (primary auto : Bool) (now : ℕ) (db : Db) (a : Address) (db' : Db)
      → P db
      → insert_address u d p primary auto none now db ≡ some (a, db')
      → P db'
  pub opens : (u d p : String) (now : ℕ) (db : Db) → P db → P (open_ownership u d p now db)
  pub copies : (source dest : ℕ) (db : Db) → P db → P (copy_lightning_config source dest db)
  pub demotes : (p : String) (db db' : Db) → P db → demote p db ≡ some db' → P db'

module _ (P : Db → Type 0) (k : Kept P) (u d p : String) (auto : Bool) (now : ℕ) where
  keeps_inherit : (pl : Plan) (source dest : ℕ) → Triple P (inherit pl source dest) (λ _. P)
  unfolding inherit
  keeps_inherit pl source dest = elim (Bool-cases (inherits pl source)) [
    | inl e ↦ rw e (
        Triple-bind P (λ _. P) (λ _. P) _ _
          (Triple-try_exec P (copy_lightning_config source dest) (k.copies source dest))
          (λ r. Triple-pure P tt (λ _. P) (λ db h. h)))
    | inr e ↦ rw e (Triple-pure P tt (λ _. P) (λ db h. h))
  ]

  keeps_row :
      (pl : Plan) (source : ℕ) → Triple P (register_row u d p auto now pl source) (Committed P)
  unfolding register_row
  keeps_row pl source =
      Triple-bind P (λ _. P) (Committed P) _ _
        (Triple-statement P _ (λ _. P) (k.inserts u d p (make_primary pl) auto now))
        λ a.
          Triple-bind P (λ _. P) (Committed P) _ _ (Triple-exec P _ P (k.opens u d p now))
            λ _.
              Triple-bind P (λ _. P) (Committed P) _ _ (keeps_inherit pl source a.id)
                (λ _. Triple-pure P (commit (some a)) (Committed P) (λ db h. h))

  keeps_demote : (b : Bool) → Triple P (demote_incumbent p b) (λ _. P)
  unfolding demote_incumbent
  keeps_demote true = Triple-exec_checked P (demote p) P (k.demotes p)
  keeps_demote false = Triple-pure P tt (λ _. P) (λ db h. h)

  keeps_former : (b : Bool) → Triple P (former_primary p b) (λ _. P)
  unfolding former_primary
  keeps_former true = Triple-pure P (ok 0) (λ _. P) (λ db h. h)
  keeps_former false = Triple-try_select P (primary_id p)

  keeps_planned : (pl : Plan) → Triple P (register_planned u d p auto now pl) (Committed P)
  unfolding register_planned
  keeps_planned pl =
      Triple-bind P (λ _. P) (Committed P) _ _ (keeps_former pl.is_first)
        λ source.
          Triple-bind P (λ _. P) (Committed P) _ _ (keeps_demote pl.promotes)
            (λ _. keeps_row pl (or_zero source))

  keeps_counted :
      (active real : ℕ) → Triple P (register_counted u d p auto now (active, real)) (Committed P)
  unfolding register_counted
  keeps_counted active real = elim (Bool-cases (auto && ltb 0 active)) [
    | inl e ↦ rw e (Triple-pure P (rollback none) (Committed P) (λ db h. tt))
    | inr e ↦ rw e (keeps_planned (plan auto active real))
  ]

  keeps_unreserved : (b : Bool) → Triple P (register_unreserved u d p auto now b) (Committed P)
  unfolding register_unreserved
  keeps_unreserved true = Triple-pure P (rollback none) (Committed P) (λ db h. tt)
  keeps_unreserved false =
      Triple-bind P (λ _. P) (Committed P) _ _ (Triple-select P _ (λ _. P) (λ db h. h))
        (λ c. keeps_counted c.0 c.1)

  keeps_untaken : (b : Bool) → Triple P (register_untaken u d p auto now b) (Committed P)
  unfolding register_untaken
  keeps_untaken true = Triple-pure P (rollback none) (Committed P) (λ db h. tt)
  keeps_untaken false =
      Triple-bind P (λ _. P) (Committed P) _ _ (Triple-select P _ (λ _. P) (λ db h. h))
        keeps_unreserved

  keeps_body : Triple P (register_body u d p auto now) (Committed P)
  unfolding register_body
  keeps_body =
      Triple-bind P (λ _. P) (Committed P) _ _ (Triple-select P _ (λ _. P) (λ db h. h))
        keeps_untaken

pub atomic_register_address-keeps :
    (P : Db → Type 0) (k : Kept P) (u d p : String) (auto : Bool) (w : World)
    → P w.db
    → P (atomic_register_address u d p auto w).1.db
unfolding atomic_register_address
atomic_register_address-keeps P k u d p auto w h =
    Triple-transaction P (register_body u d p auto w.now) w h (keeps_body P k u d p auto w.now)

-- The tables of money are as given.
pub record MoneyIs (cs : List Credit) (hs : List HistoryEntry) (db : Db) : Type 0 where
  pub credits : db.credits ≡ cs
  pub history : db.history ≡ hs

money_kept : (cs : List Credit) (hs : List HistoryEntry) → Kept (MoneyIs cs hs)
unfolding insert_address set_addresses open_ownership copy_lightning_config demote
money_kept cs hs = record {
  inserts = λ u d p primary auto now db a db' h e. record {
    credits = ground (arith, h.credits);
    history = ground (arith, h.history);
  };
  opens = λ u d p now db h. record { credits = h.credits; history = h.history };
  copies = λ source dest db h. record {
    credits = ground (arith, h.credits);
    history = ground (arith, h.history);
  };
  demotes = λ p db db' h e. record {
    credits = ground (arith, h.credits);
    history = ground (arith, h.history);
  };
}

-- A registration moves no credits.
pub atomic_register_address-MoneyIs :
    (cs : List Credit) (hs : List HistoryEntry) (u d p : String) (auto : Bool) (w : World)
    → MoneyIs cs hs w.db
    → MoneyIs cs hs (atomic_register_address u d p auto w).1.db
atomic_register_address-MoneyIs cs hs =
    atomic_register_address-keeps (MoneyIs cs hs) (money_kept cs hs)

-- The unique indexes of `addresses` hold.
pub record IndexesHold (db : Db) : Type 0 where
  pub names : names_unique db.addresses ≡ true
  pub primaries : one_flagged is_primary db.addresses ≡ true
  pub nip05s : one_flagged nip05_active db.addresses ≡ true
