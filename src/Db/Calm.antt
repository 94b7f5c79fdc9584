-- ===== src/Db/Calm.antt =====
-- Total-correctness triples: what a body comes to where no statement fails.
use cloistr_address.Base.{ℕ, ◌+◌, ◌≡◌, refl, Option, some}
use cloistr_address.Db.Tables.{Db}
use cloistr_address.Db.Exec.{
  ok, Exec, pure, ◌>>=◌, statement, select, exec, exec_checked, try, Verdict, commit, rollback,
  transaction, finish, calm,
}

pub record Done {A : Type 0} (m : Exec A) (Q : A → Db → Type 0) (db : Db) (now tick : ℕ)
    : Type 0 where
  pub value : A
  pub after : Db
  pub ticks : ℕ
  pub runs : m (calm db now tick) ≡ (ok value, calm after now ticks)
  pub holds : Q value after

pub record Total {A : Type 0} (P : Db → Type 0) (m : Exec A) (Q : A → Db → Type 0) : Type 0 where
  pub run : (db : Db) (now tick : ℕ) → P db → Done m Q db now tick

module _ {A : Type 0} where
  pub Total-pure :
      (P : Db → Type 0) (a : A) (Q : A → Db → Type 0)
      → ((db : Db) → P db → Q a db)
      → Total P (pure a) Q
  Total-pure P a Q k = record {
    run = λ db now tick h. record {
      value = a;
      after = db;
      ticks = tick;
      runs = refl;
      holds = k db h;
    };
  }

  pub Total-statement :
      (P : Db → Type 0) (f : Db → Option (A × Db)) (Q : A → Db → Type 0)
      → ((db : Db) → P db → (a : A) × (db' : Db) × (f db ≡ some (a, db')) × Q a db')
      → Total P (statement f) Q
  unfolding statement
  Total-statement P f Q k = record {
    run = λ db now tick h.
        let (a, db', e, q) = k db h in
        record { value = a; after = db'; ticks = tick + 1; runs = rw e refl; holds = q };
  }

  pub Total-select :
      (P : Db → Type 0) (f : Db → A) (Q : A → Db → Type 0)
      → ((db : Db) → P db → Q (f db) db)
      → Total P (select f) Q
  Total-select P f Q k =
      Total-statement P (λ db. some (f db, db)) Q (λ db h. (f db, db, refl, k db h))

  pub Total-try :
      (P : Db → Type 0) (m : Exec A) (Q : Db → Type 0)
      → Total P m (λ _. Q)
      → Total P (try m) (λ _. Q)
  Total-try P m Q t = record {
    run = λ db now tick h.
        let d = t.run db now tick h in
        record {
          value = ok d.value;
          after = d.after;
          ticks = d.ticks;
          runs = rw (d.runs) refl;
          holds = d.holds;
        };
  }

pub Total-exec :
    (P : Db → Type 0) (g : Db → Db) (Q : Db → Type 0)
    → ((db : Db) → P db → Q (g db))
    → Total P (exec g) (λ _. Q)
Total-exec P g Q k =
    Total-statement P (λ db. some (tt, g db)) (λ _. Q) (λ db h. (tt, g db, refl, k db h))

pub Total-exec_checked :
    (P : Db → Type 0) (g : Db → Option Db) (Q : Db → Type 0)
    → ((db : Db) → P db → (db' : Db) × (g db ≡ some db') × Q db')
    → Total P (exec_checked g) (λ _. Q)
Total-exec_checked P g Q k =
    Total-statement P _ (λ _. Q) (λ db h. let (db', e, q) = k db h in (tt, db', rw e refl, q))

pub Total-bind :
    {A B : Type 0} (P : Db → Type 0) (R : A → Db → Type 0) (Q : B → Db → Type 0) (m : Exec A)
    (f : A → Exec B)
    → Total P m R
    → ((a : A) → Total (R a) (f a) Q)
    → Total P (m >>= f) Q
Total-bind P R Q m f t k = record {
  run = λ db now tick h.
      let d = t.run db now tick h in
      let e = (k d.value).run d.after now d.ticks (d.holds) in
      record {
        value = e.value;
        after = e.after;
        ticks = e.ticks;
        runs = rw (d.runs) (e.runs);
        holds = e.holds;
      };
}

-- A body that commits.
abbrev pub Commits : {A : Type 0} → (A → Db → Type 0) → Verdict A → Db → Type 0
Commits Q (commit a) db = Q a db
Commits Q (rollback a) db = ⊥

finish-Commits :
    {A : Type 0} (Q : A → Db → Type 0) (v : Verdict A) (before db : Db) (now tick n : ℕ)
    → Commits Q v db
    → (a : A) × ((finish (calm before now n) (ok v) (calm db now tick)).0 ≡ ok a) × Q a db
unfolding finish
finish-Commits Q (commit a) before db now tick n h = (a, refl, h)
finish-Commits Q (rollback a) before db now tick n h = absurd h

pub transaction_succeeds :
    {A : Type 0} (P : Db → Type 0) (Q : A → Db → Type 0) (body : Exec (Verdict A)) (db : Db)
    (now tick : ℕ)
    → P db
    → Total P body (Commits Q)
    → (a : A) × (after : Db) × ((transaction body (calm db now tick)).0 ≡ ok a) × Q a after
unfolding transaction
transaction_succeeds P Q body db now tick p t =
    let d = t.run db now (tick + 1) p in
    let (a, e, q) = finish-Commits Q (d.value) db (d.after) now (d.ticks) tick (d.holds) in
    (a, d.after, rw (d.runs) e, q)
