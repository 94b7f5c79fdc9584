-- ===== src/Db/Triple.antt =====
-- Partial-correctness triples for the body of a transaction: what holds of the database before it
-- and what holds where it returns without an error. One rule for each way to build a body.
use cloistr_address.Base.{
  ◌+◌, ◌≡◌, ◌≢◌, ◌⊎◌, refl, false, ◌||◌, Option, some, arith, Bool-cases, inl, inr,
}
use cloistr_address.Db.Tables.{Db}
use cloistr_address.Db.Exec.{
  Error, database, Result, ok, err, World, Exec, pure, raise, continue, ◌>>=◌, statement, select,
  exec, exec_checked, auto, try, Verdict, commit, rollback, transaction, finish, begun,
  transaction_keeps,
}

pub record Triple {ℓ} {A : Type 0} (P : Db → Type ℓ) (m : Exec A) (Q : A → Db → Type ℓ)
    : Type ℓ where
  pub run : (w : World) → P w.db → (a : A) → (m w).0 ≡ ok a → Q a (m w).1.db

module _ {ℓ} {A : Type 0} where
  pub Triple-pure :
      (P : Db → Type ℓ) (a : A) (Q : A → Db → Type ℓ)
      → ((db : Db) → P db → Q a db)
      → Triple P (pure a) Q
  Triple-pure P a Q k = record {
    run = λ w h b e. let same : a ≡ b = cc e in rw (← same) (k w.db h);
  }

  pub Triple-raise :
      (P : Db → Type ℓ) (e : Error) (Q : A → Db → Type ℓ) → Triple P (raise {A = A} e) Q
  Triple-raise P e Q = record { run = λ w h b x. cc x }

  statement_run :
      (f : Db → Option (A × Db)) (w : World) (a : A)
      → (statement f w).0 ≡ ok a
      → f w.db ≡ some (a, (statement f w).1.db)
  unfolding statement
  statement_run f w a e = ground arith

  pub Triple-statement :
      (P : Db → Type ℓ) (f : Db → Option (A × Db)) (Q : A → Db → Type ℓ)
      → ((db : Db) (a : A) (db' : Db) → P db → f db ≡ some (a, db') → Q a db')
      → Triple P (statement f) Q
  Triple-statement P f Q k = record {
    run = λ w h a e. k w.db a (statement f w).1.db h (statement_run f w a e);
  }

  pub Triple-select :
      (P : Db → Type ℓ) (f : Db → A) (Q : A → Db → Type ℓ)
      → ((db : Db) → P db → Q (f db) db)
      → Triple P (select f) Q
  Triple-select P f Q k =
      Triple-statement P (λ db. some (f db, db)) Q
        (λ db a db' h e.
          let value : f db ≡ a = cc e in
          let state : db ≡ db' = cc e in rw (← value, ← state) (k db h))

  -- An error that the code drops: the statement wrote nothing.
  pub Triple-try_select : (P : Db → Type ℓ) (f : Db → A) → Triple P (try (select f)) (λ _. P)
  Triple-try_select P f = record {
    run = λ w h b e. elim (Bool-cases (w.aborted || w.fault w.tick)) [
      | inl x ↦ unfold statement in rw x h
      | inr x ↦ unfold statement in rw x h
    ];
  }

  -- A statement of its own.
  pub Triple-auto :
      (P : Db → Type ℓ) (m : Exec A) (Q : A → Db → Type ℓ) → Triple P m Q → Triple P (auto m) Q
  unfolding auto
  Triple-auto P m Q t = record { run = λ w h a e. t.run w h a e }

module _ {ℓ} where
  pub Triple-exec :
      (P : Db → Type ℓ) (g : Db → Db) (Q : Db → Type ℓ)
      → ((db : Db) → P db → Q (g db))
      → Triple P (exec g) (λ _. Q)
  Triple-exec P g Q k =
      Triple-statement P (λ db. some (tt, g db)) (λ _. Q)
        (λ db a db' h e. let state : g db ≡ db' = cc e in rw (← state) (k db h))

  pub Triple-try_exec :
      (P : Db → Type ℓ) (g : Db → Db)
      → ((db : Db) → P db → P (g db))
      → Triple P (try (exec g)) (λ _. P)
  Triple-try_exec P g k = record {
    run = λ w h b e. elim (Bool-cases (w.aborted || w.fault w.tick)) [
      | inl x ↦ unfold statement in rw x h
      | inr x ↦ unfold statement in rw x (k w.db h)
    ];
  }

  pub Triple-exec_checked :
      (P : Db → Type ℓ) (g : Db → Option Db) (Q : Db → Type ℓ)
      → ((db db' : Db) → P db → g db ≡ some db' → Q db')
      → Triple P (exec_checked g) (λ _. Q)
  Triple-exec_checked P g Q k =
      Triple-statement P _ (λ _. Q) (λ db a db' h e. k db db' h (ground arith))

module _ {ℓ} {A B : Type 0} where
  continue_run :
      (R : A → Db → Type ℓ) (Q : B → Db → Type ℓ) (f : A → Exec B)
      → ((a : A) → Triple (R a) (f a) Q)
      → (r : Result A) (w : World) → ((a : A) → r ≡ ok a → R a w.db)
      → (b : B) → (continue r f w).0 ≡ ok b
      → Q b (continue r f w).1.db
  continue_run R Q f k (ok a) w h b e = (k a).run w (h a refl) b e
  continue_run R Q f k (err x) w h b e = cc e

  pub Triple-bind :
      (P : Db → Type ℓ) (R : A → Db → Type ℓ) (Q : B → Db → Type ℓ) (m : Exec A) (f : A → Exec B)
      → Triple P m R
      → ((a : A) → Triple (R a) (f a) Q)
      → Triple P (m >>= f) Q
  Triple-bind P R Q m f t k = record {
    run = λ w h b e. continue_run R Q f k (m w).0 (m w).1 (λ a x. t.run w h a x) b e;
  }

-- What a body that commits must establish.
abbrev pub Committed {ℓ} : {A : Type 0} → (Db → Type ℓ) → Verdict A → Db → Type ℓ
Committed P (commit a) db = P db
Committed P (rollback a) db = Unit

pub Triple-transaction {ℓ} :
    {A : Type 0} (P : Db → Type ℓ) (body : Exec (Verdict A)) (w : World)
    → P w.db
    → Triple P body (Committed P)
    → P (transaction body w).1.db
Triple-transaction P body w h t =
    transaction_keeps P body w h (λ a e. t.run (begun w) h (commit a) e)

never_finish :
    {A : Type 0} (w : World) (r : Result (Verdict A)) (w' : World)
    → ((v : Verdict A) → r ≢ ok v)
    → ((a : A) → (finish w r w').0 ≢ ok a) × ((finish w r w').1.db ≡ w.db)
unfolding finish
never_finish w (ok v) w' h = absurd (h v refl)
never_finish w (err e) w' h = (λ a x. cc x, refl)

-- A body that never reaches its end: the transaction fails and leaves the database alone.
pub transaction_never :
    {A : Type 0} (body : Exec (Verdict A)) (w : World)
    → ((v : Verdict A) → (body (begun w)).0 ≢ ok v)
    → ((a : A) → (transaction body w).0 ≢ ok a) × ((transaction body w).1.db ≡ w.db)
unfolding transaction
transaction_never body w h = elim (Bool-cases (w.fault w.tick)) [
  | inl f ↦ rw f (λ a x. cc x, refl)
  | inr f ↦ rw f (never_finish w (body (begun w)).0 (body (begun w)).1 h)
]

-- A SELECT of its own whose error the caller handles: what the caller gets, and the database as it
-- was.
pub record Selected {A B : Type 0} (f : Db → A) (k : Result A → Exec B) (w : World) : Type 0 where
  pub result : Result A
  pub world : World
  pub runs : (try (auto (select f)) >>= k) w ≡ k result world
  pub unchanged : world.db ≡ w.db
  pub found : (a : A) → result ≡ ok a → f w.db ≡ a

pub select_then : {A B : Type 0} (f : Db → A) (k : Result A → Exec B) (w : World) → Selected f k w
unfolding auto statement
select_then f k w = elim (Bool-cases (w.aborted || w.fault w.tick)) [
  | inl x ↦ record {
    result = err database;
    world = record w { tick = w.tick + 1; aborted = false };
    runs = rw x refl;
    unchanged = refl;
    found = λ a e. cc e;
  }
  | inr x ↦ record {
    result = ok (f w.db);
    world = record w { tick = w.tick + 1; aborted = false };
    runs = rw x refl;
    unchanged = refl;
    found = λ a e. cc e;
  }
]

-- What a statement of its own keeps.
pub auto_exec-keeps {ℓ} :
    (P : Db → Type ℓ) (f : Db → Db) (w : World) → P w.db → P (f w.db) → P (auto (exec f) w).1.db
unfolding auto statement
auto_exec-keeps P f w h k = elim (Bool-cases (w.aborted || w.fault w.tick)) [
  | inl e ↦ rw e h
  | inr e ↦ rw e k
]

-- What a transaction that commits has established; it has no branch that rolls back without an
-- error.
abbrev pub OnlyCommitted : {A : Type 0} → (Db → Type 0) → Verdict A → Db → Type 0
OnlyCommitted Q (commit a) db = Q db
OnlyCommitted Q (rollback a) db = ⊥

finish_commits :
    {A : Type 0} (Q : Db → Type 0) (w : World) (r : Result (Verdict A)) (w' : World) (a : A)
    → ((v : Verdict A) → r ≡ ok v → OnlyCommitted Q v w'.db)
    → (finish w r w').0 ≡ ok a
    → Q (finish w r w').1.db
unfolding finish
finish_commits Q w (ok (commit b)) w' a k h = elim (Bool-cases (w'.aborted || w'.fault w'.tick)) [
  | inl e ↦ absurd (cc (rw e at h))
  | inr e ↦ rw e (k (commit b) refl)
]
finish_commits Q w (ok (rollback b)) w' a k h = absurd (k (rollback b) refl)
finish_commits Q w (err e) w' a k h = absurd cc

pub transaction_commits :
    {A : Type 0} (P Q : Db → Type 0) (body : Exec (Verdict A)) (w : World) (a : A)
    → P w.db
    → Triple P body (OnlyCommitted Q)
    → (transaction body w).0 ≡ ok a
    → Q (transaction body w).1.db
unfolding transaction
transaction_commits P Q body w a p t h = elim (Bool-cases (w.fault w.tick)) [
  | inl f ↦ absurd (cc (rw f at h))
  | inr f ↦ rw f (
      finish_commits Q w (body (begun w)).0 (body (begun w)).1 a (λ v e. t.run (begun w) p v e)
        (rw f at h))
]

-- What a body establishes where it commits, and what it answers where it rolls back.
abbrev pub Returned : {A : Type 0} → (Db → Type 0) → (A → Type 0) → Verdict A → Db → Type 0
Returned Q R (commit a) db = Q db
Returned Q R (rollback a) db = R a

finish_returns :
    {A : Type 0} (Q : Db → Type 0) (R : A → Type 0) (w : World) (r : Result (Verdict A))
    (w' : World) (a : A)
    → ((v : Verdict A) → r ≡ ok v → Returned Q R v w'.db)
    → (finish w r w').0 ≡ ok a
    → Q (finish w r w').1.db ⊎ R a
unfolding finish
finish_returns Q R w (ok (commit b)) w' a k h = elim (Bool-cases (w'.aborted || w'.fault w'.tick)) [
  | inl e ↦ absurd (cc (rw e at h))
  | inr e ↦ rw e (inl (k (commit b) refl))
]
finish_returns Q R w (ok (rollback b)) w' a k h =
    let same : b ≡ a = cc h in inr (rw (← same) (k (rollback b) refl))
finish_returns Q R w (err e) w' a k h = absurd cc

-- A transaction that answers has committed, or has rolled back with that answer.
pub transaction_returns :
    {A : Type 0} (P Q : Db → Type 0) (R : A → Type 0) (body : Exec (Verdict A)) (w : World) (a : A)
    → P w.db
    → Triple P body (Returned Q R)
    → (transaction body w).0 ≡ ok a
    → Q (transaction body w).1.db ⊎ R a
unfolding transaction
transaction_returns P Q R body w a p t h = elim (Bool-cases (w.fault w.tick)) [
  | inl f ↦ absurd (cc (rw f at h))
  | inr f ↦ rw f (
      finish_returns Q R w (body (begun w)).0 (body (begun w)).1 a (λ v e. t.run (begun w) p v e)
        (rw f at h))
]
