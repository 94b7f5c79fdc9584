-- ===== src/Db/Exec.antt =====
-- Statements and transactions of internal/storage over database/sql.
--
-- A `World` is what a request runs in: the database, the current time, and the database's failures.
-- `fault n` says whether the n-th statement fails for a reason outside the model (connection,
-- timeout), so a proof about every `fault` covers every place where a statement can fail.
-- A statement that fails inside a transaction leaves the transaction aborted: PostgreSQL refuses
-- the statements that follow and the COMMIT, also where the code ignores the error.
use cloistr_address.Base.{
  ℕ, ◌+◌, ◌≡◌, refl, String, Bool, true, false, ◌||◌, Option, none, some, arith, Bool-cases, inl,
  inr, if◌then◌else◌,
}
use cloistr_address.Db.Tables.{Db}

pub data Error : Type 0 where
  -- a statement failed or broke a constraint
  database : Error
  insufficient_credits : Error
  product_not_found : Error
  not_found : Error
  -- errors made by fmt.Errorf on the way
  message : String → Error

pub data Result {ℓ} (A : Type ℓ) : Type ℓ where
  ok : A → Result A
  err : Error → Result A

pub record World : Type 0 where
  pub db : Db
  pub fault : ℕ → Bool
  pub now : ℕ
  -- how many statements ran, and whether the open transaction is aborted
  pub tick : ℕ
  pub aborted : Bool

-- A world in which no statement fails.
abbrev pub calm : Db → ℕ → ℕ → World
calm db now tick = record { db = db; fault = λ _. false; now = now; tick = tick; aborted = false }

abbrev pub Exec {ℓ} : Type ℓ → Type ℓ
Exec A = World → Result A × World

module _ {A : Type 0} where
  abbrev pub pure : A → Exec A
  pure a w = (ok a, w)

  abbrev pub raise : Error → Exec A
  raise e w = (err e, w)

abbrev pub continue {ℓ κ} : {A : Type ℓ} {B : Type κ} → Result A → (A → Exec B) → Exec B
continue (ok a) f w = f a w
continue (err e) f w = (err e, w)

infixl 5 ◌>>=◌ ◌>>◌
abbrev pub ◌>>=◌ {ℓ κ} : {A : Type ℓ} {B : Type κ} → Exec A → (A → Exec B) → Exec B
◌>>=◌ m f w = let (r, w') = m w in continue r f w'

abbrev pub ◌>>◌ {ℓ κ} : {A : Type ℓ} {B : Type κ} → Exec A → Exec B → Exec B
m >> n = m >>= λ _. n

-- `if err := m; err != nil { ... }` where the error is handled: the result as a value.
abbrev pub try {ℓ} : {A : Type ℓ} → Exec A → Exec (Result A)
try m w = let (r, w') = m w in (ok r, w')

-- One statement inside a transaction; `none` is a constraint that refuses it.
unfoldable pub statement : {A : Type 0} → (Db → Option (A × Db)) → Exec A
statement f w =
    if w.aborted || w.fault w.tick
    then (err database, record w { tick = w.tick + 1; aborted = true })
    else elim (f w.db) [
      | none ↦ (err database, record w { tick = w.tick + 1; aborted = true })
      | some (a, db') ↦ (ok a, record w { db = db'; tick = w.tick + 1 })
    ]

abbrev pub select : {A : Type 0} → (Db → A) → Exec A
select f = statement λ db. some (f db, db)

abbrev pub exec : (Db → Db) → Exec (Unit {0})
exec f = statement λ db. some (tt, f db)

-- A statement that a constraint of the tables may refuse.
abbrev pub exec_checked : (Db → Option Db) → Exec (Unit {0})
exec_checked f = statement λ db. elim (f db) [ none ↦ none | some db' ↦ some (tt, db') ]

-- A statement outside a transaction is a transaction of its own: nothing stays aborted.
unfoldable pub auto : {A : Type 0} → Exec A → Exec A
auto m w = let (r, w') = m w in (r, record w' { aborted = false })

-- How the function that opened a transaction leaves it: through `tx.Commit()`, or by a return that
-- reaches only the deferred `tx.Rollback()`.
pub data Verdict (A : Type 0) : Type 0 where
  commit : A → Verdict A
  rollback : A → Verdict A

-- What is left of a transaction that began in `w`.
unfoldable pub finish : {A : Type 0} → World → Result (Verdict A) → World → Result A × World
finish w (ok (commit a)) w' =
    if w'.aborted || w'.fault w'.tick
    then (err database, record w' { db = w.db; tick = w'.tick + 1; aborted = false })
    else (ok a, record w' { tick = w'.tick + 1; aborted = false })
finish w (ok (rollback a)) w' = (ok a, record w' { db = w.db; aborted = false })
finish w (err e) w' = (err e, record w' { db = w.db; aborted = false })

-- `BeginTx`, the body, and COMMIT or ROLLBACK.
unfoldable pub transaction : {A : Type 0} → Exec (Verdict A) → Exec A
unfolding finish
transaction body w =
    if w.fault w.tick
    then (err database, record w { tick = w.tick + 1 })
    else let (r, w') = body (record w { tick = w.tick + 1; aborted = false }) in finish w r w'

finish_atomic :
    {A : Type 0} (w : World) (r : Result (Verdict A)) (w' : World) (e : Error)
    → (finish w r w').0 ≡ err e
    → (finish w r w').1.db ≡ w.db
unfolding finish
finish_atomic w (ok (commit a)) w' e h = ground arith
finish_atomic w (ok (rollback a)) w' e h = refl
finish_atomic w (err e') w' e h = refl

-- A transaction that fails leaves the database as it found it.
pub transaction_atomic :
    {A : Type 0} (body : Exec (Verdict A)) (w : World) (e : Error)
    → (transaction body w).0 ≡ err e
    → (transaction body w).1.db ≡ w.db
unfolding transaction
transaction_atomic body w e h = elim (Bool-cases (w.fault w.tick)) [
  | inl f ↦ rw f
  | inr f ↦
      let start : World = record w { tick = w.tick + 1; aborted = false } in
      rw f (finish_atomic w (body start).0 (body start).1 e (rw f at h))
]

-- The world in which the body of a transaction runs.
abbrev pub begun : World → World
begun w = record w { tick = w.tick + 1; aborted = false }

finish_keeps {ℓ} :
    {A : Type 0} (P : Db → Type ℓ) (w : World) (r : Result (Verdict A)) (w' : World)
    → P w.db
    → ((a : A) → r ≡ ok (commit a) → P w'.db)
    → P (finish w r w').1.db
unfolding finish
finish_keeps P w (ok (commit a)) w' h k = elim (Bool-cases (w'.aborted || w'.fault w'.tick)) [
  | inl e ↦ rw e h
  | inr e ↦ rw e (k a refl)
]
finish_keeps P w (ok (rollback a)) w' h k = h
finish_keeps P w (err e) w' h k = h

-- What holds before a transaction holds after it, if the body establishes it where it commits.
pub transaction_keeps {ℓ} :
    {A : Type 0} (P : Db → Type ℓ) (body : Exec (Verdict A)) (w : World)
    → P w.db
    → ((a : A) → (body (begun w)).0 ≡ ok (commit a) → P (body (begun w)).1.db)
    → P (transaction body w).1.db
unfolding transaction
transaction_keeps P body w h k = elim (Bool-cases (w.fault w.tick)) [
  | inl f ↦ rw f h
  | inr f ↦ rw f (finish_keeps P w (body (begun w)).0 (body (begun w)).1 h k)
]
