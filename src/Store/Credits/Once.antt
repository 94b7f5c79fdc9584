-- ===== src/Store/Credits/Once.antt =====
-- A settled invoice credits its buyer at most once (`AddInvoiceCreditOnce`, migration 012).
use cloistr_address.Base.{
  ℕ, ◌≤◌, ◌+◌, ◌≡◌, ◌⊎◌, String, Bool, true, false, ◌∷◌, arith, same, exists_where, same_refl,
}
use cloistr_address.Base.Signed.{pos}
use cloistr_address.Db.Tables.{Db, text}
use cloistr_address.Db.Exec.{ok, World, calm, statement, transaction, finish}
use cloistr_address.Store.Credits.{
  entry, credits_invoice, same_reference, is_invoice_credit, fits_integer, upsert_credits,
  set_balance, balance, insert_history_once, breaks_once, add_invoice_credit_once, max_integer,
  max_bigint, pubkey_format,
}

-- The history holds a credit for the invoice.
unfoldable pub credited : String → Db → Bool
credited id db = exists_where (credits_invoice (text id)) db.history

credits_invoice_self :
    (p : String) (a : ℕ) (r id : String)
    → is_invoice_credit r ≡ true
    → credits_invoice (text id) (entry p (pos a) r (text id)) ≡ true
unfolding credits_invoice same_reference
credits_invoice_self p a r id h = ground (arith, same_refl id)

-- A call that answers, either way, leaves the invoice credited.
pub add_invoice_credit_once-credited :
    (p : String) (a : ℕ) (r id : String) (w : World) (c : Bool)
    → is_invoice_credit r ≡ true
    → (add_invoice_credit_once p a r id w).0 ≡ ok c
    → credited id (add_invoice_credit_once p a r id w).1.db ≡ true
unfolding add_invoice_credit_once transaction finish statement insert_history_once credited
    exists_where upsert_credits
add_invoice_credit_once-credited p a r id w c inv h =
    ground (arith, credits_invoice_self p a r id inv)

-- What a call that answers did: it moved the amount and wrote its entry, unless the invoice was
-- credited before.
pub add_invoice_credit_once-moves :
    (p : String) (a : ℕ) (r id : String) (w : World) (c : Bool)
    → (add_invoice_credit_once p a r id w).0 ≡ ok c
    → ((add_invoice_credit_once p a r id w).1.db ≡ record w.db {
      credits = set_balance p (balance p w.db.credits + a) w.db.credits;
      history = entry p (pos a) r (text id) ∷ w.db.history;
    })
      ⊎ (credited id w.db ≡ true)
unfolding add_invoice_credit_once transaction finish statement insert_history_once credited
    upsert_credits breaks_once
add_invoice_credit_once-moves p a r id w c h = ground arith

-- On a credited invoice a further call for either reason changes nothing, whatever its buyer and
-- amount.
pub add_invoice_credit_once_again :
    (p : String) (a : ℕ) (r id : String) (w : World)
    → is_invoice_credit r ≡ true
    → credited id w.db ≡ true
    → (add_invoice_credit_once p a r id w).1.db ≡ w.db
unfolding add_invoice_credit_once transaction finish statement insert_history_once credited
add_invoice_credit_once_again p a r id w inv h = ground arith

-- Whatever happens to two credits of one settled invoice, each for one of the two reasons of the
-- unique index (race_loss, registration_error): if the first call answered, the second moves no
-- balance and writes no history, also with the other reason, another buyer or another amount.
pub credit_once :
    (p p' : String) (a a' : ℕ) (r r' id : String) (w w' : World) (c : Bool)
    → is_invoice_credit r ≡ true
    → is_invoice_credit r' ≡ true
    → (add_invoice_credit_once p a r id w).0 ≡ ok c
    → w'.db ≡ (add_invoice_credit_once p a r id w).1.db
    → (add_invoice_credit_once p' a' r' id w').1.db ≡ w'.db
credit_once p p' a a' r r' id w w' c inv inv' h e =
    add_invoice_credit_once_again p' a' r' id w' inv'
      (rw e (add_invoice_credit_once-credited p a r id w c inv h))

-- Without failures the first call for one of the two invoice reasons credits a well-formed pubkey:
-- the balance grows by the amount and the call answers true, if the amount fits the columns.
pub add_invoice_credit_once_first :
    (p : String) (a : ℕ) (r id : String) (db : Db) (now n : ℕ)
    → same id "" ≡ false
    → is_invoice_credit r ≡ true
    → credited id db ≡ false
    → pubkey_format p ≡ true
    → a ≤ max_integer
    → balance p db.credits + a ≤ max_bigint
    → let (answer, w) = add_invoice_credit_once p a r id (calm db now n) in
      (answer ≡ ok true)
      × (w.db ≡ record db {
        credits = set_balance p (balance p db.credits + a) db.credits;
        history = entry p (pos a) r (text id) ∷ db.history;
      })
unfolding add_invoice_credit_once transaction finish statement insert_history_once credited
    upsert_credits fits_integer
add_invoice_credit_once_first p a r id db now n ne inv fresh key fits room = ground arith
