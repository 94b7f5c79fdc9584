-- ===== src/Api/Webhook/Retry.antt =====
-- Deliveries of one event (internal/api/webhook.go).
use cloistr_address.Base.{
  ℕ, ◌+◌, ◌≤◌, ◌≡◌, ltb, ◌∷◌, inl, inr, refl, String, Bool, true, false, Option, none, some, List,
  arith, same,
}
use cloistr_address.Base.Signed.{ℤ, pos, negsuc}
use cloistr_address.Db.Tables.{Db, Address, Credit, HistoryEntry, text}
use cloistr_address.Db.Exec.{Result, ok, err, World, pure, continue, statement, auto}
use cloistr_address.Store.Credits.{
  entry, balance, set_balance, add_invoice_credit_once, is_invoice_credit, credit_reason_race_loss,
  credit_reason_registration_error,
}
use cloistr_address.Store.Credits.Once.{
  credited, add_invoice_credit_once-moves, add_invoice_credit_once_again,
}
use cloistr_address.Store.Addresses.Register.{atomic_register_address}
use cloistr_address.Store.Addresses.Register.Holder.{Holds, atomic_register_address-Holds}
use cloistr_address.Store.Addresses.Register.Keeps.{MoneyIs, atomic_register_address-MoneyIs}
use cloistr_address.Store.Identity.{
  upsert_lightning_config, upsert_lightning_config_full, upsert_config,
}
use cloistr_address.Api.Gateway.{Invoice, to_int64, auto_configure_lightning}
use cloistr_address.Api.Webhook.{
  WebhookEvent, WebhookReply, credit_failed, registered, answer_credit, credit_payer,
  answer_registration, settle_address, meta_address, registration_credited, race_lost,
}

race_loss_is_credit : is_invoice_credit credit_reason_race_loss ≡ true
unfolding is_invoice_credit credit_reason_race_loss credit_reason_registration_error same
race_loss_is_credit = refl

registration_error_is_credit : is_invoice_credit credit_reason_registration_error ≡ true
unfolding is_invoice_credit credit_reason_race_loss credit_reason_registration_error same
registration_error_is_credit = refl

-- What a payer of n sats has for an invoice: the name, or the credit of exactly n sats that this
-- request made, or a credit for the invoice from before it.
pub data Paid (domain username pubkey invoice : String) (n : ℕ) (before after : Db) : Type 0 where
  held : Holds username domain pubkey after → Paid domain username pubkey invoice n before after
  refunded :
      (reason : String)
      → after.credits ≡ set_balance pubkey (balance pubkey before.credits + n) before.credits
      → after.history ≡ entry pubkey (pos n) reason (text invoice) ∷ before.history
      → Paid domain username pubkey invoice n before after
  paid_before : credited invoice before ≡ true → Paid domain username pubkey invoice n before after

credited-MoneyIs :
    (invoice : String) (db db' : Db)
    → MoneyIs db.credits db.history db'
    → credited invoice db' ≡ credited invoice db
unfolding credited
credited-MoneyIs invoice db db' h = rw (h.history) refl

quiet :
    (reply : WebhookReply) (o : Result (Unit {0})) (w : World)
    → (continue o (λ _. pure reply) w).1 ≡ w
quiet reply (ok u) w = refl
quiet reply (err x) w = refl

module _ (domain username pubkey : String) (n : ℕ) (before : Db) where
  add_invoice_credit_once-Paid :
      (reason invoice : String) (w : World) (c : Bool)
      → MoneyIs before.credits before.history w.db
      → (add_invoice_credit_once pubkey n reason invoice w).0 ≡ ok c
      → Paid domain username pubkey invoice n before
          (add_invoice_credit_once pubkey n reason invoice w).1.db
  add_invoice_credit_once-Paid reason invoice w c m e =
      elim (add_invoice_credit_once-moves pubkey n reason invoice w c e) [
        | inl moves ↦ refunded reason (rw (moves, m.credits) refl) (rw (moves, m.history) refl)
        | inr already ↦ paid_before (rw (credited-MoneyIs invoice before w.db m) at already)
      ]

  -- A credit that answers 200 was made, now or before.
  credit_payer-Paid :
      (reason invoice : String) (reply r : WebhookReply) (w : World)
      → MoneyIs before.credits before.history w.db
      → 1 ≤ n
      → (credit_payer pubkey (pos n) reason invoice reply w).0 ≡ ok r
      → r.0 ≡ 200
      → Paid domain username pubkey invoice n before
          (credit_payer pubkey (pos n) reason invoice reply w).1.db
  unfolding credit_payer answer_credit credit_failed
  credit_payer-Paid reason invoice reply r w m k h s =
      go (add_invoice_credit_once pubkey n reason invoice w).0 refl
    where
      go :
          (o : Result Bool)
          → (add_invoice_credit_once pubkey n reason invoice w).0 ≡ o
          → Paid domain username pubkey invoice n before
              (credit_payer pubkey (pos n) reason invoice reply w).1.db
      go (ok c) e =
          let paid = add_invoice_credit_once-Paid reason invoice w c m e in
          let pays : ltb 0 n ≡ true = ground arith in rw (pays, e) paid
      go (err x) e = absurd (ground arith)

  -- The configuration of the name does not change who holds it.
  auto_configure_lightning-Holds :
      (id : ℕ) (a : Option String) (w : World)
      → Holds username domain pubkey w.db
      → Holds username domain pubkey (auto_configure_lightning id a w).1.db
  unfolding auto_configure_lightning upsert_lightning_config upsert_lightning_config_full
      upsert_config auto statement
  auto_configure_lightning-Holds id a w h = record {
    address = h.address;
    found = ground (arith, h.found);
    holder = h.holder;
  }

  answer_registration-Paid :
      (event : WebhookEvent) (o : Result (Option Address)) (r : WebhookReply) (w : World)
      → MoneyIs before.credits before.history w.db
      → ((a : Address) → o ≡ ok (some a) → Holds username domain pubkey w.db)
      → 1 ≤ n
      → (answer_registration domain username pubkey (pos n) event o w).0 ≡ ok r
      → r.0 ≡ 200
      → Paid domain username pubkey event.invoice_id n before
          (answer_registration domain username pubkey (pos n) event o w).1.db
  unfolding answer_registration
  answer_registration-Paid event (err x) r w m k one h s =
      credit_payer-Paid credit_reason_registration_error event.invoice_id registration_credited r w
        m one h s
  answer_registration-Paid event (ok none) r w m k one h s =
      credit_payer-Paid credit_reason_race_loss event.invoice_id (race_lost (pos n)) r w m one h s
  answer_registration-Paid event (ok (some a)) r w m k one h s =
      rw
        (quiet (registered username domain)
          (auto_configure_lightning a.id (meta_address event.metadata) w).0
          (auto_configure_lightning a.id (meta_address event.metadata) w).1)
        (held (auto_configure_lightning-Holds a.id (meta_address event.metadata) w (k a refl)))

-- A settled payment of n sats, at least one, for a name that is acknowledged with status 200 leaves
-- the name with the payer, or the payer's balance higher by n with the entry in the history, unless
-- the invoice was credited before: no payer is left with neither, whatever fails on the way.
pub settle_address_paid :
    (domain username pubkey : String) (event : WebhookEvent) (i : Invoice) (n : ℕ)
    (r : WebhookReply) (w : World)
    → to_int64 i.amount ≡ pos n
    → 1 ≤ n
    → (settle_address domain username pubkey event (some i) w).0 ≡ ok r
    → r.0 ≡ 200
    → Paid domain username pubkey event.invoice_id n w.db
        (settle_address domain username pubkey event (some i) w).1.db
unfolding settle_address
settle_address_paid domain username pubkey event i n r w paid one h s =
    let (o, v) = atomic_register_address username domain pubkey false w in
    rw paid (
      answer_registration-Paid domain username pubkey n w.db event o r v
        (atomic_register_address-MoneyIs w.db.credits w.db.history username domain pubkey false w
          record { credits = refl; history = refl })
        (λ a e. atomic_register_address-Holds username domain pubkey false w a e) one (rw paid at h)
        s)

credit_payer_again :
    (pubkey : String) (amount : ℤ) (reason invoice : String) (reply : WebhookReply)
    (cs : List Credit) (hs : List HistoryEntry) (w : World)
    → is_invoice_credit reason ≡ true
    → credited invoice w.db ≡ true
    → MoneyIs cs hs w.db
    → MoneyIs cs hs (credit_payer pubkey amount reason invoice reply w).1.db
unfolding credit_payer answer_credit
credit_payer_again pubkey (negsuc n) reason invoice reply cs hs w k c h = h
credit_payer_again pubkey (pos n) reason invoice reply cs hs w k c h =
    let again = add_invoice_credit_once_again pubkey n reason invoice w k c in
    record {
      credits = ground (arith, again, h.credits);
      history = ground (arith, again, h.history);
    }

auto_configure_lightning-MoneyIs :
    (id : ℕ) (a : Option String) (cs : List Credit) (hs : List HistoryEntry) (w : World)
    → MoneyIs cs hs w.db
    → MoneyIs cs hs (auto_configure_lightning id a w).1.db
unfolding auto_configure_lightning upsert_lightning_config upsert_lightning_config_full
    upsert_config auto statement
auto_configure_lightning-MoneyIs id a cs hs w h = record {
  credits = ground (arith, h.credits);
  history = ground (arith, h.history);
}

answer_registration_again :
    (domain username pubkey : String) (amount : ℤ) (event : WebhookEvent)
    (o : Result (Option Address)) (cs : List Credit) (hs : List HistoryEntry) (w : World)
    → credited event.invoice_id w.db ≡ true
    → MoneyIs cs hs w.db
    → MoneyIs cs hs (answer_registration domain username pubkey amount event o w).1.db
unfolding answer_registration
answer_registration_again domain username pubkey amount event (err x) cs hs w c h =
    credit_payer_again pubkey amount credit_reason_registration_error event.invoice_id
      registration_credited cs hs w registration_error_is_credit c h
answer_registration_again domain username pubkey amount event (ok none) cs hs w c h =
    credit_payer_again pubkey amount credit_reason_race_loss event.invoice_id (race_lost amount) cs
      hs w race_loss_is_credit c h
answer_registration_again domain username pubkey amount event (ok (some a)) cs hs w c h =
    rw
      (quiet (registered username domain)
        (auto_configure_lightning a.id (meta_address event.metadata) w).0
        (auto_configure_lightning a.id (meta_address event.metadata) w).1)
      (auto_configure_lightning-MoneyIs a.id (meta_address event.metadata) cs hs w h)

-- A further delivery of an invoice that was credited pays nobody a second time: it leaves every
-- balance and the history as they are, whether or not the name can be registered then.
pub settle_address_again :
    (domain username pubkey : String) (event : WebhookEvent) (i : Invoice) (w : World)
    → credited event.invoice_id w.db ≡ true
    → MoneyIs w.db.credits w.db.history
        (settle_address domain username pubkey event (some i) w).1.db
unfolding settle_address
settle_address_again domain username pubkey event i w c =
    let (o, v) = atomic_register_address username domain pubkey false w in
    let kept : MoneyIs w.db.credits w.db.history v.db =
      atomic_register_address-MoneyIs w.db.credits w.db.history username domain pubkey false w
        record { credits = refl; history = refl } in
    answer_registration_again domain username pubkey (to_int64 i.amount) event o w.db.credits
      w.db.history v (rw (credited-MoneyIs event.invoice_id w.db v.db kept) c) kept
