-- ===== src/Api/Lnurlp/Tracking.antt =====
-- What a payment request leaves in the database (internal/api/lnurlp.go): nothing, or the record of
-- how the wallet answered.
use cloistr_address.Base.{
  ℕ, ◌≡◌, refl, ap, String, Bool, ◌||◌, Option, none, some, List, [], ◌∷◌, map, inl, inr,
  Bool-cases, find_where, update_where, same,
}
use cloistr_address.Base.Signed.{ℤ}
use cloistr_address.Db.Tables.{Db, Address, Lightning}
use cloistr_address.Db.Exec.{World, Result, ok, err}
use cloistr_address.Db.Triple.{select_then, auto_exec-keeps}
use cloistr_address.Store.Addresses.Rows.{active_name, scan, lightning_of, get_address_by_username}
use cloistr_address.Store.Identity.{get_lightning_config, update_nwc_success, update_nwc_error}
use cloistr_address.Client.Crypto.{Bytes, Outcome, done, failed, Encryptor}
use cloistr_address.Client.Nwc.{Answer, given, refused, Client, Invoice}
use cloistr_address.Api.Proxy.{Web}
use cloistr_address.Api.Wallet.{
  Wallets, answer_wallet, with_connection, with_client, with_plain, with_encryptor,
  handle_nwc_invoice, or_empty,
}
use cloistr_address.Api.Lnurlp.{
  out_of_bounds, invoice_for, callback_lightning, callback_address, callback_amount,
  handle_lnurlp_callback,
}

-- A configuration without the record of the wallet's answers.
abbrev pub settings : Lightning → Lightning
settings l = record l { nwc_last_success_at = none; nwc_last_error = none; nwc_error_count = 0 }

-- The database is as before, but for that record.
pub record OnlyTracking (before db : Db) : Type 0 where
  pub rest : db ≡ record before { lightning = db.lightning }
  pub same_settings : map settings db.lightning ≡ map settings before.lightning

settings_kept :
    (p : Lightning → Bool) (f : Lightning → Lightning) (ls : List Lightning)
    → ((l : Lightning) → settings (f l) ≡ settings l)
    → map settings (update_where p f ls) ≡ map settings ls
unfolding update_where
settings_kept p f [] h = refl
settings_kept p f (l ∷ ls) h = elim (Bool-cases (p l)) [
  | inl e ↦ rw (e, h l, settings_kept p f ls h) refl
  | inr e ↦ rw (e, settings_kept p f ls h) refl
]

updated-OnlyTracking :
    (before db : Db) (p : Lightning → Bool) (f : Lightning → Lightning)
    → OnlyTracking before db
    → ((l : Lightning) → settings (f l) ≡ settings l)
    → OnlyTracking before (record db { lightning = update_where p f db.lightning })
updated-OnlyTracking before db p f h k = record {
  rest = ap (λ (d : Db). record d { lightning = update_where p f db.lightning }) h.rest;
  same_settings = rw (settings_kept p f db.lightning k) h.same_settings;
}

module _ (before : Db) (env : Wallets) (domain : String) where
  answer_wallet-keeps :
      (id : ℕ) (a : Answer Invoice) (w : World)
      → OnlyTracking before w.db
      → OnlyTracking before (answer_wallet env domain id a w).1.db
  unfolding answer_wallet update_nwc_error update_nwc_success
  answer_wallet-keeps id (refused e) w h =
      auto_exec-keeps (OnlyTracking before) _ w h
        (updated-OnlyTracking before w.db (lightning_of id) _ h (λ l. refl))
  answer_wallet-keeps id (given i) w h =
      auto_exec-keeps (OnlyTracking before) _ w h
        (updated-OnlyTracking before w.db (lightning_of id) _ h (λ l. refl))

  with_connection-keeps :
      (id : ℕ) (username : String) (amount : ℤ) (comment : Bytes) (a : Answer Client) (w : World)
      → OnlyTracking before w.db
      → OnlyTracking before (with_connection env domain id username amount comment a w).1.db
  unfolding with_connection
  with_connection-keeps id username amount comment (refused e) w h = h
  with_connection-keeps id username amount comment (given c) w h = answer_wallet-keeps id _ w h

  with_client-keeps :
      (id : ℕ) (username : String) (amount : ℤ) (comment : Bytes) (a : Answer Client) (w : World)
      → OnlyTracking before w.db
      → OnlyTracking before (with_client env domain id username amount comment a w).1.db
  unfolding with_client
  with_client-keeps id username amount comment (refused e) w h = h
  with_client-keeps id username amount comment (given c) w h =
      with_connection-keeps id username amount comment _ w h

  with_plain-keeps :
      (l : Lightning) (username : String) (amount : ℤ) (comment : Bytes) (o : Outcome Bytes)
      (w : World)
      → OnlyTracking before w.db
      → OnlyTracking before (with_plain env domain l username amount comment o w).1.db
  unfolding with_plain
  with_plain-keeps l username amount comment (failed e) w h = h
  with_plain-keeps l username amount comment (done s) w h =
      with_client-keeps l.address_id username amount comment _ w h

  with_encryptor-keeps :
      (l : Lightning) (username : String) (amount : ℤ) (comment : Bytes) (o : Option Encryptor)
      (w : World)
      → OnlyTracking before w.db
      → OnlyTracking before (with_encryptor env domain l username amount comment o w).1.db
  unfolding with_encryptor
  with_encryptor-keeps l username amount comment none w h = h
  with_encryptor-keeps l username amount comment (some e) w h =
      elim (Bool-cases (
        same (or_empty l.nwc_secret_encrypted) ""
        || (same (or_empty l.nwc_relay_url) "" || same (or_empty l.nwc_wallet_pubkey) ""))) [
          | inl q ↦ rw q h
          | inr q ↦ rw q (with_plain-keeps l username amount comment _ w h)
        ]

  module _ (web : Web) (username : String) (comment : Bytes) where
    invoice_for-keeps :
        (amount : ℤ) (l : Lightning) (w : World)
        → OnlyTracking before w.db
        → OnlyTracking before (invoice_for web env domain username amount comment l w).1.db
    unfolding invoice_for handle_nwc_invoice
    invoice_for-keeps amount l w h = elim (Bool-cases (same l.mode "proxy")) [
      | inl p ↦ rw p h
      | inr p ↦ elim (Bool-cases (same l.mode "nwc")) [
        | inl q ↦ rw (p, q) (with_encryptor-keeps l username amount comment _ w h)
        | inr q ↦ elim (Bool-cases (same l.mode "hosted")) [
          | inl r ↦ rw (p, q, r) h
          | inr r ↦ rw (p, q, r) h
        ]
      ]
    ]

    callback_lightning-keeps :
        (amount : ℤ) (o : Result (Option Lightning)) (w : World)
        → OnlyTracking before w.db
        → OnlyTracking before (callback_lightning web env domain username amount comment o w).1.db
    unfolding callback_lightning
    callback_lightning-keeps amount (err e) w h = h
    callback_lightning-keeps amount (ok none) w h = h
    callback_lightning-keeps amount (ok (some l)) w h = elim (Bool-cases l.enabled) [
      | inr p ↦ simp (p) h
      | inl p ↦ elim (Bool-cases (out_of_bounds amount l)) [
        | inl q ↦ simp (p, q) h
        | inr q ↦ simp (p, q) (invoice_for-keeps amount l w h)
      ]
    ]

    callback_address-keeps :
        (amount : ℤ) (o : Result (Option Address)) (w : World)
        → OnlyTracking before w.db
        → OnlyTracking before (callback_address web env domain username amount comment o w).1.db
    unfolding callback_address get_lightning_config
    callback_address-keeps amount (err e) w h = h
    callback_address-keeps amount (ok none) w h = h
    callback_address-keeps amount (ok (some a)) w h =
        let s =
          select_then (λ db. find_where (lightning_of a.id) db.lightning)
            (callback_lightning web env domain username amount comment) w in
        rw s.runs (callback_lightning-keeps amount s.result s.world (rw s.unchanged h))

    callback_amount-keeps :
        (o : Option ℤ) (w : World)
        → OnlyTracking before w.db
        → OnlyTracking before (callback_amount web env domain username comment o w).1.db
    unfolding callback_amount get_address_by_username
    callback_amount-keeps none w h = h
    callback_amount-keeps (some n) w h =
        let s =
          select_then (λ db. scan (find_where (active_name username domain) db.addresses))
            (callback_address web env domain username n comment) w in
        rw s.runs (callback_address-keeps n s.result s.world (rw s.unchanged h))

-- Whatever the wallet, the provider and the database do, a payment request changes nothing in the
-- database but the record of the wallet's answers in the Lightning configurations.
pub handle_lnurlp_callback-OnlyTracking :
    (web : Web) (env : Wallets) (domain username amount : String) (comment : Bytes) (w : World)
    → OnlyTracking w.db (handle_lnurlp_callback web env domain username amount comment w).1.db
unfolding handle_lnurlp_callback
handle_lnurlp_callback-OnlyTracking web env domain username amount comment w =
    let start : OnlyTracking w.db w.db = record { rest = refl; same_settings = refl } in
    elim (Bool-cases (same amount "")) [
      | inl e ↦ rw e start
      | inr e ↦ rw e (callback_amount-keeps w.db env domain web username comment _ w start)
    ]
