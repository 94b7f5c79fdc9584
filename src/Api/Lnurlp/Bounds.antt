-- ===== src/Api/Lnurlp/Bounds.antt =====
-- Which payments are asked for (internal/api/lnurlp.go).
use cloistr_address.Base.{
  ℕ, ◌≤◌, ◌≡◌, ◌⊎◌, refl, sym, String, true, false, Option, none, some, inl, inr, arith, Bool-cases,
  find_where, same,
}
use cloistr_address.Base.Signed.{ℤ, pos, negsuc}
use cloistr_address.Base.Scan.{scan_int}
use cloistr_address.Base.Texts.{codes}
use cloistr_address.Db.Tables.{Db, Address, Lightning}
use cloistr_address.Db.Exec.{World, Result, ok, err}
use cloistr_address.Db.Triple.{select_then}
use cloistr_address.Store.Addresses.Rows.{
  active_name, scan, scanned, lightning_of, get_address_by_username,
}
use cloistr_address.Store.Identity.{get_lightning_config}
use cloistr_address.Client.Crypto.{Bytes}
use cloistr_address.Api.Proxy.{CallbackResponse, invoice, Web}
use cloistr_address.Api.Wallet.{Wallets}
use cloistr_address.Api.Lnurlp.{
  out_of_bounds, bounds_error, invoice_for, callback_lightning, callback_address, callback_amount,
  handle_lnurlp_callback,
}

-- An amount that a configuration allows.
pub record Allows (l : Lightning) (amount : ℤ) : Type 0 where
  pub n : ℕ
  pub value : amount ≡ pos n
  pub enabled : l.enabled ≡ true
  pub at_least : l.min_sendable_msats ≤ n
  pub at_most : n ≤ l.max_sendable_msats
  pub mode : (same l.mode "proxy" ≡ true) ⊎ (same l.mode "nwc" ≡ true)

-- A request for a payment to an active name whose configuration allows it.
pub record Payable (db : Db) (username domain amount : String) : Type 0 where
  pub address : Address
  pub lightning : Lightning
  pub value : ℤ
  pub named : find_where (active_name username domain) db.addresses ≡ some address
  pub configured : find_where (lightning_of address.id) db.lightning ≡ some lightning
  pub read : scan_int (codes amount) ≡ some value
  pub allows : Allows lightning value

pub scan-some :
    (o : Option Address) (a : Address)
    → scan o ≡ some a
    → (row : Address) × (o ≡ some row) × (row.id ≡ a.id)
unfolding scanned
scan-some none a h = absurd cc
scan-some (some row) a h = (row, refl, let e : scanned row ≡ a = ground arith in rw (sym e) refl)

in_bounds :
    (amount : ℤ) (l : Lightning)
    → out_of_bounds amount l ≡ false
    → (n : ℕ) × (amount ≡ pos n) × (l.min_sendable_msats ≤ n) × (n ≤ l.max_sendable_msats)
unfolding out_of_bounds
in_bounds (negsuc n) l h = absurd cc
in_bounds (pos n) l h = (n, refl, ground arith, ground arith)

module _ (web : Web) (env : Wallets) (domain username : String) (comment : Bytes)
    (r : CallbackResponse) where
  invoice_for-mode :
      (amount : ℤ) (l : Lightning) (w : World)
      → (invoice_for web env domain username amount comment l w).0 ≡ ok (invoice r)
      → (same l.mode "proxy" ≡ true) ⊎ (same l.mode "nwc" ≡ true)
  unfolding invoice_for
  invoice_for-mode amount l w h = elim (Bool-cases (same l.mode "proxy")) [
    | inl p ↦ inl p
    | inr p ↦ elim (Bool-cases (same l.mode "nwc")) [
      | inl q ↦ inr q
      | inr q ↦ absurd (ground arith)
    ]
  ]

  callback_lightning-Allows :
      (amount : ℤ) (l : Lightning) (w : World)
      → (callback_lightning web env domain username amount comment (ok (some l)) w).0
        ≡ ok (invoice r)
      → Allows l amount
  unfolding callback_lightning bounds_error
  callback_lightning-Allows amount l w h =
      let on : l.enabled ≡ true = ground arith in
      let fits : out_of_bounds amount l ≡ false = ground arith in
      let h' : (invoice_for web env domain username amount comment l w).0 ≡ ok (invoice r) =
        ground arith in
      let (n, e, low, high) = in_bounds amount l fits in
      record {
        n = n;
        value = e;
        enabled = on;
        at_least = low;
        at_most = high;
        mode = invoice_for-mode amount l w h';
      }

  lightning-Allows :
      (amount : ℤ) (o : Result (Option Lightning)) (w : World)
      → (callback_lightning web env domain username amount comment o w).0 ≡ ok (invoice r)
      → (l : Lightning) × (o ≡ ok (some l)) × Allows l amount
  lightning-Allows amount (err e) w h = absurd (unfold callback_lightning in cc)
  lightning-Allows amount (ok none) w h = absurd (unfold callback_lightning in cc)
  lightning-Allows amount (ok (some l)) w h = (l, refl, callback_lightning-Allows amount l w h)

  address-Allows :
      (amount : ℤ) (o : Result (Option Address)) (w : World)
      → (callback_address web env domain username amount comment o w).0 ≡ ok (invoice r)
      → (a : Address) × (l : Lightning) × (o ≡ ok (some a))
        × (find_where (lightning_of a.id) w.db.lightning ≡ some l)
        × Allows l amount
  unfolding callback_address get_lightning_config
  address-Allows amount (err e) w h = absurd cc
  address-Allows amount (ok none) w h = absurd cc
  address-Allows amount (ok (some a)) w h =
      let s =
        select_then (λ db. find_where (lightning_of a.id) db.lightning)
          (callback_lightning web env domain username amount comment) w in
      let (l, e, allows) = lightning-Allows amount s.result s.world (rw s.runs at h) in
      (a, l, refl, s.found (some l) e, allows)

  amount-Payable :
      (amount : String) (o : Option ℤ) (w : World)
      → scan_int (codes amount) ≡ o
      → (callback_amount web env domain username comment o w).0 ≡ ok (invoice r)
      → Payable w.db username domain amount
  unfolding callback_amount get_address_by_username
  amount-Payable amount none w q h = absurd cc
  amount-Payable amount (some n) w q h =
      let s =
        select_then (λ db. scan (find_where (active_name username domain) db.addresses))
          (callback_address web env domain username n comment) w in
      let (a, l, e, configured, allows) = address-Allows n s.result s.world (rw s.runs at h) in
      let (row, named, own) = scan-some _ a (s.found (some a) e) in
      record {
        address = row;
        lightning = l;
        value = n;
        named = named;
        configured = rw (s.unchanged, sym own) at configured;
        read = q;
        allows = allows;
      }

  -- The callback answers with an invoice only for an active name with a Lightning configuration that is enabled, in mode proxy or nwc, and for an amount between its bounds.
  pub handle_lnurlp_callback-Payable :
      (amount : String) (w : World)
      → (handle_lnurlp_callback web env domain username amount comment w).0 ≡ ok (invoice r)
      → Payable w.db username domain amount
  unfolding handle_lnurlp_callback
  handle_lnurlp_callback-Payable amount w h = elim (Bool-cases (same amount "")) [
    | inl e ↦ absurd (cc (rw e at h))
    | inr e ↦ amount-Payable amount _ w refl (rw e at h)
  ]
