-- ===== src/Api/Lnurlp/Announced.antt =====
-- The two steps of LNURL-pay agree (internal/api/lnurlp.go).
use cloistr_address.Base.{
  ℕ, ◌+◌, ◌≤◌, ◌≡◌, refl, sym, String, true, false, Option, none, some, inl, inr, arith, Bool-cases,
  find_where, same, eq_of_same,
}
use cloistr_address.Base.Signed.{pos}
use cloistr_address.Base.Scan.{scan_int}
use cloistr_address.Base.Texts.{codes}
use cloistr_address.Db.Tables.{Db, Address, Lightning}
use cloistr_address.Db.Exec.{World, Result, ok, calm, auto, statement}
use cloistr_address.Store.Addresses.Rows.{
  active_name, scan, scanned, lightning_of, get_address_by_username,
}
use cloistr_address.Store.Identity.{get_lightning_config}
use cloistr_address.Client.Crypto.{Bytes}
use cloistr_address.Api.Proxy.{CallbackReply, Web, handle_proxy_invoice}
use cloistr_address.Api.Wallet.{Wallets, or_empty, handle_nwc_invoice}
use cloistr_address.Api.Lnurlp.{
  Origin, ConfigResponse, ConfigReply, config, config_of, config_lightning, config_address,
  handle_lnurlp_config, out_of_bounds, invoice_for, callback_lightning, callback_address,
  callback_amount, handle_lnurlp_callback,
}

-- Where the switch on the mode of a configuration leads.
pub data Reaches (web : Web) (env : Wallets) (domain username : String) (comment : Bytes) (n : ℕ)
    (l : Lightning) (w : World) (reply : Result CallbackReply) : Type 0 where
  to_provider :
      l.mode ≡ "proxy"
      → reply ≡ ok (handle_proxy_invoice web (or_empty l.proxy_address) (pos n) comment)
      → Reaches web env domain username comment n l w reply
  to_wallet :
      l.mode ≡ "nwc"
      → reply ≡ (handle_nwc_invoice env domain l (pos n) comment username w).0
      → Reaches web env domain username comment n l w reply
  to_neither :
      same l.mode "proxy" ≡ false
      → same l.mode "nwc" ≡ false
      → reply ≡ (invoice_for web env domain username (pos n) comment l w).0
      → Reaches web env domain username comment n l w reply

-- The callback goes on with the configuration of the name.
pub record Served (web : Web) (env : Wallets) (domain username : String) (comment : Bytes) (n : ℕ)
    (db : Db) (reply : Result CallbackReply) : Type 0 where
  pub address : Address
  pub lightning : Lightning
  pub world : World
  pub named : find_where (active_name username domain) db.addresses ≡ some address
  pub configured : find_where (lightning_of address.id) db.lightning ≡ some lightning
  pub unchanged : world.db ≡ db
  pub enabled : lightning.enabled ≡ true
  pub not_disabled : same lightning.mode "disabled" ≡ false
  pub reached : Reaches web env domain username comment n lightning world reply

module _ (web : Web) (env : Wallets) (domain username : String) (comment : Bytes) (n : ℕ)
    (r : ConfigResponse) (o : Origin) where
  invoice_for-Reaches :
      (l : Lightning) (w : World)
      → Reaches web env domain username comment n l w
          (invoice_for web env domain username (pos n) comment l w).0
  unfolding invoice_for same
  invoice_for-Reaches l w = elim (Bool-cases (same l.mode "proxy")) [
    | inl e ↦
        let mode : l.mode ≡ "proxy" = eq_of_same l.mode "proxy" e in to_provider mode (rw mode refl)
    | inr x ↦ elim (Bool-cases (same l.mode "nwc")) [
      | inl e ↦
          let mode : l.mode ≡ "nwc" = eq_of_same l.mode "nwc" e in to_wallet mode (rw mode refl)
      | inr y ↦ to_neither x y refl
    ]
  ]

  lightning-Served :
      (row a : Address) (l : Option Lightning) (db : Db) (w : World)
      → w.db ≡ db
      → find_where (active_name username domain) db.addresses ≡ some row
      → find_where (lightning_of row.id) db.lightning ≡ l
      → config_lightning o username domain a (ok l) ≡ config r
      → r.min_sendable ≤ n
      → n ≤ r.max_sendable
      → Served web env domain username comment n db
          (callback_lightning web env domain username (pos n) comment (ok l) w).0
  unfolding config_lightning config_of callback_lightning out_of_bounds
  lightning-Served row a none db w same_db named found h low high = absurd cc
  lightning-Served row a (some l) db w same_db named found h low high =
      let on : l.enabled ≡ true = ground arith in
      let mode : same l.mode "disabled" ≡ false = ground arith in
      let e : config_of o username domain a l ≡ r = ground arith in
      let least : l.min_sendable_msats ≤ n = rw (sym e) at low in
      let most : n ≤ l.max_sendable_msats = rw (sym e) at high in
      let inside : out_of_bounds (pos n) l ≡ false = ground arith in
      record {
        address = row;
        lightning = l;
        world = w;
        named = named;
        configured = found;
        unchanged = same_db;
        enabled = on;
        not_disabled = mode;
        reached = simp (on, inside) (invoice_for-Reaches l w);
      }

  ok-injective : (x y : ConfigReply) → ok x ≡ ok y → x ≡ y
  ok-injective x y h = ground arith

  address-Served :
      (row : Option Address) (db : Db) (now tick : ℕ)
      → find_where (active_name username domain) db.addresses ≡ row
      → (config_address o username domain (ok (scan row)) (calm db now tick)).0 ≡ ok (config r)
      → r.min_sendable ≤ n
      → n ≤ r.max_sendable
      → Served web env domain username comment n db
          (callback_address web env domain username
            (pos n)
            comment
            (ok (scan row))
            (calm db now tick)).0
  unfolding config_address callback_address get_lightning_config auto statement scanned
  address-Served none db now tick e h low high = absurd cc
  address-Served (some row) db now tick e h low high =
      lightning-Served row (scanned row) (find_where (lightning_of row.id) db.lightning) db
        (calm db now (tick + 1)) refl e refl (ok-injective _ _ h) low high

empty_unread : (s : String) (n : ℕ) → same s "" ≡ true → scan_int (codes s) ≡ some (pos n) → ⊥
unfolding scan_int
empty_unread s n e q = absurd (cc (rw (eq_of_same s "" e) at q))

-- In a database that answers, a payer who was given a name's configuration and names an amount
-- between its bounds is served: the callback goes on, without changing the database first, with the
-- configuration of the name's active row, which is enabled and not disabled. Its answer is that of
-- the configured provider in mode proxy, and that of the wallet in mode nwc.
pub handle_lnurlp_callback-Served :
    (web : Web) (env : Wallets) (domain username amount : String) (comment : Bytes) (n : ℕ)
    (r : ConfigResponse) (o : Origin) (db : Db) (now tick : ℕ)
    → (handle_lnurlp_config o domain username (calm db now tick)).0 ≡ ok (config r)
    → scan_int (codes amount) ≡ some (pos n)
    → r.min_sendable ≤ n
    → n ≤ r.max_sendable
    → Served web env domain username comment n db
        (handle_lnurlp_callback web env domain username amount comment (calm db now tick)).0
unfolding handle_lnurlp_config handle_lnurlp_callback callback_amount get_address_by_username auto
    statement
handle_lnurlp_callback-Served web env domain username amount comment n r o db now tick h q low
      high =
    elim (Bool-cases (same amount "")) [
      | inl e ↦ absurd (empty_unread amount n e q)
      | inr e ↦
          rw (e, q)
            (address-Served web env domain username comment n r o
              (find_where (active_name username domain) db.addresses) db now (tick + 1) refl h low
              high)
    ]
