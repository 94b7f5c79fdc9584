-- ===== src/Api/Pricing/Rules.antt =====
-- Rules of the price list (internal/api/nameprice.go, pricing.go).
use cloistr_address.Base.{
  ℕ, ◌+◌, ◌≤◌, ◌≡◌, ◌≢◌, String, false, Option, none, some, arith, same, same_ne, count_where,
  find_where, ◌⊎◌,
}
use cloistr_address.Base.Texts.{byte_length}
use cloistr_address.Db.Tables.{Db}
use cloistr_address.Db.Exec.{ok, World, statement, auto}
use cloistr_address.Db.Triple.{Triple, Triple-bind, Triple-auto, Triple-statement, Triple-select}
use cloistr_address.Store.Addresses.Rows.{real_of, count_real_addresses}
use cloistr_address.Store.Catalog.{
  get_username_price, get_username_tier, get_product_price_sats, product_id,
}
use cloistr_address.Api.Http.{Service}
use cloistr_address.Api.Pricing.{
  NamePrice, price_name_for, price_allowance, price_claimed, additional_address_price, or_fallback,
  additional_address_product_id, fallback_additional_price_sats,
}

-- What the catalog asks for a further name.
unfoldable pub catalog_price : Db → ℕ
catalog_price db = elim (find_where (product_id additional_address_product_id) db.products) [
  | none ↦ fallback_additional_price_sats
  | some p ↦ p.price_sats
]

additional_address_price_lem :
    (w : World) (n : ℕ) → (additional_address_price w).0 ≡ ok n → n ≡ catalog_price w.db
unfolding additional_address_price get_product_price_sats or_fallback auto statement catalog_price
additional_address_price_lem w n h = ground arith

price_claimed_lem :
    (p q : NamePrice) (n : ℕ) (w : World)
    → (price_claimed p n w).0 ≡ ok q
    → 1 ≤ n
    → q.price_sats ≡ catalog_price w.db
unfolding price_claimed
price_claimed_lem p q n w h m = ground (arith, additional_address_price_lem w q.price_sats)

price_allowance_lem :
    (p q : NamePrice) (pubkey : String) (w : World)
    → same pubkey "" ≡ false
    → 1 ≤ count_where (real_of pubkey) w.db.addresses
    → (price_allowance p pubkey w).0 ≡ ok q
    → (q.price_sats ≡ catalog_price w.db) ⊎ (1 ≤ q.price_sats)
unfolding price_allowance count_real_addresses auto statement
price_allowance_lem p q pubkey w ne m h = ground (
  arith,
  price_claimed_lem p q (count_where (real_of pubkey) w.db.addresses)
      (record w { tick = w.tick + 1; aborted = false }),
)

-- What the rule supposes of the database.
record Charged (pubkey : String) (db : Db) : Type 0 where
  holds : 1 ≤ count_where (real_of pubkey) db.addresses
  asks : 1 ≤ catalog_price db

price_read :
    (svc : Service) (n : ℕ) (pubkey : String)
    → Triple (Charged pubkey) (get_username_price svc.price_of n) (λ _. Charged pubkey)
unfolding get_username_price
price_read svc n pubkey =
    Triple-auto (Charged pubkey) _ (λ _. Charged pubkey)
      (Triple-statement (Charged pubkey)
        (λ db. elim (svc.price_of db n) [ none ↦ none | some p ↦ some (p, db) ])
        (λ _. Charged pubkey) (λ db a db' k e. moved (svc.price_of db n) db a db' k e))
  where
    moved :
        (o : Option ℕ) (db : Db) (a : ℕ) (db' : Db)
        → Charged pubkey db
        → elim o as (λ _. Option (ℕ × Db)) [ none ↦ none | some p ↦ some (p, db) ] ≡ some (a, db')
        → Charged pubkey db'
    moved none db a db' k e = cc e
    moved (some p) db a db' k e = let same_db : db ≡ db' = cc e in rw (← same_db) k

-- A pubkey that already holds a claimed name pays for every further one: whatever fails on the way,
-- an answer with price 0 comes only from a catalog that says so.
pub price_name_for_claimed :
    (svc : Service) (username pubkey : String) (w : World) (p : NamePrice)
    → pubkey ≢ ""
    → 1 ≤ count_where (real_of pubkey) w.db.addresses
    → 1 ≤ catalog_price w.db
    → (price_name_for svc username pubkey w).0 ≡ ok p
    → 1 ≤ p.price_sats
unfolding price_name_for get_username_tier
price_name_for_claimed svc username pubkey w p ne m c h =
    let rule =
      Triple-bind (Charged pubkey) (λ _. Charged pubkey) (λ q _. 1 ≤ q.price_sats) _ _
        (price_read svc (byte_length username) pubkey)
        λ base.
          Triple-bind (Charged pubkey) (λ _. Charged pubkey) (λ q _. 1 ≤ q.price_sats) _ _
            (Triple-auto (Charged pubkey) _ (λ _. Charged pubkey)
              (Triple-select (Charged pubkey) _ (λ _. Charged pubkey) (λ db k. k)))
            λ tier. allowance record { price_sats = base; tier = tier; additional = false } in
    rule.run w record { holds = m; asks = c } p h
  where
    allowance :
        (q : NamePrice)
        → Triple (Charged pubkey) (price_allowance q pubkey) (λ r _. 1 ≤ r.price_sats)
    allowance q = record {
      run = λ v k r e.
          ground (arith, k.asks, price_allowance_lem q r pubkey v (same_ne pubkey "" ne) k.holds e);
    }
