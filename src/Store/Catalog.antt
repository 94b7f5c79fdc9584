-- ===== src/Store/Catalog.antt =====
-- Prices, products and quota grants (internal/storage/postgres.go, admin.go).
-- get_username_price() is a function of the database that the repository does not define: it is
-- a parameter, and answers `none` where the statement fails.
use cloistr_address.Base.{
  ℕ, String, Bool, true, false, ◌&&◌, Option, none, some, List, [], ◌∷◌, ltb, leb, if◌then◌else◌,
  same, find_where, exists_where,
}
use cloistr_address.Base.Signed.{ℤ}
use cloistr_address.Db.Tables.{Db, Product, UsernameTier, QuotaGrant, ReservedUsername}
use cloistr_address.Db.Exec.{
  product_not_found, Exec, pure, raise, ◌>>=◌, statement, select, exec, auto,
}

-- `Storage.GetUsernamePrice`
unfoldable pub get_username_price : (Db → ℕ → Option ℕ) → ℕ → Exec ℕ
get_username_price price_of n =
    auto (statement λ db. elim (price_of db n) [ none ↦ none | some p ↦ some (p, db) ])

-- enabled = true AND $1 >= min_length AND (max_length IS NULL OR $1 <= max_length)
unfoldable pub tier_covers : ℕ → UsernameTier → Bool
tier_covers n t =
    t.enabled && (leb t.min_length n && elim t.max_length [ none ↦ true | some m ↦ leb n m ])

-- ORDER BY price_sats DESC LIMIT 1: the dearest of the rows that pass.
unfoldable pub dearest : (UsernameTier → Bool) → List UsernameTier → Option UsernameTier
dearest p [] = none
dearest p (t ∷ ts) =
    let rest = dearest p ts in
    if p t
    then elim rest [
      | none ↦ some t
      | some s ↦ if ltb t.price_sats s.price_sats then some s else some t
    ]
    else rest

-- `Storage.GetUsernameTier`: "standard" where no row passes.
unfoldable pub get_username_tier : ℕ → Exec String
get_username_tier n = auto (
    select
      λ db. elim (dearest (tier_covers n) db.tiers) [ none ↦ "standard" | some t ↦ t.tier_name ])

-- ORDER BY min_length
unfoldable pub insert_by_length : UsernameTier → List UsernameTier → List UsernameTier
insert_by_length t [] = t ∷ []
insert_by_length t (s ∷ ss) =
    let rest = insert_by_length t ss in
    if leb t.min_length s.min_length then t ∷ (s ∷ ss) else s ∷ rest

unfoldable pub by_length : List UsernameTier → List UsernameTier
by_length [] = []
by_length (t ∷ ts) = insert_by_length t (by_length ts)

-- `Storage.ListTiers`
unfoldable pub list_tiers : Exec (List UsernameTier)
list_tiers = auto (select λ db. by_length db.tiers)

unfoldable pub product_id : String → Product → Bool
product_id id p = same p.id id

-- `Storage.GetProduct`
unfoldable pub get_product : String → Exec Product
get_product id = do
  found ← auto (select λ db. find_where (product_id id) db.products)
  elim found [ none ↦ raise product_not_found | some p ↦ pure p ]

-- `Storage.GetProductPriceSats`
unfoldable pub get_product_price_sats : String → Exec ℕ
get_product_price_sats id = do
  found ← auto (select λ db. find_where (product_id id) db.products)
  elim found [ none ↦ raise product_not_found | some p ↦ pure p.price_sats ]

-- INSERT INTO quota_grants
unfoldable pub insert_grant : QuotaGrant → Db → Db
insert_grant g db = record db { grants = g ∷ db.grants }

-- `Storage.AddQuotaGrant`
unfoldable pub add_quota_grant : String → String → ℤ → String → String → Option ℕ → Exec (Unit {0})
add_quota_grant pubkey quota_type bytes source reference expires_at = auto (
    exec (
      insert_grant record {
        pubkey = pubkey;
        quota_type_id = quota_type;
        bytes = bytes;
        source = source;
        reference_id = reference;
        expires_at = expires_at;
      }))

unfoldable pub grant_for : String → QuotaGrant → Bool
grant_for reference g = same g.reference_id reference

-- `Storage.QuotaGrantExists`
unfoldable pub quota_grant_exists : String → Exec Bool
quota_grant_exists reference = auto (select λ db. exists_where (grant_for reference) db.grants)

-- username = LOWER($1) AND reserved_for_pubkey IS NULL
unfoldable pub reserved_for_nobody : String → ReservedUsername → Bool
reserved_for_nobody username r =
    same r.username username && elim r.reserved_for_pubkey [ none ↦ true | some _ ↦ false ]

-- `Storage.IsUsernameReserved`, with the database's LOWER as a parameter.
unfoldable pub is_username_reserved : (String → String) → String → Exec Bool
is_username_reserved lower username =
    auto (select λ db. exists_where (reserved_for_nobody (lower username)) db.reserved)
