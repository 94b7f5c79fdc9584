-- ===== src/Api/Settlement.antt =====
-- What a settled invoice bought, and the grant of a product (internal/api/settlement.go).
pub mod Grants
use cloistr_address.Base.{
  ℕ, ◌+◌, ◌*◌, String, Bool, true, false, not, ◌&&◌, ◌||◌, Option, none, some, List, [], ◌∷◌, ◌==◌,
  if◌then◌else◌, same,
}
use cloistr_address.Base.Signed.{ℤ, pos, negsuc}
use cloistr_address.Db.Tables.{Db, Product, QuotaGrant}
use cloistr_address.Db.Exec.{
  Error, message, Result, ok, err, Exec, pure, raise, ◌>>=◌, ◌>>◌, try, select,
}
use cloistr_address.Store.Catalog.{get_product, quota_grant_exists, add_quota_grant}
use cloistr_address.Api.Http.{Json, text, grants, Fields, meta_text}

unfoldable pub meta_kind : String
meta_kind = "kind"

unfoldable pub meta_username : String
meta_username = "username"

unfoldable pub meta_pubkey : String
meta_pubkey = "pubkey"

unfoldable pub meta_product_id : String
meta_product_id = "product_id"

unfoldable pub meta_lightning_address : String
meta_lightning_address = "lightning_address"

unfoldable pub quota_expires_days_key : String
quota_expires_days_key = "expires_days"

unfoldable pub kind_address : String
kind_address = "address"

unfoldable pub kind_product : String
kind_product = "product"

-- `settlementKind`
unfoldable pub settlement_kind : Fields → String
settlement_kind meta =
    if not (same (meta_text meta_kind meta) "")
    then meta_text meta_kind meta
    else if not (same (meta_text meta_product_id meta) "")
    then kind_product
    else if not (same (meta_text meta_username meta) "")
    then kind_address
    else ""

-- The struct `SettlementOutcome`.
pub record SettlementOutcome : Type 0 where
  pub status : String
  pub message : String
  pub detail : Fields

abbrev pub Quotas : Type 0
Quotas = List (String × ℤ)

unfoldable pub lookup_quota : String → Quotas → Option ℤ
lookup_quota k [] = none
lookup_quota k ((j, n) ∷ qs) = if same j k then some n else lookup_quota k qs

unfoldable pub seconds_per_day : ℕ
seconds_per_day = 86400

-- `grantWindow`: no key is a grant that does not lapse; days that are not positive are an error.
-- `now.AddDate(0, 0, days)` of the UTC clock adds whole days.
unfoldable pub grant_window : ℕ → Quotas → Result (Option ℕ)
grant_window now quotas = elim (lookup_quota quota_expires_days_key quotas) [
  | none ↦ ok none
  | some (negsuc n) ↦ err (message "expires_days must be a positive number of days")
  | some (pos n) ↦
      if n == 0
      then err (message "expires_days must be a positive number of days")
      else ok (some (now + n * seconds_per_day))
]

-- The keys of the loop in `settleProduct`, in the order that the range takes them.
unfoldable pub granted_quotas : Quotas → Quotas
granted_quotas [] = []
granted_quotas ((k, n) ∷ qs) =
    let rest = granted_quotas qs in if same k quota_expires_days_key then rest else (k, n) ∷ rest

-- The loop: one INSERT for each quota, each a transaction of its own; an error ends it.
unfoldable pub grant_all : String → String → Option ℕ → Quotas → Exec (Unit {0})
grant_all pubkey invoice expires_at [] = pure tt
grant_all pubkey invoice expires_at ((k, n) ∷ qs) =
    add_quota_grant pubkey k n "purchase" invoice expires_at
    >> grant_all pubkey invoice expires_at qs

-- The outcome, if anything was granted.
unfoldable pub granted_outcome : Product → Quotas → Exec SettlementOutcome
granted_outcome p [] = raise (message "product grants only expires_days and no actual quota")
granted_outcome p (q ∷ qs) = pure record {
  status = "granted";
  message = p.display_name;
  detail = ("product_id", text p.id) ∷ ("granted", grants (q ∷ qs)) ∷ [];
}

unfoldable pub settle_window :
    String → String → Product → Quotas → Result (Option ℕ) → Exec SettlementOutcome
settle_window invoice pubkey p qs (err e) = raise e
settle_window invoice pubkey p qs (ok expires_at) =
    grant_all pubkey invoice expires_at qs >> granted_outcome p qs

unfoldable pub settle_quotas : String → String → Product → ℕ → Quotas → Exec SettlementOutcome
settle_quotas invoice pubkey p now [] = raise (message "product grants no quota; nothing to settle")
settle_quotas invoice pubkey p now (q ∷ qs) =
    settle_window invoice pubkey p (granted_quotas (q ∷ qs)) (grant_window now (q ∷ qs))

unfoldable pub settle_found : String → String → Product → ℕ → Exec SettlementOutcome
settle_found invoice pubkey p now = settle_quotas invoice pubkey p now p.grants_quota_increases

unfoldable pub already_applied : SettlementOutcome
already_applied = record {
  status = "already_applied";
  message = "Grant already recorded";
  detail = [];
}

unfoldable pub settle_fresh : String → String → String → ℕ → Bool → Exec SettlementOutcome
settle_fresh invoice pubkey product now true = pure already_applied
settle_fresh invoice pubkey product now false =
    get_product product >>= (λ p. settle_found invoice pubkey p now)

-- `Handler.settleProduct`
unfoldable pub settle_product : String → String → String → ℕ → Exec SettlementOutcome
settle_product invoice pubkey product now =
    quota_grant_exists invoice >>= settle_fresh invoice pubkey product now
