-- ===== src/Store/Usage.antt =====
-- The quota of a pubkey and its usage by the services (internal/storage/quota_usage.go, with the
-- functions effective_quota and check_quota of db/migrations/010_up.sql and 007_up.sql). The limits
-- of the tiers, which the program never writes, are a parameter.
pub mod Within
use cloistr_address.Base.{
  ℕ, zero, suc, ◌+◌, ◌-◌, String, Bool, true, false, not, ◌&&◌, ◌||◌, Option, none, some, List, [],
  ◌∷◌, ltb, leb, if◌then◌else◌, same, find_where, exists_where, update_where, map,
}
use cloistr_address.Base.Signed.{ℤ, pos, negsuc, pos_part, ◌+ℤ◌}
use cloistr_address.Db.Tables.{Db, QuotaGrant, ServiceUsage, TenantMember}
use cloistr_address.Db.Exec.{Exec, select, exec_checked, auto}
use cloistr_address.Store.Addresses.Rows.{real_of}
use cloistr_address.Store.Credits.{max_bigint}
use cloistr_address.Store.Quotas.{quota_of}
use cloistr_address.Store.Tenants.{is_member, limit_of}

-- The struct `EffectiveQuotaResult`; a limit of 0 is no limit.
pub record EffectiveQuota : Type 0 where
  pub limit : ℤ
  pub used : ℕ
  pub remaining : ℕ

-- SUM(bytes) of user_quota_usage
unfoldable pub sum_usage : (ServiceUsage → Bool) → List ServiceUsage → ℕ
sum_usage p [] = 0
sum_usage p (u ∷ us) = (if p u then u.bytes else 0) + sum_usage p us

-- SUM(bytes) of quota_grants
unfoldable pub sum_grants : (QuotaGrant → Bool) → List QuotaGrant → ℤ
sum_grants p [] = pos 0
sum_grants p (g ∷ gs) = let rest = sum_grants p gs in if p g then g.bytes +ℤ rest else rest

unfoldable pub is_zero : ℤ → Bool
is_zero (pos zero) = true
is_zero (pos (suc n)) = false
is_zero (negsuc n) = false

-- expires_at IS NULL OR expires_at > NOW()
unfoldable pub is_live : ℕ → QuotaGrant → Bool
is_live now g = elim g.expires_at [ none ↦ true | some t ↦ ltb now t ]

-- What a quota is made of: its base, the grants on top of it, and the usage that counts.
pub record Pool : Type 0 where
  pub base : ℤ
  pub granted : ℤ
  pub counts : ServiceUsage → Bool

-- The limit of each tier, for a pubkey with a claimed name and for one without.
abbrev pub TierLimits : Type 0
TierLimits = String → Option (ℤ × ℤ)

unfoldable pub tier_limit : Option (ℤ × ℤ) → Bool → ℤ
tier_limit none named = pos 0
tier_limit (some (limit, free)) named = if named then limit else free

unfoldable pub base_limit : TierLimits → String → String → Db → ℤ
base_limit limits pubkey quota_type db =
    elim (find_where (quota_of pubkey quota_type) db.user_quotas) [
      | some q ↦ q.quota_limit
      | none ↦ tier_limit (limits quota_type) (exists_where (real_of pubkey) db.addresses)
    ]

unfoldable pub own_usage : String → String → ServiceUsage → Bool
own_usage pubkey quota_type u = same u.pubkey pubkey && same u.quota_type_id quota_type

unfoldable pub own_pool : TierLimits → String → String → ℕ → Db → Pool
own_pool limits pubkey quota_type now db = record {
  base = base_limit limits pubkey quota_type db;
  granted =
      sum_grants (λ g. same g.pubkey pubkey && (same g.quota_type_id quota_type && is_live now g))
        db.grants;
  counts = own_usage pubkey quota_type;
}

-- JOIN tenant_members: a pubkey is in a tenant at most once.
unfoldable pub pooled_usage : String → String → List TenantMember → ServiceUsage → Bool
pooled_usage tenant quota_type members u =
    exists_where (is_member tenant u.pubkey) members && same u.quota_type_id quota_type

unfoldable pub tenant_pool : String → String → ℤ → ℕ → Db → Pool
tenant_pool tenant quota_type limit now db = record {
  base = limit;
  granted =
      sum_grants
        (λ g.
          exists_where (is_member tenant g.pubkey) db.members
          && (same g.quota_type_id quota_type && is_live now g))
        db.grants;
  counts = pooled_usage tenant quota_type db.members;
}

unfoldable pub belongs : String → TenantMember → Bool
belongs pubkey m = same m.pubkey pubkey

-- The pool of the pubkey's tenant (LIMIT 1: the first row) where that has a limit of this type.
unfoldable pub pool_of : TierLimits → String → String → ℕ → Db → Pool
pool_of limits pubkey quota_type now db = elim (find_where (belongs pubkey) db.members) [
  | none ↦ own_pool limits pubkey quota_type now db
  | some m ↦ elim (find_where (limit_of m.tenant_id quota_type) db.tenant_quotas) [
    | none ↦ own_pool limits pubkey quota_type now db
    | some q ↦ tenant_pool m.tenant_id quota_type q.quota_limit now db
  ]
]

unfoldable pub pool_limit : Pool → ℤ
pool_limit p = if is_zero p.base then pos 0 else p.base +ℤ p.granted

-- GREATEST(0, eff_limit - used_total)
unfoldable pub remaining_of : ℤ → ℕ → ℕ
remaining_of limit used = if is_zero limit then 0 else pos_part limit - used

unfoldable pub quota_in : TierLimits → String → String → ℕ → Db → EffectiveQuota
quota_in limits pubkey quota_type now db =
    let pool = pool_of limits pubkey quota_type now db in
    let used = sum_usage pool.counts db.usage in
    record { limit = pool_limit pool; used = used; remaining = remaining_of (pool_limit pool) used }

unfoldable pub fits : ℕ → ℤ → Bool
fits n (pos limit) = leb n limit
fits n (negsuc limit) = false

-- check_quota()
unfoldable pub absorbs : EffectiveQuota → ℤ → Bool
absorbs q additional = is_zero q.limit || fits (q.used + pos_part additional) q.limit

-- `Storage.EffectiveQuota`
unfoldable pub effective_quota : TierLimits → String → String → Exec EffectiveQuota
effective_quota limits pubkey quota_type w =
    auto (select λ db. quota_in limits pubkey quota_type w.now db) w

-- `Storage.CheckQuota`
unfoldable pub check_quota : TierLimits → String → String → ℤ → Exec Bool
check_quota limits pubkey quota_type additional w =
    auto (select λ db. absorbs (quota_in limits pubkey quota_type w.now db) additional) w

unfoldable pub usage_of : String → String → String → ServiceUsage → Bool
usage_of pubkey quota_type service u =
    same u.pubkey pubkey && (same u.quota_type_id quota_type && same u.service service)

-- GREATEST(0, bytes + delta)
unfoldable pub add_delta : ℤ → ServiceUsage → ServiceUsage
add_delta delta u = record u { bytes = pos_part (pos u.bytes +ℤ delta) }

-- INSERT ... ON CONFLICT (pubkey, quota_type_id, service) DO UPDATE; a new row needs its user and
-- its type, and no row goes beyond BIGINT.
unfoldable pub upsert_usage : String → String → String → ℤ → Db → Option Db
upsert_usage pubkey quota_type service delta db =
    elim (find_where (usage_of pubkey quota_type service) db.usage) [
      | some u ↦
          if leb (u.bytes + pos_part delta) max_bigint
          then some (record db {
            usage = update_where (usage_of pubkey quota_type service) (add_delta delta) db.usage;
          })
          else none
      | none ↦
          if exists_where (same pubkey) db.users && exists_where (same quota_type) db.quota_types
          then some (record db {
            usage =
                record {
                  pubkey = pubkey;
                  quota_type_id = quota_type;
                  service = service;
                  bytes = pos_part delta;
                }
                ∷ db.usage;
          })
          else none
    ]

-- `Storage.RecordServiceUsage`
unfoldable pub record_service_usage : String → String → String → ℤ → Exec (Unit {0})
record_service_usage pubkey quota_type service delta =
    auto (exec_checked (upsert_usage pubkey quota_type service delta))

-- The struct `QuotaView`, less the name and the unit of the type.
pub record QuotaView : Type 0 where
  pub quota_type_id : String
  pub quota_limit : ℤ
  pub current_usage : ℕ
  pub is_override : Bool

unfoldable pub quota_view : TierLimits → String → ℕ → Db → String → QuotaView
quota_view limits pubkey now db quota_type =
    let q = quota_in limits pubkey quota_type now db in
    record {
      quota_type_id = quota_type;
      quota_limit = q.limit;
      current_usage = q.used;
      is_override = exists_where (quota_of pubkey quota_type) db.user_quotas;
    }

-- `Storage.GetQuotas`; the order of the types by their ids is a parameter.
unfoldable pub get_quotas :
    TierLimits → (List String → List String) → String → Exec (List QuotaView)
get_quotas limits by_id pubkey w =
    auto (select λ db. map (quota_view limits pubkey w.now db) (by_id db.quota_types)) w
