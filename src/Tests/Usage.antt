-- ===== src/Tests/Usage.antt =====
-- A quota at a concrete state.
use cloistr_address.Base.{
  ◌≡◌, refl, String, Bool, false, Option, some, List, [], ◌∷◌, arith, same, find_where,
  exists_where, update_where, count_where,
}
use cloistr_address.Base.Signed.{pos}
use cloistr_address.Db.Tables.{Db}
use cloistr_address.Db.Exec.{calm, ok}
use cloistr_address.Store.Usage.{TierLimits, quota_in, check_quota, record_service_usage}
use cloistr_address.Store.Usage.Within.{Within, checked_usage-Within}
use cloistr_address.Tests.{empty_db}

-- 1000 bytes with a claimed name, 100 without.
abbrev tiers : TierLimits
tiers t = some (pos 1000, pos 100)

-- A pubkey without a name that holds 30 bytes.
abbrev holding : Db
holding = record empty_db {
  users = "pk" ∷ [];
  usage =
      record { pubkey = "pk"; quota_type_id = "storage_bytes"; service = "files"; bytes = 30 } ∷ [];
}

refuses_more : (check_quota tiers "pk" "storage_bytes" (pos 71) (calm holding 1000 0)).0 ≡ ok false
unfolding check_quota cloistr_address.Db.Exec.auto cloistr_address.Db.Exec.statement
    cloistr_address.Base.Signed.◌+ℤ◌ cloistr_address.Store.Usage.absorbs
    cloistr_address.Store.Usage.is_zero quota_in cloistr_address.Store.Usage.pool_limit
    cloistr_address.Store.Usage.pool_of find_where cloistr_address.Store.Usage.own_pool
    cloistr_address.Store.Usage.base_limit exists_where cloistr_address.Store.Usage.tier_limit
    cloistr_address.Store.Usage.sum_grants same cloistr_address.Store.Addresses.Rows.real_of
    cloistr_address.Store.Quotas.quota_of cloistr_address.Store.Usage.fits
    cloistr_address.Store.Usage.own_usage cloistr_address.Store.Usage.remaining_of
    cloistr_address.Store.Usage.sum_usage
refuses_more = refl

checked_usage-Within_example : Within (
    quota_in tiers "pk" "storage_bytes" 1000
      (record_service_usage "pk" "storage_bytes" "files"
        (pos 70)
        (check_quota tiers "pk" "storage_bytes" (pos 70) (calm holding 1000 0)).1).1.db)
unfolding check_quota count_where update_where cloistr_address.Db.Exec.auto
    cloistr_address.Db.Exec.statement cloistr_address.Base.Signed.◌+ℤ◌
    cloistr_address.Store.Usage.absorbs cloistr_address.Store.Usage.is_zero quota_in
    cloistr_address.Store.Usage.pool_limit cloistr_address.Store.Usage.pool_of find_where
    cloistr_address.Store.Usage.own_pool cloistr_address.Store.Usage.base_limit exists_where
    cloistr_address.Store.Usage.tier_limit cloistr_address.Store.Usage.sum_grants same
    cloistr_address.Store.Addresses.Rows.real_of cloistr_address.Store.Quotas.quota_of
    cloistr_address.Store.Usage.fits cloistr_address.Store.Usage.own_usage
    cloistr_address.Store.Usage.remaining_of cloistr_address.Store.Usage.sum_usage
    cloistr_address.Store.Usage.usage_of cloistr_address.Store.Usage.upsert_usage
    record_service_usage cloistr_address.Store.Usage.add_delta
    cloistr_address.Store.Credits.max_bigint
checked_usage-Within_example =
    checked_usage-Within tiers "pk" "storage_bytes" "files" 70 (calm holding 1000 0) (omega arith)
      refl refl
