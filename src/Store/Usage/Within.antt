-- ===== src/Store/Usage/Within.antt =====
-- What a quota that was checked keeps (internal/storage/quota_usage.go).
use mathlib.Core.Path.{subst}
use cloistr_address.Base.{
  ℕ, zero, suc, ◌||◌, ◌+◌, ◌≤◌, ◌≡◌, ◌⊎◌, refl, String, Bool, true, some, List, [], ◌∷◌, inl, inr,
  arith, Bool-cases, Option-cases, same, same_refl, eq_of_same, find_where, count_where,
  exists_where, update_where,
}
use cloistr_address.Base.Rows.{find_where-some}
use cloistr_address.Base.Signed.{ℤ, pos, negsuc, ◌+ℤ◌}
use cloistr_address.Db.Tables.{Db, ServiceUsage, TenantMember}
use cloistr_address.Db.Exec.{World, ok, statement, auto}
use cloistr_address.Store.Tenants.{is_member, limit_of}
use cloistr_address.Store.Usage.{
  base_limit, EffectiveQuota, sum_usage, is_zero, TierLimits, own_usage, own_pool, pooled_usage,
  tenant_pool, belongs, pool_of, quota_in, fits, absorbs, check_quota, usage_of, add_delta,
  upsert_usage, record_service_usage,
}

-- An update that touches no row.
sum_usage-untouched :
    (q p : ServiceUsage → Bool) (f : ServiceUsage → ServiceUsage) (us : List ServiceUsage)
    → count_where p us ≡ 0
    → sum_usage q (update_where p f us) ≡ sum_usage q us
unfolding sum_usage update_where count_where
sum_usage-untouched q p f [] h = refl
sum_usage-untouched q p f (u ∷ us) h = ground (arith, sum_usage-untouched q p f us)

-- Where one row grows by n and counts, the sum grows by n.
sum_usage-update_where :
    (q p : ServiceUsage → Bool) (f : ServiceUsage → ServiceUsage) (n : ℕ)
    → ((u : ServiceUsage) → p u ≡ true → q u ≡ true)
    → ((u : ServiceUsage) → p u ≡ true → q (f u) ≡ true)
    → ((u : ServiceUsage) → (f u).bytes ≡ u.bytes + n)
    → (us : List ServiceUsage) → count_where p us ≡ 1
    → sum_usage q (update_where p f us) ≡ sum_usage q us + n
unfolding sum_usage update_where count_where
sum_usage-update_where q p f n k k' g [] h = absurd (omega arith)
sum_usage-update_where q p f n k k' g (u ∷ us) h = elim (Bool-cases (p u)) [
  | inl e ↦
      let rest = sum_usage-untouched q p f us (omega (arith, rw e at h)) in
      rw (e, k u e, k' u e, g u, rest) (omega arith)
  | inr e ↦
      let rest = sum_usage-update_where q p f n k k' g us (omega (arith, rw e at h)) in
      rw (e, rest) (omega arith)
]

-- The tenant of a row of a pubkey has that pubkey for a member.
find_where-member :
    (pubkey : String) (ms : List TenantMember) (m : TenantMember)
    → find_where (belongs pubkey) ms ≡ some m
    → exists_where (is_member m.tenant_id pubkey) ms ≡ true
unfolding find_where exists_where belongs is_member
find_where-member pubkey [] m h = absurd cc
find_where-member pubkey (x ∷ ms) m h = elim (Bool-cases (same x.pubkey pubkey)) [
  | inl e ↦ let found : x ≡ m = ground arith in rw (← found) (ground (arith, same_refl x.tenant_id))
  | inr e ↦ ground (arith, find_where-member pubkey ms m)
]

module _ (limits : TierLimits) (pubkey quota_type : String) (now : ℕ) where
  -- A pubkey's own usage counts in its quota.
  pool_of-counts :
      (service : String) (db : Db) (u : ServiceUsage)
      → usage_of pubkey quota_type service u ≡ true
      → (pool_of limits pubkey quota_type now db).counts u ≡ true
  unfolding pool_of own_pool tenant_pool own_usage pooled_usage usage_of
  pool_of-counts service db u h = elim (Option-cases (find_where (belongs pubkey) db.members)) [
    | inl e ↦ rw (pool_of, e) (ground arith)
    | inr (m, e) ↦
        elim (Option-cases (find_where (limit_of m.tenant_id quota_type) db.tenant_quotas)) [
          | inl x ↦ rw (pool_of, e, x) (ground arith)
          | inr (q, x) ↦
              let member = find_where-member pubkey db.members m e in
              let holder : u.pubkey ≡ pubkey = eq_of_same u.pubkey pubkey (ground arith) in
              rw (pool_of, e, x, holder, member) (ground arith)
        ]
  ]

  -- The usage changes no pool.
  pool_of-usage :
      (db : Db) (us : List ServiceUsage)
      → pool_of limits pubkey quota_type now (record db { usage = us })
        ≡ pool_of limits pubkey quota_type now db
  unfolding pool_of own_pool tenant_pool base_limit
  pool_of-usage db us = refl

-- What an upsert of n more bytes does to a sum that counts the row.
record Grown (q : ServiceUsage → Bool) (n : ℕ) (db db' : Db) : Type 0 where
  usage : List ServiceUsage
  only_usage : (record db { usage = usage }) ≡ db'
  sum : sum_usage q usage ≡ sum_usage q db.usage + n

upsert_usage-Grown :
    (q : ServiceUsage → Bool) (pubkey quota_type service : String) (n : ℕ) (db db' : Db)
    → ((u : ServiceUsage) → usage_of pubkey quota_type service u ≡ true → q u ≡ true)
    → count_where (usage_of pubkey quota_type service) db.usage ≤ 1
    → upsert_usage pubkey quota_type service (pos n) db ≡ some db'
    → Grown q n db db'
unfolding upsert_usage usage_of add_delta sum_usage ◌+ℤ◌
upsert_usage-Grown q pubkey quota_type service n db db' k one h =
    let p = usage_of pubkey quota_type service in
    elim (Option-cases (find_where p db.usage)) [
      | inl e ↦
          let row : ServiceUsage = record {
            pubkey = pubkey;
            quota_type_id = quota_type;
            service = service;
            bytes = n;
          } in
          let counted =
            k row (rw (same_refl pubkey, same_refl quota_type, same_refl service) refl) in
          record {
            usage = row ∷ db.usage;
            only_usage = ground (arith, rw (upsert_usage, e) at h);
            sum = rw counted (omega arith);
          }
      | inr (u, e) ↦ record {
        usage = update_where p (add_delta (pos n)) db.usage;
        only_usage = ground (arith, rw (upsert_usage, e) at h);
        sum =
            sum_usage-update_where q p (add_delta (pos n)) n k (λ v x. k (add_delta (pos n) v) x)
              (λ v. ground arith) db.usage (omega (arith, one, (find_where-some p db.usage u e).1));
      }
    ]

-- The usage is within the limit, where there is one.
pub Within : EffectiveQuota → Type 0
Within q = (q.limit ≡ pos 0) ⊎ ((limit : ℕ) × (q.limit ≡ pos limit) × (q.used ≤ limit))

fits_limit :
    (z : ℤ) (used n : ℕ) (r : EffectiveQuota)
    → is_zero z || fits (used + n) z ≡ true
    → r.limit ≡ z
    → r.used ≡ used + n
    → Within r
unfolding is_zero fits Within
fits_limit (pos zero) used n r h l u = inl l
fits_limit (pos (suc m)) used n r h l u = inr (suc m, l, ground arith)
fits_limit (negsuc m) used n r h l u = absurd cc

-- What was absorbed before the usage grew by as much is within the limit after it.
absorbs-Within :
    (q r : EffectiveQuota) (n : ℕ)
    → absorbs q (pos n) ≡ true
    → r.limit ≡ q.limit
    → r.used ≡ q.used + n
    → Within r
unfolding absorbs
absorbs-Within q r n h l u = fits_limit q.limit q.used n r h l u

module _ (limits : TierLimits) (pubkey quota_type service : String) (n now : ℕ) (db db' : Db) where
  upsert_usage-Within :
      absorbs (quota_in limits pubkey quota_type now db) (pos n) ≡ true
      → count_where (usage_of pubkey quota_type service) db.usage ≤ 1
      → upsert_usage pubkey quota_type service (pos n) db ≡ some db'
      → Within (quota_in limits pubkey quota_type now db')
  unfolding quota_in
  upsert_usage-Within h one e =
      let pool = pool_of limits pubkey quota_type now db in
      let grown =
        upsert_usage-Grown pool.counts pubkey quota_type service n db db'
          (pool_of-counts limits pubkey quota_type now service db) one e in
      rw (← grown.only_usage) (
        absorbs-Within (quota_in limits pubkey quota_type now db)
          (quota_in limits pubkey quota_type now (record db { usage = grown.usage })) n h
          (rw (pool_of-usage limits pubkey quota_type now db grown.usage) refl)
          (rw (pool_of-usage limits pubkey quota_type now db grown.usage) grown.sum))

check_quota-absorbs :
    (limits : TierLimits) (pubkey quota_type : String) (additional : ℤ) (w : World)
    → let out = check_quota limits pubkey quota_type additional w in
      out.0 ≡ ok true
      → (absorbs (quota_in limits pubkey quota_type w.now w.db) additional ≡ true)
        × (out.1.db ≡ w.db)
unfolding check_quota auto statement
check_quota-absorbs limits pubkey quota_type additional w h =
    elim (Bool-cases (w.aborted || w.fault w.tick)) [
      | inl x ↦ absurd (cc (rw x at h))
      | inr x ↦ (cc (rw x at h), rw x refl)
    ]

record_service_usage-upserts :
    (pubkey quota_type service : String) (delta : ℤ) (w : World)
    → let out = record_service_usage pubkey quota_type service delta w in
      out.0 ≡ ok tt → upsert_usage pubkey quota_type service delta w.db ≡ some out.1.db
unfolding record_service_usage auto statement
record_service_usage-upserts pubkey quota_type service delta w h =
    elim (Bool-cases (w.aborted || w.fault w.tick)) [
      | inl x ↦ absurd (cc (rw x at h))
      | inr x ↦ elim (Option-cases (upsert_usage pubkey quota_type service delta w.db)) [
        | inl e ↦ absurd (cc (rw (x, e) at h))
        | inr (db', e) ↦ rw (x, e) refl
      ]
    ]

-- Bytes that CheckQuota allowed, and that RecordServiceUsage then records in the row of a service,
-- of which there is at most one, leave the pubkey's usage, or its tenant's, within the limit, if
-- the limit is not 0.
pub checked_usage-Within :
    (limits : TierLimits) (pubkey quota_type service : String) (n : ℕ) (w : World)
    → count_where (usage_of pubkey quota_type service) w.db.usage ≤ 1
    → (check_quota limits pubkey quota_type (pos n) w).0 ≡ ok true
    → let out =
        record_service_usage pubkey quota_type service
          (pos n)
          (check_quota limits pubkey quota_type (pos n) w).1 in
      out.0 ≡ ok tt → Within (quota_in limits pubkey quota_type w.now out.1.db)
checked_usage-Within limits pubkey quota_type service n w one h e =
    let checked = check_quota limits pubkey quota_type (pos n) w in
    let (absorbed, same_db) = check_quota-absorbs limits pubkey quota_type (pos n) w h in
    let out = record_service_usage pubkey quota_type service (pos n) checked.1 in
    let stored = record_service_usage-upserts pubkey quota_type service (pos n) checked.1 e in
    upsert_usage-Within limits pubkey quota_type service n w.now w.db out.1.db absorbed one
      (subst (λ d. upsert_usage pubkey quota_type service (pos n) d ≡ some out.1.db) same_db stored)
