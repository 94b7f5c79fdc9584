-- ===== src/Db/Tables.antt =====
-- The rows of the tables that internal/storage reads and writes, and the Go structs that it scans
-- them into (internal/storage/postgres.go, admin.go, tenant.go). Times are seconds. The `updated_at`
-- columns, which are set to NOW() and decide nothing, are left out.
use cloistr_address.Base.{ℕ, String, Bool, Option, List}
use cloistr_address.Base.Signed.{ℤ}

-- A row of `addresses`; with `auto_assigned` left out, the struct `Address`.
pub record Address : Type 0 where
  pub id : ℕ
  pub username : String
  pub domain : String
  pub pubkey : String
  pub active : Bool
  pub verified : Bool
  pub is_primary : Bool
  pub nip05_active : Bool
  pub auto_assigned : Bool
  pub display_name : Option String
  pub created_at : ℕ
  pub ban_reason : Option String
  pub last_transfer_at : Option ℕ

-- A row of `address_ownership`: who held a name, and from when to when.
pub record Ownership : Type 0 where
  pub username : String
  pub domain : String
  pub pubkey : String
  pub valid_from : ℕ
  pub valid_to : Option ℕ

-- A row of `address_lightning`, the struct `AddressLightning`. NULL texts are `none`.
pub record Lightning : Type 0 where
  pub address_id : ℕ
  pub mode : String
  pub proxy_address : Option String
  pub nwc_relay_url : Option String
  pub nwc_wallet_pubkey : Option String
  pub nwc_secret_encrypted : Option String
  pub nwc_last_success_at : Option ℕ
  pub nwc_last_error : Option String
  pub nwc_error_count : ℕ
  pub min_sendable_msats : ℕ
  pub max_sendable_msats : ℕ
  pub comment_allowed : ℕ
  pub allows_nostr : Bool
  pub enabled : Bool

-- A row of `pubkey_credits`.
pub record Credit : Type 0 where
  pub pubkey : String
  pub balance_sats : ℕ

-- `reference_id` of `credit_history`: the caller's text, or fmt.Sprintf("withdrawal_%d", id).
pub data Reference : Type 0 where
  text : String → Reference
  withdrawal : ℕ → Reference

-- A row of `credit_history`.
pub record HistoryEntry : Type 0 where
  pub pubkey : String
  pub amount_sats : ℤ
  pub reason : String
  pub reference_id : Reference

-- A row of `credit_withdrawals`, the struct `CreditWithdrawal`.
pub record CreditWithdrawal : Type 0 where
  pub id : ℕ
  pub pubkey : String
  pub amount_sats : ℕ
  pub lightning_address : String
  pub status : String
  pub payment_hash : Option String
  pub error_message : Option String
  pub created_at : ℕ
  pub completed_at : Option ℕ

-- A row of `reserved_usernames`.
pub record ReservedUsername : Type 0 where
  pub username : String
  pub reserved_for_pubkey : Option String
  pub reason : Option String

-- A row of `username_tiers`, the struct `UsernameTier`.
pub record UsernameTier : Type 0 where
  pub tier_name : String
  pub min_length : ℕ
  pub max_length : Option ℕ
  pub price_sats : ℕ
  pub enabled : Bool

-- A row of `products`, the struct `Product`; `grants_quota_increases` is the JSON object.
pub record Product : Type 0 where
  pub id : String
  pub display_name : String
  pub price_sats : ℕ
  pub grants_quota_increases : List (String × ℤ)
  pub enabled : Bool

-- A row of `quota_grants`.
pub record QuotaGrant : Type 0 where
  pub pubkey : String
  pub quota_type_id : String
  pub bytes : ℤ
  pub source : String
  pub reference_id : String
  pub expires_at : Option ℕ

-- A row of `audit_log`, the struct `AuditEntry` less its JSON payloads.
pub record AuditEntry : Type 0 where
  pub table_name : String
  pub record_id : String
  pub action : String
  pub actor_pubkey : String
  pub subject_pubkey : String
  pub signature : String

-- A row of `tenants`, the struct `Tenant`.
pub record Tenant : Type 0 where
  pub id : String
  pub owner_pubkey : String
  pub created_at : ℕ

-- A row of `tenant_members`, the struct `TenantMember`.
pub record TenantMember : Type 0 where
  pub tenant_id : String
  pub pubkey : String
  pub joined_at : ℕ

-- A row of `user_quotas`: the limit that an admin set for a pubkey.
pub record UserQuota : Type 0 where
  pub pubkey : String
  pub quota_type_id : String
  pub quota_limit : ℤ

-- A row of `tenant_quotas`.
pub record TenantQuota : Type 0 where
  pub tenant_id : String
  pub quota_type_id : String
  pub quota_limit : ℤ

-- A row of `user_quota_usage`: what a service holds for a pubkey.
pub record ServiceUsage : Type 0 where
  pub pubkey : String
  pub quota_type_id : String
  pub service : String
  pub bytes : ℕ

-- All tables. `admins` are the pubkeys of the rows of `users` that are enabled platform admins, a
-- flag that the program only reads; `quota_types` are its ids. `next_address_id` and `next_withdrawal_id` stand for the SERIAL sequences.
pub record Db : Type 0 where
  pub users : List String
  pub admins : List String
  pub addresses : List Address
  pub next_address_id : ℕ
  pub ownership : List Ownership
  pub lightning : List Lightning
  pub credits : List Credit
  pub history : List HistoryEntry
  pub withdrawals : List CreditWithdrawal
  pub next_withdrawal_id : ℕ
  pub reserved : List ReservedUsername
  pub tiers : List UsernameTier
  pub products : List Product
  pub grants : List QuotaGrant
  pub tenants : List Tenant
  pub members : List TenantMember
  pub quota_types : List String
  pub user_quotas : List UserQuota
  pub tenant_quotas : List TenantQuota
  pub usage : List ServiceUsage
  pub audit : List AuditEntry
