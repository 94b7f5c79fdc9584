-- ===== src/Api/Admin.antt =====
-- The handlers of the admin API that change the database (internal/api/admin.go), past the parsing
-- of the request; `actor` and `signature` are what the middleware admitted.
pub mod Lookups
pub mod Tenancy
pub mod Entries
pub mod Names
pub mod Grant
pub mod Audited
use cloistr_address.Base.{
  ℕ, String, Bool, true, false, not, ◌&&◌, ◌||◌, Option, none, some, List, [], ◌∷◌, ltb,
  if◌then◌else◌, same,
}
use cloistr_address.Base.Signed.{ℤ, pos, negsuc}
use cloistr_address.Db.Tables.{Address, AuditEntry}
use cloistr_address.Db.Exec.{
  Error, not_found, message, database, insufficient_credits, product_not_found, Result, ok, err,
  Exec, pure, ◌>>=◌, ◌>>◌, try,
}
use cloistr_address.Store.Credits.{add_credits, get_credits}
use cloistr_address.Store.Addresses.Rows.{get_address_by_username}
use cloistr_address.Store.Addresses.Transfer.{admin_transfer_address}
use cloistr_address.Store.Addresses.Admin.{
  admin_grant_address, admin_revoke_address, set_address_primary, set_address_nip05,
}
use cloistr_address.Store.Reserved.{add_reserved, remove_reserved, update_tier}
use cloistr_address.Store.Quotas.{set_quota, reset_quota}
use cloistr_address.Store.Admins.{log_admin_audit}
use cloistr_address.Store.Identity.{upsert_lightning_config}
use cloistr_address.Api.Http.{text, number, flag, Service}
use cloistr_address.Api.Gateway.{is_valid_lightning_address, or_none}
use cloistr_address.Api.Auth.{AdminReply, refuse, success, abort_store, valid_pubkey}

-- The domain of the request, or the server's.
unfoldable pub or_domain : Service → String → String
or_domain s domain = if same domain "" then s.domain else domain

unfoldable pub done_or : String → Result (Unit {0}) → AdminReply
done_or msg (ok u) = success
done_or msg (err e) = abort_store e msg

-- The answer of an operation that the handler only reports.
unfoldable pub report : String → Exec (Unit {0}) → Exec AdminReply
report msg m = try m >>= (λ r. pure (done_or msg r))

unfoldable pub granted : Result Address → AdminReply
granted (err e) = abort_store e "Failed to grant address"
granted (ok a) = (
  200,
  ("success", flag true)
      ∷ ("address_id", number a.id)
      ∷ ("username", text a.username)
      ∷ ("domain", text a.domain)
      ∷ ("is_primary", flag a.is_primary)
      ∷ ("nip05_active", flag a.nip05_active)
      ∷ [],
)

-- `err.Error()`, for the errors that a flag's move can have.
unfoldable pub flag_error : (Error → String) → Error → AdminReply
flag_error error_text not_found = refuse 404 "not found"
flag_error error_text e = refuse 400 (error_text e)

unfoldable pub flag_moved : (Error → String) → Result (Unit {0}) → AdminReply
flag_moved error_text (ok u) = success
flag_moved error_text (err e) = flag_error error_text e

-- The mode and the address that `adminSetLightning` refuses.
unfoldable pub lightning_request_error : String → String → Option AdminReply
lightning_request_error mode proxy_address =
    if not (same mode "proxy") && not (same mode "disabled")
    then some (refuse 400 "mode must be 'proxy' or 'disabled'")
    else if same mode "proxy" && same proxy_address ""
    then some (refuse 400 "proxy_address required when mode is 'proxy'")
    else if same mode "proxy" && not (is_valid_lightning_address proxy_address)
    then some (refuse 400 "Invalid Lightning Address format")
    else none

module _ (s : Service) (show : ℕ → String) (actor signature : String) where
  -- `adminGrantAddress`
  unfoldable pub admin_grant_address_handler :
      String → String → String → Option String → Exec AdminReply
  admin_grant_address_handler pubkey username domain display_name =
      if not (valid_pubkey pubkey)
      then pure (refuse 400 "Invalid pubkey format")
      else try (
          admin_grant_address show actor signature (s.lower username) (or_domain s domain) pubkey
            display_name)
        >>= (λ r. pure (granted r))

  -- `adminRevokeAddress`
  unfoldable pub admin_revoke_address_handler : String → String → String → Exec AdminReply
  admin_revoke_address_handler username domain reason =
      report "Failed to revoke address"
        (admin_revoke_address show actor signature (s.lower username) (or_domain s domain) reason)

  -- `adminTransferAddress`
  unfoldable pub admin_transfer_address_handler : String → String → String → Exec AdminReply
  admin_transfer_address_handler username domain to_pubkey =
      if not (valid_pubkey to_pubkey)
      then pure (refuse 400 "Invalid to_pubkey format")
      else report "Failed to transfer address" (
          admin_transfer_address show actor signature (s.lower username) (or_domain s domain)
            to_pubkey)

  -- `adminSetAddressPrimary`
  unfoldable pub admin_set_address_primary :
      (Error → String) → String → String → String → Exec AdminReply
  admin_set_address_primary error_text username domain pubkey =
      if not (valid_pubkey pubkey)
      then pure (refuse 400 "Invalid pubkey format")
      else try
          (set_address_primary show actor signature (s.lower username) (or_domain s domain) pubkey)
        >>= (λ r. pure (flag_moved error_text r))

  -- `adminSetAddressNIP05`
  unfoldable pub admin_set_address_nip05 :
      (Error → String) → String → String → String → Exec AdminReply
  admin_set_address_nip05 error_text username domain pubkey =
      if not (valid_pubkey pubkey)
      then pure (refuse 400 "Invalid pubkey format")
      else try
          (set_address_nip05 show actor signature (s.lower username) (or_domain s domain) pubkey)
        >>= (λ r. pure (flag_moved error_text r))

  unfoldable pub lightning_audit : Address → AuditEntry
  lightning_audit a = record {
    table_name = "address_lightning";
    record_id = show a.id;
    action = "lightning.set";
    actor_pubkey = actor;
    subject_pubkey = a.pubkey;
    signature = signature;
  }

  unfoldable pub lightning_reply : Address → String → String → AdminReply
  lightning_reply a mode proxy_address = (
    200,
    ("success", flag true)
        ∷ ("address_id", number a.id)
        ∷ ("username", text a.username)
        ∷ ("mode", text mode)
        ∷ ("proxy_address", text proxy_address)
        ∷ [],
  )

  -- The audit entry is written on its own, and its error dropped.
  unfoldable pub lightning_upserted :
      Address → String → String → Result (Unit {0}) → Exec AdminReply
  lightning_upserted a mode proxy_address (err e) =
      pure (refuse 500 "Failed to update lightning config")
  lightning_upserted a mode proxy_address (ok u) =
      try (log_admin_audit (lightning_audit a)) >> pure (lightning_reply a mode proxy_address)

  unfoldable pub lightning_found : String → String → Result (Option Address) → Exec AdminReply
  lightning_found mode proxy_address (err e) = pure (abort_store e "Failed to look up address")
  lightning_found mode proxy_address (ok none) = pure (refuse 404 "address not found")
  lightning_found mode proxy_address (ok (some a)) =
      try (upsert_lightning_config a.id mode proxy_address)
      >>= lightning_upserted a mode proxy_address

  unfoldable pub lightning_checked :
      String → String → String → String → Option AdminReply → Exec AdminReply
  lightning_checked username domain mode proxy_address (some reply) = pure reply
  lightning_checked username domain mode proxy_address none =
      try (get_address_by_username (s.lower username) (or_domain s domain))
      >>= lightning_found mode proxy_address

  -- `adminSetLightning`
  unfoldable pub admin_set_lightning : String → String → String → String → Exec AdminReply
  admin_set_lightning username domain mode proxy_address =
      lightning_checked username domain mode proxy_address
        (lightning_request_error mode proxy_address)

  -- `adminAddReserved`
  unfoldable pub reserved_checked : String → Option String → String → Bool → Exec AdminReply
  reserved_checked username for_pubkey reason false = pure (refuse 400 "Invalid for_pubkey format")
  reserved_checked username for_pubkey reason true =
      report "Failed to add reservation"
        (add_reserved actor signature (s.lower username) for_pubkey reason)

  unfoldable pub admin_add_reserved : String → Option String → String → Exec AdminReply
  admin_add_reserved username none reason = reserved_checked username none reason true
  admin_add_reserved username (some pk) reason =
      reserved_checked username (some pk) reason (valid_pubkey pk)

  -- `adminRemoveReserved`
  unfoldable pub admin_remove_reserved : String → Exec AdminReply
  admin_remove_reserved username =
      report "Failed to remove reservation" (remove_reserved actor signature (s.lower username))

  -- `adminSetQuota`
  unfoldable pub admin_set_quota : String → String → ℤ → Exec AdminReply
  admin_set_quota pubkey quota_type (negsuc n) =
      if not (valid_pubkey pubkey)
      then pure (refuse 400 "Invalid pubkey format")
      else pure (refuse 400 "limit must be >= 0 (0 = unlimited)")
  admin_set_quota pubkey quota_type (pos n) =
      if not (valid_pubkey pubkey)
      then pure (refuse 400 "Invalid pubkey format")
      else report "Failed to set quota" (set_quota actor signature pubkey quota_type (pos n))

  -- `adminResetQuota`
  unfoldable pub admin_reset_quota : String → String → Exec AdminReply
  admin_reset_quota pubkey quota_type =
      report "Failed to reset quota" (reset_quota actor signature pubkey quota_type)

  unfoldable pub credit_audit : String → AuditEntry
  credit_audit pubkey = record {
    table_name = "pubkey_credits";
    record_id = pubkey;
    action = "credits.grant";
    actor_pubkey = actor;
    subject_pubkey = pubkey;
    signature = signature;
  }

  unfoldable pub credits_reply : String → ℕ → String → ℕ → AdminReply
  credits_reply pubkey amount reference balance = (
    200,
    ("success", flag true)
        ∷ ("pubkey", text pubkey)
        ∷ ("amount_sats", number amount)
        ∷ ("new_balance", number balance)
        ∷ ("reference_id", text reference)
        ∷ [],
  )

  -- The entry's error is logged, and that of the balance dropped.
  unfoldable pub credits_granted : String → ℕ → String → Result (Unit {0}) → Exec AdminReply
  credits_granted pubkey amount reference (err e) = pure (abort_store e "Failed to grant credits")
  credits_granted pubkey amount reference (ok u) = do
    logged ← try (log_admin_audit (credit_audit pubkey))
    balance ← try (get_credits pubkey)
    pure (credits_reply pubkey amount reference (or_none balance))

  -- `adminGrantCredits`
  unfoldable pub admin_grant_credits : String → ℕ → String → String → Exec AdminReply
  admin_grant_credits pubkey amount reason reference =
      if not (valid_pubkey pubkey)
      then pure (refuse 400 "Invalid pubkey format")
      else try
          (add_credits pubkey amount (if same reason "" then "admin_grant" else reason) reference)
        >>= credits_granted pubkey amount reference

  -- `adminUpdateTier`
  unfoldable pub admin_update_tier : String → ℤ → Bool → Exec AdminReply
  admin_update_tier name (negsuc n) enabled = pure (refuse 400 "price_sats must be >= 0")
  admin_update_tier name (pos price) enabled =
      report "Failed to update tier" (update_tier actor signature name price enabled)
