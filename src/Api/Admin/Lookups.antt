-- ===== src/Api/Admin/Lookups.antt =====
-- The handlers of the admin API that only read (internal/api/admin.go).
use cloistr_address.Base.{
  ℕ, String, true, not, Option, none, some, List, [], ◌∷◌, if◌then◌else◌, same,
}
use cloistr_address.Db.Tables.{Address, ReservedUsername, UsernameTier}
use cloistr_address.Db.Exec.{not_found, Result, ok, err, Exec, pure, ◌>>=◌, try}
use cloistr_address.Store.Credits.{get_credits}
use cloistr_address.Store.Catalog.{list_tiers}
use cloistr_address.Store.Reserved.{list_reserved}
use cloistr_address.Store.Admins.{UserLookup, admin_lookup_user, admin_list_addresses_by_pubkey}
use cloistr_address.Store.Usage.{TierLimits, QuotaView, get_quotas}
use cloistr_address.Api.Http.{text, flag, Reply, typed, error_reply, Service}
use cloistr_address.Api.Auth.{AdminReply, valid_pubkey}
use cloistr_address.Api.Admin.{or_domain}

-- `adminWhoami`
unfoldable pub admin_whoami : String → AdminReply
admin_whoami pubkey = (200, ("pubkey", text pubkey) ∷ ("is_platform_admin", flag true) ∷ [])

-- `abortStore`, or the value.
unfoldable pub value_or : {A : Type 0} → String → Result A → Reply A
value_or msg (ok a) = typed 200 a
value_or msg (err not_found) = error_reply 404 "not found"
value_or msg (err e) = error_reply 500 msg

abbrev pubkey_required : {A : Type 0} → Reply A
pubkey_required = error_reply 400 "pubkey query param required (64 hex)"

-- `adminListAddresses`
unfoldable pub admin_list_addresses : String → Exec (Reply (List Address))
admin_list_addresses pubkey =
    if not (valid_pubkey pubkey)
    then pure pubkey_required
    else try (admin_list_addresses_by_pubkey pubkey)
      >>= (λ r. pure (value_or "Failed to list addresses" r))

unfoldable pub looked_up_reply : Result (Option UserLookup) → Reply UserLookup
looked_up_reply (err not_found) = error_reply 404 "not found"
looked_up_reply (err e) = error_reply 500 "Failed to lookup user"
looked_up_reply (ok none) = error_reply 404 "not found"
looked_up_reply (ok (some u)) = typed 200 u

-- `adminLookupUser`
unfoldable pub admin_lookup_user_handler : Service → String → String → Exec (Reply UserLookup)
admin_lookup_user_handler s name domain =
    if same (s.lower name) ""
    then pure (error_reply 400 "name query param required")
    else try (admin_lookup_user (s.lower name) (or_domain s domain))
      >>= (λ r. pure (looked_up_reply r))

-- `adminListReserved`
unfoldable pub admin_list_reserved :
    (List ReservedUsername → List ReservedUsername) → Exec (Reply (List ReservedUsername))
admin_list_reserved by_username =
    try (list_reserved by_username) >>= (λ r. pure (value_or "Failed to list reservations" r))

-- `adminListTiers`
unfoldable pub admin_list_tiers : Exec (Reply (List UsernameTier))
admin_list_tiers = try list_tiers >>= (λ r. pure (value_or "Failed to list tiers" r))

-- `adminGetCredits`, with the balance as the value.
unfoldable pub admin_get_credits : String → Exec (Reply ℕ)
admin_get_credits pubkey =
    if not (valid_pubkey pubkey)
    then pure pubkey_required
    else try (get_credits pubkey) >>= (λ r. pure (value_or "Failed to get credits" r))

-- `adminGetQuotas`
unfoldable pub admin_get_quotas :
    TierLimits → (List String → List String) → String → Exec (Reply (List QuotaView))
admin_get_quotas limits by_id pubkey =
    if not (valid_pubkey pubkey)
    then pure pubkey_required
    else try (get_quotas limits by_id pubkey) >>= (λ r. pure (value_or "Failed to get quotas" r))
