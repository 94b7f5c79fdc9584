-- ===== src/Api/Quota.antt =====
-- The quota endpoints for the other services (internal/api/internal.go). `strconv.ParseInt` is a
-- parameter.
use cloistr_address.Base.{
  String, Bool, true, not, Option, none, some, [], ◌∷◌, ◌==◌, if◌then◌else◌, same,
}
use cloistr_address.Base.Signed.{ℤ, pos}
use cloistr_address.Base.Texts.{byte_length}
use cloistr_address.Db.Exec.{Result, ok, err, Exec, pure, ◌>>=◌, try}
use cloistr_address.Store.Usage.{
  EffectiveQuota, TierLimits, effective_quota, check_quota, record_service_usage,
}
use cloistr_address.Api.Http.{number, signed, flag, Fields, Reply, fields, error_reply}

-- storage_bytes where the request names no type.
unfoldable pub or_storage : String → String
or_storage quota_type = if same quota_type "" then "storage_bytes" else quota_type

unfoldable pub quota_fields : EffectiveQuota → Fields
quota_fields q =
    ("limit", signed q.limit) ∷ ("used", number q.used) ∷ ("remaining", number q.remaining) ∷ []

unfoldable pub answer_allowed : EffectiveQuota → Result Bool → Exec (Reply (Unit {0}))
answer_allowed q (err e) = pure (error_reply 500 "Failed to check quota")
answer_allowed q (ok allowed) = pure (fields 200 (("allowed", flag allowed) ∷ quota_fields q))

-- The struct `QuotaUsageRequest`.
pub record UsageRequest : Type 0 where
  pub pubkey : String
  pub service : String
  pub quota_type_id : String
  pub bytes : ℤ

-- The usage stays recorded where it cannot be read back.
unfoldable pub answer_recorded : Result EffectiveQuota → Exec (Reply (Unit {0}))
answer_recorded (err e) = pure (fields 200 (("success", flag true) ∷ []))
answer_recorded (ok q) = pure (fields 200 (("success", flag true) ∷ quota_fields q))

module _ (limits : TierLimits) where
  unfoldable pub quota_found : String → String → ℤ → Result EffectiveQuota → Exec (Reply (Unit {0}))
  quota_found pubkey quota_type bytes (err e) = pure (error_reply 500 "Failed to resolve quota")
  quota_found pubkey quota_type bytes (ok q) =
      try (check_quota limits pubkey quota_type bytes) >>= answer_allowed q

  unfoldable pub with_bytes : String → String → Option ℤ → Exec (Reply (Unit {0}))
  with_bytes pubkey quota_type none = pure (error_reply 400 "bytes must be an integer")
  with_bytes pubkey quota_type (some bytes) =
      try (effective_quota limits pubkey quota_type) >>= quota_found pubkey quota_type bytes

  -- `Handler.checkQuota`: the parameters pubkey, quota_type and bytes of the query.
  unfoldable pub check_quota_handler :
      (String → Option ℤ) → String → String → String → Exec (Reply (Unit {0}))
  check_quota_handler parse_int pubkey quota_type bytes =
      if not (byte_length pubkey == 64)
      then pure (error_reply 400 "pubkey query param required (64 hex)")
      else with_bytes pubkey (or_storage quota_type)
          (if same bytes "" then some (pos 0) else parse_int bytes)

  unfoldable pub usage_recorded : String → String → Result (Unit {0}) → Exec (Reply (Unit {0}))
  usage_recorded pubkey quota_type (err e) = pure (error_reply 500 "Failed to record usage")
  usage_recorded pubkey quota_type (ok u) =
      try (effective_quota limits pubkey quota_type) >>= answer_recorded

  -- `Handler.recordQuotaUsage`, past the parsing of the request.
  unfoldable pub record_quota_usage : UsageRequest → Exec (Reply (Unit {0}))
  record_quota_usage req =
      if not (byte_length req.pubkey == 64)
      then pure (error_reply 400 "Invalid pubkey format")
      else let quota_type = or_storage req.quota_type_id in
        try (record_service_usage req.pubkey quota_type req.service req.bytes)
        >>= usage_recorded req.pubkey quota_type
