-- ===== src/Tests/Api.antt =====
-- The theorems on the handlers at concrete requests.
use cloistr_address.Base.{
  ℕ, ◌+◌, ◌-◌, ◌≤◌, ◌≡◌, ◌≢◌, ◌⊎◌, inl, inr, refl, String, Bool, true, false, Option, none, some,
  List, [], ◌∷◌, ◌++◌, arith, same, ne_of_same, count_where, select_where, map, find_where, ◌==◌,
  if◌then◌else◌,
}
use cloistr_address.Base.Signed.{pos}
use cloistr_address.Base.Texts.{codes, contains, bytes_of}
use cloistr_address.Db.Tables.{Address}
use cloistr_address.Db.Exec.{Exec, ok, err, World, calm, raise, message}
use cloistr_address.Store.Credits.{balance, add_credits, add_invoice_credit_once}
use cloistr_address.Store.Credits.Once.{credited}
use cloistr_address.Store.Addresses.Rows.{active_name}
use cloistr_address.Store.Addresses.Register.Keeps.{MoneyIs}
use cloistr_address.Api.Http.{
  Service, Reply, typed, fields, error_reply, status, text, number, meta_text,
}
use cloistr_address.Api.Gateway.{Invoice, Gateway, created, is_valid_lightning_address}
use cloistr_address.Api.Gateway.LightningAddress.{is_valid_lightning_address_shape}
use cloistr_address.Api.Quote.{PurchaseQuoteResponse, get_purchase_quote}
use cloistr_address.Api.Purchase.{
  PurchaseInvoiceRequest, PurchaseInvoiceResponse, create_purchase_invoice, credits_to_apply,
  bolt11,
}
use cloistr_address.Api.Purchase.Money.{create_purchase_invoice_quoted}
use cloistr_address.Api.Pricing.{NamePrice, price_name_for, shown_tiers, shown_tier}
use cloistr_address.Api.Pricing.Rules.{price_name_for_claimed}
use cloistr_address.Api.Settlement.{
  settle_product, SettlementOutcome, meta_pubkey, settlement_kind, kind_address,
}
use cloistr_address.Api.Webhook.{WebhookEvent, settle_address, race_lost}
use cloistr_address.Api.Webhook.Retry.{Paid, settle_address_paid, settle_address_again}
use cloistr_address.Api.Withdraw.{CreditWithdrawResponse, withdraw_credits}
use cloistr_address.Api.Withdraw.Accepted.{withdraw_credits_accepted, withdraw_credits_refused}
use cloistr_address.Api.Addresses.{transfer_address_handler}
use cloistr_address.Api.Addresses.Cooldown.{transfer_address_handler_cooldown}
use cloistr_address.Api.Status.{get_purchase_status}
use cloistr_address.Api.Status.Owner.{get_purchase_status_owner}
use cloistr_address.Api.Internal.{VerifiedAddress, verify_address, panicked}
use cloistr_address.Api.Internal.Verified.{verify_address_valid}
use cloistr_address.Tests.{empty_db, start, row, two_names}

abbrev service : Service
service = record {
  domain = "cloistr.xyz";
  lower = λ s. s;
  is_valid_human_name = λ s. true;
  price_of = λ db n. some (if n == 3 then 5000 else 0);
  generate = λ free. raise (message "no name");
}

abbrev invoice : Invoice
invoice = record {
  id = "inv1";
  status = "Settled";
  amount = record { mantissa = pos 5000; exponent = pos 0 };
  metadata = ("kind", text "address") ∷ ("username", text "ada") ∷ ("pubkey", text "pk") ∷ [];
  checkout_link = "";
  expiration_time = 3600;
}

abbrev gateway : Gateway
gateway = record {
  is_configured = true;
  create_invoice = λ amount meta. created invoice;
  get_invoice = λ id. some invoice;
  payment_methods = λ id. none;
}

abbrev event : WebhookEvent
event = record { type = "InvoiceSettled"; invoice_id = "inv1"; metadata = invoice.metadata }

abbrev buyer : String
buyer = "0123456789abcdef0123456789abcdef0123456789abcdef0123456789abcdef"

abbrev held : World
held = calm two_names 9 0

abbrev request : PurchaseInvoiceRequest
request = record { username = "bob"; use_credits = false; lightning_address = none }

abbrev quote : PurchaseQuoteResponse
quote = record {
  username = "bob";
  available = true;
  price_sats = 5000;
  tier = "standard";
  credits = 0;
  additional = false;
}

create_purchase_invoice_quoted_example :
    (create_purchase_invoice service gateway "pk" request held).0
    ≡ ok (
        typed 201 record {
          invoice_id = "inv1";
          username = "bob";
          amount_sats = 5000;
          credits_applied = 0;
          payment_request = bolt11 none;
          expires_at = 3600;
        })
unfolding cloistr_address.Base.same cloistr_address.Base.find_where cloistr_address.Base.count_where
    cloistr_address.Base.exists_where cloistr_address.Db.Exec.statement cloistr_address.Db.Exec.auto
    cloistr_address.Db.Exec.finish cloistr_address.Db.Exec.transaction
    cloistr_address.Api.Pricing.additional_address_product_id
    cloistr_address.Api.Pricing.fallback_additional_price_sats
    cloistr_address.Api.Pricing.or_fallback cloistr_address.Api.Pricing.additional_address_price
    cloistr_address.Api.Pricing.price_claimed cloistr_address.Api.Pricing.price_allowance
    cloistr_address.Api.Pricing.price_name_for cloistr_address.Store.Catalog.get_username_price
    cloistr_address.Store.Catalog.tier_covers cloistr_address.Store.Catalog.dearest
    cloistr_address.Store.Catalog.get_username_tier cloistr_address.Store.Catalog.product_id
    cloistr_address.Store.Catalog.get_product_price_sats cloistr_address.Base.Texts.bytes_of
    cloistr_address.Base.Texts.byte_length cloistr_address.Store.Addresses.Rows.real_of
    cloistr_address.Store.Addresses.Rows.count_real_addresses cloistr_address.Api.Quote.quote_priced
    cloistr_address.Api.Quote.quote_available cloistr_address.Api.Quote.get_purchase_quote
    cloistr_address.Store.Addresses.Rows.username_available
    cloistr_address.Store.Addresses.Rows.is_username_available
    cloistr_address.Store.Credits.lookup_balance cloistr_address.Store.Credits.balance
    cloistr_address.Store.Credits.get_credits cloistr_address.Api.Purchase.bad_lightning_address
    cloistr_address.Api.Gateway.is_valid_lightning_address
create_purchase_invoice_quoted_example =
    create_purchase_invoice_quoted service gateway "pk" request held quote invoice refl refl
      (omega arith) refl refl refl refl

price_name_for_claimed_example : 1 ≤ 1000
unfolding cloistr_address.Base.same cloistr_address.Base.find_where cloistr_address.Base.count_where
    cloistr_address.Base.exists_where cloistr_address.Db.Exec.statement cloistr_address.Db.Exec.auto
    cloistr_address.Db.Exec.finish cloistr_address.Db.Exec.transaction
    cloistr_address.Api.Pricing.additional_address_product_id
    cloistr_address.Api.Pricing.fallback_additional_price_sats
    cloistr_address.Api.Pricing.or_fallback cloistr_address.Api.Pricing.additional_address_price
    cloistr_address.Api.Pricing.price_claimed cloistr_address.Api.Pricing.price_allowance
    cloistr_address.Api.Pricing.price_name_for cloistr_address.Store.Catalog.get_username_price
    cloistr_address.Store.Catalog.tier_covers cloistr_address.Store.Catalog.dearest
    cloistr_address.Store.Catalog.get_username_tier cloistr_address.Store.Catalog.product_id
    cloistr_address.Store.Catalog.get_product_price_sats cloistr_address.Base.Texts.bytes_of
    cloistr_address.Base.Texts.byte_length cloistr_address.Store.Addresses.Rows.real_of
    cloistr_address.Store.Addresses.Rows.count_real_addresses
    cloistr_address.Api.Pricing.Rules.catalog_price
price_name_for_claimed_example =
    price_name_for_claimed service "grace" "pk" held
      record { price_sats = 1000; tier = "standard"; additional = true } (ne_of_same "pk" "" refl)
      (omega arith) (omega arith) refl

abbrev shop : World
shop =
    calm
      (record empty_db {
        products =
            record {
              id = "storage";
              display_name = "Storage";
              price_sats = 10;
              grants_quota_increases = ("storage_bytes", pos 5) ∷ ("expires_days", pos 30) ∷ [];
              enabled = true;
            }
            ∷ [];
      })
      1000 0

abbrev settled : World
settled = (settle_product "inv9" "pk" "storage" 1000 shop).1

settle_address_paid_example :
    Paid "cloistr.xyz" "ada" buyer "inv1" 5000 two_names
      (settle_address "cloistr.xyz" "ada" buyer event (some invoice) held).1.db
unfolding cloistr_address.Api.Gateway.to_int64 cloistr_address.Api.Gateway.truncated
    cloistr_address.Base.same cloistr_address.Base.find_where cloistr_address.Base.count_where
    cloistr_address.Base.exists_where cloistr_address.Base.select_where
    cloistr_address.Base.update_where cloistr_address.Base.all_rows
    cloistr_address.Db.Exec.statement cloistr_address.Db.Exec.auto cloistr_address.Db.Exec.finish
    cloistr_address.Db.Exec.transaction cloistr_address.Api.Webhook.credit_failed
    cloistr_address.Api.Webhook.registration_credited cloistr_address.Api.Webhook.race_lost
    cloistr_address.Api.Webhook.answer_credit cloistr_address.Api.Webhook.credit_payer
    cloistr_address.Api.Webhook.answer_registration cloistr_address.Api.Webhook.settle_address
    cloistr_address.Store.Addresses.Register.primary_id
    cloistr_address.Store.Addresses.Register.carries_flag
    cloistr_address.Store.Addresses.Register.demote
    cloistr_address.Store.Addresses.Register.make_primary
    cloistr_address.Store.Addresses.Register.plan cloistr_address.Store.Addresses.Register.inherits
    cloistr_address.Store.Addresses.Register.inherit
    cloistr_address.Store.Addresses.Register.register_row
    cloistr_address.Store.Addresses.Register.demote_incumbent
    cloistr_address.Store.Addresses.Register.former_primary
    cloistr_address.Store.Addresses.Register.register_planned
    cloistr_address.Store.Addresses.Register.register_counted
    cloistr_address.Store.Addresses.Register.register_unreserved
    cloistr_address.Store.Addresses.Register.register_untaken
    cloistr_address.Store.Addresses.Register.register_body
    cloistr_address.Store.Addresses.Register.atomic_register_address
    cloistr_address.Store.Addresses.Rows.active_name cloistr_address.Store.Addresses.Rows.active_of
    cloistr_address.Store.Addresses.Rows.active_primary_of
    cloistr_address.Store.Addresses.Rows.real_of cloistr_address.Store.Addresses.Rows.has_id
    cloistr_address.Store.Addresses.Rows.reserved_name cloistr_address.Store.Addresses.Rows.scanned
    cloistr_address.Store.Addresses.Rows.get_address_by_username
    cloistr_address.Store.Addresses.Rows.get_primary_address_by_pubkey
    cloistr_address.Store.Addresses.Rows.count_real_addresses
    cloistr_address.Store.Addresses.Rows.username_available
    cloistr_address.Store.Addresses.Rows.is_username_available
    cloistr_address.Store.Addresses.Rows.oldest_where
    cloistr_address.Store.Addresses.Rows.other_active cloistr_address.Store.Addresses.Rows.promote
    cloistr_address.Store.Addresses.Rows.promote_primary_address
    cloistr_address.Store.Addresses.Rows.promote_nip05_address
    cloistr_address.Store.Addresses.Rows.open_ownership cloistr_address.Store.Addresses.Rows.is_open
    cloistr_address.Store.Addresses.Rows.close_ownership
    cloistr_address.Store.Addresses.Rows.lightning_of
    cloistr_address.Store.Addresses.Rows.copy_lightning_config
    cloistr_address.Store.Addresses.Rows.new_address
    cloistr_address.Store.Addresses.Rows.insert_address cloistr_address.Db.Schema.has_name
    cloistr_address.Db.Schema.flagged cloistr_address.Db.Schema.names_unique
    cloistr_address.Db.Schema.one_flagged cloistr_address.Db.Schema.set_addresses
    cloistr_address.Store.Credits.pubkey_format cloistr_address.Store.Credits.is_lower_hex
    cloistr_address.Store.Credits.max_bigint cloistr_address.Store.Credits.max_integer
    cloistr_address.Store.Credits.fits_integer cloistr_address.Store.Credits.lookup_balance
    cloistr_address.Store.Credits.set_balance cloistr_address.Store.Credits.balance
    cloistr_address.Store.Credits.upsert_credits cloistr_address.Store.Credits.deduct_balance
    cloistr_address.Store.Credits.refund_balance
    cloistr_address.Store.Credits.credit_reason_race_loss
    cloistr_address.Store.Credits.credit_reason_registration_error
    cloistr_address.Store.Credits.is_invoice_credit cloistr_address.Store.Credits.same_reference
    cloistr_address.Store.Credits.credits_invoice cloistr_address.Store.Credits.breaks_once
    cloistr_address.Store.Credits.insert_history cloistr_address.Store.Credits.insert_history_once
    cloistr_address.Store.Credits.get_credits cloistr_address.Store.Credits.add_credits
    cloistr_address.Store.Credits.add_invoice_credit_once
    cloistr_address.Store.Credits.deduct_credits cloistr_address.Store.Credits.new_withdrawal
    cloistr_address.Store.Credits.insert_withdrawal cloistr_address.Store.Credits.record_withdrawal
    cloistr_address.Store.Credits.create_withdrawal_request
    cloistr_address.Store.Credits.withdrawal_id
    cloistr_address.Store.Credits.refund_failed_withdrawal cloistr_address.Store.Credits.is_status
    cloistr_address.Store.Credits.update_status
    cloistr_address.Store.Credits.update_withdrawal_status
    cloistr_address.Store.Credits.get_pending_withdrawals
    cloistr_address.Store.Identity.upsert_lightning_config
    cloistr_address.Store.Credits.Once.credited
settle_address_paid_example =
    settle_address_paid "cloistr.xyz" "ada" buyer event invoice 5000 (race_lost (pos 5000)) held
      refl (omega arith) refl refl

abbrev credited_world : World
credited_world = calm (add_invoice_credit_once buyer 5000 "race_loss" "inv1" held).1.db 50 0

settle_address_again_example :
    MoneyIs credited_world.db.credits credited_world.db.history
      (settle_address "cloistr.xyz" "ada" buyer event (some invoice) credited_world).1.db
unfolding cloistr_address.Base.same cloistr_address.Base.find_where cloistr_address.Base.count_where
    cloistr_address.Base.exists_where cloistr_address.Base.select_where
    cloistr_address.Base.update_where cloistr_address.Base.all_rows
    cloistr_address.Db.Exec.statement cloistr_address.Db.Exec.auto cloistr_address.Db.Exec.finish
    cloistr_address.Store.Credits.pubkey_format cloistr_address.Store.Credits.is_lower_hex
    cloistr_address.Db.Exec.transaction cloistr_address.Store.Credits.max_bigint
    cloistr_address.Store.Credits.max_integer cloistr_address.Store.Credits.fits_integer
    cloistr_address.Store.Credits.lookup_balance cloistr_address.Store.Credits.set_balance
    cloistr_address.Store.Credits.balance cloistr_address.Store.Credits.upsert_credits
    cloistr_address.Store.Credits.deduct_balance cloistr_address.Store.Credits.refund_balance
    cloistr_address.Store.Credits.credit_reason_race_loss
    cloistr_address.Store.Credits.credit_reason_registration_error
    cloistr_address.Store.Credits.is_invoice_credit cloistr_address.Store.Credits.same_reference
    cloistr_address.Store.Credits.credits_invoice cloistr_address.Store.Credits.breaks_once
    cloistr_address.Store.Credits.insert_history cloistr_address.Store.Credits.insert_history_once
    cloistr_address.Store.Credits.get_credits cloistr_address.Store.Credits.add_credits
    cloistr_address.Store.Credits.add_invoice_credit_once
    cloistr_address.Store.Credits.deduct_credits cloistr_address.Store.Credits.new_withdrawal
    cloistr_address.Store.Credits.insert_withdrawal cloistr_address.Store.Credits.record_withdrawal
    cloistr_address.Store.Credits.create_withdrawal_request
    cloistr_address.Store.Credits.withdrawal_id
    cloistr_address.Store.Credits.refund_failed_withdrawal cloistr_address.Store.Credits.is_status
    cloistr_address.Store.Credits.update_status
    cloistr_address.Store.Credits.update_withdrawal_status
    cloistr_address.Store.Credits.get_pending_withdrawals
    cloistr_address.Store.Credits.Once.credited
settle_address_again_example =
    settle_address_again "cloistr.xyz" "ada" buyer event invoice credited_world refl

abbrev rich : World
rich = calm (add_credits buyer 500 "promotional" "r" start).1.db 50 0

withdraw_credits_accepted_example :
    (100 ≤ 200)
    × (balance buyer (withdraw_credits buyer 200 "a@b.io" rich).1.db.credits + 200
        ≡ balance buyer rich.db.credits)
unfolding cloistr_address.Base.same cloistr_address.Base.find_where cloistr_address.Base.count_where
    cloistr_address.Base.exists_where cloistr_address.Db.Exec.statement cloistr_address.Db.Exec.auto
    cloistr_address.Db.Exec.finish cloistr_address.Db.Exec.transaction
    cloistr_address.Store.Credits.pubkey_format cloistr_address.Store.Credits.is_lower_hex
    cloistr_address.Base.all_rows cloistr_address.Store.Credits.max_bigint
    cloistr_address.Store.Credits.max_integer cloistr_address.Store.Credits.fits_integer
    cloistr_address.Store.Credits.lookup_balance cloistr_address.Store.Credits.set_balance
    cloistr_address.Store.Credits.balance cloistr_address.Store.Credits.upsert_credits
    cloistr_address.Store.Credits.deduct_balance cloistr_address.Store.Credits.refund_balance
    cloistr_address.Store.Credits.credit_reason_race_loss
    cloistr_address.Store.Credits.credit_reason_registration_error
    cloistr_address.Store.Credits.is_invoice_credit cloistr_address.Store.Credits.same_reference
    cloistr_address.Store.Credits.credits_invoice cloistr_address.Store.Credits.breaks_once
    cloistr_address.Store.Credits.insert_history cloistr_address.Store.Credits.insert_history_once
    cloistr_address.Store.Credits.get_credits cloistr_address.Store.Credits.add_credits
    cloistr_address.Store.Credits.add_invoice_credit_once
    cloistr_address.Store.Credits.deduct_credits cloistr_address.Store.Credits.new_withdrawal
    cloistr_address.Store.Credits.insert_withdrawal cloistr_address.Store.Credits.record_withdrawal
    cloistr_address.Store.Credits.create_withdrawal_request
    cloistr_address.Store.Credits.withdrawal_id
    cloistr_address.Store.Credits.refund_failed_withdrawal cloistr_address.Store.Credits.is_status
    cloistr_address.Store.Credits.update_status
    cloistr_address.Store.Credits.update_withdrawal_status
    cloistr_address.Store.Credits.get_pending_withdrawals
    cloistr_address.Api.Withdraw.answer_credits cloistr_address.Api.Withdraw.get_credits_handler
    cloistr_address.Api.Withdraw.min_withdrawal cloistr_address.Api.Withdraw.answer_withdrawal
    cloistr_address.Api.Withdraw.withdraw_credits
    cloistr_address.Api.Gateway.is_valid_lightning_address
    cloistr_address.Api.Gateway.lightning_parts cloistr_address.Base.Texts.bytes_of
    cloistr_address.Base.Texts.byte_length cloistr_address.Base.Texts.split_on
    cloistr_address.Base.Texts.contains cloistr_address.Base.Texts.starts
    cloistr_address.Base.Texts.contains_text
withdraw_credits_accepted_example =
    withdraw_credits_accepted buyer 200 "a@b.io" rich
      record {
        withdrawal_id = 1;
        amount_sats = 200;
        status = "pending";
        message = "Withdrawal request created. Payment will be processed shortly.";
      }
      refl

withdraw_credits_refused_example : (withdraw_credits buyer 900 "a@b.io" rich).1.db ≡ rich.db
unfolding cloistr_address.Base.same cloistr_address.Base.find_where cloistr_address.Base.count_where
    cloistr_address.Base.exists_where cloistr_address.Db.Exec.statement cloistr_address.Db.Exec.auto
    cloistr_address.Db.Exec.finish cloistr_address.Db.Exec.transaction
    cloistr_address.Store.Credits.pubkey_format cloistr_address.Store.Credits.is_lower_hex
    cloistr_address.Base.all_rows cloistr_address.Store.Credits.max_bigint
    cloistr_address.Store.Credits.max_integer cloistr_address.Store.Credits.fits_integer
    cloistr_address.Store.Credits.lookup_balance cloistr_address.Store.Credits.set_balance
    cloistr_address.Store.Credits.balance cloistr_address.Store.Credits.upsert_credits
    cloistr_address.Store.Credits.deduct_balance cloistr_address.Store.Credits.refund_balance
    cloistr_address.Store.Credits.credit_reason_race_loss
    cloistr_address.Store.Credits.credit_reason_registration_error
    cloistr_address.Store.Credits.is_invoice_credit cloistr_address.Store.Credits.same_reference
    cloistr_address.Store.Credits.credits_invoice cloistr_address.Store.Credits.breaks_once
    cloistr_address.Store.Credits.insert_history cloistr_address.Store.Credits.insert_history_once
    cloistr_address.Store.Credits.get_credits cloistr_address.Store.Credits.add_credits
    cloistr_address.Store.Credits.add_invoice_credit_once
    cloistr_address.Store.Credits.deduct_credits cloistr_address.Store.Credits.new_withdrawal
    cloistr_address.Store.Credits.insert_withdrawal cloistr_address.Store.Credits.record_withdrawal
    cloistr_address.Store.Credits.create_withdrawal_request
    cloistr_address.Store.Credits.withdrawal_id
    cloistr_address.Store.Credits.refund_failed_withdrawal cloistr_address.Store.Credits.is_status
    cloistr_address.Store.Credits.update_status
    cloistr_address.Store.Credits.update_withdrawal_status
    cloistr_address.Store.Credits.get_pending_withdrawals
    cloistr_address.Api.Withdraw.answer_credits cloistr_address.Api.Withdraw.get_credits_handler
    cloistr_address.Api.Withdraw.min_withdrawal cloistr_address.Api.Withdraw.answer_withdrawal
    cloistr_address.Api.Withdraw.withdraw_credits
    cloistr_address.Api.Gateway.is_valid_lightning_address
    cloistr_address.Api.Gateway.lightning_parts cloistr_address.Base.Texts.bytes_of
    cloistr_address.Base.Texts.byte_length cloistr_address.Base.Texts.split_on
    cloistr_address.Base.Texts.contains cloistr_address.Base.Texts.starts
    cloistr_address.Base.Texts.contains_text
withdraw_credits_refused_example =
    withdraw_credits_refused buyer 900 "a@b.io" rich
      (fields 400 (
        ("error", text "Insufficient credits")
        ∷ ("available_sats", number 500)
        ∷ ("requested_sats", number 900)
        ∷ []))
      refl (omega arith)

abbrev sixty_four : String
sixty_four = "0123456789abcdef0123456789abcdef0123456789abcdef0123456789abcdef"

transfer_address_handler_cooldown_example : ◌≢◌ {A = ℕ} 200 425
unfolding cloistr_address.Base.same cloistr_address.Base.find_where cloistr_address.Base.count_where
    cloistr_address.Base.exists_where cloistr_address.Base.select_where
    cloistr_address.Base.update_where cloistr_address.Base.all_rows
    cloistr_address.Db.Exec.statement cloistr_address.Db.Exec.auto cloistr_address.Db.Exec.finish
    cloistr_address.Db.Exec.transaction cloistr_address.Api.Addresses.cooldown
    cloistr_address.Api.Addresses.cooling cloistr_address.Api.Addresses.answer_transfer
    cloistr_address.Api.Addresses.transfer_held
    cloistr_address.Api.Addresses.transfer_address_handler
    cloistr_address.Store.Addresses.Transfer.ensure_user
    cloistr_address.Store.Addresses.Transfer.move_row
    cloistr_address.Store.Addresses.Transfer.promote_if
    cloistr_address.Store.Addresses.Transfer.transfer_row
    cloistr_address.Store.Addresses.Transfer.transfer_found
    cloistr_address.Store.Addresses.Transfer.transfer_body
    cloistr_address.Store.Addresses.Transfer.transfer_address
    cloistr_address.Store.Addresses.Transfer.write_audit
    cloistr_address.Store.Addresses.Transfer.admin_transfer_found
    cloistr_address.Store.Addresses.Transfer.admin_transfer_address
    cloistr_address.Store.Addresses.Rows.active_name cloistr_address.Store.Addresses.Rows.active_of
    cloistr_address.Store.Addresses.Rows.active_primary_of
    cloistr_address.Store.Addresses.Rows.real_of cloistr_address.Store.Addresses.Rows.has_id
    cloistr_address.Store.Addresses.Rows.reserved_name cloistr_address.Store.Addresses.Rows.scanned
    cloistr_address.Store.Addresses.Rows.get_address_by_username
    cloistr_address.Store.Addresses.Rows.get_primary_address_by_pubkey
    cloistr_address.Store.Addresses.Rows.count_real_addresses
    cloistr_address.Store.Addresses.Rows.username_available
    cloistr_address.Store.Addresses.Rows.is_username_available
    cloistr_address.Store.Addresses.Rows.oldest_where
    cloistr_address.Store.Addresses.Rows.other_active cloistr_address.Store.Addresses.Rows.promote
    cloistr_address.Store.Addresses.Rows.promote_primary_address
    cloistr_address.Store.Addresses.Rows.promote_nip05_address
    cloistr_address.Store.Addresses.Rows.open_ownership cloistr_address.Store.Addresses.Rows.is_open
    cloistr_address.Store.Addresses.Rows.close_ownership
    cloistr_address.Store.Addresses.Rows.lightning_of
    cloistr_address.Store.Addresses.Rows.copy_lightning_config
    cloistr_address.Store.Addresses.Rows.new_address
    cloistr_address.Store.Addresses.Rows.insert_address cloistr_address.Db.Schema.has_name
    cloistr_address.Db.Schema.flagged cloistr_address.Db.Schema.names_unique
    cloistr_address.Db.Schema.one_flagged cloistr_address.Db.Schema.set_addresses
    cloistr_address.Base.Texts.bytes_of cloistr_address.Base.Texts.byte_length
transfer_address_handler_cooldown_example =
    transfer_address_handler_cooldown "pk" sixty_four held
      (fields 200 (
        ("message", text "Address transferred successfully")
        ∷ ("username", text "ada")
        ∷ ("new_pubkey", text sixty_four)
        ∷ []))
      refl

get_purchase_status_owner_example :
    (i : Invoice) × (gateway.get_invoice "inv1" ≡ some i)
    × (meta_text meta_pubkey i.metadata ≡ "pk")
    × (settlement_kind i.metadata ≡ kind_address)
unfolding cloistr_address.Base.same cloistr_address.Base.find_where cloistr_address.Base.count_where
    cloistr_address.Base.exists_where cloistr_address.Db.Exec.statement cloistr_address.Db.Exec.auto
    cloistr_address.Db.Exec.finish cloistr_address.Db.Exec.transaction
    cloistr_address.Api.Status.is_id_char cloistr_address.Api.Status.all_chars
    cloistr_address.Api.Status.is_invoice_id cloistr_address.Api.Status.settled_status
    cloistr_address.Api.Status.is_owner cloistr_address.Api.Status.status_of
    cloistr_address.Api.Status.get_purchase_status cloistr_address.Api.Settlement.meta_kind
    cloistr_address.Api.Settlement.meta_username cloistr_address.Api.Settlement.meta_pubkey
    cloistr_address.Api.Settlement.meta_product_id cloistr_address.Api.Settlement.kind_address
    cloistr_address.Api.Settlement.settlement_kind cloistr_address.Api.Http.lookup_field
    cloistr_address.Api.Http.meta_text cloistr_address.Store.Addresses.Rows.active_name
    cloistr_address.Store.Addresses.Rows.scanned
    cloistr_address.Store.Addresses.Rows.get_address_by_username cloistr_address.Db.Schema.has_name
get_purchase_status_owner_example =
    get_purchase_status_owner "cloistr.xyz" gateway "pk" "inv1" held
      (typed 200 record { status = "completed"; username = "ada"; reason = "" }) refl (omega arith)

abbrev long_names : World
long_names = calm (record empty_db { addresses = row 1 "ada" sixty_four true ∷ [] }) 9 0

verify_address_valid_example :
    (r : Address) × (find_where (active_name "ada" "cloistr.xyz") long_names.db.addresses ≡ some r)
    × (r.pubkey ≡ sixty_four)
    × (1 ≡ r.id)
    × (sixty_four ≡ sixty_four)
unfolding cloistr_address.Base.same cloistr_address.Base.find_where cloistr_address.Base.count_where
    cloistr_address.Base.exists_where cloistr_address.Db.Exec.statement cloistr_address.Db.Exec.auto
    cloistr_address.Db.Exec.finish cloistr_address.Db.Exec.transaction
    cloistr_address.Api.Internal.verify_found cloistr_address.Api.Internal.verify_address
    cloistr_address.Base.Texts.bytes_of cloistr_address.Base.Texts.byte_length
    cloistr_address.Store.Addresses.Rows.active_name cloistr_address.Store.Addresses.Rows.scanned
    cloistr_address.Store.Addresses.Rows.get_address_by_username cloistr_address.Db.Schema.has_name
verify_address_valid_example =
    verify_address_valid "cloistr.xyz" "ada" sixty_four long_names
      record { address_id = 1; username = "ada"; pubkey = sixty_four; display_name = none } refl

is_valid_lightning_address_shape_example :
    (user host : List ℕ) × (codes "me@pay.io" ≡ user ++ (b'@' ∷ host))
    × (contains b'@' user ≡ false)
    × (contains b'@' host ≡ false)
    × (1 ≤ bytes_of user)
    × (3 ≤ bytes_of host)
    × (contains b'.' host ≡ true)
unfolding cloistr_address.Base.same cloistr_address.Base.find_where cloistr_address.Base.count_where
    cloistr_address.Base.exists_where cloistr_address.Api.Gateway.lightning_parts
    cloistr_address.Api.Gateway.is_valid_lightning_address cloistr_address.Base.Texts.bytes_of
    cloistr_address.Base.Texts.byte_length cloistr_address.Base.Texts.split_on
    cloistr_address.Base.Texts.contains cloistr_address.Base.Texts.starts
    cloistr_address.Base.Texts.contains_text
is_valid_lightning_address_shape_example = is_valid_lightning_address_shape "me@pay.io" refl
