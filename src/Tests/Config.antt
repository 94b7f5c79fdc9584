-- ===== src/Tests/Config.antt =====
-- An update of the Lightning configuration at a concrete request.
use cloistr_address.Base.{
  ◌≡◌, refl, String, true, false, Option, none, same, find_where, exists_where, update_where,
}
use cloistr_address.Db.Exec.{ok, calm}
use cloistr_address.Client.Nwc.{Query}
use cloistr_address.Api.Http.{typed}
use cloistr_address.Api.Config.{UpdateRequest, answered, update_lightning_config}
use cloistr_address.Api.Config.Stored.{Sound, update_lightning_config-Sound}
use cloistr_address.Tests.Lnurlp.{payable, no_wallets}

abbrev hosting : UpdateRequest
hosting = record { mode = "hosted"; proxy_address = none; nwc_connection_uri = none }

abbrev no_query : String → Option Query
no_query s = none

-- The name "ada" goes from its provider to the server.
hosting_runs :
    (update_lightning_config no_wallets no_query "pk" hosting (calm payable 1000 0)).0
    ≡ ok (
        answered (
          typed 200 record {
            mode = "hosted";
            proxy_address = "";
            nwc_configured = false;
            nwc_error_count = 0;
            min_sendable_sat = 1;
            max_sendable_sat = 100;
            comment_allowed = 5;
            allows_nostr = true;
            enabled = true;
          }))
unfolding update_lightning_config cloistr_address.Api.Config.update_checked
    cloistr_address.Api.Config.check_request same cloistr_address.Api.Config.update_held
    cloistr_address.Store.Addresses.Rows.get_primary_address_by_pubkey cloistr_address.Db.Exec.auto
    cloistr_address.Db.Exec.statement find_where update_where
    cloistr_address.Store.Addresses.Rows.active_primary_of cloistr_address.Api.Config.store_config
    cloistr_address.Api.Config.build_update cloistr_address.Api.Config.fetch_config
    cloistr_address.Store.Identity.upsert_lightning_config_full
    cloistr_address.Store.Identity.upsert_config cloistr_address.Store.Identity.config_allowed
    cloistr_address.Store.Identity.inserted_config cloistr_address.Store.Identity.upserted
    cloistr_address.Store.Identity.updated_config cloistr_address.Api.Config.answer_config
    cloistr_address.Api.Config.config_response cloistr_address.Api.Wallet.or_empty exists_where
    cloistr_address.Store.Addresses.Rows.lightning_of cloistr_address.Store.Addresses.Rows.scanned
    cloistr_address.Store.Identity.get_lightning_config
hosting_runs = refl

update_lightning_config-Sound_example :
    let out = update_lightning_config no_wallets no_query "pk" hosting (calm payable 1000 0) in
    Sound "pk" hosting payable out.0 out.1.db
update_lightning_config-Sound_example =
    update_lightning_config-Sound no_wallets no_query "pk" hosting (calm payable 1000 0)
