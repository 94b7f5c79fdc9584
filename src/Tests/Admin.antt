-- ===== src/Tests/Admin.antt =====
-- The theorems on admins and tenants at concrete requests.
use cloistr_address.Base.{
  ℕ, ◌≡◌, ◌≢◌, refl, ap, String, Bool, true, false, not, ◌&&◌, ◌||◌, Option, none, some, List, [],
  ◌∷◌, arith, same, find_where,
}
use cloistr_address.Db.Tables.{Db, Tenant}
use cloistr_address.Db.Exec.{World, Exec, ok, calm, pure, exec, ◌>>◌}
use cloistr_address.Client.Nip98.{Event, Request, Checks}
use cloistr_address.Api.Auth.{AdminReply, success, valid_pubkey}
use cloistr_address.Api.Admin.Entries.{Recorded}
use cloistr_address.Api.Admin.Audited.{reserve, run_admin, run_admin-Recorded}
use cloistr_address.Store.Tenants.{tenant_of}
use cloistr_address.Store.Tenants.Members.{
  join, run_member, membership, changed, run_member-changed,
}
use cloistr_address.Api.Tenants.Ownership.{handle_member, handle_member-owner}
use cloistr_address.Tests.{empty_db, start}

abbrev admin_event : Event
admin_event = record {
  pubkey = "pk";
  kind = 27235;
  created_at = 1000;
  tags =
      ("u" ∷ "https://me.io/admin" ∷ [])
      ∷ ("method" ∷ "POST" ∷ [])
      ∷ ("payload" ∷ "ab12" ∷ [])
      ∷ [];
  sig = "sig";
}

abbrev admin_checks : Checks
admin_checks = record {
  decode_base64 = λ s. some s;
  parse_event = λ s. some admin_event;
  check_signature = λ e. true;
  fold = λ c. c;
}

abbrev admin_request : Request
admin_request = record {
  authorization = "Nostr e30=";
  tls = true;
  forwarded_proto = "";
  forwarded_host = "";
  host = "me.io";
  path = "/admin";
  raw_query = "";
  method = "POST";
}

abbrev with_admin : Db
with_admin = record empty_db { admins = "pk" ∷ [] }

abbrev hash : String → String
hash body = "ab12"

abbrev enroll : String → String → Exec AdminReply
enroll pubkey sig = exec (λ db. record db { users = pubkey ∷ db.users }) >> pure success

run_admin-Recorded_example :
    Recorded "pk" "sig" []
      (run_admin (λ n. "1") "pk" "sig" (reserve "root" none "staff") start).1.db
unfolding run_admin cloistr_address.Store.Reserved.add_reserved cloistr_address.Db.Exec.transaction
    cloistr_address.Db.Exec.statement
run_admin-Recorded_example =
    run_admin-Recorded (λ n. "1") "pk" "sig" (reserve "root" none "staff") start refl

abbrev owner_key : String
owner_key = "aaaaaaaabbbbbbbbccccccccddddddddaaaaaaaabbbbbbbbccccccccdddddddd"

abbrev fleet : Db
fleet = record empty_db {
  users = owner_key ∷ [];
  tenants = record { id = "fleet"; owner_pubkey = owner_key; created_at = 1 } ∷ [];
}

run_member-changed_example :
    membership (run_member (join "fleet" owner_key) (calm fleet 1000 0)).1.db "fleet" owner_key
    ≡ changed (join "fleet" owner_key) (membership fleet) "fleet" owner_key
unfolding run_member cloistr_address.Store.Tenants.add_tenant_member
    cloistr_address.Db.Exec.transaction cloistr_address.Db.Exec.statement
    cloistr_address.Store.Tenants.insert_member cloistr_address.Base.exists_where
    cloistr_address.Store.Addresses.Transfer.ensure_user same tenant_of
run_member-changed_example =
    run_member-changed (join "fleet" owner_key) "fleet" owner_key (calm fleet 1000 0) refl

handle_member-owner_example :
    (t : Tenant) × (find_where (tenant_of "fleet") fleet.tenants ≡ some t)
    × (t.owner_pubkey ≡ owner_key)
    × (valid_pubkey owner_key ≡ true)
unfolding handle_member cloistr_address.Api.Tenants.handle_add_tenant_member valid_pubkey
    cloistr_address.Base.Texts.byte_length cloistr_address.Api.Auth.all_hex
    cloistr_address.Api.Auth.is_hex cloistr_address.Client.Crypto.hex_digit
    cloistr_address.Api.Tenants.owned cloistr_address.Store.Tenants.get_tenant
    cloistr_address.Db.Exec.auto cloistr_address.Db.Exec.statement find_where tenant_of same
    cloistr_address.Store.Tenants.add_tenant_member cloistr_address.Db.Exec.transaction
    cloistr_address.Store.Tenants.insert_member cloistr_address.Base.exists_where
    cloistr_address.Api.Tenants.handle_remove_tenant_member cloistr_address.Api.Tenants.member_added
    cloistr_address.Api.Tenants.member_removed cloistr_address.Base.delete_where
    cloistr_address.Base.Texts.bytes_of cloistr_address.Db.Exec.finish
    cloistr_address.Store.Addresses.Transfer.ensure_user cloistr_address.Store.Tenants.delete_member
    cloistr_address.Store.Tenants.is_member cloistr_address.Store.Tenants.remove_tenant_member
handle_member-owner_example =
    handle_member-owner owner_key (join "fleet" owner_key) (calm fleet 1000 0) (λ e.
      let q : (record { tenant_id = "fleet"; pubkey = owner_key; joined_at = 1000 } ∷ []) ≡ [] =
        ap (λ (db : Db). db.members) e in
      cc q)
