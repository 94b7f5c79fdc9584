-- ===== src/Tests.antt =====
-- Concrete states and requests, on which the definitions are run and the theorems are applied.
mod Store
mod Api
mod Client
mod Wallet
mod Lnurlp
mod Config
mod Usage
mod Admin
use cloistr_address.Base.{ℕ, String, Bool, true, false, none, some, List, [], ◌∷◌}
use cloistr_address.Db.Tables.{Db, Address}
use cloistr_address.Db.Exec.{World, calm}

abbrev empty_db : Db
empty_db = record {
  users = [];
  admins = [];
  addresses = [];
  next_address_id = 1;
  ownership = [];
  lightning = [];
  credits = [];
  history = [];
  withdrawals = [];
  next_withdrawal_id = 1;
  reserved = [];
  tiers = [];
  products = [];
  grants = [];
  tenants = [];
  members = [];
  quota_types = "storage_bytes" ∷ [];
  user_quotas = [];
  tenant_quotas = [];
  usage = [];
  audit = [];
}

abbrev start : World
start = calm empty_db 1000 0

abbrev row : ℕ → String → String → Bool → Address
row id username pubkey primary = record {
  id = id;
  username = username;
  domain = "cloistr.xyz";
  pubkey = pubkey;
  active = true;
  verified = true;
  is_primary = primary;
  nip05_active = primary;
  auto_assigned = false;
  display_name = none;
  created_at = id;
  ban_reason = none;
  last_transfer_at = none;
}

-- Two names of one pubkey.
abbrev two_names : Db
two_names = record empty_db {
  addresses = row 1 "ada" "pk" true ∷ row 2 "lovelace" "pk" false ∷ [];
  next_address_id = 3;
}
