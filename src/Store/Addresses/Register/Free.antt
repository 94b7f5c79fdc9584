-- ===== src/Store/Addresses/Register/Free.antt =====
-- The unique indexes never refuse a free name (internal/storage/postgres.go).
use cloistr_address.Base.{
  ℕ, ◌≡◌, String, Bool, false, ◌&&◌, Option, some, ltb, count_where, exists_where,
}
use cloistr_address.Db.Tables.{Db, Address}
use cloistr_address.Db.Exec.{Verdict}
use cloistr_address.Db.Calm.{Commits}
use cloistr_address.Store.Addresses.Rows.{active_of, reserved_name}
use cloistr_address.Store.Addresses.Register.Room.{IsFree}

module _ (u d p : String) where
  -- After the count of the active addresses.
  record Counted (active : ℕ) (db : Db) : Type 0 where
    free : IsFree u d p db
    count : count_where (active_of p) db.addresses ≡ active

  record Open (auto : Bool) (db : Db) : Type 0 where
    free : IsFree u d p db
    unreserved : exists_where (reserved_name u) db.reserved ≡ false
    allowed : auto && ltb 0 (count_where (active_of p) db.addresses) ≡ false

  abbrev Ends : Verdict (Option Address) → Db → Type 0
  Ends = Commits (λ o _. (a : Address) × (o ≡ some a))
