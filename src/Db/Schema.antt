-- ===== src/Db/Schema.antt =====
-- The constraints of the tables that the statements of internal/storage can break
-- (db/migrations/005_up.sql, db/test_schema.sql, db/migrations/012_up.sql).
use cloistr_address.Base.{
  ◌≤◌, ◌≡◌, String, Bool, true, not, ◌&&◌, ◌||◌, Option, none, some, List, arith, inl, inr,
  Option-cases, if◌then◌else◌, leb, leb→le, same, eq_of_same, count_where, find_where, all_rows,
}
use cloistr_address.Base.Rows.{all_rows_of, all_rows_find, find_where-some, find_where-none}
use cloistr_address.Db.Tables.{Db, Address}

unfoldable pub has_name : String → String → Address → Bool
has_name username domain r = same r.username username && same r.domain domain

-- The row carries the flag, and belongs to the pubkey.
unfoldable pub flagged : (Address → Bool) → String → Address → Bool
flagged flag pubkey r = flag r && same r.pubkey pubkey

abbrev pub is_primary : Address → Bool
is_primary r = r.is_primary

abbrev pub nip05_active : Address → Bool
nip05_active r = r.nip05_active

-- CREATE UNIQUE INDEX addresses_unique_username ON addresses(username, domain): every row counts,
-- active or not.
unfoldable pub names_unique : List Address → Bool
names_unique rows = all_rows (λ r. leb (count_where (has_name r.username r.domain) rows) 1) rows

-- CREATE UNIQUE INDEX ... ON addresses(pubkey) WHERE flag: idx_addresses_one_primary and
-- idx_addresses_one_nip05. An inactive row that carries the flag counts too.
unfoldable pub one_flagged : (Address → Bool) → List Address → Bool
one_flagged flag rows =
    all_rows (λ r. not (flag r) || leb (count_where (flagged flag r.pubkey) rows) 1) rows

-- A write to `addresses` goes through when the indexes still hold.
unfoldable pub set_addresses : Db → List Address → Option Db
set_addresses db rows =
    if names_unique rows && (one_flagged is_primary rows && one_flagged nip05_active rows)
    then some (record db { addresses = rows })
    else none

-- The index as a statement on counts, both ways.
pub one_flagged_of :
    (flag : Address → Bool) (rows : List Address)
    → ((k : String) → count_where (flagged flag k) rows ≤ 1)
    → one_flagged flag rows ≡ true
unfolding one_flagged
one_flagged_of flag rows h =
    all_rows_of (λ r. not (flag r) || leb (count_where (flagged flag r.pubkey) rows) 1)
      (λ r. ground (arith, h r.pubkey)) rows

pub flagged_parts :
    (flag : Address → Bool) (k : String) (r : Address)
    → flagged flag k r ≡ true
    → (flag r ≡ true) × (r.pubkey ≡ k)
unfolding flagged
flagged_parts flag k r h = ground (arith, eq_of_same r.pubkey k)

pub has_name_parts :
    (u d : String) (r : Address) → has_name u d r ≡ true → (r.username ≡ u) × (r.domain ≡ d)
unfolding has_name
has_name_parts u d r h = ground (arith, eq_of_same r.username u, eq_of_same r.domain d)

-- What the row of a test that passed says of a table whose rows are all unique.
flagged_row :
    (flag : Address → Bool) (rows : List Address) (k : String) (r : Address)
    → one_flagged flag rows ≡ true
    → find_where (flagged flag k) rows ≡ some r
    → count_where (flagged flag k) rows ≤ 1
unfolding one_flagged
flagged_row flag rows k r h e =
    let (on, own) = flagged_parts flag k r (find_where-some (flagged flag k) rows r e).0 in
    rw (← own) (
      ground (
        arith,
        on,
        all_rows_find (λ r. not (flag r) || leb (count_where (flagged flag r.pubkey) rows) 1)
            (flagged flag k) rows r h e,
      ))

named_row :
    (rows : List Address) (u d : String) (r : Address)
    → names_unique rows ≡ true
    → find_where (has_name u d) rows ≡ some r
    → count_where (has_name u d) rows ≤ 1
unfolding names_unique
named_row rows u d r h e =
    let (eu, ed) = has_name_parts u d r (find_where-some (has_name u d) rows r e).0 in
    rw (← eu, ← ed)
      (leb→le _ _ (
        all_rows_find (λ r. leb (count_where (has_name r.username r.domain) rows) 1) (has_name u d)
          rows r h e))

pub count_of_one_flagged :
    (flag : Address → Bool) (rows : List Address) (k : String)
    → one_flagged flag rows ≡ true
    → count_where (flagged flag k) rows ≤ 1
count_of_one_flagged flag rows k h = elim (Option-cases (find_where (flagged flag k) rows)) [
  | inl e ↦ omega (arith, find_where-none (flagged flag k) rows e)
  | inr (r, e) ↦ flagged_row flag rows k r h e
]

pub names_unique_of :
    (rows : List Address)
    → ((u d : String) → count_where (has_name u d) rows ≤ 1)
    → names_unique rows ≡ true
unfolding names_unique
names_unique_of rows h =
    all_rows_of (λ r. leb (count_where (has_name r.username r.domain) rows) 1)
      (λ r. ground (arith, h r.username r.domain)) rows

pub count_of_names_unique :
    (rows : List Address) (u d : String)
    → names_unique rows ≡ true
    → count_where (has_name u d) rows ≤ 1
count_of_names_unique rows u d h = elim (Option-cases (find_where (has_name u d) rows)) [
  | inl e ↦ omega (arith, find_where-none (has_name u d) rows e)
  | inr (r, e) ↦ named_row rows u d r h e
]
