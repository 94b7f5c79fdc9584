-- ===== src/Store/Addresses/Register/Room.antt =====
-- What the unique indexes ask of the rows of a registration (internal/storage/postgres.go).
use cloistr_address.Base.{
  ℕ, ◌≡◌, ◌⊎◌, ◌+◌, ◌∙◌, if◌then◌else◌, refl, String, Bool, true, false, not, ◌&&◌, ◌||◌, inl, inr,
  none, some, List, ◌∷◌, arith, Bool-cases, count_where, update_where, all_rows, same,
}
use cloistr_address.Base.Rows.{
  count_where-update_where, count_where-update_where_le, count_where-cleared,
}
use cloistr_address.Db.Tables.{Db, Address}
use cloistr_address.Db.Schema.{
  has_name, has_name_parts, flagged, flagged_parts, is_primary, nip05_active, names_unique,
  one_flagged, set_addresses, names_unique_of, count_of_names_unique, one_flagged_of,
  count_of_one_flagged,
}
use cloistr_address.Store.Addresses.Rows.{active_of, scanned, new_address, insert_address}
use cloistr_address.Store.Addresses.Register.Keeps.{IndexesHold}
use cloistr_address.Store.Addresses.Register.{demote, carries_flag, clear_flags}

-- A row of the pubkey that carries a flag is active.
unfoldable pub flag_is_live : String → Address → Bool
flag_is_live p r = not (same r.pubkey p && (r.is_primary || r.nip05_active)) || r.active

-- A name that no row has, and a pubkey whose flags are on active rows.
pub record IsFree (u d p : String) (db : Db) : Type 0 where
  pub indexes : IndexesHold db
  pub unnamed : count_where (has_name u d) db.addresses ≡ 0
  pub live : all_rows (flag_is_live p) db.addresses ≡ true

module _ (u d p : String) where
  -- A row with this flag can be inserted.
  pub record Fits (primary : Bool) (db : Db) : Type 0 where
    pub indexes : IndexesHold db
    pub unnamed : count_where (has_name u d) db.addresses ≡ 0
    pub primaries : (primary ≡ false) ⊎ (count_where (flagged is_primary p) db.addresses ≡ 0)
    pub nip05s : (primary ≡ false) ⊎ (count_where (flagged nip05_active p) db.addresses ≡ 0)

  one_more :
      (flag : Address → Bool) (rows : List Address) (r : Address)
      → one_flagged flag rows ≡ true
      → r.pubkey ≡ p
      → (flag r ≡ false) ⊎ (count_where (flagged flag p) rows ≡ 0)
      → one_flagged flag (r ∷ rows) ≡ true
  unfolding count_where
  one_more flag rows r h own room = one_flagged_of flag (r ∷ rows) λ k.
      elim (Bool-cases (flagged flag k r)) [
        | inl e ↦
            let (on, mine) = flagged_parts flag k r e in
            let key : p ≡ k = cc (own, mine) in
            elim room [
              | inl off ↦ absurd (cc (on, off))
              | inr z ↦
                  let free : count_where (flagged flag k) rows ≡ 0 = rw (← key) z in
                  rw e (omega (arith, free))
            ]
        | inr e ↦ rw e (omega (arith, count_of_one_flagged flag rows k h))
      ]

  one_name :
      (rows : List Address) (r : Address)
      → names_unique rows ≡ true
      → r.username ≡ u
      → r.domain ≡ d
      → count_where (has_name u d) rows ≡ 0
      → names_unique (r ∷ rows) ≡ true
  unfolding count_where
  one_name rows r h nu nd room = names_unique_of (r ∷ rows) λ x y.
      elim (Bool-cases (has_name x y r)) [
        | inl e ↦
            let (eu, ed) = has_name_parts x y r e in
            let ku : u ≡ x = cc (nu, eu) in
            let kd : d ≡ y = cc (nd, ed) in
            let free : count_where (has_name x y) rows ≡ 0 = rw (← ku, ← kd) room in
            rw e (omega (arith, free))
        | inr e ↦ rw e (omega (arith, count_of_names_unique rows x y h))
      ]

  pub insert_address-Fits :
      (primary auto : Bool) (now : ℕ) (db : Db)
      → Fits primary db
      → (a : Address) × (db' : Db) × (insert_address u d p primary auto none now db ≡ some (a, db'))
  unfolding insert_address set_addresses
  insert_address-Fits primary auto now db h =
      let row = new_address u d p primary auto none now db.next_address_id in
      let named : row.username ≡ u = unfold new_address in refl in
      let at_domain : row.domain ≡ d = unfold new_address in refl in
      let own : row.pubkey ≡ p = unfold new_address in refl in
      let primary_flag : row.is_primary ≡ primary = unfold new_address in refl in
      let nip05_flag : row.nip05_active ≡ primary = unfold new_address in refl in
      let names = one_name db.addresses row h.indexes.names named at_domain h.unnamed in
      let firsts =
        one_more is_primary db.addresses row h.indexes.primaries own
          (rw primary_flag h.primaries) in
      let nip05s =
        one_more nip05_active db.addresses row h.indexes.nip05s own (rw nip05_flag h.nip05s) in
      (
        scanned row,
        record db { next_address_id = db.next_address_id + 1; addresses = row ∷ db.addresses },
        rw (insert_address, names, firsts, nip05s) refl,
      )

  passes :
      (flag : Address → Bool)
      → ((r : Address) → flag (clear_flags r) ≡ false)
      → (k : String) (r : Address)
      → flagged flag k (if carries_flag p r then clear_flags r else r) ≡ true
      → flagged flag k r ≡ true
  unfolding flagged
  passes flag c k r e = elim (Bool-cases (carries_flag p r)) [
    | inl x ↦ absurd (cc (rw (x, c r) at e))
    | inr x ↦ rw x at e
  ]

  cleared_flag :
      (flag : Address → Bool) (rows : List Address)
      → ((r : Address) → flag (clear_flags r) ≡ false)
      → one_flagged flag rows ≡ true
      → one_flagged flag (update_where (carries_flag p) clear_flags rows) ≡ true
  cleared_flag flag rows c h = one_flagged_of flag _ λ k. omega (
    arith,
    count_of_one_flagged flag rows k h,
    count_where-update_where_le (flagged flag k) (carries_flag p) clear_flags (passes flag c k)
        rows,
  )

  clears :
      (flag : Address → Bool)
      → ((r : Address) → flag r ≡ true → (r.is_primary || r.nip05_active) ≡ true)
      → ((r : Address) → flag (clear_flags r) ≡ false)
      → (r : Address) → flag_is_live p r ≡ true
      → flagged flag p (if carries_flag p r then clear_flags r else r) ≡ false
  unfolding flagged carries_flag active_of flag_is_live
  clears flag k c r l = ground (arith, k r, c r)

  no_flag_left :
      (flag : Address → Bool) (rows : List Address)
      → ((r : Address) → flag r ≡ true → (r.is_primary || r.nip05_active) ≡ true)
      → ((r : Address) → flag (clear_flags r) ≡ false)
      → all_rows (flag_is_live p) rows ≡ true
      → count_where (flagged flag p) (update_where (carries_flag p) clear_flags rows) ≡ 0
  no_flag_left flag rows k c live =
      count_where-cleared (flag_is_live p) (flagged flag p) (carries_flag p) clear_flags
        (clears flag k c) rows live

  name_kept :
      (x y : String) (r : Address)
      → has_name x y (if carries_flag p r then clear_flags r else r) ≡ has_name x y r
  unfolding has_name
  name_kept x y r = ground arith

  pub demote-Fits :
      (db : Db) → IsFree u d p db → (db' : Db) × (demote p db ≡ some db') × Fits true db'
  unfolding demote set_addresses
  demote-Fits db h =
      let rows = update_where (carries_flag p) clear_flags db.addresses in
      let same_names = λ (x y : String).
        count_where-update_where (has_name x y) (carries_flag p) clear_flags (name_kept x y)
          db.addresses in
      let names : names_unique rows ≡ true = names_unique_of rows λ x y.
        omega (arith, same_names x y, count_of_names_unique db.addresses x y h.indexes.names) in
      let firsts = cleared_flag is_primary db.addresses (λ r. refl) h.indexes.primaries in
      let nip05s = cleared_flag nip05_active db.addresses (λ r. refl) h.indexes.nip05s in
      (
        record db { addresses = rows },
        rw (names, firsts, nip05s) refl,
        record {
          indexes = record { names = names; primaries = firsts; nip05s = nip05s };
          unnamed = same_names u d ∙ h.unnamed;
          primaries =
              inr (no_flag_left is_primary db.addresses (λ r e. ground arith) (λ r. refl) h.live);
          nip05s =
              inr (no_flag_left nip05_active db.addresses (λ r e. ground arith) (λ r. refl) h.live);
        },
      )
