-- ===== src/Store/Addresses/Admin/Revoke.antt =====
-- Revocation and the indexes on the flags (internal/storage/admin.go, db/migrations/005_up.sql).
use cloistr_address.Base.{
  ℕ, ◌+◌, ◌≤◌, ◌≡◌, ◌≢◌, refl, String, Bool, true, not, ◌&&◌, Option, none, some, List, [], ◌∷◌,
  arith, same_refl, count_where, find_where, update_where, Option-cases, inl, inr, ◌⊎◌,
}
use cloistr_address.Db.Tables.{Db, Address}
use cloistr_address.Db.Exec.{
  database, Result, ok, err, World, continue, ◌>>◌, Verdict, begun, statement,
}
use cloistr_address.Db.Schema.{has_name, set_addresses, is_primary, flagged, count_of_one_flagged}
use cloistr_address.Store.Addresses.Rows.{
  active_of, close_ownership, has_id, other_active, oldest_where, promote, promote_primary_address,
  set_primary,
}
use cloistr_address.Base.Rows.{count_where-le}
use cloistr_address.Db.Triple.{
  Triple, Triple-bind, Triple-exec, Triple-statement, transaction_never,
}
use cloistr_address.Store.Addresses.Transfer.{promote_if}
use cloistr_address.Store.Addresses.Admin.{
  banned, ban_row, promote_after, revoke_rest, revoke_found, revoke_body, admin_revoke_address,
}

-- A row that a test picks passes it, and is in the table.
oldest_where-some :
    (p : Address → Bool) (rows : List Address) (r : Address)
    → oldest_where p rows ≡ some r
    → 1 ≤ count_where (λ x. p x && has_id r.id x) rows
unfolding oldest_where count_where has_id
oldest_where-some p [] r h = absurd cc
oldest_where-some p (x ∷ xs) r h = ground (arith, oldest_where-some p xs r)

oldest_where-none :
    (p : Address → Bool) (rows : List Address) → oldest_where p rows ≡ none → count_where p rows ≡ 0
unfolding oldest_where count_where
oldest_where-none p [] h = refl
oldest_where-none p (x ∷ xs) h = ground (arith, oldest_where-none p xs)

-- Raising the flag on another row of the pubkey makes two.
two_flagged :
    (p : String) (id other : ℕ) (rows : List Address)
    → id ≢ other
    → count_where (λ r. flagged is_primary p r && has_id id r) rows
        + count_where (λ r. other_active p id r && has_id other r) rows
      ≤ count_where (flagged is_primary p) (update_where (has_id other) (set_primary true) rows)
unfolding count_where update_where has_id flagged other_active active_of
two_flagged p id other [] ne = omega arith
two_flagged p id other (r ∷ rs) ne = ground (arith, two_flagged p id other rs ne)

other_id :
    (p : String) (id other : ℕ) (rows : List Address)
    → 1 ≤ count_where (λ r. other_active p id r && has_id other r) rows
    → id ≢ other
unfolding count_where has_id other_active
other_id p id other [] h = absurd (omega arith)
other_id p id other (r ∷ rs) h = ground (arith, other_id p id other rs)

-- Promotion is refused while another row of the pubkey carries the flag, active or not.
pub promote_primary_address_refused :
    (p : String) (id : ℕ) (db : Db)
    → 1 ≤ count_where (λ (r : Address). flagged is_primary p r && has_id id r) db.addresses
    → 1 ≤ count_where (other_active p id) db.addresses
    → promote_primary_address p id db ≡ none
unfolding promote_primary_address promote set_addresses
promote_primary_address_refused p id db h o =
    elim (Option-cases (oldest_where (other_active p id) db.addresses)) [
      | inl e ↦ absurd (omega (arith, oldest_where-none (other_active p id) db.addresses e))
      | inr (r, e) ↦
          let here = oldest_where-some (other_active p id) db.addresses r e in
          let two = two_flagged p id r.id db.addresses (other_id p id r.id db.addresses here) in
          let rows = update_where (has_id r.id) (set_primary true) db.addresses in
          ground (arith, e, here, two, count_of_one_flagged is_primary rows p)
    ]

-- A transaction that a failed statement aborted does not get to its end.
revoke_rest_aborted :
    (show : ℕ → String) (actor signature : String) (r : Address) (w : World)
    (v : Verdict (Unit {0}))
    → w.aborted ≡ true
    → (revoke_rest show actor signature r w).0 ≢ ok v
unfolding revoke_rest promote_after promote_if statement
revoke_rest_aborted show actor signature r w v h x = ground arith

-- A promotion that the indexes refuse ends the transaction, or finds it aborted.
promote_after_refused :
    (p : String) (f : Db → Option Db) (w : World)
    → f w.db ≡ none
    → 1 ≤ count_where (active_of p) w.db.addresses
    → (((promote_after true p f w).0 ≡ err database)
        ⊎ ((promote_after true p f w).1.aborted ≡ true))
unfolding promote_after promote_if statement
promote_after_refused p f w h c = ground arith

-- What dooms a revocation, once its row is banned: the row keeps its flag, and the pubkey has
-- another active address.
record Doomed (r : Address) (db : Db) : Type 0 where
  primary : r.is_primary ≡ true
  flag : 1 ≤ count_where (λ x. flagged is_primary r.pubkey x && has_id r.id x) db.addresses
  other : 1 ≤ count_where (other_active r.pubkey r.id) db.addresses

Doomed-promotion :
    (show : ℕ → String) (actor signature : String) (r : Address) (w : World)
    (v : Verdict (Unit {0}))
    → Doomed r w.db
    → ((promote_after r.is_primary r.pubkey (promote_primary_address r.pubkey r.id)
          >> revoke_rest show actor signature r)
        w).0
      ≢ ok v
Doomed-promotion show actor signature r w v h =
    simp (h.primary)
      (elim (promote_after_refused r.pubkey (promote_primary_address r.pubkey r.id) w
        (promote_primary_address_refused r.pubkey r.id w.db h.flag h.other) active) [
          | inl e ↦
              failed (promote_after true r.pubkey (promote_primary_address r.pubkey r.id) w).0 _ e
          | inr a ↦
              aborted (promote_after true r.pubkey (promote_primary_address r.pubkey r.id) w).0 _ a
        ])
  where
    active : 1 ≤ count_where (active_of r.pubkey) w.db.addresses
    active = omega (
      arith,
      h.other,
      count_where-le (other_active r.pubkey r.id) (active_of r.pubkey)
          (λ x y. unfold other_active in ground arith) w.db.addresses,
    )

    failed :
        (o : Result (Unit {0})) (w' : World)
        → o ≡ err database
        → (continue o (λ _. revoke_rest show actor signature r) w').0 ≢ ok v
    failed o w' e = rw e (λ x. cc x)

    aborted :
        (o : Result (Unit {0})) (w' : World)
        → w'.aborted ≡ true
        → (continue o (λ _. revoke_rest show actor signature r) w').0 ≢ ok v
    aborted (ok u) w' a = revoke_rest_aborted show actor signature r w' v a
    aborted (err e) w' a = λ x. cc x

Doomed-found :
    (show : ℕ → String) (actor signature u d : String) (now : ℕ) (r : Address)
    → Triple (Doomed r) (revoke_found show actor signature u d now (some r)) (λ _ _. ⊥)
unfolding revoke_found close_ownership
Doomed-found show actor signature u d now r =
    Triple-bind (Doomed r) (λ _. Doomed r) (λ _ _. ⊥) _ _
      (Triple-exec (Doomed r) (close_ownership u d r.pubkey now) (Doomed r)
        (λ db h. record { primary = h.primary; flag = h.flag; other = h.other }))
      λ _. record { run = λ w h v e. Doomed-promotion show actor signature r w v h e }

-- The row of a name after the ban, and what it leaves alone.
banned_name : (u d reason : String) (r : Address) → has_name u d (banned reason r) ≡ has_name u d r
unfolding has_name
banned_name u d reason r = refl

find_banned :
    (u d reason : String) (rows : List Address) (r : Address)
    → find_where (has_name u d) rows ≡ some r
    → find_where (has_name u d) (update_where (has_name u d) (banned reason) rows)
      ≡ some (banned reason r)
unfolding find_where update_where
find_banned u d reason [] r h = absurd cc
find_banned u d reason (x ∷ xs) r h =
    ground (arith, banned_name u d reason x, find_banned u d reason xs r)

others_left :
    (u d reason p : String) (id : ℕ) (rows : List Address)
    → count_where (λ r. other_active p id r && not (has_name u d r)) rows
      ≤ count_where (other_active p id) (update_where (has_name u d) (banned reason) rows)
unfolding count_where update_where
others_left u d reason p id [] = omega arith
others_left u d reason p id (x ∷ xs) = ground (arith, others_left u d reason p id xs)

counted_found :
    (q p : Address → Bool) (rows : List Address) (r : Address)
    → find_where p rows ≡ some r
    → q r ≡ true
    → 1 ≤ count_where q rows
unfolding find_where count_where
counted_found q p [] r h k = absurd cc
counted_found q p (x ∷ xs) r h k = ground (arith, counted_found q p xs r)

Doomed-ban :
    (u d reason : String) (db : Db) (r : Address) (o : Option Address) (db' : Db)
    → find_where (has_name u d) db.addresses ≡ some r
    → r.is_primary ≡ true
    → 1 ≤ count_where (λ x. other_active r.pubkey r.id x && not (has_name u d x)) db.addresses
    → ban_row u d reason db ≡ some (o, db')
    → (o ≡ some (banned reason r)) × Doomed (banned reason r) db'
unfolding ban_row set_addresses
Doomed-ban u d reason db r o db' f p c e =
    let rows = update_where (has_name u d) (banned reason) db.addresses in
    let table : db'.addresses ≡ rows = ground arith in
    let row : o ≡ find_where (has_name u d) rows = ground arith in
    let found = find_banned u d reason db.addresses r f in
    let flagged_row : (flagged is_primary r.pubkey (banned reason r)
          && has_id r.id (banned reason r))
        ≡ true =
      unfold flagged has_id in ground (arith, same_refl r.pubkey) in
    (
      cc (row, found),
      record {
        primary = p;
        flag = rw table (
            counted_found (λ x. flagged is_primary r.pubkey x && has_id r.id x) (has_name u d) rows
              (banned reason r) found flagged_row);
        other = rw table (omega (arith, c, others_left u d reason r.pubkey r.id db.addresses));
      },
    )

-- The revocation of a primary address fails while its pubkey has another active address under
-- another name, and leaves the database alone: the revoked row keeps its flag, so that the
-- promotion of the other address breaks the index. It fails whatever statements fail.
pub admin_revoke_address_refused :
    (show : ℕ → String) (actor signature u d reason : String) (r : Address) (w : World)
    → find_where (has_name u d) w.db.addresses ≡ some r
    → r.is_primary ≡ true
    → 1 ≤ count_where (λ x. other_active r.pubkey r.id x && not (has_name u d x)) w.db.addresses
    → ((x : Unit) → (admin_revoke_address show actor signature u d reason w).0 ≢ ok x)
      × ((admin_revoke_address show actor signature u d reason w).1.db ≡ w.db)
unfolding admin_revoke_address
admin_revoke_address_refused show actor signature u d reason r w f p c =
    transaction_never (revoke_body show actor signature u d reason w.now) w
      (λ v e. body.run (begun w) refl v e)
  where
    after :
        (o : Option Address)
        → Triple
            (λ db'. (o ≡ some (banned reason r)) × Doomed (banned reason r) db')
            (revoke_found show actor signature u d w.now o)
            (λ _ _. ⊥)
    after o = record {
      run = λ v h x e.
          (Doomed-found show actor signature u d w.now (banned reason r)).run v (h.1) x
            (rw (h.0) at e);
    }

    body : Triple (λ db. db ≡ w.db) (revoke_body show actor signature u d reason w.now) (λ _ _. ⊥)
    body =
        unfold revoke_body in
        Triple-bind (λ db. db ≡ w.db)
          (λ o db'. (o ≡ some (banned reason r)) × Doomed (banned reason r) db') (λ _ _. ⊥) _ _
          (Triple-statement (λ db. db ≡ w.db) (ban_row u d reason)
            (λ o db'. (o ≡ some (banned reason r)) × Doomed (banned reason r) db')
            (λ db o db' h e. Doomed-ban u d reason w.db r o db' f p c (rw h at e)))
          after
