-- ===== src/Store/Tenants/Members.antt =====
-- The members of tenants as a set (internal/storage/tenant.go).
use cloistr_address.Base.{
  ℕ, ◌≡◌, ◌⊎◌, refl, sym, ap, ◌∙◌, String, Bool, true, not, ◌&&◌, ◌||◌, some, List, [], ◌∷◌, inl,
  inr, arith, Bool-cases, same, same_comm, same_congr, eq_of_same, exists_where, delete_where,
}
use cloistr_address.Db.Tables.{Db, TenantMember}
use cloistr_address.Db.Exec.{World, Exec, ok, commit, pure, exec, exec_checked, auto, statement}
use cloistr_address.Db.Triple.{
  Triple-pure, Triple-exec, Triple-exec_checked, Triple-bind, transaction_commits,
}
use cloistr_address.Store.Addresses.Transfer.{ensure_user}
use cloistr_address.Store.Tenants.{
  tenant_of, is_member, insert_member, add_tenant_member, delete_member, remove_tenant_member,
}

-- Which pubkeys belong to which tenants.
abbrev pub Membership : Type 0
Membership = String → String → Bool

unfoldable pub membership : Db → Membership
membership db tenant pubkey = exists_where (is_member tenant pubkey) db.members

pub data MemberOp : Type 0 where
  join : String → String → MemberOp
  leave : String → String → MemberOp

unfoldable pub run_member : MemberOp → Exec (Unit {0})
run_member (join tenant pubkey) = add_tenant_member tenant pubkey
run_member (leave tenant pubkey) = remove_tenant_member tenant pubkey

-- The change of a set of pairs.
unfoldable pub changed : MemberOp → Membership → Membership
changed (join tenant pubkey) m t p = same tenant t && same pubkey p || m t p
changed (leave tenant pubkey) m t p = not (same tenant t && same pubkey p) && m t p

-- Two keys of one row.
is_member_congr :
    (tenant pubkey t p : String) (m : TenantMember)
    → is_member t p m ≡ true
    → is_member tenant pubkey m ≡ (same tenant t && same pubkey p)
unfolding is_member
is_member_congr tenant pubkey t p m h =
    let a : same m.tenant_id t ≡ true = ground arith in
    let b : same m.pubkey p ≡ true = ground arith in
    ground (
      arith,
      same_congr m.tenant_id t tenant a,
      same_congr m.pubkey p pubkey b,
      same_comm t tenant,
      same_comm p pubkey,
    )

delete_where-is_member :
    (tenant pubkey t p : String) (ms : List TenantMember)
    → exists_where (is_member t p) (delete_where (is_member tenant pubkey) ms)
      ≡ (not (same tenant t && same pubkey p) && exists_where (is_member t p) ms)
unfolding exists_where delete_where
delete_where-is_member tenant pubkey t p [] = ground arith
delete_where-is_member tenant pubkey t p (m ∷ ms) =
    ground (arith, delete_where-is_member tenant pubkey t p ms, is_member_congr tenant pubkey t p m)

exists_where-congr :
    (tenant pubkey t p : String) (ms : List TenantMember)
    → (same tenant t && same pubkey p) ≡ true
    → exists_where (is_member tenant pubkey) ms ≡ true
    → exists_where (is_member t p) ms ≡ true
exists_where-congr tenant pubkey t p ms h k =
    let a : tenant ≡ t = eq_of_same tenant t (ground arith) in
    let b : pubkey ≡ p = eq_of_same pubkey p (ground arith) in rw (sym a, sym b) k

-- The rows that the INSERT leaves.
insert_member-rows :
    (tenant pubkey : String) (now : ℕ) (db db' : Db)
    → insert_member tenant pubkey now db ≡ some db'
    → ((exists_where (is_member tenant pubkey) db.members ≡ true) × (db'.members ≡ db.members))
      ⊎ (db'.members ≡ record { tenant_id = tenant; pubkey = pubkey; joined_at = now } ∷ db.members)
unfolding insert_member
insert_member-rows tenant pubkey now db db' h =
    elim (Bool-cases (exists_where (is_member tenant pubkey) db.members)) [
      | inl e ↦ let q : db ≡ db' = ground (arith, e) in inl (e, rw q refl)
      | inr e ↦ elim (Bool-cases (exists_where (tenant_of tenant) db.tenants)) [
        | inl f ↦
            let q : record db {
              members =
                  record { tenant_id = tenant; pubkey = pubkey; joined_at = now } ∷ db.members;
            }
                ≡ db' =
              ground (arith, e, f) in
            inr (rw (sym q) refl)
        | inr f ↦ absurd (ground (arith, e, f))
      ]
    ]

insert_member-changed :
    (tenant pubkey : String) (now : ℕ) (db db' : Db) (t p : String)
    → insert_member tenant pubkey now db ≡ some db'
    → exists_where (is_member t p) db'.members
      ≡ (same tenant t && same pubkey p || exists_where (is_member t p) db.members)
insert_member-changed tenant pubkey now db db' t p h =
    elim (insert_member-rows tenant pubkey now db db' h) [
      | inl (e, q) ↦ rw q (ground (arith, exists_where-congr tenant pubkey t p db.members, e))
      | inr q ↦ rw q (unfold exists_where is_member in refl)
    ]

ensure_user-members : (pubkey : String) (db : Db) → (ensure_user pubkey db).members ≡ db.members
unfolding ensure_user
ensure_user-members pubkey db = elim (Bool-cases (exists_where (same pubkey) db.users)) [
  | inl e ↦ rw e refl
  | inr e ↦ rw e refl
]

join-changed :
    (tenant pubkey t p : String) (w : World)
    → (add_tenant_member tenant pubkey w).0 ≡ ok tt
    → membership (add_tenant_member tenant pubkey w).1.db t p
      ≡ changed (join tenant pubkey) (membership w.db) t p
unfolding add_tenant_member membership changed
join-changed tenant pubkey t p w h =
    let before = w.db.members in
    transaction_commits (λ db. db.members ≡ before)
      (λ db.
        exists_where (is_member t p) db.members
        ≡ (same tenant t && same pubkey p || exists_where (is_member t p) before))
      _ w tt refl
      (Triple-bind _ (λ _ db. db.members ≡ before) _ (exec (ensure_user pubkey)) _
        (Triple-exec _ (ensure_user pubkey) _ (λ db q. ensure_user-members pubkey db ∙ q))
        (λ _.
          Triple-bind _
            (λ _ db.
              exists_where (is_member t p) db.members
              ≡ (same tenant t && same pubkey p || exists_where (is_member t p) before))
            _ (exec_checked (insert_member tenant pubkey w.now)) (λ _. pure (commit tt))
            (Triple-exec_checked _ (insert_member tenant pubkey w.now) _ (λ db db' q e.
              insert_member-changed tenant pubkey w.now db db' t p e
              ∙ ap
                  (λ (ms : List TenantMember).
                    same tenant t && same pubkey p || exists_where (is_member t p) ms)
                  q))
            (λ _. Triple-pure _ (commit tt) _ (λ db q. q))))
      h

leave-changed :
    (tenant pubkey t p : String) (w : World)
    → (remove_tenant_member tenant pubkey w).0 ≡ ok tt
    → membership (remove_tenant_member tenant pubkey w).1.db t p
      ≡ changed (leave tenant pubkey) (membership w.db) t p
unfolding remove_tenant_member membership changed auto statement delete_member
leave-changed tenant pubkey t p w h = elim (Bool-cases (w.aborted || w.fault w.tick)) [
  | inl e ↦ absurd (cc (rw e at h))
  | inr e ↦ rw e (delete_where-is_member tenant pubkey t p w.db.members)
]

-- The members of tenants are a set of pairs: a change that succeeds adds or removes exactly its
-- pair, whichever pairs were there.
pub run_member-changed :
    (op : MemberOp) (t p : String) (w : World)
    → (run_member op w).0 ≡ ok tt
    → membership (run_member op w).1.db t p ≡ changed op (membership w.db) t p
unfolding run_member
run_member-changed (join tenant pubkey) t p w h = join-changed tenant pubkey t p w h
run_member-changed (leave tenant pubkey) t p w h = leave-changed tenant pubkey t p w h
