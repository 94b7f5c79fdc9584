-- ===== src/Api/Gateway/LightningAddress.antt =====
-- The shape of a Lightning Address (internal/api/management.go).
use cloistr_address.Base.{
  ℕ, ◌≤◌, ◌≡◌, refl, String, Bool, true, false, ◌&&◌, List, [], ◌∷◌, ◌++◌, arith, ◌==◌,
  if◌then◌else◌, Bool-cases, inl, inr, sym,
}
use cloistr_address.Base.Texts.{codes, split_on, contains, bytes_of}
use cloistr_address.Api.Gateway.{is_valid_lightning_address, lightning_parts}

-- The parts put together again.
join : ℕ → List (List ℕ) → List ℕ
join sep [] = []
join sep (p ∷ []) = p
join sep (p ∷ q ∷ ps) = p ++ (sep ∷ join sep (q ∷ ps))

none_contains : ℕ → List (List ℕ) → Bool
none_contains sep [] = true
none_contains sep (p ∷ ps) = (if contains sep p then false else true) && none_contains sep ps

-- One more character in front of the parts.
extend : (sep c : ℕ) → List (List ℕ) → List (List ℕ)
extend sep c rest =
    if c == sep then [] ∷ rest else elim rest [ [] ↦ (c ∷ []) ∷ [] | p ∷ ps ↦ (c ∷ p) ∷ ps ]

split_on_cons : (sep c : ℕ) (cs : List ℕ) → split_on sep (c ∷ cs) ≡ extend sep c (split_on sep cs)
unfolding split_on extend
split_on_cons sep c cs = refl

join-extend :
    (sep c : ℕ) (p : List ℕ) (ps : List (List ℕ))
    → join sep (extend sep c (p ∷ ps)) ≡ c ∷ join sep (p ∷ ps)
unfolding join extend
join-extend sep c p [] = ground arith
join-extend sep c p (q ∷ ps) = ground arith

contains-extend :
    (sep c : ℕ) (ps : List (List ℕ))
    → none_contains sep ps ≡ true
    → none_contains sep (extend sep c ps) ≡ true
unfolding none_contains extend contains
contains-extend sep c [] h = ground arith
contains-extend sep c (p ∷ ps) h = ground arith

-- There is always a first part.
first_part :
    (sep : ℕ) (s : List ℕ) → (p : List ℕ) × (ps : List (List ℕ)) × (split_on sep s ≡ p ∷ ps)
unfolding extend split_on
first_part sep [] = ([], [], refl)
first_part sep (c ∷ cs) =
    let (p, ps, e) = first_part sep cs in
    elim (Bool-cases (c == sep)) [
      | inl y ↦ ([], p ∷ ps, rw (e, y) refl)
      | inr n ↦ (c ∷ p, ps, rw (e, n) refl)
    ]

join-split_on : (sep : ℕ) (s : List ℕ) → join sep (split_on sep s) ≡ s
join-split_on sep [] = unfold join split_on in refl
join-split_on sep (c ∷ cs) =
    let (p, ps, e) = first_part sep cs in
    let rest : join sep (p ∷ ps) ≡ cs = rw (← e) (join-split_on sep cs) in
    rw (split_on_cons sep c cs, e, join-extend sep c p ps, rest) refl

split_on-none_contains : (sep : ℕ) (s : List ℕ) → none_contains sep (split_on sep s) ≡ true
split_on-none_contains sep [] = unfold none_contains split_on contains in refl
split_on-none_contains sep (c ∷ cs) =
    rw (split_on_cons sep c cs)
      (contains-extend sep c (split_on sep cs) (split_on-none_contains sep cs))

-- A text is taken for a Lightning Address only if it is a user and a host around its one "@": the
-- user is not empty, the host has at least three bytes and a dot.
pub is_valid_lightning_address_shape :
    (addr : String)
    → is_valid_lightning_address addr ≡ true
    → (user host : List ℕ) × (codes addr ≡ user ++ (b'@' ∷ host))
      × (contains b'@' user ≡ false)
      × (contains b'@' host ≡ false)
      × (1 ≤ bytes_of user)
      × (3 ≤ bytes_of host)
      × (contains b'.' host ≡ true)
unfolding is_valid_lightning_address lightning_parts none_contains join
is_valid_lightning_address_shape addr h = go (split_on b'@' (codes addr)) refl
  where
    go :
        (ps : List (List ℕ))
        → split_on b'@' (codes addr) ≡ ps
        → (user host : List ℕ) × (codes addr ≡ user ++ (b'@' ∷ host))
          × (contains b'@' user ≡ false)
          × (contains b'@' host ≡ false)
          × (1 ≤ bytes_of user)
          × (3 ≤ bytes_of host)
          × (contains b'.' host ≡ true)
    go [] e = absurd (cc (rw e at h))
    go (u ∷ []) e = absurd (cc (rw e at h))
    go (u ∷ v ∷ t ∷ ps) e = absurd (cc (rw e at h))
    go (user ∷ host ∷ []) e =
        let whole : join b'@' (user ∷ host ∷ []) ≡ codes addr =
          rw e at (join-split_on b'@' (codes addr)) in
        let clean : none_contains b'@' (user ∷ host ∷ []) ≡ true =
          rw e at (split_on-none_contains b'@' (codes addr)) in
        let checked : lightning_parts (user ∷ host ∷ []) ≡ true = rw e at h in
        (
          user,
          host,
          sym whole,
          ground (arith, clean),
          ground (arith, clean),
          ground (arith, checked),
          ground (arith, checked),
          ground (arith, checked),
        )
