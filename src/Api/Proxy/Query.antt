-- ===== src/Api/Proxy/Query.antt =====
-- What the provider is asked for (internal/api/lnurlp.go, handleProxyInvoice).
use mathlib.Core.List.{append-nil}
use cloistr_address.Base.{
  ℕ, zero, suc, ◌≤◌, ◌≡◌, ◌⊎◌, refl, sym, ap, ◌∙◌, String, true, false, Option, none, some, [], ◌∷◌,
  ◌++◌, inl, inr, arith, Bool-cases, length, ltb, same, same_refl, same_congr, if◌then◌else◌,
}
use cloistr_address.Base.Signed.{ℤ, pos, negsuc, pos_part}
use cloistr_address.Base.Texts.{codes, utf8}
use cloistr_address.Client.Crypto.{Bytes, take, drop}
use cloistr_address.Api.Proxy.{Params, Web, without, set_param, set_comment, invoice_query}

-- url.Values.Get, with `none` for a missing key.
unfoldable pub param_of : String → Params → Option Bytes
param_of k [] = none
param_of k ((j, v) ∷ ps) = if same j k then some v else param_of k ps

param_of-without :
    (k j : String) (ps : Params) → same j k ≡ false → param_of k (without j ps) ≡ param_of k ps
unfolding param_of without
param_of-without k j [] h = refl
param_of-without k j ((i, v) ∷ ps) h = elim (Bool-cases (same i j)) [
  | inl e ↦ rw (e, same_congr i j k e, h) (param_of-without k j ps h)
  | inr e ↦ rw (e, param_of-without k j ps h) refl
]

param_of-set_param : (k : String) (v : Bytes) (ps : Params) → param_of k (set_param k v ps) ≡ some v
unfolding param_of set_param
param_of-set_param k v ps = rw (same_refl k) refl

param_of-set_other :
    (k j : String) (v : Bytes) (ps : Params)
    → same j k ≡ false
    → param_of k (set_param j v ps) ≡ param_of k ps
unfolding param_of set_param
param_of-set_other k j v ps h = rw h (param_of-without k j ps h)

take-drop : (n : ℕ) (s : Bytes) → take n s ++ drop n s ≡ s
unfolding take drop
take-drop zero s = refl
take-drop (suc n) [] = refl
take-drop (suc n) (c ∷ s) = ap (λ (r : Bytes). c ∷ r) (take-drop n s)

length-take : (n : ℕ) (s : Bytes) → length (take n s) ≤ n
unfolding take
length-take zero s = omega arith
length-take (suc n) [] = omega arith
length-take (suc n) (c ∷ s) = omega (arith, length-take n s)

length-take_full : (n : ℕ) (s : Bytes) → n ≤ length s → length (take n s) ≡ n
unfolding take
length-take_full zero s h = omega arith
length-take_full (suc n) [] h = absurd (omega (arith, h))
length-take_full (suc n) (c ∷ s) h = omega (arith, length-take_full n s (omega (arith, h)))

-- A comment that the provider gets: the front of the payer's comment, as long as its bound allows.
pub record CutTo (allowed : ℤ) (comment sent : Bytes) : Type 0 where
  pub rest : Bytes
  pub front : comment ≡ sent ++ rest
  pub bound : length sent ≤ pos_part allowed
  pub longest : (rest ≡ []) ⊎ (length sent ≡ pos_part allowed)

cut-CutTo :
    (n : ℕ) (s sent : Bytes)
    → (if ltb n (length s) then take n s else s) ≡ sent
    → CutTo (pos n) s sent
cut-CutTo n s sent h = elim (Bool-cases (ltb n (length s))) [
  | inl e ↦
      let q : take n s ≡ sent = rw e at h in
      record {
        rest = drop n s;
        front = rw (sym q, take-drop n s) refl;
        bound = rw (sym q) (length-take n s);
        longest = inr (rw (sym q) (length-take_full n s (ground arith)));
      }
  | inr e ↦
      let q : s ≡ sent = rw e at h in
      record {
        rest = [];
        front = rw (sym q, append-nil s) refl;
        bound = rw (sym q) (ground arith);
        longest = inl refl;
      }
]

cut-some :
    (c : ℕ) (cs : Bytes) (n : ℕ)
    → ltb 0 n ≡ true
    → 1 ≤ length (if ltb n (length (c ∷ cs)) then take n (c ∷ cs) else c ∷ cs)
unfolding take
cut-some c cs zero h = absurd (ground arith)
cut-some c cs (suc n) h = elim (Bool-cases (ltb (suc n) (length (c ∷ cs)))) [
  | inl e ↦ rw e (omega arith)
  | inr e ↦ rw e (omega arith)
]

-- What becomes of the parameter `comment` of the provider's URL: it is kept where the payer said
-- nothing or the provider takes no comments, and else it is the payer's comment, cut to the bound.
pub data Commented (allowed : ℤ) (comment : Bytes) (before after : Option Bytes) : Type 0 where
  kept :
      (comment ≡ []) ⊎ (pos_part allowed ≡ 0)
      → after ≡ before
      → Commented allowed comment before after
  cut :
      (sent : Bytes)
      → after ≡ some sent
      → 1 ≤ length sent
      → CutTo allowed comment sent
      → Commented allowed comment before after

set_comment-Commented :
    (comment : Bytes) (allowed : ℤ) (ps : Params)
    → Commented allowed comment
        (param_of "comment" ps)
        (param_of "comment" (set_comment comment allowed ps))
unfolding set_comment
set_comment-Commented [] allowed ps = kept (inl refl) refl
set_comment-Commented (c ∷ cs) (negsuc n) ps = kept (inr refl) refl
set_comment-Commented (c ∷ cs) (pos n) ps = elim (Bool-cases (ltb 0 n)) [
  | inl e ↦
      let sent = if ltb n (length (c ∷ cs)) then take n (c ∷ cs) else c ∷ cs in
      rw e (
        cut sent (param_of-set_param "comment" sent ps) (cut-some c cs n e)
          (cut-CutTo n (c ∷ cs) sent refl))
  | inr e ↦ rw e (kept (inr (ground arith)) refl)
]

set_comment-amount :
    (comment : Bytes) (allowed : ℤ) (ps : Params)
    → param_of "amount" (set_comment comment allowed ps) ≡ param_of "amount" ps
unfolding set_comment
set_comment-amount [] allowed ps = refl
set_comment-amount (c ∷ cs) (negsuc n) ps = refl
set_comment-amount (c ∷ cs) (pos n) ps = elim (Bool-cases (ltb 0 n)) [
  | inl e ↦ rw e (param_of-set_other "amount" "comment" _ ps (unfold same in refl))
  | inr e ↦ rw e refl
]

-- The second request asks for exactly the amount that the payer named, whatever the provider's URL
-- says of it and whether or not there is a comment. Its comment is that of the URL, if any, where
-- the payer said nothing or the provider takes none, and else the payer's comment, or where
-- that is longer than the provider allows, its front of just that many bytes.
pub invoice_query-CutTo :
    (web : Web) (amount : ℤ) (comment : Bytes) (allowed : ℤ) (ps : Params)
    → (param_of "amount" (invoice_query web amount comment allowed ps)
        ≡ some (utf8 (codes (web.show amount))))
      × Commented allowed comment
          (param_of "comment" ps)
          (param_of "comment" (invoice_query web amount comment allowed ps))
unfolding invoice_query
invoice_query-CutTo web amount comment allowed ps =
    let value = utf8 (codes (web.show amount)) in
    (
      set_comment-amount comment allowed _ ∙ param_of-set_param "amount" value ps,
      rw (← param_of-set_other "comment" "amount" value ps (unfold same in refl))
          (set_comment-Commented comment allowed (set_param "amount" value ps)),
    )
