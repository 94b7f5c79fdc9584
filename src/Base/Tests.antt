-- ===== src/Base/Tests.antt =====
-- Boolean tests on the native numbers and on texts, and the conditional.
use Prim.Native.Nat.{ℕ, ◌≤◌, ◌<◌, compare, Ordering}
use Prim.Native.String.{String}
use mathlib.Core.Path.{◌≡◌, refl, sym}
use mathlib.Core.Logic.{◌≢◌, ◌⊎◌, inl, inr}
use mathlib.Core.Bool.{Bool, true, false}
use mathlib.Core.Option.{Option, none, some}
use native.Mathlib.Omega.{arith}
use text.Mathlib.Text.{◌==◌ as str_eq}
use text.Mathlib.TextEquality.{eq_iff}

abbrev pub ltb : ℕ → ℕ → Bool
ltb a b = elim (compare a b) [ Ordering.lt ↦ true | _ ↦ false ]

abbrev pub leb : ℕ → ℕ → Bool
leb a b = elim (compare a b) [ Ordering.gt ↦ false | _ ↦ true ]

infix 50 ◌==◌
abbrev pub ◌==◌ : ℕ → ℕ → Bool
a == b = elim (compare a b) [ Ordering.eq ↦ true | _ ↦ false ]

infix 1 if◌then◌else◌
abbrev pub if◌then◌else◌ {ℓ} : {A : Type ℓ} → Bool → A → A → A
if true then x else y = x
if false then x else y = y

-- Go's `==` on strings. It stays shut in proofs, which use the lemmas below.
unfoldable pub same : String → String → Bool
same s t = str_eq s t

pub same_refl : (s : String) → same s s ≡ true
unfolding same
same_refl s = (eq_iff s s).1 refl

pub eq_of_same : (s t : String) → same s t ≡ true → s ≡ t
unfolding same
eq_of_same s t h = (eq_iff s t).0 h

pub same_ne : (s t : String) → s ≢ t → same s t ≡ false
same_ne s t h = elim (cases (same s t)) [ inl e ↦ absurd (h (eq_of_same s t e)) | inr e ↦ e ]
  where
    cases : (b : Bool) → (b ≡ true) ⊎ (b ≡ false)
    cases true = inl refl
    cases false = inr refl

pub ne_of_same : (s t : String) → same s t ≡ false → s ≢ t
ne_of_same s t h e = cc (same_refl t, e, h)

pub same_congr : (s t u : String) → same s t ≡ true → same s u ≡ same t u
same_congr s t u h = let e = eq_of_same s t h in rw e

-- To split on a computed value and keep the equation.
pub Bool-cases : (b : Bool) → (b ≡ true) ⊎ (b ≡ false)
Bool-cases true = inl refl
Bool-cases false = inr refl

pub Option-cases {ℓ} : {A : Type ℓ} (o : Option A) → (o ≡ none) ⊎ ((a : A) × (o ≡ some a))
Option-cases none = inl refl
Option-cases (some a) = inr (a, refl)

pub ltb→lt : (a b : ℕ) → ltb a b ≡ true → a < b
ltb→lt a b h = ground arith

pub leb→le : (a b : ℕ) → leb a b ≡ true → a ≤ b
leb→le a b h = ground arith

pub same_comm : (s t : String) → same s t ≡ same t s
same_comm s t = elim (Bool-cases (same s t)) [
  | inl e ↦ let q = eq_of_same s t e in rw q refl
  | inr e ↦ rw e (sym (same_ne t s (λ q. ne_of_same s t e (sym q))))
]
