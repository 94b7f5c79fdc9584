-- ===== src/Base/Texts.antt =====
-- Go's operations on strings: `len` counts the bytes of the UTF-8 encoding, and the tests of
-- package strings walk the characters.
use Prim.Native.Char.{Char, code}
use Prim.Native.String.{String}
use Prim.Native.Nat.{ℕ, ◌+◌, ◌/◌, ◌%◌}
use mathlib.Core.Bool.{Bool, true, false, ◌&&◌, ◌||◌}
use mathlib.Core.List.{List, [], ◌∷◌, ◌++◌}
use mathlib.Core.Option.{Option, none, some}
use cloistr_address.Base.Tests.{ltb, ◌==◌, if◌then◌else◌}

-- The code points of a text.
abbrev pub codes : String → List ℕ
codes String.[] = []
codes (String.◌∷◌ c s) = code c ∷ codes s

abbrev utf8_width : ℕ → ℕ
utf8_width c = if ltb c 128 then 1 else if ltb c 2048 then 2 else if ltb c 65536 then 3 else 4

unfoldable pub bytes_of : List ℕ → ℕ
bytes_of [] = 0
bytes_of (c ∷ cs) = utf8_width c + bytes_of cs

-- len(s)
unfoldable pub byte_length : String → ℕ
unfolding bytes_of
byte_length s = bytes_of (codes s)

-- []byte(s): the UTF-8 encoding.
unfoldable pub encode_rune : ℕ → List ℕ
encode_rune c =
    if ltb c 128
    then c ∷ []
    else if ltb c 2048
    then (192 + c / 64) ∷ (128 + c % 64) ∷ []
    else if ltb c 65536
    then (224 + c / 4096) ∷ (128 + c / 64 % 64) ∷ (128 + c % 64) ∷ []
    else (240 + c / 262144) ∷ (128 + c / 4096 % 64) ∷ (128 + c / 64 % 64) ∷ (128 + c % 64) ∷ []

unfoldable pub utf8 : List ℕ → List ℕ
utf8 [] = []
utf8 (c ∷ cs) = encode_rune c ++ utf8 cs

-- strings.Split(s, sep) for a separator of one character.
unfoldable pub split_on : ℕ → List ℕ → List (List ℕ)
split_on sep [] = [] ∷ []
split_on sep (c ∷ cs) =
    let rest = split_on sep cs in
    if c == sep then [] ∷ rest else elim rest [ [] ↦ (c ∷ []) ∷ [] | p ∷ ps ↦ (c ∷ p) ∷ ps ]

-- strings.Contains(s, sub) for a substring of one character.
unfoldable pub contains : ℕ → List ℕ → Bool
contains x [] = false
contains x (c ∷ cs) = c == x || contains x cs

-- strings.HasPrefix(s, prefix)
unfoldable pub starts : List ℕ → List ℕ → Bool
starts [] cs = true
starts (p ∷ ps) [] = false
starts (p ∷ ps) (c ∷ cs) = p == c && starts ps cs

-- strings.Contains(s, sub)
unfoldable pub contains_text : List ℕ → List ℕ → Bool
unfolding starts
contains_text sub [] = starts sub []
contains_text sub (c ∷ cs) = starts sub (c ∷ cs) || contains_text sub cs

-- strings.TrimPrefix after strings.HasPrefix: the rest of the text, or `none` without the prefix.
unfoldable pub after_prefix : List ℕ → String → Option String
after_prefix [] s = some s
after_prefix (p ∷ ps) String.[] = none
after_prefix (p ∷ ps) (String.◌∷◌ x s) = if p == code x then after_prefix ps s else none

-- strings.SplitN(s, sep, 2) for a separator of one character: `none` where it does not occur.
unfoldable pub before_cut : Char → Option (String × String) → Option (String × String)
before_cut x none = none
before_cut x (some (l, r)) = some (String.◌∷◌ x l, r)

unfoldable pub cut_at : ℕ → String → Option (String × String)
cut_at sep String.[] = none
cut_at sep (String.◌∷◌ x s) =
    let rest = cut_at sep s in if code x == sep then some ("", s) else before_cut x rest
