-- ===== src/Base/Scan.antt =====
-- fmt.Sscanf(s, "%d", &n) into an int64: spaces, a sign and digits are read, and what follows the
-- digits is left alone.
use Prim.Native.Nat.{ℕ, ◌+◌, ◌-◌, ◌*◌, ◌^◌}
use mathlib.Core.Bool.{Bool, true, false, ◌&&◌, ◌||◌}
use mathlib.Core.Option.{Option, none, some}
use mathlib.Core.List.{List, [], ◌∷◌}
use cloistr_address.Base.Tests.{ltb, leb, ◌==◌, if◌then◌else◌}
use cloistr_address.Base.Signed.{ℤ, pos, negsuc}

unfoldable pub is_digit : ℕ → Bool
is_digit c = leb b'0' c && leb c b'9'

-- The number that the digits at the front make, behind the number so far.
unfoldable pub read_digits : ℕ → List ℕ → ℕ
read_digits acc [] = acc
read_digits acc (c ∷ cs) =
    let rest = read_digits (acc * 10 + (c - b'0')) cs in if is_digit c then rest else acc

unfoldable pub in_int64 : Bool → ℕ → Option ℤ
in_int64 false n = if ltb n (2 ^ 63) then some (pos n) else none
in_int64 true n =
    if n == 0 then some (pos 0) else if leb n (2 ^ 63) then some (negsuc (n - 1)) else none

unfoldable pub read_unsigned : Bool → List ℕ → Option ℤ
read_unsigned negative [] = none
read_unsigned negative (c ∷ cs) =
    if is_digit c then in_int64 negative (read_digits 0 (c ∷ cs)) else none

unfoldable pub read_signed : List ℕ → Option ℤ
read_signed [] = none
read_signed (c ∷ cs) =
    if c == b'+'
    then read_unsigned false cs
    else if c == b'-'
    then read_unsigned true cs
    else read_unsigned false (c ∷ cs)

-- The spaces of package fmt, without the newline, which ends the scan with an error.
unfoldable pub is_space : ℕ → Bool
is_space c =
    c == 9
    || leb 11 c && leb c 13
    || c == 32
    || c == 133
    || c == 160
    || c == 5760
    || leb 8192 c && leb c 8202
    || leb 8232 c && leb c 8233
    || c == 8239
    || c == 8287
    || c == 12288

unfoldable pub scan_int : List ℕ → Option ℤ
scan_int [] = none
scan_int (c ∷ cs) =
    let rest = scan_int cs in
    if c == 10 then none else if is_space c then rest else read_signed (c ∷ cs)
