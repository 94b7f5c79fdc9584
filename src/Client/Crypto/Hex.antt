-- ===== src/Client/Crypto/Hex.antt =====
-- The hexadecimal codec (internal/crypto/aes.go).
use cloistr_address.Base.{
  ℕ, zero, suc, ◌+◌, ◌*◌, ◌/◌, ◌%◌, ◌<◌, ◌≡◌, refl, sym, ap, Bool, true, false, ◌&&◌, Option, none,
  some, [], ◌∷◌, length, ◌==◌, arith, Bool-cases, Option-cases, inl, inr,
}
use cloistr_address.Client.Crypto.{
  Bytes, Outcome, done, failed, hex_digit, shift_in, add_digit, second_digit, with_byte, hex_pairs,
  hex_decode, byte_at, hex_chars, hex_encode,
}

-- Every item is a byte.
pub data AreBytes : Bytes → Type 0 where
  none_left : AreBytes []
  byte : {b : ℕ} {bs : Bytes} → b < 256 → AreBytes bs → AreBytes (b ∷ bs)

-- A test that passes on every number below a bound.
abbrev all_below : (ℕ → Bool) → ℕ → Bool
all_below p zero = true
all_below p (suc n) = p n && all_below p n

all_below-at : (p : ℕ → Bool) (k n : ℕ) → all_below p k ≡ true → n < k → p n ≡ true
all_below-at p zero n h l = absurd (omega arith)
all_below-at p (suc k) n h l = ground (arith, all_below-at p k n)

abbrev digit_is : ℕ → Option ℕ → Bool
digit_is n none = false
digit_is n (some d) = d == n

digit_is→some : (n : ℕ) (o : Option ℕ) → digit_is n o ≡ true → o ≡ some n
digit_is→some n none h = absurd cc
digit_is→some n (some d) h = ground arith

abbrev digit_returns : ℕ → Bool
unfolding hex_digit byte_at hex_chars
digit_returns n = digit_is n (hex_digit (byte_at hex_chars n))

hex_digit-byte_at : (n : ℕ) → n < 16 → hex_digit (byte_at hex_chars n) ≡ some n
unfolding digit_returns
hex_digit-byte_at n l =
    digit_is→some n _
      (all_below-at digit_returns 16 n (unfold hex_digit byte_at hex_chars in refl) l)

add_digit-byte_at :
    (b n : ℕ) → n < 16 → add_digit b (byte_at hex_chars n) ≡ done ((b * 16 + n) % 256)
unfolding add_digit shift_in
add_digit-byte_at b n l = rw (hex_digit-byte_at n l) refl

-- One byte comes back from its two digits.
byte_back :
    (b : ℕ)
    → b < 256
    → second_digit (byte_at hex_chars (b % 16)) (add_digit 0 (byte_at hex_chars (b / 16))) ≡ done b
byte_back b l = rw (add_digit-byte_at 0 (b / 16) (omega arith)) (
    unfold second_digit in
    rw (add_digit-byte_at ((0 * 16 + b / 16) % 256) (b % 16) (omega arith)) (ap done (omega arith)))

hex_pairs-hex_encode : (bs : Bytes) → AreBytes bs → hex_pairs (hex_encode bs) ≡ done bs
unfolding hex_pairs hex_encode
hex_pairs-hex_encode [] h = refl
hex_pairs-hex_encode (b ∷ bs) (byte l h) =
    rw (byte_back b l, hex_pairs-hex_encode bs h) (unfold with_byte in refl)

pub length-hex_encode : (bs : Bytes) → length (hex_encode bs) ≡ length bs * 2
unfolding hex_encode
length-hex_encode [] = refl
length-hex_encode (b ∷ bs) = omega (arith, length-hex_encode bs)

-- `hexDecode` reads back the bytes that `hexEncode` wrote, whatever they are.
pub hex_decode-hex_encode : (bs : Bytes) → AreBytes bs → hex_decode (hex_encode bs) ≡ done bs
unfolding hex_decode
hex_decode-hex_encode bs h = ground (arith, length-hex_encode bs, hex_pairs-hex_encode bs h)

-- What `hexDecode` accepts: digits only, two for each byte it returns.
add_digit-bound : (b c r : ℕ) → add_digit b c ≡ done r → r < 256
unfolding add_digit shift_in
add_digit-bound b c r h = elim (Option-cases (hex_digit c)) [
  | inl n ↦ absurd (cc (rw n at h))
  | inr (d, e) ↦ ground (arith, rw e at h)
]

second_digit-bound : (d r : ℕ) (o : Outcome ℕ) → second_digit d o ≡ done r → r < 256
unfolding second_digit
second_digit-bound d r (failed e) h = absurd cc
second_digit-bound d r (done b) h = add_digit-bound b d r h

with_byte-cases :
    (o : Outcome ℕ) (p : Outcome Bytes) (r : Bytes)
    → with_byte o p ≡ done r
    → (b : ℕ) × (bs : Bytes) × (o ≡ done b) × (p ≡ done bs) × (r ≡ b ∷ bs)
unfolding with_byte
with_byte-cases (failed e) p r h = absurd cc
with_byte-cases (done b) (failed e) r h = absurd cc
with_byte-cases (done b) (done bs) r h = (b, bs, refl, refl, ground arith)

hex_pairs-AreBytes :
    (s r : Bytes) → length s % 2 ≡ 0 → hex_pairs s ≡ done r → AreBytes r × (length s ≡ length r * 2)
unfolding hex_pairs
hex_pairs-AreBytes [] r e h = let q : [] ≡ r = ground arith in rw (sym q) (none_left, refl)
hex_pairs-AreBytes (c ∷ []) r e h = absurd (omega arith)
hex_pairs-AreBytes (c ∷ d ∷ s) r e h =
    let (b, bs, p, q, k) = with_byte-cases (second_digit d (add_digit 0 c)) (hex_pairs s) r h in
    let (a, l) = hex_pairs-AreBytes s bs (omega arith) q in
    rw k (byte (second_digit-bound d b _ p) a, omega arith)

-- `hexDecode` returns bytes, half as many as the digits it was given.
pub hex_decode-AreBytes :
    (s r : Bytes) → hex_decode s ≡ done r → AreBytes r × (length s ≡ length r * 2)
unfolding hex_decode
hex_decode-AreBytes s r h = elim (Bool-cases (length s % 2 == 0)) [
  | inl e ↦ hex_pairs-AreBytes s r (ground arith) (rw e at h)
  | inr e ↦ absurd (cc (rw e at h))
]
