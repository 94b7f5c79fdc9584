-- ===== src/Client/Crypto.antt =====
-- The encryption of secrets at rest (internal/crypto/aes.go). A Go string is a sequence of bytes
-- here. AES-GCM, the base64 codec and the source of random bytes are parameters.
pub mod Hex
pub mod AtRest
use cloistr_address.Base.{
  ℕ, zero, suc, ◌+◌, ◌-◌, ◌*◌, ◌/◌, ◌%◌, Bool, ◌&&◌, Option, none, some, List, [], ◌∷◌, ◌++◌,
  length, ltb, leb, ◌==◌, if◌then◌else◌,
}
use cloistr_address.Base.Texts.{codes}

abbrev pub Bytes : Type 0
Bytes = List ℕ

pub data CryptoError : Type 0 where
  odd_length : CryptoError
  invalid_character : ℕ → CryptoError
  key_not_configured : CryptoError
  invalid_key : CryptoError
  decryption_failed : CryptoError
  cipher_failed : CryptoError
  random_failed : CryptoError

pub data Outcome (A : Type 0) : Type 0 where
  done : A → Outcome A
  failed : CryptoError → Outcome A

-- The value of a hexadecimal digit.
unfoldable pub hex_digit : ℕ → Option ℕ
hex_digit c =
    if leb b'0' c && leb c b'9'
    then some (c - b'0')
    else if leb b'a' c && leb c b'f'
    then some (c - b'a' + 10)
    else if leb b'A' c && leb c b'F'
    then some (c - b'A' + 10)
    else none

-- `b = b*16 + digit` on a byte.
unfoldable pub shift_in : ℕ → ℕ → Option ℕ → Outcome ℕ
shift_in b c none = failed (invalid_character c)
shift_in b c (some d) = done ((b * 16 + d) % 256)

unfoldable pub add_digit : ℕ → ℕ → Outcome ℕ
add_digit b c = shift_in b c (hex_digit c)

unfoldable pub second_digit : ℕ → Outcome ℕ → Outcome ℕ
second_digit d (failed e) = failed e
second_digit d (done b) = add_digit b d

unfoldable pub with_byte : Outcome ℕ → Outcome Bytes → Outcome Bytes
with_byte (failed e) rest = failed e
with_byte (done b) (failed e) = failed e
with_byte (done b) (done bs) = done (b ∷ bs)

-- The loop of `hexDecode`, on a string of even length.
unfoldable pub hex_pairs : Bytes → Outcome Bytes
hex_pairs [] = done []
hex_pairs (c ∷ []) = done []
hex_pairs (c ∷ d ∷ s) = with_byte (second_digit d (add_digit 0 c)) (hex_pairs s)

-- `hexDecode`
unfoldable pub hex_decode : Bytes → Outcome Bytes
hex_decode s = if length s % 2 == 0 then hex_pairs s else failed odd_length

-- An index of a constant string.
unfoldable pub byte_at : Bytes → ℕ → ℕ
byte_at [] n = 0
byte_at (c ∷ s) zero = c
byte_at (c ∷ s) (suc n) = byte_at s n

unfoldable pub hex_chars : Bytes
hex_chars = codes "0123456789abcdef"

-- `hexEncode`
unfoldable pub hex_encode : Bytes → Bytes
hex_encode [] = []
hex_encode (b ∷ bs) = byte_at hex_chars (b / 16) ∷ byte_at hex_chars (b % 16) ∷ hex_encode bs

-- The packages that the code calls: `accepts` is whether aes.NewCipher and cipher.NewGCM take a key.
pub record Cipher : Type 0 where
  pub accepts : Bytes → Bool
  pub nonce_size : ℕ
  pub seal : Bytes → Bytes → Bytes → Bytes
  pub open_sealed : Bytes → Bytes → Bytes → Option Bytes
  pub encode_base64 : Bytes → Bytes
  pub decode_base64 : Bytes → Option Bytes
  pub random : ℕ → Option Bytes

pub record Encryptor : Type 0 where
  pub key : Bytes

unfoldable pub new_from_decoded : Outcome Bytes → Outcome Encryptor
new_from_decoded (failed e) = failed invalid_key
new_from_decoded (done k) = if length k == 32 then done (record { key = k }) else failed invalid_key

-- `NewEncryptor`
unfoldable pub new_encryptor : Bytes → Outcome Encryptor
new_encryptor [] = failed key_not_configured
new_encryptor (c ∷ s) = new_from_decoded (hex_decode (c ∷ s))

unfoldable pub take : ℕ → Bytes → Bytes
take zero s = []
take (suc n) [] = []
take (suc n) (c ∷ s) = c ∷ take n s

unfoldable pub drop : ℕ → Bytes → Bytes
drop zero s = s
drop (suc n) [] = []
drop (suc n) (c ∷ s) = drop n s

module _ (c : Cipher) where
  unfoldable pub encrypt_with : Encryptor → Bytes → Option Bytes → Outcome Bytes
  encrypt_with e plaintext none = failed random_failed
  encrypt_with e plaintext (some nonce) =
      done (c.encode_base64 (nonce ++ c.seal e.key nonce plaintext))

  -- `Encryptor.Encrypt`
  unfoldable pub encrypt : Encryptor → Bytes → Outcome Bytes
  encrypt e plaintext =
      if c.accepts e.key
      then encrypt_with e plaintext (c.random c.nonce_size)
      else failed cipher_failed

  unfoldable pub opened : Option Bytes → Outcome Bytes
  opened none = failed decryption_failed
  opened (some plaintext) = done plaintext

  unfoldable pub decrypt_decoded : Encryptor → Option Bytes → Outcome Bytes
  decrypt_decoded e none = failed decryption_failed
  decrypt_decoded e (some bytes) =
      if c.accepts e.key
      then if ltb (length bytes) c.nonce_size
        then failed decryption_failed
        else opened (c.open_sealed e.key (take c.nonce_size bytes) (drop c.nonce_size bytes))
      else failed cipher_failed

  -- `Encryptor.Decrypt`
  unfoldable pub decrypt : Encryptor → Bytes → Outcome Bytes
  decrypt e ciphertext = decrypt_decoded e (c.decode_base64 ciphertext)

  unfoldable pub key_of_random : Option Bytes → Outcome Bytes
  key_of_random none = failed random_failed
  key_of_random (some key) = done (hex_encode key)

  -- `GenerateKey`
  unfoldable pub generate_key : Outcome Bytes
  generate_key = key_of_random (c.random 32)
