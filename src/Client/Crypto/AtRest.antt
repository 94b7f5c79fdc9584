-- ===== src/Client/Crypto/AtRest.antt =====
-- Secrets at rest (internal/crypto/aes.go): what the operator's key and the stored text give back.
use cloistr_address.Base.{
  ℕ, ◌+◌, ◌≡◌, refl, sym, ap, true, some, [], ◌∷◌, ◌++◌, length, arith, Option-cases, inl, inr,
}
use cloistr_address.Client.Crypto.{
  Bytes, Outcome, done, failed, Cipher, Encryptor, new_encryptor, new_from_decoded, hex_decode,
  hex_encode, encrypt, encrypt_with, decrypt, decrypt_decoded, opened, take, drop, generate_key,
  key_of_random,
}
use cloistr_address.Client.Crypto.Hex.{AreBytes, hex_decode-hex_encode, length-hex_encode}

-- What the packages document: AES takes keys of 32 bytes, AES-GCM opens what it sealed with the
-- same key and nonce, base64 decodes what it encoded, and random bytes are as many as asked for.
pub record Documented (c : Cipher) : Type 0 where
  pub accepts : (k : Bytes) → length k ≡ 32 → c.accepts k ≡ true
  pub opens : (k n p : Bytes) → length n ≡ c.nonce_size → c.open_sealed k n (c.seal k n p) ≡ some p
  pub decodes : (s : Bytes) → c.decode_base64 (c.encode_base64 s) ≡ some s
  pub random : (n : ℕ) (r : Bytes) → c.random n ≡ some r → AreBytes r × (length r ≡ n)

take_append : (a b : Bytes) → take (length a) (a ++ b) ≡ a
unfolding take
take_append [] b = refl
take_append (x ∷ a) b = ap (λ (r : Bytes). x ∷ r) (take_append a b)

drop_append : (a b : Bytes) → drop (length a) (a ++ b) ≡ b
unfolding drop
drop_append [] b = refl
drop_append (x ∷ a) b = drop_append a b

length_append : (a b : Bytes) → length (a ++ b) ≡ length a + length b
length_append [] b = omega arith
length_append (x ∷ a) b = omega (arith, length_append a b)

new_from_decoded-length :
    (o : Outcome Bytes) (e : Encryptor) → new_from_decoded o ≡ done e → length e.key ≡ 32
unfolding new_from_decoded
new_from_decoded-length (failed x) e h = absurd cc
new_from_decoded-length (done k) e h = ground arith

new_encryptor-length : (s : Bytes) (e : Encryptor) → new_encryptor s ≡ done e → length e.key ≡ 32
unfolding new_encryptor
new_encryptor-length [] e h = absurd cc
new_encryptor-length (c ∷ s) e h = new_from_decoded-length (hex_decode (c ∷ s)) e h

module _ (c : Cipher) (d : Documented c) where
  opened_back :
      (e : Encryptor) (p nonce : Bytes)
      → length e.key ≡ 32
      → length nonce ≡ c.nonce_size
      → decrypt_decoded c e (some (nonce ++ c.seal e.key nonce p)) ≡ done p
  unfolding decrypt_decoded opened
  opened_back e p nonce k n =
      rw (d.accepts e.key k, sym n)
        (ground (
          arith,
          length_append nonce (c.seal e.key nonce p),
          take_append nonce (c.seal e.key nonce p),
          drop_append nonce (c.seal e.key nonce p),
          d.opens e.key nonce p n,
        ))

  decrypt-encrypt_with :
      (e : Encryptor) (p nonce ciphertext : Bytes)
      → length e.key ≡ 32
      → length nonce ≡ c.nonce_size
      → encrypt_with c e p (some nonce) ≡ done ciphertext
      → decrypt c e ciphertext ≡ done p
  unfolding encrypt_with decrypt
  decrypt-encrypt_with e p nonce ciphertext k n h =
      let q : ciphertext ≡ c.encode_base64 (nonce ++ c.seal e.key nonce p) = ground arith in
      rw (q, d.decodes (nonce ++ c.seal e.key nonce p)) (opened_back e p nonce k n)

  -- With an encryptor made from a configured key, what `Encrypt` returned decrypts to the plaintext.
  pub decrypt-encrypt :
      (configured : Bytes) (e : Encryptor) (plaintext ciphertext : Bytes)
      → new_encryptor configured ≡ done e
      → encrypt c e plaintext ≡ done ciphertext
      → decrypt c e ciphertext ≡ done plaintext
  unfolding encrypt
  decrypt-encrypt configured e p ciphertext k h =
      let l = new_encryptor-length configured e k in
      elim (Option-cases (c.random c.nonce_size)) [
        | inl n ↦ absurd (unfold encrypt_with in cc (rw (d.accepts e.key l, n) at h))
        | inr (nonce, r) ↦
            decrypt-encrypt_with e p nonce ciphertext l (d.random c.nonce_size nonce r).1
              (rw (d.accepts e.key l, r) at h)
      ]

  -- A generated key is accepted as the configuration.
  new_encryptor-hex_encode :
      (k : Bytes)
      → AreBytes k
      → length k ≡ 32
      → new_encryptor (hex_encode k) ≡ done (record { key = k })
  unfolding new_encryptor new_from_decoded
  new_encryptor-hex_encode k b l = go (hex_encode k) refl
    where
      go : (s : Bytes) → hex_encode k ≡ s → new_encryptor s ≡ done (record { key = k })
      go [] e = absurd (omega (arith, length-hex_encode k, ap length e))
      go (x ∷ s) e = rw (sym e, hex_decode-hex_encode k b, l) refl

  printed_key :
      (printed plaintext nonce k : Bytes)
      → c.random 32 ≡ some k
      → c.random c.nonce_size ≡ some nonce
      → hex_encode k ≡ printed
      → (e : Encryptor) × (ciphertext : Bytes) × (new_encryptor printed ≡ done e)
        × (encrypt c e plaintext ≡ done ciphertext)
        × (decrypt c e ciphertext ≡ done plaintext)
  unfolding encrypt encrypt_with
  printed_key printed p nonce k q r h =
      let (b, l) = d.random 32 k q in
      let made : new_encryptor printed ≡ done (record { key = k }) =
        rw (sym h) (new_encryptor-hex_encode k b l) in
      let text : encrypt c (record { key = k }) p
          ≡ done (c.encode_base64 (nonce ++ c.seal k nonce p)) =
        rw (d.accepts k l, r) refl in
      (
        record { key = k },
        c.encode_base64 (nonce ++ c.seal k nonce p),
        made,
        text,
        decrypt-encrypt printed (record { key = k }) p _ made text,
      )

  -- The key that `GenerateKey` prints is accepted by `NewEncryptor`, as the 32 random bytes, and
  -- while there are random bytes a plaintext encrypted under it is decrypted again.
  pub generate_key-works :
      (printed plaintext nonce : Bytes)
      → generate_key c ≡ done printed
      → c.random c.nonce_size ≡ some nonce
      → (e : Encryptor) × (ciphertext : Bytes) × (new_encryptor printed ≡ done e)
        × (encrypt c e plaintext ≡ done ciphertext)
        × (decrypt c e ciphertext ≡ done plaintext)
  unfolding generate_key
  generate_key-works printed p nonce h r = elim (Option-cases (c.random 32)) [
    | inl n ↦ absurd (unfold key_of_random in cc (rw n at h))
    | inr (k, q) ↦
        unfold key_of_random in printed_key printed p nonce k q r (sym (ground (arith, rw q at h)))
  ]
