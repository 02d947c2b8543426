-- ===== src/Dkg/Ecies.antt =====
-- The encryption of a share to its recipient in sigimora-crypto/src/dkg.rs.
use sigimora_api_backend.Base.{
  ℕ, ◌+◌, ◌≤◌, ◌<◌, ◌≡◌, refl, sym, ap, ◌∙◌, not, false, some, [], ◌∷◌, ◌++◌, append_assoc,
  append-nil, length, length-append, Outcome, ok, ◌>>=◌, ◌>>◌, guard, ok_or, ltb, le_bytes, slice,
  slice_from, le_at, slice-append, slice_from-append, le_at-append, bind_eq, arith,
}
use sigimora_api_backend.Math.Group.{mul-mul_comm}
use sigimora_api_backend.Math.Suite.{Suite, Bytes}
use sigimora_api_backend.Shamir.{CryptoError, encryption_error, invalid_parameter}
use sigimora_api_backend.Pedersen.{VssShare}

-- `b"sigimora-ecies"`.
abbrev ecies_info : Bytes
ecies_info = 115 ∷ 105 ∷ 103 ∷ 105 ∷ 109 ∷ 111 ∷ 114 ∷ 97 ∷ 45 ∷ 101 ∷ 99 ∷ 105 ∷ 101 ∷ 115 ∷ []

module _ (c : Suite) where
  open c use {Scalar, G2, g2, g2_code, scalar_code}

  unfoldable share_key : G2 → Bytes
  share_key shared = c.hkdf (g2_code.to_bytes shared) ecies_info

  unfoldable share_bytes : VssShare c → Bytes
  share_bytes share =
      le_bytes 2 share.index
      ++ (scalar_code.to_bytes share.value ++ scalar_code.to_bytes share.blinding)

  -- `nonce_bytes[..8].copy_from_slice(&rng_u64.to_le_bytes())`.
  unfoldable nonce_bytes : ℕ → Bytes
  nonce_bytes rng_u64 = le_bytes 8 rng_u64 ++ (0 ∷ 0 ∷ 0 ∷ 0 ∷ [])

  -- `ephemeral_sk` and `rng_u64` are what the generator yields.
  unfoldable pub encrypt_share : VssShare c → G2 → Scalar → ℕ → Bytes
  unfolding share_key share_bytes nonce_bytes
  encrypt_share share recipient_pk ephemeral_sk rng_u64 =
      let ciphertext =
        c.encrypt (share_key (g2.mul recipient_pk ephemeral_sk)) (nonce_bytes rng_u64)
          (share_bytes share) in
      g2_code.to_bytes (g2.mul g2.generator ephemeral_sk) ++ (nonce_bytes rng_u64 ++ ciphertext)

  -- What `decrypt_share` makes of the plaintext.
  unfoldable read_plaintext : Bytes → Outcome CryptoError (VssShare c)
  read_plaintext plaintext = do
    guard (not (ltb (length plaintext) 66)) invalid_parameter
    index ← le_at 0 2 plaintext
    value_bytes ← slice 2 32 plaintext
    blinding_bytes ← slice 34 32 plaintext
    value ← ok_or (scalar_code.from_bytes value_bytes) invalid_parameter
    blinding ← ok_or (scalar_code.from_bytes blinding_bytes) invalid_parameter
    ok (record { index = index; value = value; blinding = blinding })

  unfoldable pub decrypt_share : Bytes → Scalar → Outcome CryptoError (VssShare c)
  unfolding share_key read_plaintext
  decrypt_share encrypted my_sk = do
    guard (not (ltb (length encrypted) (96 + 12 + 16))) encryption_error
    epk_bytes ← slice 0 96 encrypted
    ephemeral_pk ← ok_or (g2_code.from_bytes epk_bytes) encryption_error
    nonce ← slice 96 12 encrypted
    ciphertext ← slice_from 108 encrypted
    plaintext ←
        ok_or (c.decrypt (share_key (g2.mul ephemeral_pk my_sk)) nonce ciphertext) encryption_error
    read_plaintext plaintext

  read_plaintext-share_bytes :
      (share : VssShare c) → share.index < 65536 → read_plaintext (share_bytes share) ≡ ok share
  unfolding read_plaintext share_bytes
  read_plaintext-share_bytes share h =
      let long : ltb (length (share_bytes share)) 66 ≡ false =
        unfold share_bytes in
        ground (
          arith,
          length-append xs ys,
          scalar_code.length-to_bytes share.value,
          scalar_code.length-to_bytes share.blinding,
        ) in
      bind_eq _ (ap (λ b. guard (not b) invalid_parameter) long)
      ∙ bind_eq _ (le_at-append 0 2 share.index [] (xs ++ ys) refl h)
      ∙ bind_eq _ (
          slice-append 2 32 (le_bytes 2 share.index) xs ys refl
            (scalar_code.length-to_bytes share.value))
      ∙ bind_eq _ (
          ap (λ l. slice 34 32 (le_bytes 2 share.index ++ (xs ++ l))) (sym (append-nil ys))
          ∙ slice-append 34 32 (le_bytes 2 share.index ++ xs) ys []
              (omega (arith, scalar_code.length-to_bytes share.value))
              (scalar_code.length-to_bytes share.blinding))
      ∙ bind_eq _
          (ap (λ o. ok_or o invalid_parameter) (scalar_code.from_bytes-to_bytes share.value))
      ∙ bind_eq _
          (ap (λ o. ok_or o invalid_parameter) (scalar_code.from_bytes-to_bytes share.blinding))
    where
      xs : Bytes
      xs = scalar_code.to_bytes share.value

      ys : Bytes
      ys = scalar_code.to_bytes share.blinding

  -- The layout of an encrypted share: point, nonce, ciphertext.
  decrypt_parts :
      (epk : G2) (nonce ciphertext plaintext : Bytes) (my_sk : Scalar)
      → length nonce ≡ 12
      → 16 ≤ length ciphertext
      → c.decrypt (share_key (g2.mul epk my_sk)) nonce ciphertext ≡ some plaintext
      → decrypt_share (g2_code.to_bytes epk ++ (nonce ++ ciphertext)) my_sk
        ≡ read_plaintext plaintext
  unfolding decrypt_share
  decrypt_parts epk nonce ciphertext plaintext my_sk n l d =
      let long : ltb (length (xs ++ (nonce ++ ciphertext))) (96 + 12 + 16) ≡ false = ground (
        arith,
        length-append xs (nonce ++ ciphertext),
        length-append nonce ciphertext,
        g2_code.length-to_bytes epk,
      ) in
      bind_eq _ (ap (λ b. guard (not b) encryption_error) long)
      ∙ bind_eq _ (slice-append 0 96 [] xs (nonce ++ ciphertext) refl (g2_code.length-to_bytes epk))
      ∙ bind_eq _ (ap (λ o. ok_or o encryption_error) (g2_code.from_bytes-to_bytes epk))
      ∙ bind_eq _ (slice-append 96 12 xs nonce ciphertext (g2_code.length-to_bytes epk) n)
      ∙ bind_eq _ (
          ap (slice_from 108) (sym (append_assoc xs nonce ciphertext))
          ∙ slice_from-append 108 (xs ++ nonce) ciphertext
              (omega (arith, n, length-append xs nonce, g2_code.length-to_bytes epk)))
      ∙ bind_eq _ (ap (λ o. ok_or o encryption_error) d)
    where
      xs : Bytes
      xs = g2_code.to_bytes epk

  -- The holder of a key reads back what `encrypt_share` seals for its public key, for every share
  -- with an index below 2 ^ 16, whatever the generator yields.
  pub decrypt_share-encrypt_share :
      (share : VssShare c) (my_sk ephemeral_sk : Scalar) (rng_u64 : ℕ)
      → share.index < 65536
      → decrypt_share (encrypt_share share (g2.mul g2.generator my_sk) ephemeral_sk rng_u64) my_sk
        ≡ ok share
  unfolding encrypt_share
  decrypt_share-encrypt_share share my_sk ephemeral_sk rng_u64 h =
      let key = share_key (g2.mul (g2.mul g2.generator my_sk) ephemeral_sk) in
      decrypt_parts (g2.mul g2.generator ephemeral_sk) (nonce_bytes rng_u64)
        (c.encrypt key (nonce_bytes rng_u64) (share_bytes share)) (share_bytes share) my_sk
        (unfold nonce_bytes in refl)
        (omega (arith, c.length-encrypt key (nonce_bytes rng_u64) (share_bytes share)))
        (ap
            (λ p.
              c.decrypt (share_key p) (nonce_bytes rng_u64)
                (c.encrypt key (nonce_bytes rng_u64) (share_bytes share)))
            (mul-mul_comm g2 g2.generator ephemeral_sk my_sk)
          ∙ c.decrypt-encrypt key (nonce_bytes rng_u64) (share_bytes share))
      ∙ read_plaintext-share_bytes share h
