-- ===== src/Ats/Tags.antt =====
-- The tags of sigimora-ats/src/lib.rs: what `encrypt_tag` seals is what `decrypt_tag` reads, and
-- what `trace` finds.
use sigimora_api_backend.Base.{
  ℕ, suc, ◌+◌, ◌*◌, ◌/◌, ◌%◌, ◌<◌, ◌≡◌, refl, sym, ap, ◌∙◌, true, false, Option, some, none, List,
  [], ◌∷◌, ◌++◌, map, find, take, drop, length, length-append, ltb, ◌==◌, All, arith, append_assoc,
  take-append, drop-append, take_all,
}
use sigimora_api_backend.Math.Group.{mul-mul_comm}
use sigimora_api_backend.Math.Pairing.{
  ct_verify_bls_signature, ct_pairing_check, ct_verify_bls_signature_iff,
}
use sigimora_api_backend.Math.Suite.{Suite, Bytes}
use sigimora_api_backend.Ats.{
  EncryptedTag, SignerConfig, NetworkPublicParams, AtsSignature, from_secret, tag_key, encrypt_tag,
  decrypt_tag, parse_tag, u16_bytes, sign_partial, trace, trace_loop, trace_one, ats_tag,
}

long_enough :
    (xs ys zs : Bytes)
    → length xs ≡ 48
    → length ys ≡ 48
    → length zs ≡ 96
    → ltb (suc (suc (length (xs ++ (ys ++ zs))))) 194 ≡ false
long_enough xs ys zs hx hy hz = ground (arith, length-append xs (ys ++ zs), length-append ys zs)

u16_bytes_lem : (n : ℕ) → n < 65536 → n % 256 + 256 * (n / 256 % 256) ≡ n
u16_bytes_lem n h = omega (arith, h)

module _ (c : Suite) where
  open c use {Scalar, G1, G2, field, g1, g2}

  plaintext : ℕ → G1 → G1 → G2 → Bytes
  plaintext id s t l =
      u16_bytes id ++ (c.g1_code.to_bytes s ++ (c.g1_code.to_bytes t ++ c.g2_code.to_bytes l))

  parse_tag-plaintext :
      (id : ℕ) (s t : G1) (l : G2)
      → id < 65536
      → parse_tag c (plaintext id s t l)
        ≡ some (record { node_id = id; sigma_i = s; tag_i = t; lt_pk = l })
  unfolding parse_tag plaintext
  parse_tag-plaintext id s t l h = rw (long, sigma, tag, lt_key, u16_bytes_lem id h) refl
    where
      long :
          ltb
            (suc (
              suc
                (length (c.g1_code.to_bytes s ++ (c.g1_code.to_bytes t ++ c.g2_code.to_bytes l)))))
            194
          ≡ false
      long =
          long_enough (c.g1_code.to_bytes s) (c.g1_code.to_bytes t) (c.g2_code.to_bytes l)
            (c.g1_code.length-to_bytes s) (c.g1_code.length-to_bytes t)
            (c.g2_code.length-to_bytes l)

      sigma :
          c.g1_code.from_bytes
            (take 48 (c.g1_code.to_bytes s ++ (c.g1_code.to_bytes t ++ c.g2_code.to_bytes l)))
          ≡ some s
      sigma =
          ap c.g1_code.from_bytes (take-append 48 _ _ (c.g1_code.length-to_bytes s))
          ∙ c.g1_code.from_bytes-to_bytes s

      tag :
          c.g1_code.from_bytes (
            take 48
              (drop 48 (c.g1_code.to_bytes s ++ (c.g1_code.to_bytes t ++ c.g2_code.to_bytes l))))
          ≡ some t
      tag =
          ap (λ bs. c.g1_code.from_bytes (take 48 bs))
            (drop-append 48 _ _ (c.g1_code.length-to_bytes s))
          ∙ ap c.g1_code.from_bytes (take-append 48 _ _ (c.g1_code.length-to_bytes t))
          ∙ c.g1_code.from_bytes-to_bytes t

      both : length (c.g1_code.to_bytes s ++ c.g1_code.to_bytes t) ≡ 96
      both = omega (
        arith,
        length-append (c.g1_code.to_bytes s) (c.g1_code.to_bytes t),
        c.g1_code.length-to_bytes s,
        c.g1_code.length-to_bytes t,
      )

      lt_key :
          c.g2_code.from_bytes (
            take 96
              (drop 96 (c.g1_code.to_bytes s ++ (c.g1_code.to_bytes t ++ c.g2_code.to_bytes l))))
          ≡ some l
      lt_key =
          ap (λ bs. c.g2_code.from_bytes (take 96 (drop 96 bs)))
            (sym (append_assoc (c.g1_code.to_bytes s) _ _))
          ∙ ap (λ bs. c.g2_code.from_bytes (take 96 bs))
              (drop-append 96 (c.g1_code.to_bytes s ++ c.g1_code.to_bytes t) _ both)
          ∙ ap c.g2_code.from_bytes (take_all 96 _ (c.g2_code.length-to_bytes l))
          ∙ c.g2_code.from_bytes-to_bytes l

  -- The tracking key opens every tag made under it for an id below 2 ^ 16, and reads the id, the partial signature, the tag
  -- and the long-term key that went in.
  decrypt_tag-encrypt_tag :
      (tracking_sk r : Scalar) (nonce : Bytes) (id : ℕ) (s t : G1) (l : G2)
      → id < 65536
      → decrypt_tag c tracking_sk
          (encrypt_tag c id s t l (from_secret c tracking_sk).public r nonce)
        ≡ some (record { node_id = id; sigma_i = s; tag_i = t; lt_pk = l })
  unfolding decrypt_tag encrypt_tag from_secret plaintext
  decrypt_tag-encrypt_tag tracking_sk r nonce id s t l h =
      ap (λ (o : Option Bytes). elim o [ none ↦ none | some m ↦ parse_tag c m ])
        (ap
            (λ q. c.decrypt (tag_key c q) nonce (
              c.encrypt (tag_key c (g2.mul (g2.mul g2.generator tracking_sk) r)) nonce
                (plaintext id s t l)))
            (mul-mul_comm g2 g2.generator r tracking_sk)
          ∙ c.decrypt-encrypt _ nonce (plaintext id s t l))
      ∙ parse_tag-plaintext id s t l h

  -- What `trace` needs to know of an honest signer: its share's key and its long-term key are listed.
  abbrev pub IsListed : NetworkPublicParams c → SignerConfig c → Type 0
  IsListed params s =
      (s.node_id < 65536)
      × (s.lt_pk ≡ g2.mul g2.generator s.lt_sk)
      × (find (λ m. m.0 == s.node_id) params.member_pks
          ≡ some (s.node_id, g2.mul g2.generator s.dkg_share))
      × (find (λ m. g2.beq m.1 (g2.mul g2.generator s.lt_sk)) params.member_lt_pks
          ≡ some (s.node_id, g2.mul g2.generator s.lt_sk))

  ct_pairing_check-tag :
      (sigma : G1) (lt_sk : Scalar)
      → ct_pairing_check c
          (g1.mul sigma lt_sk)
          g2.generator
          (g1.negate sigma)
          (g2.mul g2.generator lt_sk)
        ≡ true
  ct_pairing_check-tag sigma lt_sk =
      unfold ct_verify_bls_signature in
      (ct_verify_bls_signature_iff c (g1.mul sigma lt_sk) sigma lt_sk).1 refl

  trace_one-signer :
      (params : NetworkPublicParams c) (h : G1) (s : SignerConfig c)
      → IsListed params s
      → trace_one c params h (record {
        node_id = s.node_id;
        sigma_i = g1.mul h s.dkg_share;
        tag_i = g1.mul (g1.mul h s.dkg_share) s.lt_sk;
        lt_pk = g2.mul g2.generator s.lt_sk;
      })
        ≡ some (s.node_id, g2.mul g2.generator s.lt_sk)
  unfolding trace_one
  trace_one-signer params h s (_, _, known, lt_known) =
      rw
        (
          known,
          (ct_verify_bls_signature_iff c (g1.mul h s.dkg_share) h s.dkg_share).1 refl,
          ct_pairing_check-tag (g1.mul h s.dkg_share) s.lt_sk,
        )
        lt_known

  abbrev pub tags_of :
      Bytes → G2 → (SignerConfig c → Scalar × Bytes) → List (SignerConfig c) → List (EncryptedTag c)
  tags_of msg pk random ss =
      map (λ s. (sign_partial c s msg pk (random s).0 (random s).1).encrypted_tag) ss

  trace_loop-signers :
      (tracking_sk : Scalar) (params : NetworkPublicParams c) (msg : Bytes)
      (random : SignerConfig c → Scalar × Bytes) (ss : List (SignerConfig c))
      → All (IsListed params) ss
      → trace_loop c tracking_sk params
          (c.hash_to_g1 msg ats_tag)
          (tags_of msg (from_secret c tracking_sk).public random ss)
        ≡ map (λ s. (s.node_id, g2.mul g2.generator s.lt_sk)) ss
  unfolding trace_loop sign_partial
  trace_loop-signers tracking_sk params msg random [] a = refl
  trace_loop-signers tracking_sk params msg random (s ∷ ss) ((small, lt, known, lt_known), a) =
      let h = c.hash_to_g1 msg ats_tag in
      let opened =
        decrypt_tag-encrypt_tag tracking_sk (random s).0 (random s).1 s.node_id
          (g1.mul h s.dkg_share) (g1.mul (g1.mul h s.dkg_share) s.lt_sk) s.lt_pk small
        ∙ ap
            (λ l. some (record {
              node_id = s.node_id;
              sigma_i = g1.mul h s.dkg_share;
              tag_i = g1.mul (g1.mul h s.dkg_share) s.lt_sk;
              lt_pk = l;
            }))
            lt in
      rw (trace_loop, opened, trace_one-signer params h s (small, lt, known, lt_known))
        (ap (◌∷◌ (s.node_id, g2.mul g2.generator s.lt_sk))
          (trace_loop-signers tracking_sk params msg random ss a))

  -- The holder of the tracking key finds, in the tags of any signers that are listed, exactly those
  -- signers, in order, each with its long-term key.
  pub trace_lem :
      (tracking_sk : Scalar) (params : NetworkPublicParams c) (msg : Bytes)
      (random : SignerConfig c → Scalar × Bytes) (ss : List (SignerConfig c)) (sig : AtsSignature c)
      → All (IsListed params) ss
      → sig.encrypted_tags ≡ tags_of msg (from_secret c tracking_sk).public random ss
      → trace c tracking_sk params msg sig ≡ map (λ s. (s.node_id, g2.mul g2.generator s.lt_sk)) ss
  unfolding trace
  trace_lem tracking_sk params msg random ss sig a e =
      ap (trace_loop c tracking_sk params (c.hash_to_g1 msg ats_tag)) e
      ∙ trace_loop-signers tracking_sk params msg random ss a
