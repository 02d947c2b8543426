-- ===== src/Bls.antt =====
-- sigimora-crypto/src/bls.rs: keys, signatures, aggregation, proofs of possession.
use sigimora_api_backend.Base.{◌≡◌, sym, ap, ◌∙◌, ◌↔◌, Bool, true, List, [], ◌∷◌, map}
use sigimora_api_backend.Math.Group.{sum, sum_loop, sum_loop-identity, mul-zero}
use sigimora_api_backend.Math.Suite.{Suite, Bytes}
use sigimora_api_backend.Math.Pairing.{ct_verify_bls_signature, ct_verify_bls_signature_iff}

-- `b"SIGIMORA-BLS"` and `b"SIGIMORA-POP"`.
abbrev bls_tag : Bytes
bls_tag = 83 ∷ 73 ∷ 71 ∷ 73 ∷ 77 ∷ 79 ∷ 82 ∷ 65 ∷ 45 ∷ 66 ∷ 76 ∷ 83 ∷ []

abbrev pub pop_tag : Bytes
pop_tag = 83 ∷ 73 ∷ 71 ∷ 73 ∷ 77 ∷ 79 ∷ 82 ∷ 65 ∷ 45 ∷ 80 ∷ 79 ∷ 80 ∷ []

module _ (c : Suite) where
  open c use {Scalar, G1, G2, g1, g2, hash_to_g1}

  -- `SecretKey::public_key`.
  unfoldable pub public_key : Scalar → G2
  public_key sk = g2.mul g2.generator sk

  -- `SecretKey::sign`.
  unfoldable pub sign : Scalar → Bytes → G1
  sign sk msg = g1.mul (hash_to_g1 msg bls_tag) sk

  -- `SecretKey::proof_of_possession`.
  unfoldable pub proof_of_possession : Scalar → G1
  unfolding public_key
  proof_of_possession sk = g1.mul (hash_to_g1 (c.g2_code.to_bytes (public_key sk)) pop_tag) sk

  -- `PublicKey::verify`.
  unfoldable pub verify : G2 → Bytes → G1 → Bool
  verify pk msg sig = ct_verify_bls_signature c sig (hash_to_g1 msg bls_tag) pk

  -- `PublicKey::verify_pop`.
  unfoldable pub verify_pop : G2 → G1 → Bool
  verify_pop pk pop = ct_verify_bls_signature c pop (hash_to_g1 (c.g2_code.to_bytes pk) pop_tag) pk

  -- `PublicKey::aggregate` and `Signature::aggregate`.
  unfoldable pub aggregate_keys : List G2 → G2
  aggregate_keys keys = sum_loop g2 g2.identity keys

  unfoldable pub aggregate_signatures : List G1 → G1
  aggregate_signatures sigs = sum_loop g1 g1.identity sigs

  -- `Signature::verify_aggregate`.
  unfoldable pub verify_aggregate : G2 → Bytes → G1 → Bool
  verify_aggregate agg_pk msg agg_sig =
      ct_verify_bls_signature c agg_sig (hash_to_g1 msg bls_tag) agg_pk

  -- A signature verifies under the public key of `sk` exactly when it is the one that `sk` makes.
  pub verify-sign :
      (sk : Scalar) (msg : Bytes) (sig : G1)
      → (verify (public_key sk) msg sig ≡ true) ↔ (sig ≡ sign sk msg)
  unfolding verify public_key sign
  verify-sign sk msg sig = ct_verify_bls_signature_iff c sig (hash_to_g1 msg bls_tag) sk

  -- A proof of possession is accepted for the public key of `sk` exactly when it is the one that
  -- `sk` makes.
  pub verify_pop-proof_of_possession :
      (sk : Scalar) (pop : G1)
      → (verify_pop (public_key sk) pop ≡ true) ↔ (pop ≡ proof_of_possession sk)
  unfolding verify_pop public_key proof_of_possession
  verify_pop-proof_of_possession sk pop = ct_verify_bls_signature_iff c pop _ sk

  total : List Scalar → Scalar
  total [] = c.field.zero
  total (s ∷ ss) = c.field.add s (total ss)

  sum-public_key : (sks : List Scalar) → sum g2 (map public_key sks) ≡ public_key (total sks)
  unfolding sum total public_key
  sum-public_key [] = sym (mul-zero g2 g2.generator)
  sum-public_key (s ∷ ss) =
      ap (g2.add (public_key s)) (sum-public_key ss) ∙ sym (g2.mul-add g2.generator s (total ss))

  sum-sign :
      (msg : Bytes) (sks : List Scalar)
      → sum g1 (map (λ sk. sign sk msg) sks) ≡ sign (total sks) msg
  unfolding sum total sign
  sum-sign msg [] = sym (mul-zero g1 _)
  sum-sign msg (s ∷ ss) =
      ap (g1.add (sign s msg)) (sum-sign msg ss) ∙ sym (g1.mul-add _ s (total ss))

  -- The aggregate of the signatures that several keys make of one message is the one signature
  -- that verifies under the aggregate of their public keys.
  pub verify_aggregate-aggregate :
      (sks : List Scalar) (msg : Bytes) (sig : G1)
      → (verify_aggregate (aggregate_keys (map public_key sks)) msg sig ≡ true)
        ↔ (sig ≡ aggregate_signatures (map (λ sk. sign sk msg) sks))
  unfolding verify_aggregate aggregate_keys aggregate_signatures
  verify_aggregate-aggregate sks msg sig =
      rw
        (
          sum_loop-identity g2 (map public_key sks) ∙ sum-public_key sks,
          sum_loop-identity g1 (map (λ sk. sign sk msg) sks) ∙ sum-sign msg sks,
        )
        (verify-sign' (total sks) msg sig)
    where
      verify-sign' :
          (sk : Scalar) (m : Bytes) (s : G1)
          → (ct_verify_bls_signature c s (hash_to_g1 m bls_tag) (public_key sk) ≡ true)
            ↔ (s ≡ sign sk m)
      verify-sign' sk m s = unfold verify in verify-sign sk m s
