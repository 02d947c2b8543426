-- ===== src/Frost.antt =====
-- sigimora-crypto/src/frost.rs: threshold signatures that are bound to a session. A participant id
-- is a natural number below 2 ^ 16, an epoch one below 2 ^ 64.
pub mod Weights
pub mod Laws
pub mod Codec
pub mod Resharing
use sigimora_api_backend.Base.{
  ℕ, zero, suc, Bool, not, ◌||◌, Option, some, none, List, [], ◌∷◌, ◌++◌, map, length, Outcome, ok,
  err, panic, ◌>>=◌, ◌>>◌, guard, ltb, ◌==◌, if◌then◌else◌, u16, le_bytes,
}
use sigimora_api_backend.Math.Field.{Field}
use sigimora_api_backend.Math.Group.{weighted_loop, sum_loop}
use sigimora_api_backend.Math.Pairing.{ct_verify_bls_signature}
use sigimora_api_backend.Math.Suite.{Suite, Bytes}
use sigimora_api_backend.Shamir.{Share, CryptoError, invalid_parameter}
use sigimora_api_backend.Feldman.{eval, random, random_with_secret, commit}

-- `b"FROST-BLS-SIG"`, `b"FROST-BLS"` and `b"default"`.
abbrev session_tag : Bytes
session_tag = 70 ∷ 82 ∷ 79 ∷ 83 ∷ 84 ∷ 45 ∷ 66 ∷ 76 ∷ 83 ∷ 45 ∷ 83 ∷ 73 ∷ 71 ∷ []

abbrev pub frost_tag : Bytes
frost_tag = 70 ∷ 82 ∷ 79 ∷ 83 ∷ 84 ∷ 45 ∷ 66 ∷ 76 ∷ 83 ∷ []

abbrev default_message : Bytes
default_message = 100 ∷ 101 ∷ 102 ∷ 97 ∷ 117 ∷ 108 ∷ 116 ∷ []

-- `for &s in signers { hasher.update(&s.to_le_bytes()) }`.
abbrev pub signer_bytes : List ℕ → Bytes
signer_bytes [] = []
signer_bytes (s ∷ signers) = le_bytes 2 s ++ signer_bytes signers

module _ {S : Type 0} (f : Field S) where
  open f use {one, sub, mul, invert, from_u64}

  -- `for j in 0..k { if i != j { … } }` on the pair (numerator, denominator).
  unfoldable pub coefficient_terms : ℕ → S → ℕ → List ℕ → S × S → S × S
  coefficient_terms i xi j [] acc = acc
  coefficient_terms i xi j (idx ∷ rest) (num, den) =
      coefficient_terms i xi (suc j) rest
        (if i == j then (num, den) else (mul num (from_u64 idx), mul den (sub (from_u64 idx) xi)))

  -- `denominator.invert().unwrap_or(Scalar::one())`.
  unfoldable pub invert_or_one : S → S
  invert_or_one den = elim (invert den) [ none ↦ one | some inv_denom ↦ inv_denom ]

  -- `for i in 0..k`.
  unfoldable pub coefficient_loop : List ℕ → ℕ → List ℕ → List S
  coefficient_loop indices i [] = []
  coefficient_loop indices i (idx ∷ rest) =
      let (num, den) = coefficient_terms i (from_u64 idx) 0 indices (one, one) in
      mul num (invert_or_one den) ∷ coefficient_loop indices (suc i) rest

  -- `Frost::lagrange_coefficients`.
  unfoldable pub lagrange_coefficients : List ℕ → List S
  lagrange_coefficients indices = coefficient_loop indices 0 indices

module _ (c : Suite) where
  open c use {Scalar, G1, G2, field, g1, g2}

  pub record SigningKey : Type 0 where
    pub share : Share Scalar
    pub ipk : G2

  pub record FrostKeyPair : Type 0 where
    pub signing_key : SigningKey
    pub group_pk : G2

  pub record PartialSignature : Type 0 where
    pub signer_id : ℕ
    pub sigma : G1

  pub record FrostSignature : Type 0 where
    pub sigma : G1
    pub signers : List ℕ
    pub epoch : ℕ
    pub transcript : Bytes

  -- `Frost::keygen`; `rng k` is the k-th scalar that the generator yields.
  unfoldable pub keygen : Scalar → ℕ → ℕ → ℕ → (ℕ → Scalar) → Outcome CryptoError FrostKeyPair
  keygen secret t n my_id rng = do
    guard (not (ltb n t)) invalid_parameter
    guard (not (ltb my_id 1 || ltb (u16 n) my_id)) invalid_parameter
    share ← eval c (random_with_secret c secret t rng 0) my_id
    ok (record {
      signing_key = record { share = share; ipk = g2.mul g2.generator share.value };
      group_pk = g2.mul g2.generator secret;
    })

  -- `Frost::keygen_distributed`.
  unfoldable keygen_distributed :
      ℕ → ℕ → ℕ → (ℕ → Scalar) → Outcome CryptoError (SigningKey × List G2)
  keygen_distributed t n my_id rng = do
    guard (not (ltb n t)) invalid_parameter
    let poly = random c t rng 0
    share ← eval c poly my_id
    ok (record { share = share; ipk = g2.mul g2.generator share.value }, commit c poly)

  -- `for pp in public_polys { group_pk = group_pk.add(&pp.0[0]) }`, from the given sum.
  unfoldable add_first : {E : Type 0} → G2 → List (List G2) → Outcome E G2
  add_first group_pk [] = ok group_pk
  add_first group_pk ([] ∷ pps) = panic
  add_first group_pk ((p ∷ ps) ∷ pps) = add_first (g2.add group_pk p) pps

  -- `Frost::derive_group_pk`.
  unfoldable derive_group_pk : {E : Type 0} → List (List G2) → Outcome E G2
  unfolding add_first
  derive_group_pk public_polys = add_first g2.identity public_polys

  unfoldable pub compute_session_transcript : Bytes → ℕ → List ℕ → Bytes
  compute_session_transcript msg epoch signers =
      c.sha256 (msg ++ (le_bytes 8 epoch ++ signer_bytes signers))

  unfoldable pub compute_signing_hash : Bytes → ℕ → List ℕ → G1
  unfolding compute_session_transcript
  compute_signing_hash msg epoch signers =
      c.hash_to_g1 (msg ++ (124 ∷ compute_session_transcript msg epoch signers)) session_tag

  unfoldable pub sign_partial : SigningKey → Bytes → ℕ → List ℕ → PartialSignature
  sign_partial signing_key msg epoch signers = record {
    signer_id = signing_key.share.index;
    sigma = g1.mul (compute_signing_hash msg epoch signers) signing_key.share.value;
  }

  unfoldable pub sign_partial_simple : SigningKey → Bytes → PartialSignature
  sign_partial_simple signing_key msg = record {
    signer_id = signing_key.share.index;
    sigma = g1.mul (c.hash_to_g1 msg frost_tag) signing_key.share.value;
  }

  unfoldable pub verify_partial : PartialSignature → G2 → Bytes → ℕ → List ℕ → Bool
  verify_partial part ipk msg epoch signers =
      ct_verify_bls_signature c part.sigma (compute_signing_hash msg epoch signers) ipk

  -- The loop over the partial signatures and their coefficients, in both aggregations.
  unfoldable pub combine : List PartialSignature → G1
  combine partials =
      weighted_loop g1 g1.identity (map (λ p. p.sigma) partials)
        (lagrange_coefficients field (map (λ p. p.signer_id) partials))

  unfoldable pub aggregate :
      List PartialSignature → List SigningKey → ℕ → Outcome CryptoError FrostSignature
  unfolding combine
  aggregate partials signing_keys threshold = do
    guard (not (ltb (length partials) threshold)) invalid_parameter
    ok (record {
      sigma = combine partials;
      signers = map (λ sk. sk.share.index) signing_keys;
      epoch = 1;
      transcript = [];
    })

  unfoldable pub aggregate_simple : List PartialSignature → Outcome CryptoError FrostSignature
  unfolding combine
  aggregate_simple [] = err invalid_parameter
  aggregate_simple (p ∷ ps) =
      let indices = map (λ p. p.signer_id) (p ∷ ps) in
      ok (record {
        sigma = combine (p ∷ ps);
        signers = indices;
        epoch = 1;
        transcript = compute_session_transcript default_message 1 indices;
      })

  unfoldable pub verify : FrostSignature → G2 → Bytes → Bool
  verify frost_sig group_pk msg =
      ct_verify_bls_signature c frost_sig.sigma (c.hash_to_g1 msg frost_tag) group_pk

  unfoldable pub verify_with_session : FrostSignature → G2 → Bytes → ℕ → List ℕ → Bool
  verify_with_session frost_sig group_pk msg epoch signers =
      ct_verify_bls_signature c frost_sig.sigma (compute_signing_hash msg epoch signers) group_pk
