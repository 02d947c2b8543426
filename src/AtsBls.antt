-- ===== src/AtsBls.antt =====
-- sigimora-crypto/src/bls_threshold.rs: threshold signatures without tags, and the refresh of a share.
use sigimora_api_backend.Base.{
  ℕ, suc, ◌≤◌, ◌≡◌, refl, sym, ap, ap₂, subst, ◌∙◌, ◌↔◌, Bool, true, false, not, List, [], ◌∷◌, map,
  length, length-map, ltb, All, Outcome, ok, ◌>>=◌, ◌>>◌, guard, arith,
}
use sigimora_api_backend.Math.Group.{weighted_loop}
use sigimora_api_backend.Math.Pairing.{ct_verify_bls_signature, ct_verify_bls_signature_iff}
use sigimora_api_backend.Math.Suite.{Suite, Bytes}
use sigimora_api_backend.Shamir.{Share, CryptoError, invalid_parameter, lagrange_at_zero, eval_at}
use sigimora_api_backend.Shamir.Poly.{horner}
use sigimora_api_backend.Shamir.Interpolation.{Distinct}
use sigimora_api_backend.Shamir.Lagrange.{points, weights, lagrange_at_zero-weights}
use sigimora_api_backend.Shamir.RoundTrip.{weighted_loop-mul, horner-zero, eval_at-horner}
use sigimora_api_backend.Pedersen.{
  PedersenSetup, VssPublic, eval, commit_poly, random_with_zero_constant,
}

-- `b"BLS_ATS"`.
abbrev bls_ats_tag : Bytes
bls_ats_tag = 66 ∷ 76 ∷ 83 ∷ 95 ∷ 65 ∷ 84 ∷ 83 ∷ []

module _ (c : Suite) where
  open c use {Scalar, G1, G2, field, g1, g2}

  pub record ThresholdSigningKey : Type 0 where
    pub share : Share Scalar
    pub individual_pk : G2

  pub record PartialSignature : Type 0 where
    pub signer_id : ℕ
    pub sigma : G1

  pub record ThresholdSignature : Type 0 where
    pub sigma : G1
    pub signers : List ℕ
    pub threshold : ℕ

  -- `ThresholdSignature::verify`.
  unfoldable pub verify : ThresholdSignature → Bytes → G2 → Bool
  verify s msg group_pk = ct_verify_bls_signature c s.sigma (c.hash_to_g1 msg bls_ats_tag) group_pk

  unfoldable pub sign_partial : ThresholdSigningKey → Bytes → PartialSignature
  sign_partial sk msg = record {
    signer_id = sk.share.index;
    sigma = g1.mul (c.hash_to_g1 msg bls_ats_tag) sk.share.value;
  }

  unfoldable pub verify_partial : PartialSignature → G2 → Bytes → Bool
  verify_partial partial ipk msg =
      ct_verify_bls_signature c partial.sigma (c.hash_to_g1 msg bls_ats_tag) ipk

  unfoldable pub aggregate : List PartialSignature → ℕ → Outcome CryptoError ThresholdSignature
  aggregate partials threshold = do
    guard (not (ltb (length partials) threshold)) invalid_parameter
    let signers = map (λ p. p.signer_id) partials
    lambdas ← lagrange_at_zero field signers
    ok (record {
      sigma = weighted_loop g1 g1.identity (map (λ p. p.sigma) partials) lambdas;
      signers = signers;
      threshold = threshold;
    })

  -- `rng` is what the generator of the polynomial yields.
  unfoldable proactive_refresh :
      Share Scalar → PedersenSetup c → (ℕ → Scalar) → Share Scalar × VssPublic c
  proactive_refresh current ped rng =
      let poly = random_with_zero_constant c 2 ped rng in
      (
        record {
          index = current.index;
          value = field.add current.value (eval c poly current.index).value;
        },
        commit_poly c poly,
      )

  -- A partial signature passes under the public key of a share exactly if it is what the share signs.
  verify_partial-sign_partial :
      (key : ThresholdSigningKey) (msg : Bytes) (partial : PartialSignature)
      → (verify_partial partial (g2.mul g2.generator key.share.value) msg ≡ true)
        ↔ (partial.sigma ≡ (sign_partial key msg).sigma)
  unfolding verify_partial sign_partial
  verify_partial-sign_partial key msg partial =
      ct_verify_bls_signature_iff c partial.sigma _ key.share.value

  ids_of :
      (msg : Bytes) (keys : List ThresholdSigningKey)
      → map (λ (p : PartialSignature). p.signer_id) (map (λ k. sign_partial k msg) keys)
        ≡ map (λ (k : ThresholdSigningKey). k.share.index) keys
  unfolding sign_partial
  ids_of msg [] = refl
  ids_of msg (k ∷ keys) = ap (◌∷◌ k.share.index) (ids_of msg keys)

  sigmas_of :
      (msg : Bytes) (keys : List ThresholdSigningKey)
      → map (λ (p : PartialSignature). p.sigma) (map (λ k. sign_partial k msg) keys)
        ≡ map
            (g1.mul (c.hash_to_g1 msg bls_ats_tag))
            (map (λ (k : ThresholdSigningKey). k.share.value) keys)
  unfolding sign_partial
  sigmas_of msg [] = refl
  sigmas_of msg (k ∷ keys) =
      ap (◌∷◌ (g1.mul (c.hash_to_g1 msg bls_ats_tag) k.share.value)) (sigmas_of msg keys)

  values_of :
      (secret : Scalar) (cs : List Scalar) (keys : List ThresholdSigningKey)
      → All (λ k. k.share.value ≡ eval_at field secret cs k.share.index) keys
      → map (λ (k : ThresholdSigningKey). k.share.value) keys
        ≡ map
            (λ i. horner field (secret ∷ cs) (field.from_u64 i))
            (map (λ (k : ThresholdSigningKey). k.share.index) keys)
  values_of secret cs [] a = refl
  values_of secret cs (k ∷ keys) (h, a) =
      ap₂ ◌∷◌ (h ∙ eval_at-horner field secret cs k.share.index) (values_of secret cs keys a)

  -- Enough keys, whose shares are of one polynomial and whose indices are different scalars, sign and
  -- aggregate to the one signature that verifies under the public key of the constant term.
  aggregate-sign_partial :
      (secret : Scalar) (cs : List Scalar) (keys : List ThresholdSigningKey) (threshold : ℕ)
      (msg : Bytes)
      → All (λ k. k.share.value ≡ eval_at field secret cs k.share.index) keys
      → Distinct (points field (map (λ k. k.share.index) keys))
      → suc (length cs) ≤ length keys
      → threshold ≤ length keys
      → (sig : ThresholdSignature) × (aggregate (map (λ k. sign_partial k msg) keys) threshold
          ≡ ok sig)
        × (verify sig msg (g2.mul g2.generator secret) ≡ true)
        × (sig.signers ≡ map (λ k. k.share.index) keys)
  unfolding aggregate verify
  aggregate-sign_partial secret cs keys threshold msg a d n t =
      let ids = map (λ (k : ThresholdSigningKey). k.share.index) keys in
      let partials = map (λ k. sign_partial k msg) keys in
      let h = c.hash_to_g1 msg bls_ats_tag in
      let ws = weights field [] (points field ids) in
      let sig : ThresholdSignature = record {
        sigma = weighted_loop g1 g1.identity (map (λ (p : PartialSignature). p.sigma) partials) ws;
        signers = ids;
        threshold = threshold;
      } in
      let enough : ltb (length partials) threshold ≡ false =
        ground (arith, length-map (λ k. sign_partial k msg) keys) in
      (
        sig,
        rw (enough, ids_of msg keys, lagrange_at_zero-weights field {E = CryptoError} ids d) refl,
        (ct_verify_bls_signature_iff c sig.sigma h secret).1 (
            ap (λ l. weighted_loop g1 g1.identity l ws) (sigmas_of msg keys)
            ∙ weighted_loop-mul field g1 h ids (secret ∷ cs) _ (values_of secret cs keys a) d (
                subst (λ k. suc (length cs) ≤ k)
                  (sym (length-map (λ (k : ThresholdSigningKey). k.share.index) keys)) n)
            ∙ ap (g1.mul h) (horner-zero field secret cs)),
        refl,
      )
