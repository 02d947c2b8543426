-- ===== src/Frost/Laws.antt =====
-- Signing of sigimora-crypto/src/frost.rs: from generated keys to a signature that verifies.
use sigimora_api_backend.Base.{
  ℕ, suc, ◌-◌, ◌≤◌, ◌<◌, ◌≡◌, refl, sym, ap, ap₂, subst, ◌∙◌, true, false, List, [], ◌∷◌, map,
  length, length-map, length-draws, draws, ltb, All, Outcome, ok, arith,
}
use sigimora_api_backend.Math.Group.{weighted_loop}
use sigimora_api_backend.Math.Pairing.{ct_verify_bls_signature_iff}
use sigimora_api_backend.Math.Suite.{Suite, Bytes}
use sigimora_api_backend.Shamir.{CryptoError, eval_at}
use sigimora_api_backend.Shamir.Poly.{horner}
use sigimora_api_backend.Shamir.Interpolation.{Distinct}
use sigimora_api_backend.Shamir.Lagrange.{points, lagrange_at_zero-weights}
use sigimora_api_backend.Shamir.RoundTrip.{weighted_loop-mul, horner-zero, eval_at-horner}
use sigimora_api_backend.Feldman.{eval, random_with_secret}
use sigimora_api_backend.Frost.{
  SigningKey, FrostKeyPair, PartialSignature, FrostSignature, keygen, sign_partial,
  sign_partial_simple, compute_signing_hash, frost_tag, combine, aggregate, aggregate_simple,
  verify, verify_with_session,
}
use sigimora_api_backend.Frost.Weights.{lagrange_coefficients-lagrange_at_zero}

module _ (c : Suite) where
  open c use {Scalar, G1, G2, field, g1, g2}

  -- The partial signature is the share of a polynomial, in the exponent of `h`.
  abbrev IsPartialOf : G1 → Scalar → List Scalar → PartialSignature c → Type 0
  IsPartialOf h secret cs p = p.sigma ≡ g1.mul h (eval_at field secret cs p.signer_id)

  sigmas_of :
      (h : G1) (secret : Scalar) (cs : List Scalar) (ps : List (PartialSignature c))
      → All (IsPartialOf h secret cs) ps
      → map (λ (p : PartialSignature c). p.sigma) ps
        ≡ map (g1.mul h) (
            map
              (λ i. horner field (secret ∷ cs) (field.from_u64 i))
              (map (λ (p : PartialSignature c). p.signer_id) ps))
  sigmas_of h secret cs [] a = refl
  sigmas_of h secret cs (p ∷ ps) (e, a) =
      ap₂ ◌∷◌ (e ∙ ap (g1.mul h) (eval_at-horner field secret cs p.signer_id))
        (sigmas_of h secret cs ps a)

  -- Enough partial signatures combine to the signature of the secret.
  combine-partials :
      (h : G1) (secret : Scalar) (cs : List Scalar) (ps : List (PartialSignature c))
      → All (IsPartialOf h secret cs) ps
      → Distinct (points field (map (λ (p : PartialSignature c). p.signer_id) ps))
      → suc (length cs) ≤ length ps
      → combine c ps ≡ g1.mul h secret
  unfolding combine
  combine-partials h secret cs ps a d n =
      let ids = map (λ (p : PartialSignature c). p.signer_id) ps in
      ap₂ (weighted_loop g1 g1.identity) (sigmas_of h secret cs ps a) (
        lagrange_coefficients-lagrange_at_zero field {E = CryptoError} ids _
          (lagrange_at_zero-weights field ids d))
      ∙ weighted_loop-mul field g1 h ids (secret ∷ cs) _ refl d (
          subst (λ k. suc (length cs) ≤ k)
            (sym (length-map (λ (p : PartialSignature c). p.signer_id) ps)) n)
      ∙ ap (g1.mul h) (horner-zero field secret cs)

  -- The key pair is what `keygen` makes for its own index.
  abbrev pub IsKeyPairOf : Scalar → ℕ → ℕ → (ℕ → Scalar) → FrostKeyPair c → Type 0
  IsKeyPairOf secret t n rng k =
      ◌≡◌ {A = Outcome CryptoError (FrostKeyPair c)}
        (keygen c secret t n k.signing_key.share.index rng) (ok k)

  keygen-share :
      (secret : Scalar) (t n : ℕ) (rng : ℕ → Scalar) (k : FrostKeyPair c)
      → IsKeyPairOf secret t n rng k
      → k.signing_key.share.value
        ≡ eval_at field secret (draws rng 0 (t - 1)) k.signing_key.share.index
  unfolding keygen eval random_with_secret
  keygen-share secret t n rng k e = ground arith

  -- What a signer makes of a key pair and the message.
  module _ (h : G1) (signer : FrostKeyPair c → PartialSignature c)
      (own : (k : FrostKeyPair c) → (signer k).signer_id ≡ k.signing_key.share.index)
      (made : (k : FrostKeyPair c) → (signer k).sigma ≡ g1.mul h k.signing_key.share.value) where
    signer_ids :
        (keys : List (FrostKeyPair c))
        → map (λ (p : PartialSignature c). p.signer_id) (map signer keys)
          ≡ map (λ (k : FrostKeyPair c). k.signing_key.share.index) keys
    signer_ids [] = refl
    signer_ids (k ∷ keys) = ap₂ ◌∷◌ (own k) (signer_ids keys)

    combine-keys :
        (secret : Scalar) (t n : ℕ) (rng : ℕ → Scalar) (keys : List (FrostKeyPair c))
        → All (IsKeyPairOf secret t n rng) keys
        → Distinct (points field (map (λ k. k.signing_key.share.index) keys))
        → t ≤ length keys
        → 0 < length keys
        → combine c (map signer keys) ≡ g1.mul h secret
    combine-keys secret t n rng keys a d enough pos =
        combine-partials h secret (draws rng 0 (t - 1)) (map signer keys) (partials keys a)
          (subst (λ l. Distinct (points field l)) (sym (signer_ids keys)) d)
          (omega (arith, length-draws rng 0 (t - 1), length-map signer keys))
      where
        partials :
            (ks : List (FrostKeyPair c))
            → All (IsKeyPairOf secret t n rng) ks
            → All (IsPartialOf h secret (draws rng 0 (t - 1))) (map signer ks)
        partials [] b = tt
        partials (k ∷ ks) (e, b) = (
          made k
              ∙ ap (g1.mul h) (
                  keygen-share secret t n rng k e
                  ∙ ap (eval_at field secret (draws rng 0 (t - 1))) (sym (own k))),
          partials ks b,
        )

  -- At least `t` holders of key pairs, made by `keygen` of one secret and the same random scalars for
  -- ids that are different scalars, sign a message with `sign_partial_simple`; `aggregate_simple` makes
  -- of it a signature that names their ids and that `verify` accepts under the key of the secret.
  pub verify-aggregate_simple :
      (secret : Scalar) (t n : ℕ) (rng : ℕ → Scalar) (keys : List (FrostKeyPair c)) (msg : Bytes)
      → All (IsKeyPairOf secret t n rng) keys
      → Distinct (points field (map (λ k. k.signing_key.share.index) keys))
      → t ≤ length keys
      → 0 < length keys
      → (sig : FrostSignature c) × (aggregate_simple c
            (map (λ k. sign_partial_simple c k.signing_key msg) keys)
          ≡ ok sig)
        × (sig.signers ≡ map (λ k. k.signing_key.share.index) keys)
        × (verify c sig (g2.mul g2.generator secret) msg ≡ true)
  unfolding aggregate_simple sign_partial_simple verify
  verify-aggregate_simple secret t n rng [] msg a d enough pos = absurd (omega arith)
  verify-aggregate_simple secret t n rng (k ∷ keys) msg a d enough pos =
      let h = c.hash_to_g1 msg frost_tag in
      let signer = λ (k : FrostKeyPair c). sign_partial_simple c k.signing_key msg in
      (
        _,
        refl,
        signer_ids h signer (λ k. refl) (λ k. refl) (k ∷ keys),
        (ct_verify_bls_signature_iff c _ h secret).1 (
            combine-keys h signer (λ k. refl) (λ k. refl) secret t n rng (k ∷ keys) a d enough pos),
      )

  -- The same within a session: at least `t` and `threshold` holders of such key pairs sign the message
  -- with `sign_partial` for one epoch and one list of signers; `aggregate` makes of it a signature that
  -- `verify_with_session` accepts for that message, epoch and list under the key of the secret.
  verify_with_session-aggregate :
      (secret : Scalar) (t n : ℕ) (rng : ℕ → Scalar) (keys : List (FrostKeyPair c)) (msg : Bytes)
      (epoch : ℕ) (signers : List ℕ) (threshold : ℕ)
      → All (IsKeyPairOf secret t n rng) keys
      → Distinct (points field (map (λ k. k.signing_key.share.index) keys))
      → t ≤ length keys
      → 0 < length keys
      → threshold ≤ length keys
      → (sig : FrostSignature c) × (aggregate c
            (map (λ k. sign_partial c k.signing_key msg epoch signers) keys)
            (map (λ k. k.signing_key) keys)
            threshold
          ≡ ok sig)
        × (verify_with_session c sig (g2.mul g2.generator secret) msg epoch signers ≡ true)
  unfolding aggregate sign_partial verify_with_session
  verify_with_session-aggregate secret t n rng keys msg epoch signers threshold a d enough pos th =
      let h = compute_signing_hash c msg epoch signers in
      let signer = λ (k : FrostKeyPair c). sign_partial c k.signing_key msg epoch signers in
      let passes : ltb (length (map signer keys)) threshold ≡ false =
        ground (arith, length-map signer keys) in
      (
        record {
          sigma = combine c (map signer keys);
          signers =
              map (λ (sk : SigningKey c). sk.share.index)
                (map (λ (k : FrostKeyPair c). k.signing_key) keys);
          epoch = 1;
          transcript = [];
        },
        rw (passes) refl,
        (ct_verify_bls_signature_iff c _ h secret).1
            (combine-keys h signer (λ k. refl) (λ k. refl) secret t n rng keys a d enough pos),
      )
