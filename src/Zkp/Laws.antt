-- ===== src/Zkp/Laws.antt =====
-- Which proofs the verifiers of sigimora-mcp/src/zkp.rs accept.
use sigimora_api_backend.Base.{
  ℕ, ◌≡◌, ◌≢◌, ◌↔◌, refl, sym, ap, ◌∙◌, inl, inr, Bool, true, false, not, Option, some, none, List,
  ◌++◌, find, take, ok, ◌>>◌, guard, ◌==◌, Bool-cases, arith,
}
use sigimora_api_backend.Math.Field.{Field}
use sigimora_api_backend.Math.Group.{
  Group, generator_injective, mul-zero, add-identity, add_cancel, beq_of_eq,
}
use sigimora_api_backend.Math.Suite.{Suite, Bytes}
use sigimora_api_backend.Zkp.{
  ZkpError, identity_commitment, verification_failed, generate_stake_proof, verify_stake_proof,
  g2_challenge, generate_no_cheating_proof, verify_no_cheating_proof, generate_membership_proof,
  verify_membership_proof, fs_challenge, stake_context, membership_context, challenge_tag,
}

module _ {S : Type 0} {f : Field S} {G : Type 0} (g : Group S f G) where
  -- Schnorr's equation for a response made with the scalar `w`.
  schnorr :
      (r e w x d : S)
      → (g.mul g.generator (f.add r (f.mul e w))
          ≡ g.add (g.mul g.generator r) (g.mul (g.mul g.generator x) d))
        ↔ (f.mul e w ≡ f.mul d x)
  schnorr r e w x d = (
    λ h. generator_injective g _ _ (
        add_cancel g (g.mul g.generator r) _ _
          (sym (g.mul-add g.generator r _) ∙ h ∙ ap (g.add _) (flip))),
    λ h.
        g.mul-add g.generator r _
        ∙ ap (g.add (g.mul g.generator r)) (ap (g.mul g.generator) h ∙ sym flip),
  )
    where
      flip : g.mul (g.mul g.generator x) d ≡ g.mul g.generator (f.mul d x)
      flip = g.mul-mul g.generator x d ∙ ap (g.mul g.generator) (f.mul_comm x d)

  -- A multiple of the generator passes the check for the identity exactly if its scalar is not 0.
  not_identity : (r : S) → (not (g.beq (g.mul g.generator r) g.identity) ≡ true) ↔ (r ≢ f.zero)
  not_identity r = (
    λ h e.
        let same : g.beq (g.mul g.generator r) g.identity ≡ true =
          beq_of_eq g (ap (g.mul g.generator) e ∙ mul-zero g g.generator) in
        ground (arith, h, same),
    λ h. elim (Bool-cases (g.beq (g.mul g.generator r) g.identity)) [
      | inl e ↦ absurd (h (g.generator_free r ((g.beq_iff _ _).0 e)))
      | inr e ↦ ap not e
    ],
  )

guard_iff : {E : Type 0} (b : Bool) (e : E) → (guard b e ≡ ok tt) ↔ (b ≡ true)
guard_iff true e = (λ h. refl, λ h. refl)
guard_iff false e = (λ h. cc, λ h. cc)

guards_iff :
    {E : Type 0} (b d : Bool) (e e' : E)
    → ((guard b e >> guard d e') ≡ ok tt) ↔ ((b ≡ true) × (d ≡ true))
guards_iff true d e e' = (λ h. (refl, (guard_iff d e').0 h), λ h. (guard_iff d e').1 h.1)
guards_iff false d e e' = (λ h. cc, λ h. cc)

module _ (c : Suite) where
  open c use {Scalar, G1, G2, field, g1, g2}

  -- Whoever knows the secret key of a public key passes the stake check, and only the nonce 0 fails.
  verify_stake_proof-generate_stake_proof :
      (secret : Scalar) (rng : ℕ → Scalar)
      → (verify_stake_proof c
            (g2.mul g2.generator secret)
            (generate_stake_proof c (g2.mul g2.generator secret) (some secret) rng)
          ≡ ok tt)
        ↔ (rng 0 ≢ field.zero)
  unfolding verify_stake_proof generate_stake_proof
  verify_stake_proof-generate_stake_proof secret rng =
      let (accepted, needed) = guards_iff _ _ identity_commitment verification_failed in
      (
        λ h. (not_identity g2 (rng 0)).0 (accepted h).0,
        λ h. needed (
          (not_identity g2 (rng 0)).1 h,
          (g2.beq_iff _ _).1 ((schnorr g2 (rng 0) _ secret secret _).1 refl),
        ),
      )

  g2_challenge-none :
      (commitment pk : G2) (context : Bytes)
      → c.scalar_code.from_bytes (
          take 32 (
            c.sha3_256
              (challenge_tag ++ context ++ c.g2_code.to_bytes commitment ++ c.g2_code.to_bytes pk)))
        ≡ none
      → g2_challenge c commitment pk context ≡ field.zero
  unfolding g2_challenge fs_challenge
  g2_challenge-none commitment pk context e =
      ap (λ (o : Option Scalar). elim o [ none ↦ field.zero | some d ↦ d ]) e

  -- Where the hash of the challenge encodes no scalar, the challenge is 0, and a proof that needs no
  -- secret passes for any public key.
  pub verify_stake_proof_forged :
      (public_key : G2) (s : Scalar)
      → s ≢ field.zero
      → c.scalar_code.from_bytes (
          take 32 (
            c.sha3_256 (
              challenge_tag
              ++ stake_context
              ++ c.g2_code.to_bytes (g2.mul g2.generator s)
              ++ c.g2_code.to_bytes public_key)))
        ≡ none
      → verify_stake_proof c public_key
          (record { commitment = g2.mul g2.generator s; response = s })
        ≡ ok tt
  unfolding verify_stake_proof
  verify_stake_proof_forged public_key s h e =
      (guards_iff _ _ identity_commitment verification_failed).1 (
        (not_identity g2 s).1 h,
        (g2.beq_iff _ _).1 (
            sym (
              ap (λ d. g2.add (g2.mul g2.generator s) (g2.mul public_key d))
                (g2_challenge-none _ public_key stake_context e)
              ∙ ap (g2.add _) (mul-zero g2 public_key)
              ∙ add-identity g2 _)),
      )

  -- The proof of a share is accepted for exactly one commitment: the share's own.
  verify_no_cheating_proof-generate_no_cheating_proof :
      (share : Scalar) (rng : ℕ → Scalar) (expected : G1)
      → (verify_no_cheating_proof c (generate_no_cheating_proof c share rng) expected ≡ ok tt)
        ↔ (expected ≡ g1.mul g1.generator share)
  unfolding verify_no_cheating_proof generate_no_cheating_proof
  verify_no_cheating_proof-generate_no_cheating_proof share rng expected =
      let (accepted, needed) = guards_iff _ _ ZkpError.commitment_mismatch verification_failed in
      (
        λ h. sym ((g1.beq_iff _ _).0 (accepted h).0),
        λ h. needed (
          (g1.beq_iff _ _).1 (sym h),
          (g1.beq_iff _ _).1 ((schnorr g1 (rng 0) _ share share _).1 refl),
        ),
      )

  -- A signer proves its long-term key, and the proof is checked against its entry in `member_pks`,
  -- the public key of its share: with a nonce other than 0 it is accepted exactly if the long-term
  -- key and the share, each times its own challenge, agree.
  pub verify_membership_proof-generate_membership_proof :
      (id : ℕ) (lt_sk share : Scalar) (member_pks : List (ℕ × G2)) (rng : ℕ → Scalar)
      → rng 0 ≢ field.zero
      → find (λ m. m.0 == id) member_pks ≡ some (id, g2.mul g2.generator share)
      → (verify_membership_proof c id (generate_membership_proof c lt_sk rng) member_pks ≡ ok tt)
        ↔ (field.mul
              (g2_challenge c
                (g2.mul g2.generator (rng 0))
                (g2.mul g2.generator lt_sk)
                membership_context)
              lt_sk
            ≡ field.mul
                (g2_challenge c
                  (g2.mul g2.generator (rng 0))
                  (g2.mul g2.generator share)
                  membership_context)
                share)
  unfolding verify_membership_proof generate_membership_proof
  verify_membership_proof-generate_membership_proof id lt_sk share member_pks rng h e = rw (e) (
      let (accepted, needed) = guards_iff _ _ identity_commitment verification_failed in
      (
        λ a. (schnorr g2 (rng 0) _ lt_sk share _).0 ((g2.beq_iff _ _).0 (accepted a).1),
        λ a. needed (
          (not_identity g2 (rng 0)).1 h,
          (g2.beq_iff _ _).1 ((schnorr g2 (rng 0) _ lt_sk share _).1 a),
        ),
      ))
