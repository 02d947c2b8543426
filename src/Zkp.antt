-- ===== src/Zkp.antt =====
-- sigimora-mcp/src/zkp.rs: the proofs that parties attach to protocol messages. The scalars that
-- `OsRng` yields are arguments; an error is its kind, not its text.
pub mod Laws
use sigimora_api_backend.Base.{
  ℕ, Bool, not, Option, some, none, List, ◌∷◌, [], ◌++◌, find, take, length, u16, Outcome, ok, err,
  ◌>>=◌, ◌>>◌, guard, ok_or, ltb, ◌==◌,
}
use sigimora_api_backend.Math.Suite.{Suite, Bytes}

-- `b"SIGIMORA-ZKP-CHALLENGE"`, and the three contexts.
abbrev pub challenge_tag : Bytes
challenge_tag =
    83 ∷ 73 ∷ 71 ∷ 73 ∷ 77 ∷ 79 ∷ 82 ∷ 65 ∷ 45 ∷ 90 ∷ 75 ∷ 80 ∷ 45 ∷ 67 ∷ 72 ∷ 65 ∷ 76 ∷ 76 ∷ 69
    ∷ 78 ∷ 71 ∷ 69 ∷ []

abbrev pub stake_context : Bytes
stake_context = 83 ∷ 84 ∷ 65 ∷ 75 ∷ 69 ∷ 45 ∷ 80 ∷ 82 ∷ 79 ∷ 79 ∷ 70 ∷ []

abbrev no_cheating_context : Bytes
no_cheating_context = 78 ∷ 79 ∷ 45 ∷ 67 ∷ 72 ∷ 69 ∷ 65 ∷ 84 ∷ 73 ∷ 78 ∷ 71 ∷ []

abbrev pub membership_context : Bytes
membership_context =
    77 ∷ 69 ∷ 77 ∷ 66 ∷ 69 ∷ 82 ∷ 83 ∷ 72 ∷ 73 ∷ 80 ∷ 45 ∷ 80 ∷ 82 ∷ 79 ∷ 79 ∷ 70 ∷ []

pub data ZkpError : Type 0 where
  identity_commitment verification_failed commitment_mismatch : ZkpError
  threshold_not_reached : ℕ → ℕ → ZkpError
  not_authorized : ℕ → ZkpError

pub record ThresholdProof : Type 0 where
  pub participant_count : ℕ

-- `partials` is only counted.
unfoldable generate_threshold_proof : {A : Type 0} → List A → ThresholdProof
generate_threshold_proof partials = record { participant_count = u16 (length partials) }

unfoldable verify_threshold_proof : ThresholdProof → ℕ → Outcome ZkpError (Unit {0})
verify_threshold_proof proof required =
    guard (not (ltb proof.participant_count required))
      (threshold_not_reached proof.participant_count required)

module _ (c : Suite) where
  open c use {Scalar, G1, G2, field, g1, g2}

  -- The first 32 bytes of the hash, or 0 where they are no scalar.
  unfoldable pub fs_challenge : Bytes → Bytes → Bytes → Scalar
  fs_challenge commitment public_data context =
      elim (c.scalar_code.from_bytes
        (take 32 (c.sha3_256 (challenge_tag ++ context ++ commitment ++ public_data)))) [
          | none ↦ field.zero
          | some challenge ↦ challenge
        ]

  pub record StakeProof : Type 0 where
    pub commitment : G2
    pub response : Scalar

  pub record ComplianceProof : Type 0 where
    pub eval_proof : G1
    pub response : Scalar

  pub record NoCheatingProof : Type 0 where
    original_commitment : G1
    consistency_proof : Scalar
    verification_scalar : G1

  pub record MembershipProof : Type 0 where
    membership_commitment : G2
    pub response : Scalar

  -- The two scalars of the challenge that the G2 proofs share.
  unfoldable pub g2_challenge : G2 → G2 → Bytes → Scalar
  unfolding fs_challenge
  g2_challenge commitment pk context =
      fs_challenge (c.g2_code.to_bytes commitment) (c.g2_code.to_bytes pk) context

  unfoldable pub generate_stake_proof : G2 → Option Scalar → (ℕ → Scalar) → StakeProof
  unfolding g2_challenge
  generate_stake_proof public_key none rng =
      let r_commit = g2.mul g2.generator (rng 1) in
      record {
        commitment = r_commit;
        response =
            field.add (rng 1) (field.mul (g2_challenge r_commit public_key stake_context) (rng 0));
      }
  generate_stake_proof public_key (some secret) rng =
      let r_commit = g2.mul g2.generator (rng 0) in
      record {
        commitment = r_commit;
        response =
            field.add (rng 0) (field.mul (g2_challenge r_commit public_key stake_context) secret);
      }

  unfoldable pub verify_stake_proof : G2 → StakeProof → Outcome ZkpError (Unit {0})
  unfolding g2_challenge
  verify_stake_proof public_key proof = do
    guard (not (g2.beq proof.commitment g2.identity)) identity_commitment
    let challenge = g2_challenge proof.commitment public_key stake_context
    guard
        (g2.beq (g2.mul g2.generator proof.response)
          (g2.add proof.commitment (g2.mul public_key challenge)))
        verification_failed

  -- The share and the commitments that are passed are not read.
  unfoldable pub generate_compliance_proof : (ℕ → Scalar) → ComplianceProof
  generate_compliance_proof rng = record {
    eval_proof = g1.mul g1.generator (rng 0);
    response = rng 0;
  }

  -- The sender and the share that are passed are not read.
  unfoldable pub verify_compliance_proof : ℕ → Bytes → ComplianceProof → Outcome ZkpError (Unit {0})
  verify_compliance_proof from encrypted_share proof =
      guard (not (g1.beq proof.eval_proof g1.identity)) identity_commitment

  unfoldable g1_challenge : G1 → G1 → Bytes → Scalar
  unfolding fs_challenge
  g1_challenge commitment point context =
      fs_challenge (c.g1_code.to_bytes commitment) (c.g1_code.to_bytes point) context

  unfoldable pub generate_no_cheating_proof : Scalar → (ℕ → Scalar) → NoCheatingProof
  unfolding g1_challenge
  generate_no_cheating_proof original_share rng =
      let r_commit = g1.mul g1.generator (rng 0) in
      let commitment = g1.mul g1.generator original_share in
      record {
        original_commitment = commitment;
        consistency_proof =
            field.add (rng 0)
              (field.mul (g1_challenge r_commit commitment no_cheating_context) original_share);
        verification_scalar = r_commit;
      }

  unfoldable pub verify_no_cheating_proof : NoCheatingProof → G1 → Outcome ZkpError (Unit {0})
  unfolding g1_challenge
  verify_no_cheating_proof proof expected = do
    guard (g1.beq proof.original_commitment expected) commitment_mismatch
    let challenge =
        g1_challenge proof.verification_scalar proof.original_commitment no_cheating_context
    guard
        (g1.beq (g1.mul g1.generator proof.consistency_proof)
          (g1.add proof.verification_scalar (g1.mul proof.original_commitment challenge)))
        verification_failed

  -- The signer's long-term secret key is the witness.
  unfoldable pub generate_membership_proof : Scalar → (ℕ → Scalar) → MembershipProof
  unfolding g2_challenge
  generate_membership_proof lt_sk rng =
      let r_commit = g2.mul g2.generator (rng 0) in
      record {
        membership_commitment = r_commit;
        response = field.add (rng 0) (
            field.mul (g2_challenge r_commit (g2.mul g2.generator lt_sk) membership_context) lt_sk);
      }

  -- The keys of `params.member_pks` are what the proof is checked against.
  unfoldable pub verify_membership_proof :
      ℕ → MembershipProof → List (ℕ × G2) → Outcome ZkpError (Unit {0})
  unfolding g2_challenge
  verify_membership_proof from proof member_pks = do
    guard (not (g2.beq proof.membership_commitment g2.identity)) identity_commitment
    member ← ok_or (find (λ m. m.0 == from) member_pks) (not_authorized from)
    let challenge = g2_challenge proof.membership_commitment member.1 membership_context
    guard
        (g2.beq (g2.mul g2.generator proof.response)
          (g2.add proof.membership_commitment (g2.mul member.1 challenge)))
        verification_failed
