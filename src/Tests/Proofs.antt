-- ===== src/Tests/Proofs.antt =====
-- Runs of the theorems on zero-knowledge proofs.
use sigimora_api_backend.Base.{◌≡◌, ◌↔◌, refl, [], ◌∷◌, ok}
use sigimora_api_backend.Math.Suite.{Suite}
use sigimora_api_backend.Samples.{sample}
use sigimora_api_backend.Samples.FiveField.{five, z1, z2, z3, z4}
use sigimora_api_backend.Zkp.{
  verify_stake_proof, verify_membership_proof, generate_membership_proof, g2_challenge,
  membership_context,
}
use sigimora_api_backend.Zkp.Laws.{
  verify_stake_proof_forged, verify_membership_proof-generate_membership_proof,
}
use sigimora_api_backend.Tests.{ones, one_ne_zero, two_ne_zero}

-- A hash function whose values are never scalars.
abbrev void_hash : Suite
void_hash = record sample { sha3_256 = λ m. [] }

verify_stake_proof_forged_example :
    verify_stake_proof void_hash z4 (record { commitment = z2; response = z2 }) ≡ ok tt
verify_stake_proof_forged_example = verify_stake_proof_forged void_hash z4 z2 two_ne_zero refl

verify_membership_proof-generate_membership_proof_example :
    (verify_membership_proof sample 2 (generate_membership_proof sample z4 ones) ((2, z3) ∷ [])
      ≡ ok tt)
    ↔ (five.mul (g2_challenge sample z1 z4 membership_context) z4
        ≡ five.mul (g2_challenge sample z1 z3 membership_context) z3)
verify_membership_proof-generate_membership_proof_example =
    verify_membership_proof-generate_membership_proof sample 2 z4 z3 ((2, z3) ∷ []) ones one_ne_zero
      refl
