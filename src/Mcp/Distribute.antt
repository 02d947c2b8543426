-- ===== src/Mcp/Distribute.antt =====
-- The share that `distribute_dkg_share` of sigimora-mcp/src/protocol.rs sends, at its recipient.
use sigimora_api_backend.Base.{ℕ, ◌<◌, ◌≡◌, refl, true, some, ok}
use sigimora_api_backend.Math.Suite.{Suite, Bytes}
use sigimora_api_backend.Pedersen.{VssShare, PrivatePoly, commit_poly, eval, verify_share}
use sigimora_api_backend.Pedersen.Laws.{verify_share-commit_poly}
use sigimora_api_backend.Dkg.{DkgState, shares_for, my_vss_public}
use sigimora_api_backend.Dkg.Ecies.{encrypt_share, decrypt_share, decrypt_share-encrypt_share}
use sigimora_api_backend.Zkp.{ComplianceProof, generate_compliance_proof}
use sigimora_api_backend.Mcp.{McpState, distribute_dkg_share, recorded_key}

module _ (c : Suite) where
  open c use {Scalar, g2}

  -- A party with a key generation under way sends, to a recipient below 2 ^ 16 whose recorded key is
  -- the public key of `sk`, what the recipient decrypts with `sk` to its share of the party's
  -- polynomial; that share passes against the commitments that the party publishes.
  pub distribute_dkg_share-decrypt_share :
      (s : McpState c) (dkg : DkgState c) (poly : PrivatePoly c) (recipient : ℕ) (sk : Scalar)
      (ephemeral_sk : Scalar) (rng_u64 : ℕ) (zkp_rng : ℕ → Scalar)
      → s.dkg_state ≡ some dkg
      → dkg.my_vss_poly ≡ some poly
      → recorded_key c recipient s ≡ some (g2.mul g2.generator sk)
      → recipient < 65536
      → (encrypted : Bytes) × (proof : ComplianceProof c) × (share : VssShare c)
        × (distribute_dkg_share c recipient ephemeral_sk rng_u64 zkp_rng s
            ≡ (s, ok (recipient, encrypted, proof)))
        × (decrypt_share c encrypted sk ≡ ok share)
        × (share.index ≡ recipient)
        × (my_vss_public c dkg ≡ some (commit_poly c poly))
        × (verify_share c (commit_poly c poly) recipient share.value share.blinding poly.pedersen
            ≡ true)
  unfolding distribute_dkg_share shares_for my_vss_public eval
  distribute_dkg_share-decrypt_share s dkg poly recipient sk ephemeral_sk rng_u64 zkp_rng d p k h =
      (
        encrypt_share c (eval c poly recipient) (g2.mul g2.generator sk) ephemeral_sk rng_u64,
        generate_compliance_proof c zkp_rng,
        eval c poly recipient,
        rw (d, p, k) refl,
        decrypt_share-encrypt_share c (eval c poly recipient) sk ephemeral_sk rng_u64 h,
        refl,
        rw (p) refl,
        (verify_share-commit_poly c poly recipient _ _).1 refl,
      )
