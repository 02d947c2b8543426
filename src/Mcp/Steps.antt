-- ===== src/Mcp/Steps.antt =====
-- The calls that a party of the MPC protocol can receive, as step relations on its state.
-- `McpProtocol.state` is public, so that a caller can also use its `transition_to`: a `Step` is a call
-- of a method of `McpProtocol`, a `Move` is a step or a call of `transition_to`. A caller that assigns
-- to the fields of the state is left out.
use sigimora_api_backend.Base.{ℕ}
use sigimora_api_backend.Math.Suite.{Suite, Bytes}
use sigimora_api_backend.Pedersen.{PedersenSetup, VssPublic}
use sigimora_api_backend.Zkp.{StakeProof, ComplianceProof, MembershipProof}
use sigimora_api_backend.Ats.{PartialSignature, NetworkPublicParams, AtsSignature}
use sigimora_api_backend.Mcp.{
  McpState, McpPhase, transition_to, start_dkg, process_dkg_commit, process_dkg_share, finalize_dkg,
  start_signing_round, process_sign_commitment, process_sign_reveal, combine_signatures,
  verify_combined_signature,
}

module _ (c : Suite) where
  -- One call of one method of `McpProtocol`, whatever it returns.
  pub data Step (s : McpState c) : McpState c → Type 0 where
    started_dkg :
        (pedersen : PedersenSetup c) (sk_rng os_rng zkp_rng : ℕ → c.Scalar)
        → Step s (start_dkg c pedersen sk_rng os_rng zkp_rng s).0
    got_dkg_commit :
        (from : ℕ) (public_key : c.G2) (vss_public : VssPublic c) (proof : StakeProof c)
        → Step s (process_dkg_commit c from public_key vss_public proof s).0
    got_dkg_share :
        (from : ℕ) (share : Bytes) (proof : ComplianceProof c)
        → Step s (process_dkg_share c from share proof s).0
    finalized_dkg : Step s (finalize_dkg c s).0
    started_signing : Step s (start_signing_round c s).0
    got_sign_commitment :
        (from : ℕ) (commitment : c.G1) (proof : MembershipProof c)
        → Step s (process_sign_commitment c from commitment proof s).0
    got_sign_reveal :
        (from : ℕ) (partial : PartialSignature c) (proof : ComplianceProof c)
        → Step s (process_sign_reveal c from partial proof s).0
    combined :
        (params : NetworkPublicParams c) (epoch : ℕ)
        → Step s (combine_signatures c params epoch s).0
    verified :
        (params : NetworkPublicParams c) (msg : Bytes) (sig : AtsSignature c)
        → Step s (verify_combined_signature c params msg sig s).0

  pub data Move (s : McpState c) : McpState c → Type 0 where
    called : {s' : McpState c} → Step s s' → Move s s'
    moved : (phase : McpPhase) → Move s (transition_to c phase s).0

  -- Any number of calls.
  pub data Many (R : McpState c → McpState c → Type 0) (s : McpState c) : McpState c → Type 0 where
    none_yet : Many R s s
    one_more : (s' s'' : McpState c) → Many R s s' → R s' s'' → Many R s s''

  abbrev pub Steps : McpState c → McpState c → Type 0
  Steps = Many Step

  abbrev pub Moves : McpState c → McpState c → Type 0
  Moves = Many Move

  -- What every call keeps, every sequence of calls keeps.
  pub Many-keep :
      (R : McpState c → McpState c → Type 0) (P : McpState c → Type 0) {s s' : McpState c}
      → ((s s' : McpState c) → R s s' → P s → P s')
      → Many R s s'
      → P s
      → P s'
  Many-keep R P h none_yet p = p
  Many-keep R P h (one_more s' s'' ss st) p = h s' s'' st (Many-keep R P h ss p)
