-- ===== src/Tests/Protocol.antt =====
-- Runs of the theorems on the MPC state machine.
use sigimora_api_backend.Base.{
  ◌≤◌, ◌<◌, ◌≡◌, refl, ◌⊎◌, inl, false, none, some, [], ◌∷◌, length, ok, err, arith,
}
use sigimora_api_backend.Samples.{sample}
use sigimora_api_backend.Samples.FiveField.{z1, z2, z3, z4}
use sigimora_api_backend.Pedersen.{PedersenSetup}
use sigimora_api_backend.Zkp as Zkp
use sigimora_api_backend.Ats as Ats
use sigimora_api_backend.Shamir.{lagrange_at_zero, lagrange_loop, lagrange_terms}
use sigimora_api_backend.Math.Group.{weighted_loop}
use sigimora_api_backend.Zkp.{
  ComplianceProof, verify_compliance_proof, generate_stake_proof, generate_membership_proof,
}
use sigimora_api_backend.Ats.{
  NetworkPublicParams, AtsSignature, PartialSignature, aggregate, create_bitmap_commitment,
}
use sigimora_api_backend.Mcp.{
  McpState, McpPhase, McpError, new, start_dkg, process_dkg_share, finalize_dkg,
  start_signing_round, process_sign_commitment, process_sign_reveal, combine_signatures,
  verify_combined_signature, is_ready, quorum_size, transition_to,
}
use sigimora_api_backend.Mcp.Steps.{
  Steps, Moves, called, moved, none_yet, one_more, started_dkg, finalized_dkg, started_signing,
  got_sign_commitment, got_sign_reveal,
}
use sigimora_api_backend.Mcp.Deadlock.{
  dead-Steps, finalize_dkg-process_dkg_share, verify_combined_signature-combine_signatures,
}
use sigimora_api_backend.Mcp.Quorum.{combine_signatures-ready}
use sigimora_api_backend.Mcp.Unfed.{finalize_dkg-new}
use sigimora_api_backend.Tests.{ones}

abbrev setup : PedersenSetup sample
setup = record { g = z1; h = z2 }

abbrev proof : ComplianceProof sample
proof = record { eval_proof = z1; response = z1 }

abbrev at_phase : McpPhase → McpState sample
at_phase p = record {
  n = 2;
  t = 1;
  my_id = 1;
  phase = p;
  dkg_state = none;
  my_signer_config = none;
  network_params = none;
  received_commits = [];
  received_shares = [];
  received_sign_commits = [];
  received_sign_reveals = [];
}

dead-Steps_example :
    ((finalize_dkg sample (start_signing_round sample (at_phase McpPhase.dkg_verify)).0).0
      ≡ at_phase McpPhase.dkg_verify)
    × (((transition_to sample McpPhase.ready (at_phase McpPhase.dkg_verify)).0
          ≡ at_phase McpPhase.dkg_verify)
        ⊎ Moves sample
            (at_phase McpPhase.ready)
            (transition_to sample McpPhase.ready (at_phase McpPhase.dkg_verify)).0)
dead-Steps_example =
    dead-Steps sample (at_phase McpPhase.dkg_verify) _ _
      (one_more _ _ (one_more _ _ none_yet started_signing) finalized_dkg)
      (one_more _ _ none_yet (moved McpPhase.ready)) (inl refl)

abbrev all_shares : McpState sample
all_shares = (process_dkg_share sample 2 (9 ∷ []) proof (at_phase McpPhase.dkg_share)).0

finalize_dkg-process_dkg_share_example :
    ((finalize_dkg sample all_shares).1
      ≡ err (McpError.invalid_state_transition McpPhase.dkg_verify McpPhase.dkg_verify))
    × ((finalize_dkg sample (transition_to sample McpPhase.ready all_shares).0).1
        ≡ err (
            McpError.invalid_state_transition
              (transition_to sample McpPhase.ready all_shares).0.phase
              McpPhase.dkg_verify))
unfolding verify_compliance_proof process_dkg_share transition_to
finalize_dkg-process_dkg_share_example =
    finalize_dkg-process_dkg_share sample (at_phase McpPhase.dkg_share) _ _ 2 (9 ∷ []) proof refl
      refl (omega arith) none_yet (one_more _ _ none_yet (moved McpPhase.ready))

abbrev network : NetworkPublicParams sample
network = record {
  n = 2;
  threshold = 1;
  collective_pk = z3;
  tracking_pk = z2;
  member_pks = (1, z3) ∷ (2, z4) ∷ [];
  member_lt_pks = [];
}

abbrev partial : PartialSignature sample
partial = record {
  node_id = 1;
  sigma = z4;
  encrypted_tag = record { node_id = 1; ephemeral_pk = z1; ciphertext = []; nonce = [] };
}

abbrev revealed : McpState sample
revealed = record (at_phase McpPhase.sign_reveal) {
  received_sign_reveals = (1, partial, proof) ∷ [];
}

abbrev signature : AtsSignature sample
signature = record {
  combined_sig = z4;
  quorum = 1 ∷ [];
  bitmap_commitment = z3;
  encrypted_tags = record { node_id = 1; ephemeral_pk = z1; ciphertext = []; nonce = [] } ∷ [];
  membership_proof = record { quorum_pk = z3; individual_pks = (1, z3) ∷ [] };
  epoch = 5;
}

combined_once : (combine_signatures sample network 5 revealed).1 ≡ ok signature
unfolding combine_signatures transition_to aggregate create_bitmap_commitment lagrange_at_zero
    lagrange_loop lagrange_terms weighted_loop
combined_once = refl

verify_combined_signature-combine_signatures_example :
    ((verify_combined_signature sample network [] signature
        (combine_signatures sample network 5 revealed).0).1
      ≡ err (McpError.invalid_state_transition McpPhase.verify_zkp McpPhase.verify_zkp))
    × ((start_signing_round sample (combine_signatures sample network 5 revealed).0).1
        ≡ err (McpError.invalid_state_transition McpPhase.verify_zkp McpPhase.sign_commit))
    × (transition_to sample McpPhase.ready (combine_signatures sample network 5 revealed).0 ≡ (
      record (combine_signatures sample network 5 revealed).0 { phase = McpPhase.ready },
      ok tt,
    ))
verify_combined_signature-combine_signatures_example =
    verify_combined_signature-combine_signatures sample revealed _ network 5 signature signature []
      combined_once none_yet

-- One of two parties, ready to sign with a threshold of two signatures.
abbrev finished : McpState sample
finished = record (at_phase McpPhase.ready) { network_params = some network }

abbrev signing : McpState sample
signing = (start_signing_round sample finished).0

abbrev first_commitment : McpState sample
first_commitment =
    (process_sign_commitment sample 1 z4 (generate_membership_proof sample z3 ones) signing).0

abbrev second_commitment : McpState sample
second_commitment =
    (process_sign_commitment sample 2 z4 (generate_membership_proof sample z4 ones)
      first_commitment).0

abbrev one_reveal : McpState sample
one_reveal = (process_sign_reveal sample 1 partial proof second_commitment).0

to_one_reveal : Steps sample finished one_reveal
to_one_reveal =
    one_more _ _
      (one_more _ _
        (one_more _ _ (one_more _ _ none_yet started_signing)
          (got_sign_commitment 1 z4 (generate_membership_proof sample z3 ones)))
        (got_sign_commitment 2 z4 (generate_membership_proof sample z4 ones)))
      (got_sign_reveal 1 partial proof)

combined_below : (combine_signatures sample network 5 one_reveal).1 ≡ ok signature
unfolding combine_signatures process_sign_reveal process_sign_commitment start_signing_round
    generate_membership_proof Zkp.verify_membership_proof aggregate create_bitmap_commitment
    Ats.insert Ats.pks_of Ats.sort weighted_loop quorum_size transition_to lagrange_at_zero
    lagrange_loop lagrange_terms Zkp.fs_challenge Zkp.g2_challenge verify_compliance_proof
combined_below = refl

combine_signatures-ready_example :
    (length one_reveal.received_sign_reveals < quorum_size sample one_reveal)
    × (1 ≤ length one_reveal.received_sign_reveals)
combine_signatures-ready_example =
    combine_signatures-ready sample finished one_reveal network 5 signature refl to_one_reveal
      combined_below

-- Two parties: the first is created and starts, and then finishes, or is moved on first.
abbrev pair_created : McpState sample
pair_created = record (new sample 2 1 1) { network_params = none }

abbrev pair_started : McpState sample
pair_started = (start_dkg sample setup ones ones ones pair_created).0

abbrev pair_moved : McpState sample
pair_moved = (transition_to sample McpPhase.dkg_share pair_started).0

finalize_dkg-new_example :
    ((finalize_dkg sample pair_moved ≡ (
      pair_moved,
      err (McpError.invalid_state_transition pair_moved.phase McpPhase.dkg_verify),
    ))
      ⊎ ((finalize_dkg sample pair_moved).1 ≡ err McpError.dkg_error))
    × (is_ready sample (finalize_dkg sample pair_started).0 ≡ false)
finalize_dkg-new_example =
    finalize_dkg-new sample 2 1 1 none pair_moved _ (omega arith)
      (one_more _ _ (one_more _ _ none_yet (called (started_dkg setup ones ones ones)))
        (moved McpPhase.dkg_share))
      (one_more _ _ (one_more _ _ none_yet (started_dkg setup ones ones ones)) finalized_dkg)

-- `finished` is what `transition_to` makes of a new party.
finished_moved : Moves sample (record (new sample 2 1 1) { network_params = some network }) finished
unfolding new transition_to
finished_moved =
    one_more _ _
      (one_more _ _
        (one_more _ _ (one_more _ _ none_yet (moved McpPhase.dkg_commit))
          (moved McpPhase.dkg_share))
        (moved McpPhase.dkg_verify))
      (moved McpPhase.ready)
