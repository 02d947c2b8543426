-- ===== src/Tests/Messages.antt =====
-- Runs of the theorems on the messages of the key generation and on encrypted shares.
use sigimora_api_backend.Base.{◌≡◌, refl, true, some, none, [], ◌∷◌, ok, err, arith}
use sigimora_api_backend.Math.Suite.{Bytes}
use sigimora_api_backend.Samples.{sample}
use sigimora_api_backend.Samples.FiveField.{z0, z1, z2, z3, z4}
use sigimora_api_backend.Shamir.{invalid_parameter}
use sigimora_api_backend.Pedersen.{PrivatePoly, VssShare, commit_poly, verify_share}
use sigimora_api_backend.Dkg.{DkgState, DkgRound, my_vss_public}
use sigimora_api_backend.Dkg.Message.{DkgMessage, serialize, deserialize}
use sigimora_api_backend.Dkg.Message.RoundTrip.{
  deserialize-serialize, deserialize-serialize_complaint,
}
use sigimora_api_backend.Dkg.Ecies.{decrypt_share}
use sigimora_api_backend.Zkp.{ComplianceProof}
use sigimora_api_backend.Mcp.{McpState, McpPhase, distribute_dkg_share, recorded_key}
use sigimora_api_backend.Mcp.Distribute.{distribute_dkg_share-decrypt_share}
use sigimora_api_backend.Tests.{ones}

abbrev message : DkgMessage sample
message = DkgMessage.commit 258 z3 z4 (record { commitments = z1 ∷ z2 ∷ [] })

deserialize-serialize_example : deserialize sample (serialize sample message) ≡ ok message
deserialize-serialize_example = deserialize-serialize sample message (omega arith, omega arith)

deserialize-serialize_complaint_example :
    (deserialize sample (serialize sample (DkgMessage.complaint 1 4)) ≡ ok (DkgMessage.ack 1))
    × (deserialize sample (serialize sample (DkgMessage.complaint 1 5))
        ≡ ok (DkgMessage.disqualify 1 5))
    × (deserialize sample (serialize sample (DkgMessage.complaint 1 7)) ≡ err invalid_parameter)
deserialize-serialize_complaint_example =
    deserialize-serialize_complaint sample 1 7 (omega arith) (omega arith)

abbrev poly : PrivatePoly sample
poly = record {
  coeffs_f = z3 ∷ z1 ∷ [];
  coeffs_r = z2 ∷ z4 ∷ [];
  pedersen = record { g = z1; h = z2 };
}

abbrev dkg : DkgState sample
dkg = record {
  n = 4;
  f = 1;
  t = 2;
  my_id = 1;
  my_secret = some z3;
  my_public_key = some z3;
  my_pop = none;
  my_vss_poly = some poly;
  pedersen = record { g = z1; h = z2 };
  received_public_keys = [];
  received_pops = [];
  received_vss_publics = [];
  received_shares = [];
  complaints_received = [];
  disqualifications = [];
  qual_set = [];
  qual_public_keys = [];
  round = DkgRound.round1_commit;
}

abbrev sender : McpState sample
sender = record {
  n = 4;
  t = 2;
  my_id = 1;
  phase = McpPhase.dkg_share;
  dkg_state = some dkg;
  my_signer_config = none;
  network_params = none;
  received_commits =
      (2, (z4, record { commitments = [] }, record { commitment = z0; response = z0 })) ∷ [];
  received_shares = [];
  received_sign_commits = [];
  received_sign_reveals = [];
}

distribute_dkg_share-decrypt_share_example :
    (encrypted : Bytes) × (proof : ComplianceProof sample) × (share : VssShare sample)
    × (distribute_dkg_share sample 2 z2 77 ones sender ≡ (sender, ok (2, encrypted, proof)))
    × (decrypt_share sample encrypted z4 ≡ ok share)
    × (share.index ≡ 2)
    × (my_vss_public sample dkg ≡ some (commit_poly sample poly))
    × (verify_share sample (commit_poly sample poly) 2 share.value share.blinding poly.pedersen
        ≡ true)
unfolding recorded_key
distribute_dkg_share-decrypt_share_example =
    distribute_dkg_share-decrypt_share sample sender dkg poly 2 z4 z2 77 ones refl refl refl
      (omega arith)
