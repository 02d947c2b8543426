-- ===== src/Tests/Signing.antt =====
-- Runs of the theorems on threshold signatures: two of three signers, whose shares are 3 + x.
use sigimora_api_backend.Base.{◌≡◌, refl, true, [], ◌∷◌, ok, arith}
use sigimora_api_backend.Math.Suite.{Bytes}
use sigimora_api_backend.Samples.{sample}
use sigimora_api_backend.Samples.FiveField.{Five, z0, z1, z2, z3, z4}
use sigimora_api_backend.Shamir.{eval_at}
use sigimora_api_backend.Ats.{
  SignerConfig, NetworkPublicParams, AtsSignature, aggregate, verify, trace, from_secret,
}
use sigimora_api_backend.Ats.Laws.{verify-aggregate, partials_of}
use sigimora_api_backend.Ats.Tags.{trace_lem, tags_of, IsListed}
use sigimora_api_backend.Tests.{two_and_three}

abbrev second : SignerConfig sample
second = record { node_id = 2; dkg_share = z0; dkg_share_pk = z0; lt_sk = z1; lt_pk = z1 }

abbrev third : SignerConfig sample
third = record { node_id = 3; dkg_share = z1; dkg_share_pk = z1; lt_sk = z4; lt_pk = z4 }

abbrev network : NetworkPublicParams sample
network = record {
  n = 3;
  threshold = 2;
  collective_pk = z3;
  tracking_pk = z2;
  member_pks = (1, z4) ∷ (2, z0) ∷ (3, z1) ∷ [];
  member_lt_pks = (1, z2) ∷ (2, z1) ∷ (3, z4) ∷ [];
}

abbrev random : SignerConfig sample → Five × Bytes
random s = (z2, 9 ∷ [])

verify-aggregate_example :
    (sig : AtsSignature sample) × (aggregate sample
        (partials_of sample (7 ∷ []) z2 random (second ∷ third ∷ []))
        network
        5
        2
      ≡ ok sig)
    × (verify sample network (7 ∷ []) sig ≡ true)
unfolding eval_at
verify-aggregate_example =
    verify-aggregate sample z3 (z1 ∷ []) network (7 ∷ []) random (second ∷ third ∷ []) 5 2 refl
      (refl, (refl, tt)) two_and_three (omega arith) (omega arith)

abbrev signature : AtsSignature sample
signature = record {
  combined_sig = z4;
  quorum = 2 ∷ 3 ∷ [];
  bitmap_commitment = z1;
  encrypted_tags = tags_of sample (7 ∷ []) z2 random (second ∷ third ∷ []);
  membership_proof = record { quorum_pk = z3; individual_pks = (2, z0) ∷ (3, z1) ∷ [] };
  epoch = 5;
}

IsListed-second : IsListed sample network second
IsListed-second = (omega arith, refl, refl, refl)

IsListed-third : IsListed sample network third
IsListed-third = (omega arith, refl, refl, refl)

trace_lem_example : trace sample z2 network (7 ∷ []) signature ≡ (2, z1) ∷ (3, z4) ∷ []
unfolding from_secret
trace_lem_example =
    trace_lem sample z2 network (7 ∷ []) random (second ∷ third ∷ []) signature
      (IsListed-second, (IsListed-third, tt)) refl
