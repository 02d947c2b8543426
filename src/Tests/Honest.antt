-- ===== src/Tests/Honest.antt =====
-- Runs of the theorems on a key generation between two parties, with the polynomials 1 + x and 2 + x.
use sigimora_api_backend.Base.{ℕ, ◌≡◌, refl, true, [], ◌∷◌, ok, arith}
use sigimora_api_backend.Math.Suite.{Bytes}
use sigimora_api_backend.Samples.{sample}
use sigimora_api_backend.Samples.FiveField.{Five, five, z0, z1, z2, z3, z4}
use sigimora_api_backend.Shamir.{CryptoError}
use sigimora_api_backend.Shamir.Poly.{horner}
use sigimora_api_backend.Shamir.Interpolation.{Distinct}
use sigimora_api_backend.Pedersen as Pedersen
use sigimora_api_backend.Pedersen.{PedersenSetup}
use sigimora_api_backend.Ats.{SignerConfig, NetworkPublicParams, AtsSignature, aggregate, verify}
use sigimora_api_backend.Ats.Laws.{partials_of}
use sigimora_api_backend.Dkg.{
  DkgState, DkgOutput, new, start, finalize, process_participant_commit, process_received_share,
  verify_pop, compute_secret_share, compute_collective_public_key, sort_by_key,
}
use sigimora_api_backend.Dkg.Honest.{Dealer, deliver}
use sigimora_api_backend.Dkg.Honest.Agreement.{finalize-deliver, joint, Ends}
use sigimora_api_backend.Dkg.Honest.Signing.{verify-aggregate-finalize}
use sigimora_api_backend.Tests.{ones}

abbrev setup : PedersenSetup sample
setup = record { g = z1; h = z2 }

abbrev first : Dealer sample
first = record { id = 1; rng = ones; os_rng = ones }

abbrev second : Dealer sample
second = record { id = 2; rng = λ k. z2; os_rng = ones }

one_ne_two : Distinct {S = ℕ} (1 ∷ 2 ∷ [])
one_ne_two = ((λ e. absurd (omega (arith, e)), tt), (tt, tt))

finalize-deliver_example :
    (fresh s : DkgState sample) × (out : DkgOutput sample) × (new sample {E = CryptoError} 2 2 1
        setup
      ≡ ok fresh)
    × (deliver sample 2 setup (second ∷ []) (start sample ones ones fresh) ≡ ok s)
    × ((finalize sample s).1 ≡ ok out)
    × (out.my_secret ≡ horner five (joint sample 2 2 setup (first ∷ second ∷ [])) z1)
    × (out.collective_pk
        ≡ five.mul z1 (horner five (joint sample 2 2 setup (first ∷ second ∷ [])) z0))
finalize-deliver_example =
    finalize-deliver sample 2 2 setup [] first (second ∷ []) (omega arith)
      ((omega arith, omega arith), ((omega arith, omega arith), tt)) one_ne_two (omega arith)

abbrev first_result : DkgOutput sample
first_result = record {
  my_secret = z0;
  my_public_key = z0;
  all_public_keys = z1 ∷ z2 ∷ [];
  n = 2;
  f = 0;
  t = 2;
  qual_set = 1 ∷ 2 ∷ [];
  collective_pk = z3;
}

abbrev second_result : DkgOutput sample
second_result = record first_result { my_secret = z2; my_public_key = z2 }

first-Ends : Ends sample 2 2 setup (first ∷ second ∷ []) first first_result
unfolding Ends new start deliver finalize process_participant_commit verify_pop
    process_received_share Pedersen.verify_share Pedersen.eval Pedersen.random_with_secret
    Pedersen.commit_poly compute_secret_share compute_collective_public_key sort_by_key
first-Ends = ([], second ∷ [], _, _, refl, refl, refl, refl)

second-Ends : Ends sample 2 2 setup (first ∷ second ∷ []) second second_result
unfolding Ends new start deliver finalize process_participant_commit verify_pop
    process_received_share Pedersen.verify_share Pedersen.eval Pedersen.random_with_secret
    Pedersen.commit_poly compute_secret_share compute_collective_public_key sort_by_key
second-Ends = (first ∷ [], [], _, _, refl, refl, refl, refl)

abbrev first_signer : SignerConfig sample
first_signer = record { node_id = 1; dkg_share = z0; dkg_share_pk = z0; lt_sk = z1; lt_pk = z1 }

abbrev second_signer : SignerConfig sample
second_signer = record { node_id = 2; dkg_share = z2; dkg_share_pk = z2; lt_sk = z4; lt_pk = z4 }

abbrev network : NetworkPublicParams sample
network = record {
  n = 2;
  threshold = 2;
  collective_pk = z3;
  tracking_pk = z2;
  member_pks = (1, z0) ∷ (2, z2) ∷ [];
  member_lt_pks = [];
}

abbrev random : SignerConfig sample → Five × Bytes
random s = (z2, 9 ∷ [])

ids_apart : Distinct (z1 ∷ z2 ∷ [])
ids_apart = ((λ e. cc, tt), (tt, tt))

verify-aggregate-finalize_example :
    (sig : AtsSignature sample) × (aggregate sample
        (partials_of sample (7 ∷ []) z2 random (first_signer ∷ second_signer ∷ []))
        network
        5
        2
      ≡ ok sig)
    × (verify sample network (7 ∷ []) sig ≡ true)
verify-aggregate-finalize_example =
    verify-aggregate-finalize sample 2 2 setup first (second ∷ []) first first_result
      ((first_signer, first, first_result) ∷ (second_signer, second, second_result) ∷ []) network
      (7 ∷ []) random 5 2 (omega arith)
      ((omega arith, omega arith), ((omega arith, omega arith), tt)) one_ne_two (omega arith)
      first-Ends refl ((first-Ends, refl, refl), ((second-Ends, refl, refl), tt)) ids_apart
      (omega arith) (omega arith) (omega arith)
