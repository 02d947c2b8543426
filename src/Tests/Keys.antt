-- ===== src/Tests/Keys.antt =====
-- Runs of the theorems on keys, signatures and complaints.
use sigimora_api_backend.Base.{refl, ok, ℕ, Option, ◌≡◌, ◌↔◌, true, List, [], ◌∷◌, map}
use sigimora_api_backend.Samples.{sample}
use sigimora_api_backend.Samples.FiveField.{z0, z1, z2, z3, z4}
use sigimora_api_backend.Bls as Bls
use sigimora_api_backend.Bls.{
  verify-sign, verify_pop-proof_of_possession, verify_aggregate-aggregate,
}
use sigimora_api_backend.Dkg.{DkgState, DkgRound, is_disqualified}
use sigimora_api_backend.Pedersen.{eval}
use sigimora_api_backend.Dkg.{
  DkgOutput, sort_by_key, finalize, compute_secret_share, compute_collective_public_key,
}
use sigimora_api_backend.Dkg.Qual.{IsOrder, complain_times, complain_times-is_disqualified}

verify_aggregate-aggregate_example :
    (Bls.verify_aggregate sample
        (Bls.aggregate_keys sample (map (Bls.public_key sample) (z1 ∷ z3 ∷ [])))
        (7 ∷ [])
        z2
      ≡ true)
    ↔ (z2
        ≡ Bls.aggregate_signatures sample (map (λ sk. Bls.sign sample sk (7 ∷ [])) (z1 ∷ z3 ∷ [])))
verify_aggregate-aggregate_example = verify_aggregate-aggregate sample (z1 ∷ z3 ∷ []) (7 ∷ []) z2

-- Four parties, of which one may be faulty; party 3 has been complained about once.
abbrev party : DkgState sample
party = record {
  n = 4;
  f = 1;
  t = 2;
  my_id = 1;
  my_secret = Option.none;
  my_public_key = Option.none;
  my_pop = Option.none;
  my_vss_poly = Option.none;
  pedersen = record { g = z1; h = z2 };
  received_public_keys = [];
  received_pops = [];
  received_vss_publics = [];
  received_shares = [];
  complaints_received = (2, 3) ∷ [];
  disqualifications = 4 ∷ [];
  qual_set = [];
  qual_public_keys = [];
  round = DkgRound.round2_complaint;
}

abbrev in_order : List (ℕ × ℕ) → List (ℕ × ℕ)
in_order l = l

in_order-IsOrder : IsOrder in_order
in_order-IsOrder l e = (λ m. m, λ m. m)

complain_times-is_disqualified_example :
    is_disqualified sample 2 (complain_times sample 2 in_order 1 2 party) ≡ true
complain_times-is_disqualified_example =
    complain_times-is_disqualified sample in_order 1 2 party in_order-IsOrder

-- One of two parties, with the other's key and share.
abbrev generating : DkgState sample
generating = record party {
  n = 2;
  f = 0;
  my_secret = Option.some z3;
  my_public_key = Option.some z3;
  my_vss_poly = Option.some (record {
    coeffs_f = z3 ∷ z1 ∷ [];
    coeffs_r = z1 ∷ z1 ∷ [];
    pedersen = record { g = z1; h = z2 };
  });
  received_public_keys = (2, z1) ∷ [];
  received_shares = (2, record { index = 1; value = z2; blinding = z0 }) ∷ [];
  complaints_received = [];
  disqualifications = [];
}

abbrev output : DkgOutput sample
output = record {
  my_secret = z1;
  my_public_key = z1;
  all_public_keys = z3 ∷ z1 ∷ [];
  n = 2;
  f = 0;
  t = 2;
  qual_set = 1 ∷ 2 ∷ [];
  collective_pk = z4;
}

generating_ok : (finalize sample generating).1 ≡ ok output
unfolding finalize compute_secret_share compute_collective_public_key eval sort_by_key
generating_ok = refl
