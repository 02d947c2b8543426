-- ===== src/Tests/Refresh.antt =====
-- Runs of the theorems on the refresh of shares of 3 + x.
use sigimora_api_backend.Base.{ℕ, ◌≡◌, refl, some, map, List, [], ◌∷◌, range_from, u16, ok, arith}
use sigimora_api_backend.Math.Group.{scalars, sum_loop}
use sigimora_api_backend.Samples.{sample}
use sigimora_api_backend.Samples.FiveField.{Five, five, z0, z1, z2, z3}
use sigimora_api_backend.Shamir.{Share, reconstruct}
use sigimora_api_backend.Shamir.Poly.{horner}
use sigimora_api_backend.Pedersen as Pedersen
use sigimora_api_backend.Pedersen.{PedersenSetup}
use sigimora_api_backend.Refresh.{
  RefreshState, RefreshManager, compute_new_key, apply_contributions, committed, apply_loop,
  generate_contribution, contribution_of, less_one,
}
use sigimora_api_backend.Refresh.Contributions.{compute_new_key-apply_contributions}
use sigimora_api_backend.Refresh.Invariant.{Dealer, dealt, reconstruct-apply_contributions}
use sigimora_api_backend.Refresh.Additive.{
  additive_refresh, additive_shares, additive_refresh_total, set_at,
}
use sigimora_api_backend.Tests.{ones, two_and_three}

abbrev setup : PedersenSetup sample
setup = record { g = z1; h = z2 }

abbrev three : RefreshManager sample
three = record { n = 3; t = 2; pedersen = setup }

abbrev dealers : List (Dealer sample)
dealers = (1, ones) ∷ (2, λ k. z2) ∷ []

abbrev refreshed_pairs : List (Share Five × Share Five)
refreshed_pairs =
    (record { index = 2; value = z0 }, record { index = 2; value = z1 })
    ∷ (record { index = 3; value = z1 }, record { index = 3; value = z0 })
    ∷ []

reconstruct-apply_contributions_example : reconstruct five (map (λ p. p.1) refreshed_pairs) ≡ ok z3
unfolding horner apply_contributions apply_loop generate_contribution contribution_of Pedersen.eval
    Pedersen.random_with_zero_constant
reconstruct-apply_contributions_example =
    reconstruct-apply_contributions sample three dealers z3 (z1 ∷ []) refreshed_pairs
      (refl, (refl, tt))
      ((omega arith, omega arith, refl, refl), ((omega arith, omega arith, refl, refl), tt))
      two_and_three (omega arith) (omega arith)

abbrev party : ℕ → RefreshState sample
party id = record {
  epoch = 4;
  n = 3;
  t = 2;
  my_id = id;
  my_key = some z1;
  my_poly = some (record { coeffs_f = []; coeffs_r = []; pedersen = setup });
  pedersen = setup;
  contributions = dealt sample three dealers;
  round = committed;
}

compute_new_key-apply_contributions_example :
    compute_new_key sample (party 3) ≡ apply_contributions sample z1 3 (dealt sample three dealers)
compute_new_key-apply_contributions_example =
    compute_new_key-apply_contributions sample (party 3) z1 refl (omega arith) (omega arith)

additive_refresh_total_example :
    sum_loop (scalars five) z0 (z1 ∷ z1 ∷ z1 ∷ [])
    ≡ five.sub
        (five.add
          (additive_shares sample 2 ones 1 (range_from 1 (u16 3)) z0).1
          (additive_shares sample 2 ones 1 (range_from 1 (u16 3)) z0).1)
        z1
unfolding additive_refresh additive_shares set_at less_one
additive_refresh_total_example = additive_refresh_total sample 3 2 ones (z1 ∷ z1 ∷ z1 ∷ []) z1 refl
