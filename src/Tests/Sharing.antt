-- ===== src/Tests/Sharing.antt =====
-- Runs of the theorems on secret sharing: 3 + x, dealt to three parties.
use sigimora_api_backend.Base.{◌≡◌, refl, inl, inr, List, some, [], ◌∷◌, ok, arith}
use sigimora_api_backend.Math.Power.{pow_u64, power, pow_u64-power}
use sigimora_api_backend.Samples.FiveField.{Five, five, z0, z1, z2, z3, z4}
use sigimora_api_backend.Shamir.{Share, split, reconstruct, eval_at}
use sigimora_api_backend.Shamir.RoundTrip.{split-reconstruct}
use sigimora_api_backend.Tests.{ones, two_and_three}

abbrev dealt : List (Share Five)
dealt =
    record { index = 1; value = z4 }
    ∷ record { index = 2; value = z0 }
    ∷ record { index = 3; value = z1 }
    ∷ []

abbrev chosen : List (Share Five)
chosen = record { index = 2; value = z0 } ∷ record { index = 3; value = z1 } ∷ []

split-dealt : split five z3 2 3 ones ≡ ok dealt
unfolding split eval_at
split-dealt = refl

split-reconstruct_example : reconstruct five chosen ≡ ok z3
split-reconstruct_example =
    split-reconstruct five z3 2 3 ones dealt chosen split-dealt
      (inr (inl refl), (inr (inr (inl refl)), tt)) two_and_three (omega arith)

-- 2 to the power of 13.
pow_u64-power_example : pow_u64 five z2 13 ≡ some (power five z2 13)
pow_u64-power_example = pow_u64-power five z2 13 (omega arith)
