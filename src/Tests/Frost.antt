-- ===== src/Tests/Frost.antt =====
-- Runs of the theorems on FROST signatures: the key pairs 2 and 3 of the polynomial 3 + x.
use sigimora_api_backend.Base.{◌≡◌, refl, true, map, [], ◌∷◌, ok, arith}
use sigimora_api_backend.Samples.{sample}
use sigimora_api_backend.Samples.FiveField.{z0, z1, z3, z4}
use sigimora_api_backend.Shamir.{eval_at}
use sigimora_api_backend.Feldman.{eval, random_with_secret}
use sigimora_api_backend.Frost.{
  FrostKeyPair, FrostSignature, keygen, sign_partial_simple, aggregate_simple, verify,
}
use sigimora_api_backend.Frost.Laws.{IsKeyPairOf, verify-aggregate_simple}
use sigimora_api_backend.Frost.Codec.{to_bytes, from_bytes, from_bytes-to_bytes}
use sigimora_api_backend.Tests.{ones, two_and_three}

abbrev second : FrostKeyPair sample
second = record {
  signing_key = record { share = record { index = 2; value = z0 }; ipk = z0 };
  group_pk = z3;
}

abbrev third : FrostKeyPair sample
third = record {
  signing_key = record { share = record { index = 3; value = z1 }; ipk = z1 };
  group_pk = z3;
}

second-IsKeyPairOf : IsKeyPairOf sample z3 2 3 ones second
unfolding keygen eval random_with_secret eval_at
second-IsKeyPairOf = refl

third-IsKeyPairOf : IsKeyPairOf sample z3 2 3 ones third
unfolding keygen eval random_with_secret eval_at
third-IsKeyPairOf = refl

verify-aggregate_simple_example :
    (sig : FrostSignature sample) × (aggregate_simple sample
        (map (λ k. sign_partial_simple sample k.signing_key (7 ∷ [])) (second ∷ third ∷ []))
      ≡ ok sig)
    × (sig.signers ≡ 2 ∷ 3 ∷ [])
    × (verify sample sig z3 (7 ∷ []) ≡ true)
verify-aggregate_simple_example =
    verify-aggregate_simple sample z3 2 3 ones (second ∷ third ∷ []) (7 ∷ [])
      (second-IsKeyPairOf, (third-IsKeyPairOf, tt)) two_and_three (omega arith) (omega arith)

abbrev signature : FrostSignature sample
signature = record { sigma = z4; signers = 2 ∷ 3 ∷ []; epoch = 1; transcript = 9 ∷ [] }

from_bytes-to_bytes_example :
    from_bytes sample (to_bytes sample signature)
    ≡ ok (record { sigma = z4; signers = 0 ∷ []; epoch = 1; transcript = [] })
from_bytes-to_bytes_example = from_bytes-to_bytes sample signature refl
