-- ===== src/Dkg/Honest/Sums.antt =====
-- The sums that a party of sigimora-crypto/src/dkg.rs forms over what dealers have sent.
use sigimora_api_backend.Base.{
  ℕ, zero, suc, ◌+◌, ◌-◌, ◌≤◌, ◌<◌, ◌≡◌, refl, sym, ap, ap₂, ◌∙◌, true, List, [], ◌∷◌, ◌++◌, map,
  length, contains, range_from, All, ◌==◌, Bool-cases, inl, inr, arith, any,
}
use sigimora_api_backend.Math.Field.{add-zero}
use sigimora_api_backend.Math.Group.{add-identity, mul-zero}
use sigimora_api_backend.Math.Suite.{Suite}
use sigimora_api_backend.Shamir.Poly.{horner}
use sigimora_api_backend.Shamir.RoundTrip.{horner-zero}
use sigimora_api_backend.Shamir.Sums.{sum_horner}
use sigimora_api_backend.Pedersen.{PedersenSetup, eval, draw_pairs}
use sigimora_api_backend.Pedersen.Laws.{eval-horner, random_with_secret-lefts}
use sigimora_api_backend.Dkg.{collect_shares, collect_keys}
use sigimora_api_backend.Dkg.Honest.{Dealer, poly_of, key_of, secret_of}

-- Every id of a range is in it.
pub contains-range_from : (id a k : ℕ) → a ≤ id → id < a + k → contains (range_from a k) id ≡ true
contains-range_from id a zero h g = absurd (omega arith)
contains-range_from id a (suc k) h g = elim (Bool-cases (a == id)) [
  | inl e ↦ rw (e, any) refl
  | inr e ↦
      let later : suc a ≤ id = ground arith in
      rw (e, any) (contains-range_from id (suc a) k later (omega (arith, g)))
]

pub length-range_from : (a k : ℕ) → length (range_from a k) ≡ k
length-range_from a zero = refl
length-range_from a (suc k) = ap suc (length-range_from (suc a) k)

module _ (c : Suite) (t : ℕ) (ped : PedersenSetup c) where
  open c use {Scalar, G2, field, g2}

  -- The coefficients of a dealer's polynomial.
  unfoldable pub coefficients : Dealer c → List Scalar
  coefficients d = secret_of c d ∷ (draw_pairs c d.os_rng 1 (t - 1)).0

  pub eval-coefficients :
      (d : Dealer c) (x : ℕ)
      → (eval c (poly_of c t ped d) x).value ≡ horner field (coefficients d) (field.from_u64 x)
  unfolding coefficients
  eval-coefficients d x =
      (eval-horner c (poly_of c t ped d) x).0
      ∙ ap (λ cs. horner field cs (field.from_u64 x))
          (random_with_secret-lefts c (secret_of c d) t ped d.os_rng)

  pub collect_shares_lem :
      (qual : List ℕ) (x : ℕ) (ds : List (Dealer c)) (sk : Scalar)
      → All (λ d. contains qual d.id ≡ true) ds
      → collect_shares c qual (map (λ d. (d.id, eval c (poly_of c t ped d) x)) ds) sk
        ≡ field.add sk (sum_horner field (map coefficients ds) (field.from_u64 x))
  unfolding collect_shares sum_horner
  collect_shares_lem qual x [] sk a = sym (add-zero field sk)
  collect_shares_lem qual x (d ∷ ds) sk (h, a) =
      rw (h, collect_shares)
        (collect_shares_lem qual x ds _ a
          ∙ field.add_assoc sk _ _
          ∙ ap
              (λ v.
                field.add sk
                  (field.add v (sum_horner field (map coefficients ds) (field.from_u64 x))))
              (eval-coefficients d x))

  pub collect_keys_lem :
      (qual : List ℕ) (ds : List (Dealer c)) (pk : G2) (k : ℕ)
      → All (λ d. contains qual d.id ≡ true) ds
      → collect_keys c qual (map (λ d. (d.id, key_of c d)) ds) (pk, k) ≡ (
        g2.add pk (g2.mul g2.generator (sum_horner field (map coefficients ds) field.zero)),
        k + length ds,
      )
  unfolding collect_keys sum_horner coefficients
  collect_keys_lem qual [] pk k a =
      ap₂ (λ p n. (p, n)) (sym (ap (g2.add pk) (mul-zero g2 g2.generator) ∙ add-identity g2 pk))
        (omega arith)
  collect_keys_lem qual (d ∷ ds) pk k (h, a) =
      rw (h, collect_keys)
        (collect_keys_lem qual ds _ (k + 1) a
          ∙ ap₂ (λ p n. (p, n))
              (g2.add_assoc pk _ _
                ∙ ap (g2.add pk) (
                    sym (g2.mul-add g2.generator _ _)
                    ∙ ap
                        (λ s.
                          g2.mul g2.generator
                            (field.add s (sum_horner field (map coefficients ds) field.zero)))
                        (sym
                          (horner-zero field (secret_of c d) (draw_pairs c d.os_rng 1 (t - 1)).0))))
              (omega arith))

  -- One dealer taken out of the sum.
  pub sum_horner_middle :
      (bs : List (Dealer c)) (o : Dealer c) (as' : List (Dealer c)) (x : Scalar)
      → sum_horner field (map coefficients (bs ++ o ∷ as')) x
        ≡ field.add
            (sum_horner field (map coefficients (bs ++ as')) x)
            (horner field (coefficients o) x)
  unfolding sum_horner
  sum_horner_middle [] o as' x = field.add_comm _ _
  sum_horner_middle (b ∷ bs) o as' x =
      ap (field.add (horner field (coefficients b) x)) (sum_horner_middle bs o as' x)
      ∙ sym (field.add_assoc _ _ _)
