-- ===== src/Dkg/Honest/Signing.antt =====
-- The key generation of sigimora-crypto/src/dkg.rs and the signatures of sigimora-ats/src/lib.rs
-- together: parties that have ended a run sign, and the joint key verifies.
use sigimora_api_backend.Base.{
  ℕ, ◌-◌, ◌≤◌, ◌<◌, ◌≡◌, refl, sym, ap, ◌∙◌, true, List, [], ◌∷◌, map, length, length-map, u16, All,
  ok, arith,
}
use sigimora_api_backend.Math.Suite.{Suite, Bytes}
use sigimora_api_backend.Shamir.{eval_at}
use sigimora_api_backend.Shamir.Poly.{horner}
use sigimora_api_backend.Shamir.RoundTrip.{horner-zero, eval_at-horner}
use sigimora_api_backend.Shamir.Interpolation.{Distinct}
use sigimora_api_backend.Shamir.Lagrange.{points}
use sigimora_api_backend.Shamir.Sums.{plus_poly, sum_poly, length-sum_poly}
use sigimora_api_backend.Pedersen.{PedersenSetup, draw_pairs}
use sigimora_api_backend.Pedersen.Laws.{length-draw_pairs}
use sigimora_api_backend.Ats.{SignerConfig, NetworkPublicParams, AtsSignature, aggregate, verify}
use sigimora_api_backend.Ats.Laws.{verify-aggregate, partials_of}
use sigimora_api_backend.Dkg.{DkgOutput}
use sigimora_api_backend.Dkg.Honest.{Dealer}
use sigimora_api_backend.Dkg.Honest.Sums.{coefficients}
use sigimora_api_backend.Dkg.Honest.Output.{InRange}
use sigimora_api_backend.Dkg.Honest.Agreement.{joint, Ends, Ends-joint}

module _ (c : Suite) (n t : ℕ) (ped : PedersenSetup c) where
  open c use {Scalar, G2, field, g2}

  -- A signer, the party of the run that it is, and what that party ended with.
  abbrev IsSignerOf : List (Dealer c) → SignerConfig c × Dealer c × DkgOutput c → Type 0
  IsSignerOf ds (signer, own, out) =
      Ends c n t ped ds own out × (signer.node_id ≡ own.id) × (signer.dkg_share ≡ out.my_secret)

  joint_cons :
      (d : Dealer c) (ds : List (Dealer c))
      → (s : Scalar) × (cs : List Scalar) × (joint c n t ped (d ∷ ds) ≡ s ∷ cs)
  unfolding joint sum_poly coefficients
  joint_cons d ds = go (sum_poly field (map (coefficients c t ped) ds))
    where
      go :
          (l : List Scalar)
          → (s : Scalar) × (cs : List Scalar) × (plus_poly field
                (d.rng 0 ∷ (draw_pairs c d.os_rng 1 (t - 1)).0)
                l
              ≡ s ∷ cs)
      go [] = unfold plus_poly in (_, _, refl)
      go (x ∷ l) = unfold plus_poly in (_, _, refl)

  pub joint_short : (k : ℕ) (ds : List (Dealer c)) → t ≤ k → 0 < k → length (joint c n t ped ds) ≤ k
  unfolding joint coefficients
  joint_short k ds h g = length-sum_poly field k (map (coefficients c t ped) ds) (each ds)
    where
      each : (l : List (Dealer c)) → All (λ p. length p ≤ k) (map (coefficients c t ped) l)
      each [] = tt
      each (d ∷ l) = (omega (arith, (length-draw_pairs c d.os_rng 1 (t - 1)).0), each l)

  -- After a run of the key generation between parties with the different ids 1 to `n`, at least `t`
  -- and `threshold` of them, with ids that are different scalars, sign with the shares that they ended
  -- with: the signatures aggregate, and the result verifies under the collective key that any party
  -- ended with.
  pub verify-aggregate-finalize :
      (d : Dealer c) (ds : List (Dealer c)) (witness : Dealer c) (result : DkgOutput c)
      (qs : List (SignerConfig c × Dealer c × DkgOutput c)) (params : NetworkPublicParams c)
      (msg : Bytes) (random : SignerConfig c → Scalar × Bytes) (epoch aggregator_id : ℕ)
      → t ≤ n
      → All (InRange c n t ped) (d ∷ ds)
      → Distinct (map (λ x. x.id) (d ∷ ds))
      → u16 n ≤ length (d ∷ ds)
      → Ends c n t ped (d ∷ ds) witness result
      → params.collective_pk ≡ result.collective_pk
      → All (IsSignerOf (d ∷ ds)) qs
      → Distinct (points field (map (λ s. s.node_id) (map (λ q. q.0) qs)))
      → t ≤ length qs
      → 0 < length qs
      → params.threshold ≤ length qs
      → (sig : AtsSignature c) × (aggregate c
            (partials_of c msg params.tracking_pk random (map (λ q. q.0) qs))
            params
            epoch
            aggregator_id
          ≡ ok sig)
        × (verify c params msg sig ≡ true)
  verify-aggregate-finalize d ds witness result qs params msg random epoch aggregator_id tn a di k w
        e b dq tq pos th =
      let (s, cs, j) = joint_cons d ds in
      let short = joint_short (length qs) (d ∷ ds) tq pos in
      verify-aggregate c s cs params msg random (map (λ q. q.0) qs) epoch aggregator_id
        (e
          ∙ (Ends-joint c n t ped (d ∷ ds) witness result tn a di k w).1
          ∙ ap (g2.mul g2.generator)
              (ap (λ l. horner field l field.zero) j ∙ horner-zero field s cs))
        (shares qs b) dq
        (omega (
          arith,
          short,
          ap length j,
          length-map (λ (q : SignerConfig c × Dealer c × DkgOutput c). q.0) qs,
        ))
        (omega (arith, th, length-map (λ (q : SignerConfig c × Dealer c × DkgOutput c). q.0) qs))
    where
      shares :
          (l : List (SignerConfig c × Dealer c × DkgOutput c))
          → All (IsSignerOf (d ∷ ds)) l
          → All
              (λ s. s.dkg_share ≡ eval_at field (joint_cons d ds).0 (joint_cons d ds).1 s.node_id)
              (map (λ q. q.0) l)
      shares [] x = tt
      shares ((signer, own, out) ∷ l) ((ends, same_id, same), x) = (
        same
            ∙ (Ends-joint c n t ped (d ∷ ds) own out tn a di k ends).0
            ∙ ap (λ i. horner field (joint c n t ped (d ∷ ds)) (field.from_u64 i)) (sym same_id)
            ∙ ap (λ p. horner field p (field.from_u64 signer.node_id)) (joint_cons d ds).2
            ∙ sym (eval_at-horner field (joint_cons d ds).0 (joint_cons d ds).1 signer.node_id),
        shares l x,
      )
