-- ===== src/Math/Pairing.antt =====
-- sigimora-math/src/pairing.rs: products of pairings, and the verification equation.
use sigimora_api_backend.Base.{◌≡◌, sym, ap, ap₂, ◌∙◌, ◌↔◌, Bool, true, List, [], ◌∷◌}
use sigimora_api_backend.Math.Group.{sum, add_cancel, add-identity, mul-zero, negate-mul}
use sigimora_api_backend.Math.Suite.{Suite}

module _ (c : Suite) where
  open c use {G1, G2, Gt, g1, g2, gt, pairing, multi_miller}

  unfoldable multi_pairing : List (G1 × G2) → Gt
  multi_pairing [] = gt.identity
  multi_pairing (p ∷ ps) = multi_miller (p ∷ ps)

  unfoldable pairing_check : G1 → G2 → G1 → G2 → Bool
  unfolding multi_pairing
  pairing_check a1 b1 a2 b2 = gt.beq (multi_pairing ((a1, b1) ∷ (a2, b2) ∷ [])) gt.identity

  -- The same equation; only its running time differs.
  unfoldable pub ct_pairing_check : G1 → G2 → G1 → G2 → Bool
  unfolding multi_pairing
  ct_pairing_check a1 b1 a2 b2 = gt.beq (multi_pairing ((a1, b1) ∷ (a2, b2) ∷ [])) gt.identity

  unfoldable pub ct_verify_bls_signature : G1 → G1 → G2 → Bool
  unfolding ct_pairing_check
  ct_verify_bls_signature sig hash pk = ct_pairing_check sig g2.generator (g1.negate hash) pk

  pairing-identity : (q : G2) → pairing g1.identity q ≡ gt.identity
  pairing-identity q =
      ap (λ p. pairing p q) (sym (mul-zero g1 g1.identity))
      ∙ c.pairing-mul_left g1.identity q c.field.zero
      ∙ mul-zero gt (pairing g1.identity q)

  -- The two-pairing product under a common generator.
  product-generator :
      (sig h : G1) (x y : c.Scalar)
      → multi_pairing ((sig, g2.mul g2.generator x) ∷ (h, g2.mul g2.generator y) ∷ [])
        ≡ pairing (g1.add (g1.mul sig x) (g1.mul h y)) g2.generator
  unfolding multi_pairing sum
  product-generator sig h x y =
      c.multi_miller_eq _
      ∙ ap₂ gt.add (flip sig x) (ap (λ t. gt.add t gt.identity) (flip h y) ∙ add-identity gt _)
      ∙ sym (c.pairing-add (g1.mul sig x) (g1.mul h y) g2.generator)
    where
      flip :
          (p : G1) (s : c.Scalar)
          → pairing p (g2.mul g2.generator s) ≡ pairing (g1.mul p s) g2.generator
      flip p s = c.pairing-mul_right p g2.generator s ∙ sym (c.pairing-mul_left p g2.generator s)

  verify_equation :
      (sig h : G1) (sk : c.Scalar)
      → multi_pairing ((sig, g2.generator) ∷ (g1.negate h, g2.mul g2.generator sk) ∷ [])
        ≡ pairing (g1.add sig (g1.negate (g1.mul h sk))) g2.generator
  verify_equation sig h sk =
      ap (λ q. multi_pairing ((sig, q) ∷ (g1.negate h, g2.mul g2.generator sk) ∷ []))
        (sym (g2.mul-one g2.generator))
      ∙ product-generator sig (g1.negate h) c.field.one sk
      ∙ ap₂ (λ a b. pairing (g1.add a b) g2.generator) (g1.mul-one sig) (negate-mul g1 h sk)

  -- Under the public key `sk · g₂` exactly one signature verifies: `sk · H`.
  pub ct_verify_bls_signature_iff :
      (sig h : G1) (sk : c.Scalar)
      → (ct_verify_bls_signature sig h (g2.mul g2.generator sk) ≡ true) ↔ (sig ≡ g1.mul h sk)
  unfolding ct_verify_bls_signature
  ct_verify_bls_signature_iff sig h sk = (
    λ e. add_cancel g1 (g1.negate (g1.mul h sk)) _ _ (
        g1.add_comm _ sig
        ∙ c.nondegenerate _ (sym (verify_equation sig h sk) ∙ (gt.beq_iff _ _).0 e)
        ∙ sym (g1.add_comm _ _ ∙ g1.add-negate (g1.mul h sk))),
    λ e. (gt.beq_iff _ _).1 (
        verify_equation sig h sk
        ∙ ap (λ s. pairing (g1.add s (g1.negate (g1.mul h sk))) g2.generator) e
        ∙ ap (λ p. pairing p g2.generator) (g1.add-negate (g1.mul h sk))
        ∙ pairing-identity g2.generator),
  )
