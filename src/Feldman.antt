-- ===== src/Feldman.antt =====
-- sigimora-crypto/src/feldman.rs: verifiable secret sharing with commitments in G2.
use sigimora_api_backend.Base.{
  ℕ, zero, suc, ◌-◌, ◌≡◌, sym, ap, ◌∙◌, ◌↔◌, Bool, true, List, [], ◌∷◌, map, draws, Outcome, ok,
  panic,
}
use sigimora_api_backend.Math.Field.{Field}
use sigimora_api_backend.Math.Group.{mul-zero, generator_injective, add-identity}
use sigimora_api_backend.Math.Suite.{Suite}
use sigimora_api_backend.Shamir.{Share, eval_at, CryptoError}
use sigimora_api_backend.Shamir.Poly.{horner}
use sigimora_api_backend.Shamir.RoundTrip.{eval_at-horner, power}

module _ (c : Suite) where
  open c use {Scalar, G2, field, g2}

  -- `PrivatePoly::random`, `random_with_secret` and `random_with_zero_constant`, over the scalars
  -- that the generator yields from its `k`-th on.
  unfoldable pub random : ℕ → (ℕ → Scalar) → ℕ → List Scalar
  random t rng k = draws rng k t

  unfoldable pub random_with_secret : Scalar → ℕ → (ℕ → Scalar) → ℕ → List Scalar
  random_with_secret secret t rng k = secret ∷ draws rng k (t - 1)

  unfoldable pub random_with_zero_constant : ℕ → (ℕ → Scalar) → ℕ → List Scalar
  random_with_zero_constant t rng k = field.zero ∷ draws rng k (t - 1)

  -- `PrivatePoly::eval`; `self.0[0]` panics on no coefficient.
  unfoldable pub eval : {E : Type 0} → List Scalar → ℕ → Outcome E (Share Scalar)
  eval [] x = panic
  eval (a ∷ coeffs) x = ok (record { index = x; value = eval_at field a coeffs x })

  -- `PrivatePoly::commit`.
  unfoldable pub commit : List Scalar → List G2
  commit coeffs = map (λ a. g2.mul g2.generator a) coeffs

  -- `PublicPoly::group_public_key`.
  unfoldable group_public_key : {E : Type 0} → List G2 → Outcome E G2
  group_public_key [] = panic
  group_public_key (p ∷ ps) = ok p

  -- `for _ in 0..power { term = term.mul(&x_scalar) }`.
  unfoldable scale_point : Scalar → ℕ → G2 → G2
  scale_point x zero term = term
  scale_point x (suc n) term = scale_point x n (g2.mul term x)

  unfoldable eval_points : Scalar → ℕ → List G2 → G2 → G2
  eval_points x n [] result = result
  eval_points x n (p ∷ ps) result = eval_points x (suc n) ps (g2.add result (scale_point x n p))

  -- `PublicPoly::eval`.
  unfoldable pub eval_public : List G2 → ℕ → G2
  unfolding eval_points scale_point
  eval_public commitments x = eval_points (field.from_u64 x) 0 commitments g2.identity

  -- `PublicPoly::verify_share`.
  unfoldable pub verify_share : List G2 → Share Scalar → Bool
  unfolding eval_public
  verify_share commitments share =
      g2.beq (g2.mul g2.generator share.value) (eval_public commitments share.index)

  scale_point-mul : (x : Scalar) (n : ℕ) (p : G2) → scale_point x n p ≡ g2.mul p (power field x n)
  unfolding scale_point power
  scale_point-mul x zero p = sym (g2.mul-one p)
  scale_point-mul x (suc n) p = scale_point-mul x n (g2.mul p x) ∙ g2.mul-mul p x (power field x n)

  eval_points-horner :
      (x : Scalar) (n : ℕ) (cs : List Scalar) (result : G2)
      → eval_points x n (commit cs) result
        ≡ g2.add result (g2.mul g2.generator (field.mul (power field x n) (horner field cs x)))
  unfolding eval_points commit horner power
  eval_points-horner x n [] result = sym (
      ap (g2.add result) (
        ap (g2.mul g2.generator) (package.sigimora_api_backend.Math.Field.mul-zero field _)
        ∙ mul-zero g2 g2.generator)
      ∙ add-identity g2 result)
  eval_points-horner x n (a ∷ cs) result =
      eval_points-horner x (suc n) cs _
      ∙ ap
          (λ t.
            g2.add (g2.add result t)
              (g2.mul g2.generator (field.mul (power field x (suc n)) (horner field cs x))))
          (scale_point-mul x n _ ∙ g2.mul-mul g2.generator a _)
      ∙ g2.add_assoc result _ _
      ∙ ap (g2.add result) (
          sym (g2.mul-add g2.generator _ _)
          ∙ ap (g2.mul g2.generator) (collect a x (power field x n) _))
    where
      collect :
          (a x p h : Scalar)
          → field.add (field.mul a p) (field.mul (field.mul x p) h)
            ≡ field.mul p (field.add a (field.mul x h))
      collect a x p h = simp package.sigimora_api_backend.Math.Field.ring

  -- The committed polynomial in the exponent has the value of the polynomial.
  pub eval_public-commit :
      (a : Scalar) (cs : List Scalar) (i : ℕ)
      → eval_public (commit (a ∷ cs)) i ≡ g2.mul g2.generator (eval_at field a cs i)
  unfolding eval_public power
  eval_public-commit a cs i =
      eval_points-horner (field.from_u64 i) 0 (a ∷ cs) g2.identity
      ∙ g2.identity-add _
      ∙ ap (g2.mul g2.generator) (field.one-mul _ ∙ sym (eval_at-horner field a cs i))

  -- A share passes against the commitments of a polynomial exactly when it is the share that the
  -- polynomial deals at its index.
  verify_share-commit :
      (a : Scalar) (cs : List Scalar) (share : Share Scalar)
      → (verify_share (commit (a ∷ cs)) share ≡ true)
        ↔ (eval {E = CryptoError} (a ∷ cs) share.index ≡ ok share)
  unfolding verify_share eval
  verify_share-commit a cs share = (
    λ e.
        ap (λ v. ok (record share { value = v }))
          (sym (
            generator_injective g2 share.value _
              ((g2.beq_iff _ _).0 e ∙ eval_public-commit a cs share.index))),
    λ e.
        (g2.beq_iff _ _).1
          (sym (ap (g2.mul g2.generator) (value_of e)) ∙ sym (eval_public-commit a cs share.index)),
  )
    where
      value_of :
          {s : Share Scalar}
          → ◌≡◌ {A = Outcome CryptoError (Share Scalar)} (ok s) (ok share)
          → s.value ≡ share.value
      value_of e = cc
