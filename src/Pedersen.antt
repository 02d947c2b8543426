-- ===== src/Pedersen.antt =====
-- sigimora-crypto/src/pedersen.rs: verifiable secret sharing with blinded commitments in G1.
pub mod Laws
use sigimora_api_backend.Base.{
  ℕ, zero, suc, ◌-◌, ◌≤◌, ◌≡◌, refl, sym, ap, ap₂, ◌∙◌, ◌↔◌, Bool, true, List, [], ◌∷◌, map, draws,
  range_from, zip, ◌+◌, u16, length, All, Outcome, ok, panic, ◌>>=◌,
}
use sigimora_api_backend.Math.Field.{Field}
use sigimora_api_backend.Math.Field as Fields
use sigimora_api_backend.Math.Group.{scalars, weighted_loop, mul-zero, add-identity, sums}
use sigimora_api_backend.Math.Suite.{Suite, Bytes}
use sigimora_api_backend.Shamir.{lagrange_at_zero}
use sigimora_api_backend.Shamir.Poly.{horner}

-- `b"BLS_PEDERSEN_H_NUMS_2024"` and `b"SIGIMORA"`.
abbrev nums_tag : Bytes
nums_tag =
    66 ∷ 76 ∷ 83 ∷ 95 ∷ 80 ∷ 69 ∷ 68 ∷ 69 ∷ 82 ∷ 83 ∷ 69 ∷ 78 ∷ 95 ∷ 72 ∷ 95 ∷ 78 ∷ 85 ∷ 77 ∷ 83
    ∷ 95 ∷ 50 ∷ 48 ∷ 50 ∷ 52 ∷ []

abbrev sigimora_tag : Bytes
sigimora_tag = 83 ∷ 73 ∷ 71 ∷ 73 ∷ 77 ∷ 79 ∷ 82 ∷ 65 ∷ []

module _ (c : Suite) where
  open c use {Scalar, G1, field, g1, hash_to_g1}

  pub record PedersenSetup : Type 0 where
    pub g : G1
    pub h : G1

  unfoldable pub setup_deterministic : PedersenSetup
  setup_deterministic = record { g = g1.generator; h = hash_to_g1 nums_tag sigimora_tag }

  -- `PedersenSetup::commit`.
  unfoldable pub commit : PedersenSetup → Scalar → Scalar → G1
  commit ped v r = g1.add (g1.mul ped.g v) (g1.mul ped.h r)

  pub record VssPublic : Type 0 where
    pub commitments : List G1

  pub record VssShare : Type 0 where
    pub index : ℕ
    pub value : Scalar
    pub blinding : Scalar

  pub record PrivatePoly : Type 0 where
    pub coeffs_f : List Scalar
    pub coeffs_r : List Scalar
    pub pedersen : PedersenSetup

  -- `for ck in &self.commitments { rhs = rhs.add(&ck.mul(&xpow)); xpow = xpow.mul(&x); }`.
  unfoldable pub commitment_loop : Scalar → List G1 → Scalar → G1 → G1
  commitment_loop x [] xpow rhs = rhs
  commitment_loop x (ck ∷ cks) xpow rhs =
      commitment_loop x cks (field.mul xpow x) (g1.add rhs (g1.mul ck xpow))

  -- `VssPublic::verify_share`.
  unfoldable pub verify_share : VssPublic → ℕ → Scalar → Scalar → PedersenSetup → Bool
  unfolding commitment_loop commit
  verify_share public index value blinding ped =
      g1.beq (commit ped value blinding)
        (commitment_loop (field.from_u64 index) public.commitments field.one g1.identity)

  -- The loop over `coeffs_f.iter().zip(coeffs_r.iter())` in `PrivatePoly::eval`.
  unfoldable pub eval_loop :
      Scalar → List (Scalar × Scalar) → Scalar → Scalar → Scalar → Scalar × Scalar
  eval_loop xi [] xpow fv rv = (fv, rv)
  eval_loop xi ((fk, rk) ∷ rest) xpow fv rv =
      eval_loop xi rest (field.mul xpow xi) (field.add fv (field.mul fk xpow))
        (field.add rv (field.mul rk xpow))

  -- `PrivatePoly::eval`.
  unfoldable pub eval : PrivatePoly → ℕ → VssShare
  unfolding eval_loop
  eval poly x =
      let (fv, rv) =
        eval_loop (field.from_u64 x) (zip poly.coeffs_f poly.coeffs_r) field.one field.zero
          field.zero in
      record { index = x; value = fv; blinding = rv }

  -- `PrivatePoly::commit`.
  unfoldable pub commit_poly : PrivatePoly → VssPublic
  commit_poly poly = record {
    commitments = map (λ fr. commit poly.pedersen fr.0 fr.1) (zip poly.coeffs_f poly.coeffs_r);
  }

  -- `for _ in 1..t { f.push(Scalar::random(..)); r.push(Scalar::random(..)); }`, where `rng k` is
  -- the next scalar that the generator yields.
  unfoldable pub draw_pairs : (ℕ → Scalar) → ℕ → ℕ → List Scalar × List Scalar
  draw_pairs rng k zero = ([], [])
  draw_pairs rng k (suc n) =
      let (fs, rs) = draw_pairs rng (k + 2) n in (rng k ∷ fs, rng (k + 1) ∷ rs)

  -- `PrivatePoly::random_with_secret`.
  unfoldable pub random_with_secret : Scalar → ℕ → PedersenSetup → (ℕ → Scalar) → PrivatePoly
  unfolding draw_pairs
  random_with_secret secret t ped rng =
      let (fs, rs) = draw_pairs rng 1 (t - 1) in
      record { coeffs_f = secret ∷ fs; coeffs_r = rng 0 ∷ rs; pedersen = ped }

  -- `PrivatePoly::random_with_zero_constant`.
  unfoldable pub random_with_zero_constant : ℕ → PedersenSetup → (ℕ → Scalar) → PrivatePoly
  unfolding draw_pairs
  random_with_zero_constant t ped rng =
      let (fs, rs) = draw_pairs rng 0 (t - 1) in
      record { coeffs_f = field.zero ∷ fs; coeffs_r = field.zero ∷ rs; pedersen = ped }

  -- `Vss::share`, which builds the polynomial of `random_with_secret` in place.
  unfoldable pub share : PedersenSetup → Scalar → ℕ → ℕ → (ℕ → Scalar) → VssPublic × List VssShare
  unfolding random_with_secret eval commit_poly
  share ped secret t n rng =
      let poly = random_with_secret secret t ped rng in
      (commit_poly poly, map (eval poly) (range_from 1 (u16 n)))

  -- `Vss::share_zero`.
  unfoldable share_zero : PedersenSetup → ℕ → ℕ → (ℕ → Scalar) → VssPublic × List VssShare
  unfolding share
  share_zero ped t n rng = share ped field.zero t n rng

  -- `Vss::reconstruct`, with the module's own copy of `lagrange_at_zero`.
  unfoldable pub reconstruct : {E : Type 0} → List VssShare → Outcome E Scalar
  reconstruct shares = do
    lambdas ← lagrange_at_zero field (map (λ s. s.index) shares)
    ok (weighted_loop (scalars field) field.zero (map (λ s. s.value) shares) lambdas)
