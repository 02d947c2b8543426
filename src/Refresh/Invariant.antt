-- ===== src/Refresh/Invariant.antt =====
-- What a refresh of sigimora-refresh/src/lib.rs keeps: the shared secret and the collective key.
use sigimora_api_backend.Base.{
  ℕ, zero, suc, ◌-◌, ◌≤◌, ◌<◌, ◌≡◌, refl, sym, ap, ap₂, subst, ◌∙◌, ◌↔◌, true, some, List, [], ◌∷◌,
  map, length, length-map, get_elem?, u16, All, ok, ok_injective, arith,
}
use sigimora_api_backend.Math.Field.{add-zero}
use sigimora_api_backend.Math.Group.{weighted_loop, generator_injective, beq_of_eq}
use sigimora_api_backend.Math.Suite.{Suite}
use sigimora_api_backend.Shamir.{Share, CryptoError, reconstruct}
use sigimora_api_backend.Shamir.Poly.{horner}
use sigimora_api_backend.Shamir.Interpolation.{Distinct}
use sigimora_api_backend.Shamir.Lagrange.{points, weights, lagrange_at_zero-weights}
use sigimora_api_backend.Shamir.RoundTrip.{
  weighted_loop-mul, horner-zero, IsShareOf, reconstruct-horner,
}
use sigimora_api_backend.Shamir.Sums.{
  sum_poly, sum_horner, horner-sum_poly, length-sum_poly, sum_horner-zero,
}
use sigimora_api_backend.Pedersen.{random_with_zero_constant, draw_pairs}
use sigimora_api_backend.Pedersen.Laws.{
  eval-horner, random_with_zero_constant-lefts, length-draw_pairs,
}
use sigimora_api_backend.Refresh.{
  RefreshContribution, RefreshManager, generate_contribution, contribution_of, apply_loop,
  apply_contributions, key_loop, add_keys, less_one, verify_collective_key_invariant,
}
use sigimora_api_backend.Refresh.Contributions.{find-eval}

module _ (c : Suite) where
  open c use {Scalar, G1, G2, field, g1, g2}

  -- A dealer: an id and the scalars that its generator yields.
  abbrev pub Dealer : Type 0
  Dealer = ℕ × (ℕ → Scalar)

  abbrev pub dealt : RefreshManager c → List Dealer → List (RefreshContribution c)
  dealt m ds = map (λ d. generate_contribution c m d.0 d.1) ds

  -- The polynomials behind the contributions.
  unfoldable pub polys : ℕ → List Dealer → List (List Scalar)
  polys t ds = map (λ d. field.zero ∷ (draw_pairs c d.1 0 (t - 1)).0) ds

  pub apply_loop-polys :
      (m : RefreshManager c) (id : ℕ) (ds : List Dealer) (delta : Scalar)
      → 1 ≤ id
      → id ≤ u16 m.n
      → apply_loop c id delta (dealt m ds)
        ≡ field.add delta (sum_horner field (polys m.t ds) (field.from_u64 id))
  unfolding apply_loop polys sum_horner generate_contribution contribution_of
  apply_loop-polys m id [] delta h g = sym (add-zero field delta)
  apply_loop-polys m id (d ∷ ds) delta h g =
      let poly = random_with_zero_constant c m.t m.pedersen d.1 in
      rw (find-eval c poly id 1 (u16 m.n) h (omega (arith, g)), apply_loop)
        (apply_loop-polys m id ds _ h g
          ∙ field.add_assoc delta _ _
          ∙ ap
              (λ v.
                field.add delta (field.add v (sum_horner field (polys m.t ds) (field.from_u64 id))))
              ((eval-horner c poly id).0
                ∙ ap (λ cs. horner field cs (field.from_u64 id))
                    (random_with_zero_constant-lefts c m.t m.pedersen d.1)))

  pub polys_zero :
      (t : ℕ) (ds : List Dealer) → All (λ p. horner field p field.zero ≡ field.zero) (polys t ds)
  unfolding polys
  polys_zero t [] = tt
  polys_zero t (d ∷ ds) = (horner-zero field field.zero _, polys_zero t ds)

  pub polys_short :
      (t k : ℕ) (ds : List Dealer) → t ≤ k → 0 < k → All (λ p. length p ≤ k) (polys t ds)
  unfolding polys
  polys_short t k [] h g = tt
  polys_short t k (d ∷ ds) h g =
      (omega (arith, (length-draw_pairs c d.1 0 (t - 1)).0), polys_short t k ds h g)

  -- The second share is what its holder, one of 1 to `n`, makes of the first by the contributions.
  abbrev IsRefresh : RefreshManager c → List Dealer → Share Scalar × Share Scalar → Type 0
  IsRefresh m ds p =
      (1 ≤ p.0.index)
      × (p.0.index ≤ u16 m.n)
      × (p.1.index ≡ p.0.index)
      × (apply_contributions c p.0.value p.0.index (dealt m ds) ≡ ok p.1.value)

  -- The refreshed shares are shares of the sum of all polynomials.
  refreshed_shares :
      (m : RefreshManager c) (ds : List Dealer) (cs : List Scalar)
      (ps : List (Share Scalar × Share Scalar))
      → All (λ p. IsShareOf field cs p.0) ps
      → All (IsRefresh m ds) ps
      → All (IsShareOf field (sum_poly field (cs ∷ polys m.t ds))) (map (λ p. p.1) ps)
  unfolding apply_contributions sum_horner
  refreshed_shares m ds cs [] a b = tt
  refreshed_shares m ds cs (p ∷ ps) (e, a) ((lo, hi, same, r), b) =
      (value, refreshed_shares m ds cs ps a b)
    where
      value :
          p.1.value ≡ horner field (sum_poly field (cs ∷ polys m.t ds)) (field.from_u64 p.1.index)
      value =
          sym (ok_injective r)
          ∙ ap₂ field.add e (apply_loop-polys m p.0.index ds field.zero lo hi ∙ field.zero-add _)
          ∙ sym (horner-sum_poly field (cs ∷ polys m.t ds) _)
          ∙ ap (λ i. horner field (sum_poly field (cs ∷ polys m.t ds)) (field.from_u64 i))
              (sym same)

  index_same :
      (m : RefreshManager c) (ds : List Dealer) (ps : List (Share Scalar × Share Scalar))
      → All (IsRefresh m ds) ps
      → map (λ (s : Share Scalar). s.index) (map (λ p. p.1) ps) ≡ map (λ p. p.0.index) ps
  index_same m ds [] b = refl
  index_same m ds (p ∷ ps) (r, b) = ap₂ ◌∷◌ r.2 (index_same m ds ps b)

  -- Holders of shares of one polynomial apply the same contributions, made by any dealers with
  -- `generate_contribution`: as many of the new shares as the polynomials have coefficients, with
  -- indices that are different scalars, reconstruct the old secret.
  pub reconstruct-apply_contributions :
      (m : RefreshManager c) (ds : List Dealer) (secret : Scalar) (cs : List Scalar)
      (ps : List (Share Scalar × Share Scalar))
      → All (λ p. IsShareOf field (secret ∷ cs) p.0) ps
      → All (IsRefresh m ds) ps
      → Distinct (points field (map (λ p. p.0.index) ps))
      → suc (length cs) ≤ length ps
      → m.t ≤ length ps
      → reconstruct field (map (λ p. p.1) ps) ≡ ok secret
  unfolding sum_horner
  reconstruct-apply_contributions m ds secret cs ps a b d n t =
      reconstruct-horner field (sum_poly field ((secret ∷ cs) ∷ polys m.t ds)) (map (λ p. p.1) ps)
        (refreshed_shares m ds (secret ∷ cs) ps a b)
        (subst (λ l. Distinct (points field l)) (sym (index_same m ds ps b)) d)
        (omega (arith, length-map (λ (p : Share Scalar × Share Scalar). p.1) ps))
        (subst (λ k. length (sum_poly field ((secret ∷ cs) ∷ polys m.t ds)) ≤ k)
          (sym (length-map (λ (p : Share Scalar × Share Scalar). p.1) ps))
          (length-sum_poly field (length ps) ((secret ∷ cs) ∷ polys m.t ds)
            (n, polys_short m.t (length ps) ds t (omega arith))))
      ∙ ap ok (
          horner-sum_poly field ((secret ∷ cs) ∷ polys m.t ds) field.zero
          ∙ ap₂ field.add (horner-zero field secret cs)
              (sum_horner-zero field (polys m.t ds) (polys_zero m.t ds))
          ∙ add-zero field secret)

  -- At the position before the id is the public key of the polynomial's share.
  abbrev pub IsKeyOf : List Scalar → List G2 → ℕ → Type 0
  IsKeyOf cs pks i =
      (k : ℕ) × (i ≡ suc k)
      × (get_elem? pks k ≡ some (g2.mul g2.generator (horner field cs (field.from_u64 i))))

  keys : List Scalar → List ℕ → List G2
  keys cs is = map (g2.mul g2.generator) (map (λ i. horner field cs (field.from_u64 i)) is)

  key_loop-keys :
      (cs ds : List Scalar) (old new : List G2) (is : List ℕ) (ws : List Scalar) (a b : G2)
      → All (IsKeyOf cs old) is
      → All (IsKeyOf ds new) is
      → key_loop c {E = CryptoError} old new is ws (a, b)
        ≡ ok (weighted_loop g2 a (keys cs is) ws, weighted_loop g2 b (keys ds is) ws)
  unfolding key_loop weighted_loop keys less_one add_keys
  key_loop-keys cs ds old new [] ws a b h k = refl
  key_loop-keys cs ds old new (i ∷ is) [] a b h k = refl
  key_loop-keys cs ds old new (zero ∷ is) (w ∷ ws) a b ((k, h, e), r) q = absurd (omega arith)
  key_loop-keys cs ds old new (suc i ∷ is) (w ∷ ws) a b ((k, h, e), r) ((k', h', e'), r') =
      ap (λ sums. key_loop c {E = CryptoError} old new is ws sums)
        (ap₂ (λ o n. add_keys c o n w (a, b)) (ap (get_elem? old) {x = i} {y = k} (omega arith) ∙ e)
          (ap (get_elem? new) {x = i} {y = k'} (omega arith) ∙ e'))
      ∙ key_loop-keys cs ds old new is ws _ _ r r'

  -- `verify_collective_key_invariant` accepts the old and new public keys of shares of two polynomials,
  -- of at most as many coefficients as the quorum has ids, exactly when the two secrets are the same,
  -- where the ids of the quorum are different scalars.
  pub verify_collective_key_invariant_iff :
      (secret secret' : Scalar) (cs ds : List Scalar) (old new : List G2) (quorum : List ℕ)
      → All (IsKeyOf (secret ∷ cs) old) quorum
      → All (IsKeyOf (secret' ∷ ds) new) quorum
      → Distinct (points field quorum)
      → suc (length cs) ≤ length quorum
      → suc (length ds) ≤ length quorum
      → (verify_collective_key_invariant c {E = CryptoError} old new quorum ≡ ok true)
        ↔ (secret ≡ secret')
  unfolding verify_collective_key_invariant keys
  verify_collective_key_invariant_iff secret secret' cs ds old new quorum a b d n n' =
      let ws = weights field [] (points field quorum) in
      rw
        (
          lagrange_at_zero-weights field {E = CryptoError} quorum d,
          key_loop-keys (secret ∷ cs) (secret' ∷ ds) old new quorum ws g2.identity g2.identity a b,
          total secret cs n,
          total secret' ds n',
        )
        (
          λ e. generator_injective g2 secret secret' ((g2.beq_iff _ _).0 (ok_injective e)),
          λ e. ap ok (beq_of_eq g2 (ap (g2.mul g2.generator) e)),
        )
    where
      total :
          (s : Scalar) (ts : List Scalar)
          → suc (length ts) ≤ length quorum
          → weighted_loop g2 g2.identity
              (keys (s ∷ ts) quorum)
              (weights field [] (points field quorum))
            ≡ g2.mul g2.generator s
      total s ts h =
          weighted_loop-mul field g2 g2.generator quorum (s ∷ ts) _ refl d h
          ∙ ap (g2.mul g2.generator) (horner-zero field s ts)
