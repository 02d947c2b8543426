-- ===== src/Pedersen/Laws.antt =====
-- Shares and commitments of one polynomial belong together; the shares reconstruct the secret.
use sigimora_api_backend.Base.{
  ℕ, zero, suc, ◌+◌, ◌-◌, ◌≤◌, ◌<◌, ◌≡◌, refl, sym, ap, ap₂, ◌∙◌, ◌↔◌, true, List, [], ◌∷◌, map,
  zip, range_from, u16, length, length-map, All, All-map, All-Elem, Elem, ok, arith,
}
use sigimora_api_backend.Math.Field as Fields
use sigimora_api_backend.Math.Group.{mul-zero, add-identity, sums}
use sigimora_api_backend.Math.Suite.{Suite}
use sigimora_api_backend.Shamir.{CryptoError}
use sigimora_api_backend.Shamir.Poly.{horner}
use sigimora_api_backend.Shamir.Interpolation.{Distinct}
use sigimora_api_backend.Shamir.Lagrange.{points, lagrange_at_zero-weights}
use sigimora_api_backend.Shamir.RoundTrip.{weighted_loop-horner}
use sigimora_api_backend.Pedersen.{
  PedersenSetup, VssShare, PrivatePoly, commit, commitment_loop, verify_share, eval_loop, eval,
  commit_poly, draw_pairs, random_with_secret, random_with_zero_constant, share, reconstruct,
}

module _ (c : Suite) where
  open c use {Scalar, G1, field, g1}
  open field use {add, mul}

  unfoldable pub lefts : List (Scalar × Scalar) → List Scalar
  lefts ps = map (λ p. p.0) ps

  unfoldable pub rights : List (Scalar × Scalar) → List Scalar
  rights ps = map (λ p. p.1) ps

  gather :
      (fv fk x p h : Scalar)
      → add (add fv (mul fk p)) (mul (mul p x) h) ≡ add fv (mul p (add fk (mul x h)))
  gather fv fk x p h = simp Fields.ring

  eval_loop-horner :
      (x : Scalar) (ps : List (Scalar × Scalar)) (p fv rv : Scalar)
      → eval_loop c x ps p fv rv
        ≡ (add fv (mul p (horner field (lefts ps) x)), add rv (mul p (horner field (rights ps) x)))
  unfolding eval_loop lefts rights horner
  eval_loop-horner x [] p fv rv = ap₂ (λ a b. (a, b)) (none_left fv) (none_left rv)
    where
      none_left : (v : Scalar) → v ≡ add v (mul p field.zero)
      none_left v = sym (ap (add v) (Fields.mul-zero field p) ∙ Fields.add-zero field v)
  eval_loop-horner x ((fk, rk) ∷ ps) p fv rv =
      eval_loop-horner x ps (mul p x) _ _
      ∙ ap₂ (λ a b. (a, b)) (gather fv fk x p _) (gather rv rk x p _)

  commit_zero : (ped : PedersenSetup c) → commit c ped field.zero field.zero ≡ g1.identity
  unfolding commit
  commit_zero ped = ap₂ g1.add (mul-zero g1 ped.g) (mul-zero g1 ped.h) ∙ g1.identity-add g1.identity

  commit-add :
      (ped : PedersenSetup c) (v r w s : Scalar)
      → g1.add (commit c ped v r) (commit c ped w s) ≡ commit c ped (add v w) (add r s)
  unfolding commit
  commit-add ped v r w s =
      interchange _ _ _ _ ∙ ap₂ g1.add (sym (g1.mul-add ped.g v w)) (sym (g1.mul-add ped.h r s))
    where
      interchange :
          (a b d e : G1) → g1.add (g1.add a b) (g1.add d e) ≡ g1.add (g1.add a d) (g1.add b e)
      interchange a b d e = simp sums

  commit-mul :
      (ped : PedersenSetup c) (v r s : Scalar)
      → g1.mul (commit c ped v r) s ≡ commit c ped (mul v s) (mul r s)
  unfolding commit
  commit-mul ped v r s = g1.add-mul _ _ s ∙ ap₂ g1.add (g1.mul-mul ped.g v s) (g1.mul-mul ped.h r s)

  commitment_loop-horner :
      (ped : PedersenSetup c) (x : Scalar) (ps : List (Scalar × Scalar)) (p : Scalar) (rhs : G1)
      → commitment_loop c x (map (λ fr. commit c ped fr.0 fr.1) ps) p rhs
        ≡ g1.add rhs
            (commit c ped (mul p (horner field (lefts ps) x)) (mul p (horner field (rights ps) x)))
  unfolding commitment_loop lefts rights horner
  commitment_loop-horner ped x [] p rhs = sym (
      ap (g1.add rhs)
        (ap₂ (commit c ped) (Fields.mul-zero field p) (Fields.mul-zero field p) ∙ commit_zero ped)
      ∙ add-identity g1 rhs)
  commitment_loop-horner ped x ((fk, rk) ∷ ps) p rhs =
      commitment_loop-horner ped x ps (mul p x) _
      ∙ g1.add_assoc rhs _ _
      ∙ ap (g1.add rhs) (
          ap
            (λ t. g1.add t (
              commit c ped (mul (mul p x) (horner field (lefts ps) x))
                (mul (mul p x) (horner field (rights ps) x))))
            (commit-mul ped fk rk p)
          ∙ commit-add ped _ _ _ _
          ∙ ap₂ (commit c ped) (collect fk x p _) (collect rk x p _))
    where
      collect : (a x p h : Scalar) → add (mul a p) (mul (mul p x) h) ≡ mul p (add a (mul x h))
      collect a x p h = simp Fields.ring

  -- The value and the blinding of a share are the values of the two polynomials.
  pub eval-horner :
      (poly : PrivatePoly c) (i : ℕ)
      → ((eval c poly i).value
          ≡ horner field (lefts (zip poly.coeffs_f poly.coeffs_r)) (field.from_u64 i))
        × ((eval c poly i).blinding
            ≡ horner field (rights (zip poly.coeffs_f poly.coeffs_r)) (field.from_u64 i))
  unfolding eval
  eval-horner poly i =
      let e =
        eval_loop-horner (field.from_u64 i) (zip poly.coeffs_f poly.coeffs_r) field.one field.zero
          field.zero in
      (
        ap (λ t. t.0) e ∙ field.zero-add _ ∙ field.one-mul _,
        ap (λ t. t.1) e ∙ field.zero-add _ ∙ field.one-mul _,
      )

  -- A value and a blinding pass at an index, against the commitments of a polynomial, exactly when
  -- they have the same commitment as the share that the polynomial deals there.
  pub verify_share-commit_poly :
      (poly : PrivatePoly c) (i : ℕ) (value blinding : Scalar)
      → (verify_share c (commit_poly c poly) i value blinding poly.pedersen ≡ true) ↔ (
          commit c poly.pedersen value blinding
          ≡ commit c poly.pedersen (eval c poly i).value (eval c poly i).blinding)
  unfolding verify_share commit_poly
  verify_share-commit_poly poly i value blinding =
      (λ e. (g1.beq_iff _ _).0 e ∙ dealt, λ e. (g1.beq_iff _ _).1 (e ∙ sym dealt))
    where
      ps : List (Scalar × Scalar)
      ps = zip poly.coeffs_f poly.coeffs_r

      dealt :
          commitment_loop c
            (field.from_u64 i)
            (map (λ fr. commit c poly.pedersen fr.0 fr.1) ps)
            field.one
            g1.identity
          ≡ commit c poly.pedersen (eval c poly i).value (eval c poly i).blinding
      dealt =
          commitment_loop-horner poly.pedersen (field.from_u64 i) ps field.one g1.identity
          ∙ g1.identity-add _
          ∙ ap₂ (commit c poly.pedersen) (field.one-mul _ ∙ sym (eval-horner poly i).0)
              (field.one-mul _ ∙ sym (eval-horner poly i).1)

  lefts-zip : (fs rs : List Scalar) → length fs ≡ length rs → lefts (zip fs rs) ≡ fs
  unfolding lefts
  lefts-zip [] rs e = refl
  lefts-zip (x ∷ fs) [] e = absurd (omega arith)
  lefts-zip (x ∷ fs) (r ∷ rs) e = ap (◌∷◌ x) (lefts-zip fs rs (omega arith))

  pub length-draw_pairs :
      (rng : ℕ → Scalar) (k n : ℕ)
      → (length (draw_pairs c rng k n).0 ≡ n) × (length (draw_pairs c rng k n).1 ≡ n)
  unfolding draw_pairs
  length-draw_pairs rng k zero = (refl, refl)
  length-draw_pairs rng k (suc n) =
      let (a, b) = length-draw_pairs rng (k + 2) n in (ap suc a, ap suc b)

  -- The polynomial of `random_with_secret` has the secret and `t - 1` further coefficients.
  pub random_with_secret-lefts :
      (secret : Scalar) (t : ℕ) (ped : PedersenSetup c) (rng : ℕ → Scalar)
      → let poly = random_with_secret c secret t ped rng in
        lefts (zip poly.coeffs_f poly.coeffs_r) ≡ secret ∷ (draw_pairs c rng 1 (t - 1)).0
  unfolding random_with_secret
  random_with_secret-lefts secret t ped rng =
      lefts-zip _ (random_with_secret c secret t ped rng).coeffs_r
        (omega (arith, (length-draw_pairs rng 1 (t - 1)).0, (length-draw_pairs rng 1 (t - 1)).1))

  -- The polynomial of `random_with_zero_constant` has 0 and `t - 1` further coefficients.
  pub random_with_zero_constant-lefts :
      (t : ℕ) (ped : PedersenSetup c) (rng : ℕ → Scalar)
      → let poly = random_with_zero_constant c t ped rng in
        lefts (zip poly.coeffs_f poly.coeffs_r) ≡ field.zero ∷ (draw_pairs c rng 0 (t - 1)).0
  unfolding random_with_zero_constant
  random_with_zero_constant-lefts t ped rng =
      lefts-zip _ (random_with_zero_constant c t ped rng).coeffs_r
        (omega (arith, (length-draw_pairs rng 0 (t - 1)).0, (length-draw_pairs rng 0 (t - 1)).1))

  IsDealt : PrivatePoly c → VssShare c → Type 0
  IsDealt poly s = s ≡ eval c poly s.index

  All-IsDealt : (poly : PrivatePoly c) (is : List ℕ) → All (IsDealt poly) (map (eval c poly) is)
  unfolding IsDealt eval
  All-IsDealt poly [] = tt
  All-IsDealt poly (i ∷ is) = (refl, All-IsDealt poly is)

  -- Every share that `Vss::share` deals passes against the commitments that it publishes.
  share-verify_share :
      (ped : PedersenSetup c) (secret : Scalar) (t n : ℕ) (rng : ℕ → Scalar) (s : VssShare c)
      → Elem s (share c ped secret t n rng).1
      → verify_share c (share c ped secret t n rng).0 s.index s.value s.blinding ped ≡ true
  unfolding share random_with_secret
  share-verify_share ped secret t n rng s m =
      (verify_share-commit_poly (random_with_secret c secret t ped rng) s.index s.value
          s.blinding).1
        (ap₂ (commit c ped) (ap (λ (u : VssShare c). u.value) dealt)
          (ap (λ (u : VssShare c). u.blinding) dealt))
    where
      dealt : s ≡ eval c (random_with_secret c secret t ped rng) s.index
      dealt =
          unfold IsDealt in
          All-Elem (IsDealt (random_with_secret c secret t ped rng))
            (map (eval c (random_with_secret c secret t ped rng)) (range_from 1 (u16 n)))
            (All-IsDealt (random_with_secret c secret t ped rng) (range_from 1 (u16 n))) m

  values-horner :
      (poly : PrivatePoly c) (shares : List (VssShare c))
      → All (IsDealt poly) shares
      → map (λ (s : VssShare c). s.value) shares
        ≡ map
            (λ i. horner field (lefts (zip poly.coeffs_f poly.coeffs_r)) (field.from_u64 i))
            (map (λ (s : VssShare c). s.index) shares)
  unfolding IsDealt
  values-horner poly [] h = refl
  values-horner poly (s ∷ shares) h =
      ap₂ ◌∷◌ (ap (λ (u : VssShare c). u.value) h.0 ∙ (eval-horner poly s.index).0)
        (values-horner poly shares h.1)

  -- Any `t` or more, and at least one, of the dealt shares whose indices are different scalars
  -- reconstruct the secret.
  share-reconstruct :
      (ped : PedersenSetup c) (secret : Scalar) (t n : ℕ) (rng : ℕ → Scalar)
      (chosen : List (VssShare c))
      → All (λ s. Elem s (share c ped secret t n rng).1) chosen
      → Distinct (points field (map (λ s. s.index) chosen))
      → t ≤ length chosen
      → 0 < length chosen
      → reconstruct c {E = CryptoError} chosen ≡ ok secret
  unfolding share reconstruct horner
  share-reconstruct ped secret t n rng chosen m d h pos =
      let poly = random_with_secret c secret t ped rng in
      let dealt =
        All-map
          (λ s.
            All-Elem (IsDealt poly) (map (eval c poly) (range_from 1 (u16 n)))
              (All-IsDealt poly (range_from 1 (u16 n))))
          chosen m in
      rw (lagrange_at_zero-weights field (map (λ s. s.index) chosen) d) (
        ap ok (
          weighted_loop-horner field (map (λ s. s.index) chosen)
            (secret ∷ (draw_pairs c rng 1 (t - 1)).0) _
            (values-horner poly chosen dealt
              ∙ ap
                  (λ cs.
                    map (λ i. horner field cs (field.from_u64 i))
                      (map (λ (s : VssShare c). s.index) chosen))
                  (random_with_secret-lefts secret t ped rng))
            d
            (omega (
              arith,
              (length-draw_pairs rng 1 (t - 1)).0,
              length-map (λ (s : VssShare c). s.index) chosen,
            ))
          ∙ ap (add secret) (Fields.zero-mul field _)
          ∙ Fields.add-zero field secret))
