-- ===== src/Shamir/Lagrange.antt =====
-- `lagrange_at_zero` computes the weights of Lagrange interpolation, and panics on equal points.
use mathlib.Core.List.{map-append}
use sigimora_api_backend.Base.{
  ℕ, suc, ◌+◌, ◌<◌, ◌≤◌, ◌≡◌, refl, sym, ap, ap₂, subst, ◌∙◌, ◌≢◌, List, [], ◌∷◌, ◌++◌, map, length,
  length-append, All, All-append_middle, arith, append_assoc, length-map, ok, panic, inl, inr,
  Option-cases, ==_ne, ==_refl, if◌then◌else◌,
}
use sigimora_api_backend.Math.Field.{
  Field, mul-one, mul_ne, inv, inv-mul, invert-inv, sub_ne, sub_self, zero-mul, mul-zero, products,
}
use sigimora_api_backend.Math.Group.{weighted_scalars}
use sigimora_api_backend.Shamir.{lagrange_terms, lagrange_loop, lagrange_at_zero}
use sigimora_api_backend.Shamir.Poly.{differences, differences_ne, horner}
use sigimora_api_backend.Shamir.Interpolation.{Distinct, ratio, basis, interp, interp-horner}

module _ {S : Type 0} (f : Field S) where
  open f use {one, add, sub, mul, negate, invert, from_u64}

  abbrev pub points : List ℕ → List S
  points = map from_u64

  points-append : (xs ys : List ℕ) → points (xs ++ ys) ≡ points xs ++ points ys
  points-append = map-append from_u64

  unfoldable pub numerator : List S → S
  numerator [] = one
  numerator (o ∷ os) = mul (negate o) (numerator os)

  unfoldable pub weights : List S → List S → List S
  weights pre [] = []
  weights pre (x ∷ post) = basis f x (pre ++ post) ∷ weights (pre ++ x ∷ []) post

  regroup : (a b c : S) → mul (mul a b) c ≡ mul a (mul b c)
  regroup = f.mul_assoc

  terms_after :
      (i : ℕ) (xi : S) (j : ℕ) (l : List ℕ) (num den : S)
      → i < j
      → lagrange_terms f i xi j l (num, den)
        ≡ (mul num (numerator (points l)), mul den (differences f xi (points l)))
  unfolding lagrange_terms numerator differences
  terms_after i xi j [] num den h = ap₂ (λ a b. (a, b)) (sym (mul-one f num)) (sym (mul-one f den))
  terms_after i xi j (o ∷ os) num den h = rw (==_ne i j (omega arith)) (
      terms_after i xi (suc j) os _ _ (omega arith)
      ∙ ap₂ (λ a b. (a, b)) (regroup _ _ _) (regroup _ _ _))

  -- The inner loop multiplies over the other positions.
  terms_others :
      (i : ℕ) (xi : S) (j : ℕ) (pre : List ℕ) (x : ℕ) (post : List ℕ) (num den : S)
      → i ≡ j + length pre
      → lagrange_terms f i xi j (pre ++ x ∷ post) (num, den) ≡ (
        mul num (numerator (points (pre ++ post))),
        mul den (differences f xi (points (pre ++ post))),
      )
  unfolding lagrange_terms numerator differences
  terms_others i xi j [] x post num den h =
      ap (λ k. lagrange_terms f k xi j (x ∷ post) (num, den)) {x = i} {y = j} (omega arith)
      ∙ ap
          (λ b. lagrange_terms f j xi (suc j) post (
            if b
            then (num, den)
            else (mul num (negate (from_u64 x)), mul den (sub xi (from_u64 x)))))
          (==_refl j)
      ∙ terms_after j xi (suc j) post num den (omega arith)
  terms_others i xi j (o ∷ os) x post num den h =
      rw (==_ne i j (omega arith), lagrange_terms)
        (terms_others i xi (suc j) os x post _ _ (omega arith)
          ∙ ap₂ (λ a b. (a, b)) (regroup _ _ _) (regroup _ _ _))

  quotient-basis :
      (x : S) (os : List S)
      → All (λ o. x ≢ o) os
      → mul (numerator os) (inv f (differences f x os)) ≡ basis f x os
  unfolding numerator differences basis ratio
  quotient-basis x [] h = f.one-mul _ ∙ inv_one
    where
      inv_one : inv f one ≡ one
      inv_one =
          sym (f.one-mul (inv f one))
          ∙ package.sigimora_api_backend.Math.Field.mul-inv f one f.one-ne-zero
  quotient-basis x (o ∷ os) h =
      ap (mul (mul (negate o) (numerator os)))
        (inv-mul f (sub x o) (differences f x os) (sub_ne f h.0) (differences_ne f x os h.1))
      ∙ shuffle (negate o) (numerator os) (inv f (sub x o)) (inv f (differences f x os))
      ∙ ap (mul (mul (negate o) (inv f (sub x o)))) (quotient-basis x os h.1)
    where
      shuffle : (a b c d : S) → mul (mul a b) (mul c d) ≡ mul (mul a c) (mul b d)
      shuffle a b c d = simp products

  Distinct-others :
      (pre : List S) (x : S) (post : List S)
      → Distinct (pre ++ x ∷ post)
      → All (λ o. x ≢ o) (pre ++ post)
  Distinct-others [] x post d = d.0
  Distinct-others (p ∷ pre) x post d =
      (λ e. All-append_middle (λ y. p ≢ y) pre x post d.0 (sym e), Distinct-others pre x post d.1)

  -- What one round of the outer loop divides.
  round_terms :
      (pre : List ℕ) (x : ℕ) (post : List ℕ)
      → lagrange_terms f (length pre) (from_u64 x) 0 (pre ++ x ∷ post) (one, one)
        ≡ (numerator (points (pre ++ post)), differences f (from_u64 x) (points (pre ++ post)))
  round_terms pre x post =
      terms_others (length pre) (from_u64 x) 0 pre x post one one (omega arith)
      ∙ ap₂ (λ a b. (a, b)) (f.one-mul _) (f.one-mul _)

  -- One round of the outer loop, its terms given.
  loop_round :
      {E : Type 0} (indices : List ℕ) (i x : ℕ) (post : List ℕ) (os ws : List S)
      → lagrange_terms f i (from_u64 x) 0 indices (one, one)
        ≡ (numerator os, differences f (from_u64 x) os)
      → All (λ o. from_u64 x ≢ o) os
      → lagrange_loop f {E = E} indices (suc i) post ≡ ok ws
      → lagrange_loop f {E = E} indices i (x ∷ post) ≡ ok (basis f (from_u64 x) os ∷ ws)
  unfolding lagrange_loop
  loop_round indices i x post os ws e h r =
      rw (e, invert-inv f _ (differences_ne f _ _ h), r)
        (ap (λ t. ok (t ∷ ws)) (quotient-basis (from_u64 x) os h))

  loop-weights :
      {E : Type 0} (indices pre post : List ℕ) (i : ℕ)
      → indices ≡ pre ++ post
      → i ≡ length pre
      → Distinct (points indices)
      → lagrange_loop f {E = E} indices i post ≡ ok (weights (points pre) (points post))
  unfolding weights
  loop-weights indices pre [] i e n d = unfold lagrange_loop in refl
  loop-weights indices pre (x ∷ post) i e n d =
      loop_round indices i x post (points (pre ++ post)) _ (rw (n, e) (round_terms pre x post))
        (rw (points-append pre post) (
          Distinct-others (points pre) (from_u64 x) (points post)
            (subst Distinct (ap points e ∙ points-append pre (x ∷ post)) d)))
        (loop-weights indices (pre ++ x ∷ []) post (suc i)
          (e ∙ sym (append_assoc pre (x ∷ []) post)) (omega (arith, length-append pre (x ∷ []))) d)
      ∙ ap ok (
          ap₂ ◌∷◌ (ap (basis f (from_u64 x)) (points-append pre post))
            (ap (λ t. weights t (points post)) (points-append pre (x ∷ []))))

  -- On distinct points the loop returns the weights of interpolation.
  pub lagrange_at_zero-weights :
      {E : Type 0} (indices : List ℕ)
      → Distinct (points indices)
      → lagrange_at_zero f {E = E} indices ≡ ok (weights [] (points indices))
  unfolding lagrange_at_zero
  lagrange_at_zero-weights indices d = loop-weights indices [] indices 0 refl (omega arith) d

  -- The loop's weighted sum is interpolation.
  weighted-weights :
      (h : S → S) (pre post : List S)
      → weighted_scalars f (map h post) (weights pre post) ≡ interp f h pre post
  unfolding weighted_scalars weights interp
  weighted-weights h pre [] = refl
  weighted-weights h pre (x ∷ post) =
      ap (add (mul (h x) (basis f x (pre ++ post)))) (weighted-weights h (pre ++ x ∷ []) post)

  -- The weights of distinct points reproduce the constant term of a polynomial with at most as
  -- many coefficients as there are points.
  pub weights-horner :
      (indices : List ℕ) (cs : List S)
      → Distinct (points indices)
      → length cs ≤ length indices
      → weighted_scalars f
          (map (λ i. horner f cs (from_u64 i)) indices)
          (weights [] (points indices))
        ≡ horner f cs f.zero
  weights-horner indices cs d h =
      ap (λ t. weighted_scalars f t (weights [] (points indices))) (sym (map-map indices))
      ∙ weighted-weights (horner f cs) [] (points indices)
      ∙ interp-horner f (points indices) cs d (omega (arith, length-map from_u64 indices))
    where
      map-map :
          (is : List ℕ) → map (horner f cs) (points is) ≡ map (λ i. horner f cs (from_u64 i)) is
      map-map [] = refl
      map-map (i ∷ is) = ap (◌∷◌ (horner f cs (from_u64 i))) (map-map is)

  differences_hit :
      (x : S) (os : List S) (y : S) (ps : List S) → x ≡ y → differences f x (os ++ y ∷ ps) ≡ f.zero
  unfolding differences
  differences_hit x [] y ps e =
      ap (λ t. mul t (differences f x ps)) (ap (sub x) (sym e) ∙ sub_self f x) ∙ zero-mul f _
  differences_hit x (o ∷ os) y ps e =
      ap (mul (sub x o)) (differences_hit x os y ps e) ∙ mul-zero f _

  -- A round over a repeated point panics.
  loop_panic :
      {E : Type 0} (indices : List ℕ) (i x : ℕ) (post : List ℕ) (os : List S)
      → lagrange_terms f i (from_u64 x) 0 indices (one, one)
        ≡ (numerator os, differences f (from_u64 x) os)
      → differences f (from_u64 x) os ≡ f.zero
      → lagrange_loop f {E = E} indices i (x ∷ post) ≡ panic
  unfolding lagrange_loop
  loop_panic indices i x post os e z = rw (e, z, f.invert-zero) refl

  -- And so does every round before it.
  loop_before :
      {E : Type 0} (indices : List ℕ) (i x : ℕ) (post : List ℕ)
      → lagrange_loop f {E = E} indices (suc i) post ≡ panic
      → lagrange_loop f {E = E} indices i (x ∷ post) ≡ panic
  unfolding lagrange_loop
  loop_before indices i x post r =
      elim (Option-cases (invert (lagrange_terms f i (from_u64 x) 0 indices (one, one)).1)) [
        | inl e ↦ rw e refl
        | inr (b, e) ↦ rw (e, r) refl
      ]

  loop_repeated :
      {E : Type 0} (indices pre : List ℕ) (a : ℕ) (mid : List ℕ) (b : ℕ) (post rest : List ℕ)
      (i : ℕ)
      → indices ≡ pre ++ (rest ++ a ∷ (mid ++ b ∷ post))
      → i ≡ length pre
      → from_u64 a ≡ from_u64 b
      → lagrange_loop f {E = E} indices i (rest ++ a ∷ (mid ++ b ∷ post)) ≡ panic
  loop_repeated indices pre a mid b post [] i e n h =
      loop_panic indices i a (mid ++ b ∷ post) (points (pre ++ (mid ++ b ∷ post)))
        (rw (n, e) (round_terms pre a (mid ++ b ∷ post)))
        (ap (λ t. differences f (from_u64 a) (points t)) (sym (append_assoc pre mid (b ∷ post)))
          ∙ ap (differences f (from_u64 a)) (points-append (pre ++ mid) (b ∷ post))
          ∙ differences_hit (from_u64 a) (points (pre ++ mid)) (from_u64 b) (points post) h)
  loop_repeated indices pre a mid b post (r ∷ rest) i e n h = loop_before indices i r _ (
      loop_repeated indices (pre ++ r ∷ []) a mid b post rest (suc i)
        (e ∙ sym (append_assoc pre (r ∷ []) _)) (omega (arith, length-append pre (r ∷ []))) h)

  -- A list with a repeated point panics.
  lagrange_at_zero_repeated :
      {E : Type 0} (before : List ℕ) (a : ℕ) (mid : List ℕ) (b : ℕ) (post : List ℕ)
      → from_u64 a ≡ from_u64 b
      → lagrange_at_zero f {E = E} (before ++ a ∷ (mid ++ b ∷ post)) ≡ panic
  unfolding lagrange_at_zero
  lagrange_at_zero_repeated before a mid b post h =
      loop_repeated _ [] a mid b post before 0 refl (omega arith) h
