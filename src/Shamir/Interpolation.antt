-- ===== src/Shamir/Interpolation.antt =====
-- Lagrange interpolation at 0 over a field: the weights of distinct points reproduce the constant
-- term of every polynomial with at most as many coefficients as there are points.
use sigimora_api_backend.Base.{
  suc, ◌≤◌, ◌≡◌, refl, sym, ap, ap₂, ◌∙◌, ◌≢◌, List, [], ◌∷◌, ◌++◌, length, All, All-map, All-of,
  arith,
}
use sigimora_api_backend.Math.Field.{
  Field, add_cancel, add-zero, add-mul, mul-zero, zero-mul, mul-one, mul_cancel, mul-inv, inv,
  sub_ne, sums, products,
}
use sigimora_api_backend.Shamir.Poly.{
  horner, quotient, length-quotient, horner-quotient, vanishing, length-vanishing, horner-vanishing,
  differences, differences_ne, differences_root,
}

-- No two elements are equal.
abbrev pub Distinct : {S : Type 0} → List S → Type 0
Distinct [] = Unit {0}
Distinct (x ∷ xs) = All (λ y. x ≢ y) xs × Distinct xs

module _ {S : Type 0} (f : Field S) where
  open f use {add, sub, mul, negate}

  -- `-o / (x - o)`.
  unfoldable pub ratio : S → S → S
  ratio x o = mul (negate o) (inv f (sub x o))

  unfoldable pub basis : S → List S → S
  basis x [] = f.one
  basis x (o ∷ os) = mul (ratio x o) (basis x os)

  -- `Σ h(x) λ_x` over the points `x` of `post`, whose weights count the points of `pre` too.
  unfoldable pub interp : (S → S) → List S → List S → S
  interp h pre [] = f.zero
  interp h pre (x ∷ post) = add (mul (h x) (basis x (pre ++ post))) (interp h (pre ++ x ∷ []) post)

  interp-cons :
      (h : S → S) (o : S) (pre post : List S)
      → interp h (o ∷ pre) post ≡ interp (λ x. mul (h x) (ratio x o)) pre post
  unfolding interp basis
  interp-cons h o pre [] = refl
  interp-cons h o pre (x ∷ post) =
      ap₂ add (sym (f.mul_assoc (h x) (ratio x o) (basis x (pre ++ post))))
        (interp-cons h o (pre ++ x ∷ []) post)

  interp_congr :
      (h k : S → S) (pre post : List S)
      → All (λ x. h x ≡ k x) post
      → interp h pre post ≡ interp k pre post
  unfolding interp
  interp_congr h k pre [] e = refl
  interp_congr h k pre (x ∷ post) e =
      ap₂ add (ap (λ t. mul t (basis x (pre ++ post))) e.0)
        (interp_congr h k (pre ++ x ∷ []) post e.1)

  interp-add :
      (h k : S → S) (pre post : List S)
      → interp (λ x. add (h x) (k x)) pre post ≡ add (interp h pre post) (interp k pre post)
  unfolding interp
  interp-add h k pre [] = sym (f.zero-add f.zero)
  interp-add h k pre (x ∷ post) =
      ap₂ add (add-mul f (h x) (k x) (basis x (pre ++ post))) (interp-add h k (pre ++ x ∷ []) post)
      ∙ swap_inner _ _ _ _
    where
      swap_inner : (a b c d : S) → add (add a b) (add c d) ≡ add (add a c) (add b d)
      swap_inner a b c d = simp sums

  interp-scale :
      (c : S) (h : S → S) (pre post : List S)
      → interp (λ x. mul c (h x)) pre post ≡ mul c (interp h pre post)
  unfolding interp
  interp-scale c h pre [] = sym (mul-zero f c)
  interp-scale c h pre (x ∷ post) =
      ap₂ add (f.mul_assoc c (h x) (basis x (pre ++ post))) (interp-scale c h (pre ++ x ∷ []) post)
      ∙ sym (f.mul-add c _ _)

  interp_zero :
      (h : S → S) (pre post : List S) → All (λ x. h x ≡ f.zero) post → interp h pre post ≡ f.zero
  unfolding interp
  interp_zero h pre [] e = refl
  interp_zero h pre (x ∷ post) e =
      ap₂ add (ap (λ t. mul t (basis x (pre ++ post))) e.0 ∙ zero-mul f _)
        (interp_zero h (pre ++ x ∷ []) post e.1)
      ∙ f.zero-add f.zero

  -- The total weight of the points `a ∷ ts`.
  unity : S → List S → S
  unity a ts = add (basis a ts) (interp (λ x. ratio x a) [] ts)

  cancel_difference :
      (a x w q : S)
      → a ≢ x
      → mul (add w (mul (sub x a) q)) (ratio x a) ≡ add (mul w (ratio x a)) (mul (negate a) q)
  unfolding ratio
  cancel_difference a x w q h =
      add-mul f w (mul (sub x a) q) (ratio x a)
      ∙ ap (add (mul w (ratio x a))) (
          shuffle (sub x a) q (negate a) (inv f (sub x a))
          ∙ ap (λ t. mul t (mul (negate a) q)) (mul-inv f (sub x a) (sub_ne f (λ e. h (sym e))))
          ∙ f.one-mul _)
    where
      shuffle : (d q n i : S) → mul (mul d q) (mul n i) ≡ mul (mul d i) (mul n q)
      shuffle d q n i = simp products

  interp-split :
      (v : S → S) (a : S) (ts : List S)
      → interp v [] (a ∷ ts)
        ≡ add (mul (v a) (basis a ts)) (interp (λ x. mul (v x) (ratio x a)) [] ts)
  unfolding interp
  interp-split v a ts = ap (add (mul (v a) (basis a ts))) (interp-cons v a [] ts)

  -- One point is split off by a division.
  interp_step :
      (a c : S) (cs ts : List S)
      → All (λ t. a ≢ t) ts
      → interp (horner f (c ∷ cs)) [] (a ∷ ts)
        ≡ add
            (mul (horner f (c ∷ cs) a) (unity a ts))
            (mul (negate a) (interp (horner f (quotient f a cs)) [] ts))
  unfolding unity
  interp_step a c cs ts h =
      interp-split v a ts
      ∙ ap (add (mul (v a) (basis a ts))) (
          interp_congr _ _ [] ts (
            All-map
              (λ x e.
                ap (λ t. mul t (ratio x a)) (horner-quotient f a x c cs)
                ∙ cancel_difference a x (v a) (q x) e)
              ts h)
          ∙ interp-add (λ x. mul (v a) (ratio x a)) (λ x. mul (negate a) (q x)) [] ts
          ∙ ap₂ add (interp-scale (v a) (λ x. ratio x a) [] ts) (interp-scale (negate a) q [] ts))
      ∙ sym (f.add_assoc _ _ _)
      ∙ ap (λ t. add t (mul (negate a) (interp q [] ts))) (sym (f.mul-add (v a) _ _))
    where
      v : S → S
      v = horner f (c ∷ cs)

      q : S → S
      q = horner f (quotient f a cs)

  differences-basis :
      (a : S) (ts : List S)
      → All (λ t. a ≢ t) ts
      → mul (differences f a ts) (basis a ts) ≡ differences f f.zero ts
  unfolding differences basis ratio
  differences-basis a [] h = f.one-mul f.one
  differences-basis a (t ∷ ts) h =
      shuffle (sub a t) (differences f a ts) (negate t) (inv f (sub a t)) (basis a ts)
      ∙ ap₂ mul
          (ap (λ u. mul u (negate t)) (mul-inv f (sub a t) (sub_ne f h.0))
            ∙ f.one-mul (negate t)
            ∙ sym (f.zero-add (negate t))
            ∙ sym (f.sub_eq f.zero t))
          (differences-basis a ts h.1)
    where
      shuffle : (d p n i b : S) → mul (mul d p) (mul (mul n i) b) ≡ mul (mul (mul d i) n) (mul p b)
      shuffle d p n i b = simp products

  zero_value :
      (a c : S) (cs : List S)
      → horner f (c ∷ cs) f.zero
        ≡ add (horner f (c ∷ cs) a) (mul (negate a) (horner f (quotient f a cs) f.zero))
  zero_value a c cs =
      horner-quotient f a f.zero c cs
      ∙ ap (λ t. add (horner f (c ∷ cs) a) (mul t (horner f (quotient f a cs) f.zero)))
          (f.sub_eq f.zero a ∙ f.zero-add (negate a))

  module _ (ts : List S)
      (rec : (cs : List S)
        → length cs ≤ length ts
        → interp (horner f cs) [] ts ≡ horner f cs f.zero) where
    unity_of_root :
        (a c : S) (cs : List S)
        → All (λ t. a ≢ t) ts
        → length cs ≤ length ts
        → ((x : S) → horner f (c ∷ cs) x ≡ differences f x ts)
        → unity a ts ≡ f.one
    unity_of_root a c cs h short e =
        mul_cancel f (v a) (unity a ts) f.one (λ z. differences_ne f a ts h (sym (e a) ∙ z))
          (add_cancel f tail _ _ (
              f.add_comm tail _
              ∙ ap (λ t. add (mul (v a) (unity a ts)) (mul (negate a) t))
                  (sym (rec (quotient f a cs) fits))
              ∙ sym (interp_step a c cs ts h)
              ∙ value
              ∙ zero_value a c cs
              ∙ f.add_comm (v a) tail)
            ∙ sym (mul-one f (v a)))
      where
        v : S → S
        v = horner f (c ∷ cs)

        tail : S
        tail = mul (negate a) (horner f (quotient f a cs) f.zero)

        fits : length (quotient f a cs) ≤ length ts
        fits = omega (arith, length-quotient f a cs)

        value : interp v [] (a ∷ ts) ≡ v f.zero
        value =
            interp-split v a ts
            ∙ ap₂ add (ap (λ t. mul t (basis a ts)) (e a) ∙ differences-basis a ts h) (
                interp_zero _ [] ts (
                  All-map (λ x r. ap (λ t. mul t (ratio x a)) (e x ∙ r) ∙ zero-mul f _) ts
                    (differences_root f ts)))
            ∙ add-zero f _
            ∙ sym (e f.zero)

    unity_one : (a : S) → All (λ t. a ≢ t) ts → unity a ts ≡ f.one
    unity_one a h = go (vanishing f ts) (length-vanishing f ts) (horner-vanishing f ts)
      where
        go :
            (l : List S)
            → length l ≡ suc (length ts)
            → ((x : S) → horner f l x ≡ differences f x ts)
            → unity a ts ≡ f.one
        go [] n e = absurd (omega arith)
        go (c ∷ cs) n e = unity_of_root a c cs h (omega arith) e

    interp_more :
        (a c : S) (cs : List S)
        → All (λ t. a ≢ t) ts
        → length cs ≤ length ts
        → interp (horner f (c ∷ cs)) [] (a ∷ ts) ≡ horner f (c ∷ cs) f.zero
    interp_more a c cs h short =
        interp_step a c cs ts h
        ∙ ap₂ add (ap (mul (horner f (c ∷ cs) a)) (unity_one a h) ∙ mul-one f _)
            (ap (mul (negate a)) (rec (quotient f a cs) (omega (arith, length-quotient f a cs))))
        ∙ sym (zero_value a c cs)

  -- Interpolation at 0 from distinct points, as many as there are coefficients or more.
  pub interp-horner :
      (xs cs : List S)
      → Distinct xs
      → length cs ≤ length xs
      → interp (horner f cs) [] xs ≡ horner f cs f.zero
  interp-horner xs [] d h = unfold horner in interp_zero (λ x. f.zero) [] xs (All-of (λ x. refl) xs)
  interp-horner [] (c ∷ cs) d h = absurd (omega arith)
  interp-horner (a ∷ ts) (c ∷ cs) d h =
      interp_more ts (λ ds. interp-horner ts ds d.1) a c cs d.0 (omega arith)
