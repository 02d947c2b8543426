-- ===== src/Shamir/Poly.antt =====
-- Polynomials as coefficient lists, constant term first: value, division by `x - a`, product of
-- linear factors. The description against which shamir.rs is proved.
use sigimora_api_backend.Base.{
  suc, ◌≡◌, refl, sym, ap, ap₂, ◌∙◌, ◌≢◌, List, [], ◌∷◌, length, All, All-map,
}
use sigimora_api_backend.Math.Field.{
  Field, add-zero, add-mul, mul-zero, zero-mul, mul-negate, mul_ne, sub_ne, sub_self, add-sub,
  mul_left_comm, ring, units,
}

module _ {S : Type 0} (f : Field S) where
  open f use {add, sub, mul, negate}

  -- Horner's rule.
  unfoldable pub horner : List S → S → S
  horner [] x = f.zero
  horner (c ∷ cs) x = add c (mul x (horner cs x))

  -- The quotient of `c ∷ cs` by `x - a`, for any `c`.
  unfoldable pub quotient : S → List S → List S
  quotient a [] = []
  quotient a (c ∷ cs) = horner (c ∷ cs) a ∷ quotient a cs

  pub length-quotient : (a : S) (cs : List S) → length (quotient a cs) ≡ length cs
  unfolding quotient
  length-quotient a [] = refl
  length-quotient a (c ∷ cs) = ap suc (length-quotient a cs)

  -- `x y + z (x - z) = …`: the step of a division.
  mul-shift :
      (a x g r : S)
      → mul x (add g (mul (sub x a) r)) ≡ add (mul a g) (mul (sub x a) (add g (mul x r)))
  mul-shift a x g r =
      f.mul-add x g (mul (sub x a) r)
      ∙ ap₂ add (ap (λ t. mul t g) (sym (add-sub f x a)) ∙ add-mul f a (sub x a) g)
          (mul_left_comm f x (sub x a) r)
      ∙ f.add_assoc _ _ _
      ∙ ap (add (mul a g)) (sym (f.mul-add (sub x a) g (mul x r)))

  -- Division with remainder by a linear factor.
  pub horner-quotient :
      (a x : S) (c : S) (cs : List S)
      → horner (c ∷ cs) x ≡ add (horner (c ∷ cs) a) (mul (sub x a) (horner (quotient a cs) x))
  unfolding horner quotient
  horner-quotient a x c [] = simp (horner, mul-zero f, add-zero f)
  horner-quotient a x c (d ∷ ds) =
      ap (λ t. add c (mul x t)) (horner-quotient a x d ds)
      ∙ ap (add c) (mul-shift a x (horner (d ∷ ds) a) (horner (quotient a ds) x))
      ∙ sym (f.add_assoc c _ _)

  -- `carry + (x - b) · cs`, as coefficients.
  times_linear : S → S → List S → List S
  times_linear b carry [] = carry ∷ []
  times_linear b carry (c ∷ cs) = add carry (negate (mul b c)) ∷ times_linear b c cs

  length-times_linear :
      (b carry : S) (cs : List S) → length (times_linear b carry cs) ≡ suc (length cs)
  unfolding times_linear
  length-times_linear b carry [] = refl
  length-times_linear b carry (c ∷ cs) = ap suc (length-times_linear b c cs)

  linear-step :
      (b carry c x h : S)
      → add (add carry (negate (mul b c))) (mul x (add c (mul (sub x b) h)))
        ≡ add carry (mul (sub x b) (add c (mul x h)))
  linear-step b carry c x h = simp (f.sub_eq, ring, mul-negate)

  horner-times_linear :
      (b carry : S) (cs : List S) (x : S)
      → horner (times_linear b carry cs) x ≡ add carry (mul (sub x b) (horner cs x))
  unfolding horner times_linear
  horner-times_linear b carry [] x = simp units
  horner-times_linear b carry (c ∷ cs) x =
      ap (λ t. add (add carry (negate (mul b c))) (mul x t)) (horner-times_linear b c cs x)
      ∙ linear-step b carry c x (horner cs x)

  -- `∏ (x - b)` over `bs`, as coefficients.
  unfoldable pub vanishing : List S → List S
  unfolding times_linear
  vanishing [] = f.one ∷ []
  vanishing (b ∷ bs) = times_linear b f.zero (vanishing bs)

  -- `∏ (x - b)` over `bs`.
  unfoldable pub differences : S → List S → S
  differences x [] = f.one
  differences x (b ∷ bs) = mul (sub x b) (differences x bs)

  pub length-vanishing : (bs : List S) → length (vanishing bs) ≡ suc (length bs)
  unfolding vanishing
  length-vanishing [] = refl
  length-vanishing (b ∷ bs) =
      length-times_linear b f.zero (vanishing bs) ∙ ap suc (length-vanishing bs)

  pub horner-vanishing : (bs : List S) (x : S) → horner (vanishing bs) x ≡ differences x bs
  unfolding vanishing differences
  horner-vanishing [] x = unfold horner in simp units
  horner-vanishing (b ∷ bs) x =
      horner-times_linear b f.zero (vanishing bs) x
      ∙ f.zero-add _
      ∙ ap (mul (sub x b)) (horner-vanishing bs x)

  pub differences_ne : (x : S) (bs : List S) → All (λ b. x ≢ b) bs → differences x bs ≢ f.zero
  unfolding differences
  differences_ne x [] h = f.one-ne-zero
  differences_ne x (b ∷ bs) h = mul_ne f _ _ (sub_ne f h.0) (differences_ne x bs h.1)

  pub differences_root : (bs : List S) → All (λ x. differences x bs ≡ f.zero) bs
  unfolding differences
  differences_root [] = tt
  differences_root (b ∷ bs) = (
    ap (λ t. mul t (differences b bs)) (sub_self f b) ∙ zero-mul f _,
    All-map (λ x h. ap (mul (sub x b)) h ∙ mul-zero f _) bs (differences_root bs),
  )
