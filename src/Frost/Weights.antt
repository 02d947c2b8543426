-- ===== src/Frost/Weights.antt =====
-- The coefficients of frost.rs and those of shamir.rs: the first leave out the signs, which cancel.
use sigimora_api_backend.Base.{
  ℕ, suc, ◌≡◌, refl, sym, ap, ap₂, ◌∙◌, ◌≢◌, Option, some, none, List, [], ◌∷◌, inl, inr,
  Bool-cases, Outcome, ok, err, panic, ◌==◌, unwrap, ◌>>=◌, ok_injective,
}
use sigimora_api_backend.Math.Field.{
  Field, negate-mul, mul-negate, mul_ne, inv, inv-mul, invert-inv, mul-inv, sub_eq, zero-mul,
  mul-zero, products,
}
use sigimora_api_backend.Math.Field as Fields
use sigimora_api_backend.Shamir.{lagrange_terms, lagrange_loop, lagrange_at_zero}
use sigimora_api_backend.Frost.{
  coefficient_terms, coefficient_loop, lagrange_coefficients, invert_or_one,
}

module _ {S : Type 0} (f : Field S) where
  open f use {one, add, sub, mul, negate, invert, from_u64}

  -- A factor that both terms of a round share.
  abbrev Scales : S × S → S × S → Type 0
  Scales signed plain =
      (u : S) × (u ≢ f.zero) × (signed.0 ≡ mul u plain.0) × (signed.1 ≡ mul u plain.1)

  negate-sub : (a b : S) → sub a b ≡ negate (sub b a)
  negate-sub a b = Fields.add_cancel f (sub b a) _ _ (
      ap₂ add (f.sub_eq b a) (f.sub_eq a b)
      ∙ cancel b (negate a) a (negate b)
      ∙ ap₂ add (f.add-negate b) (f.add_comm (negate a) a ∙ f.add-negate a)
      ∙ f.zero-add f.zero
      ∙ sym (f.add-negate (sub b a)))
    where
      cancel : (p q r s : S) → add (add p q) (add r s) ≡ add (add p s) (add q r)
      cancel p q r s = simp Fields.sums

  negate_ne : (u : S) → u ≢ f.zero → negate u ≢ f.zero
  negate_ne u h e = h (sym (Fields.add-zero f u) ∙ ap (add u) (sym e) ∙ f.add-negate u)

  move_sign : (u a b : S) → mul (mul u a) (negate b) ≡ mul (negate u) (mul a b)
  move_sign u a b =
      mul-negate f (mul u a) b ∙ ap negate (f.mul_assoc u a b) ∙ sym (negate-mul f u (mul a b))

  terms-Scales :
      (i : ℕ) (xi : S) (j : ℕ) (l : List ℕ) (signed plain : S × S)
      → Scales signed plain
      → Scales (lagrange_terms f i xi j l signed) (coefficient_terms f i xi j l plain)
  unfolding lagrange_terms coefficient_terms
  terms-Scales i xi j [] signed plain s = s
  terms-Scales i xi j (idx ∷ rest) (n, d) (n', d') (u, h, en, ed) = elim (Bool-cases (i == j)) [
    | inl e ↦
        rw (e, lagrange_terms, coefficient_terms)
          (terms-Scales i xi (suc j) rest (n, d) (n', d') (u, h, en, ed))
    | inr e ↦
        rw (e, lagrange_terms, coefficient_terms)
          (terms-Scales i xi (suc j) rest _ _ (
            negate u,
            negate_ne u h,
            ap (λ t. mul t (negate (from_u64 idx))) en ∙ move_sign u n' (from_u64 idx),
            ap₂ mul ed (negate-sub xi (from_u64 idx)) ∙ move_sign u d' (sub (from_u64 idx) xi),
          ))
  ]

  -- The shared factor cancels in the quotient.
  quotient_same :
      (u n d b : S)
      → u ≢ f.zero
      → invert (mul u d) ≡ some b
      → mul (mul u n) b ≡ mul n (invert_or_one f d)
  unfolding invert_or_one
  quotient_same u n d b h e =
      let d_ne : d ≢ f.zero = λ z. no_inverse (ap (mul u) z ∙ mul-zero f u) in
      rw (invert-inv f d d_ne, invert_or_one)
        (ap (mul (mul u n)) (value d_ne)
          ∙ shuffle u n (inv f u) (inv f d)
          ∙ ap (λ t. mul t (mul n (inv f d))) (mul-inv f u h)
          ∙ f.one-mul (mul n (inv f d)))
    where
      shuffle : (a b c d : S) → mul (mul a b) (mul c d) ≡ mul (mul a c) (mul b d)
      shuffle a b c d = simp products

      no_inverse : mul u d ≢ f.zero
      no_inverse z = let q = sym e ∙ ap invert z ∙ f.invert-zero in cc

      value : d ≢ f.zero → b ≡ mul (inv f u) (inv f d)
      value d_ne =
          let q = sym e ∙ invert-inv f (mul u d) (mul_ne f u d h d_ne) in
          let r : b ≡ inv f (mul u d) = cc in r ∙ inv-mul f u d h d_ne

  -- What a round that returns has found.
  round_ok :
      {E : Type 0} (o : Option S) (m : Outcome E (List S)) (n : S) (ws : List S)
      → (unwrap o >>= λ b. m >>= λ l. ok (mul n b ∷ l)) ≡ ok ws
      → (b : S) × (l : List S) × (o ≡ some b) × (m ≡ ok l) × (ws ≡ mul n b ∷ l)
  round_ok none m n ws e = cc
  round_ok (some b) (ok l) n ws e = (b, l, refl, refl, sym (ok_injective e))
  round_ok (some b) (err x) n ws e = cc
  round_ok (some b) panic n ws e = cc

  -- A round of shamir.rs that returns, and the round of frost.rs.
  loop_same :
      {E : Type 0} (indices : List ℕ) (i : ℕ) (rest : List ℕ) (ws : List S)
      → lagrange_loop f {E = E} indices i rest ≡ ok ws
      → coefficient_loop f indices i rest ≡ ws
  unfolding lagrange_loop coefficient_loop
  loop_same indices i [] ws e = cc
  loop_same {E} indices i (idx ∷ rest) ws e =
      let signed = lagrange_terms f i (from_u64 idx) 0 indices (one, one) in
      let plain = coefficient_terms f i (from_u64 idx) 0 indices (one, one) in
      let (u, h, en, ed) =
        terms-Scales i (from_u64 idx) 0 indices (one, one) (one, one)
          (one, f.one-ne-zero, sym (f.one-mul one), sym (f.one-mul one)) in
      let (b, l, s, r, q) = round_ok (invert signed.1) _ signed.0 ws e in
      let round : mul signed.0 b ≡ mul plain.0 (invert_or_one f plain.1) =
        ap (λ t. mul t b) en ∙ quotient_same u plain.0 plain.1 b h (ap invert (sym ed) ∙ s) in
      ap₂ ◌∷◌ (sym round) (loop_same indices (suc i) rest l r) ∙ sym q

  -- Wherever the coefficients of shamir.rs do not panic, those of frost.rs are the same.
  pub lagrange_coefficients-lagrange_at_zero :
      {E : Type 0} (indices : List ℕ) (ws : List S)
      → lagrange_at_zero f {E = E} indices ≡ ok ws
      → lagrange_coefficients f indices ≡ ws
  unfolding lagrange_coefficients lagrange_at_zero
  lagrange_coefficients-lagrange_at_zero indices ws e = loop_same indices 0 indices ws e
