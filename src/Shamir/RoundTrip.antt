-- ===== src/Shamir/RoundTrip.antt =====
-- Splitting and reconstruction: any `t` or more of the shares give the secret back.
use sigimora_api_backend.Base.{
  ℕ, zero, suc, ◌-◌, ◌≤◌, ◌<◌, ◌≡◌, refl, sym, ap, ap₂, subst, ◌∙◌, List, [], ◌∷◌, map, length, All,
  All-map, All-Elem, Elem, arith, ok, draws, length-draws, range_from, u16, length-map,
}
use sigimora_api_backend.Math.Field.{Field, mul_assoc, mul_left_comm, add-zero, zero-mul}
use sigimora_api_backend.Math.Group.{
  Group, weighted_loop, weighted-mul, scalars, weighted, weighted_loop-identity, weighted_scalars,
}
use sigimora_api_backend.Shamir.{Share, scale_by_power, eval_terms, eval_at, split, reconstruct}
use sigimora_api_backend.Shamir.Poly.{horner}
use sigimora_api_backend.Shamir.Interpolation.{Distinct}
use sigimora_api_backend.Shamir.Lagrange.{points, weights, lagrange_at_zero-weights, weights-horner}

module _ {S : Type 0} (f : Field S) where
  open f use {add, mul, from_u64}

  unfoldable pub power : S → ℕ → S
  power x zero = f.one
  power x (suc n) = mul x (power x n)

  scale_by_power-mul : (x : S) (n : ℕ) (term : S) → scale_by_power f x n term ≡ mul term (power x n)
  unfolding scale_by_power power
  scale_by_power-mul x zero term = sym (f.mul_comm term f.one ∙ f.one-mul term)
  scale_by_power-mul x (suc n) term =
      scale_by_power-mul x n (mul term x) ∙ f.mul_assoc term x (power x n)

  eval_terms-horner :
      (x : S) (n : ℕ) (cs : List S) (value : S)
      → eval_terms f x n cs value ≡ add value (mul (power x n) (horner f cs x))
  unfolding eval_terms horner power
  eval_terms-horner x n [] value =
      sym (ap (add value) (f.mul_comm _ _ ∙ zero-mul f _) ∙ add-zero f value)
  eval_terms-horner x n (c ∷ cs) value =
      eval_terms-horner x (suc n) cs _
      ∙ ap (λ t. add (add value t) (mul (power x (suc n)) (horner f cs x)))
          (scale_by_power-mul x n c ∙ f.mul_comm c (power x n))
      ∙ f.add_assoc _ _ _
      ∙ ap (add value) (
          ap (add (mul (power x n) c)) (shift x (power x n) (horner f cs x))
          ∙ sym (f.mul-add (power x n) c _))
    where
      shift : (a b c : S) → mul (mul a b) c ≡ mul b (mul a c)
      shift a b c = simp (mul_assoc, mul_left_comm)

  -- The loop computes the value of the polynomial at the index.
  pub eval_at-horner :
      (c : S) (cs : List S) (i : ℕ) → eval_at f c cs i ≡ horner f (c ∷ cs) (from_u64 i)
  unfolding eval_at horner power
  eval_at-horner c cs i =
      eval_terms-horner (from_u64 i) 1 cs c
      ∙ ap (λ t. add c (mul t (horner f cs (from_u64 i)))) (f.mul_comm _ _ ∙ f.one-mul (from_u64 i))

  -- The share holds the value of the polynomial at its index.
  abbrev pub IsShareOf : List S → Share S → Type 0
  IsShareOf cs s = s.value ≡ horner f cs (from_u64 s.index)

  values-horner :
      (cs : List S) (shares : List (Share S))
      → All (IsShareOf cs) shares
      → map (λ (s : Share S). s.value) shares
        ≡ map (λ i. horner f cs (from_u64 i)) (map (λ (s : Share S). s.index) shares)
  values-horner cs [] h = refl
  values-horner cs (s ∷ shares) h = ap₂ ◌∷◌ h.0 (values-horner cs shares h.1)

  weighted-scalars : (vs ws : List S) → weighted (scalars f) vs ws ≡ weighted_scalars f vs ws
  unfolding weighted weighted_scalars
  weighted-scalars [] ws = refl
  weighted-scalars (v ∷ vs) [] = refl
  weighted-scalars (v ∷ vs) (w ∷ ws) = ap (add (mul v w)) (weighted-scalars vs ws)

  -- The weighted sum of the values of a polynomial is its value at 0.
  pub weighted_loop-horner :
      (indices : List ℕ) (cs vs : List S)
      → vs ≡ map (λ i. horner f cs (from_u64 i)) indices
      → Distinct (points f indices)
      → length cs ≤ length indices
      → weighted_loop (scalars f) f.zero vs (weights f [] (points f indices)) ≡ horner f cs f.zero
  weighted_loop-horner indices cs vs e d h =
      weighted_loop-identity (scalars f) _ _
      ∙ weighted-scalars _ _
      ∙ ap (λ t. weighted_scalars f t (weights f [] (points f indices))) e
      ∙ weights-horner f indices cs d h

  -- The same with every value, and the result, in the exponent of a point `p`.
  pub weighted_loop-mul :
      {G : Type 0} (g : Group S f G) (p : G) (indices : List ℕ) (cs vs : List S)
      → vs ≡ map (λ i. horner f cs (from_u64 i)) indices
      → Distinct (points f indices)
      → length cs ≤ length indices
      → weighted_loop g g.identity (map (g.mul p) vs) (weights f [] (points f indices))
        ≡ g.mul p (horner f cs f.zero)
  weighted_loop-mul g p indices cs vs e d h =
      weighted_loop-identity g _ _
      ∙ weighted-mul g p vs _
      ∙ ap (λ t. g.mul p (weighted_scalars f t (weights f [] (points f indices)))) e
      ∙ ap (g.mul p) (weights-horner f indices cs d h)

  pub horner-zero : (c : S) (cs : List S) → horner f (c ∷ cs) f.zero ≡ c
  unfolding horner
  horner-zero c cs = ap (add c) (zero-mul f _) ∙ add-zero f c

  -- Shares of one polynomial reconstruct its value at 0.
  pub reconstruct-horner :
      (cs : List S) (shares : List (Share S))
      → All (IsShareOf cs) shares
      → Distinct (points f (map (λ s. s.index) shares))
      → 0 < length shares
      → length cs ≤ length shares
      → reconstruct f shares ≡ ok (horner f cs f.zero)
  unfolding reconstruct
  reconstruct-horner cs [] h d pos n = absurd (omega arith)
  reconstruct-horner cs (s ∷ shares) h d pos n =
      rw (lagrange_at_zero-weights f (map (λ s. s.index) (s ∷ shares)) d) (
        ap ok (
          weighted_loop-horner (map (λ s. s.index) (s ∷ shares)) cs _
            (values-horner cs (s ∷ shares) h) d
            (omega (arith, length-map (λ (s : Share S). s.index) shares))))

  -- What a successful split returns.
  split-shares :
      (secret : S) (t n : ℕ) (rng : ℕ → S) (shares : List (Share S))
      → split f secret t n rng ≡ ok shares
      → (0 < t)
        × (shares
            ≡ map
                (λ i. record { index = i; value = eval_at f secret (draws rng 0 (t - 1)) i })
                (range_from 1 (u16 n)))
  unfolding split
  split-shares secret t n rng shares e = ground arith

  All-IsShareOf :
      (c : S) (cs : List S) (is : List ℕ)
      → All (IsShareOf (c ∷ cs)) (map (λ i. record { index = i; value = eval_at f c cs i }) is)
  All-IsShareOf c cs [] = tt
  All-IsShareOf c cs (i ∷ is) = (eval_at-horner c cs i, All-IsShareOf c cs is)

  -- If `split` returns shares, then any `t` or more of them whose indices are different scalars
  -- reconstruct the secret, whatever the random coefficients are.
  pub split-reconstruct :
      (secret : S) (t n : ℕ) (rng : ℕ → S) (shares chosen : List (Share S))
      → split f secret t n rng ≡ ok shares
      → All (λ s. Elem s shares) chosen
      → Distinct (points f (map (λ s. s.index) chosen))
      → t ≤ length chosen
      → reconstruct f chosen ≡ ok secret
  split-reconstruct secret t n rng shares chosen e m d h =
      let (pos, made) = split-shares secret t n rng shares e in
      let cs : List S = draws rng 0 (t - 1) in
      reconstruct-horner (secret ∷ cs) chosen
        (All-map
          (λ s. All-Elem (IsShareOf (secret ∷ cs)) shares (
            subst (All (IsShareOf (secret ∷ cs))) (sym made)
              (All-IsShareOf secret cs (range_from 1 (u16 n)))))
          chosen m)
        d (omega arith) (omega (arith, length-draws rng 0 (t - 1)))
      ∙ ap ok (horner-zero secret cs)
