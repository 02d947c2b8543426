-- ===== src/Shamir/Sums.antt =====
-- Sums of polynomials, as coefficient lists: what several dealers' polynomials add up to.
use sigimora_api_backend.Base.{
  ℕ, zero, suc, ◌≤◌, ◌≡◌, refl, sym, ap, ap₂, ◌∙◌, List, [], ◌∷◌, length, All, arith,
}
use sigimora_api_backend.Math.Field.{Field, add-zero, ring}
use sigimora_api_backend.Shamir.Poly.{horner}

module _ {S : Type 0} (f : Field S) where
  open f use {add, mul}

  unfoldable pub plus_poly : List S → List S → List S
  plus_poly [] ds = ds
  plus_poly (c ∷ cs) [] = c ∷ cs
  plus_poly (c ∷ cs) (d ∷ ds) = add c d ∷ plus_poly cs ds

  unfoldable pub sum_poly : List (List S) → List S
  unfolding plus_poly
  sum_poly [] = []
  sum_poly (p ∷ ps) = plus_poly p (sum_poly ps)

  -- `Σ p(x)`.
  unfoldable pub sum_horner : List (List S) → S → S
  sum_horner [] x = f.zero
  sum_horner (p ∷ ps) x = add (horner f p x) (sum_horner ps x)

  horner-plus_poly :
      (cs ds : List S) (x : S) → horner f (plus_poly cs ds) x ≡ add (horner f cs x) (horner f ds x)
  unfolding plus_poly horner
  horner-plus_poly [] ds x = sym (f.zero-add _)
  horner-plus_poly (c ∷ cs) [] x = sym (add-zero f _)
  horner-plus_poly (c ∷ cs) (d ∷ ds) x =
      ap (λ t. add (add c d) (mul x t)) (horner-plus_poly cs ds x) ∙ regroup c d x _ _
    where
      regroup :
          (a b y p q : S)
          → add (add a b) (mul y (add p q)) ≡ add (add a (mul y p)) (add b (mul y q))
      regroup a b y p q = simp ring

  pub horner-sum_poly : (ps : List (List S)) (x : S) → horner f (sum_poly ps) x ≡ sum_horner ps x
  unfolding sum_poly sum_horner
  horner-sum_poly [] x = unfold horner in refl
  horner-sum_poly (p ∷ ps) x =
      horner-plus_poly p (sum_poly ps) x ∙ ap (add (horner f p x)) (horner-sum_poly ps x)

  length-plus_poly :
      (k : ℕ) (cs ds : List S) → length cs ≤ k → length ds ≤ k → length (plus_poly cs ds) ≤ k
  unfolding plus_poly
  length-plus_poly k [] ds h g = g
  length-plus_poly k (c ∷ cs) [] h g = h
  length-plus_poly zero (c ∷ cs) (d ∷ ds) h g = absurd (omega arith)
  length-plus_poly (suc k) (c ∷ cs) (d ∷ ds) h g =
      let rest = length-plus_poly k cs ds (omega arith) (omega arith) in omega (arith, rest)

  pub length-sum_poly :
      (k : ℕ) (ps : List (List S)) → All (λ p. length p ≤ k) ps → length (sum_poly ps) ≤ k
  unfolding sum_poly
  length-sum_poly k [] a = omega arith
  length-sum_poly k (p ∷ ps) (h, a) = length-plus_poly k p (sum_poly ps) h (length-sum_poly k ps a)

  -- Polynomials without constant term add up to 0 at 0.
  pub sum_horner-zero :
      (ps : List (List S))
      → All (λ p. horner f p f.zero ≡ f.zero) ps
      → sum_horner ps f.zero ≡ f.zero
  unfolding sum_horner
  sum_horner-zero [] a = refl
  sum_horner-zero (p ∷ ps) (h, a) = ap₂ add h (sum_horner-zero ps a) ∙ f.zero-add f.zero
