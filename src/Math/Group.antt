-- ===== src/Math/Group.antt =====
-- What sigimora-math/src/g1.rs and g2.rs take from blstrs: a group on which the scalars act.
-- `G1Point::mul(&s)` is `mul p s`; `add`, `negate`, `identity`, `generator` and `==` likewise.
use sigimora_api_backend.Base.{◌≡◌, refl, sym, ap, ap₂, ◌∙◌, ◌↔◌, Bool, true, List, [], ◌∷◌, map}
use sigimora_api_backend.Math.Field.{Field}
use sigimora_api_backend.Math.Field as Fields

pub record Group (S : Type 0) (f : Field S) (G : Type 0) : Type 0 where
  pub identity : G
  pub generator : G
  pub add : G → G → G
  pub negate : G → G
  pub mul : G → S → G
  pub beq : G → G → Bool
  pub add_assoc : (a b c : G) → add (add a b) c ≡ add a (add b c)
  pub add_comm : (a b : G) → add a b ≡ add b a
  pub identity-add : (a : G) → add identity a ≡ a
  pub add-negate : (a : G) → add a (negate a) ≡ identity
  pub add-mul : (p q : G) (s : S) → mul (add p q) s ≡ add (mul p s) (mul q s)
  pub mul-add : (p : G) (s t : S) → mul p (f.add s t) ≡ add (mul p s) (mul p t)
  pub mul-mul : (p : G) (s t : S) → mul (mul p s) t ≡ mul p (f.mul s t)
  pub mul-one : (p : G) → mul p f.one ≡ p
  pub generator_free : (s : S) → mul generator s ≡ identity → s ≡ f.zero
  pub beq_iff : (a b : G) → (beq a b ≡ true) ↔ (a ≡ b)

-- The scalars act on themselves.
abbrev pub scalars : {S : Type 0} (f : Field S) → Group S f S
scalars f = record {
  identity = f.zero;
  generator = f.one;
  add = f.add;
  negate = f.negate;
  mul = f.mul;
  beq = f.beq;
  add_assoc = f.add_assoc;
  add_comm = f.add_comm;
  identity-add = f.zero-add;
  add-negate = f.add-negate;
  add-mul = Fields.add-mul f;
  mul-add = f.mul-add;
  mul-mul = f.mul_assoc;
  mul-one = Fields.mul-one f;
  generator_free = λ s e. sym (f.one-mul s) ∙ e;
  beq_iff = f.beq_iff;
}

-- `Σ v · s` over the scalars.
unfoldable pub weighted_scalars : {S : Type 0} (f : Field S) → List S → List S → S
weighted_scalars f [] ss = f.zero
weighted_scalars f (v ∷ vs) [] = f.zero
weighted_scalars f (v ∷ vs) (s ∷ ss) = f.add (f.mul v s) (weighted_scalars f vs ss)

module _ {S : Type 0} {f : Field S} {G : Type 0} (g : Group S f G) where
  open g use {identity, generator, add, negate, mul, beq}

  pub add_comm : (a b : G) → add a b ≡ add b a
  add_comm = g.add_comm

  pub add_assoc : (a b c : G) → add (add a b) c ≡ add a (add b c)
  add_assoc = g.add_assoc

  pub add_left_comm : (a b c : G) → add a (add b c) ≡ add b (add a c)
  add_left_comm a b c =
      sym (g.add_assoc a b c) ∙ ap (λ t. add t c) (g.add_comm a b) ∙ g.add_assoc b a c

  pub identity-add : (a : G) → add identity a ≡ a
  identity-add = g.identity-add

  pub add-identity : (a : G) → add a identity ≡ a
  add-identity a = g.add_comm a identity ∙ g.identity-add a

  pub add-mul : (p q : G) (s : S) → mul (add p q) s ≡ add (mul p s) (mul q s)
  add-mul = g.add-mul

  pub mul-add : (p : G) (s t : S) → mul p (f.add s t) ≡ add (mul p s) (mul p t)
  mul-add = g.mul-add

  pub mul-mul : (p : G) (s t : S) → mul (mul p s) t ≡ mul p (f.mul s t)
  mul-mul = g.mul-mul

  pub mul-mul_comm : (p : G) (s t : S) → mul (mul p s) t ≡ mul (mul p t) s
  mul-mul_comm p s t = g.mul-mul p s t ∙ ap (mul p) (f.mul_comm s t) ∙ sym (g.mul-mul p t s)

  pub add_cancel : (a b c : G) → add a b ≡ add a c → b ≡ c
  add_cancel a b c h = sym (undo b) ∙ ap (add (negate a)) h ∙ undo c
    where
      undo : (t : G) → add (negate a) (add a t) ≡ t
      undo t =
          sym (g.add_assoc (negate a) a t)
          ∙ ap (λ u. add u t) (g.add_comm (negate a) a ∙ g.add-negate a)
          ∙ g.identity-add t

  pub mul-zero : (p : G) → mul p f.zero ≡ identity
  mul-zero p = add_cancel (mul p f.zero) _ identity (
      sym (g.mul-add p f.zero f.zero)
      ∙ ap (mul p) (f.zero-add f.zero)
      ∙ sym (add-identity (mul p f.zero)))

  identity-mul : (s : S) → mul identity s ≡ identity
  identity-mul s = add_cancel (mul identity s) _ identity (
      sym (g.add-mul identity identity s)
      ∙ ap (λ p. mul p s) (g.identity-add identity)
      ∙ sym (add-identity (mul identity s)))

  negate_unique : (a b : G) → add a b ≡ identity → b ≡ negate a
  negate_unique a b h = add_cancel a b (negate a) (h ∙ sym (g.add-negate a))

  pub mul-negate : (p : G) (s : S) → mul p (f.negate s) ≡ negate (mul p s)
  mul-negate p s =
      negate_unique (mul p s) (mul p (f.negate s))
        (sym (g.mul-add p s (f.negate s)) ∙ ap (mul p) (f.add-negate s) ∙ mul-zero p)

  pub negate-mul : (p : G) (s : S) → mul (negate p) s ≡ negate (mul p s)
  negate-mul p s =
      negate_unique (mul p s) (mul (negate p) s)
        (sym (g.add-mul p (negate p) s) ∙ ap (λ t. mul t s) (g.add-negate p) ∙ identity-mul s)

  pub beq_self : (p : G) → beq p p ≡ true
  beq_self p = (g.beq_iff p p).1 refl

  pub beq_of_eq : {p q : G} → p ≡ q → beq p q ≡ true
  beq_of_eq {p} {q} = (g.beq_iff p q).1

  pub generator_injective : (s t : S) → mul generator s ≡ mul generator t → s ≡ t
  generator_injective s t e = Fields.add_cancel f (f.negate t) s t (
      f.add_comm _ s
      ∙ g.generator_free _ (
          g.mul-add generator s (f.negate t)
          ∙ ap₂ add e (mul-negate generator t)
          ∙ g.add-negate (mul generator t))
      ∙ sym (f.add_comm _ t ∙ f.add-negate t))

  -- `Σ terms`, as a plain recursion.
  unfoldable pub sum : List G → G
  sum [] = identity
  sum (p ∷ ps) = add p (sum ps)

  -- The loops `acc = acc.add(term)`.
  unfoldable pub sum_loop : G → List G → G
  sum_loop acc [] = acc
  sum_loop acc (p ∷ ps) = sum_loop (add acc p) ps

  sum_loop-sum : (acc : G) (ps : List G) → sum_loop acc ps ≡ add acc (sum ps)
  unfolding sum sum_loop
  sum_loop-sum acc [] = sym (add-identity acc)
  sum_loop-sum acc (p ∷ ps) = sum_loop-sum (add acc p) ps ∙ g.add_assoc acc p (sum ps)

  pub sum_loop-identity : (ps : List G) → sum_loop identity ps ≡ sum ps
  sum_loop-identity ps = sum_loop-sum identity ps ∙ g.identity-add (sum ps)

  -- `for (p, s) in points.iter().zip(scalars.iter()) { acc = acc.add(&p.mul(s)) }`.
  unfoldable pub weighted_loop : G → List G → List S → G
  weighted_loop acc [] ss = acc
  weighted_loop acc (p ∷ ps) [] = acc
  weighted_loop acc (p ∷ ps) (s ∷ ss) = weighted_loop (add acc (mul p s)) ps ss

  -- `Σ mul p s`, as a plain recursion.
  unfoldable pub weighted : List G → List S → G
  weighted [] ss = identity
  weighted (p ∷ ps) [] = identity
  weighted (p ∷ ps) (s ∷ ss) = add (mul p s) (weighted ps ss)

  weighted_loop-weighted :
      (acc : G) (ps : List G) (ss : List S) → weighted_loop acc ps ss ≡ add acc (weighted ps ss)
  unfolding weighted_loop weighted
  weighted_loop-weighted acc [] ss = sym (add-identity acc)
  weighted_loop-weighted acc (p ∷ ps) [] = sym (add-identity acc)
  weighted_loop-weighted acc (p ∷ ps) (s ∷ ss) =
      weighted_loop-weighted (add acc (mul p s)) ps ss ∙ g.add_assoc acc (mul p s) (weighted ps ss)

  pub weighted_loop-identity :
      (ps : List G) (ss : List S) → weighted_loop identity ps ss ≡ weighted ps ss
  weighted_loop-identity ps ss =
      weighted_loop-weighted identity ps ss ∙ g.identity-add (weighted ps ss)

  -- A weighted sum of multiples of one point is a multiple of that point.
  pub weighted-mul :
      (p : G) (vs ss : List S) → weighted (map (mul p) vs) ss ≡ mul p (weighted_scalars f vs ss)
  unfolding weighted weighted_scalars
  weighted-mul p [] ss = sym (mul-zero p)
  weighted-mul p (v ∷ vs) [] = sym (mul-zero p)
  weighted-mul p (v ∷ vs) (s ∷ ss) =
      ap₂ add (g.mul-mul p v s) (weighted-mul p vs ss)
      ∙ sym (g.mul-add p (f.mul v s) (weighted_scalars f vs ss))

pub ruleset sums = (add_comm, add_assoc, add_left_comm)
