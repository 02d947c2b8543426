-- ===== src/Math/Field.antt =====
-- What sigimora-math/src/scalar.rs takes from blstrs: the scalar field, with its documented laws.
-- `Scalar::zero`, `one`, `add`, `sub`, `mul`, `negate`, `invert`, `from_u64` and `==` pass their
-- arguments to the operations of this record.
use sigimora_api_backend.Base.{
  ℕ, ◌≡◌, refl, sym, ap, ◌∙◌, ◌≢◌, ◌↔◌, Bool, true, Option, none, some, ◌≡⟨◌⟩◌, ◌∎,
}

pub record Field (S : Type 0) : Type 0 where
  pub zero : S
  pub one : S
  pub add : S → S → S
  pub sub : S → S → S
  pub mul : S → S → S
  pub negate : S → S
  pub invert : S → Option S
  pub from_u64 : ℕ → S
  pub beq : S → S → Bool
  pub add_assoc : (a b c : S) → add (add a b) c ≡ add a (add b c)
  pub add_comm : (a b : S) → add a b ≡ add b a
  pub zero-add : (a : S) → add zero a ≡ a
  pub add-negate : (a : S) → add a (negate a) ≡ zero
  pub sub_eq : (a b : S) → sub a b ≡ add a (negate b)
  pub mul_assoc : (a b c : S) → mul (mul a b) c ≡ mul a (mul b c)
  pub mul_comm : (a b : S) → mul a b ≡ mul b a
  pub one-mul : (a : S) → mul one a ≡ a
  pub mul-add : (a b c : S) → mul a (add b c) ≡ add (mul a b) (mul a c)
  pub one-ne-zero : one ≢ zero
  pub invert-zero : invert zero ≡ none
  pub invert_some : (a : S) → a ≢ zero → (b : S) × (invert a ≡ some b) × (mul a b ≡ one)
  pub beq_iff : (a b : S) → (beq a b ≡ true) ↔ (a ≡ b)

module _ {S : Type 0} (f : Field S) where
  open f use {zero, one, add, sub, mul, negate, invert}

  pub add_comm : (a b : S) → add a b ≡ add b a
  add_comm = f.add_comm

  pub add_assoc : (a b c : S) → add (add a b) c ≡ add a (add b c)
  add_assoc = f.add_assoc

  pub add_left_comm : (a b c : S) → add a (add b c) ≡ add b (add a c)
  add_left_comm a b c =
      sym (f.add_assoc a b c) ∙ ap (λ t. add t c) (f.add_comm a b) ∙ f.add_assoc b a c

  pub zero-add : (a : S) → add zero a ≡ a
  zero-add = f.zero-add

  pub add-zero : (a : S) → add a zero ≡ a
  add-zero a = f.add_comm a zero ∙ f.zero-add a

  pub mul_comm : (a b : S) → mul a b ≡ mul b a
  mul_comm = f.mul_comm

  pub mul_assoc : (a b c : S) → mul (mul a b) c ≡ mul a (mul b c)
  mul_assoc = f.mul_assoc

  pub mul_left_comm : (a b c : S) → mul a (mul b c) ≡ mul b (mul a c)
  mul_left_comm a b c =
      sym (f.mul_assoc a b c) ∙ ap (λ t. mul t c) (f.mul_comm a b) ∙ f.mul_assoc b a c

  pub one-mul : (a : S) → mul one a ≡ a
  one-mul = f.one-mul

  pub mul-one : (a : S) → mul a one ≡ a
  mul-one a = f.mul_comm a one ∙ f.one-mul a

  pub mul-add : (a b c : S) → mul a (add b c) ≡ add (mul a b) (mul a c)
  mul-add = f.mul-add

  pub add-mul : (a b c : S) → mul (add a b) c ≡ add (mul a c) (mul b c)
  add-mul a b c = rw (f.mul_comm (add a b) c, f.mul_comm a c, f.mul_comm b c) (f.mul-add c a b)

  pub sub_eq : (a b : S) → sub a b ≡ add a (negate b)
  sub_eq = f.sub_eq

  pub add_cancel : (a b c : S) → add a b ≡ add a c → b ≡ c
  add_cancel a b c h =
      b
      ≡⟨ sym (undo b) ⟩ add (negate a) (add a b)
      ≡⟨ ap (add (negate a)) h ⟩ add (negate a) (add a c)
      ≡⟨ undo c ⟩ c ∎
    where
      undo : (t : S) → add (negate a) (add a t) ≡ t
      undo t =
          sym (f.add_assoc (negate a) a t)
          ∙ ap (λ u. add u t) (f.add_comm (negate a) a ∙ f.add-negate a)
          ∙ f.zero-add t

  pub mul-zero : (a : S) → mul a zero ≡ zero
  mul-zero a =
      add_cancel (mul a zero) (mul a zero) zero
        (sym (f.mul-add a zero zero) ∙ ap (mul a) (f.zero-add zero) ∙ sym (add-zero (mul a zero)))

  pub zero-mul : (a : S) → mul zero a ≡ zero
  zero-mul a = f.mul_comm zero a ∙ mul-zero a

  pub add-negate : (a : S) → add a (negate a) ≡ zero
  add-negate = f.add-negate

  pub mul-negate : (a b : S) → mul a (negate b) ≡ negate (mul a b)
  mul-negate a b = add_cancel (mul a b) _ _ (
      sym (f.mul-add a b (negate b))
      ∙ ap (mul a) (f.add-negate b)
      ∙ mul-zero a
      ∙ sym (f.add-negate (mul a b)))

  pub negate-mul : (a b : S) → mul (negate a) b ≡ negate (mul a b)
  negate-mul a b = f.mul_comm (negate a) b ∙ mul-negate b a ∙ ap negate (f.mul_comm b a)

  -- `a = (a - b) + b`.
  pub add-sub : (a b : S) → add b (sub a b) ≡ a
  add-sub a b =
      ap (add b) (f.sub_eq a b)
      ∙ add_left_comm b a (negate b)
      ∙ ap (add a) (f.add-negate b)
      ∙ add-zero a

  pub sub_ne : {a b : S} → a ≢ b → sub a b ≢ zero
  sub_ne {a} {b} h e = h (sym (add-sub a b) ∙ ap (add b) e ∙ add-zero b)

  pub sub_self : (a : S) → sub a a ≡ zero
  sub_self a = f.sub_eq a a ∙ f.add-negate a

  -- The inverse as a total function: `zero` has `zero`.
  pub inv : S → S
  inv a = elim (invert a) [ none ↦ zero | some b ↦ b ]

  pub invert-inv : (a : S) → a ≢ zero → invert a ≡ some (inv a)
  unfolding inv
  invert-inv a h = let (b, e, _) = f.invert_some a h in rw (e, inv) refl

  pub mul-inv : (a : S) → a ≢ zero → mul a (inv a) ≡ one
  unfolding inv
  mul-inv a h = let (b, e, u) = f.invert_some a h in rw (e, inv) u

  pub mul_cancel : (a b c : S) → a ≢ zero → mul a b ≡ mul a c → b ≡ c
  mul_cancel a b c h e = sym (undo b) ∙ ap (mul (inv a)) e ∙ undo c
    where
      undo : (t : S) → mul (inv a) (mul a t) ≡ t
      undo t =
          sym (f.mul_assoc (inv a) a t)
          ∙ ap (λ u. mul u t) (f.mul_comm (inv a) a ∙ mul-inv a h)
          ∙ f.one-mul t

  pub mul_ne : (a b : S) → a ≢ zero → b ≢ zero → mul a b ≢ zero
  mul_ne a b ha hb e = hb (mul_cancel a b zero ha (e ∙ sym (mul-zero a)))

  pub inv-mul : (a b : S) → a ≢ zero → b ≢ zero → inv (mul a b) ≡ mul (inv a) (inv b)
  inv-mul a b ha hb = mul_cancel (mul a b) _ _ (mul_ne a b ha hb) (
      mul-inv (mul a b) (mul_ne a b ha hb)
      ∙ sym (f.one-mul one)
      ∙ ap (λ t. mul t one) (sym (mul-inv a ha))
      ∙ ap (mul (mul a (inv a))) (sym (mul-inv b hb))
      ∙ simp (f.mul_assoc, mul_left_comm))

pub ruleset sums = (add_comm, add_assoc, add_left_comm)

pub ruleset products = (mul_comm, mul_assoc, mul_left_comm)

pub ruleset ring = (sums, products, mul-add, add-mul)

pub ruleset units = (zero-add, add-zero, one-mul, mul-one, mul-zero, zero-mul)
