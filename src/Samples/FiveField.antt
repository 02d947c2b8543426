-- ===== src/Samples/FiveField.antt =====
-- The field of five elements; its laws are read off its tables.
use sigimora_api_backend.Base.{
  ℕ, ◌+◌, ◌*◌, ◌-◌, ◌%◌, ◌≡◌, ◌≢◌, refl, sym, ap, subst, ◌∙◌, zero, suc, ==_iff, Bool, true, ◌&&◌,
  Option, some, none, arith, ◌==◌,
}
use sigimora_api_backend.Math.Field.{Field}

pub data Five : Type 0 where
  z0 z1 z2 z3 z4 : Five

abbrev pub to_nat : Five → ℕ
to_nat z0 = 0
to_nat z1 = 1
to_nat z2 = 2
to_nat z3 = 3
to_nat z4 = 4

abbrev residue : ℕ → Five
residue zero = z0
residue (suc zero) = z1
residue (suc (suc zero)) = z2
residue (suc (suc (suc zero))) = z3
residue (suc (suc (suc (suc n)))) = z4

abbrev pub of_nat : ℕ → Five
of_nat n = residue (n % 5)

pub of_nat-to_nat : (a : Five) → of_nat (to_nat a) ≡ a
of_nat-to_nat z0 = refl
of_nat-to_nat z1 = refl
of_nat-to_nat z2 = refl
of_nat-to_nat z3 = refl
of_nat-to_nat z4 = refl

abbrev pub plus : Five → Five → Five
plus a b = of_nat (to_nat a + to_nat b)

abbrev pub times : Five → Five → Five
times a b = of_nat (to_nat a * to_nat b)

abbrev opposite : Five → Five
opposite a = of_nat (5 - to_nat a)

abbrev pub inverse : Five → Option Five
inverse z0 = none
inverse z1 = some z1
inverse z2 = some z3
inverse z3 = some z2
inverse z4 = some z4

abbrev pub same : Five → Five → Bool
same a b = to_nat a == to_nat b

abbrev all5 : (Five → Bool) → Bool
all5 p = p z0 && p z1 && p z2 && p z3 && p z4

every : (p : Five → Bool) → all5 p ≡ true → (a : Five) → p a ≡ true
every p h z0 = ground arith
every p h z1 = ground arith
every p h z2 = ground arith
every p h z3 = ground arith
every p h z4 = ground arith

pub same_self : (a : Five) → same a a ≡ true
same_self = every (λ a. same a a) refl

pub same_eq : (a b : Five) → same a b ≡ true → a ≡ b
same_eq a b h =
    sym (of_nat-to_nat a) ∙ ap of_nat ((==_iff (to_nat a) (to_nat b)).0 h) ∙ of_nat-to_nat b

pub one_law : (f g : Five → Five) → all5 (λ a. same (f a) (g a)) ≡ true → (a : Five) → f a ≡ g a
one_law f g h a = same_eq (f a) (g a) (every (λ a. same (f a) (g a)) h a)

pub two_law :
    (f g : Five → Five → Five)
    → all5 (λ a. all5 λ b. same (f a b) (g a b)) ≡ true
    → (a b : Five) → f a b ≡ g a b
two_law f g h a = one_law (f a) (g a) (every (λ a. all5 λ b. same (f a b) (g a b)) h a)

pub same_ne : z1 ≢ z0
same_ne e = cc

pub three_law :
    (f g : Five → Five → Five → Five)
    → all5 (λ a. all5 λ b. all5 λ c. same (f a b c) (g a b c)) ≡ true
    → (a b c : Five) → f a b c ≡ g a b c
three_law f g h a =
    two_law (f a) (g a) (every (λ a. all5 λ b. all5 λ c. same (f a b c) (g a b c)) h a)

pub inverse-some : (a : Five) → a ≢ z0 → (b : Five) × (inverse a ≡ some b) × (times a b ≡ z1)
inverse-some z0 h = absurd (h refl)
inverse-some z1 h = (z1, refl, refl)
inverse-some z2 h = (z3, refl, refl)
inverse-some z3 h = (z2, refl, refl)
inverse-some z4 h = (z4, refl, refl)

abbrev pub five : Field Five
five = record {
  zero = z0;
  one = z1;
  add = plus;
  sub = λ a b. plus a (opposite b);
  mul = times;
  negate = opposite;
  invert = inverse;
  from_u64 = of_nat;
  beq = same;
  add_assoc = three_law (λ a b c. plus (plus a b) c) (λ a b c. plus a (plus b c)) refl;
  add_comm = two_law plus (λ a b. plus b a) refl;
  zero-add = one_law (plus z0) (λ a. a) refl;
  add-negate = one_law (λ a. plus a (opposite a)) (λ a. z0) refl;
  sub_eq = λ a b. refl;
  mul_assoc = three_law (λ a b c. times (times a b) c) (λ a b c. times a (times b c)) refl;
  mul_comm = two_law times (λ a b. times b a) refl;
  one-mul = one_law (times z1) (λ a. a) refl;
  mul-add = three_law (λ a b c. times a (plus b c)) (λ a b c. plus (times a b) (times a c)) refl;
  one-ne-zero = λ e. same_ne e;
  invert-zero = refl;
  invert_some = inverse-some;
  beq_iff = λ a b. (same_eq a b, λ e. subst (λ t. same a t ≡ true) e (same_self a));
}
