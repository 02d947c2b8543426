-- ===== src/Math/Power.antt =====
-- `Scalar::pow_u64` of sigimora-math/src/scalar.rs. The rounds of its loop are bounded by a fuel of 64,
-- which every `u64` leaves enough of.
use sigimora_api_backend.Base.{
  ℕ, zero, suc, ◌+◌, ◌*◌, ◌/◌, ◌%◌, ◌^◌, ◌<◌, ◌≡◌, refl, sym, ap, ◌∙◌, Option, none, some, ◌==◌,
  if◌then◌else◌, inl, inr, Bool-cases, arith,
}
use native.Mathlib.Numerals.{unary_clauses}
use sigimora_api_backend.Math.Field.{Field, mul-one}

module _ {S : Type 0} (f : Field S) where
  open f use {one, mul}

  -- `while e > 0`, for at most as many rounds as the fuel.
  unfoldable pub pow_loop : ℕ → S → S → ℕ → Option S
  pow_loop zero result base e = if e == 0 then some result else none
  pow_loop (suc fuel) result base e =
      let rest =
        pow_loop fuel (if e % 2 == 1 then mul result base else result) (mul base base) (e / 2) in
      if e == 0 then some result else rest

  unfoldable pub pow_u64 : S → ℕ → Option S
  pow_u64 base exp = pow_loop 64 one base exp

  -- The `n`-fold product.
  abbrev pub power : S → ℕ → S
  power base zero = one
  power base (suc n) = mul base (power base n)

  power-add : (b : S) (m n : ℕ) → power b (m + n) ≡ mul (power b m) (power b n)
  power-add b zero n = ap (power b) {x = 0 + n} {y = n} (omega arith) ∙ sym (f.one-mul (power b n))
  power-add b (suc m) n =
      ap (power b) {x = suc m + n} {y = suc (m + n)} (omega arith)
      ∙ ap (mul b) (power-add b m n)
      ∙ sym (f.mul_assoc b (power b m) (power b n))

  power-square : (b : S) (q : ℕ) → power (mul b b) q ≡ power b (q + q)
  power-square b zero = refl
  power-square b (suc q) =
      ap (mul (mul b b)) (power-square b q)
      ∙ f.mul_assoc b b (power b (q + q))
      ∙ ap (power b) {x = suc (suc (q + q))} {y = suc q + suc q} (omega arith)

  half_below : (e m : ℕ) → e < m * 2 → e / 2 < m
  half_below e m h = omega (arith, h)

  -- `k` rounds are enough for an exponent of `k` bits.
  pow_loop-power :
      (k : ℕ) (r b : S) (e : ℕ) → e < 2 ^ k → pow_loop k r b e ≡ some (mul r (power b e))
  unfolding pow_loop
  pow_loop-power zero r b e h =
      let none_left : e ≡ 0 = omega (arith, h) in rw (none_left) (ap some (sym (mul-one f r)))
  pow_loop-power (suc k) r b e h = elim (Bool-cases (e == 0)) [
    | inl q ↦
        let none_left : e ≡ 0 = ground (arith, q) in rw (none_left) (ap some (sym (mul-one f r)))
    | inr q ↦
        let half : e / 2 < 2 ^ k = half_below e (2 ^ k) (simp unary_clauses at h) in
        elim (Bool-cases (e % 2 == 1)) [
          | inl odd ↦
              let split : e ≡ suc (e / 2 + e / 2) = ground (arith, odd) in
              rw (q, odd)
                (pow_loop-power k (mul r b) (mul b b) (e / 2) half
                  ∙ ap some (
                      f.mul_assoc r b _
                      ∙ ap (λ p. mul r (mul b p)) (power-square b (e / 2))
                      ∙ ap (λ n. mul r (power b n)) (sym split)))
          | inr even ↦
              let split : e ≡ e / 2 + e / 2 = ground (arith, even) in
              rw (q, even)
                (pow_loop-power k r (mul b b) (e / 2) half
                  ∙ ap some (
                      ap (mul r) (power-square b (e / 2))
                      ∙ ap (λ n. mul r (power b n)) (sym split)))
        ]
  ]

  -- Exponentiation ends for every `u64`, with the product of as many factors as the exponent says.
  pub pow_u64-power : (b : S) (e : ℕ) → e < 2 ^ 64 → pow_u64 b e ≡ some (power b e)
  unfolding pow_u64
  pow_u64-power b e h = pow_loop-power 64 one b e h ∙ ap some (f.one-mul (power b e))
