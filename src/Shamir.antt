-- ===== src/Shamir.antt =====
-- sigimora-crypto/src/shamir.rs: Lagrange coefficients at 0, splitting and reconstruction.

pub mod Poly
pub mod Interpolation
pub mod Lagrange
pub mod RoundTrip
pub mod Sums
use sigimora_api_backend.Base.{
  ℕ, zero, suc, ◌≡◌, List, [], ◌∷◌, map, length, range_from, draws, ◌-◌, Outcome, ok, err, panic,
  ◌>>=◌, ◌>>◌, unwrap, assert, ◌==◌, leb, ltb, u16, if◌then◌else◌, Bool, Option, some, none,
}
use sigimora_api_backend.Math.Field.{Field}
use sigimora_api_backend.Math.Group.{scalars, weighted_loop}

-- `struct Share`; `Share::new` builds it.
pub record Share (S : Type 0) : Type 0 where
  pub index : ℕ
  pub value : S

-- The errors of sigimora-crypto/src/error.rs, without the texts that some of them carry.
pub data CryptoError : Type 0 where
  insufficient_shares : ℕ → ℕ → CryptoError
  share_verification_failed : ℕ → CryptoError
  signature_verification_failed : CryptoError
  pop_verification_failed : CryptoError
  dkg_error : CryptoError
  encryption_error : CryptoError
  math_error : CryptoError
  invalid_parameter : CryptoError
  invalid_public_key : CryptoError
  invalid_signature : CryptoError
  invalid_shares : CryptoError
  serialization_error : CryptoError

module _ {S : Type 0} (f : Field S) where
  open f use {one, add, sub, mul, negate, invert, from_u64}

  -- `for j in 0..k { if i == j { continue; } … }` on the pair (num, den).
  unfoldable pub lagrange_terms : ℕ → S → ℕ → List ℕ → S × S → S × S
  lagrange_terms i xi j [] acc = acc
  lagrange_terms i xi j (idx ∷ rest) (num, den) = lagrange_terms i xi (suc j) rest (
      if i == j
      then (num, den)
      else (mul num (negate (from_u64 idx)), mul den (sub xi (from_u64 idx))))

  -- `for i in 0..k`; a denominator that has no inverse panics.
  unfoldable pub lagrange_loop : {E : Type 0} → List ℕ → ℕ → List ℕ → Outcome E (List S)
  lagrange_loop indices i [] = ok []
  lagrange_loop indices i (idx ∷ rest) = do
    let (num, den) = lagrange_terms i (from_u64 idx) 0 indices (one, one)
    inv_den ← unwrap (invert den)
    lambdas ← lagrange_loop indices (suc i) rest
    ok (mul num inv_den ∷ lambdas)

  unfoldable pub lagrange_at_zero : {E : Type 0} → List ℕ → Outcome E (List S)
  lagrange_at_zero indices = lagrange_loop indices 0 indices

  -- `term = coeff; for _ in 0..power { term = term.mul(x) }`.
  unfoldable pub scale_by_power : S → ℕ → S → S
  scale_by_power x zero term = term
  scale_by_power x (suc power) term = scale_by_power x power (mul term x)

  -- `for (power, coeff) in coefficients.iter().enumerate().skip(1)`.
  unfoldable pub eval_terms : S → ℕ → List S → S → S
  eval_terms x power [] value = value
  eval_terms x power (coeff ∷ coeffs) value =
      eval_terms x (suc power) coeffs (add value (scale_by_power x power coeff))

  -- The value at `i` of the polynomial with constant term `c` and further coefficients `cs`.
  unfoldable pub eval_at : S → List S → ℕ → S
  unfolding eval_terms scale_by_power
  eval_at c cs i = eval_terms (from_u64 i) 1 cs c

  -- `ShamirSSS::split`; `rng k` is the k-th scalar that the generator yields.
  unfoldable pub split : S → ℕ → ℕ → (ℕ → S) → Outcome CryptoError (List (Share S))
  split secret t n rng = do
    assert (leb t n)
    assert (ltb 0 t)
    let random = draws rng 0 (t - 1)
    ok (map (λ i. record { index = i; value = eval_at secret random i }) (range_from 1 (u16 n)))

  -- `ShamirSSS::reconstruct`.
  unfoldable pub reconstruct : List (Share S) → Outcome CryptoError S
  reconstruct [] = err invalid_shares
  reconstruct (s ∷ rest) = do
    let shares = s ∷ rest
    lambdas ← lagrange_at_zero (map (λ s. s.index) shares)
    ok (weighted_loop (scalars f) f.zero (map (λ s. s.value) shares) lambdas)
