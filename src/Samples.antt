-- ===== src/Samples.antt =====
-- Concrete parameters: the field of five elements as the scalars and as all three groups, with the
-- product as the pairing. It is small enough to evaluate every definition.
pub mod FiveField
use sigimora_api_backend.Base.{
  ℕ, suc, zero, ◌+◌, ◌≡◌, refl, ◌∙◌, List, [], ◌∷◌, length, Option, some, none, ap, sym, map, ◌++◌,
  ◌-◌, take, take-append, length-append, arith,
}
use sigimora_api_backend.Math.Field as Fields
use sigimora_api_backend.Math.Group.{scalars, sum}
use sigimora_api_backend.Math.Suite.{Suite, Encoding, Bytes}
use sigimora_api_backend.Samples.FiveField.{Five, five, to_nat, of_nat, of_nat-to_nat}

abbrev pub zeros : ℕ → Bytes
zeros zero = []
zeros (suc n) = 0 ∷ zeros n

pub length-zeros : (n : ℕ) → length (zeros n) ≡ n
length-zeros zero = refl
length-zeros (suc n) = ap suc (length-zeros n)

abbrev pub first : Bytes → Option Five
first [] = none
first (b ∷ bs) = some (of_nat b)

abbrev padded : (n : ℕ) → Encoding Five (suc n)
padded n = record {
  to_bytes = λ a. to_nat a ∷ zeros n;
  from_bytes = first;
  length-to_bytes = λ a. ap suc (length-zeros n);
  from_bytes-to_bytes = λ a. ap some (of_nat-to_nat a);
}

abbrev pub total : Bytes → ℕ
total [] = 0
total (b ∷ bs) = b + total bs

pub tagged : (m : Bytes) → length m ≡ length (m ++ zeros 16) - 16
tagged m = omega (arith, length-append m (zeros 16))

abbrev pub sample : Suite
sample = record {
  Scalar = Five;
  G1 = Five;
  G2 = Five;
  Gt = Five;
  field = five;
  g1 = scalars five;
  g2 = scalars five;
  gt = scalars five;
  pairing = five.mul;
  multi_miller = λ ps. sum (scalars five) (map (λ pq. five.mul pq.0 pq.1) ps);
  pairing-add = Fields.add-mul five;
  pairing-mul_left = λ p q s.
      Fields.mul_assoc five p s q
      ∙ ap (five.mul p) (five.mul_comm s q)
      ∙ sym (five.mul_assoc p q s);
  pairing-mul_right = λ p q s. sym (five.mul_assoc p q s);
  nondegenerate = λ p e. sym (Fields.mul-one five p) ∙ e;
  multi_miller_eq = λ ps. refl;
  hash_to_g1 = λ m tag. of_nat (suc (total m));
  sha256 = λ m. m;
  sha3_256 = λ m. m;
  hkdf = λ key info. key;
  g1_code = padded 47;
  g2_code = padded 95;
  scalar_code = padded 31;
  encrypt = λ key nonce m. m ++ zeros 16;
  decrypt = λ key nonce m. some (take (length m - 16) m);
  decrypt-encrypt =
      λ key nonce m. ap some (take-append (length (m ++ zeros 16) - 16) m (zeros 16) (tagged m));
  length-encrypt = λ key nonce m. length-append m (zeros 16);
}
