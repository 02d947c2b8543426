-- ===== src/Frost/Codec.antt =====
-- The encoding of a signature in sigimora-crypto/src/frost.rs.
use sigimora_api_backend.Base.{
  ℕ, zero, suc, ◌+◌, ◌*◌, ◌%◌, ◌≡◌, refl, ap, ◌∙◌, not, false, some, List, [], ◌∷◌, ◌++◌, length,
  length-append, get_elem?, take, drop, take-append, Outcome, ok, panic, ◌>>=◌, ◌>>◌, guard, unwrap,
  ok_or, ltb, le_bytes, from_le_bytes, arith,
}
use sigimora_api_backend.Math.Suite.{Suite, Bytes}
use sigimora_api_backend.Shamir.{CryptoError, invalid_signature}
use sigimora_api_backend.Frost.{FrostSignature, signer_bytes}

-- `for i in 0..num_signers`, where `data` starts behind the count.
unfoldable read_ids : {E : Type 0} → ℕ → Bytes → Outcome E (List ℕ)
read_ids zero bytes = ok []
read_ids (suc k) [] = panic
read_ids (suc k) (b0 ∷ []) = panic
read_ids (suc k) (b0 ∷ b1 ∷ rest) = do
  ids ← read_ids k rest
  ok (from_le_bytes (b0 ∷ b1 ∷ []) ∷ ids)

get_elem?-append :
    {A : Type 0} (n : ℕ) (xs : List A) (y : A) (ys : List A)
    → length xs ≡ n
    → get_elem? (xs ++ y ∷ ys) n ≡ some y
get_elem?-append zero [] y ys h = refl
get_elem?-append zero (x ∷ xs) y ys h = absurd (omega (arith, h))
get_elem?-append (suc n) [] y ys h = absurd (omega (arith, h))
get_elem?-append (suc n) (x ∷ xs) y ys h = get_elem?-append n xs y ys (omega (arith, h))

drop-cons :
    {A : Type 0} (n : ℕ) (xs : List A) (y : A) (ys : List A)
    → length xs ≡ n
    → drop (suc n) (xs ++ y ∷ ys) ≡ ys
drop-cons zero [] y ys h = refl
drop-cons zero (x ∷ xs) y ys h = absurd (omega (arith, h))
drop-cons (suc n) [] y ys h = absurd (omega (arith, h))
drop-cons (suc n) (x ∷ xs) y ys h = drop-cons n xs y ys (omega (arith, h))

module _ (c : Suite) where
  open c use {g1_code}

  -- `FrostSignature::to_bytes`.
  unfoldable pub to_bytes : FrostSignature c → Bytes
  to_bytes sig =
      g1_code.to_bytes sig.sigma
      ++ (le_bytes 8 sig.epoch
          ++ (length sig.transcript % 256
              ∷ (sig.transcript ++ (length sig.signers % 256 ∷ signer_bytes sig.signers))))

  -- `FrostSignature::from_bytes`.
  unfoldable pub from_bytes : Bytes → Outcome CryptoError (FrostSignature c)
  unfolding read_ids
  from_bytes bytes = do
    guard (not (ltb (length bytes) 49)) invalid_signature
    sigma ← ok_or (g1_code.from_bytes (take 48 bytes)) invalid_signature
    num_signers ← unwrap (get_elem? bytes 48)
    guard (not (ltb (length bytes) (49 + num_signers * 2))) invalid_signature
    signers ← read_ids num_signers (drop 49 bytes)
    ok (record { sigma = sigma; signers = signers; epoch = 1; transcript = [] })

  -- What is read of an encoded point and the bytes of the epoch 1.
  decode :
      (xs : Bytes) (sigma : c.G1) (rest : Bytes)
      → length xs ≡ 48
      → g1_code.from_bytes xs ≡ some sigma
      → from_bytes (xs ++ (1 ∷ 0 ∷ 0 ∷ rest))
        ≡ ok (record { sigma = sigma; signers = 0 ∷ []; epoch = 1; transcript = [] })
  unfolding from_bytes read_ids
  decode xs sigma rest n p =
      let long : ltb (length (xs ++ (1 ∷ 0 ∷ 0 ∷ rest))) 49 ≡ false =
        ground (arith, length-append xs (1 ∷ 0 ∷ 0 ∷ rest)) in
      let enough : ltb (length (xs ++ (1 ∷ 0 ∷ 0 ∷ rest))) (49 + 1 * 2) ≡ false =
        ground (arith, length-append xs (1 ∷ 0 ∷ 0 ∷ rest)) in
      rw
        (
          long,
          take-append 48 xs (1 ∷ 0 ∷ 0 ∷ rest) n,
          p,
          get_elem?-append 48 xs 1 (0 ∷ 0 ∷ rest) n,
          enough,
          drop-cons 48 xs 1 (0 ∷ 0 ∷ rest) n,
        )
        refl

  -- `from_bytes` does not read what `to_bytes` writes: of every signature of epoch 1, the only epoch
  -- that the aggregations set, it keeps the point, and returns the one signer 0 and no transcript.
  pub from_bytes-to_bytes :
      (sig : FrostSignature c)
      → sig.epoch ≡ 1
      → from_bytes (to_bytes sig)
        ≡ ok (record { sigma = sig.sigma; signers = 0 ∷ []; epoch = 1; transcript = [] })
  unfolding to_bytes
  from_bytes-to_bytes sig e =
      ap (λ n. from_bytes (g1_code.to_bytes sig.sigma ++ (le_bytes 8 n ++ tail))) e
      ∙ decode (g1_code.to_bytes sig.sigma) sig.sigma (0 ∷ 0 ∷ 0 ∷ 0 ∷ 0 ∷ tail)
          (g1_code.length-to_bytes sig.sigma) (g1_code.from_bytes-to_bytes sig.sigma)
    where
      tail : Bytes
      tail =
          length sig.transcript % 256
          ∷ (sig.transcript ++ (length sig.signers % 256 ∷ signer_bytes sig.signers))
