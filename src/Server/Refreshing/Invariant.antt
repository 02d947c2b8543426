-- ===== src/Server/Refreshing/Invariant.antt =====
-- The check of `refresh_network` of sigimora-server/src/routes/refresh.rs on the nodes' public keys.
use sigimora_api_backend.Base.{
  ℕ, zero, suc, ◌+◌, ◌≤◌, ◌<◌, ◌≡◌, refl, sym, ap, ◌∙◌, true, some, List, [], ◌∷◌, take, length,
  get_elem?, range_from, u16, All, ok, arith, ◌-◌, ◌==◌, Bool-cases, inl, inr,
}
use sigimora_api_backend.Math.Suite.{Suite, Bytes}
use sigimora_api_backend.Math.Field.{mul-zero}
use sigimora_api_backend.Shamir.{CryptoError}
use sigimora_api_backend.Shamir.Poly.{horner}
use sigimora_api_backend.Shamir.RoundTrip.{horner-zero}
use sigimora_api_backend.Shamir.Interpolation.{Distinct}
use sigimora_api_backend.Shamir.Lagrange.{points}
use sigimora_api_backend.Refresh.{verify_collective_key_invariant}
use sigimora_api_backend.Refresh.Invariant.{IsKeyOf, verify_collective_key_invariant_iff}
use sigimora_api_backend.Server.Refreshing.Keys.{public_keys}
use sigimora_api_backend.Server.Refreshing.Laws.{AreKeys}

module _ (c : Suite) (net : Bytes) where
  open c use {Scalar, G2, field, g2}

  -- A polynomial with a constant term and the same values.
  with_constant :
      (p : List Scalar) (t : ℕ)
      → length p ≤ suc t
      → (s : Scalar) × (cs : List Scalar) × ((x : Scalar)
          → horner field p x ≡ horner field (s ∷ cs) x)
        × (length cs ≤ t)
  unfolding horner
  with_constant [] t h = (field.zero, [], λ x. sym (horner_nil x), omega arith)
    where
      horner_nil : (x : Scalar) → horner field (field.zero ∷ []) x ≡ horner field [] x
      horner_nil x = ap (field.add field.zero) (mul-zero field x) ∙ field.zero-add field.zero
  with_constant (s ∷ cs) t h = (s, cs, λ x. refl, omega (arith, h))

  get_key :
      (p : List Scalar) (q i : ℕ) (ks : List Scalar)
      → AreKeys c net p i ks
      → i ≤ q
      → q < i + length ks
      → get_elem? (public_keys c ks) (q - i)
        ≡ some (g2.mul g2.generator (horner field p (field.from_u64 (suc q))))
  unfolding public_keys
  get_key p q i [] a lo hi = absurd (omega (arith, lo, hi))
  get_key p q i (k ∷ ks) (e, a) lo hi = elim (Bool-cases (q == i)) [
    | inl h ↦
        let none_left : q - i ≡ 0 = ground arith in
        let same : i ≡ q = ground arith in
        rw (none_left) (
          ap (λ j. some (g2.mul g2.generator j))
            (e ∙ ap (λ j. horner field p (field.from_u64 (suc j))) same))
    | inr h ↦
        let more : suc i ≤ q = ground (arith, lo) in
        let left : q - i ≡ suc (q - suc i) = omega (arith, more) in
        rw (left) (get_key p q (suc i) ks a more (omega (arith, hi)))
  ]

  keys-IsKeyOf :
      (p cs : List Scalar) (n : ℕ) (ks : List Scalar) (qs : List ℕ)
      → ((x : Scalar) → horner field p x ≡ horner field cs x)
      → AreKeys c net p 0 ks
      → length ks ≡ n
      → All (λ q. (0 < q) × (q ≤ n)) qs
      → All (IsKeyOf c cs (public_keys c ks)) qs
  keys-IsKeyOf p cs n ks [] e a l b = tt
  keys-IsKeyOf p cs n ks (zero ∷ qs) e a l ((lo, hi), b) = absurd (omega (arith, lo))
  keys-IsKeyOf p cs n ks (suc q ∷ qs) e a l ((lo, hi), b) = (
    (
      q,
      refl,
      ap (get_elem? (public_keys c ks)) {x = q} {y = q - 0} (omega arith)
          ∙ get_key p q 0 ks a (omega arith) (omega (arith, hi, l))
          ∙ ap (λ v. some (g2.mul g2.generator v)) (e (field.from_u64 (suc q))),
    ),
    keys-IsKeyOf p cs n ks qs e a l b,
  )

  first_ids :
      (k a m n : ℕ) → 0 < a → a + m ≤ suc n → All (λ q. (0 < q) × (q ≤ n)) (take k (range_from a m))
  first_ids zero a m n h b = tt
  first_ids (suc k) a zero n h b = tt
  first_ids (suc k) a (suc m) n h b =
      ((h, omega (arith, b)), first_ids k (suc a) m n (omega arith) (omega (arith, b)))

  length-first_ids : (k a m : ℕ) → k ≤ m → length (take k (range_from a m)) ≡ k
  length-first_ids zero a m h = refl
  length-first_ids (suc k) a zero h = absurd (omega (arith, h))
  length-first_ids (suc k) a (suc m) h = ap suc (length-first_ids k (suc a) m (omega (arith, h)))

  -- The ids with which the refresh is checked.
  abbrev pub checked_ids : ℕ → ℕ → List ℕ
  checked_ids n t = take (t + 1) (range_from 1 (u16 n))

  pub invariant_true :
      (n t : ℕ) (p p' ks ks' : List Scalar)
      → horner field p' field.zero ≡ horner field p field.zero
      → length p ≤ suc t
      → length p' ≤ suc t
      → AreKeys c net p 0 ks
      → AreKeys c net p' 0 ks'
      → length ks ≡ n
      → length ks' ≡ n
      → t < n
      → n ≤ 65535
      → Distinct (points field (checked_ids n t))
      → verify_collective_key_invariant c {E = CryptoError}
          (public_keys c ks)
          (public_keys c ks')
          (checked_ids n t)
        ≡ ok true
  invariant_true n t p p' ks ks' z h h' a a' l l' tn m d =
      let (s, cs, e, b) = with_constant p t h in
      let (s', cs', e', b') = with_constant p' t h' in
      let in_range = first_ids (t + 1) 1 (u16 n) n (omega arith) (omega (arith, m)) in
      let count = length-first_ids (t + 1) 1 (u16 n) (omega (arith, m, tn)) in
      (verify_collective_key_invariant_iff c s s' cs cs' (public_keys c ks) (public_keys c ks')
          (checked_ids n t) (keys-IsKeyOf p (s ∷ cs) n ks (checked_ids n t) e a l in_range)
          (keys-IsKeyOf p' (s' ∷ cs') n ks' (checked_ids n t) e' a' l' in_range) d
          (omega (arith, count, b)) (omega (arith, count, b'))).1
        (sym (horner-zero field s cs)
          ∙ sym (e field.zero)
          ∙ sym z
          ∙ e' field.zero
          ∙ horner-zero field s' cs')
