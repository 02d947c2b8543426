-- ===== src/Server/Refreshing/Laws.antt =====
-- A refresh of sigimora-server/src/routes/refresh.rs leaves shares of the same key.
use sigimora_api_backend.Base.{
  ℕ, suc, ◌+◌, ◌≤◌, ◌≡◌, refl, sym, ap, ap₂, ◌∙◌, List, [], ◌∷◌, map, length, range_from, u16, ok,
  bind_eq, arith,
}
use sigimora_api_backend.Math.Field.{add-zero}
use sigimora_api_backend.Math.Suite.{Suite, Bytes}
use sigimora_api_backend.Shamir.Poly.{horner}
use sigimora_api_backend.Shamir.Sums.{
  sum_poly, sum_horner, horner-sum_poly, length-sum_poly, sum_horner-zero,
}
use sigimora_api_backend.Refresh.{
  RefreshManager, manager, generate_contribution, apply_contributions, apply_loop,
}
use sigimora_api_backend.Refresh.Invariant.{
  Dealer, dealt, polys, apply_loop-polys, polys_zero, polys_short,
}
use sigimora_api_backend.Server.{internal}
use sigimora_api_backend.Server.Store.{NodeRow}
use sigimora_api_backend.Server.Store.Secrets.{HaveSecrets}
use sigimora_api_backend.Server.Texts.{decode, decode-to_bytes}
use sigimora_api_backend.Server.Keyed.{shares}
use sigimora_api_backend.Server.Refreshing.Keys.{decode_keys, contributions, apply_all}

module _ (c : Suite) (net : Bytes) where
  open c use {Scalar, G2, field, g2}

  -- The values of a polynomial at the indices after `i`.
  abbrev pub AreKeys : List Scalar → ℕ → List Scalar → Type 0
  AreKeys p i [] = Unit
  AreKeys p i (k ∷ ks) = (k ≡ horner field p (field.from_u64 (suc i))) × AreKeys p (suc i) ks

  pub decode_keys_ok :
      (p : List Scalar) (i : ℕ) (rows : List NodeRow)
      → HaveSecrets c net (shares c net p) i rows
      → (ks : List Scalar) × (decode_keys c rows ≡ ok ks)
        × AreKeys p i ks
        × (length ks ≡ length rows)
  unfolding decode_keys
  decode_keys_ok p i [] a = ([], refl, tt, refl)
  decode_keys_ok p i (row ∷ rows) ((e, n, q, s), a) =
      let (ks, f, b, l) = decode_keys_ok p (suc i) rows a in
      (
        horner field p (field.from_u64 (suc i)) ∷ ks,
        bind_eq _ (ap (decode c.scalar_code internal) s ∙ decode-to_bytes c.scalar_code internal _)
            ∙ bind_eq _ f,
        (refl, b),
        ap suc l,
      )

  -- The contributions' dealers.
  dealers : ℕ → (ℕ → ℕ → Scalar) → List (Dealer c)
  dealers n rngs = map (λ i. (i, rngs i)) (range_from 1 (u16 n))

  contributions_dealt :
      (m : RefreshManager c) (rngs : ℕ → ℕ → Scalar)
      → contributions c m rngs ≡ dealt c m (dealers m.n rngs)
  unfolding contributions dealers
  contributions_dealt m rngs = each (range_from 1 (u16 m.n))
    where
      each :
          (is : List ℕ)
          → map (λ i. generate_contribution c m i (rngs i)) is
            ≡ dealt c m (map (λ i. (i, rngs i)) is)
      each [] = refl
      each (i ∷ is) = ap (◌∷◌ (generate_contribution c m i (rngs i))) (each is)

  -- The polynomial that the nodes share after a refresh.
  unfoldable pub refreshed : ℕ → ℕ → (ℕ → ℕ → Scalar) → List Scalar → List Scalar
  unfolding dealers
  refreshed n t rngs p = sum_poly field (p ∷ polys c t (dealers n rngs))

  pub apply_all_ok :
      (n t : ℕ) (p : List Scalar) (rngs : ℕ → ℕ → Scalar) (i : ℕ) (ks : List Scalar)
      → AreKeys p i ks
      → i + length ks ≤ n
      → n ≤ 65535
      → (ks' : List Scalar) × (apply_all c (contributions c (manager c n t) rngs) i ks ≡ ok ks')
        × AreKeys (refreshed n t rngs p) i ks'
        × (length ks' ≡ length ks)
  unfolding apply_all apply_contributions refreshed manager sum_horner
  apply_all_ok n t p rngs i [] a b m = ([], refl, tt, refl)
  apply_all_ok n t p rngs i (k ∷ ks) (e, a) b m =
      let (ks', f, a', l) = apply_all_ok n t p rngs (suc i) ks a (omega (arith, b)) m in
      let id : u16 (i + 1) ≡ suc i = omega (arith, b, m) in
      let ds = dealers n rngs in
      let k' =
        field.add k
          (apply_loop c (u16 (i + 1)) field.zero (contributions c (manager c n t) rngs)) in
      (
        k' ∷ ks',
        bind_eq _ f,
        (
          ap₂ field.add e (
                ap₂ (λ l j. apply_loop c j field.zero l) (contributions_dealt (manager c n t) rngs)
                  id
                ∙ apply_loop-polys c (manager c n t) (suc i) ds field.zero (omega arith)
                    (omega (arith, b, m))
                ∙ field.zero-add _)
              ∙ sym (horner-sum_poly field (p ∷ polys c t ds) _),
          a',
        ),
        ap suc l,
      )

  -- A refresh keeps the secret.
  pub refreshed_zero :
      (n t : ℕ) (p : List Scalar) (rngs : ℕ → ℕ → Scalar)
      → horner field (refreshed n t rngs p) field.zero ≡ horner field p field.zero
  unfolding refreshed sum_horner
  refreshed_zero n t p rngs =
      horner-sum_poly field (p ∷ polys c t (dealers n rngs)) field.zero
      ∙ ap (field.add (horner field p field.zero))
          (sum_horner-zero field (polys c t (dealers n rngs)) (polys_zero c t (dealers n rngs)))
      ∙ add-zero field _

  pub refreshed_short :
      (n t : ℕ) (p : List Scalar) (rngs : ℕ → ℕ → Scalar)
      → length p ≤ suc t
      → length (refreshed n t rngs p) ≤ suc t
  unfolding refreshed
  refreshed_short n t p rngs h =
      length-sum_poly field (suc t) (p ∷ polys c t (dealers n rngs))
        (h, polys_short c t (suc t) (dealers n rngs) (omega arith) (omega arith))
