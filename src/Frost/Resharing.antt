-- ===== src/Frost/Resharing.antt =====
-- The refresh of shares in sigimora-crypto/src/frost.rs.
use sigimora_api_backend.Base.{
  ℕ, ◌+◌, ◌≡◌, refl, sym, ap, subst, ◌∙◌, ◌↔◌, Bool, true, false, List, [], ◌∷◌, Outcome, ok, err,
  ◌>>=◌,
}
use sigimora_api_backend.Math.Field.{add-sub, add_cancel}
use sigimora_api_backend.Math.Group.{generator_injective, mul-zero, beq_of_eq}
use sigimora_api_backend.Math.Suite.{Suite}
use sigimora_api_backend.Shamir.{Share, CryptoError, invalid_parameter, eval_at}
use sigimora_api_backend.Feldman.{
  random, random_with_zero_constant, eval, commit, eval_public, eval_public-commit,
}

module _ (c : Suite) where
  open c use {Scalar, G2, field, g2}

  -- The common part of `refresh_share` and `mcp_refresh_share`: the value of the polynomial is added.
  unfoldable refresh_by :
      {E : Type 0} → List Scalar → Share Scalar → Outcome E (Share Scalar × List G2)
  refresh_by refresh_poly current_share = do
    refresh ← eval c refresh_poly current_share.index
    ok (
      record { index = current_share.index; value = field.add current_share.value refresh.value },
      commit c refresh_poly,
    )

  -- `Frost::refresh_share`.
  unfoldable refresh_share :
      {E : Type 0} → Share Scalar → (ℕ → Scalar) → Outcome E (Share Scalar × List G2)
  unfolding refresh_by
  refresh_share current_share rng = refresh_by (random c 2 rng 0) current_share

  -- `Frost::mcp_refresh_share`.
  unfoldable mcp_refresh_share :
      {E : Type 0} → Share Scalar → (ℕ → Scalar) → Outcome E (Share Scalar × List G2)
  unfolding refresh_by
  mcp_refresh_share current_share rng =
      refresh_by (random_with_zero_constant c 2 rng 0) current_share

  -- `Frost::create_refresh_poly_with_zero_constant`, from the `k`-th scalar of the generator on.
  unfoldable create_refresh_poly_with_zero_constant : ℕ → (ℕ → Scalar) → ℕ → List Scalar
  create_refresh_poly_with_zero_constant degree rng k = random_with_zero_constant c degree rng k

  -- `for &(pid, ref share) in all_shares`; each polynomial takes one scalar of the generator.
  unfoldable refresh_loop :
      (ℕ → Scalar) → ℕ → List (ℕ × Share Scalar) → Outcome CryptoError (List (ℕ × Share Scalar))
  unfolding create_refresh_poly_with_zero_constant
  refresh_loop rng k [] = ok []
  refresh_loop rng k ((pid, share) ∷ all_shares) = do
    refresh ← eval c (create_refresh_poly_with_zero_constant 2 rng k) pid
    new_shares ← refresh_loop rng (k + 1) all_shares
    ok ((pid, record { index = pid; value = field.add share.value refresh.value }) ∷ new_shares)

  -- `Frost::distributed_refresh`.
  unfoldable distributed_refresh :
      List (ℕ × Share Scalar) → (ℕ → Scalar) → Outcome CryptoError (List (ℕ × Share Scalar))
  unfolding refresh_loop
  distributed_refresh [] rng = err invalid_parameter
  distributed_refresh (s ∷ all_shares) rng = refresh_loop rng 0 (s ∷ all_shares)

  -- `Frost::verify_refresh_share`.
  unfoldable verify_refresh_share : Share Scalar → Share Scalar → List G2 → Bool
  verify_refresh_share old_share new_share commitment =
      g2.beq (g2.mul g2.generator (field.sub new_share.value old_share.value))
        (eval_public c commitment old_share.index)

  -- `Frost::verify_zero_constant`.
  unfoldable verify_zero_constant : List G2 → Bool
  verify_zero_constant [] = false
  verify_zero_constant (p ∷ ps) = g2.beq p g2.identity

  -- A new share passes against the commitments of a polynomial exactly when it is the old share plus
  -- the value of that polynomial at the index of the old one.
  verify_refresh_share_iff :
      (a : Scalar) (cs : List Scalar) (old new : Share Scalar)
      → (verify_refresh_share old new (commit c (a ∷ cs)) ≡ true)
        ↔ (new.value ≡ field.add old.value (eval_at field a cs old.index))
  unfolding verify_refresh_share
  verify_refresh_share_iff a cs old new = (
    λ e.
        sym (add-sub field new.value old.value)
        ∙ ap (field.add old.value) (
            generator_injective g2 _ _
              ((g2.beq_iff _ _).0 e ∙ eval_public-commit c a cs old.index)),
    λ e. beq_of_eq g2 (
        ap (g2.mul g2.generator)
          (add_cancel field old.value _ _ (add-sub field new.value old.value ∙ e))
        ∙ sym (eval_public-commit c a cs old.index)),
  )

  -- `mcp_refresh_share` returns a share of the same index and commitments that pass both checks:
  -- the new share fits them, and they commit to a polynomial without constant term.
  verify_refresh_share-mcp_refresh_share :
      (share : Share Scalar) (rng : ℕ → Scalar)
      → (new : Share Scalar) × (commitments : List G2) × (mcp_refresh_share {E = CryptoError} share
            rng
          ≡ ok (new, commitments))
        × (new.index ≡ share.index)
        × (verify_refresh_share share new commitments ≡ true)
        × (verify_zero_constant commitments ≡ true)
  unfolding mcp_refresh_share random_with_zero_constant eval verify_zero_constant commit
  verify_refresh_share-mcp_refresh_share share rng = (
    _,
    _,
    refl,
    refl,
    (verify_refresh_share_iff field.zero (rng 0 ∷ []) share _).1 refl,
    beq_of_eq g2 (mul-zero g2 g2.generator),
  )

  -- `refresh_share` takes a polynomial with a random constant term, and `verify_zero_constant` refuses
  -- its commitments exactly when that term is not 0, which is when the shared secret changes.
  verify_zero_constant-refresh_share :
      (share new : Share Scalar) (rng : ℕ → Scalar) (commitments : List G2)
      → refresh_share {E = CryptoError} share rng ≡ ok (new, commitments)
      → (verify_zero_constant commitments ≡ true) ↔ (rng 0 ≡ field.zero)
  unfolding refresh_share random eval verify_zero_constant commit
  verify_zero_constant-refresh_share share new rng commitments e =
      let q : commit c (rng 0 ∷ rng 1 ∷ []) ≡ commitments = cc in
      subst (λ l. (verify_zero_constant l ≡ true) ↔ (rng 0 ≡ field.zero)) q
        (
          λ v. g2.generator_free (rng 0) ((g2.beq_iff _ _).0 v),
          λ z. beq_of_eq g2 (ap (g2.mul g2.generator) z ∙ mul-zero g2 g2.generator),
        )
