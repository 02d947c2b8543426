-- ===== src/Server/Refreshing/Keys.antt =====
-- sigimora-server/src/routes/refresh.rs: the keys of the nodes before and after a refresh.
use sigimora_api_backend.Base.{
  ℕ, suc, ◌+◌, List, [], ◌∷◌, map, range_from, u16, map_err, Outcome, ok, ◌>>=◌,
}
use sigimora_api_backend.Math.Suite.{Suite}
use sigimora_api_backend.Refresh.{
  RefreshManager, RefreshContribution, generate_contribution, apply_contributions,
}
use sigimora_api_backend.Server.{ApiError, internal, crypto}
use sigimora_api_backend.Server.Store.{NodeRow}
use sigimora_api_backend.Server.Texts.{decode}

module _ (c : Suite) where
  open c use {Scalar, G2, g2}

  unfoldable pub decode_keys : List NodeRow → Outcome ApiError (List Scalar)
  decode_keys [] = ok []
  decode_keys (row ∷ rows) = do
    sk ← decode c.scalar_code internal row.secret_key
    rest ← decode_keys rows
    ok (sk ∷ rest)

  unfoldable pub public_keys : List Scalar → List G2
  public_keys keys = map (g2.mul g2.generator) keys

  -- `(1..=n as u16).map(|i| manager.generate_contribution(i))`.
  unfoldable pub contributions : RefreshManager c → (ℕ → ℕ → Scalar) → List (RefreshContribution c)
  contributions m rngs = map (λ i. generate_contribution c m i (rngs i)) (range_from 1 (u16 m.n))

  -- `current_keys.iter().enumerate().map(..)`, from the index `i` on.
  unfoldable pub apply_all :
      List (RefreshContribution c) → ℕ → List Scalar → Outcome ApiError (List Scalar)
  apply_all dealt i [] = ok []
  apply_all dealt i (k ∷ ks) = do
    k' ← map_err (λ e. crypto) (apply_contributions c k (u16 (i + 1)) dealt)
    rest ← apply_all dealt (suc i) ks
    ok (k' ∷ rest)
