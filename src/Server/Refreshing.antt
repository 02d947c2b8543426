-- ===== src/Server/Refreshing.antt =====
-- sigimora-server/src/routes/refresh.rs: the refresh of the shares of a network, which the server runs
-- for all of its nodes. The contribution of node `i` reads the generator `rngs i`.
pub mod Keys
pub mod Laws
pub mod Invariant
pub mod Kept
use sigimora_api_backend.Base.{
  ℕ, suc, ◌+◌, Bool, Option, none, some, List, [], ◌∷◌, map, take, range_from, u16, guard, map_err,
  panic,
}
use sigimora_api_backend.Base.Stateful.{◌>>=◌, ◌>>◌, pure, lift}
use sigimora_api_backend.Math.Suite.{Suite, Bytes}
use sigimora_api_backend.Shamir.{CryptoError}
use sigimora_api_backend.Refresh.{manager, verify_collective_key_invariant}
use sigimora_api_backend.Ledger.Maps.{same_id}
use sigimora_api_backend.Server.{ApiError, bad_request, crypto, dkg_complete}
use sigimora_api_backend.Server.Store.{Query, NodeRow, update_node_secret, update_node_epoch}
use sigimora_api_backend.Server.Keygen.{found_network, all_nodes}
use sigimora_api_backend.Server.Refreshing.Keys.{decode_keys, contributions, apply_all, public_keys}

pub record RefreshResponse : Type 0 where
  pub network_id : Bytes
  pub epoch : ℕ
  pub invariant_preserved : Bool

-- `node_rows.first().map(|r| r.epoch).unwrap_or(0) + 1`.
unfoldable pub next_epoch : List NodeRow → ℕ
next_epoch [] = 1
next_epoch (r ∷ rs) = r.epoch + 1

module _ (c : Suite) where
  open c use {Scalar, G2, g2}

  -- `for (i, row) in node_rows.iter().enumerate()`; `keys_after[i]` panics out of range.
  unfoldable pub store_refreshed : Bytes → ℕ → List NodeRow → List Scalar → Query (Unit {0})
  store_refreshed network_id epoch [] keys = pure tt
  store_refreshed network_id epoch (r ∷ rs) [] = lift panic
  store_refreshed network_id epoch (r ∷ rs) (k ∷ ks) = do
    update_node_secret network_id (u16 r.node_id) (c.scalar_code.to_bytes k)
    update_node_epoch r.id epoch
    store_refreshed network_id epoch rs ks

  unfoldable pub refresh_network : (ℕ → ℕ → Scalar) → Bytes → Query RefreshResponse
  refresh_network rngs network_id = do
    net_row ← found_network network_id
    lift (guard (same_id net_row.state dkg_complete) bad_request)
    node_rows ← all_nodes network_id net_row.n
    current_keys ← lift (decode_keys c node_rows)
    let dealt = contributions c (manager c net_row.n net_row.t) rngs
    keys_after ← lift (apply_all c dealt 0 current_keys)
    invariant ← lift (
        map_err {E = CryptoError} (λ e. crypto)
          (verify_collective_key_invariant c (public_keys c current_keys) (public_keys c keys_after)
            (take (net_row.t + 1) (range_from 1 (u16 net_row.n)))))
    store_refreshed network_id (next_epoch node_rows) node_rows keys_after
    pure (record {
      network_id = network_id;
      epoch = next_epoch node_rows;
      invariant_preserved = invariant;
    })
