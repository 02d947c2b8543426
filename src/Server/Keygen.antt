-- ===== src/Server/Keygen.antt =====
-- sigimora-server/src/routes/dkg.rs: the key generation of a network, which the server runs for all
-- of its nodes. The `i`-th node reads generators of its own.
pub mod Laws
use sigimora_api_backend.Base.{
  ℕ, zero, suc, ◌+◌, Bool, ◌||◌, Option, none, some, List, [], ◌∷◌, length, get_elem?, u16, ◌==◌,
  guard, ok_or, map_err, unwrap, Outcome, ok,
}
use sigimora_api_backend.Base.Stateful.{Run, ◌>>=◌, ◌>>◌, pure, lift}
use sigimora_api_backend.Math.Suite.{Suite, Bytes}
use sigimora_api_backend.Shamir.{CryptoError}
use sigimora_api_backend.Pedersen.{setup_deterministic}
use sigimora_api_backend.Dkg.{DkgOutput}
use sigimora_api_backend.Ledger.Maps.{same_id}
use sigimora_api_backend.Server.{
  ApiError, not_found, bad_request, internal, crypto, created, dkg_complete,
}
use sigimora_api_backend.Server.Store.{
  Query, NetworkRow, NodeRow, get_network, get_nodes_by_network, update_node_secret,
  update_network_state,
}
use sigimora_api_backend.Server.Texts.{Texts, hex_of}
use sigimora_api_backend.Server.Exchange.{run_pedersen}

pub record DkgStatusResponse : Type 0 where
  pub network_id : Bytes
  pub state : Bytes
  pub collective_pk_hex : Option Bytes
  pub member_count : ℕ
  pub threshold : ℕ

-- `db.get_network(&network_id).await?.ok_or_else(..)?`.
unfoldable pub found_network : Bytes → Query NetworkRow
unfolding get_network
found_network network_id = do row ← get_network network_id; lift (ok_or row not_found)

-- The rows of the nodes, of which there are `n`.
unfoldable pub all_nodes : Bytes → ℕ → Query (List NodeRow)
unfolding get_nodes_by_network
all_nodes network_id n = do
  node_rows ← get_nodes_by_network network_id
  lift (guard (length node_rows == n) internal)
  pure node_rows

-- `for (i, output) in outputs.iter().enumerate()`, with the encoded secrets.
unfoldable pub store_secrets : Bytes → ℕ → List Bytes → Query (Unit {0})
unfolding update_node_secret
store_secrets network_id i [] = pure tt
store_secrets network_id i (secret ∷ secrets) = do
  update_node_secret network_id (u16 (i + 1)) secret
  store_secrets network_id (suc i) secrets

module _ (c : Suite) where
  open c use {Scalar, G2}

  unfoldable pub secret_bytes : List (DkgOutput c) → List Bytes
  secret_bytes [] = []
  secret_bytes (o ∷ os) = c.scalar_code.to_bytes o.my_secret ∷ secret_bytes os

  module _ (texts : Texts) where
    unfoldable pub run_dkg : (ℕ → ℕ → Scalar) → (ℕ → ℕ → Scalar) → Bytes → Query DkgStatusResponse
    unfolding update_network_state
    run_dkg rngs os_rngs network_id = do
      net_row ← found_network network_id
      lift (guard (same_id net_row.state created || same_id net_row.state dkg_complete) bad_request)
      node_rows ← all_nodes network_id net_row.n
      outputs ← lift (
          map_err (λ e. crypto)
            (run_pedersen c (setup_deterministic c) net_row.n net_row.t rngs os_rngs))
      first ← lift (unwrap (get_elem? outputs 0))
      store_secrets network_id 0 (secret_bytes outputs)
      update_network_state network_id dkg_complete (some (c.g2_code.to_bytes first.collective_pk))
      pure (record {
        network_id = network_id;
        state = dkg_complete;
        collective_pk_hex = some (texts.hex_encode (c.g2_code.to_bytes first.collective_pk));
        member_count = net_row.n;
        threshold = net_row.t + 1;
      })

unfoldable pub get_dkg_status : Texts → Bytes → Query DkgStatusResponse
get_dkg_status texts network_id = do
  net_row ← found_network network_id
  pure (record {
    network_id = network_id;
    state = net_row.state;
    collective_pk_hex = hex_of texts net_row.collective_pk;
    member_count = net_row.n;
    threshold = net_row.t + 1;
  })
