-- ===== src/Server/Networks.antt =====
-- sigimora-server/src/routes/network.rs: the networks are created and shown. A row holds the times as
-- texts, `parse_time` reads them; `now` is the clock.
pub mod Rows
pub mod Laws
use sigimora_api_backend.Base.{
  ℕ, zero, suc, ◌+◌, ◌-◌, ◌/◌, not, ◌||◌, Option, none, some, List, [], ◌∷◌, ◌++◌, range_from, u16,
  ltb, leb, ◌==◌, slice, guard,
}
use sigimora_api_backend.Base.Stateful.{◌>>=◌, ◌>>◌, pure, lift}
use sigimora_api_backend.Math.Suite.{Suite, Bytes}
use sigimora_api_backend.Ats.{TrackingKeyPair, from_secret}
use sigimora_api_backend.Server.{ApiError, bad_request, created, admin}
use sigimora_api_backend.Server.Store.{
  Query, NetworkRow, NodeRow, insert_network, insert_node, insert_api_key, count_nodes_by_network,
}
use sigimora_api_backend.Server.Texts.{Texts, hex_of}
use sigimora_api_backend.Server.Access.{generate_api_key}
use sigimora_api_backend.Server.Keygen.{found_network}

pub record NetworkInfo : Type 0 where
  pub id : Bytes
  pub n : ℕ
  pub t : ℕ
  pub f : ℕ
  pub quorum : ℕ
  pub collective_pk_hex : Option Bytes
  tracking_pk_hex : Option Bytes
  pub state : Bytes
  pub created_at : ℕ
  node_count : ℕ

pub record CreateNetworkRequest : Type 0 where
  pub n : ℕ
  pub t : ℕ

pub record CreateNetworkResponse : Type 0 where
  pub network : NetworkInfo
  tracking_secret_key_hex : Bytes
  pub bootstrap_api_key : Bytes

-- What the handler reads of the generator, the clock and `Uuid::new_v4`: the ids of the network and of
-- its key, the tracking secret, the nodes' secrets, the entropy of the key, and the time, with its text.
pub record Fresh (Scalar : Type 0) : Type 0 where
  pub network_id : Bytes
  pub key_id : Bytes
  pub tracking : Scalar
  pub node_sk : ℕ → Scalar
  pub entropy : Bytes
  pub now : ℕ
  pub now_text : Bytes
  -- `format!("Node {}", node_id)` and `"network-"`.
  pub company : ℕ → Bytes
  pub label : Bytes

module _ (c : Suite) where
  open c use {Scalar, G2, g2}

  unfoldable pub network_row : Fresh Scalar → ℕ → ℕ → NetworkRow
  unfolding from_secret
  network_row fresh n t = record {
    id = fresh.network_id;
    n = n;
    t = t;
    f = (n - 1) / 3;
    quorum = t + 1;
    collective_pk = none;
    tracking_pk = some (c.g2_code.to_bytes (from_secret c fresh.tracking).public);
    tracking_sk = some (c.scalar_code.to_bytes (from_secret c fresh.tracking).secret);
    state = created;
    created_at = fresh.now_text;
  }

  unfoldable pub node_row : Fresh Scalar → ℕ → NodeRow
  node_row fresh node_id = record {
    id = 0;
    node_id = node_id;
    network_id = fresh.network_id;
    public_key = c.g2_code.to_bytes (g2.mul g2.generator (fresh.node_sk node_id));
    secret_key = c.scalar_code.to_bytes (fresh.node_sk node_id);
    company_name = some (fresh.company node_id);
    epoch = 0;
    created_at = fresh.now_text;
  }

  -- `for node_id in 1..=req.n as u16`.
  unfoldable pub insert_nodes : Fresh Scalar → List ℕ → Query (Unit {0})
  unfolding insert_node node_row
  insert_nodes fresh [] = pure tt
  insert_nodes fresh (node_id ∷ ids) = do
    insert_node (node_row fresh node_id)
    insert_nodes fresh ids

  module _ (texts : Texts) where
    unfoldable pub network_response :
        Fresh Scalar → CreateNetworkRequest → Bytes → CreateNetworkResponse
    unfolding from_secret
    network_response fresh req raw_key = record {
      network = record {
        id = fresh.network_id;
        n = req.n;
        t = req.t;
        f = (req.n - 1) / 3;
        quorum = req.t + 1;
        collective_pk_hex = none;
        tracking_pk_hex =
            some (texts.hex_encode (c.g2_code.to_bytes (from_secret c fresh.tracking).public));
        state = created;
        created_at = fresh.now;
        node_count = req.n;
      };
      tracking_secret_key_hex =
          texts.hex_encode (c.scalar_code.to_bytes (from_secret c fresh.tracking).secret);
      bootstrap_api_key = raw_key;
    }

    -- `&network_id[..8]` panics on a shorter id.
    unfoldable pub create_network :
        Fresh Scalar → CreateNetworkRequest → Query CreateNetworkResponse
    unfolding insert_network network_row insert_nodes insert_api_key generate_api_key
        network_response
    create_network fresh req = do
      lift (guard (not (ltb req.n 2)) bad_request)
      lift (guard (not ((req.t == 0) || leb req.n req.t)) bad_request)
      insert_network (network_row fresh req.n req.t)
      insert_nodes fresh (range_from 1 (u16 req.n))
      short_id ← lift (slice 0 8 fresh.network_id)
      let made =
          generate_api_key c texts fresh.entropy fresh.key_id fresh.now_text
            (fresh.label ++ short_id) admin
      insert_api_key made.1
      pure (network_response fresh req made.0)

-- `parse_from_rfc3339(..).unwrap_or_else(|_| Utc::now())`.
abbrev time_or : ℕ → Option ℕ → ℕ
time_or now none = now
time_or now (some time) = time

module _ (texts : Texts) (parse_time : Bytes → Option ℕ) where
  unfoldable network_info : ℕ → NetworkRow → ℕ → NetworkInfo
  network_info now row node_count = record {
    id = row.id;
    n = row.n;
    t = row.t;
    f = row.f;
    quorum = row.quorum;
    collective_pk_hex = hex_of texts row.collective_pk;
    tracking_pk_hex = hex_of texts row.tracking_pk;
    state = row.state;
    created_at = time_or now (parse_time row.created_at);
    node_count = node_count;
  }

  unfoldable pub get_network : ℕ → Bytes → Query NetworkInfo
  unfolding network_info
  get_network now id = do
    row ← found_network id
    node_count ← count_nodes_by_network id
    pure (network_info now row node_count)
