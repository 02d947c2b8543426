-- ===== src/Tests/Accounts.antt =====
-- Runs of the theorems on API keys and on the creation of a network of three nodes.
use sigimora_api_backend.Base.{◌≡◌, ◌≢◌, refl, some, none, [], ◌∷◌, ◌++◌, ok, arith}
use sigimora_api_backend.Math.Suite.{Bytes}
use sigimora_api_backend.Samples.{sample, zeros}
use sigimora_api_backend.Samples.FiveField.{Five, z1, z2}
use sigimora_api_backend.Server.{admin, user}
use sigimora_api_backend.Server.Store as Store
use sigimora_api_backend.Server.Store.{Database, ApiKeyRow}
use sigimora_api_backend.Server.Access.{
  AuthenticatedUser, bearer, generate_api_key, from_request_parts, delete_api_key, letter,
  sha256_hex,
}
use sigimora_api_backend.Server.Access.Laws.{
  from_request_parts-generate_api_key, from_request_parts-delete_api_key,
}
use sigimora_api_backend.Server.Networks.{
  Fresh, CreateNetworkRequest, CreateNetworkResponse, create_network,
}
use sigimora_api_backend.Server.Networks.Laws.{
  IsUnused, create_network-IsNetwork, from_request_parts-create_network,
}
use sigimora_api_backend.Server.Keyed.{IsNetwork}
use sigimora_api_backend.Tests.{texts}

abbrev key_row : Bytes → Bytes → Bytes → ApiKeyRow
key_row id key role = record {
  id = id;
  key_hash = key;
  key_prefix = [];
  label = [];
  role = role;
  created_at = [];
  last_used_at = none;
}

abbrev accounts : Database
accounts = record {
  api_keys = key_row (1 ∷ []) (66 ∷ zeros 20) admin ∷ key_row (2 ∷ []) (67 ∷ zeros 20) user ∷ [];
  networks = [];
  nodes = [];
  ledger = [];
  signed_txs = [];
  last_node = 0;
  last_block = 0;
}

from_request_parts-generate_api_key_example :
    (from_request_parts sample texts []
      (some (bearer ++ (generate_api_key sample texts (zeros 16) (3 ∷ []) [] [] user).0))
      (Store.insert_api_key
        (generate_api_key sample texts (zeros 16) (3 ∷ []) [] [] user).1
        accounts).0).1
    ≡ ok (record { id = 3 ∷ []; role = user })
unfolding generate_api_key letter sha256_hex
from_request_parts-generate_api_key_example =
    from_request_parts-generate_api_key sample texts (zeros 16) (3 ∷ []) [] [] user [] accounts refl
      refl refl

abbrev boss : AuthenticatedUser
boss = record { id = 1 ∷ []; role = admin }

-- The first key is revoked, the second one is used.
from_request_parts-delete_api_key_example : ◌≢◌ {A = Bytes} (2 ∷ []) (1 ∷ [])
unfolding from_request_parts delete_api_key Store.delete_api_key Store.get_api_key_by_hash
    Store.touch_api_key sha256_hex
from_request_parts-delete_api_key_example =
    from_request_parts-delete_api_key sample texts [] (1 ∷ []) (some (bearer ++ (67 ∷ zeros 20)))
      boss (record { id = 2 ∷ []; role = user }) accounts _ refl refl

abbrev drawn : Fresh Five
drawn = record {
  network_id = zeros 36;
  key_id = 3 ∷ [];
  tracking = z2;
  node_sk = λ k. z1;
  entropy = zeros 16;
  now = 0;
  now_text = [];
  company = λ k. [];
  label = [];
}

drawn-IsUnused : IsUnused sample texts drawn accounts
drawn-IsUnused = record {
  network_unused = refl;
  nodes_unused = tt;
  key_unused = refl;
  id_long = omega arith;
  entropy_size = refl;
}

abbrev three_nodes : CreateNetworkRequest
three_nodes = record { n = 3; t = 1 }

create_network-IsNetwork_example :
    (db : Database) × (resp : CreateNetworkResponse) × (create_network sample texts drawn
        three_nodes accounts
      ≡ (db, ok resp))
    × IsNetwork sample (zeros 36) 3 1 db
create_network-IsNetwork_example =
    create_network-IsNetwork sample texts drawn three_nodes accounts drawn-IsUnused (omega arith)
      (omega arith) (omega arith) (omega arith)

from_request_parts-create_network_example :
    (db : Database) × (resp : CreateNetworkResponse) × (create_network sample texts drawn
        three_nodes accounts
      ≡ (db, ok resp))
    × ((from_request_parts sample texts [] (some (bearer ++ resp.bootstrap_api_key)) db).1
        ≡ ok (record { id = 3 ∷ []; role = admin }))
unfolding letter sha256_hex
from_request_parts-create_network_example =
    from_request_parts-create_network sample texts drawn three_nodes [] accounts drawn-IsUnused refl
      (omega arith) (omega arith) (omega arith) (omega arith)
