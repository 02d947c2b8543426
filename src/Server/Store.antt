-- ===== src/Server/Store.antt =====
-- sigimora-server/src/db.rs: the tables of the database and the statements on them. A table is the
-- list of its rows, a column of numbers holds natural numbers below 2 ^ 63, and a statement fails
-- where it breaks a constraint of the schema.
pub mod Nodes
pub mod Secrets
use sigimora_api_backend.Base.{
  ℕ, suc, ◌+◌, Bool, true, false, not, ◌&&◌, Option, none, some, List, [], ◌∷◌, ◌++◌, map, filter,
  find, any, length, ltb, leb, ◌==◌, if◌then◌else◌, ok, err,
}
use sigimora_api_backend.Base.Stateful.{Run, ◌>>=◌, ◌>>◌, pure, get, modify, lift}
use sigimora_api_backend.Math.Suite.{Bytes}
use sigimora_api_backend.Ledger.Maps.{same_id}
use sigimora_api_backend.Server.{ApiError, database}

pub record ApiKeyRow : Type 0 where
  pub id : Bytes
  pub key_hash : Bytes
  pub key_prefix : Bytes
  pub label : Bytes
  pub role : Bytes
  pub created_at : Bytes
  pub last_used_at : Option Bytes

pub record NetworkRow : Type 0 where
  pub id : Bytes
  pub n : ℕ
  pub t : ℕ
  pub f : ℕ
  pub quorum : ℕ
  pub collective_pk : Option Bytes
  pub tracking_pk : Option Bytes
  pub tracking_sk : Option Bytes
  pub state : Bytes
  pub created_at : Bytes

pub record NodeRow : Type 0 where
  pub id : ℕ
  pub node_id : ℕ
  pub network_id : Bytes
  pub public_key : Bytes
  pub secret_key : Bytes
  pub company_name : Option Bytes
  pub epoch : ℕ
  pub created_at : Bytes

pub record LedgerRow : Type 0 where
  pub block_index : ℕ
  pub tx_id : Bytes
  pub network_id : Bytes
  pub message_hash : Bytes
  pub signature : Option Bytes
  pub signers : Bytes
  pub epoch : ℕ
  pub created_at : Bytes

pub record SignedTxRow : Type 0 where
  pub tx_id : Bytes
  pub network_id : Bytes
  pub message : Bytes
  pub signature : Bytes
  pub quorum : Bytes
  pub created_at : Bytes

-- `last_node` and `last_block` are the last numbers given by AUTOINCREMENT.
pub record Database : Type 0 where
  pub api_keys : List ApiKeyRow
  pub networks : List NetworkRow
  pub nodes : List NodeRow
  pub ledger : List LedgerRow
  pub signed_txs : List SignedTxRow
  pub last_node : ℕ
  pub last_block : ℕ

-- A statement: it changes the database and returns rows or an error.
abbrev pub Query : Type 0 → Type 0
Query A = Run Database ApiError A

-- A change that a constraint of the schema allows or not.
abbrev pub change : Bool → Database → Query (Unit {0})
change true db' db = (db', ok tt)
change false db' db = (db, err database)

unfoldable pub insert_api_key : ApiKeyRow → Query (Unit {0})
insert_api_key key db =
    change (not (any (λ k. same_id k.id key.id) db.api_keys))
      (record db { api_keys = db.api_keys ++ record key { last_used_at = none } ∷ [] }) db

unfoldable pub get_api_key_by_hash : Bytes → Query (Option ApiKeyRow)
get_api_key_by_hash hash db = (db, ok (find (λ k. same_id k.key_hash hash) db.api_keys))

unfoldable pub count_api_keys : Query ℕ
count_api_keys db = (db, ok (length db.api_keys))

unfoldable pub count_networks : Query ℕ
count_networks db = (db, ok (length db.networks))

unfoldable pub count_all_nodes : Query ℕ
count_all_nodes db = (db, ok (length db.nodes))

unfoldable pub count_all_ledger_entries : Query ℕ
count_all_ledger_entries db = (db, ok (length db.ledger))

-- Whether a row was deleted.
unfoldable pub delete_api_key : Bytes → Query Bool
delete_api_key id db = (
  record db { api_keys = filter (λ k. not (same_id k.id id)) db.api_keys },
  ok (any (λ k. same_id k.id id) db.api_keys),
)

abbrev pub touch : Bytes → Bytes → ApiKeyRow → ApiKeyRow
touch now id k = if same_id k.id id then record k { last_used_at = some now } else k

unfoldable pub touch_api_key : Bytes → Bytes → Query (Unit {0})
touch_api_key now id db = (record db { api_keys = map (touch now id) db.api_keys }, ok tt)

abbrev pub has_network : Bytes → Database → Bool
has_network id db = any (λ r. same_id r.id id) db.networks

unfoldable pub insert_network : NetworkRow → Query (Unit {0})
insert_network net db =
    change (not (has_network net.id db)) (record db { networks = db.networks ++ net ∷ [] }) db

unfoldable pub get_network : Bytes → Query (Option NetworkRow)
get_network id db = (db, ok (find (λ r. same_id r.id id) db.networks))

abbrev pub set_state : Bytes → Bytes → Option Bytes → NetworkRow → NetworkRow
set_state id state collective_pk r =
    if same_id r.id id then record r { state = state; collective_pk = collective_pk } else r

unfoldable pub update_network_state : Bytes → Bytes → Option Bytes → Query (Unit {0})
update_network_state id state collective_pk db =
    (record db { networks = map (set_state id state collective_pk) db.networks }, ok tt)

-- The primary key is given by the database; UNIQUE(node_id, network_id).
unfoldable pub insert_node : NodeRow → Query (Unit {0})
insert_node node db =
    change
      (has_network node.network_id db
        && not (
            any (λ r. (r.node_id == node.node_id) && same_id r.network_id node.network_id)
              db.nodes))
      (record db {
        nodes = db.nodes ++ record node { id = suc db.last_node } ∷ [];
        last_node = suc db.last_node;
      })
      db

-- `ORDER BY node_id`.
unfoldable pub insert_row : NodeRow → List NodeRow → List NodeRow
insert_row r [] = r ∷ []
insert_row r (x ∷ xs) = if leb r.node_id x.node_id then r ∷ x ∷ xs else x ∷ insert_row r xs

unfoldable pub sort_rows : List NodeRow → List NodeRow
unfolding insert_row
sort_rows [] = []
sort_rows (r ∷ rs) = insert_row r (sort_rows rs)

unfoldable pub rows_of : Bytes → List NodeRow → List NodeRow
unfolding sort_rows
rows_of network_id rows = sort_rows (filter (λ r. same_id r.network_id network_id) rows)

unfoldable pub get_nodes_by_network : Bytes → Query (List NodeRow)
unfolding rows_of
get_nodes_by_network network_id db = (db, ok (rows_of network_id db.nodes))

unfoldable get_node : Bytes → ℕ → Query (Option NodeRow)
get_node network_id node_id db =
    (db, ok (find (λ r. same_id r.network_id network_id && (r.node_id == node_id)) db.nodes))

abbrev pub set_secret : Bytes → ℕ → Bytes → NodeRow → NodeRow
set_secret network_id node_id secret_key r =
    if same_id r.network_id network_id && (r.node_id == node_id)
    then record r { secret_key = secret_key }
    else r

unfoldable pub update_node_secret : Bytes → ℕ → Bytes → Query (Unit {0})
update_node_secret network_id node_id secret_key db =
    (record db { nodes = map (set_secret network_id node_id secret_key) db.nodes }, ok tt)

abbrev pub set_epoch : ℕ → ℕ → NodeRow → NodeRow
set_epoch id epoch r = if r.id == id then record r { epoch = epoch } else r

-- `UPDATE nodes SET epoch = ? WHERE id = ?` of routes/refresh.rs.
unfoldable pub update_node_epoch : ℕ → ℕ → Query (Unit {0})
update_node_epoch id epoch db = (record db { nodes = map (set_epoch id epoch) db.nodes }, ok tt)

unfoldable pub count_nodes_by_network : Bytes → Query ℕ
count_nodes_by_network network_id db =
    (db, ok (length (filter (λ r. same_id r.network_id network_id) db.nodes)))

unfoldable pub insert_ledger_entry : LedgerRow → Query (Unit {0})
insert_ledger_entry entry db =
    change (has_network entry.network_id db)
      (record db {
        ledger = db.ledger ++ record entry { block_index = suc db.last_block } ∷ [];
        last_block = suc db.last_block;
      })
      db

unfoldable pub insert_signed_tx : SignedTxRow → Query (Unit {0})
insert_signed_tx tx db =
    change (has_network tx.network_id db && not (any (λ r. same_id r.tx_id tx.tx_id) db.signed_txs))
      (record db { signed_txs = db.signed_txs ++ tx ∷ [] }) db

unfoldable pub get_signed_tx : Bytes → Query (Option SignedTxRow)
get_signed_tx tx_id db = (db, ok (find (λ r. same_id r.tx_id tx_id) db.signed_txs))
