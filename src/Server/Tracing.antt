-- ===== src/Server/Tracing.antt =====
-- sigimora-server/src/routes/trace.rs: who signed a transaction. The answer leaves out the timestamps,
-- which are always `None`.
pub mod Members
pub mod Laws
use sigimora_api_backend.Base.{ℕ, Option, none, some, List, [], ok_or}
use sigimora_api_backend.Base.Stateful.{◌>>=◌, ◌>>◌, pure, lift}
use sigimora_api_backend.Math.Suite.{Suite, Bytes}
use sigimora_api_backend.Server.{not_found, bad_request, internal}
use sigimora_api_backend.Server.Store.{Query, get_signed_tx, get_nodes_by_network}
use sigimora_api_backend.Server.Texts.{Texts, decode}
use sigimora_api_backend.Server.Tracing.Members.{SignerInfo, member_keys, signers_of}
use sigimora_api_backend.Server.Keygen.{found_network}

pub record TraceRequest : Type 0 where
  pub tx_id : Bytes
  pub tracking_key_hex : Bytes

-- `serde_json::from_str(..).unwrap_or_default()`.
abbrev ids_or_none : Option (List ℕ) → List ℕ
ids_or_none none = []
ids_or_none (some ids) = ids

module _ (c : Suite) (texts : Texts) where
  open c use {G2}

  unfoldable pub trace_signers : Bytes → TraceRequest → Query (List SignerInfo)
  trace_signers network_id req = do
    net_row ← found_network network_id
    sk_bytes ← lift (ok_or (texts.hex_decode req.tracking_key_hex) bad_request)
    tracking_sk ← lift (decode c.scalar_code bad_request sk_bytes)
    found ← get_signed_tx req.tx_id
    tx ← lift (ok_or found not_found)
    combined_sig ← lift (decode c.g1_code internal tx.signature)
    pk_bytes ← lift (ok_or net_row.collective_pk bad_request)
    collective_pk ← lift (decode c.g2_code internal pk_bytes)
    tracking_bytes ← lift (ok_or net_row.tracking_pk internal)
    tracking_pk ← lift (decode c.g2_code internal tracking_bytes)
    node_rows ← get_nodes_by_network network_id
    members ← lift (member_keys c node_rows)
    pure (signers_of c texts members (ids_or_none (texts.parse_ids tx.quorum)))
