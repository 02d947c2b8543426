-- ===== src/Server/Signing.antt =====
-- sigimora-server/src/routes/signing.rs and verify.rs: threshold signatures by the nodes of a network.
-- `tx_id` and `now` are what `Uuid::new_v4` and `Utc::now` yield.
pub mod Params
pub mod Quorum
pub mod Laws
use sigimora_api_backend.Base.{
  ℕ, zero, suc, ◌+◌, Bool, not, Option, none, some, List, [], ◌∷◌, length, get_elem?, ltb, guard,
  ok_or, map_err, unwrap,
}
use sigimora_api_backend.Base.Stateful.{Run, ◌>>=◌, ◌>>◌, pure, lift}
use sigimora_api_backend.Math.Suite.{Suite, Bytes}
use sigimora_api_backend.Math.Pairing.{ct_verify_bls_signature}
use sigimora_api_backend.Ats.{AtsSignature, ats_tag}
use sigimora_api_backend.Ledger.Maps.{same_id}
use sigimora_api_backend.Server.{ApiError, bad_request, internal, crypto, dkg_complete}
use sigimora_api_backend.Server.Store.{
  Query, NetworkRow, NodeRow, LedgerRow, SignedTxRow, insert_ledger_entry, insert_signed_tx,
}
use sigimora_api_backend.Server.Texts.{Texts, decode}
use sigimora_api_backend.Server.Keygen.{found_network, all_nodes}
use sigimora_api_backend.Server.Signing.Params.{load, pick, sign_with}

pub record SignRequest : Type 0 where
  pub message : Bytes
  pub quorum : List ℕ

pub record SignResponse : Type 0 where
  pub tx_id : Bytes
  pub combined_sig_hex : Bytes
  pub quorum : List ℕ
  pub message_hash_hex : Bytes

pub record VerifyRequest : Type 0 where
  pub message : Bytes
  pub signature_hex : Bytes

pub record VerifyResponse : Type 0 where
  pub valid : Bool
  pub network_id : Bytes

module _ (c : Suite) (texts : Texts) where
  open c use {Scalar, G1, G2}

  unfoldable pub ledger_entry : Bytes → Bytes → Bytes → List ℕ → Bytes → AtsSignature c → LedgerRow
  ledger_entry tx_id now network_id quorum msg sig = record {
    block_index = 0;
    tx_id = tx_id;
    network_id = network_id;
    message_hash = c.g1_code.to_bytes (c.hash_to_g1 msg ats_tag);
    signature = some (c.g1_code.to_bytes sig.combined_sig);
    signers = texts.json_ids quorum;
    epoch = 0;
    created_at = now;
  }

  unfoldable pub signed_tx : Bytes → Bytes → Bytes → List ℕ → Bytes → AtsSignature c → SignedTxRow
  signed_tx tx_id now network_id quorum msg sig = record {
    tx_id = tx_id;
    network_id = network_id;
    message = msg;
    signature = c.g1_code.to_bytes sig.combined_sig;
    quorum = texts.json_ids quorum;
    created_at = now;
  }

  -- The entry of the ledger and the signed transaction are stored.
  unfoldable pub store_signature :
      Bytes → Bytes → Bytes → List ℕ → Bytes → AtsSignature c → Query (Unit {0})
  unfolding ledger_entry signed_tx
  store_signature tx_id now network_id quorum msg sig = do
    insert_ledger_entry (ledger_entry tx_id now network_id quorum msg sig)
    insert_signed_tx (signed_tx tx_id now network_id quorum msg sig)

  unfoldable pub sign_response : Bytes → List ℕ → Bytes → AtsSignature c → SignResponse
  sign_response tx_id quorum msg sig = record {
    tx_id = tx_id;
    combined_sig_hex = texts.hex_encode (c.g1_code.to_bytes sig.combined_sig);
    quorum = quorum;
    message_hash_hex = texts.hex_encode (c.g1_code.to_bytes (c.hash_to_g1 msg ats_tag));
  }

  -- `lt` are the long-term keys, `random` what `sign_partial` reads of the generator.
  unfoldable pub sign_message :
      (ℕ → Scalar) → (ℕ → Scalar × Bytes) → Bytes → Bytes → Bytes → SignRequest → Query SignResponse
  unfolding sign_response
  sign_message lt random tx_id now network_id req = do
    net_row ← found_network network_id
    lift (guard (same_id net_row.state dkg_complete) bad_request)
    lift (guard (not (ltb (length req.quorum) (net_row.t + 1))) bad_request)
    msg ← lift (ok_or (texts.hex_decode req.message) bad_request)
    node_rows ← all_nodes network_id net_row.n
    loaded ← lift (load c lt net_row node_rows)
    let quorum = pick c loaded.configs req.quorum
    lift (guard (not (ltb (length quorum) (net_row.t + 1))) bad_request)
    sig ← lift (sign_with c random loaded.params quorum req.quorum msg)
    store_signature tx_id now network_id req.quorum msg sig
    pure (sign_response tx_id req.quorum msg sig)

  -- routes/verify.rs.
  unfoldable pub verify_signature : Bytes → VerifyRequest → Query VerifyResponse
  verify_signature network_id req = do
    net_row ← found_network network_id
    pk_bytes ← lift (ok_or net_row.collective_pk bad_request)
    collective_pk ← lift (decode c.g2_code internal pk_bytes)
    msg ← lift (ok_or (texts.hex_decode req.message) bad_request)
    sig_bytes ← lift (ok_or (texts.hex_decode req.signature_hex) bad_request)
    sig ← lift (decode c.g1_code bad_request sig_bytes)
    pure (record {
      valid = ct_verify_bls_signature c sig (c.hash_to_g1 msg ats_tag) collective_pk;
      network_id = network_id;
    })
