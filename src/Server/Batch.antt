-- ===== src/Server/Batch.antt =====
-- sigimora-server/src/routes/batch.rs: one quorum signs several messages. `tx_id k` is the `k`-th id
-- that `Uuid::new_v4` yields, `random k` what the `k`-th round of partial signatures reads.
pub mod Laws
use sigimora_api_backend.Base.{
  ℕ, zero, suc, ◌+◌, not, List, [], ◌∷◌, length, ltb, ◌==◌, guard, ok_or,
}
use sigimora_api_backend.Base.Stateful.{◌>>=◌, ◌>>◌, pure, lift}
use sigimora_api_backend.Math.Suite.{Suite, Bytes}
use sigimora_api_backend.Ats.{AtsSignature, SignerConfig, NetworkPublicParams, ats_tag}
use sigimora_api_backend.Ledger.Maps.{same_id}
use sigimora_api_backend.Server.{bad_request, dkg_complete}
use sigimora_api_backend.Server.Store.{Query}
use sigimora_api_backend.Server.Texts.{Texts}
use sigimora_api_backend.Server.Keygen.{found_network, all_nodes}
use sigimora_api_backend.Server.Signing.{store_signature}
use sigimora_api_backend.Server.Signing.Params.{load, pick, sign_with}

pub record BatchSignRequest : Type 0 where
  pub messages : List Bytes
  pub quorum : List ℕ

pub record BatchSignEntry : Type 0 where
  pub message_hex : Bytes
  pub tx_id : Bytes
  pub combined_sig_hex : Bytes
  pub message_hash_hex : Bytes

pub record BatchSignResponse : Type 0 where
  pub network_id : Bytes
  pub quorum : List ℕ
  pub count : ℕ
  pub signatures : List BatchSignEntry

module _ (c : Suite) (texts : Texts) where
  open c use {Scalar, G1, G2}

  unfoldable pub batch_entry : Bytes → Bytes → Bytes → AtsSignature c → BatchSignEntry
  batch_entry message_hex tx_id msg sig = record {
    message_hex = message_hex;
    tx_id = tx_id;
    combined_sig_hex = texts.hex_encode (c.g1_code.to_bytes sig.combined_sig);
    message_hash_hex = texts.hex_encode (c.g1_code.to_bytes (c.hash_to_g1 msg ats_tag));
  }

  -- `for msg_hex in &req.messages`, from the `k`-th message on.
  unfoldable pub sign_batch :
      (ℕ → ℕ → Scalar × Bytes)
      → (ℕ → Bytes)
      → Bytes
      → Bytes
      → NetworkPublicParams c
      → List (SignerConfig c)
      → List ℕ
      → ℕ
      → List Bytes
      → Query (List BatchSignEntry)
  unfolding batch_entry
  sign_batch random tx_id now network_id params signers quorum k [] = pure []
  sign_batch random tx_id now network_id params signers quorum k (msg_hex ∷ messages) = do
    msg ← lift (ok_or (texts.hex_decode msg_hex) bad_request)
    sig ← lift (sign_with c (random k) params signers quorum msg)
    store_signature c texts (tx_id k) now network_id quorum msg sig
    rest ← sign_batch random tx_id now network_id params signers quorum (suc k) messages
    pure (batch_entry msg_hex (tx_id k) msg sig ∷ rest)

  unfoldable pub batch_sign :
      (ℕ → Scalar)
      → (ℕ → ℕ → Scalar × Bytes)
      → (ℕ → Bytes)
      → Bytes
      → Bytes
      → BatchSignRequest
      → Query BatchSignResponse
  batch_sign lt random tx_id now network_id req = do
    lift (guard (not (length req.messages == 0)) bad_request)
    lift (guard (not (ltb 100 (length req.messages))) bad_request)
    net_row ← found_network network_id
    lift (guard (same_id net_row.state dkg_complete) bad_request)
    lift (guard (not (ltb (length req.quorum) (net_row.t + 1))) bad_request)
    node_rows ← all_nodes network_id net_row.n
    loaded ← lift (load c lt net_row node_rows)
    let signers = pick c loaded.configs req.quorum
    lift (guard (not (ltb (length signers) (net_row.t + 1))) bad_request)
    signatures ←
        sign_batch random tx_id now network_id loaded.params signers req.quorum 0 req.messages
    pure (record {
      network_id = network_id;
      quorum = req.quorum;
      count = length signatures;
      signatures = signatures;
    })
