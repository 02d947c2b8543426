-- ===== src/Server/Tracing/Laws.antt =====
-- Whom the answer of sigimora-server/src/routes/trace.rs names.
use sigimora_api_backend.Base.{
  ℕ, ◌<◌, ◌≤◌, ◌≡◌, refl, ◌∙◌, some, List, map, find, All, All-map, ok, arith,
}
use sigimora_api_backend.Math.Suite.{Suite, Bytes}
use sigimora_api_backend.Shamir.Poly.{horner}
use sigimora_api_backend.Ledger.Maps.{same_id}
use sigimora_api_backend.Server.{bad_request, internal}
use sigimora_api_backend.Server.Store.{
  Database, SignedTxRow, rows_of, get_signed_tx, get_nodes_by_network,
}
use sigimora_api_backend.Server.Texts.{Texts, decode-to_bytes}
use sigimora_api_backend.Server.Keyed.{IsKeyed, shares}
use sigimora_api_backend.Server.Keygen.Laws.{found_network_ok}
use sigimora_api_backend.Server.Signing.Quorum.{IsMember}
use sigimora_api_backend.Server.Tracing.{trace_signers}
use sigimora_api_backend.Server.Tracing.Members.{
  SignerInfo, signers_of, member_keys_ok, signers_of_ids,
}

module _ (c : Suite) (texts : Texts) (net : Bytes) where
  open c use {Scalar, G1, G2, field, g2}

  -- Any scalar serves as the tracking key: a request for a stored transaction, which has a
  -- signature and a quorum of members of a network of at most 65535 nodes that hold the shares of
  -- its key, is answered with this quorum. The database stays as it is.
  pub trace_signers_any_key :
      (n t : ℕ) (p : List Scalar) (k : Scalar) (sig : G1) (ids : List ℕ) (tx_id : Bytes)
      (tx : SignedTxRow) (db : Database)
      → IsKeyed c net n t p db
      → n ≤ 65535
      → find (λ r. same_id r.tx_id tx_id) db.signed_txs ≡ some tx
      → tx.signature ≡ c.g1_code.to_bytes sig
      → tx.quorum ≡ texts.json_ids ids
      → All (IsMember c net n) ids
      → (signers : List SignerInfo) × (trace_signers c texts net
            (record {
              tx_id = tx_id;
              tracking_key_hex = texts.hex_encode (c.scalar_code.to_bytes k);
            })
            db
          ≡ (db, ok signers))
        × (map (λ (s : SignerInfo). s.node_id) signers ≡ ids)
  unfolding trace_signers get_signed_tx get_nodes_by_network
  trace_signers_any_key n t p k sig ids tx_id tx db h m found s q members =
      let (ms, e, a, l) =
        member_keys_ok c net (shares c net p) 0 (rows_of net db.nodes) h.holds.secrets
          (omega (arith, m, h.holds.count)) in
      let short : All (λ i. i < 65536) ids =
        All-map (λ i b. let hi = b.1 in omega (arith, hi, m)) ids members in
      (
        signers_of c texts ms ids,
        rw
            (
              found_network_ok net db h.row h.found,
              texts.hex_decode-hex_encode (c.scalar_code.to_bytes k),
              decode-to_bytes c.scalar_code bad_request k,
              found,
              s,
              decode-to_bytes c.g1_code internal sig,
              h.key,
              decode-to_bytes c.g2_code internal (g2.mul g2.generator (horner field p field.zero)),
              h.tracking,
              decode-to_bytes c.g2_code internal h.tracking_pk,
              e,
              q,
              texts.parse_ids-json_ids ids short,
            )
            refl,
        signers_of_ids c net texts n ms ids a (l ∙ h.holds.count) members,
      )
