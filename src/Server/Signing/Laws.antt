-- ===== src/Server/Signing/Laws.antt =====
-- What sigimora-server/src/routes/signing.rs signs, routes/verify.rs accepts.
use sigimora_api_backend.Base.{
  ℕ, suc, ◌+◌, ◌≤◌, ◌≡◌, refl, sym, ap, ◌∙◌, true, false, some, List, [], ◌∷◌, ◌++◌, find, any,
  length, All, ltb, ok, if◌then◌else◌, inl, inr, Bool-cases, arith,
}
use sigimora_api_backend.Math.Suite.{Suite, Bytes}
use sigimora_api_backend.Math.Pairing.{ct_verify_bls_signature_iff}
use sigimora_api_backend.Shamir.Poly.{horner}
use sigimora_api_backend.Shamir.Interpolation.{Distinct}
use sigimora_api_backend.Shamir.Lagrange.{points}
use sigimora_api_backend.Ats.{AtsSignature, ats_tag}
use sigimora_api_backend.Ledger.Maps.{same_id}
use sigimora_api_backend.Server.{bad_request, internal, dkg_complete}
use sigimora_api_backend.Server.Store.{
  Database, NetworkRow, has_network, insert_ledger_entry, insert_signed_tx,
}
use sigimora_api_backend.Server.Texts.{Texts, decode-to_bytes}
use sigimora_api_backend.Server.Keyed.{IsKeyed, IsKeyed-same}
use sigimora_api_backend.Server.Keygen.Laws.{found_network_ok, all_nodes_ok}
use sigimora_api_backend.Server.Signing.Quorum.{
  IsMember, pick_ok, length-chosen, sign_with_ok, load_ok,
}
use sigimora_api_backend.Server.Signing.Params.{pick}
use sigimora_api_backend.Server.Signing.{
  SignRequest, SignResponse, store_signature, sign_message, verify_signature, ledger_entry,
  signed_tx, sign_response,
}

module _ (c : Suite) (net : Bytes) where
  open c use {Scalar, G1, G2, field, g1, g2}

  pub found_any :
      (rs : List NetworkRow) (row : NetworkRow)
      → find (λ r. same_id r.id net) rs ≡ some row
      → any (λ r. same_id r.id net) rs ≡ true
  found_any [] row e = cc
  found_any (r ∷ rs) row e = elim (Bool-cases (same_id r.id net)) [
    | inl q ↦ rw (q, any) refl
    | inr q ↦
        rw (q, any)
          (found_any rs row
            (ap (λ b. if b then some r else find (λ r. same_id r.id net) rs) (sym q) ∙ e))
  ]

  module _ (texts : Texts) where
    pub store_signature_ok :
        (tx_id now : Bytes) (qs : List ℕ) (msg : Bytes) (sig : AtsSignature c) (db : Database)
        → has_network net db ≡ true
        → any (λ r. same_id r.tx_id tx_id) db.signed_txs ≡ false
        → (db' : Database) × (store_signature c texts tx_id now net qs msg sig db ≡ (db', ok tt))
          × (db'.networks ≡ db.networks)
          × (db'.nodes ≡ db.nodes)
          × (db'.signed_txs ≡ db.signed_txs ++ signed_tx c texts tx_id now net qs msg sig ∷ [])
    unfolding store_signature insert_ledger_entry insert_signed_tx signed_tx ledger_entry
    store_signature_ok tx_id now qs msg sig db h f = (
      record db {
        ledger =
            db.ledger
            ++ record (ledger_entry c texts tx_id now net qs msg sig) {
              block_index = suc db.last_block;
            }
              ∷ [];
        last_block = suc db.last_block;
        signed_txs = db.signed_txs ++ signed_tx c texts tx_id now net qs msg sig ∷ [];
      },
      rw (h) (rw (h, f) refl),
      refl,
      refl,
      refl,
    )

    -- A signature under the key that the network's row holds is valid.
    pub verify_ok :
        (k : Scalar) (msg hex : Bytes) (sig : G1) (row : NetworkRow) (db : Database)
        → find (λ r. same_id r.id net) db.networks ≡ some row
        → row.collective_pk ≡ some (c.g2_code.to_bytes (g2.mul g2.generator k))
        → texts.hex_decode hex ≡ some msg
        → sig ≡ g1.mul (c.hash_to_g1 msg ats_tag) k
        → (verify_signature c texts net
            (record { message = hex; signature_hex = texts.hex_encode (c.g1_code.to_bytes sig) })
            db).1
          ≡ ok (record { valid = true; network_id = net })
    unfolding verify_signature
    verify_ok k msg hex sig row db found key e value =
        rw
          (
            found_network_ok net db row found,
            key,
            decode-to_bytes c.g2_code internal (g2.mul g2.generator k),
            e,
            texts.hex_decode-hex_encode (c.g1_code.to_bytes sig),
            decode-to_bytes c.g1_code bad_request sig,
            (ct_verify_bls_signature_iff c sig (c.hash_to_g1 msg ats_tag) k).1 value,
          )
          refl

    -- In a network of at most 65535 nodes that hold the shares of its key, a request for a
    -- hexadecimal message and a quorum of at least `t + 1` of the nodes, whose ids are different
    -- scalars, is answered, when the id of the transaction is new, with a signature that
    -- `verify_signature` then calls valid for the message. The nodes go on to hold the shares.
    pub verify_signature-sign_message :
        (n t : ℕ) (p : List Scalar) (lt : ℕ → Scalar) (random : ℕ → Scalar × Bytes)
        (tx_id now msg : Bytes) (req : SignRequest) (db : Database)
        → IsKeyed c net n t p db
        → n ≤ 65535
        → texts.hex_decode req.message ≡ some msg
        → All (IsMember c net n) req.quorum
        → Distinct (points field req.quorum)
        → suc t ≤ length req.quorum
        → any (λ r. same_id r.tx_id tx_id) db.signed_txs ≡ false
        → (db' : Database) × (resp : SignResponse) × (sign_message c texts lt random tx_id now net
              req db
            ≡ (db', ok resp))
          × ((verify_signature c texts net
                (record { message = req.message; signature_hex = resp.combined_sig_hex })
                db').1
              ≡ ok (record { valid = true; network_id = net }))
          × IsKeyed c net n t p db'
    unfolding sign_message sign_response
    verify_signature-sign_message n t p lt random tx_id now msg req db h m e mem d big fresh =
        let (loaded, le, lt', signers, len) = load_ok c net n t p lt db h m in
        let chosen = pick_ok c net p n loaded.configs req.quorum signers len mem in
        let (sig, se, value) =
          sign_with_ok c net p random loaded.params (pick c loaded.configs req.quorum) req.quorum
            msg chosen d (omega (arith, h.short, big)) (omega (arith, lt', big))
            (omega (arith, big)) in
        let (db', we, nets, rows, _) =
          store_signature_ok tx_id now req.quorum msg sig db (found_any db.networks h.row h.found)
            fresh in
        let complete : same_id h.row.state dkg_complete ≡ true =
          ap (λ s. same_id s dkg_complete) h.complete in
        let enough : ltb (length req.quorum) (h.row.t + 1) ≡ false =
          ground (arith, h.threshold, big) in
        let found : ltb (length (pick c loaded.configs req.quorum)) (h.row.t + 1) ≡ false =
          ground (arith, h.threshold, big, length-chosen c net p req.quorum _ chosen) in
        (
          db',
          sign_response c texts tx_id req.quorum msg sig,
          rw
              (
                found_network_ok net db h.row h.found,
                complete,
                enough,
                e,
                all_nodes_ok net h.row.n db (h.holds.count ∙ sym h.size),
                le,
                found,
                se,
                we,
              )
              refl,
          verify_ok (horner field p field.zero) msg req.message sig.combined_sig h.row db'
              (ap (find (λ r. same_id r.id net)) nets ∙ h.found) h.key e value,
          IsKeyed-same c net n t p db db' nets rows h,
        )
