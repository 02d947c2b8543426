-- ===== src/Server/Batch/Laws.antt =====
-- The signatures that sigimora-server/src/routes/batch.rs returns are valid.
use sigimora_api_backend.Base.{
  ℕ, suc, ◌+◌, ◌≤◌, ◌<◌, ◌≡◌, refl, sym, ap, subst, ◌∙◌, true, false, some, List, [], ◌∷◌, ◌++◌,
  map, find, any, length, All, ltb, ok, ◌==◌, inl, inr, Bool-cases, arith,
}
use sigimora_api_backend.Math.Suite.{Suite, Bytes}
use sigimora_api_backend.Shamir.Poly.{horner}
use sigimora_api_backend.Shamir.Interpolation.{Distinct}
use sigimora_api_backend.Shamir.Lagrange.{points}
use sigimora_api_backend.Ats.{NetworkPublicParams, SignerConfig}
use sigimora_api_backend.Ledger.Maps.{same_id, same_id_refl}
use sigimora_api_backend.Server.{dkg_complete}
use sigimora_api_backend.Server.Store.{Database, NetworkRow, SignedTxRow}
use sigimora_api_backend.Server.Texts.{Texts}
use sigimora_api_backend.Server.Keyed.{IsKeyed, IsKeyed-same}
use sigimora_api_backend.Server.Keygen.Laws.{found_network_ok, all_nodes_ok}
use sigimora_api_backend.Server.Signing.{verify_signature, signed_tx}
use sigimora_api_backend.Server.Signing.Params.{pick}
use sigimora_api_backend.Server.Signing.Quorum.{
  IsMember, AreChosen, pick_ok, length-chosen, sign_with_ok, load_ok,
}
use sigimora_api_backend.Server.Signing.Laws.{found_any, store_signature_ok, verify_ok}
use sigimora_api_backend.Server.Batch.{
  BatchSignRequest, BatchSignEntry, BatchSignResponse, batch_entry, sign_batch, batch_sign,
}

module _ (c : Suite) (net : Bytes) (texts : Texts) where
  open c use {Scalar, G1, G2, field, g1, g2}

  -- No transaction has one of these ids, from the `k`-th on.
  abbrev AreFresh : (ℕ → Bytes) → ℕ → List SignedTxRow → Type 0
  AreFresh tx_id k txs = (j : ℕ) → k ≤ j → any (λ r. same_id r.tx_id (tx_id j)) txs ≡ false

  -- `verify_signature` calls the entry's signature valid for its message.
  abbrev pub IsValid : Database → BatchSignEntry → Type 0
  IsValid db e =
      (verify_signature c texts net
        (record { message = e.message_hex; signature_hex = e.combined_sig_hex }) db).1
      ≡ ok (record { valid = true; network_id = net })

  -- The messages are hexadecimal texts.
  abbrev CanDecode : Bytes → Type 0
  CanDecode m = (msg : Bytes) × (texts.hex_decode m ≡ some msg)

  any-append_none :
      (tx_id : ℕ → Bytes) (j : ℕ) (txs : List SignedTxRow) (tx : SignedTxRow)
      → any (λ r. same_id r.tx_id (tx_id j)) txs ≡ false
      → same_id tx.tx_id (tx_id j) ≡ false
      → any (λ r. same_id r.tx_id (tx_id j)) (txs ++ tx ∷ []) ≡ false
  any-append_none tx_id j [] tx h k = rw (k) refl
  any-append_none tx_id j (x ∷ txs) tx h k = elim (Bool-cases (same_id x.tx_id (tx_id j))) [
    | inl q ↦ let no : true ≡ false = rw (q) at h in cc
    | inr q ↦ rw (q) (any-append_none tx_id j txs tx (rw (q) at h) k)
  ]

  module _ (n t : ℕ) (p : List Scalar) (random : ℕ → ℕ → Scalar × Bytes) (tx_id : ℕ → Bytes)
      (now : Bytes) (params : NetworkPublicParams c) (signers : List (SignerConfig c))
      (quorum : List ℕ) (chosen : AreChosen c net p quorum signers)
      (apart : Distinct (points field quorum)) (short : length p ≤ length quorum)
      (enough : params.threshold ≤ length quorum) (some_one : 0 < length quorum)
      (ids_differ : (i j : ℕ) → i < j → same_id (tx_id i) (tx_id j) ≡ false) (row : NetworkRow)
      (key : row.collective_pk
        ≡ some (c.g2_code.to_bytes (g2.mul g2.generator (horner field p field.zero)))) where
    sign_batch_ok :
        (k : ℕ) (messages : List Bytes) (db : Database)
        → All CanDecode messages
        → find (λ r. same_id r.id net) db.networks ≡ some row
        → AreFresh tx_id k db.signed_txs
        → (db' : Database) × (es : List BatchSignEntry) × (sign_batch c texts random tx_id now net
              params signers quorum k messages db
            ≡ (db', ok es))
          × ((later : Database) → later.networks ≡ db.networks → All (IsValid later) es)
          × (map (λ (e : BatchSignEntry). e.message_hex) es ≡ messages)
          × (db'.networks ≡ db.networks)
          × (db'.nodes ≡ db.nodes)
    unfolding sign_batch batch_entry signed_tx
    sign_batch_ok k [] db d f fresh = (db, [], refl, λ later e. tt, refl, refl, refl)
    sign_batch_ok k (m ∷ ms) db ((msg, d), ds) f fresh =
        let (sig, se, value) =
          sign_with_ok c net p (random k) params signers quorum msg chosen apart short enough
            some_one in
        let (db1, we, nets, rows, stored) =
          store_signature_ok c net texts (tx_id k) now quorum msg sig db
            (found_any c net db.networks row f) (fresh k (omega arith)) in
        let fresh' : AreFresh tx_id (suc k) db1.signed_txs = λ j l.
          subst (λ txs. any (λ r. same_id r.tx_id (tx_id j)) txs ≡ false) (sym stored)
            (any-append_none tx_id j db.signed_txs
              (signed_tx c texts (tx_id k) now net quorum msg sig) (fresh j (omega (arith, l)))
              (ids_differ k j (omega (arith, l)))) in
        let (db', es, e, valid, ms', nets', rows') =
          sign_batch_ok (suc k) ms db1 ds (ap (find (λ r. same_id r.id net)) nets ∙ f) fresh' in
        (
          db',
          batch_entry c texts m (tx_id k) msg sig ∷ es,
          rw (d, se, we, e) refl,
          λ later q. (
            verify_ok c net texts (horner field p field.zero) msg m sig.combined_sig row later
                (ap (find (λ r. same_id r.id net)) q ∙ f) key d value,
            valid later (q ∙ sym nets),
          ),
          ap (◌∷◌ m) ms',
          nets' ∙ nets,
          rows' ∙ rows,
        )

  -- In a network of at most 65535 nodes that hold the shares of its key, a batch of 1 to 100
  -- hexadecimal messages for a quorum of at least `t + 1` of the nodes, whose ids are different
  -- scalars, succeeds, when the ids of the transactions are new and different. The answer has an
  -- entry for each message in their order, with a signature that `verify_signature` calls valid
  -- for it, and the nodes go on to hold the shares.
  pub batch_sign-IsValid :
      (n t : ℕ) (p : List Scalar) (lt : ℕ → Scalar) (random : ℕ → ℕ → Scalar × Bytes)
      (tx_id : ℕ → Bytes) (now : Bytes) (req : BatchSignRequest) (db : Database)
      → IsKeyed c net n t p db
      → n ≤ 65535
      → 0 < length req.messages
      → length req.messages ≤ 100
      → All CanDecode req.messages
      → All (IsMember c net n) req.quorum
      → Distinct (points field req.quorum)
      → suc t ≤ length req.quorum
      → AreFresh tx_id 0 db.signed_txs
      → ((i j : ℕ) → i < j → same_id (tx_id i) (tx_id j) ≡ false)
      → (db' : Database) × (resp : BatchSignResponse) × (batch_sign c texts lt random tx_id now net
            req db
          ≡ (db', ok resp))
        × All (IsValid db') resp.signatures
        × (map (λ (e : BatchSignEntry). e.message_hex) resp.signatures ≡ req.messages)
        × IsKeyed c net n t p db'
  unfolding batch_sign
  batch_sign-IsValid n t p lt random tx_id now req db h m pos few dec mem d big fresh differ =
      let (loaded, le, lt', signers, len) = load_ok c net n t p lt db h m in
      let chosen = pick_ok c net p n loaded.configs req.quorum signers len mem in
      let (db', es, e, valid, texts_of, nets, rows) =
        sign_batch_ok n t p random tx_id now loaded.params (pick c loaded.configs req.quorum)
          req.quorum chosen d (omega (arith, h.short, big)) (omega (arith, lt', big))
          (omega (arith, big)) differ h.row h.key 0 req.messages db dec h.found fresh in
      let some_message : (length req.messages == 0) ≡ false = ground (arith, pos) in
      let not_many : ltb 100 (length req.messages) ≡ false = ground (arith, few) in
      let complete : same_id h.row.state dkg_complete ≡ true =
        ap (λ s. same_id s dkg_complete) h.complete ∙ same_id_refl dkg_complete in
      let enough : ltb (length req.quorum) (h.row.t + 1) ≡ false =
        ground (arith, h.threshold, big) in
      let found : ltb (length (pick c loaded.configs req.quorum)) (h.row.t + 1) ≡ false =
        ground (arith, h.threshold, big, length-chosen c net p req.quorum _ chosen) in
      (
        db',
        record { network_id = net; quorum = req.quorum; count = length es; signatures = es },
        rw
            (
              some_message,
              not_many,
              found_network_ok net db h.row h.found,
              complete,
              enough,
              all_nodes_ok net h.row.n db (h.holds.count ∙ sym h.size),
              le,
              found,
              e,
            )
            refl,
        valid db' nets,
        texts_of,
        IsKeyed-same c net n t p db db' nets rows h,
      )
