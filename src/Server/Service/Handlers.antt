-- ===== src/Server/Service/Handlers.antt =====
-- Handlers of sigimora-server that leave a network its key, whatever they answer.
use sigimora_api_backend.Base.{
  ℕ, suc, true, some, find, ap, ◌∙◌, Bool-cases, inl, inr, ◌+◌, u16, ok_or, ◌≡◌, refl, false,
  Option, List, [], ◌∷◌,
}
use sigimora_api_backend.Base.Preserving.{
  Preserves, Preserves-lift, Preserves-pure, Preserves-bind, Preserves-then, Preserves-stop,
}
use sigimora_api_backend.Base.Stateful.{◌>>◌}
use sigimora_api_backend.Math.Suite.{Suite, Bytes}
use sigimora_api_backend.Ats.{AtsSignature, NetworkPublicParams, SignerConfig}
use sigimora_api_backend.Ledger.Maps.{same_id, same_id_eq}
use sigimora_api_backend.Server.Store as Store
use sigimora_api_backend.Server.Store.{Database, NodeRow, NetworkRow, has_network}
use sigimora_api_backend.Server.Texts.{Texts}
use sigimora_api_backend.Server.Access as Access
use sigimora_api_backend.Server.Access.{AuthenticatedUser, CreateApiKeyRequest, from_request_parts}
use sigimora_api_backend.Server.Networks as Networks
use sigimora_api_backend.Server.Keygen.{
  found_network, all_nodes, store_secrets, run_dkg, get_dkg_status,
}
use sigimora_api_backend.Server.Signing.{
  SignRequest, VerifyRequest, store_signature, sign_message, verify_signature,
}
use sigimora_api_backend.Server.Signing.Params.{sign_with}
use sigimora_api_backend.Server.{bad_request, database}
use sigimora_api_backend.Server.Batch.{BatchSignRequest, batch_entry, sign_batch, batch_sign}
use sigimora_api_backend.Server.Refreshing.{store_refreshed, refresh_network}
use sigimora_api_backend.Server.Tracing.{TraceRequest, trace_signers}
use sigimora_api_backend.Server.Signing.Laws.{found_any}
use sigimora_api_backend.Server.Service.Statements.{
  insert_network-HasKey, insert_node-HasKey, HasKey, reads, insert_api_key-HasKey,
  delete_api_key-HasKey, touch_api_key-HasKey, insert_ledger_entry-HasKey, insert_signed_tx-HasKey,
  update_node_secret-HasKey, update_node_epoch-HasKey, update_network_state-HasKey,
}

module _ (c : Suite) (texts : Texts) (net : Bytes) (n t : ℕ) (s : c.Scalar) where
  open c use {Scalar}

  abbrev Keeps : {A : Type 0} → Store.Query A → Type 0
  Keeps m = Preserves (HasKey c net n t s) m

  found_network-HasKey : (id : Bytes) → Keeps (found_network id)
  unfolding found_network Store.get_network
  found_network-HasKey id = reads c net n t s (found_network id) (λ db. refl)

  get_nodes-HasKey : (id : Bytes) → Keeps (Store.get_nodes_by_network id)
  unfolding Store.get_nodes_by_network
  get_nodes-HasKey id = reads c net n t s (Store.get_nodes_by_network id) (λ db. refl)

  all_nodes-HasKey : (id : Bytes) (k : ℕ) → Keeps (all_nodes id k)
  unfolding all_nodes
  all_nodes-HasKey id k =
      search (Preserves-bind, Preserves-then, Preserves-lift, Preserves-pure, get_nodes-HasKey)

  store_signature-HasKey :
      (tx_id now id : Bytes) (qs : List ℕ) (msg : Bytes) (sig : AtsSignature c)
      → Keeps (store_signature c texts tx_id now id qs msg sig)
  unfolding store_signature
  store_signature-HasKey tx_id now id qs msg sig =
      search (Preserves-then, insert_ledger_entry-HasKey, insert_signed_tx-HasKey)

  ruleset handler_rules = (
    Preserves-bind, Preserves-then, Preserves-lift, Preserves-pure, found_network-HasKey,
    all_nodes-HasKey, store_signature-HasKey,
  )

  pub sign_message-HasKey :
      (lt : ℕ → Scalar) (random : ℕ → Scalar × Bytes) (tx_id now id : Bytes) (req : SignRequest)
      → Keeps (sign_message c texts lt random tx_id now id req)
  unfolding sign_message
  sign_message-HasKey lt random tx_id now id req = search handler_rules depth 40

  sign_batch-HasKey :
      (random : ℕ → ℕ → Scalar × Bytes) (tx_id : ℕ → Bytes) (now id : Bytes)
      (params : NetworkPublicParams c) (signers : List (SignerConfig c)) (quorum : List ℕ) (k : ℕ)
      (messages : List Bytes)
      → Keeps (sign_batch c texts random tx_id now id params signers quorum k messages)
  unfolding sign_batch
  sign_batch-HasKey random tx_id now id params signers quorum k [] = search handler_rules
  sign_batch-HasKey random tx_id now id params signers quorum k (m ∷ ms) =
      let rest = sign_batch-HasKey random tx_id now id params signers quorum (suc k) ms in
      Preserves-bind _ _ (Preserves-lift (ok_or (texts.hex_decode m) bad_request)) λ msg.
        Preserves-bind _ _ (Preserves-lift (sign_with c (random k) params signers quorum msg))
          λ sig. Preserves-then _ _ (store_signature-HasKey (tx_id k) now id quorum msg sig) (
            Preserves-bind _ _ rest
              λ es. Preserves-pure (batch_entry c texts m (tx_id k) msg sig ∷ es))

  pub batch_sign-HasKey :
      (lt : ℕ → Scalar) (random : ℕ → ℕ → Scalar × Bytes) (tx_id : ℕ → Bytes) (now id : Bytes)
      (req : BatchSignRequest)
      → Keeps (batch_sign c texts lt random tx_id now id req)
  unfolding batch_sign
  batch_sign-HasKey lt random tx_id now id req = search (handler_rules, sign_batch-HasKey) depth 40

  pub verify_signature-HasKey :
      (id : Bytes) (req : VerifyRequest) → Keeps (verify_signature c texts id req)
  unfolding verify_signature
  verify_signature-HasKey id req = search handler_rules depth 40

  get_signed_tx-HasKey : (id : Bytes) → Keeps (Store.get_signed_tx id)
  unfolding Store.get_signed_tx
  get_signed_tx-HasKey id = reads c net n t s (Store.get_signed_tx id) (λ db. refl)

  pub trace_signers-HasKey :
      (id : Bytes) (req : TraceRequest) → Keeps (trace_signers c texts id req)
  unfolding trace_signers
  trace_signers-HasKey id req =
      search (handler_rules, get_signed_tx-HasKey, get_nodes-HasKey) depth 40

  pub get_dkg_status-HasKey : (id : Bytes) → Keeps (get_dkg_status texts id)
  unfolding get_dkg_status
  get_dkg_status-HasKey id = search handler_rules depth 20

  count_nodes-HasKey : (id : Bytes) → Keeps (Store.count_nodes_by_network id)
  unfolding Store.count_nodes_by_network
  count_nodes-HasKey id = reads c net n t s (Store.count_nodes_by_network id) (λ db. refl)

  pub get_network-HasKey :
      (parse_time : Bytes → Option ℕ) (now : ℕ) (id : Bytes)
      → Keeps (Networks.get_network texts parse_time now id)
  unfolding Networks.get_network
  get_network-HasKey parse_time now id = search (handler_rules, count_nodes-HasKey) depth 20

  pub create_api_key-HasKey :
      (entropy id now : Bytes) (caller : AuthenticatedUser) (req : CreateApiKeyRequest)
      → Keeps (Access.create_api_key c texts entropy id now caller req)
  unfolding Access.create_api_key
  create_api_key-HasKey entropy id now caller req =
      search (handler_rules, insert_api_key-HasKey) depth 20

  pub delete_api_key_lem :
      (caller : AuthenticatedUser) (id : Bytes) → Keeps (Access.delete_api_key caller id)
  unfolding Access.delete_api_key
  delete_api_key_lem caller id = search (handler_rules, delete_api_key-HasKey) depth 20

  get_api_key-HasKey : (hash : Bytes) → Keeps (Store.get_api_key_by_hash hash)
  unfolding Store.get_api_key_by_hash
  get_api_key-HasKey hash = reads c net n t s (Store.get_api_key_by_hash hash) (λ db. refl)

  pub from_request_parts-HasKey :
      (now : Bytes) (header : Option Bytes) → Keeps (from_request_parts c texts now header)
  unfolding from_request_parts
  from_request_parts-HasKey now header =
      search (handler_rules, get_api_key-HasKey, touch_api_key-HasKey) depth 40

  store_secrets-HasKey :
      (id : Bytes) (i : ℕ) (secrets : List Bytes)
      → same_id id net ≡ false
      → Keeps (store_secrets id i secrets)
  unfolding store_secrets
  store_secrets-HasKey id i [] other = search handler_rules
  store_secrets-HasKey id i (x ∷ xs) other =
      let rest = store_secrets-HasKey id (suc i) xs other in
      Preserves-then _ _ (update_node_secret-HasKey c net n t s id (u16 (i + 1)) x other) rest

  pub run_dkg-HasKey :
      (rngs os_rngs : ℕ → ℕ → Scalar) (id : Bytes)
      → same_id id net ≡ false
      → Keeps (run_dkg c texts rngs os_rngs id)
  unfolding run_dkg
  run_dkg-HasKey rngs os_rngs id other =
      search (handler_rules, store_secrets-HasKey, update_network_state-HasKey) depth 40

  store_refreshed-HasKey :
      (id : Bytes) (epoch : ℕ) (rows : List NodeRow) (keys : List Scalar)
      → same_id id net ≡ false
      → Keeps (store_refreshed c id epoch rows keys)
  unfolding store_refreshed
  store_refreshed-HasKey id epoch [] keys other = search handler_rules
  store_refreshed-HasKey id epoch (r ∷ rows) [] other = search handler_rules
  store_refreshed-HasKey id epoch (r ∷ rows) (k ∷ keys) other =
      let rest = store_refreshed-HasKey id epoch rows keys other in
      Preserves-then _ _
        (update_node_secret-HasKey c net n t s id (u16 r.node_id) (c.scalar_code.to_bytes k) other)
        (Preserves-then _ _ (update_node_epoch-HasKey c net n t s r.id epoch) rest)

  pub refresh_network-HasKey :
      (rngs : ℕ → ℕ → Scalar) (id : Bytes)
      → same_id id net ≡ false
      → Keeps (refresh_network c rngs id)
  unfolding refresh_network
  refresh_network-HasKey rngs id other = search (handler_rules, store_refreshed-HasKey) depth 40

  -- A network that exists is not created again.
  module _ (fresh : Networks.Fresh Scalar) where
    insert_nodes-HasKey :
        (ids : List ℕ)
        → same_id fresh.network_id net ≡ false
        → Keeps (Networks.insert_nodes c fresh ids)
    unfolding Networks.insert_nodes Networks.node_row
    insert_nodes-HasKey [] other = search handler_rules
    insert_nodes-HasKey (i ∷ is) other =
        let rest = insert_nodes-HasKey is other in
        Preserves-then _ _ (insert_node-HasKey c net n t s (Networks.node_row c fresh i) other) rest

    refused :
        (db : Database) (row : NetworkRow)
        → same_id fresh.network_id net ≡ true
        → find (λ r. same_id r.id net) db.networks ≡ some row
        → has_network fresh.network_id db ≡ true
    refused db row q f =
        ap (λ i. has_network i db) (same_id_eq fresh.network_id net q)
        ∙ found_any c net db.networks row f

    insert_refused :
        {A : Type 0} (k t' : ℕ) (rest : Store.Query A)
        → same_id fresh.network_id net ≡ true
        → Keeps (Store.insert_network (Networks.network_row c fresh k t') >> rest)
    unfolding Store.insert_network Networks.network_row
    insert_refused k t' rest q =
        Preserves-stop (Store.insert_network (Networks.network_row c fresh k t')) rest database
          λ db h. let taken = refused db h.keyed.row q h.keyed.found in rw (taken) refl

    pub create_network-HasKey :
        (req : Networks.CreateNetworkRequest) → Keeps (Networks.create_network c texts fresh req)
    unfolding Networks.create_network
    create_network-HasKey req = elim (Bool-cases (same_id fresh.network_id net)) [
      | inl q ↦ search (Preserves-then, Preserves-lift, insert_refused, q) depth 20
      | inr q ↦
          search (handler_rules, insert_network-HasKey, insert_nodes-HasKey, insert_api_key-HasKey)
            depth 40
    ]
