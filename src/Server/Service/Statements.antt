-- ===== src/Server/Service/Statements.antt =====
-- Statements of sigimora-server/src/db.rs that leave a network its key: those on other tables and on
-- the rows of other networks.
use sigimora_api_backend.Base.{
  arith, ℕ, suc, ◌≡◌, refl, sym, ap, subst, ◌∙◌, Bool, true, false, not, ◌&&◌, Option, some, List,
  [], ◌∷◌, map, find, any, length, find-append_old, filter-append_other, ◌==◌, ◌++◌, if◌then◌else◌,
  inl, inr, Bool-cases,
}
use sigimora_api_backend.Base.Preserving.{Preserves}
use sigimora_api_backend.Math.Suite.{Suite, Bytes}
use sigimora_api_backend.Shamir.Poly.{horner}
use sigimora_api_backend.Ledger.Maps.{same_id, same_id_eq}
use sigimora_api_backend.Server.Store as Store
use sigimora_api_backend.Server.Store.{
  Database, ApiKeyRow, NetworkRow, NodeRow, LedgerRow, SignedTxRow, Query, has_network, change,
  set_state, set_secret, rows_of, sort_rows,
}
use sigimora_api_backend.Server.Store.Nodes.{rows_of-map, set_secret-KeepsKey}
use sigimora_api_backend.Server.Store.Secrets.{HaveSecrets, Holds, set_epoch-Holds}
use sigimora_api_backend.Server.Keyed.{IsKeyed, IsKeyed-moved, IsKeyed-same}

module _ (c : Suite) (net : Bytes) (n t : ℕ) (s : c.Scalar) where
  open c use {Scalar, field}

  -- The nodes hold shares of the secret `s`, and the network's key is its.
  pub record HasKey (db : Database) : Type 0 where
    pub poly : List Scalar
    pub secret : horner field poly field.zero ≡ s
    pub keyed : IsKeyed c net n t poly db

  HasKey-same :
      (db db' : Database)
      → db'.networks ≡ db.networks
      → db'.nodes ≡ db.nodes
      → HasKey db
      → HasKey db'
  HasKey-same db db' e f h = record {
    poly = h.poly;
    secret = h.secret;
    keyed = IsKeyed-same c net n t h.poly db db' e f h.keyed;
  }

  HasKey-moved :
      (db db' : Database)
      → ((row : NetworkRow)
          → find (λ r. same_id r.id net) db.networks ≡ some row
          → find (λ r. same_id r.id net) db'.networks ≡ some row)
      → ((f : ℕ → Bytes) → Holds c net f n db.nodes → Holds c net f n db'.nodes)
      → HasKey db
      → HasKey db'
  HasKey-moved db db' e f h = record {
    poly = h.poly;
    secret = h.secret;
    keyed = IsKeyed-moved c net n t h.poly db db' e f h.keyed;
  }

  changed : (b : Bool) (db db' : Database) → HasKey db' → HasKey db → HasKey (change b db' db).0
  changed true db db' h' h = h'
  changed false db db' h' h = h

  -- A statement that only reads.
  pub reads : {A : Type 0} (m : Query A) → ((db : Database) → (m db).0 ≡ db) → Preserves HasKey m
  reads m e = record { after = λ db h. subst HasKey (sym (e db)) h }

  pub insert_api_key-HasKey : (key : ApiKeyRow) → Preserves HasKey (Store.insert_api_key key)
  unfolding Store.insert_api_key
  insert_api_key-HasKey key = record {
    after = λ db h. HasKey-same db _ (ground arith) (ground arith) h;
  }

  pub delete_api_key-HasKey : (id : Bytes) → Preserves HasKey (Store.delete_api_key id)
  unfolding Store.delete_api_key
  delete_api_key-HasKey id = record { after = λ db h. HasKey-same db _ refl refl h }

  pub touch_api_key-HasKey : (now id : Bytes) → Preserves HasKey (Store.touch_api_key now id)
  unfolding Store.touch_api_key
  touch_api_key-HasKey now id = record { after = λ db h. HasKey-same db _ refl refl h }

  pub insert_ledger_entry-HasKey : (e : LedgerRow) → Preserves HasKey (Store.insert_ledger_entry e)
  unfolding Store.insert_ledger_entry
  insert_ledger_entry-HasKey e = record {
    after = λ db h. HasKey-same db _ (ground arith) (ground arith) h;
  }

  pub insert_signed_tx-HasKey : (tx : SignedTxRow) → Preserves HasKey (Store.insert_signed_tx tx)
  unfolding Store.insert_signed_tx
  insert_signed_tx-HasKey tx = record {
    after = λ db h. HasKey-same db _ (ground arith) (ground arith) h;
  }

  pub insert_network-HasKey : (row : NetworkRow) → Preserves HasKey (Store.insert_network row)
  unfolding Store.insert_network
  insert_network-HasKey row = record {
    after = λ db h.
        changed (not (has_network row.id db)) db (record db { networks = db.networks ++ row ∷ [] })
          (HasKey-moved db _
            (λ r e.
              find-append_old (λ (x : NetworkRow). same_id x.id net) db.networks (row ∷ []) r e)
            (λ f k. k) h)
          h;
  }

  -- A node of another network.
  pub insert_node-HasKey :
      (node : NodeRow)
      → same_id node.network_id net ≡ false
      → Preserves HasKey (Store.insert_node node)
  unfolding Store.insert_node rows_of
  insert_node-HasKey node other = record {
    after = λ db h.
        let stored : NodeRow = record node { id = suc db.last_node } in
        changed
          (has_network node.network_id db
            && not (
                any (λ r. (r.node_id == node.node_id) && same_id r.network_id node.network_id)
                  db.nodes))
          db (record db { nodes = db.nodes ++ stored ∷ []; last_node = suc db.last_node })
          (HasKey-moved db _ (λ r e. e) (λ f k. with_node db.nodes stored f other k) h) h;
  }
    where
      with_node :
          (nodes : List NodeRow) (x : NodeRow) (f : ℕ → Bytes)
          → same_id x.network_id net ≡ false
          → Holds c net f n nodes
          → Holds c net f n (nodes ++ x ∷ [])
      with_node nodes x f o k =
          let rows : rows_of net (nodes ++ x ∷ []) ≡ rows_of net nodes =
            ap sort_rows (filter-append_other (λ r. same_id r.network_id net) nodes x o) in
          record {
            count = ap length rows ∙ k.count;
            secrets = subst (HaveSecrets c net f 0) (sym rows) k.secrets;
          }

  rows_unchanged :
      (id : Bytes) (j : ℕ) (secret : Bytes) (f : ℕ → Bytes) (i : ℕ) (rows : List NodeRow)
      → same_id id net ≡ false
      → HaveSecrets c net f i rows
      → map (set_secret id j secret) rows ≡ rows
  rows_unchanged id j secret f i [] other h = refl
  rows_unchanged id j secret f i (r ∷ rows) other ((_, mine, _, _), h) =
      elim (Bool-cases (same_id r.network_id id)) [
        | inl q ↦
            let same : r.network_id ≡ id = same_id_eq r.network_id id q in
            let no : true ≡ false = sym mine ∙ ap (λ k. same_id k net) same ∙ other in cc
        | inr q ↦ rw (q) (ap (◌∷◌ r) (rows_unchanged id j secret f (suc i) rows other h))
      ]

  pub update_node_secret-HasKey :
      (id : Bytes) (j : ℕ) (secret : Bytes)
      → same_id id net ≡ false
      → Preserves HasKey (Store.update_node_secret id j secret)
  unfolding Store.update_node_secret
  update_node_secret-HasKey id j secret other = record {
    after = λ db h. HasKey-moved db _ (λ r e. e) (λ f k. updated db.nodes f k) h;
  }
    where
      updated :
          (nodes : List NodeRow) (f : ℕ → Bytes)
          → Holds c net f n nodes
          → Holds c net f n (map (set_secret id j secret) nodes)
      updated nodes f k =
          let rows : rows_of net (map (set_secret id j secret) nodes) ≡ rows_of net nodes =
            rows_of-map (set_secret id j secret) net nodes (set_secret-KeepsKey id j secret)
            ∙ rows_unchanged id j secret f 0 (rows_of net nodes) other k.secrets in
          record {
            count = ap length rows ∙ k.count;
            secrets = subst (HaveSecrets c net f 0) (sym rows) k.secrets;
          }

  pub update_node_epoch-HasKey :
      (id epoch : ℕ) → Preserves HasKey (Store.update_node_epoch id epoch)
  unfolding Store.update_node_epoch
  update_node_epoch-HasKey id epoch = record {
    after = λ db h.
        HasKey-moved db _ (λ r e. e) (λ f k. set_epoch-Holds c net f n id epoch db.nodes k) h;
  }

  find-set_state_other :
      (id state : Bytes) (pk : Option Bytes) (rs : List NetworkRow)
      → same_id id net ≡ false
      → find (λ r. same_id r.id net) (map (set_state id state pk) rs)
        ≡ find (λ r. same_id r.id net) rs
  find-set_state_other id state pk [] other = refl
  find-set_state_other id state pk (r ∷ rs) other = elim (Bool-cases (same_id r.id id)) [
    | inl q ↦
        let same : r.id ≡ id = same_id_eq r.id id q in
        let not_mine : same_id r.id net ≡ false = ap (λ k. same_id k net) same ∙ other in
        rw (q, find) (rw (not_mine, find) (find-set_state_other id state pk rs other))
    | inr q ↦
        rw (q, find)
          (ap (λ o. if same_id r.id net then some r else o)
            (find-set_state_other id state pk rs other))
  ]

  pub update_network_state-HasKey :
      (id state : Bytes) (pk : Option Bytes)
      → same_id id net ≡ false
      → Preserves HasKey (Store.update_network_state id state pk)
  unfolding Store.update_network_state
  update_network_state-HasKey id state pk other = record {
    after = λ db h.
        HasKey-moved db _ (λ r e. find-set_state_other id state pk db.networks other ∙ e) (λ f k. k)
          h;
  }
