-- ===== src/Server/Keygen/Laws.antt =====
-- The key generation of sigimora-server/src/routes/dkg.rs leaves the shares of one key.
use sigimora_api_backend.Base.{
  ℕ, suc, ◌+◌, ◌≤◌, ◌<◌, ◌≡◌, refl, sym, ap, ap₂, ◌∙◌, true, some, List, [], ◌∷◌, map, find, length,
  get_elem?, u16, ok, ok_or, ◌==◌, arith,
}
use sigimora_api_backend.Math.Suite.{Suite, Bytes}
use sigimora_api_backend.Shamir.Poly.{horner}
use sigimora_api_backend.Pedersen.{setup_deterministic}
use sigimora_api_backend.Dkg.{DkgOutput}
use sigimora_api_backend.Dkg.Honest.Agreement.{joint}
use sigimora_api_backend.Dkg.Honest.Signing.{joint_short}
use sigimora_api_backend.Ledger.Maps.{same_id}
use sigimora_api_backend.Server.{not_found, dkg_complete}
use sigimora_api_backend.Server.Store.{
  Database, NetworkRow, NodeRow, get_network, get_nodes_by_network, rows_of, update_node_secret,
  set_state, set_secret,
}
use sigimora_api_backend.Server.Store.Secrets.{Holds, Holds-same, set_secret-Holds}
use sigimora_api_backend.Server.Texts.{Texts}
use sigimora_api_backend.Server.Keyed.{IsNetwork, IsKeyed, shares, IsNetwork-IsKeyed}
use sigimora_api_backend.Server.Exchange.{run_pedersen}
use sigimora_api_backend.Server.Exchange.Outputs.{AreOutputs, nodes, run_pedersen_lem}
use sigimora_api_backend.Server.Keygen.{
  found_network, all_nodes, store_secrets, secret_bytes, run_dkg, DkgStatusResponse,
}

pub found_network_ok :
    (net : Bytes) (db : Database) (row : NetworkRow)
    → find (λ r. same_id r.id net) db.networks ≡ some row
    → found_network net db ≡ (db, ok row)
unfolding found_network get_network
found_network_ok net db row e = ap (λ o. (db, ok_or o not_found)) e

pub all_nodes_ok :
    (net : Bytes) (n : ℕ) (db : Database)
    → length (rows_of net db.nodes) ≡ n
    → all_nodes net n db ≡ (db, ok (rows_of net db.nodes))
unfolding all_nodes get_nodes_by_network
all_nodes_ok net n db e =
    let all : (length (rows_of net db.nodes) == n) ≡ true = ground (arith, e) in rw (all) refl

module _ (c : Suite) (net : Bytes) where
  open c use {Scalar, G2, field, g2}

  -- The bytes are the values of a function from `i` on.
  abbrev AreValues : (ℕ → Bytes) → ℕ → List Bytes → Type 0
  AreValues g i [] = Unit
  AreValues g i (s ∷ ss) = (s ≡ g i) × AreValues g (suc i) ss

  store_secrets_lem :
      (f g : ℕ → Bytes) (n i : ℕ) (ss : List Bytes) (db : Database)
      → AreValues g i ss
      → i + length ss ≡ n
      → n ≤ 65535
      → ((k : ℕ) → k < i → f k ≡ g k)
      → Holds c net f n db.nodes
      → (rows : List NodeRow) × (store_secrets net i ss db ≡ (record db { nodes = rows }, ok tt))
        × Holds c net g n rows
  unfolding store_secrets update_node_secret
  store_secrets_lem f g n i [] db a e m same h =
      (db.nodes, refl, Holds-same c net f g n db.nodes (λ k l. same k (omega (arith, l, e))) h)
  store_secrets_lem f g n i (s ∷ ss) db (a, as') e m same h =
      let (f', same', h') = set_secret-Holds c net f g n i db.nodes same h in
      let id : u16 (i + 1) ≡ suc i = omega (arith, e, m) in
      let stored : Database = record db { nodes = map (set_secret net (suc i) (g i)) db.nodes } in
      let (rows, q, r) =
        store_secrets_lem f' g n (suc i) ss stored as' (omega (arith, e)) m same' h' in
      (
        rows,
        ap₂
              (λ k b.
                store_secrets net (suc i) ss
                  (record db { nodes = map (set_secret net k b) db.nodes }))
              id a
            ∙ q,
        r,
      )

  secret_bytes-AreValues :
      (p : List Scalar) (i : ℕ) (outs : List (DkgOutput c))
      → AreOutputs c p i outs
      → AreValues (shares c net p) i (secret_bytes c outs)
  unfolding secret_bytes
  secret_bytes-AreValues p i [] a = tt
  secret_bytes-AreValues p i (o ∷ os) (e, k, a) =
      (ap c.scalar_code.to_bytes e, secret_bytes-AreValues p (suc i) os a)

  length-secret_bytes : (outs : List (DkgOutput c)) → length (secret_bytes c outs) ≡ length outs
  unfolding secret_bytes
  length-secret_bytes [] = refl
  length-secret_bytes (o ∷ os) = ap suc (length-secret_bytes os)

  first_output :
      (p : List Scalar) (outs : List (DkgOutput c))
      → 0 < length outs
      → AreOutputs c p 0 outs
      → (o : DkgOutput c) × (get_elem? outs 0 ≡ some o)
        × (o.collective_pk ≡ g2.mul g2.generator (horner field p field.zero))
  first_output p [] h a = absurd (omega (arith, h))
  first_output p (o ∷ os) h (e, k, a) = (o, refl, k)

  -- The polynomial that the nodes share after a key generation.
  unfoldable pub key_of_run : ℕ → ℕ → (ℕ → ℕ → Scalar) → (ℕ → ℕ → Scalar) → List Scalar
  key_of_run n t rngs os_rngs = joint c n t (setup_deterministic c) (nodes c rngs os_rngs 0 n)

  -- `run_dkg` on a network of 1 to 65535 nodes with a threshold of at most as many succeeds. Then each
  -- node holds its share of one polynomial of at most `t + 1` coefficients, and the network's
  -- collective key is that of its constant term.
  pub run_dkg-IsKeyed :
      (texts : Texts) (n t : ℕ) (rngs os_rngs : ℕ → ℕ → Scalar) (db : Database)
      → IsNetwork c net n t db
      → t ≤ n
      → 0 < n
      → n ≤ 65535
      → (db' : Database) × (resp : DkgStatusResponse) × (run_dkg c texts rngs os_rngs net db
          ≡ (db', ok resp))
        × IsKeyed c net n t (key_of_run n t rngs os_rngs) db'
  unfolding run_dkg key_of_run
  run_dkg-IsKeyed texts n t rngs os_rngs db h tn pos m =
      let (outs, run, len, a) = run_pedersen_lem c n t (setup_deterministic c) rngs os_rngs tn m in
      let run' : run_pedersen c (setup_deterministic c) h.row.n h.row.t rngs os_rngs ≡ ok outs =
        ap₂ (λ i j. run_pedersen c (setup_deterministic c) i j rngs os_rngs) h.size h.threshold
        ∙ run in
      let (o, head, key) = first_output _ outs (omega (arith, len, pos)) a in
      let (rows, stored, holds) =
        store_secrets_lem h.secret_of
          (shares c net (joint c n t (setup_deterministic c) (nodes c rngs os_rngs 0 n))) n 0
          (secret_bytes c outs) db (secret_bytes-AreValues _ 0 outs a)
          (omega (arith, length-secret_bytes outs, len)) m (λ k l. absurd (omega (arith, l)))
          h.holds in
      (
        record db {
          nodes = rows;
          networks =
              map (set_state net dkg_complete (some (c.g2_code.to_bytes o.collective_pk)))
                db.networks;
        },
        record {
          network_id = net;
          state = dkg_complete;
          collective_pk_hex = some (texts.hex_encode (c.g2_code.to_bytes o.collective_pk));
          member_count = h.row.n;
          threshold = h.row.t + 1;
        },
        rw
            (
              found_network_ok net db h.row h.found,
              h.ready,
              all_nodes_ok net h.row.n db (h.holds.count ∙ sym h.size),
              run',
              head,
              stored,
            )
            refl,
        IsNetwork-IsKeyed c net n t _ db rows o.collective_pk key
            (joint_short c n t (setup_deterministic c) (suc t) (nodes c rngs os_rngs 0 n)
              (omega arith) (omega arith))
            holds h,
      )
