-- ===== src/Server/Networks/Rows.antt =====
-- The rows of the nodes that `create_network` of sigimora-server/src/routes/network.rs inserts.
use sigimora_api_backend.Base.{
  ℕ, zero, suc, ◌<◌, ◌≡◌, refl, sym, ap, subst, ◌∙◌, true, false, ◌&&◌, List, [], ◌∷◌, ◌++◌, any,
  length, range_from, All, leb, ◌==◌, ok, append_assoc, append-nil, All-map, All-append_one,
  filter-append_new, inl, inr, Bool-cases, arith,
}
use sigimora_api_backend.Math.Suite.{Suite}
use sigimora_api_backend.Ledger.Maps.{same_id, same_id_refl}
use sigimora_api_backend.Server.Store.{
  Database, NodeRow, has_network, insert_node, insert_row, sort_rows, rows_of,
}
use sigimora_api_backend.Server.Store.Secrets.{Holds, HaveSecrets}
use sigimora_api_backend.Server.Networks.{Fresh, node_row, insert_nodes}

module _ (c : Suite) where
  open c use {Scalar, G2, g2}

  module _ (fresh : Fresh Scalar) where
    -- The rows as stored, when the last one has the number `k`.
    abbrev pub new_rows : ℕ → List ℕ → List NodeRow
    new_rows k [] = []
    new_rows k (i ∷ is) = record (node_row c fresh i) { id = suc k } ∷ new_rows (suc k) is

    -- A row is another network's, or has an id below `i`.
    abbrev Before : ℕ → NodeRow → Type 0
    Before i r = same_id r.network_id fresh.network_id ≡ true → r.node_id < i

    none_taken :
        (i : ℕ) (rs : List NodeRow)
        → All (Before i) rs
        → any (λ r. (r.node_id == i) && same_id r.network_id fresh.network_id) rs ≡ false
    none_taken i [] h = refl
    none_taken i (r ∷ rs) (a, h) = elim (Bool-cases (same_id r.network_id fresh.network_id)) [
      | inl q ↦
          let below : r.node_id < i = a q in
          let other : (r.node_id == i) ≡ false = ground (arith, below) in
          rw (q, other) (none_taken i rs h)
      | inr q ↦ elim (Bool-cases (r.node_id == i)) [
        | inl e ↦ rw (q, e) (none_taken i rs h)
        | inr e ↦ rw (q, e) (none_taken i rs h)
      ]
    ]

    pub insert_nodes_lem :
        (i m : ℕ) (db : Database)
        → has_network fresh.network_id db ≡ true
        → All (Before i) db.nodes
        → (last : ℕ) × (insert_nodes c fresh (range_from i m) db ≡ (
          record db {
            nodes = db.nodes ++ new_rows db.last_node (range_from i m);
            last_node = last;
          },
          ok tt,
        ))
    unfolding insert_nodes insert_node node_row
    insert_nodes_lem i zero db h a =
        (db.last_node, ap (λ ns. (record db { nodes = ns }, ok tt)) (sym (append-nil db.nodes)))
    insert_nodes_lem i (suc m) db h a =
        let row : NodeRow = record (node_row c fresh i) { id = suc db.last_node } in
        let db1 : Database = record db {
          nodes = db.nodes ++ row ∷ [];
          last_node = suc db.last_node;
        } in
        let later =
          All-map {P = Before i} {Q = Before (suc i)} (λ r b q. let l = b q in omega (arith, l))
            db.nodes a in
        let (last, e) =
          insert_nodes_lem (suc i) m db1 h
            (All-append_one (Before (suc i)) db.nodes row later (λ q. omega arith)) in
        (
          last,
          rw (h, none_taken i db.nodes a) e
              ∙ ap (λ ns. (record db { nodes = ns; last_node = last }, ok tt))
                  (append_assoc db.nodes (row ∷ [])
                    (new_rows (suc db.last_node) (range_from (suc i) m))),
        )

    sort_rows-new_rows :
        (k i m : ℕ) → sort_rows (new_rows k (range_from i m)) ≡ new_rows k (range_from i m)
    unfolding sort_rows insert_row node_row
    sort_rows-new_rows k i zero = refl
    sort_rows-new_rows k i (suc zero) = refl
    sort_rows-new_rows k i (suc (suc m)) =
        let first = record (node_row c fresh i) { id = suc k } in
        let order : leb i (suc i) ≡ true = ground arith in
        ap (insert_row first) (sort_rows-new_rows (suc k) (suc i) (suc m)) ∙ rw (order) refl

    of_network :
        (k : ℕ) (is : List ℕ)
        → All (λ r. same_id r.network_id fresh.network_id ≡ true) (new_rows k is)
    unfolding node_row
    of_network k [] = tt
    of_network k (i ∷ is) = (same_id_refl fresh.network_id, of_network (suc k) is)

    new_rows-HaveSecrets :
        (k i m : ℕ)
        → HaveSecrets c fresh.network_id
            (λ j. c.scalar_code.to_bytes (fresh.node_sk (suc j)))
            i
            (new_rows k (range_from (suc i) m))
    unfolding node_row
    new_rows-HaveSecrets k i zero = tt
    new_rows-HaveSecrets k i (suc m) = (
      (
        refl,
        same_id_refl fresh.network_id,
        (g2.mul g2.generator (fresh.node_sk (suc i)), refl),
        refl,
      ),
      new_rows-HaveSecrets (suc k) (suc i) m,
    )

    length-new_rows : (k i m : ℕ) → length (new_rows k (range_from i m)) ≡ m
    length-new_rows k i zero = refl
    length-new_rows k i (suc m) = ap suc (length-new_rows (suc k) (suc i) m)

    pub new_rows-Holds :
        (k m : ℕ) (nodes : List NodeRow)
        → All (λ r. same_id r.network_id fresh.network_id ≡ false) nodes
        → Holds c fresh.network_id
            (λ j. c.scalar_code.to_bytes (fresh.node_sk (suc j)))
            m
            (nodes ++ new_rows k (range_from 1 m))
    unfolding rows_of
    new_rows-Holds k m nodes h =
        let rows : rows_of fresh.network_id (nodes ++ new_rows k (range_from 1 m))
            ≡ new_rows k (range_from 1 m) =
          ap sort_rows (
            filter-append_new (λ r. same_id r.network_id fresh.network_id) nodes _ h
              (of_network k (range_from 1 m)))
          ∙ sort_rows-new_rows k 1 m in
        record {
          count = ap length rows ∙ length-new_rows k 1 m;
          secrets =
              subst
                (HaveSecrets c fresh.network_id
                  (λ j. c.scalar_code.to_bytes (fresh.node_sk (suc j))) 0)
                (sym rows) (new_rows-HaveSecrets k 0 m);
        }
