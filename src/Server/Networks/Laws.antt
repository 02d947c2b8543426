-- ===== src/Server/Networks/Laws.antt =====
-- `create_network` of sigimora-server/src/routes/network.rs.
use sigimora_api_backend.Base.{
  ℕ, suc, ◌≤◌, ◌<◌, ◌≡◌, refl, sym, subst, ◌∙◌, Bool, true, false, none, some, List, [], ◌∷◌, ◌++◌,
  map, take, find, any, length, length-append, length-map, range_from, u16, All, All-map, ltb, leb,
  ◌==◌, ok, slice_start, find-append, find-none, arith,
}
use sigimora_api_backend.Math.Suite.{Suite, Bytes}
use sigimora_api_backend.Ats.{from_secret}
use sigimora_api_backend.Ledger.Maps.{same_id, same_id_refl}
use sigimora_api_backend.Server.{admin}
use sigimora_api_backend.Server.Store.{
  Database, NetworkRow, has_network, insert_network, insert_api_key,
}
use sigimora_api_backend.Server.Store.Secrets.{Holds}
use sigimora_api_backend.Server.Texts.{Texts}
use sigimora_api_backend.Server.Keyed.{IsNetwork}
use sigimora_api_backend.Server.Access.{
  bearer, api_key_prefix, letter, sha256_hex, generate_api_key, from_request_parts,
}
use sigimora_api_backend.Server.Access.Laws.{from_request_parts_found}
use sigimora_api_backend.Server.Networks.{
  Fresh, CreateNetworkRequest, CreateNetworkResponse, network_row, network_response, create_network,
}
use sigimora_api_backend.Server.Networks.Rows.{new_rows, insert_nodes_lem, new_rows-Holds}

any-append_one :
    {A : Type 0} (p : A → Bool) (xs : List A) (y : A) → p y ≡ true → any p (xs ++ y ∷ []) ≡ true
any-append_one p [] y h = rw (h) refl
any-append_one p (x ∷ xs) y h = ground (arith, any-append_one p xs y h)

module _ (c : Suite) (texts : Texts) where
  open c use {Scalar, G2, field, g2}

  -- What was drawn names no row of the tables, and has the lengths of a UUID and of the entropy.
  pub record IsUnused (fresh : Fresh Scalar) (db : Database) : Type 0 where
    pub network_unused : has_network fresh.network_id db ≡ false
    pub nodes_unused : All (λ r. same_id r.network_id fresh.network_id ≡ false) db.nodes
    pub key_unused : any (λ k. same_id k.id fresh.key_id) db.api_keys ≡ false
    pub id_long : 8 ≤ length fresh.network_id
    pub entropy_size : length fresh.entropy ≡ 16

  abbrev raw_key : Fresh Scalar → Bytes
  raw_key fresh = api_key_prefix ++ map letter fresh.entropy

  create_network_ok :
      (fresh : Fresh Scalar) (req : CreateNetworkRequest) (db : Database)
      → IsUnused fresh db
      → 2 ≤ req.n
      → req.n ≤ 65535
      → 0 < req.t
      → req.t < req.n
      → (last : ℕ) × (create_network c texts fresh req db ≡ (
        record db {
          networks = db.networks ++ network_row c fresh req.n req.t ∷ [];
          nodes = db.nodes ++ new_rows c fresh db.last_node (range_from 1 (u16 req.n));
          last_node = last;
          api_keys =
              db.api_keys
              ++ (generate_api_key c texts fresh.entropy fresh.key_id fresh.now_text
                  (fresh.label ++ take 8 fresh.network_id)
                  admin).1
                ∷ [];
        },
        ok (network_response c texts fresh req (raw_key fresh)),
      ))
  unfolding create_network insert_network insert_api_key network_row generate_api_key
  create_network_ok fresh req db h two m pos lt =
      let big : ltb req.n 2 ≡ false = ground (arith, two) in
      let some_t : (req.t == 0) ≡ false = ground (arith, pos) in
      let low_t : leb req.n req.t ≡ false = ground (arith, lt) in
      let row = network_row c fresh req.n req.t in
      let db1 : Database = record db { networks = db.networks ++ row ∷ [] } in
      let here =
        any-append_one (λ (r : NetworkRow). same_id r.id fresh.network_id) db.networks row
          (same_id_refl fresh.network_id) in
      let (last, e) = insert_nodes_lem c fresh 1 (u16 req.n) db1 here (
        All-map {Q = λ r. same_id r.network_id fresh.network_id ≡ true → r.node_id < 1}
          (λ r f q. let no : true ≡ false = sym q ∙ f in cc) db.nodes h.nodes_unused) in
      (
        last,
        rw
            (
              big,
              some_t,
              low_t,
              h.network_unused,
              e,
              slice_start 8 fresh.network_id h.id_long,
              h.key_unused,
            )
            refl,
      )

  -- A request for 2 to 65535 nodes with a threshold from 1 below their number succeeds when what
  -- was drawn is unused, and leaves a network of these nodes that can run the key generation.
  pub create_network-IsNetwork :
      (fresh : Fresh Scalar) (req : CreateNetworkRequest) (db : Database)
      → IsUnused fresh db
      → 2 ≤ req.n
      → req.n ≤ 65535
      → 0 < req.t
      → req.t < req.n
      → (db' : Database) × (resp : CreateNetworkResponse) × (create_network c texts fresh req db
          ≡ (db', ok resp))
        × IsNetwork c fresh.network_id req.n req.t db'
  unfolding network_row
  create_network-IsNetwork fresh req db h two m pos lt =
      let (last, e) = create_network_ok fresh req db h two m pos lt in
      let size : u16 req.n ≡ req.n = omega (arith, m) in
      (
        _,
        _,
        e,
        record {
          row = network_row c fresh req.n req.t;
          tracking_pk = (from_secret c fresh.tracking).public;
          secret_of = λ j. c.scalar_code.to_bytes (fresh.node_sk (suc j));
          found =
              find-append (λ (r : NetworkRow). same_id r.id fresh.network_id) db.networks
                (network_row c fresh req.n req.t) (find-none _ db.networks h.network_unused)
                (same_id_refl fresh.network_id);
          size = refl;
          threshold = refl;
          ready = refl;
          tracking = refl;
          holds =
              subst
                (λ k.
                  Holds c fresh.network_id (λ j. c.scalar_code.to_bytes (fresh.node_sk (suc j))) k
                    (db.nodes ++ new_rows c fresh db.last_node (range_from 1 (u16 req.n))))
                size (new_rows-Holds c fresh db.last_node (u16 req.n) db.nodes h.nodes_unused);
        },
      )

  -- A request for 2 to 65535 nodes with a threshold from 1 below their number, whoever sends it,
  -- is answered with an API key that lets requests in as an admin, when what was drawn is unused
  -- and no stored key has this one's hash.
  pub from_request_parts-create_network :
      (fresh : Fresh Scalar) (req : CreateNetworkRequest) (later : Bytes) (db : Database)
      → IsUnused fresh db
      → find (λ k. same_id k.key_hash (sha256_hex c texts (raw_key fresh))) db.api_keys ≡ none
      → 2 ≤ req.n
      → req.n ≤ 65535
      → 0 < req.t
      → req.t < req.n
      → (db' : Database) × (resp : CreateNetworkResponse) × (create_network c texts fresh req db
          ≡ (db', ok resp))
        × ((from_request_parts c texts later (some (bearer ++ resp.bootstrap_api_key)) db').1
            ≡ ok (record { id = fresh.key_id; role = admin }))
  unfolding network_response generate_api_key
  from_request_parts-create_network fresh req later db h new two m pos lt =
      let (last, e) = create_network_ok fresh req db h two m pos lt in
      let size : length (raw_key fresh) ≡ 25 = omega (
        arith,
        length-append api_key_prefix (map letter fresh.entropy),
        length-map letter fresh.entropy,
        h.entropy_size,
      ) in
      (
        _,
        _,
        e,
        from_request_parts_found c texts later (raw_key fresh) _ _ (omega (arith, size))
            (omega (arith, size))
            (find-append _ db.api_keys _ new (same_id_refl (sha256_hex c texts (raw_key fresh)))),
      )
