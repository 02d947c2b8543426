-- ===== src/Server/Keyed.antt =====
-- When the database of sigimora-server holds a network, and when it holds shares of its key.
use sigimora_api_backend.Base.{
  ℕ, suc, ◌≤◌, ◌≡◌, refl, sym, ap, subst, ◌∙◌, true, ◌||◌, Option, some, List, [], ◌∷◌, find, map,
  length, if◌then◌else◌, inl, inr, Bool-cases,
}
use sigimora_api_backend.Math.Suite.{Suite, Bytes}
use sigimora_api_backend.Shamir.Poly.{horner}
use sigimora_api_backend.Ledger.Maps.{same_id}
use sigimora_api_backend.Server.{created, dkg_complete}
use sigimora_api_backend.Server.Store.{Database, NetworkRow, NodeRow, set_state}
use sigimora_api_backend.Server.Store.Secrets.{Holds}

-- The row that `update_network_state` leaves.
find-set_state :
    (net state : Bytes) (pk : Option Bytes) (rs : List NetworkRow) (row : NetworkRow)
    → find (λ r. same_id r.id net) rs ≡ some row
    → find (λ r. same_id r.id net) (map (set_state net state pk) rs)
      ≡ some (record row { state = state; collective_pk = pk })
find-set_state net state pk [] row e = cc
find-set_state net state pk (r ∷ rs) row e = elim (Bool-cases (same_id r.id net)) [
  | inl q ↦
      let hit : some r ≡ some row =
        ap (λ b. if b then some r else find (λ r. same_id r.id net) rs) (sym q) ∙ e in
      let same : r ≡ row = cc in
      rw (q, find)
        (rw (q, find)
          (ap (λ (x : NetworkRow). some (record x { state = state; collective_pk = pk })) same))
  | inr q ↦
      let rest : find (λ r. same_id r.id net) rs ≡ some row =
        ap (λ b. if b then some r else find (λ r. same_id r.id net) rs) (sym q) ∙ e in
      rw (q, find) (rw (q, find) (find-set_state net state pk rs row rest))
]

module _ (c : Suite) (net : Bytes) where
  open c use {Scalar, G2, field, g2}

  -- A network of `n` nodes that can run the key generation.
  pub record IsNetwork (n t : ℕ) (db : Database) : Type 0 where
    pub row : NetworkRow
    pub tracking_pk : G2
    pub secret_of : ℕ → Bytes
    pub found : find (λ r. same_id r.id net) db.networks ≡ some row
    pub size : row.n ≡ n
    pub threshold : row.t ≡ t
    pub ready : (same_id row.state created || same_id row.state dkg_complete) ≡ true
    pub tracking : row.tracking_pk ≡ some (c.g2_code.to_bytes tracking_pk)
    pub holds : Holds c net secret_of n db.nodes

  -- The encoded values of a polynomial at the node ids.
  abbrev pub shares : List Scalar → ℕ → Bytes
  shares p k = c.scalar_code.to_bytes (horner field p (field.from_u64 (suc k)))

  -- The nodes hold the shares of a polynomial, and the network's key is that of its constant term.
  pub record IsKeyed (n t : ℕ) (p : List Scalar) (db : Database) : Type 0 where
    pub row : NetworkRow
    pub tracking_pk : G2
    pub found : find (λ r. same_id r.id net) db.networks ≡ some row
    pub size : row.n ≡ n
    pub threshold : row.t ≡ t
    pub complete : row.state ≡ dkg_complete
    pub tracking : row.tracking_pk ≡ some (c.g2_code.to_bytes tracking_pk)
    pub key :
        row.collective_pk
        ≡ some (c.g2_code.to_bytes (g2.mul g2.generator (horner field p field.zero)))
    pub holds : Holds c net (shares p) n db.nodes
    pub short : length p ≤ suc t

  -- Only the network's row and the rows of its nodes matter.
  pub IsKeyed-moved :
      (n t : ℕ) (p : List Scalar) (db db' : Database)
      → ((row : NetworkRow)
          → find (λ r. same_id r.id net) db.networks ≡ some row
          → find (λ r. same_id r.id net) db'.networks ≡ some row)
      → ((f : ℕ → Bytes) → Holds c net f n db.nodes → Holds c net f n db'.nodes)
      → IsKeyed n t p db
      → IsKeyed n t p db'
  IsKeyed-moved n t p db db' nets rows h = record {
    row = h.row;
    tracking_pk = h.tracking_pk;
    found = nets h.row h.found;
    size = h.size;
    threshold = h.threshold;
    complete = h.complete;
    tracking = h.tracking;
    key = h.key;
    holds = rows (shares p) h.holds;
    short = h.short;
  }

  pub IsKeyed-same :
      (n t : ℕ) (p : List Scalar) (db db' : Database)
      → db'.networks ≡ db.networks
      → db'.nodes ≡ db.nodes
      → IsKeyed n t p db
      → IsKeyed n t p db'
  IsKeyed-same n t p db db' nets rows =
      IsKeyed-moved n t p db db' (λ row f. ap (find (λ r. same_id r.id net)) nets ∙ f)
        (λ f. subst (Holds c net f n) (sym rows))

  -- Other shares of the same key.
  pub IsKeyed-reshared :
      (n t : ℕ) (p p' : List Scalar) (db : Database) (nodes : List NodeRow)
      → horner field p' field.zero ≡ horner field p field.zero
      → length p' ≤ suc t
      → Holds c net (shares p') n nodes
      → IsKeyed n t p db
      → IsKeyed n t p' (record db { nodes = nodes })
  IsKeyed-reshared n t p p' db nodes same short holds h = record {
    row = h.row;
    tracking_pk = h.tracking_pk;
    found = h.found;
    size = h.size;
    threshold = h.threshold;
    complete = h.complete;
    tracking = h.tracking;
    key = h.key ∙ ap (λ v. some (c.g2_code.to_bytes (g2.mul g2.generator v))) (sym same);
    holds = holds;
    short = short;
  }

  -- The shares and the key of a network that had none.
  pub IsNetwork-IsKeyed :
      (n t : ℕ) (p : List Scalar) (db : Database) (nodes : List NodeRow) (pk : G2)
      → pk ≡ g2.mul g2.generator (horner field p field.zero)
      → length p ≤ suc t
      → Holds c net (shares p) n nodes
      → IsNetwork n t db
      → IsKeyed n t p (record db {
        nodes = nodes;
        networks = map (set_state net dkg_complete (some (c.g2_code.to_bytes pk))) db.networks;
      })
  IsNetwork-IsKeyed n t p db nodes pk key short holds h = record {
    row = record h.row { state = dkg_complete; collective_pk = some (c.g2_code.to_bytes pk) };
    tracking_pk = h.tracking_pk;
    found =
        find-set_state net dkg_complete (some (c.g2_code.to_bytes pk)) db.networks h.row h.found;
    size = h.size;
    threshold = h.threshold;
    complete = refl;
    tracking = h.tracking;
    key = ap (λ k. some (c.g2_code.to_bytes k)) key;
    holds = holds;
    short = short;
  }
