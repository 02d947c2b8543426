-- ===== src/Server/Store/Nodes.antt =====
-- The rows that sigimora-server/src/db.rs returns for a network, after the updates of routes/dkg.rs
-- and routes/refresh.rs.
use sigimora_api_backend.Base.{
  ℕ, ◌≡◌, refl, ap, ap₂, ◌∙◌, true, false, ◌&&◌, List, [], ◌∷◌, map, filter, leb, ◌==◌, inl, inr,
  Bool-cases,
}
use sigimora_api_backend.Math.Suite.{Bytes}
use sigimora_api_backend.Ledger.Maps.{same_id}
use sigimora_api_backend.Server.Store.{
  NodeRow, insert_row, sort_rows, rows_of, set_secret, set_epoch,
}

-- A change of a row that leaves its key alone.
abbrev pub KeepsKey : (NodeRow → NodeRow) → Type 0
KeepsKey f = (r : NodeRow) → ((f r).node_id ≡ r.node_id) × ((f r).network_id ≡ r.network_id)

insert_row-map :
    (f : NodeRow → NodeRow)
    → KeepsKey f
    → (r : NodeRow) (rs : List NodeRow) → insert_row (f r) (map f rs) ≡ map f (insert_row r rs)
unfolding insert_row
insert_row-map f k r [] = refl
insert_row-map f k r (x ∷ rs) = elim (Bool-cases (leb r.node_id x.node_id)) [
  | inl e ↦
      let e' : leb (f r).node_id (f x).node_id ≡ true = ap₂ leb (k r).0 (k x).0 ∙ e in
      rw (e, e') refl
  | inr e ↦
      let e' : leb (f r).node_id (f x).node_id ≡ false = ap₂ leb (k r).0 (k x).0 ∙ e in
      rw (e, e') (ap (◌∷◌ (f x)) (insert_row-map f k r rs))
]

sort_rows-map :
    (f : NodeRow → NodeRow)
    → KeepsKey f
    → (rs : List NodeRow) → sort_rows (map f rs) ≡ map f (sort_rows rs)
unfolding sort_rows
sort_rows-map f k [] = refl
sort_rows-map f k (r ∷ rs) =
    ap (insert_row (f r)) (sort_rows-map f k rs) ∙ insert_row-map f k r (sort_rows rs)

filter-map_network :
    (f : NodeRow → NodeRow) (id : Bytes)
    → KeepsKey f
    → (rs : List NodeRow)
    → filter (λ (r : NodeRow). same_id r.network_id id) (map f rs)
      ≡ map f (filter (λ (r : NodeRow). same_id r.network_id id) rs)
filter-map_network f id k [] = refl
filter-map_network f id k (r ∷ rs) =
    let ih = filter-map_network f id k rs in
    elim (Bool-cases (same_id r.network_id id)) [
      | inl e ↦
          let e' : same_id (f r).network_id id ≡ true = ap (λ i. same_id i id) (k r).1 ∙ e in
          rw (e, e', filter) (ap (◌∷◌ (f r)) ih)
      | inr e ↦
          let e' : same_id (f r).network_id id ≡ false = ap (λ i. same_id i id) (k r).1 ∙ e in
          rw (e, e', filter) ih
    ]

-- Such a change of the table is the change of what is selected.
pub rows_of-map :
    (f : NodeRow → NodeRow) (id : Bytes) (rs : List NodeRow)
    → KeepsKey f
    → rows_of id (map f rs) ≡ map f (rows_of id rs)
unfolding rows_of
rows_of-map f id rs k =
    ap sort_rows (filter-map_network f id k rs)
    ∙ sort_rows-map f k (filter (λ r. same_id r.network_id id) rs)

pub set_secret-KeepsKey :
    (id : Bytes) (node : ℕ) (secret : Bytes) → KeepsKey (set_secret id node secret)
set_secret-KeepsKey id node secret r =
    elim (Bool-cases (same_id r.network_id id && (r.node_id == node))) [
      | inl e ↦ rw (e) (refl, refl)
      | inr e ↦ rw (e) (refl, refl)
    ]

pub set_epoch-KeepsKey : (id epoch : ℕ) → KeepsKey (set_epoch id epoch)
set_epoch-KeepsKey id epoch r = elim (Bool-cases (r.id == id)) [
  | inl e ↦ rw (e) (refl, refl)
  | inr e ↦ rw (e) (refl, refl)
]
