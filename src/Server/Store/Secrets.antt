-- ===== src/Server/Store/Secrets.antt =====
-- The secrets in the rows of a network, after the updates of routes/dkg.rs and routes/refresh.rs of
-- sigimora-server.
use sigimora_api_backend.Base.{
  ℕ, suc, ◌+◌, ◌<◌, ◌≡◌, refl, sym, ap, ◌∙◌, subst, true, false, List, [], ◌∷◌, map, length, ◌==◌,
  if◌then◌else◌, inl, inr, Bool-cases, arith,
}
use sigimora_api_backend.Math.Suite.{Suite, Bytes}
use sigimora_api_backend.Ledger.Maps.{same_id}
use sigimora_api_backend.Server.Store.{NodeRow, rows_of, set_secret, set_epoch}
use sigimora_api_backend.Server.Store.Nodes.{rows_of-map, set_secret-KeepsKey, set_epoch-KeepsKey}

-- A function with another value at `j`.
abbrev update : (ℕ → Bytes) → ℕ → Bytes → ℕ → Bytes
update f j s k = if k == j then s else f k

module _ (c : Suite) (net : Bytes) where
  open c use {G2}

  -- A row of the network with the node id `suc i`, a public key and this secret.
  abbrev HasSecret : ℕ → Bytes → NodeRow → Type 0
  HasSecret i s r =
      (r.node_id ≡ suc i)
      × (same_id r.network_id net ≡ true)
      × ((pk : G2) × (r.public_key ≡ c.g2_code.to_bytes pk))
      × (r.secret_key ≡ s)

  -- The rows in the order of their node ids, the first of them `suc i`.
  abbrev pub HaveSecrets : (ℕ → Bytes) → ℕ → List NodeRow → Type 0
  HaveSecrets f i [] = Unit
  HaveSecrets f i (r ∷ rs) = HasSecret i (f i) r × HaveSecrets f (suc i) rs

  HaveSecrets-same :
      (f g : ℕ → Bytes) (i : ℕ) (rs : List NodeRow)
      → ((k : ℕ) → k < i + length rs → f k ≡ g k)
      → HaveSecrets f i rs
      → HaveSecrets g i rs
  HaveSecrets-same f g i [] e h = tt
  HaveSecrets-same f g i (r ∷ rs) e ((a, b, p, s), h) = (
    (a, b, p, s ∙ e i (omega arith)),
    HaveSecrets-same f g (suc i) rs (λ k l. e k (omega (arith, l))) h,
  )

  set_secret_row :
      (f : ℕ → Bytes) (i j : ℕ) (s : Bytes) (r : NodeRow)
      → HasSecret i (f i) r
      → HasSecret i (update f j s i) (set_secret net (suc j) s r)
  set_secret_row f i j s r (a, b, p, e) = elim (Bool-cases (i == j)) [
    | inl q ↦
        let here : (r.node_id == suc j) ≡ true = ground arith in rw (b, here, q) (a, b, p, refl)
    | inr q ↦
        let other : (r.node_id == suc j) ≡ false = ground arith in rw (b, other, q) (a, b, p, e)
  ]

  set_secret_rows :
      (f : ℕ → Bytes) (i j : ℕ) (s : Bytes) (rs : List NodeRow)
      → HaveSecrets f i rs
      → HaveSecrets (update f j s) i (map (set_secret net (suc j) s) rs)
  set_secret_rows f i j s [] h = tt
  set_secret_rows f i j s (r ∷ rs) (a, h) =
      (set_secret_row f i j s r a, set_secret_rows f (suc i) j s rs h)

  set_epoch_rows :
      (f : ℕ → Bytes) (i id epoch : ℕ) (rs : List NodeRow)
      → HaveSecrets f i rs
      → HaveSecrets f i (map (set_epoch id epoch) rs)
  set_epoch_rows f i id epoch [] h = tt
  set_epoch_rows f i id epoch (r ∷ rs) (a, h) = elim (Bool-cases (r.id == id)) [
    | inl q ↦ rw (q) (a, set_epoch_rows f (suc i) id epoch rs h)
    | inr q ↦ rw (q) (a, set_epoch_rows f (suc i) id epoch rs h)
  ]

  -- The table holds these secrets of the network's `n` nodes.
  pub record Holds (f : ℕ → Bytes) (n : ℕ) (nodes : List NodeRow) : Type 0 where
    pub count : length (rows_of net nodes) ≡ n
    pub secrets : HaveSecrets f 0 (rows_of net nodes)

  length-map_row : (f : NodeRow → NodeRow) (rs : List NodeRow) → length (map f rs) ≡ length rs
  length-map_row f [] = refl
  length-map_row f (r ∷ rs) = ap suc (length-map_row f rs)

  pub set_secret-Holds :
      (f g : ℕ → Bytes) (n j : ℕ) (nodes : List NodeRow)
      → ((k : ℕ) → k < j → f k ≡ g k)
      → Holds f n nodes
      → (h : ℕ → Bytes) × ((k : ℕ) → k < suc j → h k ≡ g k)
        × Holds h n (map (set_secret net (suc j) (g j)) nodes)
  set_secret-Holds f g n j nodes e h = (
    update f j (g j),
    λ k l. after k l,
    record {
      count =
          ap length rows
          ∙ length-map_row (set_secret net (suc j) (g j)) (rows_of net nodes)
          ∙ h.count;
      secrets =
          subst (HaveSecrets (update f j (g j)) 0) (sym rows)
            (set_secret_rows f 0 j (g j) (rows_of net nodes) h.secrets);
    },
  )
    where
      rows :
          rows_of net (map (set_secret net (suc j) (g j)) nodes)
          ≡ map (set_secret net (suc j) (g j)) (rows_of net nodes)
      rows =
          rows_of-map (set_secret net (suc j) (g j)) net nodes
            (set_secret-KeepsKey net (suc j) (g j))

      after : (k : ℕ) → k < suc j → update f j (g j) k ≡ g k
      after k l = elim (Bool-cases (k == j)) [
        | inl q ↦ let same : j ≡ k = ground arith in rw (q) (ap g same)
        | inr q ↦ rw (q) (e k (ground arith))
      ]

  pub set_epoch-Holds :
      (f : ℕ → Bytes) (n id epoch : ℕ) (nodes : List NodeRow)
      → Holds f n nodes
      → Holds f n (map (set_epoch id epoch) nodes)
  set_epoch-Holds f n id epoch nodes h = record {
    count = ap length rows ∙ length-map_row (set_epoch id epoch) (rows_of net nodes) ∙ h.count;
    secrets =
        subst (HaveSecrets f 0) (sym rows)
          (set_epoch_rows f 0 id epoch (rows_of net nodes) h.secrets);
  }
    where
      rows :
          rows_of net (map (set_epoch id epoch) nodes)
          ≡ map (set_epoch id epoch) (rows_of net nodes)
      rows = rows_of-map (set_epoch id epoch) net nodes (set_epoch-KeepsKey id epoch)

  pub Holds-same :
      (f g : ℕ → Bytes) (n : ℕ) (nodes : List NodeRow)
      → ((k : ℕ) → k < n → f k ≡ g k)
      → Holds f n nodes
      → Holds g n nodes
  Holds-same f g n nodes e h = record {
    count = h.count;
    secrets =
        HaveSecrets-same f g 0 (rows_of net nodes) (λ k l. e k (omega (arith, l, h.count)))
          h.secrets;
  }
