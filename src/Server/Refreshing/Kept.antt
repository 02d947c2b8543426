-- ===== src/Server/Refreshing/Kept.antt =====
-- `refresh_network` of sigimora-server/src/routes/refresh.rs keeps the network's key.
use sigimora_api_backend.Base.{
  ℕ, suc, ◌+◌, ◌≤◌, ◌<◌, ◌≡◌, refl, sym, ap, ap₂, ◌∙◌, true, List, [], ◌∷◌, map, take, length,
  range_from, u16, ok, arith,
}
use sigimora_api_backend.Math.Suite.{Suite, Bytes}
use sigimora_api_backend.Shamir.{CryptoError}
use sigimora_api_backend.Shamir.Interpolation.{Distinct}
use sigimora_api_backend.Shamir.Lagrange.{points}
use sigimora_api_backend.Refresh.{manager, verify_collective_key_invariant}
use sigimora_api_backend.Ledger.Maps.{same_id, same_id_refl}
use sigimora_api_backend.Server.{dkg_complete}
use sigimora_api_backend.Server.Store.{
  Database, NodeRow, rows_of, update_node_secret, update_node_epoch, set_secret, set_epoch,
}
use sigimora_api_backend.Server.Store.Secrets.{
  Holds, HaveSecrets, Holds-same, set_secret-Holds, set_epoch-Holds,
}
use sigimora_api_backend.Server.Keyed.{IsKeyed, IsKeyed-reshared, shares}
use sigimora_api_backend.Server.Keygen.Laws.{found_network_ok, all_nodes_ok}
use sigimora_api_backend.Server.Refreshing.Keys.{public_keys, contributions, apply_all}
use sigimora_api_backend.Server.Refreshing.{
  RefreshResponse, next_epoch, store_refreshed, refresh_network,
}
use sigimora_api_backend.Server.Refreshing.Laws.{
  AreKeys, decode_keys_ok, apply_all_ok, refreshed, refreshed_zero, refreshed_short,
}
use sigimora_api_backend.Server.Refreshing.Invariant.{invariant_true, checked_ids}

module _ (c : Suite) (net : Bytes) where
  open c use {Scalar, G2, field, g2}

  store_refreshed_lem :
      (f f0 : ℕ → Bytes) (p : List Scalar) (n epoch i : ℕ) (rows : List NodeRow) (ks : List Scalar)
      (db : Database)
      → HaveSecrets c net f0 i rows
      → AreKeys c net p i ks
      → length ks ≡ length rows
      → i + length ks ≡ n
      → n ≤ 65535
      → ((k : ℕ) → k < i → f k ≡ shares c net p k)
      → Holds c net f n db.nodes
      → (nodes : List NodeRow) × (store_refreshed c net epoch rows ks db
          ≡ (record db { nodes = nodes }, ok tt))
        × Holds c net (shares c net p) n nodes
  unfolding store_refreshed update_node_secret update_node_epoch
  store_refreshed_lem f f0 p n epoch i [] [] db a b l e m same h = (
    db.nodes,
    refl,
    Holds-same c net f (shares c net p) n db.nodes (λ k q. same k (omega (arith, q, e))) h,
  )
  store_refreshed_lem f f0 p n epoch i [] (k ∷ ks) db a b l e m same h = absurd (omega (arith, l))
  store_refreshed_lem f f0 p n epoch i (r ∷ rs) [] db a b l e m same h = absurd (omega (arith, l))
  store_refreshed_lem f f0 p n epoch i (r ∷ rs) (k ∷ ks) db ((id, _, _, _), a) (v, b) l e m same h =
      let (f', same', h') = set_secret-Holds c net f (shares c net p) n i db.nodes same h in
      let secret = map (set_secret net (suc i) (shares c net p i)) db.nodes in
      let h'' = set_epoch-Holds c net f' n r.id epoch secret h' in
      let id' : u16 r.node_id ≡ suc i = omega (arith, id, e, m) in
      let stored : Database = record db { nodes = map (set_epoch r.id epoch) secret } in
      let (nodes, q, w) =
        store_refreshed_lem f' f0 p n epoch (suc i) rs ks stored a b (omega (arith, l))
          (omega (arith, e)) m same' h'' in
      (
        nodes,
        ap₂
              (λ j s. store_refreshed c net epoch rs ks (record db {
                nodes = map (set_epoch r.id epoch) (map (set_secret net j s) db.nodes);
              }))
              id' (ap c.scalar_code.to_bytes v)
            ∙ q,
        w,
      )

  -- A refresh of a network of at most 65535 nodes, which hold the shares of its key with a threshold
  -- below their number, succeeds when the ids 1 to `t + 1` are different scalars. It reports that the
  -- key is kept, and then the nodes hold shares of the refreshed polynomial, whose key the network's
  -- row still holds.
  pub refresh_network-IsKeyed :
      (n t : ℕ) (p : List Scalar) (rngs : ℕ → ℕ → Scalar) (db : Database)
      → IsKeyed c net n t p db
      → t < n
      → n ≤ 65535
      → Distinct (points field (checked_ids c net n t))
      → (db' : Database) × (resp : RefreshResponse) × (refresh_network c rngs net db
          ≡ (db', ok resp))
        × (resp.invariant_preserved ≡ true)
        × IsKeyed c net n t (refreshed c net n t rngs p) db'
  unfolding refresh_network
  refresh_network-IsKeyed n t p rngs db h tn m d =
      let rows = rows_of net db.nodes in
      let p' = refreshed c net n t rngs p in
      let (ks, decoded, a, l) = decode_keys_ok c net p 0 rows h.holds.secrets in
      let count : length ks ≡ n = l ∙ h.holds.count in
      let (ks', applied, a', l') = apply_all_ok c net n t p rngs 0 ks a (omega (arith, count)) m in
      let applied' : apply_all c (contributions c (manager c h.row.n h.row.t) rngs) 0 ks ≡ ok ks' =
        ap₂ (λ i j. apply_all c (contributions c (manager c i j) rngs) 0 ks) h.size h.threshold
        ∙ applied in
      let checked =
        invariant_true c net n t p p' ks ks' (refreshed_zero c net n t p rngs) h.short
          (refreshed_short c net n t p rngs h.short) a a' count (l' ∙ count) tn m d in
      let checked' : verify_collective_key_invariant c {E = CryptoError} (public_keys c ks)
            (public_keys c ks') (take (h.row.t + 1) (range_from 1 (u16 h.row.n)))
          ≡ ok true =
        ap₂
          (λ i j.
            verify_collective_key_invariant c (public_keys c ks) (public_keys c ks')
              (take (j + 1) (range_from 1 (u16 i))))
          h.size h.threshold
        ∙ checked in
      let same_state : same_id h.row.state dkg_complete ≡ true =
        ap (λ s. same_id s dkg_complete) h.complete ∙ same_id_refl dkg_complete in
      let (nodes, stored, holds) =
        store_refreshed_lem (shares c net p) (shares c net p) p' n (next_epoch rows) 0 rows ks' db
          h.holds.secrets a' (l' ∙ l) (omega (arith, l', count)) m
          (λ k q. absurd (omega (arith, q))) h.holds in
      (
        record db { nodes = nodes },
        record { network_id = net; epoch = next_epoch rows; invariant_preserved = true },
        rw
            (
              found_network_ok net db h.row h.found,
              same_state,
              all_nodes_ok net h.row.n db (h.holds.count ∙ sym h.size),
              decoded,
              applied',
              checked',
              stored,
            )
            refl,
        refl,
        IsKeyed-reshared c net n t p p' db nodes (refreshed_zero c net n t p rngs)
            (refreshed_short c net n t p rngs h.short) holds h,
      )
