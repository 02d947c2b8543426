-- ===== src/Server/Tracing/Members.antt =====
-- sigimora-server/src/routes/trace.rs: the members of the network, and those whom a transaction names.
use sigimora_api_backend.Base.{
  ℕ, suc, ◌+◌, ◌≤◌, ◌<◌, ◌≡◌, refl, ap, ◌∙◌, none, some, List, [], ◌∷◌, map, find, length, u16,
  ◌==◌, All, Outcome, ok, ◌>>=◌, bind_eq, inl, inr, Bool-cases, arith,
}
use sigimora_api_backend.Math.Suite.{Suite, Bytes}
use sigimora_api_backend.Server.{ApiError, internal}
use sigimora_api_backend.Server.Store.{NodeRow}
use sigimora_api_backend.Server.Store.Secrets.{HaveSecrets}
use sigimora_api_backend.Server.Texts.{Texts, decode, decode-to_bytes}

pub record SignerInfo : Type 0 where
  pub node_id : ℕ
  pub public_key_hex : Bytes

module _ (c : Suite) where
  open c use {G2}

  -- `for row in &node_rows`.
  unfoldable pub member_keys : List NodeRow → Outcome ApiError (List (ℕ × G2))
  member_keys [] = ok []
  member_keys (row ∷ rows) = do
    pk ← decode c.g2_code internal row.public_key
    rest ← member_keys rows
    ok ((u16 row.node_id, pk) ∷ rest)

  -- `quorum.iter().filter_map(|id| member_pks.iter().find(..).map(..))`.
  unfoldable pub signers_of : Texts → List (ℕ × G2) → List ℕ → List SignerInfo
  signers_of texts members [] = []
  signers_of texts members (id ∷ ids) =
      let rest = signers_of texts members ids in
      elim (find (λ m. m.0 == id) members) [
        | none ↦ rest
        | some m ↦
            record { node_id = id; public_key_hex = texts.hex_encode (c.g2_code.to_bytes m.1) }
            ∷ rest
      ]

  module _ (net : Bytes) where
    -- Members with the ids from `suc i` on.
    abbrev AreMembers : ℕ → List (ℕ × G2) → Type 0
    AreMembers i [] = Unit
    AreMembers i (m ∷ ms) = (m.0 ≡ suc i) × AreMembers (suc i) ms

    pub member_keys_ok :
        (f : ℕ → Bytes) (i : ℕ) (rows : List NodeRow)
        → HaveSecrets c net f i rows
        → i + length rows ≤ 65535
        → (ms : List (ℕ × G2)) × (member_keys rows ≡ ok ms)
          × AreMembers i ms
          × (length ms ≡ length rows)
    unfolding member_keys
    member_keys_ok f i [] a b = ([], refl, tt, refl)
    member_keys_ok f i (row ∷ rows) ((e, n, (pk, q), s), a) b =
        let (ms, r, am, l) = member_keys_ok f (suc i) rows a (omega (arith, b)) in
        (
          (u16 row.node_id, pk) ∷ ms,
          bind_eq _ (ap (decode c.g2_code internal) q ∙ decode-to_bytes c.g2_code internal pk)
              ∙ bind_eq _ r,
          (omega (arith, e, b), am),
          ap suc l,
        )

    find_member :
        (q i : ℕ) (ms : List (ℕ × G2))
        → AreMembers i ms
        → i < q
        → q ≤ i + length ms
        → (m : ℕ × G2) × (find (λ m. m.0 == q) ms ≡ some m)
    find_member q i [] a lo hi = absurd (omega (arith, lo, hi))
    find_member q i (m ∷ ms) (e, a) lo hi = elim (Bool-cases (m.0 == q)) [
      | inl h ↦ (m, rw (h, find) refl)
      | inr h ↦
          let (x, f) = find_member q (suc i) ms a (ground (arith, e, lo)) (omega (arith, hi)) in
          (x, rw (h, find) f)
    ]

    pub signers_of_ids :
        (texts : Texts) (n : ℕ) (ms : List (ℕ × G2)) (ids : List ℕ)
        → AreMembers 0 ms
        → length ms ≡ n
        → All (λ q. (0 < q) × (q ≤ n)) ids
        → map (λ (s : SignerInfo). s.node_id) (signers_of texts ms ids) ≡ ids
    unfolding signers_of
    signers_of_ids texts n ms [] a l h = refl
    signers_of_ids texts n ms (q ∷ qs) a l ((lo, hi), h) =
        let (m, f) = find_member q 0 ms a lo (omega (arith, hi, l)) in
        rw (f, map) (ap (◌∷◌ q) (signers_of_ids texts n ms qs a l h))
