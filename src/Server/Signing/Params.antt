-- ===== src/Server/Signing/Params.antt =====
-- sigimora-server/src/routes/signing.rs: the parameters and signers that are built from the stored
-- rows, and the signature of a quorum.
use sigimora_api_backend.Base.{
  ℕ, suc, ◌+◌, none, some, List, [], ◌∷◌, map, find, get_elem?, u16, ◌==◌, ok_or, map_err, unwrap,
  Outcome, ok, ◌>>=◌,
}
use sigimora_api_backend.Math.Suite.{Suite, Bytes}
use sigimora_api_backend.Ats.{
  SignerConfig, NetworkPublicParams, PartialSignature, AtsSignature, signer_config, sign_partial,
  aggregate,
}
use sigimora_api_backend.Server.{ApiError, bad_request, internal, crypto}
use sigimora_api_backend.Server.Store.{NetworkRow, NodeRow}
use sigimora_api_backend.Server.Texts.{decode}

module _ (c : Suite) where
  open c use {Scalar, G1, G2}

  -- `for node_row in &node_rows`: the members' keys and the signers; `lt k` is the `k`-th key drawn.
  unfoldable pub load_signers :
      (ℕ → Scalar) → ℕ → List NodeRow → Outcome ApiError (List (ℕ × G2) × List (ℕ × SignerConfig c))
  load_signers lt k [] = ok ([], [])
  load_signers lt k (row ∷ rows) = do
    pk ← decode c.g2_code internal row.public_key
    dkg_share ← decode c.scalar_code internal row.secret_key
    rest ← load_signers lt (suc k) rows
    ok (
      (u16 row.node_id, pk) ∷ rest.0,
      (u16 row.node_id, signer_config c (u16 row.node_id) dkg_share (lt k)) ∷ rest.1,
    )

  pub record Loaded : Type 0 where
    pub params : NetworkPublicParams c
    pub configs : List (ℕ × SignerConfig c)

  unfoldable pub load : (ℕ → Scalar) → NetworkRow → List NodeRow → Outcome ApiError Loaded
  load lt net_row node_rows = do
    pk_bytes ← ok_or net_row.collective_pk bad_request
    collective_pk ← decode c.g2_code internal pk_bytes
    tracking_bytes ← ok_or net_row.tracking_pk internal
    tracking_pk ← decode c.g2_code internal tracking_bytes
    signers ← load_signers lt 0 node_rows
    ok (record {
      params = record {
        n = net_row.n;
        threshold = net_row.t + 1;
        collective_pk = collective_pk;
        tracking_pk = tracking_pk;
        member_pks = signers.0;
        member_lt_pks = map (λ s. (s.0, s.1.lt_pk)) signers.1;
      };
      configs = signers.1;
    })

  -- `req.quorum.iter().filter_map(|qid| signer_configs.iter().find(..))`.
  unfoldable pub pick : List (ℕ × SignerConfig c) → List ℕ → List (SignerConfig c)
  pick configs [] = []
  pick configs (q ∷ qs) =
      let rest = pick configs qs in
      elim (find (λ s. s.0 == q) configs) [ none ↦ rest | some s ↦ s.1 ∷ rest ]

  -- The partial signatures; `random k` is what the `k`-th reads of the generator.
  unfoldable pub sign_each :
      (ℕ → Scalar × Bytes) → ℕ → Bytes → G2 → List (SignerConfig c) → List (PartialSignature c)
  sign_each random k msg tracking_pk [] = []
  sign_each random k msg tracking_pk (s ∷ ss) =
      sign_partial c s msg tracking_pk (random k).0 (random k).1
      ∷ sign_each random (suc k) msg tracking_pk ss

  -- The signature of the signers, with the first requested id as the aggregator's.
  unfoldable pub sign_with :
      (ℕ → Scalar × Bytes)
      → NetworkPublicParams c
      → List (SignerConfig c)
      → List ℕ
      → Bytes
      → Outcome ApiError (AtsSignature c)
  unfolding sign_each
  sign_with random params quorum requested msg = do
    aggregator_id ← unwrap (get_elem? requested 0)
    map_err (λ e. crypto)
        (aggregate c (sign_each random 0 msg params.tracking_pk quorum) params 0 aggregator_id)
