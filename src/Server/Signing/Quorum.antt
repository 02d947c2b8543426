-- ===== src/Server/Signing/Quorum.antt =====
-- The signers that sigimora-server/src/routes/signing.rs loads, and the signature of a quorum of them.
use sigimora_api_backend.Base.{
  ℕ, suc, ◌+◌, ◌≤◌, ◌<◌, ◌≡◌, refl, ap, ap₂, ◌∙◌, some, List, [], ◌∷◌, map, find, length,
  length-map, u16, All, ok, ok_or, map_err, bind_eq, ◌==◌, inl, inr, Bool-cases, arith,
}
use sigimora_api_backend.Math.Suite.{Suite, Bytes}
use sigimora_api_backend.Shamir.Poly.{horner}
use sigimora_api_backend.Shamir.Interpolation.{Distinct}
use sigimora_api_backend.Shamir.Lagrange.{points}
use sigimora_api_backend.Ats.{
  SignerConfig, NetworkPublicParams, PartialSignature, AtsSignature, signer_config, sign_partial,
  ats_tag,
}
use sigimora_api_backend.Ats.Laws.{aggregate-horner}
use sigimora_api_backend.Server.{bad_request, internal, crypto}
use sigimora_api_backend.Server.Store.{Database, NodeRow, rows_of}
use sigimora_api_backend.Server.Store.Secrets.{HaveSecrets}
use sigimora_api_backend.Server.Texts.{decode, decode-to_bytes}
use sigimora_api_backend.Server.Keyed.{IsKeyed, shares}
use sigimora_api_backend.Server.Signing.Params.{
  Loaded, load_signers, load, pick, sign_each, sign_with,
}

module _ (c : Suite) (net : Bytes) where
  open c use {Scalar, G1, G2, field, g1, g2}

  -- Signers with their shares of a polynomial, the first with the id `suc i`.
  abbrev AreSigners : List Scalar → ℕ → List (ℕ × SignerConfig c) → Type 0
  AreSigners p i [] = Unit
  AreSigners p i (s ∷ ss) =
      (s.0 ≡ suc i)
      × (s.1.node_id ≡ suc i)
      × (s.1.dkg_share ≡ horner field p (field.from_u64 (suc i)))
      × AreSigners p (suc i) ss

  load_signers_ok :
      (p : List Scalar) (lt : ℕ → Scalar) (k i : ℕ) (rows : List NodeRow)
      → HaveSecrets c net (shares c net p) i rows
      → i + length rows ≤ 65535
      → (pks : List (ℕ × G2)) × (configs : List (ℕ × SignerConfig c)) × (load_signers c lt k rows
          ≡ ok (pks, configs))
        × AreSigners p i configs
        × (length configs ≡ length rows)
  unfolding load_signers signer_config
  load_signers_ok p lt k i [] a b = ([], [], refl, tt, refl)
  load_signers_ok p lt k i (row ∷ rows) ((e, n, (pk, f), s), a) b =
      let (pks, configs, q, r, l) =
        load_signers_ok p lt (suc k) (suc i) rows a (omega (arith, b)) in
      let id : u16 row.node_id ≡ suc i = omega (arith, e, b) in
      (
        _,
        (
          u16 row.node_id,
          signer_config c (u16 row.node_id) (horner field p (field.from_u64 (suc i))) (lt k),
        )
            ∷ configs,
        bind_eq _ (ap (decode c.g2_code internal) f ∙ decode-to_bytes c.g2_code internal pk)
            ∙ bind_eq _
                (ap (decode c.scalar_code internal) s ∙ decode-to_bytes c.scalar_code internal _)
            ∙ bind_eq _ q,
        (id, id, refl, r),
        ap suc l,
      )

  find_signer :
      (p : List Scalar) (q i : ℕ) (configs : List (ℕ × SignerConfig c))
      → AreSigners p i configs
      → i < q
      → q ≤ i + length configs
      → (s : ℕ × SignerConfig c) × (find (λ s. s.0 == q) configs ≡ some s)
        × (s.1.node_id ≡ q)
        × (s.1.dkg_share ≡ horner field p (field.from_u64 q))
  find_signer p q i [] a lo hi = absurd (omega (arith, lo, hi))
  find_signer p q i (s ∷ ss) (e, id, share, a) lo hi = elim (Bool-cases (s.0 == q)) [
    | inl h ↦
        let same : suc i ≡ q = ground (arith, e) in
        (s, rw (h, find) refl, id ∙ same, share ∙ ap (λ k. horner field p (field.from_u64 k)) same)
    | inr h ↦
        let more : suc i < q = ground (arith, e, lo) in
        let (x, f, r, v) = find_signer p q (suc i) ss a more (omega (arith, hi)) in
        (x, rw (h, find) f, r, v)
  ]

  -- The request names nodes of the network.
  abbrev pub IsMember : ℕ → ℕ → Type 0
  IsMember n q = (0 < q) × (q ≤ n)

  -- The signers of a request, in its order.
  abbrev pub AreChosen : List Scalar → List ℕ → List (SignerConfig c) → Type 0
  AreChosen p [] ss = ss ≡ []
  AreChosen p (q ∷ qs) [] = ⊥
  AreChosen p (q ∷ qs) (s ∷ ss) =
      (s.node_id ≡ q) × (s.dkg_share ≡ horner field p (field.from_u64 q)) × AreChosen p qs ss

  pub pick_ok :
      (p : List Scalar) (n : ℕ) (configs : List (ℕ × SignerConfig c)) (qs : List ℕ)
      → AreSigners p 0 configs
      → length configs ≡ n
      → All (IsMember n) qs
      → AreChosen p qs (pick c configs qs)
  unfolding pick
  pick_ok p n configs [] a l m = refl
  pick_ok p n configs (q ∷ qs) a l ((lo, hi), m) =
      let (s, f, id, share) = find_signer p q 0 configs a lo (omega (arith, hi, l)) in
      rw (f, pick) (id, share, pick_ok p n configs qs a l m)

  pub length-chosen :
      (p : List Scalar) (qs : List ℕ) (ss : List (SignerConfig c))
      → AreChosen p qs ss
      → length ss ≡ length qs
  length-chosen p [] ss a = ap length a
  length-chosen p (q ∷ qs) [] a = absurd a
  length-chosen p (q ∷ qs) (s ∷ ss) (e, f, a) = ap suc (length-chosen p qs ss a)

  sign_each_ids :
      (p : List Scalar) (random : ℕ → Scalar × Bytes) (k : ℕ) (msg : Bytes) (tpk : G2) (qs : List ℕ)
      (ss : List (SignerConfig c))
      → AreChosen p qs ss
      → map (λ (x : PartialSignature c). x.node_id) (sign_each c random k msg tpk ss) ≡ qs
  unfolding sign_each sign_partial
  sign_each_ids p random k msg tpk [] [] a = refl
  sign_each_ids p random k msg tpk [] (s ∷ ss) a = cc
  sign_each_ids p random k msg tpk (q ∷ qs) [] a = absurd a
  sign_each_ids p random k msg tpk (q ∷ qs) (s ∷ ss) (e, f, a) =
      ap₂ ◌∷◌ e (sign_each_ids p random (suc k) msg tpk qs ss a)

  sign_each_sigmas :
      (p : List Scalar) (random : ℕ → Scalar × Bytes) (k : ℕ) (msg : Bytes) (tpk : G2) (qs : List ℕ)
      (ss : List (SignerConfig c))
      → AreChosen p qs ss
      → map (λ (x : PartialSignature c). x.sigma) (sign_each c random k msg tpk ss)
        ≡ map (g1.mul (c.hash_to_g1 msg ats_tag)) (map (λ i. horner field p (field.from_u64 i)) qs)
  unfolding sign_each sign_partial
  sign_each_sigmas p random k msg tpk [] [] a = refl
  sign_each_sigmas p random k msg tpk [] (s ∷ ss) a = cc
  sign_each_sigmas p random k msg tpk (q ∷ qs) [] a = absurd a
  sign_each_sigmas p random k msg tpk (q ∷ qs) (s ∷ ss) (e, f, a) =
      ap₂ ◌∷◌ (ap (g1.mul (c.hash_to_g1 msg ats_tag)) f)
        (sign_each_sigmas p random (suc k) msg tpk qs ss a)

  -- The signature of a quorum is the one with the polynomial's constant term.
  pub sign_with_ok :
      (p : List Scalar) (random : ℕ → Scalar × Bytes) (params : NetworkPublicParams c)
      (ss : List (SignerConfig c)) (qs : List ℕ) (msg : Bytes)
      → AreChosen p qs ss
      → Distinct (points field qs)
      → length p ≤ length qs
      → params.threshold ≤ length qs
      → 0 < length qs
      → (sig : AtsSignature c) × (sign_with c random params ss qs msg ≡ ok sig)
        × (sig.combined_sig ≡ g1.mul (c.hash_to_g1 msg ats_tag) (horner field p field.zero))
  unfolding sign_with
  sign_with_ok p random params ss [] msg a d n t pos = absurd (omega (arith, pos))
  sign_with_ok p random params ss (q ∷ qs) msg a d n t pos =
      let ids = sign_each_ids p random 0 msg params.tracking_pk (q ∷ qs) ss a in
      let (sig, e, v) =
        aggregate-horner c p params (c.hash_to_g1 msg ats_tag) (q ∷ qs)
          (sign_each c random 0 msg params.tracking_pk ss) 0 q ids
          (sign_each_sigmas p random 0 msg params.tracking_pk (q ∷ qs) ss a) d n
          (omega (
            arith,
            t,
            ap length ids,
            length-map (λ (x : PartialSignature c). x.node_id)
                (sign_each c random 0 msg params.tracking_pk ss),
          )) in
      (sig, ap (map_err (λ e. crypto)) e, v)

  pub load_ok :
      (n t : ℕ) (p : List Scalar) (lt : ℕ → Scalar) (db : Database) (h : IsKeyed c net n t p db)
      → n ≤ 65535
      → (loaded : Loaded c) × (load c lt h.row (rows_of net db.nodes) ≡ ok loaded)
        × (loaded.params.threshold ≡ t + 1)
        × AreSigners p 0 loaded.configs
        × (length loaded.configs ≡ n)
  unfolding load
  load_ok n t p lt db h m =
      let (pks, configs, e, a, l) =
        load_signers_ok p lt 0 0 (rows_of net db.nodes) h.holds.secrets
          (omega (arith, m, h.holds.count)) in
      (
        _,
        bind_eq _ (ap (λ o. ok_or o bad_request) h.key)
            ∙ bind_eq _ (decode-to_bytes c.g2_code internal _)
            ∙ bind_eq _ (ap (λ o. ok_or o internal) h.tracking)
            ∙ bind_eq _ (decode-to_bytes c.g2_code internal _)
            ∙ bind_eq _ e,
        ap (λ k. k + 1) h.threshold,
        a,
        l ∙ h.holds.count,
      )
