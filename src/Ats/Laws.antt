-- ===== src/Ats/Laws.antt =====
-- Aggregation and verification of sigimora-ats/src/lib.rs.
use sigimora_api_backend.Base.{
  ℕ, suc, ◌≤◌, ◌≡◌, refl, sym, ap, ap₂, subst, ◌∙◌, ◌↔◌, inl, inr, true, false, ◌&&◌, some, List,
  [], ◌∷◌, map, find, any, length, length-map, ltb, ◌==◌, All, Outcome, ok, ==_refl, if◌then◌else◌,
  arith, Bool-cases, Option-cases,
}
use sigimora_api_backend.Math.Group.{weighted_loop, beq_self}
use sigimora_api_backend.Math.Pairing.{ct_verify_bls_signature, ct_verify_bls_signature_iff}
use sigimora_api_backend.Math.Suite.{Suite, Bytes}
use sigimora_api_backend.Shamir.{lagrange_at_zero, eval_at}
use sigimora_api_backend.Shamir.Poly.{horner}
use sigimora_api_backend.Shamir.Interpolation.{Distinct}
use sigimora_api_backend.Shamir.Lagrange.{points, weights, lagrange_at_zero-weights}
use sigimora_api_backend.Shamir.RoundTrip.{weighted_loop-mul, horner-zero, eval_at-horner}
use sigimora_api_backend.Ats.{
  AtsError, PartialSignature, SignerConfig, NetworkPublicParams, AtsSignature, sign_partial,
  aggregate, verify, all_members, pks_of, ats_tag, create_bitmap_commitment,
}

module _ (c : Suite) where
  open c use {Scalar, G1, G2, field, g1, g2}

  -- Where the collective key is the public key of `sk`, a signature verifies exactly if it names at
  -- least `threshold` ids, all keys of its membership proof are members' keys, and the combined
  -- signature is what `sk` makes of the message.
  verify_iff :
      (params : NetworkPublicParams c) (sk : Scalar) (msg : Bytes) (sig : AtsSignature c)
      → params.collective_pk ≡ g2.mul g2.generator sk
      → (verify c params msg sig ≡ true) ↔ (
          (params.threshold ≤ length sig.quorum)
          × (all_members c params.member_pks sig.membership_proof.individual_pks ≡ true)
          × (sig.combined_sig ≡ g1.mul (c.hash_to_g1 msg ats_tag) sk))
  unfolding verify
  verify_iff params sk msg sig e =
      let (to, back) =
        ct_verify_bls_signature_iff c sig.combined_sig (c.hash_to_g1 msg ats_tag) sk in
      rw (e) (
        λ h.
            let enough : params.threshold ≤ length sig.quorum = ground arith in
            let members : all_members c params.member_pks sig.membership_proof.individual_pks
                ≡ true =
              ground arith in
            let pairing : ct_verify_bls_signature c sig.combined_sig (c.hash_to_g1 msg ats_tag)
                  (g2.mul g2.generator sk)
                ≡ true =
              ground arith in
            (enough, members, to pairing),
        λ (n, m, q). let pairing = back q in ground arith,
      )

  find-any :
      (id : ℕ) (ms : List (ℕ × G2)) (m : ℕ × G2)
      → find (λ x. x.0 == id) ms ≡ some m
      → any (λ x. (x.0 == m.0) && g2.beq x.1 m.1) ms ≡ true
  find-any id [] m e = cc
  find-any id (x ∷ ms) m e = elim (Bool-cases (x.0 == id)) [
    | inl h ↦
        let hit : x ≡ m =
          hit_eq (ap (λ b. if b then some x else find (λ y. y.0 == id) ms) (sym h) ∙ e) in
        rw (ap (λ y. y.0) hit, ap (λ y. y.1) hit, ==_refl m.0, beq_self g2 m.1) refl
    | inr h ↦
        let rest =
          find-any id ms m (ap (λ b. if b then some x else find (λ y. y.0 == id) ms) (sym h) ∙ e) in
        ground (arith, rest)
  ]
    where
      hit_eq : some x ≡ some m → x ≡ m
      hit_eq q = cc

  -- The keys that `aggregate` looks up are members' keys.
  all_members-pks_of :
      (ms : List (ℕ × G2)) (ids : List ℕ) → all_members c ms (pks_of c ms ids) ≡ true
  unfolding all_members pks_of
  all_members-pks_of ms [] = refl
  all_members-pks_of ms (id ∷ ids) = elim (Option-cases (find (λ x. x.0 == id) ms)) [
    | inl h ↦ rw (h, pks_of) (all_members-pks_of ms ids)
    | inr (m, h) ↦ rw (h, pks_of) (rw (find-any id ms m h) (all_members-pks_of ms ids))
  ]

  abbrev pub partials_of :
      Bytes
      → G2
      → (SignerConfig c → Scalar × Bytes)
      → List (SignerConfig c)
      → List (PartialSignature c)
  partials_of msg pk random ss = map (λ s. sign_partial c s msg pk (random s).0 (random s).1) ss

  ids_of :
      (msg : Bytes) (pk : G2) (random : SignerConfig c → Scalar × Bytes)
      (ss : List (SignerConfig c))
      → map (λ (p : PartialSignature c). p.node_id) (partials_of msg pk random ss)
        ≡ map (λ (s : SignerConfig c). s.node_id) ss
  unfolding sign_partial
  ids_of msg pk random [] = refl
  ids_of msg pk random (s ∷ ss) = ap (◌∷◌ s.node_id) (ids_of msg pk random ss)

  sigmas_of :
      (msg : Bytes) (pk : G2) (random : SignerConfig c → Scalar × Bytes)
      (ss : List (SignerConfig c))
      → map (λ (p : PartialSignature c). p.sigma) (partials_of msg pk random ss)
        ≡ map (g1.mul (c.hash_to_g1 msg ats_tag)) (map (λ (s : SignerConfig c). s.dkg_share) ss)
  unfolding sign_partial
  sigmas_of msg pk random [] = refl
  sigmas_of msg pk random (s ∷ ss) =
      ap (◌∷◌ (g1.mul (c.hash_to_g1 msg ats_tag) s.dkg_share)) (sigmas_of msg pk random ss)

  shares_of :
      (secret : Scalar) (cs : List Scalar) (ss : List (SignerConfig c))
      → All (λ s. s.dkg_share ≡ eval_at field secret cs s.node_id) ss
      → map (λ (s : SignerConfig c). s.dkg_share) ss
        ≡ map
            (λ i. horner field (secret ∷ cs) (field.from_u64 i))
            (map (λ (s : SignerConfig c). s.node_id) ss)
  shares_of secret cs [] a = refl
  shares_of secret cs (s ∷ ss) (h, a) =
      ap₂ ◌∷◌ (h ∙ eval_at-horner field secret cs s.node_id) (shares_of secret cs ss a)

  -- What `aggregate` returns of enough partial signatures, once the coefficients are there.
  aggregate_ok :
      (params : NetworkPublicParams c) (partials : List (PartialSignature c)) (ids : List ℕ)
      (ws : List Scalar) (epoch aggregator_id : ℕ)
      → map (λ (p : PartialSignature c). p.node_id) partials ≡ ids
      → params.threshold ≤ length partials
      → ◌≡◌ {A = Outcome AtsError (List Scalar)} (lagrange_at_zero field ids) (ok ws)
      → (sig : AtsSignature c) × (aggregate c partials params epoch aggregator_id ≡ ok sig)
        × (sig.quorum ≡ ids)
        × (sig.membership_proof.individual_pks ≡ pks_of c params.member_pks ids)
        × (sig.combined_sig
            ≡ weighted_loop g1 g1.identity (map (λ (p : PartialSignature c). p.sigma) partials) ws)
  unfolding aggregate
  aggregate_ok params partials ids ws epoch aggregator_id e t w =
      let enough : ltb (length partials) params.threshold ≡ false = ground arith in
      let sig : AtsSignature c = record {
        combined_sig =
            weighted_loop g1 g1.identity (map (λ (p : PartialSignature c). p.sigma) partials) ws;
        quorum = ids;
        bitmap_commitment = create_bitmap_commitment c ids aggregator_id;
        encrypted_tags = map (λ (p : PartialSignature c). p.encrypted_tag) partials;
        membership_proof = record {
          quorum_pk =
              weighted_loop g2 g2.identity
                (map (λ (m : ℕ × G2). m.1) (pks_of c params.member_pks ids)) ws;
          individual_pks = pks_of c params.member_pks ids;
        };
        epoch = epoch;
      } in
      (sig, rw (enough, e, w) refl, refl, refl, refl)

  -- Partial signatures with the shares of a polynomial of at most as many coefficients aggregate to
  -- the signature with the polynomial's constant term.
  pub aggregate-horner :
      (p : List Scalar) (params : NetworkPublicParams c) (h : G1) (ids : List ℕ)
      (partials : List (PartialSignature c)) (epoch aggregator_id : ℕ)
      → map (λ (x : PartialSignature c). x.node_id) partials ≡ ids
      → map (λ (x : PartialSignature c). x.sigma) partials
        ≡ map (g1.mul h) (map (λ i. horner field p (field.from_u64 i)) ids)
      → Distinct (points field ids)
      → length p ≤ length ids
      → params.threshold ≤ length partials
      → (sig : AtsSignature c) × (aggregate c partials params epoch aggregator_id ≡ ok sig)
        × (sig.combined_sig ≡ g1.mul h (horner field p field.zero))
  aggregate-horner p params h ids partials epoch aggregator_id e s d n t =
      let ws = weights field [] (points field ids) in
      let signature =
        aggregate_ok params partials ids ws epoch aggregator_id e t
          (lagrange_at_zero-weights field ids d) in
      (
        signature.0,
        signature.1,
        signature.4
            ∙ ap (λ l. weighted_loop g1 g1.identity l ws) s
            ∙ weighted_loop-mul field g1 h ids p _ refl d n,
      )

  -- At least `threshold` signers, whose ids are different scalars and whose shares are of a polynomial
  -- of at most as many coefficients as there are signers, make partial signatures that aggregate to a
  -- signature, and it verifies where the collective key is the public key of the polynomial's constant
  -- term, whatever the tags are.
  pub verify-aggregate :
      (secret : Scalar) (cs : List Scalar) (params : NetworkPublicParams c) (msg : Bytes)
      (random : SignerConfig c → Scalar × Bytes) (ss : List (SignerConfig c))
      (epoch aggregator_id : ℕ)
      → params.collective_pk ≡ g2.mul g2.generator secret
      → All (λ s. s.dkg_share ≡ eval_at field secret cs s.node_id) ss
      → Distinct (points field (map (λ s. s.node_id) ss))
      → suc (length cs) ≤ length ss
      → params.threshold ≤ length ss
      → (sig : AtsSignature c) × (aggregate c
            (partials_of msg params.tracking_pk random ss)
            params
            epoch
            aggregator_id
          ≡ ok sig)
        × (verify c params msg sig ≡ true)
  verify-aggregate secret cs params msg random ss epoch aggregator_id e a d n t =
      let ids = map (λ s. s.node_id) ss in
      let partials = partials_of msg params.tracking_pk random ss in
      let h = c.hash_to_g1 msg ats_tag in
      let ws = weights field [] (points field ids) in
      let signature =
        aggregate_ok params partials ids ws epoch aggregator_id
          (ids_of msg params.tracking_pk random ss)
          (rw
            (length-map (λ s. sign_partial c s msg params.tracking_pk (random s).0 (random s).1) ss)
            t)
          (lagrange_at_zero-weights field ids d) in
      (
        signature.0,
        signature.1,
        (verify_iff params secret msg signature.0 e).1 (
          rw (signature.2) (
              subst (λ k. params.threshold ≤ k)
                (sym (length-map (λ (s : SignerConfig c). s.node_id) ss)) t),
          rw (signature.3) (all_members-pks_of params.member_pks ids),
          signature.4
              ∙ ap (λ l. weighted_loop g1 g1.identity l ws)
                  (sigmas_of msg params.tracking_pk random ss)
              ∙ weighted_loop-mul field g1 h ids (secret ∷ cs) _ (shares_of secret cs ss a) d (
                  subst (λ k. suc (length cs) ≤ k)
                    (sym (length-map (λ (s : SignerConfig c). s.node_id) ss)) n)
              ∙ ap (g1.mul h) (horner-zero field secret cs),
        ),
      )
