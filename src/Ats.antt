-- ===== src/Ats.antt =====
-- sigimora-ats/src/lib.rs: threshold signatures whose signers the holder of the tracking key can
-- name. A participant id is a natural number below 2 ^ 16.
pub mod Tags
pub mod Laws
use sigimora_api_backend.Base.{
  ℕ, ◌+◌, ◌*◌, ◌/◌, ◌%◌, Bool, true, false, not, ◌&&◌, Option, some, none, List, [], ◌∷◌, ◌++◌, map,
  filter, find, any, take, drop, length, Outcome, ok, err, ◌>>=◌, ◌>>◌, guard, ltb, leb, ◌==◌,
  if◌then◌else◌, get_elem?, zip,
}
use sigimora_api_backend.Math.Group.{weighted_loop}
use sigimora_api_backend.Math.Pairing.{ct_verify_bls_signature, ct_pairing_check}
use sigimora_api_backend.Math.Suite.{Suite, Bytes}
use sigimora_api_backend.Shamir.{lagrange_at_zero}

-- `b"SIGIMORA_ATS"`, `b"SIGIMORA_BITMAP_COMMIT"` and `b"sigimora-ats-tag"`.
abbrev pub ats_tag : Bytes
ats_tag = 83 ∷ 73 ∷ 71 ∷ 73 ∷ 77 ∷ 79 ∷ 82 ∷ 65 ∷ 95 ∷ 65 ∷ 84 ∷ 83 ∷ []

abbrev bitmap_tag : Bytes
bitmap_tag =
    83 ∷ 73 ∷ 71 ∷ 73 ∷ 77 ∷ 79 ∷ 82 ∷ 65 ∷ 95 ∷ 66 ∷ 73 ∷ 84 ∷ 77 ∷ 65 ∷ 80 ∷ 95 ∷ 67 ∷ 79 ∷ 77
    ∷ 77 ∷ 73 ∷ 84 ∷ []

abbrev tag_key_info : Bytes
tag_key_info =
    115 ∷ 105 ∷ 103 ∷ 105 ∷ 109 ∷ 111 ∷ 114 ∷ 97 ∷ 45 ∷ 97 ∷ 116 ∷ 115 ∷ 45 ∷ 116 ∷ 97 ∷ 103 ∷ []

pub data AtsError : Type 0 where
  insufficient_partials : ℕ → ℕ → AtsError

-- `to_le_bytes` of a `u16`.
abbrev pub u16_bytes : ℕ → Bytes
u16_bytes n = n % 256 ∷ n / 256 % 256 ∷ []

-- `sort()` on ids.
unfoldable pub insert : ℕ → List ℕ → List ℕ
insert a [] = a ∷ []
insert a (b ∷ bs) = if leb a b then a ∷ b ∷ bs else b ∷ insert a bs

unfoldable pub sort : List ℕ → List ℕ
unfolding insert
sort [] = []
sort (a ∷ bs) = insert a (sort bs)

abbrev id_bytes : List ℕ → Bytes
id_bytes [] = []
id_bytes (id ∷ ids) = u16_bytes id ++ id_bytes ids

module _ (c : Suite) where
  open c use {Scalar, G1, G2, field, g1, g2}

  pub record TrackingKeyPair : Type 0 where
    pub secret : Scalar
    pub public : G2

  -- `TrackingKeyPair::from_secret`; `generate` is this at a random scalar.
  unfoldable pub from_secret : Scalar → TrackingKeyPair
  from_secret secret = record { secret = secret; public = g2.mul g2.generator secret }

  pub record NetworkPublicParams : Type 0 where
    pub n : ℕ
    pub threshold : ℕ
    pub collective_pk : G2
    pub tracking_pk : G2
    pub member_pks : List (ℕ × G2)
    pub member_lt_pks : List (ℕ × G2)

  pub record SignerConfig : Type 0 where
    pub node_id : ℕ
    pub dkg_share : Scalar
    pub dkg_share_pk : G2
    pub lt_sk : Scalar
    pub lt_pk : G2

  -- `SignerConfig::new`.
  unfoldable pub signer_config : ℕ → Scalar → Scalar → SignerConfig
  signer_config node_id dkg_share lt_sk = record {
    node_id = node_id;
    dkg_share = dkg_share;
    dkg_share_pk = g2.mul g2.generator dkg_share;
    lt_sk = lt_sk;
    lt_pk = g2.mul g2.generator lt_sk;
  }

  pub record EncryptedTag : Type 0 where
    pub node_id : ℕ
    pub ephemeral_pk : G2
    pub ciphertext : Bytes
    pub nonce : Bytes

  pub record PartialSignature : Type 0 where
    pub node_id : ℕ
    pub sigma : G1
    pub encrypted_tag : EncryptedTag

  pub record DecryptedTag : Type 0 where
    pub node_id : ℕ
    pub sigma_i : G1
    pub tag_i : G1
    pub lt_pk : G2

  pub record MembershipProof : Type 0 where
    pub quorum_pk : G2
    pub individual_pks : List (ℕ × G2)

  pub record AtsSignature : Type 0 where
    pub combined_sig : G1
    pub quorum : List ℕ
    pub bitmap_commitment : G1
    pub encrypted_tags : List EncryptedTag
    pub membership_proof : MembershipProof
    pub epoch : ℕ

  -- The key that both sides derive from the shared point.
  unfoldable pub tag_key : G2 → Bytes
  tag_key shared = c.hkdf (c.g2_code.to_bytes shared) tag_key_info

  -- `r` and `nonce` are what the generator yields.
  unfoldable pub encrypt_tag : ℕ → G1 → G1 → G2 → G2 → Scalar → Bytes → EncryptedTag
  unfolding tag_key
  encrypt_tag node_id sigma_i tag_i lt_pk tracking_pk r nonce = record {
    node_id = node_id;
    ephemeral_pk = g2.mul g2.generator r;
    ciphertext = c.encrypt (tag_key (g2.mul tracking_pk r)) nonce (
        u16_bytes node_id
        ++ (c.g1_code.to_bytes sigma_i ++ (c.g1_code.to_bytes tag_i ++ c.g2_code.to_bytes lt_pk)));
    nonce = nonce;
  }

  -- The plaintext read back; from 194 bytes on, its first two are there.
  unfoldable pub parse_tag : Bytes → Option DecryptedTag
  parse_tag (b0 ∷ b1 ∷ rest) =
      if ltb (length (b0 ∷ b1 ∷ rest)) 194
      then none
      else elim (c.g1_code.from_bytes (take 48 rest)) [
        | none ↦ none
        | some sigma_i ↦ elim (c.g1_code.from_bytes (take 48 (drop 48 rest))) [
          | none ↦ none
          | some tag_i ↦ elim (c.g2_code.from_bytes (take 96 (drop 96 rest))) [
            | none ↦ none
            | some lt_pk ↦ some (record {
              node_id = b0 + 256 * b1;
              sigma_i = sigma_i;
              tag_i = tag_i;
              lt_pk = lt_pk;
            })
          ]
        ]
      ]
  parse_tag (b0 ∷ []) = none
  parse_tag [] = none

  unfoldable pub decrypt_tag : Scalar → EncryptedTag → Option DecryptedTag
  unfolding tag_key parse_tag
  decrypt_tag tracking_sk enc =
      elim (c.decrypt (tag_key (g2.mul enc.ephemeral_pk tracking_sk)) enc.nonce enc.ciphertext) [
        | none ↦ none
        | some plaintext ↦ parse_tag plaintext
      ]

  -- `sign_partial`; `r` and `nonce` are what the generator yields.
  unfoldable pub sign_partial : SignerConfig → Bytes → G2 → Scalar → Bytes → PartialSignature
  unfolding encrypt_tag
  sign_partial signer msg tracking_pk r nonce =
      let sigma_i = g1.mul (c.hash_to_g1 msg ats_tag) signer.dkg_share in
      let tag_i = g1.mul sigma_i signer.lt_sk in
      record {
        node_id = signer.node_id;
        sigma = sigma_i;
        encrypted_tag = encrypt_tag signer.node_id sigma_i tag_i signer.lt_pk tracking_pk r nonce;
      }

  unfoldable pub create_bitmap_commitment : List ℕ → ℕ → G1
  unfolding sort
  create_bitmap_commitment quorum aggregator_id =
      c.hash_to_g1 (id_bytes (sort quorum) ++ u16_bytes aggregator_id) bitmap_tag

  -- `quorum.iter().filter_map(|id| member_pks.iter().find(..))`.
  unfoldable pub pks_of : List (ℕ × G2) → List ℕ → List (ℕ × G2)
  pks_of member_pks [] = []
  pks_of member_pks (id ∷ ids) =
      let rest = pks_of member_pks ids in
      elim (find (λ m. m.0 == id) member_pks) [ none ↦ rest | some m ↦ m ∷ rest ]

  unfoldable pub aggregate :
      List PartialSignature → NetworkPublicParams → ℕ → ℕ → Outcome AtsError AtsSignature
  unfolding create_bitmap_commitment pks_of
  aggregate partials params epoch aggregator_id = do
    guard (not (ltb (length partials) params.threshold))
        (insufficient_partials params.threshold (length partials))
    let quorum = map (λ p. p.node_id) partials
    lambdas ← lagrange_at_zero field quorum
    let individual_pks = pks_of params.member_pks quorum
    ok (record {
      combined_sig = weighted_loop g1 g1.identity (map (λ p. p.sigma) partials) lambdas;
      quorum = quorum;
      bitmap_commitment = create_bitmap_commitment quorum aggregator_id;
      encrypted_tags = map (λ p. p.encrypted_tag) partials;
      membership_proof = record {
        quorum_pk = weighted_loop g2 g2.identity (map (λ m. m.1) individual_pks) lambdas;
        individual_pks = individual_pks;
      };
      epoch = epoch;
    })

  -- `for (id, pk) in &individual_pks { if !valid { return false; } }`.
  unfoldable pub all_members : List (ℕ × G2) → List (ℕ × G2) → Bool
  all_members member_pks [] = true
  all_members member_pks ((id, pk) ∷ rest) =
      any (λ m. (m.0 == id) && g2.beq m.1 pk) member_pks && all_members member_pks rest

  unfoldable pub verify : NetworkPublicParams → Bytes → AtsSignature → Bool
  unfolding all_members
  verify params msg sig =
      not (ltb (length sig.quorum) params.threshold)
      && all_members params.member_pks sig.membership_proof.individual_pks
      && ct_verify_bls_signature c sig.combined_sig (c.hash_to_g1 msg ats_tag) params.collective_pk

  -- The body of the loop of `trace` on a tag that decrypts.
  unfoldable pub trace_one : NetworkPublicParams → G1 → DecryptedTag → Option (ℕ × G2)
  trace_one params h d =
      if elim (find (λ m. m.0 == d.node_id) params.member_pks) [
        | none ↦ true
        | some m ↦ ct_verify_bls_signature c d.sigma_i h m.1
      ]
        && ct_pairing_check c d.tag_i g2.generator (g1.negate d.sigma_i) d.lt_pk
      then find (λ m. g2.beq m.1 d.lt_pk) params.member_lt_pks
      else none

  unfoldable pub trace_loop : Scalar → NetworkPublicParams → G1 → List EncryptedTag → List (ℕ × G2)
  unfolding trace_one decrypt_tag
  trace_loop tracking_sk params h [] = []
  trace_loop tracking_sk params h (t ∷ ts) =
      let rest = trace_loop tracking_sk params h ts in
      elim (decrypt_tag tracking_sk t) [
        | none ↦ rest
        | some d ↦ elim (trace_one params h d) [ none ↦ rest | some m ↦ m ∷ rest ]
      ]

  unfoldable pub trace : Scalar → NetworkPublicParams → Bytes → AtsSignature → List (ℕ × G2)
  unfolding trace_loop
  trace tracking_sk params msg sig =
      trace_loop tracking_sk params (c.hash_to_g1 msg ats_tag) sig.encrypted_tags
