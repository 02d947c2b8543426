-- ===== src/Dkg.antt =====
-- sigimora-crypto/src/dkg.rs: the state of one party in the key generation, and its operations.
-- A method that takes `&mut self` returns the new state.
pub mod Qual
pub mod Finalize
pub mod Message
pub mod Ecies
pub mod Honest
use sigimora_api_backend.Base.{
  ℕ, zero, suc, ◌+◌, ◌-◌, ◌/◌, Bool, true, false, not, ◌&&◌, Option, some, none, List, [], ◌∷◌,
  ◌++◌, map, filter, find, length, contains, range_from, u16, Outcome, ok, err, panic, ◌>>=◌, ◌>>◌,
  guard, assert, ok_or, ltb, leb, ◌==◌, if◌then◌else◌,
}
use mathlib.Core.Option as Options
use sigimora_api_backend.Math.Suite.{Suite, Bytes}
use sigimora_api_backend.Shamir.{
  CryptoError, share_verification_failed, pop_verification_failed, dkg_error,
}
use sigimora_api_backend.Pedersen.{
  PedersenSetup, VssPublic, VssShare, PrivatePoly, eval, commit_poly, verify_share,
  random_with_secret,
}

-- `b"SIGIMORA_POP"`.
abbrev pub pop_tag : Bytes
pop_tag = 83 ∷ 73 ∷ 71 ∷ 73 ∷ 77 ∷ 79 ∷ 82 ∷ 65 ∷ 95 ∷ 80 ∷ 79 ∷ 80 ∷ []

pub data DkgRound : Type 0 where
  idle round1_commit round2_complaint round3_qual_reveal : DkgRound
  round4_share_distribution round5_verification complete : DkgRound

-- `*complaint_count.entry(accused).or_insert(0) += 1`.
unfoldable pub bump : ℕ → List (ℕ × ℕ) → List (ℕ × ℕ)
bump a [] = (a, 1) ∷ []
bump a ((b, n) ∷ m) = if a == b then (b, n + 1) ∷ m else (b, n) ∷ bump a m

-- `for (_, accused) in &self.complaints_received { … }`.
unfoldable pub count_complaints : List (ℕ × ℕ) → List (ℕ × ℕ) → List (ℕ × ℕ)
count_complaints [] counts = counts
count_complaints ((_, accused) ∷ rest) counts = count_complaints rest (bump accused counts)

-- `if *count > self.f && !disqualifications.contains(accused) { push }` over the map's entries.
unfoldable pub disqualify_loop : ℕ → List (ℕ × ℕ) → List ℕ → List ℕ
disqualify_loop f [] disqualified = disqualified
disqualify_loop f ((accused, count) ∷ rest) disqualified = disqualify_loop f rest (
    if ltb f count && not (contains disqualified accused)
    then disqualified ++ accused ∷ []
    else disqualified)

-- `sort_by_key(|(id, _)| *id)`, a stable sort.
unfoldable insert_by_key : {A : Type 0} → ℕ × A → List (ℕ × A) → List (ℕ × A)
insert_by_key p [] = p ∷ []
insert_by_key (i, a) ((j, b) ∷ rest) =
    if leb i j then (i, a) ∷ (j, b) ∷ rest else (j, b) ∷ insert_by_key (i, a) rest

unfoldable pub sort_by_key : {A : Type 0} → List (ℕ × A) → List (ℕ × A)
unfolding insert_by_key
sort_by_key [] = []
sort_by_key (p ∷ ps) = insert_by_key p (sort_by_key ps)

module _ (c : Suite) where
  open c use {Scalar, G1, G2, field, g1, g2}

  pub record DkgState : Type 0 where
    pub n : ℕ
    pub f : ℕ
    pub t : ℕ
    pub my_id : ℕ
    pub my_secret : Option Scalar
    pub my_public_key : Option G2
    pub my_pop : Option G1
    pub my_vss_poly : Option (PrivatePoly c)
    pub pedersen : PedersenSetup c
    pub received_public_keys : List (ℕ × G2)
    pub received_pops : List (ℕ × G1)
    pub received_vss_publics : List (ℕ × VssPublic c)
    pub received_shares : List (ℕ × VssShare c)
    pub complaints_received : List (ℕ × ℕ)
    pub disqualifications : List ℕ
    pub qual_set : List ℕ
    pub qual_public_keys : List (ℕ × G2)
    pub round : DkgRound

  pub record DkgOutput : Type 0 where
    pub my_secret : Scalar
    pub my_public_key : G2
    pub all_public_keys : List G2
    pub n : ℕ
    pub f : ℕ
    pub t : ℕ
    pub qual_set : List ℕ
    pub collective_pk : G2

  unfoldable pub generate_pop : Scalar → G2 → G1
  generate_pop sk pk = g1.mul (c.hash_to_g1 (c.g2_code.to_bytes pk) pop_tag) sk

  unfoldable pub verify_pop : G2 → G1 → Bool
  verify_pop pk pop =
      c.gt.beq (c.pairing pop g2.generator)
        (c.pairing (c.hash_to_g1 (c.g2_code.to_bytes pk) pop_tag) pk)

  -- `DkgState::new`.
  unfoldable pub new : {E : Type 0} → ℕ → ℕ → ℕ → PedersenSetup c → Outcome E DkgState
  new n t my_id pedersen = do
    assert (leb t n)
    assert (leb 1 my_id && leb my_id (u16 n))
    ok (record {
      n = n;
      f = (n - 1) / 3;
      t = t;
      my_id = my_id;
      my_secret = none;
      my_public_key = none;
      my_pop = none;
      my_vss_poly = none;
      pedersen = pedersen;
      received_public_keys = [];
      received_pops = [];
      received_vss_publics = [];
      received_shares = [];
      complaints_received = [];
      disqualifications = [];
      qual_set = [];
      qual_public_keys = [];
      round = idle;
    })

  -- `order` is the order in which the hash map of counts is walked.
  unfoldable check_disqualification : (List (ℕ × ℕ) → List (ℕ × ℕ)) → DkgState → DkgState
  check_disqualification order s = record s {
    disqualifications =
        disqualify_loop s.f (order (count_complaints s.complaints_received [])) s.disqualifications;
  }

  unfoldable pub add_complaint : (List (ℕ × ℕ) → List (ℕ × ℕ)) → ℕ → ℕ → DkgState → DkgState
  unfolding check_disqualification
  add_complaint order complainer accused s =
      check_disqualification order
        (record s { complaints_received = s.complaints_received ++ (complainer, accused) ∷ [] })

  unfoldable pub build_qual_set : DkgState → DkgState
  build_qual_set s = record s {
    qual_set = filter (λ id. not (contains s.disqualifications id)) (range_from 1 (u16 s.n));
  }

  unfoldable add_qual_reveal : ℕ → G2 → DkgState → DkgState
  add_qual_reveal from public_key s =
      if contains s.qual_set from
      then record s { qual_public_keys = s.qual_public_keys ++ (from, public_key) ∷ [] }
      else s

  unfoldable add_disqualification : ℕ → DkgState → DkgState
  unfolding build_qual_set
  add_disqualification participant s =
      if not (contains s.disqualifications participant)
      then build_qual_set (record s { disqualifications = s.disqualifications ++ participant ∷ [] })
      else s

  unfoldable pub get_complaint_count : ℕ → DkgState → ℕ
  get_complaint_count participant s =
      length (filter (λ p. p.1 == participant) s.complaints_received)

  unfoldable pub is_disqualified : ℕ → DkgState → Bool
  is_disqualified participant s = contains s.disqualifications participant

  -- `for (from, y_i) in &self.received_public_keys`.
  unfoldable pub collect_keys : List ℕ → List (ℕ × G2) → G2 × ℕ → G2 × ℕ
  collect_keys qual [] acc = acc
  collect_keys qual ((from, y_i) ∷ rest) (pk, count) =
      collect_keys qual rest
        (if contains qual from then (g2.add pk y_i, count + 1) else (pk, count))

  unfoldable pub compute_collective_public_key : DkgState → Option G2
  unfolding collect_keys
  compute_collective_public_key s =
      let own : G2 × ℕ =
        (if contains s.qual_set s.my_id
          then elim s.my_public_key [
            | none ↦ (g2.identity, 0)
            | some my_pk ↦ (g2.add g2.identity my_pk, 1)
          ]
          else (g2.identity, 0)) in
      let (pk, count) = collect_keys s.qual_set s.received_public_keys own in
      if count == 0 then none else some pk

  -- `for (from, share) in &self.received_shares`.
  unfoldable pub collect_shares : List ℕ → List (ℕ × VssShare c) → Scalar → Scalar
  collect_shares qual [] sk = sk
  collect_shares qual ((from, share) ∷ rest) sk =
      collect_shares qual rest (if contains qual from then field.add sk share.value else sk)

  unfoldable pub compute_secret_share : DkgState → Option Scalar
  unfolding collect_shares
  compute_secret_share s =
      let sk_j = collect_shares s.qual_set s.received_shares field.zero in
      some (
        if contains s.qual_set s.my_id
        then elim s.my_vss_poly [
          | none ↦ sk_j
          | some poly ↦ field.add sk_j (eval c poly s.my_id).value
        ]
        else sk_j)

  -- `rng` and `os_rng` are the scalars that the two generators yield.
  unfoldable pub start : (ℕ → Scalar) → (ℕ → Scalar) → DkgState → DkgState
  unfolding generate_pop
  start rng os_rng s =
      let sk = rng 0 in
      let pk = g2.mul g2.generator sk in
      record s {
        my_secret = some sk;
        my_public_key = some pk;
        my_pop = some (generate_pop sk pk);
        my_vss_poly = some (random_with_secret c sk s.t s.pedersen os_rng);
        round = round1_commit;
      }

  unfoldable pub my_vss_public : DkgState → Option (VssPublic c)
  my_vss_public s = Options.map (commit_poly c) s.my_vss_poly

  unfoldable pub process_participant_commit :
      ℕ → G2 → G1 → VssPublic c → DkgState → Outcome CryptoError DkgState
  process_participant_commit from public_key pop vss_public s = do
    guard (verify_pop public_key pop) pop_verification_failed
    ok (record s {
      received_public_keys = s.received_public_keys ++ (from, public_key) ∷ [];
      received_pops = s.received_pops ++ (from, pop) ∷ [];
      received_vss_publics = s.received_vss_publics ++ (from, vss_public) ∷ [];
    })

  unfoldable pub shares_for : ℕ → DkgState → Option (VssShare c)
  shares_for recipient s = Options.map (λ p. eval c p recipient) s.my_vss_poly

  -- The share of a sender without a recorded commitment is not checked.
  unfoldable pub share_is_accepted : ℕ → VssShare c → DkgState → Bool
  share_is_accepted from share s = elim (find (λ p. p.0 == from) s.received_vss_publics) [
    | none ↦ true
    | some p ↦ verify_share c p.1 share.index share.value share.blinding s.pedersen
  ]

  unfoldable pub process_received_share : ℕ → VssShare c → DkgState → Outcome CryptoError DkgState
  unfolding share_is_accepted
  process_received_share from share s = do
    guard (share_is_accepted from share s) (share_verification_failed share.index)
    ok (record s { received_shares = s.received_shares ++ (from, share) ∷ [] })

  own_key : DkgState → List (ℕ × G2)
  own_key s = elim s.my_public_key [ none ↦ [] | some pk ↦ (s.my_id, pk) ∷ [] ]

  -- What `finalize` returns once the QUAL set is built.
  unfoldable pub output_of : DkgState → Outcome CryptoError DkgOutput
  unfolding own_key
  output_of s = do
    guard (not (length s.qual_set == 0)) dkg_error
    let qual_shares = length (filter (λ p. contains s.qual_set p.0) s.received_shares)
    guard (not (ltb qual_shares (length s.qual_set - 1))) dkg_error
    my_share ← ok_or (compute_secret_share s) dkg_error
    collective_pk ← ok_or (compute_collective_public_key s) dkg_error
    ok (record {
      my_secret = my_share;
      my_public_key = g2.mul g2.generator my_share;
      all_public_keys = map (λ p. p.1) (sort_by_key (own_key s ++ s.received_public_keys));
      n = s.n;
      f = s.f;
      t = s.t;
      qual_set = s.qual_set;
      collective_pk = collective_pk;
    })

  -- The QUAL set stays built when an error is returned.
  unfoldable pub finalize : DkgState → DkgState × Outcome CryptoError DkgOutput
  unfolding build_qual_set output_of
  finalize s =
      let s' = build_qual_set s in
      elim (output_of s') [
        | ok out ↦ (record s' { round = complete }, ok out)
        | err e ↦ (s', err e)
        | panic ↦ (s', panic)
      ]

  -- `DkgOutput::quorum_size`.
  unfoldable pub quorum_size : DkgOutput → ℕ
  quorum_size o = o.t + 1
