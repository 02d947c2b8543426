-- ===== src/Mcp.antt =====
-- sigimora-mcp/src/protocol.rs: the state machine of one party. A hash map is the list of its
-- entries, the messages of an error are left out, and what `OsRng` yields is an argument.
pub mod Steps
pub mod Combine
pub mod Deadlock
pub mod Quorum
pub mod Unfed
pub mod Distribute
use sigimora_api_backend.Base.{
  insert_entry, ℕ, ◌+◌, ◌-◌, Bool, true, false, not, ◌&&◌, Option, some, none, List, [], ◌∷◌, ◌++◌,
  map, length, find, ltb, leb, ◌==◌, if◌then◌else◌, Outcome, ok, err, panic, guard, ok_or, map_err,
}
use sigimora_api_backend.Base.Stateful.{Run, ◌>>=◌, ◌>>◌, pure, get, modify, lift}
use sigimora_api_backend.Math.Suite.{Suite, Bytes}
use sigimora_api_backend.Shamir.{CryptoError}
use sigimora_api_backend.Pedersen.{PedersenSetup, VssPublic}
use sigimora_api_backend.Dkg as Dkg
use sigimora_api_backend.Dkg.{DkgState, DkgOutput, my_vss_public, shares_for}
use sigimora_api_backend.Dkg.Ecies.{encrypt_share}
use mathlib.Core.Option as Options
use sigimora_api_backend.Zkp.{
  StakeProof, ComplianceProof, MembershipProof, ZkpError, generate_stake_proof, verify_stake_proof,
  generate_compliance_proof, verify_compliance_proof, generate_membership_proof,
  verify_membership_proof,
}
use sigimora_api_backend.Ats as Ats
use sigimora_api_backend.Ats.{
  PartialSignature, SignerConfig, NetworkPublicParams, AtsSignature, AtsError, sign_partial,
  aggregate,
}

-- `b"SIGIMORA_MCP_SIG"`.
abbrev mcp_tag : Bytes
mcp_tag = 83 ∷ 73 ∷ 71 ∷ 73 ∷ 77 ∷ 79 ∷ 82 ∷ 65 ∷ 95 ∷ 77 ∷ 67 ∷ 80 ∷ 95 ∷ 83 ∷ 73 ∷ 71 ∷ []

pub data McpPhase : Type 0 where
  idle dkg_commit dkg_share dkg_verify ready sign_commit sign_reveal sign_combine verify_zkp :
      McpPhase

pub data McpError : Type 0 where
  protocol_error : McpError
  dkg_error : McpError
  signature_error : AtsError → McpError
  zkp_verification_failed : ZkpError → McpError
  invalid_state_transition : McpPhase → McpPhase → McpError

-- The table of `McpState::transition_to`.
abbrev pub is_allowed : McpPhase → McpPhase → Bool
is_allowed idle dkg_commit = true
is_allowed dkg_commit dkg_share = true
is_allowed dkg_share dkg_verify = true
is_allowed dkg_verify ready = true
is_allowed ready sign_commit = true
is_allowed sign_commit sign_reveal = true
is_allowed sign_reveal sign_combine = true
is_allowed sign_combine verify_zkp = true
is_allowed verify_zkp ready = true
is_allowed _ _ = false

abbrev phase_number : McpPhase → ℕ
phase_number idle = 0
phase_number dkg_commit = 1
phase_number dkg_share = 2
phase_number dkg_verify = 3
phase_number ready = 4
phase_number sign_commit = 5
phase_number sign_reveal = 6
phase_number sign_combine = 7
phase_number verify_zkp = 8

-- `self.phase == phase`, the derived equality.
abbrev pub is_phase : McpPhase → McpPhase → Bool
is_phase p q = phase_number p == phase_number q

module _ (c : Suite) where
  open c use {Scalar, G1, G2, field, g1, g2}

  pub record McpState : Type 0 where
    pub n : ℕ
    pub t : ℕ
    pub my_id : ℕ
    pub phase : McpPhase
    pub dkg_state : Option (DkgState c)
    pub my_signer_config : Option (SignerConfig c)
    pub network_params : Option (NetworkPublicParams c)
    pub received_commits : List (ℕ × (G2 × VssPublic c × StakeProof c))
    pub received_shares : List (ℕ × Bytes × ComplianceProof c)
    pub received_sign_commits : List (ℕ × (G1 × MembershipProof c))
    pub received_sign_reveals : List (ℕ × PartialSignature c × ComplianceProof c)

  -- `McpState::new`, which `McpProtocol::new` calls.
  unfoldable pub new : ℕ → ℕ → ℕ → McpState
  new n t my_id = record {
    n = n;
    t = t;
    my_id = my_id;
    phase = idle;
    dkg_state = none;
    my_signer_config = none;
    network_params = none;
    received_commits = [];
    received_shares = [];
    received_sign_commits = [];
    received_sign_reveals = [];
  }

  abbrev Method : Type 0 → Type 0
  Method A = Run McpState McpError A

  unfoldable pub transition_to : McpPhase → Method (Unit {0})
  transition_to phase s =
      if is_allowed s.phase phase
      then (record s { phase = phase }, ok tt)
      else (s, err (invalid_state_transition s.phase phase))

  unfoldable pub is_ready : McpState → Bool
  is_ready s = is_phase s.phase ready

  unfoldable pub quorum_size : McpState → ℕ
  quorum_size s = s.t + 1

  -- `if self.state.phase != phase { return Err(..) }`.
  abbrev require_phase : McpPhase → Method (Unit {0})
  require_phase phase s = (s, guard (is_phase s.phase phase) protocol_error)

  abbrev zkp_check : Outcome ZkpError (Unit {0}) → Method (Unit {0})
  zkp_check r = lift (map_err zkp_verification_failed r)

  -- `sk_rng` and `os_rng` are the generators of `DkgState::start`, `zkp_rng` that of the proof.
  unfoldable pub start_dkg :
      PedersenSetup c
      → (ℕ → Scalar)
      → (ℕ → Scalar)
      → (ℕ → Scalar)
      → Method (G2 × VssPublic c × StakeProof c)
  unfolding transition_to
  start_dkg pedersen sk_rng os_rng zkp_rng = do
    transition_to dkg_commit
    s ← get
    fresh ← lift (Dkg.new c s.n s.t s.my_id pedersen)
    let dkg = Dkg.start c sk_rng os_rng fresh
    my_pk ← lift (ok_or dkg.my_public_key dkg_error)
    my_vss ← lift (ok_or (my_vss_public c dkg) dkg_error)
    let stake_proof = generate_stake_proof c my_pk dkg.my_secret zkp_rng
    modify (λ s. record s {
      dkg_state = some dkg;
      received_commits = insert_entry s.my_id (my_pk, my_vss, stake_proof) s.received_commits;
    })
    pure (my_pk, my_vss, stake_proof)

  unfoldable pub process_dkg_commit : ℕ → G2 → VssPublic c → StakeProof c → Method (Unit {0})
  unfolding transition_to
  process_dkg_commit from public_key vss_public stake_proof = do
    require_phase dkg_commit
    zkp_check (verify_stake_proof c public_key stake_proof)
    modify (λ s. record s {
      received_commits = insert_entry from (public_key, vss_public, stake_proof) s.received_commits;
    })
    s ← get
    if leb s.n (length s.received_commits) then transition_to dkg_share else pure tt

  -- The key that a participant's recorded commit has.
  unfoldable pub recorded_key : ℕ → McpState → Option G2
  recorded_key recipient s =
      Options.map (λ (e : ℕ × (G2 × VssPublic c × StakeProof c)). e.1.0)
        (find (λ e. e.0 == recipient) s.received_commits)

  -- `ephemeral_sk` and `rng_u64` are what the generator yields, `zkp_rng` those of the proof.
  unfoldable pub distribute_dkg_share :
      ℕ → Scalar → ℕ → (ℕ → Scalar) → Method (ℕ × Bytes × ComplianceProof c)
  unfolding recorded_key
  distribute_dkg_share recipient ephemeral_sk rng_u64 zkp_rng = do
    s ← get
    dkg ← lift (ok_or s.dkg_state dkg_error)
    share ← lift (ok_or (shares_for c recipient dkg) dkg_error)
    recipient_pk ← lift (ok_or (recorded_key recipient s) dkg_error)
    let encrypted = encrypt_share c share recipient_pk ephemeral_sk rng_u64
    pure (recipient, encrypted, generate_compliance_proof c zkp_rng)

  unfoldable pub process_dkg_share : ℕ → Bytes → ComplianceProof c → Method (Unit {0})
  unfolding transition_to
  process_dkg_share from encrypted_share compliance_proof = do
    require_phase dkg_share
    zkp_check (verify_compliance_proof c from encrypted_share compliance_proof)
    modify (λ s. record s {
      received_shares = s.received_shares ++ (from, encrypted_share, compliance_proof) ∷ [];
    })
    s ← get
    others ← lift (if leb 1 s.n then ok (s.n - 1) else panic)
    if leb others (length s.received_shares) then transition_to dkg_verify else pure tt

  -- `dkg.finalize()` on the stored state, which it changes in place.
  unfoldable pub finalize_stored : DkgState c → Method (DkgOutput c)
  finalize_stored dkg s =
      let (dkg', r) = Dkg.finalize c dkg in
      (record s { dkg_state = some dkg' }, map_err (λ e. dkg_error) r)

  unfoldable pub finalize_dkg : Method (DkgOutput c)
  unfolding transition_to finalize_stored
  finalize_dkg = do
    transition_to dkg_verify
    s ← get
    dkg ← lift (ok_or s.dkg_state dkg_error)
    output ← finalize_stored dkg
    transition_to ready
    pure output

  unfoldable pub start_signing_round : Method (Unit {0})
  unfolding transition_to
  start_signing_round = do
    transition_to sign_commit
    modify (λ s. record s { received_sign_commits = []; received_sign_reveals = [] })

  unfoldable create_sign_commitment :
      Bytes → SignerConfig c → (ℕ → Scalar) → Method (G1 × MembershipProof c)
  create_sign_commitment msg signer zkp_rng = do
    s ← get
    params ← lift (ok_or s.network_params protocol_error)
    pure (
      g1.mul (c.hash_to_g1 msg mcp_tag) signer.dkg_share,
      generate_membership_proof c signer.lt_sk zkp_rng,
    )

  unfoldable pub process_sign_commitment : ℕ → G1 → MembershipProof c → Method (Unit {0})
  unfolding transition_to quorum_size
  process_sign_commitment from commitment membership_proof = do
    require_phase sign_commit
    s ← get
    params ← lift (ok_or s.network_params protocol_error)
    zkp_check (verify_membership_proof c from membership_proof params.member_pks)
    modify (λ s. record s {
      received_sign_commits =
          insert_entry from (commitment, membership_proof) s.received_sign_commits;
    })
    s ← get
    if leb (quorum_size s) (length s.received_sign_commits)
        then transition_to sign_reveal
        else pure tt

  unfoldable create_sign_reveal :
      Bytes
      → SignerConfig c
      → G2
      → Scalar
      → Bytes
      → (ℕ → Scalar)
      → Method (PartialSignature c × ComplianceProof c)
  create_sign_reveal msg signer tracking_pk r nonce zkp_rng =
      pure (sign_partial c signer msg tracking_pk r nonce, generate_compliance_proof c zkp_rng)

  unfoldable pub process_sign_reveal :
      ℕ → PartialSignature c → ComplianceProof c → Method (Unit {0})
  unfolding transition_to quorum_size
  process_sign_reveal from partial_sig compliance_proof = do
    require_phase sign_reveal
    zkp_check
        (verify_compliance_proof c from (c.g1_code.to_bytes partial_sig.sigma) compliance_proof)
    modify (λ s. record s {
      received_sign_reveals = s.received_sign_reveals ++ (from, partial_sig, compliance_proof) ∷ [];
    })
    s ← get
    if leb (quorum_size s) (length s.received_sign_reveals)
        then transition_to sign_combine
        else pure tt

  -- The message and the aggregator's id that are passed are not read.
  unfoldable pub combine_signatures : NetworkPublicParams c → ℕ → Method (AtsSignature c)
  unfolding transition_to
  combine_signatures params epoch = do
    transition_to sign_combine
    s ← get
    sig ← lift (
        map_err signature_error
          (aggregate c (map (λ r. r.1) s.received_sign_reveals) params epoch s.my_id))
    transition_to verify_zkp
    pure sig

  unfoldable pub verify_combined_signature :
      NetworkPublicParams c → Bytes → AtsSignature c → Method Bool
  unfolding transition_to
  verify_combined_signature params msg sig = do
    transition_to verify_zkp
    let valid = Ats.verify c params msg sig
    if valid then transition_to ready else pure tt
    pure valid
