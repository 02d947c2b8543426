-- ===== src/Mcp/Deadlock.antt =====
-- The phases of sigimora-mcp/src/protocol.rs that no method of `McpProtocol` leaves, so that only
-- `transition_to` on the party's public state leads on.
use sigimora_api_backend.Base.{
  ℕ, suc, ◌-◌, ◌≤◌, ◌≡◌, refl, sym, ap, subst, ◌∙◌, ◌⊎◌, inl, inr, Bool, true, false, length,
  length-append, leb, ok, err, Outcome-cases, Bool-cases, [], ◌∷◌, ◌++◌, arith,
}
use sigimora_api_backend.Math.Suite.{Suite, Bytes}
use sigimora_api_backend.Zkp.{ComplianceProof, verify_compliance_proof}
use sigimora_api_backend.Ats.{NetworkPublicParams, AtsSignature}
use sigimora_api_backend.Mcp.{
  McpState, McpPhase, McpError, is_allowed, is_phase, transition_to, dkg_commit, dkg_share,
  dkg_verify, sign_commit, sign_reveal, sign_combine, verify_zkp, ready, finalize_stored, start_dkg,
  process_dkg_commit, process_dkg_share, finalize_dkg, start_signing_round, process_sign_commitment,
  process_sign_reveal, combine_signatures, verify_combined_signature,
}
use sigimora_api_backend.Mcp.Combine.{combine_signatures_ok}
use sigimora_api_backend.Mcp.Steps.{
  Step, Steps, Move, Moves, Many-keep, called, moved, none_yet, one_more, started_dkg,
  got_dkg_commit, got_dkg_share, finalized_dkg, started_signing, got_sign_commitment,
  got_sign_reveal, combined, verified,
}

-- The phases that wait for a call which itself wants to enter the phase.
abbrev IsDead : McpPhase → Type 0
IsDead p = (p ≡ dkg_verify) ⊎ (p ≡ verify_zkp)

-- What a dead phase does not lead to, and which phases it is not.
refused :
    (p : McpPhase)
    → IsDead p
    → (is_allowed p dkg_commit ≡ false)
      × (is_allowed p dkg_verify ≡ false)
      × (is_allowed p sign_commit ≡ false)
      × (is_allowed p sign_combine ≡ false)
      × (is_allowed p verify_zkp ≡ false)
refused p (inl e) = rw (e) (refl, refl, refl, refl, refl)
refused p (inr e) = rw (e) (refl, refl, refl, refl, refl)

absent :
    (p : McpPhase)
    → IsDead p
    → (is_phase p dkg_commit ≡ false)
      × (is_phase p dkg_share ≡ false)
      × (is_phase p sign_commit ≡ false)
      × (is_phase p sign_reveal ≡ false)
absent p (inl e) = rw (e) (refl, refl, refl, refl)
absent p (inr e) = rw (e) (refl, refl, refl, refl)

verify_leads : (q : McpPhase) → is_allowed dkg_verify q ≡ true → q ≡ ready
verify_leads McpPhase.ready h = refl
verify_leads q h = cc

zkp_leads : (q : McpPhase) → is_allowed verify_zkp q ≡ true → q ≡ ready
zkp_leads McpPhase.ready h = refl
zkp_leads q h = cc

-- Of what the table allows, a dead phase leads to `Ready` alone.
only_ready : (p q : McpPhase) → IsDead p → is_allowed p q ≡ true → q ≡ ready
only_ready p q (inl e) h = verify_leads q (rw (e) at h)
only_ready p q (inr e) h = zkp_leads q (rw (e) at h)

-- The phases that do not lead back to those of the key generation.
abbrev is_late : McpPhase → Bool
is_late McpPhase.idle = false
is_late McpPhase.dkg_commit = false
is_late McpPhase.dkg_share = false
is_late p = true

late_next : (p q : McpPhase) → is_late p ≡ true → is_allowed p q ≡ true → is_late q ≡ true
late_next p q i h = ground arith

late_refused : (p : McpPhase) → is_late p ≡ true → is_allowed p dkg_verify ≡ false
late_refused p i = ground arith

module _ (c : Suite) where
  -- In these two phases every method of `McpProtocol` leaves the whole state as it is.
  dead-Step : (s s' : McpState c) → Step c s s' → IsDead s.phase → s' ≡ s
  dead-Step s _ (started_dkg a b d e) h =
      unfold start_dkg transition_to in rw ((refused s.phase h).0) refl
  dead-Step s _ (got_dkg_commit a b d e) h =
      unfold process_dkg_commit in rw ((absent s.phase h).0) refl
  dead-Step s _ (got_dkg_share a b d) h = unfold process_dkg_share in rw ((absent s.phase h).1) refl
  dead-Step s _ finalized_dkg h =
      unfold finalize_dkg transition_to in rw ((refused s.phase h).1) refl
  dead-Step s _ started_signing h =
      unfold start_signing_round transition_to in rw ((refused s.phase h).2) refl
  dead-Step s _ (got_sign_commitment a b d) h =
      unfold process_sign_commitment in rw ((absent s.phase h).2) refl
  dead-Step s _ (got_sign_reveal a b d) h =
      unfold process_sign_reveal in rw ((absent s.phase h).3) refl
  dead-Step s _ (combined a b) h =
      unfold combine_signatures transition_to in rw ((refused s.phase h).3) refl
  dead-Step s _ (verified a b d) h =
      unfold verify_combined_signature transition_to in rw ((refused s.phase h).4) refl

  stuck : (s s' : McpState c) → Steps c s s' → IsDead s.phase → s' ≡ s
  stuck s s' steps h =
      Many-keep c (Step c) (λ x. x ≡ s)
        (λ x x' st e. dead-Step x x' st (subst (λ y. IsDead y.phase) (sym e) h) ∙ e) steps refl

  abbrev at_ready : McpState c → McpState c
  at_ready s = record s { phase = ready }

  -- `transition_to` leads on to `Ready` alone.
  dead-transition_to :
      (s : McpState c) (p : McpPhase)
      → IsDead s.phase
      → ((transition_to c p s).0 ≡ s) ⊎ ((transition_to c p s).0 ≡ at_ready s)
  unfolding transition_to
  dead-transition_to s p h = elim (Bool-cases (is_allowed s.phase p)) [
    | inr e ↦ rw (e) (inl refl)
    | inl e ↦ rw (e) (inr (ap (λ q. record s { phase = q }) (only_ready s.phase p h e)))
  ]

  dead-Move : (s s' : McpState c) → Move c s s' → IsDead s.phase → (s' ≡ s) ⊎ (s' ≡ at_ready s)
  dead-Move s s' (called st) h = inl (dead-Step s s' st h)
  dead-Move s _ (moved p) h = dead-transition_to s p h

  dead-Moves :
      (s s' : McpState c) → Moves c s s' → IsDead s.phase → (s' ≡ s) ⊎ Moves c (at_ready s) s'
  dead-Moves s _ none_yet h = inl refl
  dead-Moves s _ (one_more s' s'' ms m) h = elim (dead-Moves s s' ms h) [
    | inr on ↦ inr (one_more s' s'' on m)
    | inl e ↦ elim (dead-Move s s'' (subst (λ x. Move c x s'') e m) h) [
      | inl q ↦ inl q
      | inr q ↦ inr (subst (Moves c (at_ready s)) (sym q) none_yet)
    ]
  ]

  -- Once a party is in the phase DKG verification or ZKP verification, no sequence of calls of the
  -- methods of `McpProtocol` changes anything of its state. With `transition_to` on the state too, a
  -- sequence of calls that changes anything passes by the phase `Ready`, with nothing else changed on
  -- the way to it.
  pub dead-Steps :
      (s s' s'' : McpState c)
      → Steps c s s'
      → Moves c s s''
      → IsDead s.phase
      → (s' ≡ s) × ((s'' ≡ s) ⊎ Moves c (record s { phase = ready }) s'')
  dead-Steps s s' s'' steps moves h = (stuck s s' steps h, dead-Moves s s'' moves h)

  -- After the shares have come in, no call leads back to receiving them.
  Step-is_late :
      (s s' : McpState c) → Step c s s' → is_late s.phase ≡ true → is_late s'.phase ≡ true
  Step-is_late s _ (started_dkg a b d e) i = unfold start_dkg transition_to in ground arith
  Step-is_late s _ (got_dkg_commit a b d e) i =
      unfold process_dkg_commit transition_to in ground arith
  Step-is_late s _ (got_dkg_share a b d) i = unfold process_dkg_share transition_to in ground arith
  Step-is_late s _ finalized_dkg i =
      unfold finalize_dkg transition_to finalize_stored in ground arith
  Step-is_late s _ started_signing i = unfold start_signing_round transition_to in ground arith
  Step-is_late s _ (got_sign_commitment a b d) i =
      unfold process_sign_commitment transition_to in ground arith
  Step-is_late s _ (got_sign_reveal a b d) i =
      unfold process_sign_reveal transition_to in ground arith
  Step-is_late s _ (combined a b) i = unfold combine_signatures transition_to in ground arith
  Step-is_late s _ (verified a b d) i =
      unfold verify_combined_signature transition_to in ground arith

  Move-is_late :
      (s s' : McpState c) → Move c s s' → is_late s.phase ≡ true → is_late s'.phase ≡ true
  Move-is_late s s' (called st) i = Step-is_late s s' st i
  Move-is_late s _ (moved p) i =
      unfold transition_to in
      elim (Bool-cases (is_allowed s.phase p)) [
        | inl e ↦ rw (e) (late_next s.phase p i e)
        | inr e ↦ rw (e) i
      ]

  process_dkg_share_last :
      (s : McpState c) (from : ℕ) (share : Bytes) (proof : ComplianceProof c)
      → s.phase ≡ dkg_share
      → (process_dkg_share c from share proof s).1 ≡ ok tt
      → s.n - 1 ≤ suc (length s.received_shares)
      → (process_dkg_share c from share proof s).0.phase ≡ dkg_verify
  unfolding process_dkg_share transition_to
  process_dkg_share_last s from share proof e accepted enough =
      let full : leb (s.n - 1) (length (s.received_shares ++ (from, share, proof) ∷ [])) ≡ true =
        ground (arith, length-append s.received_shares ((from, share, proof) ∷ [])) in
      elim (Outcome-cases (verify_compliance_proof c from share proof)) [
        | inl (_, passed) ↦ elim (Bool-cases (leb 1 s.n)) [
          | inl some_party ↦ rw (e, passed, some_party, full) refl
          | inr no_party ↦ let no = rw (e, passed, no_party) at accepted in cc
        ]
        | inr (inl (_, failed)) ↦ let no = rw (e, failed) at accepted in cc
        | inr (inr failed) ↦ let no = rw (e, failed) at accepted in cc
      ]

  -- A party that accepts the last of the `n - 1` shares it waits for never finishes the key
  -- generation: `finalize_dkg` returns an error after any calls of the methods of `McpProtocol`, by
  -- which the party stays in the phase DKG verification, and also after any calls of these methods and
  -- of `transition_to` on its state.
  pub finalize_dkg-process_dkg_share :
      (s s' s'' : McpState c) (from : ℕ) (share : Bytes) (proof : ComplianceProof c)
      → s.phase ≡ dkg_share
      → (process_dkg_share c from share proof s).1 ≡ ok tt
      → s.n - 1 ≤ suc (length s.received_shares)
      → Steps c (process_dkg_share c from share proof s).0 s'
      → Moves c (process_dkg_share c from share proof s).0 s''
      → ((finalize_dkg c s').1 ≡ err (McpError.invalid_state_transition dkg_verify dkg_verify))
        × ((finalize_dkg c s'').1 ≡ err (McpError.invalid_state_transition s''.phase dkg_verify))
  finalize_dkg-process_dkg_share s s' s'' from share proof e accepted enough steps moves =
      let last = process_dkg_share_last s from share proof e accepted enough in
      let same = ap (λ x. x.phase) (stuck _ s' steps (inl last)) ∙ last in
      let late =
        Many-keep c (Move c) (λ x. is_late x.phase ≡ true) Move-is_late moves (rw (last) refl) in
      (
        unfold finalize_dkg transition_to in rw (same) refl,
        unfold finalize_dkg transition_to in rw (late_refused s''.phase late) refl,
      )

  -- After `combine_signatures` returned a signature, no sequence of calls of the methods of
  -- `McpProtocol` brings the party back to signing, and verifying the signature returns an error. Only
  -- `transition_to` on its state, called directly, leads on: it is allowed to enter `Ready`.
  pub verify_combined_signature-combine_signatures :
      (s s' : McpState c) (params : NetworkPublicParams c) (epoch : ℕ) (sig sig' : AtsSignature c)
      (msg : Bytes)
      → (combine_signatures c params epoch s).1 ≡ ok sig
      → Steps c (combine_signatures c params epoch s).0 s'
      → ((verify_combined_signature c params msg sig' s').1
          ≡ err (McpError.invalid_state_transition verify_zkp verify_zkp))
        × ((start_signing_round c s').1
            ≡ err (McpError.invalid_state_transition verify_zkp sign_commit))
        × (transition_to c ready s' ≡ (record s' { phase = ready }, ok tt))
  verify_combined_signature-combine_signatures s s' params epoch sig sig' msg e steps =
      let (_, phase, _) = combine_signatures_ok c s params epoch sig e in
      let same = ap (λ x. x.phase) (stuck _ s' steps (inr phase)) ∙ phase in
      (
        unfold verify_combined_signature transition_to in rw (same) refl,
        unfold start_signing_round transition_to in rw (same) refl,
        unfold transition_to in rw (same) refl,
      )
