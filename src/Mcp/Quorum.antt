-- ===== src/Mcp/Quorum.antt =====
-- How many reveals a party of sigimora-mcp/src/protocol.rs holds when it combines them.
use sigimora_api_backend.Base.{
  ℕ, ◌≤◌, ◌<◌, ◌≡◌, refl, subst, Bool, true, false, length, length-append, length-map, ok, List, [],
  ◌∷◌, arith,
}
use sigimora_api_backend.Math.Suite.{Suite}
use sigimora_api_backend.Ats.{NetworkPublicParams, AtsSignature, PartialSignature, aggregate}
use sigimora_api_backend.Mcp.{
  McpState, McpPhase, transition_to, ready, start_dkg, process_dkg_commit, process_dkg_share,
  finalize_dkg, finalize_stored, start_signing_round, process_sign_commitment, process_sign_reveal,
  combine_signatures, verify_combined_signature, quorum_size,
}
use sigimora_api_backend.Mcp.Steps.{
  Step, Steps, Many-keep, started_dkg, got_dkg_commit, got_dkg_share, finalized_dkg,
  started_signing, got_sign_commitment, got_sign_reveal, combined, verified,
}
use sigimora_api_backend.Mcp.Combine.{combine_signatures_ok}

abbrev is_collecting : McpPhase → Bool
is_collecting McpPhase.sign_commit = true
is_collecting McpPhase.sign_reveal = true
is_collecting p = false

module _ (c : Suite) where
  -- While a party collects commitments and reveals, it holds at most `t` reveals.
  unfoldable IsBelowQuorum : McpState c → Type 0
  IsBelowQuorum s = is_collecting s.phase ≡ true → length s.received_sign_reveals ≤ s.t

  Step-IsBelowQuorum : (s s' : McpState c) → Step c s s' → IsBelowQuorum s → IsBelowQuorum s'
  unfolding IsBelowQuorum
  Step-IsBelowQuorum s _ (started_dkg a b d e) i = unfold start_dkg transition_to in ground arith
  Step-IsBelowQuorum s _ (got_dkg_commit a b d e) i =
      unfold process_dkg_commit transition_to in ground arith
  Step-IsBelowQuorum s _ (got_dkg_share a b d) i =
      unfold process_dkg_share transition_to in ground arith
  Step-IsBelowQuorum s _ finalized_dkg i =
      unfold finalize_dkg transition_to finalize_stored in ground arith
  Step-IsBelowQuorum s _ started_signing i =
      unfold start_signing_round transition_to in ground arith
  Step-IsBelowQuorum s _ (got_sign_commitment a b d) i =
      unfold process_sign_commitment transition_to in ground arith
  Step-IsBelowQuorum s _ (got_sign_reveal a b d) i =
      unfold process_sign_reveal transition_to quorum_size in
      ground (arith, length-append s.received_sign_reveals ((a, b, d) ∷ []))
  Step-IsBelowQuorum s _ (combined a b) i = unfold combine_signatures transition_to in ground arith
  Step-IsBelowQuorum s _ (verified a b d) i =
      unfold verify_combined_signature transition_to in ground arith

  aggregate_enough :
      (partials : List (PartialSignature c)) (params : NetworkPublicParams c) (epoch id : ℕ)
      (sig : AtsSignature c)
      → aggregate c partials params epoch id ≡ ok sig
      → params.threshold ≤ length partials
  unfolding aggregate
  aggregate_enough partials params epoch id sig e = ground arith

  -- From a party that is ready, after any calls of the methods of `McpProtocol`, without `transition_to`
  -- on its state in between, `combine_signatures` returns a signature only from fewer reveals than a
  -- quorum, and from at least the threshold of the parameters it is called with.
  pub combine_signatures-ready :
      (before s : McpState c) (params : NetworkPublicParams c) (epoch : ℕ) (sig : AtsSignature c)
      → before.phase ≡ ready
      → Steps c before s
      → (combine_signatures c params epoch s).1 ≡ ok sig
      → (length s.received_sign_reveals < quorum_size c s)
        × (params.threshold ≤ length s.received_sign_reveals)
  combine_signatures-ready before s params epoch sig e steps r =
      let (phase, _, built) = combine_signatures_ok c s params epoch sig r in
      let start : IsBelowQuorum before = unfold IsBelowQuorum in rw (e) (λ h. cc) in
      let below = Many-keep c (Step c) IsBelowQuorum Step-IsBelowQuorum steps start in
      let at_most : length s.received_sign_reveals ≤ s.t =
        unfold IsBelowQuorum in below (rw (phase) refl) in
      let enough = aggregate_enough _ params epoch s.my_id sig built in
      (
        unfold quorum_size in omega (arith, at_most),
        subst (λ k. params.threshold ≤ k) (length-map (λ r. r.1) s.received_sign_reveals) enough,
      )
