-- ===== src/Mcp/Unfed.antt =====
-- What the MPC state machine of sigimora-mcp/src/protocol.rs passes on to the key generation.
use sigimora_api_backend.Base.{
  ℕ, zero, suc, ◌+◌, ◌-◌, ◌≤◌, ◌≡◌, refl, sym, ap, subst, ◌∙◌, ◌⊎◌, inl, inr, Bool, true, false,
  not, Option, some, none, length, filter, contains, range_from, u16, ltb, ◌==◌, ==_iff, Outcome,
  ok, err, panic, Bool-cases, Option-cases, List, [], ◌∷◌, arith,
}
use sigimora_api_backend.Math.Suite.{Suite}
use sigimora_api_backend.Shamir.{CryptoError}
use sigimora_api_backend.Dkg as Dkg
use sigimora_api_backend.Dkg.{DkgState, DkgOutput, build_qual_set, output_of, finalize}
use sigimora_api_backend.Ats.{NetworkPublicParams}
use sigimora_api_backend.Mcp.{
  McpState, McpPhase, McpError, new, is_allowed, is_phase, is_ready, transition_to, dkg_verify,
  ready, start_dkg, process_dkg_commit, process_dkg_share, finalize_dkg, finalize_stored,
  start_signing_round, process_sign_commitment, process_sign_reveal, combine_signatures,
  verify_combined_signature,
}
use sigimora_api_backend.Mcp.Steps.{
  Step, Steps, Move, Moves, Many-keep, called, moved, started_dkg, got_dkg_commit, got_dkg_share,
  finalized_dkg, started_signing, got_sign_commitment, got_sign_reveal, combined, verified,
}

-- The phases before the key generation is done.
abbrev is_early : McpPhase → Bool
is_early McpPhase.idle = true
is_early McpPhase.dkg_commit = true
is_early McpPhase.dkg_share = true
is_early McpPhase.dkg_verify = true
is_early p = false

length-range_from : (a k : ℕ) → length (range_from a k) ≡ k
length-range_from a zero = refl
length-range_from a (suc k) = ap suc (length-range_from (suc a) k)

filter-All : (xs : List ℕ) → filter (λ x. not false) xs ≡ xs
filter-All [] = refl
filter-All (x ∷ xs) = ap (◌∷◌ x) (filter-All xs)

empty_of : {A : Type 0} (xs : List A) → length xs ≡ 0 → xs ≡ []
empty_of [] h = refl
empty_of (x ∷ xs) h = absurd (omega (arith, h))

early_not_ready : (p : McpPhase) → is_early p ≡ true → is_phase p ready ≡ false
early_not_ready McpPhase.ready h = cc
early_not_ready p h = refl

module _ (c : Suite) where
  -- How much of other parties is in the state of the key generation.
  fed : Option (DkgState c) → ℕ
  fed none = 0
  fed (some d) = length d.received_shares + length d.disqualifications

  is_for : ℕ → Option (DkgState c) → Bool
  is_for n none = true
  is_for n (some d) = d.n == n

  qual_unfed :
      (d : DkgState c)
      → fed (some d) ≡ 0
      → (length (filter (λ id. not (contains d.disqualifications id)) (range_from 1 (u16 d.n)))
          ≡ u16 d.n)
        × (d.received_shares ≡ [])
  unfolding fed
  qual_unfed d h = (
    rw (empty_of d.disqualifications (omega arith))
        (ap length (filter-All (range_from 1 (u16 d.n))) ∙ length-range_from 1 (u16 d.n)),
    empty_of d.received_shares (omega arith),
  )

  output_of_unfed :
      (d : DkgState c)
      → fed (some d) ≡ 0
      → 2 ≤ u16 d.n
      → output_of c (build_qual_set c d) ≡ err CryptoError.dkg_error
  unfolding output_of build_qual_set
  output_of_unfed d h k =
      let (qual, shares) = qual_unfed d h in
      let some_qual : (u16 d.n == 0) ≡ false = ground arith in
      let too_few : ltb 0 (u16 d.n - 1) ≡ true = ground arith in
      rw (qual, shares, some_qual, too_few) refl

  -- With two parties or more, and nothing received, `finalize` returns an error.
  finalize_unfed :
      (d : DkgState c)
      → fed (some d) ≡ 0
      → 2 ≤ u16 d.n
      → Dkg.finalize c d ≡ (build_qual_set c d, err CryptoError.dkg_error)
  unfolding finalize
  finalize_unfed d h k =
      let d' = build_qual_set c d in
      ap
        (λ (r : Outcome CryptoError (DkgOutput c)).
          elim r as (λ x. DkgState c × Outcome CryptoError (DkgOutput c)) [
            | ok out ↦ (record d' { round = Dkg.DkgRound.complete }, ok out)
            | err e ↦ (d', err e)
            | panic ↦ (d', panic)
          ])
        (output_of_unfed d h k)

  -- Whatever is called, the state of the key generation has got nothing of other parties.
  unfoldable IsUnfed : ℕ → McpState c → Type 0
  IsUnfed n s = (s.n ≡ n) × (fed s.dkg_state ≡ 0) × (is_for n s.dkg_state ≡ true)

  -- How `finalize_dkg` then ends, and what it leaves: refused, without a key generation, or with an
  -- error of it.
  finalize_dkg-cases :
      (n : ℕ) (s : McpState c)
      → 2 ≤ u16 n
      → IsUnfed n s
      → ((finalize_dkg c s ≡ (s, err (McpError.invalid_state_transition s.phase dkg_verify)))
          ⊎ ((finalize_dkg c s).1 ≡ err McpError.dkg_error))
        × IsUnfed n (finalize_dkg c s).0
        × (is_early s.phase ≡ true → is_early (finalize_dkg c s).0.phase ≡ true)
  unfolding IsUnfed finalize_dkg transition_to finalize_stored
  finalize_dkg-cases n s k (same_n, h, o) = elim (Bool-cases (is_allowed s.phase dkg_verify)) [
    | inr e ↦ rw (e) (inl refl, (same_n, h, o), λ i. i)
    | inl e ↦ elim (Option-cases s.dkg_state) [
      | inl q ↦ rw (e, q) (inr refl, (same_n, h, o), λ i. refl)
      | inr (d, q) ↦
          let size : d.n ≡ n =
            unfold is_for in (==_iff d.n n).0 (subst (λ x. is_for n x ≡ true) q o) in
          let nothing : fed (some d) ≡ 0 = subst (λ x. fed x ≡ 0) q h in
          rw (e, q, finalize_unfed d nothing (subst (λ x. 2 ≤ u16 x) (sym size) k))
            (
              inr refl,
              (
                same_n,
                unfold fed build_qual_set in nothing,
                unfold is_for build_qual_set in ((==_iff d.n n).1 size),
              ),
              λ i. refl,
            )
    ]
  ]

  Step-IsUnfed :
      (n : ℕ) → 2 ≤ u16 n → (s s' : McpState c) → Step c s s' → IsUnfed n s → IsUnfed n s'
  Step-IsUnfed n k s _ (started_dkg a b d e) i =
      unfold IsUnfed start_dkg transition_to fed is_for Dkg.new Dkg.start in ground arith
  Step-IsUnfed n k s _ (got_dkg_commit a b d e) i =
      unfold IsUnfed process_dkg_commit transition_to in ground arith
  Step-IsUnfed n k s _ (got_dkg_share a b d) i =
      unfold IsUnfed process_dkg_share transition_to in ground arith
  Step-IsUnfed n k s _ finalized_dkg i = (finalize_dkg-cases n s k i).1
  Step-IsUnfed n k s _ started_signing i =
      unfold IsUnfed start_signing_round transition_to in ground arith
  Step-IsUnfed n k s _ (got_sign_commitment a b d) i =
      unfold IsUnfed process_sign_commitment transition_to in ground arith
  Step-IsUnfed n k s _ (got_sign_reveal a b d) i =
      unfold IsUnfed process_sign_reveal transition_to in ground arith
  Step-IsUnfed n k s _ (combined a b) i =
      unfold IsUnfed combine_signatures transition_to in ground arith
  Step-IsUnfed n k s _ (verified a b d) i =
      unfold IsUnfed verify_combined_signature transition_to in ground arith

  Move-IsUnfed :
      (n : ℕ) → 2 ≤ u16 n → (s s' : McpState c) → Move c s s' → IsUnfed n s → IsUnfed n s'
  Move-IsUnfed n k s s' (called st) i = Step-IsUnfed n k s s' st i
  Move-IsUnfed n k s _ (moved p) i = unfold IsUnfed transition_to in ground arith

  -- The methods of `McpProtocol` then do not end the key generation.
  Step-is_early :
      (n : ℕ)
      → 2 ≤ u16 n
      → (s s' : McpState c) → Step c s s'
      → IsUnfed n s × (is_early s.phase ≡ true)
      → IsUnfed n s' × (is_early s'.phase ≡ true)
  Step-is_early n k s s' st (u, i) = (Step-IsUnfed n k s s' st u, early s' st)
    where
      early : (s' : McpState c) → Step c s s' → is_early s'.phase ≡ true
      early _ (started_dkg a b d e) = unfold start_dkg transition_to in ground arith
      early _ (got_dkg_commit a b d e) = unfold process_dkg_commit transition_to in ground arith
      early _ (got_dkg_share a b d) = unfold process_dkg_share transition_to in ground arith
      early _ finalized_dkg = (finalize_dkg-cases n s k u).2 i
      early _ started_signing = unfold start_signing_round transition_to in ground arith
      early _ (got_sign_commitment a b d) =
          unfold process_sign_commitment transition_to in ground arith
      early _ (got_sign_reveal a b d) = unfold process_sign_reveal transition_to in ground arith
      early _ (combined a b) = unfold combine_signatures transition_to in ground arith
      early _ (verified a b d) = unfold verify_combined_signature transition_to in ground arith

  -- With two parties or more, counted as a `u16`, no party that has been created, with whatever
  -- network parameters, gets a key: after any calls of the methods of `McpProtocol` and of
  -- `transition_to` on its state, `finalize_dkg` returns an error of the key generation, or is refused
  -- and changes nothing. Called by the methods of `McpProtocol` alone, the party is never ready.
  pub finalize_dkg-new :
      (n t my_id : ℕ) (given : Option (NetworkPublicParams c)) (s s' : McpState c)
      → 2 ≤ u16 n
      → Moves c (record (new c n t my_id) { network_params = given }) s
      → Steps c (record (new c n t my_id) { network_params = given }) s'
      → ((finalize_dkg c s ≡ (s, err (McpError.invalid_state_transition s.phase dkg_verify)))
          ⊎ ((finalize_dkg c s).1 ≡ err McpError.dkg_error))
        × (is_ready c s' ≡ false)
  unfolding is_ready
  finalize_dkg-new n t my_id given s s' k moves steps =
      let at_start : IsUnfed n (record (new c n t my_id) { network_params = given }) =
        unfold IsUnfed new fed is_for in (refl, refl, refl) in
      let now = Many-keep c (Move c) (IsUnfed n) (Move-IsUnfed n k) moves at_start in
      let early =
        Many-keep c (Step c) (λ x. IsUnfed n x × (is_early x.phase ≡ true)) (Step-is_early n k)
          steps (at_start, unfold new in refl) in
      ((finalize_dkg-cases n s k now).0, early_not_ready s'.phase early.1)
