-- ===== src/Mcp/Combine.antt =====
-- What `combine_signatures` of sigimora-mcp/src/protocol.rs does when it returns a signature.
use sigimora_api_backend.Base.{
  ℕ, ◌≡◌, refl, sym, ap, subst, ◌∙◌, inl, inr, true, Outcome, ok, err, panic, Outcome-cases,
  Bool-cases, map,
}
use sigimora_api_backend.Math.Suite.{Suite}
use sigimora_api_backend.Zkp.{ComplianceProof}
use sigimora_api_backend.Ats.{NetworkPublicParams, AtsSignature, PartialSignature, aggregate}
use sigimora_api_backend.Mcp.{
  McpState, McpPhase, McpError, is_allowed, transition_to, sign_reveal, sign_combine, verify_zkp,
  combine_signatures,
}

-- Only the reveal phase leads to combining.
only_reveal : (p : McpPhase) → is_allowed p sign_combine ≡ true → p ≡ sign_reveal
only_reveal McpPhase.sign_reveal h = refl
only_reveal p h = cc

module _ (c : Suite) where
  -- What a call of `combine_signatures` that returns a signature went through.
  pub combine_signatures_ok :
      (s : McpState c) (params : NetworkPublicParams c) (epoch : ℕ) (sig : AtsSignature c)
      → (combine_signatures c params epoch s).1 ≡ ok sig
      → (s.phase ≡ sign_reveal)
        × ((combine_signatures c params epoch s).0.phase ≡ verify_zkp)
        × (aggregate c (map (λ r. r.1) s.received_sign_reveals) params epoch s.my_id ≡ ok sig)
  unfolding combine_signatures transition_to
  combine_signatures_ok s params epoch sig e = elim (Bool-cases (is_allowed s.phase sign_combine)) [
    | inr h ↦
        let refused : (combine_signatures c params epoch s).1
            ≡ err (McpError.invalid_state_transition s.phase sign_combine) =
          rw (h) refl in
        absurd (differ _ _ (sym refused ∙ e))
    | inl h ↦
        let partials =
          map (λ (r : ℕ × PartialSignature c × ComplianceProof c). r.1) s.received_sign_reveals in
        elim (Outcome-cases (aggregate c partials params epoch s.my_id)) [
          | inl (a, q) ↦
              let result : combine_signatures c params epoch s
                  ≡ (record s { phase = verify_zkp }, ok a) =
                rw (h, q) refl in
              (
                only_reveal s.phase h,
                ap (λ r. r.0.phase) result,
                subst (λ x. aggregate c partials params epoch s.my_id ≡ ok x)
                    (same_ok a sig (sym (ap (λ r. r.1) result) ∙ e)) q,
              )
          | inr (inl (a, q)) ↦
              let result : (combine_signatures c params epoch s).1
                  ≡ err (McpError.signature_error a) =
                rw (h, q) refl in
              absurd (differ _ _ (sym result ∙ e))
          | inr (inr q) ↦
              let result : (combine_signatures c params epoch s).1 ≡ panic = rw (h, q) refl in
              absurd (differ_panic _ (sym result ∙ e))
        ]
  ]
    where
      same_ok :
          (x y : AtsSignature c) → ◌≡◌ {A = Outcome McpError (AtsSignature c)} (ok x) (ok y) → x ≡ y
      same_ok x y q = cc

      differ :
          (x : McpError) (y : AtsSignature c)
          → ◌≡◌ {A = Outcome McpError (AtsSignature c)} (err x) (ok y)
          → ⊥
      differ x y q = cc

      differ_panic :
          (y : AtsSignature c) → ◌≡◌ {A = Outcome McpError (AtsSignature c)} panic (ok y) → ⊥
      differ_panic y q = cc
