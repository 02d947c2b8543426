-- ===== src/Dkg/Finalize.antt =====
-- What `finalize` of sigimora-crypto/src/dkg.rs returns.
use sigimora_api_backend.Base.{
  ◌-◌, ◌≤◌, ◌≡◌, refl, sym, ap, subst, ◌∙◌, inl, inr, some, filter, length, contains, Outcome, ok,
  err, panic, Outcome-cases, arith,
}
use sigimora_api_backend.Math.Suite.{Suite}
use sigimora_api_backend.Shamir.{CryptoError}
use sigimora_api_backend.Dkg.{
  DkgState, DkgOutput, DkgRound, build_qual_set, output_of, finalize, compute_secret_share,
  compute_collective_public_key,
}

module _ (c : Suite) where
  -- The last step of `finalize`, on what the computations returned.
  finalized :
      DkgState c
      → Outcome CryptoError (DkgOutput c)
      → DkgState c × Outcome CryptoError (DkgOutput c)
  finalized s (ok out) = (record (build_qual_set c s) { round = DkgRound.complete }, ok out)
  finalized s (err e) = (build_qual_set c s, err e)
  finalized s panic = (build_qual_set c s, panic)

  finalize_eq : (s : DkgState c) → finalize c s ≡ finalized s (output_of c (build_qual_set c s))
  unfolding finalize finalized
  finalize_eq s = split_outcome (output_of c (build_qual_set c s))
    where
      split_outcome :
          (r : Outcome CryptoError (DkgOutput c))
          → elim r as (λ x. DkgState c × Outcome CryptoError (DkgOutput c)) [
            | ok out ↦ (record (build_qual_set c s) { round = DkgRound.complete }, ok out)
            | err e ↦ (build_qual_set c s, err e)
            | panic ↦ (build_qual_set c s, panic)
          ]
            ≡ finalized s r
      split_outcome (ok out) = refl
      split_outcome (err e) = refl
      split_outcome panic = refl

  output_of_ok :
      (s : DkgState c) (out : DkgOutput c)
      → output_of c s ≡ ok out
      → (length s.qual_set - 1 ≤ length (filter (λ p. contains s.qual_set p.0) s.received_shares))
        × (compute_secret_share c s ≡ some out.my_secret)
        × (compute_collective_public_key c s ≡ some out.collective_pk)
        × (out.my_public_key ≡ c.g2.mul c.g2.generator out.my_secret)
        × (out.qual_set ≡ s.qual_set)
  unfolding output_of
  output_of_ok s out e = ground arith

  -- If `finalize` returns an output, the round is complete, the QUAL set that it has just built is in
  -- the output, shares of all but one of its members have come, the output's share and collective key
  -- are those that the two computations give, and the public key is that of the share.
  finalize_ok :
      (s : DkgState c) (out : DkgOutput c)
      → (finalize c s).1 ≡ ok out
      → ((finalize c s).0 ≡ record (build_qual_set c s) { round = DkgRound.complete })
        × (out.qual_set ≡ (build_qual_set c s).qual_set)
        × (length out.qual_set - 1
            ≤ length (filter (λ p. contains out.qual_set p.0) s.received_shares))
        × (compute_secret_share c (build_qual_set c s) ≡ some out.my_secret)
        × (compute_collective_public_key c (build_qual_set c s) ≡ some out.collective_pk)
        × (out.my_public_key ≡ c.g2.mul c.g2.generator out.my_secret)
  unfolding finalized
  finalize_ok s out e = elim (Outcome-cases (output_of c (build_qual_set c s))) [
    | inl (o, q) ↦
        let same : o ≡ out = inside o out (sym (ap (λ r. r.1) (finish _ q)) ∙ e) in
        let (enough, share, key, own, qual) = output_of_ok (build_qual_set c s) o q in
        subst
          (λ x.
            ((finalize c s).0 ≡ record (build_qual_set c s) { round = DkgRound.complete })
            × (x.qual_set ≡ (build_qual_set c s).qual_set)
            × (length x.qual_set - 1
                ≤ length (filter (λ p. contains x.qual_set p.0) s.received_shares))
            × (compute_secret_share c (build_qual_set c s) ≡ some x.my_secret)
            × (compute_collective_public_key c (build_qual_set c s) ≡ some x.collective_pk)
            × (x.my_public_key ≡ c.g2.mul c.g2.generator x.my_secret))
          same
          (
            ap (λ r. r.0) (finish _ q),
            qual,
            rw (qual) (unfold build_qual_set in enough),
            share,
            key,
            own,
          )
    | inr (inl (x, q)) ↦ absurd (not_ok x (sym (ap (λ r. r.1) (finish _ q)) ∙ e))
    | inr (inr q) ↦ absurd (not_ok_panic (sym (ap (λ r. r.1) (finish _ q)) ∙ e))
  ]
    where
      inside :
          (x y : DkgOutput c) → ◌≡◌ {A = Outcome CryptoError (DkgOutput c)} (ok x) (ok y) → x ≡ y
      inside x y q = cc

      not_ok : (x : CryptoError) → ◌≡◌ {A = Outcome CryptoError (DkgOutput c)} (err x) (ok out) → ⊥
      not_ok x q = cc

      not_ok_panic : ◌≡◌ {A = Outcome CryptoError (DkgOutput c)} panic (ok out) → ⊥
      not_ok_panic q = cc

      finish :
          (r : Outcome CryptoError (DkgOutput c))
          → output_of c (build_qual_set c s) ≡ r
          → finalize c s ≡ finalized s r
      finish r q = finalize_eq s ∙ ap (finalized s) q
