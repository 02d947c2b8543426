-- ===== src/Dkg/Honest/Output.antt =====
-- What a party computes that has heard all others: its sums, and the output of `finalize`.
use sigimora_api_backend.Base.{
  ℕ, suc, ◌+◌, ◌-◌, ◌≤◌, ◌≡◌, refl, sym, ap, ap₂, ◌∙◌, true, false, not, some, List, [], ◌∷◌, map,
  filter, length, contains, range_from, u16, All, ok, bind_eq, guard, ok_or, ltb, ◌==◌, arith,
}
use sigimora_api_backend.Math.Suite.{Suite}
use sigimora_api_backend.Shamir.{dkg_error}
use sigimora_api_backend.Shamir.Poly.{horner}
use sigimora_api_backend.Shamir.RoundTrip.{horner-zero}
use sigimora_api_backend.Shamir.Sums.{sum_horner}
use sigimora_api_backend.Pedersen.{PedersenSetup, VssShare, eval}
use sigimora_api_backend.Dkg.{
  DkgState, DkgOutput, output_of, compute_secret_share, compute_collective_public_key,
}
use sigimora_api_backend.Dkg.Honest.{Dealer, poly_of, key_of, secret_of}
use sigimora_api_backend.Dkg.Honest.Sums.{
  coefficients, eval-coefficients, collect_shares_lem, collect_keys_lem, contains-range_from,
  length-range_from,
}

module _ (c : Suite) (n t : ℕ) (ped : PedersenSetup c) where
  open c use {Scalar, G2, field, g2}

  abbrev pub InRange : Dealer c → Type 0
  InRange d = (1 ≤ d.id) × (d.id ≤ u16 n)

  abbrev pub quorum : List ℕ
  quorum = range_from 1 (u16 n)

  in_quorum : (d : Dealer c) → InRange d → contains quorum d.id ≡ true
  in_quorum d (h, g) = contains-range_from d.id 1 (u16 n) h (omega (arith, g))

  All-in_quorum :
      (ds : List (Dealer c)) → All InRange ds → All (λ d. contains quorum d.id ≡ true) ds
  All-in_quorum [] a = tt
  All-in_quorum (d ∷ ds) (h, a) = (in_quorum d h, All-in_quorum ds a)

  -- A state after `build_qual_set` in which a party and all others have been heard.
  pub record IsHeard (own : Dealer c) (others : List (Dealer c)) (s : DkgState c) : Type 0 where
    pub id : s.my_id ≡ own.id
    pub poly : s.my_vss_poly ≡ some (poly_of c t ped own)
    pub key : s.my_public_key ≡ some (key_of c own)
    pub qual : s.qual_set ≡ quorum
    pub keys : s.received_public_keys ≡ map (λ d. (d.id, key_of c d)) others
    pub shares : s.received_shares ≡ map (λ d. (d.id, eval c (poly_of c t ped d) own.id)) others

  heard_share :
      (own : Dealer c) (others : List (Dealer c)) (s : DkgState c)
      → IsHeard own others s
      → InRange own
      → All InRange others
      → compute_secret_share c s
        ≡ some (
            field.add
              (sum_horner field (map (coefficients c t ped) others) (field.from_u64 own.id))
              (horner field (coefficients c t ped own) (field.from_u64 own.id)))
  unfolding compute_secret_share
  heard_share own others s h o a =
      rw (h.poly, h.shares, h.qual, h.id, in_quorum own o)
        (ap some (
          ap₂ field.add
            (collect_shares_lem c t ped quorum own.id others field.zero (All-in_quorum others a)
              ∙ field.zero-add _)
            (eval-coefficients c t ped own own.id)))

  heard_key :
      (own : Dealer c) (others : List (Dealer c)) (s : DkgState c)
      → IsHeard own others s
      → InRange own
      → All InRange others
      → compute_collective_public_key c s
        ≡ some (
            g2.mul g2.generator (
              field.add
                (horner field (coefficients c t ped own) field.zero)
                (sum_horner field (map (coefficients c t ped) others) field.zero)))
  unfolding compute_collective_public_key
  heard_key own others s h o a =
      let counted : (1 + length others == 0) ≡ false = ground arith in
      rw
        (
          h.key,
          h.keys,
          h.qual,
          h.id,
          in_quorum own o,
          collect_keys_lem c t ped quorum others (g2.add g2.identity (key_of c own)) 1
              (All-in_quorum others a),
          counted,
        )
        (ap some (
          ap
            (λ p. g2.add p (
              g2.mul g2.generator
                (sum_horner field (map (coefficients c t ped) others) field.zero)))
            (g2.identity-add (key_of c own))
          ∙ sym (g2.mul-add g2.generator _ _)
          ∙ ap
              (λ k.
                g2.mul g2.generator
                  (field.add k (sum_horner field (map (coefficients c t ped) others) field.zero)))
              (unfold coefficients in sym (horner-zero field (secret_of c own) _))))

  counted_shares :
      (own : Dealer c) (others : List (Dealer c))
      → All InRange others
      → length (
          filter
            (λ (p : ℕ × VssShare c). contains quorum p.0)
            (map (λ d. (d.id, eval c (poly_of c t ped d) own.id)) others))
        ≡ length others
  counted_shares own [] a = refl
  counted_shares own (d ∷ others) (h, a) =
      rw (in_quorum d h, filter) (ap suc (counted_shares own others a))

  -- What `finalize` returns once all others have been heard.
  pub heard_output :
      (own : Dealer c) (others : List (Dealer c)) (s : DkgState c)
      → IsHeard own others s
      → InRange own
      → All InRange others
      → u16 n ≤ suc (length others)
      → (out : DkgOutput c) × (output_of c s ≡ ok out)
        × (out.my_secret
            ≡ field.add
                (sum_horner field (map (coefficients c t ped) others) (field.from_u64 own.id))
                (horner field (coefficients c t ped own) (field.from_u64 own.id)))
        × (out.collective_pk
            ≡ g2.mul g2.generator (
                field.add
                  (horner field (coefficients c t ped own) field.zero)
                  (sum_horner field (map (coefficients c t ped) others) field.zero)))
  unfolding output_of
  heard_output own others s h o a k = (
    _,
    bind_eq _ (ap (λ b. guard (not b) dkg_error) nonempty)
        ∙ bind_eq _ (ap (λ b. guard (not b) dkg_error) enough)
        ∙ bind_eq _ (ap (λ r. ok_or r dkg_error) (heard_share own others s h o a))
        ∙ bind_eq _ (ap (λ r. ok_or r dkg_error) (heard_key own others s h o a)),
    refl,
    refl,
  )
    where
      nonempty : (length s.qual_set == 0) ≡ false
      nonempty = rw (h.qual, length-range_from 1 (u16 n)) (ground (arith, o.0, o.1))

      enough :
          ltb
            (length (filter (λ p. contains s.qual_set p.0) s.received_shares))
            (length s.qual_set - 1)
          ≡ false
      enough =
          rw (h.qual, h.shares, length-range_from 1 (u16 n), counted_shares own others a)
            (ground (arith, k))
