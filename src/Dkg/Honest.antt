-- ===== src/Dkg/Honest.antt =====
-- A run of the key generation of sigimora-crypto/src/dkg.rs between parties that follow it: what each
-- party sends after `start` is delivered to one of them, which then calls `finalize`.
pub mod Sums
pub mod Output
pub mod Agreement
pub mod Signing
use sigimora_api_backend.Base.{
  ℕ, zero, suc, ◌+◌, ◌-◌, ◌≤◌, ◌<◌, ◌≡◌, refl, sym, ap, ap₂, ◌∙◌, ◌≢◌, Bool, true, false, not, some,
  none, List, [], ◌∷◌, ◌++◌, append_assoc, append-nil, map, find, All, Outcome, ok, ◌>>=◌, bind_eq,
  guard, ◌==◌, ==_ne, ==_refl, if◌then◌else◌, inl, inr, Bool-cases, arith,
}
use sigimora_api_backend.Math.Suite.{Suite}
use sigimora_api_backend.Shamir.{CryptoError, pop_verification_failed, share_verification_failed}
use sigimora_api_backend.Shamir.Interpolation.{Distinct}
use sigimora_api_backend.Pedersen.{
  PedersenSetup, VssPublic, VssShare, PrivatePoly, eval, commit_poly, verify_share,
  random_with_secret,
}
use sigimora_api_backend.Pedersen.Laws.{verify_share-commit_poly}
use sigimora_api_backend.Dkg.{
  DkgState, generate_pop, verify_pop, process_participant_commit, process_received_share,
  share_is_accepted,
}

-- What `find` returns on a list with one more element, where it found nothing before.
find-append_hit :
    {A : Type 0} (p : A → Bool) (xs : List A) (y : A)
    → find p xs ≡ none
    → p y ≡ true
    → find p (xs ++ y ∷ []) ≡ some y
find-append_hit p [] y h e = rw (e, find) refl
find-append_hit p (x ∷ xs) y h e = elim (Bool-cases (p x)) [
  | inl q ↦ absurd (never (ap (λ b. if b then some x else find p xs) (sym q) ∙ h))
  | inr q ↦
      rw (q, find)
        (find-append_hit p xs y (ap (λ b. if b then some x else find p xs) (sym q) ∙ h) e)
]
  where
    never : some x ≡ none → ⊥
    never q = cc

find-append_miss :
    {A : Type 0} (p : A → Bool) (xs : List A) (y : A)
    → find p xs ≡ none
    → p y ≡ false
    → find p (xs ++ y ∷ []) ≡ none
find-append_miss p [] y h e = rw (e, find) refl
find-append_miss p (x ∷ xs) y h e = elim (Bool-cases (p x)) [
  | inl q ↦ absurd (never (ap (λ b. if b then some x else find p xs) (sym q) ∙ h))
  | inr q ↦
      rw (q, find)
        (find-append_miss p xs y (ap (λ b. if b then some x else find p xs) (sym q) ∙ h) e)
]
  where
    never : some x ≡ none → ⊥
    never q = cc

module _ (c : Suite) where
  open c use {Scalar, G1, G2, field, g1, g2, gt}

  -- A party: its id and what its two generators yield.
  pub record Dealer : Type 0 where
    pub id : ℕ
    pub rng : ℕ → Scalar
    pub os_rng : ℕ → Scalar

  -- What `start` makes of them.
  abbrev pub secret_of : Dealer → Scalar
  secret_of d = d.rng 0

  abbrev pub key_of : Dealer → G2
  key_of d = g2.mul g2.generator (secret_of d)

  abbrev pub pop_of : Dealer → G1
  pop_of d = generate_pop c (secret_of d) (key_of d)

  module _ (t : ℕ) (ped : PedersenSetup c) where
    abbrev pub poly_of : Dealer → PrivatePoly c
    poly_of d = random_with_secret c (secret_of d) t ped d.os_rng

    -- The messages of each dealer, one dealer after the other: its commit, then its share.
    unfoldable pub deliver : List Dealer → DkgState c → Outcome CryptoError (DkgState c)
    deliver [] s = ok s
    deliver (d ∷ ds) s = do
      s ← process_participant_commit c d.id (key_of d) (pop_of d) (commit_poly c (poly_of d)) s
      s ← process_received_share c d.id (eval c (poly_of d) s.my_id) s
      deliver ds s

    -- The state with all that the dealers have sent.
    abbrev pub delivered : List Dealer → DkgState c → DkgState c
    delivered ds s = record s {
      received_public_keys = s.received_public_keys ++ map (λ d. (d.id, key_of d)) ds;
      received_pops = s.received_pops ++ map (λ d. (d.id, pop_of d)) ds;
      received_vss_publics =
          s.received_vss_publics ++ map (λ d. (d.id, commit_poly c (poly_of d))) ds;
      received_shares = s.received_shares ++ map (λ d. (d.id, eval c (poly_of d) s.my_id)) ds;
    }

    verify_pop-generate_pop :
        (sk : Scalar)
        → verify_pop c (g2.mul g2.generator sk) (generate_pop c sk (g2.mul g2.generator sk)) ≡ true
    unfolding verify_pop generate_pop
    verify_pop-generate_pop sk =
        (gt.beq_iff _ _).1
          (c.pairing-mul_left _ g2.generator sk ∙ sym (c.pairing-mul_right _ g2.generator sk))

    -- No commitments are recorded for the id.
    abbrev IsNew : DkgState c → Dealer → Type 0
    IsNew s d = find (λ p. p.0 == d.id) s.received_vss_publics ≡ none

    pub commit_accepted :
        (d : Dealer) (s : DkgState c)
        → process_participant_commit c d.id (key_of d) (pop_of d) (commit_poly c (poly_of d)) s
          ≡ ok (record s {
            received_public_keys = s.received_public_keys ++ (d.id, key_of d) ∷ [];
            received_pops = s.received_pops ++ (d.id, pop_of d) ∷ [];
            received_vss_publics = s.received_vss_publics ++ (d.id, commit_poly c (poly_of d)) ∷ [];
          })
    unfolding process_participant_commit
    commit_accepted d s =
        bind_eq _
          (ap (λ b. guard b pop_verification_failed) (verify_pop-generate_pop (secret_of d)))

    share_passes :
        (d : Dealer) (s : DkgState c)
        → s.pedersen ≡ ped
        → find (λ p. p.0 == d.id) s.received_vss_publics ≡ some (d.id, commit_poly c (poly_of d))
        → share_is_accepted c d.id (eval c (poly_of d) s.my_id) s ≡ true
    unfolding share_is_accepted eval
    share_passes d s e h =
        rw (h, share_is_accepted)
          (ap
              (verify_share c (commit_poly c (poly_of d)) s.my_id (eval c (poly_of d) s.my_id).value
                (eval c (poly_of d) s.my_id).blinding)
              e
            ∙ passes)
      where
        passes :
            verify_share c
              (commit_poly c (poly_of d))
              s.my_id
              (eval c (poly_of d) s.my_id).value
              (eval c (poly_of d) s.my_id).blinding
              ped
            ≡ true
        passes =
            unfold random_with_secret in (verify_share-commit_poly c (poly_of d) s.my_id _ _).1 refl

    pub share_accepted :
        (d : Dealer) (s : DkgState c)
        → s.pedersen ≡ ped
        → find (λ p. p.0 == d.id) s.received_vss_publics ≡ some (d.id, commit_poly c (poly_of d))
        → process_received_share c d.id (eval c (poly_of d) s.my_id) s
          ≡ ok (record s {
            received_shares = s.received_shares ++ (d.id, eval c (poly_of d) s.my_id) ∷ [];
          })
    unfolding process_received_share
    share_accepted d s e h = bind_eq _ (
        ap (λ b. guard b (share_verification_failed (eval c (poly_of d) s.my_id).index))
          (share_passes d s e h))

    still_new :
        (d : Dealer) (v : VssPublic c) (ds : List Dealer) (xs : List (ℕ × VssPublic c))
        → All (λ i. d.id ≢ i) (map (λ d. d.id) ds)
        → All (λ e. find (λ p. p.0 == e.id) xs ≡ none) ds
        → All (λ e. find (λ p. p.0 == e.id) (xs ++ (d.id, v) ∷ []) ≡ none) ds
    still_new d v [] xs a b = tt
    still_new d v (e ∷ ds) xs (n, a) (h, b) = (
      find-append_miss (λ p. p.0 == e.id) xs (d.id, v) h (==_ne d.id e.id n),
      still_new d v ds xs a b,
    )

    -- Every message of dealers with different ids is accepted.
    pub deliver_ok :
        (ds : List Dealer) (s : DkgState c)
        → s.pedersen ≡ ped
        → Distinct (map (λ d. d.id) ds)
        → All (IsNew s) ds
        → deliver ds s ≡ ok (delivered ds s)
    unfolding deliver
    deliver_ok [] s e d n =
        rw
          (
            append-nil s.received_public_keys,
            append-nil s.received_pops,
            append-nil s.received_vss_publics,
            append-nil s.received_shares,
          )
          refl
    deliver_ok (x ∷ ds) s e (a, d) (h, n) =
        bind_eq _ (commit_accepted x s)
        ∙ bind_eq _ (
            share_accepted x with_commit e
              (find-append_hit (λ p. p.0 == x.id) s.received_vss_publics _ h (==_refl x.id)))
        ∙ deliver_ok ds with_share e d
            (still_new x (commit_poly c (poly_of x)) ds s.received_vss_publics a n)
        ∙ rw
            (
              append_assoc s.received_public_keys ((x.id, key_of x) ∷ [])
                  (map (λ d. (d.id, key_of d)) ds),
              append_assoc s.received_pops ((x.id, pop_of x) ∷ []) (map (λ d. (d.id, pop_of d)) ds),
              append_assoc s.received_vss_publics ((x.id, commit_poly c (poly_of x)) ∷ [])
                  (map (λ d. (d.id, commit_poly c (poly_of d))) ds),
              append_assoc s.received_shares ((x.id, eval c (poly_of x) s.my_id) ∷ [])
                  (map (λ d. (d.id, eval c (poly_of d) s.my_id)) ds),
            )
            refl
      where
        with_commit : DkgState c
        with_commit = record s {
          received_public_keys = s.received_public_keys ++ (x.id, key_of x) ∷ [];
          received_pops = s.received_pops ++ (x.id, pop_of x) ∷ [];
          received_vss_publics = s.received_vss_publics ++ (x.id, commit_poly c (poly_of x)) ∷ [];
        }

        with_share : DkgState c
        with_share = record with_commit {
          received_shares = s.received_shares ++ (x.id, eval c (poly_of x) s.my_id) ∷ [];
        }
