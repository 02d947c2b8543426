-- ===== src/Server/Exchange/Commits.antt =====
-- How the exchange of commitments in sigimora-server/src/routes/dkg.rs leaves the states of the nodes.
use sigimora_api_backend.Base.{
  ℕ, suc, ◌+◌, ◌≤◌, ◌<◌, ◌≡◌, refl, sym, ap, ◌∙◌, Bool, true, false, not, List, [], ◌∷◌, ◌++◌,
  append-nil, append_assoc, length, map, filter, u16, ok, bind_eq, ◌==◌, inl, inr, Bool-cases,
  arith,
}
use mathlib.Core.List.{map-append}
use sigimora_api_backend.Math.Suite.{Suite}
use sigimora_api_backend.Pedersen.{PedersenSetup, VssPublic, commit_poly, eval}
use sigimora_api_backend.Dkg.{DkgState, start, process_participant_commit}
use sigimora_api_backend.Dkg.Honest.{Dealer, key_of, pop_of, poly_of, commit_accepted}
use sigimora_api_backend.Dkg.Honest.Agreement.{fresh_state}
use sigimora_api_backend.Server.Exchange.{commit_row, commit_loop}

filter-append :
    {A : Type 0} (p : A → Bool) (xs ys : List A) → filter p (xs ++ ys) ≡ filter p xs ++ filter p ys
filter-append p [] ys = refl
filter-append p (x ∷ xs) ys = ground (arith, filter-append p xs ys)

module _ (c : Suite) (n t : ℕ) (ped : PedersenSetup c) where
  open c use {Scalar, G1, G2}

  -- The nodes in the order of the vector, the first at the index `j`.
  abbrev pub IsNumbered : ℕ → List (Dealer c) → Type 0
  IsNumbered j [] = Unit
  IsNumbered j (d ∷ ds) = (d.id ≡ suc j) × IsNumbered (suc j) ds

  unfoldable pub others : Dealer c → List (Dealer c) → List (Dealer c)
  others own ds = filter (λ d. not (d.id == own.id)) ds

  -- A started node that has the commitments of `os`.
  unfoldable pub committed : Dealer c → List (Dealer c) → DkgState c
  unfolding fresh_state start
  committed own os = record (start c own.rng own.os_rng (fresh_state c n t ped own)) {
    received_public_keys = map (λ d. (d.id, key_of c d)) os;
    received_pops = map (λ d. (d.id, pop_of c d)) os;
    received_vss_publics = map (λ d. (d.id, commit_poly c (poly_of c t ped d))) os;
  }

  -- It has the shares of `ps` too.
  unfoldable pub shared : Dealer c → List (Dealer c) → List (Dealer c) → DkgState c
  unfolding committed
  shared own os ps = record (committed own os) {
    received_shares = map (λ d. (d.id, eval c (poly_of c t ped d) own.id)) ps;
  }

  abbrev pub message : Dealer c → G2 × G1 × VssPublic c
  message d = (key_of c d, pop_of c d, commit_poly c (poly_of c t ped d))

  pub others_hit :
      (own d : Dealer c) (done : List (Dealer c))
      → (d.id == own.id) ≡ true
      → others own (done ++ d ∷ []) ≡ others own done
  unfolding others
  others_hit own d done h =
      filter-append (λ x. not (x.id == own.id)) done (d ∷ []) ∙ rw (h, filter) (append-nil _)

  pub others_miss :
      (own d : Dealer c) (done : List (Dealer c))
      → (d.id == own.id) ≡ false
      → others own (done ++ d ∷ []) ≡ others own done ++ d ∷ []
  unfolding others
  others_miss own d done h =
      filter-append (λ x. not (x.id == own.id)) done (d ∷ []) ∙ rw (h, filter) refl

  commit_one :
      (own d : Dealer c) (os : List (Dealer c))
      → process_participant_commit c d.id
          (key_of c d)
          (pop_of c d)
          (commit_poly c (poly_of c t ped d))
          (committed own os)
        ≡ ok (committed own (os ++ d ∷ []))
  unfolding committed
  commit_one own d os = commit_accepted c t ped d (committed own os) ∙ simp (map-append)

  commit_row_lem :
      (d : Dealer c) (i j : ℕ) (done owns : List (Dealer c))
      → d.id ≡ suc i
      → i < 65535
      → IsNumbered j owns
      → commit_row c i (message d) j (map (λ own. committed own (others own done)) owns)
        ≡ ok (map (λ own. committed own (others own (done ++ d ∷ []))) owns)
  unfolding commit_row
  commit_row_lem d i j done [] e b a = refl
  commit_row_lem d i j done (own ∷ owns) e b (h, a) = elim (Bool-cases (i == j)) [
    | inl q ↦
        let same : (d.id == own.id) ≡ true = ground arith in
        rw (q) (
          bind_eq _ (commit_row_lem d i (suc j) done owns e b a)
          ∙ ap
              (λ os.
                ok (
                  committed own os ∷ map (λ own. committed own (others own (done ++ d ∷ []))) owns))
              (sym (others_hit own d done same)))
    | inr q ↦
        let other : (d.id == own.id) ≡ false = ground arith in
        let from : u16 i + 1 ≡ d.id = omega arith in
        rw (q) (
          bind_eq _ (
            ap
              (λ k.
                process_participant_commit c k (key_of c d) (pop_of c d)
                  (commit_poly c (poly_of c t ped d)) (committed own (others own done)))
              from
            ∙ commit_one own d (others own done))
          ∙ bind_eq _ (commit_row_lem d i (suc j) done owns e b a)
          ∙ ap
              (λ os.
                ok (
                  committed own os ∷ map (λ own. committed own (others own (done ++ d ∷ []))) owns))
              (sym (others_miss own d done other)))
  ]

  pub commit_loop_lem :
      (i : ℕ) (done ds owns : List (Dealer c))
      → IsNumbered i ds
      → i + length ds ≤ 65535
      → IsNumbered 0 owns
      → commit_loop c i (map message ds) (map (λ own. committed own (others own done)) owns)
        ≡ ok (map (λ own. committed own (others own (done ++ ds))) owns)
  unfolding commit_loop
  commit_loop_lem i done [] owns a b h = rw (append-nil done) refl
  commit_loop_lem i done (d ∷ ds) owns (e, a) b h =
      bind_eq _ (commit_row_lem d i 0 done owns e (omega (arith, b)) h)
      ∙ commit_loop_lem (suc i) (done ++ d ∷ []) ds owns a (omega (arith, b)) h
      ∙ rw (append_assoc done (d ∷ []) ds) refl
