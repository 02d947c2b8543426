-- ===== src/Server/Exchange/Shares.antt =====
-- How the exchange of shares in sigimora-server/src/routes/dkg.rs leaves the states of the nodes.
use sigimora_api_backend.Base.{
  ℕ, suc, ◌+◌, ◌≤◌, ◌<◌, ◌≡◌, refl, sym, ap, ap₂, subst, ◌∙◌, true, false, some, List, [], ◌∷◌,
  ◌++◌, append-nil, append_assoc, length, length-append, All, All-append_one, All-map, get_elem?,
  unwrap, ok_or, map, filter, find, u16, ok, bind_eq, ◌==◌, ==_refl, inl, inr, Bool-cases, arith,
}
use mathlib.Core.List.{map-append}
use sigimora_api_backend.Math.Suite.{Suite}
use sigimora_api_backend.Shamir.{dkg_error}
use sigimora_api_backend.Pedersen.{PedersenSetup, VssPublic, commit_poly, eval}
use sigimora_api_backend.Dkg.{start, process_received_share, shares_for}
use sigimora_api_backend.Dkg.Honest.{Dealer, poly_of, share_accepted}
use sigimora_api_backend.Dkg.Honest.Agreement.{fresh_state}
use sigimora_api_backend.Server.Exchange.Commits.{
  IsNumbered, others, committed, shared, others_hit, others_miss,
}
use sigimora_api_backend.Server.Exchange.{share_row, share_loop}

module _ (c : Suite) (n t : ℕ) (ped : PedersenSetup c) where
  open c use {Scalar, G1, G2}

  -- The commitments of a node are found among those that another one has.
  found_other :
      (own d : Dealer c) (done rest : List (Dealer c))
      → (d.id == own.id) ≡ false
      → All (λ x. x.id < d.id) done
      → find
          (λ (p : ℕ × VssPublic c). p.0 == d.id)
          (map
            (λ x. (x.id, commit_poly c (poly_of c t ped x)))
            (others c n t ped own (done ++ d ∷ rest)))
        ≡ some (d.id, commit_poly c (poly_of c t ped d))
  unfolding others
  found_other own d [] rest h a = rw (h, filter) (rw (==_refl d.id, find) refl)
  found_other own d (x ∷ done) rest h (lo, a) = elim (Bool-cases (x.id == own.id)) [
    | inl q ↦ rw (q, filter) (found_other own d done rest h a)
    | inr q ↦
        let before : (x.id == d.id) ≡ false = ground arith in
        rw (q, filter) (rw (before, find) (found_other own d done rest h a))
  ]

  share_one :
      (own d : Dealer c) (os ps : List (Dealer c))
      → find
          (λ (p : ℕ × VssPublic c). p.0 == d.id)
          (map (λ x. (x.id, commit_poly c (poly_of c t ped x))) os)
        ≡ some (d.id, commit_poly c (poly_of c t ped d))
      → process_received_share c d.id
          (eval c (poly_of c t ped d) own.id)
          (shared c n t ped own os ps)
        ≡ ok (shared c n t ped own os (ps ++ d ∷ []))
  unfolding shared committed fresh_state start
  share_one own d os ps h =
      share_accepted c t ped d (shared c n t ped own os ps) refl h ∙ simp (map-append)

  sent_share :
      (d : Dealer c) (os ps : List (Dealer c)) (k : ℕ)
      → shares_for c k (shared c n t ped d os ps) ≡ some (eval c (poly_of c t ped d) k)
  unfolding shares_for shared committed fresh_state start
  sent_share d os ps k = refl

  share_row_lem :
      (d : Dealer c) (os ps : List (Dealer c)) (i j : ℕ) (ds done owns : List (Dealer c))
      → d.id ≡ suc i
      → i < 65535
      → ((own : Dealer c)
          → (d.id == own.id) ≡ false
          → find
              (λ (p : ℕ × VssPublic c). p.0 == d.id)
              (map (λ x. (x.id, commit_poly c (poly_of c t ped x))) (others c n t ped own ds))
            ≡ some (d.id, commit_poly c (poly_of c t ped d)))
      → IsNumbered c n t ped j owns
      → j + length owns ≤ 65535
      → share_row c i (shared c n t ped d os ps) j (
          map
            (λ own. shared c n t ped own (others c n t ped own ds) (others c n t ped own done))
            owns)
        ≡ ok (
            map
              (λ own.
                shared c n t ped own
                  (others c n t ped own ds)
                  (others c n t ped own (done ++ d ∷ [])))
              owns)
  unfolding share_row
  share_row_lem d os ps i j ds done [] e b f a k = refl
  share_row_lem d os ps i j ds done (own ∷ owns) e b f (h, a) k =
      let rest = share_row_lem d os ps i (suc j) ds done owns e b f a (omega (arith, k)) in
      elim (Bool-cases (i == j)) [
        | inl q ↦
            let same : (d.id == own.id) ≡ true = ground arith in
            rw (q) (
              bind_eq _ rest
              ∙ ap
                  (λ qs. ok (
                    shared c n t ped own (others c n t ped own ds) qs
                    ∷ map
                        (λ own.
                          shared c n t ped own (others c n t ped own ds)
                            (others c n t ped own (done ++ d ∷ [])))
                        owns))
                  (sym (others_hit c n t ped own d done same)))
        | inr q ↦
            let other : (d.id == own.id) ≡ false = ground arith in
            let from : u16 i + 1 ≡ d.id = omega arith in
            let to : u16 (j + 1) ≡ own.id = omega (arith, k) in
            rw (q) (
              bind_eq _ (
                bind_eq _ (ap (λ o. ok_or o dkg_error) (sent_share d os ps (u16 (j + 1))))
                ∙ ap₂
                    (λ m o.
                      process_received_share c m (eval c (poly_of c t ped d) o) (
                        shared c n t ped own (others c n t ped own ds) (others c n t ped own done)))
                    from to
                ∙ share_one own d (others c n t ped own ds) (others c n t ped own done)
                    (f own other))
              ∙ bind_eq _ rest
              ∙ ap
                  (λ qs. ok (
                    shared c n t ped own (others c n t ped own ds) qs
                    ∷ map
                        (λ own.
                          shared c n t ped own (others c n t ped own ds)
                            (others c n t ped own (done ++ d ∷ [])))
                        owns))
                  (sym (others_miss c n t ped own d done other)))
      ]

  get_middle :
      {A B : Type 0} (f : A → B) (xs : List A) (a : A) (ys : List A)
      → get_elem? (map f (xs ++ a ∷ ys)) (length xs) ≡ some (f a)
  get_middle f [] a ys = refl
  get_middle f (x ∷ xs) a ys = get_middle f xs a ys

  pub share_loop_lem :
      (ds done rest : List (Dealer c))
      → done ++ rest ≡ ds
      → IsNumbered c n t ped (length done) rest
      → All (λ x. x.id ≤ length done) done
      → IsNumbered c n t ped 0 ds
      → length ds ≤ 65535
      → share_loop c (length done) (length rest) (
          map
            (λ own. shared c n t ped own (others c n t ped own ds) (others c n t ped own done))
            ds)
        ≡ ok (
            map
              (λ own. shared c n t ped own (others c n t ped own ds) (others c n t ped own ds))
              ds)
  unfolding share_loop
  share_loop_lem ds done [] q a lo h b = rw (sym (append-nil done) ∙ q) refl
  share_loop_lem ds done (d ∷ rest) q (e, a) lo h b =
      let count : suc (length done) ≡ length (done ++ d ∷ []) =
        omega (arith, length-append done (d ∷ [])) in
      let short : length done < 65535 =
        omega (arith, b, ap length q, length-append done (d ∷ rest)) in
      bind_eq _ (
        ap unwrap (
          ap
            (λ l.
              get_elem?
                (map
                  (λ own.
                    shared c n t ped own (others c n t ped own ds) (others c n t ped own done))
                  l)
                (length done))
            (sym q)
          ∙ get_middle
              (λ own. shared c n t ped own (others c n t ped own ds) (others c n t ped own done))
              done d rest))
      ∙ bind_eq _ (
          share_row_lem d (others c n t ped d ds) (others c n t ped d done) (length done) 0 ds done
            ds e short
            (λ own o.
              subst
                (λ l.
                  find (λ (p : ℕ × VssPublic c). p.0 == d.id)
                    (map (λ x. (x.id, commit_poly c (poly_of c t ped x))) (others c n t ped own l))
                  ≡ some (d.id, commit_poly c (poly_of c t ped d)))
                q (found_other own d done rest o (All-map (λ x p. omega (arith, p, e)) done lo)))
            h (omega (arith, b)))
      ∙ ap
          (λ k. share_loop c k (length rest) (
            map
              (λ own.
                shared c n t ped own (others c n t ped own ds)
                  (others c n t ped own (done ++ d ∷ [])))
              ds))
          count
      ∙ share_loop_lem ds (done ++ d ∷ []) rest (append_assoc done (d ∷ []) rest ∙ q)
          (subst (λ k. IsNumbered c n t ped k rest) count a)
          (All-append_one (λ x. x.id ≤ length (done ++ d ∷ [])) done d
            (All-map (λ x p. omega (arith, p, count)) done lo) (omega (arith, e, count)))
          h b
