-- ===== src/Refresh/Contributions.antt =====
-- The contributions of sigimora-refresh/src/lib.rs: which are accepted, and what a party makes of them.
use sigimora_api_backend.Base.{
  ℕ, zero, suc, ◌+◌, ◌≤◌, ◌<◌, ◌≡◌, refl, sym, ap, ap₂, ◌∙◌, Bool, true, false, inl, inr,
  Bool-cases, Option, some, none, List, [], ◌∷◌, ◌++◌, map, filter, find, length, range_from, u16,
  ok, ltb, ◌==◌, arith,
}
use sigimora_api_backend.Math.Group.{mul-zero, beq_of_eq}
use sigimora_api_backend.Math.Suite.{Suite}
use sigimora_api_backend.Pedersen.{
  PedersenSetup, VssShare, PrivatePoly, random_with_zero_constant, commit_poly, commit, eval,
  verify_share,
}
use sigimora_api_backend.Pedersen.Laws.{verify_share-commit_poly}
use sigimora_api_backend.Refresh.{
  RefreshState, RefreshContribution, start, my_contribution, contribution_of, verify_contribution,
  verify_for_me, check_constant, add_contribution, compute_new_key, add_share, delta_loop,
  add_to_key, less_one, apply_loop, apply_contributions, committed,
}

-- The first element that `filter` keeps is the one that `find` returns.
abbrev head? : {A : Type 0} → List A → Option A
head? [] = none
head? (x ∷ xs) = some x

head?-filter : {A : Type 0} (p : A → Bool) (xs : List A) → head? (filter p xs) ≡ find p xs
head?-filter p [] = refl
head?-filter p (x ∷ xs) = elim (Bool-cases (p x)) [
  | inl e ↦ rw (e, filter, find) refl
  | inr e ↦ rw (e, filter, find) (head?-filter p xs)
]

module _ (c : Suite) where
  open c use {Scalar, G1, field, g1}

  -- The shares of a polynomial for a range of ids hold the one of every id in it.
  pub find-eval :
      (poly : PrivatePoly c) (id a k : ℕ)
      → a ≤ id
      → id < a + k
      → find (λ (s : VssShare c). s.index == id) (map (eval c poly) (range_from a k))
        ≡ some (eval c poly id)
  unfolding eval
  find-eval poly id a zero h g = absurd (omega arith)
  find-eval poly id a (suc k) h g = elim (Bool-cases (a == id)) [
    | inl e ↦ let same : a ≡ id = ground arith in rw (e, find) (ap (λ i. some (eval c poly i)) same)
    | inr e ↦
        let later : suc a ≤ id = ground arith in
        rw (e, find) (find-eval poly id (suc a) k later (omega (arith, g)))
  ]

  -- What `verify_for_me` makes of the list, its first element known.
  verify_first :
      (my_id : ℕ) (ped : PedersenSetup c) (contrib : RefreshContribution c) (s : VssShare c)
      (l : List (VssShare c)) (p : G1) (ps : List G1)
      → head? l ≡ some s
      → contrib.vss_public.commitments ≡ p ∷ ps
      → p ≡ g1.identity
      → verify_share c contrib.vss_public my_id s.value s.blinding ped ≡ true
      → verify_for_me c my_id ped contrib l ≡ ok tt
  unfolding verify_for_me check_constant
  verify_first my_id ped contrib s [] p ps h e i v = cc
  verify_first my_id ped contrib s (x ∷ l) p ps h e i v =
      let same : x ≡ s = cc in rw (same, v, e, beq_of_eq g1 i) refl

  commit_zero : (ped : PedersenSetup c) → commit c ped field.zero field.zero ≡ g1.identity
  unfolding commit
  commit_zero ped = ap₂ g1.add (mul-zero g1 ped.g) (mul-zero g1 ped.h) ∙ g1.identity-add g1.identity

  accepted :
      (t n from epoch id : ℕ) (ped ped' : PedersenSetup c) (rng : ℕ → Scalar)
      → ped ≡ ped'
      → 1 ≤ id
      → id ≤ u16 n
      → let contrib = contribution_of c from epoch n (random_with_zero_constant c t ped rng) in
        verify_for_me c id ped' contrib (filter (λ (s : VssShare c). s.index == id) contrib.shares)
        ≡ ok tt
  unfolding contribution_of commit_poly random_with_zero_constant
  accepted t n from epoch id ped ped' rng e h g =
      let poly = random_with_zero_constant c t ped rng in
      verify_first id ped' (contribution_of c from epoch n poly) (eval c poly id) _
        (commit c ped field.zero field.zero) _
        (head?-filter _ (map (eval c poly) (range_from 1 (u16 n)))
          ∙ find-eval poly id 1 (u16 n) h (omega (arith, g)))
        refl (commit_zero ped)
        (ap
            (verify_share c (commit_poly c poly) id (eval c poly id).value
              (eval c poly id).blinding)
            (sym e)
          ∙ (verify_share-commit_poly c poly id _ _).1 refl)

  -- What an accepted contribution changes.
  add_accepted :
      (contrib : RefreshContribution c) (receiver : RefreshState c)
      → verify_contribution c receiver contrib ≡ ok tt
      → add_contribution c contrib receiver ≡ (
        record receiver {
          contributions = receiver.contributions ++ contrib ∷ [];
          round = committed;
        },
        ok tt,
      )
  unfolding add_contribution
  add_accepted contrib receiver e = rw (e) refl

  -- A contribution that a party makes once it has started is added by every party with the same
  -- Pedersen parameters whose id is one of the sender's 1 to `n`; only its list and its round change.
  add_contribution-my_contribution :
      (sender receiver : RefreshState c) (rng : ℕ → Scalar)
      → sender.pedersen ≡ receiver.pedersen
      → 1 ≤ receiver.my_id
      → receiver.my_id ≤ u16 sender.n
      → (contrib : RefreshContribution c) × (my_contribution c (start c rng sender) ≡ some contrib)
        × (add_contribution c contrib receiver ≡ (
          record receiver {
            contributions = receiver.contributions ++ contrib ∷ [];
            round = committed;
          },
          ok tt,
        ))
  unfolding my_contribution start verify_contribution
  add_contribution-my_contribution sender receiver rng e h g = (
    contribution_of c sender.my_id sender.epoch sender.n
        (random_with_zero_constant c sender.t sender.pedersen rng),
    refl,
    add_accepted _ receiver (
        accepted sender.t sender.n sender.my_id sender.epoch receiver.my_id sender.pedersen
          receiver.pedersen rng e h g),
  )

  loops_same :
      (id : ℕ) (cs : List (RefreshContribution c)) (delta : Scalar)
      → delta_loop c id delta cs ≡ apply_loop c id delta cs
  unfolding delta_loop apply_loop
  loops_same id [] delta = refl
  loops_same id (k ∷ cs) delta =
      loops_same id cs _
      ∙ ap (λ d. apply_loop c id d cs)
          (by_head (filter (λ (s : VssShare c). s.index == id) k.shares)
            ∙ ap (added delta) (head?-filter (λ (s : VssShare c). s.index == id) k.shares))
    where
      added : Scalar → Option (VssShare c) → Scalar
      added d o = elim o [ none ↦ d | some share ↦ field.add d share.value ]

      by_head : (l : List (VssShare c)) → add_share c delta l ≡ added delta (head? l)
      by_head [] = unfold add_share in refl
      by_head (x ∷ l) = unfold add_share in refl

  -- A party with a key that has at least `n - 1` contributions computes the key that
  -- `apply_contributions` returns for them.
  pub compute_new_key-apply_contributions :
      (s : RefreshState c) (key : Scalar)
      → s.my_key ≡ some key
      → 1 ≤ s.n
      → s.n ≤ suc (length s.contributions)
      → compute_new_key c s ≡ apply_contributions c key s.my_id s.contributions
  unfolding compute_new_key apply_contributions add_to_key less_one
  compute_new_key-apply_contributions s key k h g = go s.n h g
    where
      go :
          (n : ℕ)
          → 1 ≤ n
          → n ≤ suc (length s.contributions)
          → compute_new_key c (record s { n = n })
            ≡ apply_contributions c key s.my_id s.contributions
      go zero h g = absurd (omega arith)
      go (suc others) h g =
          let enough : ltb (length s.contributions) others ≡ false = ground arith in
          rw (enough, k)
            (ap (λ d. ok (field.add key d)) (loops_same s.my_id s.contributions field.zero))
