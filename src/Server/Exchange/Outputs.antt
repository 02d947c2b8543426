-- ===== src/Server/Exchange/Outputs.antt =====
-- What the nodes of sigimora-server/src/routes/dkg.rs end the key generation with.
use sigimora_api_backend.Base.{
  All-append_one, ℕ, zero, suc, ◌+◌, ◌≤◌, ◌<◌, ◌≡◌, ◌≢◌, refl, sym, ap, ap₂, subst, ◌∙◌, false,
  List, [], ◌∷◌, ◌++◌, append_assoc, map, filter, length, length-append, u16, All, All-map, ok,
  bind_eq, ◌==◌, ==_ne, ==_refl, arith,
}
use sigimora_api_backend.Math.Suite.{Suite}
use sigimora_api_backend.Shamir.{CryptoError}
use sigimora_api_backend.Shamir.Poly.{horner}
use sigimora_api_backend.Pedersen.{PedersenSetup}
use sigimora_api_backend.Dkg.{DkgOutput, start, finalize, my_vss_public, new}
use sigimora_api_backend.Dkg.Honest.{Dealer}
use sigimora_api_backend.Dkg.Honest.Output.{InRange}
use sigimora_api_backend.Dkg.Honest.Agreement.{
  fresh_state, new_fresh, heard_state, joint, finalize-heard_state,
}
use sigimora_api_backend.Server.Exchange.{
  start_all, commits_of, finalize_all, run_pedersen, share_loop,
}
use sigimora_api_backend.Server.Exchange.Commits.{
  IsNumbered, others, committed, shared, message, commit_loop_lem,
}
use sigimora_api_backend.Server.Exchange.Shares.{share_loop_lem}

module _ (c : Suite) where
  open c use {Scalar, G2, field, g2}

  -- Secrets are the values of a polynomial at the indices after `i`, and every key is that of its
  -- constant term.
  abbrev pub AreOutputs : List Scalar → ℕ → List (DkgOutput c) → Type 0
  AreOutputs cs i [] = Unit
  AreOutputs cs i (o ∷ os) =
      (o.my_secret ≡ horner field cs (field.from_u64 (suc i)))
      × (o.collective_pk ≡ g2.mul g2.generator (horner field cs field.zero))
      × AreOutputs cs (suc i) os

  -- The nodes of the vector, from the index `i` on.
  unfoldable pub nodes : (ℕ → ℕ → Scalar) → (ℕ → ℕ → Scalar) → ℕ → ℕ → List (Dealer c)
  nodes rngs os_rngs i zero = []
  nodes rngs os_rngs i (suc k) =
      record { id = suc i; rng = rngs i; os_rng = os_rngs i } ∷ nodes rngs os_rngs (suc i) k

  length-nodes : (rngs os_rngs : ℕ → ℕ → Scalar) (i k : ℕ) → length (nodes rngs os_rngs i k) ≡ k
  unfolding nodes
  length-nodes rngs os_rngs i zero = refl
  length-nodes rngs os_rngs i (suc k) = ap suc (length-nodes rngs os_rngs (suc i) k)

  module _ (n t : ℕ) (ped : PedersenSetup c) where
    nodes-IsNumbered :
        (rngs os_rngs : ℕ → ℕ → Scalar) (i k : ℕ) → IsNumbered c n t ped i (nodes rngs os_rngs i k)
    unfolding nodes
    nodes-IsNumbered rngs os_rngs i zero = tt
    nodes-IsNumbered rngs os_rngs i (suc k) = (refl, nodes-IsNumbered rngs os_rngs (suc i) k)

    start_all_lem :
        (rngs os_rngs : ℕ → ℕ → Scalar) (i k : ℕ)
        → t ≤ n
        → i + k ≤ n
        → n ≤ 65535
        → start_all c ped n t rngs os_rngs i k
          ≡ ok (
              map
                (λ own. committed c n t ped own (others c n t ped own []))
                (nodes rngs os_rngs i k))
    unfolding start_all nodes committed others start fresh_state
    start_all_lem rngs os_rngs i zero tn b m = refl
    start_all_lem rngs os_rngs i (suc k) tn b m =
        let own : Dealer c = record { id = suc i; rng = rngs i; os_rng = os_rngs i } in
        let id : u16 (i + 1) ≡ suc i = omega (arith, b, m) in
        bind_eq _ (
          ap (λ j. new c {E = CryptoError} n t j ped) id
          ∙ new_fresh c n t ped own tn (omega arith, omega (arith, b, m)))
        ∙ bind_eq _ (start_all_lem rngs os_rngs (suc i) k tn (omega (arith, b)) m)

    commits_of_lem :
        (ds : List (Dealer c))
        → commits_of c (map (λ own. committed c n t ped own (others c n t ped own [])) ds)
          ≡ ok (map (message c n t ped) ds)
    unfolding commits_of committed start fresh_state my_vss_public
    commits_of_lem [] = refl
    commits_of_lem (d ∷ ds) = bind_eq _ (commits_of_lem ds)

    numbered_range :
        (j : ℕ) (ds : List (Dealer c))
        → IsNumbered c n t ped j ds
        → j + length ds ≤ n
        → n ≤ 65535
        → All (InRange c n t ped) ds
    numbered_range j [] a b m = tt
    numbered_range j (d ∷ ds) (e, a) b m = (
      (omega (arith, e), omega (arith, e, b, m)),
      numbered_range (suc j) ds a (omega (arith, b)) m,
    )

    numbered_above :
        (k j : ℕ) (ds : List (Dealer c))
        → k ≤ j
        → IsNumbered c n t ped j ds
        → All (λ x. k < x.id) ds
    numbered_above k j [] h a = tt
    numbered_above k j (d ∷ ds) h (e, a) =
        (omega (arith, e, h), numbered_above k (suc j) ds (omega (arith, h)) a)

    others_same :
        (own : Dealer c) (ds : List (Dealer c))
        → All (λ x. x.id ≢ own.id) ds
        → others c n t ped own ds ≡ ds
    unfolding others
    others_same own [] a = refl
    others_same own (d ∷ ds) (h, a) =
        rw (==_ne d.id own.id h, filter) (ap (◌∷◌ d) (others_same own ds a))

    others_split :
        (own : Dealer c) (before after : List (Dealer c))
        → All (λ x. x.id < own.id) before
        → All (λ x. own.id < x.id) after
        → others c n t ped own (before ++ own ∷ after) ≡ before ++ after
    unfolding others
    others_split own [] after a b =
        rw (==_refl own.id, filter)
          (unfold others in others_same own after (All-map (λ x h e. omega (arith, h, e)) after b))
    others_split own (d ∷ before) after (h, a) b =
        let apart : (d.id == own.id) ≡ false = ground (arith, h) in
        rw (apart, filter) (ap (◌∷◌ d) (others_split own before after a b))

    finalize_all_lem :
        (ds before after : List (Dealer c))
        → before ++ after ≡ ds
        → All (InRange c n t ped) ds
        → u16 n ≤ length ds
        → IsNumbered c n t ped (length before) after
        → All (λ x. x.id ≤ length before) before
        → (outs : List (DkgOutput c)) × (finalize_all c (
              map
                (λ own. shared c n t ped own (others c n t ped own ds) (others c n t ped own ds))
                after)
            ≡ ok outs)
          × (length outs ≡ length after)
          × AreOutputs (joint c n t ped ds) (length before) outs
    unfolding finalize_all shared committed heard_state start fresh_state
    finalize_all_lem ds before [] q r k a lo = ([], refl, refl, tt)
    finalize_all_lem ds before (own ∷ after) q r k (e, a) lo =
        let count : suc (length before) ≡ length (before ++ own ∷ []) =
          omega (arith, length-append before (own ∷ [])) in
        let (out, f, secret, key) =
          finalize-heard_state c n t ped before own after
            (subst (All (InRange c n t ped)) (sym q) r) (subst (λ l. u16 n ≤ length l) (sym q) k) in
        let (outs, g, len, rest) =
          finalize_all_lem ds (before ++ own ∷ []) after (append_assoc before (own ∷ []) after ∙ q)
            r k (subst (λ j. IsNumbered c n t ped j after) count a)
            (All-append_one (λ x. x.id ≤ length (before ++ own ∷ [])) before own
              (All-map (λ x p. omega (arith, p, count)) before lo) (omega (arith, e, count))) in
        let split : others c n t ped own ds ≡ before ++ after =
          ap (others c n t ped own) (sym q)
          ∙ others_split own before after (All-map (λ x p. omega (arith, p, e)) before lo)
              (numbered_above own.id (suc (length before)) after (omega (arith, e)) a) in
        (
          out ∷ outs,
          bind_eq _ (ap (λ l. (finalize c (heard_state c n t ped own l)).1) split ∙ f)
              ∙ bind_eq _ g,
          ap suc len,
          (
            secret ∙ ap₂ (λ l i. horner field (joint c n t ped l) (field.from_u64 i)) q e,
            key ∙ ap (λ l. g2.mul g2.generator (horner field (joint c n t ped l) field.zero)) q,
            subst (λ j. AreOutputs (joint c n t ped ds) j outs) (sym count) rest,
          ),
        )

    -- The key generation between up to 65535 nodes succeeds, and the nodes end with shares of the sum
    -- of all polynomials.
    pub run_pedersen_lem :
        (rngs os_rngs : ℕ → ℕ → Scalar)
        → t ≤ n
        → n ≤ 65535
        → (outs : List (DkgOutput c)) × (run_pedersen c ped n t rngs os_rngs ≡ ok outs)
          × (length outs ≡ n)
          × AreOutputs (joint c n t ped (nodes rngs os_rngs 0 n)) 0 outs
    unfolding run_pedersen shared committed others start fresh_state
    run_pedersen_lem rngs os_rngs tn m =
        let ds = nodes rngs os_rngs 0 n in
        let len = length-nodes rngs os_rngs 0 n in
        let a = nodes-IsNumbered rngs os_rngs 0 n in
        let (outs, g, k, rest) =
          finalize_all_lem ds [] ds refl (numbered_range 0 ds a (omega (arith, len)) m)
            (omega (arith, len, m)) a tt in
        (
          outs,
          bind_eq _ (start_all_lem rngs os_rngs 0 n tn (omega arith) m)
              ∙ bind_eq _ (commits_of_lem ds)
              ∙ bind_eq _ (commit_loop_lem c n t ped 0 [] ds ds a (omega (arith, len, m)) a)
              ∙ bind_eq _ (
                  ap
                    (λ k.
                      share_loop c 0 k
                        (map (λ own. committed c n t ped own (others c n t ped own ds)) ds))
                    (sym len)
                  ∙ share_loop_lem c n t ped ds [] ds refl a tt a (omega (arith, len, m)))
              ∙ g,
          k ∙ len,
          rest,
        )
