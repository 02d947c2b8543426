-- ===== src/Refresh/Steps.antt =====
-- The calls that a party of sigimora-refresh/src/lib.rs can receive, and what every sequence keeps.
use sigimora_api_backend.Base.{ℕ, ◌≡◌, List, [], ◌∷◌, ◌++◌, All, ok, inl, inr, Outcome-cases}
use sigimora_api_backend.Math.Suite.{Suite}
use sigimora_api_backend.Pedersen.{PedersenSetup}
use sigimora_api_backend.Refresh.{
  RefreshState, RefreshContribution, new, start, add_contribution, apply_refresh,
  verify_contribution, committed,
}

All-append_one :
    {A : Type 0} (P : A → Type 0) (xs : List A) (a : A) → All P xs → P a → All P (xs ++ a ∷ [])
All-append_one P [] a h p = (p, tt)
All-append_one P (x ∷ xs) a (q, h) p = (q, All-append_one P xs a h p)

module _ (c : Suite) where
  -- One call of one method that changes the state, whatever it returns.
  pub data Step (s : RefreshState c) : RefreshState c → Type 0 where
    started : (rng : ℕ → c.Scalar) → Step s (start c rng s)
    got_contribution : (contrib : RefreshContribution c) → Step s (add_contribution c contrib s).0
    refreshed : (new_key : c.Scalar) → Step s (apply_refresh c new_key s)

  -- Any number of calls.
  pub data Steps (s : RefreshState c) : RefreshState c → Type 0 where
    none_yet : Steps s s
    one_more : (s' s'' : RefreshState c) → Steps s s' → Step s' s'' → Steps s s''

  -- The party accepts every contribution that it holds.
  unfoldable pub IsSound : RefreshState c → Type 0
  IsSound s = All (λ k. verify_contribution c s k ≡ ok tt) s.contributions

  IsSound-added :
      (s : RefreshState c) (k : RefreshContribution c)
      → IsSound s
      → verify_contribution c s k ≡ ok tt
      → IsSound (record s { contributions = s.contributions ++ k ∷ []; round = committed })
  unfolding IsSound verify_contribution
  IsSound-added s k h e =
      All-append_one (λ x. verify_contribution c s x ≡ ok tt) s.contributions k h e

  add_contribution-IsSound :
      (s : RefreshState c) (k : RefreshContribution c)
      → IsSound s
      → IsSound (add_contribution c k s).0
  unfolding add_contribution
  add_contribution-IsSound s k h = elim (Outcome-cases (verify_contribution c s k)) [
    | inl (u, e) ↦ rw (e) (IsSound-added s k h e)
    | inr (inl (x, e)) ↦ rw (e) h
    | inr (inr e) ↦ rw (e) h
  ]

  Step-IsSound : (s s' : RefreshState c) → Step s s' → IsSound s → IsSound s'
  Step-IsSound s _ (started rng) h = unfold start IsSound verify_contribution in h
  Step-IsSound s _ (got_contribution k) h = add_contribution-IsSound s k h
  Step-IsSound s _ (refreshed key) h = unfold apply_refresh IsSound verify_contribution in h

  -- However the calls to a new party come, it accepts every contribution that it holds: the share for
  -- the party fits the contribution's commitments, the first of which is the identity.
  Steps-IsSound :
      (epoch : ℕ) (key : c.Scalar) (n t my_id : ℕ) (ped : PedersenSetup c) (s : RefreshState c)
      → Steps (new c epoch key n t my_id ped) s
      → IsSound s
  Steps-IsSound epoch key n t my_id ped _ none_yet = unfold new IsSound in tt
  Steps-IsSound epoch key n t my_id ped _ (one_more s' s'' ss st) =
      Step-IsSound s' s'' st (Steps-IsSound epoch key n t my_id ped s' ss)
