-- ===== src/Refresh.antt =====
-- sigimora-refresh/src/lib.rs: shares are renewed by polynomials without constant term. A participant
-- id is a natural number below 2 ^ 16.
pub mod Contributions
pub mod Invariant
pub mod Additive
pub mod Steps
use sigimora_api_backend.Base.{
  ℕ, zero, suc, Bool, true, false, not, Option, some, none, List, [], ◌∷◌, ◌++◌, map, filter, find,
  length, get_elem?, range_from, u16, Outcome, ok, err, panic, ◌>>=◌, ◌>>◌, guard, ltb, ◌==◌,
  if◌then◌else◌,
}
use sigimora_api_backend.Base.Stateful as Stateful
use sigimora_api_backend.Base.Stateful.{Run}
use sigimora_api_backend.Math.Group.{scalars, sum_loop}
use sigimora_api_backend.Math.Suite.{Suite}
use sigimora_api_backend.Shamir.{lagrange_at_zero}
use sigimora_api_backend.Pedersen.{
  PedersenSetup, VssPublic, VssShare, PrivatePoly, random_with_zero_constant, commit_poly, eval,
  verify_share, setup_deterministic,
}

-- The errors of sigimora-refresh/src/error.rs that the code returns, without their texts.
pub data RefreshError : Type 0 where
  missing_share : RefreshError
  verification_failed : ℕ → RefreshError
  invalid_commitment : RefreshError
  insufficient_contributions : ℕ → ℕ → RefreshError
  no_key : RefreshError

pub data RefreshRound : Type 0 where
  idle committed deltas_verified complete : RefreshRound

-- `x - 1` on a `usize`, in a build that checks for overflow.
unfoldable pub less_one : {E : Type 0} → ℕ → Outcome E ℕ
less_one zero = panic
less_one (suc n) = ok n

module _ (c : Suite) where
  open c use {Scalar, G1, G2, field, g1, g2}

  pub record RefreshContribution : Type 0 where
    pub from : ℕ
    pub epoch : ℕ
    pub vss_public : VssPublic c
    pub shares : List (VssShare c)

  pub record RefreshState : Type 0 where
    pub epoch : ℕ
    pub n : ℕ
    pub t : ℕ
    pub my_id : ℕ
    pub my_key : Option Scalar
    pub my_poly : Option (PrivatePoly c)
    pub pedersen : PedersenSetup c
    pub contributions : List RefreshContribution
    pub round : RefreshRound

  -- `RefreshState::new`.
  unfoldable pub new : ℕ → Scalar → ℕ → ℕ → ℕ → PedersenSetup c → RefreshState
  new epoch my_key n t my_id pedersen = record {
    epoch = epoch;
    n = n;
    t = t;
    my_id = my_id;
    my_key = some my_key;
    my_poly = none;
    pedersen = pedersen;
    contributions = [];
    round = idle;
  }

  -- `RefreshState::start`; `rng k` is the k-th scalar that the generator yields.
  unfoldable pub start : (ℕ → Scalar) → RefreshState → RefreshState
  start rng s = record s {
    my_poly = some (random_with_zero_constant c s.t s.pedersen rng);
    round = idle;
  }

  -- A polynomial's commitments and its shares for the ids 1 to n.
  unfoldable pub contribution_of : ℕ → ℕ → ℕ → PrivatePoly c → RefreshContribution
  contribution_of party epoch n poly = record {
    from = party;
    epoch = epoch;
    vss_public = commit_poly c poly;
    shares = map (eval c poly) (range_from 1 (u16 n));
  }

  -- `RefreshState::my_contribution`.
  unfoldable pub my_contribution : RefreshState → Option RefreshContribution
  unfolding contribution_of
  my_contribution s = elim s.my_poly [
    | none ↦ none
    | some poly ↦ some (contribution_of s.my_id s.epoch s.n poly)
  ]

  -- `if &contrib.vss_public.commitments[0] != &G1Point::identity() { return Err(..) }`.
  unfoldable pub check_constant : List G1 → Outcome RefreshError (Unit {0})
  check_constant [] = panic
  check_constant (p ∷ ps) = guard (g1.beq p g1.identity) invalid_commitment

  -- `verify_contribution` from `shares_for_me` on.
  unfoldable pub verify_for_me :
      ℕ
      → PedersenSetup c
      → RefreshContribution
      → List (VssShare c)
      → Outcome RefreshError (Unit {0})
  unfolding check_constant
  verify_for_me my_id pedersen contrib [] = err missing_share
  verify_for_me my_id pedersen contrib (share ∷ more) = do
    guard (verify_share c contrib.vss_public my_id share.value share.blinding pedersen)
        (verification_failed contrib.from)
    check_constant contrib.vss_public.commitments

  -- `RefreshState::verify_contribution`.
  unfoldable pub verify_contribution :
      RefreshState → RefreshContribution → Outcome RefreshError (Unit {0})
  unfolding verify_for_me
  verify_contribution s contrib =
      verify_for_me s.my_id s.pedersen contrib (filter (λ sh. sh.index == s.my_id) contrib.shares)

  -- `RefreshState::add_contribution`.
  unfoldable pub add_contribution : RefreshContribution → Run RefreshState RefreshError (Unit {0})
  unfolding verify_contribution
  add_contribution contrib s =
      Stateful.follow
        (λ _.
          Stateful.modify
            (λ s. record s { contributions = s.contributions ++ contrib ∷ []; round = committed }))
        (s, verify_contribution s contrib)

  -- `RefreshState::all_contributions_received`.
  unfoldable all_contributions_received : {E : Type 0} → RefreshState → Outcome E Bool
  unfolding less_one
  all_contributions_received s = do others ← less_one s.n; ok (length s.contributions == others)

  -- `if shares_for_me.is_empty() { continue; } delta_sum = delta_sum.add(&shares_for_me[0].value)`.
  unfoldable pub add_share : Scalar → List (VssShare c) → Scalar
  add_share delta_sum [] = delta_sum
  add_share delta_sum (share ∷ more) = field.add delta_sum share.value

  unfoldable pub delta_loop : ℕ → Scalar → List RefreshContribution → Scalar
  unfolding add_share
  delta_loop my_id delta_sum [] = delta_sum
  delta_loop my_id delta_sum (contrib ∷ rest) =
      delta_loop my_id (add_share delta_sum (filter (λ sh. sh.index == my_id) contrib.shares)) rest

  -- `if let Some(current_key) = &self.my_key`.
  unfoldable pub add_to_key : Option Scalar → Scalar → Outcome RefreshError Scalar
  add_to_key none delta_sum = err no_key
  add_to_key (some current_key) delta_sum = ok (field.add current_key delta_sum)

  -- `RefreshState::compute_new_key`.
  unfoldable pub compute_new_key : RefreshState → Outcome RefreshError Scalar
  unfolding less_one delta_loop add_to_key
  compute_new_key s = do
    others ← less_one s.n
    guard (not (ltb (length s.contributions) others))
        (insufficient_contributions others (length s.contributions))
    add_to_key s.my_key (delta_loop s.my_id field.zero s.contributions)

  -- `RefreshState::apply_refresh`.
  unfoldable pub apply_refresh : Scalar → RefreshState → RefreshState
  apply_refresh new_key s = record s { my_key = some new_key; my_poly = none; round = complete }

  -- `RefreshState::is_complete`.
  unfoldable is_complete : RefreshState → Bool
  is_complete s = elim s.round [ complete ↦ true | _ ↦ false ]

  pub record RefreshManager : Type 0 where
    pub n : ℕ
    pub t : ℕ
    pub pedersen : PedersenSetup c

  -- `RefreshManager::new`.
  unfoldable pub manager : ℕ → ℕ → RefreshManager
  manager n t = record { n = n; t = t; pedersen = setup_deterministic c }

  -- `RefreshManager::generate_contribution`.
  unfoldable pub generate_contribution : RefreshManager → ℕ → (ℕ → Scalar) → RefreshContribution
  unfolding contribution_of
  generate_contribution m party rng =
      contribution_of party 0 m.n (random_with_zero_constant c m.t m.pedersen rng)

  unfoldable pub apply_loop : ℕ → Scalar → List RefreshContribution → Scalar
  apply_loop party_id delta_sum [] = delta_sum
  apply_loop party_id delta_sum (contrib ∷ rest) =
      apply_loop party_id
        (elim (find (λ sh. sh.index == party_id) contrib.shares) [
          | none ↦ delta_sum
          | some share ↦ field.add delta_sum share.value
        ])
        rest

  -- `RefreshManager::apply_contributions`.
  unfoldable pub apply_contributions :
      Scalar → ℕ → List RefreshContribution → Outcome RefreshError Scalar
  unfolding apply_loop
  apply_contributions current_key party_id contributions =
      ok (field.add current_key (apply_loop party_id field.zero contributions))

  -- `if pk_idx < old_pks.len() && pk_idx < new_pks.len()`.
  unfoldable pub add_keys : Option G2 → Option G2 → Scalar → G2 × G2 → G2 × G2
  add_keys (some old) (some new) lambda (old_sum, new_sum) =
      (g2.add old_sum (g2.mul old lambda), g2.add new_sum (g2.mul new lambda))
  add_keys (some old) none lambda sums = sums
  add_keys none new lambda sums = sums

  unfoldable pub key_loop :
      {E : Type 0} → List G2 → List G2 → List ℕ → List Scalar → G2 × G2 → Outcome E (G2 × G2)
  unfolding less_one add_keys
  key_loop old_pks new_pks [] lambdas sums = ok sums
  key_loop old_pks new_pks (idx ∷ quorum) [] sums = ok sums
  key_loop old_pks new_pks (idx ∷ quorum) (lambda ∷ lambdas) sums = do
    pk_idx ← less_one idx
    key_loop old_pks new_pks quorum lambdas
        (add_keys (get_elem? old_pks pk_idx) (get_elem? new_pks pk_idx) lambda sums)

  -- `RefreshManager::verify_collective_key_invariant`.
  unfoldable pub verify_collective_key_invariant :
      {E : Type 0} → List G2 → List G2 → List ℕ → Outcome E Bool
  unfolding key_loop
  verify_collective_key_invariant old_pks new_pks quorum = do
    lambdas ← lagrange_at_zero field quorum
    sums ← key_loop old_pks new_pks quorum lambdas (g2.identity, g2.identity)
    ok (g2.beq sums.0 sums.1)
