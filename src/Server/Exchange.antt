-- ===== src/Server/Exchange.antt =====
-- sigimora-server/src/routes/dkg.rs: the messages of the key generation between the states of all
-- nodes, which the server holds in one vector.
pub mod Commits
pub mod Shares
pub mod Outputs
use sigimora_api_backend.Base.{
  ℕ, zero, suc, ◌+◌, ◌==◌, if◌then◌else◌, List, [], ◌∷◌, get_elem?, u16, Outcome, ok, ◌>>=◌, unwrap,
  ok_or,
}
use sigimora_api_backend.Math.Suite.{Suite}
use sigimora_api_backend.Shamir.{CryptoError, dkg_error}
use sigimora_api_backend.Pedersen.{PedersenSetup, VssPublic}
use sigimora_api_backend.Dkg.{
  DkgState, DkgOutput, new, start, my_vss_public, shares_for, process_participant_commit,
  process_received_share, finalize,
}

module _ (c : Suite) where
  open c use {Scalar, G1, G2}

  -- `(0..n).map(|i| { DkgState::new(..); s.start(..); s })`, from `i` on.
  unfoldable pub start_all :
      PedersenSetup c
      → ℕ
      → ℕ
      → (ℕ → ℕ → Scalar)
      → (ℕ → ℕ → Scalar)
      → ℕ
      → ℕ
      → Outcome CryptoError (List (DkgState c))
  start_all pedersen n t rngs os_rngs i zero = ok []
  start_all pedersen n t rngs os_rngs i (suc k) = do
    s ← new c n t (u16 (i + 1)) pedersen
    rest ← start_all pedersen n t rngs os_rngs (suc i) k
    ok (start c (rngs i) (os_rngs i) s ∷ rest)

  -- What the nodes send: `pks`, `pops` and `vss_list`.
  unfoldable pub commits_of : List (DkgState c) → Outcome CryptoError (List (G2 × G1 × VssPublic c))
  commits_of [] = ok []
  commits_of (s ∷ ss) = do
    pk ← unwrap s.my_public_key
    pop ← unwrap s.my_pop
    vss ← unwrap (my_vss_public c s)
    rest ← commits_of ss
    ok ((pk, pop, vss) ∷ rest)

  -- `for j in 0..n { if i != j { dkg_states[j].process_participant_commit(..)?; } }`.
  unfoldable pub commit_row :
      ℕ → G2 × G1 × VssPublic c → ℕ → List (DkgState c) → Outcome CryptoError (List (DkgState c))
  commit_row i m j [] = ok []
  commit_row i m j (s ∷ ss) = do
    s' ← if i == j then ok s else process_participant_commit c (u16 i + 1) m.0 m.1 m.2 s
    rest ← commit_row i m (suc j) ss
    ok (s' ∷ rest)

  unfoldable pub commit_loop :
      ℕ → List (G2 × G1 × VssPublic c) → List (DkgState c) → Outcome CryptoError (List (DkgState c))
  unfolding commit_row
  commit_loop i [] ss = ok ss
  commit_loop i (m ∷ ms) ss = do ss' ← commit_row i m 0 ss; commit_loop (suc i) ms ss'

  -- The inner loop of the exchange of shares, from the state of node `i`.
  unfoldable pub share_row :
      ℕ → DkgState c → ℕ → List (DkgState c) → Outcome CryptoError (List (DkgState c))
  share_row i sender j [] = ok []
  share_row i sender j (s ∷ ss) = do
    s' ← if i == j then ok s else do
      share ← ok_or (shares_for c (u16 (j + 1)) sender) dkg_error
      process_received_share c (u16 i + 1) share s
    rest ← share_row i sender (suc j) ss
    ok (s' ∷ rest)

  -- `k` rounds of the outer loop, from `i` on.
  unfoldable pub share_loop : ℕ → ℕ → List (DkgState c) → Outcome CryptoError (List (DkgState c))
  unfolding share_row
  share_loop i zero ss = ok ss
  share_loop i (suc k) ss = do
    sender ← unwrap (get_elem? ss i)
    ss' ← share_row i sender 0 ss
    share_loop (suc i) k ss'

  unfoldable pub finalize_all : List (DkgState c) → Outcome CryptoError (List (DkgOutput c))
  finalize_all [] = ok []
  finalize_all (s ∷ ss) = do out ← (finalize c s).1; rest ← finalize_all ss; ok (out ∷ rest)

  -- The key generation between `n` nodes, up to their outputs.
  unfoldable pub run_pedersen :
      PedersenSetup c
      → ℕ
      → ℕ
      → (ℕ → ℕ → Scalar)
      → (ℕ → ℕ → Scalar)
      → Outcome CryptoError (List (DkgOutput c))
  unfolding start_all commits_of commit_loop share_loop finalize_all
  run_pedersen pedersen n t rngs os_rngs = do
    states ← start_all pedersen n t rngs os_rngs 0 n
    commits ← commits_of states
    committed ← commit_loop 0 commits states
    shared ← share_loop 0 n committed
    finalize_all shared
