-- ===== src/Refresh/Additive.antt =====
-- The additive refresh of sigimora-refresh/src/lib.rs.
use sigimora_api_backend.Base.{
  ℕ, zero, suc, ◌+◌, ◌≡◌, refl, sym, ap, ◌∙◌, Bool, true, false, List, [], ◌∷◌, length, range_from,
  u16, Outcome, ok, panic, ◌>>=◌, ◌==◌, if◌then◌else◌, arith, inl, inr, Bool-cases, ok_injective,
  bind_ok,
}
use sigimora_api_backend.Math.Field as Fields
use sigimora_api_backend.Math.Group.{scalars, sum_loop, sum, sum_loop-identity}
use sigimora_api_backend.Math.Suite.{Suite}
use sigimora_api_backend.Refresh.{RefreshError, less_one}

-- `v[k] = a`.
unfoldable pub set_at : {E A : Type 0} → ℕ → A → List A → Outcome E (List A)
set_at k a [] = panic
set_at zero a (x ∷ xs) = ok (a ∷ xs)
set_at (suc k) a (x ∷ xs) = do rest ← set_at k a xs; ok (x ∷ rest)

module _ (c : Suite) where
  open c use {Scalar, field}

  -- `for i in 1..=n as u16`: the shares and the sum of those that were drawn, `rng k` the next scalar.
  unfoldable pub additive_shares : ℕ → (ℕ → Scalar) → ℕ → List ℕ → Scalar → List Scalar × Scalar
  additive_shares my_id rng k [] sum_of_shares = ([], sum_of_shares)
  additive_shares my_id rng k (i ∷ ids) sum_of_shares =
      let own = additive_shares my_id rng k ids sum_of_shares in
      let other = additive_shares my_id rng (suc k) ids (field.add sum_of_shares (rng k)) in
      if i == my_id then (field.zero ∷ own.0, own.1) else (rng k ∷ other.0, other.1)

  -- `RefreshManager::additive_refresh`.
  unfoldable pub additive_refresh :
      ℕ → ℕ → (ℕ → Scalar) → Outcome RefreshError (List Scalar × Scalar)
  unfolding additive_shares set_at
  additive_refresh n my_id rng = do
    let my_delta = rng 0
    let (shares_to_send, sum_of_shares) =
        additive_shares my_id rng 1 (range_from 1 (u16 n)) field.zero
    own ← less_one my_id
    shares ← set_at own (field.add (field.negate my_delta) sum_of_shares) shares_to_send
    ok (shares, my_delta)

  -- `RefreshManager::apply_additive_refresh`.
  unfoldable apply_additive_refresh : Scalar → List Scalar → Scalar
  apply_additive_refresh current_key received_shares =
      field.add current_key (sum_loop (scalars field) field.zero received_shares)

  -- `RefreshManager::verify_additive_invariant`.
  unfoldable verify_additive_invariant : List Scalar → List Scalar → Bool
  verify_additive_invariant old_keys new_keys =
      if length old_keys == length new_keys
      then field.beq (sum_loop (scalars field) field.zero old_keys)
          (sum_loop (scalars field) field.zero new_keys)
      else false

  total : List Scalar → Scalar
  total xs = sum (scalars field) xs

  -- The party's own place holds 0, and the others hold what was drawn.
  additive_shares-total :
      (my_id : ℕ) (rng : ℕ → Scalar) (k : ℕ) (ids : List ℕ) (acc : Scalar)
      → (additive_shares my_id rng k ids acc).1
        ≡ field.add acc (total (additive_shares my_id rng k ids acc).0)
  unfolding additive_shares total sum
  additive_shares-total my_id rng k [] acc = sym (Fields.add-zero field acc)
  additive_shares-total my_id rng k (i ∷ ids) acc = elim (Bool-cases (i == my_id)) [
    | inl e ↦
        rw (e)
          (additive_shares-total my_id rng k ids acc ∙ ap (field.add acc) (sym (field.zero-add _)))
    | inr e ↦ rw (e) (
        additive_shares-total my_id rng (suc k) ids (field.add acc (rng k)) ∙ field.add_assoc _ _ _)
  ]

  own_first :
      (my_id : ℕ) (rng : ℕ → Scalar) (k i : ℕ) (ids : List ℕ) (acc : Scalar)
      → (i == my_id) ≡ true
      → (additive_shares my_id rng k (i ∷ ids) acc).0
        ≡ field.zero ∷ (additive_shares my_id rng k ids acc).0
  unfolding additive_shares
  own_first my_id rng k i ids acc e = rw (e, additive_shares) refl

  other_first :
      (my_id : ℕ) (rng : ℕ → Scalar) (k i : ℕ) (ids : List ℕ) (acc : Scalar)
      → (i == my_id) ≡ false
      → (additive_shares my_id rng k (i ∷ ids) acc).0
        ≡ rng k ∷ (additive_shares my_id rng (suc k) ids (field.add acc (rng k))).0
  unfolding additive_shares
  other_first my_id rng k i ids acc e = rw (e, additive_shares) refl

  -- Setting the place of an id of the range, which holds 0, adds to the total.
  set_at-total :
      (my_id : ℕ) (rng : ℕ → Scalar) (j a k n : ℕ) (acc v : Scalar) (shares : List Scalar)
      → my_id ≡ a + j
      → set_at {E = RefreshError} j v (additive_shares my_id rng k (range_from a n) acc).0
        ≡ ok shares
      → total shares ≡ field.add v (total (additive_shares my_id rng k (range_from a n) acc).0)
  unfolding set_at total sum
  set_at-total my_id rng j a k zero acc v shares e r = unfold additive_shares in cc
  set_at-total my_id rng zero a k (suc n) acc v shares e r =
      let q = own_first my_id rng k a (range_from (suc a) n) acc (ground arith) in
      ap total (sym (ok_injective (ap (set_at {E = RefreshError} zero v) (sym q) ∙ r)))
      ∙ ap (field.add v) (sym (field.zero-add _))
      ∙ ap (λ l. field.add v (total l)) (sym q)
  set_at-total my_id rng (suc j) a k (suc n) acc v shares e r =
      let q = other_first my_id rng k a (range_from (suc a) n) acc (ground arith) in
      let (rest, t, u) = bind_ok _ _ _ (ap (set_at {E = RefreshError} (suc j) v) (sym q) ∙ r) in
      ap total (sym (ok_injective u))
      ∙ ap (field.add (rng k)) (
          set_at-total my_id rng j (suc a) (suc k) n (field.add acc (rng k)) v rest (omega arith) t)
      ∙ Fields.add_left_comm field (rng k) v _
      ∙ ap (λ l. field.add v (total l)) (sym q)

  less_one_ok : (m own : ℕ) → less_one {E = RefreshError} m ≡ ok own → m ≡ 1 + own
  unfolding less_one
  less_one_ok zero own e = cc
  less_one_ok (suc m) own e = let q : m ≡ own = ok_injective e in omega (arith, q)

  -- The shares that `additive_refresh` returns add up to twice the shares drawn for the others less the
  -- party's delta.
  pub additive_refresh_total :
      (n my_id : ℕ) (rng : ℕ → Scalar) (shares : List Scalar) (delta : Scalar)
      → additive_refresh n my_id rng ≡ ok (shares, delta)
      → let drawn = (additive_shares my_id rng 1 (range_from 1 (u16 n)) field.zero).1 in
        sum_loop (scalars field) field.zero shares ≡ field.sub (field.add drawn drawn) delta
  unfolding additive_refresh total
  additive_refresh_total n my_id rng shares delta e =
      let loop = additive_shares my_id rng 1 (range_from 1 (u16 n)) field.zero in
      let (own, o, r) = bind_ok (less_one my_id) _ _ e in
      let (set, t, u) =
        bind_ok (set_at own (field.add (field.negate (rng 0)) loop.1) loop.0) _ _ r in
      let both : (set, rng 0) ≡ (shares, delta) = ok_injective u in
      let drawn : total loop.0 ≡ loop.1 =
        sym (
          additive_shares-total my_id rng 1 (range_from 1 (u16 n)) field.zero ∙ field.zero-add _) in
      sum_loop-identity (scalars field) shares
      ∙ ap (λ p. total p.0) (sym both)
      ∙ set_at-total my_id rng own 1 1 (u16 n) field.zero _ set (less_one_ok my_id own o) t
      ∙ ap (field.add (field.add (field.negate (rng 0)) loop.1)) drawn
      ∙ ap (λ x. field.add (field.add (field.negate x) loop.1) loop.1) (ap (λ p. p.1) both)
      ∙ field.add_assoc _ _ _
      ∙ field.add_comm _ _
      ∙ sym (field.sub_eq _ _)
