-- ===== src/Ledger/Maps.antt =====
-- Hash maps whose keys are byte strings, as the lists of their entries.
use sigimora_api_backend.Base.{
  suc, ◌≡◌, refl, sym, ap, ap₂, subst, ◌∙◌, inl, inr, Bool, true, false, not, ◌&&◌, ◌||◌, Option,
  some, none, List, [], ◌∷◌, length, ◌==◌, ==_refl, Bool-cases, All, if◌then◌else◌, arith,
}
use sigimora_api_backend.Math.Suite.{Bytes}

-- `==` on strings.
abbrev pub same_id : Bytes → Bytes → Bool
same_id [] [] = true
same_id [] (b ∷ bs) = false
same_id (a ∷ bs) [] = false
same_id (a ∷ bs) (b ∷ cs) = (a == b) && same_id bs cs

pub same_id_refl : (a : Bytes) → same_id a a ≡ true
same_id_refl [] = refl
same_id_refl (a ∷ bs) = rw (==_refl a) (same_id_refl bs)

pub same_id_eq : (a b : Bytes) → same_id a b ≡ true → a ≡ b
same_id_eq [] [] h = refl
same_id_eq [] (b ∷ bs) h = cc
same_id_eq (a ∷ bs) [] h = cc
same_id_eq (a ∷ bs) (b ∷ cs) h =
    let heads : a ≡ b = ground arith in
    let tails : same_id bs cs ≡ true = ground arith in ap₂ ◌∷◌ heads (same_id_eq bs cs tails)

module _ {A : Type 0} where
  -- `contains_key`.
  unfoldable pub has_key : Bytes → List (Bytes × A) → Bool
  has_key k [] = false
  has_key k ((j, b) ∷ m) = same_id j k || has_key k m

  -- `get`, `get_mut`.
  unfoldable pub lookup : Bytes → List (Bytes × A) → Option A
  lookup k [] = none
  lookup k ((j, b) ∷ m) = if same_id j k then some b else lookup k m

  unfoldable pub insert : Bytes → A → List (Bytes × A) → List (Bytes × A)
  insert k a [] = (k, a) ∷ []
  insert k a ((j, b) ∷ m) =
      let rest = insert k a m in if same_id j k then (k, a) ∷ m else (j, b) ∷ rest

  unfoldable pub remove : Bytes → List (Bytes × A) → List (Bytes × A)
  remove k [] = []
  remove k ((j, b) ∷ m) = let rest = remove k m in if same_id j k then rest else (j, b) ∷ rest

  pub has_key-insert :
      (k : Bytes) (a : A) (m : List (Bytes × A)) (i : Bytes)
      → has_key i (insert k a m) ≡ (same_id k i || has_key i m)
  unfolding has_key insert
  has_key-insert k a [] i = refl
  has_key-insert k a ((j, b) ∷ m) i = elim (Bool-cases (same_id j k)) [
    | inl e ↦ rw (e, same_id_eq j k e) (or_same (same_id k i) (has_key i m))
    | inr e ↦ ground (arith, has_key-insert k a m i)
  ]
    where
      or_same : (x y : Bool) → (x || y) ≡ (x || (x || y))
      or_same true y = refl
      or_same false y = refl

  pub has_key-remove :
      (k : Bytes) (m : List (Bytes × A)) (i : Bytes)
      → has_key i (remove k m) ≡ (not (same_id k i) && has_key i m)
  unfolding has_key remove
  has_key-remove k [] i = ground arith
  has_key-remove k ((j, b) ∷ m) i = elim (Bool-cases (same_id j k)) [
    | inl e ↦ rw (e, same_id_eq j k e) (ground (arith, has_key-remove k m i))
    | inr e ↦ elim (Bool-cases (same_id k i)) [
      | inl q ↦
          let apart : same_id j i ≡ false = subst (λ x. same_id j x ≡ false) (same_id_eq k i q) e in
          ground (arith, has_key-remove k m i)
      | inr q ↦ ground (arith, has_key-remove k m i)
    ]
  ]

  pub length-insert :
      (k : Bytes) (a : A) (m : List (Bytes × A))
      → has_key k m ≡ false
      → length (insert k a m) ≡ suc (length m)
  unfolding has_key insert
  length-insert k a [] h = refl
  length-insert k a ((j, b) ∷ m) h = ground (arith, length-insert k a m)

  pub lookup-has_key :
      (k : Bytes) (m : List (Bytes × A)) (a : A) → lookup k m ≡ some a → has_key k m ≡ true
  unfolding has_key lookup
  lookup-has_key k [] a h = cc
  lookup-has_key k ((j, b) ∷ m) a h = ground (arith, lookup-has_key k m a)

  pub lookup-insert_other :
      (k i : Bytes) (a : A) (m : List (Bytes × A))
      → same_id k i ≡ false
      → lookup i (insert k a m) ≡ lookup i m
  unfolding lookup insert
  lookup-insert_other k i a [] h = rw (h) refl
  lookup-insert_other k i a ((j, b) ∷ m) h = elim (Bool-cases (same_id j k)) [
    | inl e ↦
        let apart : same_id j i ≡ false =
          subst (λ x. same_id x i ≡ false) (sym (same_id_eq j k e)) h in
        rw (e, h, apart) refl
    | inr e ↦ rw (e) (ap (λ t. if same_id j i then some b else t) (lookup-insert_other k i a m h))
  ]

  -- What holds of every entry holds of the one that is found, and of all that `insert` and `remove`
  -- leave.
  pub lookup-All :
      (P : Bytes → A → Type 0) (k : Bytes) (m : List (Bytes × A)) (a : A)
      → All (λ e. P e.0 e.1) m
      → lookup k m ≡ some a
      → P k a
  unfolding lookup
  lookup-All P k [] a h e = cc
  lookup-All P k ((j, b) ∷ m) a (h, hs) e = elim (Bool-cases (same_id j k)) [
    | inl q ↦
        let found : b ≡ a = inside b a (ap (λ t. if t then some b else lookup k m) (sym q) ∙ e) in
        subst (λ x. P x a) (same_id_eq j k q) (subst (P j) found h)
    | inr q ↦ lookup-All P k m a hs (ap (λ t. if t then some b else lookup k m) (sym q) ∙ e)
  ]
    where
      inside : (x y : A) → some x ≡ some y → x ≡ y
      inside x y e = cc

  pub insert-All :
      (P : Bytes → A → Type 0) (k : Bytes) (a : A) (m : List (Bytes × A))
      → P k a
      → All (λ e. P e.0 e.1) m
      → All (λ e. P e.0 e.1) (insert k a m)
  unfolding insert
  insert-All P k a [] p h = (p, tt)
  insert-All P k a ((j, b) ∷ m) p (h, hs) = elim (Bool-cases (same_id j k)) [
    | inl q ↦ rw (q) (p, hs)
    | inr q ↦ rw (q) (h, insert-All P k a m p hs)
  ]

  pub remove-All :
      (P : Bytes → A → Type 0) (k : Bytes) (m : List (Bytes × A))
      → All (λ e. P e.0 e.1) m
      → All (λ e. P e.0 e.1) (remove k m)
  unfolding remove
  remove-All P k [] h = tt
  remove-All P k ((j, b) ∷ m) (h, hs) = elim (Bool-cases (same_id j k)) [
    | inl q ↦ rw (q) (remove-All P k m hs)
    | inr q ↦ rw (q) (h, remove-All P k m hs)
  ]
