-- ===== src/Base/Lists.antt =====
-- Lists measured and searched with native numbers, under the library's names.
use Prim.Native.Nat.{ℕ, zero, suc, ◌+◌, ◌%◌, ◌≤◌}
use mathlib.Core.Path.{◌≡◌, refl, sym, ap, subst}
use mathlib.Core.Logic.{◌⊎◌, inl, inr}
use mathlib.Core.Bool.{Bool, false, ◌||◌}
use mathlib.Core.List.{List, [], ◌∷◌, ◌++◌, map}
use mathlib.Core.Option.{Option, none, some}
use native.Mathlib.Omega.{arith}
use sigimora_api_backend.Base.Tests.{◌==◌, ==_refl, if◌then◌else◌, Bool-cases}

module _ {ℓ} {A : Type ℓ} where
  abbrev pub length : List A → ℕ
  length [] = 0
  length (x ∷ xs) = suc (length xs)

  abbrev pub get_elem? : List A → ℕ → Option A
  get_elem? [] i = none
  get_elem? (x ∷ xs) zero = some x
  get_elem? (x ∷ xs) (suc i) = get_elem? xs i

  abbrev pub take : ℕ → List A → List A
  take zero xs = []
  take (suc n) [] = []
  take (suc n) (x ∷ xs) = x ∷ take n xs

  abbrev pub drop : ℕ → List A → List A
  drop zero xs = xs
  drop (suc n) [] = []
  drop (suc n) (x ∷ xs) = drop n xs

  -- `iter().filter(p).collect()`.
  abbrev pub filter : (A → Bool) → List A → List A
  filter p [] = []
  filter p (x ∷ xs) = let rest = filter p xs in if p x then x ∷ rest else rest

  -- `iter().find(p)`.
  abbrev pub find : (A → Bool) → List A → Option A
  find p [] = none
  find p (x ∷ xs) = if p x then some x else find p xs

  -- `iter().any(p)`.
  abbrev pub any : (A → Bool) → List A → Bool
  any p [] = false
  any p (x ∷ xs) = p x || any p xs

  pub length-append : (xs ys : List A) → length (xs ++ ys) ≡ length xs + length ys
  length-append [] ys = omega arith
  length-append (x ∷ xs) ys = omega (arith, length-append xs ys)

  length-filter-le : (p : A → Bool) (xs : List A) → length (filter p xs) ≤ length xs
  length-filter-le p [] = omega arith
  length-filter-le p (x ∷ xs) = ground (arith, length-filter-le p xs)

  -- A predicate of every element.
  abbrev pub All {κ} : (A → Type κ) → List A → Type κ
  All P [] = Unit
  All P (x ∷ xs) = P x × All P xs

pub length-map {ℓ κ} :
    {A : Type ℓ} {B : Type κ} (f : A → B) (xs : List A) → length (map f xs) ≡ length xs
length-map f [] = refl
length-map f (x ∷ xs) = ap suc (length-map f xs)

pub All-map {ℓ κ μ} :
    {A : Type ℓ} {P : A → Type κ} {Q : A → Type μ}
    → ((a : A) → P a → Q a)
    → (xs : List A) → All P xs
    → All Q xs
All-map f [] h = tt
All-map f (x ∷ xs) h = (f x h.0, All-map f xs h.1)

pub All-of {ℓ κ} : {A : Type ℓ} {P : A → Type κ} → ((a : A) → P a) → (xs : List A) → All P xs
All-of f [] = tt
All-of f (x ∷ xs) = (f x, All-of f xs)

-- `xs.iter().zip(ys.iter())`.
abbrev pub zip {ℓ κ} : {A : Type ℓ} {B : Type κ} → List A → List B → List (A × B)
zip [] ys = []
zip (x ∷ xs) [] = []
zip (x ∷ xs) (y ∷ ys) = (x, y) ∷ zip xs ys

-- `slice.contains(&a)` on participant ids.
abbrev pub contains : List ℕ → ℕ → Bool
contains xs a = any (λ x. x == a) xs

-- `(a..=b).collect()` as `range_from a (b + 1 - a)`.
abbrev pub range_from : ℕ → ℕ → List ℕ
range_from a zero = []
range_from a (suc k) = a ∷ range_from (suc a) k

-- `x as u16`.
abbrev pub u16 : ℕ → ℕ
u16 n = n % 65536

-- `for _ in 0..n { v.push(random(rng)) }`: `rng k` is the k-th value that the generator yields.
abbrev pub draws {ℓ} : {A : Type ℓ} → (ℕ → A) → ℕ → ℕ → List A
draws rng k zero = []
draws rng k (suc n) = rng k ∷ draws rng (suc k) n

pub length-draws {ℓ} : {A : Type ℓ} (rng : ℕ → A) (k n : ℕ) → length (draws rng k n) ≡ n
length-draws rng k zero = refl
length-draws rng k (suc n) = ap suc (length-draws rng (suc k) n)

-- `a` is one of the elements.
abbrev pub Elem : {A : Type 0} → A → List A → Type 0
Elem a [] = ⊥
Elem a (x ∷ xs) = (a ≡ x) ⊎ Elem a xs

pub All-Elem {κ} : {A : Type 0} (P : A → Type κ) {a : A} (xs : List A) → All P xs → Elem a xs → P a
All-Elem P [] h e = absurd e
All-Elem P (x ∷ xs) h (inl e) = subst P (sym e) h.0
All-Elem P (x ∷ xs) h (inr e) = All-Elem P xs h.1 e

pub All-append_middle {ℓ κ} :
    {A : Type ℓ} (P : A → Type κ) (xs : List A) (a : A) (ys : List A) → All P (xs ++ a ∷ ys) → P a
All-append_middle P [] a ys h = h.0
All-append_middle P (x ∷ xs) a ys h = All-append_middle P xs a ys h.1

-- `HashMap::insert`.
abbrev pub insert_entry : {A : Type 0} → ℕ → A → List (ℕ × A) → List (ℕ × A)
insert_entry k a [] = (k, a) ∷ []
insert_entry k a ((j, b) ∷ rest) = if j == k then (k, a) ∷ rest else (j, b) ∷ insert_entry k a rest

pub find-insert_entry_same :
    {A : Type 0} (k : ℕ) (a : A) (m : List (ℕ × A))
    → find (λ e. e.0 == k) (insert_entry k a m) ≡ some (k, a)
find-insert_entry_same k a [] = rw (==_refl k, find) refl
find-insert_entry_same k a ((j, b) ∷ m) = elim (Bool-cases (j == k)) [
  | inl e ↦ rw (e, insert_entry) (rw (==_refl k, find) refl)
  | inr e ↦ rw (e, insert_entry) (rw (e, find) (find-insert_entry_same k a m))
]

pub find-insert_entry_other :
    {A : Type 0} (k i : ℕ) (a : A) (m : List (ℕ × A))
    → (k == i) ≡ false
    → find (λ e. e.0 == i) (insert_entry k a m) ≡ find (λ e. e.0 == i) m
find-insert_entry_other k i a [] h = rw (h, find) refl
find-insert_entry_other k i a ((j, b) ∷ m) h = elim (Bool-cases (j == k)) [
  | inl e ↦
      let other : (j == i) ≡ false = ground arith in rw (e, insert_entry) (rw (h, other, find) refl)
  | inr e ↦
      rw (e, insert_entry)
        (ap (λ o. if j == i then some (j, b) else o) (find-insert_entry_other k i a m h))
]
