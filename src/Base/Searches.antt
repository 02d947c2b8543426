-- ===== src/Base/Searches.antt =====
-- Lists that are searched after a row is added to them or removed.
use mathlib.Core.Path.{◌≡◌, refl, sym, ap, subst, ◌∙◌}
use mathlib.Core.Logic.{inl, inr}
use mathlib.Core.Bool.{Bool, true, false}
use mathlib.Core.List.{List, [], ◌∷◌, ◌++◌}
use mathlib.Core.Option.{none, some}
use native.Mathlib.Omega.{arith}
use sigimora_api_backend.Base.Tests.{if◌then◌else◌, Bool-cases}
use sigimora_api_backend.Base.Lists.{filter, find, any, All, Elem}

pub find-append :
    {A : Type 0} (p : A → Bool) (xs : List A) (y : A)
    → find p xs ≡ none
    → p y ≡ true
    → find p (xs ++ y ∷ []) ≡ some y
find-append p [] y e h = rw (h, find) refl
find-append p (x ∷ xs) y e h = elim (Bool-cases (p x)) [
  | inl q ↦ let no : some x ≡ none = rw (q) at e in cc
  | inr q ↦ rw (q, find) (find-append p xs y (rw (q) at e) h)
]

pub found_Elem :
    {A : Type 0} (p : A → Bool) (xs : List A) (y : A)
    → find p xs ≡ some y
    → Elem y xs × (p y ≡ true)
found_Elem p [] y e = cc
found_Elem p (x ∷ xs) y e = elim (Bool-cases (p x)) [
  | inl q ↦
      let same : some x ≡ some y = rw (q) at e in
      let here : x ≡ y = cc in (inl (sym here), ap p (sym here) ∙ q)
  | inr q ↦ let (a, b) = found_Elem p xs y (rw (q) at e) in (inr a, b)
]

pub kept_by_filter :
    {A : Type 0} (p : A → Bool) (xs : List A) (y : A) → Elem y (filter p xs) → p y ≡ true
kept_by_filter p [] y e = absurd e
kept_by_filter p (x ∷ xs) y e = elim (Bool-cases (p x)) [
  | inl q ↦ elim (subst (Elem y) (ap (λ b. if b then x ∷ filter p xs else filter p xs) q) e) [
    | inl h ↦ ap p h ∙ q
    | inr h ↦ kept_by_filter p xs y h
  ]
  | inr q ↦
      kept_by_filter p xs y
        (subst (Elem y) (ap (λ b. if b then x ∷ filter p xs else filter p xs) q) e)
]

pub find-none : {A : Type 0} (p : A → Bool) (xs : List A) → any p xs ≡ false → find p xs ≡ none
find-none p [] e = refl
find-none p (x ∷ xs) e = elim (Bool-cases (p x)) [
  | inl q ↦ let no : true ≡ false = rw (q) at e in cc
  | inr q ↦ rw (q, find) (find-none p xs (rw (q) at e))
]

pub filter-All :
    {A : Type 0} (p : A → Bool) (xs : List A) → All (λ x. p x ≡ true) xs → filter p xs ≡ xs
filter-All p [] h = refl
filter-All p (x ∷ xs) (a, h) = rw (a, filter) (ap (◌∷◌ x) (filter-All p xs h))

pub filter-append_new :
    {A : Type 0} (p : A → Bool) (xs ys : List A)
    → All (λ x. p x ≡ false) xs
    → All (λ y. p y ≡ true) ys
    → filter p (xs ++ ys) ≡ ys
filter-append_new p [] ys h k = filter-All p ys k
filter-append_new p (x ∷ xs) ys (a, h) k = rw (a, filter) (filter-append_new p xs ys h k)

pub All-append_one :
    {A : Type 0} (P : A → Type 0) (xs : List A) (a : A) → All P xs → P a → All P (xs ++ a ∷ [])
All-append_one P [] a h p = (p, tt)
All-append_one P (x ∷ xs) a (h, hs) p = (h, All-append_one P xs a hs p)

pub find-append_old :
    {A : Type 0} (p : A → Bool) (xs ys : List A) (x : A)
    → find p xs ≡ some x
    → find p (xs ++ ys) ≡ some x
find-append_old p [] ys x e = cc
find-append_old p (y ∷ xs) ys x e = elim (Bool-cases (p y)) [
  | inl q ↦ rw (q, find) (rw (q) at e)
  | inr q ↦ rw (q, find) (find-append_old p xs ys x (rw (q) at e))
]

pub filter-append_other :
    {A : Type 0} (p : A → Bool) (xs : List A) (y : A)
    → p y ≡ false
    → filter p (xs ++ y ∷ []) ≡ filter p xs
filter-append_other p [] y h = rw (h, filter) refl
filter-append_other p (x ∷ xs) y h = ground (arith, filter-append_other p xs y h)
