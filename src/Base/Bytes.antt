-- ===== src/Base/Bytes.antt =====
-- Bytes as natural numbers below 256: little-endian integers, and slices of a concatenation.
use Prim.Native.Nat.{ℕ, zero, suc, ◌+◌, ◌*◌, ◌/◌, ◌%◌, ◌^◌, ◌<◌, ◌≤◌}
use mathlib.Core.Path.{◌≡◌, refl, sym, ap, ◌∙◌}
use mathlib.Core.List.{List, [], ◌∷◌, ◌++◌, append-nil}
use native.Mathlib.Omega.{arith}
use native.Mathlib.Numerals.{unary_clauses}
use mathlib.Core.Bool.{true}
use sigimora_api_backend.Base.Lists.{length, length-append, take, drop}
use sigimora_api_backend.Base.Tests.{leb, if◌then◌else◌}
use sigimora_api_backend.Base.Faults.{Outcome, ok, panic, ◌>>=◌}

-- `to_le_bytes` of an integer of `k` bytes.
abbrev pub le_bytes : ℕ → ℕ → List ℕ
le_bytes zero n = []
le_bytes (suc k) n = n % 256 ∷ le_bytes k (n / 256)

-- `from_le_bytes`.
abbrev pub from_le_bytes : List ℕ → ℕ
from_le_bytes [] = 0
from_le_bytes (b ∷ bs) = b + 256 * from_le_bytes bs

-- `to_be_bytes` of an integer of `k` bytes.
abbrev pub be_bytes : ℕ → ℕ → List ℕ
be_bytes zero n = []
be_bytes (suc k) n = be_bytes k (n / 256) ++ (n % 256 ∷ [])

abbrev be_digits : ℕ → List ℕ → ℕ
be_digits acc [] = acc
be_digits acc (b ∷ bs) = be_digits (acc * 256 + b) bs

-- `from_be_bytes`.
abbrev pub from_be_bytes : List ℕ → ℕ
from_be_bytes bs = be_digits 0 bs

be_digits-append :
    (acc b : ℕ) (bs : List ℕ) → be_digits acc (bs ++ (b ∷ [])) ≡ be_digits acc bs * 256 + b
be_digits-append acc b [] = refl
be_digits-append acc b (x ∷ bs) = be_digits-append (acc * 256 + x) b bs

pub length-be_bytes : (k n : ℕ) → length (be_bytes k n) ≡ k
length-be_bytes zero n = refl
length-be_bytes (suc k) n =
    let rest = length-be_bytes k (n / 256) in
    omega (arith, rest, length-append (be_bytes k (n / 256)) (n % 256 ∷ []))

pub from_be_bytes-be_bytes : (k n : ℕ) → n < 256 ^ k → from_be_bytes (be_bytes k n) ≡ n
from_be_bytes-be_bytes zero n h = omega (arith, h)
from_be_bytes-be_bytes (suc k) n h =
    let rest = from_be_bytes-be_bytes k (n / 256) (smaller n (256 ^ k) (simp unary_clauses at h)) in
    omega (arith, rest, be_digits-append 0 (n % 256) (be_bytes k (n / 256)))
  where
    smaller : (n m : ℕ) → n < m * 256 → n / 256 < m
    smaller n m h = omega (arith, h)

length-le_bytes : (k n : ℕ) → length (le_bytes k n) ≡ k
length-le_bytes zero n = refl
length-le_bytes (suc k) n = ap suc (length-le_bytes k (n / 256))

from_le_bytes-le_bytes : (k n : ℕ) → n < 256 ^ k → from_le_bytes (le_bytes k n) ≡ n
from_le_bytes-le_bytes zero n h = omega (arith, h)
from_le_bytes-le_bytes (suc k) n h =
    let rest = from_le_bytes-le_bytes k (n / 256) (smaller n (256 ^ k) (simp unary_clauses at h)) in
    omega (arith, rest)
  where
    smaller : (n m : ℕ) → n < m * 256 → n / 256 < m
    smaller n m h = omega (arith, h)

module _ {A : Type 0} where
  pub take-append : (n : ℕ) (xs ys : List A) → length xs ≡ n → take n (xs ++ ys) ≡ xs
  take-append zero [] ys h = refl
  take-append zero (x ∷ xs) ys h = absurd (omega (arith, h))
  take-append (suc n) [] ys h = absurd (omega (arith, h))
  take-append (suc n) (x ∷ xs) ys h = ap (◌∷◌ x) (take-append n xs ys (omega (arith, h)))

  pub drop-append : (n : ℕ) (xs ys : List A) → length xs ≡ n → drop n (xs ++ ys) ≡ ys
  drop-append zero [] ys h = refl
  drop-append zero (x ∷ xs) ys h = absurd (omega (arith, h))
  drop-append (suc n) [] ys h = absurd (omega (arith, h))
  drop-append (suc n) (x ∷ xs) ys h = drop-append n xs ys (omega (arith, h))

  pub take_all : (n : ℕ) (xs : List A) → length xs ≡ n → take n xs ≡ xs
  take_all n xs h = ap (take n) (sym (append-nil xs)) ∙ take-append n xs [] h

-- `&data[a..a + n]`, which panics where the data end before.
unfoldable pub slice : {E A : Type 0} → ℕ → ℕ → List A → Outcome E (List A)
slice a n xs = if leb (a + n) (length xs) then ok (take n (drop a xs)) else panic

-- `&data[a..]`.
unfoldable pub slice_from : {E A : Type 0} → ℕ → List A → Outcome E (List A)
slice_from a xs = if leb a (length xs) then ok (drop a xs) else panic

-- An integer of `k` bytes at `data[a]`.
unfoldable pub le_at : {E : Type 0} → ℕ → ℕ → List ℕ → Outcome E ℕ
unfolding slice
le_at a k xs = do bytes ← slice a k xs; ok (from_le_bytes bytes)

pub slice-append :
    {E A : Type 0} (a n : ℕ) (pre xs post : List A)
    → length pre ≡ a
    → length xs ≡ n
    → slice {E = E} a n (pre ++ (xs ++ post)) ≡ ok xs
unfolding slice
slice-append a n pre xs post h g =
    let inside : leb (a + n) (length (pre ++ (xs ++ post))) ≡ true =
      ground (arith, length-append pre (xs ++ post), length-append xs post) in
    rw (inside, drop-append a pre (xs ++ post) h, take-append n xs post g) refl

pub slice_start :
    {E A : Type 0} (n : ℕ) (xs : List A) → n ≤ length xs → slice {E = E} 0 n xs ≡ ok (take n xs)
unfolding slice
slice_start n xs h =
    let inside : leb (0 + n) (length xs) ≡ true = ground (arith, h) in rw (inside) refl

pub slice_from-append :
    {E A : Type 0} (a : ℕ) (pre post : List A)
    → length pre ≡ a
    → slice_from {E = E} a (pre ++ post) ≡ ok post
unfolding slice_from
slice_from-append a pre post h =
    let inside : leb a (length (pre ++ post)) ≡ true = ground (arith, length-append pre post) in
    rw (inside, drop-append a pre post h) refl

pub le_at-append :
    {E : Type 0} (a k n : ℕ) (pre post : List ℕ)
    → length pre ≡ a
    → n < 256 ^ k
    → le_at {E = E} a k (pre ++ (le_bytes k n ++ post)) ≡ ok n
unfolding le_at
le_at-append a k n pre post h g =
    rw
      (
        slice-append a k pre (le_bytes k n) post h (length-le_bytes k n),
        from_le_bytes-le_bytes k n g,
      )
      refl
