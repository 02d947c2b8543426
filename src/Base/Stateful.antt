-- ===== src/Base/Stateful.antt =====
-- Methods that take `&mut self` and return a `Result`: the changes made before an error stay.
use sigimora_api_backend.Base.Faults.{Outcome, ok, err, panic}

abbrev pub Run : Type 0 → Type 0 → Type 0 → Type 0
Run S E A = S → S × Outcome E A

-- What follows a call: its state and its result go on, or its error returns.
abbrev pub follow : {S E A B : Type 0} → (A → Run S E B) → S × Outcome E A → S × Outcome E B
follow k (s, ok a) = k a s
follow k (s, err e) = (s, err e)
follow k (s, panic) = (s, panic)

infixl 5 ◌>>=◌ ◌>>◌
abbrev pub ◌>>=◌ : {S E A B : Type 0} → Run S E A → (A → Run S E B) → Run S E B
(m >>= k) s = follow k (m s)

abbrev pub ◌>>◌ : {S E A B : Type 0} → Run S E A → Run S E B → Run S E B
(m >> k) s = follow (λ _. k) (m s)

abbrev pub pure : {S E A : Type 0} → A → Run S E A
pure a s = (s, ok a)

abbrev pub get : {S E : Type 0} → Run S E S
get s = (s, ok s)

abbrev pub modify : {S E : Type 0} → (S → S) → Run S E (Unit {0})
modify f s = (f s, ok tt)

-- A result that leaves the state alone.
abbrev pub lift : {S E A : Type 0} → Outcome E A → Run S E A
lift r s = (s, r)
