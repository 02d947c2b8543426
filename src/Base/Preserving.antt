-- ===== src/Base/Preserving.antt =====
-- What a method that may fail leaves true, whether it returns, fails or panics.
use mathlib.Core.Path.{◌≡◌, sym, subst}
use sigimora_api_backend.Base.Faults.{Outcome, ok, err, panic}
use sigimora_api_backend.Base.Stateful.{Run, follow, ◌>>=◌, ◌>>◌, pure, lift}

pub record Preserves {S E A : Type 0} (P : S → Type 0) (m : Run S E A) : Type 0 where
  pub after : (s : S) → P s → P (m s).0

module _ {S E : Type 0} {P : S → Type 0} where
  pub Preserves-lift : {A : Type 0} (r : Outcome E A) → Preserves P (lift {S = S} r)
  Preserves-lift r = record { after = λ s h. h }

  pub Preserves-pure : {A : Type 0} (a : A) → Preserves P (pure {S = S} {E = E} a)
  Preserves-pure a = record { after = λ s h. h }

  followed :
      {A B : Type 0} (k : A → Run S E B) (r : S × Outcome E A)
      → P r.0
      → ((a : A) → Preserves P (k a))
      → P (follow k r).0
  followed k (s, ok a) h q = (q a).after s h
  followed k (s, err e) h q = h
  followed k (s, panic) h q = h

  pub Preserves-bind :
      {A B : Type 0} (m : Run S E A) (k : A → Run S E B)
      → Preserves P m
      → ((a : A) → Preserves P (k a))
      → Preserves P (m >>= k)
  Preserves-bind m k p q = record { after = λ s h. followed k (m s) (p.after s h) q }

  pub Preserves-then :
      {A B : Type 0} (m : Run S E A) (k : Run S E B)
      → Preserves P m
      → Preserves P k
      → Preserves P (m >> k)
  Preserves-then m k p q = record { after = λ s h. followed (λ _. k) (m s) (p.after s h) (λ _. q) }

  -- Nothing follows a method that fails and changes nothing.
  pub Preserves-stop :
      {A B : Type 0} (m : Run S E A) (k : Run S E B) (e : E)
      → ((s : S) → P s → m s ≡ (s, err e))
      → Preserves P (m >> k)
  Preserves-stop m k e stops = record {
    after = λ s h. subst (λ r. P (follow (λ _. k) r).0) (sym (stops s h)) h;
  }
