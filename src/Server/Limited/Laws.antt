-- ===== src/Server/Limited/Laws.antt =====
-- How many requests the limit of sigimora-server lets through to their handlers.
use sigimora_api_backend.Base.{
  ℕ, ◌*◌, ◌≤◌, ◌≡◌, refl, sym, ap, subst, ◌∙◌, true, false, Option, List, [], ◌∷◌, All, leb,
  if◌then◌else◌, inl, inr, Bool-cases,
}
use sigimora_api_backend.Math.Suite.{Suite, Bytes}
use sigimora_api_backend.RateLimiter.{RateLimiter, new, current, check, check_with_remaining}
use sigimora_api_backend.RateLimiter.Windows.{Requests, let_through, IsSoon}
use sigimora_api_backend.RateLimiter.Bounds as Bounds
use sigimora_api_backend.RateLimiter.Bounds.{let_through-serve}
use sigimora_api_backend.Server.Texts.{Texts}
use sigimora_api_backend.Server.Limited.{
  AppState, address_or_local, is_admin, rate_limit_middleware, was_answered, Visit, respond,
  respond_all, handled,
}

check_with_remaining_lem :
    (now ip : ℕ) (r : RateLimiter)
    → ((check_with_remaining now ip r).0 ≡ (check now ip r).0)
      × ((check_with_remaining now ip r).1.0 ≡ (check now ip r).1)
unfolding check_with_remaining check
check_with_remaining_lem now ip r =
    elim (Bool-cases (leb r.max_requests (current now ip r).count)) [
      | inl e ↦ rw (e) (refl, refl)
      | inr e ↦ rw (e) (refl, refl)
    ]

module _ (c : Suite) (texts : Texts) (parse_time : Bytes → Option ℕ) where
  -- What the limiter is asked, in order.
  unfoldable asked : List (Visit c texts) → AppState → Requests
  asked [] s = []
  asked (v ∷ vs) s =
      let rest = asked vs (respond c texts parse_time v s).0 in
      if is_admin c texts v.request.header s.db
      then rest
      else (address_or_local v.address, v.instant) ∷ rest

  by_admin :
      (v : Visit c texts) (s : AppState)
      → is_admin c texts v.request.header s.db ≡ true
      → (respond c texts parse_time v s).0.rate_limiter ≡ s.rate_limiter
  unfolding respond rate_limit_middleware
  by_admin v s e = rw (e) refl

  by_other :
      (v : Visit c texts) (s : AppState)
      → is_admin c texts v.request.header s.db ≡ false
      → let r = check v.instant (address_or_local v.address) s.rate_limiter in
        ((respond c texts parse_time v s).0.rate_limiter ≡ r.0)
        × (was_answered (respond c texts parse_time v s).1 ≡ r.1)
  unfolding respond rate_limit_middleware
  by_other v s e =
      let (same, let_in) =
        check_with_remaining_lem v.instant (address_or_local v.address) s.rate_limiter in
      elim (Bool-cases
        (check_with_remaining v.instant (address_or_local v.address) s.rate_limiter).1.0) [
          | inl q ↦ rw (e, q) (same, sym q ∙ let_in)
          | inr q ↦ rw (e, q) (same, sym q ∙ let_in)
        ]

  handled_eq :
      (ip : ℕ) (vs : List (Visit c texts)) (s : AppState)
      → handled c texts parse_time ip vs s ≡ let_through ip (asked vs s) s.rate_limiter
  unfolding handled asked let_through
  handled_eq ip [] s = refl
  handled_eq ip (v ∷ vs) s =
      let rest = handled_eq ip vs (respond c texts parse_time v s).0 in
      elim (Bool-cases (is_admin c texts v.request.header s.db)) [
        | inl e ↦ rw (e, rest, by_admin v s e) refl
        | inr e ↦ let (same, let_in) = by_other v s e in rw (e, rest, same, let_in) refl
      ]

  asked-IsSoon :
      (secs t : ℕ) (vs : List (Visit c texts)) (s : AppState)
      → All (λ (v : Visit c texts). IsSoon secs t (address_or_local v.address, v.instant)) vs
      → All (IsSoon secs t) (asked vs s)
  unfolding asked
  asked-IsSoon secs t [] s a = tt
  asked-IsSoon secs t (v ∷ vs) s (h, a) =
      let rest = asked-IsSoon secs t vs (respond c texts parse_time v s).0 a in
      elim (Bool-cases (is_admin c texts v.request.header s.db)) [
        | inl e ↦ rw (e) rest
        | inr e ↦ rw (e) (h, rest)
      ]

  limiter_after :
      (vs : List (Visit c texts)) (s : AppState)
      → (respond_all c texts parse_time vs s).rate_limiter
        ≡ Bounds.serve (asked vs s) s.rate_limiter
  unfolding respond_all asked Bounds.serve
  limiter_after [] s = refl
  limiter_after (v ∷ vs) s =
      let rest = limiter_after vs (respond c texts parse_time v s).0 in
      elim (Bool-cases (is_admin c texts v.request.header s.db)) [
        | inl e ↦ rw (e, rest, by_admin v s e) refl
        | inr e ↦ rw (e, rest, (by_other v s e).0) refl
      ]

  -- From a new limiter, of the requests that come within one window's length, at most `most` of an
  -- address reach their handlers without an admin's key, and at most twice as many after any earlier
  -- requests, whatever the handlers do to the database that says who is an admin.
  pub handled-respond_all :
      (most secs t ip : ℕ) (earlier vs : List (Visit c texts)) (s : AppState)
      → s.rate_limiter ≡ new most secs
      → All (λ (v : Visit c texts). IsSoon secs t (address_or_local v.address, v.instant)) vs
      → (handled c texts parse_time ip vs s ≤ most)
        × (handled c texts parse_time ip vs (respond_all c texts parse_time earlier s) ≤ 2 * most)
  handled-respond_all most secs t ip earlier vs s e a =
      let s' = respond_all c texts parse_time earlier s in
      (
        subst (λ m. m ≤ most) (ap (let_through ip (asked vs s)) (sym e) ∙ sym (handled_eq ip vs s))
            (let_through-serve most secs t ip [] (asked vs s) (asked-IsSoon secs t vs s a)).0,
        subst (λ m. m ≤ 2 * most)
            (ap (let_through ip (asked vs s'))
                (sym (limiter_after earlier s ∙ ap (Bounds.serve (asked earlier s)) e))
              ∙ sym (handled_eq ip vs s'))
            (let_through-serve most secs t ip (asked earlier s) (asked vs s')
              (asked-IsSoon secs t vs s' a)).1,
      )
