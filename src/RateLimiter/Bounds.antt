-- ===== src/RateLimiter/Bounds.antt =====
-- How many requests the rate limiter of sigimora-server/src/state.rs lets through.
use sigimora_api_backend.Base.{
  ==_iff, subst, ℕ, ◌+◌, ◌*◌, ◌≤◌, ◌≡◌, refl, sym, ap, ◌∙◌, Bool, none, some, [], ◌∷◌, find, All,
  leb, ◌==◌, inl, inr, Bool-cases, Option-cases, insert_entry, find-insert_entry_same,
  find-insert_entry_other, arith,
}
use sigimora_api_backend.RateLimiter.{
  Window, RateLimiter, new, secs_since, current, store, check, check_with_remaining,
}
use sigimora_api_backend.RateLimiter.Windows.{
  Requests, let_through, IsSoon, IsRecorded, check_limited, check_passed, other_stored, other_entry,
  own_entry, current_recorded, rolled, not_rolled, current_new, roll_soon, own_cases,
}

-- A window with some room for a request that comes now, and later ones soon.
module _ (t : ℕ) where
  -- While the recorded window lasts, it lets no more through than what is left of it.
  let_through_lasting :
      (ip : ℕ) (rs : Requests) (r : RateLimiter) (w : Window)
      → IsRecorded ip w r
      → t ≤ w.start
      → w.count ≤ r.max_requests
      → All (IsSoon r.window_secs t) rs
      → let_through ip rs r + w.count ≤ r.max_requests
  unfolding store
  let_through_lasting ip [] r w h s b a = unfold let_through in omega (arith, b)
  let_through_lasting ip ((i, now) ∷ rs) r w h s b ((lo, soon), a) = elim (Bool-cases (i == ip)) [
    | inl e ↦
        let same : i ≡ ip = (==_iff i ip).0 e in
        let kept = current_recorded ip now (ip, w) r h ∙ roll_soon r.window_secs t now w s soon in
        subst (λ j. let_through ip ((j, now) ∷ rs) r + w.count ≤ r.max_requests) (sym same)
          (elim (own_cases ip now rs r w kept) [
            | inl q ↦
                let rest = let_through_lasting ip rs (store ip w r) w (own_entry ip w r) s b a in
                omega (arith, q, rest)
            | inr (room, q) ↦
                let rest =
                  let_through_lasting ip rs (store ip (record w { count = w.count + 1 }) r)
                    (record w { count = w.count + 1 })
                    (own_entry ip (record w { count = w.count + 1 }) r) s (omega (arith, room)) a in
                omega (arith, q, rest)
          ])
    | inr e ↦
        let (w', q) = other_stored ip i now rs r e in
        let rest = let_through_lasting ip rs (store i w' r) w (other_entry ip i w' r e ∙ h) s b a in
        omega (arith, q, rest)
  ]

  -- A window that begins with a request.
  let_through_begun :
      (ip now : ℕ) (rs : Requests) (r : RateLimiter)
      → current now ip r ≡ record { count = 0; start = now }
      → t ≤ now
      → All (IsSoon r.window_secs t) rs
      → let_through ip ((ip, now) ∷ rs) r ≤ r.max_requests
  unfolding store
  let_through_begun ip now rs r e lo a =
      let begun : Window = record { count = 0; start = now } in
      elim (own_cases ip now rs r begun e) [
        | inl q ↦
            let rest =
              let_through_lasting ip rs (store ip begun r) begun (own_entry ip begun r) lo
                (omega arith) a in
            omega (arith, q, rest)
        | inr (room, q) ↦
            let rest =
              let_through_lasting ip rs (store ip (record begun { count = 1 }) r)
                (record begun { count = 1 }) (own_entry ip (record begun { count = 1 }) r) lo
                (omega (arith, room)) a in
            omega (arith, q, rest)
      ]

  let_through_fresh :
      (ip : ℕ) (rs : Requests) (r : RateLimiter)
      → find (λ e. e.0 == ip) r.inner ≡ none
      → All (IsSoon r.window_secs t) rs
      → let_through ip rs r ≤ r.max_requests
  unfolding store
  let_through_fresh ip [] r h a = unfold let_through in omega arith
  let_through_fresh ip ((i, now) ∷ rs) r h ((lo, soon), a) = elim (Bool-cases (i == ip)) [
    | inl e ↦
        subst (λ j. let_through ip ((j, now) ∷ rs) r ≤ r.max_requests) (sym ((==_iff i ip).0 e))
          (let_through_begun ip now rs r (current_new ip now r h) lo a)
    | inr e ↦
        let (w', q) = other_stored ip i now rs r e in
        let rest = let_through_fresh ip rs (store i w' r) (other_entry ip i w' r e ∙ h) a in
        omega (arith, q, rest)
  ]

  -- The recorded window may end meanwhile, and then one more begins.
  let_through_recorded :
      (ip : ℕ) (rs : Requests) (r : RateLimiter) (x : ℕ × Window)
      → find (λ e. e.0 == ip) r.inner ≡ some x
      → x.1.count ≤ r.max_requests
      → All (IsSoon r.window_secs t) rs
      → let_through ip rs r + x.1.count ≤ 2 * r.max_requests
  unfolding store
  let_through_recorded ip [] r x h b a = unfold let_through in omega (arith, b)
  let_through_recorded ip ((i, now) ∷ rs) r x h b ((lo, soon), a) = elim (Bool-cases (i == ip)) [
    | inl e ↦
        subst (λ j. let_through ip ((j, now) ∷ rs) r + x.1.count ≤ 2 * r.max_requests)
          (sym ((==_iff i ip).0 e))
          (elim (Bool-cases (leb r.window_secs (secs_since now x.1.start))) [
            | inl over ↦
                let most =
                  let_through_begun ip now rs r
                    (current_recorded ip now x r h ∙ rolled r.window_secs now x.1 over) lo a in
                omega (arith, most, b)
            | inr lasts ↦
                elim (own_cases ip now rs r x.1
                  (current_recorded ip now x r h ∙ not_rolled r.window_secs now x.1 lasts)) [
                    | inl q ↦
                        let rest =
                          let_through_recorded ip rs (store ip x.1 r) (ip, x.1) (own_entry ip x.1 r)
                            b a in
                        omega (arith, q, rest)
                    | inr (room, q) ↦
                        let more : Window = record (x.1) { count = x.1.count + 1 } in
                        let rest =
                          let_through_recorded ip rs (store ip more r) (ip, more)
                            (own_entry ip more r) (omega (arith, room)) a in
                        omega (arith, q, rest)
                  ]
          ])
    | inr e ↦
        let (w', q) = other_stored ip i now rs r e in
        let rest = let_through_recorded ip rs (store i w' r) x (other_entry ip i w' r e ∙ h) b a in
        omega (arith, q, rest)
  ]

-- The limiter after some requests.
unfoldable pub serve : Requests → RateLimiter → RateLimiter
serve [] r = r
serve ((i, now) ∷ rs) r = serve rs (check now i r).0

-- No window counts more than the limit.
abbrev IsBelow : RateLimiter → Type 0
IsBelow r =
    (ip : ℕ) (x : ℕ × Window) → find (λ e. e.0 == ip) r.inner ≡ some x → x.1.count ≤ r.max_requests

current_below :
    (now ip : ℕ) (r : RateLimiter) → IsBelow r → (current now ip r).count ≤ r.max_requests
current_below now ip r h = elim (Option-cases (find (λ e. e.0 == ip) r.inner)) [
  | inl e ↦
      subst (λ (w : Window). w.count ≤ r.max_requests) (sym (current_new ip now r e)) (omega arith)
  | inr (x, e) ↦ elim (Bool-cases (leb r.window_secs (secs_since now x.1.start))) [
    | inl over ↦
        subst (λ (w : Window). w.count ≤ r.max_requests)
          (sym (current_recorded ip now x r e ∙ rolled r.window_secs now x.1 over)) (omega arith)
    | inr lasts ↦
        subst (λ (w : Window). w.count ≤ r.max_requests)
          (sym (current_recorded ip now x r e ∙ not_rolled r.window_secs now x.1 lasts)) (h ip x e)
  ]
]

store-IsBelow :
    (ip : ℕ) (w : Window) (r : RateLimiter)
    → IsBelow r
    → w.count ≤ r.max_requests
    → IsBelow (store ip w r)
unfolding store
store-IsBelow ip w r h b i x e = elim (Bool-cases (ip == i)) [
  | inl q ↦
      let found : some (ip, w) ≡ some x =
        sym (find-insert_entry_same ip w r.inner)
        ∙ ap (λ j. find (λ y. y.0 == j) (insert_entry ip w r.inner)) ((==_iff ip i).0 q)
        ∙ e in
      let same : (ip, w) ≡ x = cc in subst (λ (y : ℕ × Window). y.1.count ≤ r.max_requests) same b
  | inr q ↦ h i x (sym (find-insert_entry_other ip i w r.inner q) ∙ e)
]

check-IsBelow : (now ip : ℕ) (r : RateLimiter) → IsBelow r → IsBelow (check now ip r).0
check-IsBelow now ip r h = elim (Bool-cases (leb r.max_requests (current now ip r).count)) [
  | inl e ↦
      subst (λ (p : RateLimiter × Bool). IsBelow p.0) (sym (check_limited now ip r e))
        (store-IsBelow ip (current now ip r) r h (current_below now ip r h))
  | inr e ↦
      subst (λ (p : RateLimiter × Bool). IsBelow p.0) (sym (check_passed now ip r e))
        (store-IsBelow ip (record (current now ip r) { count = (current now ip r).count + 1 }) r h
          (ground arith))
]

check_limits :
    (now ip : ℕ) (r : RateLimiter)
    → ((check now ip r).0.max_requests ≡ r.max_requests)
      × ((check now ip r).0.window_secs ≡ r.window_secs)
unfolding check store
check_limits now ip r = elim (Bool-cases (leb r.max_requests (current now ip r).count)) [
  | inl e ↦ rw (e) (refl, refl)
  | inr e ↦ rw (e) (refl, refl)
]

serve-IsBelow :
    (rs : Requests) (r : RateLimiter)
    → IsBelow r
    → IsBelow (serve rs r)
      × (((serve rs r).max_requests ≡ r.max_requests) × ((serve rs r).window_secs ≡ r.window_secs))
unfolding serve
serve-IsBelow [] r h = (h, (refl, refl))
serve-IsBelow ((i, now) ∷ rs) r h =
    let (below, (most, secs)) = serve-IsBelow rs (check now i r).0 (check-IsBelow now i r h) in
    let (most', secs') = check_limits now i r in (below, (most ∙ most', secs ∙ secs'))

new-IsBelow : (most secs : ℕ) → IsBelow (new most secs)
unfolding new
new-IsBelow most secs ip x e = absurd (cc)

-- Any run of requests within one window's length: a new limiter lets at most `most` of an address
-- through, and after any earlier requests it is at most twice as many.
pub let_through-serve :
    (most secs t ip : ℕ) (earlier rs : Requests)
    → All (IsSoon secs t) rs
    → (let_through ip rs (new most secs) ≤ most)
      × (let_through ip rs (serve earlier (new most secs)) ≤ 2 * most)
unfolding new
let_through-serve most secs t ip earlier rs a =
    let r = serve earlier (new most secs) in
    let (below, (same, length)) = serve-IsBelow earlier (new most secs) (new-IsBelow most secs) in
    let soon = subst (λ n. All (IsSoon n t) rs) (sym length) a in
    (
      let_through_fresh t ip rs (new most secs) refl a,
      elim (Option-cases (find (λ e. e.0 == ip) r.inner)) [
        | inl e ↦ let few = let_through_fresh t ip rs r e soon in omega (arith, few, same)
        | inr (x, e) ↦
            let few = let_through_recorded t ip rs r x e (below ip x e) soon in
            omega (arith, few, same)
      ],
    )

-- The number beside the answer bounds what the rest of the window lets through.
remaining_bounds :
    (now ip : ℕ) (r : RateLimiter) (rs : Requests)
    → IsBelow r
    → All (IsSoon r.window_secs (current now ip r).start) rs
    → (((check_with_remaining now ip r).0, (check_with_remaining now ip r).1.0) ≡ check now ip r)
      × (let_through ip rs (check now ip r).0 ≤ (check_with_remaining now ip r).1.1)
unfolding check_with_remaining check store
remaining_bounds now ip r rs h a = elim (Bool-cases (leb r.max_requests (current now ip r).count)) [
  | inl e ↦
      let rest =
        let_through_lasting (current now ip r).start ip rs (store ip (current now ip r) r)
          (current now ip r) (own_entry ip (current now ip r) r) (omega arith)
          (current_below now ip r h) a in
      rw (e) (refl, ground (arith, rest))
  | inr e ↦
      let more = (current now ip r).count + 1 in
      let rest =
        let_through_lasting (current now ip r).start ip rs
          (store ip (record (current now ip r) { count = more }) r)
          (record (current now ip r) { count = more })
          (own_entry ip (record (current now ip r) { count = more }) r) (omega arith) (ground arith)
          a in
      rw (e) (refl, omega (arith, rest))
]

-- After any earlier requests on a new limiter, `check_with_remaining` stores and answers what `check`
-- does, and the number beside the answer bounds how many later requests of the address are let
-- through while its window lasts.
check_with_remaining-let_through :
    (most secs now ip : ℕ) (earlier rs : Requests)
    → All
        (IsSoon
          (serve earlier (new most secs)).window_secs
          (current now ip (serve earlier (new most secs))).start)
        rs
    → ((
      (check_with_remaining now ip (serve earlier (new most secs))).0,
      (check_with_remaining now ip (serve earlier (new most secs))).1.0,
    )
        ≡ check now ip (serve earlier (new most secs)))
      × (let_through ip rs (check now ip (serve earlier (new most secs))).0
          ≤ (check_with_remaining now ip (serve earlier (new most secs))).1.1)
check_with_remaining-let_through most secs now ip earlier rs a =
    remaining_bounds now ip (serve earlier (new most secs)) rs
      (serve-IsBelow earlier (new most secs) (new-IsBelow most secs)).0 a
