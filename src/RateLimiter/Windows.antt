-- ===== src/RateLimiter/Windows.antt =====
-- What one request does to the windows of the rate limiter of sigimora-server/src/state.rs.
use sigimora_api_backend.Base.{
  subst, ℕ, suc, ◌+◌, ◌-◌, ◌/◌, ◌≤◌, ◌<◌, ◌≡◌, refl, ap, ◌∙◌, ◌⊎◌, true, false, ◌&&◌, none, some,
  List, [], ◌∷◌, find, leb, ◌==◌, if◌then◌else◌, inl, inr, Bool-cases, ==_refl,
  find-insert_entry_same, find-insert_entry_other, arith,
}
use sigimora_api_backend.RateLimiter.{
  Window, RateLimiter, secs_since, or_insert, window_for, roll, current, store, check,
}

-- Requests in the order in which they come: address and instant.
abbrev pub Requests : Type 0
Requests = List (ℕ × ℕ)

-- How many requests of one address are let through.
unfoldable pub let_through : ℕ → Requests → RateLimiter → ℕ
let_through ip [] r = 0
let_through ip ((i, now) ∷ rs) r =
    let rest = let_through ip rs (check now i r).0 in
    if (check now i r).1 && (i == ip) then suc rest else rest

-- The request comes at `t` or less than a window's length later.
abbrev pub IsSoon : ℕ → ℕ → ℕ × ℕ → Type 0
IsSoon window_secs t q = (t ≤ q.1) × (secs_since q.1 t < window_secs)

-- The window that is recorded for an address.
abbrev pub IsRecorded : ℕ → Window → RateLimiter → Type 0
IsRecorded ip w r = find (λ e. e.0 == ip) r.inner ≡ some (ip, w)

pub check_limited :
    (now ip : ℕ) (r : RateLimiter)
    → leb r.max_requests (current now ip r).count ≡ true
    → check now ip r ≡ (store ip (current now ip r) r, false)
unfolding check
check_limited now ip r h = rw (h) refl

pub check_passed :
    (now ip : ℕ) (r : RateLimiter)
    → leb r.max_requests (current now ip r).count ≡ false
    → check now ip r
      ≡ (store ip (record (current now ip r) { count = (current now ip r).count + 1 }) r, true)
unfolding check
check_passed now ip r h = rw (h) refl

own_limited :
    (ip now : ℕ) (rs : Requests) (r : RateLimiter)
    → leb r.max_requests (current now ip r).count ≡ true
    → let_through ip ((ip, now) ∷ rs) r ≡ let_through ip rs (store ip (current now ip r) r)
unfolding let_through
own_limited ip now rs r h = rw (check_limited now ip r h, let_through) refl

own_passed :
    (ip now : ℕ) (rs : Requests) (r : RateLimiter)
    → leb r.max_requests (current now ip r).count ≡ false
    → let_through ip ((ip, now) ∷ rs) r
      ≡ suc (
          let_through ip rs
            (store ip (record (current now ip r) { count = (current now ip r).count + 1 }) r))
unfolding let_through
own_passed ip now rs r h = rw (check_passed now ip r h, ==_refl ip, let_through) refl

-- A request changes the entry of its address only.
pub other_stored :
    (ip i now : ℕ) (rs : Requests) (r : RateLimiter)
    → (i == ip) ≡ false
    → (w : Window) × (let_through ip ((i, now) ∷ rs) r ≡ let_through ip rs (store i w r))
unfolding let_through
other_stored ip i now rs r h = elim (Bool-cases (leb r.max_requests (current now i r).count)) [
  | inl e ↦ (current now i r, rw (check_limited now i r e, let_through) refl)
  | inr e ↦ (
    record (current now i r) { count = (current now i r).count + 1 },
    rw (check_passed now i r e, h, let_through) refl,
  )
]

pub other_entry :
    (ip i : ℕ) (w : Window) (r : RateLimiter)
    → (i == ip) ≡ false
    → find (λ e. e.0 == ip) (store i w r).inner ≡ find (λ e. e.0 == ip) r.inner
unfolding store
other_entry ip i w r h = find-insert_entry_other i ip w r.inner h

pub own_entry : (ip : ℕ) (w : Window) (r : RateLimiter) → IsRecorded ip w (store ip w r)
unfolding store
own_entry ip w r = find-insert_entry_same ip w r.inner

pub current_recorded :
    (ip now : ℕ) (e : ℕ × Window) (r : RateLimiter)
    → find (λ x. x.0 == ip) r.inner ≡ some e
    → current now ip r ≡ roll r.window_secs now e.1
unfolding current window_for or_insert
current_recorded ip now e r h = ap (λ o. roll r.window_secs now (or_insert now o)) h

pub rolled :
    (secs now : ℕ) (w : Window)
    → leb secs (secs_since now w.start) ≡ true
    → roll secs now w ≡ record { count = 0; start = now }
unfolding roll
rolled secs now w h = rw (h) refl

pub not_rolled :
    (secs now : ℕ) (w : Window) → leb secs (secs_since now w.start) ≡ false → roll secs now w ≡ w
unfolding roll
not_rolled secs now w h = rw (h) refl

roll_new :
    (secs now : ℕ)
    → roll secs now (record { count = 0; start = now }) ≡ record { count = 0; start = now }
unfolding roll
roll_new secs now = elim (Bool-cases (leb secs (secs_since now now))) [
  | inl e ↦ rw (e) refl
  | inr e ↦ rw (e) refl
]

pub current_new :
    (ip now : ℕ) (r : RateLimiter)
    → find (λ e. e.0 == ip) r.inner ≡ none
    → current now ip r ≡ record { count = 0; start = now }
unfolding current window_for or_insert
current_new ip now r h =
    ap (λ o. roll r.window_secs now (or_insert now o)) h ∙ roll_new r.window_secs now

-- A window that began at `t` or later is not rolled soon.
pub roll_soon :
    (secs t now : ℕ) (w : Window) → t ≤ w.start → secs_since now t < secs → roll secs now w ≡ w
unfolding roll
roll_soon secs t now w h g =
    let fresh : leb secs (secs_since now w.start) ≡ false =
      ground (arith, shorter now t w.start h) in
    rw (fresh) refl
  where
    shorter : (n a b : ℕ) → a ≤ b → (n - b) / 1000000000 ≤ (n - a) / 1000000000
    shorter n a b h = omega arith

-- A request from the address, its window known: it is refused, or there is room for it.
pub own_cases :
    (ip now : ℕ) (rs : Requests) (r : RateLimiter) (w : Window)
    → current now ip r ≡ w
    → (let_through ip ((ip, now) ∷ rs) r ≡ let_through ip rs (store ip w r))
      ⊎ ((w.count < r.max_requests)
          × (let_through ip ((ip, now) ∷ rs) r
              ≡ suc (let_through ip rs (store ip (record w { count = w.count + 1 }) r))))
own_cases ip now rs r w q = elim (Bool-cases (leb r.max_requests (current now ip r).count)) [
  | inl e ↦ inl (own_limited ip now rs r e ∙ ap (λ x. let_through ip rs (store ip x r)) q)
  | inr e ↦
      let room : (current now ip r).count < r.max_requests = ground arith in
      inr (
        subst (λ (x : Window). x.count < r.max_requests) q room,
        own_passed ip now rs r e
            ∙ ap
                (λ (x : Window).
                  suc (let_through ip rs (store ip (record x { count = x.count + 1 }) r)))
                q,
      )
]
