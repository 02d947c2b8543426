-- ===== src/RateLimiter.antt =====
-- sigimora-server/src/state.rs: the rate limiter. An address is a number, an instant is a number of
-- nanoseconds, and the hash map behind the lock is the list of its entries.
pub mod Bounds
pub mod Windows
use sigimora_api_backend.Base.{
  ℕ, ◌+◌, ◌-◌, ◌/◌, Bool, true, false, Option, none, some, List, find, insert_entry, leb, ◌==◌,
  if◌then◌else◌,
}

pub record Window : Type 0 where
  pub count : ℕ
  pub start : ℕ

pub record RateLimiter : Type 0 where
  pub inner : List (ℕ × Window)
  pub max_requests : ℕ
  pub window_secs : ℕ

-- `RateLimiter::new`.
unfoldable pub new : ℕ → ℕ → RateLimiter
new max_requests window_secs = record {
  inner = List.[];
  max_requests = max_requests;
  window_secs = window_secs;
}

-- `now.duration_since(start).as_secs()`, which is 0 for a later `start`.
abbrev pub secs_since : ℕ → ℕ → ℕ
secs_since now start = (now - start) / 1000000000

-- `map.entry(ip).or_insert(Window { count: 0, start: now })`.
unfoldable pub or_insert : ℕ → Option (ℕ × Window) → Window
or_insert now none = record { count = 0; start = now }
or_insert now (some e) = e.1

unfoldable pub window_for : ℕ → ℕ → List (ℕ × Window) → Window
unfolding or_insert
window_for now ip inner = or_insert now (find (λ e. e.0 == ip) inner)

-- `if now.duration_since(window.start).as_secs() >= self.window_secs { … }`.
unfoldable pub roll : ℕ → ℕ → Window → Window
roll window_secs now window =
    if leb window_secs (secs_since now window.start)
    then record { count = 0; start = now }
    else window

-- The window of the address once the entry is there and has been rolled.
unfoldable pub current : ℕ → ℕ → RateLimiter → Window
unfolding roll window_for
current now ip r = roll r.window_secs now (window_for now ip r.inner)

unfoldable pub store : ℕ → Window → RateLimiter → RateLimiter
store ip window r = record r { inner = insert_entry ip window r.inner }

-- `RateLimiter::check` at the instant `now`.
unfoldable pub check : ℕ → ℕ → RateLimiter → RateLimiter × Bool
unfolding current store
check now ip r =
    let window = current now ip r in
    if leb r.max_requests window.count
    then (store ip window r, false)
    else (store ip (record window { count = window.count + 1 }) r, true)

-- `RateLimiter::check_with_remaining`; `saturating_sub` stops at 0.
unfoldable pub check_with_remaining : ℕ → ℕ → RateLimiter → RateLimiter × (Bool × ℕ)
unfolding current store
check_with_remaining now ip r =
    let window = current now ip r in
    if leb r.max_requests window.count then (store ip window r, (false, 0)) else (
      store ip (record window { count = window.count + 1 }) r,
      (true, r.max_requests - (window.count + 1)),
    )
