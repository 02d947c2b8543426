-- ===== src/Server/Limited.antt =====
-- sigimora-server/src/main.rs: the limit that a request passes before its handler. An address is a
-- number and an instant a number of nanoseconds; `next` is what runs behind the limit. The headers of
-- the response are left out.
pub mod Kept
pub mod Laws
use sigimora_api_backend.Base.{
  ℕ, suc, Bool, true, false, not, ◌&&◌, ◌||◌, Option, none, some, List, [], ◌∷◌, length, ltb, ◌==◌,
  if◌then◌else◌, Outcome, ok, err, panic,
}
use sigimora_api_backend.Math.Suite.{Suite, Bytes}
use sigimora_api_backend.Ledger.Maps.{same_id}
use sigimora_api_backend.RateLimiter.{RateLimiter, check_with_remaining}
use sigimora_api_backend.Server.{ApiError, admin}
use sigimora_api_backend.Server.Store as Store
use sigimora_api_backend.Server.Store.{Database, Query, ApiKeyRow}
use sigimora_api_backend.Server.Texts.{Texts}
use sigimora_api_backend.Server.Access.{bearer, sha256_hex, strip_prefix}
use sigimora_api_backend.Server.Service.{Request, serve}

pub record AppState : Type 0 where
  pub db : Database
  pub rate_limiter : RateLimiter

pub data Response (A : Type 0) : Type 0 where
  answered : Outcome ApiError A → Response A
  too_many_requests : Response A

-- `127.0.0.1` where the request carries no address.
abbrev pub local : ℕ
local = 2130706433

abbrev pub address_or_local : Option ℕ → ℕ
address_or_local none = local
address_or_local (some ip) = ip

-- `Ok(Some(row)) => row.role == "admin", _ => false`.
abbrev row_is_admin : Outcome ApiError (Option ApiKeyRow) → Bool
row_is_admin (ok (some row)) = same_id row.role admin
row_is_admin (ok none) = false
row_is_admin (err e) = false
row_is_admin panic = false

abbrev pub was_answered : {A : Type 0} → Response A → Bool
was_answered (answered r) = true
was_answered too_many_requests = false

-- `next.run(req)`.
abbrev run_next : {A : Type 0} → Query A → AppState → AppState × Response A
run_next next s = let r = next s.db in (record s { db = r.0 }, answered r.1)

module _ (c : Suite) (texts : Texts) where
  -- The key after `"Bearer "`, at `h[7..]`.
  unfoldable pub is_admin : Option Bytes → Database → Bool
  unfolding strip_prefix
  is_admin none db = false
  is_admin (some h) db = elim (strip_prefix bearer h) [
    | none ↦ false
    | some key ↦
        if ltb (length key) 16 || ltb 256 (length key)
        then false
        else row_is_admin (Store.get_api_key_by_hash (sha256_hex c texts key) db).1
  ]

  unfoldable pub rate_limit_middleware :
      {A : Type 0} → ℕ → Option ℕ → Option Bytes → Query A → AppState → AppState × Response A
  unfolding is_admin
  rate_limit_middleware now address header next s =
      if is_admin header s.db
      then run_next next s
      else (let r = check_with_remaining now (address_or_local address) s.rate_limiter in
          let s' : AppState = record s { rate_limiter = r.0 } in
          if r.1.0 then run_next next s' else (s', too_many_requests))

  -- A request with its address and the instant at which it comes.
  pub record Visit : Type 0 where
    pub instant : ℕ
    pub address : Option ℕ
    pub request : Request c

  module _ (parse_time : Bytes → Option ℕ) where
    unfoldable pub respond : Visit → AppState → AppState × Response (Unit {0})
    respond v =
        rate_limit_middleware v.instant v.address v.request.header
          (serve c texts parse_time v.request)

    unfoldable pub respond_all : List Visit → AppState → AppState
    respond_all [] s = s
    respond_all (v ∷ vs) s = respond_all vs (respond v s).0

    -- The requests of an address, without an admin's key, that reach their handlers.
    unfoldable pub handled : ℕ → List Visit → AppState → ℕ
    handled ip [] s = 0
    handled ip (v ∷ vs) s =
        let rest = handled ip vs (respond v s).0 in
        if not (is_admin v.request.header s.db)
          && (was_answered (respond v s).1 && (address_or_local v.address == ip))
        then suc rest
        else rest
