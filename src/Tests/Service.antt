-- ===== src/Tests/Service.antt =====
-- Runs of the theorems on sequences of requests about the network of Tests/Server.
use sigimora_api_backend.Base.{
  ℕ, ◌≤◌, ◌*◌, ◌≡◌, refl, ◌⊎◌, Option, some, none, List, [], ◌∷◌, ◌++◌, All, err, find, subst,
  arith,
}
use sigimora_api_backend.Math.Suite.{Bytes}
use sigimora_api_backend.Samples.{sample, zeros}
use sigimora_api_backend.Samples.FiveField.{z1, z2, z3}
use sigimora_api_backend.Shamir.Poly.{horner}
use sigimora_api_backend.Ledger.Maps.{same_id}
use sigimora_api_backend.Server.{user, unauthorized}
use sigimora_api_backend.Server.Store.{Database, ApiKeyRow}
use sigimora_api_backend.Server.Access.{bearer, sha256_hex}
use sigimora_api_backend.Server.Keyed.{IsKeyed-same}
use sigimora_api_backend.Server.Signing.{VerifyRequest, verify_signature}
use sigimora_api_backend.Server.Service.{
  Request, Call, health_route, key_route, sign, generate, refresh, delete_key,
}
use sigimora_api_backend.Server.Service.Statements.{HasKey}
use sigimora_api_backend.Server.Service.Kept.{KeepsRoute}
use sigimora_api_backend.RateLimiter.{new, check_with_remaining}
use sigimora_api_backend.Server.Limited.{
  AppState, answered, too_many_requests, local, is_admin, rate_limit_middleware, Visit, respond,
  respond_all, handled,
}
use sigimora_api_backend.Server.Limited.Kept.{
  respond_all-HasKey, verify_signature-respond_all, respond_refused,
}
use sigimora_api_backend.Server.Limited.Laws.{handled-respond_all}
use sigimora_api_backend.Tests.{ones, texts}
use sigimora_api_backend.Tests.Server.{net, keyed, keyed-IsKeyed, ids_apart}

abbrev key_row : ApiKeyRow
key_row = record {
  id = 1 ∷ [];
  key_hash = 66 ∷ zeros 20;
  key_prefix = [];
  label = [];
  role = user;
  created_at = [];
  last_used_at = none;
}

abbrev start : Database
start = record keyed { api_keys = key_row ∷ [] }

start-HasKey : HasKey sample net 2 1 z3 start
unfolding horner
start-HasKey = record {
  poly = z3 ∷ z1 ∷ [];
  secret = refl;
  keyed = IsKeyed-same sample net 2 1 (z3 ∷ z1 ∷ []) keyed start refl refl keyed-IsKeyed;
}

abbrev parse_time : Bytes → Option ℕ
parse_time text = none

abbrev by_user : Call sample → Request sample
by_user call = record {
  now = [];
  header = some (bearer ++ (66 ∷ zeros 20));
  route = key_route call;
}

abbrev signing : Call sample
signing =
    sign (λ k. z1) (λ k. (z2, 9 ∷ [])) (5 ∷ []) [] net
      (record { message = 9 ∷ []; quorum = 2 ∷ 1 ∷ [] })

abbrev visit : Option ℕ → Request sample → Visit sample texts
visit address r = record { instant = 7; address = address; request = r }

abbrev not_let_in : Visit sample texts
not_let_in =
    visit none (record { now = []; header = none; route = key_route (delete_key (1 ∷ [])) })

-- A refresh, a signature, a key generation for another network, a request that is not let in, one that
-- the limiter refuses, and a health check.
abbrev visits : List (Visit sample texts)
visits =
    visit none (by_user (refresh (λ i. ones) net))
    ∷ visit none (by_user signing)
    ∷ visit (some 9) (by_user (generate (λ i. ones) (λ i. ones) (8 ∷ [])))
    ∷ not_let_in
    ∷ visit none (by_user (refresh (λ i. ones) net))
    ∷ visit (some 9) (record { now = []; header = none; route = health_route })
    ∷ []

abbrev started : AppState
started = record { db = start; rate_limiter = new 3 60 }

visits-KeepsKey :
    All (λ (v : Visit sample texts). KeepsRoute sample texts parse_time net v.request.route) visits
visits-KeepsKey = (tt, (tt, (refl, (tt, (tt, (tt, tt))))))

respond_all-HasKey_example :
    HasKey sample net 2 1 z3 (respond_all sample texts parse_time visits started).db
respond_all-HasKey_example =
    respond_all-HasKey sample texts parse_time net 2 1 z3 (omega arith) (omega arith) ids_apart
      visits started visits-KeepsKey start-HasKey

abbrev claim : VerifyRequest
claim = record { message = 9 ∷ []; signature_hex = 0 ∷ zeros 47 }

verify_signature-respond_all_example :
    (verify_signature sample texts net claim
      (respond_all sample texts parse_time visits started).db).1
    ≡ (verify_signature sample texts net claim start).1
verify_signature-respond_all_example =
    verify_signature-respond_all sample texts parse_time net 2 1 z3 (omega arith) (omega arith)
      ids_apart claim visits started visits-KeepsKey start-HasKey

-- A key of the right length that the table does not have.
abbrev wrong_key : Bytes
wrong_key = 67 ∷ zeros 20

abbrev guessed : Visit sample texts
guessed = visit none (record {
  now = [];
  header = some (bearer ++ wrong_key);
  route = key_route (delete_key (1 ∷ []));
})

wrong_key-eq : (key : Bytes) → some (bearer ++ wrong_key) ≡ some (bearer ++ key) → wrong_key ≡ key
wrong_key-eq key e = cc

wrong_key_unknown :
    (key : Bytes)
    → some (bearer ++ wrong_key) ≡ some (bearer ++ key)
    → find (λ k. same_id k.key_hash (sha256_hex sample texts key)) start.api_keys ≡ none
unfolding sha256_hex
wrong_key_unknown key e =
    subst (λ x. find (λ k. same_id k.key_hash (sha256_hex sample texts x)) start.api_keys ≡ none)
      (wrong_key-eq key e) refl

respond_refused_example :
    ((respond sample texts parse_time guessed started).0.db ≡ start)
    × (((respond sample texts parse_time guessed started).1 ≡ answered (err unauthorized))
        ⊎ ((respond sample texts parse_time guessed started).1 ≡ too_many_requests))
respond_refused_example =
    respond_refused sample texts parse_time guessed (delete_key (1 ∷ [])) started refl
      wrong_key_unknown

-- Four requests of one address, and three that the limiter lets through.
handled-respond_all_example :
    (handled sample texts parse_time local visits started ≤ 3)
    × (handled sample texts parse_time local visits
          (respond_all sample texts parse_time visits started)
        ≤ 2 * 3)
handled-respond_all_example =
    handled-respond_all sample texts parse_time 3 60 7 local visits visits started refl (
      (omega arith, omega arith),
      (
        (omega arith, omega arith),
        (
          (omega arith, omega arith),
          (
            (omega arith, omega arith),
            ((omega arith, omega arith), ((omega arith, omega arith), tt)),
          ),
        ),
      ),
    )

-- The fourth is one too many.
handled_visits :
    handled sample texts parse_time local
      (not_let_in ∷ not_let_in ∷ not_let_in ∷ not_let_in ∷ [])
      started
    ≡ 3
unfolding handled respond rate_limit_middleware is_admin check_with_remaining new
handled_visits = refl
