-- ===== src/Server/Limited/Kept.antt =====
-- Sequences of requests to sigimora-server, limited and handled one after the other: the key of one
-- network, and requests that are not let in.
use sigimora_api_backend.Base.{
  ℕ, ◌≤◌, ◌<◌, ◌≡◌, refl, sym, subst, ap, ◌∙◌, ◌⊎◌, Option, some, none, List, [], ◌∷◌, ◌++◌, find,
  All, err, inl, inr, Bool-cases,
}
use sigimora_api_backend.Math.Suite.{Suite, Bytes}
use sigimora_api_backend.Shamir.Interpolation.{Distinct}
use sigimora_api_backend.Shamir.Lagrange.{points}
use sigimora_api_backend.Ledger.Maps.{same_id}
use sigimora_api_backend.RateLimiter.{check_with_remaining}
use sigimora_api_backend.Server.{unauthorized}
use sigimora_api_backend.Server.Store.{Query}
use sigimora_api_backend.Server.Texts.{Texts}
use sigimora_api_backend.Server.Access.{bearer, sha256_hex}
use sigimora_api_backend.Server.Signing.{VerifyRequest, verify_signature}
use sigimora_api_backend.Server.Refreshing.Invariant.{checked_ids}
use sigimora_api_backend.Server.Service.{Call, key_route, serve}
use sigimora_api_backend.Server.Service.Statements.{HasKey}
use sigimora_api_backend.Server.Service.Kept.{KeepsRoute, serve-HasKey, verified, serve_refused}
use sigimora_api_backend.Server.Limited.{
  AppState, answered, too_many_requests, address_or_local, is_admin, rate_limit_middleware, Visit,
  respond, respond_all,
}

module _ (c : Suite) (texts : Texts) where
  -- The database and the answer, of what runs behind the limit or of a refusal.
  rate_limit_middleware-cases :
      {A : Type 0} (now : ℕ) (address : Option ℕ) (header : Option Bytes) (next : Query A)
      (s : AppState)
      → let r = rate_limit_middleware c texts now address header next s in
        ((r.0.db ≡ (next s.db).0) × (r.1 ≡ answered (next s.db).1))
        ⊎ ((r.0.db ≡ s.db) × (r.1 ≡ too_many_requests))
  unfolding rate_limit_middleware
  rate_limit_middleware-cases now address header next s =
      elim (Bool-cases (is_admin c texts header s.db)) [
        | inl e ↦ rw (e) (inl (refl, refl))
        | inr e ↦
            elim (Bool-cases
              (check_with_remaining now (address_or_local address) s.rate_limiter).1.0) [
                | inl q ↦ rw (e, q) (inl (refl, refl))
                | inr q ↦ rw (e, q) (inr (refl, refl))
              ]
      ]

  module _ (parse_time : Bytes → Option ℕ) where
    respond-cases :
        (v : Visit c texts) (s : AppState)
        → let r = respond c texts parse_time v s in
          let next = serve c texts parse_time v.request s.db in
          ((r.0.db ≡ next.0) × (r.1 ≡ answered next.1))
          ⊎ ((r.0.db ≡ s.db) × (r.1 ≡ too_many_requests))
    unfolding respond
    respond-cases v s =
        rate_limit_middleware-cases v.instant v.address v.request.header
          (serve c texts parse_time v.request) s

    -- A request for one of the modelled routes that need a key, whose header has no key of the table,
    -- leaves the database as it is, and is answered as unauthorized, or as one too many.
    pub respond_refused :
        (v : Visit c texts) (call : Call c) (s : AppState)
        → v.request.route ≡ key_route call
        → ((key : Bytes)
            → v.request.header ≡ some (bearer ++ key)
            → find (λ k. same_id k.key_hash (sha256_hex c texts key)) s.db.api_keys ≡ none)
        → ((respond c texts parse_time v s).0.db ≡ s.db)
          × (((respond c texts parse_time v s).1 ≡ answered (err unauthorized))
              ⊎ ((respond c texts parse_time v s).1 ≡ too_many_requests))
    respond_refused v call s route unknown =
        let refused = serve_refused c texts parse_time v.request call s.db route unknown in
        elim (respond-cases v s) [
          | inl (e, a) ↦ (e ∙ ap (λ r. r.0) refused, inl (a ∙ ap (λ r. answered r.1) refused))
          | inr (e, a) ↦ (e, inr a)
        ]

    module _ (net : Bytes) (n t : ℕ) (s : c.Scalar) (enough : t < n) (few : n ≤ 65535)
        (apart : Distinct (points c.field (checked_ids c net n t))) where
      respond-HasKey :
          (v : Visit c texts) (st : AppState)
          → KeepsRoute c texts parse_time net v.request.route
          → HasKey c net n t s st.db
          → HasKey c net n t s (respond c texts parse_time v st).0.db
      respond-HasKey v st k h =
          let served =
            (serve-HasKey c texts parse_time net n t s enough few apart v.request k).after st.db
              h in
          elim (respond-cases v st) [
            | inl (e, _) ↦ subst (HasKey c net n t s) (sym e) served
            | inr (e, _) ↦ subst (HasKey c net n t s) (sym e) h
          ]

      -- A network of at most 65535 nodes with a threshold below their number, whose ids 1 to `t + 1` are
      -- different scalars, keeps its key, with the nodes holding its shares, over any sequence of requests
      -- that does not generate a key for this network, whether they are let in and whatever they answer.
      pub respond_all-HasKey :
          (vs : List (Visit c texts)) (st : AppState)
          → All (λ (v : Visit c texts). KeepsRoute c texts parse_time net v.request.route) vs
          → HasKey c net n t s st.db
          → HasKey c net n t s (respond_all c texts parse_time vs st).db
      unfolding respond_all
      respond_all-HasKey [] st a h = h
      respond_all-HasKey (v ∷ vs) st (k, a) h =
          respond_all-HasKey vs (respond c texts parse_time v st).0 a (respond-HasKey v st k h)

      -- For a network of at most 65535 nodes that hold the shares of its key, with a threshold below their
      -- number and ids 1 to `t + 1` that are different scalars, any message and signature get the same
      -- answer from `verify_signature` before and after any sequence of requests that does not generate a
      -- key for this network.
      pub verify_signature-respond_all :
          (req : VerifyRequest) (vs : List (Visit c texts)) (st : AppState)
          → All (λ (v : Visit c texts). KeepsRoute c texts parse_time net v.request.route) vs
          → HasKey c net n t s st.db
          → (verify_signature c texts net req (respond_all c texts parse_time vs st).db).1
            ≡ (verify_signature c texts net req st.db).1
      verify_signature-respond_all req vs st a h =
          verified c texts parse_time net n t s enough few apart req st.db
            (respond_all c texts parse_time vs st).db h (respond_all-HasKey vs st a h)
