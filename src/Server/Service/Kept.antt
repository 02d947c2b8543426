-- ===== src/Server/Service/Kept.antt =====
-- One request to sigimora-server, and the key of one network.
use sigimora_api_backend.Base.{
  ℕ, ◌≤◌, ◌<◌, ◌≡◌, refl, sym, ap, subst, ◌∙◌, true, false, ◌||◌, Option, none, some, ◌++◌, find,
  length, ltb, err, Bool-cases, Option-cases, Outcome-cases, inl, inr,
}
use sigimora_api_backend.Base.Preserving.{Preserves, Preserves-bind, Preserves-then, Preserves-pure}
use sigimora_api_backend.Base.Stateful.{follow}
use sigimora_api_backend.Math.Suite.{Suite, Bytes}
use sigimora_api_backend.Shamir.Interpolation.{Distinct}
use sigimora_api_backend.Shamir.Lagrange.{points}
use sigimora_api_backend.Ledger.Maps.{same_id, same_id_eq}
use sigimora_api_backend.Server.{unauthorized, bad_request, internal}
use sigimora_api_backend.Server.Store as Store
use sigimora_api_backend.Server.Store.{Database}
use sigimora_api_backend.Server.Texts.{Texts, decode, decode-to_bytes}
use sigimora_api_backend.Server.Access.{
  AuthenticatedUser, bearer, sha256_hex, strip_prefix, from_request_parts,
}
use sigimora_api_backend.Server.Access.Laws.{strip_prefix_eq}
use sigimora_api_backend.Server.Health.{health_check}
use sigimora_api_backend.Server.Keygen.Laws.{found_network_ok}
use sigimora_api_backend.Server.Signing.{VerifyRequest, verify_signature}
use sigimora_api_backend.Server.Refreshing.{refresh_network}
use sigimora_api_backend.Server.Refreshing.Invariant.{checked_ids}
use sigimora_api_backend.Server.Refreshing.Laws.{refreshed, refreshed_zero}
use sigimora_api_backend.Server.Refreshing.Kept.{refresh_network-IsKeyed}
use sigimora_api_backend.Server.Service.{
  Call, create, show, generate, status, sign, batch, verify, trace, refresh, create_key, delete_key,
  Request, Route, health_route, key_route, handle, serve_route, serve,
}
use sigimora_api_backend.Server.Service.Statements.{HasKey, reads}
use sigimora_api_backend.Server.Service.Handlers.{
  sign_message-HasKey, batch_sign-HasKey, verify_signature-HasKey, trace_signers-HasKey,
  get_dkg_status-HasKey, get_network-HasKey, create_api_key-HasKey, delete_api_key_lem,
  from_request_parts-HasKey, run_dkg-HasKey, refresh_network-HasKey, create_network-HasKey,
}

module _ (c : Suite) (texts : Texts) (parse_time : Bytes → Option ℕ) (net : Bytes) where
  open c use {Scalar, G2, field, g2}

  -- The call generates no key of the network.
  abbrev pub KeepsKey : Call c → Type 0
  KeepsKey (generate rngs os_rngs id) = same_id id net ≡ false
  KeepsKey (create fresh req) = Unit
  KeepsKey (show now id) = Unit
  KeepsKey (status id) = Unit
  KeepsKey (sign lt random tx_id now id req) = Unit
  KeepsKey (batch lt random tx_id now id req) = Unit
  KeepsKey (verify id req) = Unit
  KeepsKey (trace id req) = Unit
  KeepsKey (refresh rngs id) = Unit
  KeepsKey (create_key entropy id now req) = Unit
  KeepsKey (delete_key id) = Unit

  abbrev pub KeepsRoute : Route c → Type 0
  KeepsRoute health_route = Unit
  KeepsRoute (key_route call) = KeepsKey call

  module _ (n t : ℕ) (s : Scalar) (enough : t < n) (few : n ≤ 65535)
      (apart : Distinct (points field (checked_ids c net n t))) where
    refresh_own :
        (rngs : ℕ → ℕ → Scalar) (id : Bytes)
        → same_id id net ≡ true
        → Preserves (HasKey c net n t s) (refresh_network c rngs id)
    refresh_own rngs id q = record {
      after = λ db h.
          let (db', resp, e, _, k) =
            refresh_network-IsKeyed c net n t h.poly rngs db h.keyed enough few apart in
          subst (HasKey c net n t s)
            (sym
              (ap (λ i. (refresh_network c rngs i db).0) (same_id_eq id net q) ∙ ap (λ r. r.0) e))
            (record {
              poly = refreshed c net n t rngs h.poly;
              secret = refreshed_zero c net n t h.poly rngs ∙ h.secret;
              keyed = k;
            });
    }

    any_refresh :
        (rngs : ℕ → ℕ → Scalar) (id : Bytes)
        → Preserves (HasKey c net n t s) (refresh_network c rngs id)
    any_refresh rngs id = elim (Bool-cases (same_id id net)) [
      | inl q ↦ refresh_own rngs id q
      | inr q ↦ refresh_network-HasKey c texts net n t s rngs id q
    ]

    ruleset call_rules = (
      Preserves-bind, Preserves-then, Preserves-pure, sign_message-HasKey, batch_sign-HasKey,
      verify_signature-HasKey, trace_signers-HasKey, get_dkg_status-HasKey, get_network-HasKey,
      create_api_key-HasKey, delete_api_key_lem, from_request_parts-HasKey, run_dkg-HasKey,
      any_refresh, create_network-HasKey,
    )

    handle-HasKey :
        (user : AuthenticatedUser) (call : Call c)
        → KeepsKey call
        → Preserves (HasKey c net n t s) (handle c texts parse_time user call)
    unfolding handle
    handle-HasKey user (generate rngs os_rngs id) k = search call_rules
    handle-HasKey user (create fresh req) k = search call_rules
    handle-HasKey user (show now id) k = search call_rules
    handle-HasKey user (status id) k = search call_rules
    handle-HasKey user (sign lt random tx_id now id req) k = search call_rules
    handle-HasKey user (batch lt random tx_id now id req) k = search call_rules
    handle-HasKey user (verify id req) k = search call_rules
    handle-HasKey user (trace id req) k = search call_rules
    handle-HasKey user (refresh rngs id) k = search call_rules
    handle-HasKey user (create_key entropy id now req) k = search call_rules
    handle-HasKey user (delete_key id) k = search call_rules

    health_check-HasKey : Preserves (HasKey c net n t s) health_check
    unfolding health_check Store.count_networks Store.count_all_nodes Store.count_all_ledger_entries
        Store.count_api_keys
    health_check-HasKey = reads c net n t s health_check (λ db. refl)

    serve_route-HasKey :
        (now : Bytes) (header : Option Bytes) (route : Route c)
        → KeepsRoute route
        → Preserves (HasKey c net n t s) (serve_route c texts parse_time now header route)
    unfolding serve_route
    serve_route-HasKey now header (health_route) k =
        search (Preserves-then, Preserves-pure, health_check-HasKey)
    serve_route-HasKey now header (key_route call) k =
        search (Preserves-bind, from_request_parts-HasKey, handle-HasKey, k)

    pub serve-HasKey :
        (r : Request c)
        → KeepsRoute r.route
        → Preserves (HasKey c net n t s) (serve c texts parse_time r)
    unfolding serve
    serve-HasKey r k = serve_route-HasKey r.now r.header r.route k

    -- The answer depends on the key alone.
    pub verified :
        (req : VerifyRequest) (db db' : Database)
        → HasKey c net n t s db
        → HasKey c net n t s db'
        → (verify_signature c texts net req db').1 ≡ (verify_signature c texts net req db).1
    unfolding verify_signature
    verified req db db' h h' =
        rw
          (
            found_network_ok net db h.keyed.row h.keyed.found,
            found_network_ok net db' h'.keyed.row h'.keyed.found,
            h.keyed.key,
            h'.keyed.key,
            h.secret,
            h'.secret,
            decode-to_bytes c.g2_code internal (g2.mul g2.generator s),
          )
          (elim (Option-cases (texts.hex_decode req.message)) [
            | inl q ↦ rw (q) refl
            | inr (msg, q) ↦ elim (Option-cases (texts.hex_decode req.signature_hex)) [
              | inl r ↦ rw (q, r) refl
              | inr (b, r) ↦ elim (Outcome-cases (decode c.g1_code bad_request b)) [
                | inl (sig, d) ↦ rw (q, r, d) refl
                | inr (inl (x, d)) ↦ rw (q, r, d) refl
                | inr (inr d) ↦ rw (q, r, d) refl
              ]
            ]
          ])

module _ (c : Suite) (texts : Texts) (parse_time : Bytes → Option ℕ) where
  unknown_key :
      (now : Bytes) (header : Option Bytes) (db : Database)
      → ((key : Bytes)
          → header ≡ some (bearer ++ key)
          → find (λ k. same_id k.key_hash (sha256_hex c texts key)) db.api_keys ≡ none)
      → from_request_parts c texts now header db ≡ (db, err unauthorized)
  unfolding from_request_parts Store.get_api_key_by_hash
  unknown_key now none db unknown = refl
  unknown_key now (some text) db unknown = elim (Option-cases (strip_prefix bearer text)) [
    | inl p ↦ rw (p) refl
    | inr (key, p) ↦
        let none_found = unknown key (ap some (strip_prefix_eq bearer text key p)) in
        elim (Bool-cases (ltb (length key) 16 || ltb 256 (length key))) [
          | inl l ↦ rw (p, l) refl
          | inr l ↦ rw (p, l, none_found) refl
        ]
  ]

  pub serve_refused :
      (r : Request c) (call : Call c) (db : Database)
      → r.route ≡ key_route call
      → ((key : Bytes)
          → r.header ≡ some (bearer ++ key)
          → find (λ k. same_id k.key_hash (sha256_hex c texts key)) db.api_keys ≡ none)
      → serve c texts parse_time r db ≡ (db, err unauthorized)
  unfolding serve serve_route
  serve_refused r call db route unknown =
      ap (λ x. serve_route c texts parse_time r.now r.header x db) route
      ∙ ap (follow (λ user. handle c texts parse_time user call))
          (unknown_key r.now r.header db unknown)
