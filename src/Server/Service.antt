-- ===== src/Server/Service.antt =====
-- The routes of sigimora-server/src/main.rs whose handlers are modelled: the health check, which needs
-- no key, and those where a request is let in by its header, then its handler runs. A request comes with the handler's arguments, with what the handler
-- draws, and with the time `now` at which its key is touched.
pub mod Statements
pub mod Handlers
pub mod Kept
use sigimora_api_backend.Base.{ℕ, Option}
use sigimora_api_backend.Base.Stateful.{◌>>=◌, ◌>>◌, pure}
use sigimora_api_backend.Math.Suite.{Suite, Bytes}
use sigimora_api_backend.Server.Store.{Database, Query}
use sigimora_api_backend.Server.Texts.{Texts}
use sigimora_api_backend.Server.Access as Access
use sigimora_api_backend.Server.Access.{AuthenticatedUser, CreateApiKeyRequest, from_request_parts}
use sigimora_api_backend.Server.Networks as Networks
use sigimora_api_backend.Server.Networks.{Fresh, CreateNetworkRequest, create_network}
use sigimora_api_backend.Server.Health.{health_check}
use sigimora_api_backend.Server.Keygen.{run_dkg, get_dkg_status}
use sigimora_api_backend.Server.Signing.{SignRequest, VerifyRequest, sign_message, verify_signature}
use sigimora_api_backend.Server.Batch.{BatchSignRequest, batch_sign}
use sigimora_api_backend.Server.Refreshing.{refresh_network}
use sigimora_api_backend.Server.Tracing.{TraceRequest, trace_signers}

module _ (c : Suite) where
  open c use {Scalar}

  -- The routes whose handlers take an `AuthenticatedUser`.
  pub data Call : Type 0 where
    create : Fresh Scalar → CreateNetworkRequest → Call
    show : ℕ → Bytes → Call
    generate : (ℕ → ℕ → Scalar) → (ℕ → ℕ → Scalar) → Bytes → Call
    status : Bytes → Call
    sign : (ℕ → Scalar) → (ℕ → Scalar × Bytes) → Bytes → Bytes → Bytes → SignRequest → Call
    batch :
        (ℕ → Scalar)
        → (ℕ → ℕ → Scalar × Bytes)
        → (ℕ → Bytes)
        → Bytes
        → Bytes
        → BatchSignRequest
        → Call
    verify : Bytes → VerifyRequest → Call
    trace : Bytes → TraceRequest → Call
    refresh : (ℕ → ℕ → Scalar) → Bytes → Call
    create_key : Bytes → Bytes → Bytes → CreateApiKeyRequest → Call
    delete_key : Bytes → Call

  pub data Route : Type 0 where
    health_route : Route
    key_route : Call → Route

  pub record Request : Type 0 where
    pub now : Bytes
    pub header : Option Bytes
    pub route : Route

  module _ (texts : Texts) (parse_time : Bytes → Option ℕ) where
    -- The handler of a route, without its answer.
    unfoldable pub handle : AuthenticatedUser → Call → Query (Unit {0})
    handle user (create fresh req) = do create_network c texts fresh req; pure tt
    handle user (show now id) = do Networks.get_network texts parse_time now id; pure tt
    handle user (generate rngs os_rngs id) = do run_dkg c texts rngs os_rngs id; pure tt
    handle user (status id) = do get_dkg_status texts id; pure tt
    handle user (sign lt random tx_id now id req) = do
      sign_message c texts lt random tx_id now id req
      pure tt
    handle user (batch lt random tx_id now id req) = do
      batch_sign c texts lt random tx_id now id req
      pure tt
    handle user (verify id req) = do verify_signature c texts id req; pure tt
    handle user (trace id req) = do trace_signers c texts id req; pure tt
    handle user (refresh rngs id) = do refresh_network c rngs id; pure tt
    handle user (create_key entropy id now req) = do
      Access.create_api_key c texts entropy id now user req
      pure tt
    handle user (delete_key id) = Access.delete_api_key user id

    unfoldable pub serve_route : Bytes → Option Bytes → Route → Query (Unit {0})
    serve_route now header health_route = do health_check; pure tt
    serve_route now header (key_route call) = do
      user ← from_request_parts c texts now header
      handle user call

    unfoldable pub serve : Request → Query (Unit {0})
    unfolding serve_route
    serve r = serve_route r.now r.header r.route
