-- ===== src/Server.antt =====
-- sigimora-server/src/error.rs: the errors that the handlers return, without their texts. A text is
-- the list of its bytes.
pub mod Store
pub mod Texts
pub mod Signing
pub mod Refreshing
pub mod Exchange
pub mod Keyed
pub mod Keygen
pub mod Access
pub mod Batch
pub mod Networks
pub mod Tracing
pub mod Health
pub mod Service
pub mod Limited
use sigimora_api_backend.Base.{ℕ, ◌∷◌, []}
use sigimora_api_backend.Math.Suite.{Bytes}

pub data ErrorCode : Type 0 where
  not_found bad_request unauthorized internal_error database_error crypto_error rate_limited :
      ErrorCode
  network_not_ready invalid_signature invalid_key network_not_found key_not_found : ErrorCode
  node_not_found tx_not_found : ErrorCode

pub data ApiError : Type 0 where
  not_found bad_request unauthorized internal database crypto : ApiError

-- `ApiError::code`.
unfoldable pub code : ApiError → ErrorCode
code ApiError.not_found = ErrorCode.not_found
code ApiError.bad_request = ErrorCode.bad_request
code ApiError.unauthorized = ErrorCode.unauthorized
code internal = internal_error
code database = database_error
code crypto = crypto_error

-- The HTTP status of `into_response`.
unfoldable pub status : ApiError → ℕ
status ApiError.not_found = 404
status ApiError.bad_request = 400
status ApiError.unauthorized = 401
status internal = 500
status database = 500
status crypto = 400

-- `"created"`, `"dkg_complete"`, `"admin"` and `"user"`.
abbrev pub created : Bytes
created = 99 ∷ 114 ∷ 101 ∷ 97 ∷ 116 ∷ 101 ∷ 100 ∷ []

abbrev pub dkg_complete : Bytes
dkg_complete = 100 ∷ 107 ∷ 103 ∷ 95 ∷ 99 ∷ 111 ∷ 109 ∷ 112 ∷ 108 ∷ 101 ∷ 116 ∷ 101 ∷ []

abbrev pub admin : Bytes
admin = 97 ∷ 100 ∷ 109 ∷ 105 ∷ 110 ∷ []

abbrev pub user : Bytes
user = 117 ∷ 115 ∷ 101 ∷ 114 ∷ []
