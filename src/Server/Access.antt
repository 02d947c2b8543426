-- ===== src/Server/Access.antt =====
-- sigimora-server/src/auth.rs and routes/api_keys.rs: API keys, the check of a request's header, and
-- the handlers by which admins make and revoke keys. The 16 bytes of entropy, the id and the time are
-- what the generator, `Uuid::new_v4` and the clock yield; a header is the text of its bytes.
pub mod Laws
use sigimora_api_backend.Base.{
  ℕ, ◌+◌, ◌-◌, ◌%◌, Bool, not, ◌||◌, Option, none, some, List, [], ◌∷◌, ◌++◌, map, take, length,
  ltb, ◌==◌, if◌then◌else◌, guard, ok_or,
}
use sigimora_api_backend.Base.Stateful.{◌>>=◌, ◌>>◌, pure, lift}
use sigimora_api_backend.Math.Suite.{Suite, Bytes}
use sigimora_api_backend.Ledger.Maps.{same_id}
use sigimora_api_backend.Server.{ApiError, not_found, bad_request, unauthorized, admin, user}
use sigimora_api_backend.Server.Store as Store
use sigimora_api_backend.Server.Store.{Query, ApiKeyRow}
use sigimora_api_backend.Server.Texts.{Texts}

pub record AuthenticatedUser : Type 0 where
  pub id : Bytes
  pub role : Bytes

-- `"sigimora_"` and `"Bearer "`.
abbrev pub api_key_prefix : Bytes
api_key_prefix = 115 ∷ 105 ∷ 103 ∷ 105 ∷ 109 ∷ 111 ∷ 114 ∷ 97 ∷ 95 ∷ []

abbrev pub bearer : Bytes
bearer = 66 ∷ 101 ∷ 97 ∷ 114 ∷ 101 ∷ 114 ∷ 32 ∷ []

-- The letter at `b % 62` of the upper case letters, the lower case ones and the digits.
unfoldable pub letter : ℕ → ℕ
letter b =
    let idx = b % 62 in
    if ltb idx 26 then 65 + idx else (if ltb idx 52 then 97 + (idx - 26) else 48 + (idx - 52))

unfoldable pub strip_prefix : Bytes → Bytes → Option Bytes
strip_prefix [] text = some text
strip_prefix (p ∷ ps) [] = none
strip_prefix (p ∷ ps) (x ∷ xs) = let rest = strip_prefix ps xs in if p == x then rest else none

-- Constant-time comparison of two texts.
abbrev ct_eq_hash : Bytes → Bytes → Bool
ct_eq_hash a b = same_id a b

pub record CreateApiKeyRequest : Type 0 where
  pub label : Bytes
  pub role : Option Bytes

pub record CreateApiKeyResponse : Type 0 where
  pub id : Bytes
  pub key_prefix : Bytes
  pub label : Bytes
  pub role : Bytes
  pub raw_key : Bytes

-- `req.role.as_deref().unwrap_or("user")`.
abbrev role_or_user : Option Bytes → Bytes
role_or_user none = user
role_or_user (some role) = role

module _ (c : Suite) (texts : Texts) where
  unfoldable pub sha256_hex : Bytes → Bytes
  sha256_hex key = texts.hex_encode (c.sha256 key)

  -- `(raw_key, row)`.
  unfoldable pub generate_api_key : Bytes → Bytes → Bytes → Bytes → Bytes → Bytes × ApiKeyRow
  unfolding letter
  generate_api_key entropy id now label role =
      let raw_key = api_key_prefix ++ map letter entropy in
      (
        raw_key,
        record {
          id = id;
          key_hash = sha256_hex raw_key;
          key_prefix = take 16 raw_key;
          label = label;
          role = role;
          created_at = now;
          last_used_at = none;
        },
      )

  unfoldable pub from_request_parts : Bytes → Option Bytes → Query AuthenticatedUser
  unfolding strip_prefix
  from_request_parts now header = do
    auth_header ← lift (ok_or header unauthorized)
    key ← lift (ok_or (strip_prefix bearer auth_header) unauthorized)
    lift (guard (not (ltb (length key) 16 || ltb 256 (length key))) unauthorized)
    row ← Store.get_api_key_by_hash (sha256_hex key)
    r ← lift (ok_or row unauthorized)
    lift (guard (ct_eq_hash r.key_hash (sha256_hex key)) unauthorized)
    Store.touch_api_key now r.id
    pure (record { id = r.id; role = r.role })

  unfoldable pub create_api_key :
      Bytes → Bytes → Bytes → AuthenticatedUser → CreateApiKeyRequest → Query CreateApiKeyResponse
  unfolding generate_api_key
  create_api_key entropy id now caller req = do
    lift (guard (same_id caller.role admin) unauthorized)
    let role = role_or_user req.role
    lift (guard (same_id role admin || same_id role user) bad_request)
    let made = generate_api_key entropy id now req.label role
    Store.insert_api_key made.1
    pure (record {
      id = made.1.id;
      key_prefix = made.1.key_prefix;
      label = made.1.label;
      role = made.1.role;
      raw_key = made.0;
    })

-- `{"deleted": true}` is the answer.
unfoldable pub delete_api_key : AuthenticatedUser → Bytes → Query (Unit {0})
delete_api_key caller id = do
  lift (guard (same_id caller.role admin) unauthorized)
  deleted ← Store.delete_api_key id
  lift (guard deleted not_found)
