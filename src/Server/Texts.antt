-- ===== src/Server/Texts.antt =====
-- What the handlers of sigimora-server take from the crates hex and serde_json, and the decoding of
-- stored points and scalars in sigimora-server/src/routes.
use sigimora_api_backend.Base.{
  ℕ, ◌<◌, ◌≡◌, refl, true, Option, none, some, List, All, length, ◌==◌, guard, ok_or, Outcome, ok,
  ◌>>◌, arith,
}
use sigimora_api_backend.Math.Suite.{Bytes, Encoding}
use sigimora_api_backend.Server.{ApiError, crypto}

pub record Texts : Type 0 where
  pub hex_encode : Bytes → Bytes
  pub hex_decode : Bytes → Option Bytes
  -- `serde_json::to_string` and `from_str` on a vector of `u16`.
  pub json_ids : List ℕ → Bytes
  pub parse_ids : Bytes → Option (List ℕ)
  pub hex_decode-hex_encode : (b : Bytes) → hex_decode (hex_encode b) ≡ some b
  pub parse_ids-json_ids :
      (ids : List ℕ) → All (λ i. i < 65536) ids → parse_ids (json_ids ids) ≡ some ids

-- `pk.as_ref().map(|b| hex::encode(b))`.
abbrev pub hex_of : Texts → Option Bytes → Option Bytes
hex_of texts none = none
hex_of texts (some b) = some (texts.hex_encode b)

-- A length check, then `from_bytes`.
unfoldable pub decode :
    {A : Type 0} {size : ℕ} → Encoding A size → ApiError → Bytes → Outcome ApiError A
decode {size} encoding wrong bytes = do
  guard (length bytes == size) wrong
  ok_or (encoding.from_bytes bytes) crypto

pub decode-to_bytes :
    {A : Type 0} {size : ℕ} (encoding : Encoding A size) (wrong : ApiError) (a : A)
    → decode encoding wrong (encoding.to_bytes a) ≡ ok a
unfolding decode
decode-to_bytes {size} encoding wrong a =
    let fits : (length (encoding.to_bytes a) == size) ≡ true =
      ground (arith, encoding.length-to_bytes a) in
    rw (fits, encoding.from_bytes-to_bytes a) refl
