-- ===== src/Network.antt =====
-- sigimora-mcp/src/network.rs: the frames of the wire protocol. What tokio's sockets do is a parameter.
pub mod Frames
pub mod Handshake
use sigimora_api_backend.Base.{
  ℕ, ◌%◌, ◌≡◌, Option, some, List, ◌++◌, length, leb, guard, ok_or, Outcome, ok, ◌>>=◌, ◌>>◌,
  be_bytes, from_be_bytes,
}

-- `McpError::NetworkError` by what failed.
pub data NetworkError : Type 0 where
  message_too_large : NetworkError
  write_length : NetworkError
  write_data : NetworkError
  flush_failed : NetworkError
  read_length : NetworkError
  read_data : NetworkError

-- `AsyncWriteExt` and `AsyncReadExt` on the two ends of a connection, which carries the bytes written
-- and not yet read, in their order.
pub record Connection (W : Type 0) : Type 0 where
  pub write_all : List ℕ → W → Option W
  pub flush : W → Option W
  pub read_exact : ℕ → W → Option (List ℕ × W)
  pub carried : W → List ℕ
  pub carried-write_all :
      (bs : List ℕ) (w w' : W) → write_all bs w ≡ some w' → carried w' ≡ carried w ++ bs
  pub carried-flush : (w w' : W) → flush w ≡ some w' → carried w' ≡ carried w
  pub read_exact_carried :
      (n : ℕ) (w : W) (xs ys : List ℕ)
      → carried w ≡ xs ++ ys
      → length xs ≡ n
      → (w' : W) × (read_exact n w ≡ some (xs, w')) × (carried w' ≡ ys)

abbrev pub max_msg_size : ℕ
max_msg_size = 1048576

-- `x as u32`.
abbrev pub u32 : ℕ → ℕ
u32 n = n % 4294967296

module _ {W : Type 0} (k : Connection W) where
  -- The bytes of a message on a connection: `write_framed` and `read_framed`.
  unfoldable pub write_framed : List ℕ → W → Outcome NetworkError W
  write_framed bytes w = do
    guard (leb (u32 (length bytes)) max_msg_size) message_too_large
    w₁ ← ok_or (k.write_all (be_bytes 4 (u32 (length bytes))) w) write_length
    w₂ ← ok_or (k.write_all bytes w₁) write_data
    ok_or (k.flush w₂) flush_failed

  unfoldable pub read_framed : W → Outcome NetworkError (List ℕ × W)
  read_framed w = do
    head ← ok_or (k.read_exact 4 w) read_length
    guard (leb (from_be_bytes head.0) max_msg_size) message_too_large
    ok_or (k.read_exact (from_be_bytes head.0) head.1) read_data
