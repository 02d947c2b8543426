-- ===== src/Math/Suite.antt =====
-- Everything that the workspace takes from blst, blstrs, sha2, hkdf and aes-gcm, as one parameter:
-- the scalar field, G1, G2, Gt, the pairing, hashing to G1 and to bytes, the encodings of points
-- and scalars, and authenticated encryption. The laws are those that these libraries document.
use sigimora_api_backend.Base.{ℕ, ◌+◌, ◌≡◌, List, map, length, Option, some}
use sigimora_api_backend.Math.Field.{Field}
use sigimora_api_backend.Math.Group.{Group, sum}

abbrev pub Bytes : Type 0
Bytes = List ℕ

-- An encoding of fixed length.
pub record Encoding (A : Type 0) (size : ℕ) : Type 0 where
  pub to_bytes : A → Bytes
  pub from_bytes : Bytes → Option A
  pub length-to_bytes : (a : A) → length (to_bytes a) ≡ size
  pub from_bytes-to_bytes : (a : A) → from_bytes (to_bytes a) ≡ some a

pub record Suite : Type 1 where
  pub Scalar : Type 0
  pub G1 : Type 0
  pub G2 : Type 0
  pub Gt : Type 0
  pub field : Field Scalar
  pub g1 : Group Scalar field G1
  pub g2 : Group Scalar field G2
  -- Gt is written additively: `add` is its multiplication, `mul` its power.
  pub gt : Group Scalar field Gt
  pub pairing : G1 → G2 → Gt
  -- `Bls12::multi_miller_loop(refs).final_exponentiation()`.
  pub multi_miller : List (G1 × G2) → Gt
  pub pairing-add :
      (p p' : G1) (q : G2) → pairing (g1.add p p') q ≡ gt.add (pairing p q) (pairing p' q)
  pub pairing-mul_left :
      (p : G1) (q : G2) (s : Scalar) → pairing (g1.mul p s) q ≡ gt.mul (pairing p q) s
  pub pairing-mul_right :
      (p : G1) (q : G2) (s : Scalar) → pairing p (g2.mul q s) ≡ gt.mul (pairing p q) s
  pub nondegenerate : (p : G1) → pairing p g2.generator ≡ gt.identity → p ≡ g1.identity
  pub multi_miller_eq :
      (ps : List (G1 × G2)) → multi_miller ps ≡ sum gt (map (λ pq. pairing pq.0 pq.1) ps)
  pub hash_to_g1 : Bytes → Bytes → G1
  pub sha256 : Bytes → Bytes
  pub sha3_256 : Bytes → Bytes
  pub hkdf : Bytes → Bytes → Bytes
  pub g1_code : Encoding G1 48
  pub g2_code : Encoding G2 96
  pub scalar_code : Encoding Scalar 32
  -- `cipher.encrypt(nonce, plaintext)` and `cipher.decrypt(nonce, ciphertext)` under a key.
  pub encrypt : Bytes → Bytes → Bytes → Bytes
  pub decrypt : Bytes → Bytes → Bytes → Option Bytes
  pub decrypt-encrypt : (key nonce m : Bytes) → decrypt key nonce (encrypt key nonce m) ≡ some m
  -- AES-GCM appends a tag of 16 bytes.
  pub length-encrypt : (key nonce m : Bytes) → length (encrypt key nonce m) ≡ length m + 16
