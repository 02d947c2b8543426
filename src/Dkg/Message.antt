-- ===== src/Dkg/Message.antt =====
-- The messages of sigimora-crypto/src/dkg.rs, as bytes.
pub mod RoundTrip
use sigimora_api_backend.Base.{
  ℕ, zero, suc, ◌+◌, ◌%◌, Option, some, none, List, [], ◌∷◌, ◌++◌, length, Outcome, ok, err, panic,
  ◌>>=◌, ◌>>◌, guard, unwrap, ok_or, not, ltb, get_elem?, le_bytes, slice, slice_from, le_at, ◌==◌,
  if◌then◌else◌,
}
use sigimora_api_backend.Math.Suite.{Suite, Bytes}
use sigimora_api_backend.Shamir.{CryptoError, invalid_parameter}
use sigimora_api_backend.Pedersen.{VssPublic}

module _ (c : Suite) where
  open c use {G1, G2, g1_code, g2_code}

  pub data DkgMessage : Type 0 where
    commit : (from : ℕ) (public_key : G2) (pop : G1) (vss_public : VssPublic c) → DkgMessage
    share : (from to : ℕ) (encrypted_share : Bytes) → DkgMessage
    complaint : (from against : ℕ) → DkgMessage
    ack : (from : ℕ) → DkgMessage
    disqualify : (from disqualified : ℕ) → DkgMessage
    qual_reveal : (from : ℕ) (public_key : G2) → DkgMessage

  -- `for c in &vss.commitments { bytes.extend_from_slice(&c.to_bytes()) }`.
  unfoldable pub point_bytes : List G1 → Bytes
  point_bytes [] = []
  point_bytes (p ∷ ps) = g1_code.to_bytes p ++ point_bytes ps

  unfoldable pub serialize_vss_public : VssPublic c → Bytes
  unfolding point_bytes
  serialize_vss_public vss = le_bytes 4 (length vss.commitments) ++ point_bytes vss.commitments

  -- `for i in 0..n`, where `off` is `4 + i * 48`.
  unfoldable pub read_points : {E : Type 0} → ℕ → ℕ → Bytes → Outcome E (List G1)
  read_points zero off bytes = ok []
  read_points (suc n) off bytes = do
    c_bytes ← slice off 48 bytes
    point ← unwrap (g1_code.from_bytes c_bytes)
    points ← read_points n (off + 48) bytes
    ok (point ∷ points)

  unfoldable pub deserialize_vss_public : {E : Type 0} → Bytes → Outcome E (VssPublic c)
  unfolding read_points
  deserialize_vss_public bytes = do
    n ← le_at 0 4 bytes
    commitments ← read_points n 4 bytes
    ok (record { commitments = commitments })

  -- `DkgMessage::serialize`, which returns no error.
  unfoldable pub serialize : DkgMessage → Bytes
  serialize (commit from public_key pop vss_public) =
      le_bytes 2 from
      ++ (1
          ∷ (g2_code.to_bytes public_key
              ++ (g1_code.to_bytes pop ++ serialize_vss_public vss_public)))
  serialize (share from to encrypted_share) =
      le_bytes 2 from
      ++ (le_bytes 2 to ++ (2 ∷ (le_bytes 4 (length encrypted_share) ++ encrypted_share)))
  serialize (complaint from against) = le_bytes 2 from ++ (le_bytes 2 against ++ 3 ∷ [])
  serialize (ack from) = le_bytes 2 from ++ 4 ∷ []
  serialize (disqualify from disqualified) = le_bytes 2 from ++ (le_bytes 2 disqualified ++ 5 ∷ [])
  serialize (qual_reveal from public_key) = le_bytes 2 from ++ (6 ∷ g2_code.to_bytes public_key)

  -- The arms of `match msg_type`.
  unfoldable pub read_commit : Bytes → Outcome CryptoError DkgMessage
  read_commit bytes = do
    from ← le_at 0 2 bytes
    pk_bytes ← slice 3 96 bytes
    public_key ← ok_or (g2_code.from_bytes pk_bytes) invalid_parameter
    pop_bytes ← slice 99 48 bytes
    pop ← ok_or (g1_code.from_bytes pop_bytes) invalid_parameter
    vss_bytes ← slice_from 147 bytes
    vss_public ← deserialize_vss_public vss_bytes
    ok (commit from public_key pop vss_public)

  unfoldable pub read_share : Bytes → Outcome CryptoError DkgMessage
  read_share bytes = do
    from ← le_at 0 2 bytes
    to ← le_at 2 2 bytes
    len ← le_at 4 4 bytes
    encrypted ← slice 8 len bytes
    ok (share from to encrypted)

  unfoldable pub read_complaint : Bytes → Outcome CryptoError DkgMessage
  read_complaint bytes = do
    from ← le_at 0 2 bytes
    against ← le_at 2 2 bytes
    ok (complaint from against)

  unfoldable pub read_ack : Bytes → Outcome CryptoError DkgMessage
  read_ack bytes = do from ← le_at 0 2 bytes; ok (ack from)

  unfoldable pub read_disqualify : Bytes → Outcome CryptoError DkgMessage
  read_disqualify bytes = do
    from ← le_at 0 2 bytes
    disqualified ← le_at 2 2 bytes
    ok (disqualify from disqualified)

  unfoldable pub read_qual_reveal : Bytes → Outcome CryptoError DkgMessage
  read_qual_reveal bytes = do
    from ← le_at 0 2 bytes
    pk_bytes ← slice 3 96 bytes
    public_key ← ok_or (g2_code.from_bytes pk_bytes) invalid_parameter
    ok (qual_reveal from public_key)

  unfoldable pub read_body : ℕ → Bytes → Outcome CryptoError DkgMessage
  read_body msg_type bytes =
      if msg_type == 1
      then read_commit bytes
      else if msg_type == 2
      then read_share bytes
      else if msg_type == 3
      then read_complaint bytes
      else if msg_type == 4
      then read_ack bytes
      else if msg_type == 5
      then read_disqualify bytes
      else if msg_type == 6
      then read_qual_reveal bytes
      else err invalid_parameter

  -- `DkgMessage::deserialize`.
  unfoldable pub deserialize : Bytes → Outcome CryptoError DkgMessage
  unfolding read_body
  deserialize bytes = do
    guard (not (ltb (length bytes) 3)) invalid_parameter
    msg_type ← unwrap (get_elem? bytes 2)
    read_body msg_type bytes
