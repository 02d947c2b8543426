-- ===== src/Dkg/Message/RoundTrip.antt =====
-- Which messages of sigimora-crypto/src/dkg.rs are read back, and as what.
use sigimora_api_backend.Base.{
  ℕ, ◌+◌, ◌%◌, ◌<◌, ◌≡◌, refl, sym, ap, ◌∙◌, false, List, [], ◌∷◌, ◌++◌, append_assoc, append-nil,
  length, length-append, ok, err, ltb, le_bytes, slice, slice_from, le_at, slice-append,
  slice_from-append, le_at-append, arith, ◌^◌, bind_eq, unwrap, ok_or,
}
use sigimora_api_backend.Math.Suite.{Suite, Bytes}
use sigimora_api_backend.Shamir.{CryptoError, invalid_parameter}
use sigimora_api_backend.Pedersen.{VssPublic}
use sigimora_api_backend.Dkg.Message.{
  DkgMessage, serialize, deserialize, read_body, read_commit, read_ack, read_disqualify,
  read_qual_reveal, serialize_vss_public, deserialize_vss_public, point_bytes, read_points,
}

module _ (c : Suite) where
  open c use {G1, G2, g1_code, g2_code}

  -- Points written one after the other are read back, behind any bytes.
  read_points-point_bytes :
      {E : Type 0} (ps : List G1) (off : ℕ) (pre : Bytes)
      → length pre ≡ off
      → read_points c {E = E} (length ps) off (pre ++ point_bytes c ps) ≡ ok ps
  unfolding read_points point_bytes
  read_points-point_bytes [] off pre h = refl
  read_points-point_bytes {E} (p ∷ ps) off pre h =
      bind_eq _ (
        slice-append off 48 pre (g1_code.to_bytes p) (point_bytes c ps) h
          (g1_code.length-to_bytes p))
      ∙ bind_eq _ (ap unwrap (g1_code.from_bytes-to_bytes p))
      ∙ bind_eq _ (
          ap (read_points c {E = E} (length ps) (off + 48))
            (sym (append_assoc pre (g1_code.to_bytes p) (point_bytes c ps)))
          ∙ read_points-point_bytes ps (off + 48) (pre ++ g1_code.to_bytes p)
              (omega (arith, h, length-append pre (g1_code.to_bytes p), g1_code.length-to_bytes p)))

  deserialize_vss_public-serialize_vss_public :
      {E : Type 0} (vss : VssPublic c)
      → length vss.commitments < 256 ^ 4
      → deserialize_vss_public c {E = E} (serialize_vss_public c vss) ≡ ok vss
  unfolding deserialize_vss_public serialize_vss_public
  deserialize_vss_public-serialize_vss_public vss h =
      bind_eq _
        (le_at-append 0 4 (length vss.commitments) [] (point_bytes c vss.commitments) refl h)
      ∙ bind_eq _
          (read_points-point_bytes vss.commitments 4 (le_bytes 4 (length vss.commitments)) refl)

  deserialize_typed :
      (a b k : ℕ) (rest : Bytes)
      → deserialize c (a ∷ b ∷ k ∷ rest) ≡ read_body c k (a ∷ b ∷ k ∷ rest)
  unfolding deserialize
  deserialize_typed a b k rest =
      let long : ltb (length (a ∷ b ∷ k ∷ rest)) 3 ≡ false = ground arith in rw (long) refl

  -- The sender stands in the first two bytes.
  sender :
      (from : ℕ) (rest : Bytes)
      → from < 65536
      → le_at {E = CryptoError} 0 2 (le_bytes 2 from ++ rest) ≡ ok from
  sender from rest h = le_at-append 0 2 from [] rest refl h

  read_commit-serialize :
      (from : ℕ) (pk : G2) (pop : G1) (vss : VssPublic c)
      → from < 65536
      → length vss.commitments < 256 ^ 4
      → read_commit c (serialize c (DkgMessage.commit from pk pop vss))
        ≡ ok (DkgMessage.commit from pk pop vss)
  unfolding read_commit serialize
  read_commit-serialize from pk pop vss h n =
      bind_eq _ (sender from (1 ∷ (xs ++ (ys ++ zs))) h)
      ∙ bind_eq _ (
          slice-append 3 96 (le_bytes 2 from ++ 1 ∷ []) xs (ys ++ zs) refl
            (g2_code.length-to_bytes pk))
      ∙ bind_eq _ (ap (λ o. ok_or o invalid_parameter) (g2_code.from_bytes-to_bytes pk))
      ∙ bind_eq _ (
          slice-append 99 48 (le_bytes 2 from ++ (1 ∷ xs)) ys zs
            (omega (arith, g2_code.length-to_bytes pk)) (g1_code.length-to_bytes pop))
      ∙ bind_eq _ (ap (λ o. ok_or o invalid_parameter) (g1_code.from_bytes-to_bytes pop))
      ∙ bind_eq _ (
          ap (slice_from 147) (sym (append_assoc (le_bytes 2 from ++ (1 ∷ xs)) ys zs))
          ∙ slice_from-append 147 ((le_bytes 2 from ++ (1 ∷ xs)) ++ ys) zs (
              omega (
                arith,
                g2_code.length-to_bytes pk,
                g1_code.length-to_bytes pop,
                length-append (le_bytes 2 from ++ (1 ∷ xs)) ys,
              )))
      ∙ bind_eq _ (deserialize_vss_public-serialize_vss_public vss n)
    where
      xs : Bytes
      xs = g2_code.to_bytes pk

      ys : Bytes
      ys = g1_code.to_bytes pop

      zs : Bytes
      zs = serialize_vss_public c vss

  -- The messages whose third byte is their type, with a sender and a count that fit their bytes.
  abbrev IsTyped : DkgMessage c → Type 0
  IsTyped (DkgMessage.commit from pk pop vss) = (from < 65536) × (length vss.commitments < 256 ^ 4)
  IsTyped (DkgMessage.share from to encrypted) = ⊥
  IsTyped (DkgMessage.complaint from against) = ⊥
  IsTyped (DkgMessage.ack from) = from < 65536
  IsTyped (DkgMessage.disqualify from disqualified) = ⊥
  IsTyped (DkgMessage.qual_reveal from pk) = from < 65536

  -- `deserialize` reads every commit, acknowledgement and reveal back that `serialize` writes, with a
  -- sender below 2 ^ 16 and fewer than 2 ^ 32 commitments.
  pub deserialize-serialize : (m : DkgMessage c) → IsTyped m → deserialize c (serialize c m) ≡ ok m
  unfolding serialize
  deserialize-serialize (DkgMessage.commit from pk pop vss) (h, n) =
      deserialize_typed _ _ 1 _
      ∙ (unfold read_body serialize in read_commit-serialize from pk pop vss h n)
  deserialize-serialize (DkgMessage.share from to encrypted) h = absurd h
  deserialize-serialize (DkgMessage.complaint from against) h = absurd h
  deserialize-serialize (DkgMessage.ack from) h =
      deserialize_typed _ _ 4 [] ∙ (unfold read_body read_ack in bind_eq _ (sender from (4 ∷ []) h))
  deserialize-serialize (DkgMessage.disqualify from disqualified) h = absurd h
  deserialize-serialize (DkgMessage.qual_reveal from pk) h =
      deserialize_typed _ _ 6 _
      ∙ (unfold read_body read_qual_reveal in
          bind_eq _ (sender from (6 ∷ g2_code.to_bytes pk) h)
          ∙ bind_eq _ (
              ap (slice 3 96) (ap (λ l. le_bytes 2 from ++ (6 ∷ l)) (sym (append-nil _)))
              ∙ slice-append 3 96 (le_bytes 2 from ++ 6 ∷ []) (g2_code.to_bytes pk) [] refl
                  (g2_code.length-to_bytes pk))
          ∙ bind_eq _ (ap (λ o. ok_or o invalid_parameter) (g2_code.from_bytes-to_bytes pk)))

  unknown_type : (k : ℕ) (bytes : Bytes) → 6 < k → read_body c k bytes ≡ err invalid_parameter
  unfolding read_body
  unknown_type k bytes h = ground arith

  -- The type of a complaint is read from the accused: a complaint against 4 is read as an
  -- acknowledgement, one against 5 as the disqualification of 5, and one against an id whose low byte
  -- is above 6 as no message.
  pub deserialize-serialize_complaint :
      (from against : ℕ)
      → from < 65536
      → 6 < against % 256
      → (deserialize c (serialize c (DkgMessage.complaint from 4)) ≡ ok (DkgMessage.ack from))
        × (deserialize c (serialize c (DkgMessage.complaint from 5))
            ≡ ok (DkgMessage.disqualify from 5))
        × (deserialize c (serialize c (DkgMessage.complaint from against)) ≡ err invalid_parameter)
  unfolding serialize
  deserialize-serialize_complaint from against h big = (
    deserialize_typed _ _ 4 _
        ∙ (unfold read_body read_ack in bind_eq _ (sender from (4 ∷ 0 ∷ 3 ∷ []) h)),
    deserialize_typed _ _ 5 _
        ∙ (unfold read_body read_disqualify in
            bind_eq _ (sender from (5 ∷ 0 ∷ 3 ∷ []) h)
            ∙ bind_eq _ (le_at-append 2 2 5 (le_bytes 2 from) (3 ∷ []) refl (omega arith))),
    deserialize_typed _ _ (against % 256) _ ∙ unknown_type (against % 256) _ big,
  )
