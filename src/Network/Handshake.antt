-- ===== src/Network/Handshake.antt =====
-- sigimora-mcp/src/network.rs: the proof of identity that opens a connection, as both ends check it.
use sigimora_api_backend.Base.{
  ℕ, ◌≡◌, refl, ap, ◌∙◌, ◌↔◌, ◌≢◌, ◌⊎◌, inl, inr, true, false, Bool-cases, Option, none, some,
  Option-cases, [], ◌∷◌, ◌++◌, length, ◌==◌, ==_iff, if◌then◌else◌, Outcome, ok, err, ◌>>=◌, ◌>>◌,
  guard, ok_or,
}
use sigimora_api_backend.Math.Suite.{Suite, Bytes}
use sigimora_api_backend.Math.Pairing.{ct_verify_bls_signature, ct_verify_bls_signature_iff}

-- `b"SIGIMORA-ID"` and the text `SIGIMORA-HANDSHAKE:`.
abbrev id_tag : Bytes
id_tag = 83 ∷ 73 ∷ 71 ∷ 73 ∷ 77 ∷ 79 ∷ 82 ∷ 65 ∷ 45 ∷ 73 ∷ 68 ∷ []

abbrev handshake_text : Bytes
handshake_text =
    83 ∷ 73 ∷ 71 ∷ 73 ∷ 77 ∷ 79 ∷ 82 ∷ 65 ∷ 45 ∷ 72 ∷ 65 ∷ 78 ∷ 68 ∷ 83 ∷ 72 ∷ 65 ∷ 75 ∷ 69 ∷ 58
    ∷ []

-- What `connect_to_peer` returns for a wrong proof.
pub data HandshakeError : Type 0 where
  invalid_proof_length : HandshakeError
  invalid_proof_point : HandshakeError
  proof_invalid : HandshakeError

-- `digits` is how std's `format!` writes a number.
module _ (c : Suite) (digits : ℕ → Bytes) where
  open c use {Scalar, G1, G2, g1, g2, g1_code, hash_to_g1}

  -- `McpMessage::Handshake`.
  pub record Handshake : Type 0 where
    pub from : ℕ
    pub public_key : G2
    pub identity_proof : Bytes
    pub timestamp : ℕ

  -- What is signed.
  unfoldable pub proof_hash : ℕ → ℕ → G1
  proof_hash id timestamp =
      hash_to_g1 (handshake_text ++ (digits id ++ (58 ∷ digits timestamp))) id_tag

  -- The handshake that a node with the identity key `sk` sends.
  unfoldable pub handshake_of : Scalar → ℕ → ℕ → Handshake
  unfolding proof_hash
  handshake_of sk id timestamp = record {
    from = id;
    public_key = g2.mul g2.generator sk;
    identity_proof = g1_code.to_bytes (g1.mul (proof_hash id timestamp) sk);
    timestamp = timestamp;
  }

  -- `connect_to_peer` on the response.
  unfoldable pub check_response : Handshake → Outcome HandshakeError ℕ
  unfolding proof_hash
  check_response h = do
    guard (length h.identity_proof == 48) invalid_proof_length
    proof_sig ← ok_or (g1_code.from_bytes h.identity_proof) invalid_proof_point
    guard (ct_verify_bls_signature c proof_sig (proof_hash h.from h.timestamp) h.public_key)
        proof_invalid
    ok h.from

  -- `handle_incoming`: `none` where it returns.
  unfoldable check_decoded : Handshake → Option G1 → Option ℕ
  unfolding proof_hash
  check_decoded h none = some h.from
  check_decoded h (some proof_sig) =
      if ct_verify_bls_signature c proof_sig (proof_hash h.from h.timestamp) h.public_key
      then some h.from
      else none

  unfoldable pub check_incoming : Handshake → Option ℕ
  unfolding check_decoded
  check_incoming h =
      if length h.identity_proof == 48
      then check_decoded h (g1_code.from_bytes h.identity_proof)
      else some h.from

  response_accepted :
      (h : Handshake) (sig : G1)
      → (length h.identity_proof == 48) ≡ true
      → g1_code.from_bytes h.identity_proof ≡ some sig
      → ct_verify_bls_signature c sig (proof_hash h.from h.timestamp) h.public_key ≡ true
      → (check_response h ≡ ok h.from) × (check_incoming h ≡ some h.from)
  unfolding check_response check_incoming check_decoded proof_hash
  response_accepted h sig l d v = (rw (l, d, v) refl, rw (l, d, v) refl)

  refused : {r : Outcome HandshakeError ℕ} {e : HandshakeError} {id : ℕ} → r ≡ err e → r ≡ ok id → ⊥
  refused p q = cc

  turned_away : {r : Option ℕ} {id : ℕ} → r ≡ none → r ≡ some id → ⊥
  turned_away p q = cc

  response_inv :
      (h : Handshake)
      → check_response h ≡ ok h.from
      → (sig : G1) × ((length h.identity_proof == 48) ≡ true)
        × (g1_code.from_bytes h.identity_proof ≡ some sig)
        × (ct_verify_bls_signature c sig (proof_hash h.from h.timestamp) h.public_key ≡ true)
  unfolding check_response proof_hash
  response_inv h e = elim (Bool-cases (length h.identity_proof == 48)) [
    | inr l ↦ absurd (refused {e = invalid_proof_length} (rw (l) refl) e)
    | inl l ↦ elim (Option-cases (g1_code.from_bytes h.identity_proof)) [
      | inl d ↦ absurd (refused {e = invalid_proof_point} (rw (l, d) refl) e)
      | inr (sig, d) ↦
          elim (Bool-cases
            (ct_verify_bls_signature c sig (proof_hash h.from h.timestamp) h.public_key)) [
              | inr v ↦ absurd (refused {e = proof_invalid} (rw (l, d, v) refl) e)
              | inl v ↦ (sig, l, d, v)
            ]
    ]
  ]

  incoming_inv :
      (h : Handshake)
      → check_incoming h ≡ some h.from
      → (length h.identity_proof ≢ 48)
        ⊎ ((g1_code.from_bytes h.identity_proof ≡ none) ⊎ (check_response h ≡ ok h.from))
  unfolding check_incoming check_decoded proof_hash
  incoming_inv h e = elim (Bool-cases (length h.identity_proof == 48)) [
    | inr l ↦ inl (λ q. other_length (length h.identity_proof) l q)
    | inl l ↦ elim (Option-cases (g1_code.from_bytes h.identity_proof)) [
      | inl d ↦ inr (inl d)
      | inr (sig, d) ↦
          elim (Bool-cases
            (ct_verify_bls_signature c sig (proof_hash h.from h.timestamp) h.public_key)) [
              | inr v ↦ absurd (turned_away (rw (l, d, v) refl) e)
              | inl v ↦ inr (inr (response_accepted h sig l d v).0)
            ]
    ]
  ]
    where
      other_length : (n : ℕ) → (n == 48) ≡ false → n ≡ 48 → ⊥
      other_length n l q = let yes = (==_iff n 48).1 q in cc

  unchecked :
      (h : Handshake)
      → (length h.identity_proof ≢ 48) ⊎ (g1_code.from_bytes h.identity_proof ≡ none)
      → check_incoming h ≡ some h.from
  unfolding check_incoming check_decoded
  unchecked h (inl n) = elim (Bool-cases (length h.identity_proof == 48)) [
    | inl l ↦ absurd (n ((==_iff (length h.identity_proof) 48).0 l))
    | inr l ↦ rw (l) refl
  ]
  unchecked h (inr d) = elim (Bool-cases (length h.identity_proof == 48)) [
    | inl l ↦ rw (l, d) refl
    | inr l ↦ rw (l) refl
  ]

  -- The node that is connected to goes on with a handshake exactly when its proof has not 48 bytes,
  -- cannot be decoded, or is one that the connecting node accepts in a response.
  pub check_incoming_iff :
      (h : Handshake)
      → (check_incoming h ≡ some h.from) ↔ (
          (length h.identity_proof ≢ 48)
          ⊎ ((g1_code.from_bytes h.identity_proof ≡ none) ⊎ (check_response h ≡ ok h.from)))
  check_incoming_iff h = (incoming_inv h, back h)
    where
      back :
          (h : Handshake)
          → (length h.identity_proof ≢ 48)
            ⊎ ((g1_code.from_bytes h.identity_proof ≡ none) ⊎ (check_response h ≡ ok h.from))
          → check_incoming h ≡ some h.from
      back h (inl n) = unchecked h (inl n)
      back h (inr (inl d)) = unchecked h (inr d)
      back h (inr (inr e)) =
          let (sig, l, d, v) = response_inv h e in (response_accepted h sig l d v).1

  -- A handshake that names the public key of `sk` is accepted in a response exactly when its proof is
  -- 48 bytes that decode to the point which `sk` makes for the id and the time; what the holder of
  -- `sk` sends is accepted at both ends.
  pub check_response-handshake_of :
      (sk : Scalar) (id timestamp : ℕ) (proof : Bytes)
      → ((check_response (record (handshake_of sk id timestamp) { identity_proof = proof }) ≡ ok id)
          ↔ ((length proof ≡ 48)
              × (g1_code.from_bytes proof ≡ some (g1.mul (proof_hash id timestamp) sk))))
        × ((check_response (handshake_of sk id timestamp) ≡ ok id)
            × (check_incoming (handshake_of sk id timestamp) ≡ some id))
  unfolding handshake_of
  check_response-handshake_of sk id timestamp proof =
      let same = ct_verify_bls_signature_iff c in
      (
        (
          λ e.
              let (sig, l, d, v) =
                response_inv (record (handshake_of sk id timestamp) { identity_proof = proof }) e in
              (
                (==_iff (length proof) 48).0 l,
                d ∙ ap some ((same sig (proof_hash id timestamp) sk).0 v),
              ),
          λ p.
              (response_accepted (record (handshake_of sk id timestamp) { identity_proof = proof })
                (g1.mul (proof_hash id timestamp) sk) ((==_iff (length proof) 48).1 p.0) p.1
                ((same (g1.mul (proof_hash id timestamp) sk) (proof_hash id timestamp) sk).1
                  refl)).0,
        ),
        response_accepted (handshake_of sk id timestamp) (g1.mul (proof_hash id timestamp) sk)
            ((==_iff _ 48).1 (g1_code.length-to_bytes _)) (g1_code.from_bytes-to_bytes _)
            ((same (g1.mul (proof_hash id timestamp) sk) (proof_hash id timestamp) sk).1 refl),
      )
