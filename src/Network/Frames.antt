-- ===== src/Network/Frames.antt =====
-- How the frames of sigimora-mcp/src/network.rs are read back.
use sigimora_api_backend.Base.{
  ℕ, zero, suc, ◌%◌, ◌≤◌, ◌<◌, ◌≡◌, refl, sym, ap, ◌∙◌, ◌⊎◌, inl, inr, true, Bool-cases, some, List,
  [], ◌∷◌, ◌++◌, append_assoc, append-nil, length, take, drop, All, leb, guard, ok_or, Outcome, ok,
  err, ◌>>=◌, bind_eq, be_bytes, from_be_bytes, length-be_bytes, from_be_bytes-be_bytes, arith,
}
use sigimora_api_backend.Network.{
  Connection, NetworkError, message_too_large, u32, max_msg_size, write_framed, read_framed,
  write_length, write_data, flush_failed, read_length, read_data,
}

-- The bytes of a frame.
abbrev frame : List ℕ → List ℕ
frame bytes = be_bytes 4 (u32 (length bytes)) ++ bytes

abbrev frames : List (List ℕ) → List ℕ
frames [] = []
frames (m ∷ ms) = frame m ++ frames ms

take-drop : {A : Type 0} (n : ℕ) (xs : List A) → take n xs ++ drop n xs ≡ xs
take-drop zero xs = refl
take-drop (suc n) [] = refl
take-drop (suc n) (x ∷ xs) = ap (◌∷◌ x) (take-drop n xs)

length_prefix : {A : Type 0} (n : ℕ) (xs : List A) → n ≤ length xs → length (take n xs) ≡ n
length_prefix zero xs h = refl
length_prefix (suc n) [] h = absurd (omega (arith, h))
length_prefix (suc n) (x ∷ xs) h = ap suc (length_prefix n xs (omega (arith, h)))

module _ {W : Type 0} (k : Connection W) where
  -- A message that is short enough is written on a connection that takes what is written.
  write_framed_ok :
      (bytes : List ℕ) (w : W)
      → ((bs : List ℕ) (w : W) → (w' : W) × (k.write_all bs w ≡ some w'))
      → ((w : W) → (w' : W) × (k.flush w ≡ some w'))
      → leb (u32 (length bytes)) max_msg_size ≡ true
      → (w' : W) × (write_framed k bytes w ≡ ok w') × (k.carried w' ≡ k.carried w ++ frame bytes)
  unfolding write_framed
  write_framed_ok bytes w writes flushes h =
      let (w₁, q₁) = writes (be_bytes 4 (u32 (length bytes))) w in
      let (w₂, q₂) = writes bytes w₁ in
      let (w₃, q₃) = flushes w₂ in
      (
        w₃,
        bind_eq _ (ap (λ b. guard b message_too_large) h)
            ∙ bind_eq _ (ap (λ o. ok_or o write_length) q₁)
            ∙ bind_eq _ (ap (λ o. ok_or o write_data) q₂)
            ∙ ap (λ o. ok_or o flush_failed) q₃,
        k.carried-flush w₂ w₃ q₃
            ∙ k.carried-write_all bytes w₁ w₂ q₂
            ∙ ap (λ l. l ++ bytes) (k.carried-write_all (be_bytes 4 (u32 (length bytes))) w w₁ q₁)
            ∙ append_assoc (k.carried w) (be_bytes 4 (u32 (length bytes))) bytes,
      )

  -- A number of bytes and at least so many behind it are read as a message.
  read_framed_carried :
      (n : ℕ) (w : W) (xs ys : List ℕ)
      → leb n max_msg_size ≡ true
      → length xs ≡ n
      → k.carried w ≡ be_bytes 4 n ++ (xs ++ ys)
      → (w' : W) × (read_framed k w ≡ ok (xs, w')) × (k.carried w' ≡ ys)
  unfolding read_framed
  read_framed_carried n w xs ys h g e =
      let (w₁, q₁, e₁) =
        k.read_exact_carried 4 w (be_bytes 4 n) (xs ++ ys) e (length-be_bytes 4 n) in
      let (w₂, q₂, e₂) = k.read_exact_carried n w₁ xs ys e₁ g in
      let number : from_be_bytes (be_bytes 4 n) ≡ n = from_be_bytes-be_bytes 4 n (ground arith) in
      (
        w₂,
        bind_eq _ (ap (λ o. ok_or o read_length) q₁)
            ∙ bind_eq _
                (ap (λ b. guard b message_too_large) (ap (λ i. leb i max_msg_size) number ∙ h))
            ∙ ap (λ i. ok_or (k.read_exact i w₁) read_data) number
            ∙ ap (λ o. ok_or o read_data) q₂,
        e₂,
      )

  -- The handlers' loops: messages written one after the other, and as many read.
  unfoldable write_each : List (List ℕ) → W → Outcome NetworkError W
  write_each [] w = ok w
  write_each (m ∷ ms) w = do w' ← write_framed k m w; write_each ms w'

  unfoldable read_each : ℕ → W → Outcome NetworkError (List (List ℕ) × W)
  read_each zero w = ok ([], w)
  read_each (suc n) w = do m ← read_framed k w; rest ← read_each n m.1; ok (m.0 ∷ rest.0, rest.1)

  write_each_ok :
      (ms : List (List ℕ)) (w : W)
      → ((bs : List ℕ) (w : W) → (w' : W) × (k.write_all bs w ≡ some w'))
      → ((w : W) → (w' : W) × (k.flush w ≡ some w'))
      → All (λ m. length m ≤ 1048576) ms
      → (w' : W) × (write_each ms w ≡ ok w') × (k.carried w' ≡ k.carried w ++ frames ms)
  unfolding write_each
  write_each_ok [] w writes flushes h = (w, refl, sym (append-nil (k.carried w)))
  write_each_ok (m ∷ ms) w writes flushes (short, h) =
      let (w₁, q₁, e₁) = write_framed_ok m w writes flushes (ground arith) in
      let (w₂, q₂, e₂) = write_each_ok ms w₁ writes flushes h in
      (
        w₂,
        bind_eq (write_each ms) q₁ ∙ q₂,
        e₂ ∙ ap (λ l. l ++ frames ms) e₁ ∙ append_assoc (k.carried w) (frame m) (frames ms),
      )

  read_each_ok :
      (ms : List (List ℕ)) (w : W)
      → All (λ m. length m ≤ 1048576) ms
      → k.carried w ≡ frames ms
      → (w' : W) × (read_each (length ms) w ≡ ok (ms, w')) × (k.carried w' ≡ [])
  unfolding read_each
  read_each_ok [] w h e = (w, refl, e)
  read_each_ok (m ∷ ms) w (short, h) e =
      let (w₁, q₁, e₁) =
        read_framed_carried (u32 (length m)) w m (frames ms) (ground arith) (ground arith)
          (e ∙ append_assoc (be_bytes 4 (u32 (length m))) m (frames ms)) in
      let (w₂, q₂, e₂) = read_each_ok ms w₁ h e₁ in (w₂, bind_eq _ q₁ ∙ bind_eq _ q₂, e₂)

  -- On a connection that takes what is written, messages of at most 1048576 bytes are all written, and
  -- the other end reads the same messages in their order and leaves nothing.
  read_each-write_each :
      (ms : List (List ℕ)) (w : W)
      → ((bs : List ℕ) (w : W) → (w' : W) × (k.write_all bs w ≡ some w'))
      → ((w : W) → (w' : W) × (k.flush w ≡ some w'))
      → All (λ m. length m ≤ 1048576) ms
      → k.carried w ≡ []
      → (w' : W) × (write_each ms w ≡ ok w')
        × ((w'' : W) × (read_each (length ms) w' ≡ ok (ms, w'')) × (k.carried w'' ≡ []))
  read_each-write_each ms w writes flushes h e =
      let (w₁, q₁, e₁) = write_each_ok ms w writes flushes h in
      (w₁, q₁, read_each_ok ms w₁ h (e₁ ∙ ap (λ l. l ++ frames ms) e))

  -- On an empty connection that takes what is written, a message is refused where its length modulo
  -- 2 ^ 32 is above 1048576. Else it is written, and the other end reads as many of its first bytes as
  -- its length modulo 2 ^ 32 says; the other bytes stay on the connection.
  pub read_framed-write_framed :
      (bytes : List ℕ) (w : W)
      → ((bs : List ℕ) (w : W) → (w' : W) × (k.write_all bs w ≡ some w'))
      → ((w : W) → (w' : W) × (k.flush w ≡ some w'))
      → k.carried w ≡ []
      → ((1048576 < length bytes % 4294967296) × (write_framed k bytes w ≡ err message_too_large))
        ⊎ ((w' : W) × (write_framed k bytes w ≡ ok w')
            × ((w'' : W) × (read_framed k w' ≡ ok (take (length bytes % 4294967296) bytes, w''))
                × (k.carried w'' ≡ drop (length bytes % 4294967296) bytes)))
  unfolding write_framed
  read_framed-write_framed bytes w writes flushes e =
      elim (Bool-cases (leb (u32 (length bytes)) max_msg_size)) [
        | inl h ↦
            let (w₁, q₁, e₁) = write_framed_ok bytes w writes flushes h in
            let (w₂, q₂, e₂) =
              read_framed_carried (u32 (length bytes)) w₁ (take (u32 (length bytes)) bytes)
                (drop (u32 (length bytes)) bytes) h
                (length_prefix (u32 (length bytes)) bytes (omega arith))
                (e₁
                  ∙ ap (λ l. l ++ frame bytes) e
                  ∙ ap (λ l. be_bytes 4 (u32 (length bytes)) ++ l)
                      (sym (take-drop (u32 (length bytes)) bytes))) in
            inr (w₁, q₁, (w₂, q₂, e₂))
        | inr h ↦ inl (ground arith, rw (h) refl)
      ]
