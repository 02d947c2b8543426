-- ===== src/Tests/Network.antt =====
-- Runs of the theorems on the frames, over a connection that is the list of the bytes it carries.
use sigimora_api_backend.Base.{
  ℕ, ◌<◌, ◌%◌, ◌≡◌, ◌⊎◌, ◌↔◌, ◌≢◌, ◌+◌, refl, ap, ◌∙◌, some, List, [], ◌∷◌, ◌++◌, length, take,
  drop, leb, if◌then◌else◌, Option, none, ok, err, take-append, drop-append, length-append, true,
  arith,
}
use sigimora_api_backend.Samples.{sample, first}
use sigimora_api_backend.Samples.FiveField.{five, z1, z3}
use sigimora_api_backend.Network.Handshake.{
  Handshake, proof_hash, handshake_of, check_response, check_incoming, check_incoming_iff,
  check_response-handshake_of,
}
use sigimora_api_backend.Network.{Connection, message_too_large, write_framed, read_framed}
use sigimora_api_backend.Network.Frames.{read_framed-write_framed}

abbrev read_bytes : ℕ → List ℕ → Option (List ℕ × List ℕ)
read_bytes n w = if leb n (length w) then some (take n w, drop n w) else none

read_bytes-append :
    (n : ℕ) (xs ys : List ℕ) → length xs ≡ n → read_bytes n (xs ++ ys) ≡ some (xs, ys)
read_bytes-append n xs ys h =
    let enough : leb n (length (xs ++ ys)) ≡ true = ground (arith, length-append xs ys) in
    rw (enough, take-append n xs ys h, drop-append n xs ys h) refl

same : {a b : List ℕ} → some a ≡ some b → b ≡ a
same h = cc

abbrev pipe : Connection (List ℕ)
pipe = record {
  write_all = λ bs w. some (w ++ bs);
  flush = λ w. some w;
  read_exact = read_bytes;
  carried = λ w. w;
  carried-write_all = λ bs w w' h. same h;
  carried-flush = λ w w' h. same h;
  read_exact_carried =
      λ n w xs ys e h. (ys, ap (read_bytes n) e ∙ read_bytes-append n xs ys h, refl);
}

read_framed-write_framed_example :
    ((1048576 < 2) × (write_framed pipe (1 ∷ 2 ∷ []) [] ≡ err message_too_large))
    ⊎ ((w' : List ℕ) × (write_framed pipe (1 ∷ 2 ∷ []) [] ≡ ok w')
        × ((w'' : List ℕ) × (read_framed pipe w' ≡ ok (1 ∷ 2 ∷ [], w'')) × (w'' ≡ [])))
read_framed-write_framed_example =
    read_framed-write_framed pipe (1 ∷ 2 ∷ []) [] (λ bs w. (w ++ bs, refl)) (λ w. (w, refl)) refl

-- The decimal digits of a number below ten.
abbrev digit : ℕ → List ℕ
digit n = (48 + n % 10) ∷ []

abbrev unproved : Handshake sample digit
unproved = record { from = 2; public_key = z1; identity_proof = []; timestamp = 7 }

check_incoming_iff_example : (check_incoming sample digit unproved ≡ some 2) ↔ (
    (length unproved.identity_proof ≢ 48)
    ⊎ ((first unproved.identity_proof ≡ none) ⊎ (check_response sample digit unproved ≡ ok 2)))
check_incoming_iff_example = check_incoming_iff sample digit unproved

-- A handshake without a proof is taken, whatever key and id it names.
unproved_taken : check_incoming sample digit unproved ≡ some 2
unfolding check_incoming
unproved_taken = refl

check_response-handshake_of_example :
    ((check_response sample digit
          (record (handshake_of sample digit z3 2 7) { identity_proof = 1 ∷ [] })
        ≡ ok 2)
      ↔ ((◌≡◌ {A = ℕ} 1 48) × (first (1 ∷ []) ≡ some (five.mul (proof_hash sample digit 2 7) z3))))
    × ((check_response sample digit (handshake_of sample digit z3 2 7) ≡ ok 2)
        × (check_incoming sample digit (handshake_of sample digit z3 2 7) ≡ some 2))
check_response-handshake_of_example = check_response-handshake_of sample digit z3 2 7 (1 ∷ [])
