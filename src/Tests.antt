-- ===== src/Tests.antt =====
-- Runs of the theorems on concrete inputs, over the field of five elements.
mod Sharing
mod Keys
mod Proofs
mod Signing
mod Protocol
mod Ledger
mod Frost
mod Network
mod Refresh
mod Messages
mod Honest
mod Server
mod Accounts
mod Service
use sigimora_api_backend.Base.{ℕ, ◌≢◌, refl, some, List, [], ◌∷◌}
use sigimora_api_backend.Samples.FiveField.{Five, z0, z1, z2, z3, z4}
use sigimora_api_backend.Server.Texts.{Texts}
use sigimora_api_backend.Shamir.Interpolation.{Distinct}

-- A generator that yields 1 for ever.
abbrev pub ones : ℕ → Five
ones k = z1

pub two_and_three : Distinct (z2 ∷ z3 ∷ [])
two_and_three = ((λ e. cc, tt), (tt, tt))

pub two_ne_zero : z2 ≢ z0
two_ne_zero e = cc

pub one_ne_zero : z1 ≢ z0
one_ne_zero e = cc

-- Texts that are their own encodings.
abbrev pub texts : Texts
texts = record {
  hex_encode = λ b. b;
  hex_decode = some;
  json_ids = λ ids. ids;
  parse_ids = some;
  hex_decode-hex_encode = λ b. refl;
  parse_ids-json_ids = λ ids h. refl;
}
