-- ===== src/Tests/Ledger.antt =====
-- Runs of the theorems on the ledger.
use sigimora_api_backend.Base.{◌≡◌, refl, inl, inr, ◌&&◌, ◌||◌, subst, Bool-cases, false, [], ◌∷◌}
use sigimora_api_backend.Math.Suite.{Bytes}
use sigimora_api_backend.Samples.{sample}
use sigimora_api_backend.Samples.FiveField.{z3, z4}
use sigimora_api_backend.Ats.{AtsSignature}
use sigimora_api_backend.Ledger.{
  TransactionLedger, PendingTransaction, ApprovedTransaction, approve,
}
use sigimora_api_backend.Ledger.Maps.{has_key, same_id, same_id_eq}
use sigimora_api_backend.Ledger.Invariant.{IsSound, Step-IsSound, approved}

abbrev signature : AtsSignature sample
signature = record {
  combined_sig = z4;
  quorum = 2 ∷ 3 ∷ [];
  bitmap_commitment = z3;
  encrypted_tags = [];
  membership_proof = record { quorum_pk = z3; individual_pks = [] };
  epoch = 5;
}

abbrev old : ApprovedTransaction sample
old = record {
  id = 1 ∷ [];
  payload = 1 ∷ [];
  signature = signature;
  signers = 2 ∷ 3 ∷ [];
  submitted_by = 1;
  submitted_at = 10;
  approved_at = 20;
  height = 1;
  zkp_threshold_verified = false;
}

abbrev waiting : PendingTransaction sample
waiting = record {
  id = 2 ∷ [];
  payload = 2 ∷ [];
  partial_sigs = [];
  submitted_by = 1;
  submitted_at = 30;
  threshold = 2;
  zkp_compliance_verified = [];
}

abbrev ledger : TransactionLedger sample
ledger = record {
  approved = (1 ∷ [], old) ∷ [];
  pending = (2 ∷ [], waiting) ∷ [];
  rejected = [];
  height = 1;
}

one_and_two : (i : Bytes) → ((same_id (1 ∷ []) i || false) && (same_id (2 ∷ []) i || false)) ≡ false
one_and_two i = elim (Bool-cases (same_id (1 ∷ []) i)) [
  | inl e ↦
      subst (λ x. ((same_id (1 ∷ []) x || false) && (same_id (2 ∷ []) x || false)) ≡ false)
        (same_id_eq (1 ∷ []) i e) refl
  | inr e ↦ rw (e) refl
]

ledger-IsSound : IsSound sample ledger
unfolding IsSound has_key
ledger-IsSound = ((refl, tt), one_and_two, refl)

Step-IsSound_example : IsSound sample (approve sample 40 (2 ∷ []) signature ledger).0
Step-IsSound_example = Step-IsSound sample ledger _ (approved 40 (2 ∷ []) signature) ledger-IsSound
