-- ===== src/Ledger.antt =====
-- sigimora-mcp/src/ledger.rs: transactions that wait for signatures, are approved or expire. A hash
-- map is the list of its entries, and the time that `now_secs()` tells is an argument.
pub mod Maps
pub mod Invariant
use sigimora_api_backend.Base.{
  ℕ, suc, ◌+◌, ◌-◌, Bool, true, false, not, ◌||◌, Option, some, none, List, [], ◌∷◌, ◌++◌, map,
  filter, any, contains, length, ltb, leb, ◌==◌, if◌then◌else◌,
}
use sigimora_api_backend.Math.Suite.{Suite, Bytes}
use sigimora_api_backend.Ats.{AtsSignature, PartialSignature}
use sigimora_api_backend.Ledger.Maps.{lookup, insert, remove, has_key}

-- `EXPIRY_SECONDS`.
abbrev expiry_seconds : ℕ
expiry_seconds = 86400

-- The elements of `iter().collect::<HashSet<_>>()`.
unfoldable unique : List ℕ → List ℕ
unique [] = []
unique (x ∷ xs) = let rest = unique xs in if contains xs x then rest else x ∷ rest

module _ (c : Suite) where
  pub record ApprovedTransaction : Type 0 where
    pub id : Bytes
    pub payload : Bytes
    pub signature : AtsSignature c
    pub signers : List ℕ
    pub submitted_by : ℕ
    pub submitted_at : ℕ
    pub approved_at : ℕ
    pub height : ℕ
    pub zkp_threshold_verified : Bool

  pub record PendingTransaction : Type 0 where
    pub id : Bytes
    pub payload : Bytes
    pub partial_sigs : List (PartialSignature c)
    pub submitted_by : ℕ
    pub submitted_at : ℕ
    pub threshold : ℕ
    pub zkp_compliance_verified : List ℕ

  -- Without the text of the reason, which repeats the two counts.
  pub record RejectedTransaction : Type 0 where
    pub id : Bytes
    pub payload : Bytes
    partial_count : ℕ
    pub threshold : ℕ
    pub submitted_by : ℕ
    pub submitted_at : ℕ
    rejected_at : ℕ

  pub record TransactionLedger : Type 0 where
    pub approved : List (Bytes × ApprovedTransaction)
    pub pending : List (Bytes × PendingTransaction)
    pub rejected : List (Bytes × RejectedTransaction)
    pub height : ℕ

  -- `TransactionLedger::new`.
  unfoldable pub empty : TransactionLedger
  empty = record { approved = []; pending = []; rejected = []; height = 0 }

  unfoldable pub is_expired : ℕ → PendingTransaction → Bool
  is_expired now tx = ltb expiry_seconds (now - tx.submitted_at)

  unfoldable signer_count : PendingTransaction → ℕ
  unfolding unique
  signer_count tx = length (unique (map (λ p. p.node_id) tx.partial_sigs))

  unfoldable is_threshold_met : PendingTransaction → Bool
  unfolding unique
  is_threshold_met tx = leb tx.threshold (length (unique (map (λ p. p.node_id) tx.partial_sigs)))

  -- `PendingTransaction::add_partial`.
  unfoldable pub add_partial : PartialSignature c → PendingTransaction → PendingTransaction × Bool
  unfolding is_threshold_met
  add_partial partial tx =
      let tx' =
        (if any (λ p. p.node_id == partial.node_id) tx.partial_sigs
          then tx
          else record tx { partial_sigs = tx.partial_sigs ++ partial ∷ [] }) in
      (tx', is_threshold_met tx')

  -- `hex` is `hex::encode`.
  unfoldable pub compute_tx_id : (Bytes → Bytes) → Bytes → Bytes
  compute_tx_id hex payload = hex (c.sha256 payload)

  unfoldable pub submit :
      (Bytes → Bytes) → ℕ → Bytes → ℕ → ℕ → TransactionLedger → TransactionLedger × Bytes
  unfolding compute_tx_id
  submit hex now payload submitted_by threshold l =
      let id = compute_tx_id hex payload in
      if has_key id l.approved || has_key id l.pending then (l, id) else (
        record l {
          pending =
              insert id
                (record {
                  id = id;
                  payload = payload;
                  partial_sigs = [];
                  submitted_by = submitted_by;
                  submitted_at = now;
                  threshold = threshold;
                  zkp_compliance_verified = [];
                })
                l.pending;
        },
        id,
      )

  -- `add_partial_signature` on what `self.pending.get_mut(tx_id)` finds.
  unfoldable pub add_to :
      Bytes
      → PartialSignature c
      → TransactionLedger
      → Option PendingTransaction
      → TransactionLedger × Option Bytes
  unfolding add_partial
  add_to tx_id partial l none = (l, none)
  add_to tx_id partial l (some tx) =
      let (tx', met) = add_partial partial tx in
      (record l { pending = insert tx_id tx' l.pending }, if met then some tx_id else none)

  unfoldable pub add_partial_signature :
      Bytes → PartialSignature c → TransactionLedger → TransactionLedger × Option Bytes
  unfolding add_to
  add_partial_signature tx_id partial l = add_to tx_id partial l (lookup tx_id l.pending)

  -- `approve` on what `self.pending.remove(tx_id)` takes out.
  unfoldable pub approve_removed :
      ℕ
      → Bytes
      → AtsSignature c
      → TransactionLedger
      → Option PendingTransaction
      → TransactionLedger × Option ApprovedTransaction
  approve_removed now tx_id signature l none = (l, none)
  approve_removed now tx_id signature l (some tx) =
      let approved : ApprovedTransaction = record {
        id = tx.id;
        payload = tx.payload;
        signature = signature;
        signers = signature.quorum;
        submitted_by = tx.submitted_by;
        submitted_at = tx.submitted_at;
        approved_at = now;
        height = suc l.height;
        zkp_threshold_verified = false;
      } in
      (
        record l {
          approved = insert tx.id approved l.approved;
          pending = remove tx_id l.pending;
          height = suc l.height;
        },
        some approved,
      )

  unfoldable pub approve :
      ℕ
      → Bytes
      → AtsSignature c
      → TransactionLedger
      → TransactionLedger × Option ApprovedTransaction
  unfolding approve_removed
  approve now tx_id signature l = approve_removed now tx_id signature l (lookup tx_id l.pending)

  -- One turn of the loop of `sweep_expired`, on what `self.pending.remove(&id)` takes out.
  unfoldable pub reject_removed :
      ℕ → Bytes → TransactionLedger → Option PendingTransaction → TransactionLedger
  unfolding signer_count
  reject_removed now id l none = l
  reject_removed now id l (some tx) = record l {
    pending = remove id l.pending;
    rejected =
        insert tx.id
          (record {
            id = tx.id;
            payload = tx.payload;
            partial_count = signer_count tx;
            threshold = tx.threshold;
            submitted_by = tx.submitted_by;
            submitted_at = tx.submitted_at;
            rejected_at = now;
          })
          l.rejected;
  }

  unfoldable pub reject : ℕ → Bytes → TransactionLedger → TransactionLedger
  unfolding reject_removed
  reject now id l = reject_removed now id l (lookup id l.pending)

  unfoldable pub reject_all : ℕ → List Bytes → TransactionLedger → TransactionLedger
  unfolding reject
  reject_all now [] l = l
  reject_all now (id ∷ ids) l = reject_all now ids (reject now id l)

  unfoldable pub sweep_expired : ℕ → TransactionLedger → TransactionLedger × ℕ
  unfolding reject_all is_expired
  sweep_expired now l =
      let expired_ids = map (λ e. e.0) (filter (λ e. is_expired now e.1) l.pending) in
      (reject_all now expired_ids l, length expired_ids)
