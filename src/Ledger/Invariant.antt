-- ===== src/Ledger/Invariant.antt =====
-- What every operation of sigimora-mcp/src/ledger.rs keeps.
use sigimora_api_backend.Base.{
  ℕ, suc, ◌≡◌, refl, sym, ap, ap₂, subst, ◌∙◌, inl, inr, Bool, true, false, not, ◌&&◌, ◌||◌, Option,
  some, none, List, [], ◌∷◌, length, All, Bool-cases, any, map, filter, ◌==◌, arith,
}
use sigimora_api_backend.Math.Suite.{Suite, Bytes}
use sigimora_api_backend.Ats.{AtsSignature, PartialSignature}
use sigimora_api_backend.Ledger.Maps.{
  lookup, has_key, same_id, same_id_eq, has_key-insert, has_key-remove, length-insert,
  lookup-has_key, lookup-insert_other, lookup-All, insert-All, remove-All,
}
use sigimora_api_backend.Ledger.{
  TransactionLedger, PendingTransaction, compute_tx_id, is_expired, submit, add_partial,
  add_partial_signature, approve, reject, reject_all, add_to, approve_removed, reject_removed,
  sweep_expired,
}

apart_insert :
    {A B : Type 0} (k i : Bytes) (m : List (Bytes × A)) (n : List (Bytes × B))
    → has_key k m ≡ false
    → (has_key i m && has_key i n) ≡ false
    → (has_key i m && (same_id k i || has_key i n)) ≡ false
apart_insert k i m n h a = elim (Bool-cases (same_id k i)) [
  | inl e ↦
      let there : has_key i m ≡ false = subst (λ x. has_key x m ≡ false) (same_id_eq k i e) h in
      ground arith
  | inr e ↦ ground arith
]

apart_keys :
    {A : Type 0} (k i : Bytes) (m : List (Bytes × A))
    → has_key k m ≡ false
    → has_key i m ≡ true
    → same_id k i ≡ false
apart_keys k i m h here = elim (Bool-cases (same_id k i)) [
  | inl e ↦
      let there : has_key i m ≡ false = subst (λ x. has_key x m ≡ false) (same_id_eq k i e) h in
      ground arith
  | inr e ↦ e
]

moved : (s a p : Bool) → (a && p) ≡ false → ((s || a) && (not s && p)) ≡ false
moved true a p h = refl
moved false a p h = h

module _ (c : Suite) where
  IsKeyed : Bytes → PendingTransaction c → Type 0
  IsKeyed k tx = tx.id ≡ k

  -- Every pending transaction has its own id as its key, no transaction is both approved and pending,
  -- and the height is the number of approved transactions.
  unfoldable pub IsSound : TransactionLedger c → Type 0
  unfolding IsKeyed
  IsSound l =
      All (λ e. IsKeyed e.0 e.1) l.pending
      × ((i : Bytes) → (has_key i l.approved && has_key i l.pending) ≡ false)
      × (l.height ≡ length l.approved)

  submit-IsSound :
      (hex : Bytes → Bytes) (now : ℕ) (payload : Bytes) (by threshold : ℕ) (l : TransactionLedger c)
      → IsSound l
      → IsSound (submit c hex now payload by threshold l).0
  unfolding IsSound submit IsKeyed
  submit-IsSound hex now payload by threshold l (keyed, apart, height) =
      let id = compute_tx_id c hex payload in
      elim (Bool-cases (has_key id l.approved || has_key id l.pending)) [
        | inl e ↦ rw (e) (keyed, apart, height)
        | inr e ↦ rw (e) (
          insert-All IsKeyed id _ l.pending refl keyed,
          λ i.
              rw
                (has_key-insert id
                  (record {
                    id = id;
                    payload = payload;
                    partial_sigs = [];
                    submitted_by = by;
                    submitted_at = now;
                    threshold = threshold;
                    zkp_compliance_verified = [];
                  })
                  l.pending i)
                (apart_insert id i l.approved l.pending (ground arith) (apart i)),
          height,
        )
      ]

  add_partial-id :
      (partial : PartialSignature c) (tx : PendingTransaction c)
      → (add_partial c partial tx).0.id ≡ tx.id
  unfolding add_partial
  add_partial-id partial tx =
      elim (Bool-cases (any (λ p. p.node_id == partial.node_id) tx.partial_sigs)) [
        | inl e ↦ rw (e) refl
        | inr e ↦ rw (e) refl
      ]

  -- A transaction that is pending is not approved.
  not_approved :
      (l : TransactionLedger c) (k : Bytes) (tx : PendingTransaction c)
      → IsSound l
      → lookup k l.pending ≡ some tx
      → has_key k l.approved ≡ false
  unfolding IsSound
  not_approved l k tx (keyed, apart, height) e =
      let here = lookup-has_key k l.pending tx e in ground (arith, apart k)

  add_to-IsSound :
      (tx_id : Bytes) (partial : PartialSignature c) (l : TransactionLedger c)
      (o : Option (PendingTransaction c))
      → lookup tx_id l.pending ≡ o
      → IsSound l
      → IsSound (add_to c tx_id partial l o).0
  unfolding IsSound add_to IsKeyed
  add_to-IsSound tx_id partial l none e h = h
  add_to-IsSound tx_id partial l (some tx) e (keyed, apart, height) = (
    insert-All IsKeyed tx_id _ l.pending
        (add_partial-id partial tx ∙ lookup-All IsKeyed tx_id l.pending tx keyed e) keyed,
    λ i. rw (has_key-insert tx_id (add_partial c partial tx).0 l.pending i) (
        apart_insert tx_id i l.approved l.pending (not_approved l tx_id tx (keyed, apart, height) e)
          (apart i)),
    height,
  )

  approve_removed-IsSound :
      (now : ℕ) (tx_id : Bytes) (signature : AtsSignature c) (l : TransactionLedger c)
      (o : Option (PendingTransaction c))
      → lookup tx_id l.pending ≡ o
      → IsSound l
      → IsSound (approve_removed c now tx_id signature l o).0
  unfolding IsSound approve_removed IsKeyed
  approve_removed-IsSound now tx_id signature l none e h = h
  approve_removed-IsSound now tx_id signature l (some tx) e (keyed, apart, height) =
      let own : tx.id ≡ tx_id = lookup-All IsKeyed tx_id l.pending tx keyed e in
      let absent = not_approved l tx_id tx (keyed, apart, height) e in
      (
        remove-All IsKeyed tx_id l.pending keyed,
        λ i.
            ap₂ ◌&&◌
              (has_key-insert tx.id _ l.approved i
                ∙ ap (λ x. same_id x i || has_key i l.approved) own)
              (has_key-remove tx_id l.pending i)
            ∙ moved (same_id tx_id i) _ _ (apart i),
        ap suc height
            ∙ sym (
                length-insert tx.id _ l.approved
                  (subst (λ x. has_key x l.approved ≡ false) (sym own) absent)),
      )

  reject_removed-IsSound :
      (now : ℕ) (id : Bytes) (l : TransactionLedger c) (o : Option (PendingTransaction c))
      → IsSound l
      → IsSound (reject_removed c now id l o)
  unfolding IsSound reject_removed IsKeyed
  reject_removed-IsSound now id l none h = h
  reject_removed-IsSound now id l (some tx) (keyed, apart, height) = (
    remove-All IsKeyed id l.pending keyed,
    λ i. ground (arith, apart i, has_key-remove id l.pending i),
    height,
  )

  reject_all-IsSound :
      (now : ℕ) (ids : List Bytes) (l : TransactionLedger c)
      → IsSound l
      → IsSound (reject_all c now ids l)
  unfolding reject_all
  reject_all-IsSound now [] l h = h
  reject_all-IsSound now (id ∷ ids) l h =
      reject_all-IsSound now ids (reject c now id l)
        (unfold reject in reject_removed-IsSound now id l (lookup id l.pending) h)

  sweep_expired-IsSound :
      (now : ℕ) (l : TransactionLedger c) → IsSound l → IsSound (sweep_expired c now l).0
  unfolding sweep_expired
  sweep_expired-IsSound now l h =
      reject_all-IsSound now (map (λ e. e.0) (filter (λ e. is_expired c now e.1) l.pending)) l h

  -- A call of an operation that changes the ledger.
  pub data Step (l : TransactionLedger c) : TransactionLedger c → Type 0 where
    submitted :
        (hex : Bytes → Bytes) (now : ℕ) (payload : Bytes) (by threshold : ℕ)
        → Step l (submit c hex now payload by threshold l).0
    partial_added :
        (tx_id : Bytes) (partial : PartialSignature c)
        → Step l (add_partial_signature c tx_id partial l).0
    approved :
        (now : ℕ) (tx_id : Bytes) (signature : AtsSignature c)
        → Step l (approve c now tx_id signature l).0
    swept : (now : ℕ) → Step l (sweep_expired c now l).0

  -- Every operation keeps the ledger sound: pending transactions have their ids as keys, none is also
  -- approved, and the height counts the approved ones.
  pub Step-IsSound : (l l' : TransactionLedger c) → Step l l' → IsSound l → IsSound l'
  Step-IsSound l _ (submitted hex now payload by threshold) h =
      submit-IsSound hex now payload by threshold l h
  Step-IsSound l _ (partial_added tx_id partial) h =
      unfold add_partial_signature in add_to-IsSound tx_id partial l (lookup tx_id l.pending) refl h
  Step-IsSound l _ (approved now tx_id signature) h =
      unfold approve in
      approve_removed-IsSound now tx_id signature l (lookup tx_id l.pending) refl h
  Step-IsSound l _ (swept now) h = sweep_expired-IsSound now l h

  approve_removed_kept :
      (now : ℕ) (tx_id : Bytes) (signature : AtsSignature c) (l : TransactionLedger c)
      (o : Option (PendingTransaction c)) (i : Bytes)
      → lookup tx_id l.pending ≡ o
      → IsSound l
      → has_key i l.approved ≡ true
      → lookup i (approve_removed c now tx_id signature l o).0.approved ≡ lookup i l.approved
  unfolding approve_removed IsSound
  approve_removed_kept now tx_id signature l none i e h here = refl
  approve_removed_kept now tx_id signature l (some tx) i e h here =
      let own : tx.id ≡ tx_id = unfold IsKeyed in lookup-All IsKeyed tx_id l.pending tx h.0 e in
      let absent : has_key tx.id l.approved ≡ false =
        subst (λ x. has_key x l.approved ≡ false) (sym own) (not_approved l tx_id tx h e) in
      lookup-insert_other tx.id i _ l.approved (apart_keys tx.id i l.approved absent here)

  reject_removed_kept :
      (now : ℕ) (id : Bytes) (l : TransactionLedger c) (o : Option (PendingTransaction c))
      → (reject_removed c now id l o).approved ≡ l.approved
  unfolding reject_removed
  reject_removed_kept now id l none = refl
  reject_removed_kept now id l (some tx) = refl

  reject_all_kept :
      (now : ℕ) (ids : List Bytes) (l : TransactionLedger c)
      → (reject_all c now ids l).approved ≡ l.approved
  unfolding reject_all reject
  reject_all_kept now [] l = refl
  reject_all_kept now (id ∷ ids) l =
      reject_all_kept now ids (reject c now id l)
      ∙ reject_removed_kept now id l (lookup id l.pending)

  sweep_expired_kept :
      (now : ℕ) (l : TransactionLedger c) → (sweep_expired c now l).0.approved ≡ l.approved
  unfolding sweep_expired
  sweep_expired_kept now l =
      reject_all_kept now (map (λ e. e.0) (filter (λ e. is_expired c now e.1) l.pending)) l

  submit_kept :
      (hex : Bytes → Bytes) (now : ℕ) (payload : Bytes) (by threshold : ℕ) (l : TransactionLedger c)
      → (submit c hex now payload by threshold l).0.approved ≡ l.approved
  unfolding submit
  submit_kept hex now payload by threshold l =
      elim (Bool-cases (
        has_key (compute_tx_id c hex payload) l.approved
        || has_key (compute_tx_id c hex payload) l.pending)) [
          | inl e ↦ rw (e) refl
          | inr e ↦ rw (e) refl
        ]

  add_to_kept :
      (tx_id : Bytes) (partial : PartialSignature c) (l : TransactionLedger c)
      (o : Option (PendingTransaction c))
      → (add_to c tx_id partial l o).0.approved ≡ l.approved
  unfolding add_to
  add_to_kept tx_id partial l none = refl
  add_to_kept tx_id partial l (some tx) = refl

  -- In a sound ledger no operation changes the entry of a transaction that is approved.
  Step-kept :
      (l l' : TransactionLedger c) (i : Bytes)
      → Step l l'
      → IsSound l
      → has_key i l.approved ≡ true
      → lookup i l'.approved ≡ lookup i l.approved
  Step-kept l _ i (submitted hex now payload by threshold) h here =
      ap (λ m. lookup i m) (submit_kept hex now payload by threshold l)
  Step-kept l _ i (partial_added tx_id partial) h here =
      unfold add_partial_signature in
      ap (λ m. lookup i m) (add_to_kept tx_id partial l (lookup tx_id l.pending))
  Step-kept l _ i (approved now tx_id signature) h here =
      unfold approve in
      approve_removed_kept now tx_id signature l (lookup tx_id l.pending) i refl h here
  Step-kept l _ i (swept now) h here = ap (λ m. lookup i m) (sweep_expired_kept now l)
