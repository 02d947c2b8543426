-- ===== src/Dkg/Honest/Agreement.antt =====
-- What the parties of an honest run end with: shares of one polynomial, and its public key.
use sigimora_api_backend.Base.{
  ℕ, ◌-◌, ◌/◌, ◌≤◌, ◌≡◌, refl, sym, ap, subst, ◌∙◌, ◌≢◌, Bool, true, not, ◌&&◌, none, List, [], ◌∷◌,
  ◌++◌, map, filter, length, length-append, contains, u16, All, All-of, All-append_middle, ok,
  bind_eq, assert, ok_injective, leb, arith,
}
use sigimora_api_backend.Math.Suite.{Suite}
use sigimora_api_backend.Shamir.{CryptoError}
use sigimora_api_backend.Shamir.Poly.{horner}
use sigimora_api_backend.Shamir.Interpolation.{Distinct}
use sigimora_api_backend.Shamir.Sums.{sum_poly, horner-sum_poly}
use sigimora_api_backend.Pedersen.{PedersenSetup}
use sigimora_api_backend.Dkg.{
  DkgState, DkgOutput, DkgRound, new, start, build_qual_set, finalize, output_of,
}
use sigimora_api_backend.Dkg.Honest.{Dealer, deliver, delivered, deliver_ok}
use sigimora_api_backend.Dkg.Honest.Sums.{coefficients, sum_horner_middle}
use sigimora_api_backend.Dkg.Honest.Output.{InRange, quorum, IsHeard, heard_output}

filter_same :
    {A : Type 0} (p : A → Bool) (xs : List A) → All (λ x. p x ≡ true) xs → filter p xs ≡ xs
filter_same p [] a = refl
filter_same p (x ∷ xs) (h, a) = rw (h, filter) (ap (◌∷◌ x) (filter_same p xs a))

module _ (c : Suite) (n t : ℕ) (ped : PedersenSetup c) where
  open c use {Scalar, G2, field, g2}

  none_disqualified : (xs : List ℕ) → filter (λ id. not (contains [] id)) xs ≡ xs
  none_disqualified xs = filter_same _ xs (All-of (λ x. refl) xs)

  others_apart :
      (x : ℕ) (bs : List (Dealer c)) (own : Dealer c) (as' : List (Dealer c))
      → All (λ i. x ≢ i) (map (λ d. d.id) (bs ++ own ∷ as'))
      → All (λ i. x ≢ i) (map (λ d. d.id) (bs ++ as'))
  others_apart x [] own as' (h, a) = a
  others_apart x (b ∷ bs) own as' (h, a) = (h, others_apart x bs own as' a)

  Distinct-others :
      (bs : List (Dealer c)) (own : Dealer c) (as' : List (Dealer c))
      → Distinct (map (λ d. d.id) (bs ++ own ∷ as'))
      → Distinct (map (λ d. d.id) (bs ++ as'))
  Distinct-others [] own as' (a, d) = d
  Distinct-others (b ∷ bs) own as' (a, d) =
      (others_apart b.id bs own as' a, Distinct-others bs own as' d)

  All-others :
      (P : Dealer c → Type 0) (bs : List (Dealer c)) (own : Dealer c) (as' : List (Dealer c))
      → All P (bs ++ own ∷ as')
      → P own × All P (bs ++ as')
  All-others P [] own as' (h, a) = (h, a)
  All-others P (b ∷ bs) own as' (h, a) = let (o, r) = All-others P bs own as' a in (o, (h, r))

  finalize_of :
      (s : DkgState c) (out : DkgOutput c)
      → output_of c (build_qual_set c s) ≡ ok out
      → (finalize c s).1 ≡ ok out
  unfolding finalize
  finalize_of s out e = rw (e, finalize) refl

  -- The polynomial that all dealers share.
  unfoldable pub joint : List (Dealer c) → List Scalar
  joint ds = sum_poly field (map (coefficients c t ped) ds)

  unfoldable pub fresh_state : Dealer c → DkgState c
  fresh_state own = record {
    n = n;
    f = (n - 1) / 3;
    t = t;
    my_id = own.id;
    my_secret = none;
    my_public_key = none;
    my_pop = none;
    my_vss_poly = none;
    pedersen = ped;
    received_public_keys = [];
    received_pops = [];
    received_vss_publics = [];
    received_shares = [];
    complaints_received = [];
    disqualifications = [];
    qual_set = [];
    qual_public_keys = [];
    round = DkgRound.idle;
  }

  pub new_fresh :
      (own : Dealer c)
      → t ≤ n
      → InRange c n t ped own
      → new c {E = CryptoError} n t own.id ped ≡ ok (fresh_state own)
  unfolding new fresh_state
  new_fresh own tn (lo, hi) = bind_eq _ (ap assert in_bounds) ∙ bind_eq _ (ap assert is_party)
    where
      in_bounds : leb t n ≡ true
      in_bounds = ground (arith, tn)

      is_party : (leb 1 own.id && leb own.id (u16 n)) ≡ true
      is_party = ground (arith, lo, hi)

  -- The state after all deliveries.
  unfoldable pub heard_state : Dealer c → List (Dealer c) → DkgState c
  heard_state own others = delivered c t ped others (start c own.rng own.os_rng (fresh_state own))

  heard :
      (own : Dealer c) (others : List (Dealer c))
      → IsHeard c n t ped own others (build_qual_set c (heard_state own others))
  unfolding heard_state fresh_state start build_qual_set
  heard own others = record {
    id = refl;
    poly = refl;
    key = refl;
    qual = none_disqualified (quorum c n t ped);
    keys = refl;
    shares = refl;
  }

  deliver_all :
      (own : Dealer c) (others : List (Dealer c))
      → Distinct (map (λ d. d.id) others)
      → deliver c t ped others (start c own.rng own.os_rng (fresh_state own))
        ≡ ok (heard_state own others)
  unfolding heard_state fresh_state start
  deliver_all own others d = deliver_ok c t ped others _ refl d (All-of (λ x. refl) others)

  -- What a party outputs that has heard all others.
  pub finalize-heard_state :
      (before : List (Dealer c)) (own : Dealer c) (after : List (Dealer c))
      → All (InRange c n t ped) (before ++ own ∷ after)
      → u16 n ≤ length (before ++ own ∷ after)
      → (out : DkgOutput c) × ((finalize c (heard_state own (before ++ after))).1 ≡ ok out)
        × (out.my_secret ≡ horner field (joint (before ++ own ∷ after)) (field.from_u64 own.id))
        × (out.collective_pk
            ≡ g2.mul g2.generator (horner field (joint (before ++ own ∷ after)) field.zero))
  unfolding joint
  finalize-heard_state before own after a k =
      let others : List (Dealer c) = before ++ after in
      let (o, r) = All-others (InRange c n t ped) before own after a in
      let (out, e, share, key) =
        heard_output c n t ped own others _ (heard own others) o r
          (omega (arith, k, length-append before (own ∷ after), length-append before after)) in
      (
        out,
        finalize_of _ out e,
        share
            ∙ sym (sum_horner_middle c t ped before own after (field.from_u64 own.id))
            ∙ sym (horner-sum_poly field _ _),
        key
            ∙ ap (g2.mul g2.generator) (
                field.add_comm _ _
                ∙ sym (sum_horner_middle c t ped before own after field.zero)
                ∙ sym (horner-sum_poly field _ _)),
      )

  -- Parties with different ids from 1 to `n`, of which there are at least `n`, run the key generation:
  -- when the messages of all others are delivered to a new party that has started, every one is
  -- accepted and `finalize` succeeds; the party ends with its share of the sum of all polynomials, and
  -- with the public key of that sum's constant term.
  pub finalize-deliver :
      (before : List (Dealer c)) (own : Dealer c) (after : List (Dealer c))
      → t ≤ n
      → All (InRange c n t ped) (before ++ own ∷ after)
      → Distinct (map (λ d. d.id) (before ++ own ∷ after))
      → u16 n ≤ length (before ++ own ∷ after)
      → (fresh s : DkgState c) × (out : DkgOutput c) × (new c {E = CryptoError} n t own.id ped
          ≡ ok fresh)
        × (deliver c t ped (before ++ after) (start c own.rng own.os_rng fresh) ≡ ok s)
        × ((finalize c s).1 ≡ ok out)
        × (out.my_secret ≡ horner field (joint (before ++ own ∷ after)) (field.from_u64 own.id))
        × (out.collective_pk
            ≡ g2.mul g2.generator (horner field (joint (before ++ own ∷ after)) field.zero))
  finalize-deliver before own after tn a d k =
      let (out, e, share, key) = finalize-heard_state before own after a k in
      (
        fresh_state own,
        heard_state own (before ++ after),
        out,
        new_fresh own tn (All-append_middle (InRange c n t ped) before own after a),
        deliver_all own (before ++ after) (Distinct-others before own after d),
        e,
        share,
        key,
      )

  -- How a party of a run of the dealers `ds` ends: it hears all others, in the order of `ds`, and
  -- `finalize` returns `out`.
  unfoldable pub Ends : List (Dealer c) → Dealer c → DkgOutput c → Type 0
  Ends ds own out =
      (before after : List (Dealer c)) × (fresh s : DkgState c) × (ds ≡ before ++ own ∷ after)
      × (new c {E = CryptoError} n t own.id ped ≡ ok fresh)
      × (deliver c t ped (before ++ after) (start c own.rng own.os_rng fresh) ≡ ok s)
      × ((finalize c s).1 ≡ ok out)

  -- Every party ends with its share of the joint polynomial and with the joint key.
  pub Ends-joint :
      (ds : List (Dealer c)) (own : Dealer c) (out : DkgOutput c)
      → t ≤ n
      → All (InRange c n t ped) ds
      → Distinct (map (λ d. d.id) ds)
      → u16 n ≤ length ds
      → Ends ds own out
      → (out.my_secret ≡ horner field (joint ds) (field.from_u64 own.id))
        × (out.collective_pk ≡ g2.mul g2.generator (horner field (joint ds) field.zero))
  unfolding Ends
  Ends-joint ds own out tn a d k (before, after, fresh, s, e, p, q, r) =
      let (fresh', s', out', p', q', r', share, key) =
        finalize-deliver before own after tn (subst (All (InRange c n t ped)) e a)
          (subst (λ l. Distinct (map (λ (x : Dealer c). x.id) l)) e d)
          (subst (λ l. u16 n ≤ length l) e k) in
      let same_start : fresh' ≡ fresh = ok_injective (sym p' ∙ p) in
      let same_state : s' ≡ s = ok_injective (
        sym q'
        ∙ ap (λ x. deliver c t ped (before ++ after) (start c own.rng own.os_rng x)) same_start
        ∙ q) in
      let same : out' ≡ out = ok_injective (sym r' ∙ ap (λ x. (finalize c x).1) same_state ∙ r) in
      (
        ap (λ (x : DkgOutput c). x.my_secret) (sym same)
            ∙ share
            ∙ ap (λ l. horner field (joint l) (field.from_u64 own.id)) (sym e),
        ap (λ (x : DkgOutput c). x.collective_pk) (sym same)
            ∙ key
            ∙ ap (λ l. g2.mul g2.generator (horner field (joint l) field.zero)) (sym e),
      )
