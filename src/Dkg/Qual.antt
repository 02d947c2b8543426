-- ===== src/Dkg/Qual.antt =====
-- Complaints, disqualification and the QUAL set.
use sigimora_api_backend.Base.{
  ℕ, zero, suc, ◌+◌, ◌<◌, ◌≡◌, refl, sym, ap, ap₂, ◌∙◌, ◌↔◌, inl, inr, Bool, true, false, not, ◌&&◌,
  ◌||◌, List, [], ◌∷◌, ◌++◌, filter, any, length, contains, range_from, u16, Elem, arith, ltb, leb,
  ◌==◌, if◌then◌else◌, Bool-cases, ==_iff, lt→ltb,
}
use sigimora_api_backend.Math.Suite.{Suite}
use sigimora_api_backend.Dkg.{
  DkgState, bump, count_complaints, disqualify_loop, add_complaint, build_qual_set,
  get_complaint_count, is_disqualified,
}

-- The walk over the hash map meets its entries and no others.
abbrev pub IsOrder : (List (ℕ × ℕ) → List (ℕ × ℕ)) → Type 0
IsOrder order = (l : List (ℕ × ℕ)) (e : ℕ × ℕ) → Elem e (order l) ↔ Elem e l

any-Elem :
    {A : Type 0} (q : A → Bool) (l : List A) → any q l ≡ true → (e : A) × Elem e l × (q e ≡ true)
any-Elem q [] h = cc
any-Elem q (x ∷ l) h = elim (Bool-cases (q x)) [
  | inl e ↦ (x, inl refl, e)
  | inr e ↦
      let rest : any q l ≡ true = ground arith in let (a, m, p) = any-Elem q l rest in (a, inr m, p)
]

Elem-any : {A : Type 0} (q : A → Bool) (l : List A) (e : A) → Elem e l → q e ≡ true → any q l ≡ true
Elem-any q [] e m h = absurd m
Elem-any q (x ∷ l) e (inl m) h = ground arith
Elem-any q (x ∷ l) e (inr m) h = ground (arith, Elem-any q l e m h)

any-order :
    (order : List (ℕ × ℕ) → List (ℕ × ℕ)) (q : ℕ × ℕ → Bool) (l : List (ℕ × ℕ))
    → IsOrder order
    → any q (order l) ≡ any q l
any-order order q l o = elim (Bool-cases (any q l)) [
  | inl e ↦ let (x, m, p) = any-Elem q l e in Elem-any q (order l) x ((o l x).1 m) p ∙ sym e
  | inr e ↦ elim (Bool-cases (any q (order l))) [
    | inl d ↦ let (x, m, p) = any-Elem q (order l) d in d ∙ sym (Elem-any q l x ((o l x).0 m) p)
    | inr d ↦ d ∙ sym e
  ]
]

has_key : ℕ → List (ℕ × ℕ) → Bool
has_key a m = any (λ e. e.0 == a) m

count_of : ℕ → List (ℕ × ℕ) → ℕ
count_of a [] = 0
count_of a ((b, n) ∷ m) = if b == a then n else count_of a m

abbrev Unique : List (ℕ × ℕ) → Type 0
Unique [] = Unit
Unique ((b, n) ∷ m) = (has_key b m ≡ false) × Unique m

count_of-bump :
    (a b : ℕ) (m : List (ℕ × ℕ)) → count_of b (bump a m) ≡ (if a == b then 1 else 0) + count_of b m
unfolding count_of bump
count_of-bump a b [] = ground arith
count_of-bump a b ((k, n) ∷ m) = ground (arith, count_of-bump a b m)

has_key-bump : (a b : ℕ) (m : List (ℕ × ℕ)) → has_key b (bump a m) ≡ ((a == b) || has_key b m)
unfolding has_key bump
has_key-bump a b [] = refl
has_key-bump a b ((k, n) ∷ m) = ground (arith, has_key-bump a b m)

bump-Unique : (a : ℕ) (m : List (ℕ × ℕ)) → Unique m → Unique (bump a m)
unfolding bump has_key
bump-Unique a [] u = (refl, tt)
bump-Unique a ((k, n) ∷ m) u = elim (Bool-cases (a == k)) [
  | inl e ↦ rw e (u.0, u.1)
  | inr e ↦ rw e (unfold has_key in has_key-bump a k m ∙ ap₂ ◌||◌ e u.0, bump-Unique a m u.1)
]

count_of-count_complaints :
    (a : ℕ) (cs m : List (ℕ × ℕ))
    → count_of a (count_complaints cs m) ≡ length (filter (λ p. p.1 == a) cs) + count_of a m
unfolding count_complaints
count_of-count_complaints a [] m = omega arith
count_of-count_complaints a ((q, b) ∷ cs) m =
    ground (arith, count_of-count_complaints a cs (bump b m), count_of-bump b a m)

count_complaints-Unique : (cs m : List (ℕ × ℕ)) → Unique m → Unique (count_complaints cs m)
unfolding count_complaints
count_complaints-Unique [] m u = u
count_complaints-Unique ((q, b) ∷ cs) m u =
    count_complaints-Unique cs (bump b m) (bump-Unique b m u)

over : ℕ → ℕ → ℕ × ℕ → Bool
over f a e = e.0 == a && ltb f e.1

any-over_absent : (f a : ℕ) (m : List (ℕ × ℕ)) → has_key a m ≡ false → any (over f a) m ≡ false
unfolding has_key over
any-over_absent f a [] h = refl
any-over_absent f a ((b, n) ∷ m) h = ground (arith, any-over_absent f a m)

any-over : (f a : ℕ) (m : List (ℕ × ℕ)) → Unique m → any (over f a) m ≡ ltb f (count_of a m)
unfolding count_of over
any-over f a [] u = ground arith
any-over f a ((b, n) ∷ m) u = ground (arith, any-over f a m u.1, any-over_absent f b m u.0)

contains-append :
    (xs ys : List ℕ) (a : ℕ) → contains (xs ++ ys) a ≡ (contains xs a || contains ys a)
contains-append [] ys a = refl
contains-append (x ∷ xs) ys a = ground (arith, contains-append xs ys a)

disqualify_loop_lem :
    (f : ℕ) (entries : List (ℕ × ℕ)) (d : List ℕ) (a : ℕ)
    → contains (disqualify_loop f entries d) a ≡ (contains d a || any (over f a) entries)
unfolding disqualify_loop over
disqualify_loop_lem f [] d a = ground arith
disqualify_loop_lem f ((b, n) ∷ m) d a =
    disqualify_loop_lem f m _ a ∙ ground (arith, contains-append d (b ∷ []) a)

module _ (c : Suite) where
  -- After a complaint a party is disqualified exactly if it was before, or if more than `f`
  -- complaints name it by now, in whatever order the hash map of counts is walked.
  is_disqualified-add_complaint :
      (order : List (ℕ × ℕ) → List (ℕ × ℕ)) (complainer accused : ℕ) (s : DkgState c) (a : ℕ)
      → IsOrder order
      → is_disqualified c a (add_complaint c order complainer accused s) ≡ (
          is_disqualified c a s
          || ltb s.f (get_complaint_count c a (add_complaint c order complainer accused s)))
  unfolding is_disqualified add_complaint get_complaint_count
  is_disqualified-add_complaint order complainer accused s a o =
      let cs = s.complaints_received ++ (complainer, accused) ∷ [] in
      disqualify_loop_lem s.f (order (count_complaints cs [])) s.disqualifications a
      ∙ ap (◌||◌ (contains s.disqualifications a)) (
          any-order order (over s.f a) (count_complaints cs []) o
          ∙ any-over s.f a (count_complaints cs []) (count_complaints-Unique cs [] tt)
          ∙ ap (ltb s.f) (count_of-count_complaints a cs [] ∙ unfold count_of in omega arith))

  contains-filter :
      (p : ℕ → Bool) (xs : List ℕ) (a : ℕ) → contains (filter p xs) a ≡ (contains xs a && p a)
  contains-filter p [] a = refl
  contains-filter p (x ∷ xs) a = elim (Bool-cases (x == a)) [
    | inl e ↦
        let same : p x ≡ p a = ap p ((==_iff x a).0 e) in ground (arith, contains-filter p xs a)
    | inr e ↦ ground (arith, contains-filter p xs a)
  ]

  contains-range_from : (lo k a : ℕ) → contains (range_from lo k) a ≡ (leb lo a && ltb a (lo + k))
  contains-range_from lo zero a = ground arith
  contains-range_from lo (suc k) a = ground (arith, contains-range_from (suc lo) k a)

  -- The QUAL set holds exactly the ids from 1 to `n` (as a `u16`) that are not disqualified.
  build_qual_set_lem :
      (s : DkgState c) (a : ℕ)
      → contains (build_qual_set c s).qual_set a
        ≡ ((leb 1 a && ltb a (1 + u16 s.n)) && not (is_disqualified c a s))
  unfolding build_qual_set is_disqualified
  build_qual_set_lem s a =
      contains-filter _ (range_from 1 (u16 s.n)) a
      ∙ ap (λ b. b && not (contains s.disqualifications a)) (contains-range_from 1 (u16 s.n) a)

  -- `k` times the same complaint.
  unfoldable pub complain_times :
      ℕ → (List (ℕ × ℕ) → List (ℕ × ℕ)) → ℕ → ℕ → DkgState c → DkgState c
  complain_times zero order complainer accused s = s
  complain_times (suc k) order complainer accused s =
      add_complaint c order complainer accused (complain_times k order complainer accused s)

  length-filter_snoc :
      {A : Type 0} (p : A → Bool) (xs : List A) (x : A)
      → length (filter p (xs ++ x ∷ [])) ≡ length (filter p xs) + (if p x then 1 else 0)
  length-filter_snoc p [] x = ground arith
  length-filter_snoc p (y ∷ xs) x = ground (arith, length-filter_snoc p xs x)

  one_more :
      (a q : ℕ) (xs : List (ℕ × ℕ))
      → length (filter (λ p. p.1 == a) (xs ++ (q, a) ∷ []))
        ≡ suc (length (filter (λ p. p.1 == a) xs))
  one_more a q xs = ground (arith, length-filter_snoc (λ p. p.1 == a) xs (q, a))

  suc-add : (a k : ℕ) → suc (a + k) ≡ a + suc k
  suc-add a k = omega arith

  complain_times_count :
      (k : ℕ) (order : List (ℕ × ℕ) → List (ℕ × ℕ)) (q a : ℕ) (s : DkgState c)
      → (get_complaint_count c a (complain_times k order q a s) ≡ get_complaint_count c a s + k)
        × ((complain_times k order q a s).f ≡ s.f)
  unfolding complain_times get_complaint_count add_complaint
  complain_times_count zero order q a s = (omega arith, refl)
  complain_times_count (suc k) order q a s =
      let (count, same) = complain_times_count k order q a s in
      (
        one_more a q (complain_times k order q a s).complaints_received
            ∙ ap suc count
            ∙ suc-add (get_complaint_count c a s) k,
        same,
      )

  -- Complaints are counted, not complainers: one party that complains `f + 1` times about another
  -- has it disqualified.
  pub complain_times-is_disqualified :
      (order : List (ℕ × ℕ) → List (ℕ × ℕ)) (complainer accused : ℕ) (s : DkgState c)
      → IsOrder order
      → is_disqualified c accused (complain_times (suc s.f) order complainer accused s) ≡ true
  unfolding complain_times
  complain_times-is_disqualified order q a s o =
      let (count, same) = complain_times_count (suc s.f) order q a s in
      let (_, before) = complain_times_count s.f order q a s in
      let more : s.f < get_complaint_count c a (complain_times (suc s.f) order q a s) =
        omega (arith, count) in
      is_disqualified-add_complaint order q a (complain_times s.f order q a s) a o
      ∙ rw (before, lt→ltb s.f _ more)
          (or_true (is_disqualified c a (complain_times s.f order q a s)))
    where
      or_true : (b : Bool) → (b || true) ≡ true
      or_true true = refl
      or_true false = refl
