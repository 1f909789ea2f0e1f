-- ===== src/Store/Retention/Kept.antt =====
-- What PlanRetention (internal/store/retention.go) leaves in the store.
use cnpg_i_chronicle.Common.{
  ℕ, zero, suc, ◌-◌, ◌≤◌, ◌≡◌, refl, sym, ◌∙◌, ap, subst, inl, inr, true, false, not, some, List,
  [], ◌∷◌, arith, ltb, Text, text_eq, text_eq_iff, text_eq_refl, contains, keep, length, Bool-cases,
  Elem, here, there, All, AllPairs, Option-cases,
}
use cnpg_i_chronicle.Common.Sort.{sort_by, Elem-sort_by, sort_by-AllPairs}
use cnpg_i_chronicle.Store.Refs.{SnapshotRef}
use cnpg_i_chronicle.Store.Retention.{
  key_less, before_cutoff, take_keys, superseded, plan_retention,
}
use cnpg_i_chronicle.Restore.Select.{at_or_before}

-- No two refs of a listing have one key.
abbrev pub OtherKey : SnapshotRef → SnapshotRef → Type 0
OtherKey a b = text_eq a.key b.key ≡ false

abbrev pub DistinctKeys : List SnapshotRef → Type 0
DistinctKeys refs = AllPairs OtherKey refs

OtherKey-sym : (a b : SnapshotRef) → OtherKey a b → OtherKey b a
OtherKey-sym a b h = elim (Bool-cases (text_eq b.key a.key)) [
  | inl e ↦ ground (arith, text_eq_iff b.key a.key, text_eq_refl a.key)
  | inr e ↦ e
]

-- The refs whose keys are not among those to delete.
abbrev pub surviving : List Text → List SnapshotRef → List SnapshotRef
surviving keys refs = keep (λ (r : SnapshotRef). not (contains keys r.key)) refs

abbrev skip_refs : ℕ → List SnapshotRef → List SnapshotRef
skip_refs zero refs = refs
skip_refs (suc n) [] = []
skip_refs (suc n) (ref ∷ rest) = skip_refs n rest

surviving_nothing : (refs : List SnapshotRef) → surviving [] refs ≡ refs
surviving_nothing [] = refl
surviving_nothing (r ∷ rest) = ap (λ t. r ∷ t) (surviving_nothing rest)

surviving_other :
    (key : Text) (keys : List Text) (refs : List SnapshotRef)
    → All (λ (r : SnapshotRef). text_eq key r.key ≡ false) refs
    → surviving (key ∷ keys) refs ≡ surviving keys refs
surviving_other key keys [] h = refl
surviving_other key keys (r ∷ rest) h = rw (h.0, surviving_other key keys rest h.1)

surviving_rest :
    (n : ℕ) (refs : List SnapshotRef)
    → DistinctKeys refs
    → surviving (take_keys n refs) refs ≡ skip_refs n refs
unfolding take_keys
surviving_rest zero refs h = surviving_nothing refs
surviving_rest (suc n) [] h = refl
surviving_rest (suc n) (r ∷ rest) h =
    rw (text_eq_refl r.key, surviving_other r.key (take_keys n rest) rest h.0)
      (surviving_rest n rest h.1)

-- A ref at or before the moment that leads a list is found, or a later one.
found :
    (moment : ℕ) (ref : SnapshotRef) (rest : List SnapshotRef)
    → ltb moment ref.captured_at ≡ false
    → (r : SnapshotRef) × (at_or_before moment (ref ∷ rest) ≡ some r)
unfolding at_or_before
found moment ref rest h = elim (Option-cases (at_or_before moment rest)) [
  | inl e ↦ (ref, rw (h, e))
  | inr (r, e) ↦ (r, rw (h, e))
]

passed :
    (moment : ℕ) (ref : SnapshotRef) (rest : List SnapshotRef) (r : SnapshotRef)
    → ltb moment ref.captured_at ≡ false
    → at_or_before moment rest ≡ some r
    → at_or_before moment (ref ∷ rest) ≡ some r
unfolding at_or_before
passed moment ref rest r h e = rw (h, e)

first_before :
    (cutoff : ℕ) (ref : SnapshotRef) (refs : List SnapshotRef) (moment k : ℕ)
    → cutoff ≤ moment
    → suc k ≤ before_cutoff cutoff (ref ∷ refs)
    → (ltb moment ref.captured_at ≡ false) × k ≤ before_cutoff cutoff refs
unfolding before_cutoff
first_before cutoff ref refs moment k le h = ground arith

-- Refs before the cutoff that another such ref follows are never the newest of a moment.
at_or_before-skip_refs :
    (cutoff moment n : ℕ) (refs : List SnapshotRef)
    → cutoff ≤ moment
    → suc n ≤ before_cutoff cutoff refs
    → at_or_before moment (skip_refs n refs) ≡ at_or_before moment refs
at_or_before-skip_refs cutoff moment zero refs le h = refl
at_or_before-skip_refs cutoff moment (suc n) [] le h = refl
at_or_before-skip_refs cutoff moment (suc n) (r ∷ []) le h =
    absurd (unfold before_cutoff in ground arith)
at_or_before-skip_refs cutoff moment (suc n) (r ∷ s ∷ rest) le h =
    let (early, more) : (ltb moment r.captured_at ≡ false)
        × suc n ≤ before_cutoff cutoff (s ∷ rest) =
      first_before cutoff r (s ∷ rest) moment (suc n) le h in
    let (next, _) = first_before cutoff s rest moment n le more in
    let (t, e) = found moment s rest next in
    at_or_before-skip_refs cutoff moment n (s ∷ rest) le more
    ∙ e
    ∙ sym (passed moment r (s ∷ rest) t early e)

-- Whatever moment at or after the cutoff is asked for, the newest snapshot at or before it is the
-- same once the planned keys are deleted: for refs with distinct keys, in the order of the keys.
pub plan_retention-at_or_before :
    (refs : List SnapshotRef) (cutoff moment : ℕ)
    → DistinctKeys refs
    → cutoff ≤ moment
    → at_or_before moment (surviving (plan_retention refs cutoff) (sort_by key_less refs))
      ≡ at_or_before moment (sort_by key_less refs)
unfolding plan_retention superseded
plan_retention-at_or_before refs cutoff moment h le =
    let ordered = sort_by key_less refs in
    let n = before_cutoff cutoff ordered in
    elim (Bool-cases (ltb (length refs) 2)) [
      | inl e ↦ rw (e, surviving_nothing)
      | inr e ↦ elim (Bool-cases (ltb n 2)) [
        | inl few ↦ rw (e, few, surviving_nothing)
        | inr many ↦
            rw
              (
                e,
                many,
                surviving_rest (n - 1) ordered
                    (sort_by-AllPairs key_less OtherKey OtherKey-sym refs h),
              )
              (at_or_before-skip_refs cutoff moment (n - 1) ordered le (ground arith))
      ]
    ]

take_keys-before :
    (cutoff n : ℕ) (refs : List SnapshotRef) (key : Text)
    → n ≤ before_cutoff cutoff refs
    → Elem key (take_keys n refs)
    → (r : SnapshotRef) × Elem r refs × (key ≡ r.key) × (ltb r.captured_at cutoff ≡ true)
take_keys-before cutoff zero refs key le m = absurd (unfold take_keys in elim m [ ])
take_keys-before cutoff (suc n) [] key le m = absurd (unfold take_keys in elim m [ ])
take_keys-before cutoff (suc n) (r ∷ rest) key le m =
    from (unfold take_keys in m) (unfold before_cutoff in ground arith)
      (λ early k. take_keys-before cutoff n rest key early k)
  where
    from :
        Elem key (r.key ∷ take_keys n rest)
        → (ltb r.captured_at cutoff ≡ true) × n ≤ before_cutoff cutoff rest
        → (n ≤ before_cutoff cutoff rest
            → Elem key (take_keys n rest)
            → (s : SnapshotRef) × Elem s rest × (key ≡ s.key) × (ltb s.captured_at cutoff ≡ true))
        → (s : SnapshotRef) × Elem s (r ∷ rest) × (key ≡ s.key) × (ltb s.captured_at cutoff ≡ true)
    from (here e) h below = (r, here refl, e, h.0)
    from (there k) h below = let (s, p, q, c) = below h.1 k in (s, there p, q, c)

-- Every planned key is the key of a ref of the listing that was captured before the cutoff.
pub plan_retention-before :
    (refs : List SnapshotRef) (cutoff : ℕ) (key : Text)
    → Elem key (plan_retention refs cutoff)
    → (r : SnapshotRef) × Elem r refs × (key ≡ r.key) × (ltb r.captured_at cutoff ≡ true)
unfolding plan_retention superseded
plan_retention-before refs cutoff key m =
    let ordered = sort_by key_less refs in
    let n = before_cutoff cutoff ordered in
    elim (Bool-cases (ltb (length refs) 2)) [
      | inl e ↦ absurd (none_of (subst (Elem key) (rw e refl) m))
      | inr e ↦ elim (Bool-cases (ltb n 2)) [
        | inl few ↦ absurd (none_of (subst (Elem key) (rw (e, few) refl) m))
        | inr many ↦
            let (r, p, q, c) =
              take_keys-before cutoff (n - 1) ordered key (omega arith)
                (subst (Elem key) (rw (e, many) refl) m) in
            (r, Elem-sort_by key_less refs p, q, c)
      ]
    ]
  where
    none_of : Elem key [] → ⊥
    none_of m = elim m [ ]
