-- ===== src/Restore/Select/Newest.antt =====
-- SelectAtOrBefore (internal/restore/select.go) over the order of a listing (sortRefs of
-- internal/store/snapshots.go).
use cnpg_i_chronicle.Common.{
  ℕ, ◌≤◌, ◌<◌, ◌≡◌, refl, sym, subst, inl, inr, true, false, Option, none, some, List, [], ◌∷◌,
  arith, ltb, Bool-cases, Elem, here, there, All, AllPairs, All-Elem, All-of_Elem,
}
use cnpg_i_chronicle.Common.Sort.{
  insert_sorted, sort_by, sort_by-Elem, Elem-sort_by, Elem-insert_sorted,
}
use cnpg_i_chronicle.Store.Refs.{SnapshotRef, ref_less, sort_refs}
use cnpg_i_chronicle.Restore.Select.{at_or_before}

-- No ref was captured before one that stands earlier.
abbrev pub NotBefore : SnapshotRef → SnapshotRef → Type 0
NotBefore a b = a.captured_at ≤ b.captured_at

abbrev pub Rising : List SnapshotRef → Type 0
Rising refs = AllPairs NotBefore refs

ref_less-true : (a b : SnapshotRef) → ref_less a b ≡ true → NotBefore a b
unfolding ref_less
ref_less-true a b h = ground arith

ref_less-false : (a b : SnapshotRef) → ref_less a b ≡ false → NotBefore b a
unfolding ref_less
ref_less-false a b h = ground arith

All-earlier :
    (a b : SnapshotRef) (refs : List SnapshotRef)
    → NotBefore a b
    → All (NotBefore b) refs
    → All (NotBefore a) refs
All-earlier a b [] le h = tt
All-earlier a b (c ∷ refs) le h = (omega (arith, h.0), All-earlier a b refs le h.1)

All-insert_sorted :
    (a b : SnapshotRef) (refs : List SnapshotRef)
    → NotBefore b a
    → All (NotBefore b) refs
    → All (NotBefore b) (insert_sorted ref_less a refs)
All-insert_sorted a b refs le h =
    All-of_Elem (NotBefore b) (insert_sorted ref_less a refs)
      (λ c m. All-Elem (NotBefore b) {xs = a ∷ refs} (le, h) (Elem-insert_sorted ref_less a refs m))

insert_step :
    (a b : SnapshotRef) (refs : List SnapshotRef)
    → Rising (b ∷ refs)
    → Rising (insert_sorted ref_less a refs)
    → Rising (insert_sorted ref_less a (b ∷ refs))
insert_step a b refs h rest = elim (Bool-cases (ref_less a b)) [
  | inl e ↦
      unfold insert_sorted in
      rw e ((ref_less-true a b e, All-earlier a b refs (ref_less-true a b e) h.0), h)
  | inr e ↦
      unfold insert_sorted in rw e (All-insert_sorted a b refs (ref_less-false a b e) h.0, rest)
]

insert_sorted-Rising :
    (a : SnapshotRef) (refs : List SnapshotRef)
    → Rising refs
    → Rising (insert_sorted ref_less a refs)
insert_sorted-Rising a [] h = unfold insert_sorted in (tt, tt)
insert_sorted-Rising a (b ∷ refs) h = insert_step a b refs h (insert_sorted-Rising a refs h.1)

pub sort_refs-Rising : (refs : List SnapshotRef) → Rising (sort_refs refs)
unfolding sort_refs sort_by
sort_refs-Rising [] = tt
sort_refs-Rising (a ∷ refs) = insert_sorted-Rising a (sort_by ref_less refs) (sort_refs-Rising refs)

-- The newest of the refs that are not after the moment.
abbrev pub NewestAt : ℕ → List SnapshotRef → SnapshotRef → Type 0
NewestAt moment refs ref =
    Elem ref refs
    × ref.captured_at ≤ moment
    × ((other : SnapshotRef)
        → Elem other refs
        → other.captured_at ≤ moment
        → other.captured_at ≤ ref.captured_at)

-- What the loop may answer: the newest, or nothing where every ref is after the moment.
abbrev pub Answered : ℕ → List SnapshotRef → Option SnapshotRef → Type 0
Answered moment refs none = (ref : SnapshotRef) → Elem ref refs → moment < ref.captured_at
Answered moment refs (some ref) = NewestAt moment refs ref

at_or_before_step :
    (moment : ℕ) (a : SnapshotRef) (refs : List SnapshotRef) (o : Option SnapshotRef)
    → All (NotBefore a) refs
    → a.captured_at ≤ moment
    → Answered moment refs o
    → Answered moment (a ∷ refs) (some (elim o [ some found ↦ found | none ↦ a ]))
at_or_before_step moment a refs none first le h = (here refl, le, λ other m k. of_other m k)
  where
    of_other :
        {other : SnapshotRef}
        → Elem other (a ∷ refs)
        → other.captured_at ≤ moment
        → other.captured_at ≤ a.captured_at
    of_other (here e) k = ground arith
    of_other (there m) k = absurd (ground (arith, h _ m))
at_or_before_step moment a refs (some found) first le h =
    (there h.0, h.1, λ other m k. of_other m k)
  where
    of_other :
        {other : SnapshotRef}
        → Elem other (a ∷ refs)
        → other.captured_at ≤ moment
        → other.captured_at ≤ found.captured_at
    of_other (here e) k = ground (arith, All-Elem (NotBefore a) first h.0)
    of_other (there m) k = h.2 _ m k

at_or_before-Answered :
    (moment : ℕ) (refs : List SnapshotRef)
    → Rising refs
    → Answered moment refs (at_or_before moment refs)
at_or_before-Answered moment [] h = unfold at_or_before in λ ref m. elim m [ ]
at_or_before-Answered moment (a ∷ refs) h = elim (Bool-cases (ltb moment a.captured_at)) [
  | inl e ↦ unfold at_or_before in rw e (λ ref m. later ref m (ground arith))
  | inr e ↦ subst (Answered moment (a ∷ refs)) (sym (step (at_or_before moment refs) refl e)) (
      at_or_before_step moment a refs (at_or_before moment refs) h.0 (ground arith)
        (at_or_before-Answered moment refs h.1))
]
  where
    later :
        (ref : SnapshotRef)
        → Elem ref (a ∷ refs)
        → moment < a.captured_at
        → moment < ref.captured_at
    later ref (here e) k = ground arith
    later ref (there m) k = ground (arith, All-Elem (NotBefore a) h.0 m)

    step :
        (o : Option SnapshotRef)
        → at_or_before moment refs ≡ o
        → ltb moment a.captured_at ≡ false
        → at_or_before moment (a ∷ refs) ≡ some (elim o [ some found ↦ found | none ↦ a ])
    step none k e = unfold at_or_before in rw (e, k)
    step (some r) k e = unfold at_or_before in rw (e, k)

All-sorted :
    (moment : ℕ) (refs : List SnapshotRef) (o : Option SnapshotRef)
    → Answered moment (sort_refs refs) o
    → Answered moment refs o
unfolding sort_refs
All-sorted moment refs none h = λ ref m. h ref (sort_by-Elem ref_less refs m)
All-sorted moment refs (some r) h =
    (Elem-sort_by ref_less refs h.0, h.1, λ other m k. h.2 other (sort_by-Elem ref_less refs m) k)

-- Whatever refs a store holds, the loop over their listing answers with the newest that is not after
-- the moment, and with nothing only where all of them are after it.
pub sort_refs-at_or_before :
    (moment : ℕ) (refs : List SnapshotRef)
    → Answered moment refs (at_or_before moment (sort_refs refs))
sort_refs-at_or_before moment refs =
    All-sorted moment refs _ (at_or_before-Answered moment (sort_refs refs) (sort_refs-Rising refs))
