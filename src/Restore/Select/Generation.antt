-- ===== src/Restore/Select/Generation.antt =====
-- selectByGeneration (internal/restore/select.go) over the order of a listing.
use cnpg_i_chronicle.Common.{
  ℕ, ◌≤◌, ◌≡◌, refl, sym, subst, inl, inr, false, Option, none, some, List, [], ◌∷◌, arith, ◌==◌,
  ==_iff, if◌then◌else◌, Bool-cases, Elem, here, there, All-Elem,
}
use cnpg_i_chronicle.Common.Sort.{sort_by-Elem, Elem-sort_by}
use cnpg_i_chronicle.Store.Refs.{SnapshotRef, ref_less, sort_refs}
use cnpg_i_chronicle.Restore.Select.{last_at_generation}
use cnpg_i_chronicle.Restore.Select.Newest.{NotBefore, Rising, sort_refs-Rising}

-- What the loop may answer: the newest ref of the generation, or nothing where there is none.
abbrev pub GenerationAnswered : ℕ → List SnapshotRef → Option SnapshotRef → Type 0
GenerationAnswered generation refs none =
    (ref : SnapshotRef) → Elem ref refs → (ref.generation == generation) ≡ false
GenerationAnswered generation refs (some ref) =
    Elem ref refs
    × (ref.generation ≡ generation)
    × ((other : SnapshotRef)
        → Elem other refs
        → other.generation ≡ generation
        → other.captured_at ≤ ref.captured_at)

last_at_generation-GenerationAnswered :
    (generation : ℕ) (refs : List SnapshotRef)
    → Rising refs
    → GenerationAnswered generation refs (last_at_generation generation refs)
unfolding last_at_generation
last_at_generation-GenerationAnswered generation [] h = λ ref m. elim m [ ]
last_at_generation-GenerationAnswered generation (a ∷ refs) h =
    from (last_at_generation generation refs)
      (last_at_generation-GenerationAnswered generation refs h.1)
  where
    from :
        (o : Option SnapshotRef)
        → GenerationAnswered generation refs o
        → GenerationAnswered generation (a ∷ refs) (elim o [
          | some later ↦ some later
          | none ↦ if a.generation == generation then some a else none
        ])
    from (some later) k = (there k.0, k.1, λ other m e. of_other later k.0 (k.2 other) m e)
      where
        of_other :
            (later : SnapshotRef) {other : SnapshotRef}
            → Elem later refs
            → (Elem other refs
                → other.generation ≡ generation
                → other.captured_at ≤ later.captured_at)
            → Elem other (a ∷ refs)
            → other.generation ≡ generation
            → other.captured_at ≤ later.captured_at
        of_other later l rec (here e) g = ground (arith, All-Elem (NotBefore a) h.0 l)
        of_other later l rec (there m) g = rec m g
    from none k = elim (Bool-cases (a.generation == generation)) [
      | inl e ↦ rw e (here refl, (==_iff a.generation generation).0 e, λ other m g. only m g)
      | inr e ↦ rw e (λ ref m. absent m e)
    ]
      where
        only :
            {other : SnapshotRef}
            → Elem other (a ∷ refs)
            → other.generation ≡ generation
            → other.captured_at ≤ a.captured_at
        only (here e) g = ground arith
        only (there m) g = absurd (ground (arith, k _ m))

        absent :
            {ref : SnapshotRef}
            → Elem ref (a ∷ refs)
            → (a.generation == generation) ≡ false
            → (ref.generation == generation) ≡ false
        absent (here e) f =
            subst (λ (r : SnapshotRef). (r.generation == generation) ≡ false) (sym e) f
        absent (there m) f = k _ m

unsorted :
    (generation : ℕ) (refs : List SnapshotRef) (o : Option SnapshotRef)
    → GenerationAnswered generation (sort_refs refs) o
    → GenerationAnswered generation refs o
unfolding sort_refs
unsorted generation refs none h = λ ref m. h ref (sort_by-Elem ref_less refs m)
unsorted generation refs (some r) h =
    (Elem-sort_by ref_less refs h.0, h.1, λ other m k. h.2 other (sort_by-Elem ref_less refs m) k)

-- Whatever refs a store holds, the loop over their listing answers with the newest at the
-- generation, and with nothing only where none is at it.
pub sort_refs-last_at_generation :
    (generation : ℕ) (refs : List SnapshotRef)
    → GenerationAnswered generation refs (last_at_generation generation (sort_refs refs))
sort_refs-last_at_generation generation refs =
    unsorted generation refs _
      (last_at_generation-GenerationAnswered generation (sort_refs refs) (sort_refs-Rising refs))
