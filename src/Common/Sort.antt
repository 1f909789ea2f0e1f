-- ===== src/Common/Sort.antt =====
-- sort.Strings, sort.Slice and slices.Sorted: insertion by a Boolean order, where an item goes
-- before the first that it precedes.
use mathlib.Core.Path.{◌≡◌, sym, subst}
use mathlib.Core.Logic.{◌⊎◌, inl, inr}
use mathlib.Core.Bool.{Bool}
use mathlib.Core.List.{List, [], ◌∷◌, Perm}
use mathlib.Core.List.Perm
use cnpg_i_chronicle.Common.Tests.{if◌then◌else◌, Bool-cases}
use cnpg_i_chronicle.Common.Lists.{Elem, here, there, All, AllPairs, All-Elem, All-of_Elem}

module _ {ℓ} {A : Type ℓ} (less : A → A → Bool) where
  unfoldable pub insert_sorted : A → List A → List A
  insert_sorted a [] = a ∷ []
  insert_sorted a (b ∷ xs) =
      let rest = insert_sorted a xs in if less a b then a ∷ b ∷ xs else b ∷ rest

  unfoldable pub sort_by : List A → List A
  unfolding insert_sorted
  sort_by [] = []
  sort_by (a ∷ xs) = insert_sorted a (sort_by xs)

  insert_sorted-perm : (a : A) (xs : List A) → Perm (insert_sorted a xs) (a ∷ xs)
  unfolding insert_sorted
  insert_sorted-perm a [] = Perm.refl (a ∷ [])
  insert_sorted-perm a (b ∷ xs) = elim (Bool-cases (less a b)) [
    | inl e ↦ rw e (Perm.refl (a ∷ b ∷ xs))
    | inr e ↦ rw e (Perm.trans (Perm.cons b (insert_sorted-perm a xs)) (Perm.swap a b xs))
  ]

  -- Sorting keeps the items, as often as they stand.
  pub sort_by-perm : (xs : List A) → Perm (sort_by xs) xs
  unfolding sort_by
  sort_by-perm [] = Perm.refl []
  sort_by-perm (a ∷ xs) =
      Perm.trans (insert_sorted-perm a (sort_by xs)) (Perm.cons a (sort_by-perm xs))

  insert_sorted-cases :
      (a c : A) (xs : List A)
      → (insert_sorted a (c ∷ xs) ≡ a ∷ c ∷ xs)
        ⊎ (insert_sorted a (c ∷ xs) ≡ c ∷ insert_sorted a xs)
  unfolding insert_sorted
  insert_sorted-cases a c xs = elim (Bool-cases (less a c)) [
    | inl e ↦ inl (rw e)
    | inr e ↦ inr (rw e)
  ]

  insert_sorted-Elem : {b : A} (a : A) (xs : List A) → Elem b (a ∷ xs) → Elem b (insert_sorted a xs)
  insert_sorted-Elem a [] m = unfold insert_sorted in m
  insert_sorted-Elem a (c ∷ xs) m = elim (insert_sorted-cases a c xs) [
    | inl e ↦ rw e m
    | inr e ↦ rw e (below m (λ k. insert_sorted-Elem a xs k))
  ]
    where
      below :
          {b : A}
          → Elem b (a ∷ c ∷ xs)
          → (Elem b (a ∷ xs) → Elem b (insert_sorted a xs))
          → Elem b (c ∷ insert_sorted a xs)
      below (here e) rec = there (rec (here e))
      below (there (here e)) rec = here e
      below (there (there m)) rec = there (rec (there m))

  pub Elem-insert_sorted :
      {b : A} (a : A) (xs : List A) → Elem b (insert_sorted a xs) → Elem b (a ∷ xs)
  Elem-insert_sorted a [] m = unfold insert_sorted in m
  Elem-insert_sorted {b} a (c ∷ xs) m = elim (insert_sorted-cases a c xs) [
    | inl e ↦ subst (Elem b) e m
    | inr e ↦ below (subst (Elem b) e m) (λ k. Elem-insert_sorted a xs k)
  ]
    where
      below :
          Elem b (c ∷ insert_sorted a xs)
          → (Elem b (insert_sorted a xs) → Elem b (a ∷ xs))
          → Elem b (a ∷ c ∷ xs)
      below (here e) rec = there (here e)
      below (there m) rec = past (rec m)
        where
          past : Elem b (a ∷ xs) → Elem b (a ∷ c ∷ xs)
          past (here e) = here e
          past (there m) = there (there m)

  -- The sorted list has the items of the list.
  pub sort_by-Elem : {b : A} (xs : List A) → Elem b xs → Elem b (sort_by xs)
  unfolding sort_by
  sort_by-Elem [] m = elim m [ ]
  sort_by-Elem (a ∷ xs) (here e) = insert_sorted-Elem a (sort_by xs) (here e)
  sort_by-Elem (a ∷ xs) (there m) = insert_sorted-Elem a (sort_by xs) (there (sort_by-Elem xs m))

  pub Elem-sort_by : {b : A} (xs : List A) → Elem b (sort_by xs) → Elem b xs
  unfolding sort_by
  Elem-sort_by [] m = m
  Elem-sort_by {b} (a ∷ xs) m = past (Elem-insert_sorted a (sort_by xs) m) (λ k. Elem-sort_by xs k)
    where
      past : Elem b (a ∷ sort_by xs) → (Elem b (sort_by xs) → Elem b xs) → Elem b (a ∷ xs)
      past (here e) rec = here e
      past (there m) rec = there (rec m)

  module _ {κ} (R : A → A → Type κ) (symmetric : (a b : A) → R a b → R b a) where
    insert_sorted-AllPairs :
        (a : A) (xs : List A) → All (R a) xs → AllPairs R xs → AllPairs R (insert_sorted a xs)
    insert_sorted-AllPairs a [] h k = unfold insert_sorted in (tt, tt)
    insert_sorted-AllPairs a (c ∷ xs) h k = elim (insert_sorted-cases a c xs) [
      | inl e ↦ rw e (h, k)
      | inr e ↦ rw e (
        All-of_Elem (R c) (insert_sorted a xs) (λ b m. beside b (Elem-insert_sorted a xs m)),
        insert_sorted-AllPairs a xs h.1 k.1,
      )
    ]
      where
        beside : (b : A) → Elem b (a ∷ xs) → R c b
        beside b (here e) = subst (R c) (sym e) (symmetric a c h.0)
        beside b (there m) = All-Elem (R c) k.0 m

    -- A symmetric relation between all pairs survives sorting.
    pub sort_by-AllPairs : (xs : List A) → AllPairs R xs → AllPairs R (sort_by xs)
    unfolding sort_by
    sort_by-AllPairs [] h = tt
    sort_by-AllPairs (a ∷ xs) h =
        insert_sorted-AllPairs a (sort_by xs)
          (All-of_Elem (R a) (sort_by xs) (λ b m. All-Elem (R a) h.0 (Elem-sort_by xs m)))
          (sort_by-AllPairs xs h.1)
