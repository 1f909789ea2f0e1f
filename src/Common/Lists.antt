-- ===== src/Common/Lists.antt =====
-- Lists: lengths in native numbers, membership and predicates by recursion, and the loops that
-- the program writes over slices.
use Prim.Native.Nat.{ℕ, suc, ◌+◌}
use mathlib.Core.Path.{◌≡◌, refl, ◌∙◌, sym, subst}
use mathlib.Core.Logic.{◌⊎◌, inl, inr}
use mathlib.Core.Bool.{Bool, true, false, ◌&&◌, ◌||◌}
use mathlib.Core.List.{List, [], ◌∷◌, ◌++◌}
use native.Mathlib.Omega.{arith}
use cnpg_i_chronicle.Common.Tests.{if◌then◌else◌, Bool-cases}

module _ {ℓ} {A : Type ℓ} where
  abbrev pub length : List A → ℕ
  length [] = 0
  length (x ∷ xs) = suc (length xs)

  abbrev pub is_nil : List A → Bool
  is_nil [] = true
  is_nil (x ∷ xs) = false

  -- Whether some item passes the test, and whether all do.
  abbrev pub any : (A → Bool) → List A → Bool
  any p [] = false
  any p (x ∷ xs) = p x || any p xs

  abbrev pub all : (A → Bool) → List A → Bool
  all p [] = true
  all p (x ∷ xs) = p x && all p xs

  abbrev pub keep : (A → Bool) → List A → List A
  keep p [] = []
  keep p (x ∷ xs) = let rest = keep p xs in if p x then x ∷ rest else rest

  pub length-append : (xs ys : List A) → length (xs ++ ys) ≡ length xs + length ys
  length-append [] ys = omega arith
  length-append (x ∷ xs) ys = omega (arith, length-append xs ys)

-- The item stands in the list, with its place kept.
pub data Elem {ℓ} {A : Type ℓ} (a : A) : List A → Type ℓ where
  here : {x : A} {xs : List A} → a ≡ x → Elem a (x ∷ xs)
  there : {x : A} {xs : List A} → Elem a xs → Elem a (x ∷ xs)

-- A predicate of every item.
abbrev pub All {ℓ κ} : {A : Type ℓ} → (A → Type κ) → List A → Type κ
All P [] = Unit
All P (x ∷ xs) = P x × All P xs

-- A relation between every item and each later one.
abbrev pub AllPairs {ℓ κ} : {A : Type ℓ} → (A → A → Type κ) → List A → Type κ
AllPairs R [] = Unit
AllPairs R (x ∷ xs) = All (R x) xs × AllPairs R xs

module _ {ℓ} {A : Type ℓ} where
  pub any-Elem : (p : A → Bool) (a : A) {xs : List A} → Elem a xs → p a ≡ true → any p xs ≡ true
  any-Elem p a (here e) h = ground arith
  any-Elem p a (there m) h = ground (arith, any-Elem p a m h)

  -- What an early return found.
  pub find_any : (p : A → Bool) (xs : List A) → any p xs ≡ true → (a : A) × Elem a xs × (p a ≡ true)
  find_any p [] h = absurd (ground arith)
  find_any p (x ∷ xs) h = elim (Bool-cases (p x)) [
    | inl e ↦ (x, here refl, e)
    | inr e ↦ let (a, m, q) = find_any p xs (ground arith) in (a, there m, q)
  ]

  pub not_any : (p : A → Bool) (a : A) {xs : List A} → any p xs ≡ false → Elem a xs → p a ≡ false
  not_any p a h (here e) = ground arith
  not_any p a h (there m) = not_any p a (ground arith) m

  pub all-Elem : (p : A → Bool) (a : A) {xs : List A} → all p xs ≡ true → Elem a xs → p a ≡ true
  all-Elem p a h (here e) = ground arith
  all-Elem p a h (there m) = all-Elem p a (ground arith) m

  pub Elem-append_left : {a : A} {xs : List A} (ys : List A) → Elem a xs → Elem a (xs ++ ys)
  Elem-append_left ys (here e) = here e
  Elem-append_left ys (there m) = there (Elem-append_left ys m)

  pub Elem-append_right : {a : A} (xs : List A) {ys : List A} → Elem a ys → Elem a (xs ++ ys)
  Elem-append_right [] m = m
  Elem-append_right (x ∷ xs) m = there (Elem-append_right xs m)

  pub Elem-append_cases : {a : A} (xs ys : List A) → Elem a (xs ++ ys) → Elem a xs ⊎ Elem a ys
  Elem-append_cases [] ys m = inr m
  Elem-append_cases (x ∷ xs) ys (here e) = inl (here e)
  Elem-append_cases (x ∷ xs) ys (there m) = elim (Elem-append_cases xs ys m) [
    | inl l ↦ inl (there l)
    | inr r ↦ inr r
  ]

  pub All-Elem {κ} : (P : A → Type κ) {a : A} {xs : List A} → All P xs → Elem a xs → P a
  All-Elem P h (here e) = subst P (sym e) h.0
  All-Elem P h (there m) = All-Elem P h.1 m

  pub All-of_Elem {κ} : (P : A → Type κ) (xs : List A) → ((a : A) → Elem a xs → P a) → All P xs
  All-of_Elem P [] h = tt
  All-of_Elem P (x ∷ xs) h = (h x (here refl), All-of_Elem P xs (λ a m. h a (there m)))

  pub All-append {κ} : (P : A → Type κ) (xs ys : List A) → All P xs → All P ys → All P (xs ++ ys)
  All-append P [] ys h k = k
  All-append P (x ∷ xs) ys h k = (h.0, All-append P xs ys h.1 k)

  -- Two items that stand in a list are one, or related.
  pub AllPairs-Elem {κ} :
      (R : A → A → Type κ) (symmetric : (a b : A) → R a b → R b a) {a b : A} {xs : List A}
      → AllPairs R xs
      → Elem a xs
      → Elem b xs
      → (a ≡ b) ⊎ R a b
  AllPairs-Elem R symmetric h (here e) (here f) = inl (e ∙ sym f)
  AllPairs-Elem R symmetric {a} {b} h (here e) (there n) =
      inr (subst (λ x. R x b) (sym e) (All-Elem (R _) h.0 n))
  AllPairs-Elem R symmetric {a} {b} h (there m) (here f) =
      inr (subst (R a) (sym f) (symmetric _ a (All-Elem (R _) h.0 m)))
  AllPairs-Elem R symmetric h (there m) (there n) = AllPairs-Elem R symmetric h.1 m n
