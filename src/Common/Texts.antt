-- ===== src/Common/Texts.antt =====
-- Go strings are sequences of bytes: a text is the list of its bytes. The operations of package
-- strings that the program calls, with the equations that they are used by.
use Prim.Native.Nat.{ℕ}
use Prim.Native.Char.{code}
use Prim.Native.String.{String}
use mathlib.Core.Path.{◌≡◌, refl, sym, subst, ap, ◌∙◌}
use mathlib.Core.Logic.{◌↔◌, ◌≢◌}
use mathlib.Core.Bool.{Bool, true, false, not, ◌&&◌, ◌||◌}
use mathlib.Core.Option.{Option, none, some}
use mathlib.Core.List.{List, [], ◌∷◌, ◌++◌, reverse, reverse-append, reverse-reverse}
use native.Mathlib.Omega.{arith}
use cnpg_i_chronicle.Common.Tests.{ltb, ◌==◌, if◌then◌else◌}
use cnpg_i_chronicle.Common.Lists.{any, all}

abbrev pub Text : Type 0
Text = List ℕ

-- The bytes of an ASCII literal.
abbrev pub codes : String → Text
codes String.[] = []
codes (String.◌∷◌ c s) = code c ∷ codes s

unfoldable pub text_eq : Text → Text → Bool
text_eq [] [] = true
text_eq (c ∷ s) (d ∷ t) = c == d && text_eq s t
text_eq _ _ = false

-- The byte order, which Go's < on strings and sort.Strings use.
unfoldable pub text_lt : Text → Text → Bool
text_lt s [] = false
text_lt [] (d ∷ t) = true
text_lt (c ∷ s) (d ∷ t) = ltb c d || (c == d && text_lt s t)

-- strings.CutPrefix(s, prefix)
unfoldable pub cut_prefix : Text → Text → Option Text
cut_prefix s [] = some s
cut_prefix [] (d ∷ p) = none
cut_prefix (c ∷ s) (d ∷ p) = if c == d then cut_prefix s p else none

-- strings.HasPrefix(s, prefix)
unfoldable pub has_prefix : Text → Text → Bool
has_prefix s [] = true
has_prefix [] (d ∷ p) = false
has_prefix (c ∷ s) (d ∷ p) = c == d && has_prefix s p

-- strings.HasSuffix(s, suffix)
unfoldable pub has_suffix : Text → Text → Bool
unfolding has_prefix
has_suffix s p = has_prefix (reverse s) (reverse p)

-- strings.Cut(s, sep) at a separator of one byte; `none` where it is absent.
unfoldable pub cut_at : ℕ → Text → Option (Text × Text)
cut_at sep [] = none
cut_at sep (c ∷ s) =
    let rest = cut_at sep s in
    if c == sep then some ([], s) else elim rest [ none ↦ none | some (a, b) ↦ some (c ∷ a, b) ]

-- strings.TrimSuffix(s, suffix)
unfoldable pub trim_suffix : Text → Text → Text
unfolding cut_prefix
trim_suffix s p = elim (cut_prefix (reverse s) (reverse p)) [ none ↦ s | some r ↦ reverse r ]

-- slices.Contains over strings
abbrev pub contains : List Text → Text → Bool
contains xs s = any (λ x. text_eq x s) xs

pub text_eq_iff : (s t : Text) → (text_eq s t ≡ true) ↔ (s ≡ t)
unfolding text_eq
text_eq_iff [] [] = ground arith
text_eq_iff [] (d ∷ t) = ground arith
text_eq_iff (c ∷ s) [] = ground arith
text_eq_iff (c ∷ s) (d ∷ t) = ground (arith, text_eq_iff s t)

pub text_eq_refl : (s : Text) → text_eq s s ≡ true
text_eq_refl s = (text_eq_iff s s).1 refl

pub has_prefix_iff : (s p : Text) → (has_prefix s p ≡ true) ↔ ((r : Text) × (s ≡ p ++ r))
unfolding has_prefix
has_prefix_iff s [] = (λ h. (s, refl), λ h. refl)
has_prefix_iff [] (d ∷ p) = (λ h. absurd (ground arith), λ h. absurd (ground (arith, h.1)))
has_prefix_iff (c ∷ s) (d ∷ p) = (
  λ h. let (r, e) = (has_prefix_iff s p).0 (ground arith) in (r, ground arith),
  λ h. ground (arith, h.1, (has_prefix_iff s p).1 (h.0, ground (arith, h.1))),
)

pub cut_prefix_iff : (s p r : Text) → (cut_prefix s p ≡ some r) ↔ (s ≡ p ++ r)
unfolding cut_prefix
cut_prefix_iff s [] r = ground arith
cut_prefix_iff [] (d ∷ p) r = ground arith
cut_prefix_iff (c ∷ s) (d ∷ p) r = ground (arith, cut_prefix_iff s p r)

pub has_prefix-append : (p r : Text) → has_prefix (p ++ r) p ≡ true
has_prefix-append p r = (has_prefix_iff (p ++ r) p).1 (r, refl)

pub text_eq-false : (s t : Text) → text_eq s t ≡ false → s ≢ t
text_eq-false s t h =
    λ e. absurd (ground (arith, text_eq_refl s, subst (λ u. text_eq s u ≡ false) (sym e) h))

pub has_suffix_iff : (s p : Text) → (has_suffix s p ≡ true) ↔ ((r : Text) × (s ≡ r ++ p))
unfolding has_suffix
has_suffix_iff s p = (
  λ h.
      let (r, e) = (has_prefix_iff (reverse s) (reverse p)).0 h in
      (
        reverse r,
        sym (reverse-reverse s)
            ∙ ap reverse e
            ∙ reverse-append (reverse p) r
            ∙ ap (◌++◌ (reverse r)) (reverse-reverse p),
      ),
  λ h.
      (has_prefix_iff (reverse s) (reverse p)).1
        (reverse h.0, ap reverse h.1 ∙ reverse-append h.0 p),
)

-- strings.Cut cuts at the first separator.
pub cut_at_iff :
    (sep : ℕ) (s a b : Text)
    → (cut_at sep s ≡ some (a, b)) ↔ ((s ≡ a ++ (sep ∷ b)) × (all (λ c. not (c == sep)) a ≡ true))
unfolding cut_at
cut_at_iff sep [] [] b = ground arith
cut_at_iff sep [] (d ∷ a) b = ground arith
cut_at_iff sep (c ∷ s) [] b = ground arith
cut_at_iff sep (c ∷ s) (d ∷ a) b = ground (arith, cut_at_iff sep s a b)
