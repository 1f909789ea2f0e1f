-- ===== src/PathUtil/Split.antt =====
-- Splitting and joining dotted paths.
use cnpg_i_chronicle.Common.{
  ℕ, ◌≡◌, ◌≢◌, refl, ap, Bool, true, List, [], ◌∷◌, ◌++◌, arith, ◌==◌, Text, all, not, Bool-cases,
  inl, inr, ◌∙◌, sym, subst, ◌↔◌, ◌⊎◌,
}
use cnpg_i_chronicle.PathUtil.{push_first, split_dots, split, join}

-- No byte of the segment is a dot.
abbrev pub dot_free : Text → Bool
dot_free s = all (λ c. not (c == b'.')) s

-- The joined text does not see where the first byte went.
join-push_first : (c : ℕ) (ws : List Text) → ws ≢ [] → join (push_first c ws) ≡ c ∷ join ws
unfolding join push_first
join-push_first c [] h = absurd (h refl)
join-push_first c (w ∷ []) h = refl
join-push_first c (w ∷ x ∷ ws) h = refl

push_first-ne-nil : (c : ℕ) (ws : List Text) → push_first c ws ≢ []
unfolding push_first
push_first-ne-nil c [] h = cc
push_first-ne-nil c (w ∷ ws) h = cc

split_dots-ne-nil : (s : Text) → split_dots s ≢ []
unfolding split_dots
split_dots-ne-nil [] h = cc
split_dots-ne-nil (c ∷ s) h = ground (arith, push_first-ne-nil c (split_dots s))

join-cons : (s : Text) (ws : List Text) → ws ≢ [] → join (s ∷ ws) ≡ s ++ (b'.' ∷ join ws)
unfolding join
join-cons s [] h = absurd (h refl)
join-cons s (t ∷ ws) h = refl

join-split_dots : (s : Text) → join (split_dots s) ≡ s
unfolding split_dots
join-split_dots [] = unfold join in refl
join-split_dots (c ∷ s) = elim (Bool-cases (c == b'.')) [
  | inl dot ↦
      rw (dot, join-cons [] (split_dots s) (split_dots-ne-nil s), join-split_dots s) (ground arith)
  | inr other ↦
      rw (other, join-push_first c (split_dots s) (split_dots-ne-nil s), join-split_dots s)
]

push_first-dot_free :
    (c : ℕ) (ws : List Text)
    → not (c == b'.') ≡ true
    → all dot_free ws ≡ true
    → all dot_free (push_first c ws) ≡ true
unfolding push_first
push_first-dot_free c [] h k = ground arith
push_first-dot_free c (w ∷ ws) h k = ground arith

split_dots-dot_free : (s : Text) → all dot_free (split_dots s) ≡ true
unfolding split_dots
split_dots-dot_free [] = refl
split_dots-dot_free (c ∷ s) = elim (Bool-cases (c == b'.')) [
  | inl dot ↦ rw (dot, split_dots-dot_free s)
  | inr other ↦
      rw other (push_first-dot_free c (split_dots s) (ground arith) (split_dots-dot_free s))
]

-- A dot-free text stays whole, alone or before a dot.
split_dots_of_dot_free : (s : Text) → dot_free s ≡ true → split_dots s ≡ s ∷ []
unfolding split_dots push_first
split_dots_of_dot_free [] h = refl
split_dots_of_dot_free (c ∷ s) h = ground (arith, split_dots_of_dot_free s (ground arith))

split_dots-append :
    (s r : Text) → dot_free s ≡ true → split_dots (s ++ (b'.' ∷ r)) ≡ s ∷ split_dots r
unfolding split_dots push_first
split_dots-append [] r h = refl
split_dots-append (c ∷ s) r h = ground (arith, split_dots-append s r (ground arith))

split_dots-join :
    (s : Text) (ws : List Text)
    → dot_free s ≡ true
    → all dot_free ws ≡ true
    → split_dots (join (s ∷ ws)) ≡ s ∷ ws
unfolding join
split_dots-join s [] h k = split_dots_of_dot_free s h
split_dots-join s (t ∷ ws) h k =
    split_dots-append s (join (t ∷ ws)) h
    ∙ ap (◌∷◌ s) (split_dots-join t ws (ground arith) (ground arith))

-- Split of the empty path gives no segments. Of any other path it gives the one list of
-- segments, not empty and none of them with a dot, that joins to the path.
pub split_iff :
    (path : Text) (segments : List Text)
    → (split path ≡ segments)
      ↔ ((path ≡ []) × (segments ≡ []))
        ⊎ (path ≢ []) × (segments ≢ []) × (join segments ≡ path) × (all dot_free segments ≡ true)
unfolding split
split_iff [] segments = (
  λ e. inl (refl, sym e),
  λ h. elim h [ inl both ↦ sym both.1 | inr other ↦ absurd (other.0 refl) ],
)
split_iff (c ∷ s) segments = (
  λ e. inr (
    λ k. cc k,
    λ k. split_dots-ne-nil (c ∷ s) (e ∙ k),
    subst (λ ws. join ws ≡ c ∷ s) e (join-split_dots (c ∷ s)),
    subst (λ ws. all dot_free ws ≡ true) e (split_dots-dot_free (c ∷ s)),
  ),
  λ h. elim h [
    | inl both ↦ absurd (cc both.0)
    | inr other ↦ of_joined segments other.1 other.2 other.3
  ],
)
  where
    of_joined :
        (ws : List Text)
        → ws ≢ []
        → join ws ≡ c ∷ s
        → all dot_free ws ≡ true
        → split_dots (c ∷ s) ≡ ws
    of_joined [] n j k = absurd (n refl)
    of_joined (w ∷ ws) n j k =
        ap split_dots (sym j) ∙ split_dots-join w ws (ground arith) (ground arith)
