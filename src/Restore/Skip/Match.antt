-- ===== src/Restore/Skip/Match.antt =====
-- Which paths a skip rule (internal/restore/skip.go) takes in.
use cnpg_i_chronicle.Common.{
  ◌≡◌, refl, sym, ◌∙◌, ◌⊎◌, ◌↔◌, inl, inr, Bool, true, false, not, ◌&&◌, ◌||◌, Option, none, some,
  ◌++◌, arith, Text, codes, text_eq, text_eq_iff, has_prefix, has_prefix_iff, cut_prefix,
  cut_prefix_iff, contains, and_true, or_true, true≢false, Bool-cases,
}
use cnpg_i_chronicle.Restore.Skip.{CompiledSkip, matches}

-- A rule on keys takes in the keys of its map that have the prefix and are no exception; an exact
-- rule its path; any other rule its path and what is beneath.
abbrev pub Within : CompiledSkip → Text → Type 0
Within rule path =
    (rule.keyed ≡ true)
      × ((key : Text) × (path ≡ (rule.path ++ codes ".") ++ key)
          × (has_prefix key rule.key_prefix ≡ true)
          × (contains rule.except key ≡ false))
    ⊎ (rule.keyed ≡ false)
      × ((path ≡ rule.path)
          ⊎ (rule.exact ≡ false) × ((rest : Text) × (path ≡ (rule.path ++ codes ".") ++ rest)))

matches-keyed :
    (rule : CompiledSkip) (path key : Text)
    → rule.keyed ≡ true
    → path ≡ (rule.path ++ codes ".") ++ key
    → matches rule path ≡ (has_prefix key rule.key_prefix && not (contains rule.except key))
unfolding matches
matches-keyed rule path key k e = rw (k, (cut_prefix_iff path (rule.path ++ codes ".") key).1 e)

matches-outside :
    (rule : CompiledSkip) (path : Text)
    → rule.keyed ≡ true
    → cut_prefix path (rule.path ++ codes ".") ≡ none
    → matches rule path ≡ false
unfolding matches
matches-outside rule path k e = rw (k, e)

matches-exact :
    (rule : CompiledSkip) (path : Text)
    → rule.keyed ≡ false
    → rule.exact ≡ true
    → matches rule path ≡ text_eq path rule.path
unfolding matches
matches-exact rule path k e = rw (k, e)

matches-plain :
    (rule : CompiledSkip) (path : Text)
    → rule.keyed ≡ false
    → rule.exact ≡ false
    → matches rule path ≡ (text_eq path rule.path || has_prefix path (rule.path ++ codes "."))
unfolding matches
matches-plain rule path k e = rw (k, e)

matches-Within : (rule : CompiledSkip) (path : Text) → matches rule path ≡ true → Within rule path
matches-Within rule path h = elim (Bool-cases rule.keyed) [
  | inl k ↦ inl (k, keyed (cut_prefix path (rule.path ++ codes ".")) refl k)
  | inr k ↦ elim (Bool-cases rule.exact) [
    | inl e ↦ inr (k, inl ((text_eq_iff path rule.path).0 (sym (matches-exact rule path k e) ∙ h)))
    | inr e ↦ inr (
      k,
      elim (or_true _ _ (sym (matches-plain rule path k e) ∙ h)) [
        | inl same ↦ inl ((text_eq_iff path rule.path).0 same)
        | inr beneath ↦ inr (e, (has_prefix_iff path (rule.path ++ codes ".")).0 beneath)
      ],
    )
  ]
]
  where
    keyed :
        (o : Option Text)
        → cut_prefix path (rule.path ++ codes ".") ≡ o
        → rule.keyed ≡ true
        → (key : Text) × (path ≡ (rule.path ++ codes ".") ++ key)
          × (has_prefix key rule.key_prefix ≡ true)
          × (contains rule.except key ≡ false)
    keyed none e k = absurd (true≢false (sym h ∙ matches-outside rule path k e))
    keyed (some key) e k =
        let at = (cut_prefix_iff path (rule.path ++ codes ".") key).0 e in
        let (p, q) = and_true _ _ (sym (matches-keyed rule path key k at) ∙ h) in
        (key, at, p, of_not (contains rule.except key) q)
      where
        of_not : (b : Bool) → not b ≡ true → b ≡ false
        of_not b n = ground arith

Within-matches : (rule : CompiledSkip) (path : Text) → Within rule path → matches rule path ≡ true
Within-matches rule path (inl (k, (key, e, p, c))) = rw (matches-keyed rule path key k e, p, c)
Within-matches rule path (inr (k, w)) = elim (Bool-cases rule.exact) [
  | inl e ↦ rw (matches-exact rule path k e) (at_exact w e)
  | inr e ↦ rw (matches-plain rule path k e) (at_plain w)
]
  where
    at_exact :
        (path ≡ rule.path)
          ⊎ (rule.exact ≡ false) × ((rest : Text) × (path ≡ (rule.path ++ codes ".") ++ rest))
        → rule.exact ≡ true
        → text_eq path rule.path ≡ true
    at_exact (inl s) e = (text_eq_iff path rule.path).1 s
    at_exact (inr (f, _)) e = absurd (true≢false (sym e ∙ f))

    at_plain :
        (path ≡ rule.path)
          ⊎ (rule.exact ≡ false) × ((rest : Text) × (path ≡ (rule.path ++ codes ".") ++ rest))
        → (text_eq path rule.path || has_prefix path (rule.path ++ codes ".")) ≡ true
    at_plain (inl s) = rw ((text_eq_iff path rule.path).1 s)
    at_plain (inr (f, (rest, e))) =
        ground (arith, (has_prefix_iff path (rule.path ++ codes ".")).1 (rest, e))

-- A rule matches a path just where the path lies within what the rule describes: a rule on keys
-- takes in the keys of its map that have its prefix and are no exception, an exact rule its path
-- alone, and any other rule its path and what is beneath.
pub matches_iff :
    (rule : CompiledSkip) (path : Text) → (matches rule path ≡ true) ↔ Within rule path
matches_iff rule path = (matches-Within rule path, Within-matches rule path)
