-- ===== src/PathUtil/Removal.antt =====
-- What a read finds after a deletion at a path, with the pruning of maps that it empties.
use cnpg_i_chronicle.Common.{
  ◌≡◌, ◌≢◌, refl, sym, ◌∙◌, inl, inr, none, some, List, [], ◌∷◌, ◌++◌, arith, Text, Option-cases,
  bind_option, ap, subst, Bool-cases, text_eq, text_eq_iff, text_eq-false,
}
use cnpg_i_chronicle.Json.{Fields, end, field, lookup, remove, as_map, lookup-remove_self}
use cnpg_i_chronicle.PathUtil.{get_segments, prune, delete_segments}
use cnpg_i_chronicle.PathUtil.Access.{
  Diverge, get-cons, get-single, get-insert_map, get-insert_ne, get-remove_ne, get-end,
}

delete-absent :
    (obj : Fields) (s t : Text) (ss : List Text)
    → bind_option (lookup s obj) as_map ≡ none
    → delete_segments obj (s ∷ t ∷ ss) ≡ obj
unfolding delete_segments
delete-absent obj s t ss e = rw (e, delete_segments)

delete-step :
    (obj m : Fields) (s t : Text) (ss : List Text)
    → bind_option (lookup s obj) as_map ≡ some m
    → delete_segments obj (s ∷ t ∷ ss) ≡ prune s (delete_segments m (t ∷ ss)) obj
unfolding delete_segments
delete-step obj m s t ss e = rw (e, delete_segments)

get-remove_self :
    (obj : Fields) (s : Text) (q : List Text) → get_segments (remove s obj) (s ∷ q) ≡ none
unfolding get_segments
get-remove_self obj s q = rw (lookup-remove_self s obj)

-- A pruned map reads below its key as the map that was put there.
get-prune :
    (obj m : Fields) (s t : Text) (q : List Text)
    → get_segments (prune s m obj) (s ∷ t ∷ q) ≡ get_segments m (t ∷ q)
unfolding prune
get-prune obj end s t q = get-remove_self obj s (t ∷ q) ∙ sym (get-end (t ∷ q))
get-prune obj (field k v m) s t q = get-insert_map obj (field k v m) s t q

get-prune_ne :
    (obj m : Fields) (s t : Text) (q : List Text)
    → s ≢ t
    → get_segments (prune s m obj) (t ∷ q) ≡ get_segments obj (t ∷ q)
unfolding prune
get-prune_ne obj end s t q ne = get-remove_ne obj s t q ne
get-prune_ne obj (field k v m) s t q ne = get-insert_ne obj s t _ q ne

-- Nothing is left at or below a deleted path that has segments.
pub get-delete :
    (obj : Fields) (path below : List Text)
    → path ≢ []
    → get_segments (delete_segments obj path) (path ++ below) ≡ none
get-delete obj [] below h = absurd (h refl)
get-delete obj (s ∷ []) below h = unfold delete_segments in get-remove_self obj s below
get-delete obj (s ∷ t ∷ ss) below h = elim (Option-cases (bind_option (lookup s obj) as_map)) [
  | inl e ↦ rw (delete-absent obj s t ss e, get-cons, e)
  | inr (m, e) ↦ rw (delete-step obj m s t ss e, get-prune) (get-delete m (t ∷ ss) below (λ c. cc))
]

-- Pruning included, a deletion leaves every path that parts from its own as it was.
pub get-delete-Diverge :
    (obj : Fields) (path q : List Text)
    → Diverge path q
    → get_segments (delete_segments obj path) q ≡ get_segments obj q
get-delete-Diverge obj [] q h = absurd h
get-delete-Diverge obj (s ∷ p) [] h = absurd h
get-delete-Diverge obj (s ∷ []) (t ∷ q) (inl ne) =
    unfold delete_segments in get-remove_ne obj s t q ne
get-delete-Diverge obj (s ∷ []) (t ∷ q) (inr h) = absurd h.1
get-delete-Diverge obj (s ∷ p ∷ ps) (t ∷ q) (inl ne) =
    elim (Option-cases (bind_option (lookup s obj) as_map)) [
      | inl e ↦ rw (delete-absent obj s p ps e)
      | inr (m, e) ↦ rw (delete-step obj m s p ps e) (get-prune_ne obj _ s t q ne)
    ]
get-delete-Diverge obj (s ∷ p ∷ ps) (t ∷ []) (inr h) = absurd h.1
get-delete-Diverge obj (s ∷ p ∷ ps) (t ∷ u ∷ q) (inr h) =
    elim (Option-cases (bind_option (lookup s obj) as_map)) [
      | inl e ↦ rw (delete-absent obj s p ps e)
      | inr (m, e) ↦
          rw (delete-step obj m s p ps e, ← h.0, get-prune)
            (get-delete-Diverge m (p ∷ ps) (u ∷ q) h.1 ∙ sym (get-cons obj s u q ∙ rw e))
    ]

-- What is absent stays absent: neither the deletion nor its pruning brings a value in.
pub get-delete-none :
    (obj : Fields) (path q : List Text)
    → get_segments obj q ≡ none
    → get_segments (delete_segments obj path) q ≡ none
get-delete-none obj [] q h = unfold delete_segments in h
get-delete-none obj (s ∷ ss) [] h = unfold get_segments in refl
get-delete-none obj (s ∷ []) (t ∷ q) h = elim (Bool-cases (text_eq s t)) [
  | inl e ↦ unfold delete_segments in (rw ((text_eq_iff s t).0 e) (get-remove_self obj t q))
  | inr e ↦ unfold delete_segments in get-remove_ne obj s t q (text_eq-false s t e) ∙ h
]
get-delete-none obj (s ∷ p ∷ ps) (t ∷ q) h =
    elim (Option-cases (bind_option (lookup s obj) as_map)) [
      | inl e ↦ rw (delete-absent obj s p ps e) h
      | inr (m, e) ↦
          rw (delete-step obj m s p ps e)
            (pruned q m (bind_none m) (λ r k. get-delete-none m (p ∷ ps) r k) h e)
    ]
  where
    pruned :
        (r : List Text) (m : Fields)
        → (get_segments obj (s ∷ []) ≡ none → bind_option (lookup s obj) as_map ≡ none)
        → ((r : List Text)
            → get_segments m r ≡ none
            → get_segments (delete_segments m (p ∷ ps)) r ≡ none)
        → get_segments obj (t ∷ r) ≡ none
        → bind_option (lookup s obj) as_map ≡ some m
        → get_segments (prune s (delete_segments m (p ∷ ps)) obj) (t ∷ r) ≡ none
    pruned r m single below k e = elim (Bool-cases (text_eq s t)) [
      | inr ne ↦ get-prune_ne obj _ s t r (text_eq-false s t ne) ∙ k
      | inl same ↦
          subst (λ x. get_segments (prune s (delete_segments m (p ∷ ps)) obj) (x ∷ r) ≡ none)
            ((text_eq_iff s t).0 same)
            (at_key r
              (subst (λ x. get_segments obj (x ∷ r) ≡ none) (sym ((text_eq_iff s t).0 same)) k))
    ]
      where
        at_key :
            (r : List Text)
            → get_segments obj (s ∷ r) ≡ none
            → get_segments (prune s (delete_segments m (p ∷ ps)) obj) (s ∷ r) ≡ none
        at_key [] k = absurd (ground (arith, single k))
        at_key (u ∷ r) k =
            get-prune obj _ s u r
            ∙ below (u ∷ r) (
                sym (ap (λ o. bind_option o (λ m. get_segments m (u ∷ r))) e)
                ∙ sym (get-cons obj s u r)
                ∙ k)

    bind_none :
        (m : Fields) → get_segments obj (s ∷ []) ≡ none → bind_option (lookup s obj) as_map ≡ none
    bind_none m k = rw (sym (get-single obj s) ∙ k)
