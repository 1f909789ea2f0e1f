-- ===== src/PathUtil/Access.antt =====
-- What a read finds after a write at a path.
use cnpg_i_chronicle.Common.{
  ◌≡◌, ◌≢◌, refl, sym, ◌∙◌, ◌⊎◌, inl, inr, true, false, Option, none, some, List, [], ◌∷◌, ◌++◌,
  arith, Text, Option-cases, bind_option,
}
use cnpg_i_chronicle.Json.{
  Value, null, boolean, number, string, array, object, Fields, end, lookup, insert, remove, as_map,
  insert_same, lookup-insert_self, lookup-insert_ne, lookup-remove_ne,
}
use cnpg_i_chronicle.PathUtil.{get_from, get_segments, step_into, set_segments}

-- The paths part at some segment: neither is a prefix of the other.
abbrev pub Diverge : List Text → List Text → Type 0
Diverge (s ∷ p) (t ∷ q) = (s ≢ t) ⊎ (s ≡ t) × Diverge p q
Diverge _ _ = ⊥

pub get-cons :
    (obj : Fields) (s t : Text) (ss : List Text)
    → get_segments obj (s ∷ t ∷ ss)
      ≡ bind_option (bind_option (lookup s obj) as_map) (λ m. get_segments m (t ∷ ss))
unfolding get_segments
get-cons obj s t ss = elim (Option-cases (lookup s obj)) [ inl e ↦ rw e | inr (v, e) ↦ rw e (go v) ]
  where
    go :
        (v : Value)
        → get_from v (t ∷ ss) ≡ bind_option (as_map v) (λ m. get_from (object m) (t ∷ ss))
    go null = refl
    go (boolean b) = refl
    go (number n) = refl
    go (string s) = refl
    go (array xs) = refl
    go (object m) = refl

get_from-append :
    (v : Value) (p q : List Text)
    → get_from v (p ++ q) ≡ bind_option (get_from v p) (λ w. get_from w q)
unfolding get_from
get_from-append v [] q = refl
get_from-append v (s ∷ p) q = elim (Option-cases (as_map v)) [
  | inl e ↦ rw e
  | inr (m, e) ↦ elim (Option-cases (lookup s m)) [
    | inl f ↦ rw (e, f)
    | inr (w, f) ↦ rw (e, f) (get_from-append w p q)
  ]
]

-- A read beneath a path is a read in the value at the path.
pub get-append :
    (obj : Fields) (p q : List Text) (v : Value)
    → get_segments obj p ≡ some v
    → get_segments obj (p ++ q) ≡ get_from v q
unfolding get_segments
get-append obj [] q v h = absurd (ground arith)
get-append obj (s ∷ p) q v h = rw (get_from-append (object obj) (s ∷ p) q, h)

pub get-single : (obj : Fields) (s : Text) → get_segments obj (s ∷ []) ≡ lookup s obj
unfolding get_segments
get-single obj s = ground arith

-- The steps of SetSegments at an intermediate segment.
set-blocked :
    (obj : Fields) (s t : Text) (ss : List Text) (v : Value)
    → step_into (lookup s obj) ≡ none
    → set_segments obj (s ∷ t ∷ ss) v ≡ (obj, false)
unfolding set_segments
set-blocked obj s t ss v e = rw (e, set_segments)

set-step :
    (obj : Fields) (s t : Text) (ss : List Text) (v : Value) (m : Fields)
    → step_into (lookup s obj) ≡ some m
    → set_segments obj (s ∷ t ∷ ss) v
      ≡ (insert s (object (set_segments m (t ∷ ss) v).0) obj, (set_segments m (t ∷ ss) v).1)
unfolding set_segments
set-step obj s t ss v m e = rw (e, set_segments)

-- Reads below a key that was written, and beside it.
pub get-insert_map :
    (obj m : Fields) (s t : Text) (q : List Text)
    → get_segments (insert s (object m) obj) (s ∷ t ∷ q) ≡ get_segments m (t ∷ q)
get-insert_map obj m s t q =
    rw (get-cons (insert s (object m) obj) s t q, lookup-insert_self s (object m) obj)

pub get-insert_ne :
    (obj : Fields) (s t : Text) (v : Value) (q : List Text)
    → s ≢ t
    → get_segments (insert s v obj) (t ∷ q) ≡ get_segments obj (t ∷ q)
unfolding get_segments
get-insert_ne obj s t v q h = rw (lookup-insert_ne s t v obj h)

pub get-remove_ne :
    (obj : Fields) (s t : Text) (q : List Text)
    → s ≢ t
    → get_segments (remove s obj) (t ∷ q) ≡ get_segments obj (t ∷ q)
unfolding get_segments
get-remove_ne obj s t q h = rw (lookup-remove_ne s t obj h)

pub get-end : (p : List Text) → get_segments end p ≡ none
unfolding get_segments lookup
get-end [] = refl
get-end (s ∷ p) = refl

-- What a write goes on in holds what a read below the key finds.
below-step_into :
    (o : Option Value) (m : Fields) (q : List Text)
    → step_into o ≡ some m
    → bind_option (bind_option o as_map) (λ w. get_segments w q) ≡ get_segments m q
unfolding step_into
below-step_into (some (object w)) m q e = ground arith
below-step_into _ m q e = ground (arith, get-end q)

get-step_into :
    (obj m : Fields) (s t : Text) (q : List Text)
    → step_into (lookup s obj) ≡ some m
    → get_segments obj (s ∷ t ∷ q) ≡ get_segments m (t ∷ q)
get-step_into obj m s t q e = get-cons obj s t q ∙ below-step_into (lookup s obj) m (t ∷ q) e

-- A write that reports success is read back.
pub get-set :
    (obj : Fields) (path : List Text) (v : Value)
    → (set_segments obj path v).1 ≡ true
    → get_segments (set_segments obj path v).0 path ≡ some v
get-set obj [] v h = absurd (unfold set_segments in ground arith)
get-set obj (s ∷ []) v h =
    unfold set_segments in get-single (insert s v obj) s ∙ lookup-insert_self s v obj
get-set obj (s ∷ t ∷ ss) v h = elim (Option-cases (step_into (lookup s obj))) [
  | inl e ↦ absurd (ground (arith, set-blocked obj s t ss v e))
  | inr (m, e) ↦
      rw (set-step obj s t ss v m e, get-insert_map)
        (get-set m (t ∷ ss) v (ground (arith, set-step obj s t ss v m e)))
]

-- A write leaves every path that parts from its own as it was, whether it succeeds or not. Paths
-- part where neither is a prefix of the other.
pub get-set-Diverge :
    (obj : Fields) (path q : List Text) (v : Value)
    → Diverge path q
    → get_segments (set_segments obj path v).0 q ≡ get_segments obj q
get-set-Diverge obj [] q v h = absurd h
get-set-Diverge obj (s ∷ p) [] v h = absurd h
get-set-Diverge obj (s ∷ []) (t ∷ q) v (inl ne) =
    unfold set_segments in get-insert_ne obj s t v q ne
get-set-Diverge obj (s ∷ []) (t ∷ q) v (inr h) = absurd h.1
get-set-Diverge obj (s ∷ p ∷ ps) (t ∷ q) v (inl ne) =
    elim (Option-cases (step_into (lookup s obj))) [
      | inl e ↦ rw (set-blocked obj s p ps v e)
      | inr (m, e) ↦ rw (set-step obj s p ps v m e) (get-insert_ne obj s t _ q ne)
    ]
get-set-Diverge obj (s ∷ p ∷ ps) (t ∷ []) v (inr h) = absurd h.1
get-set-Diverge obj (s ∷ p ∷ ps) (t ∷ u ∷ q) v (inr h) =
    elim (Option-cases (step_into (lookup s obj))) [
      | inl e ↦ rw (set-blocked obj s p ps v e)
      | inr (m, e) ↦
          rw (set-step obj s p ps v m e, ← h.0, get-insert_map)
            (get-set-Diverge m (p ∷ ps) (u ∷ q) v h.1 ∙ sym (get-step_into obj m s u q e))
    ]

-- A fresh map never blocks a path.
set-end : (s : Text) (ss : List Text) (v : Value) → (set_segments end (s ∷ ss) v).1 ≡ true
set-end s [] v = unfold set_segments in refl
set-end s (t ∷ ss) v =
    rw (set-step end s t ss v end (unfold step_into lookup in refl)) (set-end t ss v)

-- What a blocked write leaves behind, from the value that stood at the first segment.
blocked_below :
    (obj m m' : Fields) (s t : Text) (ss : List Text) (v : Value) (o : Option Value)
    → lookup s obj ≡ o
    → step_into o ≡ some m
    → (set_segments m (t ∷ ss) v).1 ≡ false
    → m' ≡ m
    → insert s (object m') obj ≡ obj
unfolding step_into
blocked_below obj m m' s t ss v (some (object w)) l e h same =
    insert_same s (object m') obj (ground arith)
blocked_below obj m m' s t ss v none l e h same = absurd (ground (arith, set-end t ss v))
blocked_below obj m m' s t ss v (some null) l e h same = absurd (ground (arith, set-end t ss v))
blocked_below obj m m' s t ss v _ l e h same = absurd (ground arith)

-- A write that is refused changes nothing.
pub set-failed :
    (obj : Fields) (path : List Text) (v : Value)
    → (set_segments obj path v).1 ≡ false
    → (set_segments obj path v).0 ≡ obj
set-failed obj [] v h = unfold set_segments in refl
set-failed obj (s ∷ []) v h = absurd (unfold set_segments in ground arith)
set-failed obj (s ∷ t ∷ ss) v h = elim (Option-cases (step_into (lookup s obj))) [
  | inl e ↦ rw (set-blocked obj s t ss v e)
  | inr (m, e) ↦
      let failed : (set_segments m (t ∷ ss) v).1 ≡ false =
        ground (arith, set-step obj s t ss v m e) in
      rw (set-step obj s t ss v m e) (
        blocked_below obj m (set_segments m (t ∷ ss) v).0 s t ss v (lookup s obj) refl e failed
          (set-failed m (t ∷ ss) v failed))
]

pub Diverge-sym : (p q : List Text) → Diverge p q → Diverge q p
Diverge-sym [] q h = absurd h
Diverge-sym (s ∷ p) [] h = absurd h
Diverge-sym (s ∷ p) (t ∷ q) (inl ne) = inl (λ e. ne (sym e))
Diverge-sym (s ∷ p) (t ∷ q) (inr h) = inr (sym h.0, Diverge-sym p q h.1)
