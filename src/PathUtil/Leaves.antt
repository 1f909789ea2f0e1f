-- ===== src/PathUtil/Leaves.antt =====
-- The leaves of a tree: where each stands, that none is missed, and that no two get in each
-- other's way.
use cnpg_i_chronicle.Common.{
  ◌≡◌, ◌≢◌, refl, sym, ap, ◌∙◌, inl, inr, Bool, true, false, none, some, List, [], ◌∷◌, ◌++◌, arith,
  Text, text_eq, Bool-cases, text_eq_iff, text_eq_refl, append-nil, append_assoc, Elem, here, there,
  AllPairs, Elem-append_left, Elem-append_right, Elem-append_cases, All-of_Elem, All-append,
}
use cnpg_i_chronicle.Json.{
  Value, null, boolean, number, string, array, object, Fields, end, field, lookup, as_map, distinct,
  distinct_value,
}
use cnpg_i_chronicle.PathUtil.{get_from, get_segments, Leaf, walk_fields, walk_value, walk_leaves}
use cnpg_i_chronicle.PathUtil.Access.{Diverge}

abbrev pub leaf_at : List Text → Value → Leaf
leaf_at segments v = record { segments = segments; value = v }

-- Where a leaf stands below a value, and below a map.
abbrev Below : Value → List Text → Leaf → Type 0
Below v prefix leaf =
    (rel : List Text) × (leaf.segments ≡ prefix ++ rel) × (get_from v rel ≡ some leaf.value)

abbrev BelowKey : Fields → List Text → Leaf → Type 0
BelowKey m prefix leaf =
    (s : Text) × (rel : List Text) × (leaf.segments ≡ prefix ++ (s ∷ rel))
    × (get_from (object m) (s ∷ rel) ≡ some leaf.value)

Below-here :
    (k : Text) (v : Value) (m : Fields) (prefix : List Text) (leaf : Leaf)
    → Below v (prefix ++ (k ∷ [])) leaf
    → BelowKey (field k v m) prefix leaf
unfolding get_from lookup
Below-here k v m prefix leaf (rel, e, g) =
    (k, rel, e ∙ append_assoc prefix (k ∷ []) rel, ground (arith, text_eq_refl k))

Below-there :
    (k : Text) (v : Value) (m : Fields) (prefix : List Text) (leaf : Leaf)
    → distinct (field k v m) ≡ true
    → BelowKey m prefix leaf
    → BelowKey (field k v m) prefix leaf
unfolding get_from lookup distinct
Below-there k v m prefix leaf d (s, rel, e, g) = (s, rel, e, ground (arith, text_eq_iff k s))

Below-object :
    (m : Fields) (prefix : List Text) (leaf : Leaf)
    → BelowKey m prefix leaf
    → Below (object m) prefix leaf
Below-object m prefix leaf (s, rel, e, g) = (s ∷ rel, e, g)

-- A leaf that is the value itself.
Below-self :
    (v : Value) (prefix : List Text) (leaf : Leaf)
    → Elem leaf (leaf_at prefix v ∷ [])
    → Below v prefix leaf
unfolding get_from
Below-self v prefix leaf (here e) =
    ([], ap (λ l. l.segments) e ∙ sym (append-nil prefix), ap (λ l. some l.value) (sym e))
Below-self v prefix leaf (there e) = elim e [ ]

mutual
  unfolding walk_fields walk_value distinct

  walk_fields_sound :
      (m : Fields) (prefix : List Text) (leaf : Leaf)
      → distinct m ≡ true
      → Elem leaf (walk_fields m prefix)
      → BelowKey m prefix leaf
  walk_fields_sound end prefix leaf d e = elim e [ ]
  walk_fields_sound (field k v m) prefix leaf d e =
      elim (Elem-append_cases (walk_value v (prefix ++ (k ∷ []))) (walk_fields m prefix) e) [
        | inl l ↦
            Below-here k v m prefix leaf
              (walk_value_sound v (prefix ++ (k ∷ [])) leaf (ground arith) l)
        | inr r ↦ Below-there k v m prefix leaf d (walk_fields_sound m prefix leaf (ground arith) r)
      ]

  walk_value_sound :
      (v : Value) (prefix : List Text) (leaf : Leaf)
      → distinct_value v ≡ true
      → Elem leaf (walk_value v prefix)
      → Below v prefix leaf
  walk_value_sound (object (field k v m)) prefix leaf d e =
      Below-object (field k v m) prefix leaf (walk_fields_sound (field k v m) prefix leaf d e)
  walk_value_sound (object end) prefix leaf d e = Below-self (object end) prefix leaf e
  walk_value_sound null prefix leaf d e = Below-self null prefix leaf e
  walk_value_sound (boolean b) prefix leaf d e = Below-self (boolean b) prefix leaf e
  walk_value_sound (number n) prefix leaf d e = Below-self (number n) prefix leaf e
  walk_value_sound (string s) prefix leaf d e = Below-self (string s) prefix leaf e
  walk_value_sound (array xs) prefix leaf d e = Below-self (array xs) prefix leaf e

-- Every leaf of a tree, whose maps have one entry to a key, is the value that a read finds at its
-- segments.
pub walk_leaves_sound :
    (m : Fields) (leaf : Leaf)
    → distinct m ≡ true
    → Elem leaf (walk_leaves m)
    → get_segments m leaf.segments ≡ some leaf.value
unfolding walk_leaves get_segments
walk_leaves_sound m leaf d e =
    let (s, rel, at, found) = walk_fields_sound m [] leaf d e in rw at found

-- The terminal values of WalkLeaves: all but a map that is not empty.
abbrev pub is_terminal : Value → Bool
is_terminal (object (field k v m)) = false
is_terminal _ = true

single_terminal :
    (v : Value) (prefix : List Text) (leaf : Leaf)
    → is_terminal v ≡ true
    → Elem leaf (leaf_at prefix v ∷ [])
    → is_terminal leaf.value ≡ true
single_terminal v prefix leaf t (here e) = rw (ap (λ (l : Leaf). l.value) e) t
single_terminal v prefix leaf t (there e) = elim e [ ]

mutual
  unfolding walk_fields walk_value

  walk_fields-terminal :
      (m : Fields) (prefix : List Text) (leaf : Leaf)
      → Elem leaf (walk_fields m prefix)
      → is_terminal leaf.value ≡ true
  walk_fields-terminal end prefix leaf e = elim e [ ]
  walk_fields-terminal (field k v m) prefix leaf e =
      elim (Elem-append_cases (walk_value v (prefix ++ (k ∷ []))) (walk_fields m prefix) e) [
        | inl l ↦ walk_value-terminal v (prefix ++ (k ∷ [])) leaf l
        | inr r ↦ walk_fields-terminal m prefix leaf r
      ]

  walk_value-terminal :
      (v : Value) (prefix : List Text) (leaf : Leaf)
      → Elem leaf (walk_value v prefix)
      → is_terminal leaf.value ≡ true
  walk_value-terminal (object (field k v m)) prefix leaf e =
      walk_fields-terminal (field k v m) prefix leaf e
  walk_value-terminal (object end) prefix leaf e = single_terminal (object end) prefix leaf refl e
  walk_value-terminal null prefix leaf e = single_terminal null prefix leaf refl e
  walk_value-terminal (boolean b) prefix leaf e = single_terminal (boolean b) prefix leaf refl e
  walk_value-terminal (number n) prefix leaf e = single_terminal (number n) prefix leaf refl e
  walk_value-terminal (string s) prefix leaf e = single_terminal (string s) prefix leaf refl e
  walk_value-terminal (array xs) prefix leaf e = single_terminal (array xs) prefix leaf refl e

-- A leaf is never a map that has entries.
pub walk_leaves-terminal :
    (m : Fields) (leaf : Leaf) → Elem leaf (walk_leaves m) → is_terminal leaf.value ≡ true
unfolding walk_leaves
walk_leaves-terminal m leaf e = walk_fields-terminal m [] leaf e

self_leaf :
    (v w : Value) (prefix rel : List Text)
    → as_map v ≡ none
    → get_from v rel ≡ some w
    → Elem (leaf_at (prefix ++ rel) w) (leaf_at prefix v ∷ [])
unfolding get_from
self_leaf v w prefix [] n h = here (ground (arith, append-nil prefix))
self_leaf v w prefix (s ∷ rel) n h = absurd (ground arith)

mutual
  unfolding walk_fields walk_value get_from lookup

  walk_fields_complete :
      (m : Fields) (prefix : List Text) (s : Text) (rel : List Text) (v : Value)
      → get_from (object m) (s ∷ rel) ≡ some v
      → is_terminal v ≡ true
      → Elem (leaf_at (prefix ++ (s ∷ rel)) v) (walk_fields m prefix)
  walk_fields_complete end prefix s rel v h t = absurd (ground arith)
  walk_fields_complete (field k w m) prefix s rel v h t = elim (Bool-cases (text_eq k s)) [
    | inl same ↦
        let at : k ≡ s = (text_eq_iff k s).0 same in
        Elem-append_left (walk_fields m prefix) (
          rw (← at, ← append_assoc prefix (k ∷ []) rel)
            (walk_value_complete w (prefix ++ (k ∷ [])) rel v (ground arith) t))
    | inr other ↦
        Elem-append_right (walk_value w (prefix ++ (k ∷ [])))
          (walk_fields_complete m prefix s rel v (ground arith) t)
  ]

  walk_value_complete :
      (w : Value) (prefix rel : List Text) (v : Value)
      → get_from w rel ≡ some v
      → is_terminal v ≡ true
      → Elem (leaf_at (prefix ++ rel) v) (walk_value w prefix)
  walk_value_complete (object (field k x m)) prefix [] v h t = absurd (ground arith)
  walk_value_complete (object (field k x m)) prefix (s ∷ rel) v h t =
      walk_fields_complete (field k x m) prefix s rel v h t
  walk_value_complete (object end) prefix [] v h t = here (ground (arith, append-nil prefix))
  walk_value_complete (object end) prefix (s ∷ rel) v h t = absurd (ground arith)
  walk_value_complete null prefix rel v h t = self_leaf null v prefix rel refl h
  walk_value_complete (boolean b) prefix rel v h t = self_leaf (boolean b) v prefix rel refl h
  walk_value_complete (number n) prefix rel v h t = self_leaf (number n) v prefix rel refl h
  walk_value_complete (string x) prefix rel v h t = self_leaf (string x) v prefix rel refl h
  walk_value_complete (array xs) prefix rel v h t = self_leaf (array xs) v prefix rel refl h

-- Every value that a read can reach and that is not a map with entries is one of the leaves.
pub walk_leaves_complete :
    (m : Fields) (segments : List Text) (v : Value)
    → get_segments m segments ≡ some v
    → is_terminal v ≡ true
    → Elem (leaf_at (segments) v) (walk_leaves m)
unfolding walk_leaves get_segments
walk_leaves_complete m [] v h t = absurd (ground arith)
walk_leaves_complete m (s ∷ rel) v h t = walk_fields_complete m [] s rel v h t

-- No leaf's path is a prefix of another's.
abbrev pub Apart : List Leaf → Type 0
Apart = AllPairs (λ (x y : Leaf). Diverge x.segments y.segments)

Apart-append :
    (xs ys : List Leaf)
    → Apart xs
    → Apart ys
    → ((x y : Leaf) → Elem x xs → Elem y ys → Diverge x.segments y.segments)
    → Apart (xs ++ ys)
Apart-append [] ys h k c = k
Apart-append (x ∷ xs) ys h k c = (
  All-append (λ (y : Leaf). Diverge x.segments y.segments) xs ys h.0
      (All-of_Elem (λ (y : Leaf). Diverge x.segments y.segments) ys (λ y m. c x y (here refl) m)),
  Apart-append xs ys h.1 k (λ a b m n. c a b (there m) n),
)

Diverge-append : (p q r : List Text) → Diverge q r → Diverge (p ++ q) (p ++ r)
Diverge-append [] q r h = h
Diverge-append (s ∷ p) q r h = inr (refl, Diverge-append p q r h)

-- A leaf below one key parts from a leaf below another.
apart_keys :
    (k : Text) (v : Value) (m : Fields) (prefix : List Text) (x y : Leaf)
    → lookup k m ≡ none
    → Below v (prefix ++ (k ∷ [])) x
    → BelowKey m prefix y
    → Diverge x.segments y.segments
unfolding get_from
apart_keys k v m prefix x y absent (rel, e, g) (s, rel', e', g') =
    let ne : k ≢ s = λ same. ground (arith, ap (λ (j : Text). lookup j m) same) in
    rw (e, e', append_assoc prefix (k ∷ []) rel)
      (Diverge-append prefix (k ∷ rel) (s ∷ rel') (inl ne))

mutual
  unfolding walk_fields walk_value distinct

  walk_fields-Apart :
      (m : Fields) (prefix : List Text) → distinct m ≡ true → Apart (walk_fields m prefix)
  walk_fields-Apart end prefix d = tt
  walk_fields-Apart (field k v m) prefix d =
      Apart-append (walk_value v (prefix ++ (k ∷ []))) (walk_fields m prefix)
        (walk_value-Apart v (prefix ++ (k ∷ [])) (ground arith))
        (walk_fields-Apart m prefix (ground arith))
        (λ x y a b.
          apart_keys k v m prefix x y (ground arith)
            (walk_value_sound v (prefix ++ (k ∷ [])) x (ground arith) a)
            (walk_fields_sound m prefix y (ground arith) b))

  walk_value-Apart :
      (v : Value) (prefix : List Text) → distinct_value v ≡ true → Apart (walk_value v prefix)
  walk_value-Apart (object (field k v m)) prefix d = walk_fields-Apart (field k v m) prefix d
  walk_value-Apart (object end) prefix d = (tt, tt)
  walk_value-Apart null prefix d = (tt, tt)
  walk_value-Apart (boolean b) prefix d = (tt, tt)
  walk_value-Apart (number n) prefix d = (tt, tt)
  walk_value-Apart (string s) prefix d = (tt, tt)
  walk_value-Apart (array xs) prefix d = (tt, tt)

-- No two leaves of a tree, whose maps have one entry to a key, get in each other's way: their
-- paths part.
pub walk_leaves-Apart : (m : Fields) → distinct m ≡ true → Apart (walk_leaves m)
unfolding walk_leaves
walk_leaves-Apart m d = walk_fields-Apart m [] d
