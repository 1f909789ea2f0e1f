-- ===== src/Restore/Plan/Safety.antt =====
-- What no restore can touch: the denied parts of a Cluster's spec.
use cnpg_i_chronicle.Common.{
  ◌≡◌, refl, sym, subst, ◌∙◌, ◌⊎◌, inl, inr, Bool, true, false, ◌&&◌, some, List, [], ◌∷◌, ◌++◌,
  arith, Text, codes, text_eq, text_eq_iff, has_prefix_iff, has_prefix-append, ok, true≢false,
  Bool-cases, any-Elem, find_any, append_assoc, is_nil,
}
use cnpg_i_chronicle.Json.{Value, object, Fields, end, field, lookup, distinct, is_empty}
use cnpg_i_chronicle.PathUtil.{leaf_path, join, get_segments}
use cnpg_i_chronicle.PathUtil.Access.{Diverge, get-single}
use cnpg_i_chronicle.PathUtil.Leaves.{is_terminal, walk_leaves_sound, walk_leaves-terminal}
use cnpg_i_chronicle.Snapshot.Denylist.{denied_paths, covers, is_denied_path, StringMap}
use cnpg_i_chronicle.Snapshot.Types.{Snapshot}
use cnpg_i_chronicle.Snapshot.PathCheck.{GoType}
use cnpg_i_chronicle.Restore.Skip.{CompiledSkip}
use cnpg_i_chronicle.Restore.Transform.{Expressions, TransformSet}
use cnpg_i_chronicle.Restore.Plan.Decisions.{decide-Allowed}
use cnpg_i_chronicle.Restore.Plan.Effect.{PlanOf, left}
use cnpg_i_chronicle.Restore.Plan.{
  Plan, apply_plan, field_unless, to_any_map, restorable_metadata, restorable_tree,
}

-- A denied path covers itself and what follows it after a dot.
covers_cases :
    (d path : Text) → covers d path ≡ true → (path ≡ d) ⊎ ((r : Text) × (path ≡ d ++ (b'.' ∷ r)))
unfolding covers
covers_cases d path h = elim (Bool-cases (text_eq path d)) [
  | inl e ↦ inl ((text_eq_iff path d).0 e)
  | inr n ↦
      let (r, e) = (has_prefix_iff path (d ++ codes ".")).0 (ground arith) in
      inr (r, e ∙ append_assoc d (codes ".") r)
]

covers_under : (d r : Text) → covers d (d ++ (b'.' ∷ r)) ≡ true
unfolding covers
covers_under d r =
    ground (arith, has_prefix-append (d ++ codes ".") r, append_assoc d (codes ".") r)

-- What is beneath a covered path is covered.
covers-below : (d path rest : Text) → covers d path ≡ true → covers d (path ++ (b'.' ∷ rest)) ≡ true
covers-below d path rest h = elim (covers_cases d path h) [
  | inl e ↦ rw e (covers_under d rest)
  | inr (r, e) ↦
      rw (e, append_assoc d (b'.' ∷ r) (b'.' ∷ rest)) (covers_under d (r ++ (b'.' ∷ rest)))
]

-- What is beneath a denied path is denied.
pub denied-below :
    (path rest : Text) → is_denied_path path ≡ true → is_denied_path (path ++ (b'.' ∷ rest)) ≡ true
unfolding is_denied_path
denied-below path rest h =
    let (d, m, c) = find_any (λ (denied : Text). covers denied path) denied_paths h in
    any-Elem (λ (denied : Text). covers denied (path ++ (b'.' ∷ rest))) d m
      (covers-below d path rest c)

-- The path of a leaf two segments down or more: its first two segments, and what follows.
join_two :
    (s t : Text) (rest : List Text)
    → is_denied_path (s ++ (b'.' ∷ t)) ≡ true
    → is_denied_path (join (s ∷ t ∷ rest)) ≡ true
unfolding join
join_two s t [] h = h
join_two s t (u ∷ rest) h =
    subst (λ p. is_denied_path p ≡ true) (append_assoc s (b'.' ∷ t) (b'.' ∷ join (u ∷ rest)))
      (denied-below (s ++ (b'.' ∷ t)) (join (u ∷ rest)) h)

-- The entries of a restorable tree are maps that have entries.
to_any_map-nonempty :
    (m : StringMap) → is_nil m ≡ false → is_terminal (object (to_any_map m)) ≡ false
unfolding to_any_map
to_any_map-nonempty [] h = absurd (ground arith)
to_any_map-nonempty ((k, v) ∷ m) h = refl

metadata-nonempty :
    (snap : Snapshot)
    → (is_nil snap.labels && is_nil snap.annotations) ≡ false
    → is_terminal (object (restorable_metadata snap)) ≡ false
unfolding restorable_metadata
metadata-nonempty snap h = ground arith

lookup-field_unless :
    (absent : Bool) (key s : Text) (m rest : Fields) (v : Value)
    → (absent ≡ false → is_terminal (object m) ≡ false)
    → (lookup s rest ≡ some v → is_terminal v ≡ false)
    → lookup s (field_unless absent key m rest) ≡ some v
    → is_terminal v ≡ false
unfolding lookup
lookup-field_unless true key s m rest v h k e = k e
lookup-field_unless false key s m rest v h k e = elim (Bool-cases (text_eq key s)) [
  | inl same ↦ ground (arith, h refl)
  | inr other ↦ k (ground arith)
]

nonempty : (m : Fields) → is_empty m ≡ false → is_terminal (object m) ≡ false
nonempty end h = absurd (ground arith)
nonempty (field k v m) h = refl

pub tree-nonempty :
    (snap : Snapshot) (s : Text) (v : Value)
    → lookup s (restorable_tree snap) ≡ some v
    → is_terminal v ≡ false
unfolding restorable_tree
tree-nonempty snap s v =
    lookup-field_unless (is_empty snap.spec) (codes "spec") s snap.spec _ v (nonempty snap.spec) (
      lookup-field_unless (is_nil snap.labels && is_nil snap.annotations) (codes "metadata") s
        (restorable_metadata snap) end v (metadata-nonempty snap)
        (λ e. absurd (unfold lookup in ground arith)))

-- A leaf of a restorable tree that is not denied parts from every denied path into the spec.
leaf_parts :
    (snap : Snapshot) (segments : List Text) (v : Value) (key : Text) (below : List Text)
    → get_segments (restorable_tree snap) segments ≡ some v
    → is_terminal v ≡ true
    → is_denied_path (join segments) ≡ false
    → is_denied_path (codes "spec." ++ key) ≡ true
    → Diverge segments (codes "spec" ∷ key ∷ below)
leaf_parts snap [] v key below g t n h = absurd (unfold get_segments in ground arith)
leaf_parts snap (s ∷ []) v key below g t n h =
    absurd (ground (arith, tree-nonempty snap s v (sym (get-single (restorable_tree snap) s) ∙ g)))
leaf_parts snap (s ∷ k ∷ rest) v key below g t n h = elim (Bool-cases (text_eq s (codes "spec"))) [
  | inr other ↦ inl (λ e. ground (arith, text_eq_iff s (codes "spec")))
  | inl spec ↦
      let e : s ≡ codes "spec" = (text_eq_iff s (codes "spec")).0 spec in
      inr (e, inl (λ same. true≢false (sym (join_two s k rest (rw (e, same) h)) ∙ n)))
]

module _ {Program : Type 0} (expressions : Expressions Program) (cluster_spec : GoType)
    (skip_set : List CompiledSkip) (transform_set : TransformSet Program) where
  -- A plan was made of a snapshot, whose maps have one entry to a key and which may hold anything,
  -- and it was applied to a Cluster. Then whatever stands in the Cluster at or beneath a denied
  -- field of the spec, such as spec.plugins, spec.backup, spec.externalClusters or spec.bootstrap,
  -- is what stood there before.
  pub denied_untouched :
      (snap : Snapshot) (plan : Plan) (cluster out : Fields) (key : Text) (below : List Text)
      → PlanOf expressions cluster_spec skip_set transform_set snap plan
      → apply_plan plan cluster ≡ ok out
      → distinct (restorable_tree snap) ≡ true
      → is_denied_path (codes "spec." ++ key) ≡ true
      → get_segments out (codes "spec" ∷ key ∷ below)
        ≡ get_segments cluster (codes "spec" ∷ key ∷ below)
  unfolding leaf_path
  denied_untouched snap plan cluster out key below planned applied d h =
      left expressions cluster_spec skip_set transform_set snap plan cluster out planned applied
        (codes "spec" ∷ key ∷ below)
        (λ leaf change m e.
          leaf_parts snap leaf.segments leaf.value key below
            (walk_leaves_sound (restorable_tree snap) leaf d m)
            (walk_leaves-terminal (restorable_tree snap) leaf m)
            (decide-Allowed expressions cluster_spec skip_set transform_set leaf change
              e).not_denied
            h)
