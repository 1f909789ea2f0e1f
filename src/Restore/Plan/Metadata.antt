-- ===== src/Restore/Plan/Metadata.antt =====
-- A restore (internal/restore/plan.go) writes no other metadata than labels and annotations.
use cnpg_i_chronicle.Common.{
  ◌≡◌, refl, sym, ◌∙◌, ap, inl, inr, Bool, true, false, ◌&&◌, Option, none, some, List, [], ◌∷◌,
  arith, Text, codes, text_eq, text_eq_iff, ok, Bool-cases, is_nil, bind_option,
}
use cnpg_i_chronicle.Json.{Value, Fields, end, lookup, distinct, is_empty, as_map}
use cnpg_i_chronicle.PathUtil.{get_segments}
use cnpg_i_chronicle.PathUtil.Access.{Diverge, get-single, get-cons}
use cnpg_i_chronicle.PathUtil.Leaves.{is_terminal, walk_leaves_sound, walk_leaves-terminal}
use cnpg_i_chronicle.Snapshot.PathCheck.{GoType}
use cnpg_i_chronicle.Snapshot.Types.{Snapshot}
use cnpg_i_chronicle.Restore.Skip.{CompiledSkip}
use cnpg_i_chronicle.Restore.Transform.{Expressions, TransformSet}
use cnpg_i_chronicle.Restore.Plan.{
  Plan, to_any_map, field_unless, restorable_metadata, restorable_tree, apply_plan,
}
use cnpg_i_chronicle.Restore.Plan.Effect.{PlanOf, left}
use cnpg_i_chronicle.Restore.Plan.Safety.{tree-nonempty}

get-missing :
    (obj : Fields) (s : Text) (ss : List Text)
    → lookup s obj ≡ none
    → get_segments obj (s ∷ ss) ≡ none
unfolding get_segments
get-missing obj s ss e = rw e

lookup-field_unless_ne :
    (absent : Bool) (key s : Text) (m rest : Fields)
    → text_eq key s ≡ false
    → lookup s (field_unless absent key m rest) ≡ lookup s rest
unfolding lookup
lookup-field_unless_ne true key s m rest e = refl
lookup-field_unless_ne false key s m rest e = rw e

lookup-restorable_metadata :
    (snap : Snapshot) (key : Text)
    → text_eq (codes "labels") key ≡ false
    → text_eq (codes "annotations") key ≡ false
    → lookup key (restorable_metadata snap) ≡ none
unfolding restorable_metadata lookup
lookup-restorable_metadata snap key a b =
    lookup-field_unless_ne (is_nil snap.labels) (codes "labels") key (to_any_map snap.labels) _ a
    ∙ lookup-field_unless_ne (is_nil snap.annotations) (codes "annotations") key
        (to_any_map snap.annotations) end b

-- The metadata of a restorable tree is the restorable metadata, or there is none.
get-restorable_tree-none :
    (snap : Snapshot) (key : Text) (below : List Text)
    → lookup key (restorable_metadata snap) ≡ none
    → get_segments (restorable_tree snap) (codes "metadata" ∷ key ∷ below) ≡ none
unfolding restorable_tree text_eq
get-restorable_tree-none snap key below e =
    get-cons (restorable_tree snap) (codes "metadata") key below
    ∙ ap (λ o. bind_option (bind_option o as_map) (λ m. get_segments m (key ∷ below)))
        (lookup-field_unless_ne (is_empty snap.spec) (codes "spec") (codes "metadata") snap.spec _
          refl)
    ∙ from (is_nil snap.labels && is_nil snap.annotations)
  where
    from :
        (absent : Bool)
        → bind_option
            (bind_option
              (lookup
                (codes "metadata")
                (field_unless absent (codes "metadata") (restorable_metadata snap) end))
              as_map)
            (λ m. get_segments m (key ∷ below))
          ≡ none
    from true = unfold lookup in refl
    from false = unfold lookup in rw (get-missing (restorable_metadata snap) key below e)

-- A leaf of a restorable tree parts from the metadata other than labels and annotations.
leaf_parts :
    (snap : Snapshot) (segments : List Text) (v : Value) (key : Text) (below : List Text)
    → get_segments (restorable_tree snap) segments ≡ some v
    → is_terminal v ≡ true
    → text_eq (codes "labels") key ≡ false
    → text_eq (codes "annotations") key ≡ false
    → Diverge segments (codes "metadata" ∷ key ∷ below)
leaf_parts snap [] v key below g t a b = absurd (unfold get_segments in ground arith)
leaf_parts snap (s ∷ []) v key below g t a b =
    absurd (ground (arith, tree-nonempty snap s v (sym (get-single (restorable_tree snap) s) ∙ g)))
leaf_parts snap (s ∷ k ∷ rest) v key below g t a b =
    elim (Bool-cases (text_eq s (codes "metadata"))) [
      | inr other ↦ inl (λ e. ground (arith, text_eq_iff s (codes "metadata")))
      | inl metadata ↦
          let e : s ≡ codes "metadata" = (text_eq_iff s (codes "metadata")).0 metadata in
          inr (
            e,
            inl (λ same. some_none v (
                sym g
                ∙ rw (e, same)
                    (get-restorable_tree-none snap key rest
                      (lookup-restorable_metadata snap key a b)))),
          )
    ]
  where
    some_none : (w : Value) → ◌≡◌ {A = Option Value} (some w) none → ⊥
    some_none w h = cc

module _ {Program : Type 0} (expressions : Expressions Program) (cluster_spec : GoType)
    (skip_set : List CompiledSkip) (transform_set : TransformSet Program) where
  -- A plan was made of a snapshot, whose maps have one entry to a key, and it was applied to a
  -- Cluster. Then whatever stands in the Cluster at or beneath a field of the metadata other than
  -- labels and annotations, such as its name, is what stood there before.
  pub metadata_untouched :
      (snap : Snapshot) (plan : Plan) (cluster out : Fields) (key : Text) (below : List Text)
      → PlanOf expressions cluster_spec skip_set transform_set snap plan
      → apply_plan plan cluster ≡ ok out
      → distinct (restorable_tree snap) ≡ true
      → text_eq (codes "labels") key ≡ false
      → text_eq (codes "annotations") key ≡ false
      → get_segments out (codes "metadata" ∷ key ∷ below)
        ≡ get_segments cluster (codes "metadata" ∷ key ∷ below)
  metadata_untouched snap plan cluster out key below planned applied d a b =
      left expressions cluster_spec skip_set transform_set snap plan cluster out planned applied
        (codes "metadata" ∷ key ∷ below)
        (λ leaf change m e.
          leaf_parts snap leaf.segments leaf.value key below
            (walk_leaves_sound (restorable_tree snap) leaf d m)
            (walk_leaves-terminal (restorable_tree snap) leaf m) a b)
