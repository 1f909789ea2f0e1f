-- ===== src/Restore/Plan/Effect.antt =====
-- A restore from end to end: the plan of a snapshot, applied to a Cluster.
use cnpg_i_chronicle.Common.{
  ◌≡◌, subst, ap, inl, inr, true, false, none, some, List, ◌++◌, arith, Text, ok, >>=-eq-ok,
  Result-cases, Elem, All-of_Elem, AllPairs-Elem,
}
use cnpg_i_chronicle.Common.Sort.{sort_by, sort_by-Elem, Elem-sort_by, sort_by-AllPairs}
use cnpg_i_chronicle.Json.{Value, Fields, distinct}
use cnpg_i_chronicle.PathUtil.{Leaf, leaf_path, join, walk_leaves, get_from, get_segments}
use cnpg_i_chronicle.PathUtil.Access.{Diverge, Diverge-sym, get-append}
use cnpg_i_chronicle.PathUtil.Leaves.{
  leaf_at, is_terminal, walk_leaves_sound, walk_leaves-terminal, walk_leaves_complete,
  walk_leaves-Apart,
}
use cnpg_i_chronicle.Snapshot.Denylist.{is_denied_path}
use cnpg_i_chronicle.Snapshot.PathCheck.{GoType, is_quantity_path}
use cnpg_i_chronicle.Snapshot.Types.{Snapshot}
use cnpg_i_chronicle.Restore.Skip.{CompiledSkip, skips}
use cnpg_i_chronicle.Restore.Transform.{Expressions, TransformSet, program_of, apply_transform}
use cnpg_i_chronicle.Restore.Plan.{
  Change, Decision, changed, Plan, restorable_tree, is_denied_metadata_leaf, changes_of,
  change_less, apply_plan, change_to, decide_value, decide, decide_all, finish_plan, build_plan,
}
use cnpg_i_chronicle.Restore.Plan.Decisions.{
  Decided, decide-Allowed, decide_all-Decided, change_leaf, leaf_change, leaf_decision,
  ChangesApart, changes-Apart,
}
use cnpg_i_chronicle.Restore.Plan.Apply.{apply_changes-Diverge, apply_changes-read}

module _ {Program : Type 0} (expressions : Expressions Program) (cluster_spec : GoType)
    (skip_set : List CompiledSkip) (transform_set : TransformSet Program) where
  abbrev pub Decides : Leaf → Decision → Type 0
  Decides leaf d = decide expressions cluster_spec skip_set transform_set leaf ≡ ok d

  abbrev pub PlanOf : Snapshot → Plan → Type 0
  PlanOf snap plan =
      build_plan expressions cluster_spec skip_set transform_set (some snap) ≡ ok plan

  -- The decisions that a plan was made from.
  abbrev Made : Snapshot → Plan → List Decision → Type 0
  Made snap plan ds =
      Decided expressions cluster_spec skip_set transform_set (walk_leaves (restorable_tree snap))
        ds
      × (plan.changes ≡ sort_by change_less (changes_of ds))

  finish_changes :
      (leaves : List Leaf) (ds : List Decision) (plan : Plan)
      → finish_plan expressions cluster_spec skip_set transform_set leaves ds ≡ ok plan
      → plan.changes ≡ sort_by change_less (changes_of ds)
  unfolding finish_plan
  finish_changes leaves ds plan h = ground arith

  plan-Made :
      (snap : Snapshot) (plan : Plan) → PlanOf snap plan → (ds : List Decision) × Made snap plan ds
  unfolding build_plan
  plan-Made snap plan h =
      let leaves = walk_leaves (restorable_tree snap) in
      let (ds, e, h') =
        >>=-eq-ok (decide_all expressions cluster_spec skip_set transform_set leaves) _ h in
      (
        ds,
        (
          decide_all-Decided expressions cluster_spec skip_set transform_set leaves ds e,
          finish_changes leaves ds plan h',
        ),
      )

  module _ (snap : Snapshot) (plan : Plan) (cluster out : Fields) (planned : PlanOf snap plan)
      (applied : apply_plan plan cluster ≡ ok out) where
    abbrev pub leaves : List Leaf
    leaves = walk_leaves (restorable_tree snap)

    -- What is decided for one of the leaves is written.
    written :
        (leaf : Leaf) (change : Change)
        → distinct (restorable_tree snap) ≡ true
        → Elem leaf leaves
        → Decides leaf (changed change)
        → get_segments out change.segments ≡ some change.value
    unfolding apply_plan
    written leaf change d m e =
        let (ds, made) = plan-Made snap plan planned in
        let (r, eq) = made in
        let apart : ChangesApart (sort_by change_less (changes_of ds)) =
          sort_by-AllPairs change_less (λ (a b : Change). Diverge a.segments b.segments)
            (λ a b. Diverge-sym a.segments b.segments) (changes_of ds)
            (changes-Apart expressions cluster_spec skip_set transform_set r
              (walk_leaves-Apart (restorable_tree snap) d)) in
        apply_changes-read (sort_by change_less (changes_of ds)) cluster out change
          (subst (λ cs. apply_plan (record plan { changes = cs }) cluster ≡ ok out) eq applied)
          apart
          (sort_by-Elem change_less (changes_of ds)
            (leaf_change expressions cluster_spec skip_set transform_set leaf change r m e))

    -- What every change parts from is left.
    pub left :
        (q : List Text)
        → ((leaf : Leaf) (change : Change)
            → Elem leaf leaves
            → Decides leaf (changed change)
            → Diverge leaf.segments q)
        → get_segments out q ≡ get_segments cluster q
    unfolding apply_plan
    left q h =
        let (ds, made) = plan-Made snap plan planned in
        let (r, eq) = made in
        apply_changes-Diverge (sort_by change_less (changes_of ds)) cluster out q
          (subst (λ cs. apply_plan (record plan { changes = cs }) cluster ≡ ok out) eq applied)
          (All-of_Elem (λ (c : Change). Diverge c.segments q) (sort_by change_less (changes_of ds))
            (λ c m.
              let (leaf, at, e) =
                change_leaf expressions cluster_spec skip_set transform_set c r
                  (Elem-sort_by change_less (changes_of ds) m) in
              rw (decide-Allowed expressions cluster_spec skip_set transform_set leaf c e).segments
                (h leaf c at e)))

    -- The decision for a leaf that nothing holds back.
    Decides-plain :
        (segments : List Text) (v : Value)
        → is_denied_path (join segments) ≡ false
        → is_denied_metadata_leaf segments ≡ false
        → skips skip_set (join segments) ≡ none
        → program_of transform_set (join segments) ≡ none
        → Decides
            (leaf_at segments v)
            (change_to expressions cluster_spec skip_set transform_set (leaf_at segments v) v false)
    unfolding decide decide_value apply_transform leaf_path
    Decides-plain segments v a b c p = ground arith

    -- A plan was made of the snapshot, whose maps have one entry to a key, and it was applied to
    -- the Cluster. Then each value of the snapshot that is not a map with entries, and that is not
    -- denied, not skipped and not transformed, is what the Cluster now holds at its path: a read
    -- there, or beneath, finds what it finds in the value, whatever the Cluster held before.
    pub restores :
        (segments : List Text) (v : Value) (below : List Text)
        → distinct (restorable_tree snap) ≡ true
        → get_segments (restorable_tree snap) segments ≡ some v
        → is_terminal v ≡ true
        → is_denied_path (join segments) ≡ false
        → is_denied_metadata_leaf segments ≡ false
        → skips skip_set (join segments) ≡ none
        → program_of transform_set (join segments) ≡ none
        → get_segments out (segments ++ below) ≡ get_from v below
    restores segments v below d g t a b c p = get-append out segments below v (
        written (leaf_at segments v)
          (record { path = join segments; segments = segments; value = v; transformed = false }) d
          (walk_leaves_complete (restorable_tree snap) segments v g t)
          (unfold leaf_path in Decides-plain segments v a b c p))

    transformed_change : List Text → Value → Change
    transformed_change segments w = record {
      path = join segments;
      segments = segments;
      value = w;
      transformed = true;
    }

    Decides-transformed :
        (segments : List Text) (v w : Value) (program : Program)
        → is_denied_path (join segments) ≡ false
        → is_denied_metadata_leaf segments ≡ false
        → skips skip_set (join segments) ≡ none
        → program_of transform_set (join segments) ≡ some program
        → expressions.evaluate program v (is_quantity_path cluster_spec segments) ≡ ok w
        → Decides (leaf_at segments v) (changed (transformed_change segments w))
    unfolding decide decide_value apply_transform leaf_path transformed_change
    Decides-transformed segments v w program a b c p e = ground arith

    -- A plan is only made if every expression that it needs gives a value.
    evaluates :
        (segments : List Text) (v : Value) (program : Program) (d : Decision)
        → is_denied_path (join segments) ≡ false
        → is_denied_metadata_leaf segments ≡ false
        → skips skip_set (join segments) ≡ none
        → program_of transform_set (join segments) ≡ some program
        → Decides (leaf_at segments v) d
        → (w : Value) × (expressions.evaluate program v (is_quantity_path cluster_spec segments)
            ≡ ok w)
    unfolding decide decide_value apply_transform leaf_path
    evaluates segments v program d a b c p e =
        elim (Result-cases
          (expressions.evaluate program v (is_quantity_path cluster_spec segments))) [
            | inl found ↦ found
            | inr (x, failed) ↦ absurd (ground arith)
          ]

    -- A plan was made of the snapshot, whose maps have one entry to a key, and it was applied to
    -- the Cluster. For each value of the snapshot that is not a map with entries, that is not denied
    -- and not skipped and whose path has a transform, the expression gives a value, and that value
    -- is what the Cluster now holds at the path.
    pub restores_transformed :
        (segments : List Text) (v : Value) (program : Program)
        → distinct (restorable_tree snap) ≡ true
        → get_segments (restorable_tree snap) segments ≡ some v
        → is_terminal v ≡ true
        → is_denied_path (join segments) ≡ false
        → is_denied_metadata_leaf segments ≡ false
        → skips skip_set (join segments) ≡ none
        → program_of transform_set (join segments) ≡ some program
        → (w : Value) × (expressions.evaluate program v (is_quantity_path cluster_spec segments)
            ≡ ok w)
          × (get_segments out segments ≡ some w)
    restores_transformed segments v program d g t a b c p =
        let m = walk_leaves_complete (restorable_tree snap) segments v g t in
        let (ds, made) = plan-Made snap plan planned in
        let (dec, e) =
          leaf_decision expressions cluster_spec skip_set transform_set (leaf_at segments v) made.0
            m in
        let (w, ev) = evaluates segments v program dec a b c p e in
        (
          w,
          ev,
          (unfold transformed_change in
              written (leaf_at segments v) (transformed_change segments w) d m
                (Decides-transformed segments v w program a b c p ev)),
        )

    -- A plan was made of the snapshot, whose maps have one entry to a key, and it was applied to
    -- the Cluster. A path that parts from the path of every value of the snapshot that is not a map
    -- with entries reads in the Cluster as it did before.
    pub restore_adds_nothing :
        (q : List Text)
        → distinct (restorable_tree snap) ≡ true
        → ((segments : List Text) (v : Value)
            → get_segments (restorable_tree snap) segments ≡ some v
            → is_terminal v ≡ true
            → Diverge segments q)
        → get_segments out q ≡ get_segments cluster q
    restore_adds_nothing q d h = left q (λ leaf change m e.
        h leaf.segments leaf.value (walk_leaves_sound (restorable_tree snap) leaf d m)
          (walk_leaves-terminal (restorable_tree snap) leaf m))

    -- A plan was made of the snapshot, whose maps have one entry to a key, and it was applied to
    -- the Cluster. At the path of a value of the snapshot that is not a map with entries and that a
    -- skip rule matches, the Cluster reads as it did before.
    pub skipped_untouched :
        (segments : List Text) (v : Value) (reason : Text)
        → distinct (restorable_tree snap) ≡ true
        → get_segments (restorable_tree snap) segments ≡ some v
        → is_terminal v ≡ true
        → skips skip_set (join segments) ≡ some reason
        → get_segments out segments ≡ get_segments cluster segments
    skipped_untouched segments v reason d g t s = left segments (λ leaf change m e.
        elim (AllPairs-Elem (λ (x y : Leaf). Diverge x.segments y.segments)
          (λ x y. Diverge-sym x.segments y.segments) (walk_leaves-Apart (restorable_tree snap) d) m
          (walk_leaves_complete (restorable_tree snap) segments v g t)) [
            | inl same ↦ absurd (
                unfold leaf_path in
                ground (
                  arith,
                  (decide-Allowed expressions cluster_spec skip_set transform_set leaf change
                      e).not_skipped,
                  ap (λ (l : Leaf). skips skip_set (leaf_path l)) same,
                ))
            | inr apart ↦ apart
          ])
