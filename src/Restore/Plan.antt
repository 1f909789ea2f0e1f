-- ===== src/Restore/Plan.antt =====
-- internal/restore/plan.go: the rules compiled, the plan of a restore, and its application. The
-- loop of BuildPlan is one decision for each leaf; its slices and maps are read off the decisions.
pub mod Decisions
pub mod Apply
pub mod Effect
pub mod Safety
pub mod Metadata
use cnpg_i_chronicle.Common.{
  ℕ, ◌==◌, Bool, true, false, ◌||◌, ◌&&◌, Option, none, some, List, [], ◌∷◌, ◌++◌, if◌then◌else◌,
  Text, codes, text_eq, text_lt, is_nil, map, length, Result, ok, err, ◌>>=◌, ◌>>◌, refuse, wrap,
}
use cnpg_i_chronicle.Common.Sort.{sort_by}
use cnpg_i_chronicle.Json.{Value, string, object, Fields, end, field, is_empty}
use cnpg_i_chronicle.PathUtil.{Leaf, leaf_path, walk_leaves, set_segments}
use cnpg_i_chronicle.Api.{SkipRule, TransformRule}
use cnpg_i_chronicle.Snapshot.Denylist.{StringMap, is_denied_path, is_denied_metadata_key}
use cnpg_i_chronicle.Snapshot.PathCheck.{GoType, RulePathError, validate_rule_path}
use cnpg_i_chronicle.Snapshot.Types.{Snapshot}
use cnpg_i_chronicle.Restore.Skip.{CompiledSkip, SkipError, new_skip_set, skips}
use cnpg_i_chronicle.Restore.Transform.{
  Expressions, TransformSet, TransformError, Problem, problems, new_transform_set, apply_transform,
}

pub record Change : Type 0 where
  pub path : Text
  pub segments : List Text
  pub value : Value
  pub transformed : Bool

pub record Exclusion : Type 0 where
  pub path : Text
  pub reason : Text

pub record Plan : Type 0 where
  pub changes : List Change
  pub exclusions : List Exclusion

-- toAnyMap
unfoldable pub to_any_map : StringMap → Fields
to_any_map [] = end
to_any_map ((key, value) ∷ rest) = field key (string value) (to_any_map rest)

-- restorableTree: "spec" and "metadata", each where the snapshot holds something.
abbrev pub field_unless : Bool → Text → Fields → Fields → Fields
field_unless absent key m rest = if absent then rest else field key (object m) rest

unfoldable pub restorable_metadata : Snapshot → Fields
restorable_metadata snap =
    field_unless (is_nil snap.labels) (codes "labels") (to_any_map snap.labels) (
      field_unless (is_nil snap.annotations) (codes "annotations") (to_any_map snap.annotations)
        end)

unfoldable pub restorable_tree : Snapshot → Fields
restorable_tree snap = field_unless (is_empty snap.spec) (codes "spec") snap.spec (
    field_unless (is_nil snap.labels && is_nil snap.annotations) (codes "metadata")
      (restorable_metadata snap) end)

-- isDeniedMetadataLeaf
unfoldable pub is_denied_metadata_leaf : List Text → Bool
is_denied_metadata_leaf (root ∷ kind ∷ key ∷ []) =
    text_eq root (codes "metadata")
    && ((text_eq kind (codes "labels") || text_eq kind (codes "annotations"))
        && is_denied_metadata_key key)
is_denied_metadata_leaf _ = false

-- What CompileRules refuses.
pub data RuleError : Type 0 where
  bad_skip : SkipError → RuleError
  bad_transform : TransformError → RuleError
  incoherent : Text → Text → RuleError
  unusable_skip_path unusable_transform_path : RulePathError → RuleError

-- validateRuleCoherence, over the transformed paths
unfoldable pub validate_coherence : List CompiledSkip → List Text → Result RuleError (Unit {0})
validate_coherence skip_set [] = ok tt
validate_coherence skip_set (path ∷ paths) = elim (skips skip_set path) [
  | some reason ↦ err (incoherent path reason)
  | none ↦ validate_coherence skip_set paths
]

-- The two loops of validateRulePaths
unfoldable pub validate_skip_paths : GoType → List SkipRule → Result RuleError (Unit {0})
validate_skip_paths cluster_spec [] = ok tt
validate_skip_paths cluster_spec (rule ∷ rules) = do
  if is_nil rule.path
      then ok tt
      else wrap unusable_skip_path (validate_rule_path cluster_spec rule.path)
  validate_skip_paths cluster_spec rules

unfoldable pub validate_transform_paths : GoType → List TransformRule → Result RuleError (Unit {0})
validate_transform_paths cluster_spec [] = ok tt
validate_transform_paths cluster_spec (rule ∷ rules) = do
  wrap unusable_transform_path (validate_rule_path cluster_spec rule.path)
  validate_transform_paths cluster_spec rules

-- A turn of BuildPlan's loop: denied, skipped, or set, with whether an expression gave the value.
pub data Decision : Type 0 where
  refused : Text → Decision
  skipped : Text → Text → Decision
  changed : Change → Decision

pub data PlanError : Type 0 where
  nil_snapshot : PlanError
  evaluation : Text → Text → PlanError
  unfired : List Problem → PlanError

abbrev pub denied_reason : Text
denied_reason = codes "denied: never restored"

abbrev pub changes_of : List Decision → List Change
changes_of [] = []
changes_of (changed change ∷ rest) = change ∷ changes_of rest
changes_of (refused path ∷ rest) = changes_of rest
changes_of (skipped path reason ∷ rest) = changes_of rest

abbrev pub exclusions_of : List Decision → List Exclusion
exclusions_of [] = []
exclusions_of (changed change ∷ rest) = exclusions_of rest
exclusions_of (refused path ∷ rest) =
    record { path = path; reason = denied_reason } ∷ exclusions_of rest
exclusions_of (skipped path reason ∷ rest) =
    record { path = path; reason = reason } ∷ exclusions_of rest

-- The map `fired`, as the list of its keys
abbrev pub fired_of : List Decision → List Text
fired_of [] = []
fired_of (changed change ∷ rest) =
    if change.transformed then change.path ∷ fired_of rest else fired_of rest
fired_of (refused path ∷ rest) = fired_of rest
fired_of (skipped path reason ∷ rest) = fired_of rest

-- The map `skippedPaths`
abbrev pub skipped_of : List Decision → List (Text × Text)
skipped_of [] = []
skipped_of (changed change ∷ rest) = skipped_of rest
skipped_of (refused path ∷ rest) = skipped_of rest
skipped_of (skipped path reason ∷ rest) = (path, reason) ∷ skipped_of rest

abbrev pub change_less : Change → Change → Bool
change_less a b = text_lt a.path b.path

abbrev pub exclusion_less : Exclusion → Exclusion → Bool
exclusion_less a b = text_lt a.path b.path

-- The Apply method of Plan, over the changes that are left. `err` names the change that was blocked;
-- the Cluster as written so far is left out of it, since no caller reads it then.
unfoldable pub apply_changes : List Change → Fields → Result Text Fields
apply_changes [] cluster = ok cluster
apply_changes (change ∷ rest) cluster =
    let (cluster', done) = set_segments cluster change.segments change.value in
    if done then apply_changes rest cluster' else err change.path

unfoldable pub apply_plan : Plan → Fields → Result Text Fields
apply_plan plan cluster = apply_changes plan.changes cluster

-- TransformedPaths
unfoldable pub transformed_paths : List Change → List Text
transformed_paths [] = []
transformed_paths (change ∷ rest) =
    let paths = transformed_paths rest in if change.transformed then change.path ∷ paths else paths

module _ {Program : Type 0} (expressions : Expressions Program) (cluster_spec : GoType) where
  -- CompileRules
  unfoldable pub compile_rules :
      List SkipRule
      → List TransformRule
      → Result RuleError (List CompiledSkip × TransformSet Program)
  compile_rules skip_rules transform_rules = do
    skip_set ← wrap bad_skip (new_skip_set cluster_spec skip_rules)
    transform_set ← wrap bad_transform (new_transform_set expressions transform_rules)
    validate_coherence skip_set transform_set.order
    validate_skip_paths cluster_spec skip_rules
    validate_transform_paths cluster_spec transform_rules
    ok (skip_set, transform_set)

  module _ (skip_set : List CompiledSkip) (transform_set : TransformSet Program) where
    abbrev pub change_to : Leaf → Value → Bool → Decision
    change_to leaf value transformed = changed (record {
      path = leaf_path leaf;
      segments = leaf.segments;
      value = value;
      transformed = transformed;
    })

    unfoldable pub decide_value : Leaf → Result PlanError Decision
    decide_value leaf = elim (apply_transform expressions cluster_spec transform_set leaf) [
      | none ↦ ok (change_to leaf leaf.value false)
      | some result ↦ do
        value ← wrap (evaluation (leaf_path leaf)) result
        ok (change_to leaf value true)
    ]

    unfoldable pub decide : Leaf → Result PlanError Decision
    decide leaf =
        if is_denied_path (leaf_path leaf) || is_denied_metadata_leaf leaf.segments
        then ok (refused (leaf_path leaf))
        else elim (skips skip_set (leaf_path leaf)) [
          | some reason ↦ ok (skipped (leaf_path leaf) reason)
          | none ↦ decide_value leaf
        ]

    unfoldable pub decide_all : List Leaf → Result PlanError (List Decision)
    decide_all [] = ok []
    decide_all (leaf ∷ leaves) = do
      decision ← decide leaf
      rest ← decide_all leaves
      ok (decision ∷ rest)

    -- BuildPlan after its loop: checkAllFired, and the sorted plan.
    unfoldable pub finish_plan : List Leaf → List Decision → Result PlanError Plan
    finish_plan leaves decisions =
        let found =
          problems transform_set (fired_of decisions) (skipped_of decisions) (map leaf_path leaves)
            transform_set.order in
        if is_nil found
        then ok (record {
          changes = sort_by change_less (changes_of decisions);
          exclusions = sort_by exclusion_less (exclusions_of decisions);
        })
        else err (unfired found)

    -- BuildPlan
    unfoldable pub build_plan : Option Snapshot → Result PlanError Plan
    build_plan none = err nil_snapshot
    build_plan (some snap) = do
      let leaves = walk_leaves (restorable_tree snap)
      decisions ← decide_all leaves
      finish_plan leaves decisions
