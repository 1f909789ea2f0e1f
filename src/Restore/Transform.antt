-- ===== src/Restore/Transform.antt =====
-- internal/restore/transform.go: the expressions of a policy. The expression language (CEL) is an
-- argument: a type of programs, the compiler and the evaluator. A nil TransformSet is the empty one.
use cnpg_i_chronicle.Common.{
  ℕ, ◌==◌, Bool, true, false, not, Option, none, some, List, [], ◌∷◌, ◌++◌, if◌then◌else◌, Text,
  codes, text_eq, text_lt, has_prefix, contains, is_nil, is_some, Result, ok, ◌>>=◌, ◌>>◌, refuse,
  wrap, keep, length,
}
use cnpg_i_chronicle.Common.Sort.{sort_by}
use cnpg_i_chronicle.Json.{Value}
use cnpg_i_chronicle.Api.{TransformRule, MissingAction, unset_missing, fail_missing, ignore_missing}
use cnpg_i_chronicle.PathUtil.{Leaf, leaf_path}
use cnpg_i_chronicle.Snapshot.PathCheck.{GoType, is_quantity_path}

-- Lookup in a map with string keys.
unfoldable pub find {ℓ} : {V : Type ℓ} → Text → List (Text × V) → Option V
find k [] = none
find k ((j, v) ∷ rest) = if text_eq j k then some v else find k rest

-- celenv: Compile with the environment of celenv.New, and Program.Evaluate of a captured value on
-- a path that is typed as a quantity or not.
pub record Expressions (Program : Type 0) : Type 0 where
  pub compile : Text → Result Text Program
  pub evaluate : Program → Value → Bool → Result Text Value

-- compiledTransform
pub record CompiledTransform (Program : Type 0) : Type 0 where
  pub program : Program
  pub on_missing : MissingAction

pub record TransformSet (Program : Type 0) : Type 0 where
  pub by_path : List (Text × CompiledTransform Program)
  pub order : List Text

pub data TransformError : Type 0 where
  no_path : TransformError
  duplicate : Text → TransformError
  bad_expression : Text → Text → TransformError

-- What checkAllFired says of a transform that never ran.
pub data Problem : Type 0 where
  transformed_and_skipped : Text → Text → Problem
  names_an_object : Text → ℕ → Problem
  nothing_captured : Text → Problem

abbrev pub or_missing_fail : MissingAction → MissingAction
or_missing_fail unset_missing = fail_missing
or_missing_fail fail_missing = fail_missing
or_missing_fail ignore_missing = ignore_missing

abbrev pub is_ignore : MissingAction → Bool
is_ignore ignore_missing = true
is_ignore unset_missing = false
is_ignore fail_missing = false

-- countBeneath
unfoldable pub count_beneath : List Text → Text → ℕ
count_beneath leaves path =
    length (keep (λ (leaf : Text). has_prefix leaf (path ++ codes ".")) leaves)

module _ {Program : Type 0} where
  abbrev pub no_transforms : TransformSet Program
  no_transforms = record { by_path = []; order = [] }

  -- Program, of a path
  unfoldable pub program_of : TransformSet Program → Text → Option Program
  program_of set path = elim (find path set.by_path) [
    | none ↦ none
    | some compiled ↦ some compiled.program
  ]

  -- toleratesMissing
  unfoldable pub tolerates_missing : TransformSet Program → Text → Bool
  tolerates_missing set path = elim (find path set.by_path) [
    | none ↦ false
    | some compiled ↦ is_ignore compiled.on_missing
  ]

  -- checkAllFired for one path: the problem, if there is one
  unfoldable pub problem_of :
      TransformSet Program → List Text → List (Text × Text) → List Text → Text → Option Problem
  problem_of set fired skipped leaves path =
      if contains fired path then none else elim (find path skipped) [
        | some reason ↦ some (transformed_and_skipped path reason)
        | none ↦
            if not (count_beneath leaves path == 0)
            then some (names_an_object path (count_beneath leaves path))
            else if tolerates_missing set path
            then none
            else some (nothing_captured path)
      ]

  -- The loop of checkAllFired
  unfoldable pub problems :
      TransformSet Program → List Text → List (Text × Text) → List Text → List Text → List Problem
  problems set fired skipped leaves [] = []
  problems set fired skipped leaves (path ∷ paths) =
      let rest = problems set fired skipped leaves paths in
      elim (problem_of set fired skipped leaves path) [
        | none ↦ rest
        | some problem ↦ problem ∷ rest
      ]

  module _ (expressions : Expressions Program) where
    -- The loop of NewTransformSet, over the rules that are left.
    unfoldable pub add_rules :
        TransformSet Program → List TransformRule → Result TransformError (TransformSet Program)
    add_rules set [] = ok set
    add_rules set (rule ∷ rules) = do
      refuse (is_nil rule.path) no_path
      refuse (is_some (find rule.path set.by_path)) (duplicate rule.path)
      program ← wrap (bad_expression rule.path) (expressions.compile rule.expression)
      add_rules
          (record {
            by_path =
                (
                  rule.path,
                  record { program = program; on_missing = or_missing_fail rule.on_missing },
                )
                ∷ set.by_path;
            order = set.order ++ (rule.path ∷ []);
          })
          rules

    -- NewTransformSet
    unfoldable pub new_transform_set :
        List TransformRule → Result TransformError (TransformSet Program)
    new_transform_set rules = do
      set ← add_rules no_transforms rules
      ok (record set { order = sort_by text_lt set.order })

    -- Apply: `none` where the path has no transform.
    unfoldable pub apply_transform :
        GoType → TransformSet Program → Leaf → Option (Result Text Value)
    apply_transform cluster_spec set leaf = elim (program_of set (leaf_path leaf)) [
      | none ↦ none
      | some program ↦
          some
            (expressions.evaluate program leaf.value (is_quantity_path cluster_spec leaf.segments))
    ]
