-- ===== src/Tests/RestoreRun.antt =====
-- A restore of a small snapshot: a policy that skips one parameter and transforms another.
use cnpg_i_chronicle.Common.{
  ◌≡◌, refl, true, false, Option, none, some, List, [], ◌∷◌, ◌++◌, Text, codes, text_eq, text_lt,
  has_prefix, has_suffix, cut_prefix, cut_at, trim_suffix, Result, ok, err, ◌≢◌, arith, inl,
}
use cnpg_i_chronicle.Common.Sort.{insert_sorted, sort_by}
use cnpg_i_chronicle.Api.{fail_missing}
use cnpg_i_chronicle.Json
use cnpg_i_chronicle.Json.{Value, number, string, array, nil, object, Fields, end, field, distinct}
use cnpg_i_chronicle.PathUtil.{join, get_from, get_segments, set_segments, walk_leaves, leaf_path}
use cnpg_i_chronicle.PathUtil.Leaves.{is_terminal}
use cnpg_i_chronicle.PathUtil.Access.{Diverge}
use cnpg_i_chronicle.Snapshot.Denylist.{
  denied_paths, covers, is_denied_path, is_denied_metadata_key, is_denied_domain,
  denied_metadata_domains, denied_metadata_keys,
}
use cnpg_i_chronicle.Snapshot.PathCheck.{
  scalar, is_quantity_path, quantity_from, elem_type, field_by_json_name,
}
use cnpg_i_chronicle.Snapshot.Types.{Snapshot}
use cnpg_i_chronicle.Restore.Skip.{CompiledSkip, plain_skip, matches, skips}
use cnpg_i_chronicle.Restore.Transform.{
  Expressions, TransformSet, find, count_beneath, program_of, tolerates_missing, problem_of,
  problems, apply_transform,
}
use cnpg_i_chronicle.Restore.Plan.{
  Plan, to_any_map, restorable_metadata, restorable_tree, is_denied_metadata_leaf, apply_changes,
  apply_plan, decide_value, decide, decide_all, finish_plan, build_plan,
}
use cnpg_i_chronicle.Restore.Plan.Effect.{
  restores, restores_transformed, restore_adds_nothing, skipped_untouched,
}
use cnpg_i_chronicle.Restore.Plan.Safety.{denied_untouched}

program : Unit {0}
unfolding text_eq text_lt has_prefix has_suffix cut_prefix cut_at trim_suffix insert_sorted sort_by
    Json.lookup Json.insert distinct join get_from get_segments set_segments walk_leaves leaf_path
    denied_paths covers is_denied_path is_denied_metadata_key is_denied_domain
    denied_metadata_domains denied_metadata_keys is_quantity_path quantity_from elem_type
    field_by_json_name matches skips find count_beneath program_of tolerates_missing problem_of
    problems apply_transform to_any_map restorable_metadata restorable_tree is_denied_metadata_leaf
    apply_changes apply_plan decide_value decide decide_all finish_plan build_plan
program = tt

-- The one expression appends a zero to the digits of a number.
abbrev grow : Value → Result Text Value
grow (number n) = ok (number (n ++ codes "0"))
grow _ = err (codes "not a number")

abbrev expressions : Expressions (Unit {0})
expressions = record { compile = λ e. ok tt; evaluate = λ p v q. grow v }

abbrev rules : List CompiledSkip
rules = plain_skip (codes "path spec.storage") (codes "spec.storage") ∷ []

abbrev transforms : TransformSet (Unit {0})
transforms = record {
  by_path = (codes "spec.instances", record { program = tt; on_missing = fail_missing }) ∷ [];
  order = codes "spec.instances" ∷ [];
}

abbrev spec : Fields
spec = field (codes "instances") (number (codes "3")) (
    field (codes "storage") (object (field (codes "size") (string (codes "5Gi")) end))
      (field (codes "plugins") (array nil) (field (codes "logLevel") (string (codes "info")) end)))

abbrev snap : Snapshot
snap = record {
  api_version = [];
  kind = [];
  captured_at = 5;
  generation = 7;
  cluster = record { name = codes "a"; namespace = codes "b"; uid = codes "c" };
  source = record { plugin_version = []; image_name = [] };
  groups = [];
  capture_rules = [];
  content = record { spec = spec; labels = []; annotations = (codes "x", codes "y") ∷ [] };
  checksum = [];
}

abbrev target : Fields
target =
    field (codes "spec")
      (object (
        field (codes "plugins") (string (codes "mine"))
          (field (codes "storage") (object (field (codes "size") (string (codes "1Gi")) end)) end)))
      end

abbrev made : Plan
made = record {
  changes =
      record {
        path = codes "metadata.annotations.x";
        segments = codes "metadata" ∷ codes "annotations" ∷ codes "x" ∷ [];
        value = string (codes "y");
        transformed = false;
      }
      ∷ record {
        path = codes "spec.instances";
        segments = codes "spec" ∷ codes "instances" ∷ [];
        value = number (codes "30");
        transformed = true;
      }
      ∷ record {
        path = codes "spec.logLevel";
        segments = codes "spec" ∷ codes "logLevel" ∷ [];
        value = string (codes "info");
        transformed = false;
      }
      ∷ [];
  exclusions =
      record { path = codes "spec.plugins"; reason = codes "denied: never restored" }
      ∷ record { path = codes "spec.storage.size"; reason = codes "path spec.storage" }
      ∷ [];
}

planned : build_plan expressions scalar rules transforms (some snap) ≡ ok made
unfolding program
planned = refl

abbrev out : Fields
out =
    field (codes "spec")
      (object (
        field (codes "plugins") (string (codes "mine")) (
          field (codes "storage") (object (field (codes "size") (string (codes "1Gi")) end)) (
            field (codes "instances") (number (codes "30"))
              (field (codes "logLevel") (string (codes "info")) end)))))
      (field (codes "metadata")
        (object
          (field (codes "annotations") (object (field (codes "x") (string (codes "y")) end)) end))
        end)

applied : apply_plan made target ≡ ok out
unfolding program
applied = refl

restores_example :
    get_segments out (codes "spec" ∷ codes "logLevel" ∷ []) ≡ some (string (codes "info"))
unfolding program
restores_example =
    restores expressions scalar rules transforms snap made target out planned applied
      (codes "spec" ∷ codes "logLevel" ∷ []) (string (codes "info")) [] refl refl refl refl refl
      refl refl

-- A snapshot with an empty map, and a Cluster with a setting beneath.
abbrev bare_snap : Snapshot
bare_snap = record snap {
  content = record {
    spec = field (codes "resources") (object end) end;
    labels = [];
    annotations = [];
  };
}

abbrev no_transforms : TransformSet (Unit {0})
no_transforms = record { by_path = []; order = [] }

abbrev resources : List Text
resources = codes "spec" ∷ codes "resources" ∷ []

abbrev bare_plan : Plan
bare_plan = record {
  changes =
      record {
        path = codes "spec.resources";
        segments = resources;
        value = object end;
        transformed = false;
      }
      ∷ [];
  exclusions = [];
}

abbrev with_resources : Fields → Fields
with_resources m = field (codes "spec") (object (field (codes "resources") (object m) end)) end

restores_transformed_example :
    (w : Value) × (grow (number (codes "3")) ≡ ok w)
    × (get_segments out (codes "spec" ∷ codes "instances" ∷ []) ≡ some w)
unfolding program
restores_transformed_example =
    restores_transformed expressions scalar rules transforms snap made target out planned applied
      (codes "spec" ∷ codes "instances" ∷ []) (number (codes "3")) tt refl refl refl refl refl refl
      refl

skipped_untouched_example :
    get_segments out (codes "spec" ∷ codes "storage" ∷ codes "size" ∷ [])
    ≡ get_segments target (codes "spec" ∷ codes "storage" ∷ codes "size" ∷ [])
unfolding program
skipped_untouched_example =
    skipped_untouched expressions scalar rules transforms snap made target out planned applied
      (codes "spec" ∷ codes "storage" ∷ codes "size" ∷ []) (string (codes "5Gi"))
      (codes "path spec.storage") refl refl refl refl

denied_untouched_example :
    get_segments out (codes "spec" ∷ codes "plugins" ∷ [])
    ≡ get_segments target (codes "spec" ∷ codes "plugins" ∷ [])
unfolding program
denied_untouched_example =
    denied_untouched expressions scalar rules transforms snap made target out (codes "plugins") []
      planned applied refl refl

no_status : ◌≢◌ {A = Option Value} none (Json.lookup (codes "status") (restorable_tree snap)) → ⊥
unfolding program
no_status h = h refl

-- Every path into the snapshot's tree parts from "status".
apart_from_status :
    (segments : List Text) (v : Value)
    → get_segments (restorable_tree snap) segments ≡ some v
    → is_terminal v ≡ true
    → Diverge segments (codes "status" ∷ [])
unfolding get_segments
apart_from_status [] v g t = absurd (ground arith)
apart_from_status (s ∷ rest) v g t = inl (λ e. no_status (λ n. ground (arith, e, n)))

restore_adds_nothing_example :
    get_segments out (codes "status" ∷ []) ≡ get_segments target (codes "status" ∷ [])
unfolding program
restore_adds_nothing_example =
    restore_adds_nothing expressions scalar rules transforms snap made target out planned applied
      (codes "status" ∷ []) refl apart_from_status
