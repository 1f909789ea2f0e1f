-- ===== src/Tests/Admission.antt =====
-- A Cluster that is admitted with a request to restore, and the patch that it is given.
use cnpg_i_chronicle.Common.{
  ℕ, ◌≡◌, arith, refl, subst, true, none, some, [], ◌∷◌, Text, codes, text_eq, text_lt, has_prefix,
  has_suffix, cut_prefix, cut_at, trim_suffix, ok, err,
}
use cnpg_i_chronicle.Common.Sort.{insert_sorted, sort_by}
use cnpg_i_chronicle.Json
use cnpg_i_chronicle.Json.{Value, string, object, array, nil, cons, Fields, end, field, distinct}
use cnpg_i_chronicle.PathUtil.{
  split_dots, split, join, get_from, get_segments, get, step_into, set_segments, walk_fields,
  walk_value, walk_leaves, leaf_path,
}
use cnpg_i_chronicle.Api.{
  unset_mode, unset_action, ConfigStore, get_mode, resolve_mode, default_mode, get_prefix,
}
use cnpg_i_chronicle.Snapshot.Denylist.{
  plugin_name, denied_paths, covers, is_denied_path, is_denied_metadata_key, is_denied_domain,
  denied_metadata_domains, denied_metadata_keys,
}
use cnpg_i_chronicle.Snapshot.PathCheck.{scalar, is_quantity_path, quantity_from}
use cnpg_i_chronicle.Snapshot.Types.{Snapshot, digest, checksum}
use cnpg_i_chronicle.Store.Layout.{
  trim_left, trim, kept_segments, join_slashes, join_key, root, latest_key, snapshots_prefix,
  snapshot_key, snapshot_name, padded, digits, width_of, short_hash, hash_part,
}
use cnpg_i_chronicle.Store.Snapshots
use cnpg_i_chronicle.Store.Snapshots.{verify, decode_snapshot, Backend}
use cnpg_i_chronicle.Store.Resolver.{Provider, Resolved, layout_for, open_store}
use cnpg_i_chronicle.Restore.Skip.{new_skip_set, skips}
use cnpg_i_chronicle.Restore.Transform.{
  Expressions, find, count_beneath, program_of, tolerates_missing, problem_of, problems,
  apply_transform, add_rules, new_transform_set,
}
use cnpg_i_chronicle.Restore.Plan.{
  to_any_map, restorable_metadata, restorable_tree, is_denied_metadata_leaf, validate_coherence,
  validate_skip_paths, validate_transform_paths, apply_changes, apply_plan, transformed_paths,
  compile_rules, decide_value, decide, decide_all, finish_plan, build_plan,
}
use cnpg_i_chronicle.Restore.Select.{select_latest, select}
use cnpg_i_chronicle.Operator.Config.{
  parameter, new_from_parameters, validate, is_restore_requested,
}
use cnpg_i_chronicle.Webhook.{
  Request, patch, allowed, already_restored, Reader, ClusterCodec, string_parameters,
  declared_parameters, parameters_in, plugin_parameters, check_source_is_not_also_destination,
  policy_skips, policy_transforms, namespace_of, name_of, load_policy, load, annotate_with_record,
  restore_planned, restore_opened, restore, handle_requested, handle_configured, handle_cluster,
  handle,
}
use cnpg_i_chronicle.Webhook.Admission.{handles, handles_cluster, handle_keeps_denied, handle_again}
use cnpg_i_chronicle.Tests.Captures.{encoding, codec, snap, time, Objects, objects}

program : Unit {0}
unfolding text_eq text_lt has_prefix has_suffix cut_prefix cut_at trim_suffix insert_sorted sort_by
    Json.lookup Json.insert distinct split_dots split join get_from get_segments get step_into
    set_segments walk_fields walk_value walk_leaves leaf_path get_mode resolve_mode default_mode
    get_prefix denied_paths covers is_denied_path is_denied_metadata_key is_denied_domain
    denied_metadata_domains denied_metadata_keys is_quantity_path quantity_from digest checksum
    trim_left trim kept_segments join_slashes join_key root latest_key snapshots_prefix snapshot_key
    snapshot_name padded digits width_of short_hash hash_part verify decode_snapshot
    Snapshots.latest layout_for open_store new_skip_set skips find count_beneath program_of
    tolerates_missing problem_of problems apply_transform add_rules new_transform_set to_any_map
    restorable_metadata restorable_tree is_denied_metadata_leaf validate_coherence
    validate_skip_paths validate_transform_paths apply_changes apply_plan transformed_paths
    compile_rules decide_value decide decide_all finish_plan build_plan select_latest select
    parameter new_from_parameters validate is_restore_requested string_parameters
    declared_parameters parameters_in plugin_parameters check_source_is_not_also_destination
    policy_skips policy_transforms namespace_of name_of load_policy load annotate_with_record
    restore_planned restore_opened restore handle_requested handle_configured handle_cluster handle
program = tt

abbrev declaration : Fields
declaration = field (codes "name") (string plugin_name) (
    field (codes "parameters")
      (object (
        field (codes "restoreFromStore") (string (codes "s"))
          (field (codes "restoreFromServer") (string (codes "a")) end)))
      end)

abbrev created : Fields
created = field (codes "metadata") (object (field (codes "name") (string (codes "new")) end)) (
    field (codes "spec")
      (object (field (codes "plugins") (array (cons (object declaration) nil)) end)) end)

abbrev clusters : ClusterCodec
clusters = record {
  decode = λ raw. some created;
  encode = λ c. some (codes "patched");
  encode_record = λ r. some (codes "restored");
}

abbrev no_expressions : Expressions (Unit {0})
no_expressions = record { compile = λ e. ok tt; evaluate = λ p v q. ok v }

abbrev store : ConfigStore
store = record {
  name = codes "s";
  namespace = codes "n";
  derived_from = none;
  configuration = none;
  retention = [];
  capture_groups = [];
  prefix = [];
}

abbrev reader : Reader
reader = record {
  get_config_store = λ namespace name. ok store;
  get_restore_policy = λ namespace name. ok (record {
    name = [];
    select = record {
      mode = unset_mode;
      generation = none;
      timestamp = none;
      on_unresolvable = unset_action;
    };
    skip = [];
    transform = [];
  });
  get_backup = λ namespace name. err [];
  list_backups = λ namespace. ok [];
}

abbrev pub resolved : Resolved
resolved = record {
  configuration = record {
    destination_path = codes "s3://b/backups";
    endpoint_url = [];
    endpoint_ca = none;
    s3_credentials = none;
  };
  destination = record { scheme = codes "s3"; bucket = codes "b"; path = codes "backups" };
  source = codes "Inline";
  provider = codes "s3";
  inherited_retention = [];
}

abbrev provider : Provider Objects
provider = record {
  resolve = λ s. ok resolved;
  backend = λ namespace r. ok (record objects { get = λ s key. ok (codes "snap") });
}

abbrev request : Request
request = record { raw = codes "created"; namespace = codes "n" }

handled :
    handles clusters encoding codec time no_expressions scalar
      (λ t. none)
      reader
      provider
      9
      []
      request
    ≡ patch (codes "created") (codes "patched")
unfolding program
handled = refl

decodes_distinct :
    (raw : Text) (found : Snapshot)
    → codec.decode raw ≡ some found
    → distinct (restorable_tree found) ≡ true
unfolding program
decodes_distinct raw found e =
    let same : snap ≡ found = ground arith in
    subst (λ (x : Snapshot). distinct (restorable_tree x) ≡ true) same refl

handle_keeps_denied_example :
    (cluster : Fields) × (out : Fields) × (clusters.decode (codes "created") ≡ some cluster)
    × (clusters.encode out ≡ some (codes "patched"))
    × (get_segments out (codes "spec" ∷ codes "plugins" ∷ [])
        ≡ get_segments cluster (codes "spec" ∷ codes "plugins" ∷ []))
unfolding program
handle_keeps_denied_example =
    handle_keeps_denied clusters encoding codec time no_expressions scalar (λ t. none) reader
      provider 9 [] request (codes "created") (codes "patched") (codes "plugins") []
      decodes_distinct refl handled

handle_again_example :
    (out : Fields) × (clusters.encode out ≡ some (codes "patched"))
    × ((clock : ℕ) (s : Objects) (raw namespace : Text)
        → handles_cluster clusters encoding codec time no_expressions scalar
            (λ t. none)
            reader
            provider
            clock
            s
            raw
            namespace
            out
          ≡ allowed already_restored)
handle_again_example =
    handle_again clusters encoding codec time no_expressions scalar (λ t. none) reader provider 9 []
      request (codes "created") (codes "patched") decodes_distinct handled
