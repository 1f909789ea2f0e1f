-- ===== src/Webhook.antt =====
-- internal/webhook/cluster_mutate.go: the admission webhook that restores a Cluster as it is
-- created. The Kubernetes reads, the provider of a store, JSON, CEL and the clock's reading are
-- arguments; the deadline of ten seconds is left out.
pub mod Types
pub mod Parameters
pub mod Patched
pub mod Admission
use cnpg_i_chronicle.Common.{
  ℕ, Bool, true, false, ◌||◌, ◌&&◌, not, Option, none, some, List, [], ◌∷◌, if◌then◌else◌, Text,
  codes, text_eq, is_nil, is_some, length, Result, ok, err, ◌>>=◌, ◌>>◌, wrap, refuse, bind_option,
}
use cnpg_i_chronicle.Json.{
  Value, null, boolean, number, string, array, object, Items, nil, cons, Fields, end, field, lookup,
  as_map, as_string, as_slice,
}
use cnpg_i_chronicle.PathUtil.{get, get_segments, set_segments}
use cnpg_i_chronicle.Api.{SkipRule, TransformRule, RestorePolicy, ConfigStore, resolve_mode}
use cnpg_i_chronicle.Snapshot.Denylist.{StringMap, plugin_name}
use cnpg_i_chronicle.Snapshot.PathCheck.{GoType}
use cnpg_i_chronicle.Snapshot.Types.{Encoding}
use cnpg_i_chronicle.Store.Layout.{TimeFormat, Layout}
use cnpg_i_chronicle.Store.Snapshots
use cnpg_i_chronicle.Store.Snapshots.{StoreError, Backend, SnapshotCodec, list_refs, read}
use cnpg_i_chronicle.Store.Resolver.{ReadError, ResolveError, Provider, open_store}
use cnpg_i_chronicle.Restore.Skip.{CompiledSkip}
use cnpg_i_chronicle.Restore.Transform.{Expressions, TransformSet}
use cnpg_i_chronicle.Restore.Plan.{
  RuleError, PlanError, Plan, compile_rules, build_plan, apply_plan, transformed_paths,
}
use cnpg_i_chronicle.Restore.RecoveryTarget.{Backup, Detail, TargetResolution, kube_backup_lookup}
use cnpg_i_chronicle.Restore.Select.{Selector, SelectError, Resolution, select}
use cnpg_i_chronicle.Operator.Config.{
  PluginConfiguration, ConfigError, new_from_parameters, validate, is_restore_requested,
}
use cnpg_i_chronicle.Operator.Hooks.{annotation_restored_from}
pub use cnpg_i_chronicle.Webhook.Types.{
  RestoreRecord, Request, AllowedReason, not_configured, no_restore, already_restored, Refusal,
  invalid, interleaved, no_store, no_policy, unusable, unopened, unselected, unplanned,
  changes_nothing, blocked, unrecorded, unannotated, unencoded, Response, allowed, denied,
  bad_request, patch, Reader, ClusterCodec,
}
unfoldable pub use cnpg_i_chronicle.Webhook.Parameters.{
  text_at, is_false, string_parameters, declared_parameters, parameters_in, plugin_parameters,
  name_of,
}

-- checkSourceIsNotAlsoDestination
unfoldable pub check_source_is_not_also_destination :
    PluginConfiguration → Result Refusal (Unit {0})
check_source_is_not_also_destination c =
    if is_nil c.save_to_store || is_nil c.restore_from_store
    then ok tt
    else if not (text_eq c.save_to_store c.restore_from_store)
    then ok tt
    else if not (text_eq c.save_to_server c.restore_from_server)
    then ok tt
    else err (interleaved c.save_to_store c.save_to_server)

-- The configuration that Handle makes of the parameters
abbrev pub configuration_of : StringMap → Text → PluginConfiguration
configuration_of parameters cluster_name = record (new_from_parameters parameters cluster_name) {
  present = true;
  enabled = true;
}

-- policySkips and policyTransforms
unfoldable pub policy_skips : Option RestorePolicy → List SkipRule
policy_skips none = []
policy_skips (some policy) = policy.skip

unfoldable pub policy_transforms : Option RestorePolicy → List TransformRule
policy_transforms none = []
policy_transforms (some policy) = policy.transform

abbrev pub restored_from_path : List Text
restored_from_path = codes "metadata" ∷ codes "annotations" ∷ annotation_restored_from ∷ []

-- The namespace that Handle works in
unfoldable pub namespace_of : Request → Fields → Text
namespace_of request cluster =
    if not (is_nil request.namespace)
    then request.namespace
    else elim (bind_option (get cluster (codes "metadata.namespace")) as_string) [
      | none ↦ []
      | some namespace ↦ namespace
    ]

module _ (reader : Reader) where
  -- The part of load that reads the policy
  unfoldable pub load_policy : Text → Text → Result Refusal (Option RestorePolicy)
  load_policy namespace name = if is_nil name then ok none else (do
    policy ← wrap (no_policy name) (reader.get_restore_policy namespace name)
    ok (some policy))

  -- load
  unfoldable pub load :
      Text → PluginConfiguration → Result Refusal (ConfigStore × Option RestorePolicy)
  load namespace c = do
    store ←
        wrap (no_store c.restore_from_store)
          (reader.get_config_store namespace c.restore_from_store)
    policy ← load_policy namespace c.restore_policy
    ok (store, policy)

-- The history that Open opened, in the store's state, as Select uses it
abbrev pub history :
    Encoding
    → SnapshotCodec
    → TimeFormat
    → {S : Type 0} → S
    → Backend S
    → Layout
    → Selector StoreError
history encoding codec time s backend layout = record {
  list = list_refs encoding codec backend time layout s;
  read = read encoding codec backend time layout s;
  latest = Snapshots.latest encoding codec backend time layout s;
}

-- The record of a restore at a moment
abbrev pub record_of : ℕ → PluginConfiguration → ConfigStore → Resolution → Plan → RestoreRecord
record_of clock c store resolution plan = record {
  store = store.name;
  policy = c.restore_policy;
  server_name = c.restore_from_server;
  snapshot_key = resolution.key;
  generation = resolution.snapshot.generation;
  captured_at = resolution.snapshot.captured_at;
  restored_at = clock;
  changed = length plan.changes;
  skipped = length plan.exclusions;
  aligned_with = bind_option resolution.target (λ (t : TargetResolution). some t.detail);
  transformed = transformed_paths plan.changes;
}

module _ (clusters : ClusterCodec) where
  -- annotateWithRecord
  unfoldable pub annotate_with_record : Fields → RestoreRecord → Result Refusal Text
  annotate_with_record cluster entry = elim (clusters.encode_record entry) [
    | none ↦ err unrecorded
    | some encoded ↦
        let (annotated, done) = set_segments cluster restored_from_path (string encoded) in
        if not done
        then err unannotated
        else elim (clusters.encode annotated) [ none ↦ err unencoded | some patched ↦ ok patched ]
  ]

  module _ (encoding : Encoding) (codec : SnapshotCodec) (time : TimeFormat) {Program : Type 0}
      (expressions : Expressions Program) (cluster_spec : GoType)
      (parse_target_time : Text → Option ℕ) (reader : Reader) {S : Type 0} (provider : Provider S)
      (clock : ℕ) (s : S) where
    -- restore, from the plan on
    unfoldable pub restore_planned :
        PluginConfiguration
        → ConfigStore
        → Resolution
        → Plan
        → Fields
        → Result Refusal (RestoreRecord × Text)
    restore_planned c store resolution plan cluster = do
      refuse (is_nil plan.changes)
          (changes_nothing resolution.key (length plan.exclusions) c.restore_policy)
      restored ← wrap blocked (apply_plan plan cluster)
      patched ← annotate_with_record restored (record_of clock c store resolution plan)
      ok (record_of clock c store resolution plan, patched)

    -- restore, from the opened history on
    unfoldable pub restore_opened :
        Text
        → PluginConfiguration
        → ConfigStore × Option RestorePolicy
        → List CompiledSkip × TransformSet Program
        → Backend S × Layout
        → Fields
        → Result Refusal (RestoreRecord × Text)
    restore_opened namespace c (store, policy) (skips, transforms) (backend, layout) cluster = do
      resolution ← wrap (unselected c.restore_from_server store.name) (
          select (history encoding codec time s backend layout) parse_target_time
            (resolve_mode policy (is_some (get cluster (codes "spec.bootstrap.recovery")))) policy
            (some (record {
              cluster = cluster;
              namespace = namespace;
              backups = some (kube_backup_lookup reader.get_backup reader.list_backups);
            })))
      plan ←
          wrap unplanned
            (build_plan expressions cluster_spec skips transforms (some resolution.snapshot))
      restore_planned c store resolution plan cluster

    -- restore
    unfoldable pub restore :
        Text → PluginConfiguration → Fields → Result Refusal (RestoreRecord × Text)
    restore namespace c cluster = do
      (store, policy) ← load reader namespace c
      rules ←
          wrap (unusable c.restore_policy) (
            compile_rules expressions cluster_spec (policy_skips policy) (policy_transforms policy))
      source ← wrap (unopened store.name) (open_store provider store c.restore_from_server)
      restore_opened namespace c (store, policy) rules source cluster

    abbrev pub response_to : Text → Result Refusal (RestoreRecord × Text) → Response
    response_to raw (err e) = denied e
    response_to raw (ok (entry, patched)) = patch raw patched

    -- Handle, on a configuration that requests a restore
    unfoldable pub handle_requested : Text → Text → PluginConfiguration → Fields → Response
    handle_requested raw namespace c cluster =
        if is_some (get_segments cluster restored_from_path)
        then allowed already_restored
        else response_to raw (restore namespace c cluster)

    abbrev pub unless_refused :
        {E : Type 0} → (E → Refusal) → Result E (Unit {0}) → Response → Response
    unless_refused refusal (err e) next = denied (refusal e)
    unless_refused refusal (ok _) next = next

    -- Handle, on the configuration
    unfoldable pub handle_configured : Text → Text → PluginConfiguration → Fields → Response
    handle_configured raw namespace c cluster = unless_refused invalid (validate c) (
        unless_refused (λ (r : Refusal). r) (check_source_is_not_also_destination c)
          (if not (is_restore_requested c)
            then allowed no_restore
            else handle_requested raw namespace c cluster))

    -- Handle, on the Cluster that was decoded
    unfoldable pub handle_cluster : Text → Text → Fields → Response
    handle_cluster raw namespace cluster = elim (plugin_parameters cluster) [
      | none ↦ allowed not_configured
      | some parameters ↦
          handle_configured raw namespace (configuration_of parameters (name_of cluster)) cluster
    ]

    -- Handle
    unfoldable pub handle : Request → Response
    handle request = elim (clusters.decode request.raw) [
      | none ↦ bad_request
      | some cluster ↦ handle_cluster request.raw (namespace_of request cluster) cluster
    ]
