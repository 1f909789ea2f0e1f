-- ===== src/Controller/Retention.antt =====
-- internal/controller/configstore_controller.go: the retention of a store, and the sweep that
-- enforces it. Logging is left out. A window is an int64 of nanoseconds, by its bit pattern.
pub mod Swept
use cnpg_i_chronicle.Common.{
  ℕ, ◌-◌, ◌/◌, Bool, true, false, not, ◌||◌, Option, none, some, List, [], ◌∷◌, ◌++◌, if◌then◌else◌,
  leb, ◌==◌, Text, codes, text_eq, is_nil, Result, ok, err, wrap,
}
use cnpg_i_chronicle.Api.{ConfigStore, retention_forever, retention_inherit, get_retention}
use cnpg_i_chronicle.Api.Window.{
  modulus, int64_bound, day, WindowError, parse_retention_window, negated, add_duration,
}
use cnpg_i_chronicle.Cluster.{Cluster}
use cnpg_i_chronicle.Snapshot.Types.{Encoding}
use cnpg_i_chronicle.Store.Layout.{TimeFormat, Layout, digits, width_of}
use cnpg_i_chronicle.Store.Refs.{SnapshotRef}
use cnpg_i_chronicle.Store.Retention.{plan_retention}
use cnpg_i_chronicle.Store.Resolver.{Resolved, ReadError, layout_for}
use cnpg_i_chronicle.Store.Snapshots.{StoreError, Backend, SnapshotCodec, list_refs}
use cnpg_i_chronicle.Operator.Config.{PluginConfiguration, new_from_cluster, is_save_enabled}

pub data RetentionError : Type 0 where
  nothing_inherited : RetentionError
  bad_inherited bad_window : WindowError → RetentionError

-- effectiveRetention; a window of zero keeps everything.
unfoldable pub effective_retention : ConfigStore → Resolved → Result RetentionError ℕ
effective_retention store resolved =
    let value = get_retention store in
    if text_eq value retention_forever
    then ok 0
    else if text_eq value retention_inherit
    then if is_nil resolved.inherited_retention
      then err nothing_inherited
      else wrap bad_inherited (parse_retention_window resolved.inherited_retention)
    else wrap bad_window (parse_retention_window value)

abbrev pub decimal : ℕ → Text
decimal n = digits (width_of 19 n) n

-- The whole days of a window. Go divides floating-point hours; whole days come out the same.
abbrev pub day_count : ℕ → Text
day_count window =
    if leb int64_bound window
    then (if (modulus - window) / day == 0
        then codes "0"
        else codes "-" ++ decimal ((modulus - window) / day))
    else decimal (window / day)

-- describeRetention
unfoldable pub describe_retention : ℕ → Text
describe_retention window = if window == 0 then retention_forever else day_count window ++ codes "d"

-- The part of checkedStore that the sweep reads, and what else check established.
pub record CheckedStore (S : Type 0) : Type 0 where
  pub resolved : Resolved
  pub backend : Backend S
  pub retention : ℕ
  pub bucket_missing : Bool

module _ {S : Type 0} where
  -- The loop over the planned keys: it ends at the first that is not deleted.
  unfoldable pub delete_keys : Backend S → S → List Text → S
  delete_keys backend s [] = s
  delete_keys backend s (key ∷ rest) =
      let (s', result) = backend.delete s key in
      elim result [ err _ ↦ s' | ok _ ↦ delete_keys backend s' rest ]

  module _ (encoding : Encoding) (codec : SnapshotCodec) (time : TimeFormat) where
    abbrev pub delete_planned : Backend S → S → ℕ → Result StoreError (List SnapshotRef) → S
    delete_planned backend s cutoff (err e) = s
    delete_planned backend s cutoff (ok refs) = delete_keys backend s (plan_retention refs cutoff)

    -- pruneSuperseded
    unfoldable pub prune_superseded : S → Backend S → ConfigStore → Resolved → Text → ℕ → S
    prune_superseded s backend store resolved server_name cutoff =
        delete_planned backend s cutoff
          (list_refs encoding codec backend time (layout_for store resolved server_name) s)

    -- The loop of enforceRetention over the Clusters
    unfoldable pub prune_each : S → Backend S → ConfigStore → Resolved → ℕ → List Cluster → S
    prune_each s backend store resolved cutoff [] = s
    prune_each s backend store resolved cutoff (cluster ∷ rest) =
        let c = new_from_cluster cluster in
        prune_each
          (if not (is_save_enabled c) || not (text_eq c.save_to_store store.name)
            then s
            else prune_superseded s backend store resolved c.save_to_server cutoff)
          backend store resolved cutoff rest

    abbrev pub prune_listed :
        S → ConfigStore → CheckedStore S → ℕ → Result ReadError (List Cluster) → S
    prune_listed s store checked now (err e) = s
    prune_listed s store checked now (ok clusters) =
        prune_each s checked.backend store checked.resolved
          (add_duration now (negated checked.retention)) clusters

    -- enforceRetention, with the clock's reading and the list of the namespace's Clusters
    unfoldable pub enforce_retention :
        S → ConfigStore → CheckedStore S → ℕ → Result ReadError (List Cluster) → S
    enforce_retention s store checked now clusters =
        if checked.retention == 0 || checked.bucket_missing
        then s
        else prune_listed s store checked now clusters
