-- ===== src/Controller/Stores.antt =====
-- internal/controller/configstore_controller.go: whether a ConfigStore is usable, and Reconcile. The
-- reads and the patch of the Kubernetes client, the provider of a store, meta.SetStatusCondition, the
-- clock's reading, the wording of an error and Go's quoting are arguments. The deadline of the probe
-- is left out.
use cnpg_i_chronicle.Common.{
  ℕ, Bool, true, false, Option, none, some, List, [], ◌∷◌, ◌++◌, if◌then◌else◌, Text, codes, is_nil,
  is_some, Result, ok, err, ◌>>=◌, ◌>>◌, wrap,
}
use cnpg_i_chronicle.Api.{ConfigStore}
use cnpg_i_chronicle.Cluster.{Cluster}
use cnpg_i_chronicle.Snapshot.Groups.{lookup_group, effective_group_names}
use cnpg_i_chronicle.Snapshot.Types.{Encoding}
use cnpg_i_chronicle.Store.Layout.{TimeFormat}
use cnpg_i_chronicle.Store.Resolver.{
  ReadError, missing, no_match, unreadable, ResolveError, crd_absent, unread, unreadable_secret,
  Provider,
}
use cnpg_i_chronicle.Store.Snapshots.{StoreError, bucket_not_found, SnapshotCodec}
use cnpg_i_chronicle.Controller.Status.{Condition, ResolvedStore, StoreStatus, equal_status}
use cnpg_i_chronicle.Controller.Retention.{
  RetentionError, CheckedStore, effective_retention, describe_retention, enforce_retention,
}

-- The reasons and the type of the condition, of configstore_types.go
abbrev pub condition_ready : Text
condition_ready = codes "Ready"

abbrev pub reason_resolved : Text
reason_resolved = codes "Resolved"

abbrev pub reason_object_store_missing : Text
reason_object_store_missing = codes "ObjectStoreNotFound"

abbrev pub reason_object_store_crd_absent : Text
reason_object_store_crd_absent = codes "ObjectStoreCRDNotInstalled"

abbrev pub reason_configuration_invalid : Text
reason_configuration_invalid = codes "ConfigurationInvalid"

abbrev pub reason_object_store_unreachable : Text
reason_object_store_unreachable = codes "ObjectStoreUnreachable"

-- resyncInterval and notReadyRetryInterval, in nanoseconds
abbrev pub resync_interval : ℕ
resync_interval = 600000000000

abbrev pub not_ready_retry_interval : ℕ
not_ready_retry_interval = 60000000000

pub data CheckError : Type 0 where
  unresolvable no_backend : ResolveError → CheckError
  unknown_groups : List Text → CheckError
  bad_retention : RetentionError → CheckError
  unreachable : StoreError → CheckError

-- The reason of an error of Resolve
unfoldable pub resolve_reason : ResolveError → Text
resolve_reason crd_absent = reason_object_store_crd_absent
resolve_reason (unread missing) = reason_object_store_missing
resolve_reason (unreadable_secret name missing) = reason_object_store_missing
resolve_reason _ = reason_configuration_invalid

abbrev pub reasoned : {A : Type 0} → Result ResolveError A → Result (Text × CheckError) A
reasoned (ok a) = ok a
reasoned (err e) = err (resolve_reason e, unresolvable e)

-- The loop of validateCaptureGroups
unfoldable pub unknown_among : List Text → List Text
unknown_among [] = []
unknown_among (name ∷ rest) =
    let unknown = unknown_among rest in
    if is_some (lookup_group name) then unknown else name ∷ unknown

-- validateCaptureGroups
unfoldable pub validate_capture_groups : List Text → Result CheckError (Unit {0})
validate_capture_groups configured =
    let unknown = unknown_among configured in
    if is_nil unknown then ok tt else err (unknown_groups unknown)

-- The probe's answer: whether the bucket is missing.
abbrev pub bucket_is_missing : Result StoreError (Unit {0}) → Result StoreError Bool
bucket_is_missing (ok _) = ok false
bucket_is_missing (err bucket_not_found) = ok true
bucket_is_missing (err e) = err e

-- A write of the status, where it changed, and what Reconcile returns: an error of the read or of the
-- patch, or when to come back.
pub data Answer : Type 0 where
  done : Answer
  requeue_after : ℕ → Answer
  unread_store : ReadError → Answer
  unpatched : Text → Answer

pub record Reconciled (S : Type 0) : Type 0 where
  pub store : S
  pub written : Option StoreStatus
  pub answer : Answer

abbrev pub invalid_because : {E : Type 0} → (E → CheckError) → E → Text × CheckError
invalid_because failure e = (reason_configuration_invalid, failure e)

module _ {S : Type 0} (provider : Provider S) where
  -- check
  unfoldable pub check : S → ConfigStore → Result (Text × CheckError) (CheckedStore S)
  check s store = do
    resolved ← reasoned (provider.resolve store)
    wrap (invalid_because (λ (e : CheckError). e)) (validate_capture_groups store.capture_groups)
    retention ← wrap (invalid_because bad_retention) (effective_retention store resolved)
    backend ← wrap (invalid_because no_backend) (provider.backend store.namespace resolved)
    bucket_missing ←
        wrap (λ (e : StoreError). (reason_object_store_unreachable, unreachable e))
          (bucket_is_missing (backend.check s resolved.destination.path))
    ok (record {
      resolved = resolved;
      backend = backend;
      retention = retention;
      bucket_missing = bucket_missing;
    })

module _ (message_of : CheckError → Text) (quoted : Text → Text) where
  abbrev pub not_ready : Text → CheckError → Condition
  not_ready reason e = record {
    kind = condition_ready;
    status = codes "False";
    observed_generation = 0;
    last_transition_time = 0;
    reason = reason;
    message = message_of e;
  }

  abbrev pub resolved_message : {S : Type 0} → CheckedStore S → Text
  resolved_message checked =
      codes "Object store configuration resolved from "
      ++ (checked.resolved.source
          ++ (if checked.bucket_missing
              then codes "; bucket "
                ++ (quoted checked.resolved.destination.bucket
                    ++ codes " does not exist yet and is created on first write")
              else []))

  abbrev pub ready : {S : Type 0} → CheckedStore S → Condition
  ready checked = record {
    kind = condition_ready;
    status = codes "True";
    observed_generation = 0;
    last_transition_time = 0;
    reason = reason_resolved;
    message = resolved_message checked;
  }

  -- Status.Resolved of a store that passed
  abbrev pub resolved_of : {S : Type 0} → ConfigStore → CheckedStore S → ℕ → ResolvedStore
  resolved_of store checked now = record {
    destination_path = checked.resolved.configuration.destination_path;
    endpoint_url = checked.resolved.configuration.endpoint_url;
    provider = checked.resolved.provider;
    retention = describe_retention checked.retention;
    capture_groups = effective_group_names store.capture_groups;
    source = checked.resolved.source;
    observed_at = some now;
  }

  module _ (set_status_condition : List Condition → Condition → List Condition)
      (patch_status : StoreStatus → Result Text (Unit {0})) {S : Type 0} where
    -- patchStatus, and the end of Reconcile
    unfoldable pub patched : S → StoreStatus → StoreStatus → ℕ → Reconciled S
    patched s original updated interval =
        if equal_status original updated
        then record { store = s; written = none; answer = requeue_after interval }
        else elim (patch_status updated) [
          | err e ↦ record { store = s; written = none; answer = unpatched e }
          | ok _ ↦ record { store = s; written = some updated; answer = requeue_after interval }
        ]

    module _ (encoding : Encoding) (codec : SnapshotCodec) (time : TimeFormat)
        (provider : Provider S) (now : ℕ) (clusters : Result ReadError (List Cluster)) where
      -- Reconcile, on what check returned
      unfoldable pub reconcile_checked :
          S → ConfigStore → StoreStatus → Result (Text × CheckError) (CheckedStore S) → Reconciled S
      reconcile_checked s store status (err (reason, e)) =
          patched s status
            (record {
              resolved = none;
              conditions = set_status_condition status.conditions (not_ready reason e);
            })
            not_ready_retry_interval
      reconcile_checked s store status (ok checked) =
          patched (enforce_retention encoding codec time s store checked now clusters) status
            (record {
              resolved = some (resolved_of store checked now);
              conditions = set_status_condition status.conditions (ready checked);
            })
            resync_interval

      -- Reconcile, on the ConfigStore that was read, with its status
      unfoldable pub reconcile : S → Result ReadError (ConfigStore × StoreStatus) → Reconciled S
      reconcile s (err missing) = record { store = s; written = none; answer = done }
      reconcile s (err no_match) = record {
        store = s;
        written = none;
        answer = unread_store no_match;
      }
      reconcile s (err (unreadable e)) = record {
        store = s;
        written = none;
        answer = unread_store (unreadable e);
      }
      reconcile s (ok (store, status)) = reconcile_checked s store status (check provider s store)
