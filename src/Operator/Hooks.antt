-- ===== src/Operator/Hooks.antt =====
-- internal/cnpgi/operator/reconciler.go and status.go: the hooks that CloudNativePG calls. A hook
-- takes the object store's state and the cache of settled states, and returns them. The Kubernetes
-- reads, the provider of a store, JSON and time formats are arguments; gRPC decoding is too, as a
-- request whose parts are there or not.
pub mod Published
pub mod Saves
pub mod Watermark
pub mod Captured
pub mod Repeated
use cnpg_i_chronicle.Common.{
  ℕ, Bool, true, false, ◌&&◌, ◌||◌, not, Option, none, some, List, [], ◌∷◌, if◌then◌else◌, ◌==◌,
  any, Text, codes, text_eq, is_nil, Result, ok, err, ◌>>=◌, ◌>>◌,
}
use cnpg_i_chronicle.Api.{ConfigStore}
use cnpg_i_chronicle.Cluster.{Cluster, PluginStatus}
use cnpg_i_chronicle.Snapshot.Groups.{effective_group_names}
use cnpg_i_chronicle.Snapshot.Denylist.{plugin_name}
use cnpg_i_chronicle.Snapshot.Types.{
  Snapshot, Encoding, Postgres, metadata_fingerprint, capture_rules_digest,
}
use cnpg_i_chronicle.Snapshot.Extract.{ExtractOptions, ExtractError, extract}
use cnpg_i_chronicle.Store.Layout.{TimeFormat, Layout}
use cnpg_i_chronicle.Store.Snapshots
use cnpg_i_chronicle.Store.Snapshots.{StoreError, is_not_found, Backend, SnapshotCodec, write}
use cnpg_i_chronicle.Store.Resolver.{
  ReadError, missing, no_match, unreadable, ResolveError, Provider, open_store,
}
use cnpg_i_chronicle.Operator.Config.{
  PluginConfiguration, new_from_cluster, is_save_enabled, is_restore_requested,
}
use cnpg_i_chronicle.Operator.Settled.{Entries, settled, remember}

-- metadata.AnnotationRestoredFrom
abbrev pub annotation_restored_from : Text
annotation_restored_from = codes "chronicle.sharifmshaker.github.io/restored-from"

-- ClusterStatus, the watermark
pub record ClusterStatus : Type 0 where
  pub last_saved_generation : ℕ
  pub last_saved_at : Text
  pub snapshot_key : Text
  pub checksum : Text
  pub metadata_checksum : Text
  pub store : Text
  pub server_name : Text

-- A hook's request, decoded: the kind of the reconciled resource, and its Cluster.
pub record HookRequest : Type 0 where
  pub kind : Option Text
  pub cluster : Option Cluster

pub data HookResult : Type 0 where
  continue_behavior requeue_behavior : HookResult

pub data HookError : Type 0 where
  undecodable_request unfingerprinted : HookError
  never_restored : Text → HookError
  no_config_store : ReadError → HookError
  uncaptured : ExtractError → HookError
  unopened : ResolveError → HookError
  latest_unread unwritten : StoreError → HookError

abbrev pub decoded {ℓ} : {A : Type ℓ} → Option A → Result HookError A
decoded none = err undecodable_request
decoded (some a) = ok a

-- cluster.Annotations has the key
unfoldable pub has_annotation : Text → List (Text × Text) → Bool
has_annotation key annotations = any (λ (entry : Text × Text). text_eq entry.0 key) annotations

-- Pre, on a Cluster
unfoldable pub pre_cluster : Cluster → Result HookError HookResult
pre_cluster cluster =
    if not (is_restore_requested (new_from_cluster cluster))
    then ok continue_behavior
    else if has_annotation annotation_restored_from cluster.annotations
    then ok continue_behavior
    else err (never_restored cluster.name)

-- Pre
unfoldable pub pre : HookRequest → Result HookError HookResult
pre request = do
  kind ← decoded request.kind
  if not (text_eq kind (codes "Cluster"))
      then ok continue_behavior
      else (do cluster ← decoded request.cluster; pre_cluster cluster)

-- WatermarkFromCluster, over the entries of .status.pluginStatus
unfoldable pub watermark_from :
    (Text → Option ClusterStatus) → List PluginStatus → Option ClusterStatus
watermark_from decode_status [] = none
watermark_from decode_status (plugin ∷ rest) =
    if not (text_eq plugin.name plugin_name) || is_nil plugin.status
    then watermark_from decode_status rest
    else decode_status plugin.status

-- The watermark stands for the Cluster's state.
unfoldable pub up_to_date : Cluster → Text → Option ClusterStatus → Bool
up_to_date cluster fingerprint none = false
up_to_date cluster fingerprint (some watermark) =
    watermark.last_saved_generation == cluster.generation
    && text_eq watermark.metadata_checksum fingerprint

module _ (encoding : Encoding) (postgres : Postgres) where
  -- liveFingerprint
  unfoldable pub live_fingerprint : Cluster → List Text → Option Text
  live_fingerprint cluster configured =
      let groups = effective_group_names configured in
      metadata_fingerprint encoding cluster.labels cluster.annotations groups
        (capture_rules_digest encoding postgres groups)

  module _ (codec : SnapshotCodec) (time : TimeFormat) (decode_status : Text → Option ClusterStatus)
      (get_config_store : Text → Text → Result ReadError ConfigStore) {S : Type 0}
      (provider : Provider S) where
    abbrev pub Hooked : Type 0
    Hooked = S × Option Entries × Result HookError HookResult

    abbrev pub watermark_of : Cluster → Option ClusterStatus
    watermark_of cluster = watermark_from decode_status cluster.plugin_status

    module _ (clock : ℕ) (version : Text) where
      abbrev pub capture_options : ConfigStore → ExtractOptions
      capture_options store = record {
        groups = store.capture_groups;
        plugin_version = version;
        now = 0;
      }

      -- The end of Post: what Write returned.
      unfoldable pub post_written :
          Option Entries → Cluster → Text → S × Result StoreError Text → Hooked
      post_written cache cluster fingerprint (s, err e) = (s, cache, err (unwritten e))
      post_written cache cluster fingerprint (s, ok key) =
          (s, remember cache cluster fingerprint key, ok continue_behavior)

      unfoldable pub post_write :
          S → Option Entries → Cluster → Text → Snapshot → Backend S → Layout → Hooked
      post_write s cache cluster fingerprint snap backend layout =
          post_written cache cluster fingerprint (write encoding codec backend time layout s snap)

      -- Post, on the newest snapshot in the store
      unfoldable pub post_latest :
          S
          → Option Entries
          → Cluster
          → Text
          → Snapshot
          → Backend S
          → Layout
          → Result StoreError (Snapshot × Text)
          → Hooked
      post_latest s cache cluster fingerprint snap backend layout (ok (newest, key)) =
          if text_eq newest.checksum snap.checksum
            && text_eq newest.capture_rules snap.capture_rules
          then (s, remember cache cluster fingerprint key, ok continue_behavior)
          else post_write s cache cluster fingerprint snap backend layout
      post_latest s cache cluster fingerprint snap backend layout (err e) =
          if not (is_not_found e)
          then (s, cache, err (latest_unread e))
          else post_write s cache cluster fingerprint snap backend layout

      -- Post, on the store that was opened for the capture
      unfoldable pub post_opened :
          S
          → Option Entries
          → Cluster
          → Text
          → Snapshot
          → Result ResolveError (Backend S × Layout)
          → Hooked
      post_opened s cache cluster fingerprint snap (err e) = (s, cache, err (unopened e))
      post_opened s cache cluster fingerprint snap (ok (backend, layout)) =
          post_latest s cache cluster fingerprint snap backend layout
            (Snapshots.latest encoding codec backend time layout s)

      -- Post, on what Extract returned
      unfoldable pub post_captured :
          S → Option Entries → Cluster → ConfigStore → Text → Result ExtractError Snapshot → Hooked
      post_captured s cache cluster store fingerprint (err e) = (s, cache, err (uncaptured e))
      post_captured s cache cluster store fingerprint (ok snap) =
          post_opened s cache cluster fingerprint snap
            (open_store provider store (new_from_cluster cluster).save_to_server)

      -- Post, from the fingerprint on: the two fast paths, and the capture
      unfoldable pub post_fingerprinted :
          S → Option Entries → Cluster → ConfigStore → Option Text → Hooked
      post_fingerprinted s cache cluster store none = (s, cache, err unfingerprinted)
      post_fingerprinted s cache cluster store (some fingerprint) =
          if up_to_date cluster fingerprint (watermark_of cluster)
          then (s, cache, ok continue_behavior)
          else elim (settled cache cluster fingerprint) [
            | some _ ↦ (s, cache, ok continue_behavior)
            | none ↦
                post_captured s cache cluster store fingerprint
                  (extract encoding postgres clock (some cluster) (capture_options store))
          ]

      -- Post, on the ConfigStore that was read
      unfoldable pub post_stored :
          S → Option Entries → Cluster → Result ReadError ConfigStore → Hooked
      post_stored s cache cluster (ok store) =
          post_fingerprinted s cache cluster store (live_fingerprint cluster store.capture_groups)
      post_stored s cache cluster (err missing) = (s, cache, ok requeue_behavior)
      post_stored s cache cluster (err no_match) = (s, cache, err (no_config_store no_match))
      post_stored s cache cluster (err (unreadable e)) =
          (s, cache, err (no_config_store (unreadable e)))

      -- Post, on a Cluster
      unfoldable pub post_cluster : S → Option Entries → Cluster → Hooked
      post_cluster s cache cluster =
          if not (is_save_enabled (new_from_cluster cluster))
          then (s, cache, ok continue_behavior)
          else post_stored s cache cluster
              (get_config_store cluster.namespace (new_from_cluster cluster).save_to_store)

      abbrev pub post_decoded : S → Option Entries → Option Cluster → Hooked
      post_decoded s cache none = (s, cache, err undecodable_request)
      post_decoded s cache (some cluster) = post_cluster s cache cluster

      -- Post
      unfoldable pub post : S → Option Entries → HookRequest → Hooked
      post s cache request = elim request.kind [
        | none ↦ (s, cache, err undecodable_request)
        | some kind ↦
            if not (text_eq kind (codes "Cluster"))
            then (s, cache, ok continue_behavior)
            else post_decoded s cache request.cluster
      ]
