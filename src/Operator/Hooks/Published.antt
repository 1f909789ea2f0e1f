-- ===== src/Operator/Hooks/Published.antt =====
-- internal/cnpgi/operator/status.go: the watermark that SetStatusInCluster publishes.
use cnpg_i_chronicle.Common.{
  ℕ, Bool, false, ◌&&◌, ◌||◌, not, Option, none, some, if◌then◌else◌, Text, text_eq, Result, ok,
  err,
}
use cnpg_i_chronicle.Api.{ConfigStore}
use cnpg_i_chronicle.Cluster.{Cluster}
use cnpg_i_chronicle.Snapshot.Types.{Snapshot, Encoding, Postgres, metadata_fingerprint}
use cnpg_i_chronicle.Store.Layout.{TimeFormat, Layout}
use cnpg_i_chronicle.Store.Snapshots
use cnpg_i_chronicle.Store.Snapshots.{StoreError, is_not_found, Backend, SnapshotCodec, write}
use cnpg_i_chronicle.Store.Resolver.{
  ReadError, missing, no_match, unreadable, ResolveError, Provider, open_store,
}
use cnpg_i_chronicle.Operator.Config.{PluginConfiguration, new_from_cluster, is_save_enabled}
use cnpg_i_chronicle.Operator.Settled.{Entries, settled}
use cnpg_i_chronicle.Operator.Hooks.{
  ClusterStatus, HookError, unfingerprinted, undecodable_request, no_config_store, up_to_date,
  live_fingerprint, watermark_from,
}

-- The answer of SetStatusInCluster: nothing to do, or a status to publish.
pub data StatusResponse : Type 0 where
  no_op : StatusResponse
  publish : ClusterStatus → StatusResponse

module _ (encoding : Encoding) (postgres : Postgres) (codec : SnapshotCodec) (time : TimeFormat)
    (decode_status : Text → Option ClusterStatus)
    (get_config_store : Text → Text → Result ReadError ConfigStore) {S : Type 0}
    (provider : Provider S) (format_rfc3339 : ℕ → Text) where
  -- The watermark still holds for where the Cluster saves to.
  unfoldable pub same_place : PluginConfiguration → ClusterStatus → Bool
  same_place configuration published =
      text_eq published.store configuration.save_to_store
      && text_eq published.server_name configuration.save_to_server

  abbrev pub confirms : Text → Option Text → Bool
  confirms snapshot_key none = false
  confirms snapshot_key (some key) = text_eq key snapshot_key

  -- The fast path of SetStatusInCluster
  unfoldable pub nothing_to_publish : Option Entries → Cluster → Text → Option ClusterStatus → Bool
  nothing_to_publish cache cluster fingerprint none = false
  nothing_to_publish cache cluster fingerprint (some published) =
      same_place (new_from_cluster cluster) published
      && (up_to_date cluster fingerprint (some published)
          || confirms published.snapshot_key (settled cache cluster fingerprint))

  -- The status of the newest snapshot
  abbrev pub status_of : PluginConfiguration → Snapshot → Text → Text → ClusterStatus
  status_of configuration newest key metadata_checksum = record {
    last_saved_generation = newest.generation;
    last_saved_at = format_rfc3339 newest.captured_at;
    snapshot_key = key;
    checksum = newest.checksum;
    metadata_checksum = metadata_checksum;
    store = configuration.save_to_store;
    server_name = configuration.save_to_server;
  }

  unfoldable pub publish_latest :
      Cluster → Result StoreError (Snapshot × Text) → Result HookError StatusResponse
  publish_latest cluster (err e) = ok no_op
  publish_latest cluster (ok (newest, key)) =
      elim (metadata_fingerprint encoding newest.labels newest.annotations newest.groups
        newest.capture_rules) [
          | none ↦ err unfingerprinted
          | some metadata_checksum ↦
              ok (publish (status_of (new_from_cluster cluster) newest key metadata_checksum))
        ]

  unfoldable pub publish_opened :
      S → Cluster → Result ResolveError (Backend S × Layout) → Result HookError StatusResponse
  publish_opened s cluster (err e) = ok no_op
  publish_opened s cluster (ok (backend, layout)) =
      publish_latest cluster (Snapshots.latest encoding codec backend time layout s)

  unfoldable pub status_stored :
      S → Option Entries → Cluster → Result ReadError ConfigStore → Result HookError StatusResponse
  status_stored s cache cluster (err missing) = ok no_op
  status_stored s cache cluster (err no_match) = err (no_config_store no_match)
  status_stored s cache cluster (err (unreadable e)) = err (no_config_store (unreadable e))
  status_stored s cache cluster (ok store) =
      elim (live_fingerprint encoding postgres cluster store.capture_groups) [
        | none ↦ err unfingerprinted
        | some fingerprint ↦
            if nothing_to_publish cache cluster fingerprint
              (watermark_from decode_status cluster.plugin_status)
            then ok no_op
            else publish_opened s cluster
                (open_store provider store (new_from_cluster cluster).save_to_server)
      ]

  -- SetStatusInCluster, on the Cluster of the request
  unfoldable pub set_status_in_cluster :
      S → Option Entries → Option Cluster → Result HookError StatusResponse
  set_status_in_cluster s cache none = err undecodable_request
  set_status_in_cluster s cache (some cluster) =
      if not (is_save_enabled (new_from_cluster cluster))
      then ok no_op
      else status_stored s cache cluster
          (get_config_store cluster.namespace (new_from_cluster cluster).save_to_store)
