-- ===== src/Operator/Hooks/Watermark.antt =====
-- The watermark that SetStatusInCluster publishes (internal/cnpgi/operator/status.go), as the Post
-- hook reads it (reconciler.go).
use cnpg_i_chronicle.Common.{
  ℕ, ◌≡◌, ◌∙◌, true, Option, some, Text, text_eq_refl, ==_iff, Result, ok,
}
use cnpg_i_chronicle.Api.{ConfigStore}
use cnpg_i_chronicle.Cluster.{Cluster}
use cnpg_i_chronicle.Snapshot.Types.{Snapshot, Encoding, Postgres, metadata_fingerprint}
use cnpg_i_chronicle.Snapshot.Extract.{ExtractOptions, extract}
use cnpg_i_chronicle.Snapshot.Extract.Described.{extract-metadata_fingerprint, extract-generation}
use cnpg_i_chronicle.Store.Layout.{TimeFormat}
use cnpg_i_chronicle.Store.Snapshots.{SnapshotCodec}
use cnpg_i_chronicle.Store.Resolver.{ReadError, Provider}
use cnpg_i_chronicle.Operator.Config.{new_from_cluster}
use cnpg_i_chronicle.Operator.Hooks.{ClusterStatus, up_to_date, live_fingerprint}
use cnpg_i_chronicle.Operator.Hooks.Published.{publish, status_of, publish_latest}

module _ (encoding : Encoding) (postgres : Postgres) (codec : SnapshotCodec) (time : TimeFormat)
    (decode_status : Text → Option ClusterStatus)
    (get_config_store : Text → Text → Result ReadError ConfigStore) {S : Type 0}
    (provider : Provider S) (format_rfc3339 : ℕ → Text) where
  -- Where the newest snapshot is a capture of the Cluster under the groups of a ConfigStore, and
  -- the Cluster has a fingerprint under them, SetStatusInCluster publishes a status, and that
  -- status as the watermark makes Post take its first fast path on the Cluster as captured.
  pub publish_latest-up_to_date :
      (clock : ℕ) (cluster : Cluster) (store : ConfigStore) (options : ExtractOptions)
      (snap : Snapshot) (key fingerprint : Text)
      → extract encoding postgres clock (some cluster) options ≡ ok snap
      → options.groups ≡ store.capture_groups
      → live_fingerprint encoding postgres cluster store.capture_groups ≡ some fingerprint
      → (status : ClusterStatus) × (publish_latest encoding postgres codec time decode_status
            get_config_store provider format_rfc3339 cluster
            (ok (snap, key))
          ≡ ok (publish status))
        × (up_to_date cluster fingerprint (some status) ≡ true)
  unfolding publish_latest live_fingerprint up_to_date
  publish_latest-up_to_date clock cluster store options snap key fingerprint h groups live =
      let same : metadata_fingerprint encoding snap.labels snap.annotations snap.groups
            snap.capture_rules
          ≡ some fingerprint =
        extract-metadata_fingerprint encoding postgres clock cluster options snap h
        ∙ rw groups live in
      let of_generation = extract-generation encoding postgres clock cluster options snap h in
      (
        status_of encoding postgres codec time decode_status get_config_store provider
            format_rfc3339 (new_from_cluster cluster) snap key fingerprint,
        rw (publish_latest, same),
        rw ((==_iff snap.generation cluster.generation).1 of_generation, text_eq_refl fingerprint),
      )
