-- ===== src/Operator/Hooks/Repeated.antt =====
-- The Post hook (internal/cnpgi/operator/reconciler.go), run again on a request that it has settled.
use cnpg_i_chronicle.Common.{
  ℕ, ◌≡◌, inl, inr, Option, none, some, arith, Text, codes, text_eq, Result, ok, err, Bool-cases,
  Option-cases,
}
use cnpg_i_chronicle.Api.{ConfigStore}
use cnpg_i_chronicle.Cluster.{Cluster}
use cnpg_i_chronicle.Snapshot.Types.{Encoding, Postgres}
use cnpg_i_chronicle.Store.Layout.{TimeFormat}
use cnpg_i_chronicle.Store.Snapshots.{SnapshotCodec}
use cnpg_i_chronicle.Store.Resolver.{ReadError, missing, no_match, unreadable, Provider}
use cnpg_i_chronicle.Operator.Config.{new_from_cluster, is_save_enabled}
use cnpg_i_chronicle.Operator.Settled.{Entries}
use cnpg_i_chronicle.Operator.Hooks.{
  ClusterStatus, HookRequest, HookResult, continue_behavior, HookError, watermark_of, up_to_date,
  live_fingerprint, post_fingerprinted, post_stored, post_cluster, post_decoded, post,
}
use cnpg_i_chronicle.Operator.Hooks.Saves.{IsSettled, fingerprinted-IsSettled}

module _ (encoding : Encoding) (postgres : Postgres) (codec : SnapshotCodec) (time : TimeFormat)
    (decode_status : Text → Option ClusterStatus)
    (get_config_store : Text → Text → Result ReadError ConfigStore) {S : Type 0}
    (provider : Provider S) (clock clock' : ℕ) (version version' : Text) where
  abbrev Answer : Type 0
  Answer = S × Option Entries × Result HookError HookResult

  abbrev SettledEarlier : Option Entries → Cluster → Text → Type 0
  SettledEarlier =
      IsSettled encoding postgres codec time decode_status get_config_store provider clock version

  abbrev posts : S → Option Entries → HookRequest → Answer
  posts = post encoding postgres codec time decode_status get_config_store provider clock version

  abbrev posts_later : S → Option Entries → HookRequest → Answer
  posts_later =
      post encoding postgres codec time decode_status get_config_store provider clock' version'

  -- A fast path answers without a change.
  settled-quiet :
      (s : S) (cache : Option Entries) (cluster : Cluster) (store : ConfigStore)
      (fingerprint : Text)
      → SettledEarlier cache cluster fingerprint
      → post_fingerprinted encoding postgres codec time decode_status get_config_store provider
          clock' version' s cache cluster store
          (some fingerprint)
        ≡ (s, cache, ok continue_behavior)
  unfolding post_fingerprinted
  settled-quiet s cache cluster store fingerprint (inl current) = rw current
  settled-quiet s cache cluster store fingerprint (inr (key, e)) =
      elim (Bool-cases (
        up_to_date cluster fingerprint (
          watermark_of encoding postgres codec time decode_status get_config_store provider
            cluster))) [ inl current ↦ rw current | inr stale ↦ rw (stale, e) ]

  fingerprinted-quiet :
      (s : S) (entries : Entries) (cluster : Cluster) (store : ConfigStore) (o : Option Text)
      (s' : S) (cache' : Option Entries) (result : HookResult)
      → post_fingerprinted encoding postgres codec time decode_status get_config_store provider
          clock version s
          (some entries)
          cluster
          store
          o
        ≡ (s', cache', ok result)
      → post_fingerprinted encoding postgres codec time decode_status get_config_store provider
          clock' version' s' cache' cluster store o
        ≡ (s', cache', ok continue_behavior)
  fingerprinted-quiet s entries cluster store none s' cache' result h =
      absurd (unfold post_fingerprinted in ground arith)
  fingerprinted-quiet s entries cluster store (some fingerprint) s' cache' result h =
      settled-quiet s' cache' cluster store fingerprint (
        fingerprinted-IsSettled encoding postgres codec time decode_status get_config_store provider
          clock version s entries cluster store fingerprint s' cache' result h)

  stored-quiet :
      (s : S) (entries : Entries) (cluster : Cluster) (r : Result ReadError ConfigStore) (s' : S)
      (cache' : Option Entries)
      → post_stored encoding postgres codec time decode_status get_config_store provider clock
          version s
          (some entries)
          cluster
          r
        ≡ (s', cache', ok continue_behavior)
      → post_stored encoding postgres codec time decode_status get_config_store provider clock'
          version' s' cache' cluster r
        ≡ (s', cache', ok continue_behavior)
  unfolding post_stored
  stored-quiet s entries cluster (ok store) s' cache' h =
      fingerprinted-quiet s entries cluster store
        (live_fingerprint encoding postgres cluster store.capture_groups) s' cache'
        continue_behavior h
  stored-quiet s entries cluster (err missing) s' cache' h = absurd (ground arith)
  stored-quiet s entries cluster (err no_match) s' cache' h = absurd (ground arith)
  stored-quiet s entries cluster (err (unreadable e)) s' cache' h = absurd (ground arith)

  cluster-quiet :
      (s : S) (entries : Entries) (cluster : Cluster) (s' : S) (cache' : Option Entries)
      → post_cluster encoding postgres codec time decode_status get_config_store provider clock
          version s
          (some entries)
          cluster
        ≡ (s', cache', ok continue_behavior)
      → post_cluster encoding postgres codec time decode_status get_config_store provider clock'
          version' s' cache' cluster
        ≡ (s', cache', ok continue_behavior)
  unfolding post_cluster
  cluster-quiet s entries cluster s' cache' h =
      elim (Bool-cases (is_save_enabled (new_from_cluster cluster))) [
        | inr off ↦ rw off
        | inl on ↦ rw on (
            stored-quiet s entries cluster
              (get_config_store cluster.namespace (new_from_cluster cluster).save_to_store) s'
              cache' (ground arith))
      ]

  decoded-quiet :
      (s : S) (entries : Entries) (o : Option Cluster) (s' : S) (cache' : Option Entries)
      → post_decoded encoding postgres codec time decode_status get_config_store provider clock
          version s
          (some entries)
          o
        ≡ (s', cache', ok continue_behavior)
      → post_decoded encoding postgres codec time decode_status get_config_store provider clock'
          version' s' cache' o
        ≡ (s', cache', ok continue_behavior)
  decoded-quiet s entries none s' cache' h = absurd (ground arith)
  decoded-quiet s entries (some cluster) s' cache' h = cluster-quiet s entries cluster s' cache' h

  -- Where Post, with a cache, answers a request with "continue", the same request on the store and
  -- the cache that it left is answered with "continue" again and changes neither, whatever the
  -- clock's reading and the plugin's version.
  pub post_repeated :
      (s : S) (entries : Entries) (request : HookRequest) (s' : S) (cache' : Option Entries)
      → posts s (some entries) request ≡ (s', cache', ok continue_behavior)
      → posts_later s' cache' request ≡ (s', cache', ok continue_behavior)
  unfolding post
  post_repeated s entries request s' cache' h = elim (Option-cases request.kind) [
    | inl e ↦ absurd (ground arith)
    | inr (kind, e) ↦ elim (Bool-cases (text_eq kind (codes "Cluster"))) [
      | inr other ↦ rw (e, other)
      | inl same ↦ rw (e, same) (decoded-quiet s entries request.cluster s' cache' (ground arith))
    ]
  ]
