-- ===== src/Webhook/Patched.antt =====
-- What the patch of the webhook (internal/webhook/cluster_mutate.go) was made of.
use cnpg_i_chronicle.Common.{
  ℕ, ◌≡◌, inl, inr, true, not, Option, none, some, List, arith, if◌then◌else◌, Text, codes, is_nil,
  is_some, Result, ok, err, >>=-eq-ok, wrap, wrap-eq-ok, refuse, Option-cases, Bool-cases, length,
}
use cnpg_i_chronicle.Json.{string, Fields}
use cnpg_i_chronicle.PathUtil.{get, set_segments}
use cnpg_i_chronicle.Api.{SelectMode, RestorePolicy, ConfigStore, resolve_mode}
use cnpg_i_chronicle.Snapshot.PathCheck.{GoType}
use cnpg_i_chronicle.Snapshot.Types.{Snapshot, Encoding}
use cnpg_i_chronicle.Store.Layout.{TimeFormat, Layout}
use cnpg_i_chronicle.Store.Snapshots.{StoreError, Backend, SnapshotCodec}
use cnpg_i_chronicle.Store.Snapshots.Decoded.{IsDecoded, read-IsDecoded, latest-IsDecoded}
use cnpg_i_chronicle.Store.Resolver.{Provider, open_store}
use cnpg_i_chronicle.Restore.Skip.{CompiledSkip}
use cnpg_i_chronicle.Restore.Transform.{Expressions, TransformSet}
use cnpg_i_chronicle.Restore.Plan.{Plan, compile_rules, build_plan, apply_plan}
use cnpg_i_chronicle.Restore.Plan.Effect.{PlanOf}
use cnpg_i_chronicle.Restore.RecoveryTarget.{kube_backup_lookup}
use cnpg_i_chronicle.Restore.Select.{Selector, Alignment, Resolution, select}
use cnpg_i_chronicle.Restore.Select.Source.{FromSource, select-FromSource}
use cnpg_i_chronicle.Operator.Config.{PluginConfiguration}
use cnpg_i_chronicle.Webhook.{
  RestoreRecord, Refusal, unrecorded, unannotated, unencoded, blocked, unplanned, changes_nothing,
  Reader, ClusterCodec, restored_from_path, annotate_with_record, history, record_of,
  restore_planned, restore_opened, restore, load, policy_skips, policy_transforms, unopened,
  unusable, unselected,
}

module _ (clusters : ClusterCodec) where
  -- A Cluster with the restore record, and its encoding.
  pub record Annotated (restored : Fields) (patched : Text) : Type 0 where
    pub entry : Text
    pub done : (set_segments restored restored_from_path (string entry)).1 ≡ true
    pub encoded :
        clusters.encode (set_segments restored restored_from_path (string entry)).0 ≡ some patched

  annotate-Annotated :
      (restored : Fields) (entry : RestoreRecord) (patched : Text)
      → annotate_with_record clusters restored entry ≡ ok patched
      → Annotated restored patched
  unfolding annotate_with_record
  annotate-Annotated restored entry patched h = from (clusters.encode_record entry) h
    where
      encoding_of : Fields → Result Refusal Text
      encoding_of annotated = elim (clusters.encode annotated) [
        | none ↦ err unencoded
        | some text ↦ ok text
      ]

      from :
          (o : Option Text)
          → ◌≡◌ {A = Result Refusal Text}
              (elim o [
                | none ↦ err unrecorded
                | some text ↦
                    if not (set_segments restored restored_from_path (string text)).1
                    then err unannotated
                    else encoding_of (set_segments restored restored_from_path (string text)).0
              ])
              (ok patched)
          → Annotated restored patched
      from none k = cc
      from (some text) k =
          elim (Bool-cases (set_segments restored restored_from_path (string text)).1) [
            | inr failed ↦ absurd (ground arith)
            | inl done ↦
                elim (Option-cases
                  (clusters.encode (set_segments restored restored_from_path (string text)).0)) [
                    | inl e ↦ absurd (ground arith)
                    | inr (bytes, e) ↦ record { entry = text; done = done; encoded = ground arith }
                  ]
          ]

  module _ (encoding : Encoding) (codec : SnapshotCodec) (time : TimeFormat) {Program : Type 0}
      (expressions : Expressions Program) (cluster_spec : GoType)
      (parse_target_time : Text → Option ℕ) (reader : Reader) {S : Type 0} (provider : Provider S)
      (clock : ℕ) (s : S) where
    -- The steps from a Cluster to the text of its patch: a snapshot that was decoded, the plan made
    -- of it, the Cluster that the plan was applied to, and the annotation.
    pub record Patched (cluster : Fields) (patched : Text) : Type 0 where
      pub snap : Snapshot
      pub decoded : IsDecoded encoding codec snap
      pub skip_set : List CompiledSkip
      pub transform_set : TransformSet Program
      pub plan : Plan
      pub planned : PlanOf expressions cluster_spec skip_set transform_set snap plan
      pub restored : Fields
      pub applied : apply_plan plan cluster ≡ ok restored
      pub annotated : Annotated restored patched

    source-IsDecoded :
        (backend : Backend S) (layout : Layout) (snap : Snapshot)
        → FromSource (history encoding codec time s backend layout) snap
        → IsDecoded encoding codec snap
    source-IsDecoded backend layout snap (inl (key, e)) =
        read-IsDecoded encoding codec backend time layout s key snap e
    source-IsDecoded backend layout snap (inr (key, e)) =
        latest-IsDecoded encoding codec backend time layout s snap key e

    planned-Patched :
        (c : PluginConfiguration) (store : ConfigStore) (resolution : Resolution)
        (skip_set : List CompiledSkip) (transform_set : TransformSet Program) (plan : Plan)
        (cluster : Fields) (entry : RestoreRecord) (patched : Text)
        → IsDecoded encoding codec resolution.snapshot
        → PlanOf expressions cluster_spec skip_set transform_set resolution.snapshot plan
        → restore_planned clusters encoding codec time expressions cluster_spec parse_target_time
            reader provider clock s c store resolution plan cluster
          ≡ ok (entry, patched)
        → Patched cluster patched
    unfolding restore_planned
    planned-Patched c store resolution skip_set transform_set plan cluster entry patched d p h =
        let (_, _, f) =
          >>=-eq-ok
            (refuse (is_nil plan.changes)
              (changes_nothing resolution.key (length plan.exclusions) c.restore_policy))
            _ h in
        let (restored, applied, g) = >>=-eq-ok (wrap blocked (apply_plan plan cluster)) _ f in
        let stamp : RestoreRecord = record_of clock c store resolution plan in
        let (text, e, k) = >>=-eq-ok (annotate_with_record clusters restored stamp) _ g in
        record {
          snap = resolution.snapshot;
          decoded = d;
          skip_set = skip_set;
          transform_set = transform_set;
          plan = plan;
          planned = p;
          restored = restored;
          applied = wrap-eq-ok blocked (apply_plan plan cluster) applied;
          annotated = annotate-Annotated restored stamp patched (ground arith);
        }

    opened-Patched :
        (namespace : Text) (c : PluginConfiguration) (store : ConfigStore)
        (policy : Option RestorePolicy) (skip_set : List CompiledSkip)
        (transform_set : TransformSet Program) (backend : Backend S) (layout : Layout)
        (cluster : Fields) (entry : RestoreRecord) (patched : Text)
        → restore_opened clusters encoding codec time expressions cluster_spec parse_target_time
            reader provider clock s namespace c
            (store, policy)
            (skip_set, transform_set)
            (backend, layout)
            cluster
          ≡ ok (entry, patched)
        → Patched cluster patched
    unfolding restore_opened
    opened-Patched namespace c store policy skip_set transform_set backend layout cluster entry
          patched h =
        let source : Selector StoreError = history encoding codec time s backend layout in
        let mode : SelectMode =
          resolve_mode policy (is_some (get cluster (codes "spec.bootstrap.recovery"))) in
        let alignment : Option Alignment = some (record {
          cluster = cluster;
          namespace = namespace;
          backups = some (kube_backup_lookup reader.get_backup reader.list_backups);
        }) in
        let (resolution, e, f) =
          >>=-eq-ok
            (wrap (unselected c.restore_from_server store.name)
              (select source parse_target_time mode policy alignment))
            _ h in
        let (plan, p, g) =
          >>=-eq-ok
            (wrap unplanned (
              build_plan expressions cluster_spec skip_set transform_set
                (some resolution.snapshot)))
            _ f in
        planned-Patched c store resolution skip_set transform_set plan cluster entry patched
          (source-IsDecoded backend layout resolution.snapshot (
            select-FromSource source parse_target_time mode policy alignment resolution
              (wrap-eq-ok (unselected c.restore_from_server store.name) _ e)))
          (wrap-eq-ok unplanned _ p) g

    pub restore-Patched :
        (namespace : Text) (c : PluginConfiguration) (cluster : Fields) (entry : RestoreRecord)
        (patched : Text)
        → restore clusters encoding codec time expressions cluster_spec parse_target_time reader
            provider clock s namespace c cluster
          ≡ ok (entry, patched)
        → Patched cluster patched
    unfolding restore
    restore-Patched namespace c cluster entry patched h =
        let ((store, policy), _, f) = >>=-eq-ok (load reader namespace c) _ h in
        let ((skip_set, transform_set), _, g) =
          >>=-eq-ok
            (wrap (unusable c.restore_policy) (
              compile_rules expressions cluster_spec (policy_skips policy)
                (policy_transforms policy)))
            _ f in
        let ((backend, layout), _, k) =
          >>=-eq-ok (wrap (unopened store.name) (open_store provider store c.restore_from_server)) _
            g in
        opened-Patched namespace c store policy skip_set transform_set backend layout cluster entry
          patched k
