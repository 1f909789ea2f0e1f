-- ===== src/Webhook/Admission.antt =====
-- What the webhook (internal/webhook/cluster_mutate.go) promises of the Cluster that it patches.
use cnpg_i_chronicle.Common.{
  ℕ, ◌≡◌, refl, ◌∙◌, ap, inl, inr, Bool, true, false, Option, some, List, [], ◌∷◌, ◌++◌, arith,
  Text, codes, text_eq, has_prefix, is_some, Result, ok, err, Result-cases, Option-cases,
  Bool-cases, bind_option,
}
use cnpg_i_chronicle.Json.{string, Value, Fields, distinct, as_slice}
use cnpg_i_chronicle.PathUtil.{get, get_segments, set_segments, split}
use cnpg_i_chronicle.PathUtil.Access.{get-set, get-set-Diverge}
use cnpg_i_chronicle.Snapshot.Denylist.{StringMap, is_denied_path, covers, denied_paths}
use cnpg_i_chronicle.Snapshot.PathCheck.{GoType}
use cnpg_i_chronicle.Snapshot.Types.{Snapshot, Encoding}
use cnpg_i_chronicle.Store.Layout.{TimeFormat}
use cnpg_i_chronicle.Store.Snapshots.{SnapshotCodec}
use cnpg_i_chronicle.Store.Resolver.{Provider}
use cnpg_i_chronicle.Restore.Transform.{Expressions}
use cnpg_i_chronicle.Restore.Plan.{restorable_tree}
use cnpg_i_chronicle.Restore.Plan.Safety.{denied_untouched}
use cnpg_i_chronicle.Restore.Plan.Metadata.{metadata_untouched}
use cnpg_i_chronicle.Operator.Config.{
  PluginConfiguration, ConfigError, validate, is_restore_requested,
}
use cnpg_i_chronicle.Webhook.{
  Request, Response, Refusal, allowed, already_restored, patch, Reader, ClusterCodec,
  plugin_parameters, parameters_in, name_of, namespace_of, configuration_of, restored_from_path,
  check_source_is_not_also_destination, restore, handle_requested, handle_configured,
  handle_cluster, handle,
}
use cnpg_i_chronicle.Webhook.Patched.{Patched, restore-Patched}

module _ (clusters : ClusterCodec) (encoding : Encoding) (codec : SnapshotCodec) (time : TimeFormat)
    {Program : Type 0} (expressions : Expressions Program) (cluster_spec : GoType)
    (parse_target_time : Text → Option ℕ) (reader : Reader) {S : Type 0}
    (provider : Provider S) where
  abbrev pub handles : ℕ → S → Request → Response
  handles =
      handle clusters encoding codec time expressions cluster_spec parse_target_time reader provider

  abbrev pub handles_cluster : ℕ → S → Text → Text → Fields → Response
  handles_cluster =
      handle_cluster clusters encoding codec time expressions cluster_spec parse_target_time reader
        provider

  abbrev configured : ℕ → S → Text → Text → PluginConfiguration → Fields → Response
  configured =
      handle_configured clusters encoding codec time expressions cluster_spec parse_target_time
        reader provider

  abbrev PatchOf : ℕ → S → Fields → Text → Type 0
  PatchOf =
      Patched clusters encoding codec time expressions cluster_spec parse_target_time reader
        provider

  -- The configurations that Handle restores with.
  record Accepted (c : PluginConfiguration) : Type 0 where
    valid : validate c ≡ ok tt
    apart : check_source_is_not_also_destination c ≡ ok tt
    requested : is_restore_requested c ≡ true

  module _ (clock : ℕ) (s : S) where
    response-Patched :
        (raw original patched : Text) (namespace : Text) (c : PluginConfiguration)
        (cluster : Fields)
        → handle_requested clusters encoding codec time expressions cluster_spec parse_target_time
            reader provider clock s raw namespace c cluster
          ≡ patch original patched
        → PatchOf clock s cluster patched
    unfolding handle_requested
    response-Patched raw original patched namespace c cluster h =
        elim (Bool-cases (is_some (get_segments cluster restored_from_path))) [
          | inl found ↦ absurd (ground arith)
          | inr absent ↦
              elim (Result-cases (
                restore clusters encoding codec time expressions cluster_spec parse_target_time
                  reader provider clock s namespace c cluster)) [
                    | inr (e, refused) ↦ absurd (ground arith)
                    | inl ((entry, text), restored) ↦
                        restore-Patched clusters encoding codec time expressions cluster_spec
                          parse_target_time reader provider clock s namespace c cluster entry
                          patched (ground arith)
                  ]
        ]

    configured-Accepted :
        (raw original patched : Text) (namespace : Text) (c : PluginConfiguration)
        (cluster : Fields)
        → configured clock s raw namespace c cluster ≡ patch original patched
        → Accepted c × PatchOf clock s cluster patched
    unfolding handle_configured
    configured-Accepted raw original patched namespace c cluster h =
        from (validate c) (check_source_is_not_also_destination c) (is_restore_requested c) refl
          refl refl h
      where
        from :
            (v : Result ConfigError (Unit {0})) (w : Result Refusal (Unit {0})) (b : Bool)
            → validate c ≡ v
            → check_source_is_not_also_destination c ≡ w
            → is_restore_requested c ≡ b
            → configured clock s raw namespace c cluster ≡ patch original patched
            → Accepted c × PatchOf clock s cluster patched
        from (err e) w b ev ew eb k = absurd (ground arith)
        from (ok _) (err e) b ev ew eb k = absurd (ground arith)
        from (ok _) (ok _) false ev ew eb k = absurd (ground arith)
        from (ok _) (ok _) true ev ew eb k = (
          record { valid = ev; apart = ew; requested = eb },
          response-Patched raw original patched namespace c cluster (ground arith),
        )

    -- What Handle went through to a patch.
    record Handled (request : Request) (patched : Text) : Type 0 where
      cluster : Fields
      decoded : clusters.decode request.raw ≡ some cluster
      parameters : StringMap
      declared : plugin_parameters cluster ≡ some parameters
      accepted : Accepted (configuration_of parameters (name_of cluster))
      steps : PatchOf clock s cluster patched

    handle-Handled :
        (request : Request) (original patched : Text)
        → handles clock s request ≡ patch original patched
        → Handled request patched
    unfolding handle handle_cluster
    handle-Handled request original patched h = elim (Option-cases (clusters.decode request.raw)) [
      | inl e ↦ absurd (ground arith)
      | inr (cluster, e) ↦ elim (Option-cases (plugin_parameters cluster)) [
        | inl none_set ↦ absurd (ground arith)
        | inr (parameters, d) ↦
            let c : PluginConfiguration = configuration_of parameters (name_of cluster) in
            let (a, p) =
              configured-Accepted request.raw original patched (namespace_of request cluster) c
                cluster (ground arith) in
            record {
              cluster = cluster;
              decoded = e;
              parameters = parameters;
              declared = d;
              accepted = a;
              steps = p;
            }
      ]
    ]

    -- The Cluster that was encoded into the patch.
    abbrev patched_cluster :
        {cluster : Fields} {patched : Text} → PatchOf clock s cluster patched → Fields
    patched_cluster p = (set_segments p.restored restored_from_path (string p.annotated.entry)).0

    abbrev DecodesDistinct : Type 0
    DecodesDistinct =
        (raw : Text) (snap : Snapshot)
        → codec.decode raw ≡ some snap
        → distinct (restorable_tree snap) ≡ true

    denied_left :
        (cluster : Fields) (patched : Text) (p : PatchOf clock s cluster patched) (key : Text)
        (below : List Text)
        → DecodesDistinct
        → is_denied_path (codes "spec." ++ key) ≡ true
        → get_segments (patched_cluster p) (codes "spec" ∷ key ∷ below)
          ≡ get_segments cluster (codes "spec" ∷ key ∷ below)
    denied_left cluster patched p key below d h =
        get-set-Diverge p.restored restored_from_path (codes "spec" ∷ key ∷ below)
          (string p.annotated.entry) (inl (λ e. metadata_spec e))
        ∙ denied_untouched expressions cluster_spec p.skip_set p.transform_set p.snap p.plan cluster
            p.restored key below p.planned p.applied (d p.decoded.0 p.snap p.decoded.1) h
      where
        metadata_spec : codes "metadata" ≡ codes "spec" → ⊥
        metadata_spec e = cc

    name_left :
        (cluster : Fields) (patched : Text) (p : PatchOf clock s cluster patched)
        → DecodesDistinct
        → get_segments (patched_cluster p) (codes "metadata" ∷ codes "name" ∷ [])
          ≡ get_segments cluster (codes "metadata" ∷ codes "name" ∷ [])
    unfolding text_eq
    name_left cluster patched p d =
        get-set-Diverge p.restored restored_from_path (codes "metadata" ∷ codes "name" ∷ [])
          (string p.annotated.entry) (inr (refl, inl (λ e. annotations_name e)))
        ∙ metadata_untouched expressions cluster_spec p.skip_set p.transform_set p.snap p.plan
            cluster p.restored (codes "name") [] p.planned p.applied
            (d p.decoded.0 p.snap p.decoded.1) refl refl
      where
        annotations_name : codes "annotations" ≡ codes "name" → ⊥
        annotations_name e = cc

    -- A patch of a Cluster leaves whatever stands at or beneath a denied field of its spec, such as
    -- spec.plugins, spec.backup, spec.externalClusters or spec.bootstrap, as the request has it,
    -- whatever the store holds: the patch is the encoding of a Cluster that reads the same there.
    -- The decoder of snapshots is assumed to make maps with one entry to a key.
    pub handle_keeps_denied :
        (request : Request) (original patched : Text) (key : Text) (below : List Text)
        → ((raw : Text) (snap : Snapshot)
            → codec.decode raw ≡ some snap
            → distinct (restorable_tree snap) ≡ true)
        → is_denied_path (codes "spec." ++ key) ≡ true
        → handles clock s request ≡ patch original patched
        → (cluster : Fields) × (out : Fields) × (clusters.decode request.raw ≡ some cluster)
          × (clusters.encode out ≡ some patched)
          × (get_segments out (codes "spec" ∷ key ∷ below)
              ≡ get_segments cluster (codes "spec" ∷ key ∷ below))
    handle_keeps_denied request original patched key below d is_denied h =
        let handled = handle-Handled request original patched h in
        (
          handled.cluster,
          patched_cluster handled.steps,
          handled.decoded,
          handled.steps.annotated.encoded,
          denied_left handled.cluster patched handled.steps key below d is_denied,
        )

    plugins_same :
        (cluster out : Fields)
        → get_segments out (codes "spec" ∷ codes "plugins" ∷ [])
          ≡ get_segments cluster (codes "spec" ∷ codes "plugins" ∷ [])
        → plugin_parameters out ≡ plugin_parameters cluster
    unfolding plugin_parameters get split
    plugins_same cluster out e =
        ap (λ o. bind_option o (λ raw. bind_option (as_slice raw) parameters_in)) e

    name_same :
        (cluster out : Fields)
        → get_segments out (codes "metadata" ∷ codes "name" ∷ [])
          ≡ get_segments cluster (codes "metadata" ∷ codes "name" ∷ [])
        → name_of out ≡ name_of cluster
    unfolding name_of get split
    name_same cluster out e = ground arith

    again :
        (raw namespace : Text) (parameters : StringMap) (name : Text) (out : Fields) (v : Value)
        → plugin_parameters out ≡ some parameters
        → name_of out ≡ name
        → Accepted (configuration_of parameters name)
        → get_segments out restored_from_path ≡ some v
        → (clock' : ℕ) (s' : S)
        → handles_cluster clock' s' raw namespace out ≡ allowed already_restored
    unfolding handle_cluster handle_configured handle_requested
    again raw namespace parameters name out v p n a g clock' s' = rw (
      handle_cluster, p, n, handle_configured, a.valid, a.apart, a.requested, handle_requested, g,
    )

    plugins_denied : is_denied_path (codes "spec." ++ codes "plugins") ≡ true
    unfolding is_denied_path covers text_eq has_prefix denied_paths
    plugins_denied = refl

    -- A patch is the encoding of a Cluster on which a second pass answers that it is already
    -- restored, at any later moment, whatever the store then holds, and in whatever namespace. The
    -- decoder of snapshots is assumed to make maps with one entry to a key.
    pub handle_again :
        (request : Request) (original patched : Text)
        → ((raw : Text) (snap : Snapshot)
            → codec.decode raw ≡ some snap
            → distinct (restorable_tree snap) ≡ true)
        → handles clock s request ≡ patch original patched
        → (out : Fields) × (clusters.encode out ≡ some patched)
          × ((clock' : ℕ) (s' : S) (raw namespace : Text)
              → handles_cluster clock' s' raw namespace out ≡ allowed already_restored)
    handle_again request original patched d h =
        let handled = handle-Handled request original patched h in
        let out = patched_cluster handled.steps in
        let left =
          denied_left handled.cluster patched handled.steps (codes "plugins") [] d plugins_denied in
        (
          out,
          handled.steps.annotated.encoded,
          λ clock' s' raw namespace.
              again raw namespace handled.parameters (name_of handled.cluster) out
                (string handled.steps.annotated.entry)
                (plugins_same handled.cluster out left ∙ handled.declared)
                (name_same handled.cluster out (name_left handled.cluster patched handled.steps d))
                handled.accepted
                (get-set handled.steps.restored restored_from_path
                  (string handled.steps.annotated.entry) handled.steps.annotated.done)
                clock' s',
        )
