-- ===== src/Snapshot/Extract.antt =====
-- internal/snapshot/extract.go: the capture of a Cluster's configuration. The Cluster's generic
-- JSON form (pathutil.ToMap) comes with it, since JSON encoding is not modelled; the clock is an
-- argument.
pub mod Denied
pub mod Described
use mathlib.Core.Option
use cnpg_i_chronicle.Common.{
  ℕ, Bool, true, false, ◌||◌, Option, none, some, List, [], ◌∷◌, if◌then◌else◌, ◌==◌, Text, codes,
  text_eq, Result, ok, err, ◌>>=◌, ◌>>◌, refuse, bind_option, is_nil,
}
use cnpg_i_chronicle.Json.{Value, object, array, Fields, end, lookup, is_empty, as_map, as_slice}
use cnpg_i_chronicle.Cluster.{Cluster}
use cnpg_i_chronicle.PathUtil.{get, set, delete}
use cnpg_i_chronicle.Snapshot.Groups.{
  Group, metadata_group_name, lookup_group, group_names, default_group_names,
}
use cnpg_i_chronicle.Snapshot.Denylist.{
  StringMap, is_denied_path, apply_denylist, filter_metadata, filter_gucs,
  filter_shared_preload_libraries,
}
use cnpg_i_chronicle.Snapshot.Types.{
  api_version, kind, Content, Snapshot, Encoding, Postgres, checksum, capture_rules_digest,
}

pub record ExtractOptions : Type 0 where
  pub groups : List Text
  pub plugin_version : Text
  pub now : ℕ

pub data ExtractError : Type 0 where
  nil_cluster not_serializable not_encodable : ExtractError
  unknown_group : Text → List Text → ExtractError
  denied_group_path : Text → Text → ExtractError

-- ExtractOptions.groups
unfoldable pub enabled_groups : ExtractOptions → List Text
enabled_groups options = if is_nil options.groups then default_group_names else options.groups

-- ExtractOptions.now, with the clock's reading
unfoldable pub capture_time : ℕ → ExtractOptions → ℕ
capture_time clock options = if options.now == 0 then clock else options.now

-- The inner loop of Extract: the group's paths are copied out of the source. A value that is copied
-- is shared in Go; nothing reads the source afterwards.
unfoldable pub copy_path : Fields → Text → Fields → Fields
copy_path source path captured = elim (get source path) [
  | none ↦ captured
  | some value ↦ (set captured path value).0
]

unfoldable pub capture_paths : Text → Fields → List Text → Fields → Result ExtractError Fields
capture_paths group source [] captured = ok captured
capture_paths group source (path ∷ rest) captured = do
  refuse (is_denied_path path) (denied_group_path group path)
  capture_paths group source rest (copy_path source path captured)

-- The outer loop: what is captured, and whether the Metadata group was among the names.
unfoldable pub capture_groups :
    Fields → List Text → Fields → Bool → Result ExtractError (Fields × Bool)
capture_groups source [] captured metadata_enabled = ok (captured, metadata_enabled)
capture_groups source (name ∷ rest) captured metadata_enabled = elim (lookup_group name) [
  | none ↦ err (unknown_group name group_names)
  | some group ↦ do
    captured' ← capture_paths group.name source group.paths captured
    capture_groups source rest captured'
        (text_eq group.name metadata_group_name || metadata_enabled)
]

-- A filtered value goes back, and an empty one is deleted.
unfoldable pub put_back : Text → Fields → Option Value → Fields
put_back path captured none = delete captured path
put_back path captured (some value) = (set captured path value).0

abbrev pub parameters_path : Text
parameters_path = codes "spec.postgresql.parameters"

abbrev pub libraries_path : Text
libraries_path = codes "spec.postgresql.shared_preload_libraries"

-- The two halves of sanitizePostgresConfiguration
unfoldable pub sanitize_parameters : Postgres → Fields → Fields
sanitize_parameters postgres captured = elim (bind_option (get captured parameters_path) as_map) [
  | none ↦ captured
  | some parameters ↦
      put_back parameters_path captured
        (Option.map object (filter_gucs postgres.fixed_parameters parameters))
]

unfoldable pub sanitize_libraries : Postgres → Fields → Fields
sanitize_libraries postgres captured = elim (bind_option (get captured libraries_path) as_slice) [
  | none ↦ captured
  | some libraries ↦
      put_back libraries_path captured
        (Option.map array (filter_shared_preload_libraries postgres.managed_extensions libraries))
]

unfoldable pub sanitize_postgres_configuration : Postgres → Fields → Fields
sanitize_postgres_configuration postgres captured =
    sanitize_libraries postgres (sanitize_parameters postgres captured)

-- captured["spec"] where it is a map; a map with no entries is no spec.
unfoldable pub captured_spec : Fields → Fields
captured_spec captured = elim (bind_option (lookup (codes "spec") captured) as_map) [
  | none ↦ end
  | some spec ↦ spec
]

-- What Extract captures, before it is checksummed.
unfoldable pub capture_content :
    Postgres → Cluster → Fields → List Text → Result ExtractError Content
capture_content postgres cluster source enabled = do
  (captured, metadata_enabled) ← capture_groups source enabled end false
  let cleaned = sanitize_postgres_configuration postgres (apply_denylist captured)
  ok (record {
    spec = captured_spec cleaned;
    labels = if metadata_enabled then filter_metadata cluster.labels else [];
    annotations = if metadata_enabled then filter_metadata cluster.annotations else [];
  })

module _ (encoding : Encoding) (postgres : Postgres) (clock : ℕ) where
  -- The snapshot that Extract returns for a captured content.
  unfoldable pub snapshot_of : Cluster → ExtractOptions → Content → Text → Snapshot
  snapshot_of cluster options content sum = record {
    api_version = api_version;
    kind = kind;
    captured_at = capture_time clock options;
    generation = cluster.generation;
    cluster = record { name = cluster.name; namespace = cluster.namespace; uid = cluster.uid };
    source = record { plugin_version = options.plugin_version; image_name = cluster.image };
    groups = enabled_groups options;
    capture_rules = capture_rules_digest encoding postgres (enabled_groups options);
    content = content;
    checksum = sum;
  }

  -- The end of Extract, on the checksum
  unfoldable pub sealed :
      Cluster → ExtractOptions → Content → Option Text → Result ExtractError Snapshot
  sealed cluster options content none = err not_encodable
  sealed cluster options content (some sum) = ok (snapshot_of cluster options content sum)

  -- Extract, on the Cluster's generic form
  unfoldable pub extract_from :
      Cluster → ExtractOptions → Option Fields → Result ExtractError Snapshot
  extract_from cluster options none = err not_serializable
  extract_from cluster options (some source) = do
    content ← capture_content postgres cluster source (enabled_groups options)
    sealed cluster options content (checksum encoding content)

  -- Extract, for a Cluster that is there
  unfoldable pub extract_cluster : Cluster → ExtractOptions → Result ExtractError Snapshot
  extract_cluster cluster options = extract_from cluster options cluster.to_map

  -- Extract
  unfoldable pub extract : Option Cluster → ExtractOptions → Result ExtractError Snapshot
  extract none options = err nil_cluster
  extract (some cluster) options = extract_cluster cluster options
