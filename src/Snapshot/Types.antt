-- ===== src/Snapshot/Types.antt =====
-- internal/snapshot/types.go and canonical.go: the snapshot document, its checksum and the
-- fingerprints. JSON encoding and SHA-256 are arguments, and so are CloudNativePG's own lists.
use cnpg_i_chronicle.Common.{
  ℕ, Option, none, some, List, [], ◌++◌, if◌then◌else◌, Text, codes, text_lt, contains, map,
  bind_option,
}
use cnpg_i_chronicle.Common.Sort.{sort_by}
use cnpg_i_chronicle.Json.{Fields, end}
use cnpg_i_chronicle.Snapshot.Groups.{Group, metadata_group_name, lookup_group}
use cnpg_i_chronicle.Snapshot.Denylist.{
  StringMap, filter_metadata, denied_paths, denied_metadata_domains, denied_metadata_keys,
  managed_libraries,
}

-- APIVersion and Kind
abbrev pub api_version : Text
api_version = codes "chronicle.sharifmshaker.github.io/v1"

abbrev pub kind : Text
kind = codes "ClusterMetadataSnapshot"

pub record ClusterRef : Type 0 where
  pub name : Text
  pub namespace : Text
  pub uid : Text

pub record SourceInfo : Type 0 where
  pub plugin_version : Text
  pub image_name : Text

pub record Content : Type 0 where
  pub spec : Fields
  pub labels : StringMap
  pub annotations : StringMap

-- An instant is its nanoseconds since year 1, Go's zero time.
pub record Snapshot : Type 0 where
  pub api_version : Text
  pub kind : Text
  pub captured_at : ℕ
  pub generation : ℕ
  pub cluster : ClusterRef
  pub source : SourceInfo
  pub groups : List Text
  pub capture_rules : Text
  pub content : Content
  pub open content use *
  pub checksum : Text

-- What MetadataFingerprint and CaptureRulesDigest encode.
pub record Fingerprint : Type 0 where
  pub content : Content
  pub capture_groups : List Text
  pub capture_rules : Text

pub record CaptureRules : Type 0 where
  pub groups : List (Text × List Text)
  pub denied_paths : List Text
  pub denied_metadata_domains : List Text
  pub denied_metadata_keys : List Text
  pub fixed_parameters : List Text
  pub managed_libraries : List Text

-- json.Marshal at the types that are encoded, and sha256 in hexadecimal. Marshalling may fail,
-- except for the capture rules, which hold texts alone.
pub record Encoding : Type 0 where
  pub marshal_content : Content → Option Text
  pub marshal_fingerprint : Fingerprint → Option Text
  pub marshal_rules : CaptureRules → Text
  pub sha256_hex : Text → Text

-- CloudNativePG's FixedConfigurationParameters, and the preload libraries of its
-- ManagedExtensions.
pub record Postgres : Type 0 where
  pub fixed_parameters : List Text
  pub managed_extensions : List (List Text)

abbrev pub sort_texts : List Text → List Text
sort_texts = sort_by text_lt

-- The paths of a group that CaptureRulesDigest looks up; an unknown one has none.
abbrev pub paths_of : Option Group → List Text
paths_of none = []
paths_of (some group) = group.paths

module _ (encoding : Encoding) where
  -- digest
  unfoldable pub digest : Text → Text
  digest encoded = codes "sha256:" ++ encoding.sha256_hex encoded

  -- Canonical
  abbrev pub canonical : Content → Option Text
  canonical = encoding.marshal_content

  -- Checksum; `none` is an error of the encoder.
  unfoldable pub checksum : Content → Option Text
  checksum content = bind_option (canonical content) (λ encoded. some (digest encoded))

  -- MetadataFingerprint
  unfoldable pub metadata_fingerprint : StringMap → StringMap → List Text → Text → Option Text
  metadata_fingerprint labels annotations groups capture_rules =
      let kept = contains groups metadata_group_name in
      let content : Content = record {
        spec = end;
        labels = filter_metadata (if kept then labels else []);
        annotations = filter_metadata (if kept then annotations else []);
      } in
      bind_option
        (encoding.marshal_fingerprint (record {
          content = content;
          capture_groups = sort_texts groups;
          capture_rules = capture_rules;
        }))
        (λ encoded. some (digest encoded))

  -- CaptureRulesDigest
  unfoldable pub capture_rules_digest : Postgres → List Text → Text
  capture_rules_digest postgres groups = digest (
      encoding.marshal_rules (record {
        groups = map (λ (name : Text). (name, paths_of (lookup_group name))) (sort_texts groups);
        denied_paths = denied_paths;
        denied_metadata_domains = denied_metadata_domains;
        denied_metadata_keys = denied_metadata_keys;
        fixed_parameters = sort_texts postgres.fixed_parameters;
        managed_libraries = sort_texts (managed_libraries postgres.managed_extensions);
      }))
