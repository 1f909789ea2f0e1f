-- ===== src/Tests/Captures.antt =====
-- A capture of a small Cluster, and the store that it is written to.
use cnpg_i_chronicle.Common.{
  ◌≡◌, refl, sym, ap, text_eq_refl, ◌∙◌, none, some, List, [], ◌∷◌, if◌then◌else◌, Text, codes,
  text_eq, text_lt, has_prefix, has_suffix, cut_at, Elem, here, there, Result, ok, err,
}
use cnpg_i_chronicle.Common.Sort.{insert_sorted, sort_by}
use cnpg_i_chronicle.Json
use cnpg_i_chronicle.Json.{Value, number, string, object, Fields, end, field}
use cnpg_i_chronicle.PathUtil.{
  split_dots, split, get_from, get_segments, get, step_into, set_segments, set, prune,
  delete_segments, delete,
}
use cnpg_i_chronicle.Snapshot.Groups.{find_group, lookup_group, groups, default_group_names}
use cnpg_i_chronicle.Snapshot.Denylist.{
  denied_paths, delete_each, apply_denylist, covers, is_denied_path, filter_gucs, keep_free,
  filter_metadata, is_denied_metadata_key, is_denied_domain, denied_metadata_domains,
  denied_metadata_keys, managed_libraries,
}
use cnpg_i_chronicle.Snapshot.Types.{
  Content, Snapshot, Encoding, Postgres, digest, checksum, capture_rules_digest,
}
use cnpg_i_chronicle.Cluster.{Cluster}
use cnpg_i_chronicle.Snapshot.Extract.{
  ExtractOptions, enabled_groups, capture_time, copy_path, capture_paths, capture_groups, put_back,
  sanitize_parameters, sanitize_libraries, sanitize_postgres_configuration, captured_spec,
  capture_content, snapshot_of, sealed, extract_from, extract_cluster, extract,
}
use cnpg_i_chronicle.Snapshot.Extract.Denied.{capture-denied}
use cnpg_i_chronicle.Store.Layout.{TimeFormat, Layout, latest_key}
use cnpg_i_chronicle.Store.Snapshots.{
  StoreError, not_found, Backend, SnapshotCodec, key_of, write_latest, write, latest,
}
use cnpg_i_chronicle.Store.Snapshots.Written.{Sealed, extract-Sealed, write-latest}

program : Unit {0}
unfolding text_eq text_lt has_prefix has_suffix cut_at insert_sorted sort_by Json.lookup Json.insert
    Json.remove split_dots split get_from get_segments get step_into set_segments set prune
    delete_segments delete find_group lookup_group groups default_group_names denied_paths
    delete_each apply_denylist covers is_denied_path filter_gucs keep_free filter_metadata
    is_denied_metadata_key is_denied_domain denied_metadata_domains denied_metadata_keys
    managed_libraries digest checksum capture_rules_digest enabled_groups capture_time copy_path
    capture_paths capture_groups put_back sanitize_parameters sanitize_libraries
    sanitize_postgres_configuration captured_spec capture_content snapshot_of sealed extract_from
    extract_cluster extract
program = tt

abbrev pub encoding : Encoding
encoding = record {
  marshal_content = λ c. some (codes "content");
  marshal_fingerprint = λ f. some (codes "fingerprint");
  marshal_rules = λ r. codes "rules";
  sha256_hex = λ t. codes "0123456789abcdef";
}

abbrev pub postgres : Postgres
postgres = record { fixed_parameters = codes "port" ∷ []; managed_extensions = [] }

abbrev source : Fields
source =
    field (codes "spec")
      (object (
        field (codes "instances") (number (codes "3"))
          (field (codes "backup") (string (codes "s3")) end)))
      end

abbrev pub cluster : Cluster
cluster = record {
  name = codes "a";
  namespace = codes "b";
  uid = codes "c";
  generation = 7;
  labels = (codes "app", codes "x") ∷ [];
  annotations = [];
  image = [];
  plugins = [];
  plugin_status = [];
  to_map = some source;
}

abbrev pub options : ExtractOptions
options = record { groups = codes "Instances" ∷ []; plugin_version = codes "1"; now = 5 }

abbrev pub content : Content
content = record {
  spec = field (codes "instances") (number (codes "3")) end;
  labels = [];
  annotations = [];
}

abbrev pub snap : Snapshot
snap = record {
  api_version = codes "chronicle.sharifmshaker.github.io/v1";
  kind = codes "ClusterMetadataSnapshot";
  captured_at = 5;
  generation = 7;
  cluster = record { name = codes "a"; namespace = codes "b"; uid = codes "c" };
  source = record { plugin_version = codes "1"; image_name = [] };
  groups = codes "Instances" ∷ [];
  capture_rules = codes "sha256:0123456789abcdef";
  content = content;
  checksum = codes "sha256:0123456789abcdef";
}

captured : capture_content postgres cluster source (codes "Instances" ∷ []) ≡ ok content
unfolding program
captured = refl

pub extracted : extract encoding postgres 0 (some cluster) options ≡ ok snap
unfolding program
extracted = refl

backup_is_denied : Elem (codes "spec.backup") denied_paths
unfolding denied_paths
backup_is_denied = there (here refl)

capture-denied_example : get_segments content.spec (codes "backup" ∷ []) ≡ none
unfolding program
capture-denied_example =
    capture-denied postgres cluster source (codes "Instances" ∷ []) content (codes "spec.backup")
      (codes "backup") [] captured backup_is_denied refl

extract-Sealed_example : Sealed encoding snap
extract-Sealed_example = extract-Sealed encoding postgres 0 (some cluster) options snap extracted

-- An object store: the newest put of a key is the one that a get finds.
abbrev pub Objects : Type 0
Objects = List (Text × Text)

abbrev pub get_object : Objects → Text → Result StoreError Text
get_object [] key = err not_found
get_object (entry ∷ rest) key = if text_eq entry.0 key then ok entry.1 else get_object rest key

abbrev pub objects : Backend Objects
objects = record {
  check = λ s prefix. ok tt;
  get = get_object;
  put = λ s key body. ((key, body) ∷ s, ok tt);
  list = λ s prefix. ok [];
  delete = λ s key. (s, ok tt);
}

abbrev pub codec : SnapshotCodec
codec = record { encode = λ s. some (codes "snap"); decode = λ t. some snap }

abbrev pub time : TimeFormat
time = record { format = λ t. codes "20260101T000000Z"; parse = λ t. some 5 }

abbrev layout : Layout
layout = record {
  base_path = codes "/backups";
  server_name = codes "a";
  prefix = codes "chronicle";
}

abbrev key : Text
key = key_of encoding codec objects time layout snap

abbrev after_write : Objects
after_write = (latest_key layout, codes "snap") ∷ (key, codes "snap") ∷ []

written : write encoding codec objects time layout [] snap ≡ (after_write, ok key)
unfolding write write_latest
written = refl

pub kept :
    (s s' : Objects) (k v : Text)
    → codec.encode snap ≡ some v
    → objects.put s k v ≡ (s', ok tt)
    → objects.get s' k ≡ ok v
kept s s' k v e h =
    sym (ap (λ (p : Objects × Result StoreError (Unit {0})). get_object p.0 k) h)
    ∙ rw (text_eq_refl k)

write-latest_example : latest encoding codec objects time layout after_write ≡ ok (snap, key)
write-latest_example =
    write-latest encoding codec objects time layout postgres 0 (some cluster) options snap []
      after_write key kept (λ raw h. refl) extracted written
