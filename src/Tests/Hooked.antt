-- ===== src/Tests/Hooked.antt =====
-- A Post of a small Cluster that saves to an empty store, and the watermark after it.
use cnpg_i_chronicle.Common.{
  ◌≡◌, refl, inr, true, Option, none, some, [], ◌∷◌, Text, codes, text_eq, text_lt, has_prefix,
  has_suffix, cut_at, Result, ok,
}
use cnpg_i_chronicle.Common.Sort.{insert_sorted, sort_by}
use cnpg_i_chronicle.Json
use cnpg_i_chronicle.PathUtil.{
  split_dots, split, get_from, get_segments, get, step_into, set_segments, set, prune,
  delete_segments, delete,
}
use cnpg_i_chronicle.Api.{ConfigStore, get_prefix}
use cnpg_i_chronicle.Cluster.{Cluster}
use cnpg_i_chronicle.Snapshot.Groups.{
  find_group, lookup_group, groups, default_group_names, effective_group_names,
}
use cnpg_i_chronicle.Snapshot.Denylist.{
  plugin_name, denied_paths, delete_each, apply_denylist, covers, is_denied_path, filter_gucs,
  keep_free, filter_metadata, is_denied_metadata_key, is_denied_domain, denied_metadata_domains,
  denied_metadata_keys, managed_libraries,
}
use cnpg_i_chronicle.Snapshot.Types.{
  digest, checksum, capture_rules_digest, metadata_fingerprint, Snapshot,
}
use cnpg_i_chronicle.Snapshot.Extract.{
  enabled_groups, capture_time, copy_path, capture_paths, capture_groups, put_back,
  sanitize_parameters, sanitize_libraries, sanitize_postgres_configuration, captured_spec,
  capture_content, snapshot_of, sealed, extract_from, extract_cluster, extract,
}
use cnpg_i_chronicle.Store.Layout.{Layout, latest_key}
use cnpg_i_chronicle.Store.Refs.{sort_refs}
use cnpg_i_chronicle.Store.Snapshots
use cnpg_i_chronicle.Store.Snapshots.{
  not_found, key_of, write_latest, write, list_refs, refs_of, last_ref, latest_listed,
}
use cnpg_i_chronicle.Store.Resolver.{ReadError, Provider, layout_for, open_store}
use cnpg_i_chronicle.Operator.Config.{
  parameter, new_from_parameters, new_from_plugins, new_from_cluster, is_save_enabled,
}
use cnpg_i_chronicle.Operator.Settled.{Entries, entry_of, settled, remember, set_entry}
use cnpg_i_chronicle.Operator.Hooks.{
  ClusterStatus, HookRequest, continue_behavior, watermark_from, up_to_date, live_fingerprint,
  post_written, post_write, post_latest, post_opened, post_captured, post_fingerprinted,
  post_stored, post_cluster, post,
}
use cnpg_i_chronicle.Operator.Hooks.Published.{publish, publish_latest}
use cnpg_i_chronicle.Operator.Hooks.Captured.{
  posts, newest_in, SameCapture, post_saves, post_succeeds,
}
use cnpg_i_chronicle.Operator.Hooks.Repeated.{post_repeated}
use cnpg_i_chronicle.Operator.Hooks.Watermark.{publish_latest-up_to_date}
use cnpg_i_chronicle.Tests.Captures.{
  encoding, postgres, codec, time, snap, Objects, objects, cluster, kept,
}
use cnpg_i_chronicle.Tests.Admission.{resolved}

program : Unit {0}
unfolding text_eq text_lt has_prefix has_suffix cut_at insert_sorted sort_by Json.lookup Json.insert
    Json.remove split_dots split get_from get_segments get step_into set_segments set prune
    delete_segments delete get_prefix find_group lookup_group groups default_group_names
    effective_group_names denied_paths delete_each apply_denylist covers is_denied_path filter_gucs
    keep_free filter_metadata is_denied_metadata_key is_denied_domain denied_metadata_domains
    denied_metadata_keys managed_libraries digest checksum capture_rules_digest metadata_fingerprint
    enabled_groups capture_time copy_path capture_paths capture_groups put_back sanitize_parameters
    sanitize_libraries sanitize_postgres_configuration captured_spec capture_content snapshot_of
    sealed extract_from extract_cluster extract sort_refs Snapshots.latest write_latest write
    list_refs refs_of last_ref latest_listed layout_for open_store parameter new_from_parameters
    new_from_plugins new_from_cluster is_save_enabled entry_of settled remember set_entry
    watermark_from up_to_date live_fingerprint post_written post_write post_latest post_opened
    post_captured post_fingerprinted post_stored post_cluster post publish_latest
program = tt

abbrev saving : Cluster
saving = record cluster {
  plugins =
      record {
        name = plugin_name;
        enabled = none;
        parameters = (codes "saveToStore", codes "s") ∷ [];
      }
      ∷ [];
}

abbrev store : ConfigStore
store = record {
  name = codes "s";
  namespace = codes "b";
  derived_from = none;
  configuration = none;
  retention = [];
  capture_groups = codes "Instances" ∷ [];
  prefix = [];
}

abbrev provider : Provider Objects
provider = record { resolve = λ s. ok resolved; backend = λ namespace r. ok objects }

abbrev no_status : Text → Option ClusterStatus
no_status text = none

abbrev get_store : Text → Text → Result ReadError ConfigStore
get_store namespace name = ok store

abbrev request : HookRequest
request = record { kind = some (codes "Cluster"); cluster = some saving }

abbrev layout : Layout
layout = record { base_path = codes "backups"; server_name = codes "a"; prefix = codes "chronicle" }

abbrev key : Text
key = key_of encoding codec objects time layout snap

abbrev after : Objects
after = (latest_key layout, codes "snap") ∷ (key, codes "snap") ∷ []

abbrev fingerprint : Text
fingerprint = codes "sha256:0123456789abcdef"

ran :
    posts encoding postgres codec time no_status get_store provider 5 (codes "1") [] none request
    ≡ (after, none, ok continue_behavior)
unfolding program
ran = refl

live : live_fingerprint encoding postgres saving store.capture_groups ≡ some fingerprint
unfolding program
live = refl

captured :
    extract encoding postgres 5
      (some saving)
      (record { groups = codes "Instances" ∷ []; plugin_version = codes "1"; now = 0 })
    ≡ ok snap
unfolding program
captured = refl

post_saves_example :
    (continue_behavior ≡ continue_behavior)
    × (newest : Snapshot) × (k : Text) × (newest_in encoding postgres codec time no_status get_store
          provider 5
          (codes "1")
          objects
          layout
          after
        ≡ ok (newest, k))
    × SameCapture encoding postgres codec time no_status get_store provider 5
        (codes "1")
        newest
        snap
unfolding program
post_saves_example =
    post_saves encoding postgres codec time no_status get_store provider 5 (codes "1") [] none
      request saving store fingerprint snap objects layout refl refl refl refl live refl refl
      captured refl kept (λ raw h. refl) after none continue_behavior ran

post_succeeds_example :
    (s' : Objects) × (cache' : Option Entries) × (posts encoding postgres codec time no_status
        get_store provider 5
        (codes "1")
        []
        none
        request
      ≡ (s', cache', ok continue_behavior))
    × (newest : Snapshot) × (k : Text) × (newest_in encoding postgres codec time no_status get_store
          provider 5
          (codes "1")
          objects
          layout
          s'
        ≡ ok (newest, k))
    × SameCapture encoding postgres codec time no_status get_store provider 5
        (codes "1")
        newest
        snap
unfolding program
post_succeeds_example =
    post_succeeds encoding postgres codec time no_status get_store provider 5 (codes "1") [] none
      request saving store fingerprint snap objects layout refl refl refl refl live refl refl
      captured refl kept (λ raw h. refl) (codes "snap") refl (λ t k v. ((k, v) ∷ t, refl))
      (inr refl)

abbrev cached : Option Entries
cached = some (
    (codes "c", record { generation = 7; metadata_checksum = fingerprint; snapshot_key = key })
    ∷ [])

ran_cached :
    posts encoding postgres codec time no_status get_store provider 5
      (codes "1")
      []
      (some [])
      request
    ≡ (after, cached, ok continue_behavior)
unfolding program
ran_cached = refl

post_repeated_example :
    posts encoding postgres codec time no_status get_store provider 9
      (codes "2")
      after
      cached
      request
    ≡ (after, cached, ok continue_behavior)
unfolding program
post_repeated_example =
    post_repeated encoding postgres codec time no_status get_store provider 5 9 (codes "1")
      (codes "2") [] [] request after cached ran_cached

publish_latest-up_to_date_example :
    (status : ClusterStatus) × (publish_latest encoding postgres codec time no_status get_store
        provider
        (λ t. [])
        saving
        (ok (snap, key))
      ≡ ok (publish status))
    × (up_to_date saving fingerprint (some status) ≡ true)
publish_latest-up_to_date_example =
    publish_latest-up_to_date encoding postgres codec time no_status get_store provider (λ t. []) 5
      saving store (record { groups = codes "Instances" ∷ []; plugin_version = codes "1"; now = 0 })
      snap key fingerprint captured refl live
