-- ===== src/Tests/Plugin.antt =====
-- A plugin's configuration, and a cache of one settled state.
use cnpg_i_chronicle.Common.{
  ◌≤◌, ◌≡◌, refl, ◌⊎◌, ◌↔◌, true, none, some, [], ◌∷◌, Text, codes, text_eq, is_nil, ok,
}
use cnpg_i_chronicle.Cluster.{Cluster}
use cnpg_i_chronicle.Operator.Config.{PluginConfiguration, validate, is_restore_requested}
use cnpg_i_chronicle.Operator.Config.Checked.{validate_iff}
use cnpg_i_chronicle.Operator.Settled.{
  Entries, max_settled_entries, entry_of, set_entry, confirmed, settled, remember,
}
use cnpg_i_chronicle.Operator.Settled.Trust.{
  size, remember-bound, settled-remember, settled-remember_ne,
}

abbrev configuration : PluginConfiguration
configuration = record {
  save_to_store = [];
  save_to_server = codes "a";
  restore_from_store = codes "store";
  restore_from_server = codes "old";
  restore_policy = codes "policy";
  enabled = true;
  present = true;
}

validate_iff_example :
    (validate configuration ≡ ok tt)
    ↔ (is_restore_requested configuration ≡ true)
      × ((is_nil configuration.restore_policy ≡ true) ⊎ (is_restore_requested configuration ≡ true))
validate_iff_example = validate_iff configuration refl refl

abbrev cluster_with : Text → Cluster
cluster_with uid = record {
  name = codes "a";
  namespace = codes "b";
  uid = uid;
  generation = 7;
  labels = [];
  annotations = [];
  image = [];
  plugins = [];
  plugin_status = [];
  to_map = none;
}

abbrev entries : Entries
entries =
    (codes "v", record { generation = 7; metadata_checksum = codes "m"; snapshot_key = codes "k" })
    ∷ []

remember-bound_example :
    size (remember (some entries) (cluster_with (codes "u")) (codes "n") (codes "l"))
    ≤ max_settled_entries
remember-bound_example =
    remember-bound (some entries) (cluster_with (codes "u")) (codes "n") (codes "l")

settled-remember_example :
    settled
      (remember (some entries) (cluster_with (codes "u")) (codes "n") (codes "l"))
      (cluster_with (codes "u"))
      (codes "n")
    ≡ some (codes "l")
settled-remember_example =
    settled-remember entries (cluster_with (codes "u")) (codes "n") (codes "l")

settled-remember_ne_example :
    settled (some entries) (cluster_with (codes "v")) (codes "m") ≡ some (codes "k")
unfolding text_eq entry_of set_entry confirmed settled remember
settled-remember_ne_example =
    settled-remember_ne (some entries) (cluster_with (codes "u")) (cluster_with (codes "v"))
      (codes "n") (codes "l") (codes "m") (codes "k") refl refl
