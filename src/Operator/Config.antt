-- ===== src/Operator/Config.antt =====
-- internal/cnpgi/operator/config/config.go: what a Cluster's plugin declaration asks for. The
-- Cluster that a configuration points back to is left out, but for its name.
pub mod Checked
use cnpg_i_chronicle.Common.{
  Bool, true, false, ◌&&◌, ◌||◌, not, Option, none, some, List, [], ◌∷◌, if◌then◌else◌, Text, codes,
  text_eq, is_nil, Result, ok, err,
}
use cnpg_i_chronicle.Cluster.{Cluster, Declaration}
use cnpg_i_chronicle.Snapshot.Denylist.{StringMap, plugin_name}

pub record PluginConfiguration : Type 0 where
  pub save_to_store : Text
  pub save_to_server : Text
  pub restore_from_store : Text
  pub restore_from_server : Text
  pub restore_policy : Text
  pub enabled : Bool
  pub present : Bool

pub data ConfigError : Type 0 where
  server_missing store_missing nothing_to_restore : Text → ConfigError

-- parameters[name]: a missing one reads as the empty text.
unfoldable pub parameter : Text → StringMap → Text
parameter name [] = []
parameter name (entry ∷ rest) = if text_eq entry.0 name then entry.1 else parameter name rest

-- NewFromParameters
unfoldable pub new_from_parameters : StringMap → Text → PluginConfiguration
new_from_parameters parameters cluster_name = record {
  save_to_store = parameter (codes "saveToStore") parameters;
  save_to_server =
      (let server = parameter (codes "saveToServer") parameters in
        if is_nil server then cluster_name else server);
  restore_from_store = parameter (codes "restoreFromStore") parameters;
  restore_from_server = parameter (codes "restoreFromServer") parameters;
  restore_policy = parameter (codes "restorePolicy") parameters;
  enabled = false;
  present = false;
}

-- declaration.Enabled == nil || *declaration.Enabled
abbrev pub enabled_unless_false : Option Bool → Bool
enabled_unless_false none = true
enabled_unless_false (some b) = b

-- The loop of NewFromCluster: the first declaration with the plugin's name decides.
unfoldable pub new_from_plugins : List Declaration → Text → PluginConfiguration
new_from_plugins [] cluster_name = record {
  save_to_store = [];
  save_to_server = cluster_name;
  restore_from_store = [];
  restore_from_server = [];
  restore_policy = [];
  enabled = false;
  present = false;
}
new_from_plugins (declaration ∷ rest) cluster_name =
    let later = new_from_plugins rest cluster_name in
    if text_eq declaration.name plugin_name
    then record (new_from_parameters declaration.parameters cluster_name) {
      enabled = enabled_unless_false declaration.enabled;
      present = true;
    }
    else later

-- NewFromCluster
unfoldable pub new_from_cluster : Cluster → PluginConfiguration
new_from_cluster cluster = new_from_plugins cluster.plugins cluster.name

-- Validate
unfoldable pub validate : PluginConfiguration → Result ConfigError (Unit {0})
validate c =
    if not c.present || not c.enabled
    then ok tt
    else if not (is_nil c.restore_from_store) && is_nil c.restore_from_server
    then err (server_missing c.restore_from_store)
    else if not (is_nil c.restore_from_server) && is_nil c.restore_from_store
    then err (store_missing c.restore_from_server)
    else if not (is_nil c.restore_policy) && is_nil c.restore_from_store
    then err (nothing_to_restore c.restore_policy)
    else ok tt

-- IsSaveEnabled and IsRestoreRequested
unfoldable pub is_save_enabled : PluginConfiguration → Bool
is_save_enabled c = c.present && (c.enabled && not (is_nil c.save_to_store))

unfoldable pub is_restore_requested : PluginConfiguration → Bool
is_restore_requested c = c.present && (c.enabled && not (is_nil c.restore_from_store))

-- SaveToKey, in the Cluster's namespace
unfoldable pub save_to_key : Text → PluginConfiguration → Text × Text
save_to_key namespace c = (namespace, c.save_to_store)
