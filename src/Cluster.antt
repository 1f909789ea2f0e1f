-- ===== src/Cluster.antt =====
-- What the plugin reads of a CloudNativePG Cluster, and of the entries of its plugin lists.
use cnpg_i_chronicle.Common.{ℕ, Bool, Option, List, Text}
use cnpg_i_chronicle.Json.{Fields}
use cnpg_i_chronicle.Snapshot.Denylist.{StringMap}

-- One entry of .spec.plugins; `none` is an Enabled that is nil.
pub record Declaration : Type 0 where
  pub name : Text
  pub enabled : Option Bool
  pub parameters : StringMap

-- One entry of .status.pluginStatus.
pub record PluginStatus : Type 0 where
  pub name : Text
  pub status : Text

-- `to_map` is the generic JSON form; `none` there is a Cluster that does not serialize.
pub record Cluster : Type 0 where
  pub name : Text
  pub namespace : Text
  pub uid : Text
  pub generation : ℕ
  pub labels : StringMap
  pub annotations : StringMap
  pub image : Text
  pub plugins : List Declaration
  pub plugin_status : List PluginStatus
  pub to_map : Option Fields
