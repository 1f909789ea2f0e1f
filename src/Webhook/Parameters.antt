-- ===== src/Webhook/Parameters.antt =====
-- What internal/webhook/cluster_mutate.go reads of a created Cluster: the plugin's parameters, and
-- the name.
use cnpg_i_chronicle.Common.{
  Bool, false, not, Option, none, some, [], ◌∷◌, if◌then◌else◌, Text, codes, text_eq, bind_option,
}
use cnpg_i_chronicle.Json.{
  Value, null, boolean, number, string, array, object, Items, nil, cons, Fields, end, field, lookup,
  as_map, as_string, as_slice,
}
use cnpg_i_chronicle.PathUtil.{get}
use cnpg_i_chronicle.Snapshot.Denylist.{StringMap, plugin_name}

-- What the loop of pluginParameters reads of a declaration
abbrev pub text_at : Text → Fields → Text
text_at key m = elim (bind_option (lookup key m) as_string) [ none ↦ [] | some s ↦ s ]

abbrev pub is_false : Option Value → Bool
is_false (some (boolean b)) = not b
is_false _ = false

-- The parameters that are strings
unfoldable pub string_parameters : Fields → StringMap
string_parameters end = []
string_parameters (field key (string s) rest) = (key, s) ∷ string_parameters rest
string_parameters (field key null rest) = string_parameters rest
string_parameters (field key (boolean b) rest) = string_parameters rest
string_parameters (field key (number n) rest) = string_parameters rest
string_parameters (field key (array xs) rest) = string_parameters rest
string_parameters (field key (object m) rest) = string_parameters rest

-- The declaration of the plugin
unfoldable pub declared_parameters : Fields → Option StringMap
declared_parameters declaration =
    if is_false (lookup (codes "enabled") declaration)
    then none
    else elim (bind_option (lookup (codes "parameters") declaration) as_map) [
      | none ↦ some []
      | some parameters ↦ some (string_parameters parameters)
    ]

-- The loop of pluginParameters: what is not a map is passed over.
unfoldable pub parameters_in : Items → Option StringMap
parameters_in nil = none
parameters_in (cons entry rest) =
    let later = parameters_in rest in
    elim (as_map entry) [
      | none ↦ later
      | some declaration ↦
          if not (text_eq (text_at (codes "name") declaration) plugin_name)
          then later
          else declared_parameters declaration
    ]

-- pluginParameters
unfoldable pub plugin_parameters : Fields → Option StringMap
plugin_parameters cluster =
    bind_option (get cluster (codes "spec.plugins"))
      (λ raw. bind_option (as_slice raw) parameters_in)

-- The name that Handle reads
unfoldable pub name_of : Fields → Text
name_of cluster = elim (bind_option (get cluster (codes "metadata.name")) as_string) [
  | none ↦ []
  | some name ↦ name
]
