-- ===== src/Restore/Skip.antt =====
-- internal/restore/skip.go: which paths a restore leaves alone. A nil SkipSet is the one with no
-- rules.
pub mod Match
use cnpg_i_chronicle.Common.{
  Bool, true, false, ◌||◌, ◌&&◌, not, Option, none, some, List, [], ◌∷◌, ◌++◌, if◌then◌else◌, Text,
  codes, text_eq, has_prefix, cut_prefix, trim_suffix, contains, is_nil, map, Result, ok, err,
  ◌>>=◌,
}
use cnpg_i_chronicle.Api.{SkipRule}
use cnpg_i_chronicle.Snapshot.Groups.{Group, metadata_group_name, lookup_group}
use cnpg_i_chronicle.Snapshot.PathCheck.{GoType, names_map, enclosing_map}

-- skipRule
pub record CompiledSkip : Type 0 where
  pub path : Text
  pub exact : Bool
  pub keyed : Bool
  pub key_prefix : Text
  pub except : List Text
  pub reason : Text

pub data SkipError : Type 0 where
  group_and_path : Text → Text → SkipError
  keyed_group : Text → SkipError
  unknown_skip_group : Text → SkipError
  not_a_map : Text → SkipError
  empty_rule : SkipError

-- A rule that names a path and nothing else.
abbrev pub plain_skip : Text → Text → CompiledSkip
plain_skip reason path = record {
  path = path;
  exact = false;
  keyed = false;
  key_prefix = [];
  except = [];
  reason = reason;
}

abbrev pub is_keyed : SkipRule → Bool
is_keyed rule = not (is_nil rule.key_prefix) || not (is_nil rule.except)

-- strings.Join(except, ", ")
unfoldable pub comma_join : List Text → Text
comma_join [] = []
comma_join (s ∷ []) = s
comma_join (s ∷ t ∷ ss) = s ++ (codes ", " ++ comma_join (t ∷ ss))

-- How a path rule reads in a plan.
unfoldable pub path_reason : SkipRule → Text → Text
path_reason rule path =
    codes "path "
    ++ (path
        ++ ((if is_nil rule.key_prefix then [] else codes ", keys prefixed " ++ rule.key_prefix)
            ++ (if is_nil rule.except then [] else codes ", except " ++ comma_join rule.except)))

-- The rules that a group compiles to.
unfoldable pub group_rules : Group → List CompiledSkip
group_rules group =
    let reason = codes "group " ++ group.name in
    map (plain_skip reason) group.paths
    ++ (if text_eq group.name metadata_group_name
        then plain_skip reason (codes "metadata.labels")
          ∷ plain_skip reason (codes "metadata.annotations")
          ∷ []
        else [])

-- skipRule.matches
unfoldable pub matches : CompiledSkip → Text → Bool
matches rule path =
    if rule.keyed
    then elim (cut_prefix path (rule.path ++ codes ".")) [
      | none ↦ false
      | some key ↦ has_prefix key rule.key_prefix && not (contains rule.except key)
    ]
    else if rule.exact
    then text_eq path rule.path
    else text_eq path rule.path || has_prefix path (rule.path ++ codes ".")

-- Skips: the reason of the first rule that matches.
unfoldable pub skips : List CompiledSkip → Text → Option Text
skips [] path = none
skips (rule ∷ rules) path = if matches rule path then some rule.reason else skips rules path

module _ (cluster_spec : GoType) where
  -- compiled.exact: the path names a key inside a map.
  unfoldable pub names_key : Text → Bool
  names_key path = elim (enclosing_map cluster_spec path) [
    | none ↦ false
    | some enclosing ↦ not (text_eq path enclosing)
  ]

  -- compilePathRule
  unfoldable pub compile_path_rule : SkipRule → Result SkipError CompiledSkip
  compile_path_rule rule =
      let path = trim_suffix rule.path (codes ".*") in
      if is_keyed rule && not (names_map cluster_spec path)
      then err (not_a_map path)
      else ok (record {
        path = path;
        exact = names_key path;
        keyed = is_keyed rule;
        key_prefix = rule.key_prefix;
        except = rule.except;
        reason = path_reason rule path;
      })

  -- One turn of NewSkipSet's loop: what the rule compiles to.
  unfoldable pub compile_skip : SkipRule → Result SkipError (List CompiledSkip)
  compile_skip rule =
      let grouped = not (is_nil rule.group) in
      let pathed = not (is_nil rule.path) in
      if grouped && pathed
      then err (group_and_path rule.group rule.path)
      else if grouped && is_keyed rule
      then err (keyed_group rule.group)
      else if grouped
      then elim (lookup_group rule.group) [
        | none ↦ err (unknown_skip_group rule.group)
        | some group ↦ ok (group_rules group)
      ]
      else if pathed
      then (do compiled ← compile_path_rule rule; ok (compiled ∷ []))
      else err empty_rule

  -- NewSkipSet
  unfoldable pub new_skip_set : List SkipRule → Result SkipError (List CompiledSkip)
  new_skip_set [] = ok []
  new_skip_set (rule ∷ rules) = do
    compiled ← compile_skip rule
    rest ← new_skip_set rules
    ok (compiled ++ rest)
