-- ===== src/Snapshot/PathCheck.antt =====
-- internal/snapshot/pathcheck.go: whether a rule's path can match anything. CloudNativePG's
-- ClusterSpec, which the code reads by reflection, is an argument: the type as a tree.
use cnpg_i_chronicle.Common.{
  Bool, true, false, ◌||◌, ◌&&◌, not, Option, none, some, List, [], ◌∷◌, ◌++◌, if◌then◌else◌, ◌==◌,
  Text, codes, text_eq, has_prefix, cut_prefix, trim_suffix, any, Result, ok, err, is_some,
  bind_option,
}
use cnpg_i_chronicle.PathUtil.{split_dots}
use cnpg_i_chronicle.Snapshot.Groups.{Group, groups}
use cnpg_i_chronicle.Snapshot.Denylist.{is_denied_path}

-- A Go type as reflection shows it: a struct has a name and fields, each with the name part of its
-- json tag and whether it is embedded.
mutual
  pub data GoType : Type 0 where
    struct : Text → Members → GoType
    map_of : GoType → GoType
    pointer : GoType → GoType
    slice : GoType → GoType
    scalar : GoType

  pub data Members : Type 0 where
    no_members : Members
    member : Text → Bool → GoType → Members → Members

-- elemType
unfoldable pub elem_type : GoType → GoType
elem_type (pointer t) = elem_type t
elem_type (slice t) = elem_type t
elem_type (struct n ms) = struct n ms
elem_type (map_of t) = map_of t
elem_type scalar = scalar

-- Pointers alone are looked through.
unfoldable pub strip_pointers : GoType → GoType
strip_pointers (pointer t) = strip_pointers t
strip_pointers (slice t) = slice t
strip_pointers (struct n ms) = struct n ms
strip_pointers (map_of t) = map_of t
strip_pointers scalar = scalar

abbrev pub as_struct : GoType → Option Members
as_struct (struct n ms) = some ms
as_struct _ = none

abbrev pub as_map_type : GoType → Option GoType
as_map_type (map_of t) = some t
as_map_type _ = none

abbrev pub is_struct_named : Text → GoType → Bool
is_struct_named name (struct n ms) = text_eq n name
is_struct_named name _ = false

abbrev pub is_last : List Text → Bool
is_last [] = true
is_last (s ∷ ss) = false

-- fieldByJSONName: an embedded struct with no tag is searched in its place.
unfoldable mutual
  pub field_by_json_name : Members → Text → Option GoType
  field_by_json_name no_members name = none
  field_by_json_name (member tag anonymous type rest) name =
      let nested = embedded_field type name in
      let later = field_by_json_name rest name in
      if text_eq tag name
      then some type
      else if text_eq tag [] && anonymous && is_some nested
      then nested
      else later

  pub embedded_field : GoType → Text → Option GoType
  embedded_field (struct n ms) name = field_by_json_name ms name
  embedded_field (map_of t) name = none
  embedded_field (pointer t) name = none
  embedded_field (slice t) name = none
  embedded_field scalar name = none

-- What ValidateRulePath answers.
pub data RulePathError : Type 0 where
  empty_path : RulePathError
  denied other_metadata no_group not_in_cluster : Text → RulePathError
  past_value : Text → Text → RulePathError
  no_field : Text → Text → Text → RulePathError

-- withinCaptureGroups
unfoldable pub overlaps : Text → Text → Bool
overlaps path claimed =
    text_eq path claimed
    || (has_prefix path (claimed ++ codes ".") || has_prefix claimed (path ++ codes "."))

unfoldable pub within_capture_groups : Text → Bool
within_capture_groups path =
    any (λ (group : Group). any (λ (claimed : Text). overlaps path claimed) group.paths) groups

-- The switch of ValidateRulePath on captured metadata: `some` is a path that needs no schema.
abbrev pub is_captured_metadata : Text → Bool
is_captured_metadata path =
    text_eq path (codes "metadata")
    || (text_eq path (codes "metadata.labels")
        || (has_prefix path (codes "metadata.labels.")
            || (text_eq path (codes "metadata.annotations")
                || has_prefix path (codes "metadata.annotations."))))

-- The loop of resolveInClusterSpec.
unfoldable pub resolve_from : Text → GoType → Text → List Text → Result RulePathError (Unit {0})
resolve_from path current walked [] = ok tt
resolve_from path current walked (segment ∷ rest) = elim (as_map_type (elem_type current)) [
  | some _ ↦ ok tt
  | none ↦ elim (as_struct (elem_type current)) [
    | none ↦ err (past_value path walked)
    | some members ↦ elim (field_by_json_name members segment) [
      | none ↦ err (no_field path walked segment)
      | some next ↦ resolve_from path next (walked ++ (b'.' ∷ segment)) rest
    ]
  ]
]

-- The loop of NamesMap: the type that the path leads to through structs alone.
unfoldable pub type_at : GoType → List Text → Option GoType
type_at current [] = some current
type_at current (segment ∷ rest) =
    bind_option (as_struct (elem_type current))
      λ members. bind_option (field_by_json_name members segment) λ next. type_at next rest

-- The loop of IsQuantityPath.
unfoldable pub quantity_from : GoType → List Text → Bool
quantity_from current [] = is_struct_named (codes "resource.Quantity") (elem_type current)
quantity_from current (segment ∷ rest) = elim (as_map_type (elem_type current)) [
  | some element ↦ quantity_from element rest
  | none ↦ elim (as_struct (elem_type current)) [
    | none ↦ false
    | some members ↦
        if is_struct_named (codes "apiv1.StorageConfiguration") (elem_type current)
          && (text_eq segment (codes "size") && is_last rest)
        then true
        else elim (field_by_json_name members segment) [
          | none ↦ false
          | some next ↦ quantity_from next rest
        ]
  ]
]

module _ (cluster_spec : GoType) where
  -- resolveInClusterSpec
  unfoldable pub resolve_in_cluster_spec : Text → Result RulePathError (Unit {0})
  resolve_in_cluster_spec path =
      if text_eq path (codes "spec") then ok tt else elim (cut_prefix path (codes "spec.")) [
        | none ↦ err (not_in_cluster path)
        | some rest ↦ resolve_from path cluster_spec (codes "spec") (split_dots rest)
      ]

  -- ValidateRulePath, with the trailing ".*" removed
  unfoldable pub validate_trimmed : Text → Result RulePathError (Unit {0})
  validate_trimmed path =
      if text_eq path []
      then err empty_path
      else if is_denied_path path
      then err (denied path)
      else if is_captured_metadata path
      then ok tt
      else if has_prefix path (codes "metadata.")
      then err (other_metadata path)
      else if not (within_capture_groups path)
      then err (no_group path)
      else resolve_in_cluster_spec path

  -- ValidateRulePath
  unfoldable pub validate_rule_path : Text → Result RulePathError (Unit {0})
  validate_rule_path path = validate_trimmed (trim_suffix path (codes ".*"))

  -- NamesMap
  unfoldable pub names_map : Text → Bool
  names_map path =
      if text_eq path (codes "metadata.labels") || text_eq path (codes "metadata.annotations")
      then true
      else elim (cut_prefix path (codes "spec.")) [
        | none ↦ false
        | some rest ↦ elim (type_at cluster_spec (split_dots rest)) [
          | none ↦ false
          | some type ↦ is_some (as_map_type (strip_pointers type))
        ]
      ]

  -- The loop of EnclosingMap, with the bytes that it has passed.
  unfoldable pub enclosing_prefix : Text → Text → Option Text
  enclosing_prefix seen [] = none
  enclosing_prefix seen (c ∷ rest) =
      let later = enclosing_prefix (seen ++ (c ∷ [])) rest in
      if c == b'.' && names_map seen then some seen else later

  -- EnclosingMap
  unfoldable pub enclosing_map : Text → Option Text
  enclosing_map path = elim (enclosing_prefix [] path) [
    | some prefix ↦ some prefix
    | none ↦ if names_map path then some path else none
  ]

  -- IsQuantityPath
  unfoldable pub is_quantity_path : List Text → Bool
  is_quantity_path (root ∷ segment ∷ rest) =
      text_eq root (codes "spec") && quantity_from cluster_spec (segment ∷ rest)
  is_quantity_path _ = false
