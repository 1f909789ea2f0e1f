-- ===== src/Snapshot/Denylist.antt =====
-- internal/snapshot/denylist.go: what is never captured and never restored. CloudNativePG's own
-- lists, its fixed parameters and the libraries of its managed extensions, are arguments.
pub mod Filters
pub mod Keys
use mathlib.Core.List.{flatten}
use cnpg_i_chronicle.Common.{
  Bool, true, false, ◌||◌, not, Option, none, some, List, [], ◌∷◌, ◌++◌, if◌then◌else◌, Text, codes,
  text_eq, has_prefix, has_suffix, cut_at, contains, any, keep,
}
use cnpg_i_chronicle.Json.{Value, Items, nil, cons, Fields, end, field, is_empty, as_string}
use cnpg_i_chronicle.PathUtil.{delete}

-- metadata.PluginName
abbrev pub plugin_name : Text
plugin_name = codes "chronicle.sharifmshaker.github.io"

-- DeniedPaths
unfoldable pub denied_paths : List Text
denied_paths =
    codes "spec.plugins"
    ∷ codes "spec.backup"
    ∷ codes "spec.externalClusters"
    ∷ codes "spec.bootstrap"
    ∷ codes "spec.replica"
    ∷ codes "metadata.name"
    ∷ codes "metadata.namespace"
    ∷ codes "metadata.uid"
    ∷ codes "metadata.resourceVersion"
    ∷ codes "metadata.generation"
    ∷ codes "metadata.creationTimestamp"
    ∷ codes "metadata.deletionTimestamp"
    ∷ codes "metadata.ownerReferences"
    ∷ codes "metadata.managedFields"
    ∷ codes "metadata.selfLink"
    ∷ codes "metadata.finalizers"
    ∷ codes "status"
    ∷ []

unfoldable pub denied_metadata_domains : List Text
denied_metadata_domains = codes "cnpg.io" ∷ plugin_name ∷ []

unfoldable pub denied_metadata_keys : List Text
denied_metadata_keys = codes "kubectl.kubernetes.io/last-applied-configuration" ∷ []

-- ApplyDenylist, over the paths that are left.
unfoldable pub delete_each : List Text → Fields → Fields
delete_each [] object = object
delete_each (path ∷ rest) object = delete_each rest (delete object path)

unfoldable pub apply_denylist : Fields → Fields
apply_denylist object = delete_each denied_paths object

-- A path, or one beneath it.
unfoldable pub covers : Text → Text → Bool
covers denied path = text_eq path denied || has_prefix path (denied ++ codes ".")

-- IsDeniedPath
unfoldable pub is_denied_path : Text → Bool
is_denied_path path = any (λ (denied : Text). covers denied path) denied_paths

-- IsDeniedMetadataKey: the key's domain, which ends at the first slash, or a domain above it.
unfoldable pub is_denied_domain : Text → Bool
is_denied_domain domain =
    any (λ (denied : Text). text_eq domain denied || has_suffix domain (codes "." ++ denied))
      denied_metadata_domains

unfoldable pub is_denied_metadata_key : Text → Bool
is_denied_metadata_key key =
    if contains denied_metadata_keys key
    then true
    else elim (cut_at b'/' key) [ none ↦ false | some (domain, _) ↦ is_denied_domain domain ]

-- FilterMetadata. A nil map and an empty one are both the empty list.
abbrev pub StringMap : Type 0
StringMap = List (Text × Text)

unfoldable pub filter_metadata : StringMap → StringMap
filter_metadata entries = keep (λ (e : Text × Text). not (is_denied_metadata_key e.0)) entries

-- FilterGUCs: the loop, and the nil result where nothing survives.
unfoldable pub keep_free : List Text → Fields → Fields
keep_free fixed end = end
keep_free fixed (field key value rest) =
    let kept = keep_free fixed rest in if contains fixed key then kept else field key value kept

unfoldable pub filter_gucs : List Text → Fields → Option Fields
filter_gucs fixed parameters =
    let out = keep_free fixed parameters in if is_empty out then none else some out

-- managedLibraries: the libraries of every managed extension.
unfoldable pub managed_libraries : List (List Text) → List Text
managed_libraries extensions = flatten extensions

-- FilterSharedPreloadLibraries: what is not a string is kept.
unfoldable pub is_managed : List Text → Value → Bool
is_managed libraries library = elim (as_string library) [
  | none ↦ false
  | some name ↦ contains libraries name
]

unfoldable pub keep_unmanaged : List Text → Items → Items
keep_unmanaged libraries nil = nil
keep_unmanaged libraries (cons library rest) =
    let kept = keep_unmanaged libraries rest in
    if is_managed libraries library then kept else cons library kept

abbrev pub some_unless_nil : Items → Option Items
some_unless_nil nil = none
some_unless_nil (cons x xs) = some (cons x xs)

unfoldable pub filter_shared_preload_libraries : List (List Text) → Items → Option Items
filter_shared_preload_libraries extensions libraries =
    some_unless_nil (keep_unmanaged (managed_libraries extensions) libraries)
