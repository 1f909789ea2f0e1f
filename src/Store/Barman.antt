-- ===== src/Store/Barman.antt =====
-- internal/store/barman.go: the reader of barman-cloud ObjectStores, with its cache. A call holds the
-- mutex while it looks up and while it stores, so these are steps of their own. The Kubernetes read,
-- unstructured's nested fields, encoding/json and the clock's readings are arguments.
pub mod Fresh
use cnpg_i_chronicle.Common.{
  ℕ, ◌+◌, Bool, true, false, not, ◌&&◌, Option, none, some, List, [], ◌∷◌, if◌then◌else◌, ltb, ◌==◌,
  Text, codes, text_eq, is_nil, is_some, Result, ok, err, ◌>>=◌, ◌>>◌, wrap, refuse,
}
use cnpg_i_chronicle.Json
use cnpg_i_chronicle.Json.{Fields}
use cnpg_i_chronicle.Api.{ObjectStoreConfiguration}
use cnpg_i_chronicle.Store.Resolver.{
  ReadError, missing, no_match, unreadable, DerivedObjectStore, DeriveError, unreadable_field,
  no_configuration, unencodable, undecodable, no_destination_path, unsupported_provider,
  ResolveError, crd_absent, unread, underivable,
}

-- DefaultObjectStoreTTL, in nanoseconds
abbrev pub default_object_store_ttl : ℕ
default_object_store_ttl = 10000000000

-- cacheEntry
pub record CacheEntry : Type 0 where
  pub derived : DerivedObjectStore
  pub expires_at : ℕ

-- The map of entries, by namespace and name.
abbrev pub Cache : Type 0
Cache = List ((Text × Text) × CacheEntry)

abbrev pub same_key : Text × Text → Text × Text → Bool
same_key a b = text_eq a.0 b.0 && text_eq a.1 b.1

unfoldable pub cached : Text × Text → Cache → Option CacheEntry
cached key [] = none
cached key (entry ∷ rest) = if same_key entry.0 key then some entry.1 else cached key rest

unfoldable pub put_entry : Text × Text → CacheEntry → Cache → Cache
put_entry key new [] = (key, new) ∷ []
put_entry key new (entry ∷ rest) =
    let changed = put_entry key new rest in
    if same_key entry.0 key then (key, new) ∷ rest else entry ∷ changed

-- The lifetime that NewObjectStoreReader sets; a negative one is 0 here.
unfoldable pub effective_ttl : ℕ → ℕ
effective_ttl ttl = if ttl == 0 then default_object_store_ttl else ttl

-- lookup, at a moment
unfoldable pub lookup : ℕ → Text × Text → Cache → Option DerivedObjectStore
lookup now key cache = elim (cached key cache) [
  | none ↦ none
  | some entry ↦ if ltb entry.expires_at now then none else some entry.derived
]

-- store, at a moment
unfoldable pub store : ℕ → ℕ → Text × Text → DerivedObjectStore → Cache → Cache
store ttl now key derived cache =
    put_entry key (record { derived = derived; expires_at = now + ttl }) cache

-- The loop of deriveConfiguration: the providers that are not supported
abbrev pub unsupported_field : Fields → Option Text
unsupported_field raw =
    if is_some (Json.lookup (codes "azureCredentials") raw)
    then some (codes "Azure Blob Storage")
    else if is_some (Json.lookup (codes "googleCredentials") raw)
    then some (codes "Google Cloud Storage")
    else none

module _ (encode : Fields → Option Text) (decode : Text → Option ObjectStoreConfiguration) where
  -- json.Marshal of the map and json.Unmarshal into the narrow type
  unfoldable pub narrowed : Fields → Result DeriveError ObjectStoreConfiguration
  narrowed raw = elim (encode raw) [
    | none ↦ err unencodable
    | some encoded ↦ elim (decode encoded) [
      | none ↦ err undecodable
      | some configuration ↦ ok configuration
    ]
  ]

  -- deriveConfiguration
  unfoldable pub derive_configuration : Fields → Result DeriveError ObjectStoreConfiguration
  derive_configuration raw = elim (unsupported_field raw) [
    | some provider ↦ err (unsupported_provider provider)
    | none ↦ do
      configuration ← narrowed raw
      refuse (is_nil configuration.destination_path) no_destination_path
      ok configuration
  ]

  module _ (nested_map : Fields → List Text → Result Text (Option Fields))
      (nested_string : Fields → List Text → Result Text (Option Text)) where
    abbrev pub text_or_empty : Option Text → Text
    text_or_empty none = []
    text_or_empty (some s) = s

    abbrev pub found_map : Option Fields → Result DeriveError Fields
    found_map none = err no_configuration
    found_map (some raw) = ok raw

    -- GetConfiguration, on the object that was read
    unfoldable pub derived_of : Fields → Result DeriveError DerivedObjectStore
    derived_of object = do
      found ← wrap unreadable_field (nested_map object (codes "spec" ∷ codes "configuration" ∷ []))
      raw ← found_map found
      configuration ← derive_configuration raw
      retention ←
          wrap unreadable_field (nested_string object (codes "spec" ∷ codes "retentionPolicy" ∷ []))
      ok (record { configuration = configuration; retention_policy = text_or_empty retention })

    -- GetConfiguration, on what the read returned
    unfoldable pub read_configuration :
        Result ReadError Fields → Result ResolveError DerivedObjectStore
    read_configuration (err no_match) = err crd_absent
    read_configuration (err missing) = err (unread missing)
    read_configuration (err (unreadable e)) = err (unread (unreadable e))
    read_configuration (ok object) = wrap underivable (derived_of object)

    abbrev pub store_if_ok :
        ℕ
        → ℕ
        → Text × Text
        → Cache
        → Result ResolveError DerivedObjectStore
        → Cache × Result ResolveError DerivedObjectStore
    store_if_ok ttl later key cache (err e) = (cache, err e)
    store_if_ok ttl later key cache (ok derived) = (store ttl later key derived cache, ok derived)

    -- GetConfiguration: looked up at one moment, and stored at a later one.
    unfoldable pub get_configuration :
        (Text × Text → Result ReadError Fields)
        → ℕ
        → ℕ
        → ℕ
        → Text × Text
        → Cache
        → Cache × Result ResolveError DerivedObjectStore
    get_configuration get ttl now later key cache = elim (lookup now key cache) [
      | some derived ↦ (cache, ok derived)
      | none ↦ store_if_ok ttl later key cache (read_configuration (get key))
    ]
