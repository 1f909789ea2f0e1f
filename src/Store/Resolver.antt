-- ===== src/Store/Resolver.antt =====
-- internal/store/resolver.go: what a ConfigStore stands for. The reader of ObjectStore resources,
-- the reader of Secrets and the S3 client are arguments.
use cnpg_i_chronicle.Common.{
  Bool, ◌||◌, Option, none, some, List, [], ◌∷◌, ◌++◌, if◌then◌else◌, Text, codes, text_eq, is_nil,
  Result, ok, err, ◌>>=◌, wrap,
}
use cnpg_i_chronicle.Api.{
  SecretKeySelector, S3Credentials, ObjectStoreConfiguration, ConfigStore, get_prefix,
}
use cnpg_i_chronicle.Store.Layout.{Layout, Destination, DestinationError, parse_destination}
use cnpg_i_chronicle.Store.Snapshots.{Backend}

-- A Kubernetes read: IsNotFound, IsNoMatch, or another error.
pub data ReadError : Type 0 where
  missing no_match : ReadError
  unreadable : Text → ReadError

-- Resolved; its Provider is always "s3".
pub record Resolved : Type 0 where
  pub configuration : ObjectStoreConfiguration
  pub destination : Destination
  pub source : Text
  pub provider : Text
  pub inherited_retention : Text

-- DerivedObjectStore of barman.go
pub record DerivedObjectStore : Type 0 where
  pub configuration : ObjectStoreConfiguration
  pub retention_policy : Text

-- What fails in the reading of an ObjectStore's fields.
pub data DeriveError : Type 0 where
  unreadable_field : Text → DeriveError
  no_configuration unencodable undecodable no_destination_path : DeriveError
  unsupported_provider : Text → DeriveError

-- What fails in NewS3Backend.
pub data S3ClientError : Type 0 where
  no_bucket_name no_certificates : S3ClientError
  unloadable : Text → S3ClientError

-- What fails on the way to a backend. `crd_absent` is ObjectStoreCRDAbsentError, and `unread` any
-- other error of a read, not found included.
pub data ResolveError : Type 0 where
  crd_absent : ResolveError
  unread : ReadError → ResolveError
  underivable : DeriveError → ResolveError
  neither_set : Text → Text → ResolveError
  bad_destination : Text → Text → DestinationError → ResolveError
  not_supported_yet unsupported : Text → ResolveError
  no_credentials : ResolveError
  unreadable_secret : Text → ReadError → ResolveError
  no_secret_key : Text → Text → Text → ResolveError
  no_client : S3ClientError → ResolveError

-- S3Options of s3.go; a CA bundle that is not given is empty.
pub record S3Options : Type 0 where
  pub bucket : Text
  pub endpoint_url : Text
  pub access_key_id : Text
  pub secret_access_key : Text
  pub session_token : Text
  pub region : Text
  pub ca_bundle : Text
  pub inherit_from_iam_role : Bool

-- Provider: Resolver, or a stand-in for it.
pub record Provider (S : Type 0) : Type 0 where
  pub resolve : ConfigStore → Result ResolveError Resolved
  pub backend : Text → Resolved → Result ResolveError (Backend S)

-- LayoutFor
unfoldable pub layout_for : ConfigStore → Resolved → Text → Layout
layout_for store resolved server_name = record {
  base_path = resolved.destination.path;
  server_name = server_name;
  prefix = get_prefix store;
}

-- Open of snapshots.go
unfoldable pub open_store :
    {S : Type 0} → Provider S → ConfigStore → Text → Result ResolveError (Backend S × Layout)
open_store provider store server_name = do
  resolved ← provider.resolve store
  backend ← provider.backend store.namespace resolved
  ok (backend, layout_for store resolved server_name)

-- The end of Resolve, on the configuration that was found.
unfoldable pub resolve_configuration :
    ConfigStore → ObjectStoreConfiguration → Text → Text → Result ResolveError Resolved
resolve_configuration store configuration source inherited_retention = do
  destination ←
      wrap (bad_destination store.namespace store.name)
        (parse_destination configuration.destination_path)
  ok (record {
    configuration = configuration;
    destination = destination;
    source = source;
    provider = codes "s3";
    inherited_retention = inherited_retention;
  })

module _ (get_configuration : Text → Text → Result ResolveError DerivedObjectStore) where
  -- Resolve: derivedFrom comes first.
  unfoldable pub resolve : ConfigStore → Result ResolveError Resolved
  resolve store = elim store.derived_from [
    | some name ↦ do
      found ← get_configuration store.namespace name
      resolve_configuration store found.configuration (codes "ObjectStore/" ++ name)
          found.retention_policy
    | none ↦ elim store.configuration [
      | some configuration ↦ resolve_configuration store configuration (codes "Inline") []
      | none ↦ err (neither_set store.namespace store.name)
    ]
  ]

-- secret.Data[key]
unfoldable pub secret_entry : Text → List (Text × Text) → Option Text
secret_entry key [] = none
secret_entry key (entry ∷ rest) =
    if text_eq entry.0 key then some entry.1 else secret_entry key rest

module _ (get_secret : Text → Text → Result ReadError (List (Text × Text))) where
  -- secretValue of a selector that names a Secret
  unfoldable pub read_secret : Text → SecretKeySelector → Result ResolveError Text
  read_secret namespace selector = do
    secret ← wrap (unreadable_secret selector.name) (get_secret namespace selector.name)
    elim (secret_entry selector.key secret) [
      | none ↦ err (no_secret_key namespace selector.name selector.key)
      | some value ↦ ok value
    ]

  -- secretValue
  unfoldable pub secret_value : Text → Option SecretKeySelector → Result ResolveError Text
  secret_value namespace none = ok []
  secret_value namespace (some selector) =
      if is_nil selector.name then ok [] else read_secret namespace selector

  -- A key that is read only where no role is inherited.
  abbrev pub static_key : Text → S3Credentials → Option SecretKeySelector → Result ResolveError Text
  static_key namespace credentials selector =
      if credentials.inherit_from_iam_role then ok [] else secret_value namespace selector

  module _ {S : Type 0} (new_s3_backend : S3Options → Result ResolveError (Backend S)) where
    -- s3Backend, with credentials
    unfoldable pub s3_backend_with :
        Text → Resolved → S3Credentials → Result ResolveError (Backend S)
    s3_backend_with namespace resolved credentials = do
      access_key_id ← static_key namespace credentials credentials.access_key_id
      secret_access_key ← static_key namespace credentials credentials.secret_access_key
      session_token ← static_key namespace credentials credentials.session_token
      region ← secret_value namespace credentials.region
      ca_bundle ← elim resolved.configuration.endpoint_ca [
        | none ↦ ok []
        | some ca ↦ secret_value namespace (some ca)
      ]
      new_s3_backend (record {
        bucket = resolved.destination.bucket;
        endpoint_url = resolved.configuration.endpoint_url;
        access_key_id = access_key_id;
        secret_access_key = secret_access_key;
        session_token = session_token;
        region = region;
        ca_bundle = ca_bundle;
        inherit_from_iam_role = credentials.inherit_from_iam_role;
      })

    -- s3Backend
    unfoldable pub s3_backend : Text → Resolved → Result ResolveError (Backend S)
    s3_backend namespace resolved = elim resolved.configuration.s3_credentials [
      | none ↦ err no_credentials
      | some credentials ↦ s3_backend_with namespace resolved credentials
    ]

    -- Backend: the switch on the scheme
    unfoldable pub resolver_backend : Text → Resolved → Result ResolveError (Backend S)
    resolver_backend namespace resolved =
        let scheme = resolved.destination.scheme in
        if text_eq scheme (codes "s3")
        then s3_backend namespace resolved
        else if text_eq scheme (codes "azure") || text_eq scheme (codes "gs")
        then err (not_supported_yet scheme)
        else err (unsupported scheme)
