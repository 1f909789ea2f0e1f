-- ===== src/Api.antt =====
-- api/v1: the parts of RestorePolicy and ConfigStore that the plugin's logic reads, and their
-- methods. A pointer that may be nil is an Option, and an empty string is "unset" where the code
-- reads it so. Other strings than the CRD's enumerations are `other`.
pub mod Window
use cnpg_i_chronicle.Common.{ℕ, Bool, Option, none, some, List, if◌then◌else◌, Text, codes, is_nil}

pub data SelectMode : Type 0 where
  unset_mode latest at_generation at_timestamp align_with_recovery_target : SelectMode
  other_mode : Text → SelectMode

pub data UnresolvableAction : Type 0 where
  unset_action fail_unresolvable use_latest : UnresolvableAction

pub data MissingAction : Type 0 where
  unset_missing fail_missing ignore_missing : MissingAction

pub record RestoreSelect : Type 0 where
  pub mode : SelectMode
  pub generation : Option ℕ
  pub timestamp : Option ℕ
  pub on_unresolvable : UnresolvableAction

pub record SkipRule : Type 0 where
  pub group : Text
  pub path : Text
  pub key_prefix : Text
  pub except : List Text

pub record TransformRule : Type 0 where
  pub path : Text
  pub on_missing : MissingAction
  pub expression : Text

-- A RestorePolicy's name and spec.
pub record RestorePolicy : Type 0 where
  pub name : Text
  pub select : RestoreSelect
  pub skip : List SkipRule
  pub transform : List TransformRule

-- GetMode, on a policy that may be nil
unfoldable pub get_mode : Option RestorePolicy → SelectMode
get_mode none = unset_mode
get_mode (some policy) = policy.select.mode

-- ResolveMode
unfoldable pub default_mode : Bool → SelectMode
default_mode bootstraps_from_recovery =
    if bootstraps_from_recovery then align_with_recovery_target else latest

unfoldable pub resolve_mode : Option RestorePolicy → Bool → SelectMode
resolve_mode policy bootstraps_from_recovery = elim (get_mode policy) [
  | unset_mode ↦ default_mode bootstraps_from_recovery
  | latest ↦ latest
  | at_generation ↦ at_generation
  | at_timestamp ↦ at_timestamp
  | align_with_recovery_target ↦ align_with_recovery_target
  | other_mode text ↦ other_mode text
]

-- GetOnUnresolvable
abbrev pub or_fail : UnresolvableAction → UnresolvableAction
or_fail unset_action = fail_unresolvable
or_fail fail_unresolvable = fail_unresolvable
or_fail use_latest = use_latest

unfoldable pub get_on_unresolvable : Option RestorePolicy → UnresolvableAction
get_on_unresolvable none = fail_unresolvable
get_on_unresolvable (some policy) = or_fail policy.select.on_unresolvable

-- A key of a Secret (machinery's SecretKeySelector).
pub record SecretKeySelector : Type 0 where
  pub name : Text
  pub key : Text

-- objectstore_config.go
pub record S3Credentials : Type 0 where
  pub access_key_id : Option SecretKeySelector
  pub secret_access_key : Option SecretKeySelector
  pub region : Option SecretKeySelector
  pub session_token : Option SecretKeySelector
  pub inherit_from_iam_role : Bool

pub record ObjectStoreConfiguration : Type 0 where
  pub destination_path : Text
  pub endpoint_url : Text
  pub endpoint_ca : Option SecretKeySelector
  pub s3_credentials : Option S3Credentials

-- A ConfigStore's name and spec; `derived_from` is the name of an ObjectStore.
pub record ConfigStore : Type 0 where
  pub name : Text
  pub namespace : Text
  pub derived_from : Option Text
  pub configuration : Option ObjectStoreConfiguration
  pub retention : Text
  pub capture_groups : List Text
  pub prefix : Text

-- GetPrefix, with DefaultPrefix
unfoldable pub get_prefix : ConfigStore → Text
get_prefix store = if is_nil store.prefix then codes "chronicle" else store.prefix

-- GetRetention
abbrev pub retention_forever : Text
retention_forever = codes "Forever"

abbrev pub retention_inherit : Text
retention_inherit = codes "InheritFromObjectStore"

unfoldable pub get_retention : ConfigStore → Text
get_retention store = if is_nil store.retention then retention_forever else store.retention
