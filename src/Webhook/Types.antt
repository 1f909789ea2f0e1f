-- ===== src/Webhook/Types.antt =====
-- The records of internal/webhook/cluster_mutate.go, its answers, and what it calls of Kubernetes
-- and of encoding/json.
use cnpg_i_chronicle.Common.{ℕ, Option, List, Text, Result}
use cnpg_i_chronicle.Json.{Fields}
use cnpg_i_chronicle.Api.{RestorePolicy, ConfigStore}
use cnpg_i_chronicle.Store.Snapshots.{StoreError}
use cnpg_i_chronicle.Store.Resolver.{ReadError, ResolveError}
use cnpg_i_chronicle.Restore.Plan.{RuleError, PlanError}
use cnpg_i_chronicle.Restore.RecoveryTarget.{Backup, Detail}
use cnpg_i_chronicle.Restore.Select.{SelectError}
use cnpg_i_chronicle.Operator.Config.{ConfigError}

-- RestoreRecord; an AlignedWith that is empty is `none`.
pub record RestoreRecord : Type 0 where
  pub store : Text
  pub policy : Text
  pub server_name : Text
  pub snapshot_key : Text
  pub generation : ℕ
  pub captured_at : ℕ
  pub restored_at : ℕ
  pub changed : ℕ
  pub skipped : ℕ
  pub aligned_with : Option Detail
  pub transformed : List Text

-- The part of an admission request that Handle reads: the object as bytes, and its namespace.
pub record Request : Type 0 where
  pub raw : Text
  pub namespace : Text

pub data AllowedReason : Type 0 where
  not_configured no_restore already_restored : AllowedReason

-- Why a Cluster is refused, with what the message names.
pub data Refusal : Type 0 where
  invalid : ConfigError → Refusal
  interleaved : Text → Text → Refusal
  no_store no_policy : Text → ReadError → Refusal
  unusable : Text → RuleError → Refusal
  unopened : Text → ResolveError → Refusal
  unselected : Text → Text → SelectError StoreError → Refusal
  unplanned : PlanError → Refusal
  changes_nothing : Text → ℕ → Text → Refusal
  blocked : Text → Refusal
  unrecorded unannotated unencoded : Refusal

-- admission.Response: Allowed, Denied, Errored with 400, and PatchResponseFromRaw of two texts.
pub data Response : Type 0 where
  allowed : AllowedReason → Response
  denied : Refusal → Response
  bad_request : Response
  patch : Text → Text → Response

-- The reads of the Kubernetes client, each by namespace and name; `list_backups` is by namespace.
pub record Reader : Type 0 where
  pub get_config_store : Text → Text → Result ReadError ConfigStore
  pub get_restore_policy : Text → Text → Result ReadError RestorePolicy
  pub get_backup : Text → Text → Result Text Backup
  pub list_backups : Text → Result Text (List Backup)

-- encoding/json on the Cluster (pathutil.FromJSON and json.Marshal), and on the record.
pub record ClusterCodec : Type 0 where
  pub decode : Text → Option Fields
  pub encode : Fields → Option Text
  pub encode_record : RestoreRecord → Option Text
