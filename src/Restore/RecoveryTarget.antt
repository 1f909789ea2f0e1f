-- ===== src/Restore/RecoveryTarget.antt =====
-- internal/restore/recoverytarget.go: a Cluster's recovery target, reduced to a moment. The parser
-- of target times, which is CloudNativePG's, and the lookup of Backup resources are arguments.
use cnpg_i_chronicle.Common.{
  ℕ, Option, none, some, List, [], ◌∷◌, ◌++◌, if◌then◌else◌, Text, codes, text_eq, is_nil, is_some,
  Result, ok, err, ◌>>=◌, bind_option, not, ◌&&◌,
}
use cnpg_i_chronicle.Json.{Fields, as_map, as_string}
use cnpg_i_chronicle.PathUtil.{get}

pub data TargetKind : Type 0 where
  target_none target_time backup_name backup_id approximate unresolvable : TargetKind

-- What Detail says, with the values that it names.
pub data Detail : Type 0 where
  not_recovering no_recovery_configuration end_of_archive : Detail
  at_target_time : ℕ → Detail
  lookup_unavailable : Text → Detail
  no_such_backup : Text → Text → Detail
  from_backup_id : Text → Detail
  anchored : Text → Text → Detail
  opaque_target : Text → Detail
  from_backup : Text → Detail
  not_stopped : Detail → Detail
  stopped_at : Detail → ℕ → Detail

-- TargetResolution: `moment` is `none` where HasMoment is false.
pub record TargetResolution : Type 0 where
  pub kind : TargetKind
  pub moment : Option ℕ
  pub detail : Detail

-- The status of a Backup resource.
pub record Backup : Type 0 where
  pub backup_id : Text
  pub backup_name : Text
  pub stopped_at : Option ℕ

-- BackupLookup: in a namespace, by name and by backup id.
pub record BackupLookup : Type 0 where
  pub by_name : Text → Text → Result Text Backup
  pub by_backup_id : Text → Text → Result Text Backup

-- The scan of KubeBackupLookup.ByBackupID, over the Backups of a namespace (backuplookup.go).
unfoldable pub find_backup : Text → List Backup → Option Backup
find_backup id [] = none
find_backup id (backup ∷ rest) =
    if text_eq backup.backup_id id
    then some backup
    else if not (is_nil backup.backup_name) && text_eq backup.backup_name id
    then some backup
    else find_backup id rest

abbrev pub target_path : Text
target_path = codes "spec.bootstrap.recovery.recoveryTarget."

-- opaqueTargets
unfoldable pub opaque_targets : List Text
opaque_targets =
    codes "targetXID" ∷ codes "targetLSN" ∷ codes "targetName" ∷ codes "targetImmediate" ∷ []

-- opaqueTargetIn, over the targets that are left
unfoldable pub first_present : Fields → List Text → Option Text
first_present cluster [] = none
first_present cluster (name ∷ rest) =
    if is_some (get cluster (target_path ++ name)) then some name else first_present cluster rest

unfoldable pub opaque_target_in : Fields → Option Text
opaque_target_in cluster = first_present cluster opaque_targets

-- stringAt
abbrev pub unless_empty : Text → Option Text
unless_empty [] = none
unless_empty (c ∷ s) = some (c ∷ s)

unfoldable pub string_at : Fields → Text → Option Text
string_at object path =
    bind_option (get object path) (λ v. bind_option (as_string v) (λ s. unless_empty s))

abbrev pub without_moment : TargetKind → Detail → TargetResolution
without_moment kind detail = record { kind = kind; moment = none; detail = detail }

-- resolutionFromBackup
unfoldable pub resolution_from_backup : TargetKind → Backup → Detail → TargetResolution
resolution_from_backup kind backup detail = elim backup.stopped_at [
  | none ↦ without_moment unresolvable (not_stopped detail)
  | some moment ↦ record { kind = kind; moment = some moment; detail = stopped_at detail moment }
]

module _ (parse_target_time : Text → Option ℕ) (namespace : Text)
    (backups : Option BackupLookup) where
  -- The branch of an explicit instant; the error is a time that does not parse.
  unfoldable pub resolve_time : Text → Result Text TargetResolution
  resolve_time raw = elim (parse_target_time raw) [
    | none ↦ err raw
    | some moment ↦
        ok (record { kind = target_time; moment = some moment; detail = at_target_time moment })
  ]

  -- The branch of a backup id, with the opaque target beside it
  unfoldable pub resolve_backup_id : Text → Option Text → TargetResolution
  resolve_backup_id id opaque = elim backups [
    | none ↦ without_moment unresolvable (lookup_unavailable id)
    | some lookup ↦ elim (lookup.by_backup_id namespace id) [
      | err _ ↦ without_moment unresolvable (no_such_backup namespace id)
      | ok backup ↦ elim opaque [
        | none ↦ resolution_from_backup backup_id backup (from_backup_id id)
        | some name ↦ resolution_from_backup approximate backup (anchored name id)
      ]
    ]
  ]

  -- The branch of a named Backup
  unfoldable pub resolve_backup_name : Text → TargetResolution
  resolve_backup_name name = elim backups [
    | none ↦ without_moment unresolvable (lookup_unavailable name)
    | some lookup ↦ elim (lookup.by_name namespace name) [
      | err _ ↦ without_moment unresolvable (no_such_backup namespace name)
      | ok backup ↦ resolution_from_backup backup_name backup (from_backup name)
    ]
  ]

  -- What follows the explicit instant: a backup id, an opaque target, a named Backup, or nothing.
  unfoldable pub resolve_untimed : Fields → TargetResolution
  resolve_untimed cluster = elim (string_at cluster (target_path ++ codes "backupID")) [
    | some id ↦ resolve_backup_id id (opaque_target_in cluster)
    | none ↦ elim (opaque_target_in cluster) [
      | some name ↦ without_moment unresolvable (opaque_target name)
      | none ↦ elim (string_at cluster (codes "spec.bootstrap.recovery.backup.name")) [
        | some name ↦ resolve_backup_name name
        | none ↦ without_moment target_none end_of_archive
      ]
    ]
  ]

  -- ResolveRecoveryTarget
  unfoldable pub resolve_recovery_target : Fields → Result Text TargetResolution
  resolve_recovery_target cluster = elim (get cluster (codes "spec.bootstrap.recovery")) [
    | none ↦ ok (without_moment target_none not_recovering)
    | some recovery ↦ elim (as_map recovery) [
      | none ↦ ok (without_moment target_none no_recovery_configuration)
      | some _ ↦ elim (string_at cluster (target_path ++ codes "targetTime")) [
        | some raw ↦ resolve_time raw
        | none ↦ ok (resolve_untimed cluster)
      ]
    ]
  ]

module _ (get_backup : Text → Text → Result Text Backup)
    (list_backups : Text → Result Text (List Backup)) where
  -- KubeBackupLookup.ByBackupID
  unfoldable pub by_backup_id : Text → Text → Result Text Backup
  by_backup_id namespace id = do
    backups ← list_backups namespace
    elim (find_backup id backups) [ none ↦ err id | some backup ↦ ok backup ]

  -- KubeBackupLookup, over the reads of the Kubernetes client
  abbrev pub kube_backup_lookup : BackupLookup
  kube_backup_lookup = record { by_name = get_backup; by_backup_id = by_backup_id }
