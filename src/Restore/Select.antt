-- ===== src/Restore/Select.antt =====
-- internal/restore/select.go: one snapshot out of a history.
pub mod Newest
pub mod Generation
pub mod Source
use cnpg_i_chronicle.Common.{
  ℕ, Bool, true, false, Option, none, some, List, [], ◌∷◌, if◌then◌else◌, ltb, ◌==◌, Text, Result,
  ok, err, ◌>>=◌, ◌>>◌, refuse, wrap, is_nil, bind_option, length,
}
use cnpg_i_chronicle.Json.{Fields}
use cnpg_i_chronicle.Api.{
  SelectMode, unset_mode, latest, at_generation, at_timestamp, align_with_recovery_target,
  other_mode, UnresolvableAction, unset_action, fail_unresolvable, use_latest, RestorePolicy,
  get_on_unresolvable,
}
use cnpg_i_chronicle.Snapshot.Types.{Snapshot}
use cnpg_i_chronicle.Store.Refs.{SnapshotRef}
use cnpg_i_chronicle.Restore.RecoveryTarget.{
  TargetKind, target_none, target_time, backup_name, backup_id, approximate, unresolvable, Detail,
  TargetResolution, BackupLookup, resolve_recovery_target,
}

-- Selector, with the errors of the store
pub record Selector (E : Type 0) : Type 0 where
  pub list : Result E (List SnapshotRef)
  pub read : Text → Result E Snapshot
  pub latest : Result E (Snapshot × Text)

-- Alignment
pub record Alignment : Type 0 where
  pub cluster : Fields
  pub namespace : Text
  pub backups : Option BackupLookup

pub record Resolution : Type 0 where
  pub snapshot : Snapshot
  pub key : Text
  pub target : Option TargetResolution

pub data SelectError (E : Type 0) : Type 0 where
  from_store : E → SelectError E
  generation_unset timestamp_unset no_alignment no_snapshots : SelectError E
  unknown_mode bad_target_time : Text → SelectError E
  no_generation : ℕ → ℕ → SelectError E
  too_early : ℕ → ℕ → SelectError E
  unaligned : Detail → SelectError E
  aligning : Detail → SelectError E → SelectError E

-- The loop of selectByGeneration: the last ref at the generation.
unfoldable pub last_at_generation : ℕ → List SnapshotRef → Option SnapshotRef
last_at_generation generation [] = none
last_at_generation generation (ref ∷ rest) = elim (last_at_generation generation rest) [
  | some later ↦ some later
  | none ↦ if ref.generation == generation then some ref else none
]

-- The loop of SelectAtOrBefore: the last ref before the first that is after the moment.
unfoldable pub at_or_before : ℕ → List SnapshotRef → Option SnapshotRef
at_or_before moment [] = none
at_or_before moment (ref ∷ rest) =
    let later = at_or_before moment rest in
    if ltb moment ref.captured_at
    then none
    else elim later [ some found ↦ some found | none ↦ some ref ]

abbrev pub is_target_none : TargetKind → Bool
is_target_none target_none = true
is_target_none _ = false

abbrev pub is_use_latest : UnresolvableAction → Bool
is_use_latest use_latest = true
is_use_latest _ = false

module _ {E : Type 0} (source : Selector E) where
  abbrev pub read_ref : SnapshotRef → Result (SelectError E) Resolution
  read_ref ref = do
    snap ← wrap from_store (source.read ref.key)
    ok (record { snapshot = snap; key = ref.key; target = none })

  -- The newest snapshot, with the target that led to it
  unfoldable pub select_latest : Option TargetResolution → Result (SelectError E) Resolution
  select_latest target = do
    (snap, key) ← wrap from_store source.latest
    ok (record { snapshot = snap; key = key; target = target })

  -- selectByGeneration
  unfoldable pub select_by_generation : ℕ → Result (SelectError E) Resolution
  select_by_generation generation = do
    refs ← wrap from_store source.list
    elim (last_at_generation generation refs) [
      | none ↦ err (no_generation generation (length refs))
      | some chosen ↦ read_ref chosen
    ]

  abbrev pub earliest : List SnapshotRef → ℕ
  earliest [] = 0
  earliest (ref ∷ rest) = ref.captured_at

  -- SelectAtOrBefore
  unfoldable pub select_at_or_before : ℕ → Result (SelectError E) Resolution
  select_at_or_before moment = do
    refs ← wrap from_store source.list
    refuse (is_nil refs) no_snapshots
    elim (at_or_before moment refs) [
      | none ↦ err (too_early moment (earliest refs))
      | some chosen ↦ read_ref chosen
    ]

  -- The switch of selectAligned, on a target
  unfoldable pub select_for_target :
      Option RestorePolicy → TargetResolution → Result (SelectError E) Resolution
  select_for_target policy target = elim target.moment [
    | some moment ↦ do
      resolution ← wrap (aligning target.detail) (select_at_or_before moment)
      ok (record resolution { target = some target })
    | none ↦
        if is_target_none target.kind
        then select_latest (some target)
        else if is_use_latest (get_on_unresolvable policy)
        then select_latest (some target)
        else err (unaligned target.detail)
  ]

  module _ (parse_target_time : Text → Option ℕ) where
    -- selectAligned
    unfoldable pub select_aligned :
        Option RestorePolicy → Option Alignment → Result (SelectError E) Resolution
    select_aligned policy none = err no_alignment
    select_aligned policy (some alignment) = do
      target ← wrap bad_target_time (
          resolve_recovery_target parse_target_time alignment.namespace alignment.backups
            alignment.cluster)
      select_for_target policy target

    -- Select
    unfoldable pub select :
        SelectMode → Option RestorePolicy → Option Alignment → Result (SelectError E) Resolution
    select latest policy alignment = select_latest none
    select at_generation policy alignment =
        elim (bind_option policy (λ (p : RestorePolicy). p.select.generation)) [
          | none ↦ err generation_unset
          | some generation ↦ select_by_generation generation
        ]
    select at_timestamp policy alignment =
        elim (bind_option policy (λ (p : RestorePolicy). p.select.timestamp)) [
          | none ↦ err timestamp_unset
          | some moment ↦ select_at_or_before moment
        ]
    select align_with_recovery_target policy alignment = select_aligned policy alignment
    select unset_mode policy alignment = err (unknown_mode [])
    select (other_mode mode) policy alignment = err (unknown_mode mode)
