-- ===== src/Store/Retention.antt =====
-- internal/store/retention.go: which snapshots may be deleted.
pub mod Kept
use cnpg_i_chronicle.Common.{
  ℕ, zero, suc, ◌-◌, Bool, Option, none, some, List, [], ◌∷◌, if◌then◌else◌, ltb, Text, text_lt,
  length, map,
}
use cnpg_i_chronicle.Common.Sort.{sort_by}
use cnpg_i_chronicle.Store.Refs.{SnapshotRef}

abbrev pub key_less : SnapshotRef → SnapshotRef → Bool
key_less a b = text_lt a.key b.key

-- The loop that finds the anchor: how many refs lead the list that were captured before the cutoff.
-- The anchor is the last of these.
unfoldable pub before_cutoff : ℕ → List SnapshotRef → ℕ
before_cutoff cutoff [] = 0
before_cutoff cutoff (ref ∷ rest) =
    let more = before_cutoff cutoff rest in if ltb ref.captured_at cutoff then suc more else 0

-- ordered[:anchor], the keys of the first items
unfoldable pub take_keys : ℕ → List SnapshotRef → List Text
take_keys zero refs = []
take_keys (suc n) [] = []
take_keys (suc n) (ref ∷ rest) = ref.key ∷ take_keys n rest

-- With `n` refs before the cutoff the anchor is at n - 1, so `anchor < 1` is `n < 2`.
unfoldable pub superseded : ℕ → List SnapshotRef → List Text
superseded cutoff ordered =
    let n = before_cutoff cutoff ordered in if ltb n 2 then [] else take_keys (n - 1) ordered

-- PlanRetention
unfoldable pub plan_retention : List SnapshotRef → ℕ → List Text
plan_retention refs cutoff =
    if ltb (length refs) 2 then [] else superseded cutoff (sort_by key_less refs)
