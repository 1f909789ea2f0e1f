-- ===== src/Store/Refs.antt =====
-- SnapshotRef of internal/store/snapshots.go, and the order of a listing.
use cnpg_i_chronicle.Common.{ℕ, Bool, List, if◌then◌else◌, ltb, ◌==◌, Text, text_lt, not}
use cnpg_i_chronicle.Common.Sort.{sort_by}

pub record SnapshotRef : Type 0 where
  pub key : Text
  pub captured_at : ℕ
  pub generation : ℕ

-- sortRefs
unfoldable pub ref_less : SnapshotRef → SnapshotRef → Bool
ref_less a b =
    if not (a.captured_at == b.captured_at)
    then ltb a.captured_at b.captured_at
    else if not (a.generation == b.generation)
    then ltb a.generation b.generation
    else text_lt a.key b.key

unfoldable pub sort_refs : List SnapshotRef → List SnapshotRef
sort_refs refs = sort_by ref_less refs
