-- ===== src/Tests/Filtered.antt =====
-- The filters over a few entries.
use cnpg_i_chronicle.Common.{◌≡◌, ◌↔◌, none, [], ◌∷◌, if◌then◌else◌, codes, contains, Elem}
use cnpg_i_chronicle.Json
use cnpg_i_chronicle.Json.{Value, string, Fields, end, field}
use cnpg_i_chronicle.Snapshot.Denylist.{StringMap, filter_metadata, filter_gucs}
use cnpg_i_chronicle.Snapshot.Denylist.Filters.{filtered_lookup, lookup-filter_gucs}
use cnpg_i_chronicle.Snapshot.Denylist.Keys.{RefusedKey, filter_metadata_iff}

abbrev parameters : Fields
parameters =
    field (codes "port") (string (codes "5432"))
      (field (codes "work_mem") (string (codes "4MB")) end)

lookup-filter_gucs_example :
    filtered_lookup (codes "work_mem") (filter_gucs (codes "port" ∷ []) parameters) ≡ (
      if contains (codes "port" ∷ []) (codes "work_mem")
      then none
      else Json.lookup (codes "work_mem") parameters)
lookup-filter_gucs_example = lookup-filter_gucs (codes "port" ∷ []) parameters (codes "work_mem")

abbrev labels : StringMap
labels = (codes "app", codes "x") ∷ (codes "cnpg.io/cluster", codes "a") ∷ []

filter_metadata_iff_example :
    Elem (codes "cnpg.io/cluster", codes "a") (filter_metadata labels)
    ↔ Elem (codes "cnpg.io/cluster", codes "a") labels × (¬ (RefusedKey (codes "cnpg.io/cluster")))
filter_metadata_iff_example = filter_metadata_iff (codes "cnpg.io/cluster", codes "a") labels
