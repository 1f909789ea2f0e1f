-- ===== src/Tests/Stores.antt =====
-- The retention of three snapshots.
use cnpg_i_chronicle.Common.{
  ℕ, ◌≡◌, refl, true, List, [], ◌∷◌, ltb, Text, codes, text_eq, text_lt, Elem, here, arith,
}
use cnpg_i_chronicle.Common.Sort.{insert_sorted, sort_by}
use cnpg_i_chronicle.Store.Refs.{SnapshotRef}
use cnpg_i_chronicle.Store.Retention.{
  key_less, before_cutoff, take_keys, superseded, plan_retention,
}
use cnpg_i_chronicle.Store.Retention.Kept.{
  surviving, plan_retention-at_or_before, plan_retention-before,
}
use cnpg_i_chronicle.Restore.Select.{at_or_before}

program : Unit {0}
unfolding text_eq text_lt insert_sorted sort_by before_cutoff take_keys superseded plan_retention
program = tt

abbrev ref_at : Text → ℕ → SnapshotRef
ref_at key captured_at = record { key = key; captured_at = captured_at; generation = 1 }

abbrev refs : List SnapshotRef
refs = ref_at (codes "c") 30 ∷ ref_at (codes "a") 10 ∷ ref_at (codes "b") 20 ∷ []

plan_retention-at_or_before_example :
    at_or_before 26 (surviving (plan_retention refs 25) (sort_by key_less refs))
    ≡ at_or_before 26 (sort_by key_less refs)
unfolding program
plan_retention-at_or_before_example =
    plan_retention-at_or_before refs 25 26 ((refl, (refl, tt)), ((refl, tt), (tt, tt)))
      (omega arith)

plan_retention-before_example :
    (r : SnapshotRef) × Elem r refs × (codes "a" ≡ r.key) × (ltb r.captured_at 25 ≡ true)
unfolding program
plan_retention-before_example = plan_retention-before refs 25 (codes "a") (here refl)
