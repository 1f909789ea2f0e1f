-- ===== src/Tests/Choices.antt =====
-- Skip rules and the choice of a snapshot.
use cnpg_i_chronicle.Common.{ℕ, ◌≡◌, ◌↔◌, true, false, List, [], ◌∷◌, Text, codes}
use cnpg_i_chronicle.Store.Refs.{SnapshotRef, sort_refs}
use cnpg_i_chronicle.Restore.Select.{at_or_before, last_at_generation}
use cnpg_i_chronicle.Restore.Select.Generation.{GenerationAnswered, sort_refs-last_at_generation}
use cnpg_i_chronicle.Restore.Select.Newest.{Answered, sort_refs-at_or_before}
use cnpg_i_chronicle.Restore.Skip.{CompiledSkip, matches}
use cnpg_i_chronicle.Restore.Skip.Match.{Within, matches_iff}

abbrev rule : CompiledSkip
rule = record {
  path = codes "metadata.annotations";
  exact = false;
  keyed = true;
  key_prefix = codes "team/";
  except = codes "team/owner" ∷ [];
  reason = codes "rule";
}

matches_iff_example :
    (matches rule (codes "metadata.annotations.team/cost") ≡ true)
    ↔ Within rule (codes "metadata.annotations.team/cost")
matches_iff_example = matches_iff rule (codes "metadata.annotations.team/cost")

abbrev ref_at : Text → ℕ → SnapshotRef
ref_at key captured_at = record { key = key; captured_at = captured_at; generation = 1 }

abbrev refs : List SnapshotRef
refs = ref_at (codes "c") 30 ∷ ref_at (codes "a") 10 ∷ ref_at (codes "b") 20 ∷ []

sort_refs-at_or_before_example : Answered 26 refs (at_or_before 26 (sort_refs refs))
sort_refs-at_or_before_example = sort_refs-at_or_before 26 refs

sort_refs-last_at_generation_example :
    GenerationAnswered 1 refs (last_at_generation 1 (sort_refs refs))
sort_refs-last_at_generation_example = sort_refs-last_at_generation 1 refs
