-- ===== src/Tests/Sweeps.antt =====
-- A sweep of three snapshots, and retention windows within an int64 and beyond it.
use cnpg_i_chronicle.Common.{
  ℕ, ◌-◌, ◌*◌, ◌≡◌, refl, sym, ◌∙◌, ap, inl, inr, false, none, some, List, [], ◌∷◌, ◌++◌, arith,
  if◌then◌else◌, map, Text, codes, text_eq, text_eq_iff, text_lt, cut_at, cut_prefix, Result, ok,
  err, Bool-cases,
}
use cnpg_i_chronicle.Common.Sort.{insert_sorted, sort_by}
use cnpg_i_chronicle.Api.{ConfigStore, get_prefix}
use cnpg_i_chronicle.Api.Window.{
  day, split_last, positive_count, unit_days, duration_of, parse_retention_window, negated,
  add_duration,
}
use cnpg_i_chronicle.Api.Window.Exact.{parse_retention_window-exact}
use cnpg_i_chronicle.Store.Layout.{
  TimeFormat, trim_left, trim, kept_segments, join_slashes, join_key, root, snapshots_prefix,
  take_class, match_key, base_name, number_from, parse_snapshot_key,
}
use cnpg_i_chronicle.Store.Refs.{SnapshotRef, ref_less, sort_refs}
use cnpg_i_chronicle.Store.Retention.{before_cutoff, take_keys, superseded, plan_retention}
use cnpg_i_chronicle.Store.Snapshots.{StoreError, not_found, Backend, refs_of, list_refs}
use cnpg_i_chronicle.Store.Resolver.{layout_for}
use cnpg_i_chronicle.Restore.Select.{at_or_before}
use cnpg_i_chronicle.Controller.Retention.{delete_keys, prune_superseded}
use cnpg_i_chronicle.Controller.Retention.Swept.{prune_superseded-get}
use cnpg_i_chronicle.Tests.Captures.{encoding, codec, Objects, objects, get_object}
use cnpg_i_chronicle.Tests.Admission.{resolved}

program : Unit {0}
unfolding text_eq text_lt cut_at cut_prefix insert_sorted sort_by get_prefix trim_left trim
    kept_segments join_slashes join_key root snapshots_prefix take_class match_key base_name
    number_from parse_snapshot_key ref_less sort_refs before_cutoff take_keys superseded
    plan_retention refs_of list_refs layout_for at_or_before delete_keys prune_superseded split_last
    positive_count unit_days duration_of parse_retention_window negated add_duration
program = tt

abbrev remove_object : Objects → Text → Objects
remove_object [] key = []
remove_object (entry ∷ rest) key =
    let removed = remove_object rest key in if text_eq entry.0 key then removed else entry ∷ removed

abbrev keys_of : Objects → List Text
keys_of s = map (λ (entry : Text × Text). entry.0) s

abbrev backend : Backend Objects
backend = record objects {
  list = λ s prefix. ok (keys_of s);
  delete = λ s key. (remove_object s key, ok tt);
}

get-remove_object :
    (s : Objects) (k j : Text)
    → text_eq k j ≡ false
    → get_object (remove_object s k) j ≡ get_object s j
get-remove_object [] k j h = refl
get-remove_object (entry ∷ rest) k j h = elim (Bool-cases (text_eq entry.0 k)) [
  | inl e ↦
      rw (e, get-remove_object rest k j h, ap (λ x. text_eq x j) ((text_eq_iff entry.0 k).0 e) ∙ h)
  | inr e ↦ rw (e, get-remove_object rest k j h)
]

apart :
    (t t' : Objects) (k j : Text) (r : Result StoreError (Unit {0}))
    → backend.delete t k ≡ (t', r)
    → text_eq k j ≡ false
    → backend.get t' j ≡ backend.get t j
apart t t' k j r d h =
    sym (ap (λ (p : Objects × Result StoreError (Unit {0})). get_object p.0 j) d)
    ∙ get-remove_object t k j h

abbrev time : TimeFormat
time = record {
  format = λ t. [];
  parse = λ t.
      if text_eq t (codes "20260101T000000Z")
      then some 10
      else if text_eq t (codes "20260102T000000Z")
      then some 20
      else some 30;
}

abbrev key_on : Text → Text
key_on name =
    codes "backups/a/chronicle/snapshots/" ++ (name ++ codes "T000000Z-g0000000001-01234567.json")

abbrev stored : Objects
stored =
    (key_on (codes "20260101"), codes "x")
    ∷ (key_on (codes "20260102"), codes "y")
    ∷ (key_on (codes "20260103"), codes "z")
    ∷ []

abbrev ref_on : Text → ℕ → SnapshotRef
ref_on name captured_at = record { key = key_on name; captured_at = captured_at; generation = 1 }

abbrev refs : List SnapshotRef
refs =
    ref_on (codes "20260101") 10 ∷ ref_on (codes "20260102") 20 ∷ ref_on (codes "20260103") 30 ∷ []

abbrev store : ConfigStore
store = record {
  name = codes "s";
  namespace = codes "n";
  derived_from = none;
  configuration = none;
  retention = codes "30d";
  capture_groups = [];
  prefix = [];
}

prune_superseded-get_example :
    backend.get
      (prune_superseded encoding codec time stored backend store resolved (codes "a") 25)
      (key_on (codes "20260102"))
    ≡ backend.get stored (key_on (codes "20260102"))
unfolding program
prune_superseded-get_example =
    prune_superseded-get backend apart encoding codec time stored store resolved (codes "a") 25 refs
      26 (ref_on (codes "20260102") 20) refl ((refl, (refl, tt)), ((refl, tt), (tt, tt)))
      (omega arith) refl

first_is_deleted :
    backend.get
      (prune_superseded encoding codec time stored backend store resolved (codes "a") 25)
      (key_on (codes "20260101"))
    ≡ err not_found
unfolding program
first_is_deleted = refl

parse_retention_window-exact_example :
    (parse_retention_window (codes "30d") ≡ ok (30 * 1 * day))
    × (add_duration 9000000000000000 (negated (30 * 1 * day)) ≡ 9000000000000000 - 30 * 1 * day)
unfolding program
parse_retention_window-exact_example =
    parse_retention_window-exact (codes "30") b'd' 1 9000000000000000 refl (omega arith) refl
      (omega arith)

-- 106752 days are past the largest Duration: the window is negative, and the cutoff lies ahead.
beyond_the_bound :
    (parse_retention_window (codes "106752d") ≡ ok 9223372800000000000)
    × (add_duration 5 (negated 9223372800000000000) ≡ 9223371273709551621)
unfolding program
beyond_the_bound = (refl, refl)
