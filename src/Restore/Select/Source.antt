-- ===== src/Restore/Select/Source.antt =====
-- Where the snapshot that internal/restore/select.go chooses comes from: the store's Read or Latest.
use cnpg_i_chronicle.Common.{
  ℕ, ◌≡◌, refl, subst, ◌⊎◌, inl, inr, Option, none, some, arith, Text, Result, ok, err, ◌>>=◌,
  >>=-eq-ok, wrap, wrap-eq-ok, refuse, is_nil, bind_option, Bool-cases,
}
use cnpg_i_chronicle.Api.{
  SelectMode, unset_mode, latest, at_generation, at_timestamp, align_with_recovery_target,
  other_mode, RestorePolicy, get_on_unresolvable,
}
use cnpg_i_chronicle.Snapshot.Types.{Snapshot}
use cnpg_i_chronicle.Store.Refs.{SnapshotRef}
use cnpg_i_chronicle.Restore.RecoveryTarget.{TargetResolution, resolve_recovery_target}
use cnpg_i_chronicle.Restore.Select.{
  Selector, Alignment, Resolution, SelectError, from_store, no_snapshots, bad_target_time, aligning,
  last_at_generation, at_or_before, is_target_none, is_use_latest, read_ref, select_latest,
  select_by_generation, select_at_or_before, select_for_target, select_aligned, select,
  generation_unset, timestamp_unset,
}

module _ {E : Type 0} (source : Selector E) where
  -- The store gave this snapshot.
  abbrev pub FromSource : Snapshot → Type 0
  FromSource snap =
      ((key : Text) × (source.read key ≡ ok snap))
      ⊎ ((key : Text) × (source.latest ≡ ok (snap, key)))

  read_ref-FromSource :
      (ref : SnapshotRef) (r : Resolution) → read_ref source ref ≡ ok r → FromSource r.snapshot
  read_ref-FromSource ref r h =
      let (snap, e, f) = >>=-eq-ok (wrap from_store (source.read ref.key)) _ h in
      inl (ref.key, ground (arith, wrap-eq-ok from_store (source.read ref.key) e))

  select_latest-FromSource :
      (target : Option TargetResolution) (r : Resolution)
      → select_latest source target ≡ ok r
      → FromSource r.snapshot
  unfolding select_latest
  select_latest-FromSource target r h =
      let (pair, e, f) = >>=-eq-ok (wrap from_store source.latest) _ h in
      inr (pair.1, ground (arith, wrap-eq-ok from_store source.latest e))

  -- A ref that a loop may have chosen is read.
  chosen-FromSource :
      (chosen : Option SnapshotRef) (failure : SelectError E) (r : Resolution)
      → ◌≡◌ {A = Result (SelectError E) Resolution}
          (elim chosen [ none ↦ err failure | some ref ↦ read_ref source ref ])
          (ok r)
      → FromSource r.snapshot
  chosen-FromSource none failure r h = cc
  chosen-FromSource (some ref) failure r h = read_ref-FromSource ref r h

  by_generation-FromSource :
      (generation : ℕ) (r : Resolution)
      → select_by_generation source generation ≡ ok r
      → FromSource r.snapshot
  unfolding select_by_generation
  by_generation-FromSource generation r h =
      let (refs, e, f) = >>=-eq-ok (wrap from_store source.list) _ h in
      chosen-FromSource (last_at_generation generation refs) _ r f

  at_or_before-FromSource :
      (moment : ℕ) (r : Resolution)
      → select_at_or_before source moment ≡ ok r
      → FromSource r.snapshot
  unfolding select_at_or_before
  at_or_before-FromSource moment r h =
      let (refs, e, f) = >>=-eq-ok (wrap from_store source.list) _ h in
      let (_, _, g) = >>=-eq-ok (refuse (is_nil refs) no_snapshots) _ f in
      chosen-FromSource (at_or_before moment refs) _ r g

  timed-FromSource :
      (target : TargetResolution) (moment : ℕ) (r : Resolution)
      → (wrap (aligning target.detail) (select_at_or_before source moment)
          >>= λ (resolution : Resolution). ok (record resolution { target = some target }))
        ≡ ok r
      → FromSource r.snapshot
  timed-FromSource target moment r h =
      let (found, e, f) =
        >>=-eq-ok (wrap (aligning target.detail) (select_at_or_before source moment)) _ h in
      subst (λ (snap : Snapshot). FromSource snap) (ground arith)
        (at_or_before-FromSource moment found
          (wrap-eq-ok (aligning target.detail) (select_at_or_before source moment) e))

  for_target-FromSource :
      (policy : Option RestorePolicy) (target : TargetResolution) (r : Resolution)
      → select_for_target source policy target ≡ ok r
      → FromSource r.snapshot
  unfolding select_for_target
  for_target-FromSource policy target r h = from target.moment refl
    where
      from : (moment : Option ℕ) → target.moment ≡ moment → FromSource r.snapshot
      from none e = elim (Bool-cases (is_target_none target.kind)) [
        | inl none_set ↦ select_latest-FromSource (some target) r (ground arith)
        | inr other ↦ elim (Bool-cases (is_use_latest (get_on_unresolvable policy))) [
          | inl newest ↦ select_latest-FromSource (some target) r (ground arith)
          | inr failing ↦ absurd (ground arith)
        ]
      ]
      from (some moment) e = timed-FromSource target moment r (ground arith)

  module _ (parse_target_time : Text → Option ℕ) where
    aligned-FromSource :
        (policy : Option RestorePolicy) (alignment : Option Alignment) (r : Resolution)
        → select_aligned source parse_target_time policy alignment ≡ ok r
        → FromSource r.snapshot
    unfolding select_aligned
    aligned-FromSource policy none r h = cc
    aligned-FromSource policy (some alignment) r h =
        let (target, e, f) =
          >>=-eq-ok
            (wrap bad_target_time (
              resolve_recovery_target parse_target_time alignment.namespace alignment.backups
                alignment.cluster))
            _ h in
        for_target-FromSource policy target r f

    -- In every mode, the snapshot that is selected is one that the store's Read or Latest returned.
    pub select-FromSource :
        (mode : SelectMode) (policy : Option RestorePolicy) (alignment : Option Alignment)
        (r : Resolution)
        → select source parse_target_time mode policy alignment ≡ ok r
        → FromSource r.snapshot
    unfolding select
    select-FromSource latest policy alignment r h = select_latest-FromSource none r h
    select-FromSource at_generation policy alignment r h =
        from (bind_option policy (λ (p : RestorePolicy). p.select.generation)) h
      where
        from :
            (o : Option ℕ)
            → ◌≡◌ {A = Result (SelectError E) Resolution}
                (elim o [ none ↦ err generation_unset | some g ↦ select_by_generation source g ])
                (ok r)
            → FromSource r.snapshot
        from none k = cc
        from (some g) k = by_generation-FromSource g r k
    select-FromSource at_timestamp policy alignment r h =
        from (bind_option policy (λ (p : RestorePolicy). p.select.timestamp)) h
      where
        from :
            (o : Option ℕ)
            → ◌≡◌ {A = Result (SelectError E) Resolution}
                (elim o [ none ↦ err timestamp_unset | some t ↦ select_at_or_before source t ])
                (ok r)
            → FromSource r.snapshot
        from none k = cc
        from (some t) k = at_or_before-FromSource t r k
    select-FromSource align_with_recovery_target policy alignment r h =
        aligned-FromSource policy alignment r h
    select-FromSource unset_mode policy alignment r h = cc
    select-FromSource (other_mode mode) policy alignment r h = cc
