-- ===== src/Operator/Hooks/Saves.antt =====
-- What the Post hook (internal/cnpgi/operator/reconciler.go) leaves in the store and in the cache.
use cnpg_i_chronicle.Common.{
  ℕ, ◌≡◌, refl, sym, subst, ◌⊎◌, inl, inr, true, ◌&&◌, and_true, Option, some, arith, Text, text_eq,
  text_eq_iff, Result, ok, err, Bool-cases, Option-cases,
}
use cnpg_i_chronicle.Api.{ConfigStore}
use cnpg_i_chronicle.Cluster.{Cluster}
use cnpg_i_chronicle.Snapshot.Types.{Snapshot, Encoding, Postgres}
use cnpg_i_chronicle.Snapshot.Extract.{ExtractError, extract}
use cnpg_i_chronicle.Store.Layout.{TimeFormat, Layout}
use cnpg_i_chronicle.Store.Snapshots
use cnpg_i_chronicle.Store.Snapshots.{
  StoreError, is_not_found, not_found, Backend, SnapshotCodec, write,
}
use cnpg_i_chronicle.Store.Resolver.{ReadError, ResolveError, Provider, open_store}
use cnpg_i_chronicle.Operator.Config.{new_from_cluster}
use cnpg_i_chronicle.Operator.Settled.{Entries, settled, remember}
use cnpg_i_chronicle.Operator.Settled.Trust.{settled-remember}
use cnpg_i_chronicle.Operator.Hooks.{
  ClusterStatus, HookResult, continue_behavior, HookError, capture_options, watermark_of,
  up_to_date, post_written, post_write, post_latest, post_opened, post_captured, post_fingerprinted,
}

module _ (encoding : Encoding) (postgres : Postgres) (codec : SnapshotCodec) (time : TimeFormat)
    (decode_status : Text → Option ClusterStatus)
    (get_config_store : Text → Text → Result ReadError ConfigStore) {S : Type 0}
    (provider : Provider S) (clock : ℕ) (version : Text) where
  abbrev Answer : Type 0
  Answer = S × Option Entries × Result HookError HookResult

  abbrev latest_of : Backend S → Layout → S → Result StoreError (Snapshot × Text)
  latest_of backend layout s = Snapshots.latest encoding codec backend time layout s

  abbrev write_to : Backend S → Layout → S → Snapshot → S × Result StoreError Text
  write_to backend layout s snap = write encoding codec backend time layout s snap

  -- The newest snapshot in the store is the capture, or says the same.
  abbrev pub Same : Snapshot → Snapshot → Type 0
  Same newest snap = (newest.checksum ≡ snap.checksum) × (newest.capture_rules ≡ snap.capture_rules)

  -- How a Post that captured went, where it reported success.
  pub record Saved (backend : Backend S) (layout : Layout) (s : S) (cache : Option Entries)
      (cluster : Cluster) (fingerprint : Text) (snap : Snapshot) (s' : S) (cache' : Option Entries)
      (result : HookResult) : Type 0 where
    pub key : Text
    pub continued : result ≡ continue_behavior
    pub remembered : cache' ≡ remember cache cluster fingerprint key
    pub how :
        ((newest : Snapshot) × (s' ≡ s)
          × (latest_of backend layout s ≡ ok (newest, key))
          × Same newest snap)
        ⊎ (write_to backend layout s snap ≡ (s', ok key))

  module _ (backend : Backend S) (layout : Layout) (s : S) (cache : Option Entries)
      (cluster : Cluster) (fingerprint : Text) (snap : Snapshot) (s' : S) (cache' : Option Entries)
      (result : HookResult) where
    abbrev SavedHere : Type 0
    SavedHere = Saved backend layout s cache cluster fingerprint snap s' cache' result

    written-Saved :
        (r : S × Result StoreError Text)
        → write_to backend layout s snap ≡ r
        → post_written encoding postgres codec time decode_status get_config_store provider clock
            version cache cluster fingerprint r
          ≡ (s', cache', ok result)
        → SavedHere
    unfolding post_written
    written-Saved (t, err e) w h = absurd (ground arith)
    written-Saved (t, ok key) w h = record {
      key = key;
      continued = ground arith;
      remembered = ground arith;
      how = inr (ground arith);
    }

    write-Saved :
        post_write encoding postgres codec time decode_status get_config_store provider clock
            version s cache cluster fingerprint snap backend layout
          ≡ (s', cache', ok result)
        → SavedHere
    unfolding post_write
    write-Saved h = written-Saved (write_to backend layout s snap) refl h

    pub latest-Saved :
        (r : Result StoreError (Snapshot × Text))
        → latest_of backend layout s ≡ r
        → post_latest encoding postgres codec time decode_status get_config_store provider clock
            version s cache cluster fingerprint snap backend layout r
          ≡ (s', cache', ok result)
        → SavedHere
    unfolding post_latest
    latest-Saved (err e) l h = elim (Bool-cases (is_not_found e)) [
      | inl absent ↦ write-Saved (ground arith)
      | inr other ↦ absurd (ground arith)
    ]
    latest-Saved (ok (newest, key)) l h =
        elim (Bool-cases (
          text_eq newest.checksum snap.checksum
          && text_eq newest.capture_rules snap.capture_rules)) [
            | inr differ ↦ write-Saved (ground arith)
            | inl same ↦
                let (c, r) = and_true _ _ same in
                record {
                  key = key;
                  continued = ground arith;
                  remembered = ground arith;
                  how =
                      inl (newest, ground arith, l, ((text_eq_iff _ _).0 c, (text_eq_iff _ _).0 r));
                }
          ]

  -- A capture that reported success was opened, and saved.
  opened-Saved :
      (s : S) (cache : Option Entries) (cluster : Cluster) (fingerprint : Text) (snap : Snapshot)
      (s' : S) (cache' : Option Entries) (result : HookResult)
      (opened : Result ResolveError (Backend S × Layout))
      → post_opened encoding postgres codec time decode_status get_config_store provider clock
          version s cache cluster fingerprint snap opened
        ≡ (s', cache', ok result)
      → (backend : Backend S) × (layout : Layout) × (opened ≡ ok (backend, layout))
        × Saved backend layout s cache cluster fingerprint snap s' cache' result
  unfolding post_opened
  opened-Saved s cache cluster fingerprint snap s' cache' result (err e) h = absurd (ground arith)
  opened-Saved s cache cluster fingerprint snap s' cache' result (ok (backend, layout)) h = (
    backend,
    layout,
    refl,
    latest-Saved backend layout s cache cluster fingerprint snap s' cache' result
        (latest_of backend layout s) refl h,
  )

  captured-remember :
      (s : S) (cache : Option Entries) (cluster : Cluster) (store : ConfigStore)
      (fingerprint : Text) (s' : S) (cache' : Option Entries) (result : HookResult)
      (captured : Result ExtractError Snapshot)
      → post_captured encoding postgres codec time decode_status get_config_store provider clock
          version s cache cluster store fingerprint captured
        ≡ (s', cache', ok result)
      → (key : Text) × (cache' ≡ remember cache cluster fingerprint key)
  unfolding post_captured
  captured-remember s cache cluster store fingerprint s' cache' result (err e) h =
      absurd (ground arith)
  captured-remember s cache cluster store fingerprint s' cache' result (ok snap) h =
      let (_, _, _, saved) =
        opened-Saved s cache cluster fingerprint snap s' cache' result
          (open_store provider store (new_from_cluster cluster).save_to_server) h in
      (saved.key, saved.remembered)

  -- The state of the Cluster is one that a fast path of Post recognizes.
  abbrev pub IsSettled : Option Entries → Cluster → Text → Type 0
  IsSettled cache cluster fingerprint =
      (up_to_date cluster fingerprint (
          watermark_of encoding postgres codec time decode_status get_config_store provider cluster)
        ≡ true)
      ⊎ ((key : Text) × (settled cache cluster fingerprint ≡ some key))

  abbrev fingerprinted : S → Option Entries → Cluster → ConfigStore → Option Text → Answer
  fingerprinted =
      post_fingerprinted encoding postgres codec time decode_status get_config_store provider clock
        version

  pub fingerprinted-IsSettled :
      (s : S) (entries : Entries) (cluster : Cluster) (store : ConfigStore) (fingerprint : Text)
      (s' : S) (cache' : Option Entries) (result : HookResult)
      → fingerprinted s (some entries) cluster store (some fingerprint) ≡ (s', cache', ok result)
      → IsSettled cache' cluster fingerprint
  unfolding post_fingerprinted
  fingerprinted-IsSettled s entries cluster store fingerprint s' cache' result h =
      elim (Bool-cases (
        up_to_date cluster fingerprint (
          watermark_of encoding postgres codec time decode_status get_config_store provider
            cluster))) [
              | inl current ↦ inl current
              | inr stale ↦ elim (Option-cases (settled (some entries) cluster fingerprint)) [
                | inr (key, e) ↦ inr (key, ground arith)
                | inl e ↦
                    let (key, r) =
                      captured-remember s (some entries) cluster store fingerprint s' cache' result
                        (extract encoding postgres clock (some cluster) (
                          capture_options encoding postgres codec time decode_status
                            get_config_store provider clock version store))
                        (ground arith) in
                    inr (
                      key,
                      subst (λ c. settled c cluster fingerprint ≡ some key) (sym r)
                          (settled-remember entries cluster fingerprint key),
                    )
              ]
            ]
