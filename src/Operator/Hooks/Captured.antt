-- ===== src/Operator/Hooks/Captured.antt =====
-- The Post hook (internal/cnpgi/operator/reconciler.go) on a Cluster that it has to capture: what the
-- store holds afterwards.
use cnpg_i_chronicle.Common.{
  ℕ, ◌≡◌, refl, sym, ◌∙◌, ◌⊎◌, inl, inr, true, false, ◌&&◌, Option, none, some, arith, Text, codes,
  text_eq, Result, ok, err, Bool-cases,
}
use cnpg_i_chronicle.Api.{ConfigStore}
use cnpg_i_chronicle.Cluster.{Cluster}
use cnpg_i_chronicle.Snapshot.Types.{Snapshot, Encoding, Postgres}
use cnpg_i_chronicle.Snapshot.Extract.{extract}
use cnpg_i_chronicle.Store.Layout.{TimeFormat, Layout, latest_key}
use cnpg_i_chronicle.Store.Snapshots
use cnpg_i_chronicle.Store.Snapshots.{
  StoreError, is_not_found, not_found, Backend, SnapshotCodec, key_of, write_latest, write,
}
use cnpg_i_chronicle.Store.Snapshots.Written.{write-latest}
use cnpg_i_chronicle.Store.Resolver.{ReadError, Provider, open_store}
use cnpg_i_chronicle.Operator.Config.{new_from_cluster, is_save_enabled}
use cnpg_i_chronicle.Operator.Settled.{Entries, settled, remember}
use cnpg_i_chronicle.Operator.Hooks.{
  ClusterStatus, HookRequest, HookResult, continue_behavior, HookError, capture_options,
  watermark_of, up_to_date, live_fingerprint, post_written, post_write, post_latest, post_opened,
  post_captured, post_fingerprinted, post_stored, post_cluster, post,
}
use cnpg_i_chronicle.Operator.Hooks.Saves.{Same, latest-Saved}

module _ (encoding : Encoding) (postgres : Postgres) (codec : SnapshotCodec) (time : TimeFormat)
    (decode_status : Text → Option ClusterStatus)
    (get_config_store : Text → Text → Result ReadError ConfigStore) {S : Type 0}
    (provider : Provider S) (clock : ℕ) (version : Text) where
  abbrev Answer : Type 0
  Answer = S × Option Entries × Result HookError HookResult

  abbrev pub posts : S → Option Entries → HookRequest → Answer
  posts = post encoding postgres codec time decode_status get_config_store provider clock version

  abbrev pub newest_in : Backend S → Layout → S → Result StoreError (Snapshot × Text)
  newest_in backend layout s = Snapshots.latest encoding codec backend time layout s

  abbrev pub SameCapture : Snapshot → Snapshot → Type 0
  SameCapture =
      Same encoding postgres codec time decode_status get_config_store provider clock version

  abbrev latest_step :
      S
      → Option Entries
      → Cluster
      → Text
      → Snapshot
      → Backend S
      → Layout
      → Result StoreError (Snapshot × Text)
      → Answer
  latest_step =
      post_latest encoding postgres codec time decode_status get_config_store provider clock version

  module _ (s : S) (cache : Option Entries) (request : HookRequest) (cluster : Cluster)
      (store : ConfigStore) (fingerprint : Text) (snap : Snapshot) (backend : Backend S)
      (layout : Layout) (is_cluster : request.kind ≡ some (codes "Cluster"))
      (of_cluster : request.cluster ≡ some cluster)
      (saving : is_save_enabled (new_from_cluster cluster) ≡ true)
      (stored : get_config_store cluster.namespace (new_from_cluster cluster).save_to_store
        ≡ ok store)
      (live : live_fingerprint encoding postgres cluster store.capture_groups ≡ some fingerprint)
      (stale : up_to_date cluster fingerprint (
          watermark_of encoding postgres codec time decode_status get_config_store provider cluster)
        ≡ false)
      (unsettled : settled cache cluster fingerprint ≡ none)
      (captured : extract encoding postgres clock (some cluster) (
          capture_options encoding postgres codec time decode_status get_config_store provider clock
            version store)
        ≡ ok snap)
      (opened : open_store provider store (new_from_cluster cluster).save_to_server
        ≡ ok (backend, layout)) where
    post_step :
        posts s cache request
        ≡ latest_step s cache cluster fingerprint snap backend layout (newest_in backend layout s)
    unfolding post post_cluster post_stored post_fingerprinted post_captured post_opened text_eq
    post_step =
        rw (is_cluster, of_cluster, saving, stored, live, stale, unsettled, captured, opened)

    module _
        (kept : (t t' : S) (k raw : Text)
          → codec.encode snap ≡ some raw
          → backend.put t k raw ≡ (t', ok tt)
          → backend.get t' k ≡ ok raw)
        (round : (raw : Text) → codec.encode snap ≡ some raw → codec.decode raw ≡ some snap) where
      -- Post is asked to save a Cluster whose ConfigStore is read, that neither fast path
      -- recognizes, that Extract captures, and whose store opens. If it then reports success, it
      -- answers "continue", and the newest snapshot in the store has the checksum and the capture
      -- rules of the capture. The store is assumed to give back the capture's encoding where a put of
      -- it under a key succeeded, and the decoder to read that encoding back.
      pub post_saves :
          (s' : S) (cache' : Option Entries) (result : HookResult)
          → posts s cache request ≡ (s', cache', ok result)
          → (result ≡ continue_behavior)
            × (newest : Snapshot) × (key : Text) × (newest_in backend layout s' ≡ ok (newest, key))
            × SameCapture newest snap
      post_saves s' cache' result h =
          let saved =
            latest-Saved encoding postgres codec time decode_status get_config_store provider clock
              version backend layout s cache cluster fingerprint snap s' cache' result
              (newest_in backend layout s) refl (sym post_step ∙ h) in
          let (newest, key, l, same) = from saved.key saved.how in
          (saved.continued, newest, key, l, same)
        where
          from :
              (key : Text)
              → ((newest : Snapshot) × (s' ≡ s)
                  × (newest_in backend layout s ≡ ok (newest, key))
                  × SameCapture newest snap)
                ⊎ (write encoding codec backend time layout s snap ≡ (s', ok key))
              → (newest : Snapshot) × (key : Text) × (newest_in backend layout s'
                  ≡ ok (newest, key))
                × SameCapture newest snap
          from key (inl (newest, e, l, same)) = (newest, key, rw e l, same)
          from key (inr w) = (
            snap,
            key,
            write-latest encoding codec backend time layout postgres clock (some cluster)
                (capture_options encoding postgres codec time decode_status get_config_store
                  provider clock version store)
                snap s s' key kept round captured w,
            (refl, refl),
          )

      write_latest_step :
          (own raw : Text) (t t' : S)
          → backend.put t (latest_key layout) raw ≡ (t', ok tt)
          → write_latest encoding codec backend time layout own raw (t, ok tt) ≡ (t', ok own)
      unfolding write_latest
      write_latest_step own raw t t' q = rw (write_latest, q)

      write_step :
          (raw : Text) (t t' : S)
          → codec.encode snap ≡ some raw
          → backend.put s (key_of encoding codec backend time layout snap) raw ≡ (t, ok tt)
          → backend.put t (latest_key layout) raw ≡ (t', ok tt)
          → write encoding codec backend time layout s snap
            ≡ (t', ok (key_of encoding codec backend time layout snap))
      unfolding write
      write_step raw t t' e p q =
          rw (write, e, p)
            (write_latest_step (key_of encoding codec backend time layout snap) raw t t' q)

      -- The puts that a write makes go through.
      write-done :
          (raw : Text)
          → codec.encode snap ≡ some raw
          → ((t : S) (k v : Text) → (t' : S) × (backend.put t k v ≡ (t', ok tt)))
          → (s' : S) × (key : Text) × (write encoding codec backend time layout s snap
              ≡ (s', ok key))
      write-done raw e puts =
          let own = key_of encoding codec backend time layout snap in
          let (t, p) = puts s own raw in
          let (t', q) = puts t (latest_key layout) raw in (t', own, write_step raw t t' e p q)

      write-continues :
          (raw : Text)
          → codec.encode snap ≡ some raw
          → ((t : S) (k v : Text) → (t' : S) × (backend.put t k v ≡ (t', ok tt)))
          → (s' : S) × (cache' : Option Entries) × (post_write encoding postgres codec time
                decode_status get_config_store provider clock version s cache cluster fingerprint
                snap backend layout
              ≡ (s', cache', ok continue_behavior))
      unfolding post_write post_written
      write-continues raw e puts =
          let (s', key, w) = write-done raw e puts in
          (s', remember cache cluster fingerprint key, rw w)

      latest-continues :
          (raw : Text) (r : Result StoreError (Snapshot × Text))
          → codec.encode snap ≡ some raw
          → ((t : S) (k v : Text) → (t' : S) × (backend.put t k v ≡ (t', ok tt)))
          → ((found : Snapshot × Text) × (r ≡ ok found)) ⊎ (r ≡ err not_found)
          → (s' : S) × (cache' : Option Entries) × (latest_step s cache cluster fingerprint snap
                backend layout r
              ≡ (s', cache', ok continue_behavior))
      unfolding post_latest
      latest-continues raw (err e) encoded puts (inl (found, l)) = absurd (ground arith)
      latest-continues raw (err e) encoded puts (inr l) =
          let (s', cache', w) = write-continues raw encoded puts in
          let absent : e ≡ not_found = ground arith in (s', cache', rw absent w)
      latest-continues raw (ok (newest, key)) encoded puts l =
          elim (Bool-cases (
            text_eq newest.checksum snap.checksum
            && text_eq newest.capture_rules snap.capture_rules)) [
              | inl same ↦ (s, remember cache cluster fingerprint key, rw same)
              | inr differ ↦
                  let (s', cache', w) = write-continues raw encoded puts in
                  (s', cache', rw differ w)
            ]

      -- Post is asked to save a Cluster whose ConfigStore is read, that neither fast path
      -- recognizes, that Extract captures, and whose store opens. The store is one whose newest
      -- snapshot is read or absent, where every put goes through and one of the capture's encoding is
      -- given back, and the capture is encoded and decoded. Then Post does answer "continue", and the newest
      -- snapshot in the store has the checksum and the capture rules of the capture.
      pub post_succeeds :
          (raw : Text)
          → codec.encode snap ≡ some raw
          → ((t : S) (k v : Text) → (t' : S) × (backend.put t k v ≡ (t', ok tt)))
          → ((found : Snapshot × Text) × (newest_in backend layout s ≡ ok found))
            ⊎ (newest_in backend layout s ≡ err not_found)
          → (s' : S) × (cache' : Option Entries) × (posts s cache request
              ≡ (s', cache', ok continue_behavior))
            × (newest : Snapshot) × (key : Text) × (newest_in backend layout s' ≡ ok (newest, key))
            × SameCapture newest snap
      post_succeeds raw encoded puts l =
          let (s', cache', w) = latest-continues raw (newest_in backend layout s) encoded puts l in
          let (_, newest, key, found, same) =
            post_saves s' cache' continue_behavior (post_step ∙ w) in
          (s', cache', post_step ∙ w, newest, key, found, same)
