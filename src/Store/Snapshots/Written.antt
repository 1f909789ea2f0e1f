-- ===== src/Store/Snapshots/Written.antt =====
-- What the store (internal/store/snapshots.go) gives back of what was written to it.
use cnpg_i_chronicle.Common.{
  ℕ, ◌≡◌, refl, inl, inr, true, false, Option, none, some, arith, Text, text_eq, text_eq_refl,
  text_eq_iff, is_nil, Result, ok, err, ◌>>=◌, >>=-eq-ok, Option-cases,
}
use cnpg_i_chronicle.Snapshot.Types.{Content, Snapshot, Encoding, Postgres, digest, checksum}
use cnpg_i_chronicle.Json.{Fields}
use cnpg_i_chronicle.Snapshot.Types
use cnpg_i_chronicle.Cluster.{Cluster}
use cnpg_i_chronicle.Snapshot.Extract.{
  ExtractOptions, ExtractError, capture_content, enabled_groups, extract_cluster, extract,
  extract_from, sealed, snapshot_of,
}
use cnpg_i_chronicle.Store.Layout.{TimeFormat, Layout, latest_key}
use cnpg_i_chronicle.Store.Snapshots.{
  StoreError, Backend, SnapshotCodec, verify, decode_snapshot, key_of, write_latest, write, latest,
}

module _ (encoding : Encoding) where
  -- What decodeSnapshot checks of a document.
  pub record Sealed (snap : Snapshot) : Type 0 where
    pub same_kind : snap.kind ≡ Types.kind
    pub same_version : snap.api_version ≡ Types.api_version
    pub summed : checksum encoding snap.content ≡ some snap.checksum

  checksum-nonempty :
      (content : Content) (sum : Text) → checksum encoding content ≡ some sum → is_nil sum ≡ false
  unfolding checksum digest
  checksum-nonempty content sum h = elim (Option-cases (Types.canonical encoding content)) [
    | inl e ↦ ground arith
    | inr (t, e) ↦ ground arith
  ]

  same_text : (s t : Text) → s ≡ t → text_eq s t ≡ true
  same_text s t e = (text_eq_iff s t).1 e

  verify-Sealed :
      (codec : SnapshotCodec) (key : Text) (snap : Snapshot)
      → Sealed snap
      → verify encoding codec key snap ≡ ok snap
  unfolding verify
  verify-Sealed codec key snap h = rw (
    same_text snap.kind Types.kind h.same_kind,
    same_text snap.api_version Types.api_version h.same_version,
    checksum-nonempty snap.content snap.checksum h.summed,
    h.summed,
    text_eq_refl snap.checksum,
  )

  extract_step :
      (postgres : Postgres) (clock : ℕ) (cluster : Cluster) (options : ExtractOptions)
      (content : Content) (snap : Snapshot) (sum : Option Text)
      → checksum encoding content ≡ sum
      → sealed encoding postgres clock cluster options content sum ≡ ok snap
      → Sealed snap
  unfolding sealed
  extract_step postgres clock cluster options content snap none e h = absurd (ground arith)
  extract_step postgres clock cluster options content snap (some sum) e h = record {
    same_kind = unfold snapshot_of in ground arith;
    same_version = unfold snapshot_of in ground arith;
    summed = unfold snapshot_of in ground arith;
  }

  -- A snapshot that Extract returns passes the checks of a document that is read.
  pub extract-Sealed :
      (postgres : Postgres) (clock : ℕ) (cluster : Option Cluster) (options : ExtractOptions)
      (snap : Snapshot)
      → extract encoding postgres clock cluster options ≡ ok snap
      → Sealed snap
  extract-Sealed postgres clock none options snap h = absurd (unfold extract in ground arith)
  extract-Sealed postgres clock (some cluster) options snap h =
      from cluster.to_map refl (unfold extract extract_cluster in h)
    where
      from :
          (source : Option Fields)
          → cluster.to_map ≡ source
          → extract_from encoding postgres clock cluster options source ≡ ok snap
          → Sealed snap
      from none e k = absurd (unfold extract_from in ground arith)
      from (some source) e k =
          let after : Content → Result ExtractError Snapshot = λ content.
            sealed encoding postgres clock cluster options content (checksum encoding content) in
          let (content, _, f) =
            >>=-eq-ok (capture_content postgres cluster source (enabled_groups options)) after
              {result = snap} (unfold extract_from in k) in
          extract_step postgres clock cluster options content snap (checksum encoding content) refl
            f

  module _ (codec : SnapshotCodec) {S : Type 0} (backend : Backend S) (time : TimeFormat)
      (layout : Layout) where
    latest_step :
        (s : S) (snap : Snapshot) (raw : Text)
        → Sealed snap
        → codec.decode raw ≡ some snap
        → backend.get s (latest_key layout) ≡ ok raw
        → latest encoding codec backend time layout s
          ≡ ok (snap, key_of encoding codec backend time layout snap)
    unfolding latest decode_snapshot
    latest_step s snap raw h d g =
        rw (latest, g, decode_snapshot, d, verify-Sealed codec (latest_key layout) snap h)

    from_put :
        (own key : Text) (s' : S) (t : S) (raw : Text) (r : S × Result StoreError (Unit {0}))
        → backend.put t (latest_key layout) raw ≡ r
        → ◌≡◌ {A = S × Result StoreError Text} (r.0, (r.1 >>= λ _. ok own)) (s', ok key)
        → (key ≡ own) × (t : S) × (backend.put t (latest_key layout) raw ≡ (s', ok tt))
    from_put own key s' t raw (u, err x) e k = absurd (ground arith)
    from_put own key s' t raw (u, ok _) e k = (ground arith, t, ground arith)

    write_step :
        (s s' : S) (snap : Snapshot) (raw key : Text)
        → codec.encode snap ≡ some raw
        → write encoding codec backend time layout s snap ≡ (s', ok key)
        → (key ≡ key_of encoding codec backend time layout snap)
          × (t : S) × (backend.put t (latest_key layout) raw ≡ (s', ok tt))
    unfolding write
    write_step s s' snap raw key e h =
        from (backend.put s (key_of encoding codec backend time layout snap) raw) (ground arith)
      where
        from :
            (r : S × Result StoreError (Unit {0}))
            → write_latest encoding codec backend time layout
                (key_of encoding codec backend time layout snap)
                raw
                r
              ≡ (s', ok key)
            → (key ≡ key_of encoding codec backend time layout snap)
              × (t : S) × (backend.put t (latest_key layout) raw ≡ (s', ok tt))
        from (t, err x) k = absurd (unfold write_latest in ground arith)
        from (t, ok _) k =
            from_put (key_of encoding codec backend time layout snap) key s' t raw
              (backend.put t (latest_key layout) raw) refl (unfold write_latest in k)

    -- Once Extract's snapshot is written without an error, Latest returns it and the key that Write
    -- returned. The store is assumed to give back this snapshot's encoding where a put of it under a
    -- key succeeded, and the decoder to read that encoding back.
    pub write-latest :
        (postgres : Postgres) (clock : ℕ) (cluster : Option Cluster) (options : ExtractOptions)
        (snap : Snapshot) (s s' : S) (key : Text)
        → ((t t' : S) (k raw : Text)
            → codec.encode snap ≡ some raw
            → backend.put t k raw ≡ (t', ok tt)
            → backend.get t' k ≡ ok raw)
        → ((raw : Text) → codec.encode snap ≡ some raw → codec.decode raw ≡ some snap)
        → extract encoding postgres clock cluster options ≡ ok snap
        → write encoding codec backend time layout s snap ≡ (s', ok key)
        → latest encoding codec backend time layout s' ≡ ok (snap, key)
    write-latest postgres clock cluster options snap s s' key kept round extracted h =
        from (codec.encode snap) refl
      where
        from :
            (o : Option Text)
            → codec.encode snap ≡ o
            → latest encoding codec backend time layout s' ≡ ok (snap, key)
        from none e = absurd (unfold write in ground arith)
        from (some raw) e =
            let (own, t, put) = write_step s s' snap raw key e h in
            rw own (
              latest_step s' snap raw (extract-Sealed postgres clock cluster options snap extracted)
                (round raw e) (kept t s' (latest_key layout) raw e put))
