-- ===== src/Store/Snapshots/Decoded.antt =====
-- Where a snapshot that the store (internal/store/snapshots.go) returns comes from.
use cnpg_i_chronicle.Common.{
  ◌≡◌, inl, inr, not, Option, none, some, arith, if◌then◌else◌, Text, text_eq, is_nil, Result, ok,
  err, ◌>>=◌, >>=-eq-ok, refuse, Option-cases, Bool-cases,
}
use cnpg_i_chronicle.Snapshot.Types
use cnpg_i_chronicle.Snapshot.Types.{Snapshot, Encoding, checksum}
use cnpg_i_chronicle.Store.Layout.{TimeFormat, Layout, latest_key}
use cnpg_i_chronicle.Store.Refs.{SnapshotRef}
use cnpg_i_chronicle.Store.Snapshots.{
  StoreError, not_found, unencodable, bad_checksum, wrong_kind, unsupported_version, no_checksum,
  is_not_found, Backend, SnapshotCodec, verify, decode_snapshot, read, list_refs, last_ref,
  latest_listed, latest, key_of,
}

module _ (encoding : Encoding) (codec : SnapshotCodec) where
  -- Some text decodes to the snapshot.
  abbrev pub IsDecoded : Snapshot → Type 0
  IsDecoded snap = (raw : Text) × (codec.decode raw ≡ some snap)

  -- The checks give back the document that was checked.
  verify-same :
      (key : Text) (snap found : Snapshot)
      → verify encoding codec key snap ≡ ok found
      → snap ≡ found
  unfolding verify
  verify-same key snap found h =
      let (_, _, f) =
        >>=-eq-ok (refuse (not (text_eq snap.kind Types.kind)) (wrong_kind key)) _ h in
      let (_, _, g) =
        >>=-eq-ok
          (refuse (not (text_eq snap.api_version Types.api_version)) (unsupported_version key)) _
          f in
      let (_, _, k) = >>=-eq-ok (refuse (is_nil snap.checksum) (no_checksum key)) _ g in
      from (checksum encoding snap.content) k
    where
      from :
          (o : Option Text)
          → ◌≡◌ {A = Result StoreError Snapshot}
              (elim o [
                | none ↦ err unencodable
                | some computed ↦
                    if text_eq computed snap.checksum then ok snap else err (bad_checksum key)
              ])
              (ok found)
          → snap ≡ found
      from none k = cc
      from (some computed) k = ground arith

  decode_snapshot-IsDecoded :
      (raw key : Text) (snap : Snapshot)
      → decode_snapshot encoding codec raw key ≡ ok snap
      → IsDecoded snap
  unfolding decode_snapshot
  decode_snapshot-IsDecoded raw key snap h = elim (Option-cases (codec.decode raw)) [
    | inl e ↦ absurd (ground arith)
    | inr (found, e) ↦ (raw, ground (arith, verify-same key found snap (ground arith)))
  ]

  module _ {S : Type 0} (backend : Backend S) (time : TimeFormat) (layout : Layout) (s : S) where
    pub read-IsDecoded :
        (key : Text) (snap : Snapshot)
        → read encoding codec backend time layout s key ≡ ok snap
        → IsDecoded snap
    unfolding read
    read-IsDecoded key snap h =
        let (raw, _, f) = >>=-eq-ok (backend.get s key) _ h in
        decode_snapshot-IsDecoded raw key snap f

    latest_listed-IsDecoded :
        (snap : Snapshot) (key : Text)
        → latest_listed encoding codec backend time layout s ≡ ok (snap, key)
        → IsDecoded snap
    unfolding latest_listed
    latest_listed-IsDecoded snap key h =
        let (refs, _, f) = >>=-eq-ok (list_refs encoding codec backend time layout s) _ h in
        from (last_ref encoding codec backend time layout refs) f
      where
        from :
            (o : Option SnapshotRef)
            → ◌≡◌ {A = Result StoreError (Snapshot × Text)}
                (elim o [
                  | none ↦ err not_found
                  | some ref ↦
                      (read encoding codec backend time layout s ref.key >>= λ (found : Snapshot).
                      ok (found, ref.key))
                ])
                (ok (snap, key))
            → IsDecoded snap
        from none k = cc
        from (some ref) k =
            let (found, e, g) = >>=-eq-ok (read encoding codec backend time layout s ref.key) _ k in
            read-IsDecoded ref.key snap (ground arith)

    -- What Read and Latest return was decoded from a text.
    pub latest-IsDecoded :
        (snap : Snapshot) (key : Text)
        → latest encoding codec backend time layout s ≡ ok (snap, key)
        → IsDecoded snap
    unfolding latest
    latest-IsDecoded snap key h = from (backend.get s (latest_key layout)) h
      where
        from :
            (r : Result StoreError Text)
            → ◌≡◌ {A = Result StoreError (Snapshot × Text)}
                (elim r [
                  | ok raw ↦
                      (decode_snapshot encoding codec raw (latest_key layout)
                        >>= λ (found : Snapshot).
                            ok (found, key_of encoding codec backend time layout found))
                  | err e ↦
                      if is_not_found e
                      then latest_listed encoding codec backend time layout s
                      else err e
                ])
                (ok (snap, key))
            → IsDecoded snap
        from (ok raw) k =
            let (found, e, g) =
              >>=-eq-ok (decode_snapshot encoding codec raw (latest_key layout)) _ k in
            decode_snapshot-IsDecoded raw (latest_key layout) snap (ground arith)
        from (err e) k = elim (Bool-cases (is_not_found e)) [
          | inl missing ↦ latest_listed-IsDecoded snap key (ground arith)
          | inr other ↦ absurd (ground arith)
        ]
