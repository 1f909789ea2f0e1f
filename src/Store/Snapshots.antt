-- ===== src/Store/Snapshots.antt =====
-- internal/store/snapshots.go and backend.go: one cluster's snapshots in an object store. The
-- store's client is an argument, and so is the JSON encoding of a snapshot.
pub mod Written
pub mod Decoded
use cnpg_i_chronicle.Common.{
  ℕ, Bool, true, false, not, Option, none, some, List, [], ◌∷◌, if◌then◌else◌, Text, text_eq,
  is_nil, Result, ok, err, ◌>>=◌, ◌>>◌, refuse, bind_option,
}
use cnpg_i_chronicle.Snapshot.Types
use cnpg_i_chronicle.Snapshot.Types.{Snapshot, Encoding, checksum}
use cnpg_i_chronicle.Store.Layout.{
  TimeFormat, Layout, snapshots_prefix, latest_key, snapshot_key, parse_snapshot_key,
}
use cnpg_i_chronicle.Store.Refs.{SnapshotRef, sort_refs}

-- `not_found` is ErrNotFound and `bucket_not_found` ErrBucketNotFound; `failed` is any other error
-- of the client. `too_large` is an object past the limit of a read.
pub data StoreError : Type 0 where
  not_found bucket_not_found : StoreError
  failed : Text → StoreError
  undecodable wrong_kind unsupported_version no_checksum bad_checksum : Text → StoreError
  unencodable : StoreError
  too_large : Text → StoreError

abbrev pub is_not_found : StoreError → Bool
is_not_found not_found = true
is_not_found _ = false

-- Backend, over a state of the object store. A call that fails may have changed the state.
pub record Backend (S : Type 0) : Type 0 where
  pub check : S → Text → Result StoreError (Unit {0})
  pub get : S → Text → Result StoreError Text
  pub put : S → Text → Text → S × Result StoreError (Unit {0})
  pub list : S → Text → Result StoreError (List Text)
  pub delete : S → Text → S × Result StoreError (Unit {0})

-- json.MarshalIndent of a snapshot, and json.Decode with UseNumber.
pub record SnapshotCodec : Type 0 where
  pub encode : Snapshot → Option Text
  pub decode : Text → Option Snapshot

module _ (encoding : Encoding) (codec : SnapshotCodec) where
  -- The checks of decodeSnapshot on a decoded document
  unfoldable pub verify : Text → Snapshot → Result StoreError Snapshot
  verify key snap = do
    refuse (not (text_eq snap.kind Types.kind)) (wrong_kind key)
    refuse (not (text_eq snap.api_version Types.api_version)) (unsupported_version key)
    refuse (is_nil snap.checksum) (no_checksum key)
    elim (checksum encoding snap.content) [
      | none ↦ err unencodable
      | some computed ↦ if text_eq computed snap.checksum then ok snap else err (bad_checksum key)
    ]

  -- decodeSnapshot
  unfoldable pub decode_snapshot : Text → Text → Result StoreError Snapshot
  decode_snapshot raw key = elim (codec.decode raw) [
    | none ↦ err (undecodable key)
    | some snap ↦ verify key snap
  ]

  module _ {S : Type 0} (backend : Backend S) (time : TimeFormat) (layout : Layout) where
    abbrev pub key_of : Snapshot → Text
    key_of snap = snapshot_key time layout snap.captured_at snap.generation snap.checksum

    -- The second half of Write: the latest pointer, after the object itself was put.
    unfoldable pub write_latest :
        Text → Text → S × Result StoreError (Unit {0}) → S × Result StoreError Text
    write_latest key encoded (s, err e) = (s, err e)
    write_latest key encoded (s, ok _) =
        let (s', result) = backend.put s (latest_key layout) encoded in
        (s', (result >>= λ _. ok key))

    -- Write
    unfoldable pub write : S → Snapshot → S × Result StoreError Text
    write s snap = elim (codec.encode snap) [
      | none ↦ (s, err unencodable)
      | some encoded ↦ write_latest (key_of snap) encoded (backend.put s (key_of snap) encoded)
    ]

    -- Read
    unfoldable pub read : S → Text → Result StoreError Snapshot
    read s key = do raw ← backend.get s key; decode_snapshot raw key

    -- The loop of List: keys that do not parse are passed over.
    unfoldable pub refs_of : List Text → List SnapshotRef
    refs_of [] = []
    refs_of (key ∷ keys) =
        let rest = refs_of keys in
        elim (parse_snapshot_key time key) [
          | none ↦ rest
          | some (captured_at, generation) ↦
              record { key = key; captured_at = captured_at; generation = generation } ∷ rest
        ]

    -- List
    unfoldable pub list_refs : S → Result StoreError (List SnapshotRef)
    list_refs s = do keys ← backend.list s (snapshots_prefix layout); ok (sort_refs (refs_of keys))

    -- refs[len(refs)-1], where there is one
    unfoldable pub last_ref : List SnapshotRef → Option SnapshotRef
    last_ref [] = none
    last_ref (ref ∷ []) = some ref
    last_ref (ref ∷ next ∷ rest) = last_ref (next ∷ rest)

    -- Latest where the pointer is missing
    unfoldable pub latest_listed : S → Result StoreError (Snapshot × Text)
    latest_listed s = do
      refs ← list_refs s
      elim (last_ref refs) [
        | none ↦ err not_found
        | some ref ↦ do snap ← read s ref.key; ok (snap, ref.key)
      ]

    -- Latest
    unfoldable pub latest : S → Result StoreError (Snapshot × Text)
    latest s = elim (backend.get s (latest_key layout)) [
      | ok raw ↦ do snap ← decode_snapshot raw (latest_key layout); ok (snap, key_of snap)
      | err e ↦ if is_not_found e then latest_listed s else err e
    ]
