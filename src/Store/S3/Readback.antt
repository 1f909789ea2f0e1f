-- ===== src/Store/S3/Readback.antt =====
-- What a bucket gives back of what internal/store/s3.go put into it.
use cnpg_i_chronicle.Common.{
  ℕ, suc, ◌≤◌, ◌≡◌, refl, inl, inr, false, Option, some, arith, ltb, Text, length, Result, ok, err,
  Bool-cases,
}
use cnpg_i_chronicle.Cluster.{Cluster}
use cnpg_i_chronicle.Snapshot.Types.{Snapshot, Encoding, Postgres}
use cnpg_i_chronicle.Snapshot.Extract.{ExtractOptions, extract}
use cnpg_i_chronicle.Store.Layout.{TimeFormat, Layout}
use cnpg_i_chronicle.Store.Snapshots.{SnapshotCodec, write, latest}
use cnpg_i_chronicle.Store.Snapshots.Written.{write-latest}
use cnpg_i_chronicle.Store.S3.{
  s3_store, Client, ClientError, max_object_size, is_no_such_bucket, read_body, s3_get,
  s3_create_bucket, put_result, put_again, put_first, s3_put,
}

module _ {S : Type 0} (client : Client S) (bucket : Text)
    (kept : (t t' : S) (k v : Text)
      → client.put_object t bucket k v ≡ (t', ok tt)
      → (body : ℕ → Result Text Text) × (client.get_object t' bucket k ≡ ok body)
        × ((n : ℕ) → length v ≤ n → body n ≡ ok v)) where
  read_body-ok :
      (key v : Text) (body : ℕ → Result Text Text)
      → length v ≤ max_object_size
      → body (suc max_object_size) ≡ ok v
      → read_body client bucket key body ≡ ok v
  unfolding read_body
  read_body-ok key v body small e =
      let fits : ltb max_object_size (length v) ≡ false = ground arith in rw (e, fits)

  -- What one write of the client put is read back.
  object-get :
      (t t' : S) (key v : Text)
      → client.put_object t bucket key v ≡ (t', ok tt)
      → length v ≤ max_object_size
      → s3_get client bucket t' key ≡ ok v
  unfolding s3_get
  object-get t t' key v h small =
      let (body, found, whole) = kept t t' key v h in
      rw (s3_get, found)
        (read_body-ok key v body small (whole (suc max_object_size) (omega (arith, small))))

  put_result-get :
      (t s' : S) (key v : Text) (r : S × Result ClientError (Unit {0}))
      → client.put_object t bucket key v ≡ r
      → put_result client bucket r ≡ (s', ok tt)
      → length v ≤ max_object_size
      → s3_get client bucket s' key ≡ ok v
  put_result-get t s' key v (t', err e) p h small = absurd (ground arith)
  put_result-get t s' key v (t', ok _) p h small = object-get t s' key v (ground arith) small

  put_again-get :
      (s' : S) (key v : Text) (e : ClientError) (r : S × Result ClientError (Unit {0}))
      → put_again client bucket key v e r ≡ (s', ok tt)
      → length v ≤ max_object_size
      → s3_get client bucket s' key ≡ ok v
  put_again-get s' key v e (t, err failure) h small = absurd (ground arith)
  put_again-get s' key v e (t, ok _) h small =
      put_result-get t s' key v (client.put_object t bucket key v) refl h small

  -- An object of at most 4 MiB that Put wrote without an error is what Get returns, whether the
  -- bucket was there or was created on the way. The client is assumed to give back a body that reads
  -- as what a write that succeeded wrote.
  pub s3_put-s3_get :
      (s s' : S) (key v : Text)
      → s3_put client bucket s key v ≡ (s', ok tt)
      → length v ≤ max_object_size
      → s3_get client bucket s' key ≡ ok v
  unfolding s3_put
  s3_put-s3_get s s' key v h small = from (client.put_object s bucket key v) refl h
    where
      from :
          (r : S × Result ClientError (Unit {0}))
          → client.put_object s bucket key v ≡ r
          → put_first client bucket key v r ≡ (s', ok tt)
          → s3_get client bucket s' key ≡ ok v
      from (t, ok _) p k = object-get s s' key v (ground arith) small
      from (t, err e) p k = elim (Bool-cases (is_no_such_bucket e)) [
        | inr other ↦ absurd (ground arith)
        | inl absent ↦
            put_again-get s' key v e (s3_create_bucket client bucket t) (ground arith) small
      ]

  -- Once Extract's snapshot is written to the bucket without an error, Latest returns it from there
  -- with the key that Write returned, also where the bucket was created on the way. The encoding of
  -- the snapshot is assumed to have at most 4 MiB and to be decoded back, and the client to give back
  -- a body that reads as what a write that succeeded wrote.
  pub write-latest_s3 :
      (encoding : Encoding) (codec : SnapshotCodec) (time : TimeFormat) (layout : Layout)
      (postgres : Postgres) (clock : ℕ) (cluster : Option Cluster) (options : ExtractOptions)
      (snap : Snapshot) (s s' : S) (key : Text)
      → ((raw : Text) → codec.encode snap ≡ some raw → length raw ≤ max_object_size)
      → ((raw : Text) → codec.encode snap ≡ some raw → codec.decode raw ≡ some snap)
      → extract encoding postgres clock cluster options ≡ ok snap
      → write encoding codec (s3_store client bucket) time layout s snap ≡ (s', ok key)
      → latest encoding codec (s3_store client bucket) time layout s' ≡ ok (snap, key)
  write-latest_s3 encoding codec time layout postgres clock cluster options snap s s' key small
        round extracted written =
      write-latest encoding codec (s3_store client bucket) time layout postgres clock cluster
        options snap s s' key (λ t t' k raw e p. s3_put-s3_get t t' k raw p (small raw e)) round
        extracted written
