-- ===== src/Tests/Buckets.antt =====
-- A write into a bucket that is not there yet.
use cnpg_i_chronicle.Common.{
  ℕ, zero, suc, subst, ◌≤◌, ◌≡◌, refl, sym, ◌∙◌, ap, Bool, true, false, none, some, [], ◌∷◌, arith,
  if◌then◌else◌, Text, codes, text_eq, text_eq_refl, length, Result, ok, err,
}
use cnpg_i_chronicle.Store.Layout.{Layout, latest_key, first_bytes}
use cnpg_i_chronicle.Store.Snapshots.{write_latest, write, latest}
use cnpg_i_chronicle.Store.S3.{
  ErrorType, no_such_bucket, no_such_key, ClientError, Client, is_no_such_bucket, s3_create_bucket,
  s3_put, s3_store, max_object_size,
}
use cnpg_i_chronicle.Store.S3.Readback.{write-latest_s3}
use cnpg_i_chronicle.Store.Snapshots.{key_of}
use cnpg_i_chronicle.Tests.Captures.{
  encoding, postgres, cluster, options, snap, extracted, codec, time, Objects,
}

-- Whether the bucket is there, and its objects.
abbrev Bucket : Type 0
Bucket = Bool × Objects

abbrev error_of : ErrorType → ClientError
error_of t = record { error_type = t; api = none; status = some 404; text = codes "404" }

abbrev find_body : Objects → Text → Result ClientError (ℕ → Result Text Text)
find_body [] key = err (error_of no_such_key)
find_body (entry ∷ rest) key =
    if text_eq entry.0 key then ok (λ n. ok (first_bytes n entry.1)) else find_body rest key

abbrev put_into : Bucket → Text → Text → Bucket × Result ClientError (Unit {0})
put_into (true, s) key body = ((true, (key, body) ∷ s), ok tt)
put_into (false, s) key body = ((false, s), err (error_of no_such_bucket))

abbrev client : Client Bucket
client = record {
  get_object = λ s bucket key. find_body s.1 key;
  put_object = λ s bucket key body. put_into s key body;
  create_bucket = λ s bucket. ((true, s.1), ok tt);
  list_pages = λ s bucket prefix. [];
  list_one = λ s bucket prefix. ok tt;
  delete_object = λ s bucket key. (s, ok tt);
}

first_bytes_all : (n : ℕ) (v : Text) → length v ≤ n → first_bytes n v ≡ v
first_bytes_all zero [] h = refl
first_bytes_all zero (c ∷ v) h = absurd (omega (arith, h))
first_bytes_all (suc n) [] h = refl
first_bytes_all (suc n) (c ∷ v) h = ap (λ t. c ∷ t) (first_bytes_all n v (omega (arith, h)))

kept_by_client :
    (t t' : Bucket) (k v : Text)
    → client.put_object t (codes "b") k v ≡ (t', ok tt)
    → (body : ℕ → Result Text Text) × (client.get_object t' (codes "b") k ≡ ok body)
      × ((n : ℕ) → length v ≤ n → body n ≡ ok v)
kept_by_client (false, s) t' k v h = absurd (ground arith)
kept_by_client (true, s) t' k v h = (
  λ n. ok (first_bytes n v),
  sym (ap (λ (p : Bucket × Result ClientError (Unit {0})). find_body p.0.1 k) h)
      ∙ rw (text_eq_refl k),
  λ n small. ap (λ t. ok t) (first_bytes_all n v small),
)

abbrev layout : Layout
layout = record { base_path = codes "backups"; server_name = codes "a"; prefix = codes "chronicle" }

abbrev key : Text
key = key_of encoding codec (s3_store client (codes "b")) time layout snap

abbrev after_write : Bucket
after_write = (true, (latest_key layout, codes "snap") ∷ (key, codes "snap") ∷ [])

written :
    write encoding codec (s3_store client (codes "b")) time layout (false, []) snap
    ≡ (after_write, ok key)
unfolding write write_latest s3_put is_no_such_bucket s3_create_bucket
written = refl

snap_is_small : (raw : Text) → codec.encode snap ≡ some raw → length raw ≤ max_object_size
snap_is_small raw e =
    let same : codes "snap" ≡ raw = ground arith in
    subst (λ (r : Text). length r ≤ max_object_size) same (omega arith)

write-latest_s3_example :
    latest encoding codec (s3_store client (codes "b")) time layout after_write ≡ ok (snap, key)
write-latest_s3_example =
    write-latest_s3 client (codes "b") kept_by_client encoding codec time layout postgres 0
      (some cluster) options snap (false, []) after_write key snap_is_small (λ raw h. refl)
      extracted written
