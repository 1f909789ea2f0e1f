-- ===== src/Store/S3.antt =====
-- internal/store/s3.go: an S3 bucket as an object store. The AWS client is an argument, over a state of
-- the bucket's objects; so is the loading of its configuration.
pub mod Readback
use cnpg_i_chronicle.Common.{
  ℕ, suc, Bool, true, false, not, ◌&&◌, ◌||◌, Option, none, some, List, [], ◌∷◌, ◌++◌,
  if◌then◌else◌, ltb, ◌==◌, Text, codes, text_eq, is_nil, length, Result, ok, err, ◌>>=◌, ◌>>◌,
  wrap, refuse,
}
use cnpg_i_chronicle.Snapshot.Types.{sort_texts}
use cnpg_i_chronicle.Store.Snapshots.{
  StoreError, not_found, bucket_not_found, failed, too_large, Backend,
}
use cnpg_i_chronicle.Store.Resolver.{
  S3Options, S3ClientError, no_bucket_name, no_certificates, unloadable, ResolveError, no_client,
}

-- The error types of the SDK that the code looks for.
pub data ErrorType : Type 0 where
  no_such_key not_found_type no_such_bucket already_owned already_exists other_type : ErrorType

-- An error of the client: its type, the code and the message of a smithy.APIError, the HTTP status of a
-- ResponseError, and its text.
pub record ClientError : Type 0 where
  pub error_type : ErrorType
  pub api : Option (Text × Text)
  pub status : Option ℕ
  pub text : Text

-- The calls of s3.Client. A body is read up to a number of bytes; a listing is its pages, in which a key
-- may be nil.
pub record Client (S : Type 0) : Type 0 where
  pub get_object : S → Text → Text → Result ClientError (ℕ → Result Text Text)
  pub put_object : S → Text → Text → Text → S × Result ClientError (Unit {0})
  pub create_bucket : S → Text → S × Result ClientError (Unit {0})
  pub list_pages : S → Text → Text → List (Result ClientError (List (Option Text)))
  pub list_one : S → Text → Text → Result ClientError (Unit {0})
  pub delete_object : S → Text → Text → S × Result ClientError (Unit {0})

-- What NewS3Backend configures.
pub record ClientConfiguration : Type 0 where
  pub region : Text
  pub static_credentials : Option (Text × Text × Text)
  pub ca_bundle : Option Text
  pub base_endpoint : Option Text
  pub use_path_style : Bool

abbrev pub max_object_size : ℕ
max_object_size = 4194304

abbrev pub has_code : Text → ClientError → Bool
has_code code e = elim e.api [ none ↦ false | some (c, message) ↦ text_eq c code ]

abbrev pub is_not_found_type : ErrorType → Bool
is_not_found_type no_such_key = true
is_not_found_type not_found_type = true
is_not_found_type _ = false

abbrev pub is_no_such_bucket_type : ErrorType → Bool
is_no_such_bucket_type no_such_bucket = true
is_no_such_bucket_type _ = false

abbrev pub is_already_there_type : ErrorType → Bool
is_already_there_type already_owned = true
is_already_there_type already_exists = true
is_already_there_type _ = false

abbrev pub has_status : ℕ → Option ℕ → Bool
has_status n none = false
has_status n (some status) = status == n

-- isNotFound
unfoldable pub is_not_found_error : ClientError → Bool
is_not_found_error e =
    is_not_found_type e.error_type
    || ((has_code (codes "NoSuchKey") e || has_code (codes "NotFound") e)
        || has_status 404 e.status)

-- isNoSuchBucket
unfoldable pub is_no_such_bucket : ClientError → Bool
is_no_such_bucket e = is_no_such_bucket_type e.error_type || has_code (codes "NoSuchBucket") e

-- The errors that createBucket tolerates
unfoldable pub is_already_there : ClientError → Bool
is_already_there e =
    is_already_there_type e.error_type
    || (has_code (codes "BucketAlreadyOwnedByYou") e || has_code (codes "BucketAlreadyExists") e)

-- describeS3Error
unfoldable pub describe_s3_error : ClientError → Text
describe_s3_error e = elim e.api [
  | none ↦ e.text
  | some (code, message) ↦ code ++ (codes ": " ++ message)
]

-- The keys of the pages, up to the first error
abbrev pub keys_in : List (Option Text) → List Text
keys_in [] = []
keys_in (none ∷ rest) = keys_in rest
keys_in (some key ∷ rest) = key ∷ keys_in rest

unfoldable pub keys_of_pages :
    List (Result ClientError (List (Option Text))) → Result StoreError (List Text)
keys_of_pages [] = ok []
keys_of_pages (err e ∷ rest) = err (failed e.text)
keys_of_pages (ok page ∷ rest) = do keys ← keys_of_pages rest; ok (keys_in page ++ keys)

module _ {S : Type 0} (client : Client S) (bucket : Text) where
  -- Get, on the body
  unfoldable pub read_body : Text → (ℕ → Result Text Text) → Result StoreError Text
  read_body key body = do
    data' ← wrap failed (body (suc max_object_size))
    refuse (ltb max_object_size (length data')) (too_large key)
    ok data'

  -- Get
  unfoldable pub s3_get : S → Text → Result StoreError Text
  s3_get s key = elim (client.get_object s bucket key) [
    | err e ↦ if is_not_found_error e then err not_found else err (failed e.text)
    | ok body ↦ read_body key body
  ]

  -- createBucket
  unfoldable pub s3_create_bucket : S → S × Result ClientError (Unit {0})
  s3_create_bucket s =
      let (s', result) = client.create_bucket s bucket in
      elim result [
        | ok _ ↦ (s', ok tt)
        | err e ↦ if is_already_there e then (s', ok tt) else (s', err e)
      ]

  abbrev pub put_result : S × Result ClientError (Unit {0}) → S × Result StoreError (Unit {0})
  put_result (s, ok _) = (s, ok tt)
  put_result (s, err e) = (s, err (failed e.text))

  -- Put, once createBucket has returned
  abbrev pub put_again :
      Text
      → Text
      → ClientError
      → S × Result ClientError (Unit {0})
      → S × Result StoreError (Unit {0})
  put_again key body e (s, ok _) = put_result (client.put_object s bucket key body)
  put_again key body e (s, err failure) = (s, err (failed e.text))

  -- Put, on the result of the first write
  abbrev pub put_first :
      Text → Text → S × Result ClientError (Unit {0}) → S × Result StoreError (Unit {0})
  put_first key body (s, ok _) = (s, ok tt)
  put_first key body (s, err e) =
      if not (is_no_such_bucket e)
      then (s, err (failed e.text))
      else put_again key body e (s3_create_bucket s)

  -- Put
  unfoldable pub s3_put : S → Text → Text → S × Result StoreError (Unit {0})
  s3_put s key body = put_first key body (client.put_object s bucket key body)

  -- List
  unfoldable pub s3_list : S → Text → Result StoreError (List Text)
  s3_list s prefix = do
    keys ← keys_of_pages (client.list_pages s bucket prefix)
    ok (sort_texts keys)

  -- Check
  unfoldable pub s3_check : S → Text → Result StoreError (Unit {0})
  s3_check s prefix = elim (client.list_one s bucket prefix) [
    | ok _ ↦ ok tt
    | err e ↦
        if is_no_such_bucket e then err bucket_not_found else err (failed (describe_s3_error e))
  ]

  abbrev pub delete_result : S × Result ClientError (Unit {0}) → S × Result StoreError (Unit {0})
  delete_result (s, ok _) = (s, ok tt)
  delete_result (s, err e) = if is_not_found_error e then (s, ok tt) else (s, err (failed e.text))

  -- Delete
  unfoldable pub s3_delete : S → Text → S × Result StoreError (Unit {0})
  s3_delete s key = delete_result (client.delete_object s bucket key)

  abbrev pub s3_store : Backend S
  s3_store = record {
    check = s3_check;
    get = s3_get;
    put = s3_put;
    list = s3_list;
    delete = s3_delete;
  }

abbrev pub unless_nil : Text → Option Text
unless_nil [] = none
unless_nil (c ∷ s) = some (c ∷ s)

-- The configuration that NewS3Backend builds of its options
unfoldable pub client_configuration : S3Options → ClientConfiguration
client_configuration options = record {
  region = if is_nil options.region then codes "us-east-1" else options.region;
  static_credentials =
      (if not options.inherit_from_iam_role && not (is_nil options.access_key_id)
        then some (options.access_key_id, options.secret_access_key, options.session_token)
        else none);
  ca_bundle = unless_nil options.ca_bundle;
  base_endpoint = unless_nil options.endpoint_url;
  use_path_style = not (is_nil options.endpoint_url);
}

module _ (holds_certificate : Text → Bool) {S : Type 0}
    (load_client : ClientConfiguration → Result Text (Client S)) where
  -- NewS3Backend; AppendCertsFromPEM and LoadDefaultConfig are arguments.
  unfoldable pub new_s3_backend : S3Options → Result ResolveError (Backend S)
  new_s3_backend options = do
    refuse (is_nil options.bucket) (no_client no_bucket_name)
    refuse (not (is_nil options.ca_bundle) && not (holds_certificate options.ca_bundle))
        (no_client no_certificates)
    client ←
        wrap (λ (e : Text). no_client (unloadable e)) (load_client (client_configuration options))
    ok (s3_store client options.bucket)
