-- ===== src/Store/Barman/Fresh.antt =====
-- How old an answer of the cache of internal/store/barman.go can be.
use cnpg_i_chronicle.Common.{
  ℕ, ◌+◌, ◌≤◌, ◌≡◌, refl, sym, ◌∙◌, ap, ◌⊎◌, inl, inr, ◌↔◌, Bool, true, false, Option, none, some,
  List, [], ◌∷◌, arith, ltb, if◌then◌else◌, Text, text_eq_iff, Result, ok, err, Bool-cases,
  Option-cases, Elem, here, there,
}
use cnpg_i_chronicle.Json.{Fields}
use cnpg_i_chronicle.Api.{ObjectStoreConfiguration}
use cnpg_i_chronicle.Store.Resolver.{ReadError, DerivedObjectStore, ResolveError}
use cnpg_i_chronicle.Store.Barman.{
  CacheEntry, Cache, same_key, cached, put_entry, lookup, store, read_configuration, store_if_ok,
  get_configuration,
}

-- A read of the API server that was stored: when, of which ObjectStore, and what it gave.
pub record Stored : Type 0 where
  pub moment : ℕ
  pub key : Text × Text
  pub derived : DerivedObjectStore

-- The reads stored after a call, from what it looked up and what a read gives.
abbrev pub log_after :
    Option DerivedObjectStore
    → Result ResolveError DerivedObjectStore
    → ℕ
    → Text × Text
    → List Stored
    → List Stored
log_after (some found) r later key log = log
log_after none (err e) later key log = log
log_after none (ok derived) later key log =
    record { moment = later; key = key; derived = derived } ∷ log

same_key_iff : (a b : Text × Text) → (same_key a b ≡ true) ↔ (a ≡ b)
same_key_iff (a, b) (c, d) = ground (arith, text_eq_iff a c, text_eq_iff b d)

same_key_refl : (a : Text × Text) → same_key a a ≡ true
same_key_refl a = (same_key_iff a a).1 refl

cached-put_entry :
    (key other : Text × Text) (new : CacheEntry) (cache : Cache)
    → cached other (put_entry key new cache)
      ≡ (if same_key key other then some new else cached other cache)
unfolding cached put_entry
cached-put_entry key other new [] = refl
cached-put_entry key other new (entry ∷ rest) = elim (Bool-cases (same_key entry.0 key)) [
  | inl e ↦ rw e (at ((same_key_iff entry.0 key).0 e))
  | inr e ↦ elim (Bool-cases (same_key entry.0 other)) [
    | inl o ↦ rw (e, o, apart e o)
    | inr o ↦ rw (e, o) (cached-put_entry key other new rest)
  ]
]
  where
    at :
        entry.0 ≡ key
        → (if same_key key other then some new else cached other rest) ≡ (
            if same_key key other
            then some new
            else if same_key entry.0 other
            then some entry.1
            else cached other rest)
    at same = rw same (collapse (same_key key other))
      where
        collapse :
            (b : Bool)
            → (if b then some new else cached other rest)
              ≡ (if b then some new else if b then some entry.1 else cached other rest)
        collapse true = refl
        collapse false = refl

    apart :
        same_key entry.0 key ≡ false → same_key entry.0 other ≡ true → same_key key other ≡ false
    apart e o = elim (Bool-cases (same_key key other)) [
      | inr ne ↦ ne
      | inl same ↦
          let a = (same_key_iff entry.0 other).0 o in
          let b = (same_key_iff key other).0 same in
          absurd (ground (arith, (same_key_iff entry.0 key).1 (a ∙ sym b)))
    ]

module _ (encode : Fields → Option Text) (decode : Text → Option ObjectStoreConfiguration)
    (nested_map : Fields → List Text → Result Text (Option Fields))
    (nested_string : Fields → List Text → Result Text (Option Text)) (ttl : ℕ) where
  -- The caches that calls of GetConfiguration lead to, with the reads that were stored on the way. What
  -- the API server answers may change from call to call.
  pub data Reached : Cache → List Stored → Type 0 where
    fresh_start : Reached [] []
    called :
        {cache : Cache} {log : List Stored}
        → Reached cache log
        → (get : Text × Text → Result ReadError Fields) (now later : ℕ) (key : Text × Text)
        → Reached
            (get_configuration encode decode nested_map nested_string get ttl now later key cache).0
            (log_after
              (lookup now key cache)
              (read_configuration encode decode nested_map nested_string (get key))
              later
              key
              log)

  -- A read that was stored under the key and that gave what an entry holds.
  abbrev IsReadOf : Text × Text → CacheEntry → List Stored → Type 0
  IsReadOf key entry log =
      (r : Stored) × Elem r log
      × (r.key ≡ key)
      × (r.derived ≡ entry.derived)
      × (entry.expires_at ≡ r.moment + ttl)

  -- Every entry of a cache is of a read.
  abbrev Sound : Cache → List Stored → Type 0
  Sound cache log =
      (key : Text × Text) (entry : CacheEntry)
      → cached key cache ≡ some entry
      → IsReadOf key entry log

  store-Sound :
      (cache : Cache) (log : List Stored) (later : ℕ) (key : Text × Text)
      (derived : DerivedObjectStore)
      → Sound cache log
      → Sound
          (store ttl later key derived cache)
          (record { moment = later; key = key; derived = derived } ∷ log)
  unfolding store
  store-Sound cache log later key derived h other entry e = elim (Bool-cases (same_key key other)) [
    | inl same ↦ (
      record { moment = later; key = key; derived = derived },
      here refl,
      (same_key_iff key other).0 same,
      ap (λ (x : CacheEntry). x.derived) (stored same),
      sym (ap (λ (x : CacheEntry). x.expires_at) (stored same)),
    )
    | inr apart ↦ let (r, m, k, d, t) = h other entry (before apart) in (r, there m, k, d, t)
  ]
    where
      fresh : CacheEntry
      fresh = record { derived = derived; expires_at = later + ttl }

      stored : same_key key other ≡ true → fresh ≡ entry
      stored same = ground (arith, cached-put_entry key other fresh cache)

      before : same_key key other ≡ false → cached other cache ≡ some entry
      before apart = ground (arith, cached-put_entry key other fresh cache)

  called-Sound :
      (cache : Cache) (log : List Stored) (get : Text × Text → Result ReadError Fields)
      (now later : ℕ) (key : Text × Text)
      → Sound cache log
      → Sound
          (get_configuration encode decode nested_map nested_string get ttl now later key cache).0
          (log_after
            (lookup now key cache)
            (read_configuration encode decode nested_map nested_string (get key))
            later
            key
            log)
  unfolding get_configuration
  called-Sound cache log get now later key h =
      from (lookup now key cache)
        (read_configuration encode decode nested_map nested_string (get key))
    where
      from :
          (o : Option DerivedObjectStore) (r : Result ResolveError DerivedObjectStore)
          → Sound
              (elim o as (λ x. Cache × Result ResolveError DerivedObjectStore) [
                | some derived ↦ (cache, ok derived)
                | none ↦ store_if_ok encode decode nested_map nested_string ttl later key cache r
              ]).0
              (log_after o r later key log)
      from (some derived) r = h
      from none (err e) = h
      from none (ok derived) = store-Sound cache log later key derived h

  Reached-Sound : {cache : Cache} {log : List Stored} → Reached cache log → Sound cache log
  Reached-Sound fresh_start = λ key entry e. absurd (unfold cached in ground arith)
  Reached-Sound (called reached get now later key) =
      called-Sound _ _ get now later key (Reached-Sound reached)

  -- Whatever calls went before, an answer of GetConfiguration is what a read of the API server gives
  -- now, or what a read of this ObjectStore gave that was stored no more than the lifetime ago.
  pub get_configuration-fresh :
      (cache cache' : Cache) (log : List Stored) (get : Text × Text → Result ReadError Fields)
      (now later : ℕ) (key : Text × Text) (derived : DerivedObjectStore)
      → Reached cache log
      → get_configuration encode decode nested_map nested_string get ttl now later key cache
        ≡ (cache', ok derived)
      → (read_configuration encode decode nested_map nested_string (get key) ≡ ok derived)
        ⊎ ((r : Stored) × Elem r log × (r.key ≡ key) × (r.derived ≡ derived) × now ≤ r.moment + ttl)
  unfolding get_configuration lookup
  get_configuration-fresh cache cache' log get now later key derived reached h =
      elim (Option-cases (cached key cache)) [
        | inl e ↦ inl (through (ground arith))
        | inr (entry, e) ↦ elim (Bool-cases (ltb entry.expires_at now)) [
          | inl expired ↦ inl (through (ground arith))
          | inr valid ↦
              let (r, m, k, d, t) = Reached-Sound reached key entry e in
              inr (r, m, k, ground arith, ground arith)
        ]
      ]
    where
      through :
          store_if_ok encode decode nested_map nested_string ttl later key cache
              (read_configuration encode decode nested_map nested_string (get key))
            ≡ (cache', ok derived)
          → read_configuration encode decode nested_map nested_string (get key) ≡ ok derived
      through k = from (read_configuration encode decode nested_map nested_string (get key)) k
        where
          from :
              (r : Result ResolveError DerivedObjectStore)
              → store_if_ok encode decode nested_map nested_string ttl later key cache r
                ≡ (cache', ok derived)
              → r ≡ ok derived
          from (err x) q = absurd (ground arith)
          from (ok x) q = ground arith
