-- ===== src/Store/Layout.antt =====
-- internal/store/layout.go: object keys. Go's time formatting is an argument.
pub mod Digits
pub mod Keys
use Prim.Native.Nat.{max}
use mathlib.Core.List.{reverse}
use cnpg_i_chronicle.Common.{
  not, map, contains, Result, ok, err, ℕ, zero, suc, ◌+◌, ◌*◌, ◌-◌, ◌/◌, ◌%◌, Bool, ◌&&◌, ◌||◌,
  Option, none, some, List, [], ◌∷◌, ◌++◌, if◌then◌else◌, ltb, leb, ◌==◌, Text, codes, cut_at,
  cut_prefix, is_nil, length, bind_option,
}

-- time.Time's Format(TimestampFormat) in UTC, and time.Parse of it: `none` is not a timestamp.
pub record TimeFormat : Type 0 where
  pub format : ℕ → Text
  pub parse : Text → Option ℕ

-- strings.Trim(s, "/")
unfoldable pub trim_left : Text → Text
trim_left [] = []
trim_left (c ∷ s) = let rest = trim_left s in if c == b'/' then rest else c ∷ s

unfoldable pub trim : Text → Text
trim s = reverse (trim_left (reverse (trim_left s)))

-- joinKey: the segments that are kept, and strings.Join(kept, "/").
unfoldable pub kept_segments : List Text → List Text
kept_segments [] = []
kept_segments (segment ∷ rest) =
    let kept = kept_segments rest in if is_nil (trim segment) then kept else trim segment ∷ kept

unfoldable pub join_slashes : List Text → Text
join_slashes [] = []
join_slashes (s ∷ []) = s
join_slashes (s ∷ t ∷ ss) = s ++ (b'/' ∷ join_slashes (t ∷ ss))

unfoldable pub join_key : List Text → Text
join_key segments = join_slashes (kept_segments segments)

pub record Layout : Type 0 where
  pub base_path : Text
  pub server_name : Text
  pub prefix : Text

-- Root
unfoldable pub root : Layout → Text
root layout = join_key (layout.base_path ∷ layout.server_name ∷ layout.prefix ∷ [])

-- SnapshotsPrefix
unfoldable pub snapshots_prefix : Layout → Text
snapshots_prefix layout = join_key (root layout ∷ codes "snapshots" ∷ []) ++ codes "/"

-- LatestKey
unfoldable pub latest_key : Layout → Text
latest_key layout = join_key (root layout ∷ codes "latest.json" ∷ [])

-- The last digits of a number, as many as asked.
unfoldable pub digits : ℕ → ℕ → Text
digits zero n = []
digits (suc width) n = digits width (n / 10) ++ ((48 + n % 10) ∷ [])

-- How many digits a number has; an int64 has 19 at most.
unfoldable pub width_of : ℕ → ℕ → ℕ
width_of zero n = 1
width_of (suc fuel) n = let rest = width_of fuel (n / 10) in if ltb n 10 then 1 else suc rest

-- fmt's %0*d at generationDigits
unfoldable pub padded : ℕ → Text
padded n = digits (max 10 (width_of 19 n)) n

abbrev pub first_bytes : ℕ → Text → Text
first_bytes zero s = []
first_bytes (suc n) [] = []
first_bytes (suc n) (c ∷ s) = c ∷ first_bytes n s

-- shortHash: what follows the colon, or the whole text without one.
unfoldable pub hash_part : Text → Text
hash_part checksum = elim (cut_at b':' checksum) [ none ↦ checksum | some (_, hex) ↦ hex ]

unfoldable pub short_hash : Text → Text
short_hash checksum =
    if ltb (length (hash_part checksum)) 8
    then codes "00000000"
    else first_bytes 8 (hash_part checksum)

-- SnapshotKey: the name of the object, below the prefix.
unfoldable pub snapshot_name : TimeFormat → ℕ → ℕ → Text → Text
snapshot_name time captured_at generation checksum =
    time.format captured_at
    ++ (codes "-g" ++ (padded generation ++ (codes "-" ++ (short_hash checksum ++ codes ".json"))))

unfoldable pub snapshot_key : TimeFormat → Layout → ℕ → ℕ → Text → Text
snapshot_key time layout captured_at generation checksum =
    snapshots_prefix layout ++ snapshot_name time captured_at generation checksum

-- The byte classes of snapshotKeyPattern
abbrev pub is_digit : ℕ → Bool
is_digit c = leb b'0' c && leb c b'9'

abbrev pub is_hex : ℕ → Bool
is_hex c = is_digit c || (leb b'a' c && leb c b'f')

-- As many bytes of a class as asked, and the rest.
unfoldable pub take_class : (ℕ → Bool) → ℕ → Text → Option (Text × Text)
take_class p zero s = some ([], s)
take_class p (suc n) [] = none
take_class p (suc n) (c ∷ s) =
    let rest = take_class p n s in if p c then bind_option rest (λ t. some (c ∷ t.0, t.1)) else none

-- The submatches of snapshotKeyPattern: the timestamp and the generation.
unfoldable pub match_key : Text → Option (Text × Text)
match_key s = bind_option (take_class is_digit 8 s) λ day.
    bind_option (cut_prefix day.1 (codes "T")) λ s1. bind_option (take_class is_digit 6 s1) λ clock.
      bind_option (cut_prefix clock.1 (codes "Z-g")) λ s2.
        bind_option (take_class is_digit 10 s2) λ generation.
          bind_option (cut_prefix generation.1 (codes "-")) λ s3.
            bind_option (take_class is_hex 8 s3) λ hash.
              bind_option (cut_prefix hash.1 (codes ".json")) λ s4.
                if is_nil s4
                then some (day.0 ++ (codes "T" ++ (clock.0 ++ codes "Z")), generation.0)
                else none

-- path.Base: what follows the last slash, trailing slashes aside. Of the empty text it is "." and of
-- slashes alone "/"; here it is empty, which is no key either.
unfoldable pub base_name : Text → Text
base_name key =
    let reversed = trim_left (reverse key) in
    elim (cut_at b'/' reversed) [ none ↦ reverse reversed | some (name, _) ↦ reverse name ]

-- strconv.ParseInt of ten digits
unfoldable pub number_from : ℕ → Text → ℕ
number_from n [] = n
number_from n (c ∷ s) = number_from (n * 10 + (c - 48)) s

-- ParseSnapshotKey
unfoldable pub parse_snapshot_key : TimeFormat → Text → Option (ℕ × ℕ)
parse_snapshot_key time key =
    bind_option (match_key (base_name key))
      λ m. bind_option (time.parse m.0) λ captured_at. some (captured_at, number_from 0 m.1)

-- strings.ToLower of a scheme, on ASCII
abbrev pub lower : ℕ → ℕ
lower c = if leb b'A' c && leb c b'Z' then c + 32 else c

-- Destination
pub record Destination : Type 0 where
  pub scheme : Text
  pub bucket : Text
  pub path : Text

pub data DestinationError : Type 0 where
  no_destination : DestinationError
  no_scheme unsupported_scheme no_bucket : Text → DestinationError

-- strings.Cut(s, "://")
unfoldable pub cut_scheme : Text → Option (Text × Text)
cut_scheme [] = none
cut_scheme (c ∷ s) = elim (cut_prefix (c ∷ s) (codes "://")) [
  | some rest ↦ some ([], rest)
  | none ↦ elim (cut_scheme s) [ none ↦ none | some (a, b) ↦ some (c ∷ a, b) ]
]

-- The bucket and the prefix of a trimmed remainder.
abbrev pub destination_of : Text → Text → Destination
destination_of scheme remainder = elim (cut_at b'/' remainder) [
  | none ↦ record { scheme = scheme; bucket = remainder; path = [] }
  | some (bucket, prefix) ↦ record { scheme = scheme; bucket = bucket; path = trim prefix }
]

-- ParseDestination
unfoldable pub parse_destination : Text → Result DestinationError Destination
parse_destination destination_path =
    if is_nil destination_path then err no_destination else elim (cut_scheme destination_path) [
      | none ↦ err (no_scheme destination_path)
      | some (raw, remainder) ↦
          let scheme = map lower raw in
          if not (contains (codes "s3" ∷ codes "azure" ∷ codes "gs" ∷ []) scheme)
          then err (unsupported_scheme scheme)
          else if is_nil (trim remainder)
          then err (no_bucket destination_path)
          else ok (destination_of scheme (trim remainder))
    ]
