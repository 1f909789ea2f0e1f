-- ===== src/Snapshot/Extract/Described.antt =====
-- What the snapshot that Extract (internal/snapshot/extract.go) returns says of the Cluster's labels
-- and annotations, and of its own rules.
use cnpg_i_chronicle.Common.{
  ℕ, ◌≡◌, refl, sym, ◌∙◌, ap, subst, inl, inr, Bool, true, false, not, ◌||◌, Option, none, some,
  List, [], ◌∷◌, arith, if◌then◌else◌, Text, text_eq, text_eq_iff, contains, keep, is_nil, Result,
  ok, >>=-eq-ok, Bool-cases, Option-cases,
}
use cnpg_i_chronicle.Json.{Fields, end}
use cnpg_i_chronicle.Cluster.{Cluster}
use cnpg_i_chronicle.Snapshot.Groups.{
  Group, metadata_group_name, groups, find_group, lookup_group, effective_group_names,
  default_group_names,
}
use cnpg_i_chronicle.Snapshot.Denylist.{
  StringMap, filter_metadata, is_denied_metadata_key, apply_denylist,
}
use cnpg_i_chronicle.Snapshot.Types.{
  Content, Snapshot, Encoding, Postgres, checksum, metadata_fingerprint, capture_rules_digest,
}
use cnpg_i_chronicle.Snapshot.Extract.{
  ExtractOptions, ExtractError, enabled_groups, capture_paths, capture_groups, capture_content,
  captured_spec, sanitize_postgres_configuration, snapshot_of, sealed, extract_from,
  extract_cluster, extract,
}

find_group-name :
    (name : Text) (all : List Group) (group : Group)
    → find_group name all ≡ some group
    → group.name ≡ name
unfolding find_group
find_group-name name [] group h = cc
find_group-name name (g ∷ rest) group h = elim (Bool-cases (text_eq g.name name)) [
  | inl e ↦ ap (λ (x : Group). x.name) (found (ground arith)) ∙ (text_eq_iff g.name name).0 e
  | inr e ↦ find_group-name name rest group (ground arith)
]
  where
    found : ◌≡◌ {A = Option Group} (some g) (some group) → group ≡ g
    found e = ground arith

keep-keep : (p : Text × Text → Bool) (m : StringMap) → keep p (keep p m) ≡ keep p m
keep-keep p [] = refl
keep-keep p (x ∷ m) = elim (Bool-cases (p x)) [
  | inl e ↦ rw (e, e, keep-keep p m)
  | inr e ↦ rw (e, keep-keep p m)
]

-- To filter twice is to filter once.
filter_metadata-filter_metadata :
    (m : StringMap) → filter_metadata (filter_metadata m) ≡ filter_metadata m
unfolding filter_metadata
filter_metadata-filter_metadata m =
    keep-keep (λ (e : Text × Text). not (is_denied_metadata_key e.0)) m

-- The Metadata group was enabled just where its name is among the groups.
capture_groups-contains :
    (source : Fields) (names : List Text) (captured captured' : Fields) (enabled enabled' : Bool)
    → capture_groups source names captured enabled ≡ ok (captured', enabled')
    → enabled' ≡ (contains names metadata_group_name || enabled)
unfolding capture_groups lookup_group
capture_groups-contains source [] captured captured' enabled enabled' h = ground arith
capture_groups-contains source (name ∷ rest) captured captured' enabled enabled' h =
    elim (Option-cases (lookup_group name)) [
      | inl e ↦ absurd (ground arith)
      | inr (group, e) ↦
          let (c, _, f) =
            >>=-eq-ok (capture_paths group.name source group.paths captured)
              (λ (c : Fields).
                capture_groups source rest c (text_eq group.name metadata_group_name || enabled))
              (ground arith) in
          let same = find_group-name name groups group e in
          capture_groups-contains source rest c captured'
            (text_eq group.name metadata_group_name || enabled) enabled' f
          ∙ rw same
              (flip (contains rest metadata_group_name) (text_eq name metadata_group_name) enabled)
    ]
  where
    flip : (a b c : Bool) → (a || (b || c)) ≡ ((b || a) || c)
    flip a b c = ground arith

-- What a capture keeps of a Cluster's labels or annotations.
abbrev kept_of : List Text → StringMap → StringMap
kept_of names m = if contains names metadata_group_name then filter_metadata m else []

-- The labels and annotations of a capture.
record Described (names : List Text) (cluster : Cluster) (content : Content) : Type 0 where
  of_labels : content.labels ≡ kept_of names cluster.labels
  of_annotations : content.annotations ≡ kept_of names cluster.annotations

or_false : (b : Bool) → (b || false) ≡ b
or_false b = ground arith

capture_content-Described :
    (postgres : Postgres) (cluster : Cluster) (source : Fields) (names : List Text)
    (content : Content)
    → capture_content postgres cluster source names ≡ ok content
    → Described names cluster content
unfolding capture_content
capture_content-Described postgres cluster source names content h =
    let ((captured, enabled), e, f) = >>=-eq-ok (capture_groups source names end false) _ h in
    let same : enabled ≡ contains names metadata_group_name =
      capture_groups-contains source names end captured false enabled e
      ∙ or_false (contains names metadata_group_name) in
    record {
      of_labels =
          sym (ap (λ (r : Content). r.labels) (found (content_of captured enabled) f)) ∙ rw same;
      of_annotations =
          sym (ap (λ (r : Content). r.annotations) (found (content_of captured enabled) f))
          ∙ rw same;
    }
  where
    content_of : Fields → Bool → Content
    content_of captured enabled = record {
      spec = captured_spec (sanitize_postgres_configuration postgres (apply_denylist captured));
      labels = if enabled then filter_metadata cluster.labels else [];
      annotations = if enabled then filter_metadata cluster.annotations else [];
    }

    found :
        (made : Content)
        → ◌≡◌ {A = Result ExtractError Content} (ok made) (ok content)
        → made ≡ content
    found made e = ground arith

filtered_again :
    (b : Bool) (m : StringMap)
    → filter_metadata (if b then (if b then filter_metadata m else []) else [])
      ≡ filter_metadata (if b then m else [])
filtered_again true m = filter_metadata-filter_metadata m
filtered_again false m = refl

effective_enabled :
    (options : ExtractOptions) → enabled_groups options ≡ effective_group_names options.groups
unfolding enabled_groups effective_group_names
effective_enabled options = from options.groups
  where
    from :
        (names : List Text)
        → (if is_nil names then default_group_names else names) ≡ effective_group_names names
    from [] = refl
    from (name ∷ rest) = refl

module _ (encoding : Encoding) (postgres : Postgres) (clock : ℕ) where
  sealed-same :
      (cluster : Cluster) (options : ExtractOptions) (content : Content) (o : Option Text)
      (snap : Snapshot)
      → sealed encoding postgres clock cluster options content o ≡ ok snap
      → (sum : Text) × (snapshot_of encoding postgres clock cluster options content sum ≡ snap)
  unfolding sealed
  sealed-same cluster options content none snap h = cc
  sealed-same cluster options content (some sum) snap h = (sum, ground arith)

  extract-same :
      (cluster : Cluster) (options : ExtractOptions) (snap : Snapshot)
      → extract encoding postgres clock (some cluster) options ≡ ok snap
      → (content : Content) × (sum : Text) × Described (enabled_groups options) cluster content
        × (snapshot_of encoding postgres clock cluster options content sum ≡ snap)
  unfolding extract extract_cluster extract_from
  extract-same cluster options snap h = elim (Option-cases cluster.to_map) [
    | inl e ↦ absurd (ground arith)
    | inr (source, e) ↦
        let (content, c, f) =
          >>=-eq-ok (capture_content postgres cluster source (enabled_groups options))
            (λ (content : Content).
              sealed encoding postgres clock cluster options content (checksum encoding content))
            {result = snap} (ground arith) in
        let (sum, s) = sealed-same cluster options content (checksum encoding content) snap f in
        (
          content,
          sum,
          capture_content-Described postgres cluster source (enabled_groups options) content c,
          s,
        )
  ]

  fingerprint-snapshot_of :
      (cluster : Cluster) (options : ExtractOptions) (content : Content) (sum : Text)
      → Described (enabled_groups options) cluster content
      → metadata_fingerprint encoding content.labels content.annotations
          (enabled_groups options)
          (capture_rules_digest encoding postgres (enabled_groups options))
        ≡ metadata_fingerprint encoding cluster.labels cluster.annotations
            (enabled_groups options)
            (capture_rules_digest encoding postgres (enabled_groups options))
  unfolding metadata_fingerprint
  fingerprint-snapshot_of cluster options content sum d =
      let kept = contains (enabled_groups options) metadata_group_name in
      rw (
        d.of_labels,
        d.of_annotations,
        filtered_again kept cluster.labels,
        filtered_again kept cluster.annotations,
      )

  -- The labels, annotations, groups and rules of the snapshot that Extract returns have the
  -- fingerprint of the Cluster's own labels and annotations, under the groups that are in effect.
  pub extract-metadata_fingerprint :
      (cluster : Cluster) (options : ExtractOptions) (snap : Snapshot)
      → extract encoding postgres clock (some cluster) options ≡ ok snap
      → metadata_fingerprint encoding snap.labels snap.annotations snap.groups snap.capture_rules
        ≡ metadata_fingerprint encoding cluster.labels cluster.annotations
            (effective_group_names options.groups)
            (capture_rules_digest encoding postgres (effective_group_names options.groups))
  extract-metadata_fingerprint cluster options snap h =
      let (content, sum, d, same) = extract-same cluster options snap h in
      subst
        (λ (x : Snapshot).
          metadata_fingerprint encoding x.labels x.annotations x.groups x.capture_rules
          ≡ metadata_fingerprint encoding cluster.labels cluster.annotations
              (effective_group_names options.groups)
              (capture_rules_digest encoding postgres (effective_group_names options.groups)))
        same
        (unfold snapshot_of in
          rw (← effective_enabled options) (fingerprint-snapshot_of cluster options content sum d))

  -- The snapshot that Extract returns is of the Cluster's generation.
  pub extract-generation :
      (cluster : Cluster) (options : ExtractOptions) (snap : Snapshot)
      → extract encoding postgres clock (some cluster) options ≡ ok snap
      → snap.generation ≡ cluster.generation
  unfolding snapshot_of
  extract-generation cluster options snap h =
      let (content, sum, d, same) = extract-same cluster options snap h in
      sym (ap (λ (x : Snapshot). x.generation) same)
