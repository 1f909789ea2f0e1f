-- ===== src/Snapshot/Denylist/Keys.antt =====
-- The keys of labels and annotations that internal/snapshot/denylist.go refuses
-- (IsDeniedMetadataKey).
use cnpg_i_chronicle.Common.{
  ◌≡◌, ◌⊎◌, inl, inr, ◌↔◌, Bool, true, false, not, ◌||◌, Option, none, some, ◌∷◌, ◌++◌, arith, Text,
  codes, text_eq, text_eq_iff, has_suffix, has_suffix_iff, cut_at, cut_at_iff, all, ◌==◌,
  Bool-cases, Option-cases, Elem,
}
use cnpg_i_chronicle.Snapshot.Denylist.{
  StringMap, denied_metadata_domains, denied_metadata_keys, is_denied_domain,
  is_denied_metadata_key, filter_metadata,
}
use cnpg_i_chronicle.Snapshot.Denylist.Filters.{Elem-filter_metadata}

-- The domain, or one beneath it.
abbrev pub InDomain : Text → Text → Type 0
InDomain owner domain = (domain ≡ owner) ⊎ ((sub : Text) × (domain ≡ sub ++ (codes "." ++ owner)))

abbrev pub OwnedDomain : Text → Type 0
OwnedDomain domain =
    InDomain (codes "cnpg.io") domain ⊎ InDomain (codes "chronicle.sharifmshaker.github.io") domain

-- What is before the first slash of the key is such a domain.
abbrev pub OwnedKey : Text → Type 0
OwnedKey key =
    (domain : Text) × (name : Text) × (key ≡ domain ++ (b'/' ∷ name))
    × (all (λ c. not (c == b'/')) domain ≡ true)
    × OwnedDomain domain

abbrev pub RefusedKey : Text → Type 0
RefusedKey key = (key ≡ codes "kubectl.kubernetes.io/last-applied-configuration") ⊎ OwnedKey key

in_domain : Text → Text → Bool
in_domain owner domain = text_eq domain owner || has_suffix domain (codes "." ++ owner)

in_domain_iff : (owner domain : Text) → (in_domain owner domain ≡ true) ↔ InDomain owner domain
unfolding in_domain
in_domain_iff owner domain =
    ground (arith, text_eq_iff domain owner, has_suffix_iff domain (codes "." ++ owner))

is_denied_domain_iff : (domain : Text) → (is_denied_domain domain ≡ true) ↔ OwnedDomain domain
unfolding is_denied_domain denied_metadata_domains in_domain
is_denied_domain_iff domain = ground (
  arith,
  in_domain_iff (codes "cnpg.io") domain,
  in_domain_iff (codes "chronicle.sharifmshaker.github.io") domain,
)

-- A key with a slash is judged by what is before the first one.
denied_prefix : Option (Text × Text) → Bool
denied_prefix none = false
denied_prefix (some (domain, _)) = is_denied_domain domain

denied_prefix_iff : (key : Text) → (denied_prefix (cut_at b'/' key) ≡ true) ↔ OwnedKey key
unfolding denied_prefix
denied_prefix_iff key = (
  λ h. elim (Option-cases (cut_at b'/' key)) [
    | inl e ↦ absurd (ground arith)
    | inr ((domain, name), e) ↦
        let (parts, free) = (cut_at_iff b'/' key domain name).0 e in
        (domain, name, parts, free, (is_denied_domain_iff domain).0 (ground arith))
  ],
  λ (domain, name, parts, free, owned).
      rw ((cut_at_iff b'/' key domain name).1 (parts, free))
        ((is_denied_domain_iff domain).1 owned),
)

is_denied_metadata_key_iff : (key : Text) → (is_denied_metadata_key key ≡ true) ↔ RefusedKey key
unfolding is_denied_metadata_key denied_metadata_keys denied_prefix
is_denied_metadata_key_iff key = ground (
  arith,
  text_eq_iff (codes "kubectl.kubernetes.io/last-applied-configuration") key,
  denied_prefix_iff key,
)

-- FilterMetadata keeps a label or an annotation just where it was given, and its key is neither
-- kubectl.kubernetes.io/last-applied-configuration nor one with a domain before its first slash
-- that is cnpg.io, the plugin's name, or a subdomain of one of these.
pub filter_metadata_iff :
    (entry : Text × Text) (m : StringMap)
    → Elem entry (filter_metadata m) ↔ Elem entry m × (¬ (RefusedKey entry.0))
filter_metadata_iff entry m = (
  λ h.
      let (k, free) = (Elem-filter_metadata entry m).0 h in
      (k, λ refused. absurd (ground (arith, (is_denied_metadata_key_iff entry.0).1 refused))),
  λ h. (Elem-filter_metadata entry m).1 (
    h.0,
    elim (Bool-cases (is_denied_metadata_key entry.0)) [
      | inl denied ↦ absurd (h.1 ((is_denied_metadata_key_iff entry.0).0 denied))
      | inr free ↦ free
    ],
  ),
)
