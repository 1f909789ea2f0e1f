-- ===== src/Snapshot/Denylist/Filters.antt =====
-- What the filters of internal/snapshot/denylist.go keep.
use cnpg_i_chronicle.Common.{
  ◌≡◌, refl, sym, ◌∙◌, ap, subst, ◌⊎◌, inl, inr, ◌↔◌, Bool, true, false, not, Option, none, some,
  List, [], ◌∷◌, arith, if◌then◌else◌, Text, text_eq, text_eq_iff, contains, keep, Elem, here,
  there, Bool-cases,
}
use cnpg_i_chronicle.Json
use cnpg_i_chronicle.Json.{Value, Fields, end, field}
use cnpg_i_chronicle.Snapshot.Denylist.{
  StringMap, is_denied_metadata_key, filter_metadata, keep_free, filter_gucs,
}

-- A read of the parameters that FilterGUCs returns; nil reads as the empty map.
abbrev pub filtered_lookup : Text → Option Fields → Option Value
filtered_lookup key none = none
filtered_lookup key (some m) = Json.lookup key m

lookup-keep_free :
    (fixed : List Text) (m : Fields) (key : Text)
    → Json.lookup key (keep_free fixed m) ≡ (if contains fixed key then none else Json.lookup key m)
unfolding keep_free Json.lookup
lookup-keep_free fixed end key = ground arith
lookup-keep_free fixed (field k v m) key = elim (Bool-cases (text_eq k key)) [
  | inl e ↦ elim (Bool-cases (contains fixed k)) [
    | inl f ↦ rw (f, lookup-keep_free fixed m key, e, at_key k key e true f)
    | inr f ↦ rw (f, e, at_key k key e false f)
  ]
  | inr e ↦ elim (Bool-cases (contains fixed k)) [
    | inl f ↦ rw (f, e) (lookup-keep_free fixed m key)
    | inr f ↦ rw (f, e) (lookup-keep_free fixed m key)
  ]
]
  where
    at_key :
        (k key : Text)
        → text_eq k key ≡ true
        → (b : Bool) → contains fixed k ≡ b
        → contains fixed key ≡ b
    at_key k key e b f = subst (λ x. contains fixed x ≡ b) ((text_eq_iff k key).0 e) f

filtered_lookup-filter_gucs :
    (fixed : List Text) (m : Fields) (key : Text)
    → filtered_lookup key (filter_gucs fixed m) ≡ Json.lookup key (keep_free fixed m)
unfolding filter_gucs Json.lookup
filtered_lookup-filter_gucs fixed m key = from (keep_free fixed m)
  where
    from :
        (out : Fields)
        → filtered_lookup key (if Json.is_empty out then none else some out) ≡ Json.lookup key out
    from end = refl
    from (field k v out) = refl

-- FilterGUCs drops the parameters that CloudNativePG fixes and keeps every other with its value.
pub lookup-filter_gucs :
    (fixed : List Text) (m : Fields) (key : Text)
    → filtered_lookup key (filter_gucs fixed m)
      ≡ (if contains fixed key then none else Json.lookup key m)
lookup-filter_gucs fixed m key =
    filtered_lookup-filter_gucs fixed m key ∙ lookup-keep_free fixed m key

Elem-keep :
    (p : Text × Text → Bool) (e : Text × Text) (m : StringMap)
    → Elem e (keep p m)
    → Elem e m × (p e ≡ true)
Elem-keep p e [] h = elim h [ ]
Elem-keep p e (x ∷ m) h = from (Bool-cases (p x)) (λ k. Elem-keep p e m k)
  where
    from :
        (p x ≡ true) ⊎ (p x ≡ false)
        → (Elem e (keep p m) → Elem e m × (p e ≡ true))
        → Elem e (x ∷ m) × (p e ≡ true)
    from (inr f) rest = let (k, q) = rest (subst (Elem e) (rw f refl) h) in (there k, q)
    from (inl t) rest = at (subst (Elem e) (rw t refl) h)
      where
        at : Elem e (x ∷ keep p m) → Elem e (x ∷ m) × (p e ≡ true)
        at (here q) = (here q, subst (λ y. p y ≡ true) (sym q) t)
        at (there k) = let (i, q) = rest k in (there i, q)

keep-Elem :
    (p : Text × Text → Bool) (e : Text × Text) (m : StringMap)
    → Elem e m
    → p e ≡ true
    → Elem e (keep p m)
keep-Elem p e [] h t = elim h [ ]
keep-Elem p e (x ∷ m) (here q) t = rw (ap p (sym q) ∙ t) (here q)
keep-Elem p e (x ∷ m) (there k) t = elim (Bool-cases (p x)) [
  | inl a ↦ rw a (there (keep-Elem p e m k t))
  | inr a ↦ rw a (keep-Elem p e m k t)
]

pub Elem-filter_metadata :
    (entry : Text × Text) (m : StringMap)
    → Elem entry (filter_metadata m) ↔ Elem entry m × (is_denied_metadata_key entry.0 ≡ false)
unfolding filter_metadata
Elem-filter_metadata entry m = (
  λ h.
      let (k, q) = Elem-keep (λ (e : Text × Text). not (is_denied_metadata_key e.0)) entry m h in
      (k, of_not (is_denied_metadata_key entry.0) q),
  λ h. keep-Elem (λ (e : Text × Text). not (is_denied_metadata_key e.0)) entry m h.0 (rw h.1),
)
  where
    of_not : (b : Bool) → not b ≡ true → b ≡ false
    of_not b n = ground arith
