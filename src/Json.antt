-- ===== src/Json.antt =====
-- Go's generic JSON values, `any` as encoding/json decodes it with UseNumber, and the operations
-- on `map[string]any`: an association list in some iteration order, one entry to a key.
use cnpg_i_chronicle.Common.{
  ◌≡◌, refl, Bool, true, false, Option, none, some, arith, if◌then◌else◌, Text, text_eq,
  text_eq_iff, text_eq_refl, ◌≢◌, ◌&&◌, not, is_some,
}

-- `number` holds the source digits of a json.Number.
mutual
  pub data Value : Type 0 where
    null : Value
    boolean : Bool → Value
    number : Text → Value
    string : Text → Value
    array : Items → Value
    object : Fields → Value

  pub data Items : Type 0 where
    nil : Items
    cons : Value → Items → Items

  pub data Fields : Type 0 where
    end : Fields
    field : Text → Value → Fields → Fields

-- m[k], with its presence
unfoldable pub lookup : Text → Fields → Option Value
lookup k end = none
lookup k (field j v m) = if text_eq j k then some v else lookup k m

-- m[k] = v
unfoldable pub insert : Text → Value → Fields → Fields
insert k v end = field k v end
insert k v (field j w m) = if text_eq j k then field j v m else field j w (insert k v m)

-- delete(m, k)
unfoldable pub remove : Text → Fields → Fields
remove k end = end
remove k (field j v m) = let rest = remove k m in if text_eq j k then rest else field j v rest

-- len(m) == 0
abbrev pub is_empty : Fields → Bool
is_empty end = true
is_empty (field k v m) = false

-- The type assertions v.(map[string]any), v.(string) and v.([]any).
abbrev pub as_map : Value → Option Fields
as_map (object m) = some m
as_map _ = none

abbrev pub as_string : Value → Option Text
as_string (string s) = some s
as_string _ = none

abbrev pub as_slice : Value → Option Items
as_slice (array xs) = some xs
as_slice _ = none

pub lookup-insert :
    (k j : Text) (v : Value) (m : Fields)
    → lookup j (insert k v m) ≡ (if text_eq k j then some v else lookup j m)
unfolding lookup insert
lookup-insert k j v end = refl
lookup-insert k j v (field i w m) =
    ground (arith, text_eq_iff k j, text_eq_iff i k, text_eq_iff i j, lookup-insert k j v m)

pub lookup-remove :
    (k j : Text) (m : Fields) → lookup j (remove k m) ≡ (if text_eq k j then none else lookup j m)
unfolding lookup remove
lookup-remove k j end = ground arith
lookup-remove k j (field i w m) =
    ground (arith, text_eq_iff k j, text_eq_iff i k, text_eq_iff i j, lookup-remove k j m)

pub lookup-insert_self : (k : Text) (v : Value) (m : Fields) → lookup k (insert k v m) ≡ some v
lookup-insert_self k v m = ground (arith, lookup-insert k k v m, text_eq_refl k)

pub lookup-insert_ne :
    (k j : Text) (v : Value) (m : Fields) → k ≢ j → lookup j (insert k v m) ≡ lookup j m
lookup-insert_ne k j v m h = ground (arith, lookup-insert k j v m, text_eq_iff k j)

pub lookup-remove_self : (k : Text) (m : Fields) → lookup k (remove k m) ≡ none
lookup-remove_self k m = ground (arith, lookup-remove k k m, text_eq_refl k)

pub lookup-remove_ne : (k j : Text) (m : Fields) → k ≢ j → lookup j (remove k m) ≡ lookup j m
lookup-remove_ne k j m h = ground (arith, lookup-remove k j m, text_eq_iff k j)

-- To write what is there changes nothing.
pub insert_same : (k : Text) (v : Value) (m : Fields) → lookup k m ≡ some v → insert k v m ≡ m
unfolding lookup insert
insert_same k v end h = absurd (ground arith)
insert_same k v (field j w m) h = ground (arith, insert_same k v m)

-- One entry to a key, at every depth that a path reaches.
unfoldable mutual
  pub distinct : Fields → Bool
  distinct end = true
  distinct (field k v m) = not (is_some (lookup k m)) && (distinct_value v && distinct m)

  pub distinct_value : Value → Bool
  distinct_value (object m) = distinct m
  distinct_value null = true
  distinct_value (boolean b) = true
  distinct_value (number n) = true
  distinct_value (string s) = true
  distinct_value (array xs) = true
