-- ===== src/PathUtil.antt =====
-- internal/pathutil/path.go: dotted-path access over generic JSON. A path is split into segments;
-- a map that the Go code mutates in place is returned.
pub mod Split
pub mod Access
pub mod Removal
pub mod Leaves
use cnpg_i_chronicle.Common.{
  ℕ, ◌≡◌, refl, Bool, true, false, Option, none, some, List, [], ◌∷◌, ◌++◌, if◌then◌else◌, ◌==◌,
  Text, bind_option,
}
use cnpg_i_chronicle.Json.{
  Value, null, boolean, number, string, array, object, Fields, end, field, lookup, insert, remove,
  is_empty, as_map,
}

-- strings.Split(path, ".")
push_first : ℕ → List Text → List Text
push_first c [] = (c ∷ []) ∷ []
push_first c (w ∷ ws) = (c ∷ w) ∷ ws

unfoldable pub split_dots : Text → List Text
unfolding push_first
split_dots [] = [] ∷ []
split_dots (c ∷ s) = let rest = split_dots s in if c == b'.' then [] ∷ rest else push_first c rest

unfoldable pub split : Text → List Text
unfolding split_dots
split [] = []
split (c ∷ s) = split_dots (c ∷ s)

-- strings.Join(segments, ".")
unfoldable pub join : List Text → Text
join [] = []
join (s ∷ []) = s
join (s ∷ t ∷ ss) = s ++ (b'.' ∷ join (t ∷ ss))

-- The loop of GetSegments, from a value on.
unfoldable pub get_from : Value → List Text → Option Value
get_from v [] = some v
get_from v (s ∷ ss) = bind_option (as_map v) (λ m. bind_option (lookup s m) (λ w. get_from w ss))

unfoldable pub get_segments : Fields → List Text → Option Value
unfolding get_from
get_segments obj [] = none
get_segments obj (s ∷ ss) = get_from (object obj) (s ∷ ss)

-- Get
unfoldable pub get : Fields → Text → Option Value
unfolding get_segments split
get obj path = get_segments obj (split path)

-- What SetSegments goes on in at an intermediate segment: a map that is missing or null is
-- created, and another value blocks the path.
unfoldable pub step_into : Option Value → Option Fields
step_into none = some end
step_into (some null) = some end
step_into (some (object m)) = some m
step_into (some _) = none

-- SetSegments: the map afterwards, and the result.
unfoldable pub set_segments : Fields → List Text → Value → Fields × Bool
unfolding step_into
set_segments obj [] v = (obj, false)
set_segments obj (s ∷ []) v = (insert s v obj, true)
set_segments obj (s ∷ t ∷ ss) v = elim (step_into (lookup s obj)) [
  | none ↦ (obj, false)
  | some m ↦ let (m', done) = set_segments m (t ∷ ss) v in (insert s (object m') obj, done)
]

-- Set
unfoldable pub set : Fields → Text → Value → Fields × Bool
unfolding set_segments split
set obj path v = set_segments obj (split path) v

-- deleteSegments, after the recursive call: a map left empty is pruned.
unfoldable pub prune : Text → Fields → Fields → Fields
prune s next obj = if is_empty next then remove s obj else insert s (object next) obj

unfoldable pub delete_segments : Fields → List Text → Fields
unfolding prune
delete_segments obj [] = obj
delete_segments obj (s ∷ []) = remove s obj
delete_segments obj (s ∷ t ∷ ss) = elim (bind_option (lookup s obj) as_map) [
  | none ↦ obj
  | some next ↦ prune s (delete_segments next (t ∷ ss)) obj
]

-- Delete
unfoldable pub delete : Fields → Text → Fields
unfolding delete_segments split
delete obj path = delete_segments obj (split path)

pub record Leaf : Type 0 where
  pub segments : List Text
  pub value : Value

-- Leaf.Path
unfoldable pub leaf_path : Leaf → Text
unfolding join
leaf_path leaf = join leaf.segments

-- walkLeaves: a nested map that is not empty is walked, and every other value is a leaf.
unfoldable mutual
  pub walk_fields : Fields → List Text → List Leaf
  walk_fields end prefix = []
  walk_fields (field key value rest) prefix =
      walk_value value (prefix ++ (key ∷ [])) ++ walk_fields rest prefix

  pub walk_value : Value → List Text → List Leaf
  walk_value (object (field k v m)) segments = walk_fields (field k v m) segments
  walk_value (object end) segments = record { segments = segments; value = object end } ∷ []
  walk_value null segments = record { segments = segments; value = null } ∷ []
  walk_value (boolean b) segments = record { segments = segments; value = boolean b } ∷ []
  walk_value (number n) segments = record { segments = segments; value = number n } ∷ []
  walk_value (string s) segments = record { segments = segments; value = string s } ∷ []
  walk_value (array xs) segments = record { segments = segments; value = array xs } ∷ []

-- WalkLeaves
unfoldable pub walk_leaves : Fields → List Leaf
unfolding walk_fields walk_value
walk_leaves obj = walk_fields obj []
