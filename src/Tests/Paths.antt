-- ===== src/Tests/Paths.antt =====
-- Paths into a small tree.
use cnpg_i_chronicle.Common.{
  ◌≡◌, ◌≢◌, refl, none, some, List, [], ◌∷◌, Text, codes, text_eq, Elem, here, there, inl, inr,
  arith, ◌⊎◌, ◌↔◌, all, true,
}
use cnpg_i_chronicle.Json
use cnpg_i_chronicle.Json.{Value, number, string, object, Fields, end, field, distinct}
use cnpg_i_chronicle.PathUtil.{
  split_dots, split, join, get_from, get_segments, step_into, set_segments, prune, delete_segments,
  walk_leaves,
}
use cnpg_i_chronicle.PathUtil.Split.{dot_free, split_iff}
use cnpg_i_chronicle.PathUtil.Access.{Diverge, get-set, get-set-Diverge, set-failed}
use cnpg_i_chronicle.PathUtil.Removal.{get-delete, get-delete-Diverge}
use cnpg_i_chronicle.PathUtil.Leaves.{
  leaf_at, Apart, walk_leaves_sound, walk_leaves_complete, walk_leaves-Apart,
}

program : Unit {0}
unfolding text_eq Json.lookup Json.insert Json.remove distinct split_dots split join get_from
    get_segments step_into set_segments prune delete_segments walk_leaves
program = tt

abbrev tree : Fields
tree =
    field (codes "a") (object (field (codes "b") (number (codes "1")) end))
      (field (codes "c") (string (codes "x")) end)

abbrev a_b : List Text
a_b = codes "a" ∷ codes "b" ∷ []

abbrev a_d : List Text
a_d = codes "a" ∷ codes "d" ∷ []

b≢d : codes "b" ≢ codes "d"
b≢d e = absurd (ground (arith, e))

b_apart_from_d : Diverge a_b a_d
b_apart_from_d = inr (refl, inl b≢d)

split_iff_example :
    (split (codes ".a..b") ≡ [] ∷ codes "a" ∷ [] ∷ codes "b" ∷ [])
    ↔ ((codes ".a..b" ≡ []) × (([] ∷ codes "a" ∷ [] ∷ codes "b" ∷ []) ≡ []))
      ⊎ (codes ".a..b" ≢ [])
        × (([] ∷ codes "a" ∷ [] ∷ codes "b" ∷ []) ≢ [])
        × (join ([] ∷ codes "a" ∷ [] ∷ codes "b" ∷ []) ≡ codes ".a..b")
        × (all dot_free ([] ∷ codes "a" ∷ [] ∷ codes "b" ∷ []) ≡ true)
split_iff_example = split_iff (codes ".a..b") ([] ∷ codes "a" ∷ [] ∷ codes "b" ∷ [])

get-set_example :
    get_segments (set_segments tree a_d (number (codes "2"))).0 a_d ≡ some (number (codes "2"))
unfolding program
get-set_example = get-set tree a_d (number (codes "2")) refl

get-set-Diverge_example :
    get_segments (set_segments tree a_b (number (codes "2"))).0 a_d ≡ get_segments tree a_d
unfolding program
get-set-Diverge_example = get-set-Diverge tree a_b a_d (number (codes "2")) b_apart_from_d

set-failed_example : (set_segments tree (codes "c" ∷ codes "b" ∷ []) (number (codes "2"))).0 ≡ tree
unfolding program
set-failed_example = set-failed tree (codes "c" ∷ codes "b" ∷ []) (number (codes "2")) refl

get-delete_example : get_segments (delete_segments tree a_b) a_b ≡ none
unfolding program
get-delete_example = get-delete tree a_b [] (λ e. cc)

get-delete-Diverge_example : get_segments (delete_segments tree a_b) a_d ≡ get_segments tree a_d
unfolding program
get-delete-Diverge_example = get-delete-Diverge tree a_b a_d b_apart_from_d

walk_leaves_sound_example : get_segments tree (codes "c" ∷ []) ≡ some (string (codes "x"))
unfolding program
walk_leaves_sound_example =
    walk_leaves_sound tree (leaf_at (codes "c" ∷ []) (string (codes "x"))) refl (there (here refl))

walk_leaves_complete_example : Elem (leaf_at a_b (number (codes "1"))) (walk_leaves tree)
unfolding program
walk_leaves_complete_example = walk_leaves_complete tree a_b (number (codes "1")) refl refl

walk_leaves-Apart_example : Apart (walk_leaves tree)
unfolding program
walk_leaves-Apart_example = walk_leaves-Apart tree refl
