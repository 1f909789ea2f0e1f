-- ===== src/Restore/Plan/Decisions.antt =====
-- What the decisions of BuildPlan say of the leaves they were made for.
use cnpg_i_chronicle.Common.{
  ◌≡◌, refl, sym, subst, ◌∙◌, ap, inl, inr, false, ◌||◌, none, List, [], ◌∷◌, arith, Result, ok,
  >>=-eq-ok, Bool-cases, Option-cases, Elem, here, there, All, AllPairs, All-of_Elem, All-Elem,
  or_false,
}
use cnpg_i_chronicle.PathUtil.{Leaf, leaf_path}
use cnpg_i_chronicle.PathUtil.Access.{Diverge}
use cnpg_i_chronicle.PathUtil.Leaves.{Apart}
use cnpg_i_chronicle.Snapshot.Denylist.{is_denied_path}
use cnpg_i_chronicle.Snapshot.PathCheck.{GoType}
use cnpg_i_chronicle.Restore.Skip.{CompiledSkip, skips}
use cnpg_i_chronicle.Restore.Transform.{Expressions, TransformSet}
use cnpg_i_chronicle.Restore.Plan.{
  Change, Decision, refused, skipped, changed, PlanError, is_denied_metadata_leaf, changes_of,
  decide_value, decide, decide_all,
}

-- A change that the denylist and the skip rules let through, for a leaf.
pub record Allowed (skip_set : List CompiledSkip) (leaf : Leaf) (change : Change) : Type 0 where
  pub path : change.path ≡ leaf_path leaf
  pub segments : change.segments ≡ leaf.segments
  pub not_denied : is_denied_path (leaf_path leaf) ≡ false
  pub not_denied_key : is_denied_metadata_leaf leaf.segments ≡ false
  pub not_skipped : skips skip_set (leaf_path leaf) ≡ none

-- No change's path is a prefix of another's.
abbrev pub ChangesApart : List Change → Type 0
ChangesApart = AllPairs (λ (a b : Change). Diverge a.segments b.segments)

module _ {Program : Type 0} (expressions : Expressions Program) (cluster_spec : GoType)
    (skip_set : List CompiledSkip) (transform_set : TransformSet Program) where
  abbrev decision_of : Leaf → Result PlanError Decision
  decision_of = decide expressions cluster_spec skip_set transform_set

  abbrev decisions_of : List Leaf → Result PlanError (List Decision)
  decisions_of = decide_all expressions cluster_spec skip_set transform_set

  value_change :
      (leaf : Leaf) (change : Change)
      → decide_value expressions cluster_spec skip_set transform_set leaf ≡ ok (changed change)
      → (change.path ≡ leaf_path leaf) × (change.segments ≡ leaf.segments)
  unfolding decide_value
  value_change leaf change h = ground arith

  pub decide-Allowed :
      (leaf : Leaf) (change : Change)
      → decision_of leaf ≡ ok (changed change)
      → Allowed skip_set leaf change
  unfolding decide
  decide-Allowed leaf change h =
      elim (Bool-cases (is_denied_path (leaf_path leaf) || is_denied_metadata_leaf leaf.segments)) [
        | inl denied ↦ absurd (ground arith)
        | inr allowed ↦ elim (Option-cases (skips skip_set (leaf_path leaf))) [
          | inl none' ↦
              let parts = value_change leaf change (ground arith) in
              record {
                path = parts.0;
                segments = parts.1;
                not_denied = (or_false _ _ allowed).0;
                not_denied_key = (or_false _ _ allowed).1;
                not_skipped = none';
              }
          | inr (reason, e) ↦ absurd (ground arith)
        ]
      ]

  -- The decisions are made leaf by leaf.
  pub data Decided : List Leaf → List Decision → Type 0 where
    no_leaf : Decided [] []
    next_leaf :
        {leaf : Leaf} {leaves : List Leaf} {d : Decision} {ds : List Decision}
        → decision_of leaf ≡ ok d
        → Decided leaves ds
        → Decided (leaf ∷ leaves) (d ∷ ds)

  pub decide_all-Decided :
      (leaves : List Leaf) (ds : List Decision) → decisions_of leaves ≡ ok ds → Decided leaves ds
  unfolding decide_all
  decide_all-Decided [] ds h = subst (Decided []) (nil_eq ds h) no_leaf
    where
      nil_eq : (ds : List Decision) → decisions_of [] ≡ ok ds → [] ≡ ds
      nil_eq ds h = cc
  decide_all-Decided (leaf ∷ leaves) ds h =
      let (d, e, h') = >>=-eq-ok (decision_of leaf) _ h in
      let (rest, e', h'') = >>=-eq-ok (decisions_of leaves) _ h' in
      let eq : d ∷ rest ≡ ds = cc in
      subst (Decided (leaf ∷ leaves)) eq (next_leaf e (decide_all-Decided leaves rest e'))

  -- Every change comes from a leaf.
  pub change_leaf :
      (change : Change) {leaves : List Leaf} {ds : List Decision}
      → Decided leaves ds
      → Elem change (changes_of ds)
      → (leaf : Leaf) × Elem leaf leaves × (decision_of leaf ≡ ok (changed change))
  change_leaf change no_leaf m = elim m [ ]
  change_leaf change (next_leaf {leaf} {d = changed c} e r) (here same) =
      (leaf, here refl, e ∙ ap (λ x. ok (changed x)) (sym same))
  change_leaf change (next_leaf {d = changed c} e r) (there m) =
      let (l, at, h) = change_leaf change r m in (l, there at, h)
  change_leaf change (next_leaf {d = refused p} e r) m =
      let (l, at, h) = change_leaf change r m in (l, there at, h)
  change_leaf change (next_leaf {d = skipped p q} e r) m =
      let (l, at, h) = change_leaf change r m in (l, there at, h)

  -- Every leaf has a decision.
  pub leaf_decision :
      (leaf : Leaf) {leaves : List Leaf} {ds : List Decision}
      → Decided leaves ds
      → Elem leaf leaves
      → (d : Decision) × (decision_of leaf ≡ ok d)
  leaf_decision leaf (next_leaf {d = d} e r) (here same) = (d, ap decision_of same ∙ e)
  leaf_decision leaf (next_leaf e r) (there m) = leaf_decision leaf r m
  leaf_decision leaf no_leaf m = elim m [ ]

  -- Every leaf that a change is decided for is changed.
  pub leaf_change :
      (leaf : Leaf) (change : Change) {leaves : List Leaf} {ds : List Decision}
      → Decided leaves ds
      → Elem leaf leaves
      → decision_of leaf ≡ ok (changed change)
      → Elem change (changes_of ds)
  leaf_change leaf change (next_leaf {leaf = l} {d = changed c} e r) (here same) h =
      here (ground (arith, ap decision_of same))
  leaf_change leaf change (next_leaf {leaf = l} {d = refused p} e r) (here same) h =
      absurd (ground (arith, ap decision_of same))
  leaf_change leaf change (next_leaf {leaf = l} {d = skipped p q} e r) (here same) h =
      absurd (ground (arith, ap decision_of same))
  leaf_change leaf change (next_leaf {d = changed c} e r) (there m) h =
      there (leaf_change leaf change r m h)
  leaf_change leaf change (next_leaf {d = refused p} e r) (there m) h =
      leaf_change leaf change r m h
  leaf_change leaf change (next_leaf {d = skipped p q} e r) (there m) h =
      leaf_change leaf change r m h
  leaf_change leaf change no_leaf m h = elim m [ ]

  beside :
      (leaf : Leaf) (c b : Change) (leaves : List Leaf) (ds : List Decision)
      → decision_of leaf ≡ ok (changed c)
      → Decided leaves ds
      → All (λ (l : Leaf). Diverge leaf.segments l.segments) leaves
      → Elem b (changes_of ds)
      → Diverge c.segments b.segments
  beside leaf c b leaves ds e r apart m =
      let (l, at, h) = change_leaf b r m in
      rw ((decide-Allowed leaf c e).segments, (decide-Allowed l b h).segments)
        (All-Elem (λ (l : Leaf). Diverge leaf.segments l.segments) apart at)

  -- The changes of leaves that keep apart keep apart.
  pub changes-Apart :
      {leaves : List Leaf} {ds : List Decision}
      → Decided leaves ds
      → Apart leaves
      → ChangesApart (changes_of ds)
  changes-Apart no_leaf h = tt
  changes-Apart (next_leaf {leaf} {leaves} {d = changed c} {ds} e r) h = (
    All-of_Elem (λ (b : Change). Diverge c.segments b.segments) (changes_of ds)
        (λ b m. beside leaf c b leaves ds e r h.0 m),
    changes-Apart r h.1,
  )
  changes-Apart (next_leaf {d = refused p} e r) h = changes-Apart r h.1
  changes-Apart (next_leaf {d = skipped p q} e r) h = changes-Apart r h.1
