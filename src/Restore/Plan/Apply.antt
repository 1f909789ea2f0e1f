-- ===== src/Restore/Plan/Apply.antt =====
-- The Apply method of internal/restore/plan.go: what a Cluster holds after the changes were written, and what stays as it was.
use cnpg_i_chronicle.Common.{
  ◌≡◌, ◌∙◌, inl, inr, true, some, List, [], ◌∷◌, arith, Text, ok, Bool-cases, Elem, here, there,
  All, All-of_Elem, All-Elem,
}
use cnpg_i_chronicle.Json.{Fields}
use cnpg_i_chronicle.PathUtil.{get_segments, set_segments}
use cnpg_i_chronicle.PathUtil.Access.{Diverge, Diverge-sym, get-set, get-set-Diverge}
use cnpg_i_chronicle.Restore.Plan.{Change, apply_changes}
use cnpg_i_chronicle.Restore.Plan.Decisions.{ChangesApart}

apply_step :
    (change : Change) (rest : List Change) (cluster out : Fields)
    → apply_changes (change ∷ rest) cluster ≡ ok out
    → ((set_segments cluster change.segments change.value).1 ≡ true)
      × (apply_changes rest (set_segments cluster change.segments change.value).0 ≡ ok out)
unfolding apply_changes
apply_step change rest cluster out h =
    elim (Bool-cases (set_segments cluster change.segments change.value).1) [
      | inl e ↦ (e, ground arith)
      | inr e ↦ absurd (ground arith)
    ]

-- A path that parts from every change reads as before.
pub apply_changes-Diverge :
    (changes : List Change) (cluster out : Fields) (q : List Text)
    → apply_changes changes cluster ≡ ok out
    → All (λ (c : Change). Diverge c.segments q) changes
    → get_segments out q ≡ get_segments cluster q
apply_changes-Diverge [] cluster out q h d = unfold apply_changes in cc
apply_changes-Diverge (change ∷ rest) cluster out q h d =
    let (set, next) = apply_step change rest cluster out h in
    apply_changes-Diverge rest (set_segments cluster change.segments change.value).0 out q next d.1
    ∙ get-set-Diverge cluster change.segments q change.value d.0

-- Every change of a plan is read back, if no change stands in another's way.
pub apply_changes-read :
    (changes : List Change) (cluster out : Fields) (c : Change)
    → apply_changes changes cluster ≡ ok out
    → ChangesApart changes
    → Elem c changes
    → get_segments out c.segments ≡ some c.value
apply_changes-read (change ∷ rest) cluster out c h a (here e) =
    let (set, next) = apply_step change rest cluster out h in
    rw e (
      apply_changes-Diverge rest (set_segments cluster change.segments change.value).0 out
        change.segments next
        (All-of_Elem (λ (b : Change). Diverge b.segments change.segments) rest
          (λ b m.
            Diverge-sym change.segments b.segments
              (All-Elem (λ (b : Change). Diverge change.segments b.segments) a.0 m)))
      ∙ get-set cluster change.segments change.value set)
apply_changes-read (change ∷ rest) cluster out c h a (there m) =
    let (set, next) = apply_step change rest cluster out h in
    apply_changes-read rest (set_segments cluster change.segments change.value).0 out c next a.1 m
apply_changes-read [] cluster out c h a m = elim m [ ]
