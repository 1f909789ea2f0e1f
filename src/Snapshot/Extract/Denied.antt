-- ===== src/Snapshot/Extract/Denied.antt =====
-- The denylist (internal/snapshot/denylist.go) over a capture (internal/snapshot/extract.go).
use mathlib.Core.Option
use cnpg_i_chronicle.Common.{
  ◌≡◌, ◌≢◌, refl, sym, ◌∙◌, ap, inl, inr, Bool, true, false, Option, none, some, List, [], ◌∷◌,
  ◌++◌, arith, Text, codes, text_eq, text_eq_iff, text_eq-false, if◌then◌else◌, subst, Bool-cases,
  ◌&&◌, and_true, all, all-Elem, Elem, here, there, ok, >>=-eq-ok, bind_option,
}
use cnpg_i_chronicle.Json.{Value, Items, object, array, Fields, end, lookup, as_map, as_slice}
use cnpg_i_chronicle.PathUtil.{split, split_dots, get_segments, get, set, delete}
use cnpg_i_chronicle.PathUtil.Access.{Diverge, get-cons, get-set-Diverge}
use cnpg_i_chronicle.PathUtil.Removal.{get-delete, get-delete-none}
use cnpg_i_chronicle.Snapshot.Denylist.{
  denied_paths, delete_each, apply_denylist, filter_gucs, filter_shared_preload_libraries,
}
use cnpg_i_chronicle.Snapshot.Types.{Content, Postgres}
use cnpg_i_chronicle.Cluster.{Cluster}
use cnpg_i_chronicle.Snapshot.Extract.{
  capture_groups, put_back, parameters_path, libraries_path, sanitize_parameters,
  sanitize_libraries, sanitize_postgres_configuration, captured_spec, capture_content,
}

-- A test for paths that part.
abbrev diverges : List Text → List Text → Bool
diverges (s ∷ p) (t ∷ q) = let rest = diverges p q in if text_eq s t then rest else true
diverges _ _ = false

diverges-Diverge : (p q below : List Text) → diverges p q ≡ true → Diverge q (p ++ below)
diverges-Diverge [] q below h = absurd (ground arith)
diverges-Diverge (s ∷ p) [] below h = absurd (ground arith)
diverges-Diverge (s ∷ p) (t ∷ q) below h = elim (Bool-cases (text_eq s t)) [
  | inl e ↦ inr (sym ((text_eq_iff s t).0 e), diverges-Diverge p q below (ground arith))
  | inr e ↦ inl (λ same. text_eq-false s t e (sym same))
]

-- Every denied path parts from the two that are filtered after the denylist.
denied-diverges :
    all
      (λ (d : Text).
        diverges (split d) (split parameters_path) && diverges (split d) (split libraries_path))
      denied_paths
    ≡ true
unfolding denied_paths split split_dots text_eq
denied-diverges = refl

-- Whatever is absent stays absent as further paths are deleted.
delete_each-none :
    (paths : List Text) (obj : Fields) (q : List Text)
    → get_segments obj q ≡ none
    → get_segments (delete_each paths obj) q ≡ none
unfolding delete_each delete
delete_each-none [] obj q h = h
delete_each-none (p ∷ rest) obj q h =
    delete_each-none rest (delete obj p) q (get-delete-none obj (split p) q h)

delete_each-Elem :
    {path : Text} (paths : List Text) (obj : Fields) (below : List Text)
    → Elem path paths
    → split path ≢ []
    → get_segments (delete_each paths obj) (split path ++ below) ≡ none
unfolding delete_each delete
delete_each-Elem [] obj below m ne = elim m [ ]
delete_each-Elem (p ∷ rest) obj below (here e) ne =
    delete_each-none rest (delete obj p) _
      (rw e (get-delete obj (split p) below (λ n. ne (ap split e ∙ n))))
delete_each-Elem (p ∷ rest) obj below (there m) ne = delete_each-Elem rest (delete obj p) below m ne

put_back-none :
    (path : Text) (obj : Fields) (v : Option Value) (q : List Text)
    → Diverge (split path) q
    → get_segments obj q ≡ none
    → get_segments (put_back path obj v) q ≡ none
unfolding put_back delete set
put_back-none path obj none q d h = get-delete-none obj (split path) q h
put_back-none path obj (some v) q d h = get-set-Diverge obj (split path) q v d ∙ h

-- Neither filter brings in anything that parts from its own path.
sanitize-none :
    (postgres : Postgres) (obj : Fields) (q : List Text)
    → Diverge (split parameters_path) q
    → Diverge (split libraries_path) q
    → get_segments obj q ≡ none
    → get_segments (sanitize_postgres_configuration postgres obj) q ≡ none
unfolding sanitize_postgres_configuration
sanitize-none postgres obj q d e h =
    libraries (sanitize_parameters postgres obj)
      (unfold sanitize_parameters in parameters (bind_option (get obj parameters_path) as_map))
  where
    parameters :
        (o : Option Fields)
        → get_segments
            (elim o [
              | none ↦ obj
              | some parameters ↦
                  put_back parameters_path obj
                    (Option.map object (filter_gucs postgres.fixed_parameters parameters))
            ])
            q
          ≡ none
    parameters none = h
    parameters (some ps) = put_back-none parameters_path obj _ q d h

    libraries :
        (obj' : Fields)
        → get_segments obj' q ≡ none
        → get_segments (sanitize_libraries postgres obj') q ≡ none
    libraries obj' k =
        unfold sanitize_libraries in
        at_libraries obj' k (bind_option (get obj' libraries_path) as_slice)
      where
        at_libraries :
            (obj' : Fields)
            → get_segments obj' q ≡ none
            → (o : Option Items)
            → get_segments
                (elim o [
                  | none ↦ obj'
                  | some libraries ↦ put_back libraries_path obj' (
                      Option.map array
                        (filter_shared_preload_libraries postgres.managed_extensions libraries))
                ])
                q
              ≡ none
        at_libraries obj' k none = k
        at_libraries obj' k (some ls) = put_back-none libraries_path obj' _ q e k

-- The denylist, then the filters: nothing is left at or beneath a denied path.
pub cleaned-none :
    (postgres : Postgres) (captured : Fields) (path : Text) (below : List Text)
    → Elem path denied_paths
    → get_segments
        (sanitize_postgres_configuration postgres (apply_denylist captured))
        (split path ++ below)
      ≡ none
unfolding apply_denylist
cleaned-none postgres captured path below m =
    let (p, l) = and_true _ _ (
      all-Elem
        (λ (d : Text).
          diverges (split d) (split parameters_path) && diverges (split d) (split libraries_path))
        path denied-diverges m) in
    sanitize-none postgres _ (split path ++ below)
      (diverges-Diverge (split path) (split parameters_path) below p)
      (diverges-Diverge (split path) (split libraries_path) below l)
      (delete_each-Elem denied_paths captured below m (nonempty (split path) p))
  where
    nonempty : (ws : List Text) → diverges ws (split parameters_path) ≡ true → ws ≢ []
    nonempty [] h = absurd (ground arith)
    nonempty (w ∷ ws) h = λ e. cc

get-captured_spec :
    (obj : Fields) (key : Text) (below : List Text)
    → get_segments obj (codes "spec" ∷ key ∷ below) ≡ none
    → get_segments (captured_spec obj) (key ∷ below) ≡ none
unfolding captured_spec
get-captured_spec obj key below h =
    from (bind_option (lookup (codes "spec") obj) as_map)
      (sym (get-cons obj (codes "spec") key below) ∙ h)
  where
    from :
        (o : Option Fields)
        → bind_option o (λ m. get_segments m (key ∷ below)) ≡ none
        → get_segments (elim o [ none ↦ end | some spec ↦ spec ]) (key ∷ below) ≡ none
    from none k = unfold get_segments lookup in refl
    from (some m) k = k

-- Whatever the Cluster holds and whichever groups are enabled, a capture that succeeds has nothing
-- at or beneath a denied path of the spec, such as spec.plugins, spec.backup or spec.bootstrap.
pub capture-denied :
    (postgres : Postgres) (cluster : Cluster) (source : Fields) (groups : List Text)
    (content : Content) (path key : Text) (below : List Text)
    → capture_content postgres cluster source groups ≡ ok content
    → Elem path denied_paths
    → split path ≡ codes "spec" ∷ key ∷ []
    → get_segments content.spec (key ∷ below) ≡ none
unfolding capture_content
capture-denied postgres cluster source groups content path key below h m e =
    let ((captured, metadata), _, f) = >>=-eq-ok (capture_groups source groups end false) _ h in
    subst (λ spec. get_segments spec (key ∷ below) ≡ none)
      (let spec_eq : captured_spec (cleaned captured) ≡ content.spec = ground arith in spec_eq)
      (get-captured_spec _ key below (
        subst (λ ws. get_segments (cleaned captured) (ws ++ below) ≡ none) e
          (cleaned-none postgres captured path below m)))
  where
    cleaned : Fields → Fields
    cleaned captured = sanitize_postgres_configuration postgres (apply_denylist captured)
