-- ===== src/Controller/Retention/Swept.antt =====
-- What the sweep of internal/controller/configstore_controller.go leaves in a store.
use cnpg_i_chronicle.Common.{
  ℕ, ◌≤◌, ◌≡◌, refl, ◌∙◌, subst, inl, inr, false, some, List, [], ◌∷◌, arith, Text, text_eq,
  contains, Result, ok, err, Bool-cases, Option-cases, Elem, here, there,
}
use cnpg_i_chronicle.Common.Sort.{sort_by}
use cnpg_i_chronicle.Api.{ConfigStore}
use cnpg_i_chronicle.Snapshot.Types.{Encoding}
use cnpg_i_chronicle.Store.Layout.{TimeFormat}
use cnpg_i_chronicle.Store.Refs.{SnapshotRef}
use cnpg_i_chronicle.Store.Retention.{key_less, plan_retention}
use cnpg_i_chronicle.Store.Retention.Kept.{DistinctKeys, surviving, plan_retention-at_or_before}
use cnpg_i_chronicle.Store.Resolver.{Resolved, layout_for}
use cnpg_i_chronicle.Store.Snapshots.{StoreError, Backend, SnapshotCodec, list_refs}
use cnpg_i_chronicle.Restore.Select.{at_or_before}
use cnpg_i_chronicle.Controller.Retention.{delete_keys, prune_superseded}

-- A ref that a moment finds stands in the list.
at_or_before-Elem :
    (moment : ℕ) (refs : List SnapshotRef) (ref : SnapshotRef)
    → at_or_before moment refs ≡ some ref
    → Elem ref refs
unfolding at_or_before
at_or_before-Elem moment [] ref h = cc
at_or_before-Elem moment (r ∷ rest) ref h = elim (Option-cases (at_or_before moment rest)) [
  | inl e ↦ here (ground arith)
  | inr (later, e) ↦ there (at_or_before-Elem moment rest ref (ground arith))
]

-- A ref that survives is not deleted.
surviving-contains :
    (keys : List Text) (refs : List SnapshotRef) (ref : SnapshotRef)
    → Elem ref (surviving keys refs)
    → contains keys ref.key ≡ false
surviving-contains keys [] ref m = elim m [ ]
surviving-contains keys (r ∷ rest) ref m = elim (Bool-cases (contains keys r.key)) [
  | inl e ↦ surviving-contains keys rest ref (subst (Elem ref) (rw e refl) m)
  | inr e ↦ at (subst (Elem ref) (rw e refl) m) e (λ k. surviving-contains keys rest ref k)
]
  where
    at :
        Elem ref (r ∷ surviving keys rest)
        → contains keys r.key ≡ false
        → (Elem ref (surviving keys rest) → contains keys ref.key ≡ false)
        → contains keys ref.key ≡ false
    at (here same) e below = rw same e
    at (there k) e below = below k

module _ {S : Type 0} (backend : Backend S)
    (apart : (t t' : S) (k j : Text) (r : Result StoreError (Unit {0}))
      → backend.delete t k ≡ (t', r)
      → text_eq k j ≡ false
      → backend.get t' j ≡ backend.get t j) where
  -- The loop leaves every object whose key is not among those that it is given.
  delete_keys-get :
      (s : S) (keys : List Text) (key : Text)
      → contains keys key ≡ false
      → backend.get (delete_keys backend s keys) key ≡ backend.get s key
  unfolding delete_keys
  delete_keys-get s [] key h = refl
  delete_keys-get s (k ∷ rest) key h =
      from (backend.delete s k) refl (λ t. delete_keys-get t rest key (ground arith))
    where
      from :
          (r : S × Result StoreError (Unit {0}))
          → backend.delete s k ≡ r
          → ((t : S) → backend.get (delete_keys backend t rest) key ≡ backend.get t key)
          → backend.get (elim r.1 [ err _ ↦ r.0 | ok _ ↦ delete_keys backend r.0 rest ]) key
            ≡ backend.get s key
      from (s', err e) d below = apart s s' k key (err e) d (ground arith)
      from (s', ok u) d below = below s' ∙ apart s s' k key (ok u) d (ground arith)

  module _ (encoding : Encoding) (codec : SnapshotCodec) (time : TimeFormat) (s : S)
      (store : ConfigStore) (resolved : Resolved) (server_name : Text) (cutoff : ℕ) where
    -- Whichever of the planned deletes go through, pruneSuperseded leaves the snapshot that is the
    -- newest at or before a moment, for every moment that is not before the cutoff: its object
    -- reads the same afterwards. This is for a listing of distinct keys, in the order of the keys,
    -- and an object store where a delete of one key, failed or not, leaves the object of another.
    pub prune_superseded-get :
        (refs : List SnapshotRef) (moment : ℕ) (ref : SnapshotRef)
        → list_refs encoding codec backend time (layout_for store resolved server_name) s ≡ ok refs
        → DistinctKeys refs
        → cutoff ≤ moment
        → at_or_before moment (sort_by key_less refs) ≡ some ref
        → backend.get
            (prune_superseded encoding codec time s backend store resolved server_name cutoff)
            ref.key
          ≡ backend.get s ref.key
    unfolding prune_superseded
    prune_superseded-get refs moment ref listed distinct le chosen = rw listed (
        delete_keys-get s (plan_retention refs cutoff) ref.key (
          surviving-contains (plan_retention refs cutoff) (sort_by key_less refs) ref (
            at_or_before-Elem moment _ ref
              (plan_retention-at_or_before refs cutoff moment distinct le ∙ chosen))))
