-- ===== src/Operator/Settled/Trust.antt =====
-- What the cache of internal/cnpgi/operator/settled.go may be trusted for.
use cnpg_i_chronicle.Common.{
  ℕ, suc, ◌≤◌, ◌<◌, ◌≡◌, refl, sym, ◌∙◌, ap, inl, inr, false, Option, none, some, [], ◌∷◌, arith,
  if◌then◌else◌, leb, ==_iff, Text, text_eq, text_eq_iff, text_eq_refl, length, Bool-cases,
  bind_option,
}
use cnpg_i_chronicle.Cluster.{Cluster}
use cnpg_i_chronicle.Operator.Settled.{
  SettledEntry, Entries, max_settled_entries, entry_of, set_entry, confirmed, settled, remember,
}

entry_of-set_entry :
    (uid : Text) (entry : SettledEntry) (entries : Entries)
    → entry_of uid (set_entry uid entry entries) ≡ some entry
unfolding entry_of set_entry
entry_of-set_entry uid entry [] = rw (text_eq_refl uid)
entry_of-set_entry uid entry (pair ∷ rest) = elim (Bool-cases (text_eq pair.0 uid)) [
  | inl e ↦ rw (e, text_eq_refl uid)
  | inr e ↦ rw (e, e) (entry_of-set_entry uid entry rest)
]

entry_of-set_entry_ne :
    (uid other : Text) (entry : SettledEntry) (entries : Entries)
    → text_eq uid other ≡ false
    → entry_of other (set_entry uid entry entries) ≡ entry_of other entries
unfolding entry_of set_entry
entry_of-set_entry_ne uid other entry [] ne = rw ne
entry_of-set_entry_ne uid other entry (pair ∷ rest) ne = elim (Bool-cases (text_eq pair.0 uid)) [
  | inl e ↦ rw (e, ne, ap (λ u. text_eq u other) ((text_eq_iff pair.0 uid).0 e), ne)
  | inr e ↦ rw (e, entry_of-set_entry_ne uid other entry rest ne)
]

length-set_entry :
    (uid : Text) (entry : SettledEntry) (entries : Entries)
    → length (set_entry uid entry entries) ≤ suc (length entries)
unfolding set_entry
length-set_entry uid entry [] = omega arith
length-set_entry uid entry (pair ∷ rest) = elim (Bool-cases (text_eq pair.0 uid)) [
  | inl e ↦ rw e (omega arith)
  | inr e ↦ rw e (omega (arith, length-set_entry uid entry rest))
]

abbrev entry_for : Cluster → Text → Text → SettledEntry
entry_for cluster metadata_checksum key = record {
  generation = cluster.generation;
  metadata_checksum = metadata_checksum;
  snapshot_key = key;
}

abbrev pub size : Option Entries → ℕ
size none = 0
size (some entries) = length entries

-- However many states are remembered, the cache never holds more than its bound.
pub remember-bound :
    (cache : Option Entries) (cluster : Cluster) (metadata_checksum key : Text)
    → size (remember cache cluster metadata_checksum key) ≤ max_settled_entries
unfolding remember
remember-bound none cluster metadata_checksum key = omega arith
remember-bound (some entries) cluster metadata_checksum key =
    elim (Bool-cases (leb max_settled_entries (length entries))) [
      | inl full ↦ rw full (from [] (omega arith))
      | inr room ↦ rw room (from entries (ground arith))
    ]
  where
    from :
        (kept : Entries)
        → length kept < max_settled_entries
        → length (set_entry cluster.uid (entry_for cluster metadata_checksum key) kept)
          ≤ max_settled_entries
    from kept h =
        omega (arith, length-set_entry cluster.uid (entry_for cluster metadata_checksum key) kept)

-- In a cache that is there, a state that was remembered is confirmed with its key, whether or not
-- the cache was full.
pub settled-remember :
    (entries : Entries) (cluster : Cluster) (metadata_checksum key : Text)
    → settled (remember (some entries) cluster metadata_checksum key) cluster metadata_checksum
      ≡ some key
unfolding settled remember confirmed
settled-remember entries cluster metadata_checksum key =
    from (if leb max_settled_entries (length entries) then [] else entries)
  where
    from :
        (kept : Entries)
        → settled
            (some (set_entry cluster.uid (entry_for cluster metadata_checksum key) kept))
            cluster
            metadata_checksum
          ≡ some key
    from kept = rw (
      entry_of-set_entry cluster.uid (entry_for cluster metadata_checksum key) kept,
      (==_iff cluster.generation cluster.generation).1 refl,
      text_eq_refl metadata_checksum,
    )

-- Remembering one cluster's state confirms nothing new of a cluster with another UID: what is
-- confirmed of it afterwards was confirmed before.
pub settled-remember_ne :
    (cache : Option Entries) (cluster other : Cluster)
    (metadata_checksum key other_checksum other_key : Text)
    → text_eq cluster.uid other.uid ≡ false
    → settled (remember cache cluster metadata_checksum key) other other_checksum ≡ some other_key
    → settled cache other other_checksum ≡ some other_key
unfolding settled remember
settled-remember_ne none cluster other metadata_checksum key other_checksum other_key ne h = h
settled-remember_ne (some entries) cluster other metadata_checksum key other_checksum other_key ne
      h =
    elim (Bool-cases (leb max_settled_entries (length entries))) [
      | inl full ↦ absurd (dropped (sym (found []) ∙ sym (kept_eq [] (rw full refl)) ∙ h))
      | inr room ↦ sym (found entries) ∙ sym (kept_eq entries (rw room refl)) ∙ h
    ]
  where
    written : Entries → Option SettledEntry
    written kept =
        entry_of other.uid (set_entry cluster.uid (entry_for cluster metadata_checksum key) kept)

    found :
        (kept : Entries)
        → bind_option (written kept) (confirmed other other_checksum)
          ≡ bind_option (entry_of other.uid kept) (confirmed other other_checksum)
    found kept =
        ap (λ o. bind_option o (confirmed other other_checksum))
          (entry_of-set_entry_ne cluster.uid other.uid (entry_for cluster metadata_checksum key)
            kept ne)

    kept_eq :
        (kept : Entries)
        → (if leb max_settled_entries (length entries) then [] else entries) ≡ kept
        → bind_option
            (written (if leb max_settled_entries (length entries) then [] else entries))
            (confirmed other other_checksum)
          ≡ bind_option (written kept) (confirmed other other_checksum)
    kept_eq kept e = ap (λ k. bind_option (written k) (confirmed other other_checksum)) e

    dropped :
        bind_option (entry_of other.uid []) (confirmed other other_checksum) ≡ some other_key → ⊥
    dropped e = unfold entry_of in cc
