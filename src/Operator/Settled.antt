-- ===== src/Operator/Settled.antt =====
-- internal/cnpgi/operator/settled.go: the cache of cluster states that were confirmed as captured.
-- A call holds the mutex throughout, so calls are steps one after the other; a nil cache is `none`.
pub mod Trust
use cnpg_i_chronicle.Common.{
  ℕ, Bool, true, false, ◌||◌, ◌&&◌, not, Option, none, some, List, [], ◌∷◌, if◌then◌else◌, leb,
  ◌==◌, Text, text_eq, length, bind_option,
}
use cnpg_i_chronicle.Cluster.{Cluster}

-- settledEntry
pub record SettledEntry : Type 0 where
  pub generation : ℕ
  pub metadata_checksum : Text
  pub snapshot_key : Text

-- The map of entries, one to a UID.
abbrev pub Entries : Type 0
Entries = List (Text × SettledEntry)

abbrev pub max_settled_entries : ℕ
max_settled_entries = 1024

unfoldable pub entry_of : Text → Entries → Option SettledEntry
entry_of uid [] = none
entry_of uid (pair ∷ rest) = if text_eq pair.0 uid then some pair.1 else entry_of uid rest

unfoldable pub set_entry : Text → SettledEntry → Entries → Entries
set_entry uid entry [] = (uid, entry) ∷ []
set_entry uid entry (pair ∷ rest) =
    let changed = set_entry uid entry rest in
    if text_eq pair.0 uid then (uid, entry) ∷ rest else pair ∷ changed

-- settled, on the entry that was found
unfoldable pub confirmed : Cluster → Text → SettledEntry → Option Text
confirmed cluster metadata_checksum entry =
    if not (entry.generation == cluster.generation)
      || not (text_eq entry.metadata_checksum metadata_checksum)
    then none
    else some entry.snapshot_key

-- settled
unfoldable pub settled : Option Entries → Cluster → Text → Option Text
settled none cluster metadata_checksum = none
settled (some entries) cluster metadata_checksum =
    bind_option (entry_of cluster.uid entries) (confirmed cluster metadata_checksum)

-- remember
unfoldable pub remember : Option Entries → Cluster → Text → Text → Option Entries
remember none cluster metadata_checksum key = none
remember (some entries) cluster metadata_checksum key =
    let kept = if leb max_settled_entries (length entries) then [] else entries in
    some (
      set_entry cluster.uid
        (record {
          generation = cluster.generation;
          metadata_checksum = metadata_checksum;
          snapshot_key = key;
        })
        kept)
