-- ===== src/IndexManager/Kept.antt =====
-- The index changes the data store by ModifyDeathEntry alone.
use hlkvds.Prelude.{List, [], ◌∷◌, Bool-cases, Option-cases, inl, inr, ◌==◌}
use hlkvds.HashEntry.{HashEntry, stamp_lt}
use hlkvds.HashEntry
use hlkvds.KvSlice.{KvSlice}
use hlkvds.LinkedList
use hlkvds.IndexManager.{
  DataStor, World, slot, hash_index, update_index, update_absent, update_present, update_indexes,
}

module _ {S : Type 0} (ds : DataStor S) (Keeps : S → Type 0)
    (kept : (e : HashEntry) (s : S) → Keeps s → Keeps (ds.modify_death_entry e s)) where
  update_absent_kept :
      (slice : KvSlice) (w : World S) → Keeps w.1 → Keeps (update_absent ds slice w).0.1
  unfolding update_absent
  update_absent_kept slice (im, s) k = elim (Option-cases slice.content) [
    | inl gone ↦ rw (gone, update_absent) (kept slice.entry s k)
    | inr (bytes, there) ↦ elim (Bool-cases (im.key_counter == im.ht_size)) [
      | inl full ↦ rw (there, full, update_absent) k
      | inr room ↦ rw (there, room, update_absent) k
    ]
  ]

  update_present_kept :
      (slice : KvSlice) (e : HashEntry) (w : World S)
      → Keeps w.1
      → Keeps (update_present ds slice e w).0.1
  unfolding update_present
  update_present_kept slice e (im, s) k = elim (Bool-cases (stamp_lt slice.entry.stamp e.stamp)) [
    | inl older ↦ rw (older, update_present) (kept slice.entry s k)
    | inr newer ↦ rw (newer, update_present) (kept e s k)
  ]

  update_index_kept :
      (slice : KvSlice) (w : World S) → Keeps w.1 → Keeps (update_index ds slice w).0.1
  unfolding update_index
  update_index_kept slice (im, s) k =
      elim (Option-cases
        (LinkedList.get_ref HashEntry.eq (slot im (hash_index im slice.digest)) slice.entry)) [
          | inl gone ↦ rw (gone, update_index) (update_absent_kept slice (im, s) k)
          | inr (e, there) ↦ rw (there, update_index) (update_present_kept slice e (im, s) k)
        ]

  -- What every ModifyDeathEntry keeps is kept by an update of the index.
  pub update_indexes_kept :
      (l : List KvSlice) (w : World S) → Keeps w.1 → Keeps (update_indexes ds l w).1
  unfolding update_indexes
  update_indexes_kept [] w k = k
  update_indexes_kept (slice ∷ l) w k =
      update_indexes_kept l (update_index ds slice w).0 (update_index_kept slice w k)
