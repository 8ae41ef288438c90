-- ===== src/Tests/Threads.antt =====
-- Two threads on an index of two slots.
use hlkvds.Prelude.{ℕ, ◌≡◌, refl, true, some, List, [], ◌∷◌}
use hlkvds.Utils
use hlkvds.Digest.{hash}
use hlkvds.Digest
use hlkvds.HashEntry.{HashEntry, address_eq, stamp_lt}
use hlkvds.HashEntry
use hlkvds.KvSlice.{KvSlice, no_entry}
use hlkvds.LinkedList.{get_ref, search, search_in, ref_in}
use hlkvds.IndexManager.{IndexManager, World, find, is_same_in_mem}
use hlkvds.IndexManager.Calls.{updates, moves, call}
use hlkvds.IndexManager.Threads.{Point, waits, returned, go_on, schedule}
use hlkvds.IndexManager.Threads.Races.{answer, schedule_alone, schedule_write_between}
use hlkvds.Tests.Index.{digest, entry, slice, index, index-Inv, counting, again}

schedule_alone_test : schedule counting (0 ∷ 0 ∷ []) ((index, 0), waits (moves again) ∷ []) ≡ (
  call counting (moves again) (index, 0),
  returned (answer counting (moves again) (index, 0)) ∷ [],
)
schedule_alone_test = schedule_alone counting (moves again) (index, 0)

-- Key 1 in slot 1, and room for one more.
abbrev nearly_full : IndexManager
nearly_full = record {
  hashtable =
      record { nodes = []; size = 0 } ∷ record { nodes = entry 1 5 4096 10 ∷ []; size = 1 } ∷ [];
  ht_size = 2;
  size_ondisk = 4096;
  key_counter = 1;
  data_theory_size = 37;
}

-- Key 3, in slot 1.
abbrev other_slot : KvSlice
other_slot = slice 3 (some (5 ∷ [])) 1 (entry 3 1 16384 10) (no_entry (digest 3))

-- A copy of key 1 made at second 15, before `again` at second 20.
abbrev moved : KvSlice
moved = slice 1 (some (1 ∷ [])) 5 (entry 1 5 20480 15) (entry 1 5 4096 10)

schedule_write_between_example :
    let started : World ℕ × List Point =
      ((index, 0), waits (moves moved) ∷ waits (updates again) ∷ []) in
    let st = schedule counting (0 ∷ 1 ∷ 0 ∷ []) started in
    (st.1 ≡ returned true ∷ returned true ∷ [])
    × (find (go_on counting 1 (go_on counting 0 started)).0.0 (digest 1) ≡ some again.entry)
    × (find st.0.0 (digest 1) ≡ some moved.entry)
unfolding find hash is_same_in_mem search search_in get_ref ref_in HashEntry.eq Digest.eq address_eq
    stamp_lt Utils.lt Utils.eq
schedule_write_between_example =
    schedule_write_between counting moved again (entry 1 5 4096 10) index 0 index-Inv refl refl refl
      refl refl refl refl
