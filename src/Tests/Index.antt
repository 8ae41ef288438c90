-- ===== src/Tests/Index.antt =====
-- The index, its image and the iterator on a table of two slots.
use hlkvds.Prelude.{
  ◌==◌, if◌then◌else◌, length, ℕ, zero, suc, ◌+◌, ◌*◌, ◌<◌, ◌≡◌, refl, true, false, ◌&&◌, Option,
  none, some, List, [], ◌∷◌, arith,
}
use hlkvds.Utils.{KvTime}
use hlkvds.Utils
use hlkvds.Digest.{Digest, hash}
use hlkvds.Digest
use hlkvds.HashEntry.{
  HashEntry, size_of_data_header, size_of_hash_entry_on_disk, digest_of, data_size_of, eq,
  address_eq, stamp_lt,
}
use hlkvds.HashEntry
use hlkvds.KvSlice.{KvSlice, no_entry}
use hlkvds.LinkedList.{
  LinkedList, Ref, null, fault, at, search_in, put_in, ref_in, empty, get_ref, search,
}
use hlkvds.LinkedList
use hlkvds.LinkedList.Laws.{IsChain}
use hlkvds.IndexManager.{
  IndexManager, DataStor, init_meta, slot, find, is_same_in_mem, update_index, update_index_gc,
  remove_entry,
}
use hlkvds.IndexManager.Lookup.{IsSized}
use hlkvds.IndexManager.Find.{
  settle, is_full, find-update_index, find-update_index_gc, find-remove_entry,
}
use hlkvds.IndexManager.Table.{total, Inv}
use hlkvds.IndexManager.Calls.{Call, updates, moves, removes, calls, calls-Inv}
use hlkvds.IndexManager.Order.{update_index_comm, update_index_delete_first}
use hlkvds.IndexManager.Accounting.{theory_live, theory_after_delete, update_index_full}
use hlkvds.IndexManager.Image.{
  IndexImage, seconds, calc_index_size_on_device, counters_of, entries_of, get, set_image,
}
use hlkvds.IndexManager.Persist.{restore_slots, calc_index_size-fits, set_image-get}
use hlkvds.KvdbIter.{KvdbIter, collect, seek_to_first, stand_on, next, prev}
use hlkvds.KvdbIter.Slots.{entries}
use hlkvds.KvdbIter.Walk.{collect-seek_to_first}
use hlkvds.KvdbIter.Back.{prev-next}

abbrev pub digest : ℕ → Digest
digest n = record { v0 = 0; v1 = 0; v2 = 0; v3 = 0; v4 = n }

-- The entry of key `n` with `size` bytes at offset `off`, written at second `time`.
abbrev pub entry : ℕ → ℕ → ℕ → ℕ → HashEntry
entry n size off time = record {
  on_disk = record {
    header = record {
      key_digest = digest n;
      key_size = 3;
      data_size = size;
      data_offset = 100;
      next_header_offset = 200;
    };
    address = record { location = 0; offset = off };
  };
  stamp = record { seg_time = record { tv_sec = time; tv_usec = 0 }; key_no = 1 };
}

abbrev pub slice : ℕ → Option (List ℕ) → ℕ → HashEntry → HashEntry → KvSlice
slice n content size e gc = record {
  key = n ∷ [];
  key_length = 1;
  content = content;
  data_length = size;
  digest = digest n;
  entry = e;
  entry_gc = gc;
  seg_id = 0;
}

-- Keys 1 and 3 in slot 1; slot 0 is empty. `extra` is the room in the table.
abbrev pub chain_one : LinkedList HashEntry
chain_one = record { nodes = entry 1 5 4096 10 ∷ entry 3 0 8192 10 ∷ []; size = 2 }

abbrev pub index : IndexManager
index = record {
  hashtable = record { nodes = []; size = 0 } ∷ chain_one ∷ [];
  ht_size = 2;
  size_ondisk = 4096;
  key_counter = 2;
  data_theory_size = 37;
}

-- The same with a slot more.
abbrev roomy : IndexManager
roomy = record {
  hashtable =
      record { nodes = []; size = 0 }
      ∷ record { nodes = entry 1 5 4096 10 ∷ []; size = 1 }
      ∷ record { nodes = []; size = 0 }
      ∷ [];
  ht_size = 3;
  size_ondisk = 4096;
  key_counter = 1;
  data_theory_size = 37;
}

index-IsSized : IsSized index
index-IsSized = record { sized = refl; positive = omega arith }

roomy-IsSized : IsSized roomy
roomy-IsSized = record { sized = refl; positive = omega arith }

pub empty-IsChain : IsChain HashEntry.eq (record { nodes = []; size = 0 })
empty-IsChain = record { sized = refl; distinct = tt }

pub chain_one-IsChain : IsChain HashEntry.eq chain_one
unfolding search_in HashEntry.eq Digest.eq
chain_one-IsChain = record { sized = refl; distinct = (refl, (refl, tt)) }

index-chains : (i : ℕ) → IsChain HashEntry.eq (slot index i)
unfolding empty
index-chains zero = empty-IsChain
index-chains (suc zero) = chain_one-IsChain
index-chains (suc (suc i)) = empty-IsChain

pub index-Inv : Inv index
unfolding total
index-Inv = record {
  table = index-IsSized;
  word = omega arith;
  chains = index-chains;
  counted = refl;
  bounded = omega arith;
}

roomy-chains : (i : ℕ) → IsChain HashEntry.eq (slot roomy i)
unfolding empty search_in
roomy-chains zero = empty-IsChain
roomy-chains (suc zero) = record { sized = refl; distinct = (refl, tt) }
roomy-chains (suc (suc zero)) = empty-IsChain
roomy-chains (suc (suc (suc i))) = empty-IsChain

roomy-Inv : Inv roomy
unfolding total
roomy-Inv = record {
  table = roomy-IsSized;
  word = omega arith;
  chains = roomy-chains;
  counted = refl;
  bounded = omega arith;
}

-- A data store that adds up the sizes of the dead entries.
abbrev pub counting : DataStor ℕ
counting = record { modify_death_entry = λ e s. s + data_size_of e + size_of_data_header }

-- Key 1 written again later, and once more.
abbrev pub again : KvSlice
again = slice 1 (some (1 ∷ 2 ∷ [])) 2 (entry 1 2 12288 20) (entry 1 5 4096 10)

abbrev pub again_later : KvSlice
again_later = slice 1 (some (9 ∷ [])) 1 (entry 1 1 16384 30) (entry 1 5 4096 10)

find-update_index_example : find (update_index counting again (index, 0)).0.0 (digest 1) ≡ (
    if Digest.eq again.digest (digest 1)
    then settle (is_full index) again (find index again.digest)
    else find index (digest 1))
find-update_index_example = find-update_index counting again index 0 (digest 1) index-IsSized refl

find-update_index_gc_example :
    (find (update_index_gc counting again (index, 0)).0.0 (digest 1) ≡ (
      if is_same_in_mem index again.entry_gc && Digest.eq again.digest (digest 1)
      then some again.entry
      else find index (digest 1)))
    × ((update_index_gc counting again (index, 0)).0.1
        ≡ counting.modify_death_entry
            (if is_same_in_mem index again.entry_gc then again.entry_gc else again.entry)
            0)
find-update_index_gc_example =
    find-update_index_gc counting again index 0 (digest 1) index-IsSized refl

find-remove_entry_example :
    find (remove_entry counting (entry 3 0 8192 10) (index, 0)).0 (digest 3) ≡ (
      if Digest.eq (digest_of (entry 3 0 8192 10)) (digest 3)
      then elim (find index (digest 3)) [
        | none ↦ none
        | some in_mem ↦
            if Utils.eq in_mem.stamp.seg_time (entry 3 0 8192 10).stamp.seg_time
              && data_size_of in_mem == 0
            then none
            else some in_mem
      ]
      else find index (digest 3))
unfolding hash
find-remove_entry_example =
    find-remove_entry counting (entry 3 0 8192 10) index 0 (digest 3) index-IsSized
      chain_one-IsChain

abbrev some_calls : List Call
some_calls = updates again ∷ moves again_later ∷ removes (entry 3 0 8192 10) ∷ []

calls-Inv_test : Inv (calls counting some_calls (index, 0)).0
calls-Inv_test = calls-Inv counting some_calls (index, 0) index-Inv (tt, ((refl, refl), (tt, tt)))

update_index_comm_example :
    (find
        (update_index counting again_later (update_index counting again (index, 0)).0).0.0
        (digest 1)
      ≡ some again_later.entry)
    × (find
          (update_index counting again (update_index counting again_later (index, 0)).0).0.0
          (digest 1)
        ≡ some again_later.entry)
unfolding find hash get_ref ref_in HashEntry.eq Digest.eq stamp_lt Utils.lt Utils.eq
update_index_comm_example =
    update_index_comm counting again again_later (entry 1 5 4096 10) index 0 (digest 1) index-Inv
      refl refl refl refl refl

-- Key 4 inserted at second 10 and deleted at second 20.
abbrev pub inserted : KvSlice
inserted = slice 4 (some (1 ∷ [])) 1 (entry 4 1 4096 10) (no_entry (digest 4))

abbrev deleted : KvSlice
deleted = slice 4 none 0 (entry 4 0 8192 20) (no_entry (digest 4))

update_index_delete_first_test :
    (find
        (update_index counting deleted (update_index counting inserted (roomy, 0)).0).0.0
        inserted.digest
      ≡ some deleted.entry)
    × (find
          (update_index counting inserted (update_index counting deleted (roomy, 0)).0).0.0
          inserted.digest
        ≡ some inserted.entry)
unfolding find hash get_ref ref_in HashEntry.eq Digest.eq stamp_lt Utils.lt Utils.eq
update_index_delete_first_test =
    update_index_delete_first counting inserted deleted (1 ∷ []) roomy 0 roomy-Inv refl refl refl
      refl refl refl refl refl

theory_live_test : (update_index counting again (index, 0)).0.0.data_theory_size + 37 ≡ 37 + 34
unfolding find hash get_ref ref_in HashEntry.eq Digest.eq stamp_lt Utils.lt Utils.eq
theory_live_test =
    theory_live counting again (entry 1 5 4096 10) index 0 refl refl refl (omega arith)
      (omega arith) (omega arith)

-- Key 4 deleted once more.
abbrev deleted_again : KvSlice
deleted_again = slice 4 none 0 (entry 4 0 12288 30) (no_entry (digest 4))

theory_after_delete_example :
    let deleted_once =
      (update_index counting deleted (update_index counting inserted (roomy, 0)).0).0 in
    (deleted_once.0.data_theory_size ≡ 37)
    × ((update_index counting deleted_again deleted_once).0.0.data_theory_size ≡ 5)
unfolding find hash get_ref ref_in HashEntry.eq Digest.eq stamp_lt Utils.lt Utils.eq
theory_after_delete_example =
    theory_after_delete counting inserted deleted deleted_again (1 ∷ []) roomy 0 roomy-Inv refl refl
      refl refl refl refl refl refl refl refl refl refl (omega arith) (omega arith)

update_index_full_test : update_index counting inserted (index, 0) ≡ ((index, 0), false)
unfolding find hash get_ref ref_in HashEntry.eq Digest.eq
update_index_full_test = update_index_full counting inserted (1 ∷ []) index 0 refl refl refl refl

abbrev noon : KvTime
noon = record { tv_sec = 43200; tv_usec = 250000 }

set_image-get_example :
    (image : IndexImage) × (get noon index index.size_ondisk ≡ some image)
    × (set_image
          (init_meta index.ht_size index.size_ondisk 37 index.key_counter)
          image
          index.size_ondisk
        ≡ (
          record {
            hashtable = restore_slots (seconds 43200) index.hashtable;
            ht_size = index.ht_size;
            size_ondisk = index.size_ondisk;
            key_counter = index.key_counter;
            data_theory_size = 37;
          },
          true,
        ))
set_image-get_example = set_image-get index noon 37 index-Inv

calc_index_size-fits_test :
    8
      + 4 * length (counters_of index.hashtable)
      + size_of_hash_entry_on_disk * length (entries_of index.hashtable)
    < calc_index_size_on_device index.ht_size
calc_index_size-fits_test = calc_index_size-fits index index-Inv

abbrev new_iter : KvdbIter
new_iter = record {
  ht_size = 2;
  valid = false;
  hash_table_cur = none;
  entry_list_cur = 0;
  hash_entry = null;
}

collect-seek_to_first_example :
    (collect index 5 (seek_to_first index new_iter) ≡ entries index)
    × (length (entries index) ≡ index.key_counter)
collect-seek_to_first_example = collect-seek_to_first index new_iter 5 index-Inv (omega arith)

prev-next_test : prev index (next index (stand_on index new_iter 1 0)) ≡ stand_on index new_iter 1 0
unfolding next stand_on LinkedList.get_by_no LinkedList.walk
prev-next_test = prev-next index new_iter 1 0 index-Inv refl (omega arith) (omega arith) refl
