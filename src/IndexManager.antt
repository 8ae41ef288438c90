-- ===== src/IndexManager.antt =====
-- IndexManager.h and IndexManager.cc: the hash table from digests to entries. Each
-- function is one call from its begin to its end, with no other call on the index in between. That is
-- not what the mutexes give: an insert tests the key counter and counts its key in two critical
-- sections of `mtx_`, and UpdateIndex(slice, true) gives up the slot's mutex between IsSameInMem and
-- its put. These sections are functions of their own here (`insert_entry`, `is_same_in_mem`,
-- `move_entry`), and Threads has the calls of several threads with their sections interleaved. What
-- the data store does with an entry that dies (DataStor::ModifyDeathEntry, a virtual function) is the
-- interface `DataStor` over a state of its own. A `uint64_t` size wraps.
pub mod Lookup
pub mod Find
pub mod Table
pub mod Invariant
pub mod Calls
pub mod Threads
pub mod Order
pub mod Accounting
pub mod Image
pub mod Persist
pub mod Kept
use hlkvds.Prelude.{
  ℕ, ◌+◌, ◌-◌, ◌%◌, Bool, true, false, Option, none, some, List, [], ◌∷◌, ltb, ◌==◌, ◌&&◌,
  if◌then◌else◌, get_or, set, replicate, u32_add, u32_sub, u64_add, u64_sub,
}
use hlkvds.Utils
use hlkvds.Digest.{Digest, hash}
use hlkvds.HashEntry.{HashEntry, digest_of, data_size_of, address_eq, stamp_lt, size_of_data_header}
use hlkvds.HashEntry
use hlkvds.LinkedList.{LinkedList, empty}
use hlkvds.LinkedList
use hlkvds.KvSlice.{KvSlice, data_len, no_entry, set_hash_entry}

pub record IndexManager : Type 0 where
  pub hashtable : List (LinkedList HashEntry)
  pub ht_size : ℕ
  pub size_ondisk : ℕ
  pub key_counter : ℕ
  pub data_theory_size : ℕ

-- The data store as the index sees it.
pub record DataStor (S : Type 0) : Type 0 where
  pub modify_death_entry : HashEntry → S → S

-- InitMeta, with initHashTable
unfoldable pub init_meta : ℕ → ℕ → ℕ → ℕ → IndexManager
init_meta ht_size ondisk_size theory_size element_num = record {
  hashtable = replicate ht_size empty;
  ht_size = ht_size;
  size_ondisk = ondisk_size;
  key_counter = element_num;
  data_theory_size = theory_size;
}

-- `KeyDigestHandle::Hash(digest) % htSize_`
abbrev pub hash_index : IndexManager → Digest → ℕ
hash_index im d = hash d % im.ht_size

-- `hashtable_[no].entryList_`, also GetEntryListByNo
abbrev pub slot : IndexManager → ℕ → LinkedList HashEntry
slot im i = get_or im.hashtable i empty

abbrev pub with_slot : IndexManager → ℕ → LinkedList HashEntry → IndexManager
with_slot im i l = record im { hashtable = set im.hashtable i l }

-- GetHashEntry: `search` in the slot, then the first entry of the chain with the digest.
unfoldable pub find : IndexManager → Digest → Option HashEntry
unfolding LinkedList.get_ref HashEntry.eq
find im d = LinkedList.get_ref HashEntry.eq (slot im (hash_index im d)) (no_entry d)

unfoldable pub get_hash_entry : IndexManager → KvSlice → Option KvSlice
unfolding find LinkedList.search
get_hash_entry im slice =
    if LinkedList.search HashEntry.eq (slot im (hash_index im slice.digest)) (no_entry slice.digest)
    then elim (find im slice.digest) [ none ↦ none | some e ↦ some (set_hash_entry slice e) ]
    else none

unfoldable pub is_same_in_mem : IndexManager → HashEntry → Bool
unfolding LinkedList.search LinkedList.get_ref HashEntry.eq address_eq
is_same_in_mem im e =
    let l = slot im (hash_index im (digest_of e)) in
    if LinkedList.search HashEntry.eq l e
    then elim (LinkedList.get_ref HashEntry.eq l e) [
      | none ↦ false
      | some in_mem ↦ address_eq in_mem.on_disk.address e.on_disk.address
    ]
    else false

-- The change of `dataTheorySize_` when an entry replaces one in memory.
unfoldable pub theory_replaced : ℕ → ℕ → ℕ → ℕ
theory_replaced theory size size_in_mem =
    if size == 0
    then u64_sub theory (size_of_data_header + size_in_mem)
    else if ltb size_in_mem size
    then u64_add theory (size - size_in_mem)
    else u64_sub theory (size_in_mem - size)

-- The state of an operation: the index and the data store; the Boolean is what is returned.
abbrev pub World : Type 0 → Type 0
World S = IndexManager × S

-- The end of an insert: the put under the slot's mutex, and the count under `mtx_`.
unfoldable pub insert_entry : KvSlice → IndexManager → IndexManager
unfolding LinkedList.put
insert_entry slice im =
    let i = hash_index im slice.digest in
    record im {
      hashtable = set im.hashtable i (LinkedList.put HashEntry.eq (slot im i) slice.entry).0;
      key_counter = u32_add im.key_counter 1;
      data_theory_size = u64_add im.data_theory_size (size_of_data_header + data_len slice);
    }

module _ {S : Type 0} (ds : DataStor S) where
  -- The second critical section of UpdateIndex(slice, true).
  unfoldable pub move_entry : KvSlice → World S → World S
  unfolding LinkedList.put
  move_entry slice (im, s) =
      let i = hash_index im slice.digest in
      (
        with_slot im i (LinkedList.put HashEntry.eq (slot im i) slice.entry).0,
        ds.modify_death_entry slice.entry_gc s,
      )

  -- UpdateIndex where the key is not in the index.
  unfoldable pub update_absent : KvSlice → World S → World S × Bool
  unfolding insert_entry
  update_absent slice (im, s) = elim slice.content [
    | none ↦ ((im, ds.modify_death_entry slice.entry s), true)
    | some _ ↦
        if im.key_counter == im.ht_size
        then ((im, s), false)
        else ((insert_entry slice im, s), true)
  ]

  -- UpdateIndex where the index has `in_mem` for the key.
  unfoldable pub update_present : KvSlice → HashEntry → World S → World S × Bool
  unfolding stamp_lt theory_replaced
  update_present slice in_mem (im, s) =
      let entry = slice.entry in
      let i = hash_index im slice.digest in
      if stamp_lt entry.stamp in_mem.stamp then ((im, ds.modify_death_entry entry s), true) else (
        (
          record im {
            hashtable = set im.hashtable i (LinkedList.put HashEntry.eq (slot im i) entry).0;
            data_theory_size =
                theory_replaced im.data_theory_size (data_size_of entry) (data_size_of in_mem);
          },
          ds.modify_death_entry in_mem s,
        ),
        true,
      )

  -- UpdateIndex(slice, false). `search` and `getRef` walk the same chain, so their two results
  -- are one option.
  unfoldable pub update_index : KvSlice → World S → World S × Bool
  unfolding update_absent update_present LinkedList.get_ref LinkedList.put
  update_index slice (im, s) =
      elim (LinkedList.get_ref HashEntry.eq (slot im (hash_index im slice.digest)) slice.entry) [
        | none ↦ update_absent slice (im, s)
        | some in_mem ↦ update_present slice in_mem (im, s)
      ]

  -- UpdateIndex(slice, true)
  unfoldable pub update_index_gc : KvSlice → World S → World S × Bool
  unfolding is_same_in_mem move_entry
  update_index_gc slice (im, s) =
      if is_same_in_mem im slice.entry_gc
      then (move_entry slice (im, s), true)
      else ((im, ds.modify_death_entry slice.entry s), true)

  -- UpdateIndexes and UpdateIndexesForGC drop the result of each update.
  unfoldable pub update_indexes : List KvSlice → World S → World S
  unfolding update_index
  update_indexes [] w = w
  update_indexes (slice ∷ l) w = update_indexes l (update_index slice w).0

  unfoldable pub update_indexes_for_gc : List KvSlice → World S → World S
  unfolding update_index_gc
  update_indexes_for_gc [] w = w
  update_indexes_for_gc (slice ∷ l) w = update_indexes_for_gc l (update_index_gc slice w).0

  unfoldable pub remove_entry : HashEntry → World S → World S
  unfolding LinkedList.get_ref LinkedList.remove Utils.eq
  remove_entry e (im, s) =
      let i = hash_index im (digest_of e) in
      elim (LinkedList.get_ref HashEntry.eq (slot im i) e) [
        | none ↦ (im, s)
        | some in_mem ↦
            if Utils.eq in_mem.stamp.seg_time e.stamp.seg_time && data_size_of in_mem == 0
            then (
              record im {
                hashtable = set im.hashtable i (LinkedList.remove HashEntry.eq (slot im i) e).0;
                key_counter = u32_sub im.key_counter 1;
              },
              ds.modify_death_entry e s,
            )
            else (im, s)
      ]
