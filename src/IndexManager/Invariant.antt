-- ===== src/IndexManager/Invariant.antt =====
-- The invariant of the index under UpdateIndex, UpdateIndexForGC and RemoveEntry.
use hlkvds.Prelude.{
  ℕ, ◌+◌, ◌<◌, ◌≡◌, true, false, none, some, arith, sym, subst, if◌then◌else◌, ◌==◌, set, length,
  length-set, Bool-cases, inl, inr, Option-cases, ◌∙◌, ◌&&◌,
}
use hlkvds.Digest.{Digest}
use hlkvds.Utils
use hlkvds.HashEntry.{HashEntry, digest_of, data_size_of, stamp_lt, eq-IsEquiv, eq-digest}
use hlkvds.HashEntry
use hlkvds.KvSlice.{KvSlice}
use hlkvds.LinkedList.{LinkedList, empty}
use hlkvds.LinkedList
use hlkvds.LinkedList.Laws.{
  put-IsChain, remove-IsChain, size-put, size-remove, search-get_ref, get_ref_cong,
}
use hlkvds.IndexManager.{
  IndexManager, DataStor, hash_index, slot, update_absent, update_present, update_index,
  update_index_gc, remove_entry, is_same_in_mem, theory_replaced,
}
use hlkvds.IndexManager.Table.{IsMoved, total, Inv, total-set, set_chains, slot_inside}

module _ {S : Type 0} (ds : DataStor S) where
  update_absent-Inv :
      (slice : KvSlice) (im : IndexManager) (s : S)
      → Inv im
      → LinkedList.search HashEntry.eq (slot im (hash_index im slice.digest)) slice.entry ≡ false
      → Inv (update_absent ds slice (im, s)).0.0
  unfolding update_absent
  update_absent-Inv slice im s v h = elim (Option-cases slice.content) [
    | inl deleted ↦ rw (deleted, update_absent) v
    | inr (bytes, given) ↦ elim (Bool-cases (im.key_counter == im.ht_size)) [
      | inl full ↦ rw (given, update_absent) (rw full v)
      | inr room ↦
          rw (given, update_absent)
            (rw room (record {
              table = record {
                sized = length-set im.hashtable i new ∙ v.table.sized;
                positive = v.table.positive;
              };
              word = v.word;
              chains =
                  set_chains im.hashtable i new v.chains
                    (put-IsChain HashEntry.eq eq-IsEquiv _ _ (v.chains i)) inside;
              counted = ground (
                arith,
                total-set im.hashtable i new inside,
                size-put HashEntry.eq eq-IsEquiv (slot im i) slice.entry,
                v.counted,
                v.bounded,
                v.word,
              );
              bounded = ground (arith, v.counted, v.bounded, v.word);
            }))
    ]
  ]
    where
      i : ℕ
      i = hash_index im slice.digest

      new : LinkedList HashEntry
      new = (LinkedList.put HashEntry.eq (slot im i) slice.entry).0

      inside : i < length im.hashtable
      inside = omega (arith, v.table.sized, v.table.positive)

  -- Replacing or moving an entry in its slot keeps the invariant.
  put_present-Inv :
      (im : IndexManager) (i theory : ℕ) (e : HashEntry)
      → Inv im
      → i < im.ht_size
      → LinkedList.search HashEntry.eq (slot im i) e ≡ true
      → Inv (record im {
        hashtable = set im.hashtable i (LinkedList.put HashEntry.eq (slot im i) e).0;
        data_theory_size = theory;
      })
  put_present-Inv im i theory e v h found =
      let inside : i < length im.hashtable = slot_inside im i v.table h in
      let new = (LinkedList.put HashEntry.eq (slot im i) e).0 in
      record {
        table = record {
          sized = length-set im.hashtable i new ∙ v.table.sized;
          positive = v.table.positive;
        };
        word = v.word;
        chains =
            set_chains im.hashtable i new v.chains
              (put-IsChain HashEntry.eq eq-IsEquiv (slot im i) e (v.chains i)) inside;
        counted = ground (
          arith,
          total-set im.hashtable i new inside,
          size-put HashEntry.eq eq-IsEquiv (slot im i) e,
          v.counted,
        );
        bounded = v.bounded;
      }

  searched :
      (l : LinkedList HashEntry) (a b : HashEntry)
      → LinkedList.get_ref HashEntry.eq l a ≡ some b
      → LinkedList.search HashEntry.eq l a ≡ true
  searched l a b e = ground (arith, search-get_ref HashEntry.eq l a)

  not_searched :
      (l : LinkedList HashEntry) (a : HashEntry)
      → LinkedList.get_ref HashEntry.eq l a ≡ none
      → LinkedList.search HashEntry.eq l a ≡ false
  not_searched l a e = ground (arith, search-get_ref HashEntry.eq l a)

  index_inside :
      (im : IndexManager) (slice : KvSlice) → Inv im → hash_index im slice.digest < im.ht_size
  index_inside im slice v = omega (arith, v.table.positive)

  update_present-Inv :
      (slice : KvSlice) (in_mem : HashEntry) (im : IndexManager) (s : S)
      → Inv im
      → LinkedList.search HashEntry.eq (slot im (hash_index im slice.digest)) slice.entry ≡ true
      → Inv (update_present ds slice in_mem (im, s)).0.0
  unfolding update_present
  update_present-Inv slice in_mem im s v h =
      let kept =
        put_present-Inv im (hash_index im slice.digest)
          (theory_replaced im.data_theory_size (data_size_of slice.entry) (data_size_of in_mem))
          slice.entry v (index_inside im slice v) h in
      elim (Bool-cases (stamp_lt slice.entry.stamp in_mem.stamp)) [
        | inl old ↦ rw old v
        | inr new ↦ rw new kept
      ]

  -- `update_index` keeps the invariant, on each of its branches.
  pub update_index-Inv :
      (slice : KvSlice) (im : IndexManager) (s : S)
      → Inv im
      → Inv (update_index ds slice (im, s)).0.0
  unfolding update_index
  update_index-Inv slice im s v =
      let l = slot im (hash_index im slice.digest) in
      elim (Option-cases (LinkedList.get_ref HashEntry.eq l slice.entry)) [
        | inl absent ↦
            rw (absent, update_index)
              (update_absent-Inv slice im s v (not_searched l slice.entry absent))
        | inr (in_mem, present) ↦
            rw (present, update_index)
              (update_present-Inv slice in_mem im s v (searched l slice.entry in_mem present))
      ]

  same_in_mem-search :
      (slice : KvSlice) (im : IndexManager)
      → IsMoved slice
      → is_same_in_mem im slice.entry_gc ≡ true
      → LinkedList.search HashEntry.eq (slot im (hash_index im slice.digest)) slice.entry ≡ true
  unfolding is_same_in_mem
  same_in_mem-search slice im moved h =
      let l = slot im (hash_index im slice.digest) in
      let there : LinkedList.search HashEntry.eq
            (slot im (hash_index im (digest_of slice.entry_gc))) slice.entry_gc
          ≡ true =
        ground arith in
      let there' : LinkedList.search HashEntry.eq l slice.entry_gc ≡ true =
        subst
          (λ (d : Digest).
            LinkedList.search HashEntry.eq (slot im (hash_index im d)) slice.entry_gc ≡ true)
          (moved.1) there in
      ground (
        arith,
        there',
        search-get_ref HashEntry.eq l slice.entry,
        search-get_ref HashEntry.eq l slice.entry_gc,
        get_ref_cong HashEntry.eq eq-IsEquiv l slice.entry slice.entry_gc
            ((eq-digest slice.entry slice.entry_gc).1 (moved.0 ∙ sym moved.1)),
      )

  pub update_index_gc-Inv :
      (slice : KvSlice) (im : IndexManager) (s : S)
      → Inv im
      → IsMoved slice
      → Inv (update_index_gc ds slice (im, s)).0.0
  unfolding update_index_gc
  update_index_gc-Inv slice im s v moved = elim (Bool-cases (is_same_in_mem im slice.entry_gc)) [
    | inl same ↦ rw same (
        put_present-Inv im (hash_index im slice.digest) im.data_theory_size slice.entry v
          (index_inside im slice v) (same_in_mem-search slice im moved same))
    | inr other ↦ rw other v
  ]

  pub remove_entry-Inv :
      (e : HashEntry) (im : IndexManager) (s : S) → Inv im → Inv (remove_entry ds e (im, s)).0
  unfolding remove_entry
  remove_entry-Inv e im s v = elim (Option-cases (LinkedList.get_ref HashEntry.eq l e)) [
    | inl absent ↦ rw (absent, remove_entry) v
    | inr (in_mem, present) ↦
        elim (Bool-cases
          (Utils.eq in_mem.stamp.seg_time e.stamp.seg_time && data_size_of in_mem == 0)) [
            | inl dead ↦
                rw (present, remove_entry)
                  (rw dead (record {
                    table = record {
                      sized = length-set im.hashtable i new ∙ v.table.sized;
                      positive = v.table.positive;
                    };
                    word = v.word;
                    chains =
                        set_chains im.hashtable i new v.chains
                          (remove-IsChain HashEntry.eq eq-IsEquiv l e (v.chains i)) inside;
                    counted = ground (
                      arith,
                      sum,
                      shorter,
                      searched l e in_mem present,
                      v.counted,
                      v.bounded,
                      v.word,
                    );
                    bounded = ground (
                      arith,
                      sum,
                      shorter,
                      searched l e in_mem present,
                      v.counted,
                      v.bounded,
                      v.word,
                    );
                  }))
            | inr alive ↦ rw (present, remove_entry) (rw alive v)
          ]
  ]
    where
      i : ℕ
      i = hash_index im (digest_of e)

      l : LinkedList HashEntry
      l = slot im i

      new : LinkedList HashEntry
      new = (LinkedList.remove HashEntry.eq l e).0

      inside : i < length im.hashtable
      inside = omega (arith, v.table.sized, v.table.positive)

      sum : total (set im.hashtable i new) + l.size ≡ total im.hashtable + new.size
      sum = total-set im.hashtable i new inside

      shorter : l.size ≡ new.size + (if LinkedList.search HashEntry.eq l e then 1 else 0)
      shorter = size-remove HashEntry.eq eq-IsEquiv l e (v.chains i)
