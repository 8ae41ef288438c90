-- ===== src/IndexManager/Accounting.antt =====
-- `dataTheorySize_`, from which the background garbage collection computes how much is wasted,
-- and the full table.
use hlkvds.Prelude.{
  ℕ, ◌+◌, ◌-◌, ◌<◌, ◌≤◌, ◌≡◌, ◌≢◌, true, false, none, some, List, arith, if◌then◌else◌, ◌==◌,
  u64_mod, u64_sub, u64_add, subst, refl,
}
use hlkvds.Digest.{Digest}
use hlkvds.Digest
use hlkvds.HashEntry.{HashEntry, data_size_of, stamp_lt, size_of_data_header}
use hlkvds.KvSlice.{KvSlice, data_len}
use hlkvds.IndexManager.{
  IndexManager, DataStor, find, update_index, update_absent, insert_entry, update_present,
  theory_replaced,
}
use hlkvds.IndexManager.Find.{IsFilled, is_full, settle, found, find-update_index}
use hlkvds.IndexManager.Table.{Inv}
use hlkvds.IndexManager.Invariant.{update_index-Inv}

-- What an entry should count: a header and its data, or nothing for a deletion mark.
abbrev pub live_size : HashEntry → ℕ
live_size e = if data_size_of e == 0 then 0 else size_of_data_header + data_size_of e

module _ {S : Type 0} (ds : DataStor S) where
  theory-update_index :
      (slice : KvSlice) (m : HashEntry) (im : IndexManager) (s : S)
      → IsFilled slice
      → find im slice.digest ≡ some m
      → stamp_lt slice.entry.stamp m.stamp ≡ false
      → (update_index ds slice (im, s)).0.0.data_theory_size
        ≡ theory_replaced im.data_theory_size (data_size_of slice.entry) (data_size_of m)
  unfolding update_index update_present
  theory-update_index slice m im s filled there later = ground (arith, found slice im filled)

  -- Where an entry with data is replaced, by data or by a deletion mark, the size changes by the
  -- difference of what the two entries should count.
  pub theory_live :
      (slice : KvSlice) (m : HashEntry) (im : IndexManager) (s : S)
      → IsFilled slice
      → find im slice.digest ≡ some m
      → stamp_lt slice.entry.stamp m.stamp ≡ false
      → data_size_of m ≢ 0
      → live_size m ≤ im.data_theory_size
      → im.data_theory_size + data_size_of slice.entry < u64_mod
      → (update_index ds slice (im, s)).0.0.data_theory_size + live_size m
        ≡ im.data_theory_size + live_size slice.entry
  unfolding theory_replaced
  theory_live slice m im s filled there later live enough word =
      ground (arith, theory-update_index slice m im s filled there later)

  -- Where a deletion mark is replaced the size goes wrong by a header.
  theory_mark :
      (slice : KvSlice) (m : HashEntry) (im : IndexManager) (s : S)
      → IsFilled slice
      → find im slice.digest ≡ some m
      → stamp_lt slice.entry.stamp m.stamp ≡ false
      → data_size_of m ≡ 0
      → im.data_theory_size + data_size_of slice.entry < u64_mod
      → (update_index ds slice (im, s)).0.0.data_theory_size ≡ (
          if data_size_of slice.entry == 0
          then u64_sub im.data_theory_size size_of_data_header
          else im.data_theory_size + live_size slice.entry - size_of_data_header)
  unfolding theory_replaced
  theory_mark slice m im s filled there later dead word =
      ground (arith, theory-update_index slice m im s filled there later)

  theory_insert :
      (slice : KvSlice) (bytes : List ℕ) (im : IndexManager) (s : S)
      → IsFilled slice
      → slice.content ≡ some bytes
      → find im slice.digest ≡ none
      → is_full im ≡ false
      → (update_index ds slice (im, s)).0.0.data_theory_size
        ≡ u64_add im.data_theory_size (size_of_data_header + data_len slice)
  unfolding update_index update_absent insert_entry
  theory_insert slice bytes im s filled given absent room = ground (arith, found slice im filled)

  -- What an insert leaves for its key, and what a later write does.
  find_inserted :
      (slice : KvSlice) (bytes : List ℕ) (im : IndexManager) (s : S)
      → Inv im
      → IsFilled slice
      → slice.content ≡ some bytes
      → find im slice.digest ≡ none
      → is_full im ≡ false
      → find (update_index ds slice (im, s)).0.0 slice.digest ≡ some slice.entry
  unfolding settle
  find_inserted slice bytes im s v filled given absent room = ground (
    arith,
    find-update_index ds slice im s slice.digest v.table filled,
    (Digest.eq_iff slice.digest slice.digest).1 refl,
    absent,
    given,
    room,
  )

  find_written :
      (slice : KvSlice) (m : HashEntry) (im : IndexManager) (s : S)
      → Inv im
      → IsFilled slice
      → find im slice.digest ≡ some m
      → stamp_lt slice.entry.stamp m.stamp ≡ false
      → find (update_index ds slice (im, s)).0.0 slice.digest ≡ some slice.entry
  unfolding settle
  find_written slice m im s v filled there later = ground (
    arith,
    find-update_index ds slice im s slice.digest v.table filled,
    (Digest.eq_iff slice.digest slice.digest).1 refl,
    there,
    later,
  )

  -- A new key is inserted with data and deleted, which brings the theory size back to where it was.
  -- Then the size goes wrong by a header: data that is written for the key counts without its header,
  -- and a second delete takes away a header that is not counted, past zero if nothing else is stored.
  pub theory_after_delete :
      (ins del next : KvSlice) (bytes : List ℕ) (im : IndexManager) (s : S)
      → Inv im
      → IsFilled ins
      → IsFilled del
      → IsFilled next
      → ins.digest ≡ del.digest
      → del.digest ≡ next.digest
      → ins.content ≡ some bytes
      → data_size_of ins.entry ≡ data_len ins
      → data_size_of del.entry ≡ 0
      → find im ins.digest ≡ none
      → is_full im ≡ false
      → stamp_lt del.entry.stamp ins.entry.stamp ≡ false
      → stamp_lt next.entry.stamp del.entry.stamp ≡ false
      → im.data_theory_size + size_of_data_header + data_len ins < u64_mod
      → im.data_theory_size + data_size_of next.entry < u64_mod
      → let deleted = (update_index ds del (update_index ds ins (im, s)).0).0 in
        (deleted.0.data_theory_size ≡ im.data_theory_size)
        × ((update_index ds next deleted).0.0.data_theory_size ≡ (
            if data_size_of next.entry == 0
            then u64_sub im.data_theory_size size_of_data_header
            else im.data_theory_size + live_size next.entry - size_of_data_header))
  unfolding theory_replaced
  theory_after_delete ins del next bytes im s v p q r same same' given sized mark absent room second
        third word word' =
      let one = (update_index ds ins (im, s)).0 in
      let two = (update_index ds del one).0 in
      let v_one = update_index-Inv ds ins im s v in
      let v_two = update_index-Inv ds del one.0 one.1 v_one in
      let in_one : find one.0 del.digest ≡ some ins.entry =
        subst (λ (d : Digest). find one.0 d ≡ some ins.entry) same
          (find_inserted ins bytes im s v p given absent room) in
      let in_two : find two.0 next.digest ≡ some del.entry =
        subst (λ (d : Digest). find two.0 d ≡ some del.entry) same'
          (find_written del ins.entry one.0 one.1 v_one q in_one second) in
      let back : two.0.data_theory_size ≡ im.data_theory_size = ground (
        arith,
        theory-update_index del ins.entry one.0 one.1 q in_one second,
        theory_insert ins bytes im s p given absent room,
        mark,
        sized,
      ) in
      (
        back,
        subst
            (λ (n : ℕ). (update_index ds next two).0.0.data_theory_size ≡ (
              if data_size_of next.entry == 0
              then u64_sub n size_of_data_header
              else n + live_size next.entry - size_of_data_header))
            back (theory_mark next del.entry two.0 two.1 r in_two third mark (omega (arith, back))),
      )

  -- An insert of a new key into a full table reports failure and changes nothing: the bytes that it
  -- has already written are not even counted as dead.
  pub update_index_full :
      (slice : KvSlice) (bytes : List ℕ) (im : IndexManager) (s : S)
      → IsFilled slice
      → slice.content ≡ some bytes
      → find im slice.digest ≡ none
      → is_full im ≡ true
      → update_index ds slice (im, s) ≡ ((im, s), false)
  unfolding update_index update_absent
  update_index_full slice bytes im s filled given absent full =
      ground (arith, found slice im filled)
