-- ===== src/Gc.antt =====
-- GcManager.cc and the loading half of Migrate.cc: the live slices of a segment are read back from
-- its image and written to another segment. Both classes load in the same way; `mark` is what
-- Migrate adds to a loaded slice. The device is a pair of functions: `read` gives the image at an
-- offset, or `none` where Volume::Read fails, and `write` the result of Volume::Write.
pub mod Load
pub mod Merge
pub mod Gather
pub mod Second
pub mod Unread
use hlkvds.Prelude.{
  ℕ, zero, suc, ◌+◌, Bool, true, false, Option, none, some, List, [], ◌∷◌, ◌++◌, ◌==◌,
  if◌then◌else◌, length, u32_sub, u64_add,
}
use hlkvds.Digest.{Digest}
use hlkvds.HashEntry.{DataHeader, HashEntry, size_of_data_header}
use hlkvds.KvSlice.{KvSlice, no_entry, set_hash_entry_before_gc, aligned_size}
use hlkvds.Memory.{Buffer, bytes_at}
use hlkvds.SegmentManager.{
  SegmentManager, size_of_seg_on_disk, alloc, alloc_for_gc, free_for_failed, free_for_gc, use_seg,
}
use hlkvds.Utils.{KvTime}
use hlkvds.Volume.{Volume}
use hlkvds.IndexManager.{
  IndexManager, DataStor, World, is_same_in_mem, update_indexes, update_indexes_for_gc,
}
use hlkvds.Segment.{
  SegBase, make, get_free_size, try_put, put, try_put_list, put_list, prepare, seg_offset,
  decode_header, decode_seg_header,
}

-- `KVSlice(&digest, key, key_len, data, data_len)` with the bytes that the header points to.
unfoldable pub key_offset : DataHeader → ℕ
key_offset h =
    if h.data_size == aligned_size
    then u32_sub h.next_header_offset h.key_size
    else u32_sub (u32_sub h.next_header_offset h.data_size) h.key_size

unfoldable pub load_slice : Buffer → DataHeader → KvSlice
unfolding key_offset bytes_at
load_slice buf h = record {
  key = bytes_at buf (key_offset h) h.key_size;
  key_length = h.key_size;
  content = some (bytes_at buf h.data_offset h.data_size);
  data_length = h.data_size;
  digest = h.key_digest;
  entry = no_entry h.key_digest;
  entry_gc = no_entry h.key_digest;
  seg_id = 0;
}

-- The entry that the loop builds for a header; its time is read off the clock.
abbrev pub entry_at : ℕ → ℕ → KvTime → ℕ → DataHeader → HashEntry
entry_at vol_id phy_offset now head h = record {
  on_disk = record {
    header = h;
    address = record { location = vol_id; offset = u64_add phy_offset head };
  };
  stamp = record { seg_time = now; key_no = 0 };
}

-- What the two classes do to a loaded slice.
abbrev pub mark_gc : HashEntry → KvSlice → KvSlice
mark_gc e s = s

abbrev pub mark_migrate : HashEntry → KvSlice → KvSlice
mark_migrate e s = set_hash_entry_before_gc s e

module _ (mark : HashEntry → KvSlice → KvSlice) (same : HashEntry → Bool) (clock : ℕ → KvTime)
    (vol_id phy_offset : ℕ) (buf : Buffer) where
  -- The loop of loadSegKV: the next `num` headers from `head` on. `same` is IsSameInMem.
  unfoldable pub load_from : ℕ → ℕ → ℕ → List KvSlice
  unfolding load_slice decode_header bytes_at
  load_from k zero head = []
  load_from k (suc num) head =
      let h = decode_header (bytes_at buf head size_of_data_header) in
      let e = entry_at vol_id phy_offset (clock k) head h in
      let rest = load_from (suc k) num h.next_header_offset in
      if same e then (if h.data_size == 0 then rest else mark e (load_slice buf h) ∷ rest) else rest

  unfoldable pub load_seg_kv : ℕ → List KvSlice
  unfolding load_from
  load_seg_kv num_keys = load_from 0 num_keys size_of_seg_on_disk

-- loadKvList
unfoldable pub load_kv_list :
    (HashEntry → KvSlice → KvSlice)
    → (ℕ → Option Buffer)
    → (ℕ → KvTime)
    → Volume
    → IndexManager
    → ℕ
    → Option (List KvSlice)
unfolding is_same_in_mem load_seg_kv decode_seg_header bytes_at
load_kv_list mark read clock vol im seg_id =
    let phy = seg_offset vol seg_id in
    elim (read phy) [
      | none ↦ none
      | some buf ↦ some (
          load_seg_kv mark (is_same_in_mem im) clock vol.vol_id phy buf
            (decode_seg_header (bytes_at buf 0 size_of_seg_on_disk)).number_keys)
    ]
