-- ===== src/VolumeIo.antt =====
-- Reads and writes on the device of a volume, and the steps that the two data stores take on one
-- volume (Volume.cc; DS_MultiVolume_Impl.cc and Tier.cc, which have the same code). The devices are
-- an interface: `pRead` and `pWrite` are system calls. A volume's number stands for its device.
pub mod Device
pub mod Written
pub mod ReadBack
pub mod Kept
pub mod Batch
use hlkvds.Prelude.{
  ℕ, zero, suc, ◌+◌, ◌*◌, Bool, true, false, Option, none, some, List, [], ◌∷◌, ◌++◌, ◌==◌,
  if◌then◌else◌, u32_sub, u64_add,
}
use hlkvds.Utils.{KvTime}
use hlkvds.HashEntry.{HashEntry, data_size_of}
use hlkvds.KvSlice.{KvSlice}
use hlkvds.Memory.{Buffer}
use hlkvds.IndexManager.{DataStor, World, update_indexes}
use hlkvds.SegmentManager.{SegmentManager, alloc, free_for_failed, use_seg, size_of_seg_on_disk}
use hlkvds.Volume.{Volume, calc_data_offset_phy_from_entry, calc_key_offset_phy_from_entry}
use hlkvds.Segment.{SegBase, seg_offset, get_free_size}
use hlkvds.Segment
use hlkvds.LatencyFriendly.{SegLatencyFriendly, write_size}
use hlkvds.LatencyFriendly
use hlkvds.Kvds.{Status, ok, not_found, not_supported, io_error, aborted}

-- pRead(count, offset) on a device, `none` for another result than the count, and
-- pWrite(data, count, offset), whose result is the test against the count.
pub record Devices (D : Type 0) : Type 0 where
  pub p_read : ℕ → ℕ → ℕ → D → Option (List ℕ)
  pub p_write : ℕ → Buffer → ℕ → ℕ → D → D × Bool

-- How a data store keeps the volume that an operation is about: it may be missing from the map.
pub record Access (S : Type 0) : Type 0 where
  pub volume : S → Option Volume
  pub set_segs : SegmentManager → S → S

-- The index with the data store, and the devices.
pub record State (S D : Type 0) : Type 0 where
  pub world : World S
  pub disk : D

-- The loop of WriteBatchData: `none` if a slice does not fit.
unfoldable pub pack_batch : SegBase → List KvSlice → Option SegBase
unfolding Segment.try_put Segment.put
pack_batch seg [] = some seg
pack_batch seg (s ∷ l) = elim (Segment.try_put seg s) [
  | true ↦ pack_batch (Segment.put seg s) l
  | false ↦ none
]

-- GetFreeSize of SegLatencyFriendly, after its write.
abbrev pub latency_free_size : SegLatencyFriendly → ℕ
latency_free_size seg =
    u32_sub (u32_sub seg.seg_size size_of_seg_on_disk) (u32_sub seg.head_pos size_of_seg_on_disk)

module _ {D : Type 0} (dev : Devices D) where
  -- Volume::Read and Volume::Write
  unfoldable pub read : Volume → ℕ → ℕ → D → Option (List ℕ)
  read v count offset d = dev.p_read v.vol_id count (u64_add offset v.start_off) d

  unfoldable pub write : Volume → Buffer → ℕ → ℕ → D → D × Bool
  write v buf count offset d = dev.p_write v.vol_id buf count (u64_add offset v.start_off) d

  -- ReadData on the volume of the entry.
  unfoldable pub read_data : Volume → HashEntry → D → Status × List ℕ
  unfolding read calc_data_offset_phy_from_entry
  read_data v e d = elim (calc_data_offset_phy_from_entry v e) [
    | none ↦ (aborted, [])
    | some offset ↦
        if data_size_of e == 0 then (not_found, []) else elim (read v (data_size_of e) offset d) [
          | none ↦ (io_error, [])
          | some bytes ↦ (ok, bytes)
        ]
  ]

  -- GetKeyByHashEntry and GetValueByHashEntry
  unfoldable pub get_key_by_hash_entry : Volume → HashEntry → D → List ℕ
  unfolding read calc_key_offset_phy_from_entry
  get_key_by_hash_entry v e d =
      elim (read v e.on_disk.header.key_size (calc_key_offset_phy_from_entry v e) d) [
        | none ↦ []
        | some bytes ↦ bytes
      ]

  unfoldable pub get_value_by_hash_entry : Volume → HashEntry → D → List ℕ
  unfolding read calc_data_offset_phy_from_entry
  get_value_by_hash_entry v e d = elim (calc_data_offset_phy_from_entry v e) [
    | none ↦ []
    | some offset ↦
        if data_size_of e == 0
        then []
        else elim (read v (data_size_of e) offset d) [ none ↦ [] | some bytes ↦ bytes ]
  ]

  -- `clock`, `now` and `buf` are what a write reads off the clock and its fresh buffer.
  module _ {S : Type 0} (ds : DataStor S) (access : Access S) (clock : ℕ → KvTime) (now : ℕ)
      (buf : Buffer) where
    abbrev pub manager : State S D → Option SegmentManager
    manager st = elim (access.volume st.world.1) [ none ↦ none | some v ↦ some v.seg_mgr ]

    -- FreeForFailed and Use on the volume.
    unfoldable pub give_back : ℕ → State S D → State S D
    unfolding free_for_failed
    give_back seg_id st = elim (manager st) [
      | none ↦ st
      | some m ↦ record st {
        world = (st.world.0, access.set_segs (free_for_failed m seg_id) st.world.1);
      }
    ]

    unfoldable pub take_in_use : ℕ → ℕ → State S D → State S D
    unfolding use_seg
    take_in_use seg_id free_size st = elim (manager st) [
      | none ↦ st
      | some m ↦ record st {
        world = (st.world.0, access.set_segs (use_seg m seg_id free_size) st.world.1);
      }
    ]

    -- What follows WriteSegToDevice: after a failure the segment is given back, otherwise it is in
    -- use, and the slices go to the index.
    unfoldable pub finish : ℕ → ℕ → List KvSlice → State S D × Bool → State S D × Status
    unfolding give_back take_in_use update_indexes
    finish seg_id free_size slices (st, written) =
        if written
        then (let used = take_in_use seg_id free_size st in
            (record used { world = update_indexes ds slices used.world }, ok))
        else (give_back seg_id st, io_error)

    -- WriteSegToDevice, which gives the filled slices and the image or fails, and what follows it.
    unfoldable pub write_prepared :
        Volume → ℕ → ℕ → ℕ → Option (List KvSlice × Buffer) → State S D → State S D × Status
    unfolding write finish
    write_prepared v seg_id size free_size none st = (give_back seg_id st, io_error)
    write_prepared v seg_id size free_size (some p) st =
        let (d, written) = write v p.1 size (seg_offset v seg_id) st.disk in
        finish seg_id free_size p.0 (record st { disk = d }, written)

    -- writeDataImmediately with the segment that was allocated.
    unfoldable pub write_one : Volume → ℕ → KvSlice → State S D → State S D × Status
    unfolding LatencyFriendly.make LatencyFriendly.put LatencyFriendly.prepare write_size
        write_prepared
    write_one v seg_id slice st =
        let seg = LatencyFriendly.put (LatencyFriendly.make v) slice in
        write_prepared v seg_id (write_size seg) (latency_free_size seg)
          (LatencyFriendly.prepare clock buf now (record seg { seg_id = some seg_id })) st

    -- WriteBatchData with the segment that was allocated. A batch that is too large leaves the
    -- segment as it is.
    unfoldable pub write_batch : Volume → ℕ → List KvSlice → State S D → State S D × Status
    unfolding Segment.make pack_batch Segment.prepare get_free_size write_prepared
    write_batch v seg_id batch st = elim (pack_batch (Segment.make v) batch) [
      | none ↦ (st, aborted)
      | some seg ↦
          write_prepared v seg_id seg.seg_size (get_free_size seg)
            (Segment.prepare clock buf now (record seg { seg_id = some seg_id })) st
    ]
