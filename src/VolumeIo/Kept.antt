-- ===== src/VolumeIo/Kept.antt =====
-- A write changes the data store by Use, FreeForFailed and ModifyDeathEntry alone.
use hlkvds.Prelude.{ℕ, Bool, true, false, Option, none, some, List, Option-cases, inl, inr}
use hlkvds.Utils.{KvTime}
use hlkvds.HashEntry.{HashEntry}
use hlkvds.KvSlice.{KvSlice}
use hlkvds.Memory.{Buffer}
use hlkvds.SegmentManager.{SegmentManager}
use hlkvds.IndexManager.{DataStor}
use hlkvds.IndexManager.Kept.{update_indexes_kept}
use hlkvds.Volume.{Volume}
use hlkvds.Segment.{SegBase, seg_offset, get_free_size}
use hlkvds.Segment
use hlkvds.LatencyFriendly.{write_size}
use hlkvds.LatencyFriendly
use hlkvds.VolumeIo.{
  Devices, Access, State, write, pack_batch, give_back, take_in_use, finish, latency_free_size,
  write_prepared, write_one, write_batch,
}

module _ {S D : Type 0} (ds : DataStor S) (access : Access S) (dev : Devices D) (clock : ℕ → KvTime)
    (now : ℕ) (buf : Buffer) (Keeps : S → Type 0)
    (kept : (e : HashEntry) (s : S) → Keeps s → Keeps (ds.modify_death_entry e s))
    (set_kept : (m : SegmentManager) (s : S) → Keeps s → Keeps (access.set_segs m s)) where
  give_back_kept :
      (seg_id : ℕ) (st : State S D)
      → Keeps st.world.1
      → Keeps (give_back dev ds access clock now buf seg_id st).world.1
  unfolding give_back
  give_back_kept seg_id st k = elim (Option-cases (access.volume st.world.1)) [
    | inl gone ↦ rw (gone, give_back) k
    | inr (v, there) ↦ rw (there, give_back) (set_kept _ st.world.1 k)
  ]

  take_in_use_kept :
      (seg_id free_size : ℕ) (st : State S D)
      → Keeps st.world.1
      → Keeps (take_in_use dev ds access clock now buf seg_id free_size st).world.1
  unfolding take_in_use
  take_in_use_kept seg_id free_size st k = elim (Option-cases (access.volume st.world.1)) [
    | inl gone ↦ rw (gone, take_in_use) k
    | inr (v, there) ↦ rw (there, take_in_use) (set_kept _ st.world.1 k)
  ]

  finish_kept :
      (seg_id free_size : ℕ) (slices : List KvSlice) (st : State S D) (written : Bool)
      → Keeps st.world.1
      → Keeps (finish dev ds access clock now buf seg_id free_size slices (st, written)).0.world.1
  unfolding finish
  finish_kept seg_id free_size slices st true k =
      update_indexes_kept ds Keeps kept slices _ (take_in_use_kept seg_id free_size st k)
  finish_kept seg_id free_size slices st false k = give_back_kept seg_id st k

  write_prepared_kept :
      (v : Volume) (seg_id size free_size : ℕ) (p : Option (List KvSlice × Buffer)) (st : State S D)
      → Keeps st.world.1
      → Keeps (write_prepared dev ds access clock now buf v seg_id size free_size p st).0.world.1
  unfolding write_prepared
  write_prepared_kept v seg_id size free_size none st k = give_back_kept seg_id st k
  write_prepared_kept v seg_id size free_size (some p) st k =
      let w = write dev v p.1 size (seg_offset v seg_id) st.disk in
      finish_kept seg_id free_size p.0 (record st { disk = w.0 }) w.1 k

  -- What these three keep is kept by the write of one slice and of a batch.
  pub write_one_kept :
      (v : Volume) (seg_id : ℕ) (slice : KvSlice) (st : State S D)
      → Keeps st.world.1
      → Keeps (write_one dev ds access clock now buf v seg_id slice st).0.world.1
  unfolding write_one
  write_one_kept v seg_id slice st k =
      let seg = LatencyFriendly.put (LatencyFriendly.make v) slice in
      write_prepared_kept v seg_id (write_size seg) (latency_free_size seg)
        (LatencyFriendly.prepare clock buf now (record seg { seg_id = some seg_id })) st k

  pub write_batch_kept :
      (v : Volume) (seg_id : ℕ) (batch : List KvSlice) (st : State S D)
      → Keeps st.world.1
      → Keeps (write_batch dev ds access clock now buf v seg_id batch st).0.world.1
  unfolding write_batch
  write_batch_kept v seg_id batch st k = elim (Option-cases (pack_batch (Segment.make v) batch)) [
    | inl large ↦ rw (large, write_batch) k
    | inr (seg, fits) ↦
        rw (fits, write_batch)
          (write_prepared_kept v seg_id seg.seg_size (get_free_size seg)
            (Segment.prepare clock buf now (record seg { seg_id = some seg_id })) st k)
  ]
