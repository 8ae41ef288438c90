-- ===== src/MultiVolume/Accept.antt =====
-- WriteData's test of a value's length (DS_MultiVolume_Impl.cc) against the room of a segment
-- (Segment.cc).
use hlkvds.Prelude.{ℕ, ◌+◌, ◌^◌, ◌≤◌, ◌<◌, ◌≡◌, Bool, false, Option, refl, arith, ltb}
use hlkvds.Utils.{KvTime}
use hlkvds.KvSlice.{KvSlice, key_len, data_len}
use hlkvds.Memory.{Buffer}
use hlkvds.SegmentManager.{size_of_seg_on_disk}
use hlkvds.HashEntry.{size_of_hash_entry_on_disk}
use hlkvds.Volume.{Volume}
use hlkvds.VolumeIo.{Devices, State}
use hlkvds.Kvds.{Status}
use hlkvds.Segment.{make, get_free_size, try_put, put}
use hlkvds.MultiVolume.{MultiVolume, write_data}
use hlkvds.MultiVolume.Create.{max_value_len_of}

module _ {D : Type 0} (dev : Devices D)
    (fore_gc : ℕ → State MultiVolume D → Option (State MultiVolume D × Bool)) (fuel rounds : ℕ)
    (clock : ℕ → KvTime) (now : ℕ) (buf : Buffer) where
  -- WriteData lets a value of the greatest length that it computes from the segment size through, and
  -- with a key of more than 10 bytes this value has no room in an empty segment: TryPut refuses it,
  -- and Put, which the writer threads call on a new segment without that test, makes the two ends of
  -- the segment's free space cross.
  pub write_data_overflow :
      (aggregate : KvSlice → State MultiVolume D → Option (State MultiVolume D × Status))
      (slice : KvSlice) (vol : Volume) (st : State MultiVolume D)
      → st.world.1.max_value_len ≡ max_value_len_of vol.seg_size
      → data_len slice ≡ st.world.1.max_value_len
      → size_of_seg_on_disk + size_of_hash_entry_on_disk ≤ vol.seg_size
      → vol.seg_size < 2 ^ 31
      → data_len slice < 2 ^ 16
      → 10 < key_len slice
      → key_len slice < 2 ^ 16
      → (write_data dev fore_gc fuel rounds clock now buf aggregate 1 slice false st
          ≡ aggregate slice st)
        × (try_put (make vol) slice ≡ false)
        × ((put (make vol) slice).tail_pos < (put (make vol) slice).head_pos)
  unfolding write_data try_put put make get_free_size
  write_data_overflow aggregate slice vol st computed long room w d key k =
      let passes : ltb st.world.1.max_value_len (data_len slice) ≡ false = ground (arith, long) in
      (rw passes refl, ground (arith, long, computed), ground (arith, long, computed))
