-- ===== src/VolumeIo/Device.antt =====
-- What the code relies on of a device.
use hlkvds.Prelude.{ℕ, ◌+◌, ◌-◌, ◌≤◌, ◌≡◌, ◌⊎◌, true, some}
use hlkvds.Memory.{Buffer, bytes_at}
use hlkvds.VolumeIo.{Devices}

-- After a write that succeeds, a read inside of what was written gives its bytes.
pub record IsDisk {D : Type 0} (dev : Devices D) : Type 0 where
  pub read_written :
      (i : ℕ) (buf : Buffer) (count offset k o : ℕ) (d : D)
      → (dev.p_write i buf count offset d).1 ≡ true
      → offset ≤ o
      → o + k ≤ offset + count
      → dev.p_read i k o (dev.p_write i buf count offset d).0 ≡ some (bytes_at buf (o - offset) k)

-- A write leaves what is apart from it.
pub record KeepsApart {D : Type 0} (dev : Devices D) : Type 0 where
  pub read_apart :
      (i : ℕ) (buf : Buffer) (count offset k o : ℕ) (d : D)
      → (o + k ≤ offset) ⊎ (offset + count ≤ o)
      → dev.p_read i k o (dev.p_write i buf count offset d).0 ≡ dev.p_read i k o d
