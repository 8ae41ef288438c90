-- ===== src/MetaStor/Disk.antt =====
-- A region that is written, on the disk after the other regions were written.
use hlkvds.Prelude.{
  ℕ, ◌+◌, ◌-◌, ◌≤◌, ◌≡◌, sym, ◌∙◌, ap, true, some, List, arith, length, get_or, Bool-cases, inl,
  inr, ◌⊎◌,
}
use mathlib.Core.Option.{some-injective, none-ne-some}
use hlkvds.Memory.{bytes_at, bytes_at_of}
use hlkvds.VolumeIo.{Devices}
use hlkvds.VolumeIo.Device.{IsDisk, KeepsApart}
use hlkvds.MetaStor.{buffer_of, read_region, write_region}

bytes_at-buffer_of : (bytes : List ℕ) → bytes_at (buffer_of bytes) 0 (length bytes) ≡ bytes
bytes_at-buffer_of bytes =
    bytes_at_of (buffer_of bytes) 0 bytes
      (λ i j p q. let e : j ≡ i = omega (arith, q) in ap (λ (k : ℕ). get_or bytes k 0) e)

module _ {D : Type 0} (dev : Devices D) where
  -- A write that succeeds is the device's.
  write_region_done :
      (bytes : List ℕ) (len offset : ℕ) (d d' : D)
      → write_region dev bytes len offset d ≡ some d'
      → let w = dev.p_write 0 (buffer_of bytes) len offset d in (w.1 ≡ true) × (w.0 ≡ d')
  unfolding write_region
  write_region_done bytes len offset d d' h =
      let w = dev.p_write 0 (buffer_of bytes) len offset d in
      elim (Bool-cases w.1) [
        | inl good ↦ (good, some-injective w.0 d' (rw (good, write_region) at h))
        | inr bad ↦ absurd (none-ne-some d' (rw (bad, write_region) at h))
      ]

  pub read_region-write_region :
      (bytes : List ℕ) (len offset : ℕ) (d d' : D)
      → IsDisk dev
      → write_region dev bytes len offset d ≡ some d'
      → length bytes ≡ len
      → read_region dev len offset d' ≡ some bytes
  unfolding read_region
  read_region-write_region bytes len offset d d' law h sized =
      let (good, at) = write_region_done bytes len offset d d' h in
      let back =
        law.read_written 0 (buffer_of bytes) len offset len offset d good (omega arith)
          (omega arith) in
      let zero_at : offset - offset ≡ 0 = omega arith in
      ap (λ (x : D). dev.p_read 0 len offset x) (sym at)
      ∙ back
      ∙ ap (λ (k : ℕ). some (bytes_at (buffer_of bytes) k len)) zero_at
      ∙ ap (λ (k : ℕ). some (bytes_at (buffer_of bytes) 0 k)) (sym sized)
      ∙ ap (λ (l : List ℕ). some l) (bytes_at-buffer_of bytes)

  pub read_region-apart :
      (bytes : List ℕ) (len offset k o : ℕ) (d d' : D)
      → KeepsApart dev
      → write_region dev bytes len offset d ≡ some d'
      → (o + k ≤ offset) ⊎ (offset + len ≤ o)
      → read_region dev k o d' ≡ read_region dev k o d
  unfolding read_region
  read_region-apart bytes len offset k o d d' law h apart =
      let (good, at) = write_region_done bytes len offset d d' h in
      ap (λ (x : D). dev.p_read 0 k o x) (sym at)
      ∙ law.read_apart 0 (buffer_of bytes) len offset k o d apart
