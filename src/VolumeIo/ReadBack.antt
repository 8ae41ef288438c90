-- ===== src/VolumeIo/ReadBack.antt =====
-- writeDataImmediately, the index and ReadData together.
use hlkvds.Prelude.{
  ℕ, ◌+◌, ◌-◌, ◌%◌, ◌^◌, ◌<◌, ◌≤◌, ◌≡◌, refl, sym, ◌∙◌, ap, Bool, true, false, Option, none, some,
  List, [], ◌∷◌, arith, u32_mod, u64_mod, u64_add, inl, inr, subst, ◌⊎◌, if◌then◌else◌, ◌==◌,
  Option-cases,
}
use hlkvds.Utils.{KvTime}
use hlkvds.Digest
use hlkvds.Digest.{Digest}
use hlkvds.KvSlice.{KvSlice, key_len, data_len}
use hlkvds.HashEntry.{HashEntry, stamp_lt}
use hlkvds.Memory.{Buffer, bytes_at}
use hlkvds.SegmentManager.{size_of_seg_on_disk}
use hlkvds.IndexManager.{IndexManager, DataStor, World, find, update_indexes}
use hlkvds.IndexManager.Lookup.{IsSized}
use hlkvds.IndexManager.Find.{settle, is_full, find-update_index}
use hlkvds.Volume.{Volume, calc_seg_offset_from_id}
use hlkvds.Volume.Offsets.{IsLaidOut, calc_data_offset_in_segment}
use hlkvds.Segment.{seg_offset, content_bytes}
use hlkvds.Segment.Layout.{IsWhole}
use hlkvds.LatencyFriendly.{SegLatencyFriendly, write_size, put-write_size}
use hlkvds.LatencyFriendly
use hlkvds.Kvds.{Status, ok}
use hlkvds.VolumeIo.{
  Devices, Access, State, read, write, read_data, take_in_use, finish, latency_free_size,
  write_prepared, write_one,
}
use hlkvds.VolumeIo.Device.{IsDisk}
use hlkvds.VolumeIo.Written.{slice_written, one_prepared}

-- The index has room for an entry of the key that is stamped with `now`, and no newer one.
abbrev pub Accepts : KvTime → IndexManager → Digest → Type 0
Accepts now im d =
    (find im d ≡ none) × (is_full im ≡ false)
    ⊎ ((old : HashEntry) × (find im d ≡ some old)
        × (stamp_lt (record { seg_time = now; key_no = 0 }) old.stamp ≡ false))

settle-Accepts :
    (now : KvTime) (im : IndexManager) (s : KvSlice) (bytes : List ℕ)
    → s.content ≡ some bytes
    → s.entry.stamp ≡ (record { seg_time = now; key_no = 0 })
    → Accepts now im s.digest
    → settle (is_full im) s (find im s.digest) ≡ some s.entry
unfolding settle
settle-Accepts now im s bytes c e (inl (absent, room)) = rw (absent, c, room) refl
settle-Accepts now im s bytes c e (inr (old, there, newer)) = rw there (rw e (rw newer refl))

-- Where the value of a filled slice stands on the device.
pub read_data_at :
    {D : Type 0} (dev : Devices D) (v : Volume) (seg_id off o : ℕ) (e : HashEntry) (d : D)
    (bytes : List ℕ)
    → IsLaidOut v
    → calc_seg_offset_from_id v seg_id ≡ some o
    → off < 2 ^ v.seg_size_bit
    → e.on_disk.address.offset ≡ o + off
    → o + e.on_disk.header.data_offset < u64_mod
    → 0 < e.on_disk.header.data_size
    → read dev v e.on_disk.header.data_size (o + e.on_disk.header.data_offset) d ≡ some bytes
    → read_data dev v e d ≡ (ok, bytes)
unfolding read_data
read_data_at dev v seg_id off o e d bytes l at_seg b at w n r =
    let p = calc_data_offset_in_segment v e seg_id off o l b at_seg at w in
    let z : (e.on_disk.header.data_size == 0) ≡ false = ground arith in
    rw (p, read_data) (rw z (rw r refl))

-- What Access gives back of a volume is its segment table's, and the index is not touched.
module _ {S D : Type 0} (ds : DataStor S) (access : Access S) (dev : Devices D) (clock : ℕ → KvTime)
    (now : ℕ) (buf : Buffer) where
  pub take_in_use_index :
      (seg_id free_size : ℕ) (st : State S D)
      → (take_in_use dev ds access clock now buf seg_id free_size st).world.0 ≡ st.world.0
  unfolding take_in_use
  take_in_use_index seg_id free_size st = elim (Option-cases (access.volume st.world.1)) [
    | inl gone ↦ rw (gone, take_in_use) refl
    | inr (v, there) ↦ rw (there, take_in_use) refl
  ]

  pub finish_ok :
      (seg_id free_size : ℕ) (slices : List KvSlice) (st : State S D) (written : Bool)
      → (finish dev ds access clock now buf seg_id free_size slices (st, written)).1 ≡ ok
      → (written ≡ true)
        × ((finish dev ds access clock now buf seg_id free_size slices (st, written)).0.disk
            ≡ (take_in_use dev ds access clock now buf seg_id free_size st).disk)
        × ((finish dev ds access clock now buf seg_id free_size slices (st, written)).0.world
            ≡ update_indexes ds slices
                (take_in_use dev ds access clock now buf seg_id free_size st).world)
  unfolding finish
  finish_ok seg_id free_size slices st true h = (refl, refl, refl)
  finish_ok seg_id free_size slices st false h = absurd (ground arith)

  pub take_in_use_disk :
      (seg_id free_size : ℕ) (st : State S D)
      → (take_in_use dev ds access clock now buf seg_id free_size st).disk ≡ st.disk
  unfolding take_in_use
  take_in_use_disk seg_id free_size st = elim (Option-cases (access.volume st.world.1)) [
    | inl gone ↦ rw (gone, take_in_use) refl
    | inr (v, there) ↦ rw (there, take_in_use) refl
  ]

  -- A write that is OK wrote the image, and sent the slice to the index.
  write_one_ok :
      (v : Volume) (seg_id : ℕ) (slice : KvSlice) (st : State S D) (p : List KvSlice × Buffer)
      → let seg = LatencyFriendly.put (LatencyFriendly.make v) slice in
        LatencyFriendly.prepare clock buf now (record seg { seg_id = some seg_id }) ≡ some p
        → let r = write_one dev ds access clock now buf v seg_id slice st in
          r.1 ≡ ok
          → let w =
              write dev v p.1
                (write_size (LatencyFriendly.put (LatencyFriendly.make v) slice))
                (seg_offset v seg_id)
                st.disk in
            (w.1 ≡ true)
            × (r.0.disk ≡ w.0)
            × ((mid : World S) × (mid.0 ≡ st.world.0) × (r.0.world ≡ update_indexes ds p.0 mid))
  unfolding write_one write_prepared
  write_one_ok v seg_id slice st p e h =
      let seg = LatencyFriendly.put (LatencyFriendly.make v) slice in
      let w = write dev v p.1 (write_size seg) (seg_offset v seg_id) st.disk in
      let written : State S D = record st { disk = w.0 } in
      let q =
        ap
          (λ (o : Option (List KvSlice × Buffer)).
            write_prepared dev ds access clock now buf v seg_id (write_size seg)
              (latency_free_size seg) o st)
          e in
      let (good, disk, world) =
        finish_ok seg_id (latency_free_size seg) p.0 written w.1
          (ap (λ (x : State S D × Status). x.1) (sym q) ∙ h) in
      let used = take_in_use dev ds access clock now buf seg_id (latency_free_size seg) written in
      (
        good,
        ap (λ (x : State S D × Status). x.0.disk) q
            ∙ disk
            ∙ take_in_use_disk seg_id (latency_free_size seg) written,
        (
          used.world,
          take_in_use_index seg_id (latency_free_size seg) written,
          ap (λ (x : State S D × Status). x.0.world) q ∙ world,
        ),
      )

index_of_one :
    {S : Type 0} (ds : DataStor S) (clock : ℕ → KvTime) (v : Volume) (seg_id : ℕ) (slice : KvSlice)
    (bytes : List ℕ) (w : World S)
    → slice.content ≡ some bytes
    → IsSized w.0
    → Accepts (clock 0) w.0 slice.digest
    → let s' = slice_written v seg_id clock slice in
      (d : Digest)
      → find (update_indexes ds (s' ∷ []) w).0 d
        ≡ (if Digest.eq slice.digest d then some s'.entry else find w.0 d)
unfolding update_indexes
index_of_one ds clock v seg_id slice bytes w c sized acc d =
    let s' = slice_written v seg_id clock slice in
    find-update_index ds s' w.0 w.1 d sized refl
    ∙ rw (settle-Accepts (clock 0) w.0 s' bytes c refl acc) refl

-- A read of the image's data range behind a write at the segment's offset.
read_of_one :
    {D : Type 0} (dev : Devices D) (v : Volume) (o k n size : ℕ) (image : Buffer) (d : D)
    → IsDisk dev
    → k + n ≤ size
    → o + size + v.start_off < u64_mod
    → (write dev v image size o d).1 ≡ true
    → read dev v n (o + k) (write dev v image size o d).0 ≡ some (bytes_at image k n)
unfolding read write
read_of_one dev v o k n size image d law inside wide good =
    let x : (o + v.start_off) % u64_mod ≡ o + v.start_off = ground arith in
    let y : (o + k + v.start_off) % u64_mod ≡ o + k + v.start_off = ground arith in
    let at : u64_add (o + k) v.start_off - u64_add o v.start_off ≡ k = omega (arith, x, y) in
    law.read_written v.vol_id image size (u64_add o v.start_off) n (u64_add (o + k) v.start_off) d
      good (omega (arith, x, y)) (omega (arith, x, y))
    ∙ ap (λ (i : ℕ). some (bytes_at image i n)) at

pub seg_offset_at :
    (v : Volume) (seg_id o : ℕ)
    → calc_seg_offset_from_id v seg_id ≡ some o
    → seg_offset v seg_id ≡ o
seg_offset_at v seg_id o at = ap (λ (x : Option ℕ). elim x [ none ↦ 0 | some p ↦ p ]) at

-- The same of a disk and an offset that are known by equations.
pub read_of_slice :
    {D : Type 0} (dev : Devices D) (v : Volume) (p o k k' n size : ℕ) (image : Buffer) (d d' : D)
    (bytes : List ℕ)
    → IsDisk dev
    → p ≡ o
    → k' ≡ k
    → k + n ≤ size
    → o + size + v.start_off < u64_mod
    → (write dev v image size p d).1 ≡ true
    → d' ≡ (write dev v image size p d).0
    → bytes_at image k n ≡ bytes
    → read dev v n (o + k') d' ≡ some bytes
read_of_slice dev v p o k k' n size image d d' bytes law e f inside wide good after is =
    let good' = subst (λ (p : ℕ). (write dev v image size p d).1 ≡ true) e good in
    let after' = subst (λ (p : ℕ). d' ≡ (write dev v image size p d).0) e after in
    rw (f, after')
      (read_of_one dev v o k n size image d law inside wide good' ∙ ap (λ (l : List ℕ). some l) is)

-- A value that writeDataImmediately wrote is read back: on a device that gives what was written,
-- for a slice that fits into a segment of whole pages and of 2 ^ seg_size_bit bytes, if the status
-- is OK then the key finds an entry on the volume, ReadData of this entry on the new disk is OK with the bytes of
-- the slice, and every other key finds what it found before.
pub read_data-write_one :
    {S D : Type 0} (ds : DataStor S) (access : Access S) (dev : Devices D) (clock : ℕ → KvTime)
    (now : ℕ) (buf : Buffer) (v : Volume) (seg_id o : ℕ) (slice : KvSlice) (bytes : List ℕ)
    (st : State S D)
    → IsDisk dev
    → IsLaidOut v
    → v.seg_size ≡ 2 ^ v.seg_size_bit
    → v.seg_size < u32_mod
    → v.seg_size % 4096 ≡ 0
    → calc_seg_offset_from_id v seg_id ≡ some o
    → o + v.seg_size + v.start_off < u64_mod
    → IsWhole slice
    → slice.content ≡ some bytes
    → 0 < data_len slice
    → LatencyFriendly.try_put (LatencyFriendly.make v) slice ≡ true
    → IsSized st.world.0
    → Accepts (clock 0) st.world.0 slice.digest
    → (write_one dev ds access clock now buf v seg_id slice st).1 ≡ ok
    → let after = (write_one dev ds access clock now buf v seg_id slice st).0 in
      (e : HashEntry) × (find after.world.0 slice.digest ≡ some e)
      × (e.on_disk.address.location ≡ v.vol_id)
      × (read_data dev v e after.disk ≡ (ok, bytes))
      × ((d : Digest) → Digest.eq slice.digest d ≡ false → find after.world.0 d ≡ find st.world.0 d)
unfolding LatencyFriendly.try_put LatencyFriendly.make
read_data-write_one ds access dev clock now buf v seg_id o slice bytes st law l pow w page at wide
      whole c pos fits sized acc good =
    let seg = LatencyFriendly.put (LatencyFriendly.make v) slice in
    let s' = slice_written v seg_id clock slice in
    let large : size_of_seg_on_disk ≤ v.seg_size = ground arith in
    let (image, prepared, data_at, stored, head) =
      one_prepared v seg_id clock now buf slice whole w fits large in
    let (wrote, disk, (mid, same, world)) =
      write_one_ok ds access dev clock now buf v seg_id slice st (s' ∷ [], image) prepared good in
    let (grown, covers, inside) = put-write_size (LatencyFriendly.make v) slice w page large fits in
    let index =
      index_of_one ds clock v seg_id slice bytes mid c (subst IsSized (sym same) sized)
        (subst (λ (im : IndexManager). Accepts (clock 0) im slice.digest) (sym same) acc) in
    let after = (write_one dev ds access clock now buf v seg_id slice st).0 in
    let same_key = (Digest.eq_iff slice.digest slice.digest).1 refl in
    let origin = seg_offset_at v seg_id o at in
    let placed : s'.entry.on_disk.address.offset ≡ o + size_of_seg_on_disk =
      omega (arith, origin, wide, large) in
    let size : data_len slice + (64 + key_len slice) ≤ v.seg_size =
      omega (arith, head, covers, inside) in
    let back : read dev v (data_len slice) (o + s'.entry.on_disk.header.data_offset) after.disk
        ≡ some bytes =
      read_of_slice dev v (seg_offset v seg_id) o (64 + key_len slice)
        s'.entry.on_disk.header.data_offset (data_len slice) (write_size seg) image st.disk
        after.disk bytes law origin data_at (omega (arith, head, covers))
        (omega (arith, wide, inside)) wrote disk (stored ∙ ap content_bytes c) in
    (
      s'.entry,
      ap (λ (w : World _). find w.0 slice.digest) world ∙ index slice.digest ∙ rw same_key refl,
      refl,
      read_data_at dev v seg_id size_of_seg_on_disk o s'.entry after.disk bytes l at
          (omega (arith, pow, large)) placed (omega (arith, data_at, wide, size)) pos back,
      λ d other.
          ap (λ (w : World _). find w.0 d) world
          ∙ index d
          ∙ rw other (ap (λ (im : IndexManager). find im d) same),
    )
