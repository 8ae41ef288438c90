-- ===== src/VolumeIo/Batch.antt =====
-- A segment that WriteBatchData or SegWrite wrote, and ReadData of the entries that it filled in.
use hlkvds.Prelude.{
  ℕ, zero, suc, ◌+◌, ◌-◌, ◌^◌, ◌<◌, ◌≤◌, ◌≡◌, refl, sym, ◌∙◌, ap, true, Option, none, some, List,
  [], ◌∷◌, ◌++◌, arith, u32_mod, u64_mod, u64_add, get_elem?, inl, inr, subst, Bool-cases,
  Option-cases,
}
use mathlib.Core.List.{append_assoc, append-nil}
use mathlib.Core.Option.{some-injective, none-ne-some}
use hlkvds.Utils.{KvTime}
use hlkvds.HashEntry.{DataHeaderAddress}
use hlkvds.KvSlice.{KvSlice, data_len, is_aligned_data}
use hlkvds.Memory.{Buffer, bytes_at}
use hlkvds.IndexManager.{DataStor, World, update_indexes}
use hlkvds.SegmentManager.{size_of_seg_on_disk}
use hlkvds.Volume.{Volume, calc_seg_offset_from_id}
use hlkvds.Volume.Offsets.{IsLaidOut}
use hlkvds.Segment.{SegBase, seg_offset, content_bytes}
use hlkvds.Segment
use hlkvds.Segment.Layout.{Stored}
use hlkvds.Segment.Packing.{
  Fits, grow, shrink, IsPacked, put-IsPacked, put-slice_list, make-IsPacked,
}
use hlkvds.Segment.Written.{Placed, Addressed, AllWhole, SameData}
use hlkvds.Segment.Prepare.{IsWritten, is_aligned_data-IsPlacement, prepare-IsWritten}
use hlkvds.Kvds.{Status, ok, aborted}
use hlkvds.VolumeIo.{
  Devices, Access, State, read, write, read_data, pack_batch, take_in_use, write_prepared,
  write_batch,
}
use hlkvds.VolumeIo.Device.{IsDisk}
use hlkvds.VolumeIo.ReadBack.{
  read_data_at, read_of_slice, seg_offset_at, finish_ok, take_in_use_disk, take_in_use_index,
}

-- Where a slice stands in the image of a segment at `base`.
pub record IsPlaced (vol_id base size : ℕ) (image : Buffer) (s : KvSlice) : Type 0 where
  pub off : ℕ
  pub inside : off < size
  pub location : s.entry.on_disk.address.location ≡ vol_id
  pub offset : s.entry.on_disk.address.offset ≡ u64_add base off
  pub sized : s.entry.on_disk.header.data_size ≡ data_len s
  pub ends : s.entry.on_disk.header.data_offset + data_len s ≤ size
  pub stands :
      bytes_at image s.entry.on_disk.header.data_offset (data_len s) ≡ content_bytes s.content

each_placed :
    (vol_id base size head tail : ℕ) (image : Buffer) (l : List KvSlice) (n : ℕ) (s : KvSlice)
    → tail ≤ size
    → Fits is_aligned_data head tail l
    → Placed is_aligned_data head tail l
    → Addressed vol_id base is_aligned_data head l
    → Stored image head l
    → get_elem? l n ≡ some s
    → IsPlaced vol_id base size image s
each_placed vol_id base size head tail image [] n s t f p a st h = absurd (none-ne-some s h)
each_placed vol_id base size head tail image (x ∷ l) zero s t f (o, nx, dg, ks, z, p) a st h =
    let room = f.0 in
    let aligned_lem = is_aligned_data-IsPlacement x in
    let ends : x.entry.on_disk.header.data_offset + data_len x ≤ size =
      ground (arith, o, room, t, aligned_lem) in
    subst (IsPlaced vol_id base size image) (some-injective x s h) (record {
      off = head;
      inside = omega (arith, f);
      location = ap (λ (q : DataHeaderAddress). q.location) a.0;
      offset = ap (λ (q : DataHeaderAddress). q.offset) a.0;
      sized = z;
      ends = ends;
      stands = st.0.2;
    })
each_placed vol_id base size head tail image (x ∷ l) (suc n) s t f (o, nx, dg, ks, z, p) a st h =
    each_placed vol_id base size (head + grow is_aligned_data x) (tail - shrink is_aligned_data x)
      image l n s (omega arith) f.1 p a.1 (subst (λ (k : ℕ). Stored image k l) nx st.1) h

-- ReadData of an entry that a written segment has.
pub read_data-IsWritten :
    {D : Type 0} (dev : Devices D) (seg : SegBase) (seg_id o n : ℕ) (slices : List KvSlice)
    (image : Buffer) (d d' : D) (s : KvSlice) (bytes : List ℕ)
    → IsDisk dev
    → IsLaidOut seg.vol
    → seg.seg_size ≡ 2 ^ seg.vol.seg_size_bit
    → calc_seg_offset_from_id seg.vol seg_id ≡ some o
    → o + seg.seg_size + seg.vol.start_off < u64_mod
    → IsWritten seg seg_id slices image
    → (write dev seg.vol image seg.seg_size (seg_offset seg.vol seg_id) d).1 ≡ true
    → d' ≡ (write dev seg.vol image seg.seg_size (seg_offset seg.vol seg_id) d).0
    → get_elem? slices n ≡ some s
    → 0 < data_len s
    → s.content ≡ some bytes
    → read_data dev seg.vol s.entry d' ≡ (ok, bytes)
read_data-IsWritten dev seg seg_id o n slices image d d' s bytes law l pow at wide written good disk
      nth pos c =
    let v = seg.vol in
    let origin = seg_offset_at v seg_id o at in
    let p =
      each_placed v.vol_id (seg_offset v seg_id) seg.seg_size size_of_seg_on_disk seg.seg_size image
        slices n s (omega arith) written.fits written.placed written.addressed written.stored nth in
    let ends = p.ends in
    let inside = p.inside in
    let header = s.entry.on_disk.header in
    let placed : s.entry.on_disk.address.offset ≡ o + p.off =
      p.offset ∙ omega (arith, origin, wide, inside) in
    let back : read dev v (data_len s) (o + header.data_offset) d' ≡ some bytes =
      read_of_slice dev v (seg_offset v seg_id) o header.data_offset header.data_offset (data_len s)
        seg.seg_size image d d' bytes law origin refl ends wide good disk
        (p.stands ∙ ap content_bytes c) in
    let size = p.sized in
    read_data_at dev v seg_id p.off o s.entry d' bytes l at (omega (arith, pow, inside)) placed
      (omega (arith, ends, wide, pos)) (omega (arith, size, pos))
      (subst (λ (k : ℕ). read dev v k (o + header.data_offset) d' ≡ some bytes) (sym size) back)

read_data_of_batch :
    {D : Type 0} (dev : Devices D) (v : Volume) (seg : SegBase) (seg_id o n : ℕ)
    (slices : List KvSlice) (image : Buffer) (d d' : D) (s : KvSlice) (bytes : List ℕ)
    → IsDisk dev
    → seg.vol ≡ v
    → seg.seg_size ≡ v.seg_size
    → IsLaidOut v
    → v.seg_size ≡ 2 ^ v.seg_size_bit
    → calc_seg_offset_from_id v seg_id ≡ some o
    → o + v.seg_size + v.start_off < u64_mod
    → IsWritten seg seg_id slices image
    → (write dev v image seg.seg_size (seg_offset v seg_id) d).1 ≡ true
    → d' ≡ (write dev v image seg.seg_size (seg_offset v seg_id) d).0
    → get_elem? slices n ≡ some s
    → 0 < data_len s
    → s.content ≡ some bytes
    → read_data dev v s.entry d' ≡ (ok, bytes)
read_data_of_batch dev v seg seg_id o n slices image d d' s bytes law e size l pow at wide written
      good disk nth pos c =
    let back = sym e in
    let off = ap (λ (x : Volume). x.start_off) back in
    let bit = ap (λ (x : Volume). 2 ^ x.seg_size_bit) back in
    subst (λ (x : Volume). read_data dev x s.entry d' ≡ (ok, bytes)) e
      (read_data-IsWritten dev seg seg_id o n slices image d d' s bytes law (subst IsLaidOut back l)
        (size ∙ pow ∙ bit)
        (subst (λ (x : Volume). calc_seg_offset_from_id x seg_id ≡ some o) back at)
        (omega (arith, wide, size, off)) written
        (subst (λ (x : Volume). (write dev x image seg.seg_size (seg_offset x seg_id) d).1 ≡ true)
          back good)
        (subst (λ (x : Volume). d' ≡ (write dev x image seg.seg_size (seg_offset x seg_id) d).0)
          back disk)
        nth pos c)

put-vol : (seg : SegBase) (s : KvSlice) → (Segment.put seg s).vol ≡ seg.vol
unfolding Segment.put
put-vol seg s = ground arith

pack_batch-IsPacked :
    (seg seg' : SegBase) (l : List KvSlice)
    → IsPacked seg
    → pack_batch seg l ≡ some seg'
    → IsPacked seg'
      × (seg'.slice_list ≡ seg.slice_list ++ l)
      × (seg'.seg_size ≡ seg.seg_size)
      × (seg'.vol ≡ seg.vol)
unfolding pack_batch
pack_batch-IsPacked seg seg' [] p h =
    let e = some-injective seg seg' h in
    (
      subst IsPacked e p,
      ap (λ (x : SegBase). x.slice_list) (sym e) ∙ sym (append-nil seg.slice_list),
      ap (λ (x : SegBase). x.seg_size) (sym e),
      ap (λ (x : SegBase). x.vol) (sym e),
    )
pack_batch-IsPacked seg seg' (s ∷ l) p h = elim (Bool-cases (Segment.try_put seg s)) [
  | inr large ↦ absurd (none-ne-some seg' (rw (large, pack_batch) at h))
  | inl room ↦
      let (q, list, size, vol) =
        pack_batch-IsPacked (Segment.put seg s) seg' l (put-IsPacked seg s p room).0
          (rw (room, pack_batch) at h) in
      let (one, same) = put-slice_list seg s in
      (
        q,
        list ∙ ap (λ (x : List KvSlice). x ++ l) one ∙ append_assoc seg.slice_list (s ∷ []) l,
        size ∙ same,
        vol ∙ put-vol seg s,
      )
]

pub numbered-IsPacked :
    (seg : SegBase) (seg_id : ℕ) → IsPacked seg → IsPacked (record seg { seg_id = some seg_id })
numbered-IsPacked seg seg_id p = record {
  word = p.word;
  fits = p.fits;
  head = p.head;
  tail = p.tail;
  counted = p.counted;
}

module _ {S D : Type 0} (ds : DataStor S) (access : Access S) (dev : Devices D) (clock : ℕ → KvTime)
    (now : ℕ) (buf : Buffer) where
  -- What follows a write that is OK.
  write_prepared_ok :
      (v : Volume) (seg_id size free_size : ℕ) (p : List KvSlice × Buffer) (st : State S D)
      → (write_prepared dev ds access clock now buf v seg_id size free_size (some p) st).1 ≡ ok
      → let w = write dev v p.1 size (seg_offset v seg_id) st.disk in
        let r = write_prepared dev ds access clock now buf v seg_id size free_size (some p) st in
        (w.1 ≡ true)
        × (r.0.disk ≡ w.0)
        × ((mid : World S) × (mid.0 ≡ st.world.0) × (r.0.world ≡ update_indexes ds p.0 mid))
  unfolding write_prepared
  write_prepared_ok v seg_id size free_size p st h =
      let w = write dev v p.1 size (seg_offset v seg_id) st.disk in
      let written : State S D = record st { disk = w.0 } in
      let (good, disk, world) =
        finish_ok ds access dev clock now buf seg_id free_size p.0 written w.1 h in
      let used = take_in_use dev ds access clock now buf seg_id free_size written in
      (
        good,
        disk ∙ take_in_use_disk ds access dev clock now buf seg_id free_size written,
        (used.world, take_in_use_index ds access dev clock now buf seg_id free_size written, world),
      )

  -- A batch that does not fit into one segment is refused, and nothing is done about the segment
  -- that was allocated for it.
  pub write_batch_large :
      (v : Volume) (seg_id : ℕ) (batch : List KvSlice) (st : State S D)
      → pack_batch (Segment.make v) batch ≡ none
      → write_batch dev ds access clock now buf v seg_id batch st ≡ (st, aborted)
  unfolding write_batch
  write_batch_large v seg_id batch st over = rw (over, write_batch) refl

  write_batch_packed :
      (v : Volume) (seg_id : ℕ) (batch : List KvSlice) (seg : SegBase) (p : List KvSlice × Buffer)
      (st : State S D)
      → pack_batch (Segment.make v) batch ≡ some seg
      → Segment.prepare clock buf now (record seg { seg_id = some seg_id }) ≡ some p
      → write_batch dev ds access clock now buf v seg_id batch st
        ≡ write_prepared dev ds access clock now buf v seg_id seg.seg_size
            (Segment.get_free_size seg)
            (some p)
            st
  unfolding write_batch
  write_batch_packed v seg_id batch seg p st fits prepared =
      rw (fits, write_batch)
        (ap
          (λ (o : Option (List KvSlice × Buffer)).
            write_prepared dev ds access clock now buf v seg_id seg.seg_size
              (Segment.get_free_size seg) o st)
          prepared)

  -- A batch that WriteBatchData wrote is read back: on a device that gives what was written, for
  -- slices that are whole and a volume with segments of 2 ^ seg_size_bit bytes, a status OK means
  -- that the index was updated with the slices of the batch in order, with the same keys and
  -- values and their entries filled in, and that ReadData of each of these entries on the new disk
  -- is OK with the value.
  pub read_data-write_batch :
      (v : Volume) (seg_id o : ℕ) (batch : List KvSlice) (st : State S D)
      → IsDisk dev
      → IsLaidOut v
      → v.seg_size ≡ 2 ^ v.seg_size_bit
      → v.seg_size < u32_mod
      → size_of_seg_on_disk ≤ v.seg_size
      → calc_seg_offset_from_id v seg_id ≡ some o
      → o + v.seg_size + v.start_off < u64_mod
      → AllWhole batch
      → (write_batch dev ds access clock now buf v seg_id batch st).1 ≡ ok
      → let after = (write_batch dev ds access clock now buf v seg_id batch st).0 in
        (slices : List KvSlice) × SameData batch slices
        × ((mid : World S) × (mid.0 ≡ st.world.0) × (after.world ≡ update_indexes ds slices mid))
        × ((n : ℕ) (s : KvSlice) (bytes : List ℕ)
            → get_elem? slices n ≡ some s
            → 0 < data_len s
            → s.content ≡ some bytes
            → read_data dev v s.entry after.disk ≡ (ok, bytes))
  unfolding Segment.make
  read_data-write_batch v seg_id o batch st law l pow w large at wide whole good =
      elim (Option-cases (pack_batch (Segment.make v) batch)) [
        | inl over ↦
            let bad : aborted ≡ ok =
              ap (λ (x : State S D × Status). x.1) (sym (write_batch_large v seg_id batch st over))
              ∙ good in
            absurd (ground arith)
        | inr (seg, fits) ↦
            let (packed, list, size, vol) =
              pack_batch-IsPacked (Segment.make v) seg batch (make-IsPacked v large w) fits in
            let numbered = record seg { seg_id = some seg_id } in
            let all = subst AllWhole (sym list) whole in
            let (p, prepared, written) =
              prepare-IsWritten clock buf now numbered seg_id (numbered-IsPacked seg seg_id packed)
                all refl in
            let q = write_batch_packed v seg_id batch seg p st fits prepared in
            let (wrote, disk, (mid, same, world)) =
              write_prepared_ok v seg_id seg.seg_size (Segment.get_free_size seg) p st
                (ap (λ (x : State S D × Status). x.1) (sym q) ∙ good) in
            (
              p.0,
              subst (λ (l : List KvSlice). SameData l p.0) list written.same,
              (mid, same, ap (λ (x : State S D × Status). x.0.world) q ∙ world),
              λ n s bytes nth pos c.
                  read_data_of_batch dev v numbered seg_id o n p.0 p.1 st.disk
                    (write_batch dev ds access clock now buf v seg_id batch st).0.disk s bytes law
                    vol size l pow at wide written wrote
                    (ap (λ (x : State S D × Status). x.0.disk) q ∙ disk) nth pos c,
            )
      ]
