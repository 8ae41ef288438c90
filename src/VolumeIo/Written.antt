-- ===== src/VolumeIo/Written.antt =====
-- A value that writeDataImmediately wrote, read back through the index by ReadData.
use hlkvds.Prelude.{
  ℕ, ◌+◌, ◌<◌, ◌≤◌, ◌≡◌, refl, sym, ◌∙◌, true, some, List, [], ◌∷◌, arith, u32_mod, u32_add,
  u32_sub, inr, subst,
}
use hlkvds.Utils.{KvTime}
use hlkvds.KvSlice.{KvSlice, key_len, data_len}
use hlkvds.HashEntry.{size_of_data_header}
use hlkvds.Memory.{Buffer, blit, bytes_at, blit_outside}
use hlkvds.SegmentManager.{size_of_seg_on_disk}
use hlkvds.Volume.{Volume}
use hlkvds.Segment.{
  SegHeaderOnDisk, encode_seg_header, fill_from, copy_from, filled, need_size, content_bytes,
}
use hlkvds.Segment.Layout.{IsWhole, IsPlacement, Stored, length-encode_seg_header}
use hlkvds.Segment.Packing.{Fits, end_of-Fits}
use hlkvds.Segment.Written.{
  AllWhole, Placed, SameData, IsByLength, fill_from-Placed, copy_from-IsCopied, Stored-Agree,
}
use hlkvds.LatencyFriendly.{
  SegLatencyFriendly, behind_key, write_size, copy_to_data_buf, put-write_size,
}
use hlkvds.LatencyFriendly

behind_key-IsPlacement : IsPlacement behind_key
behind_key-IsPlacement s h = absurd (ground arith)

behind_key-IsByLength : IsByLength behind_key
behind_key-IsByLength s t e = refl

-- The one slice as writeDataImmediately fills it in.
abbrev pub slice_written : Volume → ℕ → (ℕ → KvTime) → KvSlice → KvSlice
slice_written v seg_id clock s =
    let body = u32_add size_of_seg_on_disk (size_of_data_header + key_len s) in
    filled v seg_id (clock 0) size_of_seg_on_disk body (u32_add body (data_len s)) s

fill_one :
    (v : Volume) (seg_id : ℕ) (clock : ℕ → KvTime) (tail : ℕ) (s : KvSlice)
    → (fill_from behind_key v seg_id clock 0 size_of_seg_on_disk tail (s ∷ [])).0
      ≡ slice_written v seg_id clock s ∷ []
unfolding fill_from
fill_one v seg_id clock tail s = refl

copied-Stored :
    (buf : Buffer) (now : ℕ) (seg : SegLatencyFriendly) (l : List KvSlice)
    → Placed behind_key size_of_seg_on_disk seg.seg_size l
    → Fits behind_key size_of_seg_on_disk seg.seg_size l
    → AllWhole l
    → seg.seg_size < u32_mod
    → Stored (copy_to_data_buf buf now seg l) size_of_seg_on_disk l
unfolding copy_to_data_buf
copied-Stored buf now seg l p f a w =
    let (stored, x, y, same) =
      copy_from-IsCopied behind_key behind_key-IsPlacement buf size_of_seg_on_disk seg.seg_size l p
        f a w in
    let r = copy_from behind_key buf size_of_seg_on_disk seg.seg_size l in
    let h : SegHeaderOnDisk = record {
      timestamp = now;
      trx_id = 0;
      trx_segs = 0;
      checksum_data = 0;
      checksum_length = u32_sub seg.head_pos size_of_seg_on_disk;
      number_keys = seg.key_num;
    } in
    let agree : (i : ℕ) → size_of_seg_on_disk ≤ i → r.0 i ≡ blit r.0 0 (encode_seg_header h) i =
      λ i u.
        sym
          (blit_outside r.0 0 (encode_seg_header h) i (inr (rw (length-encode_seg_header h) u))) in
    let ends = end_of-Fits behind_key size_of_seg_on_disk seg.seg_size l f in
    Stored-Agree behind_key behind_key-IsPlacement r.0 (blit r.0 0 (encode_seg_header h))
      size_of_seg_on_disk seg.seg_size l p f (λ i u o. agree i u)
      (λ i u o. agree i (omega (arith, ends))) stored

-- WriteSegToDevice of a segment that holds the one slice.
pub one_prepared :
    (v : Volume) (seg_id : ℕ) (clock : ℕ → KvTime) (now : ℕ) (buf : Buffer) (s : KvSlice)
    → IsWhole s
    → v.seg_size < u32_mod
    → LatencyFriendly.try_put (LatencyFriendly.make v) s ≡ true
    → size_of_seg_on_disk ≤ v.seg_size
    → let seg = LatencyFriendly.put (LatencyFriendly.make v) s in
      let s' = slice_written v seg_id clock s in
      (image : Buffer) × (LatencyFriendly.prepare clock buf now
          (record seg { seg_id = some seg_id })
        ≡ some (s' ∷ [], image))
      × (s'.entry.on_disk.header.data_offset ≡ 64 + key_len s)
      × (bytes_at image (64 + key_len s) (data_len s) ≡ content_bytes s.content)
      × (seg.head_pos ≡ 64 + key_len s + data_len s)
unfolding LatencyFriendly.try_put LatencyFriendly.make LatencyFriendly.put LatencyFriendly.prepare
one_prepared v seg_id clock now buf s whole w fits large =
    let seg = LatencyFriendly.put (LatencyFriendly.make v) s in
    let s' = slice_written v seg_id clock s in
    let room : size_of_seg_on_disk + need_size s < v.seg_size = ground arith in
    let f : Fits behind_key size_of_seg_on_disk v.seg_size (s ∷ []) = (omega arith, omega arith) in
    let filled_in =
      fill_from-Placed behind_key behind_key-IsByLength v seg_id clock 0 size_of_seg_on_disk
        v.seg_size (s ∷ []) f w (whole, tt) in
    let e = fill_one v seg_id clock v.seg_size s in
    let (p, g, a, d) =
      subst
        (λ (r : List KvSlice).
          Placed behind_key size_of_seg_on_disk v.seg_size r
          × Fits behind_key size_of_seg_on_disk v.seg_size r
          × AllWhole r
          × SameData (s ∷ []) r)
        e filled_in in
    let image = copy_to_data_buf buf now (record seg { seg_id = some seg_id }) (s' ∷ []) in
    let stored = copied-Stored buf now (record seg { seg_id = some seg_id }) (s' ∷ []) p g a w in
    (
      image,
      (λ i. some (e i, copy_to_data_buf buf now (record seg { seg_id = some seg_id }) (e i))),
      omega (arith, p.0),
      (λ i. bytes_at image (sym p.0 i) (data_len s)) ∙ stored.0.2,
      ground arith,
    )
