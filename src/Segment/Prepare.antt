-- ===== src/Segment/Prepare.antt =====
-- WriteSegToDevice up to the write: the image of a packed segment.
use hlkvds.Prelude.{
  ℕ, zero, suc, ◌+◌, ◌-◌, ◌<◌, ◌≤◌, ◌≡◌, refl, ◌∙◌, Bool, some, List, [], ◌∷◌, arith, ◌==◌, length,
  replicate, inl, inr, ap, sym, ◌⊎◌,
}
use hlkvds.KvSlice.{KvSlice, is_aligned_data, aligned_size}
use hlkvds.Memory.{
  Buffer, blit, zero_fill, bytes_at, bytes_at-Agree, bytes_at-blit, blit_outside, zero_fill_outside,
}
use hlkvds.SegmentManager.{size_of_seg_on_disk}
use hlkvds.Utils.{KvTime}
use hlkvds.Segment.{
  SegBase, encode_seg_header, decode_seg_header, SegHeaderOnDisk, fill_from, copy_from,
  copy_to_data_buf, prepare, seg_offset,
}
use hlkvds.Segment.Layout.{IsPlacement, Stored, length-encode_seg_header, number_keys-encode}
use hlkvds.Segment.Packing.{Fits, end_of, grow, shrink, end_of-Fits, IsPacked}
use hlkvds.Segment.Written.{
  AllWhole, Placed, SameData, IsByLength, Stored-Agree, copy_from-IsCopied, fill_from-Placed,
  Addressed, fill_from-Addressed,
}

pub is_aligned_data-IsPlacement : IsPlacement is_aligned_data
is_aligned_data-IsPlacement s h = ground (arith, h)

pub is_aligned_data-IsByLength : IsByLength is_aligned_data
is_aligned_data-IsByLength s t e = ap (λ (n : ℕ). n == aligned_size) e

-- A written segment: the slices are those of the segment with their entries filled in, they stand
-- where the entries say, the header counts them, and the free part is zero.
pub record IsWritten (seg : SegBase) (seg_id : ℕ) (slices : List KvSlice) (buf : Buffer)
    : Type 0 where
  pub same : SameData seg.slice_list slices
  pub whole : AllWhole slices
  pub fits : Fits is_aligned_data size_of_seg_on_disk seg.seg_size slices
  pub placed : Placed is_aligned_data size_of_seg_on_disk seg.seg_size slices
  pub stored : Stored buf size_of_seg_on_disk slices
  pub addressed :
      Addressed seg.vol.vol_id
        (seg_offset seg.vol seg_id)
        is_aligned_data
        size_of_seg_on_disk
        slices
  pub counted : (decode_seg_header (bytes_at buf 0 size_of_seg_on_disk)).number_keys ≡ length slices
  pub zeroed :
      let ends = end_of is_aligned_data size_of_seg_on_disk seg.seg_size slices in
      bytes_at buf ends.0 (ends.1 - ends.0) ≡ replicate (ends.1 - ends.0) 0

bytes_at_zero :
    (b : Buffer) (off n : ℕ)
    → ((i : ℕ) → off ≤ i → i < off + n → b i ≡ 0)
    → bytes_at b off n ≡ replicate n 0
unfolding bytes_at
bytes_at_zero b off zero h = refl
bytes_at_zero b off (suc n) h = ground (
  arith,
  h off (omega arith) (omega arith),
  bytes_at_zero b (off + 1) n (λ i p q. h i (omega arith) (omega arith)),
)

Fits-length :
    (aligned : KvSlice → Bool) (head tail : ℕ) (l : List KvSlice)
    → Fits aligned head tail l
    → head + length l ≤ tail
Fits-length aligned head tail [] f = omega arith
Fits-length aligned head tail (s ∷ l) f =
    omega (arith, Fits-length aligned (head + grow aligned s) (tail - shrink aligned s) l f.1)

SameData-length : (l m : List KvSlice) → SameData l m → length l ≡ length m
SameData-length [] [] d = refl
SameData-length [] (t ∷ m) d = absurd d
SameData-length (s ∷ l) [] d = absurd d
SameData-length (s ∷ l) (t ∷ m) (a, b, c, e, f, d) = let same = SameData-length l m d in omega arith

bytes_at-image :
    (buf : Buffer) (h : SegHeaderOnDisk) (begin end : ℕ)
    → size_of_seg_on_disk ≤ begin
    → bytes_at (zero_fill (blit buf 0 (encode_seg_header h)) begin end) 0 size_of_seg_on_disk
      ≡ encode_seg_header h
bytes_at-image buf h begin end w =
    bytes_at-Agree (zero_fill (blit buf 0 (encode_seg_header h)) begin end)
      (blit buf 0 (encode_seg_header h)) 0 size_of_seg_on_disk
      (λ i x y.
        zero_fill_outside (blit buf 0 (encode_seg_header h)) begin end i (inl (omega arith)))
    ∙ ap (bytes_at (blit buf 0 (encode_seg_header h)) 0) (sym (length-encode_seg_header h))
    ∙ bytes_at-blit buf 0 (encode_seg_header h)

zero_fill_inside :
    (buf : Buffer) (begin end i : ℕ) → begin ≤ i → i < end → zero_fill buf begin end i ≡ 0
unfolding zero_fill
zero_fill_inside buf begin end i h k = ground arith

copy_to_data_buf-IsWritten :
    (buf : Buffer) (now : ℕ) (seg : SegBase) (seg_id : ℕ) (slices : List KvSlice)
    → IsPacked seg
    → SameData seg.slice_list slices
    → AllWhole slices
    → Fits is_aligned_data size_of_seg_on_disk seg.seg_size slices
    → Placed is_aligned_data size_of_seg_on_disk seg.seg_size slices
    → Addressed seg.vol.vol_id
        (seg_offset seg.vol seg_id)
        is_aligned_data
        size_of_seg_on_disk
        slices
    → IsWritten seg seg_id slices (copy_to_data_buf buf now seg.seg_size slices seg.key_num)
unfolding copy_to_data_buf
copy_to_data_buf-IsWritten buf now seg seg_id slices v d a f p q =
    let r = copy_from is_aligned_data buf size_of_seg_on_disk seg.seg_size slices in
    let (stored, x, y, same) =
      copy_from-IsCopied is_aligned_data is_aligned_data-IsPlacement buf size_of_seg_on_disk
        seg.seg_size slices p f a v.word in
    let ends = end_of-Fits is_aligned_data size_of_seg_on_disk seg.seg_size slices f in
    let h : SegHeaderOnDisk = record {
      timestamp = now;
      trx_id = 0;
      trx_segs = 0;
      checksum_data = 0;
      checksum_length = 0;
      number_keys = seg.key_num;
    } in
    let one = blit r.0 0 (encode_seg_header h) in
    let image = zero_fill one r.1 r.2 in
    let keys : seg.key_num ≡ length slices = v.counted ∙ SameData-length seg.slice_list slices d in
    let short = Fits-length is_aligned_data size_of_seg_on_disk seg.seg_size slices f in
    let agree : (i : ℕ) → size_of_seg_on_disk ≤ i → (i < r.1) ⊎ (r.2 ≤ i) → r.0 i ≡ image i =
      λ i u c. sym (
        zero_fill_outside one r.1 r.2 i c
        ∙ blit_outside r.0 0 (encode_seg_header h) i (inr (rw (length-encode_seg_header h) u))) in
    record {
      same = d;
      whole = a;
      fits = f;
      placed = p;
      addressed = q;
      stored =
          Stored-Agree is_aligned_data is_aligned_data-IsPlacement r.0 image size_of_seg_on_disk
            seg.seg_size slices p f (λ i u w. agree i u (inl (omega arith)))
            (λ i u w. agree i (omega (arith, ends)) (inr (omega arith))) stored;
      counted =
          ap (λ (b : List ℕ). (decode_seg_header b).number_keys)
            (bytes_at-image r.0 h r.1 r.2 (omega (arith, ends)))
          ∙ number_keys-encode h (omega (arith, v.word))
          ∙ keys;
      zeroed =
          let e = end_of is_aligned_data size_of_seg_on_disk seg.seg_size slices in
          bytes_at_zero image e.0 (e.1 - e.0)
            (λ i u w. zero_fill_inside one r.1 r.2 i (omega arith) (omega (arith, ends)));
    }

-- WriteSegToDevice on a packed segment with a number succeeds, and the image that it writes holds
-- every slice where its entry says.
pub prepare-IsWritten :
    (clock : ℕ → KvTime) (buf : Buffer) (now : ℕ) (seg : SegBase) (seg_id : ℕ)
    → IsPacked seg
    → AllWhole seg.slice_list
    → seg.seg_id ≡ some seg_id
    → (r : List KvSlice × Buffer) × (prepare clock buf now seg ≡ some r)
      × IsWritten seg seg_id r.0 r.1
unfolding prepare
prepare-IsWritten clock buf now seg seg_id v a e =
    let slices =
      (fill_from is_aligned_data seg.vol seg_id clock 0 size_of_seg_on_disk seg.seg_size
        seg.slice_list).0 in
    let (p, f, w, d) =
      fill_from-Placed is_aligned_data is_aligned_data-IsByLength seg.vol seg_id clock 0
        size_of_seg_on_disk seg.seg_size seg.slice_list v.fits v.word a in
    (
      (slices, copy_to_data_buf buf now seg.seg_size slices seg.key_num),
      rw e refl,
      copy_to_data_buf-IsWritten buf now seg seg_id slices v d w f p (
          fill_from-Addressed is_aligned_data is_aligned_data-IsByLength seg.vol seg_id clock 0
            size_of_seg_on_disk seg.seg_size seg.slice_list v.fits v.word),
    )
