-- ===== src/LatencyFriendly.antt =====
-- SegLatencyFriendly of Segment.h and Segment.cc: the segment of the fast tier. It keeps one
-- position, puts every value behind its key, and writes only the pages that it uses.
use hlkvds.Prelude.{
  ℕ, zero, suc, ◌+◌, ◌-◌, ◌*◌, ◌/◌, ◌<◌, ◌≤◌, ◌≡◌, ◌∙◌, refl, Bool, true, false, Option, none, some,
  List, [], ◌∷◌, ◌++◌, ltb, drop, arith, ◌%◌, ap, sym, u32_mod, u32_add, u32_sub,
}
use hlkvds.HashEntry.{size_of_data_header}
use hlkvds.KvSlice.{KvSlice, key_len, data_len, aligned_size}
use hlkvds.Memory.{Buffer, blit, bytes_at}
use hlkvds.SegmentManager.{size_of_seg_on_disk}
use hlkvds.Utils.{KvTime}
use hlkvds.Volume.{Volume}
use hlkvds.Segment.{
  encode_seg_header, SegHeaderOnDisk, need_size, need_list, fill_from, copy_from, content_bytes,
}
use hlkvds.Segment.Layout.{IsWhole, StoredAt}
use hlkvds.Segment.Packing.{grow}
use hlkvds.Segment.Written.{Placed}
use hlkvds.Gc.{load_slice, key_offset}

pub record SegLatencyFriendly : Type 0 where
  pub seg_id : Option ℕ
  pub vol : Volume
  pub seg_size : ℕ
  pub head_pos : ℕ
  pub key_num : ℕ
  pub slice_list : List KvSlice

-- SegLatencyFriendly(vol, im)
unfoldable pub make : Volume → SegLatencyFriendly
make vol = record {
  seg_id = none;
  vol = vol;
  seg_size = vol.seg_size;
  head_pos = size_of_seg_on_disk;
  key_num = 0;
  slice_list = [];
}

unfoldable pub try_put : SegLatencyFriendly → KvSlice → Bool
try_put seg s = ltb (need_size s) (u32_sub seg.seg_size seg.head_pos)

unfoldable pub put : SegLatencyFriendly → KvSlice → SegLatencyFriendly
put seg s = record seg {
  head_pos = u32_add seg.head_pos (size_of_data_header + key_len s + data_len s);
  key_num = seg.key_num + 1;
  slice_list = seg.slice_list ++ s ∷ [];
}

unfoldable pub try_put_list : SegLatencyFriendly → List KvSlice → Bool
unfolding need_list
try_put_list seg l = ltb (need_list 0 l) (u32_sub seg.seg_size seg.head_pos)

unfoldable pub put_list : SegLatencyFriendly → List KvSlice → SegLatencyFriendly
unfolding put
put_list seg [] = seg
put_list seg (s ∷ l) = put_list (put seg s) l

abbrev pub behind_key : KvSlice → Bool
behind_key s = false

-- `(headPos_ / getpagesize() + 1) * getpagesize()`, for pages of 4096 bytes.
unfoldable pub write_size : SegLatencyFriendly → ℕ
write_size seg = (seg.head_pos / 4096 + 1) * 4096

-- copyToDataBuf: nothing is cleared behind the last slice.
unfoldable pub copy_to_data_buf : Buffer → ℕ → SegLatencyFriendly → List KvSlice → Buffer
unfolding copy_from encode_seg_header blit
copy_to_data_buf buf now seg slices =
    let copied = copy_from behind_key buf size_of_seg_on_disk seg.seg_size slices in
    let header : SegHeaderOnDisk = record {
      timestamp = now;
      trx_id = 0;
      trx_segs = 0;
      checksum_data = 0;
      checksum_length = u32_sub seg.head_pos size_of_seg_on_disk;
      number_keys = seg.key_num;
    } in
    blit copied.0 0 (encode_seg_header header)

-- WriteSegToDevice up to the write.
unfoldable pub prepare :
    (ℕ → KvTime) → Buffer → ℕ → SegLatencyFriendly → Option (List KvSlice × Buffer)
unfolding fill_from copy_to_data_buf
prepare clock buf now seg = elim seg.seg_id [
  | none ↦ none
  | some seg_id ↦
      let slices =
        (fill_from behind_key seg.vol seg_id clock 0 size_of_seg_on_disk seg.seg_size
          seg.slice_list).0 in
      some (slices, copy_to_data_buf buf now seg slices)
]

-- A put after a successful test leaves the position inside the segment, and then the pages that are
-- written cover all that is used and end inside the segment.
pub put-write_size :
    (seg : SegLatencyFriendly) (s : KvSlice)
    → seg.seg_size < u32_mod
    → seg.seg_size % 4096 ≡ 0
    → seg.head_pos ≤ seg.seg_size
    → try_put seg s ≡ true
    → ((put seg s).head_pos ≡ seg.head_pos + need_size s)
      × ((put seg s).head_pos < write_size (put seg s))
      × (write_size (put seg s) ≤ seg.seg_size)
unfolding put try_put write_size
put-write_size seg s w p h t = ground arith

drop-bytes_at :
    (buf : Buffer) (off k n m at : ℕ)
    → m ≡ k + n
    → at ≡ off + k
    → drop k (bytes_at buf off m) ≡ bytes_at buf at n
unfolding bytes_at
drop-bytes_at buf off zero n m at e a =
    let e' : m ≡ n = omega arith in let a' : at ≡ off = omega arith in rw (e', a') refl
drop-bytes_at buf off (suc k) n zero at e a = absurd (omega arith)
drop-bytes_at buf off (suc k) n (suc m) at e a =
    drop-bytes_at buf (off + 1) k n m at (omega arith) (omega arith)

key_offset-behind_key :
    (head tail : ℕ) (s : KvSlice) (l : List KvSlice)
    → Placed behind_key head tail (s ∷ l)
    → head + grow behind_key s ≤ tail
    → tail < u32_mod
    → data_len s ≡ aligned_size
    → key_len s ≤ aligned_size
    → key_offset s.entry.on_disk.header
      ≡ s.entry.on_disk.header.data_offset + (aligned_size - key_len s)
unfolding key_offset
key_offset-behind_key head tail s l (o, n, d, k, z, p) f t a c = ground (arith, o, n, k, z, a, c)

-- loadSegKV takes a value of 4096 bytes for one that stands at the end of the segment. For such a
-- value in a segment of this kind it reads the last bytes of the value as the key.
pub load_slice-behind_key :
    (buf : Buffer) (head tail : ℕ) (s : KvSlice) (l : List KvSlice)
    → Placed behind_key head tail (s ∷ l)
    → head + grow behind_key s ≤ tail
    → tail < u32_mod
    → IsWhole s
    → StoredAt buf head s
    → data_len s ≡ aligned_size
    → key_len s ≤ aligned_size
    → (load_slice buf s.entry.on_disk.header).key
      ≡ drop (aligned_size - key_len s) (content_bytes s.content)
unfolding load_slice
load_slice-behind_key buf head tail s l (o, n, d, k, z, p) f t w (h, q, b) a c =
    let g = s.entry.on_disk.header in
    let at : key_offset g ≡ g.data_offset + (aligned_size - key_len s) =
      key_offset-behind_key head tail s l (o, n, d, k, z, p) f t a c in
    (λ i. bytes_at buf (key_offset g) (k i))
    ∙ sym (
        drop-bytes_at buf g.data_offset (aligned_size - key_len s) (key_len s) (data_len s)
          (key_offset g) (omega arith) at)
    ∙ ap (drop (aligned_size - key_len s)) b
