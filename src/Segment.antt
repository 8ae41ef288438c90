-- ===== src/Segment.antt =====
-- Segment.h and Segment.cc: slices packed into a segment. SegBase writes a value of exactly 4096
-- bytes at the end of the segment and everything else behind its key; SegLatencyFriendly writes every
-- value behind its key. The loops of the two classes differ in that test alone, `aligned` here.
pub mod Layout
pub mod Packing
pub mod Prepare
pub mod Written
use hlkvds.Prelude.{
  ℕ, zero, suc, ◌+◌, ◌-◌, ◌*◌, ◌/◌, Bool, true, false, Option, none, some, List, [], ◌∷◌, ◌++◌, ltb,
  ◌==◌, if◌then◌else◌, length, take, u32_add, u32_sub, u64_add,
}
use hlkvds.Digest.{Digest}
use hlkvds.HashEntry.{DataHeader, HashEntryOnDisk, HashEntry, size_of_data_header}
use hlkvds.KvSlice.{KvSlice, key_len, data_len, is_aligned_data, aligned_size}
use hlkvds.Memory.{Buffer, blit, zero_fill, bytes_at, le2, le4, le8, word2, word4, word8}
use hlkvds.SegmentManager.{size_of_seg_on_disk}
use hlkvds.Utils.{KvTime}
use hlkvds.Volume.{Volume, calc_seg_offset_from_id}

pub record SegHeaderOnDisk : Type 0 where
  pub timestamp : ℕ
  pub trx_id : ℕ
  pub trx_segs : ℕ
  pub checksum_data : ℕ
  pub checksum_length : ℕ
  pub number_keys : ℕ

-- The bytes of the two packed structs.
unfoldable pub encode_seg_header : SegHeaderOnDisk → List ℕ
encode_seg_header h =
    le8 h.timestamp
    ++ (le8 h.trx_id
        ++ (le4 h.trx_segs
            ++ (le4 h.checksum_data ++ (le4 h.checksum_length ++ le4 h.number_keys))))

unfoldable pub decode_seg_header : List ℕ → SegHeaderOnDisk
decode_seg_header b = record {
  timestamp = word8 b 0;
  trx_id = word8 b 8;
  trx_segs = word4 b 16;
  checksum_data = word4 b 20;
  checksum_length = word4 b 24;
  number_keys = word4 b 28;
}

unfoldable pub encode_header : DataHeader → List ℕ
encode_header h =
    let d = h.key_digest in
    le4 d.v0
    ++ (le4 d.v1
        ++ (le4 d.v2
            ++ (le4 d.v3
                ++ (le4 d.v4
                    ++ (le2 h.key_size
                        ++ (le2 h.data_size ++ (le4 h.data_offset ++ le4 h.next_header_offset)))))))

unfoldable pub decode_header : List ℕ → DataHeader
decode_header b = record {
  key_digest = record {
    v0 = word4 b 0;
    v1 = word4 b 4;
    v2 = word4 b 8;
    v3 = word4 b 12;
    v4 = word4 b 16;
  };
  key_size = word2 b 20;
  data_size = word2 b 22;
  data_offset = word4 b 24;
  next_header_offset = word4 b 28;
}

-- The key and the value as they are copied.
abbrev pub key_bytes : KvSlice → List ℕ
key_bytes s = take (key_len s) s.key

abbrev pub content_bytes : Option (List ℕ) → List ℕ
content_bytes none = []
content_bytes (some bytes) = bytes

abbrev pub data_bytes : KvSlice → List ℕ
data_bytes s = take (data_len s) (content_bytes s.content)

-- SegBase
pub record SegBase : Type 0 where
  pub seg_id : Option ℕ
  pub vol : Volume
  pub seg_size : ℕ
  pub head_pos : ℕ
  pub tail_pos : ℕ
  pub key_num : ℕ
  pub key_aligned_num : ℕ
  pub slice_list : List KvSlice

-- SegBase(vol)
unfoldable pub make : Volume → SegBase
make vol = record {
  seg_id = none;
  vol = vol;
  seg_size = vol.seg_size;
  head_pos = size_of_seg_on_disk;
  tail_pos = vol.seg_size;
  key_num = 0;
  key_aligned_num = 0;
  slice_list = [];
}

unfoldable pub get_free_size : SegBase → ℕ
get_free_size seg = u32_sub seg.tail_pos seg.head_pos

abbrev pub need_size : KvSlice → ℕ
need_size s = data_len s + key_len s + size_of_data_header

unfoldable pub try_put : SegBase → KvSlice → Bool
unfolding get_free_size
try_put seg s = ltb (need_size s) (get_free_size seg)

unfoldable pub put : SegBase → KvSlice → SegBase
put seg s =
    if is_aligned_data s
    then record seg {
      head_pos = u32_add seg.head_pos (size_of_data_header + key_len s);
      tail_pos = u32_sub seg.tail_pos aligned_size;
      key_aligned_num = seg.key_aligned_num + 1;
      key_num = seg.key_num + 1;
      slice_list = seg.slice_list ++ s ∷ [];
    }
    else record seg {
      head_pos = u32_add seg.head_pos (size_of_data_header + key_len s + data_len s);
      key_num = seg.key_num + 1;
      slice_list = seg.slice_list ++ s ∷ [];
    }

unfoldable pub need_list : ℕ → List KvSlice → ℕ
need_list need [] = need
need_list need (s ∷ l) = need_list (u32_add need (need_size s)) l

unfoldable pub try_put_list : SegBase → List KvSlice → Bool
unfolding need_list get_free_size
try_put_list seg l = ltb (need_list 0 l) (get_free_size seg)

unfoldable pub put_list : SegBase → List KvSlice → SegBase
unfolding put
put_list seg [] = seg
put_list seg (s ∷ l) = put_list (put seg s) l

-- CalcSegOffsetFromId into a variable that is 0, its result ignored.
abbrev pub seg_offset : Volume → ℕ → ℕ
seg_offset v seg_id = elim (calc_seg_offset_from_id v seg_id) [ none ↦ 0 | some o ↦ o ]

-- The slice with its number and the entry that its place in the segment gives. The entry is stamped
-- with the time of its construction.
abbrev pub filled : Volume → ℕ → KvTime → ℕ → ℕ → ℕ → KvSlice → KvSlice
filled v seg_id now head data_offset next_offset s = record s {
  seg_id = seg_id;
  entry = record {
    on_disk = record {
      header = record {
        key_digest = s.digest;
        key_size = key_len s;
        data_size = data_len s;
        data_offset = data_offset;
        next_header_offset = next_offset;
      };
      address = record { location = v.vol_id; offset = u64_add (seg_offset v seg_id) head };
    };
    stamp = record { seg_time = now; key_no = 0 };
  };
}

-- The loop of fillEntryToSlice: the filled slices with the positions at its end. `clock k` is what
-- the k-th entry's constructor reads off the clock.
unfoldable pub fill_from :
    (KvSlice → Bool) → Volume → ℕ → (ℕ → KvTime) → ℕ → ℕ → ℕ → List KvSlice → List KvSlice × ℕ × ℕ
fill_from aligned v seg_id clock k head tail [] = ([], head, tail)
fill_from aligned v seg_id clock k head tail (s ∷ l) =
    let body = u32_add head (size_of_data_header + key_len s) in
    let tail' = if aligned s then u32_sub tail aligned_size else tail in
    let next = if aligned s then body else u32_add body (data_len s) in
    let rest = fill_from aligned v seg_id clock (suc k) next tail' l in
    (
      filled v seg_id (clock k) head (if aligned s then tail' else body) next s ∷ rest.0,
      rest.1,
      rest.2,
    )

-- The loop of copyToDataBuf, with `offset_begin` and `offset_end`.
unfoldable pub copy_from : (KvSlice → Bool) → Buffer → ℕ → ℕ → List KvSlice → Buffer × ℕ × ℕ
unfolding encode_header blit
copy_from aligned buf begin end [] = (buf, begin, end)
copy_from aligned buf begin end (s ∷ l) =
    let b = u32_add begin size_of_data_header in
    let b' = u32_add b (key_len s) in
    let end' = if aligned s then u32_sub end (data_len s) else end in
    let with_key = blit (blit buf begin (encode_header s.entry.on_disk.header)) b (key_bytes s) in
    copy_from aligned (blit with_key (if aligned s then end' else b') (data_bytes s))
      (if aligned s then b' else u32_add b' (data_len s)) end' l

-- copyToDataBuf of SegBase over the allocated buffer: the slices, the segment's header, and zeroes
-- in what is free.
unfoldable pub copy_to_data_buf : Buffer → ℕ → ℕ → List KvSlice → ℕ → Buffer
unfolding copy_from encode_seg_header blit zero_fill
copy_to_data_buf buf now seg_size slices key_num =
    let (copied, begin, end) = copy_from is_aligned_data buf size_of_seg_on_disk seg_size slices in
    let header : SegHeaderOnDisk = record {
      timestamp = now;
      trx_id = 0;
      trx_segs = 0;
      checksum_data = 0;
      checksum_length = 0;
      number_keys = key_num;
    } in
    zero_fill (blit copied 0 (encode_seg_header header)) begin end

-- WriteSegToDevice up to the write: the filled slices and the bytes of the segment. Without a
-- segment number it fails.
unfoldable pub prepare : (ℕ → KvTime) → Buffer → ℕ → SegBase → Option (List KvSlice × Buffer)
unfolding fill_from copy_to_data_buf
prepare clock buf now seg = elim seg.seg_id [
  | none ↦ none
  | some seg_id ↦
      let slices =
        (fill_from is_aligned_data seg.vol seg_id clock 0 size_of_seg_on_disk seg.seg_size
          seg.slice_list).0 in
      some (slices, copy_to_data_buf buf now seg.seg_size slices seg.key_num)
]
