-- ===== src/Gc/Load.antt =====
-- loadKvList on the buffer of a segment that SegBase wrote (GcManager.cc, Migrate.cc).
use hlkvds.Prelude.{
  ℕ, suc, ◌+◌, ◌-◌, ◌<◌, ◌≤◌, ◌≡◌, refl, ◌∙◌, Bool, Option, some, List, [], ◌∷◌, arith, ◌==◌, ◌&&◌,
  if◌then◌else◌, length, u32_mod, not, ap, sym,
}
use hlkvds.HashEntry.{DataHeader, HashEntry, size_of_data_header}
use hlkvds.KvSlice.{KvSlice, key_len, data_len, is_aligned_data, no_entry}
use hlkvds.Memory.{Buffer, bytes_at}
use hlkvds.SegmentManager.{size_of_seg_on_disk}
use hlkvds.Utils.{KvTime}
use hlkvds.Segment.{SegBase, decode_header, content_bytes, seg_offset}
use hlkvds.Segment.Layout.{IsWhole, IsNarrow, StoredAt, Stored, decode_header-encode_header}
use hlkvds.Segment.Packing.{Fits, grow, shrink}
use hlkvds.Segment.Written.{Placed, Addressed, AllWhole}
use hlkvds.Segment.Prepare.{IsWritten}
use hlkvds.IndexManager.{IndexManager, is_same_in_mem}
use hlkvds.Gc.{key_offset, load_slice, entry_at, load_from, load_seg_kv, load_kv_list}

-- A slice as it comes back: its key, its value and its digest, with its lengths.
abbrev pub reloaded : KvSlice → KvSlice
reloaded s = record {
  key = s.key;
  key_length = key_len s;
  content = some (content_bytes s.content);
  data_length = data_len s;
  digest = s.digest;
  entry = no_entry s.digest;
  entry_gc = no_entry s.digest;
  seg_id = 0;
}

-- The slices of a written segment that are live: the index has their address, and they have data.
unfoldable pub live :
    (HashEntry → KvSlice → KvSlice)
    → (HashEntry → Bool)
    → (ℕ → KvTime)
    → ℕ
    → List KvSlice
    → List KvSlice
live mark same clock k [] = []
live mark same clock k (s ∷ l) =
    let e : HashEntry = record {
      on_disk = s.entry.on_disk;
      stamp = record { seg_time = clock k; key_no = 0 };
    } in
    let rest = live mark same clock (suc k) l in
    if same e && not (data_len s == 0) then mark e (reloaded s) ∷ rest else rest

-- The header of a placed slice fits its widths.
header-IsNarrow :
    (head tail : ℕ) (s : KvSlice) (l : List KvSlice)
    → Placed is_aligned_data head tail (s ∷ l)
    → head + grow is_aligned_data s + shrink is_aligned_data s ≤ tail
    → tail < u32_mod
    → IsWhole s
    → IsNarrow s.entry.on_disk.header
header-IsNarrow head tail s l (o, n, d, k, z, p) f t w = record {
  w0 = rw d w.w0;
  w1 = rw d w.w1;
  w2 = rw d w.w2;
  w3 = rw d w.w3;
  w4 = rw d w.w4;
  key_word = ground (arith, k);
  data_word = ground (arith, z, w.data_word);
  offset_word = ground (arith, o);
  next_word = ground (arith, n);
}

-- The header's key offset is where the key was put.
key_offset-lem :
    (head tail : ℕ) (s : KvSlice) (l : List KvSlice)
    → Placed is_aligned_data head tail (s ∷ l)
    → head + grow is_aligned_data s + shrink is_aligned_data s ≤ tail
    → tail < u32_mod
    → IsWhole s
    → key_offset s.entry.on_disk.header ≡ head + size_of_data_header
unfolding key_offset
key_offset-lem head tail s l (o, n, d, k, z, p) f t w = ground (arith, n, k, z, w.data_word)

load_slice-reloaded :
    (buf : Buffer) (head tail : ℕ) (s : KvSlice) (l : List KvSlice)
    → Placed is_aligned_data head tail (s ∷ l)
    → head + grow is_aligned_data s + shrink is_aligned_data s ≤ tail
    → tail < u32_mod
    → IsWhole s
    → StoredAt buf head s
    → load_slice buf s.entry.on_disk.header ≡ reloaded s
unfolding load_slice
load_slice-reloaded buf head tail s l p f t w (h, q, b) =
    let (o, n, d, k, z, m) = p in
    let at = key_offset-lem head tail s l p f t w in
    λ i. record {
      key = ((λ j. bytes_at buf (at j) (k j)) ∙ q) i;
      key_length = k i;
      content = some (((λ j. bytes_at buf s.entry.on_disk.header.data_offset (z j)) ∙ b) i);
      data_length = z i;
      digest = d i;
      entry = no_entry (d i);
      entry_gc = no_entry (d i);
      seg_id = 0;
    }

-- What one round of the loop adds.
abbrev round :
    (HashEntry → KvSlice → KvSlice)
    → (HashEntry → Bool)
    → HashEntry
    → ℕ
    → KvSlice
    → List KvSlice
    → List KvSlice
round mark same e size slice rest =
    if same e then (if size == 0 then rest else mark e slice ∷ rest) else rest

round-lem :
    (mark : HashEntry → KvSlice → KvSlice) (same : HashEntry → Bool) (e : HashEntry) (size : ℕ)
    (slice : KvSlice) (rest : List KvSlice)
    → round mark same e size slice rest
      ≡ (if same e && not (size == 0) then mark e slice ∷ rest else rest)
round-lem mark same e size slice rest = ground arith

module _ (mark : HashEntry → KvSlice → KvSlice) (same : HashEntry → Bool) (clock : ℕ → KvTime)
    (vol_id base : ℕ) (buf : Buffer) where
  load_from-live :
      (k head tail : ℕ) (l : List KvSlice)
      → Placed is_aligned_data head tail l
      → Addressed vol_id base is_aligned_data head l
      → Fits is_aligned_data head tail l
      → tail < u32_mod
      → AllWhole l
      → Stored buf head l
      → load_from mark same clock vol_id base buf k (length l) head ≡ live mark same clock k l
  unfolding load_from live
  load_from-live k head tail [] p a f t w h = refl
  load_from-live k head tail (s ∷ l) p (a, a') f t w (h, h') =
      let (o, n, d, x, z, p') = p in
      let rest =
        load_from-live (suc k) (head + grow is_aligned_data s) (tail - shrink is_aligned_data s) l
          p' a' f.1 (omega arith) w.1 (rw⁻¹ n h') in
      let header : decode_header (bytes_at buf head size_of_data_header) ≡ s.entry.on_disk.header =
        ap decode_header h.0
        ∙ decode_header-encode_header s.entry.on_disk.header
            (header-IsNarrow head tail s l p f.0 t w.0) in
      let e : HashEntry = record {
        on_disk = s.entry.on_disk;
        stamp = record { seg_time = clock k; key_no = 0 };
      } in
      let entry : entry_at vol_id base (clock k) head s.entry.on_disk.header ≡ e = λ i. record {
        on_disk = record { header = s.entry.on_disk.header; address = sym a i };
        stamp = record { seg_time = clock k; key_no = 0 };
      } in
      let slice = load_slice-reloaded buf head tail s l p f.0 t w.0 h in
      ap
        (λ (g : DataHeader).
          round mark same (entry_at vol_id base (clock k) head g) g.data_size (load_slice buf g)
            (load_from mark same clock vol_id base buf (suc k) (length l) g.next_header_offset))
        header
      ∙ (λ i.
          round mark same (entry i) (z i) (slice i)
            ((ap (load_from mark same clock vol_id base buf (suc k) (length l)) n ∙ rest) i))
      ∙ round-lem mark same e (data_len s) (reloaded s) (live mark same clock (suc k) l)

-- Loading a written segment gives back just its live slices, in order, with their keys and values.
pub load_kv_list-IsWritten :
    (mark : HashEntry → KvSlice → KvSlice) (read : ℕ → Option Buffer) (clock : ℕ → KvTime)
    (im : IndexManager) (seg : SegBase) (seg_id : ℕ) (slices : List KvSlice) (buf : Buffer)
    → IsWritten seg seg_id slices buf
    → seg.seg_size < u32_mod
    → read (seg_offset seg.vol seg_id) ≡ some buf
    → load_kv_list mark read clock seg.vol im seg_id
      ≡ some (live mark (is_same_in_mem im) clock 0 slices)
unfolding load_kv_list load_seg_kv
load_kv_list-IsWritten mark read clock im seg seg_id slices buf v w r =
    rw (load_kv_list, r)
      (ap
          (λ (n : ℕ). some (
            load_from mark (is_same_in_mem im) clock seg.vol.vol_id (seg_offset seg.vol seg_id) buf
              0 n size_of_seg_on_disk))
          v.counted
        ∙ ap some (
            load_from-live mark (is_same_in_mem im) clock seg.vol.vol_id (seg_offset seg.vol seg_id)
              buf 0 size_of_seg_on_disk seg.seg_size slices v.placed v.addressed v.fits w v.whole
              v.stored))
