-- ===== src/Tests/Layout.antt =====
-- Segments with a few slices: packed, written, read back and merged.
use hlkvds.Prelude.{
  length, replicate, drop, length-replicate, u32_mod, ℕ, zero, suc, ◌+◌, ◌-◌, ◌≤◌, ◌<◌, ◌≡◌, refl,
  true, Option, none, some, List, [], ◌∷◌, ◌++◌, arith,
}
use hlkvds.Utils.{KvTime}
use hlkvds.Digest.{Digest}
use hlkvds.HashEntry.{DataHeader}
use hlkvds.KvSlice.{KvSlice, key_len, aligned_size, no_entry}
use hlkvds.Memory.{Buffer}
use hlkvds.SegmentManager.{SegmentManager, free, used, scan, alloc_for_gc, reserve, use_seg}
use hlkvds.Volume.{Volume}
use hlkvds.IndexManager.{IndexManager, DataStor, init_meta, is_same_in_mem}
use hlkvds.Segment.{
  SegBase, encode_header, decode_header, content_bytes, need_size, need_list, try_put,
  get_free_size, try_put_list, put_list, prepare,
}
use hlkvds.Segment
use hlkvds.Segment.Layout.{
  IsWhole, decode_header-encode_header, with_slice, IsPlacement, with_slice-StoredAt,
}
use hlkvds.Segment.Packing.{IsPacked, make-IsPacked, put-IsPacked, need_total, put_list-IsPacked}
use hlkvds.Segment.Prepare.{IsWritten, prepare-IsWritten}
use hlkvds.Gc.{load_slice, mark_gc, load_kv_list}
use hlkvds.Gc.Load.{live, load_kv_list-IsWritten}
use hlkvds.Gc.Merge.{put_slices, gather_whole, GcState, segs_of, do_merge}
use hlkvds.Gc.Gather.{loaded, all_loaded, gather_whole-make}
use hlkvds.Gc.Second.{second-IsPacked}
use hlkvds.Gc.Unread.{do_merge-unread}
use hlkvds.LatencyFriendly.{
  SegLatencyFriendly, behind_key, put-write_size, load_slice-behind_key, write_size,
}
use hlkvds.LatencyFriendly

abbrev key_digest : Digest
key_digest = record { v0 = 1; v1 = 2; v2 = 3; v3 = 4; v4 = 5 }

abbrev slice_of : List ℕ → List ℕ → ℕ → KvSlice
slice_of key content size = record {
  key = key;
  key_length = length key;
  content = some content;
  data_length = size;
  digest = key_digest;
  entry = no_entry key_digest;
  entry_gc = no_entry key_digest;
  seg_id = 0;
}

abbrev ab : KvSlice
ab = slice_of (97 ∷ 98 ∷ []) (1 ∷ 2 ∷ 3 ∷ []) 3

-- A value of 4096 bytes, which SegBase puts at the end.
abbrev page : KvSlice
page = slice_of (99 ∷ []) (replicate 4096 7) 4096

ab-IsWhole : IsWhole ab
ab-IsWhole = record {
  w0 = omega arith;
  w1 = omega arith;
  w2 = omega arith;
  w3 = omega arith;
  w4 = omega arith;
  key_sized = refl;
  data_sized = refl;
  data_word = omega arith;
}

page-IsWhole : IsWhole page
page-IsWhole = record {
  w0 = omega arith;
  w1 = omega arith;
  w2 = omega arith;
  w3 = omega arith;
  w4 = omega arith;
  key_sized = refl;
  data_sized = length-replicate {A = ℕ} 4096 7;
  data_word = omega arith;
}

abbrev segs : SegmentManager
segs = record {
  seg_table =
      record { state = used; free_size = 0; death_size = 0 }
      ∷ record { state = free; free_size = 0; death_size = 0 }
      ∷ record { state = free; free_size = 0; death_size = 0 }
      ∷ record { state = free; free_size = 0; death_size = 0 }
      ∷ [];
  seg_size = 8192;
  seg_num = 4;
  cur_seg_id = 0;
  used_counter = 1;
  freed_counter = 3;
  reserved_counter = 0;
}

abbrev vol : Volume
vol = record {
  seg_mgr = segs;
  vol_id = 2;
  start_off = 0;
  seg_size = 8192;
  seg_num = 4;
  seg_size_bit = 13;
}

abbrev header : DataHeader
header = record {
  key_digest = key_digest;
  key_size = 2;
  data_size = 3;
  data_offset = 66;
  next_header_offset = 69;
}

decode_header-encode_header_test : decode_header (encode_header header) ≡ header
decode_header-encode_header_test = decode_header-encode_header header (record {
  w0 = omega arith;
  w1 = omega arith;
  w2 = omega arith;
  w3 = omega arith;
  w4 = omega arith;
  key_word = omega arith;
  data_word = omega arith;
  offset_word = omega arith;
  next_word = omega arith;
})

new-IsPacked : IsPacked (Segment.make vol)
unfolding Segment.make
new-IsPacked = make-IsPacked vol (omega arith) (omega arith)

put-IsPacked_example :
    IsPacked (Segment.put (Segment.make vol) page)
    × (get_free_size (Segment.put (Segment.make vol) page) + need_size page
        ≡ get_free_size (Segment.make vol))
unfolding Segment.make try_put get_free_size
put-IsPacked_example = put-IsPacked (Segment.make vol) page new-IsPacked refl

put_list-IsPacked_test :
    IsPacked (put_list (Segment.make vol) (page ∷ ab ∷ []))
    × ((put_list (Segment.make vol) (page ∷ ab ∷ [])).slice_list
        ≡ (Segment.make vol).slice_list ++ page ∷ ab ∷ [])
    × (get_free_size (put_list (Segment.make vol) (page ∷ ab ∷ [])) + need_total (page ∷ ab ∷ [])
        ≡ get_free_size (Segment.make vol))
unfolding Segment.make try_put_list get_free_size need_list need_total
put_list-IsPacked_test =
    put_list-IsPacked (Segment.make vol) (page ∷ ab ∷ []) new-IsPacked (omega arith) refl

-- The segment with both slices, as segment 3.
abbrev both : SegBase
both = record {
  seg_id = some 3;
  vol = vol;
  seg_size = 8192;
  head_pos = 102;
  tail_pos = 4096;
  key_num = 2;
  key_aligned_num = 1;
  slice_list = page ∷ ab ∷ [];
}

both-IsPacked : IsPacked both
both-IsPacked = record {
  word = omega arith;
  fits = (omega arith, (omega arith, omega arith));
  head = refl;
  tail = refl;
  counted = refl;
}

abbrev clock : ℕ → KvTime
clock k = record { tv_sec = 100; tv_usec = k }

abbrev blank : Buffer
blank i = 255

prepare-IsWritten_example :
    (r : List KvSlice × Buffer) × (prepare clock blank 100 both ≡ some r) × IsWritten both 3 r.0 r.1
prepare-IsWritten_example =
    prepare-IsWritten clock blank 100 both 3 both-IsPacked (page-IsWhole, (ab-IsWhole, tt)) refl

-- The same for the witnesses below.
both_written :
    (r : List KvSlice × Buffer) × (prepare clock blank 100 both ≡ some r) × IsWritten both 3 r.0 r.1
both_written =
    prepare-IsWritten clock blank 100 both 3 both-IsPacked (page-IsWhole, (ab-IsWhole, tt)) refl

abbrev index : IndexManager
index = init_meta 4 4096 0 0

-- An index of one slot that points to the first slice where it was written.
abbrev pointing_to : List KvSlice → IndexManager
pointing_to [] = index
pointing_to (x ∷ l) = record {
  hashtable = record { nodes = x.entry ∷ []; size = 1 } ∷ [];
  ht_size = 1;
  size_ondisk = 4096;
  key_counter = 1;
  data_theory_size = 4128;
}

abbrev pointing : IndexManager
pointing = pointing_to both_written.0.0

load_kv_list-IsWritten_example :
    load_kv_list mark_gc (λ o. some both_written.0.1) clock vol pointing 3
    ≡ some (live mark_gc (is_same_in_mem pointing) clock 0 both_written.0.0)
load_kv_list-IsWritten_example =
    load_kv_list-IsWritten mark_gc (λ o. some both_written.0.1) clock pointing both 3
      both_written.0.0 both_written.0.1 both_written.2 (omega arith) refl

-- Segment 0 has both slices, segment 1 cannot be read, and segment 2 has the big one.
abbrev load : ℕ → Option (List KvSlice)
load zero = some (page ∷ ab ∷ [])
load (suc zero) = none
load (suc (suc i)) = some (page ∷ [])

abbrev cands : List (ℕ × ℕ)
cands = (100, 0) ∷ (200, 1) ∷ (300, 2) ∷ []

load-small : (i : ℕ) → need_total (loaded load i) < u32_mod
unfolding need_total
load-small zero = omega arith
load-small (suc zero) = omega arith
load-small (suc (suc i)) = omega arith

gather_whole-make_test :
    IsPacked (gather_whole load (Segment.make vol) [] cands).0
    × ((gather_whole load (Segment.make vol) [] cands).0.slice_list
        ≡ all_loaded load (gather_whole load (Segment.make vol) [] cands).1)
gather_whole-make_test = gather_whole-make load vol cands (omega arith) (omega arith) load-small

second-IsPacked_example : IsPacked (
    put_list
      (Segment.make vol)
      (put_slices both (live mark_gc (is_same_in_mem pointing) clock 0 both_written.0.0)).1)
second-IsPacked_example =
    second-IsPacked mark_gc (is_same_in_mem pointing) clock both both 3 both_written.0.0
      both_written.0.1 vol (λ e s. refl) both_written.2 refl (omega arith) (omega arith)

abbrev state : GcState
state = record { world = (index, vol); images = [] }

abbrev deaf : DataStor Volume
deaf = record { modify_death_entry = λ e s. s }

do_merge-unread_example :
    (g' : GcState) × (do_merge deaf (λ o b. true) clock 100 0 9 blank (λ o. none) cands state
      ≡ some (g', 4294967295))
    × (segs_of g' ≡ use_seg (reserve segs 1) 1 (get_free_size (Segment.make vol)))
    × (g'.world.0 ≡ index)
unfolding alloc_for_gc scan
do_merge-unread_example =
    do_merge-unread deaf (λ o b. true) clock 100 0 9 blank (λ o. none) cands state (reserve segs 1)
      1 (λ o. refl) (λ o b. refl) refl

abbrev fast : SegLatencyFriendly
fast = record {
  seg_id = some 0;
  vol = vol;
  seg_size = 8192;
  head_pos = 4000;
  key_num = 0;
  slice_list = [];
}

put-write_size_test :
    ((LatencyFriendly.put fast page).head_pos ≡ fast.head_pos + need_size page)
    × ((LatencyFriendly.put fast page).head_pos < write_size (LatencyFriendly.put fast page))
    × (write_size (LatencyFriendly.put fast page) ≤ fast.seg_size)
unfolding LatencyFriendly.try_put
put-write_size_test = put-write_size fast page (omega arith) refl (omega arith) refl

-- The big slice placed behind its key.
abbrev placed : KvSlice
placed = record page {
  entry = record {
    on_disk = record {
      header = record {
        key_digest = key_digest;
        key_size = 1;
        data_size = 4096;
        data_offset = 65;
        next_header_offset = 4161;
      };
      address = record { location = 2; offset = 32 };
    };
    stamp = record { seg_time = clock 0; key_no = 0 };
  };
}

placed-IsWhole : IsWhole placed
placed-IsWhole = record {
  w0 = omega arith;
  w1 = omega arith;
  w2 = omega arith;
  w3 = omega arith;
  w4 = omega arith;
  key_sized = refl;
  data_sized = length-replicate {A = ℕ} 4096 7;
  data_word = omega arith;
}

behind_key-IsPlacement : IsPlacement behind_key
behind_key-IsPlacement s h = ground (arith, h)

load_slice-behind_key_example :
    (load_slice (with_slice behind_key blank 32 8192 placed) placed.entry.on_disk.header).key
    ≡ drop (aligned_size - key_len placed) (content_bytes placed.content)
load_slice-behind_key_example =
    load_slice-behind_key (with_slice behind_key blank 32 8192 placed) 32 8192 placed []
      (refl, refl, refl, refl, refl, tt) (omega arith) (omega arith) placed-IsWhole
      (with_slice-StoredAt behind_key behind_key-IsPlacement blank 32 8192 placed placed-IsWhole
        (omega arith) refl)
      refl (omega arith)
