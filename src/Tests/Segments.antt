-- ===== src/Tests/Segments.antt =====
-- The segment table, the volume and the packing of a segment on small inputs.
use mathlib.Core.List.{Perm}
use hlkvds.Volume.{
  halvings, log2, Volume, calc_seg_offset_from_id, calc_seg_id_from_offset,
  calc_seg_offset_from_offset, modify_death_entry,
}
use hlkvds.Volume.Offsets.{
  IsLaidOut, calc_seg_id-offset, segments_apart, segments_overlap, modify_death_entry-charges,
}
use hlkvds.Digest.{Digest}
use hlkvds.HashEntry.{HashEntry, size_of_data_header}
use hlkvds.SegmentManager.{
  SegUseStat, free, used, reserved, SegmentStat, SegmentManager, seg_reserved_for_gc, stat_at, init,
  scan, reserve, alloc_for_gc, alloc, free_for_gc, use_seg, get_entry, get, set_table,
  sort_segs_by_utils, sort_segs_by_ts,
}
use hlkvds.Prelude.{
  take, ℕ, ◌+◌, ◌≤◌, ◌<◌, ◌≡◌, refl, ◌⊎◌, true, none, some, List, [], ◌∷◌, map, arith,
}
use hlkvds.SegmentManager.Count.{Inv, count}
use hlkvds.SegmentManager.Scan.{IsFreeAt}
use hlkvds.SegmentManager.Alloc.{
  alloc_for_gc-reserve, alloc_for_gc_diverges, alloc_for_gc_full, alloc_total,
}
use hlkvds.SegmentManager.Invariant.{allocs, uses, recycles, Reach, here, next, Reach-Inv}
use hlkvds.SegmentManager.Persist.{set_table-get}
use hlkvds.SegmentManager.Candidates.{
  IsSorted, eligible, is_sparse, is_used, sort_segs_by_utils-perm, sort_segs_by_ts-take,
}

abbrev stat : SegUseStat → ℕ → SegmentStat
stat u size = record { state = u; free_size = size; death_size = 0 }

-- Five segments, three of them free, with the cursor at the second one.
abbrev five : SegmentManager
five = record {
  seg_table = stat used 100 ∷ stat reserved 0 ∷ stat free 0 ∷ stat free 0 ∷ stat free 0 ∷ [];
  seg_size = 4096;
  seg_num = 5;
  cur_seg_id = 1;
  used_counter = 1;
  freed_counter = 3;
  reserved_counter = 1;
}

five-Inv : Inv five
unfolding count
five-Inv = record {
  sized = refl;
  word = omega arith;
  cursor = omega arith;
  used_count = refl;
  freed_count = refl;
  reserved_count = refl;
}

-- Two used segments, the cursor at the first one or the second one.
abbrev full_at : ℕ → SegmentManager
full_at i = record {
  seg_table = stat used 100 ∷ stat used 0 ∷ [];
  seg_size = 4096;
  seg_num = 2;
  cur_seg_id = i;
  used_counter = 2;
  freed_counter = 0;
  reserved_counter = 0;
}

full_at-Inv : (i : ℕ) → i < 2 → Inv (full_at i)
unfolding count
full_at-Inv i h = record {
  sized = refl;
  word = omega arith;
  cursor = h;
  used_count = refl;
  freed_count = refl;
  reserved_count = refl;
}

-- Segment 1 is written, segment 2 is handed out, and segment 0 is freed by a collection.
abbrev run : SegmentManager
run = free_for_gc (reserve (use_seg five 1 50) 2) 0

run-Reach : Reach five run
unfolding alloc alloc_for_gc scan use_seg reserve
run-Reach =
    next (next (next here (uses 1 50 (omega arith, refl))) (allocs 5 2 refl))
      (recycles 0 (omega arith, refl))

Reach-Inv_example :
    Inv run × (run.freed_counter + run.used_counter + run.reserved_counter ≡ run.seg_num)
Reach-Inv_example = Reach-Inv five-Inv run-Reach

set_table-get_test :
    (buf : List SegmentStat) × (n : SegmentManager) × (get five five.seg_num ≡ some buf)
    × (set_table (init five.seg_size five.seg_num five.cur_seg_id) buf ≡ some n)
    × Inv n
    × (n.seg_table ≡ map get_entry five.seg_table)
    × (n.used_counter ≡ five.used_counter)
    × (n.freed_counter ≡ five.freed_counter + five.reserved_counter)
set_table-get_test = set_table-get five five-Inv

alloc_for_gc-reserve_test :
    IsFreeAt five.seg_table 2 × (2 < five.seg_num) × (reserve five 2 ≡ reserve five 2)
unfolding alloc_for_gc scan reserve
alloc_for_gc-reserve_test = alloc_for_gc-reserve 5 five (reserve five 2) 2 five-Inv refl

alloc_total_example :
    ((five.freed_counter ≤ seg_reserved_for_gc) × (alloc 5 five ≡ some (five, none)))
    ⊎ ((seg_reserved_for_gc < five.freed_counter)
        × ((i : ℕ) × IsFreeAt five.seg_table i
            × (i < five.seg_num)
            × (alloc 5 five ≡ some (reserve five i, some i))))
alloc_total_example = alloc_total 5 five five-Inv (omega arith)

alloc_for_gc_diverges_example : alloc_for_gc 1000 (full_at 0) ≡ none
alloc_for_gc_diverges_example =
    alloc_for_gc_diverges 1000 (full_at 0) (full_at-Inv 0 (omega arith)) refl refl

alloc_for_gc_full_test : alloc_for_gc 2 (full_at 1) ≡ some (full_at 1, none)
alloc_for_gc_full_test =
    alloc_for_gc_full 2 (full_at 1) (full_at-Inv 1 (omega arith)) refl (omega arith) (omega arith)

sort_segs_by_utils-perm_example :
    IsSorted (sort_segs_by_utils (full_at 0) 4000 [])
    × Perm
        (sort_segs_by_utils (full_at 0) 4000 [])
        (eligible (is_sparse 4096 4000) 4096 0 (full_at 0).seg_table)
sort_segs_by_utils-perm_example = sort_segs_by_utils-perm (full_at 0) 4000

sort_segs_by_ts-take_test :
    (l : List (ℕ × ℕ)) × (sort_segs_by_ts (full_at 0) 1 [] ≡ take 1 l)
    × IsSorted l
    × Perm l (eligible is_used 4096 0 (full_at 0).seg_table)
sort_segs_by_ts-take_test = sort_segs_by_ts-take (full_at 0) 1

-- A volume of four segments of 4096 bytes, and one of segments of 12288 bytes.
abbrev vol_of : ℕ → Volume
vol_of size = record {
  seg_mgr = five;
  vol_id = 0;
  start_off = 0;
  seg_size = size;
  seg_num = 5;
  seg_size_bit = log2 size;
}

vol_of-IsLaidOut : (size : ℕ) → 0 < size → IsLaidOut (vol_of size)
vol_of-IsLaidOut size h = record { positive = h; exponent = refl; word = omega arith }

calc_seg_id-offset_test :
    (o : ℕ) × (calc_seg_offset_from_id (vol_of 4096) 3 ≡ some o)
    × (calc_seg_id_from_offset (vol_of 4096) (o + 100) ≡ (3, true))
    × (calc_seg_offset_from_offset (vol_of 4096) (o + 100) ≡ some o)
unfolding log2 halvings
calc_seg_id-offset_test =
    calc_seg_id-offset (vol_of 4096) 3 100 (vol_of-IsLaidOut 4096 (omega arith)) (omega arith)
      (omega arith)

segments_apart_test : 4096 + 4096 ≤ 12288
unfolding log2 halvings calc_seg_offset_from_id
segments_apart_test = segments_apart (vol_of 4096) 1 3 4096 12288 refl (omega arith) refl refl

segments_overlap_test : 16384 < 8192 + 12288
unfolding log2 halvings calc_seg_offset_from_id
segments_overlap_test =
    segments_overlap (vol_of 12288) 1 8192 16384 (vol_of-IsLaidOut 12288 (omega arith))
      (omega arith) refl refl

abbrev some_digest : Digest
some_digest = record { v0 = 1; v1 = 2; v2 = 3; v3 = 4; v4 = 5 }

abbrev entry_in : ℕ → ℕ → HashEntry
entry_in off size = record {
  on_disk = record {
    header = record {
      key_digest = some_digest;
      key_size = 3;
      data_size = size;
      data_offset = 67;
      next_header_offset = 67 + size;
    };
    address = record { location = 0; offset = off };
  };
  stamp = record { seg_time = record { tv_sec = 9; tv_usec = 0 }; key_no = 1 };
}

modify_death_entry-charges_test :
    (stat_at (modify_death_entry (entry_in 12320 10) (vol_of 4096)).seg_mgr.seg_table 3).death_size
    ≡ 0 + 10 + size_of_data_header
unfolding log2 halvings calc_seg_offset_from_id
modify_death_entry-charges_test =
    modify_death_entry-charges (vol_of 4096) (entry_in 12320 10) 3 32 12288
      (vol_of-IsLaidOut 4096 (omega arith)) five-Inv refl (omega arith) refl refl (omega arith)
