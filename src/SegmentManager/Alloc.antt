-- ===== src/SegmentManager/Alloc.antt =====
-- Alloc and AllocForGC (SegmentManager.cc).
use hlkvds.Prelude.{
  ℕ, ◌+◌, ◌<◌, ◌≤◌, ◌≡◌, ◌≢◌, ◌⊎◌, inl, inr, false, none, some, arith, Bool-cases, leb, ap, ◌∙◌,
}
use hlkvds.SegmentManager.{
  free, SegmentManager, is_state, stat_at, reserve, alloc_for_gc, alloc, seg_reserved_for_gc,
}
use hlkvds.SegmentManager.Count.{Inv}
use hlkvds.SegmentManager.Scan.{
  IsFreeAt, scan-IsFreeAt, scan_total, scan_diverges, scan_high, free_somewhere, none_free,
}

-- `alloc_for_gc` hands out a segment that was free, reserves it and points the cursor at it.
pub alloc_for_gc-reserve :
    (fuel : ℕ) (m n : SegmentManager) (i : ℕ)
    → Inv m
    → alloc_for_gc fuel m ≡ some (n, some i)
    → IsFreeAt m.seg_table i × (i < m.seg_num) × (n ≡ reserve m i)
unfolding alloc_for_gc
alloc_for_gc-reserve fuel m n i v e =
    ground (arith, scan-IsFreeAt fuel m.seg_table m.seg_num m.cur_seg_id (m.cur_seg_id + 1) i)

-- When it returns without a segment the manager is as it was.
pub alloc_for_gc_refused :
    (fuel : ℕ) (m n : SegmentManager) → alloc_for_gc fuel m ≡ some (n, none) → n ≡ m
unfolding alloc_for_gc
alloc_for_gc_refused fuel m n e = ground arith

-- While a segment is free, `alloc_for_gc` returns one, within as many rounds as there are segments.
pub alloc_for_gc_total :
    (fuel : ℕ) (m : SegmentManager)
    → Inv m
    → 0 < m.freed_counter
    → m.seg_num ≤ fuel
    → (n : SegmentManager) × (i : ℕ) × (alloc_for_gc fuel m ≡ some (n, some i))
unfolding alloc_for_gc
alloc_for_gc_total fuel m v h f =
    elim (Bool-cases (is_state (stat_at m.seg_table m.cur_seg_id).state free)) [
      | inl here ↦ (reserve m m.cur_seg_id, m.cur_seg_id, ground arith)
      | inr other ↦
          let (k, inside, e) = free_somewhere m.seg_table (omega arith) in
          let (i, found) =
            scan_total m.seg_table m.seg_num m.cur_seg_id k fuel v.cursor (omega arith)
              (λ p. ground arith) v.word f e in
          (reserve m i, i, ground arith)
    ]

none_free_in :
    (m : SegmentManager)
    → Inv m
    → m.freed_counter ≡ 0
    → (k : ℕ) → k < m.seg_num
    → is_state (stat_at m.seg_table k).state free ≡ false
none_free_in m v h k b = none_free m.seg_table (omega arith) k (omega arith)

-- With no free segment and the cursor at segment 0 `alloc_for_gc` never returns: however many rounds
-- its loop makes, the test `seg_index != curSegId_` still holds.
pub alloc_for_gc_diverges :
    (fuel : ℕ) (m : SegmentManager)
    → Inv m
    → m.freed_counter ≡ 0
    → m.cur_seg_id ≡ 0
    → alloc_for_gc fuel m ≡ none
unfolding alloc_for_gc
alloc_for_gc_diverges fuel m v h z = ground (
  arith,
  none_free_in m v h m.cur_seg_id v.cursor,
  scan_diverges fuel m.seg_table m.seg_num 1 (omega arith) (omega arith) v.word
      (none_free_in m v h),
)

-- With no free segment and the cursor elsewhere it returns, and reports that nothing is free.
pub alloc_for_gc_full :
    (fuel : ℕ) (m : SegmentManager)
    → Inv m
    → m.freed_counter ≡ 0
    → m.cur_seg_id ≢ 0
    → m.seg_num ≤ fuel
    → alloc_for_gc fuel m ≡ some (m, none)
unfolding alloc_for_gc
alloc_for_gc_full fuel m v h z f = ground (
  arith,
  none_free_in m v h m.cur_seg_id v.cursor,
  scan_high fuel m.seg_table m.seg_num m.cur_seg_id (m.cur_seg_id + 1) (omega arith) (omega arith)
      (omega arith) v.word (omega arith) (none_free_in m v h),
)

-- `alloc` keeps two segments back for the garbage collector, and otherwise always succeeds.
pub alloc_total :
    (fuel : ℕ) (m : SegmentManager)
    → Inv m
    → m.seg_num ≤ fuel
    → ((m.freed_counter ≤ seg_reserved_for_gc) × (alloc fuel m ≡ some (m, none)))
      ⊎ ((seg_reserved_for_gc < m.freed_counter)
          × ((i : ℕ) × IsFreeAt m.seg_table i
              × (i < m.seg_num)
              × (alloc fuel m ≡ some (reserve m i, some i))))
unfolding alloc
alloc_total fuel m v f = elim (Bool-cases (leb m.freed_counter seg_reserved_for_gc)) [
  | inl few ↦ inl (ground arith, ground arith)
  | inr enough ↦
      let (n, i, e) = alloc_for_gc_total fuel m v (ground arith) f in
      let (free_before, inside, after) = alloc_for_gc-reserve fuel m n i v e in
      inr (ground arith, (i, free_before, inside, rw enough (e ∙ ap (λ k. some (k, some i)) after)))
]
