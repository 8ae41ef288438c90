-- ===== src/Gc/Second.antt =====
-- The second segment of doMerge takes slices without a test.
use hlkvds.Prelude.{
  ℕ, suc, ◌+◌, ◌-◌, ◌<◌, ◌≤◌, ◌≡◌, Bool, List, [], ◌∷◌, arith, inl, inr, Bool-cases, u32_mod,
}
use hlkvds.HashEntry.{HashEntry}
use hlkvds.KvSlice.{KvSlice, is_aligned_data}
use hlkvds.SegmentManager.{size_of_seg_on_disk}
use hlkvds.Utils.{KvTime}
use hlkvds.Volume.{Volume}
use hlkvds.Segment.{SegBase, make, try_put, put, put_list, need_size}
use hlkvds.Segment.Packing.{
  IsPacked, put-IsPacked_room, make-IsPacked, need_total, Fits, grow, shrink,
}
use hlkvds.Segment.Prepare.{IsWritten}
use hlkvds.Gc.Merge.{put_slices}
use hlkvds.Gc.Load.{live, reloaded}

-- What fits in a segment needs no more than the segment has.
Fits-need_total :
    (head tail : ℕ) (l : List KvSlice)
    → Fits is_aligned_data head tail l
    → head + need_total l ≤ tail
unfolding need_total
Fits-need_total head tail [] f = omega arith
Fits-need_total head tail (s ∷ l) f =
    let rest =
      Fits-need_total (head + grow is_aligned_data s) (tail - shrink is_aligned_data s) l f.1 in
    ground (arith, rest, f.0)

-- A mark that leaves the lengths alone, as both classes' do.
abbrev pub KeepsLengths : (HashEntry → KvSlice → KvSlice) → Type 0
KeepsLengths mark = (e : HashEntry) (s : KvSlice) → need_size (mark e s) ≡ need_size s

live-need_total :
    (mark : HashEntry → KvSlice → KvSlice) (same : HashEntry → Bool) (clock : ℕ → KvTime) (k : ℕ)
    (l : List KvSlice)
    → KeepsLengths mark
    → need_total (live mark same clock k l) ≤ need_total l
unfolding live need_total
live-need_total mark same clock k [] m = omega arith
live-need_total mark same clock k (s ∷ l) m =
    let e : HashEntry = record {
      on_disk = s.entry.on_disk;
      stamp = record { seg_time = clock k; key_no = 0 };
    } in
    let rest = live-need_total mark same clock (suc k) l m in ground (arith, rest, m e (reloaded s))

put_slices-rest :
    (seg : SegBase) (l : List KvSlice) → need_total (put_slices seg l).1 ≤ need_total l
unfolding put_slices need_total
put_slices-rest seg [] = omega arith
put_slices-rest seg (s ∷ l) = elim (Bool-cases (try_put seg s)) [
  | inl fits ↦ rw (put_slices, fits) (omega (arith, put_slices-rest (put seg s) l))
  | inr full ↦ rw (put_slices, full) (omega arith)
]

put_list_untested :
    (seg : SegBase) (l : List KvSlice)
    → IsPacked seg
    → seg.head_pos + need_total l ≤ seg.tail_pos
    → IsPacked (put_list seg l)
unfolding put_list need_total
put_list_untested seg [] v h = v
put_list_untested seg (s ∷ l) v h =
    let (packed, room, ordered) = put-IsPacked_room seg s v (omega arith) in
    put_list_untested (put seg s) l packed (omega arith)

-- The rest of a written segment's live slices, after those that went into the first segment,
-- fits in a new segment of the same volume: the puts that doMerge does not test keep it packed.
pub second-IsPacked :
    (mark : HashEntry → KvSlice → KvSlice) (same : HashEntry → Bool) (clock : ℕ → KvTime)
    (first from : SegBase) (seg_id : ℕ) (slices : List KvSlice) (buf : ℕ → ℕ) (vol : Volume)
    → KeepsLengths mark
    → IsWritten from seg_id slices buf
    → from.seg_size ≡ vol.seg_size
    → size_of_seg_on_disk ≤ vol.seg_size
    → vol.seg_size < u32_mod
    → IsPacked (put_list (make vol) (put_slices first (live mark same clock 0 slices)).1)
unfolding make
second-IsPacked mark same clock first from seg_id slices buf vol m v e h w =
    let whole = Fits-need_total size_of_seg_on_disk from.seg_size slices v.fits in
    let some_live = live-need_total mark same clock 0 slices m in
    let left = put_slices-rest first (live mark same clock 0 slices) in
    put_list_untested (make vol) (put_slices first (live mark same clock 0 slices)).1
      (make-IsPacked vol h w) (omega arith)
