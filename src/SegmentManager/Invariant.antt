-- ===== src/SegmentManager/Invariant.antt =====
-- The counters of SegmentManager beside its table. As its callers use it, a segment goes from free
-- to reserved (Alloc, AllocForGC), from there to used (Use) or back (FreeForFailed), and from used
-- to free (FreeForGC).
use hlkvds.Prelude.{
  ℕ, ◌+◌, ◌<◌, ◌≡◌, true, some, arith, if◌then◌else◌, length-set, subst, sym, set, u32_add,
}
use hlkvds.SegmentManager.{
  SegUseStat, free, used, reserved, SegmentStat, SegmentManager, is_state, stat_at, fresh_stat,
  reserve, alloc, alloc_for_gc, free_for_failed, free_for_gc, use_seg, add_death_size,
}
use hlkvds.SegmentManager.Alloc.{alloc_for_gc-reserve}
use hlkvds.SegmentManager.Count.{Inv, count, count-set, count_pos, count_total}

-- Segment `i` of the table is in state `u`.
abbrev pub InState : SegUseStat → SegmentManager → ℕ → Type 0
InState u m i = (i < m.seg_num) × (is_state (stat_at m.seg_table i).state u ≡ true)

module _ (m : SegmentManager) (i : ℕ) (s : SegmentStat) (v : Inv m) (inside : i < m.seg_num) where
  moved :
      (u : SegUseStat)
      → count u (set m.seg_table i s) + (if is_state (stat_at m.seg_table i).state u then 1 else 0)
        ≡ count u m.seg_table + (if is_state s.state u then 1 else 0)
  moved u = count-set u m.seg_table i s (omega (arith, v.sized))

reserve-Inv : (m : SegmentManager) (i : ℕ) → Inv m → InState free m i → Inv (reserve m i)
unfolding reserve
reserve-Inv m i v (inside, h) =
    let s : SegmentStat = record (stat_at m.seg_table i) { state = reserved } in
    let a = moved m i s v inside free in
    let b = moved m i s v inside used in
    let c = moved m i s v inside reserved in
    let p = count_pos free m.seg_table i (omega arith) h in
    ground (arith, a, b, c, p, count_total m.seg_table, length-set m.seg_table i s)

free_for_failed-Inv :
    (m : SegmentManager) (i : ℕ) → Inv m → InState reserved m i → Inv (free_for_failed m i)
unfolding free_for_failed
free_for_failed-Inv m i v (inside, h) =
    let a = moved m i fresh_stat v inside free in
    let b = moved m i fresh_stat v inside used in
    let c = moved m i fresh_stat v inside reserved in
    let p = count_pos reserved m.seg_table i (omega arith) h in
    ground (arith, a, b, c, p, count_total m.seg_table, length-set m.seg_table i fresh_stat)

free_for_gc-Inv : (m : SegmentManager) (i : ℕ) → Inv m → InState used m i → Inv (free_for_gc m i)
unfolding free_for_gc
free_for_gc-Inv m i v (inside, h) =
    let a = moved m i fresh_stat v inside free in
    let b = moved m i fresh_stat v inside used in
    let c = moved m i fresh_stat v inside reserved in
    let p = count_pos used m.seg_table i (omega arith) h in
    ground (arith, a, b, c, p, count_total m.seg_table, length-set m.seg_table i fresh_stat)

use_seg-Inv :
    (m : SegmentManager) (i size : ℕ) → Inv m → InState reserved m i → Inv (use_seg m i size)
unfolding use_seg
use_seg-Inv m i size v (inside, h) =
    let s : SegmentStat = record (stat_at m.seg_table i) { state = used; free_size = size } in
    let a = moved m i s v inside free in
    let b = moved m i s v inside used in
    let c = moved m i s v inside reserved in
    let p = count_pos reserved m.seg_table i (omega arith) h in
    ground (arith, a, b, c, p, count_total m.seg_table, length-set m.seg_table i s)

add_death_size-Inv :
    (m : SegmentManager) (i size : ℕ) → Inv m → i < m.seg_num → Inv (add_death_size m i size)
unfolding add_death_size
add_death_size-Inv m i size v inside =
    let s : SegmentStat = record (stat_at m.seg_table i) {
      death_size = u32_add (stat_at m.seg_table i).death_size size;
    } in
    let a = moved m i s v inside free in
    let b = moved m i s v inside used in
    let c = moved m i s v inside reserved in ground (arith, a, b, c, length-set m.seg_table i s)

-- What the callers do with a manager, one call at a time.
pub data Step (m : SegmentManager) : SegmentManager → Type 0 where
  allocs : {n : SegmentManager} (fuel i : ℕ) → alloc fuel m ≡ some (n, some i) → Step m n
  gc_allocs : {n : SegmentManager} (fuel i : ℕ) → alloc_for_gc fuel m ≡ some (n, some i) → Step m n
  fails : (i : ℕ) → InState reserved m i → Step m (free_for_failed m i)
  uses : (i size : ℕ) → InState reserved m i → Step m (use_seg m i size)
  recycles : (i : ℕ) → InState used m i → Step m (free_for_gc m i)
  kills : (i size : ℕ) → i < m.seg_num → Step m (add_death_size m i size)

pub data Reach (m : SegmentManager) : SegmentManager → Type 0 where
  here : Reach m m
  next : {n o : SegmentManager} → Reach m n → Step n o → Reach m o

alloc_for_gc-Inv :
    (fuel i : ℕ) (m n : SegmentManager) → Inv m → alloc_for_gc fuel m ≡ some (n, some i) → Inv n
alloc_for_gc-Inv fuel i m n v e =
    let (was_free, inside, after) = alloc_for_gc-reserve fuel m n i v e in
    subst Inv (sym after) (reserve-Inv m i v (inside, was_free))

alloc-Inv : (fuel i : ℕ) (m n : SegmentManager) → Inv m → alloc fuel m ≡ some (n, some i) → Inv n
unfolding alloc
alloc-Inv fuel i m n v e = alloc_for_gc-Inv fuel i m n v (ground arith)

Step-Inv : {m n : SegmentManager} → Step m n → Inv m → Inv n
Step-Inv {m} {n} (allocs fuel i e) v = alloc-Inv fuel i m n v e
Step-Inv {m} {n} (gc_allocs fuel i e) v = alloc_for_gc-Inv fuel i m n v e
Step-Inv {m} (fails i h) v = free_for_failed-Inv m i v h
Step-Inv {m} (uses i size h) v = use_seg-Inv m i size v h
Step-Inv {m} (recycles i h) v = free_for_gc-Inv m i v h
Step-Inv {m} (kills i size h) v = add_death_size-Inv m i size v h

-- After any sequence of calls, each made in the state that it is meant for, every counter is the
-- number of segments in its state and the three add up to the number of segments.
pub Reach-Inv :
    {m n : SegmentManager}
    → Inv m
    → Reach m n
    → Inv n × (n.freed_counter + n.used_counter + n.reserved_counter ≡ n.seg_num)
Reach-Inv {m} v here = (
  v,
  omega (arith, count_total m.seg_table, v.sized, v.used_count, v.freed_count, v.reserved_count),
)
Reach-Inv v (next {o = o} r st) =
    let w = Step-Inv st (Reach-Inv v r).0 in
    (
      w,
      omega
          (arith, count_total o.seg_table, w.sized, w.used_count, w.freed_count, w.reserved_count),
    )
