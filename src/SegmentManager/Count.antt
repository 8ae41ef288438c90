-- ===== src/SegmentManager/Count.antt =====
-- The counters of the segment table against the table: the invariant of SegmentManager.
use hlkvds.Prelude.{
  ℕ, zero, suc, ◌+◌, ◌<◌, ◌≤◌, ◌≡◌, refl, true, List, [], ◌∷◌, arith, if◌then◌else◌, length, set,
  u32_mod,
}
use hlkvds.SegmentManager.{
  SegUseStat, free, used, reserved, SegmentStat, SegmentManager, is_state, stat_at,
}

-- One for a segment in state `u`.
abbrev pub weight : SegUseStat → SegmentStat → ℕ
weight u s = if is_state s.state u then 1 else 0

-- How many segments are in state `u`.
unfoldable pub count : SegUseStat → List SegmentStat → ℕ
count u [] = 0
count u (s ∷ t) = weight u s + count u t

-- A write moves one segment from its old state to the new one.
pub count-set :
    (u : SegUseStat) (t : List SegmentStat) (i : ℕ) (s : SegmentStat)
    → i < length t
    → count u (set t i s) + weight u (stat_at t i) ≡ count u t + weight u s
unfolding count
count-set u [] i s h = absurd (omega arith)
count-set u (x ∷ t) zero s h = omega arith
count-set u (x ∷ t) (suc i) s h = omega (arith, count-set u t i s (omega arith))

weight_total : (s : SegmentStat) → weight free s + weight used s + weight reserved s ≡ 1
weight_total s = ground arith

pub count_total : (t : List SegmentStat) → count free t + count used t + count reserved t ≡ length t
unfolding count
count_total [] = refl
count_total (s ∷ t) = omega (arith, weight_total s, count_total t)

pub count-le-length : (u : SegUseStat) (t : List SegmentStat) → count u t ≤ length t
unfolding count
count-le-length u [] = omega arith
count-le-length u (s ∷ t) = ground (arith, count-le-length u t)

-- A segment in state `u` is counted.
pub count_pos :
    (u : SegUseStat) (t : List SegmentStat) (i : ℕ)
    → i < length t
    → is_state (stat_at t i).state u ≡ true
    → 0 < count u t
unfolding count
count_pos u [] i h e = absurd (omega arith)
count_pos u (s ∷ t) zero h e = ground arith
count_pos u (s ∷ t) (suc i) h e = omega (arith, count_pos u t i (omega arith) e)

-- The table has its size, the cursor lies in it, and each counter is the number of segments in
-- its state.
pub record Inv (m : SegmentManager) : Type 0 where
  pub sized : length m.seg_table ≡ m.seg_num
  pub word : m.seg_num < u32_mod
  pub cursor : m.cur_seg_id < m.seg_num
  pub used_count : m.used_counter ≡ count used m.seg_table
  pub freed_count : m.freed_counter ≡ count free m.seg_table
  pub reserved_count : m.reserved_counter ≡ count reserved m.seg_table
