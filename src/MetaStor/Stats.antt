-- ===== src/MetaStor/Stats.antt =====
-- The counters and the stats that the two regions hold.
use hlkvds.Prelude.{
  ℕ, zero, suc, ◌+◌, ◌<◌, ◌≡◌, refl, ◌∙◌, ap, true, some, List, [], ◌∷◌, ◌++◌, ◌==◌, arith, length,
  length-append, All, Bool-cases, inl, inr,
}
use hlkvds.LinkedList.{LinkedList}
use hlkvds.HashEntry.{HashEntry}
use hlkvds.IndexManager.Image.{counters_of}
use hlkvds.IndexManager.Table.{total}
use hlkvds.SegmentManager.{
  SegmentStat, SegmentManager, reserved, is_state, fresh_stat, get_entry, get_entries, get,
}
use hlkvds.SegmentManager
use hlkvds.Volume.{Volume}
use hlkvds.MultiVolume.Tables.{get_tables, IsSound}
use hlkvds.MetaStor.{stats_num}
use hlkvds.MetaStor.Bytes.{sum}
use hlkvds.MetaStor.Regions.{IsCounter, IsNarrowStat}

pub counters_of-AreCounters :
    (t : List (LinkedList HashEntry)) → total t < 2147483648 → All IsCounter (counters_of t)
unfolding total
counters_of-AreCounters [] h = tt
counters_of-AreCounters (l ∷ t) h = (omega arith, counters_of-AreCounters t (omega arith))

pub sum-counters_of : (t : List (LinkedList HashEntry)) → sum (counters_of t) ≡ total t
unfolding sum total
sum-counters_of [] = refl
sum-counters_of (l ∷ t) = ap (λ (n : ℕ). l.size + n) (sum-counters_of t)

get_entry-IsNarrowStat : (s : SegmentStat) → IsNarrowStat s → IsNarrowStat (get_entry s)
unfolding get_entry
get_entry-IsNarrowStat s h = elim (Bool-cases (is_state s.state reserved)) [
  | inl kept ↦ rw (kept, get_entry) (record { free_word = omega arith; death_word = omega arith })
  | inr other ↦ rw (other, get_entry) h
]

get_entries-AreNarrow :
    (n : ℕ) (t : List SegmentStat) → All IsNarrowStat t → All IsNarrowStat (get_entries n t)
unfolding get_entries
get_entries-AreNarrow zero t h = tt
get_entries-AreNarrow (suc n) [] h = tt
get_entries-AreNarrow (suc n) (s ∷ t) (h, hs) =
    (get_entry-IsNarrowStat s h, get_entries-AreNarrow n t hs)

length-get_entries : (n : ℕ) (t : List SegmentStat) → length t ≡ n → length (get_entries n t) ≡ n
unfolding get_entries
length-get_entries zero t h = refl
length-get_entries (suc n) [] h = absurd (omega arith)
length-get_entries (suc n) (s ∷ t) h = ap suc (length-get_entries n t (omega arith))

append-AreNarrow :
    (l k : List SegmentStat) → All IsNarrowStat l → All IsNarrowStat k → All IsNarrowStat (l ++ k)
append-AreNarrow [] k h g = g
append-AreNarrow (s ∷ l) k (h, hs) g = (h, append-AreNarrow l k hs g)

-- The stats of a volume fit their widths.
abbrev pub IsNarrowVolume : Volume → Type 0
IsNarrowVolume v = All IsNarrowStat v.seg_mgr.seg_table

get-of_volume :
    (v : Volume)
    → IsSound v
    → IsNarrowVolume v
    → (t : List SegmentStat) × (SegmentManager.get v.seg_mgr v.seg_num ≡ some t)
      × (length t ≡ v.seg_num)
      × All IsNarrowStat t
unfolding SegmentManager.get
get-of_volume v h w =
    let m = v.seg_mgr in
    let same : (v.seg_num == m.seg_num) ≡ true = ground (arith, h.sized) in
    (
      get_entries m.seg_num m.seg_table,
      rw (same, SegmentManager.get) refl,
      length-get_entries m.seg_num m.seg_table h.inv.sized ∙ h.sized,
      get_entries-AreNarrow m.seg_num m.seg_table w,
    )

tables_cons :
    (v : Volume) (l : List Volume) (t stats : List SegmentStat)
    → SegmentManager.get v.seg_mgr v.seg_num ≡ some t
    → get_tables l ≡ some stats
    → get_tables (v ∷ l) ≡ some (t ++ stats)
unfolding get_tables
tables_cons v l t stats a b = rw (a, b, get_tables) refl

-- The tables of the volumes: as many stats as segments, each within its widths.
pub get_tables-AreNarrow :
    (l : List Volume)
    → All IsSound l
    → All IsNarrowVolume l
    → (stats : List SegmentStat) × (get_tables l ≡ some stats)
      × (length stats ≡ stats_num l)
      × All IsNarrowStat stats
unfolding get_tables stats_num
get_tables-AreNarrow [] h w = ([], refl, refl, tt)
get_tables-AreNarrow (v ∷ l) (h, hs) (w, ws) =
    let (t, got, sized, narrow) = get-of_volume v h w in
    let (stats, rest, long, narrows) = get_tables-AreNarrow l hs ws in
    (
      t ++ stats,
      tables_cons v l t stats got rest,
      omega (arith, length-append t stats, sized, long),
      append-AreNarrow t stats narrow narrows,
    )
