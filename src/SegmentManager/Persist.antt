-- ===== src/SegmentManager/Persist.antt =====
-- The segment table written to the device and read back: Get and Set.
use hlkvds.Prelude.{
  ℕ, zero, suc, ◌+◌, ◌<◌, ◌≤◌, ◌≡◌, refl, ◌∙◌, some, List, [], ◌∷◌, ◌++◌, arith, length, u32_mod,
  map, length-map, ap,
}
use mathlib.Core.List.{append_assoc}
use hlkvds.SegmentManager.{
  free, used, reserved, SegmentStat, SegmentManager, init, get, get_entry, get_entries, load_stat,
  load_stats, set_table,
}
use hlkvds.SegmentManager.Count.{Inv, count, count_total}

get_entries-map : (n : ℕ) (t : List SegmentStat) → length t ≡ n → get_entries n t ≡ map get_entry t
unfolding get_entries
get_entries-map zero [] h = refl
get_entries-map zero (s ∷ t) h = absurd (omega arith)
get_entries-map (suc n) [] h = absurd (omega arith)
get_entries-map (suc n) (s ∷ t) h = ap (◌∷◌ (get_entry s)) (get_entries-map n t (omega arith))

count-saved :
    (t : List SegmentStat)
    → (count used (map get_entry t) ≡ count used t)
      × (count free (map get_entry t) ≡ count free t + count reserved t)
      × (count reserved (map get_entry t) ≡ 0)
unfolding count get_entry
count-saved [] = (refl, refl, refl)
count-saved (s ∷ t) = ground (arith, count-saved t)

load_stats-table :
    (m : SegmentManager) (buf : List SegmentStat)
    → (load_stats m buf).seg_table ≡ m.seg_table ++ buf
unfolding load_stats
load_stats-table m [] = rw mathlib.Core.List.append-nil
load_stats-table m (s ∷ buf) =
    load_stats-table (load_stat m s) buf ∙ append_assoc m.seg_table (s ∷ []) buf

load_stats-counters :
    (m : SegmentManager) (buf : List SegmentStat)
    → m.used_counter + length buf < u32_mod
    → m.freed_counter < u32_mod
    → length buf ≤ m.freed_counter
    → ((load_stats m buf).used_counter ≡ m.used_counter + count used buf)
      × ((load_stats m buf).freed_counter + count used buf ≡ m.freed_counter)
      × ((load_stats m buf).reserved_counter ≡ m.reserved_counter)
      × ((load_stats m buf).seg_num ≡ m.seg_num)
      × ((load_stats m buf).cur_seg_id ≡ m.cur_seg_id)
unfolding load_stats count
load_stats-counters m [] a b c = (omega arith, omega arith, refl, refl, refl)
load_stats-counters m (s ∷ buf) a b c = ground (arith, load_stats-counters (load_stat m s) buf)

-- The table that `get` saves is read back by `set_table` into a fresh manager: every used segment
-- has its stat again, a reserved segment comes back free, and the counters fit the table.
pub set_table-get :
    (m : SegmentManager)
    → Inv m
    → (buf : List SegmentStat) × (n : SegmentManager) × (get m m.seg_num ≡ some buf)
      × (set_table (init m.seg_size m.seg_num m.cur_seg_id) buf ≡ some n)
      × Inv n
      × (n.seg_table ≡ map get_entry m.seg_table)
      × (n.used_counter ≡ m.used_counter)
      × (n.freed_counter ≡ m.freed_counter + m.reserved_counter)
unfolding get set_table init
set_table-get m v = (
  map get_entry m.seg_table,
  load_stats fresh (map get_entry m.seg_table),
  rw (get_entries-map m.seg_num m.seg_table v.sized) (ground arith),
  ground (arith, same_length),
  record {
    sized = rw table (omega (arith, same_length, v.sized, counters));
    word = ground (arith, counters);
    cursor = ground (arith, counters);
    used_count = rw table (omega (arith, counters));
    freed_count = rw table (omega (arith, counters, saved, total, v.sized));
    reserved_count = rw table (omega (arith, counters, saved));
  },
  table,
  omega (arith, counters, saved, v.used_count),
  omega (arith, counters, saved, total, v.freed_count, v.reserved_count, v.sized),
)
  where
    fresh : SegmentManager
    fresh = init m.seg_size m.seg_num m.cur_seg_id

    same_length : length (map get_entry m.seg_table) ≡ length m.seg_table
    same_length = length-map get_entry m.seg_table

    total :
        count free m.seg_table + count used m.seg_table + count reserved m.seg_table
        ≡ length m.seg_table
    total = count_total m.seg_table

    saved :
        (count used (map get_entry m.seg_table) ≡ count used m.seg_table)
        × (count free (map get_entry m.seg_table)
            ≡ count free m.seg_table + count reserved m.seg_table)
        × (count reserved (map get_entry m.seg_table) ≡ 0)
    saved = count-saved m.seg_table

    table : (load_stats fresh (map get_entry m.seg_table)).seg_table ≡ map get_entry m.seg_table
    table = load_stats-table fresh (map get_entry m.seg_table)

    counters :
        ((load_stats fresh (map get_entry m.seg_table)).used_counter
          ≡ 0 + count used (map get_entry m.seg_table))
        × ((load_stats fresh (map get_entry m.seg_table)).freed_counter
              + count used (map get_entry m.seg_table)
            ≡ m.seg_num)
        × ((load_stats fresh (map get_entry m.seg_table)).reserved_counter ≡ 0)
        × ((load_stats fresh (map get_entry m.seg_table)).seg_num ≡ m.seg_num)
        × ((load_stats fresh (map get_entry m.seg_table)).cur_seg_id ≡ m.cur_seg_id)
    counters =
        load_stats-counters fresh (map get_entry m.seg_table)
          (omega (arith, same_length, v.sized, v.word)) v.word (omega (arith, same_length, v.sized))
