-- ===== src/SegmentManager.antt =====
-- SegmentManager.h and SegmentManager.cc: the segment table of one volume. The operations hold the
-- manager's mutex for their whole body, so each is one step on the state. `segTable_[i]` is in
-- bounds for every caller; the model reads a free segment and writes nothing out of bounds. A loop
-- `for (index < segNum_)` goes over the table, which has `segNum_` elements.
pub mod Count
pub mod Scan
pub mod Alloc
pub mod Invariant
pub mod Persist
pub mod Candidates
use hlkvds.Prelude.{
  ℕ, zero, suc, Bool, true, false, Option, none, some, List, [], ◌∷◌, ◌++◌, ltb, leb, ◌&&◌, ◌==◌,
  if◌then◌else◌, length, get_or, set, u32_add, u32_sub,
}

pub data SegUseStat : Type 0 where
  free used reserved : SegUseStat

pub record SegmentStat : Type 0 where
  pub state : SegUseStat
  pub free_size : ℕ
  pub death_size : ℕ

pub record SegmentManager : Type 0 where
  pub seg_table : List SegmentStat
  pub seg_size : ℕ
  pub seg_num : ℕ
  pub cur_seg_id : ℕ
  pub used_counter : ℕ
  pub freed_counter : ℕ
  pub reserved_counter : ℕ

-- SEG_RESERVED_FOR_GC of Db_Structure.h
abbrev pub seg_reserved_for_gc : ℕ
seg_reserved_for_gc = 2

-- sizeof(SegHeaderOnDisk): two 64-bit and four 32-bit fields
abbrev pub size_of_seg_on_disk : ℕ
size_of_seg_on_disk = 32

-- `state == SegUseStat::…`
abbrev pub is_state : SegUseStat → SegUseStat → Bool
is_state free free = true
is_state used used = true
is_state reserved reserved = true
is_state _ _ = false

-- SegmentStat()
abbrev pub fresh_stat : SegmentStat
fresh_stat = record { state = free; free_size = 0; death_size = 0 }

abbrev pub stat_at : List SegmentStat → ℕ → SegmentStat
stat_at t i = get_or t i fresh_stat

unfoldable pub init : ℕ → ℕ → ℕ → SegmentManager
init segment_size segment_num cur = record {
  seg_table = [];
  seg_size = segment_size;
  seg_num = segment_num;
  cur_seg_id = cur;
  used_counter = 0;
  freed_counter = segment_num;
  reserved_counter = 0;
}

-- The `while` of AllocForGC from `seg_index`: `none` when the fuel ends first, `some none` when the
-- loop is left with no segment found, `some (some i)` when segment `i` is free.
unfoldable pub scan : ℕ → List SegmentStat → ℕ → ℕ → ℕ → Option (Option ℕ)
scan zero t num cur seg_index = none
scan (suc fuel) t num cur seg_index = elim (seg_index == cur) [
  | true ↦ some none
  | false ↦
      let i = if seg_index == num then 0 else seg_index in
      elim (is_state (stat_at t i).state free) [
        | true ↦ some (some i)
        | false ↦ scan fuel t num cur (u32_add i 1)
      ]
]

-- Takes segment `i` out of the free ones.
unfoldable pub reserve : SegmentManager → ℕ → SegmentManager
reserve m i = record m {
  seg_table = set m.seg_table i (record (stat_at m.seg_table i) { state = reserved });
  cur_seg_id = i;
  reserved_counter = u32_add m.reserved_counter 1;
  freed_counter = u32_sub m.freed_counter 1;
}

-- `none` stands for a call that does not return within the fuel; the Boolean result and the
-- out-parameter `seg_id` are one option.
abbrev pub take_found : SegmentManager → Option (Option ℕ) → Option (SegmentManager × Option ℕ)
take_found m none = none
take_found m (some none) = some (m, none)
take_found m (some (some i)) = some (reserve m i, some i)

unfoldable pub alloc_for_gc : ℕ → SegmentManager → Option (SegmentManager × Option ℕ)
unfolding reserve scan
alloc_for_gc fuel m =
    if is_state (stat_at m.seg_table m.cur_seg_id).state free
    then some (reserve m m.cur_seg_id, some m.cur_seg_id)
    else take_found m (scan fuel m.seg_table m.seg_num m.cur_seg_id (u32_add m.cur_seg_id 1))

-- Alloc takes the mutex twice; the model is the call with no other thread in between.
unfoldable pub alloc : ℕ → SegmentManager → Option (SegmentManager × Option ℕ)
unfolding alloc_for_gc
alloc fuel m =
    if leb m.freed_counter seg_reserved_for_gc then some (m, none) else alloc_for_gc fuel m

unfoldable pub free_for_failed : SegmentManager → ℕ → SegmentManager
free_for_failed m i = record m {
  seg_table = set m.seg_table i fresh_stat;
  reserved_counter = u32_sub m.reserved_counter 1;
  freed_counter = u32_add m.freed_counter 1;
}

unfoldable pub free_for_gc : SegmentManager → ℕ → SegmentManager
free_for_gc m i = record m {
  seg_table = set m.seg_table i fresh_stat;
  used_counter = u32_sub m.used_counter 1;
  freed_counter = u32_add m.freed_counter 1;
}

unfoldable pub use_seg : SegmentManager → ℕ → ℕ → SegmentManager
use_seg m i size = record m {
  seg_table = set m.seg_table i (record (stat_at m.seg_table i) { state = used; free_size = size });
  reserved_counter = u32_sub m.reserved_counter 1;
  used_counter = u32_add m.used_counter 1;
}

unfoldable pub add_death_size : SegmentManager → ℕ → ℕ → SegmentManager
add_death_size m i size =
    let s = stat_at m.seg_table i in
    record m { seg_table = set m.seg_table i (record s { death_size = u32_add s.death_size size }) }

-- `Get`: a reserved segment is skipped, and leaves in the buffer what was there; every caller
-- hands over a zeroed buffer, and zero bytes are a fresh stat. `none` for a wrong length.
unfoldable pub get_entry : SegmentStat → SegmentStat
get_entry s = if is_state s.state reserved then fresh_stat else s

unfoldable pub get_entries : ℕ → List SegmentStat → List SegmentStat
unfolding get_entry
get_entries zero t = []
get_entries (suc n) [] = []
get_entries (suc n) (s ∷ t) = get_entry s ∷ get_entries n t

-- The length is counted in stats: `length` bytes are `sizeof(SegmentStat)` times as many.
unfoldable pub get : SegmentManager → ℕ → Option (List SegmentStat)
unfolding get_entries
get m len = if len == m.seg_num then some (get_entries m.seg_num m.seg_table) else none

-- One round of the loop of `Set`.
unfoldable pub load_stat : SegmentManager → SegmentStat → SegmentManager
load_stat m s = record m {
  seg_table = m.seg_table ++ s ∷ [];
  used_counter = if is_state s.state used then u32_add m.used_counter 1 else m.used_counter;
  freed_counter = if is_state s.state used then u32_sub m.freed_counter 1 else m.freed_counter;
}

unfoldable pub load_stats : SegmentManager → List SegmentStat → SegmentManager
unfolding load_stat
load_stats m [] = m
load_stats m (s ∷ buf) = load_stats (load_stat m s) buf

unfoldable pub set_table : SegmentManager → List SegmentStat → Option SegmentManager
unfolding load_stats
set_table m buf = if length buf == m.seg_num then some (load_stats m buf) else none

-- The candidates of garbage collection and migration: a std::multimap from used size to segment,
-- in order; an equal key goes behind those already there.
unfoldable pub cand_insert : ℕ × ℕ → List (ℕ × ℕ) → List (ℕ × ℕ)
cand_insert c [] = c ∷ []
cand_insert c (d ∷ l) = if ltb c.0 d.0 then c ∷ d ∷ l else d ∷ cand_insert c l

unfoldable pub used_size : ℕ → SegmentStat → ℕ
used_size seg_size s =
    u32_sub seg_size (u32_add (u32_add s.free_size s.death_size) size_of_seg_on_disk)

-- The loop of SortSegsByUtils from segment `index` on; `thld` is `(uint32_t)(segSize_ * utils)`.
unfoldable pub utils_loop : ℕ → ℕ → ℕ → List SegmentStat → List (ℕ × ℕ) → List (ℕ × ℕ)
unfolding used_size cand_insert
utils_loop size thld index [] cands = cands
utils_loop size thld index (s ∷ t) cands = utils_loop size thld (suc index) t (
    if is_state s.state used && ltb (used_size size s) thld
    then cand_insert (used_size size s, index) cands
    else cands)

unfoldable pub sort_segs_by_utils : SegmentManager → ℕ → List (ℕ × ℕ) → List (ℕ × ℕ)
unfolding utils_loop
sort_segs_by_utils m thld cands = utils_loop m.seg_size thld 0 m.seg_table cands

-- The first loop of SortSegsByTS.
unfoldable pub ts_loop : ℕ → ℕ → List SegmentStat → List (ℕ × ℕ) → List (ℕ × ℕ)
unfolding used_size cand_insert
ts_loop size index [] used_map = used_map
ts_loop size index (s ∷ t) used_map =
    ts_loop size (suc index) t
      (if is_state s.state used then cand_insert (used_size size s, index) used_map else used_map)

-- Its second loop: at most `max_seg_num` of the segments go over, the least used ones.
unfoldable pub insert_first : ℕ → List (ℕ × ℕ) → List (ℕ × ℕ) → List (ℕ × ℕ)
unfolding cand_insert
insert_first zero used_map cands = cands
insert_first (suc n) [] cands = cands
insert_first (suc n) (c ∷ used_map) cands = insert_first n used_map (cand_insert c cands)

unfoldable pub sort_segs_by_ts : SegmentManager → ℕ → List (ℕ × ℕ) → List (ℕ × ℕ)
unfolding ts_loop insert_first
sort_segs_by_ts m max_seg_num cands =
    insert_first max_seg_num (ts_loop m.seg_size 0 m.seg_table []) cands
