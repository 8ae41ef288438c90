-- ===== src/Volume.antt =====
-- Volume.h and Volume.cc: where segments and entries lie on the device of a volume.
pub mod Offsets
use hlkvds.Prelude.{
  ℕ, zero, suc, ◌+◌, ◌*◌, ◌/◌, ◌%◌, ◌^◌, Bool, true, false, Option, none, some, ltb, if◌then◌else◌,
  u32_mod, u32_add, u64_add,
}
use hlkvds.HashEntry.{HashEntry, data_size_of, offset_of, size_of_data_header}
use hlkvds.SegmentManager.{SegmentManager, init, add_death_size}

-- `(uint32_t)log2(n)`, for 0 < n: how often `n` can be halved, with `n` itself as the fuel.
unfoldable pub halvings : ℕ → ℕ → ℕ
halvings zero n = 0
halvings (suc fuel) n = let rest = suc (halvings fuel (n / 2)) in if ltb n 2 then 0 else rest

unfoldable pub log2 : ℕ → ℕ
unfolding halvings
log2 n = halvings n n

pub record Volume : Type 0 where
  pub seg_mgr : SegmentManager
  pub vol_id : ℕ
  pub start_off : ℕ
  pub seg_size : ℕ
  pub seg_num : ℕ
  pub seg_size_bit : ℕ

unfoldable pub make : ℕ → ℕ → ℕ → ℕ → ℕ → Volume
unfolding log2 init
make vol_id start_off segment_size segment_num cur_seg_id = record {
  seg_mgr = init segment_size segment_num cur_seg_id;
  vol_id = vol_id;
  start_off = start_off;
  seg_size = segment_size;
  seg_num = segment_num;
  seg_size_bit = log2 segment_size;
}

-- CalcSegOffsetFromId; `none` is the result false, with the out-parameter left alone.
unfoldable pub calc_seg_offset_from_id : Volume → ℕ → Option ℕ
calc_seg_offset_from_id v seg_id =
    if ltb seg_id v.seg_num then some (seg_id * 2 ^ v.seg_size_bit) else none

-- CalcSegIdFromOffset sets its out-parameter also where it returns false.
unfoldable pub calc_seg_id_from_offset : Volume → ℕ → ℕ × Bool
calc_seg_id_from_offset v offset =
    let seg_id = offset / 2 ^ v.seg_size_bit % u32_mod in (seg_id, ltb seg_id v.seg_num)

unfoldable pub calc_seg_offset_from_offset : Volume → ℕ → Option ℕ
unfolding calc_seg_id_from_offset calc_seg_offset_from_id
calc_seg_offset_from_offset v offset =
    let (seg_id, inside) = calc_seg_id_from_offset v offset in
    if inside then calc_seg_offset_from_id v seg_id else none

unfoldable pub calc_data_offset_phy_from_entry : Volume → HashEntry → Option ℕ
unfolding calc_seg_offset_from_offset
calc_data_offset_phy_from_entry v e = elim (calc_seg_offset_from_offset v (offset_of e)) [
  | none ↦ none
  | some seg_offset ↦ some (u64_add seg_offset e.on_disk.header.data_offset)
]

unfoldable pub calc_key_offset_phy_from_entry : Volume → HashEntry → ℕ
calc_key_offset_phy_from_entry v e = u64_add (offset_of e) size_of_data_header

-- ModifyDeathEntry logs an offset outside the volume, and goes on.
unfoldable pub modify_death_entry : HashEntry → Volume → Volume
unfolding calc_seg_id_from_offset add_death_size
modify_death_entry e v =
    let (seg_id, inside) = calc_seg_id_from_offset v (offset_of e) in
    record v {
      seg_mgr = add_death_size v.seg_mgr seg_id (u32_add (data_size_of e) size_of_data_header);
    }
