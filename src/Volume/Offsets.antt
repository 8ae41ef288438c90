-- ===== src/Volume/Offsets.antt =====
-- The conversions between byte offsets and segment numbers (Volume.cc, SegmentManager.cc).
use native.Mathlib.Nat.{pow-suc, mul-add-div_right, div-eq_of_lt}
use hlkvds.Prelude.{
  ℕ, zero, suc, ◌+◌, ◌*◌, ◌/◌, ◌%◌, ◌^◌, ◌<◌, ◌≤◌, ◌≡◌, ◌≢◌, true, some, arith, ltb, u32_mod,
  u64_mod, Bool-cases, inl, inr, u32_add, get_or-set_self, ap, ◌∙◌,
}
use hlkvds.HashEntry.{HashEntry, data_size_of, offset_of, size_of_data_header}
use hlkvds.SegmentManager.{SegmentStat, stat_at, fresh_stat}
use hlkvds.SegmentManager.Count.{Inv}
use hlkvds.Volume.{
  Volume, halvings, log2, calc_seg_offset_from_id, calc_seg_id_from_offset,
  calc_seg_offset_from_offset, calc_data_offset_phy_from_entry, modify_death_entry,
}

halvings_pow :
    (fuel n : ℕ) → 0 < n → n ≤ fuel → (2 ^ halvings fuel n ≤ n) × (n < 2 * 2 ^ halvings fuel n)
unfolding halvings
halvings_pow zero n a b = absurd (omega arith)
halvings_pow (suc fuel) n a b = elim (Bool-cases (ltb n 2)) [
  | inl small ↦ rw small (ground arith)
  | inr large ↦
      let (lo, hi) = halvings_pow fuel (n / 2) (ground arith) (ground arith) in
      rw (large, pow-suc) (omega arith)
]

-- `log2` is the exponent of the greatest power of two that is not above the number.
pub log2_pow : (n : ℕ) → 0 < n → (2 ^ log2 n ≤ n) × (n < 2 * 2 ^ log2 n)
unfolding log2
log2_pow n h = halvings_pow n n h (omega arith)

-- A volume as its constructor leaves it: numbers in range and the exponent of the segment size.
pub record IsLaidOut (v : Volume) : Type 0 where
  pub positive : 0 < v.seg_size
  pub exponent : v.seg_size_bit ≡ log2 v.seg_size
  pub word : v.seg_num < u32_mod

div_at : (q p r : ℕ) → r < p → (q * p + r) / p ≡ q
div_at q p r h = omega (arith, mul-add-div_right {m = p} (omega arith) q r, div-eq_of_lt h)

-- From the offset of a segment, or of anything in the first 2 ^ bit bytes behind it, one gets back
-- to the segment, and to its offset.
pub calc_seg_id-offset :
    (v : Volume) (seg_id off : ℕ)
    → IsLaidOut v
    → seg_id < v.seg_num
    → off < 2 ^ v.seg_size_bit
    → (o : ℕ) × (calc_seg_offset_from_id v seg_id ≡ some o)
      × (calc_seg_id_from_offset v (o + off) ≡ (seg_id, true))
      × (calc_seg_offset_from_offset v (o + off) ≡ some o)
unfolding calc_seg_offset_from_id calc_seg_id_from_offset calc_seg_offset_from_offset
calc_seg_id-offset v seg_id off l h b =
    let e = div_at seg_id (2 ^ v.seg_size_bit) off b in
    (
      seg_id * 2 ^ v.seg_size_bit,
      ground arith,
      ground (arith, e, l.word),
      ground (arith, e, l.word),
    )

next_segment : (a b p : ℕ) → a < b → a * p + p ≤ b * p
next_segment a b p h = grind arith

offset_inside :
    (v : Volume) (seg_id o : ℕ)
    → calc_seg_offset_from_id v seg_id ≡ some o
    → (seg_id < v.seg_num) × (o ≡ seg_id * 2 ^ v.seg_size_bit)
unfolding calc_seg_offset_from_id
offset_inside v seg_id o h = ground arith

-- Two segments do not overlap on the device if the segment size is a power of two.
pub segments_apart :
    (v : Volume) (a b p q : ℕ)
    → v.seg_size ≡ 2 ^ v.seg_size_bit
    → a < b
    → calc_seg_offset_from_id v a ≡ some p
    → calc_seg_offset_from_id v b ≡ some q
    → p + v.seg_size ≤ q
segments_apart v a b p q e h ea eb = omega (
  arith,
  next_segment a b (2 ^ v.seg_size_bit) h,
  (offset_inside v a p ea).1,
  (offset_inside v b q eb).1,
)

-- The creation of a store asks for whole pages only. For a segment size that is no power of two
-- every segment ends behind the start of the next one.
pub segments_overlap :
    (v : Volume) (a p q : ℕ)
    → IsLaidOut v
    → v.seg_size ≢ 2 ^ v.seg_size_bit
    → calc_seg_offset_from_id v a ≡ some p
    → calc_seg_offset_from_id v (suc a) ≡ some q
    → q < p + v.seg_size
segments_overlap v a p q l e ea eb =
    let up : 2 ^ v.seg_size_bit ≤ v.seg_size = rw l.exponent ((log2_pow v.seg_size l.positive).0) in
    let ep = (offset_inside v a p ea).1 in let eq = (offset_inside v (suc a) q eb).1 in grind arith

-- The device offset of the data of an entry that lies in a segment, `off` bytes from its start, is
-- the segment's offset plus the data offset of the entry's header.
pub calc_data_offset_in_segment :
    (v : Volume) (e : HashEntry) (seg_id off o : ℕ)
    → IsLaidOut v
    → off < 2 ^ v.seg_size_bit
    → calc_seg_offset_from_id v seg_id ≡ some o
    → offset_of e ≡ o + off
    → o + e.on_disk.header.data_offset < u64_mod
    → calc_data_offset_phy_from_entry v e ≡ some (o + e.on_disk.header.data_offset)
unfolding calc_data_offset_phy_from_entry calc_seg_offset_from_offset calc_seg_id_from_offset
calc_data_offset_in_segment v e seg_id off o l b at_seg at w =
    let (inside, o_at) = offset_inside v seg_id o at_seg in
    let d : offset_of e / 2 ^ v.seg_size_bit ≡ seg_id =
      rw (at, o_at) (div_at seg_id (2 ^ v.seg_size_bit) off b) in
    ground (arith, d, l.word)

-- A dead entry is charged, with its header and data, to the segment that it lies in.
pub modify_death_entry-charges :
    (v : Volume) (e : HashEntry) (seg_id off o : ℕ)
    → IsLaidOut v
    → Inv v.seg_mgr
    → v.seg_mgr.seg_num ≡ v.seg_num
    → off < 2 ^ v.seg_size_bit
    → calc_seg_offset_from_id v seg_id ≡ some o
    → offset_of e ≡ o + off
    → (stat_at v.seg_mgr.seg_table seg_id).death_size + data_size_of e + size_of_data_header
      < u32_mod
    → (stat_at (modify_death_entry e v).seg_mgr.seg_table seg_id).death_size
      ≡ (stat_at v.seg_mgr.seg_table seg_id).death_size + data_size_of e + size_of_data_header
unfolding modify_death_entry
modify_death_entry-charges v e seg_id off o l i n b at_seg at w =
    let (inside, o_at) = offset_inside v seg_id o at_seg in
    let t = v.seg_mgr.seg_table in
    let d : offset_of e / 2 ^ v.seg_size_bit ≡ seg_id =
      rw (at, o_at) (div_at seg_id (2 ^ v.seg_size_bit) off b) in
    let k : offset_of e / 2 ^ v.seg_size_bit % u32_mod ≡ seg_id = rw d (omega (arith, l.word)) in
    rw k (
      ap (λ (s : SegmentStat). s.death_size)
        (get_or-set_self t seg_id
          (record (stat_at t seg_id) {
            death_size =
                u32_add (stat_at t seg_id).death_size
                  (u32_add (data_size_of e) size_of_data_header);
          })
          fresh_stat (omega (arith, i.sized)))
      ∙ (omega arith))
