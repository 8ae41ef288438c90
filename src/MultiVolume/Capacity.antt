-- ===== src/MultiVolume/Capacity.antt =====
-- How many segments fit on a device: the sizes that DS_MultiVolume_Impl.cc computes, and the loop
-- that makes room for the segment tables of all volumes on the first device.
use native.Mathlib.Nat.{mul-le-mul, zero-mul}
use hlkvds.Prelude.{
  ℕ, zero, suc, ◌+◌, ◌-◌, ◌*◌, ◌/◌, ◌%◌, ◌^◌, ◌<◌, ◌≤◌, ◌≡◌, refl, ◌∙◌, ap, false, Option, none,
  some, ltb, if◌then◌else◌, arith, u32_mod, u64_mod, u32_add, u32_sub, u64_add, u64_sub, Bool-cases,
  inl, inr, ℕ_discrete, ltb→lt, subst,
}
use hlkvds.Volume.{log2}

-- `sizeof(SegmentStat)`, an enum and two words of 32 bits, and `sizeof(time_t)`
abbrev pub size_of_segment_stat : ℕ
size_of_segment_stat = 12

abbrev pub size_of_time : ℕ
size_of_time = 8

-- calcSSTsLengthOnDiskBySegNum, for pages of 4096 bytes
unfoldable pub calc_ssts_length : ℕ → ℕ
calc_ssts_length seg_num = ((size_of_segment_stat * seg_num + size_of_time) / 4096 + 1) * 4096

-- calcSegNumForPureVolume
unfoldable pub calc_seg_num_for_pure : ℕ → ℕ → ℕ
calc_seg_num_for_pure capacity seg_size = capacity / seg_size % u32_mod

-- The tables and the segments of `num` segments, next to `buddy` segments on other devices.
unfoldable pub needed : ℕ → ℕ → ℕ → ℕ
unfolding calc_ssts_length
needed buddy bit num = u64_add (calc_ssts_length (u32_add num buddy)) (num * 2 ^ bit % u64_mod)

-- The loop of calcSegNumForMetaVolume: `none` when the fuel ends first.
unfoldable pub meta_loop : ℕ → ℕ → ℕ → ℕ → ℕ → Option ℕ
unfolding needed
meta_loop zero valid buddy bit num = none
meta_loop (suc fuel) valid buddy bit num =
    let rest = meta_loop fuel valid buddy bit (u32_sub num 1) in
    if ltb valid (needed buddy bit num) then rest else some num

unfoldable pub calc_seg_num_for_meta : ℕ → ℕ → ℕ → ℕ → ℕ → Option ℕ
unfolding meta_loop log2
calc_seg_num_for_meta fuel capacity sst_offset buddy seg_size =
    let valid = u64_sub capacity sst_offset in
    meta_loop fuel valid buddy (log2 seg_size) (valid / seg_size % u32_mod)

needed_wide :
    (buddy bit num : ℕ)
    → buddy < 2147483648
    → num < u32_mod
    → 2 ^ bit ≤ 2147483648
    → needed buddy bit num ≡ calc_ssts_length (u32_add num buddy) + num * 2 ^ bit
unfolding needed calc_ssts_length
needed_wide buddy bit num b n p =
    let low : num ≤ 4294967295 = omega arith in
    let m : num * 2 ^ bit ≤ 4294967295 * 2147483648 = mul-le-mul low p in omega (arith, m)

refused :
    (valid buddy bit num : ℕ)
    → buddy < 2147483648
    → num < u32_mod
    → 4096 ≤ 2 ^ bit
    → 2 ^ bit ≤ 2147483648
    → valid < calc_ssts_length buddy
    → valid < needed buddy bit num
unfolding calc_ssts_length
refused valid buddy bit num b n l p h =
    let same : num ≤ num = omega arith in
    let m : num * 4096 ≤ num * 2 ^ bit = mul-le-mul same l in
    rw (needed_wide buddy bit num b n p) (omega (arith, m))

meta_loop_diverges :
    (fuel valid buddy bit num : ℕ)
    → buddy < 2147483648
    → num < u32_mod
    → 4096 ≤ 2 ^ bit
    → 2 ^ bit ≤ 2147483648
    → valid < calc_ssts_length buddy
    → meta_loop fuel valid buddy bit num ≡ none
unfolding meta_loop
meta_loop_diverges zero valid buddy bit num b n l p h = refl
meta_loop_diverges (suc fuel) valid buddy bit num b n l p h =
    let above = refused valid buddy bit num b n l p h in
    let rest = meta_loop_diverges fuel valid buddy bit (u32_sub num 1) b (omega arith) l p h in
    ground (arith, above, rest)

-- The number of segments with which tables and segments fit, and no larger one does.
abbrev pub IsLargest : ℕ → ℕ → ℕ → ℕ → ℕ → Type 0
IsLargest valid buddy bit num n =
    (calc_ssts_length (n + buddy) + n * 2 ^ bit ≤ valid)
    × (n ≤ num)
    × ((m : ℕ) → n < m → m ≤ num → valid < calc_ssts_length (m + buddy) + m * 2 ^ bit)

meta_loop_found :
    (fuel valid buddy bit num : ℕ)
    → buddy < 2147483648
    → num < 2147483648
    → 2 ^ bit ≤ 2147483648
    → calc_ssts_length buddy ≤ valid
    → num < fuel
    → (n : ℕ) × (meta_loop fuel valid buddy bit num ≡ some n) × IsLargest valid buddy bit num n
unfolding meta_loop
meta_loop_found zero valid buddy bit num b n p room f = absurd (omega arith)
meta_loop_found (suc fuel) valid buddy bit zero b n p room f =
    let wide = needed_wide buddy bit 0 b (omega arith) p in
    let plain : u32_add 0 buddy ≡ buddy = omega arith in
    let nothing : 0 * 2 ^ bit ≡ 0 = zero-mul (2 ^ bit) in
    let fits : ltb valid (needed buddy bit 0) ≡ false =
      rw (wide, plain, nothing) (ground (arith, room)) in
    (
      0,
      rw fits refl,
      (rw nothing (omega (arith, room)), omega arith, λ m above below. absurd (omega arith)),
    )
meta_loop_found (suc fuel) valid buddy bit (suc num) b n p room f =
    let wide = needed_wide buddy bit (suc num) b (omega arith) p in
    let plain : u32_add (suc num) buddy ≡ suc num + buddy = omega arith in
    let total = wide ∙ ap (λ (k : ℕ). calc_ssts_length k + suc num * 2 ^ bit) plain in
    elim (Bool-cases (ltb valid (needed buddy bit (suc num)))) [
      | inr fits ↦ (
        suc num,
        rw fits refl,
        (
          subst (λ (k : ℕ). k ≤ valid) total (ground arith),
          omega arith,
          λ m above below. absurd (omega arith),
        ),
      )
      | inl large ↦
          let down : u32_sub (suc num) 1 ≡ num = omega arith in
          let (k, found, (fit, low, largest)) =
            meta_loop_found fuel valid buddy bit num b (omega arith) p room (omega arith) in
          (
            k,
            rw large (ap (meta_loop fuel valid buddy bit) down ∙ found),
            (
              fit,
              omega arith,
              λ m above below. elim (ℕ_discrete m (suc num)) [
                | yes same ↦ rw same (
                    subst (λ (k : ℕ). valid < k) total
                      (ltb→lt valid (needed buddy bit (suc num)) large))
                | no other ↦ largest m above (omega arith)
              ],
            ),
          )
    ]

calc_seg_num_found :
    (fuel capacity sst_offset buddy seg_size : ℕ)
    → capacity < u64_mod
    → sst_offset + calc_ssts_length buddy ≤ capacity
    → buddy < 2147483648
    → (capacity - sst_offset) / seg_size < 2147483648
    → 2 ^ log2 seg_size ≤ 2147483648
    → (capacity - sst_offset) / seg_size < fuel
    → (n : ℕ) × (calc_seg_num_for_meta fuel capacity sst_offset buddy seg_size ≡ some n)
      × (sst_offset + calc_ssts_length (n + buddy) + n * 2 ^ log2 seg_size ≤ capacity)
      × ((m : ℕ)
          → n < m
          → m ≤ (capacity - sst_offset) / seg_size
          → capacity < sst_offset + calc_ssts_length (m + buddy) + m * 2 ^ log2 seg_size)
unfolding calc_seg_num_for_meta
calc_seg_num_found fuel capacity sst_offset buddy seg_size c room b n p f =
    let valid : u64_sub capacity sst_offset ≡ capacity - sst_offset = omega (arith, room) in
    let num = (capacity - sst_offset) / seg_size in
    let plain : num % u32_mod ≡ num = omega (arith, n) in
    let (k, found, (fit, low, largest)) =
      meta_loop_found fuel (capacity - sst_offset) buddy (log2 seg_size) num b n p
        (omega (arith, room)) f in
    (
      k,
      (λ i. meta_loop fuel (valid i) buddy (log2 seg_size) (valid i / seg_size % u32_mod))
          ∙ ap (meta_loop fuel (capacity - sst_offset) buddy (log2 seg_size)) plain
          ∙ found,
      omega (arith, fit, room),
      λ m above below. omega (arith, largest m above below, room),
    )

-- A first device on which the segment tables of the other devices fit is given the largest number
-- of segments that fits behind its own table and theirs: the loop ends, within as many rounds as
-- segments of its size the device has, and neither the tables nor the segments reach over the
-- device's end. The segment size is a power of two up to 2 ^ 31 (the loop counts with the size
-- rounded down to one), the capacity has 64 bits, and the segments on the other devices and those of
-- the device's size are less than 2 ^ 31.
pub calc_seg_num_for_meta_fits :
    (fuel capacity sst_offset buddy seg_size : ℕ)
    → capacity < u64_mod
    → sst_offset + calc_ssts_length buddy ≤ capacity
    → buddy < 2147483648
    → (capacity - sst_offset) / seg_size < 2147483648
    → 2 ^ log2 seg_size ≡ seg_size
    → seg_size ≤ 2147483648
    → (capacity - sst_offset) / seg_size < fuel
    → (n : ℕ) × (calc_seg_num_for_meta fuel capacity sst_offset buddy seg_size ≡ some n)
      × (sst_offset + calc_ssts_length (n + buddy) + n * seg_size ≤ capacity)
      × ((m : ℕ)
          → n < m
          → m ≤ (capacity - sst_offset) / seg_size
          → capacity < sst_offset + calc_ssts_length (m + buddy) + m * seg_size)
calc_seg_num_for_meta_fits fuel capacity sst_offset buddy seg_size c room b n power p f =
    let (k, found, fit, largest) =
      calc_seg_num_found fuel capacity sst_offset buddy seg_size c room b n (omega arith) f in
    (
      k,
      found,
      subst (λ (s : ℕ). sst_offset + calc_ssts_length (k + buddy) + k * s ≤ capacity) power fit,
      λ m above below.
          subst (λ (s : ℕ). capacity < sst_offset + calc_ssts_length (m + buddy) + m * s) power
            (largest m above below),
    )

-- On a first device that is too small for the segment tables of the other devices alone, the loop of
-- calcSegNumForMetaVolume does not end, however many rounds it makes: for a capacity of 64 bits that is
-- not below the offset of the tables, less than 2 ^ 31 segments on the other devices, and segments
-- whose size rounds down to a power of two between 4096 and 2 ^ 31.
pub calc_seg_num_for_meta_diverges :
    (fuel capacity sst_offset buddy seg_size : ℕ)
    → capacity < u64_mod
    → sst_offset ≤ capacity
    → capacity < sst_offset + calc_ssts_length buddy
    → buddy < 2147483648
    → 4096 ≤ 2 ^ log2 seg_size
    → 2 ^ log2 seg_size ≤ 2147483648
    → calc_seg_num_for_meta fuel capacity sst_offset buddy seg_size ≡ none
unfolding calc_seg_num_for_meta
calc_seg_num_for_meta_diverges fuel capacity sst_offset buddy seg_size c room small b l p =
    let valid = u64_sub capacity sst_offset in
    meta_loop_diverges fuel valid buddy (log2 seg_size) (valid / seg_size % u32_mod) b (omega arith)
      l p (omega (arith, small, room))
