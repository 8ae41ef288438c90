-- ===== src/Tier/Create.antt =====
-- CreateAllComponents and OpenAllComponents of DS_MultiTier_Impl.cc, with CreateVolume and OpenVolume
-- of both tiers (Tier.cc). The first device is the fast tier's, the others are the medium tier's. The
-- result none stands for false, after which the store is not used; the outer one for a store without
-- a device, and for a loop that does not end within the fuel. The header and the items of the medium
-- tier have the fields of those of DS_MultiVolume_Impl.
pub mod Topology
use hlkvds.Prelude.{
  ℕ, zero, suc, ◌+◌, ◌-◌, ◌*◌, Bool, true, false, Option, none, some, List, [], ◌∷◌, ◌++◌, ◌==◌,
  ◌&&◌, not, if◌then◌else◌, length, replicate, u32_add, u64_add,
}
use hlkvds.Volume.{Volume}
use hlkvds.Volume
use hlkvds.MultiVolume.Capacity.{calc_ssts_length, calc_seg_num_for_pure, calc_seg_num_for_meta}
use hlkvds.MultiVolume.Create.{
  Device, Reserved, dev_path_len_limit, is_page_aligned, max_value_len_of, create_pure, add_segs,
  reserve_volumes, path_field, same_path, same_paths, open_pure,
}
use hlkvds.Tier.{MultiTier, fast_tier_vol_id}

-- MultiTierDS_SB_Reserved_FastTier
pub record ReservedFast : Type 0 where
  pub segment_size : ℕ
  pub dev_path : List ℕ
  pub segment_num : ℕ
  pub cur_seg_id : ℕ

-- MultiTierDS_SB_Reserved_Header, with what both tiers keep.
pub record ReservedTiers : Type 0 where
  pub fast_size : ℕ
  pub medium_size : ℕ
  pub fast : ReservedFast
  pub medium : Reserved

-- GetSbReservedSize of the tiers
abbrev pub fast_reserved_size : ℕ
fast_reserved_size = 268

abbrev pub medium_reserved_size : ℕ → ℕ
medium_reserved_size vol_num = 8 + 264 * vol_num

-- MediumTier: its volumes, the sum of their segments, and what it keeps.
pub record Medium : Type 0 where
  pub vols : List Volume
  pub seg_total_num : ℕ
  pub reserved : Reserved

-- MediumTier::CreateVolume on the devices behind the first one
unfoldable pub make_medium : ℕ → List Device → Medium
unfolding create_pure add_segs reserve_volumes
make_medium seg_size l =
    let vols = create_pure seg_size 0 l in
    record {
      vols = vols;
      seg_total_num = add_segs 0 vols;
      reserved = record {
        segment_size = seg_size;
        volume_num = length l;
        vol_vec = reserve_volumes l vols;
      };
    }

unfoldable pub create_medium : ℕ → List Device → Option Medium
unfolding make_medium
create_medium seg_size l = if is_page_aligned seg_size then some (make_medium seg_size l) else none

-- CalcSegNumForFastTierVolume
abbrev pub calc_seg_num_for_fast_tier : ℕ → ℕ → ℕ → ℕ → ℕ → Option ℕ
calc_seg_num_for_fast_tier fuel capacity sst_offset fast_seg_size med_seg_num =
    calc_seg_num_for_meta fuel capacity sst_offset med_seg_num fast_seg_size

-- FastTier: its volume with the sizes that it computes, and what it keeps.
pub record Fast : Type 0 where
  pub vol : Volume
  pub max_value_len : ℕ
  pub seg_num : ℕ
  pub sst_length_on_disk : ℕ
  pub reserved : ReservedFast

-- FastTier::CreateVolume once the number of segments is there.
unfoldable pub make_fast : ℕ → Device → ℕ → ℕ → ℕ → Fast
unfolding calc_ssts_length Volume.make
make_fast seg_size d sst_offset medium_total seg_num =
    let sst_length = calc_ssts_length (u32_add seg_num medium_total) in
    record {
      vol = Volume.make fast_tier_vol_id (u64_add sst_offset sst_length) seg_size seg_num 0;
      max_value_len = max_value_len_of seg_size;
      seg_num = seg_num;
      sst_length_on_disk = sst_length;
      reserved = record {
        segment_size = seg_size;
        dev_path = path_field d.path;
        segment_num = seg_num;
        cur_seg_id = 0;
      };
    }

unfoldable pub create_fast : ℕ → ℕ → Device → ℕ → ℕ → Option (Option Fast)
unfolding calc_seg_num_for_meta make_fast
create_fast fuel seg_size d sst_offset medium_total =
    if is_page_aligned seg_size
    then elim (calc_seg_num_for_fast_tier fuel d.capacity sst_offset seg_size medium_total) [
      | none ↦ none
      | some seg_num ↦ some (some (make_fast seg_size d sst_offset medium_total seg_num))
    ]
    else some none

-- The store of both tiers, on which no volume was picked.
abbrev pub tiers_of : Fast → Medium → MultiTier
tiers_of f m = record {
  fast = f.vol;
  fast_max_value_len = f.max_value_len;
  fast_seg_num = f.seg_num;
  sst_length_on_disk = f.sst_length_on_disk;
  medium = m.vols;
  medium_vol_num = m.reserved.volume_num;
  medium_seg_num = m.seg_total_num;
  pick_vol_id = none;
}

-- What the creation leaves for the superblock.
abbrev pub reserved_of : Fast → Medium → ReservedTiers
reserved_of f m = record {
  fast_size = fast_reserved_size;
  medium_size = medium_reserved_size m.reserved.volume_num;
  fast = f.reserved;
  medium = m.reserved;
}

-- CreateAllComponents with options_.segment_size and options_.secondary_seg_size
unfoldable pub create_all_components :
    ℕ → List Device → ℕ → ℕ → ℕ → Option (Option (MultiTier × ReservedTiers))
unfolding create_medium create_fast
create_all_components fuel [] seg_size secondary_seg_size sst_offset = none
create_all_components fuel (d ∷ l) seg_size secondary_seg_size sst_offset =
    elim (create_medium secondary_seg_size l) [
      | none ↦ some none
      | some m ↦ elim (create_fast fuel seg_size d sst_offset m.seg_total_num) [
        | none ↦ none
        | some o ↦ elim o [
          | none ↦ some none
          | some f ↦ some (some (tiers_of f m, reserved_of f m))
        ]
      ]
    ]

-- FastTier::OpenVolume with the superblock's GetSSTRegionOffset and GetSSTRegionLength; its
-- verifyTopology compares the path.
unfoldable pub open_fast : ReservedFast → ℕ → ℕ → Device → Option Fast
unfolding same_path Volume.make
open_fast r sst_offset sst_length d =
    if same_path r.dev_path r.segment_num r.cur_seg_id d.path
    then some (record {
      vol =
          Volume.make fast_tier_vol_id (u64_add sst_offset sst_length) r.segment_size r.segment_num
            r.cur_seg_id;
      max_value_len = max_value_len_of r.segment_size;
      seg_num = r.segment_num;
      sst_length_on_disk = sst_length;
      reserved = r;
    })
    else none

-- MediumTier::OpenVolume; its verifyTopology compares the number of devices and the paths.
unfoldable pub open_medium : Reserved → List Device → Option Medium
unfolding same_paths open_pure add_segs
open_medium r l =
    if (r.volume_num == length l) && same_paths r.vol_vec l
    then (let vols = open_pure r.segment_size 0 r.vol_vec in
        some (record { vols = vols; seg_total_num = add_segs 0 vols; reserved = r }))
    else none

unfoldable pub open_all_components : ReservedTiers → ℕ → ℕ → List Device → Option (Option MultiTier)
unfolding open_fast open_medium
open_all_components r sst_offset sst_length [] = none
open_all_components r sst_offset sst_length (d ∷ l) =
    elim (open_fast r.fast sst_offset sst_length d) [
      | none ↦ some none
      | some f ↦ elim (open_medium r.medium l) [
        | none ↦ some none
        | some m ↦ some (some (tiers_of f m))
      ]
    ]
