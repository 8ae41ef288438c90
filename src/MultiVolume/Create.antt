-- ===== src/MultiVolume/Create.antt =====
-- CreateAllComponents and OpenAllComponents of DS_MultiVolume_Impl.cc: the volumes laid out on the
-- devices, what the superblock's reserved region says of them, and the check of the devices against
-- it. A device is its capacity and its path. `none` stands for a store with no device, whose first
-- device is read all the same, and for a loop that does not end within the fuel.
pub mod Topology
use hlkvds.Prelude.{
  ℕ, zero, suc, ◌+◌, ◌-◌, ◌*◌, ◌/◌, Bool, true, false, Option, none, some, List, [], ◌∷◌, ◌++◌,
  ◌==◌, ◌&&◌, not, if◌then◌else◌, length, replicate, take, u32_mod, u32_add, u32_sub, u64_add,
}
use hlkvds.Memory.{le4}
use hlkvds.HashEntry.{size_of_hash_entry_on_disk}
use hlkvds.SegmentManager.{size_of_seg_on_disk}
use hlkvds.Volume.{Volume}
use hlkvds.Volume
use hlkvds.MultiVolume.{MultiVolume}
use hlkvds.MultiVolume.Capacity.{calc_ssts_length, calc_seg_num_for_pure, calc_seg_num_for_meta}

pub record Device : Type 0 where
  pub capacity : ℕ
  pub path : List ℕ

-- MultiVolumeDS_SB_Reserved_Volume, its path with all its 256 bytes
pub record ReservedVolume : Type 0 where
  pub dev_path : List ℕ
  pub segment_num : ℕ
  pub cur_seg_id : ℕ

-- MultiVolumeDS_SB_Reserved_Header, with `sbResVolVec_`
pub record Reserved : Type 0 where
  pub segment_size : ℕ
  pub volume_num : ℕ
  pub vol_vec : List ReservedVolume

-- DevPathLenLimt of DataStor.h
abbrev pub dev_path_len_limit : ℕ
dev_path_len_limit = 256

abbrev pub is_page_aligned : ℕ → Bool
is_page_aligned seg_size = seg_size / 4096 * 4096 == seg_size

abbrev pub max_value_len_of : ℕ → ℕ
max_value_len_of seg_size =
    u32_sub (u32_sub seg_size size_of_seg_on_disk) size_of_hash_entry_on_disk

-- The pure volumes, from number `i` on, and the sum of their segments.
unfoldable pub create_pure : ℕ → ℕ → List Device → List Volume
unfolding Volume.make calc_seg_num_for_pure
create_pure seg_size i [] = []
create_pure seg_size i (d ∷ l) =
    Volume.make i 0 seg_size (calc_seg_num_for_pure d.capacity seg_size) 0
    ∷ create_pure seg_size (suc i) l

unfoldable pub add_segs : ℕ → List Volume → ℕ
add_segs total [] = total
add_segs total (v ∷ l) = add_segs (u32_add total v.seg_num) l

-- The zeroed field after the path was copied into it. A longer path is copied over the numbers behind
-- the field, which are set afterwards, and from 265 bytes on over what is behind the item, which the
-- model does not have.
abbrev pub path_field : List ℕ → List ℕ
path_field path = take dev_path_len_limit (path ++ replicate dev_path_len_limit 0)

-- initSBReservedContentForCreate for the volumes next to their devices.
unfoldable pub reserve_volumes : List Device → List Volume → List ReservedVolume
reserve_volumes (d ∷ l) (v ∷ vols) =
    (record {
      dev_path = path_field d.path;
      segment_num = v.seg_num;
      cur_seg_id = v.seg_mgr.cur_seg_id;
    })
    ∷ reserve_volumes l vols
reserve_volumes _ _ = []

-- CreateAllComponents on a fresh store, with options_.segment_size.
unfoldable pub create_all_components :
    ℕ → List Device → ℕ → ℕ → MultiVolume → Option (MultiVolume × Reserved × Bool)
unfolding create_pure add_segs calc_seg_num_for_meta calc_ssts_length Volume.make reserve_volumes
create_all_components fuel [] segment_size sst_offset s = none
create_all_components fuel (d ∷ l) segment_size sst_offset s =
    if not (is_page_aligned segment_size)
    then some (
      record s { seg_size = segment_size },
      record { segment_size = 0; volume_num = 0; vol_vec = [] },
      false,
    )
    else (let pure = create_pure segment_size 1 l in
        let buddy = add_segs s.seg_total_num pure in
        elim (calc_seg_num_for_meta fuel d.capacity sst_offset buddy segment_size) [
          | none ↦ none
          | some seg_num ↦
              let total = u32_add buddy seg_num in
              let sst_length = calc_ssts_length total in
              let meta = Volume.make 0 (u64_add sst_offset sst_length) segment_size seg_num 0 in
              let num = length (d ∷ l) in
              some (
                record s {
                  vols = meta ∷ pure;
                  vol_num = num;
                  seg_size = segment_size;
                  max_value_len = max_value_len_of segment_size;
                  seg_total_num = total;
                  sst_length_on_disk = sst_length;
                },
                record {
                  segment_size = segment_size;
                  volume_num = num;
                  vol_vec = reserve_volumes (d ∷ l) (meta ∷ pure);
                },
                true,
              )
        ])

-- `string(dev_path)` ends before the first zero from there on; `none` where the bytes have none.
unfoldable pub c_string : List ℕ → Option (List ℕ)
c_string [] = none
c_string (x ∷ l) =
    let rest = c_string l in
    if x == 0 then some [] else elim rest [ none ↦ none | some k ↦ some (x ∷ k) ]

unfoldable pub same_string : List ℕ → List ℕ → Bool
same_string [] [] = true
same_string (x ∷ l) (y ∷ k) = x == y && same_string l k
same_string _ _ = false

-- `record_path != device_path`, the record's path read from `dev_path` on, over the two numbers
-- behind the field where the field has no zero. Where these have none either, the source reads on
-- behind the item, which the model takes for a path that is not the device's.
unfoldable pub same_path : List ℕ → ℕ → ℕ → List ℕ → Bool
unfolding c_string same_string
same_path dev_path segment_num cur_seg_id path =
    elim (c_string (dev_path ++ (le4 segment_num ++ le4 cur_seg_id))) [
      | none ↦ false
      | some p ↦ same_string p path
    ]

unfoldable pub same_paths : List ReservedVolume → List Device → Bool
unfolding same_path
same_paths (r ∷ rs) (d ∷ l) =
    same_path r.dev_path r.segment_num r.cur_seg_id d.path && same_paths rs l
same_paths [] [] = true
same_paths _ _ = false

-- verifyTopology
unfoldable pub verify_topology : ℕ → List ReservedVolume → List Device → Bool
unfolding same_paths
verify_topology vol_num rs l = vol_num == length l && same_paths rs l

unfoldable pub open_pure : ℕ → ℕ → List ReservedVolume → List Volume
unfolding Volume.make
open_pure seg_size i [] = []
open_pure seg_size i (r ∷ rs) =
    Volume.make i 0 seg_size r.segment_num r.cur_seg_id ∷ open_pure seg_size (suc i) rs

-- OpenAllComponents on a fresh store, with the superblock's GetSSTRegionOffset and
-- GetSSTRegionLength. `sbResVolVec_` has `volume_num` entries.
unfoldable pub open_all_components :
    Reserved → ℕ → ℕ → List Device → MultiVolume → Option (MultiVolume × Bool)
unfolding verify_topology open_pure add_segs Volume.make
open_all_components r sst_offset sst_length l s = elim r.vol_vec [
  | [] ↦ none
  | ◌∷◌ first rest ↦
      let sized = record s {
        vol_num = r.volume_num;
        seg_size = r.segment_size;
        max_value_len = max_value_len_of r.segment_size;
        sst_length_on_disk = sst_length;
      } in
      if verify_topology r.volume_num (first ∷ rest) l
      then (let meta =
            Volume.make 0 (u64_add sst_offset sst_length) r.segment_size first.segment_num
              first.cur_seg_id in
          let pure = open_pure r.segment_size 1 rest in
          some (
            record sized {
              vols = meta ∷ pure;
              seg_total_num = add_segs (u32_add s.seg_total_num first.segment_num) pure;
            },
            true,
          ))
      else some (sized, false)
]
