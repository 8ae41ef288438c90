-- ===== src/Tests/Stores.antt =====
-- Stores of a few volumes: created, saved and opened, and writers with no segment to give.
use hlkvds.Prelude.{
  ℕ, ◌+◌, ◌*◌, ◌/◌, ◌-◌, ◌<◌, ◌≤◌, ◌≡◌, refl, Bool, true, false, Option, none, some, List, [], ◌∷◌,
  ◌++◌, arith, get_elem?, replicate, map,
}
use hlkvds.Utils.{KvTime}
use hlkvds.Digest.{Digest}
use hlkvds.KvSlice.{KvSlice, no_entry}
use hlkvds.Memory.{Buffer}
use hlkvds.IndexManager.{IndexManager}
use hlkvds.SegmentManager.{SegmentManager, free, used, reserved, alloc, init}
use hlkvds.SegmentManager.Count.{Inv, count}
use hlkvds.Volume.{Volume, log2, halvings}
use hlkvds.Volume
use hlkvds.SegForReq.{notify, Request, SegForReq, new_request}
use hlkvds.SegForReq
use hlkvds.VolumeIo.{State, Devices}
use hlkvds.SegWrite.{Written}
use hlkvds.SuperBlock.{
  SuperBlockManager, blank, get, set_image, set_reserved_content, get_reserved_content,
}
use hlkvds.SuperBlock.Image.{IsWide}
use hlkvds.MultiVolume.{MultiVolume}
use hlkvds.MultiVolume
use hlkvds.MultiVolume.Rotate.{picked_after, pick_vol_fair}
use hlkvds.MultiVolume.Capacity.{
  calc_ssts_length, calc_seg_num_for_meta, calc_seg_num_for_meta_fits,
  calc_seg_num_for_meta_diverges,
}
use hlkvds.MultiVolume.Create.{
  Device, Reserved, create_pure, add_segs, reserve_volumes, create_all_components,
  open_all_components,
}
use hlkvds.MultiVolume.Create.Topology.{open_all_components-create_all_components}
use hlkvds.MultiVolume.Reserved.{
  update_all_vol_sb_res, get_sb_reserved_content, set_sb_reserved_content, no_reserved,
  reserved_round_trip,
}
use hlkvds.MultiVolume.Tables.{
  Tables, get_all_ssts, set_all_ssts, opened, AllReloaded, set_all_ssts-get_all_ssts,
}
use hlkvds.Kvds.{Status, ok}
use hlkvds.Segment.{make, try_put, put}
use hlkvds.MultiVolume.{write_data}
use hlkvds.MultiVolume.Accept.{write_data_overflow}
use hlkvds.MultiVolume.Serve.{seg_write_loop, seg_write, seg_write_stuck}
use hlkvds.Tier.{MultiTier}
use hlkvds.Tier
use hlkvds.Tier.Turns.{IsAnswered, seg_write_answers}
use hlkvds.Tier.Create.{ReservedTiers}
use hlkvds.Tier.Create
use hlkvds.Tier.Reserved.{no_tiers}
use hlkvds.Tier.Reopen.{Reopens, created-Reopens}

abbrev store : MultiVolume
store = record {
  vols = [];
  vol_num = 3;
  seg_size = 8192;
  max_value_len = 8118;
  seg_total_num = 8;
  sst_length_on_disk = 4096;
  last_time = 0;
  pick_vol_id = some 1;
}

pick_vol_fair_example : (n : ℕ) × (n < 3) × (picked_after n store ≡ 1)
pick_vol_fair_example = pick_vol_fair store 1 (omega arith) (omega arith)

calc_seg_num_for_meta_fits_example :
    (n : ℕ) × (calc_seg_num_for_meta 8 40000 8192 4 8192 ≡ some n)
    × (8192 + calc_ssts_length (n + 4) + n * 8192 ≤ 40000)
    × ((m : ℕ)
        → n < m
        → m ≤ (40000 - 8192) / 8192
        → 40000 < 8192 + calc_ssts_length (m + 4) + m * 8192)
unfolding log2 halvings calc_ssts_length
calc_seg_num_for_meta_fits_example =
    calc_seg_num_for_meta_fits 8 40000 8192 4 8192 (omega arith) (omega arith) (omega arith)
      (omega arith) refl (omega arith) (omega arith)

calc_seg_num_for_meta_diverges_example : calc_seg_num_for_meta 100 10000 8192 4 8192 ≡ none
unfolding log2 halvings calc_ssts_length
calc_seg_num_for_meta_diverges_example =
    calc_seg_num_for_meta_diverges 100 10000 8192 4 8192 (omega arith) (omega arith) (omega arith)
      (omega arith) (omega arith) (omega arith)

-- Two devices, the first one with the metadata.
abbrev devices : List Device
devices =
    record { capacity = 40000; path = 47 ∷ 97 ∷ [] }
    ∷ record { capacity = 32768; path = 47 ∷ 98 ∷ [] }
    ∷ []

abbrev nothing : MultiVolume × Reserved × Bool
nothing = (MultiVolume.make 0, no_reserved, false)

abbrev created_of : Option (MultiVolume × Reserved × Bool) → MultiVolume × Reserved × Bool
created_of none = nothing
created_of (some r) = r

abbrev created : MultiVolume × Reserved × Bool
created = created_of (create_all_components 8 devices 8192 8192 (MultiVolume.make 3))

open_all_components-create_all_components_example :
    open_all_components created.1 8192 created.0.sst_length_on_disk devices (MultiVolume.make 9)
    ≡ some (record (created.0) { last_time = 9 }, true)
unfolding create_all_components create_pure add_segs reserve_volumes calc_seg_num_for_meta
    calc_ssts_length Volume.make log2 halvings init
open_all_components-create_all_components_example =
    open_all_components-create_all_components 8 3 9 8192 8192 devices created.0 created.1
      (
        (((λ e. ground (arith, e)), ((λ e. ground (arith, e)), tt)), omega arith),
        ((((λ e. ground (arith, e)), ((λ e. ground (arith, e)), tt)), omega arith), tt),
      )
      refl

abbrev content_of : Option (Reserved × List ℕ) → Reserved × List ℕ
content_of none = (no_reserved, [])
content_of (some r) = r

-- The created volumes, the first one at its segment 1 by now.
abbrev path_of : List ℕ → List ℕ
path_of l = l ++ replicate 253 0

abbrev header : Reserved
header = record {
  segment_size = 8192;
  volume_num = 1;
  vol_vec = record { dev_path = path_of (47 ∷ 97 ∷ 98 ∷ []); segment_num = 3; cur_seg_id = 0 } ∷ [];
}

abbrev one_vol : List Volume
one_vol =
    (record {
      seg_mgr = init 8192 3 1;
      vol_id = 0;
      start_off = 12288;
      seg_size = 8192;
      seg_num = 3;
      seg_size_bit = 13;
    })
    ∷ []

abbrev saved : Reserved × List ℕ
saved = content_of (get_sb_reserved_content one_vol header 4035)

blank-IsWide : IsWide blank.sb
blank-IsWide = record {
  magic = omega arith;
  ht = omega arith;
  index_offset = omega arith;
  index_length = omega arith;
  total = omega arith;
  sst_offset = omega arith;
  sst_length = omega arith;
  ds_type = omega arith;
  count = omega arith;
  theory = omega arith;
}

reserved_round_trip_test :
    (m' : SuperBlockManager) × (set_reserved_content saved.1 4035 blank ≡ some m')
    × ((page : List ℕ) × (get m' 4096 ≡ some page)
        × ((n' : SuperBlockManager) × (set_image page 4096 blank ≡ some n')
            × (n'.sb ≡ blank.sb)
            × ((back : List ℕ) × (get_reserved_content n' 4035 ≡ some back)
                × (set_sb_reserved_content back 4035 no_reserved ≡ some saved.0))))
unfolding get_sb_reserved_content update_all_vol_sb_res init
reserved_round_trip_test =
    reserved_round_trip one_vol header saved.0 saved.1 blank blank refl
      (record { path = refl; num = omega arith; cur = omega arith }, tt) (omega arith) refl
      (omega arith) blank-IsWide

-- A volume with a used, a reserved and a free segment.
abbrev three : SegmentManager
three = record {
  seg_table =
      record { state = used; free_size = 100; death_size = 7 }
      ∷ record { state = reserved; free_size = 0; death_size = 0 }
      ∷ record { state = free; free_size = 0; death_size = 0 }
      ∷ [];
  seg_size = 8192;
  seg_num = 3;
  cur_seg_id = 1;
  used_counter = 1;
  freed_counter = 1;
  reserved_counter = 1;
}

three-Inv : Inv three
unfolding count
three-Inv = record {
  sized = refl;
  word = omega arith;
  cursor = omega arith;
  used_count = refl;
  freed_count = refl;
  reserved_count = refl;
}

abbrev vol_at : ℕ → Volume
vol_at i = record {
  seg_mgr = three;
  vol_id = i;
  start_off = 0;
  seg_size = 8192;
  seg_num = 3;
  seg_size_bit = 13;
}

abbrev two_vols : MultiVolume
two_vols = record store { vols = vol_at 0 ∷ vol_at 1 ∷ []; vol_num = 2 }

abbrev two_opened : MultiVolume
two_opened = record two_vols { vols = map opened two_vols.vols; last_time = 5 }

set_all_ssts-get_all_ssts_example :
    (s' : MultiVolume) × (image : Tables) × (get_all_ssts 11 4096 two_vols ≡ some (s', image))
    × (s' ≡ record two_vols { last_time = 11 })
    × ((t' : MultiVolume) × (set_all_ssts image 4096 two_opened ≡ some t')
        × AllReloaded two_vols.vols t'.vols
        × (t'.last_time ≡ 11))
set_all_ssts-get_all_ssts_example =
    set_all_ssts-get_all_ssts 11 two_vols two_opened
      (record { inv = three-Inv; sized = refl }, (record { inv = three-Inv; sized = refl }, tt))
      refl refl

-- Devices without a state, on which every write succeeds.
abbrev devs : Devices Unit
devs = record { p_read = λ i count offset d. none; p_write = λ i buf count offset d. (d, true) }

abbrev index : IndexManager
index = record {
  hashtable = record { nodes = []; size = 0 } ∷ [];
  ht_size = 1;
  size_ondisk = 4096;
  key_counter = 0;
  data_theory_size = 0;
}

abbrev clock : ℕ → KvTime
clock k = record { tv_sec = 100; tv_usec = k }

abbrev zeros : Buffer
zeros i = 0

abbrev digest : Digest
digest = record { v0 = 1; v1 = 2; v2 = 3; v3 = 4; v4 = 5 }

abbrev slice : KvSlice
slice = record {
  key = 97 ∷ [];
  key_length = 1;
  content = some (1 ∷ []);
  data_length = 1;
  digest = digest;
  entry = no_entry digest;
  entry_gc = no_entry digest;
  seg_id = 0;
}

abbrev request : Request
request = new_request 1 slice 0

-- A segment with one request, on volume 0.
abbrev seg : SegForReq
seg = SegForReq.put (clock 0) (SegForReq.make 0 (vol_at 0) 1000 (clock 0)) request

-- Collecting that frees nothing.
abbrev in_vain : ℕ → State MultiVolume Unit → Option (State MultiVolume Unit × Bool)
in_vain i st = some (st, false)

abbrev full_store : State MultiVolume Unit
full_store = record { world = (index, two_vols); disk = tt }

seg_write_stuck_example :
    let n = notify (clock 9) false seg in
    (seg_write_loop devs in_vain 4 clock 7 zeros (clock 9) 50 0 seg [] full_store
      ≡ some (full_store, n.0, n.1, none))
    × (seg_write devs in_vain 4 clock 7 zeros (clock 9) 50 seg full_store ≡ none)
unfolding SegForReq.put SegForReq.make alloc
seg_write_stuck_example =
    seg_write_stuck devs in_vain 4 clock 7 zeros (clock 9) 49 seg full_store
      (record { vol = vol_at 0; there = refl; full = refl; vain = refl })

-- A value of 8118 bytes, which is the greatest length for 8192, with a key of 30 bytes.
abbrev long : KvSlice
long = record slice {
  key = replicate 30 97;
  key_length = 30;
  content = some (replicate 8118 7);
  data_length = 8118;
}

abbrev taken : KvSlice → State MultiVolume Unit → Option (State MultiVolume Unit × Status)
taken s st = some (st, ok)

write_data_overflow_example :
    (write_data devs in_vain 4 50 clock 7 zeros taken 1 long false full_store
      ≡ some (full_store, ok))
    × (try_put (make (vol_at 0)) long ≡ false)
    × ((put (make (vol_at 0)) long).tail_pos < (put (make (vol_at 0)) long).head_pos)
write_data_overflow_example =
    write_data_overflow devs in_vain 4 50 clock 7 zeros taken long (vol_at 0) full_store refl refl
      (omega arith) (omega arith) (omega arith) (omega arith) (omega arith)

abbrev tiers : MultiTier
tiers = record {
  fast = vol_at 100;
  fast_max_value_len = 8118;
  fast_seg_num = 3;
  sst_length_on_disk = 4096;
  medium = vol_at 0 ∷ vol_at 1 ∷ [];
  medium_vol_num = 2;
  medium_seg_num = 6;
  pick_vol_id = none;
}

-- Migrations that do nothing.
seg_write_answers_test :
    (w : Written MultiTier Unit) × (Tier.seg_write devs
        (λ i st. st)
        4
        clock
        7
        zeros
        (clock 9)
        seg
        (record { world = (index, tiers); disk = tt })
      ≡ some w)
    × ((n : ℕ) (r : Request) → get_elem? seg.req_list n ≡ some r → IsAnswered n r w.woken)
seg_write_answers_test =
    seg_write_answers devs (λ i st. st) 4 clock 7 zeros (clock 9) seg
      (record { world = (index, tiers); disk = tt }) (λ i st h. h) (three-Inv, omega arith)

abbrev tiers_created_of : Option (Option (MultiTier × ReservedTiers)) → MultiTier × ReservedTiers
tiers_created_of (some (some c)) = c
tiers_created_of _ = (tiers, no_tiers)

abbrev tiers_created : MultiTier × ReservedTiers
tiers_created = tiers_created_of (Tier.Create.create_all_components 8 devices 8192 16384 8192)

created-Reopens_example : Reopens 8192 devices blank blank tiers_created
unfolding Tier.Create.create_all_components create_pure add_segs reserve_volumes
    calc_seg_num_for_meta calc_ssts_length Volume.make log2 halvings init
created-Reopens_example =
    created-Reopens 8 8192 16384 8192 devices tiers_created blank blank refl (omega arith)
      (omega arith)
      (
        (((λ e. ground (arith, e)), ((λ e. ground (arith, e)), tt)), omega arith),
        ((((λ e. ground (arith, e)), ((λ e. ground (arith, e)), tt)), omega arith), tt),
      )
      (omega arith) blank-IsWide
