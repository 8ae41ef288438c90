-- ===== src/Tests/Meta.antt =====
-- A database with one key, closed and opened again.
use hlkvds.Prelude.{
  ℕ, zero, suc, ◌≡◌, refl, Bool, false, Option, none, some, List, [], ◌∷◌, arith, replicate, ap,
}
use hlkvds.Digest.{Digest}
use hlkvds.HashEntry
use hlkvds.HashEntry.{HashEntry}
use hlkvds.Memory.{bytes_at-Agree}
use hlkvds.LinkedList.{LinkedList, empty, search_in}
use hlkvds.LinkedList.Laws.{IsChain}
use hlkvds.IndexManager.{IndexManager, slot}
use hlkvds.IndexManager.Table.{Inv, total}
use hlkvds.IndexManager.Image.{calc_index_size_on_device}
use hlkvds.SegmentManager.{SegmentManager, free, used, reserved, init}
use hlkvds.SegmentManager.Count
use hlkvds.SegmentManager.Count.{count}
use hlkvds.Volume.{Volume, log2, halvings}
use hlkvds.Volume
use hlkvds.VolumeIo.Device.{KeepsApart}
use hlkvds.SuperBlock.{blank}
use hlkvds.MultiVolume.{MultiVolume}
use hlkvds.MultiVolume
use hlkvds.MultiVolume.Create.{Device, open_all_components, open_pure, add_segs}
use hlkvds.MultiVolume.Reserved.{no_reserved, update_all_vol_sb_res}
use hlkvds.MetaStor.{
  MetaStor, stats_num, try_load_sb, load_meta_data, persist_meta_data, write_region,
}
use hlkvds.MetaStor.Kept.{IsKept, stored}
use hlkvds.MetaStor.Reload.{OpensAs, IsLoaded, persist_meta_data-IsLoaded}
use hlkvds.Tests.Volumes.{Disk, overwrite, memory, memory-IsDisk}

memory-KeepsApart : KeepsApart memory
memory-KeepsApart = record {
  read_apart = λ i buf count offset k o d apart.
      ap (λ (l : List ℕ). some l)
        (bytes_at-Agree (overwrite i buf count offset d i) (d i) o k
          (λ a lo hi. ground (arith, apart)));
}

abbrev digest : Digest
digest = record { v0 = 1; v1 = 2; v2 = 3; v3 = 4; v4 = 5 }

abbrev entry : HashEntry
entry = record {
  on_disk = record {
    header = record {
      key_digest = digest;
      key_size = 2;
      data_size = 3;
      data_offset = 66;
      next_header_offset = 69;
    };
    address = record { location = 0; offset = 0 };
  };
  stamp = record { seg_time = record { tv_sec = 5; tv_usec = 6 }; key_no = 1 };
}

abbrev chain : LinkedList HashEntry
chain = record { nodes = entry ∷ []; size = 1 }

abbrev index : IndexManager
index = record {
  hashtable = chain ∷ record { nodes = []; size = 0 } ∷ [];
  ht_size = 2;
  size_ondisk = 4096;
  key_counter = 1;
  data_theory_size = 37;
}

empty-IsChain : IsChain HashEntry.eq (record { nodes = []; size = 0 })
empty-IsChain = record { sized = refl; distinct = tt }

chain-IsChain : IsChain HashEntry.eq chain
unfolding search_in
chain-IsChain = record { sized = refl; distinct = (refl, tt) }

index-chains : (i : ℕ) → IsChain HashEntry.eq (slot index i)
unfolding empty
index-chains zero = chain-IsChain
index-chains (suc zero) = empty-IsChain
index-chains (suc (suc i)) = empty-IsChain

index-Inv : Inv index
unfolding total
index-Inv = record {
  table = record { sized = refl; positive = omega arith };
  word = omega arith;
  chains = index-chains;
  counted = refl;
  bounded = omega arith;
}

-- A used, a reserved and a free segment behind the metadata.
abbrev segs : SegmentManager
segs = record {
  seg_table =
      record { state = used; free_size = 100; death_size = 7 }
      ∷ record { state = reserved; free_size = 0; death_size = 0 }
      ∷ record { state = free; free_size = 0; death_size = 0 }
      ∷ [];
  seg_size = 8192;
  seg_num = 3;
  cur_seg_id = 1;
  used_counter = 1;
  freed_counter = 1;
  reserved_counter = 1;
}

segs-Inv : Count.Inv segs
unfolding count
segs-Inv = record {
  sized = refl;
  word = omega arith;
  cursor = omega arith;
  used_count = refl;
  freed_count = refl;
  reserved_count = refl;
}

abbrev store : MultiVolume
store = record {
  vols =
      (record {
        seg_mgr = segs;
        vol_id = 0;
        start_off = 12288;
        seg_size = 8192;
        seg_num = 3;
        seg_size_bit = 13;
      })
      ∷ [];
  vol_num = 1;
  seg_size = 8192;
  max_value_len = 8118;
  seg_total_num = 3;
  sst_length_on_disk = 4096;
  last_time = 3;
  pick_vol_id = some 0;
}

abbrev devices : List Device
devices = record { capacity = 40000; path = 47 ∷ 97 ∷ [] } ∷ []

abbrev open_now : MetaStor
open_now = record {
  sb_mgr = record {
    sb = record {
      magic_number = 4294901761;
      index_ht_size = 2;
      index_region_offset = 4096;
      index_region_length = 4096;
      sst_total_num = 3;
      sst_region_offset = 8192;
      sst_region_length = 4096;
      data_store_type = 0;
      entry_count = 0;
      entry_theory_data_size = 0;
      grace_close_flag = false;
    };
    res_cont = replicate 4035 0;
  };
  index = index;
  store = store;
  reserved = record {
    segment_size = 8192;
    volume_num = 1;
    vol_vec = record { dev_path = 47 ∷ 97 ∷ replicate 254 0; segment_num = 3; cur_seg_id = 0 } ∷ [];
  };
  sb_off = 0;
  idx_off = 4096;
  sst_off = 8192;
}

open_now-IsKept : IsKept open_now
unfolding calc_index_size_on_device stats_num update_all_vol_sb_res
open_now-IsKept = record {
  inv = index-Inv;
  ht_size = refl;
  small = omega arith;
  index_length = refl;
  index_room = refl;
  sst_length = refl;
  sst_room = omega arith;
  sb_at = refl;
  idx_at = refl;
  sst_at = refl;
  wide = record {
    magic = omega arith;
    ht = omega arith;
    index_offset = omega arith;
    index_length = omega arith;
    total = omega arith;
    sst_offset = omega arith;
    sst_length = omega arith;
    ds_type = omega arith;
    count = omega arith;
    theory = omega arith;
  };
  entries = (
    record {
      header = record {
        w0 = omega arith;
        w1 = omega arith;
        w2 = omega arith;
        w3 = omega arith;
        w4 = omega arith;
        key_word = omega arith;
        data_word = omega arith;
        offset_word = omega arith;
        next_word = omega arith;
      };
      location = omega arith;
      offset = omega arith;
    },
    tt,
  );
  sound = (record { inv = segs-Inv; sized = refl }, tt);
  stats = (
    (
      record { free_word = omega arith; death_word = omega arith },
      (
        record { free_word = omega arith; death_word = omega arith },
        (record { free_word = omega arith; death_word = omega arith }, tt),
      ),
    ),
    tt,
  );
  items = (record { path = refl; num = omega arith; cur = omega arith }, tt);
  seg_size = omega arith;
  num = refl;
  few = omega arith;
}

abbrev fresh : MetaStor
fresh = record {
  sb_mgr = blank;
  index = record {
    hashtable = [];
    ht_size = 0;
    size_ondisk = 0;
    key_counter = 0;
    data_theory_size = 0;
  };
  store = MultiVolume.make 9;
  reserved = no_reserved;
  sb_off = 0;
  idx_off = 0;
  sst_off = 0;
}

abbrev opening_of : Option (MultiVolume × Bool) → MultiVolume
opening_of none = store
opening_of (some r) = r.0

abbrev opening : MultiVolume
opening = opening_of (open_all_components (stored open_now) 8192 4096 devices fresh.store)

open_now-OpensAs : OpensAs open_now devices fresh.store opening
unfolding open_all_components open_pure add_segs Volume.make log2 halvings init
    update_all_vol_sb_res
open_now-OpensAs = record { opens = refl; vols = refl; length_kept = refl }

abbrev start : MetaStor × Disk
start = (open_now, λ i a. 0)

abbrev closed_of : Option (MetaStor × Disk) → MetaStor × Disk
closed_of none = start
closed_of (some r) = r

abbrev closed : MetaStor × Disk
closed = closed_of (persist_meta_data memory 100 101 start)

persist_meta_data-IsLoaded_example :
    (loaded : MetaStor) × (back : MetaStor) × (try_load_sb memory closed.1 fresh ≡ some (loaded, 0))
    × (load_meta_data memory devices closed.1 loaded ≡ some back)
    × IsLoaded 100 101 open_now back
unfolding persist_meta_data write_region
persist_meta_data-IsLoaded_example =
    persist_meta_data-IsLoaded memory devices 100 101 open_now fresh opening start.1 closed
      open_now-IsKept memory-IsDisk memory-KeepsApart (omega arith) (omega arith) refl
      open_now-OpensAs refl
