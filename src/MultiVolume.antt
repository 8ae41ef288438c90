-- ===== src/MultiVolume.antt =====
-- DS_MultiVolume_Impl.cc, the data store over the volumes of several devices: its state, the choice
-- of a volume, the writes up to the segment's number and the reads. `volMap_` has the keys from 0
-- on, so it is a list; a number that is not there gives a null pointer, whose use ends the program.
pub mod Rotate
pub mod Serve
pub mod Accept
pub mod Tables
pub mod Reserved
pub mod Create
pub mod Capacity
pub mod Locate
use hlkvds.Prelude.{
  ℕ, zero, suc, ◌+◌, ◌%◌, Bool, true, false, Option, none, some, List, [], ◌∷◌, ◌==◌, ltb,
  if◌then◌else◌, set, get_elem?, u32_add,
}
use hlkvds.Utils.{KvTime}
use hlkvds.Digest.{hash}
use hlkvds.HashEntry.{HashEntry}
use hlkvds.KvSlice.{KvSlice, data_len}
use hlkvds.Memory.{Buffer}
use hlkvds.IndexManager.{DataStor}
use hlkvds.SegmentManager.{SegmentManager, alloc}
use hlkvds.Volume.{Volume, modify_death_entry}
use hlkvds.VolumeIo.{
  Devices, Access, State, read_data, get_key_by_hash_entry, get_value_by_hash_entry, write_one,
  write_batch,
}
use hlkvds.Kvds.{Status, not_supported, aborted}

-- `pickVolId_` is `none` for -1.
pub record MultiVolume : Type 0 where
  pub vols : List Volume
  pub vol_num : ℕ
  pub seg_size : ℕ
  pub max_value_len : ℕ
  pub seg_total_num : ℕ
  pub sst_length_on_disk : ℕ
  pub last_time : ℕ
  pub pick_vol_id : Option ℕ

-- The constructor; `now` is the time of `lastTime_`.
abbrev pub make : ℕ → MultiVolume
make now = record {
  vols = [];
  vol_num = 0;
  seg_size = 0;
  max_value_len = 0;
  seg_total_num = 0;
  sst_length_on_disk = 0;
  last_time = now;
  pick_vol_id = none;
}

-- The number that pickVol goes on to from `pickVolId_`, for pickVol and PickVolForMigrate.
unfoldable pub next_vol : ℕ → Option ℕ → ℕ
next_vol num none = 0
next_vol num (some i) = if i + 1 == num then 0 else i + 1

unfoldable pub pick_vol : MultiVolume → MultiVolume × ℕ
unfolding next_vol
pick_vol s = let i = next_vol s.vol_num s.pick_vol_id in (record s { pick_vol_id = some i }, i)

-- getVolIdFromEntry
abbrev pub vol_id_of : HashEntry → ℕ
vol_id_of e = e.on_disk.address.location

-- calcShardId
unfoldable pub calc_shard_id : ℕ → KvSlice → ℕ
unfolding hash
calc_shard_id shards_num slice = hash slice.digest % shards_num

-- ModifyDeathEntry of the volume that the entry is on.
unfoldable pub modify_death_in : HashEntry → List Volume → List Volume
unfolding modify_death_entry
modify_death_in e vols = elim (get_elem? vols (vol_id_of e)) [
  | none ↦ vols
  | some v ↦ set vols (vol_id_of e) (modify_death_entry e v)
]

abbrev pub data_stor : DataStor MultiVolume
data_stor = record { modify_death_entry = λ e s. record s { vols = modify_death_in e s.vols } }

-- `volMap_[i]` with the calls that change its segment table.
unfoldable pub set_segs_at : ℕ → SegmentManager → List Volume → List Volume
set_segs_at i m vols = elim (get_elem? vols i) [
  | none ↦ vols
  | some v ↦ set vols i (record v { seg_mgr = m })
]

abbrev pub access : ℕ → Access MultiVolume
access i = record {
  volume = λ s. get_elem? s.vols i;
  set_segs = λ m s. record s { vols = set_segs_at i m s.vols };
}

-- The loop on Alloc and ForeGC. `fore_gc i` is ForeGC of volume `i`; `none` stands for a missing
-- volume and for calls that do not return within the fuel.
module _ {S D : Type 0} (access : ℕ → Access S)
    (fore_gc : ℕ → State S D → Option (State S D × Bool)) (fuel : ℕ) where
  unfoldable pub alloc_loop : ℕ → ℕ → State S D → Option (State S D × Option ℕ)
  unfolding alloc
  alloc_loop zero i st = none
  alloc_loop (suc rounds) i st = elim ((access i).volume st.world.1) [
    | none ↦ none
    | some v ↦ elim (alloc fuel v.seg_mgr) [
      | none ↦ none
      | some r ↦
          let taken = record st { world = (st.world.0, (access i).set_segs r.0 st.world.1) } in
          elim r.1 [
            | some seg_id ↦ some (taken, some seg_id)
            | none ↦ elim (fore_gc i taken) [
              | none ↦ none
              | some g ↦ elim g.1 [ true ↦ alloc_loop rounds i g.0 | false ↦ some (g.0, none) ]
            ]
          ]
    ]
  ]

module _ {D : Type 0} (dev : Devices D)
    (fore_gc : ℕ → State MultiVolume D → Option (State MultiVolume D × Bool)) (fuel rounds : ℕ)
    (clock : ℕ → KvTime) (now : ℕ) (buf : Buffer) where
  -- pickVol on the state of an operation.
  abbrev pub pick : State MultiVolume D → State MultiVolume D × ℕ
  pick st = let p = pick_vol st.world.1 in (record st { world = (st.world.0, p.0) }, p.1)

  -- What writeDataImmediately and WriteBatchData do before they fill a segment, and `write` with
  -- the volume and the number.
  unfoldable pub with_segment :
      (ℕ → Volume → ℕ → State MultiVolume D → State MultiVolume D × Status)
      → State MultiVolume D
      → Option (State MultiVolume D × Status)
  unfolding pick_vol alloc_loop
  with_segment write st =
      let (st', i) = pick st in
      elim (alloc_loop access fore_gc fuel rounds i st') [
        | none ↦ none
        | some r ↦ elim r.1 [
          | none ↦ some (r.0, aborted)
          | some seg_id ↦ elim (get_elem? r.0.world.1.vols i) [
            | none ↦ none
            | some v ↦ some (write i v seg_id r.0)
          ]
        ]
      ]

  unfoldable pub write_data_immediately :
      KvSlice → State MultiVolume D → Option (State MultiVolume D × Status)
  unfolding with_segment write_one
  write_data_immediately slice st =
      with_segment (λ i v seg_id. write_one dev data_stor (access i) clock now buf v seg_id slice)
        st

  unfoldable pub write_batch_data :
      List KvSlice → State MultiVolume D → Option (State MultiVolume D × Status)
  unfolding with_segment write_batch
  write_batch_data batch st =
      with_segment (λ i v seg_id. write_batch dev data_stor (access i) clock now buf v seg_id batch)
        st

  -- `aggregate` is writeDataAggregate.
  unfoldable pub write_data :
      (KvSlice → State MultiVolume D → Option (State MultiVolume D × Status))
      → ℕ
      → KvSlice
      → Bool
      → State MultiVolume D
      → Option (State MultiVolume D × Status)
  unfolding write_data_immediately
  write_data aggregate aggregate_request slice immediately st =
      if ltb st.world.1.max_value_len (data_len slice)
      then some (st, not_supported)
      else elim immediately [
        | true ↦ write_data_immediately slice st
        | false ↦
            if aggregate_request == 1 then aggregate slice st else write_data_immediately slice st
      ]

-- ReadData, GetKeyByHashEntry and GetValueByHashEntry on the volume that the entry is on.
module _ {D : Type 0} (dev : Devices D) where
  unfoldable pub read_data_in : List Volume → HashEntry → D → Option (Status × List ℕ)
  unfolding read_data
  read_data_in vols e d = elim (get_elem? vols (vol_id_of e)) [
    | none ↦ none
    | some v ↦ some (read_data dev v e d)
  ]

  unfoldable pub get_key_in : List Volume → HashEntry → D → Option (List ℕ)
  unfolding get_key_by_hash_entry
  get_key_in vols e d = elim (get_elem? vols (vol_id_of e)) [
    | none ↦ none
    | some v ↦ some (get_key_by_hash_entry dev v e d)
  ]

  unfoldable pub get_value_in : List Volume → HashEntry → D → Option (List ℕ)
  unfolding get_value_by_hash_entry
  get_value_in vols e d = elim (get_elem? vols (vol_id_of e)) [
    | none ↦ none
    | some v ↦ some (get_value_by_hash_entry dev v e d)
  ]

-- getTotalFreeSegs
unfoldable pub total_free_segs : List Volume → ℕ
total_free_segs [] = 0
total_free_segs (v ∷ l) = u32_add v.seg_mgr.freed_counter (total_free_segs l)
