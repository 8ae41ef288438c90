-- ===== src/Tier.antt =====
-- Tier.cc and DS_MultiTier_Impl.cc: a fast volume in front of the volumes of the medium tier. Writes
-- go to the fast tier, whose segments a migration empties; a read goes to the tier that the entry's
-- location names.
pub mod Turns
pub mod Create
pub mod Reserved
pub mod Reopen
use hlkvds.Prelude.{
  ℕ, zero, suc, ◌+◌, Bool, true, false, Option, none, some, List, [], ◌∷◌, ◌==◌, ltb, if◌then◌else◌,
  get_elem?, u32_add,
}
use hlkvds.Utils.{KvTime}
use hlkvds.HashEntry.{HashEntry}
use hlkvds.KvSlice.{KvSlice, data_len}
use hlkvds.Memory.{Buffer}
use hlkvds.IndexManager.{DataStor}
use hlkvds.SegmentManager.{SegmentManager, SegmentStat, alloc, get}
use hlkvds.Volume.{Volume, modify_death_entry}
use hlkvds.VolumeIo.{
  Devices, Access, State, read_data, get_key_by_hash_entry, get_value_by_hash_entry, write_one,
  write_batch,
}
use hlkvds.SegForReq.{Request, SegForReq, notify}
use hlkvds.SegWrite.{Written, write_seg}
use hlkvds.Kvds.{Status, not_supported, aborted}
use hlkvds.MultiVolume.{
  vol_id_of, modify_death_in, set_segs_at, next_vol, read_data_in, get_key_in, get_value_in,
  total_free_segs,
}
use hlkvds.MultiVolume.Tables.{get_tables, set_tables}

-- FastTier's `vol_` and MediumTier's `volMap_`, whose keys are 0 and up; `pickVolId_` is `none` for
-- -1.
pub record MultiTier : Type 0 where
  pub fast : Volume
  pub fast_max_value_len : ℕ
  pub fast_seg_num : ℕ
  pub sst_length_on_disk : ℕ
  pub medium : List Volume
  pub medium_vol_num : ℕ
  pub medium_seg_num : ℕ
  pub pick_vol_id : Option ℕ

-- FastTierVolId of Tier.h
abbrev pub fast_tier_vol_id : ℕ
fast_tier_vol_id = 100

-- DS_MultiTier_Impl::TierType
pub data TierType : Type 0 where
  fast_tier medium_tier : TierType

unfoldable pub locate_tier_from_entry : HashEntry → TierType
locate_tier_from_entry e = if vol_id_of e == fast_tier_vol_id then fast_tier else medium_tier

-- ModifyDeathEntry
abbrev pub data_stor : DataStor MultiTier
data_stor = record {
  modify_death_entry = λ e s. elim (locate_tier_from_entry e) [
    | fast_tier ↦ record s { fast = modify_death_entry e s.fast }
    | medium_tier ↦ record s { medium = modify_death_in e s.medium }
  ];
}

-- The fast tier's volume as the writes use it.
abbrev pub fast_access : Access MultiTier
fast_access = record {
  volume = λ s. some s.fast;
  set_segs = λ m s. let v = s.fast in record s { fast = record v { seg_mgr = m } };
}

-- PickVolForMigrate
unfoldable pub pick_vol_for_migrate : MultiTier → MultiTier × ℕ
unfolding next_vol
pick_vol_for_migrate s =
    let i = next_vol s.medium_vol_num s.pick_vol_id in (record s { pick_vol_id = some i }, i)

-- Reads: DS_MultiTier_Impl finds the tier, MediumTier the volume. `none` is a null pointer.
module _ {D : Type 0} (dev : Devices D) where
  unfoldable pub read_data_tiered : MultiTier → HashEntry → D → Option (Status × List ℕ)
  unfolding locate_tier_from_entry read_data read_data_in
  read_data_tiered s e d = elim (locate_tier_from_entry e) [
    | fast_tier ↦ some (read_data dev s.fast e d)
    | medium_tier ↦ read_data_in dev s.medium e d
  ]

  unfoldable pub get_key_tiered : MultiTier → HashEntry → D → Option (List ℕ)
  unfolding locate_tier_from_entry get_key_by_hash_entry get_key_in
  get_key_tiered s e d = elim (locate_tier_from_entry e) [
    | fast_tier ↦ some (get_key_by_hash_entry dev s.fast e d)
    | medium_tier ↦ get_key_in dev s.medium e d
  ]

  unfoldable pub get_value_tiered : MultiTier → HashEntry → D → Option (List ℕ)
  unfolding locate_tier_from_entry get_value_by_hash_entry get_value_in
  get_value_tiered s e d = elim (locate_tier_from_entry e) [
    | fast_tier ↦ some (get_value_by_hash_entry dev s.fast e d)
    | medium_tier ↦ get_value_in dev s.medium e d
  ]

-- Writes of the fast tier. `fore_migrate i` is Migrate::ForeMigrate to medium volume `i`, whose count
-- is only printed.
module _ {D : Type 0} (dev : Devices D) (fore_migrate : ℕ → State MultiTier D → State MultiTier D)
    (fuel : ℕ) where
  -- One Alloc of the fast volume.
  unfoldable pub alloc_fast : State MultiTier D → Option (State MultiTier D × Option ℕ)
  unfolding alloc
  alloc_fast st = elim (alloc fuel st.world.1.fast.seg_mgr) [
    | none ↦ none
    | some r ↦ some (record st { world = (st.world.0, fast_access.set_segs r.0 st.world.1) }, r.1)
  ]

  -- The migration to the next medium volume.
  unfoldable pub migrate_next : State MultiTier D → State MultiTier D
  unfolding pick_vol_for_migrate
  migrate_next st =
      let p = pick_vol_for_migrate st.world.1 in
      fore_migrate p.1 (record st { world = (st.world.0, p.0) })

  -- The loop of allocSegment with `mt_vol_num`: `none` is an Alloc that does not return.
  unfoldable pub alloc_from : ℕ → State MultiTier D → Option (State MultiTier D × Option ℕ)
  unfolding alloc_fast migrate_next
  alloc_from zero st = alloc_fast st
  alloc_from (suc left) st = elim (alloc_fast st) [
    | none ↦ none
    | some r ↦ elim r.1 [
      | some seg_id ↦ some (r.0, some seg_id)
      | none ↦ alloc_from left (migrate_next r.0)
    ]
  ]

  unfoldable pub alloc_segment : State MultiTier D → Option (State MultiTier D × Option ℕ)
  unfolding alloc_from
  alloc_segment st = alloc_from st.world.1.medium_vol_num st

  module _ (clock : ℕ → KvTime) (now : ℕ) (buf : Buffer) where
    unfoldable pub write_data_immediately :
        KvSlice → State MultiTier D → Option (State MultiTier D × Status)
    unfolding alloc_segment write_one
    write_data_immediately slice st = elim (alloc_segment st) [
      | none ↦ none
      | some r ↦ elim r.1 [
        | none ↦ some (r.0, aborted)
        | some seg_id ↦
            some
              (write_one dev data_stor fast_access clock now buf r.0.world.1.fast seg_id slice r.0)
      ]
    ]

    unfoldable pub write_batch_data :
        List KvSlice → State MultiTier D → Option (State MultiTier D × Status)
    unfolding alloc_segment write_batch
    write_batch_data batch st = elim (alloc_segment st) [
      | none ↦ none
      | some r ↦ elim r.1 [
        | none ↦ some (r.0, aborted)
        | some seg_id ↦
            some (
              write_batch dev data_stor fast_access clock now buf r.0.world.1.fast seg_id batch r.0)
      ]
    ]

    -- `aggregate` is writeDataAggregate.
    unfoldable pub write_data :
        (KvSlice → State MultiTier D → Option (State MultiTier D × Status))
        → ℕ
        → KvSlice
        → Bool
        → State MultiTier D
        → Option (State MultiTier D × Status)
    unfolding write_data_immediately
    write_data aggregate aggregate_request slice immediately st =
        if ltb st.world.1.fast_max_value_len (data_len slice)
        then some (st, not_supported)
        else elim immediately [
          | true ↦ write_data_immediately slice st
          | false ↦
              if aggregate_request == 1 then aggregate slice st else write_data_immediately slice st
        ]

    -- SegWrite: without a segment the requests are told so, and it returns.
    unfoldable pub seg_write : KvTime → SegForReq → State MultiTier D → Option (Written MultiTier D)
    unfolding alloc_segment notify write_seg
    seg_write notify_now seg st = elim (alloc_segment st) [
      | none ↦ none
      | some r ↦ elim r.1 [
        | none ↦
            let n = notify notify_now false seg in
            some (record { state = r.0; seg = n.0; woken = n.1 })
        | some seg_id ↦
            some (write_seg dev data_stor fast_access clock now buf notify_now seg_id seg r.0)
      ]
    ]

-- GetSST and SetSST of both tiers, as DS_MultiTier_Impl puts them behind the time.
unfoldable pub get_ssts : MultiTier → Option (List SegmentStat)
unfolding get_tables
get_ssts s = get_tables (s.fast ∷ s.medium)

unfoldable pub set_ssts : List SegmentStat → MultiTier → Option MultiTier
unfolding set_tables
set_ssts stats s = elim (set_tables (s.fast ∷ s.medium) stats) [
  | none ↦ none
  | some vols ↦ elim vols [ [] ↦ none | ◌∷◌ v l ↦ some (record s { fast = v; medium = l }) ]
]

-- GetTotalSegNum and getTotalFreeSegs
abbrev pub total_seg_num : MultiTier → ℕ
total_seg_num s = u32_add s.fast_seg_num s.medium_seg_num

unfoldable pub total_free : MultiTier → ℕ
unfolding total_free_segs
total_free s = u32_add s.fast.seg_mgr.freed_counter (total_free_segs s.medium)

-- MediumTier::ManualGC does not move on from the first volume: `none` for every fuel if there is one.
unfoldable pub manual_gc : (Volume → Volume) → ℕ → List Volume → Option (List Volume)
manual_gc full_gc fuel [] = some []
manual_gc full_gc zero (v ∷ l) = none
manual_gc full_gc (suc fuel) (v ∷ l) = manual_gc full_gc fuel (full_gc v ∷ l)
