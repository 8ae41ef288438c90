-- ===== src/MetaStor.antt =====
-- MetaStor.cc with the store over several volumes: the superblock, the index and the segment tables,
-- each in its region of the first device, written when the database is closed and read when it is
-- opened. `none` stands for the result false, and for what it stands for in the data store. The
-- memory that a call allocates is there.
pub mod Bytes
pub mod Regions
pub mod Disk
pub mod Stats
pub mod Steps
pub mod Kept
pub mod Reload
use hlkvds.Prelude.{
  ℕ, ◌+◌, ◌*◌, Bool, true, false, Option, none, some, List, [], ◌∷◌, get_or, if◌then◌else◌,
  replicate,
}
use hlkvds.Memory.{Buffer}
use hlkvds.Utils.{KvTime}
use hlkvds.IndexManager.{IndexManager, init_meta}
use hlkvds.IndexManager.Image
use hlkvds.IndexManager.Image.{seconds}
use hlkvds.Volume.{Volume}
use hlkvds.VolumeIo.{Devices}
use hlkvds.SuperBlock.{
  SuperBlockManager, super_block_size_on_device, set_entry_count, set_data_theory_size,
  set_reserved_content, get_reserved_content,
}
use hlkvds.SuperBlock
use hlkvds.MultiVolume.{MultiVolume}
use hlkvds.MultiVolume.Create.{Device, Reserved, open_all_components}
use hlkvds.MultiVolume.Reserved.{get_sb_reserved_content, set_sb_reserved_content}
use hlkvds.MultiVolume.Tables.{get_all_ssts, set_all_ssts}
use hlkvds.MetaStor.Bytes.{encode_image, decode_image, encode_tables, decode_tables}

-- What a MetaStor works on, with the offsets of the regions.
pub record MetaStor : Type 0 where
  pub sb_mgr : SuperBlockManager
  pub index : IndexManager
  pub store : MultiVolume
  pub reserved : Reserved
  pub sb_off : ℕ
  pub idx_off : ℕ
  pub sst_off : ℕ

abbrev pub buffer_of : List ℕ → Buffer
buffer_of bytes i = get_or bytes i 0

-- The stats that SetAllSSTs reads, those of all segments.
unfoldable pub stats_num : List Volume → ℕ
stats_num [] = 0
stats_num (v ∷ l) = v.seg_num + stats_num l

-- The end of PersistSSTsToDevice: the reserved content goes into the superblock.
unfoldable pub keep_reserved : MetaStor → Option MetaStor
unfolding get_sb_reserved_content set_reserved_content
keep_reserved m = elim (get_sb_reserved_content m.store.vols m.reserved 4035) [
  | none ↦ none
  | some g ↦ elim (set_reserved_content g.1 4035 m.sb_mgr) [
    | none ↦ none
    | some sb ↦ some (record m { sb_mgr = sb; reserved = g.0 })
  ]
]

module _ {D : Type 0} (dev : Devices D) where
  -- `metaDev_` is the first device.
  unfoldable pub read_region : ℕ → ℕ → D → Option (List ℕ)
  read_region length offset d = dev.p_read 0 length offset d

  unfoldable pub write_region : List ℕ → ℕ → ℕ → D → Option D
  write_region bytes length offset d =
      let w = dev.p_write 0 (buffer_of bytes) length offset d in if w.1 then some w.0 else none

  unfoldable pub load_super_block : D → MetaStor → Option MetaStor
  unfolding read_region SuperBlock.set_image
  load_super_block d m = elim (read_region super_block_size_on_device m.sb_off d) [
    | none ↦ none
    | some page ↦ elim (SuperBlock.set_image page super_block_size_on_device m.sb_mgr) [
      | none ↦ none
      | some sb ↦ some (record m { sb_mgr = sb })
    ]
  ]

  -- TryLoadSB, with the type of the data store.
  unfoldable pub try_load_sb : D → MetaStor → Option (MetaStor × ℕ)
  unfolding load_super_block
  try_load_sb d m = elim (load_super_block d (record m { sb_off = 0 })) [
    | none ↦ none
    | some m' ↦ some (m', m'.sb_mgr.sb.data_store_type)
  ]

  unfoldable pub load_index : D → ℕ → ℕ → MetaStor → Option MetaStor
  unfolding read_region decode_image Image.set_image init_meta
  load_index d ht_size index_size m =
      let s = m.sb_mgr.sb in
      let fresh = init_meta ht_size index_size s.entry_theory_data_size s.entry_count in
      elim (read_region index_size m.idx_off d) [
        | none ↦ none
        | some bytes ↦
            let r = Image.set_image fresh (decode_image ht_size bytes) index_size in
            if r.1 then some (record m { index = r.0 }) else none
      ]

  -- The end of loadDataStor: the tables of a store that was opened.
  unfoldable pub load_ssts : D → MetaStor → Option MetaStor
  unfolding read_region decode_tables set_all_ssts stats_num
  load_ssts d m =
      let length = m.store.sst_length_on_disk in
      elim (read_region length m.sst_off d) [
        | none ↦ none
        | some bytes ↦
            elim (set_all_ssts (decode_tables (stats_num m.store.vols) bytes) length m.store) [
              | none ↦ none
              | some store ↦ some (record m { store = store })
            ]
      ]

  unfoldable pub load_data_stor : List Device → D → MetaStor → Option MetaStor
  unfolding get_reserved_content set_sb_reserved_content open_all_components load_ssts
  load_data_stor devices d m = elim (get_reserved_content m.sb_mgr 4035) [
    | none ↦ none
    | some content ↦ elim (set_sb_reserved_content content 4035 m.reserved) [
      | none ↦ none
      | some r ↦
          let s = m.sb_mgr.sb in
          elim (open_all_components r s.sst_region_offset s.sst_region_length devices m.store) [
            | none ↦ none
            | some o ↦ if o.1 then load_ssts d (record m { reserved = r; store = o.0 }) else none
          ]
    ]
  ]

  unfoldable pub load_meta_data : List Device → D → MetaStor → Option MetaStor
  unfolding load_index load_data_stor
  load_meta_data devices d m =
      let s = m.sb_mgr.sb in
      let idx_off = m.sb_off + super_block_size_on_device in
      elim (load_index d s.index_ht_size s.index_region_length (record m { idx_off = idx_off })) [
        | none ↦ none
        | some m' ↦
            load_data_stor devices d (record m' { sst_off = idx_off + s.index_region_length })
      ]

  -- PersistIndexToDevice, with UpdateMetaToSB; `now` is the time in seconds.
  unfoldable pub persist_index_to_device : ℕ → MetaStor × D → Option (MetaStor × D)
  unfolding Image.get encode_image write_region
  persist_index_to_device now (m, d) =
      let length = m.sb_mgr.sb.index_region_length in
      elim (Image.get (seconds now) m.index length) [
        | none ↦ none
        | some image ↦ elim (write_region (encode_image length image) length m.idx_off d) [
          | none ↦ none
          | some d' ↦
              let sb =
                set_entry_count m.index.key_counter
                  (set_data_theory_size m.index.data_theory_size m.sb_mgr) in
              some (record m { sb_mgr = sb }, d')
        ]
      ]

  unfoldable pub persist_ssts_to_device : ℕ → MetaStor × D → Option (MetaStor × D)
  unfolding get_all_ssts encode_tables write_region keep_reserved
  persist_ssts_to_device now (m, d) =
      let length = m.sb_mgr.sb.sst_region_length in
      elim (get_all_ssts now length m.store) [
        | none ↦ none
        | some g ↦ elim (write_region (encode_tables length g.1) length m.sst_off d) [
          | none ↦ none
          | some d' ↦ elim (keep_reserved (record m { store = g.0 })) [
            | none ↦ none
            | some m' ↦ some (m', d')
          ]
        ]
      ]

  unfoldable pub persist_super_block_to_device : MetaStor × D → Option (MetaStor × D)
  unfolding SuperBlock.get write_region
  persist_super_block_to_device (m, d) = elim (SuperBlock.get m.sb_mgr super_block_size_on_device) [
    | none ↦ none
    | some page ↦ elim (write_region page super_block_size_on_device m.sb_off d) [
      | none ↦ none
      | some d' ↦ some (m, d')
    ]
  ]

  -- PersistMetaData; both times are those of its calls.
  unfoldable pub persist_meta_data : ℕ → ℕ → MetaStor × D → Option (MetaStor × D)
  unfolding persist_index_to_device persist_ssts_to_device persist_super_block_to_device
  persist_meta_data now now' st = elim (persist_index_to_device now st) [
    | none ↦ none
    | some st' ↦ elim (persist_ssts_to_device now' st') [
      | none ↦ none
      | some st'' ↦ persist_super_block_to_device st''
    ]
  ]
