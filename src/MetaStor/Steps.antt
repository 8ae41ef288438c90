-- ===== src/MetaStor/Steps.antt =====
-- The parts of PersistMetaData and of LoadMetaData where every call succeeds.
use hlkvds.Prelude.{
  ℕ, ◌+◌, ◌≡◌, refl, sym, ◌∙◌, ap, true, some, List, ◌++◌, take, subst, Option-cases, inl, inr,
}
use mathlib.Core.Option.{some-injective, none-ne-some}
use hlkvds.IndexManager.{IndexManager, init_meta}
use hlkvds.IndexManager.Image.{IndexImage, seconds}
use hlkvds.IndexManager.Image
use hlkvds.VolumeIo.{Devices}
use hlkvds.SuperBlock.{
  SuperBlockManager, set_entry_count, set_data_theory_size, set_reserved_content,
  get_reserved_content, encode_sb,
}
use hlkvds.SuperBlock
use hlkvds.MultiVolume.{MultiVolume}
use hlkvds.MultiVolume.Create.{Device, Reserved, open_all_components}
use hlkvds.MultiVolume.Reserved.{set_sb_reserved_content}
use hlkvds.MultiVolume.Tables.{Tables, get_all_ssts, set_all_ssts}
use hlkvds.MetaStor.{
  MetaStor, stats_num, keep_reserved, read_region, write_region, load_super_block, try_load_sb,
  load_index, load_ssts, load_data_stor, load_meta_data, persist_index_to_device,
  persist_ssts_to_device, persist_super_block_to_device, persist_meta_data,
}
use hlkvds.MetaStor.Bytes.{encode_image, decode_image, encode_tables, decode_tables}

-- The superblock with the counters of the index.
abbrev pub counted : MetaStor → SuperBlockManager
counted m =
    set_entry_count m.index.key_counter (set_data_theory_size m.index.data_theory_size m.sb_mgr)

-- The page that Get writes.
abbrev pub page_of : SuperBlockManager → List ℕ
page_of sb = encode_sb sb.sb ++ sb.res_cont

module _ {D : Type 0} (dev : Devices D) where
  pub persist_index_done :
      (now : ℕ) (m : MetaStor) (d : D) (image : IndexImage) (st : MetaStor × D)
      → Image.get (seconds now) m.index m.sb_mgr.sb.index_region_length ≡ some image
      → persist_index_to_device dev now (m, d) ≡ some st
      → let len = m.sb_mgr.sb.index_region_length in
        (write_region dev (encode_image len image) len m.idx_off d ≡ some st.1)
        × (record m { sb_mgr = counted m } ≡ st.0)
  unfolding persist_index_to_device
  persist_index_done now m d image st got h =
      let len = m.sb_mgr.sb.index_region_length in
      elim (Option-cases (write_region dev (encode_image len image) len m.idx_off d)) [
        | inl failed ↦ absurd (none-ne-some st (rw (got, failed, persist_index_to_device) at h))
        | inr (d', wrote) ↦
            let q = some-injective _ st (rw (got, wrote, persist_index_to_device) at h) in
            (wrote ∙ ap (λ (x : MetaStor × D). some x.1) q, ap (λ (x : MetaStor × D). x.0) q)
      ]

  pub persist_ssts_done :
      (now : ℕ) (m kept : MetaStor) (d : D) (g : MultiVolume × Tables) (st : MetaStor × D)
      → get_all_ssts now m.sb_mgr.sb.sst_region_length m.store ≡ some g
      → keep_reserved (record m { store = g.0 }) ≡ some kept
      → persist_ssts_to_device dev now (m, d) ≡ some st
      → let len = m.sb_mgr.sb.sst_region_length in
        (write_region dev (encode_tables len g.1) len m.sst_off d ≡ some st.1) × (kept ≡ st.0)
  unfolding persist_ssts_to_device keep_reserved
  persist_ssts_done now m kept d g st got keeps h =
      let len = m.sb_mgr.sb.sst_region_length in
      elim (Option-cases (write_region dev (encode_tables len g.1) len m.sst_off d)) [
        | inl failed ↦ absurd (none-ne-some st (rw (got, failed, persist_ssts_to_device) at h))
        | inr (d', wrote) ↦
            let q = some-injective _ st (rw (got, wrote, persist_ssts_to_device) at h) in
            (
              wrote ∙ ap (λ (x : MetaStor × D). some x.1) q,
              sym (some-injective _ kept keeps) ∙ ap (λ (x : MetaStor × D). x.0) q,
            )
      ]

  pub persist_super_block_done :
      (m : MetaStor) (d : D) (st : MetaStor × D)
      → persist_super_block_to_device dev (m, d) ≡ some st
      → (write_region dev (page_of m.sb_mgr) 4096 m.sb_off d ≡ some st.1) × (m ≡ st.0)
  unfolding persist_super_block_to_device
  persist_super_block_done m d st h =
      elim (Option-cases (write_region dev (page_of m.sb_mgr) 4096 m.sb_off d)) [
        | inl failed ↦ absurd (none-ne-some st (rw (failed, persist_super_block_to_device) at h))
        | inr (d', wrote) ↦
            let q = some-injective _ st (rw (wrote, persist_super_block_to_device) at h) in
            (wrote ∙ ap (λ (x : MetaStor × D). some x.1) q, ap (λ (x : MetaStor × D). x.0) q)
      ]

  -- A call that succeeds made its three calls.
  pub persist_meta_data_done :
      (now now' : ℕ) (st end : MetaStor × D)
      → persist_meta_data dev now now' st ≡ some end
      → (s : MetaStor × D) × (t : MetaStor × D) × (persist_index_to_device dev now st ≡ some s)
        × (persist_ssts_to_device dev now' s ≡ some t)
        × (persist_super_block_to_device dev t ≡ some end)
  unfolding persist_meta_data
  persist_meta_data_done now now' st end h =
      elim (Option-cases (persist_index_to_device dev now st)) [
        | inl failed ↦ absurd (none-ne-some end (rw (failed, persist_meta_data) at h))
        | inr (s, first) ↦ elim (Option-cases (persist_ssts_to_device dev now' s)) [
          | inl failed ↦ absurd (none-ne-some end (rw (first, failed, persist_meta_data) at h))
          | inr (t, second) ↦ (s, t, first, second, rw (first, second, persist_meta_data) at h)
        ]
      ]

  pub try_load_sb_found :
      (d : D) (m : MetaStor) (page : List ℕ) (sb : SuperBlockManager)
      → read_region dev 4096 0 d ≡ some page
      → SuperBlock.set_image page 4096 m.sb_mgr ≡ some sb
      → try_load_sb dev d m ≡ some (record m { sb_mgr = sb; sb_off = 0 }, sb.sb.data_store_type)
  unfolding try_load_sb load_super_block SuperBlock.set_image
  try_load_sb_found d m page sb a b =
      let q = some-injective _ sb b in
      rw (a, try_load_sb)
        (λ i. some (record m { sb_mgr = q i; sb_off = 0 }, (q i).sb.data_store_type))

  pub load_index_found :
      (d : D) (ht_size index_size : ℕ) (m : MetaStor) (bytes : List ℕ) (im : IndexManager)
      → read_region dev index_size m.idx_off d ≡ some bytes
      → Image.set_image
          (init_meta ht_size index_size m.sb_mgr.sb.entry_theory_data_size m.sb_mgr.sb.entry_count)
          (decode_image ht_size bytes)
          index_size
        ≡ (im, true)
      → load_index dev d ht_size index_size m ≡ some (record m { index = im })
  unfolding load_index
  load_index_found d ht_size index_size m bytes im a b = rw (a, b, load_index) refl

  pub load_ssts_found :
      (d : D) (m : MetaStor) (bytes : List ℕ) (store : MultiVolume)
      → read_region dev m.store.sst_length_on_disk m.sst_off d ≡ some bytes
      → set_all_ssts
          (decode_tables (stats_num m.store.vols) bytes)
          m.store.sst_length_on_disk
          m.store
        ≡ some store
      → load_ssts dev d m ≡ some (record m { store = store })
  unfolding load_ssts
  load_ssts_found d m bytes store a b = rw (a, b, load_ssts) refl

  pub load_data_stor_found :
      (devices : List Device) (d : D) (m m' : MetaStor) (content : List ℕ) (r : Reserved)
      (store : MultiVolume)
      → take 4035 m.sb_mgr.res_cont ≡ content
      → set_sb_reserved_content content 4035 m.reserved ≡ some r
      → open_all_components r m.sb_mgr.sb.sst_region_offset m.sb_mgr.sb.sst_region_length devices
          m.store
        ≡ some (store, true)
      → load_ssts dev d (record m { reserved = r; store = store }) ≡ some m'
      → load_data_stor dev devices d m ≡ some m'
  unfolding load_data_stor set_sb_reserved_content
  load_data_stor_found devices d m m' content r store a b c e =
      let s = m.sb_mgr.sb in
      let b' : set_sb_reserved_content (take 4035 m.sb_mgr.res_cont) 4035 m.reserved ≡ some r =
        ap (λ (l : List ℕ). set_sb_reserved_content l 4035 m.reserved) a ∙ b in
      let q = sym (some-injective _ r b') in
      let c' =
        subst
          (λ (x : Reserved).
            open_all_components x s.sst_region_offset s.sst_region_length devices m.store
            ≡ some (store, true))
          q c in
      rw (c', load_data_stor)
        (subst
          (λ (x : Reserved). load_ssts dev d (record m { reserved = x; store = store }) ≡ some m') q
          e)

  pub load_meta_data_found :
      (devices : List Device) (d : D) (m m' : MetaStor) (im : IndexManager)
      → load_index dev d m.sb_mgr.sb.index_ht_size m.sb_mgr.sb.index_region_length
          (record m { idx_off = m.sb_off + 4096 })
        ≡ some (record m { idx_off = m.sb_off + 4096; index = im })
      → load_data_stor dev devices d (record m {
        idx_off = m.sb_off + 4096;
        index = im;
        sst_off = m.sb_off + 4096 + m.sb_mgr.sb.index_region_length;
      })
        ≡ some m'
      → load_meta_data dev devices d m ≡ some m'
  unfolding load_meta_data
  load_meta_data_found devices d m m' im a b = rw (a, load_meta_data) b
