-- ===== src/MetaStor/Reload.antt =====
-- What PersistMetaData writes, TryLoadSB and LoadMetaData read.
use hlkvds.Prelude.{
  ℕ, ◌+◌, ◌<◌, ◌≡◌, refl, sym, ◌∙◌, ap, true, some, List, [], ◌∷◌, ◌==◌, arith, length, take,
  take_all, map, subst, inl, inr, u64_mod,
}
use mathlib.Core.Option.{some-injective}
use hlkvds.SegmentManager.{SegmentStat}
use hlkvds.Volume.{Volume}
use hlkvds.VolumeIo.{Devices}
use hlkvds.VolumeIo.Device.{IsDisk, KeepsApart}
use hlkvds.SuperBlock.{SuperBlockManager, set_reserved_content}
use hlkvds.SuperBlock
use hlkvds.SuperBlock.Image.{set_image-get as sb_set_image-get}
use hlkvds.MultiVolume.{MultiVolume}
use hlkvds.MultiVolume.Create.{Device, open_all_components}
use hlkvds.MultiVolume.Reserved.{
  encode_reserved, get_sb_reserved_content, set_sb_reserved_content, no_reserved,
  length-encode_reserved, set_sb_reserved_content-encode,
}
use hlkvds.MultiVolume.Tables.{
  Tables, get_tables, get_all_ssts, set_all_ssts, opened, AllReloaded, set_all_ssts-get_all_ssts,
}
use hlkvds.MetaStor.{
  MetaStor, stats_num, keep_reserved, read_region, write_region, try_load_sb, load_meta_data,
  persist_meta_data, persist_ssts_to_device, persist_super_block_to_device,
}
use hlkvds.MetaStor.Bytes.{encode_image, encode_tables, decode_tables}
use hlkvds.MetaStor.Regions.{length-encode_tables, decode_tables-encode_tables}
use hlkvds.MetaStor.Disk.{read_region-write_region, read_region-apart}
use hlkvds.MetaStor.Stats.{get_tables-AreNarrow}
use hlkvds.MetaStor.Steps.{
  counted, page_of, persist_index_done, persist_ssts_done, persist_super_block_done,
  persist_meta_data_done, try_load_sb_found, load_index_found, load_ssts_found,
  load_data_stor_found, load_meta_data_found,
}
use hlkvds.MetaStor.Kept.{
  stored, IsKept, image_of, kept_sb, image_of-got, image_of-sized, restored_index, image_of-set,
}

stats_num-opened : (l : List Volume) → stats_num (map opened l) ≡ stats_num l
unfolding stats_num
stats_num-opened [] = refl
stats_num-opened (v ∷ l) = ap (λ (n : ℕ). v.seg_num + n) (stats_num-opened l)

module _ {D : Type 0} (dev : Devices D) (now now' : ℕ) (m : MetaStor) (d : D)
    (stats : List SegmentStat) where
  -- The tables that the call takes, and the state that it leaves.
  abbrev tables_of : Tables
  tables_of = record { time = now'; stats = stats }

  abbrev left : MetaStor
  left =
      let s = m.store in
      record m {
        sb_mgr = kept_sb now m;
        store = record s { last_time = now' };
        reserved = stored m;
      }

  -- The three writes.
  pub record Wrote (end : MetaStor × D) : Type 0 where
    pub first : D
    pub second : D
    pub index :
        write_region dev
          (encode_image m.sb_mgr.sb.index_region_length (image_of now m))
          m.sb_mgr.sb.index_region_length
          m.idx_off
          d
        ≡ some first
    pub ssts :
        write_region dev
          (encode_tables m.sb_mgr.sb.sst_region_length tables_of)
          m.sb_mgr.sb.sst_region_length
          m.sst_off
          first
        ≡ some second
    pub super : write_region dev (page_of (kept_sb now m)) 4096 m.sb_off second ≡ some end.1
    pub state : left ≡ end.0

  persist_meta_data-Wrote :
      (end : MetaStor × D)
      → IsKept m
      → get_tables m.store.vols ≡ some stats
      → persist_meta_data dev now now' (m, d) ≡ some end
      → Wrote end
  unfolding get_all_ssts keep_reserved get_sb_reserved_content set_reserved_content
  persist_meta_data-Wrote end k got h =
      let (s, t, e1, e2, e3) = persist_meta_data_done dev now now' (m, d) end h in
      let (w1, q1) = persist_index_done dev now m d (image_of now m) s (image_of-got now m k) e1 in
      let after = record m { sb_mgr = counted m } in
      let e2' =
        subst (λ (x : MetaStor). persist_ssts_to_device dev now' (x, s.1) ≡ some t) (sym q1) e2 in
      let store = m.store in
      let same : (m.sb_mgr.sb.sst_region_length == m.store.sst_length_on_disk) ≡ true =
        ground (arith, k.sst_length) in
      let g : MultiVolume × Tables = (record store { last_time = now' }, tables_of) in
      let taken : get_all_ssts now' m.sb_mgr.sb.sst_region_length m.store ≡ some g =
        rw (same, got, get_all_ssts) refl in
      let (w2, q2) = persist_ssts_done dev now' after left s.1 g t taken refl e2' in
      let e3' =
        subst (λ (x : MetaStor). persist_super_block_to_device dev (x, t.1) ≡ some end) (sym q2)
          e3 in
      let (w3, q3) = persist_super_block_done dev left t.1 end e3' in
      record { first = s.1; second = t.1; index = w1; ssts = w2; super = w3; state = q3 }

  module _ (end : MetaStor × D) (k : IsKept m) (law : IsDisk dev) (apart : KeepsApart dev)
      (w : Wrote end) where
    -- What is read from the regions at the end.
    index_read :
        read_region dev m.sb_mgr.sb.index_region_length 4096 end.1
        ≡ some (encode_image m.sb_mgr.sb.index_region_length (image_of now m))
    index_read =
        let len = m.sb_mgr.sb.index_region_length in
        subst (λ (o : ℕ). read_region dev len o end.1 ≡ some (encode_image len (image_of now m)))
          k.idx_at
          (read_region-apart dev (page_of (kept_sb now m)) 4096 m.sb_off len m.idx_off w.second
              end.1 apart w.super (inr (omega (arith, k.sb_at, k.idx_at)))
            ∙ read_region-apart dev (encode_tables m.sb_mgr.sb.sst_region_length tables_of)
                m.sb_mgr.sb.sst_region_length m.sst_off len m.idx_off w.first w.second apart w.ssts
                (inl (omega (arith, k.sst_at, k.idx_at, k.index_length)))
            ∙ read_region-write_region dev (encode_image len (image_of now m)) len m.idx_off d
                w.first law w.index (image_of-sized now m k))

    ssts_read :
        length stats ≡ stats_num m.store.vols
        → read_region dev m.sb_mgr.sb.sst_region_length
            (4096 + m.sb_mgr.sb.index_region_length)
            end.1
          ≡ some (encode_tables m.sb_mgr.sb.sst_region_length tables_of)
    ssts_read long =
        let len = m.sb_mgr.sb.sst_region_length in
        let place : m.sst_off ≡ 4096 + m.sb_mgr.sb.index_region_length =
          omega (arith, k.sst_at, k.index_length) in
        subst (λ (o : ℕ). read_region dev len o end.1 ≡ some (encode_tables len tables_of)) place
          (read_region-apart dev (page_of (kept_sb now m)) 4096 m.sb_off len m.sst_off w.second
              end.1 apart w.super (inr (omega (arith, k.sb_at, k.sst_at)))
            ∙ read_region-write_region dev (encode_tables len tables_of) len m.sst_off w.first
                w.second law w.ssts
                (length-encode_tables len tables_of
                  (omega (arith, k.sst_length, k.sst_room, long))))

    -- The superblock's page, and the superblock that is read from it.
    content_whole : take 4035 (encode_reserved (stored m)) ≡ encode_reserved (stored m)
    content_whole =
        take_all 4035 (encode_reserved (stored m)) (length-encode_reserved (stored m) k.items k.few)

    page_read :
        (sb : SuperBlockManager)
        → (read_region dev 4096 0 end.1 ≡ some (page_of (kept_sb now m)))
          × (SuperBlock.set_image (page_of (kept_sb now m)) 4096 sb ≡ some (kept_sb now m))
    unfolding SuperBlock.get
    page_read sb =
        let content = encode_reserved (stored m) in
        let sized : length (take 4035 content) ≡ 4035 =
          ap length content_whole ∙ length-encode_reserved (stored m) k.items k.few in
        let (page, got, long, back) = sb_set_image-get (kept_sb now m) sb k.wide sized in
        let same = sym (some-injective _ page got) in
        (
          subst (λ (o : ℕ). read_region dev 4096 o end.1 ≡ some (page_of (kept_sb now m))) k.sb_at
              (read_region-write_region dev (page_of (kept_sb now m)) 4096 m.sb_off w.second end.1
                law w.super (ap length (sym same) ∙ long)),
          subst (λ (b : List ℕ). SuperBlock.set_image b 4096 sb ≡ some (kept_sb now m)) same back,
        )

-- The store that opens with what `m` keeps, before its tables are read.
pub record OpensAs (m : MetaStor) (devices : List Device) (empty opening : MultiVolume)
    : Type 0 where
  pub opens :
      open_all_components
        (stored m)
        m.sb_mgr.sb.sst_region_offset
        m.sb_mgr.sb.sst_region_length
        devices
        empty
      ≡ some (opening, true)
  pub vols : opening.vols ≡ map opened m.store.vols
  pub length_kept : opening.sst_length_on_disk ≡ m.store.sst_length_on_disk

-- What was loaded, against what was kept.
pub record IsLoaded (now now' : ℕ) (m back : MetaStor) : Type 0 where
  pub index : back.index ≡ restored_index now m
  pub vols : AllReloaded m.store.vols back.store.vols
  pub time : back.store.last_time ≡ now'
  pub reserved : back.reserved ≡ stored m
  pub super : back.sb_mgr ≡ kept_sb now m

taken_of :
    (now : ℕ) (s : MultiVolume) (stats : List SegmentStat)
    → get_tables s.vols ≡ some stats
    → get_all_ssts now s.sst_length_on_disk s
      ≡ some (record s { last_time = now }, record { time = now; stats = stats })
unfolding get_all_ssts
taken_of now s stats got =
    let same : (s.sst_length_on_disk == s.sst_length_on_disk) ≡ true = ground arith in
    rw (same, got, get_all_ssts) refl

module _ {D : Type 0} (dev : Devices D) (devices : List Device) (now now' : ℕ) (m fresh : MetaStor)
    (opening : MultiVolume) (d : D) (end : MetaStor × D) where
  -- A database that is closed is opened again: when PersistMetaData succeeded, then TryLoadSB of a
  -- fresh state succeeds on the device that it left, and so does LoadMetaData after it, with the
  -- superblock as it was kept, the index with the same entries in the same chains in the same order,
  -- stamped with the time of the writing, and every volume with its segment table, whose reserved
  -- segments are free again. The device gives back what was written to it and keeps what lies apart;
  -- the regions lie one behind the other and are long enough, the index and the tables are in order,
  -- the fields fit their widths, there are less than 2 ^ 31 slots and up to fifteen volumes; and
  -- OpenAllComponents with the kept content gives the volumes without their tables.
  pub persist_meta_data-IsLoaded :
      IsKept m
      → IsDisk dev
      → KeepsApart dev
      → now < u64_mod
      → now' < u64_mod
      → fresh.reserved ≡ no_reserved
      → OpensAs m devices fresh.store opening
      → persist_meta_data dev now now' (m, d) ≡ some end
      → (loaded : MetaStor) × (back : MetaStor) × (try_load_sb dev end.1 fresh
          ≡ some (loaded, m.sb_mgr.sb.data_store_type))
        × (load_meta_data dev devices end.1 loaded ≡ some back)
        × IsLoaded now now' m back
  persist_meta_data-IsLoaded k law apart wide wide' blank o h =
      let (stats, got, long, narrow) = get_tables-AreNarrow m.store.vols k.sound k.stats in
      let w = persist_meta_data-Wrote dev now now' m d stats end k got h in
      let sb = kept_sb now m in
      let (page, set) = page_read dev now now' m d stats end k law apart w fresh.sb_mgr in
      let loaded = record fresh { sb_mgr = sb; sb_off = 0 } in
      let im = restored_index now m in
      let index =
        load_index_found dev end.1 sb.sb.index_ht_size sb.sb.index_region_length
          (record loaded { idx_off = 4096 })
          (encode_image m.sb_mgr.sb.index_region_length (image_of now m)) im
          (index_read dev now now' m d stats end k law apart w) (image_of-set now m k wide) in
      let placed = record loaded {
        idx_off = 4096;
        index = im;
        sst_off = 4096 + m.sb_mgr.sb.index_region_length;
      } in
      let t = tables_of dev now now' m d stats in
      let (s', image, taken, same, (t', given, reloaded, timed)) =
        set_all_ssts-get_all_ssts now' m.store opening k.sound o.vols o.length_kept in
      let taken' = taken_of now' m.store stats got in
      let image_same : image ≡ t =
        ap (λ (x : MultiVolume × Tables). x.1) (some-injective _ _ (sym taken ∙ taken')) in
      let count : length stats ≡ stats_num opening.vols =
        long ∙ sym (ap stats_num o.vols ∙ stats_num-opened m.store.vols) in
      let decoded : decode_tables (stats_num opening.vols)
            (encode_tables m.sb_mgr.sb.sst_region_length t)
          ≡ t =
        subst (λ (n : ℕ). decode_tables n (encode_tables m.sb_mgr.sb.sst_region_length t) ≡ t) count
          (decode_tables-encode_tables m.sb_mgr.sb.sst_region_length t wide' narrow) in
      let tables =
        load_ssts_found dev end.1 (record placed { reserved = stored m; store = opening })
          (encode_tables m.sb_mgr.sb.sst_region_length t) t'
          (subst
            (λ (n : ℕ).
              read_region dev n (4096 + m.sb_mgr.sb.index_region_length) end.1
              ≡ some (encode_tables m.sb_mgr.sb.sst_region_length t))
            (k.sst_length ∙ sym o.length_kept)
            (ssts_read dev now now' m d stats end k law apart w long))
          ((λ i. set_all_ssts ((decoded ∙ sym image_same) i) opening.sst_length_on_disk opening)
            ∙ given) in
      let back = record placed { reserved = stored m; store = t' } in
      let content = encode_reserved (stored m) in
      let whole = content_whole dev now now' m d stats end k law apart w in
      let opened_store =
        load_data_stor_found dev devices end.1 placed back content (stored m) opening
          (ap (take 4035) whole ∙ whole)
          (ap (set_sb_reserved_content content 4035) blank
            ∙ set_sb_reserved_content-encode (stored m) k.items k.seg_size k.num k.few)
          o.opens tables in
      (
        loaded,
        back,
        try_load_sb_found dev end.1 fresh (page_of sb) sb page set,
        load_meta_data_found dev devices end.1 loaded back im index opened_store,
        record { index = refl; vols = reloaded; time = timed; reserved = refl; super = refl },
      )
