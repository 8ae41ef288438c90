-- ===== src/MetaStor/Kept.antt =====
-- The state that can be kept, and the image of its index in the region.
use hlkvds.Prelude.{
  ℕ, ◌+◌, ◌*◌, ◌<◌, ◌≤◌, ◌≡◌, refl, sym, ◌∙◌, true, some, ◌==◌, arith, length, take, All, subst,
  u32_mod, u64_mod,
}
use mathlib.Core.Option.{some-injective}
use hlkvds.IndexManager.{IndexManager, init_meta}
use hlkvds.IndexManager.Image.{
  IndexImage, seconds, counters_of, entries_of, calc_index_size_on_device,
}
use hlkvds.IndexManager.Image
use hlkvds.IndexManager.Table.{Inv}
use hlkvds.IndexManager.Persist.{
  restore_slots, length-counters_of, length-entries_of, calc_index_size-fits, set_image-get,
}
use hlkvds.SuperBlock.{SuperBlockManager}
use hlkvds.SuperBlock.Image.{IsWide}
use hlkvds.MultiVolume.Create.{Reserved}
use hlkvds.MultiVolume.Reserved.{update_all_vol_sb_res, encode_reserved, IsStorable}
use hlkvds.MultiVolume.Tables.{IsSound}
use hlkvds.MetaStor.{MetaStor, stats_num}
use hlkvds.MetaStor.Bytes.{encode_image, decode_image}
use hlkvds.MetaStor.Regions.{IsNarrowEntry, length-encode_image, decode_image-encode_image}
use hlkvds.MetaStor.Stats.{counters_of-AreCounters, sum-counters_of, IsNarrowVolume}
use hlkvds.MetaStor.Steps.{counted}

-- What the store keeps in the superblock when it is closed.
abbrev pub stored : MetaStor → Reserved
stored m = let r = m.reserved in record r { vol_vec = update_all_vol_sb_res m.store.vols r.vol_vec }

-- The regions lie one behind the other and are as long as the superblock says and as what they hold
-- needs, the index and the segment tables are in order, and every field fits its width.
pub record IsKept (m : MetaStor) : Type 0 where
  pub inv : Inv m.index
  pub ht_size : m.sb_mgr.sb.index_ht_size ≡ m.index.ht_size
  pub small : m.index.ht_size < 2147483648
  pub index_length : m.sb_mgr.sb.index_region_length ≡ m.index.size_ondisk
  pub index_room : m.index.size_ondisk ≡ calc_index_size_on_device m.index.ht_size
  pub sst_length : m.sb_mgr.sb.sst_region_length ≡ m.store.sst_length_on_disk
  pub sst_room : 8 + 12 * stats_num m.store.vols ≤ m.store.sst_length_on_disk
  pub sb_at : m.sb_off ≡ 0
  pub idx_at : m.idx_off ≡ 4096
  pub sst_at : m.sst_off ≡ 4096 + m.index.size_ondisk
  pub wide : IsWide (counted m).sb
  pub entries : All IsNarrowEntry (entries_of m.index.hashtable)
  pub sound : All IsSound m.store.vols
  pub stats : All IsNarrowVolume m.store.vols
  pub items : All IsStorable (stored m).vol_vec
  pub seg_size : (stored m).segment_size < u32_mod
  pub num : (stored m).volume_num ≡ length (stored m).vol_vec
  pub few : length (stored m).vol_vec ≤ 15

module _ (now : ℕ) (m : MetaStor) where
  -- The image of the index, and the state after the call.
  abbrev pub image_of : IndexImage
  image_of = record {
    time = now;
    counters = counters_of m.index.hashtable;
    entries = entries_of m.index.hashtable;
  }

  abbrev pub kept_sb : SuperBlockManager
  kept_sb = let sb = counted m in record sb { res_cont = take 4035 (encode_reserved (stored m)) }

  pub image_of-got :
      IsKept m → Image.get (seconds now) m.index m.sb_mgr.sb.index_region_length ≡ some image_of
  unfolding Image.get
  image_of-got k =
      let same : (m.sb_mgr.sb.index_region_length == m.index.size_ondisk) ≡ true =
        ground (arith, k.index_length) in
      rw (same, Image.get) refl

  -- The image in its region, and back.
  pub image_of-sized :
      IsKept m
      → length (encode_image m.sb_mgr.sb.index_region_length image_of)
        ≡ m.sb_mgr.sb.index_region_length
  image_of-sized k =
      length-encode_image m.sb_mgr.sb.index_region_length image_of
        (omega (arith, calc_index_size-fits m.index k.inv, k.index_length, k.index_room))

  image_of-back :
      IsKept m
      → now < u64_mod
      → decode_image m.sb_mgr.sb.index_ht_size
          (encode_image m.sb_mgr.sb.index_region_length image_of)
        ≡ image_of
  image_of-back k wide =
      let v = k.inv in
      let slots : length (counters_of m.index.hashtable) ≡ m.sb_mgr.sb.index_ht_size =
        length-counters_of m.index.hashtable ∙ v.table.sized ∙ sym k.ht_size in
      let counters =
        counters_of-AreCounters m.index.hashtable (omega (arith, v.counted, v.bounded, k.small)) in
      let entries =
        sum-counters_of m.index.hashtable ∙ sym (length-entries_of m.index.hashtable v.chains) in
      subst
        (λ (n : ℕ).
          decode_image n (encode_image m.sb_mgr.sb.index_region_length image_of) ≡ image_of)
        slots
        (decode_image-encode_image m.sb_mgr.sb.index_region_length image_of wide counters k.entries
          entries)

  -- The index that Set makes of it.
  abbrev pub restored_index : IndexManager
  restored_index = record {
    hashtable = restore_slots (seconds now) m.index.hashtable;
    ht_size = m.index.ht_size;
    size_ondisk = m.index.size_ondisk;
    key_counter = m.index.key_counter;
    data_theory_size = m.index.data_theory_size;
  }

  pub image_of-set :
      IsKept m
      → now < u64_mod
      → Image.set_image
          (init_meta m.sb_mgr.sb.index_ht_size m.sb_mgr.sb.index_region_length
            m.index.data_theory_size m.index.key_counter)
          (decode_image m.sb_mgr.sb.index_ht_size
            (encode_image m.sb_mgr.sb.index_region_length image_of))
          m.sb_mgr.sb.index_region_length
        ≡ (restored_index, true)
  image_of-set k wide =
      let (image, got, back) = set_image-get m.index (seconds now) m.index.data_theory_size k.inv in
      let got' : Image.get (seconds now) m.index m.index.size_ondisk ≡ some image_of =
        subst (λ (n : ℕ). Image.get (seconds now) m.index n ≡ some image_of) k.index_length
          (image_of-got k) in
      let same = some-injective image_of image (sym got' ∙ got) in
      (λ i.
        Image.set_image
          (init_meta (k.ht_size i) (k.index_length i) m.index.data_theory_size m.index.key_counter)
          ((image_of-back k wide ∙ same) i) (k.index_length i))
      ∙ back
