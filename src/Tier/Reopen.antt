-- ===== src/Tier/Reopen.antt =====
-- A store of two tiers from its creation over the page of the superblock to its opening.
use hlkvds.Prelude.{
  ℕ, suc, ◌+◌, ◌*◌, ◌%◌, ◌<◌, ◌≤◌, ◌≡◌, refl, sym, ap, true, some, List, [], ◌∷◌, ◌++◌, ◌==◌, arith,
  length, replicate, take, zero, take_all, length-append, length-replicate, All, subst, u32_mod,
}
use mathlib.Core.Option.{none-ne-some}
use hlkvds.SegmentManager.{init}
use hlkvds.Volume
use hlkvds.SuperBlock.{
  SuperBlockManager, get, set_image, set_reserved_content, get_reserved_content,
}
use hlkvds.SuperBlock.Image.{IsWide, set_image-get}
use hlkvds.MultiVolume.Capacity.{calc_seg_num_for_pure}
use hlkvds.MultiVolume.Create.{Device, path_field, create_pure, reserve_volumes}
use hlkvds.MultiVolume.Create.Topology.{IsPath}
use hlkvds.MultiVolume.Reserved.{IsStorable, update_all_vol_sb_res}
use hlkvds.Tier.{MultiTier}
use hlkvds.Tier.Create.{
  ReservedTiers, make_medium, make_fast, create_all_components, open_all_components,
}
use hlkvds.Tier.Create.Topology.{made, open_made, create_all_components-made}
use hlkvds.Tier.Reserved.{
  encode_tiers, get_fast, get_medium, get_sb_reserved_content, set_sb_reserved_content, no_tiers,
}
use hlkvds.Tier.Reserved.Bytes.{
  AreStorable, length-encode_tiers, set_sb_reserved_content-encode_tiers,
}

length-take : (n : ℕ) (l : List ℕ) → n ≤ length l → length (take n l) ≡ n
length-take zero l h = refl
length-take (suc n) [] h = absurd (omega arith)
length-take (suc n) (x ∷ l) h = ap suc (length-take n l (omega arith))

length-take_padded : (n : ℕ) (p : List ℕ) → length (take n (p ++ replicate n 0)) ≡ n
length-take_padded n p =
    length-take n (p ++ replicate n 0)
      (omega (arith, length-append p (replicate n 0), length-replicate {A = ℕ} n 0))

reserve_volumes-IsStorable :
    (seg_size i : ℕ) (l : List Device)
    → All IsStorable (reserve_volumes l (create_pure seg_size i l))
unfolding reserve_volumes create_pure calc_seg_num_for_pure Volume.make init
reserve_volumes-IsStorable seg_size i [] = tt
reserve_volumes-IsStorable seg_size i (d ∷ l) = (
  record { path = length-take_padded 256 d.path; num = omega arith; cur = omega arith },
  reserve_volumes-IsStorable seg_size (suc i) l,
)

length-reserve_volumes :
    (seg_size i : ℕ) (l : List Device)
    → length (reserve_volumes l (create_pure seg_size i l)) ≡ length l
unfolding reserve_volumes create_pure
length-reserve_volumes seg_size i [] = refl
length-reserve_volumes seg_size i (d ∷ l) = ap suc (length-reserve_volumes seg_size (suc i) l)

update_all_vol_sb_res-reserve_volumes :
    (seg_size i : ℕ) (l : List Device)
    → update_all_vol_sb_res
        (create_pure seg_size i l)
        (reserve_volumes l (create_pure seg_size i l))
      ≡ reserve_volumes l (create_pure seg_size i l)
unfolding reserve_volumes create_pure update_all_vol_sb_res
update_all_vol_sb_res-reserve_volumes seg_size i [] = refl
update_all_vol_sb_res-reserve_volumes seg_size i (d ∷ l) = λ j.
    record {
      dev_path = path_field d.path;
      segment_num =
          (Volume.make i 0 seg_size (calc_seg_num_for_pure d.capacity seg_size) 0).seg_num;
      cur_seg_id =
          (Volume.make i 0 seg_size (calc_seg_num_for_pure d.capacity seg_size)
            0).seg_mgr.cur_seg_id;
    }
    ∷ update_all_vol_sb_res-reserve_volumes seg_size (suc i) l j

module _ (seg_size secondary_seg_size sst_offset : ℕ) (d : Device) (l : List Device) (n : ℕ) where
  abbrev store : MultiTier × ReservedTiers
  store = made seg_size secondary_seg_size sst_offset d l n

  made-AreStorable :
      n < u32_mod
      → seg_size < u32_mod
      → secondary_seg_size < u32_mod
      → length l ≤ 14
      → AreStorable store.1
  unfolding make_medium make_fast
  made-AreStorable low size secondary few =
      let sized = length-reserve_volumes secondary_seg_size 0 l in
      record {
        fast_size = refl;
        medium_size = omega (arith, sized);
        fast = record {
          path = length-take_padded 256 d.path;
          size = size;
          num = low;
          cur = omega arith;
        };
        vols = reserve_volumes-IsStorable secondary_seg_size 0 l;
        size = secondary;
        num = sym sized;
        few = omega (arith, sized, few);
      }

  -- Nothing was allocated yet, so that the content is what the creation left.
  get_sb_reserved_content-made :
      length l ≤ 14
      → get_sb_reserved_content store.0 store.1 4035 ≡ some (store.1, encode_tiers store.1)
  unfolding get_sb_reserved_content get_fast get_medium make_medium make_fast Volume.make init
  get_sb_reserved_content-made few =
      let sized : (8 + 264 * length l == (8 + 264 * length l) % u32_mod) ≡ true =
        ground (arith, few) in
      rw (sized, update_all_vol_sb_res-reserve_volumes secondary_seg_size 0 l) refl

-- What a store has after the page of its superblock was written to `m`, read into `n`, and the content
-- of the reserved region taken from there by a store that is being opened on the devices.
abbrev pub Reopens :
    ℕ → List Device → SuperBlockManager → SuperBlockManager → MultiTier × ReservedTiers → Type 0
Reopens sst_offset devices m n c =
    (content : List ℕ) × (get_sb_reserved_content c.0 c.1 4035 ≡ some (c.1, content))
    × ((m' : SuperBlockManager) × (set_reserved_content content 4035 m ≡ some m')
        × ((page : List ℕ) × (get m' 4096 ≡ some page)
            × ((n' : SuperBlockManager) × (set_image page 4096 n ≡ some n')
                × ((back : List ℕ) × (get_reserved_content n' 4035 ≡ some back)
                    × ((r : ReservedTiers) × (set_sb_reserved_content back 4035 no_tiers ≡ some r)
                        × (open_all_components r sst_offset c.0.sst_length_on_disk devices
                            ≡ some (some c.0)))))))

made-Reopens :
    (seg_size secondary_seg_size sst_offset : ℕ) (d : Device) (l : List Device) (k : ℕ)
    (m n : SuperBlockManager)
    → k < u32_mod
    → seg_size < u32_mod
    → secondary_seg_size < u32_mod
    → All IsPath (d ∷ l)
    → length l ≤ 14
    → IsWide m.sb
    → Reopens sst_offset (d ∷ l) m n (made seg_size secondary_seg_size sst_offset d l k)
unfolding set_reserved_content get_reserved_content
made-Reopens seg_size secondary_seg_size sst_offset d l k m n low size secondary path few wide =
    let c = made seg_size secondary_seg_size sst_offset d l k in
    let content = encode_tiers c.1 in
    let storable =
      made-AreStorable seg_size secondary_seg_size sst_offset d l k low size secondary few in
    let sized = length-encode_tiers c.1 storable in
    let whole = take_all 4035 content sized in
    let m' = record m { res_cont = content } in
    let (page, got, long, back) = set_image-get m' n wide sized in
    (
      content,
      get_sb_reserved_content-made seg_size secondary_seg_size sst_offset d l k few,
      (
        m',
        ap (λ (b : List ℕ). some (record m { res_cont = b })) whole,
        (
          page,
          got,
          (
            m',
            back,
            (
              content,
              ap (λ (b : List ℕ). some b) whole,
              (
                c.1,
                set_sb_reserved_content-encode_tiers c.1 storable,
                open_made seg_size secondary_seg_size sst_offset d l k path,
              ),
            ),
          ),
        ),
      ),
    )

-- A store of two tiers survives its creation: CreateAllComponents leaves a reserved content that fits
-- the region, and when the page of a superblock with this content is read back and the content given
-- to a store that is being opened, OpenAllComponents on the same devices gives the created store
-- again, both tiers with their volumes at the same places with the same sizes. There are up to
-- fourteen volumes in the medium tier, the segment sizes have 32 bits, a path has no zero in it and
-- less than 256 bytes, and the fields of the superblock fit their widths.
pub created-Reopens :
    (fuel seg_size secondary_seg_size sst_offset : ℕ) (devices : List Device)
    (c : MultiTier × ReservedTiers) (m n : SuperBlockManager)
    → create_all_components fuel devices seg_size secondary_seg_size sst_offset ≡ some (some c)
    → seg_size < u32_mod
    → secondary_seg_size < u32_mod
    → All IsPath devices
    → length devices ≤ 15
    → IsWide m.sb
    → Reopens sst_offset devices m n c
unfolding create_all_components
created-Reopens fuel seg_size secondary_seg_size sst_offset [] c m n e size secondary path few
      wide =
    absurd (none-ne-some (some c) e)
created-Reopens fuel seg_size secondary_seg_size sst_offset (d ∷ l) c m n e size secondary path few
      wide =
    let (k, low, at) =
      create_all_components-made fuel seg_size secondary_seg_size sst_offset d l c e in
    subst (Reopens sst_offset (d ∷ l) m n) at (
      made-Reopens seg_size secondary_seg_size sst_offset d l k m n low size secondary path
        (omega (arith, few)) wide)
