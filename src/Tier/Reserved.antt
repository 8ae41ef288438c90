-- ===== src/Tier/Reserved.antt =====
-- GetSBReservedContent and SetSBReservedContent of DS_MultiTier_Impl.cc and of both tiers (Tier.cc):
-- the bytes that the store keeps in the superblock's reserved region. A vector has as many items as
-- there are volumes.
pub mod Bytes
use hlkvds.Prelude.{
  ℕ, ◌+◌, ◌-◌, ◌*◌, ◌%◌, Bool, true, false, Option, none, some, List, [], ◌∷◌, ◌++◌, ◌==◌,
  if◌then◌else◌, length, take, drop, replicate, u32_mod,
}
use hlkvds.Memory.{le4, word4}
use hlkvds.Volume.{Volume}
use hlkvds.SuperBlock.{reserved_region_length}
use hlkvds.MultiVolume.Create.{Reserved}
use hlkvds.MultiVolume.Reserved.{encode_vec, decode_vec, update_all_vol_sb_res, no_reserved}
use hlkvds.Tier.{MultiTier}
use hlkvds.Tier.Create.{ReservedFast, ReservedTiers, fast_reserved_size, medium_reserved_size}

unfoldable pub encode_fast : ReservedFast → List ℕ
encode_fast r = le4 r.segment_size ++ (r.dev_path ++ (le4 r.segment_num ++ le4 r.cur_seg_id))

unfoldable pub decode_fast : List ℕ → ReservedFast
decode_fast b = record {
  segment_size = word4 b 0;
  dev_path = take 256 (drop 4 b);
  segment_num = word4 (drop 256 (drop 4 b)) 0;
  cur_seg_id = word4 (drop 256 (drop 4 b)) 4;
}

unfoldable pub encode_medium : Reserved → List ℕ
unfolding encode_vec
encode_medium r = le4 r.segment_size ++ (le4 r.volume_num ++ encode_vec r.vol_vec)

-- GetSBReservedContent of the tiers, before the bytes: the places of the cursors are brought up to
-- date.
unfoldable pub get_fast : Volume → ReservedFast → ℕ → Option ReservedFast
get_fast v r length =
    if length == fast_reserved_size
    then some (record r { cur_seg_id = v.seg_mgr.cur_seg_id })
    else none

unfoldable pub get_medium : List Volume → ℕ → Reserved → ℕ → Option Reserved
unfolding update_all_vol_sb_res
get_medium vols vol_num r length =
    if length == medium_reserved_size vol_num % u32_mod
    then some (record r { vol_vec = update_all_vol_sb_res vols r.vol_vec })
    else none

-- The region: both sizes, both tiers, and zeroes. Nothing tests that they end before it.
unfoldable pub encode_tiers : ReservedTiers → List ℕ
unfolding encode_fast encode_medium
encode_tiers r =
    let bytes =
      le4 r.fast_size ++ (le4 r.medium_size ++ (encode_fast r.fast ++ encode_medium r.medium)) in
    bytes ++ replicate (reserved_region_length - length bytes) 0

unfoldable pub get_sb_reserved_content :
    MultiTier → ReservedTiers → ℕ → Option (ReservedTiers × List ℕ)
unfolding get_fast get_medium encode_tiers
get_sb_reserved_content s r length =
    if length == reserved_region_length
    then elim (get_fast s.fast r.fast r.fast_size) [
      | none ↦ none
      | some f ↦ elim (get_medium s.medium s.medium_vol_num r.medium r.medium_size) [
        | none ↦ none
        | some m ↦ let r' = record r { fast = f; medium = m } in some (r', encode_tiers r')
      ]
    ]
    else none

-- SetSBReservedContent of the tiers. The medium tier's volumes go behind those that are there.
unfoldable pub set_fast : List ℕ → ℕ → Option ReservedFast
unfolding decode_fast
set_fast buf length = if length == fast_reserved_size then some (decode_fast buf) else none

unfoldable pub set_medium : List ℕ → ℕ → Reserved → Option Reserved
unfolding decode_vec
set_medium buf length r =
    if length == medium_reserved_size (word4 buf 4)
    then some (record {
      segment_size = word4 buf 0;
      volume_num = word4 buf 4;
      vol_vec = r.vol_vec ++ decode_vec (word4 buf 4) (drop 8 buf);
    })
    else none

-- Both tiers from the bytes behind the sizes.
unfoldable pub set_tiers : ℕ → ℕ → List ℕ → ReservedTiers → Option ReservedTiers
unfolding set_fast set_medium
set_tiers fast_size medium_size rest r = elim (set_fast rest fast_size) [
  | none ↦ none
  | some f ↦ elim (set_medium (drop fast_size rest) medium_size r.medium) [
    | none ↦ none
    | some m ↦
        some (record { fast_size = fast_size; medium_size = medium_size; fast = f; medium = m })
  ]
]

unfoldable pub set_sb_reserved_content : List ℕ → ℕ → ReservedTiers → Option ReservedTiers
unfolding set_tiers
set_sb_reserved_content buf length r =
    if length == reserved_region_length
    then set_tiers (word4 buf 0) (word4 buf 4) (drop 8 buf) r
    else none

-- What a store that is being opened has.
abbrev pub no_tiers : ReservedTiers
no_tiers = record {
  fast_size = 0;
  medium_size = 0;
  fast = record { segment_size = 0; dev_path = replicate 256 0; segment_num = 0; cur_seg_id = 0 };
  medium = no_reserved;
}
