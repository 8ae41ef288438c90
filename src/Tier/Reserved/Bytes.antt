-- ===== src/Tier/Reserved/Bytes.antt =====
-- The bytes of the tiers' reserved content, read back.
use hlkvds.Prelude.{
  ℕ, ◌+◌, ◌-◌, ◌*◌, ◌<◌, ◌≤◌, ◌≡◌, refl, sym, ◌∙◌, ap, true, some, List, ◌++◌, ◌==◌, arith, length,
  take, drop, replicate, take-append, drop-append, length-append, length-replicate, All, subst,
  u32_mod,
}
use mathlib.Core.List.{append_assoc}
use hlkvds.Memory.{le4, word4}
use hlkvds.SuperBlock.{reserved_region_length}
use hlkvds.SuperBlock.Image.{word4-le4}
use hlkvds.MultiVolume.Create.{Reserved}
use hlkvds.MultiVolume.Reserved.{
  encode_vec, decode_vec, IsStorable, decode_vec-encode_vec, length-encode_vec, no_reserved,
}
use hlkvds.Tier.Create.{ReservedFast, ReservedTiers}
use hlkvds.Tier.Reserved.{
  encode_fast, decode_fast, encode_medium, encode_tiers, set_fast, set_medium, set_tiers,
  set_sb_reserved_content, no_tiers,
}

-- A path of 256 bytes, and numbers of 32 bits.
pub record IsStorableFast (r : ReservedFast) : Type 0 where
  pub path : length r.dev_path ≡ 256
  pub size : r.segment_size < u32_mod
  pub num : r.segment_num < u32_mod
  pub cur : r.cur_seg_id < u32_mod

-- Up to fourteen volumes behind the fast tier's, and the sizes of both tiers.
pub record AreStorable (r : ReservedTiers) : Type 0 where
  pub fast_size : r.fast_size ≡ 268
  pub medium_size : r.medium_size ≡ 8 + 264 * length r.medium.vol_vec
  pub fast : IsStorableFast r.fast
  pub vols : All IsStorable r.medium.vol_vec
  pub size : r.medium.segment_size < u32_mod
  pub num : r.medium.volume_num ≡ length r.medium.vol_vec
  pub few : length r.medium.vol_vec ≤ 14

decode_fast-encode_fast :
    (r : ReservedFast) (rest : List ℕ) → IsStorableFast r → decode_fast (encode_fast r ++ rest) ≡ r
unfolding decode_fast encode_fast
decode_fast-encode_fast r rest w =
    let words = le4 r.segment_num ++ (le4 r.cur_seg_id ++ rest) in
    let split : (r.dev_path ++ (le4 r.segment_num ++ le4 r.cur_seg_id)) ++ rest
        ≡ r.dev_path ++ words =
      append_assoc r.dev_path (le4 r.segment_num ++ le4 r.cur_seg_id) rest in
    let front : take 256 (r.dev_path ++ words) ≡ r.dev_path =
      subst (λ (n : ℕ). take n (r.dev_path ++ words) ≡ r.dev_path) w.path
        (take-append r.dev_path words) in
    let back : drop 256 (r.dev_path ++ words) ≡ words =
      subst (λ (n : ℕ). drop n (r.dev_path ++ words) ≡ words) w.path
        (drop-append r.dev_path words) in
    λ i. record {
      segment_size = word4-le4 r.segment_size w.size i;
      dev_path = (ap (take 256) split ∙ front) i;
      segment_num =
          (ap (λ (l : List ℕ). word4 l 0) (ap (drop 256) split ∙ back)
              ∙ word4-le4 r.segment_num w.num)
            i;
      cur_seg_id =
          (ap (λ (l : List ℕ). word4 l 4) (ap (drop 256) split ∙ back)
              ∙ word4-le4 r.cur_seg_id w.cur)
            i;
    }

set_fast-encode_fast :
    (r : ReservedFast) (rest : List ℕ)
    → IsStorableFast r
    → set_fast (encode_fast r ++ rest) 268 ≡ some r
unfolding set_fast
set_fast-encode_fast r rest w = ap (λ (x : ReservedFast). some x) (decode_fast-encode_fast r rest w)

set_medium-encode_medium :
    (r : Reserved) (rest : List ℕ)
    → All IsStorable r.vol_vec
    → r.segment_size < u32_mod
    → r.volume_num ≡ length r.vol_vec
    → length r.vol_vec ≤ 14
    → set_medium (encode_medium r ++ rest) (8 + 264 * length r.vol_vec) no_reserved ≡ some r
unfolding set_medium encode_medium
set_medium-encode_medium r rest h w num few =
    let count : word4 (le4 r.volume_num) 0 ≡ length r.vol_vec =
      word4-le4 r.volume_num (omega (arith, num, few)) ∙ num in
    let sized : (8 + 264 * length r.vol_vec == 8 + 264 * word4 (le4 r.volume_num) 0) ≡ true =
      ground (arith, count) in
    rw (sized, set_medium)
      (λ i. some (record {
        segment_size = word4-le4 r.segment_size w i;
        volume_num = (count ∙ sym num) i;
        vol_vec =
            ((λ j. decode_vec (count j) (encode_vec r.vol_vec ++ rest))
                ∙ decode_vec-encode_vec r.vol_vec rest h)
              i;
      }))

length-encode_fast : (r : ReservedFast) → IsStorableFast r → length (encode_fast r) ≡ 268
unfolding encode_fast
length-encode_fast r w =
    omega (arith, length-append r.dev_path (le4 r.segment_num ++ le4 r.cur_seg_id), w.path)

length-encode_medium :
    (r : Reserved)
    → All IsStorable r.vol_vec
    → length (encode_medium r) ≡ 8 + 264 * length r.vol_vec
unfolding encode_medium
length-encode_medium r h = omega (arith, length-encode_vec r.vol_vec h)

pub length-encode_tiers :
    (r : ReservedTiers) → AreStorable r → length (encode_tiers r) ≡ reserved_region_length
unfolding encode_tiers
length-encode_tiers r w =
    let tiers = encode_fast r.fast ++ encode_medium r.medium in
    let bytes = le4 r.fast_size ++ (le4 r.medium_size ++ tiers) in
    omega (
      arith,
      length-append bytes (replicate (reserved_region_length - length bytes) 0),
      length-replicate {A = ℕ} (reserved_region_length - length bytes) 0,
      length-append (encode_fast r.fast) (encode_medium r.medium),
      length-encode_fast r.fast w.fast,
      length-encode_medium r.medium w.vols,
      w.few,
    )

set_tiers_found :
    (fast_size medium_size : ℕ) (rest : List ℕ) (r : ReservedTiers) (f : ReservedFast)
    (m : Reserved)
    → set_fast rest fast_size ≡ some f
    → set_medium (drop fast_size rest) medium_size r.medium ≡ some m
    → set_tiers fast_size medium_size rest r
      ≡ some (record { fast_size = fast_size; medium_size = medium_size; fast = f; medium = m })
unfolding set_tiers
set_tiers_found fast_size medium_size rest r f m a b = rw (a, b, set_tiers) refl

set_tiers-encoded :
    (r : ReservedTiers) (rest : List ℕ)
    → AreStorable r
    → set_tiers 268
        (8 + 264 * length r.medium.vol_vec)
        (encode_fast r.fast ++ (encode_medium r.medium ++ rest))
        no_tiers
      ≡ some r
set_tiers-encoded r rest w =
    let tail = encode_medium r.medium ++ rest in
    let medium_size = 8 + 264 * length r.medium.vol_vec in
    let behind : drop 268 (encode_fast r.fast ++ tail) ≡ tail =
      subst (λ (n : ℕ). drop n (encode_fast r.fast ++ tail) ≡ tail)
        (length-encode_fast r.fast w.fast) (drop-append (encode_fast r.fast) tail) in
    set_tiers_found 268 medium_size (encode_fast r.fast ++ tail) no_tiers r.fast r.medium
      (set_fast-encode_fast r.fast tail w.fast)
      (ap (λ (l : List ℕ). set_medium l medium_size no_reserved) behind
        ∙ set_medium-encode_medium r.medium rest w.vols w.size w.num w.few)
    ∙ (λ i. some (record {
      fast_size = sym w.fast_size i;
      medium_size = sym w.medium_size i;
      fast = r.fast;
      medium = r.medium;
    }))

pub set_sb_reserved_content-encode_tiers :
    (r : ReservedTiers)
    → AreStorable r
    → set_sb_reserved_content (encode_tiers r) 4035 no_tiers ≡ some r
unfolding set_sb_reserved_content encode_tiers
set_sb_reserved_content-encode_tiers r w =
    let tiers = encode_fast r.fast ++ encode_medium r.medium in
    let bytes = le4 r.fast_size ++ (le4 r.medium_size ++ tiers) in
    let zeros : List ℕ = replicate (reserved_region_length - length bytes) 0 in
    let first : word4 (le4 r.fast_size) 0 ≡ 268 =
      word4-le4 r.fast_size (omega (arith, w.fast_size)) ∙ w.fast_size in
    let second : word4 (le4 r.medium_size) 0 ≡ 8 + 264 * length r.medium.vol_vec =
      word4-le4 r.medium_size (omega (arith, w.medium_size, w.few)) ∙ w.medium_size in
    (λ i.
      set_tiers (first i) (second i)
        (append_assoc (encode_fast r.fast) (encode_medium r.medium) zeros i) no_tiers)
    ∙ set_tiers-encoded r zeros w
