-- ===== src/MultiVolume/Reserved.antt =====
-- GetSBReservedContent and SetSBReservedContent of DS_MultiVolume_Impl.cc: the bytes that the store
-- keeps in the superblock's reserved region.
use hlkvds.Prelude.{
  ℕ, zero, suc, ◌-◌, ◌*◌, ◌<◌, ◌≤◌, ◌≡◌, refl, sym, ◌∙◌, ap, Option, none, some, List, [], ◌∷◌,
  ◌++◌, arith, u32_mod, length, take, drop, take_all, take-append, drop-append, length-append,
  replicate, length-replicate, ◌==◌, if◌then◌else◌, All, subst,
}
use mathlib.Core.List.{append_assoc}
use mathlib.Core.Option.{some-injective}
use hlkvds.Memory.{le4, word4}
use hlkvds.Volume.{Volume}
use hlkvds.SuperBlock.{
  SuperBlockManager, reserved_region_length, get, set_image, set_reserved_content,
  get_reserved_content,
}
use hlkvds.SuperBlock.Image.{IsWide, word4-le4, set_image-get}
use hlkvds.MultiVolume.Create.{Reserved, ReservedVolume}

-- A volume's 264 bytes.
unfoldable pub encode_volume : ReservedVolume → List ℕ
encode_volume v = v.dev_path ++ (le4 v.segment_num ++ le4 v.cur_seg_id)

unfoldable pub decode_volume : List ℕ → ReservedVolume
decode_volume b = record {
  dev_path = take 256 b;
  segment_num = word4 (drop 256 b) 0;
  cur_seg_id = word4 (drop 256 b) 4;
}

unfoldable pub encode_vec : List ReservedVolume → List ℕ
unfolding encode_volume
encode_vec [] = []
encode_vec (v ∷ l) = encode_volume v ++ encode_vec l

unfoldable pub decode_vec : ℕ → List ℕ → List ReservedVolume
unfolding decode_volume
decode_vec zero b = []
decode_vec (suc n) b = decode_volume b ∷ decode_vec n (drop 264 b)

-- updateAllVolSBRes
unfoldable pub update_all_vol_sb_res : List Volume → List ReservedVolume → List ReservedVolume
update_all_vol_sb_res (v ∷ vols) (r ∷ rs) =
    record r { cur_seg_id = v.seg_mgr.cur_seg_id } ∷ update_all_vol_sb_res vols rs
update_all_vol_sb_res _ rs = rs

-- What is written: the header and the volumes, and zeroes up to the end of the region. Nothing
-- tests that they end before it.
unfoldable pub encode_reserved : Reserved → List ℕ
unfolding encode_vec
encode_reserved r =
    let bytes = le4 r.segment_size ++ (le4 r.volume_num ++ encode_vec r.vol_vec) in
    bytes ++ replicate (reserved_region_length - length bytes) 0

-- GetSBReservedContent; `none` is the result false.
unfoldable pub get_sb_reserved_content : List Volume → Reserved → ℕ → Option (Reserved × List ℕ)
unfolding update_all_vol_sb_res encode_reserved
get_sb_reserved_content vols r length =
    let r' = record r { vol_vec = update_all_vol_sb_res vols r.vol_vec } in
    if length == reserved_region_length then some (r', encode_reserved r') else none

-- SetSBReservedContent puts the volumes behind those that are there.
unfoldable pub set_sb_reserved_content : List ℕ → ℕ → Reserved → Option Reserved
unfolding decode_vec
set_sb_reserved_content buf length r =
    if length == reserved_region_length
    then some (record {
      segment_size = word4 buf 0;
      volume_num = word4 buf 4;
      vol_vec = r.vol_vec ++ decode_vec (word4 buf 4) (drop 8 buf);
    })
    else none

-- A volume whose path has its 256 bytes and whose numbers fit 32 bits.
pub record IsStorable (v : ReservedVolume) : Type 0 where
  pub path : length v.dev_path ≡ 256
  pub num : v.segment_num < u32_mod
  pub cur : v.cur_seg_id < u32_mod

decode_volume-encode_volume :
    (v : ReservedVolume) (rest : List ℕ)
    → IsStorable v
    → decode_volume (encode_volume v ++ rest) ≡ v
unfolding decode_volume encode_volume
decode_volume-encode_volume v rest w =
    let words = le4 v.segment_num ++ (le4 v.cur_seg_id ++ rest) in
    let split : encode_volume v ++ rest ≡ v.dev_path ++ words =
      append_assoc v.dev_path (le4 v.segment_num ++ le4 v.cur_seg_id) rest in
    let front : take 256 (v.dev_path ++ words) ≡ v.dev_path =
      subst (λ (n : ℕ). take n (v.dev_path ++ words) ≡ v.dev_path) w.path
        (take-append v.dev_path words) in
    let back : drop 256 (v.dev_path ++ words) ≡ words =
      subst (λ (n : ℕ). drop n (v.dev_path ++ words) ≡ words) w.path
        (drop-append v.dev_path words) in
    ap decode_volume split ∙ (λ i. record {
      dev_path = front i;
      segment_num = ((λ j. word4 (back j) 0) ∙ word4-le4 v.segment_num w.num) i;
      cur_seg_id = ((λ j. word4 (back j) 4) ∙ word4-le4 v.cur_seg_id w.cur) i;
    })

pub decode_vec-encode_vec :
    (l : List ReservedVolume) (rest : List ℕ)
    → All IsStorable l
    → decode_vec (length l) (encode_vec l ++ rest) ≡ l
unfolding decode_vec encode_vec
decode_vec-encode_vec [] rest h = refl
decode_vec-encode_vec (v ∷ l) rest (h, hs) =
    let split : encode_vec (v ∷ l) ++ rest ≡ encode_volume v ++ (encode_vec l ++ rest) =
      append_assoc (encode_volume v) (encode_vec l) rest in
    let sized : length (encode_volume v) ≡ 264 =
      length-append v.dev_path (le4 v.segment_num ++ le4 v.cur_seg_id) ∙ omega (arith, h.path) in
    let back : drop 264 (encode_volume v ++ (encode_vec l ++ rest)) ≡ encode_vec l ++ rest =
      subst (λ (n : ℕ). drop n (encode_volume v ++ (encode_vec l ++ rest)) ≡ encode_vec l ++ rest)
        sized (drop-append (encode_volume v) (encode_vec l ++ rest)) in
    ap (decode_vec (suc (length l))) split ∙ (λ i.
      decode_volume-encode_volume v (encode_vec l ++ rest) h i
      ∷ ((λ j. decode_vec (length l) (back j)) ∙ decode_vec-encode_vec l rest hs) i)

pub length-encode_vec :
    (l : List ReservedVolume) → All IsStorable l → length (encode_vec l) ≡ 264 * length l
unfolding encode_vec encode_volume
length-encode_vec [] h = refl
length-encode_vec (v ∷ l) (h, hs) = omega (
  arith,
  length-append (encode_volume v) (encode_vec l),
  length-append v.dev_path (le4 v.segment_num ++ le4 v.cur_seg_id),
  h.path,
  length-encode_vec l hs,
)

-- Up to fifteen volumes the content has the length of the region; with more the last volumes are
-- written behind the buffer's end.
pub length-encode_reserved :
    (r : Reserved)
    → All IsStorable r.vol_vec
    → length r.vol_vec ≤ 15
    → length (encode_reserved r) ≡ reserved_region_length
unfolding encode_reserved
length-encode_reserved r h few =
    let bytes = le4 r.segment_size ++ (le4 r.volume_num ++ encode_vec r.vol_vec) in
    let sized = length-encode_vec r.vol_vec h in
    omega (
      arith,
      length-append bytes (replicate (reserved_region_length - length bytes) 0),
      length-replicate {A = ℕ} (reserved_region_length - length bytes) 0,
      sized,
      few,
    )

-- `sbResHeader_` and `sbResVolVec_` of a store that is being opened.
abbrev pub no_reserved : Reserved
no_reserved = record { segment_size = 0; volume_num = 0; vol_vec = [] }

pub set_sb_reserved_content-encode :
    (r : Reserved)
    → All IsStorable r.vol_vec
    → r.segment_size < u32_mod
    → r.volume_num ≡ length r.vol_vec
    → length r.vol_vec ≤ 15
    → set_sb_reserved_content (encode_reserved r) 4035 no_reserved ≡ some r
unfolding set_sb_reserved_content encode_reserved
set_sb_reserved_content-encode r h w num few =
    let count : word4 (le4 r.volume_num) 0 ≡ length r.vol_vec =
      word4-le4 r.volume_num (omega (arith, num, few)) ∙ num in
    let bytes = le4 r.segment_size ++ (le4 r.volume_num ++ encode_vec r.vol_vec) in
    let zeros : List ℕ = replicate (reserved_region_length - length bytes) 0 in
    λ i. some (record {
      segment_size = word4-le4 r.segment_size w i;
      volume_num = (count ∙ sym num) i;
      vol_vec =
          ((λ j. decode_vec (count j) (encode_vec r.vol_vec ++ zeros))
              ∙ decode_vec-encode_vec r.vol_vec zeros h)
            i;
    })

-- What a store of up to fifteen volumes puts into the reserved region comes back from the page: the
-- content is set in a superblock, the superblock is written, its page is read into another one, and
-- a store that is being opened takes the content from there. It gets the header and the volumes as
-- they were written, with the segment that each volume was at.
pub reserved_round_trip :
    (vols : List Volume) (r stored : Reserved) (content : List ℕ) (m n : SuperBlockManager)
    → get_sb_reserved_content vols r 4035 ≡ some (stored, content)
    → All IsStorable stored.vol_vec
    → stored.segment_size < u32_mod
    → stored.volume_num ≡ length stored.vol_vec
    → length stored.vol_vec ≤ 15
    → IsWide m.sb
    → (m' : SuperBlockManager) × (set_reserved_content content 4035 m ≡ some m')
      × ((page : List ℕ) × (get m' 4096 ≡ some page)
          × ((n' : SuperBlockManager) × (set_image page 4096 n ≡ some n')
              × (n'.sb ≡ m.sb)
              × ((back : List ℕ) × (get_reserved_content n' 4035 ≡ some back)
                  × (set_sb_reserved_content back 4035 no_reserved ≡ some stored))))
unfolding get_sb_reserved_content set_reserved_content get_reserved_content
reserved_round_trip vols r stored content m n e h w num few wide =
    let q = some-injective _ (stored, content) e in
    let written : encode_reserved stored ≡ content =
      ap (λ (x : Reserved × List ℕ). encode_reserved x.0) (sym q)
      ∙ ap (λ (x : Reserved × List ℕ). x.1) q in
    let sized : length content ≡ reserved_region_length =
      subst (λ (l : List ℕ). length l ≡ reserved_region_length) written
        (length-encode_reserved stored h few) in
    let whole = take_all 4035 content sized in
    let m' = record m { res_cont = content } in
    let (page, got, long, back) = set_image-get m' n wide sized in
    (
      m',
      ap (λ (l : List ℕ). some (record m { res_cont = l })) whole,
      (
        page,
        got,
        (
          m',
          back,
          refl,
          (
            content,
            ap (λ (l : List ℕ). some l) whole,
            subst (λ (l : List ℕ). set_sb_reserved_content l 4035 no_reserved ≡ some stored) written
                (set_sb_reserved_content-encode stored h w num few),
          ),
        ),
      ),
    )
