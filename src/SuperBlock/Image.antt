-- ===== src/SuperBlock/Image.antt =====
-- A superblock that was written is read back.
use hlkvds.Prelude.{
  ℕ, ◌<◌, ◌≡◌, refl, Bool, true, false, some, List, ◌++◌, arith, u32_mod, u64_mod, length, take_all,
  ◌==◌, not, if◌then◌else◌,
}
use hlkvds.Memory.{le4, le8, word4, word8}
use hlkvds.SuperBlock.{
  DbSuperBlock, SuperBlockManager, encode_sb, decode_sb, get, set_image, reserved_region_length,
}

-- Every field fits its width.
pub record IsWide (s : DbSuperBlock) : Type 0 where
  pub magic : s.magic_number < u32_mod
  pub ht : s.index_ht_size < u32_mod
  pub index_offset : s.index_region_offset < u64_mod
  pub index_length : s.index_region_length < u64_mod
  pub total : s.sst_total_num < u32_mod
  pub sst_offset : s.sst_region_offset < u64_mod
  pub sst_length : s.sst_region_length < u64_mod
  pub ds_type : s.data_store_type < u32_mod
  pub count : s.entry_count < u32_mod
  pub theory : s.entry_theory_data_size < u64_mod

pub word4-le4 : (x : ℕ) → x < u32_mod → word4 (le4 x) 0 ≡ x
word4-le4 x h = omega arith

pub word8-le8 : (x : ℕ) → x < u64_mod → word8 (le8 x) 0 ≡ x
word8-le8 x h = omega arith

flag_back : (b : Bool) → not ((if b then 1 else 0) == 0) ≡ b
flag_back true = refl
flag_back false = refl

decode_sb-encode_sb :
    (s : DbSuperBlock) (rest : List ℕ) → IsWide s → decode_sb (encode_sb s ++ rest) ≡ s
unfolding decode_sb encode_sb
decode_sb-encode_sb s rest w = λ i. record {
  magic_number = word4-le4 s.magic_number w.magic i;
  index_ht_size = word4-le4 s.index_ht_size w.ht i;
  index_region_offset = word8-le8 s.index_region_offset w.index_offset i;
  index_region_length = word8-le8 s.index_region_length w.index_length i;
  sst_total_num = word4-le4 s.sst_total_num w.total i;
  sst_region_offset = word8-le8 s.sst_region_offset w.sst_offset i;
  sst_region_length = word8-le8 s.sst_region_length w.sst_length i;
  data_store_type = word4-le4 s.data_store_type w.ds_type i;
  entry_count = word4-le4 s.entry_count w.count i;
  entry_theory_data_size = word8-le8 s.entry_theory_data_size w.theory i;
  grace_close_flag = flag_back s.grace_close_flag i;
}

-- What Get writes Set reads back, whatever was in memory before, where every field fits its width.
pub set_image-get :
    (m n : SuperBlockManager)
    → IsWide m.sb
    → length m.res_cont ≡ reserved_region_length
    → (page : List ℕ) × (get m 4096 ≡ some page)
      × (length page ≡ 4096)
      × (set_image page 4096 n ≡ some m)
unfolding get set_image encode_sb
set_image-get m n w sized = (
  encode_sb m.sb ++ m.res_cont,
  refl,
  omega (arith, sized),
  λ i. some (record {
    sb = decode_sb-encode_sb m.sb m.res_cont w i;
    res_cont = take_all reserved_region_length m.res_cont sized i;
  }),
)
