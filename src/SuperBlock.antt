-- ===== src/SuperBlock.antt =====
-- SuperBlockManager.h and SuperBlockManager.cc: the superblock with the reserved region behind it,
-- as they are held in memory and as the bytes of one page.
pub mod Image
use hlkvds.Prelude.{
  ℕ, Bool, true, false, Option, none, some, List, [], ◌∷◌, ◌++◌, ◌==◌, not, if◌then◌else◌, take,
  drop, get_or, replicate,
}
use hlkvds.Memory.{le4, le8, word4, word8}

pub record DbSuperBlock : Type 0 where
  pub magic_number : ℕ
  pub index_ht_size : ℕ
  pub index_region_offset : ℕ
  pub index_region_length : ℕ
  pub sst_total_num : ℕ
  pub sst_region_offset : ℕ
  pub sst_region_length : ℕ
  pub data_store_type : ℕ
  pub entry_count : ℕ
  pub entry_theory_data_size : ℕ
  pub grace_close_flag : Bool

-- `resCont_` has ReservedRegionLength bytes.
pub record SuperBlockManager : Type 0 where
  pub sb : DbSuperBlock
  pub res_cont : List ℕ

-- SB_SIZE_ONDISK, `sizeof(DBSuperBlock)` of the packed class, and the bytes behind it.
abbrev pub super_block_size_on_device : ℕ
super_block_size_on_device = 4096

abbrev pub size_of_db_super_block : ℕ
size_of_db_super_block = 61

abbrev pub reserved_region_length : ℕ
reserved_region_length = 4035

-- The constructors: zeroes.
abbrev pub blank : SuperBlockManager
blank = record {
  sb = record {
    magic_number = 0;
    index_ht_size = 0;
    index_region_offset = 0;
    index_region_length = 0;
    sst_total_num = 0;
    sst_region_offset = 0;
    sst_region_length = 0;
    data_store_type = 0;
    entry_count = 0;
    entry_theory_data_size = 0;
    grace_close_flag = false;
  };
  res_cont = replicate reserved_region_length 0;
}

-- The bytes of the packed class in a little-endian machine.
unfoldable pub encode_sb : DbSuperBlock → List ℕ
encode_sb s =
    le4 s.magic_number
    ++ le4 s.index_ht_size
    ++ le8 s.index_region_offset
    ++ le8 s.index_region_length
    ++ le4 s.sst_total_num
    ++ le8 s.sst_region_offset
    ++ le8 s.sst_region_length
    ++ le4 s.data_store_type
    ++ le4 s.entry_count
    ++ le8 s.entry_theory_data_size
    ++ (if s.grace_close_flag then 1 else 0) ∷ []

unfoldable pub decode_sb : List ℕ → DbSuperBlock
decode_sb b = record {
  magic_number = word4 b 0;
  index_ht_size = word4 b 4;
  index_region_offset = word8 b 8;
  index_region_length = word8 b 16;
  sst_total_num = word4 b 24;
  sst_region_offset = word8 b 28;
  sst_region_length = word8 b 36;
  data_store_type = word4 b 44;
  entry_count = word4 b 48;
  entry_theory_data_size = word8 b 52;
  grace_close_flag = not (get_or b 60 0 == 0);
}

-- Get and Set; `none` is the result false.
unfoldable pub get : SuperBlockManager → ℕ → Option (List ℕ)
unfolding encode_sb
get m length =
    if length == super_block_size_on_device then some (encode_sb m.sb ++ m.res_cont) else none

unfoldable pub set_image : List ℕ → ℕ → SuperBlockManager → Option SuperBlockManager
unfolding decode_sb
set_image buff length m =
    if length == super_block_size_on_device
    then some (record {
      sb = decode_sb buff;
      res_cont = take reserved_region_length (drop size_of_db_super_block buff);
    })
    else none

-- SetSuperBlock, SetEntryCount and SetDataTheorySize
abbrev pub set_super_block : DbSuperBlock → SuperBlockManager → SuperBlockManager
set_super_block s m = record m { sb = s }

abbrev pub set_entry_count : ℕ → SuperBlockManager → SuperBlockManager
set_entry_count num m = let s = m.sb in record m { sb = record s { entry_count = num } }

abbrev pub set_data_theory_size : ℕ → SuperBlockManager → SuperBlockManager
set_data_theory_size size m =
    let s = m.sb in record m { sb = record s { entry_theory_data_size = size } }

-- SetReservedContent and GetReservedContent
unfoldable pub set_reserved_content : List ℕ → ℕ → SuperBlockManager → Option SuperBlockManager
set_reserved_content content length m =
    if length == reserved_region_length
    then some (record m { res_cont = take length content })
    else none

unfoldable pub get_reserved_content : SuperBlockManager → ℕ → Option (List ℕ)
get_reserved_content m length =
    if length == reserved_region_length then some (take length m.res_cont) else none

-- IsElementFull
abbrev pub is_element_full : SuperBlockManager → Bool
is_element_full m = m.sb.entry_count == m.sb.index_ht_size
