-- ===== src/KvSlice.antt =====
-- KVSlice of Segment.h and Segment.cc: a key with its value on the way to the device. The bytes
-- are lists; a null `data_` is `none`.
use hlkvds.Prelude.{ℕ, Option, List, Bool, length, ◌%◌, ◌^◌, ◌==◌}
use hlkvds.Digest.{Digest}
use hlkvds.HashEntry.{HashEntry, blank_on_disk}

pub record KvSlice : Type 0 where
  pub key : List ℕ
  pub key_length : ℕ
  pub content : Option (List ℕ)
  pub data_length : ℕ
  pub digest : Digest
  pub entry : HashEntry
  pub entry_gc : HashEntry
  pub seg_id : ℕ

-- ALIGNED_SIZE of Db_Structure.h
abbrev pub aligned_size : ℕ
aligned_size = 4096

-- `keyLength_` has 32 bits and GetKeyLen gives 16.
abbrev pub key_len : KvSlice → ℕ
key_len s = s.key_length % 2 ^ 16

-- `dataLength_` has 16 bits.
abbrev pub data_len : KvSlice → ℕ
data_len s = s.data_length

abbrev pub is_aligned_data : KvSlice → Bool
is_aligned_data s = data_len s == aligned_size

-- The entry pointers are null until they are set; a blank entry stands for that.
abbrev pub no_entry : Digest → HashEntry
no_entry d = record {
  on_disk = blank_on_disk d;
  stamp = record { seg_time = record { tv_sec = 0; tv_usec = 0 }; key_no = 0 };
}

-- KVSlice(key, key_len, data, data_len); `calc_digest` is KeyDigestHandle::CalcDigest.
unfoldable pub make : (List ℕ → Digest) → List ℕ → Option (List ℕ) → ℕ → KvSlice
make calc_digest key content size = record {
  key = key;
  key_length = length key;
  content = content;
  data_length = size % 2 ^ 16;
  digest = calc_digest key;
  entry = no_entry (calc_digest key);
  entry_gc = no_entry (calc_digest key);
  seg_id = 0;
}

-- SetHashEntry, SetHashEntryBeforeGC and SetSegId
abbrev pub set_hash_entry : KvSlice → HashEntry → KvSlice
set_hash_entry s e = record s { entry = e }

abbrev pub set_hash_entry_before_gc : KvSlice → HashEntry → KvSlice
set_hash_entry_before_gc s e = record s { entry_gc = e }

abbrev pub set_seg_id : KvSlice → ℕ → KvSlice
set_seg_id s i = record s { seg_id = i }
