-- ===== src/HashEntry.antt =====
-- The entries of the index: DataHeader, DataHeaderAddress, HashEntryOnDisk and HashEntry of
-- IndexManager.h, with the logical time stamp that orders writes to a key.
use hlkvds.Prelude.{ℕ, ◌≡◌, ◌↔◌, ◌⊎◌, Bool, true, false, arith, ltb, ◌==◌, ◌&&◌, ◌||◌}
use hlkvds.Utils.{KvTime}
use hlkvds.Utils
use hlkvds.Digest.{Digest, zero_digest}
use hlkvds.Digest
use hlkvds.LinkedList.Laws.{IsEquiv}

pub record DataHeader : Type 0 where
  pub key_digest : Digest
  pub key_size : ℕ
  pub data_size : ℕ
  pub data_offset : ℕ
  pub next_header_offset : ℕ

pub record DataHeaderAddress : Type 0 where
  pub location : ℕ
  pub offset : ℕ

pub record HashEntryOnDisk : Type 0 where
  pub header : DataHeader
  pub address : DataHeaderAddress

pub record LogicStamp : Type 0 where
  pub seg_time : KvTime
  pub key_no : ℕ

pub record HashEntry : Type 0 where
  pub on_disk : HashEntryOnDisk
  pub stamp : LogicStamp

-- sizeof(DataHeader), a packed struct: 20 + 2 + 2 + 4 + 4
abbrev pub size_of_data_header : ℕ
size_of_data_header = 32

-- sizeof(HashEntryOnDisk), packed: a data header, 2 and 8
abbrev pub size_of_hash_entry_on_disk : ℕ
size_of_hash_entry_on_disk = 42

-- The getters of HashEntry.
abbrev pub digest_of : HashEntry → Digest
digest_of e = e.on_disk.header.key_digest

abbrev pub data_size_of : HashEntry → ℕ
data_size_of e = e.on_disk.header.data_size

abbrev pub offset_of : HashEntry → ℕ
offset_of e = e.on_disk.address.offset

abbrev pub location_of : HashEntry → ℕ
location_of e = e.on_disk.address.location

-- DataHeader(), DataHeaderAddress(), HashEntryOnDisk() and SetKeyDigest
abbrev pub blank_on_disk : Digest → HashEntryOnDisk
blank_on_disk d = record {
  header = record {
    key_digest = d;
    key_size = 0;
    data_size = 0;
    data_offset = 0;
    next_header_offset = 0;
  };
  address = record { location = 0; offset = 0 };
}

-- HashEntry::operator== compares the digests alone.
unfoldable pub eq : HashEntry → HashEntry → Bool
unfolding Digest.eq
eq a b = Digest.eq (digest_of a) (digest_of b)

-- DataHeaderAddress::operator==
unfoldable pub address_eq : DataHeaderAddress → DataHeaderAddress → Bool
address_eq a b = a.location == b.location && a.offset == b.offset

-- LogicStamp's operator<, operator> and operator==
unfoldable pub stamp_lt : LogicStamp → LogicStamp → Bool
unfolding Utils.lt Utils.eq
stamp_lt a b =
    Utils.lt a.seg_time b.seg_time || Utils.eq a.seg_time b.seg_time && ltb a.key_no b.key_no

unfoldable pub stamp_gt : LogicStamp → LogicStamp → Bool
unfolding Utils.gt Utils.eq
stamp_gt a b =
    Utils.gt a.seg_time b.seg_time || Utils.eq a.seg_time b.seg_time && ltb b.key_no a.key_no

unfoldable pub stamp_eq : LogicStamp → LogicStamp → Bool
unfolding Utils.eq
stamp_eq a b = Utils.eq a.seg_time b.seg_time && a.key_no == b.key_no

pub eq-digest : (a b : HashEntry) → (eq a b ≡ true) ↔ (digest_of a ≡ digest_of b)
unfolding eq
eq-digest a b = Digest.eq_iff (digest_of a) (digest_of b)

pub eq-IsEquiv : IsEquiv eq
unfolding eq
eq-IsEquiv = record {
  eq_refl = λ a. ground arith;
  eq_sym = λ a b. ground arith;
  eq_trans = λ a b c h. ground arith;
}

-- The stamps are linearly ordered: exactly one of `<`, `>` and `==` holds of two stamps, `==` is
-- equality, `>` is `<` the other way round, and `<` goes on from one stamp to the next.
pub stamp_linear :
    (a b c : LogicStamp)
    → ((stamp_lt a b ≡ true) × (stamp_gt a b ≡ false) × (stamp_eq a b ≡ false)
        ⊎ (stamp_lt a b ≡ false) × (stamp_gt a b ≡ true) × (stamp_eq a b ≡ false)
        ⊎ (stamp_lt a b ≡ false) × (stamp_gt a b ≡ false) × (a ≡ b))
      × (stamp_gt a b ≡ stamp_lt b a)
      × (stamp_lt a b ≡ true → stamp_lt b c ≡ true → stamp_lt a c ≡ true)
unfolding stamp_lt stamp_gt stamp_eq
stamp_linear a b c = (ground arith, ground arith, λ p q. ground arith)
