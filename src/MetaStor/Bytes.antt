-- ===== src/MetaStor/Bytes.antt =====
-- The bytes of the index region and of the region of the segment tables, as IndexManager::Get and
-- GetAllSSTs copy them and as IndexManager::Set and SetAllSSTs read them.
use hlkvds.Prelude.{
  ℕ, zero, suc, ◌+◌, ◌-◌, ◌*◌, List, [], ◌∷◌, ◌++◌, ltb, if◌then◌else◌, length, drop, replicate,
}
use hlkvds.HashEntry.{HashEntryOnDisk}
use hlkvds.Memory.{le2, le4, le8, word2, word4, word8}
use hlkvds.IndexManager.Image.{IndexImage}
use hlkvds.SegmentManager.{SegUseStat, free, used, reserved, SegmentStat}
use hlkvds.Segment.{encode_header, decode_header}
use hlkvds.MultiVolume.Tables.{Tables}

-- The 42 bytes of an entry, and the 4 of a counter.
unfoldable pub encode_entry : HashEntryOnDisk → List ℕ
unfolding encode_header
encode_entry e = encode_header e.header ++ (le2 e.address.location ++ le8 e.address.offset)

unfoldable pub decode_entry : List ℕ → HashEntryOnDisk
unfolding decode_header
decode_entry b = record {
  header = decode_header b;
  address = record { location = word2 b 32; offset = word8 b 34 };
}

unfoldable pub encode_entries : List HashEntryOnDisk → List ℕ
unfolding encode_entry
encode_entries [] = []
encode_entries (e ∷ l) = encode_entry e ++ encode_entries l

unfoldable pub decode_entries : ℕ → List ℕ → List HashEntryOnDisk
unfolding decode_entry
decode_entries zero b = []
decode_entries (suc n) b = decode_entry b ∷ decode_entries n (drop 42 b)

unfoldable pub encode_counters : List ℕ → List ℕ
encode_counters [] = []
encode_counters (c ∷ l) = le4 c ++ encode_counters l

-- A counter is an int; a negative one reads no entry.
abbrev pub counter_of : ℕ → ℕ
counter_of c = if ltb c 2147483648 then c else 0

unfoldable pub decode_counters : ℕ → List ℕ → List ℕ
decode_counters zero b = []
decode_counters (suc n) b = counter_of (word4 b 0) ∷ decode_counters n (drop 4 b)

unfoldable pub sum : List ℕ → ℕ
sum [] = 0
sum (c ∷ l) = c + sum l

-- The index region of `len` zeroed bytes with the image. The time is stored in seconds.
unfoldable pub encode_image : ℕ → IndexImage → List ℕ
unfolding encode_counters encode_entries
encode_image len image =
    let bytes =
      le8 image.time ++ (encode_counters image.counters ++ encode_entries image.entries) in
    bytes ++ replicate (len - length bytes) 0

unfoldable pub decode_image : ℕ → List ℕ → IndexImage
unfolding decode_counters sum decode_entries
decode_image ht_size b =
    let rest = drop 8 b in
    let counters = decode_counters ht_size rest in
    record {
      time = word8 b 0;
      counters = counters;
      entries = decode_entries (sum counters) (drop (4 * ht_size) rest);
    }

-- FREE, USED and RESERVED; a number that is none of them counts as RESERVED does.
unfoldable pub number_of : SegUseStat → ℕ
number_of free = 0
number_of used = 1
number_of reserved = 2

unfoldable pub state_of : ℕ → SegUseStat
state_of zero = free
state_of (suc zero) = used
state_of (suc (suc n)) = reserved

-- The 12 bytes of a stat.
unfoldable pub encode_stat : SegmentStat → List ℕ
unfolding number_of
encode_stat s = le4 (number_of s.state) ++ (le4 s.free_size ++ le4 s.death_size)

unfoldable pub decode_stat : List ℕ → SegmentStat
unfolding state_of
decode_stat b = record {
  state = state_of (word4 b 0);
  free_size = word4 b 4;
  death_size = word4 b 8;
}

unfoldable pub encode_stats : List SegmentStat → List ℕ
unfolding encode_stat
encode_stats [] = []
encode_stats (s ∷ l) = encode_stat s ++ encode_stats l

unfoldable pub decode_stats : ℕ → List ℕ → List SegmentStat
unfolding decode_stat
decode_stats zero b = []
decode_stats (suc n) b = decode_stat b ∷ decode_stats n (drop 12 b)

unfoldable pub encode_tables : ℕ → Tables → List ℕ
unfolding encode_stats
encode_tables len t =
    let bytes = le8 t.time ++ encode_stats t.stats in bytes ++ replicate (len - length bytes) 0

-- The tables of volumes with `n` segments in all.
unfoldable pub decode_tables : ℕ → List ℕ → Tables
unfolding decode_stats
decode_tables n b = record { time = word8 b 0; stats = decode_stats n (drop 8 b) }
