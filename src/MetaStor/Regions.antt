-- ===== src/MetaStor/Regions.antt =====
-- What is read back from the index region and from the region of the segment tables.
use hlkvds.Prelude.{
  ℕ, ◌+◌, ◌-◌, ◌*◌, ◌^◌, ◌<◌, ◌≤◌, ◌≡◌, refl, ◌∙◌, ap, List, [], ◌∷◌, ◌++◌, arith, length, drop,
  replicate, drop-append, length-append, length-replicate, All, subst, u32_mod, u64_mod,
}
use mathlib.Core.List.{append_assoc}
use hlkvds.HashEntry.{HashEntryOnDisk}
use hlkvds.Memory.{le2, le4, le8, word2, word4}
use hlkvds.IndexManager.Image.{IndexImage}
use hlkvds.SegmentManager.{SegUseStat, free, used, reserved, SegmentStat}
use hlkvds.Segment.{encode_header, decode_header}
use hlkvds.Segment.Layout.{IsNarrow, decode_header-encode_header}
use hlkvds.SuperBlock.Image.{word4-le4, word8-le8}
use hlkvds.MultiVolume.Tables.{Tables}
use hlkvds.MetaStor.Bytes.{
  encode_entry, decode_entry, encode_entries, decode_entries, encode_counters, counter_of,
  decode_counters, sum, encode_image, decode_image, number_of, state_of, encode_stat, decode_stat,
  encode_stats, decode_stats, encode_tables, decode_tables,
}

-- The fields of an entry, of a counter and of a stat fit their widths.
pub record IsNarrowEntry (e : HashEntryOnDisk) : Type 0 where
  pub header : IsNarrow e.header
  pub location : e.address.location < 2 ^ 16
  pub offset : e.address.offset < u64_mod

abbrev pub IsCounter : ℕ → Type 0
IsCounter c = c < 2147483648

pub record IsNarrowStat (s : SegmentStat) : Type 0 where
  pub free_word : s.free_size < u32_mod
  pub death_word : s.death_size < u32_mod

word2-le2 : (x : ℕ) → x < 2 ^ 16 → word2 (le2 x) 0 ≡ x
word2-le2 x h = omega arith

decode_entry-encode_entry :
    (e : HashEntryOnDisk) (rest : List ℕ)
    → IsNarrowEntry e
    → decode_entry (encode_entry e ++ rest) ≡ e
unfolding decode_entry encode_entry decode_header encode_header
decode_entry-encode_entry e rest w = λ i. record {
  header = decode_header-encode_header e.header w.header i;
  address = record {
    location = word2-le2 e.address.location w.location i;
    offset = word8-le8 e.address.offset w.offset i;
  };
}

decode_entries-encode_entries :
    (l : List HashEntryOnDisk) (rest : List ℕ)
    → All IsNarrowEntry l
    → decode_entries (length l) (encode_entries l ++ rest) ≡ l
unfolding decode_entries encode_entries encode_entry encode_header
decode_entries-encode_entries [] rest h = refl
decode_entries-encode_entries (e ∷ l) rest (h, hs) = λ i.
    decode_entry-encode_entry e (encode_entries l ++ rest) h i
    ∷ decode_entries-encode_entries l rest hs i

counter_of_lem : (c : ℕ) → IsCounter c → counter_of (word4 (le4 c) 0) ≡ c
counter_of_lem c h =
    let e : word4 (le4 c) 0 ≡ c = word4-le4 c (omega (arith, h)) in
    ap counter_of e ∙ ground (arith, h)

decode_counters-encode_counters :
    (l : List ℕ) (rest : List ℕ)
    → All IsCounter l
    → decode_counters (length l) (encode_counters l ++ rest) ≡ l
unfolding decode_counters encode_counters
decode_counters-encode_counters [] rest h = refl
decode_counters-encode_counters (c ∷ l) rest (h, hs) =
    λ i. counter_of_lem c h i ∷ decode_counters-encode_counters l rest hs i

length-encode_counters : (l : List ℕ) → length (encode_counters l) ≡ 4 * length l
unfolding encode_counters
length-encode_counters [] = refl
length-encode_counters (c ∷ l) = omega (arith, length-encode_counters l)

length-encode_entries : (l : List HashEntryOnDisk) → length (encode_entries l) ≡ 42 * length l
unfolding encode_entries encode_entry encode_header
length-encode_entries [] = refl
length-encode_entries (e ∷ l) = omega (arith, length-encode_entries l)

pub length-encode_image :
    (len : ℕ) (image : IndexImage)
    → 8 + 4 * length image.counters + 42 * length image.entries ≤ len
    → length (encode_image len image) ≡ len
unfolding encode_image
length-encode_image len image h =
    let words = encode_counters image.counters ++ encode_entries image.entries in
    let bytes = le8 image.time ++ words in
    omega (
      arith,
      length-append bytes (replicate (len - length bytes) 0),
      length-replicate {A = ℕ} (len - length bytes) 0,
      length-append (encode_counters image.counters) (encode_entries image.entries),
      length-encode_counters image.counters,
      length-encode_entries image.entries,
      h,
    )

pub decode_image-encode_image :
    (len : ℕ) (image : IndexImage)
    → image.time < u64_mod
    → All IsCounter image.counters
    → All IsNarrowEntry image.entries
    → sum image.counters ≡ length image.entries
    → decode_image (length image.counters) (encode_image len image) ≡ image
unfolding decode_image encode_image
decode_image-encode_image len image wide counters entries total =
    let c = encode_counters image.counters in
    let e = encode_entries image.entries in
    let bytes = le8 image.time ++ (c ++ e) in
    let zeros : List ℕ = replicate (len - length bytes) 0 in
    let split : (c ++ e) ++ zeros ≡ c ++ (e ++ zeros) = append_assoc c e zeros in
    let first : decode_counters (length image.counters) ((c ++ e) ++ zeros) ≡ image.counters =
      ap (decode_counters (length image.counters)) split
      ∙ decode_counters-encode_counters image.counters (e ++ zeros) counters in
    let behind : drop (4 * length image.counters) ((c ++ e) ++ zeros) ≡ e ++ zeros =
      ap (drop (4 * length image.counters)) split
      ∙ subst (λ (n : ℕ). drop n (c ++ (e ++ zeros)) ≡ e ++ zeros)
          (length-encode_counters image.counters) (drop-append c (e ++ zeros)) in
    let count : sum (decode_counters (length image.counters) ((c ++ e) ++ zeros))
        ≡ length image.entries =
      ap sum first ∙ total in
    λ i. record {
      time = word8-le8 image.time wide i;
      counters = first i;
      entries =
          ((λ j. decode_entries (count j) (behind j))
              ∙ decode_entries-encode_entries image.entries zeros entries)
            i;
    }

state_of-number_of : (u : SegUseStat) → state_of (word4 (le4 (number_of u)) 0) ≡ u
unfolding state_of number_of
state_of-number_of free = refl
state_of-number_of used = refl
state_of-number_of reserved = refl

decode_stats-encode_stats :
    (l : List SegmentStat) (rest : List ℕ)
    → All IsNarrowStat l
    → decode_stats (length l) (encode_stats l ++ rest) ≡ l
unfolding decode_stats encode_stats encode_stat decode_stat
decode_stats-encode_stats [] rest h = refl
decode_stats-encode_stats (s ∷ l) rest (h, hs) = λ i.
    record {
      state = state_of-number_of s.state i;
      free_size = word4-le4 s.free_size h.free_word i;
      death_size = word4-le4 s.death_size h.death_word i;
    }
    ∷ decode_stats-encode_stats l rest hs i

length-encode_stats : (l : List SegmentStat) → length (encode_stats l) ≡ 12 * length l
unfolding encode_stats encode_stat
length-encode_stats [] = refl
length-encode_stats (s ∷ l) = omega (arith, length-encode_stats l)

pub length-encode_tables :
    (len : ℕ) (t : Tables) → 8 + 12 * length t.stats ≤ len → length (encode_tables len t) ≡ len
unfolding encode_tables
length-encode_tables len t h =
    let bytes = le8 t.time ++ encode_stats t.stats in
    omega (
      arith,
      length-append bytes (replicate (len - length bytes) 0),
      length-replicate {A = ℕ} (len - length bytes) 0,
      length-encode_stats t.stats,
      h,
    )

pub decode_tables-encode_tables :
    (len : ℕ) (t : Tables)
    → t.time < u64_mod
    → All IsNarrowStat t.stats
    → decode_tables (length t.stats) (encode_tables len t) ≡ t
unfolding decode_tables encode_tables
decode_tables-encode_tables len t wide stats =
    let bytes = le8 t.time ++ encode_stats t.stats in
    let zeros : List ℕ = replicate (len - length bytes) 0 in
    λ i. record {
      time = word8-le8 t.time wide i;
      stats = decode_stats-encode_stats t.stats zeros stats i;
    }
