-- ===== src/IndexManager/Image.antt =====
-- IndexManager::Get and Set: the index written to its region on the device and read back. The region
-- is a time in seconds, a counter for each slot and the entries of all slots; the model keeps these
-- three parts as they are; their bytes are in MetaStor/Bytes.
use hlkvds.Prelude.{
  ℕ, zero, suc, ◌+◌, ◌*◌, ◌/◌, Bool, false, Option, none, some, List, [], ◌∷◌, ◌++◌, ◌==◌,
  if◌then◌else◌, u32_add,
}
use hlkvds.Digest.{zero_digest}
use hlkvds.HashEntry.{
  HashEntry, HashEntryOnDisk, blank_on_disk, digest_of, size_of_hash_entry_on_disk, eq-IsEquiv,
}
use hlkvds.HashEntry
use hlkvds.LinkedList.{LinkedList, empty, search_in, put_in}
use hlkvds.LinkedList
use hlkvds.Utils.{KvTime}
use hlkvds.IndexManager.{IndexManager}

-- KVTime::SetTime(time_t): a time read back has no microseconds.
abbrev pub seconds : ℕ → KvTime
seconds t = record { tv_sec = t; tv_usec = 0 }

-- `time` is the `time_t` that is copied.
pub record IndexImage : Type 0 where
  pub time : ℕ
  pub counters : List ℕ
  pub entries : List HashEntryOnDisk

-- CalcIndexSizeOnDevice, for pages of 4096 bytes: sizeof(time_t) is 8 and sizeof(int) is 4.
unfoldable pub calc_index_size_on_device : ℕ → ℕ
calc_index_size_on_device ht_size =
    ((8 + 4 * ht_size + size_of_hash_entry_on_disk * ht_size) / 4096 + 1) * 4096

-- The entries of a chain as they are copied.
abbrev pub on_disk_of : List HashEntry → List HashEntryOnDisk
on_disk_of [] = []
on_disk_of (e ∷ l) = e.on_disk ∷ on_disk_of l

abbrev pub counters_of : List (LinkedList HashEntry) → List ℕ
counters_of [] = []
counters_of (l ∷ t) = l.size ∷ counters_of t

-- A slot whose counter is 0 is passed over.
abbrev pub entries_of : List (LinkedList HashEntry) → List HashEntryOnDisk
entries_of [] = []
entries_of (l ∷ t) =
    let rest = entries_of t in if l.size == 0 then rest else on_disk_of l.nodes ++ rest

-- Get; `none` for a wrong length. Of the time `lastTime_.GetTime()` keeps the seconds.
unfoldable pub get : KvTime → IndexManager → ℕ → Option IndexImage
get now im len =
    if len == im.size_ondisk
    then some (record {
      time = now.tv_sec;
      counters = counters_of im.hashtable;
      entries = entries_of im.hashtable;
    })
    else none

abbrev pub restored : KvTime → HashEntryOnDisk → HashEntry
restored time d = record { on_disk = d; stamp = record { seg_time = time; key_no = 0 } }

-- The inner loop of Set: `n` entries go into the chain. Behind the last entry the region is zero.
unfoldable pub load_chain :
    KvTime
    → ℕ
    → LinkedList HashEntry
    → List HashEntryOnDisk
    → LinkedList HashEntry × List HashEntryOnDisk
unfolding LinkedList.put HashEntry.eq
load_chain time zero l entries = (l, entries)
load_chain time (suc n) l [] =
    load_chain time n (LinkedList.put HashEntry.eq l (restored time (blank_on_disk zero_digest))).0
      []
load_chain time (suc n) l (d ∷ entries) =
    load_chain time n (LinkedList.put HashEntry.eq l (restored time d)).0 entries

-- The outer loop, with `total_entry`.
unfoldable pub load_slots :
    KvTime
    → List (LinkedList HashEntry)
    → List ℕ
    → List HashEntryOnDisk
    → ℕ
    → List (LinkedList HashEntry) × ℕ
unfolding load_chain
load_slots time [] counters entries total_entry = ([], total_entry)
load_slots time (l ∷ t) [] entries total_entry = (l ∷ t, total_entry)
load_slots time (l ∷ t) (c ∷ counters) entries total_entry =
    let chain = load_chain time c l entries in
    let rest = load_slots time t counters chain.1 (u32_add total_entry c) in
    (chain.0 ∷ rest.0, rest.1)

unfoldable pub set_image : IndexManager → IndexImage → ℕ → IndexManager × Bool
unfolding load_slots
set_image im image len =
    if len == im.size_ondisk
    then (let r = load_slots (seconds image.time) im.hashtable image.counters image.entries 0 in
        (record im { hashtable = r.0 }, r.1 == im.key_counter))
    else (im, false)
