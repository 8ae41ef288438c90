-- ===== src/Tests/Volumes.antt =====
-- A device whose bytes are a function, and values written to it and read back.
use hlkvds.Prelude.{
  ℕ, zero, suc, ◌+◌, ◌-◌, ◌<◌, ◌≤◌, ◌≡◌, refl, ◌∙◌, ap, Bool, true, false, Option, none, some, List,
  [], ◌∷◌, arith, ltb, leb, ◌==◌, ◌&&◌, if◌then◌else◌, get_elem?, replicate, length, inl,
}
use hlkvds.Utils.{KvTime}
use hlkvds.Digest
use hlkvds.Digest.{Digest}
use hlkvds.HashEntry.{HashEntry}
use hlkvds.KvSlice.{KvSlice, data_len, no_entry}
use hlkvds.Memory.{Buffer, bytes_at}
use hlkvds.SegmentManager.{SegmentManager, free, reserved}
use hlkvds.IndexManager.{IndexManager, World, find, update_indexes}
use hlkvds.Volume.{Volume, log2, halvings, calc_seg_offset_from_id}
use hlkvds.Volume.Offsets.{IsLaidOut}
use hlkvds.Segment
use hlkvds.Segment.Layout.{IsWhole}
use hlkvds.Segment.Packing.{IsPacked, make-IsPacked, put-IsPacked}
use hlkvds.Segment.Written.{SameData}
use hlkvds.SegForReq.{Request, SegForReq, new_request, get_write_stat}
use hlkvds.SegForReq
use hlkvds.LatencyFriendly
use hlkvds.Kvds.{Status, ok}
use hlkvds.VolumeIo.{Devices, State, read_data, write_batch}
use hlkvds.VolumeIo.Device.{IsDisk}
use hlkvds.VolumeIo.Batch.{read_data-write_batch}
use hlkvds.SegWrite.{write_seg}
use hlkvds.SegWrite.Outcome.{write_seg_outcome}
use hlkvds.MultiVolume.{
  MultiVolume, data_stor, access, set_segs_at, alloc_loop, write_data_immediately, read_data_in,
}
use hlkvds.MultiVolume.Locate.{read_data-write_data_immediately}

-- Every device is a memory; no call fails.
abbrev pub Disk : Type 0
Disk = ℕ → Buffer

abbrev pub overwrite : ℕ → Buffer → ℕ → ℕ → Disk → Disk
overwrite i buf count offset d j a =
    if (j == i) && (leb offset a && ltb a (offset + count)) then buf (a - offset) else d j a

abbrev pub memory : Devices Disk
memory = record {
  p_read = λ i count offset d. some (bytes_at (d i) offset count);
  p_write = λ i buf count offset d. (overwrite i buf count offset d, true);
}

moved_bytes :
    (b c : Buffer) (at from k : ℕ)
    → ((a : ℕ) → from ≤ a → a < from + k → b a ≡ c (a - from + at))
    → bytes_at b from k ≡ bytes_at c at k
unfolding bytes_at
moved_bytes b c at from zero h = refl
moved_bytes b c at from (suc k) h =
    let one : b from ≡ c at = h from (omega arith) (omega arith) ∙ ap c (omega arith) in
    let rest =
      moved_bytes b c (at + 1) (from + 1) k
        (λ a lo hi. h a (omega arith) (omega arith) ∙ ap c (omega (arith, lo))) in
    λ i. one i ∷ rest i

pub memory-IsDisk : IsDisk memory
memory-IsDisk = record {
  read_written = λ i buf count offset k o d w lo hi.
      ap (λ (l : List ℕ). some l)
        (moved_bytes (overwrite i buf count offset d i) buf (o - offset) o k (λ a low high.
          let hit : (i == i && (leb offset a && ltb a (offset + count))) ≡ true = ground arith in
          rw hit (ap buf (omega (arith, lo, low)))));
}

abbrev d1 : Digest
d1 = record { v0 = 1; v1 = 2; v2 = 3; v3 = 4; v4 = 5 }

abbrev d2 : Digest
d2 = record { v0 = 1; v1 = 2; v2 = 3; v3 = 4; v4 = 6 }

abbrev slice_of : List ℕ → List ℕ → Digest → KvSlice
slice_of key content d = record {
  key = key;
  key_length = length key;
  content = some content;
  data_length = length content;
  digest = d;
  entry = no_entry d;
  entry_gc = no_entry d;
  seg_id = 0;
}

abbrev ab : KvSlice
ab = slice_of (97 ∷ 98 ∷ []) (1 ∷ 2 ∷ 3 ∷ []) d1

abbrev c : KvSlice
c = slice_of (99 ∷ []) (7 ∷ []) d2

ab-IsWhole : IsWhole ab
ab-IsWhole = record {
  w0 = omega arith;
  w1 = omega arith;
  w2 = omega arith;
  w3 = omega arith;
  w4 = omega arith;
  key_sized = refl;
  data_sized = refl;
  data_word = omega arith;
}

c-IsWhole : IsWhole c
c-IsWhole = record {
  w0 = omega arith;
  w1 = omega arith;
  w2 = omega arith;
  w3 = omega arith;
  w4 = omega arith;
  key_sized = refl;
  data_sized = refl;
  data_word = omega arith;
}

abbrev segs : SegmentManager
segs = record {
  seg_table = replicate 4 (record { state = free; free_size = 0; death_size = 0 });
  seg_size = 8192;
  seg_num = 4;
  cur_seg_id = 2;
  used_counter = 0;
  freed_counter = 4;
  reserved_counter = 0;
}

-- Volume 0 behind 4096 bytes of metadata, and volume 1.
abbrev vol : ℕ → ℕ → Volume
vol i start = record {
  seg_mgr = segs;
  vol_id = i;
  start_off = start;
  seg_size = 8192;
  seg_num = 4;
  seg_size_bit = 13;
}

vol-IsLaidOut : (i start : ℕ) → IsLaidOut (vol i start)
unfolding log2 halvings
vol-IsLaidOut i start = record { positive = omega arith; exponent = refl; word = omega arith }

abbrev index : IndexManager
index = record {
  hashtable = record { nodes = []; size = 0 } ∷ record { nodes = []; size = 0 } ∷ [];
  ht_size = 2;
  size_ondisk = 4096;
  key_counter = 0;
  data_theory_size = 0;
}

abbrev store : MultiVolume
store = record {
  vols = vol 0 4096 ∷ vol 1 0 ∷ [];
  vol_num = 2;
  seg_size = 8192;
  max_value_len = 8118;
  seg_total_num = 8;
  sst_length_on_disk = 4096;
  last_time = 0;
  pick_vol_id = some 0;
}

abbrev start : State MultiVolume Disk
start = record { world = (index, store); disk = λ i a. 0 }

abbrev clock : ℕ → KvTime
clock k = record { tv_sec = 100; tv_usec = k }

abbrev no_gc : ℕ → State MultiVolume Disk → Option (State MultiVolume Disk × Bool)
no_gc i st = some (st, false)

abbrev blank : Buffer
blank i = 0

abbrev allocated_vol : Volume
allocated_vol = record (vol 1 0) {
  seg_mgr = record segs {
    seg_table =
        record { state = free; free_size = 0; death_size = 0 }
        ∷ record { state = free; free_size = 0; death_size = 0 }
        ∷ record { state = reserved; free_size = 0; death_size = 0 }
        ∷ record { state = free; free_size = 0; death_size = 0 }
        ∷ [];
    reserved_counter = 1;
    freed_counter = 3;
  };
}

allocated_vol-IsLaidOut : IsLaidOut allocated_vol
unfolding log2 halvings
allocated_vol-IsLaidOut = record { positive = omega arith; exponent = refl; word = omega arith }

-- Volume 1 is next; segment 2 is at its cursor.
abbrev allocated : State MultiVolume Disk
allocated = record start {
  world = (index, record store { vols = vol 0 4096 ∷ allocated_vol ∷ []; pick_vol_id = some 1 });
}

abbrev state_after : Option (State MultiVolume Disk × Status) → State MultiVolume Disk
state_after none = start
state_after (some r) = r.0

abbrev written : State MultiVolume Disk
written = state_after (write_data_immediately memory no_gc 4 1 clock 7 blank ab start)

read_data-write_data_immediately_example :
    (e : HashEntry) × (find written.world.0 d1 ≡ some e)
    × (read_data_in memory written.world.1.vols e written.disk ≡ some (ok, 1 ∷ 2 ∷ 3 ∷ []))
    × ((d : Digest) → Digest.eq d1 d ≡ false → find written.world.0 d ≡ find index d)
unfolding set_segs_at alloc_loop write_data_immediately calc_seg_offset_from_id
    LatencyFriendly.try_put LatencyFriendly.make Digest.hash find
read_data-write_data_immediately_example =
    read_data-write_data_immediately memory no_gc 4 1 clock 7 blank allocated_vol 2 16384 ab
      (1 ∷ 2 ∷ 3 ∷ []) start allocated written refl refl refl memory-IsDisk allocated_vol-IsLaidOut
      refl (omega arith) refl refl (omega arith) ab-IsWhole refl (omega arith) refl
      (record { sized = refl; positive = omega arith }) (inl (refl, refl)) refl

-- The same volume alone, with a batch of two.
abbrev batch_written : State MultiVolume Disk × Status
batch_written =
    write_batch memory data_stor (access 1) clock 7 blank allocated_vol 2 (ab ∷ c ∷ []) allocated

read_data-write_batch_example :
    (slices : List KvSlice) × SameData (ab ∷ c ∷ []) slices
    × ((mid : World MultiVolume) × (mid.0 ≡ index)
        × (batch_written.0.world ≡ update_indexes data_stor slices mid))
    × ((n : ℕ) (s : KvSlice) (bytes : List ℕ)
        → get_elem? slices n ≡ some s
        → 0 < data_len s
        → s.content ≡ some bytes
        → read_data memory allocated_vol s.entry batch_written.0.disk ≡ (ok, bytes))
unfolding calc_seg_offset_from_id write_batch Segment.make Segment.try_put Segment.put
read_data-write_batch_example =
    read_data-write_batch data_stor (access 1) memory clock 7 blank allocated_vol 2 16384
      (ab ∷ c ∷ []) allocated memory-IsDisk allocated_vol-IsLaidOut refl (omega arith) (omega arith)
      refl (omega arith) (ab-IsWhole, (c-IsWhole, tt)) refl

-- A segment with the request of a writer.
abbrev request : Request
request = new_request 1 ab 0

abbrev seg : SegForReq
seg = SegForReq.put (clock 0) (SegForReq.make 0 allocated_vol 1000 (clock 0)) request

seg-IsPacked : IsPacked seg.base
unfolding SegForReq.put SegForReq.make Segment.make Segment.try_put
seg-IsPacked =
    (put-IsPacked (Segment.make allocated_vol) ab
      (make-IsPacked allocated_vol (omega arith) (omega arith)) refl).0

write_seg_outcome_example :
    let w = write_seg memory data_stor (access 1) clock 7 blank (clock 9) 2 seg allocated in
    (r' : Request) × (get_elem? w.woken 0 ≡ some r')
    × (r'.id ≡ 1)
    × (r'.done ≡ true)
    × (get_write_stat r' ≡ true
        → read_data memory allocated_vol r'.slice.entry w.state.disk ≡ (ok, 1 ∷ 2 ∷ 3 ∷ []))
unfolding calc_seg_offset_from_id SegForReq.put SegForReq.make Segment.make Segment.put
write_seg_outcome_example =
    write_seg_outcome memory data_stor (access 1) clock 7 blank (clock 9) 2 16384 0 seg allocated
      (record request { seg_ptr = some 0 }) (1 ∷ 2 ∷ 3 ∷ []) memory-IsDisk allocated_vol-IsLaidOut
      refl refl (omega arith) seg-IsPacked refl (ab-IsWhole, tt) refl refl (omega arith)
