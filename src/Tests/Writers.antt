-- ===== src/Tests/Writers.antt =====
-- The segments of two shards, with a few requests.
use hlkvds.Prelude.{
  ℕ, zero, suc, length, ◌+◌, ◌≡◌, refl, true, Option, none, some, List, [], ◌∷◌, ◌++◌, get_elem?,
}
use hlkvds.Utils.{KvTime}
use hlkvds.Digest.{Digest}
use hlkvds.KvSlice.{KvSlice, no_entry}
use hlkvds.Volume.{Volume}
use hlkvds.SegForReq.{Request, SegForReq, new_request, get_write_stat, notify, is_expired}
use hlkvds.SegForReq
use hlkvds.SegForReq.Writers.{Writers}
use hlkvds.SegForReq.Merge.{ids, queued, stream, IsSorted}
use hlkvds.SegForReq.Run.{Event, merges, times, takes, merged, event, run, run-history}
use hlkvds.SegForReq.Stamps.{notify-stamps}

abbrev d : Digest
d = record { v0 = 1; v1 = 2; v2 = 3; v3 = 4; v4 = 5 }

abbrev slice : ℕ → KvSlice
slice x = record {
  key = x ∷ [];
  key_length = 1;
  content = some (x ∷ []);
  data_length = 1;
  digest = d;
  entry = no_entry d;
  entry_gc = no_entry d;
  seg_id = 0;
}

abbrev vol : Volume
vol = record {
  seg_mgr = record {
    seg_table = [];
    seg_size = 100;
    seg_num = 0;
    cur_seg_id = 0;
    used_counter = 0;
    freed_counter = 0;
    reserved_counter = 0;
  };
  vol_id = 0;
  start_off = 0;
  seg_size = 100;
  seg_num = 0;
  seg_size_bit = 6;
}

abbrev at : ℕ → KvTime
at n = record { tv_sec = n; tv_usec = 0 }

abbrev pick : ℕ → ℕ × Volume
pick n = (n + 1, vol)

-- Two requests for shard 0, of which only one fits into a segment, and one for shard 1.
abbrev request : ℕ → ℕ → Request
request id shard = new_request id (slice id) shard

abbrev seg : ℕ → SegForReq
seg id = SegForReq.make id vol 10 (at 0)

abbrev writers : Writers
writers = record { segs = seg 0 ∷ seg 1 ∷ []; queue = []; fresh = 2 }

writers-IsSorted : IsSorted writers.segs
unfolding ids SegForReq.make
writers-IsSorted zero k n = refl
writers-IsSorted (suc zero) k n = refl
writers-IsSorted (suc (suc i)) k n = refl

abbrev events : List Event
events =
    merges (at 1) (request 1 0)
    ∷ merges (at 2) (request 2 1)
    ∷ merges (at 3) (request 3 0)
    ∷ takes
    ∷ times (at 100)
    ∷ []

abbrev ended : Option (List SegForReq × Writers × ℕ) → List SegForReq × Writers × ℕ
ended none = ([], writers, 0)
ended (some st) = st

abbrev after : List SegForReq × Writers × ℕ
after = ended (run pick 10 2 events ([], writers, 0))

run-history_example :
    queued 0 after.0 ++ stream 0 after.1
    ≡ (queued 0 [] ++ stream 0 writers) ++ ids 0 (merged events)
unfolding run event
run-history_example = run-history pick 10 2 events ([], writers, 0) after writers-IsSorted refl 0

merged-ids_test : ids 0 (merged events) ≡ 1 ∷ 3 ∷ []
unfolding ids
merged-ids_test = refl

abbrev filled : SegForReq
filled = SegForReq.put (at 1) (SegForReq.put (at 1) (seg 0) (request 1 0)) (request 3 0)

notify-stamps_example :
    (length (notify (at 5) true filled).1 ≡ 2)
    × ((r' : Request) × (get_elem? (notify (at 5) true filled).1 1 ≡ some r')
        × (r'.id ≡ 3)
        × (r'.done ≡ true)
        × (get_write_stat r' ≡ true)
        × (r'.slice.entry.stamp ≡ record { seg_time = at 5; key_no = 2 }))
unfolding SegForReq.put SegForReq.make
notify-stamps_example =
    notify-stamps (at 5) true filled 1 (record (request 3 0) { seg_ptr = some 0 }) refl
