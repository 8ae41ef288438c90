-- ===== src/SegForReq.antt =====
-- Request and SegForReq of Segment.h and Segment.cc: a write that waits for its segment, and the
-- segment that collects such writes. A request is an object that the writer's thread shares with the
-- segment; `id` stands for its address, and so does `id` of a segment, which a request points to.
-- The slices of `base` are those of the requests, in the same order. A segment's methods hold its
-- mutex, or are called by the one thread that has the segment.
pub mod Merge
pub mod Run
pub mod Writers
pub mod Stamps
use hlkvds.Prelude.{
  ℕ, zero, suc, ◌+◌, ◌-◌, ◌*◌, Bool, true, false, Option, none, some, List, [], ◌∷◌, ◌++◌, ltb, not,
  ◌==◌, if◌then◌else◌, map, u32_sub,
}
use hlkvds.HashEntry.{HashEntry}
use hlkvds.IndexManager.{DataStor, World, remove_entry}
use hlkvds.KvSlice.{KvSlice}
use hlkvds.Memory.{Buffer}
use hlkvds.Utils.{KvTime}
use hlkvds.Volume.{Volume}
use hlkvds.Segment.{SegBase, prepare}
use hlkvds.Segment

-- Request::ReqStat
pub data ReqStat : Type 0 where
  init fail success : ReqStat

pub record Request : Type 0 where
  pub id : ℕ
  pub done : Bool
  pub stat : ReqStat
  pub slice : KvSlice
  pub seg_ptr : Option ℕ
  pub shards_wq_id : ℕ

-- Request(slice), and SetShardsWQId
abbrev pub new_request : ℕ → KvSlice → ℕ → Request
new_request id slice shard = record {
  id = id;
  done = false;
  stat = init;
  slice = slice;
  seg_ptr = none;
  shards_wq_id = shard;
}

abbrev pub set_write_stat : Request → Bool → Request
set_write_stat r b = record r { stat = if b then success else fail }

abbrev pub get_write_stat : Request → Bool
get_write_stat r = elim r.stat [ success ↦ true | _ ↦ false ]

-- Signal; Wait ends once `done_` is set.
abbrev pub signal : Request → Request
signal r = record r { done = true }

-- GetData of a slice is a null pointer.
abbrev pub is_delete : Request → Bool
is_delete r = elim r.slice.content [ none ↦ true | some _ ↦ false ]

pub record SegForReq : Type 0 where
  pub id : ℕ
  pub base : SegBase
  pub timeout : ℕ
  pub start_time : KvTime
  pub persist_time : KvTime
  pub is_completion : Bool
  pub has_req : Bool
  pub req_commited : ℕ
  pub req_list : List Request
  pub del_req_list : List HashEntry

-- SegForReq(vol, im, timeout); the two times are the time of the construction.
unfoldable pub make : ℕ → Volume → ℕ → KvTime → SegForReq
unfolding Segment.make
make id vol timeout now = record {
  id = id;
  base = Segment.make vol;
  timeout = timeout;
  start_time = now;
  persist_time = now;
  is_completion = false;
  has_req = false;
  req_commited = 0;
  req_list = [];
  del_req_list = [];
}

unfoldable pub try_put : SegForReq → Request → Bool
unfolding Segment.try_put
try_put seg r = if seg.is_completion then false else Segment.try_put seg.base r.slice

-- Put, with SetSeg on the request. The first request starts the clock.
unfoldable pub put : KvTime → SegForReq → Request → SegForReq
unfolding Segment.put
put now seg r = record seg {
  base = Segment.put seg.base r.slice;
  has_req = if seg.base.key_num == 0 then true else seg.has_req;
  start_time = if seg.base.key_num == 0 then now else seg.start_time;
  req_list = seg.req_list ++ record r { seg_ptr = some seg.id } ∷ [];
}

abbrev pub completion : SegForReq → SegForReq
completion seg = record seg { is_completion = true }

-- SetSegId
abbrev pub set_seg_id : SegForReq → ℕ → SegForReq
set_seg_id seg i = let b = seg.base in record seg { base = record b { seg_id = some i } }

-- A write fills in the entries of the slices, which the requests share.
unfoldable pub share : List Request → List KvSlice → List Request
share [] l = []
share (r ∷ rs) [] = r ∷ rs
share (r ∷ rs) (s ∷ l) = record r { slice = s } ∷ share rs l

-- WriteSegToDevice up to the write: the segment with its slices filled in, and the image.
unfoldable pub prepare_seg : (ℕ → KvTime) → Buffer → ℕ → SegForReq → Option (SegForReq × Buffer)
unfolding prepare share
prepare_seg clock buf now seg = elim (prepare clock buf now seg.base) [
  | none ↦ none
  | some r ↦
      let b = seg.base in
      some (
        record seg { base = record b { slice_list = r.0 }; req_list = share seg.req_list r.0 },
        r.1,
      )
]

-- SetLogicStamp on the entry of a request's slice.
abbrev pub stamped : KvTime → ℕ → Request → Request
stamped now key_no r =
    let s = r.slice in
    let e = s.entry in
    record r {
      slice = record s { entry = record e { stamp = record { seg_time = now; key_no = key_no } } };
    }

-- The first loop of Notify, with `keyNo`.
unfoldable pub stamp_all : KvTime → ℕ → List Request → List Request
stamp_all now key_no [] = []
stamp_all now key_no (r ∷ rs) = stamped now (suc key_no) r ∷ stamp_all now (suc key_no) rs

-- The entries that it adds to `delReqList_`.
unfoldable pub deleted_entries : List Request → List HashEntry
deleted_entries [] = []
deleted_entries (r ∷ rs) =
    let rest = deleted_entries rs in if is_delete r then r.slice.entry ∷ rest else rest

-- The second loop of Notify takes the requests off the list.
unfoldable pub signal_all : Bool → List Request → List Request
signal_all b [] = []
signal_all b (r ∷ rs) = signal (set_write_stat r b) ∷ signal_all b rs

-- Notify: the segment, and the requests as their writers see them.
unfoldable pub notify : KvTime → Bool → SegForReq → SegForReq × List Request
unfolding stamp_all deleted_entries signal_all
notify now b seg =
    let stamped_reqs = stamp_all now 0 seg.req_list in
    (
      record seg {
        req_commited = seg.base.key_num;
        persist_time = now;
        req_list = [];
        del_req_list = seg.del_req_list ++ deleted_entries stamped_reqs;
      },
      signal_all b stamped_reqs,
    )

-- `nowTime - startTime_` in microseconds. A time before the start gives a negative number, which is
-- above no timeout, as 0 is.
abbrev pub interval : KvTime → KvTime → ℕ
interval now start = now.tv_sec * 1000000 + now.tv_usec - (start.tv_sec * 1000000 + start.tv_usec)

unfoldable pub is_expired : KvTime → SegForReq → Bool
is_expired now seg = if seg.has_req then ltb seg.timeout (interval now seg.start_time) else false

-- CommitedAndGetNum: the number after the decrement, as a word of 32 bits.
unfoldable pub commited_and_get_num : SegForReq → SegForReq × ℕ
commited_and_get_num seg =
    let n = u32_sub seg.req_commited 1 in (record seg { req_commited = n }, n)

-- CleanDeletedEntry on the index.
unfoldable pub clean_entries : {S : Type 0} → DataStor S → List HashEntry → World S → World S
unfolding remove_entry
clean_entries ds [] w = w
clean_entries ds (e ∷ l) w = clean_entries ds l (remove_entry ds e w)

unfoldable pub clean_deleted_entry :
    {S : Type 0} → DataStor S → SegForReq → World S → SegForReq × World S
unfolding clean_entries
clean_deleted_entry ds seg w =
    (record seg { del_req_list = [] }, clean_entries ds seg.del_req_list w)
