-- ===== src/SegWrite.antt =====
-- The end of an aggregated write, once the segment has its number: SegWrite from SetSegId on, and
-- updateMeta of the request that was woken, with the reaper behind it (DS_MultiVolume_Impl.cc,
-- IndexManager.cc; Tier.cc has the same code).
pub mod Outcome
use hlkvds.Prelude.{
  ℕ, ◌+◌, Bool, true, false, Option, none, some, List, [], ◌∷◌, ◌++◌, ◌==◌, if◌then◌else◌, set,
  get_elem?,
}
use hlkvds.Utils.{KvTime}
use hlkvds.KvSlice.{KvSlice}
use hlkvds.Memory.{Buffer}
use hlkvds.IndexManager.{DataStor, World, update_index}
use hlkvds.Segment.{seg_offset, get_free_size}
use hlkvds.SegForReq.{
  Request, SegForReq, get_write_stat, set_seg_id, prepare_seg, notify, commited_and_get_num,
  clean_deleted_entry,
}
use hlkvds.VolumeIo.{Devices, Access, State, write, give_back, take_in_use}
use hlkvds.Kvds.{Status, ok, aborted}

-- What SegWrite leaves: the state, the segment, and the requests that Notify woke.
pub record Written (S D : Type 0) : Type 0 where
  pub state : State S D
  pub seg : SegForReq
  pub woken : List Request

module _ {S D : Type 0} (dev : Devices D) (ds : DataStor S) (access : Access S) (clock : ℕ → KvTime)
    (now : ℕ) (buf : Buffer) (notify_now : KvTime) where
  -- Notify with the result; `seg` is the segment after the write.
  unfoldable pub notified : State S D → Bool → SegForReq → Written S D
  unfolding notify
  notified st res seg =
      let n = notify notify_now res seg in record { state = st; seg = n.0; woken = n.1 }

  -- Use or FreeForFailed by the result of the write.
  unfoldable pub settled : ℕ → ℕ → SegForReq → State S D × Bool → Written S D
  unfolding take_in_use give_back notified
  settled seg_id free_size seg (st, true) =
      notified (take_in_use dev ds access clock now buf seg_id free_size st) true seg
  settled seg_id free_size seg (st, false) =
      notified (give_back dev ds access clock now buf seg_id st) false seg

  -- WriteSegToDevice, which gives the filled segment and the image or fails, and what follows it.
  unfoldable pub write_filled :
      ℕ → ℕ → SegForReq → Option (SegForReq × Buffer) → State S D → Written S D
  unfolding write settled
  write_filled seg_id free_size seg none st = settled seg_id free_size seg (st, false)
  write_filled seg_id free_size seg (some p) st =
      let b = seg.base in
      let (d, res) = write dev b.vol p.1 b.seg_size (seg_offset b.vol seg_id) st.disk in
      settled seg_id free_size p.0 (record st { disk = d }, res)

  -- SegWrite once the number is there. The free size is taken before the write.
  unfoldable pub write_seg : ℕ → SegForReq → State S D → Written S D
  unfolding get_free_size prepare_seg write_filled
  write_seg seg_id seg st =
      let numbered = set_seg_id seg seg_id in
      write_filled seg_id (get_free_size seg.base) numbered (prepare_seg clock buf now numbered) st

-- The segments whose requests are not all committed, by their place, and those that the reaper has.
pub record Commits : Type 0 where
  pub live : List SegForReq
  pub reaped : List SegForReq

-- updateMeta; a request without a segment or with an unknown one is a bad pointer.
unfoldable pub update_meta :
    {S : Type 0} → DataStor S → Request → World S × Commits → Option (World S × Commits × Status)
unfolding update_index commited_and_get_num
update_meta ds req (w, c) =
    if get_write_stat req
    then elim req.seg_ptr [
      | none ↦ none
      | some i ↦ elim (get_elem? c.live i) [
        | none ↦ none
        | some seg ↦
            let (seg', left) = commited_and_get_num seg in
            let live' = set c.live i seg' in
            let reaped' = if left == 0 then c.reaped ++ seg' ∷ [] else c.reaped in
            some ((update_index ds req.slice w).0, record { live = live'; reaped = reaped' }, ok)
      ]
    ]
    else some (w, c, aborted)

-- SegReaper's `_process`: CleanDeletedEntry of the oldest segment, which is then freed.
unfoldable pub reap : {S : Type 0} → DataStor S → World S × Commits → World S × Commits
unfolding clean_deleted_entry
reap ds (w, c) = elim c.reaped [
  | [] ↦ (w, c)
  | ◌∷◌ seg q ↦ ((clean_deleted_entry ds seg w).1, record c { reaped = q })
]
