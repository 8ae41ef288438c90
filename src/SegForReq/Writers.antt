-- ===== src/SegForReq/Writers.antt =====
-- The segments that the writer threads fill, one per shard, with the queue of full segments: ReqMerge
-- and the timeout of the data stores (DS_MultiVolume_Impl.cc; Tier.cc has the same code). A shard's
-- mutex is held for the whole of each. `none` stands for a shard that is not there.
use hlkvds.Prelude.{
  ℕ, zero, suc, ◌+◌, true, false, Option, none, some, List, [], ◌∷◌, ◌++◌, set, get_elem?,
}
use hlkvds.Utils.{KvTime}
use hlkvds.Volume.{Volume}
use hlkvds.SegForReq.{Request, SegForReq, completion, is_expired}
use hlkvds.SegForReq

-- `segMap_`, the tasks of `segWteWQ_`, oldest first, and the address of the next segment.
pub record Writers : Type 0 where
  pub segs : List SegForReq
  pub queue : List SegForReq
  pub fresh : ℕ

-- `pick` is the choice of a volume for a new segment, over a state of its own; `now` is the time.
module _ {S : Type 0} (pick : S → S × Volume) (timeout : ℕ) where
  -- InitSegmentBuffer and CreateAllSegments: a segment for each of `n` shards.
  unfoldable pub create_segments : KvTime → ℕ → Writers × S → Writers × S
  unfolding SegForReq.make
  create_segments now zero (w, s) = (w, s)
  create_segments now (suc n) (w, s) =
      let (s', vol) = pick s in
      create_segments now n (
        record w {
          segs = w.segs ++ SegForReq.make w.fresh vol timeout now ∷ [];
          fresh = w.fresh + 1;
        },
        s',
      )

  -- Hands the segment of a shard over to be written, and puts a new one in its place.
  unfoldable pub renew :
      KvTime → ℕ → SegForReq → (SegForReq → SegForReq) → Writers × S → Writers × S
  unfolding SegForReq.make
  renew now shard seg first (w, s) =
      let (s', vol) = pick s in
      (
        record {
          segs = set w.segs shard (first (SegForReq.make w.fresh vol timeout now));
          queue = w.queue ++ completion seg ∷ [];
          fresh = w.fresh + 1;
        },
        s',
      )

  unfoldable pub req_merge : KvTime → Request → Writers × S → Option (Writers × S)
  unfolding renew SegForReq.try_put SegForReq.put
  req_merge now r (w, s) = elim (get_elem? w.segs r.shards_wq_id) [
    | none ↦ none
    | some seg ↦ elim (SegForReq.try_put seg r) [
      | true ↦ some (record w { segs = set w.segs r.shards_wq_id (SegForReq.put now seg r) }, s)
      | false ↦ some (renew now r.shards_wq_id seg (λ new. SegForReq.put now new r) (w, s))
    ]
  ]

  -- One round of the timeout thread over the `n` shards from `shard` on.
  unfoldable pub timeout_round : KvTime → ℕ → ℕ → Writers × S → Option (Writers × S)
  unfolding renew is_expired
  timeout_round now zero shard st = some st
  timeout_round now (suc n) shard (w, s) = elim (get_elem? w.segs shard) [
    | none ↦ none
    | some seg ↦ elim (is_expired now seg) [
      | true ↦ timeout_round now n (suc shard) (renew now shard seg (λ new. new) (w, s))
      | false ↦ timeout_round now n (suc shard) (w, s)
    ]
  ]

-- The oldest task goes to SegWrite.
unfoldable pub take_task : Writers → Option (SegForReq × Writers)
take_task w = elim w.queue [ [] ↦ none | ◌∷◌ seg q ↦ some (seg, record w { queue = q }) ]
