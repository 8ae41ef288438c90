-- ===== src/MultiVolume/Serve.antt =====
-- The aggregated writes of DS_MultiVolume_Impl.cc: writeDataAggregate around what the threads do,
-- and SegWrite of the writer threads.
use hlkvds.Prelude.{
  ℕ, zero, suc, ◌≡◌, refl, sym, ◌∙◌, ap, Bool, true, false, Option, none, some, List, [], ◌∷◌, ◌++◌,
  set, get_elem?,
}
use mathlib.Core.Option.{some-injective}
use mathlib.Core.List.{append-nil}
use hlkvds.Utils.{KvTime}
use hlkvds.KvSlice.{KvSlice}
use hlkvds.Memory.{Buffer}
use hlkvds.SegmentManager.{alloc}
use hlkvds.Volume.{Volume}
use hlkvds.SegForReq.{Request, SegForReq, new_request, notify}
use hlkvds.VolumeIo.{Devices, State}
use hlkvds.Kvds.{Status}
use hlkvds.SegWrite.{Written, Commits, write_seg, update_meta}
use hlkvds.MultiVolume.{MultiVolume, calc_shard_id, data_stor, set_segs_at, access}

-- The state of the store with the segments whose requests are not all committed.
abbrev pub Serving : Type 0 → Type 0
Serving D = State MultiVolume D × Commits

module _ {D : Type 0} where
  -- Add_task, Wait and updateMeta. `serve` is what the threads do until the request is woken: the
  -- request as it is then; `id` is its address.
  unfoldable pub write_data_aggregate :
      (Request → Serving D → Option (Serving D × Request))
      → ℕ
      → ℕ
      → KvSlice
      → Serving D
      → Option (Serving D × Status)
  unfolding update_meta calc_shard_id
  write_data_aggregate serve shards_num id slice s =
      elim (serve (new_request id slice (calc_shard_id shards_num slice)) s) [
        | none ↦ none
        | some r ↦ elim (update_meta data_stor r.1 (r.0.0.world, r.0.1)) [
          | none ↦ none
          | some u ↦ let st = r.0.0 in some ((record st { world = u.0 }, u.1), u.2)
        ]
      ]

module _ {D : Type 0} (dev : Devices D)
    (fore_gc : ℕ → State MultiVolume D → Option (State MultiVolume D × Bool)) (fuel : ℕ)
    (clock : ℕ → KvTime) (now : ℕ) (buf : Buffer) (notify_now : KvTime) where
  -- The loop on Alloc and ForeGC of SegWrite: after a failed ForeGC the requests are woken, and the
  -- loop goes on. What is left of the segment, the requests woken so far, and the number; no number
  -- where the rounds are used up in the loop. `none` is an Alloc or a ForeGC that does not return.
  unfoldable pub seg_write_loop :
      ℕ
      → ℕ
      → SegForReq
      → List Request
      → State MultiVolume D
      → Option (State MultiVolume D × SegForReq × List Request × Option ℕ)
  unfolding alloc notify
  seg_write_loop zero i seg woken st = some (st, seg, woken, none)
  seg_write_loop (suc rounds) i seg woken st = elim (get_elem? st.world.1.vols i) [
    | none ↦ none
    | some v ↦ elim (alloc fuel v.seg_mgr) [
      | none ↦ none
      | some r ↦
          let s = st.world.1 in
          let taken = record st {
            world = (st.world.0, record s { vols = set_segs_at i r.0 s.vols });
          } in
          elim r.1 [
            | some seg_id ↦ some (taken, seg, woken, some seg_id)
            | none ↦ elim (fore_gc i taken) [
              | none ↦ none
              | some g ↦ elim g.1 [
                | true ↦ seg_write_loop rounds i seg woken g.0
                | false ↦
                    let n = notify notify_now false seg in
                    seg_write_loop rounds i n.0 (woken ++ n.1) g.0
              ]
            ]
          ]
    ]
  ]

  unfoldable pub seg_write : ℕ → SegForReq → State MultiVolume D → Option (Written MultiVolume D)
  unfolding seg_write_loop write_seg
  seg_write rounds seg st =
      let i = seg.base.vol.vol_id in
      elim (seg_write_loop rounds i seg [] st) [
        | none ↦ none
        | some r ↦ elim r.3 [
          | none ↦ none
          | some seg_id ↦
              let w = write_seg dev data_stor (access i) clock now buf notify_now seg_id r.1 r.0 in
              some (record w { woken = r.2 ++ w.woken })
        ]
      ]

  set_same :
      (vols : List Volume) (i : ℕ) (v : Volume) → get_elem? vols i ≡ some v → set vols i v ≡ vols
  set_same [] i v h = refl
  set_same (x ∷ l) zero v h = ap (λ (y : Volume). y ∷ l) (sym (some-injective x v h))
  set_same (x ∷ l) (suc i) v h = ap (λ (k : List Volume). x ∷ k) (set_same l i v h)

  -- The volume is full, and collecting does not change that.
  pub record IsStuck (i : ℕ) (st : State MultiVolume D) : Type 0 where
    pub vol : Volume
    pub there : get_elem? st.world.1.vols i ≡ some vol
    pub full : alloc fuel vol.seg_mgr ≡ some (vol.seg_mgr, none)
    pub vain : fore_gc i st ≡ some (st, false)

  set_segs_same :
      (i : ℕ) (v : Volume) (vols : List Volume)
      → get_elem? vols i ≡ some v
      → set_segs_at i v.seg_mgr vols ≡ vols
  unfolding set_segs_at
  set_segs_same i v vols h = rw (h, set_segs_at) (set_same vols i v h)

  -- One round of the loop on such a volume.
  seg_write_loop_round :
      (rounds i : ℕ) (seg : SegForReq) (woken : List Request) (st : State MultiVolume D)
      → IsStuck i st
      → let n = notify notify_now false seg in
        seg_write_loop (suc rounds) i seg woken st ≡ seg_write_loop rounds i n.0 (woken ++ n.1) st
  unfolding seg_write_loop
  seg_write_loop_round rounds i seg woken st h =
      let n = notify notify_now false seg in
      let s = st.world.1 in
      let same = set_segs_same i h.vol s.vols h.there in
      let vain' : fore_gc i (record st {
        world = (st.world.0, record s { vols = set_segs_at i h.vol.seg_mgr s.vols });
      })
          ≡ some (st, false) =
        (λ j. fore_gc i (record st { world = (st.world.0, record s { vols = same j }) }))
        ∙ h.vain in
      rw (h.there, h.full, vain', seg_write_loop) refl

  -- A segment whose requests were all woken stays as it is.
  seg_write_loop_woken :
      (rounds i : ℕ) (seg : SegForReq) (woken : List Request) (st : State MultiVolume D)
      → IsStuck i st
      → notify notify_now false seg ≡ (seg, [])
      → seg_write_loop rounds i seg woken st ≡ some (st, seg, woken, none)
  unfolding seg_write_loop
  seg_write_loop_woken zero i seg woken st h empty = refl
  seg_write_loop_woken (suc rounds) i seg woken st h empty =
      seg_write_loop_round rounds i seg woken st h
      ∙ (λ j. seg_write_loop rounds i (empty j).0 (woken ++ (empty j).1) st)
      ∙ ap (λ (l : List Request). seg_write_loop rounds i seg l st) (append-nil woken)
      ∙ seg_write_loop_woken rounds i seg woken st h empty

  notify_again :
      (seg : SegForReq)
      → notify notify_now false (notify notify_now false seg).0
        ≡ ((notify notify_now false seg).0, [])
  unfolding notify
  notify_again seg =
      let once = (notify notify_now false seg).0 in
      λ j. (record once { del_req_list = append-nil once.del_req_list j }, [])

  -- When the volume has no segment to give and ForeGC fails, SegWrite wakes the requests with a
  -- failure in its first round, as Notify does, and then tries again: after any further number of
  -- rounds it is still in the loop, nothing more is woken and nothing has changed. If nothing else
  -- frees a segment it never returns, and its thread is lost.
  pub seg_write_stuck :
      (rounds : ℕ) (seg : SegForReq) (st : State MultiVolume D)
      → IsStuck seg.base.vol.vol_id st
      → let n = notify notify_now false seg in
        (seg_write_loop (suc rounds) seg.base.vol.vol_id seg [] st ≡ some (st, n.0, n.1, none))
        × (seg_write (suc rounds) seg st ≡ none)
  unfolding seg_write
  seg_write_stuck rounds seg st h =
      let n = notify notify_now false seg in
      let i = seg.base.vol.vol_id in
      let stays =
        seg_write_loop_round rounds i seg [] st h
        ∙ seg_write_loop_woken rounds i n.0 n.1 st h (notify_again seg) in
      (stays, rw (stays, seg_write) refl)
