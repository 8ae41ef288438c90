-- ===== src/Tier/Turns.antt =====
-- allocSegment of the fast tier over the medium volumes, and what becomes of the requests of SegWrite
-- (Tier.cc).
use hlkvds.Prelude.{
  ℕ, zero, suc, ◌+◌, ◌≤◌, ◌≡◌, refl, sym, ◌∙◌, ap, Bool, true, false, Option, none, some, List, [],
  ◌∷◌, get_elem?, subst, inl, inr, ◌⊎◌, Option-cases,
}
use mathlib.Core.Option.{some-injective, none-ne-some}
use hlkvds.Utils.{KvTime}
use hlkvds.KvSlice.{KvSlice, is_aligned_data}
use hlkvds.Memory.{Buffer}
use hlkvds.SegmentManager.{SegmentManager, reserve, seg_reserved_for_gc, size_of_seg_on_disk}
use hlkvds.SegmentManager.Count.{Inv}
use hlkvds.SegmentManager.Scan.{IsFreeAt}
use hlkvds.SegmentManager.Alloc.{alloc_total}
use hlkvds.Segment.{get_free_size, fill_from, seg_offset}
use hlkvds.SegForReq.{Request, SegForReq, notify, share, set_seg_id, prepare_seg}
use hlkvds.SegForReq.Stamps.{told, told_all}
use hlkvds.VolumeIo.{Devices, State, write}
use hlkvds.SegWrite.{Written, settled, write_filled, write_seg}
use hlkvds.Tier.{
  MultiTier, pick_vol_for_migrate, alloc_fast, migrate_next, alloc_from, alloc_segment, seg_write,
  fast_access, data_stor,
}

module _ {D : Type 0} (dev : Devices D) (fore_migrate : ℕ → State MultiTier D → State MultiTier D)
    (fuel : ℕ) where
  -- The segment table of the fast volume is in order, and the fuel is enough for a round through it.
  abbrev pub IsReady : State MultiTier D → Type 0
  IsReady st = Inv st.world.1.fast.seg_mgr × (st.world.1.fast.seg_mgr.seg_num ≤ fuel)

  -- A migration keeps that.
  abbrev pub KeepsReady : Type 0
  KeepsReady = (i : ℕ) (st : State MultiTier D) → IsReady st → IsReady (fore_migrate i st)

  -- What allocSegment gives: a segment that is reserved now, or none, when the fast volume has
  -- only the reserve left.
  abbrev pub IsAllocated : State MultiTier D × Option ℕ → Type 0
  IsAllocated r =
      ((seg_id : ℕ) × (r.1 ≡ some seg_id)
        × ((m : SegmentManager) × IsFreeAt m.seg_table seg_id
            × (r.0.world.1.fast.seg_mgr ≡ reserve m seg_id)))
      ⊎ (r.1 ≡ none) × (r.0.world.1.fast.seg_mgr.freed_counter ≤ seg_reserved_for_gc)

  alloc_fast_returns :
      (st : State MultiTier D)
      → IsReady st
      → (r : State MultiTier D × Option ℕ) × (alloc_fast dev fore_migrate fuel st ≡ some r)
        × IsAllocated r
        × (r.1 ≡ none → IsReady r.0)
  unfolding alloc_fast
  alloc_fast_returns st (v, f) = elim (alloc_total fuel st.world.1.fast.seg_mgr v f) [
    | inl (few, refused) ↦ ((st, none), rw (refused, alloc_fast) refl, inr (refl, few), λ e. (v, f))
    | inr (enough, (i, here, inside, found)) ↦
        let m = st.world.1.fast.seg_mgr in
        (
          (
            record st { world = (st.world.0, fast_access.set_segs (reserve m i) st.world.1) },
            some i,
          ),
          rw (found, alloc_fast) refl,
          inl (i, refl, (m, here, refl)),
          λ e. absurd (none-ne-some i (sym e)),
        )
  ]

  alloc_from_returns :
      (left : ℕ) (st : State MultiTier D)
      → KeepsReady
      → IsReady st
      → (r : State MultiTier D × Option ℕ) × (alloc_from dev fore_migrate fuel left st ≡ some r)
        × IsAllocated r
  unfolding alloc_from migrate_next pick_vol_for_migrate
  alloc_from_returns zero st k h = let (r, e, a, more) = alloc_fast_returns st h in (r, e, a)
  alloc_from_returns (suc left) st k h =
      let (r, e, a, more) = alloc_fast_returns st h in
      elim (Option-cases r.1) [
        | inr (i, found) ↦ (
          (r.0, some i),
          rw (e, found, alloc_from) refl,
          subst IsAllocated (λ j. (r.0, found j)) a,
        )
        | inl lacking ↦
            let p = pick_vol_for_migrate r.0.world.1 in
            let after = migrate_next dev fore_migrate fuel r.0 in
            let picked = record (r.0) { world = (r.0.world.0, p.0) } in
            let ready : IsReady after = k p.1 picked (more lacking) in
            let (q, e', a') = alloc_from_returns left after k ready in
            (q, rw (e, lacking, alloc_from) e', a')
      ]

  -- Where the fast volume's table is in order and migrations keep it so, allocSegment returns, with
  -- a segment that was free and is reserved now, or with none when only the reserve of the garbage
  -- collector is left.
  pub alloc_segment_returns :
      (st : State MultiTier D)
      → KeepsReady
      → IsReady st
      → (r : State MultiTier D × Option ℕ) × (alloc_segment dev fore_migrate fuel st ≡ some r)
        × IsAllocated r
  unfolding alloc_segment
  alloc_segment_returns st k h = alloc_from_returns st.world.1.medium_vol_num st k h

-- The requests keep their places and addresses when they share the slices.
share_nth :
    (rs : List Request) (l : List KvSlice) (n : ℕ) (r : Request)
    → get_elem? rs n ≡ some r
    → (q : Request) × (get_elem? (share rs l) n ≡ some q) × (q.id ≡ r.id)
unfolding share
share_nth [] l n r h = absurd (none-ne-some r h)
share_nth (x ∷ rs) [] n r h = (r, h, refl)
share_nth (x ∷ rs) (s ∷ l) zero r h =
    (record x { slice = s }, refl, ap (λ (q : Request). q.id) (some-injective x r h))
share_nth (x ∷ rs) (s ∷ l) (suc n) r h = share_nth rs l n r h

-- Request `n` of the list is woken.
abbrev pub IsAnswered : ℕ → Request → List Request → Type 0
IsAnswered n r woken =
    (q : Request) × (get_elem? woken n ≡ some q) × (q.id ≡ r.id) × (q.done ≡ true)

notify_answers :
    (now : KvTime) (b : Bool) (seg : SegForReq) (n : ℕ) (r : Request)
    → get_elem? seg.req_list n ≡ some r
    → IsAnswered n r (notify now b seg).1
unfolding notify
notify_answers now b seg n r h =
    (told now b (0 + n) r, told_all now b 0 seg.req_list n r h, refl, refl)

module _ {D : Type 0} (dev : Devices D) (fore_migrate : ℕ → State MultiTier D → State MultiTier D)
    (fuel : ℕ) (clock : ℕ → KvTime) (now : ℕ) (buf : Buffer) (notify_now : KvTime) where
  settled_answers :
      (seg_id free_size : ℕ) (seg : SegForReq) (st : State MultiTier D) (res : Bool) (n : ℕ)
      (r : Request)
      → get_elem? seg.req_list n ≡ some r
      → IsAnswered n r
          (settled dev data_stor fast_access clock now buf notify_now seg_id free_size seg
            (st, res)).woken
  unfolding settled
  settled_answers seg_id free_size seg st true n r h = notify_answers notify_now true seg n r h
  settled_answers seg_id free_size seg st false n r h = notify_answers notify_now false seg n r h

  abbrev HasPlace : ℕ → Request → SegForReq × Buffer → Type 0
  HasPlace n r p = (q : Request) × (get_elem? p.0.req_list n ≡ some q) × (q.id ≡ r.id)

  write_filled_answers :
      (seg_id free_size : ℕ) (seg : SegForReq) (o : Option (SegForReq × Buffer))
      (st : State MultiTier D) (n : ℕ) (r : Request)
      → get_elem? seg.req_list n ≡ some r
      → ((p : SegForReq × Buffer) → o ≡ some p → HasPlace n r p)
      → IsAnswered n r
          (write_filled dev data_stor fast_access clock now buf notify_now seg_id free_size seg o
            st).woken
  unfolding write_filled
  write_filled_answers seg_id free_size seg none st n r h f =
      settled_answers seg_id free_size seg st false n r h
  write_filled_answers seg_id free_size seg (some p) st n r h f =
      let (q, at, id) = f p refl in
      let b = seg.base in
      let d = write dev b.vol p.1 b.seg_size (seg_offset b.vol seg_id) st.disk in
      let (a, got, id', done) =
        settled_answers seg_id free_size p.0 (record st { disk = d.0 }) d.1 n q at in
      (a, got, id' ∙ id, done)

  prepare_seg_keeps :
      (seg : SegForReq) (seg_id n : ℕ) (r : Request) (p : SegForReq × Buffer)
      → get_elem? seg.req_list n ≡ some r
      → prepare_seg clock buf now (set_seg_id seg seg_id) ≡ some p
      → HasPlace n r p
  unfolding prepare_seg
  prepare_seg_keeps seg seg_id n r p h e =
      let b = seg.base in
      let slices =
        (fill_from is_aligned_data b.vol seg_id clock 0 size_of_seg_on_disk b.seg_size
          b.slice_list).0 in
      subst (HasPlace n r) (some-injective _ p e) (share_nth seg.req_list slices n r h)

  -- SegWrite of the fast tier returns, and every request of the segment is woken, whether the
  -- segment was written or not.
  pub seg_write_answers :
      (seg : SegForReq) (st : State MultiTier D)
      → KeepsReady dev fore_migrate fuel
      → IsReady dev fore_migrate fuel st
      → (w : Written MultiTier D) × (seg_write dev fore_migrate fuel clock now buf notify_now seg st
          ≡ some w)
        × ((n : ℕ) (r : Request) → get_elem? seg.req_list n ≡ some r → IsAnswered n r w.woken)
  unfolding seg_write write_seg
  seg_write_answers seg st k h =
      let (r, e, a) = alloc_segment_returns dev fore_migrate fuel st k h in
      elim (Option-cases r.1) [
        | inl lacking ↦
            let m = notify notify_now false seg in
            (
              record { state = r.0; seg = m.0; woken = m.1 },
              rw (e, lacking, seg_write) refl,
              λ n q at. notify_answers notify_now false seg n q at,
            )
        | inr (seg_id, found) ↦ (
          write_seg dev data_stor fast_access clock now buf notify_now seg_id seg r.0,
          rw (e, found, seg_write) refl,
          λ n q at.
              write_filled_answers seg_id (get_free_size seg.base) (set_seg_id seg seg_id)
                (prepare_seg clock buf now (set_seg_id seg seg_id)) r.0 n q at
                (λ p f. prepare_seg_keeps seg seg_id n q p at f),
        )
      ]
