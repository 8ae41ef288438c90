-- ===== src/Gc/Unread.antt =====
-- doMerge where no candidate can be read.
use hlkvds.Prelude.{ℕ, ◌≡◌, refl, ◌∙◌, Bool, true, Option, none, some, List, [], ◌∷◌, ap}
use hlkvds.KvSlice.{KvSlice}
use hlkvds.Memory.{Buffer}
use hlkvds.SegmentManager.{SegmentManager, alloc_for_gc, use_seg}
use hlkvds.Utils.{KvTime}
use hlkvds.Volume.{Volume}
use hlkvds.Gc.{mark_gc, load_kv_list}
use hlkvds.IndexManager.{IndexManager, DataStor, update_indexes}
use hlkvds.Segment.{SegBase, make, get_free_size, prepare}
use hlkvds.Gc.Merge.{
  Gathered, gather, GcState, segs_of, set_segs, write_merged, free_all, merge_first, do_merge,
}

load_kv_list-unread :
    (read : ℕ → Option Buffer) (clock : ℕ → KvTime) (vol : Volume) (im : IndexManager)
    → ((o : ℕ) → read o ≡ none)
    → (i : ℕ) → load_kv_list mark_gc read clock vol im i ≡ none
unfolding load_kv_list
load_kv_list-unread read clock vol im h i = rw (load_kv_list, h _) refl

gather-unread :
    (load : ℕ → Option (List KvSlice)) (seg : SegBase) (freed : List ℕ) (cands : List (ℕ × ℕ))
    → ((i : ℕ) → load i ≡ none)
    → gather load seg freed cands ≡ (record { seg = seg; rest = []; last = none; freed = freed })
unfolding gather
gather-unread load seg freed [] h = refl
gather-unread load seg freed (c ∷ cands) h =
    rw (gather, h c.1) (gather-unread load seg freed cands h)

module _ (ds : DataStor Volume) (write : ℕ → Buffer → Bool) (clock : ℕ → KvTime)
    (now unset fuel : ℕ) (buf : Buffer) where
  write_merged_ok :
      (seg : SegBase) (seg_id : ℕ) (g : GcState)
      → ((o : ℕ) (b : Buffer) → write o b ≡ true)
      → (write_merged ds write clock now unset fuel buf seg seg_id g).1 ≡ true
  unfolding write_merged prepare
  write_merged_ok seg seg_id g w = rw (w _ _) refl

  -- An empty segment that is written is in use, and nothing goes into the index.
  write_merged_used :
      (g : GcState) (seg_id : ℕ) (m : SegmentManager)
      → ((o : ℕ) (b : Buffer) → write o b ≡ true)
      → let g' =
          (write_merged ds write clock now unset fuel buf
            (make g.world.1)
            seg_id
            (set_segs g m)).0 in
        (segs_of g' ≡ use_seg m seg_id (get_free_size (make g.world.1))) × (g'.world.0 ≡ g.world.0)
  unfolding write_merged prepare update_indexes make
  write_merged_used g seg_id m w = rw (w _ _) (refl, refl)

  merge_first_ok :
      (seg : SegBase) (seg_id : ℕ) (g : GcState) (m : SegmentManager)
      → (write_merged ds write clock now unset fuel buf seg seg_id (set_segs g m)).1 ≡ true
      → merge_first ds write clock now unset fuel buf
          (record { seg = seg; rest = []; last = none; freed = [] })
          (m, some seg_id)
          g
        ≡ some (
          (write_merged ds write clock now unset fuel buf seg seg_id (set_segs g m)).0,
          4294967295,
        )
  unfolding merge_first free_all
  merge_first_ok seg seg_id g m ok = rw (merge_first, ok) refl

  -- doMerge subtracts 1 from the number of freed segments without a test: where no candidate can be
  -- read, it reports 4294967295 freed ones, although it has freed none. It has used up the segment that
  -- AllocForGC gave it: the segment tables have this segment in use, with all its size free, and are
  -- otherwise as AllocForGC left them. The index is as it was. ForeGC takes that for success.
  pub do_merge-unread :
      (read : ℕ → Option Buffer) (cands : List (ℕ × ℕ)) (g : GcState) (m : SegmentManager)
      (seg_id : ℕ)
      → ((o : ℕ) → read o ≡ none)
      → ((o : ℕ) (b : Buffer) → write o b ≡ true)
      → alloc_for_gc fuel (segs_of g) ≡ some (m, some seg_id)
      → (g' : GcState) × (do_merge ds write clock now unset fuel buf read cands g
          ≡ some (g', 4294967295))
        × (segs_of g' ≡ use_seg m seg_id (get_free_size (make g.world.1)))
        × (g'.world.0 ≡ g.world.0)
  unfolding do_merge free_all
  do_merge-unread read cands g m seg_id h w a =
      let load = load_kv_list mark_gc read clock g.world.1 g.world.0 in
      let first =
        gather-unread load (make g.world.1) [] cands
          (load_kv_list-unread read clock g.world.1 g.world.0 h) in
      let done =
        write_merged ds write clock now unset fuel buf (make g.world.1) seg_id (set_segs g m) in
      let used = write_merged_used g seg_id m w in
      let ok = write_merged_ok (make g.world.1) seg_id (set_segs g m) w in
      (
        done.0,
        (λ i. elim (a i) [
          | none ↦ none
          | some r ↦
              merge_first ds write clock now unset fuel buf (gather load (make g.world.1) [] cands)
                r g
        ])
            ∙ ap
                (λ (f : Gathered).
                  merge_first ds write clock now unset fuel buf f (m, some seg_id) g)
                first
            ∙ merge_first_ok (make g.world.1) seg_id g m ok,
        used.0,
        used.1,
      )
