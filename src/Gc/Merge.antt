-- ===== src/Gc/Merge.antt =====
-- GcManager::doMerge and Migrate::doMigrate. The calls to the segment table, to the index and to
-- the device are steps on one state in the order of the code; the device keeps the images that were
-- written, newest last.
use hlkvds.Prelude.{
  ℕ, Bool, true, false, Option, none, some, List, [], ◌∷◌, ◌++◌, if◌then◌else◌, length, u32_sub,
}
use hlkvds.KvSlice.{KvSlice}
use hlkvds.Memory.{Buffer}
use hlkvds.SegmentManager.{
  SegmentManager, alloc, alloc_for_gc, free_for_failed, free_for_gc, use_seg,
}
use hlkvds.Gc.{mark_gc, mark_migrate, load_kv_list}
use hlkvds.Utils.{KvTime}
use hlkvds.Volume.{Volume}
use hlkvds.IndexManager.{DataStor, World, update_indexes, update_indexes_for_gc}
use hlkvds.Segment.{
  SegBase, make, get_free_size, try_put, put, try_put_list, put_list, prepare, seg_offset,
}

-- The inner loop of doMerge: slices go over until one does not fit; what is left is the rest.
unfoldable pub put_slices : SegBase → List KvSlice → SegBase × List KvSlice
unfolding try_put put
put_slices seg [] = (seg, [])
put_slices seg (s ∷ l) = elim (try_put seg s) [
  | true ↦ put_slices (put seg s) l
  | false ↦ (seg, s ∷ l)
]

-- What the outer loop ends with: the first segment, the slices that did not go in with the segment
-- they come from, and the segments that went in whole.
pub record Gathered : Type 0 where
  pub seg : SegBase
  pub rest : List KvSlice
  pub last : Option ℕ
  pub freed : List ℕ

-- The outer loop; `load` is loadKvList.
unfoldable pub gather : (ℕ → Option (List KvSlice)) → SegBase → List ℕ → List (ℕ × ℕ) → Gathered
unfolding put_slices
gather load seg freed [] = record { seg = seg; rest = []; last = none; freed = freed }
gather load seg freed (c ∷ cands) = elim (load c.1) [
  | none ↦ gather load seg freed cands
  | some slices ↦ elim (put_slices seg slices).1 [
    | [] ↦ gather load (put_slices seg slices).0 (freed ++ c.1 ∷ []) cands
    | ◌∷◌ s l ↦ record {
      seg = (put_slices seg slices).0;
      rest = s ∷ l;
      last = some c.1;
      freed = freed;
    }
  ]
]

-- The loop of doMigrate, which takes segments whole.
unfoldable pub gather_whole :
    (ℕ → Option (List KvSlice)) → SegBase → List ℕ → List (ℕ × ℕ) → SegBase × List ℕ
unfolding try_put_list put_list
gather_whole load seg freed [] = (seg, freed)
gather_whole load seg freed (c ∷ cands) = elim (load c.1) [
  | none ↦ gather_whole load seg freed cands
  | some slices ↦ elim (try_put_list seg slices) [
    | true ↦ gather_whole load (put_list seg slices) (freed ++ c.1 ∷ []) cands
    | false ↦ (seg, freed)
  ]
]

-- Calls on the segment table of a volume.
abbrev pub with_segs : Volume → SegmentManager → Volume
with_segs v m = record v { seg_mgr = m }

unfoldable pub free_all : List ℕ → SegmentManager → SegmentManager
unfolding free_for_gc
free_all [] m = m
free_all (i ∷ l) m = free_all l (free_for_gc m i)

abbrev pub number_given : ℕ → Option ℕ → ℕ
number_given unset none = unset
number_given unset (some i) = i

pub record GcState : Type 0 where
  pub world : World Volume
  pub images : List (ℕ × Buffer)

abbrev pub segs_of : GcState → SegmentManager
segs_of g = g.world.1.seg_mgr

abbrev pub set_segs : GcState → SegmentManager → GcState
set_segs g m = record g { world = (g.world.0, with_segs g.world.1 m) }

-- `read` and `write` are the device, `clock`, `now` and `buf` what a call reads off the clock and
-- the fresh buffer; `unset` is what a number holds that AllocForGC has not set.
module _ (ds : DataStor Volume) (write : ℕ → Buffer → Bool) (clock : ℕ → KvTime)
    (now unset fuel : ℕ) (buf : Buffer) where
  -- SetSegId and WriteSegToDevice; after a failure FreeForFailed, otherwise Use and UpdateToIndex.
  unfoldable pub write_merged : SegBase → ℕ → GcState → GcState × Bool
  unfolding prepare free_for_failed use_seg get_free_size update_indexes
  write_merged seg seg_id g = elim (prepare clock buf now (record seg { seg_id = some seg_id })) [
    | none ↦ (set_segs g (free_for_failed (segs_of g) seg_id), false)
    | some r ↦
        if write (seg_offset seg.vol seg_id) r.1
        then (let used = set_segs g (use_seg (segs_of g) seg_id (get_free_size seg)) in
            (
              record {
                world = update_indexes ds r.0 used.world;
                images = g.images ++ (seg_id, r.1) ∷ [];
              },
              true,
            ))
        else (set_segs g (free_for_failed (segs_of g) seg_id), false)
  ]

  -- The second segment; its slices are put without a test.
  unfoldable pub merge_rest : List KvSlice → ℕ → ℕ → GcState → Option (GcState × ℕ)
  unfolding alloc_for_gc make put_list write_merged free_for_gc
  merge_rest rest last total g = elim (alloc_for_gc fuel (segs_of g)) [
    | none ↦ none
    | some r ↦
        let seg = put_list (make g.world.1) rest in
        let (g', ok) = write_merged seg (number_given unset r.1) (set_segs g r.0) in
        some (if ok then set_segs g' (free_for_gc (segs_of g') last) else g', total)
  ]

  -- doMerge once the first segment has its number.
  unfoldable pub merge_first : Gathered → SegmentManager × Option ℕ → GcState → Option (GcState × ℕ)
  unfolding write_merged free_all merge_rest
  merge_first first r g =
      let (g', ok) = write_merged first.seg (number_given unset r.1) (set_segs g r.0) in
      let done = set_segs g' (free_all first.freed (segs_of g')) in
      let total = u32_sub (length first.freed) 1 in
      if ok
      then elim first.last [
        | none ↦ some (done, total)
        | some last ↦ merge_rest first.rest last total done
      ]
      else some (g', 0)

  -- doMerge: the state and the count that it returns. `none` stands for an allocation that does
  -- not return within the fuel.
  unfoldable pub do_merge : (ℕ → Option Buffer) → List (ℕ × ℕ) → GcState → Option (GcState × ℕ)
  unfolding alloc_for_gc make gather merge_first load_kv_list
  do_merge read cands g = elim (alloc_for_gc fuel (segs_of g)) [
    | none ↦ none
    | some r ↦
        let load = load_kv_list mark_gc read clock g.world.1 g.world.0 in
        merge_first (gather load (make g.world.1) [] cands) r g
  ]

-- The fast volume and the medium volume of a migration.
pub record Tiers : Type 0 where
  pub fast : Volume
  pub medium : Volume

pub record MigrateState : Type 0 where
  pub world : World Tiers
  pub images : List (ℕ × Buffer)

abbrev pub set_medium : MigrateState → SegmentManager → MigrateState
set_medium g m =
    let t = g.world.1 in
    record g { world = (g.world.0, record t { medium = with_segs t.medium m }) }

abbrev pub set_fast : MigrateState → SegmentManager → MigrateState
set_fast g m =
    let t = g.world.1 in record g { world = (g.world.0, record t { fast = with_segs t.fast m }) }

-- doMigrate
unfoldable pub do_migrate :
    DataStor Tiers
    → (ℕ → Buffer → Bool)
    → (ℕ → KvTime)
    → ℕ
    → ℕ
    → Buffer
    → (ℕ → Option Buffer)
    → List (ℕ × ℕ)
    → MigrateState
    → Option (MigrateState × ℕ)
unfolding alloc make gather_whole prepare free_for_failed use_seg get_free_size
    update_indexes_for_gc free_all load_kv_list
do_migrate ds write clock now fuel buf read cands g =
    let medium = g.world.1.medium in
    let load = load_kv_list mark_migrate read clock g.world.1.fast g.world.0 in
    let (seg, freed) = gather_whole load (make medium) [] cands in
    elim (alloc fuel medium.seg_mgr) [
      | none ↦ none
      | some r ↦ elim r.1 [
        | none ↦ some (g, 0)
        | some seg_id ↦
            let failed = set_medium g (free_for_failed r.0 seg_id) in
            elim (prepare clock buf now (record seg { seg_id = some seg_id })) [
              | none ↦ some (failed, 0)
              | some p ↦
                  if write (seg_offset seg.vol seg_id) p.1
                  then (let used = set_medium g (use_seg r.0 seg_id (get_free_size seg)) in
                      let w = update_indexes_for_gc ds p.0 used.world in
                      let moved : MigrateState = record {
                        world = w;
                        images = g.images ++ (seg_id, p.1) ∷ [];
                      } in
                      some (set_fast moved (free_all freed w.1.fast.seg_mgr), length freed))
                  else some (failed, 0)
            ]
      ]
    ]
