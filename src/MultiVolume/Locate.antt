-- ===== src/MultiVolume/Locate.antt =====
-- What becomes of the layout of the volumes when the segment tables and the index change, and
-- writeDataImmediately with ReadData over all volumes.
use hlkvds.Prelude.{
  ℕ, ◌+◌, ◌%◌, ◌^◌, ◌<◌, ◌≡◌, refl, sym, ◌∙◌, ap, Bool, true, false, Option, some, List, set,
  get_elem?, get_elem?-set_self, get_elem?-set_ne, Option-cases, inl, inr, subst, u32_mod, u64_mod,
  ℕ_discrete,
}
use mathlib.Core.Option.{some-injective}
use hlkvds.Utils.{KvTime}
use hlkvds.Digest
use hlkvds.Digest.{Digest}
use hlkvds.HashEntry.{HashEntry}
use hlkvds.KvSlice.{KvSlice, data_len}
use hlkvds.Memory.{Buffer}
use hlkvds.IndexManager.{find}
use hlkvds.IndexManager.Lookup.{IsSized}
use hlkvds.SegmentManager.{SegmentManager}
use hlkvds.Volume.{Volume, modify_death_entry, calc_seg_offset_from_id}
use hlkvds.Volume.Offsets.{IsLaidOut}
use hlkvds.Segment.Layout.{IsWhole}
use hlkvds.LatencyFriendly
use hlkvds.Kvds.{Status, ok}
use hlkvds.VolumeIo.{Devices, State, read_data, write_one}
use hlkvds.VolumeIo.Device.{IsDisk}
use hlkvds.VolumeIo.Kept.{write_one_kept}
use hlkvds.VolumeIo.ReadBack.{Accepts, read_data-write_one}
use hlkvds.MultiVolume.{
  MultiVolume, vol_id_of, modify_death_in, data_stor, set_segs_at, access, alloc_loop, pick,
  with_segment, write_data_immediately, read_data_in,
}

-- Volume `i` is `v` up to its segment table.
abbrev pub HasLayout : ℕ → Volume → List Volume → Type 0
HasLayout i v vols = (m : SegmentManager) × (get_elem? vols i ≡ some (record v { seg_mgr = m }))

set-HasLayout :
    (i j : ℕ) (v w : Volume) (m : SegmentManager) (vols : List Volume)
    → get_elem? vols j ≡ some w
    → HasLayout i v vols
    → HasLayout i v (set vols j (record w { seg_mgr = m }))
set-HasLayout i j v w m vols at (n, h) = elim (ℕ_discrete j i) [
  | yes same ↦
      let e : w ≡ record v { seg_mgr = n } =
        some-injective w (record v { seg_mgr = n }) (sym at ∙ ap (get_elem? vols) same ∙ h) in
      (
        m,
        subst
              (λ (k : ℕ).
                get_elem? (set vols j (record w { seg_mgr = m })) k
                ≡ some (record w { seg_mgr = m }))
              same (get_elem?-set_self vols j (record w { seg_mgr = m }) w at)
            ∙ ap (λ (x : Volume). some (record x { seg_mgr = m })) e,
      )
  | no other ↦ (n, get_elem?-set_ne vols j i (record w { seg_mgr = m }) other ∙ h)
]

modify_death_in-HasLayout :
    (e : HashEntry) (i : ℕ) (v : Volume) (vols : List Volume)
    → HasLayout i v vols
    → HasLayout i v (modify_death_in e vols)
unfolding modify_death_in modify_death_entry
modify_death_in-HasLayout e i v vols h = elim (Option-cases (get_elem? vols (vol_id_of e))) [
  | inl gone ↦ rw (gone, modify_death_in) h
  | inr (w, there) ↦
      rw (there, modify_death_in)
        (set-HasLayout i (vol_id_of e) v w (modify_death_entry e w).seg_mgr vols there h)
]

set_segs_at-HasLayout :
    (j : ℕ) (m : SegmentManager) (i : ℕ) (v : Volume) (vols : List Volume)
    → HasLayout i v vols
    → HasLayout i v (set_segs_at j m vols)
unfolding set_segs_at
set_segs_at-HasLayout j m i v vols h = elim (Option-cases (get_elem? vols j)) [
  | inl gone ↦ rw (gone, set_segs_at) h
  | inr (w, there) ↦ rw (there, set_segs_at) (set-HasLayout i j v w m vols there h)
]

-- ReadData does not look at the segment table.
read_data_in-HasLayout :
    {D : Type 0} (dev : Devices D) (v : Volume) (vols : List Volume) (e : HashEntry) (d : D)
    → HasLayout (vol_id_of e) v vols
    → read_data_in dev vols e d ≡ some (read_data dev v e d)
unfolding read_data_in read_data
read_data_in-HasLayout dev v vols e d (m, h) = rw (h, read_data_in) refl

with_segment_found :
    {D : Type 0} (dev : Devices D)
    (fore_gc : ℕ → State MultiVolume D → Option (State MultiVolume D × Bool)) (fuel rounds : ℕ)
    (clock : ℕ → KvTime) (now : ℕ) (buf : Buffer)
    (write_it : ℕ → Volume → ℕ → State MultiVolume D → State MultiVolume D × Status) (v : Volume)
    (seg_id : ℕ) (st st' : State MultiVolume D)
    → let p = pick dev fore_gc fuel rounds clock now buf st in
      alloc_loop access fore_gc fuel rounds p.1 p.0 ≡ some (st', some seg_id)
      → get_elem? st'.world.1.vols p.1 ≡ some v
      → with_segment dev fore_gc fuel rounds clock now buf write_it st
        ≡ some (write_it p.1 v seg_id st')
unfolding with_segment
with_segment_found dev fore_gc fuel rounds clock now buf write_it v seg_id st st' alloc at =
    rw (alloc, at, with_segment) refl

-- A value that writeDataImmediately wrote with status OK, to the segment that the loop on Alloc and
-- ForeGC gave, is read back: the key finds an entry whose ReadData is OK with the bytes of the slice,
-- and every other key finds what it found once the segment was allocated. The device gives back what
-- was written to it; the volume that was picked carries its own number, its segments have
-- 2 ^ seg_size_bit bytes in whole pages and end below 2 ^ 64; the slice is not empty, has the bytes
-- that its lengths say and fits into a segment; and the index has slots, and accepts the key: an entry
-- that it has is not newer than the write, and where it has none it is not full.
pub read_data-write_data_immediately :
    {D : Type 0} (dev : Devices D)
    (fore_gc : ℕ → State MultiVolume D → Option (State MultiVolume D × Bool)) (fuel rounds : ℕ)
    (clock : ℕ → KvTime) (now : ℕ) (buf : Buffer) (v : Volume) (seg_id o : ℕ) (slice : KvSlice)
    (bytes : List ℕ) (st st' after : State MultiVolume D)
    → let p = pick dev fore_gc fuel rounds clock now buf st in
      alloc_loop access fore_gc fuel rounds p.1 p.0 ≡ some (st', some seg_id)
      → get_elem? st'.world.1.vols p.1 ≡ some v
      → v.vol_id ≡ p.1
      → IsDisk dev
      → IsLaidOut v
      → v.seg_size ≡ 2 ^ v.seg_size_bit
      → v.seg_size < u32_mod
      → v.seg_size % 4096 ≡ 0
      → calc_seg_offset_from_id v seg_id ≡ some o
      → o + v.seg_size + v.start_off < u64_mod
      → IsWhole slice
      → slice.content ≡ some bytes
      → 0 < data_len slice
      → LatencyFriendly.try_put (LatencyFriendly.make v) slice ≡ true
      → IsSized st'.world.0
      → Accepts (clock 0) st'.world.0 slice.digest
      → write_data_immediately dev fore_gc fuel rounds clock now buf slice st ≡ some (after, ok)
      → (e : HashEntry) × (find after.world.0 slice.digest ≡ some e)
        × (read_data_in dev after.world.1.vols e after.disk ≡ some (ok, bytes))
        × ((d : Digest)
            → Digest.eq slice.digest d ≡ false
            → find after.world.0 d ≡ find st'.world.0 d)
unfolding write_data_immediately
read_data-write_data_immediately dev fore_gc fuel rounds clock now buf v seg_id o slice bytes st st'
      after alloc at id law l pow w page off wide whole c pos fits sized acc run =
    let i = (pick dev fore_gc fuel rounds clock now buf st).1 in
    let written = write_one dev data_stor (access i) clock now buf v seg_id slice st' in
    let same : written ≡ (after, ok) =
      some-injective written (after, ok)
        (sym (
            with_segment_found dev fore_gc fuel rounds clock now buf
              (λ i v seg_id. write_one dev data_stor (access i) clock now buf v seg_id slice) v
              seg_id st st' alloc at)
          ∙ run) in
    let (found, by_key, located, read_back, others) =
      read_data-write_one data_stor (access i) dev clock now buf v seg_id o slice bytes st' law l
        pow w page off wide whole c pos fits sized acc
        (ap (λ (x : State _ _ × Status). x.1) same) in
    let kept =
      write_one_kept data_stor (access i) dev clock now buf (λ s. HasLayout i v s.vols)
        (λ e s h. modify_death_in-HasLayout e i v s.vols h)
        (λ m s h. set_segs_at-HasLayout i m i v s.vols h) v seg_id slice st' (v.seg_mgr, at) in
    let layout : HasLayout (vol_id_of found) v after.world.1.vols =
      subst (λ (k : ℕ). HasLayout k v after.world.1.vols) (sym (located ∙ id))
        (subst (λ (x : State MultiVolume _ × Status). HasLayout i v x.0.world.1.vols) same kept) in
    (
      found,
      ap (λ (x : State MultiVolume _ × Status). find x.0.world.0 slice.digest) (sym same) ∙ by_key,
      read_data_in-HasLayout dev v after.world.1.vols found after.disk layout
          ∙ ap (λ (x : State MultiVolume _ × Status). some (read_data dev v found x.0.disk))
              (sym same)
          ∙ ap (λ (x : Status × List ℕ). some x) read_back,
      λ d other.
          ap (λ (x : State MultiVolume _ × Status). find x.0.world.0 d) (sym same) ∙ others d other,
    )
