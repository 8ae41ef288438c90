-- ===== src/IndexManager/Threads/Races.antt =====
-- What comes out when the sections of two calls interleave.
use hlkvds.Prelude.{
  ℕ, Bool, ◌≡◌, refl, subst, ap, set, get_elem?, ◌∙◌, true, false, some, List, [], ◌∷◌, arith,
}
use hlkvds.Digest.{Digest, hash}
use hlkvds.Digest
use hlkvds.HashEntry.{HashEntry, stamp_lt}
use hlkvds.KvSlice.{KvSlice}
use hlkvds.IndexManager.{
  IndexManager, DataStor, World, find, is_same_in_mem, move_entry, update_index, update_index_gc,
  update_absent, update_present,
}
use hlkvds.IndexManager.Calls.{Call, updates, moves, removes, call}
use hlkvds.IndexManager.Lookup.{IsSized, find_in-put, hash_index-lt}
use hlkvds.IndexManager.Find.{IsFilled, settle, found, find-update_index}
use hlkvds.IndexManager.Table.{Inv}
use hlkvds.IndexManager.Invariant.{update_index-Inv}
use hlkvds.IndexManager.Threads.{
  Point, waits, matched, returned, is_held, is_blocked, begin_update, begin_move, section, go_on,
  schedule,
}

module _ {S : Type 0} (ds : DataStor S) where
  -- What a call returns.
  unfoldable pub answer : Call → World S → Bool
  unfolding update_index update_index_gc
  answer (updates slice) w = (update_index ds slice w).1
  answer (moves slice) w = (update_index_gc ds slice w).1
  answer (removes e) w = true

  -- A call whose sections run with no section of another call in between is the call as one step, with
  -- what it returns: the functions of one call are the composition of its sections.
  pub schedule_alone :
      (c : Call) (w : World S)
      → schedule ds (0 ∷ 0 ∷ []) (w, waits c ∷ []) ≡ (call ds c w, returned (answer c w) ∷ [])
  unfolding schedule go_on is_blocked is_held section begin_update begin_move call answer
      update_index update_index_gc update_absent
  schedule_alone (updates slice) (im, s) = ground arith
  schedule_alone (moves slice) (im, s) = ground arith
  schedule_alone (removes e) (im, s) = refl

  pub go_on-section :
      (t : ℕ) (w w' : World S) (ps : List Point) (p p' : Point)
      → get_elem? ps t ≡ some p
      → is_blocked w.0.ht_size p ps ≡ false
      → section ds p w ≡ (w', p')
      → go_on ds t (w, ps) ≡ (w', set ps t p')
  unfolding go_on
  go_on-section t w w' ps p p' here free e =
      rw (go_on, here, free) (λ i. ((e i).0, set ps t (e i).1))

  begin_update-present :
      (slice : KvSlice) (in_mem : HashEntry) (im : IndexManager) (s : S)
      → IsFilled slice
      → find im slice.digest ≡ some in_mem
      → section ds (waits (updates slice)) (im, s)
        ≡ ((update_index ds slice (im, s)).0, returned true)
  unfolding section begin_update update_index update_present
  begin_update-present slice in_mem im s filled present =
      ground (arith, found slice im filled ∙ present)

  find-move_entry :
      (slice : KvSlice) (im : IndexManager) (s : S)
      → IsSized im
      → IsFilled slice
      → find (move_entry ds slice (im, s)).0 slice.digest ≡ some slice.entry
  unfolding move_entry find
  find-move_entry slice im s v filled = ground (
    arith,
    filled,
    ap hash filled,
    ap (λ (x : Digest). Digest.eq x slice.digest) filled,
    (Digest.eq_iff slice.digest slice.digest).1 refl,
    find_in-put im.hashtable im.ht_size slice.entry slice.digest,
    hash_index-lt im slice.digest v,
  )

  -- A write that comes between IsSameInMem and the put of an update for a collector is lost: the copy
  -- of the value that the key had before goes over it, although the write has the later stamp, and
  -- both calls return true.
  pub schedule_write_between :
      (moved write : KvSlice) (old : HashEntry) (im : IndexManager) (s : S)
      → Inv im
      → IsFilled moved
      → IsFilled write
      → moved.digest ≡ write.digest
      → find im write.digest ≡ some old
      → is_same_in_mem im moved.entry_gc ≡ true
      → stamp_lt moved.entry.stamp write.entry.stamp ≡ true
      → stamp_lt write.entry.stamp old.stamp ≡ false
      → let st =
          schedule ds
            (0 ∷ 1 ∷ 0 ∷ [])
            ((im, s), waits (moves moved) ∷ waits (updates write) ∷ []) in
        (st.1 ≡ returned true ∷ returned true ∷ [])
        × (find
              (go_on ds 1
                (go_on ds 0 ((im, s), waits (moves moved) ∷ waits (updates write) ∷ []))).0.0
              write.digest
            ≡ some write.entry)
        × (find st.0.0 write.digest ≡ some moved.entry)
  unfolding schedule is_blocked is_held section begin_move move_entry settle find
  schedule_write_between moved write old im s v p q same present matches late new =
      let ps = waits (moves moved) ∷ waits (updates write) ∷ [] in
      let matched_first : section ds (waits (moves moved)) (im, s) ≡ ((im, s), matched moved) =
        rw matches refl in
      let w = (update_index ds write (im, s)).0 in
      let two =
        ap (go_on ds 1) (
          go_on-section 0 (im, s) (im, s) ps (waits (moves moved)) (matched moved) refl refl
            matched_first)
        ∙ go_on-section 1 (im, s) w (matched moved ∷ waits (updates write) ∷ [])
            (waits (updates write)) (returned true) refl refl
            (begin_update-present write old im s q present) in
      let three =
        ap (go_on ds 0) two
        ∙ go_on-section 0 w (move_entry ds moved w) (matched moved ∷ returned true ∷ [])
            (matched moved) (returned true) refl refl refl in
      let self = (Digest.eq_iff write.digest write.digest).1 refl in
      let written : find w.0 write.digest ≡ some write.entry =
        find-update_index ds write im s write.digest v.table q ∙ (rw (self, present, new) refl) in
      let over : find (move_entry ds moved w).0 write.digest ≡ some moved.entry =
        subst (λ (d : Digest). find (move_entry ds moved w).0 d ≡ some moved.entry) same
          (find-move_entry moved w.0 w.1 (update_index-Inv ds write im s v).table p) in
      (
        ap (λ (st : World S × List Point). st.1) three,
        ap (λ (st : World S × List Point). find st.0.0 write.digest) two ∙ written,
        ap (λ (st : World S × List Point). find st.0.0 write.digest) three ∙ over,
      )
