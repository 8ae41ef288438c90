-- ===== src/IndexManager/Threads.antt =====
-- Calls on the index by several threads at once (UpdateIndex and RemoveEntry of IndexManager.cc). What
-- a call does while it holds a slot's mutex no other call on that slot sees, so that the places where
-- the calls of other threads can come in between are the two that give a mutex up: an insert has tested
-- the key counter under `mtx_` and has not counted its key there yet, its slot still locked; and an
-- update for a collector has come back from IsSameInMem and has not locked its slot again. A schedule
-- names the thread that goes on next; a thread whose slot is locked by another one waits. The put of an
-- insert and its count are one section, and so are the removal of a key and its count: between the two
-- other slots see the key counter as it was before the section, so that what they do then is what they
-- do before it.
pub mod Counter
pub mod Steady
pub mod Start
pub mod Races
use hlkvds.Prelude.{
  ℕ, ◌%◌, Bool, true, false, Option, none, some, List, [], ◌∷◌, ◌==◌, ◌||◌, if◌then◌else◌, set,
  get_elem?,
}
use hlkvds.Digest.{hash}
use hlkvds.HashEntry.{HashEntry, digest_of}
use hlkvds.HashEntry
use hlkvds.KvSlice.{KvSlice}
use hlkvds.LinkedList
use hlkvds.IndexManager.{
  DataStor, World, hash_index, slot, is_same_in_mem, insert_entry, move_entry, update_present,
  remove_entry,
}
use hlkvds.IndexManager.Calls.{Call, updates, moves, removes}

-- Where a thread stands: before its call, in an insert that has passed the test of the key counter, in
-- an update for a collector that IsSameInMem has passed, or behind its call with what it returned.
pub data Point : Type 0 where
  waits : Call → Point
  admitted : KvSlice → Point
  matched : KvSlice → Point
  returned : Bool → Point

-- The slot, of `n`, whose mutex a thread holds between its sections.
abbrev pub holds : ℕ → ℕ → Point → Bool
holds n i (waits c) = false
holds n i (admitted slice) = hash slice.digest % n == i
holds n i (matched slice) = false
holds n i (returned b) = false

unfoldable pub is_held : ℕ → ℕ → List Point → Bool
is_held n i [] = false
is_held n i (p ∷ ps) = holds n i p || is_held n i ps

-- The slot whose mutex the next section of a thread takes.
abbrev pub needs : ℕ → Point → Option ℕ
needs n (waits (updates slice)) = some (hash slice.digest % n)
needs n (waits (moves slice)) = some (hash (digest_of slice.entry_gc) % n)
needs n (waits (removes e)) = some (hash (digest_of e) % n)
needs n (admitted slice) = none
needs n (matched slice) = some (hash slice.digest % n)
needs n (returned b) = none

unfoldable pub is_blocked : ℕ → Point → List Point → Bool
unfolding is_held
is_blocked n p ps = elim (needs n p) [ none ↦ false | some i ↦ is_held n i ps ]

module _ {S : Type 0} (ds : DataStor S) where
  -- The first section of UpdateIndex(slice, false): the whole call, or up to the test.
  unfoldable pub begin_update : KvSlice → World S → World S × Point
  unfolding LinkedList.get_ref update_present
  begin_update slice (im, s) =
      elim (LinkedList.get_ref HashEntry.eq (slot im (hash_index im slice.digest)) slice.entry) [
        | none ↦ elim slice.content [
          | none ↦ ((im, ds.modify_death_entry slice.entry s), returned true)
          | some _ ↦
              ((im, s), if im.key_counter == im.ht_size then returned false else admitted slice)
        ]
        | some in_mem ↦ let r = update_present ds slice in_mem (im, s) in (r.0, returned r.1)
      ]

  -- The first section of UpdateIndex(slice, true)
  unfoldable pub begin_move : KvSlice → World S → World S × Point
  unfolding is_same_in_mem
  begin_move slice (im, s) =
      if is_same_in_mem im slice.entry_gc
      then ((im, s), matched slice)
      else ((im, ds.modify_death_entry slice.entry s), returned true)

  -- The next section of a thread.
  unfoldable pub section : Point → World S → World S × Point
  unfolding begin_update begin_move insert_entry move_entry remove_entry
  section (waits (updates slice)) w = begin_update slice w
  section (waits (moves slice)) w = begin_move slice w
  section (waits (removes e)) w = (remove_entry ds e w, returned true)
  section (admitted slice) (im, s) = ((insert_entry slice im, s), returned true)
  section (matched slice) w = (move_entry ds slice w, returned true)
  section (returned b) w = (w, returned b)

  -- Thread `t` goes on, or waits.
  unfoldable pub go_on : ℕ → World S × List Point → World S × List Point
  unfolding is_blocked section
  go_on t (w, ps) = elim (get_elem? ps t) [
    | none ↦ (w, ps)
    | some p ↦
        if is_blocked w.0.ht_size p ps
        then (w, ps)
        else (let r = section p w in (r.0, set ps t r.1))
  ]

  unfoldable pub schedule : List ℕ → World S × List Point → World S × List Point
  unfolding go_on
  schedule [] st = st
  schedule (t ∷ ts) st = schedule ts (go_on t st)
