-- ===== src/IndexManager/Calls.antt =====
-- Any sequence of calls on the index, none of which begins before the one before has ended.
use hlkvds.Prelude.{List, [], ◌∷◌, All}
use hlkvds.HashEntry.{HashEntry}
use hlkvds.KvSlice.{KvSlice}
use hlkvds.IndexManager.{DataStor, World, update_index, update_index_gc, remove_entry}
use hlkvds.IndexManager.Table.{IsMoved, Inv}
use hlkvds.IndexManager.Invariant.{update_index-Inv, update_index_gc-Inv, remove_entry-Inv}

-- The calls that change the index once it is set up.
pub data Call : Type 0 where
  updates : KvSlice → Call
  moves : KvSlice → Call
  removes : HashEntry → Call

-- A slice that is moved is one that a collector built.
abbrev pub IsBuilt : Call → Type 0
IsBuilt (updates slice) = Unit {0}
IsBuilt (moves slice) = IsMoved slice
IsBuilt (removes e) = Unit {0}

module _ {S : Type 0} (ds : DataStor S) where
  unfoldable pub call : Call → World S → World S
  unfolding update_index update_index_gc remove_entry
  call (updates slice) w = (update_index ds slice w).0
  call (moves slice) w = (update_index_gc ds slice w).0
  call (removes e) w = remove_entry ds e w

  unfoldable pub calls : List Call → World S → World S
  unfolding call
  calls [] w = w
  calls (c ∷ cs) w = calls cs (call c w)

  call-Inv : (c : Call) (w : World S) → Inv w.0 → IsBuilt c → Inv (call c w).0
  unfolding call
  call-Inv (updates slice) (im, s) v b = update_index-Inv ds slice im s v
  call-Inv (moves slice) (im, s) v b = update_index_gc-Inv ds slice im s v b
  call-Inv (removes e) (im, s) v b = remove_entry-Inv ds e im s v

  -- Calls that are made one after the other, each when the one before has returned, keep the
  -- invariant: no key is in the index twice, and the key counter is exact and never above the table's
  -- size.
  pub calls-Inv : (cs : List Call) (w : World S) → Inv w.0 → All IsBuilt cs → Inv (calls cs w).0
  unfolding calls
  calls-Inv [] w v b = v
  calls-Inv (c ∷ cs) w v b = calls-Inv cs (call c w) (call-Inv c w v b.0) b.1
