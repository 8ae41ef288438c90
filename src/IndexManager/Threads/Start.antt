-- ===== src/IndexManager/Threads/Start.antt =====
-- Threads from before their calls on.
use hlkvds.Prelude.{◌≡◌, true, false, List, [], ◌∷◌}
use hlkvds.KvSlice.{KvSlice}
use hlkvds.IndexManager.{IndexManager}
use hlkvds.IndexManager.Calls.{Call, updates, moves, removes}
use hlkvds.IndexManager.Threads.{Point, waits}

-- Threads before their calls.
abbrev pub waiting : List Call → List Point
waiting [] = []
waiting (c ∷ cs) = waits c ∷ waiting cs

-- The calls of writers and of the reaper.
abbrev pub IsOwn : Call → Type 0
IsOwn (updates slice) = Unit {0}
IsOwn (moves slice) = true ≡ false
IsOwn (removes e) = Unit {0}
