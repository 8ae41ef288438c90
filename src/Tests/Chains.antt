-- ===== src/Tests/Chains.antt =====
-- The chain of a slot and the map of the cache, with numbers for their elements.
use hlkvds.Prelude.{
  ◌==◌, if◌then◌else◌, ℕ, ◌<◌, ◌≡◌, refl, ◌⊎◌, Bool, false, not, none, some, [], ◌∷◌, arith,
}
use hlkvds.LinkedList.{
  LinkedList, null, fault, at, get_by_no, search_in, search, put, remove, get_ref, search_no,
}
use hlkvds.LinkedList.Laws.{IsEquiv, IsChain, put-remove-IsChain}
use hlkvds.LinkedList.ByNo.{get_by_no-search_no, get_by_no_range}
use hlkvds.LruMap.{LruMap}
use hlkvds.LruMap
use hlkvds.LruMap.Laws

abbrev eqb : ℕ → ℕ → Bool
eqb a b = a == b

eqb-IsEquiv : IsEquiv eqb
eqb-IsEquiv = record {
  eq_refl = λ a. ground arith;
  eq_sym = λ a b. ground arith;
  eq_trans = λ a b c h. ground arith;
}

abbrev three : LinkedList ℕ
three = record { nodes = 7 ∷ 8 ∷ 9 ∷ []; size = 3 }

three-IsChain : IsChain eqb three
unfolding search_in
three-IsChain = record { sized = refl; distinct = (refl, (refl, (refl, tt))) }

put-remove-IsChain_example :
    IsChain eqb (put eqb three 8).0
    × IsChain eqb (remove eqb three 8).0
    × ((put eqb three 8).1 ≡ not (search eqb three 8))
    × ((remove eqb three 8).1 ≡ search eqb three 8)
    × (get_ref eqb (put eqb three 8).0 9 ≡ (if eqb 8 9 then some 8 else get_ref eqb three 9))
    × (get_ref eqb (remove eqb three 8).0 9 ≡ (if eqb 8 9 then none else get_ref eqb three 9))
put-remove-IsChain_example = put-remove-IsChain eqb eqb-IsEquiv three 8 9 three-IsChain

get_by_no-search_no_test :
    (search_no eqb three 9 ≡ none) × (get_ref eqb three 9 ≡ none)
    ⊎ ((i : ℕ) × (b : ℕ) × (search_no eqb three 9 ≡ some i)
        × (get_ref eqb three 9 ≡ some b)
        × (get_by_no three i ≡ at b)
        × (i < 3))
get_by_no-search_no_test = get_by_no-search_no eqb three 9 three-IsChain

get_by_no_range_test :
    (3 < 3) × ((a : ℕ) × (get_by_no three 3 ≡ at a))
    ⊎ (3 ≡ three.size) × (get_by_no three 3 ≡ fault)
    ⊎ (3 < 3) × (get_by_no three 3 ≡ null)
get_by_no_range_test = get_by_no_range eqb three 3 three-IsChain

-- A map of two nodes, both in use.
abbrev two_used : LruMap ℕ ℕ
two_used = record { nodes = (1, 10) ∷ (2, 20) ∷ []; free = 0 }

two_used-Inv : LruMap.Laws.Inv eqb 2 two_used
unfolding LruMap.lookup
two_used-Inv = record { once = (refl, (refl, tt)); counted = refl }

put-Inv_test : LruMap.Laws.Inv eqb 2 (LruMap.put eqb two_used 3 30 false).0
put-Inv_test = LruMap.Laws.put-Inv eqb eqb-IsEquiv 2 two_used 3 30 false (omega arith) two_used-Inv

lookup-put_example :
    ((LruMap.put eqb two_used 3 30 false).0.nodes
      ≡ LruMap.Laws.used_last eqb eqb-IsEquiv 2 two_used 3 30 false)
    × (LruMap.lookup eqb (LruMap.put eqb two_used 3 30 false).0.nodes 2
        ≡ LruMap.Laws.found_after eqb two_used 3 30 false (LruMap.put eqb two_used 3 30 false).1 2)
lookup-put_example =
    LruMap.Laws.lookup-put eqb eqb-IsEquiv 2 two_used 3 30 false 2 (omega arith) two_used-Inv
