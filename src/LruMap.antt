-- ===== src/LruMap.antt =====
-- LRUMap.h and SLRUMap.h: the maps behind the read cache. The hash map and the doubly linked list of
-- an LRUMap hold the same nodes; the model is the list, the last used node first, with the number of
-- free nodes. `cached_map[key]` adds a null pointer for a missing key, which reads as no node.
pub mod Laws
use hlkvds.Prelude.{
  ℕ, zero, suc, ◌+◌, ◌-◌, Bool, true, false, Option, none, some, List, [], ◌∷◌, ◌==◌, if◌then◌else◌,
}

pub record LruMap (K V : Type 0) : Type 0 where
  pub nodes : List (K × V)
  pub free : ℕ

module _ {K V : Type 0} (eq : K → K → Bool) where
  -- LRUMap(size)
  unfoldable pub make : ℕ → LruMap K V
  make size = record { nodes = []; free = if size == 0 then 1024 else size }

  -- `cached_map[key]`
  unfoldable pub lookup : List (K × V) → K → Option V
  lookup [] k = none
  lookup (x ∷ l) k = let rest = lookup l k in if eq x.0 k then some x.1 else rest

  -- `detach` of the node of a key.
  unfoldable pub detach : List (K × V) → K → List (K × V)
  detach [] k = []
  detach (x ∷ l) k = let rest = detach l k in if eq x.0 k then l else x ∷ rest

  -- `tail->prev`, and the list without it.
  unfoldable pub last_node : List (K × V) → Option (K × V)
  last_node [] = none
  last_node (x ∷ []) = some x
  last_node (x ∷ y ∷ l) = last_node (y ∷ l)

  unfoldable pub drop_last : List (K × V) → List (K × V)
  drop_last [] = []
  drop_last (x ∷ []) = []
  drop_last (x ∷ y ∷ l) = x ∷ drop_last (y ∷ l)

  -- Put: the map, and the entry that was dropped for it. A key that is there goes to the front, with
  -- the old data where `same`.
  unfoldable pub put : LruMap K V → K → V → Bool → LruMap K V × Option (K × V)
  unfolding lookup detach last_node drop_last
  put m k v same = elim (lookup m.nodes k) [
    | some old ↦ (record m { nodes = (k, if same then old else v) ∷ detach m.nodes k }, none)
    | none ↦
        if m.free == 0
        then (record m { nodes = (k, v) ∷ drop_last m.nodes }, last_node m.nodes)
        else (record m { nodes = (k, v) ∷ m.nodes; free = m.free - 1 }, none)
  ]

  unfoldable pub get : LruMap K V → K → LruMap K V × Option V
  unfolding lookup detach
  get m k = elim (lookup m.nodes k) [
    | some v ↦ (record m { nodes = (k, v) ∷ detach m.nodes k }, some v)
    | none ↦ (m, none)
  ]

  unfoldable pub delete : LruMap K V → K → LruMap K V × Bool
  unfolding lookup detach
  delete m k = elim (lookup m.nodes k) [
    | some v ↦ (record m { nodes = detach m.nodes k; free = m.free + 1 }, true)
    | none ↦ (m, false)
  ]

-- SLRUMap: an entry goes to `probation`, and on its next use to `protect`.
pub record SlruMap (K V : Type 0) : Type 0 where
  pub protect : LruMap K V
  pub probation : LruMap K V

module _ {K V : Type 0} (eq : K → K → Bool) where
  unfoldable pub slru_get : SlruMap K V → K → SlruMap K V × Option V
  unfolding get put delete
  slru_get m k =
      let (probation, found) = get eq m.probation k in
      elim found [
        | some v ↦
            let (protect, popped) = put eq m.protect k v false in
            let less = (delete eq probation k).0 in
            elim popped [
              | none ↦ (record { protect = protect; probation = less }, some v)
              | some u ↦
                  (record { protect = protect; probation = (put eq less u.0 u.1 false).0 }, some v)
            ]
        | none ↦
            let (protect, found') = get eq m.protect k in
            (record { protect = protect; probation = probation }, found')
      ]

  unfoldable pub slru_put : SlruMap K V → K → V → Bool → SlruMap K V × Option (K × V)
  unfolding slru_get put
  slru_put m k v same =
      let (m', found) = slru_get m k in
      elim found [
        | some old ↦
            let (protect, popped) = put eq m'.protect k v same in
            (record m' { protect = protect }, popped)
        | none ↦
            let (probation, popped) = put eq m'.probation k v same in
            (record m' { probation = probation }, popped)
      ]

  -- `protect.Delete(key) || probation.Delete(key)`
  unfoldable pub slru_delete : SlruMap K V → K → SlruMap K V × Bool
  unfolding delete
  slru_delete m k =
      let (protect, done) = delete eq m.protect k in
      if done
      then (record m { protect = protect }, true)
      else (let (probation, done') = delete eq m.probation k in
          (record { protect = protect; probation = probation }, done'))
