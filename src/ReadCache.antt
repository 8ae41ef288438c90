-- ===== src/ReadCache.antt =====
-- ReadCache.cc: a cache map from footprints (the digest of a value as a string) to values, with the
-- footprint of each key and the keys of each footprint beside it. The multimap is a list, in which
-- the entries of one footprint have the order of their insertion. `none` stands for the `erase` of
-- the end of a map.
pub mod Fresh
pub mod Lru
use hlkvds.Prelude.{
  ℕ, Bool, true, false, Option, none, some, List, [], ◌∷◌, ◌++◌, ◌==◌, ◌&&◌, if◌then◌else◌,
}

abbrev pub Str : Type 0
Str = List ℕ

unfoldable pub str_eq : Str → Str → Bool
str_eq [] [] = true
str_eq [] (y ∷ b) = false
str_eq (x ∷ a) [] = false
str_eq (x ∷ a) (y ∷ b) = (x == y) && str_eq a b

-- CacheMap: what Put drops is the key of an entry.
pub record CacheMap (M : Type 0) : Type 0 where
  pub put : Str → Str → Bool → M → M × Option Str
  pub get : Str → M → M × Option Str
  pub delete : Str → M → M

pub record ReadCache (M : Type 0) : Type 0 where
  pub cache_map : M
  pub dedup_map : List (Str × Str)
  pub refer_map : List (Str × Str)

-- `dedup_map.find`
unfoldable pub footprint_of : List (Str × Str) → Str → Option Str
unfolding str_eq
footprint_of [] k = none
footprint_of (x ∷ l) k = let rest = footprint_of l k in if str_eq x.0 k then some x.1 else rest

-- `dedup_map.erase` of what `find` gives.
unfoldable pub erase : List (Str × Str) → Str → List (Str × Str)
unfolding str_eq
erase [] k = []
erase (x ∷ l) k = let rest = erase l k in if str_eq x.0 k then l else x ∷ rest

-- `it_dedup->second = footprint`
unfoldable pub renew : List (Str × Str) → Str → Str → List (Str × Str)
unfolding str_eq
renew [] k f = []
renew (x ∷ l) k f = let rest = renew l k f in if str_eq x.0 k then (x.0, f) ∷ l else x ∷ rest

-- The loop of Put that takes a key from the keys of a footprint.
unfoldable unrefer : List (Str × Str) → Str → Str → List (Str × Str)
unfolding str_eq
unrefer [] f k = []
unrefer (x ∷ l) f k =
    let rest = unrefer l f k in if str_eq x.0 f && str_eq x.1 k then l else x ∷ rest

-- The loop of Delete, which looks at the first key of the footprint every time.
unfoldable pub unrefer_first : List (Str × Str) → Str → Str → List (Str × Str)
unfolding str_eq
unrefer_first [] f k = []
unrefer_first (x ∷ l) f k =
    let rest = unrefer_first l f k in
    if str_eq x.0 f then (if str_eq x.1 k then l else x ∷ l) else x ∷ rest

-- `refer_map.count(f) != 0`
unfoldable pub is_referred : List (Str × Str) → Str → Bool
unfolding str_eq
is_referred [] f = false
is_referred (x ∷ l) f = let rest = is_referred l f in if str_eq x.0 f then true else rest

-- The loop of Put over the keys of a footprint that the cache map has dropped.
unfoldable pub drop_keys :
    Str → List (Str × Str) → List (Str × Str) → Option (List (Str × Str) × List (Str × Str))
unfolding str_eq footprint_of erase
drop_keys f dedup [] = some (dedup, [])
drop_keys f dedup (x ∷ l) = elim (str_eq x.0 f) [
  | true ↦ elim (footprint_of dedup x.1) [ none ↦ none | some _ ↦ drop_keys f (erase dedup x.1) l ]
  | false ↦ elim (drop_keys f dedup l) [ none ↦ none | some r ↦ some (r.0, x ∷ r.1) ]
]

-- `footprint` is CalcDigest and Tostring.
module _ {M : Type 0} (map : CacheMap M) (footprint : Str → Str) where
  unfoldable pub put : Str → Str → ReadCache M → Option (ReadCache M)
  unfolding footprint_of str_eq renew unrefer drop_keys
  put key value c = elim (footprint_of c.dedup_map key) [
    | some old ↦
        if str_eq old (footprint value)
        then some (record c { cache_map = (map.put old value true c.cache_map).0 })
        else some (record {
          cache_map = (map.put (footprint value) value false c.cache_map).0;
          dedup_map = renew c.dedup_map key (footprint value);
          refer_map = unrefer c.refer_map old key ++ (footprint value, key) ∷ [];
        })
    | none ↦
        let dedup = (key, footprint value) ∷ c.dedup_map in
        let refer = c.refer_map ++ (footprint value, key) ∷ [] in
        let (m, dropped) = map.put (footprint value) value false c.cache_map in
        elim dropped [
          | none ↦ some (record { cache_map = m; dedup_map = dedup; refer_map = refer })
          | some f ↦ elim (drop_keys f dedup refer) [
            | none ↦ none
            | some r ↦ some (record { cache_map = m; dedup_map = r.0; refer_map = r.1 })
          ]
        ]
  ]

  unfoldable pub get : Str → ReadCache M → ReadCache M × Option Str
  unfolding footprint_of
  get key c = elim (footprint_of c.dedup_map key) [
    | none ↦ (c, none)
    | some f ↦ let (m, value) = map.get f c.cache_map in (record c { cache_map = m }, value)
  ]

  unfoldable pub delete : Str → ReadCache M → ReadCache M
  unfolding footprint_of erase unrefer_first is_referred
  delete key c = elim (footprint_of c.dedup_map key) [
    | none ↦ c
    | some f ↦
        let refer = unrefer_first c.refer_map f key in
        record {
          cache_map = if is_referred refer f then c.cache_map else map.delete f c.cache_map;
          dedup_map = erase c.dedup_map key;
          refer_map = refer;
        }
  ]
