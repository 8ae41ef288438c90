-- ===== src/Tests/Cache.antt =====
-- The read cache over an LRU map of one entry.
use hlkvds.Prelude.{◌≡◌, refl, ◌∙◌, sym, none, some, [], ◌∷◌, inl, inr}
use hlkvds.LruMap.{LruMap}
use hlkvds.ReadCache.{Str, str_eq, ReadCache}
use hlkvds.ReadCache
use hlkvds.ReadCache.Fresh.{Matches, get-put, put-get-delete-Matches}
use hlkvds.ReadCache.Lru.{lru, Holds, lru-IsCacheMap}

abbrev digits : Str → Str
digits v = v

-- Two keys with one value.
abbrev shared : ReadCache (LruMap Str Str)
shared = record {
  cache_map = record { nodes = ((7 ∷ [], 7 ∷ []) ∷ []); free = 0 };
  dedup_map = (1 ∷ [], 7 ∷ []) ∷ (2 ∷ [], 7 ∷ []) ∷ [];
  refer_map = (7 ∷ [], 1 ∷ []) ∷ (7 ∷ [], 2 ∷ []) ∷ [];
}

shared-Matches : Matches lru digits Holds shared.cache_map
shared-Matches f w (inl (p, q)) = sym q ∙ p
shared-Matches f w (inr h) = absurd h

-- The first key with a new value: the cache map drops the old one.
abbrev renewed : ReadCache (LruMap Str Str)
renewed = record {
  cache_map = record { nodes = ((8 ∷ [], 8 ∷ []) ∷ []); free = 0 };
  dedup_map = (1 ∷ [], 8 ∷ []) ∷ (2 ∷ [], 7 ∷ []) ∷ [];
  refer_map = (7 ∷ [], 2 ∷ []) ∷ (8 ∷ [], 1 ∷ []) ∷ [];
}

put_renewed : ReadCache.put lru digits (1 ∷ []) (8 ∷ []) shared ≡ some renewed
unfolding ReadCache.put lru
put_renewed = refl

get_renewed : (ReadCache.get lru digits (1 ∷ []) renewed).1 ≡ some (8 ∷ [])
unfolding ReadCache.get lru
get_renewed = refl

get-put_example : digits (8 ∷ []) ≡ digits (8 ∷ [])
get-put_example =
    get-put lru digits Holds (1 ∷ []) (8 ∷ []) (8 ∷ []) shared renewed lru-IsCacheMap shared-Matches
      put_renewed get_renewed

put-get-delete-Matches_test :
    ((key value : Str) (c' : ReadCache (LruMap Str Str))
      → ReadCache.put lru digits key value shared ≡ some c'
      → Matches lru digits Holds c'.cache_map)
    × ((key : Str) → Matches lru digits Holds (ReadCache.get lru digits key shared).0.cache_map)
    × ((key : Str) → Matches lru digits Holds (ReadCache.delete lru digits key shared).cache_map)
put-get-delete-Matches_test =
    put-get-delete-Matches lru digits Holds shared lru-IsCacheMap shared-Matches

-- After Delete of the second key the footprint still refers to it, and the Put that makes the cache
-- map drop the footprint erases the end of `dedup_map`.
put_after_delete :
    ReadCache.put lru digits (3 ∷ []) (9 ∷ []) (ReadCache.delete lru digits (2 ∷ []) shared) ≡ none
unfolding ReadCache.put ReadCache.delete lru
put_after_delete = refl
