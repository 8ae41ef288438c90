-- ===== src/Kvds.antt =====
-- Kvdb_Impl.cc, the operations of the store, with the codes of Status.h. The data store and the
-- read cache are interfaces over states of their own: DataStor has virtual functions, and ReadCache
-- is behind `rdCache_`. Strings are lists of bytes; a null pointer is `none`.
use hlkvds.Prelude.{
  ℕ, ◌≡◌, refl, Bool, true, false, Option, none, some, List, [], ◌∷◌, ◌==◌, ◌&&◌, not, arith, ◌≢◌,
  ◌<◌, if◌then◌else◌, Bool-cases, inl, inr, length,
}
use hlkvds.Digest.{Digest}
use hlkvds.KvSlice.{KvSlice, data_len, make}

-- Status::Code
pub data Status : Type 0 where
  ok not_found corruption not_supported invalid_argument io_error timed_out aborted busy try_again :
      Status

abbrev pub is_ok : Status → Bool
is_ok ok = true
is_ok _ = false

-- What KVDS calls of DataStor, and of IndexManager in Get.
pub record Store (S : Type 0) : Type 0 where
  pub write_data : KvSlice → Bool → S → S × Status
  pub write_batch_data : List KvSlice → S → S × Status
  pub get_hash_entry : KvSlice → S → Option KvSlice
  pub read_data : KvSlice → S → Status × List ℕ

-- ReadCache's Put and Get.
pub record Cache (C : Type 0) : Type 0 where
  pub put : List ℕ → List ℕ → C → C
  pub get : List ℕ → C → C × Option (List ℕ)

-- GetDataStr; a null pointer is the empty string.
abbrev pub data_str : KvSlice → List ℕ
data_str s = elim s.content [ none ↦ [] | some bytes ↦ bytes ]

abbrev pub is_null_or_empty : Option (List ℕ) → Bool
is_null_or_empty none = true
is_null_or_empty (some []) = true
is_null_or_empty (some (x ∷ l)) = x == 0

abbrev pub key_bytes : Option (List ℕ) → List ℕ
key_bytes none = []
key_bytes (some key) = key

module _ {S C : Type 0} (store : Store S) (cache : Cache C) (calc_digest : List ℕ → Digest)
    (disable_cache : Bool) where
  -- The state: the data store with the index, and the read cache.
  abbrev pub State : Type 0
  State = S × C

  -- What Insert and InsertBatch do with a written slice.
  abbrev pub cache_written : KvSlice → C → C
  cache_written s c =
      if not disable_cache && data_len s == 0 then cache.put s.key (data_str s) c else c

  unfoldable pub insert : Option (List ℕ) → Option (List ℕ) → ℕ → Bool → State → State × Status
  unfolding make
  insert key content size immediately (s, c) =
      if is_null_or_empty key
      then ((s, c), invalid_argument)
      else (let slice = make calc_digest (key_bytes key) content size in
          let w = store.write_data slice immediately s in
          ((w.0, if is_ok w.1 then cache_written slice c else c), w.1))

  unfoldable pub delete : Option (List ℕ) → State → State × Status
  unfolding insert
  delete key st = insert key none 0 false st

  -- Get after a miss in the cache.
  unfoldable pub get_stored : KvSlice → State → State × Status × List ℕ
  get_stored slice (s, c) = elim (store.get_hash_entry slice s) [
    | none ↦ ((s, c), not_found, [])
    | some found ↦
        let r = store.read_data found s in
        ((s, if is_ok r.0 && not disable_cache then cache.put slice.key r.1 c else c), r.0, r.1)
  ]

  -- The state, the status and `data`.
  unfoldable pub get : Option (List ℕ) → State → State × Status × List ℕ
  unfolding make get_stored
  get none (s, c) = ((s, c), invalid_argument, [])
  get (some key) (s, c) =
      let slice = make calc_digest key none 0 in
      if disable_cache
      then get_stored slice (s, c)
      else (let r = cache.get key c in
          elim r.1 [
            | none ↦ get_stored slice (s, r.0)
            | some cached ↦ ((s, cache.put key cached r.0), ok, cached)
          ])

  unfoldable pub cache_batch : List KvSlice → C → C
  cache_batch [] c = c
  cache_batch (x ∷ l) c = cache_batch l (cache_written x c)

  unfoldable pub insert_batch : List KvSlice → State → State × Status
  unfolding cache_batch
  insert_batch [] st = (st, ok)
  insert_batch (x ∷ l) (s, c) =
      let w = store.write_batch_data (x ∷ l) s in
      ((w.0, if is_ok w.1 then cache_batch (x ∷ l) c else c), w.1)

  -- The test of Insert on the length is the wrong way round: a value that is written does not go to
  -- the cache. Where the cache has a value for the key, Get after an Insert of another value that is not
  -- empty still gives the old one, whether the Insert succeeds or not.
  pub get-insert_stale :
      (x : ℕ) (key old new : List ℕ) (immediately : Bool) (s : S) (c : C)
      → disable_cache ≡ false
      → x ≢ 0
      → (cache.get (x ∷ key) c).1 ≡ some old
      → 0 < data_len (make calc_digest (x ∷ key) (some new) (length new))
      → let r =
          get
            (some (x ∷ key))
            (insert (some (x ∷ key)) (some new) (length new) immediately (s, c)).0 in
        (r.1 ≡ ok) × (r.2 ≡ old)
  unfolding get insert
  get-insert_stale x key old new immediately s c on n hit long =
      let full : is_null_or_empty (some (x ∷ key)) ≡ false = ground arith in
      let sized : (data_len (make calc_digest (x ∷ key) (some new) (length new)) == 0) ≡ false =
        ground arith in
      let w = store.write_data (make calc_digest (x ∷ key) (some new) (length new)) immediately s in
      elim (Bool-cases (is_ok w.1)) [
        | inl written ↦ rw (full, on, sized, written, hit) (refl, refl)
        | inr failed ↦ rw (full, on, sized, failed, hit) (refl, refl)
      ]

  -- Delete puts the empty string into the cache: where the cache gives back what was put, Get after
  -- a successful Delete is OK with an empty value, and not NotFound.
  pub get-delete :
      (x : ℕ) (key : List ℕ) (s : S) (c : C)
      → disable_cache ≡ false
      → x ≢ 0
      → (store.write_data (make calc_digest (x ∷ key) none 0) false s).1 ≡ ok
      → (cache.get (x ∷ key) (cache.put (x ∷ key) [] c)).1 ≡ some []
      → let r = get (some (x ∷ key)) (delete (some (x ∷ key)) (s, c)).0 in (r.1 ≡ ok) × (r.2 ≡ [])
  unfolding get delete insert
  get-delete x key s c on n written hit =
      let full : is_null_or_empty (some (x ∷ key)) ≡ false = ground arith in
      rw (full, on, written, hit) (refl, refl)
