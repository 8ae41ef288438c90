-- ===== src/Tests/Store.antt =====
-- The store with a cache that remembers one entry.
use hlkvds.Prelude.{ℕ, ◌+◌, ◌≡◌, refl, false, Option, none, some, List, [], ◌∷◌, arith}
use hlkvds.Digest.{Digest, zero_digest}
use hlkvds.KvSlice.{make}
use hlkvds.Kvds.{ok, Store, Cache, insert, delete, get, get-insert_stale, get-delete}

-- It takes every write, and finds nothing.
abbrev accepting : Store ℕ
accepting = record {
  write_data = λ slice immediately s. (s + 1, ok);
  write_batch_data = λ l s. (s + 1, ok);
  get_hash_entry = λ slice s. none;
  read_data = λ slice s. (ok, []);
}

-- What was put last, for any key.
abbrev last_put : Cache (Option (List ℕ))
last_put = record { put = λ key value c. some value; get = λ key c. (c, c) }

abbrev no_digest : List ℕ → Digest
no_digest key = zero_digest

get-insert_stale_example :
    let r =
      get accepting last_put no_digest false
        (some (97 ∷ []))
        (insert accepting last_put no_digest false
          (some (97 ∷ []))
          (some (2 ∷ []))
          1
          false
          (0, some (1 ∷ []))).0 in
    (r.1 ≡ ok) × (r.2 ≡ 1 ∷ [])
unfolding make
get-insert_stale_example =
    get-insert_stale accepting last_put no_digest false 97 [] (1 ∷ []) (2 ∷ []) false 0
      (some (1 ∷ [])) refl (omega arith) refl (omega arith)

get-delete_example :
    let r =
      get accepting last_put no_digest false
        (some (97 ∷ []))
        (delete accepting last_put no_digest false (some (97 ∷ [])) (0, some (1 ∷ []))).0 in
    (r.1 ≡ ok) × (r.2 ≡ [])
get-delete_example =
    get-delete accepting last_put no_digest false 97 [] 0 (some (1 ∷ [])) refl (omega arith) refl
      refl
