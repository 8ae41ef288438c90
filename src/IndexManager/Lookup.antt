-- ===== src/IndexManager/Lookup.antt =====
-- The chain in which a digest is looked up, in a table with one slot changed (IndexManager.cc).
use hlkvds.Prelude.{
  ℕ, ◌%◌, ◌<◌, ◌≡◌, refl, ◌∙◌, ap, Option, none, some, List, arith, if◌then◌else◌, ◌==◌, get_or,
  set, length, get_or-set_self, get_or-set_ne, Bool-cases, inl, inr,
}
use hlkvds.Digest.{Digest, hash}
use hlkvds.Digest
use hlkvds.HashEntry.{HashEntry, digest_of, data_size_of, stamp_lt, eq-IsEquiv, eq-digest}
use hlkvds.HashEntry
use hlkvds.KvSlice.{no_entry}
use hlkvds.LinkedList.{LinkedList, empty}
use hlkvds.LinkedList
use hlkvds.LinkedList.Laws.{IsChain, get_ref-put, get_ref-remove, get_ref_cong}
use hlkvds.IndexManager.{IndexManager, hash_index}

-- The table has its size, so that every digest has a slot.
pub record IsSized (im : IndexManager) : Type 0 where
  pub sized : length im.hashtable ≡ im.ht_size
  pub positive : 0 < im.ht_size

pub hash_index-lt :
    (im : IndexManager) (d : Digest) → IsSized im → hash_index im d < length im.hashtable
hash_index-lt im d v = omega (arith, v.sized, v.positive)

-- The chain in which `find` looks, in any table.
abbrev pub find_in : List (LinkedList HashEntry) → ℕ → Digest → Option HashEntry
find_in t n d = LinkedList.get_ref HashEntry.eq (get_or t (hash d % n) empty) (no_entry d)

find_in-set :
    (t : List (LinkedList HashEntry)) (n i : ℕ) (l : LinkedList HashEntry) (d : Digest)
    → i < length t
    → find_in (set t i l) n d
      ≡ (if hash d % n == i then LinkedList.get_ref HashEntry.eq l (no_entry d) else find_in t n d)
find_in-set t n i l d h = elim (Bool-cases (hash d % n == i)) [
  | inl here ↦
      let e : hash d % n ≡ i = ground arith in
      rw here (
        ap (λ (c : LinkedList HashEntry). LinkedList.get_ref HashEntry.eq c (no_entry d))
          (ap (λ (k : ℕ). get_or (set t i l) k empty) e ∙ get_or-set_self t i l empty h))
  | inr other ↦ rw other (
      ap (λ (c : LinkedList HashEntry). LinkedList.get_ref HashEntry.eq c (no_entry d))
        (get_or-set_ne t i (hash d % n) l empty (λ p. ground arith)))
]

-- The entry of a slice as its probe.
pub probe :
    (l : LinkedList HashEntry) (e : HashEntry)
    → LinkedList.get_ref HashEntry.eq l e
      ≡ LinkedList.get_ref HashEntry.eq l (no_entry (digest_of e))
probe l e =
    get_ref_cong HashEntry.eq eq-IsEquiv l e (no_entry (digest_of e)) ((eq-digest _ _).1 refl)

pub eq-no_entry :
    (e : HashEntry) (d : Digest) → HashEntry.eq e (no_entry d) ≡ Digest.eq (digest_of e) d
unfolding HashEntry.eq
eq-no_entry e d = refl

-- Putting an entry into the slot of its digest changes what that digest finds, and nothing else.
pub find_in-put :
    (t : List (LinkedList HashEntry)) (n : ℕ) (e : HashEntry) (d : Digest)
    → hash (digest_of e) % n < length t
    → let i = hash (digest_of e) % n in
      find_in (set t i (LinkedList.put HashEntry.eq (get_or t i empty) e).0) n d
      ≡ (if Digest.eq (digest_of e) d then some e else find_in t n d)
find_in-put t n e d h = elim (Bool-cases (Digest.eq (digest_of e) d)) [
  | inl same ↦
      let p : digest_of e ≡ d = (Digest.eq_iff (digest_of e) d).0 same in
      ground (
        arith,
        ap hash p,
        find_in-set t n i (LinkedList.put HashEntry.eq (get_or t i empty) e).0 d h,
        get_ref-put HashEntry.eq eq-IsEquiv (get_or t i empty) e (no_entry d),
        eq-no_entry e d,
      )
  | inr other ↦ ground (
    arith,
    find_in-set t n i (LinkedList.put HashEntry.eq (get_or t i empty) e).0 d h,
    get_ref-put HashEntry.eq eq-IsEquiv (get_or t i empty) e (no_entry d),
    eq-no_entry e d,
  )
]
  where
    i : ℕ
    i = hash (digest_of e) % n

-- The same for removal, from a chain without equal elements.
pub find_in-remove :
    (t : List (LinkedList HashEntry)) (n : ℕ) (e : HashEntry) (d : Digest)
    → hash (digest_of e) % n < length t
    → IsChain HashEntry.eq (get_or t (hash (digest_of e) % n) empty)
    → let i = hash (digest_of e) % n in
      find_in (set t i (LinkedList.remove HashEntry.eq (get_or t i empty) e).0) n d
      ≡ (if Digest.eq (digest_of e) d then none else find_in t n d)
find_in-remove t n e d h v = elim (Bool-cases (Digest.eq (digest_of e) d)) [
  | inl same ↦
      let p : digest_of e ≡ d = (Digest.eq_iff (digest_of e) d).0 same in
      ground (
        arith,
        ap hash p,
        find_in-set t n i (LinkedList.remove HashEntry.eq (get_or t i empty) e).0 d h,
        get_ref-remove HashEntry.eq eq-IsEquiv (get_or t i empty) e (no_entry d) v,
        eq-no_entry e d,
      )
  | inr other ↦ ground (
    arith,
    find_in-set t n i (LinkedList.remove HashEntry.eq (get_or t i empty) e).0 d h,
    get_ref-remove HashEntry.eq eq-IsEquiv (get_or t i empty) e (no_entry d) v,
    eq-no_entry e d,
  )
]
  where
    i : ℕ
    i = hash (digest_of e) % n
