-- ===== src/IndexManager/Find.antt =====
-- GetHashEntry after an update: the index as a map from digests to entries (IndexManager.cc).
use hlkvds.Prelude.{
  ◌≡◌, ◌∙◌, ap, Bool, Option, none, some, arith, if◌then◌else◌, ◌==◌, ◌&&◌, inl, inr, Option-cases,
}
use hlkvds.Digest.{Digest, hash}
use hlkvds.Digest
use hlkvds.HashEntry.{HashEntry, digest_of, data_size_of, stamp_lt, eq-IsEquiv, eq-digest}
use hlkvds.HashEntry
use hlkvds.KvSlice.{KvSlice, no_entry}
use hlkvds.LinkedList.{LinkedList, empty}
use hlkvds.LinkedList
use hlkvds.LinkedList.Laws.{IsChain}
use hlkvds.Utils
use hlkvds.IndexManager.{
  IndexManager, DataStor, find, hash_index, slot, update_absent, update_present, update_index,
  update_index_gc, is_same_in_mem, remove_entry,
}
use hlkvds.IndexManager.Lookup.{IsSized, hash_index-lt, find_in, probe, find_in-put, find_in-remove}

-- The entry of a slice carries the slice's digest, as fillEntryToSlice builds it.
abbrev pub IsFilled : KvSlice → Type 0
IsFilled slice = digest_of slice.entry ≡ slice.digest

-- What an update should make of the entry that the index has for the key. A delete of a key that is
-- not there is ignored, an insert into a full index is refused, and of two entries for a key the
-- one with the later stamp stays, the new one if the stamps are equal.
unfoldable pub settle : Bool → KvSlice → Option HashEntry → Option HashEntry
unfolding stamp_lt
settle full slice none = elim slice.content [
  | none ↦ none
  | some _ ↦ if full then none else some slice.entry
]
settle full slice (some in_mem) =
    if stamp_lt slice.entry.stamp in_mem.stamp then some in_mem else some slice.entry

abbrev pub is_full : IndexManager → Bool
is_full im = im.key_counter == im.ht_size

-- `search` and `get_ref` of an update look where `find` does.
pub found :
    (slice : KvSlice) (im : IndexManager)
    → IsFilled slice
    → LinkedList.get_ref HashEntry.eq (slot im (hash_index im slice.digest)) slice.entry
      ≡ find im slice.digest
unfolding find
found slice im filled =
    probe (slot im (hash_index im slice.digest)) slice.entry
    ∙ ap
        (λ (x : Digest).
          LinkedList.get_ref HashEntry.eq (slot im (hash_index im slice.digest)) (no_entry x))
        filled

module _ {S : Type 0} (ds : DataStor S) where
  find-update_absent :
      (slice : KvSlice) (im : IndexManager) (s : S) (d : Digest)
      → IsSized im
      → IsFilled slice
      → find im slice.digest ≡ none
      → find (update_absent ds slice (im, s)).0.0 d
        ≡ (if Digest.eq slice.digest d then settle (is_full im) slice none else find im d)
  unfolding update_absent find settle
  find-update_absent slice im s d v filled h = ground (
    arith,
    filled,
    ap hash filled,
    ap (λ (x : Digest). Digest.eq x d) filled,
    Digest.eq_iff slice.digest d,
    ap (find_in im.hashtable im.ht_size) {x = slice.digest} {y = d},
    find_in-put im.hashtable im.ht_size slice.entry d,
    hash_index-lt im slice.digest v,
  )

  find-update_present :
      (slice : KvSlice) (in_mem : HashEntry) (im : IndexManager) (s : S) (d : Digest)
      → IsSized im
      → IsFilled slice
      → find im slice.digest ≡ some in_mem
      → find (update_present ds slice in_mem (im, s)).0.0 d
        ≡ (if Digest.eq slice.digest d then settle (is_full im) slice (some in_mem) else find im d)
  unfolding update_present find settle
  find-update_present slice in_mem im s d v filled h = ground (
    arith,
    filled,
    ap hash filled,
    ap (λ (x : Digest). Digest.eq x d) filled,
    Digest.eq_iff slice.digest d,
    ap (find_in im.hashtable im.ht_size) {x = slice.digest} {y = d},
    find_in-put im.hashtable im.ht_size slice.entry d,
    hash_index-lt im slice.digest v,
  )

  -- After `update_index` the key of the slice finds what `settle` makes of the entry that it found
  -- before, and every other key finds what it found before.
  pub find-update_index :
      (slice : KvSlice) (im : IndexManager) (s : S) (d : Digest)
      → IsSized im
      → IsFilled slice
      → find (update_index ds slice (im, s)).0.0 d ≡ (
          if Digest.eq slice.digest d
          then settle (is_full im) slice (find im slice.digest)
          else find im d)
  unfolding update_index
  find-update_index slice im s d v filled = elim (Option-cases (find im slice.digest)) [
    | inl absent ↦
        rw (found slice im filled, absent, update_index)
          (find-update_absent slice im s d v filled absent)
    | inr (in_mem, present) ↦
        rw (found slice im filled, present, update_index)
          (find-update_present slice in_mem im s d v filled present)
  ]

  -- The update after a garbage collection or a migration, where no other call on the index comes
  -- between its two critical sections, moves the key to its new place if the index still points to the
  -- old one, and otherwise leaves what every key finds; the copy that the index does not point to is
  -- reported dead.
  pub find-update_index_gc :
      (slice : KvSlice) (im : IndexManager) (s : S) (d : Digest)
      → IsSized im
      → IsFilled slice
      → (find (update_index_gc ds slice (im, s)).0.0 d ≡ (
          if is_same_in_mem im slice.entry_gc && Digest.eq slice.digest d
          then some slice.entry
          else find im d))
        × ((update_index_gc ds slice (im, s)).0.1
            ≡ ds.modify_death_entry
                (if is_same_in_mem im slice.entry_gc then slice.entry_gc else slice.entry)
                s)
  unfolding update_index_gc find
  find-update_index_gc slice im s d v filled =
      let put_at = find_in-put im.hashtable im.ht_size slice.entry d in
      ground (
        arith,
        filled,
        ap hash filled,
        ap (λ (x : Digest). Digest.eq x d) filled,
        put_at,
        hash_index-lt im slice.digest v,
      )

  -- `remove_entry` takes the key out exactly when the index has for it a deletion mark, an entry
  -- without data, from the same segment write; no other key is touched.
  pub find-remove_entry :
      (e : HashEntry) (im : IndexManager) (s : S) (d : Digest)
      → IsSized im
      → IsChain HashEntry.eq (slot im (hash_index im (digest_of e)))
      → find (remove_entry ds e (im, s)).0 d ≡ (
          if Digest.eq (digest_of e) d
          then elim (find im d) [
            | none ↦ none
            | some in_mem ↦
                if Utils.eq in_mem.stamp.seg_time e.stamp.seg_time && data_size_of in_mem == 0
                then none
                else some in_mem
          ]
          else find im d)
  unfolding remove_entry find
  find-remove_entry e im s d v chain = ground (
    arith,
    probe (slot im (hash_index im (digest_of e))) e,
    Digest.eq_iff (digest_of e) d,
    ap (find_in im.hashtable im.ht_size) {x = digest_of e} {y = d},
    find_in-remove im.hashtable im.ht_size e d,
    hash_index-lt im (digest_of e) v,
    chain,
  )
