-- ===== src/KvdbIter.antt =====
-- KvdbIter.cc: the iterator over the index, slot by slot. The index stays as it is while an iterator
-- moves. `hashTableCur_` is -1 after Prev has left the first slot: `none`.
pub mod Slots
pub mod Walk
pub mod Back
use hlkvds.Prelude.{
  ℕ, zero, suc, ◌+◌, ◌-◌, Bool, true, false, Option, none, some, List, [], ◌∷◌, ltb, if◌then◌else◌,
}
use hlkvds.Digest.{Digest}
use hlkvds.HashEntry.{HashEntry}
use hlkvds.HashEntry
use hlkvds.IndexManager.{IndexManager, slot}
use hlkvds.KvSlice.{no_entry}
use hlkvds.LinkedList.{Ref, null, fault, at}
use hlkvds.LinkedList

pub record KvdbIter : Type 0 where
  pub ht_size : ℕ
  pub valid : Bool
  pub hash_table_cur : Option ℕ
  pub entry_list_cur : ℕ
  pub hash_entry : Ref HashEntry

-- `NULL != hashEntry_`
abbrev pub is_set : Ref HashEntry → Bool
is_set null = false
is_set fault = true
is_set (at e) = true

-- The first slot with an entry among `n` slots from `i` on, and the last one below `n`.
unfoldable pub first_nonempty : IndexManager → ℕ → ℕ → Option ℕ
first_nonempty im zero i = none
first_nonempty im (suc n) i =
    let rest = first_nonempty im n (suc i) in if ltb 0 (slot im i).size then some i else rest

unfoldable pub last_nonempty : IndexManager → ℕ → Option ℕ
last_nonempty im zero = none
last_nonempty im (suc n) =
    let rest = last_nonempty im n in if ltb 0 (slot im n).size then some n else rest

-- The iterator on entry `j` of slot `i`, and on no entry.
unfoldable pub stand_on : IndexManager → KvdbIter → ℕ → ℕ → KvdbIter
unfolding LinkedList.get_by_no
stand_on im it i j =
    let e = LinkedList.get_by_no (slot im i) j in
    record it { hash_table_cur = some i; entry_list_cur = j; hash_entry = e; valid = is_set e }

abbrev pub stand_off : KvdbIter → Option ℕ → KvdbIter
stand_off it i = record it { hash_table_cur = i; hash_entry = null; valid = false }

unfoldable pub seek_to_first : IndexManager → KvdbIter → KvdbIter
unfolding first_nonempty stand_on
seek_to_first im it =
    let it' = record it { ht_size = im.ht_size } in
    elim (first_nonempty im im.ht_size 0) [
      | none ↦ stand_off it' it.hash_table_cur
      | some i ↦ stand_on im it' i 0
    ]

unfoldable pub seek_to_last : IndexManager → KvdbIter → KvdbIter
unfolding last_nonempty stand_on
seek_to_last im it =
    let it' = record it { ht_size = im.ht_size } in
    elim (last_nonempty im im.ht_size) [
      | none ↦ stand_off it' it.hash_table_cur
      | some i ↦ stand_on im it' i ((slot im i).size - 1)
    ]

-- Seek goes through the slots for an entry with the digest of the key.
unfoldable pub seek_from : IndexManager → Digest → ℕ → ℕ → Option (ℕ × HashEntry)
unfolding LinkedList.get_ref HashEntry.eq
seek_from im d zero i = none
seek_from im d (suc n) i = elim (LinkedList.get_ref HashEntry.eq (slot im i) (no_entry d)) [
  | none ↦ seek_from im d n (suc i)
  | some e ↦ some (i, e)
]

unfoldable pub seek : IndexManager → Digest → KvdbIter → KvdbIter
unfolding seek_from LinkedList.search_no HashEntry.eq
seek im d it = elim (seek_from im d it.ht_size 0) [
  | none ↦ stand_off it it.hash_table_cur
  | some (i, e) ↦ record it {
    hash_table_cur = some i;
    entry_list_cur = elim (LinkedList.search_no HashEntry.eq (slot im i) (no_entry d)) [
      | none ↦ 0
      | some j ↦ j
    ];
    hash_entry = at e;
    valid = true;
  }
]

-- Next and Prev read the current slot; without one they are not called.
unfoldable pub next : IndexManager → KvdbIter → KvdbIter
unfolding first_nonempty stand_on
next im it = elim it.hash_table_cur [
  | none ↦ stand_off it none
  | some i ↦
      if ltb (it.entry_list_cur + 1) (slot im i).size
      then stand_on im it i (it.entry_list_cur + 1)
      else elim (first_nonempty im (it.ht_size - suc i) (suc i)) [
        | none ↦ stand_off it (some (if ltb (suc i) it.ht_size then it.ht_size else suc i))
        | some k ↦ stand_on im it k 0
      ]
]

unfoldable pub prev : IndexManager → KvdbIter → KvdbIter
unfolding last_nonempty stand_on
prev im it = elim it.hash_table_cur [
  | none ↦ stand_off it none
  | some i ↦
      if ltb 0 it.entry_list_cur
      then stand_on im it i (it.entry_list_cur - 1)
      else elim (last_nonempty im i) [
        | none ↦ stand_off it none
        | some k ↦ stand_on im it k ((slot im k).size - 1)
      ]
]

-- The entries that a caller sees who calls Next while the iterator is valid, at most `n` of them.
unfoldable pub collect : IndexManager → ℕ → KvdbIter → List HashEntry
unfolding next
collect im zero it = []
collect im (suc n) it = elim it.hash_entry [
  | null ↦ []
  | fault ↦ []
  | at e ↦ e ∷ collect im n (next im it)
]
