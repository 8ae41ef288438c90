-- ===== src/KvdbIter/Walk.antt =====
-- The walk of the iterator from SeekToFirst to the end (KvdbIter.cc).
use hlkvds.Prelude.{
  ℕ, zero, suc, ◌+◌, ◌-◌, ◌<◌, ◌≤◌, ◌≡◌, refl, ◌∙◌, Option, List, [], ◌∷◌, ◌++◌, arith, length,
  length-append, drop, ap, sym, inl, inr, get_or,
}
use hlkvds.HashEntry.{HashEntry}
use hlkvds.IndexManager.{IndexManager, slot}
use hlkvds.IndexManager.Table.{Inv, total}
use hlkvds.LinkedList.{LinkedList, empty, at, get_by_no}
use hlkvds.KvdbIter.{KvdbIter, stand_on, stand_off, seek_to_first, next, collect}
use hlkvds.KvdbIter.Slots.{
  entries_from, entries, Counted, first_nonempty-lem, get_by_no-drop, drop_end, to_come, next_step,
}

collect_off :
    (im : IndexManager) (n : ℕ) (it : KvdbIter) (i : Option ℕ) → collect im n (stand_off it i) ≡ []
unfolding collect
collect_off im zero it i = refl
collect_off im (suc n) it i = refl

collect_step :
    (im : IndexManager) (n : ℕ) (it : KvdbIter) (i j : ℕ) (e : HashEntry)
    → get_by_no (slot im i) j ≡ at e
    → collect im (suc n) (stand_on im it i j) ≡ e ∷ collect im n (next im (stand_on im it i j))
unfolding collect stand_on
collect_step im n it i j e p = rw p refl

collect_on :
    (im : IndexManager) (n : ℕ) (it : KvdbIter) (i j : ℕ)
    → Counted im
    → it.ht_size ≡ im.ht_size
    → i < im.ht_size
    → j < (slot im i).size
    → length (to_come im i j) ≤ n
    → collect im n (stand_on im it i j) ≡ to_come im i j
collect_on im zero it i j c z a b f =
    let (e, p, q) = get_by_no-drop im i j c b in
    absurd (
      omega (
        arith,
        ap length
            (ap (λ (x : List HashEntry). x ++ entries_from im (im.ht_size - suc i) (suc i)) q),
      ))
collect_on im (suc n) it i j c z a b f =
    let (e, p, q) = get_by_no-drop im i j c b in
    let rest = entries_from im (im.ht_size - suc i) (suc i) in
    let whole : to_come im i j ≡ e ∷ (drop (suc j) (slot im i).nodes ++ rest) =
      ap (λ (x : List HashEntry). x ++ rest) q in
    let small : length (drop (suc j) (slot im i).nodes ++ rest) ≤ n =
      omega (arith, ap length whole) in
    collect_step im n it i j e p
    ∙ ap (λ (x : List HashEntry). e ∷ x)
        (elim (next_step im it i j c z a) [
          | inl (x, y) ↦
              let s : j + 1 ≡ suc j = omega arith in
              ap (collect im n) y ∙ (rw s (collect_on im n it i (suc j) c z a (omega arith) small))
          | inr (inl (x, none_left, (o, y))) ↦
              let at_end = drop_end (slot im i).nodes (suc j) (omega (arith, c i)) in
              ap (collect im n) y
              ∙ collect_off im n (stand_on im it i j) o
              ∙ sym (λ h. at_end h ++ none_left h)
          | inr (inr (k, x, inside, has, left, found, above, y)) ↦
              let at_end = drop_end (slot im i).nodes (suc j) (omega (arith, c i)) in
              let tail : drop (suc j) (slot im i).nodes ++ rest ≡ to_come im k 0 =
                λ h. at_end h ++ left h in
              ap (collect im n) y
              ∙ collect_on im n it k 0 c z inside has (omega (arith, ap length tail, small))
              ∙ sym tail
        ])
    ∙ sym whole

drop_slot :
    (t : List (LinkedList HashEntry)) (i : ℕ)
    → i < length t
    → drop i t ≡ get_or t i empty ∷ drop (suc i) t
drop_slot [] i h = absurd (omega arith)
drop_slot (x ∷ t) zero h = refl
drop_slot (x ∷ t) (suc i) h = drop_slot t i (omega arith)

length-entries_from :
    (im : IndexManager) (n i : ℕ)
    → Counted im
    → n + i ≡ length im.hashtable
    → length (entries_from im n i) ≡ total (drop i im.hashtable)
unfolding entries_from total
length-entries_from im zero i c h = sym (ap total (drop_end im.hashtable i (omega arith)))
length-entries_from im (suc n) i c h = omega (
  arith,
  length-append (slot im i).nodes (entries_from im n (suc i)),
  length-entries_from im n (suc i) c (omega arith),
  ap total (drop_slot im.hashtable i (omega arith)),
  c i,
)

seek_to_first_lem :
    (im : IndexManager) (it : KvdbIter) (n : ℕ)
    → Counted im
    → length (entries im) ≤ n
    → collect im n (seek_to_first im it) ≡ entries im
unfolding seek_to_first
seek_to_first_lem im it n c h =
    let it' : KvdbIter = record it { ht_size = im.ht_size } in
    elim (first_nonempty-lem im im.ht_size 0 c) [
      | inl (p, q) ↦ rw (seek_to_first, p) (collect_off im n it' it.hash_table_cur ∙ sym q)
      | inr (k, p, x, y, d, q) ↦
          let f : 0 + im.ht_size - suc k ≡ im.ht_size - suc k = omega arith in
          let whole : entries im ≡ to_come im k 0 =
            q ∙ ap (λ (m : ℕ). (slot im k).nodes ++ entries_from im m (suc k)) f in
          rw (seek_to_first, p)
            (collect_on im n it' k 0 c refl (omega arith) d (omega (arith, ap length whole))
              ∙ sym whole)
    ]

-- A caller who seeks to the first entry and calls Next while the iterator is valid sees just the
-- entries of the index, slot by slot in the order of the chains, as many as the key counter says.
pub collect-seek_to_first :
    (im : IndexManager) (it : KvdbIter) (n : ℕ)
    → Inv im
    → im.key_counter ≤ n
    → (collect im n (seek_to_first im it) ≡ entries im) × (length (entries im) ≡ im.key_counter)
collect-seek_to_first im it n v h =
    let c : Counted im = λ i. (v.chains i).sized in
    let size : length (entries im) ≡ im.key_counter =
      length-entries_from im im.ht_size 0 c (omega (arith, v.table.sized)) ∙ sym v.counted in
    (seek_to_first_lem im it n c (omega arith), size)
