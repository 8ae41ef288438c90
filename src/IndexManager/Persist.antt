-- ===== src/IndexManager/Persist.antt =====
-- The index that comes back from its image.
use hlkvds.Prelude.{
  ℕ, zero, suc, ◌+◌, ◌*◌, ◌<◌, ◌≡◌, refl, ◌∙◌, true, false, some, List, [], ◌∷◌, ◌++◌, arith, ◌==◌,
  if◌then◌else◌, length, length-append, replicate, ap, sym, subst, u32_mod, u32_add, Bool-cases,
  inl, inr, get_or,
}
use mathlib.Core.List.{append-nil, append_assoc}
use hlkvds.HashEntry.{
  HashEntry, HashEntryOnDisk, blank_on_disk, digest_of, size_of_hash_entry_on_disk, eq-IsEquiv,
}
use hlkvds.HashEntry
use hlkvds.LinkedList.{LinkedList, empty, search_in, put_in}
use hlkvds.LinkedList
use hlkvds.LinkedList.Laws.{IsChain, Distinct}
use hlkvds.Utils.{KvTime}
use hlkvds.IndexManager.{IndexManager, init_meta}
use hlkvds.IndexManager.Table.{Inv, total}
use hlkvds.IndexManager.Image.{
  IndexImage, calc_index_size_on_device, seconds, on_disk_of, counters_of, entries_of, get,
  restored, load_chain, load_slots, set_image,
}

-- An index as it comes back: the same entries in the same order, stamped with the time of the image.
abbrev pub restore_list : KvTime → List HashEntry → List HashEntry
restore_list time [] = []
restore_list time (e ∷ l) = restored time e.on_disk ∷ restore_list time l

abbrev pub restore_slots : KvTime → List (LinkedList HashEntry) → List (LinkedList HashEntry)
restore_slots time [] = []
restore_slots time (l ∷ t) =
    (record { nodes = restore_list time l.nodes; size = l.size }) ∷ restore_slots time t

abbrev AllChains : List (LinkedList HashEntry) → Type 0
AllChains t = (i : ℕ) → IsChain HashEntry.eq (get_or t i empty)

pub length-counters_of : (t : List (LinkedList HashEntry)) → length (counters_of t) ≡ length t
length-counters_of [] = refl
length-counters_of (l ∷ t) = omega (arith, length-counters_of t)

length-on_disk_of : (l : List HashEntry) → length (on_disk_of l) ≡ length l
length-on_disk_of [] = refl
length-on_disk_of (e ∷ l) = omega (arith, length-on_disk_of l)

pub length-entries_of :
    (t : List (LinkedList HashEntry)) → AllChains t → length (entries_of t) ≡ total t
unfolding total
length-entries_of [] v = refl
length-entries_of (l ∷ t) v = ground (
  arith,
  length-entries_of t (λ i. v (suc i)),
  (v 0).sized,
  length-on_disk_of l.nodes,
  length-append (on_disk_of l.nodes) (entries_of t),
)

-- The entries and the counters fit in the region that CalcIndexSizeOnDevice gives.
pub calc_index_size-fits :
    (im : IndexManager)
    → Inv im
    → 8
        + 4 * length (counters_of im.hashtable)
        + size_of_hash_entry_on_disk * length (entries_of im.hashtable)
      < calc_index_size_on_device im.ht_size
unfolding calc_index_size_on_device
calc_index_size-fits im v =
    let counters = length-counters_of im.hashtable in
    let entries = length-entries_of im.hashtable v.chains in
    omega (arith, counters, entries, v.table.sized, v.counted, v.bounded)

search_in_append :
    (xs ys : List HashEntry) (a b : HashEntry)
    → search_in HashEntry.eq (xs ++ b ∷ ys) a ≡ false
    → HashEntry.eq b a ≡ false
unfolding search_in
search_in_append [] ys a b h = ground (arith, h)
search_in_append (x ∷ xs) ys a b h = ground (arith, h, search_in_append xs ys a b)

-- In a list of distinct entries the ones before an entry are not equal to it.
absent_before :
    (xs ys : List HashEntry) (b : HashEntry)
    → Distinct HashEntry.eq (xs ++ b ∷ ys)
    → search_in HashEntry.eq xs b ≡ false
unfolding search_in
absent_before [] ys b d = refl
absent_before (x ∷ xs) ys b (p, q) =
    ground (arith, eq-IsEquiv.eq_sym x b, search_in_append xs ys x b p, absent_before xs ys b q)

put_in_absent :
    (xs : List HashEntry) (b : HashEntry)
    → search_in HashEntry.eq xs b ≡ false
    → put_in HashEntry.eq xs b ≡ (xs ++ b ∷ [], true)
unfolding search_in put_in
put_in_absent [] b h = refl
put_in_absent (x ∷ xs) b h = elim (Bool-cases (HashEntry.eq x b)) [
  | inl e ↦ ground (arith, h, e)
  | inr e ↦
      let rest = put_in_absent xs b (ground (arith, h, e)) in
      rw e (λ i. (x ∷ (rest i).0, (rest i).1))
]

length-restore_list : (time : KvTime) (l : List HashEntry) → length (restore_list time l) ≡ length l
length-restore_list time [] = refl
length-restore_list time (e ∷ l) = omega (arith, length-restore_list time l)

search_in-restore_list :
    (time : KvTime) (l : List HashEntry) (a b : HashEntry)
    → a.on_disk ≡ b.on_disk
    → search_in HashEntry.eq (restore_list time l) a ≡ search_in HashEntry.eq l b
unfolding search_in HashEntry.eq
search_in-restore_list time [] a b h = refl
search_in-restore_list time (e ∷ l) a b h =
    let rest = search_in-restore_list time l a b h in rw (rest, h) refl

restore_list-Distinct :
    (time : KvTime) (l : List HashEntry)
    → Distinct HashEntry.eq l
    → Distinct HashEntry.eq (restore_list time l)
restore_list-Distinct time [] d = tt
restore_list-Distinct time (e ∷ l) (p, q) = (
  search_in-restore_list time l (restored time e.on_disk) e refl ∙ p,
  restore_list-Distinct time l q,
)

put_absent :
    (xs ys : List HashEntry) (n : ℕ) (b : HashEntry)
    → Distinct HashEntry.eq (xs ++ b ∷ ys)
    → (LinkedList.put HashEntry.eq (record { nodes = xs; size = n }) b).0
      ≡ (record { nodes = xs ++ b ∷ []; size = n + 1 })
unfolding LinkedList.put
put_absent xs ys n b d =
    let e = put_in_absent xs b (absent_before xs ys b d) in
    λ i. record { nodes = (e i).0; size = if (e i).1 then n + 1 else n }

load_chain-restore :
    (time : KvTime) (done l : List HashEntry) (more : List HashEntryOnDisk) (n m : ℕ)
    → Distinct HashEntry.eq (done ++ restore_list time l)
    → m ≡ length l
    → load_chain time m (record { nodes = done; size = n }) (on_disk_of l ++ more)
      ≡ (record { nodes = done ++ restore_list time l; size = n + m }, more)
unfolding load_chain
load_chain-restore time done [] more n zero d h =
    let e : n + 0 ≡ n = omega arith in
    λ i. (record { nodes = sym (append-nil done) i; size = sym e i }, more)
load_chain-restore time done [] more n (suc m) d h = absurd (omega arith)
load_chain-restore time done (e ∷ l) more n zero d h = absurd (omega arith)
load_chain-restore time done (e ∷ l) more n (suc m) d h =
    let b = restored time e.on_disk in
    let assoc = append_assoc done (b ∷ []) (restore_list time l) in
    let s : n + 1 + m ≡ n + suc m = omega arith in
    ap (λ (c : LinkedList HashEntry). load_chain time m c (on_disk_of l ++ more))
      (put_absent done (restore_list time l) n b d)
    ∙ load_chain-restore time (done ++ b ∷ []) l more (n + 1) m
        (subst (Distinct HashEntry.eq) (sym assoc) d) (omega arith)
    ∙ (λ i. (record { nodes = assoc i; size = s i }, more))

no_entries : (l : List HashEntry) → length l ≡ 0 → on_disk_of l ≡ []
no_entries [] h = refl
no_entries (e ∷ l) h = absurd (omega arith)

zero_plus : (n : ℕ) → 0 + n ≡ n
zero_plus n = omega arith

-- A slot whose counter is 0 has no entries, so that passing over it makes no difference.
entries_of-slot :
    (l : LinkedList HashEntry) (t : List (LinkedList HashEntry))
    → IsChain HashEntry.eq l
    → entries_of (l ∷ t) ≡ on_disk_of l.nodes ++ entries_of t
entries_of-slot l t v = elim (Bool-cases (l.size == 0)) [
  | inl none_here ↦
      let e = no_entries l.nodes (ground (arith, v.sized)) in
      rw none_here (ap (λ (x : List HashEntryOnDisk). x ++ entries_of t) (sym e))
  | inr some_here ↦ rw some_here refl
]

load_slots-restore :
    (time : KvTime) (t : List (LinkedList HashEntry)) (entered : ℕ)
    → AllChains t
    → entered + total t < u32_mod
    → load_slots time (replicate (length t) empty) (counters_of t) (entries_of t) entered
      ≡ (restore_slots time t, entered + total t)
unfolding load_slots total empty
load_slots-restore time [] entered v w =
    let e : entered + 0 ≡ entered = omega arith in λ i. ([], sym e i)
load_slots-restore time (l ∷ t) entered v w =
    let c = v 0 in
    let chain : load_chain time l.size empty (entries_of (l ∷ t))
        ≡ (record { nodes = restore_list time l.nodes; size = l.size }, entries_of t) =
      ap (load_chain time l.size empty) (entries_of-slot l t c)
      ∙ load_chain-restore time [] l.nodes (entries_of t) 0 l.size
          (restore_list-Distinct time l.nodes c.distinct) c.sized
      ∙ (λ i. (
        record { nodes = restore_list time l.nodes; size = zero_plus l.size i },
        entries_of t,
      )) in
    let rest = load_slots-restore time t (entered + l.size) (λ i. v (suc i)) (omega arith) in
    let e : u32_add entered l.size ≡ entered + l.size = omega arith in
    let s : entered + l.size + total t ≡ entered + (l.size + total t) = omega arith in
    let r =
      (λ i. load_slots time (replicate (length t) empty) (counters_of t) (chain i).1 (e i))
      ∙ rest in
    λ i. ((chain i).0 ∷ (r i).0, ((ap (λ (x : List (LinkedList HashEntry) × ℕ). x.1) r) ∙ s) i)

-- An index that is written and read back, into a new table with the key counter of the superblock,
-- has the same entries in the same chains in the same order, stamped with the time of the image in
-- whole seconds.
pub set_image-get :
    (im : IndexManager) (now : KvTime) (theory : ℕ)
    → Inv im
    → (image : IndexImage) × (get now im im.size_ondisk ≡ some image)
      × (set_image (init_meta im.ht_size im.size_ondisk theory im.key_counter) image im.size_ondisk
          ≡ (
            record {
              hashtable = restore_slots (seconds now.tv_sec) im.hashtable;
              ht_size = im.ht_size;
              size_ondisk = im.size_ondisk;
              key_counter = im.key_counter;
              data_theory_size = theory;
            },
            true,
          ))
unfolding set_image get init_meta
set_image-get im now theory v =
    let same : (im.size_ondisk == im.size_ondisk) ≡ true = ground arith in
    let counters = counters_of im.hashtable in
    let entries = entries_of im.hashtable in
    let time = seconds now.tv_sec in
    let loaded : load_slots time (replicate im.ht_size empty) counters entries 0
        ≡ (restore_slots time im.hashtable, 0 + total im.hashtable) =
      ap (λ (n : ℕ). load_slots time (replicate n empty) counters entries 0) (sym v.table.sized)
      ∙ load_slots-restore time im.hashtable 0 v.chains
          (omega (arith, v.counted, v.bounded, v.word)) in
    let whole : (0 + total im.hashtable == im.key_counter) ≡ true = ground (arith, v.counted) in
    (
      record { time = now.tv_sec; counters = counters; entries = entries },
      rw same refl,
      rw same (λ i. (
        record {
          hashtable = (loaded i).0;
          ht_size = im.ht_size;
          size_ondisk = im.size_ondisk;
          key_counter = im.key_counter;
          data_theory_size = theory;
        },
        (ap (λ (x : List (LinkedList HashEntry) × ℕ). x.1 == im.key_counter) loaded ∙ whole) i,
      )),
    )
