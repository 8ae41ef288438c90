-- ===== src/IndexManager/Threads/Counter.antt =====
-- The key counter and the chains of the index between the sections of calls of several threads, which
-- insert, overwrite, delete and remove keys.
use hlkvds.Prelude.{
  ℕ, zero, suc, ◌+◌, ◌%◌, ◌<◌, ◌≡◌, ◌≢◌, sym, subst, ap, ◌∙◌, true, false, some, List, [], ◌∷◌,
  arith, ◌==◌, ◌||◌, if◌then◌else◌, set, get_elem?, get_elem?-set_self, get_elem?-set_ne, length,
  length-set, u32_mod, u32_sub, Bool-cases, inl, inr,
}
use mathlib.Core.Option.{some-injective}
use hlkvds.Digest.{hash}
use hlkvds.HashEntry.{HashEntry, digest_of, data_size_of, stamp_lt, eq-IsEquiv}
use hlkvds.HashEntry
use hlkvds.KvSlice.{KvSlice}
use hlkvds.LinkedList.{LinkedList, empty}
use hlkvds.LinkedList
use hlkvds.LinkedList.Laws.{IsChain, put-IsChain, remove-IsChain, size-put, size-remove}
use hlkvds.IndexManager.{IndexManager, hash_index, slot}
use hlkvds.IndexManager.Calls.{updates, moves, removes}
use hlkvds.IndexManager.Lookup.{IsSized}
use hlkvds.IndexManager.Table.{total, total-set, set_chains}
use hlkvds.IndexManager.Threads.{Point, waits, admitted, matched, returned, is_held}

-- No slot has a key twice, each slot's counter is exact, and the key counter is the number of entries
-- modulo 2 ^ 32.
pub record IsCounted (im : IndexManager) : Type 0 where
  pub table : IsSized im
  pub chains : (i : ℕ) → IsChain HashEntry.eq (slot im i)
  pub counted : im.key_counter % u32_mod ≡ total im.hashtable % u32_mod

-- A thread that works for no collector.
abbrev pub IsPlain : Point → Type 0
IsPlain (waits (updates slice)) = Unit {0}
IsPlain (waits (moves slice)) = true ≡ false
IsPlain (waits (removes e)) = Unit {0}
IsPlain (admitted slice) = Unit {0}
IsPlain (matched slice) = true ≡ false
IsPlain (returned b) = Unit {0}

-- The key of an insert that passed the test is still not there, and no two such inserts are in one
-- slot.
pub record AreSteady (im : IndexManager) (ps : List Point) : Type 0 where
  pub index : IsCounted im
  pub plain : (t : ℕ) (p : Point) → get_elem? ps t ≡ some p → IsPlain p
  pub absent :
      (t : ℕ) (a : KvSlice)
      → get_elem? ps t ≡ some (admitted a)
      → LinkedList.search HashEntry.eq (slot im (hash_index im a.digest)) a.entry ≡ false
  pub apart :
      (t u : ℕ) (a b : KvSlice)
      → get_elem? ps t ≡ some (admitted a)
      → get_elem? ps u ≡ some (admitted b)
      → hash_index im a.digest ≡ hash_index im b.digest
      → t ≡ u

pub unlocked :
    (n i : ℕ) (ps : List Point) (u : ℕ) (b : KvSlice)
    → is_held n i ps ≡ false
    → get_elem? ps u ≡ some (admitted b)
    → hash b.digest % n ≢ i
unfolding is_held
unlocked n i [] u b free h = absurd (ground (arith, h))
unlocked n i (p ∷ ps) zero b free h = λ e.
    let here : p ≡ admitted b = some-injective p (admitted b) h in
    let free' : ((hash b.digest % n == i) || is_held n i ps) ≡ false =
      subst (λ (q : Point). is_held n i (q ∷ ps) ≡ false) here free in
    ground (arith, free', e)
unlocked n i (p ∷ ps) (suc u) b free h = unlocked n i ps u b (ground (arith, free)) h

-- Putting an entry, with a key counter that has gone up by one where its key was not there.
pub put-IsCounted :
    (im : IndexManager) (i k theory : ℕ) (e : HashEntry)
    → IsCounted im
    → i < im.ht_size
    → k % u32_mod
      ≡ (im.key_counter + (if LinkedList.search HashEntry.eq (slot im i) e then 0 else 1)) % u32_mod
    → IsCounted (record im {
      hashtable = set im.hashtable i (LinkedList.put HashEntry.eq (slot im i) e).0;
      key_counter = k;
      data_theory_size = theory;
    })
put-IsCounted im i k theory e v low h =
    let new = (LinkedList.put HashEntry.eq (slot im i) e).0 in
    let inside : i < length im.hashtable = omega (arith, low, v.table.sized) in
    record {
      table = record {
        sized = length-set im.hashtable i new ∙ v.table.sized;
        positive = v.table.positive;
      };
      chains =
          set_chains im.hashtable i new v.chains
            (put-IsChain HashEntry.eq eq-IsEquiv (slot im i) e (v.chains i)) inside;
      counted = ground (
        arith,
        total-set im.hashtable i new inside,
        size-put HashEntry.eq eq-IsEquiv (slot im i) e,
        v.counted,
        h,
      );
    }

pub remove-IsCounted :
    (im : IndexManager) (i : ℕ) (e : HashEntry)
    → IsCounted im
    → i < im.ht_size
    → LinkedList.search HashEntry.eq (slot im i) e ≡ true
    → IsCounted (record im {
      hashtable = set im.hashtable i (LinkedList.remove HashEntry.eq (slot im i) e).0;
      key_counter = u32_sub im.key_counter 1;
    })
remove-IsCounted im i e v low h =
    let new = (LinkedList.remove HashEntry.eq (slot im i) e).0 in
    let inside : i < length im.hashtable = omega (arith, low, v.table.sized) in
    let sum = total-set im.hashtable i new inside in
    let shorter = size-remove HashEntry.eq eq-IsEquiv (slot im i) e (v.chains i) in
    record {
      table = record {
        sized = length-set im.hashtable i new ∙ v.table.sized;
        positive = v.table.positive;
      };
      chains =
          set_chains im.hashtable i new v.chains
            (remove-IsChain HashEntry.eq eq-IsEquiv (slot im i) e (v.chains i)) inside;
      counted = ground (arith, sum, shorter, h, v.counted);
    }

-- A step of thread `t` that leaves the slots in which other inserts are under way, and that is a test
-- of an insert only for a key that is not there, in a slot with no other insert.
pub kept :
    (im : IndexManager) (table : List (LinkedList HashEntry)) (k theory : ℕ) (ps : List Point)
    (t : ℕ) (p q : Point)
    → AreSteady im ps
    → get_elem? ps t ≡ some p
    → let im' = record im { hashtable = table; key_counter = k; data_theory_size = theory } in
      IsCounted im'
      → IsPlain q
      → ((u : ℕ) (b : KvSlice)
          → t ≢ u
          → get_elem? ps u ≡ some (admitted b)
          → slot im' (hash_index im b.digest) ≡ slot im (hash_index im b.digest))
      → ((a : KvSlice)
          → q ≡ admitted a
          → (LinkedList.search HashEntry.eq (slot im' (hash_index im a.digest)) a.entry ≡ false)
            × ((u : ℕ) (b : KvSlice)
                → t ≢ u
                → get_elem? ps u ≡ some (admitted b)
                → hash_index im b.digest ≢ hash_index im a.digest))
      → AreSteady im' (set ps t q)
kept im table k theory ps t p q v here index plain same new = record {
  index = index;
  plain = λ u r h. elim (Bool-cases (t == u)) [
    | inl e ↦ subst IsPlain (some-injective q r (sym (mine u (ground arith)) ∙ h)) plain
    | inr n ↦ v.plain u r (sym (theirs u (λ e. ground (arith, n, e))) ∙ h)
  ];
  absent = λ u a h. elim (Bool-cases (t == u)) [
    | inl e ↦ (new a (some-injective q (admitted a) (sym (mine u (ground arith)) ∙ h))).0
    | inr n ↦
        let ne : t ≢ u = λ e. ground (arith, n, e) in
        let before = sym (theirs u ne) ∙ h in
        ap (λ (l : LinkedList HashEntry). LinkedList.search HashEntry.eq l a.entry)
          (same u a ne before)
        ∙ v.absent u a before
  ];
  apart = λ u w a b g h e. elim (Bool-cases (t == u)) [
    | inl first ↦ elim (Bool-cases (t == w)) [
      | inl second ↦ ground arith
      | inr n ↦
          let ne : t ≢ w = λ x. ground (arith, n, x) in
          let q_a = some-injective q (admitted a) (sym (mine u (ground arith)) ∙ g) in
          absurd ((new a q_a).1 w b ne (sym (theirs w ne) ∙ h) (sym e))
    ]
    | inr n ↦
        let ne : t ≢ u = λ x. ground (arith, n, x) in
        elim (Bool-cases (t == w)) [
          | inl second ↦
              let q_b = some-injective q (admitted b) (sym (mine w (ground arith)) ∙ h) in
              absurd ((new b q_b).1 u a ne (sym (theirs u ne) ∙ g) e)
          | inr m ↦
              let ne' : t ≢ w = λ x. ground (arith, m, x) in
              v.apart u w a b (sym (theirs u ne) ∙ g) (sym (theirs w ne') ∙ h) e
        ]
  ];
}
  where
    mine : (u : ℕ) → t ≡ u → get_elem? (set ps t q) u ≡ some q
    mine u e =
        subst (λ (x : ℕ). get_elem? (set ps t q) x ≡ some q) e (get_elem?-set_self ps t q p here)

    theirs : (u : ℕ) → t ≢ u → get_elem? (set ps t q) u ≡ get_elem? ps u
    theirs u n = get_elem?-set_ne ps t u q n
