-- ===== src/IndexManager/Table.antt =====
-- The invariant of the index: its chains, and its key counter against its entries
-- (IndexManager.cc).
use hlkvds.Prelude.{
  ℕ, zero, suc, ◌+◌, ◌<◌, ◌≤◌, ◌≡◌, refl, List, [], ◌∷◌, arith, sym, subst, ◌==◌, get_or, set,
  length, replicate, length-replicate, u32_mod, get_or-set_self, get_or-set_ne, Bool-cases, inl,
  inr,
}
use hlkvds.HashEntry.{HashEntry, digest_of, data_size_of, stamp_lt, eq-IsEquiv, eq-digest}
use hlkvds.HashEntry
use hlkvds.KvSlice.{KvSlice}
use hlkvds.LinkedList.{LinkedList, empty}
use hlkvds.LinkedList.Laws.{IsChain, empty-IsChain}
use hlkvds.IndexManager.{IndexManager, slot, init_meta}
use hlkvds.IndexManager.Lookup.{IsSized}
use hlkvds.IndexManager.Find.{IsFilled}

-- The entries of all slots.
unfoldable pub total : List (LinkedList HashEntry) → ℕ
total [] = 0
total (l ∷ t) = l.size + total t

-- Every slot holds a chain with an exact counter and no key twice, and the key counter, at most
-- the size of the table, is the number of entries.
pub record Inv (im : IndexManager) : Type 0 where
  pub table : IsSized im
  pub word : im.ht_size < u32_mod
  pub chains : (i : ℕ) → IsChain HashEntry.eq (slot im i)
  pub counted : im.key_counter ≡ total im.hashtable
  pub bounded : im.key_counter ≤ im.ht_size

pub total-set :
    (t : List (LinkedList HashEntry)) (i : ℕ) (l : LinkedList HashEntry)
    → i < length t
    → total (set t i l) + (get_or t i empty).size ≡ total t + l.size
unfolding total
total-set [] i l h = absurd (omega arith)
total-set (x ∷ t) zero l h = omega arith
total-set (x ∷ t) (suc i) l h = omega (arith, total-set t i l (omega arith))

pub set_chains :
    (t : List (LinkedList HashEntry)) (i : ℕ) (l : LinkedList HashEntry)
    → ((k : ℕ) → IsChain HashEntry.eq (get_or t k empty))
    → IsChain HashEntry.eq l
    → i < length t
    → (k : ℕ) → IsChain HashEntry.eq (get_or (set t i l) k empty)
set_chains t i l all v h k = elim (Bool-cases (i == k)) [
  | inl here ↦
      let e : i ≡ k = ground arith in
      subst (λ (j : ℕ). IsChain HashEntry.eq (get_or (set t i l) j empty)) e
        (subst (IsChain HashEntry.eq) (sym (get_or-set_self t i l empty h)) v)
  | inr other ↦
      subst (IsChain HashEntry.eq) (sym (get_or-set_ne t i k l empty (λ p. ground arith))) (all k)
]

replicate_chains : (n k : ℕ) → IsChain HashEntry.eq (get_or (replicate n empty) k empty)
replicate_chains zero k = empty-IsChain HashEntry.eq
replicate_chains (suc n) zero = empty-IsChain HashEntry.eq
replicate_chains (suc n) (suc k) = replicate_chains n k

total-replicate : (n : ℕ) → total (replicate n empty) ≡ 0
unfolding total empty
total-replicate zero = refl
total-replicate (suc n) = omega (arith, total-replicate n)

-- A new table, as CreateMetaData makes it, satisfies the invariant.
pub init_meta-Inv :
    (ht_size ondisk : ℕ) → 0 < ht_size → ht_size < u32_mod → Inv (init_meta ht_size ondisk 0 0)
unfolding init_meta
init_meta-Inv n ondisk h w = record {
  table = record { sized = length-replicate n empty; positive = h };
  word = w;
  chains = replicate_chains n;
  counted = sym (total-replicate n);
  bounded = omega arith;
}

pub slot_inside :
    (im : IndexManager) (i : ℕ) → IsSized im → i < im.ht_size → i < length im.hashtable
slot_inside im i v h = omega (arith, v.sized)

-- A slice that a garbage collection moves: its new entry, its old one and itself have one key.
abbrev pub IsMoved : KvSlice → Type 0
IsMoved slice = IsFilled slice × (digest_of slice.entry_gc ≡ slice.digest)
