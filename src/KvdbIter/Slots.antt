-- ===== src/KvdbIter/Slots.antt =====
-- The entries of the index slot by slot, and Next of the iterator from any of them
-- (KvdbIter.cc).
use hlkvds.Prelude.{
  ℕ, zero, suc, ◌+◌, ◌-◌, ◌<◌, ◌≤◌, ◌≡◌, refl, ◌∙◌, Option, none, some, List, [], ◌∷◌, ◌++◌, arith,
  ltb, if◌then◌else◌, length, drop, ap, Bool-cases, inl, inr, ◌⊎◌,
}
use hlkvds.HashEntry.{HashEntry}
use hlkvds.IndexManager.{IndexManager, slot}
use hlkvds.LinkedList.{at, get_by_no, walk}
use hlkvds.KvdbIter.{KvdbIter, first_nonempty, stand_on, stand_off, next}

-- The entries of `n` slots from `i` on, slot by slot.
unfoldable pub entries_from : IndexManager → ℕ → ℕ → List HashEntry
entries_from im zero i = []
entries_from im (suc n) i = (slot im i).nodes ++ entries_from im n (suc i)

-- All entries of the index.
abbrev pub entries : IndexManager → List HashEntry
entries im = entries_from im im.ht_size 0

-- Every counter is the length of its chain.
abbrev pub Counted : IndexManager → Type 0
Counted im = (i : ℕ) → (slot im i).size ≡ length (slot im i).nodes

no_nodes {ℓ} : {A : Type ℓ} (l : List A) → length l ≡ 0 → l ≡ []
no_nodes [] h = refl
no_nodes (x ∷ l) h = absurd (omega arith)

-- The search for the next slot skips only empty ones.
pub first_nonempty-lem :
    (im : IndexManager) (n i : ℕ)
    → Counted im
    → (first_nonempty im n i ≡ none) × (entries_from im n i ≡ [])
      ⊎ ((k : ℕ) × (first_nonempty im n i ≡ some k)
          × (i ≤ k)
          × (k < i + n)
          × (0 < (slot im k).size)
          × (entries_from im n i ≡ (slot im k).nodes ++ entries_from im (i + n - suc k) (suc k)))
unfolding first_nonempty entries_from
first_nonempty-lem im zero i c = inl (refl, refl)
first_nonempty-lem im (suc n) i c = elim (Bool-cases (ltb 0 (slot im i).size)) [
  | inl some_here ↦
      let e : i + suc n - suc i ≡ n = omega arith in
      inr (i, rw some_here refl, omega arith, omega arith, ground arith, rw e refl)
  | inr none_here ↦
      let e = no_nodes (slot im i).nodes (ground (arith, c i)) in
      elim (first_nonempty-lem im n (suc i) c) [
        | inl (p, q) ↦ inl (rw none_here p, rw e q)
        | inr (k, p, a, b, d, q) ↦
            let f : i + suc n - suc k ≡ suc i + n - suc k = omega arith in
            inr (k, rw none_here p, omega arith, omega arith, d, rw (e, f) q)
      ]
]

walk-drop {ℓ} :
    {A : Type ℓ} (l : List A) (j : ℕ)
    → j < length l
    → (e : A) × (walk l j ≡ at e) × (drop j l ≡ e ∷ drop (suc j) l)
unfolding walk
walk-drop [] j h = absurd (omega arith)
walk-drop (x ∷ l) zero h = (x, refl, refl)
walk-drop (x ∷ l) (suc j) h = walk-drop l j (omega arith)

pub get_by_no-drop :
    (im : IndexManager) (i j : ℕ)
    → Counted im
    → j < (slot im i).size
    → (e : HashEntry) × (get_by_no (slot im i) j ≡ at e)
      × (drop j (slot im i).nodes ≡ e ∷ drop (suc j) (slot im i).nodes)
unfolding get_by_no
get_by_no-drop im i j c h =
    let (e, p, q) = walk-drop (slot im i).nodes j (omega (arith, c i)) in (e, ground arith, q)

pub drop_end {ℓ} : {A : Type ℓ} (l : List A) (j : ℕ) → length l ≤ j → drop j l ≡ []
drop_end [] zero h = refl
drop_end [] (suc j) h = refl
drop_end (x ∷ l) zero h = absurd (omega arith)
drop_end (x ∷ l) (suc j) h = drop_end l j (omega arith)

-- What is still to come from entry `j` of slot `i` on.
abbrev pub to_come : IndexManager → ℕ → ℕ → List HashEntry
to_come im i j = drop j (slot im i).nodes ++ entries_from im (im.ht_size - suc i) (suc i)

-- Next from entry `j` of slot `i`: the next entry of the slot, or the first of the next slot that has
-- one, or nothing.
pub next_step :
    (im : IndexManager) (it : KvdbIter) (i j : ℕ)
    → Counted im
    → it.ht_size ≡ im.ht_size
    → i < im.ht_size
    → (j + 1 < (slot im i).size) × (next im (stand_on im it i j) ≡ stand_on im it i (j + 1))
      ⊎ ((slot im i).size ≤ j + 1)
        × (entries_from im (im.ht_size - suc i) (suc i) ≡ [])
        × ((c : Option ℕ) × (next im (stand_on im it i j) ≡ stand_off (stand_on im it i j) c))
      ⊎ ((k : ℕ) × ((slot im i).size ≤ j + 1)
          × (k < im.ht_size)
          × (0 < (slot im k).size)
          × (entries_from im (im.ht_size - suc i) (suc i) ≡ to_come im k 0)
          × (first_nonempty im (im.ht_size - suc i) (suc i) ≡ some k)
          × (i < k)
          × (next im (stand_on im it i j) ≡ stand_on im it k 0))
unfolding next stand_on
next_step im it i j c z a =
    let same = ap (λ (h : ℕ). first_nonempty im (h - suc i) (suc i)) z in
    elim (Bool-cases (ltb (j + 1) (slot im i).size)) [
      | inl more ↦ inl (ground arith, rw more refl)
      | inr done ↦ elim (first_nonempty-lem im (im.ht_size - suc i) (suc i) c) [
        | inl (p, q) ↦ inr (
            inl (
              ground arith,
              q,
              (
                some (if ltb (suc i) it.ht_size then it.ht_size else suc i),
                rw (done, same ∙ p) refl,
              ),
            ))
        | inr (k, p, x, y, d, q) ↦
            let f : suc i + (im.ht_size - suc i) - suc k ≡ im.ht_size - suc k = omega arith in
            inr (
              inr (
                k,
                ground arith,
                omega arith,
                d,
                q ∙ (rw f refl),
                p,
                omega arith,
                rw (done, same ∙ p) refl,
              ))
      ]
    ]
