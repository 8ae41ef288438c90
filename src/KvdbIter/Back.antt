-- ===== src/KvdbIter/Back.antt =====
-- Prev of the iterator against Next (KvdbIter.cc).
use hlkvds.Prelude.{
  ℕ, zero, suc, ◌+◌, ◌-◌, ◌<◌, ◌≤◌, ◌≡◌, refl, ◌∙◌, true, some, arith, ltb, ◌==◌, ap, Bool-cases,
  inl, inr, subst,
}
use hlkvds.IndexManager.{IndexManager, slot}
use hlkvds.IndexManager.Table.{Inv}
use hlkvds.KvdbIter.{KvdbIter, first_nonempty, last_nonempty, stand_on, next, prev}
use hlkvds.KvdbIter.Slots.{next_step}

first_nonempty_skips :
    (im : IndexManager) (n i k m : ℕ)
    → first_nonempty im n i ≡ some k
    → i ≤ m
    → m < k
    → (slot im m).size ≡ 0
unfolding first_nonempty
first_nonempty_skips im zero i k m e h b = ground (arith, e)
first_nonempty_skips im (suc n) i k m e h b = elim (Bool-cases (ltb 0 (slot im i).size)) [
  | inl some_here ↦ ground (arith, e, some_here)
  | inr none_here ↦ elim (Bool-cases (i == m)) [
    | inl here ↦
        let p : i ≡ m = ground arith in
        subst (λ (x : ℕ). (slot im x).size ≡ 0) p (ground (arith, none_here))
    | inr other ↦
        first_nonempty_skips im n (suc i) k m (ground (arith, e, none_here)) (ground arith) b
  ]
]

last_nonempty_of :
    (im : IndexManager) (k i : ℕ)
    → i < k
    → 0 < (slot im i).size
    → ((m : ℕ) → i < m → m < k → (slot im m).size ≡ 0)
    → last_nonempty im k ≡ some i
unfolding last_nonempty
last_nonempty_of im zero i a b h = absurd (omega arith)
last_nonempty_of im (suc k) i a b h = elim (Bool-cases (i == k)) [
  | inl here ↦
      let p : i ≡ k = ground arith in
      subst (λ (x : ℕ). last_nonempty im (suc x) ≡ some i) p (ground (arith, b))
  | inr other ↦
      let z = h k (ground arith) (omega arith) in
      let rest = last_nonempty_of im k i (ground arith) b (λ m x y. h m x (omega arith)) in
      ground (arith, z, rest)
]

prev_in_slot :
    (im : IndexManager) (it : KvdbIter) (i j : ℕ)
    → prev im (stand_on im it i (suc j)) ≡ stand_on im it i j
unfolding prev stand_on
prev_in_slot im it i j =
    let e : ltb 0 (suc j) ≡ true = ground arith in
    let f : suc j - 1 ≡ j = omega arith in rw (e, f) refl

prev_to_slot :
    (im : IndexManager) (it : KvdbIter) (i k : ℕ)
    → last_nonempty im k ≡ some i
    → prev im (stand_on im it k 0) ≡ stand_on im it i ((slot im i).size - 1)
unfolding prev stand_on
prev_to_slot im it i k e = rw e refl

-- Prev undoes Next: from an entry of a slot, where Next finds another entry, Prev goes back to the
-- first one.
pub prev-next :
    (im : IndexManager) (it : KvdbIter) (i j : ℕ)
    → Inv im
    → it.ht_size ≡ im.ht_size
    → i < im.ht_size
    → j < (slot im i).size
    → (next im (stand_on im it i j)).valid ≡ true
    → prev im (next im (stand_on im it i j)) ≡ stand_on im it i j
prev-next im it i j v z a b ok = elim (next_step im it i j (λ k. (v.chains k).sized) z a) [
  | inl (x, y) ↦
      let s : j + 1 ≡ suc j = omega arith in ap (prev im) y ∙ (rw s (prev_in_slot im it i j))
  | inr (inl (x, none_left, (o, y))) ↦ absurd (ground (arith, ap (λ (t : KvdbIter). t.valid) y, ok))
  | inr (inr (k, x, inside, has, left, found, above, y)) ↦
      let back =
        last_nonempty_of im k i above (omega arith) (λ m p q.
          first_nonempty_skips im (im.ht_size - suc i) (suc i) k m found (omega arith) q) in
      let e : (slot im i).size - 1 ≡ j = omega arith in
      ap (prev im) y ∙ prev_to_slot im it i k back ∙ ap (stand_on im it i) e
]
