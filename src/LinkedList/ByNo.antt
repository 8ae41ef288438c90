-- ===== src/LinkedList/ByNo.antt =====
-- search_no and get_by_no of the chain (LinkedList.h).
use hlkvds.Prelude.{
  ℕ, zero, suc, ◌+◌, ◌<◌, ◌≤◌, ◌≡◌, refl, Bool, none, some, List, [], ◌∷◌, arith, length, ◌⊎◌, inl,
  inr, Bool-cases, ltb,
}
use hlkvds.LinkedList.{
  LinkedList, null, fault, at, walk, get_by_no, ref_in, get_ref, no_from, search_no,
}
use hlkvds.LinkedList.Laws.{IsChain}

module _ {ℓ} {A : Type ℓ} (eq : A → A → Bool) where
  no_from-bound :
      (pos : ℕ) (xs : List A) (a : A) (i : ℕ)
      → no_from eq pos xs a ≡ some i
      → (pos ≤ i) × (i < pos + length xs)
  unfolding no_from
  no_from-bound pos [] a i e = ground arith
  no_from-bound pos (x ∷ xs) a i e = ground (arith, no_from-bound (suc pos) xs a i)

  walk-no_from :
      (pos : ℕ) (xs : List A) (a : A)
      → (no_from eq pos xs a ≡ none) × (ref_in eq xs a ≡ none)
        ⊎ ((i : ℕ) × (b : A) × (no_from eq pos xs a ≡ some (pos + i))
            × (ref_in eq xs a ≡ some b)
            × (walk xs i ≡ at b)
            × (i < length xs))
  unfolding no_from ref_in walk
  walk-no_from pos [] a = inl (refl, refl)
  walk-no_from pos (x ∷ xs) a = elim (Bool-cases (eq x a)) [
    | inl e ↦ inr (0, x, ground arith, ground arith, refl, omega arith)
    | inr e ↦ elim (walk-no_from (suc pos) xs a) [
      | inl (p, q) ↦ rw e (inl (p, q))
      | inr (i, b, p, q, r, s) ↦ rw e (inr (suc i, b, ground arith, q, r, omega arith))
    ]
  ]

  -- `search_no` and `get_ref` agree: either both find nothing, or the number that `search_no` gives
  -- is in range and `get_by_no` at that number is what `get_ref` gives.
  pub get_by_no-search_no :
      (l : LinkedList A) (a : A)
      → IsChain eq l
      → (search_no eq l a ≡ none) × (get_ref eq l a ≡ none)
        ⊎ ((i : ℕ) × (b : A) × (search_no eq l a ≡ some i)
            × (get_ref eq l a ≡ some b)
            × (get_by_no l i ≡ at b)
            × (i < l.size))
  unfolding search_no get_ref get_by_no
  get_by_no-search_no l a v = elim (walk-no_from 0 l.nodes a) [
    | inl h ↦ inl h
    | inr (i, b, p, q, r, s) ↦
        inr (i, b, ground arith, q, ground (arith, v.sized), omega (arith, v.sized))
  ]

walk_inside {ℓ} : {A : Type ℓ} (xs : List A) (i : ℕ) → i < length xs → (a : A) × (walk xs i ≡ at a)
unfolding walk
walk_inside [] i h = absurd (omega arith)
walk_inside (x ∷ xs) zero h = (x, refl)
walk_inside (x ∷ xs) (suc i) h = walk_inside xs i (omega arith)

walk_end {ℓ} : {A : Type ℓ} (xs : List A) → walk xs (length xs) ≡ fault
unfolding walk
walk_end [] = refl
walk_end (x ∷ xs) = walk_end xs

-- `get_by_no` gives an element below `size_` and the null pointer above it. At `size_` itself, which
-- its test `no > size_` lets through, it dereferences the null pointer behind the last node.
pub get_by_no_range {ℓ} :
    {A : Type ℓ} (eq : A → A → Bool) (l : LinkedList A) (i : ℕ)
    → IsChain eq l
    → (i < l.size) × ((a : A) × (get_by_no l i ≡ at a))
      ⊎ (i ≡ l.size) × (get_by_no l i ≡ fault)
      ⊎ (l.size < i) × (get_by_no l i ≡ null)
unfolding get_by_no
get_by_no_range eq l i v = elim (Bool-cases (ltb i l.size)) [
  | inl below ↦
      let (a, e) = walk_inside l.nodes i (ground (arith, v.sized)) in
      inl (ground arith, (a, ground arith))
  | inr other ↦ elim (Bool-cases (ltb l.size i)) [
    | inl above ↦ inr (inr (ground arith, ground arith))
    | inr here ↦
        let e : i ≡ l.size = ground arith in
        inr (inl (e, rw e (ground (arith, v.sized, walk_end l.nodes))))
  ]
]
