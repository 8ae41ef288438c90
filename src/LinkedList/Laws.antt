-- ===== src/LinkedList/Laws.antt =====
-- The chain against a finite map from equality classes to elements (LinkedList.h).
use hlkvds.Prelude.{
  ◌+◌, ◌≡◌, refl, Bool, true, false, none, some, List, [], ◌∷◌, arith, if◌then◌else◌, length, ◌⊎◌,
  inl, inr, Bool-cases, not,
}
use hlkvds.LinkedList.{
  LinkedList, empty, search_in, search, put_in, put, remove_in, remove, ref_in, get_ref,
}

-- `operator==` is an equivalence.
pub record IsEquiv {ℓ} {A : Type ℓ} (eq : A → A → Bool) : Type ℓ where
  pub eq_refl : (a : A) → eq a a ≡ true
  pub eq_sym : (a b : A) → eq a b ≡ eq b a
  pub eq_trans : (a b c : A) → eq a b ≡ true → eq b c ≡ eq a c

module _ {ℓ} {A : Type ℓ} (eq : A → A → Bool) where
  -- No two elements are equal.
  abbrev pub Distinct : List A → Type 0
  Distinct [] = Unit {0}
  Distinct (x ∷ xs) = (search_in eq xs x ≡ false) × Distinct xs

  -- The counter is the number of nodes, and no two of them are equal.
  pub record IsChain (l : LinkedList A) : Type 0 where
    pub sized : l.size ≡ length l.nodes
    pub distinct : Distinct l.nodes

  -- `search` answers whether `get_ref` finds something.
  pub search-get_ref :
      (l : LinkedList A) (a : A)
      → (search eq l a ≡ false) × (get_ref eq l a ≡ none)
        ⊎ ((b : A) × (search eq l a ≡ true) × (get_ref eq l a ≡ some b) × (eq b a ≡ true))
  unfolding search get_ref
  search-get_ref l a = go l.nodes
    where
      go :
          (xs : List A)
          → (search_in eq xs a ≡ false) × (ref_in eq xs a ≡ none)
            ⊎ ((b : A) × (search_in eq xs a ≡ true) × (ref_in eq xs a ≡ some b) × (eq b a ≡ true))
      go [] = inl (refl, refl)
      go (x ∷ xs) = elim (Bool-cases (eq x a)) [
        | inl e ↦ inr (x, ground arith, ground arith, e)
        | inr e ↦ rw e (go xs)
      ]

  module _ (equiv : IsEquiv eq) where
    ref_in-put_in :
        (xs : List A) (a b : A)
        → ref_in eq (put_in eq xs a).0 b ≡ (if eq a b then some a else ref_in eq xs b)
    unfolding ref_in put_in
    ref_in-put_in [] a b = refl
    ref_in-put_in (x ∷ xs) a b = ground (
      arith,
      ref_in-put_in xs a b,
      equiv.eq_trans x a b,
      equiv.eq_trans a b x,
      equiv.eq_sym x a,
      equiv.eq_sym x b,
    )

    search_in-put_in :
        (xs : List A) (a b : A)
        → search_in eq (put_in eq xs a).0 b ≡ (if eq a b then true else search_in eq xs b)
    unfolding search_in put_in
    search_in-put_in [] a b = refl
    search_in-put_in (x ∷ xs) a b = ground (
      arith,
      search_in-put_in xs a b,
      equiv.eq_trans x a b,
      equiv.eq_trans a b x,
      equiv.eq_sym x a,
      equiv.eq_sym x b,
    )

    search_in_cong : (xs : List A) (a b : A) → eq a b ≡ true → search_in eq xs a ≡ search_in eq xs b
    unfolding search_in
    search_in_cong [] a b e = refl
    search_in_cong (x ∷ xs) a b e =
        ground
          (arith, search_in_cong xs a b e, equiv.eq_trans a b x, equiv.eq_sym x a, equiv.eq_sym x b)

    ref_in_cong : (xs : List A) (a b : A) → eq a b ≡ true → ref_in eq xs a ≡ ref_in eq xs b
    unfolding ref_in
    ref_in_cong [] a b e = refl
    ref_in_cong (x ∷ xs) a b e =
        ground
          (arith, ref_in_cong xs a b e, equiv.eq_trans a b x, equiv.eq_sym x a, equiv.eq_sym x b)

    -- Equal probes find the same element.
    pub get_ref_cong :
        (l : LinkedList A) (a b : A) → eq a b ≡ true → get_ref eq l a ≡ get_ref eq l b
    unfolding get_ref
    get_ref_cong l a b e = ref_in_cong l.nodes a b e

    put_in-Distinct : (xs : List A) (a : A) → Distinct xs → Distinct (put_in eq xs a).0
    unfolding put_in search_in
    put_in-Distinct [] a d = (refl, tt)
    put_in-Distinct (x ∷ xs) a d = ground (
      arith,
      put_in-Distinct xs a d.1,
      search_in-put_in xs a x,
      search_in_cong xs x a,
      equiv.eq_sym x a,
    )

    length-put_in :
        (xs : List A) (a : A)
        → ((put_in eq xs a).1 ≡ not (search_in eq xs a))
          × (length (put_in eq xs a).0 ≡ (if search_in eq xs a then length xs else length xs + 1))
    unfolding put_in search_in
    length-put_in [] a = (refl, refl)
    length-put_in (x ∷ xs) a = ground (arith, length-put_in xs a)

    ref_in_absent : (xs : List A) (a : A) → search_in eq xs a ≡ false → ref_in eq xs a ≡ none
    unfolding search_in ref_in
    ref_in_absent [] a h = refl
    ref_in_absent (x ∷ xs) a h = ground (arith, ref_in_absent xs a)

    ref_in-remove_in :
        (xs : List A) (a b : A)
        → Distinct xs
        → ref_in eq (remove_in eq xs a).0 b ≡ (if eq a b then none else ref_in eq xs b)
    unfolding ref_in remove_in
    ref_in-remove_in [] a b d = ground arith
    ref_in-remove_in (x ∷ xs) a b d = ground (
      arith,
      ref_in-remove_in xs a b d.1,
      equiv.eq_trans x a b,
      equiv.eq_trans a b x,
      equiv.eq_sym x a,
      equiv.eq_sym x b,
      search_in_cong xs x b,
      ref_in_absent xs b,
    )

    search_in-remove_in :
        (xs : List A) (a b : A)
        → search_in eq xs b ≡ false
        → search_in eq (remove_in eq xs a).0 b ≡ false
    unfolding search_in remove_in
    search_in-remove_in [] a b h = refl
    search_in-remove_in (x ∷ xs) a b h = ground (arith, search_in-remove_in xs a b)

    remove_in-Distinct : (xs : List A) (a : A) → Distinct xs → Distinct (remove_in eq xs a).0
    unfolding remove_in
    remove_in-Distinct [] a d = tt
    remove_in-Distinct (x ∷ xs) a d =
        ground (arith, remove_in-Distinct xs a d.1, search_in-remove_in xs a x)

    length-remove_in :
        (xs : List A) (a : A)
        → ((remove_in eq xs a).1 ≡ search_in eq xs a)
          × (length xs ≡ length (remove_in eq xs a).0 + (if search_in eq xs a then 1 else 0))
    unfolding remove_in search_in
    length-remove_in [] a = (refl, refl)
    length-remove_in (x ∷ xs) a = ground (arith, length-remove_in xs a)

    pub get_ref-put :
        (l : LinkedList A) (a b : A)
        → get_ref eq (put eq l a).0 b ≡ (if eq a b then some a else get_ref eq l b)
    unfolding get_ref put
    get_ref-put l a b = ref_in-put_in l.nodes a b

    pub put-IsChain : (l : LinkedList A) (a : A) → IsChain l → IsChain (put eq l a).0
    unfolding put
    put-IsChain l a v = record {
      sized = ground (arith, length-put_in l.nodes a, v.sized);
      distinct = put_in-Distinct l.nodes a v.distinct;
    }

    pub size-put :
        (l : LinkedList A) (a : A)
        → (put eq l a).0.size ≡ (if search eq l a then l.size else l.size + 1)
    unfolding put search
    size-put l a = ground (arith, length-put_in l.nodes a)

    pub get_ref-remove :
        (l : LinkedList A) (a b : A)
        → IsChain l
        → get_ref eq (remove eq l a).0 b ≡ (if eq a b then none else get_ref eq l b)
    unfolding get_ref remove
    get_ref-remove l a b v = ref_in-remove_in l.nodes a b v.distinct

    pub remove-IsChain : (l : LinkedList A) (a : A) → IsChain l → IsChain (remove eq l a).0
    unfolding remove
    remove-IsChain l a v = record {
      sized = ground (arith, length-remove_in l.nodes a, v.sized);
      distinct = remove_in-Distinct l.nodes a v.distinct;
    }

    pub size-remove :
        (l : LinkedList A) (a : A)
        → IsChain l
        → l.size ≡ (remove eq l a).0.size + (if search eq l a then 1 else 0)
    unfolding remove search
    size-remove l a v = ground (arith, length-remove_in l.nodes a, v.sized)

    -- On a chain without equal elements `put` and `remove` keep it so with its counter exact, their
    -- flags say whether the element was absent or present, and a later `get_ref` sees the element
    -- put, nothing where one was removed, and everything else as before.
    pub put-remove-IsChain :
        (l : LinkedList A) (a b : A)
        → IsChain l
        → IsChain (put eq l a).0
          × IsChain (remove eq l a).0
          × ((put eq l a).1 ≡ not (search eq l a))
          × ((remove eq l a).1 ≡ search eq l a)
          × (get_ref eq (put eq l a).0 b ≡ (if eq a b then some a else get_ref eq l b))
          × (get_ref eq (remove eq l a).0 b ≡ (if eq a b then none else get_ref eq l b))
    unfolding search put remove
    put-remove-IsChain l a b v = (
      put-IsChain l a v,
      remove-IsChain l a v,
      (length-put_in l.nodes a).0,
      (length-remove_in l.nodes a).0,
      get_ref-put l a b,
      get_ref-remove l a b v,
    )

  pub empty-IsChain : IsChain empty
  unfolding empty
  empty-IsChain = record { sized = refl; distinct = tt }
