-- ===== src/LinkedList.antt =====
-- LinkedList.h: the chain of one slot of the index. The nodes in order are a list; `size_` is a
-- counter of its own. The type of the elements comes with its `operator==`, here `eq`.
pub mod Laws
pub mod ByNo
use hlkvds.Prelude.{
  ℕ, zero, suc, ◌+◌, ◌-◌, Bool, true, false, Option, none, some, List, [], ◌∷◌, ltb, if◌then◌else◌,
}

pub record LinkedList {ℓ} (A : Type ℓ) : Type ℓ where
  pub nodes : List A
  pub size : ℕ

-- What `getByNo` gives: the null pointer, a dereference of the null pointer, or an element.
pub data Ref {ℓ} (A : Type ℓ) : Type ℓ where
  null : Ref A
  fault : Ref A
  at : A → Ref A

module _ {ℓ} {A : Type ℓ} where
  unfoldable pub empty : LinkedList A
  empty = record { nodes = []; size = 0 }

  -- `getByNo` walks `no` nodes without a test; only `no > size_` is refused.
  unfoldable pub walk : List A → ℕ → Ref A
  walk [] pos = fault
  walk (x ∷ xs) zero = at x
  walk (x ∷ xs) (suc pos) = walk xs pos

  unfoldable pub get_by_no : LinkedList A → ℕ → Ref A
  unfolding walk
  get_by_no l pos = if ltb l.size pos then null else walk l.nodes pos

module _ {ℓ} {A : Type ℓ} (eq : A → A → Bool) where
  unfoldable pub search_in : List A → A → Bool
  search_in [] a = false
  search_in (x ∷ xs) a = if eq x a then true else search_in xs a

  unfoldable pub search : LinkedList A → A → Bool
  unfolding search_in
  search l a = search_in l.nodes a

  -- The walk of `put`, with its flag: an equal element is overwritten in place, otherwise the new
  -- node goes to the end and the flag is true.
  unfoldable pub put_in : List A → A → List A × Bool
  put_in [] a = (a ∷ [], true)
  put_in (x ∷ xs) a =
      let rest = put_in xs a in if eq x a then (a ∷ xs, false) else (x ∷ rest.0, rest.1)

  unfoldable pub put : LinkedList A → A → LinkedList A × Bool
  unfolding put_in
  put l a =
      let (nodes, is_new) = put_in l.nodes a in
      (record { nodes = nodes; size = if is_new then l.size + 1 else l.size }, is_new)

  -- The walk of `remove`, with its flag: the first equal element is unlinked.
  unfoldable pub remove_in : List A → A → List A × Bool
  remove_in [] a = ([], false)
  remove_in (x ∷ xs) a =
      let rest = remove_in xs a in if eq x a then (xs, true) else (x ∷ rest.0, rest.1)

  unfoldable pub remove : LinkedList A → A → LinkedList A × Bool
  unfolding remove_in
  remove l a =
      let (nodes, flag) = remove_in l.nodes a in
      (record { nodes = nodes; size = if flag then l.size - 1 else l.size }, flag)

  unfoldable pub ref_in : List A → A → Option A
  ref_in [] a = none
  ref_in (x ∷ xs) a = if eq x a then some x else ref_in xs a

  unfoldable pub get_ref : LinkedList A → A → Option A
  unfolding ref_in
  get_ref l a = ref_in l.nodes a

  -- `searchNo` counts from `no`; -1 is `none`.
  unfoldable pub no_from : ℕ → List A → A → Option ℕ
  no_from pos [] a = none
  no_from pos (x ∷ xs) a = if eq x a then some pos else no_from (suc pos) xs a

  unfoldable pub search_no : LinkedList A → A → Option ℕ
  unfolding no_from
  search_no l a = no_from 0 l.nodes a
