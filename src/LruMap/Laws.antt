-- ===== src/LruMap/Laws.antt =====
-- One LRUMap: what it finds, and how much it holds.
use hlkvds.Prelude.{
  ℕ, zero, suc, ◌+◌, ◌-◌, ◌≤◌, ◌<◌, take, ap, ◌≡◌, refl, ◌∙◌, Bool, true, false, Option, none, some,
  List, [], ◌∷◌, arith, ◌==◌, if◌then◌else◌, length, sym, Bool-cases, Option-cases, inl, inr,
}
use hlkvds.LinkedList.Laws.{IsEquiv}
use hlkvds.LruMap.{LruMap, lookup, detach, last_node, drop_last, make, put}

module _ {K V : Type 0} (eq : K → K → Bool) where
  abbrev get_or_new : LruMap K V → K → V → V
  get_or_new m k v = elim (lookup eq m.nodes k) [ none ↦ v | some old ↦ old ]

  -- No key twice.
  abbrev pub Once : List (K × V) → Type 0
  Once [] = Unit {0}
  Once (x ∷ l) = (lookup eq l x.0 ≡ none) × Once l

  -- The nodes in use and the free ones are all that there are, and no key stands twice.
  pub record Inv (size : ℕ) (m : LruMap K V) : Type 0 where
    pub once : Once m.nodes
    pub counted : length m.nodes + m.free ≡ size

  module _ (equiv : IsEquiv eq) where
    lookup_cong : (l : List (K × V)) (a b : K) → eq a b ≡ true → lookup eq l a ≡ lookup eq l b
    unfolding lookup
    lookup_cong [] a b h = refl
    lookup_cong (x ∷ l) a b h = ground (
      arith,
      lookup_cong l a b h,
      equiv.eq_trans x.0 a b,
      equiv.eq_trans a b x.0,
      equiv.eq_sym x.0 a,
      equiv.eq_sym x.0 b,
    )

    lookup-detach :
        (l : List (K × V)) (k j : K)
        → Once l
        → lookup eq (detach eq l k) j ≡ (if eq k j then none else lookup eq l j)
    unfolding lookup detach
    lookup-detach [] k j o = ground arith
    lookup-detach (x ∷ l) k j (p, o) = elim (Bool-cases (eq x.0 k)) [
      | inl here ↦ elim (Bool-cases (eq k j)) [
        | inl same ↦
            let e : eq x.0 j ≡ true = ground (arith, equiv.eq_trans x.0 k j) in
            rw (here, same) (sym (lookup_cong l x.0 j e) ∙ p)
        | inr other ↦
            let e : eq x.0 j ≡ false = ground (arith, equiv.eq_trans k x.0 j, equiv.eq_sym x.0 k) in
            rw (here, other, e) refl
      ]
      | inr there ↦
          ground (arith, there, lookup-detach l k j o, equiv.eq_trans x.0 j k, equiv.eq_sym j k)
    ]

    length-detach :
        (l : List (K × V)) (k : K) (v : V)
        → lookup eq l k ≡ some v
        → length (detach eq l k) + 1 ≡ length l
    unfolding lookup detach
    length-detach [] k v h = ground (arith, h)
    length-detach (x ∷ l) k v h = elim (Bool-cases (eq x.0 k)) [
      | inl here ↦ ground (arith, here)
      | inr there ↦
          let rest = length-detach l k v (ground (arith, h, there)) in ground (arith, there, rest)
    ]

    Once-detach : (l : List (K × V)) (k : K) → Once l → Once (detach eq l k)
    unfolding detach
    Once-detach [] k o = tt
    Once-detach (x ∷ l) k (p, o) = elim (Bool-cases (eq x.0 k)) [
      | inl here ↦ rw here o
      | inr there ↦
          let gone = lookup-detach l k x.0 o in
          rw there (gone ∙ (ground (arith, p)), Once-detach l k o)
    ]

    last_present :
        (l : List (K × V)) (u : K × V) (a : K)
        → last_node eq l ≡ some u
        → lookup eq l a ≡ none
        → eq u.0 a ≡ false
    unfolding last_node lookup
    last_present [] u a h n = ground (arith, h)
    last_present (x ∷ []) u a h n = ground (arith, h, n)
    last_present (x ∷ y ∷ l) u a h n = last_present (y ∷ l) u a h (ground (arith, n))

    lookup-drop_last :
        (l : List (K × V)) (u : K × V) (j : K)
        → Once l
        → last_node eq l ≡ some u
        → lookup eq (drop_last eq l) j ≡ (if eq u.0 j then none else lookup eq l j)
    unfolding lookup last_node drop_last
    lookup-drop_last [] u j o h = ground (arith, h)
    lookup-drop_last (x ∷ []) u j o h = ground (arith, h)
    lookup-drop_last (x ∷ y ∷ l) u j (p, o) h =
        let rest = lookup-drop_last (y ∷ l) u j o h in
        let apart = last_present (y ∷ l) u x.0 h p in
        elim (Bool-cases (eq x.0 j)) [
          | inl here ↦
              let e : eq u.0 j ≡ false =
                ground (arith, equiv.eq_trans u.0 j x.0, equiv.eq_sym j x.0) in
              rw (here, e) refl
          | inr there ↦ rw there rest
        ]

    length-drop_last :
        (l : List (K × V)) (u : K × V)
        → last_node eq l ≡ some u
        → length (drop_last eq l) + 1 ≡ length l
    unfolding last_node drop_last
    length-drop_last [] u h = ground (arith, h)
    length-drop_last (x ∷ []) u h = omega arith
    length-drop_last (x ∷ y ∷ l) u h = omega (arith, length-drop_last (y ∷ l) u h)

    Once-drop_last :
        (l : List (K × V)) (u : K × V) → Once l → last_node eq l ≡ some u → Once (drop_last eq l)
    unfolding drop_last last_node
    Once-drop_last [] u o h = tt
    Once-drop_last (x ∷ []) u o h = tt
    Once-drop_last (x ∷ y ∷ l) u (p, o) h =
        (lookup-drop_last (y ∷ l) u x.0 o h ∙ (ground (arith, p)), Once-drop_last (y ∷ l) u o h)

    last_node-some : (x : K × V) (l : List (K × V)) → (u : K × V) × (last_node eq (x ∷ l) ≡ some u)
    unfolding last_node
    last_node-some x [] = (x, refl)
    last_node-some x (y ∷ l) = last_node-some y l

    last_node-of : (l : List (K × V)) → 0 < length l → (u : K × V) × (last_node eq l ≡ some u)
    last_node-of [] h = absurd (omega arith)
    last_node-of (x ∷ l) h = last_node-some x l

  -- The entries of the other keys, in their order.
  unfoldable pub without : List (K × V) → K → List (K × V)
  without [] k = []
  without (x ∷ l) k = let rest = without l k in if eq x.0 k then rest else x ∷ rest

  without_absent : (l : List (K × V)) (k : K) → lookup eq l k ≡ none → without l k ≡ l
  unfolding lookup without
  without_absent [] k h = refl
  without_absent (x ∷ l) k h = elim (Bool-cases (eq x.0 k)) [
    | inl here ↦ absurd (ground (arith, h, here))
    | inr there ↦
        let rest = without_absent l k (ground (arith, h, there)) in
        rw there (ap (λ (t : List (K × V)). x ∷ t) rest)
  ]

  detach-without : IsEquiv eq → (l : List (K × V)) (k : K) → Once l → detach eq l k ≡ without l k
  unfolding detach without
  detach-without equiv [] k o = refl
  detach-without equiv (x ∷ l) k (p, o) = elim (Bool-cases (eq x.0 k)) [
    | inl here ↦
        let gone : lookup eq l k ≡ none = sym (lookup_cong equiv l x.0 k here) ∙ p in
        rw here (sym (without_absent l k gone))
    | inr there ↦ rw there (ap (λ (t : List (K × V)). x ∷ t) (detach-without equiv l k o))
  ]

  take_short : (n : ℕ) (l : List (K × V)) → length l ≤ n → take n l ≡ l
  take_short zero [] h = refl
  take_short zero (x ∷ l) h = absurd (omega arith)
  take_short (suc n) [] h = refl
  take_short (suc n) (x ∷ l) h = ap (λ (t : List (K × V)). x ∷ t) (take_short n l (omega arith))

  drop_last-take : (n : ℕ) (l : List (K × V)) → length l ≡ suc n → drop_last eq l ≡ take n l
  unfolding drop_last
  drop_last-take n [] h = absurd (omega arith)
  drop_last-take zero (x ∷ []) h = refl
  drop_last-take (suc n) (x ∷ []) h = absurd (omega arith)
  drop_last-take zero (x ∷ y ∷ l) h = absurd (omega arith)
  drop_last-take (suc n) (x ∷ y ∷ l) h =
      ap (λ (t : List (K × V)). x ∷ t) (drop_last-take n (y ∷ l) (omega arith))

  -- A new map satisfies the invariant.
  pub make-Inv : (size : ℕ) → 0 < size → Inv size (make eq size)
  unfolding make
  make-Inv size h = record { once = tt; counted = ground arith }

  -- What a map finds after `put`: the new value for the key, or the old one where `same` and the
  -- key was there; nothing for the key that was dropped; and for every other key what it found.
  abbrev pub found_after : LruMap K V → K → V → Bool → Option (K × V) → K → Option V
  found_after m k v same popped j =
      if eq k j then some (if same then get_or_new m k v else v) else elim popped [
        | none ↦ lookup eq m.nodes j
        | some u ↦ if eq u.0 j then none else lookup eq m.nodes j
      ]

  module _ (equiv : IsEquiv eq) where
    -- `put` keeps the invariant: no more entries than the size, and no key twice.
    pub put-Inv :
        (size : ℕ) (m : LruMap K V) (k : K) (v : V) (same : Bool)
        → 0 < size
        → Inv size m
        → Inv size (put eq m k v same).0
    unfolding put lookup
    put-Inv size m k v same h i = elim (Option-cases (lookup eq m.nodes k)) [
      | inl absent ↦ elim (Bool-cases (m.free == 0)) [
        | inl full ↦
            let (u, e) = last_node-of equiv m.nodes (ground (arith, i.counted)) in
            rw (put, absent, full)
              (record {
                once = (
                  lookup-drop_last equiv m.nodes u k i.once e ∙ (ground (arith, absent)),
                  Once-drop_last equiv m.nodes u i.once e,
                );
                counted = omega (arith, length-drop_last equiv m.nodes u e, i.counted);
              })
        | inr room ↦
            rw (put, absent, room)
              (record { once = (absent, i.once); counted = ground (arith, i.counted, room) })
      ]
      | inr (old, e) ↦
          let gone = lookup-detach equiv m.nodes k k i.once in
          rw (put, e)
            (record {
              once = (gone ∙ (ground (arith, equiv.eq_refl k)), Once-detach equiv m.nodes k i.once);
              counted = omega (arith, length-detach equiv m.nodes k old e, i.counted);
            })
    ]

    lookup-put_found :
        (size : ℕ) (m : LruMap K V) (k : K) (v : V) (same : Bool) (j : K)
        → 0 < size
        → Inv size m
        → lookup eq (put eq m k v same).0.nodes j ≡ found_after m k v same (put eq m k v same).1 j
    unfolding put lookup
    lookup-put_found size m k v same j h i = elim (Option-cases (lookup eq m.nodes k)) [
      | inl absent ↦ elim (Bool-cases (m.free == 0)) [
        | inl full ↦
            let (u, e) = last_node-of equiv m.nodes (ground (arith, i.counted)) in
            rw (put, absent, full, e)
              (rw (lookup-drop_last equiv m.nodes u j i.once e) (ground arith))
        | inr room ↦ rw (put, absent, room) (ground arith)
      ]
      | inr (old, e) ↦ rw (put, e) (rw (lookup-detach equiv m.nodes k j i.once) (ground arith))
    ]

    -- The list after `put`, the last used entry first.
    abbrev pub used_last : ℕ → LruMap K V → K → V → Bool → List (K × V)
    used_last size m k v same =
        (k, if same then get_or_new m k v else v) ∷ take (size - 1) (without m.nodes k)

    nodes-put :
        (size : ℕ) (m : LruMap K V) (k : K) (v : V) (same : Bool)
        → 0 < size
        → Inv size m
        → (put eq m k v same).0.nodes ≡ used_last size m k v same
    unfolding put lookup
    nodes-put zero m k v same h i = absurd (omega arith)
    nodes-put (suc n) m k v same h i =
        let pred : suc n - 1 ≡ n = omega arith in
        elim (Option-cases (lookup eq m.nodes k)) [
          | inl absent ↦
              let others = without_absent m.nodes k absent in
              elim (Bool-cases (m.free == 0)) [
                | inl full ↦
                    let less = drop_last-take n m.nodes (ground (arith, i.counted, full)) in
                    rw (put, absent, full, pred, others, less) (ground (arith, absent))
                | inr room ↦
                    let all = take_short n m.nodes (ground (arith, i.counted, room)) in
                    rw (put, absent, room, pred, others, all) (ground (arith, absent))
              ]
          | inr (old, e) ↦
              let others = sym (detach-without equiv m.nodes k i.once) in
              let all =
                take_short n (detach eq m.nodes k)
                  (omega (arith, length-detach equiv m.nodes k old e, i.counted)) in
              rw (put, e, pred, others, all) (ground (arith, e))
        ]

    -- After `put` the list, which is in the order of the last use, has the key in front, with the new
    -- value, or with the old one where `same` and the key was there, and behind it the other entries in
    -- their order, as many as the size allows: what is dropped is the entry used longest ago. The map
    -- then finds the value for the key, nothing for the key that was dropped, and for every other key
    -- what was there.
    pub lookup-put :
        (size : ℕ) (m : LruMap K V) (k : K) (v : V) (same : Bool) (j : K)
        → 0 < size
        → Inv size m
        → ((put eq m k v same).0.nodes ≡ used_last size m k v same)
          × (lookup eq (put eq m k v same).0.nodes j
              ≡ found_after m k v same (put eq m k v same).1 j)
    lookup-put size m k v same j h i =
        (nodes-put size m k v same h i, lookup-put_found size m k v same j h i)
