-- ===== src/SegmentManager/Candidates.antt =====
-- SortSegsByUtils and SortSegsByTS: the segments that garbage collection and migration go over.
use mathlib.Core.List.{Perm, perm_middle, append-nil, append_assoc}
use mathlib.Core.List.Perm
use hlkvds.Prelude.{
  ℕ, zero, suc, ◌≤◌, ◌≡◌, refl, Bool, List, [], ◌∷◌, ◌++◌, arith, ltb, ◌&&◌, if◌then◌else◌, take,
  All, Bool-cases, inl, inr, ◌∙◌, subst, sym,
}
use hlkvds.SegmentManager.{
  used, SegmentStat, SegmentManager, is_state, used_size, cand_insert, utils_loop,
  sort_segs_by_utils, ts_loop, insert_first, sort_segs_by_ts,
}

-- Rising in the first component.
abbrev pub IsSorted : List (ℕ × ℕ) → Type 0
IsSorted [] = Unit {0}
IsSorted (c ∷ l) = All (λ (d : ℕ × ℕ). c.0 ≤ d.0) l × IsSorted l

-- The segments from `index` on that pass a test on their stat, with their used sizes, in order.
pub eligible : (SegmentStat → Bool) → ℕ → ℕ → List SegmentStat → List (ℕ × ℕ)
eligible test size index [] = []
eligible test size index (s ∷ t) =
    if test s
    then (used_size size s, index) ∷ eligible test size (suc index) t
    else eligible test size (suc index) t

-- Used, and with less than `thld` bytes in use.
abbrev pub is_sparse : ℕ → ℕ → SegmentStat → Bool
is_sparse size thld s = is_state s.state used && ltb (used_size size s) thld

abbrev pub is_used : SegmentStat → Bool
is_used s = is_state s.state used

cand_insert-perm : (c : ℕ × ℕ) (l : List (ℕ × ℕ)) → Perm (cand_insert c l) (c ∷ l)
unfolding cand_insert
cand_insert-perm c [] = Perm.refl (c ∷ [])
cand_insert-perm c (d ∷ l) = elim (Bool-cases (ltb c.0 d.0)) [
  | inl before ↦ rw before (Perm.refl (c ∷ d ∷ l))
  | inr after ↦ rw after (Perm.trans (Perm.cons d (cand_insert-perm c l)) (Perm.swap c d l))
]

above-cand_insert :
    (n : ℕ) (c : ℕ × ℕ) (l : List (ℕ × ℕ))
    → n ≤ c.0
    → All (λ (d : ℕ × ℕ). n ≤ d.0) l
    → All (λ (d : ℕ × ℕ). n ≤ d.0) (cand_insert c l)
unfolding cand_insert
above-cand_insert n c [] h a = (h, tt)
above-cand_insert n c (d ∷ l) h a = ground (arith, above-cand_insert n c l h a.1)

above_mono :
    (n m : ℕ) (l : List (ℕ × ℕ))
    → n ≤ m
    → All (λ (d : ℕ × ℕ). m ≤ d.0) l
    → All (λ (d : ℕ × ℕ). n ≤ d.0) l
above_mono n m [] h a = tt
above_mono n m (d ∷ l) h a = (omega arith, above_mono n m l h a.1)

cand_insert-IsSorted : (c : ℕ × ℕ) (l : List (ℕ × ℕ)) → IsSorted l → IsSorted (cand_insert c l)
unfolding cand_insert
cand_insert-IsSorted c [] s = (tt, tt)
cand_insert-IsSorted c (d ∷ l) s = elim (Bool-cases (ltb c.0 d.0)) [
  | inl before ↦
      let le : c.0 ≤ d.0 = ground arith in rw before (((le, above_mono c.0 d.0 l le s.0), s))
  | inr after ↦
      let le : d.0 ≤ c.0 = ground arith in
      rw after ((above-cand_insert d.0 c l le s.0, cand_insert-IsSorted c l s.1))
]

utils_loop-perm :
    (size thld index : ℕ) (t : List SegmentStat) (cands : List (ℕ × ℕ))
    → IsSorted cands
    → IsSorted (utils_loop size thld index t cands)
      × Perm
          (utils_loop size thld index t cands)
          (eligible (is_sparse size thld) size index t ++ cands)
unfolding utils_loop eligible
utils_loop-perm size thld index [] cands s = (s, Perm.refl cands)
utils_loop-perm size thld index (x ∷ t) cands s =
    let c : ℕ × ℕ = (used_size size x, index) in
    elim (Bool-cases (is_sparse size thld x)) [
      | inl hit ↦
          let (sorted, perm) =
            utils_loop-perm size thld (suc index) t (cand_insert c cands)
              (cand_insert-IsSorted c cands s) in
          rw hit (
            sorted,
            Perm.trans perm (
                Perm.trans
                  (Perm.append (Perm.refl (eligible (is_sparse size thld) size (suc index) t))
                    (cand_insert-perm c cands))
                  (perm_middle (eligible (is_sparse size thld) size (suc index) t) cands)),
          )
      | inr miss ↦ rw miss (utils_loop-perm size thld (suc index) t cands s)
    ]

-- `sort_segs_by_utils` gives exactly the used segments with less than `thld` bytes in use, each
-- once, from the least used to the most used.
pub sort_segs_by_utils-perm :
    (m : SegmentManager) (thld : ℕ)
    → IsSorted (sort_segs_by_utils m thld [])
      × Perm
          (sort_segs_by_utils m thld [])
          (eligible (is_sparse m.seg_size thld) m.seg_size 0 m.seg_table)
unfolding sort_segs_by_utils
sort_segs_by_utils-perm m thld =
    let (sorted, perm) = utils_loop-perm m.seg_size thld 0 m.seg_table [] tt in
    (
      sorted,
      subst (Perm (utils_loop m.seg_size thld 0 m.seg_table []))
          (append-nil (eligible (is_sparse m.seg_size thld) m.seg_size 0 m.seg_table)) perm,
    )

ts_loop-perm :
    (size index : ℕ) (t : List SegmentStat) (cands : List (ℕ × ℕ))
    → IsSorted cands
    → IsSorted (ts_loop size index t cands)
      × Perm (ts_loop size index t cands) (eligible is_used size index t ++ cands)
unfolding ts_loop eligible
ts_loop-perm size index [] cands s = (s, Perm.refl cands)
ts_loop-perm size index (x ∷ t) cands s =
    let c : ℕ × ℕ = (used_size size x, index) in
    elim (Bool-cases (is_used x)) [
      | inl hit ↦
          let (sorted, perm) =
            ts_loop-perm size (suc index) t (cand_insert c cands)
              (cand_insert-IsSorted c cands s) in
          rw hit (
            sorted,
            Perm.trans perm (
                Perm.trans
                  (Perm.append (Perm.refl (eligible is_used size (suc index) t))
                    (cand_insert-perm c cands))
                  (perm_middle (eligible is_used size (suc index) t) cands)),
          )
      | inr miss ↦ rw miss (ts_loop-perm size (suc index) t cands s)
    ]

-- An entry that is not below the others goes to the end.
cand_insert_last :
    (c : ℕ × ℕ) (l : List (ℕ × ℕ))
    → All (λ (d : ℕ × ℕ). d.0 ≤ c.0) l
    → cand_insert c l ≡ l ++ c ∷ []
unfolding cand_insert
cand_insert_last c [] a = refl
cand_insert_last c (d ∷ l) a = ground (arith, cand_insert_last c l a.1)

below-append :
    (n : ℕ) (l : List (ℕ × ℕ)) (c : ℕ × ℕ)
    → All (λ (d : ℕ × ℕ). d.0 ≤ n) l
    → c.0 ≤ n
    → All (λ (d : ℕ × ℕ). d.0 ≤ n) (l ++ c ∷ [])
below-append n [] c a h = (h, tt)
below-append n (d ∷ l) c a h = (a.0, below-append n l c a.1 h)

below_mono :
    (n m : ℕ) (l : List (ℕ × ℕ))
    → n ≤ m
    → All (λ (d : ℕ × ℕ). d.0 ≤ n) l
    → All (λ (d : ℕ × ℕ). d.0 ≤ m) l
below_mono n m [] h a = tt
below_mono n m (d ∷ l) h a = (omega arith, below_mono n m l h a.1)

-- The bound that holds of what is there already, by the entries still to come.
abbrev Precedes : List (ℕ × ℕ) → List (ℕ × ℕ) → Type 0
Precedes l [] = Unit {0}
Precedes l (c ∷ r) = All (λ (d : ℕ × ℕ). d.0 ≤ c.0) l

Precedes-nil : (r : List (ℕ × ℕ)) → Precedes [] r
Precedes-nil [] = tt
Precedes-nil (c ∷ r) = tt

insert_first-nil : (k : ℕ) (cands : List (ℕ × ℕ)) → insert_first k [] cands ≡ cands ++ take k []
unfolding insert_first
insert_first-nil zero cands = sym (append-nil cands)
insert_first-nil (suc k) cands = sym (append-nil cands)

insert_first-take :
    (k : ℕ) (used_map cands : List (ℕ × ℕ))
    → IsSorted used_map
    → Precedes cands used_map
    → insert_first k used_map cands ≡ cands ++ take k used_map
unfolding insert_first
insert_first-take zero u cands s p = sym (append-nil cands)
insert_first-take (suc k) [] cands s p = sym (append-nil cands)
insert_first-take (suc k) (c ∷ []) cands s p =
    insert_first-nil k (cand_insert c cands)
    ∙ (rw (cand_insert_last c cands p) (append_assoc cands (c ∷ []) (take k [])))
insert_first-take (suc k) (c ∷ d ∷ u) cands s p =
    let le : c.0 ≤ d.0 = s.0.0 in
    let e = cand_insert_last c cands p in
    insert_first-take k (d ∷ u) (cand_insert c cands) s.1 (
      subst (All (λ (x : ℕ × ℕ). x.0 ≤ d.0)) (sym e)
        (below-append d.0 cands c (below_mono c.0 d.0 cands le p) le))
    ∙ (rw e (append_assoc cands (c ∷ []) (take k (d ∷ u))))

-- `sort_segs_by_ts` gives the `max_seg_num` least used of the used segments, from the least used
-- on: its list is sorted by used size, although the name speaks of a time stamp.
pub sort_segs_by_ts-take :
    (m : SegmentManager) (max_seg_num : ℕ)
    → (l : List (ℕ × ℕ)) × (sort_segs_by_ts m max_seg_num [] ≡ take max_seg_num l)
      × IsSorted l
      × Perm l (eligible is_used m.seg_size 0 m.seg_table)
unfolding sort_segs_by_ts
sort_segs_by_ts-take m k =
    let (sorted, perm) = ts_loop-perm m.seg_size 0 m.seg_table [] tt in
    (
      ts_loop m.seg_size 0 m.seg_table [],
      insert_first-take k (ts_loop m.seg_size 0 m.seg_table []) [] sorted (Precedes-nil _),
      sorted,
      subst (Perm (ts_loop m.seg_size 0 m.seg_table []))
          (append-nil (eligible is_used m.seg_size 0 m.seg_table)) perm,
    )
