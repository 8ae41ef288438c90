-- ===== src/Gc/Gather.antt =====
-- The loops of doMerge and doMigrate that move slices into segments (GcManager.cc, Migrate.cc).
use hlkvds.Prelude.{
  ℕ, ◌<◌, ◌≤◌, ◌≡◌, refl, ◌∙◌, Option, none, some, List, [], ◌∷◌, ◌++◌, ap, sym, subst, inl, inr,
  Bool-cases, Option-cases, u32_mod,
}
use mathlib.Core.List.{append-nil, append_assoc}
use hlkvds.KvSlice.{KvSlice}
use hlkvds.SegmentManager.{size_of_seg_on_disk}
use hlkvds.Volume.{Volume}
use hlkvds.Segment.{SegBase, make, try_put_list, put_list}
use hlkvds.Segment.Packing.{IsPacked, make-IsPacked, put_list-IsPacked, need_total}
use hlkvds.Gc.Merge.{Gathered, gather_whole}

-- What the segments hold, one behind the other.
abbrev or_none : Option (List KvSlice) → List KvSlice
or_none none = []
or_none (some l) = l

abbrev pub loaded : (ℕ → Option (List KvSlice)) → ℕ → List KvSlice
loaded load i = or_none (load i)

abbrev pub all_loaded : (ℕ → Option (List KvSlice)) → List ℕ → List KvSlice
all_loaded load [] = []
all_loaded load (i ∷ l) = loaded load i ++ all_loaded load l

all_loaded-append :
    (load : ℕ → Option (List KvSlice)) (l m : List ℕ)
    → all_loaded load (l ++ m) ≡ all_loaded load l ++ all_loaded load m
all_loaded-append load [] m = refl
all_loaded-append load (i ∷ l) m =
    ap (λ (x : List KvSlice). loaded load i ++ x) (all_loaded-append load l m)
    ∙ sym (append_assoc (loaded load i) (all_loaded load l) (all_loaded load m))

abbrev pub option_list : Option ℕ → List ℕ
option_list none = []
option_list (some i) = i ∷ []

-- The first segment is packed, and holds with the rest just what the freed segments and the last
-- one hold, in order.
abbrev pub IsGathered : (ℕ → Option (List KvSlice)) → Gathered → Type 0
IsGathered load g =
    IsPacked g.seg × (g.seg.slice_list ++ g.rest ≡ all_loaded load (g.freed ++ option_list g.last))

extend_loaded :
    (load : ℕ → Option (List KvSlice)) (freed : List ℕ) (i : ℕ) (slices l : List KvSlice)
    → load i ≡ some slices
    → l ≡ all_loaded load freed
    → l ++ slices ≡ all_loaded load (freed ++ i ∷ [])
extend_loaded load freed i slices l e h =
    ap (λ (x : List KvSlice). x ++ slices) h
    ∙ ap (λ (x : List KvSlice). all_loaded load freed ++ x)
        (sym (append-nil slices) ∙ sym (ap (λ (o : Option (List KvSlice)). or_none o ++ []) e))
    ∙ sym (all_loaded-append load freed (i ∷ []))

gather_whole-lem :
    (load : ℕ → Option (List KvSlice)) (seg : SegBase) (freed : List ℕ) (cands : List (ℕ × ℕ))
    → IsPacked seg
    → seg.slice_list ≡ all_loaded load freed
    → ((i : ℕ) → need_total (loaded load i) < u32_mod)
    → IsPacked (gather_whole load seg freed cands).0
      × ((gather_whole load seg freed cands).0.slice_list
          ≡ all_loaded load (gather_whole load seg freed cands).1)
unfolding gather_whole
gather_whole-lem load seg freed [] v h n = (v, h)
gather_whole-lem load seg freed (c ∷ cands) v h n = elim (Option-cases (load c.1)) [
  | inl unread ↦ rw (gather_whole, unread) (gather_whole-lem load seg freed cands v h n)
  | inr (slices, e) ↦ elim (Bool-cases (try_put_list seg slices)) [
    | inl fits ↦
        let small =
          subst (λ (o : Option (List KvSlice)). need_total (or_none o) < u32_mod) e (n c.1) in
        let (packed, all, free) = put_list-IsPacked seg slices v small fits in
        rw (gather_whole, e, fits)
          (gather_whole-lem load (put_list seg slices) (freed ++ c.1 ∷ []) cands packed
            (all ∙ extend_loaded load freed c.1 slices seg.slice_list e h) n)
    | inr full ↦ rw (gather_whole, e, full) (v, h)
  ]
]

-- The loop of doMigrate takes segments whole: its segment is packed and holds just the live slices
-- of the segments that will be freed. A segment's slices may need at most 4 GB.
pub gather_whole-make :
    (load : ℕ → Option (List KvSlice)) (vol : Volume) (cands : List (ℕ × ℕ))
    → size_of_seg_on_disk ≤ vol.seg_size
    → vol.seg_size < u32_mod
    → ((i : ℕ) → need_total (loaded load i) < u32_mod)
    → IsPacked (gather_whole load (make vol) [] cands).0
      × ((gather_whole load (make vol) [] cands).0.slice_list
          ≡ all_loaded load (gather_whole load (make vol) [] cands).1)
unfolding make
gather_whole-make load vol cands h w n =
    gather_whole-lem load (make vol) [] cands (make-IsPacked vol h w) refl n
