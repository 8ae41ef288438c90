-- ===== src/Segment/Packing.antt =====
-- TryPut and Put of SegBase: the head and tail positions as slices are added (Segment.cc).
use hlkvds.Prelude.{
  ℕ, ◌+◌, ◌-◌, ◌<◌, ◌≤◌, ◌≡◌, refl, ◌∙◌, Bool, true, List, [], ◌∷◌, ◌++◌, arith, if◌then◌else◌,
  length, length-append, u32_mod, u32_add, ap, sym,
}
use mathlib.Core.List.{append-nil, append_assoc}
use hlkvds.HashEntry.{size_of_data_header}
use hlkvds.KvSlice.{KvSlice, key_len, data_len, is_aligned_data, aligned_size}
use hlkvds.SegmentManager.{size_of_seg_on_disk}
use hlkvds.Volume.{Volume}
use hlkvds.Segment.{
  SegBase, make, get_free_size, need_size, try_put, put, need_list, try_put_list, put_list,
}

-- How far a slice moves the two positions.
abbrev pub grow : (KvSlice → Bool) → KvSlice → ℕ
grow aligned s = size_of_data_header + key_len s + (if aligned s then 0 else data_len s)

abbrev pub shrink : (KvSlice → Bool) → KvSlice → ℕ
shrink aligned s = if aligned s then aligned_size else 0

-- The slices fit between the two positions, one after the other.
abbrev pub Fits : (KvSlice → Bool) → ℕ → ℕ → List KvSlice → Type 0
Fits aligned head tail [] = head ≤ tail
Fits aligned head tail (s ∷ l) =
    (head + grow aligned s + shrink aligned s ≤ tail)
    × Fits aligned (head + grow aligned s) (tail - shrink aligned s) l

-- Where the positions end.
abbrev pub end_of : (KvSlice → Bool) → ℕ → ℕ → List KvSlice → ℕ × ℕ
end_of aligned head tail [] = (head, tail)
end_of aligned head tail (s ∷ l) =
    end_of aligned (head + grow aligned s) (tail - shrink aligned s) l

Fits-snoc :
    (aligned : KvSlice → Bool) (head tail : ℕ) (l : List KvSlice) (s : KvSlice)
    → Fits aligned head tail l
    → (end_of aligned head tail l).0 + grow aligned s + shrink aligned s
      ≤ (end_of aligned head tail l).1
    → Fits aligned head tail (l ++ s ∷ [])
      × ((end_of aligned head tail (l ++ s ∷ [])).0
          ≡ (end_of aligned head tail l).0 + grow aligned s)
      × ((end_of aligned head tail (l ++ s ∷ [])).1
          ≡ (end_of aligned head tail l).1 - shrink aligned s)
Fits-snoc aligned head tail [] s f h = ((h, ground arith), refl, refl)
Fits-snoc aligned head tail (x ∷ l) s f h =
    let (a, b, c) = Fits-snoc aligned (head + grow aligned x) (tail - shrink aligned x) l s f.1 h in
    ((f.0, a), b, c)

pub end_of-Fits :
    (aligned : KvSlice → Bool) (head tail : ℕ) (l : List KvSlice)
    → Fits aligned head tail l
    → ((end_of aligned head tail l).0 ≤ (end_of aligned head tail l).1)
      × ((end_of aligned head tail l).1 ≤ tail)
      × (head ≤ (end_of aligned head tail l).0)
end_of-Fits aligned head tail [] f = (f, omega arith, omega arith)
end_of-Fits aligned head tail (s ∷ l) f =
    omega (arith, end_of-Fits aligned (head + grow aligned s) (tail - shrink aligned s) l f.1)

-- A segment as its operations leave it: the slices fit behind the segment's header, the positions
-- are where they end, and the counter is their number.
pub record IsPacked (seg : SegBase) : Type 0 where
  pub word : seg.seg_size < u32_mod
  pub fits : Fits is_aligned_data size_of_seg_on_disk seg.seg_size seg.slice_list
  pub head :
      seg.head_pos ≡ (end_of is_aligned_data size_of_seg_on_disk seg.seg_size seg.slice_list).0
  pub tail :
      seg.tail_pos ≡ (end_of is_aligned_data size_of_seg_on_disk seg.seg_size seg.slice_list).1
  pub counted : seg.key_num ≡ length seg.slice_list

-- A new segment is packed.
pub make-IsPacked :
    (vol : Volume)
    → size_of_seg_on_disk ≤ vol.seg_size
    → vol.seg_size < u32_mod
    → IsPacked (make vol)
unfolding make
make-IsPacked vol h w = record { word = w; fits = h; head = refl; tail = refl; counted = refl }

pub put-slice_list :
    (seg : SegBase) (s : KvSlice)
    → ((put seg s).slice_list ≡ seg.slice_list ++ s ∷ []) × ((put seg s).seg_size ≡ seg.seg_size)
unfolding put
put-slice_list seg s = ground arith

put-Fits :
    (seg : SegBase) (s : KvSlice)
    → Fits is_aligned_data size_of_seg_on_disk seg.seg_size (seg.slice_list ++ s ∷ [])
    → Fits is_aligned_data size_of_seg_on_disk (put seg s).seg_size (put seg s).slice_list
put-Fits seg s h = let (e, f) = put-slice_list seg s in rw (e, f) h

-- `put` where there is room keeps a segment packed.
pub put-IsPacked_room :
    (seg : SegBase) (s : KvSlice)
    → IsPacked seg
    → seg.head_pos + need_size s ≤ seg.tail_pos
    → IsPacked (put seg s)
      × ((put seg s).tail_pos - (put seg s).head_pos + need_size s ≡ seg.tail_pos - seg.head_pos)
      × ((put seg s).head_pos ≤ (put seg s).tail_pos)
unfolding put
put-IsPacked_room seg s v room =
    let ends = end_of-Fits is_aligned_data size_of_seg_on_disk seg.seg_size seg.slice_list v.fits in
    let more =
      Fits-snoc is_aligned_data size_of_seg_on_disk seg.seg_size seg.slice_list s v.fits
        (ground (arith, room, v.head, v.tail)) in
    (
      record {
        word = ground (arith, v.word);
        fits = put-Fits seg s more.0;
        head = ground (arith, room, more, v.head, v.tail, ends, v.word);
        tail = ground (arith, room, more, v.head, v.tail, ends, v.word);
        counted = ground (arith, v.counted, length-append seg.slice_list (s ∷ []));
      },
      ground (arith, room, ends, v.head, v.tail, v.word),
      ground (arith, room, ends, v.head, v.tail, v.word),
    )

-- `put` after a successful `try_put` keeps a segment packed, and takes from its free size just the
-- header, the key and the data.
pub put-IsPacked :
    (seg : SegBase) (s : KvSlice)
    → IsPacked seg
    → try_put seg s ≡ true
    → IsPacked (put seg s) × (get_free_size (put seg s) + need_size s ≡ get_free_size seg)
unfolding try_put get_free_size
put-IsPacked seg s v h =
    let ends = end_of-Fits is_aligned_data size_of_seg_on_disk seg.seg_size seg.slice_list v.fits in
    let room : seg.head_pos + need_size s < seg.tail_pos =
      ground (arith, ends, v.head, v.tail, v.word) in
    let (packed, moved, ordered) = put-IsPacked_room seg s v (omega arith) in
    let ends' =
      end_of-Fits is_aligned_data size_of_seg_on_disk (put seg s).seg_size (put seg s).slice_list
        packed.fits in
    (
      packed,
      omega (
        arith, moved, ends, ends', packed.head, packed.tail, packed.word, v.head, v.tail, v.word,
      ),
    )

-- All that a list needs.
unfoldable pub need_total : List KvSlice → ℕ
need_total [] = 0
need_total (s ∷ l) = need_size s + need_total l

need_list-total :
    (need : ℕ) (l : List KvSlice)
    → need + need_total l < u32_mod
    → need_list need l ≡ need + need_total l
unfolding need_list need_total
need_list-total need [] w = omega arith
need_list-total need (s ∷ l) w =
    let next = need_list-total (need + need_size s) l (omega arith) in
    let e : u32_add need (need_size s) ≡ need + need_size s = omega arith in
    rw e (omega (arith, next))

try_put_of : (seg : SegBase) (s : KvSlice) → need_size s < get_free_size seg → try_put seg s ≡ true
unfolding try_put
try_put_of seg s h = ground arith

put_list_room :
    (seg : SegBase) (l : List KvSlice)
    → IsPacked seg
    → need_total l < get_free_size seg
    → IsPacked (put_list seg l)
      × (get_free_size (put_list seg l) + need_total l ≡ get_free_size seg)
unfolding put_list need_total
put_list_room seg [] v h = (v, omega arith)
put_list_room seg (s ∷ l) v h =
    let test : try_put seg s ≡ true = try_put_of seg s (omega arith) in
    let (packed, free) = put-IsPacked seg s v test in
    let (packed', free') = put_list_room (put seg s) l packed (omega arith) in
    (packed', omega arith)

pub put_list-slice_list :
    (seg : SegBase) (l : List KvSlice) → (put_list seg l).slice_list ≡ seg.slice_list ++ l
unfolding put_list
put_list-slice_list seg [] = sym (append-nil seg.slice_list)
put_list-slice_list seg (s ∷ l) =
    put_list-slice_list (put seg s) l
    ∙ ap (λ (x : List KvSlice). x ++ l) (put-slice_list seg s).0
    ∙ append_assoc seg.slice_list (s ∷ []) l

-- `put_list` after a successful `try_put_list` puts every slice of the list, keeps the segment
-- packed, and takes from its free size what the list needs.
pub put_list-IsPacked :
    (seg : SegBase) (l : List KvSlice)
    → IsPacked seg
    → need_total l < u32_mod
    → try_put_list seg l ≡ true
    → IsPacked (put_list seg l)
      × ((put_list seg l).slice_list ≡ seg.slice_list ++ l)
      × (get_free_size (put_list seg l) + need_total l ≡ get_free_size seg)
unfolding try_put_list
put_list-IsPacked seg l v w h =
    let (packed, free) =
      put_list_room seg l v (ground (arith, need_list-total 0 l (omega arith))) in
    (packed, put_list-slice_list seg l, free)
