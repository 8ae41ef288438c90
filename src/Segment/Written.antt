-- ===== src/Segment/Written.antt =====
-- fillEntryToSlice and copyToDataBuf over a whole list of slices.
use hlkvds.Prelude.{
  ℕ, suc, ◌+◌, ◌-◌, ◌<◌, ◌≤◌, ◌≡◌, refl, ◌∙◌, Bool, List, [], ◌∷◌, arith, if◌then◌else◌, u32_mod,
  u32_sub, u32_add, u64_add, Bool-cases, inl, inr, sym, subst, ◌⊎◌,
}
use hlkvds.HashEntry.{size_of_data_header}
use hlkvds.KvSlice.{KvSlice, key_len, data_len, aligned_size}
use hlkvds.Memory.{Buffer, Agree, blit, bytes_at-Agree}
use hlkvds.Utils.{KvTime}
use hlkvds.Volume.{Volume}
use hlkvds.Segment.{encode_header, key_bytes, data_bytes, fill_from, filled, copy_from, seg_offset}
use hlkvds.Segment.Layout.{
  IsWhole, IsPlacement, Stored, StoredAt, with_slice, with_slice-outside, with_slice-StoredAt,
}
use hlkvds.Segment.Packing.{Fits, end_of, grow, shrink, end_of-Fits}

-- Every slice has the bytes that its lengths say.
abbrev pub AllWhole : List KvSlice → Type 0
AllWhole [] = Unit {0}
AllWhole (s ∷ l) = IsWhole s × AllWhole l

-- The entries name the places of the slices, one behind the other from `head` up and from `tail`
-- down.
abbrev pub Placed : (KvSlice → Bool) → ℕ → ℕ → List KvSlice → Type 0
Placed aligned head tail [] = Unit {0}
Placed aligned head tail (s ∷ l) =
    let h = s.entry.on_disk.header in
    (h.data_offset
      ≡ (if aligned s then tail - aligned_size else head + size_of_data_header + key_len s))
    × (h.next_header_offset ≡ head + grow aligned s)
    × (h.key_digest ≡ s.digest)
    × (h.key_size ≡ key_len s)
    × (h.data_size ≡ data_len s)
    × Placed aligned (head + grow aligned s) (tail - shrink aligned s) l

-- A filled list holds the same keys and values.
abbrev pub SameData : List KvSlice → List KvSlice → Type 0
SameData [] [] = Unit {0}
SameData [] (t ∷ m) = ⊥
SameData (s ∷ l) [] = ⊥
SameData (s ∷ l) (t ∷ m) =
    (s.key ≡ t.key)
    × (s.key_length ≡ t.key_length)
    × (s.content ≡ t.content)
    × (s.data_length ≡ t.data_length)
    × (s.digest ≡ t.digest)
    × SameData l m

-- The flag depends on the length alone.
abbrev pub IsByLength : (KvSlice → Bool) → Type 0
IsByLength aligned = (s t : KvSlice) → data_len s ≡ data_len t → aligned s ≡ aligned t

-- One step of the loop, without the wrap-around.
step_positions :
    (aligned : KvSlice → Bool) (head tail : ℕ) (s : KvSlice)
    → head + grow aligned s + shrink aligned s ≤ tail
    → tail < u32_mod
    → let body = u32_add head (size_of_data_header + key_len s) in
      (body ≡ head + size_of_data_header + key_len s)
      × ((if aligned s then body else u32_add body (data_len s)) ≡ head + grow aligned s)
      × ((if aligned s then u32_sub tail aligned_size else tail) ≡ tail - shrink aligned s)
step_positions aligned head tail s f w = ground arith

module _ (aligned : KvSlice → Bool) (by_length : IsByLength aligned) where
  -- The slice that stands first, with the rest placed behind it.
  placed_first :
      (vol : Volume) (seg_id : ℕ) (now : KvTime) (head tail offset next : ℕ) (s : KvSlice)
      (l r : List KvSlice)
      → head + grow aligned s + shrink aligned s ≤ tail
      → offset ≡ (if aligned s then tail - aligned_size else head + size_of_data_header + key_len s)
      → next ≡ head + grow aligned s
      → IsWhole s
      → Placed aligned (head + grow aligned s) (tail - shrink aligned s) r
        × Fits aligned (head + grow aligned s) (tail - shrink aligned s) r
        × AllWhole r
        × SameData l r
      → let r' = filled vol seg_id now head offset next s ∷ r in
        Placed aligned head tail r' × Fits aligned head tail r' × AllWhole r' × SameData (s ∷ l) r'
  placed_first vol seg_id now head tail offset next s l r f o n w (p, q, a, d) =
      let e = by_length (filled vol seg_id now head offset next s) s refl in
      rw e (
        (o, n, refl, refl, refl, p),
        (f, q),
        (
          record {
            w0 = w.w0;
            w1 = w.w1;
            w2 = w.w2;
            w3 = w.w3;
            w4 = w.w4;
            key_sized = w.key_sized;
            data_sized = w.data_sized;
            data_word = w.data_word;
          },
          a,
        ),
        (refl, refl, refl, refl, refl, d),
      )

  pub fill_from-Placed :
      (vol : Volume) (seg_id : ℕ) (clock : ℕ → KvTime) (k head tail : ℕ) (l : List KvSlice)
      → Fits aligned head tail l
      → tail < u32_mod
      → AllWhole l
      → let r = (fill_from aligned vol seg_id clock k head tail l).0 in
        Placed aligned head tail r × Fits aligned head tail r × AllWhole r × SameData l r
  unfolding fill_from
  fill_from-Placed vol seg_id clock k head tail [] f w a = (tt, f, tt, tt)
  fill_from-Placed vol seg_id clock k head tail (s ∷ l) f w a =
      let (b, n, t) = step_positions aligned head tail s f.0 w in
      let rest =
        fill_from-Placed vol seg_id clock (suc k) (head + grow aligned s) (tail - shrink aligned s)
          l f.1 (ground arith) a.1 in
      let body = u32_add head (size_of_data_header + key_len s) in
      let tail' = if aligned s then u32_sub tail aligned_size else tail in
      let r =
        (fill_from aligned vol seg_id clock (suc k)
          (if aligned s then body else u32_add body (data_len s)) tail' l).0 in
      placed_first vol seg_id (clock k) head tail (if aligned s then tail' else body)
        (if aligned s then body else u32_add body (data_len s)) s l r f.0
        (ground (arith, t, b, f.0)) n a.0 (rw (n, t) rest)

-- The entries carry the volume and the device offsets of their headers.
abbrev pub Addressed : ℕ → ℕ → (KvSlice → Bool) → ℕ → List KvSlice → Type 0
Addressed vol_id base aligned head [] = Unit {0}
Addressed vol_id base aligned head (s ∷ l) =
    (s.entry.on_disk.address ≡ (record { location = vol_id; offset = u64_add base head }))
    × Addressed vol_id base aligned (head + grow aligned s) l

module _ (aligned : KvSlice → Bool) (by_length : IsByLength aligned) where
  pub fill_from-Addressed :
      (vol : Volume) (seg_id : ℕ) (clock : ℕ → KvTime) (k head tail : ℕ) (l : List KvSlice)
      → Fits aligned head tail l
      → tail < u32_mod
      → Addressed vol.vol_id
          (seg_offset vol seg_id)
          aligned
          head
          (fill_from aligned vol seg_id clock k head tail l).0
  unfolding fill_from
  fill_from-Addressed vol seg_id clock k head tail [] f w = tt
  fill_from-Addressed vol seg_id clock k head tail (s ∷ l) f w =
      let (b, n, t) = step_positions aligned head tail s f.0 w in
      let rest =
        fill_from-Addressed vol seg_id clock (suc k) (head + grow aligned s)
          (tail - shrink aligned s) l f.1 (ground arith) in
      let body = u32_add head (size_of_data_header + key_len s) in
      let tail' = if aligned s then u32_sub tail aligned_size else tail in
      let next = if aligned s then body else u32_add body (data_len s) in
      let e =
        by_length (filled vol seg_id (clock k) head (if aligned s then tail' else body) next s) s
          refl in
      rw e (refl, rw (n, t) rest)

-- What the copying loop leaves: every slice stored, the positions at the end, and every byte
-- outside of the used parts as it was.
abbrev pub IsCopied : (KvSlice → Bool) → Buffer → ℕ → ℕ → List KvSlice → Buffer × ℕ × ℕ → Type 0
IsCopied aligned buf begin end l r =
    let ends = end_of aligned begin end l in
    Stored r.0 begin l
    × (r.1 ≡ ends.0)
    × (r.2 ≡ ends.1)
    × ((i : ℕ) → (i < begin) ⊎ (end ≤ i) ⊎ (ends.0 ≤ i) × (i < ends.1) → r.0 i ≡ buf i)

module _ (aligned : KvSlice → Bool) (placement : IsPlacement aligned) where
  StoredAt-Agree :
      (b c : Buffer) (head tail : ℕ) (s : KvSlice)
      → head + grow aligned s + shrink aligned s ≤ tail
      → s.entry.on_disk.header.data_offset
        ≡ (if aligned s then tail - aligned_size else head + size_of_data_header + key_len s)
      → Agree b c head (head + grow aligned s)
      → Agree b c (tail - shrink aligned s) tail
      → StoredAt b head s
      → StoredAt c head s
  StoredAt-Agree b c head tail s f o lo hi (p, q, r) = (
    sym (bytes_at-Agree b c head size_of_data_header (λ i x y. lo i (omega arith) (ground arith)))
        ∙ p,
    sym (
          bytes_at-Agree b c (head + size_of_data_header) (key_len s)
            (λ i x y. lo i (omega arith) (ground arith)))
        ∙ q,
    sym (
          bytes_at-Agree b c s.entry.on_disk.header.data_offset (data_len s) (λ i x y.
            elim (Bool-cases (aligned s)) [
              | inl e ↦ hi i (ground (arith, placement s, e)) (ground (arith, placement s, e))
              | inr e ↦ lo i (ground (arith, e)) (ground (arith, e))
            ]))
        ∙ r,
  )

  -- Buffers that agree on the used parts store the same slices.
  pub Stored-Agree :
      (b c : Buffer) (head tail : ℕ) (l : List KvSlice)
      → Placed aligned head tail l
      → Fits aligned head tail l
      → Agree b c head (end_of aligned head tail l).0
      → Agree b c (end_of aligned head tail l).1 tail
      → Stored b head l
      → Stored c head l
  Stored-Agree b c head tail [] p f lo hi h = tt
  Stored-Agree b c head tail (s ∷ l) (o, n, d, k, z, p) f lo hi (h, t) =
      let ends = end_of-Fits aligned (head + grow aligned s) (tail - shrink aligned s) l f.1 in
      (
        StoredAt-Agree b c head tail s f.0 o (λ i x y. lo i x (omega (arith, ends)))
            (λ i x y. hi i (omega (arith, ends)) y) h,
        rw n (
            Stored-Agree b c (head + grow aligned s) (tail - shrink aligned s) l p f.1
              (λ i x y. lo i (omega arith) y) (λ i x y. hi i x (omega arith)) (rw⁻¹ n t)),
      )

  copy_from_step :
      (buf : Buffer) (begin end : ℕ) (s : KvSlice) (l : List KvSlice)
      → begin + grow aligned s + shrink aligned s ≤ end
      → end < u32_mod
      → copy_from aligned buf begin end (s ∷ l)
        ≡ copy_from aligned
            (with_slice aligned buf begin end s)
            (begin + grow aligned s)
            (end - shrink aligned s)
            l
  unfolding copy_from
  copy_from_step buf begin end s l f w =
      let b = u32_add begin size_of_data_header in
      let b' = u32_add b (key_len s) in
      let e : b ≡ begin + size_of_data_header = ground arith in
      let e' : b' ≡ begin + size_of_data_header + key_len s = ground arith in
      let place : (if aligned s then (if aligned s then u32_sub end (data_len s) else end) else b')
          ≡ (if aligned s then end - data_len s else begin + size_of_data_header + key_len s) =
        ground (arith, placement s) in
      let next : (if aligned s then b' else u32_add b' (data_len s)) ≡ begin + grow aligned s =
        ground arith in
      let end' : (if aligned s then u32_sub end (data_len s) else end) ≡ end - shrink aligned s =
        ground (arith, placement s) in
      let head = blit buf begin (encode_header s.entry.on_disk.header) in
      λ i.
        copy_from aligned (blit (blit head (e i) (key_bytes s)) (place i) (data_bytes s)) (next i)
          (end' i) l

  copy_from_none :
      (buf : Buffer) (begin end : ℕ) → copy_from aligned buf begin end [] ≡ (buf, begin, end)
  unfolding copy_from
  copy_from_none buf begin end = refl

  -- The loop stores every slice and changes no byte outside.
  pub copy_from-IsCopied :
      (buf : Buffer) (begin end : ℕ) (l : List KvSlice)
      → Placed aligned begin end l
      → Fits aligned begin end l
      → AllWhole l
      → end < u32_mod
      → IsCopied aligned buf begin end l (copy_from aligned buf begin end l)
  copy_from-IsCopied buf begin end [] p f a w =
      rw (copy_from_none buf begin end) (tt, refl, refl, λ i h. refl)
  copy_from-IsCopied buf begin end (s ∷ l) (o, n, d, k, z, p) f a w =
      let g = begin + grow aligned s in
      let e = end - shrink aligned s in
      let b = with_slice aligned buf begin end s in
      let ends = end_of-Fits aligned g e l f.1 in
      let (stored, x, y, same) = copy_from-IsCopied b g e l p f.1 a.1 (omega arith) in
      let c = (copy_from aligned b g e l).0 in
      let here = with_slice-StoredAt aligned placement buf begin end s a.0 f.0 o in
      subst (IsCopied aligned buf begin end (s ∷ l)) (sym (copy_from_step buf begin end s l f.0 w))
        (
          (
            StoredAt-Agree b c begin end s f.0 o (λ i u v. sym (same i (inl v)))
                (λ i u v. sym (same i (inr (inl u)))) here,
            rw n stored,
          ),
          x,
          y,
          λ i h.
              same i (ground (arith, h, ends, f.0))
              ∙ with_slice-outside aligned placement buf begin end s i a.0 f.0
                  (ground (arith, h, ends, f.0)),
        )
