-- ===== src/SegmentManager/Scan.antt =====
-- The search loop of AllocForGC over the segment table (SegmentManager.cc).
use hlkvds.Prelude.{
  ℕ, zero, suc, ◌+◌, ◌<◌, ◌≤◌, ◌≡◌, refl, ◌≢◌, inl, inr, true, false, none, some, List, [], ◌∷◌,
  arith, if◌then◌else◌, ◌==◌, length, u32_mod, Bool-cases, ltb,
}
use hlkvds.SegmentManager.{free, SegmentStat, is_state, stat_at, scan}
use hlkvds.SegmentManager.Count.{count}

abbrev pub IsFreeAt : List SegmentStat → ℕ → Type 0
IsFreeAt t i = is_state (stat_at t i).state free ≡ true

-- What the scan finds is a free segment of the table.
pub scan-IsFreeAt :
    (fuel : ℕ) (t : List SegmentStat) (num cur idx i : ℕ)
    → idx ≤ num
    → cur < num
    → num < u32_mod
    → scan fuel t num cur idx ≡ some (some i)
    → IsFreeAt t i × (i < num)
unfolding scan
scan-IsFreeAt zero t num cur idx i a b c e = ground arith
scan-IsFreeAt (suc f) t num cur idx i a b c e =
    let j = if idx == num then 0 else idx in ground (arith, scan-IsFreeAt f t num cur (j + 1) i)

-- A free segment behind the cursor and ahead of the scan is found before the table ends.
scan_ahead :
    (fuel : ℕ) (t : List SegmentStat) (num cur idx k : ℕ)
    → cur < idx
    → idx ≤ k
    → k < num
    → num < u32_mod
    → k < fuel + idx
    → IsFreeAt t k
    → (i : ℕ) × (scan fuel t num cur idx ≡ some (some i))
unfolding scan
scan_ahead zero t num cur idx k a b c w f e = absurd (omega arith)
scan_ahead (suc fuel) t num cur idx k a b c w f e =
    elim (Bool-cases (is_state (stat_at t idx).state free)) [
      | inl here ↦ (idx, ground arith)
      | inr other ↦
          let ne : idx ≢ k = (λ p. ground arith) in
          let (i, found) =
            scan_ahead fuel t num cur (idx + 1) k (omega arith) (omega arith) c w (omega arith) e in
          (i, ground arith)
    ]

-- The same before the cursor, once the scan has wrapped.
scan_behind :
    (fuel : ℕ) (t : List SegmentStat) (num cur idx k : ℕ)
    → idx ≤ k
    → k < cur
    → cur < num
    → num < u32_mod
    → k < fuel + idx
    → IsFreeAt t k
    → (i : ℕ) × (scan fuel t num cur idx ≡ some (some i))
unfolding scan
scan_behind zero t num cur idx k a b c w f e = absurd (omega arith)
scan_behind (suc fuel) t num cur idx k a b c w f e =
    elim (Bool-cases (is_state (stat_at t idx).state free)) [
      | inl here ↦ (idx, ground arith)
      | inr other ↦
          let ne : idx ≢ k = (λ p. ground arith) in
          let (i, found) =
            scan_behind fuel t num cur (idx + 1) k (omega arith) b c w (omega arith) e in
          (i, ground arith)
    ]

-- And from behind the cursor round the end of the table.
scan_wraps :
    (fuel : ℕ) (t : List SegmentStat) (num cur idx k : ℕ)
    → cur < idx
    → idx ≤ num
    → k < cur
    → num < u32_mod
    → num + k < fuel + idx
    → IsFreeAt t k
    → (i : ℕ) × (scan fuel t num cur idx ≡ some (some i))
unfolding scan
scan_wraps zero t num cur idx k a b c w f e = absurd (omega arith)
scan_wraps (suc fuel) t num cur idx k a b c w f e =
    let j = if idx == num then 0 else idx in
    elim (Bool-cases (idx == num)) [
      | inl at_end ↦ elim (Bool-cases (is_state (stat_at t 0).state free)) [
        | inl here ↦ (0, ground arith)
        | inr other ↦
            let ne : 0 ≢ k = (λ p. ground arith) in
            let (i, found) =
              scan_behind fuel t num cur 1 k (omega arith) c (omega arith) w (ground arith) e in
            (i, ground arith)
      ]
      | inr inside ↦ elim (Bool-cases (is_state (stat_at t idx).state free)) [
        | inl here ↦ (idx, ground arith)
        | inr other ↦
            let (i, found) =
              scan_wraps fuel t num cur (idx + 1) k (omega arith) (ground arith) c w (omega arith)
                e in
            (i, ground arith)
      ]
    ]

-- With a free segment somewhere other than at the cursor, `num` rounds are enough.
pub scan_total :
    (t : List SegmentStat) (num cur k fuel : ℕ)
    → cur < num
    → k < num
    → k ≢ cur
    → num < u32_mod
    → num ≤ fuel
    → IsFreeAt t k
    → (i : ℕ) × (scan fuel t num cur (cur + 1) ≡ some (some i))
scan_total t num cur k fuel a b ne w f e = elim (Bool-cases (ltb k cur)) [
  | inl before ↦
      scan_wraps fuel t num cur (cur + 1) k (omega arith) (omega arith) (ground arith) w
        (ground arith) e
  | inr after ↦
      scan_ahead fuel t num cur (cur + 1) k (omega arith) (ground arith) b w (omega arith) e
]

-- With the cursor at 0 and nothing free the loop test never holds: no fuel is enough.
pub scan_diverges :
    (fuel : ℕ) (t : List SegmentStat) (num idx : ℕ)
    → 0 < idx
    → idx ≤ num
    → num < u32_mod
    → ((k : ℕ) → k < num → is_state (stat_at t k).state free ≡ false)
    → scan fuel t num 0 idx ≡ none
unfolding scan
scan_diverges zero t num idx a b w h = refl
scan_diverges (suc fuel) t num idx a b w h = elim (Bool-cases (idx == num)) [
  | inl at_end ↦ ground (arith, h 0 (omega arith), scan_diverges fuel t num 1)
  | inr inside ↦ ground (arith, h idx (ground arith), scan_diverges fuel t num (idx + 1))
]

-- The cursor elsewhere and nothing free: the loop ends at the cursor.
scan_low :
    (fuel : ℕ) (t : List SegmentStat) (num cur idx : ℕ)
    → idx ≤ cur
    → cur < num
    → num < u32_mod
    → cur < fuel + idx
    → ((k : ℕ) → k < num → is_state (stat_at t k).state free ≡ false)
    → scan fuel t num cur idx ≡ some none
unfolding scan
scan_low zero t num cur idx a b w f h = absurd (omega arith)
scan_low (suc fuel) t num cur idx a b w f h =
    ground (arith, h idx (omega arith), scan_low fuel t num cur (idx + 1))

pub scan_high :
    (fuel : ℕ) (t : List SegmentStat) (num cur idx : ℕ)
    → 0 < cur
    → cur < idx
    → idx ≤ num
    → num < u32_mod
    → num + cur < fuel + idx
    → ((k : ℕ) → k < num → is_state (stat_at t k).state free ≡ false)
    → scan fuel t num cur idx ≡ some none
unfolding scan
scan_high zero t num cur idx z a b w f h = absurd (omega arith)
scan_high (suc fuel) t num cur idx z a b w f h = elim (Bool-cases (idx == num)) [
  | inl at_end ↦ ground (arith, h 0 (omega arith), scan_low fuel t num cur 1)
  | inr inside ↦ ground (arith, h idx (ground arith), scan_high fuel t num cur (idx + 1))
]

-- A table that counts a free segment has one.
pub free_somewhere :
    (t : List SegmentStat) → 0 < count free t → (k : ℕ) × (k < length t) × IsFreeAt t k
unfolding count
free_somewhere [] h = absurd (omega arith)
free_somewhere (s ∷ t) h = elim (Bool-cases (is_state s.state free)) [
  | inl here ↦ (0, omega arith, here)
  | inr other ↦ let (k, inside, e) = free_somewhere t (ground arith) in (suc k, omega arith, e)
]

pub none_free :
    (t : List SegmentStat)
    → count free t ≡ 0
    → (k : ℕ) → k < length t
    → is_state (stat_at t k).state free ≡ false
unfolding count
none_free [] h k b = absurd (omega arith)
none_free (s ∷ t) h zero b = ground arith
none_free (s ∷ t) h (suc k) b = none_free t (ground arith) k (omega arith)
