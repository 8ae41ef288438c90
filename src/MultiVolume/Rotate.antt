-- ===== src/MultiVolume/Rotate.antt =====
-- pickVol goes through the volumes in turn.
use hlkvds.Prelude.{
  ℕ, zero, suc, ◌+◌, ◌-◌, ◌%◌, ◌<◌, ◌≡◌, sym, ◌∙◌, ap, Option, none, some, arith, ◌==◌, subst,
  Bool-cases, inl, inr,
}
use native.Mathlib.Nat.{mod-lt, mod-eq_of_lt, mod-add-mod, add-mod-mod, add-mod_right, mod_self}
use hlkvds.MultiVolume.{MultiVolume, next_vol, pick_vol}

-- The last volume that was picked is one of the volumes.
abbrev pub IsBelow : ℕ → Option ℕ → Type 0
IsBelow num none = 0 < num
IsBelow num (some i) = i < num

abbrev pub InRange : MultiVolume → Type 0
InRange s = IsBelow s.vol_num s.pick_vol_id

-- The state after `n` picks, and the volume that the next one picks.
unfoldable pub picks : ℕ → MultiVolume → MultiVolume
unfolding pick_vol
picks zero s = s
picks (suc n) s = picks n (pick_vol s).0

unfoldable pub picked_after : ℕ → MultiVolume → ℕ
unfolding picks pick_vol
picked_after n s = (pick_vol (picks n s)).1

next_vol-lt : (num : ℕ) (o : Option ℕ) → IsBelow num o → next_vol num o < num
unfolding next_vol
next_vol-lt num none h = h
next_vol-lt num (some i) h = ground arith

next_of_next : (num i : ℕ) → i < num → next_vol num (some i) ≡ (i + 1) % num
unfolding next_vol
next_of_next num i h = elim (Bool-cases (i + 1 == num)) [
  | inl last ↦ rw last (
      let e : i + 1 ≡ num = ground arith in
      sym (subst (λ (m : ℕ). m % num ≡ 0) (sym e) (mod_self num)))
  | inr more ↦ rw more (sym (mod-eq_of_lt (ground arith)))
]

picked_after_lem :
    (n : ℕ) (s : MultiVolume) → InRange s → picked_after n s ≡ ((pick_vol s).1 + n) % s.vol_num
unfolding picked_after picks pick_vol
picked_after_lem zero s h =
    let low = next_vol-lt s.vol_num s.pick_vol_id h in
    sym (ap (λ (k : ℕ). k % s.vol_num) (omega arith) ∙ mod-eq_of_lt low)
picked_after_lem (suc n) s h =
    let p = next_vol s.vol_num s.pick_vol_id in
    let low = next_vol-lt s.vol_num s.pick_vol_id h in
    picked_after_lem n (pick_vol s).0 low
    ∙ ap (λ (q : ℕ). (q + n) % s.vol_num) (next_of_next s.vol_num p low)
    ∙ mod-add-mod (p + 1) s.vol_num n
    ∙ ap (λ (k : ℕ). k % s.vol_num) (omega arith)

-- From a state whose last pick, if there was one, is one of the volumes, every volume is picked within
-- as many picks as there are volumes.
pub pick_vol_fair :
    (s : MultiVolume) (j : ℕ)
    → InRange s
    → j < s.vol_num
    → (n : ℕ) × (n < s.vol_num) × (picked_after n s ≡ j)
unfolding pick_vol
pick_vol_fair s j h in_range =
    let p = (pick_vol s).1 in
    let low = next_vol-lt s.vol_num s.pick_vol_id h in
    let n = (j + (s.vol_num - p)) % s.vol_num in
    (
      n,
      mod-lt (j + (s.vol_num - p)) (omega arith),
      picked_after_lem n s h
          ∙ add-mod-mod p (j + (s.vol_num - p)) s.vol_num
          ∙ ap (λ (k : ℕ). k % s.vol_num) (omega (arith, low))
          ∙ add-mod_right j s.vol_num
          ∙ mod-eq_of_lt in_range,
    )
