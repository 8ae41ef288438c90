-- ===== src/Tier/Create/Topology.antt =====
-- A store of two tiers that was created is opened again with the same volumes.
use hlkvds.Prelude.{
  ℕ, zero, suc, ◌<◌, ◌≡◌, refl, true, some, List, ◌∷◌, ◌==◌, length, arith, u32_mod, All,
  Bool-cases, Option-cases, inl, inr, ltb, u32_sub,
}
use mathlib.Core.Option.{some-injective, none-ne-some}
use hlkvds.MultiVolume.Capacity.{needed, meta_loop, calc_seg_num_for_meta}
use hlkvds.MultiVolume.Create.{Device, is_page_aligned, create_pure}
use hlkvds.MultiVolume.Create.Topology.{
  IsPath, same_path_kept, same_paths_reserved, length-create_pure, open_pure-create_pure,
}
use hlkvds.Tier.{MultiTier}
use hlkvds.Tier.Create.{
  ReservedTiers, Medium, Fast, make_medium, create_medium, make_fast, create_fast, open_fast,
  open_medium, create_all_components, open_all_components, tiers_of, reserved_of,
  calc_seg_num_for_fast_tier,
}

-- The store that a creation makes when the fast tier gets `n` segments, and what it leaves.
abbrev pub made : ℕ → ℕ → ℕ → Device → List Device → ℕ → MultiTier × ReservedTiers
made seg_size secondary_seg_size sst_offset d l n =
    let m = make_medium secondary_seg_size l in
    let f = make_fast seg_size d sst_offset m.seg_total_num n in (tiers_of f m, reserved_of f m)

open_medium-make_medium :
    (seg_size : ℕ) (l : List Device)
    → All IsPath l
    → open_medium (make_medium seg_size l).reserved l ≡ some (make_medium seg_size l)
unfolding make_medium open_medium
open_medium-make_medium seg_size l h =
    let paths =
      same_paths_reserved l (create_pure seg_size 0 l) (length-create_pure seg_size 0 l) h in
    let sized : (length l == length l) ≡ true = ground arith in
    rw (sized, paths, open_pure-create_pure seg_size 0 l) refl

open_fast-make_fast :
    (seg_size : ℕ) (d : Device) (sst_offset medium_total seg_num : ℕ)
    → IsPath d
    → open_fast
        (make_fast seg_size d sst_offset medium_total seg_num).reserved
        sst_offset
        (make_fast seg_size d sst_offset medium_total seg_num).sst_length_on_disk
        d
      ≡ some (make_fast seg_size d sst_offset medium_total seg_num)
unfolding open_fast make_fast
open_fast-make_fast seg_size d sst_offset medium_total seg_num h =
    rw (same_path_kept d seg_num 0 h) refl

open_found :
    (r : ReservedTiers) (sst_offset sst_length : ℕ) (d : Device) (l : List Device) (f : Fast)
    (m : Medium)
    → open_fast r.fast sst_offset sst_length d ≡ some f
    → open_medium r.medium l ≡ some m
    → open_all_components r sst_offset sst_length (d ∷ l) ≡ some (some (tiers_of f m))
unfolding open_all_components
open_found r sst_offset sst_length d l f m a b = rw (a, b, open_all_components) refl

-- On the devices of a store that was created it opens as the store that it was.
pub open_made :
    (seg_size secondary_seg_size sst_offset : ℕ) (d : Device) (l : List Device) (n : ℕ)
    → All IsPath (d ∷ l)
    → let c = made seg_size secondary_seg_size sst_offset d l n in
      open_all_components c.1 sst_offset c.0.sst_length_on_disk (d ∷ l) ≡ some (some c.0)
open_made seg_size secondary_seg_size sst_offset d l n (h, hs) =
    let c = made seg_size secondary_seg_size sst_offset d l n in
    let m = make_medium secondary_seg_size l in
    open_found c.1 sst_offset c.0.sst_length_on_disk d l
      (make_fast seg_size d sst_offset m.seg_total_num n) m
      (open_fast-make_fast seg_size d sst_offset m.seg_total_num n h)
      (open_medium-make_medium secondary_seg_size l hs)

meta_loop-lt :
    (fuel valid buddy bit num n : ℕ)
    → num < u32_mod
    → meta_loop fuel valid buddy bit num ≡ some n
    → n < u32_mod
unfolding meta_loop
meta_loop-lt zero valid buddy bit num n low e = absurd (none-ne-some n e)
meta_loop-lt (suc fuel) valid buddy bit num n low e =
    elim (Bool-cases (ltb valid (needed buddy bit num))) [
      | inl large ↦
          meta_loop-lt fuel valid buddy bit (u32_sub num 1) n (omega arith)
            (rw (large, meta_loop) at e)
      | inr fits ↦
          let q : num ≡ n = some-injective num n (rw (fits, meta_loop) at e) in
          omega (arith, q, low)
    ]

calc_seg_num-lt :
    (fuel capacity sst_offset seg_size buddy n : ℕ)
    → calc_seg_num_for_meta fuel capacity sst_offset buddy seg_size ≡ some n
    → n < u32_mod
unfolding calc_seg_num_for_meta
calc_seg_num-lt fuel capacity sst_offset seg_size buddy n e =
    meta_loop-lt fuel _ buddy _ _ n (omega arith) e

-- A creation that succeeds makes such a store.
pub create_all_components-made :
    (fuel seg_size secondary_seg_size sst_offset : ℕ) (d : Device) (l : List Device)
    (c : MultiTier × ReservedTiers)
    → create_all_components fuel (d ∷ l) seg_size secondary_seg_size sst_offset ≡ some (some c)
    → (n : ℕ) × (n < u32_mod) × (made seg_size secondary_seg_size sst_offset d l n ≡ c)
unfolding create_all_components create_medium create_fast
create_all_components-made fuel seg_size secondary_seg_size sst_offset d l c e =
    let total = (make_medium secondary_seg_size l).seg_total_num in
    elim (Bool-cases (is_page_aligned secondary_seg_size)) [
      | inr odd ↦
          absurd (none-ne-some c (some-injective _ (some c) (rw (odd, create_all_components) at e)))
      | inl aligned ↦ elim (Bool-cases (is_page_aligned seg_size)) [
        | inr odd ↦ absurd (
            none-ne-some c
              (some-injective _ (some c) (rw (aligned, odd, create_all_components) at e)))
        | inl fast_aligned ↦
            elim (Option-cases
              (calc_seg_num_for_fast_tier fuel d.capacity sst_offset seg_size total)) [
                | inl never ↦ absurd (
                    none-ne-some (some c)
                      (rw (aligned, fast_aligned, never, create_all_components) at e))
                | inr (n, found) ↦ (
                  n,
                  calc_seg_num-lt fuel d.capacity sst_offset seg_size total n found,
                  some-injective _ c (
                      some-injective _ (some c)
                        (rw (aligned, fast_aligned, found, create_all_components) at e)),
                )
              ]
      ]
    ]
