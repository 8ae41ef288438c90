-- ===== src/MultiVolume/Create/Topology.antt =====
-- A store that was created is opened again with the same volumes.
use hlkvds.Prelude.{
  ℕ, zero, suc, ◌≡◌, ◌≢◌, refl, ◌∙◌, ap, Bool, true, false, Option, none, some, List, [], ◌∷◌, ◌++◌,
  ◌==◌, length, replicate, take, ◌<◌, arith, u32_add, u64_add, All, Bool-cases, Option-cases, inl,
  inr, subst,
}
use mathlib.Core.Option.{some-injective, none-ne-some}
use hlkvds.Memory.{le4}
use hlkvds.Volume.{Volume}
use hlkvds.Volume
use hlkvds.MultiVolume.{MultiVolume}
use hlkvds.MultiVolume
use hlkvds.MultiVolume.Capacity.{calc_ssts_length, calc_seg_num_for_meta, calc_seg_num_for_pure}
use hlkvds.MultiVolume.Create.{
  Device, Reserved, create_pure, add_segs, reserve_volumes, create_all_components, path_field,
  c_string, same_string, same_path, same_paths, verify_topology, open_pure, open_all_components,
  is_page_aligned,
}

-- A path as the system has them, with no zero in it, that leaves a zero in its field.
abbrev pub IsPath : Device → Type 0
IsPath d = All (λ (x : ℕ). x ≢ 0) d.path × (length d.path < 256)

pub same_string_self : (l : List ℕ) → same_string l l ≡ true
unfolding same_string
same_string_self [] = refl
same_string_self (x ∷ l) = ground (arith, same_string_self l)

-- A string that was copied into `n` bytes, with zeros behind it, and that is shorter.
c_string_padded :
    (l : List ℕ) (n k : ℕ) (rest : List ℕ)
    → All (λ (x : ℕ). x ≢ 0) l
    → length l < n
    → c_string (take n (l ++ replicate (suc k) 0) ++ rest) ≡ some l
unfolding c_string
c_string_padded [] zero k rest h lt = absurd (omega arith)
c_string_padded [] (suc n) k rest h lt = refl
c_string_padded (x ∷ l) zero k rest h lt = absurd (omega arith)
c_string_padded (x ∷ l) (suc n) k rest (h, hs) lt =
    let nonzero : (x == 0) ≡ false = ground (arith, h) in
    rw (nonzero, c_string_padded l n k rest hs (omega arith)) refl

pub same_path_kept :
    (d : Device) (segment_num cur_seg_id : ℕ)
    → IsPath d
    → same_path (path_field d.path) segment_num cur_seg_id d.path ≡ true
unfolding same_path
same_path_kept d segment_num cur_seg_id (h, short) =
    ap (λ (o : Option (List ℕ)). elim o [ none ↦ false | some p ↦ same_string p d.path ])
      (c_string_padded d.path 256 255 (le4 segment_num ++ le4 cur_seg_id) h short)
    ∙ same_string_self d.path

pub same_paths_reserved :
    (l : List Device) (vols : List Volume)
    → length vols ≡ length l
    → All IsPath l
    → same_paths (reserve_volumes l vols) l ≡ true
unfolding same_paths reserve_volumes
same_paths_reserved [] [] e h = refl
same_paths_reserved [] (v ∷ vols) e h = absurd (omega arith)
same_paths_reserved (d ∷ l) [] e h = absurd (omega arith)
same_paths_reserved (d ∷ l) (v ∷ vols) e (h, hs) =
    rw
      (
        same_path_kept d v.seg_num v.seg_mgr.cur_seg_id h,
        same_paths_reserved l vols (omega arith) hs,
      )
      refl

pub length-create_pure :
    (seg_size i : ℕ) (l : List Device) → length (create_pure seg_size i l) ≡ length l
unfolding create_pure
length-create_pure seg_size i [] = refl
length-create_pure seg_size i (d ∷ l) = ap suc (length-create_pure seg_size (suc i) l)

pub open_pure-create_pure :
    (seg_size i : ℕ) (l : List Device)
    → open_pure seg_size i (reserve_volumes l (create_pure seg_size i l)) ≡ create_pure seg_size i l
unfolding open_pure reserve_volumes create_pure
open_pure-create_pure seg_size i [] = refl
open_pure-create_pure seg_size i (d ∷ l) =
    ap
      (λ (t : List Volume).
        Volume.make i 0 seg_size (calc_seg_num_for_pure d.capacity seg_size) 0 ∷ t)
      (open_pure-create_pure seg_size (suc i) l)

add_segs-add : (a m : ℕ) (l : List Volume) → add_segs (u32_add a m) l ≡ u32_add (add_segs a l) m
unfolding add_segs
add_segs-add a m [] = refl
add_segs-add a m (v ∷ l) =
    ap (λ (t : ℕ). add_segs t l) (omega arith) ∙ add_segs-add (u32_add a v.seg_num) m l

verify_topology_reserved :
    (l : List Device) (vols : List Volume)
    → length vols ≡ length l
    → All IsPath l
    → verify_topology (length l) (reserve_volumes l vols) l ≡ true
unfolding verify_topology
verify_topology_reserved l vols e h =
    let paths = same_paths_reserved l vols e h in ground (arith, paths)

module _ (fuel now now' sst_offset seg_size : ℕ) (d : Device) (l : List Device) where
  abbrev Opens : MultiVolume × Reserved × Bool → Type 0
  Opens c =
      open_all_components c.1 sst_offset c.0.sst_length_on_disk (d ∷ l) (MultiVolume.make now')
      ≡ some (record (c.0) { last_time = now' }, true)

  create-Opens :
      (c : MultiVolume × Reserved × Bool)
      → All IsPath (d ∷ l)
      → create_all_components fuel (d ∷ l) seg_size sst_offset (MultiVolume.make now) ≡ some c
      → c.2 ≡ true
      → Opens c
  unfolding create_all_components open_all_components verify_topology reserve_volumes
  create-Opens c paths h good = elim (Bool-cases (is_page_aligned seg_size)) [
    | inr odd ↦
        let q = some-injective _ c (rw (odd, create_all_components) at h) in
        let bad : false ≡ true = ap (λ (x : MultiVolume × Reserved × Bool). x.2) q ∙ good in
        absurd (ground arith)
    | inl aligned ↦
        let pure = create_pure seg_size 1 l in
        let buddy = add_segs 0 pure in
        elim (Option-cases (calc_seg_num_for_meta fuel d.capacity sst_offset buddy seg_size)) [
          | inl never ↦ absurd (none-ne-some c (rw (aligned, never, create_all_components) at h))
          | inr (n, found) ↦
              let q = some-injective _ c (rw (aligned, found, create_all_components) at h) in
              let meta =
                Volume.make 0 (u64_add sst_offset (calc_ssts_length (u32_add buddy n))) seg_size n
                  0 in
              let topology =
                verify_topology_reserved (d ∷ l) (meta ∷ pure)
                  (ap suc (length-create_pure seg_size 1 l)) paths in
              subst Opens q
                (rw (topology, open_pure-create_pure seg_size 1 l, add_segs-add 0 n pure) refl)
        ]
  ]

-- OpenAllComponents on the same devices, with what CreateAllComponents left for the superblock and
-- with the region of the segment tables that the created store has, gives the created store again:
-- the same volumes at the same places with the same sizes, the same totals and the same longest
-- value; all but the time of the last table. No path has a zero in it, and each is shorter than 256
-- bytes.
pub open_all_components-create_all_components :
    (fuel now now' sst_offset seg_size : ℕ) (devices : List Device) (s : MultiVolume) (r : Reserved)
    → All IsPath devices
    → create_all_components fuel devices seg_size sst_offset (MultiVolume.make now)
      ≡ some (s, r, true)
    → open_all_components r sst_offset s.sst_length_on_disk devices (MultiVolume.make now')
      ≡ some (record s { last_time = now' }, true)
unfolding create_all_components
open_all_components-create_all_components fuel now now' sst_offset seg_size [] s r h e =
    absurd (none-ne-some (s, r, true) e)
open_all_components-create_all_components fuel now now' sst_offset seg_size (d ∷ l) s r h e =
    create-Opens fuel now now' sst_offset seg_size d l (s, r, true) h e refl
