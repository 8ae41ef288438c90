-- ===== src/MultiVolume/Tables.antt =====
-- GetAllSSTs and SetAllSSTs of DS_MultiVolume_Impl.cc: the segment tables of all volumes, one behind
-- the other, with the time. The tables are lists of stats; the length of a region is in bytes.
use hlkvds.Prelude.{
  ℕ, ◌+◌, ◌≡◌, refl, sym, ◌∙◌, ap, true, Option, none, some, List, [], ◌∷◌, ◌++◌, arith, length,
  take, drop, take-append, drop-append, map, ◌==◌, if◌then◌else◌, All, subst, Bool-cases, inl, inr,
}
use mathlib.Core.Option.{none-ne-some}
use hlkvds.SegmentManager.{SegmentStat, SegmentManager, init, get, set_table, get_entry}
use hlkvds.SegmentManager.Count.{Inv}
use hlkvds.SegmentManager.Persist.{set_table-get}
use hlkvds.Volume.{Volume}
use hlkvds.MultiVolume.{MultiVolume}

-- The region: `lastTime_`, and the tables.
pub record Tables : Type 0 where
  pub time : ℕ
  pub stats : List SegmentStat

-- The loops; `none` is the result false.
unfoldable pub get_tables : List Volume → Option (List SegmentStat)
unfolding get
get_tables [] = some []
get_tables (v ∷ l) = elim (get v.seg_mgr v.seg_num) [
  | none ↦ none
  | some t ↦ elim (get_tables l) [ none ↦ none | some rest ↦ some (t ++ rest) ]
]

unfoldable pub set_tables : List Volume → List SegmentStat → Option (List Volume)
unfolding set_table
set_tables [] stats = some []
set_tables (v ∷ l) stats = elim (set_table v.seg_mgr (take v.seg_num stats)) [
  | none ↦ none
  | some m ↦ elim (set_tables l (drop v.seg_num stats)) [
    | none ↦ none
    | some rest ↦ some (record v { seg_mgr = m } ∷ rest)
  ]
]

-- `now` is the time that lastTime_->Update() reads.
unfoldable pub get_all_ssts : ℕ → ℕ → MultiVolume → Option (MultiVolume × Tables)
unfolding get_tables set_tables
get_all_ssts now length s =
    if length == s.sst_length_on_disk
    then elim (get_tables s.vols) [
      | none ↦ none
      | some t ↦ some (record s { last_time = now }, record { time = now; stats = t })
    ]
    else none

unfoldable pub set_all_ssts : Tables → ℕ → MultiVolume → Option MultiVolume
unfolding set_tables
set_all_ssts t length s =
    if length == s.sst_length_on_disk
    then elim (set_tables s.vols t.stats) [
      | none ↦ none
      | some vols ↦ some (record s { vols = vols; last_time = t.time })
    ]
    else none

-- A volume whose segment table is in order.
pub record IsSound (v : Volume) : Type 0 where
  pub inv : Inv v.seg_mgr
  pub sized : v.seg_mgr.seg_num ≡ v.seg_num

-- The volume as it is opened, before its table is read.
abbrev pub opened : Volume → Volume
opened v = record v { seg_mgr = init v.seg_mgr.seg_size v.seg_mgr.seg_num v.seg_mgr.cur_seg_id }

-- The volume with its table read back: reserved segments are free, all others as they were.
pub record IsReloaded (v w : Volume) : Type 0 where
  pub place : w ≡ record v { seg_mgr = w.seg_mgr }
  pub inv : Inv w.seg_mgr
  pub table : w.seg_mgr.seg_table ≡ map get_entry v.seg_mgr.seg_table
  pub used_kept : w.seg_mgr.used_counter ≡ v.seg_mgr.used_counter
  pub freed : w.seg_mgr.freed_counter ≡ v.seg_mgr.freed_counter + v.seg_mgr.reserved_counter

abbrev pub AllReloaded : List Volume → List Volume → Type 0
AllReloaded [] [] = Unit {0}
AllReloaded (v ∷ l) (w ∷ k) = IsReloaded v w × AllReloaded l k
AllReloaded _ _ = ⊥

length_of_set :
    (m n : SegmentManager) (buf : List SegmentStat)
    → set_table m buf ≡ some n
    → length buf ≡ m.seg_num
unfolding set_table
length_of_set m n buf h = elim (Bool-cases (length buf == m.seg_num)) [
  | inl same ↦ ground arith
  | inr other ↦ absurd (none-ne-some n (rw (other, set_table) at h))
]

seg_num_of_init : (a b c : ℕ) → (init a b c).seg_num ≡ b
unfolding init
seg_num_of_init a b c = refl

set_first :
    (v : Volume) (l k : List Volume) (m : SegmentManager) (stats : List SegmentStat)
    → set_table v.seg_mgr (take v.seg_num stats) ≡ some m
    → set_tables l (drop v.seg_num stats) ≡ some k
    → set_tables (v ∷ l) stats ≡ some (record v { seg_mgr = m } ∷ k)
unfolding set_tables
set_first v l k m stats a b = rw (a, b, set_tables) refl

set_tables-get_tables :
    (l : List Volume)
    → All IsSound l
    → (stats : List SegmentStat) × (get_tables l ≡ some stats)
      × ((k : List Volume) × (set_tables (map opened l) stats ≡ some k) × AllReloaded l k)
unfolding get_tables set_tables
set_tables-get_tables [] h = ([], refl, ([], refl, tt))
set_tables-get_tables (v ∷ l) (h, hs) =
    let (buf, m, got, set, inv, table, used_kept, freed) = set_table-get v.seg_mgr h.inv in
    let (stats, rest, (k, back, reloaded)) = set_tables-get_tables l hs in
    let size : length buf ≡ v.seg_num =
      length_of_set (init v.seg_mgr.seg_size v.seg_mgr.seg_num v.seg_mgr.cur_seg_id) m buf set
      ∙ seg_num_of_init v.seg_mgr.seg_size v.seg_mgr.seg_num v.seg_mgr.cur_seg_id
      ∙ h.sized in
    let front : take v.seg_num (buf ++ stats) ≡ buf =
      subst (λ (n : ℕ). take n (buf ++ stats) ≡ buf) size (take-append buf stats) in
    let behind : drop v.seg_num (buf ++ stats) ≡ stats =
      subst (λ (n : ℕ). drop n (buf ++ stats) ≡ stats) size (drop-append buf stats) in
    let got' : get v.seg_mgr v.seg_num ≡ some buf =
      subst (λ (n : ℕ). get v.seg_mgr n ≡ some buf) h.sized got in
    (
      buf ++ stats,
      rw (got', rest, get_tables) refl,
      (
        record v { seg_mgr = m } ∷ k,
        set_first (opened v) (map opened l) k m (buf ++ stats)
            (ap (set_table (init v.seg_mgr.seg_size v.seg_mgr.seg_num v.seg_mgr.cur_seg_id)) front
              ∙ set)
            (ap (set_tables (map opened l)) behind ∙ back),
        (
          record { place = refl; inv = inv; table = table; used_kept = used_kept; freed = freed },
          reloaded,
        ),
      ),
    )

-- Tables that were saved are loaded again: from volumes whose segment tables are in order,
-- GetAllSSTs of the region's length gives the tables, and SetAllSSTs of them into a store with the
-- same volumes, as they are opened, gives every volume its table again, at the same place and in
-- order, each segment that was reserved free and all others as they were, and sets the time.
pub set_all_ssts-get_all_ssts :
    (now : ℕ) (s t : MultiVolume)
    → All IsSound s.vols
    → t.vols ≡ map opened s.vols
    → t.sst_length_on_disk ≡ s.sst_length_on_disk
    → (s' : MultiVolume) × (image : Tables) × (get_all_ssts now s.sst_length_on_disk s
        ≡ some (s', image))
      × (s' ≡ record s { last_time = now })
      × ((t' : MultiVolume) × (set_all_ssts image t.sst_length_on_disk t ≡ some t')
          × AllReloaded s.vols t'.vols
          × (t'.last_time ≡ now))
unfolding get_all_ssts set_all_ssts
set_all_ssts-get_all_ssts now s t h vols e =
    let (stats, got, (k, back, reloaded)) = set_tables-get_tables s.vols h in
    let long : (s.sst_length_on_disk == s.sst_length_on_disk) ≡ true = ground arith in
    let long' : (t.sst_length_on_disk == t.sst_length_on_disk) ≡ true = ground arith in
    let back' : set_tables t.vols stats ≡ some k =
      subst (λ (l : List Volume). set_tables l stats ≡ some k) (sym vols) back in
    (
      record s { last_time = now },
      record { time = now; stats = stats },
      rw (long, got, get_all_ssts) refl,
      refl,
      (
        record t { vols = k; last_time = now },
        rw (long', back', set_all_ssts) refl,
        reloaded,
        refl,
      ),
    )
