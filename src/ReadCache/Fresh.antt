-- ===== src/ReadCache/Fresh.antt =====
-- What Get of ReadCache gives after Put (ReadCache.cc).
use hlkvds.Prelude.{
  ◌≡◌, refl, ◌∙◌, sym, Bool, true, false, none, some, List, [], ◌∷◌, ◌++◌, arith, Bool-cases, inl,
  inr, Option-cases, ◌⊎◌, subst, ap,
}
use hlkvds.ReadCache.{
  Str, str_eq, CacheMap, ReadCache, footprint_of, erase, renew, drop_keys, unrefer_first,
  is_referred, put, get, delete, delete,
}

pub str_eq_sound : (a b : Str) → str_eq a b ≡ true → a ≡ b
unfolding str_eq
str_eq_sound [] [] h = refl
str_eq_sound [] (y ∷ b) h = absurd (ground arith)
str_eq_sound (x ∷ a) [] h = absurd (ground arith)
str_eq_sound (x ∷ a) (y ∷ b) h =
    let e : x ≡ y = ground arith in let f = str_eq_sound a b (ground arith) in λ i. e i ∷ f i

-- A key has no footprint but `g` in a list.
abbrev Only : Str → Str → List (Str × Str) → Type 0
Only k g [] = Unit {0}
Only k g (x ∷ l) = (str_eq x.0 k ≡ true → x.1 ≡ g) × Only k g l

Only-absent : (k g : Str) (l : List (Str × Str)) → footprint_of l k ≡ none → Only k g l
unfolding footprint_of
Only-absent k g [] h = tt
Only-absent k g (x ∷ l) h = elim (Bool-cases (str_eq x.0 k)) [
  | inl here ↦ absurd (ground arith)
  | inr other ↦ (λ p. absurd (ground arith), Only-absent k g l (ground arith))
]

Only-erase : (k g j : Str) (l : List (Str × Str)) → Only k g l → Only k g (erase l j)
unfolding erase
Only-erase k g j [] h = tt
Only-erase k g j (x ∷ l) h = elim (Bool-cases (str_eq x.0 j)) [
  | inl here ↦ rw here h.1
  | inr other ↦ rw other (h.0, Only-erase k g j l h.1)
]

Only-footprint_of :
    (k g h : Str) (l : List (Str × Str)) → Only k g l → footprint_of l k ≡ some h → h ≡ g
unfolding footprint_of
Only-footprint_of k g h [] o e = absurd (ground arith)
Only-footprint_of k g h (x ∷ l) o e = elim (Bool-cases (str_eq x.0 k)) [
  | inl here ↦ let p : x.1 ≡ h = ground arith in sym p ∙ o.0 here
  | inr other ↦ Only-footprint_of k g h l o.1 (ground arith)
]

Only-drop_keys :
    (k g f : Str) (dedup l : List (Str × Str)) (r : List (Str × Str) × List (Str × Str))
    → Only k g dedup
    → drop_keys f dedup l ≡ some r
    → Only k g r.0
unfolding drop_keys
Only-drop_keys k g f dedup [] r o e = let p : dedup ≡ r.0 = ground arith in subst (Only k g) p o
Only-drop_keys k g f dedup (x ∷ l) r o e = elim (Bool-cases (str_eq x.0 f)) [
  | inl here ↦ elim (Option-cases (footprint_of dedup x.1)) [
    | inl gone ↦ absurd (ground arith)
    | inr (y, there) ↦
        Only-drop_keys k g f (erase dedup x.1) l r (Only-erase k g x.1 dedup o) (ground arith)
  ]
  | inr other ↦ elim (Option-cases (drop_keys f dedup l)) [
    | inl gone ↦ absurd (ground arith)
    | inr (s, there) ↦
        let p : s.0 ≡ r.0 = ground arith in
        subst (Only k g) p (Only-drop_keys k g f dedup l s o there)
  ]
]

footprint_of-renew :
    (l : List (Str × Str)) (k f o : Str)
    → footprint_of l k ≡ some o
    → footprint_of (renew l k f) k ≡ some f
unfolding footprint_of renew
footprint_of-renew [] k f o e = absurd (ground arith)
footprint_of-renew (x ∷ l) k f o e = elim (Bool-cases (str_eq x.0 k)) [
  | inl here ↦ rw here (rw here refl)
  | inr other ↦ rw other (rw other (footprint_of-renew l k f o (ground arith)))
]

-- What Put of a cache map may leave: the new entry or one that was there. Get gives an entry that is
-- there, and Get and Delete leave only what was there. `holds m f w`: the value w is in m under f.
pub record IsCacheMap {M : Type 0} (map : CacheMap M) (holds : M → Str → Str → Type 0)
    : Type 0 where
  pub get_holds : (f w : Str) (m : M) → (map.get f m).1 ≡ some w → holds m f w
  pub put_holds :
      (f v g w : Str) (same : Bool) (m : M)
      → holds (map.put f v same m).0 g w
      → (f ≡ g) × (w ≡ v) ⊎ holds m g w
  pub get_keeps : (f g w : Str) (m : M) → holds (map.get f m).0 g w → holds m g w
  pub delete_keeps : (f g w : Str) (m : M) → holds (map.delete f m) g w → holds m g w

module _ {M : Type 0} (map : CacheMap M) (footprint : Str → Str)
    (holds : M → Str → Str → Type 0) where
  -- Every value of the cache map is under its footprint.
  abbrev pub Matches : M → Type 0
  Matches m = (f w : Str) → holds m f w → footprint w ≡ f

  -- A cache after Put of a value: its cache map had the value put under its footprint, and the key
  -- has no other footprint.
  abbrev IsPut : Str → Str → M → ReadCache M → Type 0
  IsPut key value m c =
      ((same : Bool) × (c.cache_map ≡ (map.put (footprint value) value same m).0))
      × ((h : Str) → footprint_of c.dedup_map key ≡ some h → h ≡ footprint value)

  put-IsPut_present :
      (key value old : Str) (c c' : ReadCache M)
      → footprint_of c.dedup_map key ≡ some old
      → put map footprint key value c ≡ some c'
      → IsPut key value c.cache_map c'
  unfolding put
  put-IsPut_present key value old c c' there e = elim (Bool-cases (str_eq old (footprint value))) [
    | inl same ↦
        let p = str_eq_sound old (footprint value) same in
        let q : (record c { cache_map = (map.put old value true c.cache_map).0 }) ≡ c' =
          ground arith in
        subst (IsPut key value c.cache_map) q (
          (true, ap (λ (f : Str). (map.put f value true c.cache_map).0) p),
          λ h r. let s : h ≡ old = ground arith in s ∙ p,
        )
    | inr other ↦
        let renewed = footprint_of-renew c.dedup_map key (footprint value) old there in
        let m : (map.put (footprint value) value false c.cache_map).0 ≡ c'.cache_map =
          ground arith in
        let d : renew c.dedup_map key (footprint value) ≡ c'.dedup_map = ground arith in
        (
          (false, sym m),
          λ h r.
              let s : footprint_of (renew c.dedup_map key (footprint value)) key ≡ some h =
                ap (λ (l : List (Str × Str)). footprint_of l key) d ∙ r in
              ground arith,
        )
  ]

  put-IsPut_absent :
      (key value : Str) (c c' : ReadCache M)
      → footprint_of c.dedup_map key ≡ none
      → put map footprint key value c ≡ some c'
      → IsPut key value c.cache_map c'
  unfolding put
  put-IsPut_absent key value c c' absent e =
      let dedup = (key, footprint value) ∷ c.dedup_map in
      let refer = c.refer_map ++ (footprint value, key) ∷ [] in
      let only : Only key (footprint value) dedup =
        (λ p. refl, Only-absent key (footprint value) c.dedup_map absent) in
      elim (Option-cases (map.put (footprint value) value false c.cache_map).1) [
        | inl whole ↦
            let m : (map.put (footprint value) value false c.cache_map).0 ≡ c'.cache_map =
              ground arith in
            let d : dedup ≡ c'.dedup_map = ground arith in
            (
              (false, sym m),
              λ h r.
                  Only-footprint_of key (footprint value) h c'.dedup_map
                    (subst (Only key (footprint value)) d only) r,
            )
        | inr (f, dropped) ↦ elim (Option-cases (drop_keys f dedup refer)) [
          | inl gone ↦ absurd (ground arith)
          | inr (k, kept) ↦
              let m : (map.put (footprint value) value false c.cache_map).0 ≡ c'.cache_map =
                ground arith in
              let d : k.0 ≡ c'.dedup_map = ground arith in
              (
                (false, sym m),
                λ h r.
                    Only-footprint_of key (footprint value) h c'.dedup_map
                      (subst (Only key (footprint value)) d
                        (Only-drop_keys key (footprint value) f dedup refer k only kept))
                      r,
              )
        ]
      ]

  put-IsPut :
      (key value : Str) (c c' : ReadCache M)
      → put map footprint key value c ≡ some c'
      → IsPut key value c.cache_map c'
  put-IsPut key value c c' e = elim (Option-cases (footprint_of c.dedup_map key)) [
    | inl absent ↦ put-IsPut_absent key value c c' absent e
    | inr (old, there) ↦ put-IsPut_present key value old c c' there e
  ]

  put-Matches :
      (key value : Str) (c c' : ReadCache M)
      → IsCacheMap map holds
      → Matches c.cache_map
      → put map footprint key value c ≡ some c'
      → Matches c'.cache_map
  put-Matches key value c c' law v e f w h =
      let ((same, m), only) = put-IsPut key value c c' e in
      let there = subst (λ (x : M). holds x f w) m h in
      elim (law.put_holds (footprint value) value f w same c.cache_map there) [
        | inl (here, new) ↦ ap footprint new ∙ here
        | inr old ↦ v f w old
      ]

  get-Matches :
      (key : Str) (c : ReadCache M)
      → IsCacheMap map holds
      → Matches c.cache_map
      → Matches (get map footprint key c).0.cache_map
  unfolding get
  get-Matches key c law v = elim (Option-cases (footprint_of c.dedup_map key)) [
    | inl absent ↦ rw (absent, get) v
    | inr (g, there) ↦ rw (there, get) (λ f w h. v f w (law.get_keeps g f w c.cache_map h))
  ]

  delete-Matches :
      (key : Str) (c : ReadCache M)
      → IsCacheMap map holds
      → Matches c.cache_map
      → Matches (delete map footprint key c).cache_map
  unfolding delete
  delete-Matches key c law v = elim (Option-cases (footprint_of c.dedup_map key)) [
    | inl absent ↦ rw (absent, delete) v
    | inr (g, there) ↦ elim (Bool-cases (is_referred (unrefer_first c.refer_map g key) g)) [
      | inl kept ↦ rw (there, delete) (rw kept v)
      | inr free ↦
          rw (there, delete) (rw free (λ f w h. v f w (law.delete_keeps g f w c.cache_map h)))
    ]
  ]

  -- Put, Get and Delete leave every value of the cache map under its own footprint, whatever the
  -- cache map drops.
  pub put-get-delete-Matches :
      (c : ReadCache M)
      → IsCacheMap map holds
      → Matches c.cache_map
      → ((key value : Str) (c' : ReadCache M)
          → put map footprint key value c ≡ some c'
          → Matches c'.cache_map)
        × ((key : Str) → Matches (get map footprint key c).0.cache_map)
        × ((key : Str) → Matches (delete map footprint key c).cache_map)
  put-get-delete-Matches c law v = (
    λ key value c' e. put-Matches key value c c' law v e,
    λ key. get-Matches key c law v,
    λ key. delete-Matches key c law v,
  )

  -- What Get gives for a key after Put, if it gives something, has the footprint of the value put,
  -- also where the key had another value before or the cache map dropped an entry.
  pub get-put :
      (key value w : Str) (c c' : ReadCache M)
      → IsCacheMap map holds
      → Matches c.cache_map
      → put map footprint key value c ≡ some c'
      → (get map footprint key c').1 ≡ some w
      → footprint w ≡ footprint value
  unfolding get
  get-put key value w c c' law v e h =
      let ((same, m), only) = put-IsPut key value c c' e in
      elim (Option-cases (footprint_of c'.dedup_map key)) [
        | inl absent ↦ absurd (ground arith)
        | inr (f, there) ↦
            put-Matches key value c c' law v e f w (law.get_holds f w c'.cache_map (ground arith))
            ∙ only f there
      ]
