-- ===== src/ReadCache/Lru.antt =====
-- LRUMap.h as the cache map of ReadCache.
use hlkvds.Prelude.{
  ◌≡◌, refl, sym, Bool, none, some, List, [], ◌∷◌, arith, Bool-cases, inl, inr, Option-cases, ◌⊎◌,
  ◌==◌, subst,
}
use hlkvds.LruMap.{LruMap, lookup, detach, last_node, drop_last}
use hlkvds.LruMap
use hlkvds.ReadCache.{Str, str_eq, CacheMap}
use hlkvds.ReadCache.Fresh.{str_eq_sound, IsCacheMap}

-- The cache map of the policy LRU; what Put drops is known by its key.
unfoldable pub lru : CacheMap (LruMap Str Str)
unfolding LruMap.put LruMap.get LruMap.delete
lru = record {
  put = λ f v same m.
      let r = LruMap.put str_eq m f v same in (r.0, elim r.1 [ none ↦ none | some x ↦ some x.0 ]);
  get = λ f m. LruMap.get str_eq m f;
  delete = λ f m. (LruMap.delete str_eq m f).0;
}

-- The list has a node of this key and this value.
abbrev HasNode : List (Str × Str) → Str → Str → Type 0
HasNode [] f w = ⊥
HasNode (x ∷ l) f w = ((x.0 ≡ f) × (x.1 ≡ w)) ⊎ HasNode l f w

abbrev pub Holds : LruMap Str Str → Str → Str → Type 0
Holds m f w = HasNode m.nodes f w

lookup-HasNode : (l : List (Str × Str)) (f w : Str) → lookup str_eq l f ≡ some w → HasNode l f w
unfolding lookup
lookup-HasNode [] f w h = absurd (ground arith)
lookup-HasNode (x ∷ l) f w h = elim (Bool-cases (str_eq x.0 f)) [
  | inl here ↦ inl (str_eq_sound x.0 f here, ground arith)
  | inr other ↦ inr (lookup-HasNode l f w (ground arith))
]

detach-HasNode :
    (l : List (Str × Str)) (k f w : Str) → HasNode (detach str_eq l k) f w → HasNode l f w
unfolding detach
detach-HasNode [] k f w h = h
detach-HasNode (x ∷ l) k f w h = elim (Bool-cases (str_eq x.0 k)) [
  | inl here ↦
      let e : detach str_eq (x ∷ l) k ≡ l = rw here refl in
      inr (subst (λ (n : List (Str × Str)). HasNode n f w) e h)
  | inr other ↦
      let e : detach str_eq (x ∷ l) k ≡ x ∷ detach str_eq l k = rw other refl in
      elim (subst (λ (n : List (Str × Str)). HasNode n f w) e h) [
        | inl p ↦ inl p
        | inr p ↦ inr (detach-HasNode l k f w p)
      ]
]

drop_last-HasNode :
    (l : List (Str × Str)) (f w : Str) → HasNode (drop_last str_eq l) f w → HasNode l f w
unfolding drop_last
drop_last-HasNode [] f w h = h
drop_last-HasNode (x ∷ []) f w h = absurd h
drop_last-HasNode (x ∷ y ∷ l) f w (inl p) = inl p
drop_last-HasNode (x ∷ y ∷ l) f w (inr p) = inr (drop_last-HasNode (y ∷ l) f w p)

get-Holds : (f w : Str) (m : LruMap Str Str) → (lru.get f m).1 ≡ some w → Holds m f w
unfolding lru LruMap.get
get-Holds f w m h = elim (Option-cases (lookup str_eq m.nodes f)) [
  | inl absent ↦ absurd (ground arith)
  | inr (v, there) ↦ lookup-HasNode m.nodes f w (ground arith)
]

get_keeps : (f g w : Str) (m : LruMap Str Str) → Holds (lru.get f m).0 g w → Holds m g w
unfolding lru LruMap.get
get_keeps f g w m h = elim (Option-cases (lookup str_eq m.nodes f)) [
  | inl absent ↦
      let e : (lru.get f m).0.nodes ≡ m.nodes = rw (absent, LruMap.get) refl in
      subst (λ (n : List (Str × Str)). HasNode n g w) e h
  | inr (v, there) ↦
      let e : (lru.get f m).0.nodes ≡ (f, v) ∷ detach str_eq m.nodes f =
        rw (there, LruMap.get) refl in
      elim (subst (λ (n : List (Str × Str)). HasNode n g w) e h) [
        | inl (p, q) ↦
            subst (λ (n : Str). HasNode m.nodes n w) p
              (subst (HasNode m.nodes f) q (lookup-HasNode m.nodes f v there))
        | inr p ↦ detach-HasNode m.nodes f g w p
      ]
]

put-Holds :
    (f v g w : Str) (same : Bool) (m : LruMap Str Str)
    → Holds (lru.put f v same m).0 g w
    → (f ≡ g) × (w ≡ v) ⊎ Holds m g w
unfolding lru LruMap.put
put-Holds f v g w same m h = elim (Option-cases (lookup str_eq m.nodes f)) [
  | inr (old, there) ↦ elim (Bool-cases same) [
    | inl keep ↦
        let e : (lru.put f v same m).0.nodes ≡ (f, old) ∷ detach str_eq m.nodes f =
          rw (there, LruMap.put) (rw keep refl) in
        elim (subst (λ (n : List (Str × Str)). HasNode n g w) e h) [
          | inl (p, q) ↦ inr (
              subst (λ (n : Str). HasNode m.nodes n w) p
                (subst (HasNode m.nodes f) q (lookup-HasNode m.nodes f old there)))
          | inr p ↦ inr (detach-HasNode m.nodes f g w p)
        ]
    | inr set ↦
        let e : (lru.put f v same m).0.nodes ≡ (f, v) ∷ detach str_eq m.nodes f =
          rw (there, LruMap.put) (rw set refl) in
        elim (subst (λ (n : List (Str × Str)). HasNode n g w) e h) [
          | inl (p, q) ↦ inl (p, sym q)
          | inr p ↦ inr (detach-HasNode m.nodes f g w p)
        ]
  ]
  | inl absent ↦ elim (Bool-cases (m.free == 0)) [
    | inl full ↦
        let e : (lru.put f v same m).0.nodes ≡ (f, v) ∷ drop_last str_eq m.nodes =
          rw (absent, LruMap.put) (rw full refl) in
        elim (subst (λ (n : List (Str × Str)). HasNode n g w) e h) [
          | inl (p, q) ↦ inl (p, sym q)
          | inr p ↦ inr (drop_last-HasNode m.nodes g w p)
        ]
    | inr room ↦
        let e : (lru.put f v same m).0.nodes ≡ (f, v) ∷ m.nodes =
          rw (absent, LruMap.put) (rw room refl) in
        elim (subst (λ (n : List (Str × Str)). HasNode n g w) e h) [
          | inl (p, q) ↦ inl (p, sym q)
          | inr p ↦ inr p
        ]
  ]
]

delete_keeps : (f g w : Str) (m : LruMap Str Str) → Holds (lru.delete f m) g w → Holds m g w
unfolding lru LruMap.delete
delete_keeps f g w m h = elim (Option-cases (lookup str_eq m.nodes f)) [
  | inl absent ↦
      let e : (lru.delete f m).nodes ≡ m.nodes = rw (absent, LruMap.delete) refl in
      subst (λ (n : List (Str × Str)). HasNode n g w) e h
  | inr (v, there) ↦
      let e : (lru.delete f m).nodes ≡ detach str_eq m.nodes f = rw (there, LruMap.delete) refl in
      detach-HasNode m.nodes f g w (subst (λ (n : List (Str × Str)). HasNode n g w) e h)
]

-- LRUMap is a cache map.
pub lru-IsCacheMap : IsCacheMap lru Holds
lru-IsCacheMap = record {
  get_holds = get-Holds;
  put_holds = put-Holds;
  get_keeps = get_keeps;
  delete_keeps = delete_keeps;
}
