-- ===== src/SegForReq/Merge.antt =====
-- ReqMerge, the timeout and the queue of full segments, over any sequence of calls: what becomes of
-- the requests (DS_MultiVolume_Impl.cc, Tier.cc).
use hlkvds.Prelude.{
  ℕ, zero, suc, ◌≡◌, ◌≢◌, refl, sym, ◌∙◌, ap, Option, none, some, List, [], ◌∷◌, ◌++◌, arith, set,
  get_elem?, get_elem?-set_self, get_elem?-set_ne, ◌==◌, if◌then◌else◌, Bool-cases, Option-cases,
  inl, inr, subst,
}
use mathlib.Core.List.{append_assoc, append-nil}
use hlkvds.Utils.{KvTime}
use hlkvds.Volume.{Volume}
use hlkvds.SegForReq.{Request, SegForReq, completion, is_expired}
use hlkvds.SegForReq
use hlkvds.SegForReq.Writers.{Writers, renew, req_merge, timeout_round}

-- The requests of a shard, by their addresses.
unfoldable pub ids : ℕ → List Request → List ℕ
ids k [] = []
ids k (r ∷ rs) = let rest = ids k rs in if r.shards_wq_id == k then r.id ∷ rest else rest

-- In segments that were handed over, in order.
unfoldable pub queued : ℕ → List SegForReq → List ℕ
unfolding ids
queued k [] = []
queued k (seg ∷ q) = ids k seg.req_list ++ queued k q

abbrev pub reqs_of : Option SegForReq → List Request
reqs_of none = []
reqs_of (some seg) = seg.req_list

-- All that wait for a write, in order.
abbrev pub stream : ℕ → Writers → List ℕ
stream k w = queued k w.queue ++ ids k (reqs_of (get_elem? w.segs k))

-- A shard's segment has no requests of another shard.
abbrev pub IsSorted : List SegForReq → Type 0
IsSorted segs = (i k : ℕ) → i ≢ k → ids k (reqs_of (get_elem? segs i)) ≡ []

ids-append : (k : ℕ) (l m : List Request) → ids k (l ++ m) ≡ ids k l ++ ids k m
unfolding ids
ids-append k [] m = refl
ids-append k (r ∷ l) m = ground (arith, ids-append k l m)

queued-append : (k : ℕ) (p q : List SegForReq) → queued k (p ++ q) ≡ queued k p ++ queued k q
unfolding queued
queued-append k [] q = refl
queued-append k (seg ∷ p) q =
    ap (λ (l : List ℕ). ids k seg.req_list ++ l) (queued-append k p q)
    ∙ sym (append_assoc (ids k seg.req_list) (queued k p) (queued k q))

ids_other : (k : ℕ) (r : Request) → r.shards_wq_id ≢ k → ids k (r ∷ []) ≡ []
unfolding ids
ids_other k r h = ground arith

-- A segment that takes the place of a shard's, with requests of that shard.
set-IsSorted :
    (segs : List SegForReq) (shard : ℕ) (seg new : SegForReq)
    → get_elem? segs shard ≡ some seg
    → ((k : ℕ) → shard ≢ k → ids k new.req_list ≡ [])
    → IsSorted segs
    → IsSorted (set segs shard new)
set-IsSorted segs shard seg new e h v i k n = elim (Bool-cases (shard == i)) [
  | inl here ↦
      let p : shard ≡ i = ground arith in
      let at : get_elem? (set segs shard new) i ≡ some new =
        subst (λ (j : ℕ). get_elem? (set segs shard new) j ≡ some new) p
          (get_elem?-set_self segs shard new seg e) in
      ap (λ (o : Option SegForReq). ids k (reqs_of o)) at ∙ h k (λ q. n (sym p ∙ q))
  | inr other ↦
      ap (λ (o : Option SegForReq). ids k (reqs_of o))
        (get_elem?-set_ne segs shard i new (λ p. ground arith))
      ∙ v i k n
]

module _ {S : Type 0} (pick : S → S × Volume) (timeout : ℕ) where
  -- A segment is handed over, and the new one of the shard starts with `extra`.
  renew-stream :
      (now : KvTime) (shard : ℕ) (seg : SegForReq) (first : SegForReq → SegForReq)
      (extra : List Request) (w : Writers) (s : S) (k : ℕ)
      → get_elem? w.segs shard ≡ some seg
      → ((new : SegForReq) → ids k (first new).req_list ≡ ids k (new.req_list ++ extra))
      → ((j : ℕ) → shard ≢ j → ids j extra ≡ [])
      → IsSorted w.segs
      → stream k (renew pick timeout now shard seg first (w, s)).0 ≡ stream k w ++ ids k extra
  unfolding renew queued SegForReq.make
  renew-stream now shard seg first extra w s k e f h v =
      let new = first (SegForReq.make w.fresh (pick s).1 timeout now) in
      let q = queued-append k w.queue (completion seg ∷ []) in
      elim (Bool-cases (shard == k)) [
        | inl here ↦
            let p : shard ≡ k = ground arith in
            let at : get_elem? (set w.segs shard new) k ≡ some new =
              subst (λ (j : ℕ). get_elem? (set w.segs shard new) j ≡ some new) p
                (get_elem?-set_self w.segs shard new seg e) in
            let was : get_elem? w.segs k ≡ some seg =
              subst (λ (j : ℕ). get_elem? w.segs j ≡ some seg) p e in
            (λ i. q i ++ ids k (reqs_of (at i)))
            ∙ (λ i.
                (queued k w.queue ++ append-nil (ids k seg.req_list) i)
                ++ f (SegForReq.make w.fresh (pick s).1 timeout now) i)
            ∙ (λ i. (queued k w.queue ++ ids k (reqs_of (sym was i))) ++ ids k extra)
        | inr other ↦
            let n : shard ≢ k = λ p. ground arith in
            let same = get_elem?-set_ne w.segs shard k new n in
            let none_here : ids k seg.req_list ≡ [] =
              ap (λ (o : Option SegForReq). ids k (reqs_of o)) (sym e) ∙ v shard k n in
            (λ i. q i ++ ids k (reqs_of (same i)))
            ∙ (λ i.
                (queued k w.queue ++ append-nil (none_here i) i)
                ++ ids k (reqs_of (get_elem? w.segs k)))
            ∙ (λ i. append-nil (queued k w.queue) i ++ ids k (reqs_of (get_elem? w.segs k)))
            ∙ (λ i. sym (append-nil (stream k w)) i)
            ∙ (λ i. stream k w ++ sym (h k n) i)
      ]

  -- The stream of each shard after a step, and that the segments stay sorted by shard.
  abbrev pub Grows : List Request → Writers → Writers → Type 0
  Grows extra w w' = ((k : ℕ) → stream k w' ≡ stream k w ++ ids k extra) × IsSorted w'.segs

  renew-Grows :
      (now : KvTime) (shard : ℕ) (seg : SegForReq) (first : SegForReq → SegForReq)
      (extra : List Request) (w : Writers) (s : S)
      → get_elem? w.segs shard ≡ some seg
      → ((new : SegForReq) (k : ℕ) → ids k (first new).req_list ≡ ids k (new.req_list ++ extra))
      → ((j : ℕ) → shard ≢ j → ids j extra ≡ [])
      → IsSorted w.segs
      → Grows extra w (renew pick timeout now shard seg first (w, s)).0
  unfolding renew SegForReq.make
  renew-Grows now shard seg first extra w s e f h v = (
    λ k. renew-stream now shard seg first extra w s k e (λ new. f new k) h v,
    set-IsSorted w.segs shard seg (first (SegForReq.make w.fresh (pick s).1 timeout now)) e
        (λ k n. f (SegForReq.make w.fresh (pick s).1 timeout now) k ∙ h k n) v,
  )

  ids-put :
      (now : KvTime) (seg : SegForReq) (r : Request) (k : ℕ)
      → ids k (SegForReq.put now seg r).req_list ≡ ids k (seg.req_list ++ r ∷ [])
  unfolding SegForReq.put ids
  ids-put now seg r k =
      ids-append k seg.req_list (record r { seg_ptr = some seg.id } ∷ [])
      ∙ sym (ids-append k seg.req_list (r ∷ []))

  put-Grows :
      (now : KvTime) (seg : SegForReq) (r : Request) (w : Writers)
      → get_elem? w.segs r.shards_wq_id ≡ some seg
      → IsSorted w.segs
      → Grows (r ∷ []) w (record w { segs = set w.segs r.shards_wq_id (SegForReq.put now seg r) })
  put-Grows now seg r w e v =
      let new = SegForReq.put now seg r in
      let none_here : (k : ℕ) → r.shards_wq_id ≢ k → ids k seg.req_list ≡ [] =
        λ k n. ap (λ (o : Option SegForReq). ids k (reqs_of o)) (sym e) ∙ v r.shards_wq_id k n in
      let both = λ (k : ℕ). ids-put now seg r k ∙ ids-append k seg.req_list (r ∷ []) in
      (
        λ k. elim (Bool-cases (r.shards_wq_id == k)) [
          | inl here ↦
              let p : r.shards_wq_id ≡ k = ground arith in
              let at : get_elem? (set w.segs r.shards_wq_id new) k ≡ some new =
                subst (λ (j : ℕ). get_elem? (set w.segs r.shards_wq_id new) j ≡ some new) p
                  (get_elem?-set_self w.segs r.shards_wq_id new seg e) in
              let was : get_elem? w.segs k ≡ some seg =
                subst (λ (j : ℕ). get_elem? w.segs j ≡ some seg) p e in
              (λ i. queued k w.queue ++ ids k (reqs_of (at i)))
              ∙ (λ i. queued k w.queue ++ both k i)
              ∙ sym (append_assoc (queued k w.queue) (ids k seg.req_list) (ids k (r ∷ [])))
              ∙ (λ i. (queued k w.queue ++ ids k (reqs_of (sym was i))) ++ ids k (r ∷ []))
          | inr other ↦
              let n : r.shards_wq_id ≢ k = λ p. ground arith in
              let same = get_elem?-set_ne w.segs r.shards_wq_id k new n in
              (λ i. queued k w.queue ++ ids k (reqs_of (same i)))
              ∙ sym (append-nil (stream k w))
              ∙ (λ i. stream k w ++ sym (ids_other k r n) i)
        ],
        set-IsSorted w.segs r.shards_wq_id seg new e
            (λ k n. both k ∙ (λ i. none_here k n i ++ ids_other k r n i)) v,
      )

  -- ReqMerge puts a request behind all that its shard has, and changes no other shard.
  pub req_merge-Grows :
      (now : KvTime) (r : Request) (w w' : Writers) (s s' : S)
      → IsSorted w.segs
      → req_merge pick timeout now r (w, s) ≡ some (w', s')
      → Grows (r ∷ []) w w'
  unfolding req_merge
  req_merge-Grows now r w w' s s' v e = elim (Option-cases (get_elem? w.segs r.shards_wq_id)) [
    | inl absent ↦ absurd (ground arith)
    | inr (seg, there) ↦ elim (Bool-cases (SegForReq.try_put seg r)) [
      | inl fits ↦
          let p : (record w { segs = set w.segs r.shards_wq_id (SegForReq.put now seg r) }) ≡ w' =
            ground arith in
          subst (Grows (r ∷ []) w) p (put-Grows now seg r w there v)
      | inr full ↦
          let p : (renew pick timeout now r.shards_wq_id seg (λ new. SegForReq.put now new r)
                (w, s)).0
              ≡ w' =
            ground arith in
          subst (Grows (r ∷ []) w) p (
            renew-Grows now r.shards_wq_id seg (λ new. SegForReq.put now new r) (r ∷ []) w s there
              (λ new k. ids-put now new r k) (λ j n. ids_other j r n) v)
    ]
  ]

  pub timeout_round-Grows :
      (now : KvTime) (n shard : ℕ) (w w' : Writers) (s s' : S)
      → IsSorted w.segs
      → timeout_round pick timeout now n shard (w, s) ≡ some (w', s')
      → Grows [] w w'
  unfolding timeout_round ids
  timeout_round-Grows now zero shard w w' s s' v e =
      let p : w ≡ w' = ground arith in subst (Grows [] w) p (λ k. sym (append-nil (stream k w)), v)
  timeout_round-Grows now (suc n) shard w w' s s' v e =
      elim (Option-cases (get_elem? w.segs shard)) [
        | inl absent ↦ absurd (ground arith)
        | inr (seg, there) ↦ elim (Bool-cases (is_expired now seg)) [
          | inl late ↦
              let r = renew pick timeout now shard seg (λ new. new) (w, s) in
              let (same, sorted) =
                renew-Grows now shard seg (λ new. new) [] w s there
                  (λ new k. ap (ids k) (sym (append-nil new.req_list))) (λ j m. refl) v in
              let (same', sorted') =
                timeout_round-Grows now n (suc shard) r.0 w' r.1 s' sorted (ground arith) in
              (λ k. same' k ∙ append-nil (stream k r.0) ∙ same k, sorted')
          | inr early ↦ timeout_round-Grows now n (suc shard) w w' s s' v (ground arith)
        ]
      ]
