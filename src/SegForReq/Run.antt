-- ===== src/SegForReq/Run.antt =====
-- Any sequence of ReqMerge, timeouts and tasks taken by the write threads.
use hlkvds.Prelude.{
  ℕ, ◌≡◌, refl, sym, ◌∙◌, ap, Option, none, some, List, [], ◌∷◌, ◌++◌, arith, get_elem?,
  Option-cases, inl, inr, subst,
}
use mathlib.Core.List.{append_assoc, append-nil}
use hlkvds.Utils.{KvTime}
use hlkvds.Volume.{Volume}
use hlkvds.SegForReq.{Request, SegForReq}
use hlkvds.SegForReq.Writers.{Writers, req_merge, timeout_round, take_task}
use hlkvds.SegForReq.Merge.{
  ids, queued, stream, IsSorted, reqs_of, req_merge-Grows, timeout_round-Grows,
}

-- What can happen: a request that a shard's thread merges, a round of the timeout thread, and a write
-- thread that takes a task.
pub data Event : Type 0 where
  merges : KvTime → Request → Event
  times : KvTime → Event
  takes : Event

-- The requests that were merged.
abbrev pub merged : List Event → List Request
merged [] = []
merged (merges now r ∷ l) = r ∷ merged l
merged (times now ∷ l) = merged l
merged (takes ∷ l) = merged l

merged-ids :
    (e : Event) (l : List Event) (k : ℕ)
    → ids k (merged (e ∷ [])) ++ ids k (merged l) ≡ ids k (merged (e ∷ l))
unfolding ids
merged-ids (merges now r) l k = ground arith
merged-ids (times now) l k = refl
merged-ids takes l k = refl

take_task_lem :
    (w : Writers) (q : List SegForReq) (r : SegForReq × Writers)
    → take_task (record w { queue = q }) ≡ some r
    → (q ≡ r.0 ∷ r.1.queue) × (w.segs ≡ r.1.segs)
unfolding take_task
take_task_lem w [] r h = absurd (ground arith)
take_task_lem w (seg ∷ q) r h = (ground arith, ground arith)

module _ {S : Type 0} (pick : S → S × Volume) (timeout shards : ℕ) where
  -- One event on the segments that were taken and the writers. A write thread with no task waits.
  unfoldable pub event :
      Event → List SegForReq × Writers × S → Option (List SegForReq × Writers × S)
  unfolding req_merge timeout_round take_task
  event (merges now r) (taken, w, s) = elim (req_merge pick timeout now r (w, s)) [
    | none ↦ none
    | some st ↦ some (taken, st.0, st.1)
  ]
  event (times now) (taken, w, s) = elim (timeout_round pick timeout now shards 0 (w, s)) [
    | none ↦ none
    | some st ↦ some (taken, st.0, st.1)
  ]
  event takes (taken, w, s) = elim (take_task w) [
    | none ↦ some (taken, w, s)
    | some r ↦ some (taken ++ r.0 ∷ [], r.1, s)
  ]

  unfoldable pub run :
      List Event → List SegForReq × Writers × S → Option (List SegForReq × Writers × S)
  unfolding event
  run [] st = some st
  run (e ∷ l) st = elim (event e st) [ none ↦ none | some st' ↦ run l st' ]

  -- Everything of shard `k`, in order: what was taken, what waits in the queue, what is collected.
  abbrev history : ℕ → List SegForReq × Writers × S → List ℕ
  history k (taken, w, s) = queued k taken ++ stream k w

  take_history :
      (k : ℕ) (taken q : List SegForReq) (seg : SegForReq) (l : List ℕ)
      → queued k (taken ++ seg ∷ []) ++ (queued k q ++ l)
        ≡ queued k taken ++ (queued k (seg ∷ q) ++ l)
  unfolding queued
  take_history k [] q seg l =
      ap (λ (m : List ℕ). m ++ (queued k q ++ l)) (append-nil (ids k seg.req_list))
      ∙ sym (append_assoc (ids k seg.req_list) (queued k q) l)
  take_history k (t ∷ taken) q seg l =
      append_assoc (ids k t.req_list) (queued k (taken ++ seg ∷ [])) (queued k q ++ l)
      ∙ ap (λ (m : List ℕ). ids k t.req_list ++ m) (take_history k taken q seg l)
      ∙ sym (append_assoc (ids k t.req_list) (queued k taken) (queued k (seg ∷ q) ++ l))

  event-history :
      (e : Event) (taken : List SegForReq) (w : Writers) (s : S) (st : List SegForReq × Writers × S)
      → IsSorted w.segs
      → event e (taken, w, s) ≡ some st
      → ((k : ℕ) → history k st ≡ history k (taken, w, s) ++ ids k (merged (e ∷ [])))
        × IsSorted st.1.segs
  unfolding event ids
  event-history (merges now r) taken w s st v h =
      elim (Option-cases (req_merge pick timeout now r (w, s))) [
        | inl gone ↦ absurd (ground arith)
        | inr (st', there) ↦
            let p : (taken, st'.0, st'.1) ≡ st = ground arith in
            let (grows, sorted) = req_merge-Grows pick timeout now r w st'.0 s st'.1 v there in
            (
              λ k.
                  ap (history k) (sym p)
                  ∙ ap (λ (l : List ℕ). queued k taken ++ l) (grows k)
                  ∙ sym (append_assoc (queued k taken) (stream k w) (ids k (r ∷ []))),
              subst (λ (x : List SegForReq × Writers × S). IsSorted x.1.segs) p sorted,
            )
      ]
  event-history (times now) taken w s st v h =
      elim (Option-cases (timeout_round pick timeout now shards 0 (w, s))) [
        | inl gone ↦ absurd (ground arith)
        | inr (st', there) ↦
            let p : (taken, st'.0, st'.1) ≡ st = ground arith in
            let (grows, sorted) =
              timeout_round-Grows pick timeout now shards 0 w st'.0 s st'.1 v there in
            (
              λ k.
                  ap (history k) (sym p)
                  ∙ ap (λ (l : List ℕ). queued k taken ++ l) (grows k)
                  ∙ sym (append_assoc (queued k taken) (stream k w) []),
              subst (λ (x : List SegForReq × Writers × S). IsSorted x.1.segs) p sorted,
            )
      ]
  event-history takes taken w s st v h = elim (Option-cases (take_task w)) [
    | inl empty ↦
        let p : (taken, w, s) ≡ st = ground arith in
        (
          λ k. ap (history k) (sym p) ∙ sym (append-nil (history k (taken, w, s))),
          subst (λ (x : List SegForReq × Writers × S). IsSorted x.1.segs) p v,
        )
    | inr (r, there) ↦
        let (q, segs) = take_task_lem w w.queue r there in
        let p : (taken ++ r.0 ∷ [], r.1, s) ≡ st = ground arith in
        (
          λ k.
              ap (history k) (sym p)
              ∙ take_history k taken r.1.queue r.0 (ids k (reqs_of (get_elem? r.1.segs k)))
              ∙ (λ i.
                  queued k taken
                  ++ (queued k (sym q i) ++ ids k (reqs_of (get_elem? (sym segs i) k))))
              ∙ sym (append-nil (history k (taken, w, s))),
          subst (λ (x : List SegForReq × Writers × S). IsSorted x.1.segs) p (subst IsSorted segs v),
        )
  ]

  -- Whatever is merged, times out and is taken, in whatever order: the requests of a shard that were
  -- taken, with those that wait in the queue and in the shard's segment, are just those that were
  -- merged for the shard, in the order of their merging.
  pub run-history :
      (l : List Event) (st st' : List SegForReq × Writers × S)
      → IsSorted st.1.segs
      → run l st ≡ some st'
      → (k : ℕ)
      → queued k st'.0 ++ stream k st'.1 ≡ (queued k st.0 ++ stream k st.1) ++ ids k (merged l)
  unfolding run ids
  run-history [] st st' v h k =
      let p : st ≡ st' = ground arith in ap (history k) (sym p) ∙ sym (append-nil (history k st))
  run-history (e ∷ l) (taken, w, s) st' v h k = elim (Option-cases (event e (taken, w, s))) [
    | inl gone ↦ absurd (ground arith)
    | inr (st, there) ↦
        let (step, sorted) = event-history e taken w s st v there in
        run-history l st st' sorted (ground arith) k
        ∙ ap (λ (m : List ℕ). m ++ ids k (merged l)) (step k)
        ∙ append_assoc (history k (taken, w, s)) (ids k (merged (e ∷ []))) (ids k (merged l))
        ∙ ap (λ (m : List ℕ). history k (taken, w, s) ++ m) (merged-ids e l k)
  ]
