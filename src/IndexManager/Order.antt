-- ===== src/IndexManager/Order.antt =====
-- The order in which the updates of concurrent writers reach the index.
use hlkvds.Prelude.{
  ℕ, ◌≡◌, refl, ◌∙◌, sym, Bool, true, false, none, some, List, arith, if◌then◌else◌, ap,
}
use hlkvds.Digest.{Digest}
use hlkvds.Digest
use hlkvds.HashEntry.{HashEntry, LogicStamp, stamp_lt, stamp_linear}
use hlkvds.KvSlice.{KvSlice}
use hlkvds.IndexManager.{IndexManager, DataStor, find, update_index, update_absent}
use hlkvds.IndexManager.Find.{IsFilled, settle, is_full, find-update_index, found}
use hlkvds.IndexManager.Table.{Inv}
use hlkvds.IndexManager.Invariant.{update_index-Inv}

stamp_lt_trans :
    (a b c : LogicStamp) → stamp_lt a b ≡ true → stamp_lt b c ≡ true → stamp_lt a c ≡ true
stamp_lt_trans a b c = (stamp_linear a b c).2

stamp_lt_asym : (a b : LogicStamp) → stamp_lt a b ≡ true → stamp_lt b a ≡ false
stamp_lt_asym a b h = ground (arith, stamp_linear a b b)

-- Not earlier than an earlier one.
stamp_not_lt_trans :
    (a b c : LogicStamp) → stamp_lt a b ≡ true → stamp_lt c b ≡ false → stamp_lt a c ≡ true
stamp_not_lt_trans a b c p q = ground (arith, stamp_linear b c c, stamp_linear a b c)

-- Of two entries for a key that is there the later one settles it, unless the one that is there is
-- later still, in both orders.
settle_comm :
    (f g h k : Bool) (a b : KvSlice) (m : HashEntry)
    → stamp_lt a.entry.stamp b.entry.stamp ≡ true
    → (settle f b (settle g a (some m))
        ≡ some (if stamp_lt b.entry.stamp m.stamp then m else b.entry))
      × (settle h a (settle k b (some m))
          ≡ some (if stamp_lt b.entry.stamp m.stamp then m else b.entry))
unfolding settle
settle_comm f g h k a b m e =
    let asym = stamp_lt_asym a.entry.stamp b.entry.stamp e in
    let below = stamp_lt_trans a.entry.stamp b.entry.stamp m.stamp e in
    let above = stamp_not_lt_trans a.entry.stamp b.entry.stamp m.stamp e in
    (ground (arith, asym, below, above), ground (arith, asym, below, above))

module _ {S : Type 0} (ds : DataStor S) where
  find_twice :
      (a b : KvSlice) (im : IndexManager) (s : S) (d : Digest)
      → Inv im
      → IsFilled a
      → IsFilled b
      → a.digest ≡ b.digest
      → find (update_index ds b (update_index ds a (im, s)).0).0.0 d ≡ (
          if Digest.eq b.digest d
          then settle
              (is_full (update_index ds a (im, s)).0.0)
              b
              (settle (is_full im) a (find im b.digest))
          else find im d)
  find_twice a b im s d v p q e =
      let im' = (update_index ds a (im, s)).0.0 in
      let s' = (update_index ds a (im, s)).0.1 in
      let v' = update_index-Inv ds a im s v in
      ground (
        arith,
        find-update_index ds b im' s' d v'.table q,
        find-update_index ds a im s d v.table p,
        find-update_index ds a im s b.digest v.table p,
        Digest.eq_iff a.digest b.digest,
        Digest.eq_iff a.digest d,
        Digest.eq_iff b.digest d,
        ap (find im) e,
        e,
      )

  -- Two writes to a key that the index has, `a` with an earlier stamp than `b`: in whichever order they
  -- arrive, the key then finds the entry of `b`, or the one that was there if that is later than `b`;
  -- and every other key finds what it found before.
  pub update_index_comm :
      (a b : KvSlice) (m : HashEntry) (im : IndexManager) (s : S) (d : Digest)
      → Inv im
      → IsFilled a
      → IsFilled b
      → a.digest ≡ b.digest
      → find im a.digest ≡ some m
      → stamp_lt a.entry.stamp b.entry.stamp ≡ true
      → (find (update_index ds b (update_index ds a (im, s)).0).0.0 d ≡ (
          if Digest.eq b.digest d
          then some (if stamp_lt b.entry.stamp m.stamp then m else b.entry)
          else find im d))
        × (find (update_index ds a (update_index ds b (im, s)).0).0.0 d ≡ (
            if Digest.eq b.digest d
            then some (if stamp_lt b.entry.stamp m.stamp then m else b.entry)
            else find im d))
  update_index_comm a b m im s d v p q e there before =
      let f = is_full (update_index ds a (im, s)).0.0 in
      let h = is_full (update_index ds b (im, s)).0.0 in
      let (one, other) = settle_comm f (is_full im) h (is_full im) a b m before in
      let digests = ap (λ (x : Digest). Digest.eq x d) e in
      (
        ground (arith, find_twice a b im s d v p q e, ap (find im) e, one),
        ground (arith, find_twice b a im s d v q p (sym e), ap (find im) e, digests, other),
      )

  -- A delete of a key that is not there leaves the index as it is.
  delete_absent :
      (del : KvSlice) (im : IndexManager) (s : S)
      → IsFilled del
      → del.content ≡ none
      → find im del.digest ≡ none
      → (update_index ds del (im, s)).0.0 ≡ im
  unfolding update_index update_absent
  delete_absent del im s q c h = ground (arith, found del im q)

  -- For a key that the index does not have the order shows: a delete after the insert leaves its
  -- deletion mark, and the same delete arriving first is dropped, so that the insert stays although
  -- its stamp is the earlier one.
  pub update_index_delete_first :
      (ins del : KvSlice) (bytes : List ℕ) (im : IndexManager) (s : S)
      → Inv im
      → IsFilled ins
      → IsFilled del
      → ins.digest ≡ del.digest
      → ins.content ≡ some bytes
      → del.content ≡ none
      → find im ins.digest ≡ none
      → is_full im ≡ false
      → stamp_lt ins.entry.stamp del.entry.stamp ≡ true
      → (find (update_index ds del (update_index ds ins (im, s)).0).0.0 ins.digest ≡ some del.entry)
        × (find (update_index ds ins (update_index ds del (im, s)).0).0.0 ins.digest
            ≡ some ins.entry)
  unfolding settle
  update_index_delete_first ins del bytes im s v p q e c c' absent room before =
      let gone = delete_absent del im s q c' (sym (ap (find im) e) ∙ absent) in
      let same = (Digest.eq_iff del.digest ins.digest).1 (sym e) in
      let same' = (Digest.eq_iff ins.digest ins.digest).1 refl in
      (
        ground (
          arith,
          find_twice ins del im s ins.digest v p q e,
          same,
          ap (find im) e,
          stamp_lt_asym ins.entry.stamp del.entry.stamp before,
        ),
        ground (arith, find_twice del ins im s ins.digest v q p (sym e), same', ap is_full gone),
      )
