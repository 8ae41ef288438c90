-- ===== src/IndexManager/Threads/Steady.antt =====
-- Each section of a thread that inserts, overwrites, deletes or removes a key.
use hlkvds.Prelude.{
  ℕ, ◌<◌, ◌≡◌, ◌≢◌, refl, sym, subst, ap, ◌∙◌, Bool, true, false, some, List, [], ◌∷◌, arith, ◌==◌,
  ◌&&◌, set, get_elem?, get_or-set_ne, u32_add, u32_sub, Bool-cases, Option-cases, inl, inr,
}
use hlkvds.Utils
use hlkvds.HashEntry.{HashEntry, digest_of, data_size_of, stamp_lt, eq-IsEquiv}
use hlkvds.HashEntry
use hlkvds.KvSlice.{KvSlice}
use hlkvds.LinkedList.{LinkedList, empty}
use hlkvds.LinkedList
use hlkvds.LinkedList.Laws.{search-get_ref}
use hlkvds.IndexManager.{
  IndexManager, DataStor, World, hash_index, slot, insert_entry, remove_entry, theory_replaced,
}
use hlkvds.IndexManager.Calls.{updates, moves, removes}
use hlkvds.IndexManager.Threads.{
  Point, waits, admitted, matched, returned, is_held, is_blocked, begin_update, section, go_on,
  schedule,
}
use hlkvds.IndexManager.Threads.Counter.{
  IsCounted, AreSteady, unlocked, put-IsCounted, remove-IsCounted, kept,
}

abbrev pub is_admitted : Point → Bool
is_admitted (waits c) = false
is_admitted (admitted slice) = true
is_admitted (matched slice) = false
is_admitted (returned b) = false

-- The slice of an insert that has passed the test, and `slice` at other points.
abbrev slice_at : KvSlice → Point → KvSlice
slice_at slice (waits c) = slice
slice_at slice (admitted a) = a
slice_at slice (matched a) = slice
slice_at slice (returned b) = slice

module _ {S : Type 0} (ds : DataStor S) (im : IndexManager) (ps : List Point) (t : ℕ) (p : Point)
    (steady : AreSteady im ps) (here : get_elem? ps t ≡ some p) where
  index_inside : (slice : KvSlice) → hash_index im slice.digest < im.ht_size
  index_inside slice = omega (arith, steady.index.table.positive)

  unchanged : (b : Bool) → AreSteady im (set ps t (returned b))
  unchanged b =
      kept im im.hashtable im.key_counter im.data_theory_size ps t p (returned b) steady here
        steady.index tt (λ u a n h. refl) (λ a e. absurd (ground (arith, ap is_admitted e)))

  changed :
      (i k theory : ℕ) (l : LinkedList HashEntry)
      → let im' = record im {
        hashtable = set im.hashtable i l;
        key_counter = k;
        data_theory_size = theory;
      } in
        IsCounted im'
        → ((u : ℕ) (b : KvSlice)
            → t ≢ u
            → get_elem? ps u ≡ some (admitted b)
            → hash_index im b.digest ≢ i)
        → AreSteady im' (set ps t (returned true))
  changed i k theory l index others =
      kept im (set im.hashtable i l) k theory ps t p (returned true) steady here index tt
        (λ u a n h.
          get_or-set_ne im.hashtable i (hash_index im a.digest) l empty
            (λ e. others u a n h (sym e)))
        (λ a e. absurd (ground (arith, ap is_admitted e)))

  -- An insert that has passed the test.
  entered :
      (slice : KvSlice)
      → is_held im.ht_size (hash_index im slice.digest) ps ≡ false
      → LinkedList.search HashEntry.eq (slot im (hash_index im slice.digest)) slice.entry ≡ false
      → AreSteady im (set ps t (admitted slice))
  entered slice free absent =
      kept im im.hashtable im.key_counter im.data_theory_size ps t p (admitted slice) steady here
        steady.index tt (λ u a n h. refl)
        (λ a e.
          subst
            (λ (x : KvSlice).
              (LinkedList.search HashEntry.eq (slot im (hash_index im x.digest)) x.entry ≡ false)
              × ((u : ℕ) (b : KvSlice)
                  → t ≢ u
                  → get_elem? ps u ≡ some (admitted b)
                  → hash_index im b.digest ≢ hash_index im x.digest))
            (ap (slice_at slice) e)
            (absent, λ u b n h. unlocked im.ht_size (hash_index im slice.digest) ps u b free h))

  begin_update-AreSteady :
      (slice : KvSlice) (s : S)
      → is_held im.ht_size (hash_index im slice.digest) ps ≡ false
      → let r = begin_update ds slice (im, s) in AreSteady r.0.0 (set ps t r.1)
  unfolding begin_update
  begin_update-AreSteady slice s free =
      let l = slot im (hash_index im slice.digest) in
      let i = hash_index im slice.digest in
      elim (Option-cases (LinkedList.get_ref HashEntry.eq l slice.entry)) [
        | inl absent ↦
            let missing : LinkedList.search HashEntry.eq l slice.entry ≡ false =
              ground (arith, search-get_ref HashEntry.eq l slice.entry, absent) in
            elim (Option-cases slice.content) [
              | inl deleted ↦
                  let value : begin_update ds slice (im, s)
                      ≡ ((im, ds.modify_death_entry slice.entry s), returned true) =
                    ground (arith, absent, deleted) in
                  subst (λ (r : World S × Point). AreSteady r.0.0 (set ps t r.1)) (sym value)
                    (unchanged true)
              | inr (bytes, given) ↦ elim (Bool-cases (im.key_counter == im.ht_size)) [
                | inl full ↦
                    let value : begin_update ds slice (im, s) ≡ ((im, s), returned false) =
                      ground (arith, absent, given, full) in
                    subst (λ (r : World S × Point). AreSteady r.0.0 (set ps t r.1)) (sym value)
                      (unchanged false)
                | inr room ↦
                    let value : begin_update ds slice (im, s) ≡ ((im, s), admitted slice) =
                      ground (arith, absent, given, room) in
                    subst (λ (r : World S × Point). AreSteady r.0.0 (set ps t r.1)) (sym value)
                      (entered slice free missing)
              ]
            ]
        | inr (in_mem, present) ↦
            let there : LinkedList.search HashEntry.eq l slice.entry ≡ true =
              ground (arith, search-get_ref HashEntry.eq l slice.entry, present) in
            elim (Bool-cases (stamp_lt slice.entry.stamp in_mem.stamp)) [
              | inl old ↦
                  let value : begin_update ds slice (im, s)
                      ≡ ((im, ds.modify_death_entry slice.entry s), returned true) =
                    ground (arith, present, old) in
                  subst (λ (r : World S × Point). AreSteady r.0.0 (set ps t r.1)) (sym value)
                    (unchanged true)
              | inr new ↦
                  let theory =
                    theory_replaced im.data_theory_size (data_size_of slice.entry)
                      (data_size_of in_mem) in
                  let value : begin_update ds slice (im, s) ≡ (
                    (
                      record im {
                        hashtable =
                            set im.hashtable i (LinkedList.put HashEntry.eq l slice.entry).0;
                        data_theory_size = theory;
                      },
                      ds.modify_death_entry in_mem s,
                    ),
                    returned true,
                  ) =
                    ground (arith, present, new) in
                  subst (λ (r : World S × Point). AreSteady r.0.0 (set ps t r.1)) (sym value)
                    (changed i im.key_counter theory (LinkedList.put HashEntry.eq l slice.entry).0
                      (put-IsCounted im i im.key_counter theory slice.entry steady.index
                        (index_inside slice) (ground (arith, there)))
                      (λ u b n h. unlocked im.ht_size i ps u b free h))
            ]
      ]

  remove-AreSteady :
      (e : HashEntry) (s : S)
      → is_held im.ht_size (hash_index im (digest_of e)) ps ≡ false
      → AreSteady (remove_entry ds e (im, s)).0 (set ps t (returned true))
  unfolding remove_entry
  remove-AreSteady e s free =
      let i = hash_index im (digest_of e) in
      let l = slot im i in
      elim (Option-cases (LinkedList.get_ref HashEntry.eq l e)) [
        | inl absent ↦
            let value : remove_entry ds e (im, s) ≡ (im, s) = ground (arith, absent) in
            subst (λ (w : World S). AreSteady w.0 (set ps t (returned true))) (sym value)
              (unchanged true)
        | inr (in_mem, present) ↦
            let there : LinkedList.search HashEntry.eq l e ≡ true =
              ground (arith, search-get_ref HashEntry.eq l e, present) in
            elim (Bool-cases
              (Utils.eq in_mem.stamp.seg_time e.stamp.seg_time && data_size_of in_mem == 0)) [
                | inl dead ↦
                    let value : remove_entry ds e (im, s) ≡ (
                      record im {
                        hashtable = set im.hashtable i (LinkedList.remove HashEntry.eq l e).0;
                        key_counter = u32_sub im.key_counter 1;
                      },
                      ds.modify_death_entry e s,
                    ) =
                      ground (arith, present, dead) in
                    subst (λ (w : World S). AreSteady w.0 (set ps t (returned true))) (sym value)
                      (changed i (u32_sub im.key_counter 1) im.data_theory_size
                        (LinkedList.remove HashEntry.eq l e).0
                        (remove-IsCounted im i e steady.index
                          (omega (arith, steady.index.table.positive)) there)
                        (λ u b n h. unlocked im.ht_size i ps u b free h))
                | inr alive ↦
                    let value : remove_entry ds e (im, s) ≡ (im, s) =
                      ground (arith, present, alive) in
                    subst (λ (w : World S). AreSteady w.0 (set ps t (returned true))) (sym value)
                      (unchanged true)
              ]
      ]

  insert-AreSteady :
      (slice : KvSlice)
      → p ≡ admitted slice
      → AreSteady (insert_entry slice im) (set ps t (returned true))
  unfolding insert_entry
  insert-AreSteady slice e =
      let i = hash_index im slice.digest in
      let at = here ∙ ap (λ (q : Point). some q) e in
      let absent = steady.absent t slice at in
      changed i (u32_add im.key_counter 1) (insert_entry slice im).data_theory_size
        (LinkedList.put HashEntry.eq (slot im i) slice.entry).0
        (put-IsCounted im i (u32_add im.key_counter 1) (insert_entry slice im).data_theory_size
          slice.entry steady.index (index_inside slice) (ground (arith, absent)))
        (λ u b n h g. n (sym (steady.apart u t b slice h at g)))

module _ {S : Type 0} (ds : DataStor S) where
  section-AreSteady :
      (im : IndexManager) (s : S) (ps : List Point) (t : ℕ) (p : Point)
      → AreSteady im ps
      → get_elem? ps t ≡ some p
      → is_blocked im.ht_size p ps ≡ false
      → let r = section ds p (im, s) in AreSteady r.0.0 (set ps t r.1)
  unfolding section is_blocked
  section-AreSteady im s ps t (waits (updates slice)) v here free =
      begin_update-AreSteady ds im ps t (waits (updates slice)) v here slice s free
  section-AreSteady im s ps t (waits (moves slice)) v here free =
      absurd (ground (arith, v.plain t (waits (moves slice)) here))
  section-AreSteady im s ps t (waits (removes e)) v here free =
      remove-AreSteady ds im ps t (waits (removes e)) v here e s free
  section-AreSteady im s ps t (admitted slice) v here free =
      insert-AreSteady ds im ps t (admitted slice) v here slice refl
  section-AreSteady im s ps t (matched slice) v here free =
      absurd (ground (arith, v.plain t (matched slice) here))
  section-AreSteady im s ps t (returned b) v here free = unchanged ds im ps t (returned b) v here b

  go_on-AreSteady :
      (t : ℕ) (w : World S) (ps : List Point)
      → AreSteady w.0 ps
      → let st = go_on ds t (w, ps) in AreSteady st.0.0 st.1
  unfolding go_on
  go_on-AreSteady t w ps v = elim (Option-cases (get_elem? ps t)) [
    | inl nobody ↦ rw (nobody, go_on) v
    | inr (p, here) ↦ elim (Bool-cases (is_blocked w.0.ht_size p ps)) [
      | inl locked ↦ rw (here, locked, go_on) v
      | inr free ↦ rw (here, free, go_on) (section-AreSteady w.0 w.1 ps t p v here free)
    ]
  ]

  pub schedule-AreSteady :
      (ts : List ℕ) (w : World S) (ps : List Point)
      → AreSteady w.0 ps
      → let st = schedule ds ts (w, ps) in AreSteady st.0.0 st.1
  unfolding schedule
  schedule-AreSteady [] w ps v = v
  schedule-AreSteady (t ∷ ts) w ps v =
      let st = go_on ds t (w, ps) in schedule-AreSteady ts st.0 st.1 (go_on-AreSteady t w ps v)
