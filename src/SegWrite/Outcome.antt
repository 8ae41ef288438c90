-- ===== src/SegWrite/Outcome.antt =====
-- SegWrite with its requests: each is woken, and what is reported as written can be read.
use hlkvds.Prelude.{
  ℕ, zero, suc, ◌+◌, ◌^◌, ◌<◌, ◌≡◌, refl, sym, ◌∙◌, ap, Bool, true, false, Option, none, some, List,
  [], ◌∷◌, map, arith, u64_mod, get_elem?, subst,
}
use mathlib.Core.Option.{some-injective, none-ne-some}
use hlkvds.Utils.{KvTime}
use hlkvds.HashEntry.{HashEntry, LogicStamp}
use hlkvds.KvSlice.{KvSlice, data_len}
use hlkvds.Memory.{Buffer}
use hlkvds.IndexManager.{DataStor}
use hlkvds.Volume.{Volume, calc_seg_offset_from_id}
use hlkvds.Volume.Offsets.{IsLaidOut}
use hlkvds.Segment.{seg_offset, get_free_size, prepare}
use hlkvds.Segment.Packing.{IsPacked}
use hlkvds.Segment.Written.{AllWhole, SameData}
use hlkvds.Segment.Prepare.{prepare-IsWritten}
use hlkvds.SegForReq.{Request, SegForReq, get_write_stat, set_seg_id, share, prepare_seg, notify}
use hlkvds.SegForReq.Stamps.{told, told_all}
use hlkvds.Kvds.{ok}
use hlkvds.VolumeIo.{Devices, Access, State, write, read_data}
use hlkvds.VolumeIo.Device.{IsDisk}
use hlkvds.VolumeIo.ReadBack.{take_in_use_disk}
use hlkvds.VolumeIo.Batch.{numbered-IsPacked, read_data-IsWritten}
use hlkvds.SegWrite.{Written, settled, write_filled, write_seg}

-- The segment holds the slices of its requests.
abbrev pub IsOfRequests : SegForReq → Type 0
IsOfRequests seg = seg.base.slice_list ≡ map (λ (r : Request). r.slice) seg.req_list

shared_nth :
    (rs : List Request) (l : List KvSlice) (n : ℕ) (r : Request)
    → SameData (map (λ (r : Request). r.slice) rs) l
    → get_elem? rs n ≡ some r
    → (s : KvSlice) × (get_elem? l n ≡ some s)
      × (get_elem? (share rs l) n ≡ some (record r { slice = s }))
      × (s.content ≡ r.slice.content)
      × (data_len s ≡ data_len r.slice)
unfolding share
shared_nth [] l n r d h = absurd (none-ne-some r h)
shared_nth (x ∷ rs) [] n r d h = absurd d
shared_nth (x ∷ rs) (s ∷ l) zero r (k, kl, c, dl, dg, d) h =
    let e = some-injective x r h in
    (
      s,
      refl,
      (λ i. some (record (e i) { slice = s })),
      sym c ∙ ap (λ (q : Request). q.slice.content) e,
      sym dl ∙ ap (λ (q : Request). data_len q.slice) e,
    )
shared_nth (x ∷ rs) (s ∷ l) (suc n) r (k, kl, c, dl, dg, d) h = shared_nth rs l n r d h

told_good :
    (now : KvTime) (b : Bool) (k : ℕ) (r : Request)
    → get_write_stat (told now b k r) ≡ true
    → b ≡ true
told_good now true k r h = refl
told_good now false k r h = h

-- ReadData does not look at the stamp.
read_data_restamped :
    {D : Type 0} (dev : Devices D) (v : Volume) (e : HashEntry) (t : LogicStamp) (d : D)
    → read_data dev v (record e { stamp = t }) d ≡ read_data dev v e d
unfolding read_data
read_data_restamped dev v e t d = refl

module _ {S D : Type 0} (dev : Devices D) (ds : DataStor S) (access : Access S) (clock : ℕ → KvTime)
    (now : ℕ) (buf : Buffer) (notify_now : KvTime) where
  -- The disk and the woken requests, whatever the result.
  settled_lem :
      (seg_id free_size : ℕ) (seg : SegForReq) (st : State S D) (res : Bool)
      → let w = settled dev ds access clock now buf notify_now seg_id free_size seg (st, res) in
        (w.woken ≡ (notify notify_now res seg).1) × (res ≡ true → w.state.disk ≡ st.disk)
  unfolding settled
  settled_lem seg_id free_size seg st true =
      (refl, λ e. take_in_use_disk ds access dev clock now buf seg_id free_size st)
  settled_lem seg_id free_size seg st false = (refl, λ e. absurd (ground arith))

  write_seg_prepared :
      (seg_id : ℕ) (seg : SegForReq) (st : State S D) (p : SegForReq × Buffer)
      → prepare_seg clock buf now (set_seg_id seg seg_id) ≡ some p
      → let w =
          write dev seg.base.vol p.1 seg.base.seg_size (seg_offset seg.base.vol seg_id) st.disk in
        write_seg dev ds access clock now buf notify_now seg_id seg st
        ≡ settled dev ds access clock now buf notify_now seg_id
            (get_free_size seg.base)
            p.0
            (record st { disk = w.0 }, w.1)
  unfolding write_seg write_filled
  write_seg_prepared seg_id seg st p h =
      ap
        (λ (o : Option (SegForReq × Buffer)).
          write_filled dev ds access clock now buf notify_now seg_id (get_free_size seg.base)
            (set_seg_id seg seg_id) o st)
        h

  prepare_seg_of :
      (seg : SegForReq) (p : List KvSlice × Buffer)
      → prepare clock buf now seg.base ≡ some p
      → let b = seg.base in
        prepare_seg clock buf now seg
        ≡ some (
          record seg { base = record b { slice_list = p.0 }; req_list = share seg.req_list p.0 },
          p.1,
        )
  unfolding prepare_seg
  prepare_seg_of seg p h =
      let b = seg.base in
      let fill : List KvSlice × Buffer → SegForReq × Buffer = λ r. (
        record seg { base = record b { slice_list = r.0 }; req_list = share seg.req_list r.0 },
        r.1,
      ) in
      ap (λ (o : Option (List KvSlice × Buffer)). elim o [ none ↦ none | some r ↦ some (fill r) ]) h

  -- SegWrite, from the segment's number on, of a packed segment that holds the slices of its requests
  -- wakes the request at each place whose value is not empty, and, if that is told that its write
  -- succeeded, ReadData with its entry on the new disk is OK with its value. The device gives back what
  -- was written to it, the number is one of the volume's, whose segments have 2 ^ seg_size_bit bytes
  -- and end below 2 ^ 64, and the slices have the bytes that their lengths say.
  pub write_seg_outcome :
      (seg_id o n : ℕ) (seg : SegForReq) (st : State S D) (r : Request) (bytes : List ℕ)
      → IsDisk dev
      → IsLaidOut seg.base.vol
      → seg.base.seg_size ≡ 2 ^ seg.base.vol.seg_size_bit
      → calc_seg_offset_from_id seg.base.vol seg_id ≡ some o
      → o + seg.base.seg_size + seg.base.vol.start_off < u64_mod
      → IsPacked seg.base
      → IsOfRequests seg
      → AllWhole seg.base.slice_list
      → get_elem? seg.req_list n ≡ some r
      → r.slice.content ≡ some bytes
      → 0 < data_len r.slice
      → let w = write_seg dev ds access clock now buf notify_now seg_id seg st in
        (r' : Request) × (get_elem? w.woken n ≡ some r')
        × (r'.id ≡ r.id)
        × (r'.done ≡ true)
        × (get_write_stat r' ≡ true
            → read_data dev seg.base.vol r'.slice.entry w.state.disk ≡ (ok, bytes))
  unfolding notify
  write_seg_outcome seg_id o n seg st r bytes law l pow at wide packed own whole nth c pos =
      let b = seg.base in
      let numbered = set_seg_id seg seg_id in
      let (p, prepared, written) =
        prepare-IsWritten clock buf now numbered.base seg_id (numbered-IsPacked b seg_id packed)
          whole refl in
      let (s, at_n, shared, content, sized) =
        shared_nth seg.req_list p.0 n r
          (subst (λ (x : List KvSlice). SameData x p.0) own written.same) nth in
      let filled : SegForReq = record numbered {
        base = record b { seg_id = some seg_id; slice_list = p.0 };
        req_list = share seg.req_list p.0;
      } in
      let d = write dev b.vol p.1 b.seg_size (seg_offset b.vol seg_id) st.disk in
      let q = write_seg_prepared seg_id seg st (filled, p.1) (prepare_seg_of numbered p prepared) in
      let (woken, disk) =
        settled_lem seg_id (get_free_size b) filled (record st { disk = d.0 }) d.1 in
      let woken_nth =
        told_all notify_now d.1 0 (share seg.req_list p.0) n (record r { slice = s }) shared in
      (
        told notify_now d.1 (0 + n) (record r { slice = s }),
        ap (λ (x : Written S D). get_elem? x.woken n) q
            ∙ ap (λ (x : List Request). get_elem? x n) woken
            ∙ woken_nth,
        refl,
        refl,
        λ good.
            let res = told_good notify_now d.1 (0 + n) (record r { slice = s }) good in
            read_data_restamped dev b.vol s.entry
              (record { seg_time = notify_now; key_no = suc (0 + n) })
              (write_seg dev ds access clock now buf notify_now seg_id seg st).state.disk
            ∙ read_data-IsWritten dev numbered.base seg_id o n p.0 p.1 st.disk
                (write_seg dev ds access clock now buf notify_now seg_id seg st).state.disk s bytes
                law l pow at wide written res (ap (λ (x : Written S D). x.state.disk) q ∙ disk res)
                at_n (omega (arith, pos, sized)) (content ∙ c),
      )
