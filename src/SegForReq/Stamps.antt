-- ===== src/SegForReq/Stamps.antt =====
-- Notify, and the commits of the requests that it wakes (Segment.cc; updateMeta of the data stores).
use hlkvds.Prelude.{
  ℕ, zero, suc, length, ◌+◌, ◌-◌, ◌<◌, ◌≤◌, ◌≡◌, refl, ap, sym, ◌∙◌, ◌↔◌, Bool, true, List, [], ◌∷◌,
  arith, u32_mod, u32_sub, get_elem?, some,
}
use hlkvds.Utils.{KvTime}
use hlkvds.SegForReq.{
  Request, SegForReq, stamped, stamp_all, signal_all, notify, set_write_stat, signal,
  commited_and_get_num, get_write_stat,
}

-- What the writer of the request `n` places behind number `key_no` is told.
abbrev pub told : KvTime → Bool → ℕ → Request → Request
told now b key_no r = signal (set_write_stat (stamped now (suc key_no) r) b)

pub told_all :
    (now : KvTime) (b : Bool) (key_no : ℕ) (l : List Request) (n : ℕ) (r : Request)
    → get_elem? l n ≡ some r
    → get_elem? (signal_all b (stamp_all now key_no l)) n ≡ some (told now b (key_no + n) r)
unfolding stamp_all signal_all
told_all now b key_no [] n r h = absurd (ground arith)
told_all now b key_no (x ∷ l) zero r h =
    let e : key_no + 0 ≡ key_no = omega arith in
    let p : x ≡ r = ground arith in
    (λ i. some (told now b key_no (p i))) ∙ ap (λ (k : ℕ). some (told now b k r)) (sym e)
told_all now b key_no (x ∷ l) (suc n) r h =
    let e : key_no + suc n ≡ suc key_no + n = omega arith in
    told_all now b (suc key_no) l n r h ∙ ap (λ (k : ℕ). some (told now b k r)) (sym e)

length-told :
    (now : KvTime) (b : Bool) (key_no : ℕ) (l : List Request)
    → length (signal_all b (stamp_all now key_no l)) ≡ length l
unfolding stamp_all signal_all
length-told now b key_no [] = refl
length-told now b key_no (x ∷ l) = ap suc (length-told now b (suc key_no) l)

-- Notify wakes every request of the segment, each in its place, with the result of the write and with
-- the time of the call and its place, counted from 1, as its stamp; it adds no request and drops none.
pub notify-stamps :
    (now : KvTime) (b : Bool) (seg : SegForReq) (n : ℕ) (r : Request)
    → get_elem? seg.req_list n ≡ some r
    → (length (notify now b seg).1 ≡ length seg.req_list)
      × ((r' : Request) × (get_elem? (notify now b seg).1 n ≡ some r')
          × (r'.id ≡ r.id)
          × (r'.done ≡ true)
          × (get_write_stat r' ≡ b)
          × (r'.slice.entry.stamp ≡ record { seg_time = now; key_no = suc n }))
unfolding notify
notify-stamps now b seg n r h =
    let e : 0 + n ≡ n = omega arith in
    let there = told_all now b 0 seg.req_list n r h ∙ ap (λ (k : ℕ). some (told now b k r)) e in
    (length-told now b 0 seg.req_list, (told now b n r, there, refl, refl, ground arith, refl))

-- The segment after `j` of its requests have committed.
unfoldable pub commits : ℕ → SegForReq → SegForReq
unfolding commited_and_get_num
commits zero seg = seg
commits (suc j) seg = commits j (commited_and_get_num seg).0

commits_number :
    (j : ℕ) (seg : SegForReq)
    → j ≤ seg.req_commited
    → seg.req_commited < u32_mod
    → (commits j seg).req_commited ≡ seg.req_commited - j
unfolding commits commited_and_get_num
commits_number zero seg h w = omega arith
commits_number (suc j) seg h w =
    let e : u32_sub seg.req_commited 1 ≡ seg.req_commited - 1 = omega arith in
    commits_number j (record seg { req_commited = u32_sub seg.req_commited 1 }) (omega arith)
      (omega arith)
    ∙ omega arith

-- After Notify, the number that a request's commit gives is 0, so that the segment goes to the reaper,
-- for the last of the segment's requests and for no other.
pub commit_last :
    (now : KvTime) (b : Bool) (seg : SegForReq) (j : ℕ)
    → j < seg.base.key_num
    → seg.base.key_num < u32_mod
    → ((commited_and_get_num (commits j (notify now b seg).0)).1 ≡ 0) ↔ (suc j ≡ seg.base.key_num)
unfolding notify commited_and_get_num
commit_last now b seg j h w =
    let e = commits_number j (notify now b seg).0 (omega arith) w in
    (λ p. omega arith, λ p. omega arith)
