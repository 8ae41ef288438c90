-- ===== src/Segment/Layout.antt =====
-- fillEntryToSlice and copyToDataBuf of SegBase: the bytes of the segment's buffer (Segment.cc).
use hlkvds.Prelude.{
  take_all, ℕ, ◌+◌, ◌-◌, ◌^◌, ◌<◌, ◌≤◌, ◌≡◌, refl, ◌∙◌, Bool, true, List, [], ◌∷◌, arith,
  if◌then◌else◌, length, u32_mod, ap, sym, ◌⊎◌,
}
use hlkvds.HashEntry.{DataHeader, size_of_data_header}
use hlkvds.KvSlice.{KvSlice, key_len, data_len, aligned_size}
use hlkvds.Memory.{
  Buffer, blit, bytes_at, bytes_at-Agree, bytes_at-blit, blit_outside, word2, word4,
}
use hlkvds.SegmentManager.{size_of_seg_on_disk}
use hlkvds.Segment.{
  encode_header, decode_header, encode_seg_header, decode_seg_header, SegHeaderOnDisk, key_bytes,
  data_bytes, content_bytes,
}
use hlkvds.Segment.Packing.{grow, shrink}

-- A slice whose lengths are those of its bytes and whose fields fit their widths.
pub record IsWhole (s : KvSlice) : Type 0 where
  pub w0 : s.digest.v0 < u32_mod
  pub w1 : s.digest.v1 < u32_mod
  pub w2 : s.digest.v2 < u32_mod
  pub w3 : s.digest.v3 < u32_mod
  pub w4 : s.digest.v4 < u32_mod
  pub key_sized : length s.key ≡ key_len s
  pub data_sized : length (content_bytes s.content) ≡ data_len s
  pub data_word : data_len s < 2 ^ 16

-- A header whose fields fit their widths.
pub record IsNarrow (h : DataHeader) : Type 0 where
  pub w0 : h.key_digest.v0 < u32_mod
  pub w1 : h.key_digest.v1 < u32_mod
  pub w2 : h.key_digest.v2 < u32_mod
  pub w3 : h.key_digest.v3 < u32_mod
  pub w4 : h.key_digest.v4 < u32_mod
  pub key_word : h.key_size < 2 ^ 16
  pub data_word : h.data_size < 2 ^ 16
  pub offset_word : h.data_offset < u32_mod
  pub next_word : h.next_header_offset < u32_mod

-- A header is read back as it was written.
pub decode_header-encode_header :
    (h : DataHeader) → IsNarrow h → decode_header (encode_header h) ≡ h
unfolding decode_header encode_header
decode_header-encode_header h n =
    let b = encode_header h in
    let d = h.key_digest in
    let e0 : word4 b 0 ≡ d.v0 = omega arith in
    let e1 : word4 b 4 ≡ d.v1 = omega arith in
    let e2 : word4 b 8 ≡ d.v2 = omega arith in
    let e3 : word4 b 12 ≡ d.v3 = omega arith in
    let e4 : word4 b 16 ≡ d.v4 = omega arith in
    let k : word2 b 20 ≡ h.key_size = omega arith in
    let z : word2 b 22 ≡ h.data_size = omega arith in
    let o : word4 b 24 ≡ h.data_offset = omega arith in
    let n : word4 b 28 ≡ h.next_header_offset = omega arith in
    λ i. record {
      key_digest = record { v0 = e0 i; v1 = e1 i; v2 = e2 i; v3 = e3 i; v4 = e4 i };
      key_size = k i;
      data_size = z i;
      data_offset = o i;
      next_header_offset = n i;
    }

pub length-encode_header : (h : DataHeader) → length (encode_header h) ≡ size_of_data_header
unfolding encode_header
length-encode_header h = refl

pub length-encode_seg_header :
    (h : SegHeaderOnDisk) → length (encode_seg_header h) ≡ size_of_seg_on_disk
unfolding encode_seg_header
length-encode_seg_header h = refl

pub number_keys-encode :
    (h : SegHeaderOnDisk)
    → h.number_keys < u32_mod
    → (decode_seg_header (encode_seg_header h)).number_keys ≡ h.number_keys
unfolding decode_seg_header encode_seg_header
number_keys-encode h w = omega arith

bytes_at-blit_of :
    (buf : Buffer) (off place n : ℕ) (bytes bytes' : List ℕ)
    → off ≡ place
    → length bytes' ≡ n
    → bytes ≡ bytes'
    → bytes_at (blit buf place bytes) off n ≡ bytes'
bytes_at-blit_of buf off place n bytes bytes' e l q =
    (λ i. bytes_at (blit buf place (q i)) (e i) (sym l i)) ∙ bytes_at-blit buf place bytes'

-- The bytes of a filled slice stand where its entry says, and the next header behind them.
abbrev pub StoredAt : Buffer → ℕ → KvSlice → Type 0
StoredAt buf head s =
    let h = s.entry.on_disk.header in
    (bytes_at buf head size_of_data_header ≡ encode_header h)
    × (bytes_at buf (head + size_of_data_header) (key_len s) ≡ s.key)
    × (bytes_at buf h.data_offset (data_len s) ≡ content_bytes s.content)

abbrev pub Stored : Buffer → ℕ → List KvSlice → Type 0
Stored buf head [] = Unit {0}
Stored buf head (s ∷ l) =
    StoredAt buf head s × Stored buf s.entry.on_disk.header.next_header_offset l

-- The three copies for one slice.
abbrev pub with_slice : (KvSlice → Bool) → Buffer → ℕ → ℕ → KvSlice → Buffer
with_slice aligned buf begin end s =
    blit
      (blit (blit buf begin (encode_header s.entry.on_disk.header)) (begin + size_of_data_header)
        (key_bytes s))
      (if aligned s then end - data_len s else begin + size_of_data_header + key_len s)
      (data_bytes s)

-- The flag is only set for a value of 4096 bytes.
abbrev pub IsPlacement : (KvSlice → Bool) → Type 0
IsPlacement aligned = (s : KvSlice) → aligned s ≡ true → data_len s ≡ aligned_size

module _ (aligned : KvSlice → Bool) (placement : IsPlacement aligned) where
  pub with_slice-outside :
      (buf : Buffer) (begin end : ℕ) (s : KvSlice) (i : ℕ)
      → IsWhole s
      → begin + grow aligned s + shrink aligned s ≤ end
      → (i < begin) ⊎ (end ≤ i) ⊎ (begin + grow aligned s ≤ i) × (i < end - shrink aligned s)
      → with_slice aligned buf begin end s i ≡ buf i
  with_slice-outside buf begin end s i w f h =
      let klen = take_all (key_len s) s.key w.key_sized in
      let dlen = take_all (data_len s) (content_bytes s.content) w.data_sized in
      let hlen = length-encode_header s.entry.on_disk.header in
      let at = begin + size_of_data_header in
      let one = blit buf begin (encode_header s.entry.on_disk.header) in
      let two = blit one at (key_bytes s) in
      let place = if aligned s then end - data_len s else at + key_len s in
      ground (
        arith,
        ap length klen,
        ap length dlen,
        hlen,
        w.key_sized,
        w.data_sized,
        placement s,
        blit_outside two place (data_bytes s) i,
        blit_outside one at (key_bytes s) i,
        blit_outside buf begin (encode_header s.entry.on_disk.header) i,
      )

  pub with_slice-StoredAt :
      (buf : Buffer) (begin end : ℕ) (s : KvSlice)
      → IsWhole s
      → begin + grow aligned s + shrink aligned s ≤ end
      → s.entry.on_disk.header.data_offset
        ≡ (if aligned s then end - aligned_size else begin + size_of_data_header + key_len s)
      → StoredAt (with_slice aligned buf begin end s) begin s
  with_slice-StoredAt buf begin end s w f o =
      let kb = take_all (key_len s) s.key w.key_sized in
      let db = take_all (data_len s) (content_bytes s.content) w.data_sized in
      let head = encode_header s.entry.on_disk.header in
      let at = begin + size_of_data_header in
      let one = blit buf begin head in
      let two = blit one at (key_bytes s) in
      let place = if aligned s then end - data_len s else at + key_len s in
      let three = blit two place (data_bytes s) in
      let stands : s.entry.on_disk.header.data_offset ≡ place = ground (arith, o, placement s) in
      (
        bytes_at-Agree three one begin size_of_data_header (λ i p q. ground (
          arith,
          ap length kb,
          placement s,
          blit_outside two place (data_bytes s) i,
          blit_outside one at (key_bytes s) i,
        ))
            ∙ bytes_at-blit_of buf begin begin size_of_data_header head head refl
                (length-encode_header s.entry.on_disk.header) refl,
        bytes_at-Agree three two at (key_len s)
              (λ i p q. ground (arith, placement s, blit_outside two place (data_bytes s) i))
            ∙ bytes_at-blit_of one at at (key_len s) (key_bytes s) s.key refl w.key_sized kb,
        bytes_at-blit_of two s.entry.on_disk.header.data_offset place (data_len s) (data_bytes s)
            (content_bytes s.content) stands w.data_sized db,
      )
