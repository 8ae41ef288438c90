-- ===== src/Memory.antt =====
-- A byte buffer under `memcpy` and `memset`, and the fixed-width fields of packed structs on a
-- little-endian machine.
use hlkvds.Prelude.{
  ℕ, zero, suc, ◌+◌, ◌-◌, ◌*◌, ◌/◌, ◌%◌, ◌<◌, ◌≤◌, ◌≡◌, refl, List, [], ◌∷◌, ◌++◌, arith, ltb, leb,
  ◌&&◌, if◌then◌else◌, length, get_or, ap, ◌⊎◌,
}

-- The byte at each offset.
abbrev pub Buffer : Type 0
Buffer = ℕ → ℕ

-- memcpy(&buf[off], bytes, length)
unfoldable pub blit : Buffer → ℕ → List ℕ → Buffer
blit buf off bytes i =
    if leb off i && ltb i (off + length bytes) then get_or bytes (i - off) 0 else buf i

-- memset(&buf[off], 0, end - off)
unfoldable pub zero_fill : Buffer → ℕ → ℕ → Buffer
zero_fill buf off end i = if leb off i && ltb i end then 0 else buf i

-- memcpy(dst, &buf[off], n)
unfoldable pub bytes_at : Buffer → ℕ → ℕ → List ℕ
bytes_at buf off zero = []
bytes_at buf off (suc n) = buf off ∷ bytes_at buf (off + 1) n

-- Two buffers agree on a range.
abbrev pub Agree : Buffer → Buffer → ℕ → ℕ → Type 0
Agree b c lo hi = (i : ℕ) → lo ≤ i → i < hi → b i ≡ c i

pub bytes_at-Agree :
    (b c : Buffer) (off n : ℕ) → Agree b c off (off + n) → bytes_at b off n ≡ bytes_at c off n
unfolding bytes_at
bytes_at-Agree b c off zero h = refl
bytes_at-Agree b c off (suc n) h = ground (
  arith,
  h off (omega arith) (omega arith),
  bytes_at-Agree b c (off + 1) n (λ i p q. h i (omega arith) (omega arith)),
)

pub bytes_at_of :
    (b : Buffer) (off : ℕ) (bytes : List ℕ)
    → ((i j : ℕ) → i < length bytes → j ≡ off + i → b j ≡ get_or bytes i 0)
    → bytes_at b off (length bytes) ≡ bytes
unfolding bytes_at
bytes_at_of b off [] h = refl
bytes_at_of b off (x ∷ bytes) h = ground (
  arith,
  h 0 off (omega arith) (omega arith),
  bytes_at_of b (off + 1) bytes (λ i j p q. h (suc i) j (omega arith) (omega arith)),
)

-- What is copied in is there.
pub bytes_at-blit :
    (buf : Buffer) (off : ℕ) (bytes : List ℕ)
    → bytes_at (blit buf off bytes) off (length bytes) ≡ bytes
unfolding blit
bytes_at-blit buf off bytes = bytes_at_of (blit buf off bytes) off bytes (λ i j p q.
    let e : j - off ≡ i = omega arith in ground (arith, ap (λ (k : ℕ). get_or bytes k 0) e))

-- A copy or a fill changes nothing outside its range.
pub blit_outside :
    (buf : Buffer) (off : ℕ) (bytes : List ℕ) (i : ℕ)
    → (i < off) ⊎ (off + length bytes ≤ i)
    → blit buf off bytes i ≡ buf i
unfolding blit
blit_outside buf off bytes i h = ground arith

pub zero_fill_outside :
    (buf : Buffer) (off end i : ℕ) → (i < off) ⊎ (end ≤ i) → zero_fill buf off end i ≡ buf i
unfolding zero_fill
zero_fill_outside buf off end i h = ground arith

-- uint16_t, uint32_t and uint64_t fields
abbrev pub le2 : ℕ → List ℕ
le2 x = x % 256 ∷ x / 256 % 256 ∷ []

abbrev pub le4 : ℕ → List ℕ
le4 x = x % 256 ∷ x / 256 % 256 ∷ x / 65536 % 256 ∷ x / 16777216 % 256 ∷ []

abbrev pub le8 : ℕ → List ℕ
le8 x = le4 (x % 4294967296) ++ le4 (x / 4294967296)

abbrev pub word2 : List ℕ → ℕ → ℕ
word2 bytes i = get_or bytes i 0 + 256 * get_or bytes (suc i) 0

abbrev pub word4 : List ℕ → ℕ → ℕ
word4 bytes i =
    get_or bytes i 0
    + 256 * get_or bytes (suc i) 0
    + 65536 * get_or bytes (suc (suc i)) 0
    + 16777216 * get_or bytes (suc (suc (suc i))) 0

abbrev pub word8 : List ℕ → ℕ → ℕ
word8 bytes i = word4 bytes i + 4294967296 * word4 bytes (suc (suc (suc (suc i))))
