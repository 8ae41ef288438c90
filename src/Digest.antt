-- ===== src/Digest.antt =====
-- Kvdb_Digest of KeyDigestHandle.h and its hash. `CalcDigest`, the RIPEMD-160 of rmd160.c, is a
-- parameter of what computes with it.
use hlkvds.Prelude.{ℕ, ◌+◌, ◌*◌, ◌/◌, ◌%◌, ◌<◌, ◌≡◌, ◌↔◌, Bool, true, arith, ◌==◌, ◌&&◌, u32_mod}

-- `uint32_t value[5]`
pub record Digest : Type 0 where
  pub v0 : ℕ
  pub v1 : ℕ
  pub v2 : ℕ
  pub v3 : ℕ
  pub v4 : ℕ

-- Kvdb_Digest()
abbrev pub zero_digest : Digest
zero_digest = record { v0 = 0; v1 = 0; v2 = 0; v3 = 0; v4 = 0 }

-- operator==, a `memcmp` of the whole value
unfoldable pub eq : Digest → Digest → Bool
eq d e = d.v0 == e.v0 && (d.v1 == e.v1 && (d.v2 == e.v2 && (d.v3 == e.v3 && d.v4 == e.v4)))

pub eq_iff : (d e : Digest) → (eq d e ≡ true) ↔ (d ≡ e)
unfolding eq
eq_iff d e = ground arith

-- KeyDigestHandle::Hash puts the four bytes of the last word together again.
unfoldable pub hash : Digest → ℕ
hash d =
    (d.v4 % 256
      + d.v4 / 256 % 256 * 256
      + d.v4 / 65536 % 256 * 65536
      + d.v4 / 16777216 % 256 * 16777216)
    % u32_mod

-- On a little-endian machine that is the word itself.
pub hash_lem : (d : Digest) → d.v4 < u32_mod → hash d ≡ d.v4
unfolding hash
hash_lem d h = omega arith
