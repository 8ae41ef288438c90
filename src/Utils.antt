-- ===== src/Utils.antt =====
-- KVTime of Utils.h and Utils.cc: a `timeval`, as its two numbers; times lie after the epoch.
use hlkvds.Prelude.{ℕ, ◌≡◌, ◌↔◌, Bool, true, false, arith, ltb, ◌==◌, ◌&&◌, if◌then◌else◌}

pub record KvTime : Type 0 where
  pub tv_sec : ℕ
  pub tv_usec : ℕ

-- operator>, operator<, operator==
unfoldable pub gt : KvTime → KvTime → Bool
gt s t =
    if ltb t.tv_sec s.tv_sec
    then true
    else if ltb s.tv_sec t.tv_sec
    then false
    else ltb t.tv_usec s.tv_usec

unfoldable pub lt : KvTime → KvTime → Bool
lt s t =
    if ltb s.tv_sec t.tv_sec
    then true
    else if ltb t.tv_sec s.tv_sec
    then false
    else ltb s.tv_usec t.tv_usec

unfoldable pub eq : KvTime → KvTime → Bool
eq s t = s.tv_sec == t.tv_sec && s.tv_usec == t.tv_usec

pub eq_iff : (s t : KvTime) → (eq s t ≡ true) ↔ (s ≡ t)
unfolding eq
eq_iff s t = ground arith

pub lt-gt : (s t : KvTime) → lt s t ≡ gt t s
unfolding lt gt
lt-gt s t = ground arith
