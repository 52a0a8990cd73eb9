-- ===== src/Flow/Time.antt =====
-- src/tcpip.h: the comparisons of `struct timeval`.
use tcpflow.Base.{ℕ, ◌≡◌, ◌≢◌, Bool, false, ◌&&◌, ◌||◌, arith, ltb, ◌==◌}

pub record TimeVal : Type 0 where
  pub sec : ℕ
  pub usec : ℕ

-- `operator ==`.
unfoldable pub same_time : TimeVal → TimeVal → Bool
same_time a b = a.sec == b.sec && a.usec == b.usec

-- `operator <`, whose second test compares the seconds again.
unfoldable pub earlier : TimeVal → TimeVal → Bool
earlier a b = ltb a.sec b.sec || (a.sec == b.sec && ltb a.sec b.sec)

-- Two different time stamps of one second are neither equal nor ordered, either way.
pub same_second_unordered :
    (a b : TimeVal)
    → a.sec ≡ b.sec
    → a.usec ≢ b.usec
    → (same_time a b ≡ false) × (earlier a b ≡ false) × (earlier b a ≡ false)
unfolding same_time earlier
same_second_unordered a b s u = ground arith
