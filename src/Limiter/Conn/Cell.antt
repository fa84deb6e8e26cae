-- ===== src/Limiter/Conn/Cell.antt =====
-- One counter, without overflow: it is within its limit, and limits and requests are below 2 ^ 62.
use gost_x.Prelude.{ℕ, ◌+◌, ◌-◌, ◌^◌, ◌<◌, ◌≤◌, ◌≡◌, Bool, true, false, leb, if◌then◌else◌, arith}
use gost_x.Int64.{add64, neg64, gt64}
use gost_x.Limiter.Conn.{Limiter, allow}

abbrev pub half : ℕ
half = 2 ^ 62

pub record IsWithin (l : Limiter) : Type 0 where
  pub small : l.limit < half
  pub bounded : l.current ≤ l.limit

abbrev pub plus : Limiter → ℕ → Limiter
plus l n = record l { current = l.current + n }

abbrev pub fits : Limiter → ℕ → Bool
fits l n = leb (l.current + n) l.limit

pub allow_grant :
    (l : Limiter) (n : ℕ)
    → IsWithin l
    → 0 < n
    → n < half
    → allow l n ≡ (if fits l n then (plus l n, true) else (l, false))
unfolding allow add64 neg64 gt64
allow_grant l n h p q = ground arith

-- A release of no more than was granted is always allowed.
pub allow_release :
    (l : Limiter) (n : ℕ)
    → IsWithin l
    → n ≤ l.current
    → allow l (neg64 n) ≡ (record l { current = l.current - n }, true)
unfolding allow add64 neg64 gt64
allow_release l n h p = ground arith
