-- ===== src/Limiter/Stream/Ready.antt =====
-- The limiters of a connection have positive rates.
use gost_x.Prelude.{ℕ, ◌-◌, Bool-cases, inl, inr, ltb}
use gost_x.Text.{Text}
use gost_x.Net.{Libs}
use gost_x.Loader.{second}
use gost_x.Limiter.Traffic.Table.{TrafficLimiter}
use gost_x.Limiter.Traffic.Handed.{IsRated, IsRatedGroup, input-IsRated, output-IsRated}
use gost_x.Limiter.Stream.{ServerConn, wrap_conn, get_in_limiter, get_out_limiter}

-- The limiters that the connection keeps, and those of the traffic limiter.
pub record IsReady {S : Type 0} (w : ServerConn S × TrafficLimiter) : Type 0 where
  pub in_rates : IsRatedGroup w.0.limiter_in
  pub out_rates : IsRatedGroup w.0.limiter_out
  pub table : IsRated w.1

pub wrap_conn-IsReady :
    {S : Type 0} (s : S) (l : TrafficLimiter) → IsRated l → IsReady (wrap_conn s, l)
wrap_conn-IsReady s l h = record {
  in_rates = λ rs e. absurd cc;
  out_rates = λ rs e. absurd cc;
  table = h;
}

pub get_in_limiter-IsReady :
    {S : Type 0} (libs : Libs) (now : ℕ) (addr : Text) (w : ServerConn S × TrafficLimiter)
    → IsReady w
    → IsRatedGroup (get_in_limiter libs now addr w).0 × IsReady (get_in_limiter libs now addr w).1
unfolding get_in_limiter
get_in_limiter-IsReady libs now addr w h =
    let is = input-IsRated libs addr w.1 h.table in
    elim (Bool-cases (ltb second (now - w.0.exp_in))) [
      | inl e ↦ rw e (is.0, record { in_rates = is.0; out_rates = h.out_rates; table = is.1 })
      | inr e ↦ rw e (h.in_rates, h)
    ]

pub get_out_limiter-IsReady :
    {S : Type 0} (libs : Libs) (now : ℕ) (addr : Text) (w : ServerConn S × TrafficLimiter)
    → IsReady w
    → IsRatedGroup (get_out_limiter libs now addr w).0 × IsReady (get_out_limiter libs now addr w).1
unfolding get_out_limiter
get_out_limiter-IsReady libs now addr w h =
    let is = output-IsRated libs addr w.1 h.table in
    elim (Bool-cases (ltb second (now - w.0.exp_out))) [
      | inl e ↦ rw e (is.0, record { in_rates = h.in_rates; out_rates = is.0; table = is.1 })
      | inr e ↦ rw e (h.out_rates, h)
    ]
