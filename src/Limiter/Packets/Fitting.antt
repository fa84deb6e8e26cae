-- ===== src/Limiter/Packets/Fitting.antt =====
-- limiter/traffic/wrapper/conn.go: which packets pass.
use gost_x.Prelude.{
  ℕ, ◌≡◌, refl, Bool, true, not, Option, none, some, Bool-cases, inl, inr, List, [], ◌∷◌, length,
  if◌then◌else◌,
}
use gost_x.Text.{Text}
use gost_x.Net.{Libs}
use gost_x.Limiter.Traffic.Table.{TrafficLimiter, input, output}
use gost_x.Conns.{Arrival, packet, fails}
use gost_x.Limiter.Packets.{PacketConn, get_in_limiter, exceeds, read_from, calls, drops, write_to}
use gost_x.Limiter.Packets.Cached.{IsServing, get_in_limiter-IsFound, get_out_limiter-IsFound}

-- Does a packet pass, and the first that does.
pub passes : {E : Type 0} → Libs → TrafficLimiter → Arrival E → Bool
passes libs l0 (packet now bs addr) = not (exceeds (input libs addr l0).0 (length bs))
passes libs l0 (fails e) = true

pub first_passing :
    {E : Type 0} → Libs → TrafficLimiter → List (Arrival E) → Option (Arrival E × List (Arrival E))
first_passing libs l0 [] = none
first_passing libs l0 (a ∷ es) =
    let rest = first_passing libs l0 es in if passes libs l0 a then some (a, es) else rest

reads :
    {E : Type 0} (libs : Libs) (l0 : TrafficLimiter) (es : List (Arrival E)) (c : PacketConn)
    → IsServing libs l0 c
    → ((read_from libs es c).0 ≡ first_passing libs l0 es)
      × IsServing libs l0 (read_from libs es c).1
unfolding read_from first_passing passes
reads libs l0 [] c s = (refl, s)
reads libs l0 (fails e ∷ es) c s = (refl, s)
reads libs l0 (packet now bs addr ∷ es) c s =
    let found = get_in_limiter-IsFound libs l0 now addr c s in
    let later = reads libs l0 es (get_in_limiter libs now addr c).1 found.serves in
    elim (Bool-cases (exceeds (input libs addr l0).0 (length bs))) [
      | inl e ↦ rw (found.is_answer, e) later
      | inr e ↦ rw (found.is_answer, e) (refl, found.serves)
    ]

-- ReadFrom returns the first packet or error that passes, where a packet passes unless it exceeds what
-- Wait of the group of its address lets through, and drops the packets in front of it; what arrives
-- later is untouched. The group is the one that In of the traffic limiter gives, whether or not it
-- comes from the cache. WriteTo either calls the wrapped connection or, for a packet that exceeds what
-- the group of Out lets through, sends nothing and returns its length. Both leave a state of which
-- this holds again, as long as the traffic limiter is not reloaded.
pub read_from-first :
    {E : Type 0} (libs : Libs) (l0 : TrafficLimiter) (es : List (Arrival E)) (now : ℕ) (bs : List ℕ)
    (addr : Text) (c : PacketConn)
    → IsServing libs l0 c
    → ((read_from libs es c).0 ≡ first_passing libs l0 es)
      × IsServing libs l0 (read_from libs es c).1
      × ((write_to {E = E} libs now bs addr c).0 ≡ (
          if exceeds (output libs addr l0).0 (length bs) then drops (length bs) else calls bs addr))
      × IsServing libs l0 (write_to {E = E} libs now bs addr c).1
unfolding write_to
read_from-first libs l0 es now bs addr c s =
    let out = get_out_limiter-IsFound libs l0 now addr c s in
    let read = reads libs l0 es c s in (read.0, read.1, rw out.is_answer refl, out.serves)
