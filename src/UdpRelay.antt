-- ===== src/UdpRelay.antt =====
-- internal/net/udp/relay.go: packets go back and forth between two packet connections, in two
-- goroutines, except those from addresses in a bypass.
pub mod Interleaved
pub mod Returned
mod Tests
use gost_x.Prelude.{ℕ, Bool, true, false, Option, none, some, List, [], ◌∷◌, ◌++◌, if◌then◌else◌}
use gost_x.Text.{Text}
use gost_x.Conns.{Arrival, packet, fails}

abbrev pub Packet : Type 0
Packet = List ℕ × Text

-- One direction: what is still to be read from its connection, what was written to the other one, and
-- whether its loop has ended.
pub record Flow (E : Type 0) : Type 0 where
  pub pending : List (Arrival E)
  pub sent : List Packet
  pub ended : Bool

-- Both directions, and the channel errc with the errors in it.
pub record State (E : Type 0) : Type 0 where
  pub first : Flow E
  pub second : Flow E
  pub errc : List E

-- r.bypass != nil && r.bypass.Contains(raddr), for the method Contains of a bypass.
unfoldable pub bypassed : Option (Text → Bool) → Text → Bool
bypassed none addr = false
bypassed (some contains) addr = contains addr

-- What a round of a loop comes to: a packet is sent, or dropped, or the loop ends with an error.
pub data Round (E : Type 0) : Type 0 where
  sends : Packet → Round E
  skips : Round E
  ends : E → Round E

unfoldable pub error_of : {E : Type 0} → Round E → List E
error_of (sends p) = []
error_of skips = []
error_of (ends e) = e ∷ []

unfoldable pub after_round : {E : Type 0} → List (Arrival E) → Flow E → Round E → Flow E
after_round rest f (sends p) = record { pending = rest; sent = f.sent ++ p ∷ []; ended = false }
after_round rest f skips = record { pending = rest; sent = f.sent; ended = false }
after_round rest f (ends e) = record { pending = rest; sent = f.sent; ended = true }

module _ {E : Type 0} (bypass : Option (Text → Bool)) where
  -- A round, for what ReadFrom returns and the error of WriteTo, if it is called.
  unfoldable pub relay_one : Arrival E → Option E → Round E
  relay_one (fails e) failure = ends e
  relay_one (packet now bs addr) none = if bypassed bypass addr then skips else sends (bs, addr)
  relay_one (packet now bs addr) (some e) = if bypassed bypass addr then skips else ends e

  -- The next round of the loop, if it has not ended and there is something to read.
  unfoldable pub step_flow : Option E → Flow E → Flow E × List E
  step_flow failure f = if f.ended then (f, []) else elim f.pending [
    | [] ↦ (f, [])
    | a ∷ rest ↦ (after_round rest f (relay_one a failure), error_of (relay_one a failure))
  ]

  -- A step of the first goroutine, or of the second one.
  unfoldable pub step : Bool → Option E → State E → State E
  step true failure s =
      let (f, errs) = step_flow failure s.first in
      record { first = f; second = s.second; errc = s.errc ++ errs }
  step false failure s =
      let (f, errs) = step_flow failure s.second in
      record { first = s.first; second = f; errc = s.errc ++ errs }

  -- The steps in the order in which they happen to be taken.
  unfoldable pub run : List (Bool × Option E) → State E → State E
  run [] s = s
  run ((first, failure) ∷ schedule) s = run schedule (step first failure s)

-- The state in which Run starts its goroutines, for what will arrive at the two connections.
unfoldable pub start : {E : Type 0} → List (Arrival E) → List (Arrival E) → State E
start as' bs = record {
  first = record { pending = as'; sent = []; ended = false };
  second = record { pending = bs; sent = []; ended = false };
  errc = [];
}

-- return <-errc; `none` as long as it waits.
unfoldable pub result : {E : Type 0} → State E → Option E
result s = elim s.errc [ [] ↦ none | e ∷ es ↦ some e ]
