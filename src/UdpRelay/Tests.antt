-- ===== src/UdpRelay/Tests.antt =====
-- A relay with one bypassed address, in one of its interleavings.
use gost_x.Prelude.{◌≡◌, refl, Bool, true, false, Option, none, some, List, [], ◌∷◌}
use gost_x.Text.{Text, codes, eq_text}
use gost_x.Conns.{Arrival, packet, fails}
use gost_x.UdpRelay.{
  State, bypassed, error_of, after_round, relay_one, step_flow, step, run, start, result,
}
use gost_x.UdpRelay.Interleaved.{IsRelaying}
use gost_x.UdpRelay.Returned.{first_error, run-IsRelaying}

abbrev bypass : Option (Text → Bool)
bypass = some (eq_text (codes "10.0.0.1:53"))

abbrev inner : List (Arrival Text)
inner =
    packet 1 (codes "ab") (codes "10.0.0.2:53")
    ∷ packet 2 (codes "cd") (codes "10.0.0.1:53")
    ∷ fails (codes "closed")
    ∷ []

abbrev outer : List (Arrival Text)
outer =
    packet 1 (codes "ef") (codes "10.0.0.3:53") ∷ packet 4 (codes "gh") (codes "10.0.0.4:53") ∷ []

abbrev schedule : List (Bool × Option Text)
schedule =
    (true, none)
    ∷ (false, none)
    ∷ (true, none)
    ∷ (true, none)
    ∷ (false, some (codes "refused"))
    ∷ (true, none)
    ∷ []

relayed : State Text
unfolding bypassed error_of after_round relay_one step_flow step run start
relayed = run bypass schedule (start inner outer)

-- The first loop ends with the error of its connection, which is what Run returns, and the second one
-- with an error of WriteTo.
both_ended :
    (relayed.first.sent ≡ (codes "ab", codes "10.0.0.2:53") ∷ [])
    × (relayed.second.sent ≡ (codes "ef", codes "10.0.0.3:53") ∷ [])
    × (relayed.errc ≡ codes "closed" ∷ codes "refused" ∷ [])
    × (result relayed ≡ some (codes "closed"))
unfolding relayed result eq_text
both_ended = (refl, refl, refl, refl)

run-IsRelaying_example :
    IsRelaying bypass inner outer (run bypass schedule (start inner outer))
    × (result (run bypass schedule (start inner outer)) ≡ first_error bypass schedule inner outer)
run-IsRelaying_example = run-IsRelaying bypass inner outer schedule

-- Of the two errors the first one is returned.
closed_first : first_error bypass schedule inner outer ≡ some (codes "closed")
unfolding eq_text
closed_first = refl
