-- ===== src/Admission/Packets/Tests.antt =====
-- Packets from three addresses, of which one is admitted.
use gost_x.Prelude.{◌≡◌, refl, Bool, Option, some, List, [], ◌∷◌}
use gost_x.Text.{Text, codes, eq_text}
use gost_x.Conns.{Arrival, packet, fails}
use gost_x.Admission.Packets.{refuses, read_from}
use gost_x.Admission.Packets.Admitted.{IsFirst, read_from-IsFirst}

abbrev admission : Option (Text → Bool)
admission = some (eq_text (codes "10.0.0.1:53"))

abbrev arrivals : List (Arrival Text)
arrivals =
    packet 1 (codes "ab") (codes "10.0.0.2:53")
    ∷ packet 2 (codes "cd") (codes "10.0.0.1:53")
    ∷ packet 3 (codes "ef") (codes "10.0.0.3:53")
    ∷ fails (codes "closed")
    ∷ []

second_read :
    read_from admission arrivals
    ≡ some (
      packet 2 (codes "cd") (codes "10.0.0.1:53"),
      packet 3 (codes "ef") (codes "10.0.0.3:53") ∷ fails (codes "closed") ∷ [],
    )
unfolding read_from refuses eq_text
second_read = refl

read_from-IsFirst_example : IsFirst admission arrivals (read_from admission arrivals)
read_from-IsFirst_example = read_from-IsFirst admission arrivals
