-- ===== src/Net/Format.antt =====
-- (net.IP).String as the standard library of Go 1.20 has it.
use gost_x.Prelude.{
  Option, none, some, ℕ, zero, suc, ◌+◌, ◌-◌, ◌*◌, ◌/◌, ◌%◌, Bool, true, false, ◌&&◌, List, [], ◌∷◌,
  ◌++◌, length, ltb, ◌==◌, if◌then◌else◌, not,
}
use gost_x.Text.{Text, codes}
use gost_x.Net.Addr.{Ip, to4}

abbrev pub digit : ℕ → ℕ
digit d = if ltb d 10 then b'0' + d else b'a' + (d - 10)

-- A number below base ^ fuel, without leading zeros.
unfoldable pub render : ℕ → ℕ → ℕ → Text
render zero base n = []
render (suc k) base n =
    let front = render k base (n / base) in
    if ltb n base then digit n ∷ [] else front ++ digit (n % base) ∷ []

unfoldable pub dotted_bytes : Bool → List ℕ → Text
dotted_bytes first [] = []
dotted_bytes first (b ∷ bs) =
    let rest = render 3 10 b ++ dotted_bytes false bs in if first then rest else b'.' ∷ rest

unfoldable pub hex_string : List ℕ → Text
hex_string [] = []
hex_string (b ∷ bs) = digit (b / 16) ∷ digit (b % 16) ∷ hex_string bs

-- The 16-bit groups.
unfoldable pub groups : List ℕ → List ℕ
groups (a ∷ b ∷ r) = (a * 256 + b) ∷ groups r
groups r = []

-- How many groups at the front are zero.
zero_run : List ℕ → ℕ
zero_run [] = 0
zero_run (g ∷ gs) = let rest = zero_run gs in if g == 0 then suc rest else 0

-- The longest run of zeros, the first of them, as place and length, beaten only by a longer one.
unfoldable pub longest_run : ℕ → ℕ × ℕ → List ℕ → ℕ × ℕ
unfolding zero_run
longest_run i best [] = best
longest_run i best (g ∷ gs) =
    let run = zero_run (g ∷ gs) in
    longest_run (i + 1) (if ltb best.1 run then (i, run) else best) gs

-- The groups from place i on; `skip` of them fall under the ellipsis.
unfoldable pub groups_text : ℕ → ℕ → ℕ × ℕ → List ℕ → Text
groups_text i skip run [] = []
groups_text i (suc skip) run (g ∷ gs) = groups_text (i + 1) skip run gs
groups_text i zero run (g ∷ gs) =
    let open_run = b':' ∷ b':' ∷ groups_text (i + 1) (run.1 - 1) run gs in
    let plain = render 4 16 g ++ groups_text (i + 1) 0 run gs in
    if ltb 1 run.1 && i == run.0
    then open_run
    else if ltb 0 i && not (ltb 1 run.1 && i == run.0 + run.1)
    then b':' ∷ plain
    else plain

unfoldable pub address_text : Option (List ℕ) → Ip → Text
address_text (some v4) ip = dotted_bytes true v4
address_text none ip =
    if length ip == 16
    then (let gs = groups ip in groups_text 0 0 (longest_run 0 (0, 0) gs) gs)
    else b'?' ∷ hex_string ip

unfoldable pub ip_string : Ip → Text
ip_string [] = codes "<nil>"
ip_string (b ∷ bs) = address_text (to4 (b ∷ bs)) (b ∷ bs)

-- Who unfolds this name unfolds the code of the file.
unfoldable pub format_code : Unit {0}
unfolding render dotted_bytes hex_string groups longest_run groups_text address_text ip_string to4
format_code = tt
