-- ===== src/Net/Parse.antt =====
-- net.ParseIP and net.ParseCIDR as the standard library of Go 1.20 has them.
use gost_x.Prelude.{
  ℕ, zero, suc, ◌+◌, ◌-◌, ◌*◌, ◌/◌, ◌%◌, ◌^◌, Bool, true, false, ◌&&◌, ◌||◌, Option, none, some,
  List, [], ◌∷◌, ◌++◌, length, drop, take, is_empty, ltb, leb, ◌==◌, if◌then◌else◌, not,
}
use gost_x.Text.{Text, index_byte}

-- A number read off the front: its value, how many digits it has, and whether it is one.
pub record Number : Type 0 where
  pub value : ℕ
  pub digits : ℕ
  pub valid : Bool

abbrev pub big : ℕ
big = 0xFFFFFF

abbrev pub dec_digit : ℕ → Option ℕ
dec_digit c = if leb b'0' c && leb c b'9' then some (c - b'0') else none

abbrev pub hex_digit : ℕ → Option ℕ
hex_digit c =
    if leb b'0' c && leb c b'9'
    then some (c - b'0')
    else if leb b'a' c && leb c b'f'
    then some (c - b'a' + 10)
    else if leb b'A' c && leb c b'F'
    then some (c - b'A' + 10)
    else none

-- The loop of `dtoi` and `xtoi`, for a base and its digits.
unfoldable pub scan : ℕ → (ℕ → Option ℕ) → ℕ → ℕ → Text → Number
scan base digit n i [] = record { value = n; digits = i; valid = not (i == 0) }
scan base digit n i (c ∷ s) = elim (digit c) [
  | none ↦ record { value = n; digits = i; valid = not (i == 0) }
  | some d ↦
      let n' = n * base + d in
      let rest = scan base digit n' (i + 1) s in
      if leb big n' then record { value = n'; digits = i; valid = false } else rest
]

abbrev pub dtoi : Text → Number
dtoi s = scan 10 dec_digit 0 0 s

abbrev pub xtoi : Text → Number
xtoi s = scan 16 hex_digit 0 0 s

abbrev starts_with : ℕ → Text → Bool
starts_with c [] = false
starts_with c (a ∷ s) = a == c

-- One number of an IPv4 address, with what follows it.
v4_part : Text → Option (ℕ × Text)
unfolding scan
v4_part s =
    let n = dtoi s in
    if not n.valid || ltb 0xFF n.value || (ltb 1 n.digits && starts_with b'0' s)
    then none
    else some (n.value, drop n.digits s)

-- `k` numbers still to come, `first` if none was read.
v4_parts : ℕ → Bool → Text → Option (List ℕ)
unfolding v4_part
v4_parts zero first s = if is_empty s then some [] else none
v4_parts (suc k) first s =
    let s' = if first then s else drop 1 s in
    if is_empty s || not first && not (starts_with b'.' s) then none else elim (v4_part s') [
      | none ↦ none
      | some (n, rest) ↦ elim (v4_parts k false rest) [ none ↦ none | some ns ↦ some (n ∷ ns) ]
    ]

unfoldable pub parse_ipv4 : Text → Option (List ℕ)
unfolding v4_parts scan
parse_ipv4 s = elim (v4_parts 4 true s) [
  | none ↦ none
  | some ns ↦ some (0 ∷ 0 ∷ 0 ∷ 0 ∷ 0 ∷ 0 ∷ 0 ∷ 0 ∷ 0 ∷ 0 ∷ 0xff ∷ 0xff ∷ ns)
]

zeros : ℕ → List ℕ
zeros zero = []
zeros (suc n) = 0 ∷ zeros n

-- What `parseIPv6` does behind its loop: the bytes read, the ellipsis and what is left of the text.
v6_close : List ℕ → Option ℕ → Text → Option (List ℕ)
unfolding zeros
v6_close ip none [] = if ltb (length ip) 16 then none else some ip
v6_close ip (some e) [] =
    if ltb (length ip) 16 then some (take e ip ++ zeros (16 - length ip) ++ drop e ip) else none
v6_close ip ellipsis (c ∷ s) = none

abbrev is_set : Option ℕ → Bool
is_set none = false
is_set (some e) = true

-- A dotted tail.
v6_tail : List ℕ → Option ℕ → Text → Option (List ℕ)
unfolding v6_close
v6_tail ip ellipsis s =
    if not (is_set ellipsis) && not (length ip == 12) || ltb 16 (length ip + 4)
    then none
    else elim (parse_ipv4 s) [ none ↦ none | some v4 ↦ v6_close (ip ++ drop 12 v4) ellipsis [] ]

-- The loop, with one round of fuel for each group.
v6_groups : ℕ → List ℕ → Option ℕ → Text → Option (List ℕ)
unfolding v6_tail v6_close scan
v6_groups zero ip ellipsis s = v6_close ip ellipsis s
v6_groups (suc k) ip ellipsis s =
    let n = xtoi s in
    let ip' = ip ++ (n.value / 256) ∷ (n.value % 256) ∷ [] in
    let rest = drop n.digits s in
    let tail = v6_tail ip ellipsis s in
    let rest' = drop 1 rest in
    let next = v6_groups k ip' ellipsis rest' in
    let close = v6_close ip' (some (length ip')) [] in
    let jump = v6_groups k ip' (some (length ip')) (drop 1 rest') in
    if not n.valid || ltb 0xFFFF n.value
    then none
    else if starts_with b'.' rest
    then tail
    else if is_empty rest
    then v6_close ip' ellipsis []
    else if not (starts_with b':' rest) || length rest == 1
    then none
    else if not (starts_with b':' rest')
    then next
    else if is_set ellipsis
    then none
    else if is_empty (drop 1 rest')
    then close
    else jump

unfoldable pub parse_ipv6 : Text → Option (List ℕ)
unfolding v6_groups zeros
parse_ipv6 s =
    if starts_with b':' s && starts_with b':' (drop 1 s)
    then if is_empty (drop 2 s) then some (zeros 16) else v6_groups 8 [] (some 0) (drop 2 s)
    else v6_groups 8 [] none s

-- What kind of address it is, the first dot or colon says.
pick : Text → Text → Option (List ℕ)
pick s [] = none
pick s (c ∷ r) =
    let rest = pick s r in
    if c == b'.' then parse_ipv4 s else if c == b':' then parse_ipv6 s else rest

unfoldable pub parse_ip : Text → Option (List ℕ)
unfolding pick parse_ipv4 parse_ipv6
parse_ip s = pick s s

-- The bytes of a mask of n ones, and an address under it.
unfoldable pub cidr_mask : ℕ → ℕ → List ℕ
cidr_mask zero n = []
cidr_mask (suc k) n =
    if leb 8 n then 0xff ∷ cidr_mask k (n - 8) else (256 - 2 ^ (8 - n)) ∷ cidr_mask k 0

unfoldable pub masked : List ℕ → ℕ → List ℕ
masked [] n = []
masked (b ∷ bs) n = if leb 8 n then b ∷ masked bs (n - 8) else (b - b % 2 ^ (8 - n)) ∷ masked bs 0

cidr : ℕ → List ℕ → Text → Option (List ℕ × List ℕ)
unfolding cidr_mask masked
cidr len ip mask =
    let n = dtoi mask in
    if not n.valid || not (n.digits == length mask) || ltb (8 * len) n.value
    then none
    else some (masked ip n.value, cidr_mask len n.value)

-- The address of the network and its mask.
unfoldable pub parse_cidr_parts : Text → Option (List ℕ × List ℕ)
unfolding cidr parse_ipv4 parse_ipv6 index_byte
parse_cidr_parts s = elim (index_byte b'/' s) [
  | none ↦ none
  | some i ↦ elim (parse_ipv4 (take i s)) [
    | some v4 ↦ cidr 4 (drop 12 v4) (drop (i + 1) s)
    | none ↦ elim (parse_ipv6 (take i s)) [ some v6 ↦ cidr 16 v6 (drop (i + 1) s) | none ↦ none ]
  ]
]
