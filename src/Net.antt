-- ===== src/Net.antt =====
-- Addresses: what the repository takes from packages net, gobwas/glob and cidranger. The two
-- third-party libraries are the record `Libs`, so that what is proved holds of every implementation
-- of them; the functions of package net are written out, in the files below and here.
mod Addr
mod Parse
mod Format
pub mod HostPort
pub mod Canonical
mod Tests
pub use Addr.{IpNet}
unfoldable pub use Addr.{Ip, to4, ip_equal}
unfoldable pub use Parse.{parse_ip, parse_ipv4, parse_ipv6}
unfoldable pub use Format.{ip_string, format_code}
use Parse.{parse_cidr_parts}
use gost_x.Prelude.{
  ℕ, suc, ◌+◌, ◌-◌, Bool, true, false, ◌&&◌, ◌||◌, Option, none, some, List, [], ◌∷◌, length, drop,
  take, is_empty, is_some, ◌==◌, if◌then◌else◌, not,
}
use gost_x.Text.{Text, eq_text, index_byte, last_index_byte}

-- net.ParseCIDR, `none` for an error.
unfoldable pub parse_cidr : Text → Option IpNet
unfolding parse_cidr_parts
parse_cidr s = elim (parse_cidr_parts s) [
  | none ↦ none
  | some (ip, mask) ↦ some (record { ip = ip; mask = mask })
]

pub record Libs : Type 0 where
  -- cidranger: Contains after the networks were inserted in this order
  pub ranger_contains : List IpNet → Ip → Bool
  -- cidranger: the places of the networks that ContainingNetworks returns
  pub containing_networks : List IpNet → Ip → List ℕ
  -- glob.MustCompile and (Glob).Match; `none` is the panic on a malformed pattern
  pub glob_compile : Text → Option (Text → Bool)

-- The part of net.SplitHostPort behind the host: `j` and `k` say where brackets are looked for.
abbrev port_part : Text → ℕ → ℕ → ℕ → Text → Option (Text × Text)
port_part s i j k host =
    if is_some (index_byte b'[' (drop j s)) || is_some (index_byte b']' (drop k s))
    then none
    else some (host, drop (i + 1) s)

unfoldable pub split_bracketed : Text → ℕ → ℕ → Option (Text × Text)
split_bracketed s i end =
    if end + 1 == length s
    then none
    else if end + 1 == i
    then port_part s i 1 (end + 1) (take (end - 1) (drop 1 s))
    else none

unfoldable pub split_at_colon : Text → ℕ → Option (Text × Text)
split_at_colon [] i = none
split_at_colon (c ∷ s) i =
    if c == b'['
    then elim (index_byte b']' (c ∷ s)) [ none ↦ none | some end ↦ split_bracketed (c ∷ s) i end ]
    else if is_some (index_byte b':' (take i (c ∷ s)))
    then none
    else port_part (c ∷ s) i 0 0 (take i (c ∷ s))

-- net.SplitHostPort, `none` for an error, which comes with two empty strings.
unfoldable pub split_host_port : Text → Option (Text × Text)
split_host_port s = elim (last_index_byte b':' s) [ none ↦ none | some i ↦ split_at_colon s i ]

-- if host, _, _ := net.SplitHostPort(addr); host != "" { addr = host }
unfoldable pub strip_port : Text → Text
strip_port addr = elim (split_host_port addr) [
  | none ↦ addr
  | some (host, port) ↦ if is_empty host then addr else host
]
