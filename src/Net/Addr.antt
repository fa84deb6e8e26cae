-- ===== src/Net/Addr.antt =====
-- Addresses of package net as bytes, and the tests on them.
use gost_x.Prelude.{
  ℕ, Bool, false, ◌&&◌, Option, none, some, List, [], ◌∷◌, length, drop, take, ◌==◌, if◌then◌else◌,
}
use gost_x.Text.{eq_text}

-- net.IP: 4 or 16 bytes.
abbrev pub Ip : Type 0
Ip = List ℕ

-- net.IPNet
pub record IpNet : Type 0 where
  pub ip : Ip
  pub mask : List ℕ

-- The 12 bytes in front of an IPv4 address in 16 bytes.
abbrev pub v4_prefix : List ℕ
v4_prefix = 0 ∷ 0 ∷ 0 ∷ 0 ∷ 0 ∷ 0 ∷ 0 ∷ 0 ∷ 0 ∷ 0 ∷ 0xff ∷ 0xff ∷ []

-- (net.IP).To4
unfoldable pub to4 : Ip → Option Ip
unfolding eq_text
to4 ip =
    if length ip == 4
    then some ip
    else if length ip == 16 && eq_text (take 12 ip) v4_prefix
    then some (drop 12 ip)
    else none

-- (net.IP).Equal
unfoldable pub ip_equal : Ip → Ip → Bool
unfolding eq_text
ip_equal a b =
    if length a == length b
    then eq_text a b
    else if length a == 4 && length b == 16
    then eq_text (take 12 b) v4_prefix && eq_text a (drop 12 b)
    else if length a == 16 && length b == 4
    then eq_text (take 12 a) v4_prefix && eq_text (drop 12 a) b
    else false
