-- ===== src/Net/Tests.antt =====
-- Runs of the functions of package net.
use gost_x.Prelude.{◌≡◌, refl, some, none, [], ◌∷◌, Option}
use mathlib.Core.Option
use gost_x.Text.{Text, codes}
use gost_x.Net.{
  parse_ip, ip_string, format_code, parse_cidr, split_host_port, split_at_colon, split_bracketed,
}
use gost_x.Text.{index_byte, last_index_byte}

abbrev shown : Text → Option Text
unfolding parse_ip format_code
shown s = Option.map ip_string (parse_ip s)

shown_v4 : shown (codes "192.168.0.1") ≡ some (codes "192.168.0.1")
unfolding parse_ip format_code shown
shown_v4 = refl

shown_v6 : shown (codes "2001:DB8:0:0:8:0800:200c:417a") ≡ some (codes "2001:db8::8:800:200c:417a")
unfolding parse_ip format_code shown
shown_v6 = refl

shown_short : shown (codes "0:0::1") ≡ some (codes "::1")
unfolding parse_ip format_code shown
shown_short = refl

shown_any : shown (codes "::") ≡ some (codes "::")
unfolding parse_ip format_code shown
shown_any = refl

shown_mapped : shown (codes "::ffff:1.2.3.4") ≡ some (codes "1.2.3.4")
unfolding parse_ip format_code shown
shown_mapped = refl

shown_tail : shown (codes "1:2:0:0:5:0:0:8") ≡ some (codes "1:2::5:0:0:8")
unfolding parse_ip format_code shown
shown_tail = refl

shown_end : shown (codes "fe80::") ≡ some (codes "fe80::")
unfolding parse_ip format_code shown
shown_end = refl

not_ip :
    (parse_ip (codes "1.2.3") ≡ none)
    × (parse_ip (codes "1.2.3.256") ≡ none)
    × (parse_ip (codes "a.b") ≡ none)
    × (parse_ip (codes "1.2.3.04") ≡ none)
    × (parse_ip (codes "1:2:3") ≡ none)
    × (parse_ip (codes "1::2::3") ≡ none)
unfolding parse_ip
not_ip = (refl, refl, refl, refl, refl, refl)

network :
    parse_cidr (codes "10.1.2.3/12")
    ≡ some (record { ip = 10 ∷ 0 ∷ 0 ∷ 0 ∷ []; mask = 255 ∷ 240 ∷ 0 ∷ 0 ∷ [] })
unfolding parse_cidr
network = refl

bracketed : split_host_port (codes "[::1]:80") ≡ some (codes "::1", codes "80")
unfolding split_host_port split_at_colon split_bracketed index_byte last_index_byte
bracketed = refl

too_many_colons : split_host_port (codes "::1:80") ≡ none
unfolding split_host_port split_at_colon split_bracketed index_byte last_index_byte
too_many_colons = refl
