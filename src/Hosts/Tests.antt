-- ===== src/Hosts/Tests.antt =====
-- Host tables on concrete mappings.
use gost_x.Prelude.{◌≡◌, refl, false, none, some, [], ◌∷◌, arith}
use gost_x.Text.{codes}
use gost_x.Code.{net_code, table_code}
use gost_x.Loader.{Loader, no_loaders}
use gost_x.Net.{Ip}
use gost_x.Hosts.{
  Options, HostMapper, parse_line, parse_lines, load_one, load_http, load, ips_of, add_ip,
  add_mapping, add_mappings, reload, lookup_host, only_v4, only_v6, of_network, find_ips,
  lookup_ips,
}
use gost_x.Hosts.Table.{reload-ips_of, Distinct, parse_line-unwords}
use gost_x.Hosts.Lookup.{lookup_ips-first}

abbrev v4 : Ip
v4 = 10 ∷ 0 ∷ 0 ∷ 1 ∷ []

abbrev v6 : Ip
v6 = 0xfe ∷ 0x80 ∷ 0 ∷ 0 ∷ 0 ∷ 0 ∷ 0 ∷ 0 ∷ 0 ∷ 0 ∷ 0 ∷ 0 ∷ 0 ∷ 0 ∷ 0 ∷ 1 ∷ []

-- A file with a line for the first host once more, in its 16 bytes.
abbrev file : Loader
file = record {
  lists = some (λ t. codes "10.0.0.1 .lan nas # twice" ∷ []);
  maps = none;
  loads = λ t. none;
}

abbrev options : Options
options = record {
  mappings =
      record { hostname = codes ".lan"; ip = v4 }
      ∷ record { hostname = codes ".lan"; ip = v6 }
      ∷ [];
  loaders = record no_loaders { file = some file };
  period = 0;
}

abbrev table : HostMapper
table = reload options false 0

answers :
    (lookup_ips table (codes "ip") (codes "a.lan") ≡ (v4 ∷ v6 ∷ [], false))
    × (lookup_ips table (codes "ip6") (codes "lan") ≡ (v6 ∷ [], false))
    × (lookup_ips table (codes "ip4") (codes "nas") ≡ (v4 ∷ [], false))
unfolding table_code parse_line parse_lines load_one load_http load ips_of add_ip add_mapping
    add_mappings reload lookup_host only_v4 only_v6 of_network find_ips lookup_ips
answers = (refl, refl, refl)

reload-ips_of_example :
    (ips_of (codes ".lan") table.mappings ≡ v4 ∷ v6 ∷ [])
    × Distinct (ips_of (codes ".lan") table.mappings)
unfolding table_code parse_line parse_lines load_one load_http load add_ip
reload-ips_of_example = reload-ips_of options false 0 (codes ".lan")

parse_line-unwords_example :
    parse_line (codes "10.0.0.1 a b")
    ≡ record { hostname = codes "a"; ip = 0 ∷ 0 ∷ 0 ∷ 0 ∷ 0 ∷ 0 ∷ 0 ∷ 0 ∷ 0 ∷ 0 ∷ 255 ∷ 255 ∷ v4 }
      ∷ record { hostname = codes "b"; ip = 0 ∷ 0 ∷ 0 ∷ 0 ∷ 0 ∷ 0 ∷ 0 ∷ 0 ∷ 0 ∷ 0 ∷ 255 ∷ 255 ∷ v4 }
      ∷ []
unfolding net_code
parse_line-unwords_example =
    parse_line-unwords (codes "10.0.0.1") (codes "a") (codes "b" ∷ [])
      (0 ∷ 0 ∷ 0 ∷ 0 ∷ 0 ∷ 0 ∷ 0 ∷ 0 ∷ 0 ∷ 0 ∷ 255 ∷ 255 ∷ v4)
      (record { filled = λ e. cc; dense = ground arith; plain = omega arith })
      (record { filled = λ e. cc; dense = ground arith; plain = omega arith })
      (record { filled = λ e. cc; dense = ground arith; plain = omega arith }, tt) refl

lookup_ips-first_example : lookup_ips table (codes "ip6") (codes "a.b.lan") ≡ (v6 ∷ [], false)
unfolding table_code parse_line parse_lines load_one load_http load ips_of add_ip add_mapping
    add_mappings reload lookup_host only_v4 only_v6 of_network
lookup_ips-first_example =
    lookup_ips-first table (codes "ip6") (codes "a") (codes "b" ∷ codes "lan" ∷ [])
      (λ e. cc, omega arith) ((λ e. cc, omega arith), ((λ e. cc, omega arith), tt))
