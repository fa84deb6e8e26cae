-- ===== src/Hosts.antt =====
-- hosts/hosts.go: the host table.
pub mod Table
pub mod Lookup
mod Tests
use gost_x.Prelude.{
  ℕ, Bool, true, false, not, Option, none, some, List, [], ◌∷◌, ◌++◌, map, any, is_empty, ltb,
  if◌then◌else◌,
}
use gost_x.Text.{Text, codes, eq_text, line_fields}
use gost_x.Text.Labels.{parent}
use gost_x.Assoc.{Assoc, lookup, insert}
use gost_x.Net.{Ip, parse_ip, to4, ip_equal}
use gost_x.Loader.{Loader, Loaders, no_loaders, Event, closed_loaders, reload_period}

pub record Mapping : Type 0 where
  pub hostname : Text
  pub ip : Ip

pub record Options : Type 0 where
  pub mappings : List Mapping
  pub loaders : Loaders
  pub period : ℕ

-- The values of type Option, each by the function that makes it.
pub data Setting : Type 0 where
  mappings_option : List Mapping → Setting
  reload_period_option : ℕ → Setting
  file_loader_option redis_loader_option http_loader_option : Option Loader → Setting

unfoldable pub apply : Setting → Options → Options
apply (mappings_option ms) o = record o { mappings = ms }
apply (reload_period_option p) o = record o { period = p }
apply (file_loader_option l) o = record o { loaders = record o.loaders { file = l } }
apply (redis_loader_option l) o = record o { loaders = record o.loaders { redis = l } }
apply (http_loader_option l) o = record o { loaders = record o.loaders { http = l } }

unfoldable pub apply_all : List Setting → Options → Options
apply_all [] o = o
apply_all (s ∷ ss) o = apply_all ss (apply s o)

abbrev pub zero_options : Options
zero_options = record { mappings = []; loaders = no_loaders; period = 0 }

pub record HostMapper : Type 0 where
  pub mappings : Assoc (List Ip)
  pub options : Options
  pub cancelled : Bool

-- A line "IP name names…"; one with fewer than two words, or with another first word, gives nothing.
unfoldable pub parse_line : Text → List Mapping
parse_line s = elim (line_fields s) [
  | [] ↦ []
  | a ∷ [] ↦ []
  | a ∷ (h ∷ hs) ↦ elim (parse_ip a) [
    | none ↦ []
    | some ip ↦ map (λ v. record { hostname = v; ip = ip }) (h ∷ hs)
  ]
]

unfoldable pub parse_lines : List Text → List Mapping
parse_lines [] = []
parse_lines (s ∷ ss) = parse_line s ++ parse_lines ss

-- The reader as its lines; `none` is nil.
unfoldable pub parse_mapping : Option (List Text) → List Mapping
parse_mapping none = []
parse_mapping (some lines) = parse_lines lines

-- The loaders of files and of redis.
unfoldable pub load_one : Option Loader → ℕ → List Mapping
load_one none t = []
load_one (some l) t = elim l.lists [
  | some list ↦ parse_lines (list t)
  | none ↦ parse_mapping (l.loads t)
]

unfoldable pub load_http : Option Loader → ℕ → List Mapping
load_http none t = []
load_http (some l) t = parse_mapping (l.loads t)

unfoldable pub load : Loaders → ℕ → List Mapping
load l t = load_one l.file t ++ load_one l.redis t ++ load_http l.http t

-- mappings[hostname], nil if it is missing.
unfoldable pub ips_of : Text → Assoc (List Ip) → List Ip
ips_of h m = elim (lookup h m) [ none ↦ [] | some ips ↦ ips ]

unfoldable pub add_ip : Ip → List Ip → List Ip
add_ip ip ips = if any (λ i. ip_equal ip i) ips then ips else ips ++ ip ∷ []

-- The function `mapf` of `reload`.
unfoldable pub add_mapping : Mapping → Assoc (List Ip) → Assoc (List Ip)
add_mapping m table = insert m.hostname (add_ip m.ip (ips_of m.hostname table)) table

unfoldable pub add_mappings : List Mapping → Assoc (List Ip) → Assoc (List Ip)
add_mappings [] table = table
add_mappings (m ∷ ms) table = add_mappings ms (add_mapping m table)

-- `load` returns no error, so `reload` returns none.
unfoldable pub reload : Options → Bool → ℕ → HostMapper
reload o cancelled t = record {
  mappings = add_mappings (load o.loaders t) (add_mappings o.mappings []);
  options = o;
  cancelled = cancelled;
}

-- NewHostMapper at time t, and the period of the goroutine that it starts, if it starts one.
unfoldable pub new_host_mapper : List Setting → ℕ → HostMapper × Option ℕ
new_host_mapper ss t =
    let o = apply_all ss zero_options in
    (reload o false t, if ltb 0 o.period then some (reload_period o.period) else none)

-- The goroutine: it stops when the context is done.
unfoldable pub period_reload : List Event → HostMapper → HostMapper
period_reload [] h = h
period_reload (Event.done ∷ es) h = h
period_reload (Event.tick t ∷ es) h = period_reload es (reload h.options h.cancelled t)

-- `lookup`: `none` is nil, the answer for a host that the table does not have.
unfoldable pub lookup_host : Assoc (List Ip) → Text → Option (List Ip)
lookup_host m host = if is_empty m then none else lookup host m

-- The IPv4 addresses, in 4 bytes, and those that are none.
unfoldable pub only_v4 : List Ip → List Ip
only_v4 [] = []
only_v4 (ip ∷ ips) = let rest = only_v4 ips in elim (to4 ip) [ none ↦ rest | some v4 ↦ v4 ∷ rest ]

unfoldable pub only_v6 : List Ip → List Ip
only_v6 [] = []
only_v6 (ip ∷ ips) = let rest = only_v6 ips in elim (to4 ip) [ none ↦ ip ∷ rest | some v4 ↦ rest ]

unfoldable pub of_network : Text → List Ip → List Ip
of_network network ips =
    if eq_text network (codes "ip4")
    then only_v4 ips
    else if eq_text network (codes "ip6")
    then only_v6 ips
    else ips

-- The three lookups of Lookup.
unfoldable pub find_ips : Assoc (List Ip) → Text → Option (List Ip)
find_ips m host = elim (lookup_host m host) [
  | some ips ↦ some ips
  | none ↦ elim (lookup_host m (b'.' ∷ host)) [
    | some ips ↦ some ips
    | none ↦ parent (lookup_host m) host
  ]
]

-- The addresses, and the result `ok`, which the code never sets.
unfoldable pub lookup_ips : HostMapper → Text → Text → List Ip × Bool
lookup_ips h network host = elim (find_ips h.mappings host) [
  | none ↦ ([], false)
  | some ips ↦ (of_network network ips, false)
]

-- Close, and the loaders that it closes.
unfoldable pub close : HostMapper → HostMapper × List Loader
close h = (record h { cancelled = true }, closed_loaders h.options.loaders)
