-- ===== src/Limiter/Traffic/Table.antt =====
-- limiter/traffic/traffic.go, the whole limiter: the levels of the service, of a connection, and of
-- an address with its networks. A limiter stands for its rate; that the limiters which were handed
-- out follow a later Set is left out.
use gost_x.Prelude.{
  ℕ, Bool, true, false, not, Option, none, some, List, [], ◌∷◌, ◌++◌, map, ltb, is_empty, get_elem?,
  if◌then◌else◌,
}
use mathlib.Core.Option
use gost_x.Text.{Text}
use gost_x.Assoc.{Assoc, lookup, insert, delete, has_key}
use gost_x.Net.{Libs, IpNet, parse_ip, parse_cidr, split_host_port}
use gost_x.Int64.{gt64}
use gost_x.Loader.{Loader, Event, reload_period, closed_loaders}
use gost_x.Limiter.Traffic.{Rates, ConnLevel, made, reload_conns, conn_in, conn_out}
use gost_x.Limiter.Traffic.Values.{
  Options, Setting, apply_all, zero_options, no_rates, load, global_limit_key, conn_limit_key,
}

pub record TrafficLimiter : Type 0 where
  pub conns : ConnLevel
  pub cidrs : List (IpNet × Rates)
  pub ins : Assoc ℕ
  pub outs : Assoc ℕ
  pub options : Options
  pub cancelled : Bool

-- values[key], the zero value for a missing key.
unfoldable pub value_at : Text → Assoc Rates → Rates
value_at key values = elim (lookup key values) [ none ↦ no_rates | some v ↦ v ]

-- One cache and the value for one of its keys: the limiter is deleted, set, or made.
unfoldable pub set_level : Text → ℕ → Assoc ℕ → Assoc ℕ
set_level key n m =
    if has_key key m
    then if not (gt64 n 0) then delete key m else insert key n m
    else if gt64 n 0
    then insert key n m
    else m

-- A cache with what is left of its snapshot.
pub record Side : Type 0 where
  pub limits : Assoc ℕ
  pub left : Assoc ℕ

unfoldable pub put_side : Text → ℕ → Side → Side
put_side key n s = record {
  limits = set_level key n s.limits;
  left = if has_key key s.limits then delete key s.left else s.left;
}

-- What the third block of reload works on.
pub record Levels : Type 0 where
  pub cidrs : List (IpNet × Rates)
  pub ins : Side
  pub outs : Side

unfoldable pub put_value : Text → Rates → Levels → Levels
put_value key v w = elim (parse_cidr key) [
  | some net ↦ record w { cidrs = w.cidrs ++ (net, v) ∷ [] }
  | none ↦ record w { ins = put_side key v.inward w.ins; outs = put_side key v.outward w.outs }
]

unfoldable pub put_values : Assoc Rates → Levels → Levels
put_values [] w = w
put_values ((key, v) ∷ values) w = put_values values (put_value key v w)

-- The entry p[0] for net.ParseIP(host), if there is one.
unfoldable pub network_of : Libs → List (IpNet × Rates) → Text → Option Rates
network_of libs cs host = elim (parse_ip host) [
  | none ↦ none
  | some ip ↦ elim (libs.containing_networks (map (λ e. e.0) cs) ip) [
    | [] ↦ none
    | i ∷ is ↦ Option.map (λ e. e.1) (get_elem? cs i)
  ]
]

-- The loop over what is left of a snapshot; `rate` is the field of the generator.
unfoldable pub clean_one : Libs → List (IpNet × Rates) → (Rates → ℕ) → Text → Assoc ℕ → Assoc ℕ
clean_one libs cs rate k m = elim (network_of libs cs k) [
  | none ↦ delete k m
  | some g ↦ if not (gt64 (rate g) 0) then delete k m else insert k (rate g) m
]

unfoldable pub clean : Libs → List (IpNet × Rates) → (Rates → ℕ) → Assoc ℕ → Assoc ℕ → Assoc ℕ
clean libs cs rate [] m = m
clean libs cs rate ((k, r) ∷ left) m = clean libs cs rate left (clean_one libs cs rate k m)

-- The snapshot of a cache, without the limiter of the service.
unfoldable pub snapshot : Assoc ℕ → Side
snapshot m = record { limits = m; left = delete global_limit_key m }

-- The third block, for the values that are left.
unfoldable pub reload_levels : Libs → Assoc Rates → TrafficLimiter → TrafficLimiter
reload_levels libs values l =
    let w =
      put_values values (record { cidrs = []; ins = snapshot l.ins; outs = snapshot l.outs }) in
    record l {
      cidrs = w.cidrs;
      ins = clean libs w.cidrs (λ g. g.inward) w.ins.left w.ins.limits;
      outs = clean libs w.cidrs (λ g. g.outward) w.outs.left w.outs.limits;
    }

-- The first and the second block.
unfoldable pub reload_shared : Assoc Rates → TrafficLimiter → TrafficLimiter
reload_shared values l = record l {
  conns = reload_conns (value_at conn_limit_key values) l.conns;
  ins = set_level global_limit_key (value_at global_limit_key values).inward l.ins;
  outs = set_level global_limit_key (value_at global_limit_key values).outward l.outs;
}

-- reload, for what `load` returns.
unfoldable pub reload : Libs → Assoc Rates → TrafficLimiter → TrafficLimiter
reload libs values l =
    reload_levels libs (delete conn_limit_key (delete global_limit_key values))
      (reload_shared values l)

-- The limiter that NewTrafficLimiter makes before its first reload.
abbrev pub fresh : Options → TrafficLimiter
fresh o = record {
  conns = record { generator = none; ins = []; outs = [] };
  cidrs = [];
  ins = [];
  outs = [];
  options = o;
  cancelled = false;
}

-- NewTrafficLimiter at time t, and the period of the goroutine that it starts, if it starts one.
unfoldable pub new_traffic_limiter :
    Libs → (Text → ℕ) → List Setting → ℕ → TrafficLimiter × Option ℕ
new_traffic_limiter libs parse_bytes ss t =
    let o = apply_all ss zero_options in
    (
      reload libs (load parse_bytes o t) (fresh o),
      if ltb 0 o.period then some (reload_period o.period) else none,
    )

unfoldable pub period_reload : Libs → (Text → ℕ) → List Event → TrafficLimiter → TrafficLimiter
period_reload libs parse_bytes [] l = l
period_reload libs parse_bytes (Event.done ∷ es) l = l
period_reload libs parse_bytes (Event.tick t ∷ es) l =
    period_reload libs parse_bytes es (reload libs (load parse_bytes l.options t) l)

-- host, _, _ := net.SplitHostPort(key)
unfoldable pub host_of : Text → Text
host_of key = elim (split_host_port key) [ none ↦ [] | some (host, port) ↦ host ]

-- The level of an address: its own limiter, or a new one with the rate of a network.
unfoldable pub host_level :
    Libs → List (IpNet × Rates) → (Rates → ℕ) → Text → Assoc ℕ → Option ℕ × Assoc ℕ
host_level libs cs rate host m = elim (lookup host m) [
  | some r ↦ (some r, m)
  | none ↦ elim (network_of libs cs host) [
    | none ↦ (none, m)
    | some g ↦ elim (made (rate g)) [ none ↦ (none, m) | some n ↦ (some n, insert host n m) ]
  ]
]

-- append, for a limiter that may be nil.
unfoldable pub append_some : List ℕ → Option ℕ → List ℕ
append_some lims none = lims
append_some lims (some r) = lims ++ r ∷ []

unfoldable pub insert_rate : ℕ → List ℕ → List ℕ
insert_rate r [] = r ∷ []
insert_rate r (q ∷ qs) = let rest = insert_rate r qs in if gt64 r q then q ∷ rest else r ∷ (q ∷ qs)

-- sort.Slice in newLimiterGroup.
unfoldable pub sort_rates : List ℕ → List ℕ
unfolding insert_rate
sort_rates [] = []
sort_rates (r ∷ rs) = insert_rate r (sort_rates rs)

-- The group of the limiters of the three levels, `none` for nil.
unfoldable pub group_of : Option ℕ → Option ℕ → Option ℕ → Option (List ℕ)
group_of service conn host =
    let lims = append_some (append_some (append_some [] service) conn) host in
    if is_empty lims then none else some (sort_rates lims)

-- In
unfoldable pub input : Libs → Text → TrafficLimiter → Option (List ℕ) × TrafficLimiter
input libs key l =
    let (conn, cs) = conn_in key l.conns in
    let (host, m) = host_level libs l.cidrs (λ g. g.inward) (host_of key) l.ins in
    (group_of (lookup global_limit_key l.ins) conn host, record l { conns = cs; ins = m })

-- Out
unfoldable pub output : Libs → Text → TrafficLimiter → Option (List ℕ) × TrafficLimiter
output libs key l =
    let (conn, cs) = conn_out key l.conns in
    let (host, m) = host_level libs l.cidrs (λ g. g.outward) (host_of key) l.outs in
    (group_of (lookup global_limit_key l.outs) conn host, record l { conns = cs; outs = m })

-- Close, and the loaders that it closes.
unfoldable pub close : TrafficLimiter → TrafficLimiter × List Loader
close l = (record l { cancelled = true }, closed_loaders l.options.loaders)
