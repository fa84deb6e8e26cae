-- ===== src/Limiter/Table.antt =====
-- limiter/conn/conn.go and limiter/conn/generator.go: the table of limits, and the group of counters
-- that it keeps for each client.
pub mod Cells
pub mod Sorting
pub mod Groups
pub mod Making
pub mod Reload
pub mod Keeping
mod Tests
use gost_x.Prelude.{
  ℕ, zero, suc, ◌+◌, ◌-◌, ◌<◌, ◌≤◌, ◌≡◌, refl, Bool, true, false, not, ◌&&◌, ◌||◌, Option, none,
  some, List, [], ◌∷◌, ◌++◌, map, ltb, ◌==◌, if◌then◌else◌, is_empty, get_elem?, arith,
}
use mathlib.Core.Option
use gost_x.Text.{Text, codes, eq_text, line_fields, tabs_to_blanks, trim_space, split_blanks}
use gost_x.Assoc.{Assoc, lookup, insert}
use gost_x.Net.{Libs, Ip, IpNet, parse_ip, parse_cidr}
use gost_x.Loader.{Loader, Loaders, no_loaders, Event, reload_period, load_patterns, closed_loaders}
use gost_x.Int64.{gt64, atoi}
use gost_x.Limiter.Conn.{Limiter, new_limiter, Heap, write}

-- The counters that there are: the cells below `next`.
pub record Store : Type 0 where
  pub cells : Heap
  pub next : ℕ

unfoldable pub alloc : Store → ℕ → Store
alloc st n = record { cells = write st.cells st.next (new_limiter n); next = st.next + 1 }

-- A generator makes a new counter for each client, or gives all of them its own.
pub data Generator : Type 0 where
  each : ℕ → Generator
  single : Option ℕ → Generator

-- NewConnLimitSingleGenerator
unfoldable pub new_single : ℕ → Store → Generator × Store
new_single n st = if gt64 n 0 then (single (some st.next), alloc st n) else (single none, st)

-- Limiter of a generator, which may be nil, as the counters that Limiter of the table appends.
unfoldable pub take_from : Option Generator → Store → List ℕ × Store
take_from none st = ([], st)
take_from (some (each n)) st = if gt64 n 0 then (st.next ∷ [], alloc st n) else ([], st)
take_from (some (single none)) st = ([], st)
take_from (some (single (some r))) st = (r ∷ [], st)

pub record Options : Type 0 where
  pub limits : List Text
  pub loaders : Loaders
  pub period : ℕ

-- The values of type Option, each by the function that makes it.
pub data Setting : Type 0 where
  limits_option : List Text → Setting
  reload_period_option : ℕ → Setting
  file_loader_option redis_loader_option http_loader_option : Option Loader → Setting

unfoldable pub apply : Setting → Options → Options
apply (limits_option ls) o = record o { limits = ls }
apply (reload_period_option p) o = record o { period = p }
apply (file_loader_option l) o = record o { loaders = record o.loaders { file = l } }
apply (redis_loader_option l) o = record o { loaders = record o.loaders { redis = l } }
apply (http_loader_option l) o = record o { loaders = record o.loaders { http = l } }

unfoldable pub apply_all : List Setting → Options → Options
apply_all [] o = o
apply_all (s ∷ ss) o = apply_all ss (apply s o)

abbrev pub zero_options : Options
zero_options = record { limits = []; loaders = no_loaders; period = 0 }

pub record ConnLimiter : Type 0 where
  pub ip_limits : Assoc Generator
  pub cidr_limits : List (IpNet × Generator)
  pub limits : Assoc (Option (List ℕ))
  pub options : Options
  pub cancelled : Bool

abbrev pub global_limit_key : Text
global_limit_key = codes "$"

abbrev pub ip_limit_key : Text
ip_limit_key = codes "$$"

unfoldable pub filled : List Text → List Text
filled [] = []
filled (v ∷ vs) = let rest = filled vs in if is_empty v then rest else v ∷ rest

-- A line "key limit"; further words are ignored.
unfoldable pub parse_limit : Text → Text × ℕ
unfolding filled
parse_limit s = elim (filled (split_blanks (trim_space (tabs_to_blanks s)))) [
  | [] ↦ ([], 0)
  | k ∷ [] ↦ ([], 0)
  | k ∷ (n ∷ rest) ↦ (k, atoi n)
]

-- What `reload` fills.
pub record Limits : Type 0 where
  pub ips : Assoc Generator
  pub cidrs : List (IpNet × Generator)
  pub store : Store

unfoldable pub put_single : Text → ℕ → Limits → Limits
put_single key n l = record {
  ips = insert key (new_single n l.store).0 l.ips;
  cidrs = l.cidrs;
  store = (new_single n l.store).1;
}

-- The switch on the key.
unfoldable pub put_limit : Text → ℕ → Limits → Limits
unfolding put_single
put_limit key n l =
    if eq_text key global_limit_key
    then put_single key n l
    else if eq_text key ip_limit_key
    then record l { ips = insert key (each n) l.ips }
    else elim (parse_ip key) [
      | some ip ↦ put_single key n l
      | none ↦ elim (parse_cidr key) [
        | some net ↦ record l { cidrs = l.cidrs ++ (net, each n) ∷ [] }
        | none ↦ l
      ]
    ]

-- One round of the loop over the lines.
unfoldable pub add_limit : Text → Limits → Limits
add_limit s l =
    let (key, n) = parse_limit s in if is_empty key || not (gt64 n 0) then l else put_limit key n l

unfoldable pub add_limits : List Text → Limits → Limits
add_limits [] l = l
add_limits (s ∷ ss) l = add_limits ss (add_limit s l)

unfoldable pub reload : Options → Bool → ℕ → Store → ConnLimiter × Store
reload o cancelled t st =
    let l =
      add_limits (o.limits ++ load_patterns o.loaders t)
        (record { ips = []; cidrs = []; store = st }) in
    (
      record {
        ip_limits = l.ips;
        cidr_limits = l.cidrs;
        limits = [];
        options = o;
        cancelled = cancelled;
      },
      l.store,
    )

-- NewConnLimiter at time t, and the period of the goroutine that it starts, if it starts one.
unfoldable pub new_conn_limiter : List Setting → ℕ → Store → (ConnLimiter × Store) × Option ℕ
new_conn_limiter ss t st =
    let o = apply_all ss zero_options in
    (reload o false t st, if ltb 0 o.period then some (reload_period o.period) else none)

unfoldable pub period_reload : List Event → ConnLimiter × Store → ConnLimiter × Store
period_reload [] w = w
period_reload (Event.done ∷ es) w = w
period_reload (Event.tick t ∷ es) (l, st) = period_reload es (reload l.options l.cancelled t st)

-- The generator of the first network that ContainingNetworks returns.
unfoldable pub containing : Libs → List (IpNet × Generator) → Ip → Option Generator
containing libs cs ip = elim (libs.containing_networks (map (λ e. e.0) cs) ip) [
  | [] ↦ none
  | i ∷ is ↦ Option.map (λ e. e.1) (get_elem? cs i)
]

-- The counters for an IP address alone: its own, or those of a network.
unfoldable pub own_counters : Libs → ConnLimiter → Text → Store → List ℕ × Store
own_counters libs l key st = elim (parse_ip key) [
  | none ↦ ([], st)
  | some ip ↦
      let (own, st') = take_from (lookup key l.ip_limits) st in
      if is_empty own then take_from (containing libs l.cidr_limits ip) st' else (own, st')
]

unfoldable pub client_counters : Libs → ConnLimiter → Text → Store → List ℕ × Store
client_counters libs l key st =
    let (own, st') = own_counters libs l key st in
    if is_empty own then take_from (lookup ip_limit_key l.ip_limits) st' else (own, st')

unfoldable pub insert_by : Heap → ℕ → List ℕ → List ℕ
insert_by h r [] = r ∷ []
insert_by h r (q ∷ qs) =
    let rest = insert_by h r qs in if gt64 (h r).limit (h q).limit then q ∷ rest else r ∷ (q ∷ qs)

-- sort.Slice in newLimiterGroup.
unfoldable pub sort_counters : Heap → List ℕ → List ℕ
unfolding insert_by
sort_counters h [] = []
sort_counters h (r ∷ rs) = insert_by h r (sort_counters h rs)

unfoldable pub make_group : Libs → ConnLimiter → Text → Store → Option (List ℕ) × Store
make_group libs l key st =
    let (client, st1) = client_counters libs l key st in
    let (shared, st2) = take_from (lookup global_limit_key l.ip_limits) st1 in
    (
      if is_empty (client ++ shared)
          then none
          else some (sort_counters st2.cells (client ++ shared)),
      st2,
    )

-- Limiter: the group of a key is made once and kept, also when there is none.
unfoldable pub limiter : Libs → Text → ConnLimiter × Store → Option (List ℕ) × (ConnLimiter × Store)
limiter libs key (l, st) = elim (lookup key l.limits) [
  | some g ↦ (g, (l, st))
  | none ↦
      let (g, st') = make_group libs l key st in
      (g, (record l { limits = insert key g l.limits }, st'))
]

-- Close, and the loaders that it closes.
unfoldable pub close : ConnLimiter → ConnLimiter × List Loader
close l = (record l { cancelled = true }, closed_loaders l.options.loaders)
