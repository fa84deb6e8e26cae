-- ===== src/Chain.antt =====
-- chain/hop.go and chain/chain.go: a hop selects one of its nodes, a chain makes a route of them.
use gost_x.Prelude.{
  ℕ, zero, suc, Bool, true, false, not, ◌&&◌, ◌||◌, Option, none, some, List, [], ◌∷◌, ◌++◌, map,
  ◌==◌, if◌then◌else◌, is_empty, drop,
}
use gost_x.Text.{Text, eq_text, has_prefix, has_suffix}
use gost_x.Net.{strip_port}
pub mod Hosted
pub mod Selected
pub mod Routes
pub mod Connect
mod Tests

-- bypass.Bypass as its Contains.
abbrev pub Bypassing : Type 0
Bypassing = Option (Text → Bool)

-- chain.Node of the core package, with the options that a hop and a chain read.
pub record Node : Type 0 where
  pub name : Text
  pub host : Text
  pub protocol : Text
  pub bypass : Bypassing
  pub multiplex : Bool

-- A selector, as what it answers in this call.
pub record Hop : Type 0 where
  pub nodes : List (Option Node)
  pub bypass : Bypassing
  pub selector : Option (List Node → Option Node)

unfoldable pub bypassed : Bypassing → Text → Bool
bypassed none addr = false
bypassed (some contains) addr = contains addr

-- vhost == host || vhost[0] == '.' && strings.HasSuffix(host, vhost[1:])
unfoldable pub serves : Text → Text → Bool
serves vhost host =
    eq_text vhost host || (has_prefix vhost (b'.' ∷ []) && has_suffix host (drop 1 vhost))

-- The loop over the nodes for a host: `filters`, and the nodes without a host of their own.
unfoldable pub by_host : Text → List (Option Node) → List (Option Node) × List (Option Node)
by_host host [] = ([], [])
by_host host (none ∷ ns) = by_host host ns
by_host host (some n ∷ ns) =
    let (filters, nodes) = by_host host ns in
    if is_empty n.host
    then (filters, some n ∷ nodes)
    else if serves n.host host
    then (some n ∷ filters, nodes)
    else (filters, nodes)

unfoldable pub by_protocol : Text → List (Option Node) → List (Option Node)
by_protocol protocol [] = []
by_protocol protocol (none ∷ ns) = by_protocol protocol ns
by_protocol protocol (some n ∷ ns) =
    let rest = by_protocol protocol ns in
    if eq_text n.protocol protocol then some n ∷ rest else rest

abbrev hosted : List (Option Node) × List (Option Node) → List (Option Node)
hosted (filters, nodes) = if is_empty filters then nodes else filters

unfoldable pub filters_of : Text → Text → List (Option Node) → List (Option Node)
filters_of host protocol ns =
    if not (is_empty host)
    then hosted (by_host (strip_port host) ns)
    else if not (is_empty protocol)
    then by_protocol protocol ns
    else ns

-- The loop that leaves nil nodes and bypassed nodes out.
unfoldable pub let_through : Text → List (Option Node) → List Node
let_through addr [] = []
let_through addr (none ∷ ns) = let_through addr ns
let_through addr (some n ∷ ns) =
    let rest = let_through addr ns in if bypassed n.bypass addr then rest else n ∷ rest

unfoldable pub choose : Option (List Node → Option Node) → List Node → Option Node
choose s [] = none
choose none (n ∷ ns) = some n
choose (some s) (n ∷ ns) = s (n ∷ ns)

-- Select, with the address, the host and the protocol of its options; `none` is the nil hop.
unfoldable pub select_node : Option Hop → Text → Text → Text → Option Node
select_node none addr host protocol = none
select_node (some hop) addr host protocol =
    if is_empty hop.nodes
    then none
    else if bypassed hop.bypass addr
    then none
    else choose hop.selector (let_through addr (filters_of host protocol hop.nodes))

-- A route: whether it marks the chain, and its nodes in order; a node of a multiplexing transport has the
-- route that the transport dials through.
mutual
  pub data Route : Type 0 where
    mk_route : Bool → Stops → Route

  pub data Stops : Type 0 where
    no_stops : Stops
    direct : Node → Stops → Stops
    through : Node → Route → Stops → Stops

unfoldable pub append_stops : Stops → Stops → Stops
append_stops no_stops ts = ts
append_stops (direct n ss) ts = direct n (append_stops ss ts)
append_stops (through n r ss) ts = through n r (append_stops ss ts)

-- addNode
unfoldable pub add_node : Route → Stops → Route
add_node (mk_route marks ss) s = mk_route marks (append_stops ss s)

-- One round of the loop of Route.
unfoldable pub add_selected : Route → Node → Route
add_selected rt node =
    if node.multiplex
    then add_node (mk_route false no_stops) (through node rt no_stops)
    else add_node rt (direct node no_stops)

unfoldable pub extend : Text → List (Option Hop) → Route → Route
extend address [] rt = rt
extend address (hop ∷ hops) rt = elim (select_node hop address [] []) [
  | none ↦ rt
  | some node ↦ extend address hops (add_selected rt node)
]

-- Route of a chain; `none` is the nil chain and the nil route.
unfoldable pub route : Option (List (Option Hop)) → Text → Option Route
route none address = none
route (some hops) address =
    if is_empty hops then none else some (extend address hops (mk_route true no_stops))
