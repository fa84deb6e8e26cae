-- ===== src/Chain/Tests.antt =====
-- Hops, chains and routes on concrete nodes.
use gost_x.Prelude.{
  ◌≡◌, refl, subst, Bool, true, false, Option, none, some, some_inj, List, [], ◌∷◌, all, arith,
}
use gost_x.Text.{Text, codes, eq_text}
use gost_x.Code.{net_code}
use gost_x.Chain.{
  Node, Hop, bypassed, serves, by_host, by_protocol, filters_of, let_through, choose, select_node,
  Route, append_stops, add_node, add_selected, extend, route,
}
use gost_x.Chain.Selected.{IsLetThrough, IsSuited, select_node-IsSuited}
use gost_x.Chain.Routes.{passes, selected, passes-route}
use gost_x.Chain.Connect.{
  Attempt, connected, handshake_error, mark, reset, close_shaken, mark_chain, reset_chain,
  close_dialed, mark_of, reset_of, closed, connect, connect-closed,
}

abbrev plain_node : Text → Bool → Node
plain_node name multiplex = record {
  name = name;
  host = [];
  protocol = [];
  bypass = none;
  multiplex = multiplex;
}

abbrev hosted_node : Node
hosted_node = record {
  name = codes "h";
  host = codes ".example.com";
  protocol = [];
  bypass = some (eq_text (codes "10.0.0.1:80"));
  multiplex = false;
}

abbrev hop : Hop
hop = record {
  nodes = some (plain_node (codes "a") false) ∷ none ∷ some hosted_node ∷ [];
  bypass = none;
  selector = none;
}

unfoldable code : Unit {0}
unfolding net_code bypassed serves by_host by_protocol filters_of let_through choose select_node
    append_stops add_node add_selected extend route
code = tt

chosen :
    select_node (some hop) (codes "10.0.0.2:80") (codes "www.example.com:443") [] ≡ some hosted_node
unfolding code
chosen = refl

-- The node of the host is bypassed, and the others are not asked.
not_chosen : select_node (some hop) (codes "10.0.0.1:80") (codes "www.example.com:443") [] ≡ none
unfolding code
not_chosen = refl

-- A selector that answers with the last node.
abbrev last_of : Node → List Node → Node
last_of n [] = n
last_of n (m ∷ ms) = last_of m ms

abbrev last_node : List Node → Option Node
last_node [] = none
last_node (n ∷ ns) = some (last_of n ns)

last_of-all :
    (p : Node → Bool) (n : Node) (ns : List Node) → all p (n ∷ ns) ≡ true → p (last_of n ns) ≡ true
last_of-all p n [] e = ground (arith, e)
last_of-all p n (m ∷ ms) e = last_of-all p m ms (ground (arith, e))

last_node-Picks :
    (p : Node → Bool) (vs : List Node) (n : Node)
    → all p vs ≡ true
    → last_node vs ≡ some n
    → p n ≡ true
last_node-Picks p [] n a e = absurd cc
last_node-Picks p (v ∷ vs) n a e =
    subst (λ m. p m ≡ true) (some_inj (last_of v vs) n e) (last_of-all p v vs a)

abbrev www_node : Node
www_node = record hosted_node { name = codes "w"; host = codes "www.example.com" }

abbrev org_node : Node
org_node = record hosted_node { name = codes "o"; host = codes ".example.org" }

abbrev last_hop : Hop
last_hop = record hop {
  nodes =
      some hosted_node ∷ some www_node ∷ some org_node ∷ some (plain_node (codes "a") false) ∷ [];
  bypass = some (eq_text (codes "10.0.0.3:80"));
  selector = some last_node;
}

-- Of the two nodes that are for the host, the last one.
chosen_last :
    select_node (some last_hop) (codes "10.0.0.2:80") (codes "www.example.com:443") []
    ≡ some www_node
unfolding code
chosen_last = refl

-- No node is for the host, and the one without a host is left.
chosen_plain :
    select_node (some last_hop) (codes "10.0.0.2:80") (codes "www.example.net:443") []
    ≡ some (plain_node (codes "a") false)
unfolding code
chosen_plain = refl

select_node-IsSuited_example :
    IsLetThrough last_hop.bypass (codes "10.0.0.2:80")
    × IsLetThrough www_node.bypass (codes "10.0.0.2:80")
    × IsSuited (codes "www.example.com:443") [] www_node
select_node-IsSuited_example =
    select_node-IsSuited last_hop (codes "10.0.0.2:80") (codes "www.example.com:443") [] www_node
      last_node-Picks chosen_last

abbrev one : Text → Bool → Option Hop
one name multiplex =
    some (record { nodes = some (plain_node name multiplex) ∷ []; bypass = none; selector = none })

passes-route_example :
    (rt : Route) × (route
        (some (one (codes "a") false ∷ one (codes "b") true ∷ none ∷ []))
        (codes "x:1")
      ≡ some rt)
    × (passes rt
        ≡ selected (codes "x:1") (one (codes "a") false ∷ one (codes "b") true ∷ none ∷ []))
passes-route_example =
    passes-route (codes "x:1") (one (codes "a") false) (one (codes "b") true ∷ none ∷ [])

two_selected :
    selected (codes "x:1") (one (codes "a") false ∷ one (codes "b") true ∷ none ∷ [])
    ≡ plain_node (codes "a") false ∷ plain_node (codes "b") true ∷ []
unfolding code
two_selected = refl

abbrev good : Attempt
good = record { marked = true; outcome = connected }

abbrev bad : Attempt
bad = record { marked = true; outcome = handshake_error }

connect-closed_example :
    (connect true bad [] ≡ (none, close_dialed ∷ mark 0 ∷ mark_chain ∷ []))
    × (connect true good (bad ∷ []) ≡ (none, reset 0 ∷ close_shaken 0 ∷ mark 1 ∷ mark_chain ∷ []))
    × (connect true good [] ≡ (some 0, reset 0 ∷ reset_chain ∷ []))
unfolding reset_of mark_of closed
connect-closed_example = connect-closed true good [] bad [] refl tt (λ e. cc e)
