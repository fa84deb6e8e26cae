-- ===== src/Chain/Selected.antt =====
-- The node that a hop selects.
use gost_x.Prelude.{
  ◌≡◌, refl, ◌⊎◌, inl, inr, Bool, true, false, not, ◌||◌, ◌&&◌, Option, none, some, List, [], ◌∷◌,
  all, if◌then◌else◌, is_empty, arith,
}
use gost_x.Text.{Text, eq_text}
use gost_x.Text.Laws.{eq_text_iff}
use gost_x.Net.{strip_port}
use gost_x.Chain.Hosted.{IsFor, serves-IsFor}
use gost_x.Chain.{
  Bypassing, Node, Hop, bypassed, serves, by_host, by_protocol, filters_of, let_through, choose,
  select_node,
}

-- A selector answers with one of the nodes that it is given: what holds of them all holds of its answer.
abbrev pub Picks : Option (List Node → Option Node) → Type 0
Picks none = Unit
Picks (some s) =
    (p : Node → Bool) (vs : List Node) (n : Node) → all p vs ≡ true → s vs ≡ some n → p n ≡ true

-- A test on the nodes that are not nil.
abbrev pub all_nodes : (Node → Bool) → List (Option Node) → Bool
all_nodes p [] = true
all_nodes p (none ∷ ns) = all_nodes p ns
all_nodes p (some n ∷ ns) = p n && all_nodes p ns

-- What the loops of a hop test of a node, for a host or a protocol.
abbrev suits : Text → Text → Node → Bool
suits host protocol n =
    if not (is_empty host)
    then is_empty n.host || serves n.host (strip_port host)
    else is_empty protocol || eq_text n.protocol protocol

all_nodes-by_host :
    (host : Text) (ns : List (Option Node))
    → (all_nodes (λ n. is_empty n.host || serves n.host host) (by_host host ns).0 ≡ true)
      × (all_nodes (λ n. is_empty n.host || serves n.host host) (by_host host ns).1 ≡ true)
unfolding by_host
all_nodes-by_host host [] = (refl, refl)
all_nodes-by_host host (none ∷ ns) = all_nodes-by_host host ns
all_nodes-by_host host (some n ∷ ns) = (
  ground (arith, (all_nodes-by_host host ns).0, (all_nodes-by_host host ns).1),
  ground (arith, (all_nodes-by_host host ns).0, (all_nodes-by_host host ns).1),
)

all_nodes-by_protocol :
    (protocol : Text) (ns : List (Option Node))
    → all_nodes (λ n. is_empty protocol || eq_text n.protocol protocol) (by_protocol protocol ns)
      ≡ true
unfolding by_protocol
all_nodes-by_protocol protocol [] = refl
all_nodes-by_protocol protocol (none ∷ ns) = all_nodes-by_protocol protocol ns
all_nodes-by_protocol protocol (some n ∷ ns) = ground (arith, all_nodes-by_protocol protocol ns)

all_nodes-true :
    (p : Node → Bool) (ns : List (Option Node)) → ((n : Node) → p n ≡ true) → all_nodes p ns ≡ true
all_nodes-true p [] h = refl
all_nodes-true p (none ∷ ns) h = all_nodes-true p ns h
all_nodes-true p (some n ∷ ns) h = ground (arith, h n, all_nodes-true p ns h)

all_nodes-filters_of :
    (host protocol : Text) (ns : List (Option Node))
    → all_nodes (suits host protocol) (filters_of host protocol ns) ≡ true
unfolding filters_of
all_nodes-filters_of [] [] ns = all_nodes-true (suits [] []) ns (λ n. refl)
all_nodes-filters_of [] (c ∷ protocol) ns = all_nodes-by_protocol (c ∷ protocol) ns
all_nodes-filters_of (c ∷ host) protocol ns = ground (
  arith,
  (all_nodes-by_host (strip_port (c ∷ host)) ns).0,
  (all_nodes-by_host (strip_port (c ∷ host)) ns).1,
)

all-let_through :
    (p : Node → Bool) (addr : Text) (ns : List (Option Node))
    → all_nodes p ns ≡ true
    → all (λ n. p n && not (bypassed n.bypass addr)) (let_through addr ns) ≡ true
unfolding let_through
all-let_through p addr [] e = refl
all-let_through p addr (none ∷ ns) e = all-let_through p addr ns e
all-let_through p addr (some n ∷ ns) e = ground (arith, all-let_through p addr ns)

choose-all :
    (s : Option (List Node → Option Node)) (p : Node → Bool) (vs : List Node) (n : Node)
    → Picks s
    → all p vs ≡ true
    → choose s vs ≡ some n
    → p n ≡ true
unfolding choose
choose-all s p [] n h a e = absurd (cc e)
choose-all none p (v ∷ vs) n h a e = ground arith
choose-all (some s) p (v ∷ vs) n h a e = h p (v ∷ vs) n a e

-- What a hop promises of a node, for a host or a protocol.
abbrev pub IsSuited : Text → Text → Node → Type 0
IsSuited [] [] n = Unit
IsSuited [] (c ∷ protocol) n = n.protocol ≡ c ∷ protocol
IsSuited (c ∷ host) protocol n = (n.host ≡ []) ⊎ IsFor n.host (strip_port (c ∷ host))

no_host :
    (vhost host : Text)
    → (is_empty vhost || serves vhost host) ≡ true
    → (vhost ≡ []) ⊎ IsFor vhost host
no_host [] host e = inl refl
no_host (c ∷ vhost) host e = inr (serves-IsFor (c ∷ vhost) host e)

suits-IsSuited :
    (host protocol : Text) (n : Node) → suits host protocol n ≡ true → IsSuited host protocol n
suits-IsSuited [] [] n e = tt
suits-IsSuited [] (c ∷ protocol) n e = (eq_text_iff n.protocol (c ∷ protocol)).0 e
suits-IsSuited (c ∷ host) protocol n e = no_host n.host (strip_port (c ∷ host)) e

-- There is no bypass, or it does not contain the address.
abbrev pub IsLetThrough : Bypassing → Text → Type 0
IsLetThrough none addr = Unit
IsLetThrough (some contains) addr = contains addr ≡ false

bypassed-IsLetThrough :
    (bypass : Bypassing) (addr : Text) → bypassed bypass addr ≡ false → IsLetThrough bypass addr
unfolding bypassed
bypassed-IsLetThrough none addr e = tt
bypassed-IsLetThrough (some contains) addr e = e

-- A node that a hop selects, with a selector that answers with one of the nodes given, is let through
-- for the address by its own bypass and that of the hop; and if a host is asked for, the node has no host of its own, or
-- that host, or one with a dot in front of an end of that host; else if a protocol is asked for, the
-- node has it.
pub select_node-IsSuited :
    (hop : Hop) (addr host protocol : Text) (n : Node)
    → Picks hop.selector
    → select_node (some hop) addr host protocol ≡ some n
    → IsLetThrough hop.bypass addr × IsLetThrough n.bypass addr × IsSuited host protocol n
unfolding select_node
select_node-IsSuited hop addr host protocol n h e = (
  bypassed-IsLetThrough hop.bypass addr (ground arith),
  bypassed-IsLetThrough n.bypass addr (ground (arith, good)),
  suits-IsSuited host protocol n (ground (arith, good)),
)
  where
    chosen : choose hop.selector (let_through addr (filters_of host protocol hop.nodes)) ≡ some n
    chosen = ground arith

    good : (suits host protocol n && not (bypassed n.bypass addr)) ≡ true
    good =
        choose-all hop.selector (λ n. suits host protocol n && not (bypassed n.bypass addr))
          (let_through addr (filters_of host protocol hop.nodes)) n h
          (all-let_through (suits host protocol) addr _
            (all_nodes-filters_of host protocol hop.nodes))
          chosen
