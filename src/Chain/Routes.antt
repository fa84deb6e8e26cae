-- ===== src/Chain/Routes.antt =====
-- The nodes that a route passes.
use gost_x.Prelude.{
  ◌≡◌, refl, sym, ◌∙◌, ap, Bool, true, false, Option, none, some, Option-cases, inl, inr, List, [],
  ◌∷◌, ◌++◌, append-nil, append_assoc, if◌then◌else◌,
}
use gost_x.Text.{Text}
use gost_x.Chain.{
  Node, Hop, select_node, Route, Stops, mk_route, no_stops, direct, through, append_stops, add_node,
  add_selected, extend, route,
}

-- The nodes in the order in which a connection passes them: those that the transport of a node dials
-- through come before the node.
mutual
  pub passes : Route → List Node
  passes (mk_route marks ss) = passes_stops ss

  passes_stops : Stops → List Node
  passes_stops no_stops = []
  passes_stops (direct n ss) = n ∷ passes_stops ss
  passes_stops (through n r ss) = passes r ++ n ∷ passes_stops ss

-- The nodes that the hops select, up to the first hop that selects none.
abbrev pub selected : Text → List (Option Hop) → List Node
selected address [] = []
selected address (hop ∷ hops) = elim (select_node hop address [] []) [
  | none ↦ []
  | some n ↦ n ∷ selected address hops
]

passes_stops-append_stops :
    (ss ts : Stops) → passes_stops (append_stops ss ts) ≡ passes_stops ss ++ passes_stops ts
unfolding append_stops passes_stops
passes_stops-append_stops no_stops ts = refl
passes_stops-append_stops (direct n ss) ts = ap (λ l. n ∷ l) (passes_stops-append_stops ss ts)
passes_stops-append_stops (through n r ss) ts =
    ap (λ l. passes r ++ n ∷ l) (passes_stops-append_stops ss ts)
    ∙ sym (append_assoc (passes r) (n ∷ passes_stops ss) (passes_stops ts))

passes-add_node : (r : Route) (s : Stops) → passes (add_node r s) ≡ passes r ++ passes_stops s
unfolding passes add_node
passes-add_node (mk_route marks ss) s = passes_stops-append_stops ss s

-- One more node, whether its transport multiplexes or not.
passes-add_selected : (rt : Route) (n : Node) → passes (add_selected rt n) ≡ passes rt ++ n ∷ []
unfolding add_selected passes passes_stops
passes-add_selected rt n = either n.multiplex
  where
    either :
        (b : Bool)
        → passes (
            if b
            then add_node (mk_route false no_stops) (through n rt no_stops)
            else add_node rt (direct n no_stops))
          ≡ passes rt ++ n ∷ []
    either true = passes-add_node (mk_route false no_stops) (through n rt no_stops)
    either false = passes-add_node rt (direct n no_stops)

passes-extend :
    (address : Text) (hops : List (Option Hop)) (rt : Route)
    → passes (extend address hops rt) ≡ passes rt ++ selected address hops
unfolding extend
passes-extend address [] rt = sym (append-nil (passes rt))
passes-extend address (hop ∷ hops) rt = elim (Option-cases (select_node hop address [] [])) [
  | inl e ↦ rw (e, extend, selected) (sym (append-nil (passes rt)))
  | inr (n, e) ↦
      rw (e, extend, selected)
        (passes-extend address hops _
          ∙ ap (λ l. l ++ selected address hops) (passes-add_selected rt n)
          ∙ append_assoc (passes rt) (n ∷ []) (selected address hops))
]

-- The route of a chain with at least one hop passes the nodes that its hops select for the address, in
-- the order of the hops and up to the first hop that selects none, however the routes of multiplexing
-- transports nest.
pub passes-route :
    (address : Text) (hop : Option Hop) (hops : List (Option Hop))
    → (rt : Route) × (route (some (hop ∷ hops)) address ≡ some rt)
      × (passes rt ≡ selected address (hop ∷ hops))
unfolding route passes
passes-route address hop hops = (
  extend address (hop ∷ hops) (mk_route true no_stops),
  refl,
  passes-extend address (hop ∷ hops) (mk_route true no_stops),
)
