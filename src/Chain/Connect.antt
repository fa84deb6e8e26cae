-- ===== src/Chain/Connect.antt =====
-- chain/route.go: connect goes through the nodes of a route, and marks and resets their markers.
use gost_x.Prelude.{
  ℕ, zero, suc, ◌+◌, ◌≡◌, ◌≢◌, ◌∙◌, Bool, Option, none, some, List, [], ◌∷◌, ◌++◌, append_assoc,
  if◌then◌else◌, length, All, arith,
}

-- What becomes of a node: its address is not resolved, it is not reached (Dial of the first node, Connect
-- of the transport of the node before for the others), its handshake fails, or none of these.
pub data Outcome : Type 0 where
  resolve_error reach_error handshake_error connected : Outcome

-- A node in this attempt, and whether it has a marker.
pub record Attempt : Type 0 where
  pub marked : Bool
  pub outcome : Outcome

-- What connect does, in order: Mark and Reset of the marker of a node, Close of the connection that was
-- dialed or of the one that the handshake with a node returned, Mark and Reset of the chain's marker.
pub data Effect : Type 0 where
  mark reset : ℕ → Effect
  close_dialed : Effect
  close_shaken : ℕ → Effect
  mark_chain reset_chain : Effect

unfoldable pub mark_of : ℕ → Attempt → List Effect
mark_of i a = if a.marked then mark i ∷ [] else []

unfoldable pub reset_of : ℕ → Attempt → List Effect
reset_of i a = if a.marked then reset i ∷ [] else []

-- The loop over the nodes behind the first, with the place of the node before: the node whose connection
-- is returned, if there is no error.
unfoldable pub connect_rest : ℕ → List Attempt → Option ℕ × List Effect
connect_rest before [] = (some before, [])
connect_rest before (a ∷ rest) =
    let (conn, effects) = connect_rest (suc before) rest in
    elim a.outcome [
      | resolve_error ↦ (none, close_shaken before ∷ mark_of (suc before) a)
      | reach_error ↦ (none, close_shaken before ∷ mark_of (suc before) a)
      | handshake_error ↦ (none, close_shaken before ∷ mark_of (suc before) a)
      | connected ↦ (conn, reset_of (suc before) a ++ effects)
    ]

unfoldable pub connect_nodes : Attempt → List Attempt → Option ℕ × List Effect
connect_nodes a rest =
    let (conn, effects) = connect_rest 0 rest in
    elim a.outcome [
      | resolve_error ↦ (none, mark_of 0 a)
      | reach_error ↦ (none, mark_of 0 a)
      | handshake_error ↦ (none, close_dialed ∷ mark_of 0 a)
      | connected ↦ (conn, reset_of 0 a ++ effects)
    ]

-- The deferred function: it marks or resets the marker of the chain, if the route has a chain with one.
unfoldable pub chain_effect : Bool → Option ℕ → List Effect
chain_effect marks none = if marks then mark_chain ∷ [] else []
chain_effect marks (some conn) = if marks then reset_chain ∷ [] else []

-- connect, for a route with a first node.
unfoldable pub connect : Bool → Attempt → List Attempt → Option ℕ × List Effect
connect marks a rest =
    let (conn, effects) = connect_nodes a rest in (conn, effects ++ chain_effect marks conn)

abbrev pub IsConnected : Attempt → Type 0
IsConnected a = a.outcome ≡ connected

-- The resets of the nodes from place i on.
abbrev pub resets : ℕ → List Attempt → List Effect
resets i [] = []
resets i (a ∷ as') = reset_of i a ++ resets (suc i) as'

connect_rest-connected :
    (before : ℕ) (as' : List Attempt)
    → All IsConnected as'
    → connect_rest before as' ≡ (some (before + length as'), resets (suc before) as')
unfolding connect_rest
connect_rest-connected before [] h = ground arith
connect_rest-connected before (a ∷ as') h =
    ground (arith, connect_rest-connected (suc before) as' h.1)

connect_rest-fails :
    (before : ℕ) (as' : List Attempt) (b : Attempt) (rest : List Attempt)
    → All IsConnected as'
    → b.outcome ≢ connected
    → connect_rest before (as' ++ b ∷ rest) ≡ (
      none,
      resets (suc before) as'
          ++ close_shaken (before + length as') ∷ mark_of (suc before + length as') b,
    )
unfolding connect_rest
connect_rest-fails before [] b rest h f = ground arith
connect_rest-fails before (a ∷ as') b rest h f = ground (
  arith,
  connect_rest-fails (suc before) as' b rest h.1 f,
  append_assoc (reset_of (suc before) a) (resets (suc (suc before)) as')
      (close_shaken (suc before + length as') ∷ mark_of (suc (suc before) + length as') b),
)

-- The connection that is closed when the node at place k fails.
unfoldable pub closed : ℕ → Attempt → List Effect
closed zero b = elim b.outcome [
  | resolve_error ↦ []
  | reach_error ↦ []
  | handshake_error ↦ close_dialed ∷ []
  | connected ↦ []
]
closed (suc k) b = close_shaken k ∷ []

-- A route whose nodes are all connected: every marker is reset, in order, and then the chain's; nothing
-- is closed, and the connection is the one of the last node.
connect-connected :
    (marks : Bool) (a : Attempt) (as' : List Attempt)
    → IsConnected a
    → All IsConnected as'
    → connect marks a as'
      ≡ (some (length as'), resets 0 (a ∷ as') ++ (if marks then reset_chain ∷ [] else []))
unfolding connect connect_nodes chain_effect
connect-connected marks a as' h hs = ground (arith, connect_rest-connected 0 as' hs)

first-fails :
    (marks : Bool) (b : Attempt) (rest : List Attempt)
    → b.outcome ≢ connected
    → connect marks b rest
      ≡ (none, (closed 0 b ++ mark_of 0 b) ++ (if marks then mark_chain ∷ [] else []))
unfolding connect connect_nodes chain_effect closed
first-fails marks b rest f = ground arith

later-fails :
    (marks : Bool) (a : Attempt) (as' : List Attempt) (b : Attempt) (rest : List Attempt)
    → IsConnected a
    → All IsConnected as'
    → b.outcome ≢ connected
    → connect marks a (as' ++ b ∷ rest) ≡ (
      none,
      (resets 0 (a ∷ as') ++ (closed (suc (length as')) b ++ mark_of (suc (length as')) b))
          ++ (if marks then mark_chain ∷ [] else []),
    )
unfolding connect connect_nodes chain_effect closed
later-fails marks a as' b rest h hs f = ground (
  arith,
  tail,
  append_assoc (reset_of 0 a) (resets 1 as')
      (close_shaken (length as') ∷ mark_of (suc (length as')) b),
)
  where
    tail :
        connect_rest 0 (as' ++ b ∷ rest)
        ≡ (none, resets 1 as' ++ close_shaken (length as') ∷ mark_of (suc (length as')) b)
    tail = connect_rest-fails 0 as' b rest hs f ∙ ground arith

-- A route where node b fails and those before it, if any, are connected: there is no connection, the
-- markers of the nodes before are reset, that of b is marked, then the chain's; the nodes behind b are
-- left alone. What was open is closed before b is marked: the connection of the node before b, or the
-- dialed one if b is the first and fails in its handshake. The nodes before alone make a route of
-- which every marker is reset, in order, and then the chain's; nothing is closed, and the connection is
-- the one of the last node.
pub connect-closed :
    (marks : Bool) (a : Attempt) (as' : List Attempt) (b : Attempt) (rest : List Attempt)
    → IsConnected a
    → All IsConnected as'
    → b.outcome ≢ connected
    → (connect marks b rest
        ≡ (none, (closed 0 b ++ mark_of 0 b) ++ (if marks then mark_chain ∷ [] else [])))
      × (connect marks a (as' ++ b ∷ rest) ≡ (
        none,
        (resets 0 (a ∷ as') ++ (closed (suc (length as')) b ++ mark_of (suc (length as')) b))
            ++ (if marks then mark_chain ∷ [] else []),
      ))
      × (connect marks a as'
          ≡ (some (length as'), resets 0 (a ∷ as') ++ (if marks then reset_chain ∷ [] else [])))
connect-closed marks a as' b rest h hs f = (
  first-fails marks b rest f,
  later-fails marks a as' b rest h hs f,
  connect-connected marks a as' h hs,
)
