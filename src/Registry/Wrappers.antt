-- ===== src/Registry/Wrappers.antt =====
-- registry/admission.go, registry/bypass.go and the other registries of one type: what their Get returns
-- is a wrapper of a name, which asks the registry anew at every call of its methods; and the lists of
-- wrappers that config/parsing/service.go makes of names.
use gost_x.Prelude.{
  ℕ, Bool, true, false, Option, none, some, List, [], ◌∷◌, ◌++◌, if◌then◌else◌, is_empty,
}
use gost_x.Text.{Text}
use gost_x.Net.{Ip, Libs}
use gost_x.Assoc.{Assoc, insert}
use gost_x.Registry.{get}
use gost_x.Admission.{Admission, admit}
use gost_x.Bypass.{Bypass, contains}
use gost_x.Auth.{Authenticator, authenticate}
use gost_x.Ingress
use gost_x.Ingress.{Ingress}
use gost_x.Hosts.{HostMapper, lookup_ips}
use gost_x.Chain.{Node, Hop, Route, select_node, route}
use gost_x.Limiter.Table.{ConnLimiter, limiter}
use gost_x.Limiter.Table.{Store}
use gost_x.Limiter.Rate.{RateLib, Buckets}
use gost_x.Limiter.Rate.Table
use gost_x.Limiter.Rate.Table.{RateLimiter}
use gost_x.Limiter.Traffic.Table.{TrafficLimiter, input, output}
pub mod Swapped
mod Tests

-- Get: the wrapper, as its name.
unfoldable pub wrap : Text → Option Text
wrap name = if is_empty name then none else some name

-- bypassList, autherList and admissionList.
unfoldable pub wrappers : List Text → List Text
wrappers [] = []
wrappers (name ∷ names) =
    let rest = wrappers names in elim (wrap name) [ none ↦ rest | some w ↦ w ∷ rest ]

unfoldable pub wrapper_list : Text → List Text → List Text
wrapper_list name names = wrappers (name ∷ []) ++ wrappers names

unfoldable pub wrapped_admit : Libs → Assoc Admission → Text → Text → Bool
wrapped_admit libs m w addr = elim (get w m) [ none ↦ false | some p ↦ admit libs (some p) addr ]

unfoldable pub wrapped_contains : Libs → Assoc Bypass → Text → Text → Bool
wrapped_contains libs m w addr = elim (get w m) [
  | none ↦ false
  | some bp ↦ contains libs (some bp) addr
]

unfoldable pub wrapped_authenticate : Assoc Authenticator → Text → Text → Text → Bool
wrapped_authenticate m w user password = elim (get w m) [
  | none ↦ true
  | some v ↦ authenticate (some v) user password
]

-- Get of the wrapper of an ingress.
unfoldable pub wrapped_get : Assoc Ingress → Text → Text → Text
wrapped_get m w host = elim (get w m) [ none ↦ [] | some v ↦ Ingress.get (some v) host ]

unfoldable pub wrapped_lookup : Assoc HostMapper → Text → Text → Text → List Ip × Bool
wrapped_lookup m w network host = elim (get w m) [
  | none ↦ ([], false)
  | some v ↦ lookup_ips v network host
]

unfoldable pub wrapped_nodes : Assoc Hop → Text → List (Option Node)
wrapped_nodes m w = elim (get w m) [ none ↦ [] | some v ↦ v.nodes ]

unfoldable pub wrapped_select : Assoc Hop → Text → Text → Text → Text → Option Node
wrapped_select m w addr host protocol = elim (get w m) [
  | none ↦ none
  | some v ↦ select_node (some v) addr host protocol
]

unfoldable pub wrapped_route : Assoc (List (Option Hop)) → Text → Text → Option Route
wrapped_route m w address = elim (get w m) [ none ↦ none | some v ↦ route (some v) address ]

-- Limiter changes the limiter that is registered.
unfoldable pub wrapped_limiter :
    Libs → Text → Text → Assoc ConnLimiter × Store → Option (List ℕ) × (Assoc ConnLimiter × Store)
wrapped_limiter libs w key (m, st) = elim (get w m) [
  | none ↦ (none, (m, st))
  | some v ↦ let (g, (v', st')) = limiter libs key (v, st) in (g, (insert w v' m, st'))
]

unfoldable pub wrapped_rate_limiter :
    (rate : RateLib)
    → Libs
    → Text
    → Text
    → Assoc (RateLimiter rate) × Buckets rate
    → Option (List ℕ) × (Assoc (RateLimiter rate) × Buckets rate)
wrapped_rate_limiter rate libs w key (m, st) = elim (get w m) [
  | none ↦ (none, (m, st))
  | some v ↦ let (g, (v', st')) = Table.limiter rate libs key (v, st) in (g, (insert w v' m, st'))
]

unfoldable pub wrapped_in :
    Libs → Text → Text → Assoc TrafficLimiter → Option (List ℕ) × Assoc TrafficLimiter
wrapped_in libs w key m = elim (get w m) [
  | none ↦ (none, m)
  | some v ↦ let (g, v') = input libs key v in (g, insert w v' m)
]

unfoldable pub wrapped_out :
    Libs → Text → Text → Assoc TrafficLimiter → Option (List ℕ) × Assoc TrafficLimiter
wrapped_out libs w key m = elim (get w m) [
  | none ↦ (none, m)
  | some v ↦ let (g, v') = output libs key v in (g, insert w v' m)
]

-- Resolve and Record, for objects that are these methods, with states S and errors E; `invalid` is
-- ErrInvalid.
module _ {S E : Type 0} where
  unfoldable pub wrapped_resolve :
      E
      → Assoc (Text → Text → S → (List Ip × Option E) × S)
      → Text
      → Text
      → Text
      → S
      → (List Ip × Option E) × S
  wrapped_resolve invalid m w network host s = elim (get w m) [
    | none ↦ (([], some invalid), s)
    | some v ↦ v network host s
  ]

  unfoldable pub wrapped_record :
      Assoc (List ℕ → S → Option E × S) → Text → List ℕ → S → Option E × S
  wrapped_record m w b s = elim (get w m) [ none ↦ (none, s) | some v ↦ v b s ]
