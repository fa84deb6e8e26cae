-- ===== src/Matcher.antt =====
-- internal/matcher/matcher.go: the four matchers. A map[string]struct{} is an `Assoc` of units.
pub mod Domain
pub mod Sets
mod Tests
use gost_x.Prelude.{
  ℕ, Bool, true, false, ◌||◌, Option, none, some, List, [], ◌∷◌, ◌++◌, map, is_empty, any, is_some,
  if◌then◌else◌,
}
use mathlib.Core.Option
use gost_x.Text.{Text}
use gost_x.Text.Labels.{parent}
use gost_x.Assoc.{Assoc, insert, has_key}
use gost_x.Net.{parse_ip, parse_cidr, ip_string, Libs, Ip, IpNet}

abbrev pub Keys : Type 0
Keys = Assoc (Unit {0})

-- for _, k := range ks { m[k] = struct{}{} }
unfoldable pub add_keys : List Text → Keys → Keys
add_keys [] m = m
add_keys (k ∷ ks) m = add_keys ks (insert k tt m)

pub record IpMatcher : Type 0 where
  pub ips : Keys

pub record CidrMatcher : Type 0 where
  pub ranger : List IpNet

pub record DomainMatcher : Type 0 where
  pub domains : Keys

pub record WildcardMatcher : Type 0 where
  pub patterns : List (Text × (Text → Bool))

unfoldable pub new_ip_matcher : List Ip → IpMatcher
new_ip_matcher ips = record { ips = add_keys (map (λ ip. ip_string ip) ips) [] }

unfoldable pub match_ip : IpMatcher → Text → Bool
match_ip m ip = if is_empty m.ips then false else has_key ip m.ips

unfoldable pub new_cidr_matcher : List IpNet → CidrMatcher
new_cidr_matcher inets = record { ranger = inets }

unfoldable pub match_cidr : Libs → CidrMatcher → Text → Bool
match_cidr libs m ip = elim (parse_ip ip) [
  | none ↦ false
  | some net_ip ↦ libs.ranger_contains m.ranger net_ip
]

unfoldable pub new_domain_matcher : List Text → DomainMatcher
new_domain_matcher domains = record { domains = add_keys domains [] }

abbrev pub found : Keys → Text → Option (Unit {0})
found m k = if has_key k m then some tt else none

unfoldable pub match_domain : DomainMatcher → Text → Bool
match_domain m domain =
    if is_empty m.domains
    then false
    else if has_key domain m.domains
    then true
    else if has_key (b'.' ∷ domain) m.domains
    then true
    else is_some (parent (found m.domains) domain)

-- glob.MustCompile panics on a malformed pattern: `none`.
unfoldable pub new_wildcard_matcher : Libs → List Text → Option WildcardMatcher
new_wildcard_matcher libs [] = some (record { patterns = [] })
new_wildcard_matcher libs (p ∷ ps) = elim (libs.glob_compile p) [
  | none ↦ none
  | some glob ↦
      Option.map (λ (m : WildcardMatcher). record m { patterns = (p, glob) ∷ m.patterns })
        (new_wildcard_matcher libs ps)
]

unfoldable pub match_wildcard : WildcardMatcher → Text → Bool
match_wildcard m domain = if is_empty m.patterns then false else any (λ p. p.1 domain) m.patterns
