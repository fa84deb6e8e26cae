-- ===== src/Bypass/Rules.antt =====
-- The decision of a bypass as a rule over the list of patterns.
use gost_x.Prelude.{
  ◌≡◌, refl, ◌∙◌, ap, Bool, false, ◌||◌, Option, none, some, Option-cases, inl, inr, List, [], ◌∷◌,
  ◌++◌, any, if◌then◌else◌, arith, append-nil, append_assoc,
}
use gost_x.Text.{Text, eq_text, contains_any}
use gost_x.Net.{parse_ip, parse_cidr, ip_string, Libs, Ip, IpNet}
use gost_x.Matcher.{WildcardMatcher, match_wildcard, new_wildcard_matcher}
use gost_x.Matcher.Sets.{covers}
use gost_x.Bypass.{Classes, classify, classify_all, no_classes}

-- What a pattern is taken for.
pub data Kind : Type 0 where
  ip_pattern : Ip → Kind
  cidr_pattern : IpNet → Kind
  wildcard_pattern domain_pattern : Kind

unfoldable pub kind : Text → Kind
kind p = elim (parse_ip p) [
  | some ip ↦ ip_pattern ip
  | none ↦ elim (parse_cidr p) [
    | some inet ↦ cidr_pattern inet
    | none ↦ if contains_any p (b'*' ∷ b'?' ∷ []) then wildcard_pattern else domain_pattern
  ]
]

-- The four lists by recursion from the front.
abbrev pub add : Text → Kind → Classes → Classes
add p (ip_pattern ip) c = record c { ips = ip ∷ c.ips }
add p (cidr_pattern inet) c = record c { inets = inet ∷ c.inets }
add p wildcard_pattern c = record c { wildcards = p ∷ c.wildcards }
add p domain_pattern c = record c { domains = p ∷ c.domains }

unfoldable pub classes : List Text → Classes
classes [] = no_classes
classes (p ∷ ps) = add p (kind p) (classes ps)

abbrev join : Classes → Classes → Classes
join a b = record {
  ips = a.ips ++ b.ips;
  inets = a.inets ++ b.inets;
  domains = a.domains ++ b.domains;
  wildcards = a.wildcards ++ b.wildcards;
}

abbrev push : Text → Kind → Classes → Classes
push p (ip_pattern ip) c = record c { ips = c.ips ++ ip ∷ [] }
push p (cidr_pattern inet) c = record c { inets = c.inets ++ inet ∷ [] }
push p wildcard_pattern c = record c { wildcards = c.wildcards ++ p ∷ [] }
push p domain_pattern c = record c { domains = c.domains ++ p ∷ [] }

classify-push : (p : Text) (a : Classes) → classify p a ≡ push p (kind p) a
unfolding classify kind
classify-push p a = ground arith

push-add : (p : Text) (k : Kind) (a b : Classes) → join (push p k a) b ≡ join a (add p k b)
push-add p (ip_pattern ip) a b = simp append_assoc
push-add p (cidr_pattern inet) a b = simp append_assoc
push-add p wildcard_pattern a b = simp append_assoc
push-add p domain_pattern a b = simp append_assoc

classify_all-join : (ps : List Text) (a : Classes) → classify_all ps a ≡ join a (classes ps)
unfolding classify_all classes
classify_all-join [] a = simp append-nil
classify_all-join (p ∷ ps) a =
    classify_all-join ps (classify p a)
    ∙ ap (λ c. join c (classes ps)) (classify-push p a)
    ∙ push-add p (kind p) a (classes ps)

-- The loop of `reload` keeps the patterns of each kind in their order.
pub classify_all-classes : (ps : List Text) → classify_all ps no_classes ≡ classes ps
classify_all-classes ps = classify_all-join ps no_classes

-- cidranger: an address is contained in a set of networks if it is in one of them.
abbrev pub RangerIsUnion : Libs → Type 0
RangerIsUnion libs =
    (ns : List IpNet) (ip : Ip)
    → libs.ranger_contains ns ip ≡ any (λ n. libs.ranger_contains (n ∷ []) ip) ns

unfoldable pub glob_hits : Libs → Text → Text → Bool
glob_hits libs host p = elim (libs.glob_compile p) [ none ↦ false | some g ↦ g host ]

-- What one pattern says of a host, which is an address if `ip` is there.
abbrev pub hits : Libs → Option Ip → Text → Text → Kind → Bool
hits libs (some ip) host p (ip_pattern i) = eq_text (ip_string i) host
hits libs (some ip) host p (cidr_pattern n) = libs.ranger_contains (n ∷ []) ip
hits libs none host p wildcard_pattern = glob_hits libs host p
hits libs none host p domain_pattern = covers p host
hits libs _ host p _ = false

abbrev pub rule_matches : Libs → Text → Text → Bool
rule_matches libs host p = hits libs (parse_ip host) host p (kind p)

pub address_rules :
    (libs : Libs) (host : Text) (ip : Ip) (ps : List Text)
    → (any (λ i. eq_text (ip_string i) host) (classes ps).ips
        || any (λ n. libs.ranger_contains (n ∷ []) ip) (classes ps).inets)
      ≡ any (λ p. hits libs (some ip) host p (kind p)) ps
unfolding classes
address_rules libs host ip [] = refl
address_rules libs host ip (p ∷ ps) = ground (arith, address_rules libs host ip ps)

pub name_rules :
    (libs : Libs) (host : Text) (ps : List Text)
    → (any (λ d. covers d host) (classes ps).domains
        || any (λ p. glob_hits libs host p) (classes ps).wildcards)
      ≡ any (λ p. hits libs none host p (kind p)) ps
unfolding classes
name_rules libs host [] = refl
name_rules libs host (p ∷ ps) = ground (arith, name_rules libs host ps)

pub match_wildcard-new :
    (libs : Libs) (ws : List Text) (m : WildcardMatcher) (host : Text)
    → new_wildcard_matcher libs ws ≡ some m
    → match_wildcard m host ≡ any (λ p. glob_hits libs host p) ws
unfolding match_wildcard new_wildcard_matcher glob_hits
match_wildcard-new libs [] m host e = ground arith
match_wildcard-new libs (p ∷ ws) m host e = elim (Option-cases (new_wildcard_matcher libs ws)) [
  | inl q ↦ ground arith
  | inr (m', q) ↦ ground (arith, match_wildcard-new libs ws m' host q)
]
