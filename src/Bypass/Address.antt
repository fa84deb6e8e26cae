-- ===== src/Bypass/Address.antt =====
-- How an address is read: with a port, and as an address whose text is not canonical.
use gost_x.Prelude.{
  ℕ, List, Bool, ◌≡◌, ◌≢◌, ◌≤◌, subst, refl, false, Option, none, some, Option-cases, inl, inr, [],
  ◌∷◌, ◌++◌, arith, any,
}
use gost_x.Text.{Text, eq_text}
use gost_x.Text.Laws.{Free, eq_text_ne}
use gost_x.Net.{parse_ip, ip_string, Libs, Ip}
use gost_x.Net.HostPort.{IsPlain, strip_port-append, strip_port_plain}
use gost_x.Net.Canonical.{ip_string-Free}
use gost_x.Matcher.{match_cidr, new_cidr_matcher, new_wildcard_matcher}
use gost_x.Matcher.Sets.{match_ip-new}
use gost_x.Bypass.{Options, Bypass, Classes, store, matched, contains}

-- An address with a port is answered as its host alone, for a host without colon and brackets.
contains-host_port :
    (libs : Libs) (bp : Option Bypass) (host port : Text)
    → IsPlain host
    → IsPlain port
    → host ≢ []
    → contains libs bp (host ++ b':' ∷ port) ≡ contains libs bp host
unfolding contains
contains-host_port libs none host port h p ne = refl
contains-host_port libs (some bp) [] port h p ne = absurd (ne refl)
contains-host_port libs (some bp) (c ∷ host) port h p ne =
    ground (arith, strip_port-append (c ∷ host) port h ne p, strip_port_plain (c ∷ host) h.colon)

any-false :
    (addr : Text) (ips : List Ip)
    → ((i : Ip) → ip_string i ≢ addr)
    → any (λ i. eq_text (ip_string i) addr) ips ≡ false
any-false addr [] h = refl
any-false addr (i ∷ ips) h =
    ground (arith, eq_text_ne (ip_string i) addr (h i), any-false addr ips h)

-- An address that parses as an IP address but has an upper-case letter, as in "FE80::1", is matched
-- by the networks of the table alone: no IP pattern matches it, not even the one of that address.
pub matched_upper_case :
    (libs : Libs) (o : Options) (c : Bool) (cs : Classes) (bp : Bypass) (addr : Text) (ip : Ip)
    (l : ℕ)
    → store libs o c cs ≡ some bp
    → parse_ip addr ≡ some ip
    → 65 ≤ l
    → l ≤ 90
    → ¬ Free l addr
    → matched libs bp addr ≡ libs.ranger_contains cs.inets ip
unfolding matched store match_cidr new_cidr_matcher
matched_upper_case libs o c cs bp addr ip l e p low high up =
    elim (Option-cases (new_wildcard_matcher libs cs.wildcards)) [
      | inl q ↦ ground arith
      | inr (w, q) ↦ ground (arith, match_ip-new cs.ips addr, any-false addr cs.ips upper)
    ]
  where
    upper : (i : Ip) → ip_string i ≢ addr
    upper i q = up (subst (Free l) q (ip_string-Free l low high i))
