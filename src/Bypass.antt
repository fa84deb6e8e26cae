-- ===== src/Bypass.antt =====
-- bypass/bypass.go: the rule table that says which addresses are bypassed.
pub mod Rules
pub mod Decision
pub mod Address
mod Tests
use gost_x.Prelude.{
  ℕ, Bool, true, false, ◌&&◌, ◌||◌, not, Option, none, some, List, [], ◌∷◌, ◌++◌, is_empty, ltb,
  if◌then◌else◌,
}
use mathlib.Core.Option
use gost_x.Text.{Text, contains_any}
use gost_x.Net.{parse_ip, parse_cidr, ip_string, Libs, Ip, IpNet, strip_port}
use gost_x.Loader.{Loader, Loaders, no_loaders, Event, load_patterns, closed_loaders, reload_period}
use gost_x.Matcher.{
  IpMatcher, CidrMatcher, DomainMatcher, WildcardMatcher, new_ip_matcher, new_cidr_matcher,
  new_domain_matcher, new_wildcard_matcher, match_ip, match_cidr, match_domain, match_wildcard,
}

-- The logger is left out: what is logged is not modelled.
pub record Options : Type 0 where
  pub whitelist : Bool
  pub matchers : List Text
  pub loaders : Loaders
  pub period : ℕ

-- The values of type Option, each by the function that makes it.
pub data Setting : Type 0 where
  whitelist_option : Bool → Setting
  matchers_option : List Text → Setting
  reload_period_option : ℕ → Setting
  file_loader_option redis_loader_option http_loader_option : Option Loader → Setting

unfoldable pub apply : Setting → Options → Options
apply (whitelist_option b) o = record o { whitelist = b }
apply (matchers_option ms) o = record o { matchers = ms }
apply (reload_period_option p) o = record o { period = p }
apply (file_loader_option l) o = record o { loaders = record o.loaders { file = l } }
apply (redis_loader_option l) o = record o { loaders = record o.loaders { redis = l } }
apply (http_loader_option l) o = record o { loaders = record o.loaders { http = l } }

unfoldable pub apply_all : List Setting → Options → Options
apply_all [] o = o
apply_all (s ∷ ss) o = apply_all ss (apply s o)

abbrev pub zero_options : Options
zero_options = record { whitelist = false; matchers = []; loaders = no_loaders; period = 0 }

pub record Bypass : Type 0 where
  pub ip_matcher : IpMatcher
  pub cidr_matcher : CidrMatcher
  pub domain_matcher : DomainMatcher
  pub wildcard_matcher : WildcardMatcher
  pub options : Options
  pub cancelled : Bool

-- The four lists that `reload` sorts the patterns into.
pub record Classes : Type 0 where
  pub ips : List Ip
  pub inets : List IpNet
  pub domains : List Text
  pub wildcards : List Text

-- One round of the loop over the patterns.
unfoldable pub classify : Text → Classes → Classes
classify pattern c = elim (parse_ip pattern) [
  | some ip ↦ record c { ips = c.ips ++ ip ∷ [] }
  | none ↦ elim (parse_cidr pattern) [
    | some inet ↦ record c { inets = c.inets ++ inet ∷ [] }
    | none ↦
        if contains_any pattern (b'*' ∷ b'?' ∷ [])
        then record c { wildcards = c.wildcards ++ pattern ∷ [] }
        else record c { domains = c.domains ++ pattern ∷ [] }
  ]
]

unfoldable pub classify_all : List Text → Classes → Classes
classify_all [] c = c
classify_all (p ∷ ps) c = classify_all ps (classify p c)

abbrev pub no_classes : Classes
no_classes = record { ips = []; inets = []; domains = []; wildcards = [] }

-- What `reload` stores; `none` is the panic of glob.MustCompile.
unfoldable pub store : Libs → Options → Bool → Classes → Option Bypass
store libs o cancelled c =
    Option.map
      (λ w. record {
        ip_matcher = new_ip_matcher c.ips;
        cidr_matcher = new_cidr_matcher c.inets;
        domain_matcher = new_domain_matcher c.domains;
        wildcard_matcher = w;
        options = o;
        cancelled = cancelled;
      })
      (new_wildcard_matcher libs c.wildcards)

-- `load` returns no error, so `reload` returns none.
unfoldable pub reload : Libs → Options → Bool → ℕ → Option Bypass
reload libs o cancelled t =
    store libs o cancelled (classify_all (o.matchers ++ load_patterns o.loaders t) no_classes)

-- NewBypass at time t, and the period of the goroutine that it starts, if it starts one.
unfoldable pub new_bypass : Libs → List Setting → ℕ → Option (Bypass × Option ℕ)
new_bypass libs ss t =
    let o = apply_all ss zero_options in
    Option.map (λ bp. (bp, if ltb 0 o.period then some (reload_period o.period) else none))
      (reload libs o false t)

-- The goroutine: it stops when the context is done.
unfoldable pub period_reload : Libs → List Event → Bypass → Option Bypass
period_reload libs [] bp = some bp
period_reload libs (Event.done ∷ es) bp = some bp
period_reload libs (Event.tick t ∷ es) bp = elim (reload libs bp.options bp.cancelled t) [
  | none ↦ none
  | some bp' ↦ period_reload libs es bp'
]

unfoldable pub matched : Libs → Bypass → Text → Bool
matched libs bp addr = elim (parse_ip addr) [
  | some ip ↦ match_ip bp.ip_matcher addr || match_cidr libs bp.cidr_matcher addr
  | none ↦ match_domain bp.domain_matcher addr || match_wildcard bp.wildcard_matcher addr
]

-- `none` is the nil bypass.
unfoldable pub contains : Libs → Option Bypass → Text → Bool
contains libs none addr = false
contains libs (some bp) addr =
    if is_empty addr
    then false
    else let m = matched libs bp (strip_port addr) in
      not bp.options.whitelist && m || bp.options.whitelist && not m

-- Close, and the loaders that it closes.
unfoldable pub close : Bypass → Bypass × List Loader
close bp = (record bp { cancelled = true }, closed_loaders bp.options.loaders)
