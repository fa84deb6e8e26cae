-- ===== src/Admission.antt =====
-- admission/admission.go: the rule table that says which clients are admitted.
pub mod Duality
pub mod Listener
pub mod Packets
mod Tests
use gost_x.Prelude.{
  ℕ, Bool, true, false, ◌&&◌, ◌||◌, not, Option, none, some, List, [], ◌∷◌, ◌++◌, is_empty, ltb,
  if◌then◌else◌,
}
use gost_x.Text.{Text}
use gost_x.Net.{parse_ip, parse_cidr, ip_string, Libs, Ip, IpNet, strip_port}
use gost_x.Loader.{Loader, Loaders, no_loaders, Event, load_patterns, closed_loaders, reload_period}
use gost_x.Matcher.{IpMatcher, CidrMatcher, new_ip_matcher, new_cidr_matcher, match_ip, match_cidr}

pub record Options : Type 0 where
  pub whitelist : Bool
  pub matchers : List Text
  pub loaders : Loaders
  pub period : ℕ

-- The values of type Option, each by the function that makes it.
pub data Setting : Type 0 where
  whitelist_option : Bool → Setting
  matchers_option : List Text → Setting
  reload_period_option : ℕ → Setting
  file_loader_option redis_loader_option http_loader_option : Option Loader → Setting

unfoldable pub apply : Setting → Options → Options
apply (whitelist_option b) o = record o { whitelist = b }
apply (matchers_option ms) o = record o { matchers = ms }
apply (reload_period_option p) o = record o { period = p }
apply (file_loader_option l) o = record o { loaders = record o.loaders { file = l } }
apply (redis_loader_option l) o = record o { loaders = record o.loaders { redis = l } }
apply (http_loader_option l) o = record o { loaders = record o.loaders { http = l } }

unfoldable pub apply_all : List Setting → Options → Options
apply_all [] o = o
apply_all (s ∷ ss) o = apply_all ss (apply s o)

abbrev pub zero_options : Options
zero_options = record { whitelist = false; matchers = []; loaders = no_loaders; period = 0 }

pub record Admission : Type 0 where
  pub ip_matcher : IpMatcher
  pub cidr_matcher : CidrMatcher
  pub options : Options
  pub cancelled : Bool

pub record Classes : Type 0 where
  pub ips : List Ip
  pub inets : List IpNet

-- One round of the loop over the patterns; what is no address and no network is dropped.
unfoldable pub classify : Text → Classes → Classes
classify pattern c = elim (parse_ip pattern) [
  | some ip ↦ record c { ips = c.ips ++ ip ∷ [] }
  | none ↦ elim (parse_cidr pattern) [
    | some inet ↦ record c { inets = c.inets ++ inet ∷ [] }
    | none ↦ c
  ]
]

unfoldable pub classify_all : List Text → Classes → Classes
classify_all [] c = c
classify_all (p ∷ ps) c = classify_all ps (classify p c)

abbrev pub no_classes : Classes
no_classes = record { ips = []; inets = [] }

-- What `reload` stores.
unfoldable pub store : Options → Bool → Classes → Admission
store o cancelled c = record {
  ip_matcher = new_ip_matcher c.ips;
  cidr_matcher = new_cidr_matcher c.inets;
  options = o;
  cancelled = cancelled;
}

unfoldable pub reload : Options → Bool → ℕ → Admission
reload o cancelled t =
    store o cancelled (classify_all (o.matchers ++ load_patterns o.loaders t) no_classes)

-- NewAdmission at time t, and the period of the goroutine that it starts, if it starts one.
unfoldable pub new_admission : List Setting → ℕ → Admission × Option ℕ
new_admission ss t =
    let o = apply_all ss zero_options in
    (reload o false t, if ltb 0 o.period then some (reload_period o.period) else none)

-- The goroutine: it stops when the context is done.
unfoldable pub period_reload : List Event → Admission → Admission
period_reload [] p = p
period_reload (Event.done ∷ es) p = p
period_reload (Event.tick t ∷ es) p = period_reload es (reload p.options p.cancelled t)

unfoldable pub matched : Libs → Admission → Text → Bool
matched libs p addr = match_ip p.ip_matcher addr || match_cidr libs p.cidr_matcher addr

-- `none` is the nil admission.
unfoldable pub admit : Libs → Option Admission → Text → Bool
admit libs none addr = true
admit libs (some p) addr =
    if is_empty addr
    then true
    else let m = matched libs p (strip_port addr) in
      not p.options.whitelist && not m || p.options.whitelist && m

-- Close, and the loaders that it closes.
unfoldable pub close : Admission → Admission × List Loader
close p = (record p { cancelled = true }, closed_loaders p.options.loaders)
