-- ===== src/Ingress.antt =====
-- ingress/ingress.go: the table that sends a host name to an endpoint.
pub mod Rules
pub mod Lookup
mod Tests
use gost_x.Prelude.{
  ℕ, Bool, true, false, not, Option, none, some, List, [], ◌∷◌, ◌++◌, map, select, is_empty, ltb,
  ◌==◌, if◌then◌else◌,
}
use gost_x.Text.{Text, line_fields}
use gost_x.Text.Labels.{parent}
use gost_x.Assoc.{Assoc, lookup, insert}
use gost_x.Net.{strip_port}
use gost_x.Loader.{Loader, Loaders, no_loaders, Event, closed_loaders, reload_period}

pub record Rule : Type 0 where
  pub hostname : Text
  pub endpoint : Text

abbrev pub zero_rule : Rule
zero_rule = record { hostname = []; endpoint = [] }

pub record Options : Type 0 where
  pub rules : List Rule
  pub loaders : Loaders
  pub period : ℕ

-- The values of type Option, each by the function that makes it.
pub data Setting : Type 0 where
  rules_option : List Rule → Setting
  reload_period_option : ℕ → Setting
  file_loader_option redis_loader_option http_loader_option : Option Loader → Setting

unfoldable pub apply : Setting → Options → Options
apply (rules_option rs) o = record o { rules = rs }
apply (reload_period_option p) o = record o { period = p }
apply (file_loader_option l) o = record o { loaders = record o.loaders { file = l } }
apply (redis_loader_option l) o = record o { loaders = record o.loaders { redis = l } }
apply (http_loader_option l) o = record o { loaders = record o.loaders { http = l } }

unfoldable pub apply_all : List Setting → Options → Options
apply_all [] o = o
apply_all (s ∷ ss) o = apply_all ss (apply s o)

abbrev pub zero_options : Options
zero_options = record { rules = []; loaders = no_loaders; period = 0 }

pub record Ingress : Type 0 where
  pub rules : Assoc Rule
  pub options : Options
  pub cancelled : Bool

-- A line with fewer than two words gives the zero rule.
unfoldable pub parse_line : Text → Rule
parse_line s = elim (line_fields s) [
  | [] ↦ zero_rule
  | h ∷ [] ↦ zero_rule
  | h ∷ (e ∷ rest) ↦ record { hostname = h; endpoint = e }
]

abbrev named : Rule → Bool
named r = not (is_empty r.hostname)

-- The reader as its lines; `none` is nil.
unfoldable pub parse_rules : Option (List Text) → List Rule
parse_rules none = []
parse_rules (some lines) = select named (map parse_line lines)

-- The loaders of files and of redis are read alike; the rules of a list are all taken.
unfoldable pub load_one : Option Loader → ℕ → List Rule
load_one none t = []
load_one (some l) t = elim l.lists [
  | some list ↦ map parse_line (list t)
  | none ↦ parse_rules (l.loads t)
]

unfoldable pub load_http : Option Loader → ℕ → List Rule
load_http none t = []
load_http (some l) t = parse_rules (l.loads t)

unfoldable pub load : Loaders → ℕ → List Rule
load l t = load_one l.file t ++ load_one l.redis t ++ load_http l.http t

-- A leading '*' is dropped from the host name.
unfoldable pub key : Text → Text
key [] = []
key (c ∷ s) = if c == b'*' then s else c ∷ s

-- The function `fn` of `reload`.
unfoldable pub add_rule : Rule → Assoc Rule → Assoc Rule
add_rule r m =
    if is_empty r.hostname
    then m
    else if is_empty r.endpoint
    then m
    else insert (key r.hostname) r m

unfoldable pub add_rules : List Rule → Assoc Rule → Assoc Rule
add_rules [] m = m
add_rules (r ∷ rs) m = add_rules rs (add_rule r m)

-- `load` returns no error, so `reload` returns none.
unfoldable pub reload : Options → Bool → ℕ → Ingress
reload o cancelled t = record {
  rules = add_rules (load o.loaders t) (add_rules o.rules []);
  options = o;
  cancelled = cancelled;
}

-- NewIngress at time t, and the period of the goroutine that it starts, if it starts one.
unfoldable pub new_ingress : List Setting → ℕ → Ingress × Option ℕ
new_ingress ss t =
    let o = apply_all ss zero_options in
    (reload o false t, if ltb 0 o.period then some (reload_period o.period) else none)

-- The goroutine: it stops when the context is done.
unfoldable pub period_reload : List Event → Ingress → Ingress
period_reload [] ing = ing
period_reload (Event.done ∷ es) ing = ing
period_reload (Event.tick t ∷ es) ing = period_reload es (reload ing.options ing.cancelled t)

-- ing.rules[host].Endpoint, the empty text for a missing host.
unfoldable pub lookup_endpoint : Assoc Rule → Text → Text
lookup_endpoint m host = elim (lookup host m) [ none ↦ [] | some r ↦ r.endpoint ]

-- An endpoint that is not empty.
unfoldable pub answer : Assoc Rule → Text → Option Text
answer m host = let e = lookup_endpoint m host in if is_empty e then none else some e

-- The three lookups of Get.
unfoldable pub search_rules : Assoc Rule → Text → Text
search_rules m host = elim (answer m host) [
  | some e ↦ e
  | none ↦ elim (answer m (b'.' ∷ host)) [
    | some e ↦ e
    | none ↦ elim (parent (answer m) host) [ some e ↦ e | none ↦ [] ]
  ]
]

-- `none` is the nil ingress.
unfoldable pub get : Option Ingress → Text → Text
get none host = []
get (some ing) host =
    if is_empty host
    then []
    else if is_empty ing.rules
    then []
    else search_rules ing.rules (strip_port host)

-- Close, and the loaders that it closes.
unfoldable pub close : Ingress → Ingress × List Loader
close ing = (record ing { cancelled = true }, closed_loaders ing.options.loaders)
