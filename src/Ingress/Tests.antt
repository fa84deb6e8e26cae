-- ===== src/Ingress/Tests.antt =====
-- Ingress tables on concrete rules.
use gost_x.Prelude.{◌≡◌, refl, false, none, some, [], ◌∷◌, ◌++◌, List, arith}
use gost_x.Text.{codes}
use gost_x.Code.{text_code, table_code}
use gost_x.Assoc.{lookup}
use gost_x.Ingress.{
  Rule, Options, Ingress, zero_options, load_one, load_http, load, key, add_rule, add_rules, reload,
  lookup_endpoint, answer, search_rules, get,
}
use gost_x.Ingress.Rules.{lookup-reload}
use gost_x.Ingress.Lookup.{get-first}

abbrev rules : List Rule
rules =
    record { hostname = codes "*.example.com"; endpoint = codes "one" }
    ∷ record { hostname = codes "www.example.com"; endpoint = codes "two" }
    ∷ record { hostname = codes ".example.com"; endpoint = codes "three" }
    ∷ []

abbrev options : Options
options = record zero_options { rules = rules }

abbrev table : Ingress
table = reload options false 0

answers :
    (get (some table) (codes "www.example.com") ≡ codes "two")
    × (get (some table) (codes "a.b.example.com:8080") ≡ codes "three")
    × (get (some table) (codes "example.com") ≡ codes "three")
    × (get (some table) (codes "example.org") ≡ [])
unfolding table_code load_one load_http load key add_rule add_rules reload lookup_endpoint answer
    search_rules get
answers = (refl, refl, refl, refl)

-- The last rule for ".example.com" is written with '*'; "**.example.com" is for another key.
abbrev starred : Options
starred = record zero_options {
  rules =
      rules
      ++ record { hostname = codes "*.example.com"; endpoint = codes "four" }
        ∷ record { hostname = codes "**.example.com"; endpoint = codes "five" }
        ∷ [];
}

two_stars :
    (lookup (codes "*.example.com") (reload starred false 0).rules
      ≡ some (record { hostname = codes "**.example.com"; endpoint = codes "five" }))
    × (lookup (codes "**.example.com") (reload starred false 0).rules ≡ none)
unfolding table_code load_one load_http load key add_rule add_rules reload
two_stars = (refl, refl)

lookup-reload_example :
    lookup (codes ".example.com") (reload starred false 0).rules
    ≡ some (record { hostname = codes "*.example.com"; endpoint = codes "four" })
unfolding text_code load_one load_http load
lookup-reload_example = lookup-reload starred false 0 (codes ".example.com")

get-first_example :
    (get (some table) (codes "x.example.com") ≡ codes "three")
    × (get (some table) (codes "x.example.com:80") ≡ get (some table) (codes "x.example.com"))
unfolding text_code load_one load_http load key add_rule add_rules reload lookup_endpoint answer
get-first_example =
    get-first table (codes "x") (codes "example" ∷ codes "com" ∷ []) (codes "80")
      (λ e. cc, omega arith) ((λ e. cc, omega arith), ((λ e. cc, omega arith), tt)) (omega arith)
      (omega arith)
