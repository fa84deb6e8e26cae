-- ===== src/Matcher/Tests.antt =====
-- The matchers on concrete tables.
use gost_x.Prelude.{◌≡◌, refl, arith, true, false, Bool, [], ◌∷◌, List}
use gost_x.Text.{Text, codes, eq_text}
use gost_x.Code.{text_code}
use gost_x.Matcher.{add_keys, new_domain_matcher, match_domain}
use gost_x.Matcher.Domain.{match_domain-names}

abbrev table : List Text
table = codes "example.com" ∷ codes ".go.dev" ∷ []

abbrev asks : Text → Bool
asks d = match_domain (new_domain_matcher table) d

exact : asks (codes "example.com") ≡ true
unfolding match_domain new_domain_matcher add_keys text_code
exact = refl

no_subdomain : asks (codes "www.example.com") ≡ false
unfolding match_domain new_domain_matcher add_keys text_code
no_subdomain = refl

subdomain : asks (codes "a.pkg.go.dev") ≡ true
unfolding match_domain new_domain_matcher add_keys text_code
subdomain = refl

match_domain-names_example : asks (codes "pkg.go.dev") ≡ true
unfolding eq_text
match_domain-names_example =
    match_domain-names table (codes "pkg") (codes "go" ∷ codes "dev" ∷ []) (λ e. cc, omega arith)
      ((λ e. cc, omega arith), ((λ e. cc, omega arith), tt))
