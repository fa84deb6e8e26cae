-- ===== src/Bypass/Tests.antt =====
-- Bypasses on concrete tables.
use gost_x.Prelude.{
  ◌≡◌, refl, true, false, Bool, Option, none, some, [], ◌∷◌, List, arith, if◌then◌else◌, ◌==◌,
}
use gost_x.Samples.{libs, libs-RangerIsUnion}
use gost_x.Text.{Text, codes}
use gost_x.Code.{table_code}
use gost_x.Loader.{Loader, Event}
use gost_x.Bypass.{
  Bypass, Classes, Setting, matchers_option, file_loader_option, apply, apply_all, classify,
  classify_all, zero_options, store, reload, new_bypass, period_reload, matched, contains,
}
use gost_x.Bypass.Rules.{kind, glob_hits}
use gost_x.Bypass.Decision.{contains-period_reload}
use gost_x.Bypass.Address.{matched_upper_case}

-- The file has a second line from time 5 on.
abbrev file : Loader
file = record {
  lists = some (λ t. if t == 5 then codes "# more" ∷ codes " 192.168.1.1 # home" ∷ [] else []);
  maps = none;
  loads = λ t. none;
}

abbrev settings : List Setting
settings =
    matchers_option
      (codes "127.0.0.1" ∷ codes "10.0.0.0/8" ∷ codes ".example.com" ∷ codes "*.org" ∷ [])
    ∷ file_loader_option (some file)
    ∷ []

run : Option Bypass → Text → Bool
run bp addr = contains libs bp addr

made : Option Bypass
made = elim (new_bypass libs settings 0) [
  | none ↦ none
  | some (bp, g) ↦ period_reload libs (Event.tick 5 ∷ []) bp
]

yes_and_no :
    (run made (codes "192.168.1.1:80") ≡ true)
    × (run made (codes "10.1.2.3") ≡ true)
    × (run made (codes "11.1.2.3:22") ≡ false)
    × (run made (codes "a.b.example.com:443") ≡ true)
    × (run made (codes "x.org") ≡ true)
    × (run made (codes "x.net") ≡ false)
unfolding table_code run made libs new_bypass period_reload apply apply_all classify classify_all
    store reload matched contains
yes_and_no = (refl, refl, refl, refl, refl, refl)

abbrev blacklist : List Setting
blacklist = matchers_option (codes "fe80::1" ∷ codes ".go.dev" ∷ []) ∷ []

-- What NewBypass makes of `blacklist`.
abbrev listed : Bypass
listed = record {
  ip_matcher = record { ips = (codes "fe80::1", tt) ∷ [] };
  cidr_matcher = record { ranger = [] };
  domain_matcher = record { domains = (codes ".go.dev", tt) ∷ [] };
  wildcard_matcher = record { patterns = [] };
  options = record zero_options { matchers = codes "fe80::1" ∷ codes ".go.dev" ∷ [] };
  cancelled = false;
}

abbrev listed_classes : Classes
listed_classes = record {
  ips = (0xfe ∷ 0x80 ∷ 0 ∷ 0 ∷ 0 ∷ 0 ∷ 0 ∷ 0 ∷ 0 ∷ 0 ∷ 0 ∷ 0 ∷ 0 ∷ 0 ∷ 0 ∷ 1 ∷ []) ∷ [];
  inets = [];
  domains = codes ".go.dev" ∷ [];
  wildcards = [];
}

contains-period_reload_example : contains libs (some listed) (codes "pkg.go.dev:443") ≡ true
unfolding table_code libs new_bypass period_reload apply apply_all classify classify_all store
    reload kind glob_hits
contains-period_reload_example =
    contains-period_reload libs blacklist 0 none (Event.tick 7 ∷ []) listed listed
      (codes "pkg.go.dev:443") libs-RangerIsUnion refl refl (λ e. cc)

matched_upper_case_example : matched libs listed (codes "FE80::1") ≡ false
unfolding table_code libs store
matched_upper_case_example =
    matched_upper_case libs listed.options false listed_classes listed (codes "FE80::1")
      (0xfe ∷ 0x80 ∷ 0 ∷ 0 ∷ 0 ∷ 0 ∷ 0 ∷ 0 ∷ 0 ∷ 0 ∷ 0 ∷ 0 ∷ 0 ∷ 0 ∷ 0 ∷ 1 ∷ []) b'F' refl refl
      (omega arith) (omega arith) (λ h. absurd (h.0 refl))
