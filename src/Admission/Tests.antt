-- ===== src/Admission/Tests.antt =====
-- Admissions on concrete tables.
use gost_x.Prelude.{◌≡◌, refl, true, false, not, some, [], ◌∷◌, List, All, ◌++◌}
use gost_x.Samples.{libs}
use gost_x.Text.{Text, codes}
use gost_x.Code.{table_code}
use gost_x.Bypass
use gost_x.Bypass.{Bypass}
use gost_x.Admission.{
  Admission, whitelist_option, matchers_option, apply, apply_all, zero_options, classify,
  classify_all, store, reload, new_admission, matched, admit,
}
use gost_x.Admission.Duality.{admit-contains}
use gost_x.Admission.Listener.{
  Incoming, fails, from, returned, accept, arrived, answered, accept-admit,
}

abbrev table : List Text
table = codes "192.168.0.0/16" ∷ codes "10.0.0.1" ∷ []

abbrev office : Admission
office = (new_admission (whitelist_option true ∷ matchers_option table ∷ []) 0).0

only_listed :
    (admit libs (some office) (codes "192.168.3.4:5000") ≡ true)
    × (admit libs (some office) (codes "10.0.0.2:80") ≡ false)
unfolding table_code libs new_admission apply apply_all classify classify_all store reload matched
    admit
only_listed = (refl, refl)

abbrev bypassed : Bypass
bypassed = record {
  ip_matcher = record { ips = (codes "10.0.0.1", tt) ∷ [] };
  cidr_matcher = record {
    ranger = record { ip = 192 ∷ 168 ∷ 0 ∷ 0 ∷ []; mask = 255 ∷ 255 ∷ 0 ∷ 0 ∷ [] } ∷ [];
  };
  domain_matcher = record { domains = [] };
  wildcard_matcher = record { patterns = [] };
  options = record Bypass.zero_options { matchers = table };
  cancelled = false;
}

admit-contains_example :
    admit libs
      (some (reload (record zero_options { matchers = table }) false 0))
      (codes "10.0.0.1:80")
    ≡ not (Bypass.contains libs (some bypassed) (codes "10.0.0.1:80"))
unfolding table_code libs Bypass.reload Bypass.store Bypass.classify_all Bypass.classify
admit-contains_example =
    admit-contains libs (record zero_options { matchers = table })
      (record Bypass.zero_options { matchers = table }) false false 0 bypassed (codes "10.0.0.1:80")
      (0 ∷ 0 ∷ 0 ∷ 0 ∷ 0 ∷ 0 ∷ 0 ∷ 0 ∷ 0 ∷ 0 ∷ 255 ∷ 255 ∷ 10 ∷ 0 ∷ 0 ∷ 1 ∷ []) refl refl refl refl
      refl (λ e. cc)

abbrev coming : List Incoming
coming = from (codes "10.0.0.2:80") ∷ from (codes "192.168.3.4:5000") ∷ fails ∷ []

one_closed : accept libs (some office) coming ≡ record {
  answer = returned (codes "192.168.3.4:5000");
  closed = codes "10.0.0.2:80" ∷ [];
  left = fails ∷ [];
}
unfolding table_code libs new_admission apply apply_all classify classify_all store reload matched
    admit accept
one_closed = refl

accept-admit_example :
    (arrived (accept libs (some office) coming).closed (
        answered (accept libs (some office) coming).answer
        ++ (accept libs (some office) coming).left)
      ≡ coming)
    × All (λ addr. admit libs (some office) addr ≡ false) (accept libs (some office) coming).closed
    × ((addr : Text)
        → (accept libs (some office) coming).answer ≡ returned addr
        → admit libs (some office) addr ≡ true)
accept-admit_example = accept-admit libs (some office) coming
