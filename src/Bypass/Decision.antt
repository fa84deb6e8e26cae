-- ===== src/Bypass/Decision.antt =====
-- What a bypass answers, after any number of reloads.
use gost_x.Prelude.{
  ℕ, ◌≡◌, ◌≢◌, refl, sym, ◌∙◌, ap, Bool, true, false, not, Option, some, Option-cases, inl, inr,
  List, [], ◌∷◌, ◌++◌, any, arith,
}
use gost_x.Text.{Text}
use gost_x.Net.{parse_ip, Libs, strip_port}
use gost_x.Matcher.{match_cidr, new_wildcard_matcher, new_cidr_matcher}
use gost_x.Matcher.Sets.{match_ip-new}
use gost_x.Matcher.Domain.{match_domain-covers}
use gost_x.Loader.{load_patterns, Event}
use gost_x.Bypass.{
  Options, Bypass, Classes, store, reload, matched, contains, period_reload, new_bypass, Setting,
  apply_all, zero_options,
}
use gost_x.Bypass.Rules.{
  classes, classify_all-classes, RangerIsUnion, rule_matches, address_rules, name_rules,
  match_wildcard-new,
}

matched-store :
    (libs : Libs) (o : Options) (c : Bool) (ps : List Text) (bp : Bypass) (host : Text)
    → RangerIsUnion libs
    → store libs o c (classes ps) ≡ some bp
    → matched libs bp host ≡ any (rule_matches libs host) ps
unfolding store matched new_cidr_matcher match_cidr
matched-store libs o c ps bp host law e =
    elim (Option-cases (new_wildcard_matcher libs (classes ps).wildcards)) [
      | inl q ↦ ground arith
      | inr (w, q) ↦ elim (Option-cases (parse_ip host)) [
        | inl n ↦ ground (
          arith,
          match_wildcard-new libs (classes ps).wildcards w host q,
          match_domain-covers (classes ps).domains host,
          name_rules libs host ps,
        )
        | inr (ip, n) ↦ ground (
          arith,
          match_ip-new (classes ps).ips host,
          law (classes ps).inets ip,
          address_rules libs host ip ps,
        )
      ]
    ]

-- The options and the mark of the context come out of a reload as they went in.
store_keeps :
    (libs : Libs) (o : Options) (c : Bool) (cs : Classes) (bp : Bypass)
    → store libs o c cs ≡ some bp
    → (bp.options ≡ o) × (bp.cancelled ≡ c)
unfolding store
store_keeps libs o c cs bp e = ground arith

abbrev pub patterns_at : Options → ℕ → List Text
patterns_at o t = o.matchers ++ load_patterns o.loaders t

reload-store :
    (libs : Libs) (o : Options) (c : Bool) (t : ℕ)
    → reload libs o c t ≡ store libs o c (classes (patterns_at o t))
unfolding reload
reload-store libs o c t = ap (store libs o c) (classify_all-classes (patterns_at o t))

-- The verdict turned round by the whitelist flag.
abbrev pub differ : Bool → Bool → Bool
differ true m = not m
differ false m = m

contains-reload :
    (libs : Libs) (o : Options) (c : Bool) (t : ℕ) (bp : Bypass) (addr : Text)
    → RangerIsUnion libs
    → reload libs o c t ≡ some bp
    → addr ≢ []
    → contains libs (some bp) addr
      ≡ differ o.whitelist (any (rule_matches libs (strip_port addr)) (patterns_at o t))
unfolding contains
contains-reload libs o c t bp [] law e ne = absurd (ne refl)
contains-reload libs o c t bp (a ∷ addr) law e ne =
    let s : store libs o c (classes (patterns_at o t)) ≡ some bp =
      sym (reload-store libs o c t) ∙ e in
    ground (
      arith,
      store_keeps libs o c (classes (patterns_at o t)) bp s,
      matched-store libs o c (patterns_at o t) bp (strip_port (a ∷ addr)) law s,
    )

-- The time of the last reload before the context is done.
abbrev pub last_tick : ℕ → List Event → ℕ
last_tick t [] = t
last_tick t (Event.done ∷ es) = t
last_tick t (Event.tick t' ∷ es) = last_tick t' es

period_reload-reload :
    (libs : Libs) (o : Options) (c : Bool) (t : ℕ) (es : List Event) (bp bp' : Bypass)
    → reload libs o c t ≡ some bp
    → period_reload libs es bp ≡ some bp'
    → reload libs o c (last_tick t es) ≡ some bp'
unfolding period_reload
period_reload-reload libs o c t [] bp bp' e r = ground arith
period_reload-reload libs o c t (Event.done ∷ es) bp bp' e r = ground arith
period_reload-reload libs o c t (Event.tick t' ∷ es) bp bp' e r =
    let k : (bp.options ≡ o) × (bp.cancelled ≡ c) =
      store_keeps libs o c (classes (patterns_at o t)) bp (sym (reload-store libs o c t) ∙ e) in
    elim (Option-cases (reload libs o c t')) [
      | inl q ↦ ground (arith, k.0, k.1, q)
      | inr (next, q) ↦ period_reload-reload libs o c t' es next bp' q (ground (arith, k.0, k.1, q))
    ]

-- A bypass that NewBypass made from the settings at time t, after any ticks of its reloading
-- goroutine, answers for a non-empty address whether one of the patterns of the last reload matches
-- the address without its port, turned round if the whitelist flag is set. A pattern that parses as
-- an IP address matches the address whose text is its canonical form, one that parses as a network
-- matches the addresses in it, and of the others one with * or ? matches names by its glob, the rest
-- the names that it covers as a domain. The networks of a cidranger are assumed to act as a union.
pub contains-period_reload :
    (libs : Libs) (ss : List Setting) (t : ℕ) (g : Option ℕ) (es : List Event) (bp bp' : Bypass)
    (addr : Text)
    → RangerIsUnion libs
    → new_bypass libs ss t ≡ some (bp, g)
    → period_reload libs es bp ≡ some bp'
    → addr ≢ []
    → contains libs (some bp') addr
      ≡ differ (apply_all ss zero_options).whitelist (
          any
            (rule_matches libs (strip_port addr))
            (patterns_at (apply_all ss zero_options) (last_tick t es)))
unfolding new_bypass
contains-period_reload libs ss t g es bp bp' addr law e r ne =
    contains-reload libs (apply_all ss zero_options) false (last_tick t es) bp' addr law
      (period_reload-reload libs (apply_all ss zero_options) false t es bp bp' (ground arith) r) ne
