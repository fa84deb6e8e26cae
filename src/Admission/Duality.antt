-- ===== src/Admission/Duality.antt =====
-- Admission and bypass over the same rules.
use gost_x.Prelude.{
  ℕ, ◌≡◌, ◌≢◌, refl, Bool, not, some, Option-cases, inl, inr, List, [], ◌∷◌, ◌++◌, arith,
}
use gost_x.Text.{Text}
use gost_x.Net.{parse_ip, Libs, Ip, strip_port}
use gost_x.Matcher.{new_wildcard_matcher}
use gost_x.Loader.{load_patterns}
use gost_x.Bypass.{Bypass, contains}
use gost_x.Bypass
use gost_x.Admission.{
  Options, Classes, classify, classify_all, no_classes, store, reload, matched, admit,
}

-- Both tables sort addresses and networks out alike.
record Alike (a : Classes) (b : Bypass.Classes) : Type 0 where
  ips : a.ips ≡ b.ips
  inets : a.inets ≡ b.inets

classify-Alike :
    (p : Text) (a : Classes) (b : Bypass.Classes)
    → Alike a b
    → Alike (classify p a) (Bypass.classify p b)
unfolding classify Bypass.classify
classify-Alike p a b h = ground (arith, h.ips, h.inets)

classify_all-Alike :
    (ps : List Text) (a : Classes) (b : Bypass.Classes)
    → Alike a b
    → Alike (classify_all ps a) (Bypass.classify_all ps b)
unfolding classify_all Bypass.classify_all
classify_all-Alike [] a b h = h
classify_all-Alike (p ∷ ps) a b h = classify_all-Alike ps _ _ (classify-Alike p a b h)

admit-store :
    (libs : Libs) (o : Options) (o' : Bypass.Options) (c c' : Bool) (a : Classes)
    (b : Bypass.Classes) (bp : Bypass) (addr : Text) (ip : Ip)
    → Alike a b
    → o.whitelist ≡ o'.whitelist
    → Bypass.store libs o' c' b ≡ some bp
    → parse_ip (strip_port addr) ≡ some ip
    → addr ≢ []
    → admit libs (some (store o c a)) addr ≡ not (contains libs (some bp) addr)
unfolding admit contains Bypass.store store matched Bypass.matched
admit-store libs o o' c c' a b bp [] ip h w e p ne = absurd (ne refl)
admit-store libs o o' c c' a b bp (x ∷ addr) ip h w e p ne =
    elim (Option-cases (new_wildcard_matcher libs b.wildcards)) [
      | inl q ↦ ground arith
      | inr (m, q) ↦ ground (arith, h.ips, h.inets)
    ]

-- Over the same matchers, loaders and whitelist flag, a client whose address has an IP address for a
-- host is admitted exactly if the address is not bypassed.
pub admit-contains :
    (libs : Libs) (o : Options) (o' : Bypass.Options) (c c' : Bool) (t : ℕ) (bp : Bypass)
    (addr : Text) (ip : Ip)
    → o.whitelist ≡ o'.whitelist
    → o.matchers ≡ o'.matchers
    → o.loaders ≡ o'.loaders
    → Bypass.reload libs o' c' t ≡ some bp
    → parse_ip (strip_port addr) ≡ some ip
    → addr ≢ []
    → admit libs (some (reload o c t)) addr ≡ not (contains libs (some bp) addr)
unfolding reload Bypass.reload
admit-contains libs o o' c c' t bp addr ip w m l e p ne =
    admit-store libs o o' c c' _ _ bp addr ip (rw same alike) w e p ne
  where
    same : (o.matchers ++ load_patterns o.loaders t) ≡ (o'.matchers ++ load_patterns o'.loaders t)
    same = cc

    alike :
        Alike
          (classify_all (o'.matchers ++ load_patterns o'.loaders t) no_classes)
          (Bypass.classify_all (o'.matchers ++ load_patterns o'.loaders t) Bypass.no_classes)
    alike = classify_all-Alike _ no_classes Bypass.no_classes (record { ips = refl; inets = refl })
