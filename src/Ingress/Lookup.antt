-- ===== src/Ingress/Lookup.antt =====
-- What Get answers.
use gost_x.Prelude.{
  ℕ, suc, ◌≡◌, refl, sym, ◌∙◌, ap, true, Option, none, some, List, [], ◌∷◌, ◌++◌, is_empty, arith,
  or_else, All, length, length-append,
}
use gost_x.Text.{Text}
use gost_x.Text.Labels.{
  find_suffix_never, IsLabel, dotted, first_dotted, find_suffix-first_dotted, length-dotted,
}
use gost_x.Assoc.{Assoc, lookup}
use gost_x.Net.{strip_port}
use gost_x.Net.HostPort.{IsPlain, strip_port-append, strip_port_plain}
use gost_x.Ingress.{Rule, Ingress, lookup_endpoint, answer, search_rules, get}

abbrev pub text_of : Option Text → Text
text_of none = []
text_of (some e) = e

search_rules-first :
    (m : Assoc Rule) (l : Text) (ls : List Text)
    → IsLabel l
    → All IsLabel ls
    → search_rules m (l ++ dotted ls)
      ≡ text_of (or_else (answer m (l ++ dotted ls)) (first_dotted (answer m) (l ∷ ls)))
unfolding search_rules
search_rules-first m l ls h hs = ground (
  arith,
  find_suffix-first_dotted (answer m) (suc (length (l ++ dotted ls))) l ls h hs
      (omega (arith, length-dotted ls, length-append l (dotted ls))),
)

search_rules-empty : (m : Assoc Rule) (k : Text) → is_empty m ≡ true → search_rules m k ≡ []
unfolding search_rules answer lookup_endpoint lookup
search_rules-empty [] k e = ground (arith, find_suffix_never {A = Text} (suc (length k)) k)
search_rules-empty (x ∷ m) k e = cc

-- An empty table is searched in vain, so its test in Get changes nothing.
get_plain :
    (ing : Ingress) (c : ℕ) (host : Text)
    → get (some ing) (c ∷ host) ≡ search_rules ing.rules (strip_port (c ∷ host))
unfolding get
get_plain ing c host = ground (arith, search_rules-empty ing.rules (strip_port (c ∷ host)))

-- For a host name of labels, with or without a port, Get answers with the endpoint of the most
-- specific rule that has one: the name's own, then those of ".name" and of ".parent" for its parent
-- domains, the longest first; the empty text if there is none.
pub get-first :
    (ing : Ingress) (l : Text) (ls : List Text) (port : Text)
    → IsLabel l
    → All IsLabel ls
    → IsPlain (l ++ dotted ls)
    → IsPlain port
    → (get (some ing) (l ++ dotted ls)
        ≡ text_of (
            or_else (answer ing.rules (l ++ dotted ls)) (first_dotted (answer ing.rules) (l ∷ ls))))
      × (get (some ing) ((l ++ dotted ls) ++ b':' ∷ port) ≡ get (some ing) (l ++ dotted ls))
get-first ing [] ls port h hs p q = absurd (h.0 refl)
get-first ing (c ∷ l) ls port h hs p q = (
  plain,
  get_plain ing c _ ∙ ap (search_rules ing.rules) stripped ∙ sym (get_plain ing c (l ++ dotted ls)),
)
  where
    plain :
        get (some ing) (c ∷ (l ++ dotted ls))
        ≡ text_of (
            or_else
              (answer ing.rules (c ∷ (l ++ dotted ls)))
              (first_dotted (answer ing.rules) ((c ∷ l) ∷ ls)))
    plain =
        get_plain ing c (l ++ dotted ls)
        ∙ ap (search_rules ing.rules) (strip_port_plain (c ∷ (l ++ dotted ls)) p.colon)
        ∙ search_rules-first ing.rules (c ∷ l) ls h hs

    stripped :
        strip_port ((c ∷ (l ++ dotted ls)) ++ b':' ∷ port) ≡ strip_port (c ∷ (l ++ dotted ls))
    stripped =
        strip_port-append (c ∷ (l ++ dotted ls)) port p (λ e. cc) q
        ∙ sym (strip_port_plain (c ∷ (l ++ dotted ls)) p.colon)
