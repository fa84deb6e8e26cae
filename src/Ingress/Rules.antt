-- ===== src/Ingress/Rules.antt =====
-- The table that the rules make.
use gost_x.Prelude.{
  ℕ, ◌≡◌, refl, Bool, ◌&&◌, not, Option, none, some, List, [], ◌∷◌, ◌++◌, is_empty, ◌||◌, ◌==◌,
  Bool-cases, inl, inr, if◌then◌else◌, arith, or_else, All,
}
use gost_x.Text.{Text, eq_text}
use gost_x.Text.Words.{IsWord, unwords, line_fields-unwords}
use gost_x.Assoc.{Assoc, lookup, lookup-insert}
use gost_x.Ingress.{Rule, Options, parse_line, key, add_rule, add_rules, load, reload}

-- A host name is for a key if it is '*' with the key behind it, or the key itself, when that has no '*'
-- in front.
abbrev pub names : Text → Text → Bool
names [] h = eq_text h [] || eq_text h (b'*' ∷ [])
names (c ∷ k) h = (not (c == b'*') && eq_text h (c ∷ k)) || eq_text h (b'*' ∷ c ∷ k)

-- A rule is for a key if both of its parts are filled and its host name is for it.
abbrev pub is_for : Text → Rule → Bool
is_for k r = (not (is_empty r.hostname) && not (is_empty r.endpoint)) && names k r.hostname

names-key : (k h : Text) → eq_text (key h) k ≡ names k h
unfolding key eq_text
names-key [] [] = refl
names-key [] (d ∷ h) = ground arith
names-key (c ∷ k) [] = ground arith
names-key (c ∷ k) (d ∷ h) = elim (Bool-cases (d == b'*')) [
  | inl e ↦ rw e (ground (arith, e))
  | inr e ↦ rw e (ground (arith, e))
]

-- The last rule for a key.
abbrev pub last_for : Text → List Rule → Option Rule
last_for k [] = none
last_for k (r ∷ rs) = or_else (last_for k rs) (if is_for k r then some r else none)

lookup-add_rule :
    (k : Text) (r : Rule) (m : Assoc Rule)
    → lookup k (add_rule r m) ≡ (if is_for k r then some r else lookup k m)
unfolding add_rule
lookup-add_rule k r m = ground (arith, lookup-insert (key r.hostname) k r m, names-key k r.hostname)

lookup-add_rules :
    (k : Text) (rs : List Rule) (m : Assoc Rule)
    → lookup k (add_rules rs m) ≡ or_else (last_for k rs) (lookup k m)
unfolding add_rules
lookup-add_rules k [] m = refl
lookup-add_rules k (r ∷ rs) m =
    ground (arith, lookup-add_rules k rs (add_rule r m), lookup-add_rule k r m)

last_for-append :
    (k : Text) (rs ss : List Rule) → last_for k (rs ++ ss) ≡ or_else (last_for k ss) (last_for k rs)
last_for-append k [] ss = ground arith
last_for-append k (r ∷ rs) ss = ground (arith, last_for-append k rs ss)

-- After a reload the table has for each host name the last rule for it among the configured and then
-- the loaded rules; a rule with an empty part counts for none. A rule is for a host name if its own is
-- that name, or that name with '*' in front; one '*' in front is always cut, so that a name with a '*' in
-- front has only the rules with two.
pub lookup-reload :
    (o : Options) (c : Bool) (t : ℕ) (k : Text)
    → lookup k (reload o c t).rules ≡ last_for k (o.rules ++ load o.loaders t)
unfolding reload lookup
lookup-reload o c t k = ground (
  arith,
  lookup-add_rules k (load o.loaders t) (add_rules o.rules []),
  lookup-add_rules k o.rules [],
  last_for-append k o.rules (load o.loaders t),
)

-- A line of two or more words is the rule that sends the first to the second.
parse_line-two_words :
    (h e : Text) (rest : List Text)
    → IsWord h
    → IsWord e
    → All IsWord rest
    → parse_line (unwords (h ∷ e ∷ rest)) ≡ record { hostname = h; endpoint = e }
unfolding parse_line
parse_line-two_words h e rest hh he hr =
    ground (arith, line_fields-unwords h (e ∷ rest) hh (he, hr))
