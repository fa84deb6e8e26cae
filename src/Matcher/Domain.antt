-- ===== src/Matcher/Domain.antt =====
-- The domain matcher against its description: a plain domain matches itself, and '.example.com'
-- matches example.com and every subdomain.
use gost_x.Prelude.{
  suc, ◌≡◌, refl, sym, ◌∙◌, ap, Bool, true, false, ◌||◌, fun_ext, none, some, List, [], ◌∷◌, ◌++◌,
  any, is_some, if◌then◌else◌, arith, length, All, length-append,
}
use gost_x.Text.{Text, eq_text}
use gost_x.Text.Labels.{
  find_suffix_never, parent, IsLabel, dotted, first_dotted, find_suffix-first_dotted, length-dotted,
}
use gost_x.Assoc.{has_key, lookup}
use gost_x.Matcher.{Keys, add_keys, new_domain_matcher, match_domain, found}
use gost_x.Matcher.Sets.{is_in, covers, only, in_list, find_suffix-any, has_key-keys, or_assoc}

-- The matcher's set answers as the list does.
found-keys : (ds : List Text) → found (add_keys ds []) ≡ in_list ds
found-keys ds = fun_ext (λ k. ap (λ b. if b then some tt else none) (has_key-keys k ds))

match_domain-map :
    (m : Keys) (domain : Text)
    → match_domain (record { domains = m }) domain
      ≡ ((has_key domain m || has_key (b'.' ∷ domain) m) || is_some (parent (found m) domain))
unfolding match_domain lookup
match_domain-map [] domain = sym (ap is_some (find_suffix_never (suc (length domain)) domain))
match_domain-map (x ∷ m) domain = tests (has_key domain (x ∷ m)) (has_key (b'.' ∷ domain) (x ∷ m)) _
  where
    tests : (a b c : Bool) → (if a then true else if b then true else c) ≡ ((a || b) || c)
    tests a b c = ground arith

match_domain-parts :
    (ds : List Text) (domain : Text)
    → match_domain (new_domain_matcher ds) domain
      ≡ ((is_in ds domain || is_in ds (b'.' ∷ domain)) || is_some (parent (in_list ds) domain))
unfolding new_domain_matcher
match_domain-parts ds domain =
    match_domain-map (add_keys ds []) domain
    ∙ cc (
      has_key-keys domain ds,
      has_key-keys (b'.' ∷ domain) ds,
      ap (λ f. parent f domain) (found-keys ds),
    )

any-or {ℓ} :
    {A : Type ℓ} (p q : A → Bool) (xs : List A) → any (λ x. p x || q x) xs ≡ (any p xs || any q xs)
any-or p q [] = refl
any-or p q (x ∷ xs) = ground (arith, any-or p q xs)

-- A domain matches exactly if one of the patterns covers it.
pub match_domain-covers :
    (ds : List Text) (domain : Text)
    → match_domain (new_domain_matcher ds) domain ≡ any (λ d. covers d domain) ds
match_domain-covers ds domain = ground (
  arith,
  match_domain-parts ds domain,
  find_suffix-any (suc (length domain)) domain ds,
  any-or (λ d. eq_text d domain || eq_text d (b'.' ∷ domain))
      (λ d. is_some (parent (only d) domain)) ds,
  any-or (λ d. eq_text d domain) (λ d. eq_text d (b'.' ∷ domain)) ds,
)

-- A parent domain as the labels give it.
abbrev pub covers_labels : Text → List Text → Bool
covers_labels d [] = false
covers_labels d (l ∷ ls) = eq_text d (dotted (l ∷ ls)) || covers_labels d ls

first_dotted-only :
    (d : Text) (ls : List Text) → is_some (first_dotted (only d) ls) ≡ covers_labels d ls
first_dotted-only d [] = refl
first_dotted-only d (l ∷ ls) = ground (arith, first_dotted-only d ls)

-- A name of labels l.ls is covered by a pattern exactly if the pattern is the name, "." and the name,
-- or "." and what is left of the name without one or more of its first labels.
pub covers_lem :
    (d l : Text) (ls : List Text)
    → IsLabel l
    → All IsLabel ls
    → covers d (l ++ dotted ls)
      ≡ ((eq_text d (l ++ dotted ls) || eq_text d (b'.' ∷ (l ++ dotted ls))) || covers_labels d ls)
covers_lem d l ls h hs =
    ap (λ b. (eq_text d (l ++ dotted ls) || eq_text d (b'.' ∷ (l ++ dotted ls))) || b)
      (ap is_some (
          find_suffix-first_dotted (only d) (suc (length (l ++ dotted ls))) l ls h hs
            (omega (arith, length-dotted ls, length-append l (dotted ls))))
        ∙ first_dotted-only d ls)

-- A pattern names a domain: it is the domain, or "." and the domain without some first labels.
abbrev pub names : Text → Text → List Text → Bool
names d l ls = eq_text d (l ++ dotted ls) || covers_labels d (l ∷ ls)

-- For a domain of non-empty labels l.ls, DomainMatcher(ds).Match answers true exactly if some
-- pattern of ds is the domain itself, or is a dot and then the domain or one of its parent domains.
pub match_domain-names :
    (ds : List Text) (l : Text) (ls : List Text)
    → IsLabel l
    → All IsLabel ls
    → match_domain (new_domain_matcher ds) (l ++ dotted ls) ≡ any (λ d. names d l ls) ds
match_domain-names ds l ls h hs =
    match_domain-covers ds (l ++ dotted ls)
    ∙ ap (λ p. any p ds)
        (fun_ext λ d.
          covers_lem d l ls h hs
          ∙ or_assoc (eq_text d (l ++ dotted ls)) (eq_text d (dotted (l ∷ ls)))
              (covers_labels d ls))
