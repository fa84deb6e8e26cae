-- ===== src/Matcher/Sets.antt =====
-- The matchers as tests over the list that they were built from.
use gost_x.Prelude.{
  ℕ, zero, suc, ◌≡◌, refl, ◌∙◌, ap, Bool, true, false, ◌||◌, Option, none, some, Option-cases, inl,
  inr, List, [], ◌∷◌, map, is_empty, any, is_some, if◌then◌else◌, arith,
}
use gost_x.Text.{Text, eq_text}
use gost_x.Text.Labels.{find_suffix_never, parent, find_suffix, cut_label}
use gost_x.Assoc.{lookup, insert, has_key, lookup-insert}
use gost_x.Net.{ip_string, Ip}
use gost_x.Matcher.{Keys, add_keys, new_ip_matcher, match_ip}

abbrev pub is_in : List Text → Text → Bool
is_in ks k = any (λ j. eq_text j k) ks

pub or_assoc : (a b c : Bool) → ((a || b) || c) ≡ (a || (b || c))
or_assoc a b c = ground arith

pub or_comm : (a b : Bool) → (a || b) ≡ (b || a)
or_comm a b = ground arith

has_key-add_keys :
    (k : Text) (ks : List Text) (m : Keys) → has_key k (add_keys ks m) ≡ (is_in ks k || has_key k m)
unfolding add_keys
has_key-add_keys k [] m = refl
has_key-add_keys k (j ∷ ks) m =
    ground (arith, has_key-add_keys k ks (insert j tt m), lookup-insert j k tt m)

pub has_key-keys : (k : Text) (ks : List Text) → has_key k (add_keys ks []) ≡ is_in ks k
unfolding lookup
has_key-keys k ks = ground (arith, has_key-add_keys k ks [])

pub has_key_empty : (k : Text) (m : Keys) → is_empty m ≡ true → has_key k m ≡ false
unfolding lookup
has_key_empty k [] h = refl
has_key_empty k (x ∷ m) h = cc

any-map {ℓ κ} :
    {A : Type ℓ} {B : Type κ} (f : A → B) (p : B → Bool) (xs : List A)
    → any p (map f xs) ≡ any (λ x. p (f x)) xs
any-map f p [] = refl
any-map f p (x ∷ xs) = ap (λ b. p (f x) || b) (any-map f p xs)

-- An address matches exactly if it is the text of a listed address.
pub match_ip-new :
    (ips : List Ip) (addr : Text)
    → match_ip (new_ip_matcher ips) addr ≡ any (λ ip. eq_text (ip_string ip) addr) ips
unfolding match_ip new_ip_matcher
match_ip-new ips addr = ground (
  arith,
  has_key_empty addr (add_keys (map (λ ip. ip_string ip) ips) []),
  has_key-keys addr (map (λ ip. ip_string ip) ips),
  any-map (λ ip. ip_string ip) (λ j. eq_text j addr) ips,
)

-- The walk answers for a union if it answers for a part.
find_suffix-or :
    (f g h : Text → Option (Unit {0}))
    → ((k : Text) → is_some (f k) ≡ (is_some (g k) || is_some (h k)))
    → (n : ℕ) (s : Text)
    → is_some (find_suffix n f s) ≡ (is_some (find_suffix n g s) || is_some (find_suffix n h s))
unfolding find_suffix
find_suffix-or f g h e zero s = refl
find_suffix-or f g h e (suc n) s = elim (Option-cases (cut_label s)) [
  | inl q ↦ ground arith
  | inr ((up, rest), q) ↦ ground (arith, e up, find_suffix-or f g h e n rest)
]

abbrev pub only : Text → Text → Option (Unit {0})
only d k = if eq_text d k then some tt else none

abbrev pub in_list : List Text → Text → Option (Unit {0})
in_list ds k = if is_in ds k then some tt else none

pub find_suffix-any :
    (n : ℕ) (s : Text) (ds : List Text)
    → is_some (find_suffix n (in_list ds) s) ≡ any (λ d. is_some (find_suffix n (only d) s)) ds
find_suffix-any n s [] = ap is_some (find_suffix_never n s)
find_suffix-any n s (d ∷ ds) =
    find_suffix-or (in_list (d ∷ ds)) (only d) (in_list ds) (λ k. ground arith) n s
    ∙ ap (λ b. is_some (find_suffix n (only d) s) || b) (find_suffix-any n s ds)

-- What one domain pattern covers: itself, its subdomains if it begins with a dot, and the domain
-- behind its leading dot.
abbrev pub covers : Text → Text → Bool
covers d domain =
    (eq_text d domain || eq_text d (b'.' ∷ domain)) || is_some (parent (only d) domain)
