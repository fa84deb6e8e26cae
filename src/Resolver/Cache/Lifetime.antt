-- ===== src/Resolver/Cache/Lifetime.antt =====
-- How long the cache keeps an answer.
use gost_x.Prelude.{
  ℕ, ◌-◌, ◌*◌, ◌<◌, ◌≤◌, ◌≡◌, ◌≢◌, refl, sym, ◌∙◌, ap, subst, false, ◌||◌, Bool-cases, none, some,
  inl, inr, List, [], ◌∷◌, All, ltb, ◌==◌, if◌then◌else◌, is_empty, arith,
}
use gost_x.Text.{Text, eq_text}
use gost_x.Assoc.{Assoc, lookup-insert}
use gost_x.Int64.{gt64}
use gost_x.Loader.{second}
use gost_x.Resolver.Cache.{Item, least_ttl, lifetime, store, load}

abbrev shorter : ℕ → ℕ → ℕ
shorter t a = if t == 0 || ltb (a * second) t then a * second else t

shorter_le :
    (t a : ℕ) → 0 < a → (0 < shorter t a) × (shorter t a ≤ a * second) × (0 < t → shorter t a ≤ t)
shorter_le t a p = (ground arith, ground arith, λ q. ground arith)

least_ttl-le :
    (t : ℕ) (as' : List ℕ)
    → 0 < t
    → All (λ a. 0 < a) as'
    → (0 < least_ttl t as') × (least_ttl t as' ≤ t)
unfolding least_ttl
least_ttl-le t [] p h = (p, omega arith)
least_ttl-le t (a ∷ as') p h =
    let s = shorter_le t a h.0 in
    let rest = least_ttl-le (shorter t a) as' s.0 h.1 in (rest.0, omega (arith, rest.1, s.2 p))

least_ttl-All :
    (t : ℕ) (as' : List ℕ) → All (λ a. 0 < a) as' → All (λ a. least_ttl t as' ≤ a * second) as'
unfolding least_ttl
least_ttl-All t [] h = tt
least_ttl-All t (a ∷ as') h =
    let s = shorter_le t a h.0 in
    (
      omega (arith, (least_ttl-le (shorter t a) as' s.0 h.1).1, s.1),
      least_ttl-All (shorter t a) as' h.1,
    )

nonempty : (key : Text) → key ≢ [] → is_empty key ≡ false
nonempty [] h = absurd (h refl)
nonempty (c ∷ key) h = refl

abbrev item {ℓ} : {M : Type ℓ} → ℕ → M → ℕ → (M → List ℕ) → Item M
item now mr ttl answers_of = record { msg = mr; ts = now; ttl = lifetime ttl (answers_of mr) }

-- Load behind a Store of a message under a key that is not empty, with a time to live that is not
-- negative: the message itself for that key until its lifetime is over and nothing from then on, and
-- what the cache held before for every other key.
pub load-store {ℓ} :
    {M : Type ℓ} (answers_of : M → List ℕ) (now now' ttl : ℕ) (key j : Text) (mr : M)
    (c : Assoc (Item M))
    → key ≢ []
    → gt64 0 ttl ≡ false
    → (load now' j (store answers_of now key (some mr) ttl c)).0 ≡ (
        if eq_text key j
        then (if ltb (lifetime ttl (answers_of mr)) (now' - now) then none else some mr)
        else (load now' j c).0)
unfolding load store
load-store answers_of now now' ttl key j mr c ne p = elim (Bool-cases (eq_text key j)) [
  | inl e ↦ ground (arith, nonempty key ne, lookup-insert key j (item now mr ttl answers_of) c)
  | inr e ↦ ground (arith, nonempty key ne, lookup-insert key j (item now mr ttl answers_of) c)
]

-- A message with at least one answer, all of them with a positive TTL, that is stored without a time to
-- live of its own, is kept no longer than the TTL of any of its answers.
pub lifetime-All :
    (a : ℕ) (as' : List ℕ)
    → All (λ b. 0 < b) (a ∷ as')
    → All (λ b. lifetime 0 (a ∷ as') ≤ b * second) (a ∷ as')
unfolding lifetime least_ttl
lifetime-All a as' h =
    subst (λ n. All (λ b. n ≤ b * second) (a ∷ as')) (sym same) (least_ttl-All 0 (a ∷ as') h)
  where
    positive : 0 < least_ttl 0 (a ∷ as')
    positive = (least_ttl-le (shorter 0 a) as' (shorter_le 0 a h.0).0 h.1).0

    same : lifetime 0 (a ∷ as') ≡ least_ttl 0 (a ∷ as')
    same = ground (arith, positive)

least_ttl_zero : (as' : List ℕ) → All (λ b. b ≡ 0) as' → least_ttl 0 as' ≡ 0
unfolding least_ttl
least_ttl_zero [] h = refl
least_ttl_zero (b ∷ as') h =
    ap (λ n. least_ttl n as') (ground (arith, h.0)) ∙ least_ttl_zero as' h.1

-- Stored without a time to live of its own, a message whose answers all have TTL 0, or that has no
-- answer, is kept for 30 seconds.
lifetime_zero : (as' : List ℕ) → All (λ b. b ≡ 0) as' → lifetime 0 as' ≡ 30 * second
unfolding lifetime
lifetime_zero as' h = ground (arith, least_ttl_zero as' h)
