-- ===== src/Resolver/Cache/Tests.antt =====
-- The cache on messages that are lists of TTLs.
use gost_x.Prelude.{ℕ, ◌*◌, ◌≤◌, ◌≡◌, refl, false, none, some, List, [], ◌∷◌, arith}
use gost_x.Text.{codes, eq_text}
use gost_x.Int64.{gt64}
use gost_x.Loader.{second}
use gost_x.Resolver.Cache.{least_ttl, lifetime, store, load}
use gost_x.Resolver.Cache.Lifetime.{load-store, lifetime-All}

abbrev ttls : List ℕ → List ℕ
ttls m = m

-- An answer with TTL 0 in front of one with TTL 5: the message is kept for 5 seconds.
kept_five : lifetime 0 (0 ∷ 5 ∷ []) ≡ 5 * second
unfolding lifetime least_ttl
kept_five = refl

zero_lem : gt64 0 0 ≡ false
unfolding gt64
zero_lem = refl

load-store_example :
    (load (3 * second) (codes "a.IN.A") (store ttls 0 (codes "a.IN.A") (some (9 ∷ 2 ∷ [])) 0 [])).0
    ≡ none
unfolding eq_text lifetime least_ttl
load-store_example =
    load-store ttls 0 (3 * second) 0 (codes "a.IN.A") (codes "a.IN.A") (9 ∷ 2 ∷ []) [] (λ e. cc e)
      zero_lem

lifetime-All_example :
    (lifetime 0 (9 ∷ 2 ∷ []) ≤ 9 * second) × ((lifetime 0 (9 ∷ 2 ∷ []) ≤ 2 * second) × Unit {0})
lifetime-All_example = lifetime-All 9 (2 ∷ []) (omega arith, (omega arith, tt))
