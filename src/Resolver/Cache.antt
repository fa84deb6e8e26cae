-- ===== src/Resolver/Cache.antt =====
-- internal/util/resolver/cache.go: the cache of DNS answers.
use gost_x.Prelude.{
  ℕ, zero, suc, ◌+◌, ◌-◌, ◌*◌, Bool, true, false, ◌||◌, Option, none, some, List, [], ◌∷◌, ltb,
  ◌==◌, if◌then◌else◌, is_empty,
}
use gost_x.Text.{Text}
use gost_x.Assoc.{Assoc, lookup, insert, delete}
use gost_x.Int64.{gt64}
use gost_x.Loader.{second}
pub mod Lifetime
mod Tests

-- cacheItem, for any type M of DNS messages.
pub record Item {ℓ} (M : Type ℓ) : Type ℓ where
  pub msg : M
  pub ts : ℕ
  pub ttl : ℕ

-- The loop over the answers, whose Ttl is in seconds.
unfoldable pub least_ttl : ℕ → List ℕ → ℕ
least_ttl ttl [] = ttl
least_ttl ttl (a ∷ as') =
    let v = a * second in least_ttl (if ttl == 0 || ltb v ttl then v else ttl) as'

-- The time to live of Store, for its argument and the answers of the message.
unfoldable pub lifetime : ℕ → List ℕ → ℕ
lifetime ttl answers =
    let t = if ttl == 0 then least_ttl ttl answers else ttl in if t == 0 then 30 * second else t

module _ {ℓ} {M : Type ℓ} (answers_of : M → List ℕ) where
  -- Store at time now; `none` is the nil message. The times are in nanoseconds.
  unfoldable pub store : ℕ → Text → Option M → ℕ → Assoc (Item M) → Assoc (Item M)
  store now key none ttl c = c
  store now key (some mr) ttl c =
      if is_empty key || gt64 0 ttl
      then c
      else insert key (record { msg = mr; ts = now; ttl = lifetime ttl (answers_of mr) }) c

module _ {ℓ} {M : Type ℓ} where
  -- Load at time now.
  unfoldable pub load : ℕ → Text → Assoc (Item M) → Option M × Assoc (Item M)
  load now key c = elim (lookup key c) [
    | none ↦ (none, c)
    | some item ↦ if ltb item.ttl (now - item.ts) then (none, delete key c) else (some item.msg, c)
  ]
