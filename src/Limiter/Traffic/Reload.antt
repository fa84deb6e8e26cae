-- ===== src/Limiter/Traffic/Reload.antt =====
-- The rate of a connection over a reload.
use gost_x.Prelude.{
  ℕ, ◌≡◌, refl, Option, none, some, Option-cases, inl, inr, [], ◌∷◌, ◌==◌, if◌then◌else◌, arith,
}
use mathlib.Core.Option
use gost_x.Text.{Text}
use gost_x.Assoc.{Assoc, lookup, lookup_nil}
use gost_x.Int64.{gt64}
use gost_x.Limiter.Traffic.{
  Rates, ConnLevel, made, set_all, rates_of, reload_cache, reload_conns, through_cache, conn_in,
  conn_out,
}

pub lookup-set_all :
    (key : Text) (n : ℕ) (m : Assoc ℕ)
    → lookup key (set_all n m) ≡ Option.map (λ r. n) (lookup key m)
unfolding lookup set_all
lookup-set_all key n [] = refl
lookup-set_all key n ((k, r) ∷ m) = ground (arith, lookup-set_all key n m)

-- The rate that a connection gets after a reload, for the rate it had in the cache, if it had one.
abbrev pub rate_after : (value old : ℕ) → Option ℕ → Option ℕ
rate_after value old none = if gt64 value 0 then some value else none
rate_after value old (some r) =
    if gt64 value 0 then some (if old == value then r else old) else none

through_cache-reload_cache :
    (key : Text) (value old : ℕ) (m : Assoc ℕ)
    → (through_cache key value (reload_cache value old m)).0 ≡ rate_after value old (lookup key m)
unfolding through_cache reload_cache made
through_cache-reload_cache key value old m = elim (Option-cases (lookup key m)) [
  | inl e ↦ ground (arith, lookup-set_all key old m, lookup_nil {V = ℕ} key)
  | inr (r, e) ↦ ground (arith, lookup-set_all key old m, lookup_nil {V = ℕ} key)
]

-- The rates of a connection right after a reload with the value of the key "$$". A connection that is
-- not in the cache gets the new rate. One that is in the cache keeps its rate if the reload brings the
-- rate of the generator before, and else gets the rate of the generator before the reload, not the new
-- one. With a rate that is not positive no connection is limited.
pub conn-reload_conns :
    (key : Text) (value : Rates) (c : ConnLevel)
    → ((conn_in key (reload_conns value c)).0
        ≡ rate_after value.inward (rates_of c.generator).inward (lookup key c.ins))
      × ((conn_out key (reload_conns value c)).0
          ≡ rate_after value.outward (rates_of c.generator).outward (lookup key c.outs))
unfolding conn_in conn_out reload_conns
conn-reload_conns key value c = (
  through_cache-reload_cache key value.inward (rates_of c.generator).inward c.ins,
  through_cache-reload_cache key value.outward (rates_of c.generator).outward c.outs,
)
