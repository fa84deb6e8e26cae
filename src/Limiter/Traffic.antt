-- ===== src/Limiter/Traffic.antt =====
-- limiter/traffic/traffic.go and limiter/traffic/generator.go, the part for single connections: the
-- generator of the key "$$", and the cached limiters of the connections, by their rates.
use gost_x.Prelude.{
  ℕ, Bool, true, false, not, Option, none, some, List, [], ◌∷◌, ◌==◌, if◌then◌else◌,
}
use gost_x.Text.{Text}
use gost_x.Assoc.{Assoc, lookup, insert, delete}
use gost_x.Int64.{gt64}
pub mod Reload
pub mod Values
pub mod Table
pub mod Sides
pub mod Levels
pub mod Reloaded
pub mod Serving
pub mod Stable
pub mod Waiting
pub mod Rated
pub mod Positive
pub mod Handed
pub mod Words
mod Tests

-- limitGenerator, and the value of a line: bytes per second as 64-bit numbers.
pub record Rates : Type 0 where
  pub inward : ℕ
  pub outward : ℕ

pub record ConnLevel : Type 0 where
  pub generator : Option Rates
  pub ins : Assoc ℕ
  pub outs : Assoc ℕ

-- A limiter that a generator makes, by its rate; `none` is nil.
unfoldable pub made : ℕ → Option ℕ
made n = if gt64 n 0 then some n else none

-- The loop over Items of a cache, with Set.
unfoldable pub set_all : ℕ → Assoc ℕ → Assoc ℕ
set_all n [] = []
set_all n ((k, r) ∷ m) = (k, n) ∷ set_all n m

abbrev pub rates_of : Option Rates → Rates
rates_of none = record { inward = 0; outward = 0 }
rates_of (some g) = g

unfoldable pub reload_cache : ℕ → ℕ → Assoc ℕ → Assoc ℕ
reload_cache value old m =
    if not (gt64 value 0) then [] else if old == value then m else set_all old m

-- The second block of reload, for the value of the key "$$".
unfoldable pub reload_conns : Rates → ConnLevel → ConnLevel
reload_conns value c =
    let old = rates_of c.generator in
    record {
      generator = some value;
      ins = reload_cache value.inward old.inward c.ins;
      outs = reload_cache value.outward old.outward c.outs;
    }

unfoldable pub through_cache : Text → ℕ → Assoc ℕ → Option ℕ × Assoc ℕ
through_cache key rate m = elim (lookup key m) [
  | some r ↦ (some r, insert key r m)
  | none ↦ elim (made rate) [ none ↦ (none, m) | some n ↦ (some n, insert key n m) ]
]

-- The limiter of a single connection, in In and in Out.
unfoldable pub conn_in : Text → ConnLevel → Option ℕ × ConnLevel
conn_in key c =
    let (lim, m) = through_cache key (rates_of c.generator).inward c.ins in
    (lim, record c { ins = m })

unfoldable pub conn_out : Text → ConnLevel → Option ℕ × ConnLevel
conn_out key c =
    let (lim, m) = through_cache key (rates_of c.generator).outward c.outs in
    (lim, record c { outs = m })
