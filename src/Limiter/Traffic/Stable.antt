-- ===== src/Limiter/Traffic/Stable.antt =====
-- In and Out answer the same for a client as long as there is no reload.
use gost_x.Prelude.{
  ℕ, ◌≡◌, refl, ◌∙◌, Option-cases, inl, inr, List, [], ◌∷◌, or_else, arith, if◌then◌else◌,
}
use gost_x.Text.{Text, eq_text}
use gost_x.Text.Laws.{eq_text_iff}
use gost_x.Assoc.{Assoc, lookup, lookup-insert}
use gost_x.Net.{Libs}
use gost_x.Limiter.Traffic.{made, through_cache, rates_of, conn_in, conn_out}
use gost_x.Limiter.Traffic.Table.{TrafficLimiter, host_of, input, output}
use gost_x.Limiter.Traffic.Serving.{
  host_level-host_level, global-host_level, Ask, asks_in, asks_out, serve,
}

pub through_cache-made :
    (key : Text) (rate : ℕ) (m : Assoc ℕ)
    → (through_cache key rate m).0 ≡ or_else (lookup key m) (made rate)
unfolding through_cache
through_cache-made key rate m = ground arith

pub lookup-through_cache :
    (key j : Text) (rate : ℕ) (m : Assoc ℕ)
    → lookup j (through_cache key rate m).1
      ≡ (if eq_text key j then (through_cache key rate m).0 else lookup j m)
unfolding through_cache
lookup-through_cache key j rate m = elim (Option-cases (lookup key m)) [
  | inl e ↦ elim (Option-cases (made rate)) [
    | inl f ↦ ground (arith, eq_text_iff key j)
    | inr (n, f) ↦ ground (arith, eq_text_iff key j, lookup-insert key j n m)
  ]
  | inr (r, e) ↦ ground (arith, eq_text_iff key j, lookup-insert key j r m)
]

through_cache-through_cache :
    (key j : Text) (rate : ℕ) (m : Assoc ℕ)
    → (through_cache j rate (through_cache key rate m).1).0 ≡ (through_cache j rate m).0
through_cache-through_cache key j rate m = ground (
  arith,
  through_cache-made j rate (through_cache key rate m).1,
  through_cache-made j rate m,
  through_cache-made key rate m,
  lookup-through_cache key j rate m,
  eq_text_iff key j,
)

module _ (libs : Libs) (key j : Text) (l : TrafficLimiter) where
  input-input : (input libs j (input libs key l).1).0 ≡ (input libs j l).0
  unfolding input conn_in
  input-input =
      rw
        (
          global-host_level libs l.cidrs (λ g. g.inward) (host_of key) l.ins,
          host_level-host_level libs l.cidrs (λ g. g.inward) (host_of key) (host_of j) l.ins,
          through_cache-through_cache key j (rates_of l.conns.generator).inward l.conns.ins,
        )
        refl

  output-output : (output libs j (output libs key l).1).0 ≡ (output libs j l).0
  unfolding output conn_out
  output-output =
      rw
        (
          global-host_level libs l.cidrs (λ g. g.outward) (host_of key) l.outs,
          host_level-host_level libs l.cidrs (λ g. g.outward) (host_of key) (host_of j) l.outs,
          through_cache-through_cache key j (rates_of l.conns.generator).outward l.conns.outs,
        )
        refl

  input-output : (input libs j (output libs key l).1).0 ≡ (input libs j l).0
  unfolding input output conn_in conn_out
  input-output = refl

  output-input : (output libs j (input libs key l).1).0 ≡ (output libs j l).0
  unfolding input output conn_in conn_out
  output-input = refl

-- Between two reloads the limiters that In and Out return for a client do not depend on the calls of
-- In and Out for it or for other clients in between, if no cached limiter expires.
pub input-serve :
    (libs : Libs) (key : Text) (asks : List Ask) (l : TrafficLimiter)
    → ((input libs key (serve libs asks l)).0 ≡ (input libs key l).0)
      × ((output libs key (serve libs asks l)).0 ≡ (output libs key l).0)
unfolding serve
input-serve libs key [] l = (refl, refl)
input-serve libs key (asks_in k ∷ asks) l =
    let rest = input-serve libs key asks (input libs k l).1 in
    (rest.0 ∙ input-input libs k key l, rest.1 ∙ output-input libs k key l)
input-serve libs key (asks_out k ∷ asks) l =
    let rest = input-serve libs key asks (output libs k l).1 in
    (rest.0 ∙ input-output libs k key l, rest.1 ∙ output-output libs k key l)
