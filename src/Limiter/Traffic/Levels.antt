-- ===== src/Limiter/Traffic/Levels.antt =====
-- The level of an address: what a reload leaves in the caches of limiters, and what In and Out take
-- from them.
use gost_x.Prelude.{
  ℕ, ◌≡◌, ◌≢◌, refl, Option, none, some, Option-cases, inl, inr, List, [], ◌∷◌, or_else, arith,
  if◌then◌else◌,
}
use gost_x.Text.{Text, eq_text}
use gost_x.Text.Laws.{eq_text_iff, eq_text_refl}
use gost_x.Assoc.{Assoc, lookup, has_key, IsMap, lookup-insert, lookup-delete}
use gost_x.Net.{Libs, IpNet, parse_cidr}
use gost_x.Limiter.Traffic.{Rates, made}
use gost_x.Limiter.Traffic.Values.{global_limit_key}
use gost_x.Limiter.Traffic.Table.{
  Levels, put_values, network_of, clean_one, clean, snapshot, host_level,
}
use gost_x.Limiter.Traffic.Sides.{
  put_rates, put_values-ins, put_values-outs, limits-put_rates, left-put_rates,
}

-- What the clean-up leaves for a host: the rate of its network.
abbrev pub of_network : (Rates → ℕ) → Option Rates → Option ℕ
of_network rate none = none
of_network rate (some g) = made (rate g)

module _ (libs : Libs) (cs : List (IpNet × Rates)) (rate : Rates → ℕ) where
  lookup-clean_one :
      (k h : Text) (m : Assoc ℕ)
      → lookup h (clean_one libs cs rate k m)
        ≡ (if eq_text k h then of_network rate (network_of libs cs h) else lookup h m)
  unfolding clean_one made
  lookup-clean_one k h m = elim (Option-cases (network_of libs cs k)) [
    | inl q ↦ ground (arith, lookup-delete k h m, eq_text_iff k h)
    | inr (g, q) ↦
        ground (arith, lookup-delete k h m, lookup-insert k h (rate g) m, eq_text_iff k h)
  ]

  lookup-clean :
      (h : Text) (left m : Assoc ℕ)
      → lookup h (clean libs cs rate left m)
        ≡ (if has_key h left then of_network rate (network_of libs cs h) else lookup h m)
  unfolding clean lookup
  lookup-clean h [] m = refl
  lookup-clean h ((k, r) ∷ left) m =
      ground (arith, lookup-clean h left (clean_one libs cs rate k m), lookup-clean_one k h m)

  -- The limiter of a host: its own, or one with the rate of its network.
  pub host_limit : Assoc Rates → Text → Option ℕ
  host_limit values h =
      let net = of_network rate (network_of libs cs h) in
      elim (lookup h values) [ none ↦ net | some v ↦ or_else (made (rate v)) net ]

  pub host_level-network :
      (h : Text) (m : Assoc ℕ)
      → (host_level libs cs rate h m).0
        ≡ or_else (lookup h m) (of_network rate (network_of libs cs h))
  unfolding host_level
  host_level-network h m = elim (Option-cases (network_of libs cs h)) [
    | inl q ↦ ground arith
    | inr (g, q) ↦ ground arith
  ]

  -- One direction of the third block.
  host_level-clean :
      (values : Assoc Rates) (h : Text) (m : Assoc ℕ)
      → IsMap values
      → parse_cidr h ≡ none
      → h ≢ global_limit_key
      → (host_level libs cs rate h (
          clean libs cs rate
            (put_rates rate values (snapshot m)).left
            (put_rates rate values (snapshot m)).limits)).0
        ≡ host_limit values h
  unfolding snapshot host_limit
  host_level-clean values h m d e ne = ground (
    arith,
    host_level-network h (
        clean libs cs rate (put_rates rate values (snapshot m)).left
          (put_rates rate values (snapshot m)).limits),
    lookup-clean h (put_rates rate values (snapshot m)).left
        (put_rates rate values (snapshot m)).limits,
    limits-put_rates h e rate values (snapshot m) d,
    left-put_rates h e rate values (snapshot m) d,
    lookup-delete global_limit_key h m,
    eq_text_iff global_limit_key h,
  )

-- The level of a host after the third block of a reload, whatever was cached before.
pub host_level-put_values :
    (libs : Libs) (values : Assoc Rates) (ins outs : Assoc ℕ) (h : Text)
    → IsMap values
    → parse_cidr h ≡ none
    → h ≢ global_limit_key
    → let w = put_values values (record { cidrs = []; ins = snapshot ins; outs = snapshot outs }) in
      ((host_level libs w.cidrs
          (λ g. g.inward)
          h
          (clean libs w.cidrs (λ g. g.inward) w.ins.left w.ins.limits)).0
        ≡ host_limit libs w.cidrs (λ g. g.inward) values h)
      × ((host_level libs w.cidrs
            (λ g. g.outward)
            h
            (clean libs w.cidrs (λ g. g.outward) w.outs.left w.outs.limits)).0
          ≡ host_limit libs w.cidrs (λ g. g.outward) values h)
host_level-put_values libs values ins outs h d e ne =
    let w0 : Levels = record { cidrs = []; ins = snapshot ins; outs = snapshot outs } in
    (
      rw (put_values-ins values w0)
          (host_level-clean libs (put_values values w0).cidrs (λ g. g.inward) values h ins d e ne),
      rw (put_values-outs values w0) (
          host_level-clean libs (put_values values w0).cidrs (λ g. g.outward) values h outs d e ne),
    )

-- The service keeps its limiter through the third block.
pub lookup-global :
    (libs : Libs) (values : Assoc Rates) (ins outs : Assoc ℕ)
    → IsMap values
    → parse_cidr global_limit_key ≡ none
    → lookup global_limit_key values ≡ none
    → let w = put_values values (record { cidrs = []; ins = snapshot ins; outs = snapshot outs }) in
      (lookup global_limit_key (clean libs w.cidrs (λ g. g.inward) w.ins.left w.ins.limits)
        ≡ lookup global_limit_key ins)
      × (lookup global_limit_key (clean libs w.cidrs (λ g. g.outward) w.outs.left w.outs.limits)
          ≡ lookup global_limit_key outs)
unfolding snapshot
lookup-global libs values ins outs d e q =
    let w0 : Levels = record { cidrs = []; ins = snapshot ins; outs = snapshot outs } in
    (
      rw (put_values-ins values w0) (side (put_values values w0).cidrs (λ g. g.inward) ins),
      rw (put_values-outs values w0) (side (put_values values w0).cidrs (λ g. g.outward) outs),
    )
  where
    side :
        (cs : List (IpNet × Rates)) (rate : Rates → ℕ) (m : Assoc ℕ)
        → lookup global_limit_key (
            clean libs cs rate
              (put_rates rate values (snapshot m)).left
              (put_rates rate values (snapshot m)).limits)
          ≡ lookup global_limit_key m
    side cs rate m = ground (
      arith,
      lookup-clean libs cs rate global_limit_key (put_rates rate values (snapshot m)).left
          (put_rates rate values (snapshot m)).limits,
      limits-put_rates global_limit_key e rate values (snapshot m) d,
      left-put_rates global_limit_key e rate values (snapshot m) d,
      lookup-delete global_limit_key global_limit_key m,
      eq_text_refl global_limit_key,
    )
