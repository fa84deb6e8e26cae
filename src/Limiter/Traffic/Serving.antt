-- ===== src/Limiter/Traffic/Serving.antt =====
-- In and Out after a reload: what they answer does not depend on what was cached before, nor on the
-- keys that were asked for in between.
use gost_x.Prelude.{
  ℕ, ◌≡◌, ◌≢◌, refl, ◌∙◌, none, Option-cases, inl, inr, List, [], ◌∷◌, arith, if◌then◌else◌,
}
use gost_x.Text.{Text, eq_text}
use gost_x.Text.Laws.{eq_text_iff}
use gost_x.Assoc.{Assoc, lookup, lookup-insert}
use gost_x.Net.{Libs, IpNet, parse_cidr}
use gost_x.Limiter.Traffic.{Rates, made, conn_in, conn_out}
use gost_x.Limiter.Traffic.Values.{load, load-IsMap, global_limit_key}
use gost_x.Limiter.Traffic.Table.{
  TrafficLimiter, value_at, network_of, reload, host_of, host_level, group_of, input, output,
}
use gost_x.Limiter.Traffic.Reloaded.{
  networks, addressed, IsServed, network_of_global, reload-IsServed,
}
use gost_x.Limiter.Traffic.Levels.{host_limit, host_level-network}

-- The level of an address fills the cache with what it answers.
module _ (libs : Libs) (cs : List (IpNet × Rates)) (rate : Rates → ℕ) where
  lookup-host_level :
      (h j : Text) (m : Assoc ℕ)
      → lookup j (host_level libs cs rate h m).1
        ≡ (if eq_text h j then (host_level libs cs rate h m).0 else lookup j m)
  unfolding host_level made
  lookup-host_level h j m = elim (Option-cases (network_of libs cs h)) [
    | inl q ↦ ground (arith, eq_text_iff h j)
    | inr (g, q) ↦ ground (arith, eq_text_iff h j, lookup-insert h j (rate g) m)
  ]

  pub host_level-host_level :
      (h j : Text) (m : Assoc ℕ)
      → (host_level libs cs rate j (host_level libs cs rate h m).1).0
        ≡ (host_level libs cs rate j m).0
  host_level-host_level h j m = ground (
    arith,
    host_level-network libs cs rate j (host_level libs cs rate h m).1,
    host_level-network libs cs rate j m,
    host_level-network libs cs rate h m,
    lookup-host_level h j m,
    eq_text_iff h j,
  )

  pub global-host_level :
      (h : Text) (m : Assoc ℕ)
      → lookup global_limit_key (host_level libs cs rate h m).1 ≡ lookup global_limit_key m
  global-host_level h m = ground (
    arith,
    lookup-host_level h global_limit_key m,
    host_level-network libs cs rate h m,
    network_of_global libs cs,
    eq_text_iff h global_limit_key,
  )

-- A call of In or Out.
pub data Ask : Type 0 where
  asks_in asks_out : Text → Ask

unfoldable pub serve : Libs → List Ask → TrafficLimiter → TrafficLimiter
serve libs [] l = l
serve libs (asks_in key ∷ asks) l = serve libs asks (input libs key l).1
serve libs (asks_out key ∷ asks) l = serve libs asks (output libs key l).1

module _ (libs : Libs) (values : Assoc Rates) where
  input-IsServed :
      (key : Text) (l : TrafficLimiter)
      → IsServed libs values l
      → IsServed libs values (input libs key l).1
  unfolding input
  input-IsServed key l s = record {
    cidrs = s.cidrs;
    service_in = global-host_level libs l.cidrs (λ g. g.inward) (host_of key) l.ins ∙ s.service_in;
    service_out = s.service_out;
    host_in = λ h e ne.
        host_level-host_level libs l.cidrs (λ g. g.inward) (host_of key) h l.ins ∙ s.host_in h e ne;
    host_out = s.host_out;
  }

  output-IsServed :
      (key : Text) (l : TrafficLimiter)
      → IsServed libs values l
      → IsServed libs values (output libs key l).1
  unfolding output
  output-IsServed key l s = record {
    cidrs = s.cidrs;
    service_in = s.service_in;
    service_out =
        global-host_level libs l.cidrs (λ g. g.outward) (host_of key) l.outs ∙ s.service_out;
    host_in = s.host_in;
    host_out = λ h e ne.
        host_level-host_level libs l.cidrs (λ g. g.outward) (host_of key) h l.outs
        ∙ s.host_out h e ne;
  }

  serve-IsServed :
      (asks : List Ask) (l : TrafficLimiter)
      → IsServed libs values l
      → IsServed libs values (serve libs asks l)
  unfolding serve
  serve-IsServed [] l s = s
  serve-IsServed (asks_in key ∷ asks) l s = serve-IsServed asks _ (input-IsServed key l s)
  serve-IsServed (asks_out key ∷ asks) l s = serve-IsServed asks _ (output-IsServed key l s)

  answers :
      (key : Text) (l : TrafficLimiter)
      → IsServed libs values l
      → parse_cidr (host_of key) ≡ none
      → host_of key ≢ global_limit_key
      → ((input libs key l).0
          ≡ group_of (made (value_at global_limit_key values).inward) (conn_in key l.conns).0 (
              host_limit libs
                (networks (addressed values))
                (λ g. g.inward)
                (addressed values)
                (host_of key)))
        × ((output libs key l).0
            ≡ group_of (made (value_at global_limit_key values).outward) (conn_out key l.conns).0 (
                host_limit libs
                  (networks (addressed values))
                  (λ g. g.outward)
                  (addressed values)
                  (host_of key)))
  unfolding input output
  answers key l s e ne = (
    rw (s.service_in, s.host_in (host_of key) e ne, s.cidrs) refl,
    rw (s.service_out, s.host_out (host_of key) e ne, s.cidrs) refl,
  )

-- In and Out for a client, after a reload with what is loaded at time t and then any calls of In and
-- Out, if the host of the client is neither "$" nor a network: the group of the limiter of the service,
-- that of the connection, and that of the host. The first has the rate of the key "$". The last has
-- the rate of the host, or else, if there is none or it is not positive, that of the first network
-- which contains it. Neither depends on what was cached before the reload or by the calls.
pub serve-reload :
    (libs : Libs) (parse_bytes : Text → ℕ) (t : ℕ) (asks : List Ask) (key : Text)
    (l : TrafficLimiter)
    → parse_cidr (host_of key) ≡ none
    → host_of key ≢ global_limit_key
    → let values = load parse_bytes l.options t in
      let after = serve libs asks (reload libs values l) in
      ((input libs key after).0
        ≡ group_of (made (value_at global_limit_key values).inward) (conn_in key after.conns).0 (
            host_limit libs
              (networks (addressed values))
              (λ g. g.inward)
              (addressed values)
              (host_of key)))
      × ((output libs key after).0
          ≡ group_of
              (made (value_at global_limit_key values).outward)
              (conn_out key after.conns).0
              (host_limit libs
                (networks (addressed values))
                (λ g. g.outward)
                (addressed values)
                (host_of key)))
serve-reload libs parse_bytes t asks key l =
    let values = load parse_bytes l.options t in
    answers libs values key (serve libs asks (reload libs values l)) (
      serve-IsServed libs values asks (reload libs values l)
        (reload-IsServed libs values (load-IsMap parse_bytes l.options t) l))
