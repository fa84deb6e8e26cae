-- ===== src/Limiter/Traffic/Reloaded.antt =====
-- What a reload leaves for In and Out to read, whatever was there before.
use gost_x.Prelude.{
  ◌≡◌, ◌≢◌, refl, sym, ◌∙◌, none, some, Option-cases, inl, inr, List, [], ◌∷◌, ◌++◌, append-nil,
  append_assoc, arith,
}
use gost_x.Text.{Text}
use gost_x.Text.Laws.{eq_text_refl}
use gost_x.Assoc.{Assoc, lookup, delete, IsMap, delete-IsMap, lookup-delete}
use gost_x.Net.{Libs, IpNet, parse_ip, parse_cidr}
use gost_x.Code.{net_code}
use gost_x.Limiter.Traffic.{Rates, made}
use gost_x.Limiter.Traffic.Values.{global_limit_key, conn_limit_key}
use gost_x.Limiter.Traffic.Table.{
  TrafficLimiter, Levels, value_at, put_value, put_values, network_of, snapshot, reload_levels,
  reload_shared, reload, host_level,
}
use gost_x.Limiter.Traffic.Sides.{lookup-set_level}
use gost_x.Limiter.Traffic.Levels.{lookup-global, host_limit, host_level-put_values}

-- The networks among the keys, in their order.
pub networks : Assoc Rates → List (IpNet × Rates)
networks [] = []
networks ((k, v) ∷ values) = elim (parse_cidr k) [
  | none ↦ networks values
  | some net ↦ (net, v) ∷ networks values
]

put_values-cidrs :
    (values : Assoc Rates) (w : Levels) → (put_values values w).cidrs ≡ w.cidrs ++ networks values
unfolding put_values networks put_value
put_values-cidrs [] w = sym (append-nil w.cidrs)
put_values-cidrs ((k, v) ∷ values) w = elim (Option-cases (parse_cidr k)) [
  | inl e ↦ ground (arith, put_values-cidrs values (put_value k v w))
  | inr (net, e) ↦ ground (
    arith,
    put_values-cidrs values (put_value k v w),
    append_assoc w.cidrs ((net, v) ∷ []) (networks values),
  )
]

-- The values of the addresses and the networks.
abbrev pub addressed : Assoc Rates → Assoc Rates
addressed values = delete conn_limit_key (delete global_limit_key values)

-- What In and Out read, after a reload with `values`.
pub record IsServed (libs : Libs) (values : Assoc Rates) (l : TrafficLimiter) : Type 0 where
  pub cidrs : l.cidrs ≡ networks (addressed values)
  pub service_in : lookup global_limit_key l.ins ≡ made (value_at global_limit_key values).inward
  pub service_out : lookup global_limit_key l.outs ≡ made (value_at global_limit_key values).outward
  pub host_in :
      (h : Text)
      → parse_cidr h ≡ none
      → h ≢ global_limit_key
      → (host_level libs l.cidrs (λ g. g.inward) h l.ins).0
        ≡ host_limit libs l.cidrs (λ g. g.inward) (addressed values) h
  pub host_out :
      (h : Text)
      → parse_cidr h ≡ none
      → h ≢ global_limit_key
      → (host_level libs l.cidrs (λ g. g.outward) h l.outs).0
        ≡ host_limit libs l.cidrs (λ g. g.outward) (addressed values) h

parse_cidr_global : parse_cidr global_limit_key ≡ none
unfolding net_code
parse_cidr_global = refl

parse_ip_global : parse_ip global_limit_key ≡ none
unfolding net_code
parse_ip_global = refl

pub network_of_global :
    (libs : Libs) (cs : List (IpNet × Rates)) → network_of libs cs global_limit_key ≡ none
unfolding network_of
network_of_global libs cs = ground (arith, parse_ip_global)

module _ (libs : Libs) (values : Assoc Rates) (d : IsMap values) (l : TrafficLimiter) where
  addressed-IsMap : IsMap (addressed values)
  addressed-IsMap =
      delete-IsMap conn_limit_key (delete global_limit_key values)
        (delete-IsMap global_limit_key values d)

  lookup-addressed : lookup global_limit_key (addressed values) ≡ none
  lookup-addressed = ground (
    arith,
    lookup-delete conn_limit_key global_limit_key (delete global_limit_key values),
    lookup-delete global_limit_key global_limit_key values,
    eq_text_refl global_limit_key,
  )

  shared-global :
      (lookup global_limit_key (reload_shared values l).ins
        ≡ made (value_at global_limit_key values).inward)
      × (lookup global_limit_key (reload_shared values l).outs
          ≡ made (value_at global_limit_key values).outward)
  unfolding reload_shared
  shared-global = ground (
    arith,
    lookup-set_level global_limit_key global_limit_key (value_at global_limit_key values).inward
        l.ins,
    lookup-set_level global_limit_key global_limit_key (value_at global_limit_key values).outward
        l.outs,
    eq_text_refl global_limit_key,
  )

  pub reload-IsServed : IsServed libs values (reload libs values l)
  unfolding reload reload_levels
  reload-IsServed =
      let s = reload_shared values l in
      let levels = host_level-put_values libs (addressed values) s.ins s.outs in
      let service =
        lookup-global libs (addressed values) s.ins s.outs addressed-IsMap parse_cidr_global
          lookup-addressed in
      record {
        cidrs =
            put_values-cidrs (addressed values)
              (record { cidrs = []; ins = snapshot s.ins; outs = snapshot s.outs });
        service_in = service.0 ∙ shared-global.0;
        service_out = service.1 ∙ shared-global.1;
        host_in = λ h e ne. (levels h addressed-IsMap e ne).0;
        host_out = λ h e ne. (levels h addressed-IsMap e ne).1;
      }
