-- ===== src/Limiter/Traffic/Tests.antt =====
-- A connection that has the rate 100 when the rate is changed to 50, and limits by address and network.
use gost_x.Prelude.{arith, ◌≡◌, ◌≢◌, refl, ℕ, Option, none, some, List, [], ◌∷◌}
use gost_x.Text.{Text, codes, eq_text}
use gost_x.Assoc.{lookup}
use gost_x.Code.{net_code, table_code}
use gost_x.Net.{parse_cidr}
use gost_x.Samples.{libs, in_network}
use gost_x.Int64.{gt64, atoi}
use gost_x.Loader.{no_loaders, tick}
use gost_x.Limiter.Table.{filled}
use gost_x.Limiter.Traffic.{
  Rates, ConnLevel, made, set_all, reload_cache, through_cache, conn_in, conn_out, reload_conns,
}
use gost_x.Limiter.Traffic.Values.{
  Options, rate_of, limit_of, parse_limit, add_value, add_values, listed, loaded, load,
  global_limit_key,
}
use gost_x.Limiter.Traffic.Table.{
  set_level, put_side, put_value, put_values, value_at, network_of, clean_one, clean, snapshot,
  reload_levels, reload_shared, reload, period_reload, fresh, host_of, host_level, append_some,
  insert_rate, sort_rates, group_of, input, output,
}
use gost_x.Limiter.Traffic.Levels.{host_limit}
use gost_x.Limiter.Traffic.Reloaded.{networks, addressed}
use gost_x.Limiter.Traffic.Rated.{IsWord64}
use gost_x.Limiter.Traffic.Handed.{IsRated, IsRatedGroup, fresh-IsRated}
use gost_x.Limiter.Traffic.Words.{serve-period_reload}
use gost_x.Limiter.Traffic.Serving.{serve, asks_in, asks_out, serve-reload}
use gost_x.Limiter.Traffic.Reload.{conn-reload_conns}

abbrev limited : ConnLevel
limited = record {
  generator = some (record { inward = 100; outward = 0 });
  ins = (codes "1.1.1.1:1", 100) ∷ [];
  outs = [];
}

abbrev halved : Rates
halved = record { inward = 50; outward = 10 }

conn-reload_conns_example :
    ((conn_in (codes "1.1.1.1:1") (reload_conns halved limited)).0 ≡ some 100)
    × ((conn_out (codes "1.1.1.1:1") (reload_conns halved limited)).0 ≡ some 10)
unfolding lookup eq_text gt64
conn-reload_conns_example = conn-reload_conns (codes "1.1.1.1:1") halved limited

-- Lines whose rates are numbers of bytes.
abbrev lines : Options
lines = record {
  limits = codes "$ 90 80" ∷ codes "10.0.0.0/8\t70 60" ∷ codes "10.1.1.1 50" ∷ codes "bad" ∷ [];
  loaders = no_loaders;
  period = 0;
}

rates_for : Text → List (Option (List ℕ))
unfolding table_code filled limit_of parse_limit rate_of add_value add_values listed loaded load
    set_level put_side put_value put_values value_at network_of clean_one clean snapshot
    reload_levels reload_shared reload host_of host_level append_some insert_rate sort_rates
    group_of input output made set_all reload_cache reload_conns through_cache conn_in conn_out atoi
    gt64 libs in_network
rates_for key =
    let l = reload libs (load atoi lines 0) (fresh lines) in
    (input libs key l).0 ∷ (output libs key l).0 ∷ []

-- An address with its own rates, and one with those of its network.
rates_for_two :
    (rates_for (codes "10.1.1.1:5") ≡ some (50 ∷ 90 ∷ []) ∷ some (60 ∷ 80 ∷ []) ∷ [])
    × (rates_for (codes "10.1.1.2:5") ≡ some (70 ∷ 90 ∷ []) ∷ some (60 ∷ 80 ∷ []) ∷ [])
unfolding rates_for
rates_for_two = (refl, refl)

abbrev client : Text
client = codes "10.1.1.2:5"

client_host : (parse_cidr (host_of client) ≡ none) × (host_of client ≢ global_limit_key)
unfolding net_code host_of
client_host = (refl, λ e. absurd cc)

serve-reload_example :
    let values = load atoi lines 0 in
    let after =
      serve libs (asks_in client ∷ asks_out client ∷ []) (reload libs values (fresh lines)) in
    ((input libs client after).0
      ≡ group_of (made (value_at global_limit_key values).inward) (conn_in client after.conns).0 (
          host_limit libs
            (networks (addressed values))
            (λ g. g.inward)
            (addressed values)
            (host_of client)))
    × ((output libs client after).0
        ≡ group_of
            (made (value_at global_limit_key values).outward)
            (conn_out client after.conns).0
            (host_limit libs
              (networks (addressed values))
              (λ g. g.outward)
              (addressed values)
              (host_of client)))
serve-reload_example =
    serve-reload libs atoi 0 (asks_in client ∷ asks_out client ∷ []) client (fresh lines)
      client_host.0 client_host.1

abbrev three_bytes : Text → ℕ
three_bytes s = 3

three_bytes_word : (s : Text) → IsWord64 (three_bytes s)
three_bytes_word s = omega arith

serve-period_reload_example :
    let after =
      serve libs
        (asks_in client ∷ [])
        (period_reload libs three_bytes (tick 5 ∷ []) (fresh lines)) in
    IsRated after
    × IsRatedGroup (input libs client after).0
    × IsRatedGroup (output libs client after).0
serve-period_reload_example =
    serve-period_reload three_bytes three_bytes_word libs (tick 5 ∷ []) (asks_in client ∷ []) client
      (fresh lines) (fresh-IsRated lines)
