-- ===== src/Limiter/Packets/Tests.antt =====
-- Packets from two addresses, of which one is limited to 3 bytes.
use gost_x.Prelude.{ℕ, ◌≡◌, refl, Option, some, List, [], ◌∷◌, if◌then◌else◌}
use gost_x.Text.{Text, codes}
use gost_x.Assoc.{lookup_nil}
use gost_x.Code.{table_code}
use gost_x.Samples.{libs}
use gost_x.Int64.{gt64}
use gost_x.Limiter.Traffic.{made, through_cache, conn_in, conn_out}
use gost_x.Limiter.Traffic.Table.{
  TrafficLimiter, fresh, network_of, host_of, host_level, append_some, insert_rate, sort_rates,
  group_of, input, output,
}
use gost_x.Limiter.Traffic.Values.{zero_options}
use gost_x.Limiter.Traffic.Waiting.{wait_one, group_wait}
use gost_x.Conns.{Arrival, packet}
use gost_x.Limiter.Packets.{
  wrap_udp_conn, get_cached, get_in_limiter, exceeds, Arrival, packet, read_from, calls, drops,
  write_to,
}
use gost_x.Limiter.Packets.Cached.{IsServing}
use gost_x.Limiter.Packets.Fitting.{first_passing, read_from-first}

abbrev limits : TrafficLimiter
limits = record (fresh zero_options) { ins = (codes "10.1.1.1", 3) ∷ [] }

abbrev arrivals : List (Arrival Text)
arrivals =
    packet 5 (codes "abcd") (codes "10.1.1.1:7")
    ∷ packet 6 (codes "efgh") (codes "10.1.1.2:7")
    ∷ packet 7 (codes "ab") (codes "10.1.1.1:7")
    ∷ []

first_read : Option (Arrival Text × List (Arrival Text))
unfolding table_code made through_cache conn_in conn_out network_of host_of host_level append_some
    insert_rate sort_rates group_of input output wait_one group_wait get_cached get_in_limiter
    exceeds read_from gt64
first_read = (read_from libs arrivals (wrap_udp_conn (some limits))).0

-- The packet with four bytes from the limited address is dropped.
first_read_result :
    first_read
    ≡ some (
      packet 6 (codes "efgh") (codes "10.1.1.2:7"),
      packet 7 (codes "ab") (codes "10.1.1.1:7") ∷ [],
    )
unfolding first_read libs
first_read_result = refl

wrapped-IsServing : IsServing libs limits (wrap_udp_conn (some limits))
wrapped-IsServing = record {
  limiter = (limits, refl, record { in_like = λ addr. refl; out_like = λ addr. refl });
  in_cached = λ addr lim e q. absurd (cc (lookup_nil {V = Option (List ℕ) × ℕ} addr, q));
  out_cached = λ addr lim e q. absurd (cc (lookup_nil {V = Option (List ℕ) × ℕ} addr, q));
}

read_from-first_example :
    let c = wrap_udp_conn (some limits) in
    ((read_from libs arrivals c).0 ≡ first_passing libs limits arrivals)
    × IsServing libs limits (read_from libs arrivals c).1
    × ((write_to {E = Text} libs 8 (codes "hello") (codes "10.1.1.1:7") c).0 ≡ (
        if exceeds (output libs (codes "10.1.1.1:7") limits).0 5
        then drops 5
        else calls (codes "hello") (codes "10.1.1.1:7")))
    × IsServing libs limits (write_to {E = Text} libs 8 (codes "hello") (codes "10.1.1.1:7") c).1
read_from-first_example =
    read_from-first libs limits arrivals 8 (codes "hello") (codes "10.1.1.1:7")
      (wrap_udp_conn (some limits)) wrapped-IsServing
