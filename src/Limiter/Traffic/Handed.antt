-- ===== src/Limiter/Traffic/Handed.antt =====
-- The rates of the limiters that In and Out hand out.
use gost_x.Prelude.{
  ℕ, ◌≡◌, refl, subst, Option, none, some, Bool-cases, inl, inr, List, [], ◌∷◌, All, some_inj,
  is_empty, arith,
}
use gost_x.Text.{Text}
use gost_x.Assoc.{lookup_nil, Assoc, lookup, delete}
use gost_x.Net.{Libs}
use gost_x.Int64.{gt64}
use gost_x.Limiter.Traffic.{Rates, rates_of, reload_conns, through_cache, conn_in, conn_out}
use gost_x.Limiter.Traffic.Values.{Options, global_limit_key, conn_limit_key}
use gost_x.Limiter.Traffic.Table.{
  TrafficLimiter, Levels, value_at, put_values, snapshot, reload_levels, reload_shared, reload,
  fresh, host_of, host_level, append_some, insert_rate, sort_rates, group_of, input, output,
}
use gost_x.Limiter.Traffic.Waiting.{IsRate}
use gost_x.Limiter.Traffic.Positive.{
  AllWords, set_level-AllRates, value_at-AreWords, delete-AllWords, put_values-AreRated,
  clean-AllRates, host_level-AllRates,
}
use gost_x.Limiter.Traffic.Rated.{
  AreWords, AllRates, AllUnder, reload_cache-AllUnder, through_cache-IsThrough,
}

-- Every limiter that is kept has a positive rate.
pub record IsRated (l : TrafficLimiter) : Type 0 where
  pub generator : AreWords (rates_of l.conns.generator)
  pub conn_ins : AllUnder (rates_of l.conns.generator).inward l.conns.ins
  pub conn_outs : AllUnder (rates_of l.conns.generator).outward l.conns.outs
  pub cidrs : All (λ e. AreWords e.1) l.cidrs
  pub ins : AllRates l.ins
  pub outs : AllRates l.outs

module _ (libs : Libs) (values : Assoc Rates) (h : AllWords values) where
  reload_shared-IsRated : (l : TrafficLimiter) → IsRated l → IsRated (reload_shared values l)
  unfolding reload_shared reload_conns
  reload_shared-IsRated l a =
      let conn = value_at-AreWords conn_limit_key values h in
      let service = value_at-AreWords global_limit_key values h in
      record {
        generator = conn;
        conn_ins =
            reload_cache-AllUnder (value_at conn_limit_key values).inward
              (rates_of l.conns.generator).inward l.conns.ins conn.0 a.conn_ins;
        conn_outs =
            reload_cache-AllUnder (value_at conn_limit_key values).outward
              (rates_of l.conns.generator).outward l.conns.outs conn.1 a.conn_outs;
        cidrs = a.cidrs;
        ins =
            set_level-AllRates global_limit_key (value_at global_limit_key values).inward l.ins
              service.0 a.ins;
        outs =
            set_level-AllRates global_limit_key (value_at global_limit_key values).outward l.outs
              service.1 a.outs;
      }

  reload_levels-IsRated : (l : TrafficLimiter) → IsRated l → IsRated (reload_levels libs values l)
  unfolding reload_levels snapshot
  reload_levels-IsRated l a =
      let w0 : Levels = record { cidrs = []; ins = snapshot l.ins; outs = snapshot l.outs } in
      let w = put_values values w0 in
      let b = put_values-AreRated values w0 h (record { cidrs = tt; ins = a.ins; outs = a.outs }) in
      record {
        generator = a.generator;
        conn_ins = a.conn_ins;
        conn_outs = a.conn_outs;
        cidrs = b.cidrs;
        ins =
            clean-AllRates libs w.cidrs (λ g. g.inward) (λ g k. k.0) b.cidrs w.ins.left w.ins.limits
              b.ins;
        outs =
            clean-AllRates libs w.cidrs (λ g. g.outward) (λ g k. k.1) b.cidrs w.outs.left
              w.outs.limits b.outs;
      }

pub reload-IsRated :
    (libs : Libs) (values : Assoc Rates) (l : TrafficLimiter)
    → AllWords values
    → IsRated l
    → IsRated (reload libs values l)
unfolding reload
reload-IsRated libs values l h a =
    reload_levels-IsRated libs (delete conn_limit_key (delete global_limit_key values))
      (delete-AllWords conn_limit_key (delete global_limit_key values)
        (delete-AllWords global_limit_key values h))
      (reload_shared values l) (reload_shared-IsRated libs values h l a)

pub fresh-IsRated : (o : Options) → IsRated (fresh o)
fresh-IsRated o = record {
  generator = (omega arith, omega arith);
  conn_ins = λ k r e. absurd (cc (lookup_nil {V = ℕ} k, e));
  conn_outs = λ k r e. absurd (cc (lookup_nil {V = ℕ} k, e));
  cidrs = tt;
  ins = λ k r e. absurd (cc (lookup_nil {V = ℕ} k, e));
  outs = λ k r e. absurd (cc (lookup_nil {V = ℕ} k, e));
}

-- A group, if there is one, has positive rates.
abbrev pub IsRatedGroup : Option (List ℕ) → Type 0
IsRatedGroup g = (rs : List ℕ) → g ≡ some rs → All IsRate rs

abbrev IsRatedOne : Option ℕ → Type 0
IsRatedOne x = (n : ℕ) → x ≡ some n → IsRate n

insert_rate-All : (r : ℕ) (rs : List ℕ) → IsRate r → All IsRate rs → All IsRate (insert_rate r rs)
unfolding insert_rate
insert_rate-All r [] p h = (p, tt)
insert_rate-All r (q ∷ qs) p h = elim (Bool-cases (gt64 r q)) [
  | inl e ↦ rw e (h.0, insert_rate-All r qs p h.1)
  | inr e ↦ rw e (p, h)
]

sort_rates-All : (rs : List ℕ) → All IsRate rs → All IsRate (sort_rates rs)
unfolding sort_rates
sort_rates-All [] h = tt
sort_rates-All (r ∷ rs) h = insert_rate-All r (sort_rates rs) h.0 (sort_rates-All rs h.1)

append_some-All :
    (rs : List ℕ) (x : Option ℕ) → All IsRate rs → IsRatedOne x → All IsRate (append_some rs x)
unfolding append_some
append_some-All rs none h k = h
append_some-All [] (some r) h k = (k r refl, tt)
append_some-All (q ∷ rs) (some r) h k = (h.0, append_some-All rs (some r) h.1 k)

group_of-IsRatedGroup :
    (a b c : Option ℕ) → IsRatedOne a → IsRatedOne b → IsRatedOne c → IsRatedGroup (group_of a b c)
unfolding group_of
group_of-IsRatedGroup a b c h k m rs =
    let lims = append_some (append_some (append_some [] a) b) c in
    let all : All IsRate lims =
      append_some-All (append_some (append_some [] a) b) c
        (append_some-All (append_some [] a) b (append_some-All [] a tt h) k) m in
    elim (Bool-cases (is_empty lims)) [
      | inl e ↦ rw e (λ f. absurd cc)
      | inr e ↦
          rw e (λ f. subst (All IsRate) (some_inj (sort_rates lims) rs f) (sort_rates-All lims all))
    ]

module _ (libs : Libs) (key : Text) (l : TrafficLimiter) (a : IsRated l) where
  pub input-IsRated : IsRatedGroup (input libs key l).0 × IsRated (input libs key l).1
  unfolding input conn_in
  input-IsRated =
      let rate = (rates_of l.conns.generator).inward in
      let conn = through_cache-IsThrough key rate l.conns.ins a.generator.0 a.conn_ins in
      let host =
        host_level-AllRates libs l.cidrs (λ g. g.inward) (λ g k. k.0) a.cidrs (host_of key) l.ins
          a.ins in
      (
        group_of-IsRatedGroup (lookup global_limit_key l.ins) (through_cache key rate l.conns.ins).0
            (host_level libs l.cidrs (λ g. g.inward) (host_of key) l.ins).0
            (λ n. a.ins global_limit_key n) (λ n e. (conn.returned n e).0) host.0,
        record {
          generator = a.generator;
          conn_ins = conn.cached;
          conn_outs = a.conn_outs;
          cidrs = a.cidrs;
          ins = host.1;
          outs = a.outs;
        },
      )

  pub output-IsRated : IsRatedGroup (output libs key l).0 × IsRated (output libs key l).1
  unfolding output conn_out
  output-IsRated =
      let rate = (rates_of l.conns.generator).outward in
      let conn = through_cache-IsThrough key rate l.conns.outs a.generator.1 a.conn_outs in
      let host =
        host_level-AllRates libs l.cidrs (λ g. g.outward) (λ g k. k.1) a.cidrs (host_of key) l.outs
          a.outs in
      (
        group_of-IsRatedGroup (lookup global_limit_key l.outs)
            (through_cache key rate l.conns.outs).0
            (host_level libs l.cidrs (λ g. g.outward) (host_of key) l.outs).0
            (λ n. a.outs global_limit_key n) (λ n e. (conn.returned n e).0) host.0,
        record {
          generator = a.generator;
          conn_ins = a.conn_ins;
          conn_outs = conn.cached;
          cidrs = a.cidrs;
          ins = a.ins;
          outs = host.1;
        },
      )
