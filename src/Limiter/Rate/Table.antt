-- ===== src/Limiter/Rate/Table.antt =====
-- limiter/rate/rate.go: the table of limits, and the group of limiters that it keeps for each client.
-- The options and the reading of lines are those of limiter/conn/conn.go, word for word.
use gost_x.Prelude.{
  ℕ, Bool, true, false, ◌||◌, Option, none, some, List, [], ◌∷◌, ◌++◌, map, ltb, if◌then◌else◌,
  is_empty, get_elem?,
}
use mathlib.Core.Option
use gost_x.Text.{Text, eq_text, tabs_to_blanks, trim_space, split_blanks}
use gost_x.Assoc.{Assoc, lookup, insert}
use gost_x.Net.{Libs, Ip, IpNet, parse_ip, parse_cidr}
use gost_x.Loader.{Loader, Event, reload_period, load_patterns, closed_loaders}
use gost_x.Limiter.Table.{
  Options, Setting, apply_all, zero_options, global_limit_key, ip_limit_key, filled,
}
use gost_x.Limiter.Rate.{
  RateLib, Buckets, Generator, each, is_none, new_single, take_from, sort_limiters,
}

module _ (rate : RateLib) where
  pub record RateLimiter : Type 0 where
    pub ip_limits : Assoc (Generator rate)
    pub cidr_limits : List (IpNet × Generator rate)
    pub limits : Assoc (Option (List ℕ))
    pub options : Options
    pub cancelled : Bool

  -- A line "key limit"; further words are ignored.
  unfoldable pub parse_limit : Text → Text × rate.Float
  parse_limit s = elim (filled (split_blanks (trim_space (tabs_to_blanks s)))) [
    | [] ↦ ([], rate.zero_float)
    | k ∷ [] ↦ ([], rate.zero_float)
    | k ∷ (n ∷ rest) ↦ (k, rate.parse_float n)
  ]

  -- What `reload` fills.
  pub record Limits : Type 0 where
    pub ips : Assoc (Generator rate)
    pub cidrs : List (IpNet × Generator rate)
    pub store : Buckets rate

  unfoldable pub put_single : Text → rate.Float → Limits → Limits
  put_single key r l =
      let (g, st) = new_single rate r l.store in
      record { ips = insert key g l.ips; cidrs = l.cidrs; store = st }

  -- The switch on the key.
  unfoldable pub put_limit : Text → rate.Float → Limits → Limits
  put_limit key r l =
      if eq_text key global_limit_key
      then put_single key r l
      else if eq_text key ip_limit_key
      then record l { ips = insert key (each r) l.ips }
      else elim (parse_ip key) [
        | some ip ↦ put_single key r l
        | none ↦ elim (parse_cidr key) [
          | some net ↦ record l { cidrs = l.cidrs ++ (net, each r) ∷ [] }
          | none ↦ l
        ]
      ]

  -- One round of the loop over the lines.
  unfoldable pub add_limit : Text → Limits → Limits
  add_limit s l =
      let (key, r) = parse_limit s in
      if is_empty key || is_none rate r then l else put_limit key r l

  unfoldable pub add_limits : List Text → Limits → Limits
  add_limits [] l = l
  add_limits (s ∷ ss) l = add_limits ss (add_limit s l)

  unfoldable pub reload : Options → Bool → ℕ → Buckets rate → RateLimiter × Buckets rate
  reload o cancelled t st =
      let l =
        add_limits (o.limits ++ load_patterns o.loaders t)
          (record { ips = []; cidrs = []; store = st }) in
      (
        record {
          ip_limits = l.ips;
          cidr_limits = l.cidrs;
          limits = [];
          options = o;
          cancelled = cancelled;
        },
        l.store,
      )

  -- NewRateLimiter at time t, and the period of the goroutine that it starts, if it starts one.
  unfoldable pub new_rate_limiter :
      List Setting → ℕ → Buckets rate → (RateLimiter × Buckets rate) × Option ℕ
  new_rate_limiter ss t st =
      let o = apply_all ss zero_options in
      (reload o false t st, if ltb 0 o.period then some (reload_period o.period) else none)

  unfoldable pub period_reload :
      List Event → RateLimiter × Buckets rate → RateLimiter × Buckets rate
  period_reload [] w = w
  period_reload (Event.done ∷ es) w = w
  period_reload (Event.tick t ∷ es) (l, st) = period_reload es (reload l.options l.cancelled t st)

  -- The generator of the first network that ContainingNetworks returns.
  unfoldable pub containing : Libs → List (IpNet × Generator rate) → Ip → Option (Generator rate)
  containing libs cs ip = elim (libs.containing_networks (map (λ e. e.0) cs) ip) [
    | [] ↦ none
    | i ∷ is ↦ Option.map (λ e. e.1) (get_elem? cs i)
  ]

  -- The limiters for an IP address alone: its own, or those of a network.
  unfoldable pub own_limiters : Libs → RateLimiter → Text → Buckets rate → List ℕ × Buckets rate
  own_limiters libs l key st = elim (parse_ip key) [
    | none ↦ ([], st)
    | some ip ↦
        let (own, st') = take_from rate (lookup key l.ip_limits) st in
        if is_empty own then take_from rate (containing libs l.cidr_limits ip) st' else (own, st')
  ]

  unfoldable pub client_limiters : Libs → RateLimiter → Text → Buckets rate → List ℕ × Buckets rate
  client_limiters libs l key st =
      let (own, st') = own_limiters libs l key st in
      if is_empty own then take_from rate (lookup ip_limit_key l.ip_limits) st' else (own, st')

  unfoldable pub make_group :
      Libs → RateLimiter → Text → Buckets rate → Option (List ℕ) × Buckets rate
  make_group libs l key st =
      let (client, st1) = client_limiters libs l key st in
      let (shared, st2) = take_from rate (lookup global_limit_key l.ip_limits) st1 in
      (
        if is_empty (client ++ shared)
            then none
            else some (sort_limiters rate st2.cells (client ++ shared)),
        st2,
      )

  -- Limiter: the group of a key is made once and kept, also when there is none.
  unfoldable pub limiter :
      Libs → Text → RateLimiter × Buckets rate → Option (List ℕ) × (RateLimiter × Buckets rate)
  limiter libs key (l, st) = elim (lookup key l.limits) [
    | some g ↦ (g, (l, st))
    | none ↦
        let (g, st') = make_group libs l key st in
        (g, (record l { limits = insert key g l.limits }, st'))
  ]

  -- Close, and the loaders that it closes.
  unfoldable pub close : RateLimiter → RateLimiter × List Loader
  close l = (record l { cancelled = true }, closed_loaders l.options.loaders)
