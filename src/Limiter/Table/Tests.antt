-- ===== src/Limiter/Table/Tests.antt =====
-- Tables of limits on concrete lines.
use gost_x.Prelude.{ℕ, ◌≡◌, refl, true, false, [], ◌∷◌, List, Option, none, some, map}
use gost_x.Text.{Text, codes}
use gost_x.Code.{table_code}
use gost_x.Samples.{libs, in_network}
use gost_x.Int64.{gt64, atoi}
use gost_x.Loader.{no_loaders}
use gost_x.Limiter.Conn.{new_limiter, write}
use gost_x.Limiter.Conn.Bump.{has}
use gost_x.Limiter.Table.{
  Options, Store, ConnLimiter, alloc, filled, parse_limit, put_single, put_limit, new_single,
  add_limit, add_limits, reload, take_from, containing, own_counters, client_counters, insert_by,
  sort_counters, make_group, limiter,
}
use gost_x.Limiter.Table.Keeping.{limiter-global}

abbrev options : Options
options = record {
  limits =
      codes "$ 4"
      ∷ codes "$$ 5"
      ∷ codes "10.0.0.0/8\t7"
      ∷ codes "10.1.1.1 3 x"
      ∷ codes "bad 0"
      ∷ [];
  loaders = no_loaders;
  period = 0;
}

abbrev empty : Store
empty = record { cells = λ r. new_limiter 0; next = 0 }

limits_of : Text → Option (List ℕ)
unfolding table_code alloc filled parse_limit put_single put_limit new_single add_limit add_limits
    reload take_from containing own_counters client_counters insert_by sort_counters make_group
    limiter atoi gt64 write libs in_network
limits_of key =
    let (g, (l, st)) = limiter libs key (reload options false 0 empty) in
    elim g [ none ↦ none | some rs ↦ some (map (λ r. (st.cells r).limit) rs) ]

-- An address with its own limit, one of a network, and one that has the limit of every address.
limits_of_three :
    (limits_of (codes "10.1.1.1") ≡ some (3 ∷ 4 ∷ []))
    × (limits_of (codes "10.1.1.2") ≡ some (4 ∷ 7 ∷ []))
    × (limits_of (codes "::1") ≡ some (4 ∷ 5 ∷ []))
unfolding limits_of
limits_of_three = (refl, refl, refl)

abbrev loaded : ConnLimiter × Store
loaded = reload options false 0 empty

limiter-global_example :
    (rs : List ℕ) × ((limiter libs (codes "::1") (loaded.0, loaded.1)).0 ≡ some rs)
    × (has 0 rs ≡ true)
    × (limiter libs (codes "::1") (limiter libs (codes "::1") (loaded.0, loaded.1)).1
        ≡ limiter libs (codes "::1") (loaded.0, loaded.1))
unfolding table_code alloc filled parse_limit put_single put_limit new_single add_limit add_limits
    reload atoi gt64
limiter-global_example = limiter-global libs (codes "::1") loaded.0 loaded.1 0 refl refl
