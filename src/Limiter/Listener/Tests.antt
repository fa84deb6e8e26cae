-- ===== src/Limiter/Listener/Tests.antt =====
-- A listener on concrete connections.
use gost_x.Prelude.{◌≤◌, ◌≡◌, refl, [], ◌∷◌, List, arith}
use gost_x.Text.{codes}
use gost_x.Code.{table_code}
use gost_x.Samples.{libs, in_network}
use gost_x.Int64.{add64, neg64, gt64, atoi}
use gost_x.Limiter.Conn.{write, allow, allow_at, allow_until, take_back, group_allow}
use gost_x.Limiter.Table.{
  Setting, limits_option, apply, apply_all, zero_options, new_conn_limiter, alloc, filled,
  parse_limit, put_single, put_limit, new_single, add_limit, add_limits, reload, take_from,
  containing, own_counters, client_counters, insert_by, sort_counters, make_group, limiter,
}
use gost_x.Limiter.Table.Cells.{count}
use gost_x.Limiter.Table.Reload.{SmallLimits}
use gost_x.Limiter.Listener.{
  Action, accepts, closes, start, run, act, accept, remote_host, close_conn, without,
}
use gost_x.Limiter.Listener.Accepting.{run-counted}

abbrev settings : List Setting
settings = limits_option (codes "$ 2" ∷ codes "$$ 1" ∷ []) ∷ []

abbrev actions : List Action
actions =
    accepts (codes "1.1.1.1:10")
    ∷ accepts (codes "1.1.1.1:11")
    ∷ accepts (codes "2.2.2.2:12")
    ∷ accepts (codes "3.3.3.3:13")
    ∷ closes 0
    ∷ []

unfoldable code : Unit {0}
unfolding table_code alloc filled parse_limit put_single put_limit new_single add_limit add_limits
    reload take_from containing own_counters client_counters insert_by sort_counters make_group
    limiter atoi gt64 add64 neg64 write libs in_network allow allow_at allow_until take_back
    group_allow apply apply_all new_conn_limiter start run act accept remote_host close_conn without
code = tt

-- The second connection from 1.1.1.1 and the third client are refused; then one of the two closes.
one_open : (run libs actions (start settings 0)).open_conns ≡ (1 ∷ 0 ∷ []) ∷ []
unfolding code
one_open = refl

small : SmallLimits (apply_all settings zero_options)
unfolding code
small t = ((λ e. omega arith), ((λ e. omega arith), tt))

run-counted_example :
    ((run libs actions (start settings 0)).store.cells 0).current
      ≡ count 0 (run libs actions (start settings 0)).open_conns
    × (count 0 (run libs actions (start settings 0)).open_conns
        ≤ ((run libs actions (start settings 0)).store.cells 0).limit)
unfolding code
run-counted_example = run-counted libs settings 0 actions 0 small (ground arith)
