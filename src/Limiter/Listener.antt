-- ===== src/Limiter/Listener.antt =====
-- limiter/conn/wrapper/listener.go and limiter/conn/wrapper/conn.go: the listener that counts the
-- connections of a client, and the connections that give their place back.
pub mod Places
pub mod Accepting
mod Tests
use gost_x.Prelude.{
  ℕ, zero, suc, ◌+◌, Bool, true, false, Option, none, some, List, [], ◌∷◌, get_elem?, if◌then◌else◌,
}
use gost_x.Text.{Text}
use gost_x.Net.{Libs, split_host_port}
use gost_x.Int64.{neg64}
use gost_x.Limiter.Conn.{Heap, new_limiter, group_allow}
use gost_x.Limiter.Table.{Store, ConnLimiter, Setting, new_conn_limiter, reload, limiter}

-- The limiter, its counters, and the wrapped connections that are open, each by its group.
pub record World : Type 0 where
  pub table : ConnLimiter
  pub store : Store
  pub open_conns : List (List ℕ)

-- A connection that Accept returns: wrapped, as it came, or closed by the listener.
pub data Accepted : Type 0 where
  wrapped : Accepted
  plain : Accepted
  refused : Accepted

-- The host of SplitHostPort, empty on an error.
unfoldable pub remote_host : Text → Text
remote_host addr = elim (split_host_port addr) [ none ↦ [] | some (host, port) ↦ host ]

-- Accept, for a connection from addr.
unfoldable pub accept : Libs → Text → World → Accepted × World
accept libs addr w =
    let (g, (l, st)) = limiter libs (remote_host addr) (w.table, w.store) in
    elim g [
      | none ↦ (plain, record { table = l; store = st; open_conns = w.open_conns })
      | some rs ↦
          let (h, b) = group_allow st.cells rs 1 in
          if b
          then (
            wrapped,
            record { table = l; store = record st { cells = h }; open_conns = rs ∷ w.open_conns },
          )
          else (
            refused,
            record { table = l; store = record st { cells = h }; open_conns = w.open_conns },
          )
    ]

unfoldable pub without : ℕ → List (List ℕ) → List (List ℕ)
without k [] = []
without zero (c ∷ cs) = cs
without (suc k) (c ∷ cs) = c ∷ without k cs

-- Close of the k-th open connection, once.
unfoldable pub close_conn : ℕ → World → World
close_conn k w = elim (get_elem? w.open_conns k) [
  | none ↦ w
  | some rs ↦ record {
    table = w.table;
    store = record w.store { cells = (group_allow w.store.cells rs (neg64 1)).0 };
    open_conns = without k w.open_conns;
  }
]

pub data Action : Type 0 where
  accepts : Text → Action
  closes : ℕ → Action
  ticks : ℕ → Action

-- What may happen, one action at a time: a connection, its end, or a reload of the table.
unfoldable pub act : Libs → Action → World → World
act libs (accepts addr) w = (accept libs addr w).1
act libs (closes k) w = close_conn k w
act libs (ticks t) w =
    let (l, st) = reload w.table.options w.table.cancelled t w.store in
    record { table = l; store = st; open_conns = w.open_conns }

unfoldable pub run : Libs → List Action → World → World
run libs [] w = w
run libs (a ∷ as') w = run libs as' (act libs a w)

-- A listener over a new limiter.
unfoldable pub start : List Setting → ℕ → World
start ss t =
    let x = (new_conn_limiter ss t (record { cells = λ r. new_limiter 0; next = 0 })).0 in
    record { table = x.0; store = x.1; open_conns = [] }
