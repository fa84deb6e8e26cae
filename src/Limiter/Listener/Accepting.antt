-- ===== src/Limiter/Listener/Accepting.antt =====
-- Connections are accepted and the table is reloaded: the places stay within the limits.
use gost_x.Prelude.{
  ℕ, ◌<◌, ◌≤◌, ◌≡◌, sym, subst, Bool, true, false, Option, some, Option-cases, List, [], ◌∷◌, All,
  Bool-cases, inl, inr, if◌then◌else◌, arith,
}
use gost_x.Text.{Text, eq_text}
use gost_x.Assoc.{lookup, lookup-insert}
use gost_x.Net.{Libs}
use gost_x.Limiter.Conn.{Heap, new_limiter, group_allow}
use gost_x.Limiter.Conn.Cell.{IsWithin}
use gost_x.Limiter.Conn.Bump.{bump, room, Within}
use gost_x.Limiter.Conn.Group.{group_allow-bump}
use gost_x.Limiter.Table.{
  Store, ConnLimiter, Options, Setting, apply_all, zero_options, new_conn_limiter, limiter,
  make_group, reload,
}
use gost_x.Limiter.Table.Cells.{count, IsGroup, IsGroup-mono, Counted}
use gost_x.Limiter.Table.Making.{IsMade, make_group-IsMade}
use gost_x.Limiter.Table.Reload.{SmallLimits, IsReloaded, options-reload, reload-IsReloaded}
use gost_x.Limiter.Listener.{
  World, Action, accepts, closes, ticks, remote_host, accept, act, run, start,
}
use gost_x.Limiter.Listener.Places.{IsSound, Within-group, bump-Counted, close_conn-IsSound}

group_allow_one :
    (h : Heap) (m : ℕ) (rs : List ℕ)
    → IsGroup m rs
    → Within h rs
    → group_allow h rs 1 ≡ (if room h rs 1 then (bump h rs 1, true) else (h, false))
group_allow_one h m [] g w = absurd (cc (g.filled))
group_allow_one h m (r ∷ rs) g w = group_allow-bump h r rs 1 g.apart w (omega arith) (omega arith)

abbrev asked : Libs → Text → World → Option (List ℕ) × (ConnLimiter × Store)
asked libs key w = limiter libs key (w.table, w.store)

abbrev after_lookup : Libs → Text → World → World
after_lookup libs key w =
    let x = asked libs key w in record { table = x.1.0; store = x.1.1; open_conns = w.open_conns }

-- A lookup makes no connection, and its group is one of the table.
limiter-IsSound :
    (libs : Libs) (key : Text) (w : World)
    → IsSound w
    → IsSound (after_lookup libs key w)
      × ((rs : List ℕ) → (asked libs key w).0 ≡ some rs → IsGroup (asked libs key w).1.1.next rs)
unfolding limiter
limiter-IsSound libs key w h = elim (Option-cases (lookup key w.table.limits)) [
  | inr (g, e) ↦ rw (e, limiter) (h, λ rs q. h.groups key rs (cc (e, q)))
  | inl e ↦
      rw (e, limiter)
        (
          record {
            small = h.small;
            counted = made.counted;
            opened = IsGroup-mono w.store.next st.next w.open_conns made.grows h.opened;
            bound = h.bound;
            bounded = omega (arith, h.bounded, made.grows);
            table = h.table;
            groups = λ k rs q. elim (Bool-cases (eq_text key k)) [
              | inl p ↦ made.group rs (ground (arith, lookup-insert key k g w.table.limits))
              | inr p ↦
                  (IsGroup-mono w.store.next st.next (rs ∷ []) made.grows
                    (h.groups k rs (ground (arith, lookup-insert key k g w.table.limits)), tt)).0
            ];
          },
          made.group,
        )
]
  where
    g : Option (List ℕ)
    g = (make_group libs w.table key w.store).0

    st : Store
    st = (make_group libs w.table key w.store).1

    made : IsMade w.open_conns w.store.next g st
    made =
        make_group-IsMade libs w.table key h.bound w.open_conns w.store h.table h.bounded h.counted
          h.opened

accept-IsSound :
    (libs : Libs) (addr : Text) (w : World) → IsSound w → IsSound (accept libs addr w).1
unfolding accept
accept-IsSound libs addr w h = elim (Option-cases g) [
  | inl e ↦ rw (e, accept) found.0
  | inr (rs, e) ↦ elim (Bool-cases (room v.store.cells rs 1)) [
    | inl r ↦
        rw (e, accept, allowed rs e, r)
          (record {
            small = found.0.small;
            counted = bump-Counted v.open_conns v.store rs r found.0.counted;
            opened = (found.1 rs e, found.0.opened);
            bound = found.0.bound;
            bounded = found.0.bounded;
            table = found.0.table;
            groups = found.0.groups;
          })
    | inr r ↦ rw (e, accept, allowed rs e, r) found.0
  ]
]
  where
    key : Text
    key = remote_host addr

    g : Option (List ℕ)
    g = (asked libs key w).0

    v : World
    v = after_lookup libs key w

    found : IsSound v × ((rs : List ℕ) → g ≡ some rs → IsGroup v.store.next rs)
    found = limiter-IsSound libs key w h

    allowed :
        (rs : List ℕ)
        → g ≡ some rs
        → group_allow v.store.cells rs 1 ≡ (
            if room v.store.cells rs 1
            then (bump v.store.cells rs 1, true)
            else (v.store.cells, false))
    allowed rs e =
        group_allow_one v.store.cells v.store.next rs (found.1 rs e)
          (Within-group v.open_conns v.store rs found.0.counted (found.1 rs e).below)

reloaded-IsSound :
    (o : Options) (c : Bool) (t : ℕ) (st : Store) (conns : List (List ℕ))
    → SmallLimits o
    → Counted conns st
    → All (IsGroup st.next) conns
    → IsSound
        (record { table = (reload o c t st).0; store = (reload o c t st).1; open_conns = conns })
reloaded-IsSound o c t st conns p k g = record {
  small = subst SmallLimits (sym (options-reload o c t st)) p;
  counted = made.counted;
  opened = IsGroup-mono st.next (reload o c t st).1.next conns made.grows g;
  bound = (reload o c t st).1.next;
  bounded = omega arith;
  table = made.table;
  groups = λ j rs q. absurd (cc (made.empty j, q));
}
  where
    made : IsReloaded conns st.next (reload o c t st)
    made = reload-IsReloaded conns o c t st p k g

act-IsSound : (libs : Libs) (a : Action) (w : World) → IsSound w → IsSound (act libs a w)
unfolding act
act-IsSound libs (accepts addr) w h = accept-IsSound libs addr w h
act-IsSound libs (closes k) w h = close_conn-IsSound k w h
act-IsSound libs (ticks t) w h =
    reloaded-IsSound w.table.options w.table.cancelled t w.store w.open_conns h.small h.counted
      h.opened

run-IsSound : (libs : Libs) (as' : List Action) (w : World) → IsSound w → IsSound (run libs as' w)
unfolding run
run-IsSound libs [] w h = h
run-IsSound libs (a ∷ as') w h = run-IsSound libs as' (act libs a w) (act-IsSound libs a w h)

start-IsSound :
    (ss : List Setting) (t : ℕ) → SmallLimits (apply_all ss zero_options) → IsSound (start ss t)
unfolding start new_conn_limiter
start-IsSound ss t p =
    reloaded-IsSound (apply_all ss zero_options) false t
      (record { cells = λ r. new_limiter 0; next = 0 }) [] p (λ r q. absurd (omega arith)) tt

-- A listener over a new limiter, after any connections, closes of open connections and reloads of the
-- table: every counter that there is holds the number of the open connections that were granted on it,
-- and that is at most its limit. No line is to ask for a limit of 2 ^ 62 or more, and each connection
-- is closed once.
pub run-counted :
    (libs : Libs) (ss : List Setting) (t : ℕ) (as' : List Action) (r : ℕ)
    → SmallLimits (apply_all ss zero_options)
    → r < (run libs as' (start ss t)).store.next
    → let w = run libs as' (start ss t) in
      ((w.store.cells r).current ≡ count r w.open_conns)
      × (count r w.open_conns ≤ (w.store.cells r).limit)
run-counted libs ss t as' r p q =
    (place.1, subst (λ n. n ≤ (w.store.cells r).limit) place.1 place.0.bounded)
  where
    w : World
    w = run libs as' (start ss t)

    place : IsWithin (w.store.cells r) × ((w.store.cells r).current ≡ count r w.open_conns)
    place = (run-IsSound libs as' (start ss t) (start-IsSound ss t p)).counted r q
